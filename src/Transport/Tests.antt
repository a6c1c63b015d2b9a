-- ===== src/Transport/Tests.antt =====
-- Runs of src/lifecycle/RunnerTransport.ts: a call that is answered, a path, and a probe.
use run_beacon.Base.{
  ℕ, ◌≤◌, ◌≡◌, ◌≢◌, ◌++◌, refl, List, [], ◌∷◌, true, false, none, some, All, Any, length,
}
use run_beacon.Base.Text.{Text, ascii, trim}
use run_beacon.Manager.Target.{normalize_fingerprint}
use run_beacon.Transport.{
  max_runner_response_bytes, Parsed, null, Event, key_checked, ready, channel_opened, output,
  channel_closed, runner_command, fresh, run,
}
use run_beacon.Transport.Ambiguity.{IsBadClose, FairEnd, run-FairEnd}
use run_beacon.Transport.Command.{IsPlain, runner_command_lem}
use run_beacon.Transport.Probe.{
  Algorithm, ssh_ed25519, ecdsa_nistp256, ecdsa_nistp384, ecdsa_nistp521, rsa_sha2_512,
  rsa_sha2_256, server_host_key_algorithms, ProbeEvent, host_key, failed, found,
  probe_ssh_host_key_algorithm, IsPinned, probe_ssh_host_key_algorithm_lem,
}
use run_beacon.Transport.Probe

-- The channel breaks after a part of the answer.
abbrev broken : List Event
broken = key_checked true ∷ ready ∷ channel_opened ∷ output (ascii "{") ∷ channel_closed none ∷ []

abbrev parse : Text → Parsed ℕ
parse t = null

run-FairEnd_example :
    let x = run parse (λ (t : Text). false) fresh broken in
    (length x.stdout ≤ max_runner_response_bytes)
    × ((length x.stderr ≤ max_runner_response_bytes)
        × FairEnd (Any IsBadClose broken) x.rpc_started x.settled)
run-FairEnd_example = run-FairEnd parse (λ (t : Text). false) broken

quoted : runner_command (some (ascii "/opt/runner")) ≡ some (ascii "'/opt/runner' rpc")
unfolding runner_command
quoted = refl

runner_command_lem_example :
    (ascii "'/opt/runner' rpc" ≡ ascii "'" ++ (ascii "/opt/runner" ++ ascii "' rpc"))
    × ((◌≡◌ {A = ℕ} b'/' b'/')
        × (All IsPlain (ascii "/opt/runner")
            × ((2 ≤ length (ascii "/opt/runner")) × (length (ascii "/opt/runner") ≤ 1024))))
runner_command_lem_example =
    runner_command_lem b'/' (ascii "opt/runner") (ascii "'/opt/runner' rpc") quoted

-- The host has an RSA key only.
abbrev rsa_only : Algorithm → List ProbeEvent
rsa_only ssh_ed25519 = failed ∷ []
rsa_only ecdsa_nistp256 = failed ∷ []
rsa_only ecdsa_nistp384 = failed ∷ []
rsa_only ecdsa_nistp521 = failed ∷ []
rsa_only rsa_sha2_512 = host_key (ascii "digest") ∷ Probe.ready ∷ []
rsa_only rsa_sha2_256 = host_key (ascii "digest") ∷ Probe.ready ∷ []

finds_rsa :
    probe_ssh_host_key_algorithm (some (ascii "SHA256:digest=")) rsa_only ≡ found rsa_sha2_512
unfolding probe_ssh_host_key_algorithm normalize_fingerprint trim
finds_rsa = refl

probe_ssh_host_key_algorithm_lem_example :
    (fingerprint : Text) × ((some (ascii "SHA256:digest=") ≡ some fingerprint)
      × ((normalize_fingerprint fingerprint ≢ [])
          × IsPinned
              (normalize_fingerprint fingerprint)
              rsa_only
              server_host_key_algorithms
              rsa_sha2_512))
probe_ssh_host_key_algorithm_lem_example =
    probe_ssh_host_key_algorithm_lem (some (ascii "SHA256:digest=")) rsa_only rsa_sha2_512 finds_rsa
