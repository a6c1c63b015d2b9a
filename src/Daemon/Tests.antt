-- ===== src/Daemon/Tests.antt =====
-- Runs of src/daemon/lifecycle-daemon.ts and src/lifecycle/DaemonClient.ts: a client of a newer build replaces an idle
-- daemon.
use run_beacon.Base.{ℕ, ◌≡◌, ◌++◌, refl, List, [], ◌∷◌, true, false, Option, none, some, map}
use run_beacon.Base.Text.{Text, ascii, trim}
use run_beacon.Types.{JobState, JobPhase, Approval}
use run_beacon.Tests.{one, job}
use run_beacon.Daemon.Build.{Sign, equal, validate_build_version}
use run_beacon.Daemon.{Daemon, DaemonPing, Request, stopped, shutdown, ping_of, handle}
use run_beacon.Daemon.Shutdown.{IsIdle, Handled, handle_lem, serve, serve-IsIdle}
use run_beacon.Daemon.Client.{
  Client, incompatible, upgrade_required, failed, check_ping, replacement_of, ensure_ready,
}
use run_beacon.Base.{Any}
use run_beacon.Daemon.Client.{transport, done, answered, WaitRound, wait_for_terminal, wait_loop}
use run_beacon.Daemon.Client.Waiting.{IsReason, wait_for_terminal-IsReason}
use run_beacon.Daemon.Client.Handover.{client_of, daemon_of, check_ping_sym, replacement-stopped}
use run_beacon.Daemon.Client.Ready.{IsRight, ensure_ready_lem}
use run_beacon.Daemon.Client.Socket.{
  RpcResponse, chunk, ended, concat, line_of, outcome_of, request, request_lem,
}

-- Texts that are compared by no order.
abbrev no_order : Text → Text → Sign
no_order s t = equal

abbrev old_daemon : Daemon
old_daemon = record {
  manager = one (job JobState.queued JobPhase.queued Approval.pending) [] [];
  token = ascii "secret";
  protocol_version = 5;
  build_id = ascii "11";
  build_version = ascii "3.0.0";
  shutting_down = false;
}

abbrev new_client : Client
new_client = record {
  protocol_version = 5;
  expected_build_id = ascii "22";
  expected_build_version = ascii "3.1.0";
}

new_client_upgrades :
    check_ping no_order new_client (ping_of old_daemon)
    ≡ failed (upgrade_required (ping_of old_daemon))
unfolding check_ping ping_of trim
new_client_upgrades = refl

new_client_valid :
    validate_build_version new_client.expected_build_version
    ≡ some new_client.expected_build_version
unfolding validate_build_version trim
new_client_valid = refl

check_ping_sym_example :
    check_ping no_order (client_of (ping_of old_daemon)) (daemon_of new_client 0 0)
    ≡ failed incompatible
check_ping_sym_example =
    check_ping_sym no_order (λ (s t : Text). refl) new_client (ping_of old_daemon)
      (ping_of old_daemon) 0 0 new_client_upgrades

replacement-stopped_example :
    handle no_order 7 old_daemon (record {
      token = ascii "secret";
      method = shutdown (some (replacement_of new_client (ping_of old_daemon)));
    })
    ≡ (stopped, record old_daemon { shutting_down = true })
replacement-stopped_example =
    replacement-stopped no_order 7 new_client old_daemon (ping_of old_daemon) new_client_upgrades
      new_client_valid refl (refl, refl)

abbrev stop_request : Request
stop_request = record { token = ascii "secret"; method = shutdown none }

handle_lem_example :
    Handled no_order old_daemon stop_request (handle no_order 7 old_daemon stop_request)
handle_lem_example = handle_lem no_order 7 old_daemon stop_request

stopping : (serve no_order old_daemon ((7, stop_request) ∷ [])).shutting_down ≡ true
unfolding serve handle
stopping = refl

serve-IsIdle_example : IsIdle (serve no_order old_daemon ((7, stop_request) ∷ []))
serve-IsIdle_example = serve-IsIdle no_order old_daemon ((7, stop_request) ∷ []) refl stopping

-- The old daemon answers, stops, and the new one answers.
abbrev pings : List (Option DaemonPing)
pings = some (ping_of old_daemon) ∷ none ∷ some (daemon_of new_client 0 0) ∷ []

ensure_ready_lem_example :
    IsRight no_order new_client pings (ensure_ready no_order new_client pings)
ensure_ready_lem_example = ensure_ready_lem no_order new_client pings

-- Whatever the line, it answers 3.
abbrev parse : Text → Option (RpcResponse ℕ)
parse t = some (record { id = ascii "1"; result = 3; error = none })

abbrev cut : List Text
cut = ascii "{}" ∷ (ascii "}" ++ 10 ∷ []) ∷ []

request_lem_example :
    request parse (ascii "1") false (map chunk cut ++ ended ∷ [])
    ≡ some (outcome_of parse (ascii "1") (line_of (concat cut)))
request_lem_example = request_lem parse (ascii "1") cut ended [] refl

-- The connection breaks, the daemon is started again, and it answers.
abbrev tries : List (WaitRound ℕ)
tries =
    record { now = 0; reply = failed transport; aborted = false; failed_at = 10; ready = done }
    ∷ record { now = 20; reply = answered 3; aborted = false; failed_at = 20; ready = done }
    ∷ []

answers : (wait_for_terminal 0 (some 1000) tries).0 ≡ some (answered 3)
unfolding wait_for_terminal wait_loop
answers = refl

wait_for_terminal-IsReason_example : Any (IsReason 1000 (answered 3)) tries
wait_for_terminal-IsReason_example =
    wait_for_terminal-IsReason 0 (some 1000) tries (answered 3) answers
