-- ===== src/Daemon/Client.antt =====
-- A client of the daemon, src/lifecycle/DaemonClient.ts: `ping`, `ensureReady`, `replaceOlderDaemon` and the loop of
-- `waitForTerminal`, over what the socket answers.
pub mod Socket
pub mod Handover
pub mod Ready
pub mod Waiting
use run_beacon.Base.{
  ℕ, zero, suc, ◌+◌, ◌-◌, max, List, [], ◌∷◌, ◌++◌, Bool, true, false, not, ◌&&◌, ◌||◌, Option,
  none, some, ltb, leb, ◌==◌, if◌then◌else◌, get_or,
}
use run_beacon.Base.Text.{Text, text_eq}
use run_beacon.Daemon.Build.{Sign, negative, equal, positive, compare_build_versions}
use run_beacon.Daemon.{DaemonPing, Replacement}

-- The build of the client.
pub record Client : Type 0 where
  pub protocol_version : ℕ
  pub expected_build_id : Text
  pub expected_build_version : Text

-- How a call of the daemon fails: `DaemonTransportError`, `DaemonRpcError`, `IncompatibleDaemonError`,
-- `UpgradeRequiredError`, or another error.
pub data ClientError : Type 0 where
  transport rpc incompatible other : ClientError
  upgrade_required : DaemonPing → ClientError

pub data Reply {ℓ} (A : Type ℓ) : Type ℓ where
  answered : A → Reply A
  failed : ClientError → Reply A

unfoldable pub of_comparison : DaemonPing → Option Sign → Reply DaemonPing
of_comparison ping none = failed other
of_comparison ping (some positive) = failed (upgrade_required ping)
of_comparison ping (some negative) = failed incompatible
of_comparison ping (some equal) = failed incompatible

module _ (collate : Text → Text → Sign) where
  -- What `ping` makes of a daemon's answer.
  unfoldable pub check_ping : Client → DaemonPing → Reply DaemonPing
  unfolding compare_build_versions of_comparison
  check_ping c ping =
      if ltb c.protocol_version ping.protocol_version
      then failed incompatible
      else if ltb ping.protocol_version c.protocol_version
      then failed (upgrade_required ping)
      else if text_eq ping.build_id c.expected_build_id
      then answered ping
      else of_comparison ping
          (compare_build_versions collate c.expected_build_version ping.build_version)

  -- `ping` over the reply of its request, `none` where that fails.
  unfoldable pub ping_daemon : Client → Option DaemonPing → Reply DaemonPing
  unfolding check_ping
  ping_daemon c none = failed transport
  ping_daemon c (some ping) = check_ping c ping

-- The `replacement` that `replaceOlderDaemon` sends.
unfoldable pub replacement_of : Client → DaemonPing → Replacement
replacement_of c ping = record {
  expected_build_id = ping.build_id;
  protocol_version = some c.protocol_version;
  build_version = c.expected_build_version;
}

-- What the client does: a request to shut down, the start of a daemon.
pub data Action : Type 0 where
  asked_to_stop : Replacement → Action
  spawned : Action

-- How a method ends; `waiting` where no reply is left in the list.
pub data End : Type 0 where
  done : End
  threw : ClientError → End
  waiting : End

-- The loop of `replaceOlderDaemon`, with the rounds that are left: it ends once a ping fails.
unfoldable pub until_stopped : ℕ → List (Option DaemonPing) → End × List (Option DaemonPing)
until_stopped zero replies = (threw other, replies)
until_stopped (suc left) [] = (waiting, [])
until_stopped (suc left) (some ping ∷ replies) = until_stopped left replies
until_stopped (suc left) (none ∷ replies) = (done, replies)

-- `replaceOlderDaemon`: its end, what it does, and the replies that are left.
unfoldable pub replace_older_daemon :
    Client → DaemonPing → List (Option DaemonPing) → End × List Action × List (Option DaemonPing)
unfolding replacement_of until_stopped
replace_older_daemon c ping replies =
    if ltb 0 ping.active_jobs || ltb 0 ping.queued_jobs
    then (threw incompatible, [], replies)
    else let (end, rest) = until_stopped 50 replies in
      (end, asked_to_stop (replacement_of c ping) ∷ [], rest)

module _ (collate : Text → Text → Sign) where
  -- The loop of `ensureReady`, with the rounds that are left.
  unfoldable pub until_ready : Client → ℕ → List (Option DaemonPing) → End
  unfolding ping_daemon
  until_ready c zero replies = threw other
  until_ready c (suc left) [] = waiting
  until_ready c (suc left) (r ∷ replies) = elim (ping_daemon collate c r) [
    | answered ping ↦ done
    | failed incompatible ↦ threw incompatible
    | failed e ↦ until_ready c left replies
  ]

  unfoldable pub spawn : Client → List Action → List (Option DaemonPing) → End × List Action
  unfolding until_ready
  spawn c actions replies = (until_ready c 50 replies, actions ++ spawned ∷ [])

  unfoldable pub after_replacement :
      Client → End × List Action × List (Option DaemonPing) → End × List Action
  unfolding spawn
  after_replacement c (done, actions, replies) = spawn c actions replies
  after_replacement c (threw e, actions, replies) = (threw e, actions)
  after_replacement c (waiting, actions, replies) = (waiting, actions)

  -- `ensureReady` over the replies to its pings, in order.
  unfoldable pub ensure_ready : Client → List (Option DaemonPing) → End × List Action
  unfolding ping_daemon spawn after_replacement replace_older_daemon
  ensure_ready c [] = (waiting, [])
  ensure_ready c (r ∷ replies) = elim (ping_daemon collate c r) [
    | answered ping ↦ (done, [])
    | failed (upgrade_required ping) ↦ after_replacement c (replace_older_daemon c ping replies)
    | failed incompatible ↦ (threw incompatible, [])
    | failed e ↦ spawn c [] replies
  ]

-- A round of the loop of `waitForTerminal`: the time of the request, its reply, whether the signal is
-- aborted, the time read after an error, and how the `ensureReady` that follows ends.
pub record WaitRound {ℓ} (A : Type ℓ) : Type ℓ where
  pub now : ℕ
  pub reply : Reply A
  pub aborted : Bool
  pub failed_at : ℕ
  pub ready : End

is_rpc : ClientError → Bool
is_rpc rpc = true
is_rpc _ = false

-- The result, an error, or `none` while the loop goes on; and the timeouts of the requests, for the
-- daemon and for the socket.
unfoldable pub wait_loop {ℓ} :
    {A : Type ℓ} → ℕ → List (WaitRound A) → Option (Reply A) × List (ℕ × ℕ)
unfolding is_rpc
wait_loop deadline [] = (none, [])
wait_loop deadline (r ∷ rounds) =
    let remaining = deadline - r.now in
    let request : ℕ × ℕ = (remaining, max 5000 (remaining + 5000)) in
    elim (r.reply) [
      | answered x ↦ (some (answered x), request ∷ [])
      | failed e ↦ elim (r.aborted || is_rpc e || leb deadline r.failed_at) [
        | true ↦ (some (failed e), request ∷ [])
        | false ↦ elim (r.ready) [
          | done ↦ let (end, requests) = wait_loop deadline rounds in (end, request ∷ requests)
          | threw f ↦ (some (failed f), request ∷ [])
          | waiting ↦ (none, request ∷ [])
        ]
      ]
    ]

-- `waitForTerminal`, called at a time.
unfoldable pub wait_for_terminal {ℓ} :
    {A : Type ℓ} → ℕ → Option ℕ → List (WaitRound A) → Option (Reply A) × List (ℕ × ℕ)
unfolding wait_loop
wait_for_terminal now timeout rounds = wait_loop (now + get_or timeout 86400000) rounds
