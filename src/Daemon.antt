-- ===== src/Daemon.antt =====
-- The resident daemon, src/daemon/lifecycle-daemon.ts: `handle` and the shutdown, over the manager. Requests
-- of the policy, the audit log, the subscriptions and the two kinds of wait are left out, and so is the
-- framing of a request. The protocol's version is a member, since a build may have another; `Number` of a
-- text that is no number is `none`.
pub mod Build
pub mod Client
pub mod Shutdown
mod Tests
use run_beacon.Base.{
  ℕ, ◌+◌, List, [], ◌∷◌, Bool, true, false, not, ◌&&◌, ◌||◌, Option, none, some, ltb, leb, ◌==◌,
  if◌then◌else◌, length,
}
use run_beacon.Base.Text.{Text, ascii, text_eq}
use run_beacon.Types.{ApprovalContext}
use run_beacon.Manager.{Manager, StartJobInput, JobSnapshot}
use run_beacon.Manager.Effects.{snapshot}
use run_beacon.Manager.Queue.{Result, ok, err, approve, reject_approval, cancel, approval_context}
use run_beacon.Manager.Start.{StartFacts, start}
use run_beacon.Manager.Watch.{runtime_status, list_jobs, dispose}
use run_beacon.Daemon.Build.{
  Sign, negative, equal, positive, validate_build_version, compare_build_versions,
}

pub record Daemon : Type 0 where
  pub manager : Manager
  pub token : Text
  pub protocol_version : ℕ
  pub build_id : Text
  pub build_version : Text
  pub shutting_down : Bool

pub record DaemonPing : Type 0 where
  pub protocol_version : ℕ
  pub build_id : Text
  pub build_version : Text
  pub active_jobs : ℕ
  pub queued_jobs : ℕ

-- The `replacement` of a shutdown, with its `expectedBuildId`.
pub record Replacement : Type 0 where
  pub expected_build_id : Text
  pub protocol_version : Option ℕ
  pub build_version : Text

-- A method with its arguments; a decision is missing or a text.
pub data Method : Type 0 where
  ping : Method
  start_job : StartFacts → StartJobInput → Method
  snapshot_job list_all : ℕ → ℕ → Method
  cancel_job context_of : ℕ → Method
  approval : ℕ → Option Text → Method
  shutdown : Option Replacement → Method
  unknown : Text → Method

pub data Refusal : Type 0 where
  unauthorized restarting stale_replacement busy invalid_version unknown_method : Refusal

pub data Response : Type 0 where
  pong : DaemonPing → Response
  job : Result JobSnapshot → Response
  found : Option JobSnapshot → Response
  jobs : List JobSnapshot → Response
  context : Result ApprovalContext → Response
  stopped : Response
  refused : Refusal → Response

pub record Request : Type 0 where
  pub token : Text
  pub method : Method

unfoldable pub ping_of : Daemon → DaemonPing
unfolding runtime_status
ping_of d = record {
  protocol_version = d.protocol_version;
  build_id = d.build_id;
  build_version = d.build_version;
  active_jobs = (runtime_status d.manager).0;
  queued_jobs = (runtime_status d.manager).1;
}

-- An operation of the manager, and its answer.
unfoldable pub after_job : Daemon → Result JobSnapshot × Manager → Response × Daemon
after_job d (result, m) = (job result, record d { manager = m })

unfoldable pub is_reject : Option Text → Bool
is_reject none = false
is_reject (some decision) = text_eq decision (ascii "reject")

unfoldable pub is_positive : Sign → Bool
is_positive negative = false
is_positive equal = false
is_positive positive = true

-- `replacementProtocol > DAEMON_PROTOCOL_VERSION`, and `===`.
unfoldable pub exceeds : Option ℕ → ℕ → Bool
exceeds none n = false
exceeds (some m) n = ltb n m

unfoldable pub is_same : Option ℕ → ℕ → Bool
is_same none n = false
is_same (some m) n = m == n

-- The end of a shutdown that may replace this daemon.
unfoldable pub stop : Daemon → Response × Daemon
unfolding runtime_status
stop d =
    let (active, queued) = runtime_status d.manager in
    if ltb 0 active || ltb 0 queued
    then (refused busy, d)
    else (stopped, record d { shutting_down = true })

-- A request while the daemon is stopping.
unfoldable pub while_stopping : Daemon → Method → Response × Daemon
unfolding ping_of
while_stopping d ping = (pong (ping_of d), d)
while_stopping d other = (refused restarting, d)

module _ (collate : Text → Text → Sign) where
  -- `isNewer` for a version that is valid; `none` where the comparison throws, which it does only if the
  -- protocols are the same.
  unfoldable pub is_newer : Daemon → Option ℕ → Text → Option Bool
  unfolding exceeds is_same is_positive compare_build_versions
  is_newer d protocol version =
      if exceeds protocol d.protocol_version
      then some true
      else if is_same protocol d.protocol_version
      then elim (compare_build_versions collate version d.build_version) [
        | none ↦ none
        | some sign ↦ some (is_positive sign)
      ]
      else some false

  unfoldable pub replace : Daemon → Replacement → Response × Daemon
  unfolding is_newer stop validate_build_version
  replace d r = elim (validate_build_version r.build_version) [
    | none ↦ (refused invalid_version, d)
    | some version ↦ elim (is_newer d r.protocol_version version) [
      | none ↦ (refused invalid_version, d)
      | some newer ↦
          if not (text_eq r.expected_build_id d.build_id) || not newer
          then (refused stale_replacement, d)
          else stop d
    ]
  ]

  -- The `switch` of `handle`.
  unfoldable pub dispatch : ℕ → Daemon → Method → Response × Daemon
  unfolding ping_of after_job is_reject replace stop snapshot cancel approve reject_approval
      approval_context
  dispatch now d ping = (pong (ping_of d), d)
  dispatch now d (start_job facts input) = after_job d (start now facts input d.manager)
  dispatch now d (snapshot_job id tail_lines) = (found (snapshot d.manager id tail_lines), d)
  dispatch now d (list_all tail_lines limit) = (jobs (list_jobs tail_lines limit d.manager), d)
  dispatch now d (cancel_job id) = after_job d (cancel now id d.manager)
  dispatch now d (context_of id) = (context (approval_context id d.manager), d)
  dispatch now d (approval id decision) =
      after_job d
        (if is_reject decision then reject_approval now id d.manager else approve now id d.manager)
  dispatch now d (shutdown none) = stop d
  dispatch now d (shutdown (some replacement)) = replace d replacement
  dispatch now d (unknown name) = (refused unknown_method, d)

  -- `handle`
  unfoldable pub handle : ℕ → Daemon → Request → Response × Daemon
  unfolding dispatch while_stopping
  handle now d request =
      if not (text_eq request.token d.token)
      then (refused unauthorized, d)
      else if not d.shutting_down
      then dispatch now d request.method
      else while_stopping d request.method
