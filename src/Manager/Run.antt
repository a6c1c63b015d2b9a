-- ===== src/Manager/Run.antt =====
-- The execution of queued jobs in src/lifecycle/LifecycleManager.ts: `drain`, `run`,
-- `completeExecution`, the handler of `run`, and the `finally` of `drain`. `run` is cut at its
-- `await`: `run_completed` and `run_failed` bring what `runLocal` or `runSshJob` returned or threw.
pub mod Drain
pub mod Ends
use run_beacon.Base.{
  ℕ, zero, List, [], ◌∷◌, ◌++◌, Bool, true, false, not, Option, none, some, length, ltb, leb,
  if◌then◌else◌, get_or, is_some, contains, remove,
}
use run_beacon.Base.Dict.{lookup, insert, erase}
use run_beacon.Base.Text.{Text, ascii, decimal}
use run_beacon.Types.{
  JobRecord, JobState, JobPhase, JobConnectionState, Approval, ExecutionMode, TargetKind,
}
use run_beacon.Manager.{Manager, StartJobInput, AuditEntry, AuditAction, AuditOutcome}
use run_beacon.Manager.Effects.{changed, touch, finish, append_audit}
use run_beacon.Manager.Queue.{schedule_drain}

pub record ExecutionResult : Type 0 where
  pub exit_code : Option ℕ
  pub signal : Option Text
  pub timed_out : Bool
  pub terminal_state : Option JobState
  pub cancellation_verified : Option Bool

-- What `runLocal` and `runSshJob` throw: a `RunnerTransportError` with the code
-- `REMOTE_STATE_LOST`, or anything else, with its message.
pub data RunError : Type 0 where
  remote_state_lost other_error : Text → RunError

unfoldable pub is_ssh : StartJobInput → Bool
is_ssh input = elim input.target [
  | none ↦ false
  | some t ↦ elim t.kind [ TargetKind.ssh ↦ true | TargetKind.local ↦ false ]
]

run_record : ℕ → Bool → JobRecord → JobRecord
run_record now ssh job = record job {
  state = JobState.running;
  execution = record job.execution {
    phase = if ssh then JobPhase.connecting else JobPhase.executing;
    connection_state =
        if ssh then JobConnectionState.connecting else JobConnectionState.not_applicable;
  };
  started_at = some now;
}

-- `run` up to its first `await`; `runLocal` stamps the start of the command and sets the handle that
-- can verify a cancellation, and `runSsh`, which `runSshJob` calls first in the mode `direct`, sets
-- one that cannot.
pub run : ℕ → ℕ → StartJobInput → Manager → Manager
unfolding run_record is_ssh
run now id input m = elim (lookup id m.jobs) [
  | none ↦ m
  | some job ↦
      let m₁ =
        touch now id (ascii "Job started.")
          (record m { jobs = insert id (run_record now (is_ssh input) job) m.jobs }) in
      let handle : Bool → Manager → Manager = λ verified n. record n {
        runtime_handles = insert id (record { cancellation_verified = verified }) n.runtime_handles;
      } in
      if not (is_ssh input)
      then handle true (changed now id m₁)
      else elim (get_or input.execution_mode ExecutionMode.auto) [
        | ExecutionMode.direct ↦ handle false m₁
        | _ ↦ m₁
      ]
]

-- The approval was granted, and the grant has expired.
pub is_grant_expired : ℕ → JobRecord → Bool
is_grant_expired now job = elim job.policy.approval [
  | Approval.approved ↦ elim job.policy.grant_expires_at [ none ↦ false | some t ↦ leb t now ]
  | _ ↦ false
]

-- One round of the loop of `drain` goes on, or throws out of the loop.
pub data DrainRound : Type 0 where
  next thrown : Manager → DrainRound

expire_record : JobRecord → JobRecord
expire_record job = record job { policy = record job.policy { approval = Approval.expired } }

-- The body of the loop of `drain`, with the id already taken off the queue.
pub drain_round : ℕ → ℕ → Manager → DrainRound
unfolding run is_grant_expired expire_record
drain_round now id m = elim (lookup id m.jobs) [
  | none ↦ next m
  | some job ↦ elim (lookup id m.pending_inputs) [
    | none ↦ next m
    | some input ↦
        let m₁ = record m { pending_inputs = erase id m.pending_inputs } in
        let m₂ = record m₁ { jobs = insert id (expire_record job) m₁.jobs } in
        let entry : AuditEntry = record {
          action = AuditAction.approval;
          outcome = AuditOutcome.expired;
          job_id = id;
          risk = job.policy.risk;
          command_digest = none;
        } in
        if job.cancel_requested
        then next m
        else if is_grant_expired now job
        then elim (append_audit entry m₂) [
          | none ↦ thrown m₂
          | some m₃ ↦ next (
              finish now id JobState.failed
                (some (ascii "APPROVAL_REQUIRED: approval grant expired")) m₃)
        ]
        else next (
            run now id input (record m₁ {
              active_jobs =
                  if contains id m₁.active_jobs then m₁.active_jobs else m₁.active_jobs ++ id ∷ [];
            }))
  ]
]

-- The loop of `drain` over the queue; nothing in it adds to the queue.
pub drain_each : ℕ → List ℕ → Manager → Manager
unfolding drain_round
drain_each now [] m = m
drain_each now (id ∷ rest) m =
    let after : DrainRound = drain_round now id (record m { queue = rest }) in
    let n : Manager = elim after [ next n ↦ drain_each now rest n | thrown n ↦ n ] in
    if ltb (length m.active_jobs) m.max_concurrent_jobs then n else m

-- `drain`, with the callback of `scheduleDrain` around it
unfoldable pub drain : ℕ → Manager → Manager
unfolding drain_each
drain now m = drain_each now m.queue (record m { drain_scheduled = false })

unverified : Option Bool → Option Text
unverified (some false) =
    some (ascii "The SSH channel was closed, but remote process termination could not be verified.")
unverified _ = none

abbrev pub exit_text : Option ℕ → Text
exit_text none = ascii "null"
exit_text (some code) = decimal code

complete_record : ExecutionResult → JobRecord → JobRecord
complete_record result job = record job {
  exit_code = result.exit_code;
  signal = result.signal;
  cancellation_verified =
      if is_some result.cancellation_verified
      then result.cancellation_verified
      else job.cancellation_verified;
}

-- The terminal state and the error that `completeExecution` finishes with.
pub verdict : ExecutionResult → JobRecord → JobState × Option Text
unfolding unverified
verdict result job =
    if job.cancel_requested
    then (JobState.cancelled, unverified job.cancellation_verified)
    else elim result.terminal_state [
      | some JobState.lost ↦ (JobState.lost, some (ascii "REMOTE_STATE_LOST"))
      | some JobState.timed_out ↦ (JobState.timed_out, some (ascii "Job timed out."))
      | some JobState.cancelled ↦
          if result.timed_out
          then (JobState.timed_out, some (ascii "Job timed out."))
          else (JobState.cancelled, none)
      | _ ↦
          if result.timed_out
          then (JobState.timed_out, some (ascii "Job timed out."))
          else elim result.exit_code [
            | some zero ↦ (JobState.succeeded, none)
            | code ↦ (
              JobState.failed,
              some (ascii "Process exited with code " ++ exit_text code ++ ascii "."),
            )
          ]
    ]

-- `completeExecution`
unfoldable pub complete_execution : ℕ → ℕ → ExecutionResult → Manager → Manager
unfolding complete_record verdict
complete_execution now id result m = elim (lookup id m.jobs) [
  | none ↦ m
  | some old ↦
      let job = complete_record result old in
      let (state, error) = verdict result job in
      finish now id state error (record m { jobs = insert id job m.jobs })
]

-- The terminal state and the error for what `run` catches.
pub catch_verdict : RunError → JobRecord → JobState × Option Text
unfolding unverified
catch_verdict error job =
    if job.cancel_requested
    then (JobState.cancelled, unverified job.cancellation_verified)
    else elim error [
      | remote_state_lost message ↦ (JobState.lost, some message)
      | other_error message ↦ (JobState.failed, some message)
    ]

catch : ℕ → ℕ → RunError → Manager → Manager
unfolding catch_verdict
catch now id error m = elim (lookup id m.jobs) [
  | none ↦ m
  | some job ↦ let (state, message) = catch_verdict error job in finish now id state message m
]

-- The `finally` of `drain`
pub release : ℕ → Manager → Manager
release id m = schedule_drain (record m {
  active_jobs = remove id m.active_jobs;
  runtime_handles = erase id m.runtime_handles;
})

-- `run` after its `await`
unfoldable pub run_completed : ℕ → ℕ → ExecutionResult → Manager → Manager
unfolding release
run_completed now id result m = release id (complete_execution now id result m)

unfoldable pub run_failed : ℕ → ℕ → RunError → Manager → Manager
unfolding catch release
run_failed now id error m = release id (catch now id error m)
