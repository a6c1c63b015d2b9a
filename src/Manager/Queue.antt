-- ===== src/Manager/Queue.antt =====
-- The queue of src/lifecycle/LifecycleManager.ts: `approve`, `rejectApproval`, `approvalContext`,
-- `cancel` and `scheduleDrain`. A method returns its
-- result and the manager, which keeps what was written before a throw. The call of a runtime
-- handle's `cancel` is the entry in `cancelled_runs`.
pub mod Grants
use run_beacon.Base.{
  ℕ, ◌+◌, ◌*◌, [], ◌∷◌, ◌++◌, Bool, true, false, not, Option, none, some, if◌then◌else◌, is_some,
  remove,
}
use run_beacon.Base.Dict.{lookup, insert, erase}
use run_beacon.Base.Text.{ascii}
use run_beacon.Types.{
  JobRecord, JobState, JobPhase, Approval, ApprovalContext, is_terminal_job_state,
}
use run_beacon.Manager.{Manager, JobSnapshot, AuditEntry, AuditAction, AuditOutcome}
use run_beacon.Manager.Effects.{snapshot, touch, finish, append_audit}

pub data ManagerError : Type 0 where
  manager_disposed unknown_job not_awaiting_approval pending_command_lost : ManagerError
  approval_context_lost audit_failed : ManagerError
  command_required invalid_input durability_required idempotency_conflict : ManagerError

pub data Result (A : Type 0) : Type 0 where
  ok : A → Result A
  err : ManagerError → Result A

abbrev pub or_err : {A : Type 0} → ManagerError → Option A → Result A
or_err e none = err e
or_err e (some a) = ok a

-- `phase === 'awaiting_approval' && approval === 'pending'`
abbrev pub awaits : JobPhase → Approval → Bool
awaits JobPhase.awaiting_approval Approval.pending = true
awaits _ _ = false

abbrev pub is_awaiting : JobRecord → Bool
is_awaiting job = awaits job.execution.phase job.policy.approval

-- `scheduleDrain`
pub schedule_drain : Manager → Manager
schedule_drain m = record m { drain_scheduled = true }

-- `approvalContext`
unfoldable pub approval_context : ℕ → Manager → Result ApprovalContext
approval_context id m = elim (lookup id m.jobs) [
  | none ↦ err unknown_job
  | some job ↦
      if is_awaiting job
      then or_err approval_context_lost (lookup id m.approval_contexts)
      else err not_awaiting_approval
]

approve_record : ℕ → ℕ → JobRecord → JobRecord
approve_record now ttl job = record job {
  policy = record job.policy {
    approval = Approval.approved;
    approved_at = some now;
    grant_expires_at = some (now + ttl * 1000);
  };
  execution = record job.execution { phase = JobPhase.queued };
}

-- `approve`
unfoldable pub approve : ℕ → ℕ → Manager → Result JobSnapshot × Manager
unfolding approve_record schedule_drain
approve now id m = elim (lookup id m.jobs) [
  | none ↦ (err (if m.disposed then manager_disposed else unknown_job), m)
  | some job ↦
      if m.disposed
      then (err manager_disposed, m)
      else if not (is_awaiting job)
      then (err not_awaiting_approval, m)
      else if not (is_some (lookup id m.pending_inputs))
      then (err pending_command_lost, m)
      else elim (lookup id m.approval_contexts) [
        | none ↦ (err approval_context_lost, m)
        | some context ↦
            let m₁ = record m {
              jobs = insert id (approve_record now m.approval_ttl_seconds job) m.jobs;
              queue = m.queue ++ id ∷ [];
            } in
            let entry : AuditEntry = record {
              action = AuditAction.approval;
              outcome = AuditOutcome.approved;
              job_id = id;
              risk = job.policy.risk;
              command_digest = some context.command_digest;
            } in
            elim (append_audit entry m₁) [
              | none ↦ (err audit_failed, m₁)
              | some m₂ ↦
                  let m₃ = schedule_drain (
                    touch now id (ascii "Approval granted.")
                      (record m₂ { approval_contexts = erase id m₂.approval_contexts })) in
                  (or_err unknown_job (snapshot m₃ id 80), m₃)
            ]
      ]
]

-- `rejectApproval`
unfoldable pub reject_approval : ℕ → ℕ → Manager → Result JobSnapshot × Manager
reject_approval now id m = elim (lookup id m.jobs) [
  | none ↦ (err (if m.disposed then manager_disposed else unknown_job), m)
  | some job ↦
      if m.disposed
      then (err manager_disposed, m)
      else if not (is_awaiting job)
      then (err not_awaiting_approval, m)
      else elim (lookup id m.approval_contexts) [
        | none ↦ (err approval_context_lost, m)
        | some context ↦
            let m₁ = record m {
              jobs =
                  insert id
                    (record job { policy = record job.policy { approval = Approval.rejected } })
                    m.jobs;
              pending_inputs = erase id m.pending_inputs;
            } in
            let entry : AuditEntry = record {
              action = AuditAction.approval;
              outcome = AuditOutcome.rejected;
              job_id = id;
              risk = job.policy.risk;
              command_digest = some context.command_digest;
            } in
            elim (append_audit entry m₁) [
              | none ↦ (err audit_failed, m₁)
              | some m₂ ↦
                  let m₃ =
                    finish now id JobState.cancelled (some (ascii "Approval was rejected."))
                      (record m₂ { approval_contexts = erase id m₂.approval_contexts }) in
                  (or_err unknown_job (snapshot m₃ id 80), m₃)
            ]
      ]
]

cancel_record : Manager → JobRecord → JobRecord
cancel_record m job = record job {
  cancel_requested = true;
  execution = record job.execution { phase = JobPhase.cancelling };
  cancellation_verified = some (elim (lookup job.id m.runtime_handles) [
    | none ↦ true
    | some handle ↦ handle.cancellation_verified
  ]);
}

-- The end of `cancel`, by the state of the job.
cancel_by_state : ℕ → ℕ → JobState → Manager → Manager
cancel_by_state now id JobState.queued m =
    finish now id JobState.cancelled none
      (record m { queue = remove id m.queue; pending_inputs = erase id m.pending_inputs })
cancel_by_state now id state m =
    if is_some (lookup id m.runtime_handles)
    then record m { cancelled_runs = id ∷ m.cancelled_runs }
    else m

-- `cancel`
unfoldable pub cancel : ℕ → ℕ → Manager → Result JobSnapshot × Manager
unfolding cancel_record cancel_by_state
cancel now id m = elim (lookup id m.jobs) [
  | none ↦ (err unknown_job, m)
  | some job ↦
      let m' = cancel_by_state now id job.state (
        touch now id (ascii "Cancellation requested.")
          (record m { jobs = insert id (cancel_record m job) m.jobs })) in
      if is_terminal_job_state job.state
      then (or_err unknown_job (snapshot m id 80), m)
      else (or_err unknown_job (snapshot m' id 80), m')
]
