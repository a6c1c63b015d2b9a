-- ===== src/Manager/Start/Outcome.antt =====
-- What a call of `start` of src/lifecycle/LifecycleManager.ts comes to, and why.
use run_beacon.Base.{ℕ, ◌≡◌, ◌⊎◌, true, false, none, some, if◌then◌else◌}
use run_beacon.Base.Dict.{lookup, values}
use run_beacon.Base.Text.{Text, trim}
use run_beacon.Types.{JobRecord, JobState, Approval}
use run_beacon.Manager.{Manager, JobSnapshot, StartJobInput}
use run_beacon.Manager.Queue.{ManagerError, Result, err, or_err}
use run_beacon.Manager.Effects.{snapshot}
use run_beacon.Manager.Effects.Quiet.{Quiet}
use run_beacon.Manager.Start.{is_bad_key, StartFacts, start_refusal, traced, keyed, same_text}
use run_beacon.Manager.Start.Admission.{queue_after}

-- The job of an earlier call: with the same trace, or with the same key and the same execution.
abbrev pub IsRepeat : StartFacts → StartJobInput → Manager → JobRecord → Type 0
IsRepeat facts input m job =
    (traced input.request_trace_id (values m.jobs) ≡ some job)
    ⊎ ((raw : Text) × ((input.idempotency_key ≡ some raw)
          × ((keyed (trim raw) (values m.jobs) ≡ some job)
              × (same_text job.command_digest facts.command_digest ≡ true))))

-- No job has the trace or the key of the call.
abbrev pub IsFirst : StartJobInput → Manager → Type 0
IsFirst input m =
    (traced input.request_trace_id (values m.jobs) ≡ none)
    × ((input.idempotency_key ≡ none)
        ⊎ ((raw : Text) × ((input.idempotency_key ≡ some raw)
              × (keyed (trim raw) (values m.jobs) ≡ none))))

-- Why a call is not valid past its first guards.
abbrev pub IsInvalid : StartFacts → StartJobInput → Type 0
IsInvalid facts input =
    (facts.target_refused ≡ true)
    ⊎ ((facts.event_subscriptions ≡ none)
        ⊎ ((facts.progress_pattern_refused ≡ true)
            ⊎ ((raw : Text) × ((input.idempotency_key ≡ some raw)
                  × (is_bad_key (trim raw) ≡ true)))))

-- The new job stands under its id, with the approval that the policy decided.
abbrev pub HasNew : StartFacts → Manager → Type 0
HasNew facts m =
    (j : JobRecord) × ((lookup facts.id m.jobs ≡ some j)
      × ((j.state ≡ JobState.queued)
          × ((j.policy.approval ≡ (
                if facts.decision.requires_approval
                then Approval.pending
                else Approval.not_required))
              × (j.policy.risk ≡ facts.decision.risk))))

-- The results of a call that changes nothing.
pub data Declined (facts : StartFacts) (input : StartJobInput) (m : Manager)
    : Result JobSnapshot → Type 0 where
  disposed : m.disposed ≡ true → Declined facts input m (err ManagerError.manager_disposed)
  refused : (e : ManagerError) → start_refusal facts input ≡ some e → Declined facts input m (err e)
  repeated :
      (job : JobRecord)
      → IsRepeat facts input m job
      → Declined facts input m (or_err ManagerError.unknown_job (snapshot m job.id 80))
  conflicting :
      (raw : Text) (job : JobRecord)
      → input.idempotency_key ≡ some raw
      → keyed (trim raw) (values m.jobs) ≡ some job
      → same_text job.command_digest facts.command_digest ≡ false
      → Declined facts input m (err ManagerError.idempotency_conflict)
  invalid : IsInvalid facts input → Declined facts input m (err ManagerError.invalid_input)

-- What a call returns and the manager that it leaves.
pub data Outcome (facts : StartFacts) (input : StartJobInput) (m : Manager)
    : Result JobSnapshot × Manager → Type 0 where
  declined : (r : Result JobSnapshot) → Declined facts input m r → Outcome facts input m (r, m)
  unaudited :
      (m' : Manager)
      → m.audit_fails ≡ true
      → IsFirst input m
      → m'.queue ≡ m.queue
      → HasNew facts m'
      → Outcome facts input m (err ManagerError.audit_failed, m')
  accepted :
      (m' : Manager)
      → m.audit_fails ≡ false
      → IsFirst input m
      → m'.queue ≡ queue_after facts m
      → HasNew facts m'
      → Outcome facts input m (or_err ManagerError.unknown_job (snapshot m' facts.id 80), m')

module _ (now : ℕ) (facts : StartFacts) (input : StartJobInput) (m : Manager) where
  P : Result JobSnapshot × Manager → Type 0
  P = Outcome facts input m
