-- ===== src/Manager/Start.antt =====
-- `start` of src/lifecycle/LifecycleManager.ts. What its calls on other parts give is a record of
-- facts: the new UUID, the SHA-256 of the execution, the target without secrets, the redacted texts,
-- the decision of the policy, and whether the checks of the adapter's input, of the target and of the
-- progress pattern throw. Of `input.timing` only the request's trace is kept, and the output policy of
-- an input is the one that `normalizeOutputPolicy` made of it.
pub mod Admission
pub mod Outcome
use run_beacon.Base.{
  ℕ, ◌+◌, List, [], ◌∷◌, ◌++◌, Bool, true, false, ◌&&◌, ◌||◌, not, Option, none, some,
  if◌then◌else◌, is_some, is_empty, length, ltb, leb, ◌==◌, get_or, find?, all,
}
use run_beacon.Base.Dict.{lookup, insert, values}
use run_beacon.Base.Text.{Text, ascii, text_eq, trim, is_alphanumeric}
use run_beacon.Types.{
  JobRecord, JobState, JobPhase, JobBackend, JobConnectionState, JobAdapter, ExecutionMode,
  Approval, ApprovalContext, PublicJobTarget, TargetKind, PolicyRisk,
}
use run_beacon.Policy.{PolicyDecision}
use run_beacon.Manager.{Manager, JobSnapshot, StartJobInput, AuditEntry, AuditAction, AuditOutcome}
use run_beacon.Manager.Effects.{snapshot, touch, append_audit}
use run_beacon.Manager.Queue.{ManagerError, Result, ok, err, or_err, schedule_drain}

pub record StartFacts : Type 0 where
  pub id : ℕ
  pub command_digest : Text
  pub target : PublicJobTarget
  pub label : Text
  pub display_command : Text
  pub decision : PolicyDecision
  pub adapter_input_refused : Bool
  pub target_refused : Bool
  pub progress_pattern_refused : Bool
  pub event_subscriptions : Option (List ℕ)

abbrev pub is_direct : Option ExecutionMode → Bool
is_direct (some ExecutionMode.direct) = true
is_direct _ = false

abbrev pub asks_ssh : StartJobInput → Bool
asks_ssh input = elim input.target [
  | none ↦ false
  | some t ↦ elim t.kind [ TargetKind.ssh ↦ true | TargetKind.local ↦ false ]
]

-- The adapters that need the durable runner.
abbrev needs_runner : Option JobAdapter → Bool
needs_runner (some JobAdapter.apple_signing) = true
needs_runner (some JobAdapter.slurm) = true
needs_runner _ = false

abbrev pub is_profile_byte : ℕ → Bool
is_profile_byte b = is_alphanumeric b || b == b'.' || b == b'_' || b == b'-'

-- `/^[A-Za-z0-9][A-Za-z0-9._-]{0,63}$/`
abbrev pub is_profile_id : Text → Bool
is_profile_id [] = false
is_profile_id (b ∷ bs) = is_alphanumeric b && leb (length bs) 63 && all is_profile_byte bs

abbrev is_zero : Option ℕ → Bool
is_zero none = false
is_zero (some n) = n == 0

abbrev is_bad_profile : Option Text → Bool
is_bad_profile none = false
is_bad_profile (some t) = not (is_profile_id t)

-- The guards of `start` before it looks at the jobs.
pub start_refusal : StartFacts → StartJobInput → Option ManagerError
start_refusal facts input =
    if is_empty (trim input.command)
    then some ManagerError.command_required
    else if facts.adapter_input_refused
    then some ManagerError.invalid_input
    else if is_zero input.timeout_ms
    then some ManagerError.invalid_input
    else if is_bad_profile input.credential_profile_id
    then some ManagerError.invalid_input
    else if input.require_durable && is_direct input.execution_mode
    then some ManagerError.durability_required
    else if needs_runner input.adapter && (not (asks_ssh input) || is_direct input.execution_mode)
    then some ManagerError.durability_required
    else none

abbrev same_trace : ℕ → Option ℕ → Bool
same_trace trace none = false
same_trace trace (some other) = other == trace

-- The job of the same request.
abbrev traced : Option ℕ → List JobRecord → Option JobRecord
traced none jobs = none
traced (some trace) jobs = find? (λ job. same_trace trace job.timing.request_trace_id) jobs

abbrev pub same_text : Option Text → Text → Bool
same_text none value = false
same_text (some other) value = text_eq other value

abbrev keyed : Text → List JobRecord → Option JobRecord
keyed key jobs = find? (λ job. same_text job.idempotency_key key) jobs

-- `runnerRequested`
abbrev runner_requested : StartFacts → StartJobInput → Bool
runner_requested facts input = elim facts.target.kind [
  | TargetKind.ssh ↦ not (is_direct input.execution_mode)
  | TargetKind.local ↦ false
]

-- The record of the new job.
pub new_record : ℕ → StartFacts → List ℕ → StartJobInput → JobRecord
new_record now facts subscriptions input = record {
  id = facts.id;
  idempotency_key = input.idempotency_key;
  command_digest = some facts.command_digest;
  label = facts.label;
  display_command = facts.display_command;
  target = facts.target;
  state = JobState.queued;
  created_at = now;
  started_at = none;
  finished_at = none;
  updated_at = now;
  version = 1;
  exit_code = none;
  signal = none;
  error = none;
  cancel_requested = false;
  cancellation_verified = none;
  last_output_at = none;
  timing = record {
    request_trace_id = input.request_trace_id;
    command_started_at = none;
    ssh_ready_at = none;
    first_output_at = none;
    runner_accepted_at = none;
    disconnected_at = none;
    recovered_at = none;
  };
  execution = record {
    backend =
        if runner_requested facts input then JobBackend.ssh_runner else elim facts.target.kind [
          | TargetKind.ssh ↦ JobBackend.ssh_direct
          | TargetKind.local ↦ JobBackend.local
        ];
    phase =
        if facts.decision.requires_approval then JobPhase.awaiting_approval else JobPhase.queued;
    connection_state = elim facts.target.kind [
      | TargetKind.ssh ↦ JobConnectionState.disconnected
      | TargetKind.local ↦ JobConnectionState.not_applicable
    ];
    durable = runner_requested facts input;
    resumable = runner_requested facts input && is_some input.credential_profile_id;
    runner_version = none;
    remote_job_id = none;
    reconnect_count = 0;
    last_event_sequence = 0;
  };
  policy = record {
    risk = facts.decision.risk;
    approval = if facts.decision.requires_approval then Approval.pending else Approval.not_required;
    approved_at = none;
    grant_expires_at = none;
  };
  adapter = get_or input.adapter JobAdapter.generic;
  output_policy = input.output_policy;
  event_subscriptions = subscriptions;
  credential_profile_id = input.credential_profile_id;
  buffer = record { output = []; output_bytes = 0; output_lines = 0; output_truncated = false };
}

-- `start` from the check of the progress pattern on.
pub admit : ℕ → StartFacts → StartJobInput → Manager → Result JobSnapshot × Manager
unfolding new_record
admit now facts input m = elim facts.event_subscriptions [
  | none ↦ (err ManagerError.invalid_input, m)
  | some subscriptions ↦
      let requires = facts.decision.requires_approval in
      let context : ApprovalContext = record {
        job_id = facts.id;
        command_digest = facts.command_digest;
        target = facts.target;
        credential_profile_id = input.credential_profile_id;
        risk = facts.decision.risk;
      } in
      let m₁ = record m {
        jobs = insert facts.id (new_record now facts subscriptions input) m.jobs;
        approval_contexts =
            if requires then insert facts.id context m.approval_contexts else m.approval_contexts;
        pending_inputs = insert facts.id input m.pending_inputs;
      } in
      let entry : AuditEntry = record {
        action = AuditAction.job_start;
        outcome = if requires then AuditOutcome.awaiting_approval else AuditOutcome.queued;
        job_id = facts.id;
        risk = facts.decision.risk;
        command_digest = some facts.command_digest;
      } in
      let announced : Manager → Manager = λ m₂.
        if requires
        then touch now facts.id (ascii "Approval required: " ++ facts.decision.reason ++ ascii ".")
            m₂
        else schedule_drain (
            touch now facts.id (ascii "Job queued.")
              (record m₂ { queue = m₂.queue ++ facts.id ∷ [] })) in
      if facts.progress_pattern_refused
      then (err ManagerError.invalid_input, m)
      else elim (append_audit entry m₁) [
        | none ↦ (err ManagerError.audit_failed, m₁)
        | some m₂ ↦
            let m₃ = announced m₂ in (or_err ManagerError.unknown_job (snapshot m₃ facts.id 80), m₃)
      ]
]

-- The UTF-16 units of a text: none for a later byte of a character, two for the first one of four.
abbrev units : ℕ → ℕ
units b = if leb 128 b && ltb b 192 then 0 else if leb 240 b then 2 else 1

-- `.length`
abbrev pub utf16_length : Text → ℕ
utf16_length [] = 0
utf16_length (b ∷ bs) = units b + utf16_length bs

-- `!key || key.length > 200`
abbrev pub is_bad_key : Text → Bool
is_bad_key key = is_empty key || ltb 200 (utf16_length key)

-- `start` from the check of the idempotency key on.
pub admit_once : ℕ → StartFacts → StartJobInput → Manager → Result JobSnapshot × Manager
unfolding admit
admit_once now facts input m = elim input.idempotency_key [
  | none ↦ admit now facts input m
  | some raw ↦
      let key = trim raw in
      if is_bad_key key
      then (err ManagerError.invalid_input, m)
      else elim (keyed key (values m.jobs)) [
        | none ↦ admit now facts (record input { idempotency_key = some key }) m
        | some job ↦
            if same_text job.command_digest facts.command_digest
            then (or_err ManagerError.unknown_job (snapshot m job.id 80), m)
            else (err ManagerError.idempotency_conflict, m)
      ]
]

-- `start`
pub start : ℕ → StartFacts → StartJobInput → Manager → Result JobSnapshot × Manager
unfolding start_refusal admit_once
start now facts input m =
    if m.disposed
    then (err ManagerError.manager_disposed, m)
    else elim (start_refusal facts input) [
      | some e ↦ (err e, m)
      | none ↦ elim (traced input.request_trace_id (values m.jobs)) [
        | some job ↦ (or_err ManagerError.unknown_job (snapshot m job.id 80), m)
        | none ↦
            if facts.target_refused
            then (err ManagerError.invalid_input, m)
            else admit_once now facts input m
      ]
    ]
