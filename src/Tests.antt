-- ===== src/Tests.antt =====
-- Fixtures for the runs of the theorems on concrete states: a manager with one job.
pub mod Scheduling
pub mod Waiting
pub mod Buffers
pub mod Lifetime
pub mod Parts
use run_beacon.Base.{ℕ, ◌≡◌, sym, List, [], ◌∷◌, Bool, true, false, none, some, All}
use run_beacon.Base.Dict.{Dict, lookup, insert}
use run_beacon.Base.Text.{ascii}
use run_beacon.Types.{
  JobRecord, JobState, JobPhase, JobBackend, JobConnectionState, JobAdapter, OutputMode, Approval,
  PolicyRisk, TargetKind, PublicJobTarget, ApprovalContext,
}
use run_beacon.Waits.{Waits}
use run_beacon.Waits.Invariant.{WaitsOk}
use run_beacon.Manager.{Manager, StartJobInput, JobSnapshot}
use run_beacon.Manager.Effects.Quiet.{JobsOk-insert, IsKeyed}
use run_beacon.Manager.Safety.{ReadyAt, ActiveAt, IsNodup, RunsPermitted, AwaitsQueued, Safe}
use run_beacon.Manager.Safety.Writes.{permitted_frame, awaiting_frame}

abbrev pub local_target : PublicJobTarget
local_target = record {
  kind = TargetKind.local;
  host = none;
  port = none;
  username = none;
  verified_host_key = none;
  host_key_sha256 = none;
  host_key_algorithm = none;
  runner_path = none;
}

abbrev pub job : JobState → JobPhase → Approval → JobRecord
job state phase approval = record {
  id = 1;
  idempotency_key = none;
  command_digest = some (ascii "sha256:00");
  label = ascii "push";
  display_command = ascii "git push";
  target = local_target;
  state = state;
  created_at = 0;
  started_at = none;
  finished_at = none;
  updated_at = 0;
  version = 1;
  exit_code = none;
  signal = none;
  error = none;
  cancel_requested = false;
  cancellation_verified = none;
  last_output_at = none;
  timing = record {
    request_trace_id = none;
    command_started_at = none;
    ssh_ready_at = none;
    first_output_at = none;
    runner_accepted_at = none;
    disconnected_at = none;
    recovered_at = none;
  };
  execution = record {
    backend = JobBackend.local;
    phase = phase;
    connection_state = JobConnectionState.not_applicable;
    durable = false;
    resumable = false;
    runner_version = none;
    remote_job_id = none;
    reconnect_count = 0;
    last_event_sequence = 0;
  };
  policy = record {
    risk = PolicyRisk.release;
    approval = approval;
    approved_at = none;
    grant_expires_at = none;
  };
  adapter = JobAdapter.generic;
  output_policy = record { mode = OutputMode.tail; max_bytes = 67108864; retention_hours = 168 };
  event_subscriptions = [];
  credential_profile_id = none;
  buffer = record { output = []; output_bytes = 0; output_lines = 0; output_truncated = false };
}

abbrev pub input : StartJobInput
input = record {
  command = ascii "git push";
  idempotency_key = none;
  args = [];
  cwd = none;
  label = none;
  timeout_ms = none;
  target = none;
  progress_pattern = none;
  execution_mode = none;
  require_durable = false;
  adapter = none;
  output_policy = record { mode = OutputMode.tail; max_bytes = 67108864; retention_hours = 168 };
  event_subscriptions = [];
  credential_profile_id = none;
  request_trace_id = none;
}

abbrev pub context : ApprovalContext
context = record {
  job_id = 1;
  command_digest = ascii "sha256:00";
  target = local_target;
  credential_profile_id = none;
  risk = PolicyRisk.release;
}

abbrev pub no_waits : Waits JobSnapshot
no_waits = record { coordinators = []; total_waiters = 0; waiter_sequence = 0; settled = [] }

-- A manager with the job 1, a queue and active jobs.
abbrev pub one : JobRecord → List ℕ → List ℕ → Manager
one j queue active = record {
  max_concurrent_jobs = 2;
  max_output_bytes = 1024;
  max_retained_jobs = 10;
  approval_ttl_seconds = 300;
  jobs = insert 1 j [];
  pending_inputs = insert 1 input [];
  queue = queue;
  active_jobs = active;
  approval_contexts = insert 1 context [];
  runtime_handles = [];
  waits = no_waits;
  change_waiters = [];
  watched = [];
  sequence = 0;
  persistence_timer = false;
  persistence_healthy = true;
  stored = [];
  audit = [];
  dispatched = [];
  cancelled_runs = [];
  drain_scheduled = false;
  disposed = false;
  audit_fails = false;
  store_fails = false;
}

pub one-Safe :
    (j : JobRecord) (queue active : List ℕ)
    → 1 ≡ j.id
    → All (λ k. ReadyAt (lookup k (insert 1 j []))) queue
    → IsNodup queue
    → All (λ k. ActiveAt (lookup k (insert 1 j []))) active
    → RunsPermitted (some j)
    → AwaitsQueued (some j)
    → Safe (one j queue active)
unfolding IsKeyed lookup
one-Safe j queue active i r n a p w = record {
  jobs_ok = JobsOk-insert 1 j [] (record { unique = tt; keyed = tt }) i;
  ready = r;
  nodup = n;
  active = a;
  permitted = permitted_frame 1 j [] (λ k. tt) p;
  awaiting = awaiting_frame 1 j [] (λ k. tt) w;
}
