-- ===== src/Manager/Restart.antt =====
-- The constructor of src/lifecycle/LifecycleManager.ts: what a new manager makes of the jobs that the
-- store has. The number of seconds of a grant is the policy's; the timings, the transports and the
-- progress patterns are left out.
pub mod Recovered
pub mod Tests
use run_beacon.Base.{
  ℕ, ◌+◌, ◌*◌, max, List, [], ◌∷◌, Bool, true, false, ◌&&◌, ◌||◌, Option, none, some, if◌then◌else◌,
  get_or, is_some,
}
use run_beacon.Base.Dict.{insert}
use run_beacon.Base.Text.{ascii}
use run_beacon.Types.{JobRecord, JobState, JobPhase, JobBackend, JobConnectionState, JobOutputChunk}
use run_beacon.Manager.{Manager}
use run_beacon.Manager.Effects.{persist_now}

-- `LifecycleManagerOptions`, and whether `recoverRunnerTarget` is among them.
pub record ManagerOptions : Type 0 where
  pub max_concurrent_jobs : Option ℕ
  pub max_output_bytes : Option ℕ
  pub max_retained_jobs : Option ℕ
  pub has_recover_target : Bool

-- The manager before the store is read.
pub new_manager : ManagerOptions → ℕ → Bool → Bool → Manager
new_manager options ttl audit_fails store_fails = record {
  max_concurrent_jobs = max 1 (get_or options.max_concurrent_jobs 4);
  max_output_bytes = max (64 * 1024) (get_or options.max_output_bytes (1024 * 1024));
  max_retained_jobs = max 1 (get_or options.max_retained_jobs 1000);
  approval_ttl_seconds = ttl;
  jobs = [];
  pending_inputs = [];
  queue = [];
  active_jobs = [];
  approval_contexts = [];
  runtime_handles = [];
  waits = record { coordinators = []; total_waiters = 0; waiter_sequence = 0; settled = [] };
  change_waiters = [];
  watched = [];
  sequence = 0;
  persistence_timer = false;
  persistence_healthy = true;
  stored = [];
  audit = [];
  dispatched = [];
  cancelled_runs = [];
  drain_scheduled = false;
  disposed = false;
  audit_fails = audit_fails;
  store_fails = store_fails;
}

pub is_unfinished : JobState → Bool
is_unfinished JobState.running = true
is_unfinished JobState.queued = true
is_unfinished _ = false

is_runner : JobBackend → Bool
is_runner JobBackend.ssh_runner = true
is_runner _ = false

-- The test that the job runs on a runner which keeps it.
pub can_reattach : Bool → JobRecord → Bool
unfolding is_runner
can_reattach has_target job =
    is_runner job.execution.backend
    && job.execution.durable
    && is_some job.execution.remote_job_id
    && is_some job.credential_profile_id
    && has_target

pub reattaching_record : ℕ → JobRecord → JobRecord
reattaching_record now job = record job {
  state = JobState.running;
  execution = record job.execution {
    phase = JobPhase.reconnecting;
    connection_state = JobConnectionState.reconnecting;
    resumable = true;
    reconnect_count = job.execution.reconnect_count + 1;
  };
  version = job.version + 1;
  updated_at = now;
}

pub lost_record : ℕ → JobRecord → JobRecord
lost_record now job = record job {
  state = JobState.lost;
  execution = record job.execution {
    phase = JobPhase.finished;
    connection_state = JobConnectionState.disconnected;
  };
  error =
      some (ascii "The prior coordinator ended and this execution backend cannot be reattached.");
  finished_at = some now;
  updated_at = now;
  version = job.version + 1;
}

-- What becomes of a job of the store.
pub restart_job : ℕ → Bool → JobRecord → JobRecord
unfolding can_reattach reattaching_record lost_record is_unfinished
restart_job now has_target job =
    if is_unfinished job.state
    then if can_reattach has_target job then reattaching_record now job else lost_record now job
    else job

max_sequence : List JobOutputChunk → ℕ → ℕ
max_sequence [] n = n
max_sequence (chunk ∷ chunks) n = max_sequence chunks (max n chunk.sequence)

-- The loop over the jobs of the store.
pub restart_each : ℕ → Bool → List JobRecord → Manager → Manager
unfolding restart_job max_sequence
restart_each now has_target [] m = m
restart_each now has_target (job ∷ jobs) m = restart_each now has_target jobs (record m {
  jobs = insert job.id (restart_job now has_target job) m.jobs;
  sequence = max_sequence job.output m.sequence;
})

-- The ids of the jobs that `recoverRunnerJob` is then called for.
pub recoverable_ids : Bool → List JobRecord → List ℕ
unfolding can_reattach is_unfinished
recoverable_ids has_target [] = []
recoverable_ids has_target (job ∷ jobs) =
    if is_unfinished job.state && can_reattach has_target job
    then job.id ∷ recoverable_ids has_target jobs
    else recoverable_ids has_target jobs

-- The constructor, with the jobs that `store.load` gave.
pub construct : ManagerOptions → ℕ → Bool → Bool → ℕ → List JobRecord → Manager
unfolding new_manager restart_each
construct options ttl audit_fails store_fails now loaded = persist_now now (
    restart_each now options.has_recover_target loaded
      (new_manager options ttl audit_fails store_fails))
