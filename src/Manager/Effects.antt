-- ===== src/Manager/Effects.antt =====
-- The effects that the manager's methods share: `snapshot`, `changed`, `append`, `pruneHistory`,
-- `persistNow`, `touch` and `finish`. A method that mutates a job object in the source writes the
-- new record back under its id; an object that was pruned from the map is out of reach.
pub mod Quiet
pub mod Pruned
pub mod Execution
use run_beacon.Base.{
  ℕ, suc, ◌+◌, min, max, List, [], ◌∷◌, ◌++◌, Bool, true, false, not, ◌&&◌, Option, none, some,
  length, drop, take_last, filter, is_empty, leb, ◌==◌, if◌then◌else◌, get_or,
}
use run_beacon.Base.Dict.{Dict, lookup, insert, erase, values}
use run_beacon.Base.Text.{Text, ascii}
use run_beacon.Types.{
  JobRecord, JobState, JobPhase, local, not_applicable, disconnected, JobOutputStream, system,
  JobOutputChunk, is_terminal_job_state,
}
use run_beacon.Output.{bound_output_chunk, trim_output_buffer}
use run_beacon.Waits.{resolve_coordinator, reject_coordinator, unknown_job}
use run_beacon.Manager.{
  Manager, JobSnapshot, ChangeWaiter, WatchSettlement, AuditEntry, job_terminal, terminal,
}

pub snapshot_of : JobRecord → ℕ → JobSnapshot
snapshot_of job tail_lines = record {
  summary = record job { command_digest = none; buffer = record job.buffer { output = [] } };
  tail = take_last (min 500 tail_lines) job.output;
}

-- `snapshot`; `none` where `requireJob` throws.
unfoldable pub snapshot : Manager → ℕ → ℕ → Option JobSnapshot
snapshot m id tail_lines = elim (lookup id m.jobs) [
  | none ↦ none
  | some job ↦ some (snapshot_of job tail_lines)
]

-- The loop of `changed` over the change waiters of a job: the waiters left, and the log.
pub notify_each :
    JobRecord
    → List ChangeWaiter
    → Dict ChangeWaiter × List (ℕ × WatchSettlement)
    → Dict ChangeWaiter × List (ℕ × WatchSettlement)
unfolding snapshot_of
notify_each job [] r = r
notify_each job (w ∷ ws) (waiters, log) = notify_each job ws (
    if leb job.version w.after_version
    then (waiters, log)
    else (erase w.id waiters, (w.id, WatchSettlement.changed (snapshot_of job w.tail_lines)) ∷ log))

pub notify_watchers : ℕ → JobRecord → Manager → Manager
unfolding notify_each
notify_watchers id job m = elim (lookup id m.change_waiters) [
  | none ↦ m
  | some waiters ↦
      let (left, log) = notify_each job (values waiters) (waiters, m.watched) in
      record m {
        change_waiters =
            if is_empty left then erase id m.change_waiters else insert id left m.change_waiters;
        watched = log;
      }
]

-- The end of `changed`: a terminal job resolves its waiters.
pub resolve_waits : ℕ → JobRecord → Manager → Manager
unfolding snapshot
resolve_waits id job m = elim (lookup id m.waits.coordinators) [
  | none ↦ m
  | some c ↦
      if is_terminal_job_state job.state
      then record m { waits = resolve_coordinator id (snapshot m id) false c m.waits }
      else m
]

-- `changed`
unfoldable pub changed : ℕ → ℕ → Manager → Manager
unfolding notify_watchers resolve_waits
changed now id m = elim (lookup id m.jobs) [
  | none ↦ m
  | some old ↦
      let job = record old { version = old.version + 1; updated_at = now } in
      resolve_waits id job (
        notify_watchers id job (record m { jobs = insert id job m.jobs; persistence_timer = true }))
]

-- The number of line ends, `split(/\r\n|\r|\n/).length - 1`. The flag says that the byte before was
-- a carriage return.
line_ends : Bool → Text → ℕ
line_ends after_cr [] = 0
line_ends after_cr (b ∷ bs) =
    (if b == 13 then 1 else if b == 10 && not after_cr then 1 else 0) + line_ends (b == 13) bs

-- What `append` does to the record of the job.
pub append_record : ℕ → ℕ → ℕ → JobOutputStream → Text → JobRecord → JobRecord
unfolding line_ends
append_record limit now sequence stream text job =
    let (bounded, truncated) = bound_output_chunk limit text in
    let chunk : JobOutputChunk = record {
      sequence = sequence;
      stream = stream;
      text = bounded;
      timestamp = now;
    } in
    let from_job : Bool = elim stream [ system ↦ false | _ ↦ true ] in
    record job {
      buffer = trim_output_buffer limit (record {
        output = job.output ++ chunk ∷ [];
        output_bytes = job.output_bytes + length bounded;
        output_lines = job.output_lines + max 1 (line_ends false bounded);
        output_truncated = if truncated then true else job.output_truncated;
      });
      last_output_at = if from_job then some now else job.last_output_at;
      timing = record job.timing {
        first_output_at =
            if from_job
            then some (get_or job.timing.first_output_at now)
            else job.timing.first_output_at;
      };
    }

-- `append` without its progress parser
unfoldable pub append : ℕ → ℕ → JobOutputStream → Text → Manager → Manager
unfolding append_record
append now id stream [] m = m
append now id stream (b ∷ bs) m = elim (lookup id m.jobs) [
  | none ↦ m
  | some job ↦
      let sequence = suc m.sequence in
      changed now id (record m {
        sequence = sequence;
        jobs = insert id (append_record m.max_output_bytes now sequence stream (b ∷ bs) job) m.jobs;
      })
]

-- The stable sort of `pruneHistory`, the latest `updatedAt` first.
pub insert_recent : JobRecord → List JobRecord → List JobRecord
insert_recent job [] = job ∷ []
insert_recent job (other ∷ jobs) =
    if leb other.updated_at job.updated_at
    then job ∷ other ∷ jobs
    else other ∷ insert_recent job jobs

pub sort_recent : List JobRecord → List JobRecord
unfolding insert_recent
sort_recent [] = []
sort_recent (job ∷ jobs) = insert_recent job (sort_recent jobs)

pub expired_jobs : Manager → List JobRecord
unfolding sort_recent
expired_jobs m =
    drop m.max_retained_jobs
      (sort_recent (filter (λ job. is_terminal_job_state job.state) (values m.jobs)))

-- The body of the loop of `pruneHistory`
pub forget : ℕ → ℕ → Manager → Manager
forget now id m =
    let m' = record m {
      jobs = erase id m.jobs;
      pending_inputs = erase id m.pending_inputs;
      runtime_handles = erase id m.runtime_handles;
    } in
    elim (lookup id m.waits.coordinators) [
      | none ↦ m'
      | some c ↦ record m' { waits = reject_coordinator id now unknown_job c m.waits }
    ]

pub forget_each : ℕ → List JobRecord → Manager → Manager
unfolding forget
forget_each now [] m = m
forget_each now (job ∷ jobs) m = forget_each now jobs (forget now job.id m)

-- `pruneHistory`
unfoldable pub prune_history : ℕ → Manager → Manager
unfolding forget_each expired_jobs
prune_history now m = forget_each now (expired_jobs m) m

-- `persistNow`
unfoldable pub persist_now : ℕ → Manager → Manager
unfolding prune_history
persist_now now m =
    let m' = prune_history now (record m { persistence_timer = false }) in
    if m'.store_fails
    then record m' { persistence_healthy = false }
    else record m' { persistence_healthy = true; stored = values m'.jobs }

-- `touch(…, 'system', 'immediate')`
unfoldable pub touch : ℕ → ℕ → Text → Manager → Manager
unfolding append persist_now
touch now id message m = persist_now now (append now id system message m)

-- `auditLog.append`; `none` where it throws.
abbrev pub append_audit : AuditEntry → Manager → Option Manager
append_audit entry m = if m.audit_fails then none else some (record m { audit = entry ∷ m.audit })

abbrev pub state_name : JobState → Text
state_name JobState.queued = ascii "queued"
state_name JobState.running = ascii "running"
state_name JobState.succeeded = ascii "succeeded"
state_name JobState.failed = ascii "failed"
state_name JobState.cancelled = ascii "cancelled"
state_name JobState.timed_out = ascii "timed_out"
state_name JobState.lost = ascii "lost"

pub terminal_message : JobState → Option Text → Text
terminal_message JobState.succeeded error = ascii "Job completed successfully."
terminal_message JobState.cancelled error = ascii "Job cancelled."
terminal_message state (some (b ∷ bs)) = b ∷ bs
terminal_message state error = ascii "Job finished with state " ++ state_name state ++ ascii "."

-- What `finish` does to the record of the job.
pub finish_record : ℕ → JobState → Option Text → JobRecord → JobRecord
finish_record now state error job = record job {
  state = state;
  execution = record job.execution {
    phase = JobPhase.finished;
    connection_state = elim job.execution.backend [ local ↦ not_applicable | _ ↦ disconnected ];
  };
  error = error;
  finished_at = some now;
}

-- The audit entry and the event dispatch at the end of `finish`; a failing audit log is only
-- reported to the listeners of `auditError`.
pub announce : JobRecord → Manager → Manager
announce job m =
    let entry : AuditEntry = record {
      action = job_terminal;
      outcome = terminal job.state;
      job_id = job.id;
      risk = job.policy.risk;
      command_digest = none;
    } in
    let m' = get_or (append_audit entry m) m in
    if is_empty job.event_subscriptions
    then m'
    else record m' { dispatched = (job.id, job.state) ∷ m'.dispatched }

-- `finish`
unfoldable pub finish : ℕ → ℕ → JobState → Option Text → Manager → Manager
unfolding finish_record terminal_message announce
finish now id state error m = elim (lookup id m.jobs) [
  | none ↦ m
  | some old ↦
      let job = finish_record now state error old in
      if is_terminal_job_state old.state
      then m
      else announce job (
          touch now id (terminal_message state error) (record m {
            jobs = insert id job m.jobs;
            approval_contexts = erase id m.approval_contexts;
          }))
]
