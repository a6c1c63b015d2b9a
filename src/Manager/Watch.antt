-- ===== src/Manager/Watch.antt =====
-- `watchForChange`, `dispose`, `list`, `waitCoordinatorStatus`, `runtimeStatus` and
-- `normalizeOutputPolicy` of src/lifecycle/LifecycleManager.ts. The timer of a change waiter is its
-- timeout, given with the pending result; its firing, and the abort of the signal, are calls of
-- `finish_watch`. The second look at the job, after the registration, sees what the first one saw.
-- A number that is missing, or not finite, is `none`.
pub mod Limits
use run_beacon.Base.{
  ℕ, suc, ◌+◌, ◌*◌, min, max, List, [], ◌∷◌, Bool, true, false, ◌||◌, Option, none, some, length,
  ltb, leb, if◌then◌else◌, is_empty, get_or, is_some, take, filter, map,
}
use run_beacon.Base.Dict.{Dict, lookup, insert, erase, values, keys, sum_by}
use run_beacon.Types.{JobRecord, OutputPolicy, OutputMode, is_terminal_job_state}
use run_beacon.Waits.{
  Waits, WaitCoordinator, WaitError, reject_coordinator, max_waiters_per_job, max_waiters_global,
}
use run_beacon.Manager.{Manager, JobSnapshot, ChangeWaiter, WatchSettlement}
use run_beacon.Manager.Effects.{snapshot, snapshot_of, persist_now}

pub data WatchError : Type 0 where
  watch_disposed watch_aborted watch_unknown_job watch_job_limit watch_global_limit : WatchError

pub data WatchStart : Type 0 where
  watch_answered : JobSnapshot → WatchStart
  watch_pending : ℕ → ℕ → WatchStart
  watch_refused : WatchError → WatchStart

-- `normalizeWatchTimeout`
pub normalize_watch_timeout : Option ℕ → ℕ
normalize_watch_timeout none = 25000
normalize_watch_timeout (some timeout) =
    if leb timeout 100
    then 100
    else if leb timeout 1000
    then 1000
    else if leb timeout 5000
    then 5000
    else if leb timeout 15000
    then 15000
    else if leb timeout 25000
    then 25000
    else 30000

-- The number of change waiters of all jobs.
abbrev pub total_watchers : Manager → ℕ
total_watchers m = sum_by (λ ws. length ws) m.change_waiters

-- `watchForChange` up to the pending promise: its waiter's id, and the timeout of its timer.
pub watch_for_change : ℕ → ℕ → Option ℕ → ℕ → Bool → Manager → WatchStart × Manager
unfolding normalize_watch_timeout
watch_for_change job_id after_version timeout tail_lines aborted m =
    let waiters = get_or (lookup job_id m.change_waiters) [] in
    let id = suc m.waits.waiter_sequence in
    let waiter : ChangeWaiter = record {
      id = id;
      after_version = after_version;
      tail_lines = tail_lines;
    } in
    let m' = record m {
      waits = record m.waits { waiter_sequence = id };
      change_waiters = insert job_id (insert id waiter waiters) m.change_waiters;
    } in
    if m.disposed
    then (watch_refused watch_disposed, m)
    else if aborted
    then (watch_refused watch_aborted, m)
    else elim (lookup job_id m.jobs) [
      | none ↦ (watch_refused watch_unknown_job, m)
      | some job ↦
          if ltb after_version job.version || is_terminal_job_state job.state
          then (watch_answered (snapshot_of job tail_lines), m)
          else if leb max_waiters_per_job (length waiters)
          then (watch_refused watch_job_limit, m)
          else if leb max_waiters_global (total_watchers m)
          then (watch_refused watch_global_limit, m)
          else (watch_pending id (normalize_watch_timeout timeout), m')
    ]

-- What a waiter gets when its timer fires or its signal aborts; `none` where the snapshot throws.
watch_outcome : Bool → Option JobSnapshot → WatchSettlement
watch_outcome true view = WatchSettlement.watch_failed
watch_outcome false none = WatchSettlement.watch_failed
watch_outcome false (some view) = WatchSettlement.unchanged view

-- The closure `finish` of `watchForChange`, called by the timer or, with `true`, by the abort.
pub finish_watch : ℕ → ℕ → Bool → Manager → Manager
unfolding watch_outcome
finish_watch job_id id aborted m =
    let waiters = get_or (lookup job_id m.change_waiters) [] in
    let left = erase id waiters in
    elim (lookup id waiters) [
      | none ↦ m
      | some waiter ↦ record m {
        change_waiters =
            if is_empty left
            then erase job_id m.change_waiters
            else insert job_id left m.change_waiters;
        watched = (id, watch_outcome aborted (snapshot m job_id waiter.tail_lines)) ∷ m.watched;
      }
    ]

-- The first loop of `dispose`.
reject_all : ℕ → List (ℕ × WaitCoordinator) → Waits JobSnapshot → Waits JobSnapshot
reject_all now [] s = s
reject_all now ((job, c) ∷ cs) s =
    reject_all now cs (reject_coordinator job now WaitError.manager_disposed c s)

-- The inner loop of `dispose` over the change waiters of a job.
fail_each : List ChangeWaiter → List (ℕ × WatchSettlement) → List (ℕ × WatchSettlement)
fail_each [] log = log
fail_each (w ∷ ws) log = fail_each ws ((w.id, WatchSettlement.watch_failed) ∷ log)

fail_all : Dict (Dict ChangeWaiter) → List (ℕ × WatchSettlement) → List (ℕ × WatchSettlement)
unfolding fail_each
fail_all [] log = log
fail_all ((job, ws) ∷ d) log = fail_all d (fail_each (values ws) log)

-- `dispose`
unfoldable pub dispose : ℕ → Manager → Manager
unfolding reject_all fail_all
dispose now m =
    let m₁ = persist_now now m in
    if m.disposed then m else record m₁ {
      disposed = true;
      waits = reject_all now m₁.waits.coordinators m₁.waits;
      change_waiters = [];
      watched = fail_all m₁.change_waiters m₁.watched;
      persistence_timer = false;
      approval_contexts = [];
    }

-- The stable sort of `list`, the latest `createdAt` first.
insert_created : JobRecord → List JobRecord → List JobRecord
insert_created job [] = job ∷ []
insert_created job (other ∷ jobs) =
    if leb other.created_at job.created_at
    then job ∷ other ∷ jobs
    else other ∷ insert_created job jobs

sort_created : List JobRecord → List JobRecord
unfolding insert_created
sort_created [] = []
sort_created (job ∷ jobs) = insert_created job (sort_created jobs)

-- `list`
pub list_jobs : ℕ → ℕ → Manager → List JobSnapshot
unfolding sort_created
list_jobs tail_lines limit m =
    map (λ job. snapshot_of job tail_lines)
      (take (max 1 (min 500 limit)) (sort_created (values m.jobs)))

pub record WaitStatus : Type 0 where
  pub waiters : ℕ
  pub jobs : ℕ
  pub timers : ℕ

-- `waitCoordinatorStatus`
pub wait_coordinator_status : Manager → WaitStatus
wait_coordinator_status m = record {
  waiters = m.waits.total_waiters;
  jobs = length m.waits.coordinators;
  timers = length (filter (λ c. is_some c.timer) (values m.waits.coordinators));
}

-- `runtimeStatus`: the active and the queued jobs.
unfoldable pub runtime_status : Manager → ℕ × ℕ
runtime_status m = (length m.active_jobs, length m.queue)

-- `boundedInteger`
abbrev pub bounded_integer : Option ℕ → ℕ → ℕ → ℕ → ℕ
bounded_integer none fallback minimum maximum = fallback
bounded_integer (some value) fallback minimum maximum = max minimum (min maximum value)

-- `normalizeOutputPolicy`
pub normalize_output_policy : Option OutputMode → Option ℕ → Option ℕ → OutputPolicy
normalize_output_policy mode max_bytes retention_hours = record {
  mode = get_or mode OutputMode.tail;
  max_bytes = bounded_integer max_bytes (64 * 1024 * 1024) (64 * 1024) (1024 * 1024 * 1024);
  retention_hours = bounded_integer retention_hours (7 * 24) 1 (90 * 24);
}
