-- ===== src/Manager/Run/Ends.antt =====
-- The end of a run: `completeExecution`, the handler of `run`, and the `finally` of `drain`.
use run_beacon.Base.{
  ℕ, ◌≤◌, ◌≡◌, refl, inl, inr, List, [], ◌∷◌, true, false, Option, none, some, arith, Option-cases,
  All-remove, length, contains, remove,
}
use run_beacon.Base.Dict.{lookup, insert, erase}
use run_beacon.Types.{JobRecord, is_terminal_job_state}
use run_beacon.Manager.{Manager}
use run_beacon.Manager.Run.{
  ExecutionResult, RunError, complete_execution, complete_record, verdict, catch, catch_verdict,
  release, run_completed, run_failed,
}
use run_beacon.Manager.Queue.Grants.{ended, Good-Beside, schedule_drain-Beside}
use run_beacon.Manager.Safety.{
  stay, ReadyAt, ActiveAt, Safe, Good, Good-refl, not_queued, RunsPermitted, AwaitsQueued,
  All-contains,
}
use run_beacon.Manager.Safety.Writes.{write-Good}

verdict-terminal :
    (result : ExecutionResult) (j : JobRecord) → is_terminal_job_state (verdict result j).0 ≡ true
unfolding verdict
verdict-terminal result j = ground (arith, verdict)

catch_verdict-terminal :
    (error : RunError) (j : JobRecord) → is_terminal_job_state (catch_verdict error j).0 ≡ true
unfolding catch_verdict
catch_verdict-terminal (RunError.remote_state_lost t) j = ground (arith, catch_verdict)
catch_verdict-terminal (RunError.other_error t) j = ground (arith, catch_verdict)

-- A job that is active has left the queue.
active_not_queued :
    (id : ℕ) (m : Manager) → Safe m → contains id m.active_jobs ≡ true → contains id m.queue ≡ false
active_not_queued id m s c =
    not_queued m id s (no (lookup id m.jobs) (All-contains _ id m.active_jobs s.active c))
  where
    no : (o : Option JobRecord) → ActiveAt o → ¬ ReadyAt o
    no none a r = r
    no (some j) a r = cc (a, r.0)

complete_execution-Good :
    (now id : ℕ) (result : ExecutionResult) (m : Manager)
    → Safe m
    → contains id m.active_jobs ≡ true
    → Good m (complete_execution now id result m)
unfolding complete_execution complete_record
complete_execution-Good now id result m s c = elim (Option-cases (lookup id m.jobs)) [
  | inl e ↦ rw (complete_execution, e) (Good-refl m s)
  | inr (j, e) ↦
      let j' = complete_record result j in
      let absent = active_not_queued id m s c in
      let p : RunsPermitted (some j) = rw e at (s.permitted id) in
      let w : AwaitsQueued (some j) = rw e at (s.awaiting id) in
      rw (complete_execution, e)
        (ended now id (verdict result j').0 (verdict result j').1 m _
          (write-Good id j j' m (record m { jobs = insert id j' m.jobs }) s e absent refl
            (stay refl) p w refl refl refl refl)
          absent (verdict-terminal result j'))
]

catch-Good :
    (now id : ℕ) (error : RunError) (m : Manager)
    → Safe m
    → contains id m.active_jobs ≡ true
    → Good m (catch now id error m)
unfolding catch
catch-Good now id error m s c = elim (Option-cases (lookup id m.jobs)) [
  | inl e ↦ rw (catch, e) (Good-refl m s)
  | inr (j, e) ↦
      rw (catch, e)
        (ended now id (catch_verdict error j).0 (catch_verdict error j).1 m m (Good-refl m s)
          (active_not_queued id m s c) (catch_verdict-terminal error j))
]

length-remove : (id : ℕ) (xs : List ℕ) → length (remove id xs) ≤ length xs
length-remove id [] = omega arith
length-remove id (x ∷ xs) = ground (arith, length-remove id xs)

-- The id leaves the active jobs; no other leaves.
release-Good : (id : ℕ) (a b : Manager) → Good a b → Good a (release id b)
unfolding release
release-Good id a b g =
    let freed : Manager = record b {
      active_jobs = remove id b.active_jobs;
      runtime_handles = erase id b.runtime_handles;
    } in
    let step : Good a freed = record {
      safe = record {
        jobs_ok = g.safe.jobs_ok;
        ready = g.safe.ready;
        nodup = g.safe.nodup;
        active = All-remove _ id b.active_jobs g.safe.active;
        permitted = g.safe.permitted;
        awaiting = g.safe.awaiting;
      };
      leads = g.leads;
      limit = g.limit;
      bound = ground (arith, g.bound, length-remove id b.active_jobs);
    } in
    Good-Beside step (schedule_drain-Beside freed)

-- From a state that satisfies `Safe` where the id is active, the end of its run with a result leads
-- to a state that satisfies `Safe`, with jobs that stayed or made an allowed move.
pub run_completed-Good :
    (now id : ℕ) (result : ExecutionResult) (m : Manager)
    → Safe m
    → contains id m.active_jobs ≡ true
    → Good m (run_completed now id result m)
unfolding run_completed
run_completed-Good now id result m s c =
    release-Good id m _ (complete_execution-Good now id result m s c)

-- From a state that satisfies `Safe` where the id is active, the end of its run with an error leads
-- to a state that satisfies `Safe`, with jobs that stayed or made an allowed move.
pub run_failed-Good :
    (now id : ℕ) (error : RunError) (m : Manager)
    → Safe m
    → contains id m.active_jobs ≡ true
    → Good m (run_failed now id error m)
unfolding run_failed
run_failed-Good now id error m s c = release-Good id m _ (catch-Good now id error m s c)
