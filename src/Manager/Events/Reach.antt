-- ===== src/Manager/Events/Reach.antt =====
-- What every sequence of the events of `Step` keeps: the invariant, the moves of the jobs, and the limit.
-- Neither the start of a manager from stored jobs nor the recovery of runner jobs is such an event.
use run_beacon.Base.{[], ℕ, ◌≡◌, ap, ◌≤◌, true, some, length, arith}
use run_beacon.Base.Dict.{lookup}
use run_beacon.Types.{JobRecord, JobState, is_terminal_job_state}
use run_beacon.Manager.{Manager}
use run_beacon.Manager.Events.{
  Reached, empty, begun, stepped, Step, Steps, done, then, approved, rejected, cancelled, drained,
  completed, failed, output, stored,
}
use run_beacon.Manager.Effects.Quiet.{IsKeyed, append-Quiet}
use run_beacon.Manager.Effects.Pruned.{persist_now-Quiet}
use run_beacon.Manager.Start.Admission.{start-Admitted}
use run_beacon.Manager.Queue.Grants.{approve-Good, reject_approval-Good, cancel-Good}
use run_beacon.Manager.Run.Drain.{drain-Good}
use run_beacon.Manager.Run.Ends.{run_completed-Good, run_failed-Good}
use run_beacon.Manager.Safety.{
  Leads, stay, begin, stop, LeadsAt, Safe, Good, Good-refl, Good-trans, Good-Quiet,
}

Step-Good : (m n : Manager) → Step m n → Safe m → Good m n
Step-Good _ _ (approved now id m) s = approve-Good now id m s
Step-Good _ _ (rejected now id m) s = reject_approval-Good now id m s
Step-Good _ _ (cancelled now id m) s = cancel-Good now id m s
Step-Good _ _ (drained now m) s = drain-Good now m s
Step-Good _ _ (completed now id r m c) s = run_completed-Good now id r m s c
Step-Good _ _ (failed now id e m c) s = run_failed-Good now id e m s c
Step-Good _ _ (output now id st t m) s =
    Good-Quiet (Good-refl m s) (append-Quiet now id st t m s.jobs_ok)
Step-Good _ _ (stored now m) s = Good-Quiet (Good-refl m s) (persist_now-Quiet now m s.jobs_ok)

-- After any sequence of the events of `Step`, which are approvals, rejections, cancellations, drains, the
-- ends of runs, output, pruning and writes of the store, but neither calls of `start` nor recoveries of
-- runner jobs, from a manager that satisfies `Safe`: `Safe` holds, each job that is still listed stayed or
-- made an allowed move, no job appeared, the limit on running jobs is the same, and no more jobs are
-- active than before or than the limit.
pub Steps-Good : (m n : Manager) → Steps m n → Safe m → Good m n
Steps-Good _ _ (done m) s = Good-refl m s
Steps-Good _ _ (then m n o x xs) s =
    let g = Step-Good m n x s in Good-trans g (Steps-Good n o xs g.safe)

Leads-terminal : {s t : JobState} → Leads s t → is_terminal_job_state s ≡ true → t ≡ s
Leads-terminal (stay e) h = e
Leads-terminal (begin a b) h = cc (ap is_terminal_job_state a)
Leads-terminal (stop a b) h = cc

-- From a manager that satisfies `Safe`, a job that ended keeps its state over any sequence of the events
-- of `Step` after which it is still listed.
pub terminal_state_absorbing :
    (m n : Manager) (id : ℕ) (j j' : JobRecord)
    → Safe m
    → Steps m n
    → lookup id m.jobs ≡ some j
    → is_terminal_job_state j.state ≡ true
    → lookup id n.jobs ≡ some j'
    → j'.state ≡ j.state
terminal_state_absorbing m n id j j' s x e t e' =
    let moved : LeadsAt (some j) (some j') = rw (e, e') at ((Steps-Good m n x s).leads id) in
    Leads-terminal moved t

no_jobs : (m : Manager) → m.jobs ≡ [] → m.queue ≡ [] → m.active_jobs ≡ [] → Safe m
unfolding IsKeyed lookup
no_jobs m j q a = record {
  jobs_ok = rw j (record { unique = tt; keyed = tt });
  ready = rw q tt;
  nodup = rw q tt;
  active = rw a tt;
  permitted = λ k. rw j tt;
  awaiting = λ k. rw j tt;
}

-- Every manager that is reached from one without jobs, by calls of `start` with new ids and by the events
-- of `Step`, satisfies `Safe`: jobs stand under their ids, the queue holds
-- each of its jobs once, all of them queued and without an approval to wait for, active jobs have left
-- the queue, and a job that runs needed no approval or was approved.
pub Reached-Safe : (m : Manager) → Reached m → Safe m
Reached-Safe m (empty _ j q a) = no_jobs m j q a
Reached-Safe _ (begun now facts input m r f) =
    (start-Admitted now facts input m (Reached-Safe m r) f).safe
Reached-Safe _ (stepped m n r x) = (Step-Good m n x (Reached-Safe m r)).safe

-- In every manager that is reached from one without jobs, by calls of `start` with new ids and by the
-- events of `Step`, no more jobs are active than `maxConcurrentJobs`. The recovery of runner jobs after a
-- restart, which has no such bound, is not among them.
pub lifetime_bound : (m : Manager) → Reached m → length m.active_jobs ≤ m.max_concurrent_jobs
lifetime_bound m (empty _ j q a) = rw a (omega arith)
lifetime_bound _ (begun now facts input m r f) =
    let g = start-Admitted now facts input m (Reached-Safe m r) f in
    rw (g.active, g.limit) (lifetime_bound m r)
lifetime_bound _ (stepped m n r x) =
    let g = Step-Good m n x (Reached-Safe m r) in
    ground (arith, g.bound, g.limit, lifetime_bound m r)
