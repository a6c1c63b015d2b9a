-- ===== src/Manager/Restart/Recovered.antt =====
-- What holds of a manager that src/lifecycle/LifecycleManager.ts builds from the jobs of the store.
use run_beacon.Base.{
  ℕ, ◌≡◌, ◌⊎◌, refl, ap, ◌∙◌, inl, inr, List, [], ◌∷◌, Bool, true, false, Option, none, some,
  Bool-cases, All, arith, ◌==◌,
}
use run_beacon.Base.Dict.{lookup, insert, lookup-insert}
use run_beacon.Types.{JobRecord, JobState, is_terminal_job_state}
use run_beacon.Manager.{Manager}
use run_beacon.Manager.Effects.Quiet.{JobsOk, JobsOk-insert, IsKeyed, SameAt}
use run_beacon.Manager.Effects.Pruned.{persist_now-Quiet}
use run_beacon.Manager.Safety.{IsPermitted, RunsPermitted, AwaitsQueued, Safe, Safe-Quiet}
use run_beacon.Manager.Restart.{
  ManagerOptions, new_manager, is_unfinished, can_reattach, reattaching_record, lost_record,
  restart_job, restart_each, construct,
}

-- What a restart needs of a job of the store: a job that runs on a runner was permitted to run, and one
-- that awaits its approval is queued.
pub record Loadable (has_target : Bool) (job : JobRecord) : Type 0 where
  pub permitted : can_reattach has_target job ≡ true → IsPermitted job
  pub awaiting : AwaitsQueued (some job)

-- A job after a restart: it has ended, or it runs and its runner can be reached.
pub record AtRest (has_target : Bool) (job : JobRecord) : Type 0 where
  pub permitted : RunsPermitted (some job)
  pub awaiting : AwaitsQueued (some job)
  pub kind :
      (is_terminal_job_state job.state ≡ true)
      ⊎ ((job.state ≡ JobState.running) × (can_reattach has_target job ≡ true))

abbrev pub RestsAt : Bool → Option JobRecord → Type 0
RestsAt has_target none = Unit {0}
RestsAt has_target (some job) = AtRest has_target job

finished_state :
    (s : JobState)
    → is_unfinished s ≡ false
    → (is_terminal_job_state s ≡ true) × (s ≡ JobState.running → ⊥)
unfolding is_unfinished
finished_state JobState.queued h = ground arith
finished_state JobState.running h = ground arith
finished_state JobState.succeeded h = (refl, λ e. cc)
finished_state JobState.failed h = (refl, λ e. cc)
finished_state JobState.cancelled h = (refl, λ e. cc)
finished_state JobState.timed_out h = (refl, λ e. cc)
finished_state JobState.lost h = (refl, λ e. cc)

restart_job-AtRest :
    (now : ℕ) (has_target : Bool) (job : JobRecord)
    → Loadable has_target job
    → AtRest has_target (restart_job now has_target job)
unfolding restart_job reattaching_record lost_record can_reattach
restart_job-AtRest now has_target job h = elim (Bool-cases (is_unfinished job.state)) [
  | inr f ↦
      rw (restart_job, f)
        (record {
          permitted = λ e. absurd ((finished_state job.state f).1 e);
          awaiting = h.awaiting;
          kind = inl (finished_state job.state f).0;
        })
  | inl t ↦ elim (Bool-cases (can_reattach has_target job)) [
    | inl r ↦
        rw (restart_job, t, r)
          (record {
            permitted = λ e. h.permitted r;
            awaiting = λ e. ground (arith, e);
            kind = inr (refl, r);
          })
    | inr n ↦
        rw (restart_job, t, n)
          (record {
            permitted = λ e. cc (ap is_terminal_job_state e);
            awaiting = λ e. ground (arith, e);
            kind = inl refl;
          })
  ]
]

restart_job-id :
    (now : ℕ) (has_target : Bool) (job : JobRecord) → job.id ≡ (restart_job now has_target job).id
unfolding restart_job reattaching_record lost_record
restart_job-id now has_target job = elim (Bool-cases (is_unfinished job.state)) [
  | inr f ↦ rw (restart_job, f) refl
  | inl t ↦ elim (Bool-cases (can_reattach has_target job)) [
    | inl r ↦ rw (restart_job, t, r) refl
    | inr n ↦ rw (restart_job, t, n) refl
  ]
]

record Restarted (has_target : Bool) (m : Manager) : Type 0 where
  jobs_ok : JobsOk m.jobs
  rests : (k : ℕ) → RestsAt has_target (lookup k m.jobs)
  queue : m.queue ≡ []
  active : m.active_jobs ≡ []

restart_each-Restarted :
    (now : ℕ) (has_target : Bool) (loaded : List JobRecord) (m : Manager)
    → All (Loadable has_target) loaded
    → Restarted has_target m
    → Restarted has_target (restart_each now has_target loaded m)
unfolding restart_each
restart_each-Restarted now has_target [] m all h = h
restart_each-Restarted now has_target (job ∷ jobs) m all h =
    restart_each-Restarted now has_target jobs _ all.1 (record {
      jobs_ok =
          JobsOk-insert job.id (restart_job now has_target job) m.jobs h.jobs_ok
            (restart_job-id now has_target job);
      rests = λ k. at k (Bool-cases (job.id == k));
      queue = h.queue;
      active = h.active;
    })
  where
    at :
        (k : ℕ)
        → (((job.id == k) ≡ true) ⊎ ((job.id == k) ≡ false))
        → RestsAt has_target (lookup k (insert job.id (restart_job now has_target job) m.jobs))
    at k (inl t) =
        rw (lookup-insert job.id k (restart_job now has_target job) m.jobs, t)
          (restart_job-AtRest now has_target job all.0)
    at k (inr f) =
        rw (lookup-insert job.id k (restart_job now has_target job) m.jobs, f) (h.rests k)

new_manager-Restarted :
    (options : ManagerOptions) (ttl : ℕ) (audit store has_target : Bool)
    → Restarted has_target (new_manager options ttl audit store)
unfolding new_manager lookup IsKeyed
new_manager-Restarted options ttl audit store has_target = record {
  jobs_ok = record { unique = tt; keyed = tt };
  rests = λ k. tt;
  queue = refl;
  active = refl;
}

RestsAt-RunsPermitted :
    (b : Bool) (o : Option JobRecord) → RestsAt b o → RunsPermitted o × AwaitsQueued o
RestsAt-RunsPermitted b none h = (tt, tt)
RestsAt-RunsPermitted b (some j) h = (h.permitted, h.awaiting)

Restarted-Safe : (has_target : Bool) (m : Manager) → Restarted has_target m → Safe m
Restarted-Safe has_target m h = record {
  jobs_ok = h.jobs_ok;
  ready = rw h.queue tt;
  nodup = rw h.queue tt;
  active = rw h.active tt;
  permitted = λ k. (RestsAt-RunsPermitted has_target (lookup k m.jobs) (h.rests k)).0;
  awaiting = λ k. (RestsAt-RunsPermitted has_target (lookup k m.jobs) (h.rests k)).1;
}

-- A job that a restart left has ended or runs, and keeps doing so while it is saved.
abbrev pub EndedOrRuns : Option JobRecord → Type 0
EndedOrRuns none = Unit {0}
EndedOrRuns (some j) = (is_terminal_job_state j.state ≡ true) ⊎ (j.state ≡ JobState.running)

EndedOrRuns-SameAt :
    (b : Bool) (o o' : Option JobRecord) → SameAt o o' → RestsAt b o → EndedOrRuns o'
EndedOrRuns-SameAt b o none s h = tt
EndedOrRuns-SameAt b none (some j) s h = absurd s
EndedOrRuns-SameAt b (some i) (some j) s h = elim h.kind [
  | inl t ↦ inl (ap is_terminal_job_state s.state ∙ t)
  | inr (r, c) ↦ inr (s.state ∙ r)
]

-- If each job of the store that the constructor reattaches needs no approval or was approved, and each
-- that awaits approval is queued, then the manager that is built satisfies `Safe`, its queue and its
-- active jobs are empty, and each of its jobs has ended or runs: no job is left queued.
pub construct-Safe :
    (options : ManagerOptions) (ttl : ℕ) (audit store : Bool) (now : ℕ) (loaded : List JobRecord)
    → All (Loadable options.has_recover_target) loaded
    → let m = construct options ttl audit store now loaded in
      Safe m × (((m.queue ≡ []) × (m.active_jobs ≡ [])) × ((k : ℕ) → EndedOrRuns (lookup k m.jobs)))
unfolding construct
construct-Safe options ttl audit store now loaded all =
    let b = options.has_recover_target in
    let m = restart_each now b loaded (new_manager options ttl audit store) in
    let r =
      restart_each-Restarted now b loaded (new_manager options ttl audit store) all
        (new_manager-Restarted options ttl audit store b) in
    let q = persist_now-Quiet now m r.jobs_ok in
    (
      Safe-Quiet (Restarted-Safe b m r) q,
      (
        (q.queue ∙ r.queue, q.active ∙ r.active),
        λ k. EndedOrRuns-SameAt b _ _ (q.jobs k) (r.rests k),
      ),
    )
