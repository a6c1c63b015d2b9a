-- ===== src/Manager/Effects/Pruned.antt =====
-- `pruneHistory`, `persistNow`, `touch` and the end of a job in src/lifecycle/LifecycleManager.ts change no other job.
use run_beacon.Base.{
  ℕ, zero, suc, ◌⊎◌, All-imp, ◌≡◌, refl, ap, ◌∙◌, List, [], ◌∷◌, Bool, true, false, Option, none,
  some, arith, Option-cases, Bool-cases, inl, inr, filter, drop, All, ◌==◌, ==_iff, leb,
}
use run_beacon.Base.Dict.{
  Dict, lookup, insert, erase, values, IsUnique, IsUnique-erase, lookup-erase_self, lookup-erase_ne,
  erase_absent,
}
use run_beacon.Base.Text.{Text}
use run_beacon.Types.{JobPhase, JobRecord, JobState, is_terminal_job_state, system}
use run_beacon.Manager.{Manager}
use run_beacon.Manager.Effects.{
  append, insert_recent, sort_recent, expired_jobs, forget, forget_each, prune_history, persist_now,
  touch, finish, finish_record, announce, terminal_message,
}
use run_beacon.Manager.Effects.Quiet.{
  IsKeyed, JobsOk, SameAt, Quiet, SameAt-refl, Quiet-refl, Quiet-trans, IsKeyed-erase,
  lookup-IsKeyed, JobsOk-insert, Beside, Beside-Quiet, append-Quiet,
}

-- A job that `pruneHistory` is to drop is terminal, and it stands in the map or is gone.
abbrev Prunable : Dict JobRecord → JobRecord → Type 0
Prunable d j =
    ((lookup j.id d ≡ some j) ⊎ (lookup j.id d ≡ none)) × (is_terminal_job_state j.state ≡ true)

Prunable-insert_recent :
    (d : Dict JobRecord) (j : JobRecord) (js : List JobRecord)
    → Prunable d j
    → All (Prunable d) js
    → All (Prunable d) (insert_recent j js)
unfolding insert_recent
Prunable-insert_recent d j [] h i = (h, tt)
Prunable-insert_recent d j (x ∷ xs) h i = elim (Bool-cases (leb x.updated_at j.updated_at)) [
  | inl t ↦ rw t (h, i)
  | inr f ↦ rw f (i.0, Prunable-insert_recent d j xs h i.1)
]

Prunable-sort_recent :
    (d : Dict JobRecord) (js : List JobRecord)
    → All (Prunable d) js
    → All (Prunable d) (sort_recent js)
unfolding sort_recent
Prunable-sort_recent d [] h = tt
Prunable-sort_recent d (x ∷ xs) h = Prunable-insert_recent d x _ h.0 (Prunable-sort_recent d xs h.1)

All-drop : (P : JobRecord → Type 0) (n : ℕ) (js : List JobRecord) → All P js → All P (drop n js)
All-drop P zero js h = h
All-drop P (suc n) [] h = h
All-drop P (suc n) (j ∷ js) h = All-drop P n js h.1

All-filter_test :
    (P : JobRecord → Type 0) (p : JobRecord → Bool) (js : List JobRecord)
    → All P js
    → All (λ j. P j × (p j ≡ true)) (filter p js)
All-filter_test P p [] h = tt
All-filter_test P p (j ∷ js) h = elim (Bool-cases (p j)) [
  | inl t ↦ rw t ((h.0, t), All-filter_test P p js h.1)
  | inr f ↦ rw f (All-filter_test P p js h.1)
]

lookup_later :
    (k : ℕ) (v j : JobRecord) (d : Dict JobRecord)
    → lookup k d ≡ none
    → lookup j.id d ≡ some j
    → lookup j.id ((k, v) ∷ d) ≡ some j
unfolding lookup
lookup_later k v j d n e = elim (Bool-cases (j.id == k)) [
  | inl t ↦ cc (ap (λ i. lookup i d) ((==_iff j.id k).0 t))
  | inr f ↦ rw f e
]

values_found :
    (d : Dict JobRecord) → IsUnique d → IsKeyed d → All (λ j. lookup j.id d ≡ some j) (values d)
unfolding IsKeyed
values_found [] u k = tt
values_found ((i, v) ∷ d) u k = (
  unfold lookup in ground arith,
  All-imp _ _ (λ j e. lookup_later i v j d u.0 e) (values d) (values_found d u.1 k.1),
)

expired_jobs-Prunable : (m : Manager) → JobsOk m.jobs → All (Prunable m.jobs) (expired_jobs m)
unfolding expired_jobs
expired_jobs-Prunable m ok = All-drop _ _ _ (
    Prunable-sort_recent m.jobs _ (
      All-imp _ _ (λ j h. (inl h.0, h.1)) _
        (All-filter_test _ (λ j. is_terminal_job_state j.state) (values m.jobs)
          (values_found m.jobs ok.unique ok.keyed))))

JobsOk-erase : (k : ℕ) (d : Dict JobRecord) → JobsOk d → JobsOk (erase k d)
JobsOk-erase k d ok = record {
  unique = IsUnique-erase k d ok.unique;
  keyed = IsKeyed-erase k d ok.keyed;
}

SameAt-erase :
    (k : ℕ) (j : JobRecord) (d : Dict JobRecord)
    → JobsOk d
    → Prunable d j
    → SameAt (lookup k d) (lookup k (erase j.id d))
SameAt-erase k j d ok (inr n, t) = rw (erase_absent j.id d n) (SameAt-refl (lookup k d))
SameAt-erase k j d ok (inl e, t) = elim (Bool-cases (j.id == k)) [
  | inl same ↦ let q = (==_iff j.id k).0 same in rw (← q, lookup-erase_self j.id d ok.unique, e) t
  | inr other ↦ rw (lookup-erase_ne j.id k d (ground (arith, other))) (SameAt-refl (lookup k d))
]

-- `forget` erases the job, and leaves the schedule alone.
record Forgets (id : ℕ) (m m' : Manager) : Type 0 where
  jobs : m'.jobs ≡ erase id m.jobs
  queue : m'.queue ≡ m.queue
  active : m'.active_jobs ≡ m.active_jobs
  limit : m'.max_concurrent_jobs ≡ m.max_concurrent_jobs

forget-Forgets : (now id : ℕ) (m : Manager) → Forgets id m (forget now id m)
unfolding forget
forget-Forgets now id m = elim (Option-cases (lookup id m.waits.coordinators)) [
  | inl e ↦ rw (e, forget) (record { jobs = refl; queue = refl; active = refl; limit = refl })
  | inr (c, e) ↦ rw (e, forget) (record { jobs = refl; queue = refl; active = refl; limit = refl })
]

forget-Quiet :
    (now : ℕ) (j : JobRecord) (m : Manager)
    → JobsOk m.jobs
    → Prunable m.jobs j
    → Quiet m (forget now j.id m)
forget-Quiet now j m ok h =
    let f = forget-Forgets now j.id m in
    record {
      jobs_ok = rw f.jobs (JobsOk-erase j.id m.jobs ok);
      jobs = λ k. rw f.jobs (SameAt-erase k j m.jobs ok h);
      queue = f.queue;
      active = f.active;
      limit = f.limit;
    }

Prunable-erase :
    (id : ℕ) (d : Dict JobRecord) (j : JobRecord)
    → JobsOk d
    → Prunable d j
    → Prunable (erase id d) j
Prunable-erase id d j ok h = elim (Bool-cases (id == j.id)) [
  | inl same ↦ (inr (rw (← (==_iff id j.id).0 same) (lookup-erase_self id d ok.unique)), h.1)
  | inr other ↦ rw (lookup-erase_ne id j.id d (ground (arith, other))) h
]

forget_each-Quiet :
    (now : ℕ) (js : List JobRecord) (m : Manager)
    → JobsOk m.jobs
    → All (Prunable m.jobs) js
    → Quiet m (forget_each now js m)
unfolding forget_each
forget_each-Quiet now [] m ok h = Quiet-refl m ok
forget_each-Quiet now (j ∷ js) m ok h =
    let first = forget-Quiet now j m ok h.0 in
    Quiet-trans first (
      forget_each-Quiet now js (forget now j.id m) first.jobs_ok (
        rw (forget-Forgets now j.id m).jobs
          (All-imp _ _ (λ x p. Prunable-erase j.id m.jobs x ok p) js h.1)))

pub prune_history-Quiet : (now : ℕ) (m : Manager) → JobsOk m.jobs → Quiet m (prune_history now m)
unfolding prune_history
prune_history-Quiet now m ok = forget_each-Quiet now _ m ok (expired_jobs-Prunable m ok)

pub persist_now-Quiet : (now : ℕ) (m : Manager) → JobsOk m.jobs → Quiet m (persist_now now m)
unfolding persist_now
persist_now-Quiet now m ok =
    let m₁ = record m { persistence_timer = false } in
    let pruned = prune_history-Quiet now m₁ ok in
    let start : Quiet m m₁ = record {
      jobs_ok = ok;
      jobs = λ k. SameAt-refl _;
      queue = refl;
      active = refl;
      limit = refl;
    } in
    Quiet-trans start (elim (Bool-cases (prune_history now m₁).store_fails) [
      | inl t ↦ rw t (
          Beside-Quiet ok pruned
            (record { jobs = refl; queue = refl; active = refl; limit = refl }))
      | inr f ↦ rw f (
          Beside-Quiet ok pruned
            (record { jobs = refl; queue = refl; active = refl; limit = refl }))
    ])

-- `touch` changes no job's state, policy or identity, and drops only terminal jobs.
pub touch-Quiet : (now id : ℕ) (t : Text) (m : Manager) → JobsOk m.jobs → Quiet m (touch now id t m)
unfolding touch
touch-Quiet now id t m ok =
    let h = append-Quiet now id system t m ok in
    Quiet-trans h (persist_now-Quiet now (append now id system t m) h.jobs_ok)

announce-Beside : (j : JobRecord) (m : Manager) → Beside m (announce j m)
unfolding announce
announce-Beside j m = ground arith

-- `finish` writes the finished record of a job that is not terminal yet, and is quiet otherwise.
pub data Finishes (now id : ℕ) (s : JobState) (e : Option Text) (m m' : Manager) : Type 0 where
  same : m' ≡ m → Finishes now id s e m m'
  writes :
      (j : JobRecord) (m₁ : Manager)
      → lookup id m.jobs ≡ some j
      → is_terminal_job_state j.state ≡ false
      → m₁.jobs ≡ insert id (finish_record now s e j) m.jobs
      → m₁.queue ≡ m.queue
      → m₁.active_jobs ≡ m.active_jobs
      → m₁.max_concurrent_jobs ≡ m.max_concurrent_jobs
      → Quiet m₁ m'
      → Finishes now id s e m m'

pub finish_lem :
    (now id : ℕ) (s : JobState) (e : Option Text) (m : Manager)
    → JobsOk m.jobs
    → Finishes now id s e m (finish now id s e m)
unfolding finish
finish_lem now id s e m ok = elim (Option-cases (lookup id m.jobs)) [
  | inl n ↦ same (rw (n, finish))
  | inr (j, f) ↦ elim (Bool-cases (is_terminal_job_state j.state)) [
    | inl t ↦ same (rw (f, finish, t))
    | inr t ↦
        let j' = finish_record now s e j in
        let m₁ = record m {
          jobs = insert id j' m.jobs;
          approval_contexts = erase id m.approval_contexts;
        } in
        let ok' =
          JobsOk-insert id j' m.jobs ok
            (lookup-IsKeyed id j m.jobs ok.keyed f ∙ unfold finish_record in refl) in
        rw (f, finish, t)
          (writes j m₁ f t refl refl refl refl (
            Beside-Quiet ok' (touch-Quiet now id (terminal_message s e) m₁ ok')
              (announce-Beside j' (touch now id (terminal_message s e) m₁))))
  ]
]

pub finish_record_lem :
    (now : ℕ) (s : JobState) (e : Option Text) (j : JobRecord)
    → ((finish_record now s e j).state ≡ s)
      × ((finish_record now s e j).id ≡ j.id)
      × ((finish_record now s e j).policy ≡ j.policy)
      × ((finish_record now s e j).execution.phase ≡ JobPhase.finished)
unfolding finish_record
finish_record_lem now s e j = (refl, refl, refl, refl)
