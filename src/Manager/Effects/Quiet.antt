-- ===== src/Manager/Effects/Quiet.antt =====
-- What the shared effects leave alone: a job's state, policy and identity, at a version bump and at
-- an output chunk.
use run_beacon.Base.{
  ℕ, suc, ◌+◌, ◌≡◌, refl, sym, ap, ◌∙◌, [], ◌∷◌, true, Option, none, some, arith, Option-cases,
  Bool-cases, inl, inr, ◌==◌, ==_iff,
}
use run_beacon.Base.Dict.{Dict, lookup, insert, erase, IsUnique, IsUnique-insert, lookup-insert}
use run_beacon.Base.Text.{Text}
use run_beacon.Types.{JobRecord, is_terminal_job_state, JobOutputStream}
use run_beacon.Manager.{Manager}
use run_beacon.Manager.Effects.{notify_watchers, resolve_waits, changed, append_record, append}

-- Every job stands under its own id, and under no other.
unfoldable pub IsKeyed : Dict JobRecord → Type 0
IsKeyed [] = Unit
IsKeyed ((k, j) ∷ d) = (k ≡ j.id) × IsKeyed d

pub record JobsOk (d : Dict JobRecord) : Type 0 where
  pub unique : IsUnique d
  pub keyed : IsKeyed d

-- The same job to the scheduler.
pub record SameJob (j j' : JobRecord) : Type 0 where
  pub state : j'.state ≡ j.state
  pub policy : j'.policy ≡ j.policy
  pub cancel_requested : j'.cancel_requested ≡ j.cancel_requested
  pub id : j'.id ≡ j.id
  pub phase : j'.execution.phase ≡ j.execution.phase

-- A job stays, or it was terminal and is dropped; none appears.
abbrev pub SameAt : Option JobRecord → Option JobRecord → Type 0
SameAt none none = Unit
SameAt none (some j') = ⊥
SameAt (some j) none = is_terminal_job_state j.state ≡ true
SameAt (some j) (some j') = SameJob j j'

pub record Quiet (m m' : Manager) : Type 0 where
  pub jobs_ok : JobsOk m'.jobs
  pub jobs : (k : ℕ) → SameAt (lookup k m.jobs) (lookup k m'.jobs)
  pub queue : m'.queue ≡ m.queue
  pub active : m'.active_jobs ≡ m.active_jobs
  pub limit : m'.max_concurrent_jobs ≡ m.max_concurrent_jobs

abbrev pub SameJob-refl : (j : JobRecord) → SameJob j j
SameJob-refl j = record {
  state = refl;
  policy = refl;
  cancel_requested = refl;
  id = refl;
  phase = refl;
}

pub SameAt-refl : (o : Option JobRecord) → SameAt o o
SameAt-refl none = tt
SameAt-refl (some j) = SameJob-refl j

pub SameAt-trans : (a b c : Option JobRecord) → SameAt a b → SameAt b c → SameAt a c
SameAt-trans none none none h i = tt
SameAt-trans none none (some x) h i = i
SameAt-trans none (some x) c h i = absurd h
SameAt-trans (some x) none none h i = h
SameAt-trans (some x) none (some y) h i = absurd i
SameAt-trans (some x) (some y) none h i = ap is_terminal_job_state (sym h.state) ∙ i
SameAt-trans (some x) (some y) (some z) h i = record {
  state = i.state ∙ h.state;
  policy = i.policy ∙ h.policy;
  cancel_requested = i.cancel_requested ∙ h.cancel_requested;
  id = i.id ∙ h.id;
  phase = i.phase ∙ h.phase;
}

pub Quiet-refl : (m : Manager) → JobsOk m.jobs → Quiet m m
Quiet-refl m ok = record {
  jobs_ok = ok;
  jobs = λ k. SameAt-refl (lookup k m.jobs);
  queue = refl;
  active = refl;
  limit = refl;
}

pub Quiet-trans : {a b c : Manager} → Quiet a b → Quiet b c → Quiet a c
Quiet-trans h i = record {
  jobs_ok = i.jobs_ok;
  jobs = λ k. SameAt-trans _ _ _ (h.jobs k) (i.jobs k);
  queue = i.queue ∙ h.queue;
  active = i.active ∙ h.active;
  limit = i.limit ∙ h.limit;
}

pub IsKeyed-insert : (j : JobRecord) (d : Dict JobRecord) → IsKeyed d → IsKeyed (insert j.id j d)
unfolding insert IsKeyed
IsKeyed-insert j [] h = (refl, tt)
IsKeyed-insert j ((i, v) ∷ d) h = ground (arith, IsKeyed-insert j d h.1)

pub IsKeyed-erase : (k : ℕ) (d : Dict JobRecord) → IsKeyed d → IsKeyed (erase k d)
unfolding erase IsKeyed
IsKeyed-erase k [] h = tt
IsKeyed-erase k ((i, v) ∷ d) h = ground (arith, IsKeyed-erase k d h.1)

pub lookup-IsKeyed :
    (k : ℕ) (j : JobRecord) (d : Dict JobRecord) → IsKeyed d → lookup k d ≡ some j → k ≡ j.id
unfolding lookup IsKeyed
lookup-IsKeyed k j [] h e = cc
lookup-IsKeyed k j ((i, v) ∷ d) h e = ground (arith, lookup-IsKeyed k j d h.1)

pub JobsOk-insert :
    (k : ℕ) (j : JobRecord) (d : Dict JobRecord) → JobsOk d → k ≡ j.id → JobsOk (insert k j d)
JobsOk-insert k j d ok e = record {
  unique = IsUnique-insert k j d ok.unique;
  keyed = rw e (IsKeyed-insert j d ok.keyed);
}

-- Writing a job back that is the same to the scheduler.
pub SameAt-insert :
    (id k : ℕ) (j j' : JobRecord) (d : Dict JobRecord)
    → lookup id d ≡ some j
    → SameJob j j'
    → SameAt (lookup k d) (lookup k (insert id j' d))
SameAt-insert id k j j' d e h = elim (Bool-cases (id == k)) [
  | inl t ↦ let q = (==_iff id k).0 t in rw (lookup-insert id k j' d, t) (rw (← q, e) h)
  | inr f ↦ rw (lookup-insert id k j' d, f) (SameAt-refl (lookup k d))
]

-- A manager that differs in the jobs alone, by one that is written back.
pub Quiet-insert :
    (id : ℕ) (j j' : JobRecord) (m m' : Manager)
    → JobsOk m.jobs
    → lookup id m.jobs ≡ some j
    → SameJob j j'
    → m'.jobs ≡ insert id j' m.jobs
    → m'.queue ≡ m.queue
    → m'.active_jobs ≡ m.active_jobs
    → m'.max_concurrent_jobs ≡ m.max_concurrent_jobs
    → Quiet m m'
Quiet-insert id j j' m m' ok e h js q a l = record {
  jobs_ok =
      rw js (JobsOk-insert id j' m.jobs ok (lookup-IsKeyed id j m.jobs ok.keyed e ∙ sym h.id));
  jobs = λ k. rw js (SameAt-insert id k j j' m.jobs e h);
  queue = q;
  active = a;
  limit = l;
}

-- A manager with the same jobs and schedule.
pub record Beside (m m' : Manager) : Type 0 where
  pub jobs : m'.jobs ≡ m.jobs
  pub queue : m'.queue ≡ m.queue
  pub active : m'.active_jobs ≡ m.active_jobs
  pub limit : m'.max_concurrent_jobs ≡ m.max_concurrent_jobs

pub notify_watchers-Beside :
    (id : ℕ) (j : JobRecord) (m : Manager) → Beside m (notify_watchers id j m)
unfolding notify_watchers
notify_watchers-Beside id j m = elim (Option-cases (lookup id m.change_waiters)) [
  | inl e ↦
      rw (e, notify_watchers) (record { jobs = refl; queue = refl; active = refl; limit = refl })
  | inr (w, e) ↦
      rw (e, notify_watchers) (record { jobs = refl; queue = refl; active = refl; limit = refl })
]

pub resolve_waits-Beside : (id : ℕ) (j : JobRecord) (m : Manager) → Beside m (resolve_waits id j m)
unfolding resolve_waits
resolve_waits-Beside id j m = ground arith

pub Beside-Quiet : {a b c : Manager} → JobsOk a.jobs → Quiet a b → Beside b c → Quiet a c
Beside-Quiet {c = c} ok h b = Quiet-trans h (record {
  jobs_ok = rw b.jobs h.jobs_ok;
  jobs = λ k. rw b.jobs (SameAt-refl _);
  queue = b.queue;
  active = b.active;
  limit = b.limit;
})

pub changed-Quiet : (now id : ℕ) (m : Manager) → JobsOk m.jobs → Quiet m (changed now id m)
unfolding changed
changed-Quiet now id m ok = elim (Option-cases (lookup id m.jobs)) [
  | inl e ↦ rw (e, changed) (Quiet-refl m ok)
  | inr (j, e) ↦
      let j' = record j { version = j.version + 1; updated_at = now } in
      let m₁ = record m { jobs = insert id j' m.jobs; persistence_timer = true } in
      let first =
        Quiet-insert id j j' m m₁ ok e
          (record { state = refl; policy = refl; cancel_requested = refl; id = refl; phase = refl })
          refl refl refl refl in
      rw (e, changed)
        (Beside-Quiet ok (Beside-Quiet ok first (notify_watchers-Beside id j' m₁))
          (resolve_waits-Beside id j' (notify_watchers id j' m₁)))
]

append_record-SameJob :
    (limit now seq : ℕ) (s : JobOutputStream) (t : Text) (j : JobRecord)
    → SameJob j (append_record limit now seq s t j)
unfolding append_record
append_record-SameJob limit now seq s t j = record {
  state = refl;
  policy = refl;
  cancel_requested = refl;
  id = refl;
  phase = refl;
}

pub append-Quiet :
    (now id : ℕ) (s : JobOutputStream) (t : Text) (m : Manager)
    → JobsOk m.jobs
    → Quiet m (append now id s t m)
unfolding append
append-Quiet now id s [] m ok = Quiet-refl m ok
append-Quiet now id s (b ∷ bs) m ok = elim (Option-cases (lookup id m.jobs)) [
  | inl e ↦ rw (e, append) (Quiet-refl m ok)
  | inr (j, e) ↦
      let j' = append_record m.max_output_bytes now (suc m.sequence) s (b ∷ bs) j in
      let m₁ = record m { sequence = suc m.sequence; jobs = insert id j' m.jobs } in
      let first =
        Quiet-insert id j j' m m₁ ok e
          (append_record-SameJob m.max_output_bytes now (suc m.sequence) s (b ∷ bs) j) refl refl
          refl refl in
      rw (e, append) (Quiet-trans first (changed-Quiet now id m₁ first.jobs_ok))
]
