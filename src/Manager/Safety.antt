-- ===== src/Manager/Safety.antt =====
-- The invariant of the scheduler, the moves of a job's state, and how the shared effects keep them.
pub mod Writes
use run_beacon.Base.{
  ℕ, suc, ◌+◌, ◌≤◌, ◌<◌, ◌≡◌, refl, sym, ap, ◌∙◌, subst, ◌≢◌, ◌⊎◌, inl, inr, List, [], ◌∷◌, ◌++◌,
  Bool, true, false, Option, none, some, arith, Option-cases, Bool-cases, All, All-imp, length,
  contains, if◌then◌else◌, ◌==◌, ==_iff, max, is_some,
}
use run_beacon.Base.Dict.{Dict, lookup, insert, erase, lookup-insert, lookup-insert_self}
use run_beacon.Base.Text.{Text}
use mathlib.Core.Path.{ap₂}
use run_beacon.Types.{JobPolicyStatus, JobRecord, JobState, Approval, is_terminal_job_state}
use run_beacon.Manager.{Manager}
use run_beacon.Manager.Queue.{is_awaiting, awaits}
use run_beacon.Manager.Effects.Quiet.{JobsOk, JobsOk-insert, lookup-IsKeyed, SameJob, SameAt, Quiet}

-- The moves of a job: it starts to run, or it ends; an ended job moves no more.
pub data Leads (s t : JobState) : Type 0 where
  stay : t ≡ s → Leads s t
  begin : s ≡ JobState.queued → t ≡ JobState.running → Leads s t
  stop : is_terminal_job_state s ≡ false → is_terminal_job_state t ≡ true → Leads s t

pub Leads-trans : {r s t : JobState} → Leads r s → Leads s t → Leads r t
Leads-trans {r} {s} {t} (stay e) l = subst (λ x. Leads x t) e l
Leads-trans {r} {s} {t} l (stay e) = subst (λ x. Leads r x) (sym e) l
Leads-trans (begin a b) (begin c d) = cc
Leads-trans (begin a b) (stop c d) = stop (rw a) d
Leads-trans (stop a b) (begin c d) = cc (ap is_terminal_job_state c)
Leads-trans (stop a b) (stop c d) = cc

-- Each job moves, or is dropped; none appears.
abbrev pub LeadsAt : Option JobRecord → Option JobRecord → Type 0
LeadsAt none none = Unit
LeadsAt none (some j') = ⊥
LeadsAt (some j) none = Unit
LeadsAt (some j) (some j') = Leads j.state j'.state

pub LeadsAt-trans : (a b c : Option JobRecord) → LeadsAt a b → LeadsAt b c → LeadsAt a c
LeadsAt-trans none none c h i = i
LeadsAt-trans none (some x) c h i = absurd h
LeadsAt-trans (some x) none none h i = tt
LeadsAt-trans (some x) none (some y) h i = absurd i
LeadsAt-trans (some x) (some y) none h i = tt
LeadsAt-trans (some x) (some y) (some z) h i = Leads-trans h i

pub LeadsAt-SameAt : (a b : Option JobRecord) → SameAt a b → LeadsAt a b
LeadsAt-SameAt none none h = tt
LeadsAt-SameAt none (some x) h = h
LeadsAt-SameAt (some x) none h = tt
LeadsAt-SameAt (some x) (some y) h = stay h.state

-- The approval that a job needs was granted.
abbrev pub IsPermitted : JobRecord → Type 0
IsPermitted j =
    (j.policy.approval ≡ Approval.not_required) ⊎ (j.policy.approval ≡ Approval.approved)

-- A queued id names a job that is there, is queued, and is permitted.
abbrev pub ReadyAt : Option JobRecord → Type 0
ReadyAt none = ⊥
ReadyAt (some j) = (j.state ≡ JobState.queued) × IsPermitted j

abbrev pub is_queued : JobState → Bool
is_queued JobState.queued = true
is_queued _ = false

-- An active id names a job that is past the queue.
abbrev pub ActiveAt : Option JobRecord → Type 0
ActiveAt none = Unit
ActiveAt (some j) = is_queued j.state ≡ false

abbrev pub RunsPermitted : Option JobRecord → Type 0
RunsPermitted none = Unit
RunsPermitted (some j) = j.state ≡ JobState.running → IsPermitted j

-- A job that awaits approval is queued.
abbrev pub AwaitsQueued : Option JobRecord → Type 0
AwaitsQueued none = Unit
AwaitsQueued (some j) = is_awaiting j ≡ true → j.state ≡ JobState.queued

abbrev pub IsNodup : List ℕ → Type 0
IsNodup [] = Unit
IsNodup (x ∷ xs) = (contains x xs ≡ false) × IsNodup xs

-- What holds between two events: jobs stand under their ids, the queue holds permitted queued jobs
-- once, active jobs have left the queue, no job runs without the approval that it needs, and a job
-- that awaits approval is queued.
pub record Safe (m : Manager) : Type 0 where
  pub jobs_ok : JobsOk m.jobs
  pub ready : All (λ k. ReadyAt (lookup k m.jobs)) m.queue
  pub nodup : IsNodup m.queue
  pub active : All (λ k. ActiveAt (lookup k m.jobs)) m.active_jobs
  pub permitted : (k : ℕ) → RunsPermitted (lookup k m.jobs)
  pub awaiting : (k : ℕ) → AwaitsQueued (lookup k m.jobs)

-- An event kept the invariant, moved each job along, and started no job beyond the limit.
pub record Good (m m' : Manager) : Type 0 where
  pub safe : Safe m'
  pub leads : (k : ℕ) → LeadsAt (lookup k m.jobs) (lookup k m'.jobs)
  pub limit : m'.max_concurrent_jobs ≡ m.max_concurrent_jobs
  pub bound : length m'.active_jobs ≤ max (length m.active_jobs) m.max_concurrent_jobs

ReadyAt-SameAt : (a b : Option JobRecord) → SameAt a b → ReadyAt a → ReadyAt b
ReadyAt-SameAt none b h r = absurd r
ReadyAt-SameAt (some x) none h r = cc (ap is_terminal_job_state r.0)
ReadyAt-SameAt (some x) (some y) h r = (h.state ∙ r.0, rw h.policy r.1)

ActiveAt-SameAt : (a b : Option JobRecord) → SameAt a b → ActiveAt a → ActiveAt b
ActiveAt-SameAt a none h r = tt
ActiveAt-SameAt none (some y) h r = absurd h
ActiveAt-SameAt (some x) (some y) h r = rw h.state r

RunsPermitted-SameAt : (a b : Option JobRecord) → SameAt a b → RunsPermitted a → RunsPermitted b
RunsPermitted-SameAt a none h r = tt
RunsPermitted-SameAt none (some y) h r = absurd h
RunsPermitted-SameAt (some x) (some y) h r = λ e. rw h.policy (r (sym h.state ∙ e))

AwaitsQueued-SameAt : (a b : Option JobRecord) → SameAt a b → AwaitsQueued a → AwaitsQueued b
AwaitsQueued-SameAt a none h r = tt
AwaitsQueued-SameAt none (some y) h r = absurd h
AwaitsQueued-SameAt (some x) (some y) h r = λ e.
    h.state ∙ r (sym (ap₂ awaits h.phase (ap (λ (p : JobPolicyStatus). p.approval) h.policy)) ∙ e)

pub Safe-Quiet : {m m' : Manager} → Safe m → Quiet m m' → Safe m'
Safe-Quiet {m} {m'} s q = record {
  jobs_ok = q.jobs_ok;
  ready = rw q.queue (All-imp _ _ (λ k r. ReadyAt-SameAt _ _ (q.jobs k) r) m.queue s.ready);
  nodup = rw q.queue s.nodup;
  active =
      rw q.active (All-imp _ _ (λ k r. ActiveAt-SameAt _ _ (q.jobs k) r) m.active_jobs s.active);
  permitted = λ k. RunsPermitted-SameAt _ _ (q.jobs k) (s.permitted k);
  awaiting = λ k. AwaitsQueued-SameAt _ _ (q.jobs k) (s.awaiting k);
}

pub Good-Quiet : {a b c : Manager} → Good a b → Quiet b c → Good a c
Good-Quiet {a} {b} {c} g q = record {
  safe = Safe-Quiet g.safe q;
  leads = λ k. LeadsAt-trans _ _ _ (g.leads k) (LeadsAt-SameAt _ _ (q.jobs k));
  limit = q.limit ∙ g.limit;
  bound = rw q.active g.bound;
}

pub Good-trans : {a b c : Manager} → Good a b → Good b c → Good a c
Good-trans g h = record {
  safe = h.safe;
  leads = λ k. LeadsAt-trans _ _ _ (g.leads k) (h.leads k);
  limit = h.limit ∙ g.limit;
  bound = omega (arith, g, h);
}

pub LeadsAt-refl : (o : Option JobRecord) → LeadsAt o o
LeadsAt-refl none = tt
LeadsAt-refl (some j) = stay refl

pub Good-refl : (m : Manager) → Safe m → Good m m
Good-refl m s = record {
  safe = s;
  leads = λ k. LeadsAt-refl (lookup k m.jobs);
  limit = refl;
  bound = omega arith;
}

pub All-contains : (P : ℕ → Type 0) (k : ℕ) (xs : List ℕ) → All P xs → contains k xs ≡ true → P k
All-contains P k [] h c = cc
All-contains P k (x ∷ xs) h c = elim (Bool-cases (k == x)) [
  | inl t ↦ subst P (sym ((==_iff k x).0 t)) h.0
  | inr f ↦ All-contains P k xs h.1 (rw f at c)
]

-- A job that is not ready is not in the queue.
pub not_queued :
    (m : Manager) (id : ℕ) → Safe m → ¬ ReadyAt (lookup id m.jobs) → contains id m.queue ≡ false
not_queued m id s n = elim (Bool-cases (contains id m.queue)) [
  | inl t ↦ absurd (n (All-contains _ id m.queue s.ready t))
  | inr f ↦ f
]
