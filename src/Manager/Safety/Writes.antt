-- ===== src/Manager/Safety/Writes.antt =====
-- A job that is written back keeps the invariant when its move is allowed; `finish` does so.
use run_beacon.Base.{
  ℕ, ◌≡◌, refl, sym, ap, ◌∙◌, subst, ◌≢◌, inl, inr, List, [], ◌∷◌, true, false, Option, some, arith,
  Bool-cases, All, All-imp, contains, ◌==◌, ==_iff,
}
use run_beacon.Base.Dict.{Dict, lookup, insert, lookup-insert}
use run_beacon.Base.Text.{Text}
use run_beacon.Manager.Queue.{is_awaiting, awaits}
use run_beacon.Types.{JobPhase, JobRecord, JobState, is_terminal_job_state}
use run_beacon.Manager.{Manager}
use run_beacon.Manager.Effects.{finish, finish_record}
use run_beacon.Manager.Effects.Quiet.{JobsOk-insert, lookup-IsKeyed}
use run_beacon.Manager.Effects.Pruned.{same, writes, Finishes, finish_lem, finish_record_lem}
use run_beacon.Manager.Safety.{
  AwaitsQueued, Leads, stay, begin, stop, LeadsAt, ReadyAt, ActiveAt, is_queued, RunsPermitted,
  Safe, Good, Good-Quiet, Good-refl, LeadsAt-refl,
}

-- A statement of a job carries over to the map with another job written.
at_insert :
    (P : Option JobRecord → Type 0) (id k : ℕ) (j' : JobRecord) (d : Dict JobRecord)
    → (k ≡ id → P (some j'))
    → (k ≢ id → P (lookup k d))
    → P (lookup k (insert id j' d))
at_insert P id k j' d hit miss = elim (Bool-cases (id == k)) [
  | inl t ↦ rw (lookup-insert id k j' d, t) (hit (sym ((==_iff id k).0 t)))
  | inr f ↦ rw (lookup-insert id k j' d, f) (miss (ground (arith, f)))
]

-- What holds of listed jobs holds when a job that is not in the list is written.
pub All-frame :
    (P : Option JobRecord → Type 0) (id : ℕ) (j' : JobRecord) (d : Dict JobRecord) (q : List ℕ)
    → contains id q ≡ false
    → All (λ k. P (lookup k d)) q
    → All (λ k. P (lookup k (insert id j' d))) q
All-frame P id j' d [] c h = tt
All-frame P id j' d (k ∷ q) c h = (
  at_insert P id k j' d (λ e. ground (arith, e, c)) (λ _. h.0),
  All-frame P id j' d q (ground (arith, c)) h.1,
)

pub ready_frame :
    (id : ℕ) (j' : JobRecord) (d : Dict JobRecord) (q : List ℕ)
    → contains id q ≡ false
    → All (λ k. ReadyAt (lookup k d)) q
    → All (λ k. ReadyAt (lookup k (insert id j' d))) q
ready_frame = All-frame ReadyAt

-- So too for a job in the queue that keeps its state and its policy.
pub ready_frame_same :
    (id : ℕ) (j j' : JobRecord) (d : Dict JobRecord) (q : List ℕ)
    → lookup id d ≡ some j
    → j'.state ≡ j.state
    → j'.policy ≡ j.policy
    → All (λ k. ReadyAt (lookup k d)) q
    → All (λ k. ReadyAt (lookup k (insert id j' d))) q
ready_frame_same id j j' d q e st po =
    All-imp _ _
      (λ k r.
        at_insert ReadyAt id k j' d
          (λ i. let r' : ReadyAt (some j) = rw (i, e) at r in (st ∙ r'.0, rw po r'.1)) (λ _. r))
      q

Leads-is_queued : {s t : JobState} → Leads s t → is_queued s ≡ false → is_queued t ≡ false
Leads-is_queued (stay e) h = rw e h
Leads-is_queued (begin a b) h = cc
Leads-is_queued {s} {t} (stop a b) h = terminal_not_queued t b
  where
    terminal_not_queued : (t : JobState) → is_terminal_job_state t ≡ true → is_queued t ≡ false
    terminal_not_queued JobState.queued e = cc
    terminal_not_queued _ e = refl

pub active_frame :
    (id : ℕ) (j j' : JobRecord) (d : Dict JobRecord) (xs : List ℕ)
    → lookup id d ≡ some j
    → Leads j.state j'.state
    → All (λ k. ActiveAt (lookup k d)) xs
    → All (λ k. ActiveAt (lookup k (insert id j' d))) xs
active_frame id j j' d xs e l =
    All-imp _ _
      (λ k a. at_insert ActiveAt id k j' d (λ q. Leads-is_queued l (rw (q, e) at a)) (λ _. a)) xs

pub Leads-frame :
    (id : ℕ) (j j' : JobRecord) (d : Dict JobRecord) (k : ℕ)
    → lookup id d ≡ some j
    → Leads j.state j'.state
    → LeadsAt (lookup k d) (lookup k (insert id j' d))
Leads-frame id j j' d k e l =
    at_insert (λ o. LeadsAt (lookup k d) o) id k j' d (λ q. rw (q, e) l) (λ _. LeadsAt-refl _)

pub permitted_frame :
    (id : ℕ) (j' : JobRecord) (d : Dict JobRecord)
    → ((k : ℕ) → RunsPermitted (lookup k d))
    → RunsPermitted (some j')
    → (k : ℕ) → RunsPermitted (lookup k (insert id j' d))
permitted_frame id j' d h r k = at_insert RunsPermitted id k j' d (λ _. r) (λ _. h k)

pub awaiting_frame :
    (id : ℕ) (j' : JobRecord) (d : Dict JobRecord)
    → ((k : ℕ) → AwaitsQueued (lookup k d))
    → AwaitsQueued (some j')
    → (k : ℕ) → AwaitsQueued (lookup k (insert id j' d))
awaiting_frame id j' d h r k = at_insert AwaitsQueued id k j' d (λ _. r) (λ _. h k)

-- A job that is not in the queue is written back, and the schedule stays.
pub write-Good :
    (id : ℕ) (j j' : JobRecord) (m m' : Manager)
    → Safe m
    → lookup id m.jobs ≡ some j
    → contains id m.queue ≡ false
    → j'.id ≡ j.id
    → Leads j.state j'.state
    → RunsPermitted (some j')
    → AwaitsQueued (some j')
    → m'.jobs ≡ insert id j' m.jobs
    → m'.queue ≡ m.queue
    → m'.active_jobs ≡ m.active_jobs
    → m'.max_concurrent_jobs ≡ m.max_concurrent_jobs
    → Good m m'
write-Good id j j' m m' s e c i l p w js q a lim = record {
  safe = record {
    jobs_ok = rw js (
        JobsOk-insert id j' m.jobs s.jobs_ok
          (lookup-IsKeyed id j m.jobs s.jobs_ok.keyed e ∙ sym i));
    ready = rw (js, q) (ready_frame id j' m.jobs m.queue c s.ready);
    nodup = rw q s.nodup;
    active = rw (js, a) (active_frame id j j' m.jobs m.active_jobs e l s.active);
    permitted = rw js (permitted_frame id j' m.jobs s.permitted p);
    awaiting = rw js (awaiting_frame id j' m.jobs s.awaiting w);
  };
  leads = λ k. rw js (Leads-frame id j j' m.jobs k e l);
  limit = lim;
  bound = rw a (omega arith);
}

terminal_RunsPermitted :
    (j : JobRecord) → is_terminal_job_state j.state ≡ true → RunsPermitted (some j)
terminal_RunsPermitted j t e = cc (ap is_terminal_job_state e)

finished_not_awaiting :
    (j : JobRecord)
    → j.execution.phase ≡ JobPhase.finished
    → is_awaiting j ≡ true
    → j.state ≡ JobState.queued
finished_not_awaiting j p w = cc (ap (λ f. awaits f j.policy.approval) p)

-- `finish` with a terminal state keeps the invariant, for a job that is not in the queue.
pub finish-Good :
    (now id : ℕ) (st : JobState) (e : Option Text) (m : Manager)
    → Safe m
    → contains id m.queue ≡ false
    → is_terminal_job_state st ≡ true
    → Good m (finish now id st e m)
finish-Good now id st e m s c t = done (finish_lem now id st e m s.jobs_ok)
  where
    done : Finishes now id st e m (finish now id st e m) → Good m (finish now id st e m)
    done (same q) = subst (Good m) (sym q) (Good-refl m s)
    done (writes j m₁ f n js q a l quiet) =
        let j' = finish_record now st e j in
        let (state, i, policy, phase) = finish_record_lem now st e j in
        Good-Quiet
          (write-Good id j j' m m₁ s f c i (stop n (ap is_terminal_job_state state ∙ t))
            (terminal_RunsPermitted j' (ap is_terminal_job_state state ∙ t))
            (λ w. finished_not_awaiting j' phase w) js q a l)
          quiet
