-- ===== src/Manager/Queue/Grants.antt =====
-- `approve`, `rejectApproval` and `cancel` keep the scheduler's invariant.
use run_beacon.Base.{
  ℕ, ◌≡◌, refl, sym, ap, ◌∙◌, inl, inr, List, [], ◌∷◌, ◌++◌, true, false, Option, some, arith,
  Option-cases, Bool-cases, All-append, All-remove, contains, remove, if◌then◌else◌, ◌==◌, is_some,
}
use run_beacon.Base.Dict.{lookup, insert, lookup-insert_self}
use run_beacon.Base.Text.{Text, ascii}
use run_beacon.Types.{JobRecord, JobState, JobPhase, Approval, is_terminal_job_state}
use run_beacon.Manager.{Manager}
use run_beacon.Manager.Effects.{finish, touch}
use run_beacon.Manager.Queue.{
  is_awaiting, awaits, approve, approve_record, reject_approval, cancel, cancel_record,
  cancel_by_state, schedule_drain,
}
use run_beacon.Manager.Effects.Quiet.{
  JobsOk-insert, lookup-IsKeyed, Quiet-refl, Beside, Beside-Quiet,
}
use run_beacon.Manager.Effects.Pruned.{touch-Quiet}
use run_beacon.Manager.Safety.{
  stay, ReadyAt, IsNodup, Safe, Good, Good-Quiet, Good-trans, Good-refl, LeadsAt-refl, not_queued,
  RunsPermitted,
}
use run_beacon.Manager.Safety.Writes.{
  ready_frame, ready_frame_same, active_frame, Leads-frame, permitted_frame, awaiting_frame,
  write-Good, finish-Good,
}

contains-append :
    (k : ℕ) (xs : List ℕ) (y : ℕ)
    → contains k (xs ++ y ∷ []) ≡ (if contains k xs then true else k == y)
contains-append k [] y = ground arith
contains-append k (x ∷ xs) y = ground (arith, contains-append k xs y)

pub IsNodup-append :
    (k : ℕ) (xs : List ℕ) → contains k xs ≡ false → IsNodup xs → IsNodup (xs ++ k ∷ [])
IsNodup-append k [] c h = (refl, tt)
IsNodup-append k (x ∷ xs) c h = ground (arith, contains-append x xs k, IsNodup-append k xs, c, h)

-- A pending job is not ready.
pending_not_ready :
    (id : ℕ) (j : JobRecord) (m : Manager)
    → lookup id m.jobs ≡ some j
    → is_awaiting j ≡ true
    → ¬ ReadyAt (lookup id m.jobs)
pending_not_ready id j m e w r = cc' (rw e at r)
  where
    no : (p : JobPhase) (a : Approval) → awaits p a ≡ true → (a ≡ Approval.pending)
    no JobPhase.awaiting_approval Approval.pending h = refl
    no JobPhase.awaiting_approval Approval.not_required h = cc
    no JobPhase.awaiting_approval Approval.approved h = cc
    no JobPhase.awaiting_approval Approval.rejected h = cc
    no JobPhase.awaiting_approval Approval.expired h = cc
    no _ a h = cc

    cc' : ReadyAt (some j) → ⊥
    cc' r = ground (arith, no j.execution.phase j.policy.approval w, r)

-- The write of `approve`: the record, and the id at the end of the queue.
approved_write :
    (now ttl id : ℕ) (j : JobRecord) (m m' : Manager)
    → Safe m
    → lookup id m.jobs ≡ some j
    → is_awaiting j ≡ true
    → m'.jobs ≡ insert id (approve_record now ttl j) m.jobs
    → m'.queue ≡ m.queue ++ id ∷ []
    → m'.active_jobs ≡ m.active_jobs
    → m'.max_concurrent_jobs ≡ m.max_concurrent_jobs
    → Good m m'
unfolding approve_record
approved_write now ttl id j m m' s e w js q a lim =
    let absent = not_queued m id s (pending_not_ready id j m e w) in
    let queued : j.state ≡ JobState.queued = rw e at (s.awaiting id) w in
    record {
      safe = record {
        jobs_ok =
            rw js
              (JobsOk-insert id _ m.jobs s.jobs_ok (lookup-IsKeyed id j m.jobs s.jobs_ok.keyed e));
        ready =
            rw (js, q)
              (All-append _ m.queue (id ∷ []) (ready_frame id _ m.jobs m.queue absent s.ready)
                (rw (lookup-insert_self {V = JobRecord} id) (queued, inr refl), tt));
        nodup = rw q (IsNodup-append id m.queue absent s.nodup);
        active = rw (js, a) (active_frame id j _ m.jobs m.active_jobs e (stay refl) s.active);
        permitted = rw js (permitted_frame id _ m.jobs s.permitted (λ r. inr refl));
        awaiting = rw js (awaiting_frame id _ m.jobs s.awaiting (λ x. queued));
      };
      leads = λ k. rw js (Leads-frame id j _ m.jobs k e (stay refl));
      limit = lim;
      bound = rw a (omega arith);
    }

-- A quiet effect, then a write beside the jobs and the schedule.
pub Good-Beside : {a b c : Manager} → Good a b → Beside b c → Good a c
Good-Beside {b = b} g h = Good-Quiet g (Beside-Quiet g.safe.jobs_ok (Quiet-refl b g.safe.jobs_ok) h)

pub schedule_drain-Beside : (m : Manager) → Beside m (schedule_drain m)
unfolding schedule_drain
schedule_drain-Beside m = record { jobs = refl; queue = refl; active = refl; limit = refl }

pub touched : (now id : ℕ) (t : Text) (a b : Manager) → Good a b → Good a (touch now id t b)
touched now id t a b g = Good-Quiet g (touch-Quiet now id t b g.safe.jobs_ok)

-- `finish` of a job that is not in the queue, after a good step.
pub ended :
    (now id : ℕ) (st : JobState) (e : Option Text) (a b : Manager)
    → Good a b
    → contains id b.queue ≡ false
    → is_terminal_job_state st ≡ true
    → Good a (finish now id st e b)
ended now id st e a b g c t = Good-trans g (finish-Good now id st e b g.safe c t)

-- From a state that satisfies `Safe`, every call of `approve`, also one that is refused, leads to a
-- state that satisfies `Safe`, with jobs that stayed or made an allowed move and no more active ones.
pub approve-Good : (now id : ℕ) (m : Manager) → Safe m → Good m (approve now id m).1
unfolding approve
approve-Good now id m s = elim (Option-cases (lookup id m.jobs)) [
  | inl e ↦ rw (e, approve) (Good-refl m s)
  | inr (j, e) ↦ elim (Bool-cases m.disposed) [
    | inl d ↦ simp (e, approve, d) (Good-refl m s)
    | inr d ↦ elim (Bool-cases (is_awaiting j)) [
      | inr w ↦ simp (e, approve, d, w) (Good-refl m s)
      | inl w ↦ elim (Option-cases (lookup id m.pending_inputs)) [
        | inl p ↦ simp (e, approve, d, w, p) (Good-refl m s)
        | inr (input, p) ↦ elim (Option-cases (lookup id m.approval_contexts)) [
          | inl c ↦ simp (e, approve, d, w, p, c) (Good-refl m s)
          | inr (context, c) ↦ elim (Bool-cases m.audit_fails) [
            | inl a ↦
                simp (e, approve, d, w, p, c, a)
                  (approved_write now m.approval_ttl_seconds id j m _ s e w refl refl refl refl)
            | inr a ↦
                simp (e, approve, d, w, p, c, a)
                  (Good-Beside
                    (touched now id _ m _ (
                      approved_write now m.approval_ttl_seconds id j m _ s e w refl refl refl refl))
                    (schedule_drain-Beside _))
          ]
        ]
      ]
    ]
  ]
]

-- The write of `rejectApproval`.
rejected_write :
    (id : ℕ) (j j' : JobRecord) (m m' : Manager)
    → Safe m
    → lookup id m.jobs ≡ some j
    → is_awaiting j ≡ true
    → j' ≡ record j { policy = record j.policy { approval = Approval.rejected } }
    → m'.jobs ≡ insert id j' m.jobs
    → m'.queue ≡ m.queue
    → m'.active_jobs ≡ m.active_jobs
    → m'.max_concurrent_jobs ≡ m.max_concurrent_jobs
    → Good m m'
rejected_write id j j' m m' s e w v js q a lim =
    let absent = not_queued m id s (pending_not_ready id j m e w) in
    let queued : j.state ≡ JobState.queued = rw e at (s.awaiting id) w in
    write-Good id j j' m m' s e absent (rw v) (stay (rw v))
      (λ r. cc (ap (λ (x : JobRecord). x.state) v, queued)) (λ x. rw v queued) js q a lim

-- From a state that satisfies `Safe`, every call of `rejectApproval`, also one that is refused, leads
-- to a state that satisfies `Safe`, with jobs that stayed or made an allowed move.
pub reject_approval-Good : (now id : ℕ) (m : Manager) → Safe m → Good m (reject_approval now id m).1
unfolding reject_approval
reject_approval-Good now id m s = elim (Option-cases (lookup id m.jobs)) [
  | inl e ↦ rw (e, reject_approval) (Good-refl m s)
  | inr (j, e) ↦ elim (Bool-cases m.disposed) [
    | inl d ↦ simp (e, reject_approval, d) (Good-refl m s)
    | inr d ↦ elim (Bool-cases (is_awaiting j)) [
      | inr w ↦ simp (e, reject_approval, d, w) (Good-refl m s)
      | inl w ↦ elim (Option-cases (lookup id m.approval_contexts)) [
        | inl c ↦ simp (e, reject_approval, d, w, c) (Good-refl m s)
        | inr (context, c) ↦ elim (Bool-cases m.audit_fails) [
          | inl a ↦
              simp (e, reject_approval, d, w, c, a)
                (rejected_write id j _ m _ s e w refl refl refl refl refl)
          | inr a ↦
              simp (e, reject_approval, d, w, c, a)
                (ended now id _ _ m _ (rejected_write id j _ m _ s e w refl refl refl refl refl)
                  (not_queued m id s (pending_not_ready id j m e w)) refl)
        ]
      ]
    ]
  ]
]

contains-remove :
    (k id : ℕ) (xs : List ℕ) → contains k xs ≡ false → contains k (remove id xs) ≡ false
contains-remove k id [] c = refl
contains-remove k id (x ∷ xs) c = ground (arith, c, contains-remove k id xs)

IsNodup-remove :
    (id : ℕ) (xs : List ℕ)
    → IsNodup xs
    → IsNodup (remove id xs) × (contains id (remove id xs) ≡ false)
IsNodup-remove id [] h = (tt, refl)
IsNodup-remove id (x ∷ xs) h = ground (arith, IsNodup-remove id xs h.1, contains-remove x id xs h.0)

-- An id is taken off the queue.
pub dequeue-Good :
    (id : ℕ) (m m' : Manager)
    → Safe m
    → m'.jobs ≡ m.jobs
    → m'.queue ≡ remove id m.queue
    → m'.active_jobs ≡ m.active_jobs
    → m'.max_concurrent_jobs ≡ m.max_concurrent_jobs
    → Good m m'
dequeue-Good id m m' s js q a lim = record {
  safe = record {
    jobs_ok = rw js s.jobs_ok;
    ready = rw (js, q) (All-remove _ id m.queue s.ready);
    nodup = rw q (IsNodup-remove id m.queue s.nodup).0;
    active = rw (js, a) s.active;
    permitted = rw js s.permitted;
    awaiting = rw js s.awaiting;
  };
  leads = λ k. rw js (LeadsAt-refl _);
  limit = lim;
  bound = rw a (omega arith);
}

-- The write of `cancel`, of a job that may be in the queue.
cancel_write :
    (id : ℕ) (j j' : JobRecord) (m m' : Manager)
    → Safe m
    → lookup id m.jobs ≡ some j
    → j' ≡ cancel_record m j
    → m'.jobs ≡ insert id j' m.jobs
    → m'.queue ≡ m.queue
    → m'.active_jobs ≡ m.active_jobs
    → m'.max_concurrent_jobs ≡ m.max_concurrent_jobs
    → Good m m'
unfolding cancel_record
cancel_write id j j' m m' s e v js q a lim =
    let state : j'.state ≡ j.state = rw v in
    let policy : j'.policy ≡ j.policy = rw v in
    let permitted : RunsPermitted (some j) = rw e at (s.permitted id) in
    record {
      safe = record {
        jobs_ok = rw js (
            JobsOk-insert id j' m.jobs s.jobs_ok
              (lookup-IsKeyed id j m.jobs s.jobs_ok.keyed e ∙ rw v));
        ready = rw (js, q) (ready_frame_same id j j' m.jobs m.queue e state policy s.ready);
        nodup = rw q s.nodup;
        active = rw (js, a) (active_frame id j j' m.jobs m.active_jobs e (stay state) s.active);
        permitted =
            rw js (
              permitted_frame id j' m.jobs s.permitted
                (λ r. rw policy (permitted (sym state ∙ r))));
        awaiting = rw js (awaiting_frame id j' m.jobs s.awaiting (λ w. cc (v, w)));
      };
      leads = λ k. rw js (Leads-frame id j j' m.jobs k e (stay state));
      limit = lim;
      bound = rw a (omega arith);
    }

cancel_by_state-Good :
    (now id : ℕ) (st : JobState) (m : Manager) → Safe m → Good m (cancel_by_state now id st m)
unfolding cancel_by_state
cancel_by_state-Good now id JobState.queued m s =
    ended now id _ _ m _ (dequeue-Good id m _ s refl refl refl refl)
      (IsNodup-remove id m.queue s.nodup).1 refl
cancel_by_state-Good now id _ m s = elim (Bool-cases (is_some (lookup id m.runtime_handles))) [
  | inl t ↦ rw t (
      Good-Beside (Good-refl m s)
        (record { jobs = refl; queue = refl; active = refl; limit = refl }))
  | inr f ↦ rw f (Good-refl m s)
]

-- From a state that satisfies `Safe`, every call of `cancel` leads to a state that satisfies `Safe`,
-- with jobs that stayed or made an allowed move.
pub cancel-Good : (now id : ℕ) (m : Manager) → Safe m → Good m (cancel now id m).1
unfolding cancel
cancel-Good now id m s = elim (Option-cases (lookup id m.jobs)) [
  | inl e ↦ rw (e, cancel) (Good-refl m s)
  | inr (j, e) ↦ elim (Bool-cases (is_terminal_job_state j.state)) [
    | inl t ↦ simp (e, cancel, t) (Good-refl m s)
    | inr t ↦
        let g =
          touched now id (ascii "Cancellation requested.") m _
            (cancel_write id j _ m _ s e refl refl refl refl refl) in
        simp (e, cancel, t) (Good-trans g (cancel_by_state-Good now id j.state _ g.safe))
  ]
]
