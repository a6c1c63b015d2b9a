-- ===== src/Manager/Run/Drain.antt =====
-- `drain` and the end of a run keep the scheduler's invariant and the limit on running jobs.
use run_beacon.Base.{
  ℕ, ◌<◌, ◌≡◌, refl, ap, ◌∙◌, ◌⊎◌, inl, inr, List, [], ◌∷◌, ◌++◌, Bool, true, false, Option, none,
  some, arith, Option-cases, Bool-cases, All, All-append, length, length-append, contains, remove,
  if◌then◌else◌, ltb, ltb→lt, get_or,
}
use run_beacon.Base.Dict.{lookup, insert, erase, lookup-insert_self}
use run_beacon.Base.Text.{Text, ascii}
use run_beacon.Types.{JobRecord, JobState, JobPhase, Approval, ExecutionMode, is_terminal_job_state}
use run_beacon.Manager.{Manager, StartJobInput, AuditEntry}
use run_beacon.Manager.Effects.{finish, changed, touch, append_audit}
use run_beacon.Manager.Run.{
  run, run_record, is_ssh, drain_round, drain_each, drain, DrainRound, next, thrown, expire_record,
  is_grant_expired,
}
use run_beacon.Manager.Queue.{awaits}
use run_beacon.Manager.Queue.Grants.{Good-Beside, touched, ended, dequeue-Good}
use run_beacon.Manager.Effects.Quiet.{JobsOk, JobsOk-insert, lookup-IsKeyed, Beside, changed-Quiet}
use run_beacon.Manager.Effects.Pruned.{same, writes, touch-Quiet, Finishes, finish_lem}
use run_beacon.Manager.Safety.{
  Leads, stay, begin, ReadyAt, ActiveAt, IsNodup, Safe, Good, Good-Quiet, Good-trans, Good-refl,
}
use run_beacon.Manager.Safety.Writes.{
  ready_frame, active_frame, Leads-frame, permitted_frame, awaiting_frame, write-Good,
}

finish-queue :
    (now id : ℕ) (st : JobState) (e : Option Text) (m : Manager)
    → JobsOk m.jobs
    → (finish now id st e m).queue ≡ m.queue
finish-queue now id st e m ok = go (finish_lem now id st e m ok)
  where
    go : Finishes now id st e m (finish now id st e m) → (finish now id st e m).queue ≡ m.queue
    go (same q) = ap (λ (n : Manager). n.queue) q
    go (writes j m₁ f n js q a l quiet) = quiet.queue ∙ q

-- The write of `run`: the job runs, and its id is active.
run_write :
    (now id : ℕ) (ssh : Bool) (j : JobRecord) (m m' : Manager)
    → Safe m
    → lookup id m.jobs ≡ some j
    → contains id m.queue ≡ false
    → ReadyAt (some j)
    → length m.active_jobs < m.max_concurrent_jobs
    → m'.jobs ≡ insert id (run_record now ssh j) m.jobs
    → m'.queue ≡ m.queue
    → m'.active_jobs
      ≡ (if contains id m.active_jobs then m.active_jobs else m.active_jobs ++ id ∷ [])
    → m'.max_concurrent_jobs ≡ m.max_concurrent_jobs
    → Good m m'
unfolding run_record
run_write now id ssh j m m' s e c r room js q a lim =
    let leads : Leads j.state JobState.running = begin r.0 refl in
    let old = active_frame id j (run_record now ssh j) m.jobs m.active_jobs e leads s.active in
    let own : ActiveAt (lookup id (insert id (run_record now ssh j) m.jobs)) =
      rw (lookup-insert_self {V = JobRecord} id) refl in
    record {
      safe = record {
        jobs_ok =
            rw js
              (JobsOk-insert id _ m.jobs s.jobs_ok (lookup-IsKeyed id j m.jobs s.jobs_ok.keyed e));
        ready = rw (js, q) (ready_frame id _ m.jobs m.queue c s.ready);
        nodup = rw q s.nodup;
        active = elim (Bool-cases (contains id m.active_jobs)) [
          | inl t ↦ rw (js, a, t) old
          | inr f ↦ rw (js, a, f) (All-append _ m.active_jobs (id ∷ []) old (own, tt))
        ];
        permitted = rw js (permitted_frame id _ m.jobs s.permitted (λ _. r.1));
        awaiting =
            rw js (
              awaiting_frame id _ m.jobs s.awaiting
                (λ w. run_not_awaiting ssh j.policy.approval w));
      };
      leads = λ k. rw js (Leads-frame id j _ m.jobs k e leads);
      limit = lim;
      bound = rw a (ground (arith, length-append m.active_jobs (id ∷ []), room));
    }
  where
    run_not_awaiting :
        (ssh : Bool) (p : Approval)
        → awaits (if ssh then JobPhase.connecting else JobPhase.executing) p ≡ true
        → JobState.running ≡ JobState.queued
    run_not_awaiting true p w = cc
    run_not_awaiting false p w = cc

-- An effect that leaves the queue as it is.
Keeps : Manager → Manager → Type 0
Keeps m n = Good m n × (n.queue ≡ m.queue)

Keeps-touch : (now id : ℕ) (t : Text) (m n : Manager) → Keeps m n → Keeps m (touch now id t n)
unfolding Keeps
Keeps-touch now id t m n (g, q) =
    (touched now id t m n g, (touch-Quiet now id t n g.safe.jobs_ok).queue ∙ q)

Keeps-changed : (now id : ℕ) (m n : Manager) → Keeps m n → Keeps m (changed now id n)
unfolding Keeps
Keeps-changed now id m n (g, q) =
    let c = changed-Quiet now id n g.safe.jobs_ok in (Good-Quiet g c, c.queue ∙ q)

Keeps-Beside : (m n n' : Manager) → Beside n n' → Keeps m n → Keeps m n'
unfolding Keeps
Keeps-Beside m n n' b (g, q) = (Good-Beside g b, b.queue ∙ q)

Keeps-finish :
    (now id : ℕ) (st : JobState) (e : Option Text) (m n : Manager)
    → contains id m.queue ≡ false
    → is_terminal_job_state st ≡ true
    → Keeps m n
    → Keeps m (finish now id st e n)
unfolding Keeps
Keeps-finish now id st e m n c t (g, q) =
    (ended now id st e m n g (rw q c) t, finish-queue now id st e n g.safe.jobs_ok ∙ q)

run_lem :
    (now id : ℕ) (input : StartJobInput) (j : JobRecord) (m n : Manager)
    → lookup id n.jobs ≡ some j
    → ((ssh : Bool) → Keeps m (record n { jobs = insert id (run_record now ssh j) n.jobs }))
    → Keeps m (run now id input n)
unfolding run
run_lem now id input j m n e h =
    let k = Keeps-touch now id (ascii "Job started.") m _ (h (is_ssh input)) in
    let beside : (v : Bool) (x : Manager)
        → Beside x (record x {
          runtime_handles = insert id (record { cancellation_verified = v }) x.runtime_handles;
        }) =
      λ v x. record { jobs = refl; queue = refl; active = refl; limit = refl } in
    elim (Bool-cases (is_ssh input)) [
      | inr local ↦
          simp (e, run, local)
            (Keeps-Beside m _ _ (beside true _) (Keeps-changed now id m _ (simp local at k)))
      | inl ssh ↦ elim (mode_cases (get_or input.execution_mode ExecutionMode.auto)) [
        | inl d ↦ simp (e, run, ssh, d) (Keeps-Beside m _ _ (beside false _) (simp ssh at k))
        | inr (inl d) ↦ simp (e, run, ssh, d) (simp ssh at k)
        | inr (inr d) ↦ simp (e, run, ssh, d) (simp ssh at k)
      ]
    ]
  where
    mode_cases :
        (x : ExecutionMode)
        → (x ≡ ExecutionMode.direct) ⊎ (x ≡ ExecutionMode.auto) ⊎ (x ≡ ExecutionMode.runner)
    mode_cases ExecutionMode.direct = inl refl
    mode_cases ExecutionMode.auto = inr (inl refl)
    mode_cases ExecutionMode.runner = inr (inr refl)

-- The run that a round of `drain` starts, from a queue without the job.
started :
    (now id : ℕ) (input : StartJobInput) (j : JobRecord) (m m₁ : Manager)
    → Safe m
    → lookup id m.jobs ≡ some j
    → contains id m.queue ≡ false
    → ReadyAt (some j)
    → length m.active_jobs < m.max_concurrent_jobs
    → m₁.jobs ≡ m.jobs
    → m₁.queue ≡ m.queue
    → m₁.active_jobs
      ≡ (if contains id m.active_jobs then m.active_jobs else m.active_jobs ++ id ∷ [])
    → m₁.max_concurrent_jobs ≡ m.max_concurrent_jobs
    → Keeps m (run now id input m₁)
unfolding Keeps
started now id input j m m₁ s e c r room js q a lim =
    run_lem now id input j m m₁ (ap (λ d. lookup id d) js ∙ e) (λ ssh. (
      run_write now id ssh j m _ s e c r room (ap (λ d. insert id (run_record now ssh j) d) js) q a
          lim,
      q,
    ))

-- The write of a round whose grant expired.
expired_round :
    (id : ℕ) (j : JobRecord) (m m' : Manager)
    → Safe m
    → lookup id m.jobs ≡ some j
    → ReadyAt (lookup id m.jobs)
    → contains id m.queue ≡ false
    → m'.jobs ≡ insert id (expire_record j) m.jobs
    → m'.queue ≡ m.queue
    → m'.active_jobs ≡ m.active_jobs
    → m'.max_concurrent_jobs ≡ m.max_concurrent_jobs
    → Keeps m m'
unfolding Keeps expire_record
expired_round id j m m' s e r c js q a lim =
    let ready : ReadyAt (some j) = rw e at r in
    let queued = ready.0 in
    (
      write-Good id j (expire_record j) m m' s e c refl (stay refl) (λ w. cc) (λ w. queued) js q a
          lim,
      q,
    )

-- The state after a round, whether it throws or not.
abbrev after : DrainRound → Manager
after (next m) = m
after (thrown m) = m

Keeps-refl : (m : Manager) → Safe m → Keeps m m
unfolding Keeps
Keeps-refl m s = (Good-refl m s, refl)

choose :
    (m : Manager) (b c : Bool) (x y z : DrainRound)
    → Keeps m (after x)
    → Keeps m (after y)
    → Keeps m (after z)
    → Keeps m (after (if b then x else if c then y else z))
choose m true c x y z h i k = h
choose m false true x y z h i k = i
choose m false false x y z h i k = k

-- A record is appended to the audit log, or the round throws.
audited :
    (m : Manager) (entry : AuditEntry) (n : Manager) (f : Manager → Manager)
    → Keeps m n
    → ((x : Manager) → Keeps m x → Keeps m (f x))
    → Keeps m (after (elim (append_audit entry n) [ none ↦ thrown n | some x ↦ next (f x) ]))
audited m entry n f k h = logged n.audit_fails _ (
    h (record n { audit = entry ∷ n.audit })
      (Keeps-Beside m n _ (record { jobs = refl; queue = refl; active = refl; limit = refl }) k))
  where
    logged :
        (b : Bool) (x : Manager)
        → Keeps m (f x)
        → Keeps m
            (after (elim (if b then none else some x) [ none ↦ thrown n | some y ↦ next (f y) ]))
    logged true x h = k
    logged false x h = h

drain_round_lem :
    (now id : ℕ) (m : Manager)
    → Safe m
    → ReadyAt (lookup id m.jobs)
    → contains id m.queue ≡ false
    → length m.active_jobs < m.max_concurrent_jobs
    → Keeps m (after (drain_round now id m))
unfolding drain_round
drain_round_lem now id m s r c room = elim (Option-cases (lookup id m.jobs)) [
  | inl e ↦ absurd (rw e at r)
  | inr (j, e) ↦ elim (Option-cases (lookup id m.pending_inputs)) [
    | inl p ↦ rw (drain_round, e, p) (Keeps-refl m s)
    | inr (input, p) ↦
        let ran =
          started now id input j m
            (record m {
              pending_inputs = erase id m.pending_inputs;
              active_jobs =
                  if contains id m.active_jobs then m.active_jobs else m.active_jobs ++ id ∷ [];
            })
            s e c (rw e at r) room refl refl refl refl in
        let lapsed =
          expired_round id j m
            (record m {
              pending_inputs = erase id m.pending_inputs;
              jobs = insert id (expire_record j) m.jobs;
            })
            s e r c refl refl refl refl in
        rw (drain_round, e, p)
          (choose m j.cancel_requested (is_grant_expired now j) _ _ _ (Keeps-refl m s)
            (audited m _ _ _ lapsed (λ x k. Keeps-finish now id _ _ m _ c refl k)) ran)
  ]
]

remove-absent : (id : ℕ) (xs : List ℕ) → contains id xs ≡ false → remove id xs ≡ xs
remove-absent id [] c = refl
remove-absent id (x ∷ xs) c = ground (arith, c, remove-absent id xs)

drain_each-Good :
    (now : ℕ) (q : List ℕ) (m : Manager) → Safe m → m.queue ≡ q → Good m (drain_each now q m)
unfolding drain_each Keeps
drain_each-Good now [] m s e = Good-refl m s
drain_each-Good now (id ∷ rest) m s e =
    elim (Bool-cases (ltb (length m.active_jobs) m.max_concurrent_jobs)) [
      | inr f ↦ rw (drain_each, f) (Good-refl m s)
      | inl room ↦
          let m₁ : Manager = record m { queue = rest } in
          let nodup : IsNodup (id ∷ rest) = rw e at s.nodup in
          let ready : All (λ k. ReadyAt (lookup k m.jobs)) (id ∷ rest) = rw e at s.ready in
          let g : Good m m₁ = dequeue-Good id m m₁ s refl (rw e (ground arith)) refl refl in
          rw (drain_each, room)
            (Good-trans g (
              go_on (λ n t q. drain_each-Good now rest n t q) m₁ refl (drain_round now id m₁)
                (drain_round_lem now id m₁ g.safe ready.0 nodup.0 (ltb→lt _ _ room))))
    ]
  where
    go_on :
        ((n : Manager) → Safe n → n.queue ≡ rest → Good n (drain_each now rest n))
        → (m₁ : Manager) → m₁.queue ≡ rest
        → (r : DrainRound) → Keeps m₁ (after r)
        → Good m₁ (elim r [ next n ↦ drain_each now rest n | thrown n ↦ n ])
    go_on ih m₁ q (next n) k = Good-trans k.0 (ih n k.0.safe (k.1 ∙ q))
    go_on ih m₁ q (thrown n) k = k.0

-- From a state that satisfies `Safe`, a drain leads to a state that satisfies `Safe`, with jobs that
-- stayed or made an allowed move, and no more active jobs than before or than the limit.
pub drain-Good : (now : ℕ) (m : Manager) → Safe m → Good m (drain now m)
unfolding drain
drain-Good now m s =
    let g : Good m (record m { drain_scheduled = false }) =
      Good-Beside (Good-refl m s)
        (record { jobs = refl; queue = refl; active = refl; limit = refl }) in
    Good-trans g (drain_each-Good now m.queue _ g.safe refl)
