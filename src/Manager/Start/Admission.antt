-- ===== src/Manager/Start/Admission.antt =====
-- `start` adds at most one job, puts it in the queue only where no approval is needed, and keeps the
-- invariant of the scheduler.
use run_beacon.Base.{
  ℕ, ◌≡◌, ◌≢◌, refl, sym, ◌∙◌, ◌⊎◌, inl, inr, List, [], ◌∷◌, ◌++◌, Bool, true, false, Option, none,
  some, All-append, contains, if◌then◌else◌,
}
use run_beacon.Base.Dict.{lookup, insert, values, lookup-insert_self, lookup-insert_ne}
use run_beacon.Base.Text.{Text, trim}
use run_beacon.Types.{JobRecord}
use run_beacon.Manager.{Manager, JobSnapshot, StartJobInput}
use run_beacon.Manager.Queue.{Result}
use run_beacon.Manager.Effects.{touch}
use run_beacon.Manager.Effects.Quiet.{
  JobsOk-insert, Quiet, Quiet-refl, SameAt, SameAt-refl, SameAt-trans, Beside, Beside-Quiet,
}
use run_beacon.Manager.Effects.Pruned.{touch-Quiet}
use run_beacon.Manager.Queue.Grants.{IsNodup-append, schedule_drain-Beside}
use run_beacon.Manager.Safety.{ReadyAt, ActiveAt, Safe, Safe-Quiet, not_queued}
use run_beacon.Manager.Safety.Writes.{All-frame, ready_frame, permitted_frame, awaiting_frame}
use run_beacon.Manager.Start.{
  is_bad_key, StartFacts, start, start_refusal, admit, admit_once, new_record, traced, keyed,
  same_text,
}

-- No job, listed or active, has the id: it is a new UUID.
unfoldable pub IsFresh : ℕ → Manager → Type 0
IsFresh id m = (lookup id m.jobs ≡ none) × (contains id m.active_jobs ≡ false)

-- The queue after a job was admitted.
unfoldable pub queue_after : StartFacts → Manager → List ℕ
queue_after facts m = if facts.decision.requires_approval then m.queue else m.queue ++ facts.id ∷ []

-- `start` left the manager as it was, or wrote one new job under the new id.
pub record Admitted (now : ℕ) (facts : StartFacts) (m m' : Manager) : Type 0 where
  pub safe : Safe m'
  pub queue : (m'.queue ≡ m.queue) ⊎ (m'.queue ≡ queue_after facts m)
  pub active : m'.active_jobs ≡ m.active_jobs
  pub limit : m'.max_concurrent_jobs ≡ m.max_concurrent_jobs
  pub others : (k : ℕ) → k ≢ facts.id → SameAt (lookup k m.jobs) (lookup k m'.jobs)

unchanged : (now : ℕ) (facts : StartFacts) (m : Manager) → Safe m → Admitted now facts m m
unchanged now facts m s = record {
  safe = s;
  queue = inl refl;
  active = refl;
  limit = refl;
  others = λ k n. SameAt-refl (lookup k m.jobs);
}

fresh_not_queued : (id : ℕ) (m : Manager) → Safe m → IsFresh id m → contains id m.queue ≡ false
unfolding IsFresh
fresh_not_queued id m s f = not_queued m id s (λ r. rw f.0 at r)

-- The new job, written but not in the queue.
record_written :
    (now : ℕ) (facts : StartFacts) (subs : List ℕ) (input : StartJobInput) (m m' : Manager)
    → Safe m
    → IsFresh facts.id m
    → m'.jobs ≡ insert facts.id (new_record now facts subs input) m.jobs
    → m'.queue ≡ m.queue
    → m'.active_jobs ≡ m.active_jobs
    → m'.max_concurrent_jobs ≡ m.max_concurrent_jobs
    → Admitted now facts m m'
unfolding IsFresh new_record
record_written now facts subs input m m' s f js q a lim = record {
  safe = record {
    jobs_ok = rw js (JobsOk-insert facts.id _ m.jobs s.jobs_ok refl);
    ready =
        rw (js, q)
          (ready_frame facts.id _ m.jobs m.queue (fresh_not_queued facts.id m s f) s.ready);
    nodup = rw q s.nodup;
    active = rw (js, a) (All-frame ActiveAt facts.id _ m.jobs m.active_jobs f.1 s.active);
    permitted = rw js (permitted_frame facts.id _ m.jobs s.permitted (λ r. cc));
    awaiting = rw js (awaiting_frame facts.id _ m.jobs s.awaiting (λ w. refl));
  };
  queue = inl q;
  active = a;
  limit = lim;
  others = λ k n.
      let miss : lookup k (insert facts.id (new_record now facts subs input) m.jobs)
          ≡ lookup k m.jobs =
        lookup-insert_ne facts.id k _ m.jobs (λ e. n (sym e)) in
      rw (js, miss) (SameAt-refl (lookup k m.jobs));
}

-- The new job, which needs no approval, at the end of the queue.
record_queued :
    (now : ℕ) (facts : StartFacts) (subs : List ℕ) (input : StartJobInput) (m m' : Manager)
    → Safe m
    → IsFresh facts.id m
    → facts.decision.requires_approval ≡ false
    → m'.jobs ≡ insert facts.id (new_record now facts subs input) m.jobs
    → m'.queue ≡ m.queue ++ facts.id ∷ []
    → m'.active_jobs ≡ m.active_jobs
    → m'.max_concurrent_jobs ≡ m.max_concurrent_jobs
    → Admitted now facts m m'
unfolding queue_after new_record
record_queued now facts subs input m m' s f free js q a lim =
    let j = new_record now facts subs input in
    let written =
      record_written now facts subs input m (record m { jobs = insert facts.id j m.jobs }) s f refl
        refl refl refl in
    let own : ReadyAt (some j) = (refl, inl (rw free refl)) in
    record {
      safe = record {
        jobs_ok = rw js written.safe.jobs_ok;
        ready =
            rw (js, q)
              (All-append _ m.queue (facts.id ∷ []) written.safe.ready
                (rw (lookup-insert_self {V = JobRecord} facts.id) own, tt));
        nodup = rw q (IsNodup-append facts.id m.queue (fresh_not_queued facts.id m s f) s.nodup);
        active = rw (js, a) written.safe.active;
        permitted = rw js written.safe.permitted;
        awaiting = rw js written.safe.awaiting;
      };
      queue = inr (rw free q);
      active = a;
      limit = lim;
      others = λ k n. rw js (written.others k n);
    }

-- Quiet effects may follow.
Admitted-Quiet :
    {now : ℕ} {facts : StartFacts} {m n o : Manager}
    → Admitted now facts m n
    → Quiet n o
    → Admitted now facts m o
Admitted-Quiet g q = record {
  safe = Safe-Quiet g.safe q;
  queue = elim g.queue [ inl e ↦ inl (q.queue ∙ e) | inr e ↦ inr (q.queue ∙ e) ];
  active = q.active ∙ g.active;
  limit = q.limit ∙ g.limit;
  others = λ k n. SameAt-trans _ _ _ (g.others k n) (q.jobs k);
}

Admitted-Beside :
    {now : ℕ} {facts : StartFacts} {m n o : Manager}
    → Admitted now facts m n
    → Beside n o
    → Admitted now facts m o
Admitted-Beside {n = n} g h =
    Admitted-Quiet g (Beside-Quiet g.safe.jobs_ok (Quiet-refl n g.safe.jobs_ok) h)

module _ (now : ℕ) (facts : StartFacts) (m : Manager) where
  -- The manager that a call leaves.
  Left : Result JobSnapshot × Manager → Type 0
  Left r = Admitted now facts m r.1

  either_way :
      (b : Bool) (x y : Result JobSnapshot × Manager) → Left x → Left y → Left (if b then x else y)
  either_way true x y h i = h
  either_way false x y h i = i

  either_effect :
      (b : Bool) (x y : Manager)
      → (b ≡ true → Admitted now facts m x)
      → (b ≡ false → Admitted now facts m y)
      → Admitted now facts m (if b then x else y)
  either_effect true x y h i = h refl
  either_effect false x y h i = i refl

  logged :
      (b : Bool) (n n' : Manager) (e : Result JobSnapshot)
      (f : Manager → Result JobSnapshot × Manager)
      → Admitted now facts m n
      → Left (f n')
      → Left (elim (if b then none else some n') [ none ↦ (e, n) | some x ↦ f x ])
  unfolding Left
  logged true n n' e f h i = h
  logged false n n' e f h i = i

  by_option :
      {A : Type 0} (o : Option A) (x : Result JobSnapshot × Manager)
      (f : A → Result JobSnapshot × Manager)
      → Left x
      → ((a : A) → Left (f a))
      → Left (elim o [ none ↦ x | some a ↦ f a ])
  by_option none x f h i = h
  by_option (some a) x f h i = i a

  admit-Left :
      (input : StartJobInput) → Safe m → IsFresh facts.id m → Left (admit now facts input m)
  unfolding admit Left
  admit-Left input s f =
      let same = unchanged now facts m s in
      let touched : (t : Text) (n : Manager)
          → Admitted now facts m n
          → Admitted now facts m (touch now facts.id t n) =
        λ t n g. Admitted-Quiet g (touch-Quiet now facts.id t n g.safe.jobs_ok) in
      by_option facts.event_subscriptions _ _ same (λ subs.
        let written : (n : Manager)
            → n.jobs ≡ insert facts.id (new_record now facts subs input) m.jobs
            → n.queue ≡ m.queue
            → n.active_jobs ≡ m.active_jobs
            → n.max_concurrent_jobs ≡ m.max_concurrent_jobs
            → Admitted now facts m n =
          λ n. record_written now facts subs input m n s f in
        either_way facts.progress_pattern_refused _ _ same (
          logged m.audit_fails _ _ _ _ (written _ refl refl refl refl) (
            either_effect facts.decision.requires_approval _ _
              (λ t. touched _ _ (written _ refl refl refl refl))
              (λ free.
                Admitted-Beside
                  (touched _ _
                    (record_queued now facts subs input m _ s f free refl refl refl refl))
                  (schedule_drain-Beside _)))))

  admit_once-Left :
      (input : StartJobInput) → Safe m → IsFresh facts.id m → Left (admit_once now facts input m)
  unfolding admit_once Left
  admit_once-Left input s f =
      let same = unchanged now facts m s in
      by_option input.idempotency_key _ _ (admit-Left input s f) (λ raw.
        either_way (is_bad_key (trim raw)) _ _ same (
          by_option (keyed (trim raw) (values m.jobs)) _ _
            (admit-Left (record input { idempotency_key = some (trim raw) }) s f)
            (λ job. either_way (same_text job.command_digest facts.command_digest) _ _ same same)))

-- From a state that satisfies `Safe`, and with a new id, every call of `start` leads to a state that
-- satisfies `Safe`, with the same active jobs and the other jobs as they were; the queue is as it
-- was, or, where the policy requires no approval, has the new job at its end.
pub start-Admitted :
    (now : ℕ) (facts : StartFacts) (input : StartJobInput) (m : Manager)
    → Safe m
    → IsFresh facts.id m
    → Admitted now facts m (start now facts input m).1
unfolding start Left
start-Admitted now facts input m s f =
    let same = unchanged now facts m s in
    either_way now facts m m.disposed _ _ same (
      by_option now facts m (start_refusal facts input) _ _
        (by_option now facts m (traced input.request_trace_id (values m.jobs)) _ _
          (either_way now facts m facts.target_refused _ _ same
            (admit_once-Left now facts m input s f))
          (λ job. same))
        (λ e. same))
