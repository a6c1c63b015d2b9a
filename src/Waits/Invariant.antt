-- ===== src/Waits/Invariant.antt =====
-- The invariant of the waiters, and how a detached coordinator is put back or cleared.
use run_beacon.Base.{
  ℕ, suc, min, max, get_or, ◌+◌, ◌≤◌, ◌<◌, ◌≡◌, refl, ap, [], ◌∷◌, true, some, arith, length,
  is_some, Option-cases, inl, inr,
}
use run_beacon.Base.Dict.{
  Dict, lookup, insert, erase, values, keys, sum_by, count, IsUnique, AllValues, sum_by-insert,
  sum_by-insert_new, sum_by-erase, le-sum_by, IsUnique-insert, IsUnique-erase, AllValues-insert,
  AllValues-erase, AllValues-lookup, length-insert_new, count-insert_new, lookup_of_count,
}
use run_beacon.Waits.{
  Waits, Waiter, WaitCoordinator, arm_timer, arm_wait_timer, register, no_coordinator,
  max_waiters_per_job, max_waiters_global, max_wait_ms,
}
use run_beacon.Waits.Counts.{size, holds, IsKeyed, IsKeyed-insert, pending, settlements, Detached}

-- A registered coordinator has between one waiter and the limit, and its timer is armed.
pub record CoordinatorOk (c : WaitCoordinator) : Type 0 where
  pub some_waiter : 0 < size c
  pub limited : size c ≤ max_waiters_per_job
  pub armed : is_some c.timer ≡ true
  pub keyed : IsKeyed c.waiters

-- `totalWaiters` is the number of registered waiters, the limits hold, and no waiter id was handed
-- out beyond the sequence, is registered twice, is settled twice, or is both registered and settled.
pub record WaitsOk {S : Type 0} (s : Waits S) : Type 0 where
  pub counted : s.total_waiters ≡ sum_by size s.coordinators
  pub capped : s.total_waiters ≤ max_waiters_global
  pub unique : IsUnique s.coordinators
  pub each : AllValues CoordinatorOk s.coordinators
  pub once : (k : ℕ) → pending k s + settlements k s ≤ 1
  pub fresh : (k : ℕ) → s.waiter_sequence < k → pending k s + settlements k s ≡ 0

module _ {S : Type 0} where
  pub detach :
      (job : ℕ) (c : WaitCoordinator) (s : Waits S)
      → WaitsOk s
      → lookup job s.coordinators ≡ some c
      → Detached s c c s
  detach job c s ok e = record {
    coordinators = refl;
    sequence = refl;
    totals = refl;
    smaller = omega arith;
    enough = omega (arith, ok.counted, le-sum_by size job c s.coordinators e);
    keyed = (AllValues-lookup CoordinatorOk job c s.coordinators ok.each e).keyed;
    kept = λ k. refl;
  }

  -- So too for a coordinator with the same waiters and another timer.
  pub detach_as :
      (job : ℕ) (c₀ c : WaitCoordinator) (s : Waits S)
      → WaitsOk s
      → lookup job s.coordinators ≡ some c₀
      → c.waiters ≡ c₀.waiters
      → Detached s c₀ c s
  detach_as job c₀ c s ok l e =
      let h = detach job c₀ s ok l in
      record {
        coordinators = refl;
        sequence = refl;
        totals = omega (arith, ap length e);
        smaller = omega (arith, ap length e);
        enough = h.enough;
        keyed = rw e h.keyed;
        kept = λ k. omega (arith, ap (λ d. count k (keys d)) e);
      }

  -- The tallies of a state whose coordinators are those of `s₀` with the one of `job` replaced.
  pub put_back :
      (job : ℕ) (s₀ : Waits S) (c₀ c : WaitCoordinator) (s : Waits S) (timer : ℕ)
      → WaitsOk s₀
      → lookup job s₀.coordinators ≡ some c₀
      → Detached s₀ c₀ c s
      → 0 < size c
      → WaitsOk
          (record s { coordinators = insert job (record c { timer = some timer }) s.coordinators })
  put_back job s₀ c₀ c s timer ok e h nonempty = record {
    counted =
        rw h.coordinators
          (omega (arith, ok.counted, h, sum_by-insert size job new c₀ s₀.coordinators e));
    capped = omega (arith, ok.capped, h);
    unique = rw h.coordinators (IsUnique-insert job new s₀.coordinators ok.unique);
    each = rw h.coordinators (
        AllValues-insert CoordinatorOk job new s₀.coordinators ok.each (record {
          some_waiter = nonempty;
          limited =
              omega (
                arith,
                h,
                (AllValues-lookup CoordinatorOk job c₀ s₀.coordinators ok.each e).limited,
              );
          armed = refl;
          keyed = h.keyed;
        }));
    once = λ k.
        rw h.coordinators (
          omega (arith, ok.once k, h.kept k, sum_by-insert (holds k) job new c₀ s₀.coordinators e));
    fresh = λ k lt. rw h.coordinators (
        omega (
          arith,
          ok.fresh k (rw h.sequence at lt),
          h.kept k,
          sum_by-insert (holds k) job new c₀ s₀.coordinators e,
        ));
  }
    where
      new : WaitCoordinator
      new = record c { timer = some timer }

  pub take_out :
      (job : ℕ) (s₀ : Waits S) (c₀ c : WaitCoordinator) (s : Waits S)
      → WaitsOk s₀
      → lookup job s₀.coordinators ≡ some c₀
      → Detached s₀ c₀ c s
      → c.waiters ≡ []
      → WaitsOk (record s { coordinators = erase job s.coordinators })
  take_out job s₀ c₀ c s ok e h empty = record {
    counted =
        rw h.coordinators (
          omega
            (arith, ok.counted, h, ap length empty, sum_by-erase size job c₀ s₀.coordinators e));
    capped = omega (arith, ok.capped, h);
    unique = rw h.coordinators (IsUnique-erase job s₀.coordinators ok.unique);
    each = rw h.coordinators (AllValues-erase CoordinatorOk job s₀.coordinators ok.each);
    once = λ k.
        rw h.coordinators
          (omega (arith, ok.once k, h.kept k, sum_by-erase (holds k) job c₀ s₀.coordinators e));
    fresh = λ k lt. rw h.coordinators (
        omega (
          arith,
          ok.fresh k (rw h.sequence at lt),
          h.kept k,
          ap (λ d. count k (keys d)) empty,
          sum_by-erase (holds k) job c₀ s₀.coordinators e,
        ));
  }

  arm_timer-WaitsOk :
      (job now : ℕ) (s₀ : Waits S) (c₀ c : WaitCoordinator) (s : Waits S)
      → WaitsOk s₀
      → lookup job s₀.coordinators ≡ some c₀
      → Detached s₀ c₀ c s
      → (d : Dict Waiter) → c.waiters ≡ d
      → WaitsOk (arm_timer job now c (values d) s)
  unfolding arm_timer
  arm_timer-WaitsOk job now s₀ c₀ c s ok e h [] q = take_out job s₀ c₀ c s ok e h q
  arm_timer-WaitsOk job now s₀ c₀ c s ok e h ((j, w) ∷ d) q =
      put_back job s₀ c₀ c s _ ok e h (omega (arith, ap length q))

  pub arm_wait_timer-WaitsOk :
      (job now : ℕ) (s₀ : Waits S) (c₀ c : WaitCoordinator) (s : Waits S)
      → WaitsOk s₀
      → lookup job s₀.coordinators ≡ some c₀
      → Detached s₀ c₀ c s
      → WaitsOk (arm_wait_timer job now c s)
  unfolding arm_wait_timer
  arm_wait_timer-WaitsOk job now s₀ c₀ c s ok e h =
      arm_timer-WaitsOk job now s₀ c₀ c s ok e h c.waiters refl

  arm_timer-some :
      (job now : ℕ) (c : WaitCoordinator) (d : Dict Waiter) (s : Waits S)
      → 0 < length d
      → (due : ℕ) × (arm_timer job now c (values d) s
          ≡ record s { coordinators = insert job (record c { timer = some due }) s.coordinators })
  unfolding arm_timer
  arm_timer-some job now c [] s h = absurd (omega arith)
  arm_timer-some job now c ((j, w) ∷ d) s h = (_, refl)

  register_lem :
      (job now timeout tail : ℕ) (c₀ : WaitCoordinator) (s : Waits S)
      → WaitsOk s
      → ((f : WaitCoordinator → ℕ)
          → f no_coordinator ≡ 0
          → (c : WaitCoordinator)
          → (f c₀ ≤ sum_by f s.coordinators)
            × (sum_by f (insert job c s.coordinators) + f c₀ ≡ sum_by f s.coordinators + f c))
      → IsKeyed c₀.waiters
      → size c₀ < max_waiters_per_job
      → s.total_waiters < max_waiters_global
      → WaitsOk (register job now timeout tail c₀ s).1
  unfolding register arm_wait_timer
  register_lem job now timeout tail c₀ s ok put keyed room space =
      let id = suc s.waiter_sequence in
      let absent =
        lookup_of_count id c₀.waiters
          (omega (arith, (put (holds id) refl c₀).0, ok.fresh id (omega arith))) in
      let (due, e) =
        arm_timer-some job now (record c₀ { waiters = insert id w c₀.waiters })
          (insert id w c₀.waiters)
          (record s { waiter_sequence = id; total_waiters = s.total_waiters + 1 })
          (omega (arith, length-insert_new id w c₀.waiters absent)) in
      rw e (record {
        counted = omega (
          arith,
          ok.counted,
          (put size refl (new due)).1,
          length-insert_new id w c₀.waiters absent,
        );
        capped = omega arith;
        unique = IsUnique-insert job (new due) s.coordinators ok.unique;
        each = AllValues-insert CoordinatorOk job (new due) s.coordinators ok.each (record {
          some_waiter = omega (arith, length-insert_new id w c₀.waiters absent);
          limited = omega (arith, length-insert_new id w c₀.waiters absent);
          armed = refl;
          keyed = IsKeyed-insert w c₀.waiters keyed;
        });
        once = λ k. ground (
          arith,
          ok.once k,
          ok.fresh k,
          (put (holds k) refl (new due)).1,
          count-insert_new id k w c₀.waiters absent,
        );
        fresh = λ k lt. ground (
          arith,
          ok.fresh k (omega arith),
          (put (holds k) refl (new due)).1,
          count-insert_new id k w c₀.waiters absent,
        );
      })
    where
      w : Waiter
      w = record {
        id = suc s.waiter_sequence;
        tail_lines = tail;
        expires_at = now + max 1 (min timeout max_wait_ms);
      }

      new : ℕ → WaitCoordinator
      new due = record c₀ {
        waiters = insert (suc s.waiter_sequence) w c₀.waiters;
        timer = some due;
      }

  pub register-WaitsOk :
      (job now timeout tail : ℕ) (s : Waits S)
      → WaitsOk s
      → let c = get_or (lookup job s.coordinators) no_coordinator in
        size c < max_waiters_per_job
        → s.total_waiters < max_waiters_global
        → WaitsOk (register job now timeout tail c s).1
  register-WaitsOk job now timeout tail s ok room space =
      elim (Option-cases (lookup job s.coordinators)) [
        | inl e ↦ rw e (
            register_lem job now timeout tail no_coordinator s ok
              (λ f z c.
                (omega (arith, z), omega (arith, z, sum_by-insert_new f job c s.coordinators e)))
              tt (omega arith) space)
        | inr (c₀, e) ↦ rw e (
            register_lem job now timeout tail c₀ s ok
              (λ f z c.
                (le-sum_by f job c₀ s.coordinators e, sum_by-insert f job c c₀ s.coordinators e))
              (AllValues-lookup CoordinatorOk job c₀ s.coordinators ok.each e).keyed (rw e at room)
              space)
      ]
