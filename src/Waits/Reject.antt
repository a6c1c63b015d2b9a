-- ===== src/Waits/Reject.antt =====
-- Rejecting waiters: an abort of one, and `rejectCoordinator`.
use run_beacon.Base.{
  ℕ, ◌+◌, ◌-◌, ◌≡◌, refl, sym, ap, ◌∙◌, List, [], ◌∷◌, none, some, arith, length, max, subst,
}
use run_beacon.Base.Dict.{
  IsUnique, Dict, lookup, erase, values, lookup-erase_self, lookup-insert, erase_absent,
  AllValues-lookup,
}
use run_beacon.Waits.{
  Waits, Waiter, WaitCoordinator, rejected, WaitError, settle, remove_waiter, clear_coordinator,
  reject_waiter, reject_each, reject_coordinator, arm_timer, next_expiry, arm_wait_timer,
}
use run_beacon.Waits.Counts.{IsKeyed, Detached-remove}
use run_beacon.Waits.Invariant.{CoordinatorOk, WaitsOk, detach_as, arm_wait_timer-WaitsOk}
use run_beacon.Waits.Settle.{lookup_head, erase_head, deliver}

module _ {S : Type 0} where
  -- How the loop of `rejectCoordinator` finds the state: the waiters left are those of the map.
  data Registered (job : ℕ) (d : Dict Waiter) (s : Waits S) : Type 0 where
    gone : d ≡ [] → lookup job s.coordinators ≡ none → Registered job d s
    present :
        (c : WaitCoordinator)
        → lookup job s.coordinators ≡ some c
        → c.waiters ≡ d
        → Registered job d s

  arm_timer-Registered :
      (job now : ℕ) (c : WaitCoordinator) (d : Dict Waiter) (s : Waits S)
      → c.waiters ≡ d
      → lookup job (erase job s.coordinators) ≡ none
      → Registered job d (arm_timer job now c (values d) s)
  unfolding arm_timer
  arm_timer-Registered job now c [] s e n = gone refl n
  arm_timer-Registered job now c ((j, w) ∷ d) s e n =
      present (new due) (lookup-insert job job (new due) s.coordinators ∙ ground arith) e
    where
      due : ℕ
      due = now + max 1 (next_expiry w.expires_at (values d) - now)

      new : ℕ → WaitCoordinator
      new t = record c { timer = some t }

  arm_timer_keeps :
      (job now : ℕ) (c : WaitCoordinator) (ws : List Waiter) (s : Waits S)
      → ((arm_timer job now c ws s).settled ≡ s.settled)
        × ((arm_timer job now c ws s).total_waiters ≡ s.total_waiters)
  unfolding arm_timer
  arm_timer_keeps job now c [] s = (refl, refl)
  arm_timer_keeps job now c (w ∷ ws) s = (refl, refl)

  -- One waiter that is registered is removed, counted down and rejected, and the timer is armed.
  reject_waiter_hit :
      (job now : ℕ) (error : WaitError) (w v : Waiter) (c : WaitCoordinator) (s : Waits S)
      → lookup w.id c.waiters ≡ some v
      → let c' = record c { waiters = erase w.id c.waiters } in
        reject_waiter job now error w (c, s) ≡ (
          c',
          arm_wait_timer job now c'
              (settle w.id (rejected error) (record s { total_waiters = s.total_waiters - 1 })),
        )
  unfolding reject_waiter remove_waiter
  reject_waiter_hit job now error w v c s e = rw (e, reject_waiter)

  arm_wait_timer_keeps :
      (job now : ℕ) (c : WaitCoordinator) (s : Waits S)
      → IsUnique s.coordinators
      → let s' = arm_wait_timer job now c s in
        Registered job c.waiters s'
        × (s'.settled ≡ s.settled)
        × (s'.total_waiters ≡ s.total_waiters)
  unfolding arm_wait_timer
  arm_wait_timer_keeps job now c s u =
      let (log, total) = arm_timer_keeps job now c (values c.waiters) s in
      (
        arm_timer-Registered job now c c.waiters s refl (lookup-erase_self job s.coordinators u),
        log,
        total,
      )

  -- The invariant, the waiters left, the count and the log, after the first waiter was rejected.
  reject_first :
      (job now : ℕ) (error : WaitError) (w : Waiter) (j : ℕ) (d : Dict Waiter) (c : WaitCoordinator)
      (s : Waits S)
      → WaitsOk s
      → c.waiters ≡ (j, w) ∷ d
      → Registered job ((j, w) ∷ d) s
      → let (c', s') = reject_waiter job now error w (c, s) in
        WaitsOk s'
        × (c'.waiters ≡ d)
        × Registered job d s'
        × (s'.settled ≡ (w.id, rejected error) ∷ s.settled)
        × (s'.total_waiters + 1 ≡ s.total_waiters)
  unfolding settle
  reject_first job now error w j d c s ok e (gone q n) = cc
  reject_first job now error w j d c s ok e (present c₀ l q) =
      let start = detach_as job c₀ c s ok l (e ∙ sym q) in
      let keyed = subst IsKeyed e start.keyed in
      let found = ap (lookup w.id) e ∙ lookup_head w j d keyed.0 in
      let c' : WaitCoordinator = record c { waiters = erase w.id c.waiters } in
      let s' : Waits S =
        settle w.id (rejected error) (record s { total_waiters = s.total_waiters - 1 }) in
      let left = ap (erase w.id) e ∙ erase_head w j d keyed.0 in
      let h = Detached-remove s c₀ c s w w (rejected error) start found in
      let (registered, log, total) = arm_wait_timer_keeps job now c' s' ok.unique in
      rw (reject_waiter_hit job now error w w c s found) (
        arm_wait_timer-WaitsOk job now s c₀ c' s' ok l h,
        left,
        subst (λ l. Registered job l (arm_wait_timer job now c' s')) left registered,
        log,
        omega (arith, total, start.enough, ap length q),
      )

  reject_each_lem :
      (job now : ℕ) (error : WaitError) (d : Dict Waiter) (c : WaitCoordinator) (s : Waits S)
      → WaitsOk s
      → c.waiters ≡ d
      → Registered job d s
      → let s' = (reject_each job now error (values d) (c, s)).1 in
        WaitsOk s'
        × Registered job [] s'
        × (s'.settled ≡ deliver (λ _. rejected error) (values d) s.settled)
        × (s'.total_waiters + length d ≡ s.total_waiters)
  unfolding reject_each
  reject_each_lem job now error [] c s ok e r = (ok, r, refl, omega arith)
  reject_each_lem job now error ((j, w) ∷ d) c s ok e r =
      let (ok', e', r', log', total') = reject_first job now error w j d c s ok e r in
      let (ok'', r'', log'', total'') =
        reject_each_lem job now error d (reject_waiter job now error w (c, s)).0
          (reject_waiter job now error w (c, s)).1 ok' e' r' in
      (ok'', r'', log'' ∙ ap (deliver (λ _. rejected error) (values d)) log', omega arith)

  empty_unregistered :
      (job : ℕ) (s : Waits S) → WaitsOk s → Registered job [] s → lookup job s.coordinators ≡ none
  empty_unregistered job s ok (gone q n) = n
  empty_unregistered job s ok (present c l q) = absurd (
      omega (
        arith,
        (AllValues-lookup CoordinatorOk job c s.coordinators ok.each l).some_waiter,
        ap length q,
      ))

  -- `rejectCoordinator` rejects every waiter of the job with the error, in order, counts them down,
  -- forgets the coordinator, and keeps the invariant.
  pub reject_coordinator_lem :
      (job now : ℕ) (error : WaitError) (c : WaitCoordinator) (s : Waits S)
      → WaitsOk s
      → lookup job s.coordinators ≡ some c
      → let s' = reject_coordinator job now error c s in
        WaitsOk s'
        × (lookup job s'.coordinators ≡ none)
        × (s'.total_waiters + length c.waiters ≡ s.total_waiters)
        × (s'.settled ≡ deliver (λ _. rejected error) (values c.waiters) s.settled)
  unfolding reject_coordinator clear_coordinator
  reject_coordinator_lem job now error c s ok e =
      let (ok', r, log, total) =
        reject_each_lem job now error c.waiters c s ok refl (present c e refl) in
      let none' = empty_unregistered job _ ok' r in
      rw (erase_absent job _ none') (ok', none', total, log)
