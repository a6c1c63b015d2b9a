-- ===== src/Waits/Expiry.antt =====
-- Registering a waiter, the timer of a coordinator, and what happens when it fires.
use run_beacon.Base.{
  ℕ, ◌+◌, ◌-◌, ◌≤◌, ◌<◌, ◌≡◌, refl, sym, ap, ◌∙◌, List, [], ◌∷◌, ◌++◌, Bool, true, false, not,
  Option, none, some, arith, Bool-cases, inl, inr, ◌≢◌, leb, filter, get_or, leb→lt, max, min, All,
  All-imp, length, suc, Option-cases,
}
use mathlib.Core.List.{append_assoc}
use run_beacon.Base.Dict.{
  Dict, lookup, erase, values, keys, count, lookup-erase_self, lookup-insert, lookup-insert_self,
  insert, le-sum_by,
}
use run_beacon.Waits.{
  Waits, Waiter, WaitCoordinator, WaitStart, finished, pending, refused, aborted, unknown_job,
  job_limit, global_limit, manager_disposed, max_wait_ms, arm_timer, next_expiry, arm_wait_timer,
  expire_each, expire_waiters, no_coordinator, wait_for_terminal, register, max_waiters_per_job,
  max_waiters_global,
}
use run_beacon.Waits.Counts.{size, holds, IsKeyed, Detached, resolve_waiter-Detached}
use run_beacon.Waits.Invariant.{WaitsOk, detach_as, arm_wait_timer-WaitsOk, register-WaitsOk}
use run_beacon.Waits.Settle.{deliver, by_view, resolve_waiter_hit}

abbrev pub is_expired : ℕ → Waiter → Bool
is_expired now w = leb w.expires_at now

abbrev pub unexpired : ℕ → Dict Waiter → Dict Waiter
unexpired now = filter λ e. not (is_expired now e.1)

at_most : (m n : ℕ) → leb m n ≡ true → m ≤ n
at_most m n e = ground (arith, e)

-- The waiter that a call adds.
abbrev pub new_waiter : ℕ → ℕ → ℕ → ℕ → Waiter
new_waiter id now timeout tail = record {
  id = id;
  tail_lines = tail;
  expires_at = now + max 1 (min timeout max_wait_ms);
}

lookup_middle :
    (w : Waiter) (j : ℕ) (pre d : Dict Waiter)
    → j ≡ w.id
    → count w.id (keys pre) ≡ 0
    → (lookup w.id (pre ++ (j, w) ∷ d) ≡ some w) × (erase w.id (pre ++ (j, w) ∷ d) ≡ pre ++ d)
unfolding lookup erase
lookup_middle w j [] d e h = ground arith
lookup_middle w j ((i, v) ∷ pre) d e h = ground (arith, lookup_middle w j pre d e)

count-keys_append :
    (k : ℕ) (xs ys : Dict Waiter)
    → count k (keys (xs ++ ys)) ≡ count k (keys xs) + count k (keys ys)
count-keys_append k [] ys = omega arith
count-keys_append k ((i, v) ∷ xs) ys = omega (arith, count-keys_append k xs ys)

next_expiry-le :
    (e : ℕ) (ws : List Waiter)
    → (next_expiry e ws ≤ e) × All (λ w. next_expiry e ws ≤ w.expires_at) ws
unfolding next_expiry
next_expiry-le e [] = (omega arith, tt)
next_expiry-le e (w ∷ ws) =
    let (low, rest) = next_expiry-le (min e w.expires_at) ws in (omega arith, (omega arith, rest))

module _ {S : Type 0} where
  expire_each_lem :
      (view : ℕ → Option S) (now : ℕ) (s₀ : Waits S) (c₀ : WaitCoordinator) (pre d : Dict Waiter)
      (c : WaitCoordinator) (s : Waits S)
      → c.waiters ≡ pre ++ d
      → IsKeyed d
      → ((k : ℕ) → count k (keys (pre ++ d)) ≤ 1)
      → Detached s₀ c₀ c s
      → let (c', s') = expire_each view now (values d) (c, s) in
        (c'.waiters ≡ pre ++ unexpired now d)
        × Detached s₀ c₀ c' s'
        × (s'.settled ≡ deliver (by_view view true) (filter (is_expired now) (values d)) s.settled)
  unfolding expire_each
  expire_each_lem view now s₀ c₀ pre [] c s e k u h = (e, h, refl)
  expire_each_lem view now s₀ c₀ pre ((j, w) ∷ d) c s e k u h =
      let absent : count w.id (keys pre) ≡ 0 =
        ground (arith, u w.id, count-keys_append w.id pre ((j, w) ∷ d), k.0) in
      let (found, cut) = lookup_middle w j pre d k.0 absent in
      elim (Bool-cases (is_expired now w)) [
        | inl t ↦
            let hit = resolve_waiter_hit view true w w c s (ap (lookup w.id) e ∙ found) in
            let one = resolve_waiter-Detached view true s₀ c₀ c s w h in
            rw (t, hit, expire_each)
              (expire_each_lem view now s₀ c₀ pre d _ _ (ap (erase w.id) e ∙ cut) k.1
                (λ i.
                  omega
                    (arith, u i, count-keys_append i pre d, count-keys_append i pre ((j, w) ∷ d)))
                (rw hit at one))
        | inr f ↦
            let next =
              expire_each_lem view now s₀ c₀ (pre ++ (j, w) ∷ []) d c s
                (e ∙ sym (append_assoc pre ((j, w) ∷ []) d)) k.1
                (rw (append_assoc pre ((j, w) ∷ []) d) u) h in
            rw (f, expire_each) (rw (append_assoc pre ((j, w) ∷ []) (unexpired now d)) at next)
      ]

  -- The waiters that are registered for a job.
  abbrev pub waiters_of : ℕ → Waits S → Dict Waiter
  waiters_of job s = elim (lookup job s.coordinators) [ none ↦ [] | some c ↦ c.waiters ]

  waiters_of-arm :
      (job now : ℕ) (c : WaitCoordinator) (d : Dict Waiter) (s : Waits S)
      → c.waiters ≡ d
      → lookup job (erase job s.coordinators) ≡ none
      → (waiters_of job (arm_timer job now c (values d) s) ≡ d)
        × ((arm_timer job now c (values d) s).settled ≡ s.settled)
  unfolding arm_timer
  waiters_of-arm job now c [] s e n = (rw (n, waiters_of), refl)
  waiters_of-arm job now c ((j, w) ∷ d) s e n =
      (rw (lookup-insert_self {V = WaitCoordinator} job, waiters_of) e, refl)

  -- When the timer of a job's coordinator fires, exactly its waiters whose deadline has passed are
  -- settled, in order and with `timedOut: true`; the others stay registered, and the invariant is
  -- kept.
  pub expire_waiters_lem :
      (job : ℕ) (view : ℕ → Option S) (now : ℕ) (c : WaitCoordinator) (s : Waits S)
      → WaitsOk s
      → lookup job s.coordinators ≡ some c
      → let s' = expire_waiters job view now c s in
        WaitsOk s'
        × (waiters_of job s' ≡ unexpired now c.waiters)
        × (s'.settled
            ≡ deliver (by_view view true) (filter (is_expired now) (values c.waiters)) s.settled)
  unfolding expire_waiters
  expire_waiters_lem job view now c s ok e =
      let c₁ : WaitCoordinator = record c { timer = none } in
      let start = detach_as job c c₁ s ok e refl in
      let (left, h, log) =
        expire_each_lem view now s c [] c.waiters c₁ s refl start.keyed
          (λ k. omega (arith, ok.once k, le-sum_by (holds k) job c s.coordinators e)) start in
      let (c', s') = expire_each view now (values c.waiters) (c₁, s) in
      let (kept, log') =
        waiters_of-arm job now c' c'.waiters s' refl
          (rw h.coordinators (lookup-erase_self job s.coordinators ok.unique)) in
      (
        arm_wait_timer-WaitsOk job now s c c' s' ok e h,
        unfold arm_wait_timer in kept ∙ left,
        unfold arm_wait_timer in log' ∙ log,
      )

  arm_timer_due :
      (job now : ℕ) (c : WaitCoordinator) (ws : List Waiter) (s : Waits S)
      → ws ≢ []
      → (due : ℕ) × (lookup job (arm_timer job now c ws s).coordinators
          ≡ some (record c { timer = some due }))
        × (now < due)
        × All (λ w. due ≤ max (now + 1) w.expires_at) ws
  unfolding arm_timer
  arm_timer_due job now c [] s h = absurd (h refl)
  arm_timer_due job now c (w ∷ ws) s h =
      let (low, rest) = next_expiry-le w.expires_at ws in
      (
        now + max 1 (next_expiry w.expires_at ws - now),
        lookup-insert job job _ s.coordinators ∙ ground arith,
        omega arith,
        (omega arith, All-imp _ _ (λ v l. omega arith) ws rest),
      )

  -- Arming the timer of a coordinator that has waiters makes it fire later than now, and no later
  -- than the deadline of each waiter, or one millisecond from now where the deadline has passed.
  pub arm_wait_timer_due :
      (job now : ℕ) (c : WaitCoordinator) (s : Waits S)
      → values c.waiters ≢ []
      → (due : ℕ) × (lookup job (arm_wait_timer job now c s).coordinators
          ≡ some (record c { timer = some due }))
        × (now < due)
        × All (λ w. due ≤ max (now + 1) w.expires_at) (values c.waiters)
  unfolding arm_wait_timer
  arm_wait_timer_due job now c s h = arm_timer_due job now c (values c.waiters) s h

  waiters_of-get_or :
      (job : ℕ) (s : Waits S)
      → (get_or (lookup job s.coordinators) no_coordinator).waiters ≡ waiters_of job s
  waiters_of-get_or job s = elim (Option-cases (lookup job s.coordinators)) [
    | inl n ↦ rw (n, waiters_of) refl
    | inr (c, e) ↦ rw (e, waiters_of) refl
  ]

  module _ (job now timeout tail : ℕ) (disposed is_aborted terminal : Bool) (view : Option S)
      (s : Waits S) where
    -- The call comes to the job.
    abbrev Open : Type 0
    Open = (disposed ≡ false) × (is_aborted ≡ false)

    -- When a call has which result, and what it does to the state then.
    abbrev pub WaitStarted : WaitStart S → Waits S → Type 0
    WaitStarted (refused manager_disposed) s' = (disposed ≡ true) × (s' ≡ s)
    WaitStarted (refused aborted) s' = ((disposed ≡ false) × (is_aborted ≡ true)) × (s' ≡ s)
    WaitStarted (refused unknown_job) s' = (Open × (view ≡ none)) × (s' ≡ s)
    WaitStarted (finished v) s' = ((Open × (view ≡ some v)) × (terminal ≡ true)) × (s' ≡ s)
    WaitStarted (refused job_limit) s' =
        ((Open × (view ≢ none)) × (terminal ≡ false))
        × ((max_waiters_per_job ≤ length (waiters_of job s)) × (s' ≡ s))
    WaitStarted (refused global_limit) s' =
        ((Open × (view ≢ none)) × (terminal ≡ false))
        × ((length (waiters_of job s) < max_waiters_per_job)
            × ((max_waiters_global ≤ s.total_waiters) × (s' ≡ s)))
    WaitStarted (pending id) s' =
        ((Open × (view ≢ none)) × (terminal ≡ false))
        × ((length (waiters_of job s) < max_waiters_per_job)
            × ((s.total_waiters < max_waiters_global)
                × ((id ≡ suc s.waiter_sequence)
                    × ((waiters_of job s'
                          ≡ insert id (new_waiter id now timeout tail) (waiters_of job s))
                        × (s'.total_waiters ≡ s.total_waiters + 1)))))

  arm_timer-total :
      (job now : ℕ) (c : WaitCoordinator) (ws : List Waiter) (s : Waits S)
      → (arm_timer job now c ws s).total_waiters ≡ s.total_waiters
  unfolding arm_timer
  arm_timer-total job now c [] s = refl
  arm_timer-total job now c (w ∷ ws) s = refl

  register-waiters_of :
      (job now timeout tail : ℕ) (s : Waits S)
      → WaitsOk s
      → let c = get_or (lookup job s.coordinators) no_coordinator in
        let (id, s') = register job now timeout tail c s in
        (waiters_of job s' ≡ insert id (new_waiter id now timeout tail) (waiters_of job s))
        × (s'.total_waiters ≡ s.total_waiters + 1)
  unfolding register arm_wait_timer
  register-waiters_of job now timeout tail s ok =
      let id : ℕ = suc s.waiter_sequence in
      let w : Waiter = new_waiter id now timeout tail in
      let c : WaitCoordinator = get_or (lookup job s.coordinators) no_coordinator in
      let c' : WaitCoordinator = record c { waiters = insert id w c.waiters } in
      let s₁ : Waits S = record s { waiter_sequence = id; total_waiters = s.total_waiters + 1 } in
      let kept =
        (waiters_of-arm job now c' c'.waiters s₁ refl
          (lookup-erase_self job s.coordinators ok.unique)).0 in
      (
        kept ∙ ap (insert id w) (waiters_of-get_or job s),
        arm_timer-total job now c' (values c'.waiters) s₁,
      )

  -- `waitForTerminal` keeps the invariant, the limits of waiters per job and in all included. It is
  -- refused if the manager was disposed; else if the signal is aborted; else if the job is unknown.
  -- A terminal job is answered at once. For any other job it is refused if 8 waiters wait for the job,
  -- else if 128 wait in all; else the wait is pending under the next id, and one waiter with this id,
  -- whose time is at least one millisecond and at most a day, is added. Only then the state changes.
  pub wait_for_terminal_lem :
      (job now timeout tail : ℕ) (disposed is_aborted terminal : Bool) (view : Option S)
      (s : Waits S)
      → WaitsOk s
      → let (r, s') = wait_for_terminal job now timeout tail disposed is_aborted terminal view s in
        WaitsOk s' × WaitStarted job now timeout tail disposed is_aborted terminal view s r s'
  unfolding wait_for_terminal
  wait_for_terminal_lem job now timeout tail true is_aborted terminal none s ok = (ok, (refl, refl))
  wait_for_terminal_lem job now timeout tail true is_aborted terminal (some v) s ok =
      (ok, (refl, refl))
  wait_for_terminal_lem job now timeout tail false true terminal none s ok =
      (ok, ((refl, refl), refl))
  wait_for_terminal_lem job now timeout tail false true terminal (some v) s ok =
      (ok, ((refl, refl), refl))
  wait_for_terminal_lem job now timeout tail false false terminal none s ok =
      (ok, (((refl, refl), refl), refl))
  wait_for_terminal_lem job now timeout tail false false true (some v) s ok =
      (ok, ((((refl, refl), refl), refl), refl))
  wait_for_terminal_lem job now timeout tail false false false (some v) s ok =
      let c = get_or (lookup job s.coordinators) no_coordinator in
      let same : c.waiters ≡ waiters_of job s = waiters_of-get_or job s in
      let first : (((false ≡ false) × (false ≡ false)) × (some v ≢ none)) × (false ≡ false) =
        (((refl, refl), λ e. cc), refl) in
      elim (Bool-cases (leb max_waiters_per_job (size c))) [
        | inl full ↦ rw full (ok, (first, (rw same at (at_most _ _ full), refl)))
        | inr room ↦ elim (Bool-cases (leb max_waiters_global s.total_waiters)) [
          | inl full ↦
              rw (room, full)
                (ok, (first, (rw same at (leb→lt _ _ room), (ground (arith, full), refl))))
          | inr space ↦
              rw (room, space)
                (
                  register-WaitsOk job now timeout tail s ok (leb→lt _ _ room) (leb→lt _ _ space),
                  (
                    first,
                    (
                      rw same at (leb→lt _ _ room),
                      (
                        leb→lt _ _ space,
                        (unfold register in refl, register-waiters_of job now timeout tail s ok),
                      ),
                    ),
                  ),
                )
        ]
      ]
