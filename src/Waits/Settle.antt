-- ===== src/Waits/Settle.antt =====
-- What the functions that settle waiters do, and that they keep the invariant.
use run_beacon.Base.{
  ℕ, suc, ◌+◌, ◌-◌, ◌≡◌, refl, ap, ◌∙◌, List, [], ◌∷◌, Bool, Option, none, some, arith, length,
}
use run_beacon.Base.Dict.{Dict, lookup, erase, values, lookup-erase_self}
use run_beacon.Waits.{
  Waits, Waiter, WaitCoordinator, Settlement, settle, outcome, remove_waiter, resolve_waiter,
  resolve_each, resolve_coordinator,
}
use run_beacon.Waits.Counts.{IsKeyed, Detached, resolve_waiter-Detached}
use run_beacon.Waits.Invariant.{WaitsOk, detach, take_out}

pub lookup_head :
    (w : Waiter) (j : ℕ) (d : Dict Waiter) → j ≡ w.id → lookup w.id ((j, w) ∷ d) ≡ some w
unfolding lookup
lookup_head w j d e = ground arith

pub erase_head : (w : Waiter) (j : ℕ) (d : Dict Waiter) → j ≡ w.id → erase w.id ((j, w) ∷ d) ≡ d
unfolding erase
erase_head w j d e = ground arith

pub size_values : (d : Dict Waiter) → length (values d) ≡ length d
size_values [] = refl
size_values ((j, w) ∷ d) = ap suc (size_values d)

module _ {S : Type 0} where
  -- The log after every waiter of a list got its outcome.
  abbrev pub deliver :
      (Waiter → Settlement S) → List Waiter → List (ℕ × Settlement S) → List (ℕ × Settlement S)
  deliver o [] log = log
  deliver o (w ∷ ws) log = deliver o ws ((w.id, o w) ∷ log)

  -- The outcome of a waiter that gets a snapshot.
  abbrev pub by_view : (ℕ → Option S) → Bool → Waiter → Settlement S
  by_view view t w = outcome t (view w.tail_lines)

  -- One waiter that is registered is removed, counted down and settled.
  pub resolve_waiter_hit :
      (view : ℕ → Option S) (t : Bool) (w v : Waiter) (c : WaitCoordinator) (s : Waits S)
      → lookup w.id c.waiters ≡ some v
      → resolve_waiter view t w (c, s) ≡ (
        record c { waiters = erase w.id c.waiters },
        record s {
          total_waiters = s.total_waiters - 1;
          settled = (w.id, by_view view t w) ∷ s.settled;
        },
      )
  unfolding resolve_waiter remove_waiter settle
  resolve_waiter_hit view t w v c s e = rw (e, resolve_waiter)

  -- The loop of `resolveCoordinator` empties the coordinator.
  resolve_each_lem :
      (view : ℕ → Option S) (t : Bool) (s₀ : Waits S) (c₀ : WaitCoordinator) (d : Dict Waiter)
      (c : WaitCoordinator) (s : Waits S)
      → c.waiters ≡ d
      → IsKeyed d
      → Detached s₀ c₀ c s
      → let (c', s') = resolve_each view t (values d) (c, s) in
        (c'.waiters ≡ [])
        × Detached s₀ c₀ c' s'
        × (s'.settled ≡ deliver (by_view view t) (values d) s.settled)
  unfolding resolve_each
  resolve_each_lem view t s₀ c₀ [] c s e k h = (e, h, refl)
  resolve_each_lem view t s₀ c₀ ((j, w) ∷ d) c s e k h =
      let hit = resolve_waiter_hit view t w w c s (rw e (lookup_head w j d k.0)) in
      let one = resolve_waiter-Detached view t s₀ c₀ c s w h in
      rw (hit, resolve_each)
        (resolve_each_lem view t s₀ c₀ d _ _ (ap (erase w.id) e ∙ erase_head w j d k.0) k.1
          (rw hit at one))

  -- `resolveCoordinator` settles every waiter of the job with its snapshot, in order, counts them
  -- down, forgets the coordinator, and keeps the invariant.
  pub resolve_coordinator_lem :
      (job : ℕ) (view : ℕ → Option S) (t : Bool) (c : WaitCoordinator) (s : Waits S)
      → WaitsOk s
      → lookup job s.coordinators ≡ some c
      → let s' = resolve_coordinator job view t c s in
        WaitsOk s'
        × (lookup job s'.coordinators ≡ none)
        × (s'.total_waiters + length (values c.waiters) ≡ s.total_waiters)
        × (s'.settled ≡ deliver (by_view view t) (values c.waiters) s.settled)
  unfolding resolve_coordinator
  resolve_coordinator_lem job view t c s ok e =
      let start = detach job c s ok e in
      let (empty, h, log) = resolve_each_lem view t s c c.waiters c s refl start.keyed start in
      (
        take_out job s c _ _ ok e h empty,
        rw h.coordinators (lookup-erase_self job s.coordinators ok.unique),
        omega (arith, h.totals, ap length empty, size_values c.waiters),
        log,
      )
