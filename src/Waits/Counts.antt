-- ===== src/Waits/Counts.antt =====
-- The accounting of waiters: how many are registered, and how often an id is pending or settled.
use run_beacon.Base.{
  ℕ, ◌+◌, ◌-◌, ◌≤◌, ◌≡◌, refl, [], ◌∷◌, Bool, Option, some, arith, length, Option-cases, inl, inr,
}
use run_beacon.Base.Dict.{
  Dict, lookup, insert, erase, keys, sum_by, count, count-erase, length-erase,
}
use run_beacon.Waits.{Waits, Waiter, WaitCoordinator, Settlement, settle, resolve_waiter}

abbrev pub size : WaitCoordinator → ℕ
size c = length c.waiters

-- How often a waiter id is registered with a coordinator.
abbrev pub holds : ℕ → WaitCoordinator → ℕ
holds k c = count k (keys c.waiters)

-- Each waiter stands under its own id.
abbrev pub IsKeyed : Dict Waiter → Type 0
IsKeyed [] = Unit
IsKeyed ((j, w) ∷ d) = (j ≡ w.id) × IsKeyed d

pub IsKeyed-erase : (k : ℕ) (d : Dict Waiter) → IsKeyed d → IsKeyed (erase k d)
unfolding erase
IsKeyed-erase k [] h = tt
IsKeyed-erase k ((i, w) ∷ d) h = ground (arith, IsKeyed-erase k d h.1)

pub IsKeyed-insert : (w : Waiter) (d : Dict Waiter) → IsKeyed d → IsKeyed (insert w.id w d)
unfolding insert
IsKeyed-insert w [] h = (refl, tt)
IsKeyed-insert w ((i, v) ∷ d) h = ground (arith, IsKeyed-insert w d h.1)

module _ {S : Type 0} where
  -- How often an id is pending, and how often it is settled.
  abbrev pub pending : ℕ → Waits S → ℕ
  pending k s = sum_by (holds k) s.coordinators

  abbrev pub settlements : ℕ → Waits S → ℕ
  settlements k s = count k (keys s.settled)

  -- A coordinator `c` taken out of the state `s₀`, where it was `c₀`, and the state `s` reached
  -- since: waiters only move from `c` to the log.
  pub record Detached (s₀ : Waits S) (c₀ c : WaitCoordinator) (s : Waits S) : Type 0 where
    pub coordinators : s.coordinators ≡ s₀.coordinators
    pub sequence : s.waiter_sequence ≡ s₀.waiter_sequence
    pub totals : s.total_waiters + size c₀ ≡ s₀.total_waiters + size c
    pub smaller : size c ≤ size c₀
    pub enough : size c₀ ≤ s₀.total_waiters
    pub keyed : IsKeyed c.waiters
    pub kept : (k : ℕ) → holds k c + settlements k s ≡ holds k c₀ + settlements k s₀

  pub Detached-remove :
      (s₀ : Waits S) (c₀ c : WaitCoordinator) (s : Waits S) (w v : Waiter) (o : Settlement S)
      → Detached s₀ c₀ c s
      → lookup w.id c.waiters ≡ some v
      → Detached s₀ c₀
          (record c { waiters = erase w.id c.waiters })
          (settle w.id o (record s { total_waiters = s.total_waiters - 1 }))
  unfolding settle
  Detached-remove s₀ c₀ c s w v o h e = record {
    coordinators = h.coordinators;
    sequence = h.sequence;
    totals = omega (arith, length-erase w.id v c.waiters e, h);
    smaller = omega (arith, length-erase w.id v c.waiters e, h);
    enough = h.enough;
    keyed = IsKeyed-erase w.id c.waiters h.keyed;
    kept = λ k. omega (arith, h.kept k, count-erase w.id k v c.waiters e);
  }

  pub resolve_waiter-Detached :
      (view : ℕ → Option S) (t : Bool) (s₀ : Waits S) (c₀ c : WaitCoordinator) (s : Waits S)
      (w : Waiter)
      → Detached s₀ c₀ c s
      → let (c', s') = resolve_waiter view t w (c, s) in Detached s₀ c₀ c' s'
  unfolding resolve_waiter
  resolve_waiter-Detached view t s₀ c₀ c s w h = elim (Option-cases (lookup w.id c.waiters)) [
    | inl e ↦ rw (e, resolve_waiter) h
    | inr (v, e) ↦ rw (e, resolve_waiter) (Detached-remove s₀ c₀ c s w v _ h e)
  ]
