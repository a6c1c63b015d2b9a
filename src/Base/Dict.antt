-- ===== src/Base/Dict.antt =====
-- A JavaScript `Map` in insertion order. Its keys are only compared, so they are numbers.
use Prim.Native.Nat.{ℕ, ◌+◌, ◌≤◌}
use mathlib.Core.Path.{◌≡◌, refl, subst, ◌∙◌}
use mathlib.Core.Logic.{◌≢◌, inl, inr}
use mathlib.Core.List.{List, [], ◌∷◌}
use mathlib.Core.Option.{Option, none, some}
use native.Mathlib.Omega.{arith}
use run_beacon.Base.Tests.{if◌then◌else◌, ◌==◌, Bool-cases}
use run_beacon.Base.Lists.{length}

abbrev pub Dict {ℓ} : Type ℓ → Type ℓ
Dict V = List (ℕ × V)

module _ {ℓ} {V : Type ℓ} where
  unfoldable pub lookup : ℕ → Dict V → Option V
  lookup k [] = none
  lookup k ((j, v) ∷ d) = if k == j then some v else lookup k d

  -- `map.set(k, v)`: an old key keeps its place.
  unfoldable pub insert : ℕ → V → Dict V → Dict V
  insert k v [] = (k, v) ∷ []
  insert k v ((j, w) ∷ d) = if k == j then (k, v) ∷ d else (j, w) ∷ insert k v d

  -- `map.delete(k)`
  unfoldable pub erase : ℕ → Dict V → Dict V
  erase k [] = []
  erase k ((j, w) ∷ d) = if k == j then d else (j, w) ∷ erase k d

  abbrev pub values : Dict V → List V
  values [] = []
  values ((j, v) ∷ d) = v ∷ values d

  abbrev pub keys : Dict V → List ℕ
  keys [] = []
  keys ((j, v) ∷ d) = j ∷ keys d

  pub lookup-insert :
      (k j : ℕ) (v : V) (d : Dict V)
      → lookup j (insert k v d) ≡ (if k == j then some v else lookup j d)
  unfolding lookup insert
  lookup-insert k j v [] = ground arith
  lookup-insert k j v ((i, w) ∷ d) = ground (arith, lookup-insert k j v d)

  pub lookup-insert_self : (k : ℕ) (v : V) (d : Dict V) → lookup k (insert k v d) ≡ some v
  lookup-insert_self k v d = lookup-insert k k v d ∙ ground arith

  pub lookup-insert_ne :
      (k j : ℕ) (v : V) (d : Dict V) → k ≢ j → lookup j (insert k v d) ≡ lookup j d
  lookup-insert_ne k j v d h = lookup-insert k j v d ∙ ground arith

  pub lookup-erase_ne : (k j : ℕ) (d : Dict V) → k ≢ j → lookup j (erase k d) ≡ lookup j d
  unfolding lookup erase
  lookup-erase_ne k j [] h = refl
  lookup-erase_ne k j ((i, w) ∷ d) h = ground (arith, lookup-erase_ne k j d h)

  pub length-erase :
      (k : ℕ) (v : V) (d : Dict V) → lookup k d ≡ some v → length (erase k d) + 1 ≡ length d
  unfolding lookup erase
  length-erase k v [] h = ground arith
  length-erase k v ((i, w) ∷ d) h = ground (arith, length-erase k v d)

  pub length-insert_new :
      (k : ℕ) (v : V) (d : Dict V) → lookup k d ≡ none → length (insert k v d) ≡ length d + 1
  unfolding lookup insert
  length-insert_new k v [] h = ground arith
  length-insert_new k v ((i, w) ∷ d) h = ground (arith, length-insert_new k v d)

-- A number summed over the values.
abbrev pub sum_by {ℓ} : {V : Type ℓ} → (V → ℕ) → Dict V → ℕ
sum_by f [] = 0
sum_by f ((j, v) ∷ d) = f v + sum_by f d

module _ {ℓ} {V : Type ℓ} (f : V → ℕ) where
  pub sum_by-insert_new :
      (k : ℕ) (v : V) (d : Dict V) → lookup k d ≡ none → sum_by f (insert k v d) ≡ sum_by f d + f v
  unfolding lookup insert
  sum_by-insert_new k v [] h = omega arith
  sum_by-insert_new k v ((i, w) ∷ d) h = ground (arith, sum_by-insert_new k v d)

  pub sum_by-insert :
      (k : ℕ) (v old : V) (d : Dict V)
      → lookup k d ≡ some old
      → sum_by f (insert k v d) + f old ≡ sum_by f d + f v
  unfolding lookup insert
  sum_by-insert k v old [] h = ground arith
  sum_by-insert k v old ((i, w) ∷ d) h = ground (arith, sum_by-insert k v old d)

  pub sum_by-erase :
      (k : ℕ) (old : V) (d : Dict V)
      → lookup k d ≡ some old
      → sum_by f (erase k d) + f old ≡ sum_by f d
  unfolding lookup erase
  sum_by-erase k old [] h = ground arith
  sum_by-erase k old ((i, w) ∷ d) h = ground (arith, sum_by-erase k old d)

  pub le-sum_by : (k : ℕ) (v : V) (d : Dict V) → lookup k d ≡ some v → f v ≤ sum_by f d
  unfolding lookup
  le-sum_by k v [] h = ground arith
  le-sum_by k v ((i, w) ∷ d) h = ground (arith, le-sum_by k v d)

-- A property of every entry.
abbrev pub AllValues {ℓ κ} : {V : Type ℓ} → (V → Type κ) → Dict V → Type κ
AllValues P [] = Unit
AllValues P ((j, v) ∷ d) = P v × AllValues P d

module _ {ℓ κ} {V : Type ℓ} (P : V → Type κ) where
  pub AllValues-insert :
      (k : ℕ) (v : V) (d : Dict V) → AllValues P d → P v → AllValues P (insert k v d)
  unfolding insert
  AllValues-insert k v [] h p = (p, tt)
  AllValues-insert k v ((i, w) ∷ d) h p = ground (arith, AllValues-insert k v d h.1 p)

  pub AllValues-erase : (k : ℕ) (d : Dict V) → AllValues P d → AllValues P (erase k d)
  unfolding erase
  AllValues-erase k [] h = tt
  AllValues-erase k ((i, w) ∷ d) h = ground (arith, AllValues-erase k d h.1)

  pub AllValues-lookup : (k : ℕ) (v : V) (d : Dict V) → AllValues P d → lookup k d ≡ some v → P v
  unfolding lookup
  AllValues-lookup k v [] h e = ground arith
  AllValues-lookup k v ((i, w) ∷ d) h e = elim (Bool-cases (k == i)) [
    | inl t ↦ subst P (ground arith) h.0
    | inr t ↦ AllValues-lookup k v d h.1 (rw t at e)
  ]

-- How often a number stands in a list.
abbrev pub count : ℕ → List ℕ → ℕ
count k [] = 0
count k (x ∷ xs) = (if k == x then 1 else 0) + count k xs

-- No key twice.
abbrev pub IsUnique {ℓ} : {V : Type ℓ} → Dict V → Type ℓ
IsUnique [] = Unit
IsUnique ((j, v) ∷ d) = (lookup j d ≡ none) × IsUnique d

module _ {ℓ} {V : Type ℓ} where
  pub IsUnique-insert : (k : ℕ) (v : V) (d : Dict V) → IsUnique d → IsUnique (insert k v d)
  unfolding insert
  IsUnique-insert k v [] h = (unfold lookup in refl, tt)
  IsUnique-insert k v ((i, w) ∷ d) h =
      ground (arith, IsUnique-insert k v d h.1, lookup-insert k i v d)

  lookup-erase_none : (k j : ℕ) (d : Dict V) → lookup j d ≡ none → lookup j (erase k d) ≡ none
  unfolding lookup erase
  lookup-erase_none k j [] h = refl
  lookup-erase_none k j ((i, w) ∷ d) h = ground (arith, lookup-erase_none k j d)

  pub IsUnique-erase : (k : ℕ) (d : Dict V) → IsUnique d → IsUnique (erase k d)
  unfolding erase
  IsUnique-erase k [] h = tt
  IsUnique-erase k ((i, w) ∷ d) h =
      ground (arith, IsUnique-erase k d h.1, lookup-erase_none k i d h.0)

  pub lookup-erase_self : (k : ℕ) (d : Dict V) → IsUnique d → lookup k (erase k d) ≡ none
  unfolding lookup erase
  lookup-erase_self k [] h = refl
  lookup-erase_self k ((i, w) ∷ d) h = ground (arith, lookup-erase_self k d h.1)

  pub erase_absent : (k : ℕ) (d : Dict V) → lookup k d ≡ none → erase k d ≡ d
  unfolding lookup erase
  erase_absent k [] h = refl
  erase_absent k ((i, w) ∷ d) h = ground (arith, erase_absent k d)

  pub count-insert_new :
      (k j : ℕ) (v : V) (d : Dict V)
      → lookup k d ≡ none
      → count j (keys (insert k v d)) ≡ count j (keys d) + (if j == k then 1 else 0)
  unfolding lookup insert
  count-insert_new k j v [] h = omega arith
  count-insert_new k j v ((i, w) ∷ d) h = ground (arith, count-insert_new k j v d)

  pub count-erase :
      (k j : ℕ) (v : V) (d : Dict V)
      → lookup k d ≡ some v
      → count j (keys (erase k d)) + (if j == k then 1 else 0) ≡ count j (keys d)
  unfolding lookup erase
  count-erase k j v [] h = ground arith
  count-erase k j v ((i, w) ∷ d) h = ground (arith, count-erase k j v d)

  pub lookup_of_count : (k : ℕ) (d : Dict V) → count k (keys d) ≡ 0 → lookup k d ≡ none
  unfolding lookup
  lookup_of_count k [] h = refl
  lookup_of_count k ((i, w) ∷ d) h = ground (arith, lookup_of_count k d)
