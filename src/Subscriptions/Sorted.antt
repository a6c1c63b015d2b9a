-- ===== src/Subscriptions/Sorted.antt =====
-- The order in which src/lifecycle/EventSubscriptionStore.ts writes its subscriptions changes no lookup.
use run_beacon.Base.{
  ℕ, ◌≡◌, refl, ap, ◌∙◌, inl, inr, [], ◌∷◌, Bool, none, some, ◌==◌, arith, Bool-cases,
  if◌then◌else◌,
}
use run_beacon.Base.Dict.{Dict, lookup, values, IsUnique, AllValues}
use run_beacon.Subscriptions.{EventSubscription, place, sort_by_id}

module _ (is_after : ℕ → ℕ → Bool) where
  -- The sort with the keys beside the subscriptions.
  unfoldable pub put : ℕ → EventSubscription → Dict EventSubscription → Dict EventSubscription
  put j v [] = (j, v) ∷ []
  put j v ((i, w) ∷ d) = if is_after v.id w.id then (i, w) ∷ put j v d else (j, v) ∷ (i, w) ∷ d

  unfoldable pub sorted : Dict EventSubscription → Dict EventSubscription
  unfolding put
  sorted [] = []
  sorted ((j, v) ∷ d) = put j v (sorted d)

  values-put :
      (j : ℕ) (v : EventSubscription) (d : Dict EventSubscription)
      → values (put j v d) ≡ place is_after v (values d)
  unfolding put place
  values-put j v [] = refl
  values-put j v ((i, w) ∷ d) = elim (Bool-cases (is_after v.id w.id)) [
    | inl t ↦ rw (put, place, t) (ap (λ ws. w ∷ ws) (values-put j v d))
    | inr f ↦ rw (put, place, f) refl
  ]

  pub values-sorted :
      (d : Dict EventSubscription) → values (sorted d) ≡ sort_by_id is_after (values d)
  unfolding sorted sort_by_id
  values-sorted [] = refl
  values-sorted ((j, v) ∷ d) = values-put j v (sorted d) ∙ ap (place is_after v) (values-sorted d)

  lookup-put :
      (k j : ℕ) (v : EventSubscription) (d : Dict EventSubscription)
      → lookup j d ≡ none
      → lookup k (put j v d) ≡ lookup k ((j, v) ∷ d)
  unfolding put lookup
  lookup-put k j v [] n = refl
  lookup-put k j v ((i, w) ∷ d) n = ground (arith, n, lookup-put k j v d)

  IsUnique-put :
      (j : ℕ) (v : EventSubscription) (d : Dict EventSubscription)
      → lookup j d ≡ none
      → IsUnique d
      → IsUnique (put j v d)
  unfolding put lookup
  IsUnique-put j v [] n u = (refl, tt)
  IsUnique-put j v ((i, w) ∷ d) n u =
      let away : lookup j d ≡ none = ground (arith, n) in
      ground (arith, n, u, lookup-put i j v d away, IsUnique-put j v d away u.1)

  AllValues-put :
      (P : EventSubscription → Type 0) (j : ℕ) (v : EventSubscription) (d : Dict EventSubscription)
      → P v
      → AllValues P d
      → AllValues P (put j v d)
  unfolding put
  AllValues-put P j v [] p h = (p, tt)
  AllValues-put P j v ((i, w) ∷ d) p h = ground (arith, p, h, AllValues-put P j v d p h.1)

  pub lookup-sorted :
      (k : ℕ) (d : Dict EventSubscription) → IsUnique d → lookup k (sorted d) ≡ lookup k d
  unfolding sorted lookup
  lookup-sorted k [] u = refl
  lookup-sorted k ((j, v) ∷ d) u =
      lookup-put k j v (sorted d) (lookup-sorted j d u.1 ∙ u.0)
      ∙ ap (λ o. if k == j then some v else o) (lookup-sorted k d u.1)

  pub IsUnique-sorted : (d : Dict EventSubscription) → IsUnique d → IsUnique (sorted d)
  unfolding sorted
  IsUnique-sorted [] u = u
  IsUnique-sorted ((j, v) ∷ d) u =
      IsUnique-put j v (sorted d) (lookup-sorted j d u.1 ∙ u.0) (IsUnique-sorted d u.1)

  pub AllValues-sorted :
      (P : EventSubscription → Type 0) (d : Dict EventSubscription)
      → AllValues P d
      → AllValues P (sorted d)
  unfolding sorted
  AllValues-sorted P [] h = h
  AllValues-sorted P ((j, v) ∷ d) h = AllValues-put P j v (sorted d) h.0 (AllValues-sorted P d h.1)
