-- ===== src/Subscriptions/Kept.antt =====
-- The subscriptions in memory and in the file, src/lifecycle/EventSubscriptionStore.ts.
use run_beacon.Base.{
  sym, Bool, ℕ, ◌≡◌, refl, ap, ◌∙◌, inl, inr, [], ◌∷◌, true, Option, none, some, ◌==◌, ==_iff,
  arith, Bool-cases, Option-cases,
}
use run_beacon.Base.Dict.{
  Dict, lookup, insert, erase, values, IsUnique, IsUnique-insert, IsUnique-erase, AllValues,
  AllValues-insert, AllValues-erase, lookup-insert_self, lookup-insert_ne,
}
use run_beacon.Subscriptions.{
  EventSubscription, EventSubscriptionKind, SaveEventSubscription, Surroundings, SubscriptionStore,
  save, delete, list, load, load_each, persist, save_error, saved_subscription,
  is_stored_subscription,
}
use run_beacon.Subscriptions.Sorted.{
  put, sorted, values-sorted, lookup-sorted, IsUnique-sorted, AllValues-sorted,
}

abbrev pub HasIds : Dict EventSubscription → Type 0
HasIds [] = Unit {0}
HasIds ((k, v) ∷ d) = (v.id ≡ k) × HasIds d

HasIds-insert :
    (v : EventSubscription) (k : ℕ) (d : Dict EventSubscription)
    → v.id ≡ k
    → HasIds d
    → HasIds (insert k v d)
unfolding insert
HasIds-insert v k [] e h = (e, tt)
HasIds-insert v k ((j, w) ∷ d) e h = ground (arith, e, HasIds-insert v k d e h.1)

HasIds-erase : (k : ℕ) (d : Dict EventSubscription) → HasIds d → HasIds (erase k d)
unfolding erase
HasIds-erase k [] h = h
HasIds-erase k ((j, w) ∷ d) h = ground (arith, HasIds-erase k d h.1)

abbrev pub IsStored : Surroundings → EventSubscription → Type 0
IsStored env v = is_stored_subscription env v ≡ true

-- Each subscription stands under its id and is of the form that `load` accepts.
pub record Entries (env : Surroundings) (d : Dict EventSubscription) : Type 0 where
  pub unique : IsUnique d
  pub ids : HasIds d
  pub all : AllValues (IsStored env) d

-- Besides, a new store on the file has the same subscriptions.
pub record Kept (env : Surroundings) (s : SubscriptionStore) : Type 0 where
  pub entries : Entries env s.subscriptions
  pub reloads : (k : ℕ) → lookup k (load env s.file) ≡ lookup k s.subscriptions

abbrev or_else : Option EventSubscription → Option EventSubscription → Option EventSubscription
or_else none b = b
or_else (some a) b = some a

lookup-load_each :
    (env : Surroundings) (k : ℕ) (d acc : Dict EventSubscription)
    → Entries env d
    → lookup k (load_each env (values d) acc) ≡ or_else (lookup k d) (lookup k acc)
unfolding load_each lookup
lookup-load_each env k [] acc h = refl
lookup-load_each env k ((j, v) ∷ d) acc h =
    let rest : Entries env d = record { unique = h.unique.1; ids = h.ids.1; all = h.all.1 } in
    let key : insert v.id v acc ≡ insert j v acc = ap (λ i. insert i v acc) h.ids.0 in
    rw (load_each, h.all.0, key)
      (lookup-load_each env k d (insert j v acc) rest ∙ elim (Bool-cases (k == j)) [
        | inl t ↦
            let same : k ≡ j = (==_iff k j).0 t in
            let absent : lookup k d ≡ none = rw same h.unique.0 in
            let found : lookup k (insert j v acc) ≡ some v = rw same (lookup-insert_self j v acc) in
            rw (t, absent) found
        | inr f ↦ rw (f, lookup-insert_ne j k v acc (ground (arith, f))) refl
      ])

or_else_none : (c : Option EventSubscription) → or_else c none ≡ c
or_else_none none = refl
or_else_none (some a) = refl

HasIds-put :
    (is_after : ℕ → ℕ → Bool) (j : ℕ) (v : EventSubscription) (d : Dict EventSubscription)
    → v.id ≡ j
    → HasIds d
    → HasIds (put is_after j v d)
unfolding put
HasIds-put is_after j v [] e h = (e, tt)
HasIds-put is_after j v ((i, w) ∷ d) e h = ground (arith, e, h, HasIds-put is_after j v d e h.1)

HasIds-sorted :
    (is_after : ℕ → ℕ → Bool) (d : Dict EventSubscription) → HasIds d → HasIds (sorted is_after d)
unfolding sorted
HasIds-sorted is_after [] h = h
HasIds-sorted is_after ((j, v) ∷ d) h =
    HasIds-put is_after j v (sorted is_after d) h.0 (HasIds-sorted is_after d h.1)

Entries-sorted :
    (env : Surroundings) (d : Dict EventSubscription)
    → Entries env d
    → Entries env (sorted env.is_after d)
Entries-sorted env d h = record {
  unique = IsUnique-sorted env.is_after d h.unique;
  ids = HasIds-sorted env.is_after d h.ids;
  all = AllValues-sorted env.is_after (IsStored env) d h.all;
}

persist-Kept :
    (env : Surroundings) (s : SubscriptionStore)
    → Entries env s.subscriptions
    → Kept env (persist env s)
unfolding persist load list lookup
persist-Kept env s h = record {
  entries = h;
  reloads = λ k.
      let d = sorted env.is_after s.subscriptions in
      ap (λ file. lookup k (load_each env file []))
        (sym (values-sorted env.is_after s.subscriptions))
      ∙ (lookup-load_each env k d [] (Entries-sorted env s.subscriptions h)
          ∙ (or_else_none (lookup k d) ∙ lookup-sorted env.is_after k s.subscriptions h.unique));
}

saved_subscription-IsStored :
    (env : Surroundings) (now : ℕ) (input : SaveEventSubscription) (kind : EventSubscriptionKind)
    (old : Option EventSubscription)
    → save_error env input kind ≡ none
    → IsStored env (saved_subscription now input kind old)
unfolding save_error saved_subscription is_stored_subscription
saved_subscription-IsStored env now input kind old h = ground (arith, h)

-- Whatever its input, `save` keeps this: each subscription stands under its id and is of the form that
-- `load` accepts, and a new store on the file has the same subscriptions.
pub save-Kept :
    (env : Surroundings) (now : ℕ) (input : SaveEventSubscription) (s : SubscriptionStore)
    → Kept env s
    → Kept env (save env now input s).1
unfolding save
save-Kept env now input s h = elim (Option-cases input.kind) [
  | inl n ↦ elim (Bool-cases (env.is_safe_id input.id)) [
    | inl t ↦ rw (save, n, t) h
    | inr f ↦ rw (save, n, f) h
  ]
  | inr (kind, e) ↦ elim (Option-cases (save_error env input kind)) [
    | inr (x, f) ↦ rw (save, e, f) h
    | inl f ↦
        let v = saved_subscription now input kind (lookup input.id s.subscriptions) in
        rw (save, e, f)
          (persist-Kept env (record s { subscriptions = insert input.id v s.subscriptions })
            (record {
              unique = IsUnique-insert input.id v s.subscriptions h.entries.unique;
              ids =
                  HasIds-insert v input.id s.subscriptions (unfold saved_subscription in refl)
                    h.entries.ids;
              all = AllValues-insert (IsStored env) input.id v s.subscriptions h.entries.all (
                  saved_subscription-IsStored env now input kind (lookup input.id s.subscriptions)
                    f);
            }))
  ]
]

-- Whatever the id, `delete` keeps this: each subscription stands under its id and is of the form that
-- `load` accepts, and a new store on the file has the same subscriptions.
pub delete-Kept :
    (env : Surroundings) (id : ℕ) (s : SubscriptionStore)
    → Kept env s
    → Kept env (delete env id s).1
unfolding delete
delete-Kept env id s h = elim (Option-cases (lookup id s.subscriptions)) [
  | inl n ↦ rw (delete, n) h
  | inr (v, e) ↦
      rw (delete, e)
        (persist-Kept env (record s { subscriptions = erase id s.subscriptions })
          (record {
            unique = IsUnique-erase id s.subscriptions h.entries.unique;
            ids = HasIds-erase id s.subscriptions h.entries.ids;
            all = AllValues-erase (IsStored env) id s.subscriptions h.entries.all;
          }))
]
