-- ===== src/Store/Journal/Index.antt =====
-- The jobs of a list by their id, and what `load` and `save` of src/lifecycle/JobStore.ts make of one id.
use run_beacon.Base.{
  ℕ, ◌≡◌, refl, ap, ◌∙◌, inl, inr, List, [], ◌∷◌, Bool, Option, none, some, arith, Bool-cases,
  if◌then◌else◌, All, contains, map, filter, ◌==◌, ==_iff, ◌&&◌, is_some,
}
use run_beacon.Base.Dict.{
  Dict, lookup, insert, lookup-insert_self, lookup-insert_ne, IsUnique, keys,
}
use run_beacon.Types.{JobRecord}
use run_beacon.Store.{raw_of, map_some}
use run_beacon.Store.Journal.{StoreOptions, add_job, add_jobs, set_versions, ids_of}
use run_beacon.Store.Journal.Cells.{Op, put}
use run_beacon.Store.Journal.Replay.{IsStable, puts}

abbrev pub by_id : List JobRecord → Dict JobRecord
by_id [] = []
by_id (j ∷ js) = (j.id, j) ∷ by_id js

pub contains-filter :
    (p : ℕ → Bool) (k : ℕ) (xs : List ℕ) → contains k (filter p xs) ≡ (contains k xs && p k)
contains-filter p k [] = refl
contains-filter p k (x ∷ xs) = ground (arith, contains-filter p k xs)

pub contains-keys {ℓ} :
    {V : Type ℓ} (k : ℕ) (d : Dict V) → contains k (keys d) ≡ is_some (lookup k d)
unfolding lookup
contains-keys k [] = refl
contains-keys k ((j, v) ∷ d) = ground (arith, contains-keys k d)

pub contains-ids_of :
    (k : ℕ) (js : List JobRecord) → contains k (ids_of js) ≡ is_some (lookup k (by_id js))
unfolding lookup
contains-ids_of k [] = refl
contains-ids_of k (j ∷ js) = ground (arith, contains-ids_of k js)

abbrev pub or_else {ℓ} : {A : Type ℓ} → Option A → Option A → Option A
or_else none b = b
or_else (some a) b = some a

abbrev pub put_if : (JobRecord → Bool) → Option JobRecord → List Op
put_if p none = []
put_if p (some j) = if p j then put j ∷ [] else []

-- What of a list with distinct ids concerns one id.
pub puts-filter :
    (k : ℕ) (p : JobRecord → Bool) (js : List JobRecord)
    → IsUnique (by_id js)
    → puts k (filter p js) ≡ put_if p (lookup k (by_id js))
unfolding lookup
puts-filter k p [] u = refl
puts-filter k p (j ∷ js) u = elim (Bool-cases (k == j.id)) [
  | inl t ↦
      let same : k ≡ j.id = (==_iff k j.id).0 t in
      let none_left : lookup k (by_id js) ≡ none = rw same u.0 in
      let absent : puts k (filter p js) ≡ [] = puts-filter k p js u.1 ∙ ap (put_if p) none_left in
      elim (Bool-cases (p j)) [ inl y ↦ rw (t, y, t, absent) refl | inr n ↦ rw (t, n, absent) refl ]
  | inr f ↦ elim (Bool-cases (p j)) [
    | inl y ↦ rw (f, y, f) (puts-filter k p js u.1)
    | inr n ↦ rw (f, n) (puts-filter k p js u.1)
  ]
]

pub lookup-add_jobs :
    (k : ℕ) (o : StoreOptions) (js : List JobRecord) (d : Dict JobRecord)
    → All (IsStable o) js
    → IsUnique (by_id js)
    → lookup k (add_jobs o (map raw_of js) d) ≡ or_else (lookup k (by_id js)) (lookup k d)
unfolding add_jobs add_job lookup
lookup-add_jobs k o [] d all u = refl
lookup-add_jobs k o (j ∷ js) d all u =
    rw (add_jobs, all.0)
      (lookup-add_jobs k o js (insert j.id j d) all.1 u.1 ∙ elim (Bool-cases (k == j.id)) [
        | inl t ↦
            let same : k ≡ j.id = (==_iff k j.id).0 t in
            let absent : lookup k (by_id js) ≡ none = rw same u.0 in
            let found : lookup k (insert j.id j d) ≡ some j =
              rw same (lookup-insert_self j.id j d) in
            rw (t, absent) found
        | inr f ↦ rw (f, lookup-insert_ne j.id k j d (ground (arith, f))) refl
      ])

pub lookup-set_versions :
    (k : ℕ) (js : List JobRecord) (d : Dict ℕ)
    → IsUnique (by_id js)
    → lookup k (set_versions js d)
      ≡ or_else (map_some (λ (j : JobRecord). j.version) (lookup k (by_id js))) (lookup k d)
unfolding set_versions lookup
lookup-set_versions k [] d u = refl
lookup-set_versions k (j ∷ js) d u =
    lookup-set_versions k js (insert j.id j.version d) u.1 ∙ elim (Bool-cases (k == j.id)) [
      | inl t ↦
          let same : k ≡ j.id = (==_iff k j.id).0 t in
          let absent : lookup k (by_id js) ≡ none = rw same u.0 in
          let found : lookup k (insert j.id j.version d) ≡ some j.version =
            rw same (lookup-insert_self j.id j.version d) in
          rw (t, absent) found
      | inr f ↦ rw (f, lookup-insert_ne j.id k j.version d (ground (arith, f))) refl
    ]

pub id-lookup :
    (k : ℕ) (js : List JobRecord) (j : JobRecord) → lookup k (by_id js) ≡ some j → j.id ≡ k
unfolding lookup
id-lookup k [] j h = ground arith
id-lookup k (i ∷ js) j h = elim (Bool-cases (k == i.id)) [
  | inl t ↦ ground (arith, rw t at h, (==_iff k i.id).0 t)
  | inr f ↦ id-lookup k js j (rw f at h)
]
