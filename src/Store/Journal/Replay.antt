-- ===== src/Store/Journal/Replay.antt =====
-- `replayJournal` over a whole journal, one job at a time.
use run_beacon.Base.{
  ℕ, ◌⊎◌, ◌+◌, ◌≡◌, refl, sym, ap, ◌∙◌, inl, inr, List, [], ◌∷◌, ◌++◌, true, Option, none, some,
  leb, arith, Bool-cases, Option-cases, if◌then◌else◌, All, contains, map, max, length, ◌==◌,
  ==_iff,
}
use mathlib.Core.List.{append_assoc}
use run_beacon.Base.Dict.{
  Dict, lookup, insert, erase, lookup-insert, lookup-erase_ne, lookup-erase_self, IsUnique,
  IsUnique-insert, IsUnique-erase,
}
use run_beacon.Types.{JobRecord}
use run_beacon.Base.Text.{text_eq_refl}
use run_beacon.Store.{raw_of}
use run_beacon.Store.Journal.{
  StoreOptions, JournalPayload, JournalRecord, read_job, delete_each, merge_job, merge_jobs,
  is_next, replay_each,
}
use run_beacon.Store.Journal.Cells.{Op, del, put, put_cell, run_ops, run_ops-append}

-- A job that is read back as it was written.
abbrev pub IsStable : StoreOptions → JobRecord → Type 0
IsStable o j = read_job o (raw_of j) ≡ some j

-- What one save wrote to the journal.
pub record Entry : Type 0 where
  pub jobs : List JobRecord
  pub deleted : List ℕ

abbrev pub entry_payload : ℕ → Entry → JournalPayload
entry_payload n e = record {
  version = 2;
  sequence = n;
  jobs = map raw_of e.jobs;
  deleted = e.deleted;
}

abbrev pub line_of : StoreOptions → ℕ → Entry → JournalRecord
line_of o n e = record {
  payload = entry_payload n e;
  checksum = o.checksum_payload (entry_payload n e);
}

-- A whole journal, numbered from a number on.
abbrev pub lines_of : StoreOptions → ℕ → List Entry → List (Option JournalRecord)
lines_of o n [] = []
lines_of o n (e ∷ es) = some (line_of o n e) ∷ lines_of o (n + 1) es

abbrev pub puts : ℕ → List JobRecord → List Op
puts k [] = []
puts k (j ∷ js) = if k == j.id then put j ∷ puts k js else puts k js

abbrev pub dels : ℕ → List ℕ → List Op
dels k ids = if contains k ids then del ∷ [] else []

-- The operations of the journal on the job with an id.
abbrev pub ops_of : ℕ → List Entry → List Op
ops_of k [] = []
ops_of k (e ∷ es) = dels k e.deleted ++ (puts k e.jobs ++ ops_of k es)

pub lines_of-append :
    (o : StoreOptions) (n : ℕ) (es : List Entry) (e : Entry)
    → lines_of o n (es ++ e ∷ []) ≡ lines_of o n es ++ some (line_of o (n + length es) e) ∷ []
lines_of-append o n [] e = ap (λ m. some (line_of o m e) ∷ []) (omega arith)
lines_of-append o n (f ∷ es) e =
    let same : n + 1 + length es ≡ n + length (f ∷ es) = omega arith in
    ap (λ x. some (line_of o n f) ∷ x) (lines_of-append o (n + 1) es e)
    ∙ ap (λ m. lines_of o n (f ∷ es) ++ some (line_of o m e) ∷ []) same

is_next_line : (o : StoreOptions) (n : ℕ) (e : Entry) → is_next o n (line_of o n e) ≡ true
unfolding is_next
is_next_line o n e = rw (text_eq_refl (o.checksum_payload (entry_payload n e))) (ground arith)

max_next : (q : ℕ) → max q (q + 1) ≡ q + 1
max_next q = omega arith

-- From a line on that is no record, the journal is not read.
pub replay_each_corrupt :
    (o : StoreOptions) (n : ℕ) (pre post : List (Option JournalRecord)) (d : Dict JobRecord) (q : ℕ)
    → replay_each o n (pre ++ none ∷ post) d q ≡ replay_each o n pre d q
unfolding replay_each
replay_each_corrupt o n [] post d q = refl
replay_each_corrupt o n (none ∷ pre) post d q = refl
replay_each_corrupt o n (some l ∷ pre) post d q =
    rw
      (replay_each_corrupt o (n + 1) pre post
        (merge_jobs o l.payload.jobs (delete_each l.payload.deleted d)) (max q l.payload.sequence))
      refl

module _ (k : ℕ) where
  lookup-delete_each :
      (ids : List ℕ) (d : Dict JobRecord)
      → IsUnique d
      → (lookup k (delete_each ids d) ≡ run_ops (dels k ids) (lookup k d))
        × IsUnique (delete_each ids d)
  unfolding delete_each
  lookup-delete_each [] d u = (refl, u)
  lookup-delete_each (id ∷ ids) d u =
      let (e, u') = lookup-delete_each ids (erase id d) (IsUnique-erase id d u) in
      elim (Bool-cases (k == id)) [
        | inl t ↦
            let same : k ≡ id = (==_iff k id).0 t in
            let gone : lookup k (erase id d) ≡ none = rw same (lookup-erase_self id d u) in
            (rw t (e ∙ ap (run_ops (dels k ids)) gone ∙ absent ids), u')
        | inr f ↦
            let other : lookup k (erase id d) ≡ lookup k d =
              lookup-erase_ne id k d (ground (arith, f)) in
            (rw f (e ∙ ap (run_ops (dels k ids)) other), u')
      ]
    where
      absent : (ids : List ℕ) → run_ops (dels k ids) none ≡ none
      absent ids = ground arith

  lookup-insert_job :
      (j : JobRecord) (d : Dict JobRecord)
      → lookup k (insert j.id j d) ≡ (if k == j.id then some j else lookup k d)
  lookup-insert_job j d = lookup-insert j.id k j d ∙ ground arith

  merge_job_cases :
      (j : JobRecord) (d : Dict JobRecord)
      → ((merge_job (some j) d ≡ insert j.id j d) × (put_cell (lookup j.id d) j ≡ some j))
        ⊎ ((merge_job (some j) d ≡ d) × (put_cell (lookup j.id d) j ≡ lookup j.id d))
  unfolding merge_job
  merge_job_cases j d = elim (Option-cases (lookup j.id d)) [
    | inl e ↦ inl (rw (merge_job, e) (refl, refl))
    | inr (c, e) ↦ elim (Bool-cases (leb c.version j.version)) [
      | inl l ↦ inl (rw (merge_job, e, l) (refl, refl))
      | inr l ↦ inr (rw (merge_job, e, l) (refl, refl))
    ]
  ]

  lookup-merge_job :
      (j : JobRecord) (d : Dict JobRecord)
      → IsUnique d
      → (lookup k (merge_job (some j) d) ≡ run_ops (puts k (j ∷ [])) (lookup k d))
        × IsUnique (merge_job (some j) d)
  lookup-merge_job j d u = elim (merge_job_cases j d) [
    | inl (e, p) ↦ rw e (put_new p, IsUnique-insert j.id j d u)
    | inr (e, p) ↦ rw e (put_old p, u)
  ]
    where
      put_new :
          put_cell (lookup j.id d) j ≡ some j
          → lookup k (insert j.id j d) ≡ run_ops (puts k (j ∷ [])) (lookup k d)
      put_new p = lookup-insert_job j d ∙ elim (Bool-cases (k == j.id)) [
        | inl t ↦ rw (t, (==_iff k j.id).0 t) (sym p)
        | inr f ↦ rw f refl
      ]

      put_old :
          put_cell (lookup j.id d) j ≡ lookup j.id d
          → lookup k d ≡ run_ops (puts k (j ∷ [])) (lookup k d)
      put_old p = elim (Bool-cases (k == j.id)) [
        | inl t ↦ rw (t, (==_iff k j.id).0 t) (sym p)
        | inr f ↦ rw f refl
      ]

  run_ops-puts :
      (j : JobRecord) (js : List JobRecord) (c : Option JobRecord)
      → run_ops (puts k js) (run_ops (puts k (j ∷ [])) c) ≡ run_ops (puts k (j ∷ js)) c
  run_ops-puts j js c = elim (Bool-cases (k == j.id)) [ inl t ↦ rw t refl | inr f ↦ rw f refl ]

  lookup-merge_jobs :
      (o : StoreOptions) (js : List JobRecord) (d : Dict JobRecord)
      → All (IsStable o) js
      → IsUnique d
      → (lookup k (merge_jobs o (map raw_of js) d) ≡ run_ops (puts k js) (lookup k d))
        × IsUnique (merge_jobs o (map raw_of js) d)
  unfolding merge_jobs
  lookup-merge_jobs o [] d all u = (refl, u)
  lookup-merge_jobs o (j ∷ js) d all u =
      let (e, u') = lookup-merge_job j d u in
      let (e', u'') = lookup-merge_jobs o js (merge_job (some j) d) all.1 u' in
      rw (merge_jobs, all.0) (e' ∙ ap (run_ops (puts k js)) e ∙ run_ops-puts j js (lookup k d), u'')

  ops_of-entry :
      (e : Entry) (es : List Entry) (c : Option JobRecord)
      → run_ops (ops_of k (e ∷ es)) c
        ≡ run_ops (ops_of k es) (run_ops (puts k e.jobs) (run_ops (dels k e.deleted) c))
  ops_of-entry e es c =
      run_ops-append (dels k e.deleted) (puts k e.jobs ++ ops_of k es) c
      ∙ run_ops-append (puts k e.jobs) (ops_of k es) (run_ops (dels k e.deleted) c)

  pub ops_of-append : (es fs : List Entry) → ops_of k (es ++ fs) ≡ ops_of k es ++ ops_of k fs
  ops_of-append [] fs = refl
  ops_of-append (e ∷ es) fs =
      ap (λ x. dels k e.deleted ++ (puts k e.jobs ++ x)) (ops_of-append es fs)
      ∙ ap (λ x. dels k e.deleted ++ x)
          (sym (append_assoc (puts k e.jobs) (ops_of k es) (ops_of k fs)))
      ∙ sym (append_assoc (dels k e.deleted) (puts k e.jobs ++ ops_of k es) (ops_of k fs))

  -- A whole journal that goes on from a sequence: each job is what its operations make of it.
  pub lookup-replay_each :
      (o : StoreOptions) (q : ℕ) (es : List Entry) (d : Dict JobRecord)
      → All (λ e. All (IsStable o) e.jobs) es
      → IsUnique d
      → let out = replay_each o (q + 1) (lines_of o (q + 1) es) d q in
        (lookup k out.0 ≡ run_ops (ops_of k es) (lookup k d)) × (out.1 ≡ q + length es)
  unfolding replay_each
  lookup-replay_each o q [] d all u = (refl, omega arith)
  lookup-replay_each o q (e ∷ es) d all u =
      let (a, u1) = lookup-delete_each e.deleted d u in
      let (b, u2) = lookup-merge_jobs o e.jobs (delete_each e.deleted d) all.0 u1 in
      let next = merge_jobs o (map raw_of e.jobs) (delete_each e.deleted d) in
      let (c, s) = lookup-replay_each o (q + 1) es next all.1 u2 in
      rw (is_next_line o (q + 1) e, max_next q)
        (
          c
              ∙ ap (run_ops (ops_of k es)) (b ∙ ap (run_ops (puts k e.jobs)) a)
              ∙ sym (ops_of-entry e es (lookup k d)),
          s ∙ omega arith,
        )
