-- ===== src/Store/Journal/Keyed.antt =====
-- The map of jobs that `load` of src/lifecycle/JobStore.ts builds holds each job under its id.
use run_beacon.Base.{
  ℕ, ◌+◌, ◌≡◌, refl, inl, inr, List, [], ◌∷◌, Option, none, some, arith, Bool-cases, max, leb,
  Option-cases,
}
use run_beacon.Base.Dict.{
  Dict, lookup, insert, erase, IsUnique, IsUnique-insert, IsUnique-erase, values,
}
use run_beacon.Types.{JobRecord}
use run_beacon.Store.{RawJob}
use run_beacon.Store.Journal.{
  StoreOptions, StoreDocument, JournalRecord, Disk, read_job, add_job, add_jobs, delete_each,
  merge_job, merge_jobs, replay_each, replay_journal, snapshot_jobs, recover, is_next, is_readable,
}
use run_beacon.Store.Journal.Index.{by_id}

-- Every job under its id, no id twice.
abbrev HasKeys : Dict JobRecord → Type 0
HasKeys [] = Unit {0}
HasKeys ((k, j) ∷ d) = (j.id ≡ k) × HasKeys d

abbrev pub IsKeyed : Dict JobRecord → Type 0
IsKeyed d = IsUnique d × HasKeys d

HasKeys-insert : (j : JobRecord) (d : Dict JobRecord) → HasKeys d → HasKeys (insert j.id j d)
unfolding insert
HasKeys-insert j [] h = (refl, tt)
HasKeys-insert j ((k, i) ∷ d) h = ground (arith, HasKeys-insert j d h.1)

HasKeys-erase : (k : ℕ) (d : Dict JobRecord) → HasKeys d → HasKeys (erase k d)
unfolding erase
HasKeys-erase k [] h = h
HasKeys-erase k ((i, j) ∷ d) h = ground (arith, HasKeys-erase k d h.1)

pub by_id-values : (d : Dict JobRecord) → HasKeys d → by_id (values d) ≡ d
by_id-values [] h = refl
by_id-values ((k, j) ∷ d) h = rw (h.0, by_id-values d h.1) refl

IsKeyed-insert : (j : JobRecord) (d : Dict JobRecord) → IsKeyed d → IsKeyed (insert j.id j d)
IsKeyed-insert j d h = (IsUnique-insert j.id j d h.0, HasKeys-insert j d h.1)

IsKeyed-add_jobs :
    (o : StoreOptions) (raws : List RawJob) (d : Dict JobRecord)
    → IsKeyed d
    → IsKeyed (add_jobs o raws d)
unfolding add_jobs add_job
IsKeyed-add_jobs o [] d h = h
IsKeyed-add_jobs o (raw ∷ raws) d h = elim (Option-cases (read_job o raw)) [
  | inl e ↦ rw (add_jobs, e) (IsKeyed-add_jobs o raws d h)
  | inr (j, e) ↦ rw (add_jobs, e) (IsKeyed-add_jobs o raws (insert j.id j d) (IsKeyed-insert j d h))
]

IsKeyed-merge_job :
    (r : Option JobRecord) (d : Dict JobRecord) → IsKeyed d → IsKeyed (merge_job r d)
unfolding merge_job
IsKeyed-merge_job none d h = h
IsKeyed-merge_job (some j) d h = elim (Option-cases (lookup j.id d)) [
  | inl e ↦ rw (merge_job, e) (IsKeyed-insert j d h)
  | inr (c, e) ↦ elim (Bool-cases (leb c.version j.version)) [
    | inl l ↦ rw (merge_job, e, l) (IsKeyed-insert j d h)
    | inr l ↦ rw (merge_job, e, l) h
  ]
]

IsKeyed-merge_jobs :
    (o : StoreOptions) (raws : List RawJob) (d : Dict JobRecord)
    → IsKeyed d
    → IsKeyed (merge_jobs o raws d)
unfolding merge_jobs
IsKeyed-merge_jobs o [] d h = h
IsKeyed-merge_jobs o (raw ∷ raws) d h =
    IsKeyed-merge_jobs o raws (merge_job (read_job o raw) d)
      (IsKeyed-merge_job (read_job o raw) d h)

IsKeyed-delete_each : (ids : List ℕ) (d : Dict JobRecord) → IsKeyed d → IsKeyed (delete_each ids d)
unfolding delete_each
IsKeyed-delete_each [] d h = h
IsKeyed-delete_each (id ∷ ids) d h =
    IsKeyed-delete_each ids (erase id d) (IsUnique-erase id d h.0, HasKeys-erase id d h.1)

IsKeyed-replay_each :
    (o : StoreOptions) (n : ℕ) (lines : List (Option JournalRecord)) (d : Dict JobRecord) (q : ℕ)
    → IsKeyed d
    → IsKeyed (replay_each o n lines d q).0
unfolding replay_each
IsKeyed-replay_each o n [] d q h = h
IsKeyed-replay_each o n (none ∷ lines) d q h = h
IsKeyed-replay_each o n (some l ∷ lines) d q h =
    let next = merge_jobs o l.payload.jobs (delete_each l.payload.deleted d) in
    let rest = IsKeyed-replay_each o (n + 1) lines next (max q l.payload.sequence) (
      IsKeyed-merge_jobs o l.payload.jobs (delete_each l.payload.deleted d)
        (IsKeyed-delete_each l.payload.deleted d h)) in
    elim (Bool-cases (is_next o n l)) [ inl t ↦ rw t rest | inr f ↦ rw f h ]

pub IsKeyed-snapshot_jobs :
    (o : StoreOptions) (s : Option StoreDocument) → IsKeyed (snapshot_jobs o s)
unfolding snapshot_jobs
IsKeyed-snapshot_jobs o none = (tt, tt)
IsKeyed-snapshot_jobs o (some s) = elim (Bool-cases (is_readable s)) [
  | inl t ↦ rw t (IsKeyed-add_jobs o s.jobs [] (tt, tt))
  | inr f ↦ rw f (tt, tt)
]

-- Whatever the snapshot and the journal hold, each job that is read stands under its own id in the map,
-- and no id has two jobs.
pub IsKeyed-recover : (o : StoreOptions) (disk : Disk) → IsKeyed (recover o disk)
unfolding recover replay_journal
IsKeyed-recover o disk =
    IsKeyed-replay_each o 1 disk.journal (snapshot_jobs o disk.snapshot) 0
      (IsKeyed-snapshot_jobs o disk.snapshot)
