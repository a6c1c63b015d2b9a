-- ===== src/Store/Journal/Commit.antt =====
-- `save` and `load` of src/lifecycle/JobStore.ts as a store that a crash does not tear.
use run_beacon.Base.{
  ℕ, ◌+◌, ◌≡◌, refl, sym, ap, ◌∙◌, inl, inr, List, [], ◌∷◌, ◌++◌, true, ◌&&◌, Option, none, some,
  arith, Bool-cases, All, All-filter, not, subst, map, length, length-append, is_empty, leb,
}
use run_beacon.Base.Dict.{lookup, IsUnique}
use run_beacon.Types.{JobRecord}
use run_beacon.Store.{raw_of, map_some, serialize}
use run_beacon.Store.Journal.{
  StoreOptions, Disk, JobStore, snapshot_jobs, job_store_version, is_persisted, save_payload,
  journaled, snapshotted, compact, save, max_journal_bytes,
}
use run_beacon.Store.Journal.Cells.{Settled-nil, crashed, run_ops}
use run_beacon.Store.Journal.Replay.{IsStable, Entry, ops_of, line_of}
use run_beacon.Store.Journal.Index.{by_id, lookup-add_jobs, lookup-set_versions, or_else}
use run_beacon.Store.Journal.Recovery.{
  Cells, cells_of, Holds, Knows, Ready, Holds-same, Holds-append, save_entry, save_entry-Update,
}

is_empty-map : {A B : Type 0} (f : A → B) (xs : List A) → is_empty (map f xs) ≡ is_empty xs
is_empty-map f [] = refl
is_empty-map f (x ∷ xs) = refl

ops_of-empty :
    (k : ℕ) (js : List JobRecord) (ids : List ℕ)
    → (is_empty js && is_empty ids) ≡ true
    → ops_of k (record { jobs = js; deleted = ids } ∷ []) ≡ []
ops_of-empty k [] [] h = refl
ops_of-empty k [] (id ∷ ids) h = ground arith
ops_of-empty k (j ∷ js) ids h = ground arith

pub or_else_none {ℓ} : {A : Type ℓ} (c : Option A) → or_else c none ≡ c
or_else_none none = refl
or_else_none (some a) = refl

-- The snapshot alone holds the jobs.
snapshot_lem :
    (o : StoreOptions) (new : List JobRecord)
    → All (IsStable o) new
    → IsUnique (by_id new)
    → (k : ℕ)
    → lookup k
        (snapshot_jobs o (some (record { version = job_store_version; jobs = map raw_of new })))
      ≡ cells_of new k
unfolding snapshot_jobs lookup
snapshot_lem o new all u k = lookup-add_jobs k o new [] all u ∙ or_else_none (cells_of new k)

abbrev pub version_of : Option JobRecord → Option ℕ
version_of = map_some (λ (j : JobRecord). j.version)

compact_lem :
    (o : StoreOptions) (cells : Cells) (s : JobStore × Disk)
    → ((k : ℕ) → lookup k (snapshot_jobs o s.1.snapshot) ≡ cells k)
    → Holds o cells s.1
    → Knows cells s
    → Holds o cells (compact o s).1 × Knows cells (compact o s)
unfolding compact
compact_lem o cells (store, disk) snap h known =
    elim (Bool-cases (leb (o.journal_bytes disk.journal) max_journal_bytes)) [
      | inl t ↦ rw (compact, t) (h, known)
      | inr f ↦
          rw (compact, f)
            (
              record {
                entries = [];
                lines = refl;
                stable = tt;
                read = snap;
                settled = λ k. Settled-nil (cells k);
              },
              record { sequence = refl; versions = known.versions },
            )
    ]

Holds-snapshot :
    (o : StoreOptions) (cells : Cells) (disk disk' : Disk)
    → disk'.journal ≡ disk.journal
    → ((k : ℕ) → lookup k (snapshot_jobs o disk'.snapshot) ≡ cells k)
    → Holds o cells disk
    → Holds o cells disk'
Holds-snapshot o cells disk disk' e snap h = record {
  entries = h.entries;
  lines = e ∙ h.lines;
  stable = h.stable;
  read = λ k. ap (run_ops (ops_of k h.entries)) (snap k) ∙ (h.settled k).same;
  settled = h.settled;
}

module _ (o : StoreOptions) {cells : Cells} {store : JobStore} {disk : Disk} {new : List JobRecord}
    (h : Holds o cells disk) (known : Knows cells (store, disk)) (r : Ready o cells new) where
  abbrev entry : Entry
  entry = save_entry store new

  unchanged : (is_empty entry.jobs && is_empty entry.deleted) ≡ true → Holds o (cells_of new) disk
  unchanged t = Holds-same h (λ k. sym (
      ap (λ os. run_ops os (cells k)) (sym (ops_of-empty k entry.jobs entry.deleted t))
      ∙ crashed (Settled-nil (cells k)) (save_entry-Update known r k)))

  -- A crash right after the record of a save is in the journal.
  pub Holds-journaled : Holds o (cells_of new) (journaled o new (store, disk)).1
  unfolding journaled save_payload
  Holds-journaled =
      elim (Bool-cases
        (is_empty (save_payload store new).jobs && is_empty (save_payload store new).deleted)) [
          | inl t ↦ rw (journaled, t) (unchanged (rw (is_empty-map raw_of entry.jobs) at t))
          | inr f ↦
              let number : 1 + length disk.journal ≡ store.journal_sequence + 1 =
                omega (arith, known.sequence) in
              rw (journaled, f)
                (subst
                  (λ n.
                    Holds o (cells_of new)
                      (record disk { journal = disk.journal ++ some (line_of o n entry) ∷ [] }))
                  number
                  (Holds-append entry h
                    (All-filter (IsStable o)
                      (λ (job : JobRecord). not (is_persisted store.persisted_versions job)) new
                      r.stable)
                    (save_entry-Update known r)))
        ]

  sequence-journaled :
      let s = journaled o new (store, disk) in s.0.journal_sequence ≡ length s.1.journal
  unfolding journaled save_payload
  sequence-journaled =
      elim (Bool-cases
        (is_empty (save_payload store new).jobs && is_empty (save_payload store new).deleted)) [
          | inl t ↦ rw (journaled, t) known.sequence
          | inr f ↦
              let line = some (line_of o (store.journal_sequence + 1) entry) in
              let longer : length (disk.journal ++ line ∷ []) ≡ length disk.journal + 1 =
                length-append disk.journal (line ∷ []) in
              rw (journaled, f) (omega (arith, known.sequence, longer))
        ]

  -- After a save the store and the files agree on the jobs of the save.
  pub save_lem :
      (jobs : List JobRecord)
      → map (serialize o.redactor o.persist_output) jobs ≡ new
      → let s = save o jobs (store, disk) in Holds o (cells_of new) s.1 × Knows (cells_of new) s
  unfolding save snapshotted lookup
  save_lem jobs e =
      let s1 = journaled o new (store, disk) in
      let snap = snapshot_lem o new r.stable r.unique in
      rw e (
        compact_lem o (cells_of new) (snapshotted new s1) snap
          (Holds-snapshot o (cells_of new) s1.1 (snapshotted new s1).1 refl snap Holds-journaled)
          (record {
            sequence = sequence-journaled;
            versions = λ k.
                lookup-set_versions k new [] r.unique ∙ or_else_none (version_of (cells_of new k));
          }))
