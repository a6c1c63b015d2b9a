-- ===== src/Store/Journal/Sessions.antt =====
-- Runs of the store of src/lifecycle/JobStore.ts: saves, crashes within a save, and restarts.
use run_beacon.Base.{
  ℕ, ◌≡◌, refl, sym, ap, ◌∙◌, inl, inr, List, [], ◌∷◌, ◌++◌, ◌&&◌, Option, none, Bool-cases,
  Option-cases, map, length, not, is_some, ◌==◌,
}
use run_beacon.Base.Dict.{lookup, values}
use run_beacon.Types.{JobRecord}
use run_beacon.Store.{serialize}
use run_beacon.Store.Journal.{
  StoreOptions, JournalRecord, Disk, JobStore, snapshot_jobs, recover, replay_journal, journaled,
  save, load, backup_v1,
}
use run_beacon.Store.Journal.Cells.{Settled-nil}
use run_beacon.Store.Journal.Replay.{replay_each_corrupt}
use run_beacon.Store.Journal.Index.{by_id, lookup-set_versions}
use run_beacon.Store.Journal.Keyed.{IsKeyed-recover, by_id-values}
use run_beacon.Store.Journal.Recovery.{Cells, cells_of, Holds, Knows, Ready, recover-Holds}
use run_beacon.Store.Journal.Commit.{version_of, or_else_none, Holds-journaled, save_lem}

abbrev pub serialize_all : StoreOptions → List JobRecord → List JobRecord
serialize_all o jobs = map (serialize o.redactor o.persist_output) jobs

-- A new store on the files.
abbrev pub restart : StoreOptions → Disk → JobStore × Disk
restart o disk = ((load o disk).1, (load o disk).2)

abbrev pub empty_disk : Disk
empty_disk = record { snapshot = none; v1_backup = none; journal = [] }

-- The runs from no files on, with the jobs of the last save: a save, a save that a crash cuts off after
-- the record of the journal and before the new snapshot, a restart.
pub data Run (o : StoreOptions) : Cells → JobStore × Disk → Type 0 where
  start : Run o (λ k. none) (restart o empty_disk)
  saved :
      {cells : Cells} {s : JobStore × Disk} (jobs : List JobRecord)
      → Run o cells s
      → Ready o cells (serialize_all o jobs)
      → Run o (cells_of (serialize_all o jobs)) (save o jobs s)
  crashed :
      {cells : Cells} {s : JobStore × Disk} (jobs : List JobRecord)
      → Run o cells s
      → Ready o cells (serialize_all o jobs)
      → Run o (cells_of (serialize_all o jobs)) (restart o (journaled o (serialize_all o jobs) s).1)
  restarted : {cells : Cells} {s : JobStore × Disk} → Run o cells s → Run o cells (restart o s.1)

backup_v1_lem :
    (disk : Disk)
    → ((backup_v1 disk).journal ≡ disk.journal) × ((backup_v1 disk).snapshot ≡ disk.snapshot)
unfolding backup_v1
backup_v1_lem disk = elim (Option-cases disk.snapshot) [
  | inl e ↦ rw (backup_v1, e) (refl, e)
  | inr (s, e) ↦ elim (Bool-cases (s.version == 1 && not (is_some disk.v1_backup))) [
    | inl t ↦ rw (backup_v1, e, t) (refl, e)
    | inr f ↦ rw (backup_v1, e, f) (refl, e)
  ]
]

Holds-backup_v1 :
    (o : StoreOptions) (cells : Cells) (disk : Disk)
    → Holds o cells disk
    → Holds o cells (backup_v1 disk)
Holds-backup_v1 o cells disk h = record {
  entries = h.entries;
  lines = (backup_v1_lem disk).0 ∙ h.lines;
  stable = h.stable;
  read = λ k. rw (backup_v1_lem disk).1 (h.read k);
  settled = h.settled;
}

-- A store that is built anew from the files agrees with them.
load_lem :
    (o : StoreOptions) (cells : Cells) (disk : Disk)
    → Holds o cells disk
    → ((k : ℕ) → cells_of (load o disk).0 k ≡ cells k)
      × (Holds o cells (restart o disk).1 × Knows cells (restart o disk))
unfolding load lookup
load_lem o cells disk h =
    let keyed = IsKeyed-recover o disk in
    let same : by_id (values (recover o disk)) ≡ recover o disk =
      by_id-values (recover o disk) keyed.1 in
    let found : (k : ℕ) → cells_of (values (recover o disk)) k ≡ cells k =
      λ k. rw same (recover-Holds o cells disk h k).0 in
    (
      found,
      (
        Holds-backup_v1 o cells disk h,
        record {
          sequence = (recover-Holds o cells disk h 0).1 ∙ ap length (sym (backup_v1_lem disk).0);
          versions = λ k.
              lookup-set_versions k (values (recover o disk)) [] (rw same keyed.0)
              ∙ or_else_none (version_of (cells_of (values (recover o disk)) k))
              ∙ ap version_of (found k);
        },
      ),
    )

Run-Holds :
    (o : StoreOptions) {cells : Cells} {s : JobStore × Disk}
    → Run o cells s
    → Holds o cells s.1 × Knows cells s
Run-Holds o start =
    (load_lem o (λ k. none) empty_disk
      (record {
        entries = [];
        lines = refl;
        stable = tt;
        read = λ k. unfold snapshot_jobs lookup in refl;
        settled = λ k. Settled-nil none;
      })).1
Run-Holds o (saved jobs run ready) =
    let (h, known) = Run-Holds o run in save_lem o h known ready jobs refl
Run-Holds o (crashed {s} jobs run ready) =
    let (h, known) = Run-Holds o run in
    (load_lem o (cells_of (serialize_all o jobs)) (journaled o (serialize_all o jobs) s).1
      (Holds-journaled o h known ready)).1
Run-Holds o (restarted {cells} {s} run) = (load_lem o cells s.1 (Run-Holds o run).0).1

-- After any run of saves, of crashes between the record of the journal and the new snapshot, and of
-- restarts from empty files, where each save is of jobs that are read back as they are written, that
-- have distinct ids, and of which none goes back to an older version or changes under the same one,
-- `load` gives for each id the job of the last save, or none where that save had none. A crash while the
-- journal's record is written, which can leave a part of a line, is not among these crashes.
pub load-Run :
    (o : StoreOptions) {cells : Cells} {s : JobStore × Disk}
    → Run o cells s
    → (k : ℕ) → cells_of (load o s.1).0 k ≡ cells k
load-Run o {cells} {s} run k = (load_lem o cells s.1 (Run-Holds o run).0).0 k

-- A line of the journal that cannot be parsed hides the lines after it, whatever they are: the jobs that
-- are read are those that the lines before it give.
pub recover_torn :
    (o : StoreOptions) (disk : Disk) (after : List (Option JournalRecord))
    → recover o (record disk { journal = disk.journal ++ none ∷ after }) ≡ recover o disk
unfolding recover replay_journal
recover_torn o disk after =
    ap (λ r. r.0) (replay_each_corrupt o 1 disk.journal after (snapshot_jobs o disk.snapshot) 0)
