-- ===== src/Store/Journal.antt =====
-- The files of src/lifecycle/JobStore.ts: the snapshot, the journal, `load` and `save`. The hash of a
-- payload and the size of the journal's file in bytes are parameters. A line of the journal that is
-- not blank is its record, or `none` where it cannot be parsed; the snapshot is `none` where it is
-- missing or cannot be parsed. A write that succeeds is durable; `save` makes two, and a crash between
-- them leaves the disk as `journaled` does.
pub mod Cells
pub mod Replay
pub mod Index
pub mod Keyed
pub mod Recovery
pub mod Commit
pub mod Sessions
use run_beacon.Base.{
  ℕ, suc, ◌+◌, ◌*◌, max, List, [], ◌∷◌, ◌++◌, Bool, true, false, ◌&&◌, ◌||◌, not, Option, none,
  some, ltb, leb, ◌==◌, if◌then◌else◌, is_empty, filter, map, contains, is_some,
}
use run_beacon.Base.Dict.{Dict, lookup, insert, erase, values, keys}
use run_beacon.Base.Text.{Text, text_eq}
use run_beacon.Types.{JobRecord}
use run_beacon.Store.{Redactor, RawJob, normalize_job, raw_of, serialize}

pub record StoreDocument : Type 0 where
  pub version : ℕ
  pub jobs : List RawJob

pub record JournalPayload : Type 0 where
  pub version : ℕ
  pub sequence : ℕ
  pub jobs : List RawJob
  pub deleted : List ℕ

pub record JournalRecord : Type 0 where
  pub payload : JournalPayload
  pub checksum : Text

pub record Disk : Type 0 where
  pub snapshot : Option StoreDocument
  pub v1_backup : Option StoreDocument
  pub journal : List (Option JournalRecord)

-- The members of `JobStore` that change.
pub record JobStore : Type 0 where
  pub persisted_versions : Dict ℕ
  pub journal_sequence : ℕ

-- What the store is built with: the redactor, `persistOutput`, the checksum, and the journal's size.
pub record StoreOptions : Type 0 where
  pub redactor : Redactor
  pub persist_output : Bool
  pub checksum_payload : JournalPayload → Text
  pub journal_bytes : List (Option JournalRecord) → ℕ

-- `MAX_JOURNAL_BYTES`
abbrev pub max_journal_bytes : ℕ
max_journal_bytes = 16 * 1024 * 1024

-- `JOB_STORE_VERSION`
abbrev pub job_store_version : ℕ
job_store_version = 2

-- A job of the snapshot or of the journal, as `normalizeJob` reads it.
abbrev pub read_job : StoreOptions → RawJob → Option JobRecord
read_job o raw = normalize_job o.redactor o.persist_output raw

-- A job of the snapshot goes into the map.
pub add_job : Option JobRecord → Dict JobRecord → Dict JobRecord
add_job none jobs = jobs
add_job (some job) jobs = insert job.id job jobs

pub add_jobs : StoreOptions → List RawJob → Dict JobRecord → Dict JobRecord
unfolding add_job
add_jobs o [] jobs = jobs
add_jobs o (raw ∷ rest) jobs = add_jobs o rest (add_job (read_job o raw) jobs)

pub delete_each : List ℕ → Dict JobRecord → Dict JobRecord
delete_each [] jobs = jobs
delete_each (id ∷ ids) jobs = delete_each ids (erase id jobs)

-- A job of the journal goes into the map, unless a newer one is there.
pub merge_job : Option JobRecord → Dict JobRecord → Dict JobRecord
merge_job none jobs = jobs
merge_job (some job) jobs = elim (lookup job.id jobs) [
  | none ↦ insert job.id job jobs
  | some current ↦ if leb current.version job.version then insert job.id job jobs else jobs
]

pub merge_jobs : StoreOptions → List RawJob → Dict JobRecord → Dict JobRecord
unfolding merge_job
merge_jobs o [] jobs = jobs
merge_jobs o (raw ∷ rest) jobs = merge_jobs o rest (merge_job (read_job o raw) jobs)

-- The test of `replayJournal` that a record is the next one, and whole.
pub is_next : StoreOptions → ℕ → JournalRecord → Bool
is_next o expected line =
    line.payload.version == 2
    && line.payload.sequence == expected
    && text_eq line.checksum (o.checksum_payload line.payload)

-- The loop of `replayJournal`, from the sequence that it expects: the jobs and `journalSequence`.
pub replay_each :
    StoreOptions → ℕ → List (Option JournalRecord) → Dict JobRecord → ℕ → Dict JobRecord × ℕ
unfolding merge_jobs delete_each is_next
replay_each o expected [] jobs sequence = (jobs, sequence)
replay_each o expected (none ∷ lines) jobs sequence = (jobs, sequence)
replay_each o expected (some line ∷ lines) jobs sequence =
    let rest =
      replay_each o (expected + 1) lines
        (merge_jobs o line.payload.jobs (delete_each line.payload.deleted jobs))
        (max sequence line.payload.sequence) in
    if is_next o expected line then rest else (jobs, sequence)

-- `replayJournal`
pub replay_journal :
    StoreOptions → List (Option JournalRecord) → Dict JobRecord → ℕ → Dict JobRecord × ℕ
unfolding replay_each
replay_journal o lines jobs sequence = replay_each o 1 lines jobs sequence

abbrev is_readable : StoreDocument → Bool
is_readable document = document.version == 1 || document.version == job_store_version

-- The jobs of the snapshot.
pub snapshot_jobs : StoreOptions → Option StoreDocument → Dict JobRecord
unfolding add_jobs
snapshot_jobs o none = []
snapshot_jobs o (some document) = if is_readable document then add_jobs o document.jobs [] else []

-- The map of jobs that `load` builds.
pub recover : StoreOptions → Disk → Dict JobRecord
unfolding snapshot_jobs replay_journal
recover o disk = (replay_journal o disk.journal (snapshot_jobs o disk.snapshot) 0).0

pub set_versions : List JobRecord → Dict ℕ → Dict ℕ
set_versions [] versions = versions
set_versions (job ∷ jobs) versions = set_versions jobs (insert job.id job.version versions)

-- `backupV1Snapshot`, which a snapshot of version 1 asks for.
backup_v1 : Disk → Disk
backup_v1 disk = elim disk.snapshot [
  | none ↦ disk
  | some document ↦
      if document.version == 1 && not (is_some disk.v1_backup)
      then record disk { v1_backup = some document }
      else disk
]

-- `load` of a new store.
pub load : StoreOptions → Disk → List JobRecord × JobStore × Disk
unfolding recover set_versions backup_v1
load o disk =
    let jobs = values (recover o disk) in
    (
      jobs,
      record {
        persisted_versions = set_versions jobs [];
        journal_sequence = (replay_journal o disk.journal (snapshot_jobs o disk.snapshot) 0).1;
      },
      backup_v1 disk,
    )

-- Whether the version of a job is the one that was written last.
pub is_persisted : Dict ℕ → JobRecord → Bool
is_persisted versions job = elim (lookup job.id versions) [
  | none ↦ false
  | some v ↦ v == job.version
]

abbrev pub ids_of : List JobRecord → List ℕ
ids_of [] = []
ids_of (job ∷ jobs) = job.id ∷ ids_of jobs

-- The journal's payload for the serialized jobs.
pub save_payload : JobStore → List JobRecord → JournalPayload
unfolding is_persisted
save_payload store serialized = record {
  version = 2;
  sequence = store.journal_sequence + 1;
  jobs = map raw_of (filter (λ job. not (is_persisted store.persisted_versions job)) serialized);
  deleted = filter (λ id. not (contains id (ids_of serialized))) (keys store.persisted_versions);
}

-- `save` up to the end of `appendJournal`.
pub journaled : StoreOptions → List JobRecord → JobStore × Disk → JobStore × Disk
unfolding save_payload
journaled o serialized (store, disk) =
    let payload = save_payload store serialized in
    let line : JournalRecord = record {
      payload = payload;
      checksum = o.checksum_payload payload;
    } in
    if is_empty payload.jobs && is_empty payload.deleted then (store, disk) else (
      record store { journal_sequence = payload.sequence },
      record disk { journal = disk.journal ++ some line ∷ [] },
    )

-- `compactJournalIfNeeded`
pub compact : StoreOptions → JobStore × Disk → JobStore × Disk
compact o (store, disk) =
    if leb (o.journal_bytes disk.journal) max_journal_bytes
    then (store, disk)
    else (record store { journal_sequence = 0 }, record disk { journal = [] })

-- The rename of the new snapshot, and the versions that `save` notes.
pub snapshotted : List JobRecord → JobStore × Disk → JobStore × Disk
unfolding set_versions
snapshotted serialized (store, disk) = (
  record store { persisted_versions = set_versions serialized [] },
  record disk {
    snapshot = some (record { version = job_store_version; jobs = map raw_of serialized });
  },
)

-- `save`
pub save : StoreOptions → List JobRecord → JobStore × Disk → JobStore × Disk
unfolding journaled snapshotted compact
save o jobs s =
    let serialized = map (serialize o.redactor o.persist_output) jobs in
    compact o (snapshotted serialized (journaled o serialized s))
