-- ===== src/Store/Journal/Recovery.antt =====
-- What the files of src/lifecycle/JobStore.ts hold of each job between two steps of `save`.
use run_beacon.Base.{
  ℕ, suc, ◌+◌, ◌≤◌, ◌≡◌, refl, sym, ap, ◌∙◌, inl, inr, List, [], ◌∷◌, ◌++◌, Bool, false, ◌&&◌,
  Option, none, some, arith, Bool-cases, Option-cases, if◌then◌else◌, All, All-append, filter,
  length, not, ◌==◌, ==_iff, contains, is_some,
}
use mathlib.Core.List.{append-nil}
use run_beacon.Base.Dict.{lookup, IsUnique, keys}
use run_beacon.Types.{JobRecord}
use run_beacon.Store.{map_some}
use run_beacon.Store.Journal.{
  StoreOptions, Disk, JobStore, snapshot_jobs, recover, replay_journal, is_persisted, ids_of,
}
use run_beacon.Store.Journal.Cells.{
  del, Settled, Settled-nil, Settled-Update, Update, keep, change, drop, crashed, run_ops,
  run_ops-append,
}
use run_beacon.Store.Journal.Replay.{
  IsStable, Entry, lines_of, line_of, lines_of-append, ops_of, ops_of-append, lookup-replay_each,
}
use run_beacon.Store.Journal.Index.{
  id-lookup, by_id, puts-filter, contains-filter, contains-keys, contains-ids_of, put_if,
}
use run_beacon.Store.Journal.Keyed.{IsKeyed-snapshot_jobs}

abbrev pub Cells : Type 0
Cells = ℕ → Option JobRecord

abbrev pub cells_of : List JobRecord → Cells
cells_of jobs k = lookup k (by_id jobs)

-- The journal is whole, and what it makes of each job of the snapshot, old or new, is the job.
pub record Holds (o : StoreOptions) (cells : Cells) (disk : Disk) : Type 0 where
  pub entries : List Entry
  pub lines : disk.journal ≡ lines_of o 1 entries
  pub stable : All (λ e. All (IsStable o) e.jobs) entries
  pub read :
      (k : ℕ) → run_ops (ops_of k entries) (lookup k (snapshot_jobs o disk.snapshot)) ≡ cells k
  pub settled : (k : ℕ) → Settled (ops_of k entries) (cells k)

-- The store in memory has the number of the last record and the versions of the jobs.
pub record Knows (cells : Cells) (s : JobStore × Disk) : Type 0 where
  pub sequence : s.0.journal_sequence ≡ length s.1.journal
  pub versions :
      (k : ℕ) → lookup k s.0.persisted_versions ≡ map_some (λ (j : JobRecord). j.version) (cells k)

-- The jobs of a save: they are read back as written, each has its id, and a job changes only with a
-- new version.
pub record Ready (o : StoreOptions) (cells : Cells) (new : List JobRecord) : Type 0 where
  pub stable : All (IsStable o) new
  pub unique : IsUnique (by_id new)
  pub steady :
      (k : ℕ) (b j : JobRecord)
      → cells k ≡ some b
      → cells_of new k ≡ some j
      → (b.version ≤ j.version) × (b.version ≡ j.version → b ≡ j)

length-lines_of :
    (o : StoreOptions) (n : ℕ) (es : List Entry) → length (lines_of o n es) ≡ length es
length-lines_of o n [] = refl
length-lines_of o n (e ∷ es) = ap suc (length-lines_of o (n + 1) es)

pub recover-Holds :
    (o : StoreOptions) (cells : Cells) (disk : Disk)
    → Holds o cells disk
    → (k : ℕ)
    → (lookup k (recover o disk) ≡ cells k)
      × ((replay_journal o disk.journal (snapshot_jobs o disk.snapshot) 0).1 ≡ length disk.journal)
unfolding recover replay_journal
recover-Holds o cells disk h k =
    let (found, number) =
      lookup-replay_each k o 0 h.entries (snapshot_jobs o disk.snapshot) h.stable
        (IsKeyed-snapshot_jobs o disk.snapshot).0 in
    let numbered : 0 + length h.entries ≡ length (lines_of o 1 h.entries) =
      omega (arith, length-lines_of o 1 h.entries) in
    rw h.lines (found ∙ h.read k, number ∙ numbered)

pub Holds-same :
    {o : StoreOptions} {cells cells' : Cells} {disk : Disk}
    → Holds o cells disk
    → ((k : ℕ) → cells' k ≡ cells k)
    → Holds o cells' disk
Holds-same h e = record {
  entries = h.entries;
  lines = h.lines;
  stable = h.stable;
  read = λ k. h.read k ∙ sym (e k);
  settled = λ k. rw (e k) (h.settled k);
}

pub Holds-append :
    {o : StoreOptions} {cells cells' : Cells} {disk : Disk} (e : Entry)
    → Holds o cells disk
    → All (IsStable o) e.jobs
    → ((k : ℕ) → Update (cells k) (ops_of k (e ∷ [])) (cells' k))
    → Holds o cells' (record disk {
      journal = disk.journal ++ some (line_of o (1 + length disk.journal) e) ∷ [];
    })
Holds-append {o} {cells} {cells'} {disk} e h all u = record {
  entries = h.entries ++ e ∷ [];
  lines = rw (h.lines, length-lines_of o 1 h.entries) (sym (lines_of-append o 1 h.entries e));
  stable =
      All-append (λ (f : Entry). All (IsStable o) f.jobs) h.entries (e ∷ []) h.stable (all, tt);
  read = λ k.
      rw
        (
          ops_of-append k h.entries (e ∷ []),
          run_ops-append (ops_of k h.entries) (ops_of k (e ∷ []))
              (lookup k (snapshot_jobs o disk.snapshot)),
          h.read k,
        )
        (crashed (Settled-nil (cells k)) (u k));
  settled = λ k. rw (ops_of-append k h.entries (e ∷ [])) (Settled-Update (h.settled k) (u k));
}

-- What `save` writes to the journal.
abbrev pub save_entry : JobStore → List JobRecord → Entry
save_entry store new = record {
  jobs = filter (λ job. not (is_persisted store.persisted_versions job)) new;
  deleted = filter (λ id. not (contains id (ids_of new))) (keys store.persisted_versions);
}

is_some_map :
    (c : Option JobRecord) → is_some (map_some (λ (j : JobRecord). j.version) c) ≡ is_some c
is_some_map none = refl
is_some_map (some j) = refl

abbrev has_version : JobRecord → Option JobRecord → Bool
has_version j none = false
has_version j (some b) = b.version == j.version

module _ {o : StoreOptions} {cells : Cells} {s : JobStore × Disk} {new : List JobRecord}
    (known : Knows cells s) (r : Ready o cells new) (k : ℕ) where
  abbrev is_gone : ℕ → Bool
  is_gone id = not (contains id (ids_of new))

  abbrev pub is_new : JobRecord → Bool
  is_new job = not (is_persisted s.0.persisted_versions job)

  ops_of-save_entry :
      ops_of k (save_entry s.0 new ∷ [])
      ≡ (if is_some (cells k) && not (is_some (cells_of new k)) then del ∷ [] else [])
        ++ put_if is_new (cells_of new k)
  ops_of-save_entry =
      rw
        (
          contains-filter is_gone k (keys s.0.persisted_versions),
          contains-keys k s.0.persisted_versions,
          known.versions k,
          contains-ids_of k new,
          puts-filter k is_new new r.unique,
          append-nil (put_if is_new (cells_of new k)),
          is_some_map (cells k),
        )
        refl

  persisted_as :
      (j : JobRecord) (c : Option JobRecord)
      → lookup j.id s.0.persisted_versions ≡ map_some (λ (i : JobRecord). i.version) c
      → is_persisted s.0.persisted_versions j ≡ has_version j c
  unfolding is_persisted
  persisted_as j none e = rw (is_persisted, e) refl
  persisted_as j (some b) e = rw (is_persisted, e) refl

  is_new_at : (j : JobRecord) → cells_of new k ≡ some j → is_new j ≡ not (has_version j (cells k))
  is_new_at j e =
      let found : lookup j.id s.0.persisted_versions
          ≡ map_some (λ (i : JobRecord). i.version) (cells k) =
        ap (λ i. lookup i s.0.persisted_versions) (id-lookup k new j e) ∙ known.versions k in
      ap not (persisted_as j (cells k) found)

  pub save_entry-Update : Update (cells k) (ops_of k (save_entry s.0 new ∷ [])) (cells_of new k)
  save_entry-Update = rw ops_of-save_entry (elim (Option-cases (cells k)) [
    | inl e ↦ elim (Option-cases (cells_of new k)) [
      | inl e' ↦ rw (e, e') (keep refl)
      | inr (j, e') ↦ rw (e', is_new_at j e', e) (change j tt refl)
    ]
    | inr (b, e) ↦ elim (Option-cases (cells_of new k)) [
      | inl e' ↦ rw (e, e') (drop refl)
      | inr (j, e') ↦ elim (Bool-cases (b.version == j.version)) [
        | inl t ↦
            rw (e', is_new_at j e', e, t)
              (keep (ap some (sym ((r.steady k b j e e').1 ((==_iff b.version j.version).0 t)))))
        | inr f ↦ rw (e', is_new_at j e', e, f) (change j (r.steady k b j e e').0 refl)
      ]
    ]
  ])
