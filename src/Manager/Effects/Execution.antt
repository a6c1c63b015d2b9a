-- ===== src/Manager/Effects/Execution.antt =====
-- `changed` and `append` leave the `execution` of every job alone.
use run_beacon.Base.{
  ℕ, ◌+◌, ◌≡◌, refl, ap, ◌∙◌, inl, inr, [], ◌∷◌, true, Option, none, some, Option-cases, Bool-cases,
  ◌==◌, ==_iff,
}
use run_beacon.Base.Dict.{Dict, lookup, insert, lookup-insert}
use run_beacon.Base.Text.{Text}
use run_beacon.Types.{JobRecord, JobExecution, JobOutputStream}
use run_beacon.Manager.{Manager}
use run_beacon.Manager.Effects.{changed, append, append_record, notify_watchers}
use run_beacon.Manager.Effects.Quiet.{notify_watchers-Beside, resolve_waits-Beside}

abbrev pub execution_of : Option JobRecord → Option JobExecution
execution_of none = none
execution_of (some j) = some j.execution

abbrev pub execution_at : ℕ → Manager → Option JobExecution
execution_at id m = execution_of (lookup id m.jobs)

-- A job that is written back with its execution.
execution-insert :
    (k id : ℕ) (j j' : JobRecord) (d : Dict JobRecord)
    → lookup id d ≡ some j
    → j'.execution ≡ j.execution
    → execution_of (lookup k (insert id j' d)) ≡ execution_of (lookup k d)
execution-insert k id j j' d e same = elim (Bool-cases (id == k)) [
  | inl t ↦ rw (lookup-insert id k j' d, t, ← (==_iff id k).0 t, e) (ap some same)
  | inr f ↦ rw (lookup-insert id k j' d, f) refl
]

pub changed-execution :
    (now id k : ℕ) (m : Manager) → execution_at k (changed now id m) ≡ execution_at k m
unfolding changed
changed-execution now id k m = elim (Option-cases (lookup id m.jobs)) [
  | inl e ↦ rw (changed, e) refl
  | inr (j, e) ↦
      let j' = record j { version = j.version + 1; updated_at = now } in
      let m₁ = record m { jobs = insert id j' m.jobs; persistence_timer = true } in
      rw (changed, e)
        (ap (λ d. execution_of (lookup k d))
            ((resolve_waits-Beside id j' (notify_watchers id j' m₁)).jobs
              ∙ (notify_watchers-Beside id j' m₁).jobs)
          ∙ execution-insert k id j j' m.jobs e refl)
]

pub append-execution :
    (now id : ℕ) (s : JobOutputStream) (t : Text) (k : ℕ) (m : Manager)
    → execution_at k (append now id s t m) ≡ execution_at k m
unfolding append append_record
append-execution now id s [] k m = refl
append-execution now id s (b ∷ bs) k m = elim (Option-cases (lookup id m.jobs)) [
  | inl e ↦ rw (append, e) refl
  | inr (j, e) ↦
      rw (append, e) (changed-execution now id k _ ∙ execution-insert k id j _ m.jobs e refl)
]
