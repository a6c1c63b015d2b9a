-- ===== src/Manager/Runner/Loop.antt =====
-- How the loop of `watchRunnerJob` in src/lifecycle/LifecycleManager.ts ends.
use run_beacon.Base.{
  ℕ, ◌≡◌, ◌≤◌, refl, sym, ap, ◌∙◌, inl, inr, ◌⊎◌, List, [], ◌∷◌, true, arith, Bool-cases,
  Option-cases, get_or,
}
use run_beacon.Base.Dict.{lookup}
use run_beacon.Types.{is_terminal_job_state}
use run_beacon.Manager.{Manager}
use run_beacon.Manager.Effects.{changed}
use run_beacon.Manager.Effects.Execution.{changed-execution}
use run_beacon.Manager.Runner.{
  RunnerJob, Watched, Reply-cases, replied, failed, Turn, RunnerEnd, returned, thrown, direct_ssh,
  waiting, watch_error, is_read, watch_loop, modify, finalizing_record, result_of, last_sequence,
}
use run_beacon.Manager.Runner.Progress.{sequence_of, sequence_at, modify-sequence, moved-same}

-- The remote job after a reply.
abbrev pub job_after : Turn Watched → RunnerJob → RunnerJob
job_after turn first = elim turn.reply [ replied w ↦ w.job | failed e ↦ first ]

-- A remote job that is the first one, or that a reply brought.
abbrev pub IsSeen : RunnerJob → RunnerJob → List (Turn Watched) → Type 0
IsSeen remote first [] = remote ≡ first
IsSeen remote first (turn ∷ turns) = (remote ≡ first) ⊎ IsSeen remote (job_after turn first) turns

-- A result is that of such a job, which has ended, after its last event was read.
abbrev pub IsDrained : ℕ → RunnerJob → List (Turn Watched) → RunnerEnd → Manager → Type 0
IsDrained id first turns (returned r) m =
    (remote : RunnerJob) × (IsSeen remote first turns
      × ((r ≡ result_of remote)
          × ((is_terminal_job_state remote.state ≡ true)
              × (get_or remote.last_event_sequence 0 ≤ last_sequence id m))))
IsDrained id first turns end m = Unit {0}

IsSeen-first : (first : RunnerJob) (turns : List (Turn Watched)) → IsSeen first first turns
IsSeen-first first [] = refl
IsSeen-first first (turn ∷ turns) = inl refl

later :
    (id : ℕ) (first : RunnerJob) (turn : Turn Watched) (turns : List (Turn Watched))
    (end : RunnerEnd) (m : Manager)
    → IsDrained id (job_after turn first) turns end m
    → IsDrained id first (turn ∷ turns) end m
later id first turn turns (returned r) m (remote, (seen, rest)) = (remote, (inr seen, rest))
later id first turn turns (thrown e) m h = tt
later id first turn turns direct_ssh m h = tt
later id first turn turns waiting m h = tt

last_sequence-get_or : (id : ℕ) (m : Manager) → last_sequence id m ≡ get_or (sequence_at id m) 0
unfolding last_sequence
last_sequence-get_or id m = elim (Option-cases (lookup id m.jobs)) [
  | inl e ↦ rw (last_sequence, e) refl
  | inr (j, e) ↦ rw (last_sequence, e) refl
]

is_read_parts :
    (id : ℕ) (remote : RunnerJob) (m : Manager)
    → is_read id remote m ≡ true
    → (is_terminal_job_state remote.state ≡ true)
      × (get_or remote.last_event_sequence 0 ≤ last_sequence id m)
unfolding is_read
is_read_parts id remote m t = elim (Bool-cases (is_terminal_job_state remote.state)) [
  | inl y ↦ (y, ground (arith, rw (is_read, y) at t))
  | inr n ↦ ground (arith, rw (is_read, n) at t)
]

drained :
    (id now : ℕ) (remote : RunnerJob) (turns : List (Turn Watched)) (m : Manager)
    → is_read id remote m ≡ true
    → IsDrained id remote turns
        (returned (result_of remote))
        (changed now id (modify id (finalizing_record now) m))
unfolding finalizing_record
drained id now remote turns m t =
    let same : sequence_at id (changed now id (modify id (finalizing_record now) m))
        ≡ sequence_at id m =
      ap sequence_of (changed-execution now id id (modify id (finalizing_record now) m))
      ∙ modify-sequence id (finalizing_record now) (λ n. n) (λ j. refl) m
      ∙ moved-same (sequence_at id m) in
    let (ended, enough) = is_read_parts id remote m t in
    let after : last_sequence id (changed now id (modify id (finalizing_record now) m))
        ≡ last_sequence id m =
      last_sequence-get_or id (changed now id (modify id (finalizing_record now) m))
      ∙ ap (λ x. get_or x 0) same
      ∙ sym (last_sequence-get_or id m) in
    (remote, (IsSeen-first remote turns, (refl, (ended, rw after enough))))

-- `watchRunnerJob` returns only the result of a remote job that the submission or a reply brought, that
-- has ended, and whose last event sequence the job has reached.
pub watch_loop-IsDrained :
    (id deadline now : ℕ) (remote : RunnerJob) (turns : List (Turn Watched)) (m : Manager)
    → let out = watch_loop id deadline now remote turns m in IsDrained id remote turns out.0 out.1
unfolding watch_loop
watch_loop-IsDrained id deadline now remote [] m = elim (Bool-cases (is_read id remote m)) [
  | inl t ↦ rw (watch_loop, t) (drained id now remote [] m t)
  | inr f ↦ rw (watch_loop, f) tt
]
watch_loop-IsDrained id deadline now remote (turn ∷ turns) m =
    elim (Bool-cases (is_read id remote m)) [
      | inl t ↦ rw (watch_loop, t) (drained id now remote (turn ∷ turns) m t)
      | inr f ↦ elim (Reply-cases turn.reply) [
        | inl (w, e) ↦
            later id remote turn turns _ _
              (rw (watch_loop, f, e) (watch_loop-IsDrained id deadline turn.now w.job turns _))
        | inr (e, r) ↦ elim (Option-cases (watch_error deadline turn.now e)) [
          | inl n ↦
              later id remote turn turns _ _ (
                rw (watch_loop, f, r, n) (watch_loop-IsDrained id deadline turn.now remote turns _))
          | inr (g, n) ↦ rw (watch_loop, f, r, n) tt
        ]
      ]
    ]
