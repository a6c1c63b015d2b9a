-- ===== src/Manager/Runner/Submit/Fallback.antt =====
-- When src/lifecycle/LifecycleManager.ts runs a job over plain SSH in place of a runner.
use run_beacon.Base.{
  ℕ, zero, suc, ◌⊎◌, ◌≡◌, refl, sym, ap, ◌∙◌, inl, inr, List, [], ◌∷◌, Bool, true, false, not, ◌&&◌,
  ◌||◌, Option, some, arith, Option-cases, Bool-cases, get_or, leb,
}
use run_beacon.Types.{ExecutionMode}
use run_beacon.Manager.{Manager, StartJobInput}
use run_beacon.Manager.Run.{is_ssh}
use run_beacon.Manager.Runner.{
  RunnerJob, Watched, runner_unavailable, runner_not_installed, idempotency_conflict,
  remote_state_lost, other_code, RunnerError, transport_error, plain_error, not_reattached,
  Reply-cases, Turn, RunnerEnd, returned, thrown, direct_ssh, waiting, is_conflict, watch_error,
  is_read, watch_loop, read_watched, reconnecting_record, modify,
}
use run_beacon.Manager.Effects.{changed}
use run_beacon.Manager.Runner.Submit.{
  watch_runner_job, RunnerReplies, Submission, accepted, refused, unanswered, is_transport,
  submit_each, run_runner, after_submit, is_unavailable, falls_back, catch_runner, run_ssh_job,
  is_auto,
}

-- An error says that there is no runner only if `submit` was not called; no end is a call of `runSsh`.
abbrev AtMostOnce : RunnerEnd → ℕ → Type 0
AtMostOnce (returned r) calls = Unit {0}
AtMostOnce (thrown e) calls = is_unavailable e ≡ true → calls ≡ 0
AtMostOnce direct_ssh calls = ⊥
AtMostOnce waiting calls = Unit

conflict_available : (e : RunnerError) → is_conflict e ≡ true → is_unavailable e ≡ false
unfolding is_conflict is_unavailable
conflict_available (transport_error runner_unavailable a t) h = ground arith
conflict_available (transport_error runner_not_installed a t) h = ground arith
conflict_available (transport_error idempotency_conflict a t) h = refl
conflict_available (transport_error remote_state_lost a t) h = refl
conflict_available (transport_error other_code a t) h = refl
conflict_available (plain_error t) h = refl

watch_error_available :
    (deadline now : ℕ) (e f : RunnerError)
    → watch_error deadline now e ≡ some f
    → is_unavailable f ≡ false
unfolding watch_error is_unavailable
watch_error_available deadline now e f h = elim (Bool-cases (is_conflict e)) [
  | inl t ↦
      let same : e ≡ f = ground (arith, rw (watch_error, t) at h) in
      rw (← same) (conflict_available e t)
  | inr n ↦ elim (Bool-cases (leb deadline now)) [
    | inl t ↦
        let same : not_reattached ≡ f = ground (arith, rw (watch_error, n, t) at h) in
        rw (← same) refl
    | inr l ↦ ground (arith, rw (watch_error, n, l) at h)
  ]
]

watch_loop-AtMostOnce :
    (id deadline now : ℕ) (remote : RunnerJob) (turns : List (Turn Watched)) (m : Manager)
    (calls : ℕ)
    → AtMostOnce (watch_loop id deadline now remote turns m).0 calls
unfolding watch_loop
watch_loop-AtMostOnce id deadline now remote [] m calls = elim (Bool-cases (is_read id remote m)) [
  | inl t ↦ rw (watch_loop, t) tt
  | inr f ↦ rw (watch_loop, f) tt
]
watch_loop-AtMostOnce id deadline now remote (turn ∷ turns) m calls =
    elim (Bool-cases (is_read id remote m)) [
      | inl t ↦ rw (watch_loop, t) tt
      | inr f ↦ elim (Reply-cases turn.reply) [
        | inl (w, e) ↦
            rw (watch_loop, f, e)
              (watch_loop-AtMostOnce id deadline turn.now w.job turns
                (read_watched turn.now id w (turn.between m)) calls)
        | inr (e, r) ↦ elim (Option-cases (watch_error deadline turn.now e)) [
          | inl n ↦
              rw (watch_loop, f, r, n)
                (watch_loop-AtMostOnce id deadline turn.now remote turns
                  (turn.delayed (
                    changed turn.now id
                      (modify id (reconnecting_record turn.now) (turn.between m))))
                  calls)
          | inr (g, n) ↦
              rw (watch_loop, f, r, n)
                (λ u. absurd (ground (arith, u, watch_error_available deadline turn.now e g n)))
        ]
      ]
    ]

-- A refused submission does not say that there is no runner.
abbrev IsFinal : Submission → Type 0
IsFinal (refused e) = is_unavailable e ≡ false
IsFinal _ = Unit {0}

refused_available :
    (e : RunnerError) → (not (is_transport e) || is_conflict e) ≡ true → is_unavailable e ≡ false
unfolding is_transport is_unavailable
refused_available (plain_error t) h = refl
refused_available (transport_error c a t) h = conflict_available (transport_error c a t) h

submit_each-IsFinal :
    (n : ℕ) (turns : List (Turn (Option RunnerJob))) (m : Manager)
    → IsFinal (submit_each n turns m).0
unfolding submit_each is_unavailable
submit_each-IsFinal zero turns m = refl
submit_each-IsFinal (suc n) [] m = tt
submit_each-IsFinal (suc n) (turn ∷ turns) m = elim (Reply-cases turn.reply) [
  | inl (r, e) ↦ elim (Option-cases r) [
    | inl n ↦ rw (submit_each, e, n) refl
    | inr (job, n) ↦ rw (submit_each, e, n) tt
  ]
  | inr (error, e) ↦ elim (Bool-cases (not (is_transport error) || is_conflict error)) [
    | inl t ↦ rw (submit_each, e, t) (refused_available error t)
    | inr f ↦ rw (submit_each, e, f) (submit_each-IsFinal n turns _)
  ]
]

after_submit-AtMostOnce :
    (id : ℕ) (input : StartJobInput) (watches : List (Turn Watched)) (end : Submission) (calls : ℕ)
    (m : Manager)
    → IsFinal end
    → let out = after_submit id input watches end calls m in AtMostOnce out.0 out.1
unfolding after_submit watch_runner_job
after_submit-AtMostOnce id input watches (refused e) calls m h = λ u. absurd (ground (arith, u, h))
after_submit-AtMostOnce id input watches unanswered calls m h = tt
after_submit-AtMostOnce id input watches (accepted remote now) calls m h =
    watch_loop-AtMostOnce id _ now remote watches _ calls

run_runner-AtMostOnce :
    (attempts id : ℕ) (input : StartJobInput) (replies : RunnerReplies) (m : Manager)
    → let out = run_runner attempts id input replies m in AtMostOnce out.0 out.1
unfolding run_runner
run_runner-AtMostOnce attempts id input replies m = elim (Bool-cases (is_ssh input)) [
  | inr f ↦ rw (run_runner, f) (λ u. refl)
  | inl t ↦ elim (Option-cases replies.ping) [
    | inl n ↦ rw (run_runner, t, n) tt
    | inr (turn, p) ↦ elim (Reply-cases turn.reply) [
      | inr (e, r) ↦ rw (run_runner, t, p, r) (λ u. refl)
      | inl (v, r) ↦
          rw (run_runner, t, p, r)
            (after_submit-AtMostOnce id input replies.watches _ _ _
              (submit_each-IsFinal attempts replies.submits _))
    ]
  ]
]

falls_back_parts :
    (mode : ExecutionMode) (durable unavailable : Bool)
    → (is_auto mode && not durable && unavailable) ≡ true
    → (mode ≡ ExecutionMode.auto) × ((durable ≡ false) × (unavailable ≡ true))
unfolding is_auto
falls_back_parts ExecutionMode.auto false true h = (refl, (refl, refl))
falls_back_parts ExecutionMode.auto false false h = ground arith
falls_back_parts ExecutionMode.auto true u h = ground arith
falls_back_parts ExecutionMode.direct d u h = ground arith
falls_back_parts ExecutionMode.runner d u h = ground arith

abbrev pub mode_of : StartJobInput → ExecutionMode
mode_of input = get_or input.execution_mode ExecutionMode.auto

catch_runner-AtMostOnce :
    (now id : ℕ) (input : StartJobInput) (end : RunnerEnd) (calls : ℕ) (m : Manager)
    → AtMostOnce end calls
    → let out = catch_runner now id input end calls m in
      out.0 ≡ direct_ssh
      → (out.1 ≡ 0) × ((mode_of input ≡ ExecutionMode.auto) × (input.require_durable ≡ false))
unfolding catch_runner falls_back
catch_runner-AtMostOnce now id input (returned r) calls m h e = ground arith
catch_runner-AtMostOnce now id input waiting calls m h e = ground arith
catch_runner-AtMostOnce now id input direct_ssh calls m h e = absurd h
catch_runner-AtMostOnce now id input (thrown error) calls m h e =
    elim (Bool-cases (falls_back input error)) [
      | inl t ↦
          let (auto, (durable, gone)) =
            falls_back_parts (mode_of input) input.require_durable (is_unavailable error) t in
          rw (catch_runner, t) (h gone, (auto, durable))
      | inr f ↦ ground (arith, rw (catch_runner, f) at e)
    ]

ExecutionMode-cases :
    (mode : ExecutionMode)
    → (mode ≡ ExecutionMode.direct) ⊎ ((mode ≡ ExecutionMode.auto) ⊎ (mode ≡ ExecutionMode.runner))
ExecutionMode-cases ExecutionMode.direct = inl refl
ExecutionMode-cases ExecutionMode.auto = inr (inl refl)
ExecutionMode-cases ExecutionMode.runner = inr (inr refl)

-- Whatever the runner replies, `runSshJob` runs a job over plain SSH only where `submit` was never
-- called, and only if the mode is `direct`, or it is `auto` and no durable run is required: a job that a
-- runner may have taken is not started a second time.
pub run_ssh_job-direct :
    (attempts now id : ℕ) (input : StartJobInput) (replies : RunnerReplies) (m : Manager)
    → let out = run_ssh_job attempts now id input replies m in
      out.0 ≡ direct_ssh
      → (out.1 ≡ 0)
        × ((mode_of input ≡ ExecutionMode.direct)
            ⊎ ((mode_of input ≡ ExecutionMode.auto) × (input.require_durable ≡ false)))
unfolding run_ssh_job
run_ssh_job-direct attempts now id input replies m e = elim (ExecutionMode-cases (mode_of input)) [
  | inl d ↦ rw (run_ssh_job, d) (refl, inl refl)
  | inr (inl a) ↦ through (rw (run_ssh_job, a) refl)
  | inr (inr r) ↦ through (rw (run_ssh_job, r) refl)
]
  where
    through :
        (let run = run_runner attempts id input replies m in
          run_ssh_job attempts now id input replies m ≡ catch_runner now id input run.0 run.1 run.2)
        → ((run_ssh_job attempts now id input replies m).1 ≡ 0)
          × ((mode_of input ≡ ExecutionMode.direct)
              ⊎ ((mode_of input ≡ ExecutionMode.auto) × (input.require_durable ≡ false)))
    through same =
        let (none_sent, rest) =
          catch_runner-AtMostOnce now id input _ _ _
            (run_runner-AtMostOnce attempts id input replies m)
            (ap (λ out. out.0) (sym same) ∙ e) in
        (ap (λ out. out.1) same ∙ none_sent, inr rest)
