-- ===== src/GitHubActions/Watching.antt =====
-- What the second loop of src/lifecycle/GitHubActionsMonitor.ts settles on.
use run_beacon.Base.{
  ℕ, ◌≡◌, ◌≢◌, ◌⊎◌, refl, ap, inl, inr, List, [], ◌∷◌, Bool, true, false, not, Option, none, some,
  leb, all, any, All, Any, arith, Bool-cases,
}
use run_beacon.Base.Text.{Text, ascii, text_eq, text_eq_refl, text_eq_sound}
use run_beacon.GitHubApi.{GitHubApiError}
use run_beacon.GitPush.{is_successful_actions_conclusion}
use run_beacon.GitHubActions.{
  WorkflowRun, GitHubActionsOutcome, passed, failed, timed_out, unavailable, MonitorInput,
  WatchRound, Fetched, runs, refused, threw, unsettled, fetch_workflow_runs, summarize,
  is_completed, settled, expired, refreshed, watch,
}

-- A conclusion that counts as success.
abbrev pub IsSuccess : Option Text → Type 0
IsSuccess conclusion =
    (conclusion ≡ some (ascii "success"))
    ⊎ ((conclusion ≡ some (ascii "neutral")) ⊎ (conclusion ≡ some (ascii "skipped")))

abbrev pub IsGood : WorkflowRun → Type 0
IsGood run = IsSuccess run.conclusion

abbrev pub IsDone : WorkflowRun → Type 0
IsDone run = run.status ≡ ascii "completed"

-- What an outcome says of the runs that it was made of.
abbrev pub IsVerdict : (List WorkflowRun → Type 0) → GitHubActionsOutcome → Type 0
IsVerdict P (passed s) =
    (rs : List WorkflowRun) × (P rs
      × ((rs ≢ []) × (All IsDone rs × (All IsGood rs × (s ≡ summarize rs)))))
IsVerdict P (failed s) =
    (rs : List WorkflowRun) × (P rs
      × (All IsDone rs × (Any (λ run. ¬ (IsGood run)) rs × (s ≡ summarize rs))))
IsVerdict P (timed_out s) =
    (rs : List WorkflowRun) × (P rs × (Any (λ run. ¬ (IsDone run)) rs × (s ≡ summarize rs)))
IsVerdict P (unavailable code) = Unit

abbrev pub IsFair : (List WorkflowRun → Type 0) → Option GitHubActionsOutcome → Type 0
IsFair P none = Unit
IsFair P (some outcome) = IsVerdict P outcome

conclusion-IsSuccess : (c : Option Text) → is_successful_actions_conclusion c ≡ true → IsSuccess c
unfolding is_successful_actions_conclusion
conclusion-IsSuccess none h = absurd (cc)
conclusion-IsSuccess (some t) h = elim (Bool-cases (text_eq t (ascii "success"))) [
  | inl a ↦ inl (ap some (text_eq_sound t _ a))
  | inr na ↦ elim (Bool-cases (text_eq t (ascii "neutral"))) [
    | inl b ↦ inr (inl (ap some (text_eq_sound t _ b)))
    | inr nb ↦ inr (inr (ap some (text_eq_sound t (ascii "skipped") (rw (na, nb) at h))))
  ]
]

not-IsSuccess : (c : Option Text) → is_successful_actions_conclusion c ≡ false → ¬ (IsSuccess c)
unfolding is_successful_actions_conclusion
not-IsSuccess c h (inl e) = let t : is_successful_actions_conclusion c ≡ true = rw e refl in cc
not-IsSuccess c h (inr (inl e)) =
    let t : is_successful_actions_conclusion c ≡ true = rw e refl in cc
not-IsSuccess c h (inr (inr e)) =
    let t : is_successful_actions_conclusion c ≡ true = rw e refl in cc

IsDone-of : (rs : List WorkflowRun) → all is_completed rs ≡ true → All IsDone rs
IsDone-of [] h = tt
IsDone-of (r ∷ rs) h = elim (Bool-cases (is_completed r)) [
  | inl e ↦ (text_eq_sound r.status _ e, IsDone-of rs (rw e at h))
  | inr e ↦ absurd (ground (arith, e, h))
]

not-IsDone-of :
    (rs : List WorkflowRun) → all is_completed rs ≡ false → Any (λ run. ¬ (IsDone run)) rs
not-IsDone-of [] h = absurd (cc)
not-IsDone-of (r ∷ rs) h = elim (Bool-cases (is_completed r)) [
  | inl e ↦ inr (not-IsDone-of rs (rw e at h))
  | inr e ↦ inl (λ d. let t : is_completed r ≡ true = rw d (text_eq_refl (ascii "completed")) in cc)
]

abbrev fails : WorkflowRun → Bool
fails run = not (is_successful_actions_conclusion run.conclusion)

All-IsGood : (rs : List WorkflowRun) → any fails rs ≡ false → All IsGood rs
All-IsGood [] h = tt
All-IsGood (r ∷ rs) h = elim (Bool-cases (is_successful_actions_conclusion r.conclusion)) [
  | inl e ↦ (conclusion-IsSuccess r.conclusion e, All-IsGood rs (rw e at h))
  | inr e ↦ absurd (ground (arith, e, h))
]

Any-not-IsGood : (rs : List WorkflowRun) → any fails rs ≡ true → Any (λ run. ¬ (IsGood run)) rs
Any-not-IsGood [] h = absurd (cc)
Any-not-IsGood (r ∷ rs) h = elim (Bool-cases (is_successful_actions_conclusion r.conclusion)) [
  | inl e ↦ inr (Any-not-IsGood rs (rw e at h))
  | inr e ↦ inl (not-IsSuccess r.conclusion e)
]

pub Fetched-cases :
    (f : Fetched)
    → ((rs : List WorkflowRun) × (f ≡ runs rs))
      ⊎ (((e : GitHubApiError) × (f ≡ refused e)) ⊎ ((f ≡ threw) ⊎ (f ≡ unsettled)))
Fetched-cases (runs rs) = inl (rs, refl)
Fetched-cases (refused e) = inr (inl (e, refl))
Fetched-cases threw = inr (inr (inl refl))
Fetched-cases unsettled = inr (inr (inr refl))

module _ (P : List WorkflowRun → Type 0) where
  settled-IsVerdict :
      (rs : List WorkflowRun)
      → P rs
      → rs ≢ []
      → all is_completed rs ≡ true
      → IsVerdict P (settled rs)
  unfolding settled
  settled-IsVerdict rs p ne done = elim (Bool-cases (any fails rs)) [
    | inl e ↦ rw e (rs, (p, (IsDone-of rs done, (Any-not-IsGood rs e, refl))))
    | inr e ↦ rw e (rs, (p, (ne, (IsDone-of rs done, (All-IsGood rs e, refl)))))
  ]

  expired-IsVerdict :
      (rs : List WorkflowRun) (last : Option GitHubApiError)
      → P rs
      → all is_completed rs ≡ false
      → IsVerdict P (expired rs last)
  unfolding expired
  expired-IsVerdict rs none p e = (rs, (p, (not-IsDone-of rs e, refl)))
  expired-IsVerdict rs (some x) p e = tt

  -- A refresh keeps runs that were replied and are not empty.
  refreshed_lem :
      (old new : List WorkflowRun)
      → P old
      → old ≢ []
      → P new
      → P (refreshed old new) × (refreshed old new ≢ [])
  refreshed_lem old [] p ne q = (p, ne)
  refreshed_lem old (x ∷ xs) p ne q = (q, λ e. cc)

  pub watch-IsFair :
      (input : MonitorInput) (deadline : ℕ) (rs : List WorkflowRun) (last : Option GitHubApiError)
      (rounds : List WatchRound)
      → P rs
      → rs ≢ []
      → All
          (λ (r : WatchRound).
            (new : List WorkflowRun)
            → fetch_workflow_runs input deadline r.attempts ≡ runs new
            → P new)
          rounds
      → IsFair P (watch input deadline rs last rounds).0
  unfolding watch
  watch-IsFair input deadline rs last [] p ne keep = elim (Bool-cases (all is_completed rs)) [
    | inl e ↦ rw e (settled-IsVerdict rs p ne e)
    | inr e ↦ rw e tt
  ]
  watch-IsFair input deadline rs last (r ∷ rounds) p ne keep =
      elim (Bool-cases (all is_completed rs)) [
        | inl e ↦ rw (watch, e) (settled-IsVerdict rs p ne e)
        | inr e ↦ elim (Bool-cases (leb deadline r.now)) [
          | inl t ↦ rw (watch, e, t) (expired-IsVerdict rs last p e)
          | inr f ↦ elim (Fetched-cases (fetch_workflow_runs input deadline r.attempts)) [
            | inl (new, g) ↦
                let (p', ne') = refreshed_lem rs new p ne (keep.0 new g) in
                rw (watch, e, f, g)
                  (watch-IsFair input deadline (refreshed rs new) none rounds p' ne' keep.1)
            | inr (inl (x, g)) ↦ elim (Bool-cases x.retryable) [
              | inl t ↦
                  rw (watch, e, f, g, t)
                    (watch-IsFair input deadline rs (some x) rounds p ne keep.1)
              | inr t ↦ rw (watch, e, f, g, t) tt
            ]
            | inr (inr (inl g)) ↦ rw (watch, e, f, g) tt
            | inr (inr (inr g)) ↦ rw (watch, e, f, g) tt
          ]
        ]
      ]
