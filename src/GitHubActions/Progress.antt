-- ===== src/GitHubActions/Progress.antt =====
-- src/lifecycle/GitHubActionsMonitor.ts ends, and keeps its pace.
use run_beacon.Base.{
  ℕ, ◌+◌, ◌≤◌, ◌≡◌, refl, inl, inr, List, [], ◌∷◌, Option, none, some, ltb, leb, length, all, All,
  Any, List-cases, arith, Bool-cases,
}
use run_beacon.Base.Text.{Text}
use run_beacon.GitHubApi.{
  GitHubApiError, Attempt, Outcome, got, thrown, pending, get_json, max_attempts_of,
}
use run_beacon.GitHubApi.Ends.{Returns, get_json-Returns}
use run_beacon.GitHubActions.{
  WorkflowRun, Body, object, null, GitHubActionsOutcome, MonitorInput, DiscoveryRound, WatchRound,
  Step, unsettled, fetched_of, fetch_workflow_runs, Discovery, found, closed, waiting, discover,
  is_completed, refreshed, watch, after_discovery, monitor_git_hub_actions,
}
use run_beacon.GitHubActions.Watching.{Fetched-cases}

fetched_of-Returns : (sha : Text) (o : Outcome Body) → Returns o → fetched_of sha o ≡ unsettled → ⊥
unfolding fetched_of
fetched_of-Returns sha (got (object o)) h e = cc
fetched_of-Returns sha (got null) h e = cc
fetched_of-Returns sha (thrown x) h e = cc
fetched_of-Returns sha pending h e = h

-- The attempts of a request are all given.
abbrev pub IsGiven : MonitorInput → List (Attempt Body) → Type 0
IsGiven input attempts = max_attempts_of input.max_attempts ≤ length attempts

fetch_settles :
    (input : MonitorInput) (deadline : ℕ) (attempts : List (Attempt Body))
    → IsGiven input attempts
    → fetch_workflow_runs input deadline attempts ≡ unsettled
    → ⊥
unfolding fetch_workflow_runs
fetch_settles input deadline attempts given e =
    fetched_of-Returns input.sha
      (get_json input.max_attempts input.attempt_timeout_ms deadline attempts).0
      (get_json-Returns input.max_attempts input.attempt_timeout_ms deadline attempts given) e

abbrev IsSome {ℓ} : {A : Type ℓ} → Option A → Type 0
IsSome none = ⊥
IsSome (some x) = Unit

watch-IsSome :
    (input : MonitorInput) (deadline : ℕ) (rs : List WorkflowRun) (last : Option GitHubApiError)
    (rounds : List WatchRound)
    → All (λ (r : WatchRound). IsGiven input r.attempts) rounds
    → Any (λ (r : WatchRound). deadline ≤ r.now) rounds
    → IsSome (watch input deadline rs last rounds).0
unfolding watch
watch-IsSome input deadline rs last [] given late = absurd late
watch-IsSome input deadline rs last (r ∷ rounds) given late =
    elim (Bool-cases (all is_completed rs)) [
      | inl e ↦ rw (watch, e) tt
      | inr e ↦ elim (Bool-cases (leb deadline r.now)) [
        | inl t ↦ rw (watch, e, t) tt
        | inr f ↦
            let later : Any (λ (r : WatchRound). deadline ≤ r.now) rounds = elim late [
              | inl h ↦ absurd (ground (arith, f))
              | inr h ↦ h
            ] in
            elim (Fetched-cases (fetch_workflow_runs input deadline r.attempts)) [
              | inl (new, g) ↦
                  rw (watch, e, f, g)
                    (watch-IsSome input deadline (refreshed rs new) none rounds given.1 later)
              | inr (inl (x, g)) ↦ elim (Bool-cases x.retryable) [
                | inl t ↦
                    rw (watch, e, f, g, t)
                      (watch-IsSome input deadline rs (some x) rounds given.1 later)
                | inr t ↦ rw (watch, e, f, g, t) tt
              ]
              | inr (inr (inl g)) ↦ rw (watch, e, f, g) tt
              | inr (inr (inr g)) ↦ absurd (fetch_settles input deadline r.attempts given.0 g)
            ]
      ]
    ]

abbrev IsEnded : Discovery → Type 0
IsEnded (found rs) = Unit
IsEnded (closed outcome) = Unit
IsEnded waiting = ⊥

discover-IsEnded :
    (input : MonitorInput) (deadline : ℕ) (last : Option GitHubApiError)
    (rounds : List DiscoveryRound)
    → All (λ (r : DiscoveryRound). IsGiven input r.attempts) rounds
    → Any (λ (r : DiscoveryRound). deadline ≤ r.now) rounds
    → IsEnded (discover input deadline last rounds).0
unfolding discover
discover-IsEnded input deadline last [] given late = absurd late
discover-IsEnded input deadline last (r ∷ rounds) given late =
    elim (Bool-cases (ltb r.now deadline)) [
      | inr f ↦ rw (discover, f) tt
      | inl t ↦
          let later : Any (λ (r : DiscoveryRound). deadline ≤ r.now) rounds = elim late [
            | inl h ↦ absurd (ground (arith, t))
            | inr h ↦ h
          ] in
          elim (Fetched-cases (fetch_workflow_runs input deadline r.attempts)) [
            | inl (new, g) ↦ elim (List-cases new) [
              | inl n ↦
                  rw (discover, t, g, n) (discover-IsEnded input deadline none rounds given.1 later)
              | inr (x, xs, c) ↦ rw (discover, t, g, c) tt
            ]
            | inr (inr (inl g)) ↦ rw (discover, t, g) tt
            | inr (inr (inr g)) ↦ absurd (fetch_settles input deadline r.attempts given.0 g)
            | inr (inl (x, g)) ↦ elim (Bool-cases x.retryable) [
              | inr n ↦ rw (discover, t, g, n) tt
              | inl y ↦ elim (Bool-cases (leb deadline r.failed_at)) [
                | inl b ↦ rw (discover, t, g, y, b) tt
                | inr b ↦
                    rw (discover, t, g, y, b)
                      (discover-IsEnded input deadline (some x) rounds given.1 later)
              ]
            ]
          ]
    ]

after_discovery-IsSome :
    (input : MonitorInput) (watching_from : ℕ) (rounds : List WatchRound) (d : Discovery)
    (steps : List Step)
    → IsEnded d
    → All (λ (r : WatchRound). IsGiven input r.attempts) rounds
    → Any (λ (r : WatchRound). watching_from + input.actions_timeout_ms ≤ r.now) rounds
    → IsSome (after_discovery input watching_from rounds (d, steps)).0
unfolding after_discovery
after_discovery-IsSome input watching_from rounds waiting steps d given late = d
after_discovery-IsSome input watching_from rounds (closed o) steps d given late = tt
after_discovery-IsSome input watching_from rounds (found rs) steps d given late =
    watch-IsSome input (watching_from + input.actions_timeout_ms) rs none rounds given late

some_of : {A : Type 0} (o : Option A) → IsSome o → (a : A) × (o ≡ some a)
some_of none h = absurd h
some_of (some a) h = (a, refl)

-- `monitorGitHubActions` returns an outcome, whatever GitHub replies, once in each of its loops the clock
-- has reached the deadline: where each request has an answer to each attempt of `getJson`.
pub monitor_git_hub_actions_ends :
    (input : MonitorInput) (started : ℕ) (discovery : List DiscoveryRound) (watching_from : ℕ)
    (rounds : List WatchRound)
    → All (λ (r : DiscoveryRound). IsGiven input r.attempts) discovery
    → Any (λ (r : DiscoveryRound). started + input.discovery_timeout_ms ≤ r.now) discovery
    → All (λ (r : WatchRound). IsGiven input r.attempts) rounds
    → Any (λ (r : WatchRound). watching_from + input.actions_timeout_ms ≤ r.now) rounds
    → (outcome : GitHubActionsOutcome) × ((monitor_git_hub_actions input started discovery
          watching_from rounds).0
        ≡ some outcome)
unfolding monitor_git_hub_actions
monitor_git_hub_actions_ends input started discovery watching_from rounds given late given' late' =
    let (d, steps) = discover input (started + input.discovery_timeout_ms) none discovery in
    some_of (monitor_git_hub_actions input started discovery watching_from rounds).0 (
      after_discovery-IsSome input watching_from rounds d steps
        (discover-IsEnded input (started + input.discovery_timeout_ms) none discovery given late)
        given' late')
