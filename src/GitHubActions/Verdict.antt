-- ===== src/GitHubActions/Verdict.antt =====
-- What src/lifecycle/GitHubActionsMonitor.ts settles on, against the runs that GitHub replied.
use run_beacon.Base.{
  ℕ, ◌+◌, ◌≡◌, ◌≢◌, ◌⊎◌, inl, inr, subst, List, [], ◌∷◌, Option, none, some, ltb, leb, filter, All,
  Any, All-imp, List-cases, Bool-cases,
}
use run_beacon.Base.Text.{Text, text_eq, text_eq_sound}
use run_beacon.GitHubApi.{Attempt, GitHubApiError, Outcome, got, thrown, pending, get_json}
use run_beacon.GitHubActions.{
  WorkflowRun, Body, object, null, GitHubActionsOutcome, passed, failed, timed_out, unavailable,
  MonitorInput, DiscoveryRound, WatchRound, Step, runs, fetched_of, fetch_workflow_runs, Discovery,
  found, closed, waiting, not_discovered, discover, after_discovery, monitor_git_hub_actions,
}
use run_beacon.GitHubActions.Watching.{IsVerdict, IsFair, Fetched-cases, watch-IsFair}

-- A round of which something holds for whatever it replied holds it for some round.
module _ {A : Type 0} (Replied : A → List WorkflowRun → Type 0) where
  Any-each :
      (rounds : List A)
      → All
          (λ (r : A). (rs : List WorkflowRun) → Replied r rs → Any (λ (q : A). Replied q rs) rounds)
          rounds
  Any-each [] = tt
  Any-each (r ∷ rounds) = (
    λ rs h. inl h,
    All-imp
        (λ (q : A). (rs : List WorkflowRun) → Replied q rs → Any (λ (p : A). Replied p rs) rounds)
        (λ (q : A).
          (rs : List WorkflowRun) → Replied q rs → Any (λ (p : A). Replied p rs) (r ∷ rounds))
        (λ q h rs e. inr (h rs e)) rounds (Any-each rounds),
  )

-- The discovery finds runs only where a round of it replied them.
abbrev IsFound : MonitorInput → ℕ → List DiscoveryRound → Discovery → Type 0
IsFound input deadline rounds (found rs) =
    (rs ≢ [])
    × Any (λ (r : DiscoveryRound). fetch_workflow_runs input deadline r.attempts ≡ runs rs) rounds
IsFound input deadline rounds (closed (unavailable code)) = Unit
IsFound input deadline rounds (closed outcome) = ⊥
IsFound input deadline rounds waiting = Unit

not_discovered-IsFound :
    (input : MonitorInput) (deadline : ℕ) (rounds : List DiscoveryRound)
    (last : Option GitHubApiError)
    → IsFound input deadline rounds (closed (not_discovered last))
unfolding not_discovered
not_discovered-IsFound input deadline rounds none = tt
not_discovered-IsFound input deadline rounds (some e) = tt

IsFound-cons :
    (input : MonitorInput) (deadline : ℕ) (r : DiscoveryRound) (rounds : List DiscoveryRound)
    (d : Discovery)
    → IsFound input deadline rounds d
    → IsFound input deadline (r ∷ rounds) d
IsFound-cons input deadline r rounds (found rs) h = (h.0, inr h.1)
IsFound-cons input deadline r rounds (closed (unavailable code)) h = tt
IsFound-cons input deadline r rounds (closed (passed s)) h = h
IsFound-cons input deadline r rounds (closed (failed s)) h = h
IsFound-cons input deadline r rounds (closed (timed_out s)) h = h
IsFound-cons input deadline r rounds waiting h = tt

discover-IsFound :
    (input : MonitorInput) (deadline : ℕ) (last : Option GitHubApiError)
    (rounds : List DiscoveryRound)
    → IsFound input deadline rounds (discover input deadline last rounds).0
unfolding discover
discover-IsFound input deadline last [] = tt
discover-IsFound input deadline last (r ∷ rounds) = elim (Bool-cases (ltb r.now deadline)) [
  | inr f ↦ rw (discover, f) (not_discovered-IsFound input deadline (r ∷ rounds) last)
  | inl t ↦ elim (Fetched-cases (fetch_workflow_runs input deadline r.attempts)) [
    | inl (new, g) ↦ elim (List-cases new) [
      | inl n ↦
          rw (discover, t, g, n)
            (IsFound-cons input deadline r rounds (discover input deadline none rounds).0
              (discover-IsFound input deadline none rounds))
      | inr (x, xs, c) ↦ rw (discover, t, g, c) (λ e. cc, inl (rw (← c) g))
    ]
    | inr (inr (inl g)) ↦ rw (discover, t, g) tt
    | inr (inr (inr g)) ↦ rw (discover, t, g) tt
    | inr (inl (x, g)) ↦ elim (Bool-cases x.retryable) [
      | inr n ↦ rw (discover, t, g, n) tt
      | inl y ↦ elim (Bool-cases (leb deadline r.failed_at)) [
        | inl late ↦
            rw (discover, t, g, y, late)
              (not_discovered-IsFound input deadline (r ∷ rounds) (some x))
        | inr early ↦
            rw (discover, t, g, y, early)
              (IsFound-cons input deadline r rounds (discover input deadline (some x) rounds).0
                (discover-IsFound input deadline (some x) rounds))
      ]
    ]
  ]
]

abbrev pub IsOfCommit : Text → WorkflowRun → Type 0
IsOfCommit sha run = run.head_sha ≡ sha

filter-IsOfCommit :
    (sha : Text) (rs : List WorkflowRun)
    → All (IsOfCommit sha) (filter (λ (run : WorkflowRun). text_eq run.head_sha sha) rs)
filter-IsOfCommit sha [] = tt
filter-IsOfCommit sha (r ∷ rs) = elim (Bool-cases (text_eq r.head_sha sha)) [
  | inl e ↦ rw e (text_eq_sound r.head_sha sha e, filter-IsOfCommit sha rs)
  | inr e ↦ rw e (filter-IsOfCommit sha rs)
]

fetched_of-IsOfCommit :
    (sha : Text) (o : Outcome Body) (rs : List WorkflowRun)
    → fetched_of sha o ≡ runs rs
    → All (IsOfCommit sha) rs
unfolding fetched_of
fetched_of-IsOfCommit sha (got (object none)) rs h = let e : [] ≡ rs = cc in rw (← e) tt
fetched_of-IsOfCommit sha (got (object (some listed))) rs h =
    let e : filter (λ (run : WorkflowRun). text_eq run.head_sha sha) listed ≡ rs = cc in
    rw (← e) (filter-IsOfCommit sha listed)
fetched_of-IsOfCommit sha (got null) rs h = absurd (cc)
fetched_of-IsOfCommit sha (thrown e) rs h = absurd (cc)
fetched_of-IsOfCommit sha pending rs h = absurd (cc)

-- The runs are what some request of the lifetime replied, and all are of the commit.
abbrev pub IsReply :
    MonitorInput → ℕ → List DiscoveryRound → ℕ → List WatchRound → List WorkflowRun → Type 0
IsReply input discovery_deadline discovery deadline rounds rs =
    All (IsOfCommit input.sha) rs
    × (Any
          (λ (r : DiscoveryRound).
            fetch_workflow_runs input discovery_deadline r.attempts ≡ runs rs)
          discovery
        ⊎ Any (λ (r : WatchRound). fetch_workflow_runs input deadline r.attempts ≡ runs rs) rounds)

fetch-IsOfCommit :
    (input : MonitorInput) (deadline : ℕ) (attempts : List (Attempt Body)) (rs : List WorkflowRun)
    → fetch_workflow_runs input deadline attempts ≡ runs rs
    → All (IsOfCommit input.sha) rs
unfolding fetch_workflow_runs
fetch-IsOfCommit input deadline attempts rs h =
    fetched_of-IsOfCommit input.sha
      (get_json input.max_attempts input.attempt_timeout_ms deadline attempts).0 rs h

Any-IsOfCommit :
    (input : MonitorInput) (deadline : ℕ) (rounds : List DiscoveryRound) (rs : List WorkflowRun)
    → Any (λ (r : DiscoveryRound). fetch_workflow_runs input deadline r.attempts ≡ runs rs) rounds
    → All (IsOfCommit input.sha) rs
Any-IsOfCommit input deadline [] rs h = absurd h
Any-IsOfCommit input deadline (r ∷ rounds) rs (inl h) =
    fetch-IsOfCommit input deadline r.attempts rs h
Any-IsOfCommit input deadline (r ∷ rounds) rs (inr h) = Any-IsOfCommit input deadline rounds rs h

module _ (input : MonitorInput) (started : ℕ) (discovery : List DiscoveryRound) (watching_from : ℕ)
    (rounds : List WatchRound) where
  abbrev pub Reply : List WorkflowRun → Type 0
  Reply =
      IsReply input (started + input.discovery_timeout_ms) discovery
        (watching_from + input.actions_timeout_ms) rounds

  each-Reply :
      All
        (λ (r : WatchRound).
          (new : List WorkflowRun)
          → fetch_workflow_runs input (watching_from + input.actions_timeout_ms) r.attempts
            ≡ runs new
          → Reply new)
        rounds
  each-Reply =
      let deadline : ℕ = watching_from + input.actions_timeout_ms in
      let Asked : WatchRound → List WorkflowRun → Type 0 =
        λ r rs. fetch_workflow_runs input deadline r.attempts ≡ runs rs in
      All-imp
        (λ (r : WatchRound).
          (rs : List WorkflowRun) → Asked r rs → Any (λ (q : WatchRound). Asked q rs) rounds)
        (λ (r : WatchRound). (rs : List WorkflowRun) → Asked r rs → Reply rs)
        (λ r any rs h. (fetch-IsOfCommit input deadline r.attempts rs h, inr (any rs h))) rounds
        (Any-each Asked rounds)

  after_discovery-IsFair :
      (d : Discovery) (steps : List Step)
      → IsFound input (started + input.discovery_timeout_ms) discovery d
      → IsFair Reply (after_discovery input watching_from rounds (d, steps)).0
  unfolding after_discovery
  after_discovery-IsFair waiting steps h = tt
  after_discovery-IsFair (closed (unavailable code)) steps h = tt
  after_discovery-IsFair (closed (passed s)) steps h = absurd h
  after_discovery-IsFair (closed (failed s)) steps h = absurd h
  after_discovery-IsFair (closed (timed_out s)) steps h = absurd h
  after_discovery-IsFair (found rs) steps h =
      watch-IsFair Reply input (watching_from + input.actions_timeout_ms) rs none rounds
        (Any-IsOfCommit input (started + input.discovery_timeout_ms) discovery rs h.1, inl h.1) h.0
        each-Reply

  -- An outcome of `monitorGitHubActions` is right about runs that a request replied, all of the commit:
  -- it is `passed` only where there are runs, all of them completed with success, neutral or skipped;
  -- `failed` only where all are completed and one of them ended otherwise; and `timed-out` only where
  -- one is not completed. Its summary is the summary of these runs.
  pub monitor_git_hub_actions-IsVerdict :
      (outcome : GitHubActionsOutcome)
      → (monitor_git_hub_actions input started discovery watching_from rounds).0 ≡ some outcome
      → IsVerdict Reply outcome
  unfolding monitor_git_hub_actions
  monitor_git_hub_actions-IsVerdict outcome h =
      let (d, steps) = discover input (started + input.discovery_timeout_ms) none discovery in
      subst (IsFair Reply) h (
        after_discovery-IsFair d steps
          (discover-IsFound input (started + input.discovery_timeout_ms) none discovery))
