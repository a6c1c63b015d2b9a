-- ===== src/Eligibility/Exact.antt =====
-- When src/lifecycle/GitHubWorkflowEligibility.ts says that no workflow will run.
use run_beacon.Base.{
  ℕ, ◌≡◌, ◌⊎◌, refl, sym, ap, some_injective, inl, inr, List, [], ◌∷◌, Bool, true, false, leb, ltb,
  Option, none, some, length, filter, any, is_empty, All, All-imp, any_none, any-filter_none,
  filter_none, arith, Bool-cases,
}
use run_beacon.Base.Text.{Text}
use run_beacon.GitHubApi.{GitHubApiError, get_json}
use run_beacon.GitHubApi.Ends.{Outcome-cases}
use run_beacon.Eligibility.{
  PullRequest, WorkflowEvents, push, pull_request, no_workflows, uncertain, WorkflowEligibility,
  Directory, read_workflow_events, branch_matches_event,
}
use run_beacon.Eligibility.Decide.{
  WorkflowEligibilityInput, PullRound, Pulls, pulls, unavailable, verdict, fetch_from,
  fetch_pull_requests_until_deadline, is_synchronized, is_of_input, base_matches, decide_pulls,
  decide, determine_workflow_eligibility, unavailable_eligibility, after_deadline,
}

-- An answer that comes without the pull requests says that the commit is eligible.
abbrev IsEligible : Option Pulls → Type 0
IsEligible (some (unavailable answer)) = answer.eligible ≡ true
IsEligible other = Unit

after_deadline-IsEligible :
    (last : Option GitHubApiError) (count : ℕ) → IsEligible (some (after_deadline last count))
unfolding after_deadline
after_deadline-IsEligible none count = refl
after_deadline-IsEligible (some e) count = refl

fetch_from-IsEligible :
    (input : WorkflowEligibilityInput) (count : ℕ) (last : Option GitHubApiError)
    (rounds : List PullRound)
    → IsEligible (fetch_from input count last rounds)
unfolding fetch_from unavailable_eligibility
fetch_from-IsEligible input count last [] = tt
fetch_from-IsEligible input count last (r ∷ rounds) =
    elim (Bool-cases (ltb r.now input.deadline_at)) [
      | inr f ↦ rw (fetch_from, f) (after_deadline-IsEligible last count)
      | inl t ↦
          elim (Outcome-cases
            (get_json input.max_attempts input.attempt_timeout_ms input.deadline_at r.attempts).0) [
              | inl (found, g) ↦ rw (fetch_from, t, g) tt
              | inr (inr g) ↦ rw (fetch_from, t, g) tt
              | inr (inl (e, g)) ↦ elim (Bool-cases e.retryable) [
                | inr n ↦ rw (fetch_from, t, g, n) refl
                | inl y ↦ elim (Bool-cases (leb input.deadline_at r.failed_at)) [
                  | inl late ↦
                      rw (fetch_from, t, g, y, late) (after_deadline-IsEligible (some e) count)
                  | inr early ↦
                      rw (fetch_from, t, g, y, early)
                        (fetch_from-IsEligible input count (some e) rounds)
                ]
              ]
            ]
    ]

-- No workflow waits for a pull request, or the open pull requests were got and none of this commit or branch
-- has a base that such a workflow waits for.
abbrev pub NoPull :
    (Text → Text → Bool) → WorkflowEligibilityInput → List WorkflowEvents → Option Pulls → Type 0
NoPull minimatch input workflows got =
    All (λ (w : WorkflowEvents). is_synchronized w ≡ false) workflows
    ⊎ ((found : List PullRequest) × ((got ≡ some (pulls found))
          × All
              (λ (p : PullRequest).
                (is_of_input input p ≡ false)
                ⊎ All
                    (λ (w : WorkflowEvents).
                      (is_synchronized w ≡ false) ⊎ (base_matches minimatch p w ≡ false))
                    workflows)
              found))

abbrev is_run : Option WorkflowEligibility → Bool
is_run none = false
is_run (some answer) = answer.eligible

module _ (minimatch : Text → Text → Bool) (input : WorkflowEligibilityInput) where
  fetch_pull_requests-IsEligible :
      (count : ℕ) (rounds : List PullRound)
      → IsEligible (fetch_pull_requests_until_deadline input count rounds)
  unfolding fetch_pull_requests_until_deadline
  fetch_pull_requests-IsEligible count rounds = fetch_from-IsEligible input count none rounds

  decide_pulls_lem :
      (workflows : List WorkflowEvents) (o : Option Pulls) (answer : WorkflowEligibility)
      → IsEligible o
      → decide_pulls minimatch input workflows o ≡ some answer
      → answer.eligible ≡ false
      → (answer ≡ verdict false no_workflows (length workflows))
        × NoPull minimatch input workflows o
  unfolding decide_pulls
  decide_pulls_lem workflows none answer sure h no_run = absurd (cc)
  decide_pulls_lem workflows (some (unavailable a)) answer sure h no_run =
      let same : a ≡ answer = cc in
      let flag : a.eligible ≡ false = rw same no_run in absurd (ground (arith, sure, flag))
  decide_pulls_lem workflows (some (pulls found)) answer sure h no_run =
      let candidates = filter is_synchronized workflows in
      elim (Bool-cases (
        any (λ (p : PullRequest). any (base_matches minimatch p) candidates)
          (filter (is_of_input input) found))) [
            | inl e ↦
                let same : some (verdict true pull_request (length workflows)) ≡ some answer =
                  rw e at h in
                let flag : true ≡ answer.eligible = ap is_run same in
                absurd (ground (arith, flag, no_run))
            | inr e ↦
                let same : some (verdict false no_workflows (length workflows)) ≡ some answer =
                  rw e at h in
                (
                  sym (some_injective same),
                  inr (
                    found,
                    (
                      refl,
                      All-imp
                          (λ (p : PullRequest).
                            (is_of_input input p ≡ false)
                            ⊎ (any (base_matches minimatch p) candidates ≡ false))
                          (λ (p : PullRequest).
                            (is_of_input input p ≡ false)
                            ⊎ All
                                (λ (w : WorkflowEvents).
                                  (is_synchronized w ≡ false)
                                  ⊎ (base_matches minimatch p w ≡ false))
                                workflows)
                          (λ p c. elim c [
                            | inl a ↦ inl a
                            | inr b ↦ inr (
                                any-filter_none (base_matches minimatch p) is_synchronized workflows
                                  b)
                          ])
                          found
                          (any-filter_none
                            (λ (p : PullRequest). any (base_matches minimatch p) candidates)
                            (is_of_input input) found e),
                    ),
                  ),
                )
          ]

  -- A commit is called not eligible only where each of the workflow files that are looked at, which are
  -- the first 100 of the directory, could be read, none of them runs on a push of the branch, and either
  -- none of them waits for a pull request, or a page of the open pull requests was got and none on it that
  -- is of this commit or branch has a base that such a workflow waits for. The answer is then `no-workflows`, and has no code.
  pub determine_workflow_eligibility_lem :
      (directory : Directory) (rounds : List PullRound) (answer : WorkflowEligibility)
      → determine_workflow_eligibility minimatch input directory rounds ≡ some answer
      → answer.eligible ≡ false
      → let workflows = read_workflow_events directory in
        (answer ≡ verdict false no_workflows (length workflows))
        × (All (λ (w : WorkflowEvents). w.uncertain ≡ false) workflows
            × (All
                  (λ (w : WorkflowEvents).
                    branch_matches_event minimatch input.branch w.push ≡ false)
                  workflows
                × NoPull minimatch input workflows
                    (fetch_pull_requests_until_deadline input (length workflows) rounds)))
  unfolding determine_workflow_eligibility decide
  determine_workflow_eligibility_lem directory rounds answer h no_run =
      let workflows = read_workflow_events directory in
      let asked = fetch_pull_requests_until_deadline input (length workflows) rounds in
      elim (Bool-cases (any (λ (w : WorkflowEvents). w.uncertain) workflows)) [
        | inl u ↦
            let same : some (verdict true uncertain (length workflows)) ≡ some answer = rw u at h in
            absurd (ground (arith, ap is_run same, no_run))
        | inr u ↦
            elim (Bool-cases (
              any (λ (w : WorkflowEvents). branch_matches_event minimatch input.branch w.push)
                workflows)) [
                  | inl p ↦
                      let same : some (verdict true push (length workflows)) ≡ some answer =
                        rw (u, p) at h in
                      absurd (ground (arith, ap is_run same, no_run))
                  | inr p ↦
                      let unread = any_none (λ (w : WorkflowEvents). w.uncertain) workflows u in
                      let unpushed =
                        any_none
                          (λ (w : WorkflowEvents).
                            branch_matches_event minimatch input.branch w.push)
                          workflows p in
                      elim (Bool-cases (is_empty (filter is_synchronized workflows))) [
                        | inl z ↦
                            let same : some (verdict false no_workflows (length workflows))
                                ≡ some answer =
                              rw (u, p, z) at h in
                            (
                              sym (some_injective same),
                              (unread, (unpushed, inl (filter_none is_synchronized workflows z))),
                            )
                        | inr z ↦
                            let (same, none_run) =
                              decide_pulls_lem workflows asked answer
                                (fetch_pull_requests-IsEligible (length workflows) rounds)
                                (rw (u, p, z) at h) no_run in
                            (same, (unread, (unpushed, none_run)))
                      ]
                ]
      ]
