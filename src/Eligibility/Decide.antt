-- ===== src/Eligibility/Decide.antt =====
-- `determineWorkflowEligibility` of src/lifecycle/GitHubWorkflowEligibility.ts. The sleeps between the rounds
-- are left out, and an answer is a list of pull requests.
use run_beacon.Base.{
  ℕ, List, [], ◌∷◌, Bool, true, false, ◌&&◌, ◌||◌, Option, none, some, ltb, leb, if◌then◌else◌,
  length, filter, any, is_empty, get_or,
}
use run_beacon.Base.Text.{Text, text_eq}
use run_beacon.GitHubApi.{
  github_api_timeout, GitHubApiError, Attempt, got, thrown, pending, get_json,
}
use run_beacon.Eligibility.{
  PullRequest, WorkflowEvents, Reason, push, pull_request, no_workflows, uncertain, api,
  WorkflowEligibility, Directory, read_workflow_events, branch_matches_event, supports_synchronize,
}

pub record WorkflowEligibilityInput : Type 0 where
  pub branch : Text
  pub sha : Text
  pub max_attempts : Option ℕ
  pub attempt_timeout_ms : Option ℕ
  pub deadline_at : ℕ

-- A round of the loop: its test, the attempts of the request, the time read after an error.
pub record PullRound : Type 0 where
  pub now : ℕ
  pub attempts : List (Attempt (List PullRequest))
  pub failed_at : ℕ

pub data Pulls : Type 0 where
  pulls : List PullRequest → Pulls
  unavailable : WorkflowEligibility → Pulls

abbrev pub verdict : Bool → Reason → ℕ → WorkflowEligibility
verdict is_eligible why count = record {
  eligible = is_eligible;
  reason = why;
  workflow_count = count;
  unavailable_code = none;
}

-- `unavailableEligibility` for an error of the client.
unfoldable pub unavailable_eligibility : GitHubApiError → ℕ → Bool → WorkflowEligibility
unavailable_eligibility e count deadline_expired = record {
  eligible = true;
  reason = uncertain;
  workflow_count = count;
  unavailable_code =
      some (api (if deadline_expired && e.retryable then github_api_timeout else e.code));
}

-- What is returned after the loop.
unfoldable pub after_deadline : Option GitHubApiError → ℕ → Pulls
unfolding unavailable_eligibility
after_deadline none count =
    unavailable
      (unavailable_eligibility (record { code = github_api_timeout; retryable = true }) count true)
after_deadline (some e) count = unavailable (unavailable_eligibility e count true)

-- The loop of `fetchPullRequestsUntilDeadline` with the last error; `none` while it waits.
unfoldable pub fetch_from :
    WorkflowEligibilityInput → ℕ → Option GitHubApiError → List PullRound → Option Pulls
unfolding after_deadline unavailable_eligibility
fetch_from input count last [] = none
fetch_from input count last (r ∷ rounds) = elim (ltb r.now input.deadline_at) [
  | false ↦ some (after_deadline last count)
  | true ↦
      elim ((get_json input.max_attempts input.attempt_timeout_ms input.deadline_at r.attempts).0) [
        | got found ↦ some (pulls found)
        | pending ↦ none
        | thrown e ↦ elim (e.retryable) [
          | false ↦ some (unavailable (unavailable_eligibility e count false))
          | true ↦ elim (leb input.deadline_at r.failed_at) [
            | true ↦ some (after_deadline (some e) count)
            | false ↦ fetch_from input count (some e) rounds
          ]
        ]
      ]
]

-- `fetchPullRequestsUntilDeadline`
unfoldable pub fetch_pull_requests_until_deadline :
    WorkflowEligibilityInput → ℕ → List PullRound → Option Pulls
unfolding fetch_from
fetch_pull_requests_until_deadline input count rounds = fetch_from input count none rounds

same_text : Option Text → Text → Bool
same_text none t = false
same_text (some s) t = text_eq s t

unfoldable pub is_synchronized : WorkflowEvents → Bool
unfolding supports_synchronize
is_synchronized w =
    supports_synchronize w.pull_request || supports_synchronize w.pull_request_target

unfoldable pub is_of_input : WorkflowEligibilityInput → PullRequest → Bool
unfolding same_text
is_of_input input pull = same_text pull.head_sha input.sha || same_text pull.head_ref input.branch

module _ (minimatch : Text → Text → Bool) where
  unfoldable pub base_matches : PullRequest → WorkflowEvents → Bool
  unfolding branch_matches_event
  base_matches pull w =
      branch_matches_event minimatch (get_or pull.base_ref []) w.pull_request
      || branch_matches_event minimatch (get_or pull.base_ref []) w.pull_request_target

  -- The decision on the pull requests.
  unfoldable pub decide_pulls :
      WorkflowEligibilityInput → List WorkflowEvents → Option Pulls → Option WorkflowEligibility
  unfolding is_of_input base_matches is_synchronized
  decide_pulls input workflows none = none
  decide_pulls input workflows (some (unavailable answer)) = some answer
  decide_pulls input workflows (some (pulls found)) =
      let candidates = filter is_synchronized workflows in
      if any (λ (p : PullRequest). any (base_matches p) candidates)
        (filter (is_of_input input) found)
      then some (verdict true pull_request (length workflows))
      else some (verdict false no_workflows (length workflows))

  unfoldable pub decide :
      WorkflowEligibilityInput → List WorkflowEvents → List PullRound → Option WorkflowEligibility
  unfolding is_synchronized decide_pulls fetch_pull_requests_until_deadline branch_matches_event
  decide input workflows rounds =
      if any (λ (w : WorkflowEvents). w.uncertain) workflows
      then some (verdict true uncertain (length workflows))
      else if any (λ (w : WorkflowEvents). branch_matches_event minimatch input.branch w.push)
          workflows
      then some (verdict true push (length workflows))
      else if is_empty (filter is_synchronized workflows)
      then some (verdict false no_workflows (length workflows))
      else decide_pulls input workflows
          (fetch_pull_requests_until_deadline input (length workflows) rounds)

  -- `determineWorkflowEligibility`
  unfoldable pub determine_workflow_eligibility :
      WorkflowEligibilityInput → Directory → List PullRound → Option WorkflowEligibility
  unfolding decide read_workflow_events
  determine_workflow_eligibility input directory rounds =
      decide input (read_workflow_events directory) rounds
