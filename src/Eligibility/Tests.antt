-- ===== src/Eligibility/Tests.antt =====
-- `determineWorkflowEligibility` of src/lifecycle/GitHubWorkflowEligibility.ts on a workflow of another branch.
use run_beacon.Base.{
  ◌≡◌, refl, String, List, [], ◌∷◌, true, false, none, some, All, length, filter, get_last?,
}
use run_beacon.Base.Text.{Text, ascii, text_eq}
use run_beacon.GitHubApi.{json, get_json}
use run_beacon.Eligibility.{
  text, list, object, nil, cons, Fields, end, field, Directory, files, WorkflowEvents, no_workflows,
  read_workflow_events, matches_ordered_patterns, branch_matches_event,
}
use run_beacon.Eligibility.Decide.{
  WorkflowEligibilityInput, PullRound, determine_workflow_eligibility, verdict,
  fetch_pull_requests_until_deadline,
}
use run_beacon.Eligibility.Patterns.{speaks, includes, matches_ordered_patterns_lem}
use run_beacon.Eligibility.Exact.{NoPull, determine_workflow_eligibility_lem}

-- A branch that is not `main`.
abbrev feature : WorkflowEligibilityInput
feature = record {
  branch = ascii "feature";
  sha = ascii "abc";
  max_attempts = some 1;
  attempt_timeout_ms = none;
  deadline_at = 1000;
}

abbrev branches_of : String → Fields
branches_of branch = field (ascii "branches") (list (cons (text (ascii branch)) nil)) end

-- Pushes to `main` and pull requests into it.
abbrev workflow : Directory
workflow = files (
    record {
      name = ascii "ci.yml";
      is_file = true;
      size = 100;
      bytes = 100;
      document = some (
          object (
            field (ascii "on")
              (object (
                field (ascii "push") (object (branches_of "main"))
                  (field (ascii "pull_request") (object (branches_of "main")) end)))
              end));
    }
    ∷ [])

-- The open pull request is one of another branch.
abbrev pull_rounds : List PullRound
pull_rounds =
    record {
      now = 0;
      attempts =
          record {
            now = 0;
            answer = json (
                record {
                  head_ref = some (ascii "other");
                  head_sha = some (ascii "def");
                  base_ref = some (ascii "main");
                }
                ∷ []);
            first_wait = record { now = 20; random = 500 };
            second_wait = record { now = 20; random = 500 };
          }
          ∷ [];
      failed_at = 20;
    }
    ∷ []

does_not_run :
    determine_workflow_eligibility text_eq feature workflow pull_rounds
    ≡ some (verdict false no_workflows 1)
unfolding determine_workflow_eligibility get_json
does_not_run = refl

determine_workflow_eligibility_lem_example :
    let workflows = read_workflow_events workflow in
    (verdict false no_workflows 1 ≡ verdict false no_workflows (length workflows))
    × (All (λ (w : WorkflowEvents). w.uncertain ≡ false) workflows
        × (All
              (λ (w : WorkflowEvents). branch_matches_event text_eq feature.branch w.push ≡ false)
              workflows
            × NoPull text_eq feature workflows
                (fetch_pull_requests_until_deadline feature (length workflows) pull_rounds)))
determine_workflow_eligibility_lem_example =
    determine_workflow_eligibility_lem text_eq feature workflow pull_rounds
      (verdict false no_workflows 1) does_not_run refl

-- The branch is taken in, left out, and not mentioned again.
abbrev patterns : List Text
patterns = ascii "feature" ∷ ascii "!feature" ∷ ascii "main" ∷ []

matches_ordered_patterns_lem_example :
    matches_ordered_patterns text_eq (ascii "feature") patterns
    ≡ includes false (get_last? (filter (speaks text_eq (ascii "feature")) patterns))
matches_ordered_patterns_lem_example =
    matches_ordered_patterns_lem text_eq (ascii "feature") patterns
