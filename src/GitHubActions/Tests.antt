-- ===== src/GitHubActions/Tests.antt =====
-- `monitorGitHubActions` of src/lifecycle/GitHubActionsMonitor.ts on a workflow that succeeds.
use run_beacon.Base.{String, ◌≡◌, refl, inl, inr, List, [], ◌∷◌, true, Option, none, some, arith}
use run_beacon.Base.Text.{Text, ascii}
use run_beacon.GitHubApi.{Attempt, Answer, json, get_json}
use run_beacon.GitHubActions.{
  WorkflowRun, Body, object, GitHubActionsOutcome, passed, MonitorInput, DiscoveryRound, WatchRound,
  monitor_git_hub_actions,
}
use run_beacon.GitHubActions.Watching.{IsVerdict}
use run_beacon.GitHubActions.Verdict.{Reply, monitor_git_hub_actions-IsVerdict}
use run_beacon.GitHubActions.Progress.{monitor_git_hub_actions_ends}

abbrev run_with : String → Option Text → WorkflowRun
run_with status conclusion = record {
  name = ascii "ci";
  status = ascii status;
  conclusion = conclusion;
  head_sha = ascii "abc";
}

abbrev attempt : Answer Body → Attempt Body
attempt answer = record {
  now = 10;
  answer = answer;
  first_wait = record { now = 20; random = 500 };
  second_wait = record { now = 20; random = 500 };
}

abbrev listed : String → Option Text → List (Attempt Body)
listed status conclusion = attempt (json (object (some (run_with status conclusion ∷ [])))) ∷ []

abbrev watched_input : MonitorInput
watched_input = record {
  sha = ascii "abc";
  authenticated = true;
  max_attempts = some 1;
  attempt_timeout_ms = none;
  discovery_timeout_ms = 1000;
  actions_timeout_ms = 60000;
  poll_interval_ms = 0;
}

abbrev first_rounds : List DiscoveryRound
first_rounds =
    record { now = 0; attempts = listed "queued" none; failed_at = 20; sleeps_at = 20 }
    ∷ record { now = 2000; attempts = listed "queued" none; failed_at = 2000; sleeps_at = 2000 }
    ∷ []

abbrev later_rounds : List WatchRound
later_rounds =
    record {
      now = 50;
      elapsed_at = 50;
      sleeps_at = 50;
      attempts = listed "completed" (some (ascii "success"));
    }
    ∷ record {
      now = 70000;
      elapsed_at = 70000;
      sleeps_at = 70000;
      attempts = listed "completed" (some (ascii "success"));
    }
    ∷ []

succeeds :
    (monitor_git_hub_actions watched_input 0 first_rounds 40 later_rounds).0
    ≡ some (passed (ascii "ci: completed/success"))
unfolding monitor_git_hub_actions get_json
succeeds = refl

monitor_git_hub_actions-IsVerdict_example :
    IsVerdict
      (Reply watched_input 0 first_rounds 40 later_rounds)
      (passed (ascii "ci: completed/success"))
monitor_git_hub_actions-IsVerdict_example =
    monitor_git_hub_actions-IsVerdict watched_input 0 first_rounds 40 later_rounds
      (passed (ascii "ci: completed/success")) succeeds

monitor_git_hub_actions_ends_example :
    (outcome : GitHubActionsOutcome) × ((monitor_git_hub_actions watched_input 0 first_rounds 40
        later_rounds).0
      ≡ some outcome)
monitor_git_hub_actions_ends_example =
    monitor_git_hub_actions_ends watched_input 0 first_rounds 40 later_rounds
      (omega arith, (omega arith, tt)) (inr (inl (omega arith))) (omega arith, (omega arith, tt))
      (inr (inl (omega arith)))
