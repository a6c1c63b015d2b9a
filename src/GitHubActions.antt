-- ===== src/GitHubActions.antt =====
-- src/lifecycle/GitHubActionsMonitor.ts: the discovery of the workflow runs of a commit and the wait for
-- their end. A round of a loop is given with the times at which the code asks the clock and the
-- attempts of its call of `getJson`; where no round is left, the loop is still waiting. The URL of
-- the request is left out. A time before the start of the wait counts as its start in `elapsed`.
pub mod Verdict
pub mod Watching
pub mod Progress
mod Tests
use run_beacon.Base.{
  ℕ, zero, suc, ◌+◌, ◌*◌, ◌-◌, ◌/◌, min, max, List, [], ◌∷◌, ◌++◌, Bool, true, false, not, Option,
  none, some, ltb, leb, if◌then◌else◌, get_or, filter, all, any, is_empty, take,
}
use run_beacon.Base.Text.{Text, ascii, text_eq}
use run_beacon.GitHubApi.{
  GitHubApiErrorCode, github_api_timeout, GitHubApiError, Attempt, Outcome, got, thrown, pending,
  get_json,
}
use run_beacon.GitPush.{is_successful_actions_conclusion}

pub record WorkflowRun : Type 0 where
  pub name : Text
  pub status : Text
  pub conclusion : Option Text
  pub head_sha : Text

-- The body of an answer: an object with its `workflow_runs`, or a value with no members (null).
pub data Body : Type 0 where
  object : Option (List WorkflowRun) → Body
  null : Body

-- The code of an unavailable outcome.
pub data UnavailableCode : Type 0 where
  actions_not_discovered actions_monitoring_unavailable : UnavailableCode
  api : GitHubApiErrorCode → UnavailableCode

pub data GitHubActionsOutcome : Type 0 where
  passed failed timed_out : Text → GitHubActionsOutcome
  unavailable : UnavailableCode → GitHubActionsOutcome

pub record MonitorInput : Type 0 where
  pub sha : Text
  pub authenticated : Bool
  pub max_attempts : Option ℕ
  pub attempt_timeout_ms : Option ℕ
  pub discovery_timeout_ms : ℕ
  pub actions_timeout_ms : ℕ
  pub poll_interval_ms : ℕ

-- A round of the discovery: the test of the loop, the request, the test after an error, the sleep.
pub record DiscoveryRound : Type 0 where
  pub now : ℕ
  pub attempts : List (Attempt Body)
  pub failed_at : ℕ
  pub sleeps_at : ℕ

-- A round of the wait: the test of the deadline, the time elapsed, the sleep, the request.
pub record WatchRound : Type 0 where
  pub now : ℕ
  pub elapsed_at : ℕ
  pub sleeps_at : ℕ
  pub attempts : List (Attempt Body)

pub data Phase : Type 0 where
  actions_discovery actions actions_reconnecting : Phase

-- A call of `onProgress`, or a sleep with the time at which it begins.
pub data Step : Type 0 where
  progress : ℕ → Phase → Text → Step
  slept : ℕ → ℕ → Step

-- What `fetchWorkflowRuns` gives: the runs, an error of the client, another error, or nothing yet.
pub data Fetched : Type 0 where
  runs : List WorkflowRun → Fetched
  refused : GitHubApiError → Fetched
  threw unsettled : Fetched

pub fetched_of : Text → Outcome Body → Fetched
fetched_of sha (got (object found)) =
    runs (filter (λ (run : WorkflowRun). text_eq run.head_sha sha) (get_or found []))
fetched_of sha (got null) = threw
fetched_of sha (thrown e) = refused e
fetched_of sha pending = unsettled

-- `fetchWorkflowRuns`
pub fetch_workflow_runs : MonitorInput → ℕ → List (Attempt Body) → Fetched
unfolding fetched_of
fetch_workflow_runs input deadline attempts =
    fetched_of input.sha (get_json input.max_attempts input.attempt_timeout_ms deadline attempts).0

-- `deadlineCode`
deadline_code : GitHubApiError → GitHubApiErrorCode
deadline_code e = elim e.code [ github_api_timeout ↦ github_api_timeout | _ ↦ github_api_timeout ]

pub join : Text → List Text → Text
join separator [] = []
join separator (t ∷ []) = t
join separator (t ∷ u ∷ ts) = t ++ (separator ++ join separator (u ∷ ts))

-- A conclusion is shown where it is not empty.
conclusion_part : Option Text → Text
conclusion_part none = []
conclusion_part (some []) = []
conclusion_part (some (b ∷ bs)) = ascii "/" ++ (b ∷ bs)

lines_of : List WorkflowRun → List Text
lines_of [] = []
lines_of (r ∷ rs) =
    (r.name ++ (ascii ": " ++ (r.status ++ conclusion_part r.conclusion))) ∷ lines_of rs

-- `summarize`
pub summarize : List WorkflowRun → Text
unfolding join lines_of conclusion_part
summarize rs = take 1000 (join (ascii " | ") (lines_of rs))

abbrev pub interval : MonitorInput → ℕ
interval input =
    if input.authenticated
    then max 10000 input.poll_interval_ms
    else max 60000 input.poll_interval_ms

abbrev pub nap : MonitorInput → ℕ → ℕ → Step
nap input deadline now = slept now (min (interval input) (max 1 (deadline - now)))

-- How the discovery ends: with runs, with an outcome, or not yet.
pub data Discovery : Type 0 where
  found : List WorkflowRun → Discovery
  closed : GitHubActionsOutcome → Discovery
  waiting : Discovery

-- What is returned where the loop ends and there are no runs.
pub not_discovered : Option GitHubApiError → GitHubActionsOutcome
unfolding deadline_code
not_discovered none = unavailable actions_not_discovered
not_discovered (some e) = unavailable (api (deadline_code e))

abbrev pub after_step {ℓ} : {A : Type ℓ} → Step → A × List Step → A × List Step
after_step s (a, steps) = (a, s ∷ steps)

-- The first loop of `monitorGitHubActions`, with the last error of the discovery.
pub discover :
    MonitorInput → ℕ → Option GitHubApiError → List DiscoveryRound → Discovery × List Step
unfolding fetch_workflow_runs not_discovered
discover input deadline last [] = (waiting, [])
discover input deadline last (r ∷ rounds) = elim (ltb r.now deadline) [
  | false ↦ (closed (not_discovered last), [])
  | true ↦ elim (fetch_workflow_runs input deadline r.attempts) [
    | runs [] ↦ after_step (nap input deadline r.sleeps_at) (discover input deadline none rounds)
    | runs (x ∷ xs) ↦ (found (x ∷ xs), [])
    | unsettled ↦ (waiting, [])
    | threw ↦ (closed (unavailable actions_monitoring_unavailable), [])
    | refused e ↦ elim (e.retryable) [
      | false ↦ (closed (unavailable (api e.code)), [])
      | true ↦ elim (leb deadline r.failed_at) [
        | true ↦ (closed (not_discovered (some e)), [])
        | false ↦
            after_step (nap input deadline r.sleeps_at) (discover input deadline (some e) rounds)
      ]
    ]
  ]
]

abbrev pub is_completed : WorkflowRun → Bool
is_completed run = text_eq run.status (ascii "completed")

-- The outcome of runs that are all completed.
pub settled : List WorkflowRun → GitHubActionsOutcome
unfolding is_successful_actions_conclusion summarize
settled rs =
    if any (λ (run : WorkflowRun). not (is_successful_actions_conclusion run.conclusion)) rs
    then failed (summarize rs)
    else passed (summarize rs)

-- The outcome at the deadline.
pub expired : List WorkflowRun → Option GitHubApiError → GitHubActionsOutcome
unfolding summarize deadline_code
expired rs none = timed_out (summarize rs)
expired rs (some e) = unavailable (api (deadline_code e))

pub percentage_of : MonitorInput → ℕ → ℕ → ℕ
percentage_of input deadline now =
    let elapsed = input.actions_timeout_ms + now - deadline in
    min 95 (70 + (2 * (25 * elapsed) + input.actions_timeout_ms) / (2 * input.actions_timeout_ms))

pub watch_progress : MonitorInput → ℕ → List WorkflowRun → Option GitHubApiError → ℕ → Step
unfolding percentage_of summarize
watch_progress input deadline rs none now =
    progress (percentage_of input deadline now) actions (summarize rs)
watch_progress input deadline rs (some e) now =
    progress (percentage_of input deadline now) actions_reconnecting
      (ascii "Connection interrupted; retaining last workflow state: " ++ summarize rs)

-- The runs that a refresh leaves.
abbrev pub refreshed : List WorkflowRun → List WorkflowRun → List WorkflowRun
refreshed old [] = old
refreshed old (x ∷ xs) = x ∷ xs

-- The second loop: an outcome, or `none` while it waits.
pub watch :
    MonitorInput
    → ℕ
    → List WorkflowRun
    → Option GitHubApiError
    → List WatchRound
    → Option GitHubActionsOutcome × List Step
unfolding fetch_workflow_runs settled expired watch_progress
watch input deadline rs last [] = (if all is_completed rs then some (settled rs) else none, [])
watch input deadline rs last (r ∷ rounds) = elim (all is_completed rs) [
  | true ↦ (some (settled rs), [])
  | false ↦ elim (leb deadline r.now) [
    | true ↦ (some (expired rs last), [])
    | false ↦
        let shown = watch_progress input deadline rs last r.elapsed_at in
        let sleep = nap input deadline r.sleeps_at in
        elim (fetch_workflow_runs input deadline r.attempts) [
          | runs new ↦
              after_step shown
                (after_step sleep (watch input deadline (refreshed rs new) none rounds))
          | unsettled ↦ (none, shown ∷ sleep ∷ [])
          | threw ↦ (some (unavailable actions_monitoring_unavailable), shown ∷ sleep ∷ [])
          | refused e ↦ elim (e.retryable) [
            | false ↦ (some (unavailable (api e.code)), shown ∷ sleep ∷ [])
            | true ↦ after_step shown (after_step sleep (watch input deadline rs (some e) rounds))
          ]
        ]
  ]
]

-- The part after the discovery; `watching_from` is the time at which it begins.
pub after_discovery :
    MonitorInput
    → ℕ
    → List WatchRound
    → Discovery × List Step
    → Option GitHubActionsOutcome × List Step
unfolding watch
after_discovery input watching_from rounds (waiting, steps) = (none, steps)
after_discovery input watching_from rounds (closed outcome, steps) = (some outcome, steps)
after_discovery input watching_from rounds (found rs, steps) =
    let (outcome, more) = watch input (watching_from + input.actions_timeout_ms) rs none rounds in
    (outcome, steps ++ more)

-- `monitorGitHubActions`
pub monitor_git_hub_actions :
    MonitorInput
    → ℕ
    → List DiscoveryRound
    → ℕ
    → List WatchRound
    → Option GitHubActionsOutcome × List Step
unfolding discover after_discovery
monitor_git_hub_actions input started discovery watching_from rounds =
    after_step (progress 65 actions_discovery (ascii "Waiting for GitHub Actions runs to appear")) (
      after_discovery input watching_from rounds
        (discover input (started + input.discovery_timeout_ms) none discovery))

-- `monitoringOutcomeFails`
pub monitoring_outcome_fails : GitHubActionsOutcome → Bool → Bool
monitoring_outcome_fails (passed s) require_actions = false
monitoring_outcome_fails (failed s) require_actions = true
monitoring_outcome_fails (timed_out s) require_actions = true
monitoring_outcome_fails (unavailable code) require_actions = require_actions
