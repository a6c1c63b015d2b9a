-- ===== src/Manager/Runner/Submit.antt =====
-- How src/lifecycle/LifecycleManager.ts gives a job to a runner and takes it up again: `runSshJob`,
-- `runRunner`, the head of `watchRunnerJob`, `runnerRetryDelay`; the child Recover has `recoverRunnerJob`. The number of
-- attempts and the base of the delay are arguments. `commandForAdapter` and the digest of the command
-- are left out: the arguments of `submit` are the same for each attempt.
pub mod Recover
pub mod Fallback
pub mod Tests
use run_beacon.Base.{
  ℕ, zero, suc, ◌+◌, ◌*◌, ◌-◌, ◌++◌, min, max, List, [], ◌∷◌, Bool, true, false, not, ◌&&◌, ◌||◌,
  Option, none, some, leb, if◌then◌else◌, get_or, is_some, is_empty, take, contains,
}
use run_beacon.Base.Dict.{lookup, insert}
use run_beacon.Base.Text.{Text, ascii}
use run_beacon.Types.{
  JobRecord, JobState, JobPhase, JobBackend, JobConnectionState, ExecutionMode, JobOutputStream,
}
use run_beacon.Manager.{Manager, StartJobInput, RuntimeHandle}
use run_beacon.Manager.Effects.{append, changed, finish}
use run_beacon.Manager.Run.{ExecutionResult, is_ssh, complete_execution, release}
use run_beacon.Manager.Runner.{
  RunnerJob, Watched, RunnerCode, runner_unavailable, runner_not_installed, remote_state_lost,
  RunnerError, transport_error, plain_error, Reply, replied, failed, Turn, RunnerEnd, returned,
  thrown, direct_ssh, waiting, default_timeout_ms, modify, is_conflict, watch_loop,
}

cancelling_record : JobRecord → JobRecord
cancelling_record job = record job {
  execution = record job.execution { phase = JobPhase.cancelling };
}

-- The handle's `cancel`, the first time, up to its call of the runner.
cancel_runner : ℕ → ℕ → Manager → Manager
unfolding cancelling_record modify
cancel_runner now id m = changed now id (modify id cancelling_record m)

is_cancel_requested : ℕ → Manager → Bool
is_cancel_requested id m = elim (lookup id m.jobs) [
  | none ↦ false
  | some job ↦ job.cancel_requested
]

-- `watchRunnerJob`
pub watch_runner_job : ℕ → ℕ → ℕ → RunnerJob → List (Turn Watched) → Manager → RunnerEnd × Manager
unfolding watch_loop is_cancel_requested cancel_runner
watch_runner_job id deadline now remote turns m =
    let handle : RuntimeHandle = record { cancellation_verified = false } in
    let m₁ = record m { runtime_handles = insert id handle m.runtime_handles } in
    watch_loop id deadline now remote turns
      (if is_cancel_requested id m then cancel_runner now id m₁ else m₁)

-- The replies of the runner: to `ping`, to each `submit`, to each `watch`.
pub record RunnerReplies : Type 0 where
  pub ping : Option (Turn (Option Text))
  pub submits : List (Turn (Option RunnerJob))
  pub watches : List (Turn Watched)

-- The end of the loop over the attempts to submit.
pub data Submission : Type 0 where
  accepted : RunnerJob → ℕ → Submission
  refused : RunnerError → Submission
  unanswered : Submission

is_transport : RunnerError → Bool
is_transport (transport_error code ambiguous message) = true
is_transport (plain_error message) = false

abbrev not_recovered : RunnerError
not_recovered =
    transport_error remote_state_lost true
      (ascii "REMOTE_STATE_LOST: Runner submission acknowledgement was not recovered")

-- The loop of `runRunner` over the attempts that are left, with the number of its calls of `submit`.
pub submit_each : ℕ → List (Turn (Option RunnerJob)) → Manager → Submission × ℕ × Manager
unfolding is_transport is_conflict
submit_each zero turns m = (refused not_recovered, 0, m)
submit_each (suc n) [] m = (unanswered, 1, m)
submit_each (suc n) (turn ∷ turns) m =
    let m₁ = turn.between m in
    elim turn.reply [
      | replied (some remote) ↦ (accepted remote turn.now, 1, m₁)
      | replied none ↦ (refused not_recovered, 1, m₁)
      | failed error ↦ elim (not (is_transport error) || is_conflict error) [
        | true ↦ (refused error, 1, m₁)
        | false ↦
            let (end, calls, m₂) =
              submit_each n turns (elim n [ zero ↦ m₁ | suc k ↦ turn.delayed m₁ ]) in
            (end, calls + 1, m₂)
      ]
    ]

submitting_record : Option Text → JobRecord → JobRecord
submitting_record version job = record job {
  execution = record job.execution {
    phase = JobPhase.submitting;
    connection_state = JobConnectionState.connected;
    runner_version = elim version [ none ↦ none | some v ↦ some (take 64 v) ];
  };
}

accepted_record : ℕ → RunnerJob → JobRecord → JobRecord
accepted_record now remote job = record job {
  execution = record job.execution {
    backend = JobBackend.ssh_runner;
    durable = true;
    resumable = is_some job.credential_profile_id;
    remote_job_id = some remote.id;
    phase = JobPhase.executing;
    connection_state = JobConnectionState.connected;
    last_event_sequence = 0;
  };
  timing = record job.timing {
    runner_accepted_at = some now;
    ssh_ready_at = some (get_or job.timing.ssh_ready_at now);
    command_started_at = some (get_or job.timing.command_started_at now);
  };
}

-- The error that `runRunner` throws when `ping` fails.
ping_error : RunnerError → RunnerError
ping_error (transport_error code ambiguous message) = transport_error code ambiguous message
ping_error (plain_error message) =
    transport_error runner_unavailable false (ascii "RUNNER_UNAVAILABLE: " ++ message)

-- What `runRunner` does after its loop.
after_submit :
    ℕ → StartJobInput → List (Turn Watched) → Submission → ℕ → Manager → RunnerEnd × ℕ × Manager
unfolding accepted_record watch_runner_job modify
after_submit id input watches (refused error) calls m = (thrown error, calls, m)
after_submit id input watches unanswered calls m = (waiting, calls, m)
after_submit id input watches (accepted remote now) calls m =
    let deadline = now + get_or input.timeout_ms default_timeout_ms + 60000 in
    let (end, m₁) =
      watch_runner_job id deadline now remote watches
        (changed now id (modify id (accepted_record now remote) m)) in
    (end, calls, m₁)

-- `runRunner`, with the number of its calls of `submit`.
pub run_runner : ℕ → ℕ → StartJobInput → RunnerReplies → Manager → RunnerEnd × ℕ × Manager
unfolding submit_each submitting_record ping_error after_submit modify
run_runner attempts id input replies m =
    if not (is_ssh input)
    then (
      thrown (
          transport_error runner_unavailable false
            (ascii "Runner execution requires an SSH target")),
      0,
      m,
    )
    else elim replies.ping [
      | none ↦ (waiting, 0, m)
      | some turn ↦ elim turn.reply [
        | failed error ↦ (thrown (ping_error error), 0, turn.between m)
        | replied version ↦
            let m₁ = changed turn.now id (modify id (submitting_record version) (turn.between m)) in
            let (end, calls, m₂) = submit_each attempts replies.submits m₁ in
            after_submit id input replies.watches end calls m₂
      ]
    ]

is_unavailable : RunnerError → Bool
is_unavailable (transport_error runner_unavailable false message) = true
is_unavailable (transport_error runner_not_installed false message) = true
is_unavailable _ = false

direct_record : JobRecord → JobRecord
direct_record job = record job {
  execution = record {
    backend = JobBackend.ssh_direct;
    phase = JobPhase.connecting;
    connection_state = JobConnectionState.connecting;
    durable = false;
    resumable = false;
    runner_version = none;
    remote_job_id = none;
    reconnect_count = job.execution.reconnect_count;
    last_event_sequence = 0;
  };
}

is_auto : ExecutionMode → Bool
is_auto ExecutionMode.auto = true
is_auto _ = false

pub falls_back : StartJobInput → RunnerError → Bool
unfolding is_auto is_unavailable
falls_back input error =
    is_auto (get_or input.execution_mode ExecutionMode.auto)
    && not input.require_durable
    && is_unavailable error

-- The `catch` of `runSshJob`.
pub catch_runner : ℕ → ℕ → StartJobInput → RunnerEnd → ℕ → Manager → RunnerEnd × ℕ × Manager
unfolding falls_back direct_record modify
catch_runner now id input (thrown error) calls m =
    if falls_back input error
    then (
      direct_ssh,
      calls,
      append now id JobOutputStream.system
          (ascii "Runner unavailable before submission; using non-durable direct SSH.\n")
          (modify id direct_record m),
    )
    else (thrown error, calls, m)
catch_runner now id input end calls m = (end, calls, m)

-- `runSshJob` up to its call of `runSsh`, with the time of that call.
pub run_ssh_job : ℕ → ℕ → ℕ → StartJobInput → RunnerReplies → Manager → RunnerEnd × ℕ × Manager
unfolding run_runner catch_runner
run_ssh_job attempts now id input replies m =
    elim (get_or input.execution_mode ExecutionMode.auto) [
      | ExecutionMode.direct ↦ (direct_ssh, 0, m)
      | _ ↦
          let (end, calls, m₁) = run_runner attempts id input replies m in
          catch_runner now id input end calls m₁
    ]

abbrev power_of_two : ℕ → ℕ
power_of_two zero = 1
power_of_two (suc n) = 2 * power_of_two n

-- The delay of `runnerRetryDelay`.
pub runner_retry_delay : ℕ → ℕ → ℕ
runner_retry_delay base attempt = min 5000 (base * power_of_two (min 5 (attempt - 1)))
