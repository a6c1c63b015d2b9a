-- ===== src/Manager/Runner/Submit/Recover.antt =====
-- `recoverRunnerJob` of src/lifecycle/LifecycleManager.ts, where the option `recoverRunnerTarget` is there:
-- a job that ran on a runner is taken up again after a restart.
use run_beacon.Base.{
  ℕ, ◌+◌, ◌++◌, List, [], ◌∷◌, Bool, true, false, not, ◌&&◌, Option, none, some, leb, if◌then◌else◌,
  is_some, take, contains,
}
use run_beacon.Base.Dict.{lookup}
use run_beacon.Base.Text.{Text, ascii}
use run_beacon.Types.{JobRecord, JobState, JobPhase, JobConnectionState}
use run_beacon.Manager.{Manager}
use run_beacon.Manager.Effects.{changed, finish}
use run_beacon.Manager.Run.{complete_execution, release}
use run_beacon.Manager.Runner.{
  RunnerJob, Watched, RunnerError, transport_error, plain_error, Reply, replied, failed, Turn,
  RunnerEnd, returned, thrown, default_timeout_ms, modify,
}
use run_beacon.Manager.Runner.Submit.{watch_runner_job}

-- One round of the loop of `recoverRunnerJob`: the target, `ping` and `get`.
pub record Reattached : Type 0 where
  pub version : Option Text
  pub remote : RunnerJob

recovering_record : JobRecord → JobRecord
recovering_record job = record job {
  execution = record job.execution {
    phase = JobPhase.reconnecting;
    connection_state = JobConnectionState.reconnecting;
    reconnect_count = job.execution.reconnect_count + 1;
  };
}

-- The loop of `recoverRunnerJob`: the runner's job and the time, the error, or `none` while it waits.
pub reattach : ℕ → ℕ → List (Turn Reattached) → Manager → Option (Reply (Reattached × ℕ)) × Manager
unfolding recovering_record modify
reattach id deadline [] m = (none, m)
reattach id deadline (turn ∷ turns) m =
    let m₁ = turn.between m in
    elim turn.reply [
      | replied found ↦ (some (replied (found, turn.now)), m₁)
      | failed error ↦ elim (leb deadline turn.now) [
        | true ↦ (some (failed error), m₁)
        | false ↦
            reattach id deadline turns
              (turn.delayed (changed turn.now id (modify id recovering_record m₁)))
      ]
    ]

reattached_record : ℕ → Reattached → JobRecord → JobRecord
reattached_record now found job = record job {
  execution = record job.execution {
    runner_version = elim found.version [ none ↦ none | some v ↦ some (take 64 v) ];
    connection_state = JobConnectionState.connected;
    phase = JobPhase.executing;
  };
  timing = record job.timing { recovered_at = some now };
}

message_of : RunnerError → Text
message_of (transport_error code ambiguous message) = message
message_of (plain_error message) = message

-- The `catch` of `recoverRunnerJob`.
recovery_lost : ℕ → ℕ → RunnerError → Manager → Manager
unfolding message_of
recovery_lost now id error m =
    finish now id JobState.lost (some (ascii "REMOTE_STATE_LOST: " ++ message_of error)) m

-- The end of `recoverRunnerJob` for what `watchRunnerJob` gave; a run that waits has not come here.
pub recovery_end : ℕ → ℕ → RunnerEnd × Manager → Manager
unfolding recovery_lost
recovery_end now id (end, m) = elim end [
  | returned result ↦ release id (complete_execution now id result m)
  | thrown error ↦ release id (recovery_lost now id error m)
  | _ ↦ m
]

can_recover : JobRecord → Bool
can_recover job = is_some job.credential_profile_id && is_some job.execution.remote_job_id

-- `recoverRunnerJob`, started at one time and ended at another.
pub recover_runner_job :
    ℕ → ℕ → ℕ → List (Turn Reattached) → List (Turn Watched) → Manager → Manager
unfolding reattach reattached_record recovery_end can_recover watch_runner_job recovery_lost modify
recover_runner_job started ended id attempts watches m = elim (lookup id m.jobs) [
  | none ↦ m
  | some job ↦
      let deadline = started + default_timeout_ms in
      let m₁ = record m {
        active_jobs = if contains id m.active_jobs then m.active_jobs else m.active_jobs ++ id ∷ [];
      } in
      let (found, m₂) = reattach id deadline attempts m₁ in
      if not (can_recover job) then m else elim found [
        | none ↦ m₂
        | some (failed error) ↦ release id (recovery_lost ended id error m₂)
        | some (replied (f, now)) ↦ recovery_end ended id (
            watch_runner_job id deadline now f.remote watches
              (changed now id (modify id (reattached_record now f) m₂)))
      ]
]
