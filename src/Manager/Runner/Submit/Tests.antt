-- ===== src/Manager/Runner/Submit/Tests.antt =====
-- The runner's methods of src/lifecycle/LifecycleManager.ts at concrete replies.
use run_beacon.Base.{◌≡◌, ◌≤◌, ◌⊎◌, refl, [], ◌∷◌, true, false, none, some, get_or, All}
use run_beacon.Base.Dict.{lookup, insert}
use run_beacon.Base.Text.{ascii}
use run_beacon.Types.{JobState, JobPhase, Approval, ExecutionMode, TargetKind, JobOutputStream}
use run_beacon.Manager.{Manager, StartJobInput}
use run_beacon.Manager.Run.{is_ssh}
use run_beacon.Manager.Runner.{
  RunnerJob, RunnerEvent, Watched, runner_unavailable, transport_error, replied, failed, Turn,
  direct_ssh, watch_loop, read_watched,
}
use run_beacon.Manager.Runner.Progress.{sequence_at, after_reply, read_watched_lem}
use run_beacon.Manager.Runner.Loop.{IsDrained, watch_loop-IsDrained}
use run_beacon.Manager.Runner.Submit.{
  RunnerReplies, run_ssh_job, run_runner, catch_runner, falls_back, is_unavailable, is_auto,
  ping_error,
}
use run_beacon.Manager.Runner.Submit.Fallback.{run_ssh_job-direct, mode_of}
use run_beacon.Tests.{job, input, one}

abbrev running : Manager
running = one (job JobState.running JobPhase.executing Approval.not_required) [] (1 ∷ [])

abbrev ssh_input : StartJobInput
ssh_input = record input {
  target = some (record {
    kind = TargetKind.ssh;
    host = ascii "host";
    port = none;
    username = ascii "user";
    host_key_sha256 = none;
    host_key_algorithm = none;
    allow_unverified_host_key = true;
    runner_path = none;
  });
}

-- A runner that does not answer `ping`.
abbrev no_runner : RunnerReplies
no_runner = record {
  ping = some (record {
    between = λ m. m;
    now = 5;
    reply = failed (transport_error runner_unavailable false (ascii "no runner"));
    delayed = λ m. m;
  });
  submits = [];
  watches = [];
}

no_runner_direct : (run_ssh_job 3 4 1 ssh_input no_runner running).0 ≡ direct_ssh
unfolding run_ssh_job run_runner catch_runner falls_back is_unavailable is_auto ping_error is_ssh
no_runner_direct = refl

run_ssh_job-direct_example :
    ((run_ssh_job 3 4 1 ssh_input no_runner running).1 ≡ 0)
    × ((mode_of ssh_input ≡ ExecutionMode.direct)
        ⊎ ((mode_of ssh_input ≡ ExecutionMode.auto) × (ssh_input.require_durable ≡ false)))
run_ssh_job-direct_example = run_ssh_job-direct 3 4 1 ssh_input no_runner running no_runner_direct

abbrev remote : JobState → RunnerJob
remote state = record {
  id = 9;
  state = state;
  exit_code = some 0;
  signal = none;
  cancellation_verified = none;
  last_event_sequence = some 2;
}

-- The last reply of a remote job that has ended, with its two events.
abbrev last_reply : Watched
last_reply = record {
  job = remote JobState.succeeded;
  events =
      record {
        sequence = some 1;
        is_output = true;
        stream = some JobOutputStream.stdout;
        text = some (ascii "done");
      }
      ∷ record { sequence = some 2; is_output = false; stream = none; text = none }
      ∷ [];
  truncated = false;
  next_sequence = none;
  timed_out = false;
}

abbrev reply_turn : Turn Watched
reply_turn = record { between = λ m. m; now = 6; reply = replied last_reply; delayed = λ m. m }

abbrev late_turn : Turn Watched
late_turn = record {
  between = λ m. m;
  now = 90;
  reply = failed (transport_error runner_unavailable false (ascii "gone"));
  delayed = λ m. m;
}

read_watched_lem_example :
    (sequence_at 1 (read_watched 6 1 last_reply running) ≡ some (after_reply last_reply 0))
    × ((0 ≤ after_reply last_reply 0)
        × All
            (λ (e : RunnerEvent). get_or e.sequence 0 ≤ after_reply last_reply 0)
            last_reply.events)
unfolding insert lookup
read_watched_lem_example = read_watched_lem 6 1 last_reply running 0 refl

watch_loop-IsDrained_example :
    IsDrained 1
      (remote JobState.running)
      (reply_turn ∷ [])
      (watch_loop 1 80 5 (remote JobState.running) (reply_turn ∷ []) running).0
      (watch_loop 1 80 5 (remote JobState.running) (reply_turn ∷ []) running).1
watch_loop-IsDrained_example =
    watch_loop-IsDrained 1 80 5 (remote JobState.running) (reply_turn ∷ []) running
