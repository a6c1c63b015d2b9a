-- ===== src/Manager/Runner.antt =====
-- Jobs on a remote runner in src/lifecycle/LifecycleManager.ts: `runSshJob`, `runRunner`,
-- `watchRunnerJob`, `recoverRunnerJob` and `runnerRetryDelay`. A method is run to its end over the
-- replies of the transport, of which there may be too few: then it still waits. What other calls do to
-- the manager while a reply or a delay is pending comes with the reply. A job is at hand as long as the
-- map has it, and only terminal jobs leave the map.
pub mod Progress
pub mod Loop
pub mod Submit
use run_beacon.Base.{
  ◌≡◌, refl, ◌⊎◌, inl, inr, ℕ, zero, suc, ◌+◌, ◌*◌, ◌-◌, ◌++◌, min, max, List, [], ◌∷◌, Bool, true,
  false, not, ◌&&◌, ◌||◌, Option, none, some, leb, if◌then◌else◌, get_or, is_some, is_empty, take,
}
use run_beacon.Base.Dict.{lookup, insert}
use run_beacon.Base.Text.{Text, ascii}
use run_beacon.Types.{
  JobRecord, JobState, JobPhase, JobBackend, JobConnectionState, ExecutionMode, JobOutputStream,
  is_terminal_job_state,
}
use run_beacon.Manager.{Manager, StartJobInput}
use run_beacon.Manager.Effects.{append, changed, finish}
use run_beacon.Manager.Run.{ExecutionResult, is_ssh, complete_execution, release}

-- `RunnerJobPayload`
pub record RunnerJob : Type 0 where
  pub id : ℕ
  pub state : JobState
  pub exit_code : Option ℕ
  pub signal : Option Text
  pub cancellation_verified : Option Bool
  pub last_event_sequence : Option ℕ

-- `RunnerEventPayload`; the sequence is `none` where it is no finite number.
pub record RunnerEvent : Type 0 where
  pub sequence : Option ℕ
  pub is_output : Bool
  pub stream : Option JobOutputStream
  pub text : Option Text

-- The reply to `watch`; no events are an empty list.
pub record Watched : Type 0 where
  pub job : RunnerJob
  pub events : List RunnerEvent
  pub truncated : Bool
  pub next_sequence : Option ℕ
  pub timed_out : Bool

pub data RunnerCode : Type 0 where
  runner_unavailable runner_not_installed idempotency_conflict remote_state_lost other_code :
      RunnerCode

-- A `RunnerTransportError` with its code, `ambiguous` and its message, or any other error.
pub data RunnerError : Type 0 where
  transport_error : RunnerCode → Bool → Text → RunnerError
  plain_error : Text → RunnerError

pub data Reply {ℓ} (A : Type ℓ) : Type ℓ where
  replied : A → Reply A
  failed : RunnerError → Reply A

pub Reply-cases {ℓ} :
    {A : Type ℓ} (r : Reply A) → ((a : A) × (r ≡ replied a)) ⊎ ((e : RunnerError) × (r ≡ failed e))
Reply-cases (replied a) = inl (a, refl)
Reply-cases (failed e) = inr (e, refl)

-- A call: what happens to the manager until its reply, the time of the reply, the reply, and what
-- happens in the delay that may follow it.
pub record Turn {ℓ} (A : Type ℓ) : Type ℓ where
  pub between : Manager → Manager
  pub now : ℕ
  pub reply : Reply A
  pub delayed : Manager → Manager

-- How a run ends: with a result, with an error, with a call of `runSsh`, or not yet.
pub data RunnerEnd : Type 0 where
  returned : ExecutionResult → RunnerEnd
  thrown : RunnerError → RunnerEnd
  direct_ssh waiting : RunnerEnd

-- `DEFAULT_TIMEOUT_MS`
abbrev pub default_timeout_ms : ℕ
default_timeout_ms = 24 * 60 * 60 * 1000

-- A write to the job object.
pub modify : ℕ → (JobRecord → JobRecord) → Manager → Manager
modify id f m = elim (lookup id m.jobs) [
  | none ↦ m
  | some job ↦ record m { jobs = insert id (f job) m.jobs }
]

-- `job.execution.lastEventSequence`
pub last_sequence : ℕ → Manager → ℕ
last_sequence id m = elim (lookup id m.jobs) [
  | none ↦ 0
  | some job ↦ job.execution.last_event_sequence
]

-- `job.execution.lastEventSequence = Math.max(job.execution.lastEventSequence, n)`
pub advance : ℕ → JobRecord → JobRecord
advance n job = record job {
  execution = record job.execution {
    last_event_sequence = max job.execution.last_event_sequence n;
  };
}

pub connected_record : JobRecord → JobRecord
connected_record job = record job {
  execution = record job.execution {
    connection_state = JobConnectionState.connected;
    phase = if job.cancel_requested then JobPhase.cancelling else JobPhase.executing;
  };
}

pub truncated_record : JobRecord → JobRecord
truncated_record job = record job { buffer = record job.buffer { output_truncated = true } }

append_stream : ℕ → ℕ → Option JobOutputStream → Text → Manager → Manager
append_stream now id (some JobOutputStream.stdout) text m =
    append now id JobOutputStream.stdout text m
append_stream now id (some JobOutputStream.stderr) text m =
    append now id JobOutputStream.stderr text m
append_stream now id _ text m = m

-- The output of an event goes to the job.
append_event : ℕ → ℕ → RunnerEvent → Manager → Manager
unfolding append_stream
append_event now id event m =
    if event.is_output
    then elim event.text [ none ↦ m | some text ↦ append_stream now id event.stream text m ]
    else m

-- The loop of `watchRunnerJob` over the events of a reply.
pub read_events : ℕ → ℕ → List RunnerEvent → Manager → Manager
unfolding append_event modify advance
read_events now id [] m = m
read_events now id (event ∷ events) m = elim event.sequence [
  | none ↦ read_events now id events m
  | some n ↦ read_events now id events (append_event now id event (modify id (advance n) m))
]

pub skip_to : ℕ → Watched → Manager → Manager
unfolding modify advance
skip_to id watched m =
    if watched.truncated && is_empty watched.events
    then elim watched.next_sequence [ none ↦ m | some n ↦ modify id (advance n) m ]
    else m

note_truncated : ℕ → ℕ → Watched → Manager → Manager
unfolding modify truncated_record
note_truncated now id watched m =
    if watched.truncated
    then append now id JobOutputStream.system
        (ascii "Runner output retention omitted older events.\n") (modify id truncated_record m)
    else m

-- What `watchRunnerJob` does with a reply.
pub read_watched : ℕ → ℕ → Watched → Manager → Manager
unfolding read_events skip_to connected_record note_truncated modify
read_watched now id watched m =
    let m₁ = note_truncated now id watched (modify id connected_record m) in
    let m₂ = skip_to id watched (read_events now id watched.events m₁) in
    if watched.timed_out then m₂ else changed now id m₂

pub reconnecting_record : ℕ → JobRecord → JobRecord
reconnecting_record now job = record job {
  execution = record job.execution {
    phase = JobPhase.reconnecting;
    connection_state = JobConnectionState.reconnecting;
    reconnect_count = job.execution.reconnect_count + 1;
  };
  timing = record job.timing { disconnected_at = some now };
}

pub is_conflict : RunnerError → Bool
is_conflict (transport_error idempotency_conflict ambiguous message) = true
is_conflict _ = false

abbrev pub not_reattached : RunnerError
not_reattached =
    transport_error remote_state_lost true
      (ascii "REMOTE_STATE_LOST: Runner could not be reattached before the recovery deadline")

-- What `watchRunnerJob` throws for an error of a call, or `none` where it connects again.
pub watch_error : ℕ → ℕ → RunnerError → Option RunnerError
unfolding is_conflict
watch_error deadline now error =
    if is_conflict error then some error else if leb deadline now then some not_reattached else none

-- The test of the loop of `watchRunnerJob`: the remote job has ended and its events were read.
pub is_read : ℕ → RunnerJob → Manager → Bool
unfolding last_sequence
is_read id remote m =
    is_terminal_job_state remote.state
    && leb (get_or remote.last_event_sequence 0) (last_sequence id m)

pub finalizing_record : ℕ → JobRecord → JobRecord
finalizing_record now job = record job {
  execution = record job.execution {
    phase = JobPhase.finalizing;
    connection_state = JobConnectionState.connected;
  };
  timing = record job.timing {
    recovered_at =
        if leb 1 job.execution.reconnect_count then some now else job.timing.recovered_at;
  };
}

pub is_timed_out : JobState → Bool
is_timed_out JobState.timed_out = true
is_timed_out _ = false

pub result_of : RunnerJob → ExecutionResult
unfolding is_timed_out
result_of remote = record {
  exit_code = remote.exit_code;
  signal = remote.signal;
  timed_out = is_timed_out remote.state;
  terminal_state = some remote.state;
  cancellation_verified = remote.cancellation_verified;
}

-- The loop of `watchRunnerJob`, with the time of the last reply, and its return.
pub watch_loop : ℕ → ℕ → ℕ → RunnerJob → List (Turn Watched) → Manager → RunnerEnd × Manager
unfolding is_read result_of finalizing_record watch_error reconnecting_record read_watched modify
watch_loop id deadline now remote [] m =
    if is_read id remote m
    then (returned (result_of remote), changed now id (modify id (finalizing_record now) m))
    else (waiting, m)
watch_loop id deadline now remote (turn ∷ turns) m = elim (is_read id remote m) [
  | true ↦ (returned (result_of remote), changed now id (modify id (finalizing_record now) m))
  | false ↦ elim turn.reply [
    | replied watched ↦
        watch_loop id deadline turn.now watched.job turns
          (read_watched turn.now id watched (turn.between m))
    | failed error ↦ elim (watch_error deadline turn.now error) [
      | some e ↦ (thrown e, turn.between m)
      | none ↦ watch_loop id deadline turn.now remote turns (
          turn.delayed
            (changed turn.now id (modify id (reconnecting_record turn.now) (turn.between m))))
    ]
  ]
]
