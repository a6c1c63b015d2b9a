-- ===== src/Manager/Assess.antt =====
-- `assess` of src/lifecycle/LifecycleManager.ts. The progress of a job, which its record here leaves
-- out, is an argument: the percentage and the time of the last progress. `Math.round` of a quotient
-- is the quotient of the sums that rounds half up.
use run_beacon.Base.{
  ℕ, ◌+◌, ◌-◌, ◌*◌, ◌/◌, Bool, true, false, ◌&&◌, Option, none, some, ltb, leb, if◌then◌else◌,
  get_or, ◌++◌,
}
use run_beacon.Base.Text.{Text, ascii, decimal}
use run_beacon.Types.{JobRecord, JobState, is_terminal_job_state}
use run_beacon.Manager.Effects.{state_name}

pub data AssessmentPhase : Type 0 where
  waiting executing finished : AssessmentPhase

pub data AssessmentHealth : Type 0 where
  queued active stalled terminal : AssessmentHealth

pub record LifecycleAssessment : Type 0 where
  pub phase : AssessmentPhase
  pub health : AssessmentHealth
  pub elapsed_ms : ℕ
  pub idle_ms : ℕ
  pub estimated_remaining_ms : Option ℕ
  pub summary : Text

abbrev or_else : Option ℕ → Option ℕ → Option ℕ
or_else none other = other
or_else (some n) other = some n

abbrev is_queued : JobState → Bool
is_queued JobState.queued = true
is_queued _ = false

-- `estimatedRemainingMs`
estimate : ℕ → Option ℕ → Option ℕ
estimate elapsed none = none
estimate elapsed (some p) =
    if ltb 0 p && ltb p 100 then some ((2 * (elapsed * (100 - p)) + p) / (2 * p)) else none

running_summary : Bool → ℕ → Option ℕ → Text
running_summary true idle percentage =
    ascii "No output or progress for " ++ decimal ((idle + 500) / 1000) ++ ascii " seconds."
running_summary false idle none =
    ascii "Running; no structured progress percentage has been observed."
running_summary false idle (some p) = ascii "Running at " ++ decimal p ++ ascii "% progress."

-- `assess`, with `stalledAfterMs`
pub assess : ℕ → ℕ → Option ℕ → Option ℕ → JobRecord → LifecycleAssessment
unfolding estimate running_summary
assess stalled_after now percentage last_progress_at job =
    let started = get_or job.started_at job.created_at in
    let finished_at = get_or job.finished_at now in
    let last_activity =
      get_or (or_else job.last_output_at (or_else last_progress_at job.started_at))
        job.created_at in
    let elapsed = finished_at - started in
    let ended = is_terminal_job_state job.state in
    let idle = if ended then finished_at - last_activity else now - last_activity in
    let is_stalled = leb stalled_after idle in
    if ended
    then record {
      phase = finished;
      health = terminal;
      elapsed_ms = elapsed;
      idle_ms = idle;
      estimated_remaining_ms = none;
      summary = ascii "Finished with state " ++ state_name job.state ++ ascii ".";
    }
    else if is_queued job.state
    then record {
      phase = waiting;
      health = queued;
      elapsed_ms = 0;
      idle_ms = idle;
      estimated_remaining_ms = none;
      summary = ascii "Waiting for an execution slot.";
    }
    else record {
      phase = executing;
      health = if is_stalled then stalled else active;
      elapsed_ms = elapsed;
      idle_ms = idle;
      estimated_remaining_ms = estimate elapsed percentage;
      summary = running_summary is_stalled idle percentage;
    }
