-- ===== src/Tests/Scheduling.antt =====
-- Runs of the scheduler's theorems.
use run_beacon.Base.{zero, ◌≡◌, refl, inl, inr, [], ◌∷◌, false, none, some}
use run_beacon.Base.Dict.{lookup, insert}
use run_beacon.Types.{JobRecord, JobState, JobPhase, Approval}
use run_beacon.Manager.{Manager}
use run_beacon.Manager.Queue.{approve}
use run_beacon.Manager.Run.{ExecutionResult, drain}
use run_beacon.Manager.Safety.{Safe, Good}
use run_beacon.Manager.Events.{Steps, done, then, approved, drained}
use run_beacon.Manager.Events.Reach.{Steps-Good, terminal_state_absorbing}
use run_beacon.Tests.{job, one, one-Safe}

abbrev pending_job : JobRecord
pending_job = job JobState.queued JobPhase.awaiting_approval Approval.pending

abbrev queued_job : JobRecord
queued_job = job JobState.queued JobPhase.queued Approval.not_required

abbrev running_job : JobRecord
running_job = job JobState.running JobPhase.executing Approval.approved

abbrev ended_job : JobRecord
ended_job = job JobState.succeeded JobPhase.finished Approval.approved

abbrev waiting : Manager
waiting = one pending_job [] []

abbrev queued : Manager
queued = one queued_job (1 ∷ []) []

abbrev running : Manager
running = one running_job [] (1 ∷ [])

abbrev ended : Manager
ended = one ended_job [] []

waiting-Safe : Safe waiting
waiting-Safe = one-Safe pending_job [] [] refl tt tt tt (λ r. inl cc) (λ w. refl)

queued-Safe : Safe queued
unfolding lookup insert
queued-Safe =
    one-Safe queued_job (1 ∷ []) [] refl ((refl, inl refl), tt) (refl, tt) tt (λ r. inl refl)
      (λ w. refl)

running-Safe : Safe running
unfolding lookup insert
running-Safe = one-Safe running_job [] (1 ∷ []) refl tt tt (refl, tt) (λ r. inr refl) (λ w. cc)

ended-Safe : Safe ended
ended-Safe = one-Safe ended_job [] [] refl tt tt tt (λ r. inr refl) (λ w. cc)

abbrev exit_zero : ExecutionResult
exit_zero = record {
  exit_code = some zero;
  signal = none;
  timed_out = false;
  terminal_state = none;
  cancellation_verified = none;
}

abbrev granted : Manager
granted = (approve 1000 1 waiting).1

-- The job is approved, and the next drain takes it.
approved_and_drained : Steps waiting (drain 2000 granted)
approved_and_drained =
    then waiting granted _ (approved 1000 1 waiting)
      (then granted _ _ (drained 2000 granted) (done (drain 2000 granted)))

Steps-Good_example : Good waiting (drain 2000 granted)
Steps-Good_example = Steps-Good waiting (drain 2000 granted) approved_and_drained waiting-Safe

drained_once : Steps ended (drain 2000 ended)
drained_once = then ended _ _ (drained 2000 ended) (done (drain 2000 ended))

terminal_state_absorbing_example : ended_job.state ≡ JobState.succeeded
unfolding drain lookup insert
terminal_state_absorbing_example =
    terminal_state_absorbing ended (drain 2000 ended) 1 ended_job ended_job ended-Safe drained_once
      refl refl refl
