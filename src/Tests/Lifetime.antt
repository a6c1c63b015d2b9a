-- ===== src/Tests/Lifetime.antt =====
-- Runs of the theorems on `start` and on a whole lifetime.
use run_beacon.Base.{refl, ◌≤◌, [], false, some, length}
use run_beacon.Base.Dict.{lookup}
use run_beacon.Base.Text.{ascii}
use run_beacon.Types.{PolicyRisk}
use run_beacon.Manager.{Manager}
use run_beacon.Manager.Start.{StartFacts, start}
use run_beacon.Manager.Start.Admission.{IsFresh}
use run_beacon.Manager.Start.Outcome.{Outcome}
use run_beacon.Manager.Run.{drain}
use run_beacon.Manager.Safety.{Safe}
use run_beacon.Manager.Events.{Reached, empty, begun, stepped, drained}
use run_beacon.Manager.Events.Reach.{Reached-Safe, lifetime_bound}
use run_beacon.Tests.{one, job, input, local_target}
use run_beacon.Types.{JobState, JobPhase, Approval}

abbrev bare : Manager
bare = record (one (job JobState.queued JobPhase.queued Approval.pending) [] []) { jobs = [] }

abbrev facts : StartFacts
facts = record {
  id = 5;
  command_digest = ascii "sha256:11";
  target = local_target;
  label = ascii "tests";
  display_command = ascii "npm test";
  decision = record {
    risk = PolicyRisk.standard;
    requires_approval = false;
    reason = ascii "ordinary task";
  };
  adapter_input_refused = false;
  target_refused = false;
  progress_pattern_refused = false;
  event_subscriptions = some [];
}

bare-IsFresh : IsFresh facts.id bare
unfolding IsFresh lookup
bare-IsFresh = (refl, refl)

bare-Reached : Reached bare
bare-Reached = empty bare refl refl refl

-- The job is started, and the drain takes it.
abbrev begun_manager : Manager
begun_manager = (start 1000 facts input bare).1

drained-Reached : Reached (drain 1001 begun_manager)
drained-Reached =
    stepped begun_manager (drain 1001 begun_manager)
      (begun 1000 facts input bare bare-Reached bare-IsFresh) (drained 1001 begun_manager)

Reached-Safe_example : Safe (drain 1001 begun_manager)
Reached-Safe_example = Reached-Safe (drain 1001 begun_manager) drained-Reached

lifetime_bound_example :
    length (drain 1001 begun_manager).active_jobs ≤ (drain 1001 begun_manager).max_concurrent_jobs
lifetime_bound_example = lifetime_bound (drain 1001 begun_manager) drained-Reached
