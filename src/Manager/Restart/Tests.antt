-- ===== src/Manager/Restart/Tests.antt =====
-- The constructor of src/lifecycle/LifecycleManager.ts on two jobs of the store.
use run_beacon.Base.{ℕ, ◌≡◌, refl, inr, [], ◌∷◌, true, false, none, some, arith}
use run_beacon.Base.Dict.{lookup}
use run_beacon.Base.Text.{ascii}
use run_beacon.Types.{JobRecord, JobState, JobPhase, JobBackend, Approval}
use run_beacon.Manager.Safety.{Safe}
use run_beacon.Manager.Restart.{ManagerOptions, construct, can_reattach}
use run_beacon.Manager.Restart.Recovered.{Loadable, EndedOrRuns, construct-Safe}
use run_beacon.Tests.{job}

abbrev options : ManagerOptions
options = record {
  max_concurrent_jobs = some 2;
  max_output_bytes = none;
  max_retained_jobs = none;
  has_recover_target = true;
}

-- A job that runs on a runner.
abbrev remote_job : JobRecord
remote_job =
    let running = job JobState.running JobPhase.executing Approval.approved in
    record running {
      execution = record running.execution {
        backend = JobBackend.ssh_runner;
        durable = true;
        remote_job_id = some 9;
      };
      credential_profile_id = some (ascii "main");
    }

-- A job that awaits its approval.
abbrev pending_job : JobRecord
pending_job = record (job JobState.queued JobPhase.awaiting_approval Approval.pending) { id = 2 }

remote_job-Loadable : Loadable true remote_job
remote_job-Loadable = record { permitted = λ e. inr refl; awaiting = λ e. ground (arith, e) }

pending_job-Loadable : Loadable true pending_job
unfolding can_reattach
pending_job-Loadable = record { permitted = λ e. ground (arith, e); awaiting = λ e. refl }

construct-Safe_example :
    let m = construct options 300 false false 50 (remote_job ∷ pending_job ∷ []) in
    Safe m × (((m.queue ≡ []) × (m.active_jobs ≡ [])) × ((k : ℕ) → EndedOrRuns (lookup k m.jobs)))
construct-Safe_example =
    construct-Safe options 300 false false 50 (remote_job ∷ pending_job ∷ [])
      (remote_job-Loadable, (pending_job-Loadable, tt))
