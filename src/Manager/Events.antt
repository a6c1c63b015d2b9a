-- ===== src/Manager/Events.antt =====
-- The events of a running manager as a step relation: the calls of src/lifecycle/LifecycleManager.ts
-- that reach a job which was started, the drains, the ends of the runs, the output of a job, the
-- pruning of ended jobs, and the writes of the job store. An event runs up to its next `await`; the
-- event loop takes one after the other.
pub mod Reach
use run_beacon.Base.{[], ℕ, ◌≡◌, true, List, contains}
use run_beacon.Base.Text.{Text}
use run_beacon.Types.{JobOutputStream}
use run_beacon.Manager.{Manager, StartJobInput}
use run_beacon.Manager.Start.{StartFacts, start}
use run_beacon.Manager.Start.Admission.{IsFresh}
use run_beacon.Manager.Effects.{append, prune_history, persist_now}
use run_beacon.Manager.Queue.{approve, reject_approval, cancel}
use run_beacon.Manager.Run.{ExecutionResult, RunError, drain, run_completed, run_failed}

-- `recoverRunnerJob`, which adds to the active jobs without a test of their limit, is no event here:
-- Manager/Runner.antt has it. A run ends only while its id is active: `drain` adds the id before it calls `run`, and the
-- `finally` of that call takes it away.
pub data Step : Manager → Manager → Type 0 where
  approved : (now id : ℕ) (m : Manager) → Step m (approve now id m).1
  rejected : (now id : ℕ) (m : Manager) → Step m (reject_approval now id m).1
  cancelled : (now id : ℕ) (m : Manager) → Step m (cancel now id m).1
  drained : (now : ℕ) (m : Manager) → Step m (drain now m)
  completed :
      (now id : ℕ) (r : ExecutionResult) (m : Manager)
      → contains id m.active_jobs ≡ true
      → Step m (run_completed now id r m)
  failed :
      (now id : ℕ) (e : RunError) (m : Manager)
      → contains id m.active_jobs ≡ true
      → Step m (run_failed now id e m)
  output :
      (now id : ℕ) (s : JobOutputStream) (t : Text) (m : Manager) → Step m (append now id s t m)
  stored : (now : ℕ) (m : Manager) → Step m (persist_now now m)

pub data Steps : Manager → Manager → Type 0 where
  done : (m : Manager) → Steps m m
  then : (m n o : Manager) → Step m n → Steps n o → Steps m o

-- The managers that are reached from one without jobs, by calls of `start`, each with a new id, and by
-- the events above. A manager that begins with stored jobs, some of them to recover, is not covered.
pub data Reached : Manager → Type 0 where
  empty : (m : Manager) → m.jobs ≡ [] → m.queue ≡ [] → m.active_jobs ≡ [] → Reached m
  begun :
      (now : ℕ) (facts : StartFacts) (input : StartJobInput) (m : Manager)
      → Reached m
      → IsFresh facts.id m
      → Reached (start now facts input m).1
  stepped : (m n : Manager) → Reached m → Step m n → Reached n
