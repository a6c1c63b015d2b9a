-- ===== src/Manager.antt =====
-- The manager of src/lifecycle/LifecycleManager.ts: its state. The components are the children.
-- Left out: the progress parser, the event emitter, and the timers' handles. `audit_fails` and
-- `store_fails` say whether `auditLog.append` and `store.save` throw, which the files decide.
pub mod Effects
pub mod Queue
pub mod Start
pub mod Watch
pub mod Target
pub mod Assess
pub mod Run
pub mod Restart
pub mod Runner
pub mod Safety
pub mod Events
use run_beacon.Base.{ℕ, Bool, Option, List}
use run_beacon.Base.Dict.{Dict}
use run_beacon.Base.Text.{Text}
use run_beacon.Types.{
  JobRecord, JobState, JobOutputChunk, ApprovalContext, PolicyRisk, PublicJobTarget, JobAdapter,
  ExecutionMode, OutputPolicy, TargetKind,
}
use run_beacon.Waits.{Waits}

-- `JobSnapshot` less its assessment: the record without output and digest, and a tail.
pub record JobSnapshot : Type 0 where
  pub summary : JobRecord
  pub tail : List JobOutputChunk

-- `SshJobTarget` or `LocalJobTarget`; the secrets, which stay in memory, are left out.
pub record JobTarget : Type 0 where
  pub kind : TargetKind
  pub host : Text
  pub port : Option ℕ
  pub username : Text
  pub host_key_sha256 : Option Text
  pub host_key_algorithm : Option Text
  pub allow_unverified_host_key : Bool
  pub runner_path : Option Text

pub record StartJobInput : Type 0 where
  pub command : Text
  pub idempotency_key : Option Text
  pub args : List Text
  pub cwd : Option Text
  pub label : Option Text
  pub timeout_ms : Option ℕ
  pub target : Option JobTarget
  pub progress_pattern : Option Text
  pub execution_mode : Option ExecutionMode
  pub require_durable : Bool
  pub adapter : Option JobAdapter
  pub output_policy : OutputPolicy
  pub event_subscriptions : List ℕ
  pub credential_profile_id : Option Text
  pub request_trace_id : Option ℕ

pub data AuditAction : Type 0 where
  job_start approval job_terminal : AuditAction

pub data AuditOutcome : Type 0 where
  awaiting_approval queued approved rejected expired : AuditOutcome
  terminal : JobState → AuditOutcome

pub record AuditEntry : Type 0 where
  pub action : AuditAction
  pub outcome : AuditOutcome
  pub job_id : ℕ
  pub risk : PolicyRisk
  pub command_digest : Option Text

pub record RuntimeHandle : Type 0 where
  pub cancellation_verified : Bool

pub record ChangeWaiter : Type 0 where
  pub id : ℕ
  pub after_version : ℕ
  pub tail_lines : ℕ

-- The outcome of a `job_watch` promise.
pub data WatchSettlement : Type 0 where
  changed : JobSnapshot → WatchSettlement
  unchanged : JobSnapshot → WatchSettlement
  watch_failed : WatchSettlement

pub record Manager : Type 0 where
  pub max_concurrent_jobs : ℕ
  pub max_output_bytes : ℕ
  pub max_retained_jobs : ℕ
  pub approval_ttl_seconds : ℕ
  pub jobs : Dict JobRecord
  pub pending_inputs : Dict StartJobInput
  pub queue : List ℕ
  pub active_jobs : List ℕ
  pub approval_contexts : Dict ApprovalContext
  pub runtime_handles : Dict RuntimeHandle
  pub waits : Waits JobSnapshot
  pub change_waiters : Dict (Dict ChangeWaiter)
  pub watched : List (ℕ × WatchSettlement)
  pub sequence : ℕ
  pub persistence_timer : Bool
  pub persistence_healthy : Bool
  pub stored : List JobRecord
  pub audit : List AuditEntry
  pub dispatched : List (ℕ × JobState)
  pub cancelled_runs : List ℕ
  pub drain_scheduled : Bool
  pub disposed : Bool
  pub audit_fails : Bool
  pub store_fails : Bool
