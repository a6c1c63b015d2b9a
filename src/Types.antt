-- ===== src/Types.antt =====
-- src/lifecycle/types.ts: the records and enumerations of a job. Identifiers that the program only
-- compares (job ids, subscription ids, waiter ids) are numbers, times are milliseconds, and an
-- text is the list of its UTF-8 bytes. The fields `pid`, `metadata`, `progress`,
-- `lastProgressAt` and `progressPattern` of a job, which only the progress parser and the local
-- process runner write, are left out; so are the target's secrets.
use run_beacon.Base.{ℕ, Bool, true, false, Option, List}

pub data JobState : Type 0 where
  queued running succeeded failed cancelled timed_out lost : JobState

pub data JobPhase : Type 0 where
  awaiting_approval queued resolving_credentials connecting submitting executing : JobPhase
  reconnecting cancelling finalizing finished : JobPhase

pub data JobBackend : Type 0 where
  local ssh_direct ssh_runner github : JobBackend

pub data JobConnectionState : Type 0 where
  not_applicable disconnected connecting connected reconnecting : JobConnectionState

pub data ExecutionMode : Type 0 where
  auto direct runner : ExecutionMode

pub data JobAdapter : Type 0 where
  generic training slurm apple_signing : JobAdapter

pub data OutputMode : Type 0 where
  tail full none : OutputMode

pub record OutputPolicy : Type 0 where
  pub mode : OutputMode
  pub max_bytes : ℕ
  pub retention_hours : ℕ

pub record JobExecution : Type 0 where
  pub backend : JobBackend
  pub phase : JobPhase
  pub connection_state : JobConnectionState
  pub durable : Bool
  pub resumable : Bool
  pub runner_version : Option (List ℕ)
  pub remote_job_id : Option ℕ
  pub reconnect_count : ℕ
  pub last_event_sequence : ℕ

pub data PolicyRisk : Type 0 where
  standard privileged credential release destructive : PolicyRisk

pub data Approval : Type 0 where
  not_required pending approved rejected expired : Approval

pub record JobPolicyStatus : Type 0 where
  pub risk : PolicyRisk
  pub approval : Approval
  pub approved_at : Option ℕ
  pub grant_expires_at : Option ℕ

pub data TargetKind : Type 0 where
  local ssh : TargetKind

pub record PublicJobTarget : Type 0 where
  pub kind : TargetKind
  pub host : Option (List ℕ)
  pub port : Option ℕ
  pub username : Option (List ℕ)
  pub verified_host_key : Option Bool
  pub host_key_sha256 : Option (List ℕ)
  pub host_key_algorithm : Option (List ℕ)
  pub runner_path : Option (List ℕ)

pub record ApprovalContext : Type 0 where
  pub job_id : ℕ
  pub command_digest : List ℕ
  pub target : PublicJobTarget
  pub credential_profile_id : Option (List ℕ)
  pub risk : PolicyRisk

pub data JobOutputStream : Type 0 where
  stdout stderr system : JobOutputStream

pub record JobOutputChunk : Type 0 where
  pub sequence : ℕ
  pub stream : JobOutputStream
  pub text : List ℕ
  pub timestamp : ℕ

pub record JobTiming : Type 0 where
  pub request_trace_id : Option ℕ
  pub command_started_at : Option ℕ
  pub ssh_ready_at : Option ℕ
  pub first_output_at : Option ℕ
  pub runner_accepted_at : Option ℕ
  pub disconnected_at : Option ℕ
  pub recovered_at : Option ℕ

-- The four output fields of a `JobRecord`.
pub record OutputBuffer : Type 0 where
  pub output : List JobOutputChunk
  pub output_bytes : ℕ
  pub output_lines : ℕ
  pub output_truncated : Bool

pub record JobRecord : Type 0 where
  pub id : ℕ
  pub idempotency_key : Option (List ℕ)
  pub command_digest : Option (List ℕ)
  pub label : List ℕ
  pub display_command : List ℕ
  pub target : PublicJobTarget
  pub state : JobState
  pub created_at : ℕ
  pub started_at : Option ℕ
  pub finished_at : Option ℕ
  pub updated_at : ℕ
  pub version : ℕ
  pub exit_code : Option ℕ
  pub signal : Option (List ℕ)
  pub error : Option (List ℕ)
  pub cancel_requested : Bool
  pub cancellation_verified : Option Bool
  pub last_output_at : Option ℕ
  pub timing : JobTiming
  pub execution : JobExecution
  pub policy : JobPolicyStatus
  pub adapter : JobAdapter
  pub output_policy : OutputPolicy
  pub event_subscriptions : List ℕ
  pub credential_profile_id : Option (List ℕ)
  pub buffer : OutputBuffer
  pub open buffer use *

-- `isTerminalJobState`, membership in `TERMINAL_JOB_STATES`.
abbrev pub is_terminal_job_state : JobState → Bool
is_terminal_job_state succeeded = true
is_terminal_job_state failed = true
is_terminal_job_state cancelled = true
is_terminal_job_state timed_out = true
is_terminal_job_state lost = true
is_terminal_job_state _ = false
