-- ===== src/Store.antt =====
-- The job store of src/lifecycle/JobStore.ts: what is written of a job and what is read back. Redaction,
-- a replacement by regular expressions, is a parameter. A value that was read has the fields of a job,
-- each `none` where the JSON does not hold a value of the field's type; the id is a UUID and a time is
-- an ISO date, where they are texts. Texts are ASCII, so that `slice` counts bytes. The
-- members of a job that the records of Types leave out (the pid, the progress, the metadata) are left out. The child Journal
-- has the files.
pub mod Journal
pub mod Again
pub mod Normal
pub mod Tests
use run_beacon.Base.{
  ℕ, zero, suc, ◌+◌, ◌*◌, ◌++◌, drop, min, max, List, [], ◌∷◌, Bool, true, false, ◌&&◌, ◌||◌, not,
  Option, none, some, length, ltb, leb, ◌==◌, if◌then◌else◌, get_or, take, map, is_empty, filter,
}
use run_beacon.Base.Text.{Text, ascii, decimal, text_eq}
use run_beacon.Audit.{is_digest, lower}
use run_beacon.Manager.Start.{is_profile_id}
use run_beacon.Types.{
  JobRecord, JobState, JobPhase, JobBackend, JobConnectionState, JobAdapter, OutputMode,
  OutputPolicy, Approval, PolicyRisk, JobPolicyStatus, JobExecution, TargetKind, PublicJobTarget,
  JobTiming, JobOutputChunk, JobOutputStream, OutputBuffer, is_terminal_job_state,
}

-- `redactCommand`
pub record Redactor : Type 0 where
  pub redact_command : Text → Text

pub data RawState : Type 0 where
  known : JobState → RawState
  orphaned : RawState

pub record RawTarget : Type 0 where
  pub kind : TargetKind
  pub host : Option Text
  pub port : Option ℕ
  pub username : Option Text
  pub verified_host_key : Option Bool
  pub host_key_sha256 : Option Text
  pub host_key_algorithm : Option Text
  pub runner_path : Option Text

pub record RawExecution : Type 0 where
  pub backend : Option JobBackend
  pub phase : Option JobPhase
  pub connection_state : Option JobConnectionState
  pub durable : Option Bool
  pub resumable : Option Bool
  pub runner_version : Option Text
  pub remote_job_id : Option ℕ
  pub reconnect_count : Option ℕ
  pub last_event_sequence : Option ℕ

pub record RawPolicy : Type 0 where
  pub risk : Option PolicyRisk
  pub approval : Option Approval
  pub approved_at : Option ℕ
  pub grant_expires_at : Option ℕ

pub record RawOutputPolicy : Type 0 where
  pub mode : Option OutputMode
  pub max_bytes : Option ℕ
  pub retention_hours : Option ℕ

pub record RawJob : Type 0 where
  pub id : Option ℕ
  pub idempotency_key : Option Text
  pub command_digest : Option Text
  pub label : Option Text
  pub display_command : Option Text
  pub target : Option RawTarget
  pub state : Option RawState
  pub created_at : Option ℕ
  pub started_at : Option ℕ
  pub finished_at : Option ℕ
  pub updated_at : Option ℕ
  pub version : Option ℕ
  pub exit_code : Option ℕ
  pub signal : Option Text
  pub error : Option Text
  pub cancel_requested : Option Bool
  pub cancellation_verified : Option Bool
  pub last_output_at : Option ℕ
  pub timing : Option JobTiming
  pub execution : Option RawExecution
  pub policy : Option RawPolicy
  pub adapter : Option JobAdapter
  pub output_policy : Option RawOutputPolicy
  pub event_subscriptions : Option (List ℕ)
  pub credential_profile_id : Option Text
  pub output : Option (List (Option JobOutputChunk))
  pub output_truncated : Option Bool

-- `redactPersistedText`
abbrev pub redact_persisted_text : Redactor → ℕ → Text → Text
redact_persisted_text r max_length value = take max_length (r.redact_command value)

-- `MAX_PERSISTED_STRING_LENGTH`
abbrev pub max_persisted : ℕ
max_persisted = 4000

-- `x === true`
abbrev pub is_true : Option Bool → Bool
is_true (some true) = true
is_true _ = false

abbrev pub keep_if {ℓ} : {A : Type ℓ} → (A → Bool) → Option A → Option A
keep_if test none = none
keep_if test (some a) = if test a then some a else none

abbrev pub map_some {ℓ κ} : {A : Type ℓ} {B : Type κ} → (A → B) → Option A → Option B
map_some f none = none
map_some f (some a) = some (f a)

-- The line feeds of a text: `split(/\r?\n/).length - 1`.
pub line_feeds : Text → ℕ
line_feeds [] = 0
line_feeds (b ∷ bs) = if b == 10 then line_feeds bs + 1 else line_feeds bs

pub bytes_of : List JobOutputChunk → ℕ
bytes_of [] = 0
bytes_of (c ∷ cs) = length c.text + bytes_of cs

pub lines_of : List JobOutputChunk → ℕ
unfolding line_feeds
lines_of [] = 0
lines_of (c ∷ cs) = max 1 (line_feeds c.text) + lines_of cs

-- The chunks that are of the right form.
pub chunks_of : List (Option JobOutputChunk) → List JobOutputChunk
chunks_of [] = []
chunks_of (none ∷ cs) = chunks_of cs
chunks_of (some c ∷ cs) = c ∷ chunks_of cs

pub buffer_of : List JobOutputChunk → Bool → OutputBuffer
unfolding bytes_of lines_of
buffer_of chunks truncated = record {
  output = chunks;
  output_bytes = bytes_of chunks;
  output_lines = lines_of chunks;
  output_truncated = truncated;
}

-- `serialize`, with `persistOutput`.
pub serialize : Redactor → Bool → JobRecord → JobRecord
unfolding buffer_of
serialize r persist_output job = record job {
  label = redact_persisted_text r 120 job.label;
  display_command = redact_persisted_text r 4000 job.display_command;
  error =
      map_some (redact_persisted_text r max_persisted)
        (keep_if (λ text. not (is_empty text)) job.error);
  buffer =
      buffer_of
        (if persist_output
          then map
              (λ (c : JobOutputChunk). record c {
                text = redact_persisted_text r (64 * 1024) c.text;
              })
              job.output
          else [])
        job.output_truncated;
}

pub is_port : ℕ → Bool
is_port port = leb 1 port && leb port 65535

is_base64_byte : ℕ → Bool
is_base64_byte b =
    (leb b'0' b && leb b b'9')
    || (leb b'A' b && leb b b'Z')
    || (leb b'a' b && leb b b'z')
    || b == b'+'
    || b == b'/'

all_base64 : ℕ → Text → Bool
unfolding is_base64_byte
all_base64 zero [] = true
all_base64 zero (b ∷ bs) = text_eq (b ∷ bs) (ascii "=")
all_base64 (suc n) [] = false
all_base64 (suc n) (b ∷ bs) = is_base64_byte b && all_base64 n bs

-- `/^SHA256:[A-Za-z0-9+/]{43}=?$/`
pub is_host_key : Text → Bool
unfolding all_base64
is_host_key value = text_eq (take 7 value) (ascii "SHA256:") && all_base64 43 (drop 7 value)

-- `normalizePublicTarget`
pub normalize_public_target : RawTarget → PublicJobTarget
unfolding is_port is_host_key
normalize_public_target value = elim value.kind [
  | TargetKind.local ↦ record {
    kind = TargetKind.local;
    host = none;
    port = none;
    username = none;
    verified_host_key = none;
    host_key_sha256 = none;
    host_key_algorithm = none;
    runner_path = none;
  }
  | TargetKind.ssh ↦ record {
    kind = TargetKind.ssh;
    host = map_some (take 253) value.host;
    port = some (get_or (keep_if is_port value.port) 22);
    username = map_some (take 128) value.username;
    verified_host_key = some (is_true value.verified_host_key);
    host_key_sha256 = keep_if is_host_key value.host_key_sha256;
    host_key_algorithm = map_some (take 64) value.host_key_algorithm;
    runner_path = map_some (take 4000) value.runner_path;
  }
]

abbrev pub read_state : RawState → JobState
read_state (known state) = state
read_state orphaned = JobState.lost

abbrev stored_backend : Option JobBackend → Option JobBackend
stored_backend (some JobBackend.ssh_runner) = some JobBackend.ssh_runner
stored_backend (some JobBackend.github) = some JobBackend.github
stored_backend (some JobBackend.local) = some JobBackend.local
stored_backend _ = none

abbrev default_backend : TargetKind → JobBackend
default_backend TargetKind.ssh = JobBackend.ssh_direct
default_backend TargetKind.local = JobBackend.local

abbrev empty_execution : RawExecution
empty_execution = record {
  backend = none;
  phase = none;
  connection_state = none;
  durable = none;
  resumable = none;
  runner_version = none;
  remote_job_id = none;
  reconnect_count = none;
  last_event_sequence = none;
}

abbrev connection_of : JobBackend → Bool → Option JobConnectionState → JobConnectionState
connection_of JobBackend.local terminal stored = JobConnectionState.not_applicable
connection_of _ true stored = JobConnectionState.disconnected
connection_of _ false stored = get_or stored JobConnectionState.disconnected

-- `normalizeExecution`, with the state and the kind of the target of the raw job.
pub normalize_execution : JobState → TargetKind → Option RawExecution → JobExecution
normalize_execution state kind raw =
    let execution = get_or raw empty_execution in
    let backend = get_or (stored_backend execution.backend) (default_backend kind) in
    let terminal = is_terminal_job_state state in
    record {
      backend = backend;
      phase = if terminal then JobPhase.finished else get_or execution.phase JobPhase.queued;
      connection_state = connection_of backend terminal execution.connection_state;
      durable = is_true execution.durable;
      resumable = is_true execution.resumable;
      runner_version = map_some (take 64) execution.runner_version;
      remote_job_id = execution.remote_job_id;
      reconnect_count = get_or execution.reconnect_count 0;
      last_event_sequence = get_or execution.last_event_sequence 0;
    }

-- `normalizePolicy`
pub normalize_policy : Option RawPolicy → JobPolicyStatus
normalize_policy none = record {
  risk = PolicyRisk.standard;
  approval = Approval.not_required;
  approved_at = none;
  grant_expires_at = none;
}
normalize_policy (some policy) = record {
  risk = get_or policy.risk PolicyRisk.standard;
  approval = get_or policy.approval Approval.not_required;
  approved_at = policy.approved_at;
  grant_expires_at = policy.grant_expires_at;
}

abbrev clamp : Option ℕ → ℕ → ℕ → ℕ → ℕ
clamp none lowest highest default = default
clamp (some n) lowest highest default = max lowest (min highest n)

abbrev empty_output_policy : RawOutputPolicy
empty_output_policy = record { mode = none; max_bytes = none; retention_hours = none }

-- `normalizeOutputPolicy`
pub normalize_output_policy : Option RawOutputPolicy → OutputPolicy
normalize_output_policy raw =
    let policy = get_or raw empty_output_policy in
    record {
      mode = get_or policy.mode OutputMode.tail;
      max_bytes = clamp policy.max_bytes (64 * 1024) (1024 * 1024 * 1024) (64 * 1024 * 1024);
      retention_hours = clamp policy.retention_hours 1 (90 * 24) (7 * 24);
    }

-- `normalizeTiming`; a field that is no date is `none`.
abbrev normalize_timing : Option JobTiming → JobTiming
normalize_timing none = record {
  request_trace_id = none;
  command_started_at = none;
  ssh_ready_at = none;
  first_output_at = none;
  runner_accepted_at = none;
  disconnected_at = none;
  recovered_at = none;
}
normalize_timing (some timing) = timing

-- What of a job stands and falls with its id, its times, its state and its target.
pub normalize_fields : Redactor → Bool → ℕ → ℕ → ℕ → RawState → RawTarget → RawJob → JobRecord
unfolding normalize_public_target normalize_execution normalize_policy normalize_output_policy
    buffer_of chunks_of
normalize_fields r persist_output id created updated state target raw = record {
  id = id;
  idempotency_key = map_some (take 200) raw.idempotency_key;
  command_digest = map_some lower (keep_if is_digest raw.command_digest);
  label =
      get_or (map_some (redact_persisted_text r 120) raw.label)
        (ascii "Job " ++ take 8 (decimal id));
  display_command =
      get_or (map_some (redact_persisted_text r max_persisted) raw.display_command)
        (ascii "[unknown]");
  target = normalize_public_target target;
  state = read_state state;
  created_at = created;
  started_at = raw.started_at;
  finished_at = raw.finished_at;
  updated_at = updated;
  version = get_or raw.version 1;
  exit_code = raw.exit_code;
  signal = raw.signal;
  error = map_some (redact_persisted_text r max_persisted) raw.error;
  cancel_requested = is_true raw.cancel_requested;
  cancellation_verified = raw.cancellation_verified;
  last_output_at = raw.last_output_at;
  timing = normalize_timing raw.timing;
  execution = normalize_execution (read_state state) target.kind raw.execution;
  policy = normalize_policy raw.policy;
  adapter = get_or raw.adapter JobAdapter.generic;
  output_policy = normalize_output_policy raw.output_policy;
  event_subscriptions = take 16 (get_or raw.event_subscriptions []);
  credential_profile_id = keep_if is_profile_id raw.credential_profile_id;
  buffer =
      buffer_of (if persist_output then chunks_of (get_or raw.output []) else [])
        (is_true raw.output_truncated);
}

-- `normalizeJob`; `none` where a field is missing without which there is no job.
pub normalize_job : Redactor → Bool → RawJob → Option JobRecord
unfolding normalize_fields
normalize_job r persist_output raw = elim raw.id [
  | none ↦ none
  | some id ↦ elim raw.created_at [
    | none ↦ none
    | some created ↦ elim raw.updated_at [
      | none ↦ none
      | some updated ↦ elim raw.state [
        | none ↦ none
        | some state ↦ elim raw.target [
          | none ↦ none
          | some target ↦
              some (normalize_fields r persist_output id created updated state target raw)
        ]
      ]
    ]
  ]
]

-- What `JSON.parse` makes of a target, an execution and a job that `JSON.stringify` wrote.
abbrev pub raw_target : PublicJobTarget → RawTarget
raw_target t = record {
  kind = t.kind;
  host = t.host;
  port = t.port;
  username = t.username;
  verified_host_key = t.verified_host_key;
  host_key_sha256 = t.host_key_sha256;
  host_key_algorithm = t.host_key_algorithm;
  runner_path = t.runner_path;
}

abbrev pub raw_execution : JobExecution → RawExecution
raw_execution e = record {
  backend = some e.backend;
  phase = some e.phase;
  connection_state = some e.connection_state;
  durable = some e.durable;
  resumable = some e.resumable;
  runner_version = e.runner_version;
  remote_job_id = e.remote_job_id;
  reconnect_count = some e.reconnect_count;
  last_event_sequence = some e.last_event_sequence;
}

abbrev pub raw_policy : JobPolicyStatus → RawPolicy
raw_policy p = record {
  risk = some p.risk;
  approval = some p.approval;
  approved_at = p.approved_at;
  grant_expires_at = p.grant_expires_at;
}

abbrev pub raw_output_policy : OutputPolicy → RawOutputPolicy
raw_output_policy p = record {
  mode = some p.mode;
  max_bytes = some p.max_bytes;
  retention_hours = some p.retention_hours;
}

pub raw_of : JobRecord → RawJob
raw_of job = record {
  id = some job.id;
  idempotency_key = job.idempotency_key;
  command_digest = job.command_digest;
  label = some job.label;
  display_command = some job.display_command;
  target = some (raw_target job.target);
  state = some (known job.state);
  created_at = some job.created_at;
  started_at = job.started_at;
  finished_at = job.finished_at;
  updated_at = some job.updated_at;
  version = some job.version;
  exit_code = job.exit_code;
  signal = job.signal;
  error = job.error;
  cancel_requested = some job.cancel_requested;
  cancellation_verified = job.cancellation_verified;
  last_output_at = job.last_output_at;
  timing = some job.timing;
  execution = some (raw_execution job.execution);
  policy = some (raw_policy job.policy);
  adapter = some job.adapter;
  output_policy = some (raw_output_policy job.output_policy);
  event_subscriptions = some job.event_subscriptions;
  credential_profile_id = job.credential_profile_id;
  output = some (map (λ c. some c) job.output);
  output_truncated = some job.output_truncated;
}
