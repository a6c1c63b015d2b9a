-- ===== src/Store/Tests.antt =====
-- The store of src/lifecycle/JobStore.ts on a job, and the theorems at concrete files.
use run_beacon.Base.{◌≡◌, refl, [], ◌∷◌, ◌++◌, false, none, some, arith, length, if◌then◌else◌}
use run_beacon.Base.Dict.{lookup}
use run_beacon.Base.Text.{text_eq, ascii, decimal}
use run_beacon.Types.{JobRecord, JobState, TargetKind}
use run_beacon.Store.{Redactor, RawJob, known, normalize_job, normalize_fields, raw_of, serialize}
use run_beacon.Store.Journal.{StoreOptions, Disk, recover, load, journaled}
use run_beacon.Store.Journal.Recovery.{Ready, cells_of}
use run_beacon.Store.Journal.Sessions.{
  start, crashed, serialize_all, restart, empty_disk, load-Run, recover_torn,
}
use run_beacon.Store.Normal.{IsRedacted, normalize_job-raw_of}

abbrev plain : Redactor
plain = record { redact_command = λ text. text }

abbrev options : StoreOptions
options = record {
  redactor = plain;
  persist_output = false;
  checksum_payload = λ payload. ascii "sum";
  journal_bytes = λ lines. length lines;
}

abbrev raw_job : RawJob
raw_job = record {
  id = some 7;
  idempotency_key = none;
  command_digest = none;
  label = none;
  display_command = none;
  target = some (record {
    kind = TargetKind.local;
    host = none;
    port = none;
    username = none;
    verified_host_key = none;
    host_key_sha256 = none;
    host_key_algorithm = none;
    runner_path = none;
  });
  state = some (known JobState.running);
  created_at = some 1;
  started_at = none;
  finished_at = none;
  updated_at = some 1;
  version = some 3;
  exit_code = none;
  signal = none;
  error = none;
  cancel_requested = none;
  cancellation_verified = none;
  last_output_at = none;
  timing = none;
  execution = none;
  policy = none;
  adapter = none;
  output_policy = none;
  event_subscriptions = none;
  credential_profile_id = none;
  output = none;
  output_truncated = none;
}

-- The job that is read.
abbrev the_job : JobRecord
the_job =
    normalize_fields plain false 7 1 1 (known JobState.running)
      (record {
        kind = TargetKind.local;
        host = none;
        port = none;
        username = none;
        verified_host_key = none;
        host_key_sha256 = none;
        host_key_algorithm = none;
        runner_path = none;
      })
      raw_job

read_back : normalize_job plain false raw_job ≡ some the_job
unfolding normalize_job normalize_fields
read_back = refl

-- It hides the value of TOKEN where that is all of the text.
abbrev redacting : Redactor
redacting = record {
  redact_command =
      λ text. if text_eq text (ascii "TOKEN=abc") then ascii "TOKEN=[REDACTED]" else text;
}

abbrev secret_raw_job : RawJob
secret_raw_job = record raw_job { display_command = some (ascii "TOKEN=abc") }

abbrev secret_job : JobRecord
secret_job = record the_job { display_command = ascii "TOKEN=[REDACTED]" }

secret_read : normalize_job redacting false secret_raw_job ≡ some secret_job
unfolding normalize_job normalize_fields decimal
secret_read = refl

secret_job-IsRedacted : IsRedacted redacting secret_job
unfolding decimal normalize_fields
secret_job-IsRedacted = record { label = refl; command = refl; error = refl }

normalize_job-raw_of_example : normalize_job redacting false (raw_of secret_job) ≡ some secret_job
normalize_job-raw_of_example =
    normalize_job-raw_of redacting false secret_raw_job secret_job secret_read secret_job-IsRedacted

serialized : serialize_all options (the_job ∷ []) ≡ the_job ∷ []
unfolding normalize_fields serialize decimal
serialized = refl

the_job-Ready : Ready options (λ k. none) (serialize_all options (the_job ∷ []))
unfolding normalize_fields serialize lookup normalize_job raw_of decimal
the_job-Ready = record {
  stable = (refl, tt);
  unique = (refl, tt);
  steady = λ k b j h e. ground (arith, h);
}

-- The files of a first save that was cut off after the record of the journal.
abbrev cut_off : Disk
cut_off = (journaled options (serialize_all options (the_job ∷ [])) (restart options empty_disk)).1

load-Run_example : cells_of (load options (restart options cut_off).1).0 7 ≡ some the_job
unfolding lookup serialize normalize_fields decimal
load-Run_example = load-Run options (crashed (the_job ∷ []) start the_job-Ready) 7

recover_torn_example :
    recover options (record cut_off { journal = cut_off.journal ++ none ∷ none ∷ [] })
    ≡ recover options cut_off
recover_torn_example = recover_torn options cut_off (none ∷ [])
