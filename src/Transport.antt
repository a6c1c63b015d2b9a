-- ===== src/Transport.antt =====
-- The runner's SSH transport, src/lifecycle/RunnerTransport.ts: `call` and `execute` over the events of the connection,
-- and the command that it runs. The messages of errors are left out; so are the members of the
-- connection's configuration that only ssh2 reads. What `JSON.parse` makes of the output is a
-- parameter, and so is the test for `not found`. An event without a listener changes nothing; `exec` calls back once, and
-- `connect` throws before the client is ready.
pub mod Ambiguity
pub mod Command
pub mod Probe
mod Tests
use run_beacon.Base.{
  ℕ, ◌+◌, min, max, List, [], ◌∷◌, ◌++◌, Bool, true, false, not, ◌&&◌, ◌||◌, Option, none, some,
  ltb, leb, ◌==◌, if◌then◌else◌, length, all, take, get_or, is_some,
}
use run_beacon.Base.Text.{Text, ascii, text_eq, trim, is_alphanumeric}

abbrev pub max_runner_response_bytes : ℕ
max_runner_response_bytes = 8388608

abbrev pub runner_protocol_version : ℕ
runner_protocol_version = 1

pub data TransportCode : Type 0 where
  runner_unavailable runner_not_installed host_key_mismatch runner_response_too_large :
      TransportCode
  runner_response_lost runner_protocol_mismatch runner_rpc_failed : TransportCode
  runner_code : Text → TransportCode

pub record RunnerTransportError : Type 0 where
  pub code : TransportCode
  pub ambiguous : Bool

-- `error` is none where it is missing, and its code is none where that is missing or empty; `ok` is none
-- where it is no Boolean.
pub record RunnerResponse (A : Type 0) : Type 0 where
  pub protocol_version : Option ℕ
  pub ok : Option Bool
  pub result : Option A
  pub error_code : Option Text

-- What `JSON.parse` makes of the output.
pub data Parsed (A : Type 0) : Type 0 where
  response : RunnerResponse A → Parsed A
  null invalid : Parsed A

pub data Executed (A : Type 0) : Type 0 where
  resolved : Option (RunnerResponse A) → Executed A
  rejected : RunnerTransportError → Executed A

-- The verifier of the host's key with its verdict, `ready`, the callback of `exec`, the events of the channel and of
-- the client, the timer, and an exception of `connect`.
pub data Event : Type 0 where
  key_checked : Bool → Event
  ready exec_failed channel_opened channel_error : Event
  output errors : Text → Event
  channel_closed : Option ℕ → Event
  client_error client_closed timed_out connect_threw : Event

pub record Session (A : Type 0) : Type 0 where
  pub is_ready : Bool
  pub rpc_started : Bool
  pub host_key_rejected : Bool
  pub stdout : Text
  pub stderr : Text
  pub settled : Option (Executed A)

abbrev pub error : {A : Type 0} → TransportCode → Bool → Executed A
error code is_ambiguous = rejected (record { code = code; ambiguous = is_ambiguous })

abbrev pub first : {A : Type 0} → Executed A → Option (Executed A) → Option (Executed A)
first outcome none = some outcome
first outcome (some earlier) = some earlier

-- `finish`
unfoldable pub finish : {A : Type 0} → Executed A → Session A → Session A
finish outcome x = record x { settled = first outcome x.settled }

unfoldable pub parsed : {A : Type 0} → Parsed A → Executed A
parsed (response r) = resolved (some r)
parsed null = resolved none
parsed invalid = error runner_protocol_mismatch true

-- The callback of `exec`.
on_exec : {A : Type 0} → Event → Session A → Session A
unfolding finish
on_exec exec_failed x = finish (error runner_unavailable false) x
on_exec channel_opened x = record x { rpc_started = true }
on_exec other x = x

-- The outcome of a channel that closes with a status.
module _ {A : Type 0} (parse : Text → Parsed A) (is_not_found : Text → Bool) where
  closed_with : Session A → Option ℕ → Executed A
  unfolding parsed
  closed_with x none =
      error
        (if is_not_found (take 1000 (trim x.stderr))
          then runner_not_installed
          else runner_unavailable)
        false
  closed_with x (some code) =
      if code == 0
      then parsed (parse x.stdout)
      else error
          (if code == 127 || is_not_found (take 1000 (trim x.stderr))
            then runner_not_installed
            else runner_unavailable)
          false

  -- A listener of the channel: it is there once the channel is open.
  on_channel : Event → Session A → Session A
  unfolding finish closed_with
  on_channel (output value) x =
      if ltb max_runner_response_bytes (length x.stdout + length value)
      then finish (error runner_response_too_large x.rpc_started) x
      else record x { stdout = x.stdout ++ value }
  on_channel (errors value) x =
      if ltb max_runner_response_bytes (length x.stderr + length value)
      then finish (error runner_response_too_large x.rpc_started) x
      else record x { stderr = x.stderr ++ value }
  on_channel channel_error x = finish (error runner_response_lost true) x
  on_channel (channel_closed code) x = finish (closed_with x code) x
  on_channel other x = x

  pub receive : Event → Session A → Session A
  unfolding finish on_channel on_exec
  receive (key_checked matches) x = record x {
    host_key_rejected = x.host_key_rejected || not matches;
  }
  receive ready x = record x { is_ready = true }
  receive timed_out x =
      finish
        (error (if x.rpc_started then runner_response_lost else runner_unavailable) x.rpc_started) x
  receive client_error x =
      finish
        (error
          (if x.host_key_rejected
            then host_key_mismatch
            else if x.is_ready
            then runner_response_lost
            else runner_unavailable)
          (x.is_ready && x.rpc_started))
        x
  receive client_closed x =
      finish
        (error
          (if x.host_key_rejected
            then host_key_mismatch
            else if x.rpc_started
            then runner_response_lost
            else runner_unavailable)
          x.rpc_started)
        x
  receive connect_threw x = if x.is_ready then x else finish (error runner_unavailable false) x
  receive exec_failed x = if x.is_ready && not x.rpc_started then on_exec exec_failed x else x
  receive channel_opened x = if x.is_ready && not x.rpc_started then on_exec channel_opened x else x
  receive other x = if x.rpc_started then on_channel other x else x

  -- `finish` takes the listeners away.
  pub step : Event → Session A → Session A
  unfolding receive
  step e x = if is_some x.settled then x else receive e x

  pub run : Session A → List Event → Session A
  unfolding step
  run x [] = x
  run x (e ∷ events) = run (step e x) events

abbrev pub fresh : {A : Type 0} → Session A
fresh = record {
  is_ready = false;
  rpc_started = false;
  host_key_rejected = false;
  stdout = [];
  stderr = [];
  settled = none;
}

-- A byte of `[A-Za-z0-9._/+@-]`.
unfoldable pub is_path_byte : ℕ → Bool
is_path_byte b =
    is_alphanumeric b || b == b'.' || b == b'_' || b == b'/' || b == b'+' || b == b'@' || b == b'-'

-- `RUNNER_PATH_PATTERN`
unfoldable pub is_runner_path : Text → Bool
unfolding is_path_byte
is_runner_path [] = false
is_runner_path (b ∷ bs) =
    b == b'/' && leb 1 (length bs) && leb (length bs) 1023 && all is_path_byte bs

-- `runnerCommand`; `none` where it throws RUNNER_UNAVAILABLE.
unfoldable pub runner_command : Option Text → Option Text
unfolding is_runner_path
runner_command none = some (ascii "$HOME/.local/bin/runbeacon-runner rpc")
runner_command (some []) = some (ascii "$HOME/.local/bin/runbeacon-runner rpc")
runner_command (some (b ∷ bs)) =
    if is_runner_path (b ∷ bs) then some (ascii "'" ++ ((b ∷ bs) ++ ascii "' rpc")) else none

-- What `call` returns: a result or `{}`, an error of the transport, or another one.
pub data Called (A : Type 0) : Type 0 where
  result : Option A → Called A
  failed : RunnerTransportError → Called A
  threw : Called A

is_version : Option ℕ → Bool
is_version none = false
is_version (some version) = version == runner_protocol_version

code_of : Option Text → TransportCode
code_of none = runner_rpc_failed
code_of (some code) = runner_code code

of_ok : {A : Type 0} → Option A → Option Text → Bool → Called A
unfolding code_of
of_ok found code true = result found
of_ok found code false = failed (record { code = code_of code; ambiguous = false })

checked : {A : Type 0} → RunnerResponse A → Called A
unfolding is_version of_ok
checked r = elim (r.ok) [
  | none ↦ failed (record { code = runner_protocol_mismatch; ambiguous = false })
  | some is_ok ↦
      if is_version r.protocol_version
      then of_ok r.result r.error_code is_ok
      else failed (record { code = runner_protocol_mismatch; ambiguous = false })
]

of_executed : {A : Type 0} → Executed A → Called A
unfolding checked
of_executed (resolved none) = threw
of_executed (resolved (some r)) = checked r
of_executed (rejected e) = failed e

-- `execute`, and `call` on what it gives; `none` while it waits.
pub execute :
    {A : Type 0}
    → (Text → Parsed A)
    → (Text → Bool)
    → Option Text
    → List Event
    → Option (Executed A)
unfolding runner_command run
execute parse is_not_found runner_path events = elim (runner_command runner_path) [
  | none ↦ some (error runner_unavailable false)
  | some command ↦ (run parse is_not_found fresh events).settled
]

pub call :
    {A : Type 0} → (Text → Parsed A) → (Text → Bool) → Option Text → List Event → Option (Called A)
unfolding execute of_executed
call parse is_not_found runner_path events = elim (execute parse is_not_found runner_path events) [
  | none ↦ none
  | some outcome ↦ some (of_executed outcome)
]
