-- ===== src/Audit.antt =====
-- The audit log of src/lifecycle/AuditLog.ts. The file is the list of its lines that are not blank,
-- each parsed, with `none` for a line that `JSON.parse` refuses; a line that was written parses to
-- its record. The SHA-256 of a payload's JSON, in hexadecimal, is a parameter. Times are
-- milliseconds. Texts are ASCII, so that `slice` counts bytes. The members `sequence` and
-- `previousHash` of the class are set by every `append` before it reads them, and are locals here.
pub mod Chain
pub mod Digest
use run_beacon.Base.{
  ℕ, zero, suc, ◌+◌, min, max, List, [], ◌∷◌, ◌++◌, Bool, true, false, ◌&&◌, ◌||◌, not, Option,
  none, some, length, ◌==◌, ltb, leb, if◌then◌else◌, get_or, get_last?, take, take_last, filter,
  all, is_empty, map, reverse, drop,
}
use run_beacon.Base.Text.{Text, ascii, text_eq}

pub record AuditPayload : Type 0 where
  pub sequence : ℕ
  pub timestamp : ℕ
  pub action : Text
  pub outcome : Text
  pub job_id : Option Text
  pub target : Option Text
  pub risk : Option Text
  pub command_digest : Option Text
  pub previous_hash : Text

pub record AuditEvent : Type 0 where
  pub payload : AuditPayload
  pub hash : Text

-- The argument of `append`.
pub record NewEvent : Type 0 where
  pub action : Text
  pub outcome : Text
  pub job_id : Option Text
  pub target : Option Text
  pub risk : Option Text
  pub command_digest : Option Text

pub record AuditQuery : Type 0 where
  pub job_id : Option Text
  pub action : Option Text
  pub since : Option ℕ
  pub limit : Option ℕ

repeat : ℕ → ℕ → Text
repeat zero b = []
repeat (suc n) b = b ∷ repeat n b

-- `ZERO_HASH`
unfoldable pub zero_hash : Text
unfolding repeat
zero_hash = repeat 64 b'0'

-- The body of the loop of `readVerified`, from the sequence and the hash that it expects;
-- `none` where it throws an `AuditIntegrityError`.
pub verify_from :
    (AuditPayload → Text) → ℕ → Text → List (Option AuditEvent) → Option (List AuditEvent)
verify_from hash expected previous [] = some []
verify_from hash expected previous (none ∷ lines) = none
verify_from hash expected previous (some event ∷ lines) =
    let rest = verify_from hash (expected + 1) event.hash lines in
    if event.payload.sequence == expected
      && text_eq event.payload.previous_hash previous
      && text_eq event.hash (hash event.payload)
    then elim rest [ none ↦ none | some events ↦ some (event ∷ events) ]
    else none

-- `readVerified`
pub read_verified : (AuditPayload → Text) → List (Option AuditEvent) → Option (List AuditEvent)
unfolding verify_from
read_verified hash lines = verify_from hash 1 zero_hash lines

-- `/[\r\n\0]/g` replaced by a space
one_line : Text → Text
one_line [] = []
one_line (b ∷ bs) = (if b == 13 || b == 10 || b == 0 then 32 else b) ∷ one_line bs

pub bounded : Text → ℕ → Text
unfolding one_line
bounded value limit = take limit (one_line value)

pub optional_bounded : Option Text → ℕ → Option Text
unfolding bounded
optional_bounded none limit = none
optional_bounded (some []) limit = none
optional_bounded (some (b ∷ bs)) limit = some (bounded (b ∷ bs) limit)

-- A hexadecimal digit, in either case.
is_hex : ℕ → Bool
is_hex b = (leb b'0' b && leb b b'9') || (leb b'a' b && leb b b'f') || (leb b'A' b && leb b b'F')

lower_byte : ℕ → ℕ
lower_byte b = if leb b'A' b && leb b b'Z' then b + 32 else b

pub lower : Text → Text
unfolding lower_byte
lower [] = []
lower (b ∷ bs) = lower_byte b ∷ lower bs

-- `/^sha256:[0-9a-f]{64}$/i`
pub is_digest : Text → Bool
unfolding is_hex lower
is_digest value =
    text_eq (lower (take 7 value)) (ascii "sha256:")
    && length value == 71
    && all is_hex (drop 7 value)

normalize_digest : Option Text → Option Text
unfolding is_digest
normalize_digest none = none
normalize_digest (some value) = if is_digest value then some value else none

-- The payload that `append` writes after the verified events.
pub next_payload : ℕ → NewEvent → List AuditEvent → AuditPayload
unfolding bounded optional_bounded normalize_digest
next_payload now event verified =
    let last = get_last? verified in
    record {
      sequence = (elim last [ none ↦ 0 | some e ↦ e.payload.sequence ]) + 1;
      timestamp = now;
      action = bounded event.action 80;
      outcome = bounded event.outcome 80;
      job_id = optional_bounded event.job_id 128;
      target = optional_bounded event.target 256;
      risk = optional_bounded event.risk 32;
      command_digest = normalize_digest event.command_digest;
      previous_hash = elim last [ none ↦ zero_hash | some e ↦ e.hash ];
    }

-- `append`, with the file after it; `none` where it throws.
pub append :
    (AuditPayload → Text)
    → ℕ
    → NewEvent
    → List (Option AuditEvent)
    → Option AuditEvent × List (Option AuditEvent)
unfolding read_verified next_payload
append hash now event lines = elim (read_verified hash lines) [
  | none ↦ (none, lines)
  | some verified ↦
      let payload = next_payload now event verified in
      let written : AuditEvent = record { payload = payload; hash = hash payload } in
      (some written, lines ++ some written ∷ [])
]

-- An absent or empty text of a query, or one that the event has.
abbrev asks : Option Text → Option Text → Bool
asks none value = true
asks (some []) value = true
asks (some (b ∷ bs)) none = false
asks (some (b ∷ bs)) (some value) = text_eq value (b ∷ bs)

abbrev is_since : Option ℕ → ℕ → Bool
is_since none timestamp = true
is_since (some since) timestamp = leb since timestamp

pub matches : AuditQuery → AuditEvent → Bool
matches query event =
    asks query.job_id event.payload.job_id
    && asks query.action (some event.payload.action)
    && is_since query.since event.payload.timestamp

-- `query`; `none` where it throws.
pub query_log :
    (AuditPayload → Text) → AuditQuery → List (Option AuditEvent) → Option (List AuditEvent)
unfolding read_verified matches
query_log hash query lines =
    let limit = max 1 (min 1000 (get_or query.limit 100)) in
    elim (read_verified hash lines) [
      | none ↦ none
      | some verified ↦ some (reverse (take_last limit (filter (matches query) verified)))
    ]
