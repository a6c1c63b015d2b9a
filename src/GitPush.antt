-- ===== src/GitPush.antt =====
-- The push with retries of src/lifecycle/GitHubPublish.ts, and the parser of the credential that Git
-- prints. The attempts are a parameter: the result
-- of the attempt with a given number. Which regular expressions of `classifyGitPushFailure` match is
-- a parameter too. A call of `onRetry` and of `sleep` is a notice.
pub mod Attempts
use run_beacon.Base.{
  reverse, is_empty, ◌≡◌, refl, ℕ, zero, suc, ◌+◌, ◌*◌, ◌-◌, min, List, [], ◌∷◌, ◌++◌, Bool, true,
  false, ◌||◌, ◌==◌, if◌then◌else◌, Option, none, some,
}
use run_beacon.Base.Text.{Text, ascii, text_eq}

pub data GitPushFailureKind : Type 0 where
  authentication non_fast_forward permission network unknown : GitPushFailureKind

pub record GitPushAttemptResult : Type 0 where
  pub code : ℕ
  pub stdout : Text
  pub stderr : Text

pub record GitPushRetryNotice : Type 0 where
  pub attempt : ℕ
  pub max_attempts : ℕ
  pub delay_ms : ℕ

pub record FailurePatterns : Type 0 where
  pub shows_network : Text → Bool
  pub shows_authentication : Text → Bool
  pub shows_non_fast_forward : Text → Bool
  pub shows_permission : Text → Bool

-- `MAX_GIT_PUSH_ATTEMPTS`
abbrev pub max_git_push_attempts : ℕ
max_git_push_attempts = 5

pub classify_git_push_failure : FailurePatterns → Text → GitPushFailureKind
classify_git_push_failure match output =
    if match.shows_network output
    then network
    else if match.shows_authentication output
    then authentication
    else if match.shows_non_fast_forward output
    then non_fast_forward
    else if match.shows_permission output
    then permission
    else unknown

abbrev pub is_network : GitPushFailureKind → Bool
is_network network = true
is_network _ = false

-- `500 * 2 ** (attempt - 1)`, at most 8000.
abbrev power_of_two : ℕ → ℕ
power_of_two zero = 1
power_of_two (suc n) = 2 * power_of_two n

pub delay_of : ℕ → ℕ
delay_of attempt = min 8000 (500 * power_of_two (attempt - 1))

-- Whether `retryGitPush` goes on after the result of an attempt that is not the last one.
pub goes_on : FailurePatterns → GitPushAttemptResult → Bool
unfolding classify_git_push_failure
goes_on match result =
    if result.code == 0
    then false
    else is_network (classify_git_push_failure match (result.stderr ++ 10 ∷ result.stdout))

-- The loop of `retryGitPush` from an attempt on, with the number of attempts that may follow it.
pub retry_from :
    FailurePatterns
    → (ℕ → GitPushAttemptResult)
    → ℕ
    → ℕ
    → GitPushAttemptResult × List GitPushRetryNotice
retry_from match run_attempt zero attempt = (run_attempt attempt, [])
retry_from match run_attempt (suc left) attempt =
    let (result, notices) = retry_from match run_attempt left (attempt + 1) in
    let notice : GitPushRetryNotice = record {
      attempt = attempt;
      max_attempts = max_git_push_attempts;
      delay_ms = delay_of attempt;
    } in
    if goes_on match (run_attempt attempt)
    then (result, notice ∷ notices)
    else (run_attempt attempt, [])

-- `retryGitPush`
pub retry_git_push :
    FailurePatterns → (ℕ → GitPushAttemptResult) → GitPushAttemptResult × List GitPushRetryNotice
unfolding retry_from
retry_git_push match run_attempt = retry_from match run_attempt (max_git_push_attempts - 1) 1

-- `isSuccessfulActionsConclusion`
unfoldable pub is_successful_actions_conclusion : Option Text → Bool
is_successful_actions_conclusion none = false
is_successful_actions_conclusion (some conclusion) =
    text_eq conclusion (ascii "success")
    || text_eq conclusion (ascii "neutral")
    || text_eq conclusion (ascii "skipped")

-- A line that is kept backwards, less the carriage return that it ends with.
drop_return : Text → Text
drop_return [] = []
drop_return (b ∷ bs) = if b == 13 then bs else b ∷ bs

-- What `split(/\r?\n/)` makes of a text.
lines_from : Text → Text → List Text
unfolding drop_return
lines_from [] line = reverse line ∷ []
lines_from (b ∷ bs) line =
    let next = lines_from bs [] in
    let same = lines_from bs (b ∷ line) in
    if b == 10 then reverse (drop_return line) ∷ next else same

-- The text before the first `=`, which is not its first byte, and the text after it.
split_at_sign : Text → Text → Option (Text × Text)
split_at_sign [] key = none
split_at_sign (b ∷ bs) key =
    let rest = split_at_sign bs (b ∷ key) in
    if b == b'=' then (if is_empty key then none else some (reverse key, bs)) else rest

pub record GitCredential : Type 0 where
  pub username : Option Text
  pub password : Option Text

take_line : Option (Text × Text) → GitCredential → GitCredential
take_line none c = c
take_line (some (key, value)) c = record {
  username = if text_eq key (ascii "username") then some value else c.username;
  password = if text_eq key (ascii "password") then some value else c.password;
}

take_lines : List Text → GitCredential → GitCredential
unfolding take_line split_at_sign
take_lines [] c = c
take_lines (line ∷ lines) c = take_lines lines (take_line (split_at_sign line []) c)

-- `parseGitCredentialOutput`
pub parse_git_credential_output : Text → GitCredential
unfolding lines_from take_lines
parse_git_credential_output output =
    take_lines (lines_from output []) (record { username = none; password = none })

-- The last value of a key counts, and a line without a key is passed over.
parse_git_credential_output_test :
    parse_git_credential_output
      (ascii "username=a" ++ 13 ∷ 10 ∷ ascii "=x" ++ 10 ∷ ascii "password=p=q")
    ≡ record { username = some (ascii "a"); password = some (ascii "p=q") }
unfolding parse_git_credential_output
parse_git_credential_output_test = refl
