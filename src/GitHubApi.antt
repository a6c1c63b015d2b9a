-- ===== src/GitHubApi.antt =====
-- src/lifecycle/GitHubApiClient.ts: `getJson`, its retries and delays. What the network and the clock do in
-- an attempt is given with it; where no attempt is left in the list, the call still waits. A
-- random number is given in thousandths, and Retry-After as what `parseRetryAfter` makes of it.
pub mod Deadline
pub mod Ends
pub mod Proxy
pub mod Tests
use run_beacon.Base.{
  ℕ, zero, suc, ◌+◌, ◌*◌, ◌-◌, ◌/◌, min, max, List, [], ◌∷◌, Bool, true, false, not, ◌&&◌, ◌||◌,
  Option, none, some, leb, ltb, ◌==◌, if◌then◌else◌, get_or,
}

-- `GitHubApiErrorCode`
pub data GitHubApiErrorCode : Type 0 where
  github_api_transport github_api_timeout github_api_invalid_json : GitHubApiErrorCode
  github_api_http : ℕ → GitHubApiErrorCode

pub record GitHubApiError : Type 0 where
  pub code : GitHubApiErrorCode
  pub retryable : Bool

-- The answer to a request: JSON, a body that is none, another status with its Retry-After, an abort, or
-- an error of the transport.
pub data Answer {ℓ} (A : Type ℓ) : Type ℓ where
  json : A → Answer A
  bad_json : Answer A
  refused : ℕ → Option ℕ → Answer A
  aborted transport_failed : Answer A

-- One wait: the time at which it begins, and the random number.
pub record Wait : Type 0 where
  pub now : ℕ
  pub random : ℕ

-- An attempt: when it begins, its answer, and the two waits that may follow.
pub record Attempt {ℓ} (A : Type ℓ) : Type ℓ where
  pub now : ℕ
  pub answer : Answer A
  pub first_wait : Wait
  pub second_wait : Wait

-- A request that was sent, with its timeout; a sleep.
pub data Effect : Type 0 where
  sent slept : ℕ → ℕ → Effect

pub data Outcome {ℓ} (A : Type ℓ) : Type ℓ where
  got : A → Outcome A
  thrown : GitHubApiError → Outcome A
  pending : Outcome A

abbrev clamp : ℕ → ℕ → ℕ → ℕ
clamp value minimum maximum = max minimum (min maximum value)

-- The limits that the constructor takes from the options.
abbrev pub max_attempts_of : Option ℕ → ℕ
max_attempts_of option = clamp (get_or option 5) 1 5

abbrev pub attempt_timeout_of : Option ℕ → ℕ
attempt_timeout_of option = clamp (get_or option 15000) 100 15000

-- `isRetryableStatus`
pub is_retryable_status : ℕ → Bool
is_retryable_status status = status == 408 || status == 429 || leb 500 status

abbrev power_of_two : ℕ → ℕ
power_of_two zero = 1
power_of_two (suc n) = 2 * power_of_two n

abbrev timeout_error : GitHubApiError
timeout_error = record { code = github_api_timeout; retryable = true }

-- The delay that `waitBeforeRetry` asks for.
pub requested_ms : ℕ → Option ℕ → ℕ → ℕ
requested_ms attempt (some retry_after) random = retry_after
requested_ms attempt none random =
    let exponential = min 4000 (250 * power_of_two (attempt - 1)) in
    (exponential * (1500 + random) + 1000) / 2000

-- `waitBeforeRetry`: the sleep, or `none` where it throws.
pub wait_before_retry : ℕ → Option ℕ → ℕ → Wait → Option Effect
unfolding requested_ms
wait_before_retry attempt retry_after deadline wait =
    let requested = requested_ms attempt retry_after wait.random in
    if leb deadline wait.now || leb (deadline - wait.now) requested
    then none
    else some (slept wait.now requested)

-- What the `try` of `getJson` gives: a result, an error that it throws, or a sleep after which the loop
-- goes on.
pub data Tried {ℓ} (A : Type ℓ) : Type ℓ where
  result : A → Tried A
  error : GitHubApiError → Tried A
  waited : Effect → Tried A

pub http_error : ℕ → GitHubApiError
unfolding is_retryable_status
http_error status = record { code = github_api_http status; retryable = is_retryable_status status }

pub try {ℓ} : {A : Type ℓ} → ℕ → Bool → ℕ → Wait → Answer A → Tried A
unfolding http_error wait_before_retry
try attempt is_last deadline wait (json x) = result x
try attempt is_last deadline wait bad_json =
    error (record { code = github_api_invalid_json; retryable = false })
try attempt is_last deadline wait aborted = error timeout_error
try attempt is_last deadline wait transport_failed =
    error (record { code = github_api_transport; retryable = true })
try attempt is_last deadline wait (refused status retry_after) =
    if not (is_retryable_status status) || is_last
    then error (http_error status)
    else elim (wait_before_retry attempt retry_after deadline wait) [
      | none ↦ error timeout_error
      | some sleep ↦ waited sleep
    ]

-- The loop of `getJson` with the attempts that are left, from an attempt on: its outcome, and what it sent
-- and slept, in order.
pub get_json_from {ℓ} :
    {A : Type ℓ} → ℕ → ℕ → ℕ → ℕ → GitHubApiError → List (Attempt A) → Outcome A × List Effect
unfolding try
get_json_from timeout deadline zero attempt last attempts = (thrown last, [])
get_json_from timeout deadline (suc left) attempt last [] = (pending, [])
get_json_from timeout deadline (suc left) attempt last (a ∷ attempts) =
    let request = sent a.now (max 1 (min timeout (deadline - a.now))) in
    elim (leb deadline a.now) [
      | true ↦ (thrown timeout_error, [])
      | false ↦ elim (try attempt (left == 0) deadline a.first_wait a.answer) [
        | result x ↦ (got x, request ∷ [])
        | waited sleep ↦
            let (outcome, effects) =
              get_json_from timeout deadline left (attempt + 1) last attempts in
            (outcome, request ∷ sleep ∷ effects)
        | error e ↦ elim (not e.retryable || left == 0) [
          | true ↦ (thrown e, request ∷ [])
          | false ↦ elim (wait_before_retry attempt none deadline a.second_wait) [
            | none ↦ (thrown timeout_error, request ∷ [])
            | some sleep ↦
                let (outcome, effects) =
                  get_json_from timeout deadline left (attempt + 1) e attempts in
                (outcome, request ∷ sleep ∷ effects)
          ]
        ]
      ]
    ]

-- `getJson`
unfoldable pub get_json {ℓ} :
    {A : Type ℓ} → Option ℕ → Option ℕ → ℕ → List (Attempt A) → Outcome A × List Effect
unfolding get_json_from
get_json max_attempts attempt_timeout deadline attempts =
    get_json_from (attempt_timeout_of attempt_timeout) deadline (max_attempts_of max_attempts) 1
      (record { code = github_api_transport; retryable = true }) attempts
