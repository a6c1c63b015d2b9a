-- ===== src/GitHubApi/Deadline.antt =====
-- What src/lifecycle/GitHubApiClient.ts sends and how long it sleeps.
use run_beacon.Base.{
  ℕ, zero, suc, ◌+◌, ◌-◌, ◌≤◌, ◌<◌, ◌≡◌, ◌⊎◌, refl, inl, inr, min, max, List, [], ◌∷◌, Bool, true,
  false, not, ◌||◌, Option, none, some, leb, ◌==◌, All, arith, Bool-cases, Option-cases,
}
use run_beacon.GitHubApi.{
  GitHubApiError, Answer, json, bad_json, refused, aborted, transport_failed, Wait, Attempt, Effect,
  sent, slept, max_attempts_of, attempt_timeout_of, requested_ms, wait_before_retry,
  is_retryable_status, Tried, result, error, waited, try, get_json_from, get_json,
  github_api_transport,
}

-- A request ends by the deadline and within the timeout of an attempt, and a sleep ends before the deadline.
abbrev pub IsInTime : ℕ → ℕ → Effect → Type 0
IsInTime timeout deadline (sent now ms) = (1 ≤ ms) × ((ms ≤ max 1 timeout) × (now + ms ≤ deadline))
IsInTime timeout deadline (slept now ms) = now + ms < deadline

abbrev pub requests : List Effect → ℕ
requests [] = 0
requests (sent now ms ∷ effects) = requests effects + 1
requests (slept now ms ∷ effects) = requests effects

wait_before_retry_lem :
    (attempt : ℕ) (retry_after : Option ℕ) (deadline timeout : ℕ) (wait : Wait) (s : Effect)
    → wait_before_retry attempt retry_after deadline wait ≡ some s
    → IsInTime timeout deadline s × (requests (s ∷ []) ≡ 0)
unfolding wait_before_retry
wait_before_retry_lem attempt retry_after deadline timeout wait s h =
    let requested = requested_ms attempt retry_after wait.random in
    elim (Bool-cases (leb deadline wait.now || leb (deadline - wait.now) requested)) [
      | inl t ↦ ground (arith, rw (wait_before_retry, t) at h)
      | inr f ↦
          let same : slept wait.now requested ≡ s =
            ground (arith, rw (wait_before_retry, f) at h) in
          rw (← same) (ground (arith, f), refl)
    ]

pub Tried-cases {ℓ} :
    {A : Type ℓ} (t : Tried A)
    → ((x : A) × (t ≡ result x))
      ⊎ (((e : GitHubApiError) × (t ≡ error e)) ⊎ ((s : Effect) × (t ≡ waited s)))
Tried-cases (result x) = inl (x, refl)
Tried-cases (error e) = inr (inl (e, refl))
Tried-cases (waited s) = inr (inr (s, refl))

try_lem {ℓ} :
    {A : Type ℓ} (attempt : ℕ) (is_last : Bool) (deadline timeout : ℕ) (wait : Wait)
    (answer : Answer A) (s : Effect)
    → try attempt is_last deadline wait answer ≡ waited s
    → IsInTime timeout deadline s × (requests (s ∷ []) ≡ 0)
unfolding try
try_lem attempt is_last deadline timeout wait (json x) s h = ground arith
try_lem attempt is_last deadline timeout wait bad_json s h = ground arith
try_lem attempt is_last deadline timeout wait aborted s h = ground arith
try_lem attempt is_last deadline timeout wait transport_failed s h = ground arith
try_lem attempt is_last deadline timeout wait (refused status retry_after) s h =
    elim (Bool-cases (not (is_retryable_status status) || is_last)) [
      | inl t ↦ ground (arith, rw (try, t) at h)
      | inr f ↦ elim (Option-cases (wait_before_retry attempt retry_after deadline wait)) [
        | inl n ↦ ground (arith, rw (try, f, n) at h)
        | inr (x, w) ↦
            let same : x ≡ s = ground (arith, rw (try, f, w) at h) in
            rw (← same) (wait_before_retry_lem attempt retry_after deadline timeout wait x w)
      ]
    ]

requests-cons :
    (s : Effect) (es : List Effect) → requests (s ∷ es) ≡ requests es + requests (s ∷ [])
requests-cons (sent now ms) es = omega arith
requests-cons (slept now ms) es = omega arith

sent-IsInTime :
    (timeout deadline now : ℕ)
    → leb deadline now ≡ false
    → IsInTime timeout deadline (sent now (max 1 (min timeout (deadline - now))))
sent-IsInTime timeout deadline now f =
    let early : now < deadline = ground (arith, f) in (omega arith, (omega arith, omega arith))

abbrev WithinLimits : ℕ → ℕ → ℕ → List Effect → Type 0
WithinLimits timeout deadline left effects =
    All (IsInTime timeout deadline) effects × (requests effects ≤ left)

get_json_from_lem {ℓ} :
    {A : Type ℓ} (timeout deadline left attempt : ℕ) (last : GitHubApiError)
    (attempts : List (Attempt A))
    → WithinLimits timeout deadline left
        (get_json_from timeout deadline left attempt last attempts).1
unfolding get_json_from
get_json_from_lem timeout deadline zero attempt last attempts = (tt, omega arith)
get_json_from_lem timeout deadline (suc left) attempt last [] = (tt, omega arith)
get_json_from_lem timeout deadline (suc left) attempt last (a ∷ attempts) =
    elim (Bool-cases (leb deadline a.now)) [
      | inl t ↦ rw (get_json_from, t) (tt, omega arith)
      | inr f ↦
          let now : IsInTime timeout deadline
              (sent a.now (max 1 (min timeout (deadline - a.now)))) =
            sent-IsInTime timeout deadline a.now f in
          elim (Tried-cases (try attempt (left == 0) deadline a.first_wait a.answer)) [
            | inl (x, e) ↦ rw (get_json_from, f, e) ((now, tt), omega arith)
            | inr (inr (s, e)) ↦
                let (slept_in_time, none_sent) =
                  try_lem attempt (left == 0) deadline timeout a.first_wait a.answer s e in
                let (all, few) =
                  get_json_from_lem timeout deadline left (attempt + 1) last attempts in
                rw (get_json_from, f, e)
                  (
                    (now, (slept_in_time, all)),
                    omega (
                      arith,
                      few,
                      none_sent,
                      requests-cons s
                          (get_json_from timeout deadline left (attempt + 1) last attempts).1,
                    ),
                  )
            | inr (inl (g, e)) ↦ elim (Bool-cases (not g.retryable || left == 0)) [
              | inl t ↦ rw (get_json_from, f, e, t) ((now, tt), omega arith)
              | inr n ↦
                  elim (Option-cases (wait_before_retry attempt none deadline a.second_wait)) [
                    | inl w ↦ rw (get_json_from, f, e, n, w) ((now, tt), omega arith)
                    | inr (s, w) ↦
                        let (slept_in_time, none_sent) =
                          wait_before_retry_lem attempt none deadline timeout a.second_wait s w in
                        let (all, few) =
                          get_json_from_lem timeout deadline left (attempt + 1) g attempts in
                        rw (get_json_from, f, e, n, w)
                          (
                            (now, (slept_in_time, all)),
                            omega (
                              arith,
                              few,
                              none_sent,
                              requests-cons s
                                  (get_json_from timeout deadline left (attempt + 1) g attempts).1,
                            ),
                          )
                  ]
            ]
          ]
    ]

-- Whatever the network and the clock do, `getJson` sends at most as many requests as it has attempts,
-- which are at most five; each request is timed out within the attempt's limit, at most 15 seconds, and
-- no later than the deadline; and each sleep ends before the deadline.
pub get_json_lem :
    {A : Type 0} (max_attempts attempt_timeout : Option ℕ) (deadline : ℕ)
    (attempts : List (Attempt A))
    → let effects = (get_json max_attempts attempt_timeout deadline attempts).1 in
      All (IsInTime (attempt_timeout_of attempt_timeout) deadline) effects
      × ((requests effects ≤ max_attempts_of max_attempts)
          × ((max_attempts_of max_attempts ≤ 5) × (attempt_timeout_of attempt_timeout ≤ 15000)))
unfolding get_json
get_json_lem max_attempts attempt_timeout deadline attempts =
    let (in_time, few) =
      get_json_from_lem (attempt_timeout_of attempt_timeout) deadline (max_attempts_of max_attempts)
        1 (record { code = github_api_transport; retryable = true }) attempts in
    (in_time, (few, (omega arith, omega arith)))
