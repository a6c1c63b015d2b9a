-- ===== src/GitHubApi/Ends.antt =====
-- `getJson` of src/lifecycle/GitHubApiClient.ts ends.
use run_beacon.Base.{
  ◌≡◌, ◌⊎◌, refl, ℕ, zero, suc, ◌+◌, ◌≤◌, inl, inr, List, [], ◌∷◌, not, ◌||◌, Option, none, leb,
  ◌==◌, length, arith, Bool-cases, Option-cases,
}
use run_beacon.GitHubApi.{
  GitHubApiError, Attempt, Outcome, got, thrown, pending, get_json, get_json_from, max_attempts_of,
  try, wait_before_retry,
}
use run_beacon.GitHubApi.Deadline.{Tried-cases}

pub Outcome-cases {ℓ} :
    {A : Type ℓ} (o : Outcome A)
    → ((x : A) × (o ≡ got x)) ⊎ (((e : GitHubApiError) × (o ≡ thrown e)) ⊎ (o ≡ pending))
Outcome-cases (got x) = inl (x, refl)
Outcome-cases (thrown e) = inr (inl (e, refl))
Outcome-cases pending = inr (inr refl)

abbrev pub Returns {ℓ} : {A : Type ℓ} → Outcome A → Type 0
Returns (got x) = Unit
Returns (thrown e) = Unit
Returns pending = ⊥

-- `getJson` returns or throws where each of its attempts is given.
pub get_json_from-Returns {ℓ} :
    {A : Type ℓ} (timeout deadline left attempt : ℕ) (last : GitHubApiError)
    (attempts : List (Attempt A))
    → left ≤ length attempts
    → Returns (get_json_from timeout deadline left attempt last attempts).0
unfolding get_json_from
get_json_from-Returns timeout deadline zero attempt last attempts h = tt
get_json_from-Returns timeout deadline (suc left) attempt last [] h = absurd (omega arith)
get_json_from-Returns timeout deadline (suc left) attempt last (a ∷ attempts) h =
    elim (Bool-cases (leb deadline a.now)) [
      | inl t ↦ rw (get_json_from, t) tt
      | inr f ↦ elim (Tried-cases (try attempt (left == 0) deadline a.first_wait a.answer)) [
        | inl (x, e) ↦ rw (get_json_from, f, e) tt
        | inr (inr (s, e)) ↦
            rw (get_json_from, f, e)
              (get_json_from-Returns timeout deadline left (attempt + 1) last attempts
                (omega arith))
        | inr (inl (g, e)) ↦ elim (Bool-cases (not g.retryable || left == 0)) [
          | inl t ↦ rw (get_json_from, f, e, t) tt
          | inr n ↦ elim (Option-cases (wait_before_retry attempt none deadline a.second_wait)) [
            | inl w ↦ rw (get_json_from, f, e, n, w) tt
            | inr (s, w) ↦
                rw (get_json_from, f, e, n, w)
                  (get_json_from-Returns timeout deadline left (attempt + 1) g attempts
                    (omega arith))
          ]
        ]
      ]
    ]

pub get_json-Returns :
    {A : Type 0} (max_attempts attempt_timeout : Option ℕ) (deadline : ℕ)
    (attempts : List (Attempt A))
    → max_attempts_of max_attempts ≤ length attempts
    → Returns (get_json max_attempts attempt_timeout deadline attempts).0
unfolding get_json
get_json-Returns max_attempts attempt_timeout deadline attempts h =
    get_json_from-Returns _ deadline (max_attempts_of max_attempts) 1 _ attempts h
