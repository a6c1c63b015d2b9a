-- ===== src/GitPush/Attempts.antt =====
-- Which attempt `retryGitPush` returns, and what it waits for.
use run_beacon.Base.{
  ℕ, zero, suc, ◌+◌, ◌≤◌, ◌<◌, ◌≡◌, ◌⊎◌, inl, inr, refl, ap, ◌∙◌, List, [], ◌∷◌, true, false,
  length, arith, Bool-cases,
}
use run_beacon.GitPush.{
  FailurePatterns, GitPushAttemptResult, GitPushRetryNotice, goes_on, retry_from, retry_git_push,
  delay_of,
}

-- The numbers of the notices count up from a number.
pub CountsFrom : ℕ → List GitPushRetryNotice → Type 0
CountsFrom n [] = Unit
CountsFrom n (x ∷ xs) = (x.attempt ≡ n) × (x.delay_ms ≡ delay_of n) × CountsFrom (n + 1) xs

-- What a run of the loop from an attempt, with so many more allowed, has done.
pub record Pushed (match : FailurePatterns) (run_attempt : ℕ → GitPushAttemptResult)
    (left attempt : ℕ) (result : GitPushAttemptResult) (notices : List GitPushRetryNotice)
    : Type 0 where
  pub within : length notices ≤ left
  pub returned : result ≡ run_attempt (attempt + length notices)
  pub earlier : (i : ℕ) → i < length notices → goes_on match (run_attempt (attempt + i)) ≡ true
  pub stopped : (length notices ≡ left) ⊎ (goes_on match result ≡ false)
  pub noticed : CountsFrom attempt notices

retry_from_lem :
    (match : FailurePatterns) (run_attempt : ℕ → GitPushAttemptResult) (left attempt : ℕ)
    → let (result, notices) = retry_from match run_attempt left attempt in
      Pushed match run_attempt left attempt result notices
unfolding retry_from CountsFrom
retry_from_lem match run_attempt zero attempt = record {
  within = omega arith;
  returned = ap run_attempt (omega arith);
  earlier = λ i l. absurd (omega (arith, l));
  stopped = inl refl;
  noticed = tt;
}
retry_from_lem match run_attempt (suc left) attempt =
    elim (Bool-cases (goes_on match (run_attempt attempt))) [
      | inr f ↦ rw f (record {
        within = omega arith;
        returned = ap run_attempt (omega arith);
        earlier = λ i l. absurd (omega (arith, l));
        stopped = inr f;
        noticed = tt;
      })
      | inl t ↦
          let p = retry_from_lem match run_attempt left (attempt + 1) in
          rw t (record {
            within = omega (arith, p.within);
            returned = p.returned ∙ ap run_attempt (omega arith);
            earlier = λ i l. first t (λ k m. p.earlier k m) i l;
            stopped = elim p.stopped [ inl e ↦ inl (omega (arith, e)) | inr e ↦ inr e ];
            noticed = (refl, refl, p.noticed);
          })
    ]
  where
    first :
        {n : ℕ}
        → goes_on match (run_attempt attempt) ≡ true
        → ((k : ℕ) → k < n → goes_on match (run_attempt (attempt + 1 + k)) ≡ true)
        → (i : ℕ) → i < suc n
        → goes_on match (run_attempt (attempt + i)) ≡ true
    first t h zero l = ap (λ k. goes_on match (run_attempt k)) (omega arith) ∙ t
    first t h (suc i) l =
        ap (λ k. goes_on match (run_attempt k)) (omega arith) ∙ h i (omega (arith, l))

-- `retryGitPush` returns the result of the first attempt that succeeded or failed other than by the
-- network, or of the fifth one; it made a notice, with its delay, before each further attempt, and
-- every attempt before the returned one failed by the network.
pub retry_git_push_lem :
    (match : FailurePatterns) (run_attempt : ℕ → GitPushAttemptResult)
    → let (result, notices) = retry_git_push match run_attempt in
      Pushed match run_attempt 4 1 result notices
unfolding retry_git_push
retry_git_push_lem match run_attempt = retry_from_lem match run_attempt 4 1
