-- ===== src/Store/Normal.antt =====
-- A job of src/lifecycle/JobStore.ts that was read is read back from what is written of it.
use run_beacon.Base.{
  subst, ℕ, ◌≡◌, refl, ap, inl, inr, [], Bool, some, arith, Option-cases, if◌then◌else◌, get_or,
}
use run_beacon.Manager.Start.{is_profile_id}
use run_beacon.Types.{JobRecord}
use run_beacon.Store.{
  Redactor, RawState, RawTarget, RawJob, redact_persisted_text, max_persisted, known, is_true,
  map_some, chunks_of, buffer_of, normalize_fields, normalize_job, raw_target, raw_of, read_state,
}
use run_beacon.Store.Again.{
  take-take, keep_if-keep_if, chunks_of-map, digest-digest, is_true-some, limited, target_again,
  execution_again_at, policy_again, output_policy_again, then_again,
}

-- Redaction leaves the texts of this job as they are.
pub record IsRedacted (r : Redactor) (job : JobRecord) : Type 0 where
  pub label : redact_persisted_text r 120 job.label ≡ job.label
  pub command : redact_persisted_text r max_persisted job.display_command ≡ job.display_command
  pub error : map_some (redact_persisted_text r max_persisted) job.error ≡ job.error

normalize_fields_again :
    (r : Redactor) (p : Bool) (id c u : ℕ) (st : RawState) (t : RawTarget) (raw : RawJob)
    → let j = normalize_fields r p id c u st t raw in
      IsRedacted r j
      → normalize_fields r p id c u (known j.state) (raw_target j.target) (raw_of j) ≡ j
unfolding normalize_fields raw_of buffer_of
normalize_fields_again r p id c u st t raw h =
    rw
      (
        limited 200 raw.idempotency_key,
        digest-digest raw.command_digest,
        h.label,
        h.command,
        execution_again_at (read_state st) t raw.execution,
        target_again t.kind t,
        h.error,
        is_true-some (is_true raw.cancel_requested),
        policy_again raw.policy,
        output_policy_again raw.output_policy,
        take-take 16 (get_or raw.event_subscriptions []),
        keep_if-keep_if is_profile_id raw.credential_profile_id,
        is_true-some (is_true raw.output_truncated),
        chunks_of-map (if p then chunks_of (get_or raw.output []) else []),
        then_again p (chunks_of (get_or raw.output [])) [],
      )
      refl

some_injective : {x y : JobRecord} → some x ≡ some y → x ≡ y
some_injective e = cc

-- A job that was read from a file is read again, without a change, from what is written of it, if a
-- second redaction leaves its label, its command and its error as they are.
pub normalize_job-raw_of :
    (r : Redactor) (p : Bool) (raw : RawJob) (job : JobRecord)
    → normalize_job r p raw ≡ some job
    → IsRedacted r job
    → normalize_job r p (raw_of job) ≡ some job
unfolding normalize_job normalize_fields raw_of
normalize_job-raw_of r p raw job h keeps = elim (Option-cases raw.id) [
  | inl e ↦ ground (arith, rw (normalize_job, e) at h)
  | inr (id, e1) ↦ elim (Option-cases raw.created_at) [
    | inl e ↦ ground (arith, rw (normalize_job, e1, e) at h)
    | inr (c, e2) ↦ elim (Option-cases raw.updated_at) [
      | inl e ↦ ground (arith, rw (normalize_job, e1, e2, e) at h)
      | inr (u, e3) ↦ elim (Option-cases raw.state) [
        | inl e ↦ ground (arith, rw (normalize_job, e1, e2, e3, e) at h)
        | inr (st, e4) ↦ elim (Option-cases raw.target) [
          | inl e ↦ ground (arith, rw (normalize_job, e1, e2, e3, e4, e) at h)
          | inr (t, e5) ↦
              subst (λ (j : JobRecord). IsRedacted r j → normalize_job r p (raw_of j) ≡ some j)
                (some_injective (rw (normalize_job, e1, e2, e3, e4, e5) at h))
                (λ k. ap some (normalize_fields_again r p id c u st t raw k)) keeps
        ]
      ]
    ]
  ]
]
