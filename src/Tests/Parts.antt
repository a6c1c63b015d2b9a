-- ===== src/Tests/Parts.antt =====
-- Runs of the theorems on the policy, the audit log and the push.
use run_beacon.Base.{
  ℕ, zero, suc, ◌≡◌, refl, ◌⊎◌, List, [], ◌∷◌, ◌++◌, false, none, some, length, ◌+◌,
}
use run_beacon.Base.Text.{Text, ascii, text_eq}
use run_beacon.Types.{JobAdapter}
use run_beacon.Policy.{Patterns, PolicyUpdate, classify, load, update}
use run_beacon.Policy.Bounds.{classify-standard, default_requires_approval}
use run_beacon.Audit.{AuditPayload, AuditEvent, NewEvent, read_verified, append, zero_hash}
use run_beacon.Audit.Chain.{IsChain, lines_of, read_verified_lem, append_lem}
use run_beacon.GitPush.{FailurePatterns, GitPushAttemptResult, retry_git_push}
use run_beacon.GitPush.Attempts.{Pushed, retry_git_push_lem}

-- Only the text of a push counts as a publication.
abbrev patterns : Patterns
patterns = record {
  destroys = λ t. false;
  force_pushes = λ t. false;
  removes_items = λ t. false;
  signs = λ t. false;
  publishes = λ t. text_eq t (ascii "git push");
  elevates = λ t. false;
  to_lower_case = λ t. t;
}

abbrev shorter : PolicyUpdate
shorter = record {
  require_approval = record {
    privileged = none;
    credential = none;
    release = some false;
    destructive = none;
  };
  approval_ttl_seconds = some 5;
}

abbrev timed : PolicyUpdate
timed = record {
  require_approval = record {
    privileged = none;
    credential = none;
    release = none;
    destructive = none;
  };
  approval_ttl_seconds = some 5;
}

default_requires_approval_example :
    (classify patterns
      (update timed (load none))
      (ascii "npm test")
      JobAdapter.generic).requires_approval
    ≡ false
default_requires_approval_example =
    (default_requires_approval patterns (some 5) (ascii "npm test") JobAdapter.generic).1 (
      (classify-standard patterns (update timed (load none)) (ascii "npm test")
          JobAdapter.generic).1
        refl)

-- A hash that is enough for a run.
abbrev tag : AuditPayload → Text
tag p = p.sequence ∷ p.action

abbrev event : NewEvent
event = record {
  action = ascii "job_start";
  outcome = ascii "queued";
  job_id = none;
  target = none;
  risk = none;
  command_digest = none;
}

abbrev logged : ℕ → Text → AuditEvent
logged n previous =
    let payload : AuditPayload = record {
      sequence = n;
      timestamp = 1000;
      action = ascii "job_start";
      outcome = ascii "queued";
      job_id = none;
      target = none;
      risk = none;
      command_digest = none;
      previous_hash = previous;
    } in
    record { payload = payload; hash = tag payload }

-- A log of two events.
abbrev log : List AuditEvent
log = logged 1 zero_hash ∷ logged 2 (logged 1 zero_hash).hash ∷ []

read_verified_lem_example : read_verified tag (lines_of log) ≡ some log
unfolding IsChain
read_verified_lem_example =
    (read_verified_lem tag (lines_of log) log).1 (refl, (refl, refl, refl, (refl, refl, refl, tt)))

append_lem_example :
    ((read_verified tag (lines_of log) ≡ none)
      × (append tag 1000 event (lines_of log) ≡ (none, lines_of log)))
    ⊎ ((es : List AuditEvent) × (e : AuditEvent) × (read_verified tag (lines_of log) ≡ some es)
        × (append tag 1000 event (lines_of log) ≡ (some e, lines_of log ++ some e ∷ []))
        × (e.payload.sequence ≡ length es + 1)
        × (read_verified tag (lines_of log ++ some e ∷ []) ≡ some (es ++ e ∷ [])))
append_lem_example = append_lem tag 1000 event (lines_of log)

abbrev failures : FailurePatterns
failures = record {
  shows_network = λ t. text_eq t (ascii "early eof" ++ 10 ∷ []);
  shows_authentication = λ t. false;
  shows_non_fast_forward = λ t. false;
  shows_permission = λ t. false;
}

-- The network fails twice.
abbrev attempts : ℕ → GitPushAttemptResult
attempts zero = record { code = 1; stdout = []; stderr = ascii "early eof" }
attempts (suc zero) = record { code = 1; stdout = []; stderr = ascii "early eof" }
attempts (suc (suc zero)) = record { code = 1; stdout = []; stderr = ascii "early eof" }
attempts (suc (suc (suc n))) = record { code = 0; stdout = []; stderr = [] }

retry_git_push_lem_example :
    Pushed failures attempts 4 1
      (retry_git_push failures attempts).0
      (retry_git_push failures attempts).1
retry_git_push_lem_example = retry_git_push_lem failures attempts
