-- ===== src/Manager/Target.antt =====
-- `publicTarget` of src/lifecycle/LifecycleManager.ts, and `normalizeSshSha256Fingerprint`: what of a
-- target is shown, and which targets are refused.
use run_beacon.Base.{
  ℕ, ◌+◌, ◌≡◌, refl, [], ◌∷◌, ◌++◌, Bool, true, false, ◌&&◌, ◌||◌, Option, none, some, length, ◌==◌,
  leb, if◌then◌else◌, is_empty, get_or, is_some, all, take, drop, map, reverse,
}
use run_beacon.Base.Text.{Text, ascii, decimal, text_eq, trim, is_alphanumeric}
use run_beacon.Types.{PublicJobTarget, TargetKind}
use run_beacon.Manager.{JobTarget}

abbrev lower_byte : ℕ → ℕ
lower_byte b = if leb b'A' b && leb b b'Z' then b + 32 else b

-- `replace(/^SHA256:/i, '')`
without_prefix : Text → Text
without_prefix t = if text_eq (map lower_byte (take 7 t)) (ascii "sha256:") then drop 7 t else t

drop_padding : Text → Text
drop_padding [] = []
drop_padding (b ∷ bs) = if b == b'=' then drop_padding bs else b ∷ bs

-- `normalizeSshSha256Fingerprint`
unfoldable pub normalize_fingerprint : Text → Text
unfolding without_prefix drop_padding
normalize_fingerprint value = reverse (drop_padding (reverse (without_prefix (trim value))))

-- `/^[A-Za-z0-9+/]{43}$/`
pub is_fingerprint : Text → Bool
is_fingerprint t = length t == 43 && all (λ b. is_alphanumeric b || b == b'+' || b == b'/') t

-- A text that is there and not empty, as JavaScript's truth value reads it.
abbrev present : Option Text → Option Text
present none = none
present (some []) = none
present (some (b ∷ bs)) = some (b ∷ bs)

abbrev tagged : Option Text → Option Text
tagged none = none
tagged (some t) = some (ascii "SHA256:" ++ t)

ssh_target : JobTarget → Option Text → PublicJobTarget
ssh_target t fingerprint = record {
  kind = TargetKind.ssh;
  host = some t.host;
  port = some (get_or t.port 22);
  username = some t.username;
  verified_host_key = some (is_some (present t.host_key_sha256));
  host_key_sha256 = tagged fingerprint;
  host_key_algorithm = t.host_key_algorithm;
  runner_path = t.runner_path;
}

abbrev local_target : PublicJobTarget
local_target = record {
  kind = TargetKind.local;
  host = none;
  port = none;
  username = none;
  verified_host_key = none;
  host_key_sha256 = none;
  host_key_algorithm = none;
  runner_path = none;
}

-- The end of `publicTarget`, from the fingerprint as it was given.
with_fingerprint : JobTarget → Option Text → Option PublicJobTarget
unfolding ssh_target
with_fingerprint t none = if t.allow_unverified_host_key then some (ssh_target t none) else none
with_fingerprint t (some value) = elim (present (some (normalize_fingerprint value))) [
  | none ↦ some (ssh_target t none)
  | some normal ↦ if is_fingerprint normal then some (ssh_target t (some normal)) else none
]

-- `publicTarget`; `none` where it throws.
pub public_target : Option JobTarget → Option PublicJobTarget
unfolding with_fingerprint
public_target none = some local_target
public_target (some t) = elim t.kind [
  | TargetKind.local ↦ some local_target
  | TargetKind.ssh ↦
      if is_empty (trim t.host) || is_empty (trim t.username)
      then none
      else with_fingerprint t (present t.host_key_sha256)
]

-- `auditTarget`
pub audit_target : PublicJobTarget → Text
audit_target target = elim target.kind [
  | TargetKind.local ↦ ascii "local"
  | TargetKind.ssh ↦
      get_or target.username []
      ++ ascii "@"
      ++ get_or target.host []
      ++ ascii ":"
      ++ decimal (get_or target.port 22)
]

-- An SSH target without a fingerprint of the host's key is refused, unless it allows an unverified
-- host key.
pub public_target_unverified :
    (t : JobTarget)
    → t.kind ≡ TargetKind.ssh
    → t.host_key_sha256 ≡ none
    → t.allow_unverified_host_key ≡ false
    → public_target (some t) ≡ none
unfolding public_target with_fingerprint
public_target_unverified t k h a =
    simp (k, h, a) (either (is_empty (trim t.host) || is_empty (trim t.username)) none)
  where
    either : (b : Bool) (x : Option PublicJobTarget) → (if b then x else x) ≡ x
    either true x = refl
    either false x = refl
