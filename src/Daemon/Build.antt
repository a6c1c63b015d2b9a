-- ===== src/Daemon/Build.antt =====
-- Build versions, src/lifecycle/BuildIdentity.ts. `localeCompare` with `numeric` and `sensitivity: 'base'` is a
-- parameter. A number of a version is exact here, where `Number` rounds one above 2^53.
pub mod Order
use run_beacon.Base.{
  ℕ, zero, suc, ◌+◌, ◌-◌, ◌*◌, List, [], ◌∷◌, ◌++◌, Bool, true, false, not, ◌&&◌, ◌||◌, Option,
  none, some, ltb, leb, ◌==◌, if◌then◌else◌, length, is_empty, all, is_some,
}
use run_beacon.Base.Text.{Text, ascii, text_eq, trim, is_alphanumeric}

pub record BuildVersion : Type 0 where
  pub major : ℕ
  pub minor : ℕ
  pub patch : ℕ
  pub prerelease : Option Text
  pub cachebuster : Option Text

-- The result of a comparison, -1, 0 or 1.
pub data Sign : Type 0 where
  negative equal positive : Sign

is_digit : ℕ → Bool
is_digit b = leb b'0' b && leb b b'9'

-- `\d+` after the digits read so far: the number and the text that is left.
more_digits : ℕ → Text → ℕ × Text
unfolding is_digit
more_digits n [] = (n, [])
more_digits n (b ∷ bs) =
    let rest = more_digits (10 * n + (b - b'0')) bs in if is_digit b then rest else (n, b ∷ bs)

number : Text → Option (ℕ × Text)
unfolding more_digits
number [] = none
number (b ∷ bs) = if is_digit b then some (more_digits 0 (b ∷ bs)) else none

-- The text after a prefix.
after : Text → Text → Option Text
after [] t = some t
after (p ∷ ps) [] = none
after (p ∷ ps) (b ∷ bs) = let rest = after ps bs in if p == b then rest else none

-- A character of `[0-9A-Za-z.-]`.
is_identifier_byte : ℕ → Bool
is_identifier_byte b = is_alphanumeric b || b == b'.' || b == b'-'

-- The longest run of such characters, and the rest.
identifier : Text → Text × Text
unfolding is_identifier_byte
identifier [] = ([], [])
identifier (b ∷ bs) =
    let (word, rest) = identifier bs in
    if is_identifier_byte b then (b ∷ word, rest) else ([], b ∷ bs)

-- An optional part that a marker opens: a text without the marker has none.
optional_part : Text → Text → Option (Option Text × Text)
unfolding after identifier
optional_part marker t = elim (after marker t) [
  | none ↦ some (none, t)
  | some inside ↦
      let (word, rest) = identifier inside in if is_empty word then none else some (some word, rest)
]

infixl 5 ◌>>=◌
abbrev ◌>>=◌ : {A B : Type 0} → Option A → (A → Option B) → Option B
none >>= f = none
some a >>= f = f a

ends : BuildVersion → Text → Option BuildVersion
ends version [] = some version
ends version (b ∷ bs) = none

-- `VERSION_PATTERN`
pub version_of : Text → Option BuildVersion
unfolding number after optional_part ends
version_of t = do
  (major, t₁) ← number t
  t₂ ← after (ascii ".") t₁
  (minor, t₃) ← number t₂
  t₄ ← after (ascii ".") t₃
  (patch, t₅) ← number t₄
  (prerelease, t₆) ← optional_part (ascii "-") t₅
  (cachebuster, t₇) ← optional_part (ascii "+codex.") t₆
  ends
      (record {
        major = major;
        minor = minor;
        patch = patch;
        prerelease = prerelease;
        cachebuster = cachebuster;
      })
      t₇

-- `validateBuildVersion`; `none` where it throws.
unfoldable pub validate_build_version : Text → Option Text
unfolding version_of
validate_build_version value =
    if not (is_some (version_of (trim value))) || ltb 128 (length (trim value))
    then none
    else some (trim value)

-- `parseBuildVersion`
pub parse_build_version : Text → Option BuildVersion
unfolding validate_build_version version_of
parse_build_version value = do version ← validate_build_version value; version_of version

sign_of : ℕ → ℕ → Sign
sign_of a b = if ltb a b then negative else if ltb b a then positive else equal

-- The first difference decides.
abbrev pub or_next : Sign → Sign → Sign
or_next negative s = negative
or_next equal s = s
or_next positive s = positive

module _ (collate : Text → Text → Sign) where
  -- `compareOptionalIdentifier`
  pub compare_optional_identifier : Option Text → Option Text → Bool → Sign
  compare_optional_identifier none none missing_is_newer = equal
  compare_optional_identifier none (some right) missing_is_newer =
      if missing_is_newer then positive else negative
  compare_optional_identifier (some left) none missing_is_newer =
      if missing_is_newer then negative else positive
  compare_optional_identifier (some left) (some right) missing_is_newer =
      if text_eq left right then equal else collate left right

  pub compare_parts : BuildVersion → BuildVersion → Sign
  unfolding sign_of compare_optional_identifier
  compare_parts left right = or_next (sign_of left.major right.major) (
      or_next (sign_of left.minor right.minor) (
        or_next (sign_of left.patch right.patch) (
          or_next (compare_optional_identifier left.prerelease right.prerelease true)
            (compare_optional_identifier left.cachebuster right.cachebuster false))))

  -- `compareBuildVersions`; `none` where it throws.
  unfoldable pub compare_build_versions : Text → Text → Option Sign
  unfolding compare_parts parse_build_version
  compare_build_versions left right =
      if text_eq left right
      then some equal
      else do l ← parse_build_version left; r ← parse_build_version right; some (compare_parts l r)
