-- ===== src/Daemon/Build/Order.antt =====
-- Comparing build versions the other way gives the other answer.
use run_beacon.Base.{
  ℕ, ◌≡◌, refl, inl, inr, Bool, true, false, Option, none, some, arith, Bool-cases, Option-cases,
}
use run_beacon.Base.Text.{Text, text_eq, text_eq_sound}
use run_beacon.Daemon.Build.{
  BuildVersion, Sign, negative, equal, positive, sign_of, or_next, compare_optional_identifier,
  compare_parts, parse_build_version, compare_build_versions,
}

abbrev pub opposite : Sign → Sign
opposite negative = positive
opposite equal = equal
opposite positive = negative

sign_of_sym : (a b : ℕ) → sign_of b a ≡ opposite (sign_of a b)
unfolding sign_of
sign_of_sym a b = ground arith

or_next_sym :
    (s t s' t' : Sign) → s' ≡ opposite s → t' ≡ opposite t → or_next s' t' ≡ opposite (or_next s t)
or_next_sym negative t s' t' h k = rw h refl
or_next_sym equal t s' t' h k = rw h k
or_next_sym positive t s' t' h k = rw h refl

pub text_eq_sym : (s t : Text) → text_eq s t ≡ text_eq t s
text_eq_sym s t = elim (Bool-cases (text_eq s t)) [
  | inl e ↦ rw (text_eq_sound s t e) refl
  | inr e ↦ elim (Bool-cases (text_eq t s)) [
    | inl f ↦ rw (text_eq_sound t s f) refl
    | inr f ↦ rw (e, f) refl
  ]
]

module _ (collate : Text → Text → Sign)
    (collate_sym : (s t : Text) → collate t s ≡ opposite (collate s t)) where
  identifier_sym :
      (l r : Option Text) (missing_is_newer : Bool)
      → compare_optional_identifier collate r l missing_is_newer
        ≡ opposite (compare_optional_identifier collate l r missing_is_newer)
  unfolding compare_optional_identifier
  identifier_sym none none m = refl
  identifier_sym none (some r) true = refl
  identifier_sym none (some r) false = refl
  identifier_sym (some l) none true = refl
  identifier_sym (some l) none false = refl
  identifier_sym (some l) (some r) m = elim (Bool-cases (text_eq l r)) [
    | inl e ↦ rw (text_eq_sym r l, e) refl
    | inr e ↦ rw (text_eq_sym r l, e) (collate_sym l r)
  ]

  pub compare_parts_sym :
      (l r : BuildVersion) → compare_parts collate r l ≡ opposite (compare_parts collate l r)
  unfolding compare_parts
  compare_parts_sym l r = or_next_sym _ _ _ _ (sign_of_sym l.major r.major) (
      or_next_sym _ _ _ _ (sign_of_sym l.minor r.minor) (
        or_next_sym _ _ _ _ (sign_of_sym l.patch r.patch) (
          or_next_sym _ _ _ _ (identifier_sym l.prerelease r.prerelease true)
            (identifier_sym l.cachebuster r.cachebuster false))))

  -- If one build is newer than another, this one is older than the first.
  pub compare_build_versions_sym :
      (l r : Text)
      → compare_build_versions collate l r ≡ some positive
      → compare_build_versions collate r l ≡ some negative
  unfolding compare_build_versions
  compare_build_versions_sym l r h = elim (Bool-cases (text_eq l r)) [
    | inl e ↦ let h' : some equal ≡ some positive = rw e at h in absurd (cc)
    | inr e ↦ elim (Option-cases (parse_build_version l)) [
      | inl p ↦ absurd (ground (arith, rw (e, p) at h))
      | inr (x, p) ↦ elim (Option-cases (parse_build_version r)) [
        | inl q ↦ absurd (ground (arith, rw (e, p, q) at h))
        | inr (y, q) ↦
            let h' : compare_parts collate x y ≡ positive = ground (arith, rw (e, p, q) at h) in
            rw (text_eq_sym r l, e, p, q, compare_parts_sym x y, h') refl
      ]
    ]
  ]
