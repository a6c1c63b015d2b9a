-- ===== src/Eligibility/Patterns.antt =====
-- The order of the patterns of a `branches` filter of a workflow.
use run_beacon.Base.{
  ◌≡◌, ◌∙◌, refl, inl, inr, List, [], ◌∷◌, Bool, false, not, ◌&&◌, Option, none, some, filter,
  get_last?, is_empty, Bool-cases, ◌==◌, if◌then◌else◌,
}
use run_beacon.Base.Text.{Text}
use run_beacon.Eligibility.{split_negation, match_from, matches_ordered_patterns}

-- A pattern that starts with `!` takes branches out.
abbrev pub is_excluding : Text → Bool
is_excluding [] = false
is_excluding (b ∷ bs) = b == b'!'

-- The pattern without a `!` at its start.
abbrev pub bare : Text → Text
bare [] = []
bare (b ∷ bs) = if b == b'!' then bs else b ∷ bs

split_negation_lem : (p : Text) → split_negation p ≡ (is_excluding p, bare p)
unfolding split_negation
split_negation_lem [] = refl
split_negation_lem (b ∷ bs) = elim (Bool-cases (b == b'!')) [
  | inl e ↦ rw (split_negation, e) refl
  | inr e ↦ rw (split_negation, e) refl
]

-- A pattern speaks of the branch where what follows its `!` is not empty and matches.
abbrev pub speaks : (Text → Text → Bool) → Text → Text → Bool
speaks minimatch branch pattern = not (is_empty (bare pattern)) && minimatch branch (bare pattern)

-- A pattern includes the branch unless it starts with `!`.
abbrev pub includes : Bool → Option Text → Bool
includes otherwise none = otherwise
includes otherwise (some pattern) = not (is_excluding pattern)

includes_any :
    (a b : Bool) (p : Text) (ps : List Text)
    → includes a (get_last? (p ∷ ps)) ≡ includes b (get_last? (p ∷ ps))
includes_any a b p [] = refl
includes_any a b p (q ∷ ps) = includes_any a b q ps

includes_last :
    (a : Bool) (p : Text) (ps : List Text)
    → includes (not (is_excluding p)) (get_last? ps) ≡ includes a (get_last? (p ∷ ps))
includes_last a p [] = refl
includes_last a p (q ∷ ps) = includes_any (not (is_excluding p)) a q ps

match_from_lem :
    (minimatch : Text → Text → Bool) (branch : Text) (included : Bool) (patterns : List Text)
    → match_from minimatch branch included patterns
      ≡ includes included (get_last? (filter (speaks minimatch branch) patterns))
unfolding match_from
match_from_lem minimatch branch included [] = refl
match_from_lem minimatch branch included (p ∷ patterns) =
    elim (Bool-cases (speaks minimatch branch p)) [
      | inl e ↦
          rw (match_from, split_negation_lem p, e)
            (match_from_lem minimatch branch (not (is_excluding p)) patterns
              ∙ includes_last included p (filter (speaks minimatch branch) patterns))
      | inr e ↦
          rw (match_from, split_negation_lem p, e)
            (match_from_lem minimatch branch included patterns)
    ]

-- The last pattern that speaks of the branch decides: the branch is included exactly if there is one and it
-- has no `!`. Patterns of other branches, and an empty pattern, change nothing.
pub matches_ordered_patterns_lem :
    (minimatch : Text → Text → Bool) (branch : Text) (patterns : List Text)
    → matches_ordered_patterns minimatch branch patterns
      ≡ includes false (get_last? (filter (speaks minimatch branch) patterns))
unfolding matches_ordered_patterns
matches_ordered_patterns_lem minimatch branch patterns =
    match_from_lem minimatch branch false patterns
