-- ===== src/Audit/Digest.antt =====
-- The digests of src/lifecycle/AuditLog.ts in lower case.
use run_beacon.Base.{ℕ, zero, suc, ◌≡◌, refl, ap, [], ◌∷◌, true, arith, all, take, drop, length}
use run_beacon.Base.Text.{Text}
use run_beacon.Audit.{is_digest, lower, lower_byte, is_hex}

lower_byte-lower_byte : (b : ℕ) → lower_byte (lower_byte b) ≡ lower_byte b
unfolding lower_byte
lower_byte-lower_byte b = ground arith

pub lower-lower : (t : Text) → lower (lower t) ≡ lower t
unfolding lower
lower-lower [] = refl
lower-lower (b ∷ t) = rw (lower_byte-lower_byte b, lower-lower t) refl

length-lower : (t : Text) → length (lower t) ≡ length t
unfolding lower
length-lower [] = refl
length-lower (b ∷ t) = ap suc (length-lower t)

take-lower : (n : ℕ) (t : Text) → take n (lower t) ≡ lower (take n t)
unfolding lower
take-lower zero t = refl
take-lower (suc n) [] = refl
take-lower (suc n) (b ∷ t) = ap (λ x. lower_byte b ∷ x) (take-lower n t)

drop-lower : (n : ℕ) (t : Text) → drop n (lower t) ≡ lower (drop n t)
unfolding lower
drop-lower zero t = refl
drop-lower (suc n) [] = refl
drop-lower (suc n) (b ∷ t) = drop-lower n t

is_hex-lower_byte : (b : ℕ) → is_hex b ≡ true → is_hex (lower_byte b) ≡ true
unfolding is_hex lower_byte
is_hex-lower_byte b h = ground arith

all-lower : (t : Text) → all is_hex t ≡ true → all is_hex (lower t) ≡ true
unfolding lower
all-lower [] h = refl
all-lower (b ∷ t) h = ground (arith, is_hex-lower_byte b, all-lower t)

pub is_digest-lower : (t : Text) → is_digest t ≡ true → is_digest (lower t) ≡ true
unfolding is_digest
is_digest-lower t h =
    rw (is_digest, take-lower 7 t, lower-lower (take 7 t), length-lower t, drop-lower 7 t)
      (ground (arith, all-lower (drop 7 t)))
