-- ===== src/Audit/Chain.antt =====
-- The hash chain: what `append` writes verifies, and a verified log is numbered and linked.
use run_beacon.Base.{
  ℕ, ◌+◌, ◌≡◌, ◌∙◌, refl, sym, ap, inl, inr, ◌⊎◌, List, [], ◌∷◌, ◌++◌, true, Option, none, some,
  length, ◌==◌, get_last?, arith, Option-cases, Bool-cases, ==_iff,
}
use run_beacon.Base.Text.{Text, text_eq, text_eq_refl, text_eq_sound}
use run_beacon.Audit.{
  AuditPayload, AuditEvent, NewEvent, zero_hash, verify_from, read_verified, next_payload, append,
}

-- The hash that the next event has to name, and the number that it has to have.
pub last_hash : Text → List AuditEvent → Text
last_hash h [] = h
last_hash h (e ∷ es) = last_hash e.hash es

-- Each event has the next number, names the hash of the one before, and has the hash of its payload.
unfoldable pub IsChain : (AuditPayload → Text) → ℕ → Text → List AuditEvent → Type 0
IsChain hash n h [] = Unit
IsChain hash n h (e ∷ es) =
    (e.payload.sequence ≡ n)
    × (e.payload.previous_hash ≡ h)
    × (e.hash ≡ hash e.payload)
    × IsChain hash (n + 1) e.hash es

unfoldable pub lines_of : List AuditEvent → List (Option AuditEvent)
lines_of [] = []
lines_of (e ∷ es) = some e ∷ lines_of es

IsChain-verifies :
    (hash : AuditPayload → Text) (n : ℕ) (h : Text) (es : List AuditEvent)
    → IsChain hash n h es
    → verify_from hash n h (lines_of es) ≡ some es
unfolding IsChain lines_of verify_from
IsChain-verifies hash n h [] c = refl
IsChain-verifies hash n h (e ∷ es) (s, p, q, c) =
    let same_number : (e.payload.sequence == n) ≡ true = rw s (ground arith) in
    let same_link : text_eq e.payload.previous_hash h ≡ true = rw p (text_eq_refl h) in
    let same_hash : text_eq e.hash (hash e.payload) ≡ true = rw q (text_eq_refl (hash e.payload)) in
    rw (same_number, same_link, same_hash, IsChain-verifies hash (n + 1) e.hash es c) refl

verified-IsChain :
    (hash : AuditPayload → Text) (n : ℕ) (h : Text) (lines : List (Option AuditEvent))
    (es : List AuditEvent)
    → verify_from hash n h lines ≡ some es
    → (lines ≡ lines_of es) × IsChain hash n h es
unfolding IsChain lines_of verify_from
verified-IsChain hash n h [] [] v = (refl, tt)
verified-IsChain hash n h [] (e ∷ es) v = cc
verified-IsChain hash n h (none ∷ lines) es v = cc
verified-IsChain hash n h (some e ∷ lines) es v = elim (Bool-cases (e.payload.sequence == n)) [
  | inr f ↦ cc (rw f at v)
  | inl number ↦ elim (Bool-cases (text_eq e.payload.previous_hash h)) [
    | inr f ↦ cc (rw (number, f) at v)
    | inl link ↦ elim (Bool-cases (text_eq e.hash (hash e.payload))) [
      | inr f ↦ cc (rw (number, link, f) at v)
      | inl own ↦ elim (Option-cases (verify_from hash (n + 1) e.hash lines)) [
        | inl refused ↦ cc (rw (number, link, own, refused) at v)
        | inr (rest, v') ↦
            let (a, c) = verified-IsChain hash (n + 1) e.hash lines rest v' in
            let same : e ∷ rest ≡ es = some_injective (rw (number, link, own, v') at v) in
            rw (sym same) (
              ap (λ t. some e ∷ t) a,
              ((==_iff _ _).0 number, text_eq_sound _ _ link, text_eq_sound _ _ own, c),
            )
      ]
    ]
  ]
]
  where
    some_injective : {x y : List AuditEvent} → some x ≡ some y → x ≡ y
    some_injective e = cc

IsChain-append :
    (hash : AuditPayload → Text) (n : ℕ) (h : Text) (es : List AuditEvent) (e : AuditEvent)
    → IsChain hash n h es
    → e.payload.sequence ≡ n + length es
    → e.payload.previous_hash ≡ last_hash h es
    → e.hash ≡ hash e.payload
    → IsChain hash n h (es ++ e ∷ [])
unfolding IsChain last_hash
IsChain-append hash n h [] e c s p q = (s ∙ omega arith, p, q, tt)
IsChain-append hash n h (x ∷ es) e (a, b, d, c) s p q =
    (a, b, d, IsChain-append hash (n + 1) x.hash es e c (s ∙ omega arith) p q)

lines_of-append :
    (es : List AuditEvent) (e : AuditEvent) → lines_of es ++ some e ∷ [] ≡ lines_of (es ++ e ∷ [])
unfolding lines_of
lines_of-append [] e = refl
lines_of-append (x ∷ es) e = ap (λ t. some x ∷ t) (lines_of-append es e)

-- The last event of a chain has the last number and the last hash.
last_of_chain :
    (hash : AuditPayload → Text) (n : ℕ) (h : Text) (x : AuditEvent) (es : List AuditEvent)
    → IsChain hash n h (x ∷ es)
    → (e : AuditEvent) × (get_last? (x ∷ es) ≡ some e)
      × (e.payload.sequence + 1 ≡ n + length (x ∷ es))
      × (e.hash ≡ last_hash h (x ∷ es))
unfolding IsChain last_hash
last_of_chain hash n h x [] (a, b, d, c) = (x, refl, omega (arith, a), refl)
last_of_chain hash n h x (y ∷ es) (a, b, d, c) =
    let (e, l, s, q) = last_of_chain hash (n + 1) x.hash y es c in (e, l, omega (arith, s), q)

next_payload_lem :
    (hash : AuditPayload → Text) (now : ℕ) (event : NewEvent) (es : List AuditEvent)
    → IsChain hash 1 zero_hash es
    → ((next_payload now event es).sequence ≡ 1 + length es)
      × ((next_payload now event es).previous_hash ≡ last_hash zero_hash es)
unfolding next_payload last_hash
next_payload_lem hash now event [] c = (refl, refl)
next_payload_lem hash now event (x ∷ es) c =
    let (e, l, s, q) = last_of_chain hash 1 zero_hash x es c in
    (rw (next_payload, l) (omega (arith, s)), rw (next_payload, l) q)

-- `readVerified` returns the events of a file exactly when each line of the file is the record of
-- the event, the numbers run from 1 on, each event names the hash of the one before, the first one
-- names the zero hash, and each has the hash of its payload.
pub read_verified_lem :
    (hash : AuditPayload → Text) (lines : List (Option AuditEvent)) (es : List AuditEvent)
    → (read_verified hash lines ≡ some es → (lines ≡ lines_of es) × IsChain hash 1 zero_hash es)
      × ((lines ≡ lines_of es) × IsChain hash 1 zero_hash es → read_verified hash lines ≡ some es)
unfolding read_verified
read_verified_lem hash lines es = (
  λ v. verified-IsChain hash 1 zero_hash lines es v,
  λ (q, c). rw q (IsChain-verifies hash 1 zero_hash es c),
)

-- `append` to a file that verifies writes one event at its end, which has the next number, and the
-- file verifies again with that event last; `append` to any other file throws and leaves the file.
pub append_lem :
    (hash : AuditPayload → Text) (now : ℕ) (event : NewEvent) (lines : List (Option AuditEvent))
    → ((read_verified hash lines ≡ none) × (append hash now event lines ≡ (none, lines)))
      ⊎ ((es : List AuditEvent) × (e : AuditEvent) × (read_verified hash lines ≡ some es)
          × (append hash now event lines ≡ (some e, lines ++ some e ∷ []))
          × (e.payload.sequence ≡ length es + 1)
          × (read_verified hash (lines ++ some e ∷ []) ≡ some (es ++ e ∷ [])))
unfolding append
append_lem hash now event lines = elim (Option-cases (read_verified hash lines)) [
  | inl e ↦ inl (e, rw (append, e) refl)
  | inr (es, v) ↦
      let (q, c) = (read_verified_lem hash lines es).0 v in
      let (s, p) = next_payload_lem hash now event es c in
      let payload = next_payload now event es in
      let e : AuditEvent = record { payload = payload; hash = hash payload } in
      let c' = IsChain-append hash 1 zero_hash es e c s p refl in
      inr (
        es,
        e,
        v,
        rw (append, v) refl,
        s ∙ omega arith,
        (read_verified_lem hash (lines ++ some e ∷ []) (es ++ e ∷ [])).1
            (ap (λ t. t ++ some e ∷ []) q ∙ lines_of-append es e, c'),
      )
]
