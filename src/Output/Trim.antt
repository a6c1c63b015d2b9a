-- ===== src/Output/Trim.antt =====
-- What trimming the output buffer keeps: the byte count, the limit, and the end of the text.
use native.Mathlib.Numerals.{add-one}
use native.Mathlib.Nat.{zero-add, suc-add}
use run_beacon.Base.{
  ℕ, zero, suc, ◌+◌, ◌-◌, ◌≤◌, ◌<◌, ◌≡◌, refl, sym, ap, ◌∙◌, min, List, [], ◌∷◌, ◌++◌, Bool, true,
  false, ◌&&◌, ◌||◌, not, arith, length, drop, length-drop, length-append, ltb, leb, if◌then◌else◌,
  is_empty, Bool-cases, ltb→lt, ltb→le, leb→le, leb→lt, inl, inr, ◌⊎◌, List-cases,
}
use run_beacon.Types.{JobOutputChunk, OutputBuffer}
use run_beacon.Output.{
  is_continuation, leading, char_start, bound_output_chunk, trim_round, trim_loop,
  trim_output_buffer,
}

-- The text of a buffer, and its size.
abbrev pub contents : List JobOutputChunk → List ℕ
contents [] = []
contents (c ∷ cs) = c.text ++ contents cs

abbrev pub total : List JobOutputChunk → ℕ
total cs = length (contents cs)

-- The second text is the end of the first.
abbrev pub IsEndOf : List ℕ → List ℕ → Type 0
IsEndOf short long = (k : ℕ) × (short ≡ drop k long)

drop_all : (xs : List ℕ) → drop (length xs) xs ≡ []
drop_all [] = refl
drop_all (x ∷ xs) = drop_all xs

drop-append : (k : ℕ) (xs ys : List ℕ) → k ≤ length xs → drop k (xs ++ ys) ≡ drop k xs ++ ys
drop-append zero xs ys h = refl
drop-append (suc k) [] ys h = absurd (omega arith)
drop-append (suc k) (x ∷ xs) ys h = drop-append k xs ys (omega arith)

drop_nil : (k : ℕ) → drop {A = ℕ} k [] ≡ []
drop_nil zero = refl
drop_nil (suc k) = refl

drop-drop : (j k : ℕ) (xs : List ℕ) → drop k (drop j xs) ≡ drop (j + k) xs
drop-drop zero k xs = rw zero-add
drop-drop (suc j) k [] = drop_nil k ∙ sym (drop_nil (suc j + k))
drop-drop (suc j) k (x ∷ xs) = rw suc-add (drop-drop j k xs)

leading-le : (bs : List ℕ) → leading bs ≤ length bs
unfolding leading
leading-le [] = omega arith
leading-le (b ∷ bs) = ground (arith, leading-le bs)

char_start_bounds :
    (bs : List ℕ) (s : ℕ) → s ≤ length bs → (s ≤ char_start bs s) × (char_start bs s ≤ length bs)
unfolding char_start
char_start_bounds bs s h = omega (arith, leading-le (drop s bs), length-drop s bs)

-- A round cuts the text at its front and keeps the byte count, and it drops a chunk or ends within
-- the limit.
record RoundOk (limit : ℕ) (old new : List JobOutputChunk) (bytes : ℕ) : Type 0 where
  counted : bytes ≡ total new
  suffix : IsEndOf (contents new) (contents old)
  smaller : (length new < length old) ⊎ (bytes ≤ limit)

cut_front :
    (c : JobOutputChunk) (rest : List JobOutputChunk) (start : ℕ)
    → start ≤ length c.text
    → contents (
        if is_empty (drop start c.text) then rest else record c { text = drop start c.text } ∷ rest)
      ≡ drop start (c.text ++ contents rest)
cut_front c rest start h =
    rw (drop-append start c.text (contents rest) h)
      (elim (List-cases (drop start c.text)) [ inl e ↦ rw e | inr (x, xs, e) ↦ rw e ])

drop_chunk :
    (limit : ℕ) (first : JobOutputChunk) (rest : List JobOutputChunk) (bytes : ℕ)
    → bytes ≡ total (first ∷ rest)
    → RoundOk limit (first ∷ rest) rest (bytes - length first.text)
drop_chunk limit first rest bytes e = record {
  counted = omega (arith, e, length-append first.text (contents rest));
  suffix = (
    length first.text,
    sym (
        drop-append _ first.text (contents rest) (omega arith)
        ∙ ap (λ l. l ++ contents rest) (drop_all first.text)),
  );
  smaller = inl (omega arith);
}

cut_chunk :
    (limit : ℕ) (first : JobOutputChunk) (rest : List JobOutputChunk) (bytes start : ℕ)
    → bytes ≡ total (first ∷ rest)
    → bytes - limit ≤ start
    → start ≤ length first.text
    → RoundOk limit
        (first ∷ rest)
        (if is_empty (drop start first.text)
          then rest
          else record first { text = drop start first.text } ∷ rest)
        (bytes - start)
cut_chunk limit first rest bytes start e low high = record {
  counted = omega (
    arith,
    e,
    ap length (cut_front first rest start high),
    length-drop start (first.text ++ contents rest),
  );
  suffix = (start, cut_front first rest start high);
  smaller = inr (omega arith);
}

cut_reaches :
    (limit : ℕ) (first : JobOutputChunk) (rest : List JobOutputChunk) (bytes : ℕ)
    → bytes ≡ total (first ∷ rest)
    → (leb (length first.text) (bytes - limit) && not (is_empty rest)) ≡ false
    → bytes - limit ≤ length first.text
cut_reaches limit first [] bytes e t = omega (arith, length-append first.text [])
cut_reaches limit first (c ∷ rest) bytes e t = ground arith

trim_round-RoundOk :
    (limit : ℕ) (first : JobOutputChunk) (rest : List JobOutputChunk) (bytes : ℕ)
    → bytes ≡ total (first ∷ rest)
    → let (chunks, bytes') = trim_round limit first rest bytes in
      RoundOk limit (first ∷ rest) chunks bytes'
unfolding trim_round
trim_round-RoundOk limit first rest bytes e =
    elim (Bool-cases (leb (length first.text) (bytes - limit) && not (is_empty rest))) [
      | inl t ↦ rw t (drop_chunk limit first rest bytes e)
      | inr f ↦
          let reach = cut_reaches limit first rest bytes e f in
          let (low, high) =
            char_start_bounds first.text (min (bytes - limit) (length first.text)) (omega arith) in
          rw f (cut_chunk limit first rest bytes _ e (omega arith) high)
    ]

-- What the loop leaves of a buffer that held `old`.
record TrimOk (limit : ℕ) (old new : List JobOutputChunk) (bytes : ℕ) : Type 0 where
  counted : bytes ≡ total new
  suffix : IsEndOf (contents new) (contents old)
  bounded : bytes ≤ limit

trim_loop-TrimOk :
    (fuel limit : ℕ) (chunks : List JobOutputChunk) (bytes : ℕ) (t : Bool)
    → length chunks < fuel ⊎ (bytes ≤ limit)
    → bytes ≡ total chunks
    → let (chunks', bytes', t') = trim_loop fuel limit chunks bytes t in
      TrimOk limit chunks chunks' bytes' × (t' ≡ (t || ltb limit bytes))
unfolding trim_loop
trim_loop-TrimOk zero limit chunks bytes t h e =
    (record { counted = e; suffix = (0, refl); bounded = omega arith }, ground arith)
trim_loop-TrimOk (suc fuel) limit [] bytes t h e =
    (record { counted = e; suffix = (0, refl); bounded = omega arith }, ground arith)
trim_loop-TrimOk (suc fuel) limit (first ∷ rest) bytes t h e = elim (Bool-cases (ltb limit bytes)) [
  | inl over ↦
      let (chunks, bytes') = trim_round limit first rest bytes in
      let round = trim_round-RoundOk limit first rest bytes e in
      let more : (length chunks < fuel) ⊎ (bytes' ≤ limit) = elim round.smaller [
        | inl l ↦ inl (ground (arith, ltb→lt limit bytes over))
        | inr l ↦ inr l
      ] in
      let (loop, flag) = trim_loop-TrimOk fuel limit chunks bytes' true more round.counted in
      rw over (
        record {
          counted = loop.counted;
          suffix = (
            round.suffix.0 + loop.suffix.0,
            loop.suffix.1
                ∙ ap (drop loop.suffix.0) round.suffix.1
                ∙ drop-drop round.suffix.0 loop.suffix.0 _,
          );
          bounded = loop.bounded;
        },
        flag ∙ ground arith,
      )
  | inr fits ↦
      rw fits (
        record { counted = e; suffix = (0, refl); bounded = ltb→le limit bytes fits },
        ground arith,
      )
]

-- A buffer whose byte count is right keeps it right under `trimOutputBuffer`, ends within the
-- limit, holds the end of the text that it held, and is marked as truncated exactly when it was
-- marked before or was over the limit.
pub trim_output_buffer_lem :
    (limit : ℕ) (b : OutputBuffer)
    → b.output_bytes ≡ total b.output
    → let b' = trim_output_buffer limit b in
      (b'.output_bytes ≡ total b'.output)
      × (b'.output_bytes ≤ limit)
      × IsEndOf (contents b'.output) (contents b.output)
      × (b'.output_truncated ≡ (b.output_truncated || ltb limit b.output_bytes))
unfolding trim_output_buffer
trim_output_buffer_lem limit b e =
    let (ok, flag) =
      trim_loop-TrimOk (length b.output + 1) limit b.output b.output_bytes b.output_truncated
        (inl (omega arith)) e in
    (ok.counted, ok.bounded, ok.suffix, flag)

leading-drop-leading : (bs : List ℕ) → leading (drop (leading bs) bs) ≡ 0
unfolding leading
leading-drop-leading [] = refl
leading-drop-leading (b ∷ bs) = elim (Bool-cases (is_continuation b)) [
  | inl c ↦ rw (c, add-one) (leading-drop-leading bs)
  | inr c ↦ rw c (rw c)
]

cut_leading : (bs : List ℕ) (s : ℕ) → leading (drop (char_start bs s) bs) ≡ 0
unfolding char_start
cut_leading bs s =
    ap leading (sym (drop-drop s (leading (drop s bs)) bs)) ∙ leading-drop-leading (drop s bs)

cut_length :
    (bs : List ℕ) (limit : ℕ)
    → limit ≤ length bs
    → length (drop (char_start bs (length bs - limit)) bs) + leading (drop (length bs - limit) bs)
      ≡ limit
unfolding char_start
cut_length bs limit h =
    let s = length bs - limit in
    omega
      (arith, length-drop s bs, leading-le (drop s bs), length-drop (s + leading (drop s bs)) bs)

-- `boundOutputChunk` returns a chunk within the limit as it is. Of a longer one it reports the
-- truncation and returns the end that begins at a character: the limit less the continuation bytes
-- that stand right after the cut.
pub bound_output_chunk_lem :
    (limit : ℕ) (encoded : List ℕ)
    → let (text, truncated) = bound_output_chunk limit encoded in
      (length encoded ≤ limit → (text ≡ encoded) × (truncated ≡ false))
      × (limit < length encoded
          → (truncated ≡ true)
            × IsEndOf text encoded
            × (leading text ≡ 0)
            × (length text + leading (drop (length encoded - limit) encoded) ≡ limit))
unfolding bound_output_chunk
bound_output_chunk_lem limit encoded = elim (Bool-cases (leb (length encoded) limit)) [
  | inl fits ↦ rw fits ((λ _. (refl, refl)), λ h. absurd (omega (arith, leb→le _ _ fits)))
  | inr long ↦
      let start = char_start encoded (length encoded - limit) in
      rw long (
        (λ h. absurd (omega (arith, leb→lt _ _ long))),
        λ h. (
          refl,
          (start, refl),
          cut_leading encoded (length encoded - limit),
          cut_length encoded limit (omega arith),
        ),
      )
]
