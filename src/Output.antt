-- ===== src/Output.antt =====
-- The output buffer of a job: `boundOutputChunk` and `trimOutputBuffer` of
-- src/lifecycle/LifecycleManager.ts. A text is the list of its UTF-8 bytes, so `Buffer.from` and
-- `toString('utf8')` of a cut at a character's first byte are the identity. The `while` loop of
-- `trimOutputBuffer` runs on fuel, one more than the number of chunks: each round drops a chunk or
-- is the last one.
pub mod Trim
use Prim.Native.Nat.{bit_and}
use run_beacon.Base.{
  ℕ, zero, suc, ◌+◌, ◌-◌, min, List, [], ◌∷◌, ◌++◌, Bool, true, false, ◌&&◌, length, drop, ltb, leb,
  ◌==◌, if◌then◌else◌, is_empty, not,
}
use run_beacon.Types.{JobOutputChunk, OutputBuffer}

-- `(byte & 0xc0) === 0x80`
pub is_continuation : ℕ → Bool
is_continuation b = bit_and b 0xc0 == 0x80

-- The rounds of `while (start < encoded.length && (encoded[start] & 0xc0) === 0x80) start += 1`
-- over the bytes from `start` on.
pub leading : List ℕ → ℕ
leading [] = 0
leading (b ∷ bs) = if is_continuation b then leading bs + 1 else 0

pub char_start : List ℕ → ℕ → ℕ
char_start encoded start = start + leading (drop start encoded)

pub bound_output_chunk : ℕ → List ℕ → List ℕ × Bool
bound_output_chunk max_output_bytes encoded =
    if leb (length encoded) max_output_bytes
    then (encoded, false)
    else (drop (char_start encoded (length encoded - max_output_bytes)) encoded, true)

-- One round of the loop, on a buffer that is over the limit: the chunks, by the first of them, and
-- the byte count.
pub trim_round : ℕ → JobOutputChunk → List JobOutputChunk → ℕ → List JobOutputChunk × ℕ
trim_round max_output_bytes first rest bytes =
    let overflow = bytes - max_output_bytes in
    let size = length first.text in
    let start = char_start first.text (min overflow size) in
    let text = drop start first.text in
    if leb size overflow && not (is_empty rest)
    then (rest, bytes - size)
    else (if is_empty text then rest else record first { text = text } ∷ rest, bytes - start)

pub trim_loop : ℕ → ℕ → List JobOutputChunk → ℕ → Bool → List JobOutputChunk × ℕ × Bool
trim_loop zero limit chunks bytes truncated = (chunks, bytes, truncated)
trim_loop (suc fuel) limit [] bytes truncated = ([], bytes, truncated)
trim_loop (suc fuel) limit (first ∷ rest) bytes truncated =
    let (chunks', bytes') = trim_round limit first rest bytes in
    let again = trim_loop fuel limit chunks' bytes' true in
    if ltb limit bytes then again else (first ∷ rest, bytes, truncated)

unfoldable pub trim_output_buffer : ℕ → OutputBuffer → OutputBuffer
trim_output_buffer max_output_bytes b =
    let (chunks, bytes, truncated) =
      trim_loop (length b.output + 1) max_output_bytes b.output b.output_bytes b.output_truncated in
    record b { output = chunks; output_bytes = bytes; output_truncated = truncated }
