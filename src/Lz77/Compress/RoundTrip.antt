-- ===== src/Lz77/Compress/RoundTrip.antt =====
-- Compression is undone on inputs of at most one window, and what `measure` reports is exact.
use nexcomp.Base.{
  ℕ, zero, suc, ◌+◌, ◌≤◌, ◌≡◌, max, refl, sym, ap₂, arith, List, [], ◌∷◌, length, get_or, All, ok,
}
use nexcomp.Base.Words.{Bytes, IsByte, IsBytes}
use nexcomp.Codecs.Bcj.{Floats}
use nexcomp.Lz77.{Token, literal, match, max_window}
use nexcomp.Lz77.Cover.{Covers}
use nexcomp.Lz77.Encoder.{encode}
use nexcomp.Lz77.Encoder.RoundTrip.{encode-Covers, decode-encode}
use nexcomp.Lz77.Decoder.{decode, usize_max}
use nexcomp.Lz77.Serial.{serialize, serialize_token}
use nexcomp.Lz77.Serial.RoundTrip.{Fits, deserialize-serialize}
use nexcomp.Lz77.Compress.{
  compress, decompress, count_literals, sum_match_bytes, stats_with_reps, serialized_len, measure,
}

get_or-IsByte : (bytes : Bytes) (i : ℕ) → IsBytes bytes → IsByte (get_or bytes i 0)
get_or-IsByte [] i h = omega arith
get_or-IsByte (b ∷ bytes) zero h = h.0
get_or-IsByte (b ∷ bytes) (suc i) h = get_or-IsByte bytes i h.1

Covers-Fits :
    (bytes : Bytes) (p q : ℕ) (tokens : List Token)
    → IsBytes bytes
    → length bytes ≤ max_window
    → Covers bytes p tokens q
    → All Fits tokens
Covers-Fits bytes p q [] h w c = tt
Covers-Fits bytes p q (literal b ∷ tokens) h w (hp, hb, c) =
    (rw (← hb) (get_or-IsByte bytes p h), Covers-Fits bytes (p + 1) q tokens h w c)
Covers-Fits bytes p q (match offset len ∷ tokens) h w ((pos, back, room, same), limits, c) =
    (omega arith, Covers-Fits bytes (p + len) q tokens h w c)

-- Up to the window of 4 MiB, decompressing what `compress` wrote gives the input back.
pub decompress-compress :
    (bytes : Bytes)
    → IsBytes bytes
    → length bytes ≤ max_window
    → decompress (compress bytes) ≡ ok bytes
unfolding decompress compress decode
decompress-compress bytes h w =
    rw
      (
        deserialize-serialize (encode bytes).0
            (Covers-Fits bytes 0 (length bytes) (encode bytes).0 h w (encode-Covers bytes)),
        decode-encode bytes usize_max (omega arith),
      )
      refl

length-serialize : (tokens : List Token) → length (serialize tokens) ≡ serialized_len tokens
unfolding serialize serialize_token serialized_len
length-serialize [] = refl
length-serialize (literal b ∷ tokens) = omega (arith, length-serialize tokens)
length-serialize (match offset len ∷ tokens) = omega (arith, length-serialize tokens)

spans-Covers :
    (bytes : Bytes) (p q : ℕ) (tokens : List Token)
    → Covers bytes p tokens q
    → p + (count_literals tokens + sum_match_bytes tokens) ≡ q
unfolding count_literals sum_match_bytes
spans-Covers bytes p q [] c = omega arith
spans-Covers bytes p q (literal b ∷ tokens) (hp, hb, c) =
    omega (arith, spans-Covers bytes (p + 1) q tokens c)
spans-Covers bytes p q (match offset len ∷ tokens) (hm, hl, c) =
    omega (arith, spans-Covers bytes (p + len) q tokens c)

-- Whatever the float arithmetic is: `measure` reports the length of the input, the exact size of its
-- compressed form, and as the ratio the quotient of the bytes that the matches of the encoder cover
-- by the length of the input, or by 1 if it is empty; the literals cover the rest of the input.
pub measure_exact :
    {F : Type 0} (f : Floats F) (bytes : Bytes)
    → let covered = sum_match_bytes (encode bytes).0 in
      (measure f bytes
        ≡ (length bytes, length (compress bytes), f.quotient covered (max (length bytes) 1)))
      × (count_literals (encode bytes).0 + covered ≡ length bytes)
unfolding measure compress stats_with_reps
measure_exact {F} f bytes =
    let tokens = (encode bytes).0 in
    let covered = sum_match_bytes tokens in
    let size = sym (length-serialize tokens) in
    let total : count_literals tokens + covered ≡ length bytes =
      omega (arith, spans-Covers bytes 0 (length bytes) tokens (encode-Covers bytes)) in
    (ap₂ {C = ℕ × ℕ × F} (λ n m. (length bytes, n, f.quotient covered (max m 1))) size total, total)
