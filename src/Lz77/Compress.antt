-- ===== src/Lz77/Compress.antt =====
-- src/lz77/mod.rs: the encoder and the serializer composed, and the statistics of encoder.rs.
pub mod RoundTrip
use nexcomp.Base.{
  ℕ, zero, suc, ◌+◌, max, Bool, true, false, List, [], ◌∷◌, if◌then◌else◌, length, Result, ok, err,
  stuck, ◌>>=◌,
}
use nexcomp.Base.Words.{Bytes}
use nexcomp.Lz77.{Token, literal, match, is_match}
use nexcomp.Lz77.Encoder.{encode}
use nexcomp.Lz77.Decoder.{Lz77DecodeError, decode}
use nexcomp.Codecs.Bcj.{Floats}
use nexcomp.Lz77.Serial.{Lz77SerialError, serialize, deserialize}

pub data Lz77Error : Type 0 where
  serial : Lz77SerialError → Lz77Error
  decoding : Lz77DecodeError → Lz77Error

-- `map_err`.
abbrev map_err : {E F A : Type 0} → (E → F) → Result E A → Result F A
map_err f (ok a) = ok a
map_err f (err e) = err (f e)
map_err f stuck = stuck

pub compress : Bytes → Bytes
compress bytes = serialize (encode bytes).0

pub decompress : Bytes → Result Lz77Error Bytes
decompress bytes = do tokens ← map_err serial (deserialize bytes); map_err decoding (decode tokens)

pub record EncoderStats (F : Type 0) : Type 0 where
  pub literals : ℕ
  pub matches : ℕ
  pub match_bytes : ℕ
  pub match_ratio : F
  pub rep_matches : ℕ

pub count_literals : List Token → ℕ
count_literals [] = 0
count_literals (literal b ∷ tokens) = suc (count_literals tokens)
count_literals (match offset len ∷ tokens) = count_literals tokens

count_matches : List Token → ℕ
unfolding is_match
count_matches [] = 0
count_matches (token ∷ tokens) =
    let rest = count_matches tokens in if is_match token then suc rest else rest

pub sum_match_bytes : List Token → ℕ
sum_match_bytes [] = 0
sum_match_bytes (literal b ∷ tokens) = sum_match_bytes tokens
sum_match_bytes (match offset len ∷ tokens) = len + sum_match_bytes tokens

-- The size that `measure` reports for the serialized tokens.
pub serialized_len : List Token → ℕ
unfolding is_match
serialized_len [] = 0
serialized_len (token ∷ tokens) = (if is_match token then 5 else 2) + serialized_len tokens

module _ {F : Type 0} (f : Floats F) where
  pub stats_with_reps : List Token → ℕ → EncoderStats F
  stats_with_reps tokens rep_matches =
      let literals = count_literals tokens in
      let match_bytes = sum_match_bytes tokens in
      let total_input = literals + match_bytes in
      record {
        literals = literals;
        matches = count_matches tokens;
        match_bytes = match_bytes;
        match_ratio = f.quotient match_bytes (max total_input 1);
        rep_matches = rep_matches;
      }

  stats : List Token → EncoderStats F
  unfolding stats_with_reps
  stats tokens = stats_with_reps tokens 0

  pub measure : Bytes → ℕ × ℕ × F
  measure bytes =
      let (tokens, reps) = encode bytes in
      (length bytes, serialized_len tokens, (stats_with_reps tokens reps).match_ratio)
