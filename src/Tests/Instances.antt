-- ===== src/Tests/Instances.antt =====
-- Concrete codecs, floats, classifier and hash that meet what the container asks of them.
use nexcomp.Base.{
  ℕ, ◌*◌, ◌/◌, ◌^◌, ◌≤◌, ◌<◌, ◌≡◌, refl, sym, ap, ◌∙◌, arith, List, [], ◌∷◌, ◌++◌, append_assoc,
  append-nil, Option, none, some, ltb, le→leb, eq→==, Result, length, length-append, drop, Outcome,
  returns, ok,
}
use nexcomp.Base.Words.{Bytes, to_le, of_le, length-to_le, of_le-to_le}
use nexcomp.Codecs.Bcj.{Floats}
use nexcomp.Adaptive.{CodecId, lzma_style, block_size, AdaptiveError}
use nexcomp.Adaptive.Reader.{u32_at, read_le, slice?}
use nexcomp.Adaptive.Lengths.{check_declared_lengths}
use nexcomp.Adaptive.Block.{Codecs, CodecChoice, choose_lzma, Metrics}
use nexcomp.Adaptive.Block.Decoding.{CodecLaws}
use nexcomp.Adaptive.Digest.{Blake3, Blake3Laws, concat, update_all}

-- Floats as thousandths.
abbrev pub milli : Floats ℕ
milli = record { quotient = λ a b. a * 1000 / b; decimal = λ m k. m * 1000 / 10 ^ k; lt = ltb }

abbrev pub classify : Bytes → CodecChoice × Metrics ℕ
classify bytes = (choose_lzma, record { ascii_ratio = 500; entropy = 3000 })

-- One codec stores the block behind its length; the others reject every input.
abbrev encode : CodecId → Bytes → Outcome (Option Bytes)
encode lzma_style bytes = returns (some (to_le 4 (length bytes) ++ bytes))
encode codec bytes = returns none

abbrev pub codecs : Codecs
codecs = record { encode = encode; decode = λ codec bytes expected. returns (some (drop 4 bytes)) }

read_back :
    (bytes : Bytes)
    → length bytes ≤ block_size
    → u32_at (to_le 4 (length bytes) ++ bytes) 0 ≡ ok (length bytes)
unfolding u32_at read_le slice? to_le
read_back bytes h =
    rw (le→leb 4 (length (to_le 4 (length bytes) ++ bytes)) (omega arith))
      (ap {B = Result AdaptiveError ℕ} ok (of_le-to_le 4 (length bytes) (omega arith)))

fits :
    (codec : CodecId) (bytes out : Bytes)
    → length bytes ≤ block_size
    → encode codec bytes ≡ returns (some out)
    → length out < 2 ^ 32
fits lzma_style bytes out hl e =
    let same : to_le 4 (length bytes) ++ bytes ≡ out = cc in
    rw (← same, length-append (to_le 4 (length bytes)) bytes, length-to_le 4 (length bytes))
      (omega arith)
fits codec bytes out hl e = cc

declares :
    (codec : CodecId) (bytes out : Bytes)
    → length bytes ≤ block_size
    → encode codec bytes ≡ returns (some out)
    → check_declared_lengths codec out (length bytes) ≡ ok tt
unfolding check_declared_lengths
declares lzma_style bytes out hl e =
    let same : to_le 4 (length bytes) ++ bytes ≡ out = cc in
    rw (← same, read_back bytes hl, eq→== (length bytes) (length bytes) refl) refl
declares codec bytes out hl e = cc

round_trip :
    (codec : CodecId) (bytes out : Bytes)
    → encode codec bytes ≡ returns (some out)
    → codecs.decode codec out (length bytes) ≡ returns (some bytes)
unfolding to_le
round_trip lzma_style bytes out e =
    let same : to_le 4 (length bytes) ++ bytes ≡ out = cc in rw (← same) refl
round_trip codec bytes out e = cc

pub codecs_lawful : CodecLaws codecs
codecs_lawful = record {
  fits = λ codec bytes out hb hl e. fits codec bytes out hl e;
  declares = λ codec bytes out ne hb hl e. declares codec bytes out hl e;
  round_trip = λ codec bytes out hb hl e. round_trip codec bytes out e;
}

abbrev pub digest : Blake3 Bytes
digest = record {
  hash = λ bytes. to_le 32 (of_le bytes);
  new = [];
  update = λ h bytes. h ++ bytes;
  finalize = λ h. to_le 32 (of_le h);
}

update_all-concat :
    (h : Bytes) (chunks : List Bytes) → update_all digest h chunks ≡ h ++ concat chunks
update_all-concat h [] = sym (append-nil h)
update_all-concat h (chunk ∷ chunks) =
    update_all-concat (h ++ chunk) chunks ∙ append_assoc h chunk (concat chunks)

pub digest_lawful : Blake3Laws digest
digest_lawful = record {
  hash_length = λ bytes. length-to_le 32 (of_le bytes);
  incremental = λ chunks. ap (λ h. to_le 32 (of_le h)) (update_all-concat [] chunks);
}
