-- ===== src/Codecs/Block.antt =====
-- The block types of src/codecs/mod.rs: classification, and compression by type.
use nexcomp.Base.{
  ℕ, zero, suc, ◌+◌, ◌<◌, ◌^◌, ◌≡◌, refl, List, [], ◌∷◌, ◌==◌, if◌then◌else◌, map, length, Result,
  ok,
}
use nexcomp.Base.Words.{Bytes}
use nexcomp.Codecs.Bcj.{Floats}
use nexcomp.Codecs.Rle.{CodecError, rle_encode, rle_decode}
use nexcomp.Codecs.Rle.RoundTrip.{rle_decode-rle_encode}

pub data BlockType : Type 0 where
  zeros low_entropy text binary : BlockType

-- The float arithmetic of the entropy.
pub record Logarithms (F : Type 0) : Type 0 where
  pub zero_float : F
  pub plus : F → F → F
  pub times : F → F → F
  pub negate : F → F
  pub log2 : F → F

-- An entry of the histogram.
occurrences : ℕ → Bytes → ℕ
occurrences c [] = 0
occurrences c (b ∷ bytes) = (if b == c then 1 else 0) + occurrences c bytes

-- The `n` values from `first` on.
abbrev values : ℕ → ℕ → List ℕ
values first zero = []
values first (suc n) = first ∷ values (first + 1) n

abbrev sum : List ℕ → ℕ
sum [] = 0
sum (n ∷ ns) = n + sum ns

-- Space to tilde, tab, newline and carriage return.
printable : Bytes → ℕ
unfolding occurrences
printable bytes =
    sum (map (λ c. occurrences c bytes) (values 0x20 95))
    + occurrences 9 bytes
    + occurrences 10 bytes
    + occurrences 13 bytes

module _ {F : Type 0} (f : Floats F) (l : Logarithms F) where
  -- The sum of `-p * p.log2()`, where `-` binds tighter, over the counts that are not zero, from
  -- the left.
  pub entropy_sum : ℕ → F → List ℕ → F
  entropy_sum len total [] = total
  entropy_sum len total (zero ∷ counts) = entropy_sum len total counts
  entropy_sum len total (suc c ∷ counts) =
      let p = f.quotient (suc c) len in
      entropy_sum len (l.plus total (l.times (l.negate p) (l.log2 p))) counts

  classify_block_type : Bytes → BlockType
  unfolding printable entropy_sum
  classify_block_type [] = zeros
  classify_block_type (b ∷ bytes) =
      let block = b ∷ bytes in
      let len = length block in
      if f.lt (f.decimal 95 2) (f.quotient (occurrences 0 block) len)
      then zeros
      else if f.lt (f.decimal 85 2) (f.quotient (printable block) len)
      then text
      else if f.lt (entropy_sum len l.zero_float (map (λ c. occurrences c block) (values 0 256)))
          (f.decimal 15 1)
      then low_entropy
      else binary

  -- What a type is stored as.
  abbrev encoded : BlockType → Bytes → Bytes
  encoded zeros bytes = rle_encode bytes
  encoded low_entropy bytes = rle_encode bytes
  encoded text bytes = bytes
  encoded binary bytes = bytes

  pub compress_block : Bytes → BlockType × Bytes
  compress_block bytes = let bt = classify_block_type bytes in (bt, encoded bt bytes)

pub decompress_block : BlockType → Bytes → Result CodecError Bytes
decompress_block zeros bytes = rle_decode bytes
decompress_block low_entropy bytes = rle_decode bytes
decompress_block text bytes = ok bytes
decompress_block binary bytes = ok bytes

module _ {F : Type 0} (f : Floats F) (l : Logarithms F) where
  by_type :
      (bytes : Bytes) (bt : BlockType)
      → length bytes < 2 ^ 22
      → decompress_block bt (encoded f l bt bytes) ≡ ok bytes
  unfolding decompress_block
  by_type bytes zeros h = rle_decode-rle_encode bytes h
  by_type bytes low_entropy h = rle_decode-rle_encode bytes h
  by_type bytes text h = refl
  by_type bytes binary h = refl

  -- A block of fewer than 2 ^ 22 bytes comes back from what its type stores, whatever type the
  -- floats give it.
  pub decompress_block-compress_block :
      (bytes : Bytes)
      → length bytes < 2 ^ 22
      → decompress_block (compress_block f l bytes).0 (compress_block f l bytes).1 ≡ ok bytes
  unfolding compress_block
  decompress_block-compress_block bytes h = by_type bytes (classify_block_type f l bytes) h
