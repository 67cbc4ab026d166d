-- ===== src/Tests/Entropy.antt =====
-- src/entropy/mod.rs at concrete inputs.
use nexcomp.Base.{ℕ, ◌≡◌, refl, arith, List, [], ◌∷◌, ok, returns}
use nexcomp.Base.Words.{Bytes}
use nexcomp.Entropy.Table.{RansTable, build_table, build_decode_table, accumulate}
use nexcomp.Entropy.Coder.{
  rans_encode, rans_decode, encode_symbols, encode_symbol, renormalize, advance, finish, flush,
}
use nexcomp.Entropy.Normalize.{
  normalize_freqs, normalize_with, adjust, scaled, fractional, give, add_one, sort_by,
}
use nexcomp.Entropy.Normalize.Total.{IsNormalized}
use nexcomp.Entropy.Normalize.Sorting.{normalize_freqs-IsNormalized}
use nexcomp.Entropy.Counted.{rans_decode-normalize_freqs}
use nexcomp.Entropy.Coder.RoundTrip.{rans_decode-rans_encode}

abbrev freqs : List ℕ
freqs = 3000 ∷ 0 ∷ 1096 ∷ []

abbrev table : RansTable
table = record { freq = freqs; cumul = 0 ∷ 3000 ∷ 3000 ∷ 4096 ∷ []; alphabet_size = 3 }

abbrev message : Bytes
message = 2 ∷ 0 ∷ 0 ∷ 2 ∷ []

build_table-freqs : build_table freqs ≡ ok table
unfolding build_table accumulate
build_table-freqs = refl

rans_encode-message : rans_encode message table ≡ ok (0 ∷ 0 ∷ 0 ∷ 0 ∷ 1 ∷ 160 ∷ 156 ∷ 208 ∷ [])
unfolding rans_encode encode_symbols encode_symbol renormalize advance finish flush
rans_encode-message = refl

rans_decode-rans_encode_example :
    (bytes : Bytes) × (rans_encode message table ≡ ok bytes)
    × (rans_decode bytes (build_decode_table table) 4 ≡ ok message)
rans_decode-rans_encode_example =
    rans_decode-rans_encode freqs table message (omega arith) (omega arith) build_table-freqs
      (λ e. cc) (ground arith)

abbrev counts : List ℕ
counts = 7 ∷ 0 ∷ 1 ∷ 2 ∷ []

normalize_freqs-counts : normalize_freqs counts 4 ≡ returns (2867 ∷ 0 ∷ 410 ∷ 819 ∷ [])
unfolding normalize_freqs normalize_with adjust scaled fractional give add_one sort_by
normalize_freqs-counts = refl

normalize_freqs-IsNormalized_example :
    (freqs' : List ℕ) × (normalize_freqs counts 4 ≡ returns freqs') × IsNormalized counts freqs'
normalize_freqs-IsNormalized_example =
    normalize_freqs-IsNormalized counts (omega arith) (omega arith) (omega arith)

rans_decode-normalize_freqs_example :
    (freqs' : List ℕ) × (t : RansTable) × (bytes : Bytes) × (normalize_freqs counts 4
      ≡ returns freqs')
    × (build_table freqs' ≡ ok t)
    × (rans_encode message t ≡ ok bytes)
    × (rans_decode bytes (build_decode_table t) 4 ≡ ok message)
rans_decode-normalize_freqs_example =
    rans_decode-normalize_freqs counts message (omega arith) (omega arith) (omega arith) (λ e. cc)
      (ground arith)
