-- ===== src/Entropy/Counted.antt =====
-- The steps of src/entropy/mod.rs in the order in which a codec calls them: the counts are
-- normalized, the tables are built from the frequencies, and the message is coded with them.
use nexcomp.Base.{
  ℕ, ◌≤◌, ◌<◌, ◌^◌, ◌≡◌, ◌≢◌, refl, arith, List, [], ◌∷◌, All, eq→==, length, get_or, min, ok,
  returns,
}
use nexcomp.Base.Words.{Bytes, u32}
use nexcomp.Entropy.Table.{RansTable, sum, total, accumulate, build_table, build_decode_table}
use nexcomp.Entropy.Coder.{rans_encode, rans_decode}
use nexcomp.Entropy.Coder.RoundTrip.{rans_decode-rans_encode}
use nexcomp.Entropy.Normalize.{normalize_freqs}
use nexcomp.Entropy.Normalize.Sorting.{normalize_freqs-IsNormalized}

-- A symbol that was counted.
abbrev pub IsCounted : List ℕ → ℕ → Type 0
IsCounted counts s = (s < length counts) × (0 < get_or counts s 0)

table_of :
    (freqs : List ℕ)
    → sum freqs ≡ total
    → build_table freqs
      ≡ ok (record { freq = freqs; cumul = accumulate 0 freqs; alphabet_size = length freqs })
unfolding build_table
table_of freqs full = rw (eq→== (u32 (sum freqs)) total (omega arith)) refl

counted_coded :
    (counts freqs : List ℕ) (symbols : Bytes)
    → length freqs ≡ length counts
    → ((i : ℕ) → min 1 (get_or counts i 0) ≤ get_or freqs i 0)
    → All (IsCounted counts) symbols
    → All (λ s. (s < length freqs) × (0 < get_or freqs s 0)) symbols
counted_coded counts freqs [] same kept h = tt
counted_coded counts freqs (s ∷ symbols) same kept ((lt, pos), h) =
    ((omega arith, omega (arith, kept s)), counted_coded counts freqs symbols same kept h)

-- Take counts of at most 256 symbols whose sum is not zero and fits 64 bits, and a message that is
-- not empty, of symbols with a count that is not zero. Then the counts are normalized, the
-- frequencies make a table, the table encodes the message, and decoding as many symbols with the
-- table gives the message back.
pub rans_decode-normalize_freqs :
    (counts : List ℕ) (symbols : Bytes)
    → length counts ≤ 256
    → 0 < sum counts
    → sum counts < 2 ^ 64
    → symbols ≢ []
    → All (IsCounted counts) symbols
    → (freqs : List ℕ) × (t : RansTable) × (bytes : Bytes) × (normalize_freqs counts (length counts)
        ≡ returns freqs)
      × (build_table freqs ≡ ok t)
      × (rans_encode symbols t ≡ ok bytes)
      × (rans_decode bytes (build_decode_table t) (length symbols) ≡ ok symbols)
rans_decode-normalize_freqs counts symbols short pos fits ne h =
    let (freqs, normalized, (full, same, kept)) =
      normalize_freqs-IsNormalized counts pos fits (omega arith) in
    let built = table_of freqs full in
    let (bytes, encoded, decoded) =
      rans_decode-rans_encode freqs _ symbols (omega arith) (omega arith) built ne
        (counted_coded counts freqs symbols same kept h) in
    (freqs, _, bytes, normalized, built, encoded, decoded)
