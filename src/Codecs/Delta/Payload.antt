-- ===== src/Codecs/Delta/Payload.antt =====
-- The payload of src/codecs/delta_ans.rs: `delta_ans_encode` and `delta_ans_decode`.
pub mod Bytewise
pub mod Counts
pub mod RoundTrip
use nexcomp.Base.{
  ℕ, zero, suc, ◌+◌, Bool, true, false, List, [], ◌∷◌, ◌++◌, length, get_or, take, drop, replicate,
  ltb, ◌==◌, if◌then◌else◌, Outcome, returns, panics, Result, ok, err, stuck,
}
use nexcomp.Base.Words.{Bytes, u32, to_le, of_le}
use nexcomp.Base.Bits.{bit_and, bit_or}
use nexcomp.Codecs.Bcj.{Floats}
use nexcomp.Codecs.Block.{Logarithms, entropy_sum}
use nexcomp.Entropy.Table.{RansError, build_table, build_decode_table}
use nexcomp.Entropy.Coder.{rans_encode, rans_decode}
use nexcomp.Entropy.Normalize.{Fraction, normalize_with, normalize_freqs}
use nexcomp.Codecs.Delta.{
  xor_delta_stride, xor_delta_stride_inverse, arith_delta, arith_delta_inverse, split_lanes,
  merge_lanes, increment,
}

-- A call that may panic, and that may return an error.
abbrev pub Call : Type 0 → Type 0
Call A = Outcome (Result RansError A)

infixl 5 ◌>>=◌
abbrev pub ◌>>=◌ : {A B : Type 0} → Call A → (A → Call B) → Call B
panics >>= f = panics
returns (ok a) >>= f = f a
returns (err e) >>= f = returns (err e)
returns stuck >>= f = returns stuck

abbrev pub called : {A : Type 0} → Outcome A → Call A
called panics = panics
called (returns a) = returns (ok a)

-- NUM_LANES
abbrev pub num_lanes : ℕ
num_lanes = 4

-- PINNED_TABLE
abbrev pub pinned_table : ℕ
pinned_table = 0x80

-- `counts[b] += 1` for all bytes; the counts are below the length of a vector.
unfoldable pub count_symbols : Bytes → List ℕ → List ℕ
count_symbols [] counts = counts
count_symbols (b ∷ bytes) counts = count_symbols bytes (increment b counts)

abbrev pub lane_counts : Bytes → List ℕ
lane_counts lane = count_symbols lane (replicate 256 0)

unfoldable pub write_counts : List ℕ → Bytes
write_counts [] = []
write_counts (c ∷ counts) = to_le 4 (u32 c) ++ write_counts counts

unfoldable pub encode_lane : Bytes → Call Bytes
encode_lane lane =
    let counts = lane_counts lane in
    let header = to_le 4 (u32 (length lane)) ++ write_counts counts in
    if length lane == 0
    then returns (ok (header ++ to_le 4 (u32 0)))
    else (called (normalize_freqs counts 256) >>= λ freqs. returns (build_table freqs) >>= λ table.
        returns (rans_encode lane table) >>= λ bytes.
        returns (ok (header ++ (to_le 4 (u32 (length bytes)) ++ bytes))))

unfoldable pub encode_lanes : List Bytes → Call Bytes
encode_lanes [] = returns (ok [])
encode_lanes (lane ∷ lanes) = do
  first ← encode_lane lane
  rest ← encode_lanes lanes
  returns (ok (first ++ rest))

-- The residual of each delta mode, with the mode.
unfoldable pub candidates : Bytes → List (ℕ × Bytes)
candidates bytes =
    (0, xor_delta_stride bytes 1)
    ∷ (1, arith_delta bytes)
    ∷ (2, xor_delta_stride bytes 2)
    ∷ (3, xor_delta_stride bytes 4)
    ∷ (4, bytes)
    ∷ []

-- The reading of a little-endian word, which panics past the end.
unfoldable pub read_word : Bytes → Call (ℕ × Bytes)
read_word rest =
    if ltb (length rest) 4 then panics else returns (ok (of_le (take 4 rest), drop 4 rest))

unfoldable pub read_counts : ℕ → Bytes → Call (List ℕ × Bytes)
read_counts zero rest = returns (ok ([], rest))
read_counts (suc n) rest = do
  count ← read_word rest
  counts ← read_counts n count.1
  returns (ok (count.0 ∷ counts.0, counts.1))

unfoldable pub undo_delta : ℕ → Bytes → Bytes
undo_delta delta_type residual =
    if delta_type == 1
    then arith_delta_inverse residual
    else if delta_type == 2
    then xor_delta_stride_inverse residual 2
    else if delta_type == 3
    then xor_delta_stride_inverse residual 4
    else if delta_type == 4
    then residual
    else xor_delta_stride_inverse residual 1

module _ {F : Type 0} (f : Floats F) (l : Logarithms F) where
  unfoldable pub byte_entropy : Bytes → F
  byte_entropy bytes =
      if length bytes == 0
      then l.zero_float
      else entropy_sum f l (length bytes) l.zero_float (lane_counts bytes)

  unfoldable pub lane_entropy : Bytes → F
  lane_entropy bytes = sum_entropies l.zero_float (split_lanes bytes num_lanes)
    where
      sum_entropies : F → List Bytes → F
      sum_entropies total [] = total
      sum_entropies total (lane ∷ lanes) = sum_entropies (l.plus total (byte_entropy lane)) lanes

  -- `min_by`: a later candidate is taken if the best one so far is greater.
  unfoldable pub lightest : ℕ × Bytes → List (ℕ × Bytes) → ℕ × Bytes
  lightest best [] = best
  lightest best (c ∷ others) =
      lightest (if f.lt (lane_entropy c.1) (lane_entropy best.1) then c else best) others

  unfoldable pub pick : List (ℕ × Bytes) → ℕ × Bytes
  pick [] = (0, [])
  pick (c ∷ others) = lightest c others

  unfoldable pub delta_ans_encode : Bytes → Call Bytes
  delta_ans_encode bytes =
      if length bytes == 0
      then returns (ok (0 ∷ num_lanes ∷ 0 ∷ 0 ∷ 0 ∷ 0 ∷ []))
      else (let chosen = pick (candidates bytes) in
          encode_lanes (split_lanes chosen.1 num_lanes) >>= λ lanes.
          returns (
            ok
              (bit_or chosen.0 pinned_table ∷ num_lanes ∷ (to_le 4 (u32 (length bytes)) ++ lanes))))

-- The sorts of `normalize_freqs_unpinned`, whose tie order is that of the standard library.
module _ (descending ascending : List Fraction → List Fraction) where
  abbrev pub frequencies : Bool → List ℕ → Call (List ℕ)
  frequencies pinned counts =
      if pinned
      then called (normalize_freqs counts 256)
      else called (normalize_with descending ascending counts 256)

  -- What stands behind the length of the coded symbols.
  unfoldable pub decode_coded : Bool → ℕ → List ℕ → ℕ → Bytes → Call (Bytes × Bytes)
  decode_coded pinned sym_len counts enc_len rest =
      if sym_len == 0
      then returns (ok ([], rest))
      else if ltb (length rest) enc_len
      then panics
      else (frequencies pinned counts >>= λ freqs. returns (build_table freqs) >>= λ table.
          returns (rans_decode (take enc_len rest) (build_decode_table table) sym_len)
          >>= λ decoded. returns (ok (decoded, drop enc_len rest)))

  unfoldable pub decode_lane : Bool → Bytes → Call (Bytes × Bytes)
  decode_lane pinned rest = do
    sym_len ← read_word rest
    counts ← read_counts 256 sym_len.1
    enc_len ← read_word counts.1
    decode_coded pinned sym_len.0 counts.0 enc_len.0 enc_len.1

  unfoldable pub decode_lanes : ℕ → Bool → Bytes → Call (List Bytes)
  decode_lanes zero pinned rest = returns (ok [])
  decode_lanes (suc n) pinned rest = do
    lane ← decode_lane pinned rest
    lanes ← decode_lanes n pinned lane.1
    returns (ok (lane.0 ∷ lanes))

  unfoldable pub delta_ans_decode : Bytes → Call Bytes
  delta_ans_decode payload =
      if ltb (length payload) 6
      then returns (ok [])
      else (let orig_len = of_le (take 4 (drop 2 payload)) in
          let mode = get_or payload 0 0 in
          if orig_len == 0
          then returns (ok [])
          else (decode_lanes (get_or payload 1 0)
                (if bit_and mode pinned_table == 0 then false else true) (drop 6 payload)
              >>= λ lanes. called (merge_lanes lanes orig_len) >>= λ residual.
                  returns (ok (undo_delta (bit_and mode 0x7f) residual))))
