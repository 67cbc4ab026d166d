-- ===== src/Codecs/Delta.antt =====
-- The deltas and lanes of src/codecs/delta_ans.rs.
pub mod Residuals
pub mod Lanes
pub mod Payload
use nexcomp.Base.{
  ℕ, zero, suc, ◌+◌, ◌-◌, ◌%◌, Option, none, some, List, [], ◌∷◌, ◌++◌, ltb, if◌then◌else◌, length,
  get_or, get_elem?, replicate, map, Outcome, returns, panics,
}
use nexcomp.Base.Words.{Bytes, u8}
use nexcomp.Base.Bits.{bit_xor}

-- The loop at `i`, where the last argument is `data[i..]`.
unfoldable pub xor_from : ℕ → Bytes → ℕ → Bytes → Bytes
xor_from stride bytes i [] = []
xor_from stride bytes i (b ∷ rest) =
    (if ltb i stride then b else bit_xor b (get_or bytes (i - stride) 0))
    ∷ xor_from stride bytes (i + 1) rest

unfoldable pub xor_delta_stride : Bytes → ℕ → Bytes
xor_delta_stride bytes stride = xor_from stride bytes 0 bytes

-- The loop of the inverse looks back at its own output.
pub xor_back : ℕ → ℕ → Bytes → Bytes → Bytes
xor_back stride i [] out = out
xor_back stride i (b ∷ rest) out =
    xor_back stride (i + 1) rest
      (out ++ ((if ltb i stride then b else bit_xor b (get_or out (i - stride) 0)) ∷ []))

pub xor_delta_stride_inverse : Bytes → ℕ → Bytes
xor_delta_stride_inverse bytes stride = xor_back stride 0 bytes []

-- The loop behind the byte `previous`.
pub differences : ℕ → Bytes → Bytes
differences previous [] = []
differences previous (b ∷ rest) = u8 (b + 256 - previous) ∷ differences b rest

pub arith_delta : Bytes → Bytes
arith_delta [] = []
arith_delta (b ∷ rest) = b ∷ differences b rest

pub running_sums : ℕ → Bytes → Bytes
running_sums previous [] = []
running_sums previous (b ∷ rest) = let out = u8 (b + previous) in out ∷ running_sums out rest

pub arith_delta_inverse : Bytes → Bytes
arith_delta_inverse [] = []
arith_delta_inverse (b ∷ rest) = b ∷ running_sums b rest

-- `out[lane].push(byte)`.
unfoldable pub push : ℕ → ℕ → List Bytes → List Bytes
push lane byte [] = []
push zero byte (l ∷ out) = (l ++ (byte ∷ [])) ∷ out
push (suc lane) byte (l ∷ out) = l ∷ push lane byte out

unfoldable pub split_from : ℕ → ℕ → Bytes → List Bytes → List Bytes
split_from lanes idx [] out = out
split_from lanes idx (b ∷ rest) out = split_from lanes (idx + 1) rest (push (idx % lanes) b out)

unfoldable pub split_lanes : Bytes → ℕ → List Bytes
split_lanes bytes lanes = split_from lanes 0 bytes (replicate lanes [])

-- `positions[lane] += 1`.
pub increment : ℕ → List ℕ → List ℕ
increment lane [] = []
increment zero (p ∷ positions) = suc p ∷ positions
increment (suc lane) (p ∷ positions) = p ∷ increment lane positions

-- Reading past the end of a lane panics.
abbrev prepend : Option ℕ → Outcome Bytes → Outcome Bytes
prepend none rest = panics
prepend (some b) panics = panics
prepend (some b) (returns out) = returns (b ∷ out)

-- The loop at `idx`, `left` bytes from its end.
pub merge_from : List Bytes → ℕ → ℕ → List ℕ → Outcome Bytes
merge_from lanes zero idx positions = returns []
merge_from lanes (suc left) idx positions =
    let lane = idx % length lanes in
    prepend (get_elem? (get_or lanes lane []) (get_or positions lane 0))
      (merge_from lanes left (idx + 1) (increment lane positions))

pub merge_lanes : List Bytes → ℕ → Outcome Bytes
merge_lanes lanes total_len = merge_from lanes total_len 0 (replicate (length lanes) 0)
