-- ===== src/Lz77/Huffman/Codes.antt =====
-- The canonical codes of src/lz77/huffman.rs: `HuffCode`, `reverse_bits`,
-- `lengths_are_prefix_free` and `canonical_codes`, with the vectors that are indexed by a length
-- as functions.
pub mod Reversal
pub mod Intervals
pub mod Apart
pub mod Kraft
pub mod FirstCodes
pub mod Assigned
use nexcomp.Base.{
  ℕ, zero, suc, ◌+◌, ◌-◌, ◌*◌, ◌/◌, ◌^◌, Bool, true, false, List, [], ◌∷◌, ◌++◌, length, max, map,
  replicate, ltb, ◌==◌, if◌then◌else◌,
}
use nexcomp.Base.Words.{u32}
use nexcomp.Base.Bits.{bit_and, bit_or}
use nexcomp.Base.Arrays.{update}

pub record HuffCode : Type 0 where
  pub bits : ℕ
  pub len : ℕ

abbrev pub default_code : HuffCode
default_code = record { bits = 0; len = 0 }

unfoldable pub reverse_loop : ℕ → ℕ → ℕ → ℕ
reverse_loop zero v result = result
reverse_loop (suc count) v result =
    reverse_loop count (v / 2) (bit_or (u32 (result * 2)) (bit_and v 1))

unfoldable pub reverse_bits : ℕ → ℕ → ℕ
unfolding reverse_loop
reverse_bits value count = reverse_loop count value 0

-- The longest code.
abbrev pub max_len : ℕ
max_len = 15

-- The rounds of the loop, with the weight so far.
unfoldable pub weigh : ℕ → List ℕ → Bool
weigh weight [] = true
weigh weight (len ∷ lengths) =
    let skip = weigh weight lengths in
    let more = weigh (weight + 2 ^ (max_len - len)) lengths in
    if len == 0
    then skip
    else if ltb max_len len
    then false
    else if ltb (2 ^ max_len) (weight + 2 ^ (max_len - len))
    then false
    else more

unfoldable pub lengths_are_prefix_free : List ℕ → Bool
unfolding weigh
lengths_are_prefix_free lengths = weigh 0 lengths

-- `iter().max()`, 0 for no lengths.
unfoldable pub longest : List ℕ → ℕ
longest [] = 0
longest (len ∷ lengths) = max len (longest lengths)

-- The loop that fills `bl_count`. A length of zero is not counted.
unfoldable pub count_lengths : List ℕ → (ℕ → ℕ) → ℕ → ℕ
unfolding update
count_lengths [] count = count
count_lengths (zero ∷ lengths) count = count_lengths lengths count
count_lengths (suc l ∷ lengths) count =
    count_lengths lengths (update count (suc l) (u32 (count (suc l) + 1)))

-- The loop that fills `next_code`, for the rounds left and the next length.
unfoldable pub fill_next : ℕ → ℕ → ℕ → (ℕ → ℕ) → (ℕ → ℕ) → ℕ → ℕ
unfolding update
fill_next zero bits code count next = next
fill_next (suc rounds) bits code count next =
    let code' = u32 ((code + count (bits - 1)) * 2) in
    fill_next rounds (bits + 1) code' count (update next bits code')

-- The loop that gives the codes to the symbols. A length of zero has none.
unfoldable pub assign : List ℕ → (ℕ → ℕ) → List HuffCode
unfolding update
assign [] next = []
assign (zero ∷ lengths) next = default_code ∷ assign lengths next
assign (suc l ∷ lengths) next =
    record { bits = next (suc l); len = suc l }
    ∷ assign lengths (update next (suc l) (u32 (next (suc l) + 1)))

-- `max_symbols` is at least the number of lengths.
unfoldable pub canonical_codes : List ℕ → ℕ → List HuffCode
unfolding assign fill_next count_lengths longest
canonical_codes lengths max_symbols =
    if longest lengths == 0
    then replicate max_symbols default_code
    else assign lengths (fill_next (longest lengths) 1 0 (count_lengths lengths (λ b. 0)) (λ b. 0))
      ++ replicate (max_symbols - length lengths) default_code
