-- ===== src/Entropy/Normalize.antt =====
-- `normalize_freqs` and `normalize_freqs_unpinned` of src/entropy/mod.rs.
pub mod Shares
pub mod Passes
pub mod Total
pub mod Sorting
use nexcomp.Base.{
  ℕ, zero, suc, ◌+◌, ◌-◌, ◌*◌, ◌/◌, ◌%◌, max, Bool, true, false, ◌&&◌, ◌||◌, List, [], ◌∷◌, map,
  ◌==◌, ltb, if◌then◌else◌, length, take, get_or, replicate, Outcome, returns, panics,
}
use nexcomp.Base.Words.{u32, u64}
use nexcomp.Entropy.Table.{total, sum}

-- A remainder of the division, and the symbol that it belongs to.
abbrev pub Fraction : Type 0
Fraction = ℕ × ℕ

-- `freqs[idx] += 1`
unfoldable pub add_one : ℕ → List ℕ → List ℕ
add_one idx [] = []
add_one zero (f ∷ freqs) = suc f ∷ freqs
add_one (suc idx) (f ∷ freqs) = f ∷ add_one idx freqs

-- `freqs[idx] -= 1`
pub take_one : ℕ → List ℕ → List ℕ
take_one idx [] = []
take_one zero (f ∷ freqs) = (f - 1) ∷ freqs
take_one (suc idx) (f ∷ freqs) = f ∷ take_one idx freqs

-- The floor of the share, at least 1 for a count that is not zero.
unfoldable pub scaled : ℕ → ℕ → ℕ
scaled total_count zero = 0
scaled total_count (suc c) = max (u32 (suc c * total / total_count)) 1

-- The remainders of the symbols from `i` on whose key is above `bound`.
unfoldable pub fractional : ℕ → ℕ → ℕ → List ℕ → List ℕ → List Fraction
fractional total_count bound i [] keys = []
fractional total_count bound i (c ∷ counts) [] = []
fractional total_count bound i (c ∷ counts) (k ∷ keys) =
    let rest = fractional total_count bound (suc i) counts keys in
    if ltb bound k then (c * total % total_count, i) ∷ rest else rest

-- The loop that gives out the remainder.
unfoldable pub give : List Fraction → ℕ → List ℕ → List ℕ
give [] remainder freqs = freqs
give (x ∷ order) zero freqs = freqs
give ((fraction, idx) ∷ order) (suc remainder) freqs = give order remainder (add_one idx freqs)

-- One pass that takes back: the frequencies, the excess that is left, and `made_progress`.
pub reclaim_pass : List Fraction → ℕ → List ℕ → Bool → List ℕ × ℕ × Bool
reclaim_pass [] excess freqs made_progress = (freqs, excess, made_progress)
reclaim_pass (x ∷ order) zero freqs made_progress = (freqs, 0, made_progress)
reclaim_pass ((fraction, idx) ∷ order) (suc excess) freqs made_progress =
    let taken = reclaim_pass order excess (take_one idx freqs) true in
    let passed = reclaim_pass order (suc excess) freqs made_progress in
    if ltb 1 (get_or freqs idx 0) then taken else passed

-- The passes. Each but the last takes at least one, so the excess is enough fuel.
pub reclaim : ℕ → List Fraction → ℕ → List ℕ → List ℕ
reclaim zero order excess freqs = freqs
reclaim (suc fuel) order zero freqs = freqs
reclaim (suc fuel) order (suc excess) freqs =
    let (freqs', excess', made_progress) = reclaim_pass order (suc excess) freqs false in
    let more = reclaim fuel order excess' freqs' in if made_progress then more else freqs'

-- `freqs[i] += 1` for the first `rem` symbols.
abbrev add_front : ℕ → List ℕ → List ℕ
add_front rem [] = []
add_front zero (f ∷ freqs) = f ∷ freqs
add_front (suc rem) (f ∷ freqs) = suc f ∷ add_front rem freqs

uniform : ℕ → List ℕ
uniform alphabet_size =
    let base = total / alphabet_size in
    add_front (total - base * alphabet_size) (replicate alphabet_size base)

-- The two sorts, the one of the remainder first.
module _ (descending ascending : List Fraction → List Fraction) where
  unfoldable pub adjust : ℕ → List ℕ → List ℕ → List ℕ
  unfolding fractional
  adjust total_count counts freqs =
      let assigned = u32 (sum freqs) in
      if ltb assigned total
      then give (descending (fractional total_count 0 0 counts counts)) (total - assigned) freqs
      else if ltb total assigned
      then reclaim (assigned - total) (ascending (fractional total_count 1 0 counts freqs))
          (assigned - total) freqs
      else freqs

  -- A division by an empty alphabet and an index past the counts panic.
  unfoldable pub normalize_with : List ℕ → ℕ → Outcome (List ℕ)
  unfolding uniform
  normalize_with counts alphabet_size =
      let total_count = u64 (sum counts) in
      let used = take alphabet_size counts in
      if total_count == 0
      then (if alphabet_size == 0 then panics else returns (uniform alphabet_size))
      else if ltb (length counts) alphabet_size
      then panics
      else returns (adjust total_count used (map (scaled total_count) used))

-- Largest remainder first, and smallest remainder first; a tie goes to the lower symbol.
abbrev larger : Fraction → Fraction → Bool
larger (a, i) (b, j) = ltb b a || (a == b && ltb i j)

abbrev smaller : Fraction → Fraction → Bool
smaller (a, i) (b, j) = ltb a b || (a == b && ltb i j)

-- Sorting by a total order has one result, which insertion computes.
abbrev insert_by : (Fraction → Fraction → Bool) → Fraction → List Fraction → List Fraction
insert_by before x [] = x ∷ []
insert_by before x (y ∷ ys) =
    let later = insert_by before x ys in if before x y then x ∷ (y ∷ ys) else y ∷ later

unfoldable pub sort_by : (Fraction → Fraction → Bool) → List Fraction → List Fraction
sort_by before [] = []
sort_by before (x ∷ xs) = insert_by before x (sort_by before xs)

unfoldable pub normalize_freqs : List ℕ → ℕ → Outcome (List ℕ)
normalize_freqs counts alphabet_size =
    normalize_with (sort_by larger) (sort_by smaller) counts alphabet_size
