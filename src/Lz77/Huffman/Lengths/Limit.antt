-- ===== src/Lz77/Huffman/Lengths/Limit.antt =====
-- Limiting the lengths to 15 bits: counts of codes by length, how many there are and what they
-- cover.
use nexcomp.Base.{
  ℕ, zero, suc, ◌+◌, ◌-◌, ◌*◌, ◌^◌, ◌≤◌, ◌<◌, ◌≡◌, refl, ap, arith, inl, inr, Bool-cases, ◌==◌,
  ==→eq, ==→ne,
}
use nexcomp.Base.Arrays.{update, update_same, update_other}
use native.Mathlib.Nat.{pow-suc}
use nexcomp.Lz77.Huffman.Codes.{max_len}
use nexcomp.Lz77.Huffman.Codes.Intervals.{span}
use nexcomp.Lz77.Huffman.Lengths.{deepest, less, split_code, redistribute}

-- The sum over the lengths from 1 to `n`, each with its factor.
unfoldable pub sum_to : (ℕ → ℕ) → (ℕ → ℕ) → ℕ → ℕ
sum_to factor count zero = 0
sum_to factor count (suc b) = sum_to factor count b + count (suc b) * factor (suc b)

sum_to-out :
    (factor count : ℕ → ℕ) (n i v : ℕ)
    → n < i
    → sum_to factor (update count i v) n ≡ sum_to factor count n
unfolding sum_to
sum_to-out factor count zero i v h = refl
sum_to-out factor count (suc b) i v h =
    let same = update_other count i (suc b) v (λ e. absurd (omega arith)) in
    rw (same, sum_to-out factor count b i v (omega arith)) refl

-- One count replaced.
pub sum_to-update :
    (factor count : ℕ → ℕ) (n i v : ℕ)
    → 1 ≤ i
    → i ≤ n
    → sum_to factor (update count i v) n + count i * factor i ≡ sum_to factor count n + v * factor i
unfolding sum_to
sum_to-update factor count zero i v h k = absurd (omega arith)
sum_to-update factor count (suc b) i v h k = elim (Bool-cases (suc b == i)) [
  | inl t ↦
      let e : suc b ≡ i = ==→eq (suc b) i t in
      let same = update_same count i (suc b) v e in
      let same' : count (suc b) ≡ count i = ap count e in
      let factor' : factor (suc b) ≡ factor i = ap factor e in
      rw (same, sum_to-out factor count b i v (omega arith), same', factor') (omega arith)
  | inr t ↦
      let ne = ==→ne (suc b) i t in
      let same = update_other count i (suc b) v ne in
      rw same (omega (arith, sum_to-update factor count b i v h (omega arith)))
]

abbrev pub one : ℕ → ℕ
one b = 1

-- How many codes there are, and how many numbers of 15 bits they cover.
abbrev pub codes_in : (ℕ → ℕ) → ℕ
codes_in count = sum_to one count max_len

abbrev pub covered : (ℕ → ℕ) → ℕ
covered count = sum_to span count max_len

pub deepest-le : (n : ℕ) (count : ℕ → ℕ) → deepest n count ≤ n
unfolding deepest
deepest-le zero count = omega arith
deepest-le (suc b) count = ground (arith, deepest-le b count)

pub deepest-count : (n : ℕ) (count : ℕ → ℕ) → 1 ≤ deepest n count → 1 ≤ count (deepest n count)
unfolding deepest
deepest-count zero count h = absurd (omega arith)
deepest-count (suc b) count h = ground (arith, deepest-count b count)

-- Without a code up to `n`, the sum is zero.
pub deepest-none : (n : ℕ) (factor count : ℕ → ℕ) → deepest n count ≡ 0 → sum_to factor count n ≡ 0
unfolding deepest sum_to
deepest-none zero factor count h = refl
deepest-none (suc b) factor count h = elim (Bool-cases (count (suc b) == 0)) [
  | inl t ↦
      let e : count (suc b) ≡ 0 = ==→eq (count (suc b)) 0 t in
      let h' : deepest b count ≡ 0 = rw t at h in
      rw (e, deepest-none b factor count h') (omega arith)
  | inr t ↦ let h' : suc b ≡ 0 = rw t at h in absurd (omega arith)
]

-- Taking one code away.
pub sum_to-less :
    (factor count : ℕ → ℕ) (n i : ℕ)
    → 1 ≤ i
    → i ≤ n
    → 1 ≤ count i
    → sum_to factor (less count i) n + factor i ≡ sum_to factor count n
sum_to-less factor count n i h k c =
    take_one (sum_to factor (less count i) n) (sum_to factor count n) (count i) (factor i) c
      (sum_to-update factor count n i (count i - 1) h k)
  where
    take_one : (s t c f : ℕ) → 1 ≤ c → s + c * f ≡ t + (c - 1) * f → s + f ≡ t
    take_one s t (suc c) f h e =
        let e1 : suc c - 1 ≡ c = omega arith in
        let e2 : s + suc c * f ≡ t + c * f = rw e1 at e in grind arith
    take_one s t zero f h e = absurd (omega arith)

-- What is left to do: the excess over 2 ^ 15, and as many codes of 15 bits.
pub record IsExcess (overflow : ℕ) (count : ℕ → ℕ) (codes : ℕ) : Type 0 where
  pub weight : covered count ≤ 2 ^ max_len + overflow
  pub total : codes_in count ≡ codes
  pub longest : overflow ≤ count max_len

module _ (count : ℕ → ℕ) (bits : ℕ) (low : 1 ≤ bits) (high : bits ≤ 14) (has : 1 ≤ count bits)
    (full : 1 ≤ count max_len) where
  grown : ℕ → ℕ
  grown = update (less count bits) (bits + 1) (less count bits (bits + 1) + 2)

  grown-longest : count max_len ≤ grown max_len
  unfolding grown
  grown-longest = elim (Bool-cases (max_len == bits + 1)) [
    | inl t ↦
        let e = ==→eq max_len (bits + 1) t in
        let here =
          update_same (less count bits) (bits + 1) max_len (less count bits (bits + 1) + 2) e in
        let next : less count bits (bits + 1) ≡ count (bits + 1) =
          update_other count bits (bits + 1) (count bits - 1) (λ k. absurd (omega arith)) in
        let same : count max_len ≡ count (bits + 1) = ap count e in omega arith
    | inr t ↦
        let here =
          update_other (less count bits) (bits + 1) max_len (less count bits (bits + 1) + 2)
            (==→ne max_len (bits + 1) t) in
        let next = update_other count bits max_len (count bits - 1) (λ k. absurd (omega arith)) in
        omega arith
  ]

  -- One split of a code: two codes of the next length for one, and one code of 15 bits less.
  split_code-sum :
      (factor : ℕ → ℕ)
      → sum_to factor (split_code count bits) max_len + factor bits + factor max_len
        ≡ sum_to factor count max_len + 2 * factor (bits + 1)
  unfolding grown
  split_code-sum factor =
      let longest = grown-longest in
      let first = sum_to-less factor count max_len bits low (omega arith) has in
      let c = less count bits in
      let second =
        sum_to-update factor c max_len (bits + 1) (c (bits + 1) + 2) (omega arith) (omega arith) in
      let third =
        sum_to-less factor grown max_len max_len (omega arith) (omega arith) (omega arith) in
      two_more (sum_to factor (split_code count bits) max_len) (sum_to factor grown max_len)
        (sum_to factor c max_len) (sum_to factor count max_len) (factor bits) (factor (bits + 1))
        (factor max_len) (c (bits + 1)) third second first
    where
      two_more :
          (s g c t f h l n : ℕ)
          → s + l ≡ g
          → g + n * h ≡ c + (n + 2) * h
          → c + f ≡ t
          → s + f + l ≡ t + 2 * h
      two_more s g c t f h l n third second first = grind arith

  split_code-longest : count max_len ≤ split_code count bits max_len + 1
  unfolding grown
  split_code-longest =
      let here = update_same grown max_len max_len (grown max_len - 1) refl in
      omega (arith, grown-longest)

span-next : (bits : ℕ) → bits ≤ 14 → 2 * span (bits + 1) ≡ span bits
span-next bits h =
    let e : max_len - bits ≡ suc (max_len - (bits + 1)) = omega arith in
    rw (e, pow-suc 2 (max_len - (bits + 1))) (omega arith)

-- The loop leaves counts of a prefix code.
pub redistribute_lem :
    (overflow : ℕ) (count : ℕ → ℕ) (codes : ℕ)
    → codes ≤ 2 ^ max_len
    → IsExcess overflow count codes
    → (covered (redistribute overflow count) ≤ 2 ^ max_len)
      × (codes_in (redistribute overflow count) ≡ codes)
unfolding redistribute
redistribute_lem zero count codes few e = (omega (arith, e.weight), e.total)
redistribute_lem (suc overflow) count codes few e = elim (Bool-cases (deepest 14 count == 0)) [
  | inl t ↦ rw t (unsplit (==→eq (deepest 14 count) 0 t), e.total)
  | inr t ↦
      let bits = deepest 14 count in
      let low : 1 ≤ bits = omega (arith, ==→ne bits 0 t) in
      let high = deepest-le 14 count in
      let has = deepest-count 14 count low in
      let full : 1 ≤ count max_len = omega (arith, e.longest) in
      rw t (
        redistribute_lem overflow (split_code count bits) codes few (record {
          weight = omega (
            arith,
            split_code-sum count bits low high has full span,
            span-next bits high,
            e.weight,
          );
          total = omega (arith, split_code-sum count bits low high has full one, e.total);
          longest = omega (arith, split_code-longest count bits low high has full, e.longest);
        }))
]
  where
    unsplit : deepest 14 count ≡ 0 → covered count ≤ 2 ^ max_len
    unsplit none_left =
        let c = deepest-none 14 span count none_left in
        let n = deepest-none 14 one count none_left in
        let last : covered count ≡ sum_to span count 14 + count 15 * span 15 =
          unfold sum_to in refl in
        let total : codes_in count ≡ sum_to one count 14 + count 15 * 1 = unfold sum_to in refl in
        omega (arith, e.total)
