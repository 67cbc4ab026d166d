-- ===== src/Lz77/Huffman/Lengths/Limited.antt =====
-- The limited lengths: at most 15 bits, one for each symbol, and Kraft's inequality.
use nexcomp.Base.{
  ℕ, zero, suc, ◌^◌, ◌≤◌, ◌≡◌, ◌≢◌, refl, sym, ◌∙◌, arith, true, false, inl, inr, Bool-cases, List,
  [], ◌∷◌, length, All, ltb, ltb→le, le→leb, if-true, if-false,
}
use mathlib.Core.Path.{subst}
use nexcomp.Lz77.Huffman.Codes.{max_len}
use nexcomp.Lz77.Huffman.Codes.Intervals.{span}
use nexcomp.Lz77.Huffman.Lengths.{
  Capped, any_over, cap_all, redistribute, sort_symbols, reassign, limit_code_lengths,
}
use nexcomp.Lz77.Huffman.Lengths.Leaves.{IsDepth, shares}
use nexcomp.Lz77.Huffman.Lengths.Kraft.{AreDepths}
use nexcomp.Lz77.Huffman.Lengths.Nonzero.{Distinct}
use nexcomp.Lz77.Huffman.Lengths.Limit.{sum_to, one, redistribute_lem}
use nexcomp.Lz77.Huffman.Lengths.Capping.{cap_all-Counts}
use nexcomp.Lz77.Huffman.Lengths.Order.{
  spans, reassign-Fit, reassign-other, All-sort_symbols, All-sorted, sort_symbols-Distinct,
  length-sort_symbols, spans-sort_symbols,
}

-- Lengths for a prefix code of the symbols.
pub record AreLengths (symbols : List ℕ) (lengths : ℕ → ℕ) : Type 0 where
  pub legal : All (λ s. (1 ≤ lengths s) × (lengths s ≤ max_len)) symbols
  pub kraft : spans lengths symbols ≤ 2 ^ max_len
  pub other : (i : ℕ) → All (λ s. i ≢ s) symbols → lengths i ≡ 0

-- No length is above 15 bits.
none_over :
    (symbols : List ℕ) (lengths : ℕ → ℕ)
    → any_over symbols lengths ≡ false
    → All (λ s. IsDepth (lengths s)) symbols
    → All (λ s. (1 ≤ lengths s) × (lengths s ≤ max_len)) symbols
      × (spans lengths symbols ≡ shares lengths symbols)
unfolding any_over spans shares
none_over [] lengths h d = (tt, refl)
none_over (s ∷ symbols) lengths h ((low, top), d) = elim (Bool-cases (ltb max_len (lengths s))) [
  | inl t ↦ let h' : true ≡ false = rw t at h in cc
  | inr t ↦
      let h' : any_over symbols lengths ≡ false = rw t at h in
      let within = ltb→le max_len (lengths s) t in
      let (legal, sum) = none_over symbols lengths h' d in
      (((low, within), legal), rw (le→leb (lengths s) max_len within) (omega arith))
]

zero_counts : (factor : ℕ → ℕ) (n : ℕ) → sum_to factor (λ b. 0) n ≡ 0
unfolding sum_to
zero_counts factor zero = refl
zero_counts factor (suc n) = omega (arith, zero_counts factor n)

abbrev start : (ℕ → ℕ) → Capped
start lengths = record { count = λ b. 0; overflow = 0; lengths = lengths }

module _ (symbols : List ℕ) (lengths : ℕ → ℕ) (d : Distinct symbols)
    (few : length symbols ≤ 2 ^ max_len) (t : AreDepths symbols lengths) where
  abbrev capped : Capped
  capped = cap_all symbols (start lengths)

  abbrev sorted : List ℕ
  sorted = sort_symbols capped.lengths symbols

  abbrev limited : ℕ → ℕ
  limited = reassign sorted (redistribute capped.overflow capped.count) capped.lengths

  limited-AreLengths : AreLengths symbols limited
  limited-AreLengths =
      let c = cap_all-Counts symbols (start lengths) d t.depths in
      let zeros = zero_counts span max_len in
      let none_yet = zero_counts one max_len in
      let (cover, total) =
        redistribute_lem capped.overflow capped.count (length symbols) few (record {
          weight = omega (arith, c.covered_lem, t.kraft);
          total = omega (arith, c.total);
          longest = omega (arith, c.longest);
        }) in
      let (legal, sum) =
        reassign-Fit sorted (redistribute capped.overflow capped.count) capped.lengths
          (sort_symbols-Distinct capped.lengths symbols d)
          (omega (arith, length-sort_symbols capped.lengths symbols)) in
      record {
        legal =
            All-sorted capped.lengths (λ s. (1 ≤ limited s) × (limited s ≤ max_len)) symbols legal;
        kraft = omega (arith, spans-sort_symbols capped.lengths limited symbols);
        other = λ i h.
            reassign-other sorted (redistribute capped.overflow capped.count) capped.lengths i
              (All-sort_symbols capped.lengths (λ s. i ≢ s) symbols h)
            ∙ c.other i h
            ∙ t.other i h;
      }

-- Limiting the depths of a tree gives the lengths of a prefix code.
pub limit_code_lengths-AreLengths :
    (symbols : List ℕ) (lengths : ℕ → ℕ)
    → Distinct symbols
    → length symbols ≤ 2 ^ max_len
    → AreDepths symbols lengths
    → AreLengths symbols (limit_code_lengths lengths symbols)
unfolding limit_code_lengths
limit_code_lengths-AreLengths symbols lengths d few t =
    elim (Bool-cases (any_over symbols lengths)) [
      | inl over ↦
          subst (AreLengths symbols) (sym (if-true _ _ over))
            (limited-AreLengths symbols lengths d few t)
      | inr within ↦
          let (legal, sum) = none_over symbols lengths within t.depths in
          subst (AreLengths symbols) (sym (if-false _ _ within))
            (record { legal = legal; kraft = omega (arith, t.kraft); other = t.other })
    ]
