-- ===== src/Lz77/Huffman/Table/Canonical.antt =====
-- The decode table of canonical codes: no pattern starts with two of them, so that the table holds
-- the entry of each at all patterns that start with it.
use nexcomp.Base.{
  ℕ, zero, suc, ◌+◌, ◌-◌, ◌*◌, ◌/◌, ◌%◌, ◌^◌, ◌<◌, ◌≤◌, ◌≡◌, sym, ap, ap₂, ◌∙◌, arith, inl, inr,
  List, [], ◌∷◌, length, get_or, take, take_all, max,
}
use nexcomp.Lz77.Huffman.Codes.{HuffCode, default_code, max_len, canonical_codes}
use nexcomp.Lz77.Huffman.Codes.Reversal.{
  mirror, mirror-lt, mirror-add, mirror-mod, mirror-mirror, reverse_bits-mirror,
}
use nexcomp.Lz77.Huffman.Codes.Intervals.{
  span, len_of, code_of, HasCode, IsPrefixFree, len_of-le, code_of-lt, ends_before,
}
use nexcomp.Lz77.Huffman.Codes.Apart.{order-cases}
use nexcomp.Lz77.Huffman.Codes.Assigned.{
  canonical_codes-len, canonical_codes-bits, length-canonical_codes,
}
use nexcomp.Lz77.Huffman.Table.{entry, longest_code, fill_symbols, build_decode_table}
use nexcomp.Lz77.Huffman.Table.Entries.{Starts, fill_symbols_hit}

-- The interval of 15 bits that a pattern lies in, read from its first bits.
pattern-bounds :
    (pattern l : ℕ)
    → l ≤ max_len
    → (mirror l pattern * span l ≤ mirror max_len pattern)
      × (mirror max_len pattern < (mirror l pattern + 1) * span l)
pattern-bounds pattern l h =
    let e : max_len ≡ l + (max_len - l) = omega arith in
    let cut : mirror max_len pattern
        ≡ mirror l pattern * span l + mirror (max_len - l) (pattern / 2 ^ l) =
      ap (λ k. mirror k pattern) e ∙ mirror-add l (max_len - l) pattern in
    between (mirror l pattern) (span l) (mirror (max_len - l) (pattern / 2 ^ l))
      (mirror max_len pattern) cut (mirror-lt (max_len - l) (pattern / 2 ^ l))
  where
    between : (c s m x : ℕ) → x ≡ c * s + m → m < s → (c * s ≤ x) × (x < (c + 1) * s)
    between c s m x e h = (omega arith, grind arith)

longest_code-ge :
    (codes : List HuffCode) (i : ℕ) → (get_or codes i default_code).len ≤ longest_code codes
longest_code-ge [] i = omega arith
longest_code-ge (c ∷ codes) zero = omega arith
longest_code-ge (c ∷ codes) (suc i) = omega (arith, longest_code-ge codes i)

longest_code-le :
    (codes : List HuffCode) (b : ℕ)
    → ((i : ℕ) → (get_or codes i default_code).len ≤ b)
    → longest_code codes ≤ b
longest_code-le [] b h = omega arith
longest_code-le (c ∷ codes) b h = omega (arith, h 0, longest_code-le codes b (λ i. h (suc i)))

module _ (lengths : List ℕ) (free : IsPrefixFree lengths) (few : length lengths < 2 ^ 16) where
  abbrev pub codes : List HuffCode
  codes = canonical_codes lengths (length lengths)

  abbrev pub code : ℕ → HuffCode
  code i = get_or codes i default_code

  -- The code of no two symbols starts one pattern.
  matched_once :
      (i j pattern : ℕ)
      → HasCode lengths i
      → HasCode lengths j
      → mirror (len_of lengths i) pattern ≡ code_of lengths i
      → mirror (len_of lengths j) pattern ≡ code_of lengths j
      → i ≡ j
  matched_once i j pattern ci cj mi mj =
      let bi = pattern-bounds pattern (len_of lengths i) (len_of-le lengths i free) in
      let bj = pattern-bounds pattern (len_of lengths j) (len_of-le lengths j free) in
      let bi' : (code_of lengths i * span (len_of lengths i) ≤ mirror max_len pattern)
          × (mirror max_len pattern < (code_of lengths i + 1) * span (len_of lengths i)) =
        rw (← mi) bi in
      let bj' : (code_of lengths j * span (len_of lengths j) ≤ mirror max_len pattern)
          × (mirror max_len pattern < (code_of lengths j + 1) * span (len_of lengths j)) =
        rw (← mj) bj in
      elim (order-cases (len_of lengths i) (len_of lengths j) i j) [
        | inl e ↦ e
        | inr (inl before) ↦ absurd (omega (arith, ends_before lengths i j free ci cj before))
        | inr (inr after) ↦ absurd (omega (arith, ends_before lengths j i free cj ci after))
      ]

  mirror-Starts :
      (i pattern : ℕ)
      → HasCode lengths i
      → Starts (code i) pattern
      → mirror (len_of lengths i) pattern ≡ code_of lengths i
  mirror-Starts i pattern c starts =
      let l = len_of lengths i in
      let short = len_of-le lengths i free in
      let low : pattern % 2 ^ l ≡ mirror l (code_of lengths i) =
        (rw
          (
            canonical_codes-len lengths (length lengths) i,
            canonical_codes-bits lengths (length lengths) i free few c,
          )
          at starts)
        ∙ reverse_bits-mirror (code_of lengths i) l (omega arith) in
      sym (mirror-mod l pattern)
      ∙ ap (λ t. mirror l t) low
      ∙ mirror-mirror l (code_of lengths i) (code_of-lt lengths i free c)

  pub table_len : ℕ
  table_len = max (longest_code codes) 1

  pub table_len_bounds : (i : ℕ) → (len_of lengths i ≤ table_len) × (table_len ≤ max_len)
  unfolding table_len
  table_len_bounds i =
      let top : longest_code codes ≤ max_len = longest_code-le codes max_len (λ k.
        omega (arith, canonical_codes-len lengths (length lengths) k, len_of-le lengths k free)) in
      (
        omega (arith, longest_code-ge codes i, canonical_codes-len lengths (length lengths) i),
        omega arith,
      )

  pub table_holds :
      (i pattern : ℕ)
      → HasCode lengths i
      → Starts (code i) pattern
      → pattern < 2 ^ table_len
      → fill_symbols table_len 0 codes (λ p. 0) pattern ≡ entry (len_of lengths i) i
  table_holds i pattern c starts short =
      let size : length codes ≡ length lengths =
        length-canonical_codes lengths (length lengths) (omega arith) in
      let same = canonical_codes-len lengths (length lengths) in
      fill_symbols_hit table_len pattern (entry (len_of lengths i) i) short 0 codes (λ p. 0) i
        (λ k. omega (arith, same k, len_of-le lengths k free))
        (λ k h pos s.
          let e : i ≡ k =
            matched_once i k pattern c (omega arith, omega (arith, same k))
              (mirror-Starts i pattern c starts)
              (mirror-Starts k pattern (omega arith, omega (arith, same k)) s) in
          ap (λ l. entry l (0 + k)) (same k)
          ∙ ap₂ (λ l s. entry l s) (ap (λ k. len_of lengths k) (sym e)) (omega arith))
        (omega (arith, c.0)) (omega (arith, same i, c.1)) starts

  pub table-lookup :
      (pattern : ℕ)
      → (build_decode_table codes (length lengths)).lookup pattern
        ≡ fill_symbols table_len 0 codes (λ p. 0) pattern
  unfolding build_decode_table table_len
  table-lookup pattern =
      let whole : take (length lengths) codes ≡ codes =
        take_all (length lengths) codes
          (omega (arith, length-canonical_codes lengths (length lengths) (omega arith))) in
      ap (λ cs. fill_symbols (max (longest_code cs) 1) 0 cs (λ p. 0) pattern) whole

  pub table-len : (build_decode_table codes (length lengths)).max_len ≡ table_len
  unfolding build_decode_table table_len
  table-len =
      let whole : take (length lengths) codes ≡ codes =
        take_all (length lengths) codes
          (omega (arith, length-canonical_codes lengths (length lengths) (omega arith))) in
      ap (λ cs. max (longest_code cs) 1) whole
