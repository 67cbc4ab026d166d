-- ===== src/Lz77/Huffman/Table/Entries.antt =====
-- Where the decode table holds the entry of a code: at the patterns that start with it.
use nexcomp.Base.{
  ℕ, zero, suc, ◌+◌, ◌-◌, ◌*◌, ◌/◌, ◌%◌, ◌^◌, ◌<◌, ◌≤◌, ◌≡◌, ◌≢◌, refl, sym as sym_path, ap, ◌∙◌,
  arith, true, false, inl, inr, Bool-cases, List, [], ◌∷◌, length, get_or, ◌==◌, ==→eq, ==→ne,
  ne→==, if-true, if-false,
}
use nexcomp.Base.Bits.{bit_or, bit_or_low}
use nexcomp.Base.Powers.{low_of, div-pow-lt}
use nexcomp.Base.Arrays.{update, update_same, update_other}
use native.Mathlib.Nat.{div-add-mod, mul_comm}
use nexcomp.Lz77.Huffman.Codes.{HuffCode, default_code, reverse_bits}
use nexcomp.Lz77.Huffman.Codes.Reversal.{reverse_bits-lt}
use nexcomp.Lz77.Huffman.Table.{entry, fill_entries, fill_symbol, fill_symbols}

update_kept : (f : ℕ → ℕ) (i j v : ℕ) → f j ≡ v → update f i v j ≡ v
update_kept f i j v h = elim (Bool-cases (j == i)) [
  | inl t ↦ update_same f i j v (==→eq j i t)
  | inr t ↦ update_other f i j v (==→ne j i t) ∙ h
]

module _ (reversed len value : ℕ) where
  fill_entries_kept :
      (rounds j : ℕ) (lookup : ℕ → ℕ) (pattern : ℕ)
      → lookup pattern ≡ value
      → fill_entries rounds j reversed len value lookup pattern ≡ value
  unfolding fill_entries
  fill_entries_kept zero j lookup pattern h = h
  fill_entries_kept (suc rounds) j lookup pattern h =
      fill_entries_kept rounds (j + 1) (update lookup (bit_or reversed (j * 2 ^ len)) value) pattern
        (update_kept lookup (bit_or reversed (j * 2 ^ len)) pattern value h)

  fill_entries_hit :
      (rounds j q : ℕ) (lookup : ℕ → ℕ) (pattern : ℕ)
      → j ≤ q
      → q < j + rounds
      → pattern ≡ bit_or reversed (q * 2 ^ len)
      → fill_entries rounds j reversed len value lookup pattern ≡ value
  unfolding fill_entries
  fill_entries_hit zero j q lookup pattern h k e = absurd (omega arith)
  fill_entries_hit (suc rounds) j q lookup pattern h k e = elim (Bool-cases (q == j)) [
    | inl t ↦
        let at : q ≡ j = ==→eq q j t in
        fill_entries_kept rounds (j + 1) (update lookup (bit_or reversed (j * 2 ^ len)) value)
          pattern
          (update_same lookup (bit_or reversed (j * 2 ^ len)) pattern value
            (e ∙ ap (λ (n : ℕ). bit_or reversed (n * 2 ^ len)) at))
    | inr t ↦
        fill_entries_hit rounds (j + 1) q (update lookup (bit_or reversed (j * 2 ^ len)) value)
          pattern (omega (arith, ==→ne q j t)) (omega arith) e
  ]

  fill_entries_miss :
      (rounds j : ℕ) (lookup : ℕ → ℕ) (pattern : ℕ)
      → reversed < 2 ^ len
      → pattern % 2 ^ len ≢ reversed
      → fill_entries rounds j reversed len value lookup pattern ≡ lookup pattern
  unfolding fill_entries
  fill_entries_miss zero j lookup pattern fits h = refl
  fill_entries_miss (suc rounds) j lookup pattern fits h =
      let starts : bit_or reversed (j * 2 ^ len) % 2 ^ len ≡ reversed =
        rw (bit_or_low len j reversed fits, mul_comm j (2 ^ len)) (low_of len reversed j fits) in
      fill_entries_miss rounds (j + 1) (update lookup (bit_or reversed (j * 2 ^ len)) value) pattern
        fits h
      ∙ update_other lookup (bit_or reversed (j * 2 ^ len)) pattern value
          (λ e. h (ap (λ (n : ℕ). n % 2 ^ len) e ∙ starts))

fill_symbol-none :
    (max_len sym : ℕ) (code : HuffCode) (lookup : ℕ → ℕ)
    → (code.len == 0) ≡ true
    → fill_symbol max_len sym code lookup ≡ lookup
unfolding fill_symbol
fill_symbol-none max_len sym code lookup t = if-true _ _ t

fill_symbol-some :
    (max_len sym : ℕ) (code : HuffCode) (lookup : ℕ → ℕ)
    → (code.len == 0) ≡ false
    → fill_symbol max_len sym code lookup
      ≡ fill_entries
          (2 ^ (max_len - code.len))
          0
          (reverse_bits code.bits code.len)
          code.len
          (entry code.len sym)
          lookup
unfolding fill_symbol
fill_symbol-some max_len sym code lookup t = if-false _ _ t

-- The pattern starts with the code.
abbrev pub Starts : HuffCode → ℕ → Type 0
Starts code pattern = pattern % 2 ^ code.len ≡ reverse_bits code.bits code.len

module _ (max_len pattern value : ℕ) (short : pattern < 2 ^ max_len) where
  -- No code but those of the entry is a start of the pattern.
  abbrev pub Only : ℕ → List HuffCode → Type 0
  Only sym codes =
      (k : ℕ)
      → k < length codes
      → 0 < (get_or codes k default_code).len
      → Starts (get_or codes k default_code) pattern
      → entry (get_or codes k default_code).len (sym + k) ≡ value

  fill_symbol_kept :
      (sym : ℕ) (code : HuffCode) (lookup : ℕ → ℕ)
      → code.len ≤ 31
      → (0 < code.len → Starts code pattern → entry code.len sym ≡ value)
      → lookup pattern ≡ value
      → fill_symbol max_len sym code lookup pattern ≡ value
  fill_symbol_kept sym code lookup fits only h = elim (Bool-cases (code.len == 0)) [
    | inl t ↦ ap (λ f. f pattern) (fill_symbol-none max_len sym code lookup t) ∙ h
    | inr t ↦
        ap (λ f. f pattern) (fill_symbol-some max_len sym code lookup t)
        ∙ elim (Bool-cases (pattern % 2 ^ code.len == reverse_bits code.bits code.len)) [
          | inl s ↦
              let starts = ==→eq (pattern % 2 ^ code.len) (reverse_bits code.bits code.len) s in
              let same = only (omega (arith, ==→ne code.len 0 t)) starts in
              fill_entries_kept (reverse_bits code.bits code.len) code.len (entry code.len sym)
                (2 ^ (max_len - code.len)) 0 lookup pattern (h ∙ sym_path same)
              ∙ same
          | inr s ↦
              fill_entries_miss (reverse_bits code.bits code.len) code.len (entry code.len sym)
                (2 ^ (max_len - code.len)) 0 lookup pattern
                (reverse_bits-lt code.bits code.len fits)
                (==→ne (pattern % 2 ^ code.len) (reverse_bits code.bits code.len) s)
              ∙ h
        ]
  ]

  fill_symbol_hit :
      (sym : ℕ) (code : HuffCode) (lookup : ℕ → ℕ)
      → code.len ≤ 31
      → 0 < code.len
      → Starts code pattern
      → entry code.len sym ≡ value
      → fill_symbol max_len sym code lookup pattern ≡ value
  fill_symbol_hit sym code lookup fits pos starts e =
      let q = pattern / 2 ^ code.len in
      let whole : pattern ≡ bit_or (reverse_bits code.bits code.len) (q * 2 ^ code.len) =
        sym_path (div-add-mod pattern (2 ^ code.len))
        ∙ omega (
          arith,
          starts,
          mul_comm q (2 ^ code.len),
          bit_or_low code.len q (reverse_bits code.bits code.len)
              (reverse_bits-lt code.bits code.len fits),
        ) in
      ap (λ f. f pattern)
        (fill_symbol-some max_len sym code lookup (ne→== code.len 0 (omega arith)))
      ∙ fill_entries_hit (reverse_bits code.bits code.len) code.len (entry code.len sym)
          (2 ^ (max_len - code.len)) 0 q lookup pattern (omega arith)
          (omega (arith, div-pow-lt pattern max_len code.len short)) whole
      ∙ e

  -- All codes are short enough for a word.
  abbrev pub Short : List HuffCode → Type 0
  Short codes = (k : ℕ) → (get_or codes k default_code).len ≤ 31

  later : (sym k : ℕ) → sym + suc k ≡ sym + 1 + k
  later sym k = omega arith

  Only-tail :
      (sym : ℕ) (code : HuffCode) (codes : List HuffCode)
      → Only sym (code ∷ codes)
      → Only (sym + 1) codes
  Only-tail sym code codes only k h pos starts =
      ap (λ s. entry (get_or codes k default_code).len s) (sym_path (later sym k))
      ∙ only (suc k) (omega arith) pos starts

  Only-head :
      (sym : ℕ) (code : HuffCode) (codes : List HuffCode)
      → Only sym (code ∷ codes)
      → 0 < code.len
      → Starts code pattern
      → entry code.len sym ≡ value
  Only-head sym code codes only pos starts =
      let e : sym ≡ sym + 0 = omega arith in
      ap (λ s. entry code.len s) e ∙ only 0 (omega arith) pos starts

  fill_symbols_kept :
      (sym : ℕ) (codes : List HuffCode) (lookup : ℕ → ℕ)
      → Short codes
      → Only sym codes
      → lookup pattern ≡ value
      → fill_symbols max_len sym codes lookup pattern ≡ value
  unfolding fill_symbols
  fill_symbols_kept sym [] lookup fits only h = h
  fill_symbols_kept sym (code ∷ codes) lookup fits only h =
      fill_symbols_kept (sym + 1) codes (fill_symbol max_len sym code lookup) (λ k. fits (suc k))
        (Only-tail sym code codes only)
        (fill_symbol_kept sym code lookup (fits 0) (Only-head sym code codes only) h)

  -- The table holds the entry of the code that the pattern starts with.
  pub fill_symbols_hit :
      (sym : ℕ) (codes : List HuffCode) (lookup : ℕ → ℕ) (k : ℕ)
      → Short codes
      → Only sym codes
      → k < length codes
      → 0 < (get_or codes k default_code).len
      → Starts (get_or codes k default_code) pattern
      → fill_symbols max_len sym codes lookup pattern ≡ value
  unfolding fill_symbols
  fill_symbols_hit sym [] lookup k fits only h pos starts = absurd (omega arith)
  fill_symbols_hit sym (code ∷ codes) lookup zero fits only h pos starts =
      fill_symbols_kept (sym + 1) codes (fill_symbol max_len sym code lookup) (λ k. fits (suc k))
        (Only-tail sym code codes only)
        (fill_symbol_hit sym code lookup (fits 0) pos starts
          (Only-head sym code codes only pos starts))
  fill_symbols_hit sym (code ∷ codes) lookup (suc k) fits only h pos starts =
      fill_symbols_hit (sym + 1) codes (fill_symbol max_len sym code lookup) k (λ i. fits (suc i))
        (Only-tail sym code codes only) (omega arith) pos starts
