-- ===== src/Lz77/Huffman/Lengths/Order.antt =====
-- The order in which the symbols take their new lengths, and the lengths that they take.
use nexcomp.Base.{
  ℕ, zero, suc, ◌+◌, ◌≤◌, ◌≡◌, ◌≢◌, ◌⊎◌, refl, sym, ap, ◌∙◌, arith, false, inl, inr, Bool-cases,
  List, [], ◌∷◌, length, All, ◌==◌, ne→==, if◌then◌else◌,
}
use mathlib.Core.Path.{subst}
use nexcomp.Base.Arrays.{update, update_same, update_other}
use nexcomp.Lz77.Huffman.Codes.{max_len}
use nexcomp.Lz77.Huffman.Codes.Intervals.{span}
use nexcomp.Lz77.Huffman.Lengths.{deepest, less, reassign, before, insert_symbol, sort_symbols}
use nexcomp.Lz77.Huffman.Lengths.Nonzero.{Distinct}
use nexcomp.Lz77.Huffman.Lengths.Limit.{
  one, codes_in, covered, deepest-le, deepest-count, deepest-none, sum_to-less,
}

module _ (lengths : ℕ → ℕ) where
  All-insert_symbol :
      (P : ℕ → Type 0) (s : ℕ) (symbols : List ℕ)
      → P s
      → All P symbols
      → All P (insert_symbol lengths s symbols)
  unfolding insert_symbol
  All-insert_symbol P s [] p h = (p, tt)
  All-insert_symbol P s (t ∷ symbols) p (q, h) = elim (Bool-cases (before lengths s t)) [
    | inl b ↦ rw b (p, (q, h))
    | inr b ↦ rw b (q, All-insert_symbol P s symbols p h)
  ]

  pub All-sort_symbols :
      (P : ℕ → Type 0) (symbols : List ℕ) → All P symbols → All P (sort_symbols lengths symbols)
  unfolding sort_symbols
  All-sort_symbols P [] h = tt
  All-sort_symbols P (s ∷ symbols) (p, h) =
      All-insert_symbol P s (sort_symbols lengths symbols) p (All-sort_symbols P symbols h)

  All-inserted :
      (P : ℕ → Type 0) (s : ℕ) (symbols : List ℕ)
      → All P (insert_symbol lengths s symbols)
      → P s × All P symbols
  unfolding insert_symbol
  All-inserted P s [] (p, h) = (p, tt)
  All-inserted P s (t ∷ symbols) h = elim (Bool-cases (before lengths s t)) [
    | inl b ↦ rw b at h
    | inr b ↦
        let h' : P t × All P (insert_symbol lengths s symbols) = rw b at h in
        let (p, rest) = All-inserted P s symbols h'.1 in (p, (h'.0, rest))
  ]

  pub All-sorted :
      (P : ℕ → Type 0) (symbols : List ℕ) → All P (sort_symbols lengths symbols) → All P symbols
  unfolding sort_symbols
  All-sorted P [] h = tt
  All-sorted P (s ∷ symbols) h =
      let (p, rest) = All-inserted P s (sort_symbols lengths symbols) h in
      (p, All-sorted P symbols rest)

  insert_symbol-Distinct :
      (s : ℕ) (symbols : List ℕ)
      → All (λ t. s ≢ t) symbols
      → Distinct symbols
      → Distinct (insert_symbol lengths s symbols)
  unfolding insert_symbol
  insert_symbol-Distinct s [] new h = (tt, tt)
  insert_symbol-Distinct s (t ∷ symbols) (ne, new) (other, h) =
      elim (Bool-cases (before lengths s t)) [
        | inl b ↦ rw b ((ne, new), (other, h))
        | inr b ↦ rw b (
          All-insert_symbol (λ u. t ≢ u) s symbols (λ e. ne (sym e)) other,
          insert_symbol-Distinct s symbols new h,
        )
      ]

  pub sort_symbols-Distinct :
      (symbols : List ℕ) → Distinct symbols → Distinct (sort_symbols lengths symbols)
  unfolding sort_symbols
  sort_symbols-Distinct [] h = tt
  sort_symbols-Distinct (s ∷ symbols) (new, h) =
      insert_symbol-Distinct s (sort_symbols lengths symbols)
        (All-sort_symbols (λ t. s ≢ t) symbols new) (sort_symbols-Distinct symbols h)

  length-insert_symbol :
      (s : ℕ) (symbols : List ℕ) → length (insert_symbol lengths s symbols) ≡ suc (length symbols)
  unfolding insert_symbol
  length-insert_symbol s [] = refl
  length-insert_symbol s (t ∷ symbols) = elim (Bool-cases (before lengths s t)) [
    | inl b ↦ rw b refl
    | inr b ↦ rw b (ap suc (length-insert_symbol s symbols))
  ]

  pub length-sort_symbols :
      (symbols : List ℕ) → length (sort_symbols lengths symbols) ≡ length symbols
  unfolding sort_symbols
  length-sort_symbols [] = refl
  length-sort_symbols (s ∷ symbols) =
      length-insert_symbol s (sort_symbols lengths symbols) ∙ ap suc (length-sort_symbols symbols)

-- What the codes of the symbols cover.
unfoldable pub spans : (ℕ → ℕ) → List ℕ → ℕ
spans lengths [] = 0
spans lengths (s ∷ symbols) = span (lengths s) + spans lengths symbols

module _ (lengths new : ℕ → ℕ) where
  spans-insert_symbol :
      (s : ℕ) (symbols : List ℕ)
      → spans new (insert_symbol lengths s symbols) ≡ span (new s) + spans new symbols
  unfolding insert_symbol spans
  spans-insert_symbol s [] = refl
  spans-insert_symbol s (t ∷ symbols) = elim (Bool-cases (before lengths s t)) [
    | inl b ↦ rw b refl
    | inr b ↦ rw b (omega (arith, spans-insert_symbol s symbols))
  ]

  pub spans-sort_symbols :
      (symbols : List ℕ) → spans new (sort_symbols lengths symbols) ≡ spans new symbols
  unfolding sort_symbols spans
  spans-sort_symbols [] = refl
  spans-sort_symbols (s ∷ symbols) =
      spans-insert_symbol s (sort_symbols lengths symbols)
      ∙ omega (arith, spans-sort_symbols symbols)

-- A symbol that is not in the list keeps its length.
pub reassign-other :
    (symbols : List ℕ) (count lengths : ℕ → ℕ) (i : ℕ)
    → All (λ s. i ≢ s) symbols
    → reassign symbols count lengths i ≡ lengths i
unfolding reassign
reassign-other [] count lengths i h = refl
reassign-other (s ∷ symbols) count lengths i (ne, h) =
    let bits = deepest max_len count in
    reassign-other symbols (less count bits) (if bits == 0 then lengths else update lengths s bits)
      i h
    ∙ elim (Bool-cases (bits == 0)) [
      | inl t ↦ rw t refl
      | inr t ↦ rw t (update_other lengths s i bits ne)
    ]

-- The lengths are legal and cover no more than the counted codes.
abbrev pub Fit : List ℕ → (ℕ → ℕ) → (ℕ → ℕ) → Type 0
Fit symbols count lengths =
    All (λ s. (1 ≤ lengths s) × (lengths s ≤ max_len)) symbols
    × (spans lengths symbols ≤ covered count)

reassign-step :
    (s : ℕ) (symbols : List ℕ) (count lengths : ℕ → ℕ)
    → 1 ≤ deepest max_len count
    → reassign symbols
        (less count (deepest max_len count))
        (update lengths s (deepest max_len count))
      ≡ reassign (s ∷ symbols) count lengths
unfolding reassign
reassign-step s symbols count lengths h =
    let e : (deepest max_len count == 0) ≡ false =
      ne→== (deepest max_len count) 0 (λ k. absurd (omega arith)) in
    ap
      (λ b.
        reassign symbols (less count (deepest max_len count))
          (if b then lengths else update lengths s (deepest max_len count)))
      (sym e)

zero-or-pos : (n : ℕ) → (n ≡ 0) ⊎ (1 ≤ n)
zero-or-pos zero = inl refl
zero-or-pos (suc n) = inr (omega arith)

deepest-pos : (count : ℕ → ℕ) → 1 ≤ codes_in count → 1 ≤ deepest max_len count
deepest-pos count h = elim (zero-or-pos (deepest max_len count)) [
  | inl none_left ↦ absurd (omega (arith, deepest-none max_len one count none_left))
  | inr low ↦ low
]

-- With a code for each symbol, the new lengths fit.
pub reassign-Fit :
    (symbols : List ℕ) (count lengths : ℕ → ℕ)
    → Distinct symbols
    → length symbols ≤ codes_in count
    → Fit symbols count (reassign symbols count lengths)
unfolding spans
reassign-Fit [] count lengths d h = (tt, omega arith)
reassign-Fit (s ∷ symbols) count lengths (new, d) h =
    let bits = deepest max_len count in
    let low = deepest-pos count (omega arith) in
    let high = deepest-le max_len count in
    let has = deepest-count max_len count low in
    let fewer = sum_to-less one count max_len bits low high has in
    let smaller = sum_to-less span count max_len bits low high has in
    let lengths' = update lengths s bits in
    let result = reassign symbols (less count bits) lengths' in
    let (legal, cover) = reassign-Fit symbols (less count bits) lengths' d (omega arith) in
    let here : result s ≡ bits =
      reassign-other symbols (less count bits) lengths' s new ∙ update_same lengths s s bits refl in
    let here' : span (result s) ≡ span bits = ap (λ b. span b) here in
    subst (Fit (s ∷ symbols) count) (reassign-step s symbols count lengths low)
      (((omega arith, omega arith), legal), omega arith)
