-- ===== src/Lz77/Huffman/Codes/Assigned.antt =====
-- `canonical_codes` gives each symbol the canonical code of its length.
use nexcomp.Base.{
  ℕ, zero, suc, ◌+◌, ◌-◌, ◌^◌, ◌<◌, ◌≤◌, ◌≡◌, ◌≢◌, refl, sym, ap, ◌∙◌, arith, inl, inr, Bool-cases,
  List, [], ◌∷◌, ◌++◌, length, length-append, length-take, length-replicate, get_or, take,
  replicate, ◌==◌, ==→eq, ==→ne, ne→==, eq→==, All, if-true, if-false,
}
use nexcomp.Base.Words.{u32}
use nexcomp.Base.Arrays.{update, update_same, update_other}
use nexcomp.Lz77.Huffman.Codes.{
  HuffCode, default_code, longest, count_lengths, fill_next, assign, canonical_codes,
}
use nexcomp.Lz77.Huffman.Codes.Intervals.{
  occ, first, len_of, code_of, HasCode, IsPrefixFree, len_of-le, first-bound,
}
use nexcomp.Lz77.Huffman.Codes.FirstCodes.{counts, fill_next-first, occ-length}

length-assign : (lengths : List ℕ) (next : ℕ → ℕ) → length (assign lengths next) ≡ length lengths
unfolding assign
length-assign [] next = refl
length-assign (zero ∷ lengths) next = ap suc (length-assign lengths next)
length-assign (suc l ∷ lengths) next = ap suc (length-assign lengths _)

assign-len :
    (lengths : List ℕ) (next : ℕ → ℕ) (i : ℕ)
    → (get_or (assign lengths next) i default_code).len ≡ len_of lengths i
unfolding assign
assign-len [] next i = refl
assign-len (zero ∷ lengths) next zero = refl
assign-len (suc l ∷ lengths) next zero = refl
assign-len (zero ∷ lengths) next (suc i) = assign-len lengths next i
assign-len (suc l ∷ lengths) next (suc i) = assign-len lengths _ i

occ-skip : (b x : ℕ) (lengths : List ℕ) → x ≢ b → occ b (x ∷ lengths) ≡ occ b lengths
unfolding occ
occ-skip b x lengths h = rw (ne→== x b h) (omega arith)

occ-hit : (b x : ℕ) (lengths : List ℕ) → x ≡ b → occ b (x ∷ lengths) ≡ occ b lengths + 1
unfolding occ
occ-hit b x lengths h = rw (eq→== x b h) (omega arith)

-- A symbol gets the next code of its length behind those of the symbols before it.
assign-occ :
    (lengths : List ℕ) (next : ℕ → ℕ) (i : ℕ)
    → HasCode lengths i
    → next (len_of lengths i) + occ (len_of lengths i) (take i lengths) < 2 ^ 32
    → (get_or (assign lengths next) i default_code).bits
      ≡ next (len_of lengths i) + occ (len_of lengths i) (take i lengths)
unfolding assign
assign-occ [] next i c room = absurd (omega arith)
assign-occ (zero ∷ lengths) next zero c room = absurd (omega arith)
assign-occ (suc l ∷ lengths) next zero c room = unfold occ in omega arith
assign-occ (zero ∷ lengths) next (suc i) (h, pos) room =
    let skip = occ-skip (len_of lengths i) 0 (take i lengths) (omega arith) in
    assign-occ lengths next i (omega arith, pos) (omega arith) ∙ omega arith
assign-occ (suc l ∷ lengths) next (suc i) (h, pos) room =
    let b = len_of lengths i in
    let next' = update next (suc l) (u32 (next (suc l) + 1)) in
    elim (Bool-cases (suc l == b)) [
      | inl t ↦
          let e : suc l ≡ b = ==→eq (suc l) b t in
          let hit = occ-hit b (suc l) (take i lengths) e in
          let same : next (suc l) ≡ next b = ap next e in
          let here : next' b ≡ next b + 1 =
            update_same next (suc l) b (u32 (next (suc l) + 1)) (sym e) ∙ omega arith in
          assign-occ lengths next' i (omega arith, pos) (omega arith) ∙ omega arith
      | inr t ↦
          let ne = ==→ne (suc l) b t in
          let skip = occ-skip b (suc l) (take i lengths) ne in
          let here : next' b ≡ next b =
            update_other next (suc l) b (u32 (next (suc l) + 1)) (λ e. ne (sym e)) in
          assign-occ lengths next' i (omega arith, pos) (omega arith) ∙ omega arith
    ]

-- The codes of lengths that have one.
coded : List ℕ → List HuffCode
coded lengths =
    assign lengths (fill_next (longest lengths) 1 0 (count_lengths lengths (λ b. 0)) (λ b. 0))

len_of-longest : (lengths : List ℕ) (i : ℕ) → len_of lengths i ≤ longest lengths
unfolding longest
len_of-longest [] i = omega arith
len_of-longest (x ∷ lengths) zero = omega arith
len_of-longest (x ∷ lengths) (suc i) = omega (arith, len_of-longest lengths i)

longest-le : (lengths : List ℕ) (b : ℕ) → All (λ len. len ≤ b) lengths → longest lengths ≤ b
unfolding longest
longest-le [] b h = omega arith
longest-le (x ∷ lengths) b (h, rest) = omega (arith, longest-le lengths b rest)

get_or-padded :
    (xs : List HuffCode) (n i : ℕ)
    → get_or (xs ++ replicate n default_code) i default_code ≡ get_or xs i default_code
get_or-padded [] zero i = refl
get_or-padded [] (suc n) zero = refl
get_or-padded [] (suc n) (suc i) = get_or-padded [] n i
get_or-padded (x ∷ xs) n zero = refl
get_or-padded (x ∷ xs) n (suc i) = get_or-padded xs n i

canonical_codes-coded :
    (lengths : List ℕ) (max_symbols : ℕ)
    → 0 < longest lengths
    → canonical_codes lengths max_symbols
      ≡ coded lengths ++ replicate (max_symbols - length lengths) default_code
unfolding canonical_codes coded
canonical_codes-coded lengths max_symbols h = if-false _ _ (ne→== (longest lengths) 0 (omega arith))

canonical_codes-none :
    (lengths : List ℕ) (max_symbols : ℕ)
    → longest lengths ≡ 0
    → canonical_codes lengths max_symbols ≡ replicate max_symbols default_code
unfolding canonical_codes
canonical_codes-none lengths max_symbols h = if-true _ _ (eq→== (longest lengths) 0 h)

length-coded : (lengths : List ℕ) → length (coded lengths) ≡ length lengths
unfolding coded
length-coded lengths = length-assign lengths _

get_or-canonical_codes :
    (lengths : List ℕ) (max_symbols i : ℕ)
    → 0 < longest lengths
    → get_or (canonical_codes lengths max_symbols) i default_code
      ≡ get_or (coded lengths) i default_code
get_or-canonical_codes lengths max_symbols i h =
    ap (λ cs. get_or cs i default_code) (canonical_codes-coded lengths max_symbols h)
    ∙ get_or-padded (coded lengths) (max_symbols - length lengths) i

-- The code of a symbol has the length that was given for it.
pub canonical_codes-len :
    (lengths : List ℕ) (max_symbols i : ℕ)
    → (get_or (canonical_codes lengths max_symbols) i default_code).len ≡ len_of lengths i
canonical_codes-len lengths max_symbols i = elim (Bool-cases (longest lengths == 0)) [
  | inl t ↦
      let none_left : canonical_codes lengths max_symbols ≡ replicate max_symbols default_code =
        canonical_codes-none lengths max_symbols (==→eq (longest lengths) 0 t) in
      ap (λ cs. (get_or cs i default_code).len) none_left
      ∙ ap (λ c. c.len) (get_or-padded [] max_symbols i)
      ∙ omega (arith, len_of-longest lengths i, ==→eq (longest lengths) 0 t)
  | inr t ↦
      ap (λ c. c.len)
        (get_or-canonical_codes lengths max_symbols i (omega (arith, ==→ne (longest lengths) 0 t)))
      ∙ unfold coded in assign-len lengths _ i
]

coded-bits :
    (lengths : List ℕ) (i : ℕ)
    → IsPrefixFree lengths
    → length lengths < 2 ^ 16
    → HasCode lengths i
    → (get_or (coded lengths) i default_code).bits ≡ code_of lengths i
unfolding coded
coded-bits lengths i free few c =
    let l = len_of lengths i in
    let short = len_of-le lengths i free in
    let start : first lengths 0 ≡ 0 = unfold first in refl in
    let next : fill_next (longest lengths) 1 0 (counts lengths free few) (λ b. 0) l
        ≡ first lengths l =
      ap (λ f. fill_next (longest lengths) 1 f (counts lengths free few) (λ b. 0) l) (sym start)
      ∙ fill_next-first lengths free few (longest lengths) 0 l (λ b. 0) c.1
          (omega (arith, len_of-longest lengths i)) short in
    let few_before : occ l (take i lengths) < 2 ^ 16 =
      omega (arith, occ-length l (take i lengths), length-take {0} i lengths) in
    assign-occ lengths _ i c (omega (arith, first-bound lengths l free short, next))
    ∙ ap (λ t. t + occ l (take i lengths)) next

-- The code of a symbol is the canonical one.
pub canonical_codes-bits :
    (lengths : List ℕ) (max_symbols i : ℕ)
    → IsPrefixFree lengths
    → length lengths < 2 ^ 16
    → HasCode lengths i
    → (get_or (canonical_codes lengths max_symbols) i default_code).bits ≡ code_of lengths i
canonical_codes-bits lengths max_symbols i free few c =
    ap (λ code. code.bits)
      (get_or-canonical_codes lengths max_symbols i (omega (arith, c.1, len_of-longest lengths i)))
    ∙ coded-bits lengths i free few c

pub length-canonical_codes :
    (lengths : List ℕ) (max_symbols : ℕ)
    → length lengths ≤ max_symbols
    → length (canonical_codes lengths max_symbols) ≡ max_symbols
length-canonical_codes lengths max_symbols h = elim (Bool-cases (longest lengths == 0)) [
  | inl t ↦
      ap (λ cs. length cs) (canonical_codes-none lengths max_symbols (==→eq (longest lengths) 0 t))
      ∙ length-replicate max_symbols default_code
  | inr t ↦
      let codes =
        canonical_codes-coded lengths max_symbols (omega (arith, ==→ne (longest lengths) 0 t)) in
      ap (λ cs. length cs) codes
      ∙ omega (
        arith,
        length-append {0} (coded lengths) (replicate (max_symbols - length lengths) default_code),
        length-coded lengths,
        length-replicate {0} (max_symbols - length lengths) default_code,
      )
]
