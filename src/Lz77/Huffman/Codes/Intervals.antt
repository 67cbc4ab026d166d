-- ===== src/Lz77/Huffman/Codes/Intervals.antt =====
-- Each code of n bits covers the numbers of 15 bits that start with it. The canonical codes cover
-- disjoint intervals, in the order of the lengths and of the symbols.
use nexcomp.Base.{
  ℕ, zero, suc, ◌+◌, ◌-◌, ◌*◌, ◌^◌, ◌<◌, ◌≤◌, ◌≡◌, refl, sym, ap, ◌∙◌, arith, ◌&&◌, ◌⊎◌, inl, inr,
  List, [], ◌∷◌, length, get_or, take, All, ltb, ◌==◌, ◌≢◌, Bool-cases, ==→eq, ==→ne, lt→ltb,
  le→ltb, if◌then◌else◌,
}
use nexcomp.Base.Powers.{pow-split, pow-pos}
use native.Mathlib.Nat.{pow-suc}
use nexcomp.Lz77.Huffman.Codes.{max_len}

-- The numbers of 15 bits that start with a code of this length.
abbrev pub span : ℕ → ℕ
span len = 2 ^ (max_len - len)

-- How many lengths are equal to `b`.
unfoldable pub occ : ℕ → List ℕ → ℕ
occ b [] = 0
occ b (len ∷ lengths) = (if len == b then 1 else 0) + occ b lengths

-- What the codes that are shorter than `b` cover.
unfoldable pub below : ℕ → List ℕ → ℕ
below b [] = 0
below b (len ∷ lengths) = (if ltb 0 len && ltb len b then span len else 0) + below b lengths

-- The first code of each length.
unfoldable pub first : List ℕ → ℕ → ℕ
first lengths zero = 0
first lengths (suc zero) = 0
first lengths (suc (suc b)) = (first lengths (suc b) + occ (suc b) lengths) * 2

abbrev pub len_of : List ℕ → ℕ → ℕ
len_of lengths i = get_or lengths i 0

-- The canonical code of a symbol.
abbrev pub code_of : List ℕ → ℕ → ℕ
code_of lengths i = first lengths (len_of lengths i) + occ (len_of lengths i) (take i lengths)

-- Kraft's inequality, for lengths of at most 15 bits.
pub record IsPrefixFree (lengths : List ℕ) : Type 0 where
  pub short : All (λ len. len ≤ max_len) lengths
  pub kraft : below 16 lengths ≤ 2 ^ max_len

below-one : (lengths : List ℕ) → below 1 lengths ≡ 0
unfolding below
below-one [] = refl
below-one (len ∷ lengths) = ground (arith, below-one lengths)

abbrev part : ℕ → ℕ → ℕ
part b len = if ltb 0 len && ltb len b then span len else 0

part-suc :
    (b len : ℕ)
    → part (suc (suc b)) len ≡ part (suc b) len + (if len == suc b then 1 else 0) * span (suc b)
part-suc b len = elim (Bool-cases (len == suc b)) [
  | inl t ↦
      let e : len ≡ suc b = ==→eq len (suc b) t in
      rw
        (
          t,
          lt→ltb 0 len (omega arith),
          lt→ltb len (suc (suc b)) (omega arith),
          le→ltb len (suc b) (omega arith),
          e,
        )
        (omega arith)
  | inr t ↦ rw t (unchanged (==→ne len (suc b) t))
]
  where
    unchanged : len ≢ suc b → part (suc (suc b)) len ≡ part (suc b) len + 0 * span (suc b)
    unchanged h = ground arith

add_parts : (p q o x y z s : ℕ) → p ≡ q + o * s → x ≡ y + z * s → p + x ≡ q + y + (o + z) * s
add_parts p q o x y z s h k = grind arith

below-suc :
    (b : ℕ) (lengths : List ℕ)
    → below (suc (suc b)) lengths ≡ below (suc b) lengths + occ (suc b) lengths * span (suc b)
unfolding below occ
below-suc b [] = omega arith
below-suc b (len ∷ lengths) =
    add_parts (part (suc (suc b)) len) (part (suc b) len) (if len == suc b then 1 else 0)
      (below (suc (suc b)) lengths) (below (suc b) lengths) (occ (suc b) lengths) (span (suc b))
      (part-suc b len) (below-suc b lengths)

below_mono : (b c : ℕ) (lengths : List ℕ) → b ≤ c → below b lengths ≤ below c lengths
unfolding below
below_mono b c [] h = omega arith
below_mono b c (len ∷ lengths) h = ground (arith, below_mono b c lengths)

first-below :
    (b : ℕ) (lengths : List ℕ)
    → suc b ≤ max_len
    → first lengths (suc b) * span (suc b) ≡ below (suc b) lengths
unfolding first
first-below zero lengths h = omega (arith, below-one lengths)
first-below (suc b) lengths h =
    let half : span (suc b) ≡ span (suc (suc b)) * 2 =
      ap (λ k. 2 ^ k) (omega arith) ∙ pow-suc 2 (max_len - suc (suc b)) in
    let ih = first-below b lengths (omega arith) in
    doubled (first lengths (suc b)) (occ (suc b) lengths) (span (suc (suc b))) (span (suc b))
      (below (suc b) lengths) half ih
    ∙ sym (below-suc b lengths)
  where
    doubled : (f o s t w : ℕ) → t ≡ s * 2 → f * t ≡ w → (f + o) * 2 * s ≡ w + o * t
    doubled f o s t w e h = grind arith

occ-take :
    (i j len : ℕ) (lengths : List ℕ)
    → i < j
    → i < length lengths
    → len_of lengths i ≡ len
    → occ len (take i lengths) + 1 ≤ occ len (take j lengths)
unfolding occ
occ-take i j len [] h k e = absurd (omega arith)
occ-take zero (suc j) len (x ∷ lengths) h k e = ground arith
occ-take (suc i) (suc j) len (x ∷ lengths) h k e = ground (arith, occ-take i j len lengths)
occ-take i zero len (x ∷ lengths) h k e = absurd (omega arith)

occ-take_all :
    (i len : ℕ) (lengths : List ℕ)
    → i < length lengths
    → len_of lengths i ≡ len
    → occ len (take i lengths) + 1 ≤ occ len lengths
unfolding occ
occ-take_all i len [] h e = absurd (omega arith)
occ-take_all zero len (x ∷ lengths) h e = ground arith
occ-take_all (suc i) len (x ∷ lengths) h e = ground (arith, occ-take_all i len lengths)

-- A symbol that has a code.
abbrev pub HasCode : List ℕ → ℕ → Type 0
HasCode lengths i = (i < length lengths) × (0 < len_of lengths i)

short_at :
    (lengths : List ℕ) (i : ℕ) → All (λ len. len ≤ max_len) lengths → len_of lengths i ≤ max_len
short_at [] i h = omega arith
short_at (x ∷ lengths) zero h = h.0
short_at (x ∷ lengths) (suc i) h = short_at lengths i h.1

pub len_of-le : (lengths : List ℕ) (i : ℕ) → IsPrefixFree lengths → len_of lengths i ≤ max_len
len_of-le lengths i free = short_at lengths i free.short

-- The first code of a length fits 15 bits.
pub first-bound :
    (lengths : List ℕ) (len : ℕ)
    → IsPrefixFree lengths
    → len ≤ max_len
    → first lengths len ≤ 2 ^ max_len
first-bound lengths zero free h = unfold first in omega arith
first-bound lengths (suc b) free h =
    scaled (first lengths (suc b)) (span (suc b)) (below (suc b) lengths)
      (pow-pos (max_len - suc b)) (first-below b lengths h)
      (omega (arith, below_mono (suc b) 16 lengths (omega arith), free.kraft))
  where
    scaled : (f s w : ℕ) → 0 < s → f * s ≡ w → w ≤ 2 ^ max_len → f ≤ 2 ^ max_len
    scaled f s w pos e h = grind arith

-- The interval of a code of length `len` that has `k` codes of that length before it.
start-below :
    (lengths : List ℕ) (len k : ℕ)
    → 0 < len
    → len ≤ max_len
    → (first lengths len + k) * span len ≡ below len lengths + k * span len
start-below lengths zero k h l = absurd (omega arith)
start-below lengths (suc b) k h l =
    split (first lengths (suc b)) k (span (suc b)) (below (suc b) lengths) (first-below b lengths l)
  where
    split : (f k s w : ℕ) → f * s ≡ w → (f + k) * s ≡ w + k * s
    split f k s w e = grind arith

end_at :
    (lengths : List ℕ) (len k : ℕ)
    → 0 < len
    → len ≤ max_len
    → k + 1 ≤ occ len lengths
    → (first lengths len + k + 1) * span len ≤ below (suc len) lengths
end_at lengths zero k h l o = absurd (omega arith)
end_at lengths (suc b) k h l o =
    within (first lengths (suc b)) k (occ (suc b) lengths) (span (suc b)) (below (suc b) lengths)
      (below (suc (suc b)) lengths) (first-below b lengths l) (below-suc b lengths) o
  where
    within : (f k o s w v : ℕ) → f * s ≡ w → v ≡ w + o * s → k + 1 ≤ o → (f + k + 1) * s ≤ v
    within f k o s w v e d h = grind arith

-- The next code of the same length still lies below the longer codes.
end-below :
    (lengths : List ℕ) (i : ℕ)
    → HasCode lengths i
    → len_of lengths i ≤ max_len
    → (code_of lengths i + 1) * span (len_of lengths i) ≤ below (suc (len_of lengths i)) lengths
end-below lengths i (h, pos) l =
    end_at lengths (len_of lengths i) (occ (len_of lengths i) (take i lengths)) pos l
      (occ-take_all i (len_of lengths i) lengths h refl)

-- A code is below the next one, in the order of the lengths and the symbols.
pub ends_before :
    (lengths : List ℕ) (i j : ℕ)
    → IsPrefixFree lengths
    → HasCode lengths i
    → HasCode lengths j
    → (len_of lengths i < len_of lengths j) ⊎ ((len_of lengths i ≡ len_of lengths j) × (i < j))
    → (code_of lengths i + 1) * span (len_of lengths i)
      ≤ code_of lengths j * span (len_of lengths j)
ends_before lengths i j free ci cj (inl shorter) =
    let lj = len_of lengths j in
    omega (
      arith,
      end-below lengths i ci (len_of-le lengths i free),
      below_mono (suc (len_of lengths i)) lj lengths shorter,
      start-below lengths lj (occ lj (take j lengths)) cj.1 (len_of-le lengths j free),
    )
ends_before lengths i j free ci cj (inr (same, before)) = rw (← same) (
    ordered (first lengths (len_of lengths i)) _ _ (span (len_of lengths i))
      (occ-take i j (len_of lengths i) lengths before ci.0 refl))
  where
    ordered : (f k m s : ℕ) → k + 1 ≤ m → (f + k + 1) * s ≤ (f + m) * s
    ordered f k m s h = grind arith

-- A code fits its length.
pub code_of-lt :
    (lengths : List ℕ) (i : ℕ)
    → IsPrefixFree lengths
    → HasCode lengths i
    → code_of lengths i < 2 ^ len_of lengths i
code_of-lt lengths i free c =
    let l = len_of lengths i in
    cancel (code_of lengths i) (2 ^ l) (span l) (2 ^ max_len) (pow-pos (max_len - l))
      (pow-split l max_len (len_of-le lengths i free))
      (omega (
        arith,
        end-below lengths i c (len_of-le lengths i free),
        below_mono (suc l) 16 lengths (omega (arith, len_of-le lengths i free)),
        free.kraft,
      ))
  where
    cancel : (c p s t : ℕ) → 0 < s → t ≡ p * s → (c + 1) * s ≤ t → c < p
    cancel c p s t pos e h = grind arith
