-- ===== src/Lz77/Huffman/Lengths/Capping.antt =====
-- Counting the codes, with those of more than 15 bits cut to 15.
use nexcomp.Base.{
  ℕ, ◌+◌, ◌*◌, ◌≤◌, ◌≡◌, ◌≢◌, refl, sym, ap, ◌∙◌, arith, inl, inr, Bool-cases, List, [], ◌∷◌,
  length, All, min, ltb, ltb→lt, ltb→le, le→leb, gt→leb, ◌==◌, ==→eq, ==→ne, if◌then◌else◌,
}
use nexcomp.Base.Arrays.{update, update_same, update_other}
use nexcomp.Lz77.Huffman.Codes.{max_len}
use nexcomp.Lz77.Huffman.Codes.Intervals.{span}
use nexcomp.Lz77.Huffman.Lengths.{Capped, cap_one, cap_all}
use nexcomp.Lz77.Huffman.Lengths.Tree.{share_at}
use nexcomp.Lz77.Huffman.Lengths.Leaves.{IsDepth, shares}
use nexcomp.Lz77.Huffman.Lengths.Nonzero.{Distinct}
use nexcomp.Lz77.Huffman.Lengths.Limit.{sum_to, sum_to-update, one, codes_in, covered}

-- What does not depend on one entry.
shares-update :
    (lengths : ℕ → ℕ) (s v : ℕ) (symbols : List ℕ)
    → All (λ t. s ≢ t) symbols
    → shares (update lengths s v) symbols ≡ shares lengths symbols
unfolding shares
shares-update lengths s v [] h = refl
shares-update lengths s v (t ∷ symbols) (ne, h) =
    let same = update_other lengths s t v (λ e. ne (sym e)) in
    rw (same, shares-update lengths s v symbols h) refl

depths-update :
    (lengths : ℕ → ℕ) (s v : ℕ) (symbols : List ℕ)
    → All (λ t. s ≢ t) symbols
    → All (λ t. IsDepth (lengths t)) symbols
    → All (λ t. IsDepth (update lengths s v t)) symbols
depths-update lengths s v [] h d = tt
depths-update lengths s v (t ∷ symbols) (ne, h) (d, ds) =
    let same = update_other lengths s t v (λ e. ne (sym e)) in
    (rw same d, depths-update lengths s v symbols h ds)

-- A code that is counted adds its share, or overflows.
sum_to-counted :
    (factor count : ℕ → ℕ) (i : ℕ)
    → 1 ≤ i
    → i ≤ max_len
    → sum_to factor (update count i (count i + 1)) max_len ≡ sum_to factor count max_len + factor i
sum_to-counted factor count i h k =
    added (sum_to factor (update count i (count i + 1)) max_len) (sum_to factor count max_len)
      (count i) (factor i) (sum_to-update factor count max_len i (count i + 1) h k)
  where
    added : (s t c f : ℕ) → s + c * f ≡ t + (c + 1) * f → s ≡ t + f
    added s t c f e = grind arith

excess : ℕ → ℕ
excess d = if ltb max_len d then 1 else 0

share-capped : (d : ℕ) → 1 ≤ d → span (min d max_len) ≡ share_at d + excess d
unfolding excess
share-capped d h = elim (Bool-cases (ltb max_len d)) [
  | inl t ↦
      let over = ltb→lt max_len d t in
      let e : min d max_len ≡ max_len = omega arith in rw (t, gt→leb d max_len over, e) refl
  | inr t ↦
      let within = ltb→le max_len d t in
      let e : min d max_len ≡ d = omega arith in rw (t, le→leb d max_len within, e) (omega arith)
]

overflow_lem : (c : Capped) (s : ℕ) → (cap_one s c).overflow ≡ c.overflow + excess (c.lengths s)
unfolding excess
overflow_lem c s = elim (Bool-cases (ltb max_len (c.lengths s))) [
  | inl t ↦ rw t refl
  | inr t ↦ rw t (omega arith)
]

-- What the counting of all symbols leads to.
pub record Counts (symbols : List ℕ) (c final : Capped) : Type 0 where
  pub covered_lem :
      covered final.count + c.overflow ≡ covered c.count + shares c.lengths symbols + final.overflow
  pub total : codes_in final.count ≡ codes_in c.count + length symbols
  pub longest : final.overflow + c.count max_len ≤ final.count max_len + c.overflow
  pub other : (i : ℕ) → All (λ s. i ≢ s) symbols → final.lengths i ≡ c.lengths i

counted-ge : (count : ℕ → ℕ) (i j : ℕ) → count j ≤ update count i (count i + 1) j
counted-ge count i j = elim (Bool-cases (j == i)) [
  | inl t ↦
      let e = ==→eq j i t in
      let here = update_same count i j (count i + 1) e in
      let same : count j ≡ count i = ap count e in omega arith
  | inr t ↦ let here = update_other count i j (count i + 1) (==→ne j i t) in omega arith
]

cap_one-longest :
    (c : Capped) (s : ℕ)
    → (cap_one s c).overflow + c.count max_len ≤ (cap_one s c).count max_len + c.overflow
cap_one-longest c s = elim (Bool-cases (ltb max_len (c.lengths s))) [
  | inl t ↦
      let e : min (c.lengths s) max_len ≡ max_len = omega (arith, ltb→lt max_len (c.lengths s) t) in
      let here =
        update_same c.count (min (c.lengths s) max_len) max_len
          (c.count (min (c.lengths s) max_len) + 1) (sym e) in
      let same : c.count (min (c.lengths s) max_len) ≡ c.count max_len = ap c.count e in
      rw t (omega arith)
  | inr t ↦ rw t (omega (arith, counted-ge c.count (min (c.lengths s) max_len) max_len))
]

pub cap_all-Counts :
    (symbols : List ℕ) (c : Capped)
    → Distinct symbols
    → All (λ s. IsDepth (c.lengths s)) symbols
    → Counts symbols c (cap_all symbols c)
unfolding cap_all shares
cap_all-Counts [] c d h = record {
  covered_lem = omega arith;
  total = omega arith;
  longest = omega arith;
  other = λ i k. refl;
}
cap_all-Counts (s ∷ symbols) c (new, d) ((low, top), h) =
    let capped = min (c.lengths s) max_len in
    let ih =
      cap_all-Counts symbols (cap_one s c) d (depths-update c.lengths s capped symbols new h) in
    let same = shares-update c.lengths s capped symbols new in
    let covers = sum_to-counted span c.count capped (omega arith) (omega arith) in
    let counts = sum_to-counted one c.count capped (omega arith) (omega arith) in
    record {
      covered_lem = omega (arith, ih.covered_lem, share-capped (c.lengths s) low, overflow_lem c s);
      total = omega (arith, ih.total);
      longest = omega (arith, ih.longest, cap_one-longest c s);
      other = λ i (ne, k). ih.other i k ∙ update_other c.lengths s i capped ne;
    }
