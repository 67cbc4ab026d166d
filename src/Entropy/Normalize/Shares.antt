-- ===== src/Entropy/Normalize/Shares.antt =====
-- The proportional shares, and the lists of remainders.
use nexcomp.Base.{
  ℕ, zero, suc, ◌+◌, ◌*◌, ◌/◌, max, ◌≤◌, ◌<◌, ◌≡◌, refl, ap, arith, inl, inr, Bool-cases, ltb,
  lt→ltb, List, [], ◌∷◌, map, length, get_or,
}
use native.Mathlib.Nat.{mul-add, mul-le-mul_left, lt-mul-div-succ, div-le_of_le-mul, mul_comm}
use nexcomp.Base.Words.{u32}
use nexcomp.Entropy.Table.{total, sum}
use nexcomp.Entropy.Normalize.{scaled, fractional}
use nexcomp.Entropy.Normalize.Passes.{IsWithin, Has}

scaled_bounds :
    (t c : ℕ)
    → 0 < t
    → c < t
    → (suc c * total ≤ t * (scaled t (suc c) + 1))
      × (0 < scaled t (suc c))
      × (scaled t (suc c) ≤ total)
unfolding scaled
scaled_bounds t c pos h =
    let q = suc c * total / t in
    let above : suc c * total < t * (q + 1) = lt-mul-div-succ (suc c * total) pos in
    let scale : t * suc c ≤ t * t = mul-le-mul_left t (omega arith) in
    let small : q ≤ total = div-le_of_le-mul t (omega (arith, mul_comm t total)) in
    let same : u32 q ≡ q = omega arith in
    let wider : t * (q + 1) ≤ t * (max q 1 + 1) = mul-le-mul_left t (omega arith) in
    rw same (omega arith, omega arith, omega arith)

scaled_zero : (t : ℕ) → scaled t 0 ≡ 0
unfolding scaled
scaled_zero t = refl

pub shares :
    (t i : ℕ) (counts : List ℕ)
    → 0 < t
    → sum counts ≤ t
    → (sum counts * total
        ≤ t * (sum (map (scaled t) counts) + length (fractional t 0 i counts counts)))
      × (sum (map (scaled t) counts) ≤ length counts * total)
unfolding fractional
shares t i [] pos h = (omega arith, omega arith)
shares t i (zero ∷ counts) pos h =
    let (lower, upper) = shares t (suc i) counts pos (omega arith) in
    let rest = sum (map (scaled t) counts) in
    let k = length (fractional t 0 (suc i) counts counts) in
    let z : 0 + rest + k ≡ rest + k = omega arith in
    rw (scaled_zero t, z) (omega arith, omega arith)
shares t i (suc c ∷ counts) pos h =
    let (lower, upper) = shares t (suc i) counts pos (omega arith) in
    let (above, p, below) = scaled_bounds t c pos (omega arith) in
    let s = scaled t (suc c) in
    let rest = sum (map (scaled t) counts) in
    let k = length (fractional t 0 (suc i) counts counts) in
    let parts : s + rest + suc k ≡ s + 1 + (rest + k) = omega arith in
    let split : t * (s + rest + suc k) ≡ t * (s + 1) + t * (rest + k) =
      rw parts (mul-add t (s + 1) (rest + k)) in
    rw (lt→ltb 0 (suc c) (omega arith)) (omega (arith, split), omega arith)

pub scaled_positive :
    (t j : ℕ) (counts : List ℕ) → 0 < get_or counts j 0 → 0 < get_or (map (scaled t) counts) j 0
unfolding scaled
scaled_positive t j [] h = h
scaled_positive t zero (zero ∷ counts) h = absurd (omega arith)
scaled_positive t zero (suc c ∷ counts) h = omega arith
scaled_positive t (suc j) (c ∷ counts) h = scaled_positive t j counts h

pub length-map : (f : ℕ → ℕ) (xs : List ℕ) → length (map f xs) ≡ length xs
length-map f [] = refl
length-map f (x ∷ xs) = ap suc (length-map f xs)

pub fractional-IsWithin :
    (t bound i n : ℕ) (counts keys : List ℕ)
    → i + length counts ≤ n
    → IsWithin n (fractional t bound i counts keys)
unfolding fractional
fractional-IsWithin t bound i n [] keys h = tt
fractional-IsWithin t bound i n (c ∷ counts) [] h = tt
fractional-IsWithin t bound i n (c ∷ counts) (k ∷ keys) h =
    let rest = fractional-IsWithin t bound (suc i) n counts keys (omega arith) in
    elim (Bool-cases (ltb bound k)) [ inl y ↦ rw y (omega arith, rest) | inr y ↦ rw y rest ]

pub fractional-Has :
    (t bound i j : ℕ) (counts keys : List ℕ)
    → length keys ≤ length counts
    → bound < get_or keys j 0
    → Has (fractional t bound i counts keys) (i + j)
unfolding fractional
fractional-Has t bound i j [] [] h k = absurd (omega arith)
fractional-Has t bound i j [] (key ∷ keys) h k = absurd (omega arith)
fractional-Has t bound i j (c ∷ counts) [] h k = absurd (omega arith)
fractional-Has t bound i zero (c ∷ counts) (key ∷ keys) h k =
    rw (lt→ltb bound key k) (inl (omega arith))
fractional-Has t bound i (suc j) (c ∷ counts) (key ∷ keys) h k =
    let e : suc i + j ≡ i + suc j = omega arith in
    let rest : Has (fractional t bound (suc i) counts keys) (i + suc j) =
      rw e at (fractional-Has t bound (suc i) j counts keys (omega arith) k) in
    elim (Bool-cases (ltb bound key)) [ inl y ↦ rw y (inr rest) | inr y ↦ rw y rest ]
