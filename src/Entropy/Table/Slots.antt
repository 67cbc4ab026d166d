-- ===== src/Entropy/Table/Slots.antt =====
-- The slots of a symbol are those between its cumulative sum and the next one.
use nexcomp.Base.{
  ℕ, zero, suc, ◌+◌, ◌^◌, ◌≤◌, ◌<◌, ◌≡◌, refl, ◌∙◌, arith, List, [], ◌∷◌, inl, inr, Bool-cases,
  ◌==◌, ==→eq, ==→ne, le→leb, lt→ltb, gt→leb, length, take, get_or,
}
use nexcomp.Base.Words.{u8, u32}
use nexcomp.Entropy.Table.{total, sum, accumulate, fill, fill_symbols}

-- The sum of the frequencies below a symbol.
abbrev pub below : List ℕ → ℕ → ℕ
below freqs s = sum (take s freqs)

pub below_step : (freqs : List ℕ) (s : ℕ) → below freqs (suc s) ≡ below freqs s + get_or freqs s 0
below_step [] zero = refl
below_step [] (suc s) = refl
below_step (f ∷ freqs) zero = omega arith
below_step (f ∷ freqs) (suc s) = omega (arith, below_step freqs s)

pub below_total : (freqs : List ℕ) (s : ℕ) → below freqs s ≤ sum freqs
below_total freqs zero = omega arith
below_total [] (suc s) = omega arith
below_total (f ∷ freqs) (suc s) = omega (arith, below_total freqs s)

below_mono : (freqs : List ℕ) (s t : ℕ) → s ≤ t → below freqs s ≤ below freqs t
below_mono freqs zero t h = omega arith
below_mono freqs (suc s) zero h = absurd (omega arith)
below_mono [] (suc s) (suc t) h = omega arith
below_mono (f ∷ freqs) (suc s) (suc t) h = omega (arith, below_mono freqs s t (omega arith))

-- Without overflow, the entries of `cumul` are these sums.
accumulate_at :
    (last : ℕ) (freqs : List ℕ) (s : ℕ)
    → last + sum freqs < 2 ^ 32
    → s ≤ length freqs
    → get_or (accumulate last freqs) s 0 ≡ last + below freqs s
unfolding accumulate
accumulate_at last [] zero h k = omega arith
accumulate_at last [] (suc s) h k = absurd (omega arith)
accumulate_at last (f ∷ freqs) zero h k = omega arith
accumulate_at last (f ∷ freqs) (suc s) h k =
    let e : u32 (last + f) ≡ last + f = omega arith in
    rw e (accumulate_at (last + f) freqs s (omega arith) (omega arith) ∙ omega arith)

pub cumul_at :
    (freqs : List ℕ) (s : ℕ)
    → sum freqs ≡ total
    → s ≤ length freqs
    → get_or (accumulate 0 freqs) s 0 ≡ below freqs s
cumul_at freqs s h k = accumulate_at 0 freqs s (omega arith) k ∙ omega arith

-- A slot between the sums of a symbol is filled with the symbol.
pub fill_symbols-slot :
    (freqs : List ℕ) (n s slot : ℕ)
    → sum freqs ≡ total
    → s < n
    → n ≤ length freqs
    → below freqs s ≤ slot
    → slot < below freqs (suc s)
    → fill_symbols n (accumulate 0 freqs) slot ≡ u8 s
unfolding fill_symbols fill
fill_symbols-slot freqs zero s slot full sn nl lo hi = absurd (omega arith)
fill_symbols-slot freqs (suc n) s slot full sn nl lo hi = elim (Bool-cases (s == n)) [
  | inl t ↦
      let e : s ≡ n = ==→eq s n t in
      rw
        (
          cumul_at freqs n full (omega arith),
          cumul_at freqs (suc n) full nl,
          ← e,
          le→leb (below freqs s) slot lo,
          lt→ltb slot (below freqs (suc s)) hi,
        )
        refl
  | inr t ↦
      let smaller : s < n = omega (arith, ==→ne s n t) in
      let early : slot < below freqs n = omega (arith, below_mono freqs (suc s) n (omega arith)) in
      rw
        (
          cumul_at freqs n full (omega arith),
          cumul_at freqs (suc n) full nl,
          gt→leb (below freqs n) slot early,
        )
        (fill_symbols-slot freqs n s slot full smaller (omega arith) lo hi)
]
