-- ===== src/Entropy/Normalize/Total.antt =====
-- The guarantees of `normalize_freqs`, for any sorts that keep the entries of a list.
use nexcomp.Base.{
  ℕ, zero, suc, ◌+◌, ◌-◌, ◌^◌, min, ◌≤◌, ◌<◌, ◌≡◌, refl, ◌∙◌, arith, inl, inr, Bool-cases, ltb,
  ltb→lt, ltb→le, le→ltb, ne→==, List, map, length, take_all, get_or, returns,
}
use native.Mathlib.Nat.{le_of_mul-le-mul_left, mul_comm}
use nexcomp.Base.Words.{u32, u64}
use nexcomp.Entropy.Table.{total, sum}
use nexcomp.Entropy.Normalize.{Fraction, scaled, fractional, adjust, normalize_with}
use nexcomp.Entropy.Normalize.Shares.{
  shares, scaled_positive, length-map, fractional-IsWithin, fractional-Has,
}
use nexcomp.Entropy.Normalize.Passes.{IsWithin, Has, give_lem, reclaim_lem}

-- What is asked of a sort: it keeps the number of entries and the symbols.
pub record SortLaws (sort : List Fraction → List Fraction) : Type 0 where
  pub same_length : (xs : List Fraction) → length (sort xs) ≡ length xs
  pub within : (n : ℕ) (xs : List Fraction) → IsWithin n xs → IsWithin n (sort xs)
  pub has : (xs : List Fraction) (i : ℕ) → Has xs i → Has (sort xs) i

-- The frequencies sum up to the total, and a count that is not zero has one that is not zero.
abbrev pub IsNormalized : List ℕ → List ℕ → Type 0
IsNormalized counts freqs =
    (sum freqs ≡ total)
    × (length freqs ≡ length counts)
    × ((i : ℕ) → min 1 (get_or counts i 0) ≤ get_or freqs i 0)

kept : (c f : ℕ) → (0 < c → 0 < f) → min 1 c ≤ f
kept zero f h = omega arith
kept (suc c) f h = omega (arith, h (omega arith))

module _ (descending ascending : List Fraction → List Fraction) (down : SortLaws descending)
    (up : SortLaws ascending) where
  adjust-IsNormalized :
      (counts : List ℕ)
      → 0 < sum counts
      → length counts ≤ total
      → IsNormalized counts
          (adjust descending ascending (sum counts) counts (map (scaled (sum counts)) counts))
  unfolding adjust
  adjust-IsNormalized counts pos short =
      let t = sum counts in
      let freqs = map (scaled t) counts in
      let (lower, upper) = shares t 0 counts pos (omega arith) in
      let assigned : u32 (sum freqs) ≡ sum freqs = omega arith in
      let same : length freqs ≡ length counts = length-map (scaled t) counts in
      let firsts = fractional t 0 0 counts counts in
      let seconds = fractional t 1 0 counts freqs in
      rw assigned (elim (Bool-cases (ltb (sum freqs) total)) [
        | inl y ↦
            let less = ltb→lt (sum freqs) total y in
            let enough : total ≤ sum freqs + length firsts =
              le_of_mul-le-mul_left {k = t} (omega (arith, mul_comm t total)) pos in
            let (s, l, m) =
              give_lem (descending firsts) (total - sum freqs) freqs
                (down.within (length freqs) firsts
                  (fractional-IsWithin t 0 0 (length freqs) counts counts (omega arith)))
                (omega (arith, down.same_length firsts)) in
            rw y (
              omega arith,
              l ∙ same,
              λ i. kept _ _ (λ z. omega (arith, m i, scaled_positive t i counts z)),
            )
        | inr y ↦ elim (Bool-cases (ltb total (sum freqs))) [
          | inl x ↦
              let (s, l, r) =
                reclaim_lem (sum freqs - total) (ascending seconds) (sum freqs - total) freqs
                  (omega arith) (omega arith) (omega (arith, ltb→lt total (sum freqs) x))
                  (λ i z.
                    let e : 0 + i ≡ i = omega arith in
                    up.has seconds i
                      (rw e at (fractional-Has t 1 0 i counts freqs (omega arith) z))) in
              rw (y, x) (s, l ∙ same, λ i. kept _ _ (λ z. (r i).1 (scaled_positive t i counts z)))
          | inr x ↦
              rw (y, x)
                (
                  omega (arith, ltb→le (sum freqs) total y, ltb→le total (sum freqs) x),
                  same,
                  λ i. kept _ _ (λ z. scaled_positive t i counts z),
                )
        ]
      ])

  -- For any sorts that keep the entries of a list, and counts of at most 4096 symbols whose sum is
  -- not zero and fits 64 bits: `normalize_with` returns frequencies that sum up to 4096, one for each
  -- symbol, not zero where the count is not zero.
  pub normalize_with-IsNormalized :
      (counts : List ℕ)
      → 0 < sum counts
      → sum counts < 2 ^ 64
      → length counts ≤ total
      → (freqs : List ℕ) × (normalize_with descending ascending counts (length counts)
          ≡ returns freqs)
        × IsNormalized counts freqs
  unfolding normalize_with
  normalize_with-IsNormalized counts pos fits short =
      let t = sum counts in
      let total_count : u64 t ≡ t = omega arith in
      (
        adjust descending ascending t counts (map (scaled t) counts),
        rw
            (
              total_count,
              take_all (length counts) counts (omega arith),
              ne→== t 0 (λ z. absurd (omega arith)),
              le→ltb (length counts) (length counts) (omega arith),
            )
            refl,
        adjust-IsNormalized counts pos short,
      )
