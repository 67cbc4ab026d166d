-- ===== src/Entropy/Normalize/Sorting.antt =====
-- Insertion sort keeps the entries of its list, and what this makes of `normalize_freqs`.
use nexcomp.Base.{
  ℕ, suc, ◌^◌, ◌≤◌, ◌<◌, ◌≡◌, ap, ◌∙◌, inl, inr, Bool, Bool-cases, List, [], ◌∷◌, length, returns,
  refl,
}
use nexcomp.Entropy.Table.{total, sum}
use nexcomp.Entropy.Normalize.{Fraction, insert_by, larger, smaller, sort_by, normalize_freqs}
use nexcomp.Entropy.Normalize.Passes.{IsWithin, Has}
use nexcomp.Entropy.Normalize.Total.{SortLaws, IsNormalized, normalize_with-IsNormalized}

module _ (before : Fraction → Fraction → Bool) where
  length-insert_by :
      (x : Fraction) (ys : List Fraction) → length (insert_by before x ys) ≡ suc (length ys)
  length-insert_by x [] = refl
  length-insert_by x (y ∷ ys) = elim (Bool-cases (before x y)) [
    | inl t ↦ rw t refl
    | inr t ↦ rw (t, length-insert_by x ys) refl
  ]

  insert_by-IsWithin :
      (n : ℕ) (x : Fraction) (ys : List Fraction)
      → x.1 < n
      → IsWithin n ys
      → IsWithin n (insert_by before x ys)
  insert_by-IsWithin n x [] h hs = (h, tt)
  insert_by-IsWithin n x (y ∷ ys) h (hy, hs) = elim (Bool-cases (before x y)) [
    | inl t ↦ rw t (h, (hy, hs))
    | inr t ↦ rw t (hy, insert_by-IsWithin n x ys h hs)
  ]

  insert_by-Has :
      (x : Fraction) (ys : List Fraction) (i : ℕ) → Has (x ∷ ys) i → Has (insert_by before x ys) i
  insert_by-Has x [] i m = m
  insert_by-Has x (y ∷ ys) i m = elim (Bool-cases (before x y)) [
    | inl t ↦ rw t m
    | inr t ↦ rw t (elim m [
      | inl e ↦ inr (insert_by-Has x ys i (inl e))
      | inr (inl e) ↦ inl e
      | inr (inr k) ↦ inr (insert_by-Has x ys i (inr k))
    ])
  ]

  length-sort_by : (xs : List Fraction) → length (sort_by before xs) ≡ length xs
  unfolding sort_by
  length-sort_by [] = refl
  length-sort_by (x ∷ xs) = length-insert_by x (sort_by before xs) ∙ ap suc (length-sort_by xs)

  sort_by-IsWithin : (n : ℕ) (xs : List Fraction) → IsWithin n xs → IsWithin n (sort_by before xs)
  unfolding sort_by
  sort_by-IsWithin n [] h = h
  sort_by-IsWithin n (x ∷ xs) (h, hs) =
      insert_by-IsWithin n x (sort_by before xs) h (sort_by-IsWithin n xs hs)

  sort_by-Has : (xs : List Fraction) (i : ℕ) → Has xs i → Has (sort_by before xs) i
  unfolding sort_by
  sort_by-Has [] i m = elim m [ ]
  sort_by-Has (x ∷ xs) i (inl e) = insert_by-Has x (sort_by before xs) i (inl e)
  sort_by-Has (x ∷ xs) i (inr m) = insert_by-Has x (sort_by before xs) i (inr (sort_by-Has xs i m))

  sort_by-SortLaws : SortLaws (sort_by before)
  sort_by-SortLaws = record {
    same_length = length-sort_by;
    within = sort_by-IsWithin;
    has = sort_by-Has;
  }

-- For counts of at most 4096 symbols whose sum is not zero and fits 64 bits, `normalize_freqs`
-- returns frequencies that sum up to 4096, one for each symbol, not zero where the count is not zero.
pub normalize_freqs-IsNormalized :
    (counts : List ℕ)
    → 0 < sum counts
    → sum counts < 2 ^ 64
    → length counts ≤ total
    → (freqs : List ℕ) × (normalize_freqs counts (length counts) ≡ returns freqs)
      × IsNormalized counts freqs
unfolding normalize_freqs
normalize_freqs-IsNormalized counts pos fits short =
    normalize_with-IsNormalized (sort_by larger) (sort_by smaller) (sort_by-SortLaws larger)
      (sort_by-SortLaws smaller) counts pos fits short
