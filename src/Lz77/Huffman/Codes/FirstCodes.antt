-- ===== src/Lz77/Huffman/Codes/FirstCodes.antt =====
-- The loops of `canonical_codes` that count the lengths and compute the first codes.
use nexcomp.Base.{
  ℕ, zero, suc, ◌+◌, ◌-◌, ◌*◌, ◌^◌, ◌<◌, ◌≤◌, ◌≡◌, ◌⊎◌, refl, sym, ap, ◌∙◌, arith, inl, inr,
  Bool-cases, List, [], ◌∷◌, length, ◌==◌, ==→eq, ==→ne,
}
use nexcomp.Base.Words.{u32}
use nexcomp.Base.Arrays.{update, update_same, update_other}
use nexcomp.Lz77.Huffman.Codes.{count_lengths, fill_next, max_len}
use nexcomp.Lz77.Huffman.Codes.Intervals.{occ, first, IsPrefixFree, first-bound}

Nat-split : (m n : ℕ) → m ≤ n → (m ≡ n) ⊎ (m < n)
Nat-split m n h = elim (Bool-cases (m == n)) [
  | inl t ↦ inl (==→eq m n t)
  | inr t ↦ inr (omega (arith, ==→ne m n t))
]

pub occ-length : (b : ℕ) (lengths : List ℕ) → occ b lengths ≤ length lengths
unfolding occ
occ-length b [] = omega arith
occ-length b (len ∷ lengths) = ground (arith, occ-length b lengths)

count_lengths-zero : (lengths : List ℕ) (count : ℕ → ℕ) → count_lengths lengths count 0 ≡ count 0
unfolding count_lengths
count_lengths-zero [] count = refl
count_lengths-zero (zero ∷ lengths) count = count_lengths-zero lengths count
count_lengths-zero (suc l ∷ lengths) count =
    count_lengths-zero lengths (update count (suc l) (u32 (count (suc l) + 1)))
    ∙ update_other count (suc l) 0 (u32 (count (suc l) + 1)) (omega arith)

count_lengths-occ :
    (lengths : List ℕ) (count : ℕ → ℕ) (b : ℕ)
    → 0 < b
    → count b + length lengths < 2 ^ 32
    → count_lengths lengths count b ≡ count b + occ b lengths
unfolding count_lengths occ
count_lengths-occ [] count b h k = omega arith
count_lengths-occ (zero ∷ lengths) count b h k = ground (arith, count_lengths-occ lengths count b)
count_lengths-occ (suc l ∷ lengths) count b h k = elim (Bool-cases (suc l == b)) [
  | inl t ↦
      let e : suc l ≡ b = ==→eq (suc l) b t in
      let c = update count (suc l) (u32 (count (suc l) + 1)) in
      let here : c b ≡ count b + 1 =
        update_same count (suc l) b (u32 (count (suc l) + 1)) (sym e) ∙ rw e (omega arith) in
      rw t (count_lengths-occ lengths c b h (omega arith) ∙ omega arith)
  | inr t ↦
      let c = update count (suc l) (u32 (count (suc l) + 1)) in
      let here : c b ≡ count b =
        update_other count (suc l) b (u32 (count (suc l) + 1)) (λ e. ==→ne (suc l) b t (sym e)) in
      rw t (count_lengths-occ lengths c b h (omega arith) ∙ omega arith)
]

-- The lengths are those of a prefix code, of fewer symbols than a word counts.
module _ (lengths : List ℕ) (free : IsPrefixFree lengths) (few : length lengths < 2 ^ 16) where
  abbrev pub counts : ℕ → ℕ
  counts = count_lengths lengths (λ b. 0)

  -- One round computes the next first code.
  next_first :
      (b : ℕ) → suc b ≤ max_len → u32 ((first lengths b + counts b) * 2) ≡ first lengths (suc b)
  next_first zero h =
      let nothing : first lengths 0 ≡ 0 = unfold first in refl in
      let one : first lengths 1 ≡ 0 = unfold first in refl in
      rw (nothing, one, count_lengths-zero lengths (λ b. 0)) (omega arith)
  next_first (suc b) h =
      let counted : counts (suc b) ≡ 0 + occ (suc b) lengths =
        count_lengths-occ lengths (λ b'. 0) (suc b) (omega arith) (omega arith) in
      let whole : (first lengths (suc b) + occ (suc b) lengths) * 2 ≡ first lengths (suc (suc b)) =
        unfold first in refl in
      omega (arith, counted, whole, first-bound lengths (suc (suc b)) free h)

  fill_next-keeps :
      (rounds b j : ℕ) (code : ℕ) (next : ℕ → ℕ)
      → j < b
      → fill_next rounds b code counts next j ≡ next j
  unfolding fill_next
  fill_next-keeps zero b j code next h = refl
  fill_next-keeps (suc rounds) b j code next h =
      fill_next-keeps rounds (b + 1) j (u32 ((code + counts (b - 1)) * 2)) _ (omega arith)
      ∙ update_other next b j _ (omega arith)

  pub fill_next-first :
      (rounds b j : ℕ) (next : ℕ → ℕ)
      → b < j
      → j ≤ b + rounds
      → j ≤ max_len
      → fill_next rounds (suc b) (first lengths b) counts next j ≡ first lengths j
  unfolding fill_next
  fill_next-first zero b j next h k l = absurd (omega arith)
  fill_next-first (suc rounds) b j next h k l =
      let start : suc b - 1 ≡ b = omega arith in
      let after : suc b + 1 ≡ suc (suc b) = omega arith in
      let code' : u32 ((first lengths b + counts (suc b - 1)) * 2) ≡ first lengths (suc b) =
        rw start (next_first b (omega arith)) in
      rw (code', after)
        (elim (Nat-split (suc b) j (omega arith)) [
          | inl e ↦
              fill_next-keeps rounds (suc (suc b)) j (first lengths (suc b)) _ (omega arith)
              ∙ update_same next (suc b) j (first lengths (suc b)) (sym e)
              ∙ ap (λ k. first lengths k) e
          | inr e ↦
              fill_next-first rounds (suc b) j (update next (suc b) (first lengths (suc b))) e
                (omega arith) l
        ])
