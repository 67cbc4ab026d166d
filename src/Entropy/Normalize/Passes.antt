-- ===== src/Entropy/Normalize/Passes.antt =====
-- What giving out and taking back do to the sum and to each frequency.
use nexcomp.Base.{
  ℕ, zero, suc, ◌+◌, ◌≤◌, ◌<◌, ◌≡◌, refl, ap, ◌∙◌, arith, inl, inr, ◌⊎◌, Bool, true, false,
  Bool-cases, ltb, ltb→lt, ltb→le, List, [], ◌∷◌, All, length, get_or,
}
use nexcomp.Entropy.Table.{total, sum}
use nexcomp.Entropy.Normalize.{Fraction, add_one, take_one, give, reclaim_pass, reclaim}

length-add_one : (idx : ℕ) (freqs : List ℕ) → length (add_one idx freqs) ≡ length freqs
unfolding add_one
length-add_one idx [] = refl
length-add_one zero (f ∷ freqs) = refl
length-add_one (suc idx) (f ∷ freqs) = ap suc (length-add_one idx freqs)

sum-add_one :
    (idx : ℕ) (freqs : List ℕ) → idx < length freqs → sum (add_one idx freqs) ≡ suc (sum freqs)
unfolding add_one
sum-add_one idx [] h = absurd (omega arith)
sum-add_one zero (f ∷ freqs) h = omega arith
sum-add_one (suc idx) (f ∷ freqs) h = omega (arith, sum-add_one idx freqs (omega arith))

add_one-le : (idx i : ℕ) (freqs : List ℕ) → get_or freqs i 0 ≤ get_or (add_one idx freqs) i 0
unfolding add_one
add_one-le idx i [] = omega arith
add_one-le zero zero (f ∷ freqs) = omega arith
add_one-le zero (suc i) (f ∷ freqs) = omega arith
add_one-le (suc idx) zero (f ∷ freqs) = omega arith
add_one-le (suc idx) (suc i) (f ∷ freqs) = add_one-le idx i freqs

-- The indices of the list are symbols.
abbrev pub IsWithin : ℕ → List Fraction → Type 0
IsWithin n order = All (λ x. x.1 < n) order

pub give_lem :
    (order : List Fraction) (remainder : ℕ) (freqs : List ℕ)
    → IsWithin (length freqs) order
    → remainder ≤ length order
    → (sum (give order remainder freqs) ≡ sum freqs + remainder)
      × (length (give order remainder freqs) ≡ length freqs)
      × ((i : ℕ) → get_or freqs i 0 ≤ get_or (give order remainder freqs) i 0)
unfolding give
give_lem [] remainder freqs h k = (omega arith, refl, λ i. omega arith)
give_lem (x ∷ order) zero freqs h k = (omega arith, refl, λ i. omega arith)
give_lem ((fraction, idx) ∷ order) (suc remainder) freqs (hx, h) k =
    let same : length (add_one idx freqs) ≡ length freqs = length-add_one idx freqs in
    let (s, l, m) = give_lem order remainder (add_one idx freqs) (rw same h) (omega arith) in
    (
      omega (arith, sum-add_one idx freqs hx),
      l ∙ same,
      λ i. omega (arith, add_one-le idx i freqs, m i),
    )

length-take_one : (idx : ℕ) (freqs : List ℕ) → length (take_one idx freqs) ≡ length freqs
unfolding take_one
length-take_one idx [] = refl
length-take_one zero (f ∷ freqs) = refl
length-take_one (suc idx) (f ∷ freqs) = ap suc (length-take_one idx freqs)

sum-take_one :
    (idx : ℕ) (freqs : List ℕ) → 1 < get_or freqs idx 0 → suc (sum (take_one idx freqs)) ≡ sum freqs
unfolding take_one
sum-take_one idx [] h = absurd (omega arith)
sum-take_one zero (f ∷ freqs) h = omega arith
sum-take_one (suc idx) (f ∷ freqs) h = omega (arith, sum-take_one idx freqs h)

-- A frequency does not grow, and one that was not zero stays so.
abbrev Reduced : List ℕ → List ℕ → Type 0
Reduced freqs freqs' =
    (i : ℕ)
    → (get_or freqs' i 0 ≤ get_or freqs i 0) × (0 < get_or freqs i 0 → 0 < get_or freqs' i 0)

take_one-Reduced :
    (idx : ℕ) (freqs : List ℕ) → 1 < get_or freqs idx 0 → Reduced freqs (take_one idx freqs)
unfolding take_one
take_one-Reduced idx [] h i = (omega arith, λ z. z)
take_one-Reduced zero (f ∷ freqs) h zero = (omega arith, λ z. omega arith)
take_one-Reduced zero (f ∷ freqs) h (suc i) = (omega arith, λ z. z)
take_one-Reduced (suc idx) (f ∷ freqs) h zero = (omega arith, λ z. z)
take_one-Reduced (suc idx) (f ∷ freqs) h (suc i) = take_one-Reduced idx freqs h i

-- One pass moves as much from the sum as from the excess; without progress nothing changed, and no
-- listed frequency is above 1.
abbrev Passed : List Fraction → ℕ → List ℕ → Bool → List ℕ × ℕ × Bool → Type 0
Passed order excess freqs made (freqs', excess', made') =
    (sum freqs + excess' ≡ sum freqs' + excess)
    × (length freqs' ≡ length freqs)
    × Reduced freqs freqs'
    × (excess' ≤ excess)
    × ((made' ≡ false)
        → (made ≡ false)
          × (freqs' ≡ freqs)
          × ((0 < excess) → All (λ x. get_or freqs x.1 0 ≤ 1) order))
    × ((made ≡ false) → (made' ≡ true) → excess' < excess)

pass-Passed :
    (order : List Fraction) (excess : ℕ) (freqs : List ℕ) (made : Bool)
    → Passed order excess freqs made (reclaim_pass order excess freqs made)
unfolding reclaim_pass
pass-Passed [] excess freqs made =
    (refl, refl, λ i. (omega arith, λ z. z), omega arith, λ z. (z, refl, λ p. tt), λ y z. cc)
pass-Passed (x ∷ order) zero freqs made = (
  refl,
  refl,
  λ i. (omega arith, λ z. z),
  omega arith,
  λ z. (z, refl, λ p. absurd (omega arith)),
  λ y z. cc,
)
pass-Passed ((fraction, idx) ∷ order) (suc excess) freqs made =
    elim (Bool-cases (ltb 1 (get_or freqs idx 0))) [
      | inl t ↦
          let (s, l, r, le, none_made, some_made) =
            pass-Passed order excess (take_one idx freqs) true in
          rw t (
            omega (arith, sum-take_one idx freqs (ltb→lt 1 _ t)),
            l ∙ length-take_one idx freqs,
            λ i.
                let (down, pos) = take_one-Reduced idx freqs (ltb→lt 1 _ t) i in
                (omega (arith, (r i).0), λ z. (r i).1 (pos z)),
            omega arith,
            λ z. absurd (let never = (none_made z).0 in cc),
            λ y z. omega arith,
          )
      | inr t ↦
          let (s, l, r, le, none_made, some_made) = pass-Passed order (suc excess) freqs made in
          rw t (
            s,
            l,
            r,
            le,
            λ z. let (a, b, c) = none_made z in (a, b, λ p. (ltb→le 1 _ t, c p)),
            some_made,
          )
    ]

-- Every frequency above 1 has its symbol in the list.
abbrev pub Has : List Fraction → ℕ → Type 0
Has [] i = ⊥
Has (x ∷ order) i = (x.1 ≡ i) ⊎ Has order i

abbrev Lists : List Fraction → List ℕ → Type 0
Lists order freqs = (i : ℕ) → 1 < get_or freqs i 0 → Has order i

bounded_listed :
    (order : List Fraction) (freqs : List ℕ) (i : ℕ)
    → All (λ x. get_or freqs x.1 0 ≤ 1) order
    → Has order i
    → get_or freqs i 0 ≤ 1
bounded_listed [] freqs i h m = elim m [ ]
bounded_listed (x ∷ order) freqs i (h, hs) (inl e) = rw (← e) h
bounded_listed (x ∷ order) freqs i (h, hs) (inr m) = bounded_listed order freqs i hs m

sum-le_length : (freqs : List ℕ) → ((i : ℕ) → get_or freqs i 0 ≤ 1) → sum freqs ≤ length freqs
sum-le_length [] h = omega arith
sum-le_length (f ∷ freqs) h = omega (arith, h 0, sum-le_length freqs (λ i. h (suc i)))

bounded_everywhere :
    (order : List Fraction) (freqs : List ℕ)
    → Lists order freqs
    → All (λ x. get_or freqs x.1 0 ≤ 1) order
    → (i : ℕ) → get_or freqs i 0 ≤ 1
bounded_everywhere order freqs lists h i = elim (Bool-cases (ltb 1 (get_or freqs i 0))) [
  | inl t ↦ bounded_listed order freqs i h (lists i (ltb→lt 1 _ t))
  | inr t ↦ ltb→le 1 _ t
]

-- Taking back ends at the total: with at most as many symbols as the total, a pass without progress
-- means that nothing was left to take.
pub reclaim_lem :
    (fuel : ℕ) (order : List Fraction) (excess : ℕ) (freqs : List ℕ)
    → excess ≤ fuel
    → length freqs ≤ total
    → sum freqs ≡ total + excess
    → Lists order freqs
    → (sum (reclaim fuel order excess freqs) ≡ total)
      × (length (reclaim fuel order excess freqs) ≡ length freqs)
      × Reduced freqs (reclaim fuel order excess freqs)
unfolding reclaim
reclaim_lem zero order excess freqs h n s lists = (omega arith, refl, λ i. (omega arith, λ z. z))
reclaim_lem (suc fuel) order zero freqs h n s lists =
    (omega arith, refl, λ i. (omega arith, λ z. z))
reclaim_lem (suc fuel) order (suc excess) freqs h n s lists =
    let after = reclaim_pass order (suc excess) freqs false in
    let (sums, same, reduced, le, none_made, some_made) =
      pass-Passed order (suc excess) freqs false in
    elim (Bool-cases after.2) [
      | inl t ↦
          let (s', l', r') =
            reclaim_lem fuel order after.1 after.0 (omega (arith, some_made refl t)) (omega arith)
              (omega arith) (λ i z. lists i (omega (arith, (reduced i).0))) in
          rw t (
            s',
            l' ∙ same,
            λ i. (omega (arith, (reduced i).0, (r' i).0), λ z. (r' i).1 ((reduced i).1 z)),
          )
      | inr t ↦
          let (y, unchanged, low) = none_made t in
          absurd (
            omega (
              arith,
              sum-le_length freqs (bounded_everywhere order freqs lists (low (omega arith))),
            ))
    ]
