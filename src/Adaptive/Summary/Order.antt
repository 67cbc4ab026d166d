-- ===== src/Adaptive/Summary/Order.antt =====
-- The order of the names that `codec_summary` of src/adaptive.rs lists.
use nexcomp.Base.{
  ◌≡◌, refl, sym, ap, ◌∙◌, Bool-cases, inl, inr, true, ◌||◌, List, [], ◌∷◌, ◌++◌, map, append-nil,
  if◌then◌else◌,
}
use text.Mathlib.TextEquality.{eq_iff}
use text.Mathlib.Text.{◌==◌}
use nexcomp.Adaptive.{name, String}
use nexcomp.Adaptive.Wire.{BlockInfo}
use nexcomp.Adaptive.Summary.{contains, snoc, first_seen}

abbrev pub codec_names : List BlockInfo → List String
codec_names blocks = map (λ (block : BlockInfo). name block.codec) blocks

-- What of the second list does not stand in the first.
without : List String → List String → List String
unfolding contains
without names [] = []
without names (x ∷ xs) = let rest = without names xs in if contains names x then rest else x ∷ rest

-- The first of each text, in their order.
pub firsts : List String → List String
unfolding without
firsts [] = []
firsts (n ∷ names) = n ∷ without (n ∷ []) (firsts names)

contains-snoc :
    (names : List String) (n x : String)
    → contains (snoc names n) x ≡ (contains names x || (n == x))
unfolding contains snoc
contains-snoc [] n x = elim (Bool-cases (n == x)) [ inl t ↦ rw t refl | inr t ↦ rw t refl ]
contains-snoc (m ∷ names) n x = elim (Bool-cases (m == x)) [
  | inl t ↦ rw t refl
  | inr t ↦ rw t (contains-snoc names n x)
]

without-nil : (xs : List String) → without [] xs ≡ xs
unfolding without contains
without-nil [] = refl
without-nil (x ∷ xs) = ap (λ t. x ∷ t) (without-nil xs)

-- A text that is among the names need not be taken out before.
without-present :
    (names : List String) (n : String) (xs : List String)
    → contains names n ≡ true
    → without names (without (n ∷ []) xs) ≡ without names xs
unfolding without
without-present names n [] h = refl
without-present names n (x ∷ xs) h =
    let ih = without-present names n xs h in
    elim (Bool-cases (n == x)) [
      | inl t ↦
          let here : contains names x ≡ true = ap (contains names) (sym ((eq_iff n x).0 t)) ∙ h in
          rw (t, here) ih
      | inr t ↦ (elim (Bool-cases (contains names x)) [
        | inl k ↦ rw (t, k) ih
        | inr k ↦ rw (t, k) (ap (λ r. x ∷ r) ih)
      ])
    ]

without-snoc :
    (names : List String) (n : String) (xs : List String)
    → without (snoc names n) xs ≡ without names (without (n ∷ []) xs)
unfolding without
without-snoc names n [] = refl
without-snoc names n (x ∷ xs) =
    let ih = without-snoc names n xs in
    rw (contains-snoc names n x) (elim (Bool-cases (n == x)) [
      | inl t ↦ (elim (Bool-cases (contains names x)) [
        | inl k ↦ rw (t, k) ih
        | inr k ↦ rw (t, k) ih
      ])
      | inr t ↦ (elim (Bool-cases (contains names x)) [
        | inl k ↦ rw (t, k) ih
        | inr k ↦ rw (t, k) (ap (λ r. x ∷ r) ih)
      ])
    ])

snoc-append :
    (names : List String) (n : String) (xs : List String) → snoc names n ++ xs ≡ names ++ (n ∷ xs)
unfolding snoc
snoc-append [] n xs = refl
snoc-append (m ∷ names) n xs = ap (λ t. m ∷ t) (snoc-append names n xs)

first_seen-firsts :
    (blocks : List BlockInfo) (names : List String)
    → first_seen blocks names ≡ names ++ without names (firsts (codec_names blocks))
unfolding first_seen firsts without
first_seen-firsts [] names = sym (append-nil names)
first_seen-firsts (block ∷ blocks) names =
    let n = name block.codec in
    let later = firsts (codec_names blocks) in
    elim (Bool-cases (contains names n)) [
      | inl t ↦ rw t (
          first_seen-firsts blocks names
          ∙ ap (λ r. names ++ r) (sym (without-present names n later t)))
      | inr t ↦ rw t (
          first_seen-firsts blocks (snoc names n)
          ∙ snoc-append names n (without (snoc names n) later)
          ∙ ap (λ r. names ++ (n ∷ r)) (without-snoc names n later))
    ]

pub first_seen-nil : (blocks : List BlockInfo) → first_seen blocks [] ≡ firsts (codec_names blocks)
first_seen-nil blocks = first_seen-firsts blocks [] ∙ without-nil (firsts (codec_names blocks))
