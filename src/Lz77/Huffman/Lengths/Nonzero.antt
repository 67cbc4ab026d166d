-- ===== src/Lz77/Huffman/Lengths/Nonzero.antt =====
-- The symbols that have a frequency, and the heap that starts from them.
use nexcomp.Base.{
  ℕ, zero, suc, ◌+◌, ◌-◌, ◌*◌, ◌^◌, ◌≤◌, ◌<◌, ◌≡◌, ◌≢◌, refl, ap, ◌∙◌, arith, true, Option, none,
  List, [], ◌∷◌, length, get_or, All, ltb, ltb→lt, lt→ltb, inl, inr, Bool-cases,
}
use nexcomp.Lz77.Huffman.Lengths.{Node, nonzero_from, initial_heap}
use nexcomp.Lz77.Huffman.Lengths.Heap.{
  weight, IsSorted, Differ, All-push, length-push, weight-push, push-IsSorted, push-Differ,
}
use nexcomp.Lz77.Huffman.Lengths.Merging.{IsReady}

abbrev pub Distinct : List ℕ → Type 0
Distinct [] = Unit
Distinct (s ∷ symbols) = All (λ t. s ≢ t) symbols × Distinct symbols

pub All-imp : (P Q : ℕ → Type 0) (xs : List ℕ) → ((x : ℕ) → P x → Q x) → All P xs → All Q xs
All-imp P Q [] f h = tt
All-imp P Q (x ∷ xs) f (p, h) = (f x p, All-imp P Q xs f h)

-- A symbol that has a frequency, counted from `i` on.
abbrev Found : ℕ → List ℕ → ℕ → Type 0
Found i freqs s = (i ≤ s) × (s < i + length freqs) × (0 < get_or freqs (s - i) 0)

found_later : (i f : ℕ) (freqs : List ℕ) (s : ℕ) → Found (i + 1) freqs s → Found i (f ∷ freqs) s
found_later i f freqs s (low, high, pos) =
    let e : s - i ≡ suc (s - (i + 1)) = omega arith in (omega arith, omega arith, rw e pos)

nonzero_from-Found : (i : ℕ) (freqs : List ℕ) → All (Found i freqs) (nonzero_from i freqs)
unfolding nonzero_from
nonzero_from-Found i [] = tt
nonzero_from-Found i (f ∷ freqs) =
    let later =
      All-imp (Found (i + 1) freqs) (Found i (f ∷ freqs)) (nonzero_from (i + 1) freqs)
        (found_later i f freqs) (nonzero_from-Found (i + 1) freqs) in
    elim (Bool-cases (ltb 0 f)) [
      | inl t ↦
          let e : i - i ≡ 0 = omega arith in
          rw t ((omega arith, omega arith, rw e (ltb→lt 0 f t)), later)
      | inr t ↦ rw t later
    ]

pub nonzero_from-Distinct : (i : ℕ) (freqs : List ℕ) → Distinct (nonzero_from i freqs)
unfolding nonzero_from
nonzero_from-Distinct i [] = tt
nonzero_from-Distinct i (f ∷ freqs) =
    let later = nonzero_from-Distinct (i + 1) freqs in
    elim (Bool-cases (ltb 0 f)) [
      | inl t ↦ rw t (
        All-imp (Found (i + 1) freqs) (λ s. i ≢ s) (nonzero_from (i + 1) freqs)
            (λ s h e. absurd (omega arith)) (nonzero_from-Found (i + 1) freqs),
        later,
      )
      | inr t ↦ rw t later
    ]

-- What holds of all symbols with a frequency holds of each.
pub All-nonzero_from :
    (P : ℕ → Type 0) (i : ℕ) (freqs : List ℕ) (k s : ℕ)
    → All P (nonzero_from i freqs)
    → 0 < get_or freqs k 0
    → s ≡ i + k
    → P s
unfolding nonzero_from
All-nonzero_from P i [] k s h pos e = absurd (omega arith)
All-nonzero_from P i (zero ∷ freqs) zero s h pos e = absurd (omega arith)
All-nonzero_from P i (zero ∷ freqs) (suc k) s h pos e =
    All-nonzero_from P (i + 1) freqs k s h pos (omega arith)
All-nonzero_from P i (suc f ∷ freqs) zero s h pos e =
    let t : ltb 0 (suc f) ≡ true = lt→ltb 0 (suc f) (omega arith) in
    let all : P i × All P (nonzero_from (i + 1) freqs) = rw t at h in
    let e' : s ≡ i = omega arith in rw e' all.0
All-nonzero_from P i (suc f ∷ freqs) (suc k) s h pos e =
    let t : ltb 0 (suc f) ≡ true = lt→ltb 0 (suc f) (omega arith) in
    let all : P i × All P (nonzero_from (i + 1) freqs) = rw t at h in
    All-nonzero_from P (i + 1) freqs k s all.1 pos (omega arith)

-- The symbols with a frequency among `freqs`.
abbrev pub IsUsed : List ℕ → ℕ → Type 0
IsUsed freqs s = (s < length freqs) × (0 < get_or freqs s 0)

pub nonzero-IsUsed : (freqs : List ℕ) → All (IsUsed freqs) (nonzero_from 0 freqs)
nonzero-IsUsed freqs =
    All-imp (Found 0 freqs) (IsUsed freqs) (nonzero_from 0 freqs)
      (λ s (low, high, pos). let e : s - 0 ≡ s = omega arith in (omega arith, rw (← e) pos))
      (nonzero_from-Found 0 freqs)

All-initial_heap :
    (P : Node → Type 0) (freqs symbols : List ℕ)
    → All (λ s. P (get_or freqs s 0, s)) symbols
    → All P (initial_heap freqs symbols)
unfolding initial_heap
All-initial_heap P freqs [] h = tt
All-initial_heap P freqs (s ∷ symbols) (p, h) =
    All-push P (get_or freqs s 0, s) (initial_heap freqs symbols) p
      (All-initial_heap P freqs symbols h)

pub length-initial_heap :
    (freqs symbols : List ℕ) → length (initial_heap freqs symbols) ≡ length symbols
unfolding initial_heap
length-initial_heap freqs [] = refl
length-initial_heap freqs (s ∷ symbols) =
    length-push (get_or freqs s 0, s) (initial_heap freqs symbols)
    ∙ ap suc (length-initial_heap freqs symbols)

pub weight-initial_heap :
    (freqs symbols : List ℕ)
    → ((i : ℕ) → get_or freqs i 0 < 2 ^ 32)
    → weight (initial_heap freqs symbols) ≤ length symbols * 2 ^ 32
unfolding initial_heap
weight-initial_heap freqs [] h = omega arith
weight-initial_heap freqs (s ∷ symbols) h = omega (
  arith,
  weight-push (get_or freqs s 0, s) (initial_heap freqs symbols),
  weight-initial_heap freqs symbols h,
  h s,
)

initial_heap-IsSorted : (freqs symbols : List ℕ) → IsSorted (initial_heap freqs symbols)
unfolding initial_heap
initial_heap-IsSorted freqs [] = tt
initial_heap-IsSorted freqs (s ∷ symbols) =
    push-IsSorted (get_or freqs s 0, s) (initial_heap freqs symbols)
      (initial_heap-IsSorted freqs symbols)

initial_heap-Differ :
    (freqs symbols : List ℕ) → Distinct symbols → Differ (initial_heap freqs symbols)
unfolding initial_heap
initial_heap-Differ freqs [] h = tt
initial_heap-Differ freqs (s ∷ symbols) (new, h) =
    push-Differ (get_or freqs s 0, s) (initial_heap freqs symbols)
      (All-initial_heap (λ z. s ≢ z.1) freqs symbols new) (initial_heap-Differ freqs symbols h)

-- The heap of the symbols with a frequency is ready to be merged.
pub initial_heap-IsReady :
    (freqs : List ℕ)
    → IsReady (λ i. none) (length freqs) (initial_heap freqs (nonzero_from 0 freqs))
initial_heap-IsReady freqs =
    let symbols = nonzero_from 0 freqs in
    record {
      below =
          All-initial_heap (λ x. x.1 < length freqs) freqs symbols
            (All-imp (IsUsed freqs) (λ s. s < length freqs) symbols (λ s h. h.0)
              (nonzero-IsUsed freqs));
      roots =
          All-initial_heap (λ x. ◌≡◌ {A = Option ℕ} none none) freqs symbols
            (All-imp (IsUsed freqs) (λ s. ◌≡◌ {A = Option ℕ} none none) symbols (λ s h. refl)
              (nonzero-IsUsed freqs));
      unused = λ i h. refl;
      differ = initial_heap-Differ freqs symbols (nonzero_from-Distinct 0 freqs);
      sorted = initial_heap-IsSorted freqs symbols;
    }
