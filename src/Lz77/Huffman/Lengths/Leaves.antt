-- ===== src/Lz77/Huffman/Lengths/Leaves.antt =====
-- The lengths that are read off the tree.
use nexcomp.Base.{
  ℕ, zero, suc, ◌+◌, ◌*◌, ◌/◌, ◌^◌, ◌≤◌, ◌<◌, ◌≡◌, ◌≢◌, refl, sym, ap, ◌∙◌, arith, Option, List, [],
  ◌∷◌, length, get_or, All, ltb, ltb→lt, ltb→le, inl, inr, Bool-cases, ◌==◌, ==→eq, ==→ne,
}
use nexcomp.Base.Words.{u8}
use nexcomp.Base.Arrays.{update, update_same, update_other}
use nexcomp.Base.Powers.{pow-le}
use nexcomp.Lz77.Huffman.Lengths.{Node, initial_heap, climb, measure}
use nexcomp.Lz77.Huffman.Lengths.Heap.{tally, unpush}
use nexcomp.Lz77.Huffman.Lengths.Tree.{Climbs, root, step, share_at, Placed, share_of}

climb-Climbs :
    (parent : ℕ → Option ℕ) (fuel node d depth : ℕ)
    → Climbs parent node d
    → d ≤ fuel
    → depth + d < 256
    → climb fuel parent node depth ≡ depth + d
unfolding climb
climb-Climbs parent zero node d depth (root e) h k = omega arith
climb-Climbs parent (suc fuel) node d depth (root e) h k = rw (e, climb) (omega arith)
climb-Climbs parent zero node d depth (step e c) h k = absurd (omega arith)
climb-Climbs parent (suc fuel) node d depth (step {d = d'} e c) h k =
    let one : u8 (depth + 1) ≡ depth + 1 = omega arith in
    rw (e, climb, one)
      (climb-Climbs parent fuel _ d' (depth + 1) c (omega arith) (omega arith) ∙ omega arith)

-- The sum of the shares of symbols.
unfoldable pub shares : (ℕ → ℕ) → List ℕ → ℕ
shares lengths [] = 0
shares lengths (s ∷ symbols) = share_at (lengths s) + shares lengths symbols

measure-kept :
    (n : ℕ) (parent : ℕ → Option ℕ) (symbols : List ℕ) (lengths : ℕ → ℕ) (i : ℕ)
    → lengths i ≡ climb (2 * n) parent i 0
    → measure n parent symbols lengths i ≡ climb (2 * n) parent i 0
unfolding measure
measure-kept n parent [] lengths i h = h
measure-kept n parent (s ∷ symbols) lengths i h =
    measure-kept n parent symbols (update lengths s (climb (2 * n) parent s 0)) i
      (elim (Bool-cases (i == s)) [
        | inl t ↦
            let e = ==→eq i s t in
            update_same lengths s i (climb (2 * n) parent s 0) e
            ∙ ap (λ k. climb (2 * n) parent k 0) (sym e)
        | inr t ↦ update_other lengths s i (climb (2 * n) parent s 0) (==→ne i s t) ∙ h
      ])

-- All symbols of the list get their depth.
pub measure-climb :
    (n : ℕ) (parent : ℕ → Option ℕ) (symbols : List ℕ) (lengths : ℕ → ℕ)
    → All (λ s. measure n parent symbols lengths s ≡ climb (2 * n) parent s 0) symbols
unfolding measure
measure-climb n parent [] lengths = tt
measure-climb n parent (s ∷ symbols) lengths =
    let lengths' = update lengths s (climb (2 * n) parent s 0) in
    (
      measure-kept n parent symbols lengths' s
          (update_same lengths s s (climb (2 * n) parent s 0) refl),
      measure-climb n parent symbols lengths',
    )

pub measure-other :
    (n : ℕ) (parent : ℕ → Option ℕ) (symbols : List ℕ) (lengths : ℕ → ℕ) (i : ℕ)
    → All (λ s. i ≢ s) symbols
    → measure n parent symbols lengths i ≡ lengths i
unfolding measure
measure-other n parent [] lengths i h = refl
measure-other n parent (s ∷ symbols) lengths i (ne, h) =
    measure-other n parent symbols (update lengths s (climb (2 * n) parent s 0)) i h
    ∙ update_other lengths s i (climb (2 * n) parent s 0) ne

pow-small : (k all : ℕ) → 2 ^ k ≤ all → all < 2 ^ 64 → k < 64
pow-small k all h small = elim (Bool-cases (ltb k 64)) [
  | inl t ↦ ltb→lt k 64 t
  | inr t ↦ absurd (omega (arith, pow-le 64 k (ltb→le k 64 t)))
]

-- A length of the tree: positive, and far below the range of a byte.
abbrev pub IsDepth : ℕ → Type 0
IsDepth d = (1 ≤ d) × (d < 128)

module _ (freqs : List ℕ) (final : ℕ → Option ℕ) (all : ℕ) (heap : List Node) (lengths : ℕ → ℕ)
    (small : all < 2 ^ 64) (many : 2 ≤ length heap) (few : length heap ≤ length freqs) where
  placed-depth :
      (x : Node) (p : Placed final all heap x)
      → 0 < x.0
      → IsDepth p.depth × (climb (2 * length freqs) final x.1 0 ≡ p.depth)
  placed-depth x p pos =
      let half =
        pow-small (p.depth / 2) all (omega (arith, scaled x.0 (2 ^ (p.depth / 2)) pos, p.own))
          small in
      let shallow = p.shallow in
      (
        (p.deep many, omega arith),
        climb-Climbs final (2 * length freqs) x.1 p.depth 0 p.climbs (omega arith) (omega arith)
            ∙ omega arith,
      )
    where
      scaled : (w k : ℕ) → 0 < w → k ≤ w * k
      scaled w k h = grind arith

  -- What the heap says of its nodes, the lengths say of the symbols.
  pub spread :
      (symbols : List ℕ)
      → All (λ s. 0 < get_or freqs s 0) symbols
      → All (λ s. lengths s ≡ climb (2 * length freqs) final s 0) symbols
      → (h : All (Placed final all heap) (initial_heap freqs symbols))
      → All (λ s. IsDepth (lengths s)) symbols
        × (shares lengths symbols
            ≡ tally
                (Placed final all heap)
                (share_of final all heap)
                (initial_heap freqs symbols)
                h)
  unfolding initial_heap shares tally
  spread [] pos same h = (tt, refl)
  spread (s ∷ symbols) (pos, positive) (e, same) h =
      let (p, rest, sum) =
        unpush (Placed final all heap) (share_of final all heap) (get_or freqs s 0, s)
          (initial_heap freqs symbols) h in
      let (depths, e') = spread symbols positive same rest in
      let (d, c) = placed-depth (get_or freqs s 0, s) p pos in
      let length_lem : lengths s ≡ p.depth = e ∙ c in
      let share : share_at (lengths s) ≡ share_of final all heap (get_or freqs s 0, s) p =
        unfold share_of in ap share_at length_lem in
      ((rw length_lem d, depths), omega arith)
