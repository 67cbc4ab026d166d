-- ===== src/Lz77/Huffman/Lengths/Tree.antt =====
-- The tree that merging the heap builds: the depths of its leaves meet Kraft's inequality, and no
-- leaf is deeper than twice the bits of the weight.
use nexcomp.Base.{
  ℕ, suc, ◌+◌, ◌-◌, ◌*◌, ◌/◌, ◌^◌, ◌≤◌, ◌≡◌, refl, ap, arith, Option, none, some, List, [], ◌∷◌,
  length, All, leb, le→leb, leb→le, inl, inr, Bool-cases, if◌then◌else◌,
}
use native.Mathlib.Nat.{pow-suc, mul_assoc, mul_comm, mul-le-mul_right}
use nexcomp.Lz77.Huffman.Codes.{max_len}
use nexcomp.Lz77.Huffman.Lengths.{Node, push}
use nexcomp.Lz77.Huffman.Lengths.Heap.{IsSorted, tally, unpush, All-push, length-push}

-- A node is `d` steps below its root.
pub data Climbs (parent : ℕ → Option ℕ) : ℕ → ℕ → Type 0 where
  root : {node : ℕ} → parent node ≡ none → Climbs parent node 0
  step : {node p d : ℕ} → parent node ≡ some p → Climbs parent p d → Climbs parent node (suc d)

-- The share of 2 ^ 15 that a leaf takes, if it is not too deep.
abbrev pub share_at : ℕ → ℕ
share_at d = if leb d max_len then 2 ^ (max_len - d) else 0

share-halves : (d : ℕ) → share_at (suc d) + share_at (suc d) ≤ share_at d
share-halves d = elim (Bool-cases (leb (suc d) max_len)) [
  | inl t ↦
      let h : suc d ≤ max_len = leb→le (suc d) max_len t in
      let e : max_len - d ≡ suc (max_len - suc d) = omega arith in
      rw (t, le→leb d max_len (omega arith), e, pow-suc 2 (max_len - suc d)) (omega arith)
  | inr t ↦ rw t (omega arith)
]

half-even : (d : ℕ) → suc (suc d) / 2 ≡ suc (d / 2)
half-even d = omega arith

doubled : (a u v w k all : ℕ) → a ≤ u → a ≤ v → w ≡ u + v → w * k ≤ all → a * (k * 2) ≤ all
doubled a u v w k all hu hv s h =
    let twice : a * 2 * k ≤ w * k = mul-le-mul_right k (omega arith) in
    omega (arith, mul_assoc a 2 k, ap (λ (n : ℕ). a * n) (mul_comm 2 k))

module _ (final : ℕ → Option ℕ) (all : ℕ) where
  -- Where the merging puts a node of the heap.
  pub record Placed (heap : List Node) (x : Node) : Type 0 where
    pub depth : ℕ
    pub climbs : Climbs final x.1 depth
    pub shallow : suc depth ≤ length heap
    pub deep : 2 ≤ length heap → 1 ≤ depth
    pub own : x.0 * 2 ^ (depth / 2) ≤ all
    pub least : (a : ℕ) → All (λ y. a ≤ y.0) heap → a * 2 ^ (suc depth / 2) ≤ all

  unfoldable pub share_of : (heap : List Node) (x : Node) → Placed heap x → ℕ
  share_of heap x p = share_at p.depth

  -- The children of a merged node are one step below it.
  module _ (x y m : Node) (heap : List Node) (sorted : IsSorted (x ∷ y ∷ heap))
      (sum : m.0 ≡ x.0 + y.0) where
    lower : (a : ℕ) → All (λ z. a ≤ z.0) (x ∷ y ∷ heap) → All (λ z. a ≤ z.0) (push m heap)
    lower a (hx, (hy, h)) = All-push (λ z. a ≤ z.0) m heap (omega arith) h

    child :
        (c : Node)
        → c.0 ≤ m.0
        → All (λ z. c.0 ≤ z.0) (push m heap)
        → final c.1 ≡ some m.1
        → Placed (push m heap) m
        → Placed (x ∷ y ∷ heap) c
    child c small low e p = record {
      depth = suc p.depth;
      climbs = step e p.climbs;
      shallow = omega (arith, length-push m heap, p.shallow);
      deep = λ h. omega arith;
      own = p.least c.0 low;
      least = λ a (hx, (hy, h)).
          rw (half-even p.depth, pow-suc 2 (p.depth / 2))
            (doubled a x.0 y.0 m.0 (2 ^ (p.depth / 2)) all hx hy sum p.own);
    }

    -- A node that stays in the heap.
    stays : (c : Node) → 1 ≤ length heap → Placed (push m heap) c → Placed (x ∷ y ∷ heap) c
    stays c some_left p = record {
      depth = p.depth;
      climbs = p.climbs;
      shallow = omega (arith, length-push m heap, p.shallow);
      deep = λ h. p.deep (omega (arith, length-push m heap));
      own = p.own;
      least = λ a h. p.least a (lower a h);
    }

    stay :
        (nodes : List Node) (h : All (Placed (push m heap)) nodes)
        → length nodes ≤ length heap
        → (k : All (Placed (x ∷ y ∷ heap)) nodes) × (tally
              (Placed (x ∷ y ∷ heap))
              (share_of (x ∷ y ∷ heap))
              nodes
              k
            ≡ tally (Placed (push m heap)) (share_of (push m heap)) nodes h)
    unfolding tally share_of stays
    stay [] h fits = (tt, refl)
    stay (c ∷ nodes) (p, h) fits =
        let (k, e) = stay nodes h (omega arith) in ((stays c (omega arith) p, k), omega arith)

  abbrev pub Good : List Node → Type 0
  Good heap =
      (h : All (Placed heap) heap) × (tally (Placed heap) (share_of heap) heap h ≤ 2 ^ max_len)

  -- Undoing one merge keeps what is known of the heap.
  pub unmerge :
      (x y m : Node) (heap : List Node)
      → IsSorted (x ∷ y ∷ heap)
      → m.0 ≡ x.0 + y.0
      → final x.1 ≡ some m.1
      → final y.1 ≡ some m.1
      → Good (push m heap)
      → Good (x ∷ y ∷ heap)
  unfolding tally share_of child
  unmerge x y m heap sorted sum fx fy (h, kraft) =
      let (p, rest, e) = unpush (Placed (push m heap)) (share_of (push m heap)) m heap h in
      let (k, e') = stay x y m heap sorted sum heap rest (omega arith) in
      let ((xy, xh), (yh, s)) = sorted in
      (
        (
          child x y m heap sorted sum x (omega arith)
              (All-push (λ z. x.0 ≤ z.0) m heap (omega arith) xh) fx p,
          (
            child x y m heap sorted sum y (omega arith)
                (All-push (λ z. y.0 ≤ z.0) m heap (omega arith) yh) fy p,
            k,
          ),
        ),
        omega (arith, share-halves p.depth),
      )
