-- ===== src/Lz77/Huffman/Lengths/Heap.antt =====
-- The heap: what holds of its nodes, their order, their weight.
use nexcomp.Base.{
  ℕ, suc, ◌+◌, ◌≤◌, ◌≡◌, ◌≢◌, refl, arith, Bool, true, false, inl, inr, Bool-cases, List, [], ◌∷◌,
  length, All, if◌then◌else◌,
}
use nexcomp.Lz77.Huffman.Lengths.{Node, node_lt, push}

abbrev pub weight : List Node → ℕ
weight [] = 0
weight (x ∷ heap) = x.0 + weight heap

abbrev pub IsSorted : List Node → Type 0
IsSorted [] = Unit
IsSorted (x ∷ heap) = All (λ y. x.0 ≤ y.0) heap × IsSorted heap

-- The nodes have different numbers.
abbrev pub Differ : List Node → Type 0
Differ [] = Unit
Differ (x ∷ heap) = All (λ y. x.1 ≢ y.1) heap × Differ heap

module _ (P : Node → Type 0) where
  pub All-push : (x : Node) (heap : List Node) → P x → All P heap → All P (push x heap)
  unfolding push
  All-push x [] p h = (p, tt)
  All-push x (y ∷ heap) p (q, h) = elim (Bool-cases (node_lt x y)) [
    | inl t ↦ rw t (p, (q, h))
    | inr t ↦ rw t (q, All-push x heap p h)
  ]

  -- A sum over what is known of the nodes.
  unfoldable pub tally : ((x : Node) → P x → ℕ) → (heap : List Node) → All P heap → ℕ
  tally share [] h = 0
  tally share (x ∷ heap) (p, h) = share x p + tally share heap h

  abbrev Unpushed :
      ((x : Node) → P x → ℕ) → (x : Node) → (heap all : List Node) → All P all → Type 0
  Unpushed share x heap all h =
      (p : P x) × (rest : All P heap) × (tally share all h ≡ share x p + tally share heap rest)

  unpush_at :
      (share : (x : Node) → P x → ℕ) (x y : Node) (heap : List Node)
      → ((k : All P (push x heap)) → Unpushed share x heap (push x heap) k)
      → (b : Bool) (h : All P (if b then x ∷ y ∷ heap else y ∷ push x heap))
      → Unpushed share x (y ∷ heap) (if b then x ∷ y ∷ heap else y ∷ push x heap) h
  unfolding tally
  unpush_at share x y heap ih true (p, (q, h)) = (p, (q, h), refl)
  unpush_at share x y heap ih false (q, h) = let (p, rest, e) = ih h in (p, (q, rest), omega arith)

  pub unpush :
      (share : (x : Node) → P x → ℕ) (x : Node) (heap : List Node) (h : All P (push x heap))
      → (p : P x) × (rest : All P heap) × (tally share (push x heap) h
          ≡ share x p + tally share heap rest)
  unfolding push tally
  unpush share x [] (p, h) = (p, tt, refl)
  unpush share x (y ∷ heap) h =
      unpush_at share x y heap (λ k. unpush share x heap k) (node_lt x y) h

pub length-push : (x : Node) (heap : List Node) → length (push x heap) ≡ suc (length heap)
unfolding push
length-push x [] = refl
length-push x (y ∷ heap) = ground (arith, length-push x heap)

pub weight-push : (x : Node) (heap : List Node) → weight (push x heap) ≡ x.0 + weight heap
unfolding push
weight-push x [] = refl
weight-push x (y ∷ heap) = ground (arith, weight-push x heap)

All-imp :
    (P Q : Node → Type 0) (heap : List Node) → ((x : Node) → P x → Q x) → All P heap → All Q heap
All-imp P Q [] f h = tt
All-imp P Q (x ∷ heap) f (p, h) = (f x p, All-imp P Q heap f h)

node_lt-le : (x y : Node) → node_lt x y ≡ true → x.0 ≤ y.0
node_lt-le x y t = ground arith

node_lt-ge : (x y : Node) → node_lt x y ≡ false → y.0 ≤ x.0
node_lt-ge x y t = ground arith

pub push-IsSorted : (x : Node) (heap : List Node) → IsSorted heap → IsSorted (push x heap)
unfolding push
push-IsSorted x [] h = (tt, tt)
push-IsSorted x (y ∷ heap) (low, h) = elim (Bool-cases (node_lt x y)) [
  | inl t ↦
      let le = node_lt-le x y t in
      rw t ((le, All-imp (λ z. y.0 ≤ z.0) (λ z. x.0 ≤ z.0) heap (λ z k. omega arith) low), (low, h))
  | inr t ↦ rw t (All-push (λ z. y.0 ≤ z.0) x heap (node_lt-ge x y t) low, push-IsSorted x heap h)
]

pub push-Differ :
    (x : Node) (heap : List Node) → All (λ y. x.1 ≢ y.1) heap → Differ heap → Differ (push x heap)
unfolding push
push-Differ x [] new h = (tt, tt)
push-Differ x (y ∷ heap) (ne, new) (other, h) = elim (Bool-cases (node_lt x y)) [
  | inl t ↦ rw t ((ne, new), (other, h))
  | inr t ↦
      rw t
        (All-push (λ z. y.1 ≢ z.1) x heap (λ e. ne (omega arith)) other, push-Differ x heap new h)
]
