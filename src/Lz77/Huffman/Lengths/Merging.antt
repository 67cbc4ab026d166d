-- ===== src/Lz77/Huffman/Lengths/Merging.antt =====
-- Merging a heap of roots places all its nodes in one tree.
use nexcomp.Base.{
  ℕ, zero, suc, ◌+◌, ◌^◌, ◌≤◌, ◌<◌, ◌≡◌, ◌≢◌, refl, sym, ◌∙◌, arith, Option, none, some, List, [],
  ◌∷◌, length, All,
}
use nexcomp.Base.Words.{u64}
use nexcomp.Base.Arrays.{update, update_same, update_other}
use native.Mathlib.Nat.{mod-eq_of_lt}
use nexcomp.Lz77.Huffman.Lengths.{Node, push, merged, adopt, merge}
use nexcomp.Lz77.Huffman.Lengths.Heap.{
  weight, IsSorted, Differ, tally, All-push, length-push, weight-push, push-IsSorted, push-Differ,
}
use nexcomp.Lz77.Huffman.Lengths.Tree.{root, share_of, Good, unmerge}

-- A heap of roots, before new nodes from `next` on.
pub record IsReady (parent : ℕ → Option ℕ) (next : ℕ) (heap : List Node) : Type 0 where
  pub below : All (λ x. x.1 < next) heap
  pub roots : All (λ x. parent x.1 ≡ none) heap
  pub unused : (i : ℕ) → next ≤ i → parent i ≡ none
  pub differ : Differ heap
  pub sorted : IsSorted heap

All-map :
    (P Q : Node → Type 0) (heap : List Node) → ((x : Node) → P x → Q x) → All P heap → All Q heap
All-map P Q [] f h = tt
All-map P Q (x ∷ heap) f (p, h) = (f x p, All-map P Q heap f h)

All-map₂ :
    (P Q R : Node → Type 0) (heap : List Node)
    → ((x : Node) → P x → Q x → R x)
    → All P heap
    → All Q heap
    → All R heap
All-map₂ P Q R [] f h k = tt
All-map₂ P Q R (x ∷ heap) f (p, h) (q, k) = (f x p q, All-map₂ P Q R heap f h k)

adopt-other :
    (parent : ℕ → Option ℕ) (x y : Node) (next i : ℕ)
    → i ≢ x.1
    → i ≢ y.1
    → adopt parent x y next i ≡ parent i
adopt-other parent x y next i hx hy =
    update_other (update parent x.1 (some next)) y.1 i (some next) hy
    ∙ update_other parent x.1 i (some next) hx

-- A node that is not in the heap keeps its parent.
merge-keeps :
    (fuel : ℕ) (heap : List Node) (next : ℕ) (parent : ℕ → Option ℕ) (i : ℕ)
    → i < next
    → All (λ z. i ≢ z.1) heap
    → merge fuel heap next parent i ≡ parent i
unfolding merge
merge-keeps zero heap next parent i h k = refl
merge-keeps (suc fuel) [] next parent i h k = refl
merge-keeps (suc fuel) (x ∷ []) next parent i h k = refl
merge-keeps (suc fuel) (x ∷ y ∷ heap) next parent i h (kx, (ky, k)) =
    merge-keeps fuel (push (merged x y next) heap) (next + 1) (adopt parent x y next) i
      (omega arith) (All-push (λ z. i ≢ z.1) (merged x y next) heap (λ e. absurd (omega arith)) k)
    ∙ adopt-other parent x y next i kx ky

merge-IsReady :
    (parent : ℕ → Option ℕ) (next : ℕ) (x y : Node) (heap : List Node)
    → IsReady parent next (x ∷ y ∷ heap)
    → IsReady (adopt parent x y next) (next + 1) (push (merged x y next) heap)
merge-IsReady parent next x y heap r =
    let (bx, (by, b)) = r.below in
    let (rx, (ry, rs)) = r.roots in
    let ((xy, dx), (dy, d)) = r.differ in
    let (sx, (sy, s)) = r.sorted in
    let m = merged x y next in
    record {
      below =
          All-push (λ z. z.1 < next + 1) m heap (omega arith)
            (All-map (λ z. z.1 < next) (λ z. z.1 < next + 1) heap (λ z h. omega arith) b);
      roots =
          All-push (λ z. adopt parent x y next z.1 ≡ none) m heap
            (adopt-other parent x y next next (λ e. absurd (omega arith))
                (λ e. absurd (omega arith))
              ∙ r.unused next (omega arith))
            (All-map₂ (λ z. (x.1 ≢ z.1) × (y.1 ≢ z.1)) (λ z. parent z.1 ≡ none)
              (λ z. adopt parent x y next z.1 ≡ none) heap
              (λ z (hx, hy) h.
                adopt-other parent x y next z.1 (λ e. hx (sym e)) (λ e. hy (sym e)) ∙ h)
              (All-map₂ (λ z. x.1 ≢ z.1) (λ z. y.1 ≢ z.1) (λ z. (x.1 ≢ z.1) × (y.1 ≢ z.1)) heap
                (λ z hx hy. (hx, hy)) dx dy)
              rs);
      unused = λ i h.
          adopt-other parent x y next i (λ e. absurd (omega arith)) (λ e. absurd (omega arith))
          ∙ r.unused i (omega arith);
      differ =
          push-Differ m heap
            (All-map (λ z. z.1 < next) (λ z. next ≢ z.1) heap (λ z h e. absurd (omega arith)) b) d;
      sorted = push-IsSorted m heap s;
    }

lone :
    (parent : ℕ → Option ℕ) (all : ℕ) (x : Node)
    → parent x.1 ≡ none
    → x.0 ≤ all
    → Good parent all (x ∷ [])
unfolding tally share_of
lone parent all x top h = (
  (
    record {
      depth = 0;
      climbs = root top;
      shallow = omega arith;
      deep = λ h. absurd (omega arith);
      own = omega arith;
      least = λ a (k, u). omega arith;
    },
    tt,
  ),
  omega arith,
)

-- The merging places every node of the heap.
pub merge-Good :
    (fuel : ℕ) (heap : List Node) (next : ℕ) (parent : ℕ → Option ℕ) (all : ℕ)
    → IsReady parent next heap
    → 1 ≤ length heap
    → length heap ≤ suc fuel
    → weight heap ≤ all
    → all < 2 ^ 64
    → Good (merge fuel heap next parent) all heap
unfolding merge tally
merge-Good fuel [] next parent all r h k w small = absurd (omega arith)
merge-Good zero (x ∷ y ∷ heap) next parent all r h k w small = absurd (omega arith)
merge-Good zero (x ∷ []) next parent all r h k w small = lone parent all x r.roots.0 (omega arith)
merge-Good (suc fuel) (x ∷ []) next parent all r h k w small =
    lone parent all x r.roots.0 (omega arith)
merge-Good (suc fuel) (x ∷ y ∷ heap) next parent all r h k w small =
    let m = merged x y next in
    let sum : u64 (x.0 + y.0) ≡ x.0 + y.0 = mod-eq_of_lt (omega arith) in
    let grown = length-push m heap in
    let heavy = weight-push m heap in
    let (bx, (by, b)) = r.below in
    let ((xy, dx), (dy, d)) = r.differ in
    let final = merge fuel (push m heap) (next + 1) (adopt parent x y next) in
    unmerge final all x y m heap r.sorted sum
      (merge-keeps fuel (push m heap) (next + 1) (adopt parent x y next) x.1 (omega arith)
          (All-push (λ z. x.1 ≢ z.1) m heap (λ e. absurd (omega arith)) dx)
        ∙ update_other (update parent x.1 (some next)) y.1 x.1 (some next) xy
        ∙ update_same parent x.1 x.1 (some next) refl)
      (merge-keeps fuel (push m heap) (next + 1) (adopt parent x y next) y.1 (omega arith)
          (All-push (λ z. y.1 ≢ z.1) m heap (λ e. absurd (omega arith)) dy)
        ∙ update_same (update parent x.1 (some next)) y.1 y.1 (some next) refl)
      (merge-Good fuel (push m heap) (next + 1) (adopt parent x y next) all
        (merge-IsReady parent next x y heap r) (omega arith) (omega arith) (omega arith) small)
