-- ===== src/Lz77/Huffman/Lengths/Kraft.antt =====
-- The lengths of the tree meet Kraft's inequality, where lengths above 15 bits take no share.
use nexcomp.Base.{ℕ, ◌*◌, ◌^◌, ◌≤◌, ◌<◌, ◌≡◌, ◌≢◌, arith, none, List, length, get_or, All}
use nexcomp.Lz77.Huffman.Codes.{max_len}
use nexcomp.Lz77.Huffman.Lengths.{merge, nonzero_from, initial_heap, tree_lengths}
use nexcomp.Lz77.Huffman.Lengths.Leaves.{IsDepth, shares, measure-climb, measure-other, spread}
use nexcomp.Lz77.Huffman.Lengths.Merging.{merge-Good}
use nexcomp.Lz77.Huffman.Lengths.Nonzero.{
  IsUsed, All-imp, nonzero-IsUsed, length-initial_heap, weight-initial_heap, initial_heap-IsReady,
}

-- Lengths of the symbols in a tree, before they are limited.
pub record AreDepths (symbols : List ℕ) (lengths : ℕ → ℕ) : Type 0 where
  pub depths : All (λ s. IsDepth (lengths s)) symbols
  pub kraft : shares lengths symbols ≤ 2 ^ max_len
  pub other : (i : ℕ) → All (λ s. i ≢ s) symbols → lengths i ≡ 0

pub tree_lengths-AreDepths :
    (freqs : List ℕ)
    → ((i : ℕ) → get_or freqs i 0 < 2 ^ 32)
    → length (nonzero_from 0 freqs) ≤ length freqs
    → length freqs < 2 ^ 15
    → 2 ≤ length (nonzero_from 0 freqs)
    → AreDepths (nonzero_from 0 freqs) (tree_lengths freqs (nonzero_from 0 freqs))
unfolding tree_lengths
tree_lengths-AreDepths freqs small within few many =
    let symbols = nonzero_from 0 freqs in
    let n = length freqs in
    let heap = initial_heap freqs symbols in
    let size : length heap ≡ length symbols = length-initial_heap freqs symbols in
    let all = length symbols * 2 ^ 32 in
    let final = merge (length heap) heap n (λ i. none) in
    let bound : all < 2 ^ 64 = omega arith in
    let (placed, kraft) =
      merge-Good (length heap) heap n (λ i. none) all (initial_heap-IsReady freqs) (omega arith)
        (omega arith) (weight-initial_heap freqs symbols small) bound in
    let (depths, sum) =
      spread freqs final all heap (tree_lengths freqs symbols) bound (omega arith) (omega arith)
        symbols
        (All-imp (IsUsed freqs) (λ s. 0 < get_or freqs s 0) symbols (λ s h. h.1)
          (nonzero-IsUsed freqs))
        (measure-climb n final symbols (λ i. 0)) placed in
    record {
      depths = depths;
      kraft = omega arith;
      other = λ i h. measure-other n final symbols (λ i. 0) i h;
    }
