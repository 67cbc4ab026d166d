-- ===== src/Lz77/Huffman/Codes/Kraft.antt =====
-- The test of the decoder, `lengths_are_prefix_free`, is Kraft's inequality.
use nexcomp.Base.{ℕ, zero, suc, ◌+◌, ◌^◌, ◌≤◌, ◌≡◌, refl, arith, true, List, [], ◌∷◌, All}
use mathlib.Core.Logic.{◌↔◌}
use nexcomp.Lz77.Huffman.Codes.{max_len, weigh, lengths_are_prefix_free}
use nexcomp.Lz77.Huffman.Codes.Intervals.{span, below, IsPrefixFree}

weigh-true :
    (lengths : List ℕ) (weight : ℕ)
    → weight ≤ 2 ^ max_len
    → weigh weight lengths ≡ true
    → All (λ len. len ≤ max_len) lengths × (weight + below 16 lengths ≤ 2 ^ max_len)
unfolding weigh below
weigh-true [] weight h t = (tt, omega arith)
weigh-true (zero ∷ lengths) weight h t =
    let (short, kraft) = weigh-true lengths weight h t in ((omega arith, short), omega arith)
weigh-true (suc l ∷ lengths) weight h t = ground (arith, weigh-true lengths (weight + span (suc l)))

weigh-ok :
    (lengths : List ℕ) (weight : ℕ)
    → All (λ len. len ≤ max_len) lengths
    → weight + below 16 lengths ≤ 2 ^ max_len
    → weigh weight lengths ≡ true
unfolding weigh below
weigh-ok [] weight short h = refl
weigh-ok (zero ∷ lengths) weight (s, short) h = weigh-ok lengths weight short (omega arith)
weigh-ok (suc l ∷ lengths) weight (s, short) h =
    ground (arith, weigh-ok lengths (weight + span (suc l)))

-- The test accepts lengths exactly if none is above 15 bits and they meet Kraft's inequality.
pub lengths_are_prefix_free-IsPrefixFree :
    (lengths : List ℕ) → (lengths_are_prefix_free lengths ≡ true) ↔ IsPrefixFree lengths
unfolding lengths_are_prefix_free
lengths_are_prefix_free-IsPrefixFree lengths = (
  λ t.
      let (short, kraft) = weigh-true lengths 0 (omega arith) t in
      record { short = short; kraft = omega arith },
  λ free. weigh-ok lengths 0 free.short (omega (arith, free.kraft)),
)
