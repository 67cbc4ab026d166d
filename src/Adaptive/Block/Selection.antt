-- ===== src/Adaptive/Block/Selection.antt =====
-- What the choice among the candidates promises.
use nexcomp.Base.{
  ℕ, ◌≤◌, ◌≡◌, ◌≢◌, refl, arith, inl, inr, ◌⊎◌, Bool-cases, Option, none, some, List, [], ◌∷◌, ltb,
  length, Outcome, returns, panics,
}
use nexcomp.Base.Words.{Bytes}
use nexcomp.Codecs.Bcj.{Floats}
use nexcomp.Adaptive.{CodecId, lz77_huffman, passthrough}
use nexcomp.Adaptive.Block.{
  Codecs, CodecChoice, Metrics, encode_with, encode_candidate, nonempty, better, or_stored, reduce,
  further_candidates, candidates, select_best_codec, compress_block_adaptive,
}

-- `best` is there, and is no longer than `n`.
abbrev Below : Option (Bytes × CodecId) → ℕ → Type 0
Below none n = ⊥
Below (some (out, codec)) n = length out ≤ n

better-Below :
    (codec : CodecId) (o : Option Bytes) (best : Option (Bytes × CodecId)) (n : ℕ)
    → Below best n
    → Below (better codec o best) n
unfolding better
better-Below codec none best n h = h
better-Below codec (some out) none n h = absurd h
better-Below codec (some out) (some (kept, kc)) n h = ground arith

better-Below_new :
    (codec : CodecId) (out : Bytes) (best : Option (Bytes × CodecId))
    → Below (better codec (some out) best) (length out)
unfolding better
better-Below_new codec out none = omega arith
better-Below_new codec out (some (kept, kc)) = ground arith

nonempty_inv :
    (o : Outcome (Option Bytes)) (out : Bytes)
    → nonempty o ≡ some out
    → (o ≡ returns (some out)) × (out ≢ [])
unfolding nonempty
nonempty_inv (returns (some (b ∷ r))) out h = (cc, λ z. cc)
nonempty_inv (returns (some [])) out h = cc
nonempty_inv (returns none) out h = cc
nonempty_inv panics out h = cc

module _ (codecs : Codecs) (bytes : Bytes) where
  -- A result that the named codec made.
  abbrev Made : Bytes × CodecId → Type 0
  Made (out, codec) = (encode_with codecs codec bytes ≡ returns (some out)) × (out ≢ [])

  candidate-Made :
      (codec : CodecId) (out : Bytes)
      → encode_candidate codecs codec bytes ≡ some out
      → Made (out, codec)
  unfolding encode_candidate
  candidate-Made codec out e = nonempty_inv (encode_with codecs codec bytes) out e

  reduce-Below :
      (cs : List CodecId) (best : Option (Bytes × CodecId)) (n : ℕ)
      → Below best n
      → Below (reduce codecs bytes cs best) n
  unfolding reduce
  reduce-Below [] best n h = h
  reduce-Below (codec ∷ cs) best n h =
      reduce-Below cs (better codec (encode_candidate codecs codec bytes) best) n
        (better-Below codec (encode_candidate codecs codec bytes) best n h)

  abbrev MadeOrNone : Option (Bytes × CodecId) → Type 0
  MadeOrNone none = Unit
  MadeOrNone (some best) = Made best

  better-Made :
      (codec : CodecId) (o : Option Bytes) (best : Option (Bytes × CodecId))
      → encode_candidate codecs codec bytes ≡ o
      → MadeOrNone best
      → MadeOrNone (better codec o best)
  unfolding better
  better-Made codec none best e h = h
  better-Made codec (some out) none e h = candidate-Made codec out e
  better-Made codec (some out) (some (kept, kc)) e h =
      elim (Bool-cases (ltb (length out) (length kept))) [
        | inl t ↦ rw t (candidate-Made codec out e)
        | inr t ↦ rw t h
      ]

  reduce-Made :
      (cs : List CodecId) (best : Option (Bytes × CodecId))
      → MadeOrNone best
      → MadeOrNone (reduce codecs bytes cs best)
  unfolding reduce
  reduce-Made [] best h = h
  reduce-Made (codec ∷ cs) best h =
      reduce-Made cs (better codec (encode_candidate codecs codec bytes) best)
        (better-Made codec (encode_candidate codecs codec bytes) best refl h)

or_stored-Below :
    (bytes : Bytes) (o : Option (Bytes × CodecId)) (n : ℕ)
    → Below o n
    → length (or_stored bytes o).0 ≤ n
unfolding or_stored
or_stored-Below bytes none n h = absurd h
or_stored-Below bytes (some (out, codec)) n h = h

module _ (codecs : Codecs) (bytes : Bytes) where
  reduce-first :
      (cs : List CodecId) (out : Bytes)
      → encode_candidate codecs lz77_huffman bytes ≡ some out
      → Below (reduce codecs bytes (lz77_huffman ∷ cs) none) (length out)
  unfolding reduce better
  reduce-first cs out e = reduce-Below codecs bytes cs _ (length out) (rw e (omega arith))

  or_stored-Made :
      (o : Option (Bytes × CodecId))
      → MadeOrNone codecs bytes o
      → Made codecs bytes (or_stored bytes o) ⊎ (or_stored bytes o ≡ (bytes, passthrough))
  unfolding or_stored
  or_stored-Made none h = inr refl
  or_stored-Made (some best) h = inl h

module _ (codecs : Codecs) {F : Type 0} (f : Floats F)
    (classify_block_v2 : Bytes → CodecChoice × Metrics F) where
  -- A selected result was made by its codec, or is the block itself, stored.
  pub select-Made :
      (bytes : Bytes)
      → let best = select_best_codec codecs f classify_block_v2 bytes in
        Made codecs bytes best ⊎ (best ≡ (bytes, passthrough))
  unfolding select_best_codec
  select-Made bytes =
      or_stored-Made codecs bytes
        (reduce codecs bytes (candidates codecs f classify_block_v2 bytes) none)
        (reduce-Made codecs bytes (candidates codecs f classify_block_v2 bytes) none tt)

  select-Below :
      (bytes baseline : Bytes)
      → encode_candidate codecs lz77_huffman bytes ≡ some baseline
      → length (select_best_codec codecs f classify_block_v2 bytes).0 ≤ length baseline
  unfolding select_best_codec candidates
  select-Below bytes baseline e =
      let cs = further_candidates codecs f classify_block_v2 bytes in
      or_stored-Below bytes (reduce codecs bytes (lz77_huffman ∷ cs) none) (length baseline)
        (reduce-first codecs bytes cs baseline e)

  -- If the baseline encodes a block, what `compress_block_adaptive` returns for the block is at most
  -- as long as the baseline's result.
  pub compress_block_no_regression :
      (bytes baseline : Bytes)
      → bytes ≢ []
      → encode_candidate codecs lz77_huffman bytes ≡ some baseline
      → length (compress_block_adaptive codecs f classify_block_v2 bytes).compressed
        ≤ length baseline
  unfolding compress_block_adaptive
  compress_block_no_regression [] baseline h e = absurd (h refl)
  compress_block_no_regression (b ∷ bytes) baseline h e =
      ground (arith, select-Below (b ∷ bytes) baseline e)
