-- ===== src/Adaptive/Block.antt =====
-- One block of src/adaptive.rs: the codecs behind an interface, the choice of the smallest result,
-- and decoding. Storing is the one codec that needs no interface.
pub mod Selection
pub mod Decoding
use nexcomp.Base.{
  ℕ, Bool, true, false, ◌&&◌, Option, none, some, List, [], ◌∷◌, ◌++◌, ltb, leb, if◌then◌else◌,
  length, Result, ok, err, stuck, Outcome, returns, panics,
}
use nexcomp.Base.Words.{Bytes}
use nexcomp.Codecs.Bcj.{Floats, is_likely_x86, bcj_encode}
use nexcomp.Adaptive.{
  CodecId, lz77_huffman, lzma_style, delta_ans, rle_huffman, passthrough, bwt_rans, ppm, stride_cm,
  name, AdaptiveError, decode_failed,
}
use nexcomp.Adaptive.Lengths.{check_declared_lengths}

-- The block codecs: an encoder that may reject its input, and a decoder that may fail; either may
-- panic. `decode` is also told the length that the block should have.
pub record Codecs : Type 0 where
  pub encode : CodecId → Bytes → Outcome (Option Bytes)
  pub decode : CodecId → Bytes → ℕ → Outcome (Option Bytes)

-- `CodecChoice` of src/classifier_v2.rs.
pub data CodecChoice : Type 0 where
  choose_delta choose_rle choose_store choose_lzma choose_lz77 : CodecChoice

pub record Metrics (F : Type 0) : Type 0 where
  pub ascii_ratio : F
  pub entropy : F

pub record AdaptiveResult : Type 0 where
  pub compressed : Bytes
  pub codec : CodecId
  pub bcj_applied : Bool

-- `catch_unwind(…).ok().flatten().filter(|out| !out.is_empty())`.
unfoldable pub nonempty : Outcome (Option Bytes) → Option Bytes
nonempty (returns (some (b ∷ out))) = some (b ∷ out)
nonempty (returns (some [])) = none
nonempty (returns none) = none
nonempty panics = none

-- `unwrap_or_else(|| (data.to_vec(), CodecId::Passthrough))`.
pub or_stored : Bytes → Option (Bytes × CodecId) → Bytes × CodecId
or_stored bytes none = (bytes, passthrough)
or_stored bytes (some best) = best

-- The step of the reduction: a later candidate wins only if it is strictly shorter.
pub better : CodecId → Option Bytes → Option (Bytes × CodecId) → Option (Bytes × CodecId)
better codec none best = best
better codec (some out) none = some (out, codec)
better codec (some out) (some (kept, kept_codec)) =
    if ltb (length out) (length kept) then some (out, codec) else some (kept, kept_codec)

-- A decoder's failure carries the name of its codec.
named : CodecId → Outcome (Option Bytes) → Outcome (Result AdaptiveError Bytes)
named codec panics = panics
named codec (returns none) = returns (err (decode_failed (name codec)))
named codec (returns (some out)) = returns (ok out)

-- `check?` before what follows.
guarded :
    Result AdaptiveError (Unit {0})
    → Outcome (Result AdaptiveError Bytes)
    → Outcome (Result AdaptiveError Bytes)
guarded (ok u) rest = rest
guarded (err e) rest = returns (err e)
guarded stuck rest = returns stuck

module _ (codecs : Codecs) where
  unfoldable pub encode_with : CodecId → Bytes → Outcome (Option Bytes)
  encode_with passthrough bytes = returns (some bytes)
  encode_with codec bytes = codecs.encode codec bytes

  -- `None` if the codec rejects the input, produces nothing, or panics.
  unfoldable pub encode_candidate : CodecId → Bytes → Option Bytes
  encode_candidate codec bytes = nonempty (encode_with codec bytes)

  -- `filter_map` and `reduce_with`, in order.
  pub reduce : Bytes → List CodecId → Option (Bytes × CodecId) → Option (Bytes × CodecId)
  reduce bytes [] best = best
  reduce bytes (codec ∷ candidates) best =
      reduce bytes candidates (better codec (encode_candidate codec bytes) best)

  -- The decoder of each codec.
  run_codec : CodecId → Bytes → ℕ → Outcome (Result AdaptiveError Bytes)
  unfolding named
  run_codec passthrough bytes expected = returns (ok bytes)
  run_codec codec bytes expected = named codec (codecs.decode codec bytes expected)

  -- What `check_declared_lengths` lets pass goes to the codec; a failure carries its name.
  pub decompress_block_adaptive : CodecId → Bytes → ℕ → Outcome (Result AdaptiveError Bytes)
  unfolding run_codec guarded
  decompress_block_adaptive codec bytes expected =
      guarded (check_declared_lengths codec bytes expected) (run_codec codec bytes expected)

-- The result of one of the two pipelines.
pub result_of : Bool → Bytes × CodecId → Bytes × CodecId → AdaptiveResult
result_of true filtered plain = record {
  compressed = filtered.0;
  codec = filtered.1;
  bcj_applied = true;
}
result_of false filtered plain = record {
  compressed = plain.0;
  codec = plain.1;
  bcj_applied = false;
}

module _ (codecs : Codecs) {F : Type 0} (f : Floats F)
    (classify_block_v2 : Bytes → CodecChoice × Metrics F) where
  abbrev by_choice : CodecChoice → List CodecId
  by_choice choose_delta = delta_ans ∷ []
  by_choice choose_rle = rle_huffman ∷ []
  by_choice choose_store = passthrough ∷ []
  by_choice choose_lzma = []
  by_choice choose_lz77 = []

  -- `x <= y` on floats that are numbers.
  abbrev at_most : F → F → Bool
  at_most x y = if f.lt y x then false else true

  try_bwt : ℕ → Metrics F → Bool
  try_bwt len m =
      if leb 32768 len
      then f.lt (f.decimal 90 2) m.ascii_ratio && at_most m.entropy (f.decimal 55 1)
      else if leb 4096 len
      then f.lt (f.decimal 96 2) m.ascii_ratio && at_most m.entropy (f.decimal 50 1)
      else false

  -- The candidates behind the baseline.
  pub further_candidates : Bytes → List CodecId
  unfolding try_bwt
  further_candidates bytes =
      let (choice, m) = classify_block_v2 bytes in
      by_choice choice
      ++ ((lzma_style ∷ [])
          ++ ((if try_bwt (length bytes) m then bwt_rans ∷ [] else [])
              ++ ((if at_most m.ascii_ratio (f.decimal 85 2) && leb 256 (length bytes)
                    then stride_cm ∷ []
                    else [])
                  ++ (if f.lt (f.decimal 80 2) m.ascii_ratio
                        && f.lt m.entropy (f.decimal 55 1)
                        && leb 256 (length bytes)
                      then ppm ∷ []
                      else []))))

  -- The baseline comes first.
  pub candidates : Bytes → List CodecId
  candidates bytes = lz77_huffman ∷ further_candidates bytes

  -- Storing the block is the fallback when no candidate gave a result.
  pub select_best_codec : Bytes → Bytes × CodecId
  unfolding or_stored
  select_best_codec bytes = or_stored bytes (reduce codecs bytes (candidates bytes) none)

  -- The filtered block is used only if its result is strictly shorter.
  pub compress_block_adaptive : Bytes → AdaptiveResult
  unfolding result_of
  compress_block_adaptive [] = record { compressed = []; codec = passthrough; bcj_applied = false }
  compress_block_adaptive (b ∷ bytes) =
      let block = b ∷ bytes in
      let (choice, m) = classify_block_v2 block in
      let try_bcj = at_most m.ascii_ratio (f.decimal 70 2) && is_likely_x86 f block in
      let plain = select_best_codec block in
      let filtered = select_best_codec (bcj_encode block) in
      result_of (try_bcj && ltb (length filtered.0) (length plain.0)) filtered plain
