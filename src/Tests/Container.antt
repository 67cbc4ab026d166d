-- ===== src/Tests/Container.antt =====
-- src/adaptive.rs and src/codecs/bcj_filter.rs at concrete inputs.
use nexcomp.Base.{
  ℕ, ◌-◌, ltb, ◌≤◌, ◌<◌, ◌≡◌, ◌⊎◌, refl, arith, false, none, some, [], ◌∷◌, map, if◌then◌else◌,
  length, take, returns, ok, err,
}
use nexcomp.Base.Words.{Bytes, to_le, of_le}
use nexcomp.Codecs.Bcj.{bcj_encode, bcj_decode, starts_with}
use nexcomp.Codecs.Bcj.RoundTrip.{bcj_decode-bcj_encode}
use nexcomp.Adaptive.{ppm, passthrough, block_size}
use nexcomp.Adaptive.Block.{
  Codecs, AdaptiveResult, encode_candidate, encode_with, nonempty, compress_block_adaptive,
}
use nexcomp.Adaptive.Block.Selection.{compress_block_no_regression}
use nexcomp.Adaptive.Wire.{
  BlockInfo, Container, chunks, parse_container, write_container, adaptive_compress,
}
use nexcomp.Adaptive.Wire.Parsing.{infos, parse_container-write_container}
use nexcomp.Adaptive.Decode.{
  Writer, decode_block, vec_writer, is_some, check_digest, write_decoded, write_blocks,
  group_within_budget, decode_memory_budget, decode_cost, try_adaptive_decompress_limited,
}
use nexcomp.Adaptive.Decode.Groups.{
  total_cost, group_within_budget_bound, group_within_budget_cost, write_blocks_sequential,
}
use nexcomp.Adaptive.Decode.Soundness.{try_adaptive_decompress_limited_lem}
use nexcomp.Adaptive.Wire.Layout.{declared_len, parse_container_lem}
use nexcomp.Adaptive.Decode.RoundTrip.{try_adaptive_decompress-adaptive_compress}
use nexcomp.Adaptive.Baseline.{compress_baseline}
use nexcomp.Adaptive.Baseline.Laws.{IsPayload, compress_baseline-IsPayload}
use nexcomp.Adaptive.Summary.{container_format}
use nexcomp.Tests.Instances.{milli, classify, codecs, codecs_lawful, digest, digest_lawful}

abbrev text : Bytes
text = 110 ∷ 101 ∷ 120 ∷ 99 ∷ 111 ∷ 109 ∷ 112 ∷ []

-- A call at offset 1.
abbrev call : Bytes
call = 144 ∷ 232 ∷ 16 ∷ 0 ∷ 0 ∷ 0 ∷ 195 ∷ []

bcj_encode-call : bcj_encode call ≡ 144 ∷ 232 ∷ 17 ∷ 0 ∷ 0 ∷ 0 ∷ 195 ∷ []
unfolding bcj_encode to_le of_le
bcj_encode-call = refl

bcj_decode-bcj_encode_example : bcj_decode (bcj_encode call) ≡ call
bcj_decode-bcj_encode_example = bcj_decode-bcj_encode call (ground arith)

abbrev stored : BlockInfo
stored = record { codec = passthrough; bytes = text; orig_len = 7; crc = 0; bcj_applied = false }

-- A block of the codec with the largest working memory.
abbrev costly : BlockInfo
costly = record { codec = ppm; bytes = text; orig_len = block_size; crc = 0; bcj_applied = false }

group_of_two : group_within_budget (stored ∷ costly ∷ costly ∷ []) 3 ≡ 2
unfolding group_within_budget decode_cost
group_of_two = refl

group_within_budget_bound_example :
    let n = group_within_budget (stored ∷ costly ∷ costly ∷ []) 2 in (0 < n) × (n ≤ 3) × (n ≤ 2)
group_within_budget_bound_example =
    group_within_budget_bound (stored ∷ costly ∷ costly ∷ []) 2 (omega arith) (omega arith)

group_within_budget_cost_example :
    total_cost
      (take (group_within_budget (stored ∷ costly ∷ costly ∷ []) 3) (stored ∷ costly ∷ costly ∷ []))
    ≤ decode_memory_budget
group_within_budget_cost_example =
    group_within_budget_cost (stored ∷ costly ∷ costly ∷ []) 3 (rw group_of_two (omega arith))

write_blocks_sequential_example :
    let c : Container = record { orig_len = 7; blocks = stored ∷ []; digest = none } in
    write_blocks digest vec_writer codecs 4 c [] ≡ (
      let (r, w) =
        write_decoded digest vec_writer
          (is_some c.digest)
          (map (decode_block codecs) c.blocks)
          digest.new
          [] in
      (check_digest digest vec_writer c.digest c.orig_len r, w))
write_blocks_sequential_example =
    write_blocks_sequential digest vec_writer codecs 4
      (record { orig_len = 7; blocks = stored ∷ []; digest = none }) []

-- A baseline that drops the block's length.
abbrev baseline : Codecs
baseline = record {
  encode = λ codec bytes. returns (some (to_le 8 (length bytes)));
  decode = λ codec bytes expected. returns none;
}

compress_block_no_regression_example :
    length (compress_block_adaptive baseline milli classify text).compressed ≤ 8
unfolding nonempty encode_with to_le encode_candidate
compress_block_no_regression_example =
    compress_block_no_regression baseline milli classify text (to_le 8 7) (λ e. cc) refl

-- Every block as it is.
abbrev as_is : Bytes → AdaptiveResult
as_is chunk = record { compressed = chunk; codec = passthrough; bcj_applied = false }

parse_container-write_container_example :
    parse_container (write_container as_is digest.hash text)
    ≡ ok (record {
      orig_len = 7;
      blocks = infos as_is (chunks block_size text);
      digest = some (digest.hash text);
    })
unfolding chunks
parse_container-write_container_example =
    parse_container-write_container as_is digest.hash text (omega arith)
      (digest_lawful.hash_length text) (omega arith, tt)

try_adaptive_decompress-adaptive_compress_example :
    try_adaptive_decompress_limited digest codecs 4
      (adaptive_compress codecs milli classify digest text)
      7
    ≡ ok text
try_adaptive_decompress-adaptive_compress_example =
    try_adaptive_decompress-adaptive_compress codecs codecs_lawful milli classify digest 4 text 7
      (ground arith) (omega arith) (omega arith) digest_lawful

parse_container_lem_example : declared_len (infos as_is (chunks block_size text)) ≡ 7
parse_container_lem_example =
    parse_container_lem (write_container as_is digest.hash text)
      (record {
        orig_len = 7;
        blocks = infos as_is (chunks block_size text);
        digest = some (digest.hash text);
      })
      parse_container-write_container_example

try_adaptive_decompress_limited_lem_example :
    (c : Container) × (parse_container (adaptive_compress codecs milli classify digest text) ≡ ok c)
    × (7 ≡ c.orig_len)
    × (c.orig_len ≤ 7)
    × ((c.digest ≡ none) ⊎ (c.digest ≡ some (digest.hash text)))
try_adaptive_decompress_limited_lem_example =
    try_adaptive_decompress_limited_lem digest digest_lawful codecs 4
      (adaptive_compress codecs milli classify digest text) text 7
      try_adaptive_decompress-adaptive_compress_example

-- A writer with room for some bytes, which refuses what does not fit.
abbrev bounded : Writer ℕ
bounded = record {
  write_all = λ room bytes.
      if ltb room (length bytes) then (err "no room", room) else (ok tt, room - length bytes);
}

compress_baseline-IsPayload_example : IsPayload text (compress_baseline text)
compress_baseline-IsPayload_example = compress_baseline-IsPayload text (ground arith) (omega arith)

container_format-text : container_format text ≡ none
unfolding container_format starts_with
container_format-text = refl
