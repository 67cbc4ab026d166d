-- ===== src/Tests/Lz77.antt =====
-- src/lz77 at concrete inputs.
use nexcomp.Base.{◌+◌, ◌≤◌, ◌≡◌, ◌≢◌, refl, arith, List, [], ◌∷◌, length, ok, stuck, some}
use nexcomp.Base.Words.{Bytes}
use nexcomp.Lz77.{Token, literal, match, bit_cost, max_window, max_match}
use nexcomp.Lz77.Hash.{HashChain, find_best_match_with_steps, hash3, search_chain, u32_max}
use nexcomp.Lz77.Hash.Match.{IsMatch, find_best_match_with_steps-IsMatch}
use nexcomp.Lz77.Hash.Plain.{
  find_best_match, without_steps, find_best_match-eq-find_best_match_with_steps,
}
use nexcomp.Lz77.Decoder.{decode_with_limit}
use nexcomp.Lz77.Decoder.Bounds.{total_span, decode_with_limit_bound}
use nexcomp.Lz77.Encoder.{encode}
use nexcomp.Lz77.Encoder.RoundTrip.{decode-encode}
use nexcomp.Lz77.Serial.{serialize, deserialize}
use nexcomp.Lz77.Serial.RoundTrip.{deserialize-serialize, deserialize-serialize_window}
use nexcomp.Lz77.Serial.Total.{deserialize-ne-stuck}
use nexcomp.Lz77.Compress.{compress, decompress, count_literals, sum_match_bytes, measure}
use nexcomp.Tests.Instances.{milli}
use nexcomp.Lz77.Compress.RoundTrip.{decompress-compress, measure_exact}

abbrev abab : Bytes
abab = 97 ∷ 98 ∷ 97 ∷ 98 ∷ 97 ∷ 98 ∷ 97 ∷ []

abbrev abab_tokens : List Token
abab_tokens = literal 97 ∷ literal 98 ∷ match 2 5 ∷ []

-- A chain that names position 0 as the last one for every hash.
abbrev from_start : HashChain
from_start = record { head = λ h. 0; prev = λ slot. u32_max }

bit_cost-match : bit_cost (match 2 5) ≡ 31
unfolding bit_cost
bit_cost-match = refl

overlapping_copy : decode_with_limit abab_tokens 7 ≡ ok abab
unfolding decode_with_limit
overlapping_copy = refl

search_runs :
    find_best_match_with_steps from_start abab 2 ≡ some (record { offset = 2; len = 5; steps = 0 })
unfolding find_best_match_with_steps hash3 search_chain
search_runs = refl

find_best_match_with_steps-IsMatch_example :
    (3 ≤ 5) × (5 ≤ max_match) × (2 ≤ max_window) × IsMatch abab 2 2 5
find_best_match_with_steps-IsMatch_example =
    find_best_match_with_steps-IsMatch from_start abab 2 (record { offset = 2; len = 5; steps = 0 })
      search_runs

decode_with_limit_bound_example : (length abab ≡ total_span abab_tokens) × (length abab ≤ 7)
decode_with_limit_bound_example =
    decode_with_limit_bound abab_tokens 7 abab (omega arith) overlapping_copy

decode-encode_example : decode_with_limit (encode abab).0 7 ≡ ok abab
decode-encode_example = decode-encode abab 7 (omega arith)

deserialize-serialize_example : deserialize (serialize abab_tokens) ≡ ok abab_tokens
deserialize-serialize_example = deserialize-serialize abab_tokens (omega arith)

deserialize-serialize_window_example :
    deserialize (serialize (match max_window 3 ∷ [])) ≡ ok (match 0 3 ∷ [])
deserialize-serialize_window_example = deserialize-serialize_window 3 (omega arith) (omega arith)

deserialize-ne-stuck_example : deserialize (1 ∷ 2 ∷ []) ≢ stuck
deserialize-ne-stuck_example = deserialize-ne-stuck (1 ∷ 2 ∷ [])

decompress-compress_example : decompress (compress abab) ≡ ok abab
decompress-compress_example = decompress-compress abab (omega arith) (omega arith)

measure_exact_example :
    let covered = sum_match_bytes (encode abab).0 in
    (measure milli abab ≡ (7, length (compress abab), milli.quotient covered 7))
    × (count_literals (encode abab).0 + covered ≡ 7)
measure_exact_example = measure_exact milli abab

find_best_match-eq-find_best_match_with_steps_example :
    find_best_match from_start abab 2 ≡ without_steps (find_best_match_with_steps from_start abab 2)
find_best_match-eq-find_best_match_with_steps_example =
    find_best_match-eq-find_best_match_with_steps from_start abab 2
