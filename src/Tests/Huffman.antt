-- ===== src/Tests/Huffman.antt =====
-- src/lz77/huffman.rs at concrete inputs.
use nexcomp.Base.{
  ℕ, zero, suc, ◌+◌, ◌^◌, ◌<◌, ◌≡◌, refl, arith, true, some, List, [], ◌∷◌, get_or, take, All,
  returns,
}
use mathlib.Core.Logic.{◌↔◌}
use nexcomp.Base.Words.{of_le}
use nexcomp.Lz77.{Token, literal, match}
use nexcomp.Lz77.Huffman.Bits.{new_writer, new_reader, write_bits}
use nexcomp.Lz77.Huffman.Bits.Writing.{Appends, write_bits-Appends, new_writer-IsFlushed}
use nexcomp.Lz77.Huffman.Bits.Reading.{new_reader-IsReader}
use nexcomp.Lz77.Huffman.Bits.Transfer.{Read}
use nexcomp.Lz77.Huffman.Codes.{canonical_codes, lengths_are_prefix_free, reverse_bits}
use nexcomp.Lz77.Huffman.Codes.Intervals.{IsPrefixFree, first, occ}
use nexcomp.Lz77.Huffman.Codes.Kraft.{lengths_are_prefix_free-IsPrefixFree}
use nexcomp.Lz77.Huffman.Table.{build_decode_table, read_huffman_checked}
use nexcomp.Lz77.Huffman.Table.RoundTrip.{read_huffman_checked-canonical_codes}
use nexcomp.Lz77.Huffman.Lengths.{build_huffman_codes}
use nexcomp.Lz77.Huffman.Lengths.Canonical.{AreCanonical}
use nexcomp.Lz77.Huffman.Lengths.Built.{build_huffman_codes-AreCanonical}
use nexcomp.Lz77.Huffman.Tokens.RoundTrip.{IsLegal}
use nexcomp.Lz77.Huffman.Blocks.{
  huffman_encode, huffman_decode, huffman_encode_blocked, huffman_decode_blocked_checked,
}
use nexcomp.Lz77.Huffman.Blocks.RoundTrip.{
  huffman_decode-huffman_encode, huffman_decode_blocked_checked-huffman_encode_blocked,
}

abbrev abab_tokens : List Token
abab_tokens = literal 97 ∷ literal 98 ∷ match 2 5 ∷ []

abab_tokens-IsLegal : All IsLegal abab_tokens
abab_tokens-IsLegal =
    (omega arith, (omega arith, (((omega arith, omega arith), (omega arith, omega arith)), tt)))

abbrev three_lengths : List ℕ
three_lengths = 1 ∷ 2 ∷ 2 ∷ []

huffman_decode-huffman_encode_example :
    huffman_decode (huffman_encode abab_tokens) ≡ returns abab_tokens
huffman_decode-huffman_encode_example =
    huffman_decode-huffman_encode abab_tokens (omega arith) abab_tokens-IsLegal

-- Two blocks: two tokens, and one.
huffman_decode_blocked_checked-huffman_encode_blocked_example :
    huffman_decode_blocked_checked (huffman_encode_blocked abab_tokens 2) ≡ some abab_tokens
huffman_decode_blocked_checked-huffman_encode_blocked_example =
    huffman_decode_blocked_checked-huffman_encode_blocked abab_tokens 2 (omega arith) (omega arith)
      abab_tokens-IsLegal

small_counts : (i : ℕ) → get_or (4 ∷ 1 ∷ 2 ∷ []) i 0 < 2 ^ 32
small_counts zero = omega arith
small_counts (suc zero) = omega arith
small_counts (suc (suc zero)) = omega arith
small_counts (suc (suc (suc i))) = omega arith

build_huffman_codes-AreCanonical_example :
    AreCanonical (4 ∷ 1 ∷ 2 ∷ []) (build_huffman_codes (4 ∷ 1 ∷ 2 ∷ []) 3)
build_huffman_codes-AreCanonical_example =
    build_huffman_codes-AreCanonical (4 ∷ 1 ∷ 2 ∷ []) small_counts (omega arith)

lengths_are_prefix_free-IsPrefixFree_example :
    (lengths_are_prefix_free three_lengths ≡ true) ↔ IsPrefixFree three_lengths
lengths_are_prefix_free-IsPrefixFree_example = lengths_are_prefix_free-IsPrefixFree three_lengths

three_lengths_run : lengths_are_prefix_free three_lengths ≡ true
unfolding lengths_are_prefix_free
three_lengths_run = refl

-- The code of the second symbol is 10, so the bits are 1 and 0, and a 1 follows.
code_bits : reverse_bits (first three_lengths 2 + occ 2 (take 1 three_lengths)) 2 ≡ 1
unfolding reverse_bits first occ
code_bits = refl

read_huffman_checked-canonical_codes_example : Read (new_reader (5 ∷ [])) 1 2 1 (
    read_huffman_checked
      (new_reader (5 ∷ []))
      (build_decode_table (canonical_codes three_lengths 3) 3))
unfolding of_le reverse_bits
read_huffman_checked-canonical_codes_example =
    read_huffman_checked-canonical_codes three_lengths 1 1 (new_reader (5 ∷ []))
      ((lengths_are_prefix_free-IsPrefixFree three_lengths).0 three_lengths_run) (omega arith)
      (omega arith, omega arith) (new_reader-IsReader (5 ∷ []) (omega arith, tt)) (omega arith)
      (omega (arith, code_bits))

write_bits-Appends_example : Appends new_writer (write_bits new_writer 5 3) 5 3
write_bits-Appends_example =
    write_bits-Appends new_writer 5 3 (omega arith) (omega arith) new_writer-IsFlushed
