-- ===== src/Lz77/Huffman/Blocks.antt =====
-- The blocks of src/lz77/huffman.rs: `encode_block`, `huffman_encode`, `huffman_decode`,
-- `huffman_encode_blocked` and `huffman_decode_blocked_checked`.
pub mod Counting
pub mod Written
pub mod RoundTrip
pub mod Size
use nexcomp.Base.{
  ℕ, zero, suc, ◌+◌, ◌-◌, ◌/◌, ◌%◌, Bool, true, false, ◌&&◌, Option, none, some, List, [], ◌∷◌,
  ◌++◌, length, take, drop, replicate, ltb, leb, ◌==◌, if◌then◌else◌, Outcome, returns, panics,
}
use nexcomp.Base.Words.{Bytes, u32, to_le, of_le}
use nexcomp.Lz77.{Token, literal, match}
use nexcomp.Lz77.Mru.{MruCache, new_mru}
use nexcomp.Lz77.Huffman.{Coded, litlen_symbols, dist_symbols, encode_length}
use nexcomp.Lz77.Huffman.Bits.{
  BitWriter, BitReader, new_writer, new_reader, write_bits, finish, Reader, read, pure, ◌>>=◌,
}
use nexcomp.Lz77.Huffman.Codes.{HuffCode, canonical_codes, lengths_are_prefix_free}
use nexcomp.Lz77.Huffman.Table.{HuffDecodeTable, build_decode_table}
use nexcomp.Lz77.Huffman.Tokens.{dist_symbol, next_mru, write_tokens, or_give_up, read_tokens}
use nexcomp.Lz77.Huffman.Lengths.{build_huffman_codes}

-- `vec[i] += 1` in 32 bits.
unfoldable pub bump : ℕ → List ℕ → List ℕ
bump i [] = []
bump zero (x ∷ xs) = u32 (x + 1) ∷ xs
bump (suc i) (x ∷ xs) = x ∷ bump i xs

pub record Freqs : Type 0 where
  pub litlen : List ℕ
  pub dist : List ℕ

abbrev pub no_freqs : Freqs
no_freqs = record { litlen = replicate litlen_symbols 0; dist = replicate dist_symbols 0 }

unfoldable pub count_token : MruCache → Token → Freqs → Freqs
count_token mru (literal b) f = record f { litlen = bump b f.litlen }
count_token mru (match offset length) f = record {
  litlen = bump (encode_length length).code f.litlen;
  dist = bump (dist_symbol offset mru).code f.dist;
}

unfoldable pub count_tokens : MruCache → List Token → Freqs → Freqs
count_tokens mru [] f = f
count_tokens mru (t ∷ tokens) f = count_tokens (next_mru t mru) tokens (count_token mru t f)

-- The code lengths of one tree, 4 bits each.
unfoldable pub write_lengths : List HuffCode → BitWriter → BitWriter
write_lengths [] w = w
write_lengths (c ∷ codes) w = write_lengths codes (write_bits w c.len 4)

unfoldable pub write_block : List HuffCode → List HuffCode → List Token → BitWriter → BitWriter
write_block litlen dist tokens w =
    write_tokens litlen dist new_mru tokens (write_lengths dist (write_lengths litlen w))

unfoldable pub litlen_codes : List Token → List HuffCode
litlen_codes tokens =
    build_huffman_codes (count_tokens new_mru tokens no_freqs).litlen litlen_symbols

unfoldable pub dist_codes : List Token → List HuffCode
dist_codes tokens = build_huffman_codes (count_tokens new_mru tokens no_freqs).dist dist_symbols

unfoldable pub encode_block : List Token → BitWriter → BitWriter
encode_block tokens w = write_block (litlen_codes tokens) (dist_codes tokens) tokens w

-- The bytes of one block.
unfoldable pub block_bits : List Token → Bytes
block_bits tokens = finish (encode_block tokens new_writer)

unfoldable pub huffman_encode : List Token → Bytes
huffman_encode tokens = to_le 4 (u32 (length tokens)) ++ block_bits tokens

unfoldable pub read_lengths : ℕ → Reader (List ℕ)
read_lengths zero = pure []
read_lengths (suc n) = do len ← read 4; lengths ← read_lengths n; pure (len ∷ lengths)

abbrev pub table_for : List ℕ → ℕ → HuffDecodeTable
table_for lengths n = build_decode_table (canonical_codes lengths n) n

-- The tokens behind the lengths of the codes.
unfoldable pub read_coded : ℕ → List ℕ → List ℕ → Reader (List Token)
read_coded n litlen dist =
    read_tokens (table_for litlen litlen_symbols) (table_for dist dist_symbols) n new_mru

-- `huffman_decode` where it does not panic: it does not check the lengths.
unfoldable pub read_unchecked : ℕ → Reader (List Token)
read_unchecked n = do
  litlen ← read_lengths litlen_symbols
  dist ← read_lengths dist_symbols
  read_coded n litlen dist

-- A panic is an index out of bounds, or a code that no table covers.
unfoldable pub huffman_decode : Bytes → Outcome (List Token)
huffman_decode bytes =
    if ltb (length bytes) 4
    then panics
    else elim (read_unchecked (of_le (take 4 bytes)) (new_reader (drop 4 bytes))) [
      | none ↦ panics
      | some (tokens, r) ↦ returns tokens
    ]

-- The block of a checked stream.
unfoldable pub read_block : ℕ → Reader (List Token)
read_block n = do
  litlen ← read_lengths litlen_symbols
  dist ← read_lengths dist_symbols
  if lengths_are_prefix_free litlen && lengths_are_prefix_free dist
      then (if n == 0 then or_give_up none else read_coded n litlen dist)
      else or_give_up none

unfoldable pub encode_blocks : ℕ → ℕ → List Token → Bytes
encode_blocks zero block_size tokens = []
encode_blocks (suc n) block_size tokens =
    let block = take block_size tokens in
    to_le 4 (u32 (length block))
    ++ (to_le 4 (u32 (length (block_bits block)))
        ++ (block_bits block ++ encode_blocks n block_size (drop block_size tokens)))

-- `div_ceil`, for a block size that is not zero.
abbrev pub block_count : ℕ → ℕ → ℕ
block_count n block_size = if n == 0 then 0 else (n + block_size - 1) / block_size

unfoldable pub huffman_encode_blocked : List Token → ℕ → Bytes
huffman_encode_blocked tokens block_size =
    let n_blocks = block_count (length tokens) block_size in
    to_le 4 (u32 (length tokens))
    ++ (to_le 4 (u32 n_blocks) ++ encode_blocks n_blocks block_size tokens)

-- `data.get(pos..pos + len)`
unfoldable pub get_range : Bytes → ℕ → ℕ → Option Bytes
get_range bytes pos len =
    if leb (pos + len) (length bytes) then some (take len (drop pos bytes)) else none

infixl 5 ◌>>?◌
abbrev pub ◌>>?◌ : {A B : Type 0} → Option A → (A → Option B) → Option B
none >>? f = none
some a >>? f = f a

unfoldable pub u32_at : Bytes → ℕ → Option ℕ
u32_at bytes pos = get_range bytes pos 4 >>? λ b. some (of_le b)

-- The rounds of the loop over the blocks, with the position and the tokens so far.
unfoldable pub decode_blocks : ℕ → Bytes → ℕ → List Token → Option (List Token)
decode_blocks zero bytes pos tokens = some tokens
decode_blocks (suc n) bytes pos tokens = u32_at bytes pos >>? λ block_n_tokens.
    u32_at bytes (pos + 4) >>? λ block_byte_len.
    get_range bytes (pos + 8) block_byte_len >>? λ block.
    read_block block_n_tokens (new_reader block) >>? λ found.
    decode_blocks n bytes (pos + 8 + block_byte_len) (tokens ++ found.0)

unfoldable pub huffman_decode_blocked_checked : Bytes → Option (List Token)
huffman_decode_blocked_checked bytes =
    u32_at bytes 0 >>? λ n_tokens. u32_at bytes 4 >>? λ n_blocks. decode_blocks n_blocks bytes 8 []
