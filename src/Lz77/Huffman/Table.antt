-- ===== src/Lz77/Huffman/Table.antt =====
-- The decode table of src/lz77/huffman.rs, `lookup` as a function of the bit pattern, and the
-- reading and writing of one code.
pub mod Entries
pub mod Canonical
pub mod RoundTrip
use nexcomp.Base.{
  ℕ, zero, suc, ◌+◌, ◌-◌, ◌*◌, ◌/◌, ◌^◌, ◌||◌, Option, none, some, List, [], ◌∷◌, take, max, ltb,
  ◌==◌, if◌then◌else◌,
}
use nexcomp.Base.Words.{u32}
use nexcomp.Base.Bits.{bit_and, bit_or}
use nexcomp.Base.Arrays.{update}
use nexcomp.Lz77.Huffman.Bits.{BitWriter, BitReader, write_bits, ensure_bits, consume}
use nexcomp.Lz77.Huffman.Codes.{HuffCode, reverse_bits}

unfoldable pub write_code : BitWriter → HuffCode → BitWriter
write_code w code = write_bits w (reverse_bits code.bits code.len) code.len

pub record HuffDecodeTable : Type 0 where
  pub lookup : ℕ → ℕ
  pub max_len : ℕ

-- `(code_length << 16) | symbol`
abbrev pub entry : ℕ → ℕ → ℕ
entry len sym = bit_or (len * 2 ^ 16) sym

-- The entries that start with a code, `reversed`, for the rounds left and the next `j`. The index
-- stays below `2 ^ max_len`.
unfoldable pub fill_entries : ℕ → ℕ → ℕ → ℕ → ℕ → (ℕ → ℕ) → ℕ → ℕ
fill_entries zero j reversed len value lookup = lookup
fill_entries (suc rounds) j reversed len value lookup =
    fill_entries rounds (j + 1) reversed len value
      (update lookup (bit_or reversed (j * 2 ^ len)) value)

-- The entries of one symbol.
unfoldable pub fill_symbol : ℕ → ℕ → HuffCode → (ℕ → ℕ) → ℕ → ℕ
fill_symbol max_len sym code lookup =
    if code.len == 0
    then lookup
    else fill_entries (2 ^ (max_len - code.len)) 0 (reverse_bits code.bits code.len) code.len
        (entry code.len sym) lookup

unfoldable pub fill_symbols : ℕ → ℕ → List HuffCode → (ℕ → ℕ) → ℕ → ℕ
fill_symbols max_len sym [] lookup = lookup
fill_symbols max_len sym (code ∷ codes) lookup =
    fill_symbols max_len (sym + 1) codes (fill_symbol max_len sym code lookup)

abbrev pub longest_code : List HuffCode → ℕ
longest_code [] = 0
longest_code (code ∷ codes) = max code.len (longest_code codes)

unfoldable pub build_decode_table : List HuffCode → ℕ → HuffDecodeTable
build_decode_table codes n_symbols =
    let max_len = max (longest_code (take n_symbols codes)) 1 in
    record {
      lookup = fill_symbols max_len 0 (take n_symbols codes) (λ pattern. 0);
      max_len = max_len;
    }

unfoldable pub read_huffman_checked : BitReader → HuffDecodeTable → Option (ℕ × BitReader)
read_huffman_checked r table =
    let full = ensure_bits r table.max_len in
    let found = table.lookup (bit_and full.current (u32 (2 ^ table.max_len) - 1)) in
    let len = found / 2 ^ 16 in
    if len == 0 || ltb full.bits_in len then none else some (bit_and found 0xffff, consume full len)
