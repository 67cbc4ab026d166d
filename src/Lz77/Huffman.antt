-- ===== src/Lz77/Huffman.antt =====
-- src/lz77/huffman.rs: the symbols for lengths and offsets with their extra bits, and the modules of
-- the stages: bits, codes, the decode table, tokens and blocks.
pub mod Bits
pub mod Codes
pub mod Table
pub mod Symbols
pub mod Tokens
pub mod Lengths
pub mod Blocks
use nexcomp.Base.{
  ℕ, zero, suc, ◌+◌, ◌-◌, ◌^◌, ◌&&◌, List, [], ◌∷◌, get_or, ltb, leb, ◌==◌, if◌then◌else◌, length,
}
use nexcomp.Base.Words.{u32}

abbrev pub litlen_symbols : ℕ
litlen_symbols = 286

abbrev pub dist_symbols : ℕ
dist_symbols = 48

abbrev pub rep_offset_0 : ℕ
rep_offset_0 = 44

-- What `encode_length` and `encode_offset` return: a symbol, the number of its extra bits, and their
-- value.
pub record Coded : Type 0 where
  pub code : ℕ
  pub extra : ℕ
  pub value : ℕ

abbrev pub length_table : List (ℕ × ℕ)
length_table =
    (3, 0)
    ∷ (4, 0)
    ∷ (5, 0)
    ∷ (6, 0)
    ∷ (7, 0)
    ∷ (8, 0)
    ∷ (9, 0)
    ∷ (10, 0)
    ∷ (11, 1)
    ∷ (13, 1)
    ∷ (15, 1)
    ∷ (17, 1)
    ∷ (19, 2)
    ∷ (23, 2)
    ∷ (27, 2)
    ∷ (31, 2)
    ∷ (35, 3)
    ∷ (43, 3)
    ∷ (51, 3)
    ∷ (59, 3)
    ∷ (67, 4)
    ∷ (83, 4)
    ∷ (99, 4)
    ∷ (115, 4)
    ∷ (131, 5)
    ∷ (163, 5)
    ∷ (195, 5)
    ∷ (227, 5)
    ∷ (258, 0)
    ∷ []

abbrev pub dist_table : List (ℕ × ℕ)
dist_table =
    (1, 0)
    ∷ (2, 0)
    ∷ (3, 0)
    ∷ (4, 0)
    ∷ (5, 1)
    ∷ (7, 1)
    ∷ (9, 2)
    ∷ (13, 2)
    ∷ (17, 3)
    ∷ (25, 3)
    ∷ (33, 4)
    ∷ (49, 4)
    ∷ (65, 5)
    ∷ (97, 5)
    ∷ (129, 6)
    ∷ (193, 6)
    ∷ (257, 7)
    ∷ (385, 7)
    ∷ (513, 8)
    ∷ (769, 8)
    ∷ (1025, 9)
    ∷ (1537, 9)
    ∷ (2049, 10)
    ∷ (3073, 10)
    ∷ (4097, 11)
    ∷ (6145, 11)
    ∷ (8193, 12)
    ∷ (12289, 12)
    ∷ (16385, 13)
    ∷ (24577, 13)
    ∷ (32769, 14)
    ∷ (49153, 14)
    ∷ (65537, 15)
    ∷ (98305, 15)
    ∷ (131073, 16)
    ∷ (196609, 16)
    ∷ (262145, 17)
    ∷ (393217, 17)
    ∷ (524289, 18)
    ∷ (786433, 18)
    ∷ (1048577, 19)
    ∷ (1572865, 19)
    ∷ (2097153, 20)
    ∷ (3145729, 20)
    ∷ []

-- The search of `encode_length` from a code on.
unfoldable pub length_loop : ℕ → List (ℕ × ℕ) → ℕ → Coded
length_loop code [] length = record { code = 285; extra = 0; value = 0 }
length_loop code ((base, extra) ∷ table) length =
    let rest = length_loop (code + 1) table length in
    if extra == 0
    then (if length == base then record { code = code; extra = 0; value = 0 } else rest)
    else (if leb base length && ltb length (base + 2 ^ extra)
        then record { code = code; extra = extra; value = length - base }
        else rest)

unfoldable pub encode_length : ℕ → Coded
unfolding length_loop
encode_length length = length_loop 257 length_table length

abbrev pub range : ℕ → ℕ
range extra = if ltb 0 extra then 2 ^ extra else 1

-- The search of `encode_offset` below a code, from the last entry to the first.
unfoldable pub offset_loop : ℕ → ℕ → Coded
offset_loop zero offset = record { code = 43; extra = 20; value = u32 (offset + 2 ^ 32 - 3145729) }
offset_loop (suc i) offset =
    let (base, extra) = get_or dist_table i (0, 0) in
    let rest = offset_loop i offset in
    if leb base offset && ltb offset (base + range extra)
    then record { code = i; extra = extra; value = offset - base }
    else rest

unfoldable pub encode_offset : ℕ → Coded
unfolding offset_loop
encode_offset offset = offset_loop 44 offset

unfoldable pub decode_length : ℕ → ℕ → ℕ
decode_length code extra_val = (get_or length_table (code - 257) (0, 0)).0 + extra_val

unfoldable pub decode_offset : ℕ → ℕ → ℕ
decode_offset code extra_val =
    if ltb code (length dist_table)
    then (get_or dist_table code (0, 0)).0 + extra_val
    else extra_val + 1
