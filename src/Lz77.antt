-- ===== src/Lz77.antt =====
-- src/lz77: the token type, the parameters, and the modules of the encoder and the decoder.
pub mod Serial
pub mod Decoder
pub mod Hash
pub mod Mru
pub mod Encoder
pub mod Cover
pub mod Compress
pub mod Huffman
use nexcomp.Base.{ℕ, ◌*◌, ◌-◌, ◌^◌, Bool, true, false}

-- `Token` of types.rs: a byte, or a copy of `length` bytes from `offset` bytes back.
pub data Token : Type 0 where
  literal : ℕ → Token
  match : ℕ → ℕ → Token

abbrev pub max_window : ℕ
max_window = 4 * 1024 * 1024

abbrev pub max_match : ℕ
max_match = 258

abbrev pub min_match : ℕ
min_match = 3

abbrev pub hash_bits : ℕ
hash_bits = 18

abbrev pub hash_size : ℕ
hash_size = 2 ^ hash_bits

abbrev pub hash_mask : ℕ
hash_mask = hash_size - 1

abbrev pub max_chain : ℕ
max_chain = 256

unfoldable pub bit_cost : Token → ℕ
bit_cost (literal b) = 9
bit_cost (match offset length) = 31

pub is_match : Token → Bool
is_match (literal b) = false
is_match (match offset length) = true
