-- ===== src/Lz77/Huffman/Tokens.antt =====
-- The tokens of one block in src/lz77/huffman.rs: how `encode_block` writes them with given codes,
-- and how `huffman_decode_blocked_checked` reads them with given tables.
pub mod Offsets
pub mod RoundTrip
use nexcomp.Base.{
  ℕ, zero, suc, ◌+◌, ◌-◌, Option, none, some, List, [], ◌∷◌, get_or, get_elem?, ltb, leb,
  if◌then◌else◌,
}
use nexcomp.Base.Words.{u8, u16, u32}
use nexcomp.Lz77.{Token, literal, match}
use nexcomp.Lz77.Mru.{MruCache, recent, find, promote, insert, update_mru}
use nexcomp.Lz77.Huffman.{
  Coded, length_table, dist_table, encode_length, encode_offset, rep_offset_0,
}
use nexcomp.Lz77.Huffman.Bits.{BitWriter, BitReader, Reader, read, pure, ◌>>=◌, write_bits}
use nexcomp.Lz77.Huffman.Codes.{HuffCode, default_code}
use nexcomp.Lz77.Huffman.Table.{HuffDecodeTable, write_code, read_huffman_checked}

-- The symbol for an offset: a repeat code, if the cache has the offset.
unfoldable pub dist_symbol : ℕ → MruCache → Coded
dist_symbol offset mru = elim (find offset mru) [
  | some idx ↦ record { code = rep_offset_0 + idx; extra = 0; value = 0 }
  | none ↦ encode_offset offset
]

-- The cache behind a token.
abbrev pub next_mru : Token → MruCache → MruCache
next_mru (literal b) mru = mru
next_mru (match offset length) mru = update_mru offset mru

-- A code and its extra bits, if it has any.
unfoldable pub write_coded : List HuffCode → Coded → BitWriter → BitWriter
write_coded codes s w =
    let w' = write_code w (get_or codes s.code default_code) in
    if ltb 0 s.extra then write_bits w' s.value s.extra else w'

unfoldable pub write_token :
    List HuffCode → List HuffCode → MruCache → Token → BitWriter → BitWriter
write_token litlen dist mru (literal b) w = write_code w (get_or litlen b default_code)
write_token litlen dist mru (match offset length) w =
    write_coded dist (dist_symbol offset mru) (write_coded litlen (encode_length length) w)

unfoldable pub write_tokens :
    List HuffCode → List HuffCode → MruCache → List Token → BitWriter → BitWriter
write_tokens litlen dist mru [] w = w
write_tokens litlen dist mru (t ∷ tokens) w =
    write_tokens litlen dist (next_mru t mru) tokens (write_token litlen dist mru t w)

-- `read_huffman_checked(table)?`
unfoldable pub symbol : HuffDecodeTable → Reader ℕ
symbol table r = read_huffman_checked r table

unfoldable pub read_extra : ℕ → Reader ℕ
read_extra extra = if ltb 0 extra then read extra else pure 0

-- `option?`
abbrev pub or_give_up : {A : Type 0} → Option A → Reader A
or_give_up none r = none
or_give_up (some a) r = some (a, r)

unfoldable pub read_repeat : ℕ → MruCache → Reader (ℕ × MruCache)
read_repeat idx mru = do off ← or_give_up (get_elem? (recent mru) idx); pure (off, promote idx mru)

unfoldable pub read_fresh : ℕ → MruCache → Reader (ℕ × MruCache)
read_fresh sym mru = do
  v ← read_extra (get_or dist_table sym (1, 22)).1
  let off = u32 ((get_or dist_table sym (1, 22)).0 + v)
  pure (off, insert off mru)

unfoldable pub read_offset : HuffDecodeTable → MruCache → Reader (ℕ × MruCache)
read_offset dist mru = do
  sym ← symbol dist
  if leb rep_offset_0 sym then read_repeat (sym - rep_offset_0) mru else read_fresh sym mru

-- `LENGTH_TABLE.get(sym.checked_sub(257)?)`
unfoldable pub length_entry : ℕ → Option (ℕ × ℕ)
length_entry sym = if ltb sym 257 then none else get_elem? length_table (sym - 257)

unfoldable pub read_match : HuffDecodeTable → MruCache → ℕ → Reader (Token × MruCache)
read_match dist mru sym = do
  e ← or_give_up (length_entry sym)
  v ← read_extra e.1
  o ← read_offset dist mru
  pure (match o.0 (u16 (e.0 + u16 v)), o.1)

unfoldable pub read_token : HuffDecodeTable → HuffDecodeTable → MruCache → Reader (Token × MruCache)
read_token litlen dist mru = do
  sym ← symbol litlen
  if ltb sym 256 then pure (literal (u8 sym), mru) else read_match dist mru sym

-- `for _ in 0..block_n_tokens`
unfoldable pub read_tokens : HuffDecodeTable → HuffDecodeTable → ℕ → MruCache → Reader (List Token)
read_tokens litlen dist zero mru = pure []
read_tokens litlen dist (suc n) mru = do
  t ← read_token litlen dist mru
  tokens ← read_tokens litlen dist n t.1
  pure (t.0 ∷ tokens)
