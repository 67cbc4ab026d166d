-- ===== src/Lz77/Huffman/Tokens/RoundTrip.antt =====
-- The tokens that were written with the codes are those that are read with their tables.
use nexcomp.Base.{
  ℕ, zero, suc, ◌+◌, ◌-◌, ◌*◌, ◌^◌, ◌<◌, ◌≤◌, ◌≡◌, refl, sym, ◌∙◌, arith, some, List, [], ◌∷◌,
  length, get_or, get_elem?, ltb, le→ltb, lt→ltb, if◌then◌else◌,
}
use nexcomp.Base.Words.{u8, u16}
use nexcomp.Lz77.{Token, literal, match}
use nexcomp.Lz77.Mru.{MruCache, update_mru}
use nexcomp.Lz77.Huffman.{length_table, encode_length}
use nexcomp.Lz77.Huffman.Symbols.{encode_length-CodesLength}
use nexcomp.Lz77.Huffman.Bits.{BitReader, Reader, pure, ◌>>=◌}
use nexcomp.Lz77.Huffman.Bits.Transfer.{Transfers, transfer_pure, transfer_then, transfer_ext}
use nexcomp.Lz77.Huffman.Codes.{default_code}
use nexcomp.Lz77.Huffman.Codes.Intervals.{HasCode, IsPrefixFree}
use nexcomp.Lz77.Huffman.Table.{HuffDecodeTable, write_code}
use nexcomp.Lz77.Huffman.Table.RoundTrip.{codes_of, transfer_code}
use nexcomp.Lz77.Huffman.Tokens.{
  dist_symbol, next_mru, write_coded, write_token, write_tokens, symbol, read_extra, read_offset,
  length_entry, read_match, read_token, read_tokens,
}
use nexcomp.Lz77.Huffman.Tokens.Offsets.{table_of, transfer_coded, transfer_offset}

-- What the encoder produces: bytes, offsets in the window and lengths of at most 258.
abbrev pub IsLegal : Token → Type 0
IsLegal (literal b) = b < 256
IsLegal (match offset length) = ((1 ≤ offset) × (offset ≤ 2 ^ 22)) × ((3 ≤ length) × (length ≤ 258))

-- The symbols of a token have codes.
abbrev pub IsCoded : List ℕ → List ℕ → MruCache → Token → Type 0
IsCoded litlen dist mru (literal b) = HasCode litlen b
IsCoded litlen dist mru (match offset length) =
    HasCode litlen (encode_length length).code × HasCode dist (dist_symbol offset mru).code

abbrev pub AreCoded : List ℕ → List ℕ → MruCache → List Token → Type 0
AreCoded litlen dist mru [] = Unit
AreCoded litlen dist mru (t ∷ tokens) =
    (IsLegal t × IsCoded litlen dist mru t) × AreCoded litlen dist (next_mru t mru) tokens

-- What the reader does behind a litlen symbol.
abbrev behind_litlen : HuffDecodeTable → MruCache → ℕ → Reader (Token × MruCache)
behind_litlen dist mru sym =
    if ltb sym 256 then pure (literal (u8 sym), mru) else read_match dist mru sym

abbrev behind_length : HuffDecodeTable → MruCache → ℕ → ℕ → Reader (Token × MruCache)
behind_length dist mru base v = do
  o ← read_offset dist mru
  pure (match o.0 (u16 (base + u16 v)), o.1)

length_entry-table :
    (sym : ℕ)
    → 257 ≤ sym
    → sym < 286
    → length_entry sym ≡ some (get_or length_table (sym - 257) (0, 0))
unfolding length_entry
length_entry-table sym h k = rw (le→ltb sym 257 h) (entry_of length_table (sym - 257) (omega arith))
  where
    entry_of : (t : List (ℕ × ℕ)) (n : ℕ) → n < length t → get_elem? t n ≡ some (get_or t n (0, 0))
    entry_of [] n h = absurd (omega arith)
    entry_of (x ∷ t) zero h = refl
    entry_of (x ∷ t) (suc n) h = entry_of t n (omega arith)

read_match_entry :
    (dist : HuffDecodeTable) (mru : MruCache) (sym : ℕ) (r : BitReader)
    → 257 ≤ sym
    → sym < 286
    → behind_litlen dist mru sym r
      ≡ (read_extra (get_or length_table (sym - 257) (0, 0)).1
            >>= behind_length dist mru (get_or length_table (sym - 257) (0, 0)).0)
          r
unfolding read_match
read_match_entry dist mru sym r h k =
    rw (le→ltb sym 256 (omega arith), length_entry-table sym h k) refl

module _ (litlen dist : List ℕ) (litlen_free : IsPrefixFree litlen) (dist_free : IsPrefixFree dist)
    (litlen_few : length litlen < 2 ^ 16) (dist_few : length dist < 2 ^ 16) where
  transfer_token :
      (t : Token) (mru : MruCache)
      → IsLegal t
      → IsCoded litlen dist mru t
      → Transfers 78
          (write_token (codes_of litlen) (codes_of dist) mru t)
          (read_token (table_of litlen) (table_of dist) mru)
          (t, next_mru t mru)
  unfolding write_token read_token
  transfer_token (literal b) mru byte c =
      let whole : u8 b ≡ b = omega arith in
      let back : behind_litlen (table_of dist) mru b ≡ pure (literal b, mru) =
        rw (lt→ltb b 256 byte, whole) refl in
      transfer_ext 15 78 (λ w. write_code w (get_or (codes_of litlen) b default_code)) _ _
        (literal b, mru) (omega arith) (λ r. refl)
        (transfer_then 15 0 (λ w. write_code w (get_or (codes_of litlen) b default_code)) (λ w. w)
          (symbol (table_of litlen)) (behind_litlen (table_of dist) mru) b (literal b, mru)
          (unfold symbol in transfer_code litlen b litlen_free litlen_few c)
          (rw back (transfer_pure (literal b, mru))))
  transfer_token (match offset length) mru ((pos, top), (least, most)) (cl, cd) =
      let s = encode_length length in
      let k = encode_length-CodesLength length least most in
      let base = (get_or length_table (s.code - 257) (0, 0)).0 in
      let whole : u16 (base + u16 s.value) ≡ length = omega (arith, k.sum) in
      let write = write_coded (codes_of dist) (dist_symbol offset mru) in
      transfer_coded litlen litlen_free litlen_few 39 s (behind_litlen (table_of dist) mru)
        (behind_length (table_of dist) mru base) write (match offset length, update_mru offset mru)
        cl (omega (arith, k.few)) k.fits
        (λ r.
          read_match_entry (table_of dist) mru s.code r k.least k.last ∙ rw (← k.extra_lem) refl)
        (transfer_then 39 0 write (λ w. w) (read_offset (table_of dist) mru)
          (λ o. pure (match o.0 (u16 (base + u16 s.value)), o.1)) (offset, update_mru offset mru)
          (match offset length, update_mru offset mru)
          (transfer_offset dist dist_free dist_few offset mru pos top cd)
          (rw whole (transfer_pure (match offset length, update_mru offset mru))))

  -- The reader takes off what the writer of the tokens put on, and returns the tokens.
  pub transfer_tokens :
      (tokens : List Token) (mru : MruCache)
      → AreCoded litlen dist mru tokens
      → Transfers
          (78 * length tokens)
          (write_tokens (codes_of litlen) (codes_of dist) mru tokens)
          (read_tokens (table_of litlen) (table_of dist) (length tokens) mru)
          tokens
  unfolding write_tokens read_tokens
  transfer_tokens [] mru c = transfer_pure []
  transfer_tokens (t ∷ tokens) mru ((legal, c), rest) =
      let n = 78 * length tokens in
      let write = write_tokens (codes_of litlen) (codes_of dist) (next_mru t mru) tokens in
      transfer_ext (78 + (n + 0)) (78 * suc (length tokens)) _ _ _ (t ∷ tokens) (omega arith)
        (λ r. refl)
        (transfer_then 78 (n + 0) (write_token (codes_of litlen) (codes_of dist) mru t) write
          (read_token (table_of litlen) (table_of dist) mru)
          (λ u. read_tokens (table_of litlen) (table_of dist) (length tokens) u.1 >>= λ ts.
            pure (u.0 ∷ ts))
          (t, next_mru t mru) (t ∷ tokens) (transfer_token t mru legal c)
          (transfer_then n 0 write (λ w. w)
            (read_tokens (table_of litlen) (table_of dist) (length tokens) (next_mru t mru))
            (λ ts. pure (t ∷ ts)) tokens (t ∷ tokens) (transfer_tokens tokens (next_mru t mru) rest)
            (transfer_pure (t ∷ tokens))))
