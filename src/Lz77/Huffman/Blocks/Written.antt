-- ===== src/Lz77/Huffman/Blocks/Written.antt =====
-- One block is read as it was written: the code lengths, and then the tokens.
use nexcomp.Base.{
  ℕ, suc, ◌+◌, ◌*◌, ◌^◌, ◌≤◌, ◌<◌, ◌≡◌, ◌≢◌, refl, sym, ap, ap₂, ◌∙◌, arith, ◌&&◌, Option, none,
  List, [], ◌∷◌, length, All, ltb, ◌==◌, ne→==, if◌then◌else◌,
}
use mathlib.Core.Path.{subst}
use nexcomp.Lz77.{Token, literal, match}
use nexcomp.Lz77.Mru.{MruCache, new_mru}
use nexcomp.Lz77.Huffman.{litlen_symbols, dist_symbols, encode_length, Coded}
use nexcomp.Lz77.Huffman.Bits.{BitWriter, BitReader, write_bits, Reader, read, pure, ◌>>=◌}
use nexcomp.Lz77.Huffman.Bits.Transfer.{
  Transfers, transfer_pure, transfer_bits, transfer_then, transfer_ext, transfer_write_ext,
}
use nexcomp.Lz77.Huffman.Codes.{HuffCode, max_len, lengths_are_prefix_free}
use nexcomp.Lz77.Huffman.Codes.Intervals.{IsPrefixFree}
use nexcomp.Lz77.Huffman.Codes.Kraft.{lengths_are_prefix_free-IsPrefixFree}
use nexcomp.Lz77.Huffman.Table.{write_code}
use nexcomp.Lz77.Huffman.Table.RoundTrip.{codes_of}
use nexcomp.Lz77.Huffman.Tokens.{
  dist_symbol, next_mru, write_coded, write_token, write_tokens, or_give_up, read_tokens,
}
use nexcomp.Lz77.Huffman.Tokens.Offsets.{table_of}
use nexcomp.Lz77.Huffman.Tokens.RoundTrip.{IsLegal, IsCoded, AreCoded, transfer_tokens}
use nexcomp.Lz77.Huffman.Lengths.{build_huffman_codes}
use nexcomp.Lz77.Huffman.Lengths.Canonical.{lens, length-lens, AreCanonical}
use nexcomp.Lz77.Huffman.Lengths.Built.{build_huffman_codes-AreCanonical}
use nexcomp.Lz77.Huffman.Blocks.{
  Freqs, no_freqs, count_tokens, write_lengths, write_block, litlen_codes, dist_codes, encode_block,
  read_lengths, table_for, read_coded, read_unchecked, read_block,
}
use nexcomp.Lz77.Huffman.Blocks.Counting.{AreCounted, IsCounted, block-AreCounted}

transfer_lengths :
    (codes : List HuffCode)
    → All (λ len. len ≤ max_len) (lens codes)
    → Transfers (4 * length codes) (write_lengths codes) (read_lengths (length codes)) (lens codes)
unfolding write_lengths read_lengths
transfer_lengths [] h = transfer_pure []
transfer_lengths (c ∷ codes) (short, h) =
    let n = 4 * length codes in
    transfer_ext (4 + (n + 0)) (4 * suc (length codes)) _ _ _ (c.len ∷ lens codes) (omega arith)
      (λ r. refl)
      (transfer_then 4 (n + 0) (λ w. write_bits w c.len 4) (write_lengths codes) (read 4)
        (λ len. read_lengths (length codes) >>= λ lengths. pure (len ∷ lengths)) c.len
        (c.len ∷ lens codes) (transfer_bits c.len 4 (omega arith) (omega arith))
        (transfer_then n 0 (write_lengths codes) (λ w. w) (read_lengths (length codes))
          (λ lengths. pure (c.len ∷ lengths)) (lens codes) (c.len ∷ lens codes)
          (transfer_lengths codes h) (transfer_pure (c.len ∷ lens codes))))

-- The codes agree with those that the decoder computes, where there is a code.
module _ (freqs : Freqs) (litlen dist : List HuffCode) (l : AreCanonical freqs.litlen litlen)
    (d : AreCanonical freqs.dist dist) where
  counted-IsCoded :
      (mru : MruCache) (t : Token) → IsCounted freqs mru t → IsCoded (lens litlen) (lens dist) mru t
  counted-IsCoded mru (literal b) u = l.coded b u
  counted-IsCoded mru (match offset length) (u, v) =
      (l.coded (encode_length length).code u, d.coded (dist_symbol offset mru).code v)

  pub counted-AreCoded :
      (mru : MruCache) (tokens : List Token)
      → All IsLegal tokens
      → AreCounted freqs mru tokens
      → AreCoded (lens litlen) (lens dist) mru tokens
  counted-AreCoded mru [] legal c = tt
  counted-AreCoded mru (t ∷ tokens) (h, legal) (u, c) =
      ((h, counted-IsCoded mru t u), counted-AreCoded (next_mru t mru) tokens legal c)

  same_token :
      (mru : MruCache) (t : Token) (w : BitWriter)
      → IsCoded (lens litlen) (lens dist) mru t
      → write_token (codes_of (lens litlen)) (codes_of (lens dist)) mru t w
        ≡ write_token litlen dist mru t w
  unfolding write_token write_coded
  same_token mru (literal b) w c = ap (λ code. write_code w code) (sym (l.same b c))
  same_token mru (match offset length) w (c, c') =
      let s = encode_length length in
      let o = dist_symbol offset mru in
      ap₂ {C = BitWriter} (λ cl cd. write_with cd o (write_with cl s w)) (sym (l.same s.code c))
        (sym (d.same o.code c'))
    where
      write_with : HuffCode → Coded → BitWriter → BitWriter
      write_with code s w =
          if ltb 0 s.extra
          then write_bits (write_code w code) s.value s.extra
          else write_code w code

  same_tokens :
      (mru : MruCache) (tokens : List Token) (w : BitWriter)
      → AreCoded (lens litlen) (lens dist) mru tokens
      → write_tokens (codes_of (lens litlen)) (codes_of (lens dist)) mru tokens w
        ≡ write_tokens litlen dist mru tokens w
  unfolding write_tokens
  same_tokens mru [] w c = refl
  same_tokens mru (t ∷ tokens) w ((h, c), rest) =
      same_tokens (next_mru t mru) tokens
        (write_token (codes_of (lens litlen)) (codes_of (lens dist)) mru t w) rest
      ∙ ap (λ v. write_tokens litlen dist (next_mru t mru) tokens v) (same_token mru t w c)

  -- The tokens behind the lengths.
  transfer_coded_tokens :
      (tokens : List Token)
      → All IsLegal tokens
      → AreCounted freqs new_mru tokens
      → length (lens litlen) < 2 ^ 16
      → length (lens dist) < 2 ^ 16
      → Transfers
          (78 * length tokens)
          (write_tokens litlen dist new_mru tokens)
          (read_tokens (table_of (lens litlen)) (table_of (lens dist)) (length tokens) new_mru)
          tokens
  transfer_coded_tokens tokens legal c few few' =
      let coded = counted-AreCoded new_mru tokens legal c in
      transfer_write_ext (78 * length tokens)
        (write_tokens (codes_of (lens litlen)) (codes_of (lens dist)) new_mru tokens)
        (write_tokens litlen dist new_mru tokens) _ tokens (λ w. same_tokens new_mru tokens w coded)
        (transfer_tokens (lens litlen) (lens dist) l.free d.free few few' tokens new_mru coded)

  read_coded_tables :
      (n : ℕ) (r : BitReader)
      → length (lens litlen) ≡ litlen_symbols
      → length (lens dist) ≡ dist_symbols
      → read_coded n (lens litlen) (lens dist) r
        ≡ read_tokens (table_of (lens litlen)) (table_of (lens dist)) n new_mru r
  unfolding read_coded
  read_coded_tables n r e e' =
      ap₂ {C = Option (List Token × BitReader)}
        (λ i j. read_tokens (table_for (lens litlen) i) (table_for (lens dist) j) n new_mru r)
        (sym e) (sym e')

  sized_lengths :
      (codes : List HuffCode) (n : ℕ)
      → length codes ≡ n
      → IsPrefixFree (lens codes)
      → Transfers (4 * n) (write_lengths codes) (read_lengths n) (lens codes)
  sized_lengths codes n e free =
      subst (λ k. Transfers (4 * k) (write_lengths codes) (read_lengths k) (lens codes)) e
        (transfer_lengths codes free.short)

  -- The lengths and the tokens, with a reader that goes on with the lengths.
  transfer_with_lengths :
      (next : List ℕ → List ℕ → Reader (List Token)) (tokens : List Token)
      → length litlen ≡ litlen_symbols
      → length dist ≡ dist_symbols
      → ((r : BitReader)
          → next (lens litlen) (lens dist) r
            ≡ read_coded (length tokens) (lens litlen) (lens dist) r)
      → All IsLegal tokens
      → AreCounted freqs new_mru tokens
      → Transfers
          (1336 + 78 * length tokens)
          (write_block litlen dist tokens)
          (read_lengths litlen_symbols >>= λ ls. read_lengths dist_symbols >>= λ ds. next ls ds)
          tokens
  unfolding write_block
  transfer_with_lengths next tokens e e' same legal c =
      let n = 78 * length tokens in
      let size : length (lens litlen) ≡ litlen_symbols = length-lens litlen ∙ e in
      let size' : length (lens dist) ≡ dist_symbols = length-lens dist ∙ e' in
      let body =
        transfer_ext n n (write_tokens litlen dist new_mru tokens)
          (read_tokens (table_of (lens litlen)) (table_of (lens dist)) (length tokens) new_mru)
          (next (lens litlen) (lens dist)) tokens (omega arith)
          (λ r. same r ∙ read_coded_tables (length tokens) r size size')
          (transfer_coded_tokens tokens legal c (omega (arith, size)) (omega (arith, size'))) in
      transfer_ext (4 * litlen_symbols + (4 * dist_symbols + n)) (1336 + n) _ _ _ tokens
        (omega arith) (λ r. refl)
        (transfer_then (4 * litlen_symbols) (4 * dist_symbols + n) (write_lengths litlen)
          (λ w. write_tokens litlen dist new_mru tokens (write_lengths dist w))
          (read_lengths litlen_symbols) (λ ls. read_lengths dist_symbols >>= λ ds. next ls ds)
          (lens litlen) tokens (sized_lengths litlen litlen_symbols e l.free)
          (transfer_then (4 * dist_symbols) n (write_lengths dist)
            (write_tokens litlen dist new_mru tokens) (read_lengths dist_symbols)
            (next (lens litlen)) (lens dist) tokens (sized_lengths dist dist_symbols e' d.free)
            body))

-- The lengths that a block has pass the check, and it has tokens.
checked_block :
    (n : ℕ) (litlen dist : List ℕ) (r : BitReader)
    → n ≢ 0
    → IsPrefixFree litlen
    → IsPrefixFree dist
    → (if lengths_are_prefix_free litlen && lengths_are_prefix_free dist
          then (if n == 0 then or_give_up none else read_coded n litlen dist)
          else or_give_up none)
        r
      ≡ read_coded n litlen dist r
checked_block n litlen dist r some_token free free' =
    rw
      (
        (lengths_are_prefix_free-IsPrefixFree litlen).1 free,
        (lengths_are_prefix_free-IsPrefixFree dist).1 free',
        ne→== n 0 some_token,
      )
      refl

-- The codes of a block of fewer than 2^32 tokens.
record BlockCodes (tokens : List Token) : Type 0 where
  freqs : Freqs
  l : AreCanonical freqs.litlen (litlen_codes tokens)
  d : AreCanonical freqs.dist (dist_codes tokens)
  litlen_size : length (litlen_codes tokens) ≡ litlen_symbols
  dist_size : length (dist_codes tokens) ≡ dist_symbols
  counted : AreCounted freqs new_mru tokens

block_codes :
    (tokens : List Token) → length tokens < 2 ^ 32 → All IsLegal tokens → BlockCodes tokens
unfolding litlen_codes dist_codes
block_codes tokens h legal =
    let (sizes, counted) = block-AreCounted tokens h legal in
    let freqs = count_tokens new_mru tokens no_freqs in
    let l =
      subst (λ n. AreCanonical freqs.litlen (build_huffman_codes freqs.litlen n)) sizes.litlen_size
        (build_huffman_codes-AreCanonical freqs.litlen (λ j. omega (arith, sizes.litlen_max j))
          (omega (arith, sizes.litlen_size))) in
    let d =
      subst (λ n. AreCanonical freqs.dist (build_huffman_codes freqs.dist n)) sizes.dist_size
        (build_huffman_codes-AreCanonical freqs.dist (λ j. omega (arith, sizes.dist_max j))
          (omega (arith, sizes.dist_size))) in
    record {
      freqs = freqs;
      l = l;
      d = d;
      litlen_size = l.size ∙ sizes.litlen_size;
      dist_size = d.size ∙ sizes.dist_size;
      counted = counted;
    }

pub transfer_unchecked :
    (tokens : List Token)
    → length tokens < 2 ^ 32
    → All IsLegal tokens
    → Transfers
        (1336 + 78 * length tokens)
        (encode_block tokens)
        (read_unchecked (length tokens))
        tokens
unfolding encode_block read_unchecked
transfer_unchecked tokens h legal =
    let c = block_codes tokens h legal in
    transfer_with_lengths c.freqs (litlen_codes tokens) (dist_codes tokens) c.l c.d
      (read_coded (length tokens)) tokens c.litlen_size c.dist_size (λ r. refl) legal c.counted

pub transfer_block :
    (tokens : List Token)
    → length tokens < 2 ^ 32
    → length tokens ≢ 0
    → All IsLegal tokens
    → Transfers
        (1336 + 78 * length tokens)
        (encode_block tokens)
        (read_block (length tokens))
        tokens
unfolding encode_block read_block
transfer_block tokens h some_token legal =
    let c = block_codes tokens h legal in
    transfer_with_lengths c.freqs (litlen_codes tokens) (dist_codes tokens) c.l c.d
      (λ ls ds.
        if lengths_are_prefix_free ls && lengths_are_prefix_free ds
        then (if length tokens == 0 then or_give_up none else read_coded (length tokens) ls ds)
        else or_give_up none)
      tokens c.litlen_size c.dist_size
      (λ r.
        checked_block (length tokens) (lens (litlen_codes tokens)) (lens (dist_codes tokens)) r
          some_token c.l.free c.d.free)
      legal c.counted
