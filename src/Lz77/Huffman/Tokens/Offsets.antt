-- ===== src/Lz77/Huffman/Tokens/Offsets.antt =====
-- The offset of a match: its symbol and extra bits are read again, through the cache or not.
use nexcomp.Base.{
  ℕ, zero, suc, ◌+◌, ◌-◌, ◌^◌, ◌<◌, ◌≤◌, ◌≡◌, refl, sym, ◌∙◌, arith, true, inl, inr, none, some,
  Option-cases, List, [], ◌∷◌, length, get_or, get_elem?, ltb, leb, lt→ltb, le→leb, gt→leb,
  if◌then◌else◌,
}
use mathlib.Core.Path.{subst}
use nexcomp.Base.Words.{u32}
use nexcomp.Lz77.Mru.{MruCache, recent, find, promote, insert, update_mru}
use nexcomp.Lz77.Huffman.{Coded, dist_table, encode_offset, rep_offset_0}
use nexcomp.Lz77.Huffman.Symbols.{encode_offset-CodesOffset}
use nexcomp.Lz77.Huffman.Bits.{BitWriter, BitReader, Reader, read, pure, ◌>>=◌, write_bits}
use nexcomp.Lz77.Huffman.Bits.Transfer.{
  Transfers, transfer_pure, transfer_bits, transfer_then, transfer_ext,
}
use nexcomp.Lz77.Huffman.Codes.{default_code}
use nexcomp.Lz77.Huffman.Codes.Intervals.{HasCode, IsPrefixFree}
use nexcomp.Lz77.Huffman.Table.{HuffDecodeTable, write_code, build_decode_table}
use nexcomp.Lz77.Huffman.Table.RoundTrip.{codes_of, transfer_code}
use nexcomp.Lz77.Huffman.Tokens.{
  dist_symbol, write_coded, symbol, read_extra, read_repeat, read_fresh, read_offset,
}

abbrev pub table_of : List ℕ → HuffDecodeTable
table_of lengths = build_decode_table (codes_of lengths) (length lengths)

transfer_extra :
    (value extra : ℕ)
    → extra ≤ 24
    → value < 2 ^ extra
    → Transfers 24
        (λ w. if ltb 0 extra then write_bits w value extra else w)
        (read_extra extra)
        value
unfolding read_extra
transfer_extra value zero small fits =
    let none_left : value ≡ 0 = omega arith in
    rw none_left
      (transfer_ext 0 24 (λ w. w) (pure 0) (pure 0) 0 (omega arith) (λ r. refl) (transfer_pure 0))
transfer_extra value (suc k) small fits =
    let t : ltb 0 (suc k) ≡ true = lt→ltb 0 (suc k) (omega arith) in
    rw t (
      transfer_ext (suc k) 24 (λ w. write_bits w value (suc k)) (read (suc k)) (read (suc k)) value
        small (λ r. refl) (transfer_bits value (suc k) small fits))

pub find-recent :
    (offset idx : ℕ) (mru : MruCache)
    → find offset mru ≡ some idx
    → (idx < 4) × (get_elem? (recent mru) idx ≡ some offset)
unfolding find
find-recent offset idx mru h = ground arith

update_mru-found :
    (offset idx : ℕ) (mru : MruCache)
    → find offset mru ≡ some idx
    → update_mru offset mru ≡ promote idx mru
unfolding update_mru
update_mru-found offset idx mru h = rw (h, update_mru) refl

update_mru-fresh :
    (offset : ℕ) (mru : MruCache)
    → find offset mru ≡ none
    → update_mru offset mru ≡ insert offset mru
unfolding update_mru
update_mru-fresh offset mru h = rw (h, update_mru) refl

pub dist_symbol-found :
    (offset idx : ℕ) (mru : MruCache)
    → find offset mru ≡ some idx
    → dist_symbol offset mru ≡ record { code = rep_offset_0 + idx; extra = 0; value = 0 }
unfolding dist_symbol
dist_symbol-found offset idx mru h = rw (h, dist_symbol) refl

pub dist_symbol-fresh :
    (offset : ℕ) (mru : MruCache)
    → find offset mru ≡ none
    → dist_symbol offset mru ≡ encode_offset offset
unfolding dist_symbol
dist_symbol-fresh offset mru h = rw (h, dist_symbol) refl

-- In the table, the entry does not depend on the default.
get_or_default :
    (t : List (ℕ × ℕ)) (n : ℕ) (d e : ℕ × ℕ) → n < length t → get_or t n d ≡ get_or t n e
get_or_default [] n d e h = absurd (omega arith)
get_or_default (x ∷ t) zero d e h = refl
get_or_default (x ∷ t) (suc n) d e h = get_or_default t n d e (omega arith)

-- What the reader does behind a distance symbol.
abbrev behind_dist : MruCache → ℕ → Reader (ℕ × MruCache)
behind_dist mru sym =
    if leb rep_offset_0 sym then read_repeat (sym - rep_offset_0) mru else read_fresh sym mru

read_repeated :
    (offset idx : ℕ) (mru : MruCache) (r : BitReader)
    → find offset mru ≡ some idx
    → behind_dist mru (rep_offset_0 + idx) r ≡ some ((offset, update_mru offset mru), r)
unfolding read_repeat
read_repeated offset idx mru r h =
    let (few, entry) = find-recent offset idx mru h in
    let e : rep_offset_0 + idx - rep_offset_0 ≡ idx = omega arith in
    rw
      (
        le→leb rep_offset_0 (rep_offset_0 + idx) (omega arith),
        e,
        entry,
        update_mru-found offset idx mru h,
      )
      refl

abbrev fresh_offset : MruCache → ℕ → ℕ → Reader (ℕ × MruCache)
fresh_offset mru base v = pure (u32 (base + v), insert (u32 (base + v)) mru)

read_fresh_entry :
    (sym : ℕ) (mru : MruCache) (r : BitReader)
    → sym < 44
    → behind_dist mru sym r
      ≡ (read_extra (get_or dist_table sym (0, 0)).1
            >>= fresh_offset mru (get_or dist_table sym (0, 0)).0)
          r
unfolding read_fresh
read_fresh_entry sym mru r h =
    rw
      (
        gt→leb rep_offset_0 sym (omega arith),
        get_or_default dist_table sym (1, 22) (0, 0) (omega arith),
      )
      refl

module _ (lengths : List ℕ) (free : IsPrefixFree lengths) (few : length lengths < 2 ^ 16) where
  -- A symbol with its extra bits, read by a function that goes on with the extra bits.
  pub transfer_coded :
      {A : Type 0} (l : ℕ) (s : Coded) (next : ℕ → Reader A) (rest : ℕ → Reader A)
      (write : BitWriter → BitWriter) (a : A)
      → HasCode lengths s.code
      → s.extra ≤ 24
      → s.value < 2 ^ s.extra
      → ((r : BitReader) → next s.code r ≡ (read_extra s.extra >>= rest) r)
      → Transfers l write (rest s.value) a
      → Transfers
          (15 + (24 + l))
          (λ w. write (write_coded (codes_of lengths) s w))
          (symbol (table_of lengths) >>= next)
          a
  unfolding write_coded symbol
  transfer_coded l s next rest write a c small fits same t =
      transfer_then 15 (24 + l) (λ w. write_code w (get_or (codes_of lengths) s.code default_code))
        (λ w. write (if ltb 0 s.extra then write_bits w s.value s.extra else w)) _ next s.code a
        (transfer_code lengths s.code free few c)
        (transfer_ext (24 + l) (24 + l)
          (λ w. write (if ltb 0 s.extra then write_bits w s.value s.extra else w))
          (read_extra s.extra >>= rest) (next s.code) a (omega arith) same
          (transfer_then 24 l _ write (read_extra s.extra) rest s.value a
            (transfer_extra s.value s.extra small fits) t))

  transfer_repeat :
      (offset idx : ℕ) (mru : MruCache)
      → find offset mru ≡ some idx
      → HasCode lengths (dist_symbol offset mru).code
      → Transfers 39
          (write_coded (codes_of lengths) (dist_symbol offset mru))
          (read_offset (table_of lengths) mru)
          (offset, update_mru offset mru)
  unfolding read_offset
  transfer_repeat offset idx mru h c =
      let s : Coded = record { code = rep_offset_0 + idx; extra = 0; value = 0 } in
      let e : dist_symbol offset mru ≡ s = dist_symbol-found offset idx mru h in
      let c' : HasCode lengths s.code = rw e at c in
      rw e (
        transfer_coded 0 s (behind_dist mru) (λ v. pure (offset, update_mru offset mru)) (λ w. w)
          (offset, update_mru offset mru) c' (omega arith) (omega arith)
          (λ r. read_repeated offset idx mru r h ∙ unfold read_extra in refl)
          (transfer_pure (offset, update_mru offset mru)))

  transfer_fresh :
      (offset : ℕ) (mru : MruCache)
      → find offset mru ≡ none
      → 1 ≤ offset
      → offset ≤ 2 ^ 22
      → HasCode lengths (dist_symbol offset mru).code
      → Transfers 39
          (write_coded (codes_of lengths) (dist_symbol offset mru))
          (read_offset (table_of lengths) mru)
          (offset, update_mru offset mru)
  unfolding read_offset
  transfer_fresh offset mru h pos top c =
      let s = encode_offset offset in
      let k = encode_offset-CodesOffset offset pos top in
      let base = (get_or dist_table s.code (0, 0)).0 in
      let e : dist_symbol offset mru ≡ s = dist_symbol-fresh offset mru h in
      let c' : HasCode lengths s.code = rw e at c in
      let whole : u32 (base + s.value) ≡ offset = omega (arith, k.sum) in
      let small : s.extra ≤ 24 = omega (arith, k.few) in
      let value : ◌≡◌ {A = ℕ × MruCache} (u32 (base + s.value), insert (u32 (base + s.value)) mru)
          (offset, update_mru offset mru) =
        rw (whole, update_mru-fresh offset mru h) refl in
      rw e (
        transfer_coded 0 s (behind_dist mru) (fresh_offset mru base) (λ w. w)
          (offset, update_mru offset mru) c' small k.fits
          (λ r. read_fresh_entry s.code mru r k.last ∙ rw (← k.extra_lem) refl)
          (subst (λ a. Transfers 0 (λ w. w) (fresh_offset mru base s.value) a) value
            (transfer_pure (u32 (base + s.value), insert (u32 (base + s.value)) mru))))

  pub transfer_offset :
      (offset : ℕ) (mru : MruCache)
      → 1 ≤ offset
      → offset ≤ 2 ^ 22
      → HasCode lengths (dist_symbol offset mru).code
      → Transfers 39
          (write_coded (codes_of lengths) (dist_symbol offset mru))
          (read_offset (table_of lengths) mru)
          (offset, update_mru offset mru)
  transfer_offset offset mru pos top c = elim (Option-cases (find offset mru)) [
    | inl h ↦ transfer_fresh offset mru h pos top c
    | inr (idx, h) ↦ transfer_repeat offset idx mru h c
  ]
