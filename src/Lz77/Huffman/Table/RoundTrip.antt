-- ===== src/Lz77/Huffman/Table/RoundTrip.antt =====
-- Reading a code that was written.
use nexcomp.Base.{
  ℕ, ◌+◌, ◌-◌, ◌*◌, ◌/◌, ◌%◌, ◌^◌, ◌<◌, ◌≤◌, ◌≡◌, ◌⊎◌, refl, ap, ◌∙◌, arith, inl, inr, some, List,
  length, get_or, le→ltb, ne→==,
}
use nexcomp.Base.Words.{u32}
use nexcomp.Base.Bits.{bit_and, bit_and_mask, bit_or_fields}
use nexcomp.Base.Powers.{pow-pos, pow-le, low_of, high_of, mod-pow-mod}
use native.Mathlib.Nat.{mod-eq_of_lt, mod-lt}
use nexcomp.Lz77.Huffman.Bits.{BitReader, ensure_bits, consume}
use nexcomp.Lz77.Huffman.Bits.Transfer.{Read, Transfers}
use nexcomp.Lz77.Huffman.Bits.Writing.{write_bits-Appends}
use nexcomp.Lz77.Huffman.Bits.Reading.{
  remaining, available, IsReader, Loads, ensure_bits-Loads, consume-Takes, loaded_bits,
}
use nexcomp.Lz77.Huffman.Codes.{HuffCode, default_code, max_len, reverse_bits, canonical_codes}
use nexcomp.Lz77.Huffman.Codes.Reversal.{reverse_bits-lt}
use nexcomp.Lz77.Huffman.Codes.Intervals.{len_of, code_of, HasCode, IsPrefixFree, len_of-le}
use nexcomp.Lz77.Huffman.Codes.Assigned.{canonical_codes-len, canonical_codes-bits}
use nexcomp.Lz77.Huffman.Table.{
  HuffDecodeTable, write_code, entry, build_decode_table, read_huffman_checked,
}
use nexcomp.Lz77.Huffman.Table.Entries.{Starts}
use nexcomp.Lz77.Huffman.Table.Canonical.{
  code, table_len, table_len_bounds, table_holds, table-lookup, table-len,
}

-- Enough bits are loaded for a code that the data holds.
loaded_enough :
    (need len : ℕ) (r full : BitReader)
    → Loads need r full
    → len ≤ need
    → len ≤ available r
    → len ≤ full.bits_in
loaded_enough need len r full l h a = enough l.enough
  where
    enough : (need ≤ full.bits_in) ⊎ (length full.bytes ≤ full.pos) → len ≤ full.bits_in
    enough (inl k) = omega arith
    enough (inr k) = omega (arith, l.same_available)

-- A table that holds the entry of a code at the bits to come.
read_found :
    (r : BitReader) (table : HuffDecodeTable) (len i : ℕ)
    → table.max_len ≤ max_len
    → 0 < len
    → len ≤ table.max_len
    → i < 2 ^ 16
    → IsReader r
    → len ≤ available r
    → table.lookup (remaining r % 2 ^ table.max_len) ≡ entry len i
    → read_huffman_checked r table ≡ some (i, consume (ensure_bits r table.max_len) len)
unfolding read_huffman_checked
read_found r table len i top pos h few v a found =
    let m = table.max_len in
    let full = ensure_bits r m in
    let l = ensure_bits-Loads r m (omega arith) v in
    let mask : u32 (2 ^ m) ≡ 2 ^ m = mod-eq_of_lt (omega (arith, pow-le m 15 top)) in
    let peek : bit_and full.current (2 ^ m - 1) ≡ remaining r % 2 ^ m =
      bit_and_mask m full.current
      ∙ loaded_bits full m l.enough
      ∙ ap (λ t. t % 2 ^ m) l.same_remaining in
    let sum : entry len i ≡ len * 2 ^ 16 + i = bit_or_fields 16 len i few in
    let high : (len * 2 ^ 16 + i) / 2 ^ 16 ≡ len = omega arith in
    let low : bit_and (len * 2 ^ 16 + i) 0xffff ≡ i =
      bit_and_mask 16 (len * 2 ^ 16 + i) ∙ omega arith in
    rw
      (
        mask,
        peek,
        found,
        sum,
        high,
        low,
        ne→== len 0 (omega arith),
        le→ltb full.bits_in len (loaded_enough m len r full l h a),
      )
      refl

-- For fewer than 2^16 lengths that meet Kraft's inequality, and a reader between two calls: if the
-- bits to come start with the canonical code of a symbol that has one, and the data holds all bits
-- of the code, the table that is built from the codes finds the symbol and leaves the bits behind
-- it.
pub read_huffman_checked-canonical_codes :
    (lengths : List ℕ) (i rest : ℕ) (r : BitReader)
    → IsPrefixFree lengths
    → length lengths < 2 ^ 16
    → HasCode lengths i
    → IsReader r
    → len_of lengths i ≤ available r
    → remaining r
      ≡ reverse_bits (code_of lengths i) (len_of lengths i) + 2 ^ len_of lengths i * rest
    → Read r i (len_of lengths i) rest (
        read_huffman_checked r
          (build_decode_table (canonical_codes lengths (length lengths)) (length lengths)))
read_huffman_checked-canonical_codes lengths i rest r free few c v a start =
    let l = len_of lengths i in
    let table = build_decode_table (canonical_codes lengths (length lengths)) (length lengths) in
    let size = table-len lengths free few in
    let (h, top) = table_len_bounds lengths free few i in
    let fits = reverse_bits-lt (code_of lengths i) l (omega arith) in
    let pattern = remaining r % 2 ^ table.max_len in
    let first : pattern % 2 ^ l ≡ reverse_bits (code_of lengths i) l =
      mod-pow-mod l table.max_len (remaining r) (omega arith)
      ∙ ap (λ t. t % 2 ^ l) start
      ∙ low_of l (reverse_bits (code_of lengths i) l) rest fits in
    let starts : Starts (code lengths free few i) pattern =
      rw
        (
          canonical_codes-len lengths (length lengths) i,
          canonical_codes-bits lengths (length lengths) i free few c,
        )
        first in
    let short : pattern < 2 ^ table_len lengths free few =
      rw (← size) (mod-lt (remaining r) (pow-pos table.max_len)) in
    let found : table.lookup pattern ≡ entry l i =
      table-lookup lengths free few pattern
      ∙ table_holds lengths free few i pattern c starts short in
    let full = ensure_bits r table.max_len in
    let loads = ensure_bits-Loads r table.max_len (omega arith) v in
    let takes =
      consume-Takes table.max_len l r full loads
        (inl (loaded_enough table.max_len l r full loads (omega arith) a)) in
    record {
      next = consume full l;
      found_lem =
          read_found r table l i (omega arith) c.1 (omega arith) (omega (arith, c.0)) v a found;
      remaining_lem =
          takes.remaining_lem
          ∙ ap (λ t. t / 2 ^ l) start
          ∙ high_of l (reverse_bits (code_of lengths i) l) rest fits;
      available_lem = takes.available_lem;
      reader = takes.reader;
    }

abbrev pub codes_of : List ℕ → List HuffCode
codes_of lengths = canonical_codes lengths (length lengths)

-- Writing the code of a symbol, and reading with the table.
pub transfer_code :
    (lengths : List ℕ) (i : ℕ)
    → IsPrefixFree lengths
    → length lengths < 2 ^ 16
    → HasCode lengths i
    → Transfers 15
        (λ w. write_code w (get_or (codes_of lengths) i default_code))
        (λ r. read_huffman_checked r (build_decode_table (codes_of lengths) (length lengths)))
        i
unfolding write_code
transfer_code lengths i free few c =
    let l = len_of lengths i in
    let short = len_of-le lengths i free in
    record {
      bits = reverse_bits (code_of lengths i) l;
      count = l;
      bounded = short;
      writes = λ w v.
          rw
            (
              canonical_codes-len lengths (length lengths) i,
              canonical_codes-bits lengths (length lengths) i free few c,
            )
            (write_bits-Appends w (reverse_bits (code_of lengths i) l) l (omega arith)
              (reverse_bits-lt (code_of lengths i) l (omega arith)) v);
      reads =
          λ r rest v h e. read_huffman_checked-canonical_codes lengths i rest r free few c v h e;
    }
