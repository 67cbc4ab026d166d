-- ===== src/Lz77/Huffman/Bits/Transfer.antt =====
-- A writer and a reader that fit: what the one appends, the other takes off again and returns.
-- The limit is one on the number of bits.
use nexcomp.Base.{
  ℕ, ◌+◌, ◌-◌, ◌*◌, ◌/◌, ◌%◌, ◌^◌, ◌<◌, ◌≤◌, ◌≡◌, refl, ap, ◌∙◌, arith, Option, none, some, length,
}
use nexcomp.Base.Powers.{pow-add, low_of, high_of}
use mathlib.Core.Path.{subst}
use native.Mathlib.Nat.{mul_assoc, pow-zero}
use nexcomp.Base.Words.{IsBytes, of_le}
use nexcomp.Lz77.Huffman.Bits.{
  BitWriter, BitReader, new_writer, new_reader, finish, bit_count, Reader, read, ◌>>=◌, pure,
  write_bits, read_bits,
}
use nexcomp.Lz77.Huffman.Bits.Writing.{
  content, scale, IsFlushed, Appends, write_bits-Appends, new_writer-IsFlushed, new_writer-size,
  new_writer-content, new_writer-scale, of_le-finish, finish-IsBytes, length-finish,
  length-finish_le,
}
use nexcomp.Lz77.Huffman.Bits.Reading.{
  remaining, available, IsReader, read_bits_lem, new_reader-remaining, new_reader-IsReader,
}

-- What a read found: the value, and the bits behind it.
pub record Read {A : Type 0} (r : BitReader) (a : A) (count rest : ℕ)
    (found : Option (A × BitReader)) : Type 0 where
  pub next : BitReader
  pub found_lem : found ≡ some (a, next)
  pub remaining_lem : remaining next ≡ rest
  pub available_lem : available next ≡ available r - count
  pub reader : IsReader next

pub record Transfers {A : Type 0} (limit : ℕ) (write : BitWriter → BitWriter) (m : Reader A) (a : A)
    : Type 0 where
  pub bits : ℕ
  pub count : ℕ
  pub bounded : count ≤ limit
  pub writes : (w : BitWriter) → IsFlushed w → Appends w (write w) bits count
  pub reads :
      (r : BitReader) (rest : ℕ)
      → IsReader r
      → count ≤ available r
      → remaining r ≡ bits + 2 ^ count * rest
      → Read r a count rest (m r)

pub transfer_pure : {A : Type 0} (a : A) → Transfers 0 (λ w. w) (pure a) a
transfer_pure a = record {
  bits = 0;
  count = 0;
  bounded = omega arith;
  writes = λ w v. record {
    content_lem = omega arith;
    scale_lem = omega (arith, pow-zero 2);
    size_lem = omega arith;
    flushed = v;
  };
  reads = λ r rest v h e. record {
    next = r;
    found_lem = refl;
    remaining_lem = e ∙ omega arith;
    available_lem = omega arith;
    reader = v;
  };
}

pub transfer_bits :
    (value count : ℕ)
    → count ≤ 24
    → value < 2 ^ count
    → Transfers count (λ w. write_bits w value count) (read count) value
unfolding read
transfer_bits value count small fits = record {
  bits = value;
  count = count;
  bounded = omega arith;
  writes = λ w v. write_bits-Appends w value count small fits v;
  reads = λ r rest v h e.
      let (found, takes) = read_bits_lem r count (omega arith) v in
      record {
        next = (read_bits r count).1;
        found_lem =
            ap (λ n. some (n, (read_bits r count).1))
              (found ∙ ap (λ n. n % 2 ^ count) e ∙ low_of count value rest fits);
        remaining_lem =
            takes.remaining_lem ∙ ap (λ n. n / 2 ^ count) e ∙ high_of count value rest fits;
        available_lem = takes.available_lem;
        reader = takes.reader;
      };
}

stacked : (p q n m rest : ℕ) → p + 2 ^ n * q + 2 ^ (n + m) * rest ≡ p + 2 ^ n * (q + 2 ^ m * rest)
stacked p q n m rest = rw (pow-add 2 n m) (grind (arith, mul_assoc (2 ^ n) (2 ^ m) rest))

placed : (c s p n q : ℕ) → c + s * p + s * n * q ≡ c + s * (p + n * q)
placed c s p n q = grind arith

-- One write after the other, and one read after the other.
pub transfer_then :
    {A B : Type 0} (l l' : ℕ) (write write' : BitWriter → BitWriter) (m : Reader A)
    (next : A → Reader B) (a : A) (b : B)
    → Transfers l write m a
    → Transfers l' write' (next a) b
    → Transfers (l + l') (λ w. write' (write w)) (m >>= next) b
transfer_then {B} l l' write write' m next a b s t = record {
  bits = s.bits + 2 ^ s.count * t.bits;
  count = s.count + t.count;
  bounded = omega (arith, s.bounded, t.bounded);
  writes = λ w v.
      let first = s.writes w v in
      let second = t.writes (write w) first.flushed in
      record {
        content_lem =
            second.content_lem
            ∙ rw (first.content_lem, first.scale_lem)
                (placed (content w) (scale w) s.bits (2 ^ s.count) t.bits);
        scale_lem =
            second.scale_lem
            ∙ rw (first.scale_lem, pow-add 2 s.count t.count)
                (mul_assoc (scale w) (2 ^ s.count) (2 ^ t.count));
        size_lem = omega (arith, second.size_lem, first.size_lem);
        flushed = second.flushed;
      };
  reads = λ r rest v h e.
      let first =
        s.reads r (t.bits + 2 ^ t.count * rest) v (omega arith)
          (e ∙ stacked s.bits t.bits s.count t.count rest) in
      let second =
        t.reads first.next rest first.reader (omega (arith, first.available_lem))
          first.remaining_lem in
      record {
        next = second.next;
        found_lem =
            ap {B = Option (B × BitReader)} (λ o. elim o [ none ↦ none | some (x, r') ↦ next x r' ])
              first.found_lem
            ∙ second.found_lem;
        remaining_lem = second.remaining_lem;
        available_lem = omega (arith, second.available_lem, first.available_lem);
        reader = second.reader;
      };
}

-- A reader that does the same, and a larger limit.
pub transfer_ext :
    {A : Type 0} (l l' : ℕ) (write : BitWriter → BitWriter) (m m' : Reader A) (a : A)
    → l ≤ l'
    → ((r : BitReader) → m' r ≡ m r)
    → Transfers l write m a
    → Transfers l' write m' a
transfer_ext l l' write m m' a le same t = record {
  bits = t.bits;
  count = t.count;
  bounded = omega (arith, t.bounded);
  writes = t.writes;
  reads = λ r rest v h e.
      let found = t.reads r rest v h e in
      record {
        next = found.next;
        found_lem = same r ∙ found.found_lem;
        remaining_lem = found.remaining_lem;
        available_lem = found.available_lem;
        reader = found.reader;
      };
}

-- A writer that does the same.
pub transfer_write_ext :
    {A : Type 0} (l : ℕ) (write write' : BitWriter → BitWriter) (m : Reader A) (a : A)
    → ((w : BitWriter) → write w ≡ write' w)
    → Transfers l write m a
    → Transfers l write' m a
transfer_write_ext l write write' m a same t = record {
  bits = t.bits;
  count = t.count;
  bounded = t.bounded;
  writes = λ w v. subst (λ r. Appends w r t.bits t.count) (same w) (t.writes w v);
  reads = t.reads;
}

-- What was written to a new writer is read from its bytes, which are not too many.
pub transfer_whole :
    {A : Type 0} (l : ℕ) (write : BitWriter → BitWriter) (m : Reader A) (a : A)
    → Transfers l write m a
    → (r : BitReader) × (m (new_reader (finish (write new_writer))) ≡ some (a, r))
      × (8 * length (finish (write new_writer)) ≤ l + 7)
      × IsBytes (finish (write new_writer))
transfer_whole l write m a t =
    let w = write new_writer in
    let bytes = finish w in
    let done = t.writes new_writer new_writer-IsFlushed in
    let size : bit_count w ≡ t.count = omega (arith, done.size_lem, new_writer-size) in
    let number : of_le bytes ≡ t.bits =
      of_le-finish w done.flushed
      ∙ omega (arith, done.content_lem, new_writer-content, new_writer-scale (t.bits)) in
    let start : remaining (new_reader bytes) ≡ t.bits + 2 ^ t.count * 0 =
      omega (arith, new_reader-remaining bytes) in
    let v = new_reader-IsReader bytes (finish-IsBytes w done.flushed) in
    let found =
      t.reads (new_reader bytes) 0 v (omega (arith, length-finish w done.flushed)) start in
    (
      found.next,
      found.found_lem,
      (omega (arith, length-finish_le w done.flushed, t.bounded)),
      finish-IsBytes w done.flushed,
    )
