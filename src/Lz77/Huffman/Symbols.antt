-- ===== src/Lz77/Huffman/Symbols.antt =====
-- The symbols of lengths and offsets stand for them.
use nexcomp.Base.{
  ℕ, zero, suc, ◌+◌, ◌-◌, ◌^◌, ◌<◌, ◌≤◌, ◌≡◌, refl, arith, Bool, true, false, ◌&&◌, if◌then◌else◌,
  inl, inr, Bool-cases, List, [], ◌∷◌, get_or, ltb, leb, ◌==◌, length, ==→eq, leb→le, leb→gt,
  lt→ltb,
}
use nexcomp.Lz77.Huffman.{
  Coded, length_table, dist_table, encode_length, encode_offset, offset_loop, range,
}

-- How many of the first `n` numbers fail a test.
failures : (ℕ → Bool) → ℕ → ℕ
failures test zero = 0
failures test (suc n) = (if test n then 0 else 1) + failures test n

failures-none : (test : ℕ → Bool) (n i : ℕ) → i < n → failures test n ≡ 0 → test i ≡ true
unfolding failures
failures-none test zero i below none_fails = absurd (omega arith)
failures-none test (suc n) i below none_fails = ground (arith, failures-none test n i)

abbrev length_base : ℕ → ℕ
length_base code = (get_or length_table (code - 257) (0, 0)).0

abbrev length_extra : ℕ → ℕ
length_extra code = (get_or length_table (code - 257) (0, 0)).1

-- A symbol with extra bits stands for a length.
pub record CodesLength (c : Coded) (length : ℕ) : Type 0 where
  pub least : 257 ≤ c.code
  pub last : c.code < 286
  pub extra_lem : c.extra ≡ length_extra c.code
  pub few : c.extra ≤ 5
  pub fits : c.value < 2 ^ c.extra
  pub sum : length_base c.code + c.value ≡ length

codes_length : Coded → ℕ → Bool
codes_length c length =
    leb 257 c.code
    && (ltb c.code 286
        && (c.extra == length_extra c.code
            && (leb c.extra 5
                && (ltb c.value (2 ^ c.extra) && (length_base c.code + c.value == length)))))

all_lengths : failures (λ k. codes_length (encode_length (k + 3)) (k + 3)) 256 ≡ 0
unfolding failures codes_length encode_length
all_lengths = refl

codes_length_sound : (c : Coded) (length : ℕ) → codes_length c length ≡ true → CodesLength c length
unfolding codes_length
codes_length_sound c length h = ground arith

pub encode_length-CodesLength :
    (length : ℕ) → 3 ≤ length → length ≤ 258 → CodesLength (encode_length length) length
encode_length-CodesLength length h k =
    let e : length - 3 + 3 ≡ length = omega arith in
    rw (← e) (
      codes_length_sound (encode_length (length - 3 + 3)) (length - 3 + 3) (
        failures-none (λ k. codes_length (encode_length (k + 3)) (k + 3)) 256 (length - 3)
          (omega arith) all_lengths))

abbrev dist_base : ℕ → ℕ
dist_base code = (get_or dist_table code (0, 0)).0

abbrev dist_extra : ℕ → ℕ
dist_extra code = (get_or dist_table code (0, 0)).1

-- A symbol with extra bits stands for an offset.
pub record CodesOffset (c : Coded) (offset : ℕ) : Type 0 where
  pub last : c.code < 44
  pub extra_lem : c.extra ≡ dist_extra c.code
  pub few : c.extra ≤ 20
  pub fits : c.value < 2 ^ c.extra
  pub sum : dist_base c.code + c.value ≡ offset

-- Each entry of the table ends where the next one starts, and the last one behind 2 ^ 22.
abbrev end_of : ℕ → ℕ
end_of n = (get_or dist_table n (4194305, 0)).0

contiguous : ℕ → Bool
contiguous i =
    (dist_base i + range (dist_extra i) == end_of (suc i))
    && (leb (dist_extra i) 20 && (range (dist_extra i) == 2 ^ dist_extra i))

all_contiguous : failures contiguous 44 ≡ 0
unfolding failures contiguous
all_contiguous = refl

base_start : (n : ℕ) → n < 44 → end_of n ≡ dist_base n
base_start n h = get_or_default dist_table n h
  where
    get_or_default :
        (t : List (ℕ × ℕ)) (n : ℕ)
        → n < length t
        → (get_or t n (4194305, 0)).0 ≡ (get_or t n (0, 0)).0
    get_or_default [] n h = absurd (omega arith)
    get_or_default (x ∷ t) zero h = refl
    get_or_default (x ∷ t) (suc n) h = get_or_default t n (omega arith)

record Entry (i : ℕ) : Type 0 where
  ends : dist_base i + range (dist_extra i) ≡ end_of (suc i)
  small : dist_extra i ≤ 20
  exact : range (dist_extra i) ≡ 2 ^ dist_extra i

both : (a b : Bool) → (a && b) ≡ true → (a ≡ true) × (b ≡ true)
both true true h = (refl, refl)
both true false h = cc
both false b h = cc

contiguous-Entry : (i : ℕ) → contiguous i ≡ true → Entry i
unfolding contiguous
contiguous-Entry i t =
    let (first, rest) = both _ _ t in
    let (second, third) = both _ _ rest in
    record { ends = ==→eq _ _ first; small = leb→le _ _ second; exact = ==→eq _ _ third }

nth-Entry : (i : ℕ) → i < 44 → Entry i
nth-Entry i h = contiguous-Entry i (failures-none contiguous 44 i h all_contiguous)

offset_loop-CodesOffset :
    (n offset : ℕ)
    → n ≤ 44
    → 1 ≤ offset
    → offset < end_of n
    → CodesOffset (offset_loop n offset) offset
unfolding offset_loop
offset_loop-CodesOffset zero offset h pos lt = absurd (omega arith)
offset_loop-CodesOffset (suc i) offset h pos lt = elim (Bool-cases (leb (dist_base i) offset)) [
  | inl t ↦
      let e = nth-Entry i (omega arith) in
      rw (t, lt→ltb offset (dist_base i + range (dist_extra i)) (omega (arith, e.ends)))
        (record {
          last = omega arith;
          extra_lem = refl;
          few = e.small;
          fits = omega (arith, e.ends, e.exact, leb→le (dist_base i) offset t);
          sum = omega (arith, leb→le (dist_base i) offset t);
        })
  | inr t ↦ rw t (
      offset_loop-CodesOffset i offset (omega arith) pos
        (omega (arith, base_start i (omega arith), leb→gt (dist_base i) offset t)))
]

pub encode_offset-CodesOffset :
    (offset : ℕ) → 1 ≤ offset → offset ≤ 2 ^ 22 → CodesOffset (encode_offset offset) offset
unfolding encode_offset
encode_offset-CodesOffset offset pos h =
    offset_loop-CodesOffset 44 offset (omega arith) pos (omega arith)
