-- ===== src/Codecs/Rle/RoundTrip.antt =====
-- Runs are read back, up to the length that three bytes of a varint can hold.
use nexcomp.Base.{
  ℕ, zero, suc, ◌+◌, ◌-◌, ◌*◌, ◌/◌, ◌%◌, ◌^◌, ◌≤◌, ◌<◌, ◌≡◌, refl, ap, ◌∙◌, arith, [], ◌∷◌, ◌++◌,
  append_assoc, append-nil, ==→eq, Bool-cases, inl, inr, ltb→lt, ltb, eq→==, ◌==◌, length, drop,
  replicate, ok, err, drop-append_length, drop_all, length-replicate, length-drop, length-append,
}
use nexcomp.Base.Words.{Bytes, u8}
use nexcomp.Base.Bits.{bit_and, bit_or, bit_and_mask, bit_and_power, bit_or_fields, bit_or_low}
use nexcomp.Codecs.Rle.{
  varint_encode, varint_decode, run_length, rle_encode, rle_encode_loop, rle_decode,
  rle_decode_loop, rle_decode_run, zero_run,
}

-- The flag of a byte that another byte follows.
flagged : (n : ℕ) → bit_or 0x80 (bit_and n 0x7f) ≡ 128 + n % 128
flagged n = rw (bit_and_mask 7 n) (bit_or_fields 7 1 (n % 128) (omega arith))

flag_of : (m : ℕ) → m < 128 → (bit_and (128 + m) 0x80 ≡ 128) × (bit_and (128 + m) 0x7f ≡ m)
flag_of m h = (bit_and_power 7 (128 + m) ∙ omega arith, bit_and_mask 7 (128 + m) ∙ omega arith)

no_flag : (m : ℕ) → m < 128 → bit_and m 0x80 ≡ 0
no_flag m h = bit_and_power 7 m ∙ omega arith

varint_one : (m : ℕ) (rest : Bytes) → m < 128 → varint_decode (m ∷ rest) ≡ ok (m, 1)
unfolding varint_decode
varint_one m [] h = rw (no_flag m h) refl
varint_one m (b ∷ []) h = rw (no_flag m h) refl
varint_one m (b ∷ c ∷ rest) h = rw (no_flag m h) refl

varint_two :
    (m n : ℕ) (rest : Bytes)
    → m < 128
    → n < 128
    → varint_decode ((128 + m) ∷ n ∷ rest) ≡ ok (m + n * 2 ^ 7, 2)
unfolding varint_decode
varint_two m n [] h k = rw ((flag_of m h).0, no_flag n k, (flag_of m h).1, bit_or_low 7 n m h) refl
varint_two m n (c ∷ rest) h k =
    rw ((flag_of m h).0, no_flag n k, (flag_of m h).1, bit_or_low 7 n m h) refl

varint_three :
    (m n o : ℕ) (rest : Bytes)
    → m < 128
    → n < 128
    → varint_decode ((128 + m) ∷ (128 + n) ∷ o ∷ rest) ≡ ok (m + n * 2 ^ 7 + o * 2 ^ 14, 3)
unfolding varint_decode
varint_three m n o rest h k =
    rw
      (
        (flag_of m h).0,
        (flag_of n k).0,
        (flag_of m h).1,
        (flag_of n k).1,
        bit_or_low 7 n m h,
        bit_or_low 14 o (m + n * 2 ^ 7) (omega arith),
      )
      refl

-- Any count is read back from its varint, less what its third byte cannot hold.
varint_decode-varint_encode :
    (count : ℕ) (rest : Bytes)
    → varint_decode (varint_encode count ++ rest)
      ≡ ok (count % 2 ^ 22, length (varint_encode count))
unfolding varint_encode
varint_decode-varint_encode count rest = elim (Bool-cases (ltb count 128)) [
  | inl s ↦
      let small = ltb→lt count 128 s in
      let v : u8 count ≡ count % 2 ^ 22 = omega arith in
      rw (s, varint_one (u8 count) rest (omega arith), v) refl
  | inr s ↦ elim (Bool-cases (ltb count 16384)) [
    | inl t ↦
        let small = ltb→lt count 16384 t in
        let v : count % 128 + u8 (count / 2 ^ 7) * 2 ^ 7 ≡ count % 2 ^ 22 = omega arith in
        rw
          (
            s,
            t,
            flagged count,
            varint_two (count % 128) (u8 (count / 2 ^ 7)) rest (omega arith) (omega arith),
            v,
          )
          refl
    | inr t ↦
        let v : count % 128 + count / 2 ^ 7 % 128 * 2 ^ 7 + u8 (count / 2 ^ 14) * 2 ^ 14
            ≡ count % 2 ^ 22 =
          omega arith in
        rw
          (
            s,
            t,
            flagged count,
            flagged (count / 2 ^ 7),
            varint_three (count % 128) (count / 2 ^ 7 % 128) (u8 (count / 2 ^ 14)) rest
                (omega arith) (omega arith),
            v,
          )
          refl
  ]
]

run_length-le : (val : ℕ) (bytes : Bytes) → run_length val bytes ≤ length bytes
unfolding run_length
run_length-le val [] = omega arith
run_length-le val (b ∷ bytes) = ground (arith, run_length-le val bytes)

-- The bytes of a run are what `resize` writes for it.
run_split :
    (val : ℕ) (bytes : Bytes)
    → replicate (run_length val bytes) val ++ drop (run_length val bytes) bytes ≡ bytes
unfolding run_length
run_split val [] = refl
run_split val (b ∷ bytes) = elim (Bool-cases (b == val)) [
  | inl t ↦ rw (t, run_split val bytes, ==→eq b val t) refl
  | inr t ↦ rw t refl
]

-- One round on the bytes of one run of less than 2 ^ 22 bytes.
decode_run :
    (fuel more val : ℕ) (rest out : Bytes)
    → more + 1 < 2 ^ 22
    → rle_decode_loop (suc fuel) (val ∷ (varint_encode (1 + more) ++ rest)) out
      ≡ rle_decode_loop fuel rest (out ++ replicate (suc more) val)
unfolding rle_decode_loop rle_decode_run
decode_run fuel more val rest out h =
    let v : (1 + more) % 2 ^ 22 ≡ suc more = omega arith in
    rw (varint_decode-varint_encode (1 + more) rest, v)
      (ap (λ (d : Bytes). rle_decode_loop fuel d (out ++ replicate (suc more) val))
        (drop-append_length (varint_encode (1 + more)) rest))

rle_loops :
    (fuel fuel' : ℕ) (bytes out : Bytes)
    → length bytes ≤ fuel
    → length (rle_encode_loop fuel bytes) ≤ fuel'
    → length bytes < 2 ^ 22
    → rle_decode_loop fuel' (rle_encode_loop fuel bytes) out ≡ ok (out ++ bytes)
unfolding rle_encode_loop
rle_loops fuel fuel' [] out h k small = rw (append-nil out) (unfold rle_decode_loop in refl)
rle_loops zero fuel' (val ∷ bytes) out h k small = absurd (omega arith)
rle_loops (suc fuel) zero (val ∷ bytes) out h k small = absurd (omega arith)
rle_loops (suc fuel) (suc fuel') (val ∷ bytes) out h k small =
    let more = run_length val bytes in
    let rest = drop more bytes in
    let count = varint_encode (1 + more) in
    let left : length rest ≡ length bytes - more = length-drop more bytes in
    let size : length (count ++ rle_encode_loop fuel rest)
        ≡ length count + length (rle_encode_loop fuel rest) =
      length-append count (rle_encode_loop fuel rest) in
    let whole : replicate more val ++ rest ≡ bytes = run_split val bytes in
    decode_run fuel' more val (rle_encode_loop fuel rest) out
      (omega (arith, run_length-le val bytes))
    ∙ rle_loops fuel fuel' rest (out ++ replicate (suc more) val) (omega arith) (omega arith)
        (omega arith)
    ∙ ap ok (append_assoc out (replicate (suc more) val) rest ∙ ap (λ t. out ++ val ∷ t) whole)

-- Fewer than 2 ^ 22 bytes are read back from their runs.
pub rle_decode-rle_encode :
    (bytes : Bytes) → length bytes < 2 ^ 22 → rle_decode (rle_encode bytes) ≡ ok bytes
unfolding rle_decode rle_encode
rle_decode-rle_encode bytes small =
    rle_loops (length bytes) (length (rle_encode_loop (length bytes) bytes)) bytes [] (omega arith)
      (omega arith) small

run_length-replicate : (n val : ℕ) → run_length val (replicate n val) ≡ n
unfolding run_length
run_length-replicate zero val = refl
run_length-replicate (suc n) val = rw (eq→== val val refl, run_length-replicate n val) refl

-- The round on a run whose count is a multiple of 2 ^ 22.
encode_run :
    (fuel more val : ℕ)
    → rle_encode_loop (suc fuel) (val ∷ replicate more val)
      ≡ val ∷ (varint_encode (1 + more) ++ rle_encode_loop fuel [])
unfolding rle_encode_loop
encode_run fuel more val =
    let gone : drop more (replicate more val) ≡ [] =
      drop_all more (replicate more val) (omega (arith, length-replicate more val)) in
    rw (run_length-replicate more val, gone) refl

decode_zero :
    (fuel more val : ℕ) (rest : Bytes)
    → (1 + more) % 2 ^ 22 ≡ 0
    → rle_decode_loop (suc fuel) (val ∷ (varint_encode (1 + more) ++ rest)) [] ≡ err zero_run
unfolding rle_decode_loop rle_decode_run
decode_zero fuel more val rest h = rw (varint_decode-varint_encode (1 + more) rest, h) refl

-- A run whose length is a multiple of 2 ^ 22, such as a full block, does not come back: its count
-- reads as zero, which the decoder refuses.
pub rle_decode-rle_encode_wrapped :
    (n val : ℕ) → 0 < n → n % 2 ^ 22 ≡ 0 → rle_decode (rle_encode (replicate n val)) ≡ err zero_run
unfolding rle_decode rle_encode
rle_decode-rle_encode_wrapped zero val h e = absurd (omega arith)
rle_decode-rle_encode_wrapped (suc more) val h e =
    ap (λ (e : Bytes). rle_decode_loop (length e) e [])
      (encode_run (length (replicate more val)) more val)
    ∙ decode_zero _ more val (rle_encode_loop (length (replicate more val)) []) (omega arith)
