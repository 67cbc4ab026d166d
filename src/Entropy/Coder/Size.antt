-- ===== src/Entropy/Coder/Size.antt =====
-- The size of the output of src/entropy/mod.rs: at most eight bytes for each symbol and eight more.
use nexcomp.Base.{
  ℕ, zero, suc, ◌+◌, ◌*◌, ◌/◌, ◌^◌, ◌≤◌, ◌≡◌, refl, ap, ◌∙◌, arith, Bool-cases, inl, inr, [], ◌∷◌,
  ◌++◌, reverse, length, length-append, get_or, leb, ◌==◌, Result, ok, err, stuck, succeeded,
  fail_if, ◌>>◌,
}
use mathlib.Core.List.{reverse-append}
use nexcomp.Base.Words.{Bytes}
use nexcomp.Base.Bits.{bit_and}
use nexcomp.Entropy.Table.{
  RansError, RansTable, symbol_out_of_range, zero_frequency, scale_bits, rans_l,
}
use nexcomp.Entropy.Coder.{
  Encoder, new_encoder, advance, renormalize, encode_symbol, encode_symbols, flush, finish,
  rans_encode,
}

renormalize-size :
    (fuel bound : ℕ) (e : Encoder)
    → length (renormalize fuel bound e).output ≤ length e.output + fuel
unfolding renormalize
renormalize-size zero bound e = omega arith
renormalize-size (suc fuel) bound e = elim (Bool-cases (leb bound e.state)) [
  | inl t ↦
      let pushed = e.output ++ (bit_and e.state 0xff ∷ []) in
      rw t (
        omega (
          arith,
          renormalize-size fuel bound (record { state = e.state / 2 ^ 8; output = pushed }),
          length-append {0} e.output (bit_and e.state 0xff ∷ []),
        ))
  | inr t ↦ rw t (omega arith)
]

output_of : Result RansError Encoder → Bytes
output_of (ok r) = r.output
output_of (err r) = []
output_of stuck = []

encode_symbol-size :
    (table : RansTable) (symbol : ℕ) (e e' : Encoder)
    → encode_symbol table symbol e ≡ ok e'
    → length e'.output ≤ length e.output + 8
unfolding encode_symbol output_of
encode_symbol-size table symbol e e' done =
    let freq = get_or table.freq symbol 0 in
    let bound = rans_l / 2 ^ scale_bits * 2 ^ 8 * freq in
    let r = renormalize 8 bound e in
    let cumul = get_or table.cumul symbol 0 in
    let next : Encoder = record { state = advance freq cumul r.state; output = r.output } in
    let (first, ok_first, rest) =
      succeeded {A = Unit {0}} (λ x. fail_if (freq == 0) (zero_frequency symbol) >> ok next)
        (fail_if (leb table.alphabet_size symbol) (symbol_out_of_range symbol table.alphabet_size))
        done in
    let (second, ok_second, last) =
      succeeded {A = Unit {0}} (λ x. ok next) (fail_if (freq == 0) (zero_frequency symbol)) rest in
    let same = ap (λ r. output_of r) last in
    omega (arith, renormalize-size 8 bound e, ap (length {0} {A = ℕ}) same)

encode_symbols-size :
    (table : RansTable) (symbols : Bytes) (e e' : Encoder)
    → encode_symbols table symbols e ≡ ok e'
    → length e'.output ≤ length e.output + 8 * length symbols
unfolding encode_symbols output_of
encode_symbols-size table [] e e' done =
    let same = ap (λ r. output_of r) done in omega (arith, ap (length {0} {A = ℕ}) same)
encode_symbols-size table (s ∷ symbols) e e' done =
    let (next, first, rest) =
      succeeded (encode_symbols table symbols) (encode_symbol table s e) done in
    omega (
      arith,
      encode_symbol-size table s e next first,
      encode_symbols-size table symbols next e' rest,
    )

length-flush : (n state : ℕ) (out : Bytes) → length (flush n state out) ≡ length out + n
unfolding flush
length-flush zero state out = omega arith
length-flush (suc n) state out = omega (
  arith,
  length-flush n (state / 2 ^ 8) (out ++ (bit_and state 0xff ∷ [])),
  length-append {0} out (bit_and state 0xff ∷ []),
)

length-reverse : (xs : Bytes) → length (reverse xs) ≡ length xs
length-reverse [] = refl
length-reverse (x ∷ xs) =
    ap (length {0} {A = ℕ}) (reverse-append (x ∷ []) xs)
    ∙ omega (arith, length-append {0} (reverse xs) (x ∷ []), length-reverse xs)

pub rans_encode-size :
    (symbols : Bytes) (table : RansTable) (bytes : Bytes)
    → rans_encode symbols table ≡ ok bytes
    → length bytes ≤ 8 * length symbols + 8
unfolding rans_encode
rans_encode-size [] table bytes done = cc
rans_encode-size (s ∷ symbols) table bytes done =
    let (e, encoded, finished) =
      succeeded (λ e. ok (finish e)) (encode_symbols table (reverse (s ∷ symbols)) new_encoder)
        done in
    let bound = encode_symbols-size table (reverse (s ∷ symbols)) new_encoder e encoded in
    let same : finish e ≡ bytes = bytes_eq finished in
    let size : length (finish e) ≡ length e.output + 8 =
      unfold finish in
      omega (arith, length-reverse (flush 8 e.state e.output), length-flush 8 e.state e.output) in
    omega (arith, bound, length-reverse (s ∷ symbols), ap (length {0} {A = ℕ}) same)
  where
    bytes_eq : {x y : Bytes} → ◌≡◌ {A = Result RansError Bytes} (ok x) (ok y) → x ≡ y
    bytes_eq e = cc
