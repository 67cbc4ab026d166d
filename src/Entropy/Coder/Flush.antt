-- ===== src/Entropy/Coder/Flush.antt =====
-- The state that `finish` writes behind the output is the one that a decoder starts from.
use nexcomp.Base.{
  ℕ, zero, suc, ◌*◌, ◌/◌, ◌%◌, ◌^◌, ◌≤◌, ◌<◌, ◌≡◌, refl, sym, ap, ◌∙◌, arith, [], ◌∷◌, ◌++◌,
  reverse, append_assoc, length, length-append, le→ltb, Result, ok,
}
use mathlib.Core.List.{reverse-append}
use native.Mathlib.Nat.{pow-suc}
use nexcomp.Base.Words.{Bytes, u64}
use nexcomp.Base.Bits.{bit_and, bit_or, bit_and_mask}
use nexcomp.Entropy.Table.{RansError}
use nexcomp.Entropy.Coder.{Encoder, Decoder, flush, finish, absorb, new_decoder}
use nexcomp.Entropy.Coder.State.{shift_in}

-- The last `n` bytes of a state, highest first.
abbrev big_endian : ℕ → ℕ → Bytes
big_endian zero state = []
big_endian (suc n) state = big_endian n (state / 256) ++ (bit_and state 0xff ∷ [])

length-big_endian : (n state : ℕ) → length (big_endian n state) ≡ n
length-big_endian zero state = refl
length-big_endian (suc n) state = omega (
  arith,
  length-append (big_endian n (state / 256)) (bit_and state 0xff ∷ []),
  length-big_endian n (state / 256),
)

reverse-flush :
    (n state : ℕ) (output : Bytes)
    → reverse (flush n state output) ≡ big_endian n state ++ reverse output
unfolding flush
reverse-flush zero state output = refl
reverse-flush (suc n) state output =
    reverse-flush n (state / 256) (output ++ (bit_and state 0xff ∷ []))
    ∙ ap (λ t. big_endian n (state / 256) ++ t) (reverse-append output (bit_and state 0xff ∷ []))
    ∙ sym (append_assoc (big_endian n (state / 256)) (bit_and state 0xff ∷ []) (reverse output))

absorb-snoc :
    (state : ℕ) (bytes : Bytes) (b : ℕ)
    → absorb state (bytes ++ (b ∷ [])) ≡ bit_or (u64 (absorb state bytes * 2 ^ 8)) b
unfolding absorb
absorb-snoc state [] b = refl
absorb-snoc state (c ∷ bytes) b = absorb-snoc (bit_or (u64 (state * 2 ^ 8)) c) bytes b

absorb-big_endian :
    (n state : ℕ) → state < 2 ^ 28 → state < 256 ^ n → absorb 0 (big_endian n state) ≡ state
unfolding absorb
absorb-big_endian zero state h k = omega arith
absorb-big_endian (suc n) state h k =
    let low : bit_and state 0xff ≡ state % 256 = bit_and_mask 8 state in
    let rest : absorb 0 (big_endian n (state / 256)) ≡ state / 256 =
      absorb-big_endian n (state / 256) (omega arith) (omega (arith, pow-suc 256 n)) in
    absorb-snoc 0 (big_endian n (state / 256)) (bit_and state 0xff)
    ∙ rw (rest, low)
        (shift_in (state / 256) (state % 256) (omega arith) (omega arith) ∙ omega arith)

pub new_decoder-finish :
    (e : Encoder)
    → e.state < 2 ^ 28
    → new_decoder (finish e) ≡ ok (record { state = e.state; rest = reverse e.output })
unfolding new_decoder finish
new_decoder-finish e h =
    let front = big_endian 8 e.state in
    let size : length front ≡ 8 = length-big_endian 8 e.state in
    let long : 8 ≤ length (front ++ reverse e.output) =
      omega (arith, length-append front (reverse e.output)) in
    rw (reverse-flush 8 e.state e.output, le→ltb (length (front ++ reverse e.output)) 8 long)
      (ap {B = Result RansError Decoder}
        (λ (x : ℕ). ok (record { state = x; rest = reverse e.output }))
        (absorb-big_endian 8 e.state h (omega arith)))
