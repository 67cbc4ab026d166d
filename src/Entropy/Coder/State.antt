-- ===== src/Entropy/Coder/State.antt =====
-- The state of the coder between symbols, and that the decoder's refill undoes the encoder's
-- renormalization.
use nexcomp.Base.{
  ℕ, zero, suc, ◌+◌, ◌*◌, ◌/◌, ◌%◌, ◌^◌, ◌≤◌, ◌<◌, ◌≡◌, refl, ◌∙◌, arith, [], ◌∷◌, ◌++◌, reverse,
  inl, inr, Bool-cases, leb, leb→le, leb→gt, le→ltb, lt→ltb, ok,
}
use mathlib.Core.List.{reverse-append}
use native.Mathlib.Nat.{pow-suc}
use nexcomp.Base.Words.{Bytes, u64}
use nexcomp.Base.Bits.{bit_and, bit_or, bit_and_mask, bit_or_fields}
use nexcomp.Entropy.Table.{rans_l}
use nexcomp.Entropy.Coder.{Encoder, renormalize, refill}

-- `(state << 8) | b` for a state of at most 56 bits.
pub shift_in :
    (state b : ℕ) → state < 2 ^ 56 → b < 256 → bit_or (u64 (state * 2 ^ 8)) b ≡ state * 256 + b
shift_in state b h k =
    let e : u64 (state * 2 ^ 8) ≡ state * 2 ^ 8 = omega arith in rw e (bit_or_fields 8 state b k)

pub refill-full :
    (state : ℕ) (rest : Bytes)
    → rans_l ≤ state
    → refill state rest ≡ ok (record { state = state; rest = rest })
unfolding refill
refill-full state [] h = rw (le→ltb state rans_l h) refl
refill-full state (b ∷ rest) h = rw (le→ltb state rans_l h) refl

refill_pushed :
    (state : ℕ) (rest : Bytes)
    → state < 2 ^ 28
    → refill (state / 256) (bit_and state 0xff ∷ rest) ≡ refill state rest
unfolding refill
refill_pushed state rest h =
    let low : bit_and state 0xff ≡ state % 256 = bit_and_mask 8 state in
    let whole : state / 256 * 256 + state % 256 ≡ state = omega arith in
    rw
      (
        lt→ltb (state / 256) rans_l (omega arith),
        low,
        shift_in (state / 256) (state % 256) (omega arith) (omega arith),
        whole,
      )
      refl

-- Refilling from the bytes that renormalization pushed ends where refilling the state before it
-- does.
pub refill-renormalize :
    (fuel upper : ℕ) (e : Encoder) (tail : Bytes)
    → e.state < 2 ^ 28
    → let r = renormalize fuel upper e in
      refill r.state (reverse r.output ++ tail) ≡ refill e.state (reverse e.output ++ tail)
unfolding renormalize
refill-renormalize zero upper e tail h = refl
refill-renormalize (suc fuel) upper e tail h = elim (Bool-cases (leb upper e.state)) [
  | inl t ↦
      let pushed : Encoder = record {
        state = e.state / 256;
        output = e.output ++ (bit_and e.state 0xff ∷ []);
      } in
      let front : reverse pushed.output ≡ bit_and e.state 0xff ∷ reverse e.output =
        reverse-append e.output (bit_and e.state 0xff ∷ []) in
      rw t (
        refill-renormalize fuel upper pushed tail (omega arith)
        ∙ rw front (refill_pushed e.state (reverse e.output ++ tail) h))
  | inr t ↦ rw t refl
]

-- The bounds after renormalization.
pub renormalize-lt :
    (fuel upper : ℕ) (e : Encoder)
    → e.state < upper * 256 ^ fuel
    → (renormalize fuel upper e).state < upper
unfolding renormalize
renormalize-lt zero upper e h = omega arith
renormalize-lt (suc fuel) upper e h = elim (Bool-cases (leb upper e.state)) [
  | inl t ↦ rw t (
      renormalize-lt fuel upper _ (
        let w : upper * 256 ^ suc fuel ≡ upper * 256 ^ fuel * 256 =
          rw (pow-suc 256 fuel) (omega arith) in
        omega arith))
  | inr t ↦ rw t (leb→gt upper e.state t)
]

pub renormalize-le :
    (fuel upper least : ℕ) (e : Encoder)
    → least * 256 ≤ upper
    → least ≤ e.state
    → least ≤ (renormalize fuel upper e).state
unfolding renormalize
renormalize-le zero upper least e h k = k
renormalize-le (suc fuel) upper least e h k = elim (Bool-cases (leb upper e.state)) [
  | inl t ↦ rw t (renormalize-le fuel upper least _ h (omega (arith, leb→le upper e.state t)))
  | inr t ↦ rw t k
]
