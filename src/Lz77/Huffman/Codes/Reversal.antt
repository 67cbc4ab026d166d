-- ===== src/Lz77/Huffman/Codes/Reversal.antt =====
-- The reversal of the low bits: it is undone by itself, and the reversal of a longer number starts
-- with the reversal of its low bits.
use nexcomp.Base.{ℕ, zero, suc, ◌+◌, ◌*◌, ◌/◌, ◌%◌, ◌^◌, ◌<◌, ◌≤◌, ◌≡◌, refl, sym, ap, ◌∙◌, arith}
use nexcomp.Base.Words.{u32}
use nexcomp.Base.Bits.{bit_and, bit_or, bit_and_mask, bit_or_fields, mod_halves}
use nexcomp.Base.Powers.{pow-add, pow-le, low_of, high_of}
use native.Mathlib.Nat.{pow-suc, div-div-eq-div-mul, mul_comm}
use nexcomp.Lz77.Huffman.Codes.{reverse_loop, reverse_bits}

-- The reversal by its equations: the lowest bit becomes the highest.
unfoldable pub mirror : ℕ → ℕ → ℕ
mirror zero v = 0
mirror (suc count) v = v % 2 * 2 ^ count + mirror count (v / 2)

reverse_loop-mirror :
    (count v result k : ℕ)
    → result < 2 ^ k
    → k + count ≤ 32
    → reverse_loop count v result ≡ result * 2 ^ count + mirror count v
unfolding reverse_loop mirror
reverse_loop-mirror zero v result k h room = omega arith
reverse_loop-mirror (suc count) v result k h room =
    let small : 2 ^ suc k ≤ 2 ^ 32 = pow-le (suc k) 32 (omega arith) in
    let whole : u32 (result * 2) ≡ result * 2 = omega (arith, pow-suc 2 k) in
    let low : bit_and v 1 ≡ v % 2 = bit_and_mask 1 v in
    let joined : bit_or (result * 2) (v % 2) ≡ result * 2 + v % 2 =
      bit_or_fields 1 result (v % 2) (omega arith) in
    rw (whole, low, joined)
      (reverse_loop-mirror count (v / 2) (result * 2 + v % 2) (suc k) (omega (arith, pow-suc 2 k))
          (omega arith)
        ∙ shifted result (v % 2) (2 ^ count) (mirror count (v / 2)) (2 ^ suc count)
            (pow-suc 2 count))
  where
    shifted : (r b p m q : ℕ) → q ≡ p * 2 → (r * 2 + b) * p + m ≡ r * q + (b * p + m)
    shifted r b p m q e = grind arith

pub reverse_bits-mirror : (v count : ℕ) → count ≤ 31 → reverse_bits v count ≡ mirror count v
unfolding reverse_bits
reverse_bits-mirror v count h =
    reverse_loop-mirror count v 0 1 (omega arith) (omega arith) ∙ omega arith

pub mirror-lt : (count v : ℕ) → mirror count v < 2 ^ count
unfolding mirror
mirror-lt zero v = omega arith
mirror-lt (suc count) v =
    top (v % 2) (2 ^ count) (mirror count (v / 2)) (2 ^ suc count) (omega arith)
      (mirror-lt count (v / 2)) (pow-suc 2 count)
  where
    top : (b p m q : ℕ) → b < 2 → m < p → q ≡ p * 2 → b * p + m < q
    top b p m q hb hm e = grind arith

mirror-suc : (count v : ℕ) → mirror (suc count) v ≡ v % 2 * 2 ^ count + mirror count (v / 2)
unfolding mirror
mirror-suc count v = refl

-- The first bits of a reversal are the reversal of the low bits.
pub mirror-add : (m n v : ℕ) → mirror (m + n) v ≡ mirror m v * 2 ^ n + mirror n (v / 2 ^ m)
mirror-add zero n v =
    let nothing : mirror 0 v ≡ 0 = unfold mirror in refl in
    let e : 0 + n ≡ n = omega arith in
    let same : v / 2 ^ 0 ≡ v = omega arith in rw (e, nothing, same) (omega arith)
mirror-add (suc m) n v =
    let e : suc m + n ≡ suc (m + n) = omega arith in
    let half : v / 2 / 2 ^ m ≡ v / 2 ^ suc m =
      div-div-eq-div-mul v 2 (2 ^ m) ∙ ap (λ t. v / t) (mul_comm 2 (2 ^ m) ∙ sym (pow-suc 2 m)) in
    rw (e, mirror-suc (m + n) v, mirror-suc m v, mirror-add m n (v / 2), half, pow-add 2 m n)
      (factored (v % 2) (2 ^ m) (2 ^ n) (mirror m (v / 2)) (mirror n (v / 2 ^ suc m)))
  where
    factored : (b p q x y : ℕ) → b * (p * q) + (x * q + y) ≡ (b * p + x) * q + y
    factored b p q x y = grind arith

-- Only the low bits count.
pub mirror-mod : (count v : ℕ) → mirror count (v % 2 ^ count) ≡ mirror count v
mirror-mod zero v = unfold mirror in refl
mirror-mod (suc count) v =
    let cut : v % 2 ^ suc count ≡ v / 2 % 2 ^ count * 2 + v % 2 =
      ap (λ t. v % t) (pow-suc 2 count) ∙ mod_halves v (2 ^ count) in
    let low : v % 2 ^ suc count % 2 ≡ v % 2 = omega arith in
    let high : v % 2 ^ suc count / 2 ≡ v / 2 % 2 ^ count = omega arith in
    rw
      (
        mirror-suc count (v % 2 ^ suc count),
        mirror-suc count v,
        low,
        high,
        mirror-mod count (v / 2),
      )
      refl

mirror-one : (b : ℕ) → b < 2 → mirror 1 b ≡ b
unfolding mirror
mirror-one b h = omega arith

pub mirror-mirror : (count v : ℕ) → v < 2 ^ count → mirror count (mirror count v) ≡ v
mirror-mirror zero v h = unfold mirror in omega arith
mirror-mirror (suc count) v h =
    let w = mirror count (v / 2) + 2 ^ count * (v % 2) in
    let flipped : mirror (suc count) v ≡ w = mirror-suc count v ∙ grind arith in
    let below = mirror-lt count (v / 2) in
    let e : suc count ≡ count + 1 = omega arith in
    let first : mirror count w ≡ v / 2 =
      sym (mirror-mod count w)
      ∙ ap (λ t. mirror count t) (low_of count (mirror count (v / 2)) (v % 2) below)
      ∙ mirror-mirror count (v / 2) (omega (arith, pow-suc 2 count)) in
    let last : mirror 1 (w / 2 ^ count) ≡ v % 2 =
      ap (λ t. mirror 1 t) (high_of count (mirror count (v / 2)) (v % 2) below)
      ∙ mirror-one (v % 2) (omega arith) in
    ap (λ t. mirror (suc count) t) flipped
    ∙ ap (λ k. mirror k w) e
    ∙ mirror-add count 1 w
    ∙ rw (first, last) (omega arith)

pub reverse_bits-lt : (v count : ℕ) → count ≤ 31 → reverse_bits v count < 2 ^ count
reverse_bits-lt v count h = omega (arith, reverse_bits-mirror v count h, mirror-lt count v)
