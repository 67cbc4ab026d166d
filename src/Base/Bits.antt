-- ===== src/Base/Bits.antt =====
-- The bit operations as arithmetic: masks, disjoint fields and exclusive or, at every width.
use Prim.Native.Nat.{
  ℕ, zero, suc, ◌+◌, ◌-◌, ◌*◌, ◌/◌, ◌%◌, ◌^◌, ◌≤◌, ◌<◌, min, max, digits, bit_and-bitwise,
  bit_or-bitwise, bit_xor-bitwise, differ,
}
use mathlib.Core.Path.{◌≡◌, refl, sym, ap, ◌∙◌}
use mathlib.Core.Logic.{◌⊎◌, inl, inr}
use native.Mathlib.Nat.{le_refl, pow-suc, one-le-pow, mul_comm, div-add-mod, div-div-eq-div-mul}
use native.Mathlib.Omega.{arith}
pub use Prim.Native.Nat.{bit_and, bit_or, bit_xor}

module _ (z : ℕ → ℕ) (f : ℕ → ℕ → ℕ) where
  -- The recursion on digits needs no more rounds than the first number is large.
  digits_enough : (n m a b : ℕ) → a ≤ n → a ≤ m → digits z f n a b ≡ digits z f m a b
  digits_enough zero zero a b p q = refl
  digits_enough zero (suc m) zero b p q = refl
  digits_enough zero (suc m) (suc a) b p q = absurd (omega arith)
  digits_enough (suc n) zero zero b p q = refl
  digits_enough (suc n) zero (suc a) b p q = absurd (omega arith)
  digits_enough (suc n) (suc m) zero b p q = refl
  digits_enough (suc n) (suc m) (suc a) b p q =
      rw (digits_enough n m (suc a / 2) (b / 2) (omega arith) (omega arith))

  lowest_digit :
      (a b : ℕ)
      → digits z f (suc a) (suc a) b
        ≡ digits z f (suc a / 2) (suc a / 2) (b / 2) * 2 + f (suc a % 2) (b % 2)
  lowest_digit a b =
      omega (arith, digits_enough a (suc a / 2) (suc a / 2) (b / 2) (omega arith) (le_refl _))

bit_and_halves : (a b : ℕ) → bit_and a b ≡ bit_and (a / 2) (b / 2) * 2 + min (a % 2) (b % 2)
bit_and_halves zero b = simp bit_and-bitwise (omega arith)
bit_and_halves (suc a) b = simp bit_and-bitwise (lowest_digit (λ y. 0) min a b)

bit_or_halves : (a b : ℕ) → bit_or a b ≡ bit_or (a / 2) (b / 2) * 2 + max (a % 2) (b % 2)
bit_or_halves zero b = simp bit_or-bitwise (omega arith)
bit_or_halves (suc a) b = simp bit_or-bitwise (lowest_digit (λ y. y) max a b)

bit_xor_halves : (a b : ℕ) → bit_xor a b ≡ bit_xor (a / 2) (b / 2) * 2 + differ (a % 2) (b % 2)
bit_xor_halves zero b = simp bit_xor-bitwise (zero_halves b)
  where
    zero_halves : (b : ℕ) → b ≡ b / 2 * 2 + b % 2
    zero_halves b = omega arith
bit_xor_halves (suc a) b = simp bit_xor-bitwise (lowest_digit (λ y. y) differ a b)

differ_digit : (x y : ℕ) → x < 2 → y < 2 → (differ x y < 2) × (differ (differ x y) y ≡ x)
differ_digit zero zero h k = (omega arith, refl)
differ_digit zero (suc zero) h k = (omega arith, refl)
differ_digit (suc zero) zero h k = (omega arith, refl)
differ_digit (suc zero) (suc zero) h k = (omega arith, refl)
differ_digit x (suc (suc y)) h k = absurd (omega arith)
differ_digit (suc (suc x)) y h k = absurd (omega arith)

bit_xor_half : (a b : ℕ) → bit_xor a b / 2 ≡ bit_xor (a / 2) (b / 2)
bit_xor_half a b =
    omega (arith, bit_xor_halves a b, differ_digit (a % 2) (b % 2) (omega arith) (omega arith))

bit_xor_digit : (a b : ℕ) → bit_xor a b % 2 ≡ differ (a % 2) (b % 2)
bit_xor_digit a b =
    omega (arith, bit_xor_halves a b, differ_digit (a % 2) (b % 2) (omega arith) (omega arith))

Nat-cases : (n : ℕ) → (n ≡ 0) ⊎ (0 < n)
Nat-cases zero = inl refl
Nat-cases (suc n) = inr (omega arith)

undo_fuel : (n a b : ℕ) → a + b ≤ n → bit_xor (bit_xor a b) b ≡ a
undo_fuel n zero zero h = refl
undo_fuel zero (suc a) b h = absurd (omega arith)
undo_fuel zero zero (suc b) h = absurd (omega arith)
undo_fuel (suc n) a b h = elim (Nat-cases (a + b)) [
  | inl e ↦ let ea : a ≡ 0 = omega arith in let eb : b ≡ 0 = omega arith in rw (ea, eb) refl
  | inr p ↦
      let ih : bit_xor (bit_xor (a / 2) (b / 2)) (b / 2) ≡ a / 2 =
        undo_fuel n (a / 2) (b / 2) (omega arith) in
      bit_xor_halves (bit_xor a b) b
      ∙ rw
          (
            bit_xor_half a b,
            bit_xor_digit a b,
            ih,
            (differ_digit (a % 2) (b % 2) (omega arith) (omega arith)).1,
          )
          (omega arith)
]

-- Exclusive or by the same number undoes itself.
pub bit_xor_undo : (a b : ℕ) → bit_xor (bit_xor a b) b ≡ a
bit_xor_undo a b = undo_fuel (a + b) a b (le_refl _)

mask_zero : (n a : ℕ) → a ≤ n → bit_and a 0 ≡ 0
mask_zero n zero h = refl
mask_zero zero (suc a) h = absurd (omega arith)
mask_zero (suc n) (suc a) h =
    omega (arith, bit_and_halves (suc a) 0, mask_zero n (suc a / 2) (omega arith))

half_mask : (k : ℕ) → (2 ^ suc k - 1) / 2 ≡ 2 ^ k - 1
half_mask k = omega (arith, pow-suc 2 k, one-le-pow k 2 (omega arith))

pub mod_halves : (a m : ℕ) → a % (m * 2) ≡ a / 2 % m * 2 + a % 2
mod_halves a m =
    let q : a / (m * 2) ≡ a / 2 / m = rw (mul_comm m 2) (sym (div-div-eq-div-mul a 2 m)) in
    omega (arith, div-add-mod a (m * 2), div-add-mod (a / 2) m, ap (λ (t : ℕ). m * 2 * t) q)

-- A mask of `k` low bits is the remainder by `2 ^ k`.
pub bit_and_mask : (k a : ℕ) → bit_and a (2 ^ k - 1) ≡ a % 2 ^ k
bit_and_mask zero a = mask_zero a a (le_refl a) ∙ omega arith
bit_and_mask (suc k) a =
    let odd : (2 ^ suc k - 1) % 2 ≡ 1 = omega (arith, pow-suc 2 k, one-le-pow k 2 (omega arith)) in
    bit_and_halves a (2 ^ suc k - 1)
    ∙ rw (half_mask k, odd, bit_and_mask k (a / 2), pow-suc 2 k, mod_halves a (2 ^ k)) (omega arith)

or_zero : (n a : ℕ) → a ≤ n → bit_or a 0 ≡ a
or_zero n zero h = refl
or_zero zero (suc a) h = absurd (omega arith)
or_zero (suc n) (suc a) h =
    omega (arith, bit_or_halves (suc a) 0, or_zero n (suc a / 2) (omega arith))

doubled : (m k : ℕ) → m * 2 ^ suc k ≡ 2 * (m * 2 ^ k)
doubled m k = rw (pow-suc 2 k) (omega arith)

-- `(m << k) | low` is a sum when `low` fits `k` bits, on either side.
pub bit_or_fields : (k m low : ℕ) → low < 2 ^ k → bit_or (m * 2 ^ k) low ≡ m * 2 ^ k + low
bit_or_fields zero m low fits =
    let none_left : low ≡ 0 = omega arith in
    rw none_left (or_zero (m * 1) (m * 1) (le_refl _) ∙ omega arith)
bit_or_fields (suc k) m low fits =
    let half : m * 2 ^ suc k / 2 ≡ m * 2 ^ k = omega (arith, doubled m k) in
    let even : m * 2 ^ suc k % 2 ≡ 0 = omega (arith, doubled m k) in
    bit_or_halves (m * 2 ^ suc k) low
    ∙ rw (half, even, bit_or_fields k m (low / 2) (omega (arith, pow-suc 2 k)))
        (omega (arith, doubled m k))

zero_or : (n r : ℕ) → bit_or 0 r ≡ r
zero_or n r = simp bit_or-bitwise

pub bit_or_low : (k m low : ℕ) → low < 2 ^ k → bit_or low (m * 2 ^ k) ≡ low + m * 2 ^ k
bit_or_low zero m low fits =
    let none_left : low ≡ 0 = omega arith in rw none_left (zero_or 0 (m * 1) ∙ omega arith)
bit_or_low (suc k) m low fits =
    let half : m * 2 ^ suc k / 2 ≡ m * 2 ^ k = omega (arith, doubled m k) in
    let even : m * 2 ^ suc k % 2 ≡ 0 = omega (arith, doubled m k) in
    bit_or_halves low (m * 2 ^ suc k)
    ∙ rw (half, even, bit_or_low k m (low / 2) (omega (arith, pow-suc 2 k)))
        (omega (arith, doubled m k))

-- `n & (1 << k)` is the digit of `n` at `k`.
pub bit_and_power : (k n : ℕ) → bit_and n (2 ^ k) ≡ n / 2 ^ k % 2 * 2 ^ k
bit_and_power zero n = bit_and_mask 1 n ∙ omega arith
bit_and_power (suc k) n =
    let half : 2 ^ suc k / 2 ≡ 2 ^ k = omega (arith, pow-suc 2 k) in
    let even : 2 ^ suc k % 2 ≡ 0 = omega (arith, pow-suc 2 k) in
    let digit : n / 2 ^ suc k ≡ n / 2 / 2 ^ k =
      rw (pow-suc 2 k, mul_comm (2 ^ k) 2) (sym (div-div-eq-div-mul n 2 (2 ^ k))) in
    bit_and_halves n (2 ^ suc k)
    ∙ rw (half, even, bit_and_power k (n / 2), digit, pow-suc 2 k) (omega arith)

-- Exclusive or of two numbers of `k` bits has `k` bits.
pub bit_xor-lt : (k a b : ℕ) → a < 2 ^ k → b < 2 ^ k → bit_xor a b < 2 ^ k
bit_xor-lt zero a b ha hb =
    let ea : a ≡ 0 = omega arith in let eb : b ≡ 0 = omega arith in rw (ea, eb) (omega arith)
bit_xor-lt (suc k) a b ha hb = omega (
  arith,
  bit_xor_halves a b,
  differ_digit (a % 2) (b % 2) (omega arith) (omega arith),
  bit_xor-lt k (a / 2) (b / 2) (omega (arith, pow-suc 2 k)) (omega (arith, pow-suc 2 k)),
  pow-suc 2 k,
)

-- Four bytes, the highest first, joined by shifts and `|`.
pub join_be32 :
    (a b c d : ℕ)
    → b < 256
    → c < 256
    → d < 256
    → bit_or (bit_or (bit_or (a * 2 ^ 24) (b * 2 ^ 16)) (c * 2 ^ 8)) d
      ≡ ((a * 256 + b) * 256 + c) * 256 + d
join_be32 a b c d hb hc hd =
    let high : bit_or (a * 2 ^ 24) (b * 2 ^ 16) ≡ (a * 256 + b) * 2 ^ 16 =
      bit_or_fields 24 a (b * 2 ^ 16) (omega arith) ∙ omega arith in
    let mid : bit_or ((a * 256 + b) * 2 ^ 16) (c * 2 ^ 8) ≡ ((a * 256 + b) * 256 + c) * 2 ^ 8 =
      bit_or_fields 16 (a * 256 + b) (c * 2 ^ 8) (omega arith) ∙ omega arith in
    rw (high, mid) (bit_or_fields 8 ((a * 256 + b) * 256 + c) d hd)
