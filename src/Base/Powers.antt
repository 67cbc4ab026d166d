-- ===== src/Base/Powers.antt =====
-- Powers of two, and numbers that are cut at a power of two.
use Prim.Native.Nat.{ℕ, zero, suc, ◌+◌, ◌*◌, ◌-◌, ◌/◌, ◌%◌, ◌^◌, ◌<◌, ◌≤◌}
use mathlib.Core.Path.{◌≡◌, ap, sym, ◌∙◌}
use native.Mathlib.Nat.{
  pow-zero, pow-suc, one-le-pow, mul_assoc, add-mul-div_left, add-mul-mod_self_left, mod-eq_of_lt,
  div-eq_of_lt, pow-le-pow_right, div-lt_iff_lt-mul, div-add-mod,
}
use native.Mathlib.Omega.{arith}

pub pow-add : (b m n : ℕ) → b ^ (m + n) ≡ b ^ m * b ^ n
pow-add b m zero = let e : m + 0 ≡ m = omega arith in rw (e, pow-zero b) (omega arith)
pow-add b m (suc n) =
    let e : m + suc n ≡ suc (m + n) = omega arith in
    rw (e, pow-suc b (m + n), pow-suc b n, pow-add b m n) (mul_assoc (b ^ m) (b ^ n) b)

pub pow-split : (m n : ℕ) → m ≤ n → 2 ^ n ≡ 2 ^ m * 2 ^ (n - m)
pow-split m n h = let e : n ≡ m + (n - m) = omega arith in ap (λ t. 2 ^ t) e ∙ pow-add 2 m (n - m)

pub pow-pos : (k : ℕ) → 0 < 2 ^ k
pow-pos k = omega (arith, one-le-pow k 2 (omega arith))

pub pow-le : (m n : ℕ) → m ≤ n → 2 ^ m ≤ 2 ^ n
pow-le m n h = pow-le-pow_right (omega arith) h

pub div-pow-lt : (c b k : ℕ) → c < 2 ^ b → c / 2 ^ k < 2 ^ (b - k)
div-pow-lt c b k h =
    let room : 2 ^ b ≤ 2 ^ (b - k) * 2 ^ k =
      rw (← pow-add 2 (b - k) k) (pow-le b (b - k + k) (omega arith)) in
    (div-lt_iff_lt-mul (pow-pos k)).1 (omega arith)

module _ (c v rest : ℕ) (fits : v < 2 ^ c) where
  -- The low bits of a number that is put together from its low and its high bits.
  pub low_of : (v + 2 ^ c * rest) % 2 ^ c ≡ v
  low_of = add-mul-mod_self_left v (2 ^ c) rest ∙ mod-eq_of_lt fits

  pub high_of : (v + 2 ^ c * rest) / 2 ^ c ≡ rest
  high_of = add-mul-div_left v rest (pow-pos c) ∙ rw (div-eq_of_lt fits) (omega arith)

-- The remainder by a smaller power of two.
pub mod-pow-mod : (m n v : ℕ) → m ≤ n → v % 2 ^ n % 2 ^ m ≡ v % 2 ^ m
mod-pow-mod m n v h =
    let cut : 2 ^ n ≡ 2 ^ m * 2 ^ (n - m) = pow-split m n h in
    let whole : v ≡ v % 2 ^ n + 2 ^ m * (2 ^ (n - m) * (v / 2 ^ n)) =
      sym (div-add-mod v (2 ^ n))
      ∙ rw cut (grind (arith, mul_assoc (2 ^ m) (2 ^ (n - m)) (v / (2 ^ m * 2 ^ (n - m))))) in
    sym (add-mul-mod_self_left (v % 2 ^ n) (2 ^ m) (2 ^ (n - m) * (v / 2 ^ n)))
    ∙ sym (ap (λ t. t % 2 ^ m) whole)
