-- ===== src/Adaptive/Lengths/Sizes.antt =====
-- The lengths of the lanes of src/codecs/delta_ans.rs: lane `l` of four holds every fourth byte from
-- `l` on.
use nexcomp.Base.{
  ℕ, ◌+◌, ◌/◌, ◌%◌, ◌≡◌, ◌⊎◌, inl, inr, refl, arith, List, [], ◌∷◌, ◌++◌, length, length-append,
}
use nexcomp.Base.Words.{Bytes}
use nexcomp.Codecs.Delta.{push, split_from, split_lanes}

-- The lengths of four lanes over which `n` bytes were dealt.
record AreDealt (n : ℕ) (a b c d : Bytes) : Type 0 where
  first : length a ≡ (n + 3) / 4
  second : length b ≡ (n + 2) / 4
  third : length c ≡ (n + 1) / 4
  fourth : length d ≡ n / 4

-- Four lanes of the lengths that `n` bytes have.
pub record AreFourLanes (n : ℕ) (lanes : List Bytes) : Type 0 where
  pub a : Bytes
  pub b : Bytes
  pub c : Bytes
  pub d : Bytes
  pub four : lanes ≡ a ∷ b ∷ c ∷ d ∷ []
  pub first : length a ≡ (n + 3) / 4
  pub second : length b ≡ (n + 2) / 4
  pub third : length c ≡ (n + 1) / 4
  pub fourth : length d ≡ n / 4

longer : (xs : Bytes) (x : ℕ) → length (xs ++ (x ∷ [])) ≡ length xs + 1
longer xs x = length-append {0} xs (x ∷ [])

mod_cases : (n : ℕ) → (n % 4 ≡ 0) ⊎ ((n % 4 ≡ 1) ⊎ ((n % 4 ≡ 2) ⊎ (n % 4 ≡ 3)))
mod_cases n = grind arith

split_from-AreFourLanes :
    (idx : ℕ) (bytes : Bytes) (a b c d : Bytes)
    → AreDealt idx a b c d
    → AreFourLanes (idx + length bytes) (split_from 4 idx bytes (a ∷ b ∷ c ∷ d ∷ []))
unfolding split_from push
split_from-AreFourLanes idx [] a b c d s = record {
  a = a;
  b = b;
  c = c;
  d = d;
  four = refl;
  first = omega (arith, s.first);
  second = omega (arith, s.second);
  third = omega (arith, s.third);
  fourth = omega (arith, s.fourth);
}
split_from-AreFourLanes idx (x ∷ bytes) a b c d s =
    let e : idx + length (x ∷ bytes) ≡ (idx + 1) + length bytes = omega arith in
    let on = split_from-AreFourLanes (idx + 1) bytes in
    rw e (elim (mod_cases idx) [
      | inl m ↦ rw m (
          on (a ++ (x ∷ [])) b c d (record {
            first = omega (arith, s.first, longer a x);
            second = omega (arith, s.second);
            third = omega (arith, s.third);
            fourth = omega (arith, s.fourth);
          }))
      | inr (inl m) ↦ rw m (
          on a (b ++ (x ∷ [])) c d (record {
            first = omega (arith, s.first);
            second = omega (arith, s.second, longer b x);
            third = omega (arith, s.third);
            fourth = omega (arith, s.fourth);
          }))
      | inr (inr (inl m)) ↦ rw m (
          on a b (c ++ (x ∷ [])) d (record {
            first = omega (arith, s.first);
            second = omega (arith, s.second);
            third = omega (arith, s.third, longer c x);
            fourth = omega (arith, s.fourth);
          }))
      | inr (inr (inr m)) ↦ rw m (
          on a b c (d ++ (x ∷ [])) (record {
            first = omega (arith, s.first);
            second = omega (arith, s.second);
            third = omega (arith, s.third);
            fourth = omega (arith, s.fourth, longer d x);
          }))
    ])

pub split_lanes-AreFourLanes : (bytes : Bytes) → AreFourLanes (length bytes) (split_lanes bytes 4)
unfolding split_lanes
split_lanes-AreFourLanes bytes =
    let e : 0 + length bytes ≡ length bytes = omega arith in
    let lanes =
      split_from-AreFourLanes 0 bytes [] [] [] []
        (record { first = refl; second = refl; third = refl; fourth = refl }) in
    rw e at lanes
