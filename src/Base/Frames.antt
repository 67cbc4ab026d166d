-- ===== src/Base/Frames.antt =====
-- A 32-bit word in front of other bytes.
use nexcomp.Base.Lists.{length, take, drop, take-append_length, drop-append_length}
use Prim.Native.Nat.{ℕ, ◌<◌, ◌^◌}
use mathlib.Core.Path.{◌≡◌, ap, sym, ◌∙◌}
use mathlib.Core.List.{◌++◌}
use native.Mathlib.Omega.{arith}
use nexcomp.Base.Words.{Bytes, u32, to_le, of_le, length-to_le, of_le-to_le}

pub word_length : (n : ℕ) → length (to_le 4 (u32 n)) ≡ 4
word_length n = length-to_le 4 (u32 n)

pub word_value : (n : ℕ) → n < 2 ^ 32 → of_le (to_le 4 (u32 n)) ≡ n
word_value n h = let whole : u32 n ≡ n = omega arith in rw whole (of_le-to_le 4 n (omega arith))

pub take_word : (n : ℕ) (rest : Bytes) → take 4 (to_le 4 (u32 n) ++ rest) ≡ to_le 4 (u32 n)
take_word n rest =
    ap (λ k. take k (to_le 4 (u32 n) ++ rest)) (sym (word_length n))
    ∙ take-append_length (to_le 4 (u32 n)) rest

pub drop_word : (n : ℕ) (rest : Bytes) → drop 4 (to_le 4 (u32 n) ++ rest) ≡ rest
drop_word n rest =
    ap (λ k. drop k (to_le 4 (u32 n) ++ rest)) (sym (word_length n))
    ∙ drop-append_length (to_le 4 (u32 n)) rest
