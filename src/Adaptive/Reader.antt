-- ===== src/Adaptive/Reader.antt =====
-- `read_le` of src/adaptive.rs, and what it reads from a suffix of the payload.
use nexcomp.Base.{
  ℕ, ◌+◌, ◌≤◌, ◌≡◌, ap, ◌∙◌, arith, Option, none, some, ◌++◌, leb, if◌then◌else◌, length, take,
  drop, length-drop, drop-drop, le→leb, if-true, take-append_length, length-append, Result, ok,
  ok_or, ◌>>=◌,
}
use nexcomp.Base.Words.{Bytes, of_le}
use nexcomp.Adaptive.{AdaptiveError, truncated}

-- `payload.get(pos..pos + n)`. A `pos + n` that passes `usize` is past the end as well.
abbrev pub slice? : Bytes → ℕ → ℕ → Option Bytes
slice? payload pos n =
    if leb (pos + n) (length payload) then some (take n (drop pos payload)) else none

unfoldable pub read_le : ℕ → Bytes → ℕ → Result AdaptiveError Bytes
read_le n payload pos = ok_or (slice? payload pos n) truncated

-- `u32::from_le_bytes(read_le(payload, pos)?)`.
unfoldable pub u32_at : Bytes → ℕ → Result AdaptiveError ℕ
unfolding read_le
u32_at payload pos = do bytes ← read_le 4 payload pos; ok (of_le bytes)

-- A slice at an offset from `pos` is a slice of the suffix at `pos`.
pub slice?-drop :
    (payload : Bytes) (pos k n : ℕ)
    → pos ≤ length payload
    → slice? payload (pos + k) n ≡ slice? (drop pos payload) k n
slice?-drop payload pos k n h = ground (arith, length-drop pos payload, drop-drop pos k payload)

-- A slice at the front of what is there.
slice?-append : (xs ys : Bytes) → slice? (xs ++ ys) 0 (length xs) ≡ some xs
slice?-append xs ys =
    if-true _ _ (le→leb (0 + length xs) (length (xs ++ ys)) (omega (arith, length-append xs ys)))
    ∙ ap some (take-append_length xs ys)

pub slice?-at :
    (payload : Bytes) (pos n : ℕ)
    → pos ≤ length payload
    → slice? payload pos n ≡ slice? (drop pos payload) 0 n
slice?-at payload pos n h =
    let e : pos + 0 ≡ pos = omega arith in rw e at (slice?-drop payload pos 0 n h)
