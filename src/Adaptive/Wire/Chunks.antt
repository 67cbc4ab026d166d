-- ===== src/Adaptive/Wire/Chunks.antt =====
-- Cutting the input into blocks: nothing is lost, and the count and the sizes are as declared.
use native.Mathlib.Nat.{add-div_right, div-eq_of_lt}
use nexcomp.Base.{
  ℕ, zero, suc, ◌+◌, ◌-◌, ◌/◌, ◌≤◌, ◌<◌, ◌≡◌, ◌≢◌, ◌⊎◌, inl, inr, refl, sym, ap, ◌∙◌, arith, [],
  ◌∷◌, length, drop, take-append-drop, length-take, length-drop, All, All-take, All-drop,
}
use nexcomp.Base.Words.{IsByte, Bytes, IsBytes}
use nexcomp.Adaptive.Digest.{concat}
use nexcomp.Adaptive.Wire.{chunks_loop, chunks, div_ceil}

module _ (size : ℕ) (pos : 0 < size) where
  shorter :
      (b : ℕ) (bytes : Bytes) (fuel : ℕ)
      → length (b ∷ bytes) ≤ suc fuel
      → length (drop size (b ∷ bytes)) ≤ fuel
  shorter b bytes fuel h = omega (arith, length-drop size (b ∷ bytes))

  concat-chunks_loop :
      (fuel : ℕ) (bytes : Bytes)
      → length bytes ≤ fuel
      → concat (chunks_loop fuel size bytes) ≡ bytes
  unfolding chunks_loop
  concat-chunks_loop fuel [] h = refl
  concat-chunks_loop zero (b ∷ bytes) h = absurd (omega arith)
  concat-chunks_loop (suc fuel) (b ∷ bytes) h =
      rw (concat-chunks_loop fuel (drop size (b ∷ bytes)) (shorter b bytes fuel h))
        (take-append-drop size (b ∷ bytes))

  div_ceil-step : (n : ℕ) → 0 < n → div_ceil n size ≡ suc (div_ceil (n - size) size)
  div_ceil-step n h = elim (le-cases n) [
    | inl short ↦
        let e : n - size ≡ 0 = omega arith in
        let a : n + size - 1 ≡ n - 1 + size = omega arith in
        let z : (0 + size - 1) / size ≡ 0 = div-eq_of_lt (omega arith) in
        let y : (n - 1) / size ≡ 0 = div-eq_of_lt (omega arith) in
        rw (e, a, add-div_right (n - 1) pos, z, y) (omega arith)
    | inr long ↦
        let a : n + size - 1 ≡ n - size + size - 1 + size = omega arith in
        rw (a, add-div_right (n - size + size - 1) pos) (omega arith)
  ]
    where
      le-cases : (n : ℕ) → (n ≤ size) ⊎ (size ≤ n)
      le-cases n = grind arith

  length-chunks_loop :
      (fuel : ℕ) (bytes : Bytes)
      → length bytes ≤ fuel
      → length (chunks_loop fuel size bytes) ≡ div_ceil (length bytes) size
  unfolding chunks_loop
  length-chunks_loop fuel [] h = sym (div-eq_of_lt (omega arith))
  length-chunks_loop zero (b ∷ bytes) h = absurd (omega arith)
  length-chunks_loop (suc fuel) (b ∷ bytes) h =
      let n : length (drop size (b ∷ bytes)) ≡ length (b ∷ bytes) - size =
        length-drop size (b ∷ bytes) in
      ap suc (length-chunks_loop fuel (drop size (b ∷ bytes)) (shorter b bytes fuel h) ∙ rw n refl)
      ∙ sym (div_ceil-step (length (b ∷ bytes)) (omega arith))

  -- The chunks joined are the input.
  pub concat-chunks : (bytes : Bytes) → concat (chunks size bytes) ≡ bytes
  unfolding chunks
  concat-chunks bytes = concat-chunks_loop (length bytes) bytes (omega arith)

  pub length-chunks : (bytes : Bytes) → length (chunks size bytes) ≡ div_ceil (length bytes) size
  unfolding chunks
  length-chunks bytes = length-chunks_loop (length bytes) bytes (omega arith)

abbrev pub IsChunk : ℕ → Bytes → Type 0
IsChunk size chunk = (chunk ≢ []) × IsBytes chunk × (length chunk ≤ size)

chunks_loop-IsChunk :
    (size : ℕ)
    → 0 < size
    → (fuel : ℕ) (bytes : Bytes) → IsBytes bytes
    → All (IsChunk size) (chunks_loop fuel size bytes)
unfolding chunks_loop
chunks_loop-IsChunk size pos fuel [] h = tt
chunks_loop-IsChunk size pos zero (b ∷ bytes) h = tt
chunks_loop-IsChunk size pos (suc fuel) (b ∷ bytes) h = (
  (
    λ e. absurd (omega (arith, length-take size (b ∷ bytes), ap length e)),
    All-take IsByte size (b ∷ bytes) h,
    omega (arith, length-take size (b ∷ bytes)),
  ),
  chunks_loop-IsChunk size pos fuel (drop size (b ∷ bytes)) (All-drop IsByte size (b ∷ bytes) h),
)

-- Every chunk of a byte string holds bytes, is not empty, and is at most `size` long.
pub chunks-IsChunk :
    (size : ℕ) (bytes : Bytes) → 0 < size → IsBytes bytes → All (IsChunk size) (chunks size bytes)
unfolding chunks
chunks-IsChunk size bytes pos h = chunks_loop-IsChunk size pos (length bytes) bytes h
