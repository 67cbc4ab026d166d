-- ===== src/Lz77/Serial/Total.antt =====
-- The loop of `deserialize` ends on every input.
use nexcomp.Base.{
  ℕ, zero, suc, ◌+◌, ◌≤◌, ◌≢◌, arith, List, [], ◌∷◌, ◌++◌, length, get_or, drop, length-drop, stuck,
}
use nexcomp.Base.Words.{Bytes}
use nexcomp.Lz77.{Token, literal}
use nexcomp.Lz77.Serial.{unpack, packed_at, deserialize_loop, deserialize}

deserialize_loop-ne-stuck :
    (fuel pos : ℕ) (rest : Bytes) (tokens : List Token)
    → length rest ≤ fuel
    → deserialize_loop fuel pos rest tokens ≢ stuck
unfolding deserialize_loop
deserialize_loop-ne-stuck fuel pos [] tokens h e = cc
deserialize_loop-ne-stuck zero pos (flag ∷ rest) tokens h e = absurd (omega arith)
deserialize_loop-ne-stuck (suc fuel) pos (flag ∷ rest) tokens h e = ground (
  arith,
  length-drop 1 rest,
  length-drop 4 rest,
  deserialize_loop-ne-stuck fuel (pos + 2) (drop 1 rest)
      (tokens ++ (literal (get_or rest 0 0) ∷ [])),
  deserialize_loop-ne-stuck fuel (pos + 5) (drop 4 rest) (tokens ++ (unpack (packed_at rest) ∷ [])),
)

-- On any bytes, `deserialize` returns tokens or one of its two errors: its loop never runs out of
-- the fuel, which is the length of the input.
pub deserialize-ne-stuck : (bytes : Bytes) → deserialize bytes ≢ stuck
unfolding deserialize
deserialize-ne-stuck bytes = deserialize_loop-ne-stuck (length bytes) 0 bytes [] (omega arith)
