-- ===== src/Lz77/Encoder/RoundTrip.antt =====
-- The tokens of the encoder stand for its whole input.
use nexcomp.Base.{
  ℕ, zero, suc, ◌+◌, ◌-◌, ◌≤◌, ◌<◌, min, ◌≡◌, refl, arith, inl, inr, Bool-cases, leb, ltb,
  Option-cases, List, [], ◌∷◌, ◌++◌, length, get_or, drop, drop-cons, drop_all, ok, leb→le, ltb→le,
}
use nexcomp.Base.Words.{Bytes}
use nexcomp.Lz77.{Token, literal, match}
use nexcomp.Lz77.Hash.{HashChain}
use nexcomp.Lz77.Cover.{Covers, Covers-append, decode-Covers}
use nexcomp.Lz77.Decoder.{decode_with_limit}
use nexcomp.Lz77.Encoder.{
  Choice, State, match_at, literals, emit_literal, emit_match, lazy_match, step, encode_loop,
  encode, insert_at,
}
use nexcomp.Lz77.Encoder.Choices.{InWindow, IsReal, update_mru-InWindow, match_at-IsReal}

literals-Covers :
    (n : ℕ) (bytes : Bytes) (p : ℕ)
    → p + n ≡ length bytes
    → Covers bytes p (literals (drop p bytes)) (length bytes)
literals-Covers zero bytes p h = rw (drop_all p bytes (omega arith)) (omega arith)
literals-Covers (suc n) bytes p h =
    rw (drop-cons p bytes 0 (omega arith))
      (omega arith, refl, literals-Covers n bytes (p + 1) (omega arith))

module _ (bytes : Bytes) where
  -- What holds between rounds.
  abbrev IsCurrent : State → Type 0
  IsCurrent s = Covers bytes 0 s.tokens s.pos × (s.pos ≤ length bytes) × InWindow s.mru

  add_literal :
      (tokens : List Token) (p : ℕ)
      → p < length bytes
      → Covers bytes 0 tokens p
      → Covers bytes 0 (tokens ++ (literal (get_or bytes p 0) ∷ [])) (p + 1)
  add_literal tokens p h c =
      Covers-append bytes 0 p (p + 1) tokens (literal (get_or bytes p 0) ∷ []) c (h, refl, refl)

  add_literals :
      (tokens : List Token) (p : ℕ)
      → p + 1 < length bytes
      → Covers bytes 0 tokens p
      → Covers bytes 0
          (tokens ++ (literal (get_or bytes p 0) ∷ literal (get_or bytes (p + 1) 0) ∷ []))
          (p + 2)
  add_literals tokens p h c =
      Covers-append bytes 0 p (p + 2) tokens
        (literal (get_or bytes p 0) ∷ literal (get_or bytes (p + 1) 0) ∷ []) c
        (omega arith, refl, (h, refl, omega arith))

  emit_match-IsCurrent :
      (c : Choice) (chain : HashChain) (s : State)
      → IsReal bytes s.pos c.offset c.len
      → IsCurrent s
      → IsCurrent (emit_match bytes c chain s) × (s.pos < (emit_match bytes c chain s).pos)
  unfolding emit_match
  emit_match-IsCurrent c chain s ((back, in_range, room, same), limits) (cov, below, window) =
      let end : min (s.pos + c.len) (length bytes) ≡ s.pos + c.len = omega arith in
      (
        (
          rw end (
              Covers-append bytes 0 s.pos (s.pos + c.len) s.tokens (match c.offset c.len ∷ []) cov
                ((back, in_range, room, same), limits, refl)),
          omega arith,
          update_mru-InWindow c.offset s.mru limits.0 window,
        ),
        omega arith,
      )

  lazy_match-IsCurrent :
      (c : Choice) (s : State)
      → s.pos + 3 ≤ length bytes
      → IsReal bytes s.pos c.offset c.len
      → IsCurrent s
      → IsCurrent (lazy_match bytes c s) × (s.pos < (lazy_match bytes c s).pos)
  unfolding lazy_match
  lazy_match-IsCurrent c s three real (cov, below, window) = ground (
    arith,
    add_literal s.tokens s.pos,
    add_literals s.tokens s.pos,
    emit_match-IsCurrent c (insert_at bytes s.pos s.chain) s real (cov, below, window),
  )

  step-IsCurrent :
      (s : State)
      → s.pos + 3 ≤ length bytes
      → IsCurrent s
      → IsCurrent (step bytes s) × (s.pos < (step bytes s).pos)
  unfolding step
  step-IsCurrent s three (cov, below, window) =
      elim (Option-cases (match_at bytes s.chain s.mru s.pos)) [
        | inl e ↦
            rw (e, step)
              (unfold emit_literal in
                ((add_literal s.tokens s.pos (omega arith) cov, omega arith, window), omega arith))
        | inr (c, e) ↦
            rw (e, step)
              (lazy_match-IsCurrent c s three (match_at-IsReal bytes s.chain s.mru s.pos c window e)
                (cov, below, window))
      ]

  encode_loop-Covers :
      (fuel : ℕ) (s : State)
      → IsCurrent s
      → length bytes ≤ s.pos + fuel
      → Covers bytes 0 (encode_loop bytes fuel s).0 (length bytes)
  unfolding encode_loop
  encode_loop-Covers zero s (cov, below, window) h =
      let e : length bytes ≡ s.pos = omega arith in rw e cov
  encode_loop-Covers (suc fuel) s (cov, below, window) h =
      elim (Bool-cases (leb (length bytes) s.pos)) [
        | inl t ↦
            let e : length bytes ≡ s.pos = omega (arith, leb→le (length bytes) s.pos t) in
            rw (t, e) cov
        | inr t ↦ elim (Bool-cases (ltb (length bytes) (s.pos + 3))) [
          | inl u ↦
              rw (t, u)
                (Covers-append bytes 0 s.pos (length bytes) s.tokens (literals (drop s.pos bytes))
                  cov (literals-Covers (length bytes - s.pos) bytes s.pos (omega arith)))
          | inr u ↦
              let on =
                step-IsCurrent s (ltb→le (length bytes) (s.pos + 3) u) (cov, below, window) in
              rw (t, u) (encode_loop-Covers fuel (step bytes s) on.0 (omega arith))
        ]
      ]

  pub encode-Covers : Covers bytes 0 (encode bytes).0 (length bytes)
  unfolding encode
  encode-Covers = encode_loop-Covers (length bytes) _ (refl, omega arith, omega arith) (omega arith)

-- Decoding what the encoder wrote gives the input back, under any limit that the input meets.
pub decode-encode :
    (bytes : Bytes) (limit : ℕ)
    → length bytes ≤ limit
    → decode_with_limit (encode bytes).0 limit ≡ ok bytes
decode-encode bytes limit h = decode-Covers bytes limit (encode bytes).0 h (encode-Covers bytes)
