-- ===== src/Lz77/Cover.antt =====
-- A token stream that stands for a stretch of the input, and the decoder on such a stream.
use nexcomp.Base.{
  ℕ, zero, suc, ◌+◌, ◌-◌, ◌≤◌, ◌<◌, ◌≡◌, ap, ◌∙◌, arith, List, [], ◌∷◌, ◌++◌, length, get_or, take,
  take-snoc, take_all, get_or-take, length-take, ok, if-false, gt→leb,
}
use nexcomp.Base.Words.{Bytes}
use nexcomp.Lz77.{Token, literal, match, max_window, max_match}
use nexcomp.Lz77.Hash.Match.{IsMatch}
use nexcomp.Lz77.Decoder.{copy, decode_token, decode_loop, decode_with_limit}

-- The limits on the fields of a match.
abbrev pub InLimits : ℕ → ℕ → Type 0
InLimits offset len = (offset ≤ max_window) × (3 ≤ len) × (len ≤ max_match)

-- The tokens stand for `bytes[p..q]`, each match within `bytes[..q]`.
abbrev pub Covers : Bytes → ℕ → List Token → ℕ → Type 0
Covers bytes p [] q = p ≡ q
Covers bytes p (literal b ∷ tokens) q =
    (p < length bytes) × (get_or bytes p 0 ≡ b) × Covers bytes (p + 1) tokens q
Covers bytes p (match offset len ∷ tokens) q =
    IsMatch bytes p offset len × InLimits offset len × Covers bytes (p + len) tokens q

pub Covers-append :
    (bytes : Bytes) (p q r : ℕ) (xs ys : List Token)
    → Covers bytes p xs q
    → Covers bytes q ys r
    → Covers bytes p (xs ++ ys) r
Covers-append bytes p q r [] ys h k = rw h k
Covers-append bytes p q r (literal b ∷ xs) ys (hp, hb, h) k =
    (hp, hb, Covers-append bytes (p + 1) q r xs ys h k)
Covers-append bytes p q r (match offset len ∷ xs) ys (hm, hl, h) k =
    (hm, hl, Covers-append bytes (p + len) q r xs ys h k)

module _ (bytes : Bytes) where
  copy-take :
      (n from q : ℕ)
      → from < q
      → q + n ≤ length bytes
      → ((i : ℕ) → i < n → get_or bytes (from + i) 0 ≡ get_or bytes (q + i) 0)
      → copy n from (take q bytes) ≡ take (q + n) bytes
  unfolding copy
  copy-take zero from q h k same = ap (λ t. take t bytes) (omega arith)
  copy-take (suc n) from q h k same =
      let here : get_or (take q bytes) from 0 ≡ get_or bytes q 0 =
        get_or-take q from bytes 0 h
        ∙ (let e : from ≡ from + 0 = omega arith in
            let e' : q + 0 ≡ q = omega arith in
            rw e (same 0 (omega arith) ∙ ap (λ t. get_or bytes t 0) e')) in
      let next : take q bytes ++ (get_or (take q bytes) from 0 ∷ []) ≡ take (q + 1) bytes =
        rw here (take-snoc q bytes 0 (omega arith)) in
      rw next (
        copy-take n (from + 1) (q + 1) (omega arith) (omega arith) (shifted n from q same)
        ∙ ap (λ t. take t bytes) (omega arith))
    where
      shifted :
          (n from q : ℕ)
          → ((i : ℕ) → i < suc n → get_or bytes (from + i) 0 ≡ get_or bytes (q + i) 0)
          → (i : ℕ) → i < n
          → get_or bytes (from + 1 + i) 0 ≡ get_or bytes (q + 1 + i) 0
      shifted n from q same i h =
          let e : from + 1 + i ≡ from + suc i = omega arith in
          let e' : q + 1 + i ≡ q + suc i = omega arith in rw (e, e') (same (suc i) (omega arith))

  match_branch :
      (limit p offset len : ℕ) (output : Bytes)
      → 0 < offset
      → offset ≤ p
      → p + len ≤ limit
      → length output ≡ p
      → decode_token limit (match offset len) output ≡ ok (copy len (p - offset) output)
  unfolding decode_token
  match_branch limit p offset len output pos back room have = ground arith

  decode_token-Covers :
      (limit p q : ℕ) (token : Token) (tokens : List Token)
      → length bytes ≤ limit
      → Covers bytes p (token ∷ tokens) q
      → (p' : ℕ) × (decode_token limit token (take p bytes) ≡ ok (take p' bytes))
        × Covers bytes p' tokens q
  unfolding decode_token
  decode_token-Covers limit p q (literal b) tokens h (hp, hb, c) =
      let have : length (take p bytes) ≡ p = omega (arith, length-take p bytes) in
      (
        p + 1,
        if-false _ _ (gt→leb limit (length (take p bytes)) (omega arith))
            ∙ ap ok (rw (← hb) (take-snoc p bytes 0 hp)),
        c,
      )
  decode_token-Covers limit p q (match offset len) tokens h ((pos, back, room, same), hl, c) =
      let have : length (take p bytes) ≡ p = omega (arith, length-take p bytes) in
      (
        p + len,
        match_branch limit p offset len (take p bytes) pos back (omega arith) have
            ∙ ap ok (copy-take len (p - offset) p (omega arith) room same),
        c,
      )

  decode_loop-Covers :
      (limit p : ℕ) (tokens : List Token)
      → length bytes ≤ limit
      → Covers bytes p tokens (length bytes)
      → decode_loop limit tokens (take p bytes) ≡ ok bytes
  unfolding decode_loop
  decode_loop-Covers limit p [] h c = rw c (ap ok (take_all (length bytes) bytes (omega arith)))
  decode_loop-Covers limit p (token ∷ tokens) h c =
      let (p', e, c') = decode_token-Covers limit p (length bytes) token tokens h c in
      rw (e, decode_loop) (decode_loop-Covers limit p' tokens h c')

-- Tokens that stand for the whole input decode to it, under any limit that the input meets.
pub decode-Covers :
    (bytes : Bytes) (limit : ℕ) (tokens : List Token)
    → length bytes ≤ limit
    → Covers bytes 0 tokens (length bytes)
    → decode_with_limit tokens limit ≡ ok bytes
unfolding decode_with_limit
decode-Covers bytes limit tokens h c = decode_loop-Covers bytes limit 0 tokens h c
