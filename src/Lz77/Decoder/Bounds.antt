-- ===== src/Lz77/Decoder/Bounds.antt =====
-- What the decoder returns on any tokens: its length, and the limit.
use nexcomp.Base.{
  ℕ, zero, suc, ◌+◌, ◌-◌, ◌≤◌, ◌<◌, ◌≡◌, arith, List, [], ◌∷◌, ◌++◌, length, get_or, length-append,
  Result-cases, ok, inl, inr,
}
use nexcomp.Base.Words.{Bytes}
use nexcomp.Lz77.{Token, literal, match}
use nexcomp.Lz77.Decoder.{copy, decode_token, decode_loop, decode_with_limit, usize_max}

length-copy : (n from : ℕ) (output : Bytes) → length (copy n from output) ≡ length output + n
unfolding copy
length-copy zero from output = omega arith
length-copy (suc n) from output =
    let next = output ++ (get_or output from 0 ∷ []) in
    omega (arith, length-copy n (from + 1) next, length-append output (get_or output from 0 ∷ []))

-- The bytes that a token stands for.
abbrev span : Token → ℕ
span (literal b) = 1
span (match offset len) = len

abbrev pub total_span : List Token → ℕ
total_span [] = 0
total_span (token ∷ tokens) = span token + total_span tokens

decode_token_bound :
    (limit : ℕ) (token : Token) (output out : Bytes)
    → limit < usize_max
    → decode_token limit token output ≡ ok out
    → (length out ≡ length output + span token) × (length out ≤ limit)
unfolding decode_token
decode_token_bound limit (literal b) output out h e = ground (arith, length-append output (b ∷ []))
decode_token_bound limit (match offset len) output out h e =
    ground (arith, length-copy len (length output - offset) output)

decode_loop_bound :
    (limit : ℕ) (tokens : List Token) (output out : Bytes)
    → limit < usize_max
    → length output ≤ limit
    → decode_loop limit tokens output ≡ ok out
    → (length out ≡ length output + total_span tokens) × (length out ≤ limit)
unfolding decode_loop
decode_loop_bound limit [] output out h l e = ground arith
decode_loop_bound limit (token ∷ tokens) output out h l e =
    elim (Result-cases (decode_token limit token output)) [
      | inl (mid, r) ↦
          let m = decode_token_bound limit token output mid h r in
          let rest = decode_loop_bound limit tokens mid out h m.1 (rw (r, decode_loop) at e) in
          (omega arith, rest.1)
      | inr (inl (x, r)) ↦ cc (r, e)
      | inr (inr r) ↦ cc (r, e)
    ]

-- With a limit below `usize::MAX`, a successful decode returns exactly the bytes that its tokens
-- stand for, and never more than the limit.
pub decode_with_limit_bound :
    (tokens : List Token) (limit : ℕ) (out : Bytes)
    → limit < usize_max
    → decode_with_limit tokens limit ≡ ok out
    → (length out ≡ total_span tokens) × (length out ≤ limit)
unfolding decode_with_limit
decode_with_limit_bound tokens limit out h e =
    omega (arith, decode_loop_bound limit tokens [] out h (omega arith) e)
