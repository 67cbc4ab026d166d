-- ===== src/Adaptive/Decode/Soundness.antt =====
-- What a successful decompression returns.
use nexcomp.Adaptive.Wire.Layout.{declared_len, parse_container_lem}
use nexcomp.Base.{
  ℕ, ◌≤◌, ◌≡◌, refl, sym, ap, ◌∙◌, arith, inl, inr, ◌⊎◌, Bool, true, Bool-cases, ltb, ltb→le,
  Option, none, some, List, [], ◌∷◌, ◌++◌, append-nil, append_assoc, map, ◌==◌, ==→eq,
  if◌then◌else◌, length, length-append, Result, ok, err, stuck, succeeded, Outcome, returns, panics,
  ◌>>=◌, fail_if,
}
use nexcomp.Base.Words.{Bytes}
use nexcomp.Adaptive.{AdaptiveError, output_limit}
use nexcomp.Adaptive.Block.{Codecs, decompress_block_adaptive}
use nexcomp.Adaptive.Digest.{Blake3, Blake3Laws, concat, update_all}
use nexcomp.Adaptive.Crc.{crc32}
use nexcomp.Adaptive.Wire.{BlockInfo, Container, parse_container}
use nexcomp.Adaptive.Decode.{
  verify, finish, decode_block, bytes_eq, vec_writer, write_one, write_decoded, check_digest,
  is_some, write_blocks, try_adaptive_decompress_limited,
}
use nexcomp.Adaptive.Decode.Groups.{write_blocks_sequential}

bytes_eq→eq : (xs ys : Bytes) → bytes_eq xs ys ≡ true → xs ≡ ys
unfolding bytes_eq
bytes_eq→eq [] [] e = refl
bytes_eq→eq [] (y ∷ ys) e = cc
bytes_eq→eq (x ∷ xs) [] e = cc
bytes_eq→eq (x ∷ xs) (y ∷ ys) e = elim (Bool-cases (x == y)) [
  | inl t ↦ let rest = rw t at e in rw (==→eq x y t, bytes_eq→eq xs ys rest) refl
  | inr t ↦ let never = rw t at e in cc
]

length-verify :
    (block : BlockInfo) (decoded d : Bytes)
    → verify block decoded ≡ ok d
    → length d ≡ block.orig_len
unfolding verify
length-verify block decoded d e = elim (Bool-cases (length decoded == block.orig_len)) [
  | inl t ↦ elim (Bool-cases (crc32 decoded == block.crc)) [
    | inl u ↦ let e' = rw (t, u) at e in let same : decoded ≡ d = cc in rw (← same) (==→eq _ _ t)
    | inr u ↦ let e' = rw (t, u) at e in cc
  ]
  | inr t ↦ let e' = rw t at e in cc
]

length-finish :
    (block : BlockInfo) (o : Outcome (Result AdaptiveError Bytes)) (d : Bytes)
    → finish block o ≡ ok d
    → length d ≡ block.orig_len
unfolding finish
length-finish block panics d e = cc
length-finish block (returns r) d e =
    let (x, ex, ed) = succeeded _ r e in length-verify block _ d ed

length-decode_block :
    (codecs : Codecs) (block : BlockInfo) (d : Bytes)
    → decode_block codecs block ≡ ok d
    → length d ≡ block.orig_len
unfolding decode_block
length-decode_block codecs block d e =
    length-finish block (decompress_block_adaptive codecs block.codec block.bytes block.orig_len) d
      e

module _ {H : Type 0} (b : Blake3 H) where
  abbrev hashed : Bool → H → List Bytes → H
  hashed t h [] = h
  hashed t h (chunk ∷ chunks) = hashed t (if t then b.update h chunk else h) chunks

  hashed_all : (h : H) (chunks : List Bytes) → hashed true h chunks ≡ update_all b h chunks
  hashed_all h [] = refl
  hashed_all h (chunk ∷ chunks) = hashed_all (b.update h chunk) chunks

  one_written :
      (t : Bool) (d : Bytes) (xs : List (Result AdaptiveError Bytes)) (h : H) (w : Bytes)
      → write_decoded b vec_writer t (ok d ∷ xs) h w
        ≡ write_decoded b vec_writer t xs (if t then b.update h d else h) (w ++ d)
  unfolding write_decoded write_one
  one_written t d xs h w = refl

  -- An error is the result.
  none_written :
      (t : Bool) (x : Result AdaptiveError Bytes) (xs : List (Result AdaptiveError Bytes))
      (h h' : H) (w w' : Bytes)
      → write_decoded b vec_writer t (x ∷ xs) h w ≡ (ok h', w')
      → (d : Bytes) × (x ≡ ok d)
  unfolding write_decoded write_one
  none_written t (ok d) xs h h' w w' e = (d, refl)
  none_written t (err z) xs h h' w w' e =
      let failed : err z ≡ ok h' =
        ap {B = Result AdaptiveError H} (λ (p : Result AdaptiveError H × Bytes). p.0) e in
      cc
  none_written t stuck xs h h' w w' e =
      let failed : stuck ≡ ok h' =
        ap {B = Result AdaptiveError H} (λ (p : Result AdaptiveError H × Bytes). p.0) e in
      cc

  -- Everything was decoded, written in order and hashed.
  write_decoded_lem :
      (t : Bool) (codecs : Codecs) (blocks : List BlockInfo) (h h' : H) (w w' : Bytes)
      → write_decoded b vec_writer t (map (decode_block codecs) blocks) h w ≡ (ok h', w')
      → (chunks : List Bytes) × (length (concat chunks) ≡ declared_len blocks)
        × (w' ≡ w ++ concat chunks)
        × (h' ≡ hashed t h chunks)
  unfolding write_decoded
  write_decoded_lem t codecs [] h h' w w' e =
      let state : ok h ≡ ok h' =
        ap {B = Result AdaptiveError H} (λ (p : Result AdaptiveError H × Bytes). p.0) e in
      let out : w ≡ w' = ap {B = Bytes} (λ (p : Result AdaptiveError H × Bytes). p.1) e in
      ([], refl, sym out ∙ sym (append-nil w), cc)
  write_decoded_lem t codecs (block ∷ blocks) h h' w w' e =
      let (d, ed) =
        none_written t (decode_block codecs block) (map (decode_block codecs) blocks) h h' w w' e in
      let on : write_decoded b vec_writer t (map (decode_block codecs) blocks)
            (if t then b.update h d else h) (w ++ d)
          ≡ (ok h', w') =
        sym (one_written t d (map (decode_block codecs) blocks) h w) ∙ rw ed at e in
      let (chunks, size, out, state) = write_decoded_lem t codecs blocks _ h' (w ++ d) w' on in
      (
        d ∷ chunks,
        length-append d (concat chunks) ∙ omega (arith, length-decode_block codecs block d ed),
        out ∙ append_assoc w d (concat chunks),
        state,
      )

module _ {H : Type 0} (b : Blake3 H) (laws : Blake3Laws b) (codecs : Codecs) (threads : ℕ) where
  -- The hash of the output, where the container has one.
  digest_lem :
      (digest : Option Bytes) (orig_len n : ℕ) (r : Result AdaptiveError H) (chunks : List Bytes)
      (h : H)
      → r ≡ ok h
      → h ≡ hashed b (is_some digest) b.new chunks
      → check_digest b vec_writer digest orig_len r ≡ ok n
      → (digest ≡ none) ⊎ (digest ≡ some (b.hash (concat chunks)))
  unfolding check_digest
  digest_lem none orig_len n r chunks h er eh e = inl refl
  digest_lem (some d) orig_len n r chunks h er eh e =
      let e' = rw er at e in
      let final : b.finalize h ≡ b.hash (concat chunks) =
        ap b.finalize (eh ∙ hashed_all b b.new chunks) ∙ laws.incremental chunks in
      elim (Bool-cases (bytes_eq (b.finalize h) d)) [
        | inl t ↦ inr (ap some (sym (bytes_eq→eq (b.finalize h) d t) ∙ final))
        | inr t ↦ let failed = rw t at e' in cc
      ]

  digest_ok :
      (digest : Option Bytes) (orig_len n : ℕ) (r : Result AdaptiveError H)
      → check_digest b vec_writer digest orig_len r ≡ ok n
      → (h : H) × (r ≡ ok h)
  unfolding check_digest
  digest_ok none orig_len n r e = let (h, er, on) = succeeded _ r e in (h, er)
  digest_ok (some d) orig_len n r e = let (h, er, on) = succeeded _ r e in (h, er)

  -- The output of a container whose blocks were all written.
  Written : Container → Bytes → Type 0
  Written c out =
      (length out ≡ declared_len c.blocks) × ((c.digest ≡ none) ⊎ (c.digest ≡ some (b.hash out)))

  write_decoded-Written :
      (c : Container) (p : Result AdaptiveError H × Bytes) (n : ℕ)
      → write_decoded b vec_writer (is_some c.digest) (map (decode_block codecs) c.blocks) b.new []
        ≡ p
      → check_digest b vec_writer c.digest c.orig_len p.0 ≡ ok n
      → Written c p.1
  unfolding Written
  write_decoded-Written c (r, w) n e en =
      let (h, er) = digest_ok c.digest c.orig_len n r en in
      let (chunks, size, out, state) =
        write_decoded_lem b (is_some c.digest) codecs c.blocks b.new h [] w
          (e ∙ ap (λ (x : Result AdaptiveError H). (x, w)) er) in
      let hashes = digest_lem c.digest c.orig_len n r chunks h er state en in rw out (size, hashes)

  write_blocks-Written :
      (c : Container) (out : Bytes)
      → ((write_blocks b vec_writer codecs threads c []).0 >>= λ n.
          ok (write_blocks b vec_writer codecs threads c []).1)
        ≡ ok out
      → Written c out
  write_blocks-Written c out e =
      let (n, en, eo) = succeeded _ (write_blocks b vec_writer codecs threads c []).0 e in
      let sequence = write_blocks_sequential b vec_writer codecs threads c [] in
      let p =
        write_decoded b vec_writer (is_some c.digest) (map (decode_block codecs) c.blocks) b.new
          [] in
      let checked : check_digest b vec_writer c.digest c.orig_len p.0 ≡ ok n =
        sym (ap {B = Result AdaptiveError ℕ} (λ (x : Result AdaptiveError ℕ × Bytes). x.0) sequence)
        ∙ en in
      let same : (write_blocks b vec_writer codecs threads c []).1 ≡ out =
        ap {B = Bytes}
          (λ (x : Result AdaptiveError Bytes). elim x [ ok y ↦ y | err z ↦ [] | stuck ↦ [] ]) eo in
      let end : p.1 ≡ out =
        sym (ap {B = Bytes} (λ (x : Result AdaptiveError ℕ × Bytes). x.1) sequence) ∙ same in
      rw end at (write_decoded-Written c p n refl checked)

  within_limit : (m n : ℕ) (z : AdaptiveError) (u : Unit {0}) → fail_if (ltb m n) z ≡ ok u → n ≤ m
  within_limit m n z u e = elim (Bool-cases (ltb m n)) [
    | inl t ↦ let failed = rw t at e in cc
    | inr t ↦ ltb→le m n t
  ]

  -- Whatever the codecs are: a decompression that succeeds returns as many bytes as the container
  -- declares, at most the limit, and, for a hash that keeps its laws, their hash is the one of the
  -- container, if it has one.
  pub try_adaptive_decompress_limited_lem :
      (payload out : Bytes) (max_output : ℕ)
      → try_adaptive_decompress_limited b codecs threads payload max_output ≡ ok out
      → (c : Container) × (parse_container payload ≡ ok c)
        × (length out ≡ c.orig_len)
        × (c.orig_len ≤ max_output)
        × ((c.digest ≡ none) ⊎ (c.digest ≡ some (b.hash out)))
  unfolding try_adaptive_decompress_limited Written
  try_adaptive_decompress_limited_lem payload out max_output e =
      let (c, parsed, r1) = succeeded _ (parse_container payload) e in
      let (u, below, r2) =
        succeeded _ (fail_if (ltb max_output c.orig_len) (output_limit c.orig_len max_output)) r1 in
      let (size, hashes) : Written c out = write_blocks-Written c out r2 in
      (
        c,
        parsed,
        size ∙ parse_container_lem payload c parsed,
        within_limit max_output c.orig_len _ u below,
        hashes,
      )
