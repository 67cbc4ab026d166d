-- ===== src/Adaptive/Wire/Layout.antt =====
-- The blocks that the parser of src/adaptive.rs accepts have the length of the container.
use nexcomp.Base.{
  ℕ, zero, suc, ◌+◌, ◌*◌, ◌-◌, ◌/◌, min, ◌≡◌, sym, ap, ◌∙◌, arith, inl, inr, true, false,
  Bool-cases, ltb, List, [], ◌∷◌, ◌==◌, ==→eq, if◌then◌else◌, length, Result, ok, err, stuck,
  succeeded, fail_if, ok_or, get_or,
}
use nexcomp.Base.Words.{Bytes, of_le}
use nexcomp.Adaptive.{
  block_size, file_header_len, block_header_len, from_u8, AdaptiveError, bad_magic, bad_layout,
  truncated, trailing_bytes, unknown_codec, too_large_for_this_build,
}
use nexcomp.Lz77.Decoder.{usize_max}
use nexcomp.Adaptive.Reader.{read_le, u32_at, slice?}
use nexcomp.Adaptive.Wire.{
  BlockInfo, Container, footer_len, parse_block, parse_loop, parse_container, div_ceil,
}

abbrev pub declared_len : List BlockInfo → ℕ
declared_len [] = 0
declared_len (block ∷ blocks) = block.orig_len + declared_len blocks

-- A guard that let the chain go on.
unless_failed :
    (m n : ℕ) (z : AdaptiveError) (u : Unit {0})
    → fail_if (if m == n then false else true) z ≡ ok u
    → m ≡ n
unless_failed m n z u e = elim (Bool-cases (m == n)) [
  | inl t ↦ ==→eq m n t
  | inr t ↦ let failed = rw t at e in cc
]

-- The blocks of a parsed container.
parse_block_lem :
    (payload : Bytes) (orig_len index pos : ℕ) (block : BlockInfo) (next : ℕ)
    → parse_block payload orig_len index pos ≡ ok (block, next)
    → block.orig_len ≡ min block_size (orig_len - index * block_size)
unfolding parse_block
parse_block_lem payload orig_len index pos block next e =
    let (head, a1, r1) = succeeded _ (read_le 2 payload pos) e in
    let id = get_or head 0 0 in
    let (codec, a2, r2) = succeeded _ (ok_or (from_u8 id) (unknown_codec id)) r1 in
    let (block_orig, a3, r3) = succeeded _ (u32_at payload (pos + 2)) r2 in
    let (comp_len, a4, r4) = succeeded _ (u32_at payload (pos + 6)) r3 in
    let (crc, a5, r5) = succeeded _ (u32_at payload (pos + 10)) r4 in
    let expected = min block_size (orig_len - index * block_size) in
    let (u, a6, r6) =
      succeeded _ (fail_if (if block_orig == expected then false else true) bad_layout) r5 in
    let (bytes, a7, r7) =
      succeeded _ (ok_or (slice? payload (pos + block_header_len) comp_len) truncated) r6 in
    let same : block_orig ≡ block.orig_len =
      ap {B = ℕ}
        (λ (r : Result AdaptiveError (BlockInfo × ℕ)). elim r [
          | ok x ↦ x.0.orig_len
          | err z ↦ 0
          | stuck ↦ 0
        ])
        r7 in
    sym same
    ∙ unless_failed block_orig (min block_size (orig_len - index * block_size)) bad_layout u a6

parse_loop_lem :
    (left : ℕ) (payload : Bytes) (orig_len index pos : ℕ) (blocks : List BlockInfo) (end : ℕ)
    → parse_loop left payload orig_len index pos ≡ ok (blocks, end)
    → declared_len blocks ≡ min (left * block_size) (orig_len - index * block_size)
unfolding parse_loop
parse_loop_lem zero payload orig_len index pos blocks end e =
    let same : [] ≡ blocks = cc in rw (← same) (omega arith)
parse_loop_lem (suc left) payload orig_len index pos blocks end e =
    let ((block, next), e1, e2) = succeeded _ (parse_block payload orig_len index pos) e in
    let ((rest, last), e3, e4) =
      succeeded _ (parse_loop left payload orig_len (index + 1) next) e2 in
    let same : block ∷ rest ≡ blocks = cc in
    let here = parse_block_lem payload orig_len index pos block next e1 in
    let on = parse_loop_lem left payload orig_len (index + 1) next rest last e3 in
    rw (← same) (omega arith)

-- The blocks of a container that the parser accepts declare, all together, the length that the
-- container declares.
pub parse_container_lem :
    (payload : Bytes) (c : Container)
    → parse_container payload ≡ ok c
    → declared_len c.blocks ≡ c.orig_len
unfolding parse_container
parse_container_lem payload c e =
    let (footer, a1, r1) = succeeded _ (ok_or (footer_len payload) bad_magic) e in
    let (u2, a2, r2) =
      succeeded _ (fail_if (ltb (length payload) (file_header_len + footer)) truncated) r1 in
    let (declared, a3, r3) = succeeded _ (read_le 8 payload 4) r2 in
    let n = of_le declared in
    let (u4, a4, r4) = succeeded _ (fail_if (ltb usize_max n) (too_large_for_this_build n)) r3 in
    let (block_count, a5, r5) = succeeded _ (u32_at payload 12) r4 in
    let (u6, a6, r6) =
      succeeded _
        (fail_if (ltb ((length payload - file_header_len - footer) / block_header_len) block_count)
          truncated)
        r5 in
    let (u7, a7, r7) =
      succeeded _
        (fail_if (if block_count == div_ceil n block_size then false else true) bad_layout) r6 in
    let (parsed, a8, r8) = succeeded _ (parse_loop block_count payload n 0 file_header_len) r7 in
    let (u9, a9, r9) =
      succeeded _ (fail_if (ltb (length payload) (parsed.1 + footer)) truncated) r8 in
    let (u10, a10, r10) =
      succeeded _ (fail_if (ltb (parsed.1 + footer) (length payload)) trailing_bytes) r9 in
    let count = unless_failed block_count (div_ceil n block_size) bad_layout u7 a7 in
    let loop = parse_loop_lem block_count payload n 0 file_header_len parsed.0 parsed.1 a8 in
    let full : declared_len parsed.0 ≡ n = omega arith in
    let blocks : parsed.0 ≡ c.blocks =
      ap {B = List BlockInfo}
        (λ (r : Result AdaptiveError Container). elim r [
          | ok x ↦ x.blocks
          | err z ↦ []
          | stuck ↦ []
        ])
        r10 in
    let len : n ≡ c.orig_len =
      ap {B = ℕ}
        (λ (r : Result AdaptiveError Container). elim r [
          | ok x ↦ x.orig_len
          | err z ↦ 0
          | stuck ↦ 0
        ])
        r10 in
    sym (ap declared_len blocks) ∙ full ∙ len
