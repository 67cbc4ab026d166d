-- ===== src/Lz77/Hash.antt =====
-- src/lz77/hash.rs: the hash chains, and the search for the longest match. The two arrays are
-- functions: every index is a hash below `hash_size` or a position modulo `max_window`.
pub mod Match
pub mod Plain
use nexcomp.Base.{
  ℕ, zero, suc, ◌+◌, ◌-◌, ◌*◌, ◌/◌, ◌%◌, ◌^◌, min, Bool, ◌&&◌, ◌||◌, Option, none, some, ◌==◌, ltb,
  leb, if◌then◌else◌, length, get_or,
}
use nexcomp.Base.Words.{Bytes, u16, u32}
use nexcomp.Base.Bits.{bit_and, bit_or}
use nexcomp.Lz77.{max_window, max_match, min_match, hash_bits, hash_mask, max_chain}

pub record HashChain : Type 0 where
  pub head : ℕ → ℕ
  pub prev : ℕ → ℕ

-- `u32::MAX`, the end of a chain.
abbrev pub u32_max : ℕ
u32_max = 2 ^ 32 - 1

abbrev pub new_chain : HashChain
new_chain = record { head = λ h. u32_max; prev = λ slot. u32_max }

unfoldable pub hash3 : ℕ → ℕ → ℕ → ℕ
hash3 a b c =
    let val = bit_or (bit_or (a * 2 ^ 16) (b * 2 ^ 8)) c in
    bit_and (u32 (val * 0x1e35a7bd) / 2 ^ (32 - hash_bits)) hash_mask

-- An array with one entry replaced.
abbrev update : (ℕ → ℕ) → ℕ → ℕ → ℕ → ℕ
update array i v j = if i == j then v else array j

pub insert : ℕ → ℕ → HashChain → HashChain
insert h pos chain =
    let slot = pos % max_window in
    record { head = update chain.head h pos; prev = update chain.prev slot (chain.head h) }

-- `while len < max && data[a + len] == data[b + len] { len += 1 }`, with `left` rounds to `max`.
unfoldable pub match_length : Bytes → ℕ → ℕ → ℕ → ℕ → ℕ
match_length bytes a b zero len = len
match_length bytes a b (suc left) len =
    let more = match_length bytes a b left (len + 1) in
    if get_or bytes (a + len) 0 == get_or bytes (b + len) 0 then more else len

-- The best match so far: its length, its offset, and the chain step at which it was found.
pub record Best : Type 0 where
  pub len : ℕ
  pub offset : ℕ
  pub steps : ℕ

-- The body of the search for one candidate inside the window; `max_len` bytes can match at all.
-- The comparison at `best.len` comes first, as a quick check.
pub try_candidate : Bytes → ℕ → ℕ → ℕ → ℕ → Best → Best
unfolding match_length
try_candidate bytes current max_len cand chain_count best =
    let cand_max_len = min max_len (length bytes - cand) in
    if ltb best.len cand_max_len
      && (get_or bytes (cand + best.len) 0 == get_or bytes (current + best.len) 0)
    then (let len = match_length bytes cand current cand_max_len 0 in
        if ltb best.len len
        then record { len = len; offset = u32 (current - cand); steps = chain_count }
        else best)
    else best

-- The walk along the chain, `left` candidates before `max_chain` is reached. A candidate that is
-- not before `current` is passed over; one beyond the window ends the walk, and so does a match
-- of full length.
unfoldable pub search_chain : HashChain → Bytes → ℕ → ℕ → ℕ → ℕ → ℕ → Best → Best
unfolding try_candidate
search_chain chain bytes current max_len zero candidate chain_count best = best
search_chain chain bytes current max_len (suc left) candidate chain_count best =
    let older = chain.prev (candidate % max_window) in
    let skip = search_chain chain bytes current max_len left older (chain_count + 1) best in
    let best' = try_candidate bytes current max_len candidate chain_count best in
    let on = search_chain chain bytes current max_len left older (chain_count + 1) best' in
    if candidate == u32_max
    then best
    else if leb current candidate
    then skip
    else if ltb max_window (current - candidate)
    then best
    else if ltb best.len best'.len && (best'.len == max_len)
    then best'
    else on

abbrev pub no_match : Best
no_match = record { len = min_match - 1; offset = 0; steps = 0 }

pub record Found : Type 0 where
  pub offset : ℕ
  pub len : ℕ
  pub steps : ℕ

unfoldable pub find_best_match_with_steps : HashChain → Bytes → ℕ → Option Found
find_best_match_with_steps chain bytes current =
    let h =
      hash3 (get_or bytes current 0) (get_or bytes (current + 1) 0)
        (get_or bytes (current + 2) 0) in
    let max_len = min max_match (length bytes - current) in
    let best = search_chain chain bytes current max_len max_chain (chain.head h) 0 no_match in
    if ltb (length bytes) (current + 3)
    then none
    else if leb min_match best.len
    then some (record { offset = best.offset; len = u16 best.len; steps = best.steps })
    else none
