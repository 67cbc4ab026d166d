-- ===== src/Lz77/Hash/Match.antt =====
-- What the search promises, whatever the chains hold: every match that it returns is real.
use nexcomp.Base.{
  ℕ, zero, suc, ◌+◌, ◌-◌, ◌*◌, ◌/◌, ◌%◌, ◌^◌, ◌≤◌, ◌<◌, min, ◌≡◌, refl, arith, inl, inr, ◌⊎◌, some,
  length, get_or,
}
use nexcomp.Base.Words.{Bytes, u32}
use nexcomp.Base.Bits.{bit_or, bit_and_mask}
use nexcomp.Lz77.{max_window, max_match, max_chain, hash_size}
use nexcomp.Lz77.Hash.{
  HashChain, hash3, match_length, Best, try_candidate, search_chain, no_match, Found,
  find_best_match_with_steps,
}

-- Copying `len` bytes from `offset` back gives the bytes at `current`.
abbrev pub IsMatch : Bytes → ℕ → ℕ → ℕ → Type 0
IsMatch bytes current offset len =
    (0 < offset)
    × (offset ≤ current)
    × (current + len ≤ length bytes)
    × ((i : ℕ) → i < len → get_or bytes (current - offset + i) 0 ≡ get_or bytes (current + i) 0)

match_length_bounds :
    (bytes : Bytes) (a b left len : ℕ)
    → (len ≤ match_length bytes a b left len) × (match_length bytes a b left len ≤ len + left)
unfolding match_length
match_length_bounds bytes a b zero len = omega arith
match_length_bounds bytes a b (suc left) len =
    ground (arith, match_length_bounds bytes a b left (len + 1))

match_length_same :
    (bytes : Bytes) (a b left len i : ℕ)
    → len ≤ i
    → i < match_length bytes a b left len
    → get_or bytes (a + i) 0 ≡ get_or bytes (b + i) 0
unfolding match_length
match_length_same bytes a b zero len i h k = absurd (omega arith)
match_length_same bytes a b (suc left) len i h k =
    ground (arith, match_length_same bytes a b left (len + 1) i)

-- What the counting loop finds is counted once more for the encoder's other search.
pub match_length_run :
    (bytes : Bytes) (a b left : ℕ)
    → (match_length bytes a b left 0 ≤ left)
      × ((i : ℕ)
          → i < match_length bytes a b left 0
          → get_or bytes (a + i) 0 ≡ get_or bytes (b + i) 0)
match_length_run bytes a b left = (
  omega (arith, match_length_bounds bytes a b left 0),
  λ i h. match_length_same bytes a b left 0 i (omega arith) h,
)

module _ (bytes : Bytes) (current max_len : ℕ) (room : current + max_len ≤ length bytes) where
  abbrev Good : Best → Type 0
  Good best =
      (best.len ≡ 2)
      ⊎ ((2 < best.len)
          × (best.len ≤ max_len)
          × (best.offset ≤ max_window)
          × IsMatch bytes current best.offset best.len)

  abbrev run_at : ℕ → ℕ
  run_at cand = match_length bytes cand current (min max_len (length bytes - cand)) 0

  try_candidate_cases :
      (cand chain_count : ℕ) (best : Best)
      → current - cand ≤ max_window
      → let next = try_candidate bytes current max_len cand chain_count best in
        (next ≡ best)
        ⊎ ((best.len < next.len) × (next.len ≡ run_at cand) × (next.offset ≡ current - cand))
  unfolding try_candidate
  try_candidate_cases cand chain_count best near = ground arith

  try_candidate-Good :
      (cand chain_count : ℕ) (best : Best)
      → cand < current
      → current - cand ≤ max_window
      → Good best
      → Good (try_candidate bytes current max_len cand chain_count best)
  try_candidate-Good cand chain_count best before near good =
      let next = try_candidate bytes current max_len cand chain_count best in
      let (short, same) = match_length_run bytes cand current (min max_len (length bytes - cand)) in
      let back : current - (current - cand) ≡ cand = omega arith in
      elim (try_candidate_cases cand chain_count best near) [
        | inl e ↦ rw e good
        | inr (longer, e, o) ↦ inr (
          omega arith,
          omega arith,
          omega arith,
          rw (e, o) (omega arith, omega arith, omega arith, λ i h. rw back (same i h)),
        )
      ]

  search_chain-Good :
      (chain : HashChain) (left candidate chain_count : ℕ) (best : Best)
      → Good best
      → Good (search_chain chain bytes current max_len left candidate chain_count best)
  unfolding search_chain
  search_chain-Good chain zero candidate chain_count best good = good
  search_chain-Good chain (suc left) candidate chain_count best good = ground (
    arith,
    try_candidate-Good candidate chain_count best,
    search_chain-Good chain left (chain.prev (candidate % max_window)) (chain_count + 1) best,
    search_chain-Good chain left (chain.prev (candidate % max_window)) (chain_count + 1)
        (try_candidate bytes current max_len candidate chain_count best),
  )

-- The best match of the walk that `find_best_match_with_steps` makes.
abbrev best_at : HashChain → Bytes → ℕ → Best
best_at chain bytes current =
    search_chain chain bytes current (min max_match (length bytes - current)) max_chain
      (chain.head (
        hash3 (get_or bytes current 0) (get_or bytes (current + 1) 0)
          (get_or bytes (current + 2) 0)))
      0 no_match

found_inv :
    (chain : HashChain) (bytes : Bytes) (current : ℕ) (f : Found)
    → find_best_match_with_steps chain bytes current ≡ some f
    → let best = best_at chain bytes current in
      (current + 3 ≤ length bytes)
      × (3 ≤ best.len)
      × (f.offset ≡ best.offset)
      × (f.len ≡ best.len % 2 ^ 16)
unfolding find_best_match_with_steps
found_inv chain bytes current f e = ground arith

-- Whatever the chains hold, a match that the search returns lies in the window, is 3 to 258 bytes
-- long, stays inside the input, and repeats the bytes at its offset.
pub find_best_match_with_steps-IsMatch :
    (chain : HashChain) (bytes : Bytes) (current : ℕ) (f : Found)
    → find_best_match_with_steps chain bytes current ≡ some f
    → (3 ≤ f.len)
      × (f.len ≤ max_match)
      × (f.offset ≤ max_window)
      × IsMatch bytes current f.offset f.len
find_best_match_with_steps-IsMatch chain bytes current f e =
    let (room, long, eo, el) = found_inv chain bytes current f e in
    let best = best_at chain bytes current in
    let max_len = min max_match (length bytes - current) in
    elim (search_chain-Good bytes current max_len (omega arith) chain max_chain
      (chain.head (
        hash3 (get_or bytes current 0) (get_or bytes (current + 1) 0)
          (get_or bytes (current + 2) 0)))
      0 no_match (inl refl)) [
        | inl short ↦ absurd (omega arith)
        | inr (more, below, near, m) ↦
            let same_len : f.len ≡ best.len = omega arith in
            rw (same_len, eo) (long, omega arith, near, m)
      ]

-- The hash is an index of the head array.
hash3-lt-hash_size : (a b c : ℕ) → hash3 a b c < hash_size
unfolding hash3
hash3-lt-hash_size a b c = omega (
  arith,
  bit_and_mask 18 (u32 (bit_or (bit_or (a * 2 ^ 16) (b * 2 ^ 8)) c * 0x1e35a7bd) / 2 ^ 14),
)
