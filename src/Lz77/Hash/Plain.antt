-- ===== src/Lz77/Hash/Plain.antt =====
-- `find_best_match` of src/lz77/hash.rs, the search that does not count its steps, against the one
-- that does.
use nexcomp.Base.{
  ℕ, zero, suc, ◌+◌, ◌-◌, ◌%◌, min, ◌≡◌, refl, inl, inr, Bool-cases, ◌&&◌, Option, none, some, ◌==◌,
  ltb, leb, if◌then◌else◌, length, get_or,
}
use nexcomp.Base.Words.{Bytes, u16, u32}
use nexcomp.Lz77.{max_window, max_match, min_match, max_chain}
use nexcomp.Lz77.Hash.{
  HashChain, u32_max, hash3, match_length, Best, try_candidate, search_chain, no_match, Found,
  find_best_match_with_steps,
}

pub record Longest : Type 0 where
  pub best_len : ℕ
  pub best_offset : ℕ

longer_candidate : Bytes → ℕ → ℕ → ℕ → Longest → Longest
longer_candidate bytes current max_len cand best =
    let cand_max_len = min max_len (length bytes - cand) in
    if ltb best.best_len cand_max_len
      && (get_or bytes (cand + best.best_len) 0 == get_or bytes (current + best.best_len) 0)
    then (let len = match_length bytes cand current cand_max_len 0 in
        if ltb best.best_len len
        then record { best_len = len; best_offset = u32 (current - cand) }
        else best)
    else best

-- The walk, `left` candidates before `max_chain` is reached.
walk_chain : HashChain → Bytes → ℕ → ℕ → ℕ → ℕ → Longest → Longest
walk_chain chain bytes current max_len zero candidate best = best
walk_chain chain bytes current max_len (suc left) candidate best =
    let older = chain.prev (candidate % max_window) in
    let skip = walk_chain chain bytes current max_len left older best in
    let best' = longer_candidate bytes current max_len candidate best in
    let on = walk_chain chain bytes current max_len left older best' in
    if candidate == u32_max
    then best
    else if leb current candidate
    then skip
    else if ltb max_window (current - candidate)
    then best
    else if ltb best.best_len best'.best_len && (best'.best_len == max_len)
    then best'
    else on

pub find_best_match : HashChain → Bytes → ℕ → Option (ℕ × ℕ)
find_best_match chain bytes current =
    let h =
      hash3 (get_or bytes current 0) (get_or bytes (current + 1) 0)
        (get_or bytes (current + 2) 0) in
    let max_len = min max_match (length bytes - current) in
    let best =
      walk_chain chain bytes current max_len max_chain (chain.head h)
        (record { best_len = min_match - 1; best_offset = 0 }) in
    if ltb (length bytes) (current + 3)
    then none
    else if leb min_match best.best_len
    then some (best.best_offset, u16 best.best_len)
    else none

abbrev shorten : Best → Longest
shorten best = record { best_len = best.len; best_offset = best.offset }

candidates_agree :
    (bytes : Bytes) (current max_len cand count : ℕ) (best : Best)
    → longer_candidate bytes current max_len cand (shorten best)
      ≡ shorten (try_candidate bytes current max_len cand count best)
unfolding longer_candidate try_candidate
candidates_agree bytes current max_len cand count best =
    let cand_max_len = min max_len (length bytes - cand) in
    elim (Bool-cases (
      ltb best.len cand_max_len
      && (get_or bytes (cand + best.len) 0 == get_or bytes (current + best.len) 0))) [
        | inl t ↦
            elim (Bool-cases (ltb best.len (match_length bytes cand current cand_max_len 0))) [
              | inl u ↦ rw (t, u) refl
              | inr u ↦ rw (t, u) refl
            ]
        | inr t ↦ rw t refl
      ]

walks_agree :
    (chain : HashChain) (bytes : Bytes) (current max_len left candidate count : ℕ) (best : Best)
    → walk_chain chain bytes current max_len left candidate (shorten best)
      ≡ shorten (search_chain chain bytes current max_len left candidate count best)
unfolding walk_chain search_chain
walks_agree chain bytes current max_len zero candidate count best = refl
walks_agree chain bytes current max_len (suc left) candidate count best =
    let older = chain.prev (candidate % max_window) in
    let best' = try_candidate bytes current max_len candidate count best in
    let same = candidates_agree bytes current max_len candidate count best in
    elim (Bool-cases (candidate == u32_max)) [
      | inl t ↦ rw t refl
      | inr t ↦ elim (Bool-cases (leb current candidate)) [
        | inl u ↦ rw (t, u) (walks_agree chain bytes current max_len left older (count + 1) best)
        | inr u ↦ elim (Bool-cases (ltb max_window (current - candidate))) [
          | inl v ↦ rw (t, u, v) refl
          | inr v ↦ elim (Bool-cases (ltb best.len best'.len && (best'.len == max_len))) [
            | inl w ↦ rw (t, u, v, same, w) refl
            | inr w ↦
                rw (t, u, v, same, w)
                  (walks_agree chain bytes current max_len left older (count + 1) best')
          ]
        ]
      ]
    ]

abbrev pub without_steps : Option Found → Option (ℕ × ℕ)
without_steps none = none
without_steps (some found) = some (found.offset, found.len)

-- `find_best_match` finds what `find_best_match_with_steps` finds, for any chains.
pub find_best_match-eq-find_best_match_with_steps :
    (chain : HashChain) (bytes : Bytes) (current : ℕ)
    → find_best_match chain bytes current
      ≡ without_steps (find_best_match_with_steps chain bytes current)
unfolding find_best_match find_best_match_with_steps
find_best_match-eq-find_best_match_with_steps chain bytes current =
    let max_len = min max_match (length bytes - current) in
    let h =
      hash3 (get_or bytes current 0) (get_or bytes (current + 1) 0)
        (get_or bytes (current + 2) 0) in
    let best = search_chain chain bytes current max_len max_chain (chain.head h) 0 no_match in
    let same = walks_agree chain bytes current max_len max_chain (chain.head h) 0 no_match in
    elim (Bool-cases (ltb (length bytes) (current + 3))) [
      | inl t ↦ rw t refl
      | inr t ↦ elim (Bool-cases (leb min_match best.len)) [
        | inl u ↦ rw (t, same, u) refl
        | inr u ↦ rw (t, same, u) refl
      ]
    ]
