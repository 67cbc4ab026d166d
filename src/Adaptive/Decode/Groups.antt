-- ===== src/Adaptive/Decode/Groups.antt =====
-- The size of a group of blocks, and that the grouping does not show in the result.
use nexcomp.Base.{
  ℕ, zero, suc, ◌+◌, ◌-◌, ◌≤◌, ◌<◌, min, max, ◌≡◌, ◌⊎◌, inl, inr, refl, sym, ap, ◌∙◌, arith, Bool,
  true, none, some, Option-cases, Bool-cases, ltb→le, List, [], ◌∷◌, ◌++◌, map, ltb, length, take,
  drop, length-take, length-drop, take-append-drop, Result, ok, err, stuck, Result-cases,
}
use mathlib.Core.List.{map-append}
use nexcomp.Base.Words.{Bytes}
use nexcomp.Lz77.Decoder.{saturating_add}
use nexcomp.Adaptive.{AdaptiveError}
use nexcomp.Adaptive.Block.{Codecs}
use nexcomp.Adaptive.Digest.{Blake3}
use nexcomp.Adaptive.Wire.{BlockInfo, Container}
use nexcomp.Adaptive.Decode.{
  decode_block, decode_cost, decode_memory_budget, group_loop, group_within_budget, Writer,
  write_one, write_decoded, write_loop, write_blocks, is_some, check_digest,
}

-- The working memory that a group needs.
abbrev pub total_cost : List BlockInfo → ℕ
total_cost [] = 0
total_cost (block ∷ blocks) = decode_cost block + total_cost blocks

group_loop_bound :
    (taken total n : ℕ) (blocks : List BlockInfo)
    → group_loop taken total blocks ≡ some n
    → (0 < n) × (taken ≤ n) × (n < taken + length blocks)
unfolding group_loop
group_loop_bound taken total n [] e = cc
group_loop_bound taken total n (block ∷ blocks) e =
    ground (arith, group_loop_bound (taken + 1) (saturating_add total (decode_cost block)) n blocks)

-- From a list that is not empty, a group takes at least one block, at most all of them, and at most
-- as many as there are threads.
pub group_within_budget_bound :
    (blocks : List BlockInfo) (in_flight : ℕ)
    → 0 < length blocks
    → 0 < in_flight
    → let n = group_within_budget blocks in_flight in
      (0 < n) × (n ≤ length blocks) × (n ≤ in_flight)
unfolding group_within_budget
group_within_budget_bound blocks in_flight h k =
    elim (Option-cases (group_loop 0 0 (take in_flight blocks))) [
      | inl e ↦ rw e (omega arith, omega arith, omega arith)
      | inr (n, e) ↦
          let bound = group_loop_bound 0 0 n (take in_flight blocks) e in
          let l : length (take in_flight blocks) ≡ min in_flight (length blocks) =
            length-take in_flight blocks in
          rw e (bound.0, omega arith, omega arith)
    ]

take-nil {ℓ} : {A : Type ℓ} (k : ℕ) → ◌≡◌ {A = List A} (take k []) []
take-nil zero = refl
take-nil (suc k) = refl

take-min {ℓ} : {A : Type ℓ} (k : ℕ) (xs : List A) → take (min (length xs) k) xs ≡ take k xs
take-min k [] = let e : min 0 k ≡ 0 = omega arith in rw e (sym (take-nil k))
take-min zero (x ∷ xs) = let e : min (suc (length xs)) 0 ≡ 0 = omega arith in rw e refl
take-min (suc k) (x ∷ xs) =
    let e : min (suc (length xs)) (suc k) ≡ suc (min (length xs) k) = omega arith in
    rw e (ap (λ t. x ∷ t) (take-min k xs))

take-take {ℓ} : {A : Type ℓ} (n k : ℕ) (xs : List A) → n ≤ k → take n (take k xs) ≡ take n xs
take-take zero k xs h = refl
take-take (suc n) zero xs h = absurd (omega arith)
take-take (suc n) (suc k) [] h = refl
take-take (suc n) (suc k) (x ∷ xs) h = ap (λ t. x ∷ t) (take-take n k xs (omega arith))

-- Past the first block the running total never passes the budget.
group_loop_stops :
    (taken total n : ℕ) (blocks : List BlockInfo)
    → 0 < taken
    → total ≤ decode_memory_budget
    → group_loop taken total blocks ≡ some n
    → total + total_cost (take (n - taken) blocks) ≤ decode_memory_budget
unfolding group_loop
group_loop_stops taken total n [] h k e = cc
group_loop_stops taken total n (block ∷ blocks) h k e =
    let t = saturating_add total (decode_cost block) in
    elim (Bool-cases (ltb decode_memory_budget t)) [
      | inl over ↦
          let stop : n ≡ taken = ground arith in
          let z : n - taken ≡ 0 = omega arith in rw z (omega arith)
      | inr under ↦
          let fits : t ≤ decode_memory_budget = ltb→le decode_memory_budget t under in
          let on : group_loop (taken + 1) t blocks ≡ some n = ground arith in
          let bound = group_loop_bound (taken + 1) t n blocks on in
          let z : n - taken ≡ suc (n - (taken + 1)) = omega arith in
          rw z (omega (arith, group_loop_stops (taken + 1) t n blocks (omega arith) fits on))
    ]

group_loop_runs :
    (taken total : ℕ) (blocks : List BlockInfo)
    → 0 < taken
    → total ≤ decode_memory_budget
    → group_loop taken total blocks ≡ none
    → total + total_cost blocks ≤ decode_memory_budget
unfolding group_loop
group_loop_runs taken total [] h k e = omega arith
group_loop_runs taken total (block ∷ blocks) h k e =
    ground (arith, group_loop_runs (taken + 1) (saturating_add total (decode_cost block)) blocks)

first_over :
    (total n : ℕ) (blocks : List BlockInfo)
    → ltb decode_memory_budget total ≡ true
    → group_loop 1 total blocks ≡ some n
    → n ≡ 1
unfolding group_loop
first_over total n [] over e = cc
first_over total n (block ∷ blocks) over e =
    let t = saturating_add total (decode_cost block) in
    let still : ltb decode_memory_budget t ≡ true = ground arith in ground arith

within_budget :
    (blocks : List BlockInfo) (in_flight n : ℕ)
    → group_loop 0 0 (take in_flight blocks) ≡ some n
    → (n ≡ 1) ⊎ (total_cost (take n (take in_flight blocks)) ≤ decode_memory_budget)
unfolding group_loop
within_budget [] in_flight n e = absurd (
    omega (
      arith,
      group_loop_bound 0 0 n (take in_flight []) e,
      ap length (take-nil {A = BlockInfo} in_flight),
    ))
within_budget (block ∷ blocks) zero n e = cc
within_budget (block ∷ blocks) (suc k) n e =
    let t = saturating_add 0 (decode_cost block) in
    let bound = group_loop_bound 1 t n (take k blocks) e in
    elim (Bool-cases (ltb decode_memory_budget t)) [
      | inl over ↦ inl (first_over t n (take k blocks) over e)
      | inr under ↦
          let fits : t ≤ decode_memory_budget = ltb→le decode_memory_budget t under in
          let z : n ≡ suc (n - 1) = omega arith in
          inr (rw z (omega (arith, group_loop_stops 1 t n (take k blocks) (omega arith) fits e)))
    ]

over_stops :
    (total : ℕ) (blocks : List BlockInfo)
    → ltb decode_memory_budget total ≡ true
    → group_loop 1 total blocks ≡ none
    → length blocks ≡ 0
unfolding group_loop
over_stops total [] over e = refl
over_stops total (block ∷ blocks) over e =
    let t = saturating_add total (decode_cost block) in
    let still : ltb decode_memory_budget t ≡ true = ground arith in ground arith

all_within :
    (blocks : List BlockInfo)
    → group_loop 0 0 blocks ≡ none
    → (length blocks ≤ 1) ⊎ (total_cost blocks ≤ decode_memory_budget)
unfolding group_loop
all_within [] e = inl (omega arith)
all_within (block ∷ blocks) e =
    let t = saturating_add 0 (decode_cost block) in
    elim (Bool-cases (ltb decode_memory_budget t)) [
      | inl over ↦ inl (omega (arith, over_stops t blocks over e))
      | inr under ↦ inr (
          omega (
            arith,
            group_loop_runs 1 t blocks (omega arith) (ltb→le decode_memory_budget t under) e,
          ))
    ]

-- A group of more than one block needs no more working memory than the budget.
pub group_within_budget_cost :
    (blocks : List BlockInfo) (in_flight : ℕ)
    → 1 < group_within_budget blocks in_flight
    → total_cost (take (group_within_budget blocks in_flight) blocks) ≤ decode_memory_budget
unfolding group_within_budget
group_within_budget_cost blocks k h = elim (Option-cases (group_loop 0 0 (take k blocks))) [
  | inl e ↦
      let more : 1 < max (min (length blocks) k) 1 = rw e at h in
      let n : max (min (length blocks) k) 1 ≡ min (length blocks) k = omega arith in
      rw (e, n, take-min k blocks)
        (elim (all_within (take k blocks) e) [
          | inl one ↦ absurd (omega (arith, length-take k blocks))
          | inr fits ↦ fits
        ])
  | inr (n, e) ↦
      let more : 1 < n = rw e at h in
      let bound = group_loop_bound 0 0 n (take k blocks) e in
      rw (e, ← take-take n k blocks (omega (arith, length-take k blocks)))
        (elim (within_budget blocks k n e) [ inl one ↦ absurd (omega arith) | inr fits ↦ fits ])
]

-- Writing a list of decoded blocks in two parts.
module _ {H : Type 0} (b : Blake3 H) {W : Type 0} (writer : Writer W) (hashing : Bool) where
  -- The state after a part that succeeded, passed on.
  abbrev resume :
      List (Result AdaptiveError Bytes) → Result AdaptiveError H → W → Result AdaptiveError H × W
  resume more (ok h) w = write_decoded b writer hashing more h w
  resume more (err e) w = (err e, w)
  resume more stuck w = (stuck, w)

  write_decoded-append :
      (xs ys : List (Result AdaptiveError Bytes)) (h : H) (w : W)
      → write_decoded b writer hashing (xs ++ ys) h w
        ≡ resume ys
            (write_decoded b writer hashing xs h w).0
            (write_decoded b writer hashing xs h w).1
  unfolding write_decoded
  write_decoded-append [] ys h w = refl
  write_decoded-append (x ∷ xs) ys h w =
      let w' = (write_one b writer hashing x h w).1 in
      elim (Result-cases (write_one b writer hashing x h w).0) [
        | inl (h', e) ↦ rw (e, write_decoded) (write_decoded-append xs ys h' w')
        | inr (inl (x', e)) ↦ rw (e, write_decoded) refl
        | inr (inr e) ↦ rw (e, write_decoded) refl
      ]

  -- Group by group or all at once: the result and the output are the same.
  write_loop-eq-write_decoded :
      (codecs : Codecs) (in_flight fuel : ℕ) (blocks : List BlockInfo) (h : H) (w : W)
      → 0 < in_flight
      → length blocks ≤ fuel
      → write_loop b writer hashing codecs in_flight fuel blocks h w
        ≡ write_decoded b writer hashing (map (decode_block codecs) blocks) h w
  unfolding write_loop
  write_loop-eq-write_decoded codecs k fuel [] h w pos f = unfold write_decoded in refl
  write_loop-eq-write_decoded codecs k zero (block ∷ rest) h w pos f = absurd (omega arith)
  write_loop-eq-write_decoded codecs k (suc fuel) (block ∷ rest) h w pos f =
      let blocks = block ∷ rest in
      let n = group_within_budget blocks k in
      let bound = group_within_budget_bound blocks k (omega arith) pos in
      let head = map (decode_block codecs) (take n blocks) in
      let later = map (decode_block codecs) (drop n blocks) in
      let split : map (decode_block codecs) blocks ≡ head ++ later =
        ap (map (decode_block codecs)) (sym (take-append-drop n blocks))
        ∙ map-append (decode_block codecs) (take n blocks) (drop n blocks) in
      let both = write_decoded-append head later h w in
      let w' = (write_decoded b writer hashing head h w).1 in
      elim (Result-cases (write_decoded b writer hashing head h w).0) [
        | inl (h', e) ↦
            rw (e, write_loop)
              (write_loop-eq-write_decoded codecs k fuel (drop n blocks) h' w' pos
                  (omega (arith, length-drop n blocks))
                ∙ sym (ap (λ t. write_decoded b writer hashing t h w) split ∙ both ∙ rw e refl))
        | inr (inl (x, e)) ↦
            rw (e, write_loop)
              (sym (ap (λ t. write_decoded b writer hashing t h w) split ∙ both ∙ rw e refl))
        | inr (inr e) ↦
            rw (e, write_loop)
              (sym (ap (λ t. write_decoded b writer hashing t h w) split ∙ both ∙ rw e refl))
      ]

-- The output and the result do not depend on the number of threads: they are those of decoding and
-- writing the blocks one after the other.
pub write_blocks_sequential :
    {H : Type 0} (b : Blake3 H) {W : Type 0} (writer : Writer W) (codecs : Codecs) (threads : ℕ)
    (c : Container) (w : W)
    → write_blocks b writer codecs threads c w ≡ (
        let (r, w') =
          write_decoded b writer (is_some c.digest) (map (decode_block codecs) c.blocks) b.new w in
        (check_digest b writer c.digest c.orig_len r, w'))
unfolding write_blocks
write_blocks_sequential b writer codecs threads c w =
    rw
      (write_loop-eq-write_decoded b writer (is_some c.digest) codecs (max threads 1)
        (length c.blocks) c.blocks b.new w (omega arith) (omega arith))
      refl
