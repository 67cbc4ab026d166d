-- ===== src/Lz77/Encoder/Choices.antt =====
-- Every match that the encoder chooses is real, whichever cache or chain proposed it.
use nexcomp.Base.{
  ℕ, ◌+◌, ◌-◌, ◌%◌, ◌^◌, ◌≤◌, ◌<◌, min, ◌≡◌, refl, arith, inl, inr, ◌⊎◌, Bool-cases, leb, Option,
  none, some, List, [], ◌∷◌, length, All,
}
use nexcomp.Base.Words.{Bytes}
use nexcomp.Lz77.{max_window, max_match}
use nexcomp.Lz77.Hash.{HashChain, match_length, Found, find_best_match_with_steps}
use nexcomp.Lz77.Hash.Match.{IsMatch, match_length_run, find_best_match_with_steps-IsMatch}
use nexcomp.Lz77.Mru.{MruCache, recent, update_mru, find, promote, insert}
use nexcomp.Lz77.Cover.{InLimits}
use nexcomp.Lz77.Encoder.{
  Candidate, Choice, rep_loop, try_rep_match, merge_rep_and_hash, filter_hash_match, match_at,
}

abbrev pub InWindow : MruCache → Type 0
InWindow m = All (λ offset. offset ≤ max_window) (recent m)

pub update_mru-InWindow :
    (offset : ℕ) (m : MruCache) → offset ≤ max_window → InWindow m → InWindow (update_mru offset m)
unfolding update_mru find promote insert
update_mru-InWindow offset m h w = ground arith

abbrev pub IsReal : Bytes → ℕ → ℕ → ℕ → Type 0
IsReal bytes pos offset len = IsMatch bytes pos offset len × InLimits offset len

module _ (bytes : Bytes) (pos max_len : ℕ) (room : pos + max_len ≤ length bytes) where
  abbrev Good : Candidate → Type 0
  Good best =
      (best.len ≡ 2)
      ⊎ ((2 < best.len)
          × (best.len ≤ max_len)
          × (best.offset ≤ max_window)
          × IsMatch bytes pos best.offset best.len)

  run-Good :
      (co : ℕ)
      → 0 < co
      → co ≤ pos
      → co ≤ max_window
      → 2 < match_length bytes (pos - co) pos max_len 0
      → Good (record { offset = co; len = match_length bytes (pos - co) pos max_len 0 })
  run-Good co h k w longer =
      let (short, same) = match_length_run bytes (pos - co) pos max_len in
      inr (longer, short, w, (h, k, omega arith, same))

  rep_loop-Good :
      (offsets : List ℕ) (best : Candidate)
      → All (λ offset. offset ≤ max_window) offsets
      → Good best
      → Good (rep_loop bytes pos max_len offsets best)
  unfolding rep_loop
  rep_loop-Good [] best h good = good
  rep_loop-Good (co ∷ offsets) best (hc, h) good = ground (
    arith,
    run-Good co,
    rep_loop-Good offsets best h good,
    rep_loop-Good offsets
        (record { offset = co; len = match_length bytes (pos - co) pos max_len 0 }) h,
  )

abbrev rep_best : Bytes → ℕ → MruCache → Candidate
rep_best bytes pos mru =
    rep_loop bytes pos (min (length bytes - pos) max_match) (recent mru)
      (record { offset = 0; len = 2 })

rep_inv :
    (bytes : Bytes) (pos : ℕ) (mru : MruCache) (c : Candidate)
    → try_rep_match bytes pos mru ≡ some c
    → let best = rep_best bytes pos mru in
      (3 ≤ length bytes - pos)
      × (3 ≤ best.len)
      × (c.offset ≡ best.offset)
      × (c.len ≡ best.len % 2 ^ 16)
unfolding try_rep_match
rep_inv bytes pos mru c e = ground arith

-- A match at a recent offset is real.
try_rep_match-IsReal :
    (bytes : Bytes) (pos : ℕ) (mru : MruCache) (c : Candidate)
    → InWindow mru
    → try_rep_match bytes pos mru ≡ some c
    → IsReal bytes pos c.offset c.len
try_rep_match-IsReal bytes pos mru c w e =
    let (room, long, eo, el) = rep_inv bytes pos mru c e in
    let best = rep_best bytes pos mru in
    let start : Candidate = record { offset = 0; len = 2 } in
    elim (rep_loop-Good bytes pos (min (length bytes - pos) max_match) (omega arith) (recent mru)
      start w (inl refl)) [
        | inl short ↦ absurd (omega arith)
        | inr (more, below, near, m) ↦
            let same_len : c.len ≡ best.len = omega arith in
            rw (same_len, eo) (m, (near, long, omega arith))
      ]

filter_inv :
    (o : Option Found) (c : Candidate)
    → filter_hash_match o ≡ some c
    → (f : Found) × (o ≡ some f) × (c.offset ≡ f.offset) × (c.len ≡ f.len)
unfolding filter_hash_match
filter_inv none c e = cc
filter_inv (some f) c e = (f, refl, ground arith, ground arith)

hash_match-IsReal :
    (bytes : Bytes) (chain : HashChain) (pos : ℕ) (c : Candidate)
    → filter_hash_match (find_best_match_with_steps chain bytes pos) ≡ some c
    → IsReal bytes pos c.offset c.len
hash_match-IsReal bytes chain pos c e =
    let (f, ef, eo, el) = filter_inv (find_best_match_with_steps chain bytes pos) c e in
    let (long, short, near, m) = find_best_match_with_steps-IsMatch chain bytes pos f ef in
    rw (el, eo) (m, (near, long, short))

merge_inv :
    (r h : Option Candidate) (c : Choice)
    → merge_rep_and_hash r h ≡ some c
    → ((x : Candidate) × (r ≡ some x) × (c.offset ≡ x.offset) × (c.len ≡ x.len))
      ⊎ ((x : Candidate) × (h ≡ some x) × (c.offset ≡ x.offset) × (c.len ≡ x.len))
unfolding merge_rep_and_hash
merge_inv none none c e = cc
merge_inv none (some h) c e = inr (h, refl, ground arith, ground arith)
merge_inv (some r) none c e = inl (r, refl, ground arith, ground arith)
merge_inv (some r) (some h) c e = elim (Bool-cases (leb (h.len - 1) r.len)) [
  | inl t ↦ inl (r, refl, ground arith, ground arith)
  | inr t ↦ inr (h, refl, ground arith, ground arith)
]

-- The match that is chosen at a position is real, whatever the chains hold.
pub match_at-IsReal :
    (bytes : Bytes) (chain : HashChain) (mru : MruCache) (pos : ℕ) (c : Choice)
    → InWindow mru
    → match_at bytes chain mru pos ≡ some c
    → IsReal bytes pos c.offset c.len
unfolding match_at
match_at-IsReal bytes chain mru pos c w e =
    elim (merge_inv (try_rep_match bytes pos mru)
      (filter_hash_match (find_best_match_with_steps chain bytes pos)) c e) [
        | inl (x, ex, eo, el) ↦ rw (eo, el) (try_rep_match-IsReal bytes pos mru x w ex)
        | inr (x, ex, eo, el) ↦ rw (eo, el) (hash_match-IsReal bytes chain pos x ex)
      ]
