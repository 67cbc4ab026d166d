-- ===== src/Lz77/Encoder.antt =====
-- src/lz77/encoder.rs: lazy matching with two steps of lookahead, over hash chains and the four
-- recent offsets.
pub mod Choices
pub mod RoundTrip
use nexcomp.Base.{
  ℕ, zero, suc, ◌+◌, ◌-◌, ◌*◌, min, Bool, true, false, ◌&&◌, ◌||◌, Option, none, some, List, [],
  ◌∷◌, ◌++◌, ◌==◌, ltb, leb, if◌then◌else◌, length, get_or, drop,
}
use nexcomp.Base.Words.{Bytes, u16, u32}
use nexcomp.Lz77.{Token, literal, match, max_match, min_match}
use nexcomp.Lz77.Hash
use nexcomp.Lz77.Hash.{HashChain, new_chain, hash3, match_length, Found, find_best_match_with_steps}
use nexcomp.Lz77.Mru.{MruCache, new_mru, recent, update_mru}

-- A candidate: offset and length.
pub record Candidate : Type 0 where
  pub offset : ℕ
  pub len : ℕ

-- A chosen match, and whether it came from the recent offsets.
pub record Choice : Type 0 where
  pub offset : ℕ
  pub len : ℕ
  pub is_rep : Bool

-- The loop of `try_rep_match` over the cached offsets; `continue` on one that would reach before
-- the start, `break` at full length.
pub rep_loop : Bytes → ℕ → ℕ → List ℕ → Candidate → Candidate
unfolding match_length
rep_loop bytes pos max_len [] best = best
rep_loop bytes pos max_len (co ∷ offsets) best =
    let on = rep_loop bytes pos max_len offsets best in
    let len = match_length bytes (pos - co) pos max_len 0 in
    let longer : Candidate = record { offset = co; len = len } in
    let on' = rep_loop bytes pos max_len offsets longer in
    if co == 0 || ltb pos co
    then on
    else if ltb best.len len
    then (if len == max_len then longer else on')
    else on

pub try_rep_match : Bytes → ℕ → MruCache → Option Candidate
try_rep_match bytes pos mru =
    let remaining = length bytes - pos in
    let best =
      rep_loop bytes pos (min remaining max_match) (recent mru)
        (record { offset = 0; len = min_match - 1 }) in
    if ltb remaining min_match
    then none
    else if leb min_match best.len
    then some (record { offset = best.offset; len = u16 best.len })
    else none

-- Prefers the recent offset if it is within one byte of the other match.
pub merge_rep_and_hash : Option Candidate → Option Candidate → Option Choice
merge_rep_and_hash (some r) (some h) =
    if leb (h.len - 1) r.len
    then some (record { offset = r.offset; len = r.len; is_rep = true })
    else some (record { offset = h.offset; len = h.len; is_rep = false })
merge_rep_and_hash (some r) none = some (record { offset = r.offset; len = r.len; is_rep = true })
merge_rep_and_hash none (some h) = some (record { offset = h.offset; len = h.len; is_rep = false })
merge_rep_and_hash none none = none

-- Short matches that would cost more than literals are dropped.
pub filter_hash_match : Option Found → Option Candidate
filter_hash_match none = none
filter_hash_match (some f) =
    if f.len == 3 && (ltb 4096 f.offset || (ltb 1024 f.offset && leb 4 f.steps))
    then none
    else some (record { offset = f.offset; len = f.len })

-- The match that the encoder considers at one position.
pub match_at : Bytes → HashChain → MruCache → ℕ → Option Choice
match_at bytes chain mru pos =
    merge_rep_and_hash (try_rep_match bytes pos mru)
      (filter_hash_match (find_best_match_with_steps chain bytes pos))

-- The same at a later position, where three bytes must be left.
next_match : Bytes → HashChain → MruCache → ℕ → Option Choice
next_match bytes chain mru pos =
    if leb (pos + 3) (length bytes) then match_at bytes chain mru pos else none

abbrev pub insert_at : Bytes → ℕ → HashChain → HashChain
insert_at bytes pos chain =
    Hash.insert (hash3 (get_or bytes pos 0) (get_or bytes (pos + 1) 0) (get_or bytes (pos + 2) 0))
      (u32 pos) chain

-- `next.is_some_and(|(_, l, _)| l > len)`.
is_longer : Option Choice → ℕ → Bool
is_longer none len = false
is_longer (some c) len = ltb len c.len

length_of : Option Choice → ℕ
length_of none = 0
length_of (some c) = c.len

-- The positions behind the first that a match covers are entered too, `left` of them from `p` on.
insert_covered : Bytes → ℕ → ℕ → HashChain → HashChain
insert_covered bytes zero p chain = chain
insert_covered bytes (suc left) p chain =
    insert_covered bytes left (p + 1)
      (if leb (p + 3) (length bytes) then insert_at bytes p chain else chain)

pub record State : Type 0 where
  pub chain : HashChain
  pub mru : MruCache
  pub tokens : List Token
  pub pos : ℕ
  pub reps : ℕ

abbrev pub literals : Bytes → List Token
literals [] = []
literals (b ∷ bytes) = literal b ∷ literals bytes

-- No match: a literal, and the position is entered.
pub emit_literal : Bytes → State → State
emit_literal bytes s = record s {
  chain = insert_at bytes s.pos s.chain;
  tokens = s.tokens ++ (literal (get_or bytes s.pos 0) ∷ []);
  pos = s.pos + 1;
}

-- The match at the current position is used; `chain` has the current position already.
pub emit_match : Bytes → Choice → HashChain → State → State
emit_match bytes c chain s =
    let match_end = min (s.pos + c.len) (length bytes) in
    record {
      chain = insert_covered bytes (match_end - (s.pos + 1)) (s.pos + 1) chain;
      mru = update_mru c.offset s.mru;
      tokens = s.tokens ++ (match c.offset c.len ∷ []);
      pos = match_end;
      reps = if c.is_rep then s.reps + 1 else s.reps;
    }

-- A match was found: look one and two positions ahead for a longer one, and emit literals up to it.
pub lazy_match : Bytes → Choice → State → State
lazy_match bytes c s =
    let chain1 = insert_at bytes s.pos s.chain in
    let next1 = next_match bytes chain1 s.mru (s.pos + 1) in
    let chain2 = insert_at bytes (s.pos + 1) chain1 in
    let next2 = next_match bytes chain2 s.mru (s.pos + 2) in
    if is_longer next1 c.len
    then (if is_longer next2 (length_of next1)
        then record s {
          chain = chain2;
          tokens =
              s.tokens
              ++ (literal (get_or bytes s.pos 0) ∷ literal (get_or bytes (s.pos + 1) 0) ∷ []);
          pos = s.pos + 2;
        }
        else record s {
          chain = chain2;
          tokens = s.tokens ++ (literal (get_or bytes s.pos 0) ∷ []);
          pos = s.pos + 1;
        })
    else emit_match bytes c chain1 s

-- One round where three bytes are left.
pub step : Bytes → State → State
step bytes s = elim (match_at bytes s.chain s.mru s.pos) [
  | some c ↦ lazy_match bytes c s
  | none ↦ emit_literal bytes s
]

-- The main loop; each round moves on, so the length of the input is enough fuel.
pub encode_loop : Bytes → ℕ → State → List Token × ℕ
encode_loop bytes zero s = (s.tokens, s.reps)
encode_loop bytes (suc fuel) s =
    let rest = encode_loop bytes fuel (step bytes s) in
    if leb (length bytes) s.pos
    then (s.tokens, s.reps)
    else if ltb (length bytes) (s.pos + 3)
    then (s.tokens ++ literals (drop s.pos bytes), s.reps)
    else rest

-- `encode` of a new encoder: the tokens, and how many matches used a recent offset.
unfoldable pub encode : Bytes → List Token × ℕ
encode bytes =
    encode_loop bytes (length bytes)
      (record { chain = new_chain; mru = new_mru; tokens = []; pos = 0; reps = 0 })
