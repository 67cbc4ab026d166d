-- ===== src/Lz77/Mru.antt =====
-- `MruCache` of src/lz77/huffman.rs: the four most recent offsets, the latest first.
use nexcomp.Base.{ℕ, Option, none, some, List, [], ◌∷◌, ◌==◌, if◌then◌else◌}

pub record MruCache : Type 0 where
  pub recent0 : ℕ
  pub recent1 : ℕ
  pub recent2 : ℕ
  pub recent3 : ℕ

abbrev pub new_mru : MruCache
new_mru = record { recent0 = 1; recent1 = 2; recent2 = 3; recent3 = 4 }

abbrev pub recent : MruCache → List ℕ
recent m = m.recent0 ∷ m.recent1 ∷ m.recent2 ∷ m.recent3 ∷ []

unfoldable pub find : ℕ → MruCache → Option ℕ
find offset m =
    if offset == m.recent0
    then some 0
    else if offset == m.recent1
    then some 1
    else if offset == m.recent2
    then some 2
    else if offset == m.recent3
    then some 3
    else none

-- Moves the entry at an index to the front and shifts the earlier ones down.
unfoldable pub promote : ℕ → MruCache → MruCache
promote idx m =
    if idx == 1
    then record m { recent0 = m.recent1; recent1 = m.recent0 }
    else if idx == 2
    then record m { recent0 = m.recent2; recent1 = m.recent0; recent2 = m.recent1 }
    else if idx == 3
    then record {
      recent0 = m.recent3;
      recent1 = m.recent0;
      recent2 = m.recent1;
      recent3 = m.recent2;
    }
    else m

unfoldable pub insert : ℕ → MruCache → MruCache
insert offset m = record {
  recent0 = offset;
  recent1 = m.recent0;
  recent2 = m.recent1;
  recent3 = m.recent2;
}

-- `update_mru` of src/lz77/encoder.rs.
unfoldable pub update_mru : ℕ → MruCache → MruCache
unfolding find promote insert
update_mru offset m = elim (find offset m) [ some idx ↦ promote idx m | none ↦ insert offset m ]
