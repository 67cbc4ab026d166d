-- ===== src/Lz77/Huffman/Lengths.antt =====
-- `build_huffman_codes` and `limit_code_lengths` of src/lz77/huffman.rs. Vectors are functions of
-- the index. The binary heap is a sorted list: its nodes are distinct, so that the least one is
-- determined. In `parent`, `none` stands for `usize::MAX`.
pub mod Heap
pub mod Tree
pub mod Merging
pub mod Leaves
pub mod Nonzero
pub mod Kraft
pub mod Limit
pub mod Order
pub mod Capping
pub mod Limited
pub mod Canonical
pub mod Built
use nexcomp.Base.{
  ℕ, zero, suc, ◌+◌, ◌-◌, ◌*◌, Bool, true, false, ◌&&◌, ◌||◌, Option, none, some, List, [], ◌∷◌,
  ◌++◌, length, get_or, take, replicate, min, ltb, ◌==◌, if◌then◌else◌,
}
use nexcomp.Base.Words.{u8, u64}
use nexcomp.Base.Arrays.{update}
use nexcomp.Lz77.Huffman.Codes.{HuffCode, default_code, max_len, canonical_codes}

-- A frequency and the number of a node.
abbrev pub Node : Type 0
Node = ℕ × ℕ

abbrev pub node_lt : Node → Node → Bool
node_lt x y = ltb x.0 y.0 || (x.0 == y.0 && ltb x.1 y.1)

unfoldable pub push : Node → List Node → List Node
push x [] = x ∷ []
push x (y ∷ heap) = if node_lt x y then x ∷ y ∷ heap else y ∷ push x heap

abbrev pub merged : Node → Node → ℕ → Node
merged x y next = (u64 (x.0 + y.0), next)

abbrev pub adopt : (ℕ → Option ℕ) → Node → Node → ℕ → ℕ → Option ℕ
adopt parent x y next = update (update parent x.1 (some next)) y.1 (some next)

-- `while heap.len() > 1`, for at most as many rounds as the fuel.
unfoldable pub merge : ℕ → List Node → ℕ → (ℕ → Option ℕ) → ℕ → Option ℕ
merge zero heap next parent = parent
merge (suc fuel) [] next parent = parent
merge (suc fuel) (x ∷ []) next parent = parent
merge (suc fuel) (x ∷ y ∷ heap) next parent =
    merge fuel (push (merged x y next) heap) (next + 1) (adopt parent x y next)

-- The symbols with a frequency, from symbol `i` on.
unfoldable pub nonzero_from : ℕ → List ℕ → List ℕ
nonzero_from i [] = []
nonzero_from i (f ∷ freqs) =
    if ltb 0 f then i ∷ nonzero_from (i + 1) freqs else nonzero_from (i + 1) freqs

unfoldable pub initial_heap : List ℕ → List ℕ → List Node
initial_heap freqs [] = []
initial_heap freqs (s ∷ symbols) = push (get_or freqs s 0, s) (initial_heap freqs symbols)

-- `while parent[node] != usize::MAX`, for at most as many rounds as the fuel.
unfoldable pub climb : ℕ → (ℕ → Option ℕ) → ℕ → ℕ → ℕ
climb zero parent node depth = depth
climb (suc fuel) parent node depth = elim (parent node) [
  | none ↦ depth
  | some p ↦ climb fuel parent p (u8 (depth + 1))
]

-- The lengths of the symbols in the tree.
unfoldable pub measure : ℕ → (ℕ → Option ℕ) → List ℕ → (ℕ → ℕ) → ℕ → ℕ
measure n parent [] lengths = lengths
measure n parent (s ∷ symbols) lengths =
    measure n parent symbols (update lengths s (climb (2 * n) parent s 0))

unfoldable pub any_over : List ℕ → (ℕ → ℕ) → Bool
any_over [] lengths = false
any_over (s ∷ symbols) lengths = ltb max_len (lengths s) || any_over symbols lengths

-- The number of codes of each length, the number of codes that were too long, and the lengths.
pub record Capped : Type 0 where
  pub count : ℕ → ℕ
  pub overflow : ℕ
  pub lengths : ℕ → ℕ

abbrev pub cap_one : ℕ → Capped → Capped
cap_one s c =
    let capped = min (c.lengths s) max_len in
    record {
      count = update c.count capped (c.count capped + 1);
      overflow = if ltb max_len (c.lengths s) then c.overflow + 1 else c.overflow;
      lengths = update c.lengths s capped;
    }

unfoldable pub cap_all : List ℕ → Capped → Capped
cap_all [] c = c
cap_all (s ∷ symbols) c = cap_all symbols (cap_one s c)

-- The greatest length up to `bits` that has codes, or 0.
unfoldable pub deepest : ℕ → (ℕ → ℕ) → ℕ
deepest zero count = 0
deepest (suc bits) count = if count (suc bits) == 0 then deepest bits count else suc bits

-- `count[i] -= 1`: the counts stay above 0, since a code was found, or overflowed.
abbrev pub less : (ℕ → ℕ) → ℕ → ℕ → ℕ
less count i = update count i (count i - 1)

abbrev pub split_code : (ℕ → ℕ) → ℕ → ℕ → ℕ
split_code count bits =
    let count' = less count bits in less (update count' (bits + 1) (count' (bits + 1) + 2)) max_len

-- `while overflow > 0`
unfoldable pub redistribute : ℕ → (ℕ → ℕ) → ℕ → ℕ
redistribute zero count = count
redistribute (suc overflow) count =
    let bits = deepest (max_len - 1) count in
    if bits == 0 then count else redistribute overflow (split_code count bits)

-- The longest codes first, and then the least symbols.
abbrev pub before : (ℕ → ℕ) → ℕ → ℕ → Bool
before lengths a b = ltb (lengths b) (lengths a) || (lengths a == lengths b && ltb a b)

unfoldable pub insert_symbol : (ℕ → ℕ) → ℕ → List ℕ → List ℕ
insert_symbol lengths s [] = s ∷ []
insert_symbol lengths s (t ∷ symbols) =
    if before lengths s t then s ∷ t ∷ symbols else t ∷ insert_symbol lengths s symbols

unfoldable pub sort_symbols : (ℕ → ℕ) → List ℕ → List ℕ
sort_symbols lengths [] = []
sort_symbols lengths (s ∷ symbols) = insert_symbol lengths s (sort_symbols lengths symbols)

-- Each symbol takes the longest code that is left.
unfoldable pub reassign : List ℕ → (ℕ → ℕ) → (ℕ → ℕ) → ℕ → ℕ
reassign [] count lengths = lengths
reassign (s ∷ symbols) count lengths =
    let bits = deepest max_len count in
    reassign symbols (less count bits) (if bits == 0 then lengths else update lengths s bits)

unfoldable pub limit_code_lengths : (ℕ → ℕ) → List ℕ → ℕ → ℕ
limit_code_lengths lengths nonzero =
    if any_over nonzero lengths
    then (let c = cap_all nonzero (record { count = λ b. 0; overflow = 0; lengths = lengths }) in
        reassign (sort_symbols c.lengths nonzero) (redistribute c.overflow c.count) c.lengths)
    else lengths

-- The first `n` entries of a vector, from entry `i` on.
unfoldable pub entries : ℕ → ℕ → (ℕ → ℕ) → List ℕ
entries zero i f = []
entries (suc n) i f = f i ∷ entries n (i + 1) f

unfoldable pub tree_lengths : List ℕ → List ℕ → ℕ → ℕ
tree_lengths freqs nonzero =
    let heap = initial_heap freqs nonzero in
    measure (length freqs) (merge (length heap) heap (length freqs) (λ i. none)) nonzero (λ i. 0)

-- The vector that holds the code 0 of length 1 for one symbol, from symbol `i` on.
unfoldable pub lone_codes : ℕ → ℕ → ℕ → List HuffCode
lone_codes s i zero = []
lone_codes s i (suc n) =
    (if i == s then record { bits = 0; len = 1 } else default_code) ∷ lone_codes s (i + 1) n

-- The codes, by the symbols with a frequency.
unfoldable pub codes_for : List ℕ → ℕ → List ℕ → List HuffCode
codes_for freqs max_symbols [] = replicate max_symbols default_code
codes_for freqs max_symbols (s ∷ []) = lone_codes s 0 max_symbols
codes_for freqs max_symbols (s ∷ t ∷ symbols) =
    let nonzero = s ∷ t ∷ symbols in
    canonical_codes
      (entries (length freqs) 0 (limit_code_lengths (tree_lengths freqs nonzero) nonzero))
      max_symbols

unfoldable pub build_huffman_codes : List ℕ → ℕ → List HuffCode
build_huffman_codes freqs max_symbols =
    let used = take max_symbols freqs in codes_for used max_symbols (nonzero_from 0 used)
