-- ===== src/Lz77/Huffman/Codes/Apart.antt =====
-- The canonical codes are a prefix code: no code is the first bits of another.
use nexcomp.Base.{
  ℕ, ◌+◌, ◌-◌, ◌*◌, ◌/◌, ◌^◌, ◌<◌, ◌≤◌, ◌≡◌, ◌⊎◌, sym, ap, ◌∙◌, arith, inl, inr, Bool-cases, List,
  ltb, ltb→lt, ltb→le,
}
use nexcomp.Base.Powers.{pow-add, pow-pos}
use native.Mathlib.Nat.{div-add-mod, mod-lt, mul-le-mul_right}
use nexcomp.Lz77.Huffman.Codes.{HuffCode, max_len}
use nexcomp.Lz77.Huffman.Codes.Intervals.{
  span, len_of, code_of, HasCode, IsPrefixFree, len_of-le, ends_before,
}

-- One of three cases, by the lengths and then by the symbols.
pub order-cases :
    (a b i j : ℕ) → (i ≡ j) ⊎ (((a < b) ⊎ ((a ≡ b) × (i < j))) ⊎ ((b < a) ⊎ ((b ≡ a) × (j < i))))
order-cases a b i j = elim (Bool-cases (ltb a b)) [
  | inl t ↦ inr (inl (inl (ltb→lt a b t)))
  | inr t ↦ elim (Bool-cases (ltb b a)) [
    | inl s ↦ inr (inr (inl (ltb→lt b a s)))
    | inr s ↦
        let e : a ≡ b = omega (arith, ltb→le a b t, ltb→le b a s) in
        elim (Bool-cases (ltb i j)) [
          | inl u ↦ inr (inl (inr (e, ltb→lt i j u)))
          | inr u ↦ elim (Bool-cases (ltb j i)) [
            | inl v ↦ inr (inr (inr (sym e, ltb→lt j i v)))
            | inr v ↦ inl (omega (arith, ltb→le i j u, ltb→le j i v))
          ]
        ]
  ]
]

-- The code `c` is the first bits of `d`, where a code is written with its highest bit first.
abbrev pub IsPrefix : HuffCode → HuffCode → Type 0
IsPrefix c d = (c.len ≤ d.len) × (d.bits / 2 ^ (d.len - c.len) ≡ c.bits)

-- Where the codes are, in 15 bits, if one is the first bits of the other.
nested : (c d q s : ℕ) → 0 < q → d / q ≡ c → (c * (q * s) ≤ d * s) × (d * s + s ≤ (c + 1) * (q * s))
nested c d q s pos e =
    let whole = div-add-mod d q in
    let rest = mod-lt d pos in
    let low : q * c ≤ d = omega (arith, ap (λ t. q * t) e) in
    let high : d + 1 ≤ q * c + q = omega (arith, ap (λ t. q * t) e) in
    (scaled_low c d q s low, scaled_high c d q s high)
  where
    scaled_low : (c d q s : ℕ) → q * c ≤ d → c * (q * s) ≤ d * s
    scaled_low c d q s h =
        let e : c * (q * s) ≡ q * c * s = grind arith in omega (arith, mul-le-mul_right s h)

    scaled_high : (c d q s : ℕ) → d + 1 ≤ q * c + q → d * s + s ≤ (c + 1) * (q * s)
    scaled_high c d q s h =
        let e : (c + 1) * (q * s) ≡ (q * c + q) * s = grind arith in
        let more : (d + 1) * s ≡ d * s + s = grind arith in omega (arith, mul-le-mul_right s h)

pub code_of-IsPrefix :
    (lengths : List ℕ) (i j : ℕ)
    → IsPrefixFree lengths
    → HasCode lengths i
    → HasCode lengths j
    → len_of lengths i ≤ len_of lengths j
    → code_of lengths j / 2 ^ (len_of lengths j - len_of lengths i) ≡ code_of lengths i
    → i ≡ j
code_of-IsPrefix lengths i j free ci cj short e =
    let li = len_of lengths i in
    let lj = len_of lengths j in
    let top = len_of-le lengths j free in
    let q = 2 ^ (lj - li) in
    let s = span lj in
    let wide : span li ≡ q * s =
      ap (λ k. 2 ^ k) (omega arith) ∙ pow-add 2 (lj - li) (max_len - lj) in
    let inside = nested (code_of lengths i) (code_of lengths j) q s (pow-pos (lj - li)) e in
    let pos = pow-pos (max_len - lj) in
    elim (order-cases li lj i j) [
      | inl same ↦ same
      | inr (inl before) ↦
          let apart : (code_of lengths i + 1) * (q * s) ≤ code_of lengths j * s =
            rw wide at (ends_before lengths i j free ci cj before) in
          absurd (omega arith)
      | inr (inr after) ↦
          let apart : (code_of lengths j + 1) * s ≤ code_of lengths i * (q * s) =
            rw wide at (ends_before lengths j i free cj ci after) in
          let more : (code_of lengths j + 1) * s ≡ code_of lengths j * s + s = grind arith in
          absurd (omega arith)
    ]
