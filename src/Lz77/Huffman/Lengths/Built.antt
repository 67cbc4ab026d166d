-- ===== src/Lz77/Huffman/Lengths/Built.antt =====
-- What `build_huffman_codes` returns: canonical codes of a prefix code, one for each symbol that
-- has a frequency.
use nexcomp.Base.{
  ℕ, zero, suc, ◌+◌, ◌^◌, ◌≤◌, ◌<◌, ◌≡◌, refl, sym, ap, ap₂, ◌∙◌, arith, true, false, inl, inr,
  Bool-cases, List, [], ◌∷◌, length, get_or, take, take_all, replicate, ◌==◌, ==→eq, ne→==, eq→==,
  if-false, if-true, if◌then◌else◌,
}
use mathlib.Core.Path.{subst}
use nexcomp.Lz77.Huffman.Codes.{HuffCode, default_code, canonical_codes}
use nexcomp.Lz77.Huffman.Codes.Intervals.{occ, first, len_of, code_of, HasCode, IsPrefixFree}
use nexcomp.Lz77.Huffman.Codes.Assigned.{canonical_codes-len, canonical_codes-bits}
use nexcomp.Lz77.Huffman.Lengths.{
  nonzero_from, entries, lone_codes, codes_for, build_huffman_codes, tree_lengths,
  limit_code_lengths,
}
use nexcomp.Lz77.Huffman.Lengths.Nonzero.{nonzero_from-Distinct}
use nexcomp.Lz77.Huffman.Lengths.Kraft.{tree_lengths-AreDepths}
use nexcomp.Lz77.Huffman.Lengths.Order.{spans}
use nexcomp.Lz77.Huffman.Lengths.Limited.{AreLengths, limit_code_lengths-AreLengths}
use nexcomp.Lz77.Huffman.Lengths.Canonical.{
  lens, AreCanonical, length-entries, get_or-entries, AreCanonical-of, codes_for-canonical,
  listed-IsPrefixFree,
}

-- One symbol.
abbrev lone : ℕ → ℕ → ℕ
lone s i = if i == s then 1 else 0

lens-lone_codes : (s n i : ℕ) → lens (lone_codes s i n) ≡ entries n i (lone s)
unfolding lone_codes entries
lens-lone_codes s zero i = refl
lens-lone_codes s (suc n) i = elim (Bool-cases (i == s)) [
  | inl t ↦ rw (t, lens-lone_codes s n (i + 1)) refl
  | inr t ↦ rw (t, lens-lone_codes s n (i + 1)) refl
]

lone-occ : (s n i k : ℕ) → i + k ≤ s → occ 1 (take k (entries n i (lone s))) ≡ 0
unfolding entries occ
lone-occ s n i zero h = refl
lone-occ s zero i (suc k) h = refl
lone-occ s (suc n) i (suc k) h =
    let t : (i == s) ≡ false = ne→== i s (λ e. absurd (omega arith)) in
    rw t (omega (arith, lone-occ s n (i + 1) k (omega arith)))

lone_codes-get :
    (s n i k : ℕ)
    → k < n
    → i + k ≡ s
    → get_or (lone_codes s i n) k default_code ≡ record { bits = 0; len = 1 }
unfolding lone_codes
lone_codes-get s zero i k h e = absurd (omega arith)
lone_codes-get s (suc n) i zero h e = rw (eq→== i s (omega arith)) refl
lone_codes-get s (suc n) i (suc k) h e = lone_codes-get s n (i + 1) k (omega arith) (omega arith)

lone-AreLengths :
    (freqs : List ℕ) (s : ℕ)
    → nonzero_from 0 freqs ≡ s ∷ []
    → AreLengths (nonzero_from 0 freqs) (lone s)
unfolding spans
lone-AreLengths freqs s e =
    let t : (s == s) ≡ true = eq→== s s refl in
    rw e (record {
      legal = rw t ((omega arith, omega arith), tt);
      kraft = rw t (omega arith);
      other = λ i (ne, u). if-false 1 0 (ne→== i s ne);
    })

lone-pos : (s i : ℕ) → 0 < lone s i → i ≡ s
lone-pos s i h = elim (Bool-cases (i == s)) [
  | inl t ↦ ==→eq i s t
  | inr t ↦ let h' : 0 < 0 = rw t at h in absurd (omega arith)
]

first-one : (lengths : List ℕ) → first lengths 1 ≡ 0
unfolding first
first-one lengths = refl

same_code : (c : HuffCode) (b l : ℕ) → c.bits ≡ b → c.len ≡ l → record { bits = b; len = l } ≡ c
same_code c b l eb el = ap₂ {C = HuffCode} (λ x y. record { bits = x; len = y }) (sym eb) (sym el)

lone-agrees :
    (n s i : ℕ)
    → IsPrefixFree (entries n 0 (lone s))
    → n < 2 ^ 15
    → HasCode (entries n 0 (lone s)) i
    → get_or (lone_codes s 0 n) i default_code
      ≡ get_or
          (canonical_codes (entries n 0 (lone s)) (length (entries n 0 (lone s))))
          i
          default_code
lone-agrees n s i free few (h, pos) =
    let l = entries n 0 (lone s) in
    let size = length-entries n 0 (lone s) in
    let start : 0 + i ≡ i = omega arith in
    let at : len_of l i ≡ lone s i =
      get_or-entries n 0 i (lone s) (omega arith) ∙ ap (lone s) start in
    let e : i ≡ s = lone-pos s i (omega arith) in
    let one : len_of l i ≡ 1 = at ∙ if-true 1 0 (eq→== i s e) in
    let code : code_of l i ≡ 0 =
      rw one (omega (arith, first-one l, lone-occ s n 0 i (omega arith))) in
    lone_codes-get s n 0 i (omega arith) (omega arith)
    ∙ same_code (get_or (canonical_codes l (length l)) i default_code) 0 1
        (canonical_codes-bits l (length l) i free (omega arith) (h, pos) ∙ code)
        (canonical_codes-len l (length l) i ∙ one)

codes_for-lone :
    (freqs : List ℕ) (s : ℕ)
    → length freqs < 2 ^ 15
    → nonzero_from 0 freqs ≡ s ∷ []
    → AreCanonical freqs (lone_codes s 0 (length freqs))
codes_for-lone freqs s few e =
    let t = lone-AreLengths freqs s e in
    AreCanonical-of freqs (lone s) few t (lone_codes s 0 (length freqs))
      (lens-lone_codes s (length freqs) 0)
      (λ i h. lone-agrees (length freqs) s i (listed-IsPrefixFree freqs (lone s) few t) few h)

-- No symbol.
lens-replicate : (n i : ℕ) → lens (replicate n default_code) ≡ entries n i (λ k. 0)
unfolding entries
lens-replicate zero i = refl
lens-replicate (suc n) i = ap (λ l. 0 ∷ l) (lens-replicate n (i + 1))

none-AreLengths :
    (freqs : List ℕ) → nonzero_from 0 freqs ≡ [] → AreLengths (nonzero_from 0 freqs) (λ k. 0)
unfolding spans
none-AreLengths freqs e = rw e (record { legal = tt; kraft = omega arith; other = λ i u. refl })

codes_for-none :
    (freqs : List ℕ)
    → length freqs < 2 ^ 15
    → nonzero_from 0 freqs ≡ []
    → AreCanonical freqs (replicate (length freqs) default_code)
codes_for-none freqs few e =
    AreCanonical-of freqs (λ k. 0) few (none-AreLengths freqs e)
      (replicate (length freqs) default_code) (lens-replicate (length freqs) 0)
      (λ i (h, pos).
        let n = length-entries (length freqs) 0 (λ k. 0) in
        absurd (omega (arith, get_or-entries (length freqs) 0 i (λ k. 0) (omega arith))))

length-nonzero_from : (i : ℕ) (freqs : List ℕ) → length (nonzero_from i freqs) ≤ length freqs
unfolding nonzero_from
length-nonzero_from i [] = omega arith
length-nonzero_from i (f ∷ freqs) = ground (arith, length-nonzero_from (i + 1) freqs)

codes_for-AreCanonical :
    (freqs : List ℕ)
    → ((i : ℕ) → get_or freqs i 0 < 2 ^ 32)
    → length freqs < 2 ^ 15
    → (nonzero : List ℕ) → nonzero_from 0 freqs ≡ nonzero
    → AreCanonical freqs (codes_for freqs (length freqs) nonzero)
unfolding codes_for
codes_for-AreCanonical freqs small few [] e = codes_for-none freqs few e
codes_for-AreCanonical freqs small few (s ∷ []) e = codes_for-lone freqs s few e
codes_for-AreCanonical freqs small few (s ∷ u ∷ symbols) e =
    let nonzero = nonzero_from 0 freqs in
    let within = length-nonzero_from 0 freqs in
    let many : length nonzero ≡ suc (suc (length symbols)) = ap (λ l. length l) e in
    let depths = tree_lengths-AreDepths freqs small within few (omega arith) in
    let t =
      limit_code_lengths-AreLengths nonzero (tree_lengths freqs nonzero)
        (nonzero_from-Distinct 0 freqs) (omega arith) depths in
    let codes =
      codes_for-canonical freqs (limit_code_lengths (tree_lengths freqs nonzero) nonzero) few t in
    subst
      (λ l. AreCanonical freqs (
        canonical_codes (entries (length freqs) 0 (limit_code_lengths (tree_lengths freqs l) l))
          (length freqs)))
      e codes

-- For frequencies of 32 bits, and fewer than 2^15 of them: each symbol that has a frequency gets a
-- code, the lengths are at most 15 bits and meet Kraft's inequality, no code is the first bits of
-- the code of another symbol, and the bits of each code are the canonical ones for the lengths: the
-- codes of one length follow one another in the order of the symbols, behind the shorter ones. The
-- codes are those that `canonical_codes` computes from the lengths.
pub build_huffman_codes-AreCanonical :
    (freqs : List ℕ)
    → ((i : ℕ) → get_or freqs i 0 < 2 ^ 32)
    → length freqs < 2 ^ 15
    → AreCanonical freqs (build_huffman_codes freqs (length freqs))
unfolding build_huffman_codes
build_huffman_codes-AreCanonical freqs small few =
    subst (λ used. AreCanonical freqs (codes_for used (length freqs) (nonzero_from 0 used)))
      (sym (take_all (length freqs) freqs (omega arith)))
      (codes_for-AreCanonical freqs small few (nonzero_from 0 freqs) refl)
