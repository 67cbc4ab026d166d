-- ===== src/Lz77/Huffman/Lengths/Canonical.antt =====
-- Codes that are canonical, and lists of lengths that make them so.
use nexcomp.Base.{
  ℕ, zero, suc, ◌+◌, ◌-◌, ◌/◌, ◌^◌, ◌≤◌, ◌<◌, ◌≡◌, ◌≢◌, refl, sym, ap, ap₂, ◌∙◌, arith, true, List,
  [], ◌∷◌, length, get_or, map, All, ltb, lt→ltb,
}
use mathlib.Core.Path.{subst}
use nexcomp.Lz77.Huffman.Codes.{HuffCode, default_code, max_len, canonical_codes}
use nexcomp.Lz77.Huffman.Codes.Intervals.{below, len_of, code_of, HasCode, IsPrefixFree}
use nexcomp.Lz77.Huffman.Codes.Apart.{IsPrefix, code_of-IsPrefix}
use nexcomp.Lz77.Huffman.Codes.Assigned.{
  canonical_codes-len, canonical_codes-bits, length-canonical_codes,
}
use nexcomp.Lz77.Huffman.Lengths.{nonzero_from, entries}
use nexcomp.Lz77.Huffman.Lengths.Nonzero.{IsUsed, All-imp, nonzero-IsUsed, All-nonzero_from}
use nexcomp.Lz77.Huffman.Lengths.Order.{spans}
use nexcomp.Lz77.Huffman.Lengths.Limited.{AreLengths}

-- The lengths in the header.
abbrev pub lens : List HuffCode → List ℕ
lens codes = map (λ c. c.len) codes

-- Each used symbol has a code of at most 15 bits, no code is the first bits of another, and the codes
-- are the canonical ones: numbered in the order of the lengths and then of the symbols, as the
-- decoder does from the lengths alone.
pub record AreCanonical (freqs : List ℕ) (codes : List HuffCode) : Type 0 where
  pub size : length codes ≡ length freqs
  pub free : IsPrefixFree (lens codes)
  pub coded : (i : ℕ) → IsUsed freqs i → HasCode (lens codes) i
  pub exact :
      (i : ℕ) → HasCode (lens codes) i → (get_or codes i default_code).bits ≡ code_of (lens codes) i
  pub apart :
      (i j : ℕ)
      → HasCode (lens codes) i
      → HasCode (lens codes) j
      → IsPrefix (get_or codes i default_code) (get_or codes j default_code)
      → i ≡ j
  pub same :
      (i : ℕ)
      → HasCode (lens codes) i
      → get_or codes i default_code
        ≡ get_or (canonical_codes (lens codes) (length (lens codes))) i default_code

pub length-lens : (codes : List HuffCode) → length (lens codes) ≡ length codes
length-lens [] = refl
length-lens (c ∷ codes) = ap suc (length-lens codes)

get_or-lens :
    (codes : List HuffCode) (i : ℕ) → get_or (lens codes) i 0 ≡ (get_or codes i default_code).len
get_or-lens [] i = refl
get_or-lens (c ∷ codes) zero = refl
get_or-lens (c ∷ codes) (suc i) = get_or-lens codes i

-- Lists of numbers with the same entries.
same_entries :
    (xs ys : List ℕ) → length xs ≡ length ys → ((i : ℕ) → get_or xs i 0 ≡ get_or ys i 0) → xs ≡ ys
same_entries [] [] e h = refl
same_entries [] (y ∷ ys) e h = absurd (omega arith)
same_entries (x ∷ xs) [] e h = absurd (omega arith)
same_entries (x ∷ xs) (y ∷ ys) e h =
    ap₂ (λ a b. a ∷ b) (h 0) (same_entries xs ys (omega arith) (λ i. h (suc i)))

-- The lengths of canonical codes are those that they were made of.
lens-canonical_codes :
    (lengths : List ℕ) → lens (canonical_codes lengths (length lengths)) ≡ lengths
lens-canonical_codes lengths =
    let codes = canonical_codes lengths (length lengths) in
    same_entries (lens codes) lengths
      (length-lens codes ∙ length-canonical_codes lengths (length lengths) (omega arith))
      (λ i. get_or-lens codes i ∙ canonical_codes-len lengths (length lengths) i)

pub length-entries : (n i : ℕ) (f : ℕ → ℕ) → length (entries n i f) ≡ n
unfolding entries
length-entries zero i f = refl
length-entries (suc n) i f = ap suc (length-entries n (i + 1) f)

pub get_or-entries : (n i k : ℕ) (f : ℕ → ℕ) → k < n → get_or (entries n i f) k 0 ≡ f (i + k)
unfolding entries
get_or-entries zero i k f h = absurd (omega arith)
get_or-entries (suc n) i zero f h = ap f (omega arith)
get_or-entries (suc n) i (suc k) f h =
    get_or-entries n (i + 1) k f (omega arith) ∙ ap f (omega arith)

-- From the lengths of the symbols with a frequency to the list of all lengths.
module _ (f : ℕ → ℕ) where
  entries-below :
      (i : ℕ) (freqs : List ℕ)
      → All (λ s. (1 ≤ f s) × (f s ≤ max_len)) (nonzero_from i freqs)
      → ((k : ℕ) → k < length freqs → get_or freqs k 0 ≡ 0 → f (i + k) ≡ 0)
      → (below 16 (entries (length freqs) i f) ≡ spans f (nonzero_from i freqs))
        × All (λ len. len ≤ max_len) (entries (length freqs) i f)
  unfolding entries below spans nonzero_from
  entries-below i [] h z = (refl, tt)
  entries-below i (zero ∷ freqs) h z =
      let e : f i ≡ 0 = ap f (omega arith) ∙ z 0 (omega arith) refl in
      let (sum, short) =
        entries-below (i + 1) freqs h (λ k lt n. ap f (omega arith) ∙ z (suc k) (omega arith) n) in
      (rw e (omega arith), (omega arith, short))
  entries-below i (suc g ∷ freqs) h z =
      let t : ltb 0 (suc g) ≡ true = lt→ltb 0 (suc g) (omega arith) in
      let h' : ((1 ≤ f i) × (f i ≤ max_len))
          × All (λ s. (1 ≤ f s) × (f s ≤ max_len)) (nonzero_from (i + 1) freqs) =
        rw t at h in
      let (sum, short) =
        entries-below (i + 1) freqs h'.1
          (λ k lt n. ap f (omega arith) ∙ z (suc k) (omega arith) n) in
      (
        rw (t, lt→ltb 0 (f i) (omega arith), lt→ltb (f i) 16 (omega arith)) (omega arith),
        (omega arith, short),
      )

-- Codes whose bits are the canonical ones are apart.
exact-apart :
    (codes : List HuffCode)
    → IsPrefixFree (lens codes)
    → ((i : ℕ)
        → HasCode (lens codes) i
        → (get_or codes i default_code).bits ≡ code_of (lens codes) i)
    → (i j : ℕ) → HasCode (lens codes) i
    → HasCode (lens codes) j
    → IsPrefix (get_or codes i default_code) (get_or codes j default_code)
    → i ≡ j
exact-apart codes free exact i j ci cj (short, first_bits) =
    let li = get_or-lens codes i in
    let lj = get_or-lens codes j in
    code_of-IsPrefix (lens codes) i j free ci cj (omega (arith, short)) (
      ap (λ b. b / 2 ^ (len_of (lens codes) j - len_of (lens codes) i)) (sym (exact j cj))
      ∙ ap₂ {C = ℕ} (λ m n. (get_or codes j default_code).bits / 2 ^ (m - n)) lj li
      ∙ first_bits
      ∙ exact i ci)

-- Lengths that fit the symbols give canonical codes.
module _ (freqs : List ℕ) (f : ℕ → ℕ) (few : length freqs < 2 ^ 15)
    (t : AreLengths (nonzero_from 0 freqs) f) where
  abbrev listed : List ℕ
  listed = entries (length freqs) 0 f

  unused-zero : (k : ℕ) → get_or freqs k 0 ≡ 0 → f k ≡ 0
  unused-zero k z = t.other k (
      All-imp (IsUsed freqs) (λ s. k ≢ s) (nonzero_from 0 freqs)
        (λ s u e.
          let same : get_or freqs k 0 ≡ get_or freqs s 0 = ap (λ i. get_or freqs i 0) e in
          absurd (omega (arith, u.1)))
        (nonzero-IsUsed freqs))

  pub listed-IsPrefixFree : IsPrefixFree listed
  listed-IsPrefixFree =
      let (sum, short) =
        entries-below f 0 freqs t.legal
          (λ k h z. let e : 0 + k ≡ k = omega arith in rw e (unused-zero k z)) in
      record { short = short; kraft = omega (arith, t.kraft) }

  listed-HasCode : (i : ℕ) → IsUsed freqs i → HasCode listed i
  listed-HasCode i (h, pos) =
      let legal =
        All-nonzero_from (λ s. (1 ≤ f s) × (f s ≤ max_len)) 0 freqs i i t.legal pos (omega arith) in
      let e : 0 + i ≡ i = omega arith in
      let at : get_or listed i 0 ≡ f i = get_or-entries (length freqs) 0 i f h ∙ ap f e in
      (omega (arith, length-entries (length freqs) 0 f), omega arith)

  -- Any codes of these lengths that agree with the canonical ones.
  pub AreCanonical-of :
      (codes : List HuffCode)
      → lens codes ≡ listed
      → ((i : ℕ)
          → HasCode listed i
          → get_or codes i default_code
            ≡ get_or (canonical_codes listed (length listed)) i default_code)
      → AreCanonical freqs codes
  AreCanonical-of codes e agree =
      let size = length-entries (length freqs) 0 f in
      let free : IsPrefixFree (lens codes) = rw e listed-IsPrefixFree in
      let same : (i : ℕ)
          → HasCode (lens codes) i
          → get_or codes i default_code
            ≡ get_or (canonical_codes (lens codes) (length (lens codes))) i default_code =
        rw e agree in
      let exact : (i : ℕ)
          → HasCode (lens codes) i
          → (get_or codes i default_code).bits ≡ code_of (lens codes) i =
        λ i h.
          ap (λ c. c.bits) (same i h)
          ∙ canonical_codes-bits (lens codes) (length (lens codes)) i free
              (omega (arith, ap (λ (l : List ℕ). length l) e, size)) h in
      record {
        size = omega (arith, length-lens codes, ap (λ (l : List ℕ). length l) e, size);
        free = free;
        coded = λ i u. rw e (listed-HasCode i u);
        exact = exact;
        apart = exact-apart codes free exact;
        same = same;
      }

pub codes_for-canonical :
    (freqs : List ℕ) (f : ℕ → ℕ)
    → length freqs < 2 ^ 15
    → AreLengths (nonzero_from 0 freqs) f
    → AreCanonical freqs (canonical_codes (entries (length freqs) 0 f) (length freqs))
codes_for-canonical freqs f few t =
    let l = entries (length freqs) 0 f in
    let n : length l ≡ length freqs = length-entries (length freqs) 0 f in
    subst (λ m. AreCanonical freqs (canonical_codes l m)) n
      (AreCanonical-of freqs f few t (canonical_codes l (length l)) (lens-canonical_codes l)
        (λ i h. refl))
