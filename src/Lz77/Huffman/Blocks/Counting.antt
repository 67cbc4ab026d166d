-- ===== src/Lz77/Huffman/Blocks/Counting.antt =====
-- The symbols of all tokens of a block are counted.
use nexcomp.Base.{
  ℕ, zero, suc, ◌+◌, ◌^◌, ◌≤◌, ◌<◌, ◌≡◌, refl, ap, ◌∙◌, arith, Option-cases, inl, inr, List, [],
  ◌∷◌, length, length-replicate, get_or, All, replicate,
}
use nexcomp.Lz77.{Token, literal, match}
use nexcomp.Lz77.Mru.{MruCache, new_mru, find}
use nexcomp.Lz77.Huffman.{encode_length}
use nexcomp.Lz77.Huffman.Symbols.{encode_length-CodesLength, encode_offset-CodesOffset}
use nexcomp.Lz77.Huffman.Tokens.{dist_symbol, next_mru}
use nexcomp.Lz77.Huffman.Tokens.Offsets.{find-recent, dist_symbol-found, dist_symbol-fresh}
use nexcomp.Lz77.Huffman.Tokens.RoundTrip.{IsLegal}
use nexcomp.Lz77.Huffman.Lengths.Nonzero.{IsUsed}
use nexcomp.Lz77.Huffman.Blocks.{Freqs, no_freqs, bump, count_token, count_tokens}

length-bump : (i : ℕ) (xs : List ℕ) → length (bump i xs) ≡ length xs
unfolding bump
length-bump i [] = refl
length-bump zero (x ∷ xs) = refl
length-bump (suc i) (x ∷ xs) = ap suc (length-bump i xs)

bump-ge :
    (i j : ℕ) (xs : List ℕ) → get_or xs j 0 + 1 < 2 ^ 32 → get_or xs j 0 ≤ get_or (bump i xs) j 0
unfolding bump
bump-ge i j [] h = omega arith
bump-ge zero zero (x ∷ xs) h = omega arith
bump-ge zero (suc j) (x ∷ xs) h = omega arith
bump-ge (suc i) zero (x ∷ xs) h = omega arith
bump-ge (suc i) (suc j) (x ∷ xs) h = bump-ge i j xs h

bump-le : (i j : ℕ) (xs : List ℕ) → get_or (bump i xs) j 0 ≤ get_or xs j 0 + 1
unfolding bump
bump-le i j [] = omega arith
bump-le zero zero (x ∷ xs) = omega arith
bump-le zero (suc j) (x ∷ xs) = omega arith
bump-le (suc i) zero (x ∷ xs) = omega arith
bump-le (suc i) (suc j) (x ∷ xs) = bump-le i j xs

bump-pos :
    (i : ℕ) (xs : List ℕ) → i < length xs → get_or xs i 0 + 1 < 2 ^ 32 → 0 < get_or (bump i xs) i 0
unfolding bump
bump-pos i [] h k = absurd (omega arith)
bump-pos zero (x ∷ xs) h k = omega arith
bump-pos (suc i) (x ∷ xs) h k = bump-pos i xs (omega arith) k

-- The vectors have their sizes, and no count is above `k`.
pub record AreFreqs (k : ℕ) (f : Freqs) : Type 0 where
  pub litlen_size : length f.litlen ≡ 286
  pub dist_size : length f.dist ≡ 48
  pub litlen_max : (j : ℕ) → get_or f.litlen j 0 ≤ k
  pub dist_max : (j : ℕ) → get_or f.dist j 0 ≤ k

-- No count falls.
record Grows (f g : Freqs) : Type 0 where
  litlen_ge : (j : ℕ) → get_or f.litlen j 0 ≤ get_or g.litlen j 0
  dist_ge : (j : ℕ) → get_or f.dist j 0 ≤ get_or g.dist j 0

-- The symbols of a token have been counted.
abbrev pub IsCounted : Freqs → MruCache → Token → Type 0
IsCounted f mru (literal b) = IsUsed f.litlen b
IsCounted f mru (match offset length) =
    IsUsed f.litlen (encode_length length).code × IsUsed f.dist (dist_symbol offset mru).code

abbrev pub AreCounted : Freqs → MruCache → List Token → Type 0
AreCounted f mru [] = Unit
AreCounted f mru (t ∷ tokens) = IsCounted f mru t × AreCounted f (next_mru t mru) tokens

count_token-AreFreqs :
    (mru : MruCache) (t : Token) (k : ℕ) (f : Freqs)
    → AreFreqs k f
    → AreFreqs (suc k) (count_token mru t f)
unfolding count_token
count_token-AreFreqs mru (literal b) k f a = record {
  litlen_size = length-bump b f.litlen ∙ a.litlen_size;
  dist_size = a.dist_size;
  litlen_max = λ j. omega (arith, bump-le b j f.litlen, a.litlen_max j);
  dist_max = λ j. omega (arith, a.dist_max j);
}
count_token-AreFreqs mru (match offset length) k f a = record {
  litlen_size = length-bump (encode_length length).code f.litlen ∙ a.litlen_size;
  dist_size = length-bump (dist_symbol offset mru).code f.dist ∙ a.dist_size;
  litlen_max = λ j. omega (arith, bump-le (encode_length length).code j f.litlen, a.litlen_max j);
  dist_max = λ j. omega (arith, bump-le (dist_symbol offset mru).code j f.dist, a.dist_max j);
}

count_token-Grows :
    (mru : MruCache) (t : Token) (k : ℕ) (f : Freqs)
    → AreFreqs k f
    → k + 1 < 2 ^ 32
    → Grows f (count_token mru t f)
unfolding count_token
count_token-Grows mru (literal b) k f a h = record {
  litlen_ge = λ j. bump-ge b j f.litlen (omega (arith, a.litlen_max j));
  dist_ge = λ j. omega arith;
}
count_token-Grows mru (match offset length) k f a h = record {
  litlen_ge = λ j. bump-ge (encode_length length).code j f.litlen (omega (arith, a.litlen_max j));
  dist_ge = λ j. bump-ge (dist_symbol offset mru).code j f.dist (omega (arith, a.dist_max j));
}

dist_symbol-lt :
    (offset : ℕ) (mru : MruCache)
    → 1 ≤ offset
    → offset ≤ 2 ^ 22
    → (dist_symbol offset mru).code < 48
dist_symbol-lt offset mru pos top = elim (Option-cases (find offset mru)) [
  | inl h ↦ omega (
    arith,
    ap (λ c. c.code) (dist_symbol-fresh offset mru h),
    (encode_offset-CodesOffset offset pos top).last,
  )
  | inr (idx, h) ↦ omega (
    arith,
    ap (λ c. c.code) (dist_symbol-found offset idx mru h),
    (find-recent offset idx mru h).0,
  )
]

count_token-IsCounted :
    (mru : MruCache) (t : Token) (k : ℕ) (f : Freqs)
    → AreFreqs k f
    → k + 1 < 2 ^ 32
    → IsLegal t
    → IsCounted (count_token mru t f) mru t
unfolding count_token
count_token-IsCounted mru (literal b) k f a h byte = (
  omega (arith, length-bump b f.litlen, a.litlen_size),
  bump-pos b f.litlen (omega (arith, a.litlen_size)) (omega (arith, a.litlen_max b)),
)
count_token-IsCounted mru (match offset length) k f a h ((pos, top), (least, most)) =
    let l = (encode_length length).code in
    let d = (dist_symbol offset mru).code in
    let l_lt = (encode_length-CodesLength length least most).last in
    let d_lt = dist_symbol-lt offset mru pos top in
    (
      (
        omega (arith, length-bump l f.litlen, a.litlen_size),
        bump-pos l f.litlen (omega (arith, a.litlen_size)) (omega (arith, a.litlen_max l)),
      ),
      (
        omega (arith, length-bump d f.dist, a.dist_size),
        bump-pos d f.dist (omega (arith, a.dist_size)) (omega (arith, a.dist_max d)),
      ),
    )

-- Counting more tokens keeps what was counted, and counts them.
record Counted (f g : Freqs) (k : ℕ) (mru : MruCache) (tokens : List Token) : Type 0 where
  grows : Grows f g
  freqs : AreFreqs k g
  counted : AreCounted g mru tokens

grown-IsCounted :
    (f g : Freqs) (k l : ℕ) (mru : MruCache) (t : Token)
    → AreFreqs k f
    → AreFreqs l g
    → Grows f g
    → IsCounted f mru t
    → IsCounted g mru t
grown-IsCounted f g k l mru (literal b) a c r (h, pos) =
    (omega (arith, a.litlen_size, c.litlen_size), omega (arith, r.litlen_ge b))
grown-IsCounted f g k l mru (match offset length) a c r ((h, pos), (h', pos')) = (
  (
    omega (arith, a.litlen_size, c.litlen_size),
    omega (arith, r.litlen_ge (encode_length length).code),
  ),
  (omega (arith, a.dist_size, c.dist_size), omega (arith, r.dist_ge (dist_symbol offset mru).code)),
)

count_tokens-Counted :
    (mru : MruCache) (tokens : List Token) (k : ℕ) (f : Freqs)
    → AreFreqs k f
    → k + length tokens < 2 ^ 32
    → All IsLegal tokens
    → Counted f (count_tokens mru tokens f) (k + length tokens) mru tokens
unfolding count_tokens
count_tokens-Counted mru [] k f a h legal = record {
  grows = record { litlen_ge = λ j. omega arith; dist_ge = λ j. omega arith };
  freqs = let e : k + 0 ≡ k = omega arith in rw e a;
  counted = tt;
}
count_tokens-Counted mru (t ∷ tokens) k f a h (legal, rest) =
    let g = count_token mru t f in
    let a' = count_token-AreFreqs mru t k f a in
    let ih = count_tokens-Counted (next_mru t mru) tokens (suc k) g a' (omega arith) rest in
    let r = count_token-Grows mru t k f a (omega arith) in
    let final = count_tokens (next_mru t mru) tokens g in
    let sum : k + suc (length tokens) ≡ suc k + length tokens = omega arith in
    record {
      grows = record {
        litlen_ge = λ j. omega (arith, r.litlen_ge j, ih.grows.litlen_ge j);
        dist_ge = λ j. omega (arith, r.dist_ge j, ih.grows.dist_ge j);
      };
      freqs = rw sum ih.freqs;
      counted = (
        grown-IsCounted g final (suc k) (suc k + length tokens) mru t a' ih.freqs ih.grows
            (count_token-IsCounted mru t k f a (omega arith) legal),
        ih.counted,
      );
    }

get_or-zeros : (n j : ℕ) → ◌≡◌ {A = ℕ} (get_or (replicate n 0) j 0) 0
get_or-zeros zero j = refl
get_or-zeros (suc n) zero = refl
get_or-zeros (suc n) (suc j) = get_or-zeros n j

no_freqs-AreFreqs : AreFreqs 0 no_freqs
no_freqs-AreFreqs = record {
  litlen_size = length-replicate {A = ℕ} 286 0;
  dist_size = length-replicate {A = ℕ} 48 0;
  litlen_max = λ j. omega (arith, get_or-zeros 286 j);
  dist_max = λ j. omega (arith, get_or-zeros 48 j);
}

pub block-AreCounted :
    (tokens : List Token)
    → length tokens < 2 ^ 32
    → All IsLegal tokens
    → AreFreqs (length tokens) (count_tokens new_mru tokens no_freqs)
      × AreCounted (count_tokens new_mru tokens no_freqs) new_mru tokens
block-AreCounted tokens h legal =
    let c = count_tokens-Counted new_mru tokens 0 no_freqs no_freqs-AreFreqs (omega arith) legal in
    let e : 0 + length tokens ≡ length tokens = omega arith in (rw e at c.freqs, c.counted)
