-- ===== src/Codecs/Delta/Payload/Counts.antt =====
-- The counts of a lane, and the words that they are written as.
use nexcomp.Base.{
  ℕ, zero, suc, ◌+◌, ◌^◌, ◌≤◌, ◌<◌, ◌≡◌, refl, ap, ◌∙◌, arith, List, [], ◌∷◌, ◌++◌, append_assoc,
  length, length-append, length-replicate, get_or, All, replicate, le→ltb, ok, returns,
}
use nexcomp.Base.Words.{Bytes, IsBytes, u32, to_le}
use nexcomp.Base.Frames.{word_length, word_value, take_word, drop_word}
use nexcomp.Entropy.Table.{sum}
use nexcomp.Codecs.Delta.{increment}
use nexcomp.Codecs.Delta.Payload.{count_symbols, lane_counts, write_counts, read_word, read_counts}

length-increment : (i : ℕ) (counts : List ℕ) → length (increment i counts) ≡ length counts
unfolding increment
length-increment i [] = refl
length-increment zero (c ∷ counts) = refl
length-increment (suc i) (c ∷ counts) = ap suc (length-increment i counts)

sum-increment :
    (i : ℕ) (counts : List ℕ) → i < length counts → sum (increment i counts) ≡ suc (sum counts)
unfolding increment
sum-increment i [] h = absurd (omega arith)
sum-increment zero (c ∷ counts) h = omega arith
sum-increment (suc i) (c ∷ counts) h = omega (arith, sum-increment i counts (omega arith))

increment-ge : (i j : ℕ) (counts : List ℕ) → get_or counts j 0 ≤ get_or (increment i counts) j 0
unfolding increment
increment-ge i j [] = omega arith
increment-ge zero zero (c ∷ counts) = omega arith
increment-ge zero (suc j) (c ∷ counts) = omega arith
increment-ge (suc i) zero (c ∷ counts) = omega arith
increment-ge (suc i) (suc j) (c ∷ counts) = increment-ge i j counts

increment-pos : (i : ℕ) (counts : List ℕ) → i < length counts → 0 < get_or (increment i counts) i 0
unfolding increment
increment-pos i [] h = absurd (omega arith)
increment-pos zero (c ∷ counts) h = omega arith
increment-pos (suc i) (c ∷ counts) h = increment-pos i counts (omega arith)

-- What the counts of a list of bytes are.
pub record AreCounts (bytes : Bytes) (old counts : List ℕ) : Type 0 where
  pub size : length counts ≡ 256
  pub total : sum counts ≡ sum old + length bytes
  grows : (j : ℕ) → get_or old j 0 ≤ get_or counts j 0
  pub counted : All (λ s. (s < length counts) × (0 < get_or counts s 0)) bytes

count_symbols-AreCounts :
    (bytes : Bytes) (old : List ℕ)
    → IsBytes bytes
    → length old ≡ 256
    → AreCounts bytes old (count_symbols bytes old)
unfolding count_symbols
count_symbols-AreCounts [] old h e = record {
  size = e;
  total = omega arith;
  grows = λ j. omega arith;
  counted = tt;
}
count_symbols-AreCounts (b ∷ bytes) old (hb, h) e =
    let next = increment b old in
    let ih = count_symbols-AreCounts bytes next h (length-increment b old ∙ e) in
    record {
      size = ih.size;
      total = omega (arith, ih.total, sum-increment b old (omega arith));
      grows = λ j. omega (arith, ih.grows j, increment-ge b j old);
      counted = (
        (omega (arith, ih.size), omega (arith, ih.grows b, increment-pos b old (omega arith))),
        ih.counted,
      );
    }

sum-zeros : (n : ℕ) → sum (replicate n 0) ≡ 0
sum-zeros zero = refl
sum-zeros (suc n) = omega (arith, sum-zeros n)

pub lane_counts-AreCounts :
    (lane : Bytes) → IsBytes lane → AreCounts lane (replicate 256 0) (lane_counts lane)
lane_counts-AreCounts lane h =
    count_symbols-AreCounts lane (replicate 256 0) h (length-replicate {A = ℕ} 256 0)

pub lane_counts-sum : (lane : Bytes) → IsBytes lane → sum (lane_counts lane) ≡ length lane
lane_counts-sum lane h = omega (arith, (lane_counts-AreCounts lane h).total, sum-zeros 256)

-- A word that was written is read.
pub read_word-to_le :
    (n : ℕ) (rest : Bytes)
    → n < 2 ^ 32
    → read_word (to_le 4 (u32 n) ++ rest) ≡ returns (ok (n, rest))
unfolding read_word
read_word-to_le n rest h =
    let long : 4 ≤ length (to_le 4 (u32 n) ++ rest) =
      omega (arith, length-append {0} (to_le 4 (u32 n)) rest, word_length n) in
    rw
      (
        le→ltb (length (to_le 4 (u32 n) ++ rest)) 4 long,
        take_word n rest,
        drop_word n rest,
        word_value n h,
      )
      refl

pub read_counts-write_counts :
    (counts : List ℕ) (rest : Bytes)
    → sum counts < 2 ^ 32
    → read_counts (length counts) (write_counts counts ++ rest) ≡ returns (ok (counts, rest))
unfolding read_counts write_counts
read_counts-write_counts [] rest h = refl
read_counts-write_counts (c ∷ counts) rest h =
    rw
      (
        append_assoc (to_le 4 (u32 c)) (write_counts counts) rest,
        read_word-to_le c (write_counts counts ++ rest) (omega arith),
        read_counts-write_counts counts rest (omega arith),
      )
      refl
