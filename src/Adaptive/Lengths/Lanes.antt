-- ===== src/Adaptive/Lengths/Lanes.antt =====
-- The coded lanes of src/codecs/delta_ans.rs pass `check_declared_lengths` of src/adaptive.rs.
use nexcomp.Base.{
  ℕ, suc, ◌+◌, ◌*◌, ◌-◌, ◌/◌, ◌^◌, ◌≤◌, ◌<◌, ◌≡◌, refl, sym, ap, ◌∙◌, arith, Bool-cases, inl, inr,
  true, List, [], ◌∷◌, ◌++◌, append_assoc, length, length-append, All, ltb, le→ltb, eq→==, ok,
  returns,
}
use mathlib.Core.Path.{subst}
use nexcomp.Base.Words.{Bytes, u32, to_le}
use nexcomp.Base.Frames.{word_length}
use nexcomp.Entropy.Normalize.{Fraction}
use nexcomp.Codecs.Delta.Payload.{lane_counts, write_counts, encode_lanes}
use nexcomp.Codecs.Delta.Payload.Bytewise.{IsLane}
use nexcomp.Codecs.Delta.Payload.Counts.{lane_counts-AreCounts}
use nexcomp.Codecs.Delta.Payload.RoundTrip.{IsCoded, any_lane}
use nexcomp.Adaptive.Reader.{u32_at}
use nexcomp.Adaptive.Lengths.{delta_lanes}
use nexcomp.Adaptive.Lengths.Framed.{word_at}

-- A lane behind the bytes before it: its length, its counts, and its coded bytes with their length.
abbrev lane_bytes : ℕ → Bytes → Bytes → Bytes → Bytes
lane_bytes n counts coded rest =
    to_le 4 (u32 n) ++ (counts ++ (to_le 4 (u32 (length coded)) ++ (coded ++ rest)))

delta_lanes-lane_bytes :
    (left expected lane n : ℕ) (before counts coded rest : Bytes)
    → length counts ≡ 1024
    → n < 2 ^ 32
    → length coded < 2 ^ 32
    → (n ≡ 0 → coded ≡ [])
    → n ≡ (expected + 4 - 1 - lane) / 4
    → delta_lanes
        (suc left)
        (before ++ lane_bytes n counts coded rest)
        expected
        4
        lane
        (length before)
        true
      ≡ delta_lanes left
          (before ++ lane_bytes n counts coded rest)
          expected
          4
          (lane + 1)
          (length before + 1032 + length coded)
          true
unfolding delta_lanes
delta_lanes-lane_bytes left expected lane n before counts coded rest size few short empty e =
    let word = to_le 4 (u32 n) in
    let second = to_le 4 (u32 (length coded)) in
    let whole = before ++ lane_bytes n counts coded rest in
    let at_first : u32_at whole (length before) ≡ ok n =
      word_at before (counts ++ (second ++ (coded ++ rest))) n (length before) refl few in
    let front = before ++ (word ++ counts) in
    let place : length before + 4 + 1024 ≡ length front = omega (
      arith,
      length-append {0} before (word ++ counts),
      length-append {0} word counts,
      word_length n,
      size,
    ) in
    let same : front ++ (second ++ (coded ++ rest)) ≡ whole =
      append_assoc before (word ++ counts) (second ++ (coded ++ rest))
      ∙ ap (λ t. before ++ t) (append_assoc word counts (second ++ (coded ++ rest))) in
    let at_second : u32_at whole (length before + 4 + 1024) ≡ ok (length coded) =
      subst (λ t. u32_at t (length before + 4 + 1024) ≡ ok (length coded)) same
        (word_at front (coded ++ rest) (length coded) (length before + 4 + 1024) place short) in
    let room : length before + 1032 + length coded ≤ length whole = omega (
      arith,
      ap (length {0} {A = ℕ}) same,
      place,
      length-append {0} front (second ++ (coded ++ rest)),
      length-append {0} second (coded ++ rest),
      length-append {0} coded rest,
      word_length (length coded),
    ) in
    elim (Bool-cases (ltb 0 n)) [
      | inl t ↦
          rw
            (
              at_first,
              at_second,
              eq→== n ((expected + 4 - 1 - lane) / 4) e,
              t,
              le→ltb (length whole) (length before + 1032 + length coded) room,
            )
            refl
      | inr t ↦
          let zero_length : n ≡ 0 = ground arith in
          let none : length coded ≡ 0 = ap (length {0} {A = ℕ}) (empty zero_length) in
          let still : length before + 1032 ≡ length before + 1032 + length coded =
            omega (arith, none) in
          rw (at_first, at_second, eq→== n ((expected + 4 - 1 - lane) / 4) e, t)
            (ap (λ p. delta_lanes left whole expected 4 (lane + 1) p true) still)
    ]

length-write_counts : (counts : List ℕ) → length (write_counts counts) ≡ 4 * length counts
unfolding write_counts
length-write_counts [] = refl
length-write_counts (c ∷ counts) = omega (
  arith,
  length-append {0} (to_le 4 (u32 c)) (write_counts counts),
  word_length c,
  length-write_counts counts,
)

-- From lane `lane` on, the lanes are as long as those of `expected` bytes dealt over four lanes.
unfoldable pub AreSized : ℕ → ℕ → List Bytes → Type 0
AreSized expected lane [] = Unit {0}
AreSized expected lane (l ∷ lanes) =
    (length l ≡ (expected + 4 - 1 - lane) / 4) × AreSized expected (lane + 1) lanes

pub shorter_lanes :
    (n : ℕ) (lanes : List Bytes) → n ≤ 2 ^ 22 → All (IsLane n) lanes → All (IsLane (2 ^ 22)) lanes
shorter_lanes n [] small h = tt
shorter_lanes n (l ∷ lanes) small ((hl, size), h) =
    ((hl, omega arith), shorter_lanes n lanes small h)

-- What is asked of the coded lanes behind the bytes before them.
pub record AreDeclared (expected lane : ℕ) (lanes : List Bytes) : Type 0 where
  pub bytes : Bytes
  pub encoded : encode_lanes lanes ≡ returns (ok bytes)
  pub size : length bytes ≤ length lanes * (1040 + 8 * 2 ^ 22)
  pub declared :
      (before : Bytes)
      → delta_lanes (length lanes) (before ++ bytes) expected 4 lane (length before) true ≡ ok true

module _ (descending ascending : List Fraction → List Fraction) where
  pub lanes-AreDeclared :
      (expected lane : ℕ) (lanes : List Bytes)
      → All (IsLane (2 ^ 22)) lanes
      → AreSized expected lane lanes
      → AreDeclared expected lane lanes
  unfolding AreSized encode_lanes
  lanes-AreDeclared expected lane [] h s = record {
    bytes = [];
    encoded = refl;
    size = omega arith;
    declared = λ before. unfold delta_lanes in refl;
  }
  lanes-AreDeclared expected lane (l ∷ lanes) ((hl, short), h) (e, s) =
      let c : IsCoded descending ascending l = any_lane descending ascending l hl (omega arith) in
      let on = lanes-AreDeclared expected (lane + 1) lanes h s in
      let counts = write_counts (lane_counts l) in
      let counted : length counts ≡ 1024 =
        omega (arith, length-write_counts (lane_counts l), (lane_counts-AreCounts l hl).size) in
      let word = to_le 4 (u32 (length l)) in
      let second = to_le 4 (u32 (length c.coded)) in
      let shape : c.bytes ++ on.bytes ≡ lane_bytes (length l) counts c.coded on.bytes =
        ap (λ t. t ++ on.bytes) c.framed
        ∙ append_assoc (word ++ counts) (second ++ c.coded) on.bytes
        ∙ append_assoc word counts ((second ++ c.coded) ++ on.bytes)
        ∙ ap (λ t. word ++ (counts ++ t)) (append_assoc second c.coded on.bytes) in
      let first_size : length c.bytes ≡ 1032 + length c.coded = omega (
        arith,
        ap (length {0} {A = ℕ}) c.framed,
        length-append {0} (word ++ counts) (second ++ c.coded),
        length-append {0} word counts,
        length-append {0} second c.coded,
        word_length (length l),
        word_length (length c.coded),
        counted,
      ) in
      record {
        bytes = c.bytes ++ on.bytes;
        encoded = rw (c.encoded, on.encoded) refl;
        size = omega (arith, length-append {0} c.bytes on.bytes, on.size, c.small, first_size);
        declared = λ before.
            let place : length before + 1032 + length c.coded ≡ length (before ++ c.bytes) =
              omega (arith, first_size, length-append {0} before c.bytes) in
            let step =
              delta_lanes-lane_bytes (length lanes) expected lane (length l) before counts c.coded
                on.bytes counted (omega arith) (omega (arith, c.small)) c.empty e in
            ap
              (λ t.
                delta_lanes (suc (length lanes)) (before ++ t) expected 4 lane (length before) true)
              shape
            ∙ step
            ∙ ap
                (λ t.
                  delta_lanes (length lanes) (before ++ t) expected 4 (lane + 1)
                    (length before + 1032 + length c.coded) true)
                (sym shape)
            ∙ ap
                (λ p.
                  delta_lanes (length lanes) (before ++ (c.bytes ++ on.bytes)) expected 4 (lane + 1)
                    p true)
                place
            ∙ ap
                (λ t.
                  delta_lanes (length lanes) t expected 4 (lane + 1) (length (before ++ c.bytes))
                    true)
                (sym (append_assoc before c.bytes on.bytes))
            ∙ on.declared (before ++ c.bytes);
      }
