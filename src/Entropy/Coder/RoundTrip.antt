-- ===== src/Entropy/Coder/RoundTrip.antt =====
-- Symbols are decoded from what their encoding wrote.
use nexcomp.Base.{
  ℕ, suc, ◌+◌, ◌*◌, ◌^◌, ◌≤◌, ◌<◌, ◌≡◌, ◌≢◌, refl, sym, ap, ◌∙◌, arith, List, [], ◌∷◌, ◌++◌,
  reverse, append_assoc, append-nil, All, All-append, Bool-cases, ==→eq, inl, inr, gt→leb, ne→==,
  ◌==◌, length, length-append, get_or, ok, ◌>>=◌,
}
use mathlib.Core.List.{reverse-reverse, reverse_aux-eq}
use nexcomp.Base.Words.{Bytes, u32}
use nexcomp.Base.Bits.{bit_and}
use nexcomp.Entropy.Table.{
  RansTable, RansDecodeTable, total, sum, accumulate, build_table, build_decode_table, fill_symbols,
}
use nexcomp.Entropy.Table.Slots.{below, below_step, below_total, cumul_at, fill_symbols-slot}
use nexcomp.Entropy.Coder.{
  Encoder, new_encoder, renormalize, advance, encode_symbol, finish, new_decoder, refill,
  decode_symbol, encode_symbols, rans_encode, decode_symbols, rans_decode,
}
use nexcomp.Entropy.Coder.State.{refill-full, refill-renormalize, renormalize-lt, renormalize-le}
use nexcomp.Entropy.Coder.Flush.{new_decoder-finish}
use nexcomp.Entropy.Coder.Advance.{
  InRange, IsSlot, IsReady, advance-InRange, advance_slot, retreat-advance,
}

module _ (freqs : List ℕ) (full : sum freqs ≡ total) (small : length freqs ≤ 256) where
  abbrev table : RansTable
  table = record { freq = freqs; cumul = accumulate 0 freqs; alphabet_size = length freqs }

  abbrev dtable : RansDecodeTable
  dtable = record { spread = fill_symbols (length freqs) (accumulate 0 freqs); table = table }

  -- A symbol that the table has and gives a frequency.
  abbrev IsCoded : ℕ → Type 0
  IsCoded s = (s < length freqs) × (0 < get_or freqs s 0)

  coded-IsSlot : (s : ℕ) → IsCoded s → IsSlot (get_or freqs s 0) (below freqs s)
  coded-IsSlot s (lt, pos) = (pos, omega (arith, below_step freqs s, below_total freqs (suc s)))

  -- What decodes to the symbol `s` and leaves the decoder as `e` was.
  abbrev Undoes : ℕ → Encoder → Encoder → Type 0
  Undoes s e e' =
      (tail : Bytes)
      → decode_symbol dtable (record { state = e'.state; rest = reverse e'.output ++ tail })
        ≡ ok (s, record { state = e.state; rest = reverse e.output ++ tail })

  decode_symbol_of :
      (s y state : ℕ) (rest : Bytes)
      → IsCoded s
      → IsReady (get_or freqs s 0) y
      → state ≡ advance (get_or freqs s 0) (below freqs s) y
      → decode_symbol dtable (record { state = state; rest = rest })
        ≡ (refill y rest >>= λ d. ok (s, d))
  unfolding decode_symbol
  decode_symbol_of s y state rest (lt, pos) ready e =
      let f = get_or freqs s 0 in
      let c = below freqs s in
      let slot = coded-IsSlot s (lt, pos) in
      let at : get_or (accumulate 0 freqs) s 0 ≡ c = cumul_at freqs s full (omega arith) in
      let (lo, hi) = advance_slot f c y slot ready in
      let next : below freqs (suc s) ≡ c + f = below_step freqs s in
      let found : fill_symbols (length freqs) (accumulate 0 freqs) (bit_and (advance f c y) 0xfff)
          ≡ s =
        fill_symbols-slot freqs (length freqs) s (bit_and (advance f c y) 0xfff) full lt
          (omega arith) lo (omega arith)
        ∙ omega arith in
      rw (e, found, at, retreat-advance f c y slot ready) refl

  symbol_step :
      (s : ℕ) (e : Encoder)
      → IsCoded s
      → InRange e.state
      → (e' : Encoder) × (encode_symbol table s e ≡ ok e') × InRange e'.state × Undoes s e e'
  unfolding encode_symbol
  symbol_step s e (lt, pos) (lo, hi) =
      let f = get_or freqs s 0 in
      let c = below freqs s in
      let slot = coded-IsSlot s (lt, pos) in
      let r = renormalize 8 (65536 * f) e in
      let ready : IsReady f r.state = (
        renormalize-le 8 (65536 * f) (256 * f) e (omega arith) (omega arith),
        renormalize-lt 8 (65536 * f) e (omega arith),
      ) in
      let at : get_or (accumulate 0 freqs) s 0 ≡ c = cumul_at freqs s full (omega arith) in
      (
        record { state = advance f c r.state; output = r.output },
        rw (at, gt→leb (length freqs) s lt, ne→== f 0 (λ z. absurd (omega arith))) refl,
        advance-InRange f c r.state slot ready,
        λ tail.
            decode_symbol_of s r.state (advance f c r.state) (reverse r.output ++ tail) (lt, pos)
              ready refl
            ∙ rw
                (
                  refill-renormalize 8 (65536 * f) e tail hi,
                  refill-full e.state (reverse e.output ++ tail) lo,
                )
                refl,
      )

  -- The encoder after some symbols, and that decoding as many goes back to where it was.
  abbrev Encoded : Bytes → Encoder → Encoder → Type 0
  Encoded symbols e e' =
      (n : ℕ) (tail output : Bytes)
      → decode_symbols dtable (length symbols + n)
          (record { state = e'.state; rest = reverse e'.output ++ tail }) output
        ≡ decode_symbols dtable n (record { state = e.state; rest = reverse e.output ++ tail })
            (output ++ reverse symbols)

  decode_next :
      (s : ℕ) (e e' : Encoder)
      → Undoes s e e'
      → (n : ℕ) (tail output : Bytes)
      → decode_symbols dtable
          (suc n)
          (record { state = e'.state; rest = reverse e'.output ++ tail })
          output
        ≡ decode_symbols dtable n
            (record { state = e.state; rest = reverse e.output ++ tail })
            (output ++ (s ∷ []))
  unfolding decode_symbols
  decode_next s e e' undo n tail output = rw (undo tail) refl

  symbols_step :
      (symbols : Bytes) (e : Encoder)
      → All IsCoded symbols
      → InRange e.state
      → (e' : Encoder) × (encode_symbols table symbols e ≡ ok e')
        × InRange e'.state
        × Encoded symbols e e'
  unfolding encode_symbols
  symbols_step [] e h r = (
    e,
    refl,
    r,
    λ n tail output. let z : 0 + n ≡ n = omega arith in rw (z, append-nil output) refl,
  )
  symbols_step (s ∷ symbols) e (hs, h) r =
      let (e1, step, r1, undo) = symbol_step s e hs r in
      let (e2, steps, r2, back) = symbols_step symbols e1 h r1 in
      (
        e2,
        rw step steps,
        r2,
        λ n tail output.
            let later : suc (length symbols) + n ≡ length symbols + suc n = omega arith in
            rw later (
              back (suc n) tail output
              ∙ decode_next s e e1 undo n tail (output ++ reverse symbols)
              ∙ rw (reverse_aux-eq symbols (s ∷ []), append_assoc output (reverse symbols) (s ∷ []))
                  refl),
      )

  All-reverse : (symbols : Bytes) → All IsCoded symbols → All IsCoded (reverse symbols)
  All-reverse [] h = tt
  All-reverse (s ∷ symbols) (hs, h) =
      rw (reverse_aux-eq symbols (s ∷ []))
        (All-append IsCoded (reverse symbols) (s ∷ []) (All-reverse symbols h) (hs, tt))

  length-reverse : (symbols : Bytes) → length (reverse symbols) ≡ length symbols
  length-reverse [] = refl
  length-reverse (s ∷ symbols) =
      rw
        (
          reverse_aux-eq symbols (s ∷ []),
          length-append (reverse symbols) (s ∷ []),
          length-reverse symbols,
        )
        (omega arith)

  coded :
      (symbols : Bytes)
      → symbols ≢ []
      → All IsCoded symbols
      → (bytes : Bytes) × (rans_encode symbols table ≡ ok bytes)
        × (rans_decode bytes dtable (length symbols) ≡ ok symbols)
  unfolding rans_encode rans_decode
  coded [] ne h = absurd (ne refl)
  coded (s ∷ symbols) ne h =
      let message = s ∷ symbols in
      let (e, steps, range, back) =
        symbols_step (reverse message) new_encoder (All-reverse message h)
          (omega arith, omega arith) in
      let start : new_decoder (finish e)
          ≡ ok (record { state = e.state; rest = reverse e.output }) =
        new_decoder-finish e range.1 in
      let count : length message ≡ length (reverse message) + 0 =
        omega (arith, length-reverse message) in
      (
        finish e,
        rw steps refl,
        rw start (
            ap
              (λ (n : ℕ).
                decode_symbols dtable n (record { state = e.state; rest = reverse e.output }) [])
              count
            ∙ ap
                (λ (t : Bytes).
                  decode_symbols dtable (length (reverse message) + 0)
                    (record { state = e.state; rest = t }) [])
                (sym (append-nil (reverse e.output)))
            ∙ back 0 [] []
            ∙ unfold decode_symbols in rw (reverse-reverse message) refl),
      )

built :
    (freqs : List ℕ) (t : RansTable)
    → sum freqs < 2 ^ 32
    → build_table freqs ≡ ok t
    → (sum freqs ≡ total)
      × (t ≡ record { freq = freqs; cumul = accumulate 0 freqs; alphabet_size = length freqs })
unfolding build_table
built freqs t h e = elim (Bool-cases (u32 (sum freqs) == total)) [
  | inl y ↦ (omega (arith, ==→eq (u32 (sum freqs)) total y), let e' = rw y at e in cc)
  | inr y ↦ let e' = rw y at e in cc
]

-- Let `build_table` give a table for frequencies of at most 256 symbols whose sum does not
-- overflow. Then a message that is not empty, of symbols that the table has with a frequency that
-- is not zero, is encoded, and decoding as many symbols from the result gives back the message.
pub rans_decode-rans_encode :
    (freqs : List ℕ) (t : RansTable) (symbols : Bytes)
    → length freqs ≤ 256
    → sum freqs < 2 ^ 32
    → build_table freqs ≡ ok t
    → symbols ≢ []
    → All (λ s. (s < length freqs) × (0 < get_or freqs s 0)) symbols
    → (bytes : Bytes) × (rans_encode symbols t ≡ ok bytes)
      × (rans_decode bytes (build_decode_table t) (length symbols) ≡ ok symbols)
unfolding build_decode_table
rans_decode-rans_encode freqs t symbols small fits e ne h =
    let (full, same) = built freqs t fits e in rw same (coded freqs full small symbols ne h)
