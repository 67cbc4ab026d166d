-- ===== src/Entropy/Coder.antt =====
-- The coder of src/entropy/mod.rs: `RansEncoder`, `RansDecoder`, `rans_encode` and `rans_decode`.
pub mod State
pub mod Advance
pub mod Flush
pub mod RoundTrip
pub mod Size
use nexcomp.Base.{
  ℕ, zero, suc, ◌+◌, ◌-◌, ◌*◌, ◌/◌, ◌%◌, ◌^◌, ◌≤◌, List, [], ◌∷◌, ◌++◌, reverse, ◌==◌, ltb, leb,
  if◌then◌else◌, length, take, drop, get_or, Result, ok, err, ◌>>=◌, ◌>>◌, fail_if,
}
use nexcomp.Base.Words.{Bytes, u8, u64}
use nexcomp.Base.Bits.{bit_and, bit_or}
use nexcomp.Entropy.Table.{
  scale_bits, total, rans_l, RansError, symbol_out_of_range, empty_input, decode_underflow,
  zero_frequency, RansTable, RansDecodeTable,
}

-- `RansEncoder`; `output` is in the order of the pushes.
pub record Encoder : Type 0 where
  pub state : ℕ
  pub output : Bytes

abbrev pub new_encoder : Encoder
new_encoder = record { state = rans_l; output = [] }

-- `while state >= upper_bound`. A state of 64 bits is zero after eight rounds, so eight are enough
-- fuel for a bound that is not zero.
unfoldable pub renormalize : ℕ → ℕ → Encoder → Encoder
renormalize zero upper_bound e = e
renormalize (suc fuel) upper_bound e =
    let more =
      renormalize fuel upper_bound
        (record { state = e.state / 2 ^ 8; output = e.output ++ (bit_and e.state 0xff ∷ []) }) in
    if leb upper_bound e.state then more else e

-- C(s, x).
unfoldable pub advance : ℕ → ℕ → ℕ → ℕ
advance freq cumul state = state / freq * total + cumul + state % freq

unfoldable pub encode_symbol : RansTable → ℕ → Encoder → Result RansError Encoder
encode_symbol table symbol e =
    let freq = get_or table.freq symbol 0 in
    let cumul = get_or table.cumul symbol 0 in
    let r = renormalize 8 (rans_l / 2 ^ scale_bits * 2 ^ 8 * freq) e in
    fail_if (leb table.alphabet_size symbol) (symbol_out_of_range symbol table.alphabet_size)
    >> (fail_if (freq == 0) (zero_frequency symbol)
        >> ok (record { state = advance freq cumul r.state; output = r.output }))

-- The last bytes of the state, lowest first.
unfoldable pub flush : ℕ → ℕ → Bytes → Bytes
flush zero state output = output
flush (suc n) state output = flush n (state / 2 ^ 8) (output ++ (bit_and state 0xff ∷ []))

unfoldable pub finish : Encoder → Bytes
finish e = reverse (flush 8 e.state e.output)

-- `RansDecoder`; `rest` is `input[pos..]`.
pub record Decoder : Type 0 where
  pub state : ℕ
  pub rest : Bytes

pub absorb : ℕ → Bytes → ℕ
absorb state [] = state
absorb state (b ∷ bytes) = absorb (bit_or (u64 (state * 2 ^ 8)) b) bytes

pub new_decoder : Bytes → Result RansError Decoder
new_decoder bytes =
    if ltb (length bytes) 8
    then err decode_underflow
    else ok (record { state = absorb 0 (take 8 bytes); rest = drop 8 bytes })

-- `while state < RANS_L`; each round takes a byte.
pub refill : ℕ → Bytes → Result RansError Decoder
refill state [] =
    if ltb state rans_l then err decode_underflow else ok (record { state = state; rest = [] })
refill state (b ∷ rest) =
    let more = refill (bit_or (u64 (state * 2 ^ 8)) b) rest in
    if ltb state rans_l then more else ok (record { state = state; rest = b ∷ rest })

-- The state before the last symbol was encoded, up to the bytes that were pushed.
pub retreat : ℕ → ℕ → ℕ → ℕ
retreat freq cumul state =
    u64 (freq * (state / 2 ^ scale_bits) + bit_and state 0xfff + 2 ^ 64 - cumul)

pub decode_symbol : RansDecodeTable → Decoder → Result RansError (ℕ × Decoder)
decode_symbol dtable d =
    let symbol = dtable.spread (bit_and d.state 0xfff) in
    let freq = get_or dtable.table.freq symbol 0 in
    let cumul = get_or dtable.table.cumul symbol 0 in
    refill (retreat freq cumul d.state) d.rest >>= λ d'. ok (symbol, d')

unfoldable pub encode_symbols : RansTable → Bytes → Encoder → Result RansError Encoder
encode_symbols table [] e = ok e
encode_symbols table (s ∷ symbols) e = encode_symbol table s e >>= encode_symbols table symbols

unfoldable pub rans_encode : Bytes → RansTable → Result RansError Bytes
rans_encode [] table = err empty_input
rans_encode (s ∷ symbols) table =
    encode_symbols table (reverse (s ∷ symbols)) new_encoder >>= λ e. ok (finish e)

pub decode_symbols : RansDecodeTable → ℕ → Decoder → Bytes → Result RansError Bytes
decode_symbols dtable zero d output = ok output
decode_symbols dtable (suc n) d output =
    decode_symbol dtable d >>= λ (symbol, d'). decode_symbols dtable n d' (output ++ (symbol ∷ []))

pub rans_decode : Bytes → RansDecodeTable → ℕ → Result RansError Bytes
rans_decode bytes dtable n_symbols = new_decoder bytes >>= λ d. decode_symbols dtable n_symbols d []
