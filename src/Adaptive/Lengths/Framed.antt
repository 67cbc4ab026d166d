-- ===== src/Adaptive/Lengths/Framed.antt =====
-- A word that src/adaptive.rs reads between other bytes.
use nexcomp.Base.{ℕ, ◌^◌, ◌<◌, ◌≡◌, sym, ap, ◌++◌, length, ok}
use nexcomp.Base.Words.{Bytes, u32, to_le}
use nexcomp.Base.Frames.{word_length, word_value}
use nexcomp.Lz77.Huffman.Blocks.{get_range}
use nexcomp.Lz77.Huffman.Blocks.RoundTrip.{get_range-append}
use nexcomp.Adaptive.Reader.{read_le, u32_at}

pub word_at :
    (before after : Bytes) (n pos : ℕ)
    → pos ≡ length before
    → n < 2 ^ 32
    → u32_at (before ++ (to_le 4 (u32 n) ++ after)) pos ≡ ok n
unfolding u32_at read_le get_range
word_at before after n pos e h =
    rw (get_range-append before (to_le 4 (u32 n)) after pos 4 e (sym (word_length n)))
      (ap ok (word_value n h))
