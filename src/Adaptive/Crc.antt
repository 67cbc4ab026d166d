-- ===== src/Adaptive/Crc.antt =====
-- `crc32` of src/adaptive.rs: CRC-32 (IEEE 802.3), its table computed at each use.
use nexcomp.Base.{ℕ, zero, suc, ◌-◌, ◌/◌, ◌^◌, ◌<◌, ◌≡◌, refl, arith, [], ◌∷◌, ◌==◌, if◌then◌else◌}
use nexcomp.Base.Words.{Bytes}
use nexcomp.Base.Bits.{bit_and, bit_xor}

-- `n` rounds of the loop that fills one entry of the table.
crc_rounds : ℕ → ℕ → ℕ
crc_rounds zero c = c
crc_rounds (suc n) c = crc_rounds n (if bit_and c 1 == 0 then c / 2 else bit_xor 0xedb88320 (c / 2))

-- `TABLE[i]`.
crc_entry : ℕ → ℕ
unfolding crc_rounds
crc_entry i = crc_rounds 8 i

crc_fold : ℕ → Bytes → ℕ
unfolding crc_entry
crc_fold c [] = c
crc_fold c (b ∷ bytes) =
    crc_fold (bit_xor (crc_entry (bit_and (bit_xor c b) 0xff)) (c / 2 ^ 8)) bytes

-- `!fold(!0, …)`, where `!` flips all 32 bits.
unfoldable pub crc32 : Bytes → ℕ
unfolding crc_fold
crc32 bytes = 2 ^ 32 - 1 - crc_fold (2 ^ 32 - 1) bytes

-- The checksum is a `u32`.
pub crc32-lt : (bytes : Bytes) → crc32 bytes < 2 ^ 32
unfolding crc32
crc32-lt bytes = omega arith

-- The check value of the standard: the checksum of "123456789".
crc32_check : crc32 (0x31 ∷ 0x32 ∷ 0x33 ∷ 0x34 ∷ 0x35 ∷ 0x36 ∷ 0x37 ∷ 0x38 ∷ 0x39 ∷ []) ≡ 0xcbf43926
unfolding crc32
crc32_check = refl
