-- ===== src/Tests/Checksums.antt =====
-- The theorems on the checksums.
use gd32c103_bootloader.Common.{ℕ, ◌/◌, ◌≡◌, ◌≢◌, ◌↔◌, refl, arith, bit_xor, List, [], ◌∷◌, set}
use gd32c103_bootloader.Crc.{crc16_step, crc32_calculate}
use gd32c103_bootloader.Crc.Bitwise.{
  ccitt, ieee, crc, crc_byte, table_index, AreBytes, crc16_step-eq-crc_byte_iff,
  crc32_calculate-eq-crc,
}
use gd32c103_bootloader.Crc.Detect.{crc16_detects, crc32_detects}

-- The string 123456789.
abbrev digits : List ℕ
digits = 0x31 ∷ 0x32 ∷ 0x33 ∷ 0x34 ∷ 0x35 ∷ 0x36 ∷ 0x37 ∷ 0x38 ∷ 0x39 ∷ []

digits-AreBytes : AreBytes digits
digits-AreBytes = omega arith

crc32_calculate-digits : crc32_calculate digits 0xFFFFFFFF ≡ 0xCBF43926
unfolding crc32_calculate
crc32_calculate-digits = refl

crc32_calculate-eq-crc_example :
    crc32_calculate digits 0xFFFFFFFF ≡ bit_xor (crc ieee digits 0xFFFFFFFF) 0xFFFFFFFF
crc32_calculate-eq-crc_example = crc32_calculate-eq-crc digits 0xFFFFFFFF digits-AreBytes

-- Here the table is wrong.
crc16_step-eq-crc_byte_iff_example :
    (crc16_step 0 0x3C ≡ crc_byte ccitt 0 0x3C) ↔ (table_index 0 0x3C / 4 ≢ 15)
crc16_step-eq-crc_byte_iff_example = crc16_step-eq-crc_byte_iff 0 0x3C (omega arith)

crc16_detects_example : set digits 2 0x33 ≡ digits
crc16_detects_example =
    crc16_detects digits 2 0x33 0xFFFF (omega arith) (omega arith) digits-AreBytes refl

crc32_detects_example : set digits 4 0x35 ≡ digits
crc32_detects_example =
    crc32_detects digits 4 0x35 0 (omega arith) (omega arith) digits-AreBytes refl
