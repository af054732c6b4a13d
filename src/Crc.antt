-- ===== src/Crc.antt =====
-- The checksums: `xlink_crc16`, `xlink_crc16_with_init` and the copying variant of xlink/xlink.h,
-- and `crc32_calculate` of inc/partition.h. A pointer with a length is the list of the bytes that
-- the loop reads; no caller passes more than fit the length's type.
pub mod Table16
pub mod Table32
pub mod Register
pub mod Bitwise
pub mod Detect
use Table16.{crc_table}
use Table32.{crc32tab}
use gd32c103_bootloader.Common.{ℕ, ◌/◌, ◌%◌, bit_xor, List, [], ◌∷◌, ◌++◌, get_or, u8}

abbrev pub xlink_init_crc16 : ℕ
xlink_init_crc16 = 0xFFFF

-- One round of the loops over `crc_table`.
unfoldable pub crc16_step : ℕ → ℕ → ℕ
crc16_step init byte = bit_xor (init / 256) (get_or crc_table (u8 (bit_xor byte (u8 init))) 0)

unfoldable pub xlink_crc16_with_init : List ℕ → ℕ → ℕ
unfolding crc16_step
xlink_crc16_with_init [] init = init
xlink_crc16_with_init (byte ∷ buf) init = xlink_crc16_with_init buf (crc16_step init byte)

unfoldable pub xlink_crc16 : List ℕ → ℕ
unfolding xlink_crc16_with_init
xlink_crc16 buf = xlink_crc16_with_init buf xlink_init_crc16

-- What `_memcpy_and_crc16` stores from `dst` on: each byte as it is taken into the checksum, then
-- the checksum, low byte first.
unfoldable pub memcpy_and_crc16 : List ℕ → ℕ → List ℕ
unfolding crc16_step
memcpy_and_crc16 [] crc = u8 crc ∷ u8 (crc / 256) ∷ []
memcpy_and_crc16 (byte ∷ src) crc = byte ∷ memcpy_and_crc16 src (crc16_step crc byte)

-- One round of the loop of `crc32_calculate`.
unfoldable pub crc32_step : ℕ → ℕ → ℕ
crc32_step crc byte = bit_xor (get_or crc32tab (u8 (bit_xor crc byte)) 0) (crc / 256)

unfoldable pub crc32_loop : List ℕ → ℕ → ℕ
unfolding crc32_step
crc32_loop [] crc = crc
crc32_loop (byte ∷ buf) crc = crc32_loop buf (crc32_step crc byte)

unfoldable pub crc32_calculate : List ℕ → ℕ → ℕ
unfolding crc32_loop
crc32_calculate buf crc = bit_xor (crc32_loop buf crc) 0xFFFFFFFF
