-- ===== src/Upgrade/Guard.antt =====
-- Where the range check of `FirmwareChunk_cb` of src/upgrade.c lets a chunk through.
use gd32c103_bootloader.Common.{
  ℕ, ◌+◌, ◌-◌, ◌*◌, ◌%◌, ◌≤◌, ◌<◌, ◌≡◌, refl, arith, false, ltb, List, [], ◌∷◌, ◌++◌, length, u16,
  u32,
}
use gd32c103_bootloader.Crc.{xlink_crc16_with_init}
use gd32c103_bootloader.Flash.Controller.{Fmc}
use gd32c103_bootloader.Flash.{Chip, fmc_program_data}
use gd32c103_bootloader.Upgrade.{Outcome, firmware_chunk_cb}
use gd32c103_bootloader.Upgrade.Chunk.{chunk_buffer, during, accepted, word_of-put_u32, take-append}

module _ (fmc : Fmc) (start size cs : ℕ) where
  -- A chunk whose number times the chunk size is, modulo 2^32, `back` bytes less than nothing is
  -- accepted, programmed that far below the start of the image, and taken into the checksum: if
  -- `back` is positive and at most the start, the chunk is at most 245 bytes long and ends no
  -- further than the image, the image ends within 32 bits, the number has 32 bits, and the checksum
  -- so far has 16.
  pub firmware_chunk_cb_below :
      (k back sum : ℕ) (bytes behind : List ℕ) (chip : Chip fmc)
      → 0 < back
      → back ≤ start
      → k * cs % 4294967296 ≡ 4294967296 - back
      → k < 4294967296
      → sum < 65536
      → length bytes ≤ 245
      → length bytes ≤ size + back
      → start + size < 4294967296
      → firmware_chunk_cb fmc (chunk_buffer k bytes behind) (during fmc start size cs sum chip)
        ≡ Outcome.returned 0 (accepted fmc start size cs k ∷ []) (
            during fmc start size cs
              (xlink_crc16_with_init bytes sum)
              (fmc_program_data fmc (start - back) (bytes ++ behind) (length bytes) chip).1)
  unfolding firmware_chunk_cb
  firmware_chunk_cb_below k back sum bytes behind chip pos low at small hs hl inside bound =
      let place : u32 (start + k * cs) ≡ start - back = omega arith in
      let fits : ltb (u32 (start + size)) (u32 (start - back + length bytes)) ≡ false =
        ground arith in
      let short : ltb 245 (length bytes) ≡ false = ground arith in
      let whole : u16 sum ≡ sum = omega arith in
      rw (word_of-put_u32 k small, place, fits, short, whole, take-append bytes behind) refl
