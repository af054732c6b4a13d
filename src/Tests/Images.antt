-- ===== src/Tests/Images.antt =====
-- The theorems on the boot loader and on an upgrade.
use gd32c103_bootloader.Common.{
  ℕ, ◌-◌, ◌*◌, ◌/◌, ◌%◌, ◌<◌, ◌≡◌, refl, arith, false, if◌then◌else◌, List, [], ◌∷◌, length, get_or,
  take, Option, none, some,
}
use gd32c103_bootloader.Crc.{crc32_calculate}
use gd32c103_bootloader.Flash.Controller.{is_within, byte_of}
use gd32c103_bootloader.Flash.Erase.{NeverFails}
use gd32c103_bootloader.Flash.{size_to_pages}
use gd32c103_bootloader.Boot.{Memory, boot_loader_main, region, partition_magic_number}
use gd32c103_bootloader.Boot.Select.{Boots, boot_loader_main-Boots}
use gd32c103_bootloader.Upgrade.{Upgrade, serve, Sent}
use gd32c103_bootloader.Crc.{xlink_crc16_with_init}
use gd32c103_bootloader.Flash.{fmc_program_data}
use gd32c103_bootloader.Upgrade.{Outcome, firmware_chunk_cb}
use gd32c103_bootloader.Upgrade.Chunk.{chunk_buffer, during, accepted}
use gd32c103_bootloader.Upgrade.Guard.{firmware_chunk_cb_below}
use gd32c103_bootloader.Upgrade.Image.{session, answers, serve-session, serve-session-keeps}
use gd32c103_bootloader.Tests.Simulated.{simulated, zero_chip}

-- The second slot is named and holds an application of four bytes.
abbrev app_bytes : List ℕ
app_bytes = 0 ∷ 0x20 ∷ 0 ∷ 0x20 ∷ []

abbrev pub slot_b_memory : Memory
slot_b_memory = λ a.
    (if is_within 0x08001004 4 a
      then byte_of 1 (a - 0x08001004)
      else if is_within 0x0800E800 4 a
      then byte_of partition_magic_number (a - 0x0800E800)
      else if is_within 0x0800E808 4 a
      then byte_of 4 (a - 0x0800E808)
      else if is_within 0x0800E814 4 a
      then byte_of 0xfcdc99d7 (a - 0x0800E814)
      else if is_within 0x0800F000 4 a
      then get_or app_bytes (a - 0x0800F000) 0
      else 0xFF)
    % 256

pub slot_b_memory-lt : (a : ℕ) → slot_b_memory a < 256
slot_b_memory-lt a = omega arith

boot_loader_main-slot_b_memory :
    boot_loader_main 8 slot_b_memory
    ≡ some (record { msp = 0x20002000; vtor = 0x0800F000; entry = 0xFFFFFFFF; interrupts = false })
unfolding boot_loader_main crc32_calculate
boot_loader_main-slot_b_memory = refl

boot_loader_main-Boots_example : Boots slot_b_memory (boot_loader_main 8 slot_b_memory)
boot_loader_main-Boots_example =
    boot_loader_main-Boots slot_b_memory slot_b_memory-lt 8 (omega arith) (λ e. e)

abbrev pub image : List ℕ
image = 1 ∷ 2 ∷ 3 ∷ 4 ∷ 5 ∷ 6 ∷ 7 ∷ 8 ∷ 9 ∷ 10 ∷ []

abbrev pub fresh : Upgrade simulated
fresh = record {
  start_address = 0;
  size_bytes = 0;
  chunk_size = 0;
  check_crc32 = 0;
  chip = zero_chip;
}

pub always_ready : NeverFails simulated
always_ready = λ s p page. refl

serve-session_example :
    (u' : Upgrade simulated) × ((serve simulated 0 0 (session 0x08002000 4 (λ k. []) [] image) fresh
        ≡ some (answers simulated 0x08002000 4 (λ k. []) 0 0 image [], u'))
      × (region (simulated.byte u'.chip.flash) 0x08002000 (4 * (length image / 4))
          ≡ take (4 * (length image / 4)) image))
serve-session_example =
    serve-session simulated 0x08002000 4 (λ k. []) 0 0 image [] (omega arith) (omega arith) fresh
      always_ready (omega arith) (λ j. tt)

-- What the device has sent and holds after that upgrade.
abbrev served : Option (List Sent × Upgrade simulated)
served = serve simulated 0 0 (session 0x08002000 4 (λ k. []) [] image) fresh

abbrev last_state : Option (List Sent × Upgrade simulated) → Upgrade simulated
last_state none = fresh
last_state (some (sent, u)) = u

abbrev last_sent : Option (List Sent × Upgrade simulated) → List Sent
last_sent none = []
last_sent (some (sent, u)) = sent

serve-session-keeps_example : simulated.byte (last_state served).chip.flash 0x08002400 ≡ 0
unfolding session
serve-session-keeps_example =
    serve-session-keeps simulated 0x08002000 4 (λ k. []) 0 0 image [] (omega arith) (omega arith)
      fresh (last_state served) (last_sent served) 0x08002400 (unfold serve in refl)
      (unfold size_to_pages in refl)

abbrev below_image : List ℕ
below_image = 1 ∷ 2 ∷ 3 ∷ 4 ∷ []

-- With chunks of 200 bytes, chunk 0x147AE14 lies 96 bytes below the image.
firmware_chunk_cb_below_example :
    firmware_chunk_cb simulated
      (chunk_buffer 0x147AE14 below_image [])
      (during simulated 0x08002000 1000 200 7 zero_chip)
    ≡ Outcome.returned 0 (accepted simulated 0x08002000 1000 200 0x147AE14 ∷ []) (
        during simulated 0x08002000 1000 200
          (xlink_crc16_with_init below_image 7)
          (fmc_program_data simulated 0x08001FA0 below_image 4 zero_chip).1)
firmware_chunk_cb_below_example =
    firmware_chunk_cb_below simulated 0x08002000 1000 200 0x147AE14 96 7 below_image [] zero_chip
      (omega arith) (omega arith) (omega arith) (omega arith) (omega arith) (omega arith)
      (omega arith) (omega arith)
