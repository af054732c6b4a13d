-- ===== src/Flash.antt =====
-- src/onchip_flash_port.c and inc/onchip_flash_port.h over the flash controller of the GD32
-- firmware library, which is not part of the repository: it is the parameter `Fmc`.
pub mod Controller
pub mod Erase
pub mod Check
pub mod Program
use Controller.{Fmc}
use gd32c103_bootloader.Common.{
  ℕ, zero, suc, ◌+◌, ◌-◌, ◌*◌, ◌/◌, Bool, true, false, ◌==◌, not, if◌then◌else◌, List, [], ◌∷◌,
  take, drop, get_or, u32,
}

abbrev pub page_size : ℕ
page_size = 0x400

-- size_t is 32 bits wide.
unfoldable pub size_to_pages : ℕ → ℕ
size_to_pages size = u32 (size + page_size - 1) / page_size

-- A little-endian word of memory.
abbrev pub word_of : ℕ → ℕ → ℕ → ℕ → ℕ
word_of a b c d = a + 256 * (b + 256 * (c + 256 * d))

-- The first word of some bytes.
abbrev pub first_word : List ℕ → ℕ
first_word buf = word_of (get_or buf 0 0) (get_or buf 1 0) (get_or buf 2 0) (get_or buf 3 0)

module _ (fmc : Fmc) where
  open fmc use {State, byte, unlock, lock, flag_clear, page_erase, word_program}

  -- The chip as these functions see it: the controller, and whether interrupts are enabled.
  pub record Chip : Type 0 where
    pub flash : State
    pub interrupts : Bool

  -- The loop of `fmc_erase_pages` with `left` rounds to go: it stops at a page that is not ready.
  unfoldable pub erase_loop : ℕ → ℕ → ℕ → State → State
  erase_loop zero page_address counter s = s
  erase_loop (suc left) page_address counter s =
      let (ready, s') = page_erase s (u32 (page_address + page_size * counter)) in
      let rest = erase_loop left page_address (counter + 1) (flag_clear s') in
      if ready then rest else s'

  unfoldable pub fmc_erase_pages : ℕ → ℕ → Chip → Chip
  unfolding erase_loop
  fmc_erase_pages page_address page_num c = record {
    flash = lock (erase_loop page_num page_address 0 (flag_clear (unlock c.flash)));
    interrupts = true;
  }

  -- The loop of `fmc_erase_pages_check` over words; the program returns 0 or -1.
  unfoldable pub check_loop : ℕ → ℕ → State → Bool
  check_loop zero address s = true
  check_loop (suc left) address s =
      let rest = check_loop left (u32 (address + 4)) s in
      let word =
        word_of (byte s address) (byte s (address + 1)) (byte s (address + 2))
          (byte s (address + 3)) in
      if word == 0xFFFFFFFF then rest else false

  unfoldable pub fmc_erase_pages_check : ℕ → ℕ → Chip → Bool
  unfolding check_loop
  fmc_erase_pages_check page_address page_num c =
      check_loop (u32 (page_num * (page_size / 4))) page_address c.flash

  -- The loop of `fmc_program_data` with `left` words to go, and the address it ends at.
  unfoldable pub program_loop : ℕ → ℕ → List ℕ → State → ℕ × State
  program_loop zero address buf s = (address, s)
  program_loop (suc left) address buf s =
      program_loop left (u32 (address + 4)) (drop 4 buf)
        (flag_clear (word_program s address (first_word buf)))

  unfoldable pub fmc_program_data : ℕ → List ℕ → ℕ → Chip → ℕ × Chip
  unfolding program_loop
  fmc_program_data address buf size c =
      let (end, s) = program_loop (size / 4) address buf (unlock c.flash) in
      (end, record { flash = lock s; interrupts = true })
