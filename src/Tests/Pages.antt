-- ===== src/Tests/Pages.antt =====
-- The theorems on the flash and the partitions.
use gd32c103_bootloader.Common.{ℕ, ◌≡◌, ◌↔◌, refl, arith, true, List, [], ◌∷◌}
use gd32c103_bootloader.Flash.Erase.{NeverFails, fmc_erase_pages-erases}
use gd32c103_bootloader.Flash.Check.{IsErased, fmc_erase_pages_check_iff}
use gd32c103_bootloader.Flash.Program.{fmc_program_data-programs}
use gd32c103_bootloader.Flash.{fmc_erase_pages, fmc_erase_pages_check, fmc_program_data}
use gd32c103_bootloader.Tests.Simulated.{simulated, erased_chip, zero_chip}
open simulated use {byte}

always_ready : NeverFails simulated
always_ready = λ s p page. refl

fmc_erase_pages-erases_example :
    byte (fmc_erase_pages simulated 0x08002000 2 zero_chip).flash 0x08002401 ≡ 0xFF
fmc_erase_pages-erases_example =
    fmc_erase_pages-erases simulated 0x08002000 2 zero_chip 0x08002401 always_ready (omega arith)
      refl

fmc_erase_pages_check_iff_example :
    (fmc_erase_pages_check simulated 0x08002000 2 erased_chip ≡ true)
    ↔ IsErased simulated erased_chip.flash 0x08002000 2048
fmc_erase_pages_check_iff_example =
    fmc_erase_pages_check_iff simulated 0x08002000 2 erased_chip (omega arith)

abbrev six_bytes : List ℕ
six_bytes = 1 ∷ 2 ∷ 3 ∷ 4 ∷ 5 ∷ 6 ∷ []

fmc_program_data-programs_example :
    (byte (fmc_program_data simulated 0x08002000 six_bytes 6 erased_chip).1.flash 0x08002002 ≡ 3)
    × ((fmc_program_data simulated 0x08002000 six_bytes 6 erased_chip).0 ≡ 0x08002004)
fmc_program_data-programs_example =
    fmc_program_data-programs simulated 0x08002000 6 six_bytes erased_chip 2 (omega arith)
      (omega arith) (λ a inside. refl) (omega arith)
