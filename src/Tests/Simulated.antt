-- ===== src/Tests/Simulated.antt =====
-- A flash controller that has what `Fmc` asks for.
use gd32c103_bootloader.Common.{ℕ, ◌-◌, ◌%◌, ◌<◌, refl, arith, Bool, true, false, if◌then◌else◌}
use gd32c103_bootloader.Flash.Controller.{Fmc, is_within, byte_of}
use gd32c103_bootloader.Flash.{Chip}

pub record Cells : Type 0 where
  pub cell : ℕ → ℕ
  pub is_open : Bool

pub byte_of-lt : (w i : ℕ) → byte_of w i < 256
byte_of-lt w i = ground arith

abbrev pub erase_cells : Cells → ℕ → Cells
erase_cells s p = record s { cell = λ a. if is_within p 1024 a then 0xFF else s.cell a }

abbrev pub write_cells : Cells → ℕ → ℕ → Cells
write_cells s p w = record s { cell = λ a. if is_within p 4 a then byte_of w (a - p) else s.cell a }

abbrev pub simulated : Fmc
simulated = record {
  State = Cells;
  byte = λ s a. s.cell a % 256;
  unlocked = λ s. s.is_open;
  unlock = λ s. record s { is_open = true };
  lock = λ s. record s { is_open = false };
  flag_clear = λ s. s;
  page_erase = λ s p. (true, erase_cells s p);
  word_program = write_cells;
  byte-lt = λ s a. omega arith;
  unlock_opens = λ s. refl;
  byte-unlock = λ s a. refl;
  byte-lock = λ s a. refl;
  byte-flag_clear = λ s a. refl;
  unlocked-flag_clear = λ s. refl;
  unlocked-page_erase = λ s p. refl;
  unlocked-word_program = λ s p w. refl;
  page_erase-erases = λ s p a u page ready inside. rw inside refl;
  page_erase-keeps = λ s p a page out. rw out refl;
  word_program-programs =
      λ s p w a u word e inside. rw inside (let lt = byte_of-lt w (a - p) in omega (arith, lt));
  word_program-keeps = λ s p w a word out. rw out refl;
}

-- A chip whose flash is erased, and one whose flash is all zeros.
abbrev pub erased_chip : Chip simulated
erased_chip =
    let cells : Cells = record { cell = λ a. 0xFF; is_open = false } in
    record { flash = cells; interrupts = true }

abbrev pub zero_chip : Chip simulated
zero_chip =
    let cells : Cells = record { cell = λ a. 0; is_open = false } in
    record { flash = cells; interrupts = true }
