-- ===== src/Flash/Controller.antt =====
-- The flash controller of the GD32 firmware library, as far as src/onchip_flash_port.c relies on
-- it: the main flash of 128 KB, erased a page of 1 KB at a time and programmed a word at a time.
use gd32c103_bootloader.Common.{
  ℕ, ◌+◌, ◌-◌, ◌/◌, ◌%◌, ◌≤◌, ◌<◌, ◌≡◌, Bool, true, false, ◌&&◌, leb, ltb, ◌==◌, if◌then◌else◌,
}

abbrev pub flash_start : ℕ
flash_start = 0x08000000

abbrev pub flash_end : ℕ
flash_end = 0x08020000

-- The byte of a word at an offset, the lowest first.
abbrev pub byte_of : ℕ → ℕ → ℕ
byte_of word i =
    if i == 0
    then word % 256
    else if i == 1
    then word / 256 % 256
    else if i == 2
    then word / 65536 % 256
    else word / 16777216 % 256

-- Whether an address lies in the block of a length that begins at `start`.
abbrev pub is_within : ℕ → ℕ → ℕ → Bool
is_within start len a = leb start a && ltb a (start + len)

-- A page or word of the main flash.
abbrev pub IsPage : ℕ → Type 0
IsPage p = (flash_start ≤ p) × (p + 1024 ≤ flash_end) × (p % 1024 ≡ 0)

abbrev pub IsWord : ℕ → Type 0
IsWord p = (flash_start ≤ p) × (p + 4 ≤ flash_end) × (p % 4 ≡ 0)

-- The calls of the library, over a state that the program does not see, with what its manual says
-- of them. `page_erase` also returns whether the controller was ready, that is, did not report an
-- error; nothing is said of the page if it did.
pub record Fmc : Type 1 where
  pub State : Type 0
  pub byte : State → ℕ → ℕ
  pub unlocked : State → Bool
  pub unlock : State → State
  pub lock : State → State
  pub flag_clear : State → State
  pub page_erase : State → ℕ → Bool × State
  pub word_program : State → ℕ → ℕ → State
  pub byte-lt : (s : State) (a : ℕ) → byte s a < 256
  pub unlock_opens : (s : State) → unlocked (unlock s) ≡ true
  pub byte-unlock : (s : State) (a : ℕ) → byte (unlock s) a ≡ byte s a
  pub byte-lock : (s : State) (a : ℕ) → byte (lock s) a ≡ byte s a
  pub byte-flag_clear : (s : State) (a : ℕ) → byte (flag_clear s) a ≡ byte s a
  pub unlocked-flag_clear : (s : State) → unlocked (flag_clear s) ≡ unlocked s
  pub unlocked-page_erase : (s : State) (p : ℕ) → unlocked (page_erase s p).1 ≡ unlocked s
  pub unlocked-word_program : (s : State) (p w : ℕ) → unlocked (word_program s p w) ≡ unlocked s
  pub page_erase-erases :
      (s : State) (p a : ℕ)
      → unlocked s ≡ true
      → IsPage p
      → (page_erase s p).0 ≡ true
      → is_within p 1024 a ≡ true
      → byte (page_erase s p).1 a ≡ 0xFF
  pub page_erase-keeps :
      (s : State) (p a : ℕ)
      → IsPage p
      → is_within p 1024 a ≡ false
      → byte (page_erase s p).1 a ≡ byte s a
  pub word_program-programs :
      (s : State) (p w a : ℕ)
      → unlocked s ≡ true
      → IsWord p
      → ((i : ℕ) → i < 4 → byte s (p + i) ≡ 0xFF)
      → is_within p 4 a ≡ true
      → byte (word_program s p w) a ≡ byte_of w (a - p)
  pub word_program-keeps :
      (s : State) (p w a : ℕ)
      → IsWord p
      → is_within p 4 a ≡ false
      → byte (word_program s p w) a ≡ byte s a
