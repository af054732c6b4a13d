-- ===== src/Flash/Program.antt =====
-- `fmc_program_data`: which bytes it writes, and which it leaves.
use gd32c103_bootloader.Common.{
  ℕ, zero, suc, ◌+◌, ◌-◌, ◌*◌, ◌/◌, ◌%◌, ◌^◌, ◌≤◌, ◌<◌, ◌≡◌, refl, ap, ◌∙◌, arith, true, false, u32,
  List, [], ◌∷◌, get_or, drop, get_or-drop, All-drop,
}
use native.Mathlib.Decide.{dec_lt}
use gd32c103_bootloader.Crc.Bitwise.{AreBytes}
use gd32c103_bootloader.Flash.Controller.{Fmc, flash_start, flash_end, is_within, IsWord, byte_of}
use gd32c103_bootloader.Flash.Check.{IsErased}
use gd32c103_bootloader.Flash.{Chip, program_loop, fmc_program_data, first_word, word_of}

-- The blocks of words that fit the main flash.
abbrev pub AreWords : ℕ → ℕ → Type 0
AreWords p n = (flash_start ≤ p) × (p % 4 ≡ 0) × (p + 4 * n ≤ flash_end)

pub get_or-byte : (buf : List ℕ) (i : ℕ) → AreBytes buf → get_or buf i 0 < 256
get_or-byte [] i h = omega arith
get_or-byte (x ∷ buf) zero h = h.0
get_or-byte (x ∷ buf) (suc i) h = get_or-byte buf i h.1

byte_of-word :
    (a b c d : ℕ)
    → a < 256
    → b < 256
    → c < 256
    → d < 256
    → (byte_of (word_of a b c d) 0 ≡ a)
      × (byte_of (word_of a b c d) 1 ≡ b)
      × (byte_of (word_of a b c d) 2 ≡ c)
      × (byte_of (word_of a b c d) 3 ≡ d)
byte_of-word a b c d ha hb hc hd = (omega arith, omega arith, omega arith, omega arith)

byte_of-first_word :
    (buf : List ℕ) (i : ℕ) → AreBytes buf → i < 4 → byte_of (first_word buf) i ≡ get_or buf i 0
byte_of-first_word buf i h lt =
    let b = λ (j : ℕ). get_or-byte buf j h in
    let w =
      byte_of-word (get_or buf 0 0) (get_or buf 1 0) (get_or buf 2 0) (get_or buf 3 0) (b 0) (b 1)
        (b 2) (b 3) in
    at i lt w
  where
    at :
        (j : ℕ)
        → j < 4
        → (byte_of (first_word buf) 0 ≡ get_or buf 0 0)
          × (byte_of (first_word buf) 1 ≡ get_or buf 1 0)
          × (byte_of (first_word buf) 2 ≡ get_or buf 2 0)
          × (byte_of (first_word buf) 3 ≡ get_or buf 3 0)
        → byte_of (first_word buf) j ≡ get_or buf j 0
    at zero q w = w.0
    at (suc zero) q w = w.1
    at (suc (suc zero)) q w = w.2
    at (suc (suc (suc zero))) q w = w.3
    at (suc (suc (suc (suc j)))) q w = absurd (omega arith)

module _ (fmc : Fmc) where
  open fmc use {State, byte, unlocked, unlock, lock, flag_clear, word_program}

  -- The state in which a round leaves the controller.
  abbrev written : ℕ → List ℕ → State → State
  written p buf s = flag_clear (word_program s p (first_word buf))

  program_loop-suc :
      (left p : ℕ) (buf : List ℕ) (s : State)
      → p + 4 < 2 ^ 32
      → program_loop fmc (suc left) p buf s
        ≡ program_loop fmc left (p + 4) (drop 4 buf) (written p buf s)
  unfolding program_loop
  program_loop-suc left p buf s h = let next : u32 (p + 4) ≡ p + 4 = omega arith in rw next refl

  written-keeps :
      (p : ℕ) (buf : List ℕ) (s : State) (a : ℕ)
      → IsWord p
      → is_within p 4 a ≡ false
      → byte (written p buf s) a ≡ byte s a
  written-keeps p buf s a h out = fmc.byte-flag_clear _ a ∙ fmc.word_program-keeps s p _ a h out

  program_loop-keeps :
      (left p : ℕ) (buf : List ℕ) (s : State) (a : ℕ)
      → AreWords p left
      → is_within p (4 * left) a ≡ false
      → byte (program_loop fmc left p buf s).1 a ≡ byte s a
  program_loop-keeps zero p buf s a h out = unfold program_loop in refl
  program_loop-keeps (suc left) p buf s a h out = rw (program_loop-suc left p buf s (omega arith)) (
      program_loop-keeps left (p + 4) (drop 4 buf) (written p buf s) a (omega arith) (ground arith)
      ∙ written-keeps p buf s a (omega arith) (ground arith))

  program_loop-end :
      (left p : ℕ) (buf : List ℕ) (s : State)
      → AreWords p left
      → (program_loop fmc left p buf s).0 ≡ p + 4 * left
  program_loop-end zero p buf s h = unfold program_loop in omega arith
  program_loop-end (suc left) p buf s h =
      rw (program_loop-suc left p buf s (omega arith))
        (program_loop-end left (p + 4) (drop 4 buf) (written p buf s) (omega arith) ∙ omega arith)

  program_loop-programs :
      (left p : ℕ) (buf : List ℕ) (s : State) (i : ℕ)
      → AreWords p left
      → AreBytes buf
      → unlocked s ≡ true
      → IsErased fmc s p (4 * left)
      → i < 4 * left
      → byte (program_loop fmc left p buf s).1 (p + i) ≡ get_or buf i 0
  program_loop-programs zero p buf s i h hb u e lt = absurd (omega arith)
  program_loop-programs (suc left) p buf s i h hb u e lt =
      rw (program_loop-suc left p buf s (omega arith)) (elim (dec_lt i 4) [
        | yes here ↦
            program_loop-keeps left (p + 4) (drop 4 buf) (written p buf s) (p + i) (omega arith)
              (ground arith)
            ∙ fmc.byte-flag_clear _ (p + i)
            ∙ fmc.word_program-programs s p _ (p + i) u (omega arith)
                (λ (j : ℕ) (lt4 : j < 4). e (p + j) (ground arith)) (ground arith)
            ∙ (let off : p + i - p ≡ i = omega arith in ap (byte_of (first_word buf)) off)
            ∙ byte_of-first_word buf i hb here
        | no later ↦
            let at : p + i ≡ p + 4 + (i - 4) = omega arith in
            ap (byte (program_loop fmc left (p + 4) (drop 4 buf) (written p buf s)).1) at
            ∙ program_loop-programs left (p + 4) (drop 4 buf) (written p buf s) (i - 4)
                (omega arith) (All-drop (λ (x : ℕ). x < 256) 4 buf hb)
                (fmc.unlocked-flag_clear _ ∙ fmc.unlocked-word_program s p _ ∙ u)
                (λ (a : ℕ) (inside : is_within (p + 4) (4 * left) a ≡ true).
                  written-keeps p buf s a (omega arith) (ground arith) ∙ e a (ground arith))
                (omega arith)
            ∙ get_or-drop 4 (i - 4) buf 0
            ∙ (let back : 4 + (i - 4) ≡ i = omega arith in ap (λ (k : ℕ). get_or buf k 0) back)
      ])

  -- Programming whole words of an erased block of the main flash with some bytes: every byte of
  -- the block, of which there are the size rounded down to a multiple of 4, then reads as the byte
  -- at that index, and the address returned is the end of the block.
  pub fmc_program_data-programs :
      (p size : ℕ) (buf : List ℕ) (c : Chip fmc) (i : ℕ)
      → AreWords p (size / 4)
      → AreBytes buf
      → IsErased fmc c.flash p (4 * (size / 4))
      → i < 4 * (size / 4)
      → (byte (fmc_program_data fmc p buf size c).1.flash (p + i) ≡ get_or buf i 0)
        × ((fmc_program_data fmc p buf size c).0 ≡ p + 4 * (size / 4))
  unfolding fmc_program_data
  fmc_program_data-programs p size buf c i h hb e lt =
      let erased : IsErased fmc (unlock c.flash) p (4 * (size / 4)) =
        λ a inside. fmc.byte-unlock c.flash a ∙ e a inside in
      (
        fmc.byte-lock _ (p + i)
            ∙ program_loop-programs (size / 4) p buf (unlock c.flash) i h hb
                (fmc.unlock_opens c.flash) erased lt,
        program_loop-end (size / 4) p buf (unlock c.flash) h,
      )

  -- Programming whole words of the main flash changes no byte outside the block that starts at the
  -- address and whose length is the size rounded down to a multiple of 4.
  pub fmc_program_data-keeps :
      (p size : ℕ) (buf : List ℕ) (c : Chip fmc) (a : ℕ)
      → AreWords p (size / 4)
      → is_within p (4 * (size / 4)) a ≡ false
      → byte (fmc_program_data fmc p buf size c).1.flash a ≡ byte c.flash a
  unfolding fmc_program_data
  fmc_program_data-keeps p size buf c a h out =
      fmc.byte-lock _ a
      ∙ program_loop-keeps (size / 4) p buf (unlock c.flash) a h out
      ∙ fmc.byte-unlock c.flash a
