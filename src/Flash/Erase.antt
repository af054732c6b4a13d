-- ===== src/Flash/Erase.antt =====
-- `fmc_erase_pages` and `fmc_erase_pages_check`: what is erased, what is left, what the check finds.
use gd32c103_bootloader.Common.{
  ℕ, zero, suc, ◌+◌, ◌*◌, ◌%◌, ◌≤◌, ◌<◌, ◌≡◌, refl, ◌∙◌, arith, true, false, u32, Bool-cases, inl,
  inr,
}
use gd32c103_bootloader.Flash.Controller.{Fmc, flash_start, flash_end, is_within, IsPage}
use gd32c103_bootloader.Flash.{page_size, Chip, erase_loop, fmc_erase_pages}

-- The blocks of pages that fit the main flash.
abbrev pub ArePages : ℕ → ℕ → Type 0
ArePages p n = (flash_start ≤ p) × (p % 1024 ≡ 0) × (p + 1024 * n ≤ flash_end)

module _ (fmc : Fmc) where
  open fmc use {State, byte, unlocked, unlock, lock, flag_clear, page_erase}

  -- The controller reports no error for a page of the main flash.
  abbrev pub NeverFails : Type 0
  NeverFails = (s : State) (p : ℕ) → IsPage p → (page_erase s p).0 ≡ true

  round_address :
      (p n k : ℕ)
      → ArePages p n
      → k < n
      → (u32 (p + page_size * k) ≡ p + 1024 * k) × IsPage (p + 1024 * k)
  round_address p n k h lt = omega arith

  -- The state in which a round leaves the controller, if it goes on.
  abbrev cleared : ℕ → ℕ → State → State
  cleared p k s = flag_clear (page_erase s (p + 1024 * k)).1

  erase_loop-keeps :
      (left p n k : ℕ) (s : State) (a : ℕ)
      → ArePages p n
      → k + left ≡ n
      → is_within (p + 1024 * k) (1024 * left) a ≡ false
      → byte (erase_loop fmc left p k s) a ≡ byte s a
  unfolding erase_loop
  erase_loop-keeps zero p n k s a h e out = refl
  erase_loop-keeps (suc left) p n k s a h e out =
      let (at, page) = round_address p n k h (omega arith) in
      let away : is_within (p + 1024 * k) 1024 a ≡ false = ground arith in
      let beyond : is_within (p + 1024 * (k + 1)) (1024 * left) a ≡ false = ground arith in
      let kept = fmc.page_erase-keeps s (p + 1024 * k) a page away in
      let ih = erase_loop-keeps left p n (k + 1) (cleared p k s) a h (omega arith) beyond in
      rw at (elim (Bool-cases (page_erase s (p + 1024 * k)).0) [
        | inl r ↦ rw r (ih ∙ fmc.byte-flag_clear _ a ∙ kept)
        | inr r ↦ rw r kept
      ])

  module _ (ready : NeverFails) where
    cleared_unlocked : (p k : ℕ) (s : State) → unlocked s ≡ true → unlocked (cleared p k s) ≡ true
    cleared_unlocked p k s u = fmc.unlocked-flag_clear _ ∙ fmc.unlocked-page_erase s _ ∙ u

    erase_loop-erases :
        (left p n k : ℕ) (s : State) (a : ℕ)
        → ArePages p n
        → k + left ≡ n
        → unlocked s ≡ true
        → is_within (p + 1024 * k) (1024 * left) a ≡ true
        → byte (erase_loop fmc left p k s) a ≡ 0xFF
    unfolding erase_loop
    erase_loop-erases zero p n k s a h e u inside = absurd (ground arith)
    erase_loop-erases (suc left) p n k s a h e u inside =
        let (at, page) = round_address p n k h (omega arith) in
        rw (at, ready s (p + 1024 * k) page)
          (elim (Bool-cases (is_within (p + 1024 * k) 1024 a)) [
            | inl here ↦
                let beyond : is_within (p + 1024 * (k + 1)) (1024 * left) a ≡ false =
                  ground arith in
                erase_loop-keeps left p n (k + 1) (cleared p k s) a h (omega arith) beyond
                ∙ fmc.byte-flag_clear _ a
                ∙ fmc.page_erase-erases s (p + 1024 * k) a u page (ready s _ page) here
            | inr later ↦
                erase_loop-erases left p n (k + 1) (cleared p k s) a h (omega arith)
                  (cleared_unlocked p k s u) (ground arith)
          ])

  -- Erasing pages of the main flash leaves every byte outside them as it was, also when the
  -- controller reports an error on the way.
  pub fmc_erase_pages-keeps :
      (p n : ℕ) (c : Chip fmc) (a : ℕ)
      → ArePages p n
      → is_within p (1024 * n) a ≡ false
      → byte (fmc_erase_pages fmc p n c).flash a ≡ byte c.flash a
  unfolding fmc_erase_pages
  fmc_erase_pages-keeps p n c a h out =
      fmc.byte-lock _ a
      ∙ erase_loop-keeps n p n 0 _ a h (omega arith) (ground arith)
      ∙ fmc.byte-flag_clear _ a
      ∙ fmc.byte-unlock c.flash a

  -- If the controller reports no error, every byte of the pages is 0xFF afterwards.
  pub fmc_erase_pages-erases :
      (p n : ℕ) (c : Chip fmc) (a : ℕ)
      → NeverFails
      → ArePages p n
      → is_within p (1024 * n) a ≡ true
      → byte (fmc_erase_pages fmc p n c).flash a ≡ 0xFF
  unfolding fmc_erase_pages
  fmc_erase_pages-erases p n c a ready h inside =
      fmc.byte-lock _ a
      ∙ erase_loop-erases ready n p n 0 _ a h (omega arith)
          (fmc.unlocked-flag_clear _ ∙ fmc.unlock_opens c.flash) (ground arith)
