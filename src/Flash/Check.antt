-- ===== src/Flash/Check.antt =====
-- `fmc_erase_pages_check`: what it finds.
use gd32c103_bootloader.Common.{
  ℕ, zero, suc, ◌+◌, ◌-◌, ◌*◌, ◌/◌, ◌^◌, ◌<◌, ◌≡◌, ◌↔◌, refl, sym, ap, ◌∙◌, arith, true, false,
  ◌==◌, ==_iff, if◌then◌else◌, u32, Bool-cases, inl, inr,
}
use gd32c103_bootloader.Flash.Controller.{Fmc, is_within}
use gd32c103_bootloader.Flash.Erase.{ArePages}
use gd32c103_bootloader.Flash.{page_size, Chip, check_loop, fmc_erase_pages_check, word_of}

module _ (fmc : Fmc) where
  open fmc use {State, byte}

  abbrev pub IsErased : State → ℕ → ℕ → Type 0
  IsErased s p len = (a : ℕ) → is_within p len a ≡ true → byte s a ≡ 0xFF

  abbrev AllOnes : State → ℕ → Type 0
  AllOnes s p =
      (byte s p ≡ 255) × (byte s (p + 1) ≡ 255) × (byte s (p + 2) ≡ 255) × (byte s (p + 3) ≡ 255)

  abbrev word_at : State → ℕ → ℕ
  word_at s p = word_of (byte s p) (byte s (p + 1)) (byte s (p + 2)) (byte s (p + 3))

  -- A word of the flash is all ones exactly when its four bytes are.
  ones_iff : (s : State) (p : ℕ) → ((word_at s p == 0xFFFFFFFF) ≡ true) ↔ AllOnes s p
  ones_iff s p =
      let b = fmc.byte-lt s in
      (
        λ e.
            let q = (==_iff (word_at s p) 0xFFFFFFFF).0 e in
            omega (arith, q, b p, b (p + 1), b (p + 2), b (p + 3)),
        λ e. (==_iff (word_at s p) 0xFFFFFFFF).1 (omega (arith, e)),
      )

  IsErased-word : (s : State) (p len : ℕ) → IsErased s p (4 + len) → AllOnes s p
  IsErased-word s p len e = (
    e p (ground arith),
    e (p + 1) (ground arith),
    e (p + 2) (ground arith),
    e (p + 3) (ground arith),
  )

  ones_at : (s : State) (p i : ℕ) → AllOnes s p → i < 4 → byte s (p + i) ≡ 255
  ones_at s p zero w h = let e : p + 0 ≡ p = omega arith in rw e w.0
  ones_at s p (suc zero) w h = w.1
  ones_at s p (suc (suc zero)) w h = w.2
  ones_at s p (suc (suc (suc zero))) w h = w.3
  ones_at s p (suc (suc (suc (suc i)))) w h = absurd (omega arith)

  IsErased-join :
      (s : State) (p len : ℕ) → AllOnes s p → IsErased s (p + 4) len → IsErased s p (4 + len)
  IsErased-join s p len w e a q = elim (Bool-cases (is_within (p + 4) len a)) [
    | inl later ↦ e a later
    | inr here ↦
        let at : p + (a - p) ≡ a = ground arith in
        let near : a - p < 4 = ground arith in ap (byte s) (sym at) ∙ ones_at s p (a - p) w near
  ]

  IsErased-rest : (s : State) (p len : ℕ) → IsErased s p (4 + len) → IsErased s (p + 4) len
  IsErased-rest s p len e a q = e a (ground arith)

  check_loop-suc :
      (left p : ℕ) (s : State)
      → p + 4 < 2 ^ 32
      → check_loop fmc (suc left) p s
        ≡ (if word_at s p == 0xFFFFFFFF then check_loop fmc left (p + 4) s else false)
  unfolding check_loop
  check_loop-suc left p s h = let next : u32 (p + 4) ≡ p + 4 = omega arith in rw next refl

  check_loop_iff :
      (left p : ℕ) (s : State)
      → p + 4 * left < 2 ^ 32
      → (check_loop fmc left p s ≡ true) ↔ IsErased s p (4 * left)
  check_loop_iff zero p s h = (λ e a q. absurd (ground arith), λ e. unfold check_loop in refl)
  check_loop_iff (suc left) p s h =
      let ih = check_loop_iff left (p + 4) s (omega arith) in
      let len : 4 * suc left ≡ 4 + 4 * left = omega arith in
      let ones = ones_iff s p in
      rw (len, check_loop-suc left p s (omega arith))
        (elim (Bool-cases (word_at s p == 0xFFFFFFFF)) [
          | inl w ↦ rw w (
            λ e. IsErased-join s p (4 * left) (ones.0 w) (ih.0 e),
            λ e. ih.1 (IsErased-rest s p (4 * left) e),
          )
          | inr w ↦ rw w (λ e. cc, λ e. (sym w ∙ ones.1 (IsErased-word s p (4 * left) e)))
        ])

  -- The check of some pages of the main flash succeeds exactly when all their bytes are 0xFF.
  pub fmc_erase_pages_check_iff :
      (p n : ℕ) (c : Chip fmc)
      → ArePages p n
      → (fmc_erase_pages_check fmc p n c ≡ true) ↔ IsErased c.flash p (1024 * n)
  unfolding fmc_erase_pages_check
  fmc_erase_pages_check_iff p n c h =
      let count : u32 (n * (page_size / 4)) ≡ 256 * n = omega arith in
      let len : 4 * (256 * n) ≡ 1024 * n = omega arith in
      rw (count, ← len) (check_loop_iff (256 * n) p c.flash (omega arith))
