-- ===== src/Syscall/Fill.antt =====
-- What `memset` leaves in the memory.
use gd32c103_bootloader.Common.{
  ℕ, zero, suc, ◌+◌, ◌-◌, ◌%◌, ◌≤◌, ◌<◌, ◌≡◌, refl, ◌∙◌, arith, false, not, ◌&&◌, ltb, ◌==◌,
  if◌then◌else◌, Bool-cases, inl, inr,
}
use gd32c103_bootloader.Flash.Controller.{is_within, byte_of}
use gd32c103_bootloader.Flash.{word_of}
use gd32c103_bootloader.Boot.{Memory}
use gd32c103_bootloader.Syscall.{
  Filling, fill_word, fill_byte, fill_blocks, fill_words, fill_bytes, memset,
}

-- The memory with a block filled.
abbrev pub filled : Memory → ℕ → ℕ → ℕ → Memory
filled m s n d = λ x. if is_within s n x then d else m x

byte_of-same : (d i : ℕ) → d < 256 → byte_of (word_of d d d d) i ≡ d
byte_of-same d i h = ground arith

module _ (m : Memory) (s n d : ℕ) (byte : d < 256) where
  -- The part before the next address is filled, and what is left is the rest of the block.
  abbrev IsFilling : Filling → Type 0
  IsFilling c =
      (s ≤ c.at) × (c.at + c.left ≡ s + n) × ((x : ℕ) → c.memory x ≡ filled m s (c.at - s) d x)

  fill_word-IsFilling :
      (c : Filling) → 4 ≤ c.left → IsFilling c → IsFilling (fill_word (word_of d d d d) c)
  fill_word-IsFilling c h (le, sum, all) = (
    omega arith,
    omega arith,
    λ x. let e = all x in let w = byte_of-same d (x - c.at) byte in ground (arith, e, w),
  )

  fill_byte-IsFilling : (c : Filling) → 1 ≤ c.left → IsFilling c → IsFilling (fill_byte d c)
  fill_byte-IsFilling c h (le, sum, all) =
      (omega arith, omega arith, λ x. let e = all x in ground (arith, e))

  fill_blocks-IsFilling :
      (fuel : ℕ) (c : Filling) → IsFilling c → IsFilling (fill_blocks fuel (word_of d d d d) c)
  unfolding fill_blocks
  fill_blocks-IsFilling zero c f = f
  fill_blocks-IsFilling (suc fuel) c f = elim (Bool-cases (ltb c.left 16)) [
    | inl q ↦ rw q f
    | inr q ↦
        let w = word_of d d d d in
        let c1 = fill_word w c in
        let c2 = fill_word w c1 in
        let c3 = fill_word w c2 in
        let f1 = fill_word-IsFilling c (ground arith) f in
        let f2 = fill_word-IsFilling c1 (ground arith) f1 in
        let f3 = fill_word-IsFilling c2 (ground arith) f2 in
        rw q
          (fill_blocks-IsFilling fuel (fill_word w c3) (fill_word-IsFilling c3 (ground arith) f3))
  ]

  fill_words-IsFilling :
      (fuel : ℕ) (c : Filling) → IsFilling c → IsFilling (fill_words fuel (word_of d d d d) c)
  unfolding fill_words
  fill_words-IsFilling zero c f = f
  fill_words-IsFilling (suc fuel) c f = elim (Bool-cases (ltb c.left 4)) [
    | inl q ↦ rw q f
    | inr q ↦ rw q (
        fill_words-IsFilling fuel (fill_word (word_of d d d d) c)
          (fill_word-IsFilling c (ground arith) f))
  ]

  -- The last loop leaves nothing.
  fill_bytes-filled :
      (fuel : ℕ) (c : Filling) (x : ℕ)
      → c.left ≤ fuel
      → IsFilling c
      → (fill_bytes fuel d c).memory x ≡ filled m s n d x
  unfolding fill_bytes
  fill_bytes-filled zero c x h (le, sum, all) =
      all x ∙ (let e : c.at - s ≡ n = omega arith in rw e refl)
  fill_bytes-filled (suc fuel) c x h (le, sum, all) = elim (Bool-cases (c.left == 0)) [
    | inl q ↦ rw q (all x ∙ (let e : c.at - s ≡ n = ground arith in rw e refl))
    | inr q ↦ rw q (
        fill_bytes-filled fuel (fill_byte d c) x (ground arith)
          (fill_byte-IsFilling c (ground arith) (le, sum, all)))
  ]

-- `memset` fills the block with the low byte of its argument and changes no other byte, whatever
-- the block's length and alignment.
pub memset_lem : (s c n : ℕ) (m : Memory) (x : ℕ) → memset s c n m x ≡ filled m s n (c % 256) x
unfolding memset
memset_lem s c n m x =
    let d = c % 256 in
    let byte : d < 256 = omega arith in
    let w = word_of d d d d in
    let start : Filling = record { at = s; left = n; memory = m } in
    let none_yet : IsFilling m s n d byte start = (
      omega arith,
      omega arith,
      λ y. let e : is_within s (s - s) y ≡ false = ground arith in rw e refl,
    ) in
    let aligned = fill_words n w (fill_blocks n w start) in
    let f =
      fill_words-IsFilling m s n d byte n _ (fill_blocks-IsFilling m s n d byte n start none_yet) in
    elim (Bool-cases (not (ltb n 4) && s % 4 == 0)) [
      | inl q ↦
          rw (memset, q) (fill_bytes-filled m s n d byte n aligned x (omega (arith, f.0, f.1)) f)
      | inr q ↦ rw (memset, q) (fill_bytes-filled m s n d byte n start x (omega arith) none_yet)
    ]
