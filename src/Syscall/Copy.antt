-- ===== src/Syscall/Copy.antt =====
-- What `memcpy` leaves in the memory.
use gd32c103_bootloader.Common.{
  ℕ, zero, suc, ◌+◌, ◌-◌, ◌%◌, ◌≤◌, ◌<◌, ◌≡◌, ◌⊎◌, refl, ap, ◌∙◌, arith, true, false, not, ◌&&◌,
  ltb, ◌==◌, if◌then◌else◌, Bool-cases, inl, inr,
}
use gd32c103_bootloader.Flash.Controller.{is_within, byte_of}
use gd32c103_bootloader.Boot.{Memory, word_at}
use gd32c103_bootloader.Syscall.{
  Copying, copy_word, copy_byte, copy_blocks, copy_words, copy_bytes, memcpy,
}

-- The memory with a block copied.
abbrev pub copied : Memory → ℕ → ℕ → ℕ → Memory
copied m dst src n = λ x. if is_within dst n x then m (src + (x - dst)) else m x

abbrev pub AreApart : ℕ → ℕ → ℕ → Type 0
AreApart dst src n = (dst + n ≤ src) ⊎ (src + n ≤ dst)

byte_of-word :
    (m : Memory) (a i : ℕ) → ((k : ℕ) → m k < 256) → i < 4 → byte_of (word_at m a) i ≡ m (a + i)
byte_of-word m a i h lt = at i lt
  where
    at : (j : ℕ) → j < 4 → byte_of (word_at m a) j ≡ m (a + j)
    at zero q =
        let e : a + 0 ≡ a = omega arith in
        rw e (omega (arith, h a, h (a + 1), h (a + 2), h (a + 3)))
    at (suc zero) q = omega (arith, h a, h (a + 1), h (a + 2), h (a + 3))
    at (suc (suc zero)) q = omega (arith, h a, h (a + 1), h (a + 2), h (a + 3))
    at (suc (suc (suc zero))) q = omega (arith, h a, h (a + 1), h (a + 2), h (a + 3))
    at (suc (suc (suc (suc j)))) q = absurd (omega arith)

copied-lt : (m : Memory) (dst src n k : ℕ) → ((k : ℕ) → m k < 256) → copied m dst src n k < 256
copied-lt m dst src n k h = elim (Bool-cases (is_within dst n k)) [
  | inl q ↦ rw q (h (src + (k - dst)))
  | inr q ↦ rw q (h k)
]

module _ (m : Memory) (dst src n : ℕ) (bytes : (k : ℕ) → m k < 256)
    (apart : AreApart dst src n) where
  -- The part before the next address is copied, and what is left is the rest of the block.
  abbrev IsCopying : Copying → Type 0
  IsCopying c =
      (dst ≤ c.to)
      × (c.to + c.left ≡ dst + n)
      × (c.from + dst ≡ c.to + src)
      × ((x : ℕ) → c.memory x ≡ copied m dst src (c.to - dst) x)

  -- What is still to be copied is as it was.
  source_lem :
      (c : Copying) (i : ℕ)
      → i < c.left
      → IsCopying c
      → c.memory (c.from + i) ≡ m (src + (c.to + i - dst))
  source_lem c i h (le, sum, both, all) =
      let out : is_within dst (c.to - dst) (c.from + i) ≡ false = ground (arith, apart) in
      let at : c.from + i ≡ src + (c.to + i - dst) = omega arith in
      all (c.from + i) ∙ rw out (ap m at)

  -- Storing the bytes that follow, as many as a unit has.
  extend :
      (k : ℕ) (c : Copying) (x value : ℕ)
      → k ≤ c.left
      → IsCopying c
      → (is_within c.to k x ≡ true → value ≡ c.memory (c.from + (x - c.to)))
      → (if is_within c.to k x then value else c.memory x) ≡ copied m dst src (c.to + k - dst) x
  extend k c x value h (le, sum, both, all) v = elim (Bool-cases (is_within c.to k x)) [
    | inl q ↦
        let near : x - c.to < c.left = ground arith in
        let inside : is_within dst (c.to + k - dst) x ≡ true = ground arith in
        let at : c.to + (x - c.to) - dst ≡ x - dst = ground arith in
        rw (q, inside)
          (v q ∙ source_lem c (x - c.to) near (le, sum, both, all) ∙ ap (λ (j : ℕ). m (src + j)) at)
    | inr q ↦
        let same : is_within dst (c.to + k - dst) x ≡ is_within dst (c.to - dst) x = ground arith in
        rw (q, same) (all x)
  ]

  memory-lt : (c : Copying) → IsCopying c → (k : ℕ) → c.memory k < 256
  memory-lt c f k = rw (f.3 k) (copied-lt m dst src (c.to - dst) k bytes)

  copy_byte-IsCopying : (c : Copying) → 1 ≤ c.left → IsCopying c → IsCopying (copy_byte c)
  copy_byte-IsCopying c h (le, sum, both, all) = (
    omega arith,
    omega arith,
    omega arith,
    λ x.
        let one : (x == c.to) ≡ is_within c.to 1 x = ground arith in
        rw one (
          extend 1 c x (c.memory c.from) h (le, sum, both, all)
            (λ q. let e : c.from ≡ c.from + (x - c.to) = ground arith in ap c.memory e)),
  )

  copy_word-IsCopying : (c : Copying) → 4 ≤ c.left → IsCopying c → IsCopying (copy_word c)
  copy_word-IsCopying c h (le, sum, both, all) = (
    omega arith,
    omega arith,
    omega arith,
    λ x.
        extend 4 c x (byte_of (word_at c.memory c.from) (x - c.to)) h (le, sum, both, all)
          (λ q.
            byte_of-word c.memory c.from (x - c.to) (memory-lt c (le, sum, both, all))
              (ground arith)),
  )

  copy_blocks-IsCopying : (fuel : ℕ) (c : Copying) → IsCopying c → IsCopying (copy_blocks fuel c)
  unfolding copy_blocks
  copy_blocks-IsCopying zero c f = f
  copy_blocks-IsCopying (suc fuel) c f = elim (Bool-cases (ltb c.left 16)) [
    | inl q ↦ rw q f
    | inr q ↦
        let c1 = copy_word c in
        let c2 = copy_word c1 in
        let c3 = copy_word c2 in
        let f1 = copy_word-IsCopying c (ground arith) f in
        let f2 = copy_word-IsCopying c1 (ground arith) f1 in
        let f3 = copy_word-IsCopying c2 (ground arith) f2 in
        rw q (copy_blocks-IsCopying fuel (copy_word c3) (copy_word-IsCopying c3 (ground arith) f3))
  ]

  copy_words-IsCopying : (fuel : ℕ) (c : Copying) → IsCopying c → IsCopying (copy_words fuel c)
  unfolding copy_words
  copy_words-IsCopying zero c f = f
  copy_words-IsCopying (suc fuel) c f = elim (Bool-cases (ltb c.left 4)) [
    | inl q ↦ rw q f
    | inr q ↦
        rw q (copy_words-IsCopying fuel (copy_word c) (copy_word-IsCopying c (ground arith) f))
  ]

  -- The last loop leaves nothing.
  copy_bytes-copied :
      (fuel : ℕ) (c : Copying) (x : ℕ)
      → c.left ≤ fuel
      → IsCopying c
      → (copy_bytes fuel c).memory x ≡ copied m dst src n x
  unfolding copy_bytes
  copy_bytes-copied zero c x h (le, sum, both, all) =
      all x ∙ (let e : c.to - dst ≡ n = omega arith in rw e refl)
  copy_bytes-copied (suc fuel) c x h (le, sum, both, all) = elim (Bool-cases (c.left == 0)) [
    | inl q ↦ rw q (all x ∙ (let e : c.to - dst ≡ n = ground arith in rw e refl))
    | inr q ↦ rw q (
        copy_bytes-copied fuel (copy_byte c) x (ground arith)
          (copy_byte-IsCopying c (ground arith) (le, sum, both, all)))
  ]

  -- `memcpy` between blocks that do not overlap, in a memory of bytes: the destination reads as the
  -- source did, and no other byte is changed, whatever the length and the alignment.
  pub memcpy_lem : (x : ℕ) → memcpy dst src n m x ≡ copied m dst src n x
  unfolding memcpy
  memcpy_lem x =
      let start : Copying = record { to = dst; from = src; left = n; memory = m } in
      let none_yet : IsCopying start = (
        omega arith,
        omega arith,
        omega arith,
        λ y. let e : is_within dst (dst - dst) y ≡ false = ground arith in rw e refl,
      ) in
      let aligned = copy_words n (copy_blocks n start) in
      let f = copy_words-IsCopying n _ (copy_blocks-IsCopying n start none_yet) in
      elim (Bool-cases (not (ltb n 16) && (src % 4 == 0 && dst % 4 == 0))) [
        | inl q ↦ rw (memcpy, q) (copy_bytes-copied n aligned x (omega (arith, f.0, f.1)) f)
        | inr q ↦ rw (memcpy, q) (copy_bytes-copied n start x (omega arith) none_yet)
      ]
