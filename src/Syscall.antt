-- ===== src/Syscall.antt =====
-- `memset` and `memcpy` of src/syscall.c, where `long` has 4 bytes. The memory is a function from
-- addresses to bytes, and pointers do not run over the end of the address space. Each loop has its
-- number of bytes as fuel, which is enough since a round takes one byte at least.
pub mod Fill
pub mod Copy
use gd32c103_bootloader.Common.{
  ℕ, zero, suc, ◌+◌, ◌-◌, ◌%◌, Bool, true, false, not, ◌&&◌, ltb, ◌==◌, if◌then◌else◌,
}
use gd32c103_bootloader.Flash.Controller.{is_within, byte_of}
use gd32c103_bootloader.Flash.{word_of}
use gd32c103_bootloader.Boot.{Memory, word_at}

abbrev pub store_byte : Memory → ℕ → ℕ → Memory
store_byte m a b = λ x. if x == a then b else m x

abbrev pub store_word : Memory → ℕ → ℕ → Memory
store_word m a w = λ x. if is_within a 4 x then byte_of w (x - a) else m x

-- Where `memset` stands: the next address, the bytes that are left, and the memory.
pub record Filling : Type 0 where
  pub at : ℕ
  pub left : ℕ
  pub memory : Memory

abbrev pub fill_word : ℕ → Filling → Filling
fill_word w c = record { at = c.at + 4; left = c.left - 4; memory = store_word c.memory c.at w }

abbrev pub fill_byte : ℕ → Filling → Filling
fill_byte b c = record { at = c.at + 1; left = c.left - 1; memory = store_byte c.memory c.at b }

unfoldable pub fill_blocks : ℕ → ℕ → Filling → Filling
fill_blocks zero w c = c
fill_blocks (suc fuel) w c =
    let rest = fill_blocks fuel w (fill_word w (fill_word w (fill_word w (fill_word w c)))) in
    if ltb c.left 16 then c else rest

unfoldable pub fill_words : ℕ → ℕ → Filling → Filling
fill_words zero w c = c
fill_words (suc fuel) w c =
    let rest = fill_words fuel w (fill_word w c) in if ltb c.left 4 then c else rest

unfoldable pub fill_bytes : ℕ → ℕ → Filling → Filling
fill_bytes zero b c = c
fill_bytes (suc fuel) b c =
    let rest = fill_bytes fuel b (fill_byte b c) in if c.left == 0 then c else rest

unfoldable pub memset : ℕ → ℕ → ℕ → Memory → Memory
unfolding fill_blocks fill_words fill_bytes
memset s c n m =
    let d = c % 256 in
    let buffer = word_of d d d d in
    let start : Filling = record { at = s; left = n; memory = m } in
    let aligned = fill_words n buffer (fill_blocks n buffer start) in
    let ready = if not (ltb n 4) && s % 4 == 0 then aligned else start in
    (fill_bytes n d ready).memory

-- Where `memcpy` stands: both addresses, the bytes that are left, and the memory.
pub record Copying : Type 0 where
  pub to : ℕ
  pub from : ℕ
  pub left : ℕ
  pub memory : Memory

abbrev pub copy_word : Copying → Copying
copy_word c = record {
  to = c.to + 4;
  from = c.from + 4;
  left = c.left - 4;
  memory = store_word c.memory c.to (word_at c.memory c.from);
}

abbrev pub copy_byte : Copying → Copying
copy_byte c = record {
  to = c.to + 1;
  from = c.from + 1;
  left = c.left - 1;
  memory = store_byte c.memory c.to (c.memory c.from);
}

unfoldable pub copy_blocks : ℕ → Copying → Copying
copy_blocks zero c = c
copy_blocks (suc fuel) c =
    let rest = copy_blocks fuel (copy_word (copy_word (copy_word (copy_word c)))) in
    if ltb c.left 16 then c else rest

unfoldable pub copy_words : ℕ → Copying → Copying
copy_words zero c = c
copy_words (suc fuel) c =
    let rest = copy_words fuel (copy_word c) in if ltb c.left 4 then c else rest

unfoldable pub copy_bytes : ℕ → Copying → Copying
copy_bytes zero c = c
copy_bytes (suc fuel) c =
    let rest = copy_bytes fuel (copy_byte c) in if c.left == 0 then c else rest

unfoldable pub memcpy : ℕ → ℕ → ℕ → Memory → Memory
unfolding copy_blocks copy_words copy_bytes
memcpy dst src count m =
    let start : Copying = record { to = dst; from = src; left = count; memory = m } in
    let aligned = copy_words count (copy_blocks count start) in
    let ready = if not (ltb count 16) && (src % 4 == 0 && dst % 4 == 0) then aligned else start in
    (copy_bytes count ready).memory
