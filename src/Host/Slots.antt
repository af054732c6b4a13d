-- ===== src/Host/Slots.antt =====
-- What the slots of two memories have in common, and the bytes that the host of upgrade.cpp sends.
use gd32c103_bootloader.Common.{
  ℕ, zero, suc, ◌+◌, ◌-◌, ◌≤◌, ◌<◌, ◌≡◌, refl, sym, ap, subst, ◌∙◌, arith, ◌++◌, length, replicate,
  get_or, Option, some, u32, All-append,
}
use gd32c103_bootloader.Crc.Bitwise.{AreBytes}
use gd32c103_bootloader.Boot.{
  Memory, bootfrom, partition_size, partition_magic_number, region, word_at, Start,
}
use gd32c103_bootloader.Boot.Select.{
  Slot, slot_a, slot_b, slot_address, slot_info_address, slot_info, named_slot, IsBootable,
  start_of, Boots, named, fallback, stuck,
}
use gd32c103_bootloader.Padding.Boots.{region_agree}
use gd32c103_bootloader.Upgrade.{put_u32}
use gd32c103_bootloader.Host.{bootfrom_record}

-- Two memories read alike in the blocks of a slot: its record and its application.
abbrev pub AgreeOn : Slot → Memory → Memory → Type 0
AgreeOn s m d = (i : ℕ) → i < 53248 → m (slot_info_address s + i) ≡ d (slot_info_address s + i)

slot_address_lem : (s : Slot) → slot_address s ≡ slot_info_address s + 2048
slot_address_lem slot_a = refl
slot_address_lem slot_b = refl

slot_info_address-lt : (s : Slot) → slot_info_address s < 134300000
slot_info_address-lt slot_a = omega arith
slot_info_address-lt slot_b = omega arith

module _ (s : Slot) (m d : Memory) (agree : AgreeOn s m d) where
  byte_agree : (i j : ℕ) → j ≡ slot_info_address s + i → i < 53248 → m j ≡ d j
  byte_agree i j e lt = ap m e ∙ agree i lt ∙ ap d (sym e)

  word_agree :
      (i : ℕ)
      → i + 4 ≤ 53248
      → word_at m (slot_info_address s + i) ≡ word_at d (slot_info_address s + i)
  word_agree i le =
      let b0 = agree i (omega arith) in
      let b1 = byte_agree (i + 1) (slot_info_address s + i + 1) (omega arith) (omega arith) in
      let b2 = byte_agree (i + 2) (slot_info_address s + i + 2) (omega arith) (omega arith) in
      let b3 = byte_agree (i + 3) (slot_info_address s + i + 3) (omega arith) (omega arith) in
      rw (b0, b1, b2, b3) refl

  -- An application that can be started can be started in the other memory too, and starts alike.
  pub IsBootable-agree :
      IsBootable d s
      → (slot_info d s).size_bytes ≤ 51200
      → IsBootable m s × (start_of m s ≡ start_of d s)
  IsBootable-agree b small =
      let lo = slot_info_address s in
      let below = slot_info_address-lt s in
      let place = slot_address_lem s in
      let zero_at : lo + 0 ≡ lo = omega arith in
      let w0 : word_at m lo ≡ word_at d lo =
        ap (word_at m) (sym zero_at) ∙ word_agree 0 (omega arith) ∙ ap (word_at d) zero_at in
      let w8 = word_agree 8 (omega arith) in
      let w20 = word_agree 20 (omega arith) in
      let bytes : region m (slot_address s) (slot_info d s).size_bytes
          ≡ region d (slot_address s) (slot_info d s).size_bytes =
        region_agree m d (slot_address s) (slot_address s) (slot_info d s).size_bytes (λ i lt.
          byte_agree (2048 + i) (u32 (slot_address s + i)) (omega (arith, place, below, small, lt))
            (omega (arith, small, lt))) in
      let next : lo + 2048 + 4 ≡ lo + 2052 = omega arith in
      let v0 : word_at m (slot_address s) ≡ word_at d (slot_address s) =
        ap (word_at m) place ∙ word_agree 2048 (omega arith) ∙ ap (word_at d) (sym place) in
      let v4 : word_at m (slot_address s + 4) ≡ word_at d (slot_address s + 4) =
        ap (λ a. word_at m (a + 4)) place
        ∙ ap (word_at m) next
        ∙ word_agree 2052 (omega arith)
        ∙ ap (word_at d) (sym next)
        ∙ ap (λ a. word_at d (a + 4)) (sym place) in
      ((w0 ∙ b.0, rw (w8, bytes, w20) b.1), rw (v0, v4) refl)

-- A boot loader that may start the slot that is named starts it.
pub Boots-named :
    (m : Memory) (s : Slot) (x : Option Start)
    → named_slot m ≡ s
    → IsBootable m s
    → Boots m x
    → x ≡ some (start_of m s)
Boots-named m s _ e b (named b') = ap (λ t. some (start_of m t)) e
Boots-named m s _ e b (fallback n b') = absurd (n (subst (IsBootable m) (sym e) b))
Boots-named m s _ e b (stuck n n') = absurd (n (subst (IsBootable m) (sym e) b))

pub length-region : (m : Memory) (a n : ℕ) → length (region m a n) ≡ n
length-region m a zero = refl
length-region m a (suc n) = ap suc (length-region m (a + 1) n)

pub get_or-region : (m : Memory) (a n i : ℕ) → i < n → get_or (region m a n) i 0 ≡ m (u32 (a + i))
get_or-region m a zero i lt = absurd (omega arith)
get_or-region m a (suc n) zero lt = (let e : a + 0 ≡ a = omega arith in rw e refl)
get_or-region m a (suc n) (suc i) lt =
    let e : a + 1 + i ≡ a + suc i = omega arith in
    get_or-region m (a + 1) n i (omega arith) ∙ ap (λ k. m (u32 k)) e

pub length-bootfrom_record : (k : ℕ) → length (bootfrom_record k) ≡ 2048
unfolding bootfrom_record
length-bootfrom_record k = refl

replicate-AreBytes : (n v : ℕ) → v < 256 → AreBytes (replicate n v)
replicate-AreBytes zero v lt = tt
replicate-AreBytes (suc n) v lt = (lt, replicate-AreBytes n v lt)

record-AreBytes :
    (magic k a b : ℕ)
    → AreBytes (put_u32 magic ++ (put_u32 k ++ (replicate a 0 ++ replicate b 0xFF)))
record-AreBytes magic k a b =
    let rest : AreBytes (replicate a 0 ++ replicate b 0xFF) =
      All-append _ (replicate a 0) (replicate b 0xFF) (replicate-AreBytes a 0 (omega arith))
        (replicate-AreBytes b 0xFF (omega arith)) in
    (
      omega arith,
      (
        omega arith,
        (
          omega arith,
          (omega arith, (omega arith, (omega arith, (omega arith, (omega arith, rest))))),
        ),
      ),
    )

pub bootfrom_record-AreBytes : (k : ℕ) → AreBytes (bootfrom_record k)
unfolding bootfrom_record
bootfrom_record-AreBytes k =
    record-AreBytes partition_magic_number k 32 (partition_size bootfrom - 40)
