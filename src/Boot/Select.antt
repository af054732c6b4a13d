-- ===== src/Boot/Select.antt =====
-- What src/boot_loader_main.c starts.
use gd32c103_bootloader.Common.{
  ℕ, zero, suc, ◌+◌, ◌%◌, ◌^◌, ◌≤◌, ◌<◌, ◌≡◌, ◌↔◌, ◌==◌, refl, arith, true, false, if◌then◌else◌,
  Bool-cases, inl, inr, ◌⊎◌, Option, none, some, bit_xor, u32,
}
use native.Mathlib.Nat.{mod-eq_of_lt}
use native.Mathlib.Decide.{dec_lt}
use gd32c103_bootloader.Crc.{crc32_calculate}
use gd32c103_bootloader.Crc.Bitwise.{crc, ieee, AreBytes, crc32_calculate-eq-crc}
use gd32c103_bootloader.Boot.{
  Memory, AppInfo, app_info, app_a, app_b, app_a_info, app_b_info, partition_address,
  partition_magic_number, region, word_at, check_app_valid, Start, jump_to_app, active_app,
  boot_loader_main, app_address, info_address,
}

pub data Slot : Type 0 where
  slot_a : Slot
  slot_b : Slot

abbrev pub slot_address : Slot → ℕ
slot_address slot_a = partition_address app_a
slot_address slot_b = partition_address app_b

abbrev pub slot_info_address : Slot → ℕ
slot_info_address slot_a = partition_address app_a_info
slot_info_address slot_b = partition_address app_b_info

abbrev pub slot_info : Memory → Slot → AppInfo
slot_info m s = app_info m (slot_info_address s)

abbrev pub other_slot : Slot → Slot
other_slot slot_a = slot_b
other_slot slot_b = slot_a

-- The slot that the record in the partition of `BootFromInfo_def` names: 0 is the first.
abbrev pub named_slot : Memory → Slot
named_slot m = elim (active_app m) [ zero ↦ slot_a | suc n ↦ slot_b ]

-- A slot can be started when its record has the magic number and the checksum, in the bitwise
-- definition, of as many bytes of the slot as the record says.
abbrev pub IsBootable : Memory → Slot → Type 0
IsBootable m s =
    ((slot_info m s).magic_number ≡ partition_magic_number)
    × (bit_xor (crc ieee (region m (slot_address s) (slot_info m s).size_bytes) 0) 0xFFFFFFFF
        ≡ (slot_info m s).app_checksum)

-- The vector table of a slot gives the stack pointer and the entry; interrupts are off.
abbrev pub start_of : Memory → Slot → Start
start_of m s = record {
  msp = word_at m (slot_address s);
  vtor = slot_address s;
  entry = word_at m (slot_address s + 4);
  interrupts = false;
}

-- What the boot loader promises: the slot named, or else the other, or else nothing.
pub data Boots (m : Memory) : Option Start → Type 0 where
  named : IsBootable m (named_slot m) → Boots m (some (start_of m (named_slot m)))
  fallback :
      (IsBootable m (named_slot m) → ⊥)
      → IsBootable m (other_slot (named_slot m))
      → Boots m (some (start_of m (other_slot (named_slot m))))
  stuck :
      (IsBootable m (named_slot m) → ⊥)
      → (IsBootable m (other_slot (named_slot m)) → ⊥)
      → Boots m none

-- The value of `enum ActiveApp` for a slot, which the code compares with 0 only.
abbrev IsSlot : ℕ → Slot → Type 0
IsSlot app slot_a = app ≡ 0
IsSlot app slot_b = 1 ≤ app

pub region-AreBytes : (m : Memory) (a n : ℕ) → ((k : ℕ) → m k < 256) → AreBytes (region m a n)
region-AreBytes m a zero h = tt
region-AreBytes m a (suc n) h = (h (u32 a), region-AreBytes m (a + 1) n h)

module _ (m : Memory) (bytes : (k : ℕ) → m k < 256) where
  app_lem :
      (app : ℕ) (s : Slot)
      → IsSlot app s
      → (app_address app ≡ slot_address s) × (info_address app ≡ slot_info_address s)
  app_lem app slot_a e = rw e (refl, refl)
  app_lem app slot_b e = let ne : (app == 0) ≡ false = ground arith in rw ne (refl, refl)

  checks :
      (s : Slot)
      → crc32_calculate (region m (slot_address s) (slot_info m s).size_bytes) 0
        ≡ bit_xor (crc ieee (region m (slot_address s) (slot_info m s).size_bytes) 0) 0xFFFFFFFF
  checks s = crc32_calculate-eq-crc _ 0 (region-AreBytes m _ _ bytes)

  abbrev Jumps : ℕ → Slot → Type 0
  Jumps app s =
      (IsBootable m s × (jump_to_app m app ≡ some (start_of m s)))
      ⊎ ((IsBootable m s → ⊥) × (jump_to_app m app ≡ none))

  -- The code's check finds the two conditions.
  check_app_valid_iff :
      (app : ℕ) (s : Slot) → IsSlot app s → (check_app_valid m app ≡ true) ↔ IsBootable m s
  unfolding check_app_valid
  check_app_valid_iff app s h =
      let (at, info) = app_lem app s h in rw (at, info, checks s) (ground arith)

  jump_to_app-Jumps : (app : ℕ) (s : Slot) → IsSlot app s → Jumps app s
  unfolding jump_to_app
  jump_to_app-Jumps app s h =
      let (at, info) = app_lem app s h in
      let valid = check_app_valid_iff app s h in
      elim (Bool-cases (check_app_valid m app)) [
        | inl v ↦ rw (v, at) (inl (valid.0 v, refl))
        | inr r ↦ rw r (inr (λ b. let t = valid.1 b in absurd cc, refl))
      ]

  -- The second value is tried when the first slot cannot be started.
  Jumps-Boots :
      (x y : ℕ)
      → Jumps x (named_slot m)
      → Jumps y (other_slot (named_slot m))
      → Boots m (elim (jump_to_app m x) [ some start ↦ some start | none ↦ jump_to_app m y ])
  Jumps-Boots x y (inl (b, e)) second = rw e (named b)
  Jumps-Boots x y (inr (n, e)) (inl (b, f)) = rw (e, f) (fallback n b)
  Jumps-Boots x y (inr (n, e)) (inr (n', f)) = rw (e, f) (stuck n n')

  -- The slot named by the field, and the one named by its negation.
  active_app_slots :
      (n : ℕ)
      → active_app m ≡ n
      → IsSlot n (named_slot m) × IsSlot (if n == 0 then 1 else 0) (other_slot (named_slot m))
  active_app_slots zero e = rw (named_slot, e) (refl, omega arith)
  active_app_slots (suc n) e = rw (named_slot, e) (omega arith, ground arith)

  IsSlot-mod :
      (k n : ℕ) (s : Slot) → 1 < k → (n < k ⊎ (n % k ≡ 0 → n ≡ 0)) → IsSlot n s → IsSlot (n % k) s
  IsSlot-mod k n slot_a lt known h = rw h (mod-eq_of_lt (omega arith))
  IsSlot-mod k n slot_b lt (inl small) h = rw (mod-eq_of_lt small) h
  IsSlot-mod k n slot_b lt (inr known) h = elim (dec_lt 0 (n % k)) [
    | yes pos ↦ pos
    | no zero_mod ↦ let z = known (omega arith) in absurd (omega (arith, z))
  ]

  -- For a compiler whose `enum ActiveApp` holds 0 and 1 and no fewer bits than keep a nonzero
  -- `activeApp` nonzero, the boot loader starts the slot that the record names if that can be
  -- started, else the other slot if that can be, and else nothing. The checksum is that of the
  -- bitwise definition, the start takes the stack pointer and the entry from the slot's vector
  -- table, and the bytes of the memory are below 256.
  pub boot_loader_main-Boots :
      (w : ℕ)
      → 1 < 2 ^ w
      → (active_app m % 2 ^ w ≡ 0 → active_app m ≡ 0)
      → Boots m (boot_loader_main w m)
  unfolding boot_loader_main
  boot_loader_main-Boots w wide known =
      let (first, second) = active_app_slots (active_app m) refl in
      Jumps-Boots _ _ (jump_to_app-Jumps _ _ (IsSlot-mod _ _ _ wide (inr known) first))
        (jump_to_app-Jumps _ _ (IsSlot-mod _ _ _ wide (inl (ground arith)) second))
