-- ===== src/Host/Whole.antt =====
-- A whole run of upgrade.cpp against src/upgrade.c, and the next start by src/boot_loader_main.c.
use gd32c103_bootloader.Common.{
  ℕ, ◌+◌, ◌-◌, ◌*◌, ◌/◌, ◌%◌, ◌^◌, ◌≤◌, ◌<◌, ◌≡◌, refl, sym, ap, subst, ◌∙◌, arith, true, false,
  ◌==◌, if◌then◌else◌, List, ◌++◌, length, get_or, some, u8, u32,
}
use gd32c103_bootloader.Crc.Bitwise.{AreBytes}
use gd32c103_bootloader.Flash.Controller.{Fmc, flash_start, flash_end, is_within}
use gd32c103_bootloader.Flash.Erase.{NeverFails}
use gd32c103_bootloader.Flash.{size_to_pages}
use gd32c103_bootloader.Boot.{
  Memory, Partition, bootfrom, app_a, app_b, partition_address, region, boot_loader_main,
  active_app,
}
use gd32c103_bootloader.Boot.Select.{
  Slot, slot_a, slot_b, slot_info_address, slot_info, named_slot, IsBootable, start_of,
  boot_loader_main-Boots, region-AreBytes,
}
use native.Mathlib.Nat.{mod-eq_of_lt}
use gd32c103_bootloader.Flash.{word_of}
use gd32c103_bootloader.Upgrade.{
  Upgrade, put_bool, msg_id_restart_device, upgrade_callback, restart_device_cb,
}
use gd32c103_bootloader.Upgrade.Image.{IsTarget, final, final-programs, served, serve-session-keeps}
use gd32c103_bootloader.Host.{
  host_main, bootfrom_record, target_partition, target_address, target_size, active_number,
}
use gd32c103_bootloader.Host.Device.{device, replies, perform_upgrade_lem}
use gd32c103_bootloader.Host.Slots.{
  AgreeOn, IsBootable-agree, Boots-named, length-region, get_or-region, length-bootfrom_record,
  bootfrom_record-AreBytes,
}

-- A file as the flash that it describes.
abbrev pub described : Memory → Memory
described file = λ a. file (a - flash_start)

-- The target of the host as a slot.
abbrev pub target_slot : ℕ → Slot
target_slot base = if base == partition_address app_a then slot_b else slot_a

abbrev slot_number : Slot → ℕ
slot_number slot_a = 0
slot_number slot_b = 1

abbrev slot_partition : Slot → Partition
slot_partition slot_a = app_a
slot_partition slot_b = app_b

target_lem : (base : ℕ) → target_partition base ≡ slot_partition (target_slot base)
unfolding target_partition
target_lem base = ground arith

module _ (fmc : Fmc) (garbage vectors : ℕ) (old : List ℕ) (ready : NeverFails fmc)
    (old_bytes : AreBytes old) where
  open fmc use {byte}

  abbrev after : ℕ → List ℕ → Upgrade fmc → Upgrade fmc
  after start image u = final fmc start 200 (λ j. old) garbage vectors image old u

  -- An upgrade by the host puts the image into the flash, and keeps what is outside its pages.
  after-programs :
      (start : ℕ) (image : List ℕ) (u : Upgrade fmc) (i : ℕ)
      → IsTarget start (length image)
      → AreBytes image
      → i < 4 * (length image / 4)
      → byte (after start image u).chip.flash (start + i) ≡ get_or image i 0
  after-programs start image u i target bytes lt =
      final-programs fmc start 200 (λ j. old) garbage vectors image old target
        (omega arith, refl, omega arith) u i ready bytes (λ j. old_bytes) lt

  after-keeps :
      (start : ℕ) (image : List ℕ) (u : Upgrade fmc) (a : ℕ)
      → IsTarget start (length image)
      → is_within start (1024 * size_to_pages (length image)) a ≡ false
      → byte (after start image u).chip.flash a ≡ byte u.chip.flash a
  after-keeps start image u a target out =
      serve-session-keeps fmc start 200 (λ j. old) garbage vectors image old target
        (omega arith, refl, omega arith) u (after start image u) _ a
        (served fmc start 200 (λ j. old) garbage vectors image old target
          (omega arith, refl, omega arith) u)
        out

  module _ (s : Slot) (file : Memory) (file_bytes : (a : ℕ) → file a < 256) (u : Upgrade fmc) where
    abbrev start : ℕ
    start = target_address (slot_partition s)

    abbrev image : List ℕ
    image = region file (start - flash_start) (target_size (slot_partition s))

    abbrev view : Memory
    view = described file

    abbrev first_state : Upgrade fmc
    first_state = after start image u

    abbrev last_state : Upgrade fmc
    last_state = after (partition_address bootfrom) (bootfrom_record (slot_number s)) first_state

    abbrev flash : Memory
    flash = byte last_state.chip.flash

    start_lem : start ≡ slot_info_address s
    start_lem = by_slot s
      where
        by_slot : (t : Slot) → target_address (slot_partition t) ≡ slot_info_address t
        by_slot slot_a = refl
        by_slot slot_b = refl

    start_bounds :
        (134223872 ≤ start)
        × (start % 1024 ≡ 0)
        × (start + 53248 ≤ flash_end)
        × (target_size (slot_partition s) ≡ 53248)
    start_bounds = by_slot s
      where
        by_slot :
            (t : Slot)
            → (134223872 ≤ target_address (slot_partition t))
              × (target_address (slot_partition t) % 1024 ≡ 0)
              × (target_address (slot_partition t) + 53248 ≤ flash_end)
              × (target_size (slot_partition t) ≡ 53248)
        by_slot slot_a = (omega arith, omega arith, omega arith, refl)
        by_slot slot_b = (omega arith, omega arith, omega arith, refl)

    length_lem : length image ≡ 53248
    length_lem = length-region file _ (target_size (slot_partition s)) ∙ start_bounds.3

    image-IsTarget : IsTarget start (length image)
    image-IsTarget =
        let l = length_lem in
        let b = start_bounds in (omega (arith, b.0), b.1, omega (arith, b.2, l))

    record-IsTarget :
        IsTarget (partition_address bootfrom) (length (bootfrom_record (slot_number s)))
    record-IsTarget =
        let l = length-bootfrom_record (slot_number s) in (omega arith, refl, omega (arith, l))

    agree_lem : AgreeOn s flash view
    unfolding size_to_pages
    agree_lem i lt =
        let l = length_lem in
        let r = length-bootfrom_record (slot_number s) in
        let b = start_bounds in
        let at = start_lem in
        let lo = b.0 in
        let hi = b.2 in
        let size = b.3 in
        let outside : is_within (partition_address bootfrom)
              (1024 * size_to_pages (length (bootfrom_record (slot_number s)))) (start + i)
            ≡ false =
          ground (arith, r, lo) in
        let kept =
          after-keeps (partition_address bootfrom) (bootfrom_record (slot_number s)) first_state
            (start + i) record-IsTarget outside in
        let put =
          after-programs start image u i image-IsTarget (region-AreBytes file _ _ file_bytes)
            (omega (arith, l, lt)) in
        let read =
          get_or-region file (start - flash_start) (target_size (slot_partition s)) i
            (omega (arith, size, lt)) in
        let place : u32 (start - flash_start + i) ≡ start + i - flash_start =
          omega (arith, lo, hi, lt) in
        subst (λ (a : ℕ). flash (a + i) ≡ view (a + i)) at (kept ∙ put ∙ read ∙ ap file place)

    active_lem : active_app flash ≡ slot_number s
    unfolding bootfrom_record
    active_lem =
        let put = λ (i : ℕ) (lt : i < 2048).
          after-programs (partition_address bootfrom) (bootfrom_record (slot_number s)) first_state
            i record-IsTarget (bootfrom_record-AreBytes (slot_number s)) (omega (arith, lt)) in
        let b0 : flash 134221828 ≡ u8 (slot_number s) = put 4 (omega arith) in
        let b1 : flash 134221829 ≡ u8 (slot_number s / 256) = put 5 (omega arith) in
        let b2 : flash 134221830 ≡ u8 (slot_number s / 65536) = put 6 (omega arith) in
        let b3 : flash 134221831 ≡ u8 (slot_number s / 16777216) = put 7 (omega arith) in
        rw (b0, b1, b2, b3) (whole s)
      where
        whole :
            (t : Slot)
            → word_of
                (u8 (slot_number t))
                (u8 (slot_number t / 256))
                (u8 (slot_number t / 65536))
                (u8 (slot_number t / 16777216))
              ≡ slot_number t
        whole slot_a = refl
        whole slot_b = refl

    named_lem : named_slot flash ≡ s
    named_lem = by_slot s active_lem
      where
        by_slot : (t : Slot) → active_app flash ≡ slot_number t → named_slot flash ≡ t
        by_slot slot_a e = rw (named_slot, e) refl
        by_slot slot_b e = rw (named_slot, e) refl

    known_lem : (w : ℕ) → 1 < 2 ^ w → active_app flash % 2 ^ w ≡ 0 → active_app flash ≡ 0
    known_lem w wide e = by_slot s active_lem
      where
        by_slot : (t : Slot) → active_app flash ≡ slot_number t → active_app flash ≡ 0
        by_slot slot_a a = a
        by_slot slot_b a = absurd (
            let one : 1 % 2 ^ w ≡ 1 = mod-eq_of_lt wide in
            let zero_mod : 1 % 2 ^ w ≡ 0 = ap (λ (k : ℕ). k % 2 ^ w) (sym a) ∙ e in
            omega (arith, one, zero_mod))

    boots_lem :
        (w : ℕ)
        → 1 < 2 ^ w
        → IsBootable view s
        → (slot_info view s).size_bytes ≤ 51200
        → boot_loader_main w flash ≡ some (start_of view s)
    boots_lem w wide b small =
        let (bootable, same) = IsBootable-agree s flash view agree_lem b small in
        Boots-named flash s (boot_loader_main w flash) named_lem bootable (
          boot_loader_main-Boots flash (λ k. fmc.byte-lt last_state.chip.flash k) w wide
            (known_lem w wide))
        ∙ ap (λ t. some t) same

    restart_lem :
        (v : Upgrade fmc)
        → (replies fmc garbage vectors old v (
            upgrade_callback fmc garbage vectors msg_id_restart_device
              (put_bool true ++ old)
              v)).1.1
          ≡ v
    unfolding upgrade_callback restart_device_cb
    restart_lem v = refl

    host_main_lem :
        (base : ℕ)
        → target_slot base ≡ s
        → host_main (device fmc garbage vectors old) base file u ≡ (true, last_state)
    unfolding host_main
    host_main_lem base e =
        let target : target_partition base ≡ slot_partition s =
          target_lem base ∙ ap slot_partition e in
        let number : active_number (slot_partition s) ≡ slot_number s = by_slot s in
        let first = perform_upgrade_lem fmc garbage vectors old start image u image-IsTarget in
        let second =
          perform_upgrade_lem fmc garbage vectors old (partition_address bootfrom)
            (bootfrom_record (slot_number s)) first_state record-IsTarget in
        let end = restart_lem last_state in rw (host_main, target, number, first, second, end) refl
      where
        by_slot : (t : Slot) → active_number (slot_partition t) ≡ slot_number t
        by_slot slot_a = refl
        by_slot slot_b = refl

-- If the file holds, at the place of the slot that the host chooses by the base address that the
-- device reports, a record and an application that can be started and fit the slot, and the
-- controller reports no error: then the host reports success, and the next time the boot loader
-- starts that application, as it stands in the file. The file holds bytes, and so does what stands
-- in the receiver's buffer behind a message; the enumeration of the slots has a bit at least.
pub host_main-boots :
    (fmc : Fmc) (garbage vectors : ℕ) (old : List ℕ) (base w : ℕ) (file : Memory) (u : Upgrade fmc)
    → NeverFails fmc
    → AreBytes old
    → ((a : ℕ) → file a < 256)
    → 1 < 2 ^ w
    → IsBootable (described file) (target_slot base)
    → (slot_info (described file) (target_slot base)).size_bytes ≤ 51200
    → (u' : Upgrade fmc) × (host_main (device fmc garbage vectors old) base file u ≡ (true, u'))
      × (boot_loader_main w (fmc.byte u'.chip.flash)
          ≡ some (start_of (described file) (target_slot base)))
host_main-boots fmc garbage vectors old base w file u ready old_bytes file_bytes wide b small = (
  last_state fmc garbage vectors old ready old_bytes (target_slot base) file file_bytes u,
  host_main_lem fmc garbage vectors old ready old_bytes (target_slot base) file file_bytes u base
      refl,
  boots_lem fmc garbage vectors old ready old_bytes (target_slot base) file file_bytes u w wide b
      small,
)
