-- ===== src/Boot/Layout.antt =====
-- The partitions of inc/partition.h on the flash.
use gd32c103_bootloader.Common.{ℕ, ◌%◌, ◌≤◌, ◌<◌, ◌≡◌, refl, arith, true, ltb, if◌then◌else◌}
use gd32c103_bootloader.Flash.Controller.{flash_start, flash_end, is_within}
use gd32c103_bootloader.Boot.{
  Partition, bootloader, bootfrom, app_a_info, app_a, app_b_info, app_b, params, partition_size,
  partition_address,
}

-- That an address lies in a partition.
abbrev pub IsIn : Partition → ℕ → Type 0
IsIn p a = is_within (partition_address p) (partition_size p) a ≡ true

-- The partition of an address of the main flash, found by comparing with the ends in order.
abbrev pub partition_of : ℕ → Partition
partition_of a =
    if ltb a (partition_address bootfrom)
    then bootloader
    else if ltb a (partition_address app_a_info)
    then bootfrom
    else if ltb a (partition_address app_a)
    then app_a_info
    else if ltb a (partition_address app_b_info)
    then app_a
    else if ltb a (partition_address app_b)
    then app_b_info
    else if ltb a (partition_address params)
    then app_b
    else params

partition_of-IsIn : (a : ℕ) → flash_start ≤ a → a < flash_end → IsIn (partition_of a) a
partition_of-IsIn a h l = ground arith

partition_of_unique : (p : Partition) (a : ℕ) → IsIn p a → p ≡ partition_of a
partition_of_unique bootloader a h = ground arith
partition_of_unique bootfrom a h = ground arith
partition_of_unique app_a_info a h = ground arith
partition_of_unique app_a a h = ground arith
partition_of_unique app_b_info a h = ground arith
partition_of_unique app_b a h = ground arith
partition_of_unique params a h = ground arith

-- The partitions tile the main flash: every address of it lies in one and in no other, and every
-- partition is made of whole pages.
pub partitions_tile :
    (a : ℕ)
    → flash_start ≤ a
    → a < flash_end
    → ((p : Partition) × (IsIn p a × ((q : Partition) → IsIn q a → q ≡ p)))
      × ((p : Partition) → (partition_address p % 1024 ≡ 0) × (partition_size p % 1024 ≡ 0))
partitions_tile a h l =
    ((partition_of a, (partition_of-IsIn a h l, λ q i. partition_of_unique q a i)), whole)
  where
    whole : (p : Partition) → (partition_address p % 1024 ≡ 0) × (partition_size p % 1024 ≡ 0)
    whole bootloader = (refl, refl)
    whole bootfrom = (refl, refl)
    whole app_a_info = (refl, refl)
    whole app_a = (refl, refl)
    whole app_b_info = (refl, refl)
    whole app_b = (refl, refl)
    whole params = (refl, refl)
