-- ===== src/Boot.antt =====
-- inc/partition.h and src/boot_loader_main.c: the partitions of the flash, the records that stand
-- in them, the check of an application and the start of one. The memory is a function from
-- addresses to bytes; that a bus fault stops a read of an address without memory is not modelled.
pub mod Layout
pub mod Select
use gd32c103_bootloader.Common.{
  ℕ, zero, suc, ◌+◌, ◌*◌, ◌%◌, ◌^◌, Bool, true, false, not, ◌==◌, if◌then◌else◌, List, [], ◌∷◌, u32,
  Option, none, some,
}
use gd32c103_bootloader.Crc.{crc32_calculate}
use gd32c103_bootloader.Flash.{word_of}

pub data Partition : Type 0 where
  bootloader : Partition
  bootfrom : Partition
  app_a_info : Partition
  app_a : Partition
  app_b_info : Partition
  app_b : Partition
  params : Partition

abbrev pub partition_size : Partition → ℕ
partition_size bootloader = 4 * 1024
partition_size bootfrom = 2 * 1024
partition_size app_a_info = 2 * 1024
partition_size app_a = 50 * 1024
partition_size app_b_info = 2 * 1024
partition_size app_b = 50 * 1024
partition_size params = 18 * 1024

-- The enumerators of `PartitionAddress`, each the end of the one before.
abbrev partition_address_bootloader : ℕ
partition_address_bootloader = 0x08000000

abbrev partition_address_bootfrom : ℕ
partition_address_bootfrom = partition_address_bootloader + partition_size bootloader

abbrev partition_address_app_a_info : ℕ
partition_address_app_a_info = partition_address_bootfrom + partition_size bootfrom

abbrev partition_address_app_a : ℕ
partition_address_app_a = partition_address_app_a_info + partition_size app_a_info

abbrev partition_address_app_b_info : ℕ
partition_address_app_b_info = partition_address_app_a + partition_size app_a

abbrev partition_address_app_b : ℕ
partition_address_app_b = partition_address_app_b_info + partition_size app_b_info

abbrev partition_address_params : ℕ
partition_address_params = partition_address_app_b + partition_size app_b

abbrev pub partition_address : Partition → ℕ
partition_address bootloader = partition_address_bootloader
partition_address bootfrom = partition_address_bootfrom
partition_address app_a_info = partition_address_app_a_info
partition_address app_a = partition_address_app_a
partition_address app_b_info = partition_address_app_b_info
partition_address app_b = partition_address_app_b
partition_address params = partition_address_params

abbrev pub partition_magic_number : ℕ
partition_magic_number = 0xDEADBEEF

abbrev pub active_app_a : ℕ
active_app_a = 0

abbrev pub Memory : Type 0
Memory = ℕ → ℕ

-- A 32-bit field of a packed structure.
abbrev pub word_at : Memory → ℕ → ℕ
word_at m a = word_of (m a) (m (a + 1)) (m (a + 2)) (m (a + 3))

-- The fields of `AppInfo_def` that the programs read.
pub record AppInfo : Type 0 where
  pub magic_number : ℕ
  pub version : ℕ
  pub size_bytes : ℕ
  pub commit_hash : ℕ
  pub compile_timestamp : ℕ
  pub app_checksum : ℕ

abbrev pub app_info : Memory → ℕ → AppInfo
app_info m a = record {
  magic_number = word_at m a;
  version = word_at m (a + 4);
  size_bytes = word_at m (a + 8);
  commit_hash = word_at m (a + 12);
  compile_timestamp = word_at m (a + 16);
  app_checksum = word_at m (a + 20);
}

-- The bytes that a loop from an address reads.
abbrev pub region : Memory → ℕ → ℕ → List ℕ
region m a zero = []
region m a (suc n) = m (u32 a) ∷ region m (a + 1) n

-- Where an application and its record begin.
abbrev pub app_address : ℕ → ℕ
app_address app = if app == active_app_a then partition_address app_a else partition_address app_b

abbrev pub info_address : ℕ → ℕ
info_address app =
    if app == active_app_a then partition_address app_a_info else partition_address app_b_info

-- The program returns 0 or -1.
unfoldable pub check_app_valid : Memory → ℕ → Bool
check_app_valid m app =
    let info = app_info m (info_address app) in
    let sum = crc32_calculate (region m (app_address app) info.size_bytes) 0 in
    if not (info.magic_number == partition_magic_number)
    then false
    else if not (sum == info.app_checksum)
    then false
    else true

-- What the processor is given when an application starts.
pub record Start : Type 0 where
  pub msp : ℕ
  pub vtor : ℕ
  pub entry : ℕ
  pub interrupts : Bool

-- `none` where the function returns.
unfoldable pub jump_to_app : Memory → ℕ → Option Start
unfolding check_app_valid
jump_to_app m app =
    if not (check_app_valid m app)
    then none
    else some (record {
      msp = word_at m (app_address app);
      vtor = app_address app;
      entry = word_at m (app_address app + 4);
      interrupts = false;
    })

-- The field of `BootFromInfo_def` that is read.
abbrev pub active_app : Memory → ℕ
active_app m = word_at m (partition_address bootfrom + 4)

-- `main`, for a compiler whose `enum ActiveApp` has `w` bits; `none` where it loops forever.
unfoldable pub boot_loader_main : ℕ → Memory → Option Start
unfolding jump_to_app
boot_loader_main w m =
    let other = if active_app m == 0 then 1 else 0 in
    elim (jump_to_app m (active_app m % 2 ^ w)) [
      | some start ↦ some start
      | none ↦ jump_to_app m (other % 2 ^ w)
    ]
