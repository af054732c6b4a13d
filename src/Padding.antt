-- ===== src/Padding.antt =====
-- src/app_padding.cpp: the program that makes the first image of the flash out of the boot loader,
-- an application for each slot, and parameters. A vector of bytes is a function from indices. Reading
-- the files and the options is an argument, and so are the numbers that sscanf, strtoul and mktime
-- make of them.
pub mod Boots
pub mod Program
use gd32c103_bootloader.Common.{
  ℕ, zero, suc, ◌+◌, ◌-◌, ◌*◌, ◌%◌, Bool, true, false, ◌||◌, ltb, if◌then◌else◌, List, [], ◌∷◌,
  length, get_or, Option, none, some, u8, u32,
}
use gd32c103_bootloader.Crc.{crc32_calculate}
use gd32c103_bootloader.Boot.{
  Memory, Partition, bootloader, bootfrom, app_a_info, app_a, app_b_info, app_b, params,
  partition_size, partition_magic_number, active_app_a, region,
}
use gd32c103_bootloader.Syscall.{store_word}

-- A file of the command line: not given, one that cannot be opened or read, or its bytes.
pub data Argument : Type 0 where
  no_path unreadable : Argument
  contents : List ℕ → Argument

-- The options of the command line; the version is what sscanf reads if it is given, the commit hash
-- what strtoul reads or 0, and the time is that of mktime.
pub record Options : Type 0 where
  pub loader : Argument
  pub appa : Argument
  pub appb : Argument
  pub params_file : Argument
  pub version : Option (ℕ × (ℕ × ℕ))
  pub commit_hash : ℕ
  pub time : ℕ

abbrev pub is_empty : Argument → Bool
is_empty no_path = true
is_empty unreadable = false
is_empty (contents l) = false

abbrev pub padded : List ℕ → Memory
padded l = λ i. if ltb i (length l) then get_or l i 0 else 0xFF

-- The data of a partition, 0xFF behind the bytes of the file; `none` where `main` returns -1. The size
-- is cast to 32 bits; the read past the vector by a file of 4 GB or more is not modelled.
unfoldable pub load : Argument → ℕ → Option Memory
load no_path size = some (λ i. 0xFF)
load unreadable size = none
load (contents l) size = if ltb size (u32 (length l)) then none else some (padded l)

-- The loop that sums the first bytes.
unfoldable pub sum_bytes : Memory → ℕ → ℕ
sum_bytes data_at zero = 0
sum_bytes data_at (suc n) = u32 (sum_bytes data_at n + data_at n)

-- The record of `BootFromInfo_def`.
unfoldable pub bootfrom_data : Memory → Memory
unfolding sum_bytes
bootfrom_data d =
    let named = store_word (store_word d 0 partition_magic_number) 4 active_app_a in
    let cleared = store_word named 36 0 in
    store_word cleared 36 (sum_bytes cleared (partition_size bootfrom - 4))

unfoldable pub version_number : Option (ℕ × (ℕ × ℕ)) → ℕ
version_number none = 0
version_number (some (major, (minor, patch))) = u8 major * 65536 + u8 minor * 256 + u8 patch

-- The record of `AppInfo_def` for an application that fills its partition.
unfoldable pub app_info_data : Options → Memory → ℕ → Memory → Memory
unfolding version_number
app_info_data o app size d =
    let with_magic = store_word d 0 partition_magic_number in
    let with_version = store_word with_magic 4 (version_number o.version) in
    let with_size = store_word with_version 8 size in
    let with_commit = store_word with_size 12 o.commit_hash in
    let with_checksum = store_word with_commit 20 (crc32_calculate (region app 0 size) 0) in
    store_word with_checksum 16 o.time

-- What is written to the file, in order: data and lengths.
abbrev pub Output : Type 0
Output = List (Memory × ℕ)

abbrev pub blank : Memory
blank = λ i. 0xFF

-- The partitions in order; parameters that were not given are left out.
unfoldable pub write_all : Options → Memory → Memory → Memory → Memory → Output
unfolding bootfrom_data app_info_data
write_all o loader appa appb parameters =
    (loader, partition_size bootloader)
    ∷ (bootfrom_data blank, partition_size bootfrom)
    ∷ (app_info_data o appa (partition_size app_a) blank, partition_size app_a_info)
    ∷ (appa, partition_size app_a)
    ∷ (app_info_data o appb (partition_size app_b) blank, partition_size app_b_info)
    ∷ (appb, partition_size app_b)
    ∷ (if is_empty o.params_file then [] else (parameters, partition_size params) ∷ [])

-- `main`; `none` where it returns -1.
unfoldable pub app_padding : Options → Option Output
unfolding load write_all
app_padding o =
    if is_empty o.loader || (is_empty o.appa || is_empty o.appb)
    then none
    else elim (load o.loader (partition_size bootloader)) [
      | none ↦ none
      | some loader ↦ elim (load o.appa (partition_size app_a)) [
        | none ↦ none
        | some appa ↦ elim (load o.appb (partition_size app_b)) [
          | none ↦ none
          | some appb ↦ elim (load o.params_file (partition_size params)) [
            | none ↦ none
            | some parameters ↦ some (write_all o loader appa appb parameters)
          ]
        ]
      ]
    ]

-- The byte at an offset of the file, 0 behind its end.
abbrev pub byte_at : Output → ℕ → ℕ
byte_at [] i = 0
byte_at (b ∷ l) i = if ltb i b.1 then b.0 i else byte_at l (i - b.1)
