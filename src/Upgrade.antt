-- ===== src/Upgrade.antt =====
-- src/upgrade.c and xlink/xlink_generator/xlink_upgrade.h: the messages of the upgrade component
-- as bytes, the static variables of src/upgrade.c as a record beside the chip, and its callbacks.
-- A message is little-endian and packed. `payload` is what a callback's pointer shows: the 250
-- bytes of the receiver's buffer.
pub mod Chunk
pub mod Chips
pub mod Session
pub mod Image
pub mod Guard
pub mod Init
pub mod Padded
use gd32c103_bootloader.Common.{
  ℕ, zero, suc, ◌+◌, ◌*◌, ◌/◌, ◌%◌, Bool, true, false, ◌==◌, ltb, if◌then◌else◌, List, [], ◌∷◌,
  ◌++◌, take, drop, replicate, length, get_or, u8, u16, u32, Option, none, some,
}
use gd32c103_bootloader.Crc.{xlink_init_crc16, xlink_crc16_with_init}
use gd32c103_bootloader.Flash.Controller.{Fmc}
use gd32c103_bootloader.Flash.{Chip, word_of, size_to_pages, fmc_erase_pages, fmc_program_data}
use gd32c103_bootloader.Boot.{AppInfo, app_info, partition_address, app_a_info, app_b_info}

-- The identifiers of the messages.
abbrev pub msg_id_get_firmware_info : ℕ
msg_id_get_firmware_info = 0

abbrev pub msg_id_firmware_info : ℕ
msg_id_firmware_info = 1

abbrev pub msg_id_start_firmware_upgrade : ℕ
msg_id_start_firmware_upgrade = 2

abbrev pub msg_id_start_firmware_upgrade_response : ℕ
msg_id_start_firmware_upgrade_response = 3

abbrev pub msg_id_firmware_chunk : ℕ
msg_id_firmware_chunk = 4

abbrev pub msg_id_firmware_chunk_response : ℕ
msg_id_firmware_chunk_response = 5

abbrev pub msg_id_finalize_firmware_upgrade : ℕ
msg_id_finalize_firmware_upgrade = 6

abbrev pub msg_id_finalize_firmware_upgrade_response : ℕ
msg_id_finalize_firmware_upgrade_response = 7

abbrev pub msg_id_restart_device : ℕ
msg_id_restart_device = 8

abbrev pub firmware_chunk_data_max_len : ℕ
firmware_chunk_data_max_len = 245

-- A `uint32_t` and a `bool` in a message, and a `uint32_t` read from one.
abbrev pub put_u32 : ℕ → List ℕ
put_u32 n = u8 n ∷ u8 (n / 256) ∷ u8 (n / 65536) ∷ u8 (n / 16777216) ∷ []

abbrev pub put_bool : Bool → List ℕ
put_bool b = (if b then 1 else 0) ∷ []

abbrev pub get_u32 : List ℕ → ℕ → ℕ
get_u32 payload i =
    word_of (get_or payload i 0) (get_or payload (i + 1) 0) (get_or payload (i + 2) 0)
      (get_or payload (i + 3) 0)

-- The messages of one byte.
abbrev pub get_firmware_info_payload : ℕ → List ℕ
get_firmware_info_payload required_partition = u8 required_partition ∷ []

abbrev pub start_firmware_upgrade_response_payload : Bool → List ℕ
start_firmware_upgrade_response_payload accepted = put_bool accepted

abbrev pub restart_device_payload : Bool → List ℕ
restart_device_payload success = put_bool success

-- The payloads that the sending functions pass to `xlink_send`, whose value they return.
unfoldable pub firmware_info_payload : ℕ → ℕ → ℕ → ℕ → ℕ → ℕ → List ℕ
firmware_info_payload partition_type version size_bytes commit_hash compile_timestamp base =
    partition_type ∷ put_u32 version
    ++ (put_u32 size_bytes ++ (put_u32 commit_hash ++ (put_u32 compile_timestamp ++ put_u32 base)))

unfoldable pub start_firmware_upgrade_payload : ℕ → ℕ → ℕ → List ℕ
start_firmware_upgrade_payload start_address size_bytes chunk_size =
    put_u32 start_address ++ (put_u32 size_bytes ++ put_u32 chunk_size)

-- Of a chunk that is too long nothing is sent.
unfoldable pub firmware_chunk_payload : ℕ → List ℕ → ℕ → Option (List ℕ)
firmware_chunk_payload offset bytes data_len =
    if ltb firmware_chunk_data_max_len data_len
    then none
    else some (put_u32 offset ++ (data_len ∷ take data_len bytes))

unfoldable pub firmware_chunk_response_payload : ℕ → Bool → List ℕ
firmware_chunk_response_payload offset accepted = put_u32 offset ++ put_bool accepted

unfoldable pub finalize_firmware_upgrade_payload : ℕ → List ℕ
finalize_firmware_upgrade_payload expected_crc32 = put_u32 expected_crc32

-- A call of `xlink_send` for the upgrade component: the identifier and the payload.
abbrev pub Sent : Type 0
Sent = ℕ × List ℕ

module _ (fmc : Fmc) where
  pub record Upgrade : Type 0 where
    pub start_address : ℕ
    pub size_bytes : ℕ
    pub chunk_size : ℕ
    pub check_crc32 : ℕ
    pub chip : Chip fmc

  -- How a callback ends: with 0 or another value returned and the messages it sent, with a read past
  -- the end of a message, or with the reset of the device.
  pub data Outcome : Type 0 where
    returned : ℕ → List Sent → Upgrade → Outcome
    fault : Outcome
    reset : Outcome

  abbrev bootloader_version : ℕ
  bootloader_version = 0x00010001

  abbrev bootloader_commit_hash : ℕ
  bootloader_commit_hash = 0x12345678

  abbrev bootloader_compile_timestamp : ℕ
  bootloader_compile_timestamp = 0x12345678

  -- -1 of `int`.
  abbrev pub minus_one : ℕ
  minus_one = 0xFFFFFFFF

  abbrev send_info : ℕ → ℕ → AppInfo → Upgrade → Outcome
  send_info partition_type vectors info u =
      returned 0
        ((
          msg_id_firmware_info,
          firmware_info_payload partition_type info.version info.size_bytes info.commit_hash
              info.compile_timestamp vectors,
        )
          ∷ [])
        u

  abbrev bootloader_info : AppInfo
  bootloader_info = record {
    magic_number = 0;
    version = bootloader_version;
    size_bytes = 0;
    commit_hash = bootloader_commit_hash;
    compile_timestamp = bootloader_compile_timestamp;
    app_checksum = 0;
  }

  -- `garbage` is what the variable `partition_type`, which the first case does not set, holds;
  -- `vectors` is the address of `__gVectors`.
  unfoldable pub get_firmware_info_cb : ℕ → ℕ → List ℕ → Upgrade → Outcome
  unfolding firmware_info_payload
  get_firmware_info_cb garbage vectors payload u =
      let required_partition = get_or payload 0 0 in
      let memory = fmc.byte u.chip.flash in
      if required_partition == 0
      then send_info garbage vectors bootloader_info u
      else if required_partition == 1
      then send_info 1 vectors (app_info memory (partition_address app_a_info)) u
      else if required_partition == 2
      then send_info 2 vectors (app_info memory (partition_address app_b_info)) u
      else returned minus_one [] u

  unfoldable pub start_firmware_upgrade_cb : List ℕ → Upgrade → Outcome
  unfolding fmc_erase_pages size_to_pages
  start_firmware_upgrade_cb payload u =
      let start_address = get_u32 payload 0 in
      let size_bytes = get_u32 payload 4 in
      returned 0
        ((msg_id_start_firmware_upgrade_response, start_firmware_upgrade_response_payload true)
          ∷ [])
        (record {
          start_address = start_address;
          size_bytes = size_bytes;
          chunk_size = get_u32 payload 8;
          check_crc32 = xlink_init_crc16;
          chip = fmc_erase_pages fmc start_address (size_to_pages size_bytes) u.chip;
        })

  abbrev chunk_response : ℕ → Bool → List Sent
  chunk_response offset accepted =
      (msg_id_firmware_chunk_response, firmware_chunk_response_payload offset accepted) ∷ []

  -- The program reads `data`, of 245 bytes, up to the length in the message.
  unfoldable pub firmware_chunk_cb : List ℕ → Upgrade → Outcome
  unfolding fmc_program_data firmware_chunk_response_payload xlink_crc16_with_init
  firmware_chunk_cb payload u =
      let offset = get_u32 payload 0 in
      let write_address = u32 (u.start_address + offset * u.chunk_size) in
      let write_size = get_or payload 4 0 in
      let bytes = drop 5 payload in
      if ltb (u32 (u.start_address + u.size_bytes)) (u32 (write_address + write_size))
      then returned minus_one (chunk_response offset false) u
      else if ltb firmware_chunk_data_max_len write_size
      then fault
      else returned 0 (chunk_response offset true) (record u {
        chip = (fmc_program_data fmc write_address bytes write_size u.chip).1;
        check_crc32 = xlink_crc16_with_init (take write_size bytes) (u16 u.check_crc32);
      })

  unfoldable pub finalize_firmware_upgrade_cb : List ℕ → Upgrade → Outcome
  finalize_firmware_upgrade_cb payload u =
      returned 0
        ((msg_id_finalize_firmware_upgrade_response, put_bool (get_u32 payload 0 == u.check_crc32))
          ∷ [])
        u

  unfoldable pub restart_device_cb : List ℕ → Upgrade → Outcome
  restart_device_cb payload u = reset

  -- The callback that `upgrade_init` registers for a message; other messages have none.
  unfoldable pub upgrade_callback : ℕ → ℕ → ℕ → List ℕ → Upgrade → Outcome
  unfolding get_firmware_info_cb start_firmware_upgrade_cb firmware_chunk_cb
      finalize_firmware_upgrade_cb restart_device_cb
  upgrade_callback garbage vectors msg_id payload u =
      if msg_id == msg_id_get_firmware_info
      then get_firmware_info_cb garbage vectors payload u
      else if msg_id == msg_id_start_firmware_upgrade
      then start_firmware_upgrade_cb payload u
      else if msg_id == msg_id_firmware_chunk
      then firmware_chunk_cb payload u
      else if msg_id == msg_id_finalize_firmware_upgrade
      then finalize_firmware_upgrade_cb payload u
      else if msg_id == msg_id_restart_device
      then restart_device_cb payload u
      else returned 0 [] u

  -- What is known after a callback: the messages sent so far, then those of the rest.
  abbrev pub sending : List Sent → Option (List Sent × Upgrade) → Option (List Sent × Upgrade)
  sending sent none = none
  sending sent (some (more, u)) = some (sent ++ more, u)

  -- Messages one after the other; the receiver ignores what a callback returns. `none` is a fault
  -- or a reset.
  unfoldable pub serve : ℕ → ℕ → List Sent → Upgrade → Option (List Sent × Upgrade)
  unfolding upgrade_callback
  serve garbage vectors [] u = some ([], u)
  serve garbage vectors ((msg_id, payload) ∷ rest) u =
      elim (upgrade_callback garbage vectors msg_id payload u) [
        | returned code sent u' ↦ sending sent (serve garbage vectors rest u')
        | fault ↦ none
        | reset ↦ none
      ]
