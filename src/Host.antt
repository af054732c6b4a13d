-- ===== src/Host.antt =====
-- The class `upgrade_partition` and `main` of upgrade.cpp. The serial line with the device at its end
-- is a parameter: a request is sent or not, and then the messages come that the receiving thread
-- passes on within the five seconds that the program waits. That the handlers are registered, which
-- needs memory, is taken for granted, and so is that the files are read.
pub mod Device
pub mod Simulation
pub mod Wire
pub mod Program
pub mod Slots
pub mod Whole
use gd32c103_bootloader.Common.{
  ℕ, zero, suc, ◌+◌, ◌-◌, Bool, true, false, not, ◌&&◌, ◌||◌, ◌==◌, if◌then◌else◌, List, [], ◌∷◌,
  ◌++◌, length, get_or, take, drop, replicate, Option, none, some, u8,
}
use gd32c103_bootloader.Crc.{xlink_init_crc16, xlink_crc16_with_init}
use gd32c103_bootloader.Boot.{
  Memory, Partition, bootloader, bootfrom, app_a_info, app_a, app_b_info, app_b, partition_size,
  partition_address, partition_magic_number, region,
}
use gd32c103_bootloader.Upgrade.{
  Sent, put_u32, restart_device_payload, firmware_chunk_payload, start_firmware_upgrade_payload,
  finalize_firmware_upgrade_payload, msg_id_start_firmware_upgrade,
  msg_id_start_firmware_upgrade_response, msg_id_firmware_chunk, msg_id_firmware_chunk_response,
  msg_id_finalize_firmware_upgrade, msg_id_finalize_firmware_upgrade_response,
  msg_id_restart_device,
}

-- A line in some state takes a request, and gives whether it was sent, and what came back in time.
pub record Line : Type 1 where
  pub State : Type 0
  pub exchange : Sent → State → Bool × (List Sent × State)

-- What the handler of a response accepts: the length of its structure, and a flag that is set.
pub record Expected : Type 0 where
  pub msg_id : ℕ
  pub payload_len : ℕ
  pub flag_at : ℕ

unfoldable pub is_accepted : Expected → Sent → Bool
is_accepted e (msg_id, payload) =
    msg_id == e.msg_id && (length payload == e.payload_len && not (get_or payload e.flag_at 0 == 0))

unfoldable pub any_accepted : Expected → List Sent → Bool
unfolding is_accepted
any_accepted e [] = false
any_accepted e (m ∷ ms) = is_accepted e m || any_accepted e ms

abbrev pub start_expected : Expected
start_expected = record {
  msg_id = msg_id_start_firmware_upgrade_response;
  payload_len = 1;
  flag_at = 0;
}

abbrev pub chunk_expected : Expected
chunk_expected = record { msg_id = msg_id_firmware_chunk_response; payload_len = 5; flag_at = 4 }

abbrev pub finalize_expected : Expected
finalize_expected = record {
  msg_id = msg_id_finalize_firmware_upgrade_response;
  payload_len = 1;
  flag_at = 0;
}

abbrev pub host_chunk_size : ℕ
host_chunk_size = 200

-- The bytes of the record that `main` sends, 0xFF behind them.
unfoldable pub bootfrom_record : ℕ → List ℕ
bootfrom_record active =
    put_u32 partition_magic_number
    ++ (put_u32 active ++ (replicate 32 0 ++ replicate (partition_size bootfrom - 40) 0xFF))

-- Which slot is upgraded, by the base address that the device reports.
unfoldable pub target_partition : ℕ → Partition
target_partition current_base_address =
    if current_base_address == partition_address app_a then app_b else app_a

-- `start_address` and `size_bytes` of the constructor for a slot, and the enumerator of the record.
abbrev pub target_address : Partition → ℕ
target_address app_b = partition_address app_b_info
target_address _ = partition_address app_a_info

abbrev pub target_size : Partition → ℕ
target_size app_b = partition_size app_b + partition_size app_b_info
target_size _ = partition_size app_a + partition_size app_a_info

abbrev pub active_number : Partition → ℕ
active_number app_b = 1
active_number _ = 0

module _ (line : Line) where
  open line use {State, exchange}

  -- A request and the wait for its response; the program's `ret` is 0 for true.
  unfoldable pub ask : Sent → Expected → State → Bool × State
  unfolding any_accepted
  ask request e s =
      let (was_sent, (replies, s')) = exchange request s in
      (if was_sent then any_accepted e replies else false, s')

  unfoldable pub send_start_upgrade : ℕ → ℕ → State → Bool × State
  unfolding ask
  send_start_upgrade start size s =
      ask (msg_id_start_firmware_upgrade, start_firmware_upgrade_payload start size host_chunk_size)
        start_expected s

  -- Also the running checksum, which counts what was accepted.
  unfoldable pub send_firmware_chunk : ℕ → List ℕ → ℕ → State → Bool × (ℕ × State)
  unfolding ask
  send_firmware_chunk offset bytes crc16 s =
      elim (firmware_chunk_payload offset bytes (u8 (length bytes))) [
        | none ↦ (false, (crc16, s))
        | some payload ↦
            (let (ret, s') = ask (msg_id_firmware_chunk, payload) chunk_expected s in
              (ret, (if ret then xlink_crc16_with_init bytes crc16 else crc16, s')))
      ]

  unfoldable pub send_finalize_upgrade : ℕ → State → Bool × State
  unfolding ask
  send_finalize_upgrade crc16 s =
      ask (msg_id_finalize_firmware_upgrade, finalize_firmware_upgrade_payload crc16)
        finalize_expected s

  -- The loop over the rest of the data from a chunk on; the length of the data is fuel enough.
  unfoldable pub send_chunks : ℕ → ℕ → List ℕ → ℕ → State → Bool × (ℕ × State)
  unfolding send_firmware_chunk
  send_chunks zero offset rest crc16 s = (true, (crc16, s))
  send_chunks (suc left) offset [] crc16 s = (true, (crc16, s))
  send_chunks (suc left) offset (x ∷ rest) crc16 s =
      let (ret, (crc16', s')) =
        send_firmware_chunk offset (take host_chunk_size (x ∷ rest)) crc16 s in
      let others = send_chunks left (offset + 1) (drop host_chunk_size (x ∷ rest)) crc16' s' in
      if ret then others else (false, (crc16', s'))

  -- `perform_upgrade`, true for 0 and false for -1.
  unfoldable pub perform_upgrade : ℕ → List ℕ → State → Bool × State
  unfolding send_start_upgrade send_chunks send_finalize_upgrade
  perform_upgrade start data_bytes s =
      let (started, s1) = send_start_upgrade start (length data_bytes) s in
      let (uploaded, (crc16, s2)) =
        send_chunks (length data_bytes) 0 data_bytes xlink_init_crc16 s1 in
      let finished = send_finalize_upgrade crc16 s2 in
      if not started then (false, s1) else if not uploaded then (false, s2) else finished

  -- `main` from the choice of the slot on; true if it reports success. The image file is read from
  -- the place of the slot on.
  unfoldable pub host_main : ℕ → Memory → State → Bool × State
  unfolding perform_upgrade target_partition bootfrom_record
  host_main current_base_address file s =
      let target = target_partition current_base_address in
      let image =
        region file (target_address target - partition_address bootloader) (target_size target) in
      let (uploaded, s1) = perform_upgrade (target_address target) image s in
      let (named, s2) =
        perform_upgrade (partition_address bootfrom) (bootfrom_record (active_number target)) s1 in
      let (was_sent, (replies, s3)) =
        exchange (msg_id_restart_device, restart_device_payload true) s2 in
      if not uploaded then (false, s1) else if not named then (false, s2) else (true, s3)
