-- ===== src/Host/Program.antt =====
-- The rest of `main` of upgrade.cpp, from its options on, and `get_mcu_firmware_version`. What
-- getopt_long found, the opening of the device and of the file, and the creation of the context are
-- arguments.
pub mod Version
pub mod Upgrades
use gd32c103_bootloader.Common.{
  ℕ, zero, suc, ◌+◌, ◌-◌, Bool, true, false, not, ◌&&◌, ◌||◌, ◌==◌, leb, if◌then◌else◌, List, [],
  ◌∷◌, length, get_or, Option, none, some,
}
use gd32c103_bootloader.Boot.{Memory, Partition, bootloader, partition_address}
use gd32c103_bootloader.Upgrade.{
  Sent, get_u32, get_firmware_info_payload, msg_id_get_firmware_info, msg_id_firmware_info,
}
use gd32c103_bootloader.Host.{Line, target_partition, target_address, target_size, host_main}

-- `xlink_upgrade_firmware_info_t`, and how it is read from a payload of its size.
pub record FirmwareInfo : Type 0 where
  pub partition_type : ℕ
  pub version : ℕ
  pub size_bytes : ℕ
  pub commit_hash : ℕ
  pub compile_timestamp : ℕ
  pub current_base_address : ℕ

abbrev pub firmware_info_size : ℕ
firmware_info_size = 21

unfoldable pub read_info : List ℕ → FirmwareInfo
read_info payload = record {
  partition_type = get_or payload 0 0;
  version = get_u32 payload 1;
  size_bytes = get_u32 payload 5;
  commit_hash = get_u32 payload 9;
  compile_timestamp = get_u32 payload 13;
  current_base_address = get_u32 payload 17;
}

-- The handler, which writes to `out_info`, for a message, and for those of some time.
unfoldable pub on_info : Sent → FirmwareInfo → FirmwareInfo
unfolding read_info
on_info (msg_id, payload) out =
    if msg_id == msg_id_firmware_info && length payload == firmware_info_size
    then read_info payload
    else out

unfoldable pub on_all : List Sent → FirmwareInfo → FirmwareInfo
unfolding on_info
on_all [] out = out
on_all (m ∷ ms) out = on_all ms (on_info m out)

-- The loop with `timeout` rounds of 10 milliseconds to go, of which `came k` are the messages of
-- number `k`.
unfoldable pub wait_info : ℕ → ℕ → (ℕ → List Sent) → FirmwareInfo → FirmwareInfo
unfolding on_all
wait_info zero k came out = out
wait_info (suc timeout) k came out = elim (out.current_base_address == 0) [
  | true ↦ wait_info timeout (k + 1) came (on_all (came k) out)
  | false ↦ out
]

-- `out_info` for 0, and `none` for -1, once the handler is registered. `fresh` is what `out_info` held
-- before.
unfoldable pub get_mcu_firmware_version : FirmwareInfo → (ℕ → List Sent) → Option FirmwareInfo
unfolding wait_info
get_mcu_firmware_version fresh came =
    let out = wait_info 100 1 came (on_all (came 0) (record fresh { current_base_address = 0 })) in
    if out.current_base_address == 0 then none else some out

-- The options, in their order, with a path as its characters.
pub data Choice : Type 0 where
  help show other : Choice
  device file : List ℕ → Choice

pub record Chosen : Type 0 where
  pub device_path : Option (List ℕ)
  pub file_path : Option (List ℕ)
  pub is_show_info : Bool

-- The program returns at once, or goes on.
pub data Parsed : Type 0 where
  stop : ℕ → Parsed
  go : Chosen → Parsed

abbrev pub minus_one : ℕ
minus_one = 0xFFFFFFFF

unfoldable pub parse_options : List Choice → Chosen → Parsed
parse_options [] o = go o
parse_options (help ∷ l) o = stop 0
parse_options (other ∷ l) o = stop minus_one
parse_options (show ∷ l) o = parse_options l (record o { is_show_info = true })
parse_options (device path ∷ l) o = parse_options l (record o { device_path = some path })
parse_options (file path ∷ l) o = parse_options l (record o { file_path = some path })

abbrev pub nothing_chosen : Chosen
nothing_chosen = record { device_path = none; file_path = none; is_show_info = false }

-- A file: its bytes, how many there are, and whether lseek works on it.
pub record File : Type 0 where
  pub content : Memory
  pub size : ℕ
  pub seeks : Bool

pub record World : Type 0 where
  pub opens_device : List ℕ → Bool
  pub opens_file : List ℕ → Option File
  pub creates_context : Bool
  pub registers : Bool
  pub fresh_info : FirmwareInfo

-- Whether the constructor of `upgrade_partition` reads the whole of a slot.
unfoldable pub reads_slot : File → Partition → Bool
reads_slot f target =
    f.seeks
    && leb (target_address target - partition_address bootloader + target_size target) f.size

abbrev pub is_missing : Option (List ℕ) → Bool
is_missing none = true
is_missing (some path) = false

abbrev pub is_short_of_paths : Chosen → Bool
is_short_of_paths o = not o.is_show_info && (is_missing o.device_path || is_missing o.file_path)

module _ (line : Line) where
  open line use {State, exchange}

  -- The value of `main`, whether it reported success, and the line; or the use of a pointer that is
  -- NULL, or of data that were not read.
  pub data Ended : Type 0 where
    ended : ℕ → Bool → State → Ended
    fault : Ended

  -- What comes back in time comes in the first 10 milliseconds.
  unfoldable pub ask_version : World → ℕ → State → Option FirmwareInfo × State
  unfolding get_mcu_firmware_version
  ask_version world partition_type s =
      let (was_sent, (replies, s')) =
        exchange (msg_id_get_firmware_info, get_firmware_info_payload partition_type) s in
      let came : ℕ → List Sent = λ k. if k == 0 && was_sent then replies else [] in
      if world.registers then (get_mcu_firmware_version world.fresh_info came, s') else (none, s)

  -- From the file on.
  unfoldable pub upgrade_from : World → Chosen → FirmwareInfo → State → Ended
  unfolding reads_slot host_main
  upgrade_from world o app_a_info s = elim o.file_path [
    | none ↦ fault
    | some path ↦ elim (world.opens_file path) [
      | none ↦ ended 0 false s
      | some f ↦
          (let (ret, s') = host_main line app_a_info.current_base_address f.content s in
            if reads_slot f (target_partition app_a_info.current_base_address)
            then ended 0 ret s'
            else fault)
    ]
  ]

  -- From the opened device on.
  unfoldable pub connected : World → Chosen → State → Ended
  unfolding ask_version upgrade_from
  connected world o s =
      let (app_a_info, s1) = ask_version world 1 s in
      let (app_b_info, s2) = ask_version world 2 s1 in
      elim app_a_info [
        | none ↦ ended 0 false s2
        | some a ↦ elim app_b_info [
          | none ↦ ended 0 false s2
          | some b ↦ if o.is_show_info then ended 0 false s2 else upgrade_from world o a s2
        ]
      ]

  unfoldable pub program : List Choice → World → State → Ended
  unfolding parse_options connected
  program choices world s = elim (parse_options choices nothing_chosen) [
    | stop code ↦ ended code false s
    | go o ↦ if is_short_of_paths o then ended minus_one false s else elim o.device_path [
      | none ↦ fault
      | some path ↦
          if not (world.opens_device path)
          then ended 1 false s
          else if not world.creates_context
          then ended 0 false s
          else connected world o s
    ]
  ]
