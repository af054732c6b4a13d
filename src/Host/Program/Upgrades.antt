-- ===== src/Host/Program/Upgrades.antt =====
-- The program upgrade.cpp from its options to the next start of the device.
use gd32c103_bootloader.Common.{
  ℕ, ◌^◌, ◌≤◌, ◌<◌, ◌≡◌, ◌≢◌, refl, ap, ◌∙◌, true, false, not, if◌then◌else◌, List, length, some,
}
use gd32c103_bootloader.Flash.Controller.{Fmc}
use gd32c103_bootloader.Flash.Erase.{NeverFails}
use gd32c103_bootloader.Boot.{boot_loader_main}
use gd32c103_bootloader.Boot.Select.{slot_info, IsBootable, start_of}
use gd32c103_bootloader.Xlink.Message.{xlink_max_payload}
use gd32c103_bootloader.Xlink.Receive.{Rx}
use gd32c103_bootloader.Xlink.Registry.{Registry}
use gd32c103_bootloader.Xlink.Registry.Linked.{AreDistinct}
use gd32c103_bootloader.Xlink.Context.{Context, PortStart, xlink_context_create}
use gd32c103_bootloader.Upgrade.{Upgrade, Sent, msg_id_get_firmware_info, get_firmware_info_payload}
use gd32c103_bootloader.Upgrade.Init.{Code, registrations, upgrade_init}
use gd32c103_bootloader.Upgrade.Init.Dispatch.{generous, places}
use gd32c103_bootloader.Host.{Line, target_partition, host_main}
use gd32c103_bootloader.Host.Whole.{described, target_slot}
use gd32c103_bootloader.Host.Wire.{Ends, wire}
use gd32c103_bootloader.Host.Wire.Steps.{IsLike}
use gd32c103_bootloader.Host.Wire.Boots.{host_main-like, set_up-IsLike}
use gd32c103_bootloader.Host.Program.{
  FirmwareInfo, Choice, Chosen, parse_options, go, nothing_chosen, File, World, reads_slot, ended,
  ask_version, upgrade_from, connected, program, is_short_of_paths,
}
use gd32c103_bootloader.Host.Program.Version.{ask_version_a, ask_version_b}

-- The message that asks for the version of a slot.
abbrev pub version_request : ℕ → Sent
version_request p = (msg_id_get_firmware_info, get_firmware_info_payload p)

module _ (line : Line) (world : World) where
  connected_lem :
      (o : Chosen) (i1 i2 : FirmwareInfo) (s s1 s2 : line.State)
      → ask_version line world 1 s ≡ (some i1, s1)
      → ask_version line world 2 s1 ≡ (some i2, s2)
      → connected line world o s
        ≡ (if o.is_show_info then ended 0 false s2 else upgrade_from line world o i1 s2)
  unfolding connected
  connected_lem o i1 i2 s s1 s2 asked1 asked2 =
      let info1 : (ask_version line world 1 s).0 ≡ some i1 = ap (λ r. r.0) asked1 in
      let left1 : (ask_version line world 1 s).1 ≡ s1 = ap (λ r. r.1) asked1 in
      let info2 : (ask_version line world 2 s1).0 ≡ some i2 = ap (λ r. r.0) asked2 in
      let left2 : (ask_version line world 2 s1).1 ≡ s2 = ap (λ r. r.1) asked2 in
      rw (connected, info1, left1, info2, left1, left2) refl

  upgrade_from_lem :
      (o : Chosen) (i : FirmwareInfo) (path : List ℕ) (f : File) (s s' : line.State)
      → o.file_path ≡ some path
      → world.opens_file path ≡ some f
      → host_main line i.current_base_address f.content s ≡ (true, s')
      → reads_slot f (target_partition i.current_base_address) ≡ true
      → upgrade_from line world o i s ≡ ended 0 true s'
  unfolding upgrade_from
  upgrade_from_lem o i path f s s' chosen opens run reads =
      rw (upgrade_from, chosen, opens, run, reads) refl

  program_lem :
      (choices : List Choice) (o : Chosen) (device : List ℕ) (s : line.State)
      → parse_options choices nothing_chosen ≡ go o
      → is_short_of_paths o ≡ false
      → o.device_path ≡ some device
      → world.opens_device device ≡ true
      → world.creates_context ≡ true
      → program line choices world s ≡ connected line world o s
  unfolding program
  program_lem choices o device s parsed enough chosen opens creates =
      rw (program, parsed, enough, chosen, opens)
        (ap (λ made. if not made then ended 0 false s else connected line world o s) creates)

module _ (fmc : Fmc) (code : Code) (address b : ℕ) (a : ℕ → ℕ) (garbage vectors : ℕ) where
  connected-upgrades :
      (world : World) (o : Chosen) (path : List ℕ) (f : File) (w : ℕ)
      (before : Ends fmc code garbage vectors) (u : Upgrade fmc)
      → IsLike fmc code address b a garbage vectors before u
      → world.registers ≡ true
      → o.is_show_info ≡ false
      → o.file_path ≡ some path
      → world.opens_file path ≡ some f
      → reads_slot f (target_partition vectors) ≡ true
      → vectors ≢ 0
      → vectors < 4294967296
      → NeverFails fmc
      → ((i : ℕ) → f.content i < 256)
      → 1 < 2 ^ w
      → IsBootable (described f.content) (target_slot vectors)
      → (slot_info (described f.content) (target_slot vectors)).size_bytes ≤ 51200
      → (ends : Ends fmc code garbage vectors) × (connected
            (wire fmc code garbage vectors)
            world
            o
            before
          ≡ ended 0 true ends)
        × (boot_loader_main w (fmc.byte ends.upgrade.chip.flash)
            ≡ some (start_of (described f.content) (target_slot vectors)))
  connected-upgrades world o path f w before u like registers show chosen opens reads ne small ready
        file_bytes wide bootable fits =
      let line = wire fmc code garbage vectors in
      let (i1, w1, asked1, base1, like1) =
        ask_version_a fmc code address b a garbage vectors world before u registers ne small like in
      let (i2, w2, asked2, base2, like2) =
        ask_version_b fmc code address b a garbage vectors world w1 u registers ne small like1 in
      let (ends, run, boots) =
        host_main-like fmc code address b a garbage vectors w2 vectors w f.content u like2 ready
          file_bytes wide bootable fits in
      let last =
        upgrade_from_lem line world o i1 path f w2 ends chosen opens
          (ap (λ base. host_main line base f.content w2) base1 ∙ run)
          (ap (λ base. reads_slot f (target_partition base)) base1 ∙ reads) in
      (
        ends,
        connected_lem line world o i1 i2 before w1 w2 asked1 asked2
            ∙ ap (λ shown. if shown then ended 0 false w2 else upgrade_from line world o i1 w2) show
            ∙ last,
        boots,
      )

  -- Both contexts are created, on ports that gave them buffers of 250 bytes, and `upgrade_init` was
  -- called on the device's, with the locks and the memory for its handlers, at different addresses.
  -- The options name a device and a file that open, in any order, and do not ask to show only; the
  -- host's context is created, and its handlers for the versions are registered. The device reports the address of its vectors, which is neither 0 nor beyond 32 bits, and the flash
  -- controller reports no error. The file can be read at the place of the slot that is then chosen,
  -- the one whose application does not start at that address, and holds there a record and an
  -- application that can be started and fit the slot. Then the program, over frames whose bytes
  -- arrive as they were sent, reports success and returns 0, and the next time the boot loader starts
  -- that application, as it stands in the file. The file holds bytes; the enumeration of the slots
  -- has a bit at least.
  pub program-upgrades :
      (host_port device_port : PortStart) (host_fresh device_fresh : Rx) (h d : Context)
      (choices : List Choice) (world : World) (device path : List ℕ) (f : File) (w : ℕ)
      (u : Upgrade fmc)
      → length host_fresh.rx_msg.payload ≡ xlink_max_payload
      → length device_fresh.rx_msg.payload ≡ xlink_max_payload
      → xlink_context_create host_port host_fresh ≡ some h
      → xlink_context_create device_port device_fresh ≡ some d
      → AreDistinct (places a registrations)
      → parse_options choices nothing_chosen
        ≡ go (record { device_path = some device; file_path = some path; is_show_info = false })
      → world.opens_device device ≡ true
      → world.creates_context ≡ true
      → world.registers ≡ true
      → world.opens_file path ≡ some f
      → reads_slot f (target_partition vectors) ≡ true
      → vectors ≢ 0
      → vectors < 4294967296
      → NeverFails fmc
      → ((i : ℕ) → f.content i < 256)
      → 1 < 2 ^ w
      → IsBootable (described f.content) (target_slot vectors)
      → (slot_info (described f.content) (target_slot vectors)).size_bytes ≤ 51200
      → (registry : Registry) × (ends : Ends fmc code garbage vectors) × (upgrade_init code address
            (generous b a)
            d.registry
          ≡ some registry)
        × (program
              (wire fmc code garbage vectors)
              choices
              world
              (record { context = record d { registry = registry }; upgrade = u; host_rx = h.rx })
            ≡ ended 0 true ends)
        × (boot_loader_main w (fmc.byte ends.upgrade.chip.flash)
            ≡ some (start_of (described f.content) (target_slot vectors)))
  program-upgrades hp dp hf df h d choices world device path f w u hb db hm dm distinct parsed
        device_opens creates registers opens reads ne small ready file_bytes wide bootable fits =
      let (registry, init, like) =
        set_up-IsLike fmc code address b a garbage vectors hp dp hf df h d u hb db hm dm distinct in
      let o : Chosen = record {
        device_path = some device;
        file_path = some path;
        is_show_info = false;
      } in
      let (ends, run, boots) =
        connected-upgrades world o path f w _ u like registers refl refl opens reads ne small ready
          file_bytes wide bootable fits in
      (
        registry,
        ends,
        init,
        program_lem (wire fmc code garbage vectors) world choices o device _ parsed refl refl
              device_opens creates
            ∙ run,
        boots,
      )
