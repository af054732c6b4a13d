-- ===== src/Tests/Upgraded.antt =====
-- The theorem on a whole run of the host.
use gd32c103_bootloader.Common.{◌+◌, ◌<◌, ◌≡◌, refl, arith, true, [], ◌∷◌}
use gd32c103_bootloader.Crc.Bitwise.{crc}
use gd32c103_bootloader.Crc.Register.{clocks}
use gd32c103_bootloader.Flash.Controller.{flash_start}
use gd32c103_bootloader.Boot.{Memory}
use gd32c103_bootloader.Boot.Select.{slot_b, slot_info, IsBootable}
use gd32c103_bootloader.Upgrade.{
  Sent, upgrade_callback, finalize_firmware_upgrade_cb, finalize_firmware_upgrade_payload,
}
use gd32c103_bootloader.Upgrade.Init.Dispatch.{upgrade_init-handlers}
use gd32c103_bootloader.Host.Whole.{described}
use gd32c103_bootloader.Host.Wire.{Ends, exchange}
use gd32c103_bootloader.Host.Simulation.{IsRequest}
use gd32c103_bootloader.Host.Wire.Steps.{IsLike}
use gd32c103_bootloader.Host.Wire.Boots.{exchange-refines}
use gd32c103_bootloader.Tests.Contexts.{small_context, waiting_rx-IsIdle}
use gd32c103_bootloader.Tests.Received.{linked, cells}
use gd32c103_bootloader.Tests.Simulated.{simulated}
use gd32c103_bootloader.Tests.Images.{slot_b_memory, fresh}

-- The file of an image whose second slot holds an application of four bytes.
abbrev pub full_firmware : Memory
full_firmware = λ a. slot_b_memory (a + flash_start)

pub full_firmware-IsBootable : IsBootable (described full_firmware) slot_b
unfolding crc clocks
full_firmware-IsBootable = (refl, refl)

full_firmware-fits : (slot_info (described full_firmware) slot_b).size_bytes < 51201
full_firmware-fits = omega arith

-- Both ends after their set-up.
abbrev set_up : Ends simulated linked 0 0
set_up = record {
  context = record small_context {
    registry = (upgrade_init-handlers linked 0x20000100 0x20002000 cells (omega arith)).0;
  };
  upgrade = fresh;
  host_rx = small_context.rx;
}

set_up-IsLike : IsLike simulated linked 0x20000100 0x20002000 cells 0 0 set_up fresh
set_up-IsLike = record {
  device = refl;
  has_handlers = (upgrade_init-handlers linked 0x20000100 0x20002000 cells (omega arith)).3;
  device_idle = waiting_rx-IsIdle;
  host_idle = waiting_rx-IsIdle;
}

abbrev end_request : Sent
end_request = (6, finalize_firmware_upgrade_payload 7)

exchange-refines_example :
    ((exchange simulated linked 0 0 end_request set_up).0 ≡ true)
    × ((exchange simulated linked 0 0 end_request set_up).1.0 ≡ (7, 0 ∷ []) ∷ [])
    × IsLike simulated linked 0x20000100 0x20002000 cells 0 0
        (exchange simulated linked 0 0 end_request set_up).1.1
        fresh
unfolding upgrade_callback finalize_firmware_upgrade_cb finalize_firmware_upgrade_payload
exchange-refines_example =
    exchange-refines simulated linked 0x20000100 0x20002000 cells 0 0 end_request set_up fresh
      (IsRequest.finalize 7) set_up-IsLike
