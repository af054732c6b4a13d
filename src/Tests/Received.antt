-- ===== src/Tests/Received.antt =====
-- The theorems on `upgrade_init` and on the frames of an upgrade.
use gd32c103_bootloader.Common.{
  ℕ, zero, suc, ◌+◌, ◌*◌, ◌/◌, ◌≡◌, ◌≢◌, refl, arith, List, [], ◌∷◌, length, take, Option, some,
}
use gd32c103_bootloader.Boot.{region}
use gd32c103_bootloader.Xlink.Message.{xlink_sof}
use gd32c103_bootloader.Xlink.Receive.{Rx}
use gd32c103_bootloader.Xlink.Receive.Stream.{Item, packet, noise, on_line, IsIdle}
use gd32c103_bootloader.Xlink.Registry.{Registry, dispatch}
use gd32c103_bootloader.Xlink.Registry.Comps.{IsValid}
use gd32c103_bootloader.Xlink.Context.{Call, xlink_context_create, process_all}
use gd32c103_bootloader.Upgrade.{Upgrade, Sent}
use gd32c103_bootloader.Upgrade.Init.{
  Callback, Code, get_firmware_info, start_firmware_upgrade, firmware_chunk,
  finalize_firmware_upgrade, restart_device, upgrade_init,
}
use gd32c103_bootloader.Upgrade.Init.Dispatch.{
  generous, no_handlers, callback_alone, upgrade_init-dispatch,
}
use gd32c103_bootloader.Upgrade.Image.{session, answers}
use gd32c103_bootloader.Tasks.Device.{run_calls}
use gd32c103_bootloader.Tasks.Device.Session.{upgrade_packet}
use gd32c103_bootloader.Tasks.Device.Received.{process_all-upgrades}
use gd32c103_bootloader.Tests.Simulated.{simulated}
use gd32c103_bootloader.Tests.Images.{image, fresh, always_ready}
use gd32c103_bootloader.Tests.Contexts.{small_port, small_context, waiting_rx, filled_buffer}

abbrev pub place : Callback → ℕ
place get_firmware_info = 0
place start_firmware_upgrade = 1
place firmware_chunk = 2
place finalize_firmware_upgrade = 3
place restart_device = 4

abbrev pub found : ℕ → Option Callback
found zero = some get_firmware_info
found (suc zero) = some start_firmware_upgrade
found (suc (suc zero)) = some firmware_chunk
found (suc (suc (suc zero))) = some finalize_firmware_upgrade
found (suc (suc (suc (suc n)))) = some restart_device

pub found-place : (c : Callback) → found (place c) ≡ some c
found-place get_firmware_info = refl
found-place start_firmware_upgrade = refl
found-place firmware_chunk = refl
found-place finalize_firmware_upgrade = refl
found-place restart_device = refl

abbrev pub linked : Code
linked = record { address = place; at = found; at-address = found-place }

abbrev pub cells : ℕ → ℕ
cells msg_id = 0x20003000 + 16 * msg_id

upgrade_init-dispatch_example :
    (r : Registry) × (upgrade_init linked 0x20000100 (generous 0x20002000 cells) no_handlers
      ≡ some r)
    × IsValid r
    × ((comp_id msg_id : ℕ)
        → dispatch r comp_id msg_id
          ≡ callback_alone linked 0x20000100 0x20002000 cells comp_id msg_id)
upgrade_init-dispatch_example =
    upgrade_init-dispatch linked 0x20000100 0x20002000 cells (omega arith)

-- The frames of an upgrade, with a stray byte before each.
abbrev framed : List Sent → List Item
framed [] = []
framed (s ∷ l) = noise 7 ∷ packet (upgrade_packet s) ∷ framed l

abbrev messages : List Sent
messages = session 0x08002000 4 (λ j. []) [] image

stray : 7 ≢ xlink_sof
stray e = absurd (omega (arith, e))

process_all-upgrades_example :
    (registry : Registry) × (calls : List Call) × (after : Rx) × (u' : Upgrade simulated)
    × (upgrade_init linked 0x20000100 (generous 0x20002000 cells) small_context.registry
        ≡ some registry)
    × (process_all (record small_context { registry = registry }) (on_line (framed messages))
        ≡ some (calls, record { rx = after; registry = registry }))
    × (run_calls simulated linked 0 0 calls fresh
        ≡ some (answers simulated 0x08002000 4 (λ j. []) 0 0 image [], u'))
    × (region (simulated.byte u'.chip.flash) 0x08002000 (4 * (length image / 4))
        ≡ take (4 * (length image / 4)) image)
    × IsIdle after
unfolding session xlink_context_create
process_all-upgrades_example =
    process_all-upgrades linked 0x20000100 0x20002000 cells simulated 0 0 0x08002000 4 image
      (omega arith) (omega arith) small_port waiting_rx small_context (framed messages) fresh
      (filled_buffer 250 0) refl (omega arith)
      (
        stray,
        (
          omega arith,
          (
            stray,
            (
              omega arith,
              (stray, (omega arith, (stray, (omega arith, (stray, (omega arith, tt)))))),
            ),
          ),
        ),
      )
      refl always_ready (omega arith)
