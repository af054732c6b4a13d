-- ===== src/Tasks/Device.antt =====
-- What the calls that `xlink_process_rx` of xlink/xlink.h makes do on the device: a call of a
-- handler, through its pointer, is a call of a callback of src/upgrade.c, which is given the
-- receiver's buffer.
pub mod Session
pub mod Received
use gd32c103_bootloader.Common.{ℕ, List, [], ◌∷◌, Option, none, some}
use gd32c103_bootloader.Flash.Controller.{Fmc}
use gd32c103_bootloader.Xlink.Context.{Call}
use gd32c103_bootloader.Upgrade.{
  Upgrade, Outcome, returned, fault, reset, Sent, sending, get_firmware_info_cb,
  start_firmware_upgrade_cb, firmware_chunk_cb, finalize_firmware_upgrade_cb, restart_device_cb,
}
use gd32c103_bootloader.Upgrade.Init.{
  Callback, Code, get_firmware_info, start_firmware_upgrade, firmware_chunk,
  finalize_firmware_upgrade, restart_device,
}

module _ (fmc : Fmc) (code : Code) (garbage vectors : ℕ) where
  -- A jump to what is no callback is a fault.
  unfoldable pub call_pointer : Option Callback → List ℕ → Upgrade fmc → Outcome fmc
  call_pointer none payload u = fault
  call_pointer (some get_firmware_info) payload u =
      get_firmware_info_cb fmc garbage vectors payload u
  call_pointer (some start_firmware_upgrade) payload u = start_firmware_upgrade_cb fmc payload u
  call_pointer (some firmware_chunk) payload u = firmware_chunk_cb fmc payload u
  call_pointer (some finalize_firmware_upgrade) payload u =
      finalize_firmware_upgrade_cb fmc payload u
  call_pointer (some restart_device) payload u = restart_device_cb fmc payload u

  -- Calls one after the other, whose values are not looked at; `none` is a fault or a reset.
  unfoldable pub run_calls : List Call → Upgrade fmc → Option (List Sent × Upgrade fmc)
  unfolding call_pointer
  run_calls [] u = some ([], u)
  run_calls ((h, m) ∷ rest) u = elim (call_pointer (code.at h.handler) m.payload u) [
    | returned value sent u' ↦ sending fmc sent (run_calls rest u')
    | fault ↦ none
    | reset ↦ none
  ]
