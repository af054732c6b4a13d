-- ===== src/Upgrade/Init.antt =====
-- `upgrade_init` of src/upgrade.c: the handlers of the upgrade component.
pub mod Dispatch
use gd32c103_bootloader.Common.{ℕ, ◌≡◌, Bool, true, List, [], ◌∷◌, Option, none, some}
use gd32c103_bootloader.Xlink.Registry.{Registry, register}
use gd32c103_bootloader.Upgrade.{
  msg_id_get_firmware_info, msg_id_start_firmware_upgrade, msg_id_firmware_chunk,
  msg_id_finalize_firmware_upgrade, msg_id_restart_device,
}

abbrev pub comp_id_upgrade : ℕ
comp_id_upgrade = 1

-- The callbacks, as what a function pointer may point to.
pub data Callback : Type 0 where
  get_firmware_info start_firmware_upgrade firmware_chunk finalize_firmware_upgrade restart_device :
      Callback

-- Where the callbacks lie in the program, and what lies at an address.
pub record Code : Type 0 where
  pub address : Callback → ℕ
  pub at : ℕ → Option Callback
  pub at-address : (c : Callback) → at (address c) ≡ some c

-- What the port returns in one call of `xlink_register_msg_handler`: whether the lock is taken, and
-- what `malloc_fn` returns for a component and for a handler.
pub record Supply : Type 0 where
  pub locked : Bool
  pub comp_allocated : Option ℕ
  pub allocated : Option ℕ

-- The messages, in the order of the calls, with their callbacks.
abbrev pub registrations : List (ℕ × Callback)
registrations =
    (msg_id_get_firmware_info, get_firmware_info)
    ∷ (msg_id_start_firmware_upgrade, start_firmware_upgrade)
    ∷ (msg_id_firmware_chunk, firmware_chunk)
    ∷ (msg_id_finalize_firmware_upgrade, finalize_firmware_upgrade)
    ∷ (msg_id_restart_device, restart_device)
    ∷ []

module _ (code : Code) (context : ℕ) (supply : ℕ → Supply) where
  -- The calls one after the other, whose values are not looked at; `none` is a write through a
  -- dangling pointer. `supply` is by message, and `context` the address that the
  -- handlers are given, which is not NULL.
  unfoldable pub register_all : List (ℕ × Callback) → Registry → Option Registry
  unfolding register
  register_all [] r = some r
  register_all ((msg_id, callback) ∷ rest) r =
      let s = supply msg_id in
      elim (register r true s.locked s.comp_allocated s.allocated comp_id_upgrade msg_id
        (code.address callback) context) [ none ↦ none | some (handle, r') ↦ register_all rest r' ]

  unfoldable pub upgrade_init : Registry → Option Registry
  unfolding register_all
  upgrade_init r = register_all registrations r
