-- ===== src/Host/Wire/Boots.antt =====
-- A whole run of upgrade.cpp over frames, against the device, and the next start.
use mathlib.Core.List.{append-nil}
use gd32c103_bootloader.Common.{
  ℕ, ◌^◌, ◌≤◌, ◌<◌, ◌≡◌, refl, sym, ap, ◌∙◌, arith, true, [], ◌∷◌, ◌++◌, length, some, inl, inr,
}
use gd32c103_bootloader.Flash.Controller.{Fmc}
use gd32c103_bootloader.Flash.Erase.{NeverFails}
use gd32c103_bootloader.Boot.{Memory, boot_loader_main}
use gd32c103_bootloader.Boot.Select.{slot_info, IsBootable, start_of}
use gd32c103_bootloader.Xlink.Message.{xlink_max_payload}
use gd32c103_bootloader.Xlink.Receive.{Rx}
use gd32c103_bootloader.Xlink.Registry.{Registry}
use gd32c103_bootloader.Xlink.Registry.Linked.{AreDistinct}
use gd32c103_bootloader.Xlink.Context.{Context, PortStart, xlink_context_create}
use gd32c103_bootloader.Xlink.Context.Create.{
  new_context, only_new, xlink_context_create-IsNewContext,
}
use gd32c103_bootloader.Upgrade.{
  Upgrade, Outcome, returned, fault, reset, Sent, upgrade_callback, start_firmware_upgrade_payload,
  finalize_firmware_upgrade_payload, put_u32,
}
use gd32c103_bootloader.Upgrade.Init.{Code, registrations, upgrade_init}
use gd32c103_bootloader.Upgrade.Init.Dispatch.{generous, places, upgrade_init-handlers}
use gd32c103_bootloader.Upgrade.Padded.{IsWhole}
use gd32c103_bootloader.Host.{host_main}
use gd32c103_bootloader.Host.Device.{device, replies}
use gd32c103_bootloader.Host.Simulation.{
  IsRequest, info, start, chunk, finalize, restart, IsSimulation, host_main-Agree,
}
use gd32c103_bootloader.Host.Whole.{described, target_slot, host_main-boots}
use gd32c103_bootloader.Host.Wire.{Ends, exchange, wire}
use gd32c103_bootloader.Host.Wire.Steps.{IsShort, send_upgrade_lem, IsLike, answer-Answers}

IsRequest-IsWhole : (s : Sent) → IsRequest s → IsWhole s × IsShort s
unfolding start_firmware_upgrade_payload finalize_firmware_upgrade_payload
IsRequest-IsWhole _ (start address size) = (inl (refl, refl), omega arith)
IsRequest-IsWhole _ (chunk k bytes h) = (
  inr (inl (refl, (k, bytes, ap (λ l. put_u32 k ++ (length bytes ∷ l)) (sym (append-nil bytes))))),
  omega (arith, h),
)
IsRequest-IsWhole _ (finalize sum) = (inr (inr (inl (refl, refl))), omega arith)
IsRequest-IsWhole _ restart = (inr (inr (inr (inl refl))), omega arith)
IsRequest-IsWhole _ (info partition) = (inr (inr (inr (inr (refl, refl)))), omega arith)

module _ (fmc : Fmc) (code : Code) (address b : ℕ) (a : ℕ → ℕ) (garbage vectors : ℕ) where
  replies-sent : (u : Upgrade fmc) (o : Outcome fmc) → (replies fmc garbage vectors [] u o).0 ≡ true
  replies-sent u (returned value sent u') = refl
  replies-sent u fault = refl
  replies-sent u reset = refl

  -- While both receivers are idle and the device has the handlers of `upgrade_init`, a request of the
  -- host goes out in a frame, and the host hears what the callback of its message sends, called on
  -- that message, in order: nothing, if the callback faults or restarts the device. The device is as the
  -- callback leaves it, and both receivers are idle again.
  pub exchange-refines :
      (s : Sent) (w : Ends fmc code garbage vectors) (u : Upgrade fmc)
      → IsRequest s
      → IsLike fmc code address b a garbage vectors w u
      → let r = replies fmc garbage vectors [] u (upgrade_callback fmc garbage vectors s.0 s.1 u) in
        ((exchange fmc code garbage vectors s w).0 ≡ true)
        × ((exchange fmc code garbage vectors s w).1.0 ≡ r.1.0)
        × IsLike fmc code address b a garbage vectors
            (exchange fmc code garbage vectors s w).1.1
            r.1.1
  unfolding exchange
  exchange-refines s w u q like =
      let (whole, short) = IsRequest-IsWhole s q in
      let self : IsLike fmc code address b a garbage vectors w w.upgrade = record {
        device = refl;
        has_handlers = like.has_handlers;
        device_idle = like.device_idle;
        host_idle = like.host_idle;
      } in
      let (same, like') =
        answer-Answers fmc code address b a garbage vectors w s whole short self in
      rw (← like.device, exchange, send_upgrade_lem s short) (refl, same, like')

  pub wire-IsSimulation :
      IsSimulation
        (wire fmc code garbage vectors)
        (device fmc garbage vectors [])
        (IsLike fmc code address b a garbage vectors)
  wire-IsSimulation s w u q like =
      let (sent, same, like') = exchange-refines s w u q like in
      rw (append-nil s.1) (sent ∙ sym (replies-sent u _), same, like')

  -- From any state in which both ends are set up and idle.
  pub host_main-like :
      (before : Ends fmc code garbage vectors) (base w : ℕ) (file : Memory) (u : Upgrade fmc)
      → IsLike fmc code address b a garbage vectors before u
      → NeverFails fmc
      → ((i : ℕ) → file i < 256)
      → 1 < 2 ^ w
      → IsBootable (described file) (target_slot base)
      → (slot_info (described file) (target_slot base)).size_bytes ≤ 51200
      → (ends : Ends fmc code garbage vectors) × (host_main
            (wire fmc code garbage vectors)
            base
            file
            before
          ≡ (true, ends))
        × (boot_loader_main w (fmc.byte ends.upgrade.chip.flash)
            ≡ some (start_of (described file) (target_slot base)))
  host_main-like before base w file u like ready file_bytes wide bootable small =
      let (u', run, boots) =
        host_main-boots fmc garbage vectors [] base w file u ready tt file_bytes wide bootable
          small in
      let (same, like') =
        host_main-Agree (wire fmc code garbage vectors) (device fmc garbage vectors [])
          (IsLike fmc code address b a garbage vectors) wire-IsSimulation base file before u like in
      let result = host_main (wire fmc code garbage vectors) base file before in
      let reports : result.0 ≡ true = same ∙ ap (λ r. r.0) run in
      let ended : result.1.upgrade ≡ u' = like'.device ∙ ap (λ r. r.1) run in
      (
        result.1,
        ap (λ r. (r, result.1)) reports,
        ap (λ (v : Upgrade fmc). boot_loader_main w (fmc.byte v.chip.flash)) ended ∙ boots,
      )

  -- Host and device with contexts that were created, and the handlers of `upgrade_init`.
  pub set_up-IsLike :
      (host_port device_port : PortStart) (host_fresh device_fresh : Rx) (h d : Context)
      (u : Upgrade fmc)
      → length host_fresh.rx_msg.payload ≡ xlink_max_payload
      → length device_fresh.rx_msg.payload ≡ xlink_max_payload
      → xlink_context_create host_port host_fresh ≡ some h
      → xlink_context_create device_port device_fresh ≡ some d
      → AreDistinct (places a registrations)
      → (registry : Registry) × (upgrade_init code address (generous b a) d.registry
          ≡ some registry)
        × IsLike fmc code address b a garbage vectors
            (record { context = record d { registry = registry }; upgrade = u; host_rx = h.rx })
            u
  set_up-IsLike hp dp hf df h d u hb db hm dm distinct =
      let new : new_context df ≡ d =
        only_new dp.has_functions dp.allocates dp.makes_mutex df d dm in
      let (registry, init, valid, has) = upgrade_init-handlers code address b a distinct in
      (
        registry,
        ap (upgrade_init code address (generous b a)) (sym (ap (λ x. x.registry) new)) ∙ init,
        record {
          device = refl;
          has_handlers = has;
          device_idle = (xlink_context_create-IsNewContext dp df d db dm).0;
          host_idle = (xlink_context_create-IsNewContext hp hf h hb hm).0;
        },
      )

  -- Host and device have created their contexts, on ports that gave them buffers of 250 bytes, and
  -- `upgrade_init` was called on the device's, with the locks and the memory for its handlers, at
  -- different addresses. If the file holds, at the place of the slot that the host chooses by the
  -- base address that the device reports, a record and an application that can be started and fit the
  -- slot, and the flash controller reports no error: then over the frames, whose bytes arrive as they
  -- were sent, the host reports success, and the next time the boot loader starts that application,
  -- as it stands in the file. The file holds bytes; the enumeration of the slots has a bit at least.
  pub host_main-wire :
      (host_port device_port : PortStart) (host_fresh device_fresh : Rx) (h d : Context)
      (base w : ℕ) (file : Memory) (u : Upgrade fmc)
      → length host_fresh.rx_msg.payload ≡ xlink_max_payload
      → length device_fresh.rx_msg.payload ≡ xlink_max_payload
      → xlink_context_create host_port host_fresh ≡ some h
      → xlink_context_create device_port device_fresh ≡ some d
      → AreDistinct (places a registrations)
      → NeverFails fmc
      → ((i : ℕ) → file i < 256)
      → 1 < 2 ^ w
      → IsBootable (described file) (target_slot base)
      → (slot_info (described file) (target_slot base)).size_bytes ≤ 51200
      → (registry : Registry) × (ends : Ends fmc code garbage vectors) × (upgrade_init code address
            (generous b a)
            d.registry
          ≡ some registry)
        × (host_main
              (wire fmc code garbage vectors)
              base
              file
              (record { context = record d { registry = registry }; upgrade = u; host_rx = h.rx })
            ≡ (true, ends))
        × (boot_loader_main w (fmc.byte ends.upgrade.chip.flash)
            ≡ some (start_of (described file) (target_slot base)))
  host_main-wire hp dp hf df h d base w file u hb db hm dm distinct ready file_bytes wide bootable
        small =
      let (registry, init, like) = set_up-IsLike hp dp hf df h d u hb db hm dm distinct in
      let (ends, run, boots) =
        host_main-like _ base w file u like ready file_bytes wide bootable small in
      (registry, ends, init, run, boots)
