-- ===== src/Tasks/Device/Received.antt =====
-- From the bytes on the line to the flash: a context of xlink/xlink.h that `xlinkTask` of src/main.c
-- has set up receives the frames of an upgrade.
use gd32c103_bootloader.Common.{
  ℕ, ◌*◌, ◌/◌, ◌≡◌, refl, sym, ap, ◌∙◌, List, [], ◌∷◌, ◌++◌, All, map, take, length, some, inl, inr,
}
use gd32c103_bootloader.Crc.Bitwise.{AreBytes}
use gd32c103_bootloader.Flash.Controller.{Fmc}
use gd32c103_bootloader.Flash.Erase.{NeverFails}
use gd32c103_bootloader.Boot.{region}
use gd32c103_bootloader.Xlink.Message.{xlink_max_payload}
use gd32c103_bootloader.Xlink.Receive.{Rx}
use gd32c103_bootloader.Xlink.Receive.Stream.{Item, on_line, packets, IsSendable, IsIdle}
use gd32c103_bootloader.Xlink.Registry.{Registry, dispatch, handlers_for, new_handler}
use gd32c103_bootloader.Xlink.Registry.Linked.{AreDistinct}
use gd32c103_bootloader.Xlink.Context.{Context, Call, PortStart, xlink_context_create, process_all}
use gd32c103_bootloader.Xlink.Context.Create.{
  new_context, only_new, xlink_context_create-IsNewContext,
}
use gd32c103_bootloader.Xlink.Context.Calls.{given, given_packet, expected, stream-expected}
use gd32c103_bootloader.Upgrade.{Upgrade, Sent}
use gd32c103_bootloader.Upgrade.Init.{comp_id_upgrade, Code, registrations, upgrade_init}
use gd32c103_bootloader.Upgrade.Init.Dispatch.{handlers_of, generous, places, upgrade_init-handlers}
use gd32c103_bootloader.Upgrade.Padded.{IsWhole}
use gd32c103_bootloader.Upgrade.Chips.{IsChunkSize}
use gd32c103_bootloader.Upgrade.Image.{IsTarget, session, answers, serve-session}
use gd32c103_bootloader.Tasks.Device.{run_calls}
use gd32c103_bootloader.Tasks.Device.Session.{
  upgrade_packet, callback_of, session-AreWhole, Fits, run_calls-serve,
}

cons_inj : {A : Type 0} {x y : A} {xs ys : List A} → x ∷ xs ≡ y ∷ ys → (x ≡ y) × (xs ≡ ys)
cons_inj e = (cc, cc)

module _ (code : Code) (context b : ℕ) (a : ℕ → ℕ) where
  abbrev pub HasHandlers : Registry → Type 0
  HasHandlers r =
      (comp_id msg_id : ℕ) → dispatch r comp_id msg_id ≡ handlers_of code context b a comp_id msg_id

  handler_lem :
      (r : Registry) (s : Sent) (w : IsWhole s)
      → HasHandlers r
      → dispatch r comp_id_upgrade s.0
        ≡ new_handler (a s.0) s.0 (code.address (callback_of s w)) context ∷ []
  handler_lem r (m, p) (inl (e, len)) has = rw e (has 1 2 ∙ (unfold handlers_for in refl))
  handler_lem r (m, p) (inr (inl (e, k))) has = rw e (has 1 4 ∙ (unfold handlers_for in refl))
  handler_lem r (m, p) (inr (inr (inl (e, len)))) has =
      rw e (has 1 6 ∙ (unfold handlers_for in refl))
  handler_lem r (m, p) (inr (inr (inr (inl e)))) has =
      rw e (has 1 8 ∙ (unfold handlers_for in refl))
  handler_lem r (m, p) (inr (inr (inr (inr (e, len))))) has =
      rw e (has 1 0 ∙ (unfold handlers_for in refl))

  module _ (fmc : Fmc) (garbage vectors : ℕ) where
    pub calls-Fits :
        (r : Registry) (calls : List Call) (l : List Sent) (w : All IsWhole l)
        → HasHandlers r
        → map given calls ≡ expected r (map upgrade_packet l)
        → Fits fmc code garbage vectors calls l w
    calls-Fits r [] [] w has e = tt
    calls-Fits r [] (s ∷ l) w has e =
        let one = handler_lem r s w.0 has in
        let h0 = new_handler (a s.0) s.0 (code.address (callback_of s w.0)) context in
        let both : [] ≡ given_packet (upgrade_packet s) h0 ∷ expected r (map upgrade_packet l) =
          e
          ∙ ap (λ hs. map (given_packet (upgrade_packet s)) hs ++ expected r (map upgrade_packet l))
              one in
        absurd (cc)
    calls-Fits r (c ∷ calls) [] w has e = absurd (cc)
    calls-Fits r ((h, m) ∷ calls) (s ∷ l) w has e =
        let one = handler_lem r s w.0 has in
        let h0 = new_handler (a s.0) s.0 (code.address (callback_of s w.0)) context in
        let both : given (h, m) ∷ map given calls
            ≡ given_packet (upgrade_packet s) h0 ∷ expected r (map upgrade_packet l) =
          e
          ∙ ap (λ hs. map (given_packet (upgrade_packet s)) hs ++ expected r (map upgrade_packet l))
              one in
        let (first, others) = cons_inj both in
        (
          ap (λ g. code.at g.handler.handler) first ∙ code.at-address (callback_of s w.0),
          ap (λ g. g.payload) first,
          calls-Fits r calls l w.1 has others,
        )

    module _ (start cs : ℕ) (image : List ℕ) (target : IsTarget start (length image))
        (chunked : IsChunkSize cs) where
      -- The frames of an upgrade reach a context that was created on a port with the memory and the
      -- locks for its handlers, and on which `upgrade_init` was called. The frames are those of the
      -- messages of an upgrade of an image of bytes, which goes from the start of a page to within the
      -- main flash in chunks of a positive multiple of 4 up to 245, with stray bytes other than the
      -- start byte between them, and the flash controller reports no error. Then the bytes lead to
      -- calls of handlers, without a write past the buffer; the callbacks that these call answer that
      -- the start, every chunk and the end are accepted, and the flash from the start on reads as the
      -- image, up to its last whole word. The receiver is idle again.
      pub process_all-upgrades :
          (port : PortStart) (fresh : Rx) (c : Context) (items : List Item) (u : Upgrade fmc)
          → length fresh.rx_msg.payload ≡ xlink_max_payload
          → xlink_context_create port fresh ≡ some c
          → AreDistinct (places a registrations)
          → All IsSendable items
          → packets items ≡ map upgrade_packet (session start cs (λ j. []) [] image)
          → NeverFails fmc
          → AreBytes image
          → (registry : Registry) × (calls : List Call) × (after : Rx) × (u' : Upgrade fmc)
            × (upgrade_init code context (generous b a) c.registry ≡ some registry)
            × (process_all (record c { registry = registry }) (on_line items)
                ≡ some (calls, record { rx = after; registry = registry }))
            × (run_calls fmc code garbage vectors calls u
                ≡ some (answers fmc start cs (λ j. []) garbage vectors image [], u'))
            × (region (fmc.byte u'.chip.flash) start (4 * (length image / 4))
                ≡ take (4 * (length image / 4)) image)
            × IsIdle after
      process_all-upgrades port fresh c items u buffer made distinct sendable sent ready hb =
          let new : new_context fresh ≡ c =
            only_new port.has_functions port.allocates port.makes_mutex fresh c made in
          let (registry, init, valid, has) = upgrade_init-handlers code context b a distinct in
          let idle = (xlink_context_create-IsNewContext port fresh c buffer made).0 in
          let (calls, after, runs, all, idle') =
            stream-expected items c.rx registry idle sendable in
          let msgs = session start cs (λ j. []) [] image in
          let whole = session-AreWhole start cs image in
          let fits = calls-Fits registry calls msgs whole has (all ∙ ap (expected registry) sent) in
          let (u', (served, stored)) =
            serve-session fmc start cs (λ j. []) garbage vectors image [] target chunked u ready hb
              (λ j. tt) in
          (
            registry,
            calls,
            after,
            u',
            ap (upgrade_init code context (generous b a)) (sym (ap (λ x. x.registry) new)) ∙ init,
            runs,
            run_calls-serve fmc code garbage vectors calls msgs whole u fits ∙ served,
            stored,
            idle',
          )
