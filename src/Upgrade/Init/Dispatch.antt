-- ===== src/Upgrade/Init/Dispatch.antt =====
-- What `upgrade_init` of src/upgrade.c leaves in the registry of a context.
use mathlib.Core.List.{append_assoc, append-nil}
use gd32c103_bootloader.Common.{
  ℕ, ◌≡◌, ◌≢◌, refl, sym, ap, ◌∙◌, arith, Bool, true, false, ◌==◌, if◌then◌else◌, List, [], ◌∷◌,
  ◌++◌, map, Option, none, some,
}
use gd32c103_bootloader.Xlink.Registry.{
  Handler, head, next_of, handlers_for, dispatch, Comp, Registry, find_comp, is_registered,
  new_handler, new_comp, register, add_comp,
}
use gd32c103_bootloader.Xlink.Registry.Linked.{IsFresh, AreDistinct}
use gd32c103_bootloader.Xlink.Registry.Comps.{
  IsValid, handlers, find_comp-id, find-replace, address-snoc,
}
use gd32c103_bootloader.Xlink.Registry.Described.{dispatch-handlers}
use gd32c103_bootloader.Xlink.Registry.Laws.{exchanged, IsUpdate, added-Registered, add_comp_lem}
use gd32c103_bootloader.Upgrade.{
  msg_id_start_firmware_upgrade, msg_id_firmware_chunk, msg_id_finalize_firmware_upgrade,
  msg_id_restart_device,
}
use gd32c103_bootloader.Upgrade.Init.{
  comp_id_upgrade, Callback, get_firmware_info, start_firmware_upgrade, firmware_chunk,
  finalize_firmware_upgrade, restart_device, Code, Supply, registrations, register_all,
  upgrade_init,
}

AreDistinct-IsFresh : (xs ys : List ℕ) (a : ℕ) → AreDistinct (xs ++ (a ∷ ys)) → IsFresh a xs
AreDistinct-IsFresh [] ys a d = tt
AreDistinct-IsFresh (x ∷ xs) ys a d =
    (λ e. apart xs ys a x d.0 (sym e), AreDistinct-IsFresh xs ys a d.1)
  where
    apart : (l k : List ℕ) (b y : ℕ) → IsFresh y (l ++ (b ∷ k)) → b ≢ y
    apart [] k b y f = f.0
    apart (z ∷ l) k b y f = apart l k b y f.1

-- A handler for a message that has none is not there yet.
not_registered :
    (hs : List Handler) (m h u : ℕ)
    → IsFresh m (map Handler.msg_id hs)
    → is_registered hs m h u ≡ false
unfolding is_registered
not_registered [] m h u f = refl
not_registered (x ∷ hs) m h u f = let ih = not_registered hs m h u f.1 in ground (arith, ih, f.0)

snoc-append :
    (f : Handler → ℕ) (hs : List Handler) (n : Handler) (k : List ℕ)
    → map f (hs ++ (n ∷ [])) ++ k ≡ map f hs ++ (f n ∷ k)
snoc-append f hs n k = ap (λ l. l ++ k) (address-snoc f hs n) ∙ append_assoc (map f hs) (f n ∷ []) k

-- The port takes every lock, and has memory: for the component, and for the handler of a message.
abbrev pub generous : ℕ → (ℕ → ℕ) → ℕ → Supply
generous b a msg_id = record { locked = true; comp_allocated = some b; allocated = some (a msg_id) }

abbrev pub ids : List (ℕ × Callback) → List ℕ
ids = map (λ e. e.0)

-- Where the handlers lie.
abbrev pub places : (ℕ → ℕ) → List (ℕ × Callback) → List ℕ
places a = map (λ e. a e.0)

abbrev pub no_handlers : Registry
no_handlers = record { comp_id_handler_map = []; comp_id_handler_map_pos = head }

module _ (code : Code) (context b : ℕ) (a : ℕ → ℕ) where
  abbrev pub upgrade_handlers : List (ℕ × Callback) → List Handler
  upgrade_handlers [] = []
  upgrade_handlers ((msg_id, callback) ∷ rest) =
      new_handler (a msg_id) msg_id (code.address callback) context ∷ upgrade_handlers rest

  abbrev Adds : List (ℕ × Callback) → Registry → List Handler → Type 0
  Adds es r hs =
      (r' : Registry) × (register_all code context (generous b a) es r ≡ some r')
      × IsValid r'
      × IsUpdate r r' comp_id_upgrade (hs ++ upgrade_handlers es)

  adds_one :
      (r : Registry) (c : Comp) (m h : ℕ)
      → IsValid r
      → find_comp comp_id_upgrade r.comp_id_handler_map ≡ some c
      → IsFresh (a m) (map Handler.address c.handlers_list)
      → is_registered c.handlers_list m h context ≡ false
      → let l = c.handlers_list ++ (new_handler (a m) m h context ∷ []) in
        let r1 = exchanged r c l (next_of (a m)) in
        (register r true true (some b) (some (a m)) comp_id_upgrade m h context ≡ some (h, r1))
        × IsValid r1
        × (find_comp comp_id_upgrade r1.comp_id_handler_map
            ≡ some (record c { handlers_list = l; handlers_list_pos = next_of (a m) }))
        × IsUpdate r r1 comp_id_upgrade l
  unfolding register
  adds_one r c m h v e f q =
      let id = find_comp-id r.comp_id_handler_map comp_id_upgrade c e in
      let at : find_comp c.comp_id r.comp_id_handler_map ≡ some c =
        ap (λ k. find_comp k r.comp_id_handler_map) id ∙ e in
      let p = added-Registered m h context r c (a m) v at f q in
      let l = c.handlers_list ++ (new_handler (a m) m h context ∷ []) in
      let new : Comp = record c { handlers_list = l; handlers_list_pos = next_of (a m) } in
      (
        rw e p.0,
        p.1,
        find-replace c.comp_id c new refl r.comp_id_handler_map comp_id_upgrade at
            ∙ ground (arith, id),
        λ j. ground (arith, p.2 j, id),
      )

  all_found :
      (es : List (ℕ × Callback)) (r : Registry) (c : Comp)
      → IsValid r
      → find_comp comp_id_upgrade r.comp_id_handler_map ≡ some c
      → AreDistinct (map Handler.address c.handlers_list ++ places a es)
      → AreDistinct (map Handler.msg_id c.handlers_list ++ ids es)
      → Adds es r c.handlers_list
  unfolding register_all
  all_found [] r c v e da di = (r, refl, v, λ j. ground (arith, e, append-nil c.handlers_list))
  all_found ((m, callback) ∷ es) r c v e da di =
      let h = code.address callback in
      let hs = c.handlers_list in
      let fresh = AreDistinct-IsFresh (map Handler.address hs) (places a es) (a m) da in
      let q =
        not_registered hs m h context (AreDistinct-IsFresh (map Handler.msg_id hs) (ids es) m di) in
      let (runs, valid, found, view) = adds_one r c m h v e fresh q in
      let n = new_handler (a m) m h context in
      let l = hs ++ (n ∷ []) in
      let r1 = exchanged r c l (next_of (a m)) in
      let c1 : Comp = record c { handlers_list = l; handlers_list_pos = next_of (a m) } in
      let (r', rest, valid', view') =
        all_found es r1 c1 valid found (rw (snoc-append Handler.address hs n (places a es)) da)
          (rw (snoc-append Handler.msg_id hs n (ids es)) di) in
      (
        r',
        rw (register_all, runs) rest,
        valid',
        λ j. ground (arith, view j, view' j, append_assoc hs (n ∷ []) (upgrade_handlers es)),
      )

  -- The first call makes the component: as if it had been there, with no handlers.
  register_new :
      (r r0 : Registry) (m h : ℕ)
      → find_comp comp_id_upgrade r.comp_id_handler_map ≡ none
      → add_comp r b comp_id_upgrade ≡ some r0
      → find_comp comp_id_upgrade r0.comp_id_handler_map ≡ some (new_comp b comp_id_upgrade)
      → register r true true (some b) (some (a m)) comp_id_upgrade m h context
        ≡ register r0 true true (some b) (some (a m)) comp_id_upgrade m h context
  unfolding register
  register_new r r0 m h e made found = rw (e, made, found) refl

  register_all_new :
      (r r0 : Registry) (m : ℕ) (callback : Callback) (es : List (ℕ × Callback))
      → find_comp comp_id_upgrade r.comp_id_handler_map ≡ none
      → add_comp r b comp_id_upgrade ≡ some r0
      → find_comp comp_id_upgrade r0.comp_id_handler_map ≡ some (new_comp b comp_id_upgrade)
      → register_all code context (generous b a) ((m, callback) ∷ es) r
        ≡ register_all code context (generous b a) ((m, callback) ∷ es) r0
  unfolding register_all
  register_all_new r r0 m callback es e made found =
      rw (register_all, register_new r r0 m (code.address callback) e made found) refl

  abbrev later_registrations : List (ℕ × Callback)
  later_registrations =
      (msg_id_start_firmware_upgrade, start_firmware_upgrade)
      ∷ (msg_id_firmware_chunk, firmware_chunk)
      ∷ (msg_id_finalize_firmware_upgrade, finalize_firmware_upgrade)
      ∷ (msg_id_restart_device, restart_device)
      ∷ []

  -- The handlers of the five messages, by component and message.
  abbrev pub handlers_of : ℕ → ℕ → List Handler
  handlers_of comp_id msg_id =
      if comp_id == comp_id_upgrade
      then handlers_for msg_id (upgrade_handlers registrations)
      else []

  chosen :
      (test : Bool) (msg_id : ℕ)
      → handlers_for msg_id (if test then upgrade_handlers registrations else [])
        ≡ (if test then handlers_for msg_id (upgrade_handlers registrations) else [])
  unfolding handlers_for
  chosen true msg_id = refl
  chosen false msg_id = refl

  dispatched :
      (r : Registry) (comp_id msg_id : ℕ)
      → handlers r comp_id
        ≡ (if comp_id == comp_id_upgrade then upgrade_handlers registrations else [])
      → dispatch r comp_id msg_id ≡ handlers_of comp_id msg_id
  dispatched r i m e =
      dispatch-handlers r i m ∙ ap (handlers_for m) e ∙ chosen (i == comp_id_upgrade) m

  -- The calls one after the other, and the search in what they leave.
  pub upgrade_init-handlers :
      AreDistinct (places a registrations)
      → (r : Registry) × (upgrade_init code context (generous b a) no_handlers ≡ some r)
        × IsValid r
        × ((comp_id msg_id : ℕ) → dispatch r comp_id msg_id ≡ handlers_of comp_id msg_id)
  unfolding upgrade_init dispatch find_comp
  upgrade_init-handlers d =
      let v : IsValid no_handlers = record {
        comps_end = refl;
        comps_distinct = tt;
        comps_linked = tt;
      } in
      let (r0, made, v0, found0, same0) = add_comp_lem no_handlers b comp_id_upgrade v refl tt in
      let first =
        register_all_new no_handlers r0 0 get_firmware_info (later_registrations) refl made
          found0 in
      let (r, rest, valid, view) =
        all_found registrations r0 (new_comp b comp_id_upgrade) v0 found0 d (omega arith) in
      (
        r,
        first ∙ rest,
        valid,
        λ i m. dispatched r i m (
            view i
            ∙ ap (λ l. if i == comp_id_upgrade then upgrade_handlers registrations else l)
                (same0 i)),
      )

  -- The callback of a message of the upgrade component, by its number.
  abbrev pub callback_for : ℕ → Option Callback
  callback_for msg_id =
      if msg_id == 0
      then some get_firmware_info
      else if msg_id == 2
      then some start_firmware_upgrade
      else if msg_id == 4
      then some firmware_chunk
      else if msg_id == 6
      then some finalize_firmware_upgrade
      else if msg_id == 8
      then some restart_device
      else none

  -- The one handler with that callback, the message and the context; or none.
  abbrev pub alone : ℕ → Option Callback → List Handler
  alone msg_id none = []
  alone msg_id (some callback) = new_handler (a msg_id) msg_id (code.address callback) context ∷ []

  abbrev pub callback_alone : ℕ → ℕ → List Handler
  callback_alone comp_id msg_id = if comp_id == 1 then alone msg_id (callback_for msg_id) else []

  found_alone :
      (msg_id : ℕ)
      → handlers_for msg_id (upgrade_handlers registrations) ≡ alone msg_id (callback_for msg_id)
  unfolding handlers_for
  found_alone msg_id = ground arith

  -- If every lock is taken and memory is there, at different addresses for the handlers, then the
  -- five calls on an empty registry write through no dangling pointer and leave a valid registry,
  -- in which a message of the upgrade component leads to its callback and to no other, and every
  -- other message to none.
  pub upgrade_init-dispatch :
      AreDistinct (places a registrations)
      → (r : Registry) × (upgrade_init code context (generous b a) no_handlers ≡ some r)
        × IsValid r
        × ((comp_id msg_id : ℕ) → dispatch r comp_id msg_id ≡ callback_alone comp_id msg_id)
  upgrade_init-dispatch d =
      let (r, runs, valid, found) = upgrade_init-handlers d in
      (r, runs, valid, λ i m. found i m ∙ ap (λ l. if i == 1 then l else []) (found_alone m))
