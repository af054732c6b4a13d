-- ===== src/Xlink/Context/Delete.antt =====
-- `xlink_context_delete` of xlink/xlink.h. The memory is which addresses of `malloc_fn` are in use;
-- reading from a block that is not, and giving such a block back, is a fault.
use gd32c103_bootloader.Common.{
  ℕ, Bool, true, false, not, ◌&&◌, ◌==◌, if◌then◌else◌, List, [], ◌∷◌, ◌++◌, Option, none, some,
}
use gd32c103_bootloader.Xlink.Registry.{Handler, Comp, Registry}
pub mod Frees

abbrev pub Live : Type 0
Live = ℕ → Bool

abbrev pub without : ℕ → Live → Live
without a live = λ x. if a == x then false else live x

abbrev pub free_fn : ℕ → Live → Option Live
free_fn a live = if live a then some (without a live) else none

-- The loop over the handlers of a component: `next` is read before the element is given back.
unfoldable pub delete_handlers : List Handler → Live → Option Live
delete_handlers [] live = some live
delete_handlers (h ∷ hs) live =
    if live h.address
    then elim (free_fn h.address live) [ none ↦ none | some live' ↦ delete_handlers hs live' ]
    else none

unfoldable pub delete_comps : List Comp → Live → Option Live
unfolding delete_handlers
delete_comps [] live = some live
delete_comps (c ∷ cs) live =
    if live c.address
    then elim (delete_handlers c.handlers_list live) [
      | none ↦ none
      | some rest ↦
          if rest c.address
          then elim (free_fn c.address rest) [ none ↦ none | some live' ↦ delete_comps cs live' ]
          else none
    ]
    else none

-- A context, as a pointer shows it: whether its port and its mutex are there, and whether the port
-- can delete a mutex.
pub record Owned : Type 0 where
  pub address : ℕ
  pub has_port : Bool
  pub has_mutex : Bool
  pub deletes_mutex : Bool
  pub registry : Registry

-- What is in use afterwards, and whether the mutex was deleted.
unfoldable pub xlink_context_delete : Option Owned → Live → Option (Live × Bool)
unfolding delete_comps
xlink_context_delete none live = some (live, false)
xlink_context_delete (some c) live =
    if not (live c.address)
    then none
    else if not c.has_port
    then some (live, false)
    else elim (delete_comps c.registry.comp_id_handler_map live) [
      | none ↦ none
      | some rest ↦ elim (free_fn c.address rest) [
        | none ↦ none
        | some live' ↦ some (live', c.has_mutex && c.deletes_mutex)
      ]
    ]
