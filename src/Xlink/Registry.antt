-- ===== src/Xlink/Registry.antt =====
-- The handlers of xlink/xlink.h: `xlink_register_msg_handler`, `xlink_unregister_msg_handler` and
-- the dispatch at the end of `xlink_process_rx`. A list element carries its address, and a pointer
-- to a `next` field, or to the head of a list, is a `Cell`; so a tail pointer into an element that
-- is gone is seen. The port's mutex and `malloc_fn` are arguments: whether the lock was taken, and
-- the address or NULL that each call of `malloc_fn` returns.
pub mod Linked
pub mod Comps
pub mod Laws
pub mod Removal
pub mod Described
pub mod Registering
use mathlib.Core.Option
use gd32c103_bootloader.Common.{
  ℕ, Bool, true, false, not, ◌&&◌, ◌==◌, if◌then◌else◌, List, [], ◌∷◌, ◌++◌, Option, none, some,
}

pub record Handler : Type 0 where
  pub address : ℕ
  pub msg_id : ℕ
  pub handler : ℕ
  pub user_data : ℕ

-- Where a pointer of type `element **` points: the head of its list, or the `next` of an element.
pub data Cell : Type 0 where
  head : Cell
  next_of : ℕ → Cell

pub record Comp : Type 0 where
  pub address : ℕ
  pub comp_id : ℕ
  pub handlers_list : List Handler
  pub handlers_list_pos : Cell

-- The fields of `xlink_context_t` that hold the handlers.
pub record Registry : Type 0 where
  pub comp_id_handler_map : List Comp
  pub comp_id_handler_map_pos : Cell

unfoldable pub same_cell : Cell → Cell → Bool
same_cell head head = true
same_cell (next_of a) (next_of b) = a == b
same_cell _ _ = false

-- `*pos = element`, for an element whose `next` is NULL; `none` if `pos` points to no cell of the
-- list. What hung on the cell before is lost.
unfoldable pub link : {A : Type 0} → (A → ℕ) → Cell → A → List A → Option (List A)
link address head e l = some (e ∷ [])
link address (next_of a) e [] = none
link address (next_of a) e (x ∷ l) =
    if address x == a
    then some (x ∷ e ∷ [])
    else Option.map (λ t. x ∷ t) (link address (next_of a) e l)

unfoldable pub find_comp : ℕ → List Comp → Option Comp
find_comp comp_id [] = none
find_comp comp_id (c ∷ cs) = if c.comp_id == comp_id then some c else find_comp comp_id cs

-- The list after a change of the element that `find_comp` found.
unfoldable pub replace_comp : ℕ → Comp → List Comp → List Comp
replace_comp comp_id new [] = []
replace_comp comp_id new (c ∷ cs) =
    if c.comp_id == comp_id then new ∷ cs else c ∷ replace_comp comp_id new cs

unfoldable pub is_same : Handler → ℕ → ℕ → ℕ → Bool
is_same h msg_id handler user_data =
    h.msg_id == msg_id && (h.handler == handler && h.user_data == user_data)

unfoldable pub is_registered : List Handler → ℕ → ℕ → ℕ → Bool
unfolding is_same
is_registered [] msg_id handler user_data = false
is_registered (h ∷ hs) msg_id handler user_data =
    if is_same h msg_id handler user_data then true else is_registered hs msg_id handler user_data

-- A call's return value, of which 0 is NULL, and the registry it leaves; `none` is a write through a
-- dangling pointer.
abbrev pub Returns : Type 0 → Type 0
Returns A = Option (A × Registry)

abbrev pub new_handler : ℕ → ℕ → ℕ → ℕ → Handler
new_handler a msg_id handler user_data = record {
  address = a;
  msg_id = msg_id;
  handler = handler;
  user_data = user_data;
}

-- From the search for a handler that is there already to the end of `xlink_register_msg_handler`.
unfoldable pub add_handler : Registry → Comp → ℕ → ℕ → ℕ → Option ℕ → Returns ℕ
unfolding is_registered link replace_comp
add_handler r c msg_id handler user_data allocated =
    if is_registered c.handlers_list msg_id handler user_data then some (0, r) else elim allocated [
      | none ↦ some (0, r)
      | some a ↦
          Option.map
            (λ l. (
              handler,
              record r {
                comp_id_handler_map =
                    replace_comp c.comp_id
                      (record c { handlers_list = l; handlers_list_pos = next_of a })
                      r.comp_id_handler_map;
              },
            ))
            (link Handler.address c.handlers_list_pos (new_handler a msg_id handler user_data)
              c.handlers_list)
    ]

abbrev pub new_comp : ℕ → ℕ → Comp
new_comp a comp_id = record {
  address = a;
  comp_id = comp_id;
  handlers_list = [];
  handlers_list_pos = head;
}

unfoldable pub add_comp : Registry → ℕ → ℕ → Option Registry
unfolding link
add_comp r a comp_id =
    Option.map (λ l. record { comp_id_handler_map = l; comp_id_handler_map_pos = next_of a })
      (link Comp.address r.comp_id_handler_map_pos (new_comp a comp_id) r.comp_id_handler_map)

-- Without a context, of which `r` are the fields, nothing is looked at. NULL comes back from that, from
-- a lock that fails, from `malloc_fn`, and for a handler that is there already.
unfoldable pub register : Registry → Bool → Bool → Option ℕ → Option ℕ → ℕ → ℕ → ℕ → ℕ → Returns ℕ
unfolding find_comp add_comp add_handler
register r has_context locked comp_allocated allocated comp_id msg_id handler user_data =
    if not has_context
    then some (0, r)
    else if not locked
    then some (0, r)
    else elim (find_comp comp_id r.comp_id_handler_map) [
      | some c ↦ add_handler r c msg_id handler user_data allocated
      | none ↦ elim comp_allocated [
        | none ↦ some (0, r)
        | some a ↦ elim (add_comp r a comp_id) [
          | none ↦ none
          | some r' ↦ add_handler r' (new_comp a comp_id) msg_id handler user_data allocated
        ]
      ]
    ]

-- The loop of `xlink_unregister_msg_handler`, with its `msg_id_pos`: the list without the first
-- handler that fits, and the tail pointer, which is moved back if it was in that handler.
unfoldable pub unlink : Cell → List Handler → Cell → ℕ → ℕ → ℕ → Option (List Handler × Cell)
unfolding is_same same_cell
unlink msg_id_pos [] tail msg_id handler user_data = none
unlink msg_id_pos (h ∷ hs) tail msg_id handler user_data =
    if is_same h msg_id handler user_data
    then some (hs, if same_cell tail (next_of h.address) then msg_id_pos else tail)
    else Option.map (λ p. (h ∷ p.0, p.1))
        (unlink (next_of h.address) hs tail msg_id handler user_data)

-- 0, -1, -2, -3 and -4.
pub data Unregistered : Type 0 where
  removed no_context no_lock no_comp no_handler : Unregistered

unfoldable pub unregister : Registry → Bool → Bool → ℕ → ℕ → ℕ → ℕ → Unregistered × Registry
unfolding find_comp unlink replace_comp
unregister r has_context locked comp_id msg_id handler user_data =
    if not has_context
    then (no_context, r)
    else if not locked
    then (no_lock, r)
    else elim (find_comp comp_id r.comp_id_handler_map) [
      | none ↦ (no_comp, r)
      | some c ↦ elim (unlink head c.handlers_list c.handlers_list_pos msg_id handler user_data) [
        | none ↦ (no_handler, r)
        | some (l, tail) ↦ (
          removed,
          record r {
            comp_id_handler_map =
                replace_comp c.comp_id (record c { handlers_list = l; handlers_list_pos = tail })
                  r.comp_id_handler_map;
          },
        )
      ]
    ]

-- The handlers that a message calls, in order: those of its component that have its identifier.
unfoldable pub handlers_for : ℕ → List Handler → List Handler
handlers_for msg_id [] = []
handlers_for msg_id (h ∷ hs) =
    if h.msg_id == msg_id then h ∷ handlers_for msg_id hs else handlers_for msg_id hs

unfoldable pub dispatch : Registry → ℕ → ℕ → List Handler
unfolding find_comp handlers_for
dispatch r comp_id msg_id = elim (find_comp comp_id r.comp_id_handler_map) [
  | none ↦ []
  | some c ↦ handlers_for msg_id c.handlers_list
]
