-- ===== src/Xlink/Registry/Laws.antt =====
-- Registering and unregistering keep the lists and their tail pointers right, and do to the
-- handlers of a component what the calls promise.
use gd32c103_bootloader.Common.{
  ℕ, ◌≡◌, refl, sym, arith, false, ◌==◌, if◌then◌else◌, List, [], ◌∷◌, ◌++◌, map, Option, none,
  some,
}
use gd32c103_bootloader.Xlink.Registry.{
  Handler, Cell, next_of, Comp, Registry, link, find_comp, replace_comp, is_registered, new_handler,
  new_comp, add_handler, add_comp,
}
use gd32c103_bootloader.Xlink.Registry.Linked.{IsFresh, link_end}
use gd32c103_bootloader.Xlink.Registry.Comps.{
  IsLinked, IsValid, handlers, find_comp-All, address-replace, find-replace, replace-All,
  find-append, All-snoc, AreDistinct-snoc, end_of-snoc, address-snoc,
}

-- What `malloc_fn` returned is not the address of an element of the list.
abbrev pub IsNew : Option ℕ → List ℕ → Type 0
IsNew none l = Unit {0}
IsNew (some a) l = IsFresh a l

-- The registry after one component's list and tail pointer are exchanged.
abbrev pub exchanged : Registry → Comp → List Handler → Cell → Registry
exchanged r c l tail = record r {
  comp_id_handler_map =
      replace_comp c.comp_id (record c { handlers_list = l; handlers_list_pos = tail })
        r.comp_id_handler_map;
}

-- The view of a registry in which one component has the handlers `l`.
abbrev pub IsUpdate : Registry → Registry → ℕ → List Handler → Type 0
IsUpdate r r' i l = (j : ℕ) → handlers r' j ≡ (if j == i then l else handlers r j)

pub exchanged-IsValid :
    (r : Registry) (c : Comp) (l : List Handler) (tail : Cell)
    → IsValid r
    → find_comp c.comp_id r.comp_id_handler_map ≡ some c
    → IsLinked (record c { handlers_list = l; handlers_list_pos = tail })
    → IsValid (exchanged r c l tail)
exchanged-IsValid r c l tail v e k =
    let new = record c { handlers_list = l; handlers_list_pos = tail } in
    let same = address-replace c.comp_id c new refl r.comp_id_handler_map e refl in
    record {
      comps_end = rw same v.comps_end;
      comps_distinct = rw same v.comps_distinct;
      comps_linked =
          replace-All c.comp_id c new refl IsLinked r.comp_id_handler_map k v.comps_linked;
    }

pub exchanged-IsUpdate :
    (r : Registry) (c : Comp) (l : List Handler) (tail : Cell)
    → find_comp c.comp_id r.comp_id_handler_map ≡ some c
    → IsUpdate r (exchanged r c l tail) c.comp_id l
exchanged-IsUpdate r c l tail e j =
    let new = record c { handlers_list = l; handlers_list_pos = tail } in
    ground (arith, find-replace c.comp_id c new refl r.comp_id_handler_map j e)

module _ (msg_id handler user_data : ℕ) where
  pub added-Registered :
      (r : Registry) (c : Comp) (a : ℕ)
      → IsValid r
      → find_comp c.comp_id r.comp_id_handler_map ≡ some c
      → IsFresh a (map Handler.address c.handlers_list)
      → is_registered c.handlers_list msg_id handler user_data ≡ false
      → let l = c.handlers_list ++ (new_handler a msg_id handler user_data ∷ []) in
        (add_handler r c msg_id handler user_data (some a)
          ≡ some (handler, exchanged r c l (next_of a)))
        × IsValid (exchanged r c l (next_of a))
        × IsUpdate r (exchanged r c l (next_of a)) c.comp_id l
  unfolding add_handler
  added-Registered r c a v e f q =
      let h = new_handler a msg_id handler user_data in
      let l = c.handlers_list ++ (h ∷ []) in
      let linked : IsLinked c = find_comp-All IsLinked _ c.comp_id c v.comps_linked e in
      let at = address-snoc Handler.address c.handlers_list h in
      let appended : link Handler.address c.handlers_list_pos h c.handlers_list ≡ some l =
        rw linked.0 (link_end Handler.address c.handlers_list h linked.1) in
      (
        rw (q, appended),
        exchanged-IsValid r c l (next_of a) v e (
          rw at (sym (end_of-snoc (map Handler.address c.handlers_list) a)),
          rw at (AreDistinct-snoc _ a linked.1 f),
        ),
        exchanged-IsUpdate r c l (next_of a) e,
      )

pub add_comp_lem :
    (r : Registry) (a i : ℕ)
    → IsValid r
    → find_comp i r.comp_id_handler_map ≡ none
    → IsFresh a (map Comp.address r.comp_id_handler_map)
    → (r' : Registry) × (add_comp r a i ≡ some r')
      × IsValid r'
      × (find_comp i r'.comp_id_handler_map ≡ some (new_comp a i))
      × ((j : ℕ) → handlers r' j ≡ handlers r j)
unfolding add_comp
add_comp_lem r a i v e f =
    let cs = r.comp_id_handler_map in
    let n = new_comp a i in
    let at = address-snoc Comp.address cs n in
    let linked : link Comp.address r.comp_id_handler_map_pos n cs ≡ some (cs ++ (n ∷ [])) =
      rw v.comps_end (link_end Comp.address cs n v.comps_distinct) in
    (
      record { comp_id_handler_map = cs ++ (n ∷ []); comp_id_handler_map_pos = next_of a },
      rw linked,
      record {
        comps_end = rw at (sym (end_of-snoc (map Comp.address cs) a));
        comps_distinct = rw at (AreDistinct-snoc _ a v.comps_distinct f);
        comps_linked = All-snoc IsLinked cs n v.comps_linked (refl, tt);
      },
      ground (arith, find-append cs n i e),
      λ j. ground (arith, find-append cs n j e, e),
    )
