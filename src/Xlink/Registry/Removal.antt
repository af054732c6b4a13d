-- ===== src/Xlink/Registry/Removal.antt =====
-- What `xlink_unregister_msg_handler` returns and leaves on every branch.
use gd32c103_bootloader.Common.{
  ℕ, ◌≡◌, refl, sym, ap, subst, ◌∙◌, arith, Bool, true, false, List, [], ◌∷◌, map, some, Bool-cases,
  Option-cases, inl, inr,
}
use gd32c103_bootloader.Xlink.Registry.{
  Handler, head, Comp, Registry, find_comp, is_registered, is_same, Unregistered, removed,
  no_context, no_lock, no_comp, no_handler, unregister,
}
use gd32c103_bootloader.Xlink.Registry.Linked.{end_of, IsFresh, AreDistinct, remove, unlink_lem}
use gd32c103_bootloader.Xlink.Registry.Comps.{
  IsLinked, IsValid, handlers_in, handlers, find_comp-id, find_comp-All,
}
use gd32c103_bootloader.Xlink.Registry.Laws.{exchanged, exchanged-IsValid, exchanged-IsUpdate}
use gd32c103_bootloader.Xlink.Registry.Described.{
  Has, IsAbsent, FitsNone, Removes, Updates, handlers_in-Has, find_comp-IsAbsent,
  IsAbsent-find_comp, is_registered-FitsNone, remove-Removes, IsUpdate-Updates,
}

remove-IsFresh :
    (hs : List Handler) (a m h u : ℕ)
    → IsFresh a (map Handler.address hs)
    → IsFresh a (map Handler.address (remove m h u hs))
unfolding remove
remove-IsFresh [] a m h u f = tt
remove-IsFresh (x ∷ hs) a m h u f = elim (Bool-cases (is_same x m h u)) [
  | inl e ↦ rw e f.1
  | inr e ↦ rw e (f.0, remove-IsFresh hs a m h u f.1)
]

remove-AreDistinct :
    (hs : List Handler) (m h u : ℕ)
    → AreDistinct (map Handler.address hs)
    → AreDistinct (map Handler.address (remove m h u hs))
unfolding remove
remove-AreDistinct [] m h u d = tt
remove-AreDistinct (x ∷ hs) m h u d = elim (Bool-cases (is_same x m h u)) [
  | inl e ↦ rw e d.1
  | inr e ↦ rw e (remove-IsFresh hs x.address m h u d.0, remove-AreDistinct hs m h u d.1)
]

module _ (msg_id handler user_data : ℕ) where
  -- The value and the registry afterwards, by what the call met.
  pub data Leaves (r : Registry) (has_context locked : Bool) (comp_id : ℕ)
      : Unregistered → Registry → Type 0 where
    without_context : has_context ≡ false → Leaves r has_context locked comp_id no_context r
    without_lock :
        has_context ≡ true → locked ≡ false → Leaves r has_context locked comp_id no_lock r
    without_comp :
        has_context ≡ true
        → locked ≡ true
        → IsAbsent comp_id r.comp_id_handler_map
        → Leaves r has_context locked comp_id no_comp r
    without_handler :
        (l : List Handler)
        → has_context ≡ true
        → locked ≡ true
        → ¬ IsAbsent comp_id r.comp_id_handler_map
        → Has comp_id r.comp_id_handler_map l
        → FitsNone msg_id handler user_data l
        → Leaves r has_context locked comp_id no_handler r
    takes_out :
        (r' : Registry) (l ks : List Handler)
        → has_context ≡ true
        → locked ≡ true
        → Has comp_id r.comp_id_handler_map l
        → Removes msg_id handler user_data l ks
        → Updates r r' comp_id (λ k k'. Removes msg_id handler user_data k k')
        → Leaves r has_context locked comp_id removed r'

  abbrev pub Unregisters : Registry → Bool → Bool → ℕ → Unregistered × Registry → Type 0
  Unregisters r has_context locked comp_id result =
      IsValid result.1 × Leaves r has_context locked comp_id result.0 result.1

unregister_found :
    (r : Registry) (c : Comp) (i m h u : ℕ)
    → IsValid r
    → find_comp i r.comp_id_handler_map ≡ some c
    → Unregisters m h u r true true i (unregister r true true i m h u)
unregister_found r c i m h u v e =
    let id = find_comp-id r.comp_id_handler_map i c e in
    let at : find_comp c.comp_id r.comp_id_handler_map ≡ some c =
      ap (λ k. find_comp k r.comp_id_handler_map) id ∙ e in
    let linked : IsLinked c = find_comp-All IsLinked _ i c v.comps_linked e in
    let loop = unlink_lem m h u c.handlers_list head c.handlers_list_pos linked.1 linked.0 in
    let seen : handlers r i ≡ c.handlers_list = ap handlers_in e in
    let has : Has i r.comp_id_handler_map c.handlers_list =
      subst (Has i r.comp_id_handler_map) seen (handlers_in-Has i r.comp_id_handler_map) in
    elim (Bool-cases (is_registered c.handlers_list m h u)) [
      | inl q ↦
          let l = remove m h u c.handlers_list in
          let tail = end_of (map Handler.address l) in
          let removes = remove-Removes m h u c.handlers_list q in
          let runs : unregister r true true i m h u ≡ (removed, exchanged r c l tail) =
            unfold unregister in rw (e, loop, q) refl in
          subst (Unregisters m h u r true true i) (sym runs) (
            exchanged-IsValid r c l tail v at
                (refl, remove-AreDistinct c.handlers_list m h u linked.1),
            takes_out (exchanged r c l tail) c.handlers_list l refl refl has removes (
                IsUpdate-Updates r (exchanged r c l tail) i (Removes m h u) l
                  (λ j. ground (arith, exchanged-IsUpdate r c l tail at j, id))
                  (subst (λ k. Removes m h u k l) (sym seen) removes)),
          )
      | inr q ↦
          let runs : unregister r true true i m h u ≡ (no_handler, r) =
            unfold unregister in rw (e, loop, q) refl in
          subst (Unregisters m h u r true true i) (sym runs) (
            v,
            without_handler c.handlers_list refl refl
                (λ gone. absurd (let none_there = IsAbsent-find_comp i _ gone in cc)) has
                (is_registered-FitsNone m h u c.handlers_list q),
          )
    ]

-- From a valid registry unregistering leaves a valid registry, whose tail pointers point to no
-- element that was freed, on every branch: -1 without a context, -2 without the lock, -3 if there is
-- no component with the identifier, -4 if none of its handlers has that message, function and data,
-- all with the registry as it was. Else 0 is returned, and the first handler that has them is taken
-- out of its component, and no other handler of any component.
pub unregister_lem :
    (r : Registry) (has_context locked : Bool) (comp_id msg_id handler user_data : ℕ)
    → IsValid r
    → Unregisters msg_id handler user_data r has_context locked comp_id
        (unregister r has_context locked comp_id msg_id handler user_data)
unregister_lem r false locked i m h u v = unfold unregister in (v, without_context refl)
unregister_lem r true false i m h u v = unfold unregister in (v, without_lock refl refl)
unregister_lem r true true i m h u v = elim (Option-cases (find_comp i r.comp_id_handler_map)) [
  | inr (c, e) ↦ unregister_found r c i m h u v e
  | inl e ↦
      let runs : unregister r true true i m h u ≡ (no_comp, r) = unfold unregister in rw e refl in
      subst (Unregisters m h u r true true i) (sym runs)
        (v, without_comp refl refl (find_comp-IsAbsent i r.comp_id_handler_map e))
]
