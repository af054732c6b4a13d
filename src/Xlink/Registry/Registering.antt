-- ===== src/Xlink/Registry/Registering.antt =====
-- What `xlink_register_msg_handler` returns and leaves on every branch.
use gd32c103_bootloader.Common.{
  ℕ, ◌≡◌, ◌≢◌, refl, sym, ap, subst, ◌∙◌, arith, Bool, true, false, List, [], ◌∷◌, ◌++◌, map,
  Option, none, some, Bool-cases, Option-cases, inl, inr,
}
use gd32c103_bootloader.Xlink.Registry.{
  Handler, next_of, Comp, Registry, Returns, find_comp, is_registered, new_handler, new_comp,
  add_handler, register,
}
use gd32c103_bootloader.Xlink.Registry.Linked.{IsFresh}
use gd32c103_bootloader.Xlink.Registry.Comps.{IsValid, handlers_in, handlers, find_comp-id}
use gd32c103_bootloader.Xlink.Registry.Laws.{IsNew, exchanged, added-Registered, add_comp_lem}
use gd32c103_bootloader.Xlink.Registry.Described.{
  Has, IsAbsent, FitsNone, Removes, Updates, handlers_in-Has, find_comp-IsAbsent,
  IsAbsent-find_comp, Has-handlers, is_registered-FitsNone, remove-Removes, Removes-FitsNone,
  IsUpdate-Updates,
}

module _ (msg_id handler user_data : ℕ) where
  -- The list with the handler behind it.
  abbrev pub Appends : ℕ → List Handler → List Handler → Type 0
  Appends a l l' = l' ≡ l ++ (new_handler a msg_id handler user_data ∷ [])

  -- The value and the registry afterwards, by what the call met.
  pub data Registered (r : Registry) (has_context locked : Bool)
      (comp_allocated allocated : Option ℕ) (comp_id : ℕ) : ℕ → Registry → Type 0 where
    no_context :
        has_context ≡ false → Registered r has_context locked comp_allocated allocated comp_id 0 r
    no_lock :
        has_context ≡ true
        → locked ≡ false
        → Registered r has_context locked comp_allocated allocated comp_id 0 r
    no_comp :
        has_context ≡ true
        → locked ≡ true
        → IsAbsent comp_id r.comp_id_handler_map
        → comp_allocated ≡ none
        → Registered r has_context locked comp_allocated allocated comp_id 0 r
    already_there :
        (l ks : List Handler)
        → has_context ≡ true
        → locked ≡ true
        → Has comp_id r.comp_id_handler_map l
        → Removes msg_id handler user_data l ks
        → Registered r has_context locked comp_allocated allocated comp_id 0 r
    no_handler :
        (r' : Registry) (l : List Handler)
        → has_context ≡ true
        → locked ≡ true
        → (IsAbsent comp_id r.comp_id_handler_map → comp_allocated ≢ none)
        → Has comp_id r.comp_id_handler_map l
        → FitsNone msg_id handler user_data l
        → allocated ≡ none
        → Updates r r' comp_id (λ k k'. k' ≡ k)
        → Registered r has_context locked comp_allocated allocated comp_id 0 r'
    added :
        (r' : Registry) (l : List Handler) (a : ℕ)
        → has_context ≡ true
        → locked ≡ true
        → (IsAbsent comp_id r.comp_id_handler_map → comp_allocated ≢ none)
        → Has comp_id r.comp_id_handler_map l
        → FitsNone msg_id handler user_data l
        → allocated ≡ some a
        → Updates r r' comp_id (Appends a)
        → Registered r has_context locked comp_allocated allocated comp_id handler r'

  -- A value, and a valid registry.
  abbrev pub Registers : Registry → Bool → Bool → Option ℕ → Option ℕ → ℕ → Returns ℕ → Type 0
  Registers r has_context locked comp_allocated allocated comp_id result =
      (code : ℕ) × (after : Registry) × (result ≡ some (code, after))
      × IsValid after
      × Registered r has_context locked comp_allocated allocated comp_id code after

  -- From the search for the handler on, in a registry that has the component and looks like that of
  -- the call.
  module _ (r r0 : Registry) (c : Comp) (comp_allocated : Option ℕ) (v : IsValid r0)
      (same : (j : ℕ) → handlers r0 j ≡ handlers r j)
      (e : find_comp c.comp_id r0.comp_id_handler_map ≡ some c)
      (back : is_registered c.handlers_list msg_id handler user_data ≡ true → r0 ≡ r)
      (supplied : IsAbsent c.comp_id r.comp_id_handler_map → comp_allocated ≢ none) where
    abbrev Continues : Option ℕ → Type 0
    Continues allocated =
        Registers r true true comp_allocated allocated c.comp_id
          (add_handler r0 c msg_id handler user_data allocated)

    seen : handlers r c.comp_id ≡ c.handlers_list
    seen = sym (same c.comp_id) ∙ ap handlers_in e

    has : Has c.comp_id r.comp_id_handler_map c.handlers_list
    has = rw (← seen) (handlers_in-Has c.comp_id r.comp_id_handler_map)

    there :
        (allocated : Option ℕ)
        → is_registered c.handlers_list msg_id handler user_data ≡ true
        → Continues allocated
    unfolding add_handler
    there allocated q = (
      0,
      r0,
      rw (add_handler, q) refl,
      v,
      subst (Registered r true true comp_allocated allocated c.comp_id 0) (sym (back q)) (
          already_there c.handlers_list _ refl refl has
            (remove-Removes msg_id handler user_data c.handlers_list q)),
    )

    full : is_registered c.handlers_list msg_id handler user_data ≡ false → Continues none
    unfolding add_handler
    full q = (
      0,
      r0,
      rw (add_handler, q) refl,
      v,
      no_handler r0 c.handlers_list refl refl supplied has
          (is_registered-FitsNone msg_id handler user_data c.handlers_list q) refl
          (IsUpdate-Updates r r0 c.comp_id (λ k k'. k' ≡ k) c.handlers_list
            (λ j. ground (arith, same j, seen)) (sym seen)),
    )

    room :
        (a : ℕ)
        → IsFresh a (map Handler.address c.handlers_list)
        → is_registered c.handlers_list msg_id handler user_data ≡ false
        → Continues (some a)
    room a f q =
        let p = added-Registered msg_id handler user_data r0 c a v e f q in
        let l = c.handlers_list ++ (new_handler a msg_id handler user_data ∷ []) in
        let after = exchanged r0 c l (next_of a) in
        (
          handler,
          after,
          p.0,
          p.1,
          added after c.handlers_list a refl refl supplied has
              (is_registered-FitsNone msg_id handler user_data c.handlers_list q) refl
              (IsUpdate-Updates r after c.comp_id (Appends a) l (λ j. ground (arith, p.2 j, same j))
                (ap (λ k. k ++ (new_handler a msg_id handler user_data ∷ [])) (sym seen))),
        )

    add_handler-Registers :
        (allocated : Option ℕ)
        → IsNew allocated (map Handler.address c.handlers_list)
        → Continues allocated
    add_handler-Registers allocated f =
        elim (Bool-cases (is_registered c.handlers_list msg_id handler user_data)) [
          | inl q ↦ there allocated q
          | inr q ↦ new allocated f q
        ]
      where
        new :
            (allocated : Option ℕ)
            → IsNew allocated (map Handler.address c.handlers_list)
            → is_registered c.handlers_list msg_id handler user_data ≡ false
            → Continues allocated
        new none f q = full q
        new (some a) f q = room a f q

IsNew-nil : (allocated : Option ℕ) → IsNew allocated []
IsNew-nil none = tt
IsNew-nil (some a) = tt

register_missing :
    (r : Registry) (comp_allocated allocated : Option ℕ) (i m h u : ℕ)
    → IsValid r
    → find_comp i r.comp_id_handler_map ≡ none
    → IsNew comp_allocated (map Comp.address r.comp_id_handler_map)
    → Registers m h u r true true comp_allocated allocated i
        (register r true true comp_allocated allocated i m h u)
unfolding register is_registered
register_missing r none allocated i m h u v e f =
    (0, r, rw e refl, v, no_comp refl refl (find_comp-IsAbsent i r.comp_id_handler_map e) refl)
register_missing r (some a) allocated i m h u v e f =
    let (r', runs, valid, found, same) = add_comp_lem r a i v e f in
    rw (e, runs)
      (add_handler-Registers m h u r r' (new_comp a i) (some a) valid same found
        (λ q. absurd (let no_handlers : false ≡ true = q in cc)) (λ gone q. absurd cc) allocated
        (IsNew-nil allocated))

-- From a valid registry, if `malloc_fn` returns addresses that are not in use, registering a handler
-- never writes through a dangling pointer and leaves a valid registry, on every branch. NULL is
-- returned and the registry stays as it is without a context, without the lock, without memory for a
-- component that is missing, and for a handler with the same message, function and data that is there
-- already. NULL is returned and no component has other handlers if there is no memory for the handler.
-- Else the handler is returned, and stands behind the handlers of its component, while those of all
-- other components stay.
pub register-Registered :
    (r : Registry) (has_context locked : Bool) (comp_allocated allocated : Option ℕ)
    (comp_id msg_id handler user_data : ℕ)
    → IsValid r
    → IsNew comp_allocated (map Comp.address r.comp_id_handler_map)
    → IsNew allocated (map Handler.address (handlers r comp_id))
    → Registers msg_id handler user_data r has_context locked comp_allocated allocated comp_id
        (register r has_context locked comp_allocated allocated comp_id msg_id handler user_data)
unfolding register
register-Registered r false locked ca a i m h u v fc fa = (0, r, refl, v, no_context refl)
register-Registered r true false ca a i m h u v fc fa = (0, r, refl, v, no_lock refl refl)
register-Registered r true true ca a i m h u v fc fa =
    elim (Option-cases (find_comp i r.comp_id_handler_map)) [
      | inr (c, e) ↦
          let id = find_comp-id r.comp_id_handler_map i c e in
          let at : find_comp c.comp_id r.comp_id_handler_map ≡ some c =
            ap (λ k. find_comp k r.comp_id_handler_map) id ∙ e in
          rw e (
            subst (λ k. Registers m h u r true true ca a k (add_handler r c m h u a)) id
              (add_handler-Registers m h u r r c ca v (λ j. refl) at (λ q. refl)
                (λ gone q. absurd (let none_there = IsAbsent-find_comp _ _ gone in cc)) a
                (rw e at fa)))
      | inl e ↦ register_missing r ca a i m h u v e fc
    ]

-- From a valid registry a handler that its component does not have yet, with that message, function
-- and data, is registered, if the lock is taken and `malloc_fn` returns new addresses: the call
-- returns the handler, and it stands behind the handlers of its component, while those of the other
-- components stay.
pub register-adds :
    (r : Registry) (b a comp_id msg_id handler user_data : ℕ) (l : List Handler)
    → IsValid r
    → IsFresh b (map Comp.address r.comp_id_handler_map)
    → Has comp_id r.comp_id_handler_map l
    → IsFresh a (map Handler.address l)
    → FitsNone msg_id handler user_data l
    → (r' : Registry) × (register r true true (some b) (some a) comp_id msg_id handler user_data
        ≡ some (handler, r'))
      × IsValid r'
      × Updates r r' comp_id (Appends msg_id handler user_data a)
register-adds r b a i m h u l v fb has fa none_fits =
    let l_lem : l ≡ handlers r i = Has-handlers i r.comp_id_handler_map l has in
    let (code, after, runs, valid, what) =
      register-Registered r true true (some b) (some a) i m h u v fb
        (subst (λ k. IsFresh a (map Handler.address k)) l_lem fa) in
    go code after runs valid what
  where
    go :
        (code : ℕ) (after : Registry)
        → register r true true (some b) (some a) i m h u ≡ some (code, after)
        → IsValid after
        → Registered m h u r true true (some b) (some a) i code after
        → (r' : Registry) × (register r true true (some b) (some a) i m h u ≡ some (h, r'))
          × IsValid r'
          × Updates r r' i (Appends m h u a)
    go _ _ runs valid (no_context e) = absurd cc
    go _ _ runs valid (no_lock e f) = absurd cc
    go _ _ runs valid (no_comp e f g k) = absurd cc
    go _ _ runs valid (already_there l' ks e f has' removes) =
        let same : l' ≡ l =
          Has-handlers i r.comp_id_handler_map l' has'
          ∙ sym (Has-handlers i r.comp_id_handler_map l has) in
        absurd (Removes-FitsNone m h u l' ks removes (subst (FitsNone m h u) (sym same) none_fits))
    go _ _ runs valid (no_handler r' l' e f g has' n k update) = absurd cc
    go _ _ runs valid (added r' l' a' e f g has' n k update) =
        let same : a' ≡ a = cc in
        (r', runs, valid, subst (λ x. Updates r r' i (Appends m h u x)) same update)
