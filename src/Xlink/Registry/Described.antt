-- ===== src/Xlink/Registry/Described.antt =====
-- What the calls of xlink/xlink.h mean for the lists, apart from the loops that search them: the
-- handlers of a component, those that a message calls, and a list without a handler that was given.
use gd32c103_bootloader.Common.{
  ℕ, ◌≡◌, ◌≢◌, refl, ap, ◌∙◌, arith, true, false, ◌==◌, ==_iff, List, [], ◌∷◌, none, some, All,
  Bool-cases, inl, inr, Option,
}
use gd32c103_bootloader.Xlink.Registry.{
  Handler, Comp, Registry, find_comp, is_same, is_registered, handlers_for, dispatch,
}
use gd32c103_bootloader.Xlink.Registry.Linked.{remove}
use gd32c103_bootloader.Xlink.Registry.Comps.{handlers_in, handlers}
use gd32c103_bootloader.Xlink.Registry.Laws.{IsUpdate}

-- The handlers of the first component with an identifier; none if there is no such component.
pub data Has (comp_id : ℕ) : List Comp → List Handler → Type 0 where
  absent : Has comp_id [] []
  here : (c : Comp) (cs : List Comp) → c.comp_id ≡ comp_id → Has comp_id (c ∷ cs) c.handlers_list
  later :
      (c : Comp) (cs : List Comp) (l : List Handler)
      → c.comp_id ≢ comp_id
      → Has comp_id cs l
      → Has comp_id (c ∷ cs) l

-- All the handlers with an identifier, in their order.
pub data Selects (msg_id : ℕ) : List Handler → List Handler → Type 0 where
  none_left : Selects msg_id [] []
  called :
      (h : Handler) (hs ks : List Handler)
      → h.msg_id ≡ msg_id
      → Selects msg_id hs ks
      → Selects msg_id (h ∷ hs) (h ∷ ks)
  passed :
      (h : Handler) (hs ks : List Handler)
      → h.msg_id ≢ msg_id
      → Selects msg_id hs ks
      → Selects msg_id (h ∷ hs) ks

-- What a message calls.
abbrev pub Calls : Registry → ℕ → ℕ → List Handler → Type 0
Calls r comp_id msg_id ks =
    (l : List Handler) × Has comp_id r.comp_id_handler_map l × Selects msg_id l ks

abbrev pub IsAbsent : ℕ → List Comp → Type 0
IsAbsent comp_id = All (λ c. c.comp_id ≢ comp_id)

-- The same message, function and data.
abbrev pub Fits : ℕ → ℕ → ℕ → Handler → Type 0
Fits msg_id handler user_data h =
    (h.msg_id ≡ msg_id) × (h.handler ≡ handler) × (h.user_data ≡ user_data)

abbrev pub FitsNone : ℕ → ℕ → ℕ → List Handler → Type 0
FitsNone msg_id handler user_data = All (λ h. ¬ Fits msg_id handler user_data h)

-- Two lists, of which the second is without the first handler that fits.
pub data Removes (msg_id handler user_data : ℕ) : List Handler → List Handler → Type 0 where
  first :
      (h : Handler) (hs : List Handler)
      → Fits msg_id handler user_data h
      → Removes msg_id handler user_data (h ∷ hs) hs
  behind :
      (h : Handler) (hs ks : List Handler)
      → ¬ Fits msg_id handler user_data h
      → Removes msg_id handler user_data hs ks
      → Removes msg_id handler user_data (h ∷ hs) (h ∷ ks)

-- The handlers of one component are changed as a relation says, and those of no other.
abbrev pub Updates : Registry → Registry → ℕ → (List Handler → List Handler → Type 0) → Type 0
Updates r r' comp_id R =
    (j : ℕ) (l : List Handler)
    → Has j r.comp_id_handler_map l
    → (l' : List Handler) × Has j r'.comp_id_handler_map l'
      × (j ≡ comp_id → R l l')
      × (j ≢ comp_id → l' ≡ l)

pub handlers_in-Has : (i : ℕ) (cs : List Comp) → Has i cs (handlers_in (find_comp i cs))
unfolding find_comp
handlers_in-Has i [] = absent
handlers_in-Has i (c ∷ cs) = elim (Bool-cases (c.comp_id == i)) [
  | inl e ↦ rw e (here c cs ((==_iff _ _).0 e))
  | inr e ↦ rw e (later c cs _ (λ f. absurd (ground (arith, e, f))) (handlers_in-Has i cs))
]

-- There is one list of handlers only.
pub Has-handlers :
    (i : ℕ) (cs : List Comp) (l : List Handler) → Has i cs l → l ≡ handlers_in (find_comp i cs)
unfolding find_comp
Has-handlers i _ _ absent = refl
Has-handlers i _ _ (here c cs e) = let t = (==_iff c.comp_id i).1 e in rw t refl
Has-handlers i _ _ (later c cs l ne h) =
    let t : (c.comp_id == i) ≡ false = ground (arith, ne) in rw t (Has-handlers i cs l h)

pub find_comp-IsAbsent : (i : ℕ) (cs : List Comp) → find_comp i cs ≡ none → IsAbsent i cs
unfolding find_comp
find_comp-IsAbsent i [] e = tt
find_comp-IsAbsent i (c ∷ cs) e = elim (Bool-cases (c.comp_id == i)) [
  | inl t ↦ absurd (let f : some c ≡ none = rw t at e in cc)
  | inr t ↦ (λ f. absurd (ground (arith, t, f)), find_comp-IsAbsent i cs (rw t at e))
]

pub IsAbsent-find_comp : (i : ℕ) (cs : List Comp) → IsAbsent i cs → find_comp i cs ≡ none
unfolding find_comp
IsAbsent-find_comp i [] n = refl
IsAbsent-find_comp i (c ∷ cs) n =
    let t : (c.comp_id == i) ≡ false = (let ne = n.0 in ground (arith, ne)) in
    let rest = IsAbsent-find_comp i cs n.1 in rw (t, rest) refl

pub handlers_for-Selects : (m : ℕ) (hs : List Handler) → Selects m hs (handlers_for m hs)
unfolding handlers_for
handlers_for-Selects m [] = none_left
handlers_for-Selects m (h ∷ hs) = elim (Bool-cases (h.msg_id == m)) [
  | inl e ↦ rw e (called h hs _ ((==_iff _ _).0 e) (handlers_for-Selects m hs))
  | inr e ↦ rw e (passed h hs _ (λ f. absurd (ground (arith, e, f))) (handlers_for-Selects m hs))
]

pub dispatch-handlers :
    (r : Registry) (comp_id msg_id : ℕ)
    → dispatch r comp_id msg_id ≡ handlers_for msg_id (handlers r comp_id)
unfolding dispatch handlers_for
dispatch-handlers r i m = go (find_comp i r.comp_id_handler_map)
  where
    go :
        (c : Option Comp)
        → elim c [ none ↦ [] | some c ↦ handlers_for m c.handlers_list ]
          ≡ handlers_for m (handlers_in c)
    go none = refl
    go (some c) = refl

-- The dispatch calls what the message should call.
pub dispatch-Calls : (r : Registry) (i m : ℕ) → Calls r i m (dispatch r i m)
dispatch-Calls r i m =
    rw (dispatch-handlers r i m)
      (handlers r i, handlers_in-Has i r.comp_id_handler_map, handlers_for-Selects m (handlers r i))

module _ (m hd u : ℕ) where
  is_same-Fits : (h : Handler) → is_same h m hd u ≡ true → Fits m hd u h
  unfolding is_same
  is_same-Fits h e = ground (arith, e)

  is_same-false : (h : Handler) → is_same h m hd u ≡ false → ¬ Fits m hd u h
  unfolding is_same
  is_same-false h e (a, b, c) = absurd (ground (arith, e, a, b, c))

  Fits-is_same : (h : Handler) → ¬ Fits m hd u h → is_same h m hd u ≡ false
  Fits-is_same h no_fit = elim (Bool-cases (is_same h m hd u)) [
    | inl e ↦ absurd (no_fit (is_same-Fits h e))
    | inr e ↦ e
  ]

  pub is_registered-FitsNone :
      (hs : List Handler) → is_registered hs m hd u ≡ false → FitsNone m hd u hs
  unfolding is_registered
  is_registered-FitsNone [] e = tt
  is_registered-FitsNone (h ∷ hs) e = elim (Bool-cases (is_same h m hd u)) [
    | inl t ↦ absurd (let f : true ≡ false = rw t at e in cc)
    | inr t ↦ (is_same-false h t, is_registered-FitsNone hs (rw t at e))
  ]

  pub FitsNone-is_registered :
      (hs : List Handler) → FitsNone m hd u hs → is_registered hs m hd u ≡ false
  unfolding is_registered
  FitsNone-is_registered [] n = refl
  FitsNone-is_registered (h ∷ hs) n =
      let t = Fits-is_same h n.0 in let rest = FitsNone-is_registered hs n.1 in rw (t, rest) refl

  pub remove-Removes :
      (hs : List Handler) → is_registered hs m hd u ≡ true → Removes m hd u hs (remove m hd u hs)
  unfolding is_registered remove
  remove-Removes [] e = absurd cc
  remove-Removes (h ∷ hs) e = elim (Bool-cases (is_same h m hd u)) [
    | inl t ↦ rw t (first h hs (is_same-Fits h t))
    | inr t ↦ rw t (behind h hs _ (is_same-false h t) (remove-Removes hs (rw t at e)))
  ]

  pub Removes-FitsNone : (hs ks : List Handler) → Removes m hd u hs ks → ¬ FitsNone m hd u hs
  Removes-FitsNone _ _ (first h hs fit) n = n.0 fit
  Removes-FitsNone _ _ (behind h hs ks other rest) n = Removes-FitsNone hs ks rest n.1

-- From the view by the search of the code.
pub IsUpdate-Updates :
    (r r' : Registry) (i : ℕ) (R : List Handler → List Handler → Type 0) (l1 : List Handler)
    → IsUpdate r r' i l1
    → R (handlers r i) l1
    → Updates r r' i R
IsUpdate-Updates r r' i R l1 view related j l has =
    let was = Has-handlers j r.comp_id_handler_map l has in
    (
      handlers r' j,
      handlers_in-Has j r'.comp_id_handler_map,
      λ same.
          let at : handlers r' j ≡ l1 = ground (arith, view j, same) in
          let before : l ≡ handlers r i = was ∙ ap (handlers r) same in rw (at, before) related,
      λ other. ground (arith, view j, other, was),
    )
