-- ===== src/Xlink/Registry/Comps.antt =====
-- The list of components: the invariant, finding and exchanging an element, and appending one.
use gd32c103_bootloader.Common.{
  ℕ, ◌≡◌, ◌≢◌, refl, sym, ap, subst, arith, ◌==◌, if◌then◌else◌, List, [], ◌∷◌, ◌++◌, map, Option,
  none, some, All, Bool-cases, inl, inr,
}
use gd32c103_bootloader.Xlink.Registry.{Handler, next_of, Comp, Registry, find_comp, replace_comp}
use gd32c103_bootloader.Xlink.Registry.Linked.{last_address, end_of, IsFresh, AreDistinct}

abbrev pub IsLinked : Comp → Type 0
IsLinked c =
    (c.handlers_list_pos ≡ end_of (map Handler.address c.handlers_list))
    × AreDistinct (map Handler.address c.handlers_list)

-- Every tail pointer is at the end of its list, and no list holds an element twice.
pub record IsValid (r : Registry) : Type 0 where
  pub comps_end : r.comp_id_handler_map_pos ≡ end_of (map Comp.address r.comp_id_handler_map)
  pub comps_distinct : AreDistinct (map Comp.address r.comp_id_handler_map)
  pub comps_linked : All IsLinked r.comp_id_handler_map

abbrev pub handlers_in : Option Comp → List Handler
handlers_in none = []
handlers_in (some c) = c.handlers_list

-- The abstract view: the handlers of a component, in the order of their registration.
abbrev pub handlers : Registry → ℕ → List Handler
handlers r comp_id = handlers_in (find_comp comp_id r.comp_id_handler_map)

pub find_comp-id : (cs : List Comp) (i : ℕ) (c : Comp) → find_comp i cs ≡ some c → c.comp_id ≡ i
unfolding find_comp
find_comp-id [] i c e = cc
find_comp-id (x ∷ cs) i c e = ground (arith, find_comp-id cs i c)

pub find_comp-All :
    (P : Comp → Type 0) (cs : List Comp) (i : ℕ) (c : Comp)
    → All P cs
    → find_comp i cs ≡ some c
    → P c
unfolding find_comp
find_comp-All P [] i c h e = cc
find_comp-All P (x ∷ cs) i c h e = elim (Bool-cases (x.comp_id == i)) [
  | inl hit ↦ subst P (some_inj (rw hit at e)) h.0
  | inr miss ↦ find_comp-All P cs i c h.1 (rw miss at e)
]
  where
    some_inj : {a b : Comp} → some a ≡ some b → a ≡ b
    some_inj q = cc

-- Exchanging the element that was found, for one of the same component at the same address.
module _ (i : ℕ) (c new : Comp) (id : new.comp_id ≡ i) where
  pub address-replace :
      (cs : List Comp)
      → find_comp i cs ≡ some c
      → new.address ≡ c.address
      → map Comp.address (replace_comp i new cs) ≡ map Comp.address cs
  unfolding find_comp replace_comp
  address-replace [] e q = refl
  address-replace (x ∷ cs) e q = ground (arith, address-replace cs)

  pub find-replace :
      (cs : List Comp) (j : ℕ)
      → find_comp i cs ≡ some c
      → find_comp j (replace_comp i new cs) ≡ (if j == i then some new else find_comp j cs)
  unfolding find_comp replace_comp
  find-replace [] j e = cc
  find-replace (x ∷ cs) j e = ground (arith, find-replace cs j)

  pub replace-All :
      (P : Comp → Type 0) (cs : List Comp) → P new → All P cs → All P (replace_comp i new cs)
  unfolding replace_comp
  replace-All P [] p h = tt
  replace-All P (x ∷ cs) p h = elim (Bool-cases (x.comp_id == i)) [
    | inl hit ↦ rw hit (p, h.1)
    | inr miss ↦ rw miss (h.0, replace-All P cs p h.1)
  ]

pub find-append :
    (cs : List Comp) (n : Comp) (j : ℕ)
    → find_comp n.comp_id cs ≡ none
    → find_comp j (cs ++ (n ∷ [])) ≡ (if j == n.comp_id then some n else find_comp j cs)
unfolding find_comp
find-append [] n j e = ground arith
find-append (x ∷ cs) n j e = ground (arith, find-append cs n j)

pub All-snoc :
    {A : Type 0} (P : A → Type 0) (xs : List A) (x : A) → All P xs → P x → All P (xs ++ (x ∷ []))
All-snoc P [] x h p = (p, tt)
All-snoc P (y ∷ xs) x h p = (h.0, All-snoc P xs x h.1 p)

pub AreDistinct-snoc :
    (l : List ℕ) (a : ℕ) → AreDistinct l → IsFresh a l → AreDistinct (l ++ (a ∷ []))
AreDistinct-snoc [] a d f = (tt, tt)
AreDistinct-snoc (b ∷ l) a d f =
    (All-snoc (λ x. x ≢ b) l a d.0 (λ e. f.0 (sym e)), AreDistinct-snoc l a d.1 f.1)

last_address-snoc : (b : ℕ) (l : List ℕ) (a : ℕ) → last_address b (l ++ (a ∷ [])) ≡ a
last_address-snoc b [] a = refl
last_address-snoc b (c ∷ l) a = last_address-snoc c l a

pub end_of-snoc : (l : List ℕ) (a : ℕ) → end_of (l ++ (a ∷ [])) ≡ next_of a
end_of-snoc [] a = refl
end_of-snoc (b ∷ l) a = ap next_of (last_address-snoc b l a)

pub address-snoc :
    {A : Type 0} (f : A → ℕ) (xs : List A) (x : A) → map f (xs ++ (x ∷ [])) ≡ map f xs ++ (f x ∷ [])
address-snoc f [] x = refl
address-snoc f (y ∷ xs) x = ap (λ t. f y ∷ t) (address-snoc f xs x)
