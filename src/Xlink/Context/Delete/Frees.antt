-- ===== src/Xlink/Context/Delete/Frees.antt =====
-- `xlink_context_delete` gives back what a context holds, once.
use mathlib.Core.Option
use gd32c103_bootloader.Common.{
  ℕ, ◌≡◌, refl, ap, arith, Bool, true, false, ◌&&◌, ◌==◌, if◌then◌else◌, List, [], ◌∷◌, ◌++◌, All,
  map, Option, some,
}
use gd32c103_bootloader.Xlink.Registry.{Handler, Comp}
use gd32c103_bootloader.Xlink.Registry.Linked.{IsFresh, AreDistinct}
use gd32c103_bootloader.Xlink.Context.Delete.{
  Live, without, delete_handlers, delete_comps, Owned, xlink_context_delete,
}

abbrev pub member : ℕ → List ℕ → Bool
member x [] = false
member x (y ∷ ys) = if y == x then true else member x ys

member-append :
    (x : ℕ) (xs ys : List ℕ) → member x (xs ++ ys) ≡ (if member x xs then true else member x ys)
member-append x [] ys = refl
member-append x (z ∷ xs) ys = ground (arith, member-append x xs ys)

-- The blocks of some components, in the order in which they are given back.
abbrev pub blocks : List Comp → List ℕ
blocks [] = []
blocks (c ∷ cs) = map Handler.address c.handlers_list ++ (c.address ∷ blocks cs)

abbrev pub AllLive : Live → List ℕ → Type 0
AllLive live = All (λ a. live a ≡ true)

-- The call gives back these blocks and no others.
abbrev pub Frees : List ℕ → Live → Option Live → Type 0
Frees l live result =
    (live' : Live) × (result ≡ some live')
    × ((x : ℕ) → live' x ≡ (if member x l then false else live x))

AllLive-keep :
    (l : List ℕ) (gone : List ℕ) (live live' : Live)
    → All (λ x. member x gone ≡ false) l
    → ((x : ℕ) → live' x ≡ (if member x gone then false else live x))
    → AllLive live l
    → AllLive live' l
AllLive-keep [] gone live live' out same h = tt
AllLive-keep (x ∷ l) gone live live' out same h =
    (rw (same x, out.0) h.0, AllLive-keep l gone live live' out.1 same h.1)

IsFresh-member : (a : ℕ) (l : List ℕ) → IsFresh a l → All (λ x. member x (a ∷ []) ≡ false) l
IsFresh-member a [] f = tt
IsFresh-member a (x ∷ l) f = (ground (arith, f.0), IsFresh-member a l f.1)

AreDistinct-parts :
    (xs ys : List ℕ)
    → AreDistinct (xs ++ ys)
    → AreDistinct xs × AreDistinct ys × All (λ y. member y xs ≡ false) ys
AreDistinct-parts [] ys d = (tt, d, none_in ys)
  where
    none_in : (l : List ℕ) → All (λ y. member y [] ≡ false) l
    none_in [] = tt
    none_in (y ∷ l) = (refl, none_in l)
AreDistinct-parts (x ∷ xs) ys d =
    let (dx, dy, out) = AreDistinct-parts xs ys d.1 in
    ((front xs ys x d.0, dx), dy, both ys x xs (back xs ys x d.0) out)
  where
    front : (l k : List ℕ) (a : ℕ) → IsFresh a (l ++ k) → IsFresh a l
    front [] k a f = tt
    front (z ∷ l) k a f = (f.0, front l k a f.1)

    back : (l k : List ℕ) (a : ℕ) → IsFresh a (l ++ k) → IsFresh a k
    back [] k a f = f
    back (z ∷ l) k a f = back l k a f.1

    both :
        (k : List ℕ) (a : ℕ) (l : List ℕ)
        → IsFresh a k
        → All (λ y. member y l ≡ false) k
        → All (λ y. member y (a ∷ l) ≡ false) k
    both [] a l f o = tt
    both (y ∷ k) a l f o = (ground (arith, f.0, o.0), both k a l f.1 o.1)

AllLive-parts :
    (live : Live) (xs ys : List ℕ) → AllLive live (xs ++ ys) → AllLive live xs × AllLive live ys
AllLive-parts live [] ys h = (tt, h)
AllLive-parts live (x ∷ xs) ys h = let (hx, hy) = AllLive-parts live xs ys h.1 in ((h.0, hx), hy)

without_lem :
    (a : ℕ) (live : Live) (x : ℕ) → without a live x ≡ (if member x (a ∷ []) then false else live x)
without_lem a live x = ground arith

-- One call after the other.
then-Frees :
    (l k : List ℕ) (live mid : Live) (result : Option Live)
    → ((x : ℕ) → mid x ≡ (if member x l then false else live x))
    → Frees k mid result
    → Frees (l ++ k) live result
then-Frees l k live mid result first (live', e, second) =
    (live', e, λ x. ground (arith, first x, second x, member-append x l k))

delete_handlers-Frees :
    (hs : List Handler) (live : Live)
    → AreDistinct (map Handler.address hs)
    → AllLive live (map Handler.address hs)
    → Frees (map Handler.address hs) live (delete_handlers hs live)
unfolding delete_handlers
delete_handlers-Frees [] live d h = (live, refl, λ x. refl)
delete_handlers-Frees (x ∷ hs) live d h =
    let mid = without x.address live in
    let same = without_lem x.address live in
    let fresh = IsFresh-member x.address (map Handler.address hs) d.0 in
    let kept = AllLive-keep (map Handler.address hs) (x.address ∷ []) live mid fresh same h.1 in
    let rest = delete_handlers-Frees hs mid d.1 kept in
    let (live', runs, view) =
      then-Frees (x.address ∷ []) (map Handler.address hs) live mid (delete_handlers hs mid) same
        rest in
    (live', rw (delete_handlers, h.0) runs, view)

delete_comps-Frees :
    (cs : List Comp) (live : Live)
    → AreDistinct (blocks cs)
    → AllLive live (blocks cs)
    → Frees (blocks cs) live (delete_comps cs live)
unfolding delete_comps
delete_comps-Frees [] live d h = (live, refl, λ x. refl)
delete_comps-Frees (c ∷ cs) live d h =
    let hs = map Handler.address c.handlers_list in
    let later = c.address ∷ blocks cs in
    let (dh, dl, out) = AreDistinct-parts hs later d in
    let (lh, ll) = AllLive-parts live hs later h in
    let (rest, e, same) = delete_handlers-Frees c.handlers_list live dh lh in
    let kept = AllLive-keep later hs live rest out same ll in
    let mid = without c.address rest in
    let fresh = IsFresh-member c.address (blocks cs) dl.0 in
    let one = without_lem c.address rest in
    let others =
      delete_comps-Frees cs mid dl.1
        (AllLive-keep (blocks cs) (c.address ∷ []) rest mid fresh one kept.1) in
    let after = then-Frees (c.address ∷ []) (blocks cs) rest mid (delete_comps cs mid) one others in
    let (live', runs, view) = then-Frees hs later live rest (delete_comps cs mid) same after in
    (live', rw (delete_comps, ll.0, e, kept.0) runs, view)

-- The blocks of a context: those of its components, and its own.
abbrev pub context_blocks : Owned → List ℕ
context_blocks c = blocks c.registry.comp_id_handler_map ++ (c.address ∷ [])

-- Deleting a context with a port, whose blocks are all in use and lie at different addresses, gives
-- back each of them once, and no other block; it reads from no block that it has given back. The
-- mutex is deleted exactly if there is one and the port can delete it.
pub xlink_context_delete-Frees :
    (c : Owned) (live : Live)
    → c.has_port ≡ true
    → AreDistinct (context_blocks c)
    → AllLive live (context_blocks c)
    → (live' : Live) × (xlink_context_delete (some c) live
        ≡ some (live', c.has_mutex && c.deletes_mutex))
      × ((x : ℕ) → live' x ≡ (if member x (context_blocks c) then false else live x))
unfolding xlink_context_delete
xlink_context_delete-Frees c live port d h =
    let bs = blocks c.registry.comp_id_handler_map in
    let (db, dc, out) = AreDistinct-parts bs (c.address ∷ []) d in
    let (lb, lc) = AllLive-parts live bs (c.address ∷ []) h in
    let (rest, e, same) = delete_comps-Frees c.registry.comp_id_handler_map live db lb in
    let kept = AllLive-keep (c.address ∷ []) bs live rest out same lc in
    let last : Frees (c.address ∷ []) rest (some (without c.address rest)) =
      (without c.address rest, refl, without_lem c.address rest) in
    let (live', runs, view) = then-Frees bs (c.address ∷ []) live rest _ same last in
    (
      live',
      rw (xlink_context_delete, lc.0, port, e, kept.0)
          (ap (Option.map (λ l. (l, c.has_mutex && c.deletes_mutex))) runs),
      view,
    )
