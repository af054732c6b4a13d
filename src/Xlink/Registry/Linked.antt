-- ===== src/Xlink/Registry/Linked.antt =====
-- A linked list with a pointer to its last `next`: appending through it, and taking an element out.
use gd32c103_bootloader.Common.{
  ℕ, ◌≡◌, ◌≢◌, refl, arith, if◌then◌else◌, List, [], ◌∷◌, ◌++◌, map, none, some, All,
}
use gd32c103_bootloader.Xlink.Registry.{
  Handler, Cell, head, next_of, link, unlink, is_same, is_registered,
}

-- The last of some addresses.
abbrev pub last_address : ℕ → List ℕ → ℕ
last_address a [] = a
last_address a (b ∷ l) = last_address b l

-- The last cell of a list that hangs on a cell, by the addresses of its elements.
abbrev pub end_from : Cell → List ℕ → Cell
end_from c [] = c
end_from c (a ∷ l) = next_of (last_address a l)

abbrev pub end_of : List ℕ → Cell
end_of = end_from head

end_from_next : (a : ℕ) (l : List ℕ) → end_from (next_of a) l ≡ next_of (last_address a l)
end_from_next a [] = refl
end_from_next a (b ∷ l) = refl

abbrev pub IsFresh : ℕ → List ℕ → Type 0
IsFresh a = All (λ b. b ≢ a)

abbrev pub AreDistinct : List ℕ → Type 0
AreDistinct [] = Unit {0}
AreDistinct (a ∷ l) = IsFresh a l × AreDistinct l

last_address-ne : (l : List ℕ) (a z : ℕ) → a ≢ z → IsFresh z l → last_address a l ≢ z
last_address-ne [] a z ne h = ne
last_address-ne (b ∷ l) a z ne h = last_address-ne l b z h.0 h.1

module _ {A : Type 0} (address : A → ℕ) where
  link_behind :
      (l : List A) (x e : A)
      → AreDistinct (map address (x ∷ l))
      → link address (next_of (last_address (address x) (map address l))) e (x ∷ l)
        ≡ some (x ∷ (l ++ (e ∷ [])))
  unfolding link
  link_behind [] x e h = ground arith
  link_behind (y ∷ l) x e h =
      let ih = link_behind l y e h.1 in
      let ne = last_address-ne (map address l) (address y) (address x) h.0.0 h.0.1 in
      ground (arith, ih, ne)

  -- A write through the last cell appends.
  pub link_end :
      (l : List A) (e : A)
      → AreDistinct (map address l)
      → link address (end_of (map address l)) e l ≡ some (l ++ (e ∷ []))
  link_end [] e h = unfold link in refl
  link_end (x ∷ l) e h = link_behind l x e h

module _ (msg_id handler user_data : ℕ) where
  -- The list without the first handler that fits.
  unfoldable pub remove : List Handler → List Handler
  remove [] = []
  remove (h ∷ hs) = if is_same h msg_id handler user_data then hs else h ∷ remove hs

  -- The loop's result, with the tail pointer at the end of the list before and after.
  pub unlink_lem :
      (hs : List Handler) (pos tail : Cell)
      → AreDistinct (map Handler.address hs)
      → tail ≡ end_from pos (map Handler.address hs)
      → unlink pos hs tail msg_id handler user_data ≡ (
          if is_registered hs msg_id handler user_data
          then some (remove hs, end_from pos (map Handler.address (remove hs)))
          else none)
  unfolding unlink is_registered remove
  unlink_lem [] pos tail d e = refl
  unlink_lem (h ∷ []) pos tail d e = rw e (ground arith)
  unlink_lem (h ∷ k ∷ hs) pos tail d e =
      let ne = last_address-ne (map Handler.address hs) k.address h.address d.0.0 d.0.1 in
      let ih = unlink_lem (k ∷ hs) (next_of h.address) tail d.1 e in
      let at = end_from_next h.address (map Handler.address (remove (k ∷ hs))) in
      ground (arith, ih, at, ne)
