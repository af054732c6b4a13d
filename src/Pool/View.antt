-- ===== src/Pool/View.antt =====
-- A pool as its clients see it: which addresses are taken, and how many.
use native.Mathlib.Nat.{mul-mod_left, mul-div_left, div-add-mod}
use gd32c103_bootloader.Common.{
  ℕ, zero, suc, ◌+◌, ◌-◌, ◌*◌, ◌/◌, ◌%◌, ◌≤◌, ◌<◌, ◌≡◌, ◌≢◌, refl, sym, ap, subst, ◌∙◌, arith, Bool,
  true, false, not, ◌&&◌, ltb, leb, ◌==◌, ==_iff, if◌then◌else◌, Bool-cases, inl, inr, List, [],
  ◌∷◌, set, get_or, length, length-set, Option, none, some,
}
use gd32c103_bootloader.Pool.{Pool, os_pool_alloc, os_pool_free}
use gd32c103_bootloader.Pool.Alloc.{
  IsValid, Allocates, exhausted, taken, os_pool_alloc-Allocates, os_pool_free_lem, marked-IsValid,
}

abbrev count_taken : List ℕ → ℕ
count_taken [] = 0
count_taken (x ∷ l) = if x == 0 then count_taken l else suc (count_taken l)

-- How many items are taken.
unfoldable pub used : Pool → ℕ
used p = count_taken p.markers

-- Whether the place of an address, if it is that of an item, is marked.
unfoldable pub is_taken : Pool → ℕ → Bool
is_taken p a =
    leb p.pool a
    && ((a - p.pool) % p.item_sz == 0
        && (ltb ((a - p.pool) / p.item_sz) p.pool_sz
            && not (get_or p.markers ((a - p.pool) / p.item_sz) 0 == 0)))

count_taken-le : (l : List ℕ) → count_taken l ≤ length l
count_taken-le [] = omega arith
count_taken-le (x ∷ l) = ground (arith, count_taken-le l)

count_taken-mark :
    (l : List ℕ) (i : ℕ)
    → i < length l
    → get_or l i 0 ≡ 0
    → count_taken (set l i 1) ≡ count_taken l + 1
count_taken-mark [] i h e = absurd (omega arith)
count_taken-mark (x ∷ l) zero h e = ground arith
count_taken-mark (x ∷ l) (suc i) h e = ground (arith, count_taken-mark l i)

count_taken-unmark :
    (l : List ℕ) (i : ℕ) → get_or l i 0 ≢ 0 → count_taken (set l i 0) + 1 ≡ count_taken l
count_taken-unmark [] i e = absurd (e refl)
count_taken-unmark (x ∷ l) zero e = ground arith
count_taken-unmark (x ∷ l) (suc i) e = ground (arith, count_taken-unmark l i)

count_taken-full :
    (l : List ℕ) → ((i : ℕ) → i < length l → get_or l i 0 ≡ 0 → ⊥) → count_taken l ≡ length l
count_taken-full [] h = refl
count_taken-full (x ∷ l) h =
    let rest = count_taken-full l (λ i lt e. h (suc i) (omega arith) e) in
    let here = h 0 (omega arith) in ground (arith, rest, here)

get_or-set :
    (l : List ℕ) (i j v : ℕ)
    → i < length l
    → get_or (set l i v) j 0 ≡ (if j == i then v else get_or l j 0)
get_or-set [] i j v h = absurd (omega arith)
get_or-set (x ∷ l) zero zero v h = refl
get_or-set (x ∷ l) zero (suc j) v h = ground arith
get_or-set (x ∷ l) (suc i) zero v h = ground arith
get_or-set (x ∷ l) (suc i) (suc j) v h = ground (arith, get_or-set l i j v)

is_taken-at :
    (p : Pool) (i : ℕ)
    → IsValid p
    → i < p.pool_sz
    → is_taken p (p.pool + i * p.item_sz) ≡ not (get_or p.markers i 0 == 0)
unfolding is_taken
is_taken-at p i v lt =
    let off : p.pool + i * p.item_sz - p.pool ≡ i * p.item_sz = omega arith in
    let below : leb p.pool (p.pool + i * p.item_sz) ≡ true = ground arith in
    let inside : ltb i p.pool_sz ≡ true = ground arith in
    rw (below, off, mul-mod_left i p.item_sz, mul-div_left i v.sized, inside) refl

-- The place of an item that is taken.
item_of :
    (p : Pool) (a : ℕ)
    → is_taken p a ≡ true
    → (i : ℕ) × (i < p.pool_sz) × (p.pool + i * p.item_sz ≡ a) × (get_or p.markers i 0 ≢ 0)
unfolding is_taken
item_of p a t =
    let whole = div-add-mod (a - p.pool) p.item_sz in
    ((a - p.pool) / p.item_sz, ground arith, ground (arith, whole), ground arith)

-- What a change of one marker does to the addresses that are taken.
is_taken-set :
    (p : Pool) (i c w b : ℕ)
    → IsValid p
    → i < p.pool_sz
    → is_taken (record p { markers = set p.markers i w; current_index = c }) b
      ≡ (if b == p.pool + i * p.item_sz then not (w == 0) else is_taken p b)
unfolding is_taken
is_taken-set p i c w b v lt =
    let j = (b - p.pool) / p.item_sz in
    let inside : i < length p.markers = rw v.marked lt in
    let off : p.pool + i * p.item_sz - p.pool ≡ i * p.item_sz = omega arith in
    let below : leb p.pool (p.pool + i * p.item_sz) ≡ true = ground arith in
    let at = get_or-set p.markers i j w inside in
    let here = get_or-set p.markers i i w inside in
    let small : ltb i p.pool_sz ≡ true = ground arith in
    let whole = div-add-mod (b - p.pool) p.item_sz in
    elim (Bool-cases (b == p.pool + i * p.item_sz)) [
      | inl h ↦
          let e = (==_iff _ _).0 h in
          rw (e, below, off, mul-mod_left i p.item_sz, mul-div_left i v.sized, small, here)
            (ground arith)
      | inr ne ↦ elim (Bool-cases (j == i)) [
        | inl same ↦
            (let o = ap (λ (k : ℕ). p.pool + k * p.item_sz) ((==_iff _ _).0 same) in
              ground (arith, whole, o, ne, at))
        | inr differs ↦ ground (arith, at, differs, ne)
      ]
    ]

-- An allocation as a client sees it: a new item is taken, and only that.
pub record Takes (p : Pool) (a : ℕ) (p' : Pool) : Type 0 where
  pub valid : IsValid p'
  pub fresh : is_taken p a ≡ false
  pub marks : (b : ℕ) → is_taken p' b ≡ (if b == a then true else is_taken p b)
  pub count : used p' ≡ used p + 1
  pub same_size : p'.pool_sz ≡ p.pool_sz

-- Giving an item back as a client sees it.
pub record GivesBack (p : Pool) (a : ℕ) (p' : Pool) : Type 0 where
  pub valid : IsValid p'
  pub marks : (b : ℕ) → is_taken p' b ≡ (if b == a then false else is_taken p b)
  pub count : used p' + 1 ≡ used p
  pub same_size : p'.pool_sz ≡ p.pool_sz

Allocates-Takes :
    (p p' : Pool) (r : Option ℕ × Pool) (a : ℕ)
    → IsValid p
    → Allocates p r
    → r ≡ (some a, p')
    → Takes p a p'
unfolding used
Allocates-Takes p p' r a v (exhausted none_free) e = absurd cc
Allocates-Takes p p' r a v (taken i (lt, free)) e =
    let q : Pool = record p { markers = set p.markers i 1; current_index = i } in
    let after : q ≡ p' = cc in
    let at : p.pool + i * p.item_sz ≡ a = cc in
    let inside : i < length p.markers = rw v.marked lt in
    let t : Takes p (p.pool + i * p.item_sz) q = record {
      valid = marked-IsValid p v i lt;
      fresh = rw (is_taken-at p i v lt, free) refl;
      marks = λ b. is_taken-set p i i 1 b v lt;
      count = count_taken-mark p.markers i inside free;
      same_size = refl;
    } in
    subst (λ (x : Pool). Takes p a x) after (subst (λ (b : ℕ). Takes p b q) at t)

Allocates-full :
    (p p' : Pool) (r : Option ℕ × Pool)
    → IsValid p
    → Allocates p r
    → r ≡ (none, p')
    → (p ≡ p') × (used p ≡ p.pool_sz)
unfolding used
Allocates-full p p' r v (exhausted none_free) e =
    let full =
      count_taken-full p.markers
        (λ i lt free. none_free i (subst (λ (n : ℕ). i < n) v.marked lt, free)) in
    (cc, full ∙ v.marked)
Allocates-full p p' r v (taken i f) e = absurd cc

pub os_pool_alloc-Takes :
    (p p' : Pool) (a : ℕ) → IsValid p → os_pool_alloc p ≡ (some a, p') → Takes p a p'
os_pool_alloc-Takes p p' a v e = Allocates-Takes p p' _ a v (os_pool_alloc-Allocates p v) e

pub os_pool_alloc-full :
    (p p' : Pool) → IsValid p → os_pool_alloc p ≡ (none, p') → (p ≡ p') × (used p ≡ p.pool_sz)
os_pool_alloc-full p p' v e = Allocates-full p p' _ v (os_pool_alloc-Allocates p v) e

pub os_pool_free-GivesBack :
    (p : Pool) (a : ℕ) → IsValid p → is_taken p a ≡ true → GivesBack p a (os_pool_free p a)
unfolding used
os_pool_free-GivesBack p a v t =
    let (i, lt, at, marked) = item_of p a t in
    let q : Pool = record p { markers = set p.markers i 0 } in
    let g : GivesBack p (p.pool + i * p.item_sz) q = record {
      valid = record {
        marked = length-set p.markers i 0 ∙ v.marked;
        in_range = v.in_range;
        small = v.small;
        sized = v.sized;
        fits = v.fits;
      };
      marks = λ b. is_taken-set p i p.current_index 0 b v lt;
      count = count_taken-unmark p.markers i marked;
      same_size = refl;
    } in
    subst (λ (b : ℕ). GivesBack p b (os_pool_free p b)) at
      (subst (λ (x : Pool). GivesBack p (p.pool + i * p.item_sz) x)
        (sym (os_pool_free_lem p v i lt)) g)

pub used-le : (p : Pool) → IsValid p → used p ≤ p.pool_sz
unfolding used
used-le p v = rw (sym v.marked) (count_taken-le p.markers)
