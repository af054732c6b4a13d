-- ===== src/Pool/Alloc.antt =====
-- Which item `osPoolAlloc` takes, and that `osPoolFree` gives it back.
use native.Mathlib.Nat.{
  mod-eq_of_lt, mod-eq-sub-mod, mul-mod_left, mul-div_left, mul-lt-mul_of_pos_right,
}
use native.Mathlib.Decide.{dec_lt}
use gd32c103_bootloader.Common.{
  ℕ, zero, suc, ◌+◌, ◌-◌, ◌*◌, ◌%◌, ◌≤◌, ◌<◌, ◌≡◌, ◌≢◌, refl, ap, subst, ◌∙◌, arith, true, false,
  ltb, leb, ◌==◌, ==_iff, if◌then◌else◌, Bool-cases, inl, inr, List, [], ◌∷◌, set, get_or, length,
  length-set, Option, none, some, u32,
}
use gd32c103_bootloader.Pool.{Pool, find_free, os_pool_alloc, os_pool_free}

-- As many markers as items, a place to start from in range, and items that fit the address space.
pub record IsValid (p : Pool) : Type 0 where
  pub marked : length p.markers ≡ p.pool_sz
  pub in_range : p.current_index < p.pool_sz
  pub small : p.pool_sz < 2147483648
  pub sized : 0 < p.item_sz
  pub fits : p.pool + p.pool_sz * p.item_sz ≤ 4294967296

abbrev pub IsFree : Pool → ℕ → Type 0
IsFree p i = (i < p.pool_sz) × (get_or p.markers i 0 ≡ 0)

-- What allocating promises: an item that is free, marked from now on, or NULL if none is free.
pub data Allocates (p : Pool) : Option ℕ × Pool → Type 0 where
  exhausted : ((i : ℕ) → IsFree p i → ⊥) → Allocates p (none, p)
  taken :
      (i : ℕ)
      → IsFree p i
      → Allocates p (
        some (p.pool + i * p.item_sz),
        record p { markers = set p.markers i 1; current_index = i },
      )

-- What a round looks at: the items from the place to start from to the end, then those before it.
index_lem :
    (c n i : ℕ)
    → c < n
    → n < 2147483648
    → i < n
    → u32 (c + i) % n ≡ (if ltb (c + i) n then c + i else c + i - n)
index_lem c n i hc hn hi =
    let whole : u32 (c + i) ≡ c + i = omega arith in
    rw whole (elim (dec_lt (c + i) n) [
      | yes lt ↦ mod-eq_of_lt lt ∙ (let t : ltb (c + i) n ≡ true = ground arith in rw t refl)
      | no ge ↦
          mod-eq-sub-mod (omega arith)
          ∙ mod-eq_of_lt (omega arith)
          ∙ (let t : ltb (c + i) n ≡ false = ground arith in rw t refl)
    ])

module _ (p : Pool) (v : IsValid p) where
  -- The item that round `i` looks at.
  abbrev place : ℕ → ℕ
  place i =
      if ltb (p.current_index + i) p.pool_sz
      then p.current_index + i
      else p.current_index + i - p.pool_sz

  -- From round `i` on: a free item, or none is free that a later round looks at.
  abbrev FindsFrom : ℕ → Option ℕ → Type 0
  FindsFrom i none = (j : ℕ) → i ≤ j → j < p.pool_sz → get_or p.markers (place j) 0 ≢ 0
  FindsFrom i (some k) = IsFree p k

  FindsFrom-later :
      (i : ℕ) (o : Option ℕ)
      → get_or p.markers (place i) 0 ≢ 0
      → FindsFrom (i + 1) o
      → FindsFrom i o
  FindsFrom-later i (some k) ne h = h
  FindsFrom-later i none ne h = λ j le lt. elim (dec_lt i j) [
    | yes later ↦ h j (omega arith) lt
    | no here ↦
        (let same : i ≡ j = omega arith in
          subst (λ (k : ℕ). get_or p.markers (place k) 0 ≢ 0) same ne)
  ]

  find_free-FindsFrom : (left i : ℕ) → i + left ≡ p.pool_sz → FindsFrom i (find_free left i p)
  unfolding find_free
  find_free-FindsFrom zero i e = λ j le lt. absurd (omega arith)
  find_free-FindsFrom (suc left) i e =
      let at = index_lem p.current_index p.pool_sz i v.in_range v.small (omega arith) in
      let range : place i < p.pool_sz = (let c = v.in_range in ground (arith, c)) in
      rw at (elim (Bool-cases (get_or p.markers (place i) 0 == 0)) [
        | inl free ↦ rw free (range, (==_iff _ _).0 free)
        | inr full ↦ rw full (
            FindsFrom-later i _ (λ z. absurd (ground (arith, z, full)))
              (find_free-FindsFrom left (i + 1) (omega arith)))
      ])

  -- Every item is looked at in some round.
  round_of : (k : ℕ) → k < p.pool_sz → (j : ℕ) × (j < p.pool_sz) × (place j ≡ k)
  round_of k lt =
      let c = v.in_range in
      elim (dec_lt k p.current_index) [
        | yes before ↦ (k + p.pool_sz - p.current_index, omega (arith, c), ground (arith, c))
        | no behind ↦ (k - p.current_index, omega (arith, c), ground (arith, c))
      ]

  address_lem : (k : ℕ) → k < p.pool_sz → u32 (p.pool + k * p.item_sz) ≡ p.pool + k * p.item_sz
  address_lem k lt =
      let below : k * p.item_sz < p.pool_sz * p.item_sz = mul-lt-mul_of_pos_right lt v.sized in
      let f = v.fits in omega (arith, below, f)

  -- From a valid pool allocating returns NULL only if no item is free; else it returns the address
  -- of an item that was free, marks it and no other, and starts there the next time.
  pub os_pool_alloc-Allocates : Allocates p (os_pool_alloc p)
  unfolding os_pool_alloc
  os_pool_alloc-Allocates =
      go (find_free p.pool_sz 0 p) refl (find_free-FindsFrom p.pool_sz 0 (omega arith))
    where
      go :
          (o : Option ℕ)
          → find_free p.pool_sz 0 p ≡ o
          → FindsFrom 0 o
          → Allocates p (os_pool_alloc p)
      go none e h =
          rw (os_pool_alloc, e)
            (exhausted (λ i f.
              let (j, lt, at) = round_of i f.0 in
              h j (omega arith) lt (ap (λ (k : ℕ). get_or p.markers k 0) at ∙ f.1)))
      go (some k) e h = rw (os_pool_alloc, e, address_lem k h.0) (taken k h)

  -- Giving the address of an item back unmarks it and changes nothing else.
  pub os_pool_free_lem :
      (i : ℕ)
      → i < p.pool_sz
      → os_pool_free p (p.pool + i * p.item_sz) ≡ record p { markers = set p.markers i 0 }
  unfolding os_pool_free
  os_pool_free_lem i lt =
      let off : p.pool + i * p.item_sz - p.pool ≡ i * p.item_sz = omega arith in
      let below : ltb (p.pool + i * p.item_sz) p.pool ≡ false = ground arith in
      let inside : leb p.pool_sz i ≡ false = ground arith in
      rw (off, below, mul-mod_left i p.item_sz, mul-div_left i v.sized, inside) refl

  set-set_back : (l : List ℕ) (i a : ℕ) → get_or l i 0 ≡ 0 → set (set l i a) i 0 ≡ l
  set-set_back [] i a e = refl
  set-set_back (x ∷ l) zero a e = rw e refl
  set-set_back (x ∷ l) (suc i) a e = ap (λ (t : List ℕ). x ∷ t) (set-set_back l i a e)

  pub marked-IsValid :
      (i : ℕ)
      → i < p.pool_sz
      → IsValid (record p { markers = set p.markers i 1; current_index = i })
  marked-IsValid i lt = record {
    marked = length-set p.markers i 1 ∙ v.marked;
    in_range = lt;
    small = v.small;
    sized = v.sized;
    fits = v.fits;
  }

-- The item that was taken is given back.
restored :
    (p : Pool) (v : IsValid p) (r : Option ℕ × Pool) (block : ℕ) (p' : Pool)
    → Allocates p r
    → r ≡ (some block, p')
    → ((os_pool_free p' block).markers ≡ p.markers) × IsValid p'
restored p v r block p' (exhausted none_free) e = absurd cc
restored p v r block p' (taken i f) e =
    let q : Pool = record p { markers = set p.markers i 1; current_index = i } in
    let vq = marked-IsValid p v i f.0 in
    let after : q ≡ p' = cc in
    let at : p.pool + i * p.item_sz ≡ block = cc in
    subst (λ (x : Pool). ((os_pool_free x block).markers ≡ p.markers) × IsValid x) after
      (
        subst (λ (b : ℕ). (os_pool_free q b).markers ≡ p.markers) at
            (ap (λ (x : Pool). x.markers) (os_pool_free_lem q vq i f.0)
              ∙ set-set_back p v p.markers i 1 f.1),
        vq,
      )

-- From a valid pool, if allocating returns a block and not NULL, the pool stays valid, and giving
-- the block back leaves the markers as they were before.
pub os_pool_free-alloc :
    (p p' : Pool) (block : ℕ)
    → IsValid p
    → os_pool_alloc p ≡ (some block, p')
    → ((os_pool_free p' block).markers ≡ p.markers) × IsValid p'
os_pool_free-alloc p p' block v e =
    restored p v (os_pool_alloc p) block p' (os_pool_alloc-Allocates p v) e
