-- ===== src/Pool.antt =====
-- src/freertos_mpool.c and inc/freertos_mpool.h: a pool of items of one size, with a marker for
-- each. The memory that pvPortMalloc returns is an argument; `none` is NULL. Addresses and sizes are
-- 32 bits wide.
pub mod Alloc
pub mod View
use gd32c103_bootloader.Common.{
  ℕ, zero, suc, ◌+◌, ◌-◌, ◌*◌, ◌/◌, ◌%◌, Bool, true, false, not, ltb, leb, ◌==◌, if◌then◌else◌,
  List, set, get_or, replicate, Option, none, some, u32,
}

-- `os_pool_t`; the markers are the bytes at the field's address.
pub record Pool : Type 0 where
  pub pool : ℕ
  pub markers : List ℕ
  pub pool_sz : ℕ
  pub item_sz : ℕ
  pub current_index : ℕ

-- The arguments `pool` and `markers` are addresses or NULL, as are the three values of pvPortMalloc;
-- `garbage` is what the new memory holds in `currentIndex`, which is not set.
unfoldable pub os_pool_init :
    Option ℕ → Bool → ℕ → ℕ → ℕ → Option ℕ → Option ℕ → Option ℕ → Option Pool
os_pool_init pool has_markers pool_sz item_sz garbage pool_id new_pool new_markers =
    let memory : Option ℕ = elim pool [ none ↦ new_pool | some a ↦ some a ] in
    let marked : Bool =
      if has_markers then true else elim new_markers [ none ↦ false | some a ↦ true ] in
    elim pool_id [
      | none ↦ none
      | some id ↦ elim memory [
        | none ↦ none
        | some a ↦
            if marked
            then some (record {
              pool = a;
              markers = replicate pool_sz 0;
              pool_sz = pool_sz;
              item_sz = item_sz;
              current_index = garbage;
            })
            else none
      ]
    ]

-- The loop of `osPoolAlloc` from `i` on, with `left` rounds to go: the index of a free item.
unfoldable pub find_free : ℕ → ℕ → Pool → Option ℕ
find_free zero i p = none
find_free (suc left) i p =
    let index = u32 (p.current_index + i) % p.pool_sz in
    let rest = find_free left (i + 1) p in
    if get_or p.markers index 0 == 0 then some index else rest

unfoldable pub os_pool_alloc : Pool → Option ℕ × Pool
unfolding find_free
os_pool_alloc p = elim (find_free p.pool_sz 0 p) [
  | none ↦ (none, p)
  | some index ↦ (
    some (u32 (p.pool + index * p.item_sz)),
    record p { markers = set p.markers index 1; current_index = index },
  )
]

unfoldable pub os_pool_free : Pool → ℕ → Pool
os_pool_free p block =
    let index = (block - p.pool) / p.item_sz in
    if ltb block p.pool
    then p
    else if not ((block - p.pool) % p.item_sz == 0)
    then p
    else if leb p.pool_sz index
    then p
    else record p { markers = set p.markers index 0 }
