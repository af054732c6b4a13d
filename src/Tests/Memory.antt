-- ===== src/Tests/Memory.antt =====
-- The theorems on the memory pool and on `memset` and `memcpy`.
use gd32c103_bootloader.Common.{ℕ, ◌%◌, ◌<◌, ◌≡◌, refl, arith, inl, [], ◌∷◌}
use gd32c103_bootloader.Boot.{Memory}
use gd32c103_bootloader.Pool.{Pool, os_pool_alloc, os_pool_free}
use gd32c103_bootloader.Pool.Alloc.{IsValid, Allocates, os_pool_alloc-Allocates, os_pool_free-alloc}
use gd32c103_bootloader.Syscall.{memset, memcpy}
use gd32c103_bootloader.Syscall.Fill.{filled, memset_lem}
use gd32c103_bootloader.Syscall.Copy.{copied, memcpy_lem}

-- Three items of 8 bytes, of which the second and the third are taken.
abbrev three_items : Pool
three_items = record {
  pool = 0x20000000;
  markers = 0 ∷ 1 ∷ 1 ∷ [];
  pool_sz = 3;
  item_sz = 8;
  current_index = 1;
}

three_items-IsValid : IsValid three_items
three_items-IsValid = record {
  marked = refl;
  in_range = omega arith;
  small = omega arith;
  sized = omega arith;
  fits = omega arith;
}

os_pool_alloc-Allocates_example : Allocates three_items (os_pool_alloc three_items)
os_pool_alloc-Allocates_example = os_pool_alloc-Allocates three_items three_items-IsValid

abbrev full_pool : Pool
full_pool = (os_pool_alloc three_items).1

os_pool_free-alloc_example :
    ((os_pool_free full_pool 0x20000000).markers ≡ 0 ∷ 1 ∷ 1 ∷ []) × IsValid full_pool
unfolding os_pool_alloc
os_pool_free-alloc_example =
    os_pool_free-alloc three_items full_pool 0x20000000 three_items-IsValid refl

abbrev low_bytes : Memory
low_bytes = λ a. a % 256

low_bytes-lt : (a : ℕ) → low_bytes a < 256
low_bytes-lt a = omega arith

memset_lem_example : memset 100 0x1FF 23 low_bytes 122 ≡ filled low_bytes 100 23 (0x1FF % 256) 122
memset_lem_example = memset_lem 100 0x1FF 23 low_bytes 122

memcpy_lem_example : memcpy 100 200 23 low_bytes 122 ≡ copied low_bytes 100 200 23 122
memcpy_lem_example = memcpy_lem low_bytes 100 200 23 low_bytes-lt (inl (omega arith)) 122
