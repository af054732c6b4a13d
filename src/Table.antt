-- ===== src/Table.antt =====
-- A check of every number below a bound, by evaluation.
use gd32c103_bootloader.Common.{ℕ, zero, suc, ◌<◌, ◌≡◌, arith, Bool, true, ◌&&◌}

unfoldable pub all_below : ℕ → (ℕ → Bool) → Bool
all_below zero test = true
all_below (suc n) test = test n && all_below n test

pub all_below_sound :
    (n : ℕ) (test : ℕ → Bool) (x : ℕ) → all_below n test ≡ true → x < n → test x ≡ true
unfolding all_below
all_below_sound zero test x h lt = absurd (omega arith)
all_below_sound (suc n) test x h lt = ground (arith, all_below_sound n test x)
