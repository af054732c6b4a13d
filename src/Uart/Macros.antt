-- ===== src/Uart/Macros.antt =====
-- The macros of inc/utlist.h, a library that src/drv_simple_uart.c calls, as far as the driver
-- relies on them: DL_APPEND and DL_DELETE on a list whose elements are told apart by address.
use gd32c103_bootloader.Common.{ℕ, ◌≡◌, List, [], ◌∷◌, ◌++◌, Option, none, some}
use gd32c103_bootloader.Xlink.Registry.Linked.{IsFresh}

abbrev pub first : List ℕ → Option ℕ
first [] = none
first (a ∷ l) = some a

-- A state holds the pointer to the first element and the links; `head` reads that pointer, and
-- `none` is NULL. Nothing is said of an element that is appended twice, or taken out of a list that
-- it is not the first of.
pub record DlMacros : Type 1 where
  pub State : Type 0
  pub empty : State
  pub head : State → Option ℕ
  pub append : State → ℕ → State
  pub delete : State → ℕ → State
  pub items : State → List ℕ
  pub items-empty : items empty ≡ []
  pub head-first : (s : State) → head s ≡ first (items s)
  pub items-append :
      (s : State) (a : ℕ) → IsFresh a (items s) → items (append s a) ≡ items s ++ (a ∷ [])
  pub items-delete : (s : State) (a : ℕ) (l : List ℕ) → items s ≡ a ∷ l → items (delete s a) ≡ l
