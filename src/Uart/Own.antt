-- ===== src/Uart/Own.antt =====
-- Which elements of a store are in use: the driver's elements and their buffers are the items that
-- the pools have taken, each once.
pub mod Supply
use gd32c103_bootloader.Common.{
  ℕ, suc, ◌+◌, ◌≤◌, ◌<◌, ◌≡◌, ◌≢◌, refl, sym, ap, subst, ◌∙◌, arith, Bool, true, false, ◌==◌,
  Bool-cases, inl, inr, Option-cases, if◌then◌else◌, List, [], ◌∷◌, ◌++◌, length, Option, none,
  some, All, get_or,
}
use gd32c103_bootloader.Xlink.Registry.Linked.{IsFresh}
use gd32c103_bootloader.Pool.{Pool, os_pool_alloc, os_pool_free}
use gd32c103_bootloader.Pool.Alloc.{IsValid}
use gd32c103_bootloader.Pool.View.{
  used, is_taken, Takes, GivesBack, os_pool_alloc-Takes, os_pool_alloc-full, os_pool_free-GivesBack,
  used-le,
}
use gd32c103_bootloader.Uart.{
  Store, DmaElement, with_element, with_buffer, with_size, TakenElement, no_element, no_buffer, got,
  take_element, free_element,
}

-- No two elements with the same value.
abbrev pub DistinctBy : (ℕ → ℕ) → List ℕ → Type 0
DistinctBy f [] = Unit {0}
DistinctBy f (a ∷ l) = All (λ b. f b ≢ f a) l × DistinctBy f l

abbrev pub buffer_of : Store → ℕ → ℕ
buffer_of s a = (s.element a).buffer

abbrev pub IsTaken : Store → ℕ → Type 0
IsTaken s a = (is_taken s.element_pool a ≡ true) × (is_taken s.data_pool (buffer_of s a) ≡ true)

-- The elements in use, of `n`.
pub record Owns (s : Store) (n : ℕ) (own : List ℕ) : Type 0 where
  pub valid_elements : IsValid s.element_pool
  pub valid_data : IsValid s.data_pool
  pub element_count : s.element_pool.pool_sz ≡ n
  pub data_count : s.data_pool.pool_sz ≡ n
  pub are_taken : All (IsTaken s) own
  pub distinct : DistinctBy (buffer_of s) own
  pub used_elements : used s.element_pool ≡ length own
  pub used_data : used s.data_pool ≡ length own

-- The same elements in another order, as data: what is in use is read off it.
pub data Shuffle : List ℕ → List ℕ → Type 0 where
  stay : (l : List ℕ) → Shuffle l l
  keep : {l m : List ℕ} (a : ℕ) → Shuffle l m → Shuffle (a ∷ l) (a ∷ m)
  swap : (a b : ℕ) (l : List ℕ) → Shuffle (a ∷ b ∷ l) (b ∷ a ∷ l)
  trans : {l m k : List ℕ} → Shuffle l m → Shuffle m k → Shuffle l k

pub Shuffle-in : (a : ℕ) (l r : List ℕ) → Shuffle (a ∷ (l ++ r)) (l ++ (a ∷ r))
Shuffle-in a [] r = stay (a ∷ r)
Shuffle-in a (b ∷ l) r = trans (swap a b (l ++ r)) (keep b (Shuffle-in a l r))

pub Shuffle-out : (a : ℕ) (l r : List ℕ) → Shuffle (l ++ (a ∷ r)) (a ∷ (l ++ r))
Shuffle-out a [] r = stay (a ∷ r)
Shuffle-out a (b ∷ l) r = trans (keep b (Shuffle-out a l r)) (swap b a (l ++ r))

All-Shuffle : (P : ℕ → Type 0) {l m : List ℕ} → Shuffle l m → All P l → All P m
All-Shuffle P (stay l) h = h
All-Shuffle P (keep a p) h = (h.0, All-Shuffle P p h.1)
All-Shuffle P (swap a b l) h = (h.1.0, (h.0, h.1.1))
All-Shuffle P (trans p q) h = All-Shuffle P q (All-Shuffle P p h)

length-Shuffle : {l m : List ℕ} → Shuffle l m → length l ≡ length m
length-Shuffle (stay l) = refl
length-Shuffle (keep a p) = ap suc (length-Shuffle p)
length-Shuffle (swap a b l) = refl
length-Shuffle (trans p q) = length-Shuffle p ∙ length-Shuffle q

module _ {A : Type 0} where
  pub All-map : {P Q : A → Type 0} → ((a : A) → P a → Q a) → (l : List A) → All P l → All Q l
  All-map f [] h = h
  All-map f (x ∷ l) h = (f x h.0, All-map f l h.1)

  pub All-both :
      {P Q R : A → Type 0}
      → ((a : A) → P a → Q a → R a)
      → (l : List A) → All P l
      → All Q l
      → All R l
  All-both f [] h k = h
  All-both f (x ∷ l) h k = (f x h.0 k.0, All-both f l h.1 k.1)

DistinctBy-Shuffle : (f : ℕ → ℕ) {l m : List ℕ} → Shuffle l m → DistinctBy f l → DistinctBy f m
DistinctBy-Shuffle f (stay l) h = h
DistinctBy-Shuffle f (keep a p) h = (All-Shuffle (λ b. f b ≢ f a) p h.0, DistinctBy-Shuffle f p h.1)
DistinctBy-Shuffle f (swap a b l) h = ((λ q. h.0.0 (sym q), h.1.0), (h.0.1, h.1.1))
DistinctBy-Shuffle f (trans p q) h = DistinctBy-Shuffle f q (DistinctBy-Shuffle f p h)

-- The order in which the elements are listed does not matter.
pub Owns-Shuffle : {s : Store} {n : ℕ} {l m : List ℕ} → Shuffle l m → Owns s n l → Owns s n m
Owns-Shuffle {s} p o = record {
  valid_elements = o.valid_elements;
  valid_data = o.valid_data;
  element_count = o.element_count;
  data_count = o.data_count;
  are_taken = All-Shuffle (IsTaken s) p o.are_taken;
  distinct = DistinctBy-Shuffle (buffer_of s) p o.distinct;
  used_elements = o.used_elements ∙ length-Shuffle p;
  used_data = o.used_data ∙ length-Shuffle p;
}

-- A function that agrees with another one on a list tells the same elements apart.
pub DistinctBy-agree :
    (f g : ℕ → ℕ) (l : List ℕ) → All (λ b. f b ≡ g b) l → DistinctBy f l → DistinctBy g l
DistinctBy-agree f g [] e h = h
DistinctBy-agree f g (a ∷ l) e h =
    (All-both (λ b same ne q. ne (same ∙ q ∙ sym e.0)) l e.1 h.0, DistinctBy-agree f g l e.1 h.1)

-- Nothing else is read of the elements than their buffers.
pub Owns-element :
    {s : Store} {n : ℕ} {own : List ℕ} (new : ℕ → DmaElement)
    → ((b : ℕ) → (new b).buffer ≡ buffer_of s b)
    → Owns s n own
    → Owns (record s { element = new }) n own
Owns-element {s} {own = own} new same o =
    let all : All (λ b. buffer_of s b ≡ (new b).buffer) own = agree own in
    record {
      valid_elements = o.valid_elements;
      valid_data = o.valid_data;
      element_count = o.element_count;
      data_count = o.data_count;
      are_taken =
          All-map
            (λ b t. (t.0, subst (λ (x : ℕ). is_taken s.data_pool x ≡ true) (sym (same b)) t.1)) own
            o.are_taken;
      distinct = DistinctBy-agree (buffer_of s) (λ b. (new b).buffer) own all o.distinct;
      used_elements = o.used_elements;
      used_data = o.used_data;
    }
  where
    agree : (l : List ℕ) → All (λ b. buffer_of s b ≡ (new b).buffer) l
    agree [] = tt
    agree (b ∷ l) = (sym (same b), agree l)

with_size-same : (s : Store) (a n b : ℕ) → buffer_of (with_size s a n) b ≡ buffer_of s b
with_size-same s a n b = ground arith

pub with_size-Owns :
    {s : Store} {n : ℕ} {own : List ℕ} (a size : ℕ) → Owns s n own → Owns (with_size s a size) n own
with_size-Owns {s} a size o = Owns-element _ (with_size-same s a size) o

pub Shuffle-append : (l : List ℕ) {m k : List ℕ} → Shuffle m k → Shuffle (l ++ m) (l ++ k)
Shuffle-append [] s = s
Shuffle-append (a ∷ l) s = keep a (Shuffle-append l s)

pub All-left : (P : ℕ → Type 0) (l r : List ℕ) → All P (l ++ r) → All P l
All-left P [] r h = tt
All-left P (x ∷ l) r h = (h.0, All-left P l r h.1)

-- An element is not among those with other buffers.
pub IsFresh-left :
    (s : Store) (a : ℕ) (l r : List ℕ)
    → All (λ b. buffer_of s b ≢ buffer_of s a) (l ++ r)
    → IsFresh a l
IsFresh-left s a [] r h = tt
IsFresh-left s a (b ∷ l) r h = ((λ e. h.0 (ap (buffer_of s) e)), IsFresh-left s a l r h.1)
