-- ===== src/Uart/Own/Supply.antt =====
-- What allocating an element does to the elements in use, and freeing one.
use gd32c103_bootloader.Common.{
  ℕ, ◌≤◌, ◌≡◌, ◌≢◌, refl, sym, ap, ◌∙◌, arith, true, false, ◌==◌, List, ◌∷◌, length, Option, none,
  some, All,
}
use gd32c103_bootloader.Xlink.Registry.Linked.{IsFresh}
use gd32c103_bootloader.Pool.{Pool, os_pool_alloc}
use gd32c103_bootloader.Pool.View.{
  is_taken, Takes, os_pool_alloc-Takes, os_pool_alloc-full, os_pool_free-GivesBack, used-le,
}
use gd32c103_bootloader.Uart.{
  Store, with_buffer, TakenElement, no_element, got, take_element, free_element,
}
use gd32c103_bootloader.Uart.Own.{DistinctBy-agree, Owns, buffer_of, All-map, All-both}

-- What allocating an element promises: one that is not in use, or none if all `n` are.
pub data Supplies (s : Store) (n : ℕ) (own : List ℕ) : TakenElement × Store → Type 0 where
  exhausted : length own ≡ n → Supplies s n own (no_element, s)
  supplied :
      (a : ℕ) (s' : Store)
      → Owns s' n (a ∷ own)
      → IsFresh a own
      → ((b : ℕ) → b ≢ a → s'.element b ≡ s.element b)
      → Supplies s n own (got a, s')

is_taken-ne : (p : Pool) (a b : ℕ) → is_taken p a ≡ true → is_taken p b ≡ false → a ≢ b
is_taken-ne p a b t f e = cc

module _ (s : Store) (n : ℕ) (own : List ℕ) (o : Owns s n own) where
  module _ (ep dp : Pool) (a b : ℕ) (te : Takes s.element_pool a ep)
      (td : Takes s.data_pool b dp) where
    abbrev stocked : Store
    stocked = with_buffer (record s { element_pool = ep; data_pool = dp }) a b

    fresh_lem : IsFresh a own
    fresh_lem = All-map (λ x t. is_taken-ne s.element_pool x a t.0 te.fresh) own o.are_taken

    fresh_buffer_lem : All (λ x. buffer_of s x ≢ b) own
    fresh_buffer_lem =
        All-map (λ x t. is_taken-ne s.data_pool (buffer_of s x) b t.1 td.fresh) own o.are_taken

    other_lem : (x : ℕ) → x ≢ a → stocked.element x ≡ s.element x
    other_lem x ne = ground (arith, ne)

    stocked-Owns : Owns stocked n (a ∷ own)
    stocked-Owns = record {
      valid_elements = te.valid;
      valid_data = td.valid;
      element_count = te.same_size ∙ o.element_count;
      data_count = td.same_size ∙ o.data_count;
      are_taken = (
        (ground (arith, te.marks a), ground (arith, td.marks b)),
        All-both
            (λ x ne t.
              (ground (arith, te.marks x, ne, t), ground (arith, td.marks (buffer_of s x), ne, t)))
            own fresh_lem o.are_taken,
      );
      distinct = (
        All-both (λ x ne nb e. ground (arith, e, ne, nb)) own fresh_lem fresh_buffer_lem,
        DistinctBy-agree (buffer_of s) (buffer_of stocked) own
            (All-map (λ x ne. ap (λ d. d.buffer) (sym (other_lem x ne))) own fresh_lem) o.distinct,
      );
      used_elements = te.count ∙ (let c = o.used_elements in omega (arith, c));
      used_data = td.count ∙ (let c = o.used_data in omega (arith, c));
    }

  -- A pool that is full has as many items as elements are in use.
  pub take_element-Supplies : Supplies s n own (take_element s)
  unfolding take_element
  take_element-Supplies = go (os_pool_alloc s.element_pool) refl (os_pool_alloc s.data_pool) refl
    where
      go :
          (r : Option ℕ × Pool)
          → os_pool_alloc s.element_pool ≡ r
          → (q : Option ℕ × Pool) → os_pool_alloc s.data_pool ≡ q
          → Supplies s n own (take_element s)
      go (none, ep) e q f =
          let (same, full) = os_pool_alloc-full s.element_pool ep o.valid_elements e in
          let which : (os_pool_alloc s.element_pool).0 ≡ none = ap (λ r. r.0) e in
          let back : (os_pool_alloc s.element_pool).1 ≡ s.element_pool =
            ap (λ r. r.1) e ∙ sym same in
          rw (take_element, which, back) (exhausted (sym o.used_elements ∙ full ∙ o.element_count))
      go (some a, ep) e (none, dp) f =
          let te = os_pool_alloc-Takes s.element_pool ep a o.valid_elements e in
          let (same, full) = os_pool_alloc-full s.data_pool dp o.valid_data f in
          let le = used-le ep te.valid in
          let c = te.count in
          let z = te.same_size in
          let oe = o.used_elements in
          let od = o.used_data in
          let ce = o.element_count in
          let cd = o.data_count in absurd (omega (arith, le, c, z, oe, od, ce, cd, full))
      go (some a, ep) e (some b, dp) f =
          let te = os_pool_alloc-Takes s.element_pool ep a o.valid_elements e in
          let td = os_pool_alloc-Takes s.data_pool dp b o.valid_data f in
          let e0 : (os_pool_alloc s.element_pool).0 ≡ some a = ap (λ r. r.0) e in
          let e1 : (os_pool_alloc s.element_pool).1 ≡ ep = ap (λ r. r.1) e in
          let f0 : (os_pool_alloc s.data_pool).0 ≡ some b = ap (λ r. r.0) f in
          let f1 : (os_pool_alloc s.data_pool).1 ≡ dp = ap (λ r. r.1) f in
          rw (take_element, e0, f0, e1, f1)
            (supplied a (stocked ep dp a b te td) (stocked-Owns ep dp a b te td)
              (fresh_lem ep dp a b te td) (other_lem ep dp a b te td))

pub free_element-Owns :
    (s : Store) (n a : ℕ) (own : List ℕ) → Owns s n (a ∷ own) → Owns (free_element s a) n own
unfolding free_element
free_element-Owns s n a own o =
    let ge = os_pool_free-GivesBack s.element_pool a o.valid_elements o.are_taken.0.0 in
    let gd = os_pool_free-GivesBack s.data_pool (buffer_of s a) o.valid_data o.are_taken.0.1 in
    record {
      valid_elements = ge.valid;
      valid_data = gd.valid;
      element_count = ge.same_size ∙ o.element_count;
      data_count = gd.same_size ∙ o.data_count;
      are_taken =
          All-both
            (λ x ne t. (
              (let other : (x == a) ≡ false = ground (arith, ne) in ge.marks x ∙ rw other t.0),
              (let other : (buffer_of s x == buffer_of s a) ≡ false = ground (arith, ne) in
                  gd.marks (buffer_of s x) ∙ rw other t.1),
            ))
            own o.distinct.0 o.are_taken.1;
      distinct = o.distinct.1;
      used_elements = (let c = ge.count in let u = o.used_elements in omega (arith, c, u));
      used_data = (let c = gd.count in let u = o.used_data in omega (arith, c, u));
    }

-- No more elements are in use than there are.
pub Owns-le : (s : Store) (n : ℕ) (own : List ℕ) → Owns s n own → length own ≤ n
Owns-le s n own o =
    let le = used-le s.element_pool o.valid_elements in
    let u = o.used_elements in let c = o.element_count in omega (arith, le, u, c)
