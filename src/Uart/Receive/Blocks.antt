-- ===== src/Uart/Receive/Blocks.antt =====
-- The blocks of the receiving half: the current one, those in the list, and those that tasks hold.
use gd32c103_bootloader.Common.{
  ℕ, suc, ◌+◌, ◌-◌, ◌≡◌, ◌≢◌, ◌<◌, refl, sym, ap, subst, ◌∙◌, arith, true, false, ltb, Bool-cases,
  inl, inr, if◌then◌else◌, List, [], ◌∷◌, ◌++◌, length, drop, none, some, All, u32,
}
use mathlib.Core.List.{append_assoc}
use gd32c103_bootloader.Xlink.Registry.Linked.{IsFresh}
use gd32c103_bootloader.Uart.Macros.{DlMacros, first}
use gd32c103_bootloader.Uart.{
  Store, DmaElement, with_size, TakenElement, no_element, no_buffer, got, take_element,
  free_element, tx_dma_data_max_cnt,
}
use gd32c103_bootloader.Uart.Own.{
  Owns, Owns-Shuffle, Shuffle-in, with_size-Owns, buffer_of, All-map, All-left, IsFresh-left,
}
use gd32c103_bootloader.Uart.Own.Supply.{
  Supplies, exhausted, supplied, take_element-Supplies, free_element-Owns, Owns-le,
}
use gd32c103_bootloader.Uart.Receive.{
  UartRx, Run, ok, fault, hang, gd32_uart_buf_size, receive_into, drop_oldest, next_block,
  append_current, indicate, dma_recv_isr,
}

-- The elements when the current block has joined the list with the number of bytes that came.
abbrev pub filled : Store → ℕ → ℕ → ℕ → DmaElement
filled s counter c = (with_size s c (u32 (gd32_uart_buf_size + 4294967296 - counter))).element

module _ (dl : DlMacros) where
  -- The current block is `c`, the list is `l`, and tasks hold the others in use.
  pub record IsReceiving (r : UartRx dl) (c : ℕ) (l held : List ℕ) : Type 0 where
    pub waiting : dl.items r.rx_block_list ≡ l
    pub current : r.current_rx_block ≡ some c
    pub owns : Owns r.store tx_dma_data_max_cnt (c ∷ (l ++ held))

  -- What follows when another block is looked for: it is under way, and the list is as it was, or
  -- without its first if all blocks were in use. The elements in the list are as they were.
  pub data AfterNext (element : ℕ → DmaElement) (m held : List ℕ) : Run (UartRx dl) → Type 0 where
    after :
        (r : UartRx dl) (a : ℕ) (l : List ℕ)
        → l ≡ (if ltb (length (m ++ held)) tx_dma_data_max_cnt then m else drop 1 m)
        → IsReceiving r a l held
        → r.channel ≡ some (buffer_of r.store a, gd32_uart_buf_size)
        → All (λ b. r.store.element b ≡ element b) l
        → AfterNext element m held (ok r)

  -- One round, when `back` is what the other rounds do.
  round_lem :
      (r : UartRx dl) (m l held : List ℕ) (back : Store → Run (UartRx dl))
      → dl.items r.rx_block_list ≡ l
      → Owns r.store tx_dma_data_max_cnt (l ++ held)
      → (length (l ++ held) < tx_dma_data_max_cnt
          → l ≡ (if ltb (length (m ++ held)) tx_dma_data_max_cnt then m else drop 1 m))
      → (length (l ++ held) ≡ tx_dma_data_max_cnt → AfterNext r.store.element m held (back r.store))
      → (x : TakenElement × Store) → Supplies r.store tx_dma_data_max_cnt (l ++ held) x
      → AfterNext r.store.element m held (elim x.0 [
        | no_element ↦ back x.1
        | no_buffer ↦ ok (record r { store = x.1; current_rx_block = none })
        | got a ↦ ok (receive_into dl a x.1 r)
      ])
  unfolding receive_into
  round_lem r m l held back list o which full _ (exhausted e) = full e
  round_lem r m l held back list o which full _ (supplied a s o' fresh other) =
      let le = Owns-le s tx_dma_data_max_cnt (a ∷ (l ++ held)) o' in
      after _ a l (which (omega (arith, le))) (record { waiting = list; current = refl; owns = o' })
        refl (All-map (λ b ne. other b ne) l (All-left (λ b. b ≢ a) l held fresh))

  -- The state in which the second round begins.
  abbrev dropped : UartRx dl → ℕ → UartRx dl
  dropped r h = record r {
    current_rx_block = none;
    rx_block_list = dl.delete r.rx_block_list h;
    store = free_element r.store h;
  }

  dropped_lem :
      (r : UartRx dl) (h : ℕ) (m : List ℕ)
      → dl.items r.rx_block_list ≡ h ∷ m
      → drop_oldest dl (record r { current_rx_block = none }) ≡ dropped r h
  unfolding drop_oldest
  dropped_lem r h m e =
      let top : dl.head r.rx_block_list ≡ some h = dl.head-first r.rx_block_list ∙ ap first e in
      rw (drop_oldest, top) refl

  -- The second round, after the oldest block was dropped, finds a block.
  second_lem :
      (fuel : ℕ) (r : UartRx dl) (h : ℕ) (m held : List ℕ)
      → dl.items r.rx_block_list ≡ h ∷ m
      → Owns r.store tx_dma_data_max_cnt (h ∷ (m ++ held))
      → length (h ∷ (m ++ held)) ≡ tx_dma_data_max_cnt
      → AfterNext r.store.element (h ∷ m) held (next_block dl (suc fuel) (dropped r h))
  unfolding next_block free_element
  second_lem fuel r h m held list o full =
      let o' = free_element-Owns r.store tx_dma_data_max_cnt h (m ++ held) o in
      let not_less : ltb (length (h ∷ (m ++ held))) tx_dma_data_max_cnt ≡ false = rw full refl in
      round_lem (dropped r h) (h ∷ m) m held
        (λ s.
          next_block dl fuel
            (drop_oldest dl (record (dropped r h) { store = s; current_rx_block = none })))
        (dl.items-delete r.rx_block_list h m list) o' (λ lt. rw not_less refl)
        (λ e. absurd (omega (arith, e, full))) (take_element (free_element r.store h))
        (take_element-Supplies (free_element r.store h) tx_dma_data_max_cnt (m ++ held) o')

  -- With a block in the list two rounds are enough: if none is free in the first, the oldest block
  -- of the list becomes free.
  pub next_block-AfterNext :
      (fuel : ℕ) (r : UartRx dl) (h : ℕ) (m held : List ℕ)
      → dl.items r.rx_block_list ≡ h ∷ m
      → Owns r.store tx_dma_data_max_cnt (h ∷ (m ++ held))
      → AfterNext r.store.element (h ∷ m) held (next_block dl (suc (suc fuel)) r)
  unfolding next_block
  next_block-AfterNext fuel r h m held list o =
      round_lem r (h ∷ m) (h ∷ m) held
        (λ s.
          next_block dl (suc fuel)
            (drop_oldest dl (record r { store = s; current_rx_block = none })))
        list o
        (λ lt.
          (let less : ltb (length (h ∷ (m ++ held))) tx_dma_data_max_cnt ≡ true = ground arith in
            rw less refl))
        (λ full.
          let start = dropped_lem r h m list in rw start (second_lem fuel r h m held list o full))
        (take_element r.store)
        (take_element-Supplies r.store tx_dma_data_max_cnt (h ∷ (m ++ held)) o)

  -- The list after the current block has joined it.
  joined_lem :
      (r : UartRx dl) (counter c : ℕ) (l held : List ℕ)
      → IsReceiving r c l held
      → (dl.items (append_current dl counter c r).rx_block_list ≡ l ++ (c ∷ []))
        × Owns (append_current dl counter c r).store tx_dma_data_max_cnt ((l ++ (c ∷ [])) ++ held)
  unfolding append_current
  joined_lem r counter c l held q =
      let o = q.owns in
      let fresh = IsFresh-left r.store c l held o.distinct.0 in
      (
        dl.items-append r.rx_block_list c (subst (IsFresh c) (sym q.waiting) fresh)
            ∙ ap (λ (k : List ℕ). k ++ (c ∷ [])) q.waiting,
        subst (Owns _ tx_dma_data_max_cnt) (sym (append_assoc l (c ∷ []) held))
            (with_size-Owns c _ (Owns-Shuffle (Shuffle-in c l held) o)),
      )

  -- The callback changes none of what the blocks depend on, and the list is not empty.
  indicated_lem :
      (fuel : ℕ) (r : UartRx dl) (h : ℕ) (m held : List ℕ)
      → dl.items r.rx_block_list ≡ h ∷ m
      → Owns r.store tx_dma_data_max_cnt (h ∷ (m ++ held))
      → AfterNext r.store.element (h ∷ m) held (elim (indicate dl r) [
        | ok r' ↦ next_block dl (suc (suc fuel)) r'
        | fault ↦ fault
        | hang ↦ hang
      ])
  unfolding indicate
  indicated_lem fuel r h m held list o =
      let top : dl.head r.rx_block_list ≡ some h = dl.head-first r.rx_block_list ∙ ap first list in
      elim (Bool-cases r.rx_indicate) [
        | inl on ↦ rw (indicate, on, top) (next_block-AfterNext fuel _ h m held list o)
        | inr off ↦ rw (indicate, off) (next_block-AfterNext fuel _ h m held list o)
      ]

  pub dma_recv_isr-AfterNext :
      (fuel counter : ℕ) (r : UartRx dl) (c : ℕ) (l held : List ℕ)
      → IsReceiving r c l held
      → AfterNext
          (filled r.store counter c)
          (l ++ (c ∷ []))
          held
          (dma_recv_isr dl (suc (suc fuel)) counter r)
  unfolding dma_recv_isr append_current
  dma_recv_isr-AfterNext fuel counter r c [] held q =
      let (list, o) = joined_lem r counter c [] held q in
      let now = q.current in
      rw (dma_recv_isr, now) (indicated_lem fuel (append_current dl counter c r) c [] held list o)
  dma_recv_isr-AfterNext fuel counter r c (x ∷ l) held q =
      let (list, o) = joined_lem r counter c (x ∷ l) held q in
      let now = q.current in
      rw (dma_recv_isr, now)
        (indicated_lem fuel (append_current dl counter c r) x (l ++ (c ∷ [])) held list o)
