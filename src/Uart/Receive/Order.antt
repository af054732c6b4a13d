-- ===== src/Uart/Receive/Order.antt =====
-- What the receiving half of src/drv_simple_uart.c promises: an idle line always gets another block
-- under way, and tasks get the blocks in the order in which they came.
use gd32c103_bootloader.Common.{
  ℕ, suc, ◌+◌, ◌≡◌, refl, sym, ap, subst, ◌∙◌, arith, true, false, ◌==◌, ==_iff, ltb, ◌&&◌,
  Bool-cases, inl, inr, if◌then◌else◌, List, [], ◌∷◌, ◌++◌, length, length-append, drop, some,
}
use gd32c103_bootloader.Uart.Macros.{DlMacros}
use gd32c103_bootloader.Uart.{DmaElement, tx_dma_data_max_cnt}
use gd32c103_bootloader.Pool.View.{used}
use gd32c103_bootloader.Uart.Own.{buffer_of}
use gd32c103_bootloader.Uart.Send.{Transfer}
use gd32c103_bootloader.Uart.Send.Queue.{frames_of}
use gd32c103_bootloader.Uart.Receive.{
  UartRx, Run, ok, Flag, Flags, flag_clear, flag_number, clear_if_set, clear_errors, idle, orerr,
  nerr, ferr, rbne_orerr, perr, cts, lbd, eb, rt, tbe, tc, rbne, gd32_uart_buf_size, dma_recv_isr,
  gd32_uart_isr,
}
use gd32c103_bootloader.Uart.Receive.Blocks.{AfterNext, after, dma_recv_isr-AfterNext}
use gd32c103_bootloader.Uart.Receive.Reach.{Reach, Reach-Served, isr-Served}

flag_of : ℕ → Flag
flag_of n =
    if n == 0
    then idle
    else if n == 1
    then orerr
    else if n == 2
    then nerr
    else if n == 3
    then ferr
    else if n == 4
    then rbne_orerr
    else if n == 5
    then perr
    else if n == 6
    then cts
    else if n == 7
    then lbd
    else if n == 8
    then eb
    else if n == 9
    then rt
    else if n == 10
    then tbe
    else if n == 11
    then tc
    else rbne

flag_of-flag_number : (f : Flag) → flag_of (flag_number f) ≡ f
unfolding flag_of
flag_of-flag_number idle = refl
flag_of-flag_number orerr = refl
flag_of-flag_number nerr = refl
flag_of-flag_number ferr = refl
flag_of-flag_number rbne_orerr = refl
flag_of-flag_number perr = refl
flag_of-flag_number cts = refl
flag_of-flag_number lbd = refl
flag_of-flag_number eb = refl
flag_of-flag_number rt = refl
flag_of-flag_number tbe = refl
flag_of-flag_number tc = refl
flag_of-flag_number rbne = refl

clear_if_set_lem :
    (f g : Flag) (flags : Flags)
    → clear_if_set f flags g ≡ (if flag_number g == flag_number f then false else flags g)
unfolding clear_if_set
clear_if_set_lem f g flags = elim (Bool-cases (flag_number g == flag_number f)) [
  | inl same ↦
      (let e : g ≡ f =
          sym (flag_of-flag_number g) ∙ ap flag_of ((==_iff _ _).0 same) ∙ flag_of-flag_number f in
        let b = ap flags e in ground (arith, same, b))
  | inr other ↦ ground (arith, other)
]

module _ (dl : DlMacros) where
  -- In every state that the operations reach from the start, in any order: the list has the last of
  -- the blocks that came, in their order and with their sizes; there is a current block, which is
  -- under way with the full length of its buffer; and the elements and buffers taken from the pools
  -- are the current one, those in the list and those in the hands of tasks.
  pub Reach-serves :
      {r : UartRx dl} {held : List ℕ} {came : List Transfer}
      → Reach dl r held came
      → (c : ℕ) × (gone : List Transfer) × (gone ++ frames_of r.store (dl.items r.rx_block_list)
          ≡ came)
        × (r.current_rx_block ≡ some c)
        × (r.channel ≡ some (buffer_of r.store c, gd32_uart_buf_size))
        × (used r.store.element_pool ≡ suc (length (dl.items r.rx_block_list) + length held))
        × (used r.store.data_pool ≡ suc (length (dl.items r.rx_block_list) + length held))
  Reach-serves {r} {held} reach =
      let (c, l, gone, q) = Reach-Served dl reach in
      let size = length-append l held in
      let e = q.receiving.owns.used_elements in
      let d = q.receiving.owns.used_data in
      rw q.receiving.waiting
        (c, gone, q.order, q.receiving.current, q.channel, e ∙ ap suc size, d ∙ ap suc size)

  -- From every state that the operations reach, the interrupt of an idle line returns within two
  -- rounds of its loop, for every count of the DMA channel: it neither runs on nor reads through
  -- NULL.
  pub Reach-returns :
      {r : UartRx dl} {held : List ℕ} {came : List Transfer} (fuel counter : ℕ) (flags : Flags)
      → Reach dl r held came
      → flags idle ≡ true
      → (r' : UartRx dl) × (gd32_uart_isr dl (suc (suc fuel)) counter flags r
          ≡ ok (flag_clear idle flags, r'))
  Reach-returns {r} {held} {came} fuel counter flags reach on =
      let (c, l, gone, q) = Reach-Served dl reach in
      let (r', e, served) = isr-Served dl fuel counter c flags r l held gone came on q in (r', e)

  items_lem :
      (element : ℕ → DmaElement) (m held : List ℕ) (x : Run (UartRx dl)) (r' : UartRx dl)
      → AfterNext dl element m held x
      → x ≡ ok r'
      → dl.items r'.rx_block_list
        ≡ (if ltb (length (m ++ held)) tx_dma_data_max_cnt then m else drop 1 m)
  items_lem element m held _ r' (after r'' a l which q channel agree) e =
      let same : r'' ≡ r' = cc in
      subst
        (λ (z : UartRx dl).
          dl.items z.rx_block_list
          ≡ (if ltb (length (m ++ held)) tx_dma_data_max_cnt then m else drop 1 m))
        same (q.waiting ∙ which)

  -- From every state that the operations reach, when `dma_recv_isr` returns, the current block has
  -- joined the list; the oldest block of the list is dropped exactly if all ten were in use.
  pub Reach-drops_oldest :
      {r : UartRx dl} {held : List ℕ} {came : List Transfer} (fuel counter c : ℕ) (r' : UartRx dl)
      → Reach dl r held came
      → r.current_rx_block ≡ some c
      → dma_recv_isr dl (suc (suc fuel)) counter r ≡ ok r'
      → dl.items r'.rx_block_list ≡ (
          if ltb (suc (length (dl.items r.rx_block_list) + length held)) tx_dma_data_max_cnt
          then dl.items r.rx_block_list ++ (c ∷ [])
          else drop 1 (dl.items r.rx_block_list ++ (c ∷ [])))
  Reach-drops_oldest {r} {held} {came} fuel counter c r' reach current e =
      let (c', l, gone, q) = Reach-Served dl reach in
      let now = q.receiving.current in
      let same : c' ≡ c = cc in
      let next = dma_recv_isr-AfterNext dl fuel counter r c' l held q.receiving in
      let items = items_lem _ (l ++ (c' ∷ [])) held _ r' next e in
      let size : length ((l ++ (c' ∷ [])) ++ held) ≡ suc (length l + length held) =
        (let a = length-append (l ++ (c' ∷ [])) held in
          let b = length-append l (c' ∷ []) in omega (arith, a, b)) in
      rw (q.receiving.waiting, sym same) (rw (sym size) items)

  -- When the line is not idle the interrupt of the UART returns; it clears the nine flags of
  -- errors and of the line, changes no other flag and nothing of the receiver.
  pub gd32_uart_isr-clears :
      (fuel counter : ℕ) (flags : Flags) (r : UartRx dl)
      → flags idle ≡ false
      → (flags' : Flags) × (gd32_uart_isr dl fuel counter flags r ≡ ok (flags', r))
        × ((f : Flag)
            → flags' f
              ≡ (if ltb 0 (flag_number f) && ltb (flag_number f) 10 then false else flags f))
  unfolding gd32_uart_isr clear_errors
  gd32_uart_isr-clears fuel counter flags r off = (
    clear_errors flags,
    rw (gd32_uart_isr, off) refl,
    λ f.
        rw
          (
            clear_if_set_lem rt f _,
            clear_if_set_lem eb f _,
            clear_if_set_lem lbd f _,
            clear_if_set_lem cts f _,
            clear_if_set_lem perr f _,
            clear_if_set_lem rbne_orerr f _,
            clear_if_set_lem ferr f _,
            clear_if_set_lem nerr f _,
            clear_if_set_lem orerr f _,
          )
          (ground arith),
  )
