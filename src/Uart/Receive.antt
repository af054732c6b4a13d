-- ===== src/Uart/Receive.antt =====
-- The receiving half of src/drv_simple_uart.c: the DMA controller fills the current block, and when
-- the line falls idle the block joins a list and another one takes its place.
pub mod Blocks
pub mod Reach
pub mod Order
use gd32c103_bootloader.Common.{
  ℕ, zero, suc, ◌+◌, ◌-◌, ◌==◌, Bool, true, false, if◌then◌else◌, List, [], ◌∷◌, ◌++◌, Option, none,
  some, u32,
}
use gd32c103_bootloader.Uart.Macros.{DlMacros}
use gd32c103_bootloader.Uart.{
  Store, DmaElement, with_size, TakenElement, no_element, no_buffer, got, take_element,
  free_element, bsp_uart1_rx_bufsize,
}

-- A result, a read through NULL, or a loop that has not ended.
pub data Run (A : Type 0) : Type 0 where
  ok : A → Run A
  fault : Run A
  hang : Run A

-- The flags of the UART's interrupts.
pub data Flag : Type 0 where
  idle orerr nerr ferr rbne_orerr perr cts lbd eb rt tbe tc rbne : Flag

abbrev pub flag_number : Flag → ℕ
flag_number idle = 0
flag_number orerr = 1
flag_number nerr = 2
flag_number ferr = 3
flag_number rbne_orerr = 4
flag_number perr = 5
flag_number cts = 6
flag_number lbd = 7
flag_number eb = 8
flag_number rt = 9
flag_number tbe = 10
flag_number tc = 11
flag_number rbne = 12

abbrev pub Flags : Type 0
Flags = Flag → Bool

abbrev pub flag_clear : Flag → Flags → Flags
flag_clear f flags = λ g. if flag_number g == flag_number f then false else flags g

-- `if (usart_interrupt_flag_get(f) != RESET) usart_interrupt_flag_clear(f)`.
unfoldable pub clear_if_set : Flag → Flags → Flags
clear_if_set f flags = if flags f then flag_clear f flags else flags

-- The branch of `gd32_uart_isr` for a line that is not idle.
unfoldable pub clear_errors : Flags → Flags
unfolding clear_if_set
clear_errors flags = clear_if_set rt (
    clear_if_set eb (
      clear_if_set lbd (
        clear_if_set cts (
          clear_if_set perr (
            clear_if_set rbne_orerr
              (clear_if_set ferr (clear_if_set nerr (clear_if_set orerr flags))))))))

-- The only UART is UART1.
abbrev pub gd32_uart_buf_size : ℕ
gd32_uart_buf_size = bsp_uart1_rx_bufsize

module _ (dl : DlMacros) where
  open dl use {State, head, append, delete}

  -- The fields of `struct gd32_uart` for receiving; the buffer and the length that the DMA channel
  -- was last given, `none` while it is off; and the sizes that the callback was called with.
  pub record UartRx : Type 0 where
    pub rx_block_list : State
    pub current_rx_block : Option ℕ
    pub store : Store
    pub rx_indicate : Bool
    pub indicated : List ℕ
    pub channel : Option (ℕ × ℕ)

  -- A new current block, under way.
  unfoldable pub receive_into : ℕ → Store → UartRx → UartRx
  receive_into a s r = record r {
    store = s;
    current_rx_block = some a;
    channel = some ((s.element a).buffer, gd32_uart_buf_size);
  }

  -- The oldest block is dropped, if there is one.
  unfoldable pub drop_oldest : UartRx → UartRx
  unfolding free_element
  drop_oldest r = elim (head r.rx_block_list) [
    | none ↦ r
    | some a ↦ record r { rx_block_list = delete r.rx_block_list a; store = free_element r.store a }
  ]

  -- From the label `_back` on, with the number of rounds as fuel.
  unfoldable pub next_block : ℕ → UartRx → Run UartRx
  unfolding take_element drop_oldest receive_into
  next_block zero r = hang
  next_block (suc fuel) r =
      let (taken, s) = take_element r.store in
      let back = next_block fuel (drop_oldest (record r { store = s; current_rx_block = none })) in
      elim taken [
        | no_element ↦ back
        | no_buffer ↦ ok (record r { store = s; current_rx_block = none })
        | got a ↦ ok (receive_into a s r)
      ]

  -- The current block joins the list, with the number of bytes that came.
  unfoldable pub append_current : ℕ → ℕ → UartRx → UartRx
  append_current counter c r = record r {
    store = with_size r.store c (u32 (gd32_uart_buf_size + 4294967296 - counter));
    rx_block_list = append r.rx_block_list c;
  }

  -- The callback gets the size of the first block.
  unfoldable pub indicate : UartRx → Run UartRx
  indicate r =
      if r.rx_indicate
      then elim (head r.rx_block_list) [
        | none ↦ fault
        | some h ↦ ok (record r { indicated = r.indicated ++ ((r.store.element h).size ∷ []) })
      ]
      else ok r

  -- `counter` is what dma_transfer_number_get returns, any number here: it is read after dma_deinit,
  -- which the firmware library, and not this code, defines.
  unfoldable pub dma_recv_isr : ℕ → ℕ → UartRx → Run UartRx
  unfolding append_current indicate next_block
  dma_recv_isr fuel counter r = elim r.current_rx_block [
    | none ↦ fault
    | some c ↦ elim (indicate (append_current counter c r)) [
      | ok r' ↦ next_block fuel r'
      | fault ↦ fault
      | hang ↦ hang
    ]
  ]

  -- Disabling and resetting the channel leaves nothing under way.
  unfoldable pub gd32_uart_isr : ℕ → ℕ → Flags → UartRx → Run (Flags × UartRx)
  unfolding dma_recv_isr clear_errors
  gd32_uart_isr fuel counter flags r =
      if flags idle
      then elim (dma_recv_isr fuel counter (record r { channel = none })) [
        | ok r' ↦ ok (flag_clear idle flags, r')
        | fault ↦ fault
        | hang ↦ hang
      ]
      else ok (clear_errors flags, r)

  -- The receiving part of `gd32_dma_config`.
  unfoldable pub start_receiving : UartRx → UartRx
  unfolding take_element receive_into
  start_receiving r =
      let (taken, s) = take_element r.store in
      elim taken [
        | no_element ↦ record r { store = s; current_rx_block = none; channel = none }
        | no_buffer ↦ record r { store = s; current_rx_block = none; channel = none }
        | got a ↦ receive_into a s r
      ]

  unfoldable pub get_rx_block : UartRx → Option ℕ × UartRx
  get_rx_block r = elim (head r.rx_block_list) [
    | none ↦ (none, r)
    | some a ↦ (some a, record r { rx_block_list = delete r.rx_block_list a })
  ]

  unfoldable pub free_rx_block : ℕ → UartRx → UartRx
  unfolding free_element
  free_rx_block a r = record r { store = free_element r.store a }
