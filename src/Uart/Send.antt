-- ===== src/Uart/Send.antt =====
-- The sending half of src/drv_simple_uart.c: a list of elements of which the first is given to the
-- DMA controller, and the interrupt at the end of each.
pub mod Queue
pub mod Reach
pub mod Order
use gd32c103_bootloader.Common.{
  ℕ, ◌==◌, Bool, true, false, ◌||◌, ltb, not, if◌then◌else◌, List, [], ◌∷◌, ◌++◌, Option, none,
  some,
}
use gd32c103_bootloader.Boot.{Memory}
use gd32c103_bootloader.Syscall.{memcpy}
use gd32c103_bootloader.Uart.Macros.{DlMacros}
use gd32c103_bootloader.Uart.{
  Store, DmaElement, with_size, TakenElement, no_element, no_buffer, got, take_element,
  free_element, tx_dma_data_max_size,
}

-- 0 and -1.
pub data Status : Type 0 where
  success failure : Status

-- What the DMA controller is given: an address and a length.
abbrev pub Transfer : Type 0
Transfer = ℕ × ℕ

module _ (dl : DlMacros) where
  open dl use {State, head, append, delete}

  -- The fields of `struct gd32_uart` for sending, the memory, and the DMA channel: the transfers
  -- that it was given so far, the last of them the one under way if the channel is enabled.
  pub record UartTx : Type 0 where
    pub tx_dma_list : State
    pub tx_dma_state : ℕ
    pub store : Store
    pub memory : Memory
    pub started : List Transfer
    pub enabled : Bool

  unfoldable pub uart_dma_transmit : ℕ → ℕ → UartTx → UartTx
  uart_dma_transmit buffer size t = record t {
    started = t.started ++ ((buffer, size) ∷ []);
    enabled = true;
  }

  -- A result, or `none` where the program would read an element through NULL.
  abbrev pub Sends : Type 0 → Type 0
  Sends A = Option (A × UartTx)

  -- An element joins the list, and is the first to be sent if nothing is.
  unfoldable pub enqueue : UartTx → ℕ → Sends Status
  unfolding uart_dma_transmit
  enqueue t a =
      let q : UartTx = record t { tx_dma_list = append t.tx_dma_list a } in
      if t.tx_dma_state == 0
      then elim (head q.tx_dma_list) [
        | none ↦ none
        | some h ↦ some (
          success,
          uart_dma_transmit (q.store.element h).buffer (q.store.element h).size
              (record q { tx_dma_state = 1 }),
        )
      ]
      else some (success, q)

  unfoldable pub gd32_uart_append_dma_send_list : Bool → Option ℕ → UartTx → Sends Status
  unfolding enqueue
  gd32_uart_append_dma_send_list has_handle element t =
      if has_handle
      then elim element [ none ↦ some (failure, t) | some a ↦ enqueue t a ]
      else some (failure, t)

  -- NULL for an element that does not come.
  unfoldable pub gd32_uart_alloc_dma_element : ℕ → UartTx → Option ℕ × UartTx
  unfolding take_element
  gd32_uart_alloc_dma_element size t =
      let (taken, s) = take_element t.store in
      if size == 0 || ltb tx_dma_data_max_size size then (none, t) else elim taken [
        | no_element ↦ (none, record t { store = s })
        | no_buffer ↦ (none, record t { store = s })
        | got a ↦ (some a, record t { store = with_size s a size })
      ]

  unfoldable pub gd32_uart_dma_send : Bool → ℕ → ℕ → UartTx → Sends Status
  unfolding take_element enqueue memcpy
  gd32_uart_dma_send has_handle buf size t =
      let (taken, s) = take_element t.store in
      if not has_handle || (buf == 0 || size == 0) then some (failure, t) else elim taken [
        | no_element ↦ some (failure, record t { store = s })
        | no_buffer ↦ some (failure, record t { store = s })
        | got a ↦
            enqueue
              (record t {
                memory = memcpy (s.element a).buffer buf size t.memory;
                store = with_size s a size;
              })
              a
      ]

  -- The first element leaves the list.
  unfoldable pub retire : UartTx → UartTx
  unfolding free_element
  retire t = elim (head t.tx_dma_list) [
    | none ↦ t
    | some a ↦ record t { tx_dma_list = delete t.tx_dma_list a; store = free_element t.store a }
  ]

  -- The interrupt of the DMA channel, with the flag that the transfer is complete.
  unfoldable pub dma_tx_isr : Bool → UartTx → UartTx
  unfolding uart_dma_transmit retire
  dma_tx_isr complete t =
      let r = retire (record t { enabled = false }) in
      if complete
      then elim (head r.tx_dma_list) [
        | none ↦ record r { tx_dma_state = 0 }
        | some a ↦ uart_dma_transmit (r.store.element a).buffer (r.store.element a).size r
      ]
      else t
