-- ===== src/Uart.antt =====
-- src/drv_simple_uart.c and inc/drv_simple_uart.h, with UART1 as inc/config.h configures it. The
-- elements that the driver hands round come from two pools, one for `struct dma_element` and one for
-- the buffers; the sending and the receiving half have their own pools, so each half is a state of
-- its own. Each operation is one step. The appending to the lists, their ends and the interrupts are
-- in critical sections; the allocation of an element is not, nor is the search of a pool for a free
-- item, so one step stands for it only as long as a single task allocates from the pool, and an
-- interrupt in between, which frees elements, is taken to come before or after. The links of an
-- element belong to the list macros, which are a parameter. The children have the operations.
pub mod Macros
pub mod Device
pub mod Send
pub mod Receive
pub mod Own
use gd32c103_bootloader.Common.{ℕ, ◌==◌, if◌then◌else◌, Option, none, some}
use gd32c103_bootloader.Pool.{Pool, os_pool_alloc, os_pool_free}

abbrev pub tx_dma_data_max_size : ℕ
tx_dma_data_max_size = 270

abbrev pub tx_dma_data_max_cnt : ℕ
tx_dma_data_max_cnt = 10

abbrev pub bsp_uart1_rx_bufsize : ℕ
bsp_uart1_rx_bufsize = 270

-- `struct dma_element` without its links; a buffer of 0 is NULL.
pub record DmaElement : Type 0 where
  pub buffer : ℕ
  pub size : ℕ

-- The pool of elements, the pool of buffers, and the elements by their addresses.
pub record Store : Type 0 where
  pub element_pool : Pool
  pub data_pool : Pool
  pub element : ℕ → DmaElement

abbrev pub with_element : Store → ℕ → DmaElement → Store
with_element s a x = record s { element = λ b. if b == a then x else s.element b }

abbrev pub with_size : Store → ℕ → ℕ → Store
with_size s a n = with_element s a (record { buffer = (s.element a).buffer; size = n })

abbrev pub with_buffer : Store → ℕ → ℕ → Store
with_buffer s a b = with_element s a (record { buffer = b; size = (s.element a).size })

-- What comes of allocating an element and its buffer.
pub data TakenElement : Type 0 where
  no_element no_buffer : TakenElement
  got : ℕ → TakenElement

-- An element and then its buffer; without a buffer the element goes back.
unfoldable pub take_element : Store → TakenElement × Store
take_element s =
    let (allocated, ep) = os_pool_alloc s.element_pool in
    let (buffer, dp) = os_pool_alloc s.data_pool in
    elim allocated [
      | none ↦ (no_element, record s { element_pool = ep })
      | some a ↦ elim buffer [
        | none ↦ (
          no_buffer,
          with_buffer (record s { element_pool = os_pool_free ep a; data_pool = dp }) a 0,
        )
        | some b ↦ (got a, with_buffer (record s { element_pool = ep; data_pool = dp }) a b)
      ]
    ]

-- The buffer goes back and then the element.
unfoldable pub free_element : Store → ℕ → Store
free_element s a = record s {
  data_pool = os_pool_free s.data_pool (s.element a).buffer;
  element_pool = os_pool_free s.element_pool a;
}
