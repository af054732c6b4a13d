-- ===== src/Uart/Device.antt =====
-- The set-up of src/drv_simple_uart.c, and the calls by which the rest of the program gets at the
-- UART. A string is the list of its bytes before the one that is 0. What the calls do to the
-- registers of the peripheral is not modelled, but for the baud rate.
pub mod Start
use gd32c103_bootloader.Common.{
  ℕ, suc, ◌+◌, ◌-◌, ◌==◌, Bool, true, false, not, ◌&&◌, if◌then◌else◌, List, [], ◌∷◌, Option, none,
  some, u32,
}
use gd32c103_bootloader.Boot.{Memory}
use gd32c103_bootloader.Pool.{Pool, os_pool_init}
use gd32c103_bootloader.Uart.Macros.{DlMacros}
use gd32c103_bootloader.Uart.{Store, DmaElement, tx_dma_data_max_size, tx_dma_data_max_cnt}
use gd32c103_bootloader.Uart.Send.{UartTx, Status, success, failure}
use gd32c103_bootloader.Uart.Receive.{UartRx, gd32_uart_buf_size, start_receiving}

-- The bits of the `int` that is the difference of the bytes at which the loop stops.
unfoldable pub simple_strcmp : List ℕ → List ℕ → ℕ
simple_strcmp [] [] = 0
simple_strcmp [] (y ∷ t) = u32 (4294967296 - y)
simple_strcmp (x ∷ s) [] = x
simple_strcmp (x ∷ s) (y ∷ t) =
    let rest = simple_strcmp s t in
    if not (x == 0) && x == y then rest else u32 (x + 4294967296 - y)

-- The loop of `gd32_uart_get_handle` over the names of `uart_obj` from index `i` on.
unfoldable pub find_handle : ℕ → List (List ℕ) → List ℕ → Option ℕ
unfolding simple_strcmp
find_handle i [] name = none
find_handle i (d ∷ ds) name =
    let rest = find_handle (suc i) ds name in if simple_strcmp d name == 0 then some i else rest

-- "uart1", the only one that is configured.
abbrev pub uart1_name : List ℕ
uart1_name = 117 ∷ 97 ∷ 114 ∷ 116 ∷ 49 ∷ []

abbrev pub uart_obj : List (List ℕ)
uart_obj = uart1_name ∷ []

unfoldable pub gd32_uart_get_handle : List ℕ → Option ℕ
unfolding find_handle
gd32_uart_get_handle name = find_handle 0 uart_obj name

-- The rate that is stored, and the one that the peripheral is set to.
pub record Rates : Type 0 where
  pub baudrate : ℕ
  pub line : ℕ

unfoldable pub gd32_uart_set_baudrate : Bool → ℕ → Rates → Rates
gd32_uart_set_baudrate has_handle baudrate r =
    if has_handle then record { baudrate = baudrate; line = baudrate } else r

abbrev pub sizeof_dma_element : ℕ
sizeof_dma_element = 16

-- What the heap gives for a pool: the addresses of its three allocations, or NULL, and what its
-- memory holds at first.
pub record Heap : Type 0 where
  pub pool_id : Option ℕ
  pub memory : Option ℕ
  pub markers : Option ℕ
  pub garbage : ℕ

abbrev pub new_pool : Heap → ℕ → ℕ → Option Pool
new_pool h pool_sz item_sz =
    os_pool_init none false pool_sz item_sz h.garbage h.pool_id h.memory h.markers

-- The pools of elements and of buffers; `none` if one of them is NULL, so that its use is a fault.
unfoldable pub new_store : Heap → Heap → ℕ → (ℕ → DmaElement) → Option Store
unfolding os_pool_init
new_store elements buffers size element =
    elim (new_pool elements tx_dma_data_max_cnt sizeof_dma_element) [
      | none ↦ none
      | some ep ↦ elim (new_pool buffers tx_dma_data_max_cnt size) [
        | none ↦ none
        | some dp ↦ some (record { element_pool = ep; data_pool = dp; element = element })
      ]
    ]

module _ (dl : DlMacros) where
  unfoldable pub gd32_uart_set_rx_indicate : Bool → Bool → UartRx dl → Status × UartRx dl
  gd32_uart_set_rx_indicate has_handle has_rx_ind r =
      if has_handle then (success, record r { rx_indicate = has_rx_ind }) else (failure, r)

  -- The fields of `uart_obj` as they are initialised, with the pools that are new.
  abbrev pub new_tx : Memory → Store → UartTx dl
  new_tx memory s = record {
    tx_dma_list = dl.empty;
    tx_dma_state = 0;
    store = s;
    memory = memory;
    started = [];
    enabled = false;
  }

  abbrev pub new_rx : Store → UartRx dl
  new_rx s = record {
    rx_block_list = dl.empty;
    current_rx_block = none;
    store = s;
    rx_indicate = false;
    indicated = [];
    channel = none;
  }

  -- The round of `uart_init` for UART1; the heaps are those of its four pools in their order.
  unfoldable pub uart_init :
      Heap → Heap → Heap → Heap → Memory → (ℕ → DmaElement) → Option (UartTx dl × UartRx dl)
  unfolding new_store start_receiving
  uart_init tx_elements tx_data rx_blocks rx_data memory element =
      elim (new_store tx_elements tx_data tx_dma_data_max_size element) [
        | none ↦ none
        | some tx ↦ elim (new_store rx_blocks rx_data gd32_uart_buf_size element) [
          | none ↦ none
          | some rx ↦ some (new_tx memory tx, start_receiving dl (new_rx rx))
        ]
      ]
