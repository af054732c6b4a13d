-- ===== src/Tests/Serial.antt =====
-- The theorems on the UART driver, over lists as the list macros.
use gd32c103_bootloader.Common.{
  ℕ, suc, ◌+◌, ◌*◌, ◌≤◌, ◌≡◌, ◌<◌, refl, arith, true, false, ◌==◌, ltb, if◌then◌else◌, List, [],
  ◌∷◌, ◌++◌, length, drop, replicate, Option, none, some,
}
use gd32c103_bootloader.Boot.{Memory}
use gd32c103_bootloader.Pool.{Pool, os_pool_alloc}
use gd32c103_bootloader.Pool.Alloc.{IsValid}
use gd32c103_bootloader.Pool.View.{used}
use gd32c103_bootloader.Uart.Macros.{DlMacros, first}
use gd32c103_bootloader.Uart.{Store, DmaElement, tx_dma_data_max_cnt}
use gd32c103_bootloader.Uart.Own.{Owns, buffer_of}
use gd32c103_bootloader.Uart.Send.{
  UartTx, Transfer, Status, gd32_uart_alloc_dma_element, gd32_uart_append_dma_send_list,
}
use gd32c103_bootloader.Uart.Send.Queue.{frame_of, frames_of, running}
use gd32c103_bootloader.Uart.Send.Reach as Sending
use gd32c103_bootloader.Uart.Send.Order.{Reach-in_order, complete_all, Reach-complete_all}
use gd32c103_bootloader.Uart.Receive.{
  UartRx, Run, ok, fault, hang, Flags, flag_number, idle, flag_clear, gd32_uart_isr, dma_recv_isr,
  start_receiving,
}
use gd32c103_bootloader.Uart.Receive.Reach as Receiving
use gd32c103_bootloader.Uart.Receive.Order.{Reach-serves, Reach-returns, Reach-drops_oldest}
use gd32c103_bootloader.Uart.Device.{Heap, new_tx, new_rx, uart_init}
use gd32c103_bootloader.Uart.Device.Start.{IsGiven, uart_init-Reach}

abbrev pub tail : List ℕ → List ℕ
tail [] = []
tail (a ∷ l) = l

pub tail_lem : (s : List ℕ) (a : ℕ) (l : List ℕ) → s ≡ a ∷ l → tail s ≡ l
tail_lem s a l e = rw e refl

abbrev pub listed : DlMacros
listed = record {
  State = List ℕ;
  empty = [];
  head = first;
  append = λ s a. s ++ (a ∷ []);
  delete = λ s a. tail s;
  items = λ s. s;
  items-empty = refl;
  head-first = λ s. refl;
  items-append = λ s a fresh. refl;
  items-delete = tail_lem;
}

abbrev heap_at : ℕ → Heap
heap_at a = record {
  pool_id = some 0x20000000;
  memory = some a;
  markers = some 0x20000100;
  garbage = 0;
}

heap_at-IsGiven : (n a : ℕ) → a + 10 * n ≤ 4294967296 → IsGiven (heap_at a) n
heap_at-IsGiven n a fits = record {
  id = 0x20000000;
  address = a;
  marker_address = 0x20000100;
  has_id = refl;
  has_memory = refl;
  has_markers = refl;
  fits = fits;
  index = omega arith;
}

abbrev pub no_bytes : Memory
no_bytes = λ a. 0

abbrev pub no_elements : ℕ → DmaElement
no_elements = λ a. record { buffer = 0; size = 0 }

uart_init-Reach_example :
    (t : UartTx listed) × (r : UartRx listed) × (uart_init listed
        (heap_at 0x20001000)
        (heap_at 0x20002000)
        (heap_at 0x20003000)
        (heap_at 0x20004000)
        no_bytes
        no_elements
      ≡ some (t, r))
    × Sending.Reach listed t [] []
    × Receiving.Reach listed r [] []
uart_init-Reach_example =
    uart_init-Reach listed (heap_at 0x20001000) (heap_at 0x20002000) (heap_at 0x20003000)
      (heap_at 0x20004000) no_bytes no_elements (heap_at-IsGiven 16 0x20001000 (omega arith))
      (heap_at-IsGiven 270 0x20002000 (omega arith)) (heap_at-IsGiven 16 0x20003000 (omega arith))
      (heap_at-IsGiven 270 0x20004000 (omega arith))

abbrev pub pool_at : ℕ → ℕ → Pool
pool_at a n = record {
  pool = a;
  markers = replicate 10 0;
  pool_sz = 10;
  item_sz = n;
  current_index = 0;
}

abbrev pub first_store : Store
first_store = record {
  element_pool = pool_at 0x20001000 16;
  data_pool = pool_at 0x20002000 270;
  element = no_elements;
}

pool_at-IsValid : (a n : ℕ) → 0 < n → a + 10 * n ≤ 4294967296 → IsValid (pool_at a n)
pool_at-IsValid a n sized fits = record {
  marked = refl;
  in_range = omega arith;
  small = omega arith;
  sized = sized;
  fits = fits;
}

first_store-Owns : Owns first_store tx_dma_data_max_cnt []
unfolding used
first_store-Owns = record {
  valid_elements = pool_at-IsValid 0x20001000 16 (omega arith) (omega arith);
  valid_data = pool_at-IsValid 0x20002000 270 (omega arith) (omega arith);
  element_count = refl;
  data_count = refl;
  are_taken = tt;
  distinct = tt;
  used_elements = refl;
  used_data = refl;
}

abbrev first_tx : UartTx listed
first_tx = new_tx listed no_bytes first_store

first_tx-Reach : Sending.Reach listed first_tx [] []
first_tx-Reach =
    Sending.Reach.start first_tx
      (record { list = refl; stopped = refl; off = refl; silent = refl; owns = first_store-Owns })

-- An element of five bytes is taken, and then appended.
abbrev second_tx : UartTx listed
second_tx = (gd32_uart_alloc_dma_element listed 5 first_tx).1

second_tx-Reach : Sending.Reach listed second_tx (0x20001000 ∷ []) []
unfolding gd32_uart_alloc_dma_element os_pool_alloc
second_tx-Reach = Sending.Reach.alloc 5 0x20001000 second_tx first_tx-Reach refl

abbrev tx_of : Option (Status × UartTx listed) → UartTx listed
tx_of none = first_tx
tx_of (some r) = r.1

abbrev third_tx : UartTx listed
third_tx = tx_of (gd32_uart_append_dma_send_list listed true (some 0x20001000) second_tx)

third_tx-Reach : Sending.Reach listed third_tx [] ([] ++ (frame_of second_tx.store 0x20001000 ∷ []))
unfolding gd32_uart_append_dma_send_list gd32_uart_alloc_dma_element os_pool_alloc
third_tx-Reach = Sending.Reach.append third_tx second_tx-Reach refl

Reach-in_order_example :
    (third_tx.started ++ drop 1 (frames_of third_tx.store third_tx.tx_dma_list)
      ≡ frame_of second_tx.store 0x20001000 ∷ [])
    × (third_tx.tx_dma_state ≡ running third_tx.tx_dma_list)
    × (third_tx.enabled ≡ (third_tx.tx_dma_state == 1))
    × (used third_tx.store.element_pool ≡ length third_tx.tx_dma_list + 0)
    × (used third_tx.store.data_pool ≡ length third_tx.tx_dma_list + 0)
Reach-in_order_example = Reach-in_order listed third_tx-Reach

Reach-complete_all_example :
    ((complete_all listed (length third_tx.tx_dma_list) third_tx).started
      ≡ frame_of second_tx.store 0x20001000 ∷ [])
    × ((complete_all listed (length third_tx.tx_dma_list) third_tx).tx_dma_state ≡ 0)
    × ((complete_all listed (length third_tx.tx_dma_list) third_tx).enabled ≡ false)
    × (used (complete_all listed (length third_tx.tx_dma_list) third_tx).store.element_pool ≡ 0)
Reach-complete_all_example = Reach-complete_all listed third_tx-Reach

-- The receiver starts, and the line falls idle after 20 bytes.
abbrev pub first_rx : UartRx listed
first_rx = start_receiving listed (new_rx listed first_store)

pub first_rx-Reach : Receiving.Reach listed first_rx [] []
first_rx-Reach =
    Receiving.Reach.start (new_rx listed first_store)
      (record { list = refl; owns = first_store-Owns })

abbrev pub idle_only : Flags
idle_only = λ f. flag_number f == 0

abbrev pub rx_of : Run (Flags × UartRx listed) → UartRx listed
rx_of (ok r) = r.1
rx_of fault = first_rx
rx_of hang = first_rx

abbrev second_rx : UartRx listed
second_rx = rx_of (gd32_uart_isr listed 2 250 idle_only first_rx)

second_rx-Reach :
    Receiving.Reach listed second_rx []
      ([] ++ (Receiving.block_of first_rx.store 250 0x20001000 ∷ []))
unfolding gd32_uart_isr start_receiving os_pool_alloc
second_rx-Reach =
    Receiving.Reach.line_idle 0 250 0x20001000 idle_only (flag_clear idle idle_only) second_rx
      first_rx-Reach refl refl refl

Reach-serves_example :
    (c : ℕ) × (gone : List Transfer) × (gone ++ frames_of second_rx.store second_rx.rx_block_list
      ≡ Receiving.block_of first_rx.store 250 0x20001000 ∷ [])
    × (second_rx.current_rx_block ≡ some c)
    × (second_rx.channel ≡ some (buffer_of second_rx.store c, 270))
    × (used second_rx.store.element_pool ≡ suc (length second_rx.rx_block_list + 0))
    × (used second_rx.store.data_pool ≡ suc (length second_rx.rx_block_list + 0))
Reach-serves_example = Reach-serves listed second_rx-Reach

Reach-returns_example :
    (r : UartRx listed) × (gd32_uart_isr listed 2 200 idle_only second_rx
      ≡ ok (flag_clear idle idle_only, r))
Reach-returns_example = Reach-returns listed 0 200 idle_only second_rx-Reach refl

abbrev next_of_run : Run (UartRx listed) → UartRx listed
next_of_run (ok r) = r
next_of_run fault = first_rx
next_of_run hang = first_rx

abbrev third_rx : UartRx listed
third_rx = next_of_run (dma_recv_isr listed 2 200 second_rx)

second_rx-current : second_rx.current_rx_block ≡ some 0x20001010
unfolding gd32_uart_isr start_receiving os_pool_alloc
second_rx-current = refl

third_rx_lem : dma_recv_isr listed 2 200 second_rx ≡ ok third_rx
unfolding dma_recv_isr gd32_uart_isr start_receiving os_pool_alloc
third_rx_lem = refl

Reach-drops_oldest_example : third_rx.rx_block_list ≡ (
    if ltb (suc (length second_rx.rx_block_list + 0)) 10
    then second_rx.rx_block_list ++ (0x20001010 ∷ [])
    else drop 1 (second_rx.rx_block_list ++ (0x20001010 ∷ [])))
Reach-drops_oldest_example =
    Reach-drops_oldest listed 0 200 0x20001010 third_rx second_rx-Reach second_rx-current
      third_rx_lem
