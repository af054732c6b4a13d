-- ===== src/Tasks/Wake.antt =====
-- The semaphore of `xlinkTask` in src/main.c, which `uart_rx_ind` gives from the interrupt of the
-- UART. The interrupt may come between any two steps of the task; the handling of the bytes of a
-- block, which changes neither the list nor the semaphore, is left to the loop in the module above.
pub mod Pending
use gd32c103_bootloader.Common.{
  ℕ, zero, suc, Bool, true, false, ◌||◌, ltb, ◌≡◌, if◌then◌else◌, List, length, Option, none, some,
}
use gd32c103_bootloader.Uart.Macros.{DlMacros}
use gd32c103_bootloader.Uart.Receive.{
  UartRx, Run, ok, fault, hang, Flags, gd32_uart_isr, get_rx_block, free_rx_block,
}
use gd32c103_bootloader.Uart.Device.{gd32_uart_set_rx_indicate}

-- Where the task is: before xSemaphoreTake, before `get_rx_block`, or with a block in its hands.
pub data Place : Type 0 where
  waits takes : Place
  handles : ℕ → Place

module _ (dl : DlMacros) where
  pub record Awake : Type 0 where
    pub rx : UartRx dl
    pub semaphore : Bool
    pub place : Place

  -- The calls of the callback, each of which gives the binary semaphore.
  unfoldable pub uart_rx_ind : List ℕ → List ℕ → Bool → Bool
  uart_rx_ind before after semaphore = ltb (length before) (length after) || semaphore

  unfoldable pub on_interrupt : ℕ → ℕ → Flags → Awake → Run Awake
  unfolding uart_rx_ind
  on_interrupt fuel counter flags x = elim (gd32_uart_isr dl fuel counter flags x.rx) [
    | ok (flags', r) ↦ ok (record {
      rx = r;
      semaphore = uart_rx_ind x.rx.indicated r.indicated x.semaphore;
      place = x.place;
    })
    | fault ↦ fault
    | hang ↦ hang
  ]

  -- A step of the task; it waits for a semaphore that is not given.
  unfoldable pub task_step : Awake → Awake
  task_step x = elim x.place [
    | waits ↦
        if x.semaphore
        then record x { semaphore = false; place = takes }
        else record x { place = waits }
    | takes ↦
        (let (block, r) = get_rx_block dl x.rx in
          elim block [
            | none ↦ record x { rx = r; place = waits }
            | some a ↦ record x { rx = r; place = handles a }
          ])
    | handles a ↦ record x { rx = free_rx_block dl a x.rx; place = takes }
  ]

  -- Steps of the task alone.
  unfoldable pub task_steps : ℕ → Awake → Awake
  unfolding task_step
  task_steps zero x = x
  task_steps (suc n) x = task_steps n (task_step x)

  -- The states from the first wait on, which begins with the callback set and no block in the list.
  pub data Runs : Awake → Type 0 where
    begin :
        (r : UartRx dl)
        → dl.head r.rx_block_list ≡ none
        → Runs (record {
          rx = (gd32_uart_set_rx_indicate dl true true r).1;
          semaphore = false;
          place = waits;
        })
    interrupt :
        (x x' : Awake) (fuel counter : ℕ) (flags : Flags)
        → Runs x
        → on_interrupt fuel counter flags x ≡ ok x'
        → Runs x'
    step : (x : Awake) → Runs x → Runs (task_step x)
