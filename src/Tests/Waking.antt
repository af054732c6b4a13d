-- ===== src/Tests/Waking.antt =====
-- The theorem on the semaphore of the task.
use gd32c103_bootloader.Common.{ℕ, ◌≤◌, ◌≡◌, refl, true, false}
use gd32c103_bootloader.Pool.{os_pool_alloc}
use gd32c103_bootloader.Uart.Receive.{
  Run, ok, fault, hang, gd32_uart_isr, get_rx_block, start_receiving,
}
use gd32c103_bootloader.Uart.Device.{gd32_uart_set_rx_indicate}
use gd32c103_bootloader.Tasks.Wake.{
  waits, handles, Awake, on_interrupt, task_step, task_steps, uart_rx_ind, Runs, begin, interrupt,
  step,
}
use gd32c103_bootloader.Tasks.Wake.Pending.{Runs-takes}
use gd32c103_bootloader.Tests.Serial.{listed, first_rx, idle_only}

abbrev armed : Awake listed
armed = record {
  rx = (gd32_uart_set_rx_indicate listed true true first_rx).1;
  semaphore = false;
  place = waits;
}

abbrev awake_of : Run (Awake listed) → Awake listed
awake_of (ok x) = x
awake_of fault = armed
awake_of hang = armed

-- The line falls idle twice, the second time while the task has the first block in its hands.
abbrev first_came : Awake listed
first_came = awake_of (on_interrupt listed 2 250 idle_only armed)

abbrev second_came : Awake listed
second_came = awake_of (on_interrupt listed 2 200 idle_only (task_steps listed 2 first_came))

first_came-Runs : Runs listed first_came
unfolding on_interrupt gd32_uart_isr gd32_uart_set_rx_indicate start_receiving os_pool_alloc
    uart_rx_ind
first_came-Runs = interrupt armed first_came 2 250 idle_only (begin first_rx refl) refl

second_came-Runs : Runs listed second_came
unfolding on_interrupt gd32_uart_isr gd32_uart_set_rx_indicate start_receiving os_pool_alloc
    uart_rx_ind task_steps get_rx_block
second_came-Runs =
    interrupt (task_steps listed 2 first_came) second_came 2 200 idle_only
      (step (task_step listed first_came) (step first_came first_came-Runs)) refl

Runs-takes_example :
    (n : ℕ) × (n ≤ 2) × ((task_steps listed n second_came).place ≡ handles 0x20001010)
unfolding on_interrupt gd32_uart_isr gd32_uart_set_rx_indicate start_receiving os_pool_alloc
    uart_rx_ind task_steps get_rx_block
Runs-takes_example = Runs-takes listed 0x20001010 second_came-Runs refl
