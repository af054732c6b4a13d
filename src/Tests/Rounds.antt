-- ===== src/Tests/Rounds.antt =====
-- The theorem on a round of the task.
use gd32c103_bootloader.Common.{ℕ, zero, suc, ◌-◌, ◌≡◌, refl, arith, List, [], ◌∷◌, ◌++◌, map}
use gd32c103_bootloader.Boot.{Memory}
use gd32c103_bootloader.Pool.{os_pool_alloc}
use gd32c103_bootloader.Crc.{memcpy_and_crc16, xlink_crc16_with_init}
use gd32c103_bootloader.Xlink.Message.{encode_frame}
use gd32c103_bootloader.Xlink.Receive.{Rx}
use gd32c103_bootloader.Xlink.Receive.Stream.{on_line, packet, noise, IsIdle}
use gd32c103_bootloader.Xlink.Context.{Call}
use gd32c103_bootloader.Xlink.Context.Calls.{given, Expected}
use gd32c103_bootloader.Uart.Receive.{UartRx, ok, idle, flag_clear, gd32_uart_isr, start_receiving}
use gd32c103_bootloader.Uart.Receive.Reach as Receiving
use gd32c103_bootloader.Tasks.{block_bytes, drain}
use gd32c103_bootloader.Tasks.Drain.{blocks_bytes}
use gd32c103_bootloader.Tasks.Calls.{drain-calls}
use gd32c103_bootloader.Tests.Serial.{listed, first_rx, first_rx-Reach, idle_only, rx_of}
use gd32c103_bootloader.Tests.Contexts.{waiting_rx, waiting_rx-IsIdle, echo_registry, echo_packet}

-- The line falls idle after a stray byte and a frame.
abbrev came_rx : UartRx listed
came_rx = rx_of (gd32_uart_isr listed 2 261 idle_only first_rx)

came_rx-Reach :
    Receiving.Reach listed came_rx []
      ([] ++ (Receiving.block_of first_rx.store 261 0x20001000 ∷ []))
unfolding gd32_uart_isr start_receiving os_pool_alloc
came_rx-Reach =
    Receiving.Reach.line_idle 0 261 0x20001000 idle_only (flag_clear idle idle_only) came_rx
      first_rx-Reach refl refl refl

abbrev nth : List ℕ → ℕ → ℕ
nth [] i = 0
nth (x ∷ xs) zero = x
nth (x ∷ xs) (suc i) = nth xs i

abbrev came_bytes : List ℕ
came_bytes = on_line (noise 3 ∷ packet echo_packet ∷ [])

abbrev written : Memory
written = λ a. nth came_bytes (a - 0x20002000)

written_lem : blocks_bytes written came_rx.store (listed.items came_rx.rx_block_list) ≡ came_bytes
unfolding on_line gd32_uart_isr start_receiving os_pool_alloc block_bytes encode_frame
    memcpy_and_crc16 xlink_crc16_with_init
written_lem = refl

drain-calls_example :
    (calls : List Call) × (after : Rx) × (r' : UartRx listed) × (drain listed 2 written came_rx
        (record { rx = waiting_rx; registry = echo_registry })
      ≡ ok (calls, (record { rx = after; registry = echo_registry }, r')))
    × Expected echo_registry (echo_packet ∷ []) (map given calls)
    × IsIdle after
    × (listed.items r'.rx_block_list ≡ [])
    × Receiving.Reach listed r' [] ([] ++ (Receiving.block_of first_rx.store 261 0x20001000 ∷ []))
unfolding gd32_uart_isr start_receiving os_pool_alloc
drain-calls_example =
    drain-calls listed 2 written (noise 3 ∷ packet echo_packet ∷ []) waiting_rx echo_registry
      (omega arith) came_rx-Reach written_lem waiting_rx-IsIdle
      (λ e. absurd (omega (arith, e)), (omega arith, tt))
