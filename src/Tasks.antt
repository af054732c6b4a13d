-- ===== src/Tasks.antt =====
-- The loop of `xlinkTask` in src/main.c, from one semaphore to the next: it takes the blocks that the
-- UART received, passes their bytes to `xlink_process_rx`, and gives the blocks back. The memory is
-- what the DMA controller wrote. No block comes in between, and the loop has the number of its
-- rounds as fuel.
pub mod Drain
pub mod Calls
pub mod Device
pub mod Wake
use gd32c103_bootloader.Common.{ℕ, zero, suc, List, [], ◌∷◌, ◌++◌, Option, none, some}
use gd32c103_bootloader.Boot.{Memory, region}
use gd32c103_bootloader.Xlink.Context.{Context, Call, process_all}
use gd32c103_bootloader.Uart.{Store}
use gd32c103_bootloader.Uart.Macros.{DlMacros}
use gd32c103_bootloader.Uart.Receive.{UartRx, Run, ok, fault, hang, get_rx_block, free_rx_block}

-- The bytes of a block: its buffer, as long as its size.
unfoldable pub block_bytes : Memory → Store → ℕ → List ℕ
block_bytes m s a = region m (s.element a).buffer (s.element a).size

module _ (dl : DlMacros) where
  -- The calls of handlers, and what the context and the receiver are then.
  abbrev pub Drained : Type 0
  Drained = List Call × (Context × UartRx dl)

  abbrev pub after_calls : List Call → Run Drained → Run Drained
  after_calls calls (ok d) = ok (calls ++ d.0, d.1)
  after_calls calls fault = fault
  after_calls calls hang = hang

  unfoldable pub drain : ℕ → Memory → UartRx dl → Context → Run Drained
  unfolding block_bytes get_rx_block free_rx_block process_all
  drain zero m r c = hang
  drain (suc fuel) m r c =
      let (block, r') = get_rx_block dl r in
      elim block [
        | none ↦ ok ([], (c, r'))
        | some a ↦ elim (process_all c (block_bytes m r'.store a)) [
          | none ↦ fault
          | some (calls, c') ↦ after_calls calls (drain fuel m (free_rx_block dl a r') c')
        ]
      ]
