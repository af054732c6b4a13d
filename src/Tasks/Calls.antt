-- ===== src/Tasks/Calls.antt =====
-- The calls of handlers that a round of `xlinkTask` of src/main.c makes.
use gd32c103_bootloader.Common.{ℕ, ◌<◌, ◌≡◌, ap, ◌∙◌, List, [], length, All, map}
use gd32c103_bootloader.Boot.{Memory}
use gd32c103_bootloader.Xlink.Receive.{Rx}
use gd32c103_bootloader.Xlink.Receive.Stream.{Item, on_line, packets, IsSendable, IsIdle}
use gd32c103_bootloader.Xlink.Registry.{Registry}
use gd32c103_bootloader.Xlink.Context.{Context, Call, process_all}
use gd32c103_bootloader.Xlink.Context.Calls.{given, Expected, stream-calls}
use gd32c103_bootloader.Uart.Macros.{DlMacros}
use gd32c103_bootloader.Uart.Send.{Transfer}
use gd32c103_bootloader.Uart.Receive.{UartRx, ok}
use gd32c103_bootloader.Uart.Receive.Reach as Receiving
use gd32c103_bootloader.Tasks.{drain}
use gd32c103_bootloader.Tasks.Drain.{blocks_bytes, outcome, Reach-drain}

module _ (dl : DlMacros) where
  -- Let the receiver be in a state that its operations reach, and let the bytes in its blocks, taken
  -- together, be a stream of frames that `xlink_send` built, with stray bytes other than the start
  -- byte between them. However the frames are cut into blocks, a round of the task on a context whose
  -- receiver is idle, with more fuel than there are blocks, makes these calls and no others: frame by
  -- frame, every handler of its component that has its identifier, in their order, with the frame's
  -- identifiers and payload. Then the list is empty, the state is one that the operations reach with
  -- the same elements held by the task as before, and the receiver of the context is idle.
  pub drain-calls :
      {r : UartRx dl} {held : List ℕ} {came : List Transfer} (fuel : ℕ) (m : Memory)
      (items : List Item) (rx : Rx) (registry : Registry)
      → length (dl.items r.rx_block_list) < fuel
      → Receiving.Reach dl r held came
      → blocks_bytes m r.store (dl.items r.rx_block_list) ≡ on_line items
      → IsIdle rx
      → All IsSendable items
      → (calls : List Call) × (after : Rx) × (r' : UartRx dl) × (drain dl fuel m r
            (record { rx = rx; registry = registry })
          ≡ ok (calls, (record { rx = after; registry = registry }, r')))
        × Expected registry (packets items) (map given calls)
        × IsIdle after
        × (dl.items r'.rx_block_list ≡ [])
        × Receiving.Reach dl r' held came
  drain-calls {r} {held} {came} fuel m items rx registry enough reach bytes idle sendable =
      let c : Context = record { rx = rx; registry = registry } in
      let (r', reach', empty, run) = Reach-drain dl fuel m c enough reach in
      let (calls, after, all, given_calls, idle') = stream-calls items rx registry idle sendable in
      let whole =
        run ∙ ap (λ x. outcome dl (process_all c x) r') bytes ∙ ap (λ o. outcome dl o r') all in
      (calls, after, r', whole, given_calls, idle', empty, reach')
