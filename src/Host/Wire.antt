-- ===== src/Host/Wire.antt =====
-- The line of upgrade.cpp with the frames of xlink/xlink.h on it, in both directions. At one end is
-- the host: a request goes out through `xlink_send`, and the receiving thread passes what comes back
-- to `xlink_process_rx`, whose messages the handlers of a response see. At the other end is the
-- device. Bytes are neither lost nor changed on the way, and what the device sends comes in time.
pub mod Steps
pub mod Boots
use gd32c103_bootloader.Common.{
  ℕ, Bool, true, false, ◌==◌, if◌then◌else◌, List, [], ◌∷◌, ◌++◌, length, take, Option, none, some,
}
use gd32c103_bootloader.Flash.Controller.{Fmc}
use gd32c103_bootloader.Xlink.Receive.{Rx, Event, received, refused, receive}
use gd32c103_bootloader.Xlink.Context.{
  Context, Call, Sending, refused_send, handed_on, SendPort, xlink_send, process_all,
}
use gd32c103_bootloader.Upgrade.{Upgrade, Sent}
use gd32c103_bootloader.Upgrade.Init.{Code, comp_id_upgrade}
use gd32c103_bootloader.Tasks.Device.{run_calls}
use gd32c103_bootloader.Host.{Line}

-- `xlink_send` for the upgrade component, on a port that has memory and whose transport returns 0.
abbrev pub ready_port : SendPort
ready_port = record { transport_send_fn = some (λ frame. 0); frame_send_alloc_fn = λ n. true }

abbrev pub send_upgrade : Sent → Sending
send_upgrade (msg_id, payload) =
    xlink_send (some (some ready_port)) comp_id_upgrade msg_id (some payload) (length payload)

unfoldable pub sent_bytes : List Sent → List ℕ
unfolding xlink_send
sent_bytes [] = []
sent_bytes (s ∷ l) = elim (send_upgrade s) [
  | refused_send ↦ sent_bytes l
  | handed_on value frame ↦ frame ++ sent_bytes l
]

-- The messages of the upgrade component among what a receiver passes on.
unfoldable pub heard : List Event → List Sent
heard [] = []
heard (received m ∷ es) =
    if m.comp_id == comp_id_upgrade then (m.msg_id, take m.len m.payload) ∷ heard es else heard es
heard (refused m ∷ es) = heard es

module _ (fmc : Fmc) (code : Code) (garbage vectors : ℕ) where
  -- The receivers and the handlers of both ends, and the device behind its handlers.
  pub record Ends : Type 0 where
    pub context : Context
    pub upgrade : Upgrade fmc
    pub host_rx : Rx

  -- The device takes a frame, and what its callbacks send comes back.
  unfoldable pub answer : List ℕ → Ends → List Sent × Ends
  unfolding process_all run_calls receive sent_bytes heard
  answer frame w = elim (process_all w.context frame) [
    | none ↦ ([], w)
    | some (calls, c) ↦ elim (run_calls fmc code garbage vectors calls w.upgrade) [
      | none ↦ ([], record w { context = c })
      | some (sent, u) ↦ elim (receive w.host_rx (sent_bytes sent)) [
        | none ↦ ([], record w { context = c; upgrade = u })
        | some (events, rx) ↦ (heard events, record { context = c; upgrade = u; host_rx = rx })
      ]
    ]
  ]

  unfoldable pub exchange : Sent → Ends → Bool × (List Sent × Ends)
  unfolding xlink_send answer
  exchange request w = elim (send_upgrade request) [
    | refused_send ↦ (false, ([], w))
    | handed_on value frame ↦ (true, answer frame w)
  ]

  abbrev pub wire : Line
  wire = record { State = Ends; exchange = exchange }
