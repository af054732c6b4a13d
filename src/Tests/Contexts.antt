-- ===== src/Tests/Contexts.antt =====
-- The theorems on a context and on sending.
use gd32c103_bootloader.Common.{
  ℕ, ◌≡◌, refl, arith, if◌then◌else◌, true, false, List, [], ◌∷◌, ◌++◌, map, length, replicate,
  length-replicate, none, some,
}
use gd32c103_bootloader.Xlink.Message.{Message}
use gd32c103_bootloader.Xlink.Receive.{RxState, Rx, received, before, receive}
use gd32c103_bootloader.Xlink.Receive.Frame.{frame_message, frame_crc, idle_after}
use gd32c103_bootloader.Xlink.Receive.Stream.{Packet, packet, noise, on_line, IsIdle}
use gd32c103_bootloader.Xlink.Registry.{Registry, Comp, new_handler, head, next_of}
use gd32c103_bootloader.Xlink.Context.{
  Context, Call, PortStart, process_all, SendPort, handed_on, xlink_send,
}
use gd32c103_bootloader.Xlink.Context.Calls.{given, Expected, stream-calls}
use gd32c103_bootloader.Xlink.Context.Delete.{Live, Owned, xlink_context_delete}
use gd32c103_bootloader.Xlink.Context.Delete.Frees.{
  member, context_blocks, xlink_context_delete-Frees,
}
use gd32c103_bootloader.Xlink.Context.Send.{Sends, xlink_send-Sends, xlink_send-receive}

pub filled_buffer : (n b : ℕ) → length (replicate n b) ≡ n
filled_buffer n b = length-replicate n b

abbrev pub zero_message : Message
zero_message = record {
  sof = 0;
  len = 0;
  comp_id = 0;
  msg_id = 0;
  payload = replicate 250 0;
  crc = 0;
}

abbrev pub waiting_rx : Rx
waiting_rx = record {
  rx_msg_state = RxState.wait_magic;
  rx_msg = zero_message;
  rx_msg_crc = 0;
  rx_msg_pos = 0;
  expected_len = 0;
}

pub waiting_rx-IsIdle : IsIdle waiting_rx
waiting_rx-IsIdle = record { waits = refl; buffer = filled_buffer 250 0 }

abbrev pub small_port : PortStart
small_port = record { has_functions = true; allocates = true; makes_mutex = none }

abbrev pub small_context : Context
small_context =
    let empty : Registry = record { comp_id_handler_map = []; comp_id_handler_map_pos = head } in
    record { rx = waiting_rx; registry = empty }

-- A component with one handler.
abbrev pub echo_comp : Comp
echo_comp = record {
  address = 100;
  comp_id = 1;
  handlers_list = new_handler 200 2 5 6 ∷ [];
  handlers_list_pos = next_of 200;
}

abbrev pub echo_registry : Registry
echo_registry = record {
  comp_id_handler_map = echo_comp ∷ [];
  comp_id_handler_map_pos = next_of 100;
}

abbrev pub echo_packet : Packet
echo_packet = record { comp_id = 1; msg_id = 2; payload = 10 ∷ 20 ∷ [] }

stream-calls_example :
    (calls : List Call) × (after : Rx) × (process_all
        (record { rx = waiting_rx; registry = echo_registry })
        (on_line (noise 3 ∷ packet echo_packet ∷ []))
      ≡ some (calls, record { rx = after; registry = echo_registry }))
    × Expected echo_registry (echo_packet ∷ []) (map given calls)
    × IsIdle after
stream-calls_example =
    stream-calls (noise 3 ∷ packet echo_packet ∷ []) waiting_rx echo_registry waiting_rx-IsIdle
      (λ e. absurd (omega (arith, e)), (omega arith, tt))

-- A port whose transport returns the length of the frame.
abbrev counting_port : SendPort
counting_port = record { transport_send_fn = some length; frame_send_alloc_fn = λ n. true }

xlink_send-Sends_example :
    Sends
      (some (some counting_port))
      1
      2
      (some (10 ∷ 20 ∷ 30 ∷ []))
      2
      (xlink_send (some (some counting_port)) 1 2 (some (10 ∷ 20 ∷ 30 ∷ [])) 2)
xlink_send-Sends_example =
    xlink_send-Sends (some (some counting_port)) 1 2 (some (10 ∷ 20 ∷ 30 ∷ [])) 2 (omega arith)
      (omega arith)

xlink_send-receive_example :
    (frame : List ℕ) × (xlink_send (some (some counting_port)) 1 2 (some (10 ∷ 20 ∷ 30 ∷ [])) 2
      ≡ handed_on (length frame) frame)
    × (length frame ≡ 8)
    × (receive waiting_rx (frame ++ [])
        ≡ before
            (received
              (frame_message zero_message 2 1 2 (10 ∷ 20 ∷ []) (frame_crc 2 1 2 (10 ∷ 20 ∷ []))))
            (receive
              (idle_after
                (frame_message zero_message 2 1 2 (10 ∷ 20 ∷ []) (frame_crc 2 1 2 (10 ∷ 20 ∷ [])))
                (frame_crc 2 1 2 (10 ∷ 20 ∷ []))
                2)
              []))
xlink_send-receive_example =
    xlink_send-receive counting_port length 1 2 (10 ∷ 20 ∷ 30 ∷ []) 2 waiting_rx [] (omega arith)
      (omega arith) refl refl refl (filled_buffer 250 0)

-- A context with that registry, of which every block is in use.
abbrev whole_context : Owned
whole_context = record {
  address = 300;
  has_port = true;
  has_mutex = true;
  deletes_mutex = true;
  registry = echo_registry;
}

xlink_context_delete-Frees_example :
    (live' : Live) × (xlink_context_delete (some whole_context) (λ x. true) ≡ some (live', true))
    × ((x : ℕ) → live' x ≡ (if member x (context_blocks whole_context) then false else true))
xlink_context_delete-Frees_example =
    xlink_context_delete-Frees whole_context (λ x. true) refl (omega arith)
      (refl, (refl, (refl, tt)))
