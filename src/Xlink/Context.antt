-- ===== src/Xlink/Context.antt =====
-- The context of xlink/xlink.h: `xlink_context_create`, the whole of `xlink_process_rx`, and
-- `xlink_send`. The port's functions are arguments: whether they are there, and what they return.
-- A handler that a message calls is taken not to register or unregister handlers.
pub mod Calls
pub mod Create
pub mod Delete
pub mod Send
use gd32c103_bootloader.Common.{
  ℕ, ◌*◌, ◌+◌, Bool, true, false, not, ltb, if◌then◌else◌, List, [], ◌∷◌, ◌++◌, map, take, Option,
  none, some, u16,
}
use gd32c103_bootloader.Xlink.Message.{
  Message, encode_frame, xlink_max_payload, xlink_length_of_header, xlink_length_of_crc,
}
use gd32c103_bootloader.Xlink.Receive.{
  RxState, Rx, Taken, fault, pending, crc_error, complete, take_byte,
}
use gd32c103_bootloader.Xlink.Registry.{Handler, Cell, head, Registry, dispatch}

pub record Context : Type 0 where
  pub rx : Rx
  pub registry : Registry

-- What the port has and returns: the functions that must be there, the memory for the context, and
-- the mutex, if there is a function that makes one.
pub record PortStart : Type 0 where
  pub has_functions : Bool
  pub allocates : Bool
  pub makes_mutex : Option Bool

-- `none` where NULL is returned. `fresh` is what the new memory holds in the fields that are not set.
unfoldable pub xlink_context_create : PortStart → Rx → Option Context
xlink_context_create port fresh =
    let context : Context = record {
      rx = record fresh { rx_msg_pos = 0; rx_msg_crc = 0; rx_msg_state = RxState.wait_magic };
      registry = record { comp_id_handler_map = []; comp_id_handler_map_pos = head };
    } in
    if not port.has_functions
    then none
    else if not port.allocates
    then none
    else elim port.makes_mutex [
      | none ↦ some context
      | some made ↦ if made then some context else none
    ]

-- A call of a handler: what is called, and the message that its arguments come from.
abbrev pub Call : Type 0
Call = Handler × Message

-- 0, -2 and -1.
pub data Processed : Type 0 where
  valid_message bad_crc no_message : Processed

-- What `xlink_process_rx` returns, and the calls that it makes; `none` is the write past the buffer.
unfoldable pub process_rx : Context → ℕ → Option (Processed × List Call × Context)
unfolding take_byte dispatch
process_rx c byte = elim (take_byte c.rx byte) [
  | fault ↦ none
  | pending rx ↦ some (no_message, [], record c { rx = rx })
  | crc_error rx ↦ some (bad_crc, [], record c { rx = rx })
  | complete rx ↦ some (
    valid_message,
    map (λ h. (h, rx.rx_msg)) (dispatch c.registry rx.rx_msg.comp_id rx.rx_msg.msg_id),
    record c { rx = rx },
  )
]

abbrev pub calling : List Call → Option (List Call × Context) → Option (List Call × Context)
calling calls none = none
calling calls (some (more, c)) = some (calls ++ more, c)

-- The bytes of a block, one after the other.
unfoldable pub process_all : Context → List ℕ → Option (List Call × Context)
unfolding process_rx
process_all c [] = some ([], c)
process_all c (byte ∷ bytes) = elim (process_rx c byte) [
  | none ↦ none
  | some (code, calls, c') ↦ calling calls (process_all c' bytes)
]

-- -1, or what the transport returns for the frame that it is given.
pub data Sending : Type 0 where
  refused_send : Sending
  handed_on : ℕ → List ℕ → Sending

-- The functions of `xlink_port_api_t` that send; `frame_send_alloc_fn` says whether there is a frame for
-- that many bytes.
pub record SendPort : Type 0 where
  pub transport_send_fn : Option (List ℕ → ℕ)
  pub frame_send_alloc_fn : ℕ → Bool

-- What the pointers lead to, from the context to the transport function: each of the three may be
-- NULL.
abbrev pub sender : Option (Option SendPort) → Option ((List ℕ → ℕ) × (ℕ → Bool))
sender none = none
sender (some none) = none
sender (some (some port)) = elim port.transport_send_fn [
  | none ↦ none
  | some transport ↦ some (transport, port.frame_send_alloc_fn)
]

-- The context is given by its port. A payload is NULL or the bytes from a pointer on.
unfoldable pub xlink_send : Option (Option SendPort) → ℕ → ℕ → Option (List ℕ) → ℕ → Sending
unfolding encode_frame
xlink_send context comp_id msg_id payload payload_len =
    let needed = u16 (xlink_length_of_header + payload_len + xlink_length_of_crc) in
    let bytes : List ℕ = elim payload [ none ↦ [] | some bytes ↦ take payload_len bytes ] in
    let is_null : Bool = elim payload [ none ↦ true | some bytes ↦ false ] in
    let frame = encode_frame comp_id msg_id bytes payload_len in
    elim (sender context) [
      | none ↦ refused_send
      | some (transport, allocated) ↦
          if (if ltb 0 payload_len then is_null else false)
          then refused_send
          else if ltb xlink_max_payload payload_len
          then refused_send
          else if not (allocated needed)
          then refused_send
          else handed_on (transport frame) frame
    ]
