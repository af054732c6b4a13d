-- ===== src/Xlink/Receive.antt =====
-- The receiver of xlink/xlink.h: the part of `xlink_process_rx` that takes a byte into the frame.
pub mod Bounds
pub mod Frame
pub mod RoundTrip
pub mod Damage
pub mod Stream
use gd32c103_bootloader.Common.{
  ℕ, ◌+◌, ◌-◌, Bool, ◌==◌, ltb, if◌then◌else◌, List, [], ◌∷◌, set, u16, Option, none, some,
}
use gd32c103_bootloader.Crc.{xlink_init_crc16, xlink_crc16_with_init}
use gd32c103_bootloader.Xlink.Message.{xlink_sof, xlink_max_payload, Message, set_header, set_crc}

pub data RxState : Type 0 where
  wait_magic wait_id_length wait_payload wait_checksum : RxState

-- The fields of `xlink_context_t` that the receiver keeps.
pub record Rx : Type 0 where
  pub rx_msg_state : RxState
  pub rx_msg : Message
  pub rx_msg_crc : ℕ
  pub rx_msg_pos : ℕ
  pub expected_len : ℕ

-- What a byte leads to. The program returns -1, -2 and 0 for the last three. `fault` is a write
-- past the end of `payload`, which C leaves undefined.
pub data Taken : Type 0 where
  fault : Taken
  pending : Rx → Taken
  crc_error : Rx → Taken
  complete : Rx → Taken

unfoldable pub take_magic : Rx → ℕ → Rx
take_magic c byte =
    if byte == xlink_sof
    then record c {
      rx_msg = record (c.rx_msg) { sof = byte };
      expected_len = 3;
      rx_msg_pos = 0;
      rx_msg_state = RxState.wait_id_length;
      rx_msg_crc = xlink_init_crc16;
    }
    else c

unfoldable pub take_header : Rx → ℕ → Rx
unfolding set_header
take_header c byte =
    let msg = set_header c.rx_msg c.rx_msg_pos byte in
    let crc = xlink_crc16_with_init (byte ∷ []) c.rx_msg_crc in
    let pos = u16 (c.rx_msg_pos + 1) in
    if pos == c.expected_len
    then record c {
      rx_msg = msg;
      rx_msg_crc = crc;
      expected_len = u16 (msg.len + 2);
      rx_msg_state = RxState.wait_payload;
      rx_msg_pos = 0;
    }
    else record c { rx_msg = msg; rx_msg_crc = crc; rx_msg_pos = pos }

-- A byte of the payload or of the checksum; `none` is the fault.
unfoldable pub store_body : Rx → ℕ → Option Rx
unfolding set_crc
store_body c byte =
    if ltb c.rx_msg_pos (c.expected_len - 2)
    then if ltb c.rx_msg_pos xlink_max_payload
      then some (record c {
        rx_msg = record (c.rx_msg) { payload = set c.rx_msg.payload c.rx_msg_pos byte };
        rx_msg_pos = u16 (c.rx_msg_pos + 1);
        rx_msg_crc = xlink_crc16_with_init (byte ∷ []) c.rx_msg_crc;
      })
      else none
    else some (record c {
      rx_msg = set_crc c.rx_msg (c.rx_msg_pos + 2 - c.expected_len) byte;
      rx_msg_pos = u16 (c.rx_msg_pos + 1);
    })

-- The end of the frame, once its last byte is stored.
unfoldable pub close_body : Rx → Taken
close_body c =
    if c.rx_msg_pos == c.expected_len
    then (let idle = record c { rx_msg_state = RxState.wait_magic } in
        if c.rx_msg.crc == c.rx_msg_crc then complete idle else crc_error idle)
    else pending c

unfoldable pub take_body : Rx → ℕ → Taken
unfolding store_body close_body
take_body c byte = elim (store_body c byte) [ none ↦ fault | some c' ↦ close_body c' ]

unfoldable pub take_in : RxState → Rx → ℕ → Taken
unfolding take_magic take_header take_body
take_in RxState.wait_magic c byte = pending (take_magic c byte)
take_in RxState.wait_id_length c byte = pending (take_header c byte)
take_in RxState.wait_payload c byte = take_body c byte
take_in RxState.wait_checksum c byte = take_body c byte

unfoldable pub take_byte : Rx → ℕ → Taken
unfolding take_in
take_byte c byte = take_in c.rx_msg_state c byte

-- What the receiver has to say of a run of bytes: the frames that it passed on or refused, in order,
-- with the contents of its buffer at that moment.
pub data Event : Type 0 where
  received : Message → Event
  refused : Message → Event

-- A result of the rest of the bytes, with the event of the first one in front.
abbrev pub before : Event → Option (List Event × Rx) → Option (List Event × Rx)
before e none = none
before e (some (es, c)) = some (e ∷ es, c)

-- The bytes of a block in order, as the receiving task passes them on; `none` is the fault.
unfoldable pub receive : Rx → List ℕ → Option (List Event × Rx)
unfolding take_byte
receive c [] = some ([], c)
receive c (byte ∷ bytes) = elim (take_byte c byte) [
  | fault ↦ none
  | pending c' ↦ receive c' bytes
  | crc_error c' ↦ before (refused c'.rx_msg) (receive c' bytes)
  | complete c' ↦ before (received c'.rx_msg) (receive c' bytes)
]
