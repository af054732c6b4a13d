-- ===== src/Xlink/Message.antt =====
-- The frame of xlink/xlink.h: `xlink_message_t`, a packed structure whose fields are the bytes on
-- the wire, and the building of a frame in `xlink_send`.
use gd32c103_bootloader.Common.{ℕ, ◌+◌, ◌-◌, ◌*◌, ◌/◌, ◌==◌, if◌then◌else◌, List, [], ◌∷◌, set, u8}
use gd32c103_bootloader.Crc.{xlink_init_crc16, xlink_crc16_with_init, memcpy_and_crc16}

abbrev pub xlink_sof : ℕ
xlink_sof = 0xA5

abbrev pub xlink_max_payload : ℕ
xlink_max_payload = 250

abbrev pub xlink_length_of_header : ℕ
xlink_length_of_header = 4

abbrev pub xlink_length_of_crc : ℕ
xlink_length_of_crc = 2

-- `payload` has `xlink_max_payload` bytes.
pub record Message : Type 0 where
  pub sof : ℕ
  pub len : ℕ
  pub comp_id : ℕ
  pub msg_id : ℕ
  pub payload : List ℕ
  pub crc : ℕ

-- A byte stored at an offset from `len` on: the two identifiers and the payload follow it.
unfoldable pub set_header : Message → ℕ → ℕ → Message
set_header m i byte =
    if i == 0
    then record m { len = byte }
    else if i == 1
    then record m { comp_id = byte }
    else if i == 2
    then record m { msg_id = byte }
    else record m { payload = set m.payload (i - 3) byte }

-- A byte stored at an offset from `crc` on, which is little-endian.
unfoldable pub set_crc : Message → ℕ → ℕ → Message
set_crc m i byte =
    if i == 0
    then record m { crc = m.crc / 256 * 256 + byte }
    else record m { crc = byte * 256 + u8 m.crc }

-- The bytes that `xlink_send` writes into a frame's buffer.
unfoldable pub encode_frame : ℕ → ℕ → List ℕ → ℕ → List ℕ
encode_frame comp_id msg_id payload payload_len =
    xlink_sof
    ∷ payload_len
    ∷ comp_id
    ∷ msg_id
    ∷ memcpy_and_crc16 payload
        (xlink_crc16_with_init (payload_len ∷ comp_id ∷ msg_id ∷ []) xlink_init_crc16)
