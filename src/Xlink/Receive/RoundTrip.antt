-- ===== src/Xlink/Receive/RoundTrip.antt =====
-- What the receiver makes of the frames that `xlink_send` builds, whole, damaged and amid noise.
use mathlib.Core.List.{append_assoc}
use gd32c103_bootloader.Common.{
  ℕ, ◌+◌, ◌*◌, ◌/◌, ◌≤◌, ◌<◌, ◌≡◌, ◌≢◌, refl, ap, ◌∙◌, arith, List, [], ◌∷◌, ◌++◌, length,
  length-append, length-drop, drop, u8, Option,
}
use gd32c103_bootloader.Crc.{xlink_init_crc16, crc16_step, xlink_crc16_with_init, memcpy_and_crc16}
use gd32c103_bootloader.Crc.Detect.{crc16-append, crc16-lt}
use gd32c103_bootloader.Xlink.Message.{Message, xlink_sof, xlink_max_payload, encode_frame}
use gd32c103_bootloader.Xlink.Receive.{RxState, Rx, Event, received, refused, before, receive}
use gd32c103_bootloader.Xlink.Receive.Frame.{
  verdict, frame_message, frame_crc, idle_after, receive-frame,
}

memcpy_and_crc16_lem :
    (xs : List ℕ) (crc : ℕ)
    → let c = xlink_crc16_with_init xs crc in
      memcpy_and_crc16 xs crc ≡ xs ++ (u8 c ∷ u8 (c / 256) ∷ [])
unfolding memcpy_and_crc16 xlink_crc16_with_init
memcpy_and_crc16_lem [] crc = refl
memcpy_and_crc16_lem (x ∷ xs) crc = ap (λ t. x ∷ t) (memcpy_and_crc16_lem xs (crc16_step crc x))

-- The frame that `xlink_send` builds, field by field.
pub encode_frame_lem :
    (comp_id msg_id : ℕ) (payload rest : List ℕ)
    → let crc = frame_crc (length payload) comp_id msg_id payload in
      encode_frame comp_id msg_id payload (length payload) ++ rest
      ≡ xlink_sof
        ∷ length payload
        ∷ comp_id
        ∷ msg_id
        ∷ (payload ++ (u8 crc ∷ u8 (crc / 256) ∷ rest))
unfolding encode_frame
encode_frame_lem comp_id msg_id payload rest =
    let len = length payload in
    ap (λ t. xlink_sof ∷ len ∷ comp_id ∷ msg_id ∷ (t ++ rest)) (memcpy_and_crc16_lem payload _)
    ∙ ap (λ t. xlink_sof ∷ len ∷ comp_id ∷ msg_id ∷ t)
        (append_assoc payload _ rest
          ∙ rw (crc16-append (len ∷ comp_id ∷ msg_id ∷ []) payload xlink_init_crc16) refl)

pub frame_crc-lt :
    (len comp_id msg_id : ℕ) (payload : List ℕ) → frame_crc len comp_id msg_id payload < 65536
frame_crc-lt len comp_id msg_id payload =
    crc16-lt (len ∷ comp_id ∷ msg_id ∷ payload) xlink_init_crc16 (omega arith)

verdict-received :
    (m : Message) (crc : ℕ) (result : Option (List Event × Rx))
    → m.crc ≡ crc
    → before (verdict crc m) result ≡ before (received m) result
verdict-received m crc result e = ground arith

pub verdict-refused :
    (m : Message) (crc : ℕ) (result : Option (List Event × Rx))
    → m.crc ≢ crc
    → before (verdict crc m) result ≡ before (refused m) result
verdict-refused m crc result e = ground arith

-- A frame that `xlink_send` built is passed on: the receiver, idle with a buffer of 250 bytes,
-- reports one message with the frame's identifiers and length whose buffer begins with the
-- payload, keeps what it held behind it, and is idle for the bytes that follow.
pub receive-encode_frame :
    (c : Rx) (comp_id msg_id : ℕ) (payload rest : List ℕ)
    → c.rx_msg_state ≡ RxState.wait_magic
    → length c.rx_msg.payload ≡ xlink_max_payload
    → length payload ≤ xlink_max_payload
    → let len = length payload in
      let crc = frame_crc len comp_id msg_id payload in
      let m = frame_message c.rx_msg len comp_id msg_id payload crc in
      receive c (encode_frame comp_id msg_id payload len ++ rest)
      ≡ before (received m) (receive (idle_after m crc len) rest)
receive-encode_frame c comp_id msg_id payload rest e hb hp =
    let len = length payload in
    let crc = frame_crc len comp_id msg_id payload in
    let whole : u8 (crc / 256) * 256 + u8 crc ≡ crc =
      omega (arith, frame_crc-lt len comp_id msg_id payload) in
    ap (receive c) (encode_frame_lem comp_id msg_id payload rest)
    ∙ receive-frame c comp_id msg_id payload (u8 crc) (u8 (crc / 256)) rest e hb hp (omega arith)
    ∙ rw whole (verdict-received (frame_message c.rx_msg len comp_id msg_id payload crc) crc _ refl)

-- The length of a buffer whose first bytes are overwritten.
pub length-overlay :
    (xs buf : List ℕ) → length xs ≤ length buf → length (xs ++ drop (length xs) buf) ≡ length buf
length-overlay xs buf h =
    omega (arith, length-append xs (drop (length xs) buf), length-drop (length xs) buf)
