-- ===== src/Xlink/Receive/Damage.antt =====
-- Frames with a wrong byte: the receiver refuses them and is ready for the next frame.
use mathlib.Core.List.{append_assoc, append-nil}
use native.Mathlib.Decide.{dec_lt}
use gd32c103_bootloader.Common.{
  ℕ, zero, suc, ◌+◌, ◌-◌, ◌*◌, ◌/◌, ◌≤◌, ◌<◌, ◌≡◌, ◌≢◌, refl, sym, ap, subst, ◌∙◌, arith, List, [],
  ◌∷◌, ◌++◌, length, length-set, set-append_left, set-append_right, set, u8,
}
use gd32c103_bootloader.Crc.{xlink_init_crc16, xlink_crc16_with_init}
use gd32c103_bootloader.Crc.Bitwise.{AreBytes}
use gd32c103_bootloader.Crc.Detect.{crc16_detects}
use gd32c103_bootloader.Xlink.Message.{Message, xlink_sof, xlink_max_payload, encode_frame}
use gd32c103_bootloader.Xlink.Receive.{RxState, Rx, refused, before, receive}
use gd32c103_bootloader.Xlink.Receive.RoundTrip.{
  length-overlay, encode_frame_lem, verdict-refused, frame_crc-lt,
}
use gd32c103_bootloader.Xlink.Receive.Frame.{frame_message, frame_crc, idle_after, receive-frame}

-- The bytes are taken for a frame that is refused, and the receiver is idle for those that follow.
abbrev pub Refuses : Rx → List ℕ → List ℕ → Type 0
Refuses c bytes rest =
    (m : Message) × (c' : Rx) × (c'.rx_msg_state ≡ RxState.wait_magic)
    × (length c'.rx_msg.payload ≡ length c.rx_msg.payload)
    × (receive c (bytes ++ rest) ≡ before (refused m) (receive c' rest))

-- A frame whose checksum is not that of its fields.
wrong_crc-Refuses :
    (c : Rx) (comp_id msg_id : ℕ) (payload : List ℕ) (low high : ℕ) (rest : List ℕ)
    → c.rx_msg_state ≡ RxState.wait_magic
    → length c.rx_msg.payload ≡ xlink_max_payload
    → length payload ≤ xlink_max_payload
    → low < 256
    → high * 256 + low ≢ frame_crc (length payload) comp_id msg_id payload
    → Refuses c
        (xlink_sof ∷ length payload ∷ comp_id ∷ msg_id ∷ (payload ++ (low ∷ high ∷ [])))
        rest
wrong_crc-Refuses c comp_id msg_id payload low high rest e hb hp hl q =
    let len = length payload in
    let crc = frame_crc len comp_id msg_id payload in
    let m = frame_message c.rx_msg len comp_id msg_id payload (high * 256 + low) in
    (
      m,
      idle_after m crc len,
      refl,
      length-overlay payload c.rx_msg.payload (omega (arith, hb)),
      ap (λ t. receive c (xlink_sof ∷ len ∷ comp_id ∷ msg_id ∷ t)) (append_assoc payload _ rest)
          ∙ receive-frame c comp_id msg_id payload low high rest e hb hp hl
          ∙ verdict-refused m crc (receive (idle_after m crc len) rest) q,
    )

two_bytes : (crc : ℕ) → crc < 65536 → u8 (crc / 256) * 256 + u8 crc ≡ crc
two_bytes crc h = omega arith

-- The frame on the wire: its checked fields between the start byte and the checksum.
abbrev wire : ℕ → ℕ → ℕ → List ℕ → List ℕ
wire len comp_id msg_id body = xlink_sof ∷ len ∷ comp_id ∷ msg_id ∷ body

module _ (c : Rx) (comp_id msg_id : ℕ) (payload rest : List ℕ) (byte : ℕ)
    (idle : c.rx_msg_state ≡ RxState.wait_magic)
    (buffer : length c.rx_msg.payload ≡ xlink_max_payload)
    (fits : length payload ≤ xlink_max_payload) (comp_byte : comp_id < 256)
    (msg_byte : msg_id < 256) (payload_bytes : AreBytes payload) (is_byte : byte < 256) where
  abbrev crc : ℕ
  crc = frame_crc (length payload) comp_id msg_id payload

  abbrev tail : List ℕ
  tail = u8 crc ∷ u8 (crc / 256) ∷ []

  abbrev sent : List ℕ
  sent = wire (length payload) comp_id msg_id (payload ++ tail)

  crc_fits : crc < 65536
  crc_fits = frame_crc-lt (length payload) comp_id msg_id payload

  -- A field that is not the one which was sent changes the checksum.
  fields_differ :
      (i : ℕ)
      → sent ≢ xlink_sof ∷ (set (length payload ∷ comp_id ∷ msg_id ∷ payload) i byte ++ tail)
      → u8 (crc / 256) * 256 + u8 crc
        ≢ xlink_crc16_with_init
            (set (length payload ∷ comp_id ∷ msg_id ∷ payload) i byte)
            xlink_init_crc16
  fields_differ i ne e =
      let same =
        crc16_detects (length payload ∷ comp_id ∷ msg_id ∷ payload) i byte xlink_init_crc16
          (omega arith) is_byte (omega arith, (comp_byte, (msg_byte, payload_bytes)))
          (sym e ∙ two_bytes crc crc_fits) in
      ne (ap (λ t. xlink_sof ∷ (t ++ tail)) (sym same))

  abbrev carrying : List ℕ → List ℕ
  carrying body = wire (length payload) comp_id msg_id body

  payload_damaged :
      (i : ℕ)
      → sent ≢ carrying (set payload i byte ++ tail)
      → Refuses c (carrying (set payload i byte ++ tail)) rest
  payload_damaged i ne =
      let same = length-set payload i byte in
      subst (λ n. Refuses c (wire n comp_id msg_id (set payload i byte ++ tail)) rest) same
        (wrong_crc-Refuses c comp_id msg_id (set payload i byte) _ _ rest idle buffer
          (omega (arith, same)) (omega arith) (rw same (fields_differ (suc (suc (suc i))) ne)))

  tail_damaged :
      (i : ℕ)
      → sent ≢ carrying (payload ++ set tail i byte)
      → Refuses c (carrying (payload ++ set tail i byte)) rest
  tail_damaged zero ne =
      wrong_crc-Refuses c comp_id msg_id payload byte (u8 (crc / 256)) rest idle buffer fits is_byte
        (λ e.
          ne (
            ap (λ t. carrying (payload ++ (t ∷ u8 (crc / 256) ∷ []))) (omega (arith, crc_fits, e))))
  tail_damaged (suc zero) ne =
      wrong_crc-Refuses c comp_id msg_id payload (u8 crc) byte rest idle buffer fits (omega arith)
        (λ e. ne (ap (λ t. carrying (payload ++ (u8 crc ∷ t ∷ []))) (omega (arith, crc_fits, e))))
  tail_damaged (suc (suc i)) ne = absurd (ne refl)

  body_damaged :
      (i : ℕ)
      → sent ≢ carrying (set (payload ++ tail) i byte)
      → Refuses c (carrying (set (payload ++ tail) i byte)) rest
  body_damaged i ne = elim (dec_lt i (length payload)) [
    | yes h ↦
        let e = set-append_left payload tail i byte h in
        subst (λ t. Refuses c (carrying t) rest) (sym e)
          (payload_damaged i (subst (λ t. sent ≢ carrying t) e ne))
    | no h ↦
        let at : length payload + (i - length payload) ≡ i = omega arith in
        let e : set (payload ++ tail) i byte ≡ payload ++ set tail (i - length payload) byte =
          ap (λ j. set (payload ++ tail) j byte) (sym at)
          ∙ set-append_right payload tail (i - length payload) byte in
        subst (λ t. Refuses c (carrying t) rest) (sym e)
          (tail_damaged (i - length payload) (subst (λ t. sent ≢ carrying t) e ne))
  ]

  damaged_at :
      (i : ℕ) → set sent (suc (suc i)) byte ≢ sent → Refuses c (set sent (suc (suc i)) byte) rest
  damaged_at zero ne =
      wrong_crc-Refuses c byte msg_id payload _ _ rest idle buffer fits (omega arith)
        (fields_differ 1 (λ e. ne (sym e)))
  damaged_at (suc zero) ne =
      wrong_crc-Refuses c comp_id byte payload _ _ rest idle buffer fits (omega arith)
        (fields_differ 2 (λ e. ne (sym e)))
  damaged_at (suc (suc i)) ne = body_damaged i (λ e. ne (sym e))

-- One wrong byte behind the length, in the identifiers, the payload or the checksum of a frame of
-- bytes that `xlink_send` built, is noticed: the receiver, idle with a buffer of 250 bytes, refuses
-- the frame and is idle for the bytes that follow. The payload has at most 250 bytes.
pub damaged-Refuses :
    (c : Rx) (comp_id msg_id : ℕ) (payload rest : List ℕ) (i byte : ℕ)
    → c.rx_msg_state ≡ RxState.wait_magic
    → length c.rx_msg.payload ≡ xlink_max_payload
    → length payload ≤ xlink_max_payload
    → comp_id < 256
    → msg_id < 256
    → AreBytes payload
    → byte < 256
    → 2 ≤ i
    → let frame = encode_frame comp_id msg_id payload (length payload) in
      set frame i byte ≢ frame → Refuses c (set frame i byte) rest
damaged-Refuses c comp_id msg_id payload rest zero byte idle buffer fits hc hm hp hb h ne =
    absurd (omega arith)
damaged-Refuses c comp_id msg_id payload rest (suc zero) byte idle buffer fits hc hm hp hb h ne =
    absurd (omega arith)
damaged-Refuses c comp_id msg_id payload rest (suc (suc i)) byte idle buffer fits hc hm hp hb h ne =
    let frame = encode_frame comp_id msg_id payload (length payload) in
    let e = sym (append-nil frame) ∙ encode_frame_lem comp_id msg_id payload [] in
    subst (λ t. Refuses c (set t (suc (suc i)) byte) rest) (sym e)
      (damaged_at c comp_id msg_id payload rest byte idle buffer fits hc hm hp hb i
        (subst (λ t. set t (suc (suc i)) byte ≢ t) e ne))
