-- ===== src/Xlink/Receive/Frame.antt =====
-- The receiver over a whole frame: what it says of any frame whose announced length is that of its
-- payload, and that it passes on what the sender put in.
use gd32c103_bootloader.Common.{
  ℕ, suc, ◌+◌, ◌*◌, ◌/◌, ◌≤◌, ◌<◌, ◌≡◌, ◌≢◌, refl, ap, ◌∙◌, arith, Bool, true, false, ◌==◌,
  if◌then◌else◌, List, [], ◌∷◌, ◌++◌, length, set, drop, u8, u16, none,
}
use gd32c103_bootloader.Crc.{xlink_init_crc16, crc16_step, xlink_crc16_with_init}
use gd32c103_bootloader.Crc.Detect.{crc16-append}
use gd32c103_bootloader.Xlink.Message.{Message, xlink_sof, xlink_max_payload}
use gd32c103_bootloader.Xlink.Receive.{
  RxState, Rx, pending, crc_error, complete, take_byte, Event, received, refused, before, receive,
}

abbrev header_at : Message → ℕ → ℕ → Rx
header_at m crc pos = record {
  rx_msg_state = RxState.wait_id_length;
  rx_msg = m;
  rx_msg_crc = crc;
  rx_msg_pos = pos;
  expected_len = 3;
}

abbrev body_at : Message → ℕ → ℕ → ℕ → Rx
body_at m crc pos len = record {
  rx_msg_state = RxState.wait_payload;
  rx_msg = m;
  rx_msg_crc = crc;
  rx_msg_pos = pos;
  expected_len = len + 2;
}

-- Bytes written from an index on.
write_at : ℕ → List ℕ → List ℕ → List ℕ
write_at i [] buf = buf
write_at i (x ∷ xs) buf = write_at (suc i) xs (set buf i x)

write_at-cons :
    (i : ℕ) (xs : List ℕ) (y : ℕ) (buf : List ℕ)
    → write_at (suc i) xs (y ∷ buf) ≡ y ∷ write_at i xs buf
unfolding write_at
write_at-cons i [] y buf = refl
write_at-cons i (x ∷ xs) y buf = write_at-cons (suc i) xs y (set buf i x)

write_at-zero :
    (xs buf : List ℕ) → length xs ≤ length buf → write_at 0 xs buf ≡ xs ++ drop (length xs) buf
unfolding write_at
write_at-zero [] buf h = refl
write_at-zero (x ∷ xs) [] h = absurd (omega arith)
write_at-zero (x ∷ xs) (y ∷ buf) h =
    write_at-cons 0 xs x buf ∙ ap (λ t. x ∷ t) (write_at-zero xs buf (omega arith))

receive-sof :
    (c : Rx) (rest : List ℕ)
    → c.rx_msg_state ≡ RxState.wait_magic
    → receive c (xlink_sof ∷ rest)
      ≡ receive (header_at (record (c.rx_msg) { sof = xlink_sof }) xlink_init_crc16 0) rest
unfolding receive
receive-sof c rest e = ground arith

-- In the idle state every other byte is passed over.
pub receive-noise :
    (c : Rx) (byte : ℕ) (rest : List ℕ)
    → c.rx_msg_state ≡ RxState.wait_magic
    → byte ≢ xlink_sof
    → receive c (byte ∷ rest) ≡ receive c rest
unfolding receive
receive-noise c byte rest e h = ground arith

receive-header :
    (m : Message) (init len comp_id msg_id : ℕ) (rest : List ℕ)
    → len < 256
    → receive (header_at m init 0) (len ∷ comp_id ∷ msg_id ∷ rest)
      ≡ receive
          (body_at
            (record m { len = len; comp_id = comp_id; msg_id = msg_id })
            (xlink_crc16_with_init (len ∷ comp_id ∷ msg_id ∷ []) init)
            0
            len)
          rest
unfolding receive xlink_crc16_with_init
receive-header m init len comp_id msg_id rest h =
    let e : u16 (len + 2) ≡ len + 2 = omega arith in rw e

receive-payload_byte :
    (m : Message) (crc i len x : ℕ) (rest : List ℕ)
    → i < len
    → i < xlink_max_payload
    → receive (body_at m crc i len) (x ∷ rest)
      ≡ receive
          (body_at
            (record m { payload = set m.payload i x })
            (xlink_crc16_with_init (x ∷ []) crc)
            (suc i)
            len)
          rest
unfolding receive
receive-payload_byte m crc i len x rest h k = ground arith

receive-past_end :
    (m : Message) (crc len byte : ℕ) (rest : List ℕ)
    → xlink_max_payload < len
    → receive (body_at m crc 250 len) (byte ∷ rest) ≡ none
unfolding receive
receive-past_end m crc len byte rest h = ground arith

receive-payload :
    (xs : List ℕ) (m : Message) (crc i j len : ℕ) (rest : List ℕ)
    → i + length xs ≡ j
    → j ≤ len
    → j ≤ xlink_max_payload
    → receive (body_at m crc i len) (xs ++ rest)
      ≡ receive
          (body_at
            (record m { payload = write_at i xs m.payload })
            (xlink_crc16_with_init xs crc)
            j
            len)
          rest
unfolding write_at xlink_crc16_with_init
receive-payload [] m crc i j len rest e h k = let e' : i ≡ j = omega arith in rw e'
receive-payload (x ∷ xs) m crc i j len rest e h k =
    receive-payload_byte m crc i len x (xs ++ rest) (omega arith) (omega arith)
    ∙ receive-payload xs (record m { payload = set m.payload i x }) (crc16_step crc x) (suc i) j len
        rest (omega arith) h k

-- The idle state in which a frame leaves the receiver.
abbrev pub idle_after : Message → ℕ → ℕ → Rx
idle_after m crc len = record {
  rx_msg_state = RxState.wait_magic;
  rx_msg = m;
  rx_msg_crc = crc;
  rx_msg_pos = len + 2;
  expected_len = len + 2;
}

-- The verdict on a frame whose checksum was found to be `crc`.
abbrev pub verdict : ℕ → Message → Event
verdict crc m = if m.crc == crc then received m else refused m

take_byte-low :
    (m : Message) (crc len low : ℕ)
    → len < 256
    → take_byte (body_at m crc len len) low
      ≡ pending (body_at (record m { crc = m.crc / 256 * 256 + low }) crc (suc len) len)
unfolding take_byte
take_byte-low m crc len low h = ground arith

take_byte-high :
    (m : Message) (crc len high : ℕ)
    → len < 256
    → let m' = record m { crc = high * 256 + u8 m.crc } in
      take_byte (body_at m crc (suc len) len) high ≡ (
        if m'.crc == crc
        then complete (idle_after m' crc len)
        else crc_error (idle_after m' crc len))
unfolding take_byte
take_byte-high m crc len high h = ground arith

receive-pending :
    (c c' : Rx) (byte : ℕ) (rest : List ℕ)
    → take_byte c byte ≡ pending c'
    → receive c (byte ∷ rest) ≡ receive c' rest
unfolding receive
receive-pending c c' byte rest e = rw (e, receive)

receive-verdict :
    (c c' : Rx) (b : Bool) (byte : ℕ) (rest : List ℕ)
    → take_byte c byte ≡ (if b then complete c' else crc_error c')
    → receive c (byte ∷ rest)
      ≡ before (if b then received c'.rx_msg else refused c'.rx_msg) (receive c' rest)
unfolding receive
receive-verdict c c' true byte rest e = rw (e, receive)
receive-verdict c c' false byte rest e = rw (e, receive)

receive-crc :
    (m : Message) (crc len low high : ℕ) (rest : List ℕ)
    → len < 256
    → low < 256
    → let m' = record m { crc = high * 256 + low } in
      receive (body_at m crc len len) (low ∷ high ∷ rest)
      ≡ before (verdict crc m') (receive (idle_after m' crc len) rest)
receive-crc m crc len low high rest h hl =
    let n = record m { crc = m.crc / 256 * 256 + low } in
    let e : u8 (m.crc / 256 * 256 + low) ≡ low = omega arith in
    receive-pending (body_at m crc len len) _ low (high ∷ rest) (take_byte-low m crc len low h)
    ∙ receive-verdict (body_at n crc (suc len) len) _ _ high rest (take_byte-high n crc len high h)
    ∙ rw e refl

-- What the buffer holds once a frame with these fields is in.
abbrev pub frame_message : Message → ℕ → ℕ → ℕ → List ℕ → ℕ → Message
frame_message m len comp_id msg_id payload crc = record {
  sof = xlink_sof;
  len = len;
  comp_id = comp_id;
  msg_id = msg_id;
  payload = payload ++ drop len m.payload;
  crc = crc;
}

-- The checksum of a frame: over the length, the identifiers and the payload.
abbrev pub frame_crc : ℕ → ℕ → ℕ → List ℕ → ℕ
frame_crc len comp_id msg_id payload =
    xlink_crc16_with_init (len ∷ comp_id ∷ msg_id ∷ payload) xlink_init_crc16

-- A whole frame, right or wrong, in the idle state.
pub receive-frame :
    (c : Rx) (comp_id msg_id : ℕ) (payload : List ℕ) (low high : ℕ) (rest : List ℕ)
    → c.rx_msg_state ≡ RxState.wait_magic
    → length c.rx_msg.payload ≡ xlink_max_payload
    → length payload ≤ xlink_max_payload
    → low < 256
    → let len = length payload in
      let m = frame_message c.rx_msg len comp_id msg_id payload (high * 256 + low) in
      let crc = frame_crc len comp_id msg_id payload in
      receive c (xlink_sof ∷ len ∷ comp_id ∷ msg_id ∷ (payload ++ (low ∷ high ∷ rest)))
      ≡ before (verdict crc m) (receive (idle_after m crc len) rest)
receive-frame c comp_id msg_id payload low high rest e hb hp hl =
    let len = length payload in
    let m0 = record (c.rx_msg) { sof = xlink_sof } in
    let m1 = record m0 { len = len; comp_id = comp_id; msg_id = msg_id } in
    let crc1 = xlink_crc16_with_init (len ∷ comp_id ∷ msg_id ∷ []) xlink_init_crc16 in
    let body = payload ++ (low ∷ high ∷ rest) in
    let stored : write_at 0 payload c.rx_msg.payload ≡ payload ++ drop len c.rx_msg.payload =
      write_at-zero payload c.rx_msg.payload (omega (arith, hb)) in
    receive-sof c (len ∷ comp_id ∷ msg_id ∷ body) e
    ∙ receive-header m0 xlink_init_crc16 len comp_id msg_id body (omega arith)
    ∙ receive-payload payload m1 crc1 0 len len (low ∷ high ∷ rest) (omega arith) (omega arith) hp
    ∙ rw (stored, ← crc16-append (len ∷ comp_id ∷ msg_id ∷ []) payload xlink_init_crc16)
        (receive-crc (record m1 { payload = payload ++ drop len c.rx_msg.payload })
          (frame_crc len comp_id msg_id payload) len low high rest (omega arith) hl)
