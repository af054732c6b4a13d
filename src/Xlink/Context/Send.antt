-- ===== src/Xlink/Context/Send.antt =====
-- What `xlink_send` hands on, and when.
use gd32c103_bootloader.Crc.{memcpy_and_crc16, crc16_step, xlink_crc16_with_init, xlink_init_crc16}
use gd32c103_bootloader.Common.{
  ℕ, zero, suc, ◌+◌, ◌≤◌, ◌<◌, ◌≡◌, ◌≢◌, refl, sym, subst, Bool-cases, Option-cases, inl, inr, ap,
  ◌∙◌, arith, true, false, ltb, if◌then◌else◌, List, [], ◌∷◌, ◌++◌, take, length, length-take,
  Option, none, some, u16,
}
use gd32c103_bootloader.Xlink.Message.{encode_frame, xlink_max_payload}
use gd32c103_bootloader.Xlink.Receive.{RxState, Rx, received, before, receive}
use gd32c103_bootloader.Xlink.Receive.Frame.{frame_message, frame_crc, idle_after}
use gd32c103_bootloader.Xlink.Receive.RoundTrip.{receive-encode_frame}
use gd32c103_bootloader.Xlink.Context.{SendPort, Sending, refused_send, handed_on, xlink_send}

length-memcpy_and_crc16 :
    (src : List ℕ) (crc : ℕ) → length (memcpy_and_crc16 src crc) ≡ length src + 2
unfolding memcpy_and_crc16
length-memcpy_and_crc16 [] crc = refl
length-memcpy_and_crc16 (x ∷ src) crc =
    let ih = length-memcpy_and_crc16 src (crc16_step crc x) in omega (arith, ih)

length-encode_frame :
    (comp_id msg_id : ℕ) (payload : List ℕ) (len : ℕ)
    → length (encode_frame comp_id msg_id payload len) ≡ 6 + length payload
unfolding encode_frame
length-encode_frame comp_id msg_id payload len =
    let body =
      length-memcpy_and_crc16 payload
        (xlink_crc16_with_init (len ∷ comp_id ∷ msg_id ∷ []) xlink_init_crc16) in
    omega (arith, body)

-- Sending that is not refused, of at most 250 bytes from a pointer that has as many: the transport
-- is given a frame of the length and 6 bytes more, its value is returned, and a receiver that is
-- idle with a buffer of 250 bytes takes from the frame the message with these identifiers and bytes.
pub xlink_send-receive :
    (port : SendPort) (transport : List ℕ → ℕ) (comp_id msg_id : ℕ) (bytes : List ℕ) (len : ℕ)
    (c : Rx) (rest : List ℕ)
    → len ≤ xlink_max_payload
    → len ≤ length bytes
    → port.transport_send_fn ≡ some transport
    → port.frame_send_alloc_fn (6 + len) ≡ true
    → c.rx_msg_state ≡ RxState.wait_magic
    → length c.rx_msg.payload ≡ xlink_max_payload
    → let sent = take len bytes in
      let crc = frame_crc len comp_id msg_id sent in
      let m = frame_message c.rx_msg len comp_id msg_id sent crc in
      (frame : List ℕ) × (xlink_send (some (some port)) comp_id msg_id (some bytes) len
        ≡ handed_on (transport frame) frame)
      × (length frame ≡ 6 + len)
      × (receive c (frame ++ rest) ≡ before (received m) (receive (idle_after m crc len) rest))
unfolding xlink_send
xlink_send-receive port transport comp_id msg_id bytes len c rest h hb sends ok idle buffer =
    let sent = take len bytes in
    let size : length sent ≡ len = omega (arith, length-take len bytes) in
    let needed : u16 (4 + len + 2) ≡ 6 + len = omega arith in
    let fits : ltb xlink_max_payload len ≡ false = ground arith in
    let null : (if ltb 0 len then false else false) ≡ false = ground arith in
    let got = receive-encode_frame c comp_id msg_id sent rest idle buffer (omega (arith, size)) in
    (
      encode_frame comp_id msg_id sent len,
      rw (sends, needed, null, fits, ok) refl,
      (length-encode_frame comp_id msg_id sent len ∙ ap (λ (n : ℕ). 6 + n) size),
      rw size at got,
    )

-- The bytes that a payload stands for.
abbrev pub sent_of : ℕ → Option (List ℕ) → List ℕ
sent_of len none = []
sent_of len (some bytes) = take len bytes

-- The bytes behind the pointer, if there is one, are as many as the length says.
abbrev pub IsReadable : ℕ → Option (List ℕ) → Type 0
IsReadable len none = Unit {0}
IsReadable len (some bytes) = len ≤ length bytes

-- An idle receiver takes the message from a frame, whatever follows.
abbrev pub IsReceived : ℕ → ℕ → List ℕ → ℕ → List ℕ → Type 0
IsReceived comp_id msg_id sent len frame =
    (c : Rx) (rest : List ℕ)
    → c.rx_msg_state ≡ RxState.wait_magic
    → length c.rx_msg.payload ≡ xlink_max_payload
    → let crc = frame_crc len comp_id msg_id sent in
      let m = frame_message c.rx_msg len comp_id msg_id sent crc in
      receive c (frame ++ rest) ≡ before (received m) (receive (idle_after m crc len) rest)

module _ (context : Option (Option SendPort)) (comp_id msg_id : ℕ) (payload : Option (List ℕ))
    (len : ℕ) where
  -- What comes of a call, by what it met.
  pub data Sends : Sending → Type 0 where
    no_context : context ≡ none → Sends refused_send
    no_port : context ≡ some none → Sends refused_send
    no_function :
        (port : SendPort)
        → context ≡ some (some port)
        → port.transport_send_fn ≡ none
        → Sends refused_send
    null_payload : 0 < len → payload ≡ none → Sends refused_send
    too_long : xlink_max_payload < len → Sends refused_send
    no_frame :
        (port : SendPort)
        → context ≡ some (some port)
        → port.frame_send_alloc_fn (6 + len) ≡ false
        → Sends refused_send
    delivered :
        (port : SendPort) (transport : List ℕ → ℕ) (frame : List ℕ)
        → context ≡ some (some port)
        → port.transport_send_fn ≡ some transport
        → port.frame_send_alloc_fn (6 + len) ≡ true
        → len ≤ xlink_max_payload
        → (0 < len → payload ≢ none)
        → length frame ≡ 6 + len
        → IsReceived comp_id msg_id (sent_of len payload) len frame
        → Sends (handed_on (transport frame) frame)

module _ (port : SendPort) (comp_id msg_id : ℕ) where
  abbrev sending : Option (List ℕ) → ℕ → Sending
  sending payload len = xlink_send (some (some port)) comp_id msg_id payload len

  abbrev Result : Option (List ℕ) → ℕ → Type 0
  Result payload len = Sends (some (some port)) comp_id msg_id payload len (sending payload len)

  no_transport :
      (payload : Option (List ℕ)) (len : ℕ)
      → port.transport_send_fn ≡ none
      → sending payload len ≡ refused_send
  unfolding xlink_send
  no_transport payload len e = rw e refl

  module _ (transport : List ℕ → ℕ) (has : port.transport_send_fn ≡ some transport) where
    run_lem :
        (payload : Option (List ℕ)) (len : ℕ)
        → len ≤ xlink_max_payload
        → (0 < len → payload ≢ none)
        → port.frame_send_alloc_fn (6 + len) ≡ true
        → let frame = encode_frame comp_id msg_id (sent_of len payload) len in
          sending payload len ≡ handed_on (transport frame) frame
    unfolding xlink_send
    run_lem none (suc len) h there ok = absurd (there (omega arith) refl)
    run_lem none zero h there ok = rw (has, ok) refl
    run_lem (some bytes) len h there ok =
        let needed : u16 (4 + len + 2) ≡ 6 + len = omega arith in
        let fits : ltb xlink_max_payload len ≡ false = ground arith in
        let not_null : (if ltb 0 len then false else false) ≡ false = ground arith in
        rw (has, needed, not_null, fits, ok) refl

    length-sent_of :
        (payload : Option (List ℕ)) (len : ℕ)
        → IsReadable len payload
        → (0 < len → payload ≢ none)
        → length (sent_of len payload) ≡ len
    length-sent_of none zero readable there = refl
    length-sent_of none (suc len) readable there = absurd (there (omega arith) refl)
    length-sent_of (some bytes) len readable there = omega (arith, length-take len bytes, readable)

    frame_given :
        (payload : Option (List ℕ)) (len : ℕ)
        → len ≤ xlink_max_payload
        → IsReadable len payload
        → (0 < len → payload ≢ none)
        → port.frame_send_alloc_fn (6 + len) ≡ true
        → Result payload len
    frame_given payload len h readable there ok =
        let sent = sent_of len payload in
        let size = length-sent_of payload len readable there in
        subst (Sends (some (some port)) comp_id msg_id payload len)
          (sym (run_lem payload len h there ok))
          (delivered port transport (encode_frame comp_id msg_id sent len) refl has ok h there
            (length-encode_frame comp_id msg_id sent len ∙ ap (λ (n : ℕ). 6 + n) size)
            (λ c rest idle buffer.
              let got =
                receive-encode_frame c comp_id msg_id sent rest idle buffer
                  (omega (arith, size, h)) in
              rw size at got))

    no_memory :
        (payload : Option (List ℕ)) (len : ℕ)
        → len < 256
        → port.frame_send_alloc_fn (6 + len) ≡ false
        → sending payload len ≡ refused_send
    unfolding xlink_send
    no_memory none len byte e =
        let needed : u16 (4 + len + 2) ≡ 6 + len = omega arith in rw (has, needed, e) (ground arith)
    no_memory (some bytes) len byte e =
        let needed : u16 (4 + len + 2) ≡ 6 + len = omega arith in rw (has, needed, e) (ground arith)

    above :
        (payload : Option (List ℕ)) (len : ℕ)
        → xlink_max_payload < len
        → sending payload len ≡ refused_send
    unfolding xlink_send
    above none len h = rw has (ground arith)
    above (some bytes) len h = rw has (ground arith)

    null : (len : ℕ) → 0 < len → sending none len ≡ refused_send
    unfolding xlink_send
    null len h = rw has (ground arith)

    refused :
        (payload : Option (List ℕ)) (len : ℕ)
        → sending payload len ≡ refused_send
        → Sends (some (some port)) comp_id msg_id payload len refused_send
        → Result payload len
    refused payload len e = subst (Sends (some (some port)) comp_id msg_id payload len) (sym e)

    pointed :
        (payload : Option (List ℕ)) (len : ℕ)
        → len ≤ xlink_max_payload
        → IsReadable len payload
        → port.frame_send_alloc_fn (6 + len) ≡ true
        → Result payload len
    pointed none zero h readable ok =
        frame_given none zero h readable (λ more. absurd (omega (arith, more))) ok
    pointed none (suc len) h readable ok =
        refused none (suc len) (null (suc len) (omega arith)) (null_payload (omega arith) refl)
    pointed (some bytes) len h readable ok =
        frame_given (some bytes) len h readable (λ more e. absurd cc) ok

    transported :
        (payload : Option (List ℕ)) (len : ℕ)
        → len < 256
        → IsReadable len payload
        → Result payload len
    transported payload len byte readable = elim (Bool-cases (ltb xlink_max_payload len)) [
      | inl over ↦
          (let long : xlink_max_payload < len = ground (arith, over) in
            refused payload len (above payload len long) (too_long long))
      | inr fits ↦ elim (Bool-cases (port.frame_send_alloc_fn (6 + len))) [
        | inr e ↦ refused payload len (no_memory payload len byte e) (no_frame port refl e)
        | inl e ↦ pointed payload len (ground (arith, fits)) readable e
      ]
    ]

-- Every call of `xlink_send`, for a length that a byte holds and a pointer that has as many bytes or is
-- NULL. It is refused if the context, its port or the port's transport function is NULL, if the
-- payload is NULL but not its length, if the length is above 250, or if the port has no frame for the
-- length and 6 bytes more. Else the transport is given a frame of that size, its value is returned,
-- and any receiver that is idle with a buffer of 250 bytes takes the message from the frame.
pub xlink_send-Sends :
    (context : Option (Option SendPort)) (comp_id msg_id : ℕ) (payload : Option (List ℕ)) (len : ℕ)
    → len < 256
    → IsReadable len payload
    → Sends context comp_id msg_id payload len (xlink_send context comp_id msg_id payload len)
unfolding xlink_send
xlink_send-Sends none i m payload len byte readable = no_context refl
xlink_send-Sends (some none) i m payload len byte readable = no_port refl
xlink_send-Sends (some (some port)) i m payload len byte readable =
    elim (Option-cases port.transport_send_fn) [
      | inl e ↦
          subst (Sends (some (some port)) i m payload len)
            (sym (no_transport port i m payload len e)) (no_function port refl e)
      | inr (transport, e) ↦ transported port i m transport e payload len byte readable
    ]
