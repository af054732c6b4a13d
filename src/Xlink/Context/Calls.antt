-- ===== src/Xlink/Context/Calls.antt =====
-- The calls that a stream of frames leads to.
use gd32c103_bootloader.Common.{
  ℕ, ◌≡◌, refl, ap, ◌∙◌, List, [], ◌∷◌, ◌++◌, map, take, Option, none, some, All,
}
use gd32c103_bootloader.Xlink.Message.{Message}
use gd32c103_bootloader.Xlink.Receive.{
  Rx, Taken, fault, pending, crc_error, complete, take_byte, Event, received, refused, before,
  receive,
}
use gd32c103_bootloader.Xlink.Receive.Stream.{
  Packet, Item, on_line, packets, IsSendable, Reports, AllReport, IsIdle, stream-Delivers,
}
use gd32c103_bootloader.Xlink.Registry.{Handler, Registry, dispatch}
use gd32c103_bootloader.Xlink.Registry.Described.{Calls, dispatch-Calls}
use gd32c103_bootloader.Xlink.Context.{Context, Call, process_rx, calling, process_all}

-- The calls of a message, and of a run of events.
abbrev calls_of : Registry → Message → List Call
calls_of r m = map (λ h. (h, m)) (dispatch r m.comp_id m.msg_id)

abbrev calls_in : Registry → List Event → List Call
calls_in r [] = []
calls_in r (received m ∷ es) = calls_of r m ++ calls_in r es
calls_in r (refused m ∷ es) = calls_in r es

abbrev calls_after : Registry → Option (List Event × Rx) → Option (List Call × Context)
calls_after r none = none
calls_after r (some (es, rx)) = some (calls_in r es, record { rx = rx; registry = r })

calling-nil : (x : Option (List Call × Context)) → calling [] x ≡ x
calling-nil none = refl
calling-nil (some p) = refl

calls_after-received :
    (r : Registry) (m : Message) (x : Option (List Event × Rx))
    → calling (calls_of r m) (calls_after r x) ≡ calls_after r (before (received m) x)
calls_after-received r m none = refl
calls_after-received r m (some p) = refl

calls_after-refused :
    (r : Registry) (m : Message) (x : Option (List Event × Rx))
    → calls_after r x ≡ calls_after r (before (refused m) x)
calls_after-refused r m none = refl
calls_after-refused r m (some p) = refl

-- The calls are those of the events of the receiver.
process_all_lem :
    (bytes : List ℕ) (rx : Rx) (r : Registry)
    → process_all (record { rx = rx; registry = r }) bytes ≡ calls_after r (receive rx bytes)
unfolding process_all receive process_rx
process_all_lem [] rx r = refl
process_all_lem (byte ∷ bytes) rx r =
    go (take_byte rx byte) refl (λ (rx' : Rx). process_all_lem bytes rx' r)
  where
    go :
        (t : Taken)
        → take_byte rx byte ≡ t
        → ((rx' : Rx)
            → process_all (record { rx = rx'; registry = r }) bytes
              ≡ calls_after r (receive rx' bytes))
        → process_all (record { rx = rx; registry = r }) (byte ∷ bytes)
          ≡ calls_after r (receive rx (byte ∷ bytes))
    go fault e ih = rw (process_all, process_rx, receive, e) refl
    go (pending rx') e ih = rw (process_all, process_rx, receive, e) (calling-nil _ ∙ ih rx')
    go (crc_error rx') e ih =
        rw (process_all, process_rx, receive, e)
          (calling-nil _ ∙ ih rx' ∙ calls_after-refused r rx'.rx_msg (receive rx' bytes))
    go (complete rx') e ih =
        rw (process_all, process_rx, receive, e)
          (ap (calling (calls_of r rx'.rx_msg)) (ih rx')
            ∙ calls_after-received r rx'.rx_msg (receive rx' bytes))

-- What a handler is given: who is called, the identifiers and the payload.
pub record Given : Type 0 where
  pub handler : Handler
  pub comp_id : ℕ
  pub msg_id : ℕ
  pub payload : List ℕ

abbrev pub given : Call → Given
given (h, m) = record {
  handler = h;
  comp_id = m.comp_id;
  msg_id = m.msg_id;
  payload = take m.len m.payload;
}

-- What the packets of a stream should lead to: each its handlers, in the order of registration.
abbrev pub given_packet : Packet → Handler → Given
given_packet p h = record {
  handler = h;
  comp_id = p.comp_id;
  msg_id = p.msg_id;
  payload = p.payload;
}

abbrev pub expected : Registry → List Packet → List Given
expected r [] = []
expected r (p ∷ ps) = map (given_packet p) (dispatch r p.comp_id p.msg_id) ++ expected r ps

map-append : {A B : Type 0} (f : A → B) (xs ys : List A) → map f (xs ++ ys) ≡ map f xs ++ map f ys
map-append f [] ys = refl
map-append f (x ∷ xs) ys = ap (λ t. f x ∷ t) (map-append f xs ys)

map-calls :
    (m : Message) (p : Packet) (hs : List Handler)
    → Reports (received m) p
    → map given (map (λ h. (h, m)) hs) ≡ map (given_packet p) hs
map-calls m p [] e = refl
map-calls m p (h ∷ hs) (c, i, l, t) = rw (c, i, t, map-calls m p hs (c, i, l, t)) refl

calls_in-expected :
    (r : Registry) (es : List Event) (ps : List Packet)
    → AllReport es ps
    → map given (calls_in r es) ≡ expected r ps
calls_in-expected r [] [] h = refl
calls_in-expected r [] (p ∷ ps) h = absurd h
calls_in-expected r (received m ∷ es) [] h = absurd h
calls_in-expected r (refused m ∷ es) [] h = absurd h
calls_in-expected r (refused m ∷ es) (p ∷ ps) h = absurd h.0
calls_in-expected r (received m ∷ es) (p ∷ ps) ((c, i, l, t), h) =
    map-append given (calls_of r m) (calls_in r es)
    ∙ ap (λ (x : List Given). x ++ map given (calls_in r es))
        (ap (λ (hs : List Handler). map given (map (λ (h' : Handler). (h', m)) hs))
            (ap (λ (a : ℕ). dispatch r a m.msg_id) c ∙ ap (dispatch r p.comp_id) i)
          ∙ map-calls m p (dispatch r p.comp_id p.msg_id) (c, i, l, t))
    ∙ ap (λ (x : List Given). map (given_packet p) (dispatch r p.comp_id p.msg_id) ++ x)
        (calls_in-expected r es ps h)

-- The calls of a stream, from those of the receiver's events.
pub stream-expected :
    (items : List Item) (rx : Rx) (r : Registry)
    → IsIdle rx
    → All IsSendable items
    → (calls : List Call) × (after : Rx) × (process_all
          (record { rx = rx; registry = r })
          (on_line items)
        ≡ some (calls, record { rx = after; registry = r }))
      × (map given calls ≡ expected r (packets items))
      × IsIdle after
stream-expected items rx r v h =
    let d = stream-Delivers items rx v h in
    (
      calls_in r d.events,
      d.after,
      process_all_lem (on_line items) rx r ∙ ap (calls_after r) d.runs,
      calls_in-expected r d.events (packets items) d.reports,
      d.idle,
    )

-- What a stream of packets should lead to: packet by packet, every handler that its component has for
-- its identifier.
pub data Expected (r : Registry) : List Packet → List Given → Type 0 where
  none_sent : Expected r [] []
  sent :
      (p : Packet) (ps : List Packet) (hs : List Handler) (gs : List Given)
      → Calls r p.comp_id p.msg_id hs
      → Expected r ps gs
      → Expected r (p ∷ ps) (map (given_packet p) hs ++ gs)

expected-Expected : (r : Registry) (ps : List Packet) → Expected r ps (expected r ps)
expected-Expected r [] = none_sent
expected-Expected r (p ∷ ps) =
    sent p ps (dispatch r p.comp_id p.msg_id) (expected r ps) (dispatch-Calls r p.comp_id p.msg_id)
      (expected-Expected r ps)

-- From a context whose receiver is idle a stream of frames that `xlink_send` built, with stray
-- bytes other than the start byte between them, leads to these calls and no others: frame by frame,
-- every handler that is registered for its component and its identifier, in the order of
-- registration, with the frame's identifiers and payload. The receiver is idle at the end.
pub stream-calls :
    (items : List Item) (rx : Rx) (r : Registry)
    → IsIdle rx
    → All IsSendable items
    → (calls : List Call) × (after : Rx) × (process_all
          (record { rx = rx; registry = r })
          (on_line items)
        ≡ some (calls, record { rx = after; registry = r }))
      × Expected r (packets items) (map given calls)
      × IsIdle after
stream-calls items rx r v h =
    let (calls, after, runs, made, idle) = stream-expected items rx r v h in
    (calls, after, runs, rw made (expected-Expected r (packets items)), idle)
