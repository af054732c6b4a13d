-- ===== src/Xlink/Receive/Stream.antt =====
-- The receiver over a stream: frames one behind the other, with noise between them.
use gd32c103_bootloader.Common.{
  ℕ, ◌≤◌, ◌≡◌, ◌≢◌, refl, ap, ◌∙◌, arith, List, [], ◌∷◌, ◌++◌, length, take, some, All,
}
use gd32c103_bootloader.Xlink.Message.{xlink_sof, xlink_max_payload, encode_frame}
use gd32c103_bootloader.Xlink.Receive.{RxState, Rx, Event, received, refused, before, receive}
use gd32c103_bootloader.Xlink.Receive.Frame.{frame_message, frame_crc, idle_after, receive-noise}
use gd32c103_bootloader.Xlink.Receive.RoundTrip.{receive-encode_frame, length-overlay}

pub record Packet : Type 0 where
  pub comp_id : ℕ
  pub msg_id : ℕ
  pub payload : List ℕ

-- What is on the line: a frame of `xlink_send`, or a stray byte.
pub data Item : Type 0 where
  packet : Packet → Item
  noise : ℕ → Item

unfoldable pub on_line : List Item → List ℕ
on_line [] = []
on_line (packet p ∷ items) =
    encode_frame p.comp_id p.msg_id p.payload (length p.payload) ++ on_line items
on_line (noise byte ∷ items) = byte ∷ on_line items

abbrev pub packets : List Item → List Packet
packets [] = []
packets (packet p ∷ items) = p ∷ packets items
packets (noise byte ∷ items) = packets items

abbrev pub IsSendable : Item → Type 0
IsSendable (packet p) = length p.payload ≤ xlink_max_payload
IsSendable (noise byte) = byte ≢ xlink_sof

-- The message that an event reports is the packet.
abbrev pub Reports : Event → Packet → Type 0
Reports (received m) p =
    (m.comp_id ≡ p.comp_id)
    × (m.msg_id ≡ p.msg_id)
    × (m.len ≡ length p.payload)
    × (take m.len m.payload ≡ p.payload)
Reports (refused m) p = ⊥

abbrev pub AllReport : List Event → List Packet → Type 0
AllReport [] [] = Unit {0}
AllReport [] (p ∷ ps) = ⊥
AllReport (e ∷ es) [] = ⊥
AllReport (e ∷ es) (p ∷ ps) = Reports e p × AllReport es ps

pub record IsIdle (c : Rx) : Type 0 where
  pub waits : c.rx_msg_state ≡ RxState.wait_magic
  pub buffer : length c.rx_msg.payload ≡ xlink_max_payload

pub record Delivers (c : Rx) (items : List Item) : Type 0 where
  pub events : List Event
  pub after : Rx
  pub runs : receive c (on_line items) ≡ some (events, after)
  pub reports : AllReport events (packets items)
  pub idle : IsIdle after

take-append : (xs ys : List ℕ) → take (length xs) (xs ++ ys) ≡ xs
take-append [] ys = refl
take-append (x ∷ xs) ys = ap (λ t. x ∷ t) (take-append xs ys)

-- From the idle state a stream of frames that `xlink_send` built, with stray bytes other than the
-- start byte between them, is received without a fault: one message for each frame, in order, with
-- its identifiers and its payload, and nothing else, and the receiver is idle at the end.
pub stream-Delivers :
    (items : List Item) (c : Rx) → IsIdle c → All IsSendable items → Delivers c items
unfolding on_line
stream-Delivers [] c v h = record {
  events = [];
  after = c;
  runs = unfold receive in refl;
  reports = tt;
  idle = v;
}
stream-Delivers (noise byte ∷ items) c v h =
    let rest = stream-Delivers items c v h.1 in
    record {
      events = rest.events;
      after = rest.after;
      runs = receive-noise c byte (on_line items) v.waits h.0 ∙ rest.runs;
      reports = rest.reports;
      idle = rest.idle;
    }
stream-Delivers (packet p ∷ items) c v h =
    let crc = frame_crc (length p.payload) p.comp_id p.msg_id p.payload in
    let m = frame_message c.rx_msg (length p.payload) p.comp_id p.msg_id p.payload crc in
    let c' = idle_after m crc (length p.payload) in
    let whole = length-overlay p.payload c.rx_msg.payload (omega (arith, h.0, v.buffer)) in
    let rest = stream-Delivers items c' (record { waits = refl; buffer = whole ∙ v.buffer }) h.1 in
    record {
      events = received m ∷ rest.events;
      after = rest.after;
      runs =
          receive-encode_frame c p.comp_id p.msg_id p.payload (on_line items) v.waits v.buffer h.0
          ∙ ap (before (received m)) rest.runs;
      reports = ((refl, refl, refl, take-append p.payload _), rest.reports);
      idle = rest.idle;
    }
