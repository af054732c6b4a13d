-- ===== src/Host/Wire/Steps.antt =====
-- A request over the line with frames is answered as by the device itself.
use mathlib.Core.List.{append-nil}
use gd32c103_bootloader.Common.{
  ℕ, ◌+◌, ◌*◌, ltb, get_or, u32, ◌≤◌, ◌≡◌, refl, sym, ap, ◌∙◌, arith, true, ◌==◌, ==_iff, List, [],
  ◌∷◌, All, map, length, Option, none, some, inl, inr, Bool-cases,
}
use gd32c103_bootloader.Flash.Controller.{Fmc}
use gd32c103_bootloader.Xlink.Message.{encode_frame, xlink_max_payload}
use gd32c103_bootloader.Xlink.Receive.{Rx, Event, received, refused, receive}
use gd32c103_bootloader.Xlink.Receive.Stream.{
  Item, packet, on_line, packets, IsSendable, IsIdle, AllReport, stream-Delivers,
}
use gd32c103_bootloader.Xlink.Context.{Context, Call, handed_on, xlink_send, process_all}
use gd32c103_bootloader.Xlink.Context.Calls.{stream-expected}
use gd32c103_bootloader.Upgrade.{
  Upgrade, Outcome, returned, fault, reset, Sent, upgrade_callback, serve, firmware_chunk_cb,
  start_firmware_upgrade_cb, finalize_firmware_upgrade_cb, restart_device_cb, get_firmware_info_cb,
  firmware_info_payload, get_u32, firmware_chunk_data_max_len, firmware_chunk_response_payload,
}
use gd32c103_bootloader.Upgrade.Init.{Code, comp_id_upgrade}
use gd32c103_bootloader.Upgrade.Chunk.{take-length}
use gd32c103_bootloader.Upgrade.Padded.{IsWhole}
use gd32c103_bootloader.Tasks.Device.{run_calls}
use gd32c103_bootloader.Tasks.Device.Session.{upgrade_packet, run_calls-serve}
use gd32c103_bootloader.Tasks.Device.Received.{HasHandlers, calls-Fits}
use gd32c103_bootloader.Host.Device.{replies}
use gd32c103_bootloader.Host.Wire.{send_upgrade, sent_bytes, heard, Ends, answer}

abbrev pub IsShort : Sent → Type 0
IsShort s = length s.1 ≤ xlink_max_payload

pub send_upgrade_lem :
    (s : Sent)
    → IsShort s
    → send_upgrade s ≡ handed_on 0 (encode_frame comp_id_upgrade s.0 s.1 (length s.1))
unfolding xlink_send
send_upgrade_lem (m, p) short = rw (take-length p) (ground arith)

abbrev items_of : List Sent → List Item
items_of [] = []
items_of (s ∷ l) = packet (upgrade_packet s) ∷ items_of l

items_of-AreSendable : (l : List Sent) → All IsShort l → All IsSendable (items_of l)
items_of-AreSendable [] h = tt
items_of-AreSendable (s ∷ l) h = (h.0, items_of-AreSendable l h.1)

packets-items_of : (l : List Sent) → packets (items_of l) ≡ map upgrade_packet l
packets-items_of [] = refl
packets-items_of (s ∷ l) = ap (λ k. upgrade_packet s ∷ k) (packets-items_of l)

sent_bytes_lem : (l : List Sent) → All IsShort l → sent_bytes l ≡ on_line (items_of l)
unfolding sent_bytes on_line
sent_bytes_lem [] h = refl
sent_bytes_lem (s ∷ l) h = rw (sent_bytes, send_upgrade_lem s h.0, sent_bytes_lem l h.1) refl

heard_lem : (es : List Event) (l : List Sent) → AllReport es (packets (items_of l)) → heard es ≡ l
unfolding heard
heard_lem [] [] r = refl
heard_lem [] (s ∷ l) r = absurd r
heard_lem (e ∷ es) [] r = absurd r
heard_lem (received m ∷ es) (s ∷ l) ((c, i, len, p), r) =
    let same : m.comp_id == comp_id_upgrade ≡ true = (==_iff m.comp_id comp_id_upgrade).1 c in
    rw (same, i, p, heard_lem es l r) refl
heard_lem (refused m ∷ es) (s ∷ l) r = absurd r.0

module _ (fmc : Fmc) where
  abbrev sent_of : Outcome fmc → List Sent
  sent_of (returned value sent u) = sent
  sent_of fault = []
  sent_of reset = []

  chunk-AreShort :
      (payload : List ℕ) (u : Upgrade fmc) → All IsShort (sent_of (firmware_chunk_cb fmc payload u))
  unfolding firmware_chunk_cb firmware_chunk_response_payload
  chunk-AreShort payload u =
      let size = get_or payload 4 0 in
      let address = u32 (u.start_address + get_u32 payload 0 * u.chunk_size) in
      let outside = ltb (u32 (u.start_address + u.size_bytes)) (u32 (address + size)) in
      elim (Bool-cases outside) [
        | inl e ↦ rw e (omega arith, tt)
        | inr e ↦ elim (Bool-cases (ltb firmware_chunk_data_max_len size)) [
          | inl f ↦ rw (e, f) tt
          | inr f ↦ rw (e, f) (omega arith, tt)
        ]
      ]

  finalize-AreShort :
      (payload : List ℕ) (u : Upgrade fmc)
      → All IsShort (sent_of (finalize_firmware_upgrade_cb fmc payload u))
  unfolding finalize_firmware_upgrade_cb
  finalize-AreShort payload u = (omega arith, tt)

  info-AreShort :
      (garbage vectors : ℕ) (payload : List ℕ) (u : Upgrade fmc)
      → All IsShort (sent_of (get_firmware_info_cb fmc garbage vectors payload u))
  unfolding get_firmware_info_cb firmware_info_payload
  info-AreShort g v payload u =
      let wanted = get_or payload 0 0 in
      elim (Bool-cases (wanted == 0)) [
        | inl e ↦ rw e (omega arith, tt)
        | inr e ↦ elim (Bool-cases (wanted == 1)) [
          | inl f ↦ rw (e, f) (omega arith, tt)
          | inr f ↦ elim (Bool-cases (wanted == 2)) [
            | inl h ↦ rw (e, f, h) (omega arith, tt)
            | inr h ↦ rw (e, f, h) tt
          ]
        ]
      ]

  -- What a callback answers to a whole message fits a frame.
  callback-AreShort :
      (garbage vectors : ℕ) (s : Sent) (u : Upgrade fmc)
      → IsWhole s
      → All IsShort (sent_of (upgrade_callback fmc garbage vectors s.0 s.1 u))
  unfolding upgrade_callback start_firmware_upgrade_cb finalize_firmware_upgrade_cb
      restart_device_cb
  callback-AreShort g v (m, p) u (inl (e, len)) = rw e (omega arith, tt)
  callback-AreShort g v (m, p) u (inr (inl (e, k))) = rw e (chunk-AreShort p u)
  callback-AreShort g v (m, p) u (inr (inr (inl (e, len)))) = rw e (finalize-AreShort p u)
  callback-AreShort g v (m, p) u (inr (inr (inr (inl e)))) = rw e tt
  callback-AreShort g v (m, p) u (inr (inr (inr (inr (e, len))))) = rw e (info-AreShort g v p u)

module _ (fmc : Fmc) (code : Code) (address b : ℕ) (a : ℕ → ℕ) (garbage vectors : ℕ) where
  -- What a callback has done, if it came back.
  abbrev only : Outcome fmc → Option (List Sent × Upgrade fmc)
  only (returned value sent u') = some (sent, u')
  only fault = none
  only reset = none

  -- Both receivers are idle, the device has the handlers of `upgrade_init`, and behind them is the
  -- device in this state.
  pub record IsLike (w : Ends fmc code garbage vectors) (u : Upgrade fmc) : Type 0 where
    pub device : w.upgrade ≡ u
    pub has_handlers : HasHandlers code address b a w.context.registry
    pub device_idle : IsIdle w.context.rx
    pub host_idle : IsIdle w.host_rx

  -- What comes back is what the callback sent.
  abbrev pub Answers :
      Ends fmc code garbage vectors
      → Outcome fmc
      → List Sent × Ends fmc code garbage vectors
      → Type 0
  Answers w o (l, w') =
      (l ≡ (replies fmc garbage vectors [] w.upgrade o).1.0)
      × IsLike w' (replies fmc garbage vectors [] w.upgrade o).1.1

  module _ (w : Ends fmc code garbage vectors) (frame : List ℕ) (calls : List Call) (c : Context)
      (received_it : process_all w.context frame ≡ some (calls, c)) where
    answer-silent :
        run_calls fmc code garbage vectors calls w.upgrade ≡ none
        → answer fmc code garbage vectors frame w ≡ ([], record w { context = c })
    unfolding answer
    answer-silent run = rw (answer, received_it, run) refl

    answer-heard :
        (sent : List Sent) (u : Upgrade fmc)
        → run_calls fmc code garbage vectors calls w.upgrade ≡ some (sent, u)
        → IsIdle w.host_rx
        → All IsShort sent
        → (rx : Rx) × IsIdle rx
          × (answer fmc code garbage vectors frame w
              ≡ (sent, record { context = c; upgrade = u; host_rx = rx }))
    unfolding answer
    answer-heard sent u run idle short =
        let d = stream-Delivers (items_of sent) w.host_rx idle (items_of-AreSendable sent short) in
        let came : receive w.host_rx (sent_bytes sent) ≡ some (d.events, d.after) =
          ap (receive w.host_rx) (sent_bytes_lem sent short) ∙ d.runs in
        (
          d.after,
          d.idle,
          rw (answer, received_it, run, came, heard_lem d.events sent d.reports) refl,
        )

  serve-one :
      (s : Sent) (u : Upgrade fmc) (o : Outcome fmc)
      → upgrade_callback fmc garbage vectors s.0 s.1 u ≡ o
      → serve fmc garbage vectors (s ∷ []) u ≡ only o
  unfolding serve
  serve-one s u (returned value sent u') e = rw (serve, e, append-nil sent) refl
  serve-one s u fault e = rw (serve, e) refl
  serve-one s u reset e = rw (serve, e) refl

  by_outcome :
      (o : Outcome fmc) (w : Ends fmc code garbage vectors) (frame : List ℕ) (calls : List Call)
      (c : Context)
      → process_all w.context frame ≡ some (calls, c)
      → run_calls fmc code garbage vectors calls w.upgrade ≡ only o
      → HasHandlers code address b a c.registry
      → IsIdle c.rx
      → IsIdle w.host_rx
      → All IsShort (sent_of fmc o)
      → Answers w o (answer fmc code garbage vectors frame w)
  by_outcome (returned value sent u) w frame calls c came run has idle host short =
      let (rx, idle', e) = answer-heard w frame calls c came sent u run host short in
      rw e
        (refl, record { device = refl; has_handlers = has; device_idle = idle; host_idle = idle' })
  by_outcome fault w frame calls c came run has idle host short =
      rw (answer-silent w frame calls c came run)
        (refl, record { device = refl; has_handlers = has; device_idle = idle; host_idle = host })
  by_outcome reset w frame calls c came run has idle host short =
      rw (answer-silent w frame calls c came run)
        (refl, record { device = refl; has_handlers = has; device_idle = idle; host_idle = host })

  pub answer-Answers :
      (w : Ends fmc code garbage vectors) (s : Sent) (whole : IsWhole s)
      → IsShort s
      → IsLike w w.upgrade
      → Answers w
          (upgrade_callback fmc garbage vectors s.0 s.1 w.upgrade)
          (answer fmc code garbage vectors (encode_frame comp_id_upgrade s.0 s.1 (length s.1)) w)
  answer-Answers w s whole short like =
      let c = w.context in
      let (calls, after, runs, all, idle) =
        stream-expected (items_of (s ∷ [])) c.rx c.registry like.device_idle
          (items_of-AreSendable (s ∷ []) (short, tt)) in
      let fits =
        calls-Fits code address b a fmc garbage vectors c.registry calls (s ∷ []) (whole, tt)
          like.has_handlers all in
      let run =
        run_calls-serve fmc code garbage vectors calls (s ∷ []) (whole, tt) w.upgrade fits in
      let frame = encode_frame comp_id_upgrade s.0 s.1 (length s.1) in
      let came : process_all c frame ≡ some (calls, record { rx = after; registry = c.registry }) =
        ap (process_all c) (sym (append-nil frame)) ∙ (unfold on_line in runs) in
      let done = run ∙ serve-one s w.upgrade _ refl in
      let short_answer = callback-AreShort fmc garbage vectors s w.upgrade whole in
      by_outcome (upgrade_callback fmc garbage vectors s.0 s.1 w.upgrade) w frame calls
        (record { rx = after; registry = c.registry }) came done like.has_handlers idle
        like.host_idle short_answer
