-- ===== src/Tasks/Device/Session.antt =====
-- The calls that the messages of an upgrade lead to, and what the callbacks do in them.
use gd32c103_bootloader.Common.{
  ℕ, zero, suc, ◌+◌, ◌≡◌, refl, sym, ap, ◌∙◌, List, [], ◌∷◌, ◌++◌, All, All-append, take, drop,
  take-append-drop, length, Option, none, some, inl, inr,
}
use gd32c103_bootloader.Flash.Controller.{Fmc}
use gd32c103_bootloader.Xlink.Message.{Message}
use gd32c103_bootloader.Xlink.Receive.Stream.{Packet}
use gd32c103_bootloader.Xlink.Registry.{Handler}
use gd32c103_bootloader.Xlink.Context.{Call}
use gd32c103_bootloader.Upgrade.{
  Upgrade, Outcome, returned, fault, reset, Sent, sending, serve, upgrade_callback,
  start_firmware_upgrade_payload, finalize_firmware_upgrade_payload,
}
use gd32c103_bootloader.Upgrade.Init.{
  comp_id_upgrade, Callback, Code, start_firmware_upgrade, firmware_chunk,
  finalize_firmware_upgrade, restart_device, get_firmware_info,
}
use gd32c103_bootloader.Upgrade.Padded.{IsWhole, upgrade_callback-padded}
use gd32c103_bootloader.Upgrade.Session.{chunks, chunk_messages}
use gd32c103_bootloader.Upgrade.Image.{session}
use gd32c103_bootloader.Tasks.Device.{call_pointer, run_calls}

-- The frame that carries a message of the upgrade component.
abbrev pub upgrade_packet : Sent → Packet
upgrade_packet (msg_id, payload) = record {
  comp_id = comp_id_upgrade;
  msg_id = msg_id;
  payload = payload;
}

-- The callback of a message whose bytes are all there.
abbrev pub callback_of : (s : Sent) → IsWhole s → Callback
callback_of (msg_id, payload) (inl w) = start_firmware_upgrade
callback_of (msg_id, payload) (inr (inl w)) = firmware_chunk
callback_of (msg_id, payload) (inr (inr (inl w))) = finalize_firmware_upgrade
callback_of (msg_id, payload) (inr (inr (inr (inl w)))) = restart_device
callback_of (msg_id, payload) (inr (inr (inr (inr w)))) = get_firmware_info

chunks-AreWhole :
    (left cs k : ℕ) (rest : List ℕ) → All IsWhole (chunk_messages (λ j. []) (chunks left cs k rest))
unfolding chunks
chunks-AreWhole zero cs k rest = tt
chunks-AreWhole (suc left) cs k [] = tt
chunks-AreWhole (suc left) cs k (x ∷ rest) = (
  inr (inl (refl, (k, take cs (x ∷ rest), refl))),
  chunks-AreWhole left cs (k + 1) (drop cs (x ∷ rest)),
)

pub session-AreWhole :
    (start cs : ℕ) (image : List ℕ) → All IsWhole (session start cs (λ j. []) [] image)
unfolding session start_firmware_upgrade_payload finalize_firmware_upgrade_payload
session-AreWhole start cs image = (
  inl (refl, refl),
  All-append IsWhole (chunk_messages (λ j. []) (chunks (length image) cs 0 image)) _
      (chunks-AreWhole (length image) cs 0 image) (inr (inr (inl (refl, refl))), tt),
)

module _ (fmc : Fmc) (code : Code) (garbage vectors : ℕ) where
  call-upgrade_callback :
      (s : Sent) (w : IsWhole s) (payload : List ℕ) (u : Upgrade fmc)
      → call_pointer fmc code garbage vectors (some (callback_of s w)) payload u
        ≡ upgrade_callback fmc garbage vectors s.0 payload u
  unfolding call_pointer upgrade_callback
  call-upgrade_callback (m, p) (inl (e, len)) payload u = rw e refl
  call-upgrade_callback (m, p) (inr (inl (e, k))) payload u = rw e refl
  call-upgrade_callback (m, p) (inr (inr (inl (e, len)))) payload u = rw e refl
  call-upgrade_callback (m, p) (inr (inr (inr (inl e)))) payload u = rw e refl
  call-upgrade_callback (m, p) (inr (inr (inr (inr (e, len))))) payload u = rw e refl

  -- A call that a message led to: the callback, and a buffer that begins with the message.
  abbrev pub Fits : List Call → (l : List Sent) → All IsWhole l → Type 0
  Fits [] [] w = Unit {0}
  Fits [] (s ∷ l) w = ⊥
  Fits (c ∷ calls) [] w = ⊥
  Fits ((h, m) ∷ calls) (s ∷ l) w =
      (code.at h.handler ≡ some (callback_of s w.0))
      × (take m.len m.payload ≡ s.1)
      × Fits calls l w.1

  then_run : Outcome fmc → List Call → Option (List Sent × Upgrade fmc)
  then_run (returned value sent u') calls =
      sending fmc sent (run_calls fmc code garbage vectors calls u')
  then_run fault calls = none
  then_run reset calls = none

  then_serve : Outcome fmc → List Sent → Option (List Sent × Upgrade fmc)
  then_serve (returned value sent u') l = sending fmc sent (serve fmc garbage vectors l u')
  then_serve fault l = none
  then_serve reset l = none

  run_calls-cons :
      (h : Handler) (m : Message) (calls : List Call) (u : Upgrade fmc)
      → run_calls fmc code garbage vectors ((h, m) ∷ calls) u
        ≡ then_run (call_pointer fmc code garbage vectors (code.at h.handler) m.payload u) calls
  unfolding run_calls then_run
  run_calls-cons h m calls u =
      go (call_pointer fmc code garbage vectors (code.at h.handler) m.payload u) refl
    where
      go :
          (o : Outcome fmc)
          → call_pointer fmc code garbage vectors (code.at h.handler) m.payload u ≡ o
          → run_calls fmc code garbage vectors ((h, m) ∷ calls) u ≡ then_run o calls
      go (returned value sent u') e = rw (run_calls, e) refl
      go fault e = rw (run_calls, e) refl
      go reset e = rw (run_calls, e) refl

  serve-cons :
      (s : Sent) (l : List Sent) (u : Upgrade fmc)
      → serve fmc garbage vectors (s ∷ l) u
        ≡ then_serve (upgrade_callback fmc garbage vectors s.0 s.1 u) l
  unfolding serve then_serve
  serve-cons s l u = go (upgrade_callback fmc garbage vectors s.0 s.1 u) refl
    where
      go :
          (o : Outcome fmc)
          → upgrade_callback fmc garbage vectors s.0 s.1 u ≡ o
          → serve fmc garbage vectors (s ∷ l) u ≡ then_serve o l
      go (returned value sent u') e = rw (serve, e) refl
      go fault e = rw (serve, e) refl
      go reset e = rw (serve, e) refl

  same_rest :
      (o : Outcome fmc) (calls : List Call) (l : List Sent)
      → ((u' : Upgrade fmc)
          → run_calls fmc code garbage vectors calls u' ≡ serve fmc garbage vectors l u')
      → then_run o calls ≡ then_serve o l
  unfolding then_run then_serve
  same_rest (returned value sent u') calls l e = ap (sending fmc sent) (e u')
  same_rest fault calls l e = refl
  same_rest reset calls l e = refl

  pub run_calls-serve :
      (calls : List Call) (l : List Sent) (w : All IsWhole l) (u : Upgrade fmc)
      → Fits calls l w
      → run_calls fmc code garbage vectors calls u ≡ serve fmc garbage vectors l u
  run_calls-serve [] [] w u f = unfold run_calls in unfold serve in refl
  run_calls-serve [] (s ∷ l) w u f = absurd f
  run_calls-serve (c ∷ calls) [] w u f = absurd f
  run_calls-serve ((h, m) ∷ calls) (s ∷ l) w u (at, bytes, f) =
      let buffer : m.payload ≡ s.1 ++ drop m.len m.payload =
        sym (take-append-drop m.len m.payload) ∙ ap (λ p. p ++ drop m.len m.payload) bytes in
      let one : call_pointer fmc code garbage vectors (code.at h.handler) m.payload u
          ≡ upgrade_callback fmc garbage vectors s.0 s.1 u =
        ap (λ c. call_pointer fmc code garbage vectors c m.payload u) at
        ∙ call-upgrade_callback s w.0 m.payload u
        ∙ ap (λ p. upgrade_callback fmc garbage vectors s.0 p u) buffer
        ∙ upgrade_callback-padded fmc garbage vectors s.0 s.1 (drop m.len m.payload) u w.0 in
      run_calls-cons h m calls u
      ∙ ap (λ o. then_run o calls) one
      ∙ same_rest (upgrade_callback fmc garbage vectors s.0 s.1 u) calls l
          (λ u'. run_calls-serve calls l w.1 u' f)
      ∙ sym (serve-cons s l u)
