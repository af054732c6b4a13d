-- ===== src/Upgrade/Session.antt =====
-- A whole upgrade: the messages that `perform_upgrade` of upgrade.cpp sends, one after the other,
-- and what src/upgrade.c has done after them.
use gd32c103_bootloader.Common.{
  ℕ, zero, suc, ◌+◌, ◌-◌, ◌*◌, ◌≤◌, ◌<◌, ◌≡◌, refl, sym, ap, ◌∙◌, arith, List, [], ◌∷◌, ◌++◌, take,
  drop, length, length-take, length-drop, take-append-drop, Option, none, some,
}
use gd32c103_bootloader.Crc.{xlink_crc16_with_init}
use gd32c103_bootloader.Crc.Detect.{crc16-append, crc16-lt}
use gd32c103_bootloader.Flash.Controller.{Fmc}
use gd32c103_bootloader.Flash.{Chip}
use gd32c103_bootloader.Upgrade.Chunk.{
  chunk_buffer, during, accepted, programmed, firmware_chunk_cb_lem,
}
use gd32c103_bootloader.Upgrade.Chips.{IsChunkSize, uploaded}
use gd32c103_bootloader.Upgrade.{
  Upgrade, Outcome, Sent, upgrade_callback, serve, sending, msg_id_firmware_chunk,
}

-- The chunks of the rest of an image from number `k` on, as the loop of the host cuts them.
unfoldable pub chunks : ℕ → ℕ → ℕ → List ℕ → List (ℕ × List ℕ)
chunks zero cs k rest = []
chunks (suc left) cs k [] = []
chunks (suc left) cs k (x ∷ rest) =
    (k, take cs (x ∷ rest)) ∷ chunks left cs (k + 1) (drop cs (x ∷ rest))

-- The messages of chunks, as they stand in the receiver's buffer.
abbrev pub chunk_messages : (ℕ → List ℕ) → List (ℕ × List ℕ) → List Sent
chunk_messages behind [] = []
chunk_messages behind ((k, bytes) ∷ rest) =
    (msg_id_firmware_chunk, chunk_buffer k bytes (behind k)) ∷ chunk_messages behind rest

module _ (fmc : Fmc) (start size cs : ℕ) (behind : ℕ → List ℕ) (garbage vectors : ℕ) where
  open fmc use {byte}

  abbrev pub acceptances : List (ℕ × List ℕ) → List Sent
  acceptances [] = []
  acceptances ((k, bytes) ∷ rest) = accepted fmc start size cs k ∷ acceptances rest

  pub serve-returned :
      (msg_id : ℕ) (payload : List ℕ) (rest sent : List Sent) (u u' : Upgrade fmc)
      → upgrade_callback fmc garbage vectors msg_id payload u ≡ Outcome.returned 0 sent u'
      → serve fmc garbage vectors ((msg_id, payload) ∷ rest) u
        ≡ sending fmc sent (serve fmc garbage vectors rest u')
  unfolding serve
  serve-returned msg_id payload rest sent u u' e = rw (serve, e) refl

  sending-sending :
      (a : Sent) (l : List Sent) (x : Option (List Sent × Upgrade fmc))
      → sending fmc (a ∷ []) (sending fmc l x) ≡ sending fmc (a ∷ l) x
  sending-sending a l none = refl
  sending-sending a l (some p) = refl

  sending-nil : (x : Option (List Sent × Upgrade fmc)) → sending fmc [] x ≡ x
  sending-nil none = refl
  sending-nil (some p) = refl

  module _ (chunked : IsChunkSize cs) (bound : start + size < 4294967296) where
    pub first_chunk :
        (k o sum : ℕ) (rest : List ℕ) (chip : Chip fmc)
        → k * cs ≡ o
        → k ≤ o
        → sum < 65536
        → o + length rest ≤ size
        → upgrade_callback fmc garbage vectors msg_id_firmware_chunk
            (chunk_buffer k (take cs rest) (behind k))
            (during fmc start size cs sum chip)
          ≡ Outcome.returned 0 (accepted fmc start size cs k ∷ []) (
              during fmc start size cs
                (xlink_crc16_with_init (take cs rest) sum)
                (programmed fmc start size cs o (take cs rest) (behind k) chip))
    unfolding upgrade_callback
    first_chunk k o sum rest chip at ko hs inside =
        let len = length-take cs rest in
        firmware_chunk_cb_lem fmc start size cs k o sum (take cs rest) (behind k) chip at
          (omega arith) hs (omega (arith, len)) (omega (arith, len)) bound

    -- Chunks that lie inside the image are all accepted.
    pub serve-chunks :
        (left k o sum : ℕ) (rest : List ℕ) (chip : Chip fmc) (later : List Sent)
        → k * cs ≡ o
        → k ≤ o
        → sum < 65536
        → length rest ≤ left
        → length rest ≤ size - o
        → serve fmc garbage vectors
            (chunk_messages behind (chunks left cs k rest) ++ later)
            (during fmc start size cs sum chip)
          ≡ sending fmc (acceptances (chunks left cs k rest)) (
              serve fmc garbage vectors later (
                during fmc start size cs
                  (xlink_crc16_with_init rest sum)
                  (uploaded fmc start size cs behind left k o rest chip)))
    unfolding chunks uploaded
    serve-chunks zero k o sum [] chip later at ko hs enough inside =
        unfold xlink_crc16_with_init in sym (sending-nil _)
    serve-chunks zero k o sum (x ∷ rest) chip later at ko hs enough inside = absurd (omega arith)
    serve-chunks (suc left) k o sum [] chip later at ko hs enough inside =
        unfold xlink_crc16_with_init in sym (sending-nil _)
    serve-chunks (suc left) k o sum (x ∷ rest) chip later at ko hs enough inside =
        let len = length-drop cs (x ∷ rest) in
        let next : (k + 1) * cs ≡ o + cs = omega arith in
        let sum' = xlink_crc16_with_init (take cs (x ∷ rest)) sum in
        let whole : xlink_crc16_with_init (drop cs (x ∷ rest)) sum'
            ≡ xlink_crc16_with_init (x ∷ rest) sum =
          sym (crc16-append (take cs (x ∷ rest)) (drop cs (x ∷ rest)) sum)
          ∙ ap (λ (l : List ℕ). xlink_crc16_with_init l sum) (take-append-drop cs (x ∷ rest)) in
        serve-returned msg_id_firmware_chunk _ _ _ _ _
          (first_chunk k o sum (x ∷ rest) chip at ko hs (omega arith))
        ∙ ap (sending fmc (accepted fmc start size cs k ∷ [])) (
            serve-chunks left (k + 1) (o + cs) sum' (drop cs (x ∷ rest)) _ later next (omega arith)
              (crc16-lt (take cs (x ∷ rest)) sum hs) (omega (arith, len)) (omega (arith, len)))
        ∙ sending-sending _ _ _
        ∙ ap
            (λ (t : ℕ).
              sending fmc
                (accepted fmc start size cs k
                  ∷ acceptances (chunks left cs (k + 1) (drop cs (x ∷ rest))))
                (serve fmc garbage vectors later (
                  during fmc start size cs t (
                    uploaded fmc start size cs behind left (k + 1) (o + cs) (drop cs (x ∷ rest))
                      (programmed fmc start size cs o (take cs (x ∷ rest)) (behind k) chip)))))
            whole
