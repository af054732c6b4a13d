-- ===== src/Host/Device.antt =====
-- The host of upgrade.cpp with the device of src/upgrade.c at the end of the line.
use gd32c103_bootloader.Common.{
  ℕ, zero, suc, ◌+◌, ◌-◌, ◌*◌, ◌≤◌, ◌<◌, ◌≡◌, refl, sym, ap, ◌∙◌, arith, Bool, true, List, [], ◌∷◌,
  ◌++◌, take, drop, length, length-take, length-drop, take-append-drop, some, u8,
}
use gd32c103_bootloader.Crc.{xlink_crc16, xlink_init_crc16, xlink_crc16_with_init}
use gd32c103_bootloader.Crc.Detect.{crc16-append, crc16-lt}
use gd32c103_bootloader.Flash.Controller.{Fmc}
use gd32c103_bootloader.Flash.{Chip}
use gd32c103_bootloader.Upgrade.{
  Upgrade, Outcome, Sent, upgrade_callback, put_u32, firmware_chunk_payload,
  firmware_chunk_response_payload,
}
use gd32c103_bootloader.Upgrade.Chunk.{during, programmed, firmware_chunk_payload-buffer}
use gd32c103_bootloader.Upgrade.Chips.{uploaded}
use gd32c103_bootloader.Upgrade.Image.{IsTarget, erased, final, started, finished}
use gd32c103_bootloader.Upgrade.Session.{first_chunk}
use gd32c103_bootloader.Host.{
  Line, any_accepted, is_accepted, ask, send_start_upgrade, send_firmware_chunk,
  send_finalize_upgrade, send_chunks, perform_upgrade,
}

module _ (fmc : Fmc) (garbage vectors : ℕ) (old : List ℕ) where
  -- What a callback sends comes back; `old` is what stands in the receiver's buffer behind the
  -- message.
  abbrev pub replies : Upgrade fmc → Outcome fmc → Bool × (List Sent × Upgrade fmc)
  replies u (Outcome.returned code sent u') = (true, (sent, u'))
  replies u Outcome.fault = (true, ([], u))
  replies u Outcome.reset = (true, ([], u))

  abbrev pub device : Line
  device = record {
    State = Upgrade fmc;
    exchange = λ request u.
        replies u (upgrade_callback fmc garbage vectors request.0 (request.1 ++ old) u);
  }

  module _ (start size : ℕ) (bound : start + size < 4294967296) where
    chunk_lem :
        (k o sum : ℕ) (rest : List ℕ) (chip : Chip fmc)
        → k * 200 ≡ o
        → k ≤ o
        → sum < 65536
        → o + length rest ≤ size
        → send_firmware_chunk device k (take 200 rest) sum (during fmc start size 200 sum chip) ≡ (
          true,
          (
            xlink_crc16_with_init (take 200 rest) sum,
            during fmc start size 200
                (xlink_crc16_with_init (take 200 rest) sum)
                (programmed fmc start size 200 o (take 200 rest) old chip),
          ),
        )
    unfolding send_firmware_chunk ask any_accepted is_accepted firmware_chunk_response_payload
    chunk_lem k o sum rest chip at ko hs inside =
        let len = length-take 200 rest in
        let short : length (take 200 rest) ≤ 245 = omega (arith, len) in
        let byte_len : u8 (length (take 200 rest)) ≡ length (take 200 rest) = omega arith in
        let payload : firmware_chunk_payload k (take 200 rest) (u8 (length (take 200 rest)))
            ≡ some (put_u32 k ++ (length (take 200 rest) ∷ take 200 rest)) =
          ap (firmware_chunk_payload k (take 200 rest)) byte_len
          ∙ firmware_chunk_payload-buffer k (take 200 rest) short in
        let reply =
          first_chunk fmc start size 200 (λ j. old) garbage vectors (omega arith, refl, omega arith)
            bound k o sum rest chip at ko hs inside in
        rw (send_firmware_chunk, payload, reply, ask) refl

    -- The chunks of the rest of an image are all accepted, and the checksum of the host follows
    -- that of the device.
    send_chunks_lem :
        (left k o sum : ℕ) (rest : List ℕ) (chip : Chip fmc)
        → k * 200 ≡ o
        → k ≤ o
        → sum < 65536
        → length rest ≤ left
        → length rest ≤ size - o
        → send_chunks device left k rest sum (during fmc start size 200 sum chip) ≡ (
          true,
          (
            xlink_crc16_with_init rest sum,
            during fmc start size 200
                (xlink_crc16_with_init rest sum)
                (uploaded fmc start size 200 (λ j. old) left k o rest chip),
          ),
        )
    unfolding send_chunks uploaded
    send_chunks_lem zero k o sum [] chip at ko hs enough inside =
        unfold xlink_crc16_with_init in refl
    send_chunks_lem zero k o sum (x ∷ rest) chip at ko hs enough inside = absurd (omega arith)
    send_chunks_lem (suc left) k o sum [] chip at ko hs enough inside =
        unfold xlink_crc16_with_init in refl
    send_chunks_lem (suc left) k o sum (x ∷ rest) chip at ko hs enough inside =
        let l = x ∷ rest in
        let len = length-drop 200 l in
        let next : (k + 1) * 200 ≡ o + 200 = omega arith in
        let sum' = xlink_crc16_with_init (take 200 l) sum in
        let whole : xlink_crc16_with_init (drop 200 l) sum' ≡ xlink_crc16_with_init l sum =
          sym (crc16-append (take 200 l) (drop 200 l) sum)
          ∙ ap (λ (t : List ℕ). xlink_crc16_with_init t sum) (take-append-drop 200 l) in
        let first = chunk_lem k o sum l chip at ko hs (omega arith) in
        let chip' = programmed fmc start size 200 o (take 200 l) old chip in
        let others =
          send_chunks_lem left (k + 1) (o + 200) sum' (drop 200 l) chip' next (omega arith)
            (crc16-lt (take 200 l) sum hs) (omega (arith, len)) (omega (arith, len)) in
        rw (send_chunks, first, others, whole) refl

  -- The start of an upgrade, and its end, when the device's checksum is that of the image.
  start_lem :
      (start : ℕ) (image : List ℕ) (u : Upgrade fmc)
      → IsTarget start (length image)
      → send_start_upgrade device start (length image) u ≡ (
        true,
        during fmc start
            (length image)
            200
            xlink_init_crc16
            (erased fmc start 200 (λ j. old) garbage vectors image old u),
      )
  unfolding send_start_upgrade ask any_accepted is_accepted
  start_lem start image u target =
      let reply =
        started fmc start 200 (λ j. old) garbage vectors image old target
          (omega arith, refl, omega arith) u in
      rw (send_start_upgrade, reply, ask) refl

  finalize_lem :
      (start : ℕ) (image : List ℕ) (u : Upgrade fmc)
      → IsTarget start (length image)
      → u.check_crc32 ≡ xlink_crc16 image
      → send_finalize_upgrade device (xlink_crc16 image) u ≡ (true, u)
  unfolding send_finalize_upgrade ask any_accepted is_accepted
  finalize_lem start image u target sum =
      let reply =
        finished fmc start 200 (λ j. old) garbage vectors image old target
          (omega arith, refl, omega arith) u sum in
      rw (send_finalize_upgrade, reply, ask) refl

  pub perform_upgrade_lem :
      (start : ℕ) (image : List ℕ) (u : Upgrade fmc)
      → IsTarget start (length image)
      → perform_upgrade device start image u
        ≡ (true, final fmc start 200 (λ j. old) garbage vectors image old u)
  unfolding perform_upgrade xlink_crc16
  perform_upgrade_lem start image u target =
      let first = start_lem start image u target in
      let chip = erased fmc start 200 (λ j. old) garbage vectors image old u in
      let middle =
        send_chunks_lem start (length image) (omega arith) (length image) 0 0 xlink_init_crc16 image
          chip (omega arith) (omega arith) (omega arith) (omega arith) (omega arith) in
      let last =
        finalize_lem start image (final fmc start 200 (λ j. old) garbage vectors image old u) target
          refl in
      let begun : (send_start_upgrade device start (length image) u).0 ≡ true =
        ap (λ x. x.0) first in
      rw (perform_upgrade, begun, first, middle, last) refl
