-- ===== src/Upgrade/Image.antt =====
-- What a whole upgrade, as `perform_upgrade` of upgrade.cpp sends it, leaves in the flash.
use gd32c103_bootloader.Common.{
  ℕ, zero, suc, ◌+◌, ◌*◌, ◌/◌, ◌%◌, ◌≤◌, ◌<◌, ◌≡◌, refl, sym, ap, ◌∙◌, arith, true, false, ==_iff,
  List, [], ◌∷◌, ◌++◌, take, length, get_or, u32, Option, none, some,
}
use gd32c103_bootloader.Crc.{xlink_init_crc16, xlink_crc16_with_init, xlink_crc16}
use gd32c103_bootloader.Crc.Bitwise.{AreBytes}
use gd32c103_bootloader.Crc.Detect.{crc16-lt}
use gd32c103_bootloader.Flash.Controller.{Fmc, flash_start, flash_end, is_within}
use gd32c103_bootloader.Flash.Erase.{
  NeverFails, ArePages, fmc_erase_pages-erases, fmc_erase_pages-keeps,
}
use gd32c103_bootloader.Flash.Check.{IsErased}
use gd32c103_bootloader.Flash.{Chip, fmc_erase_pages, size_to_pages}
use gd32c103_bootloader.Boot.{region}
use gd32c103_bootloader.Upgrade.Chunk.{during, word_of-put_u32}
use gd32c103_bootloader.Upgrade.Chips.{IsChunkSize, uploaded, uploaded-keeps, uploaded-programs}
use gd32c103_bootloader.Upgrade.Session.{
  chunks, chunk_messages, acceptances, serve-chunks, serve-returned,
}
use gd32c103_bootloader.Upgrade.{
  Upgrade, Outcome, Sent, upgrade_callback, serve, sending, put_bool, msg_id_start_firmware_upgrade,
  msg_id_start_firmware_upgrade_response, msg_id_finalize_firmware_upgrade,
  msg_id_finalize_firmware_upgrade_response, start_firmware_upgrade_payload,
  finalize_firmware_upgrade_payload,
}

-- Where an image may go: from the start of a page to no further than the end of the main flash.
abbrev pub IsTarget : ℕ → ℕ → Type 0
IsTarget start size = (flash_start ≤ start) × (start % 1024 ≡ 0) × (start + size ≤ flash_end)

pub size_to_pages_lem :
    (start size : ℕ)
    → IsTarget start size
    → ArePages start (size_to_pages size) × (size ≤ 1024 * size_to_pages size)
unfolding size_to_pages
size_to_pages_lem start size h = omega arith

region-take :
    (m : ℕ → ℕ) (a n : ℕ) (l : List ℕ)
    → a + n ≤ 4294967296
    → n ≤ length l
    → ((i : ℕ) → i < n → m (a + i) ≡ get_or l i 0)
    → region m a n ≡ take n l
region-take m a zero l h le e = refl
region-take m a (suc n) [] h le e = absurd (omega arith)
region-take m a (suc n) (x ∷ l) h le e =
    let here : u32 a ≡ a + 0 = omega arith in
    rw (here, e 0 (omega arith))
      (ap (λ t. x ∷ t)
        (region-take m (a + 1) n l (omega arith) (omega arith) (λ i lt.
          (let at : a + 1 + i ≡ a + suc i = omega arith in ap m at) ∙ e (suc i) (omega arith))))

-- The messages of an upgrade, as they stand in the receiver's buffer; `behind` and `old` are
-- what stood there behind them.
unfoldable pub session : ℕ → ℕ → (ℕ → List ℕ) → List ℕ → List ℕ → List Sent
unfolding chunks start_firmware_upgrade_payload finalize_firmware_upgrade_payload
session start cs behind old image =
    (msg_id_start_firmware_upgrade, start_firmware_upgrade_payload start (length image) cs ++ old)
      ∷ chunk_messages behind (chunks (length image) cs 0 image)
    ++ ((
      msg_id_finalize_firmware_upgrade,
      finalize_firmware_upgrade_payload (xlink_crc16 image) ++ old,
    )
        ∷ [])

module _ (fmc : Fmc) (start cs : ℕ) (behind : ℕ → List ℕ) (garbage vectors : ℕ)
    (image old : List ℕ) where
  open fmc use {byte}

  -- The chip once the pages are erased, and once the image is there.
  abbrev pub erased : Upgrade fmc → Chip fmc
  erased u = fmc_erase_pages fmc start (size_to_pages (length image)) u.chip

  abbrev pub final : Upgrade fmc → Upgrade fmc
  final u =
      during fmc start (length image) cs (xlink_crc16 image)
        (uploaded fmc start (length image) cs behind (length image) 0 0 image (erased u))

  -- What the device answers in an upgrade in which nothing goes wrong.
  abbrev pub answers : List Sent
  answers =
      (msg_id_start_firmware_upgrade_response, put_bool true)
        ∷ acceptances fmc start (length image) cs behind garbage vectors
            (chunks (length image) cs 0 image)
      ++ ((msg_id_finalize_firmware_upgrade_response, put_bool true) ∷ [])

  module _ (target : IsTarget start (length image)) (chunked : IsChunkSize cs) where
    pub started :
        (u : Upgrade fmc)
        → upgrade_callback fmc garbage vectors msg_id_start_firmware_upgrade
            (start_firmware_upgrade_payload start (length image) cs ++ old)
            u
          ≡ Outcome.returned 0
              ((msg_id_start_firmware_upgrade_response, put_bool true) ∷ [])
              (during fmc start (length image) cs xlink_init_crc16 (erased u))
    unfolding upgrade_callback start_firmware_upgrade_payload
    started u =
        rw
          (
            word_of-put_u32 start (omega arith),
            word_of-put_u32 (length image) (omega arith),
            word_of-put_u32 cs (omega arith),
          )
          refl

    pub finished :
        (u : Upgrade fmc)
        → u.check_crc32 ≡ xlink_crc16 image
        → upgrade_callback fmc garbage vectors msg_id_finalize_firmware_upgrade
            (finalize_firmware_upgrade_payload (xlink_crc16 image) ++ old)
            u
          ≡ Outcome.returned 0 ((msg_id_finalize_firmware_upgrade_response, put_bool true) ∷ []) u
    unfolding upgrade_callback finalize_firmware_upgrade_payload xlink_crc16
    finished u e =
        let small = crc16-lt image xlink_init_crc16 (omega arith) in
        let same = (==_iff u.check_crc32 u.check_crc32).1 refl in
        rw
          (
            word_of-put_u32 (xlink_crc16_with_init image xlink_init_crc16) (omega (arith, small)),
            ← e,
            same,
          )
          refl

    pub served :
        (u : Upgrade fmc)
        → serve fmc garbage vectors (session start cs behind old image) u ≡ some (answers, final u)
    unfolding session serve xlink_crc16
    served u =
        let last : List Sent =
          (
            msg_id_finalize_firmware_upgrade,
            finalize_firmware_upgrade_payload (xlink_crc16 image) ++ old,
          )
          ∷ [] in
        let all = chunks (length image) cs 0 image in
        let replies = acceptances fmc start (length image) cs behind garbage vectors all in
        serve-returned fmc start (length image) cs behind garbage vectors
          msg_id_start_firmware_upgrade
          (start_firmware_upgrade_payload start (length image) cs ++ old)
          (chunk_messages behind all ++ last) _ u _ (started u)
        ∙ ap (sending fmc ((msg_id_start_firmware_upgrade_response, put_bool true) ∷ [])) (
            serve-chunks fmc start (length image) cs behind garbage vectors chunked (omega arith)
              (length image) 0 0 xlink_init_crc16 image (erased u) last (omega arith) (omega arith)
              (omega arith) (omega arith) (omega arith)
            ∙ ap (sending fmc replies) (
                serve-returned fmc start (length image) cs behind garbage vectors
                  msg_id_finalize_firmware_upgrade
                  (finalize_firmware_upgrade_payload (xlink_crc16 image) ++ old) [] _ (final u) _
                  (finished (final u) refl)))

    pub final-programs :
        (u : Upgrade fmc) (i : ℕ)
        → NeverFails fmc
        → AreBytes image
        → ((j : ℕ) → AreBytes (behind j))
        → i < 4 * (length image / 4)
        → byte (final u).chip.flash (start + i) ≡ get_or image i 0
    final-programs u i ready hb hk lt =
        let (pages, fits) = size_to_pages_lem start (length image) target in
        let e : IsErased fmc (erased u).flash (start + 0) (length image) = λ a w.
          fmc_erase_pages-erases fmc start (size_to_pages (length image)) u.chip a ready pages
            (ground (arith, fits)) in
        (let at : start + i ≡ start + 0 + i = omega arith in ap (byte (final u).chip.flash) at)
        ∙ uploaded-programs fmc start (length image) cs behind chunked (length image) 0 0 image
            (erased u) i (omega arith) (omega arith) hb hk e lt

    -- An upgrade of an image of bytes, from the start of a page to within the main flash, in chunks
    -- whose length is a positive multiple of 4 up to 245, with a controller that reports no error:
    -- the device accepts the start and every chunk and reports success at the end, and then the
    -- flash from the start on reads as the image, up to its last whole word. What bytes stood in
    -- the receiver's buffer behind the messages makes no difference.
    pub serve-session :
        (u : Upgrade fmc)
        → NeverFails fmc
        → AreBytes image
        → ((j : ℕ) → AreBytes (behind j))
        → (u' : Upgrade fmc) × ((serve fmc garbage vectors (session start cs behind old image) u
              ≡ some (answers, u'))
            × (region (byte u'.chip.flash) start (4 * (length image / 4))
                ≡ take (4 * (length image / 4)) image))
    serve-session u ready hb hk = (
      final u,
      (
        served u,
        region-take (byte (final u).chip.flash) start _ image (omega arith) (omega arith)
            (λ i lt. final-programs u i ready hb hk lt),
      ),
    )

    -- An upgrade of an image, from the start of a page to within the main flash, in chunks whose
    -- length is a positive multiple of 4 up to 245, changes no byte of the flash outside the pages
    -- that hold the image, also if the controller reports an error.
    pub serve-session-keeps :
        (u u' : Upgrade fmc) (sent : List Sent) (a : ℕ)
        → serve fmc garbage vectors (session start cs behind old image) u ≡ some (sent, u')
        → is_within start (1024 * size_to_pages (length image)) a ≡ false
        → byte u'.chip.flash a ≡ byte u.chip.flash a
    serve-session-keeps u u' sent a e out =
        let (pages, fits) = size_to_pages_lem start (length image) target in
        let same : u' ≡ final u =
          ap (λ (o : Option (List Sent × Upgrade fmc)). result o) (sym e ∙ served u) in
        ap (λ (v : Upgrade fmc). byte v.chip.flash a) same
        ∙ uploaded-keeps fmc start (length image) cs behind chunked (length image) 0 0 image
            (erased u) a (omega arith) (ground (arith, fits))
        ∙ fmc_erase_pages-keeps fmc start (size_to_pages (length image)) u.chip a pages out
      where
        result : Option (List Sent × Upgrade fmc) → Upgrade fmc
        result none = u
        result (some (l, v)) = v
