-- ===== src/Upgrade/Padded.antt =====
-- What stands in the receiver's buffer behind a message of an upgrade makes no difference to the
-- callbacks of src/upgrade.c.
use mathlib.Core.List.{append-nil}
use gd32c103_bootloader.Common.{
  ℕ, zero, suc, ◌+◌, ◌*◌, ◌/◌, ◌≤◌, ◌≡◌, ◌⊎◌, inl, inr, refl, ap, arith, List, [], ◌∷◌, ◌++◌, drop,
  length, length-drop, u32,
}
use gd32c103_bootloader.Flash.Controller.{Fmc}
use gd32c103_bootloader.Flash.{first_word, program_loop}
use gd32c103_bootloader.Upgrade.Chunk.{chunk_buffer, get_or-append, take-append, take-length}
use gd32c103_bootloader.Upgrade.{
  Upgrade, Sent, upgrade_callback, start_firmware_upgrade_cb, firmware_chunk_cb,
  finalize_firmware_upgrade_cb, restart_device_cb, msg_id_restart_device, msg_id_get_firmware_info,
  get_firmware_info_cb, get_u32, put_u32, msg_id_start_firmware_upgrade, msg_id_firmware_chunk,
  msg_id_finalize_firmware_upgrade,
}

drop-append {ℓ} :
    {A : Type ℓ} (n : ℕ) (xs ys : List A) → n ≤ length xs → drop n (xs ++ ys) ≡ drop n xs ++ ys
drop-append zero xs ys h = refl
drop-append (suc n) [] ys h = absurd (omega arith)
drop-append (suc n) (x ∷ xs) ys h = drop-append n xs ys (omega arith)

first_word-append : (xs ys : List ℕ) → 4 ≤ length xs → first_word (xs ++ ys) ≡ first_word xs
first_word-append xs ys h =
    rw
      (
        get_or-append xs ys 0 0 (omega arith),
        get_or-append xs ys 1 0 (omega arith),
        get_or-append xs ys 2 0 (omega arith),
        get_or-append xs ys 3 0 (omega arith),
      )
      refl

get_u32-append : (xs ys : List ℕ) (i : ℕ) → i + 4 ≤ length xs → get_u32 (xs ++ ys) i ≡ get_u32 xs i
get_u32-append xs ys i h =
    rw
      (
        get_or-append xs ys i 0 (omega arith),
        get_or-append xs ys (i + 1) 0 (omega arith),
        get_or-append xs ys (i + 2) 0 (omega arith),
        get_or-append xs ys (i + 3) 0 (omega arith),
      )
      refl

-- A message that has all the bytes that its callback reads.
abbrev pub IsWhole : Sent → Type 0
IsWhole (msg_id, payload) =
    ((msg_id ≡ msg_id_start_firmware_upgrade) × (length payload ≡ 12))
    ⊎ (((msg_id ≡ msg_id_firmware_chunk)
          × ((k : ℕ) × (bytes : List ℕ) × (payload ≡ chunk_buffer k bytes [])))
        ⊎ (((msg_id ≡ msg_id_finalize_firmware_upgrade) × (length payload ≡ 4))
            ⊎ ((msg_id ≡ msg_id_restart_device)
                ⊎ ((msg_id ≡ msg_id_get_firmware_info) × (length payload ≡ 1)))))

module _ (fmc : Fmc) where
  program_loop-append :
      (left address : ℕ) (xs ys : List ℕ) (s : fmc.State)
      → 4 * left ≤ length xs
      → program_loop fmc left address (xs ++ ys) s ≡ program_loop fmc left address xs s
  unfolding program_loop
  program_loop-append zero address xs ys s h = refl
  program_loop-append (suc left) address xs ys s h =
      let len = length-drop 4 xs in
      rw (first_word-append xs ys (omega arith), drop-append 4 xs ys (omega arith))
        (program_loop-append left _ (drop 4 xs) ys _ (omega (arith, len)))

  chunk-padded :
      (k : ℕ) (bytes behind : List ℕ) (u : Upgrade fmc)
      → firmware_chunk_cb fmc (chunk_buffer k bytes behind) u
        ≡ firmware_chunk_cb fmc (chunk_buffer k bytes []) u
  unfolding firmware_chunk_cb
  chunk-padded k bytes behind u =
      let address = u32 (u.start_address + get_u32 (put_u32 k) 0 * u.chunk_size) in
      rw
        (
          append-nil bytes,
          program_loop-append (length bytes / 4) address bytes behind (fmc.unlock u.chip.flash)
              (omega arith),
          take-append bytes behind,
          take-length bytes,
        )
        refl

  module _ (garbage vectors : ℕ) where
    pub upgrade_callback-padded :
        (msg_id : ℕ) (payload behind : List ℕ) (u : Upgrade fmc)
        → IsWhole (msg_id, payload)
        → upgrade_callback fmc garbage vectors msg_id (payload ++ behind) u
          ≡ upgrade_callback fmc garbage vectors msg_id payload u
    unfolding upgrade_callback start_firmware_upgrade_cb finalize_firmware_upgrade_cb
        restart_device_cb get_firmware_info_cb
    upgrade_callback-padded m p behind u (inl (e, len)) =
        rw
          (
            e,
            get_u32-append p behind 0 (omega arith),
            get_u32-append p behind 4 (omega arith),
            get_u32-append p behind 8 (omega arith),
          )
          refl
    upgrade_callback-padded m p behind u (inr (inl (e, (k, bytes, same)))) =
        let joined : chunk_buffer k bytes [] ++ behind ≡ chunk_buffer k bytes behind =
          ap (λ l. put_u32 k ++ (length bytes ∷ (l ++ behind))) (append-nil bytes) in
        rw (e, same, joined) (chunk-padded k bytes behind u)
    upgrade_callback-padded m p behind u (inr (inr (inl (e, len)))) =
        rw (e, get_u32-append p behind 0 (omega arith)) refl
    upgrade_callback-padded m p behind u (inr (inr (inr (inl e)))) = rw e refl
    upgrade_callback-padded m p behind u (inr (inr (inr (inr (e, len))))) =
        rw (e, get_or-append p behind 0 0 (omega arith)) refl
