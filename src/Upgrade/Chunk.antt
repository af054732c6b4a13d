-- ===== src/Upgrade/Chunk.antt =====
-- One chunk: what `FirmwareChunk_cb` of src/upgrade.c does with a chunk that fits the image.
use gd32c103_bootloader.Common.{
  ℕ, zero, suc, ◌+◌, ◌*◌, ◌/◌, ◌≤◌, ◌<◌, ◌≡◌, refl, ap, arith, true, false, ltb, List, [], ◌∷◌,
  ◌++◌, take, length, get_or, u8, u16, u32, some,
}
use gd32c103_bootloader.Crc.{xlink_crc16_with_init}
use gd32c103_bootloader.Flash.Controller.{Fmc}
use gd32c103_bootloader.Flash.{Chip, fmc_program_data, word_of}
use gd32c103_bootloader.Upgrade.{
  Upgrade, Outcome, firmware_chunk_cb, firmware_chunk_payload, firmware_chunk_response_payload,
  put_u32, Sent, msg_id_firmware_chunk_response,
}

pub take-append {ℓ} : {A : Type ℓ} (xs ys : List A) → take (length xs) (xs ++ ys) ≡ xs
take-append [] ys = refl
take-append (x ∷ xs) ys = ap (λ t. x ∷ t) (take-append xs ys)

pub take-length {ℓ} : {A : Type ℓ} (xs : List A) → take (length xs) xs ≡ xs
take-length [] = refl
take-length (x ∷ xs) = ap (λ t. x ∷ t) (take-length xs)

pub get_or-append {ℓ} :
    {A : Type ℓ} (xs ys : List A) (i : ℕ) (d : A)
    → i < length xs
    → get_or (xs ++ ys) i d ≡ get_or xs i d
get_or-append [] ys i d h = absurd (omega arith)
get_or-append (x ∷ xs) ys zero d h = refl
get_or-append (x ∷ xs) ys (suc i) d h = get_or-append xs ys i d (omega arith)

-- The four bytes of a number make it again.
pub word_of-put_u32 :
    (n : ℕ)
    → n < 4294967296
    → word_of (u8 n) (u8 (n / 256)) (u8 (n / 65536)) (u8 (n / 16777216)) ≡ n
word_of-put_u32 n h = omega arith

-- The buffer of the receiver after a chunk: the message, and what stood behind it.
abbrev pub chunk_buffer : ℕ → List ℕ → List ℕ → List ℕ
chunk_buffer k bytes behind = put_u32 k ++ (length bytes ∷ (bytes ++ behind))

-- The message is the one that `xlink_upgrade_firmware_chunk_send` makes.
pub firmware_chunk_payload-buffer :
    (k : ℕ) (bytes : List ℕ)
    → length bytes ≤ 245
    → firmware_chunk_payload k bytes (length bytes) ≡ some (put_u32 k ++ (length bytes ∷ bytes))
unfolding firmware_chunk_payload
firmware_chunk_payload-buffer k bytes h =
    let fits : ltb 245 (length bytes) ≡ false = ground arith in rw (fits, take-length bytes) refl

module _ (fmc : Fmc) (start size cs : ℕ) where
  -- The static variables during an upgrade, with the checksum so far.
  abbrev pub during : ℕ → Chip fmc → Upgrade fmc
  during sum chip = record {
    start_address = start;
    size_bytes = size;
    chunk_size = cs;
    check_crc32 = sum;
    chip = chip;
  }

  abbrev pub accepted : ℕ → Sent
  accepted k = (msg_id_firmware_chunk_response, firmware_chunk_response_payload k true)

  -- The chip after a chunk at a distance from the start.
  abbrev pub programmed : ℕ → List ℕ → List ℕ → Chip fmc → Chip fmc
  programmed o bytes behind chip =
      (fmc_program_data fmc (start + o) (bytes ++ behind) (length bytes) chip).1

  -- A chunk that lies inside the image is accepted: its bytes are programmed at its place and taken
  -- into the checksum.
  pub firmware_chunk_cb_lem :
      (k o sum : ℕ) (bytes behind : List ℕ) (chip : Chip fmc)
      → k * cs ≡ o
      → k < 4294967296
      → sum < 65536
      → length bytes ≤ 245
      → o + length bytes ≤ size
      → start + size < 4294967296
      → firmware_chunk_cb fmc (chunk_buffer k bytes behind) (during sum chip)
        ≡ Outcome.returned 0
            (accepted k ∷ [])
            (during (xlink_crc16_with_init bytes sum) (programmed o bytes behind chip))
  unfolding firmware_chunk_cb
  firmware_chunk_cb_lem k o sum bytes behind chip at small hs hl inside bound =
      let place : u32 (start + o) ≡ start + o = omega arith in
      let fits : ltb (u32 (start + size)) (u32 (start + o + length bytes)) ≡ false = ground arith in
      let short : ltb 245 (length bytes) ≡ false = ground arith in
      let whole : u16 sum ≡ sum = omega arith in
      rw (word_of-put_u32 k small, at, place, fits, short, whole, take-append bytes behind) refl
