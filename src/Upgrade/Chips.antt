-- ===== src/Upgrade/Chips.antt =====
-- The flash after a run of chunks of one length, the last of which may be shorter.
use Prim.Native.Nat.{min}
use native.Mathlib.Decide.{dec_lt}
use gd32c103_bootloader.Common.{
  ℕ, zero, suc, ◌+◌, ◌-◌, ◌*◌, ◌/◌, ◌%◌, ◌≤◌, ◌<◌, ◌≡◌, refl, ap, ◌∙◌, arith, true, false, List, [],
  ◌∷◌, ◌++◌, take, drop, length, length-take, length-drop, get_or, get_or-drop, All-take, All-drop,
  All-append,
}
use gd32c103_bootloader.Crc.Bitwise.{AreBytes}
use gd32c103_bootloader.Flash.Controller.{Fmc, flash_start, flash_end, is_within}
use gd32c103_bootloader.Flash.Check.{IsErased}
use gd32c103_bootloader.Flash.Program.{fmc_program_data-programs, fmc_program_data-keeps}
use gd32c103_bootloader.Flash.{Chip}
use gd32c103_bootloader.Upgrade.Chunk.{programmed, get_or-append}

get_or-take {ℓ} :
    {A : Type ℓ} (n : ℕ) (xs : List A) (i : ℕ) (d : A)
    → i < n
    → get_or (take n xs) i d ≡ get_or xs i d
get_or-take zero xs i d h = absurd (omega arith)
get_or-take (suc n) [] i d h = refl
get_or-take (suc n) (x ∷ xs) zero d h = refl
get_or-take (suc n) (x ∷ xs) (suc i) d h = get_or-take n xs i d (omega arith)

-- A block of an image in the main flash, at a distance from the image's start.
abbrev pub IsBlock : ℕ → ℕ → ℕ → Type 0
IsBlock start o len =
    (flash_start ≤ start) × (start % 4 ≡ 0) × (o % 4 ≡ 0) × (start + o + len ≤ flash_end)

-- The lengths of chunks: a multiple of the word, and short enough for a message.
abbrev pub IsChunkSize : ℕ → Type 0
IsChunkSize cs = (0 < cs) × (cs % 4 ≡ 0) × (cs ≤ 245)

-- `behind k` is what stood in the receiver's buffer behind the message of chunk `k`.
module _ (fmc : Fmc) (start size cs : ℕ) (behind : ℕ → List ℕ) where
  open fmc use {byte}

  -- The chip after the rest of an image, from chunk `k` on.
  unfoldable pub uploaded : ℕ → ℕ → ℕ → List ℕ → Chip fmc → Chip fmc
  uploaded zero k o rest chip = chip
  uploaded (suc left) k o [] chip = chip
  uploaded (suc left) k o (x ∷ rest) chip =
      uploaded left (k + 1) (o + cs) (drop cs (x ∷ rest))
        (programmed fmc start size cs o (take cs (x ∷ rest)) (behind k) chip)

  uploaded-nil :
      (left k o : ℕ) (rest : List ℕ) (chip : Chip fmc)
      → length rest ≡ 0
      → uploaded left k o rest chip ≡ chip
  unfolding uploaded
  uploaded-nil zero k o rest chip h = refl
  uploaded-nil (suc left) k o [] chip h = refl
  uploaded-nil (suc left) k o (x ∷ rest) chip h = absurd (omega (arith, h))

  module _ (chunked : IsChunkSize cs) where
    programmed-keeps :
        (k o : ℕ) (rest : List ℕ) (chip : Chip fmc) (a : ℕ)
        → IsBlock start o (length rest)
        → is_within (start + o) (min cs (length rest)) a ≡ false
        → byte (programmed fmc start size cs o (take cs rest) (behind k) chip).flash a
          ≡ byte chip.flash a
    programmed-keeps k o rest chip a h out =
        let len = length-take cs rest in
        fmc_program_data-keeps fmc (start + o) (length (take cs rest)) (take cs rest ++ behind k)
          chip a (omega (arith, len)) (ground (arith, len))

    pub uploaded-keeps :
        (left k o : ℕ) (rest : List ℕ) (chip : Chip fmc) (a : ℕ)
        → IsBlock start o (length rest)
        → is_within (start + o) (length rest) a ≡ false
        → byte (uploaded left k o rest chip).flash a ≡ byte chip.flash a
    unfolding uploaded
    uploaded-keeps zero k o rest chip a h out = refl
    uploaded-keeps (suc left) k o [] chip a h out = refl
    uploaded-keeps (suc left) k o (x ∷ rest) chip a h out =
        let len = length-drop cs (x ∷ rest) in
        elim (dec_lt cs (length (x ∷ rest))) [
          | yes more ↦
              uploaded-keeps left (k + 1) (o + cs) (drop cs (x ∷ rest)) _ a (omega (arith, len))
                (ground (arith, len))
              ∙ programmed-keeps k o (x ∷ rest) chip a h (ground arith)
          | no last ↦
              let none_left : length (drop cs (x ∷ rest)) ≡ 0 = omega (arith, len) in
              ap (λ (c : Chip fmc). byte c.flash a)
                (uploaded-nil left (k + 1) (o + cs) (drop cs (x ∷ rest)) _ none_left)
              ∙ programmed-keeps k o (x ∷ rest) chip a h (ground arith)
        ]

    -- The first chunk's bytes, up to whole words.
    programmed-programs :
        (k o : ℕ) (rest : List ℕ) (chip : Chip fmc) (i : ℕ)
        → IsBlock start o (length rest)
        → AreBytes rest
        → AreBytes (behind k)
        → IsErased fmc chip.flash (start + o) (length rest)
        → i < cs
        → i < 4 * (length rest / 4)
        → byte (programmed fmc start size cs o (take cs rest) (behind k) chip).flash (start + o + i)
          ≡ get_or rest i 0
    programmed-programs k o rest chip i h hb hk e near inside =
        let len = length-take cs rest in
        let bytes =
          All-append (λ (b : ℕ). b < 256) (take cs rest) (behind k)
            (All-take (λ (b : ℕ). b < 256) cs rest hb) hk in
        (fmc_program_data-programs fmc (start + o) (length (take cs rest))
          (take cs rest ++ behind k) chip i (omega (arith, len)) bytes
          (λ (a : ℕ) (w : is_within (start + o) (4 * (length (take cs rest) / 4)) a ≡ true).
            e a (ground (arith, len)))
          (omega (arith, len))).0
        ∙ get_or-append (take cs rest) (behind k) i 0 (omega (arith, len))
        ∙ get_or-take cs rest i 0 near

    -- With enough chunks for it, the whole rest of the image is programmed, up to whole words.
    pub uploaded-programs :
        (left k o : ℕ) (rest : List ℕ) (chip : Chip fmc) (i : ℕ)
        → length rest ≤ left
        → IsBlock start o (length rest)
        → AreBytes rest
        → ((j : ℕ) → AreBytes (behind j))
        → IsErased fmc chip.flash (start + o) (length rest)
        → i < 4 * (length rest / 4)
        → byte (uploaded left k o rest chip).flash (start + o + i) ≡ get_or rest i 0
    unfolding uploaded
    uploaded-programs zero k o rest chip i enough h hb hk e inside = absurd (omega arith)
    uploaded-programs (suc left) k o [] chip i enough h hb hk e inside = absurd (omega arith)
    uploaded-programs (suc left) k o (x ∷ rest) chip i enough h hb hk e inside =
        let len = length-drop cs (x ∷ rest) in
        let next = drop cs (x ∷ rest) in
        elim (dec_lt i cs) [
          | yes near ↦ elim (dec_lt cs (length (x ∷ rest))) [
            | yes more ↦
                uploaded-keeps left (k + 1) (o + cs) next _ (start + o + i) (omega (arith, len))
                  (ground (arith, len))
                ∙ programmed-programs k o (x ∷ rest) chip i h hb (hk k) e near inside
            | no last ↦
                let none_left : length (drop cs (x ∷ rest)) ≡ 0 = omega (arith, len) in
                ap (λ (c : Chip fmc). byte c.flash (start + o + i))
                  (uploaded-nil left (k + 1) (o + cs) next _ none_left)
                ∙ programmed-programs k o (x ∷ rest) chip i h hb (hk k) e near inside
          ]
          | no far ↦
              let at : start + o + i ≡ start + (o + cs) + (i - cs) = omega arith in
              let kept : IsErased fmc
                  (programmed fmc start size cs o (take cs (x ∷ rest)) (behind k) chip).flash
                  (start + (o + cs)) (length next) =
                λ a w.
                  programmed-keeps k o (x ∷ rest) chip a h (ground (arith, len))
                  ∙ e a (ground (arith, len)) in
              ap
                (byte
                  (uploaded left (k + 1) (o + cs) next
                    (programmed fmc start size cs o (take cs (x ∷ rest)) (behind k) chip)).flash)
                at
              ∙ uploaded-programs left (k + 1) (o + cs) next _ (i - cs) (omega (arith, len))
                  (omega (arith, len)) (All-drop (λ (b : ℕ). b < 256) cs (x ∷ rest) hb) hk kept
                  (omega (arith, len))
              ∙ get_or-drop cs (i - cs) (x ∷ rest) 0
              ∙ (let back : cs + (i - cs) ≡ i = omega arith in
                  ap (λ (j : ℕ). get_or (x ∷ rest) j 0) back)
        ]
