-- ===== src/Crc/Detect.antt =====
-- What the two checksums detect: over a message of a given length neither loses a wrong byte.
use gd32c103_bootloader.Common.{
  set, zero, ℕ, suc, ◌/◌, ◌%◌, ◌^◌, ◌<◌, bit_xor, ◌≡◌, refl, sym, ap, ◌∙◌, arith, true, ◌==◌,
  ==_iff, if◌then◌else◌, ltb, ltb→lt, List, [], ◌∷◌, ◌++◌, get_or, u8,
}
use gd32c103_bootloader.Bits.{xor_comm, xor_injective, xor-lt}
use gd32c103_bootloader.Table.{all_below, all_below_sound}
use gd32c103_bootloader.Crc.Table16.{crc_table}
use gd32c103_bootloader.Crc.Register.{clocks, clocks_injective, clocks-lt, xor_low_byte}
use gd32c103_bootloader.Crc.Bitwise.{AreBytes, crc, crc_byte, ieee, crc32_calculate-eq-crc}
use gd32c103_bootloader.Crc.{crc16_step, xlink_crc16_with_init, crc32_calculate}

-- The checksum of a message is that of its second part, started from that of the first.
pub crc16-append :
    (xs ys : List ℕ) (init : ℕ)
    → xlink_crc16_with_init (xs ++ ys) init
      ≡ xlink_crc16_with_init ys (xlink_crc16_with_init xs init)
unfolding xlink_crc16_with_init
crc16-append [] ys init = refl
crc16-append (x ∷ xs) ys init = crc16-append xs ys (crc16_step init x)

-- The position of the first entry of a table with the given high byte.
position : List ℕ → ℕ → ℕ
position [] high = 0
position (x ∷ xs) high = if x / 256 == high then 0 else suc (position xs high)

-- The high byte of an entry of `crc_table` determines its index, and no entry exceeds 16 bits.
positions : all_below 256 (λ i. position crc_table (get_or crc_table i 0 / 256) == i) ≡ true
unfolding all_below position
positions = refl

entries_fit : all_below 256 (λ i. ltb (get_or crc_table i 0) 65536) ≡ true
unfolding all_below
entries_fit = refl

abbrev entry : ℕ → ℕ
entry i = get_or crc_table i 0

entry-lt : (i : ℕ) → i < 256 → entry i < 65536
entry-lt i h = ltb→lt _ _ (all_below_sound 256 _ i entries_fit h)

entry_injective : (i j : ℕ) → i < 256 → j < 256 → entry i / 256 ≡ entry j / 256 → i ≡ j
entry_injective i j hi hj e =
    sym ((==_iff _ _).0 (all_below_sound 256 _ i positions hi))
    ∙ ap (position crc_table) e
    ∙ (==_iff _ _).0 (all_below_sound 256 _ j positions hj)

abbrev index : ℕ → ℕ → ℕ
index s byte = u8 (bit_xor byte (u8 s))

index_lem : (s byte : ℕ) → byte < 256 → index s byte ≡ bit_xor byte (u8 s)
index_lem s byte h = omega (arith, xor-lt 8 byte (u8 s) h (omega arith))

pub crc16_step-lt : (s byte : ℕ) → s < 65536 → crc16_step s byte < 65536
unfolding crc16_step
crc16_step-lt s byte h =
    xor-lt 16 (s / 256) (entry (index s byte)) (omega arith) (entry-lt (index s byte) (omega arith))

pub crc16-lt : (buf : List ℕ) (s : ℕ) → s < 65536 → xlink_crc16_with_init buf s < 65536
unfolding xlink_crc16_with_init
crc16-lt [] s h = h
crc16-lt (x ∷ buf) s h = crc16-lt buf (crc16_step s x) (crc16_step-lt s x h)

-- The high byte of the next state is that of the entry.
step_high : (s byte : ℕ) → s < 65536 → crc16_step s byte / 256 ≡ entry (index s byte) / 256
unfolding crc16_step
step_high s byte h =
    let e = entry (index s byte) in
    omega (
      arith,
      xor_comm (s / 256) e,
      xor_low_byte e (s / 256) (omega arith),
      xor-lt 8 (e % 256) (s / 256) (omega arith) (omega arith),
    )

-- Two rounds with one result have the same index and the same high byte of the state.
step_inverts :
    (s t a b : ℕ)
    → s < 65536
    → t < 65536
    → crc16_step s a ≡ crc16_step t b
    → (index s a ≡ index t b) × (s / 256 ≡ t / 256)
step_inverts s t a b hs ht e = (same, high)
  where
    same : index s a ≡ index t b
    same =
        entry_injective (index s a) (index t b) (omega arith) (omega arith)
          (sym (step_high s a hs) ∙ ap (λ (x : ℕ). x / 256) e ∙ step_high t b ht)

    high : s / 256 ≡ t / 256
    high = xor_injective (entry (index t b)) (s / 256) (t / 256) (
        xor_comm _ (s / 256)
        ∙ sym (ap (λ (i : ℕ). bit_xor (s / 256) (entry i)) same)
        ∙ unfold crc16_step in e ∙ xor_comm (t / 256) _)

step_injective :
    (s t byte : ℕ)
    → byte < 256
    → s < 65536
    → t < 65536
    → crc16_step s byte ≡ crc16_step t byte
    → s ≡ t
step_injective s t byte hb hs ht e =
    let p = step_inverts s t byte byte hs ht e in
    let low : u8 s ≡ u8 t =
      xor_injective byte (u8 s) (u8 t) (sym (index_lem s byte hb) ∙ p.0 ∙ index_lem t byte hb) in
    omega (arith, low, p.1)

step_byte_injective :
    (s a b : ℕ) → a < 256 → b < 256 → s < 65536 → crc16_step s a ≡ crc16_step s b → a ≡ b
step_byte_injective s a b ha hb hs e =
    let p = step_inverts s s a b hs hs e in
    xor_injective (u8 s) a b
      (xor_comm (u8 s) a ∙ sym (index_lem s a ha) ∙ p.0 ∙ index_lem s b hb ∙ xor_comm b (u8 s))

crc16_injective :
    (buf : List ℕ) (s t : ℕ)
    → AreBytes buf
    → s < 65536
    → t < 65536
    → xlink_crc16_with_init buf s ≡ xlink_crc16_with_init buf t
    → s ≡ t
unfolding xlink_crc16_with_init
crc16_injective [] s t h hs ht e = e
crc16_injective (x ∷ buf) s t h hs ht e = step_injective s t x h.0 hs ht (
    crc16_injective buf (crc16_step s x) (crc16_step t x) h.1 (crc16_step-lt s x hs)
      (crc16_step-lt t x ht) e)

-- Two messages of bytes that differ in one byte only have different 16-bit checksums, from any
-- initial value of 16 bits: if the checksum stays when a byte is written over one of the message,
-- the message stays.
pub crc16_detects :
    (buf : List ℕ) (i byte init : ℕ)
    → init < 65536
    → byte < 256
    → AreBytes buf
    → xlink_crc16_with_init (set buf i byte) init ≡ xlink_crc16_with_init buf init
    → set buf i byte ≡ buf
unfolding xlink_crc16_with_init
crc16_detects [] i byte init hi hb h e = refl
crc16_detects (x ∷ buf) zero byte init hi hb h e =
    ap (λ t. t ∷ buf)
      (step_byte_injective init byte x hb h.0 hi (
        crc16_injective buf (crc16_step init byte) (crc16_step init x) h.1
          (crc16_step-lt init byte hi) (crc16_step-lt init x hi) e))
crc16_detects (x ∷ buf) (suc i) byte init hi hb h e =
    ap (λ t. x ∷ t)
      (crc16_detects buf i byte (crc16_step init x) (crc16_step-lt init x hi) hb h.1 e)

-- The same of a round of the register for images.
image_injective : (x y : ℕ) → x < 2 ^ 32 → y < 2 ^ 32 → clocks ieee 8 x ≡ clocks ieee 8 y → x ≡ y
image_injective x y hx hy e = clocks_injective 31 ieee (omega arith) (omega arith) 8 x y hx hy e

crc_byte-lt : (s byte : ℕ) → s < 2 ^ 32 → byte < 256 → crc_byte ieee s byte < 2 ^ 32
crc_byte-lt s byte hs hb =
    clocks-lt 31 ieee (omega arith) 8 (bit_xor s byte) (xor-lt 32 s byte hs (omega arith))

image_state_injective :
    (buf : List ℕ) (s t : ℕ)
    → AreBytes buf
    → s < 2 ^ 32
    → t < 2 ^ 32
    → crc ieee buf s ≡ crc ieee buf t
    → s ≡ t
unfolding crc
image_state_injective [] s t h hs ht e = e
image_state_injective (x ∷ buf) s t h hs ht e =
    let same =
      image_state_injective buf (crc_byte ieee s x) (crc_byte ieee t x) h.1 (crc_byte-lt s x hs h.0)
        (crc_byte-lt t x ht h.0) e in
    let joined =
      image_injective (bit_xor s x) (bit_xor t x) (xor-lt 32 s x hs (omega (arith, h.0)))
        (xor-lt 32 t x ht (omega (arith, h.0))) same in
    xor_injective x s t (xor_comm x s ∙ joined ∙ xor_comm t x)

image_byte_injective :
    (s a b : ℕ) → s < 2 ^ 32 → a < 256 → b < 256 → crc_byte ieee s a ≡ crc_byte ieee s b → a ≡ b
image_byte_injective s a b hs ha hb e = xor_injective s a b (
    image_injective (bit_xor s a) (bit_xor s b) (xor-lt 32 s a hs (omega arith))
      (xor-lt 32 s b hs (omega arith)) e)

crc_detects :
    (buf : List ℕ) (i byte s : ℕ)
    → s < 2 ^ 32
    → byte < 256
    → AreBytes buf
    → crc ieee (set buf i byte) s ≡ crc ieee buf s
    → set buf i byte ≡ buf
unfolding crc
crc_detects [] i byte s hs hb h e = refl
crc_detects (x ∷ buf) zero byte s hs hb h e =
    ap (λ t. t ∷ buf)
      (image_byte_injective s byte x hs hb h.0 (
        image_state_injective buf (crc_byte ieee s byte) (crc_byte ieee s x) h.1
          (crc_byte-lt s byte hs hb) (crc_byte-lt s x hs h.0) e))
crc_detects (x ∷ buf) (suc i) byte s hs hb h e =
    ap (λ t. x ∷ t) (crc_detects buf i byte (crc_byte ieee s x) (crc_byte-lt s x hs h.0) hb h.1 e)

pub set-AreBytes :
    (buf : List ℕ) (i byte : ℕ) → byte < 256 → AreBytes buf → AreBytes (set buf i byte)
set-AreBytes [] i byte hb h = tt
set-AreBytes (x ∷ buf) zero byte hb h = (hb, h.1)
set-AreBytes (x ∷ buf) (suc i) byte hb h = (h.0, set-AreBytes buf i byte hb h.1)

-- Two images of bytes that differ in one byte only have different 32-bit checksums, from any
-- initial value of 32 bits: if the checksum stays when a byte is written over one of the image, the
-- image stays.
pub crc32_detects :
    (buf : List ℕ) (i byte init : ℕ)
    → init < 2 ^ 32
    → byte < 256
    → AreBytes buf
    → crc32_calculate (set buf i byte) init ≡ crc32_calculate buf init
    → set buf i byte ≡ buf
crc32_detects buf i byte init hi hb h e = crc_detects buf i byte init hi hb h (
    xor_injective 0xFFFFFFFF _ _ (
      xor_comm 0xFFFFFFFF _
      ∙ sym (crc32_calculate-eq-crc (set buf i byte) init (set-AreBytes buf i byte hb h))
      ∙ e
      ∙ crc32_calculate-eq-crc buf init h
      ∙ xor_comm _ 0xFFFFFFFF))

crc-lt : (buf : List ℕ) (s : ℕ) → AreBytes buf → s < 2 ^ 32 → crc ieee buf s < 2 ^ 32
unfolding crc
crc-lt [] s h hs = hs
crc-lt (x ∷ buf) s h hs = crc-lt buf (crc_byte ieee s x) h.1 (crc_byte-lt s x hs h.0)

pub crc32_calculate-lt : (buf : List ℕ) → AreBytes buf → crc32_calculate buf 0 < 4294967296
crc32_calculate-lt buf h =
    rw (crc32_calculate-eq-crc buf 0 h)
      (xor-lt 32 (crc ieee buf 0) 0xFFFFFFFF (crc-lt buf 0 h (omega arith)) (omega arith))
