-- ===== src/Crc/Bitwise.antt =====
-- The table-driven checksums of Crc.antt against the bit-at-a-time definition of a cyclic
-- redundancy check, for the polynomials of the two tables.
use gd32c103_bootloader.Common.{
  ℕ, ◌/◌, ◌%◌, ◌<◌, bit_xor, ◌≡◌, refl, sym, ap, ◌∙◌, arith, true, ◌==◌, ==_iff, if◌then◌else◌, ◌↔◌,
  ◌≢◌, List, [], ◌∷◌, get_or, All,
}
use gd32c103_bootloader.Bits.{xor_comm, xor_assoc, xor_injective, xor-zero, xor-lt}
use gd32c103_bootloader.Table.{all_below, all_below_sound}
use gd32c103_bootloader.Crc.Table16.{crc_table}
use gd32c103_bootloader.Crc.Table32.{crc32tab}
use gd32c103_bootloader.Crc.Register.{clocks, clocks_byte, xor_low_byte}
use gd32c103_bootloader.Crc.{crc16_step, crc32_step, crc32_loop, crc32_calculate}

-- The polynomials x^16 + x^12 + x^5 + 1 and the one of IEEE 802.3, lowest power in the top bit.
abbrev pub ccitt : ℕ
ccitt = 0x8408

abbrev pub ieee : ℕ
ieee = 0xEDB88320

-- A byte joins the low end of the register, and eight bits are clocked out.
abbrev pub crc_byte : ℕ → ℕ → ℕ → ℕ
crc_byte p crc byte = clocks p 8 (bit_xor crc byte)

-- The definition of the check: all bytes in order.
unfoldable pub crc : ℕ → List ℕ → ℕ → ℕ
crc p [] init = init
crc p (byte ∷ buf) init = crc p buf (crc_byte p init byte)

abbrev pub AreBytes : List ℕ → Type 0
AreBytes = All (λ b. b < 256)

-- In `crc_table` the four entries from 0x3C to 0x3F have one bit that it should not have.
abbrev pub defect : ℕ → ℕ
defect index = if index / 4 == 15 then 2 else 0

table16_checks :
    all_below 256 (λ x. get_or crc_table x 0 == bit_xor (clocks ccitt 8 x) (defect x)) ≡ true
unfolding all_below clocks
table16_checks = refl

table32_checks : all_below 256 (λ x. get_or crc32tab x 0 == clocks ieee 8 x) ≡ true
unfolding all_below clocks
table32_checks = refl

pub table16_entry : (x : ℕ) → x < 256 → get_or crc_table x 0 ≡ bit_xor (clocks ccitt 8 x) (defect x)
table16_entry x h = (==_iff _ _).0 (all_below_sound 256 _ x table16_checks h)

pub table32_entry : (x : ℕ) → x < 256 → get_or crc32tab x 0 ≡ clocks ieee 8 x
table32_entry x h = (==_iff _ _).0 (all_below_sound 256 _ x table32_checks h)

-- The parts of a register: what eight clocks leave in place, and the index into a table.
crc_byte_parts :
    (p crc byte : ℕ)
    → byte < 256
    → crc_byte p crc byte ≡ bit_xor (crc / 256) (clocks p 8 (bit_xor (crc % 256) byte))
crc_byte_parts p crc byte h =
    ap (λ (t : ℕ). crc_byte p t byte) (omega arith)
    ∙ clocks_byte p (crc / 256) (crc % 256) byte (omega arith) h

index_lt : (crc byte : ℕ) → byte < 256 → bit_xor (crc % 256) byte < 256
index_lt crc byte h = xor-lt 8 (crc % 256) byte (omega arith) h

-- The index into a table that a round of either loop uses.
abbrev pub table_index : ℕ → ℕ → ℕ
table_index crc byte = bit_xor (crc % 256) byte

crc16_step_lem :
    (init byte : ℕ)
    → byte < 256
    → crc16_step init byte ≡ bit_xor (crc_byte ccitt init byte) (defect (table_index init byte))
unfolding crc16_step
crc16_step_lem init byte h =
    let index : bit_xor byte (init % 256) % 256 ≡ table_index init byte =
      omega (arith, xor_comm byte (init % 256), index_lt init byte h) in
    ap (bit_xor (init / 256)) (
      ap (λ (t : ℕ). get_or crc_table t 0) index
      ∙ table16_entry (table_index init byte) (index_lt init byte h))
    ∙ sym (xor_assoc (init / 256) _ _)
    ∙ ap (λ (t : ℕ). bit_xor t (defect (table_index init byte)))
        (sym (crc_byte_parts ccitt init byte h))

-- The low byte of an exclusive or with a byte.
low_byte-xor : (crc byte : ℕ) → byte < 256 → bit_xor crc byte % 256 ≡ bit_xor (crc % 256) byte
low_byte-xor crc byte h = omega (arith, xor_low_byte crc byte h, index_lt crc byte h)

crc32_step_lem : (crc byte : ℕ) → byte < 256 → crc32_step crc byte ≡ crc_byte ieee crc byte
unfolding crc32_step
crc32_step_lem crc byte h =
    ap (λ (t : ℕ). bit_xor (get_or crc32tab t 0) (crc / 256)) (low_byte-xor crc byte h)
    ∙ xor_comm _ _
    ∙ ap (bit_xor (crc / 256)) (table32_entry (bit_xor (crc % 256) byte) (index_lt crc byte h))
    ∙ sym (crc_byte_parts ieee crc byte h)

-- A round of the checksum of frames over a byte is a round of the check of the polynomial
-- x^16 + x^12 + x^5 + 1 exactly when its index into the table is not one of 0x3C to 0x3F.
pub crc16_step-eq-crc_byte_iff :
    (init byte : ℕ)
    → byte < 256
    → (crc16_step init byte ≡ crc_byte ccitt init byte) ↔ (table_index init byte / 4 ≢ 15)
crc16_step-eq-crc_byte_iff init byte h = (
  λ e q. absurd (differs e q),
  λ q.
      crc16_step_lem init byte h
      ∙ ap (bit_xor (crc_byte ccitt init byte)) (ground arith)
      ∙ xor-zero (crc_byte ccitt init byte),
)
  where
    differs : crc16_step init byte ≡ crc_byte ccitt init byte → table_index init byte / 4 ≡ 15 → ⊥
    differs e q =
        let d : defect (table_index init byte) ≡ 0 =
          xor_injective (crc_byte ccitt init byte) _ _
            (sym (crc16_step_lem init byte h) ∙ e ∙ sym (xor-zero (crc_byte ccitt init byte))) in
        ground (arith, d, q)

crc32_loop_lem : (buf : List ℕ) (c : ℕ) → AreBytes buf → crc32_loop buf c ≡ crc ieee buf c
unfolding crc32_loop crc
crc32_loop_lem [] c h = refl
crc32_loop_lem (byte ∷ buf) c h =
    crc32_loop_lem buf (crc32_step c byte) h.1 ∙ ap (crc ieee buf) (crc32_step_lem c byte h.0)

-- The checksum of images is, over bytes, the check of the polynomial of IEEE 802.3 from any
-- initial value, its bits inverted at the end.
pub crc32_calculate-eq-crc :
    (buf : List ℕ) (c : ℕ)
    → AreBytes buf
    → crc32_calculate buf c ≡ bit_xor (crc ieee buf c) 0xFFFFFFFF
unfolding crc32_calculate
crc32_calculate-eq-crc buf c h = ap (λ (t : ℕ). bit_xor t 0xFFFFFFFF) (crc32_loop_lem buf c h)
