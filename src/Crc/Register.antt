-- ===== src/Crc/Register.antt =====
-- The shift register that both checksums stand for: a reflected polynomial `p`, a bit at a time.
use native.Mathlib.Nat.{pow-suc}
use gd32c103_bootloader.Common.{
  ℕ, zero, suc, ◌+◌, ◌*◌, ◌/◌, ◌%◌, ◌^◌, ◌≤◌, ◌<◌, bit_xor, ◌≡◌, refl, sym, ap, ◌∙◌, arith, ◌==◌,
  if◌then◌else◌,
}
use gd32c103_bootloader.Bits.{
  xor_step, xor-half, xor-parity, xor-zero, xor_comm, xor_assoc, xor_cancel_left, xor_injective,
  xor-lt,
}

-- Clocks out the low bit.
unfoldable pub clock : ℕ → ℕ → ℕ
clock p x = if x % 2 == 1 then bit_xor (x / 2) p else x / 2

unfoldable pub clocks : ℕ → ℕ → ℕ → ℕ
unfolding clock
clocks p zero x = x
clocks p (suc n) x = clocks p n (clock p x)

-- The four ways in which two terms of an exclusive or regroup when `p` joins one or both.
both_join : (p a b : ℕ) → bit_xor (bit_xor a p) (bit_xor b p) ≡ bit_xor a b
both_join p a b =
    xor_assoc a p (bit_xor b p)
    ∙ ap (bit_xor a) (ap (bit_xor p) (xor_comm b p) ∙ xor_cancel_left p b)

left_joins : (p a b : ℕ) → bit_xor (bit_xor a p) b ≡ bit_xor (bit_xor a b) p
left_joins p a b = xor_assoc a p b ∙ ap (bit_xor a) (xor_comm p b) ∙ sym (xor_assoc a b p)

-- The register is linear in its contents.
clock-xor : (p a b : ℕ) → clock p (bit_xor a b) ≡ bit_xor (clock p a) (clock p b)
unfolding clock
clock-xor p a b = ground (
  arith,
  xor-half a b,
  xor-parity a b,
  both_join p (a / 2) (b / 2),
  left_joins p (a / 2) (b / 2),
  xor_assoc (a / 2) (b / 2) p,
)

pub clocks-xor : (p n a b : ℕ) → clocks p n (bit_xor a b) ≡ bit_xor (clocks p n a) (clocks p n b)
unfolding clocks
clocks-xor p zero a b = refl
clocks-xor p (suc n) a b =
    ap (clocks p n) (clock-xor p a b) ∙ clocks-xor p n (clock p a) (clock p b)

clock-double : (p x : ℕ) → clock p (2 * x) ≡ x
unfolding clock
clock-double p x = ground arith

-- What stands above the bits that are clocked out moves down.
clocks_high : (p n x : ℕ) → clocks p n (x * 2 ^ n) ≡ x
unfolding clocks
clocks_high p zero x = omega arith
clocks_high p (suc n) x =
    let e : x * 2 ^ suc n ≡ 2 * (x * 2 ^ n) = omega (arith, ap (λ (t : ℕ). x * t) (pow-suc 2 n)) in
    ap (clocks p n) (ap (clock p) e ∙ clock-double p (x * 2 ^ n)) ∙ clocks_high p n x

-- An exclusive or of fields that do not overlap is a sum.
pub xor_fields : (k q r : ℕ) → r < 2 ^ k → bit_xor (q * 2 ^ k) r ≡ q * 2 ^ k + r
xor_fields zero q r h = let e : r ≡ 0 = omega arith in rw e (omega (arith, xor-zero (q * 2 ^ 0)))
xor_fields (suc k) q r h =
    let e : q * 2 ^ suc k ≡ 2 * (q * 2 ^ k) = omega (arith, ap (λ (t : ℕ). q * t) (pow-suc 2 k)) in
    let half : bit_xor (q * 2 ^ suc k / 2) (r / 2) ≡ bit_xor (q * 2 ^ k) (r / 2) =
      ap (λ (t : ℕ). bit_xor t (r / 2)) (omega arith) in
    omega (
      arith,
      xor_step (q * 2 ^ suc k) r,
      half,
      e,
      xor_fields k q (r / 2) (omega (arith, pow-suc 2 k)),
    )

-- Joining a byte changes the low byte alone.
pub xor_low_byte :
    (x byte : ℕ) → byte < 256 → bit_xor x byte ≡ x / 256 * 256 + bit_xor (x % 256) byte
xor_low_byte x byte h =
    ap (λ (t : ℕ). bit_xor t byte) (parts ∙ sym (xor_fields 8 (x / 256) (x % 256) (omega arith)))
    ∙ xor_assoc (x / 256 * 256) (x % 256) byte
    ∙ xor_fields 8 (x / 256) (bit_xor (x % 256) byte) (xor-lt 8 (x % 256) byte (omega arith) h)
  where
    parts : x ≡ x / 256 * 256 + x % 256
    parts = omega arith

-- Eight clocks after a byte has been joined to the low bits, by the two parts of the register.
pub clocks_byte :
    (p q r byte : ℕ)
    → r < 256
    → byte < 256
    → clocks p 8 (bit_xor (q * 256 + r) byte) ≡ bit_xor q (clocks p 8 (bit_xor r byte))
clocks_byte p q r byte hr hb =
    ap (λ (t : ℕ). clocks p 8 (bit_xor t byte)) (sym (xor_fields 8 q r hr))
    ∙ ap (clocks p 8) (xor_assoc (q * 256) r byte)
    ∙ clocks-xor p 8 (q * 256) (bit_xor r byte)
    ∙ ap (λ (t : ℕ). bit_xor t (clocks p 8 (bit_xor r byte))) (clocks_high p 8 q)

-- The register keeps its width, and a clock loses nothing if the polynomial has its top bit.
module _ (k p : ℕ) (fits : p < 2 ^ suc k) where
  clock-lt : (x : ℕ) → x < 2 ^ suc k → clock p x < 2 ^ suc k
  unfolding clock
  clock-lt x h = ground (arith, xor-lt (suc k) (x / 2) p)

  pub clocks-lt : (n x : ℕ) → x < 2 ^ suc k → clocks p n x < 2 ^ suc k
  unfolding clocks
  clocks-lt zero x h = h
  clocks-lt (suc n) x h = clocks-lt n (clock p x) (clock-lt x h)

  module _ (top : 2 ^ k ≤ p) where
    -- The top bit after a clock tells whether the polynomial was joined.
    not_joined : (a b : ℕ) → a < 2 ^ k → b < 2 ^ k → bit_xor a p ≡ b → ⊥
    not_joined a b ha hb e =
        let e' : p ≡ bit_xor a b = sym (xor_cancel_left a p) ∙ ap (bit_xor a) e in
        omega (arith, xor-lt k a b ha hb)

    clock_injective : (x y : ℕ) → x < 2 ^ suc k → y < 2 ^ suc k → clock p x ≡ clock p y → x ≡ y
    unfolding clock
    clock_injective x y hx hy e = ground (
      arith,
      pow-suc 2 k,
      not_joined (x / 2) (y / 2),
      not_joined (y / 2) (x / 2),
      xor_injective p (x / 2) (y / 2),
      xor_comm p (x / 2),
      xor_comm p (y / 2),
    )

    pub clocks_injective :
        (n x y : ℕ) → x < 2 ^ suc k → y < 2 ^ suc k → clocks p n x ≡ clocks p n y → x ≡ y
    unfolding clocks
    clocks_injective zero x y hx hy e = e
    clocks_injective (suc n) x y hx hy e =
        clock_injective x y hx hy
          (clocks_injective n (clock p x) (clock p y) (clock-lt x hx) (clock-lt y hy) e)
