-- ===== src/Xlink/Receive/Bounds.antt =====
-- The state of the receiver stays in range, and where it writes past its buffer.
use gd32c103_bootloader.Common.{
  ℕ, ◌+◌, ◌-◌, ◌≤◌, ◌<◌, ◌≡◌, ◌⊎◌, ◌↔◌, refl, arith, length, length-set,
}
use gd32c103_bootloader.Xlink.Message.{xlink_max_payload}
use gd32c103_bootloader.Xlink.Receive.{
  RxState, Rx, Taken, fault, pending, crc_error, complete, take_magic, take_header, take_body,
  take_in, take_byte,
}

-- Where the position may stand in each state. Nothing enters `wait_checksum`.
abbrev pub InRange : RxState → Rx → Type 0
InRange RxState.wait_magic c = Unit {0}
InRange RxState.wait_id_length c =
    (c.rx_msg_pos < 3) × (c.expected_len ≡ 3) × ((c.rx_msg_pos ≡ 0) ⊎ (c.rx_msg.len < 256))
InRange RxState.wait_payload c =
    (c.rx_msg_pos < c.expected_len) × (c.expected_len ≡ c.rx_msg.len + 2) × (c.rx_msg.len < 256)
InRange RxState.wait_checksum c = ⊥

pub record IsValid (c : Rx) : Type 0 where
  pub buffer : length c.rx_msg.payload ≡ xlink_max_payload
  pub in_range : InRange c.rx_msg_state c

-- A result that is no fault leaves a valid state.
abbrev pub IsValidAfter : Taken → Type 0
IsValidAfter fault = Unit {0}
IsValidAfter (pending c) = IsValid c
IsValidAfter (crc_error c) = IsValid c
IsValidAfter (complete c) = IsValid c

take_magic-IsValid :
    (c : Rx) (byte : ℕ)
    → c.rx_msg_state ≡ RxState.wait_magic
    → IsValid c
    → IsValid (take_magic c byte)
unfolding take_magic
take_magic-IsValid c byte e v = ground arith

take_header-IsValid :
    (c : Rx) (byte : ℕ)
    → byte < 256
    → c.rx_msg_state ≡ RxState.wait_id_length
    → IsValid c
    → IsValid (take_header c byte)
unfolding take_header
take_header-IsValid c byte h e v =
    ground (arith, length-set c.rx_msg.payload (c.rx_msg_pos - 3) byte)

take_body-IsValid :
    (c : Rx) (byte : ℕ)
    → byte < 256
    → c.rx_msg_state ≡ RxState.wait_payload
    → IsValid c
    → IsValidAfter (take_body c byte)
unfolding take_body
take_body-IsValid c byte h e v = ground (arith, length-set c.rx_msg.payload c.rx_msg_pos byte)

take_in-IsValid :
    (s : RxState) (c : Rx) (byte : ℕ)
    → byte < 256
    → c.rx_msg_state ≡ s
    → IsValid c
    → IsValidAfter (take_in s c byte)
unfolding take_in
take_in-IsValid RxState.wait_magic c byte h e v = take_magic-IsValid c byte e v
take_in-IsValid RxState.wait_id_length c byte h e v = take_header-IsValid c byte h e v
take_in-IsValid RxState.wait_payload c byte h e v = take_body-IsValid c byte h e v
take_in-IsValid RxState.wait_checksum c byte h e v =
    absurd (let q : InRange RxState.wait_checksum c = rw e at v.in_range in q)

-- From a valid state a byte leads to a fault or to a valid state: the position stays within the
-- header, or within the frame that the header announced, the buffer keeps its 250 bytes, and the
-- state `wait_checksum` is never entered.
pub take_byte-IsValid :
    (c : Rx) (byte : ℕ) → byte < 256 → IsValid c → IsValidAfter (take_byte c byte)
unfolding take_byte
take_byte-IsValid c byte h v = take_in-IsValid c.rx_msg_state c byte h refl v

-- A frame that announces more than 250 bytes of payload is being received, and 250 are stored.
abbrev pub IsOverrun : Rx → Type 0
IsOverrun c =
    (c.rx_msg_state ≡ RxState.wait_payload)
    × (xlink_max_payload ≤ c.rx_msg_pos)
    × (c.rx_msg_pos < c.rx_msg.len)

take_in-eq-fault :
    (s : RxState) (c : Rx) (byte : ℕ)
    → c.rx_msg_state ≡ s
    → IsValid c
    → (take_in s c byte ≡ fault) ↔ IsOverrun c
unfolding take_in take_body
take_in-eq-fault RxState.wait_magic c byte e v = (λ h. cc, λ o. cc)
take_in-eq-fault RxState.wait_id_length c byte e v = (λ h. cc, λ o. cc)
take_in-eq-fault RxState.wait_payload c byte e v =
    let q : InRange RxState.wait_payload c = rw e at v.in_range in
    (λ h. ground arith, λ o. ground arith)
take_in-eq-fault RxState.wait_checksum c byte e v =
    absurd (let q : InRange RxState.wait_checksum c = rw e at v.in_range in q)

-- In a valid state a byte makes the receiver write past the end of its buffer exactly when it
-- follows 250 bytes of a payload that is announced to be longer.
pub take_byte-eq-fault_iff :
    (c : Rx) (byte : ℕ) → IsValid c → (take_byte c byte ≡ fault) ↔ IsOverrun c
unfolding take_byte
take_byte-eq-fault_iff c byte v = take_in-eq-fault c.rx_msg_state c byte refl v
