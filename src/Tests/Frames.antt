-- ===== src/Tests/Frames.antt =====
-- The theorems on the receiver.
use gd32c103_bootloader.Common.{
  ℕ, ◌≡◌, ◌≢◌, ◌↔◌, refl, ap, arith, List, [], ◌∷◌, set, length, replicate, length-replicate,
  get_or,
}
use gd32c103_bootloader.Crc.{xlink_init_crc16, memcpy_and_crc16}
use gd32c103_bootloader.Xlink.Message.{Message, encode_frame}
use gd32c103_bootloader.Xlink.Receive.{RxState, Rx, fault, take_byte}
use gd32c103_bootloader.Xlink.Receive.Bounds.{
  IsValid, IsValidAfter, IsOverrun, take_byte-IsValid, take_byte-eq-fault_iff,
}
use gd32c103_bootloader.Xlink.Receive.Damage.{Refuses, damaged-Refuses}
use gd32c103_bootloader.Xlink.Receive.Stream.{
  Packet, packet, noise, IsIdle, Delivers, stream-Delivers,
}

filled : (n b : ℕ) → length (replicate n b) ≡ n
filled n b = length-replicate n b

abbrev empty_message : Message
empty_message = record {
  sof = 0;
  len = 0;
  comp_id = 0;
  msg_id = 0;
  payload = replicate 250 0;
  crc = 0;
}

-- The receiver as `xlink_context_create` leaves it.
abbrev idle_rx : Rx
idle_rx = record {
  rx_msg_state = RxState.wait_magic;
  rx_msg = empty_message;
  rx_msg_crc = xlink_init_crc16;
  rx_msg_pos = 0;
  expected_len = 0;
}

-- A receiver that has stored 250 of 251 bytes of a payload.
abbrev full_rx : Rx
full_rx =
    let msg : Message = record empty_message { len = 251 } in
    record {
      rx_msg_state = RxState.wait_payload;
      rx_msg = msg;
      rx_msg_crc = 7;
      rx_msg_pos = 250;
      expected_len = 253;
    }

idle_rx-IsValid : IsValid idle_rx
idle_rx-IsValid = record { buffer = filled 250 0; in_range = tt }

full_rx-IsValid : IsValid full_rx
full_rx-IsValid = record { buffer = filled 250 0; in_range = omega arith }

take_byte-IsValid_example : IsValidAfter (take_byte idle_rx 0xA5)
take_byte-IsValid_example = take_byte-IsValid idle_rx 0xA5 (omega arith) idle_rx-IsValid

take_byte-eq-fault_iff_example : (take_byte full_rx 1 ≡ fault) ↔ IsOverrun full_rx
take_byte-eq-fault_iff_example = take_byte-eq-fault_iff full_rx 1 full_rx-IsValid

abbrev two_bytes : List ℕ
two_bytes = 10 ∷ 20 ∷ []

damaged : set (encode_frame 1 2 two_bytes 2) 4 11 ≢ encode_frame 1 2 two_bytes 2
unfolding encode_frame memcpy_and_crc16
damaged e = let q : 11 ≡ 10 = ap (λ (l : List ℕ). get_or l 4 0) e in absurd (omega (arith, q))

damaged-Refuses_example : Refuses idle_rx (set (encode_frame 1 2 two_bytes 2) 4 11) []
damaged-Refuses_example =
    damaged-Refuses idle_rx 1 2 two_bytes [] 4 11 refl (filled 250 0) (omega arith) (omega arith)
      (omega arith) (omega arith) (omega arith) (omega arith) damaged

abbrev one_packet : Packet
one_packet = record { comp_id = 1; msg_id = 2; payload = two_bytes }

idle_rx-IsIdle : IsIdle idle_rx
idle_rx-IsIdle = record { waits = refl; buffer = filled 250 0 }

stream-Delivers_example : Delivers idle_rx (noise 3 ∷ packet one_packet ∷ packet one_packet ∷ [])
stream-Delivers_example =
    stream-Delivers (noise 3 ∷ packet one_packet ∷ packet one_packet ∷ []) idle_rx idle_rx-IsIdle
      (λ e. absurd (omega (arith, e)), omega arith)
