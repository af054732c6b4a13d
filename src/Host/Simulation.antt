-- ===== src/Host/Simulation.antt =====
-- Two lines that answer alike: the program of upgrade.cpp does the same on both.
use gd32c103_bootloader.Common.{
  ℕ, zero, suc, ◌+◌, ◌-◌, ◌≤◌, ◌≡◌, refl, ap, sym, ◌∙◌, arith, Bool, true, false, if◌then◌else◌,
  List, [], ◌∷◌, ◌++◌, take, drop, length, length-take, some, u8, Bool-cases, inl, inr,
}
use gd32c103_bootloader.Crc.{xlink_crc16_with_init, xlink_init_crc16}
use gd32c103_bootloader.Boot.{Memory, bootloader, bootfrom, partition_address, region}
use gd32c103_bootloader.Upgrade.{
  Sent, put_u32, firmware_chunk_payload, start_firmware_upgrade_payload,
  finalize_firmware_upgrade_payload, restart_device_payload, msg_id_start_firmware_upgrade,
  msg_id_firmware_chunk, msg_id_finalize_firmware_upgrade, msg_id_restart_device,
  msg_id_get_firmware_info, get_firmware_info_payload,
}
use gd32c103_bootloader.Upgrade.Chunk.{firmware_chunk_payload-buffer}
use gd32c103_bootloader.Host.{
  Line, Expected, ask, host_chunk_size, send_start_upgrade, send_firmware_chunk,
  send_finalize_upgrade, send_chunks, perform_upgrade, host_main, target_partition, target_address,
  target_size, active_number, bootfrom_record, start_expected, chunk_expected, finalize_expected,
}

-- The messages that the program sends.
pub data IsRequest : Sent → Type 0 where
  start :
      (address size : ℕ)
      → IsRequest (
        msg_id_start_firmware_upgrade,
        start_firmware_upgrade_payload address size host_chunk_size,
      )
  chunk :
      (k : ℕ) (bytes : List ℕ)
      → length bytes ≤ host_chunk_size
      → IsRequest (msg_id_firmware_chunk, put_u32 k ++ (length bytes ∷ bytes))
  finalize :
      (sum : ℕ)
      → IsRequest (msg_id_finalize_firmware_upgrade, finalize_firmware_upgrade_payload sum)
  restart : IsRequest (msg_id_restart_device, restart_device_payload true)
  info :
      (partition_type : ℕ)
      → IsRequest (msg_id_get_firmware_info, get_firmware_info_payload partition_type)

chunk_lem :
    (line : Line) (k : ℕ) (bytes : List ℕ) (sum : ℕ) (s : line.State)
    → length bytes ≤ host_chunk_size
    → let r =
        ask line (msg_id_firmware_chunk, put_u32 k ++ (length bytes ∷ bytes)) chunk_expected s in
      send_firmware_chunk line k bytes sum s
      ≡ (r.0, (if r.0 then xlink_crc16_with_init bytes sum else sum, r.1))
unfolding send_firmware_chunk
chunk_lem line k bytes sum s short =
    let byte_len : u8 (length bytes) ≡ length bytes = omega arith in
    let payload : firmware_chunk_payload k bytes (u8 (length bytes))
        ≡ some (put_u32 k ++ (length bytes ∷ bytes)) =
      ap (firmware_chunk_payload k bytes) byte_len
      ∙ firmware_chunk_payload-buffer k bytes (omega arith) in
    rw (send_firmware_chunk, payload) refl

module _ (l l' : Line) (R : l.State → l'.State → Type 0) where
  -- The results agree, and the states are related.
  abbrev pub Agree : Bool × l.State → Bool × l'.State → Type 0
  Agree a b = (a.0 ≡ b.0) × R a.1 b.1

  abbrev AgreeSum : Bool × (ℕ × l.State) → Bool × (ℕ × l'.State) → Type 0
  AgreeSum a b = (a.0 ≡ b.0) × (a.1.0 ≡ b.1.0) × R a.1.1 b.1.1

  abbrev pub IsSimulation : Type 0
  IsSimulation =
      (request : Sent) (s : l.State) (t : l'.State)
      → IsRequest request
      → R s t
      → ((l.exchange request s).0 ≡ (l'.exchange request t).0)
        × ((l.exchange request s).1.0 ≡ (l'.exchange request t).1.0)
        × R (l.exchange request s).1.1 (l'.exchange request t).1.1

  module _ (simulates : IsSimulation) where
    ask-Agree :
        (request : Sent) (e : Expected) (s : l.State) (t : l'.State)
        → IsRequest request
        → R s t
        → Agree (ask l request e s) (ask l' request e t)
    unfolding ask
    ask-Agree request e s t q r =
        let (sent, replies, r') = simulates request s t q r in (rw (sent, replies) refl, r')

    chunk-Agree :
        (k : ℕ) (bytes : List ℕ) (sum : ℕ) (s : l.State) (t : l'.State)
        → length bytes ≤ host_chunk_size
        → R s t
        → AgreeSum (send_firmware_chunk l k bytes sum s) (send_firmware_chunk l' k bytes sum t)
    chunk-Agree k bytes sum s t short r =
        let (same, r') =
          ask-Agree (msg_id_firmware_chunk, put_u32 k ++ (length bytes ∷ bytes)) chunk_expected s t
            (chunk k bytes short) r in
        rw (chunk_lem l k bytes sum s short, chunk_lem l' k bytes sum t short)
          (same, ap (λ ret. if ret then xlink_crc16_with_init bytes sum else sum) same, r')

    chunks-Agree :
        (left k : ℕ) (rest : List ℕ) (sum : ℕ) (s : l.State) (t : l'.State)
        → R s t
        → AgreeSum (send_chunks l left k rest sum s) (send_chunks l' left k rest sum t)
    unfolding send_chunks
    chunks-Agree zero k rest sum s t r = (refl, refl, r)
    chunks-Agree (suc left) k [] sum s t r = (refl, refl, r)
    chunks-Agree (suc left) k (x ∷ rest) sum s t r =
        let bytes = take host_chunk_size (x ∷ rest) in
        let len = length-take host_chunk_size (x ∷ rest) in
        let a = send_firmware_chunk l k bytes sum s in
        let b = send_firmware_chunk l' k bytes sum t in
        let (same, sums, r') = chunk-Agree k bytes sum s t (omega (arith, len)) r in
        let later = drop host_chunk_size (x ∷ rest) in
        let (same', sums', r2) = chunks-Agree left (k + 1) later a.1.0 a.1.1 b.1.1 r' in
        elim (Bool-cases a.0) [
          | inl e ↦ let f : b.0 ≡ true = sym same ∙ e in rw (e, f, ← sums) (same', sums', r2)
          | inr e ↦ let f : b.0 ≡ false = sym same ∙ e in rw (e, f) (refl, sums, r')
        ]

    finalize-Agree :
        (sum sum' : ℕ) (s : l.State) (t : l'.State)
        → sum ≡ sum'
        → R s t
        → Agree (send_finalize_upgrade l sum s) (send_finalize_upgrade l' sum' t)
    unfolding send_finalize_upgrade
    finalize-Agree sum sum' s t e r = rw (← e) (
        ask-Agree (msg_id_finalize_firmware_upgrade, finalize_firmware_upgrade_payload sum)
          finalize_expected s t (finalize sum) r)

    perform-Agree :
        (place : ℕ) (image : List ℕ) (s : l.State) (t : l'.State)
        → R s t
        → Agree (perform_upgrade l place image s) (perform_upgrade l' place image t)
    unfolding perform_upgrade send_start_upgrade
    perform-Agree place image s t r =
        let a1 = send_start_upgrade l place (length image) s in
        let b1 = send_start_upgrade l' place (length image) t in
        let (same1, r1) =
          ask-Agree
            (
              msg_id_start_firmware_upgrade,
              start_firmware_upgrade_payload place (length image) host_chunk_size,
            )
            start_expected s t (start place (length image)) r in
        let a2 = send_chunks l (length image) 0 image xlink_init_crc16 a1.1 in
        let b2 = send_chunks l' (length image) 0 image xlink_init_crc16 b1.1 in
        let (same2, sums, r2) = chunks-Agree (length image) 0 image xlink_init_crc16 a1.1 b1.1 r1 in
        let last = finalize-Agree a2.1.0 b2.1.0 a2.1.1 b2.1.1 sums r2 in
        elim (Bool-cases a1.0) [
          | inr e1 ↦ (let f1 : b1.0 ≡ false = sym same1 ∙ e1 in rw (e1, f1) (refl, r1))
          | inl e1 ↦
              (let f1 : b1.0 ≡ true = sym same1 ∙ e1 in
                elim (Bool-cases a2.0) [
                  | inr e2 ↦
                      (let f2 : b2.0 ≡ false = sym same2 ∙ e2 in rw (e1, f1, e2, f2) (refl, r2))
                  | inl e2 ↦ (let f2 : b2.0 ≡ true = sym same2 ∙ e2 in rw (e1, f1, e2, f2) last)
                ])
        ]

    -- Over two lines that answer alike the program reports the same, and leaves related states.
    pub host_main-Agree :
        (base : ℕ) (file : Memory) (s : l.State) (t : l'.State)
        → R s t
        → Agree (host_main l base file s) (host_main l' base file t)
    unfolding host_main
    host_main-Agree base file s t r =
        let target = target_partition base in
        let place = target_address target in
        let image = region file (place - partition_address bootloader) (target_size target) in
        let a1 = perform_upgrade l place image s in
        let b1 = perform_upgrade l' place image t in
        let (same1, r1) = perform-Agree place image s t r in
        let at = partition_address bootfrom in
        let named = bootfrom_record (active_number target) in
        let a2 = perform_upgrade l at named a1.1 in
        let b2 = perform_upgrade l' at named b1.1 in
        let (same2, r2) = perform-Agree at named a1.1 b1.1 r1 in
        let (sent, replies, r3) =
          simulates (msg_id_restart_device, restart_device_payload true) a2.1 b2.1 restart r2 in
        elim (Bool-cases a1.0) [
          | inr e1 ↦ (let f1 : b1.0 ≡ false = sym same1 ∙ e1 in rw (e1, f1) (refl, r1))
          | inl e1 ↦
              (let f1 : b1.0 ≡ true = sym same1 ∙ e1 in
                elim (Bool-cases a2.0) [
                  | inr e2 ↦
                      (let f2 : b2.0 ≡ false = sym same2 ∙ e2 in rw (e1, f1, e2, f2) (refl, r2))
                  | inl e2 ↦
                      (let f2 : b2.0 ≡ true = sym same2 ∙ e2 in rw (e1, f1, e2, f2) (refl, r3))
                ])
        ]
