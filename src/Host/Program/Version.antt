-- ===== src/Host/Program/Version.antt =====
-- What `get_mcu_firmware_version` of upgrade.cpp learns from the device over the frames.
use gd32c103_bootloader.Common.{
  ℕ, zero, suc, ◌<◌, ◌≡◌, ◌≢◌, refl, ap, subst, ◌∙◌, arith, true, false, ◌&&◌, ◌==◌, if◌then◌else◌,
  List, [], ◌∷◌, length, Option, some,
}
use gd32c103_bootloader.Flash.Controller.{Fmc}
use gd32c103_bootloader.Boot.{AppInfo, app_info, partition_address, app_a_info, app_b_info}
use gd32c103_bootloader.Upgrade.{
  Upgrade, Outcome, Sent, upgrade_callback, get_firmware_info_cb, firmware_info_payload, get_u32,
  get_firmware_info_payload, msg_id_get_firmware_info, msg_id_firmware_info,
}
use gd32c103_bootloader.Upgrade.Chunk.{word_of-put_u32}
use gd32c103_bootloader.Upgrade.Init.{Code}
use gd32c103_bootloader.Host.Device.{replies}
use gd32c103_bootloader.Host.Simulation.{info}
use gd32c103_bootloader.Host.Wire.{Ends, exchange, wire}
use gd32c103_bootloader.Host.Wire.Steps.{IsLike}
use gd32c103_bootloader.Host.Wire.Boots.{exchange-refines}
use gd32c103_bootloader.Host.Program.{
  FirmwareInfo, read_info, on_info, on_all, wait_info, get_mcu_firmware_version, World, ask_version,
}

-- Once the base address is known nothing more is waited for.
wait_info-known :
    (timeout k : ℕ) (came : ℕ → List Sent) (out : FirmwareInfo)
    → (out.current_base_address == 0) ≡ false
    → wait_info timeout k came out ≡ out
unfolding wait_info
wait_info-known zero k came out known = refl
wait_info-known (suc timeout) k came out known = rw (wait_info, known) refl

on_all-info :
    (payload : List ℕ) (out : FirmwareInfo)
    → length payload ≡ 21
    → on_all ((msg_id_firmware_info, payload) ∷ []) out ≡ read_info payload
unfolding on_all on_info
on_all-info payload out len = rw len refl

-- A message of the right size with a base address other than 0 ends the wait.
get_mcu_firmware_version-heard :
    (fresh : FirmwareInfo) (came : ℕ → List Sent) (payload : List ℕ) (base : ℕ)
    → came 0 ≡ (msg_id_firmware_info, payload) ∷ []
    → length payload ≡ 21
    → get_u32 payload 17 ≡ base
    → base ≢ 0
    → get_mcu_firmware_version fresh came ≡ some (read_info payload)
unfolding get_mcu_firmware_version
get_mcu_firmware_version-heard fresh came payload base e len at ne =
    let info = read_info payload in
    let known : (info.current_base_address == 0) ≡ false =
      unfold read_info in rw at (ground (arith, ne)) in
    let blank : FirmwareInfo = record fresh { current_base_address = 0 } in
    let first : on_all (came 0) blank ≡ info =
      ap (λ l. on_all l blank) e ∙ on_all-info payload blank len in
    let out : wait_info 100 1 came (on_all (came 0) blank) ≡ info =
      ap (wait_info 100 1 came) first ∙ wait_info-known 100 1 came info known in
    rw (out, known) refl

-- The base address comes back as the device has it.
firmware_info-base :
    (p v s c t base : ℕ)
    → base < 4294967296
    → get_u32 (firmware_info_payload p v s c t base) 17 ≡ base
unfolding firmware_info_payload
firmware_info-base p v s c t base h = word_of-put_u32 base h

module _ (fmc : Fmc) (code : Code) (address b : ℕ) (a : ℕ → ℕ) (garbage vectors : ℕ) where
  -- The device reports where its vectors lie for either slot, and stays as it is.
  abbrev pub Learns : World → ℕ → Ends fmc code garbage vectors → Upgrade fmc → Type 0
  Learns world p w u =
      (i : FirmwareInfo) × (w' : Ends fmc code garbage vectors) × (ask_version
          (wire fmc code garbage vectors) world p w
        ≡ (some i, w'))
      × (i.current_base_address ≡ vectors)
      × IsLike fmc code address b a garbage vectors w' u

  learns :
      (world : World) (p : ℕ) (w : Ends fmc code garbage vectors) (u : Upgrade fmc)
      (payload : List ℕ)
      → world.registers ≡ true
      → IsLike fmc code address b a garbage vectors w u
      → upgrade_callback fmc garbage vectors msg_id_get_firmware_info
          (get_firmware_info_payload p)
          u
        ≡ Outcome.returned 0 ((msg_id_firmware_info, payload) ∷ []) u
      → length payload ≡ 21
      → get_u32 payload 17 ≡ vectors
      → vectors ≢ 0
      → Learns world p w u
  unfolding ask_version
  learns world p w u payload registered like answer len base ne =
      let request : Sent = (msg_id_get_firmware_info, get_firmware_info_payload p) in
      let (sent, heard, like') =
        exchange-refines fmc code address b a garbage vectors request w u (info p) like in
      let result = exchange fmc code garbage vectors request w in
      let replied : result.1.0 ≡ (msg_id_firmware_info, payload) ∷ [] =
        heard ∙ ap (λ o. (replies fmc garbage vectors [] u o).1.0) answer in
      let same : (replies fmc garbage vectors [] u
            (upgrade_callback fmc garbage vectors request.0 request.1 u)).1.1
          ≡ u =
        ap (λ o. (replies fmc garbage vectors [] u o).1.1) answer in
      let came : ℕ → List Sent = λ k. if k == 0 && result.0 then result.1.0 else [] in
      let came0 : came 0 ≡ (msg_id_firmware_info, payload) ∷ [] = rw (sent, replied) refl in
      let known =
        get_mcu_firmware_version-heard world.fresh_info came payload vectors came0 len base ne in
      (
        read_info payload,
        result.1.1,
        rw registered (ap (λ (o : Option FirmwareInfo). (o, result.1.1)) known),
        unfold read_info in base,
        subst (IsLike fmc code address b a garbage vectors result.1.1) same like',
      )

  -- The message for a slot.
  abbrev slot_payload : ℕ → AppInfo → List ℕ
  slot_payload p i =
      firmware_info_payload p i.version i.size_bytes i.commit_hash i.compile_timestamp vectors

  slot_learned :
      (world : World) (p : ℕ) (w : Ends fmc code garbage vectors) (u : Upgrade fmc) (i : AppInfo)
      → world.registers ≡ true
      → vectors ≢ 0
      → vectors < 4294967296
      → IsLike fmc code address b a garbage vectors w u
      → upgrade_callback fmc garbage vectors msg_id_get_firmware_info
          (get_firmware_info_payload p)
          u
        ≡ Outcome.returned 0 ((msg_id_firmware_info, slot_payload p i) ∷ []) u
      → Learns world p w u
  slot_learned world p w u i registered ne small like answer =
      learns world p w u (slot_payload p i) registered like answer
        (unfold firmware_info_payload in refl)
        (firmware_info-base p i.version i.size_bytes i.commit_hash i.compile_timestamp vectors
          small)
        ne

  -- The device reports where its vectors lie, which is neither 0 nor beyond 32 bits, for either slot.
  pub ask_version_a :
      (world : World) (w : Ends fmc code garbage vectors) (u : Upgrade fmc)
      → world.registers ≡ true
      → vectors ≢ 0
      → vectors < 4294967296
      → IsLike fmc code address b a garbage vectors w u
      → Learns world 1 w u
  unfolding upgrade_callback get_firmware_info_cb
  ask_version_a world w u registered ne small like =
      slot_learned world 1 w u (app_info (fmc.byte u.chip.flash) (partition_address app_a_info))
        registered ne small like refl

  pub ask_version_b :
      (world : World) (w : Ends fmc code garbage vectors) (u : Upgrade fmc)
      → world.registers ≡ true
      → vectors ≢ 0
      → vectors < 4294967296
      → IsLike fmc code address b a garbage vectors w u
      → Learns world 2 w u
  unfolding upgrade_callback get_firmware_info_cb
  ask_version_b world w u registered ne small like =
      slot_learned world 2 w u (app_info (fmc.byte u.chip.flash) (partition_address app_b_info))
        registered ne small like refl
