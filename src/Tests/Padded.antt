-- ===== src/Tests/Padded.antt =====
-- The theorem on the padding program.
use gd32c103_bootloader.Common.{ℕ, ◌≡◌, refl, arith, true, false, List, [], ◌∷◌, some}
use gd32c103_bootloader.Boot.{Memory, boot_loader_main}
use gd32c103_bootloader.Crc.Bitwise.{AreBytes}
use gd32c103_bootloader.Padding.{Output, blank, load}
use gd32c103_bootloader.Padding.Boots.{IsFlashed}
use gd32c103_bootloader.Padding.Program.{
  Flag, Paths, System, no_paths, full_firmware_bin, parse_flags, argument, wrote, padding_main,
}
use gd32c103_bootloader.Padding.Program.Boots.{padding_main-boots}

abbrev app_file : List ℕ
app_file = 0 ∷ 0x20 ∷ 0 ∷ 0x20 ∷ 0xC1 ∷ 0x20 ∷ 0 ∷ 0x08 ∷ []

app_file-AreBytes : AreBytes app_file
app_file-AreBytes = (
  omega arith,
  (
    omega arith,
    (omega arith, (omega arith, (omega arith, (omega arith, (omega arith, (omega arith, tt)))))),
  ),
)

-- Every file has the same bytes.
abbrev system : System
system = record {
  reads = λ path. some app_file;
  scan_version = λ text. (1, (2, 3));
  scan_hex = λ text. 0xABCD;
  now = 0;
  creates = λ path. true;
  writes = λ k. true;
}

abbrev flags : List Flag
flags =
    Flag.version (118 ∷ [])
    ∷ Flag.appb (98 ∷ [])
    ∷ Flag.loader (108 ∷ [])
    ∷ Flag.other
    ∷ Flag.appa (97 ∷ [])
    ∷ []

abbrev paths : Paths
paths = record no_paths {
  loader = 108 ∷ [];
  appa = 97 ∷ [];
  appb = 98 ∷ [];
  version_str = 118 ∷ [];
}

padding_main-boots_example :
    (out : Output) × (padding_main system flags ≡ wrote full_firmware_bin out)
    × ((m : Memory)
        → IsFlashed m out
        → boot_loader_main 8 m
          ≡ some (record {
            msp = 0x20002000;
            vtor = 0x08002000;
            entry = 0x080020C1;
            interrupts = false;
          }))
unfolding parse_flags argument load
padding_main-boots_example =
    padding_main-boots system flags paths app_file app_file app_file blank 8 refl refl refl refl
      (omega arith) (omega arith) (omega arith) refl app_file-AreBytes refl (λ k. refl)
