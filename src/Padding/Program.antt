-- ===== src/Padding/Program.antt =====
-- The rest of `main` of app_padding.cpp: its options, and the file that it writes. What getopt_long
-- found and what the system and the C library answer are arguments; a string is its characters.
pub mod Boots
use gd32c103_bootloader.Common.{
  ℕ, zero, suc, ◌+◌, Bool, true, false, ◌&&◌, ◌==◌, if◌then◌else◌, List, [], ◌∷◌, Option, none,
  some, u32,
}
use gd32c103_bootloader.Padding.{
  Argument, no_path, unreadable, contents, Options, app_padding, Output,
}

-- The options in their order, with what stands behind them.
pub data Flag : Type 0 where
  help other : Flag
  show loader appa appb output params version commit : List ℕ → Flag

-- The paths of `pads`, and the strings.
pub record Paths : Type 0 where
  pub loader : List ℕ
  pub appa : List ℕ
  pub appb : List ℕ
  pub params : List ℕ
  pub output_file : List ℕ
  pub version_str : List ℕ
  pub commit_str : List ℕ

-- `none` where the program returns 0 at once.
unfoldable pub parse_flags : List Flag → Paths → Option Paths
parse_flags [] p = some p
parse_flags (help ∷ l) p = none
parse_flags (other ∷ l) p = parse_flags l p
parse_flags (show text ∷ l) p = parse_flags l p
parse_flags (loader text ∷ l) p = parse_flags l (record p { loader = text })
parse_flags (appa text ∷ l) p = parse_flags l (record p { appa = text })
parse_flags (appb text ∷ l) p = parse_flags l (record p { appb = text })
parse_flags (output text ∷ l) p = parse_flags l (record p { output_file = text })
parse_flags (params text ∷ l) p = parse_flags l (record p { params = text })
parse_flags (version text ∷ l) p = parse_flags l (record p { version_str = text })
parse_flags (commit text ∷ l) p = parse_flags l (record p { commit_str = text })

-- "unknown" and "full_firmware.bin".
abbrev pub unknown : List ℕ
unknown = 117 ∷ 110 ∷ 107 ∷ 110 ∷ 111 ∷ 119 ∷ 110 ∷ []

abbrev pub full_firmware_bin : List ℕ
full_firmware_bin =
    102 ∷ 117 ∷ 108 ∷ 108 ∷ 95 ∷ 102 ∷ 105 ∷ 114 ∷ 109 ∷ 119 ∷ 97 ∷ 114 ∷ 101 ∷ 46 ∷ 98 ∷ 105 ∷ 110
    ∷ []

abbrev pub no_paths : Paths
no_paths = record {
  loader = [];
  appa = [];
  appb = [];
  params = [];
  output_file = full_firmware_bin;
  version_str = unknown;
  commit_str = unknown;
}

abbrev pub is_text : List ℕ → List ℕ → Bool
is_text [] [] = true
is_text [] (c ∷ l) = false
is_text (c ∷ l) [] = false
is_text (c ∷ l) (c' ∷ l') = c == c' && is_text l l'

-- The bytes of a file, `none` where open, fstat or read fails; what sscanf and strtoul make of a
-- string; the time; whether a file can be created, and whether its writes write everything.
pub record System : Type 0 where
  pub reads : List ℕ → Option (List ℕ)
  pub scan_version : List ℕ → ℕ × (ℕ × ℕ)
  pub scan_hex : List ℕ → ℕ
  pub now : ℕ
  pub creates : List ℕ → Bool
  pub writes : ℕ → Bool

unfoldable pub argument : System → List ℕ → Argument
argument t [] = no_path
argument t (c ∷ l) = elim (t.reads (c ∷ l)) [ none ↦ unreadable | some bytes ↦ contents bytes ]

unfoldable pub options_of : System → Paths → Options
unfolding argument
options_of t p = record {
  loader = argument t p.loader;
  appa = argument t p.appa;
  appb = argument t p.appb;
  params_file = argument t p.params;
  version = if is_text p.version_str unknown then none else some (t.scan_version p.version_str);
  commit_hash = if is_text p.commit_str unknown then 0 else u32 (t.scan_hex p.commit_str);
  time = u32 t.now;
}

-- Whether the writes from that of number `k` on all succeed.
unfoldable pub writes_all : System → ℕ → Output → Bool
writes_all t k [] = true
writes_all t k (b ∷ l) = let rest = writes_all t (k + 1) l in if t.writes k then rest else false

-- The program returns a value, or 0 with the file written.
pub data Finished : Type 0 where
  exits : ℕ → Finished
  wrote : List ℕ → Output → Finished

abbrev pub failed : Finished
failed = exits 0xFFFFFFFF

-- From the image on, `none` where it could not be made.
unfoldable pub write_file : System → List ℕ → Option Output → Finished
unfolding writes_all
write_file t path none = failed
write_file t path (some out) =
    let all = writes_all t 0 out in
    if t.creates path then (if all then wrote path out else failed) else failed

-- From the options on.
unfoldable pub after_flags : System → Option Paths → Finished
unfolding options_of app_padding write_file
after_flags t none = exits 0
after_flags t (some p) = write_file t p.output_file (app_padding (options_of t p))

unfoldable pub padding_main : System → List Flag → Finished
unfolding parse_flags after_flags
padding_main t flags = after_flags t (parse_flags flags no_paths)
