-- ===== src/Padding/Boots.antt =====
-- That the image of src/app_padding.cpp, once it is in the flash, makes src/boot_loader_main.c start
-- the application of the first slot.
use native.Mathlib.Nat.{zero-mod}
use gd32c103_bootloader.Common.{
  ℕ, zero, suc, ◌+◌, ◌-◌, ◌*◌, ◌%◌, ◌^◌, ◌≡◌, ◌≤◌, ◌<◌, refl, sym, ap, subst, ◌∙◌, arith, Bool,
  true, false, ◌||◌, ltb, Bool-cases, inl, inr, if◌then◌else◌, List, [], ◌∷◌, length, Option, none,
  some, u32,
}
use gd32c103_bootloader.Crc.{crc32_calculate}
use gd32c103_bootloader.Crc.Bitwise.{AreBytes}
use gd32c103_bootloader.Crc.Detect.{crc32_calculate-lt}
use gd32c103_bootloader.Flash.{word_of}
use gd32c103_bootloader.Flash.Controller.{byte_of, flash_start}
use gd32c103_bootloader.Boot.{
  Memory, bootloader, app_a, app_b_info, app_b, params, partition_size, partition_address,
  partition_magic_number, region, word_at, check_app_valid, jump_to_app, boot_loader_main,
  active_app,
}
use gd32c103_bootloader.Boot.Select.{region-AreBytes}
use gd32c103_bootloader.Padding.{
  Argument, contents, Options, is_empty, load, padded, bootfrom_data, app_info_data, write_all,
  app_padding, Output, byte_at, blank,
}

-- What is written when nothing fails.
written :
    (o : Options) (out : Output)
    → app_padding o ≡ some out
    → (loader : Memory) × (appa : Memory) × (appb : Memory) × (parameters : Memory) × (load o.appa
          (partition_size app_a)
        ≡ some appa)
      × (out ≡ write_all o loader appa appb parameters)
unfolding app_padding
written o out e =
    go (is_empty o.loader || (is_empty o.appa || is_empty o.appb))
      (load o.loader (partition_size bootloader)) (load o.appa (partition_size app_a))
      (load o.appb (partition_size app_b)) (load o.params_file (partition_size params)) e
  where
    go :
        (usage : Bool) (l a b p : Option Memory)
        → (if usage then none else elim l [
          | none ↦ none
          | some loader ↦ elim a [
            | none ↦ none
            | some appa ↦ elim b [
              | none ↦ none
              | some appb ↦ elim p [
                | none ↦ none
                | some parameters ↦ some (write_all o loader appa appb parameters)
              ]
            ]
          ]
        ])
          ≡ some out
        → (loader : Memory) × (appa : Memory) × (appb : Memory) × (parameters : Memory) × (a
            ≡ some appa)
          × (out ≡ write_all o loader appa appb parameters)
    go true l a b p f = absurd cc
    go false none a b p f = absurd cc
    go false (some l) none b p f = absurd cc
    go false (some l) (some a) none p f = absurd cc
    go false (some l) (some a) (some b) none f = absurd cc
    go false (some l) (some a) (some b) (some p) f = (l, a, b, p, refl, cc)

load_lem :
    (a : Argument) (file : List ℕ) (d : Memory)
    → a ≡ contents file
    → load a (partition_size app_a) ≡ some d
    → d ≡ padded file
unfolding load
load_lem a file d given e =
    let loaded : load (contents file) (partition_size app_a) ≡ some d =
      ap (λ (x : Argument). load x (partition_size app_a)) (sym given) ∙ e in
    elim (Bool-cases (ltb (partition_size app_a) (u32 (length file)))) [
      | inl long ↦
          (let none_back : load (contents file) (partition_size app_a) ≡ none = rw long refl in
            absurd cc)
      | inr fits ↦
          (let back : load (contents file) (partition_size app_a) ≡ some (padded file) =
              rw fits refl in
            cc)
    ]

word_of-byte_of :
    (w : ℕ) → w < 4294967296 → word_of (byte_of w 0) (byte_of w 1) (byte_of w 2) (byte_of w 3) ≡ w
word_of-byte_of w h = omega arith

-- Bytes that agree make regions that agree.
pub region_agree :
    (m d : Memory) (a b n : ℕ)
    → ((i : ℕ) → i < n → m (u32 (a + i)) ≡ d (u32 (b + i)))
    → region m a n ≡ region d b n
region_agree m d a b zero h = refl
region_agree m d a b (suc n) h =
    let at : (c k : ℕ) → c + 1 + k ≡ c + suc k = λ c k. omega arith in
    let zero_at : (c : ℕ) → c + 0 ≡ c = λ c. omega arith in
    let here : m (u32 a) ≡ d (u32 b) =
      ap (λ k. m (u32 k)) (sym (zero_at a)) ∙ h 0 (omega arith) ∙ ap (λ k. d (u32 k)) (zero_at b) in
    let rest = region_agree m d (a + 1) (b + 1) n (λ i lt.
      ap (λ k. m (u32 k)) (at a i)
      ∙ h (suc i) (omega arith)
      ∙ ap (λ k. d (u32 k)) (sym (at b i))) in
    rw (here, rest) refl

padded-lt : (l : List ℕ) (i : ℕ) → AreBytes l → padded l i < 256
padded-lt [] i h = ground arith
padded-lt (x ∷ l) zero h = ground arith
padded-lt (x ∷ l) (suc i) h = ground (arith, padded-lt l i h.1)

byte_at-behind :
    (d : Memory) (n : ℕ) (l : Output) (i j : ℕ) → i ≡ n + j → byte_at ((d, n) ∷ l) i ≡ byte_at l j
byte_at-behind d n l i j e =
    let behind : ltb i n ≡ false = ground arith in
    let left : i - n ≡ j = omega arith in rw (behind, left) refl

byte_at-in : (d : Memory) (n : ℕ) (l : Output) (i : ℕ) → i < n → byte_at ((d, n) ∷ l) i ≡ d i
byte_at-in d n l i lt = let inside : ltb i n ≡ true = ground arith in rw inside refl

fourth_lem :
    (a b c d : Memory) (l : Output) (i : ℕ)
    → i < 51200
    → byte_at ((a, 4096) ∷ (b, 2048) ∷ (c, 2048) ∷ (d, 51200) ∷ l) (8192 + i) ≡ d i
fourth_lem a b c d l i lt =
    byte_at-behind a 4096 ((b, 2048) ∷ (c, 2048) ∷ (d, 51200) ∷ l) (8192 + i) (4096 + i)
      (omega arith)
    ∙ byte_at-behind b 2048 ((c, 2048) ∷ (d, 51200) ∷ l) (4096 + i) (2048 + i) (omega arith)
    ∙ byte_at-behind c 2048 ((d, 51200) ∷ l) (2048 + i) i (omega arith)
    ∙ byte_at-in d 51200 l i lt

-- The length of the image without parameters.
abbrev pub image_size : ℕ
image_size = 110 * 1024

-- The flash from its start on reads as what was written.
abbrev pub IsFlashed : Memory → Output → Type 0
IsFlashed m out = (i : ℕ) → i < image_size → m (flash_start + i) ≡ byte_at out i

module _ (o : Options) (loader appb parameters : Memory) (file : List ℕ) (bytes : AreBytes file)
    (m : Memory) (f : IsFlashed m (write_all o loader (padded file) appb parameters)) where
  abbrev out : Output
  out = write_all o loader (padded file) appb parameters

  app_lem : (i : ℕ) → i < 51200 → m (134225920 + i) ≡ padded file i
  unfolding write_all
  app_lem i lt =
      let at : flash_start + (8192 + i) ≡ 134225920 + i = omega arith in
      let there : byte_at out (8192 + i) ≡ padded file i =
        fourth_lem loader (bootfrom_data blank)
          (app_info_data o (padded file) (partition_size app_a) blank) (padded file)
          ((app_info_data o appb (partition_size app_b) blank, partition_size app_b_info)
            ∷ (appb, partition_size app_b)
            ∷ (if is_empty o.params_file then [] else (parameters, partition_size params) ∷ []))
          i lt in
      ap m (sym at) ∙ f (8192 + i) (omega arith) ∙ there

  active_lem : active_app m ≡ 0
  unfolding write_all bootfrom_data
  active_lem =
      let b0 : m 134221828 ≡ 0 = f 4100 (omega arith) in
      let b1 : m 134221829 ≡ 0 = f 4101 (omega arith) in
      let b2 : m 134221830 ≡ 0 = f 4102 (omega arith) in
      let b3 : m 134221831 ≡ 0 = f 4103 (omega arith) in rw (b0, b1, b2, b3) refl

  magic_lem : word_at m 134223872 ≡ partition_magic_number
  unfolding write_all app_info_data
  magic_lem =
      let b0 : m 134223872 ≡ 0xEF = f 6144 (omega arith) in
      let b1 : m 134223873 ≡ 0xBE = f 6145 (omega arith) in
      let b2 : m 134223874 ≡ 0xAD = f 6146 (omega arith) in
      let b3 : m 134223875 ≡ 0xDE = f 6147 (omega arith) in rw (b0, b1, b2, b3) refl

  size_lem : word_at m 134223880 ≡ 51200
  unfolding write_all app_info_data
  size_lem =
      let b0 : m 134223880 ≡ 0 = f 6152 (omega arith) in
      let b1 : m 134223881 ≡ 200 = f 6153 (omega arith) in
      let b2 : m 134223882 ≡ 0 = f 6154 (omega arith) in
      let b3 : m 134223883 ≡ 0 = f 6155 (omega arith) in rw (b0, b1, b2, b3) refl

  sum_lem :
      (sum : ℕ)
      → crc32_calculate (region (padded file) 0 (partition_size app_a)) 0 ≡ sum
      → sum < 4294967296
      → word_at m 134223892 ≡ sum
  unfolding write_all app_info_data
  sum_lem sum e lt =
      let b0 : m 134223892 ≡ byte_of sum 0 = f 6164 (omega arith) ∙ ap (λ w. byte_of w 0) e in
      let b1 : m 134223893 ≡ byte_of sum 1 = f 6165 (omega arith) ∙ ap (λ w. byte_of w 1) e in
      let b2 : m 134223894 ≡ byte_of sum 2 = f 6166 (omega arith) ∙ ap (λ w. byte_of w 2) e in
      let b3 : m 134223895 ≡ byte_of sum 3 = f 6167 (omega arith) ∙ ap (λ w. byte_of w 3) e in
      rw (b0, b1, b2, b3) (word_of-byte_of sum lt)

  region_lem : (n : ℕ) → n ≤ 51200 → region m 134225920 n ≡ region (padded file) 0 n
  region_lem n le = region_agree m (padded file) 134225920 0 n (λ i lt.
      let left : u32 (134225920 + i) ≡ 134225920 + i = omega arith in
      let right : u32 (0 + i) ≡ i = omega arith in rw (left, right) (app_lem i (omega arith)))

  check_lem :
      (n sum : ℕ)
      → word_at m 134223880 ≡ n
      → crc32_calculate (region m 134225920 n) 0 ≡ sum
      → word_at m 134223892 ≡ sum
      → check_app_valid m 0 ≡ true
  unfolding check_app_valid
  check_lem n sum size calculated stored =
      let magic = magic_lem in rw (magic, size, calculated, stored) (ground arith)

  starts :
      (w : ℕ)
      → boot_loader_main w m
        ≡ some (record {
          msp = word_at (padded file) 0;
          vtor = partition_address app_a;
          entry = word_at (padded file) 4;
          interrupts = false;
        })
  unfolding boot_loader_main jump_to_app
  starts w =
      let none_first : 0 % 2 ^ w ≡ 0 = zero-mod (2 ^ w) in
      let active = active_lem in
      let le : 51200 ≤ 51200 = omega arith in
      let sum = crc32_calculate (region (padded file) 0 (partition_size app_a)) 0 in
      let small : sum < 4294967296 =
        crc32_calculate-lt (region (padded file) 0 (partition_size app_a))
          (region-AreBytes (padded file) 0 (partition_size app_a) (λ k. padded-lt file k bytes)) in
      let valid =
        check_lem (partition_size app_a) sum size_lem
          (ap (λ l. crc32_calculate l 0) (region_lem (partition_size app_a) le))
          (sum_lem sum refl small) in
      let a0 = app_lem 0 (omega arith) in
      let a1 = app_lem 1 (omega arith) in
      let a2 = app_lem 2 (omega arith) in
      let a3 = app_lem 3 (omega arith) in
      let a4 = app_lem 4 (omega arith) in
      let a5 = app_lem 5 (omega arith) in
      let a6 = app_lem 6 (omega arith) in
      let a7 = app_lem 7 (omega arith) in
      rw (boot_loader_main, active, none_first, valid, a0, a1, a2, a3, a4, a5, a6, a7) refl

-- If `app_padding` succeeds with an application for the first slot whose file holds bytes, and the
-- flash reads as what it wrote, then the boot loader starts the first slot, with the stack pointer
-- and the entry that the first eight bytes of that file give.
pub app_padding-boots :
    (o : Options) (out : Output) (file : List ℕ) (m : Memory) (w : ℕ)
    → o.appa ≡ contents file
    → AreBytes file
    → app_padding o ≡ some out
    → IsFlashed m out
    → boot_loader_main w m
      ≡ some (record {
        msp = word_at (padded file) 0;
        vtor = partition_address app_a;
        entry = word_at (padded file) 4;
        interrupts = false;
      })
app_padding-boots o out file m w given bytes e f =
    let (loader, appa, appb, parameters, loaded, same) = written o out e in
    let whole = load_lem o.appa file appa given loaded in
    starts o loader appb parameters file bytes m
      (subst (λ (d : Memory). IsFlashed m (write_all o loader d appb parameters)) whole
        (subst (IsFlashed m) same f))
      w
