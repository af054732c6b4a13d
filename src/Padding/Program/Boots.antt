-- ===== src/Padding/Program/Boots.antt =====
-- A run of app_padding.cpp whose files fit, to the start of src/boot_loader_main.c.
use gd32c103_bootloader.Common.{
  ℕ, ◌+◌, ◌≤◌, ◌≡◌, refl, ap, ◌∙◌, arith, Bool, true, false, ◌||◌, ltb, if◌then◌else◌, List, [],
  ◌∷◌, length, Option, none, some, u32,
}
use gd32c103_bootloader.Crc.Bitwise.{AreBytes}
use gd32c103_bootloader.Boot.{
  Memory, bootloader, app_a, app_b, params, partition_size, partition_address, word_at,
  boot_loader_main,
}
use gd32c103_bootloader.Padding.{
  contents, Options, load, padded, write_all, app_padding, Output, is_empty,
}
use gd32c103_bootloader.Padding.Boots.{IsFlashed, app_padding-boots}
use gd32c103_bootloader.Padding.Program.{
  Flag, Paths, parse_flags, no_paths, System, argument, options_of, writes_all, wrote, write_file,
  after_flags, padding_main,
}

u32-le : (n : ℕ) → u32 n ≤ n
u32-le n = omega arith

load-fits : (l : List ℕ) (size : ℕ) → length l ≤ size → load (contents l) size ≡ some (padded l)
unfolding load
load-fits l size fits =
    let small = u32-le (length l) in
    let short : ltb size (u32 (length l)) ≡ false = ground (arith, small) in rw short refl

-- The files fit, so the image is made.
app_padding-makes :
    (o : Options) (l a b : List ℕ) (parameters : Memory)
    → o.loader ≡ contents l
    → o.appa ≡ contents a
    → o.appb ≡ contents b
    → length l ≤ partition_size bootloader
    → length a ≤ partition_size app_a
    → length b ≤ partition_size app_b
    → load o.params_file (partition_size params) ≡ some parameters
    → app_padding o ≡ some (write_all o (padded l) (padded a) (padded b) parameters)
unfolding app_padding
app_padding-makes o l a b parameters el ea eb fl fa fb ep =
    go (is_empty o.loader || (is_empty o.appa || is_empty o.appb)) (write_all o)
      (load o.loader (partition_size bootloader)) (load o.appa (partition_size app_a))
      (load o.appb (partition_size app_b)) (load o.params_file (partition_size params))
      (rw (el, ea, eb) refl)
      (ap (λ x. load x (partition_size bootloader)) el ∙ load-fits l (partition_size bootloader) fl)
      (ap (λ x. load x (partition_size app_a)) ea ∙ load-fits a (partition_size app_a) fa)
      (ap (λ x. load x (partition_size app_b)) eb ∙ load-fits b (partition_size app_b) fb) ep
  where
    go :
        (usage : Bool) (all : Memory → Memory → Memory → Memory → Output)
        (ml ma mb mp : Option Memory)
        → usage ≡ false
        → ml ≡ some (padded l)
        → ma ≡ some (padded a)
        → mb ≡ some (padded b)
        → mp ≡ some parameters
        → (if usage then none else elim ml [
          | none ↦ none
          | some loader ↦ elim ma [
            | none ↦ none
            | some appa ↦ elim mb [
              | none ↦ none
              | some appb ↦ elim mp [ none ↦ none | some ps ↦ some (all loader appa appb ps) ]
            ]
          ]
        ])
          ≡ some (all (padded l) (padded a) (padded b) parameters)
    go usage all ml ma mb mp hu hl ha hb hp = rw (hu, hl, ha, hb, hp) refl

writes_all_lem :
    (t : System) (k : ℕ) (out : Output) → ((n : ℕ) → t.writes n ≡ true) → writes_all t k out ≡ true
unfolding writes_all
writes_all_lem t k [] h = refl
writes_all_lem t k (b ∷ l) h =
    let now = h k in let rest = writes_all_lem t (k + 1) l h in rw (now, rest) refl

write_file_lem :
    (t : System) (path : List ℕ) (out : Output)
    → t.creates path ≡ true
    → ((k : ℕ) → t.writes k ≡ true)
    → write_file t path (some out) ≡ wrote path out
unfolding write_file
write_file_lem t path out creates writes =
    let all = writes_all_lem t 0 out writes in rw (creates, all) refl

-- The options name files for the boot loader and for both applications, which can be read and fit
-- their partitions, and parameters that do or none. The output can be created and written. Then the
-- program writes it and returns 0, and if the flash reads as what was written, the boot loader
-- starts the first slot, with the stack pointer and the entry that the first eight bytes of its
-- application give. The file of that application holds bytes.
pub padding_main-boots :
    (t : System) (flags : List Flag) (p : Paths) (l a b : List ℕ) (parameters : Memory) (w : ℕ)
    → parse_flags flags no_paths ≡ some p
    → argument t p.loader ≡ contents l
    → argument t p.appa ≡ contents a
    → argument t p.appb ≡ contents b
    → length l ≤ partition_size bootloader
    → length a ≤ partition_size app_a
    → length b ≤ partition_size app_b
    → load (argument t p.params) (partition_size params) ≡ some parameters
    → AreBytes a
    → t.creates p.output_file ≡ true
    → ((k : ℕ) → t.writes k ≡ true)
    → (out : Output) × (padding_main t flags ≡ wrote p.output_file out)
      × ((m : Memory)
          → IsFlashed m out
          → boot_loader_main w m
            ≡ some (record {
              msp = word_at (padded a) 0;
              vtor = partition_address app_a;
              entry = word_at (padded a) 4;
              interrupts = false;
            }))
unfolding padding_main after_flags options_of
padding_main-boots t flags p l a b parameters w parsed el ea eb fl fa fb ep bytes creates writes =
    let o = options_of t p in
    let out = write_all o (padded l) (padded a) (padded b) parameters in
    let made : app_padding o ≡ some out =
      app_padding-makes o l a b parameters el ea eb fl fa fb ep in
    (
      out,
      ap (after_flags t) parsed
          ∙ ap (write_file t p.output_file) made
          ∙ write_file_lem t p.output_file out creates writes,
      λ m flashed. app_padding-boots o out a m w ea bytes made flashed,
    )
