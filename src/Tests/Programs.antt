-- ===== src/Tests/Programs.antt =====
-- The theorems on the program of the host from its options on.
use gd32c103_bootloader.Common.{ℕ, ◌+◌, ◌≡◌, refl, arith, true, List, [], ◌∷◌, some}
use gd32c103_bootloader.Boot.{boot_loader_main}
use gd32c103_bootloader.Boot.Select.{slot_b, start_of}
use gd32c103_bootloader.Xlink.Registry.{Registry}
use gd32c103_bootloader.Xlink.Context.{xlink_context_create}
use gd32c103_bootloader.Upgrade.Init.{upgrade_init}
use gd32c103_bootloader.Upgrade.Init.Dispatch.{generous, upgrade_init-handlers}
use gd32c103_bootloader.Host.{target_partition}
use gd32c103_bootloader.Host.Whole.{described}
use gd32c103_bootloader.Host.Wire.{Ends, wire}
use gd32c103_bootloader.Host.Program.{
  Choice, Chosen, File, World, ended, program, parse_options, reads_slot,
}
use gd32c103_bootloader.Host.Program.Upgrades.{program-upgrades}
use gd32c103_bootloader.Tests.Contexts.{small_port, small_context, waiting_rx, filled_buffer}
use gd32c103_bootloader.Tests.Received.{linked, cells}
use gd32c103_bootloader.Tests.Simulated.{simulated}
use gd32c103_bootloader.Tests.Images.{slot_b_memory-lt, fresh, always_ready}
use gd32c103_bootloader.Tests.Upgraded.{full_firmware, full_firmware-IsBootable}

-- The device runs the application of the first slot.
abbrev vectors : ℕ
vectors = 0x08002000

abbrev device_path : List ℕ
device_path = 47 ∷ 116 ∷ []

abbrev file_path : List ℕ
file_path = 102 ∷ []

abbrev firmware_file : File
firmware_file = record { content = full_firmware; size = 0x20000; seeks = true }

abbrev world : World
world = record {
  opens_device = λ path. true;
  opens_file = λ path. some firmware_file;
  creates_context = true;
  registers = true;
  fresh_info = record {
    partition_type = 0;
    version = 0;
    size_bytes = 0;
    commit_hash = 0;
    compile_timestamp = 0;
    current_base_address = 0;
  };
}

program-upgrades_example :
    (registry : Registry) × (ends : Ends simulated linked 0 vectors) × (upgrade_init linked
        0x20000100
        (generous 0x20002000 cells)
        small_context.registry
      ≡ some registry)
    × (program
          (wire simulated linked 0 vectors)
          (Choice.file file_path ∷ Choice.device device_path ∷ [])
          world
          (record {
            context = record small_context { registry = registry };
            upgrade = fresh;
            host_rx = small_context.rx;
          })
        ≡ ended 0 true ends)
    × (boot_loader_main 8 (simulated.byte ends.upgrade.chip.flash)
        ≡ some (start_of (described full_firmware) slot_b))
unfolding xlink_context_create parse_options reads_slot target_partition
program-upgrades_example =
    program-upgrades simulated linked 0x20000100 0x20002000 cells 0 vectors small_port small_port
      waiting_rx waiting_rx small_context small_context
      (Choice.file file_path ∷ Choice.device device_path ∷ []) world device_path file_path
      firmware_file 8 fresh (filled_buffer 250 0) (filled_buffer 250 0) refl refl (omega arith) refl
      refl refl refl refl refl (omega arith) (omega arith) always_ready
      (λ a. slot_b_memory-lt (a + 0x08000000)) (omega arith) full_firmware-IsBootable (omega arith)

-- Both ends after their set-up.
abbrev running : Ends simulated linked 0 vectors
running = record {
  context = record small_context {
    registry = (upgrade_init-handlers linked 0x20000100 0x20002000 cells (omega arith)).0;
  };
  upgrade = fresh;
  host_rx = small_context.rx;
}

abbrev to_show : Chosen
to_show = record { device_path = some device_path; file_path = some file_path; is_show_info = true }
