-- ===== src/Xlink/Context/Create.antt =====
-- A new context is a state from which the other properties hold.
use gd32c103_bootloader.Common.{◌≡◌, refl, subst, Bool, true, false, [], length, Option, none, some}
use gd32c103_bootloader.Xlink.Message.{xlink_max_payload}
use gd32c103_bootloader.Xlink.Receive.{RxState, Rx}
use gd32c103_bootloader.Xlink.Receive.Stream.{IsIdle}
use gd32c103_bootloader.Xlink.Receive.Bounds as Bounds
use gd32c103_bootloader.Xlink.Registry.{head}
use gd32c103_bootloader.Xlink.Registry.Comps as Comps
use gd32c103_bootloader.Xlink.Context.{Context, PortStart, xlink_context_create}

-- Idle, with a receiver and lists in a valid state.
abbrev pub IsNewContext : Context → Type 0
IsNewContext c = IsIdle c.rx × Bounds.IsValid c.rx × Comps.IsValid c.registry

abbrev pub new_context : Rx → Context
new_context fresh = record {
  rx = record fresh { rx_msg_pos = 0; rx_msg_crc = 0; rx_msg_state = RxState.wait_magic };
  registry = record { comp_id_handler_map = []; comp_id_handler_map_pos = head };
}

pub only_new :
    (functions allocates : Bool) (mutex : Option Bool) (fresh : Rx) (c : Context)
    → xlink_context_create
        (record { has_functions = functions; allocates = allocates; makes_mutex = mutex })
        fresh
      ≡ some c
    → new_context fresh ≡ c
unfolding xlink_context_create
only_new false allocates mutex fresh c e = absurd cc
only_new true false mutex fresh c e = absurd cc
only_new true true none fresh c e = cc
only_new true true (some true) fresh c e = cc
only_new true true (some false) fresh c e = absurd cc

-- A context that is created, whose memory has a buffer of 250 bytes, is idle, its receiver is in a
-- valid state, and so are its lists of handlers, which are empty.
pub xlink_context_create-IsNewContext :
    (port : PortStart) (fresh : Rx) (c : Context)
    → length fresh.rx_msg.payload ≡ xlink_max_payload
    → xlink_context_create port fresh ≡ some c
    → IsNewContext c
xlink_context_create-IsNewContext port fresh c h e =
    subst IsNewContext (only_new port.has_functions port.allocates port.makes_mutex fresh c e) (
      record { waits = refl; buffer = h },
      record { buffer = h; in_range = tt },
      record { comps_end = refl; comps_distinct = tt; comps_linked = tt },
    )
