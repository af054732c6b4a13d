-- ===== src/Tests/Handlers.antt =====
-- The theorems on the handlers.
use gd32c103_bootloader.Common.{◌≡◌, refl, arith, true, [], ◌∷◌, some}
use gd32c103_bootloader.Xlink.Registry.{
  next_of, Comp, Registry, new_handler, register, unregister, find_comp,
}
use gd32c103_bootloader.Xlink.Registry.Comps.{IsValid}
use gd32c103_bootloader.Xlink.Registry.Described.{here, Updates}
use gd32c103_bootloader.Xlink.Registry.Registering.{
  Appends, Registers, register-Registered, register-adds,
}
use gd32c103_bootloader.Xlink.Registry.Removal.{Unregisters, unregister_lem}

-- One component with two handlers.
abbrev one_comp : Comp
one_comp = record {
  address = 100;
  comp_id = 1;
  handlers_list = new_handler 200 0 5 6 ∷ new_handler 300 2 7 6 ∷ [];
  handlers_list_pos = next_of 300;
}

abbrev one_comp_registry : Registry
one_comp_registry = record {
  comp_id_handler_map = one_comp ∷ [];
  comp_id_handler_map_pos = next_of 100;
}

one_comp_registry-IsValid : IsValid one_comp_registry
one_comp_registry-IsValid = record {
  comps_end = refl;
  comps_distinct = (tt, tt);
  comps_linked = ((refl, ((λ e. absurd (omega (arith, e)), tt), (tt, tt))), tt);
}

register-Registered_example :
    Registers 4 9 6 one_comp_registry true true
      (some 500)
      (some 400)
      1
      (register one_comp_registry true true (some 500) (some 400) 1 4 9 6)
unfolding find_comp
register-Registered_example =
    register-Registered one_comp_registry true true (some 500) (some 400) 1 4 9 6
      one_comp_registry-IsValid (λ e. absurd (omega (arith, e)), tt)
      (λ e. absurd (omega (arith, e)), (λ e. absurd (omega (arith, e)), tt))

-- None of the two has the message 2 with the function 9.
register-adds_example :
    (r' : Registry) × (register one_comp_registry true true (some 500) (some 400) 1 2 9 6
      ≡ some (9, r'))
    × IsValid r'
    × Updates one_comp_registry r' 1 (Appends 2 9 6 400)
register-adds_example =
    register-adds one_comp_registry 500 400 1 2 9 6 one_comp.handlers_list one_comp_registry-IsValid
      (λ e. absurd (omega (arith, e)), tt) (here one_comp [] refl)
      (λ e. absurd (omega (arith, e)), (λ e. absurd (omega (arith, e)), tt))
      ((λ f. absurd (omega (arith, f.0))), ((λ f. absurd (omega (arith, f.1))), tt))

unregister_lem_example :
    Unregisters 2 7 6 one_comp_registry true true 1 (unregister one_comp_registry true true 1 2 7 6)
unregister_lem_example =
    unregister_lem one_comp_registry true true 1 2 7 6 one_comp_registry-IsValid
