-- ===== src/Tests/KeyRuns.antt =====
-- A keyboard on which a, the shifted b and ALT are pressed.
use cxx_kernel.Base.{◌≡◌, List, [], ◌∷◌, refl, arith}
use cxx_kernel.Bits.{bit, set_bit}
use cxx_kernel.Keyboard.{Keyboard, Event, code, read_key, run_all, mapped_key, press_mods}
use cxx_kernel.Keyboard.Buffer.{Agrees, Holds, view, spec_all, run_all-Agrees}
use cxx_kernel.Keyboard.Layouts.{us, get_layout, get_layout_upcase}
use cxx_kernel.Keyboard.Modifiers.{run_all-alt}

abbrev new_keyboard : Keyboard
new_keyboard = record {
  layout_code = us;
  mods = 0;
  keybuffer = λ i. 0;
  write = 31;
  read = 31;
  printed = [];
}

abbrev typed : List Event
typed =
    code 0x1E ∷ code 0x2A ∷ code 0x30 ∷ code 0xAA ∷ read_key ∷ read_key ∷ read_key ∷ code 0x38 ∷ []

new_keyboard-Holds : Holds new_keyboard []
new_keyboard-Holds = record { stands = tt; ends = refl; fits = omega arith; inside = omega arith }

run_all-Agrees_example :
    Agrees (run_all typed new_keyboard) (spec_all us typed (view new_keyboard []))
run_all-Agrees_example = run_all-Agrees typed new_keyboard [] new_keyboard-Holds

-- The a, the B and the null pointer.
typed_keys : (spec_all us typed (view new_keyboard [])).0 ≡ 97 ∷ 66 ∷ 0 ∷ []
unfolding spec_all mapped_key bit press_mods set_bit get_layout_upcase get_layout
typed_keys = refl

run_all-alt_example : bit (run_all typed new_keyboard).1.mods 3 ≡ 0
run_all-alt_example = run_all-alt typed new_keyboard (unfold bit in refl)
