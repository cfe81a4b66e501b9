-- ===== src/Gamepad/Tests.antt =====
-- The gamepads at concrete inputs.
use arcade_os.Base.{◌≡◌, refl, true, false, none, arith}
use arcade_os.Gamepad.{
  Gamepads, no_buttons, empty_pad, init, get_state, wasd_bit, map_pad1_scancode, map_plain_scancode,
}
use arcade_os.Gamepad.Taps.{IsKey, tap, tap-get_state}
use arcade_os.Gamepad.Plugs.{IsResting}

abbrev blank : Gamepads
blank = record {
  raw = λ s. empty_pad;
  src_latch = λ s. no_buttons;
  assignment = λ s. none;
  usb_addr = λ i. none;
  kb_extended = false;
  wasd_held = no_buttons;
}

abbrev ready : Gamepads
ready = init blank

-- The X key is button A.
button_a-IsKey : IsKey 0x2D 0
unfolding wasd_bit map_pad1_scancode map_plain_scancode
button_a-IsKey = record { short = omega arith; no_wasd = refl; no_pad1 = refl; plain = refl }

tap-get_state_example :
    let (first, g') = get_state 0 (tap 0x2D ready) in
    (first.buttons 0 ≡ true) × ((get_state 0 g').0.buttons 0 ≡ false)
unfolding init
tap-get_state_example = tap-get_state 0 0x2D 0 ready (omega arith) button_a-IsKey refl refl refl

ready-IsResting : IsResting ready
unfolding init
ready-IsResting = record {
  spare_0 = λ e. refl;
  spare_1 = λ e. refl;
  keyboard_a = refl;
  keyboard_b = refl;
}
