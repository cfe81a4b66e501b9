-- ===== src/Rewind/Filter.antt =====
-- src/rewind.c: `rewind_filter_pad`, which hides the system's combinations of buttons from the game.
use arcade_os.Base.{ℕ, ◌+◌, ◌%◌, ◌^◌, Bool, true, false, not, ◌&&◌, ◌||◌, ltb, ◌==◌, if◌then◌else◌}
use arcade_os.Gamepad.{Mask, PadState, no_buttons, without_bits, with_bits, bit_mask}
use arcade_os.Rewind.{chord, start_button, select_button, l1_button}

-- The function's own statics.
pub record Filter : Type 0 where
  pub cooldown_until : ℕ
  pub select_pending : Bool
  pub menu_chord_was_down : Bool

-- The answer: is a combination held, has `sysmenu_request` been called, and the pad for the game.
pub record Filtered : Type 0 where
  pub combo : Bool
  pub asks_menu : Bool
  pub pad : PadState
  pub filter : Filter

abbrev pub menu_chord : Mask → Bool
menu_chord b = b select_button && b start_button

abbrev pub cooldown_ms : ℕ
cooldown_ms = 400

-- No buttons, and the sticks in the middle.
abbrev pub cleared : PadState → PadState
cleared st = record st { buttons = no_buttons; lx = 0; ly = 0; rx = 0; ry = 0 }

-- `CHORD | MENU_CHORD`
abbrev pub combo_bits : Mask
combo_bits b = b == start_button || b == select_button || b == l1_button

abbrev pub with_buttons : PadState → Mask → PadState
with_buttons st m = record st { buttons = m }

-- A combination: the game sees nothing of it.
abbrev pub swallow : Bool → Bool → ℕ → PadState → Filtered
swallow menu was_down now st = record {
  combo = true;
  asks_menu = menu;
  pad = cleared st;
  filter = record {
    cooldown_until = (now + cooldown_ms) % 2 ^ 32;
    select_pending = false;
    menu_chord_was_down = was_down;
  };
}

-- No combination: the game sees the buttons that are left.
abbrev pub passes : Filter → Bool → PadState → Mask → Filtered
passes k pending st m = record {
  combo = false;
  asks_menu = false;
  pad = with_buttons st m;
  filter = record k { select_pending = pending; menu_chord_was_down = false };
}

-- Neither combination is held, and the time after one is over.
unfoldable pub lone_select : ℕ → PadState → Filter → Filtered
lone_select now st k =
    if st.buttons select_button
    then passes k true st (without_bits st.buttons (bit_mask select_button))
    else if k.select_pending && (st.buttons start_button || st.buttons l1_button)
    then swallow (st.buttons start_button) false now st
    else if k.select_pending
    then passes k false st (with_bits st.buttons (bit_mask select_button))
    else passes k false st st.buttons

unfoldable pub filter_pad : Bool → ℕ → ℕ → PadState → Filter → Filtered
unfolding lone_select
filter_pad enabled now index st k =
    let same : Filtered = record { combo = false; asks_menu = false; pad = st; filter = k } in
    if not enabled || not (index == 0)
    then same
    else if menu_chord st.buttons
    then swallow (not k.menu_chord_was_down) true now st
    else if chord st.buttons
    then swallow false false now st
    else if ltb now k.cooldown_until
    then passes k k.select_pending st (without_bits st.buttons combo_bits)
    else lone_select now st k
