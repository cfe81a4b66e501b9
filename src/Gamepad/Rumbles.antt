-- ===== src/Gamepad/Rumbles.antt =====
-- src/gamepad.c: the motors of a pad and the tick at which they stop.
use arcade_os.Base.{
  ℕ, ◌+◌, ◌%◌, ◌^◌, Bool, true, false, not, ◌&&◌, ◌||◌, Option, none, some, ltb, leb, if◌then◌else◌,
  min,
}
use arcade_os.Gamepad.{Gamepads, assigned}

-- `rumble_active` and `rumble_stop_tick`
pub record Rumble : Type 0 where
  pub active : Bool
  pub stop_tick : ℕ

abbrev pub max_rumble_ms : ℕ
max_rumble_ms = 2000

abbrev pub has_usb : ℕ → Gamepads → Bool
has_usb slot g =
    assigned g slot 2 && (g.raw 2).connected || assigned g slot 3 && (g.raw 3).connected

-- The first answer is the strength that `usb_set_rumble` is called with, if it is.
pub set_rumble : ℕ → ℕ → ℕ → ℕ → Gamepads → Rumble → Option ℕ × Rumble
set_rumble slot strength ms now g r = if ltb 1 slot || not (has_usb slot g) then (none, r) else (
  some strength,
  record { active = true; stop_tick = (now + min ms max_rumble_ms) % 2 ^ 32 },
)

pub rumble_idle_check : ℕ → Rumble → Option ℕ × Rumble
rumble_idle_check now r =
    if r.active && leb r.stop_tick now then (some 0, record r { active = false }) else (none, r)
