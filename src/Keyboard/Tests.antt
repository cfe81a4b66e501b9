-- ===== src/Keyboard/Tests.antt =====
-- The keyboard at concrete inputs.
use mathlib.Core.List.{append-nil}
use arcade_os.Base.{ℕ, ◌+◌, ◌≡◌, refl, sym, false, some, List, [], ◌∷◌, ◌++◌, set, replicate, arith}
use arcade_os.Keyboard.{KeyEvent, no_event, Keyboard, Console, read_blocking}
use arcade_os.Keyboard.Events.{IsValid, events, Types, Answers, read_blocking-Answers}
use arcade_os.Keyboard.Modifiers.{held, after_codes, text, inject_all, inject_all-text}

-- Two events wait, across the end of the ring: one without a character, and `a`.
abbrev key_f1 : KeyEvent
key_f1 = record { scancode = 0x3B; character = 0 }

abbrev key_a : KeyEvent
key_a = record { scancode = 0x1E; character = 97 }

abbrev keyboard : Keyboard
keyboard = record {
  shift_pressed = false;
  ctrl_pressed = false;
  alt_pressed = false;
  key_buffer = key_a ∷ set (replicate 255 no_event) 254 key_f1;
  kb_head = 1;
  kb_tail = 255;
}

keyboard-IsValid : IsValid keyboard
keyboard-IsValid = record { places = refl; head_inside = omega arith; tail_inside = omega arith }

-- Nobody types.
abbrev idle : Keyboard → Keyboard
idle k = k

idle-Types : Types idle
idle-Types = record { behind = λ k ok. (ok, ([], sym (append-nil _))) }

read_blocking-Answers_example :
    (r : ℕ × Keyboard) × (read_blocking idle 2 keyboard ≡ some r) × Answers key_a [] r
read_blocking-Answers_example =
    read_blocking-Answers idle idle-Types 2 (key_f1 ∷ []) key_a [] keyboard keyboard-IsValid refl
      (refl, tt) refl (omega arith)

-- Shift down, A, shift up, A; the hook counts the codes.
abbrev typing : List ℕ
typing = 0x2A ∷ 0x1E ∷ 0xAA ∷ 0x1E ∷ []

abbrev console : Console ℕ
console = record { keyboard = keyboard; tasks = []; pads = 0 }

abbrev count_code : ℕ → ℕ → ℕ
count_code code n = n + 1

inject_all-text_example :
    (held (inject_all count_code typing console).keyboard ≡ after_codes typing (held keyboard))
    × (events (inject_all count_code typing console).keyboard
        ≡ events keyboard ++ text typing (held keyboard))
inject_all-text_example =
    inject_all-text count_code typing console
      (omega arith, (omega arith, (omega arith, (omega arith, tt)))) keyboard-IsValid (omega arith)
