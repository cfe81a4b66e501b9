-- ===== src/Keyboard.antt =====
-- src/keyboard.c: scancodes, modifiers and the ring of key events. Characters are their codes.
pub mod Events
pub mod Layout
pub mod Modifiers
mod Tests
use arcade_os.Base.{
  ℕ, zero, suc, ◌+◌, ◌%◌, Bool, true, false, not, ◌&&◌, ◌||◌, Option, none, some, List, [], ◌∷◌,
  ltb, leb, ◌==◌, if◌then◌else◌, get_or, set, length,
}
use arcade_os.Scheduler.{Task}
use arcade_os.Tasks.{kill_foreground}

-- `key_event_t`
pub record KeyEvent : Type 0 where
  pub scancode : ℕ
  pub character : ℕ

abbrev pub no_event : KeyEvent
no_event = record { scancode = 0; character = 0 }

pub record Keyboard : Type 0 where
  pub shift_pressed : Bool
  pub ctrl_pressed : Bool
  pub alt_pressed : Bool
  pub key_buffer : List KeyEvent
  pub kb_head : ℕ
  pub kb_tail : ℕ

abbrev pub key_buffer_size : ℕ
key_buffer_size = 256

abbrev pub scancode_to_ascii : List ℕ
scancode_to_ascii =
    0 ∷ 0 ∷ 49 ∷ 50 ∷ 51 ∷ 52 ∷ 53 ∷ 54 ∷ 55 ∷ 56 ∷ 57 ∷ 48 ∷ 45 ∷ 61 ∷ 8 ∷ 9 ∷ 113 ∷ 119 ∷ 101
    ∷ 114 ∷ 116 ∷ 121 ∷ 117 ∷ 105 ∷ 111 ∷ 112 ∷ 91 ∷ 93 ∷ 10 ∷ 0 ∷ 97 ∷ 115 ∷ 100 ∷ 102 ∷ 103 ∷ 104
    ∷ 106 ∷ 107 ∷ 108 ∷ 59 ∷ 39 ∷ 96 ∷ 0 ∷ 92 ∷ 122 ∷ 120 ∷ 99 ∷ 118 ∷ 98 ∷ 110 ∷ 109 ∷ 44 ∷ 46 ∷ 47
    ∷ 0 ∷ 42 ∷ 0 ∷ 32 ∷ []

abbrev pub scancode_to_ascii_shift : List ℕ
scancode_to_ascii_shift =
    0 ∷ 0 ∷ 33 ∷ 64 ∷ 35 ∷ 36 ∷ 37 ∷ 94 ∷ 38 ∷ 42 ∷ 40 ∷ 41 ∷ 95 ∷ 43 ∷ 8 ∷ 9 ∷ 81 ∷ 87 ∷ 69 ∷ 82
    ∷ 84 ∷ 89 ∷ 85 ∷ 73 ∷ 79 ∷ 80 ∷ 123 ∷ 125 ∷ 10 ∷ 0 ∷ 65 ∷ 83 ∷ 68 ∷ 70 ∷ 71 ∷ 72 ∷ 74 ∷ 75 ∷ 76
    ∷ 58 ∷ 34 ∷ 126 ∷ 0 ∷ 124 ∷ 90 ∷ 88 ∷ 67 ∷ 86 ∷ 66 ∷ 78 ∷ 77 ∷ 60 ∷ 62 ∷ 63 ∷ 0 ∷ 42 ∷ 0 ∷ 32
    ∷ []

-- A full buffer drops the event.
pub kb_push : KeyEvent → Keyboard → Keyboard
kb_push evt k = if (k.kb_head + 1) % key_buffer_size == k.kb_tail then k else record k {
  key_buffer = set k.key_buffer k.kb_head evt;
  kb_head = (k.kb_head + 1) % key_buffer_size;
}

-- The character of a make code under the current shift state.
pub character_of : ℕ → Bool → ℕ
character_of scancode shift =
    if ltb scancode 58
    then if shift
      then get_or scancode_to_ascii_shift scancode 0
      else get_or scancode_to_ascii scancode 0
    else 0

abbrev pub is_shift : ℕ → Bool
is_shift code = code == 0x2A || code == 0x36

-- A break code, without its bit 7.
pub release : ℕ → Keyboard → Keyboard
release code k = record k {
  shift_pressed = if is_shift code then false else k.shift_pressed;
  ctrl_pressed = if code == 0x1D then false else k.ctrl_pressed;
  alt_pressed = if code == 0x38 then false else k.alt_pressed;
}

-- What `keyboard_inject_scancode` works on: the keyboard, the task table, and the state behind the
-- raw hook.
pub record Console (Pads : Type 0) : Type 0 where
  pub keyboard : Keyboard
  pub tasks : List Task
  pub pads : Pads

abbrev pub sigint : ℕ
sigint = 2

-- A make code.
pub press : {Pads : Type 0} → ℕ → Console Pads → Console Pads
unfolding character_of kb_push
press code c =
    if is_shift code
    then record c { keyboard = record c.keyboard { shift_pressed = true } }
    else if code == 0x1D
    then record c { keyboard = record c.keyboard { ctrl_pressed = true } }
    else if code == 0x38
    then record c { keyboard = record c.keyboard { alt_pressed = true } }
    else if c.keyboard.ctrl_pressed && code == 0x2E
    then record c { tasks = kill_foreground sigint c.tasks }
    else record c {
      keyboard =
          kb_push
            (record { scancode = code; character = character_of code c.keyboard.shift_pressed })
            c.keyboard;
    }

-- `keyboard_inject_scancode` of a byte; the hook is the one that `keyboard_set_raw_hook` has set.
pub inject : {Pads : Type 0} → (ℕ → Pads → Pads) → ℕ → Console Pads → Console Pads
unfolding release press
inject hook scancode c =
    let heard = record c { pads = hook scancode c.pads } in
    if leb 0x80 scancode
    then record heard { keyboard = release (scancode % 0x80) c.keyboard }
    else press scancode heard

pub get_key : Keyboard → KeyEvent × Keyboard
get_key k = if k.kb_tail == k.kb_head then (no_event, k) else (
  get_or k.key_buffer k.kb_tail no_event,
  record k { kb_tail = (k.kb_tail + 1) % key_buffer_size },
)

-- `keyboard_read_blocking`: the other tasks and the interrupts run in `schedule`. `none` means that
-- the fuel ran out.
pub read_blocking : (Keyboard → Keyboard) → ℕ → Keyboard → Option (ℕ × Keyboard)
unfolding get_key
read_blocking schedule zero k = none
read_blocking schedule (suc fuel) k =
    let (evt, k') = get_key k in
    let again = read_blocking schedule fuel (schedule k') in
    if not (evt.scancode == 0) && not (evt.character == 0) then some (evt.character, k') else again
