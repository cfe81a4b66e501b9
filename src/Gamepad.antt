-- ===== src/Gamepad.antt =====
-- src/gamepad.c: the four input sources, their press latches, and which player slot each one
-- feeds. An array is a function of its index. A `uint16_t` of buttons is the set of its bits, as a
-- test on the bit number; an `int16_t` is its 16-bit pattern.
pub mod Polls
pub mod Taps
pub mod Plugs
pub mod Rumbles
mod Tests
use arcade_os.Base.{
  ℕ, ◌+◌, ◌%◌, ◌^◌, Bool, true, false, not, ◌&&◌, ◌||◌, Option, none, some, List, [], ◌∷◌, ltb, leb,
  ◌==◌, if◌then◌else◌, min,
}

abbrev pub Mask : Type 0
Mask = ℕ → Bool

abbrev pub no_buttons : Mask
no_buttons b = false

abbrev pub with_bits : Mask → Mask → Mask
with_bits m n b = m b || n b

abbrev pub without_bits : Mask → Mask → Mask
without_bits m n b = m b && not (n b)

-- `1 << k`
abbrev pub bit_mask : ℕ → Mask
bit_mask k b = b == k

abbrev pub write_at {ℓ} : {A : Type ℓ} → (ℕ → A) → ℕ → A → ℕ → A
write_at f i v j = if j == i then v else f j

-- `pad_state_t`
pub record PadState : Type 0 where
  pub connected : Bool
  pub source : ℕ
  pub buttons : Mask
  pub lx : ℕ
  pub ly : ℕ
  pub rx : ℕ
  pub ry : ℕ
  pub lt : ℕ
  pub rt : ℕ

-- The statics of gamepad.c; -1 in `assignment` and an invalid USB address are `none`.
pub record Gamepads : Type 0 where
  pub raw : ℕ → PadState
  pub src_latch : ℕ → Mask
  pub assignment : ℕ → Option ℕ
  pub usb_addr : ℕ → Option ℕ
  pub kb_extended : Bool
  pub wasd_held : Mask

abbrev pub num_sources : ℕ
num_sources = 4

abbrev pub keyboard_a : ℕ
keyboard_a = 0

abbrev pub keyboard_b : ℕ
keyboard_b = 1

abbrev pub usb_0 : ℕ
usb_0 = 2

abbrev pub empty_pad : PadState
empty_pad = record {
  connected = false;
  source = 0;
  buttons = no_buttons;
  lx = 0;
  ly = 0;
  rx = 0;
  ry = 0;
  lt = 0;
  rt = 0;
}

-- The numbers of the PAD_BTN_ bits.
abbrev pub dpad : ℕ → Option ℕ
dpad code =
    if code == 0x48
    then some 4
    else if code == 0x50
    then some 5
    else if code == 0x4B
    then some 6
    else if code == 0x4D
    then some 7
    else none

pub map_plain_scancode : ℕ → Option ℕ
map_plain_scancode sc =
    if sc == 0x2D
    then some 0
    else if sc == 0x2C
    then some 1
    else if sc == 0x2E
    then some 2
    else if sc == 0x2F
    then some 3
    else if sc == 0x1C
    then some 8
    else if sc == 0x0F
    then some 9
    else if sc == 0x10
    then some 10
    else if sc == 0x12
    then some 11
    else dpad sc

pub map_pad1_scancode : ℕ → Option ℕ
map_pad1_scancode sc =
    if sc == 0x13
    then some 0
    else if sc == 0x14
    then some 1
    else if sc == 0x21
    then some 2
    else if sc == 0x22
    then some 3
    else none

-- The bit of `wasd_held` for W, A, S and D.
pub wasd_bit : ℕ → Option ℕ
wasd_bit code =
    if code == 0x11
    then some 0
    else if code == 0x1E
    then some 1
    else if code == 0x1F
    then some 2
    else if code == 0x20
    then some 3
    else none

-- The d-pad buttons that the held keys stand for.
pub wasd_dpad : Mask → Mask
wasd_dpad held b = b == 6 && held 1 || (b == 7 && held 3 || (b == 4 && held 0 || b == 5 && held 2))

abbrev pub is_dpad : Mask
is_dpad b = leb 4 b && leb b 7

-- An axis that two keys drive: -32767, 32767 or 0, the second key wins.
abbrev pub axis : Bool → Bool → ℕ
axis low high = if high then 32767 else if low then 32769 else 0

pub update_pad1_dirs : Gamepads → Gamepads
unfolding wasd_dpad
update_pad1_dirs g =
    let pad = g.raw keyboard_b in
    let held = wasd_dpad g.wasd_held in
    record g {
      raw = write_at g.raw keyboard_b (record pad {
        lx = axis (g.wasd_held 1) (g.wasd_held 3);
        ly = axis (g.wasd_held 0) (g.wasd_held 2);
        buttons = with_bits (without_bits pad.buttons is_dpad) held;
      });
      src_latch =
          write_at g.src_latch keyboard_b
            (with_bits (g.src_latch keyboard_b) (without_bits held pad.buttons));
    }

-- A key that stands for one button of the source: held from the press on, and latched by it.
pub set_button : ℕ → ℕ → Bool → Gamepads → Gamepads
set_button s bit released g =
    let pad = g.raw s in
    if released
    then record g {
      raw = write_at g.raw s (record pad { buttons = without_bits pad.buttons (bit_mask bit) });
    }
    else record g {
      raw = write_at g.raw s (record pad { buttons = with_bits pad.buttons (bit_mask bit) });
      src_latch = write_at g.src_latch s (with_bits (g.src_latch s) (bit_mask bit));
    }

-- A code without the extended prefix, after the prefix has been taken note of.
pub plain_key : ℕ → Bool → Gamepads → Gamepads
unfolding update_pad1_dirs set_button map_pad1_scancode map_plain_scancode wasd_bit
plain_key code released g = elim (wasd_bit code) [
  | some k ↦ update_pad1_dirs (record g {
    wasd_held =
        if released
        then without_bits g.wasd_held (bit_mask k)
        else with_bits g.wasd_held (bit_mask k);
  })
  | none ↦ elim (map_pad1_scancode code) [
    | some bit ↦ set_button keyboard_b bit released g
    | none ↦ elim (map_plain_scancode code) [
      | some bit ↦ set_button keyboard_a bit released g
      | none ↦ g
    ]
  ]
]

-- `gamepad_kb_hook`
pub kb_hook : ℕ → Gamepads → Gamepads
unfolding plain_key set_button
kb_hook scancode g =
    let code = scancode % 0x80 in
    let released = leb 0x80 scancode in
    let plain = record g { kb_extended = false } in
    if scancode == 0xE0
    then record g { kb_extended = true }
    else if g.kb_extended
    then elim (dpad code) [ some bit ↦ set_button keyboard_a bit released plain | none ↦ plain ]
    else plain_key code released plain

pub init : Gamepads → Gamepads
init g = record g {
  raw = λ s. if leb s 1 then record empty_pad { connected = true; source = 1 } else empty_pad;
  src_latch = λ s. no_buttons;
  assignment = λ s. if leb s 1 then some s else none;
  usb_addr = λ i. none;
}

-- The source feeds the slot.
abbrev pub assigned : Gamepads → ℕ → ℕ → Bool
assigned g slot s = elim (g.assignment s) [ none ↦ false | some p ↦ p == slot ]

-- Outside the dead zone of 4096 to both sides.
abbrev pub past_dead_zone : ℕ → Bool
past_dead_zone v = ltb 4096 v && ltb v 61440

abbrev pub or_else : ℕ → ℕ → ℕ
or_else new old = if new == 0 then old else new

-- One round of `gamepad_get_state`.
pub merge_source : ℕ → ℕ → PadState → Gamepads → PadState × Gamepads
merge_source slot s out g =
    let pad = g.raw s in
    if not (assigned g slot s) || not pad.connected then (out, g) else (
      record {
        connected = true;
        source = pad.source;
        buttons = with_bits (with_bits out.buttons pad.buttons) (g.src_latch s);
        lx = if past_dead_zone pad.lx then pad.lx else out.lx;
        ly = if past_dead_zone pad.ly then pad.ly else out.ly;
        rx = or_else pad.rx out.rx;
        ry = or_else pad.ry out.ry;
        lt = or_else pad.lt out.lt;
        rt = or_else pad.rt out.rt;
      },
      record g { src_latch = write_at g.src_latch s no_buttons },
    )

abbrev pub sources : List ℕ
sources = 0 ∷ 1 ∷ 2 ∷ 3 ∷ []

pub merge_sources : ℕ → List ℕ → PadState → Gamepads → PadState × Gamepads
unfolding merge_source
merge_sources slot [] out g = (out, g)
merge_sources slot (s ∷ ss) out g =
    let (out', g') = merge_source slot s out g in merge_sources slot ss out' g'

-- A slot other than 0 and 1 gives an empty state.
pub get_state : ℕ → Gamepads → PadState × Gamepads
unfolding merge_sources
get_state slot g = if ltb 1 slot then (empty_pad, g) else merge_sources slot sources empty_pad g

pub relatch : ℕ → Mask → Gamepads → Gamepads
relatch slot buttons g = if ltb 1 slot then g else record g {
  src_latch = λ s.
      if ltb s num_sources && assigned g slot s
      then with_bits (g.src_latch s) buttons
      else g.src_latch s;
}

-- The sources in the list that feed the slot, for one bit.
pub held_by : Gamepads → ℕ → List ℕ → Mask
held_by g slot [] b = false
held_by g slot (s ∷ ss) b =
    assigned g slot s && (g.raw s).connected && (g.raw s).buttons b || held_by g slot ss b

pub raw_buttons : ℕ → Gamepads → Mask
unfolding held_by
raw_buttons slot g = if ltb 1 slot then no_buttons else held_by g slot sources

-- A report of a USB pad; a source that is no USB source is ignored.
pub feed_usb : ℕ → PadState → Gamepads → Gamepads
feed_usb s report g = if ltb s usb_0 || leb num_sources s then g else record g {
  src_latch =
      write_at g.src_latch s
        (with_bits (g.src_latch s) (without_bits report.buttons (g.raw s).buttons));
  raw = write_at g.raw s (record report { connected = true; source = 2 });
}

pub assign : ℕ → Option ℕ → Gamepads → Gamepads
assign s slot g =
    if leb num_sources s || elim slot [ none ↦ false | some p ↦ ltb 1 p ]
    then g
    else record g { assignment = write_at g.assignment s slot }

pub gamepad_assignment : ℕ → Gamepads → Option ℕ
gamepad_assignment s g = if leb num_sources s then none else g.assignment s

abbrev pub is_none : Option ℕ → Bool
is_none none = true
is_none (some p) = false

pub latched_by : Gamepads → List ℕ → Mask
latched_by g [] b = false
latched_by g (s ∷ ss) b = is_none (g.assignment s) && g.src_latch s b || latched_by g ss b

pub unassigned_latched : Gamepads → Mask × Gamepads
unfolding latched_by
unassigned_latched g = (
  latched_by g sources,
  record g {
    src_latch =
        λ s. if ltb s num_sources && is_none (g.assignment s) then no_buttons else g.src_latch s;
  },
)

abbrev pub has_addr : Option ℕ → ℕ → Bool
has_addr none addr = false
has_addr (some a) addr = a == addr

-- Another connected USB pad holds the slot.
abbrev pub usb_holds : Gamepads → ℕ → ℕ → Bool
usb_holds g s slot =
    not (s == 2) && assigned g slot 2 && (g.raw 2).connected
    || not (s == 3) && assigned g slot 3 && (g.raw 3).connected

-- The first slot that no other connected USB pad holds.
pub free_slot : Gamepads → ℕ → Option ℕ
free_slot g s =
    if not (usb_holds g s 0) then some 0 else if not (usb_holds g s 1) then some 1 else none

-- The slot goes to the USB source `s`, and the keyboard that has it by default gives it up.
pub give_slot : ℕ → Option ℕ → (ℕ → Option ℕ) → ℕ → Option ℕ
give_slot s none a = write_at a s none
give_slot s (some slot) a =
    write_at (if has_addr (a slot) slot then write_at a slot none else a) s (some slot)

-- The address takes the USB source `usb_0 + i`, which has sent no report yet.
abbrev pub take_source : ℕ → ℕ → Gamepads → Gamepads
take_source i addr g = record g {
  usb_addr = write_at g.usb_addr i (some addr);
  raw = write_at g.raw (usb_0 + i) (record (g.raw (usb_0 + i)) { connected = false });
}

pub claim_source : ℕ → ℕ → Gamepads → Gamepads
unfolding free_slot give_slot
claim_source i addr g =
    let s = usb_0 + i in
    let seen = take_source i addr g in
    record seen { assignment = give_slot s (free_slot seen s) g.assignment }

-- `none` stands for -1: both USB sources are taken.
pub usb_source_for_addr : ℕ → Gamepads → Option ℕ × Gamepads
unfolding claim_source
usb_source_for_addr addr g =
    if has_addr (g.usb_addr 0) addr
    then (some usb_0, g)
    else if has_addr (g.usb_addr 1) addr
    then (some 3, g)
    else if is_none (g.usb_addr 0)
    then (some usb_0, claim_source 0 addr g)
    else if is_none (g.usb_addr 1)
    then (some 3, claim_source 1 addr g)
    else (none, g)

-- The USB source `s` loses its slot, which goes back to the keyboard unless that one feeds another.
pub return_slot : ℕ → Option ℕ → (ℕ → Option ℕ) → ℕ → Option ℕ
return_slot s none a = write_at a s none
return_slot s (some slot) a =
    let gone = write_at a s none in
    let kb : ℕ = if slot == 0 then keyboard_a else keyboard_b in
    if is_none (gone kb) then write_at gone kb (some slot) else gone

-- One round of `gamepad_usb_disconnect_addr`.
pub release_source : ℕ → ℕ → Gamepads → Gamepads
unfolding return_slot
release_source addr i g =
    let s = usb_0 + i in
    if not (has_addr (g.usb_addr i) addr) then g else record g {
      raw = write_at g.raw s (record (g.raw s) { connected = false; buttons = no_buttons });
      src_latch = write_at g.src_latch s no_buttons;
      usb_addr = write_at g.usb_addr i none;
      assignment = return_slot s (g.assignment s) g.assignment;
    }

pub usb_disconnect_addr : ℕ → Gamepads → Gamepads
unfolding release_source
usb_disconnect_addr addr g = release_source addr 1 (release_source addr 0 g)
