-- ===== src/Rewind/Tests.antt =====
-- A small game under the recorder.
use arcade_os.Base.{
  ◌||◌, ◌%◌, ◌^◌, ℕ, zero, suc, ◌+◌, ◌*◌, ◌≡◌, refl, true, false, not, ◌&&◌, some, List, [], ◌∷◌,
  ltb, leb, ◌==◌, if◌then◌else◌, arith, take, drop, get_elem?, replicate,
}
use arcade_os.Gamepad.{Mask, PadState, no_buttons, empty_pad, bit_mask}
use arcade_os.Rewind.{
  FrameRec, Snapshot, Snapshots, Demo, Rewind, Here, live, chord, select_button, l1_button, push,
  do_menu_restore, sub_32,
}
use arcade_os.Rewind.Ring.{find_slot, request_restore}
use arcade_os.Rewind.Scrub.{start_step}
use arcade_os.Rewind.Filter.{Filter, filter_pad, menu_chord}
use arcade_os.Rewind.Games.{Input, frames}
use arcade_os.Rewind.Demos.{arm_attract, basename, basename_from, demo_name}
use arcade_os.Rewind.Replay.{Hops, frames-start_step}
use arcade_os.Rewind.Capture.{AllReleased}
use arcade_os.Rewind.Attract.{IsQuiet}
use arcade_os.Rewind.Encore.{
  live_run, written_by, live_run-IsCaptured, demo_save-long, frames-arm_attract,
}
use arcade_os.Rewind.Secrecy.{filter_pad-Secret}
use arcade_os.Rewind.History.{IsRing, history, history-push, do_menu_restore-request_restore}

-- The game doubles its number, and adds one while A is held.
abbrev game : ℕ → PadState → PadState → ℕ
game m a b = m * 2 + (if a.buttons 0 then 1 else 0)

abbrev holding : Mask → PadState
holding m = record empty_pad { buttons = m }

abbrev no_frames : ℕ → FrameRec
no_frames j = record { pad = λ i. empty_pad; vticks = 0 }

abbrev no_demo : Demo
no_demo = record {
  demo_cap = no_frames;
  demo_cap_n = 0;
  cap_active = false;
  demo_seed = 0;
  last_tick = 0;
  demo_play = no_frames;
  demo_play_n = 0;
  attract_seed = 0;
  attract_game = [];
  attract_active = false;
  attract_play = false;
  attract_cursor = 0;
  attract_cancel = false;
  attract_owner = 0;
  attract_deadline = 0;
}

-- Six frames before, A was held in the first.
abbrev log : ℕ → FrameRec
log j = record { pad = λ i. if j == 5 then holding (bit_mask 0) else empty_pad; vticks = j * 16 }

abbrev first_snapshot : Snapshot ℕ
first_snapshot = record { mem = 1; time = 80; vticks = 80; frame = 5 }

abbrev one_snapshot : Snapshots ℕ
one_snapshot = record { slots = λ i. first_snapshot; ring_base = 0; ring_count = 1 }

abbrev scrubbing : Rewind ℕ
scrubbing = record {
  memory = 0;
  enabled = true;
  ring = one_snapshot;
  owner_id = 3;
  recs = log;
  mode = live;
  present_counter = 7;
  replay_cursor = 0;
  replay_until = 0;
  just_restored = false;
  arrived = false;
  scrubbing = true;
  scrub_anchor = 7;
  blit_now = true;
  tick_offset = 0;
  presents_since_snap = 2;
  requested = false;
  pop_n = 1;
  demo = no_demo;
}

abbrev idle : Input
idle = record { now = 0; raw = no_buttons; pad_0 = empty_pad; pad_1 = empty_pad }

-- Frame 6 was the number 1 * 2 + 1; the hop shows the number of one frame more, as if A had been held
-- in two frames.
hop_of_two : (frames game 3 [] (idle ∷ idle ∷ []) (start_step 6 scrubbing)).1.memory ≡ 7
unfolding frames start_step find_slot
hop_of_two = refl

frames-start_step_example : Hops game 3 [] idle (idle ∷ []) scrubbing 6 first_snapshot
frames-start_step_example =
    frames-start_step game 3 [] idle (idle ∷ []) scrubbing 6 first_snapshot refl refl refl refl refl
      (omega arith) (omega arith)

all_idle : (n : ℕ) → AllReleased (replicate n idle)
all_idle zero = tt
all_idle (suc n) = (refl, all_idle n)

all-IsQuiet : (deadline n : ℕ) → IsQuiet deadline (replicate n idle)
all-IsQuiet deadline zero = tt
all-IsQuiet deadline (suc n) = (refl, omega arith, all-IsQuiet deadline n)

-- `PONG.ELF`
abbrev pong : List ℕ
pong = 80 ∷ 79 ∷ 78 ∷ 71 ∷ 46 ∷ 69 ∷ 76 ∷ 70 ∷ []

abbrev before : Rewind ℕ
before = record scrubbing { scrubbing = false }

abbrev session : List Input
session = replicate 200 idle

abbrev played : Rewind ℕ
played = (live_run game 8 pong idle session before).1

played_count : played.demo.demo_cap_n ≡ 201
played_count =
    (live_run-IsCaptured game 8 pong idle session before refl (λ e. omega (arith, e)) refl
      (all_idle 200) (omega arith)).2.1

abbrev armed_again : Rewind ℕ
armed_again = record before {
  demo =
      (arm_attract 0 pong (some (12 + played.demo.demo_cap_n * 32, written_by played.demo))
        no_demo).1;
}

frames-arm_attract_example :
    let again = live_run game 9 pong idle session armed_again in
    (again.0 ≡ true) × (again.1.memory ≡ played.memory)
unfolding basename_from
frames-arm_attract_example =
    frames-arm_attract game 8 9 pong pong idle idle session session before armed_again 0 no_demo
      (demo_name (basename pong)) (written_by played.demo) (12 + played.demo.demo_cap_n * 32) refl
      (λ e. omega (arith, e)) refl (all_idle 200) (omega arith)
      (demo_save-long pong played.demo (omega (arith, played_count))) refl (λ e. omega (arith, e))
      refl refl (all-IsQuiet armed_again.demo.attract_deadline 200) refl

fresh_filter : Filter
fresh_filter = record { cooldown_until = 0; select_pending = true; menu_chord_was_down = false }

filter_pad-Secret_example :
    let st = holding no_buttons in
    let r = filter_pad true 5 0 st fresh_filter in
    (chord r.pad.buttons ≡ false)
    × (menu_chord r.pad.buttons ≡ false)
    × (r.pad.buttons select_button ≡ (
        fresh_filter.select_pending
        && not (st.buttons select_button)
        && not (st.buttons 8)
        && not (st.buttons l1_button)
        && leb fresh_filter.cooldown_until 5))
    × (r.filter.select_pending ≡ (
        not (menu_chord st.buttons)
        && not (chord st.buttons)
        && (if ltb 5 fresh_filter.cooldown_until
            then fresh_filter.select_pending
            else st.buttons select_button)))
    × (r.combo ≡ (
        menu_chord st.buttons
        || chord st.buttons
        || leb fresh_filter.cooldown_until 5
          && fresh_filter.select_pending
          && not (st.buttons select_button)
          && (st.buttons 8 || st.buttons l1_button)))
    × (r.filter.cooldown_until
        ≡ (if r.combo then (5 + 400) % 2 ^ 32 else fresh_filter.cooldown_until))
filter_pad-Secret_example = filter_pad-Secret 5 (holding no_buttons) fresh_filter

one_snapshot-IsRing : IsRing one_snapshot
one_snapshot-IsRing = record { base_inside = omega arith; count_inside = omega arith }

history-push_example :
    history (push (record first_snapshot { frame = 125 }) one_snapshot)
    ≡ take 6 (record first_snapshot { frame = 125 } ∷ history one_snapshot)
history-push_example =
    history-push (record first_snapshot { frame = 125 }) one_snapshot one_snapshot-IsRing

do_menu_restore-request_restore_example :
    let h : Here = record { now = 500; task = 3; name = [] } in
    let w' = do_menu_restore h (request_restore 0 scrubbing) in
    (get_elem? (history one_snapshot) 0 ≡ some first_snapshot)
    × (w'.memory ≡ 1)
    × (w'.present_counter ≡ 5)
    × (sub_32 500 w'.tick_offset ≡ 80)
    × (history w'.ring ≡ drop 0 (history one_snapshot))
do_menu_restore-request_restore_example =
    do_menu_restore-request_restore (record { now = 500; task = 3; name = [] }) 0 scrubbing refl
      (omega arith) (omega arith) (omega arith)
