-- ===== src/Rewind.antt =====
-- src/rewind.c: the log of what a game observes, the ring of snapshots, and the demos. The content of
-- the pages that a snapshot covers is a parameter, `Mem`.
pub mod Ring
pub mod Scrub
pub mod Filter
pub mod Demos
pub mod Games
pub mod Replay
pub mod Capture
pub mod Attract
pub mod Encore
pub mod Secrecy
pub mod History
mod Tests
use arcade_os.Base.{
  ℕ, zero, suc, ◌+◌, ◌-◌, ◌*◌, ◌%◌, ◌^◌, Bool, true, false, not, ◌&&◌, ◌||◌, Option, none, some,
  List, [], ◌∷◌, ltb, leb, ◌==◌, if◌then◌else◌,
}
use arcade_os.Gamepad.{Mask, PadState, write_at}
use arcade_os.Session.{same_string}

-- `frame_rec_t`
pub record FrameRec : Type 0 where
  pub pad : ℕ → PadState
  pub vticks : ℕ

-- The slots of the ring: `slots`, `slot_time`, `slot_vticks`, `slot_frame`.
pub record Snapshot (Mem : Type 0) : Type 0 where
  pub mem : Mem
  pub time : ℕ
  pub vticks : ℕ
  pub frame : ℕ

pub record Snapshots (Mem : Type 0) : Type 0 where
  pub slots : ℕ → Snapshot Mem
  pub ring_base : ℕ
  pub ring_count : ℕ

pub data Mode : Type 0 where
  live : Mode
  replay : Mode

-- The statics of the demos.
pub record Demo : Type 0 where
  pub demo_cap : ℕ → FrameRec
  pub demo_cap_n : ℕ
  pub cap_active : Bool
  pub demo_seed : ℕ
  pub last_tick : ℕ
  pub demo_play : ℕ → FrameRec
  pub demo_play_n : ℕ
  pub attract_seed : ℕ
  pub attract_game : List ℕ
  pub attract_active : Bool
  pub attract_play : Bool
  pub attract_cursor : ℕ
  pub attract_cancel : Bool
  pub attract_owner : ℕ
  pub attract_deadline : ℕ

-- The other statics, and the memory of the game on the screen.
pub record Rewind (Mem : Type 0) : Type 0 where
  pub memory : Mem
  pub enabled : Bool
  pub ring : Snapshots Mem
  pub owner_id : ℕ
  pub recs : ℕ → FrameRec
  pub mode : Mode
  pub present_counter : ℕ
  pub replay_cursor : ℕ
  pub replay_until : ℕ
  pub just_restored : Bool
  pub arrived : Bool
  pub scrubbing : Bool
  pub scrub_anchor : ℕ
  pub blit_now : Bool
  pub tick_offset : ℕ
  pub presents_since_snap : ℕ
  pub requested : Bool
  pub pop_n : ℕ
  pub demo : Demo

-- `system_ticks`, and `current_task` by its id and its name without the directory.
pub record Here : Type 0 where
  pub now : ℕ
  pub task : ℕ
  pub name : List ℕ

abbrev pub rewind_slots : ℕ
rewind_slots = 6

abbrev pub snap_interval : ℕ
snap_interval = 120

abbrev pub records : ℕ
records = 1024

abbrev pub demo_frames : ℕ
demo_frames = 1024

abbrev pub sub_32 : ℕ → ℕ → ℕ
sub_32 a b = (a + 2 ^ 32 - b) % 2 ^ 32

abbrev pub is_replay : Mode → Bool
is_replay live = false
is_replay replay = true

abbrev pub start_button : ℕ
start_button = 8

abbrev pub select_button : ℕ
select_button = 9

abbrev pub l1_button : ℕ
l1_button = 10

abbrev pub chord : Mask → Bool
chord b = b select_button && b l1_button

abbrev pub slot_at : {Mem : Type 0} → Snapshots Mem → ℕ → ℕ
slot_at r i = (r.ring_base + i) % rewind_slots

-- A full ring gives up its oldest snapshot.
unfoldable pub push : {Mem : Type 0} → Snapshot Mem → Snapshots Mem → Snapshots Mem
push s r =
    if r.ring_count == rewind_slots
    then record {
      slots = write_at r.slots r.ring_base s;
      ring_base = (r.ring_base + 1) % rewind_slots;
      ring_count = r.ring_count - 1 + 1;
    }
    else record r {
      slots = write_at r.slots (slot_at r r.ring_count) s;
      ring_count = r.ring_count + 1;
    }

-- `attract_is_current`
unfoldable pub attract_is_current : Here → Demo → Bool
attract_is_current h d = d.attract_active && same_string h.name d.attract_game

abbrev pub set_pad : (ℕ → FrameRec) → ℕ → ℕ → PadState → ℕ → FrameRec
set_pad recs k i st = write_at recs k (record (recs k) { pad = write_at (recs k).pad i st })

abbrev pub set_vticks : (ℕ → FrameRec) → ℕ → ℕ → ℕ → FrameRec
set_vticks recs k v = write_at recs k (record (recs k) { vticks = v })

abbrev pub any_button : Mask → Bool
any_button b =
    b 0
    || b 1
    || b 2
    || b 3
    || b 4
    || b 5
    || b 6
    || b 7
    || b 8
    || b 9
    || b 10
    || b 11
    || b 12
    || b 13
    || b 14
    || b 15

module _ {Mem : Type 0} where
  unfoldable pub take_snapshot : Here → Rewind Mem → Rewind Mem
  unfolding push
  take_snapshot h w = record w {
    ring =
        push
          (record {
            mem = w.memory;
            time = h.now;
            vticks = sub_32 h.now w.tick_offset;
            frame = w.present_counter;
          })
          w.ring;
  }

  abbrev pub owns : Here → Rewind Mem → Bool
  owns h w = w.enabled && h.task == w.owner_id

  pub replaying : Here → Rewind Mem → Bool
  replaying h w = w.enabled && is_replay w.mode && h.task == w.owner_id

  pub busy : Rewind Mem → Bool
  busy w = w.enabled && (w.scrubbing || is_replay w.mode)

  pub should_blit : Rewind Mem → Bool
  should_blit w = not w.enabled || w.blit_now

  pub adopt_ticks : Here → ℕ → Rewind Mem → Rewind Mem
  adopt_ticks h vticks w = record w { tick_offset = sub_32 h.now vticks }

  pub ticks : Here → Rewind Mem → ℕ × Rewind Mem
  unfolding attract_is_current
  ticks h w =
      let v =
        if not (owns h w)
        then h.now
        else if is_replay w.mode
        then (w.recs (w.replay_cursor % records)).vticks
        else sub_32 h.now w.tick_offset in
      if attract_is_current h w.demo
      then (
        if w.demo.attract_play
            then (w.demo.demo_play w.demo.attract_cursor).vticks
            else w.demo.attract_seed,
        w,
      )
      else (v, record w { demo = record w.demo { last_tick = v } })

  -- The first answer is true where the pad comes from a log.
  unfoldable pub feed_pad : Here → ℕ → PadState → Rewind Mem → Bool × PadState × Rewind Mem
  unfolding attract_is_current
  feed_pad h index st w =
      let d = w.demo in
      if ltb 1 index
      then (false, st, w)
      else if attract_is_current h d
      then (
        true,
        (d.demo_play (if d.attract_play then d.attract_cursor else 0)).pad index,
        record w {
          demo = record d {
            attract_cancel = d.attract_cancel || (index == 0 && any_button st.buttons);
          };
        },
      )
      else if not (owns h w)
      then (false, st, w)
      else if is_replay w.mode
      then (true, (w.recs (w.replay_cursor % records)).pad index, w)
      else (
        false,
        st,
        record w {
          recs = set_pad w.recs (w.present_counter % records) index st;
          demo = record d {
            demo_cap =
                if d.cap_active && ltb w.present_counter demo_frames
                then set_pad d.demo_cap w.present_counter index st
                else d.demo_cap;
          };
        },
      )

  -- The restore that the system menu asks for.
  unfoldable pub do_menu_restore : Here → Rewind Mem → Rewind Mem
  do_menu_restore h w =
      let kept = w.ring.ring_count - w.pop_n in
      let s = w.ring.slots (slot_at w.ring kept) in
      if w.ring.ring_count == 0 then w else record w {
        memory = s.mem;
        present_counter = s.frame;
        tick_offset = sub_32 h.now s.vticks;
        presents_since_snap = 0;
        pop_n = 1;
        ring = record w.ring { ring_count = kept + 1 };
      }

  -- A new process on the screen: its history and its demo begin here.
  unfoldable pub begin_process : Here → Rewind Mem → Rewind Mem
  unfolding take_snapshot
  begin_process h w =
      let d = w.demo in
      let waited = d.attract_active && not d.attract_play && same_string h.name d.attract_game in
      take_snapshot h (record w {
        owner_id = h.task;
        ring = record w.ring { ring_base = 0; ring_count = 0 };
        presents_since_snap = 0;
        requested = false;
        present_counter = 0;
        tick_offset = 0;
        mode = live;
        scrubbing = false;
        arrived = false;
        just_restored = false;
        recs = set_vticks w.recs 0 h.now;
        demo =
            if waited
            then record d {
              attract_play = true;
              attract_cursor = 0;
              attract_owner = h.task;
              cap_active = false;
            }
            else record d {
              cap_active = true;
              demo_cap_n = 1;
              demo_cap = set_vticks d.demo_cap 0 h.now;
              demo_seed = d.last_tick;
            };
      })

  -- A present while frames are played again.
  unfoldable pub replay_present : Rewind Mem → Rewind Mem
  replay_present w =
      let cursor = if w.just_restored then w.replay_cursor else (w.replay_cursor + 1) % 2 ^ 32 in
      let there = leb w.replay_until cursor in
      record w {
        just_restored = false;
        replay_cursor = cursor;
        arrived = w.arrived || there;
        blit_now = there;
      }

  -- The next frame of the timeline, in both logs.
  unfoldable pub count_present : Here → Rewind Mem → Rewind Mem
  count_present h w =
      let d = w.demo in
      let k = (w.present_counter + 1) % 2 ^ 32 in
      let v = sub_32 h.now w.tick_offset in
      let captures = d.cap_active && ltb k demo_frames in
      record w {
        present_counter = k;
        recs = set_vticks w.recs (k % records) v;
        demo = record d {
          demo_cap = if captures then set_vticks d.demo_cap k v else d.demo_cap;
          demo_cap_n = if captures then k + 1 else d.demo_cap_n;
        };
      }

  -- What else a present can begin: a scrub, a restore or a snapshot. `raw` is
  -- `gamepad_raw_buttons(0)`.
  unfoldable pub live_events : Here → Mask → Rewind Mem → Rewind Mem
  unfolding do_menu_restore take_snapshot
  live_events h raw w =
      if not w.scrubbing && ltb 0 w.ring.ring_count && chord raw
      then record w { scrubbing = true; scrub_anchor = w.present_counter }
      else if w.requested
      then do_menu_restore h (record w { requested = false })
      else if leb snap_interval (w.presents_since_snap + 1)
      then take_snapshot h (record w { presents_since_snap = 0 })
      else record w { presents_since_snap = w.presents_since_snap + 1 }

  -- The first answer is false where `attract_end` ends the task, and the call does not return.
  unfoldable pub on_present : Here → Mask → Rewind Mem → Bool × Rewind Mem
  unfolding begin_process replay_present count_present live_events
  on_present h raw w₀ =
      let w = record w₀ { blit_now = true } in
      let d = w.demo in
      let cursor = d.attract_cursor + 1 in
      if not w.enabled
      then (true, w)
      else if not (h.task == w.owner_id)
      then (true, begin_process h w)
      else if d.attract_active && d.attract_play && h.task == d.attract_owner
      then (if leb d.demo_play_n cursor || d.attract_cancel || ltb d.attract_deadline h.now
          then (
            false,
            record w { demo = record d { attract_cursor = cursor; attract_active = false } },
          )
          else (true, record w { demo = record d { attract_cursor = cursor } }))
      else if is_replay w.mode
      then (true, replay_present w)
      else (true, live_events h raw (count_present h w))
