-- ===== src/Rewind/Scrub.antt =====
-- src/rewind.c: the scrub session, from the loop that holds the game to the end.
use arcade_os.Base.{
  ℕ, ◌+◌, ◌-◌, ◌%◌, ◌^◌, Bool, true, false, not, ◌&&◌, ◌||◌, Option, none, some, List, [], ◌∷◌, ltb,
  leb, ◌==◌, if◌then◌else◌,
}
use arcade_os.Rewind.{Rewind, Here, live, replay, is_replay, records, sub_32}
use arcade_os.Rewind.Ring.{slot_for_frame, drop_newer}

abbrev pub scrub_step_frames : ℕ
scrub_step_frames = 8

abbrev pub scrub_step_ms : ℕ
scrub_step_ms = 66

-- What a round of the holding loop sees: is the chord held, and `system_ticks`.
pub record Pass : Type 0 where
  pub held : Bool
  pub now : ℕ

-- The frame that the next hop goes to.
abbrev pub hop_target : ℕ → ℕ → ℕ
hop_target f oldest = if ltb (oldest + scrub_step_frames) f then f - scrub_step_frames else oldest

module _ {Mem : Type 0} where
  unfoldable pub start_step : ℕ → Rewind Mem → Rewind Mem
  start_step target w = elim (slot_for_frame w.ring target) [
    | none ↦ w
    | some slot ↦ record w {
      memory = (w.ring.slots slot).mem;
      replay_cursor = (w.ring.slots slot).frame;
      replay_until = target;
      just_restored = true;
      mode = replay;
    }
  ]

  unfoldable pub finalize_scrub : ℕ → ℕ → Rewind Mem → Rewind Mem
  finalize_scrub now f w =
      let ended = record w { scrubbing = false; arrived = false; mode = live } in
      if f == w.scrub_anchor then ended else record ended {
        present_counter = f;
        tick_offset = sub_32 now (w.recs ((f - 1) % records)).vticks;
        ring = record w.ring { ring_count = drop_newer w.ring.ring_count w.ring f };
        presents_since_snap = 0;
      }

  -- The loop, over the rounds that it is given; `none` where it still holds the game after them.
  unfoldable pub hold : ℕ → ℕ → List Pass → Rewind Mem → Option (Rewind Mem)
  unfolding start_step finalize_scrub
  hold f next_hop [] w = none
  hold f next_hop (p ∷ ps) w =
      let oldest = (w.ring.slots w.ring.ring_base).frame in
      let due = leb next_hop p.now in
      let rest = hold f (if due then (p.now + scrub_step_ms) % 2 ^ 32 else next_hop) ps w in
      if not p.held
      then some (finalize_scrub p.now f w)
      else if due && (ltb 0 w.ring.ring_count && ltb oldest f)
      then some (start_step (hop_target f oldest) w)
      else rest

  unfoldable pub post_blit : Here → List Pass → Rewind Mem → Option (Rewind Mem)
  unfolding hold
  post_blit h ps w =
      if not w.enabled || not w.scrubbing || (is_replay w.mode && not w.arrived)
      then some w
      else hold (if is_replay w.mode then w.replay_until else w.present_counter)
          ((h.now + scrub_step_ms) % 2 ^ 32) ps (record w { arrived = false })
