-- ===== src/Rewind/Attract.antt =====
-- A demo that plays: the game does what it did.
use arcade_os.Base.{
  ℕ, suc, ◌+◌, ◌≤◌, ◌<◌, ◌≡◌, ◌∙◌, refl, sym, ap, subst, Bool, true, false, List, [], ◌∷◌, ltb, leb,
  ◌==◌, if◌then◌else◌, arith, length,
}
use arcade_os.Gamepad.{PadState}
use arcade_os.Session.{same_string}
use arcade_os.Rewind.{Rewind, records, feed_pad, on_present, any_button, attract_is_current}
use arcade_os.Rewind.Games.{Input, here, frame, frames, play}

-- Nobody touches the pad of player 1, and the time is not up.
abbrev pub IsQuiet : ℕ → List Input → Type 0
IsQuiet deadline [] = Unit
IsQuiet deadline (i ∷ is) =
    (any_button i.pad_0.buttons ≡ false) × (i.now ≤ deadline) × IsQuiet deadline is

module _ {Mem : Type 0} (game : Mem → PadState → PadState → Mem) (task : ℕ) (name : List ℕ) where
  -- The demo at the frame `k`.
  abbrev pub showing : Rewind Mem → ℕ → Rewind Mem
  showing w k = record w {
    enabled = true;
    owner_id = task;
    demo = record w.demo {
      attract_active = true;
      attract_play = true;
      attract_owner = task;
      attract_game = name;
      attract_cancel = false;
      attract_cursor = k;
    };
  }

  same_id : (task == task) ≡ true
  same_id = ground arith

  feed_pad-showing :
      (i : Input) (w : Rewind Mem) (k : ℕ)
      → same_string name name ≡ true
      → any_button i.pad_0.buttons ≡ false
      → (feed_pad (here game task name i) 0 i.pad_0 (showing w k)
          ≡ (true, (w.demo.demo_play k).pad 0, showing w k))
        × (feed_pad (here game task name i) 1 i.pad_1 (showing w k)
            ≡ (true, (w.demo.demo_play k).pad 1, showing w k))
  unfolding feed_pad attract_is_current
  feed_pad-showing i w k own quiet = (rw (own, quiet) refl, rw own refl)

  on_present-showing :
      (i : Input) (w : Rewind Mem) (k : ℕ)
      → k + 1 < w.demo.demo_play_n
      → i.now ≤ w.demo.attract_deadline
      → on_present (here game task name i) i.raw (showing w k)
        ≡ (true, showing (record w { blit_now = true }) (k + 1))
  unfolding on_present
  on_present-showing i w k more in_time = rw (same_id, goes_on, not_late) refl
    where
      goes_on : leb w.demo.demo_play_n (k + 1) ≡ false
      goes_on = ground arith

      not_late : ltb w.demo.attract_deadline i.now ≡ false
      not_late = ground arith

  abbrev next_memory : Rewind Mem → ℕ → Mem
  next_memory w k = game w.memory ((w.demo.demo_play k).pad 0) ((w.demo.demo_play k).pad 1)

  frame-showing :
      (i : Input) (w : Rewind Mem) (k : ℕ)
      → same_string name name ≡ true
      → any_button i.pad_0.buttons ≡ false
      → k + 1 < w.demo.demo_play_n
      → i.now ≤ w.demo.attract_deadline
      → frame game task name i (showing w k)
        ≡ (true, showing (record w { memory = next_memory w k; blit_now = true }) (k + 1))
  unfolding frame
  frame-showing i w k own quiet more in_time =
      ap second (feed_pad-showing i w k own quiet).0
      ∙ ap present (feed_pad-showing i w k own quiet).1
      ∙ on_present-showing i (record w { memory = next_memory w k }) k more in_time
    where
      at : Rewind Mem → Bool × Rewind Mem
      at w' = on_present (here game task name i) i.raw w'

      present : Bool × PadState × Rewind Mem → Bool × Rewind Mem
      present r = at (record r.2 { memory = game r.2.memory ((w.demo.demo_play k).pad 0) r.1 })

      second : Bool × PadState × Rewind Mem → Bool × Rewind Mem
      second r =
          let (logged, b', w') = feed_pad (here game task name i) 1 i.pad_1 r.2 in
          at (record w' { memory = game w'.memory r.1 b' })

  pub frames-showing :
      (is : List Input) (w : Rewind Mem) (k : ℕ)
      → same_string name name ≡ true
      → IsQuiet w.demo.attract_deadline is
      → k + length is < w.demo.demo_play_n
      → w.demo.demo_play_n ≤ records
      → let r = frames game task name is (showing w k) in
        (r.0 ≡ true) × (r.1.memory ≡ play game w.demo.demo_play k (length is) w.memory)
  unfolding frames play
  frames-showing [] w k own quiet short fits = (refl, refl)
  frames-showing (i ∷ is) w k own (untouched, in_time, quiet) short fits =
      subst Holds (sym (frame-showing i w k own untouched (omega arith) in_time)) (
        let (returns, mem) = frames-showing is next (k + 1) own quiet (omega arith) fits in
        (
          returns,
          mem
              ∙ ap (λ j. play game w.demo.demo_play (k + 1) (length is) (next_memory w j))
                  (omega arith),
        ))
    where
      next : Rewind Mem
      next = record w { memory = next_memory w k; blit_now = true }

      follow : Bool × Rewind Mem → Bool × Rewind Mem
      follow (returns, w') =
          let rest = frames game task name is w' in if returns then rest else (false, w')

      Holds : Bool × Rewind Mem → Type 0
      Holds r =
          ((follow r).0 ≡ true)
          × ((follow r).1.memory ≡ play game w.demo.demo_play k (suc (length is)) w.memory)
