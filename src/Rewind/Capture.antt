-- ===== src/Rewind/Capture.antt =====
-- Live play: what the recorder keeps is what the game was given.
use arcade_os.Base.{
  ℕ, zero, suc, ◌+◌, ◌-◌, ◌%◌, ◌^◌, ◌≤◌, ◌<◌, ◌≡◌, ◌∙◌, refl, sym, ap, subst, Bool, true, false,
  not, ◌&&◌, List, [], ◌∷◌, ltb, leb, ◌==◌, if◌then◌else◌, arith, length, Bool-cases, inl, inr,
}
use arcade_os.Gamepad.{PadState}
use arcade_os.Rewind.{
  FrameRec, Rewind, live, records, demo_frames, chord, set_pad, set_vticks, sub_32, snap_interval,
  feed_pad, on_present, count_present, live_events, take_snapshot,
}
use arcade_os.Rewind.Games.{Input, here, frame, frames, play}

-- A log after a frame.
abbrev logged : (ℕ → FrameRec) → ℕ → PadState → PadState → ℕ → ℕ → FrameRec
logged r k a b v = set_vticks (set_pad (set_pad r k 0 a) k 1 b) (k + 1) v

logged_earlier :
    (r : ℕ → FrameRec) (k : ℕ) (a b : PadState) (v j : ℕ)
    → j < k
    → ((r j).pad 0 ≡ (logged r k a b v j).pad 0) × ((r j).pad 1 ≡ (logged r k a b v j).pad 1)
logged_earlier r k a b v j h = rw (not_next, not_own) (refl, refl)
  where
    not_next : (j == k + 1) ≡ false
    not_next = ground arith

    not_own : (j == k) ≡ false
    not_own = ground arith

logged_own :
    (r : ℕ → FrameRec) (k : ℕ) (a b : PadState) (v : ℕ)
    → ((logged r k a b v k).pad 0 ≡ a) × ((logged r k a b v k).pad 1 ≡ b)
logged_own r k a b v = rw (not_next, own) (refl, refl)
  where
    not_next : (k == k + 1) ≡ false
    not_next = ground arith

    own : (k == k) ≡ true
    own = ground arith

-- Logs with the same pads in the frames that count.
abbrev pub SamePads : (ℕ → FrameRec) → (ℕ → FrameRec) → ℕ → Type 0
SamePads r r' n = (j : ℕ) → j < n → ((r j).pad 0 ≡ (r' j).pad 0) × ((r j).pad 1 ≡ (r' j).pad 1)

-- No combination of buttons is held.
abbrev pub AllReleased : List Input → Type 0
AllReleased [] = Unit
AllReleased (i ∷ is) = (chord i.raw ≡ false) × AllReleased is

module _ {Mem : Type 0} (game : Mem → PadState → PadState → Mem) where
  -- The frame after the last.
  pub play_last :
      (recs : ℕ → FrameRec) (k n : ℕ) (m : Mem)
      → play game recs k (suc n) m
        ≡ game
            (play game recs k n m)
            ((recs ((k + n) % records)).pad 0)
            ((recs ((k + n) % records)).pad 1)
  unfolding play
  play_last recs k zero m =
      ap (λ j. game m ((recs (j % records)).pad 0) ((recs (j % records)).pad 1)) (omega arith)
  play_last recs k (suc n) m =
      play_last recs (k + 1) n (game m ((recs (k % records)).pad 0) ((recs (k % records)).pad 1))
      ∙ ap
          (λ j.
            game (play game recs k (suc n) m) ((recs (j % records)).pad 0)
              ((recs (j % records)).pad 1))
          (omega arith)

  play_same_from :
      (r r' : ℕ → FrameRec) (k n : ℕ) (m : Mem)
      → k + n ≤ records
      → SamePads r r' (k + n)
      → play game r k n m ≡ play game r' k n m
  unfolding play
  play_same_from r r' k zero m short same = refl
  play_same_from r r' k (suc n) m short same =
      ap (λ x. play game r (k + 1) n (game m x ((r (k % records)).pad 1)))
        (same (k % records) (omega arith)).0
      ∙ ap (λ x. play game r (k + 1) n (game m ((r' (k % records)).pad 0) x))
          (same (k % records) (omega arith)).1
      ∙ play_same_from r r' (k + 1) n (game m ((r' (k % records)).pad 0) ((r' (k % records)).pad 1))
          (omega arith) (λ j h. same j (omega arith))

  pub play_same :
      (r r' : ℕ → FrameRec) (n : ℕ) (m : Mem)
      → n ≤ records
      → SamePads r r' n
      → play game r 0 n m ≡ play game r' 0 n m
  play_same r r' n m short same =
      play_same_from r r' 0 n m (omega arith) (λ j h. same j (omega arith))

  -- What the game makes of the pads as they are.
  abbrev pub given : List Input → Mem → Mem
  given [] m = m
  given (i ∷ is) m = given is (game m i.pad_0 i.pad_1)

module _ {Mem : Type 0} (game : Mem → PadState → PadState → Mem) (task : ℕ) (name : List ℕ) where
  -- A game that plays live, with `k` presents behind it, and its demo being captured.
  abbrev pub playing : Rewind Mem → ℕ → Rewind Mem
  playing w k = record w {
    enabled = true;
    owner_id = task;
    mode = live;
    requested = false;
    present_counter = k;
    demo = record w.demo { attract_active = false; cap_active = true };
  }

  same_id : (task == task) ≡ true
  same_id = ground arith

  fed : Rewind Mem → ℕ → ℕ → PadState → Rewind Mem
  fed w k i st = record w {
    recs = set_pad w.recs (k % records) i st;
    demo = record w.demo { demo_cap = set_pad w.demo.demo_cap k i st };
  }

  feed_pad-playing :
      (i : Input) (st : PadState) (w : Rewind Mem) (k : ℕ)
      → k < demo_frames
      → (feed_pad (here game task name i) 0 st (playing w k)
          ≡ (false, st, playing (fed w k 0 st) k))
        × (feed_pad (here game task name i) 1 st (playing w k)
            ≡ (false, st, playing (fed w k 1 st) k))
  unfolding feed_pad fed
  feed_pad-playing i st w k inside = (rw (same_id, captured) refl, rw (same_id, captured) refl)
    where
      captured : ltb k demo_frames ≡ true
      captured = ground arith

  abbrev snapped : Input → Rewind Mem → ℕ → Rewind Mem
  snapped i w k =
      let r = live_events (here game task name i) i.raw (playing w k) in
      record w { ring = r.ring; presents_since_snap = r.presents_since_snap }

  live_events-playing :
      (i : Input) (w : Rewind Mem) (k : ℕ)
      → chord i.raw ≡ false
      → live_events (here game task name i) i.raw (playing w k) ≡ playing (snapped i w k) k
  unfolding live_events take_snapshot
  live_events-playing i w k released =
      elim (Bool-cases (leb snap_interval (w.presents_since_snap + 1))) [
        | inl due ↦ rw (no_scrub, due) refl
        | inr early ↦ rw (no_scrub, early) refl
      ]
    where
      no_scrub : (not w.scrubbing && ltb 0 w.ring.ring_count && chord i.raw) ≡ false
      no_scrub = ground (arith, released)

  abbrev counted : Input → Rewind Mem → ℕ → Rewind Mem
  counted i w k =
      let v = (i.now + 2 ^ 32 - w.tick_offset) % 2 ^ 32 in
      record w {
        recs = set_vticks w.recs ((k + 1) % records) v;
        blit_now = true;
        demo = record w.demo {
          demo_cap = set_vticks w.demo.demo_cap (k + 1) v;
          demo_cap_n = k + 1 + 1;
        };
      }

  on_present-playing :
      (i : Input) (w : Rewind Mem) (k : ℕ)
      → chord i.raw ≡ false
      → k + 1 < demo_frames
      → on_present (here game task name i) i.raw (playing w k)
        ≡ (true, playing (snapped i (counted i w k) (k + 1)) (k + 1))
  unfolding on_present count_present
  on_present-playing i w k released inside =
      rw (same_id, next, captured)
        (ap (λ w'. (true, w')) (live_events-playing i (counted i w k) (k + 1) released))
    where
      next : (k + 1) % 2 ^ 32 ≡ k + 1
      next = omega arith

      captured : ltb (k + 1) demo_frames ≡ true
      captured = ground arith

  abbrev after_frame : Input → Rewind Mem → ℕ → Rewind Mem
  after_frame i w k =
      let w₂ = fed (fed w k 0 i.pad_0) k 1 i.pad_1 in
      snapped i (counted i (record w₂ { memory = game w₂.memory i.pad_0 i.pad_1 }) k) (k + 1)

  frame-playing :
      (i : Input) (w : Rewind Mem) (k : ℕ)
      → chord i.raw ≡ false
      → k + 1 < demo_frames
      → frame game task name i (playing w k) ≡ (true, playing (after_frame i w k) (k + 1))
  unfolding frame
  frame-playing i w k released inside =
      ap second (feed_pad-playing i i.pad_0 w k (omega arith)).0
      ∙ ap present (feed_pad-playing i i.pad_1 (fed w k 0 i.pad_0) k (omega arith)).1
      ∙ on_present-playing i (record w₂ { memory = game w₂.memory i.pad_0 i.pad_1 }) k released
          inside
    where
      w₂ : Rewind Mem
      w₂ = fed (fed w k 0 i.pad_0) k 1 i.pad_1

      at : Rewind Mem → Bool × Rewind Mem
      at w' = on_present (here game task name i) i.raw w'

      present : Bool × PadState × Rewind Mem → Bool × Rewind Mem
      present r = at (record r.2 { memory = game r.2.memory i.pad_0 r.1 })

      second : Bool × PadState × Rewind Mem → Bool × Rewind Mem
      second r =
          let (logged, b', w') = feed_pad (here game task name i) 1 i.pad_1 r.2 in
          at (record w' { memory = game w'.memory r.1 b' })

  -- The demo of `n` frames makes the memory out of the first one.
  abbrev pub IsCaptured : Rewind Mem → ℕ → Mem → Type 0
  IsCaptured w n m = (w.memory ≡ play game w.demo.demo_cap 0 n m) × (w.demo.demo_cap_n ≡ n + 1)

  IsCaptured-frame :
      (i : Input) (w : Rewind Mem) (k : ℕ) (m : Mem)
      → k + 1 < demo_frames
      → IsCaptured w k m
      → IsCaptured (after_frame i w k) (suc k) m
  unfolding fed
  IsCaptured-frame i w k m inside (mem, count) = (
    ap (λ x. game x i.pad_0 i.pad_1)
          (mem ∙ play_same game w.demo.demo_cap cap k m (omega arith) earlier)
        ∙ ap (λ x. game before x i.pad_1) (sym own.0)
        ∙ ap (λ x. game before ((cap k).pad 0) x) (sym own.1)
        ∙ ap (λ j. game before ((cap j).pad 0) ((cap j).pad 1)) (omega arith)
        ∙ sym (play_last game cap 0 k m),
    omega arith,
  )
    where
      cap : ℕ → FrameRec
      cap = (after_frame i w k).demo.demo_cap

      earlier : SamePads w.demo.demo_cap cap k
      earlier j h = logged_earlier w.demo.demo_cap k i.pad_0 i.pad_1 _ j h

      own : ((cap k).pad 0 ≡ i.pad_0) × ((cap k).pad 1 ≡ i.pad_1)
      own = logged_own w.demo.demo_cap k i.pad_0 i.pad_1 (sub_32 i.now w.tick_offset)

      before : Mem
      before = play game cap 0 k m

  pub frames-playing :
      (is : List Input) (w : Rewind Mem) (k : ℕ) (m : Mem)
      → AllReleased is
      → k + length is < demo_frames
      → IsCaptured w k m
      → let r = frames game task name is (playing w k) in
        (r.0 ≡ true) × (r.1.memory ≡ given game is w.memory) × IsCaptured r.1 (k + length is) m
  unfolding frames fed
  frames-playing [] w k m released short captured =
      (refl, refl, subst (λ n. IsCaptured w n m) (omega arith) captured)
  frames-playing (i ∷ is) w k m (released, later) short captured =
      subst Holds (sym (frame-playing i w k released (omega arith))) (
        let (returns, mem, cap) =
          frames-playing is (after_frame i w k) (k + 1) m later (omega arith) (
            subst (λ n. IsCaptured (after_frame i w k) n m) (omega arith)
              (IsCaptured-frame i w k m (omega arith) captured)) in
        (
          returns,
          mem,
          subst
              (λ n.
                IsCaptured (frames game task name is (playing (after_frame i w k) (k + 1))).1 n m)
              (omega arith) cap,
        ))
    where
      follow : Bool × Rewind Mem → Bool × Rewind Mem
      follow (returns, w') =
          let rest = frames game task name is w' in if returns then rest else (false, w')

      Holds : Bool × Rewind Mem → Type 0
      Holds r =
          ((follow r).0 ≡ true)
          × ((follow r).1.memory ≡ given game is (game w.memory i.pad_0 i.pad_1))
          × IsCaptured (follow r).1 (k + suc (length is)) m
