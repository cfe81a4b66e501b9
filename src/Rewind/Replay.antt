-- ===== src/Rewind/Replay.antt =====
-- What a hop of the scrub shows.
use arcade_os.Base.{
  ℕ, ◌+◌, ◌%◌, ◌^◌, ◌≤◌, ◌<◌, ◌≡◌, ◌∙◌, refl, sym, subst, ap, Bool, true, false, not, ◌&&◌, Option,
  none, some, List, [], ◌∷◌, leb, ◌==◌, if◌then◌else◌, arith, length,
}
use arcade_os.Gamepad.{PadState}
use arcade_os.Rewind.{
  FrameRec, Snapshot, Rewind, replay, records, feed_pad, on_present, replay_present,
}
use arcade_os.Rewind.Ring.{slot_for_frame}
use arcade_os.Rewind.Scrub.{start_step}
use arcade_os.Rewind.History.{history, first_until, slot_for_frame-first_until}
use arcade_os.Rewind.Games.{Input, here, frame, frames, play}

module _ {Mem : Type 0} (game : Mem → PadState → PadState → Mem) (task : ℕ) (name : List ℕ) where
  abbrev step_of : (ℕ → FrameRec) → ℕ → Mem → Mem
  step_of recs c m = game m ((recs (c % records)).pad 0) ((recs (c % records)).pad 1)

  -- The game at a frame of the log, with that memory.
  abbrev seeking : Rewind Mem → Bool → ℕ → Mem → Rewind Mem
  seeking w restored c m = record w {
    memory = m;
    enabled = true;
    owner_id = task;
    mode = replay;
    replay_cursor = c;
    just_restored = restored;
    arrived = not restored && leb w.replay_until c;
    blit_now = if restored then w.blit_now else leb w.replay_until c;
    demo = record w.demo { attract_active = false };
  }

  same_id : (task == task) ≡ true
  same_id = ground arith

  feed_pad-seeking :
      (i : Input) (st : PadState) (w : Rewind Mem) (b : Bool) (c : ℕ) (m : Mem)
      → (feed_pad (here game task name i) 0 st (seeking w b c m)
          ≡ (true, (w.recs (c % records)).pad 0, seeking w b c m))
        × (feed_pad (here game task name i) 1 st (seeking w b c m)
            ≡ (true, (w.recs (c % records)).pad 1, seeking w b c m))
  unfolding feed_pad
  feed_pad-seeking i st w b c m = (rw same_id refl, rw same_id refl)

  abbrev shown : Rewind Mem → Bool → ℕ → Mem → Rewind Mem
  shown w b c m = replay_present (record (seeking w b c m) { blit_now = true })

  on_present-seeking :
      (i : Input) (w : Rewind Mem) (b : Bool) (c : ℕ) (m : Mem)
      → on_present (here game task name i) i.raw (seeking w b c m) ≡ (true, shown w b c m)
  unfolding on_present
  on_present-seeking i w b c m = rw same_id refl

  frame-shown :
      (i : Input) (w : Rewind Mem) (b : Bool) (c : ℕ) (m : Mem)
      → frame game task name i (seeking w b c m) ≡ (true, shown w b c (step_of w.recs c m))
  unfolding frame
  frame-shown i w b c m =
      ap second (feed_pad-seeking i i.pad_0 w b c m).0
      ∙ ap present (feed_pad-seeking i i.pad_1 w b c m).1
      ∙ on_present-seeking i w b c (step_of w.recs c m)
    where
      at : Rewind Mem → Bool × Rewind Mem
      at w' = on_present (here game task name i) i.raw w'

      present : Bool × PadState × Rewind Mem → Bool × Rewind Mem
      present r = at (record r.2 { memory = game r.2.memory ((w.recs (c % records)).pad 0) r.1 })

      second : Bool × PadState × Rewind Mem → Bool × Rewind Mem
      second r =
          let (logged, b', w₂) = feed_pad (here game task name i) 1 i.pad_1 r.2 in
          at (record w₂ { memory = game w₂.memory r.1 b' })

  -- The first frame after the restore leaves the cursor.
  shown_restored : (w : Rewind Mem) (c : ℕ) (m : Mem) → shown w true c m ≡ seeking w false c m
  unfolding replay_present
  shown_restored w c m = refl

  shown_next :
      (w : Rewind Mem) (c : ℕ) (m : Mem)
      → c < w.replay_until
      → w.replay_until < 2 ^ 32
      → shown w false c m ≡ seeking w false (c + 1) m
  unfolding replay_present
  shown_next w c m before in_word = rw (next, early) refl
    where
      next : (c + 1) % 2 ^ 32 ≡ c + 1
      next = omega arith

      early : leb w.replay_until c ≡ false
      early = ground arith

  frames-seeking :
      (is : List Input) (w : Rewind Mem) (c : ℕ) (m : Mem)
      → c + length is ≤ w.replay_until
      → w.replay_until < 2 ^ 32
      → frames game task name is (seeking w false c m)
        ≡ (true, seeking w false (c + length is) (play game w.recs c (length is) m))
  unfolding frames play
  frames-seeking [] w c m short in_word = ap (λ k. (true, seeking w false k m)) (omega arith)
  frames-seeking (i ∷ is) w c m short in_word =
      ap follow (frame-shown i w false c m)
      ∙ ap (λ w'. follow (true, w')) (shown_next w c (step_of w.recs c m) (omega arith) in_word)
      ∙ frames-seeking is w (c + 1) (step_of w.recs c m) (omega arith) in_word
      ∙ ap
          (λ k.
            (true, seeking w false k (play game w.recs (c + 1) (length is) (step_of w.recs c m))))
          (omega arith)
    where
      follow : Bool × Rewind Mem → Bool × Rewind Mem
      follow (returns, w') =
          let rest = frames game task name is w' in if returns then rest else (false, w')

  start_step-seeking :
      (w : Rewind Mem) (target slot : ℕ)
      → slot_for_frame w.ring target ≡ some slot
      → w.enabled ≡ true
      → w.owner_id ≡ task
      → w.arrived ≡ false
      → w.demo.attract_active ≡ false
      → start_step target w
        ≡ seeking
            (record w { replay_until = target })
            true
            (w.ring.slots slot).frame
            (w.ring.slots slot).mem
  unfolding start_step
  start_step-seeking w target slot at on own seeking_yet playing = ap started at ∙ (λ j.
      record (started (some slot)) {
        enabled = on j;
        owner_id = own j;
        arrived = seeking_yet j;
        demo = record w.demo { attract_active = playing j };
      })
    where
      started : Option ℕ → Rewind Mem
      started o = elim o [
        | none ↦ w
        | some slot ↦ record w {
          memory = (w.ring.slots slot).mem;
          replay_cursor = (w.ring.slots slot).frame;
          replay_until = target;
          just_restored = true;
          mode = replay;
        }
      ]

  -- What the frames of a hop lead to, from the snapshot `s` on.
  abbrev pub Hops : Input → List Input → Rewind Mem → ℕ → Snapshot Mem → Type 0
  Hops i is w target s =
      let (returns, w') = frames game task name (i ∷ is) (start_step target w) in
      (returns ≡ true)
      × (w'.memory ≡ play game w.recs s.frame (length is) (play game w.recs s.frame 1 s.mem))
      × (w'.blit_now ≡ leb target (s.frame + length is))
      × (w'.arrived ≡ leb target (s.frame + length is))

  frames-hop :
      (i : Input) (is : List Input) (w : Rewind Mem) (target slot : ℕ)
      → slot_for_frame w.ring target ≡ some slot
      → w.enabled ≡ true
      → w.owner_id ≡ task
      → w.arrived ≡ false
      → w.demo.attract_active ≡ false
      → target < 2 ^ 32
      → (w.ring.slots slot).frame + length is ≤ target
      → Hops i is w target (w.ring.slots slot)
  unfolding frames play
  frames-hop i is w target slot at on own seeking_yet playing in_word short =
      let end =
        ap follow (
          ap (frame game task name i)
            (start_step-seeking w target slot at on own seeking_yet playing)
          ∙ frame-shown i (record w { replay_until = target }) true s.frame s.mem
          ∙ ap (λ w'. (true, w'))
              (shown_restored (record w { replay_until = target }) s.frame
                (step_of w.recs s.frame s.mem)))
        ∙ frames-seeking is (record w { replay_until = target }) s.frame
            (step_of w.recs s.frame s.mem) short in_word in
      (
        ap (λ r. r.0) end,
        ap (λ r. r.1.memory) end,
        ap (λ r. r.1.blit_now) end,
        ap (λ r. r.1.arrived) end,
      )
    where
      s : Snapshot Mem
      s = w.ring.slots slot

      follow : Bool × Rewind Mem → Bool × Rewind Mem
      follow (returns, w') =
          let rest = frames game task name is w' in if returns then rest else (false, w')

  -- A hop to a frame restores the newest snapshot of the ring at or before it, if there is one. The
  -- game then runs its first frame with the inputs of the snapshot's frame, and after it each frame of
  -- the log from the snapshot's on: those inputs a second time, and then the others up to the frame
  -- before the target, whatever the pads and the clock say meanwhile. The screen shows nothing until it
  -- is there. The recorder is on for the task that presents, and no demo plays.
  pub frames-start_step :
      (i : Input) (is : List Input) (w : Rewind Mem) (target : ℕ) (s : Snapshot Mem)
      → first_until target (history w.ring) ≡ some s
      → w.enabled ≡ true
      → w.owner_id ≡ task
      → w.arrived ≡ false
      → w.demo.attract_active ≡ false
      → target < 2 ^ 32
      → s.frame + length is ≤ target
      → Hops i is w target s
  frames-start_step i is w target s newest on own seeking_yet playing in_word short =
      let (slot, at, here) = slot_for_frame-first_until w.ring target s newest in
      subst (Hops i is w target) here (
        frames-hop i is w target slot at on own seeking_yet playing in_word
          (subst (λ x. x.frame + length is ≤ target) (sym here) short))
