-- ===== src/Rewind/Games.antt =====
-- A game of the SDK under the recorder: between two presents it reads each pad once, and the rest is
-- a function, `game`, of its memory and of the two pads.
use arcade_os.Base.{ℕ, zero, suc, ◌+◌, ◌%◌, Bool, true, false, List, [], ◌∷◌, if◌then◌else◌}
use arcade_os.Gamepad.{Mask, PadState}
use arcade_os.Rewind.{FrameRec, Rewind, Here, records, feed_pad, on_present}

-- One frame as the world sees it: the clock, the raw buttons and the two pads.
pub record Input : Type 0 where
  pub now : ℕ
  pub raw : Mask
  pub pad_0 : PadState
  pub pad_1 : PadState

module _ {Mem : Type 0} (game : Mem → PadState → PadState → Mem) (task : ℕ) (name : List ℕ) where
  abbrev pub here : Input → Here
  here i = record { now = i.now; task = task; name = name }

  -- `pad_read` of both pads, the game, and `gfx_present`.
  unfoldable pub frame : Input → Rewind Mem → Bool × Rewind Mem
  unfolding feed_pad on_present
  frame i w =
      let (logged, a, w₁) = feed_pad (here i) 0 i.pad_0 w in
      let (logged', b, w₂) = feed_pad (here i) 1 i.pad_1 w₁ in
      on_present (here i) i.raw (record w₂ { memory = game w₂.memory a b })

  -- The frames of the list, until a present does not return.
  unfoldable pub frames : List Input → Rewind Mem → Bool × Rewind Mem
  unfolding frame
  frames [] w = (true, w)
  frames (i ∷ is) w =
      let (returns, w') = frame i w in
      let rest = frames is w' in if returns then rest else (false, w')

module _ {Mem : Type 0} (game : Mem → PadState → PadState → Mem) where
  -- What the game makes of the frames of a log.
  unfoldable pub play : (ℕ → FrameRec) → ℕ → ℕ → Mem → Mem
  play recs k zero m = m
  play recs k (suc n) m =
      play recs (k + 1) n (game m ((recs (k % records)).pad 0) ((recs (k % records)).pad 1))
