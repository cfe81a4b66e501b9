-- ===== src/Rewind/Encore.antt =====
-- From a live game to its demo file and back to the screen.
use mathlib.Core.Option.{some-injective}
use arcade_os.Base.{
  ℕ, ◌+◌, ◌*◌, ◌%◌, ◌^◌, ◌≤◌, ◌<◌, ◌≡◌, ◌≢◌, ◌∙◌, refl, sym, ap, subst, Bool, true, false, not,
  ◌||◌, some, List, ltb, ◌==◌, if◌then◌else◌, arith, length, take, Bool-cases, inl, inr,
}
use arcade_os.Gamepad.{PadState}
use arcade_os.Session.Scores.{same_string_refl}
use arcade_os.Rewind.{Demo, Rewind, records, demo_frames, on_present, begin_process, take_snapshot}
use arcade_os.Rewind.Demos.{
  DemoFile, demo_name, demo_save, arm_attract, basename, demo_header_size, frame_rec_size,
  demo_magic, demo_min,
}
use arcade_os.Rewind.Games.{Input, here, frames, play}
use arcade_os.Rewind.Capture.{
  playing, IsCaptured, AllReleased, given, frames-playing, play_same, SamePads,
}
use arcade_os.Rewind.Attract.{showing, IsQuiet, frames-showing}

-- What `rewind_demo_save` writes.
abbrev pub written_by : Demo → DemoFile
written_by d = record {
  magic = demo_magic;
  seed = d.demo_seed;
  nframes = d.demo_cap_n;
  frames = d.demo_cap;
}

pub demo_save-long :
    (elfbase : List ℕ) (d : Demo)
    → demo_min ≤ d.demo_cap_n
    → demo_save elfbase d
      ≡ some (
        demo_name (basename elfbase),
        written_by d,
        demo_header_size + d.demo_cap_n * frame_rec_size,
      )
unfolding demo_save
demo_save-long elfbase d long = rw enough refl
  where
    enough : ltb d.demo_cap_n demo_min ≡ false
    enough = ground (arith, long)

-- What a demo that can be saved becomes in the file.
demo_save-some :
    (elfbase : List ℕ) (d : Demo) (r : List ℕ × DemoFile × ℕ)
    → demo_save elfbase d ≡ some r
    → (demo_min ≤ d.demo_cap_n)
      × (r.1 ≡ written_by d)
      × (r.2 ≡ demo_header_size + d.demo_cap_n * frame_rec_size)
unfolding demo_save
demo_save-some elfbase d r saved = elim (Bool-cases (ltb d.demo_cap_n demo_min)) [
  | inl short ↦ absurd (cc (rw short at saved))
  | inr long ↦
      let e = some-injective _ _ (rw long at saved) in
      (ground (arith, long), ap (λ x. x.1) (sym e), ap (λ x. x.2) (sym e))
]

module _ {Mem : Type 0} (game : Mem → PadState → PadState → Mem) (task : ℕ) (name : List ℕ) where
  new_process : (owner : ℕ) → owner ≢ task → (task == owner) ≡ false
  new_process owner differ = ground (arith, differ)

  -- The first present of a game that is played live.
  first_live : Input → Rewind Mem → Rewind Mem
  first_live i w = begin_process (here game task name i) (record w {
    enabled = true;
    blit_now = true;
    demo = record w.demo { attract_active = false };
  })

  on_present-first_live :
      (i : Input) (w : Rewind Mem)
      → w.enabled ≡ true
      → w.owner_id ≢ task
      → w.demo.attract_active ≡ false
      → on_present (here game task name i) i.raw w
        ≡ (true, playing game task name (first_live i w) 0)
  unfolding on_present begin_process take_snapshot first_live
  on_present-first_live i w on new quiet =
      ap (on_present (here game task name i) i.raw)
        (λ j. record w { enabled = on j; demo = record w.demo { attract_active = quiet j } })
      ∙ rw (new_process w.owner_id new) refl

  -- The live game of the frames, from its first present on.
  abbrev pub live_run : Input → List Input → Rewind Mem → Bool × Rewind Mem
  live_run i is w = frames game task name is (on_present (here game task name i) i.raw w).1

  pub live_run-IsCaptured :
      (i : Input) (is : List Input) (w : Rewind Mem)
      → w.enabled ≡ true
      → w.owner_id ≢ task
      → w.demo.attract_active ≡ false
      → AllReleased is
      → length is < demo_frames
      → ((live_run i is w).0 ≡ true)
        × ((live_run i is w).1.memory ≡ given game is w.memory)
        × IsCaptured game task name (live_run i is w).1 (length is) w.memory
  unfolding begin_process take_snapshot first_live play
  live_run-IsCaptured i is w on new quiet released short =
      subst Holds (sym (on_present-first_live i w on new quiet)) (
        let (returns, mem, cap) =
          frames-playing game task name is (first_live i w) 0 w.memory released (omega arith)
            (refl, omega arith) in
        (
          returns,
          mem,
          subst
              (λ n.
                IsCaptured game task name
                  (frames game task name is (playing game task name (first_live i w) 0)).1 n
                  w.memory)
              (omega arith) cap,
        ))
    where
      Holds : Bool × Rewind Mem → Type 0
      Holds r =
          ((frames game task name is r.1).0 ≡ true)
          × ((frames game task name is r.1).1.memory ≡ given game is w.memory)
          × IsCaptured game task name (frames game task name is r.1).1 (length is) w.memory

  -- The game that an armed demo waits for, before its first present.
  abbrev waited_for : Rewind Mem → Rewind Mem
  waited_for v = record v {
    enabled = true;
    demo = record v.demo {
      attract_active = true;
      attract_play = false;
      attract_game = name;
      attract_cancel = false;
    };
  }

  first_shown : Input → Rewind Mem → Rewind Mem
  first_shown i v =
      record (begin_process (here game task name i) (record (waited_for v) { blit_now = true })) {
        demo = record v.demo { cap_active = false };
      }

  on_present-first_shown :
      (i : Input) (v : Rewind Mem)
      → v.owner_id ≢ task
      → on_present (here game task name i) i.raw (waited_for v)
        ≡ (true, showing game task name (first_shown i v) 0)
  unfolding on_present begin_process take_snapshot first_shown
  on_present-first_shown i v new = rw (new_process v.owner_id new, same_string_refl name) refl

  waited_run :
      (i : Input) (is : List Input) (v : Rewind Mem)
      → v.owner_id ≢ task
      → IsQuiet v.demo.attract_deadline is
      → length is < v.demo.demo_play_n
      → v.demo.demo_play_n ≤ records
      → let r =
          frames game task name is (on_present (here game task name i) i.raw (waited_for v)).1 in
        (r.0 ≡ true) × (r.1.memory ≡ play game v.demo.demo_play 0 (length is) v.memory)
  unfolding begin_process take_snapshot first_shown
  waited_run i is v new quiet short fits = subst Holds (sym (on_present-first_shown i v new)) (
      frames-showing game task name is (first_shown i v) 0 (same_string_refl name) quiet
        (omega arith) fits)
    where
      Holds : Bool × Rewind Mem → Type 0
      Holds r =
          ((frames game task name is r.1).0 ≡ true)
          × ((frames game task name is r.1).1.memory
              ≡ play game v.demo.demo_play 0 (length is) v.memory)

-- A file as `rewind_demo_save` writes it can be armed.
abbrev armed : ℕ → List ℕ → DemoFile → Demo → Demo
armed now elfbase f d = record d {
  demo_play_n = f.nframes;
  attract_seed = f.seed;
  demo_play = λ j. if ltb j f.nframes then f.frames j else d.demo_play j;
  attract_game = take 23 (basename elfbase);
  attract_active = true;
  attract_play = false;
  attract_cursor = 0;
  attract_cancel = false;
  attract_deadline = (now + f.nframes * 20 + 6000) % 2 ^ 32;
}

arm_attract-armed :
    (now : ℕ) (elfbase : List ℕ) (f : DemoFile) (d : Demo)
    → f.magic ≡ demo_magic
    → 0 < f.nframes
    → f.nframes ≤ demo_frames
    → arm_attract now elfbase (some (demo_header_size + f.nframes * frame_rec_size, f)) d
      ≡ (true, armed now elfbase f d)
unfolding arm_attract
arm_attract-armed now elfbase f d magic some_frame fits = rw accepted refl
  where
    accepted :
        (ltb (demo_header_size + f.nframes * frame_rec_size) demo_header_size
          || (not (f.magic == demo_magic) || f.nframes == 0 || ltb demo_frames f.nframes)
          || ltb
              (demo_header_size + f.nframes * frame_rec_size)
              (demo_header_size + f.nframes * frame_rec_size))
        ≡ false
    accepted = ground (arith, magic)

-- A session from a game's first present on is saved as its demo, and the demo is armed and played for
-- a new instance of the game: if nobody touches the pad of player 1, the time is not up, and the
-- instance has at its first present the memory that the first one had there, then after as many
-- frames it has the memory that the first one had. In the session, which is shorter than the longest
-- demo, nobody scrubs.
pub frames-arm_attract :
    {Mem : Type 0} (game : Mem → PadState → PadState → Mem) (task task' : ℕ) (name elfbase : List ℕ)
    (i j : Input) (is js : List Input) (w v : Rewind Mem) (now : ℕ) (d : Demo) (file_name : List ℕ)
    (file : DemoFile) (bytes : ℕ)
    → w.enabled ≡ true
    → w.owner_id ≢ task
    → w.demo.attract_active ≡ false
    → AllReleased is
    → length is < demo_frames
    → demo_save elfbase (live_run game task name i is w).1.demo ≡ some (file_name, file, bytes)
    → v.enabled ≡ true
    → v.owner_id ≢ task'
    → v.memory ≡ w.memory
    → v.demo ≡ (arm_attract now elfbase (some (bytes, file)) d).1
    → IsQuiet v.demo.attract_deadline js
    → length js ≡ length is
    → let again = live_run game task' (take 23 (basename elfbase)) j js v in
      (again.0 ≡ true) × (again.1.memory ≡ (live_run game task name i is w).1.memory)
frames-arm_attract {Mem} game task task' name elfbase i j is js w v now d file_name file bytes on
      new free released short saved on' new' same_start is_armed quiet many =
    let (_, _, (mem, count)) =
      live_run-IsCaptured game task name i is w on new free released short in
    let (_, file_eq, bytes_eq) = demo_save-some elfbase first.demo (file_name, file, bytes) saved in
    let armed_eq : v.demo ≡ armed now elfbase written d =
      is_armed
      ∙ ap (λ b. (arm_attract now elfbase (some (b, file)) d).1) bytes_eq
      ∙ ap
          (λ f.
            (arm_attract now elfbase
              (some (demo_header_size + first.demo.demo_cap_n * frame_rec_size, f)) d).1)
          file_eq
      ∙ ap (λ r. r.1)
          (arm_attract-armed now elfbase written d refl (omega (arith, count))
            (omega (arith, count, short))) in
    let (returns, played) =
      waited_run game task' (take 23 (basename elfbase)) j js ready new'
        (subst (λ x. IsQuiet x.attract_deadline js) armed_eq quiet) (omega (arith, count, many))
        (omega (arith, count, short)) in
    subst
      (λ x.
        ((live_run game task' (take 23 (basename elfbase)) j js x).0 ≡ true)
        × ((live_run game task' (take 23 (basename elfbase)) j js x).1.memory ≡ first.memory))
      (λ k. record v { enabled = sym on' k; demo = sym armed_eq k })
      (
        returns,
        played
            ∙ ap (λ n. play game ready.demo.demo_play 0 n v.memory) many
            ∙ play_same game ready.demo.demo_play first.demo.demo_cap (length is) v.memory
                (omega (arith, short)) (shared count)
            ∙ ap (play game first.demo.demo_cap 0 (length is)) same_start
            ∙ sym mem,
      )
  where
    first : Rewind Mem
    first = (live_run game task name i is w).1

    written : DemoFile
    written = written_by first.demo

    ready : Rewind Mem
    ready = record v { enabled = true; demo = armed now elfbase written d }

    shared :
        first.demo.demo_cap_n ≡ length is + 1
        → SamePads ready.demo.demo_play first.demo.demo_cap (length is)
    shared count j h = rw inside (refl, refl)
      where
        inside : ltb j first.demo.demo_cap_n ≡ true
        inside = ground (arith, count, h)
