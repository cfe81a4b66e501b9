-- ===== src/Rewind/Demos.antt =====
-- src/rewind.c: demos as files. `demo_io` is the header with the frames that stand behind it; what
-- fat32_save is called with and what fat32_load answers are the ends of the two functions.
use arcade_os.Base.{
  ℕ, zero, suc, ◌+◌, ◌*◌, ◌%◌, ◌^◌, Bool, true, false, not, ◌||◌, Option, none, some, List, [], ◌∷◌,
  ◌++◌, ltb, ◌==◌, if◌then◌else◌, take,
}
use arcade_os.Rewind.{FrameRec, Demo, demo_frames}

-- `demo_hdr_t`, and the frames.
pub record DemoFile : Type 0 where
  pub magic : ℕ
  pub seed : ℕ
  pub nframes : ℕ
  pub frames : ℕ → FrameRec

abbrev pub demo_min : ℕ
demo_min = 180

abbrev pub demo_magic : ℕ
demo_magic = 0x44454D31

-- `sizeof(demo_hdr_t)` and `sizeof(frame_rec_t)`
abbrev pub demo_header_size : ℕ
demo_header_size = 12

abbrev pub frame_rec_size : ℕ
frame_rec_size = 32

abbrev pub slash : ℕ
slash = 47

abbrev pub full_stop : ℕ
full_stop = 46

-- `rw_basename`, from a place `b` of the path on: what stands behind the last slash.
unfoldable pub basename_from : List ℕ → List ℕ → List ℕ
basename_from b [] = b
basename_from b (c ∷ cs) = basename_from (if c == slash then cs else b) cs

abbrev pub basename : List ℕ → List ℕ
basename p = basename_from p p

-- At most `n` characters up to the full_stop.
unfoldable pub demo_stem : ℕ → List ℕ → List ℕ
demo_stem zero cs = []
demo_stem (suc n) [] = []
demo_stem (suc n) (c ∷ cs) = let rest = demo_stem n cs in if c == full_stop then [] else c ∷ rest

-- `.DEM`
unfoldable pub demo_name : List ℕ → List ℕ
unfolding demo_stem
demo_name elfbase = demo_stem 8 elfbase ++ (full_stop ∷ 68 ∷ 69 ∷ 77 ∷ [])

-- What `rewind_demo_save` gives to `fat32_save`: the name, the file and its length.
unfoldable pub demo_save : List ℕ → Demo → Option (List ℕ × DemoFile × ℕ)
unfolding basename_from demo_name
demo_save elfbase d =
    if ltb d.demo_cap_n demo_min
    then none
    else some (
      demo_name (basename elfbase),
      record {
        magic = demo_magic;
        seed = d.demo_seed;
        nframes = d.demo_cap_n;
        frames = d.demo_cap;
      },
      demo_header_size + d.demo_cap_n * frame_rec_size,
    )

-- `n` is the answer of `fat32_load`, and `f` what `demo_io` holds then; `none` where it fails.
unfoldable pub arm_attract : ℕ → List ℕ → Option (ℕ × DemoFile) → Demo → Bool × Demo
unfolding basename_from
arm_attract now elfbase answer d = elim answer [
  | none ↦ (false, d)
  | some (n, f) ↦
      if ltb n demo_header_size
        || (not (f.magic == demo_magic) || f.nframes == 0 || ltb demo_frames f.nframes)
        || ltb n (demo_header_size + f.nframes * frame_rec_size)
      then (false, d)
      else (
        true,
        record d {
          demo_play_n = f.nframes;
          attract_seed = f.seed;
          demo_play = λ j. if ltb j f.nframes then f.frames j else d.demo_play j;
          attract_game = take 23 (basename elfbase);
          attract_active = true;
          attract_play = false;
          attract_cursor = 0;
          attract_cancel = false;
          attract_deadline = (now + f.nframes * 20 + 6000) % 2 ^ 32;
        },
      )
]

-- `rewind_attract_active`
pub rewind_attract_active : Demo → Bool
rewind_attract_active d = d.attract_active
