-- ===== src/Fat32/Names.antt =====
-- 8.3 names: `format_83`, `name_from_entry`. A C string is the list of its codes up to the NUL.
use arcade_os.Base.{
  ℕ, ◌+◌, ◌-◌, ◌&&◌, List, [], ◌∷◌, ◌++◌, leb, ◌==◌, if◌then◌else◌, take, drop, map, replicate,
  length, get_or,
}

unfoldable pub to_upper : ℕ → ℕ
to_upper c = if leb 97 c && leb c 122 then c - 97 + 65 else c

abbrev pub space : ℕ
space = 32

abbrev pub dot : ℕ
dot = 46

-- The characters before the first `.`.
unfoldable pub before_dot : List ℕ → List ℕ
before_dot [] = []
before_dot (c ∷ cs) = let rest = before_dot cs in if c == dot then [] else c ∷ rest

-- Those behind it.
unfoldable pub after_dot : List ℕ → List ℕ
after_dot [] = []
after_dot (c ∷ cs) = let rest = after_dot cs in if c == dot then cs else rest

-- The first `n` characters in upper case, filled up with spaces.
unfoldable pub field : ℕ → List ℕ → List ℕ
unfolding to_upper
field n cs = map to_upper (take n cs) ++ replicate (n - length (take n cs)) space

unfoldable pub format_83 : List ℕ → List ℕ
unfolding before_dot after_dot field
format_83 name = field 8 (before_dot name) ++ field 3 (after_dot name)

-- The characters before the first space.
unfoldable pub before_space : List ℕ → List ℕ
before_space [] = []
before_space (c ∷ cs) = let rest = before_space cs in if c == space then [] else c ∷ rest

-- The 11 characters of an entry as a name.
unfoldable pub name_from_entry : List ℕ → List ℕ
unfolding before_space
name_from_entry name =
    before_space (take 8 name)
    ++ (if get_or name 8 space == space then [] else dot ∷ before_space (drop 8 name))
