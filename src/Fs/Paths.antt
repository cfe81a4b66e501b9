-- ===== src/Fs/Paths.antt =====
-- The paths of src/fs.c, in buffers of 128 characters.
use arcade_os.Base.{
  ℕ, zero, suc, ◌+◌, ◌-◌, Bool, not, ◌&&◌, Option, none, some, List, [], ◌∷◌, ◌++◌, ltb, leb, ◌==◌,
  if◌then◌else◌, length, get_or, take, drop,
}
use arcade_os.Vfs.{slash}

abbrev pub max_path : ℕ
max_path = 128

pub with_slash : List ℕ → List ℕ
with_slash dir =
    if ltb 0 (length dir) && not (get_or dir (length dir - 1) 0 == slash)
    then dir ++ slash ∷ []
    else dir

-- `none` where the buffer is too short.
pub path_join : List ℕ → List ℕ → Option (List ℕ)
unfolding with_slash
path_join dir name =
    let base = with_slash dir in
    if leb max_path (length base)
    then none
    else some (base ++ take (max_path - 1 - length base) name)

pub path_is_absolute : List ℕ → Bool
path_is_absolute path = get_or path 0 0 == slash

unfoldable pub path_normalize : List ℕ → List ℕ → Option (List ℕ)
unfolding path_is_absolute path_join
path_normalize current path =
    if path_is_absolute path
    then (if ltb (length path) max_path then some path else none)
    else path_join current path

-- What is behind the last slash, from the end on.
pub name_from : ℕ → List ℕ → List ℕ
name_from zero path = path
name_from (suc j) path =
    let earlier = name_from j path in
    if get_or path j 0 == slash then drop (suc j) path else earlier

unfoldable pub name_of : List ℕ → List ℕ
unfolding name_from
name_of path = name_from (length path) path

pub parent_from : ℕ → List ℕ → List ℕ
parent_from zero dir = dir
parent_from (suc j) dir =
    let earlier = parent_from j dir in
    if get_or dir j 0 == slash then take (if j == 0 then 1 else j) dir else earlier

-- The directory above the current one.
pub parent : List ℕ → List ℕ
parent dir =
    if ltb 1 (length dir)
    then (let bare =
          if get_or dir (length dir - 1) 0 == slash then take (length dir - 1) dir else dir in
        parent_from (length bare) bare)
    else dir

pub last_slash : ℕ → List ℕ → Option ℕ → Option ℕ
last_slash j [] pos = pos
last_slash j (c ∷ s) pos = last_slash (j + 1) s (if c == slash then some j else pos)

-- The directory of a path, unless it is the root.
pub parent_dir : List ℕ → Option (List ℕ)
parent_dir path = elim (last_slash 0 path none) [
  | none ↦ none
  | some j ↦ if j == 0 then none else some (take j path)
]
