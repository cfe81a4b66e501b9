-- ===== src/Vfs.antt =====
-- Virtual file system: the mount table and the resolution of paths of src/vfs.c.
mod Resolution
mod RootMount
mod Tests
use arcade_os.Base.{
  ℕ, zero, suc, ◌+◌, ◌-◌, ◌<◌, ◌≡◌, Bool, true, false, not, ◌&&◌, ◌||◌, Option, none, some, List,
  [], ◌∷◌, ◌++◌, ltb, leb, ◌==◌, if◌then◌else◌, length, get_or, take, drop,
}

-- A path is the list of its characters, without the NUL at its end.
abbrev pub slash : ℕ
slash = 47

abbrev pub max_mounts : ℕ
max_mounts = 8

abbrev pub path_size : ℕ
path_size = 128

abbrev pub component_size : ℕ
component_size = 64

pub record DirEntry : Type 0 where
  pub name : List ℕ
  pub inode : ℕ
  pub flags : ℕ

-- The function pointers of a node, on a state that the file systems share. `none` is NULL.
pub record Driver (Node State : Type 0) : Type 0 where
  pub read : Node → Option (ℕ → ℕ → State → Option (List ℕ) × State)
  pub write : Node → Option (ℕ → List ℕ → State → Option ℕ × State)
  pub on_open : Node → Option (ℕ → State → State)
  pub close : Node → Option (State → ℕ × State)
  pub readdir : Node → Option (ℕ → State → Option DirEntry × State)
  pub finddir : Node → Option (List ℕ → State → Option Node × State)

pub record Mount (Node : Type 0) : Type 0 where
  pub path : List ℕ
  pub root : Node
  pub in_use : Bool

-- `strncmp (path, prefix, strlen (prefix)) == 0`.
pub starts : List ℕ → List ℕ → Bool
starts [] s = true
starts (p ∷ ps) [] = false
starts (p ∷ ps) (c ∷ s) = p == c && starts ps s

-- The path ends after `n` characters, or goes on with a slash.
pub ends_at : ℕ → List ℕ → Bool
ends_at n s = get_or s n 0 == 0 || get_or s n 0 == slash

unfoldable pub skip_slashes : List ℕ → List ℕ
skip_slashes [] = []
skip_slashes (c ∷ s) = let rest = skip_slashes s in if c == slash then rest else c ∷ s

-- One component, of `n` characters at most, and what is behind it.
unfoldable pub component : ℕ → List ℕ → List ℕ × List ℕ
component zero s = ([], s)
component (suc n) [] = ([], [])
component (suc n) (c ∷ s) =
    let (name, rest) = component n s in if c == slash then ([], c ∷ s) else (c ∷ name, rest)

module _ {Node : Type 0} where
  pub vfs_init : List (Mount Node)
  vfs_init = []

  -- `none` for a path or a root is NULL; the answer is whether the call returns 0.
  pub vfs_mount : Option (List ℕ) → Option Node → List (Mount Node) → Bool × List (Mount Node)
  vfs_mount none root table = (false, table)
  vfs_mount (some path) none table = (false, table)
  vfs_mount (some path) (some root) table =
      if leb max_mounts (length table) then (false, table) else (
        true,
        table ++ record { path = take (path_size - 1) path; root = root; in_use = true } ∷ [],
      )

  pub is_longer : Mount Node → Option (Mount Node) → Bool
  is_longer m none = true
  is_longer m (some best) = ltb (length best.path) (length m.path)

  pub matches : List ℕ → Mount Node → Bool
  unfolding starts ends_at
  matches path m = m.in_use && (starts m.path path && ends_at (length m.path) path)

  -- The loop over the mount table, with the best mount so far.
  unfoldable pub best_from : List ℕ → List (Mount Node) → Option (Mount Node) → Option (Mount Node)
  unfolding matches is_longer
  best_from path [] best = best
  best_from path (m ∷ ms) best =
      best_from path ms (if matches path m && is_longer m best then some m else best)

module _ {Node State : Type 0} (driver : Driver Node State) where
  pub vfs_finddir : Option Node → List ℕ → State → Option Node × State
  vfs_finddir none name st = (none, st)
  vfs_finddir (some node) name st = elim (driver.finddir node) [
    | none ↦ (none, st)
    | some find ↦ find name st
  ]

  -- The walk along the components, on fuel.
  unfoldable pub walk : ℕ → List ℕ → Option Node → State → Option Node × State
  unfolding component skip_slashes vfs_finddir
  walk zero s node st = (node, st)
  walk (suc n) s none st = (none, st)
  walk (suc n) [] (some node) st = (some node, st)
  walk (suc n) (c ∷ s) (some node) st =
      let (name, rest) = component (component_size - 1) (c ∷ s) in
      let (next, st') = vfs_finddir (some node) name st in walk n (skip_slashes rest) next st'

  pub open_node : ℕ → Option Node × State → Option Node × State
  open_node flags (none, st) = (none, st)
  open_node flags (some node, st) = elim (driver.on_open node) [
    | none ↦ (some node, st)
    | some start ↦ (some node, start flags st)
  ]

  unfoldable pub vfs_open : List ℕ → ℕ → List (Mount Node) → State → Option Node × State
  unfolding best_from walk skip_slashes open_node
  vfs_open path flags table st =
      if get_or path 0 0 == slash
      then elim (best_from path table none) [
        | none ↦ (none, st)
        | some m ↦
            open_node flags
              (walk (length path) (skip_slashes (drop (length m.path) path)) (some m.root) st)
      ]
      else (none, st)

  pub vfs_read : Option Node → ℕ → ℕ → State → Option (List ℕ) × State
  vfs_read none offset size st = (none, st)
  vfs_read (some node) offset size st = elim (driver.read node) [
    | none ↦ (none, st)
    | some read ↦ read offset size st
  ]

  pub vfs_write : Option Node → ℕ → List ℕ → State → Option ℕ × State
  vfs_write none offset bytes st = (none, st)
  vfs_write (some node) offset bytes st = elim (driver.write node) [
    | none ↦ (none, st)
    | some write ↦ write offset bytes st
  ]

  -- Closing is optional.
  pub vfs_close : Option Node → State → ℕ × State
  vfs_close none st = (0, st)
  vfs_close (some node) st = elim (driver.close node) [ none ↦ (0, st) | some close ↦ close st ]

  pub vfs_readdir : Option Node → ℕ → State → Option DirEntry × State
  vfs_readdir none index st = (none, st)
  vfs_readdir (some node) index st = elim (driver.readdir node) [
    | none ↦ (none, st)
    | some list ↦ list index st
  ]
