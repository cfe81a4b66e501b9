-- ===== src/Vfs/Tests.antt =====
-- A console under /dev, beside the root.
use arcade_os.Base.{
  ℕ, ◌+◌, ◌≡◌, ◌≢◌, refl, true, Option, none, some, List, [], ◌∷◌, ◌==◌, if◌then◌else◌, arith,
}
use arcade_os.Vfs.{Driver, Mount, slash, vfs_mount, vfs_open, open_node}
use arcade_os.Vfs.Resolution.{descend, vfs_open-descend}
use arcade_os.Vfs.RootMount.{vfs_open-vfs_mount}

-- Node 0 is a directory, with the node of a name's first character for each name; the state counts
-- the calls.
abbrev tree : Driver ℕ ℕ
tree = record {
  read = λ node. none;
  write = λ node. none;
  on_open = λ node. some (λ flags calls. calls + 1);
  close = λ node. none;
  readdir = λ node. none;
  finddir = λ node. if node == 0 then some (λ name calls. (first name, calls + 1)) else none;
}
  where
    first : List ℕ → Option ℕ
    first [] = none
    first (c ∷ name) = some c

abbrev dev : List ℕ
dev = 47 ∷ 100 ∷ 101 ∷ 118 ∷ []

abbrev tty : List ℕ
tty = 116 ∷ 116 ∷ 121 ∷ []

abbrev root_mount : Mount ℕ
root_mount = record { path = slash ∷ []; root = 0; in_use = true }

abbrev dev_mount : Mount ℕ
dev_mount = record { path = dev; root = 0; in_use = true }

-- The path /dev/tty.
vfs_open-descend_example :
    vfs_open tree
      (47 ∷ 100 ∷ 101 ∷ 118 ∷ 47 ∷ 116 ∷ 116 ∷ 121 ∷ [])
      0
      (root_mount ∷ dev_mount ∷ [])
      0
    ≡ open_node tree 0 (descend tree (tty ∷ []) (some 0) 0)
vfs_open-descend_example =
    vfs_open-descend tree (root_mount ∷ []) [] dev_mount (tty ∷ []) 0 0 refl refl
      ((omega arith, (omega arith, (no_slash, (no_slash, (other, tt))))), tt)
      ((λ above. omega arith), tt) tt
  where
    no_slash : 116 ≢ slash
    no_slash = omega arith

    other : 121 ≢ slash
    other = omega arith

-- The path /tty.
vfs_open-vfs_mount_example :
    vfs_open tree (47 ∷ tty) 0 (vfs_mount (some (slash ∷ [])) (some 0) (dev_mount ∷ [])).1 0
    ≡ vfs_open tree (47 ∷ tty) 0 (dev_mount ∷ []) 0
vfs_open-vfs_mount_example =
    vfs_open-vfs_mount tree (dev_mount ∷ []) 0 116 (116 ∷ 121 ∷ []) 0 0 (omega arith) (omega arith)

tty_opened :
    vfs_open tree (47 ∷ 100 ∷ 101 ∷ 118 ∷ 47 ∷ tty) 0 (root_mount ∷ dev_mount ∷ []) 0
    ≡ (some 116, 2)
unfolding vfs_open open_node
tty_opened = refl
