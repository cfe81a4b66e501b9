-- ===== src/Vfs/RootMount.antt =====
-- A file system mounted at the root.
use arcade_os.Base.{
  ℕ, ◌≡◌, ◌≢◌, refl, ap, true, false, ◌&&◌, inl, inr, Option, none, some, List, [], ◌∷◌, ◌++◌, leb,
  if◌then◌else◌, arith, length, Bool-cases,
}
use arcade_os.Vfs.{
  Driver, Mount, slash, max_mounts, starts, ends_at, is_longer, matches, best_from, vfs_mount,
  vfs_open,
}

module _ {Node : Type 0} where
  abbrev at_root : Node → Mount Node
  at_root root = record { path = slash ∷ []; root = root; in_use = true }

  matches-at_root :
      (root : Node) (c : ℕ) (s : List ℕ)
      → c ≢ slash
      → c ≢ 0
      → matches (slash ∷ c ∷ s) (at_root root) ≡ false
  unfolding matches starts ends_at
  matches-at_root root c s other text = ground (arith, other, text)

  best_from-at_root :
      (table : List (Mount Node)) (best : Option (Mount Node)) (root : Node) (c : ℕ) (s : List ℕ)
      → c ≢ slash
      → c ≢ 0
      → best_from (slash ∷ c ∷ s) (table ++ at_root root ∷ []) best
        ≡ best_from (slash ∷ c ∷ s) table best
  unfolding best_from
  best_from-at_root [] best root c s other text =
      ap (λ b. if b && is_longer (at_root root) best then some (at_root root) else best)
        (matches-at_root root c s other text)
  best_from-at_root (m ∷ table) best root c s other text =
      best_from-at_root table
        (if matches (slash ∷ c ∷ s) m && is_longer m best then some m else best) root c s other text

module _ {Node State : Type 0} (driver : Driver Node State) where
  -- A path whose first slash is followed by a name is opened as if nothing was mounted at the
  -- root: a file system mounted there is not found by it.
  pub vfs_open-vfs_mount :
      (table : List (Mount Node)) (root : Node) (c : ℕ) (s : List ℕ) (flags : ℕ) (st : State)
      → c ≢ slash
      → c ≢ 0
      → vfs_open driver (slash ∷ c ∷ s) flags (vfs_mount (some (slash ∷ [])) (some root) table).1 st
        ≡ vfs_open driver (slash ∷ c ∷ s) flags table st
  unfolding vfs_open vfs_mount
  vfs_open-vfs_mount table root c s flags st other text =
      elim (Bool-cases (leb max_mounts (length table))) [
        | inl full ↦ rw full refl
        | inr room ↦ rw (room, best_from-at_root table none root c s other text) refl
      ]
