-- ===== src/Vfs/Resolution.antt =====
-- Opening a path: the deepest mount above it, and the names from there on.
use arcade_os.Base.{
  ℕ, zero, suc, ◌-◌, ◌≤◌, ◌<◌, ◌≡◌, ◌≢◌, ◌∙◌, refl, sym, ap, Bool, true, false, ◌&&◌, ◌⊎◌, inl, inr,
  Option, none, some, List, [], ◌∷◌, ◌++◌, ltb, ◌==◌, if◌then◌else◌, arith, length, length-append,
  get_or, drop, Bool-cases,
}
use mathlib.Core.Path.{ap₂}
use arcade_os.Vfs.{
  Driver, Mount, slash, component_size, starts, ends_at, skip_slashes, component, is_longer,
  matches, best_from, vfs_finddir, walk, open_node, vfs_open,
}

-- The path that the names spell, a slash before each.
abbrev pub path_of : List (List ℕ) → List ℕ
path_of [] = []
path_of (n ∷ ns) = slash ∷ (n ++ path_of ns)

abbrev pub NoSlash : List ℕ → Type 0
NoSlash [] = Unit
NoSlash (c ∷ s) = (c ≢ slash) × NoSlash s

abbrev pub IsName : List ℕ → Type 0
IsName n = (0 < length n) × ((length n < component_size) × NoSlash n)

abbrev pub AllNames : List (List ℕ) → Type 0
AllNames [] = Unit
AllNames (n ∷ ns) = IsName n × AllNames ns

component-path_of :
    (k : ℕ) (n : List ℕ) (ns : List (List ℕ))
    → length n ≤ k
    → NoSlash n
    → component k (n ++ path_of ns) ≡ (n, path_of ns)
unfolding component
component-path_of zero [] [] short plain = refl
component-path_of (suc k) [] [] short plain = refl
component-path_of zero [] (n ∷ ns) short plain = refl
component-path_of (suc k) [] (n ∷ ns) short plain = refl
component-path_of zero (c ∷ n) ns short plain = absurd (omega (arith, short))
component-path_of (suc k) (c ∷ n) ns short (other, plain) =
    rw not_slash (ap (λ r. (c ∷ r.0, r.1)) (component-path_of k n ns (omega (arith, short)) plain))
  where
    not_slash : (c == slash) ≡ false
    not_slash = ground (arith, other)

skip_slashes-name : (n s : List ℕ) → 0 < length n → NoSlash n → skip_slashes (n ++ s) ≡ n ++ s
unfolding skip_slashes
skip_slashes-name [] s long plain = absurd (omega (arith, long))
skip_slashes-name (c ∷ n) s long (other, plain) = rw not_slash refl
  where
    not_slash : (c == slash) ≡ false
    not_slash = ground (arith, other)

starts-append : (p s : List ℕ) → starts p (p ++ s) ≡ true
unfolding starts
starts-append [] s = refl
starts-append (c ∷ p) s = ground (arith, starts-append p s)

ends_at-path_of : (p : List ℕ) (ns : List (List ℕ)) → ends_at (length p) (p ++ path_of ns) ≡ true
unfolding ends_at
ends_at-path_of [] [] = refl
ends_at-path_of [] (n ∷ ns) = refl
ends_at-path_of (c ∷ p) ns = ends_at-path_of p ns

drop-append : (p s : List ℕ) → drop (length p) (p ++ s) ≡ s
drop-append [] s = refl
drop-append (c ∷ p) s = drop-append p s

-- What is behind a mount's path: nothing, or a slash.
abbrev pub IsEnd : List ℕ → Type 0
IsEnd [] = Unit
IsEnd (c ∷ s) = (c ≡ 0) ⊎ (c ≡ slash)

abbrev pub Above : List ℕ → List ℕ → Type 0
Above p path = (s : List ℕ) × ((path ≡ p ++ s) × IsEnd s)

starts-Above :
    (p path : List ℕ) → starts p path ≡ true → ends_at (length p) path ≡ true → Above p path
unfolding starts ends_at
starts-Above [] [] same end = ([], (refl, tt))
starts-Above [] (c ∷ s) same end = (c ∷ s, (refl, end_of (c == 0) refl))
  where
    end_of : (b : Bool) → (c == 0) ≡ b → (c ≡ 0) ⊎ (c ≡ slash)
    end_of true e = inl (ground (arith, e))
    end_of false e = inr (ground (arith, e, end))
starts-Above (p ∷ ps) [] same end = absurd (ground (arith, same))
starts-Above (p ∷ ps) (c ∷ s) same end =
    let (rest, (behind, ended)) = starts-Above ps s (ground (arith, same)) end in
    (rest, (ap₂ (λ x xs. x ∷ xs) (ground (arith, same)) behind, ended))

module _ {Node State : Type 0} (driver : Driver Node State) where
  -- One directory after the other, from a node.
  pub descend : List (List ℕ) → Option Node → State → Option Node × State
  descend [] node st = (node, st)
  descend (n ∷ ns) node st = let (next, st') = vfs_finddir driver node n st in descend ns next st'

  descend-none : (ns : List (List ℕ)) (st : State) → descend ns none st ≡ (none, st)
  unfolding descend vfs_finddir
  descend-none [] st = refl
  descend-none (n ∷ ns) st = descend-none ns st

  walk-none : (k : ℕ) (s : List ℕ) (st : State) → walk driver k s none st ≡ (none, st)
  unfolding walk
  walk-none zero s st = refl
  walk-none (suc k) s st = refl

  -- One round, which takes the first name.
  walk-name :
      (n : List ℕ) (ns : List (List ℕ)) (k : ℕ) (node : Node) (st : State)
      → IsName n
      → walk driver (suc k) (skip_slashes (path_of (n ∷ ns))) (some node) st
        ≡ walk driver k
            (skip_slashes (path_of ns))
            (vfs_finddir driver (some node) n st).0
            (vfs_finddir driver (some node) n st).1
  unfolding walk skip_slashes
  walk-name [] ns k node st (long, (short, plain)) = absurd (omega (arith, long))
  walk-name (c ∷ n) ns k node st (long, (short, plain)) =
      ap (λ s. walk driver (suc k) s (some node) st)
        (skip_slashes-name (c ∷ n) (path_of ns) long plain)
      ∙ ap
          (λ r.
            walk driver k (skip_slashes r.1) (vfs_finddir driver (some node) r.0 st).0
              (vfs_finddir driver (some node) r.0 st).1)
          (component-path_of (component_size - 1) (c ∷ n) ns (omega (arith, short)) plain)

  walk-path_of :
      (ns : List (List ℕ)) (k : ℕ) (node : Option Node) (st : State)
      → AllNames ns
      → length (path_of ns) ≤ k
      → walk driver k (skip_slashes (path_of ns)) node st ≡ descend ns node st
  unfolding walk skip_slashes descend
  walk-path_of ns k none st names long =
      walk-none k (skip_slashes (path_of ns)) st ∙ sym (descend-none ns st)
  walk-path_of [] zero (some node) st names long = refl
  walk-path_of [] (suc k) (some node) st names long = refl
  walk-path_of (n ∷ ns) zero (some node) st names long = absurd (omega (arith, long))
  walk-path_of (n ∷ ns) (suc k) (some node) st (name, names) long =
      walk-name n ns k node st name
      ∙ walk-path_of ns k (vfs_finddir driver (some node) n st).0
          (vfs_finddir driver (some node) n st).1 names
          (omega (arith, long, length-append n (path_of ns)))

module _ {Node : Type 0} where
  -- The mounts above the path have paths of less than `n` characters.
  abbrev pub AllShorter : List ℕ → ℕ → List (Mount Node) → Type 0
  AllShorter path n [] = Unit
  AllShorter path n (m ∷ ms) = (Above m.path path → length m.path < n) × AllShorter path n ms

  matches-Above : (path : List ℕ) (m : Mount Node) → matches path m ≡ true → Above m.path path
  unfolding matches
  matches-Above path m h = starts-Above m.path path (ground (arith, h)) (ground (arith, h))

  best_from-longest :
      (path : List ℕ) (m : Mount Node) (ms : List (Mount Node))
      → AllShorter path (length m.path) ms
      → best_from path ms (some m) ≡ some m
  unfolding best_from is_longer
  best_from-longest path m [] shorter = refl
  best_from-longest path m (m' ∷ ms) (first, shorter) = elim (Bool-cases (matches path m')) [
    | inl found ↦
        rw (found, not_longer (first (matches-Above path m' found)))
          (best_from-longest path m ms shorter)
    | inr other ↦ rw other (best_from-longest path m ms shorter)
  ]
    where
      not_longer : length m'.path < length m.path → ltb (length m.path) (length m'.path) ≡ false
      not_longer less = ground (arith, less)

  best_from-append :
      (path : List ℕ) (m : Mount Node) (before after : List (Mount Node))
      (best : Option (Mount Node))
      → matches path m ≡ true
      → is_longer m best ≡ true
      → AllShorter path (length m.path) before
      → AllShorter path (length m.path) after
      → best_from path (before ++ m ∷ after) best ≡ some m
  unfolding best_from is_longer
  best_from-append path m [] after best found longer shorter rest =
      ap (λ b. best_from path after (if b then some m else best)) {y = true}
        (ground (arith, found, longer))
      ∙ best_from-longest path m after rest
  best_from-append path m (m' ∷ before) after best found longer (first, shorter) rest =
      best_from-append path m before after
        (if matches path m' && is_longer m' best then some m' else best) found
        (elim (Bool-cases (matches path m' && is_longer m' best)) [
          | inl better ↦
              rw better (ground (arith, first (matches-Above path m' (ground (arith, better)))))
          | inr worse ↦ rw worse longer
        ])
        shorter rest

module _ {Node State : Type 0} (driver : Driver Node State) where
  -- A path below a mount in use, with names of less than 64 characters behind it, opens what the
  -- names lead to from the root of that mount, directory after directory, if every other mount
  -- above the path has a shorter path.
  pub vfs_open-descend :
      (before after : List (Mount Node)) (m : Mount Node) (ns : List (List ℕ)) (flags : ℕ)
      (st : State)
      → m.in_use ≡ true
      → get_or (m.path ++ path_of ns) 0 0 ≡ slash
      → AllNames ns
      → AllShorter (m.path ++ path_of ns) (length m.path) before
      → AllShorter (m.path ++ path_of ns) (length m.path) after
      → vfs_open driver (m.path ++ path_of ns) flags (before ++ m ∷ after) st
        ≡ open_node driver flags (descend driver ns (some m.root) st)
  unfolding vfs_open matches is_longer
  vfs_open-descend before after m ns flags st used absolute names earlier later =
      rw (first_slash, best)
        (ap
            (λ s.
              open_node driver flags (walk driver (length path) (skip_slashes s) (some m.root) st))
            (drop-append m.path (path_of ns))
          ∙ ap (open_node driver flags) (
              walk-path_of driver ns (length path) (some m.root) st names
                (omega (arith, length-append m.path (path_of ns)))))
    where
      path : List ℕ
      path = m.path ++ path_of ns

      first_slash : (get_or (m.path ++ path_of ns) 0 0 == slash) ≡ true
      first_slash = ground (arith, absolute)

      best : best_from (m.path ++ path_of ns) (before ++ m ∷ after) none ≡ some m
      best =
          best_from-append path m before after none
            (ground (arith, used, starts-append m.path (path_of ns), ends_at-path_of m.path ns))
            refl earlier later
