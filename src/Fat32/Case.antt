-- ===== src/Fat32/Case.antt =====
-- Names are compared without regard to case.
use arcade_os.Base.{
  ℕ, zero, suc, ◌+◌, ◌-◌, ◌≡◌, ◌∙◌, refl, ap, Bool, true, false, ◌==◌, if◌then◌else◌, arith, List,
  [], ◌∷◌, ◌++◌, map, take, replicate, length, length-map, min, Option, none, some,
}
use arcade_os.Fat32.{Layout, Volume}
use arcade_os.Fat32.Names.{to_upper, space, dot, before_dot, after_dot, field, format_83}
use arcade_os.Fat32.Files.{
  Place, scan_chain, wants_name, find_in, read_file, first_cluster, file_size, fat32_load,
}

to_upper_twice : (c : ℕ) → to_upper (to_upper c) ≡ to_upper c
unfolding to_upper
to_upper_twice c = ground arith

dot_upper : (c : ℕ) → (to_upper c == dot) ≡ (c == dot)
unfolding to_upper
dot_upper c = ground arith

before_dot-map : (cs : List ℕ) → before_dot (map to_upper cs) ≡ map to_upper (before_dot cs)
unfolding before_dot
before_dot-map [] = refl
before_dot-map (c ∷ cs) = rw (dot_upper c) (split (c == dot) (before_dot-map cs))
  where
    split :
        (b : Bool)
        → before_dot (map to_upper cs) ≡ map to_upper (before_dot cs)
        → (if b then [] else to_upper c ∷ before_dot (map to_upper cs))
          ≡ map to_upper (if b then [] else c ∷ before_dot cs)
    split true again = refl
    split false again = ap (λ xs. to_upper c ∷ xs) again

after_dot-map : (cs : List ℕ) → after_dot (map to_upper cs) ≡ map to_upper (after_dot cs)
unfolding after_dot
after_dot-map [] = refl
after_dot-map (c ∷ cs) = rw (dot_upper c) (split (c == dot) (after_dot-map cs))
  where
    split :
        (b : Bool)
        → after_dot (map to_upper cs) ≡ map to_upper (after_dot cs)
        → (if b then map to_upper cs else after_dot (map to_upper cs))
          ≡ map to_upper (if b then cs else after_dot cs)
    split true again = refl
    split false again = again

take-map : (n : ℕ) (cs : List ℕ) → take n (map to_upper cs) ≡ map to_upper (take n cs)
take-map zero cs = refl
take-map (suc n) [] = refl
take-map (suc n) (c ∷ cs) = ap (λ xs. to_upper c ∷ xs) (take-map n cs)

map_twice : (cs : List ℕ) → map to_upper (map to_upper cs) ≡ map to_upper cs
map_twice [] = refl
map_twice (c ∷ cs) = rw (to_upper_twice c) (ap (λ xs. to_upper c ∷ xs) (map_twice cs))

field-map : (n : ℕ) (cs : List ℕ) → field n (map to_upper cs) ≡ field n cs
unfolding field
field-map n cs =
    ap (λ xs. map to_upper xs ++ replicate (n - length xs) space) (take-map n cs)
    ∙ ap (λ xs. xs ++ replicate (n - length (map to_upper (take n cs))) space)
        (map_twice (take n cs))
    ∙ ap (λ k. map to_upper (take n cs) ++ replicate (n - k) space)
        (length-map (take n cs) to_upper)

format_83-map : (name : List ℕ) → format_83 (map to_upper name) ≡ format_83 name
unfolding format_83
format_83-map name =
    ap (λ xs. field 8 xs ++ field 3 (after_dot (map to_upper name))) (before_dot-map name)
    ∙ ap (λ xs. xs ++ field 3 (after_dot (map to_upper name))) (field-map 8 (before_dot name))
    ∙ ap (λ xs. field 8 (before_dot name) ++ field 3 xs) (after_dot-map name)
    ∙ ap (λ xs. field 8 (before_dot name) ++ xs) (field-map 3 (after_dot name))

find_in-map :
    (works : ℕ → Bool) (lay : Layout) (dir : ℕ) (name : List ℕ) (v : Volume)
    → find_in works lay dir (map to_upper name) v ≡ find_in works lay dir name v
unfolding find_in
find_in-map works lay dir name v =
    ap (λ f. scan_chain works lay (wants_name f) (lay.total_clusters + 1) dir v)
      (format_83-map name)

-- `fat32_load` gives the same for a name and for that name in upper case, and does the same with the
-- drive.
pub fat32_load-map :
    (works : ℕ → Bool) (lay : Layout) (name : List ℕ) (maxlen : ℕ) (v : Volume)
    → fat32_load works lay (map to_upper name) maxlen v ≡ fat32_load works lay name maxlen v
unfolding fat32_load
fat32_load-map works lay name maxlen v = ap loaded (find_in-map works lay lay.root_cluster name v)
  where
    loaded : Option Place × Volume → Option (List ℕ) × Volume
    loaded r = elim r.0 [
      | none ↦ (none, r.1)
      | some p ↦
          let size = min (file_size p.de) maxlen in
          let (bytes, v'') = read_file works lay (first_cluster p.de) (file_size p.de) 0 size r.1 in
          (some bytes, v'')
    ]
