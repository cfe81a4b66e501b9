-- ===== src/Fat32/Loads.antt =====
-- `fat32_load` gives what the reference reads off the disk.
use arcade_os.Base.{
  ℕ, zero, suc, ◌+◌, ◌-◌, ◌/◌, ◌%◌, ◌^◌, ◌≤◌, ◌<◌, ◌≡◌, inl, inr, ◌∙◌, refl, sym, ap, subst, Bool,
  true, false, not, ◌||◌, leb, ltb, ◌==◌, if◌then◌else◌, arith, Bool-cases, Option, none, some,
  List, ◌++◌, min, length,
}
use arcade_os.Fat32.{
  Sector, sector_size, Layout, Volume, in_chain, low_28, cluster_to_lba, read_sector,
  fat_next_cluster,
}
use arcade_os.Fat32.Names.{format_83}
use arcade_os.Fat32.Table.{table_entry}
use arcade_os.Fat32.Files.{
  Place, Scan, found, ended, onward, Search, scan_sectors, scan_chain, wants_name,
  bytes_per_cluster, find_in, slice, read_run, read_chain, skip_clusters, read_file, fat32_load,
  first_cluster, file_size,
}
use arcade_os.Fat32.Reference.{
  on, sectors_ref, chain_ref, run_ref, read_ref, find_ref, load_ref, Mirrors, Gives,
  fat_next_cluster-Gives, scan_sectors-Gives,
}

module _ (lay : Layout) (d : ℕ → Sector) where
  in_table : (c : ℕ) → in_chain c ≡ true → c < low_28
  in_table c inside = ground (arith, inside)

  scan_chain-Gives :
      (want : Search) (fuel c : ℕ) (v : Volume)
      → Mirrors lay d v
      → Gives lay d (scan_chain on lay want fuel c v) (chain_ref lay d want fuel c)
  unfolding scan_chain chain_ref
  scan_chain-Gives want zero c v m = (refl, m)
  scan_chain-Gives want (suc fuel) c v m = elim (Bool-cases (in_chain c)) [
    | inl inside ↦
        let looked = scan_sectors on lay want lay.sectors_per_cluster (cluster_to_lba lay c) v in
        let (answer, m₁) =
          scan_sectors-Gives lay d want lay.sectors_per_cluster (cluster_to_lba lay c) v m in
        let next = fat_next_cluster on lay c looked.1 in
        let (entry_eq, m₂) = fat_next_cluster-Gives lay d c looked.1 (in_table c inside) m₁ in
        let (rest, m₃) = scan_chain-Gives want fuel next.0 next.1 m₂ in
        rw inside (
          by_look looked.0 (sectors_ref lay d want lay.sectors_per_cluster (cluster_to_lba lay c))
            answer looked.1 m₁ (scan_chain on lay want fuel next.0 next.1)
            (chain_ref lay d want fuel (table_entry lay d c))
            (rest ∙ ap (chain_ref lay d want fuel) entry_eq, m₃))
    | inr outside ↦ rw outside (refl, m)
  ]
    where
      by_look :
          (r r' : Scan)
          → r ≡ r'
          → (v' : Volume) → Mirrors lay d v'
          → (rest : Option Place × Volume) (rest' : Option Place) → Gives lay d rest rest'
          → Gives lay d
              (elim r [ found p ↦ (some p, v') | ended ↦ (none, v') | onward ↦ rest ])
              (elim r' [ found p ↦ some p | ended ↦ none | onward ↦ rest' ])
      by_look r r' e v' m rest rest' g =
          subst
            (λ x.
              Gives lay d (elim r [ found p ↦ (some p, v') | ended ↦ (none, v') | onward ↦ rest ])
                (elim x [ found p ↦ some p | ended ↦ none | onward ↦ rest' ]))
            e (same r)
        where
          same :
              (r : Scan)
              → Gives lay d
                  (elim r [ found p ↦ (some p, v') | ended ↦ (none, v') | onward ↦ rest ])
                  (elim r [ found p ↦ some p | ended ↦ none | onward ↦ rest' ])
          same (found p) = (refl, m)
          same ended = (refl, m)
          same onward = g

  -- The sectors of a cluster: the drive does not fail.
  abbrev Runs : List ℕ × Bool × Volume → List ℕ → Type 0
  Runs r x = (r.0 ≡ x) × (r.1 ≡ true) × Mirrors lay d r.2

  read_run-Runs :
      (n lba off want : ℕ) (v : Volume)
      → Mirrors lay d v
      → Runs (read_run on lay n lba off want v) (run_ref lay d n lba off want)
  unfolding read_run run_ref read_sector
  read_run-Runs zero lba off want v m = (refl, refl, m)
  read_run-Runs (suc n) lba off want v m = elim (Bool-cases (want == 0)) [
    | inl nothing ↦ rw nothing (refl, refl, m)
    | inr more ↦
        let (rest, good, m') =
          read_run-Runs n (lba + 1) 0 (want - min want (sector_size - off))
            (record v { clock = v.clock + 1 }) m in
        rw more (
          ap
                (λ x.
                  slice on lay (x (lba % 2 ^ 32)) off (min want (sector_size - off))
                  ++ (read_run on lay n (lba + 1) 0 (want - min want (sector_size - off))
                      (record v { clock = v.clock + 1 })).0)
                m.0
              ∙ ap (λ xs. slice on lay (d (lba % 2 ^ 32)) off (min want (sector_size - off)) ++ xs)
                  rest,
          good,
          m',
        )
  ]

  read_chain-Gives :
      (fuel c off want : ℕ) (v : Volume)
      → Mirrors lay d v
      → Gives lay d (read_chain on lay fuel c off want v) (read_ref lay d fuel c off want)
  unfolding read_chain read_ref
  read_chain-Gives zero c off want v m = (refl, m)
  read_chain-Gives (suc fuel) c off want v m = elim (Bool-cases (want == 0 || not (in_chain c))) [
    | inl stop ↦ rw stop (refl, m)
    | inr go ↦ rw go (
        by_run (λ c' want' v' m'. read_chain-Gives fuel c' 0 want' v' m') (ground (arith, go))
          (read_run on lay (lay.sectors_per_cluster - off / sector_size)
            (cluster_to_lba lay c + off / sector_size) (off % sector_size) want v)
          _
          (read_run-Runs (lay.sectors_per_cluster - off / sector_size)
            (cluster_to_lba lay c + off / sector_size) (off % sector_size) want v m))
  ]
    where
      rest : ℕ → Volume → List ℕ × Volume
      rest n v' =
          read_chain on lay fuel (fat_next_cluster on lay c v').0 0 (want - n)
            (fat_next_cluster on lay c v').1

      step : List ℕ × Bool × Volume → List ℕ × Volume
      step (part, good, v') =
          if good
          then (part ++ (rest (length part) v').0, (rest (length part) v').1)
          else (part, v')

      ref : List ℕ → List ℕ
      ref part = part ++ read_ref lay d fuel (table_entry lay d c) 0 (want - length part)

      by_run :
          ((c' want' : ℕ) (v' : Volume)
            → Mirrors lay d v'
            → Gives lay d (read_chain on lay fuel c' 0 want' v') (read_ref lay d fuel c' 0 want'))
          → in_chain c ≡ true
          → (r : List ℕ × Bool × Volume) (x : List ℕ) → Runs r x
          → Gives lay d (step r) (ref x)
      by_run again inside (part, false, v') x (same, good, m') = absurd (cc)
      by_run again inside (part, true, v') x (same, good, m') =
          let (entry_eq, m₂) = fat_next_cluster-Gives lay d c v' (in_table c inside) m' in
          let (more, m₃) =
            again (fat_next_cluster on lay c v').0 (want - length part)
              (fat_next_cluster on lay c v').1 m₂ in
          (
            ap (λ xs. part ++ xs)
                  (more ∙ ap (λ c'. read_ref lay d fuel c' 0 (want - length part)) entry_eq)
                ∙ ap ref same,
            m₃,
          )

  find_in-Gives :
      (name : List ℕ) (v : Volume)
      → Mirrors lay d v
      → Gives lay d (find_in on lay lay.root_cluster name v) (find_ref lay d name)
  unfolding find_in find_ref
  find_in-Gives name v m =
      scan_chain-Gives (wants_name (format_83 name)) (lay.total_clusters + 1) lay.root_cluster v m

  -- A read from the start of a file.
  read_file-Gives :
      (first len size : ℕ) (v : Volume)
      → size ≤ len
      → Mirrors lay d v
      → (read_file on lay first len 0 size v).0 ≡ read_ref lay d size first 0 size
  unfolding read_file skip_clusters read_ref
  read_file-Gives first len size v within m = elim (Bool-cases (leb len 0)) [
    | inl empty ↦ rw empty (sym (ap (λ n. read_ref lay d n first 0 n) (nothing empty)))
    | inr some_byte ↦
        rw (some_byte, whole, none_before, start) (read_chain-Gives size first 0 size v m).0
  ]
    where
      nothing : leb len 0 ≡ true → size ≡ 0
      nothing empty = ground (arith, empty)

      whole : ltb len ((0 + size) % 2 ^ 32) ≡ false
      whole = ground arith

      none_before : 0 / bytes_per_cluster on lay ≡ 0
      none_before = omega arith

      start : 0 % bytes_per_cluster on lay ≡ 0
      start = omega arith

  -- With a drive that works and a cache that agrees with the disk's table, `fat32_load` gives what a
  -- reader without a cache, `load_ref`, reads off the disk.
  pub fat32_load-load_ref :
      (name : List ℕ) (maxlen : ℕ) (v : Volume)
      → Mirrors lay d v
      → (fat32_load on lay name maxlen v).0 ≡ load_ref lay d name maxlen
  unfolding fat32_load load_ref
  fat32_load-load_ref name maxlen v m =
      by_find (find_in on lay lay.root_cluster name v) (find_ref lay d name)
        (find_in-Gives name v m)
    where
      loaded : Option Place × Volume → Option (List ℕ) × Volume
      loaded r = elim r.0 [
        | none ↦ (none, r.1)
        | some p ↦
            let size = min (file_size p.de) maxlen in
            let (bytes, v'') = read_file on lay (first_cluster p.de) (file_size p.de) 0 size r.1 in
            (some bytes, v'')
      ]

      ref : Option Place → Option (List ℕ)
      ref p = elim p [
        | none ↦ none
        | some p ↦
            let size = min (file_size p.de) maxlen in
            some (read_ref lay d size (first_cluster p.de) 0 size)
      ]

      by_find :
          (r : Option Place × Volume) (x : Option Place) → Gives lay d r x → (loaded r).0 ≡ ref x
      by_find (none, v') x (same, m') = ap ref same
      by_find (some p, v') x (same, m') =
          ap some (
            read_file-Gives (first_cluster p.de) (file_size p.de) (min (file_size p.de) maxlen) v'
              (omega arith) m')
          ∙ ap ref same
