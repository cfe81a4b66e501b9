-- ===== src/Fat32/Reference.antt =====
-- Loading as a function of the disk alone: what `fat32_load` reads by way of its cache.
use arcade_os.Base.{
  ℕ, zero, suc, ◌+◌, ◌-◌, ◌/◌, ◌%◌, ◌^◌, ◌<◌, ◌≡◌, inl, inr, ◌∙◌, refl, sym, ap, subst, Bool, true,
  not, ◌||◌, ◌==◌, if◌then◌else◌, arith, Bool-cases, Option, none, some, List, [], ◌++◌, min,
  length,
}
use arcade_os.Fat32.{
  Sector, sector_size, Layout, Volume, in_chain, low_28, fat_sector, fat_offset, cluster_to_lba,
  read_sector, load_fat, fat_next_cluster,
}
use arcade_os.Fat32.Names.{format_83}
use arcade_os.Fat32.Words.{entry}
use arcade_os.Fat32.Table.{table_entry}
use arcade_os.Fat32.Files.{
  Place, Scan, found, ended, onward, Search, scan_entries, scan_sectors, wants_name, slice,
  first_cluster, file_size,
}

-- A drive that carries out every operation.
abbrev pub on : ℕ → Bool
on n = true

module _ (lay : Layout) (d : ℕ → Sector) where
  unfoldable pub sectors_ref : Search → ℕ → ℕ → Scan
  sectors_ref want zero lba = onward
  sectors_ref want (suc n) lba =
      let rest = sectors_ref want n (lba + 1) in
      elim (scan_entries want (lba % 2 ^ 32) (d (lba % 2 ^ 32)) 16 0) [
        | found p ↦ found p
        | ended ↦ ended
        | onward ↦ rest
      ]

  unfoldable pub chain_ref : Search → ℕ → ℕ → Option Place
  unfolding sectors_ref
  chain_ref want zero c = none
  chain_ref want (suc fuel) c =
      let rest = chain_ref want fuel (table_entry lay d c) in
      if not (in_chain c)
      then none
      else elim (sectors_ref want lay.sectors_per_cluster (cluster_to_lba lay c)) [
        | found p ↦ some p
        | ended ↦ none
        | onward ↦ rest
      ]

  unfoldable pub run_ref : ℕ → ℕ → ℕ → ℕ → List ℕ
  run_ref zero lba off want = []
  run_ref (suc n) lba off want =
      let part = min want (sector_size - off) in
      let rest = run_ref n (lba + 1) 0 (want - part) in
      if want == 0 then [] else slice on lay (d (lba % 2 ^ 32)) off part ++ rest

  unfoldable pub read_ref : ℕ → ℕ → ℕ → ℕ → List ℕ
  unfolding run_ref
  read_ref zero c off want = []
  read_ref (suc fuel) c off want =
      let part =
        run_ref (lay.sectors_per_cluster - off / sector_size)
          (cluster_to_lba lay c + off / sector_size) (off % sector_size) want in
      let rest = read_ref fuel (table_entry lay d c) 0 (want - length part) in
      if want == 0 || not (in_chain c) then [] else part ++ rest

  unfoldable pub find_ref : List ℕ → Option Place
  unfolding chain_ref
  find_ref name = chain_ref (wants_name (format_83 name)) (lay.total_clusters + 1) lay.root_cluster

  -- The first `min size maxlen` bytes of the chain that the entry with the name points to.
  unfoldable pub load_ref : List ℕ → ℕ → Option (List ℕ)
  unfolding find_ref read_ref
  load_ref name maxlen = elim (find_ref name) [
    | none ↦ none
    | some p ↦
        let size = min (file_size p.de) maxlen in some (read_ref size (first_cluster p.de) 0 size)
  ]

  -- The disk is `d`, and the cache says of each cluster what the table of `d` does.
  abbrev pub Mirrors : Volume → Type 0
  Mirrors v =
      (v.disk ≡ d)
      × ((c : ℕ)
          → c < low_28
          → lay.fat_start_lba + fat_sector c ≡ v.fat_cache_lba
          → entry v.fat_cache (fat_offset c) ≡ table_entry lay d c)

  -- The answer is the reference's.
  abbrev pub Gives : {A : Type 0} → A × Volume → A → Type 0
  Gives r x = (r.0 ≡ x) × Mirrors r.1

  pub fat_next_cluster-Gives :
      (c : ℕ) (v : Volume)
      → c < low_28
      → Mirrors v
      → Gives (fat_next_cluster on lay c v) (table_entry lay d c)
  unfolding fat_next_cluster load_fat table_entry entry
  fat_next_cluster-Gives c v inside (disk, cached) =
      elim (Bool-cases (lay.fat_start_lba + fat_sector c == v.fat_cache_lba)) [
        | inl hit ↦ rw hit (cached c inside (ground (arith, hit)), (disk, cached))
        | inr miss ↦ rw miss (
          ap (λ x. entry (x (lay.fat_start_lba + fat_sector c)) (fat_offset c)) disk,
          (
            disk,
            λ e low same.
                ap (λ x. entry (x (lay.fat_start_lba + fat_sector c)) (fat_offset e)) disk
                ∙ ap (λ l. entry (d l) (fat_offset e)) (sym same),
          ),
        )
      ]

  pub scan_sectors-Gives :
      (want : Search) (n lba : ℕ) (v : Volume)
      → Mirrors v
      → Gives (scan_sectors on lay want n lba v) (sectors_ref want n lba)
  unfolding scan_sectors sectors_ref read_sector
  scan_sectors-Gives want zero lba v m = (refl, m)
  scan_sectors-Gives want (suc n) lba v m =
      by_scan (scan_entries want l (v.disk l) 16 0) (scan_entries want l (d l) 16 0)
        (ap (λ x. scan_entries want l (x l) 16 0) m.0) (record v { clock = v.clock + 1 }) m
        (scan_sectors on lay want n (lba + 1) (record v { clock = v.clock + 1 }))
        (sectors_ref want n (lba + 1))
        (scan_sectors-Gives want n (lba + 1) (record v { clock = v.clock + 1 }) m)
    where
      l : ℕ
      l = lba % 2 ^ 32

      same_scan :
          (r : Scan) (v' : Volume)
          → Mirrors v'
          → (rest : Scan × Volume) (rest' : Scan) → Gives rest rest'
          → Gives
              (elim r [ found p ↦ (found p, v') | ended ↦ (ended, v') | onward ↦ rest ])
              (elim r [ found p ↦ found p | ended ↦ ended | onward ↦ rest' ])
      same_scan (found p) v' m rest rest' g = (refl, m)
      same_scan ended v' m rest rest' g = (refl, m)
      same_scan onward v' m rest rest' g = g

      by_scan :
          (r r' : Scan)
          → r ≡ r'
          → (v' : Volume) → Mirrors v'
          → (rest : Scan × Volume) (rest' : Scan) → Gives rest rest'
          → Gives
              (elim r [ found p ↦ (found p, v') | ended ↦ (ended, v') | onward ↦ rest ])
              (elim r' [ found p ↦ found p | ended ↦ ended | onward ↦ rest' ])
      by_scan r r' e v' m rest rest' g =
          subst
            (λ x.
              Gives (elim r [ found p ↦ (found p, v') | ended ↦ (ended, v') | onward ↦ rest ])
                (elim x [ found p ↦ found p | ended ↦ ended | onward ↦ rest' ]))
            e (same_scan r v' m rest rest' g)
