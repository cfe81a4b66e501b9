-- ===== src/Fat32/Saves.antt =====
-- A save that fails: the files of the volume are as they were.
use arcade_os.Base.{
  ℕ, ◌+◌, ◌-◌, ◌/◌, ◌%◌, ◌^◌, ◌≤◌, ◌<◌, ◌≡◌, ◌≢◌, ◌⊎◌, inl, ◌∙◌, refl, subst, Bool, true, false,
  ◌&&◌, leb, ◌==◌, if◌then◌else◌, arith, Option, none, some, List, OnSome,
}
use arcade_os.Fat32.{
  Sector, Layout, Volume, fat_sector, fat_offset, read_sector, write_sector, fat_alloc_cluster,
  free_chain,
}
use arcade_os.Fat32.Layouts.{IsSound}
use arcade_os.Fat32.Words.{entry}
use arcade_os.Fat32.Table.{
  table_entry, WasFree, IsKept, Keeps, read_sector-Keeps, fat_alloc_cluster-Keeps,
}
use arcade_os.Fat32.Lookups.{After, find_or_create-Keeps}
use arcade_os.Fat32.Uncommitted.{Begun, Begun-Loose, give_up-Keeps, write_clusters-Keeps}
use arcade_os.Fat32.Files.{
  Place, bytes_per_cluster, put_entry, give_up, dirent_writeback, find_or_create, write_clusters,
  write_file, commit, fat32_save, with_file,
}

module _ (lay : Layout) (d₀ : ℕ → Sector) (works : ℕ → Bool) where
  failed_write :
      (lba : ℕ) (s : Sector) (v : Volume)
      → works v.clock ≡ false
      → Keeps lay d₀ v
      → Keeps lay d₀ (write_sector works lba s v).1
  unfolding write_sector read_sector
  failed_write lba s v bad k =
      subst (Keeps lay d₀) (λ i. record v { disk = λ l. same l i; clock = v.clock + 1 })
        (read_sector-Keeps lay d₀ works lba v k)
    where
      same : (l : ℕ) → v.disk l ≡ (if l == lba && works v.clock then s else v.disk l)
      same l = ground (arith, bad)

  -- A write of the directory that fails leaves the disk.
  dirent_writeback-Keeps :
      (p : Place) (v : Volume)
      → (dirent_writeback works lay p v).0 ≡ false
      → Keeps lay d₀ v
      → Keeps lay d₀ (dirent_writeback works lay p v).1
  unfolding dirent_writeback write_sector
  dirent_writeback-Keeps p v failed k =
      by_read (read_sector works p.lba v) (read_sector-Keeps lay d₀ works p.lba v k) failed
    where
      written : Option Sector × Volume → Bool × Volume
      written r = elim r.0 [
        | none ↦ (false, r.1)
        | some s ↦ write_sector works p.lba (put_entry works lay s p.index p.de) r.1
      ]

      by_read :
          (r : Option Sector × Volume)
          → Keeps lay d₀ r.1
          → (written r).0 ≡ false
          → After lay d₀ works (written r)
      by_read (none, v') k' failed = k'
      by_read (some s, v') k' failed = failed_write p.lba _ v' failed k'

  module _ (sound : IsSound lay) where
    commit-Keeps :
        (p : Place) (old first len : ℕ) (v : Volume)
        → Begun lay d₀ works sound first
        → (commit works lay p old first len v).0 ≡ false
        → Keeps lay d₀ v
        → Keeps lay d₀ (commit works lay p old first len v).1
    unfolding commit give_up
    commit-Keeps p old first len v begun failed k =
        by_write (dirent_writeback works lay entry_of v) failed (dirent_writeback-Keeps entry_of v)
      where
        entry_of : Place
        entry_of = record p { de = with_file works lay first len p.de }

        finished : Bool × Volume → Bool × Volume
        finished r =
            if r.0
            then (
              true,
              if leb 2 old then free_chain works lay (lay.total_clusters + 1) old r.1 else r.1,
            )
            else (false, (give_up works lay first r.1).1)

        by_write :
            (r : Bool × Volume)
            → (finished r).0 ≡ false
            → (r.0 ≡ false → Keeps lay d₀ v → Keeps lay d₀ r.1)
            → Keeps lay d₀ (finished r).1
        by_write (true, v') failed kept = absurd (cc)
        by_write (false, v') failed kept =
            give_up-Keeps lay d₀ works sound first v' (Begun-Loose lay d₀ works sound first begun)
              (kept refl k)

    fat32_save-Keeps :
        (name : List ℕ) (bytes : ℕ → ℕ) (len : ℕ) (v : Volume)
        → (fat32_save works lay name bytes len v).0 ≡ false
        → Keeps lay d₀ v
        → Keeps lay d₀ (fat32_save works lay name bytes len v).1
    unfolding fat32_save write_file
    fat32_save-Keeps name bytes len v failed k =
        by_place (find_or_create works lay name v) (find_or_create-Keeps lay d₀ works name v k)
          failed
      where
        n : ℕ
        n = (len + bytes_per_cluster works lay - 1) % 2 ^ 32 / bytes_per_cluster works lay

        by_first : Place → ℕ → Option ℕ × Volume → Bool × Volume
        by_first p old r = elim r.0 [
          | none ↦ (false, r.1)
          | some first ↦ commit works lay p old first len r.1
        ]

        saved : Option (Place × ℕ) × Volume → Bool × Volume
        saved r = elim r.0 [
          | none ↦ (false, r.1)
          | some (p, old) ↦ by_first p old (write_clusters works lay n 0 0 0 bytes len r.1)
        ]

        first-Keeps :
            (p : Place) (old : ℕ) (r : Option ℕ × Volume)
            → Keeps lay d₀ r.1
            → OnSome (Begun lay d₀ works sound) r.0
            → (by_first p old r).0 ≡ false
            → Keeps lay d₀ (by_first p old r).1
        first-Keeps p old (none, v') k' begun failed = k'
        first-Keeps p old (some first, v') k' begun failed =
            commit-Keeps p old first len v' begun failed k'

        by_place :
            (r : Option (Place × ℕ) × Volume)
            → Keeps lay d₀ r.1
            → (saved r).0 ≡ false
            → Keeps lay d₀ (saved r).1
        by_place (none, v') k' failed = k'
        by_place (some (p, old), v') k' failed =
            let (k'', begun) =
              write_clusters-Keeps lay d₀ works sound n 0 0 0 bytes len v' (inl refl) (inl refl)
                k' in
            first-Keeps p old _ k'' begun failed

-- The cache holds what the disk's table says, whatever sector it is of.
abbrev pub IsCoherent : Layout → Volume → Type 0
IsCoherent lay v =
    (c : ℕ)
    → 2 ≤ c
    → c < lay.total_clusters + 2
    → lay.fat_start_lba + fat_sector c ≡ v.fat_cache_lba
    → entry v.fat_cache (fat_offset c) ≡ table_entry lay v.disk c

module _ (lay : Layout) (works : ℕ → Bool) (sound : IsSound lay) where
  coherent-Keeps : (v : Volume) → IsCoherent lay v → Keeps lay v.disk v
  coherent-Keeps v coherent = record {
    table = λ c low high. ((λ used. refl), λ gone. inl gone);
    cache = λ c low high same.
        (λ used. coherent c low high same, λ gone. inl (coherent c low high same ∙ gone));
    files = λ lba behind kept. refl;
  }

  -- On a sound layout with a coherent cache, whatever operations the drive fails to carry out,
  -- `fat_alloc_cluster` gives 0 or a cluster of the volume whose entry in the table was 0.
  pub fat_alloc_cluster_free :
      (v : Volume)
      → IsCoherent lay v
      → ((fat_alloc_cluster works lay v).0 ≡ 0)
        ⊎ WasFree lay v.disk (fat_alloc_cluster works lay v).0
  fat_alloc_cluster_free v coherent =
      (fat_alloc_cluster-Keeps lay v.disk works sound v (coherent-Keeps v coherent)).1

  -- A `fat32_save` that fails, on a sound layout with a coherent cache, leaves the table's entry of
  -- each cluster of the volume that was in use, whichever of the drive's operations failed: a drive
  -- that loses its power before the commit is one of which all operations fail from some moment on.
  pub table_entry-fat32_save :
      (name : List ℕ) (bytes : ℕ → ℕ) (len : ℕ) (v : Volume) (c : ℕ)
      → IsCoherent lay v
      → (fat32_save works lay name bytes len v).0 ≡ false
      → 2 ≤ c
      → c < lay.total_clusters + 2
      → table_entry lay v.disk c ≢ 0
      → table_entry lay (fat32_save works lay name bytes len v).1.disk c ≡ table_entry lay v.disk c
  table_entry-fat32_save name bytes len v c coherent failed low high used =
      ((fat32_save-Keeps lay v.disk works sound name bytes len v failed
            (coherent-Keeps v coherent)).table
          c low high).0
        used

  -- A `fat32_save` that fails, on a sound layout with a coherent cache, leaves each sector of the
  -- data area that belongs to no cluster that was free, whichever of the drive's operations failed.
  pub disk-fat32_save :
      (name : List ℕ) (bytes : ℕ → ℕ) (len : ℕ) (v : Volume) (lba : ℕ)
      → IsCoherent lay v
      → (fat32_save works lay name bytes len v).0 ≡ false
      → lay.data_start_lba ≤ lba
      → IsKept lay v.disk lba
      → (fat32_save works lay name bytes len v).1.disk lba ≡ v.disk lba
  disk-fat32_save name bytes len v lba coherent failed behind kept =
      (fat32_save-Keeps lay v.disk works sound name bytes len v failed
          (coherent-Keeps v coherent)).files
        lba behind kept
