-- ===== src/Fat32/Lookups.antt =====
-- Looking for a directory entry changes neither the disk nor what the cache says of it.
use arcade_os.Base.{
  ℕ, zero, suc, ◌+◌, ◌%◌, ◌^◌, Bool, true, false, not, if◌then◌else◌, Option, none, some, List,
}
use arcade_os.Fat32.{
  Sector, Layout, Volume, in_chain, cluster_to_lba, read_sector, fat_next_cluster,
}
use arcade_os.Fat32.Names.{format_83}
use arcade_os.Fat32.Table.{Keeps, read_sector-Keeps, fat_next_cluster-Keeps}
use arcade_os.Fat32.Files.{
  Place, Scan, found, ended, onward, Search, scan_entries, scan_sectors, scan_chain, wants_free,
  wants_name, find_in, root_dir_locate, find_or_create, first_cluster, blank_entry,
}

module _ (lay : Layout) (d₀ : ℕ → Sector) (works : ℕ → Bool) where
  abbrev pub After : {A : Type 0} → A × Volume → Type 0
  After r = Keeps lay d₀ r.1

  -- Looking for an entry changes nothing.
  scan_sectors-Keeps :
      (want : Search) (n lba : ℕ) (v : Volume)
      → Keeps lay d₀ v
      → Keeps lay d₀ (scan_sectors works lay want n lba v).1
  unfolding scan_sectors
  scan_sectors-Keeps want zero lba v k = k
  scan_sectors-Keeps want (suc n) lba v k =
      let k' = read_sector-Keeps lay d₀ works (lba % 2 ^ 32) v k in
      by_sector (read_sector works (lba % 2 ^ 32) v) k'
        (scan_sectors-Keeps want n (lba + 1) (read_sector works (lba % 2 ^ 32) v).1 k')
    where
      by_scan :
          (r : Scan) (v' : Volume) (rest : Scan × Volume)
          → Keeps lay d₀ v'
          → Keeps lay d₀ rest.1
          → After {A = Scan}
              (elim r [ found p ↦ (found p, v') | ended ↦ (ended, v') | onward ↦ rest ])
      by_scan (found p) v' rest k' again = k'
      by_scan ended v' rest k' again = k'
      by_scan onward v' rest k' again = again

      by_sector :
          (r : Option Sector × Volume)
          → Keeps lay d₀ r.1
          → Keeps lay d₀ (scan_sectors works lay want n (lba + 1) r.1).1
          → After {A = Scan} (elim r.0 [
            | none ↦ (ended, r.1)
            | some s ↦ elim (scan_entries want (lba % 2 ^ 32) s 16 0) [
              | found p ↦ (found p, r.1)
              | ended ↦ (ended, r.1)
              | onward ↦ scan_sectors works lay want n (lba + 1) r.1
            ]
          ])
      by_sector (none, v') k' again = k'
      by_sector (some s, v') k' again =
          by_scan (scan_entries want (lba % 2 ^ 32) s 16 0) v' _ k' again

  scan_chain-Keeps :
      (want : Search) (fuel c : ℕ) (v : Volume)
      → Keeps lay d₀ v
      → Keeps lay d₀ (scan_chain works lay want fuel c v).1
  unfolding scan_chain
  scan_chain-Keeps want zero c v k = k
  scan_chain-Keeps want (suc fuel) c v k =
      by_scan (not (in_chain c)) looked.0 looked.1 (scan_chain works lay want fuel next.0 next.1)
        kept
        (scan_chain-Keeps want fuel next.0 next.1
          (fat_next_cluster-Keeps lay d₀ works c looked.1 kept))
    where
      looked : Scan × Volume
      looked = scan_sectors works lay want lay.sectors_per_cluster (cluster_to_lba lay c) v

      next : ℕ × Volume
      next = fat_next_cluster works lay c looked.1

      kept : Keeps lay d₀ looked.1
      kept = scan_sectors-Keeps want lay.sectors_per_cluster (cluster_to_lba lay c) v k

      by_scan :
          (b : Bool) (r : Scan) (v' : Volume) (rest : Option Place × Volume)
          → Keeps lay d₀ v'
          → Keeps lay d₀ rest.1
          → After {A = Option Place} (
              if b
              then (none, v)
              else elim r [ found p ↦ (some p, v') | ended ↦ (none, v') | onward ↦ rest ])
      by_scan true r v' rest k' again = k
      by_scan false (found p) v' rest k' again = k'
      by_scan false ended v' rest k' again = k'
      by_scan false onward v' rest k' again = again

  pub find_or_create-Keeps :
      (name : List ℕ) (v : Volume)
      → Keeps lay d₀ v
      → Keeps lay d₀ (find_or_create works lay name v).1
  unfolding find_or_create find_in
  find_or_create-Keeps name v k =
      by_old (find_in works lay lay.root_cluster name v)
        (scan_chain-Keeps (wants_name (format_83 name)) _ lay.root_cluster v k)
    where
      by_slot :
          (r : Option Place × Volume)
          → Keeps lay d₀ r.1
          → After {A = Option (Place × ℕ)} (elim r.0 [
            | none ↦ (none, r.1)
            | some p ↦ (some (record p { de = blank_entry works lay name }, 0), r.1)
          ])
      by_slot (none, v') k' = k'
      by_slot (some p, v') k' = k'

      by_old :
          (r : Option Place × Volume)
          → Keeps lay d₀ r.1
          → After {A = Option (Place × ℕ)} (elim r.0 [
            | some p ↦ (some (p, first_cluster p.de), r.1)
            | none ↦ elim (root_dir_locate works lay wants_free r.1).0 [
              | none ↦ (none, (root_dir_locate works lay wants_free r.1).1)
              | some p ↦ (
                some (record p { de = blank_entry works lay name }, 0),
                (root_dir_locate works lay wants_free r.1).1,
              )
            ]
          ])
      by_old (some p, v') k' = k'
      by_old (none, v') k' =
          by_slot (root_dir_locate works lay wants_free v')
            (scan_chain-Keeps wants_free _ lay.root_cluster v' k')
