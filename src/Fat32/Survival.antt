-- ===== src/Fat32/Survival.antt =====
-- After a save that fails, and a restart, each file has the content that it had.
use native.Mathlib.Nat.{mul-le-mul_right, suc-mul}
use arcade_os.Base.{
  ℕ, suc, ◌+◌, ◌-◌, ◌*◌, ◌%◌, ◌^◌, ◌≤◌, ◌<◌, ◌≡◌, ◌≢◌, ◌∙◌, refl, sym, subst, Bool, false, arith,
  dec_lt, ℕ_discrete, List,
}
use arcade_os.Fat32.{Sector, Layout, Volume, cluster_to_lba}
use arcade_os.Fat32.Layouts.{IsSound}
use arcade_os.Fat32.Table.{table_entry, IsKept}
use arcade_os.Fat32.Files.{fat32_load, fat32_save}
use arcade_os.Fat32.Saves.{IsCoherent, table_entry-fat32_save, disk-fat32_save}
use arcade_os.Fat32.Reference.{on, Mirrors}
use arcade_os.Fat32.Loads.{fat32_load-load_ref}
use arcade_os.Fat32.Agreement.{IsUsed, IsTidy, Agrees, load_ref_same}

-- The volume after a restart: `fat32_init` empties the cache.
abbrev pub restarted : Volume → Volume
restarted v = record v { fat_cache_lba = 0xFFFFFFFF }

module _ (lay : Layout) (sound : IsSound lay) where
  pub restarted-Mirrors : (v : Volume) → Mirrors lay v.disk (restarted v)
  restarted-Mirrors v = (refl, λ c low same. absurd (omega (arith, low, same, sound.start_in_half)))

  module _ (d : ℕ → Sector) where
    -- The sectors of a cluster of the volume have 32-bit numbers.
    lba_lem :
        (c s : ℕ)
        → 2 ≤ c
        → c < lay.total_clusters + 2
        → s < lay.sectors_per_cluster
        → (cluster_to_lba lay c + s ≡ lay.data_start_lba + (c - 2) * lay.sectors_per_cluster + s)
          × ((cluster_to_lba lay c + s) % 2 ^ 32
              ≡ lay.data_start_lba + (c - 2) * lay.sectors_per_cluster + s)
    unfolding cluster_to_lba
    lba_lem c s low high inside =
        let below =
          mul-le-mul_right {m = suc (c - 2)} {n = lay.total_clusters} lay.sectors_per_cluster
            (omega arith) in
        let split = suc-mul (c - 2) lay.sectors_per_cluster in
        (omega (arith, below, split, sound.in_words), omega (arith, below, split, sound.in_words))

    -- Clusters do not overlap.
    clusters_apart : (a b s t n : ℕ) → a < b → s < n → a * n + s ≢ b * n + t
    clusters_apart a b s t n below inside =
        λ e. omega (arith, e, mul-le-mul_right {m = suc a} {n = b} n below, suc-mul a n)

    used-IsKept :
        (c s : ℕ)
        → IsUsed lay d c
        → s < lay.sectors_per_cluster
        → IsKept lay d ((cluster_to_lba lay c + s) % 2 ^ 32)
    used-IsKept c s (low, high, used) inside e t (low', high', gone) inside' same =
        let here = (lba_lem c s low high inside).1 in
        let there = (lba_lem e t low' high' inside').0 in
        let meet : (c - 2) * lay.sectors_per_cluster + s ≡ (e - 2) * lay.sectors_per_cluster + t =
          omega (arith, here, there, same) in
        elim (dec_lt c e) [
          | yes below ↦
              clusters_apart (c - 2) (e - 2) s t lay.sectors_per_cluster (omega arith) inside meet
          | no above ↦ elim (ℕ_discrete c e) [
            | yes one ↦ used (subst (λ x. table_entry lay d x ≡ 0) (sym one) gone)
            | no other ↦
                clusters_apart (e - 2) (c - 2) t s lay.sectors_per_cluster
                  (omega (arith, above, other)) inside' (sym meet)
          ]
        ]

  -- A `fat32_save` that fails, by a full volume or directory or by any failures of the drive, leaves
  -- every file: after a restart, with a drive that works, `fat32_load` gives for each name, the saved
  -- one included, what it would have given before. The layout is sound, the cache coherent, and the
  -- directory and the files are made of clusters in use. A power cut before the commit is a drive
  -- of which all operations fail from some moment on.
  pub fat32_load-fat32_save :
      (works : ℕ → Bool) (name other : List ℕ) (bytes : ℕ → ℕ) (len maxlen : ℕ) (v : Volume)
      → IsCoherent lay v
      → IsTidy lay v.disk
      → (fat32_save works lay name bytes len v).0 ≡ false
      → (fat32_load on lay other maxlen (restarted (fat32_save works lay name bytes len v).1)).0
        ≡ (fat32_load on lay other maxlen (restarted v)).0
  fat32_load-fat32_save works name other bytes len maxlen v coherent tidy failed =
      fat32_load-load_ref lay after.disk other maxlen (restarted after) (restarted-Mirrors after)
      ∙ load_ref_same lay v.disk after.disk agrees tidy other maxlen
      ∙ sym (fat32_load-load_ref lay v.disk other maxlen (restarted v) (restarted-Mirrors v))
    where
      after : Volume
      after = (fat32_save works lay name bytes len v).1

      agrees : Agrees lay v.disk after.disk
      agrees = record {
        entries = λ c (low, high, used).
            table_entry-fat32_save lay works sound name bytes len v c coherent failed low high used;
        sectors = λ c s used inside.
            disk-fat32_save lay works sound name bytes len v ((cluster_to_lba lay c + s) % 2 ^ 32)
              coherent failed (omega (arith, (lba_lem v.disk c s used.0 used.1 inside).1))
              (used-IsKept v.disk c s used inside);
      }
