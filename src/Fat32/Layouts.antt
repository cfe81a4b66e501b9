-- ===== src/Fat32/Layouts.antt =====
-- `fat32_init`: the geometry of a volume, and what a sound one is like.
use arcade_os.Base.{
  ℕ, ◌+◌, ◌-◌, ◌*◌, ◌/◌, ◌%◌, ◌^◌, ◌≤◌, ◌<◌, Bool, true, not, ◌&&◌, Option, none, some, List, [],
  ◌∷◌, ◌==◌, if◌then◌else◌,
}
use arcade_os.Fat32.{Sector, sector_size, Layout, Volume, word_at, read_sector}

-- `FAT32` and three spaces.
abbrev pub fs_type : List ℕ
fs_type = 70 ∷ 65 ∷ 84 ∷ 51 ∷ 50 ∷ 32 ∷ 32 ∷ 32 ∷ []

-- `memcmp` of a text with the bytes from an offset on.
pub starts_with : List ℕ → Sector → ℕ → Bool
starts_with [] s o = true
starts_with (c ∷ cs) s o = s o == c && starts_with cs s (o + 1)

-- `fat32_bpb_t` by the offsets of its fields.
pub is_fat32 : Sector → Bool
unfolding starts_with
is_fat32 s =
    s 510 == 0x55 && s 511 == 0xAA && (starts_with fs_type s 82 && s 11 + 256 * s 12 == sector_size)

pub layout_of : Sector → Layout
unfolding word_at
layout_of s =
    let start = s 14 + 256 * s 15 in
    let data_start = (start + s 16 * word_at s 36) % 2 ^ 32 in
    record {
      fat_start_lba = start;
      data_start_lba = data_start;
      sectors_per_cluster = s 13;
      root_cluster = word_at s 44;
      total_clusters = (word_at s 32 + 2 ^ 32 - data_start) % 2 ^ 32 / s 13;
      fat_size_sectors = word_at s 36;
      num_fats = s 16;
    }

-- `present` is `disk_is_present()`. The cache is emptied, as no sector has this number.
pub fat32_init : (ℕ → Bool) → Bool → Volume → Option Layout × Volume
unfolding read_sector is_fat32 layout_of
fat32_init works present v =
    let (s, v') = read_sector works 0 v in
    if not present then (none, v) else elim s [
      | none ↦ (none, v')
      | some s ↦
          if is_fat32 s
          then (some (layout_of s), record v' { fat_cache_lba = 0xFFFFFFFF })
          else (none, v')
    ]

-- The table holds an entry for every cluster, its copies end where the clusters begin, and the
-- sectors of the volume have 32-bit numbers.
pub record IsSound (lay : Layout) : Type 0 where
  pub some_sector : 0 < lay.sectors_per_cluster
  pub some_copy : 0 < lay.num_fats
  pub table_fits : lay.total_clusters + 2 ≤ lay.fat_size_sectors * 128
  pub data_behind : lay.fat_start_lba + lay.num_fats * lay.fat_size_sectors ≤ lay.data_start_lba
  pub marks_free : lay.total_clusters + 2 ≤ 0x0FFFFFF8
  pub in_words : lay.data_start_lba + lay.total_clusters * lay.sectors_per_cluster < 2 ^ 32
  -- The boot sector counts the sectors before the table in 16 bits.
  pub start_in_half : lay.fat_start_lba < 2 ^ 16
