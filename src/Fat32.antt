-- ===== src/Fat32.antt =====
-- src/fat32.c: the drive, the file allocation table with its one-sector cache, and clusters. A
-- sector is a function from the offset to the byte, the disk one from the sector's number to it.
pub mod Names
pub mod Files
pub mod Layouts
pub mod Words
pub mod Table
pub mod Uncommitted
pub mod Lookups
pub mod Saves
pub mod Reference
pub mod Loads
pub mod Agreement
pub mod Survival
pub mod Spelling
pub mod Case
mod Tests
use arcade_os.Base.{
  ℕ, zero, suc, ◌+◌, ◌-◌, ◌*◌, ◌/◌, ◌%◌, ◌^◌, Bool, true, false, not, ◌&&◌, ◌||◌, Option, none,
  some, ltb, leb, ◌==◌, if◌then◌else◌,
}

abbrev pub Sector : Type 0
Sector = ℕ → ℕ

abbrev pub sector_size : ℕ
sector_size = 512

-- The geometry that `fat32_init` reads from the boot sector.
pub record Layout : Type 0 where
  pub fat_start_lba : ℕ
  pub data_start_lba : ℕ
  pub sectors_per_cluster : ℕ
  pub root_cluster : ℕ
  pub total_clusters : ℕ
  pub fat_size_sectors : ℕ
  pub num_fats : ℕ

-- The disk, the cached sector of the table, and how many operations the drive has been asked for.
pub record Volume : Type 0 where
  pub disk : ℕ → Sector
  pub fat_cache : Sector
  pub fat_cache_lba : ℕ
  pub clock : ℕ

-- `memcpy` of a `uint32_t` out of and into a sector.
pub word_at : Sector → ℕ → ℕ
word_at s o = s o + 256 * s (o + 1) + 65536 * s (o + 2) + 16777216 * s (o + 3)

pub put_word : Sector → ℕ → ℕ → Sector
put_word s o v i =
    if i == o
    then v % 256
    else if i == o + 1
    then v / 256 % 256
    else if i == o + 2
    then v / 65536 % 256
    else if i == o + 3
    then v / 16777216 % 256
    else s i

abbrev pub end_of_chain : ℕ
end_of_chain = 0x0FFFFFF8

-- The mark that ends a chain.
abbrev pub last_mark : ℕ
last_mark = 0x0FFFFFFF

-- `value & 0x0FFFFFFF` is what an entry says.
abbrev pub low_28 : ℕ
low_28 = 2 ^ 28

-- A cluster of a chain.
abbrev pub in_chain : ℕ → Bool
in_chain c = leb 2 c && ltb c end_of_chain

-- Where the entry of a cluster stands in the table.
abbrev pub fat_sector : ℕ → ℕ
fat_sector cluster = cluster * 4 / sector_size

abbrev pub fat_offset : ℕ → ℕ
fat_offset cluster = cluster * 4 % sector_size

pub cluster_to_lba : Layout → ℕ → ℕ
cluster_to_lba lay cluster = (lay.data_start_lba + (cluster - 2) * lay.sectors_per_cluster) % 2 ^ 32

-- The reserved high bits stay.
pub new_entry : ℕ → ℕ → ℕ
new_entry cur value = cur / low_28 * low_28 + value % low_28

-- `works n`: the drive carries out the operation that it is asked for as the one with number `n`.
-- Else it reports a failure, and the disk stays as it is. A cut of the power at some moment is a
-- drive that does nothing from that moment on.
module _ (works : ℕ → Bool) where
  -- `disk_read_sector`
  pub read_sector : ℕ → Volume → Option Sector × Volume
  read_sector lba v =
      (if works v.clock then some (v.disk lba) else none, record v { clock = v.clock + 1 })

  -- `disk_write_sector`
  pub write_sector : ℕ → Sector → Volume → Bool × Volume
  write_sector lba s v = (
    works v.clock,
    record v { disk = λ l. if l == lba && works v.clock then s else v.disk l; clock = v.clock + 1 },
  )

  -- The table's sector is in the cache afterwards, or the drive has failed.
  pub load_fat : ℕ → Volume → Bool × Volume
  load_fat lba v =
      if lba == v.fat_cache_lba
      then (true, v)
      else if works v.clock
      then (true, record v { fat_cache = v.disk lba; fat_cache_lba = lba; clock = v.clock + 1 })
      else (false, record v { clock = v.clock + 1 })

module _ (works : ℕ → Bool) (lay : Layout) where
  pub fat_next_cluster : ℕ → Volume → ℕ × Volume
  unfolding load_fat
  fat_next_cluster cluster v =
      let (there, v') = load_fat works (lay.fat_start_lba + fat_sector cluster) v in
      (if there then word_at v'.fat_cache (fat_offset cluster) % low_28 else end_of_chain, v')

  -- The cached sector is written to every copy of the table, from the copy `f` on.
  pub write_copies : ℕ → ℕ → ℕ → Volume → Bool × Volume
  unfolding write_sector
  write_copies zero f idx v = (true, v)
  write_copies (suc n) f idx v =
      let (done, v') =
        write_sector works ((lay.fat_start_lba + f * lay.fat_size_sectors + idx) % 2 ^ 32)
          v.fat_cache v in
      let rest = write_copies n (f + 1) idx v' in if done then rest else (false, v')

  pub fat_set : ℕ → ℕ → Volume → Bool × Volume
  unfolding load_fat write_copies
  fat_set cluster value v =
      let (there, v') = load_fat works (lay.fat_start_lba + fat_sector cluster) v in
      let cur = word_at v'.fat_cache (fat_offset cluster) in
      if there
      then write_copies lay.num_fats 0 (fat_sector cluster) (record v' {
        fat_cache = put_word v'.fat_cache (fat_offset cluster) (new_entry cur value);
      })
      else (false, v')

  -- The search of `fat_alloc_cluster`, with the rounds left and the cluster.
  pub alloc_from : ℕ → ℕ → Volume → ℕ × Volume
  unfolding fat_next_cluster fat_set
  alloc_from zero c v = (0, v)
  alloc_from (suc n) c v =
      let (next, v') = fat_next_cluster c v in
      let (done, v'') = fat_set c last_mark v' in
      let rest = alloc_from n (c + 1) v' in if next == 0 then (if done then c else 0, v'') else rest

  -- 0 where the volume is full, or the drive has failed.
  pub fat_alloc_cluster : Volume → ℕ × Volume
  unfolding alloc_from
  fat_alloc_cluster v = alloc_from ((lay.total_clusters + 2) % 2 ^ 32 - 2) 2 v

  -- `fat_free_chain`, or its first `fuel` rounds.
  pub free_chain : ℕ → ℕ → Volume → Volume
  unfolding fat_next_cluster fat_set
  free_chain zero c v = v
  free_chain (suc fuel) c v =
      let (next, v') = fat_next_cluster c v in
      let rest = free_chain fuel next (fat_set c 0 v').1 in if in_chain c then rest else v
