-- ===== src/Fat32/Files.antt =====
-- The files of src/fat32.c: directory entries, reading, loading and saving.
use arcade_os.Base.{
  ℕ, zero, suc, ◌+◌, ◌-◌, ◌*◌, ◌/◌, ◌%◌, ◌^◌, Bool, true, false, not, ◌&&◌, ◌||◌, Option, none,
  some, List, [], ◌∷◌, ◌++◌, ltb, leb, ◌==◌, if◌then◌else◌, get_or, min, length,
}
use arcade_os.Fat32.{
  Sector, sector_size, Layout, Volume, end_of_chain, in_chain, cluster_to_lba, read_sector,
  write_sector, fat_next_cluster, fat_set, fat_alloc_cluster, free_chain,
}
use arcade_os.Fat32.Names.{format_83, space}

-- The 32 bytes of a directory entry.
abbrev pub Dirent : Type 0
Dirent = ℕ → ℕ

-- `dirent_loc_t`
pub record Place : Type 0 where
  pub lba : ℕ
  pub index : ℕ
  pub de : Dirent

abbrev pub entry_at : Sector → ℕ → Dirent
entry_at s e i = s (e * 32 + i)

abbrev pub half_at : Dirent → ℕ → ℕ
half_at de o = de o + 256 * de (o + 1)

unfoldable pub first_cluster : Dirent → ℕ
first_cluster de = half_at de 20 * 65536 + half_at de 26

unfoldable pub file_size : Dirent → ℕ
file_size de = half_at de 28 + 65536 * half_at de 30

-- No deleted entry, no part of a long name and no volume label.
unfoldable pub is_file : Dirent → Bool
is_file de = not (de 0 == 0xE5) && not (de 11 % 16 == 15) && not (de 11 / 8 % 2 == 1)

-- `memcmp` of the first `n` bytes.
unfoldable pub same_name : ℕ → List ℕ → Dirent → Bool
same_name zero name de = true
same_name (suc n) name de = de n == get_or name n space && same_name n name de

-- What a look at some entries finds: the entry, the end of the directory, or nothing yet.
pub data Scan : Type 0 where
  found : Place → Scan
  ended : Scan
  onward : Scan

-- A search: what it makes of one entry.
abbrev pub Search : Type 0
Search = Dirent → Scan → Scan → Scan

-- `mode` 1: a slot that is free. The first answer is for a hit, the second to go on.
unfoldable pub wants_free : Search
wants_free de hit next = if de 0 == 0 || de 0 == 0xE5 then hit else next

-- `mode` 0: the entry with the formatted name.
unfoldable pub wants_name : List ℕ → Search
unfolding is_file same_name
wants_name name de hit next =
    if de 0 == 0 then ended else if is_file de && same_name 11 name de then hit else next

-- The entries of a sector, with the rounds left and the index.
unfoldable pub scan_entries : Search → ℕ → Sector → ℕ → ℕ → Scan
scan_entries want lba s zero e = onward
scan_entries want lba s (suc n) e =
    want (entry_at s e) (found (record { lba = lba; index = e; de = entry_at s e }))
      (scan_entries want lba s n (e + 1))

module _ (works : ℕ → Bool) (lay : Layout) where
  -- The sectors of a cluster, with the rounds left and the sector's number.
  unfoldable pub scan_sectors : Search → ℕ → ℕ → Volume → Scan × Volume
  unfolding read_sector scan_entries
  scan_sectors want zero lba v = (onward, v)
  scan_sectors want (suc n) lba v =
      let (s, v') = read_sector works (lba % 2 ^ 32) v in
      let rest = scan_sectors want n (lba + 1) v' in
      elim s [
        | none ↦ (ended, v')
        | some s ↦ elim (scan_entries want (lba % 2 ^ 32) s 16 0) [
          | found p ↦ (found p, v')
          | ended ↦ (ended, v')
          | onward ↦ rest
        ]
      ]

  -- The clusters of the directory. A chain longer than `fuel` ends the search.
  unfoldable pub scan_chain : Search → ℕ → ℕ → Volume → Option Place × Volume
  unfolding scan_sectors fat_next_cluster
  scan_chain want zero c v = (none, v)
  scan_chain want (suc fuel) c v =
      let (r, v') = scan_sectors want lay.sectors_per_cluster (cluster_to_lba lay c) v in
      let (next, v'') = fat_next_cluster works lay c v' in
      let rest = scan_chain want fuel next v'' in
      if not (in_chain c)
      then (none, v)
      else elim r [ found p ↦ (some p, v') | ended ↦ (none, v') | onward ↦ rest ]

  -- A directory has no more clusters than the volume.
  abbrev pub root_dir_locate : Search → Volume → Option Place × Volume
  root_dir_locate want v = scan_chain want (lay.total_clusters + 1) lay.root_cluster v

  unfoldable pub bytes_per_cluster : ℕ
  bytes_per_cluster = lay.sectors_per_cluster * sector_size

  abbrev pub slice : Sector → ℕ → ℕ → List ℕ
  slice s o zero = []
  slice s o (suc n) = s o ∷ slice s (o + 1) n

  -- The inner loop of `fat32_read_impl`: the sectors of a cluster, with the rounds left, the
  -- sector's number, the offset within it and how many bytes are still to be read. The Boolean says
  -- that the drive has not failed.
  unfoldable pub read_run : ℕ → ℕ → ℕ → ℕ → Volume → List ℕ × Bool × Volume
  unfolding read_sector
  read_run zero lba off want v = ([], true, v)
  read_run (suc n) lba off want v =
      let (s, v') = read_sector works (lba % 2 ^ 32) v in
      let part = min want (sector_size - off) in
      let (more, good, v'') = read_run n (lba + 1) 0 (want - part) v' in
      if want == 0
      then ([], true, v)
      else elim s [ none ↦ ([], false, v') | some s ↦ (slice s off part ++ more, good, v'') ]

  -- The outer loop, from an offset within the first cluster on. Each round reads some byte, so that
  -- `want` rounds are enough.
  unfoldable pub read_chain : ℕ → ℕ → ℕ → ℕ → Volume → List ℕ × Volume
  unfolding read_run fat_next_cluster
  read_chain zero c off want v = ([], v)
  read_chain (suc fuel) c off want v =
      let (part, good, v') =
        read_run (lay.sectors_per_cluster - off / sector_size)
          (cluster_to_lba lay c + off / sector_size) (off % sector_size) want v in
      let (next, v'') = fat_next_cluster works lay c v' in
      let (more, v''') = read_chain fuel next 0 (want - length part) v'' in
      if want == 0 || not (in_chain c)
      then ([], v)
      else if good
      then (part ++ more, v''')
      else (part, v')

  -- The whole clusters before the offset.
  unfoldable pub skip_clusters : ℕ → ℕ → Volume → ℕ × Volume
  unfolding fat_next_cluster
  skip_clusters zero c v = (c, v)
  skip_clusters (suc n) c v =
      let (next, v') = fat_next_cluster works lay c v in
      let rest = skip_clusters n next v' in if ltb c end_of_chain then rest else (c, v)

  -- `fat32_read_impl` for a file of `len` bytes from the cluster `first` on.
  unfoldable pub read_file : ℕ → ℕ → ℕ → ℕ → Volume → List ℕ × Volume
  unfolding bytes_per_cluster skip_clusters read_chain
  read_file first len offset size v =
      let want = if ltb len ((offset + size) % 2 ^ 32) then len - offset else size in
      let (c, v') = skip_clusters (offset / bytes_per_cluster) first v in
      if leb len offset then ([], v) else read_chain want c (offset % bytes_per_cluster) want v'

  -- `fat32_vfs_finddir` up to its answer: the entry that the node is made of.
  unfoldable pub find_in : ℕ → List ℕ → Volume → Option Place × Volume
  unfolding scan_chain wants_name
  find_in dir name v = scan_chain (wants_name (format_83 name)) (lay.total_clusters + 1) dir v

  -- `fat32_load_impl`; `none` stands for -1.
  unfoldable pub fat32_load : List ℕ → ℕ → Volume → Option (List ℕ) × Volume
  unfolding find_in read_file
  fat32_load name maxlen v =
      let (place, v') = find_in lay.root_cluster name v in
      elim place [
        | none ↦ (none, v')
        | some p ↦
            let (bytes, v'') =
              read_file (first_cluster p.de) (file_size p.de) 0 (min (file_size p.de) maxlen) v' in
            (some bytes, v'')
      ]

  -- The sector of the file that starts at the offset `off`, filled up with zeros.
  abbrev pub file_sector : (ℕ → ℕ) → ℕ → ℕ → Sector
  file_sector bytes len off i =
      if ltb (off + i) len && ltb i sector_size then bytes (off + i) else 0

  -- The sectors of one cluster of the new chain, with the rounds left.
  unfoldable pub write_run : ℕ → ℕ → (ℕ → ℕ) → ℕ → ℕ → Volume → Bool × Volume
  unfolding write_sector
  write_run zero lba bytes len off v = (true, v)
  write_run (suc n) lba bytes len off v =
      let (done, v') = write_sector works (lba % 2 ^ 32) (file_sector bytes len off) v in
      let rest = write_run n (lba + 1) bytes len (off + sector_size) v' in
      if done then rest else (false, v')

  -- A failure after the chain from `first` on has been begun: it is freed.
  unfoldable pub give_up : ℕ → Volume → Option ℕ × Volume
  unfolding free_chain
  give_up first v =
      (none, if first == 0 then v else free_chain works lay (lay.total_clusters + 1) first v)

  -- The loop of `fat32_save_impl`, with the rounds left, `i`, `prev` and `first_cluster`. The answer
  -- is the first cluster of the new chain.
  unfoldable pub write_clusters : ℕ → ℕ → ℕ → ℕ → (ℕ → ℕ) → ℕ → Volume → Option ℕ × Volume
  unfolding fat_alloc_cluster fat_set write_run give_up bytes_per_cluster
  write_clusters zero i prev first bytes len v = (some first, v)
  write_clusters (suc n) i prev first bytes len v =
      let (c, v₁) = fat_alloc_cluster works lay v in
      let v₂ = if prev == 0 then v₁ else (fat_set works lay prev c v₁).1 in
      let first' = if prev == 0 then c else first in
      let (done, v₃) =
        write_run lay.sectors_per_cluster (cluster_to_lba lay c) bytes len (i * bytes_per_cluster)
          v₂ in
      let rest = write_clusters n (i + 1) c first' bytes len v₃ in
      if c == 0 then give_up first v₁ else if done then rest else give_up first' v₃

  -- `loc.de` with the new chain and the new length.
  unfoldable pub with_file : ℕ → ℕ → Dirent → Dirent
  with_file first len de i =
      if i == 26
      then first % 256
      else if i == 27
      then first / 256 % 256
      else if i == 20
      then first / 65536 % 256
      else if i == 21
      then first / 16777216 % 256
      else if i == 28
      then len % 256
      else if i == 29
      then len / 256 % 256
      else if i == 30
      then len / 65536 % 256
      else if i == 31
      then len / 16777216 % 256
      else de i

  -- A new entry with the name: `memset`, `format_83` and ATTR_ARCHIVE.
  unfoldable pub blank_entry : List ℕ → Dirent
  blank_entry name i =
      if ltb i 11 then get_or (format_83 name) i space else if i == 11 then 0x20 else 0

  unfoldable pub put_entry : Sector → ℕ → Dirent → Sector
  put_entry s e de i = if leb (e * 32) i && ltb i (e * 32 + 32) then de (i - e * 32) else s i

  unfoldable pub dirent_writeback : Place → Volume → Bool × Volume
  unfolding read_sector write_sector put_entry
  dirent_writeback p v =
      let (s, v') = read_sector works p.lba v in
      elim s [
        | none ↦ (false, v')
        | some s ↦ write_sector works p.lba (put_entry s p.index p.de) v'
      ]

  -- The entry that the file has, or a free slot for it, and the first cluster of the old chain.
  unfoldable pub find_or_create : List ℕ → Volume → Option (Place × ℕ) × Volume
  unfolding find_in scan_chain wants_free blank_entry
  find_or_create name v =
      let (old, v') = find_in lay.root_cluster name v in
      let (slot, v'') = root_dir_locate wants_free v' in
      elim old [
        | some p ↦ (some (p, first_cluster p.de), v')
        | none ↦ elim slot [
          | none ↦ (none, v'')
          | some p ↦ (some (record p { de = blank_entry name }, 0), v'')
        ]
      ]

  -- The new file's clusters, and their first one; `none` where the save has failed.
  unfoldable pub write_file : (ℕ → ℕ) → ℕ → Volume → Option ℕ × Volume
  unfolding write_clusters bytes_per_cluster
  write_file bytes len v =
      write_clusters ((len + bytes_per_cluster - 1) % 2 ^ 32 / bytes_per_cluster) 0 0 0 bytes len v

  -- From the commit on. The Boolean says that the save has succeeded.
  unfoldable pub commit : Place → ℕ → ℕ → ℕ → Volume → Bool × Volume
  unfolding dirent_writeback with_file free_chain give_up
  commit p old first len v =
      let (done, v') = dirent_writeback (record p { de = with_file first len p.de }) v in
      if done
      then (true, if leb 2 old then free_chain works lay (lay.total_clusters + 1) old v' else v')
      else (false, (give_up first v').1)

  -- `fat32_save_impl`; false stands for -1.
  unfoldable pub fat32_save : List ℕ → (ℕ → ℕ) → ℕ → Volume → Bool × Volume
  unfolding find_or_create write_file commit
  fat32_save name bytes len v =
      let (place, v₁) = find_or_create name v in
      elim place [
        | none ↦ (false, v₁)
        | some (p, old) ↦
            let (first, v₂) = write_file bytes len v₁ in
            elim first [ none ↦ (false, v₂) | some first ↦ commit p old first len v₂ ]
      ]
