-- ===== src/Fat32/Tests.antt =====
-- A small volume: a table of one sector, four clusters of one sector, of which the root directory
-- has the first.
use arcade_os.Base.{
  ℕ, zero, suc, ◌<◌, ◌≡◌, ◌≢◌, refl, subst, Bool, true, false, ltb, ◌==◌, if◌then◌else◌, arith,
  List, [], ◌∷◌, Option, none, some, OnSome,
}
use arcade_os.Fat32.{Sector, Layout, Volume, word_at, put_word, last_mark, cluster_to_lba, in_chain}
use arcade_os.Fat32.Names.{format_83}
use arcade_os.Fat32.Layouts.{IsSound}
use arcade_os.Fat32.Words.{entry}
use arcade_os.Fat32.Table.{table_entry}
use arcade_os.Fat32.Files.{
  Place, entry_at, Scan, found, ended, onward, wants_name, is_file, same_name, scan_entries,
  first_cluster, file_size, fat32_load, fat32_save,
}
use arcade_os.Fat32.Saves.{IsCoherent}
use arcade_os.Fat32.Reference.{on, chain_ref, find_ref, load_ref}
use arcade_os.Fat32.Loads.{fat32_load-load_ref}
use arcade_os.Fat32.Agreement.{IsUsed, IsTidy}
use arcade_os.Fat32.Survival.{restarted, restarted-Mirrors, fat32_load-fat32_save}

abbrev small : Layout
small = record {
  fat_start_lba = 1;
  data_start_lba = 2;
  sectors_per_cluster = 1;
  root_cluster = 2;
  total_clusters = 4;
  fat_size_sectors = 1;
  num_fats = 1;
}

abbrev blank : Sector
blank i = 0

-- The directory has one file, `B`, of one byte, in the cluster 3.
abbrev b_entry : Sector
b_entry i =
    if i == 0
    then 66
    else if ltb i 11
    then 32
    else if i == 11
    then 32
    else if i == 26
    then 3
    else if i == 28
    then 1
    else 0

abbrev b_text : Sector
b_text i = if i == 0 then 42 else 0

-- The table has marks for the directory's cluster and for the file's.
abbrev fat_copy : Sector
fat_copy = put_word (put_word blank 8 last_mark) 12 last_mark

abbrev disk : ℕ → Sector
disk l = if l == 1 then fat_copy else if l == 2 then b_entry else if l == 3 then b_text else blank

abbrev mounted : Volume
mounted = record { disk = disk; fat_cache = blank; fat_cache_lba = 0xFFFFFFFF; clock = 0 }

-- A drive without power from its sixth operation on.
abbrev cut : ℕ → Bool
cut n = ltb n 5

small-IsSound : IsSound small
small-IsSound = record {
  some_sector = omega arith;
  some_copy = omega arith;
  table_fits = omega arith;
  data_behind = omega arith;
  marks_free = omega arith;
  in_words = omega arith;
  start_in_half = omega arith;
}

mounted-IsCoherent : IsCoherent small mounted
mounted-IsCoherent c low high same = absurd (omega (arith, same, high))

abbrev name_a : List ℕ
name_a = 65 ∷ []

abbrev name_b : List ℕ
name_b = 66 ∷ []

abbrev text : ℕ → ℕ
text i = 7

cut_fails : (fat32_save cut small name_a text 1 mounted).0 ≡ false
unfolding fat32_save cluster_to_lba word_at put_word format_83
cut_fails = refl

-- With power, both files are there afterwards.
saved :
    (fat32_load on small name_a 9 (fat32_save on small name_a text 1 mounted).1).0 ≡ some (7 ∷ [])
unfolding fat32_load fat32_save cluster_to_lba word_at put_word format_83 file_size first_cluster
saved = refl

b_loads : (fat32_load on small name_b 9 mounted).0 ≡ some (42 ∷ [])
unfolding fat32_load cluster_to_lba word_at put_word format_83 file_size first_cluster
b_loads = refl

marks : (table_entry small disk 2 ≡ last_mark) × (table_entry small disk 3 ≡ last_mark)
unfolding table_entry word_at put_word entry
marks = (refl, refl)

root-IsUsed : IsUsed small disk 2
root-IsUsed = (omega arith, omega arith, λ e. omega (arith, e, marks.0))

b-IsUsed : IsUsed small disk 3
b-IsUsed = (omega arith, omega arith, λ e. omega (arith, e, marks.1))

abbrev b_place : Place
b_place = record { lba = 2; index = 0; de = entry_at b_entry 0 }

-- What the search makes of the only entry.
abbrev first_find : Bool → Option Place → Option Place
first_find hit rest =
    let scan : Scan = elim (if hit then found b_place else ended) [
      | found p ↦ found p
      | ended ↦ ended
      | onward ↦ onward
    ] in
    elim scan [ found p ↦ some p | ended ↦ none | onward ↦ rest ]

found-IsUsed :
    (hit : Bool) (rest : Option Place) (p : Place)
    → first_find hit rest ≡ some p
    → IsUsed small disk (first_cluster p.de)
unfolding first_cluster
found-IsUsed true rest p e = subst (OnSome (λ p. IsUsed small disk (first_cluster p.de))) e b-IsUsed
found-IsUsed false rest p e = subst (OnSome (λ p. IsUsed small disk (first_cluster p.de))) e tt

no_links : (c : ℕ) → c < 6 → in_chain (table_entry small disk c) ≡ false
unfolding table_entry word_at put_word entry
no_links zero h = refl
no_links (suc zero) h = refl
no_links (suc (suc zero)) h = refl
no_links (suc (suc (suc zero))) h = refl
no_links (suc (suc (suc (suc zero)))) h = refl
no_links (suc (suc (suc (suc (suc zero))))) h = refl
no_links (suc (suc (suc (suc (suc (suc c)))))) h = absurd (omega arith)

unlinked : (c : ℕ) → c < 6 → in_chain (table_entry small disk c) ≢ true
unlinked c h inside = ground (arith, no_links c h, inside)

disk-IsTidy : IsTidy small disk
unfolding find_ref cluster_to_lba wants_name is_file scan_entries same_name
disk-IsTidy = record {
  root = λ inside. root-IsUsed;
  files = λ name p e inside.
      found-IsUsed (same_name 11 (format_83 name) (entry_at b_entry 0))
        (chain_ref small disk (wants_name (format_83 name)) 4 (table_entry small disk 2)) p e;
  chains = λ c used inside. absurd (unlinked c used.1 inside);
}

fat32_load-load_ref_example :
    (fat32_load on small name_b 9 (restarted mounted)).0 ≡ load_ref small disk name_b 9
fat32_load-load_ref_example =
    fat32_load-load_ref small disk name_b 9 (restarted mounted)
      (restarted-Mirrors small small-IsSound mounted)

fat32_load-fat32_save_example :
    (fat32_load on small name_b 9 (restarted (fat32_save cut small name_a text 1 mounted).1)).0
    ≡ (fat32_load on small name_b 9 (restarted mounted)).0
fat32_load-fat32_save_example =
    fat32_load-fat32_save small small-IsSound cut name_a name_b text 1 9 mounted mounted-IsCoherent
      disk-IsTidy cut_fails

-- `Pong.elf`
abbrev pong_base : List ℕ
pong_base = 80 ∷ 111 ∷ 110 ∷ 103 ∷ []

abbrev pong_ext : List ℕ
pong_ext = 101 ∷ 108 ∷ 102 ∷ []
