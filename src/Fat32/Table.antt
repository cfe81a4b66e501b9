-- ===== src/Fat32/Table.antt =====
-- What the operations on the table keep: the entries of the clusters that are in use on a disk, and
-- the sectors that belong to no free cluster of it.
use arcade_os.Base.{
  ℕ, zero, suc, ◌+◌, ◌-◌, ◌*◌, ◌%◌, ◌^◌, ◌≤◌, ◌<◌, ◌≡◌, ◌≢◌, ◌⊎◌, inl, inr, ◌∙◌, refl, sym, subst,
  Bool, true, false, ◌&&◌, ◌==◌, if◌then◌else◌, arith, Bool-cases, ℕ_discrete,
}
use native.Mathlib.Nat.{mul-le-mul_right, suc-mul}
use arcade_os.Fat32.{
  Sector, Layout, Volume, word_at, put_word, new_entry, end_of_chain, last_mark, low_28, in_chain,
  fat_sector, fat_offset, cluster_to_lba, read_sector, write_sector, load_fat, fat_next_cluster,
  write_copies, fat_set, alloc_from, fat_alloc_cluster, free_chain,
}
use arcade_os.Fat32.Layouts.{IsSound}
use arcade_os.Fat32.Words.{entry, entry-put_own, entry-put_other, entries_apart}

-- What the first copy of the table says of a cluster.
unfoldable pub table_entry : Layout → (ℕ → Sector) → ℕ → ℕ
table_entry lay d c = entry (d (lay.fat_start_lba + fat_sector c)) (fat_offset c)

module _ (lay : Layout) (d₀ : ℕ → Sector) where
  -- A cluster of the volume that was free.
  abbrev pub WasFree : ℕ → Type 0
  WasFree c = (2 ≤ c) × (c < lay.total_clusters + 2) × (table_entry lay d₀ c ≡ 0)

  -- Nothing, the end of a chain, or a cluster that was free.
  abbrev pub Loose : ℕ → Type 0
  Loose n = (n ≡ 0) ⊎ ((end_of_chain ≤ n) ⊎ WasFree n)

  -- What the entry of a cluster may say: of a cluster in use, what it said.
  abbrev pub Fits : ℕ → ℕ → Type 0
  Fits c n =
      (table_entry lay d₀ c ≢ 0 → n ≡ table_entry lay d₀ c) × (table_entry lay d₀ c ≡ 0 → Loose n)

  -- The sector belongs to no cluster that was free.
  abbrev pub IsKept : ℕ → Type 0
  IsKept lba = (c s : ℕ) → WasFree c → s < lay.sectors_per_cluster → lba ≢ cluster_to_lba lay c + s

  pub record Keeps (v : Volume) : Type 0 where
    pub table : (c : ℕ) → 2 ≤ c → c < lay.total_clusters + 2 → Fits c (table_entry lay v.disk c)
    pub cache :
        (c : ℕ)
        → 2 ≤ c
        → c < lay.total_clusters + 2
        → lay.fat_start_lba + fat_sector c ≡ v.fat_cache_lba
        → Fits c (entry v.fat_cache (fat_offset c))
    pub files : (lba : ℕ) → lay.data_start_lba ≤ lba → IsKept lba → v.disk lba ≡ d₀ lba

  -- A sector that has perhaps been written.
  Fits-if :
      (c o : ℕ) (b : Bool) (s s' : Sector)
      → (b ≡ true → Fits c (entry s o))
      → Fits c (entry s' o)
      → Fits c (entry (if b then s else s') o)
  Fits-if c o true s s' new old = new refl
  Fits-if c o false s s' new old = old

  module _ (works : ℕ → Bool) where
    pub read_sector-Keeps : (lba : ℕ) (v : Volume) → Keeps v → Keeps (read_sector works lba v).1
    unfolding read_sector
    read_sector-Keeps lba v k = record { table = k.table; cache = k.cache; files = k.files }

    -- A write to a sector of the table that says what it may, or to a free cluster.
    pub write_sector-Keeps :
        (lba : ℕ) (s : Sector) (v : Volume)
        → Keeps v
        → ((c : ℕ)
            → 2 ≤ c
            → c < lay.total_clusters + 2
            → lay.fat_start_lba + fat_sector c ≡ lba
            → Fits c (entry s (fat_offset c)))
        → (lay.data_start_lba ≤ lba → ¬ IsKept lba)
        → Keeps (write_sector works lba s v).1
    unfolding write_sector table_entry
    write_sector-Keeps lba s v k fits unkept = record {
      table = λ c low high.
          Fits-if c (fat_offset c) (lay.fat_start_lba + fat_sector c == lba && works v.clock) s
            (v.disk (lay.fat_start_lba + fat_sector c)) (λ e. fits c low high (ground (arith, e)))
            (k.table c low high);
      cache = k.cache;
      files = λ l behind kept. elim (ℕ_discrete l lba) [
        | yes same ↦ absurd (unkept (omega (arith, same)) (subst IsKept same kept))
        | no other ↦ ground (arith, other, k.files l behind kept)
      ];
    }

    -- The cache is as before, or it has been loaded from the disk.
    load_fat-Keeps :
        (lba : ℕ) (v : Volume)
        → Keeps v
        → Keeps (load_fat works lba v).1
          × ((load_fat works lba v).0 ≡ true → (load_fat works lba v).1.fat_cache_lba ≡ lba)
    unfolding load_fat table_entry
    load_fat-Keeps lba v k = elim (Bool-cases (lba == v.fat_cache_lba)) [
      | inl hit ↦ rw hit (k, λ e. ground (arith, hit))
      | inr miss ↦ elim (Bool-cases (works v.clock)) [
        | inl good ↦
            rw (miss, good)
              (
                record {
                  table = k.table;
                  cache = λ c low high same.
                      subst (λ l. Fits c (entry (v.disk l) (fat_offset c))) same
                        (k.table c low high);
                  files = k.files;
                },
                λ e. refl,
              )
        | inr bad ↦
            rw (miss, bad) (record { table = k.table; cache = k.cache; files = k.files }, λ e. cc)
      ]
    ]

    pub fat_next_cluster-Keeps :
        (c : ℕ) (v : Volume) → Keeps v → Keeps (fat_next_cluster works lay c v).1
    unfolding fat_next_cluster
    fat_next_cluster-Keeps c v k = (load_fat-Keeps (lay.fat_start_lba + fat_sector c) v k).0

    -- What comes next after a cluster of the volume: what its entry may say, or, after a failure of
    -- the drive, the end.
    fat_next_cluster-Fits :
        (c : ℕ) (v : Volume)
        → Keeps v
        → 2 ≤ c
        → c < lay.total_clusters + 2
        → (end_of_chain ≤ (fat_next_cluster works lay c v).0)
          ⊎ Fits c (fat_next_cluster works lay c v).0
    unfolding fat_next_cluster entry
    fat_next_cluster-Fits c v k low high =
        let (k', at) = load_fat-Keeps (lay.fat_start_lba + fat_sector c) v k in
        by_load (load_fat works (lay.fat_start_lba + fat_sector c) v) k' at
      where
        by_load :
            (r : Bool × Volume)
            → Keeps r.1
            → (r.0 ≡ true → r.1.fat_cache_lba ≡ lay.fat_start_lba + fat_sector c)
            → (end_of_chain
                ≤ (if r.0 then word_at r.1.fat_cache (fat_offset c) % low_28 else end_of_chain))
              ⊎ Fits c (if r.0 then word_at r.1.fat_cache (fat_offset c) % low_28 else end_of_chain)
        by_load (true, v') k' at = inr (k'.cache c low high (sym (at refl)))
        by_load (false, v') k' at = inl (omega arith)

  pub Keeps-if :
      (b : Bool) (r r' : Bool × Volume) → Keeps r.1 → Keeps r'.1 → Keeps (if b then r else r').1
  Keeps-if true r r' k k' = k
  Keeps-if false r r' k k' = k'

  -- The copies of the table lie one behind the other.
  copy_below : (f n size idx : ℕ) → f < n → idx < size → f * size + idx < n * size
  copy_below f n size idx h inside =
      omega (arith, mul-le-mul_right {m = suc f} {n = n} size h, suc-mul f size)

  copy_past : (f size idx x : ℕ) → x < size → x ≢ suc f * size + idx
  copy_past f size idx x inside = λ e. omega (arith, e, suc-mul f size)

  module _ (works : ℕ → Bool) (sound : IsSound lay) where
    pub sector_inside : (c : ℕ) → c < lay.total_clusters + 2 → fat_sector c < lay.fat_size_sectors
    sector_inside c high = omega (arith, sound.table_fits)

    write_copies-Keeps :
        (n f idx : ℕ) (v : Volume)
        → Keeps v
        → v.fat_cache_lba ≡ lay.fat_start_lba + idx
        → idx < lay.fat_size_sectors
        → f + n ≡ lay.num_fats
        → Keeps (write_copies works lay n f idx v).1
    unfolding write_copies
    write_copies-Keeps zero f idx v k at inside copies = k
    write_copies-Keeps (suc n) f idx v k at inside copies =
        Keeps-if works_now (write_copies works lay n (f + 1) idx written) (false, written)
          (write_copies-Keeps n (f + 1) idx written kept at inside (omega arith)) kept
      where
        lba : ℕ
        lba = (lay.fat_start_lba + f * lay.fat_size_sectors + idx) % 2 ^ 32

        before : lay.fat_start_lba + f * lay.fat_size_sectors + idx < lay.data_start_lba
        before = omega (
          arith,
          sound.data_behind,
          copy_below f lay.num_fats lay.fat_size_sectors idx (omega arith) inside,
        )

        exact : lba ≡ lay.fat_start_lba + f * lay.fat_size_sectors + idx
        exact = omega (arith, before, sound.in_words)

        works_now : Bool
        works_now = works v.clock

        written : Volume
        written = (write_sector works lba v.fat_cache v).1

        fits :
            (f c : ℕ)
            → 2 ≤ c
            → c < lay.total_clusters + 2
            → lay.fat_start_lba + fat_sector c ≡ lay.fat_start_lba + f * lay.fat_size_sectors + idx
            → Fits c (entry v.fat_cache (fat_offset c))
        fits zero c low high e = k.cache c low high (omega (arith, e, at))
        fits (suc f) c low high e = absurd (
            copy_past f lay.fat_size_sectors idx (fat_sector c) (sector_inside c high)
              (omega (arith, e)))

        kept : Keeps written
        kept =
            write_sector-Keeps works lba v.fat_cache v k
              (λ c low high e. fits f c low high (e ∙ exact))
              (λ behind. absurd (omega (arith, behind, exact, before)))

    -- A cluster that was free is given an entry that it may have.
    pub fat_set-Keeps :
        (c value : ℕ) (v : Volume)
        → WasFree c
        → Loose (value % low_28)
        → Keeps v
        → Keeps (fat_set works lay c value v).1
    unfolding fat_set
    fat_set-Keeps c value v free loose k =
        let (k', at) = load_fat-Keeps works (lay.fat_start_lba + fat_sector c) v k in
        by_load (load_fat works (lay.fat_start_lba + fat_sector c) v) k' at
      where
        changed : Volume → Volume
        changed v' = record v' {
          fat_cache =
              put_word v'.fat_cache (fat_offset c)
                (new_entry (word_at v'.fat_cache (fat_offset c)) value);
        }

        in_cache :
            (v' : Volume)
            → Keeps v'
            → v'.fat_cache_lba ≡ lay.fat_start_lba + fat_sector c
            → Keeps (changed v')
        in_cache v' k' at = record {
          table = k'.table;
          cache = λ e low high same. elim (ℕ_discrete e c) [
            | yes own ↦
                subst (λ x. Fits x (entry (changed v').fat_cache (fat_offset x))) (sym own)
                  (subst (Fits c)
                    (sym (
                      entry-put_own v'.fat_cache (fat_offset c)
                        (word_at v'.fat_cache (fat_offset c)) value))
                    ((λ used. absurd (used free.2)), λ gone. loose))
            | no other ↦
                subst (Fits e)
                  (sym (
                    entry-put_other v'.fat_cache (fat_offset c) (fat_offset e) _ (
                      entries_apart c e (omega (arith, same, at))
                        (λ same_one. other (sym same_one)))))
                  (k'.cache e low high same)
          ];
          files = k'.files;
        }

        by_load :
            (r : Bool × Volume)
            → Keeps r.1
            → (r.0 ≡ true → r.1.fat_cache_lba ≡ lay.fat_start_lba + fat_sector c)
            → Keeps
                (if r.0
                  then write_copies works lay lay.num_fats 0 (fat_sector c) (changed r.1)
                  else (false, r.1)).1
        by_load (true, v') k' at =
            write_copies-Keeps lay.num_fats 0 (fat_sector c) (changed v') (in_cache v' k' (at refl))
              (at refl) (sector_inside c free.1) (omega arith)
        by_load (false, v') k' at = k'

    -- An empty entry is that of a cluster that was free.
    was_free : (c n : ℕ) → (end_of_chain ≤ n) ⊎ Fits c n → n ≡ 0 → table_entry lay d₀ c ≡ 0
    was_free c n (inl failed) e = absurd (omega (arith, e))
    was_free c n (inr fits) e = elim (ℕ_discrete (table_entry lay d₀ c) 0) [
      | yes gone ↦ gone
      | no used ↦ sym (fits.0 used) ∙ e
    ]

    given :
        (c : ℕ) → WasFree c → (b : Bool) → ((if b then c else 0) ≡ 0) ⊎ WasFree (if b then c else 0)
    given c free true = inr free
    given c free false = inl refl

    alloc_from-Keeps :
        (n c : ℕ) (v : Volume)
        → 2 ≤ c
        → c + n ≡ lay.total_clusters + 2
        → Keeps v
        → Keeps (alloc_from works lay n c v).1
          × (((alloc_from works lay n c v).0 ≡ 0) ⊎ WasFree (alloc_from works lay n c v).0)
    unfolding alloc_from
    alloc_from-Keeps zero c v low end k = (k, inl refl)
    alloc_from-Keeps (suc n) c v low end k =
        let k' = fat_next_cluster-Keeps works c v k in
        elim (Bool-cases ((fat_next_cluster works lay c v).0 == 0)) [
          | inl hit ↦
              let free : WasFree c = (
                low,
                omega arith,
                was_free c _ (fat_next_cluster-Fits works c v k low (omega arith))
                    (ground (arith, hit)),
              ) in
              rw hit (
                fat_set-Keeps c last_mark (fat_next_cluster works lay c v).1 free
                    (inr (inl (omega arith))) k',
                given c free (fat_set works lay c last_mark (fat_next_cluster works lay c v).1).0,
              )
          | inr miss ↦ rw miss (
              alloc_from-Keeps n (c + 1) (fat_next_cluster works lay c v).1 (omega arith)
                (omega arith) k')
        ]

    -- A cluster that is given out was free.
    pub fat_alloc_cluster-Keeps :
        (v : Volume)
        → Keeps v
        → Keeps (fat_alloc_cluster works lay v).1
          × (((fat_alloc_cluster works lay v).0 ≡ 0) ⊎ WasFree (fat_alloc_cluster works lay v).0)
    unfolding fat_alloc_cluster
    fat_alloc_cluster-Keeps v k =
        alloc_from-Keeps ((lay.total_clusters + 2) % 2 ^ 32 - 2) 2 v (omega arith)
          (omega (arith, sound.marks_free)) k

    Loose-next : (c n : ℕ) → WasFree c → (end_of_chain ≤ n) ⊎ Fits c n → Loose n
    Loose-next c n free (inl failed) = inr (inl failed)
    Loose-next c n free (inr fits) = fits.1 free.2

    Loose-cluster : (c : ℕ) → Loose c → in_chain c ≡ true → WasFree c
    Loose-cluster c (inl nothing) inside = absurd (ground (arith, nothing, inside))
    Loose-cluster c (inr (inl last)) inside = absurd (ground (arith, last, inside))
    Loose-cluster c (inr (inr free)) inside = free

    -- Freeing a chain from a cluster that was free on touches only clusters that were.
    pub free_chain-Keeps :
        (fuel c : ℕ) (v : Volume) → Loose c → Keeps v → Keeps (free_chain works lay fuel c v)
    unfolding free_chain
    free_chain-Keeps zero c v loose k = k
    free_chain-Keeps (suc fuel) c v loose k = elim (Bool-cases (in_chain c)) [
      | inl inside ↦
          let free = Loose-cluster c loose inside in
          let n = fat_next_cluster works lay c v in
          rw inside (
            free_chain-Keeps fuel n.0 (fat_set works lay c 0 n.1).1
              (Loose-next c n.0 free (fat_next_cluster-Fits works c v k free.0 free.1))
              (fat_set-Keeps c 0 n.1 free (inl refl) (fat_next_cluster-Keeps works c v k)))
      | inr outside ↦ rw outside k
    ]
