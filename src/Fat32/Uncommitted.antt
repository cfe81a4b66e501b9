-- ===== src/Fat32/Uncommitted.antt =====
-- A save before its commit: it writes to clusters that were free, and nowhere else.
use native.Mathlib.Nat.{mul-le-mul_right, suc-mul}
use arcade_os.Base.{
  ℕ, zero, suc, ◌+◌, ◌-◌, ◌*◌, ◌%◌, ◌^◌, ◌≤◌, ◌<◌, ◌≡◌, ◌≢◌, ◌⊎◌, inl, inr, refl, subst, Bool, true,
  false, ◌==◌, if◌then◌else◌, arith, Bool-cases, Option, OnSome,
}
use arcade_os.Fat32.{
  Sector, sector_size, Layout, Volume, low_28, fat_sector, cluster_to_lba, write_sector, fat_set,
  fat_alloc_cluster,
}
use arcade_os.Fat32.Layouts.{IsSound}
use arcade_os.Fat32.Table.{
  WasFree, Loose, Keeps, Keeps-if, write_sector-Keeps, fat_set-Keeps, sector_inside,
  fat_alloc_cluster-Keeps, free_chain-Keeps,
}
use arcade_os.Fat32.Files.{bytes_per_cluster, file_sector, write_run, give_up, write_clusters}

module _ (lay : Layout) (d₀ : ℕ → Sector) (works : ℕ → Bool) (sound : IsSound lay) where
  -- The clusters lie behind the table.
  table_first :
      (c lba : ℕ)
      → c < lay.total_clusters + 2
      → lay.data_start_lba ≤ lba
      → lay.fat_start_lba + fat_sector c ≢ lba
  table_first c lba high behind = λ e. omega (
    arith,
    e,
    sector_inside lay d₀ works sound c high,
    sound.data_behind,
    mul-le-mul_right {m = 1} {n = lay.num_fats} lay.fat_size_sectors sound.some_copy,
  )

  -- The sectors of a cluster of the volume have 32-bit numbers, behind the table.
  sector_of_cluster :
      (c s : ℕ)
      → WasFree lay d₀ c
      → s < lay.sectors_per_cluster
      → ((cluster_to_lba lay c + s) % 2 ^ 32 ≡ cluster_to_lba lay c + s)
        × (lay.data_start_lba ≤ (cluster_to_lba lay c + s) % 2 ^ 32)
  unfolding cluster_to_lba
  sector_of_cluster c s free inside =
      let below =
        mul-le-mul_right {m = suc (c - 2)} {n = lay.total_clusters} lay.sectors_per_cluster
          (omega (arith, free)) in
      let split = suc-mul (c - 2) lay.sectors_per_cluster in
      (omega (arith, below, split, sound.in_words), omega (arith, below, split, sound.in_words))

  write_run-Keeps :
      (n c s : ℕ) (bytes : ℕ → ℕ) (len off : ℕ) (v : Volume)
      → WasFree lay d₀ c
      → s + n ≡ lay.sectors_per_cluster
      → Keeps lay d₀ v
      → Keeps lay d₀ (write_run works lay n (cluster_to_lba lay c + s) bytes len off v).1
  unfolding write_run
  write_run-Keeps zero c s bytes len off v free rounds k = k
  write_run-Keeps (suc n) c s bytes len off v free rounds k =
      Keeps-if lay d₀ (works v.clock)
        (write_run works lay n (cluster_to_lba lay c + s + 1) bytes len (off + sector_size) written)
        (false, written)
        (subst (λ l. Keeps lay d₀ (write_run works lay n l bytes len (off + sector_size) written).1)
          (omega arith)
          (write_run-Keeps n c (s + 1) bytes len (off + sector_size) written free (omega arith)
            kept))
        kept
    where
      lba : ℕ
      lba = (cluster_to_lba lay c + s) % 2 ^ 32

      lba_lem : (lba ≡ cluster_to_lba lay c + s) × (lay.data_start_lba ≤ lba)
      lba_lem = sector_of_cluster c s free (omega arith)

      written : Volume
      written = (write_sector works lba (file_sector works lay bytes len off) v).1

      kept : Keeps lay d₀ written
      kept =
          write_sector-Keeps lay d₀ works lba (file_sector works lay bytes len off) v k
            (λ e low high same. absurd (table_first e lba high lba_lem.1 same))
            (λ behind all_kept. all_kept c s free (omega arith) lba_lem.0)

  pub give_up-Keeps :
      (first : ℕ) (v : Volume)
      → Loose lay d₀ first
      → Keeps lay d₀ v
      → Keeps lay d₀ (give_up works lay first v).1
  unfolding give_up
  give_up-Keeps first v loose k = elim (Bool-cases (first == 0)) [
    | inl nothing ↦ rw nothing k
    | inr some_chain ↦
        rw some_chain (free_chain-Keeps lay d₀ works sound (lay.total_clusters + 1) first v loose k)
  ]

  -- A new chain so far: none yet, or from a cluster that was free.
  abbrev pub Begun : ℕ → Type 0
  Begun first = (first ≡ 0) ⊎ WasFree lay d₀ first

  pub Begun-Loose : (first : ℕ) → Begun first → Loose lay d₀ first
  Begun-Loose first (inl nothing) = inl nothing
  Begun-Loose first (inr free) = inr (inr free)

  -- The link from the cluster before to the new one.
  link-Keeps :
      (prev c : ℕ) (v : Volume)
      → Begun prev
      → WasFree lay d₀ c
      → Keeps lay d₀ v
      → Keeps lay d₀ (if prev == 0 then v else (fat_set works lay prev c v).1)
  link-Keeps prev c v before free k = elim (Bool-cases (prev == 0)) [
    | inl nothing ↦ rw nothing k
    | inr some_prev ↦ rw some_prev (
        fat_set-Keeps lay d₀ works sound prev c v (was_before before some_prev)
          (subst (Loose lay d₀) (fits_28 c (omega (arith, free.1, sound.marks_free)))
            (inr (inr free)))
          k)
  ]
    where
      was_before : Begun prev → (prev == 0) ≡ false → WasFree lay d₀ prev
      was_before (inl nothing) e = absurd (ground (arith, nothing, e))
      was_before (inr was) e = was

      fits_28 : (c : ℕ) → c < low_28 → c ≡ c % low_28
      fits_28 c h = omega arith

  Begun-first :
      (prev c first : ℕ) → WasFree lay d₀ c → Begun first → Begun (if prev == 0 then c else first)
  Begun-first prev c first free begun = choose (prev == 0)
    where
      choose : (b : Bool) → Begun (if b then c else first)
      choose true = inr free
      choose false = begun

  -- What one round of the loop, or all that are left, must keep.
  abbrev pub Safe : Option ℕ × Volume → Type 0
  Safe r = Keeps lay d₀ r.1 × OnSome Begun r.0

  given_up :
      (first : ℕ) (v : Volume) → Begun first → Keeps lay d₀ v → Safe (give_up works lay first v)
  unfolding give_up
  given_up first v begun k = (give_up-Keeps first v (Begun-Loose first begun) k, tt)

  Safe-if : (b : Bool) (r r' : Option ℕ × Volume) → Safe r → Safe r' → Safe (if b then r else r')
  Safe-if true r r' safe safe' = safe
  Safe-if false r r' safe safe' = safe'

  pub write_clusters-Keeps :
      (n i prev first : ℕ) (bytes : ℕ → ℕ) (len : ℕ) (v : Volume)
      → Begun prev
      → Begun first
      → Keeps lay d₀ v
      → Safe (write_clusters works lay n i prev first bytes len v)
  unfolding write_clusters
  write_clusters-Keeps zero i prev first bytes len v before begun k = (k, begun)
  write_clusters-Keeps (suc n) i prev first bytes len v before begun k =
      let (k₁, given) = fat_alloc_cluster-Keeps lay d₀ works sound v k in
      by_alloc (λ c first' v'. write_clusters-Keeps n (i + 1) c first' bytes len v')
        (fat_alloc_cluster works lay v) k₁ given
    where
      linked : ℕ → Volume → Volume
      linked c v₁ = if prev == 0 then v₁ else (fat_set works lay prev c v₁).1

      ran : ℕ → Volume → Bool × Volume
      ran c v₁ =
          write_run works lay lay.sectors_per_cluster (cluster_to_lba lay c) bytes len
            (i * bytes_per_cluster works lay) (linked c v₁)

      first_of : ℕ → ℕ
      first_of c = if prev == 0 then c else first

      step : ℕ × Volume → Option ℕ × Volume
      step (c, v₁) =
          if c == 0
          then give_up works lay first v₁
          else if (ran c v₁).0
          then write_clusters works lay n (i + 1) c (first_of c) bytes len (ran c v₁).1
          else give_up works lay (first_of c) (ran c v₁).1

      full : (c : ℕ) (v₁ : Volume) → c ≡ 0 → give_up works lay first v₁ ≡ step (c, v₁)
      full c v₁ nothing = rw nothing refl

      by_alloc :
          ((c first' : ℕ) (v' : Volume)
            → Begun c
            → Begun first'
            → Keeps lay d₀ v'
            → Safe (write_clusters works lay n (i + 1) c first' bytes len v'))
          → (r : ℕ × Volume) → Keeps lay d₀ r.1
          → Begun r.0
          → Safe (step r)
      by_alloc again (c, v₁) k₁ (inl nothing) =
          subst Safe (full c v₁ nothing) (given_up first v₁ begun k₁)
      by_alloc again (c, v₁) k₁ (inr free) =
          let first' = Begun-first prev c first free begun in
          let k₂ = link-Keeps prev c v₁ before free k₁ in
          let k₃ =
            subst
              (λ l.
                Keeps lay d₀
                  (write_run works lay lay.sectors_per_cluster l bytes len
                    (i * bytes_per_cluster works lay) (linked c v₁)).1)
              (omega arith)
              (write_run-Keeps lay.sectors_per_cluster c 0 bytes len
                (i * bytes_per_cluster works lay) (linked c v₁) free (omega arith) k₂) in
          Safe-if (c == 0) _ _ (given_up first v₁ begun k₁) (
            Safe-if (ran c v₁).0 _ _ (again c (first_of c) (ran c v₁).1 (inr free) first' k₃)
              (given_up (first_of c) (ran c v₁).1 first' k₃))
