-- ===== src/Fat32/Agreement.antt =====
-- Two disks that agree on the clusters in use hold the same files.
use arcade_os.Base.{
  ℕ, zero, suc, ◌+◌, ◌-◌, ◌%◌, ◌^◌, ◌≤◌, ◌<◌, ◌≡◌, ◌≢◌, inl, inr, ◌∙◌, refl, sym, ap, subst, true,
  false, not, ◌||◌, ◌==◌, if◌then◌else◌, arith, Bool-cases, Option, none, some, List, [], ◌++◌, min,
  length,
}
use arcade_os.Fat32.{Sector, sector_size, Layout, in_chain, cluster_to_lba}
use arcade_os.Fat32.Table.{table_entry}
use arcade_os.Fat32.Files.{
  Place, Scan, found, ended, onward, Search, scan_entries, slice, first_cluster, file_size,
}
use arcade_os.Fat32.Reference.{on, sectors_ref, chain_ref, run_ref, read_ref, find_ref, load_ref}

module _ (lay : Layout) (d : ℕ → Sector) where
  -- A cluster of the volume that is in use.
  abbrev pub IsUsed : ℕ → Type 0
  IsUsed c = (2 ≤ c) × (c < lay.total_clusters + 2) × (table_entry lay d c ≢ 0)

  -- The root directory and the files have clusters in use, and so do the chains from them on.
  pub record IsTidy : Type 0 where
    pub root : in_chain lay.root_cluster ≡ true → IsUsed lay.root_cluster
    pub files :
        (name : List ℕ) (p : Place)
        → find_ref lay d name ≡ some p
        → in_chain (first_cluster p.de) ≡ true
        → IsUsed (first_cluster p.de)
    pub chains :
        (c : ℕ) → IsUsed c → in_chain (table_entry lay d c) ≡ true → IsUsed (table_entry lay d c)

  module _ (d' : ℕ → Sector) where
    -- The other disk has the same entries and the same sectors for them.
    pub record Agrees : Type 0 where
      pub entries : (c : ℕ) → IsUsed c → table_entry lay d' c ≡ table_entry lay d c
      pub sectors :
          (c s : ℕ)
          → IsUsed c
          → s < lay.sectors_per_cluster
          → d' ((cluster_to_lba lay c + s) % 2 ^ 32) ≡ d ((cluster_to_lba lay c + s) % 2 ^ 32)

    module _ (same : Agrees) where
      sector_same :
          (c s lba : ℕ)
          → IsUsed c
          → s < lay.sectors_per_cluster
          → lba ≡ cluster_to_lba lay c + s
          → d' (lba % 2 ^ 32) ≡ d (lba % 2 ^ 32)
      sector_same c s lba used inside at =
          subst (λ l. d' (l % 2 ^ 32) ≡ d (l % 2 ^ 32)) (sym at) (same.sectors c s used inside)

      sectors_ref_same :
          (want : Search) (n c s lba : ℕ)
          → IsUsed c
          → s + n ≤ lay.sectors_per_cluster
          → lba ≡ cluster_to_lba lay c + s
          → sectors_ref lay d' want n lba ≡ sectors_ref lay d want n lba
      unfolding sectors_ref
      sectors_ref_same want zero c s lba used inside at = refl
      sectors_ref_same want (suc n) c s lba used inside at =
          ap (λ x. look x (sectors_ref lay d' want n (lba + 1)))
            (sector_same c s lba used (omega arith) at)
          ∙ ap (look (d (lba % 2 ^ 32)))
              (sectors_ref_same want n c (s + 1) (lba + 1) used (omega arith) (omega (arith, at)))
        where
          look : Sector → Scan → Scan
          look x rest = elim (scan_entries want (lba % 2 ^ 32) x 16 0) [
            | found p ↦ found p
            | ended ↦ ended
            | onward ↦ rest
          ]

      chain_ref_same :
          (tidy : IsTidy) (want : Search) (fuel c : ℕ)
          → (in_chain c ≡ true → IsUsed c)
          → chain_ref lay d' want fuel c ≡ chain_ref lay d want fuel c
      unfolding chain_ref
      chain_ref_same tidy want zero c used = refl
      chain_ref_same tidy want (suc fuel) c used = elim (Bool-cases (in_chain c)) [
        | inl inside ↦ rw inside (
            ap (λ r. pick r (chain_ref lay d' want fuel (table_entry lay d' c)))
              (sectors_ref_same want lay.sectors_per_cluster c 0 (cluster_to_lba lay c)
                (used inside) (omega arith) (omega arith))
            ∙ ap
                (λ e.
                  pick (sectors_ref lay d want lay.sectors_per_cluster (cluster_to_lba lay c))
                    (chain_ref lay d' want fuel e))
                (same.entries c (used inside))
            ∙ ap (pick (sectors_ref lay d want lay.sectors_per_cluster (cluster_to_lba lay c)))
                (chain_ref_same tidy want fuel (table_entry lay d c) (tidy.chains c (used inside))))
        | inr outside ↦ rw outside refl
      ]
        where
          pick : Scan → Option Place → Option Place
          pick r rest = elim r [ found p ↦ some p | ended ↦ none | onward ↦ rest ]

      run_ref_same :
          (n c s lba off want : ℕ)
          → IsUsed c
          → s + n ≤ lay.sectors_per_cluster
          → lba ≡ cluster_to_lba lay c + s
          → run_ref lay d' n lba off want ≡ run_ref lay d n lba off want
      unfolding run_ref
      run_ref_same zero c s lba off want used inside at = refl
      run_ref_same (suc n) c s lba off want used inside at =
          ap (λ x. look x (run_ref lay d' n (lba + 1) 0 (want - min want (sector_size - off))))
            (sector_same c s lba used (omega arith) at)
          ∙ ap (look (d (lba % 2 ^ 32))) (
              run_ref_same n c (s + 1) (lba + 1) 0 (want - min want (sector_size - off)) used
                (omega arith) (omega (arith, at)))
        where
          look : Sector → List ℕ → List ℕ
          look x rest =
              if want == 0 then [] else slice on lay x off (min want (sector_size - off)) ++ rest

      read_ref_same :
          (tidy : IsTidy) (fuel c want : ℕ)
          → (in_chain c ≡ true → IsUsed c)
          → read_ref lay d' fuel c 0 want ≡ read_ref lay d fuel c 0 want
      unfolding read_ref
      read_ref_same tidy zero c want used = refl
      read_ref_same tidy (suc fuel) c want used = elim (Bool-cases (in_chain c)) [
        | inl inside ↦ rw inside (
            ap (λ part. joined part (table_entry lay d' c))
              (run_ref_same (lay.sectors_per_cluster - 0) c 0 (cluster_to_lba lay c + 0) 0 want
                (used inside) (omega arith) refl)
            ∙ ap (joined here) (same.entries c (used inside))
            ∙ ap (λ rest. if want == 0 || false then [] else here ++ rest)
                (read_ref_same tidy fuel (table_entry lay d c) (want - length here)
                  (tidy.chains c (used inside))))
        | inr outside ↦ rw (stop outside) refl
      ]
        where
          stop : in_chain c ≡ false → (want == 0 || not (in_chain c)) ≡ true
          stop outside = ground (arith, outside)

          here : List ℕ
          here = run_ref lay d (lay.sectors_per_cluster - 0) (cluster_to_lba lay c + 0) 0 want

          joined : List ℕ → ℕ → List ℕ
          joined part e =
              if want == 0 || false
              then []
              else part ++ read_ref lay d' fuel e 0 (want - length part)

      find_ref_same : IsTidy → (name : List ℕ) → find_ref lay d' name ≡ find_ref lay d name
      unfolding find_ref
      find_ref_same tidy name =
          chain_ref_same tidy _ (lay.total_clusters + 1) lay.root_cluster tidy.root

      pub load_ref_same :
          IsTidy
          → (name : List ℕ) (maxlen : ℕ) → load_ref lay d' name maxlen ≡ load_ref lay d name maxlen
      unfolding load_ref
      load_ref_same tidy name maxlen =
          ap (read d') (find_ref_same tidy name) ∙ by_found (find_ref lay d name) (tidy.files name)
        where
          read : (ℕ → Sector) → Option Place → Option (List ℕ)
          read x p = elim p [
            | none ↦ none
            | some p ↦
                let size = min (file_size p.de) maxlen in
                some (read_ref lay x size (first_cluster p.de) 0 size)
          ]

          by_found :
              (r : Option Place)
              → ((p : Place)
                  → r ≡ some p
                  → in_chain (first_cluster p.de) ≡ true
                  → IsUsed (first_cluster p.de))
              → read d' r ≡ read d r
          by_found none used = refl
          by_found (some p) used = ap some (
              read_ref_same tidy (min (file_size p.de) maxlen) (first_cluster p.de)
                (min (file_size p.de) maxlen) (used p refl))
