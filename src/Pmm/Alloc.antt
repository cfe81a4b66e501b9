-- ===== src/Pmm/Alloc.antt =====
-- Allocating and freeing pages.
use arcade_os.Base.{
  ℕ, zero, suc, ◌+◌, ◌*◌, ◌/◌, ◌≤◌, ◌<◌, ◌≡◌, ◌≢◌, ◌⊎◌, refl, true, false, Option, none, some,
  arith, Bool-cases, inl, inr,
}
use arcade_os.Pmm.{Pmm, test_page, use_page, page_size, find_free, alloc_page, free_page}
use arcade_os.Pmm.Invariant.{IsValid, Uses, use_page-Uses, Releases, release_page-Releases}

-- What `find_free` looks for from `page` on: the first free page, or none among `n`.
abbrev FirstFree : Pmm → ℕ → ℕ → Option ℕ → Type 0
FirstFree m page n none = (q : ℕ) → page ≤ q → q < page + n → test_page m q ≡ true
FirstFree m page n (some p) =
    (page ≤ p)
    × (p < page + n)
    × (test_page m p ≡ false)
    × ((q : ℕ) → page ≤ q → q < p → test_page m q ≡ true)

FirstFree-next :
    (m : Pmm) (page n : ℕ) (o : Option ℕ)
    → test_page m page ≡ true
    → FirstFree m (page + 1) n o
    → FirstFree m page (suc n) o
FirstFree-next m page n none used h = λ q lo hi. ground (arith, h q)
FirstFree-next m page n (some p) used (lo, hi, new, before) =
    (omega arith, omega arith, new, λ q low high. ground (arith, before q))

find_free-FirstFree : (n page : ℕ) (m : Pmm) → FirstFree m page n (find_free n page m)
unfolding find_free
find_free-FirstFree zero page m = λ q lo hi. absurd (omega arith)
find_free-FirstFree (suc n) page m = elim (Bool-cases (test_page m page)) [
  | inl used ↦ rw used (FirstFree-next m page n _ used (find_free-FirstFree n (page + 1) m))
  | inr new ↦ rw new (omega arith, omega arith, new, λ q lo hi. absurd (omega arith))
]

-- What `pmm_alloc_page` does: it takes the lowest free page, or fails with every page in use.
abbrev pub Allocates : Pmm → ℕ × Pmm → Type 0
Allocates m (addr, m') =
    ((addr ≡ 0) × (m' ≡ m) × ((q : ℕ) → q < m.total_pages → test_page m q ≡ true))
    ⊎ ((p : ℕ) × (addr ≡ p * page_size)
        × (0 < p)
        × (p < m.total_pages)
        × (test_page m p ≡ false)
        × ((q : ℕ) → q < p → test_page m q ≡ true)
        × Uses m p m')

-- With page 0 in use, `pmm_alloc_page` takes the lowest free page and no other, and counts it; it
-- returns 0 exactly when every page is in use, and then changes nothing.
pub alloc_page-Allocates : (m : Pmm) → IsValid m → test_page m 0 ≡ true → Allocates m (alloc_page m)
unfolding alloc_page
alloc_page-Allocates m v reserved =
    by_search (find_free m.total_pages 0 m) (find_free-FirstFree m.total_pages 0 m)
  where
    by_search :
        (o : Option ℕ)
        → FirstFree m 0 m.total_pages o
        → Allocates m (elim o [ none ↦ (0, m) | some p ↦ (p * page_size, use_page m p) ])
    by_search none h = inl (refl, refl, λ q lt. h q (omega arith) (omega arith))
    by_search (some zero) (lo, hi, new, before) = absurd (cc)
    by_search (some (suc p)) (lo, hi, new, before) = inr (
      suc p,
      refl,
      omega arith,
      omega arith,
      new,
      λ q lt. before q (omega arith) lt,
      use_page-Uses m (suc p) v (omega arith) new,
    )

-- `pmm_free_page` of an address in a used page other than page 0 frees that page and no other.
pub free_page-Releases :
    (m : Pmm) (addr : ℕ)
    → IsValid m
    → 0 < addr / page_size
    → addr / page_size < m.total_pages
    → test_page m (addr / page_size) ≡ true
    → Releases m (addr / page_size) (free_page addr m)
unfolding free_page
free_page-Releases m addr v pos fits old =
    ground (arith, release_page-Releases m (addr / page_size) v fits old)

-- Anywhere else it changes nothing: page 0, an address outside memory, and a page that is free.
pub free_page-ignores :
    (m : Pmm) (addr : ℕ)
    → (addr / page_size ≡ 0)
      ⊎ (m.total_pages ≤ addr / page_size)
      ⊎ (test_page m (addr / page_size) ≡ false)
    → free_page addr m ≡ m
unfolding free_page
free_page-ignores m addr h = ground arith

-- A page that `pmm_alloc_page` hands out and `pmm_free_page` takes back leaves every page, and
-- the count, as they were.
pub free_page-alloc_page :
    (m : Pmm)
    → IsValid m
    → test_page m 0 ≡ true
    → let (addr, m') = alloc_page m in
      let m'' = free_page addr m' in
      addr ≢ 0
      → IsValid m'' × ((q : ℕ) → test_page m'' q ≡ test_page m q) × (m''.used_pages ≡ m.used_pages)
free_page-alloc_page m v reserved ne = elim (alloc_page-Allocates m v reserved) [
  | inl (failed, _, _) ↦ absurd (ne failed)
  | inr (p, at, pos, fits, new, before, (v', tests, counts, same)) ↦
      let here : (alloc_page m).0 / page_size ≡ p = omega arith in
      let (v2, t2, c2, s2) =
        free_page-Releases (alloc_page m).1 (alloc_page m).0 v' (omega arith) (omega arith)
          (rw (here, tests p) (ground arith)) in
      (v2, λ q. ground (arith, t2 q, tests q, here), omega arith)
]
