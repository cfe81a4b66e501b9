-- ===== src/Pmm/Regions.antt =====
-- Marking whole regions used or free.
use arcade_os.Base.{
  ℕ, zero, suc, ◌+◌, ◌*◌, ◌/◌, ◌%◌, ◌<◌, ◌≡◌, ◌∙◌, refl, Bool, not, ◌&&◌, ◌||◌, ltb, leb, ◌==◌,
  if◌then◌else◌, arith, Bool-cases, inl, inr,
}
use arcade_os.Pmm.{
  Pmm, test_page, use_page, release_page, mark_used_from, mark_free_from, page_size,
  mark_region_used, mark_region_free,
}
use arcade_os.Pmm.Invariant.{IsValid, use_page-Uses, release_page-Releases}

-- `q` is one of the `n` pages from `page` on, and below `total`.
abbrev pub in_range : ℕ → ℕ → ℕ → ℕ → Bool
in_range total page n q = leb page q && ltb q (page + n) && ltb q total

abbrev pub MarksUsed : Pmm → ℕ → ℕ → Pmm → Type 0
MarksUsed m page n m' =
    IsValid m'
    × ((q : ℕ) → test_page m' q ≡ (in_range m.total_pages page n q || test_page m q))
    × (m'.total_pages ≡ m.total_pages)

mark_used_step :
    (n page : ℕ) (m : Pmm)
    → IsValid m
    → page < m.total_pages
    → let m' = if test_page m page then m else use_page m page in
      IsValid m'
      × ((q : ℕ) → test_page m' q ≡ (page == q || test_page m q))
      × (m'.total_pages ≡ m.total_pages)
mark_used_step n page m v fits = elim (Bool-cases (test_page m page)) [
  | inl old ↦ rw old (v, λ q. ground (arith, old), refl)
  | inr new ↦
      let (v', tests, counts, same) = use_page-Uses m page v fits new in rw new (v', tests, same)
]

mark_used_from-MarksUsed :
    (n page : ℕ) (m : Pmm) → IsValid m → MarksUsed m page n (mark_used_from n page m)
unfolding mark_used_from
mark_used_from-MarksUsed zero page m v = (v, λ q. ground arith, refl)
mark_used_from-MarksUsed (suc n) page m v = elim (Bool-cases (ltb page m.total_pages)) [
  | inl fits ↦
      let (v1, t1, s1) = mark_used_step n page m v (ground arith) in
      let (v2, t2, s2) =
        mark_used_from-MarksUsed n (page + 1) (if test_page m page then m else use_page m page)
          v1 in
      rw fits (v2, λ q. ground (arith, t1 q, t2 q, s1), s2 ∙ s1)
  | inr past ↦ rw past (v, λ q. ground arith, refl)
]

abbrev pub MarksFree : Pmm → ℕ → ℕ → Pmm → Type 0
MarksFree m page n m' =
    IsValid m'
    × ((q : ℕ) → test_page m' q ≡ (not (in_range m.total_pages page n q) && test_page m q))
    × (m'.total_pages ≡ m.total_pages)

mark_free_step :
    (page : ℕ) (m : Pmm)
    → IsValid m
    → page < m.total_pages
    → let m' = if test_page m page then release_page m page else m in
      IsValid m'
      × ((q : ℕ) → test_page m' q ≡ (not (page == q) && test_page m q))
      × (m'.total_pages ≡ m.total_pages)
mark_free_step page m v fits = elim (Bool-cases (test_page m page)) [
  | inl old ↦
      let (v', tests, counts, same) = release_page-Releases m page v fits old in
      rw old (v', tests, same)
  | inr new ↦ rw new (v, λ q. ground (arith, new), refl)
]

mark_free_from-MarksFree :
    (n page : ℕ) (m : Pmm) → IsValid m → MarksFree m page n (mark_free_from n page m)
unfolding mark_free_from
mark_free_from-MarksFree zero page m v = (v, λ q. ground arith, refl)
mark_free_from-MarksFree (suc n) page m v = elim (Bool-cases (ltb page m.total_pages)) [
  | inl fits ↦
      let (v1, t1, s1) = mark_free_step page m v (ground arith) in
      let (v2, t2, s2) =
        mark_free_from-MarksFree n (page + 1) (if test_page m page then release_page m page else m)
          v1 in
      rw fits (v2, λ q. ground (arith, t1 q, t2 q, s1), s2 ∙ s1)
  | inr past ↦ rw past (v, λ q. ground arith, refl)
]

-- `pmm_mark_region_used` from a page boundary marks used exactly the existing pages that the bytes
-- of the region touch, and keeps the invariant and the number of pages.
pub mark_region_used_lem :
    (base length : ℕ) (m : Pmm)
    → IsValid m
    → base % page_size ≡ 0
    → let m' = mark_region_used base length m in
      IsValid m'
      × ((q : ℕ)
          → test_page m' q ≡ (
              (leb base (q * page_size)
                && ltb (q * page_size) (base + length)
                && ltb q m.total_pages)
              || test_page m q))
      × (m'.total_pages ≡ m.total_pages)
unfolding mark_region_used
mark_region_used_lem base length m v aligned =
    let pages = if length % page_size == 0 then length / page_size else length / page_size + 1 in
    let (v', tests, same) = mark_used_from-MarksUsed pages (base / page_size) m v in
    (v', λ q. ground (arith, tests q), same)

-- `pmm_mark_region_free` from a page boundary frees exactly the existing pages that lie wholly in
-- the region, and keeps the invariant.
pub mark_region_free_lem :
    (base length : ℕ) (m : Pmm)
    → IsValid m
    → base % page_size ≡ 0
    → let m' = mark_region_free base length m in
      IsValid m'
      × ((q : ℕ)
          → test_page m' q ≡ (
              not (
                leb base (q * page_size)
                && leb (q * page_size + page_size) (base + length)
                && ltb q m.total_pages)
              && test_page m q))
unfolding mark_region_free
mark_region_free_lem base length m v aligned =
    let (v', tests, same) = mark_free_from-MarksFree (length / page_size) (base / page_size) m v in
    (v', λ q. ground (arith, tests q))

pub mark_region_free-IsValid :
    (base length : ℕ) (m : Pmm)
    → IsValid m
    → IsValid (mark_region_free base length m)
      × ((mark_region_free base length m).total_pages ≡ m.total_pages)
unfolding mark_region_free
mark_region_free-IsValid base length m v =
    let (v', tests, same) = mark_free_from-MarksFree (length / page_size) (base / page_size) m v in
    (v', same)
