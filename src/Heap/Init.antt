-- ===== src/Heap/Init.antt =====
-- `heap_init`: the heap's memory comes from the page allocator.
use arcade_os.Base.{
  ℕ, zero, suc, ◌+◌, ◌-◌, ◌*◌, ◌/◌, ◌%◌, ◌≤◌, ◌<◌, ◌≡◌, subst, refl, true, false, Option, none,
  some, [], ◌∷◌, ◌⊎◌, ltb, leb, ◌&&◌, Bool, false, ◌==◌, if◌then◌else◌, arith, Bool-cases, inl, inr,
}
use arcade_os.Heap.{Heap, header_size, sub_size}
use arcade_os.Heap.Layout.{IsValid}
use arcade_os.Heap.Roundtrip.{IsCoalesced}
use arcade_os.Pmm.{Pmm, page_size, u32_mod, add32, alloc_page, free_page, test_page}
use arcade_os.Pmm.Invariant
use arcade_os.Pmm.Alloc.{alloc_page-Allocates, free_page-Releases}

abbrev pub initial_pages : ℕ
initial_pages = 256

-- The loop of `heap_init`: the rounds left, the first page's address, and how many pages follow on
-- from it. A page that does not follow goes back, and the loop ends.
pub grow : ℕ → ℕ → ℕ → Pmm → ℕ × Pmm
grow zero first pages m = (pages, m)
grow (suc n) first pages m =
    let r = alloc_page m in
    let page = r.0 % u32_mod in
    let more = grow n first (pages + 1) r.1 in
    if page == 0
    then (pages, r.1)
    else if page == add32 first (pages * page_size % u32_mod)
    then more
    else (pages, free_page page r.1)

-- `heap_start` with the heap, or `none` where not even one page is free.
pub init : Pmm → Option (ℕ × Heap) × Pmm
init m =
    let r = alloc_page m in
    let first = r.0 % u32_mod in
    let (pages, m') = grow (initial_pages - 1) first 1 r.1 in
    let total = pages * page_size in
    if first == 0 then (none, r.1) else (
      some (
        first,
        record {
          total = total;
          blocks = record { addr = first; size = sub_size total header_size; free = true } ∷ [];
        },
      ),
      m',
    )

-- From `m0` to `m`, `n` pages from `p` on have been set aside, all of them free before, and no other
-- page has changed.
abbrev Holds : Pmm → Pmm → ℕ → ℕ → Type 0
Holds m0 m p n =
    (q : ℕ)
    → if leb p q && ltb q (p + n)
      then (test_page m0 q ≡ false) × (test_page m q ≡ true)
      else test_page m q ≡ test_page m0 q

-- Between any two states, the pages in use stay so.
abbrev Grown : Pmm → ℕ → ℕ → ℕ × Pmm → Type 0
Grown m0 p n (pages, m) =
    Invariant.IsValid m
    × (test_page m 0 ≡ true)
    × (pages ≤ n)
    × (0 < pages)
    × Holds m0 m p pages
    × (p + pages ≤ m.total_pages)

Grown-weaken : (m0 : Pmm) (p n k : ℕ) (r : ℕ × Pmm) → n ≤ k → Grown m0 p n r → Grown m0 p k r
Grown-weaken m0 p n k (pages, m) h (v, z, le, pos, held, fits) =
    (v, z, omega arith, pos, held, fits)

-- The page that `pmm_alloc_page` gives is put at the end of the block.
Grown-next :
    (m0 : Pmm) (p pages q : ℕ) (m m' : Pmm)
    → Grown m0 p pages (pages, m)
    → q ≡ p + pages
    → q < m.total_pages
    → test_page m q ≡ false
    → Invariant.Uses m q m'
    → Grown m0 p (pages + 1) (pages + 1, m')
Grown-next m0 p pages q m m' (v, z, le, pos, held, fits) e inside new (v', tests, counts, same) = (
  v',
  ground (arith, tests 0),
  omega arith,
  omega arith,
  λ k. ground (arith, tests k, held k, new),
  omega arith,
)

-- The page that `pmm_alloc_page` gives goes back.
Grown-back :
    (m0 : Pmm) (p n pages q : ℕ) (m m' : Pmm)
    → Grown m0 p n (pages, m)
    → 0 < q
    → q < m.total_pages
    → test_page m q ≡ false
    → Invariant.Uses m q m'
    → Grown m0 p n (pages, free_page (q * page_size) m')
Grown-back m0 p n pages q m m' (v, z, le, pos, held, fits) some_page inside new
      (v', tests, counts, same) =
    let here : q * page_size / page_size ≡ q = omega arith in
    let (v2, t2, c2, s2) =
      free_page-Releases m' (q * page_size) v' (omega arith) (omega arith)
        (ground (arith, tests q, here)) in
    (
      v2,
      ground (arith, t2 0, tests 0, here),
      le,
      pos,
      λ k. ground (arith, t2 k, tests k, held k, here, new),
      omega arith,
    )

grow-Grown :
    (m0 : Pmm) (n p pages : ℕ) (m : Pmm)
    → Grown m0 p pages (pages, m)
    → Grown m0 p (pages + n) (grow n (p * page_size) pages m)
unfolding grow
grow-Grown m0 zero p pages m g = Grown-weaken m0 p pages (pages + 0) (pages, m) (omega arith) g
grow-Grown m0 (suc n) p pages m g = elim (alloc_page-Allocates m g.0 g.1) [
  | inl (failed, same, _) ↦
      let none_left : ((alloc_page m).0 % u32_mod == 0) ≡ true = ground (arith, failed) in
      rw (none_left, same) (Grown-weaken m0 p pages (pages + suc n) (pages, m) (omega arith) g)
  | inr (q, at, some_page, inside, new, before, uses) ↦
      let page : (alloc_page m).0 % u32_mod ≡ q * page_size = omega (arith, at, g.0.small) in
      let found : (q * page_size == 0) ≡ false = ground arith in
      elim (Bool-cases (q * page_size == add32 (p * page_size) (pages * page_size % u32_mod))) [
        | inl next ↦
            rw (page, found, next)
              (Grown-weaken m0 p (pages + 1 + n) (pages + suc n) _ (omega arith) (
                grow-Grown m0 n p (pages + 1) (alloc_page m).1 (
                  Grown-next m0 p pages q m (alloc_page m).1 g (ground (arith, g.0.small, g.5))
                    inside new uses)))
        | inr apart ↦
            rw (page, found, apart)
              (Grown-weaken m0 p pages (pages + suc n)
                (pages, free_page (q * page_size) (alloc_page m).1) (omega arith)
                (Grown-back m0 p pages pages q m (alloc_page m).1 g some_page inside new uses))
      ]
]

-- A heap on pages of the allocator's own: valid, one free block, and every byte of it in a page
-- that was free and is in use now; no other page has changed.
abbrev pub OnPages : Pmm → Pmm → ℕ × Heap → Type 0
OnPages m m' (start, h) =
    IsValid start h
    × IsCoalesced h.blocks
    × (h.total ≤ initial_pages * page_size)
    × ((addr : ℕ)
        → start ≤ addr
        → addr < start + h.total
        → (test_page m (addr / page_size) ≡ false) × (test_page m' (addr / page_size) ≡ true))
    × ((q : ℕ)
        → (q * page_size < start) ⊎ (start + h.total ≤ q * page_size)
        → test_page m' q ≡ test_page m q)

abbrev pub InitHeap : Pmm → Option (ℕ × Heap) × Pmm → Type 0
InitHeap m (none, m') = (m' ≡ m) × ((q : ℕ) → q < m.total_pages → test_page m q ≡ true)
InitHeap m (some r, m') = Invariant.IsValid m' × OnPages m m' r

one_block :
    (m0 : Pmm) (p pages : ℕ) (m : Pmm)
    → Grown m0 p (1 + (initial_pages - 1)) (pages, m)
    → OnPages m0 m (
      p * page_size,
      record {
        total = pages * page_size;
        blocks =
            record {
              addr = p * page_size;
              size = sub_size (pages * page_size) header_size;
              free = true;
            }
            ∷ [];
      },
    )
one_block m0 p pages m (v, z, le, pos, held, fits) = (
  record { tiled = (refl, omega (arith, v.small)); low = omega (arith, v.small) },
  (refl, tt),
  omega arith,
  (λ addr lo hi. within (addr / page_size) (omega arith) (omega arith)),
  λ q away. without q (ground (arith, away)),
)
  where
    choose : Bool → ℕ → Type 0
    choose b q =
        if b
        then (test_page m0 q ≡ false) × (test_page m q ≡ true)
        else test_page m q ≡ test_page m0 q

    within : (q : ℕ) → p ≤ q → q < p + pages → (test_page m0 q ≡ false) × (test_page m q ≡ true)
    within q lo hi = subst (λ b. choose b q) inside (held q)
      where
        inside : (leb p q && ltb q (p + pages)) ≡ true
        inside = ground (arith, lo, hi)

    without : (q : ℕ) → (leb p q && ltb q (p + pages)) ≡ false → test_page m q ≡ test_page m0 q
    without q away = subst (λ b. choose b q) away (held q)

-- `heap_init` gives a valid heap of at most 1 MiB, on pages that were all free and that the page
-- allocator has set aside, and changes no other page; it fails only where no page is free.
pub init-InitHeap : (m : Pmm) → Invariant.IsValid m → test_page m 0 ≡ true → InitHeap m (init m)
unfolding init
init-InitHeap m v z = elim (alloc_page-Allocates m v z) [
  | inl (failed, same, full) ↦
      let none_left : ((alloc_page m).0 % u32_mod == 0) ≡ true = ground (arith, failed) in
      rw none_left (same, full)
  | inr (q, at, some_page, inside, new, before, (v', tests, counts, same)) ↦
      let page : (alloc_page m).0 % u32_mod ≡ q * page_size = omega (arith, at, v.small) in
      let found : (q * page_size == 0) ≡ false = ground arith in
      let grown = grow-Grown m (initial_pages - 1) q 1 (alloc_page m).1 (
        v',
        ground (arith, tests 0),
        omega arith,
        omega arith,
        (λ k. ground (arith, tests k, new)),
        omega arith,
      ) in
      rw (page, found) (grown.0, one_block m q _ _ grown)
]
