-- ===== src/Pmm/Runs.antt =====
-- Contiguous runs of pages.
use arcade_os.Base.{
  ℕ, zero, suc, ◌+◌, ◌-◌, ◌*◌, ◌≤◌, ◌<◌, ◌≡◌, ◌≢◌, ◌⊎◌, ◌∙◌, sym, subst₂, dec_lt, false≢true, refl,
  true, false, ◌&&◌, ◌||◌, Option, none, some, ltb, leb, ◌==◌, if◌then◌else◌, arith, Bool-cases,
  inl, inr,
}
use arcade_os.Pmm.{Pmm, test_page, use_page, page_size, use_run, find_run, alloc_pages}
use arcade_os.Pmm.Invariant.{IsValid, use_page-Uses}

-- The `n` pages from `s` on are free.
abbrev pub Run : Pmm → ℕ → ℕ → Type 0
Run m s n = (q : ℕ) → s ≤ q → q < s + n → test_page m q ≡ false

-- A run of `count` free pages between `lo` and `hi`, or that there is none.
abbrev FoundRun : Pmm → ℕ → ℕ → ℕ → Option ℕ → Type 0
FoundRun m count lo hi none = (s : ℕ) → lo ≤ s → s + count ≤ hi → ¬ Run m s count
FoundRun m count lo hi (some s) = (lo ≤ s) × (s + count ≤ hi) × Run m s count

-- A used page below `lo'` blocks every run that starts before it and would reach it.
FoundRun-skip :
    (m : Pmm) (count lo page hi : ℕ) (o : Option ℕ)
    → test_page m page ≡ true
    → lo ≤ page
    → page < lo + count
    → FoundRun m count (page + 1) hi o
    → FoundRun m count lo hi o
FoundRun-skip m count lo page hi none used le reach h = λ s low fits run. elim (dec_lt page s) [
  | yes past ↦ h s (omega arith) fits run
  | no before ↦ false≢true (sym (run page (omega arith) (omega arith)) ∙ used)
]
FoundRun-skip m count lo page hi (some s) used le reach (low, fits, run) = (omega arith, fits, run)

-- `len` free pages end just before `page`, and begin at `start`.
abbrev Pending : Pmm → ℕ → ℕ → ℕ → Type 0
Pending m page start len = (len ≤ page) × ((len ≢ 0) → start + len ≡ page) × Run m (page - len) len

Run-extend :
    (m : Pmm) (page len : ℕ)
    → len ≤ page
    → test_page m page ≡ false
    → Run m (page - len) len
    → Run m (page + 1 - (len + 1)) (len + 1)
Run-extend m page len le new run = λ q lo hi. elim (dec_lt q page) [
  | yes before ↦ run q (omega arith) (omega arith)
  | no here ↦ let e : q ≡ page = omega arith in rw e new
]

FoundRun-cast :
    (m : Pmm) (count lo hi lo' hi' : ℕ) (o : Option ℕ)
    → lo ≡ lo'
    → hi ≡ hi'
    → FoundRun m count lo hi o
    → FoundRun m count lo' hi' o
FoundRun-cast m count lo hi lo' hi' o e f = subst₂ (λ a b. FoundRun m count a b o) e f

-- The run is complete with the free page `page`.
FoundRun-full :
    (m : Pmm) (count page start len n : ℕ)
    → test_page m page ≡ false
    → start + len ≡ page
    → len + 1 ≡ count
    → Run m (page - len) len
    → FoundRun m count (page - len) (page + suc n) (some start)
FoundRun-full m count page start len n new at full run = (
  omega arith,
  omega arith,
  λ q lo hi. Run-extend m page len (omega arith) new run q (omega arith) (omega arith),
)

find_run-FoundRun :
    (count n page start len : ℕ) (m : Pmm)
    → len < count
    → Pending m page start len
    → FoundRun m count (page - len) (page + n) (find_run count n page start len m)
unfolding find_run
find_run-FoundRun count zero page start len m short p = λ s low fits run. absurd (omega arith)
find_run-FoundRun count (suc n) page start len m short (le, at, run) =
    elim (Bool-cases (test_page m page)) [
      | inl used ↦ rw used (
          FoundRun-skip m count (page - len) page (page + suc n) _ used (omega arith) (omega arith)
            (FoundRun-cast m count (page + 1 - 0) (page + 1 + n) _ _ _ (omega arith) (omega arith) (
              find_run-FoundRun count n (page + 1) start 0 m (omega arith)
                (omega arith, (λ ne. absurd (ne refl)), λ q lo hi. absurd (omega arith)))))
      | inr new ↦ elim (Bool-cases (len + 1 == count)) [
        | inl full ↦
            rw (new, full) (FoundRun-full m count page start' len n new at' (ground arith) run)
        | inr more ↦
            rw (new, more)
              (FoundRun-cast m count (page + 1 - (len + 1)) (page + 1 + n) _ _ _ (omega arith)
                (omega arith)
                (find_run-FoundRun count n (page + 1) start' (len + 1) m (ground arith)
                  (omega arith, (λ _. omega (arith, at')), Run-extend m page len le new run)))
      ]
    ]
  where
    start' : ℕ
    start' = if len == 0 then page else start

    at' : (if len == 0 then page else start) + len ≡ page
    at' = ground arith

-- `m'` is `m` with the `n` pages from `s` on in use, and counted.
abbrev pub UsesRun : Pmm → ℕ → ℕ → Pmm → Type 0
UsesRun m s n m' =
    IsValid m'
    × ((q : ℕ) → test_page m' q ≡ (leb s q && ltb q (s + n) || test_page m q))
    × (m'.used_pages ≡ m.used_pages + n)
    × (m'.total_pages ≡ m.total_pages)

use_run-UsesRun :
    (n s : ℕ) (m : Pmm)
    → IsValid m
    → s + n ≤ m.total_pages
    → Run m s n
    → UsesRun m s n (use_run n s m)
unfolding use_run
use_run-UsesRun zero s m v fits run = (v, λ q. ground arith, omega arith, refl)
use_run-UsesRun (suc n) s m v fits run =
    let (v1, t1, c1, s1) = use_page-Uses m s v (omega arith) (run s (omega arith) (omega arith)) in
    let (v2, t2, c2, s2) =
      use_run-UsesRun n (s + 1) (use_page m s) v1 (omega arith)
        (λ q lo hi. ground (arith, t1 q, run q)) in
    (v2, λ q. ground (arith, t1 q, t2 q), omega arith, s2 ∙ s1)

-- What `pmm_alloc_pages` does for two pages or more.
abbrev pub AllocatesRun : ℕ → Pmm → ℕ × Pmm → Type 0
AllocatesRun count m (addr, m') =
    ((addr ≡ 0) × (m' ≡ m) × ((s : ℕ) → s + count ≤ m.total_pages → ¬ Run m s count))
    ⊎ ((s : ℕ) × (addr ≡ s * page_size)
        × (0 < s)
        × (s + count ≤ m.total_pages)
        × Run m s count
        × UsesRun m s count m')

-- With page 0 in use, `pmm_alloc_pages` of at least two pages takes a run of that many free pages
-- inside memory and no other page; it returns 0 exactly when there is no such run, and then
-- changes nothing.
pub alloc_pages-AllocatesRun :
    (count : ℕ) (m : Pmm)
    → IsValid m
    → test_page m 0 ≡ true
    → 1 < count
    → AllocatesRun count m (alloc_pages count m)
unfolding alloc_pages
alloc_pages-AllocatesRun count m v reserved many = ground (
  arith,
  by_search (find_run count m.total_pages 0 0 0 m) (
      find_run-FoundRun count m.total_pages 0 0 0 m (omega arith)
        (omega arith, (λ ne. absurd (ne refl)), λ q lo hi. absurd (omega arith))),
)
  where
    by_search :
        (o : Option ℕ)
        → FoundRun m count (0 - 0) (0 + m.total_pages) o
        → AllocatesRun count m
            (elim o [ none ↦ (0, m) | some s ↦ (s * page_size, use_run count s m) ])
    by_search none h = inl (refl, refl, λ s fits. h s (omega arith) (omega arith))
    by_search (some zero) (lo, hi, run) =
        absurd (false≢true (sym (run 0 (omega arith) (omega arith)) ∙ reserved))
    by_search (some (suc s)) (lo, hi, run) = inr (
      suc s,
      refl,
      omega arith,
      omega arith,
      run,
      use_run-UsesRun count (suc s) m v (omega arith) run,
    )
