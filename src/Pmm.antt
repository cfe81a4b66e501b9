-- ===== src/Pmm.antt =====
-- src/pmm.c, the bitmap of physical pages: bit 1 is a used page, bit 0 a free one.
mod Bits
pub mod Invariant
pub mod Regions
pub mod Alloc
pub mod Runs
pub mod Init
pub mod Tests
use arcade_os.Base.{
  ℕ, zero, suc, ◌+◌, ◌-◌, ◌*◌, ◌/◌, ◌%◌, ◌^◌, Bool, true, false, not, ◌&&◌, ◌||◌, Option, none,
  some, List, [], ◌∷◌, ltb, leb, ◌==◌, if◌then◌else◌, get_or, set, replicate,
}
use Bits.{test_bit, set_bit, clear_bit}

-- The file's static variables: the bytes from `pmm_bitmap` on, and the two counts.
pub record Pmm : Type 0 where
  pub bitmap : List ℕ
  pub total_pages : ℕ
  pub used_pages : ℕ

abbrev pub page_size : ℕ
page_size = 4096

abbrev pub u32_mod : ℕ
u32_mod = 2 ^ 32

-- `uint32_t` addition and subtraction
abbrev pub add32 : ℕ → ℕ → ℕ
add32 a b = (a + b) % u32_mod

abbrev pub sub32 : ℕ → ℕ → ℕ
sub32 a b = (a + u32_mod - b) % u32_mod

-- A read or write outside the bitmap is ruled out by `Invariant.IsValid`.
pub test_page : Pmm → ℕ → Bool
test_page m page = test_bit (get_or m.bitmap (page / 8) 0) (page % 8)

pub set_page : Pmm → ℕ → Pmm
set_page m page = record m {
  bitmap = set m.bitmap (page / 8) (set_bit (get_or m.bitmap (page / 8) 0) (page % 8));
}

pub clear_page : Pmm → ℕ → Pmm
clear_page m page = record m {
  bitmap = set m.bitmap (page / 8) (clear_bit (get_or m.bitmap (page / 8) 0) (page % 8));
}

-- `pmm_set_page(i); used_pages++`
pub use_page : Pmm → ℕ → Pmm
unfolding set_page
use_page m page = record (set_page m page) { used_pages = add32 m.used_pages 1 }

-- `pmm_clear_page(i); used_pages--`
pub release_page : Pmm → ℕ → Pmm
unfolding clear_page
release_page m page = record (clear_page m page) { used_pages = sub32 m.used_pages 1 }

-- The loop of `pmm_mark_region_used`, with the rounds left and the page.
pub mark_used_from : ℕ → ℕ → Pmm → Pmm
mark_used_from zero page m = m
mark_used_from (suc n) page m =
    let rest = mark_used_from n (page + 1) (if test_page m page then m else use_page m page) in
    if ltb page m.total_pages then rest else m

pub mark_region_used : ℕ → ℕ → Pmm → Pmm
mark_region_used base length m =
    let pages = if length % page_size == 0 then length / page_size else length / page_size + 1 in
    mark_used_from pages (base / page_size) m

pub mark_free_from : ℕ → ℕ → Pmm → Pmm
mark_free_from zero page m = m
mark_free_from (suc n) page m =
    let rest = mark_free_from n (page + 1) (if test_page m page then release_page m page else m) in
    if ltb page m.total_pages then rest else m

pub mark_region_free : ℕ → ℕ → Pmm → Pmm
mark_region_free base length m = mark_free_from (length / page_size) (base / page_size) m

-- The search of `pmm_alloc_page`, with the rounds left and the page.
pub find_free : ℕ → ℕ → Pmm → Option ℕ
find_free zero page m = none
find_free (suc n) page m =
    let rest = find_free n (page + 1) m in if test_page m page then rest else some page

-- The address is 0 where no page is free. `i * PAGE_SIZE` is taken in 64 bits and cannot wrap.
pub alloc_page : Pmm → ℕ × Pmm
alloc_page m = elim (find_free m.total_pages 0 m) [
  | none ↦ (0, m)
  | some page ↦ (page * page_size, use_page m page)
]

pub free_page : ℕ → Pmm → Pmm
free_page addr m =
    if leb m.total_pages (addr / page_size) || addr / page_size == 0
    then m
    else if test_page m (addr / page_size)
    then release_page m (addr / page_size)
    else m

-- The inner loop of `pmm_alloc_pages`: `n` pages from `page` on.
pub use_run : ℕ → ℕ → Pmm → Pmm
use_run zero page m = m
use_run (suc n) page m = use_run n (page + 1) (use_page m page)

-- The search of `pmm_alloc_pages`, with the rounds left, the page, and the run so far.
pub find_run : ℕ → ℕ → ℕ → ℕ → ℕ → Pmm → Option ℕ
find_run count zero page start len m = none
find_run count (suc n) page start len m =
    let start' = if len == 0 then page else start in
    let broken = find_run count n (page + 1) start 0 m in
    let longer = find_run count n (page + 1) start' (len + 1) m in
    if test_page m page then broken else if len + 1 == count then some start' else longer

pub alloc_pages : ℕ → Pmm → ℕ × Pmm
alloc_pages count m =
    if count == 0
    then (0, m)
    else if count == 1
    then alloc_page m
    else elim (find_run count m.total_pages 0 0 0 m) [
      | none ↦ (0, m)
      | some start ↦ (start * page_size, use_run count start m)
    ]

-- The loop of `pmm_free_pages`, with the rounds left and the address.
pub free_pages : ℕ → ℕ → Pmm → Pmm
free_pages zero addr m = m
free_pages (suc n) addr m = free_pages n ((addr + page_size) % 2 ^ 64) (free_page addr m)

pub get_free_pages : Pmm → ℕ
get_free_pages m = sub32 m.total_pages m.used_pages
