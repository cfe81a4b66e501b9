-- ===== src/Pmm/Tests.antt =====
-- The page allocator at concrete inputs.
use arcade_os.Base.{ℕ, ◌<◌, ◌≡◌, refl, true, false, ◌∷◌, [], arith}
use arcade_os.Pmm.{Pmm, test_page, use_page, alloc_page, free_page, alloc_pages, find_free}
use arcade_os.Pmm.Bits.{test_bit, set_bit}
use arcade_os.Pmm.Invariant.{IsValid, count, Releases}
use arcade_os.Pmm.Alloc.{Allocates, alloc_page-Allocates, free_page-Releases}
use arcade_os.Pmm.Runs.{AllocatesRun, alloc_pages-AllocatesRun}
use arcade_os.Pmm.Init
use arcade_os.Pmm.Init.{BootInfo, Reserved, init-Reserved}

-- Eight pages, all free but page 0.
abbrev pub eight_pages : Pmm
eight_pages = record { bitmap = 1 ∷ []; total_pages = 8; used_pages = 1 }

pub eight_pages-IsValid : IsValid eight_pages
unfolding count test_page test_bit
eight_pages-IsValid = record {
  covers = omega arith;
  bytes = omega arith;
  small = omega arith;
  counted = refl;
}

pub page_zero : test_page eight_pages 0 ≡ true
unfolding test_page test_bit
page_zero = refl

page_one : test_page eight_pages 1 ≡ false
unfolding test_page test_bit
page_one = refl

-- Pages 0 and 1 in use.
abbrev two_used : Pmm
two_used = record { bitmap = 3 ∷ []; total_pages = 8; used_pages = 2 }

two_used-IsValid : IsValid two_used
unfolding count test_page test_bit
two_used-IsValid = record {
  covers = omega arith;
  bytes = omega arith;
  small = omega arith;
  counted = refl;
}

alloc_takes_one : alloc_page eight_pages ≡ (4096, two_used)
unfolding alloc_page find_free use_page test_page test_bit set_bit
alloc_takes_one = refl

alloc_page-Allocates_example : Allocates eight_pages (alloc_page eight_pages)
alloc_page-Allocates_example = alloc_page-Allocates eight_pages eight_pages-IsValid page_zero

free_page-Releases_example : Releases two_used 1 (free_page 4096 two_used)
unfolding test_page test_bit
free_page-Releases_example =
    free_page-Releases two_used 4096 two_used-IsValid (omega arith) (omega arith) refl

alloc_pages-AllocatesRun_example : AllocatesRun 3 eight_pages (alloc_pages 3 eight_pages)
alloc_pages-AllocatesRun_example =
    alloc_pages-AllocatesRun 3 eight_pages eight_pages-IsValid page_zero (omega arith)

-- 16 MiB without a memory map.
abbrev small_machine : BootInfo
small_machine = record { has_mem = false; mem_upper = 0; has_mmap = false; mmap = [] }

init-Reserved_example :
    IsValid (Init.init 0x180000 small_machine)
    × ((Init.init 0x180000 small_machine).total_pages ≡ 4096)
    × ((q : ℕ)
        → q < 4096
        → Reserved 0x180000 512 q
        → test_page (Init.init 0x180000 small_machine) q ≡ true)
unfolding Init.total_memory_bytes
init-Reserved_example =
    init-Reserved 0x180000 small_machine (omega arith) (omega arith) (omega arith)
