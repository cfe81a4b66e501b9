-- ===== src/Heap/Tests.antt =====
-- The heap at concrete inputs.
use arcade_os.Base.{ℕ, ◌+◌, ◌≤◌, ◌≡◌, refl, true, false, ◌∷◌, [], some, arith, OnSome}
use arcade_os.Heap.{
  Block, Heap, align_up, first_fit, kmalloc, kfree, take_block, mark_free, coalesce, coalesce_from,
  merge,
}
use arcade_os.Heap.Layout.{IsValid, kmalloc-IsValid, kfree-IsValid}
use arcade_os.Heap.Live.{
  live, Spaced, Inserts, kmalloc-live, kfree-live, kmalloc_complete, NoneFits,
}
use arcade_os.Heap.Roundtrip.{IsCoalesced, kfree-kmalloc, kfree-IsCoalesced}
use arcade_os.Heap.Limits.{kmalloc_huge}
use arcade_os.Heap.Init
use arcade_os.Heap.Init.{InitHeap, init-InitHeap}
use arcade_os.Pmm.Tests.{eight_pages, eight_pages-IsValid, page_zero}

-- One free block of a page.
abbrev whole : Block
whole = record { addr = 4096; size = 4072; free = true }

abbrev fresh : Heap
fresh = record { total = 4096; blocks = whole ∷ [] }

-- After an allocation of 100 bytes.
abbrev first_block : Block
first_block = record { addr = 4096; size = 112; free = false }

abbrev rest_block : Block
rest_block = record { addr = 4232; size = 3936; free = true }

abbrev used : Heap
used = record { total = 4096; blocks = first_block ∷ rest_block ∷ [] }

fresh-IsValid : IsValid 4096 fresh
fresh-IsValid = omega arith

used-IsValid : IsValid 4096 used
used-IsValid = omega arith

kmalloc_hundred : kmalloc 100 fresh ≡ (4120, used)
unfolding kmalloc first_fit take_block
kmalloc_hundred = refl

kfree_hundred : kfree 4120 used ≡ some fresh
unfolding kfree mark_free coalesce coalesce_from merge
kfree_hundred = refl

kmalloc-IsValid_example : IsValid 4096 (kmalloc 100 fresh).1
kmalloc-IsValid_example = kmalloc-IsValid 4096 100 fresh fresh-IsValid

kfree-IsValid_example : OnSome (IsValid 4096) (kfree 4120 used)
kfree-IsValid_example = kfree-IsValid 4096 4120 used used-IsValid

kfree-kmalloc_example : kfree (kmalloc 100 fresh).0 (kmalloc 100 fresh).1 ≡ some fresh
kfree-kmalloc_example =
    kfree-kmalloc 4096 100 fresh fresh-IsValid (refl, tt) (rw kmalloc_hundred (omega arith))

kmalloc-live_example :
    (n : ℕ) × (align_up 100 ≤ n)
    × Inserts ((kmalloc 100 fresh).0, n) [] (live (kmalloc 100 fresh).1.blocks)
    × Spaced 4096 (live (kmalloc 100 fresh).1.blocks) (4096 + (kmalloc 100 fresh).1.total)
kmalloc-live_example = kmalloc-live 4096 100 fresh fresh-IsValid (rw kmalloc_hundred (omega arith))

kfree-live_example : (g : Heap) × (kfree 4120 used ≡ some g) × (live g.blocks ≡ [])
kfree-live_example = kfree-live 4096 4120 112 used [] [] used-IsValid refl

kmalloc_complete_example : NoneFits (align_up 5000) (whole ∷ [])
unfolding kmalloc first_fit
kmalloc_complete_example = kmalloc_complete 5000 fresh (omega arith) refl

kfree-IsCoalesced_example : OnSome (λ g. IsCoalesced g.blocks) (kfree 4120 used)
kfree-IsCoalesced_example = kfree-IsCoalesced 4120 used (omega arith)

kmalloc_huge_example : (kmalloc 0xffff_ffff_ffff_ffff fresh).0 ≡ 4120
kmalloc_huge_example =
    kmalloc_huge 0xffff_ffff_ffff_ffff fresh whole [] (omega arith) (omega arith) refl refl

init-InitHeap_example : InitHeap eight_pages (Init.init eight_pages)
init-InitHeap_example = init-InitHeap eight_pages eight_pages-IsValid page_zero
