-- ===== src/Heap/Limits.antt =====
-- Where `kmalloc` departs from what its comments say.
use arcade_os.Base.{ℕ, ◌+◌, ◌%◌, ◌<◌, ◌≡◌, ◌≢◌, true, List, ◌∷◌, [], arith}
use arcade_os.Heap.{Block, Heap, header_size, size_mod, first_fit, kmalloc, block_align}
use arcade_os.Heap.Layout.{IsValid}

-- The rounding up to 16 wraps at 2^64: a request within 15 bytes of 2^64 succeeds on every heap
-- whose first block is free, however small that block is.
pub kmalloc_huge :
    (size : ℕ) (h : Heap) (b : Block) (bs : List Block)
    → size_mod < size + block_align
    → size < size_mod
    → h.blocks ≡ b ∷ bs
    → b.free ≡ true
    → (kmalloc size h).0 ≡ b.addr + header_size
unfolding kmalloc first_fit
kmalloc_huge size h b bs large small e f = ground arith

-- The header is 24 bytes long: on a heap that is one free block at a 16-byte boundary, as
-- `heap_init` leaves it, every allocation lies 8 bytes off a 16-byte boundary.
pub kmalloc_misaligned :
    (start size : ℕ) (h : Heap) (b : Block)
    → IsValid start h
    → start % block_align ≡ 0
    → h.blocks ≡ b ∷ []
    → (kmalloc size h).0 ≢ 0
    → (kmalloc size h).0 % block_align ≡ 8
unfolding kmalloc first_fit
kmalloc_misaligned start size h b v aligned e ne = ground arith
