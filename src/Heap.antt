-- ===== src/Heap.antt =====
-- src/heap.c, the kernel's free-list allocator. The chain of `block_header_t` from `heap_start`
-- along `next` is the list `blocks`; each block carries the address of its header.
pub mod Layout
pub mod Init
pub mod Live
pub mod Roundtrip
pub mod Limits
mod Tests
use arcade_os.Base.{
  ℕ, ◌+◌, ◌-◌, ◌*◌, ◌/◌, ◌%◌, ◌^◌, Bool, true, false, ◌&&◌, Option, none, some, List, [], ◌∷◌, ltb,
  leb, ◌==◌, if◌then◌else◌,
}
use mathlib.Core.Option

pub record Block : Type 0 where
  pub addr : ℕ
  pub size : ℕ
  pub free : Bool

-- `heap_total`, and the chain from `heap_start`.
pub record Heap : Type 0 where
  pub total : ℕ
  pub blocks : List Block

-- `sizeof(block_header_t)` on x86-64: `size_t`, `int` with padding, a pointer.
abbrev pub header_size : ℕ
header_size = 24

abbrev pub block_align : ℕ
block_align = 16

abbrev pub size_mod : ℕ
size_mod = 2 ^ 64

-- `size_t` subtraction
abbrev pub sub_size : ℕ → ℕ → ℕ
sub_size a b = (a + size_mod - b) % size_mod

-- `(n + 15) & ~15` clears the low four bits.
abbrev pub align_up : ℕ → ℕ
align_up n = (n + block_align - 1) % size_mod / block_align * block_align

-- The block that is handed out, and the rest of it as a free block if another header and more
-- than `block_align` bytes fit.
pub take_block : ℕ → Block → List Block → List Block
take_block size b bs =
    if ltb ((size + header_size + block_align) % size_mod) b.size
    then record b { size = size; free = false }
      ∷ record {
        addr = b.addr + header_size + size;
        size = sub_size (sub_size b.size size) header_size;
        free = true;
      }
      ∷ bs
    else record b { free = false } ∷ bs

-- The first-fit search of `kmalloc`.
pub first_fit : ℕ → List Block → Option (ℕ × List Block)
first_fit size [] = none
first_fit size (b ∷ bs) =
    if b.free && leb size b.size
    then some (b.addr + header_size, take_block size b bs)
    else Option.map (λ (p, cs). (p, b ∷ cs)) (first_fit size bs)

-- The pointer is 0 (NULL) where the allocation fails.
pub kmalloc : ℕ → Heap → ℕ × Heap
kmalloc size h = if size == 0 then (0, h) else elim (first_fit (align_up size) h.blocks) [
  | none ↦ (0, h)
  | some (p, bs) ↦ (p, record h { blocks = bs })
]

pub merge : Block → Block → Block
merge b c = record b { size = b.size + (header_size + c.size) }

-- The coalescing loop of `kfree`, at the block `cur` with the blocks after it.
pub coalesce_from : Block → List Block → List Block
coalesce_from cur [] = cur ∷ []
coalesce_from cur (next ∷ bs) = elim (cur.free && next.free) [
  | true ↦ coalesce_from (merge cur next) bs
  | false ↦ cur ∷ coalesce_from next bs
]

pub coalesce : List Block → List Block
coalesce [] = []
coalesce (b ∷ bs) = coalesce_from b bs

-- `header->free = 1`. `none`: no header of the chain stands at `a`, and the write would hit
-- memory that is not the allocator's.
pub mark_free : ℕ → List Block → Option (List Block)
mark_free a [] = none
mark_free a (b ∷ bs) =
    if b.addr == a
    then some (record b { free = true } ∷ bs)
    else Option.map (λ cs. b ∷ cs) (mark_free a bs)

pub kfree : ℕ → Heap → Option Heap
kfree ptr h =
    if ptr == 0
    then some h
    else Option.map (λ bs. record h { blocks = coalesce bs })
        (mark_free (sub_size ptr header_size) h.blocks)
