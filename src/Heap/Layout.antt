-- ===== src/Heap/Layout.antt =====
-- The layout of the heap: its blocks tile the memory from `heap_start` to its end.
use arcade_os.Base.{
  OnSome-map, OnSome-imp, ℕ, ◌+◌, ◌^◌, ◌≤◌, ◌<◌, ◌≡◌, true, false, ◌&&◌, Option, none, some, List,
  [], ◌∷◌, OnSome, leb, ◌==◌, arith, Bool-cases, inl, inr,
}
use arcade_os.Heap.{
  Block, Heap, header_size, align_up, take_block, first_fit, kmalloc, merge, sub_size,
  coalesce_from, coalesce, mark_free, kfree,
}

-- To prove something of what the first-fit search finds: the first block fits, or it does not.
pub first_fit_cons {κ} :
    (P : ℕ × List Block → Type κ) (size : ℕ) (b : Block) (bs : List Block)
    → (b.free && leb size b.size ≡ true → P (b.addr + header_size, take_block size b bs))
    → (b.free && leb size b.size ≡ false → OnSome (λ (p, cs). P (p, b ∷ cs)) (first_fit size bs))
    → OnSome P (first_fit size (b ∷ bs))
unfolding first_fit
first_fit_cons P size b bs fits skips = elim (Bool-cases (b.free && leb size b.size)) [
  | inl fit ↦ rw (fit, first_fit) (fits fit)
  | inr no_fit ↦ rw (no_fit, first_fit) (OnSome-map P _ (first_fit size bs) (skips no_fit))
]

-- The same for `kmalloc`: it fails and leaves the heap as it was, or the search finds a block.
pub kmalloc_cases {κ} :
    (P : ℕ × Heap → Type κ) (size : ℕ) (h : Heap)
    → P (0, h)
    → OnSome (λ (p, bs). P (p, record h { blocks = bs })) (first_fit (align_up size) h.blocks)
    → P (kmalloc size h)
unfolding kmalloc
kmalloc_cases P size h fails found = elim (Bool-cases (size == 0)) [
  | inl nothing ↦ rw (nothing, kmalloc) fails
  | inr something ↦ rw (something, kmalloc) (by_search (first_fit (align_up size) h.blocks) found)
]
  where
    by_search :
        (o : Option (ℕ × List Block))
        → OnSome (λ (p, bs). P (p, record h { blocks = bs })) o
        → P (elim o [ none ↦ (0, h) | some (p, bs) ↦ (p, record h { blocks = bs }) ])
    by_search none f = fails
    by_search (some r) f = f

-- Each header stands where the block before it ends; the last block ends at `e`.
abbrev pub Tiled : ℕ → List Block → ℕ → Type 0
Tiled a [] e = a ≡ e
Tiled a (b ∷ bs) e = (b.addr ≡ a) × Tiled (a + header_size + b.size) bs e

pub Tiled-le : (a e : ℕ) (bs : List Block) → Tiled a bs e → a ≤ e
Tiled-le a e [] t = omega arith
Tiled-le a e (b ∷ bs) t = omega (arith, Tiled-le (a + header_size + b.size) e bs t.1)

-- The heap lies far below the end of the address space, so that no address arithmetic wraps.
abbrev pub heap_limit : ℕ
heap_limit = 2 ^ 63

pub record IsValid (start : ℕ) (h : Heap) : Type 0 where
  pub tiled : Tiled start h.blocks (start + h.total)
  pub low : start + h.total < heap_limit

take_block-Tiled :
    (a e size : ℕ) (b : Block) (bs : List Block)
    → e < heap_limit
    → size ≤ b.size
    → Tiled a (b ∷ bs) e
    → Tiled a (take_block size b bs) e
unfolding take_block
take_block-Tiled a e size b bs small fit t =
    ground (arith, Tiled-le (a + header_size + b.size) e bs t.1)

first_fit-Tiled :
    (a e size : ℕ) (bs : List Block)
    → e < heap_limit
    → Tiled a bs e
    → OnSome (λ (p, cs). Tiled a cs e) (first_fit size bs)
unfolding first_fit
first_fit-Tiled a e size [] small t = tt
first_fit-Tiled a e size (b ∷ bs) small t = ground (
  arith,
  take_block-Tiled a e size b bs,
  first_fit-Tiled (a + header_size + b.size) e size bs small t.1,
)

-- `kmalloc` keeps the blocks tiling the heap, also where it fails.
pub kmalloc-IsValid :
    (start size : ℕ) (h : Heap) → IsValid start h → IsValid start (kmalloc size h).1
unfolding kmalloc
kmalloc-IsValid start size h v =
    ground (arith, first_fit-Tiled start (start + h.total) (align_up size) h.blocks v.low v.tiled)

coalesce_from-Tiled :
    (a e : ℕ) (b : Block) (bs : List Block) → Tiled a (b ∷ bs) e → Tiled a (coalesce_from b bs) e
unfolding coalesce_from merge
coalesce_from-Tiled a e b [] t = t
coalesce_from-Tiled a e b (c ∷ bs) t = ground (
  arith,
  coalesce_from-Tiled a e (merge b c) bs,
  coalesce_from-Tiled (a + header_size + b.size) e c bs t.1,
)

mark_free-Tiled :
    (a e p : ℕ) (bs : List Block) → Tiled a bs e → OnSome (λ cs. Tiled a cs e) (mark_free p bs)
unfolding mark_free
mark_free-Tiled a e p [] t = tt
mark_free-Tiled a e p (b ∷ bs) t =
    ground (arith, mark_free-Tiled (a + header_size + b.size) e p bs t.1)

coalesce-Tiled : (a e : ℕ) (bs : List Block) → Tiled a bs e → Tiled a (coalesce bs) e
unfolding coalesce
coalesce-Tiled a e [] t = t
coalesce-Tiled a e (b ∷ bs) t = coalesce_from-Tiled a e b bs t

-- So does `kfree`.
pub kfree-IsValid :
    (start ptr : ℕ) (h : Heap) → IsValid start h → OnSome (IsValid start) (kfree ptr h)
unfolding kfree
kfree-IsValid start ptr h v = ground (
  arith,
  OnSome-map (IsValid start) (λ (bs : List Block). record h { blocks = coalesce bs })
      (mark_free (sub_size ptr header_size) h.blocks) marked,
)
  where
    marked :
        OnSome
          (λ bs. IsValid start (record h { blocks = coalesce bs }))
          (mark_free (sub_size ptr header_size) h.blocks)
    marked =
        OnSome-imp (λ bs. Tiled start bs (start + h.total)) _ _
          (λ bs t. record { tiled = coalesce-Tiled _ _ bs t; low = v.low })
          (mark_free-Tiled start (start + h.total) (sub_size ptr header_size) h.blocks v.tiled)
