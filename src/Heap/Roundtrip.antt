-- ===== src/Heap/Roundtrip.antt =====
-- Coalescing, and freeing what was just allocated.
use mathlib.Core.Option
use arcade_os.Base.{
  not, ◌≢◌, ℕ, ◌+◌, ◌%◌, ◌≤◌, ◌<◌, ◌≡◌, refl, Bool, true, false, ◌&&◌, Option, none, some, List, [],
  ◌∷◌, arith, Bool-cases, inl, inr, ap, OnSome, OnSome-imp, leb, ltb, ◌∙◌,
}
use arcade_os.Heap.{
  Block, Heap, header_size, size_mod, align_up, take_block, first_fit, kmalloc, merge, sub_size,
  block_align, coalesce_from, coalesce, mark_free, kfree,
}
use arcade_os.Heap.Layout.{first_fit_cons, kmalloc_cases, Tiled, Tiled-le, IsValid, heap_limit}

abbrev head_free : List Block → Bool
head_free [] = false
head_free (b ∷ bs) = b.free

-- No two neighbours in the chain are both free.
abbrev pub IsCoalesced : List Block → Type 0
IsCoalesced [] = Unit
IsCoalesced (b ∷ bs) = (b.free && head_free bs ≡ false) × IsCoalesced bs

coalesce_from-IsCoalesced :
    (b : Block) (bs : List Block)
    → IsCoalesced (coalesce_from b bs) × (head_free (coalesce_from b bs) ≡ b.free)
unfolding coalesce_from merge
coalesce_from-IsCoalesced b [] = ground arith
coalesce_from-IsCoalesced b (c ∷ bs) =
    ground (arith, coalesce_from-IsCoalesced (merge b c) bs, coalesce_from-IsCoalesced c bs)

coalesce_from_id :
    (b : Block) (bs : List Block) → IsCoalesced (b ∷ bs) → coalesce_from b bs ≡ b ∷ bs
unfolding coalesce_from
coalesce_from_id b [] h = refl
coalesce_from_id b (c ∷ bs) h = ground (arith, coalesce_from_id c bs h.1)

coalesce_from-cons :
    (b : Block) (bs : List Block)
    → b.free && head_free bs ≡ false
    → coalesce_from b bs ≡ b ∷ coalesce bs
unfolding coalesce_from coalesce
coalesce_from-cons b [] h = refl
coalesce_from-cons b (c ∷ bs) h = ground arith

coalesce-IsCoalesced : (bs : List Block) → IsCoalesced (coalesce bs)
unfolding coalesce
coalesce-IsCoalesced [] = tt
coalesce-IsCoalesced (b ∷ bs) = (coalesce_from-IsCoalesced b bs).0

-- After a `kfree` of a block no two neighbouring blocks are free, whatever the heap was.
pub kfree-IsCoalesced :
    (ptr : ℕ) (h : Heap) → ptr ≢ 0 → OnSome (λ g. IsCoalesced g.blocks) (kfree ptr h)
unfolding kfree
kfree-IsCoalesced ptr h ne = ground (arith, every (mark_free (sub_size ptr header_size) h.blocks))
  where
    every :
        (o : Option (List Block))
        → OnSome
            (λ (g : Heap). IsCoalesced g.blocks)
            (Option.map (λ bs. record h { blocks = coalesce bs }) o)
    every none = tt
    every (some bs) = coalesce-IsCoalesced bs

take_block-IsCoalesced :
    (size : ℕ) (b : Block) (bs : List Block)
    → b.free ≡ true
    → IsCoalesced (b ∷ bs)
    → IsCoalesced (take_block size b bs) × (head_free (take_block size b bs) ≡ false)
unfolding take_block
take_block-IsCoalesced size b bs f h = ground arith

first_fit-IsCoalesced :
    (size : ℕ) (bs : List Block)
    → IsCoalesced bs
    → OnSome
        (λ (p, cs). IsCoalesced cs × (head_free cs && not (head_free bs) ≡ false))
        (first_fit size bs)
unfolding first_fit
first_fit-IsCoalesced size [] h = tt
first_fit-IsCoalesced size (b ∷ bs) h =
    first_fit_cons _ size b bs (λ fit. ground (arith, take_block-IsCoalesced size b bs))
      λ _.
        OnSome-imp
          (λ (r : ℕ × List Block). IsCoalesced r.1 × (head_free r.1 && not (head_free bs) ≡ false))
          _ _ (λ r c. ground arith) (first_fit-IsCoalesced size bs h.1)

-- What `first_fit` gives, marked free and coalesced, is the chain that it was taken from.
abbrev Undoes : ℕ → ℕ → List Block → ℕ × List Block → Type 0
Undoes a e bs (p, cs) =
    (ds : List Block) × (mark_free (sub_size p header_size) cs ≡ some ds)
    × (coalesce ds ≡ bs)
    × (head_free ds ≡ head_free bs)
    × (a + header_size ≤ p)
    × (p ≤ e)

undo_take :
    (a e size : ℕ) (b : Block) (bs : List Block)
    → e < heap_limit
    → Tiled a (b ∷ bs) e
    → IsCoalesced (b ∷ bs)
    → b.free && leb size b.size ≡ true
    → Undoes a e (b ∷ bs) (b.addr + header_size, take_block size b bs)
unfolding take_block mark_free coalesce merge coalesce_from
undo_take a e size b bs small t co fit =
    elim (Bool-cases (ltb ((size + header_size + block_align) % size_mod) b.size)) [
      | inl split ↦ (
        record b { size = size; free = true }
            ∷ record {
              addr = b.addr + header_size + size;
              size = sub_size (sub_size b.size size) header_size;
              free = true;
            }
            ∷ bs,
        ground (arith, Tiled-le (a + header_size + b.size) e bs t.1),
        ap (λ x. coalesce_from x bs) (rejoin split) ∙ coalesce_from_id b bs co,
        ground arith,
        ground arith,
        ground (arith, Tiled-le (a + header_size + b.size) e bs t.1),
      )
      | inr whole ↦ (
        b ∷ bs,
        ground (arith, Tiled-le (a + header_size + b.size) e bs t.1),
        coalesce_from_id b bs co,
        ground arith,
        ground arith,
        ground (arith, Tiled-le (a + header_size + b.size) e bs t.1),
      )
    ]
  where
    rejoin :
        ltb ((size + header_size + block_align) % size_mod) b.size ≡ true
        → record b {
          size = size + (header_size + sub_size (sub_size b.size size) header_size);
          free = true;
        }
          ≡ b
    rejoin split = ground (arith, Tiled-le (a + header_size + b.size) e bs t.1)

undo_skip :
    (a e : ℕ) (b : Block) (bs : List Block) (r : ℕ × List Block)
    → e < heap_limit
    → Tiled a (b ∷ bs) e
    → IsCoalesced (b ∷ bs)
    → Undoes (a + header_size + b.size) e bs r
    → Undoes a e (b ∷ bs) (r.0, b ∷ r.1)
unfolding mark_free coalesce
undo_skip a e b bs (p, cs) small t co (ds, marked, joined, same, low, high) = (
  b ∷ ds,
  ground arith,
  coalesce_from-cons b ds (ground arith) ∙ ap (◌∷◌ b) joined,
  refl,
  omega arith,
  high,
)

first_fit-Undoes :
    (a e size : ℕ) (bs : List Block)
    → e < heap_limit
    → Tiled a bs e
    → IsCoalesced bs
    → OnSome (Undoes a e bs) (first_fit size bs)
unfolding first_fit
first_fit-Undoes a e size [] small t co = tt
first_fit-Undoes a e size (b ∷ bs) small t co =
    first_fit_cons _ size b bs (undo_take a e size b bs small t co) λ _.
      OnSome-imp _ _ _ (λ r u. undo_skip a e b bs r small t co u)
        (first_fit-Undoes (a + header_size + b.size) e size bs small t.1 co.1)

-- Freeing what `kmalloc` has just returned gives back the heap as it was, block for block, if the
-- heap is valid, has no two free neighbours, and the allocation succeeded.
pub kfree-kmalloc :
    (start size : ℕ) (h : Heap)
    → IsValid start h
    → IsCoalesced h.blocks
    → let (p, g) = kmalloc size h in p ≢ 0 → kfree p g ≡ some h
unfolding kfree
kfree-kmalloc start size h v co =
    kmalloc_cases (λ (p, g). p ≢ 0 → kfree p g ≡ some h) size h (λ ne. absurd (ne refl))
      (OnSome-imp (Undoes start (start + h.total) h.blocks) _ _ (λ r u ne. ground (arith, u))
        (first_fit-Undoes start (start + h.total) (align_up size) h.blocks v.low v.tiled co))

-- `kmalloc` leaves no two neighbours free.
pub kmalloc-IsCoalesced :
    (size : ℕ) (h : Heap) → IsCoalesced h.blocks → IsCoalesced (kmalloc size h).1.blocks
kmalloc-IsCoalesced size h co =
    kmalloc_cases (λ (r : ℕ × Heap). IsCoalesced r.1.blocks) size h co
      (OnSome-imp
        (λ (r : ℕ × List Block).
          IsCoalesced r.1 × (head_free r.1 && not (head_free h.blocks) ≡ false))
        _ _ (λ r c. c.0) (first_fit-IsCoalesced (align_up size) h.blocks co))
