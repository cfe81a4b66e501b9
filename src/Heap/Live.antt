-- ===== src/Heap/Live.antt =====
-- The live allocations, as a client of the heap sees them: payload address and size.
use arcade_os.Base.{
  subst, ℕ, ◌+◌, ◌%◌, ◌≤◌, ◌<◌, ◌≡◌, ◌≢◌, refl, true, false, ◌&&◌, none, some, List, [], ◌∷◌, ◌++◌,
  arith, if◌then◌else◌, Bool-cases, inl, inr, ap, OnSome, OnSome-imp, leb, ltb, ◌∙◌,
}
use arcade_os.Heap.{
  Block, Heap, header_size, size_mod, align_up, take_block, first_fit, kmalloc, merge, sub_size,
  block_align, coalesce_from, coalesce, mark_free, kfree,
}
use arcade_os.Heap.Layout.{
  Tiled, Tiled-le, IsValid, heap_limit, first_fit_cons, kmalloc_cases, kmalloc-IsValid,
}

abbrev pub live : List Block → List (ℕ × ℕ)
live [] = []
live (b ∷ bs) = if b.free then live bs else (b.addr + header_size, b.size) ∷ live bs

-- The regions stand between `a` and `e`, in order, with room for a header before each.
abbrev pub Spaced : ℕ → List (ℕ × ℕ) → ℕ → Type 0
Spaced a [] e = a ≤ e
Spaced a ((p, n) ∷ rs) e = (a + header_size ≤ p) × Spaced (p + n) rs e

Spaced-le : (a e : ℕ) (rs : List (ℕ × ℕ)) → Spaced a rs e → a ≤ e
Spaced-le a e [] s = s
Spaced-le a e ((p, n) ∷ rs) s = omega (arith, Spaced-le (p + n) e rs s.1)

Spaced-mono : (a c e : ℕ) (rs : List (ℕ × ℕ)) → a ≤ c → Spaced c rs e → Spaced a rs e
Spaced-mono a c e [] h s = omega arith
Spaced-mono a c e ((p, n) ∷ rs) h s = (omega arith, s.1)

Tiled-Spaced : (a e : ℕ) (bs : List Block) → Tiled a bs e → Spaced a (live bs) e
Tiled-Spaced a e [] t = omega arith
Tiled-Spaced a e (b ∷ bs) t = ground (
  arith,
  Tiled-Spaced (a + header_size + b.size) e bs t.1,
  Spaced-mono a (a + header_size + b.size) e (live bs),
  Spaced-mono (b.addr + header_size + b.size) (a + header_size + b.size) e (live bs),
)

-- `after` is `before` with the region `r` put in somewhere.
abbrev pub Inserts : ℕ × ℕ → List (ℕ × ℕ) → List (ℕ × ℕ) → Type 0
Inserts r before after =
    (xs : List (ℕ × ℕ)) × (ys : List (ℕ × ℕ)) × (before ≡ xs ++ ys) × (after ≡ xs ++ r ∷ ys)

Inserts-cons : (q r : ℕ × ℕ) (xs ys : List (ℕ × ℕ)) → Inserts r xs ys → Inserts r (q ∷ xs) (q ∷ ys)
Inserts-cons q r xs ys (us, vs, before, after) = (q ∷ us, vs, ap (◌∷◌ q) before, ap (◌∷◌ q) after)

Inserts-block :
    (b : Block) (r : ℕ × ℕ) (bs cs : List Block)
    → Inserts r (live bs) (live cs)
    → Inserts r (live (b ∷ bs)) (live (b ∷ cs))
Inserts-block b r bs cs i = elim (Bool-cases b.free) [
  | inl f ↦ rw (f, live) i
  | inr u ↦ rw (u, live) (Inserts-cons _ r _ _ i)
]

abbrev Takes : ℕ → List Block → ℕ × List Block → Type 0
Takes size bs (p, cs) = (n : ℕ) × (size ≤ n) × Inserts (p, n) (live bs) (live cs)

take_block-Takes :
    (size : ℕ) (b : Block) (bs : List Block)
    → b.free && leb size b.size ≡ true
    → Takes size (b ∷ bs) (b.addr + header_size, take_block size b bs)
unfolding take_block
take_block-Takes size b bs fit =
    elim (Bool-cases (ltb ((size + header_size + block_align) % size_mod) b.size)) [
      | inl split ↦ (size, omega arith, ([], live bs, ground arith, ground arith))
      | inr whole ↦ (b.size, ground arith, ([], live bs, ground arith, ground arith))
    ]

first_fit-Takes : (size : ℕ) (bs : List Block) → OnSome (Takes size bs) (first_fit size bs)
unfolding first_fit
first_fit-Takes size [] = tt
first_fit-Takes size (b ∷ bs) = first_fit_cons _ size b bs (take_block-Takes size b bs) λ _.
    OnSome-imp (Takes size bs) _ _
      (λ r (n, fits, ins). (n, fits, Inserts-block b (r.0, n) bs r.1 ins)) (first_fit-Takes size bs)

-- A successful `kmalloc` adds one live allocation of at least the size asked for (rounded up),
-- keeps every other where and as large as it was, and all of them lie apart inside the heap.
pub kmalloc-live :
    (start size : ℕ) (h : Heap)
    → IsValid start h
    → let (p, g) = kmalloc size h in
      p ≢ 0
      → (n : ℕ) × (align_up size ≤ n)
        × Inserts (p, n) (live h.blocks) (live g.blocks)
        × Spaced start (live g.blocks) (start + g.total)
kmalloc-live start size h v ne =
    let (n, fits, ins) = taken in
    (n, fits, ins, Tiled-Spaced _ _ _ (kmalloc-IsValid start size h v).tiled)
  where
    taken : Takes (align_up size) h.blocks ((kmalloc size h).0, (kmalloc size h).1.blocks)
    taken =
        kmalloc_cases (λ (r : ℕ × Heap). r.0 ≢ 0 → Takes (align_up size) h.blocks (r.0, r.1.blocks))
          size h (λ z. absurd (z refl))
          (OnSome-imp (Takes (align_up size) h.blocks) _ _ (λ r t _. t)
            (first_fit-Takes (align_up size) h.blocks))
          ne

live-coalesce_from : (b : Block) (bs : List Block) → live (coalesce_from b bs) ≡ live (b ∷ bs)
unfolding coalesce_from merge
live-coalesce_from b [] = refl
live-coalesce_from b (c ∷ bs) =
    ground (arith, live-coalesce_from (merge b c) bs, live-coalesce_from c bs)

live-coalesce : (bs : List Block) → live (coalesce bs) ≡ live bs
unfolding coalesce
live-coalesce [] = refl
live-coalesce (b ∷ bs) = live-coalesce_from b bs

Spaced-mem :
    (a e p n : ℕ) (rs xs ys : List (ℕ × ℕ))
    → Spaced a rs e
    → rs ≡ xs ++ (p, n) ∷ ys
    → (a + header_size ≤ p) × (p ≤ e)
Spaced-mem a e p n [] [] ys s h = cc
Spaced-mem a e p n [] (x ∷ xs) ys s h = cc
Spaced-mem a e p n ((q, m) ∷ rs) [] ys s h = ground (arith, Spaced-le (q + m) e rs s.1)
Spaced-mem a e p n ((q, m) ∷ rs) (x ∷ xs) ys s h =
    ground (arith, Spaced-mem (q + m) e p n rs xs ys s.1)

abbrev Frees : ℕ → List Block → List (ℕ × ℕ) → Type 0
Frees p bs rs =
    (cs : List Block) × (mark_free (sub_size p header_size) bs ≡ some cs) × (live cs ≡ rs)

Frees-skip :
    (p e : ℕ) (b : Block) (bs : List Block) (rs : List (ℕ × ℕ))
    → e < heap_limit
    → (b.addr + header_size + header_size ≤ p) × (p ≤ e)
    → Frees p bs rs
    → Frees p (b ∷ bs) (if b.free then rs else (b.addr + header_size, b.size) ∷ rs)
unfolding mark_free
Frees-skip p e b bs rs small between (cs, marked, same) = (b ∷ cs, ground arith, ground arith)

mark_free_step :
    (a e p n : ℕ) (b : Block) (bs : List Block) (xs ys : List (ℕ × ℕ))
    → e < heap_limit
    → Tiled a (b ∷ bs) e
    → live (b ∷ bs) ≡ xs ++ (p, n) ∷ ys
    → ((zs : List (ℕ × ℕ)) → live bs ≡ zs ++ (p, n) ∷ ys → Frees p bs (zs ++ ys))
    → Frees p (b ∷ bs) (xs ++ ys)
unfolding mark_free
mark_free_step a e p n b bs xs ys small t h rest = elim (Bool-cases b.free) [
  | inl f ↦ subst (Frees p (b ∷ bs)) (ground arith) (further xs (ground arith))
  | inr u ↦ at_live xs u h
]
  where
    further :
        (zs : List (ℕ × ℕ))
        → live bs ≡ zs ++ (p, n) ∷ ys
        → Frees p
            (b ∷ bs)
            (if b.free then zs ++ ys else (b.addr + header_size, b.size) ∷ (zs ++ ys))
    further zs k =
        Frees-skip p e b bs (zs ++ ys) small
          (omega (
            arith,
            t.0,
            Spaced-mem (a + header_size + b.size) e p n (live bs) zs ys
                (Tiled-Spaced (a + header_size + b.size) e bs t.1) k,
          ))
          (rest zs k)

    at_live :
        (zs : List (ℕ × ℕ))
        → b.free ≡ false
        → live (b ∷ bs) ≡ zs ++ (p, n) ∷ ys
        → Frees p (b ∷ bs) (zs ++ ys)
    at_live [] u k = (
      record b { free = true } ∷ bs,
      ground (arith, Tiled-le (a + header_size + b.size) e bs t.1),
      ground arith,
    )
    at_live (z ∷ zs) u k = subst (Frees p (b ∷ bs)) (ground arith) (further zs (ground arith))

-- Marking a live block free takes its region, and no other, from the live ones.
mark_free-live :
    (a e p n : ℕ) (bs : List Block) (xs ys : List (ℕ × ℕ))
    → e < heap_limit
    → Tiled a bs e
    → live bs ≡ xs ++ (p, n) ∷ ys
    → Frees p bs (xs ++ ys)
mark_free-live a e p n [] [] ys small t h = cc
mark_free-live a e p n [] (x ∷ xs) ys small t h = cc
mark_free-live a e p n (b ∷ bs) xs ys small t h =
    mark_free_step a e p n b bs xs ys small t h
      λ zs. mark_free-live (a + header_size + b.size) e p n bs zs ys small t.1

-- `kfree` of a live allocation succeeds and ends that allocation; every other stays where and as
-- large as it was.
pub kfree-live :
    (start p n : ℕ) (h : Heap) (xs ys : List (ℕ × ℕ))
    → IsValid start h
    → live h.blocks ≡ xs ++ (p, n) ∷ ys
    → (g : Heap) × (kfree p h ≡ some g) × (live g.blocks ≡ xs ++ ys)
unfolding kfree
kfree-live start p n h xs ys v e =
    let (cs, marked, rest) =
      mark_free-live start (start + h.total) p n h.blocks xs ys v.low v.tiled e in
    let bound =
      Spaced-mem start (start + h.total) p n (live h.blocks) xs ys (Tiled-Spaced _ _ _ v.tiled) e in
    (record h { blocks = coalesce cs }, ground (arith, marked, bound), live-coalesce cs ∙ rest)

-- No block that is free and fits is passed over.
abbrev pub NoneFits : ℕ → List Block → Type 0
NoneFits size [] = Unit
NoneFits size (b ∷ bs) = (b.free && leb size b.size ≡ false) × NoneFits size bs

first_fit-none : (size : ℕ) (bs : List Block) → first_fit size bs ≡ none → NoneFits size bs
unfolding first_fit
first_fit-none size [] e = tt
first_fit-none size (b ∷ bs) e = ground (arith, first_fit-none size bs)

first_fit_pos :
    (size : ℕ) (bs : List Block) → OnSome (λ (r : ℕ × List Block). 0 < r.0) (first_fit size bs)
unfolding first_fit
first_fit_pos size [] = tt
first_fit_pos size (b ∷ bs) =
    first_fit_cons _ size b bs (λ _. omega arith) λ _. first_fit_pos size bs

-- `kmalloc` of a size above 0 fails only where every block is live or too small.
pub kmalloc_complete :
    (size : ℕ) (h : Heap) → 0 < size → (kmalloc size h).0 ≡ 0 → NoneFits (align_up size) h.blocks
unfolding kmalloc
kmalloc_complete size h pos e =
    first_fit-none (align_up size) h.blocks (ground (arith, first_fit_pos (align_up size) h.blocks))
