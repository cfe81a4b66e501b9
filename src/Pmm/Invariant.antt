-- ===== src/Pmm/Invariant.antt =====
-- The bitmap as a set of used pages, and the invariant that ties it to the count.
use arcade_os.Base.{
  ℕ, zero, suc, ◌+◌, ◌*◌, ◌/◌, ◌%◌, ◌≤◌, ◌<◌, ◌≡◌, refl, Bool, true, false, not, ◌&&◌, ◌||◌, ltb,
  ◌==◌, if◌then◌else◌, get_or, length, All, All-set, All-get_or, get_or-set, length-set, arith,
}
use arcade_os.Pmm.{Pmm, test_page, set_page, clear_page, use_page, release_page, page_size, u32_mod}
use arcade_os.Pmm.Bits.{set_bit, clear_bit, test_bit-set_bit, test_bit-clear_bit, bits_range}

abbrev pub IsByte : ℕ → Type 0
IsByte b = b < 256

unfoldable pub count : ℕ → (ℕ → Bool) → ℕ
count zero f = 0
count (suc n) f = (if f n then 1 else 0) + count n f

-- Every page below `total_pages` has a bit, and `used_pages` counts those whose bit is set. The
-- pages' addresses fit into 32 bits.
pub record IsValid (m : Pmm) : Type 0 where
  pub covers : m.total_pages ≤ 8 * length m.bitmap
  pub bytes : All IsByte m.bitmap
  pub small : m.total_pages * page_size ≤ u32_mod
  pub counted : m.used_pages ≡ count m.total_pages (test_page m)

-- A page whose bit is in the bitmap.
abbrev pub InMap : Pmm → ℕ → Type 0
InMap m p = p < 8 * length m.bitmap

pub test_page-set_page :
    (m : Pmm) (p q : ℕ)
    → All IsByte m.bitmap
    → InMap m p
    → test_page (set_page m p) q ≡ (p == q || test_page m q)
unfolding test_page set_page
test_page-set_page m p q bytes fits = ground (
  arith,
  get_or-set m.bitmap (p / 8) (q / 8) (set_bit (get_or m.bitmap (p / 8) 0) (p % 8)) 0,
  test_bit-set_bit (get_or m.bitmap (p / 8) 0) (p % 8) (q % 8),
  All-get_or IsByte m.bitmap (p / 8) 0 (omega arith) bytes,
)

pub test_page-clear_page :
    (m : Pmm) (p q : ℕ)
    → All IsByte m.bitmap
    → InMap m p
    → test_page (clear_page m p) q ≡ (not (p == q) && test_page m q)
unfolding test_page clear_page
test_page-clear_page m p q bytes fits = ground (
  arith,
  get_or-set m.bitmap (p / 8) (q / 8) (clear_bit (get_or m.bitmap (p / 8) 0) (p % 8)) 0,
  test_bit-clear_bit (get_or m.bitmap (p / 8) 0) (p % 8) (q % 8),
  All-get_or IsByte m.bitmap (p / 8) 0 (omega arith) bytes,
)

pub count-le : (n : ℕ) (f : ℕ → Bool) → count n f ≤ n
unfolding count
count-le zero f = omega arith
count-le (suc n) f = ground (arith, count-le n f)

pub count_all : (n : ℕ) (f : ℕ → Bool) → ((q : ℕ) → q < n → f q ≡ true) → count n f ≡ n
unfolding count
count_all zero f h = refl
count_all (suc n) f h = ground (arith, h n, count_all n f (λ q lt. h q (omega arith)))

-- Adding a page to the set, or taking one out.
count-add :
    (n p : ℕ) (f g : ℕ → Bool)
    → ((q : ℕ) → g q ≡ (p == q || f q))
    → f p ≡ false
    → count n g ≡ count n f + (if ltb p n then 1 else 0)
unfolding count
count-add zero p f g h new = ground arith
count-add (suc n) p f g h new = ground (arith, h n, count-add n p f g h new)

count-remove :
    (n p : ℕ) (f g : ℕ → Bool)
    → ((q : ℕ) → g q ≡ (not (p == q) && f q))
    → f p ≡ true
    → count n g + (if ltb p n then 1 else 0) ≡ count n f
unfolding count
count-remove zero p f g h old = ground arith
count-remove (suc n) p f g h old = ground (arith, h n, count-remove n p f g h old)

-- `use_page` of a free page adds exactly that page to the used ones.
abbrev pub Uses : Pmm → ℕ → Pmm → Type 0
Uses m p m' =
    IsValid m'
    × ((q : ℕ) → test_page m' q ≡ (p == q || test_page m q))
    × (m'.used_pages ≡ m.used_pages + 1)
    × (m'.total_pages ≡ m.total_pages)

set_page-bytes :
    (m : Pmm) (p : ℕ)
    → All IsByte m.bitmap
    → All IsByte (set_page m p).bitmap × All IsByte (clear_page m p).bitmap
unfolding set_page clear_page
set_page-bytes m p bytes =
    (All-set IsByte m.bitmap _ _ range.0 bytes, All-set IsByte m.bitmap _ _ range.1 bytes)
  where
    range :
        (set_bit (get_or m.bitmap (p / 8) 0) (p % 8) < 256)
        × (clear_bit (get_or m.bitmap (p / 8) 0) (p % 8) < 256)
    range = bits_range _ _ (All-get_or IsByte m.bitmap (p / 8) 0 (omega arith) bytes) (omega arith)

length-set_page :
    (m : Pmm) (p : ℕ)
    → (length (set_page m p).bitmap ≡ length m.bitmap)
      × (length (clear_page m p).bitmap ≡ length m.bitmap)
unfolding set_page clear_page
length-set_page m p = (length-set m.bitmap _ _, length-set m.bitmap _ _)

pub use_page-Uses :
    (m : Pmm) (p : ℕ)
    → IsValid m
    → p < m.total_pages
    → test_page m p ≡ false
    → Uses m p (use_page m p)
unfolding use_page count test_page
use_page-Uses m p v fits new = (
  record {
    covers = omega (arith, length-set_page m p);
    bytes = (set_page-bytes m p v.bytes).0;
    small = v.small;
    counted = omega (arith, counts, count-le m.total_pages (test_page (set_page m p)));
  },
  tests,
  omega (arith, counts, count-le m.total_pages (test_page (set_page m p))),
  refl,
)
  where
    tests : (q : ℕ) → test_page (set_page m p) q ≡ (p == q || test_page m q)
    tests q = test_page-set_page m p q v.bytes (omega arith)

    counts : count m.total_pages (test_page (set_page m p)) ≡ m.used_pages + 1
    counts =
        ground (arith, count-add m.total_pages p (test_page m) (test_page (set_page m p)) tests new)

-- `release_page` of a used page takes exactly that page out.
abbrev pub Releases : Pmm → ℕ → Pmm → Type 0
Releases m p m' =
    IsValid m'
    × ((q : ℕ) → test_page m' q ≡ (not (p == q) && test_page m q))
    × (m'.used_pages + 1 ≡ m.used_pages)
    × (m'.total_pages ≡ m.total_pages)

pub release_page-Releases :
    (m : Pmm) (p : ℕ)
    → IsValid m
    → p < m.total_pages
    → test_page m p ≡ true
    → Releases m p (release_page m p)
unfolding release_page count test_page
release_page-Releases m p v fits old = (
  record {
    covers = omega (arith, length-set_page m p);
    bytes = (set_page-bytes m p v.bytes).1;
    small = v.small;
    counted = omega (arith, counts, count-le m.total_pages (test_page m));
  },
  tests,
  omega (arith, counts, count-le m.total_pages (test_page m)),
  refl,
)
  where
    tests : (q : ℕ) → test_page (clear_page m p) q ≡ (not (p == q) && test_page m q)
    tests q = test_page-clear_page m p q v.bytes (omega arith)

    counts : count m.total_pages (test_page (clear_page m p)) + 1 ≡ m.used_pages
    counts = ground (
      arith,
      v.counted,
      count-remove m.total_pages p (test_page m) (test_page (clear_page m p)) tests old,
    )
