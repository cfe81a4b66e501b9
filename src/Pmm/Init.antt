-- ===== src/Pmm/Init.antt =====
-- `pmm_init`: the bitmap that the boot information gives rise to.
use arcade_os.Base.{
  ℕ, ◌+◌, ◌-◌, ◌*◌, ◌/◌, ◌%◌, ◌^◌, ◌≤◌, ◌<◌, ◌≡◌, ◌⊎◌, sym, ◌∙◌, refl, Bool, true, ◌&&◌, ◌||◌, List,
  [], ◌∷◌, ltb, ◌==◌, if◌then◌else◌, replicate, arith, Bool-cases, inl, inr, get_or-replicate,
  All-replicate, length-replicate,
}
use arcade_os.Pmm.{
  Pmm, test_page, use_page, page_size, u32_mod, add32, sub32, mark_region_used, mark_region_free,
}
use arcade_os.Pmm.Bits.{test_bit_ones}
use arcade_os.Pmm.Invariant.{IsValid, IsByte, count_all, use_page-Uses}
use arcade_os.Pmm.Regions.{mark_region_used_lem, mark_region_free-IsValid}

-- `multiboot_mmap_entry_t`; the fields that `pmm_init` reads.
pub record MmapEntry : Type 0 where
  pub base_low : ℕ
  pub base_high : ℕ
  pub length_low : ℕ
  pub kind : ℕ

-- `multiboot_info_t`: the two flags, and the memory map as the entries that the walk from
-- `mmap_addr` to `mmap_end` reads.
pub record BootInfo : Type 0 where
  pub has_mem : Bool
  pub mem_upper : ℕ
  pub has_mmap : Bool
  pub mmap : List MmapEntry

abbrev pub mmap_available : ℕ
mmap_available = 1

abbrev pub mebibyte : ℕ
mebibyte = 0x100000

-- `total_memory_bytes`, in `uint32_t` arithmetic.
unfoldable pub total_memory_bytes : BootInfo → ℕ
total_memory_bytes info =
    (if info.has_mem then add32 1024 info.mem_upper else 16 * 1024) * 1024 % u32_mod

-- Step 3: every page is in use.
pub all_used : ℕ → Pmm
all_used total = record {
  bitmap = replicate (if total % 8 == 0 then total / 8 else total / 8 + 1) 255;
  total_pages = total;
  used_pages = total;
}

-- Step 4, one entry: an available region with a 32-bit base, cut off at 1 MiB.
pub free_entry : MmapEntry → Pmm → Pmm
free_entry entry m =
    if entry.base_high == 0 && entry.kind == mmap_available
    then if ltb entry.base_low mebibyte
      then if ltb mebibyte (add32 entry.base_low entry.length_low)
        then mark_region_free mebibyte (sub32 entry.length_low (mebibyte - entry.base_low)) m
        else m
      else mark_region_free entry.base_low entry.length_low m
    else m

pub free_entries : List MmapEntry → Pmm → Pmm
free_entries [] m = m
free_entries (entry ∷ entries) m = free_entries entries (free_entry entry m)

pub free_available : BootInfo → Pmm → Pmm
free_available info m =
    if info.has_mmap
    then free_entries info.mmap m
    else mark_region_free mebibyte (sub32 (total_memory_bytes info) mebibyte) m

-- Step 5: the kernel and the bitmap, which starts at `kernel_end` rounded up to 16, and page 0.
pub protected_size : ℕ → ℕ → ℕ
protected_size kernel_end bitmap_size =
    sub32 (add32 (add32 ((kernel_end + 15) / 16 * 16) bitmap_size) page_size) mebibyte

pub reserve_page_zero : Pmm → Pmm
reserve_page_zero m = if test_page m 0 then m else use_page m 0

-- Steps 5 and 6, the last one the user-overlay window [4 MiB, 8 MiB).
pub reserve : ℕ → ℕ → Pmm → Pmm
reserve kernel_end bitmap_size m =
    mark_region_used 0x400000 0x400000
      (reserve_page_zero (mark_region_used mebibyte (protected_size kernel_end bitmap_size) m))

-- `kernel_end` is the linker's symbol.
pub init : ℕ → BootInfo → Pmm
unfolding all_used
init kernel_end info =
    let total = total_memory_bytes info / page_size in
    reserve kernel_end (if total % 8 == 0 then total / 8 else total / 8 + 1)
      (free_available info (all_used total))

all_used-test : (total q : ℕ) → q < total → test_page (all_used total) q ≡ true
unfolding all_used test_page
all_used-test total q h = ground (
  arith,
  get_or-replicate {A = ℕ} (if total % 8 == 0 then total / 8 else total / 8 + 1) (q / 8) 255 0,
  test_bit_ones (q % 8),
)

all_used-IsValid : (total : ℕ) → total * page_size ≤ u32_mod → IsValid (all_used total)
unfolding all_used
all_used-IsValid total small = record {
  covers =
      ground
        (arith, length-replicate {A = ℕ} (if total % 8 == 0 then total / 8 else total / 8 + 1) 255);
  bytes =
      All-replicate IsByte (if total % 8 == 0 then total / 8 else total / 8 + 1) 255 (omega arith);
  small = small;
  counted = sym (count_all total (test_page (all_used total)) (all_used-test total));
}

-- The same pages, and the invariant.
abbrev Keeps : Pmm → Pmm → Type 0
Keeps m m' = IsValid m' × (m'.total_pages ≡ m.total_pages)

free_entry-Keeps : (entry : MmapEntry) (m : Pmm) → IsValid m → Keeps m (free_entry entry m)
unfolding free_entry
free_entry-Keeps entry m v = ground (
  arith,
  mark_region_free-IsValid mebibyte (sub32 entry.length_low (mebibyte - entry.base_low)) m v,
  mark_region_free-IsValid entry.base_low entry.length_low m v,
)

free_entries-Keeps :
    (entries : List MmapEntry) (m : Pmm) → IsValid m → Keeps m (free_entries entries m)
unfolding free_entries
free_entries-Keeps [] m v = (v, refl)
free_entries-Keeps (entry ∷ entries) m v =
    let (v1, s1) = free_entry-Keeps entry m v in
    let (v2, s2) = free_entries-Keeps entries (free_entry entry m) v1 in (v2, s2 ∙ s1)

free_available-Keeps : (info : BootInfo) (m : Pmm) → IsValid m → Keeps m (free_available info m)
unfolding free_available
free_available-Keeps info m v = ground (
  arith,
  free_entries-Keeps info.mmap m v,
  mark_region_free-IsValid mebibyte (sub32 (total_memory_bytes info) mebibyte) m v,
)

reserve_page_zero_lem :
    (m : Pmm)
    → IsValid m
    → 0 < m.total_pages
    → let m' = reserve_page_zero m in
      Keeps m m' × ((q : ℕ) → test_page m' q ≡ (0 == q || test_page m q))
unfolding reserve_page_zero
reserve_page_zero_lem m v some_page = elim (Bool-cases (test_page m 0)) [
  | inl old ↦ rw old ((v, refl), λ q. ground (arith, old))
  | inr new ↦
      let (v', tests, counts, same) = use_page-Uses m 0 v some_page new in
      rw new ((v', same), tests)
]

-- The pages that no allocation may ever hand out: page 0, those with a byte of the kernel, from
-- 1 MiB on, or of the bitmap, which lies behind it at the next multiple of 16, and the user-overlay
-- window [4 MiB, 8 MiB).
abbrev pub Reserved : ℕ → ℕ → ℕ → Type 0
Reserved kernel_end bitmap_size q =
    (q ≡ 0)
    ⊎ ((mebibyte ≤ q * page_size) × (q * page_size < (kernel_end + 15) / 16 * 16 + bitmap_size))
    ⊎ ((0x400000 ≤ q * page_size) × (q * page_size < 0x800000))

reserve_lem :
    (kernel_end bitmap_size : ℕ) (m : Pmm)
    → IsValid m
    → 0 < m.total_pages
    → mebibyte ≤ kernel_end
    → kernel_end + bitmap_size < 2 ^ 31
    → let m' = reserve kernel_end bitmap_size m in
      Keeps m m'
      × ((q : ℕ) → q < m.total_pages → Reserved kernel_end bitmap_size q → test_page m' q ≡ true)
unfolding reserve protected_size
reserve_lem kernel_end bitmap_size m v some_page high low =
    let m1 = mark_region_used mebibyte (protected_size kernel_end bitmap_size) m in
    let (v1, t1, s1) =
      mark_region_used_lem mebibyte (protected_size kernel_end bitmap_size) m v (omega arith) in
    let (k2, t2) = reserve_page_zero_lem m1 v1 (omega arith) in
    let (v3, t3, s3) =
      mark_region_used_lem 0x400000 0x400000 (reserve_page_zero m1) k2.0 (omega arith) in
    ((v3, s3 ∙ k2.1 ∙ s1), λ q lt r. ground (arith, t1 q, t2 q, t3 q, kernel_bytes))
  where
    kernel_bytes :
        mebibyte + protected_size kernel_end bitmap_size
        ≡ (kernel_end + 15) / 16 * 16 + bitmap_size + page_size
    kernel_bytes = omega (arith, high, low)

total_memory_bytes-lt : (info : BootInfo) → total_memory_bytes info < u32_mod
unfolding total_memory_bytes
total_memory_bytes-lt info = omega arith

-- After `pmm_init`, if there is any memory, the bitmap is valid, covers the memory that the boot
-- loader reported, and page 0, the pages of the kernel and of the bitmap, and the user-overlay window
-- are in use, whatever the memory map says. The kernel ends at 1 MiB or above and, with the bitmap,
-- below 2 GiB.
pub init-Reserved :
    (kernel_end : ℕ) (info : BootInfo)
    → let total = total_memory_bytes info / page_size in
      let bitmap_size = if total % 8 == 0 then total / 8 else total / 8 + 1 in
      let m = init kernel_end info in
      0 < total
      → mebibyte ≤ kernel_end
      → kernel_end + bitmap_size < 2 ^ 31
      → IsValid m
        × (m.total_pages ≡ total)
        × ((q : ℕ) → q < total → Reserved kernel_end bitmap_size q → test_page m q ≡ true)
unfolding init all_used
init-Reserved kernel_end info some_page high low =
    let total = total_memory_bytes info / page_size in
    let bitmap_size : ℕ = if total % 8 == 0 then total / 8 else total / 8 + 1 in
    let v0 = all_used-IsValid total (omega (arith, total_memory_bytes-lt info)) in
    let (v1, s1) = free_available-Keeps info (all_used total) v0 in
    let (k2, t2) =
      reserve_lem kernel_end bitmap_size (free_available info (all_used total)) v1 (omega arith)
        high low in
    (k2.0, k2.1 ∙ s1, λ q lt r. t2 q (omega arith) r)
