-- ===== src/Mm/Pmm.antt =====
-- kernel/mm/pmm.c: the physical memory manager. The file's static variables are the fields of
-- `Pmm`; a function that changes them returns the new state beside its result. Messages to the
-- console are left out.
pub mod Bitmap
pub mod Invariant
pub mod Steps
pub mod Search
pub mod Alloc
pub mod Release
pub mod Boot
pub mod Calls
mod Tests
use scarlett_os.Base.{
  ℕ, zero, suc, ◌+◌, ◌-◌, ◌*◌, ◌/◌, ◌%◌, ◌^◌, Bool, true, false, ◌&&◌, not, Option, none, some,
  List, [], ◌∷◌, ltb, leb, ◌==◌, if◌then◌else◌, min,
}
use scarlett_os.Base.Update.{update}
use scarlett_os.Mm.Pmm.Bitmap.{PageBitmap, bitmap_set, bitmap_clear, bitmap_test}

-- `size_t`, `paddr_t` and `pfn_t` have 64 bits.
abbrev pub word : ℕ → ℕ
word n = n % 2 ^ 64

-- `x - y` on such a word.
abbrev pub sub_word : ℕ → ℕ → ℕ
sub_word x y = (x + 2 ^ 64 - y) % 2 ^ 64

abbrev pub page_size : ℕ
page_size = 4096

-- `MAX_PAGES`, 16 GB of pages.
abbrev pub max_pages : ℕ
max_pages = 16 * 1024 * 256

pub record Pmm : Type 0 where
  pub page_bitmap : PageBitmap
  pub page_refcount : ℕ → ℕ
  pub total_pages : ℕ
  pub free_pages : ℕ
  pub used_pages : ℕ
  pub highest_addr : ℕ
  pub last_allocated : ℕ

-- `memory_region_t`, with the type as its number.
pub record Region : Type 0 where
  pub base : ℕ
  pub size : ℕ
  pub kind : ℕ

-- `MEMORY_TYPE_CONVENTIONAL`
abbrev pub conventional : ℕ
conventional = 7

abbrev pub paddr_to_pfn : ℕ → ℕ
paddr_to_pfn addr = addr / 4096

abbrev pub pfn_to_paddr : ℕ → ℕ
pfn_to_paddr pfn = word (pfn * 4096)

-- `ALIGN_UP(x, PAGE_SIZE)`, `ALIGN_DOWN(x, PAGE_SIZE)`, `IS_ALIGNED(x, PAGE_SIZE)`
abbrev pub align_up : ℕ → ℕ
align_up x = word (x + 4095) / 4096 * 4096

abbrev pub align_down : ℕ → ℕ
align_down x = x / 4096 * 4096

abbrev pub is_aligned : ℕ → Bool
is_aligned x = x % 4096 == 0

-- The body of the loop of `pmm_mark_used` for page `p`.
unfoldable pub mark_used_page : ℕ → Pmm → Pmm
mark_used_page p s =
    if ltb p s.total_pages && not (bitmap_test s.page_bitmap p)
    then record s {
      page_bitmap = bitmap_set s.page_bitmap p;
      free_pages = if ltb 0 s.free_pages then s.free_pages - 1 else s.free_pages;
      used_pages = word (s.used_pages + 1);
    }
    else s

-- The body of the loop of `pmm_mark_free` for page `p`.
unfoldable pub mark_free_page : ℕ → Pmm → Pmm
mark_free_page p s =
    if ltb p s.total_pages && bitmap_test s.page_bitmap p
    then record s {
      page_bitmap = bitmap_clear s.page_bitmap p;
      free_pages = word (s.free_pages + 1);
      used_pages = if ltb 0 s.used_pages then s.used_pages - 1 else s.used_pages;
    }
    else s

-- `for (i = 0; i < count; i++)` over the pages from `p` on: the rounds left come first.
unfoldable pub each_page : (ℕ → Pmm → Pmm) → ℕ → ℕ → Pmm → Pmm
each_page body zero p s = s
each_page body (suc n) p s = each_page body n (word (p + 1)) (body p s)

-- `pmm_mark_used`
unfoldable pub mark_used : ℕ → ℕ → Pmm → Pmm
mark_used base count s =
    if ltb (word (paddr_to_pfn base + count)) (paddr_to_pfn base)
    then s
    else each_page mark_used_page count (paddr_to_pfn base) s

-- `pmm_mark_free`
unfoldable pub mark_free : ℕ → ℕ → Pmm → Pmm
mark_free base count s =
    if ltb (word (paddr_to_pfn base + count)) (paddr_to_pfn base)
    then s
    else each_page mark_free_page count (paddr_to_pfn base) s

-- The first loop of `pmm_init`: the end of the highest conventional region.
unfoldable pub find_highest : List Region → ℕ → ℕ
find_highest [] high = high
find_highest (r ∷ rs) high = find_highest rs (
    if (r.kind == conventional) && ltb high (word (r.base + r.size))
    then word (r.base + r.size)
    else high)

-- One round of the second loop of `pmm_init`.
unfoldable pub free_region : Region → Pmm → Pmm
free_region r s =
    if r.kind == conventional
    then (if ltb (align_up r.base) (align_down (word (r.base + r.size)))
        then mark_free (align_up r.base)
            ((align_down (word (r.base + r.size)) - align_up r.base) / 4096) s
        else s)
    else s

unfoldable pub free_regions : List Region → Pmm → Pmm
free_regions [] s = s
free_regions (r ∷ rs) s = free_regions rs (free_region r s)

-- The state of `pmm_init` before the regions are freed.
unfoldable pub reset : List Region → Pmm → Pmm
unfolding find_highest
reset regions s = record s {
  page_bitmap = λ i. 255;
  page_refcount = λ i. 0;
  highest_addr = find_highest regions s.highest_addr;
  total_pages =
      if ltb max_pages (paddr_to_pfn (find_highest regions s.highest_addr))
      then max_pages
      else paddr_to_pfn (find_highest regions s.highest_addr);
  free_pages = 0;
  used_pages =
      if ltb max_pages (paddr_to_pfn (find_highest regions s.highest_addr))
      then max_pages
      else paddr_to_pfn (find_highest regions s.highest_addr);
}

-- `pmm_init`. The regions are the first `memory_map_count` of the boot information;
-- the linker gives `kernel_start` and `kernel_end`, and `KERNEL_VMA_BASE` is 0.
unfoldable pub init : List Region → ℕ → ℕ → Pmm → Pmm
init regions kernel_start kernel_end s =
    let s₁ = free_regions regions (reset regions s) in
    let kernel_pages = word (sub_word kernel_end kernel_start + 4095) / 4096 in
    let s₂ = mark_used kernel_start kernel_pages s₁ in mark_used 0 512 s₂

-- The search loop of the allocators: the first clear bit from `pfn` on, in `n` rounds.
unfoldable pub find_clear : ℕ → ℕ → PageBitmap → Option ℕ
find_clear zero pfn bm = none
find_clear (suc n) pfn bm =
    let rest = find_clear n (pfn + 1) bm in if not (bitmap_test bm pfn) then some pfn else rest

-- What both loops of `pmm_alloc_page` do with the page that they find.
unfoldable pub take_page : ℕ → Pmm → Pmm
take_page pfn s = record s {
  page_bitmap = bitmap_set s.page_bitmap pfn;
  page_refcount = update s.page_refcount pfn 1;
  free_pages = sub_word s.free_pages 1;
  used_pages = word (s.used_pages + 1);
  last_allocated = pfn + 1;
}

-- The same for `pmm_alloc_page_low`, which leaves the reference count alone.
unfoldable pub take_page_low : ℕ → Pmm → Pmm
take_page_low pfn s = record s {
  page_bitmap = bitmap_set s.page_bitmap pfn;
  free_pages = sub_word s.free_pages 1;
  used_pages = word (s.used_pages + 1);
}

-- Page 512 stands at 2 MB, page 256 at 1 MB.
unfoldable pub search_pages : ℕ → PageBitmap → Option ℕ
search_pages end bm = elim (find_clear (end - 512) 512 bm) [
  | some pfn ↦ some pfn
  | none ↦ find_clear (512 - 256) 256 bm
]

-- `pmm_alloc_page`; address 0 is the failure.
unfoldable pub alloc_page : Pmm → ℕ × Pmm
alloc_page s = elim (search_pages s.total_pages s.page_bitmap) [
  | none ↦ (0, s)
  | some pfn ↦ (pfn_to_paddr pfn, take_page pfn s)
]

-- `pmm_alloc_page_low`: page 32768 stands at 128 MB.
unfoldable pub alloc_page_low : Pmm → ℕ × Pmm
alloc_page_low s = elim (search_pages (min 32768 s.total_pages) s.page_bitmap) [
  | none ↦ (0, s)
  | some pfn ↦ (pfn_to_paddr pfn, take_page_low pfn s)
]

-- `if (page_refcount[pfn] > 0) page_refcount[pfn]--`
abbrev pub lowered : ℕ → ℕ
lowered n = if ltb 0 n then n - 1 else n

-- The last two statements of `pmm_free_page`.
unfoldable pub drop_reference : ℕ → Pmm → Pmm
drop_reference pfn s =
    let s' = record s {
      page_refcount = update s.page_refcount pfn (lowered (s.page_refcount pfn));
    } in
    if lowered (s.page_refcount pfn) == 0
    then record s' {
      page_bitmap = bitmap_clear s.page_bitmap pfn;
      free_pages = word (s.free_pages + 1);
      used_pages = sub_word s.used_pages 1;
    }
    else s'

-- `pmm_free_page`
unfoldable pub free_page : ℕ → Pmm → Pmm
unfolding drop_reference
free_page page s =
    if page == 0
    then s
    else if not (is_aligned page)
    then s
    else if leb s.total_pages (paddr_to_pfn page)
    then s
    else if not (bitmap_test s.page_bitmap (paddr_to_pfn page))
    then s
    else drop_reference (paddr_to_pfn page) s

-- `pmm_ref_page`
unfoldable pub ref_page : ℕ → Pmm → Pmm
ref_page page s =
    if page == 0
    then s
    else if leb s.total_pages (paddr_to_pfn page)
    then s
    else if ltb (s.page_refcount (paddr_to_pfn page)) 65535
    then record s {
      page_refcount =
          update s.page_refcount (paddr_to_pfn page) (s.page_refcount (paddr_to_pfn page) + 1);
    }
    else s

-- `pmm_get_refcount`
unfoldable pub get_refcount : ℕ → Pmm → ℕ
get_refcount page s =
    if page == 0
    then 0
    else if leb s.total_pages (paddr_to_pfn page)
    then 0
    else s.page_refcount (paddr_to_pfn page)

-- The search loop of `pmm_alloc_pages`: `n` rounds are left, `start` and `found` are its variables.
unfoldable pub find_run : ℕ → ℕ → ℕ → ℕ → ℕ → PageBitmap → Option ℕ
find_run zero pfn count start found bm = none
find_run (suc n) pfn count start found bm =
    let start' = (if found == 0 then pfn else start) in
    let used = find_run n (pfn + 1) count start 0 bm in
    let free = find_run n (pfn + 1) count start' (found + 1) bm in
    if bitmap_test bm pfn then used else if found + 1 == count then some start' else free

-- The loop that marks what was found: `n` pages from `p` on, each as `pmm_alloc_page_low` does.
unfoldable pub take_run : ℕ → ℕ → Pmm → Pmm
take_run zero p s = s
take_run (suc n) p s = take_run n (p + 1) (take_page_low p s)

-- `pmm_alloc_pages`
unfoldable pub alloc_pages : ℕ → Pmm → ℕ × Pmm
alloc_pages count s =
    if count == 0
    then (0, s)
    else if count == 1
    then alloc_page s
    else elim (find_run s.total_pages 0 count 0 0 s.page_bitmap) [
      | none ↦ (0, s)
      | some start ↦ (pfn_to_paddr start, take_run count start s)
    ]

-- `pmm_free_pages`, from round `i` on.
unfoldable pub free_from : ℕ → ℕ → ℕ → Pmm → Pmm
free_from zero i base s = s
free_from (suc n) i base s = free_from n (i + 1) base (free_page (word (base + i * 4096)) s)

unfoldable pub free_pages : ℕ → ℕ → Pmm → Pmm
unfolding free_from
free_pages base count s = free_from count 0 base s
