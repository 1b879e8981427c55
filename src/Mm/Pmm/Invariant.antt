-- ===== src/Mm/Pmm/Invariant.antt =====
-- The invariant of the page allocator, and that every function of kernel/mm/pmm.c keeps it.
use scarlett_os.Base.{ℕ, ◌+◌, ◌≤◌, ◌<◌, ◌≡◌, refl, true, false, arith}
use scarlett_os.Mm.Pmm.Bitmap.{
  bitmap_set, bitmap_clear, bitmap_test, IsBytes, count_free, count_free-le, bitmap_set-IsBytes,
  bitmap_clear-IsBytes, bitmap_test-bitmap_set, bitmap_test-bitmap_clear, count_free-bitmap_set,
  count_free-bitmap_clear,
}
use scarlett_os.Mm.Pmm.{Pmm, max_pages, take_page, take_page_low}

-- The statistics count the bits, a page past `total_pages` is never free, and a reference count
-- fits 16 bits.
pub record WellFormed (s : Pmm) : Type 0 where
  pub bytes : IsBytes s.page_bitmap
  pub small : s.total_pages ≤ max_pages
  pub counted : s.free_pages ≡ count_free s.page_bitmap s.total_pages
  pub shared : s.free_pages + s.used_pages ≡ s.total_pages
  pub beyond : (p : ℕ) → s.total_pages ≤ p → bitmap_test s.page_bitmap p ≡ true
  pub counts : (p : ℕ) → s.page_refcount p ≤ 65535

module _ {s : Pmm} (v : WellFormed s) (p : ℕ) where
  pub clear-lt : bitmap_test s.page_bitmap p ≡ false → p < s.total_pages
  clear-lt clear = ground (arith, v.beyond p)

  pub free_pages_pos : bitmap_test s.page_bitmap p ≡ false → 0 < s.free_pages
  free_pages_pos clear =
      let below = clear-lt clear in
      omega
        (arith, v.counted, count_free-bitmap_set s.page_bitmap p v.bytes s.total_pages below clear)

  pub used_pages_pos : p < s.total_pages → bitmap_test s.page_bitmap p ≡ true → 0 < s.used_pages
  used_pages_pos below set = omega (
    arith,
    v.counted,
    v.shared,
    count_free-bitmap_clear s.page_bitmap p v.bytes s.total_pages below set,
    count_free-le (bitmap_clear s.page_bitmap p) s.total_pages,
  )

  -- Whatever takes one free page and counts it keeps the invariant.
  pub set-WellFormed :
      (t : Pmm)
      → bitmap_test s.page_bitmap p ≡ false
      → t.page_bitmap ≡ bitmap_set s.page_bitmap p
      → t.total_pages ≡ s.total_pages
      → t.free_pages + 1 ≡ s.free_pages
      → t.used_pages ≡ s.used_pages + 1
      → ((q : ℕ) → t.page_refcount q ≤ 65535)
      → WellFormed t
  set-WellFormed t clear bm total free used counts =
      let below = clear-lt clear in
      let count = count_free-bitmap_set s.page_bitmap p v.bytes s.total_pages below clear in
      record {
        bytes = λ i. rw bm (bitmap_set-IsBytes s.page_bitmap p v.bytes i);
        small = omega (arith, v.small);
        counted = rw (bm, total) (omega (arith, v.counted));
        shared = omega (arith, v.shared);
        beyond = λ q h.
            rw (bm, bitmap_test-bitmap_set s.page_bitmap p q v.bytes)
              (ground (arith, v.beyond q, total));
        counts = counts;
      }

  -- Whatever gives one page in use back and counts it keeps the invariant.
  pub clear-WellFormed :
      (t : Pmm)
      → p < s.total_pages
      → bitmap_test s.page_bitmap p ≡ true
      → t.page_bitmap ≡ bitmap_clear s.page_bitmap p
      → t.total_pages ≡ s.total_pages
      → t.free_pages ≡ s.free_pages + 1
      → t.used_pages + 1 ≡ s.used_pages
      → ((q : ℕ) → t.page_refcount q ≤ 65535)
      → WellFormed t
  clear-WellFormed t below set bm total free used counts =
      let count = count_free-bitmap_clear s.page_bitmap p v.bytes s.total_pages below set in
      record {
        bytes = λ i. rw bm (bitmap_clear-IsBytes s.page_bitmap p v.bytes i);
        small = omega (arith, v.small);
        counted = rw (bm, total) (omega (arith, v.counted));
        shared = omega (arith, v.shared);
        beyond = λ q h.
            rw (bm, bitmap_test-bitmap_clear s.page_bitmap p q v.bytes)
              (ground (arith, v.beyond q, total));
        counts = counts;
      }

  pub take_page-WellFormed : bitmap_test s.page_bitmap p ≡ false → WellFormed (take_page p s)
  unfolding take_page
  take_page-WellFormed clear =
      let pos = free_pages_pos clear in
      set-WellFormed _ clear refl refl (omega (arith, v.shared, v.small))
        (omega (arith, v.shared, v.small)) (λ q. ground (arith, v.counts q))

  pub take_page_low-WellFormed :
      bitmap_test s.page_bitmap p ≡ false → WellFormed (take_page_low p s)
  unfolding take_page_low
  take_page_low-WellFormed clear =
      let pos = free_pages_pos clear in
      set-WellFormed _ clear refl refl (omega (arith, v.shared, v.small))
        (omega (arith, v.shared, v.small)) v.counts
