-- ===== src/Mm/Pmm/Alloc.antt =====
-- What the allocating functions of kernel/mm/pmm.c return, and what they change.
use scarlett_os.Base.{
  ℕ, zero, suc, ◌+◌, ◌-◌, ◌*◌, ◌≤◌, ◌<◌, ◌≡◌, refl, ◌∙◌, ◌==◌, min, ◌⊎◌, inl, inr, Option-cases,
  true, false, none, some, arith, ltb, if◌then◌else◌, leb, ◌&&◌,
}
use scarlett_os.Mm.Pmm.Bitmap.{PageBitmap, bitmap_test, bitmap_test-bitmap_set}
use scarlett_os.Mm.Pmm.{
  Pmm, page_size, pfn_to_paddr, find_clear, find_run, search_pages, take_page, take_page_low,
  take_run, alloc_page, alloc_page_low, alloc_pages,
}
use scarlett_os.Mm.Pmm.Invariant.{
  WellFormed, clear-lt, free_pages_pos, take_page-WellFormed, take_page_low-WellFormed,
}
use scarlett_os.Mm.Pmm.Search.{
  AllUsed, AllFree, find_clear-some, find_clear-none, find_run-some, find_run-none, Scanning-start,
}

-- `page` is the address of `n` pages that were free in `s` and are in use in `t`; no other page
-- changes, and the count of free pages falls by `n`.
pub record Takes (s : Pmm) (p n page : ℕ) (t : Pmm) : Type 0 where
  pub address : page ≡ p * page_size
  pub fits : p + n ≤ s.total_pages
  pub was_free : AllFree s.page_bitmap p (p + n)
  pub now :
      (q : ℕ)
      → bitmap_test t.page_bitmap q
        ≡ (if leb p q && ltb q (p + n) then true else bitmap_test s.page_bitmap q)
  pub counted : t.free_pages + n ≡ s.free_pages
  pub same_total : t.total_pages ≡ s.total_pages
  pub valid : WellFormed t

module _ (bm : PageBitmap) (end : ℕ) where
  pub search_some : {p : ℕ} → search_pages end bm ≡ some p → (256 ≤ p) × (bitmap_test bm p ≡ false)
  unfolding search_pages
  search_some {p} h = elim (Option-cases (find_clear (end - 512) 512 bm)) [
    | inl low ↦ let (lo, hi, clear, _) = find_clear-some bm 256 256 p (ground arith) in (lo, clear)
    | inr (q, found) ↦
        let e : q ≡ p = ground arith in
        let (lo, hi, clear, _) = find_clear-some bm (end - 512) 512 q found in
        (omega arith, rw (← e) clear)
  ]

  pub search_lt : {p : ℕ} → search_pages end bm ≡ some p → end ≤ 32768 → p < 32768
  unfolding search_pages
  search_lt {p} h small = elim (Option-cases (find_clear (end - 512) 512 bm)) [
    | inl low ↦ let (lo, hi, clear, _) = find_clear-some bm 256 256 p (ground arith) in omega arith
    | inr (q, found) ↦
        let e : q ≡ p = ground arith in
        let (lo, hi, clear, _) = find_clear-some bm (end - 512) 512 q found in omega arith
  ]

  pub search_none : search_pages end bm ≡ none → AllUsed bm 256 end
  unfolding search_pages
  search_none h q lo hi = elim (Option-cases (find_clear (end - 512) 512 bm)) [
    | inr (p, found) ↦ absurd (ground arith)
    | inl high ↦ ground (
      arith,
      find_clear-none bm 256 256 (ground arith) q,
      find_clear-none bm (end - 512) 512 high q,
    )
  ]

-- One page, as every allocator takes it.
module _ {s : Pmm} (v : WellFormed s) (p : ℕ) (clear : bitmap_test s.page_bitmap p ≡ false) where
  pub take_page-Takes : Takes s p 1 (pfn_to_paddr p) (take_page p s)
  unfolding take_page
  take_page-Takes =
      let below = clear-lt v p clear in
      let pos = free_pages_pos v p clear in
      record {
        address = omega (arith, v.small);
        fits = omega arith;
        was_free = λ q lo hi. let e : p ≡ q = omega arith in rw (← e) clear;
        now = λ q. rw (bitmap_test-bitmap_set s.page_bitmap p q v.bytes) (ground arith);
        counted = omega (arith, v.shared, v.small);
        same_total = refl;
        valid = take_page-WellFormed v p clear;
      }

  pub take_page_low-Takes : Takes s p 1 (pfn_to_paddr p) (take_page_low p s)
  unfolding take_page_low
  take_page_low-Takes =
      let below = clear-lt v p clear in
      let pos = free_pages_pos v p clear in
      record {
        address = omega (arith, v.small);
        fits = omega arith;
        was_free = λ q lo hi. let e : p ≡ q = omega arith in rw (← e) clear;
        now = λ q. rw (bitmap_test-bitmap_set s.page_bitmap p q v.bytes) (ground arith);
        counted = omega (arith, v.shared, v.small);
        same_total = refl;
        valid = take_page_low-WellFormed v p clear;
      }

-- One page from 1 MB on was taken and its reference count set to 1; or there was none.
abbrev pub PageOutcome : Pmm → ℕ × Pmm → Type 0
PageOutcome s r =
    ((r ≡ (0, s)) × AllUsed s.page_bitmap 256 s.total_pages)
    ⊎ ((p : ℕ) × (256 ≤ p) × Takes s p 1 r.0 r.1 × (r.1.page_refcount p ≡ 1))

-- The same below 128 MB, with the reference counts left alone.
abbrev pub LowOutcome : Pmm → ℕ × Pmm → Type 0
LowOutcome s r =
    ((r ≡ (0, s)) × AllUsed s.page_bitmap 256 (min 32768 s.total_pages))
    ⊎ ((p : ℕ) × (256 ≤ p)
        × (p < 32768)
        × Takes s p 1 r.0 r.1
        × (r.1.page_refcount ≡ s.page_refcount))

-- `count` adjacent pages were taken; or there were not as many in a row.
abbrev pub RunOutcome : ℕ → Pmm → ℕ × Pmm → Type 0
RunOutcome count s r =
    ((r ≡ (0, s)) × ((p : ℕ) → p + count ≤ s.total_pages → ¬ AllFree s.page_bitmap p (p + count)))
    ⊎ ((p : ℕ) × Takes s p count r.0 r.1)

-- `pmm_alloc_page` returns the address of a page from 1 MB on that was free, marks exactly that
-- page, gives it the reference count 1 and keeps the invariant; or it returns 0, changes nothing,
-- and then no page from 1 MB on is free.
pub alloc_page_lem : {s : Pmm} → WellFormed s → PageOutcome s (alloc_page s)
unfolding alloc_page
alloc_page_lem {s} v = elim (Option-cases (search_pages s.total_pages s.page_bitmap)) [
  | inl full ↦ inl (rw (full, alloc_page), search_none s.page_bitmap s.total_pages full)
  | inr (p, found) ↦
      let (lo, clear) = search_some s.page_bitmap s.total_pages found in
      inr (
        p,
        lo,
        rw (found, alloc_page) (take_page-Takes v p clear),
        rw (found, alloc_page) (unfold take_page in ground arith),
      )
]

-- `pmm_alloc_page_low` returns the address of a page between 1 MB and 128 MB that was free, marks
-- exactly that page, leaves every reference count alone and keeps the invariant; or it returns 0,
-- changes nothing, and then no page from 1 MB up to 128 MB is free.
pub alloc_page_low_lem : {s : Pmm} → WellFormed s → LowOutcome s (alloc_page_low s)
unfolding alloc_page_low
alloc_page_low_lem {s} v =
    elim (Option-cases (search_pages (min 32768 s.total_pages) s.page_bitmap)) [
      | inl full ↦
          inl (rw (full, alloc_page_low), search_none s.page_bitmap (min 32768 s.total_pages) full)
      | inr (p, found) ↦
          let (lo, clear) = search_some s.page_bitmap (min 32768 s.total_pages) found in
          inr (
            p,
            lo,
            search_lt s.page_bitmap (min 32768 s.total_pages) found (omega arith),
            rw (found, alloc_page_low) (take_page_low-Takes v p clear),
            rw (found, alloc_page_low) (unfold take_page_low in refl),
          )
    ]

-- Marking a run of free pages, page by page.
take_run-Takes :
    (n p : ℕ) {s : Pmm}
    → WellFormed s
    → p + n ≤ s.total_pages
    → AllFree s.page_bitmap p (p + n)
    → Takes s p n (p * page_size) (take_run n p s)
unfolding take_run
take_run-Takes zero p v fits free = record {
  address = refl;
  fits = fits;
  was_free = free;
  now = λ q. ground arith;
  counted = omega arith;
  same_total = refl;
  valid = v;
}
take_run-Takes (suc n) p {s} v fits free =
    let clear = free p (omega arith) (omega arith) in
    let one = take_page_low-Takes v p clear in
    let rest =
      take_run-Takes n (p + 1) {s = take_page_low p s} one.valid (omega (arith, one.same_total))
        (λ q lo hi. rw one.now (ground (arith, free q))) in
    record {
      address = refl;
      fits = fits;
      was_free = free;
      now = λ q. rw (rest.now, one.now) (ground arith);
      counted = omega (arith, one.counted, rest.counted);
      same_total = rest.same_total ∙ one.same_total;
      valid = rest.valid;
    }

-- For two pages and more `pmm_alloc_pages` returns the address of that many adjacent pages, all of
-- them free before, marks exactly those and keeps the invariant; or it returns 0, changes nothing,
-- and then no run of that many free pages exists.
pub alloc_pages_lem :
    {s : Pmm} (count : ℕ) → WellFormed s → 2 ≤ count → RunOutcome count s (alloc_pages count s)
unfolding alloc_pages
alloc_pages_lem {s} count v two =
    elim (Option-cases (find_run s.total_pages 0 count 0 0 s.page_bitmap)) [
      | inl full ↦
          let not_zero : (count == 0) ≡ false = ground arith in
          let not_one : (count == 1) ≡ false = ground arith in
          inl (
            rw (not_zero, not_one, full, alloc_pages),
            λ p fits.
                find_run-none s.page_bitmap s.total_pages 0 count 0 0 (omega arith) full p
                  (omega arith) (omega arith),
          )
      | inr (p, found) ↦
          let not_zero : (count == 0) ≡ false = ground arith in
          let not_one : (count == 1) ≡ false = ground arith in
          let (fits, clear) =
            find_run-some s.page_bitmap s.total_pages 0 count 0 0 {st = p}
              (Scanning-start s.page_bitmap) (omega arith) found in
          let all = take_run-Takes count p v (omega arith) clear in
          let small : pfn_to_paddr p ≡ p * page_size = omega (arith, v.small) in
          inr (p, rw (not_zero, not_one, found, small, alloc_pages) all)
    ]
