-- ===== src/Mm/Pmm/Steps.antt =====
-- Freeing, counting and marking keep the invariant of the page allocator.
use scarlett_os.Base.{
  ℕ, zero, suc, ◌+◌, ◌*◌, ◌≤◌, ◌<◌, ◌≡◌, refl, inl, inr, Bool-cases, true, false, arith, ltb, ◌==◌,
  if◌then◌else◌, not, leb, ◌&&◌,
}
use scarlett_os.Mm.Pmm.Bitmap.{bitmap_test, bitmap_test-bitmap_set}
use scarlett_os.Mm.Pmm.Invariant.{
  WellFormed, free_pages_pos, used_pages_pos, set-WellFormed, clear-WellFormed,
  take_page_low-WellFormed,
}
use scarlett_os.Mm.Pmm.{
  Pmm, word, paddr_to_pfn, is_aligned, mark_used_page, mark_free_page, each_page, mark_used,
  mark_free, drop_reference, lowered, free_page, ref_page, free_from, free_pages, take_run,
  take_page_low,
}

module _ {s : Pmm} (v : WellFormed s) (p : ℕ) where
  pub mark_used_page-WellFormed : WellFormed (mark_used_page p s)
  unfolding mark_used_page
  mark_used_page-WellFormed =
      elim (Bool-cases (ltb p s.total_pages && not (bitmap_test s.page_bitmap p))) [
        | inl new ↦
            let clear : bitmap_test s.page_bitmap p ≡ false = ground arith in
            let pos = free_pages_pos v p clear in
            rw new (
              set-WellFormed v p _ clear refl refl (ground (arith, v.shared, v.small))
                (ground (arith, v.shared, v.small)) v.counts)
        | inr old ↦ rw old v
      ]

  pub mark_free_page-WellFormed : WellFormed (mark_free_page p s)
  unfolding mark_free_page
  mark_free_page-WellFormed =
      elim (Bool-cases (ltb p s.total_pages && bitmap_test s.page_bitmap p)) [
        | inl new ↦
            let set : bitmap_test s.page_bitmap p ≡ true = ground arith in
            let below : p < s.total_pages = ground arith in
            let pos = used_pages_pos v p below set in
            rw new (
              clear-WellFormed v p _ below set refl refl (ground (arith, v.shared, v.small))
                (ground (arith, v.shared, v.small)) v.counts)
        | inr old ↦ rw old v
      ]

  pub drop_reference-WellFormed :
      p < s.total_pages → bitmap_test s.page_bitmap p ≡ true → WellFormed (drop_reference p s)
  unfolding drop_reference
  drop_reference-WellFormed below set = elim (Bool-cases (leb (s.page_refcount p) 1)) [
    | inl last ↦
        let pos = used_pages_pos v p below set in
        let zero_count : (lowered (s.page_refcount p) == 0) ≡ true = ground arith in
        rw zero_count (
          clear-WellFormed v p _ below set refl refl (omega (arith, v.shared, v.small))
            (omega (arith, v.shared, v.small)) (λ q. ground (arith, v.counts q, v.counts p)))
    | inr more ↦
        let some_count : (lowered (s.page_refcount p) == 0) ≡ false = ground arith in
        rw some_count (record {
          bytes = v.bytes;
          small = v.small;
          counted = v.counted;
          shared = v.shared;
          beyond = v.beyond;
          counts = λ q. ground (arith, v.counts q, v.counts p);
        })
  ]

-- `pmm_free_page` keeps the invariant, whatever address it is given.
pub free_page-WellFormed : {s : Pmm} (page : ℕ) → WellFormed s → WellFormed (free_page page s)
unfolding free_page
free_page-WellFormed {s} page v = elim (Bool-cases (page == 0)) [
  | inl e ↦ rw e v
  | inr n ↦ rw n (elim (Bool-cases (is_aligned page)) [
    | inr e ↦ rw e v
    | inl a ↦ rw a (elim (Bool-cases (leb s.total_pages (paddr_to_pfn page))) [
      | inl e ↦ rw e v
      | inr b ↦ rw b (elim (Bool-cases (bitmap_test s.page_bitmap (paddr_to_pfn page))) [
        | inr e ↦ rw e v
        | inl used ↦ rw used (drop_reference-WellFormed v (paddr_to_pfn page) (ground arith) used)
      ])
    ])
  ])
]

-- `pmm_ref_page` keeps the invariant: the count stops at 65535.
pub ref_page-WellFormed : {s : Pmm} (page : ℕ) → WellFormed s → WellFormed (ref_page page s)
unfolding ref_page
ref_page-WellFormed {s} page v = elim (Bool-cases (page == 0)) [
  | inl e ↦ rw e v
  | inr n ↦ rw n (elim (Bool-cases (leb s.total_pages (paddr_to_pfn page))) [
    | inl e ↦ rw e v
    | inr b ↦ rw b (elim (Bool-cases (ltb (s.page_refcount (paddr_to_pfn page)) 65535)) [
      | inr e ↦ rw e v
      | inl room ↦ rw room (record {
        bytes = v.bytes;
        small = v.small;
        counted = v.counted;
        shared = v.shared;
        beyond = v.beyond;
        counts = λ q. ground (arith, v.counts q);
      })
    ])
  ])
]

pub free_from-WellFormed :
    (n i base : ℕ) {s : Pmm} → WellFormed s → WellFormed (free_from n i base s)
unfolding free_from
free_from-WellFormed zero i base v = v
free_from-WellFormed (suc n) i base v =
    free_from-WellFormed n (i + 1) base (free_page-WellFormed (word (base + i * 4096)) v)

pub free_pages-WellFormed :
    (base count : ℕ) {s : Pmm} → WellFormed s → WellFormed (free_pages base count s)
unfolding free_pages
free_pages-WellFormed base count v = free_from-WellFormed count 0 base v

-- A loop over pages keeps what its body keeps.
pub each_page_inv :
    {body : ℕ → Pmm → Pmm}
    → ((p : ℕ) (s : Pmm) → WellFormed s → WellFormed (body p s))
    → (n p : ℕ) {s : Pmm} → WellFormed s
    → WellFormed (each_page body n p s)
unfolding each_page
each_page_inv keep zero p v = v
each_page_inv keep (suc n) p {s} v = each_page_inv keep n (word (p + 1)) (keep p s v)

pub mark_used-WellFormed :
    (base count : ℕ) {s : Pmm} → WellFormed s → WellFormed (mark_used base count s)
unfolding mark_used
mark_used-WellFormed base count v =
    elim (Bool-cases (ltb (word (paddr_to_pfn base + count)) (paddr_to_pfn base))) [
      | inl wraps ↦ rw wraps v
      | inr fits ↦
          rw fits
            (each_page_inv (λ p s w. mark_used_page-WellFormed w p) count (paddr_to_pfn base) v)
    ]

pub mark_free-WellFormed :
    (base count : ℕ) {s : Pmm} → WellFormed s → WellFormed (mark_free base count s)
unfolding mark_free
mark_free-WellFormed base count v =
    elim (Bool-cases (ltb (word (paddr_to_pfn base + count)) (paddr_to_pfn base))) [
      | inl wraps ↦ rw wraps v
      | inr fits ↦
          rw fits
            (each_page_inv (λ p s w. mark_free_page-WellFormed w p) count (paddr_to_pfn base) v)
    ]

test_take_page_low :
    {s : Pmm} (v : WellFormed s) (p q : ℕ)
    → bitmap_test (take_page_low p s).page_bitmap q
      ≡ (if p == q then true else bitmap_test s.page_bitmap q)
unfolding take_page_low
test_take_page_low {s} v p q = bitmap_test-bitmap_set s.page_bitmap p q v.bytes

pub take_run-WellFormed :
    (n p : ℕ) {s : Pmm}
    → WellFormed s
    → ((q : ℕ) → p ≤ q → q < p + n → bitmap_test s.page_bitmap q ≡ false)
    → WellFormed (take_run n p s)
unfolding take_run
take_run-WellFormed zero p v clear = v
take_run-WellFormed (suc n) p v clear =
    let here = clear p (omega arith) (omega arith) in
    take_run-WellFormed n (p + 1) (take_page_low-WellFormed v p here)
      (λ q lo hi. rw (test_take_page_low v p q) (ground (arith, clear q)))
