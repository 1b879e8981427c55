-- ===== src/Mm/Pmm/Boot.antt =====
-- `pmm_init`: the state that the allocator starts from.
use scarlett_os.Base.{
  ℕ, zero, suc, ◌+◌, ◌-◌, ◌*◌, ◌/◌, ◌%◌, ◌^◌, ◌<◌, ◌≡◌, refl, ◌∙◌, ap, inl, inr, Bool-cases, Bool,
  true, false, arith, List, [], ◌∷◌, ltb, leb, ◌==◌, ◌&&◌, ◌||◌, not, if◌then◌else◌,
}
use scarlett_os.Mm.Pmm.Bitmap.{
  bitmap_test, bitmap_test-bitmap_set, bitmap_test-bitmap_clear, count_free,
}
use scarlett_os.Mm.Pmm.{
  Pmm, Region, word, sub_word, align_up, align_down, conventional, paddr_to_pfn, mark_used_page,
  mark_free_page, each_page, mark_used, mark_free, free_region, free_regions, reset, init,
}
use scarlett_os.Mm.Pmm.Invariant.{WellFormed}
use scarlett_os.Mm.Pmm.Steps.{
  mark_used_page-WellFormed, mark_free_page-WellFormed, mark_used-WellFormed, mark_free-WellFormed,
}
use scarlett_os.Base.Bits.{test_bit, every_below, test_of_every_below}

byte_full : (k : ℕ) → k < 8 → test_bit 255 k ≡ true
unfolding test_bit every_below
byte_full k h = test_of_every_below (test_bit 255) 8 h refl

reset-used :
    (regions : List Region) (s : Pmm) (p : ℕ) → bitmap_test (reset regions s).page_bitmap p ≡ true
unfolding reset bitmap_test
reset-used regions s p = byte_full (p % 8) (omega arith)

count_free_of_used :
    (bm : ℕ → ℕ) → ((p : ℕ) → bitmap_test bm p ≡ true) → (n : ℕ) → count_free bm n ≡ 0
unfolding count_free
count_free_of_used bm all zero = refl
count_free_of_used bm all (suc n) = ground (arith, count_free_of_used bm all n, all n)

reset-WellFormed : (regions : List Region) (s : Pmm) → WellFormed (reset regions s)
reset-WellFormed regions s = record {
  bytes = λ i. unfold reset in omega arith;
  small = unfold reset in ground arith;
  counted =
      rw
        (count_free_of_used (reset regions s).page_bitmap (reset-used regions s)
          (reset regions s).total_pages)
        (unfold reset in refl);
  shared = unfold reset in ground arith;
  beyond = λ p h. reset-used regions s p;
  counts = λ p. unfold reset in omega arith;
}

-- Page `q` lies wholly inside the conventional region `r`.
unfoldable pub in_region : ℕ → Region → Bool
in_region q r =
    (r.kind == conventional)
    && (leb (align_up r.base) (q * 4096)
        && leb ((q + 1) * 4096) (align_down (word (r.base + r.size))))

unfoldable pub in_regions : ℕ → List Region → Bool
in_regions q [] = false
in_regions q (r ∷ rs) = in_region q r || in_regions q rs

-- Page `q` is one of the `n` from `p` on.
abbrev pub between : ℕ → ℕ → ℕ → Bool
between p n q = leb p q && ltb q (p + n)

-- A loop over pages, by what its body does to one page.
module _ (body : ℕ → Pmm → Pmm) (b : Bool)
    (keep : (p : ℕ) (s : Pmm) → WellFormed s → WellFormed (body p s))
    (total : (p : ℕ) (s : Pmm) → (body p s).total_pages ≡ s.total_pages)
    (one : (p q : ℕ) (s : Pmm)
      → WellFormed s
      → bitmap_test (body p s).page_bitmap q
        ≡ (if (p == q) && ltb q s.total_pages then b else bitmap_test s.page_bitmap q)) where
  each_page-total : (n p : ℕ) (s : Pmm) → (each_page body n p s).total_pages ≡ s.total_pages
  unfolding each_page
  each_page-total zero p s = refl
  each_page-total (suc n) p s = each_page-total n (word (p + 1)) (body p s) ∙ total p s

  each_page-test :
      (n p q : ℕ) {s : Pmm}
      → WellFormed s
      → p + n < 2 ^ 64
      → bitmap_test (each_page body n p s).page_bitmap q
        ≡ (if between p n q && ltb q s.total_pages then b else bitmap_test s.page_bitmap q)
  unfolding each_page
  each_page-test zero p q v fits = ground arith
  each_page-test (suc n) p q {s} v fits = ground (
    arith,
    each_page-test n (word (p + 1)) q {s = body p s} (keep p s v) (omega arith),
    one p q s v,
    total p s,
  )

mark_used_page-total : (p : ℕ) (s : Pmm) → (mark_used_page p s).total_pages ≡ s.total_pages
unfolding mark_used_page
mark_used_page-total p s = ground arith

mark_free_page-total : (p : ℕ) (s : Pmm) → (mark_free_page p s).total_pages ≡ s.total_pages
unfolding mark_free_page
mark_free_page-total p s = ground arith

mark_used_page-test :
    (p q : ℕ) (s : Pmm)
    → WellFormed s
    → bitmap_test (mark_used_page p s).page_bitmap q
      ≡ (if (p == q) && ltb q s.total_pages then true else bitmap_test s.page_bitmap q)
unfolding mark_used_page
mark_used_page-test p q s v =
    ground (arith, bitmap_test-bitmap_set s.page_bitmap p q v.bytes, same p q)
  where
    same : (p q : ℕ) → p ≡ q → bitmap_test s.page_bitmap p ≡ bitmap_test s.page_bitmap q
    same p q e = ap (bitmap_test s.page_bitmap) e

mark_free_page-test :
    (p q : ℕ) (s : Pmm)
    → WellFormed s
    → bitmap_test (mark_free_page p s).page_bitmap q
      ≡ (if (p == q) && ltb q s.total_pages then false else bitmap_test s.page_bitmap q)
unfolding mark_free_page
mark_free_page-test p q s v =
    ground (arith, bitmap_test-bitmap_clear s.page_bitmap p q v.bytes, same p q)
  where
    same : (p q : ℕ) → p ≡ q → bitmap_test s.page_bitmap p ≡ bitmap_test s.page_bitmap q
    same p q e = ap (bitmap_test s.page_bitmap) e

-- `pmm_mark_used` and `pmm_mark_free` set exactly the bits of their range below `total_pages`.
module _ (base count q : ℕ) (s : Pmm) (v : WellFormed s) (small : base < 2 ^ 64)
    (few : count < 2 ^ 63) where
  mark_used-test : bitmap_test (mark_used base count s).page_bitmap q ≡ (
      if between (paddr_to_pfn base) count q && ltb q s.total_pages
      then true
      else bitmap_test s.page_bitmap q)
  unfolding mark_used
  mark_used-test =
      let fits : ltb (word (paddr_to_pfn base + count)) (paddr_to_pfn base) ≡ false =
        ground arith in
      rw fits (
        each_page-test mark_used_page true (λ p s w. mark_used_page-WellFormed w p)
          mark_used_page-total mark_used_page-test count (paddr_to_pfn base) q v (omega arith))

  mark_free-test : bitmap_test (mark_free base count s).page_bitmap q ≡ (
      if between (paddr_to_pfn base) count q && ltb q s.total_pages
      then false
      else bitmap_test s.page_bitmap q)
  unfolding mark_free
  mark_free-test =
      let fits : ltb (word (paddr_to_pfn base + count)) (paddr_to_pfn base) ≡ false =
        ground arith in
      rw fits (
        each_page-test mark_free_page false (λ p s w. mark_free_page-WellFormed w p)
          mark_free_page-total mark_free_page-test count (paddr_to_pfn base) q v (omega arith))

each_page-same :
    (body : ℕ → Pmm → Pmm)
    → ((p : ℕ) (s : Pmm) → (body p s).total_pages ≡ s.total_pages)
    → (n p : ℕ) (s : Pmm) → (each_page body n p s).total_pages ≡ s.total_pages
unfolding each_page
each_page-same body total zero p s = refl
each_page-same body total (suc n) p s =
    each_page-same body total n (word (p + 1)) (body p s) ∙ total p s

mark_used-total : (base count : ℕ) (s : Pmm) → (mark_used base count s).total_pages ≡ s.total_pages
unfolding mark_used
mark_used-total base count s =
    ground (arith, each_page-same mark_used_page mark_used_page-total count (paddr_to_pfn base) s)

mark_free-total : (base count : ℕ) (s : Pmm) → (mark_free base count s).total_pages ≡ s.total_pages
unfolding mark_free
mark_free-total base count s =
    ground (arith, each_page-same mark_free_page mark_free_page-total count (paddr_to_pfn base) s)

module _ (r : Region) {s : Pmm} (v : WellFormed s) where
  free_region-WellFormed : WellFormed (free_region r s)
  unfolding free_region
  free_region-WellFormed = elim (Bool-cases (r.kind == conventional)) [
    | inr other ↦ rw other v
    | inl usable ↦
        rw usable (elim (Bool-cases (ltb (align_up r.base) (align_down (word (r.base + r.size))))) [
          | inr empty ↦ rw empty v
          | inl some_pages ↦ rw some_pages (mark_free-WellFormed _ _ v)
        ])
  ]

  free_region-total : (free_region r s).total_pages ≡ s.total_pages
  unfolding free_region
  free_region-total = ground (
    arith,
    mark_free-total (align_up r.base)
        ((align_down (word (r.base + r.size)) - align_up r.base) / 4096) s,
  )

  free_region-test :
      (q : ℕ)
      → bitmap_test (free_region r s).page_bitmap q
        ≡ (if in_region q r && ltb q s.total_pages then false else bitmap_test s.page_bitmap q)
  unfolding free_region in_region
  free_region-test q = ground (
    arith,
    mark_free-test (align_up r.base)
        ((align_down (word (r.base + r.size)) - align_up r.base) / 4096) q s v (omega arith)
        (omega arith),
  )

free_regions-WellFormed :
    (regions : List Region) {s : Pmm} → WellFormed s → WellFormed (free_regions regions s)
unfolding free_regions
free_regions-WellFormed [] v = v
free_regions-WellFormed (r ∷ rs) v = free_regions-WellFormed rs (free_region-WellFormed r v)

free_regions-total :
    (regions : List Region) {s : Pmm}
    → WellFormed s
    → (free_regions regions s).total_pages ≡ s.total_pages
unfolding free_regions
free_regions-total [] v = refl
free_regions-total (r ∷ rs) v =
    free_regions-total rs (free_region-WellFormed r v) ∙ free_region-total r v

free_regions-test :
    (regions : List Region) {s : Pmm} (q : ℕ)
    → WellFormed s
    → bitmap_test (free_regions regions s).page_bitmap q
      ≡ (if in_regions q regions && ltb q s.total_pages then false else bitmap_test s.page_bitmap q)
unfolding free_regions in_regions
free_regions-test [] q v = refl
free_regions-test (r ∷ rs) {s} q v = ground (
  arith,
  free_regions-test rs {s = free_region r s} q (free_region-WellFormed r v),
  free_region-total r v,
  free_region-test r v q,
)

-- How many pages the kernel's image takes, as `pmm_init` computes it.
abbrev pub kernel_pages : ℕ → ℕ → ℕ
kernel_pages start end = word (sub_word end start + 4095) / 4096

module _ (regions : List Region) (start end : ℕ) (s : Pmm) where
  -- `pmm_init` establishes the invariant.
  pub init-WellFormed : WellFormed (init regions start end s)
  unfolding init
  init-WellFormed = mark_used-WellFormed 0 512 (
      mark_used-WellFormed start (kernel_pages start end)
        (free_regions-WellFormed regions (reset-WellFormed regions s)))

  -- After `pmm_init` a page below `total_pages` is free exactly when it lies wholly inside a
  -- conventional region of the memory map, is not among the first 512 and is none of the kernel's;
  -- a page from `total_pages` on is never free.
  pub init_free_pages :
      (q : ℕ)
      → start < 2 ^ 64
      → not (bitmap_test (init regions start end s).page_bitmap q) ≡ (
          (ltb q (init regions start end s).total_pages && in_regions q regions)
          && (leb 512 q && not (between (paddr_to_pfn start) (kernel_pages start end) q)))
  unfolding init
  init_free_pages q small =
      let s₀ = reset-WellFormed regions s in
      let s₁ = free_regions-WellFormed regions s₀ in
      let s₂ = mark_used-WellFormed start (kernel_pages start end) s₁ in
      ground (
        arith,
        mark_used-test 0 512 q _ s₂ (omega arith) (omega arith),
        mark_used-test start (kernel_pages start end) q _ s₁ small (omega arith),
        free_regions-test regions q s₀,
        reset-used regions s q,
        mark_used-total 0 512
            (mark_used start (kernel_pages start end) (free_regions regions (reset regions s))),
        mark_used-total start (kernel_pages start end) (free_regions regions (reset regions s)),
        free_regions-total regions s₀,
      )
