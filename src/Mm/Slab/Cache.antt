-- ===== src/Mm/Slab/Cache.antt =====
-- `slab_alloc` of kernel/mm/slab.c and its count of free objects.
use mathlib.Core.Path.{subst}
use scarlett_os.Base.{
  ℕ, zero, suc, ◌+◌, ◌%◌, ◌^◌, ◌≤◌, ◌<◌, ◌≡◌, refl, ap, inl, inr, true, ◌||◌, List, [], ◌∷◌, ltb,
  ◌==◌, Bool-cases, get_or, arith,
}
use scarlett_os.Base.Bits.{test_bit, every_below, test_of_every_below}
use scarlett_os.Mm.Pmm.Bitmap.{bitmap_test, count_free}
use scarlett_os.Mm.Slab.{
  SlabPage, SlabCache, new_page, served_by, extend, cache_alloc, slab_alloc, find_size_class,
  init_slab_cache, take_object, objects_per_page, slab_sizes,
}
use scarlett_os.Mm.Slab.Page.{WellFormed, Taken, find_free_object_lem}

abbrev pub free_sum : List SlabPage → ℕ
free_sum [] = 0
free_sum (page ∷ pages) = page.free_count + free_sum pages

abbrev pub AllPages : List SlabPage → Type 0
AllPages [] = Unit
AllPages (page ∷ pages) = WellFormed page × AllPages pages

-- The free objects of a cache's pages are the count of the cache and one more for each of its pages.
pub record Counted (cache : SlabCache) : Type 0 where
  pub pages : AllPages cache.partial_pages
  pub count :
      (cache.free_objects + cache.total_pages) % 2 ^ 32
      ≡ (free_sum cache.partial_pages + free_sum cache.full_pages) % 2 ^ 32

ones : every_below (λ k. test_bit 255 k) 8 ≡ true
unfolding every_below test_bit
ones = refl

all_free : (j : ℕ) → bitmap_test (λ i. 255) j ≡ true
unfolding bitmap_test
all_free j =
    let below : j % 8 < 8 = omega arith in test_of_every_below (λ k. test_bit 255 k) 8 below ones

none_used : (n : ℕ) → count_free (λ i. 255) n ≡ 0
unfolding count_free
none_used zero = refl
none_used (suc n) = rw (count_free, all_free n) (omega (arith, none_used n))

sizes_bound : (k : ℕ) → k ≤ 9 → objects_per_page (get_or slab_sizes k 0) ≤ 508
sizes_bound zero h = omega arith
sizes_bound (suc zero) h = omega arith
sizes_bound (suc (suc zero)) h = omega arith
sizes_bound (suc (suc (suc zero))) h = omega arith
sizes_bound (suc (suc (suc (suc zero)))) h = omega arith
sizes_bound (suc (suc (suc (suc (suc zero))))) h = omega arith
sizes_bound (suc (suc (suc (suc (suc (suc zero)))))) h = omega arith
sizes_bound (suc (suc (suc (suc (suc (suc (suc zero))))))) h = omega arith
sizes_bound (suc (suc (suc (suc (suc (suc (suc (suc zero)))))))) h = omega arith
sizes_bound (suc (suc (suc (suc (suc (suc (suc (suc (suc zero))))))))) h = omega arith
sizes_bound (suc (suc (suc (suc (suc (suc (suc (suc (suc (suc k)))))))))) h = absurd (omega arith)

pub new_page-WellFormed : (a k : ℕ) → k ≤ 9 → WellFormed (new_page a k)
new_page-WellFormed a k h = record {
  bytes = λ i. omega arith;
  total = sizes_bound k h;
  count = omega (arith, none_used (new_page a k).total_objects);
}

class_bound : (size : ℕ) → size ≤ 4096 → find_size_class size ≤ 9
class_bound size h = ground arith

served-Counted :
    (page page' : SlabPage) (pages : List SlabPage) (i : ℕ) (cache : SlabCache)
    → cache.partial_pages ≡ page ∷ pages
    → Counted cache
    → Taken page i page'
    → Counted (served_by page' pages cache)
served-Counted page page' pages i cache e v t =
    let (first, others) = subst AllPages e v.pages in
    let sum : free_sum cache.partial_pages ≡ page.free_count + free_sum pages = ap free_sum e in
    elim (Bool-cases (page'.free_count == 0)) [
      | inl z ↦ rw z (record { pages = others; count = omega (arith, v.count, sum, t.counted) })
      | inr z ↦
          rw z
            (record { pages = (t.valid, others); count = omega (arith, v.count, sum, t.counted) })
    ]

extend-Counted :
    (memory k : ℕ) (cache : SlabCache) → k ≤ 9 → Counted cache → Counted (extend memory k cache).1
unfolding extend
extend-Counted memory k cache h v = elim (Bool-cases (memory == 0)) [
  | inl z ↦ rw (extend, z) v
  | inr nz ↦ elim (find_free_object_lem (new_page memory k) (new_page-WellFormed memory k h)) [
    | inl (e, all_used) ↦
        rw (extend, nz, e)
          (record {
            pages = (new_page-WellFormed memory k h, v.pages);
            count = omega (arith, v.count);
          })
    | inr (i, e, t) ↦
        rw (extend, nz, e) (record { pages = (t.valid, v.pages); count = omega (arith, v.count) })
  ]
]

cache_alloc-Counted :
    (memory k : ℕ) (pages : List SlabPage) (cache : SlabCache)
    → k ≤ 9
    → cache.partial_pages ≡ pages
    → Counted cache
    → Counted (cache_alloc memory k pages cache).1
unfolding cache_alloc
cache_alloc-Counted memory k [] cache h e v = extend-Counted memory k cache h v
cache_alloc-Counted memory k (page ∷ pages) cache h e v =
    let (first, others) = subst AllPages e v.pages in
    elim (find_free_object_lem page first) [
      | inl (f, all_used) ↦ rw (cache_alloc, f) (extend-Counted memory k cache h v)
      | inr (i, f, t) ↦
          rw (cache_alloc, f) (served-Counted page (take_object page i) pages i cache e v t)
    ]

-- `slab_init` starts with the right count, and `slab_alloc` keeps every cache's count of free objects
-- smaller than the free objects of its pages by the number of the pages, in 32 bits.
pub slab_init-Counted : Counted init_slab_cache
slab_init-Counted = record { pages = tt; count = refl }

pub slab_alloc-Counted :
    (memory size : ℕ) (caches : ℕ → SlabCache)
    → ((c : ℕ) → Counted (caches c))
    → (c : ℕ) → Counted ((slab_alloc memory size caches).1 c)
unfolding slab_alloc
slab_alloc-Counted memory size caches v c = elim (Bool-cases (size == 0 || ltb 4096 size)) [
  | inl out ↦ rw (slab_alloc, out) (v c)
  | inr small ↦
      let k = find_size_class size in
      let cache = caches k in
      let kept =
        cache_alloc-Counted memory k cache.partial_pages cache (class_bound size (ground arith))
          refl (v k) in
      elim (Bool-cases (k == c)) [
        | inl e ↦ rw (slab_alloc, small, e) kept
        | inr e ↦ rw (slab_alloc, small, e) (v c)
      ]
]
