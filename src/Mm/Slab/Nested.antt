-- ===== src/Mm/Slab/Nested.antt =====
-- A small request to `kmalloc` of kernel/mm/heap.c and `slab_alloc` of kernel/mm/slab.c, which call each
-- other: a new page of objects is itself a request of 4096 bytes.
use scarlett_os.Base.{
  ℕ, zero, suc, ◌≤◌, ◌<◌, ◌≡◌, refl, inl, inr, Bool, true, false, ◌||◌, ltb, none, some, List, [],
  ◌∷◌, ◌==◌, if◌then◌else◌, Bool-cases, arith,
}
use scarlett_os.Base.Update.{update}
use scarlett_os.Mm.Slab.{SlabPage, SlabCache, find_size_class, find_free_object}

-- What becomes of a request: it is served, it waits for good for a lock that it holds itself, or it is
-- none for the caches and goes to the heap's own blocks.
pub data Request : Type 0 where
  served : Request
  waits : Request
  large : Request
  out_of_fuel : Request

-- Whether the first partial page has an object.
abbrev pub has_object : List SlabPage → Bool
has_object [] = false
has_object (page ∷ pages) = elim (find_free_object page) [ none ↦ false | some r ↦ true ]

-- `kmalloc` and `slab_alloc` for at most 4096 bytes, with the caches whose lock is held: the answer for
-- the new page is the answer for the request.
unfoldable pub small_request : (fuel size : ℕ) → (ℕ → Bool) → (ℕ → SlabCache) → Request
small_request zero size locked caches = out_of_fuel
small_request (suc fuel) size locked caches =
    let c = find_size_class size in
    let page = small_request fuel 4096 (update locked c true) caches in
    if size == 0 || ltb 4096 size
    then large
    else if locked c
    then waits
    else if has_object (caches c).partial_pages
    then served
    else page

-- A request of 1 to 4096 bytes, while no lock is held and neither the cache for its size nor that for
-- 4096 bytes has an object at hand, waits for good.
pub small_request_waits :
    (fuel size : ℕ) (caches : ℕ → SlabCache)
    → 0 < size
    → size ≤ 4096
    → has_object (caches (find_size_class size)).partial_pages ≡ false
    → has_object (caches 9).partial_pages ≡ false
    → small_request (suc (suc (suc fuel))) size (λ c. false) caches ≡ waits
unfolding small_request
small_request_waits fuel size caches pos le own pages =
    let c = find_size_class size in
    let small : (size == 0 || ltb 4096 size) ≡ false = ground arith in
    elim (Bool-cases (c == 9)) [
      | inl e ↦
          let held : update (λ (k : ℕ). false) c true 9 ≡ true = rw e refl in
          rw (small_request, small, own, held) refl
      | inr e ↦
          let free : update (λ (k : ℕ). false) c true 9 ≡ false = rw e refl in
          rw (small_request, small, own, free, pages) refl
    ]
