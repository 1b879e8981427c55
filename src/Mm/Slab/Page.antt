-- ===== src/Mm/Slab/Page.antt =====
-- A page of objects of kernel/mm/slab.c.
use mathlib.Core.Path.{subst}
use native.Mathlib.Nat.{mul-div_cancel, mul-le-mul}
use scarlett_os.Base.{
  ℕ, ◌+◌, ◌-◌, ◌*◌, ◌/◌, ◌%◌, ◌^◌, ◌≤◌, ◌<◌, ◌≡◌, refl, sym, ◌∙◌, ◌⊎◌, inl, inr, true, false,
  Option, none, some, leb, ◌==◌, if◌then◌else◌, Bool-cases, Option-cases, arith,
}
use scarlett_os.Mm.Pmm.Bitmap.{
  PageBitmap, IsBytes, bitmap_test, bitmap_clear, bitmap_test-bitmap_clear, bitmap_test-bitmap_set,
  bitmap_clear-IsBytes, count_free, count_free-bitmap_clear, count_free-le,
}
use scarlett_os.Mm.Slab.{
  SlabPage, object_size, bitmap_size, find_in_bytes, find_free_object, free_object_in_page,
  objects_start, object_address, take_object,
}
use scarlett_os.Mm.Slab.Search.{Found, find_in_bytes-Found}

-- A page as the functions leave it: the count is that of the bits, of at most 508 objects.
pub record WellFormed (page : SlabPage) : Type 0 where
  pub bytes : IsBytes page.bitmap
  pub total : page.total_objects ≤ 508
  pub count : page.free_count + count_free page.bitmap page.total_objects ≡ page.total_objects

-- An object is taken that was free, and nothing else of the page changes.
pub record Taken (page : SlabPage) (i : ℕ) (page' : SlabPage) : Type 0 where
  pub valid : WellFormed page'
  pub inside : i < page.total_objects
  pub was_free : bitmap_test page.bitmap i ≡ true
  pub now :
      (j : ℕ) → bitmap_test page'.bitmap j ≡ (if i == j then false else bitmap_test page.bitmap j)
  pub counted : page'.free_count + 1 ≡ page.free_count

abbrev pub FindOutcome : SlabPage → Option (ℕ × SlabPage) → Type 0
FindOutcome page r =
    ((r ≡ none) × ((j : ℕ) → j < page.total_objects → bitmap_test page.bitmap j ≡ false))
    ⊎ ((i : ℕ) × (r ≡ some (object_address page i, take_object page i))
        × Taken page i (take_object page i))

-- `find_free_object` takes the first free object of a page, or every object of the page is in use.
pub find_free_object_lem :
    (page : SlabPage) → WellFormed page → FindOutcome page (find_free_object page)
unfolding find_free_object
find_free_object_lem page v =
    let n = page.total_objects in
    let search =
      find_in_bytes-Found (bitmap_size n) 0 n 0 (bitmap_size n * 8) page.bitmap (omega arith)
        (omega arith) in
    let wide : n ≤ bitmap_size n * 8 = omega (arith, v.total) in
    elim (Option-cases (find_in_bytes (bitmap_size n) 0 n page.bitmap)) [
      | inl e ↦
          let none_free = subst (Found 0 (bitmap_size n * 8) n page.bitmap) e search in
          rw (find_free_object, e) (inl (refl, λ j lt. none_free j (omega arith) (omega arith) lt))
      | inr (i, e) ↦
          let (lo, hi, inside, free, before) =
            subst (Found 0 (bitmap_size n * 8) n page.bitmap) e search in
          let fewer = count_free-bitmap_clear page.bitmap i v.bytes n inside free in
          let some_free = count_free-le (bitmap_clear page.bitmap i) n in
          let down : (page.free_count + 2 ^ 32 - 1) % 2 ^ 32 + 1 ≡ page.free_count =
            omega (arith, v.count, v.total, fewer, some_free) in
          rw (find_free_object, e)
            (inr (
              i,
              refl,
              record {
                valid = record {
                  bytes = bitmap_clear-IsBytes page.bitmap i v.bytes;
                  total = v.total;
                  count = omega (arith, v.count, fewer, down);
                };
                inside = inside;
                was_free = free;
                now = λ j. bitmap_test-bitmap_clear page.bitmap i j v.bytes;
                counted = down;
              },
            ))
    ]

-- The index that `free_object_in_page` finds for the address of an object.
index_found :
    (page : SlabPage) (i : ℕ)
    → i < 2 ^ 32
    → 0 < object_size page
    → object_size page ≤ 4096
    → ((object_address page i + 2 ^ 64 - objects_start page) % 2 ^ 64 / object_size page) % 2 ^ 32
      ≡ i
index_found page i lt pos le =
    let most : i * object_size page ≤ (2 ^ 32 - 1) * 4096 =
      mul-le-mul {n₂ = 2 ^ 32 - 1} (omega arith) le in
    let away : (object_address page i + 2 ^ 64 - objects_start page) % 2 ^ 64
        ≡ i * object_size page =
      omega arith in
    let back : i * object_size page / object_size page ≡ i = mul-div_cancel i pos in
    rw (away, back) (omega arith)

-- The same objects of two pages are free, and as many.
pub record SameObjects (page page' : SlabPage) : Type 0 where
  pub objects : (j : ℕ) → bitmap_test page'.bitmap j ≡ bitmap_test page.bitmap j
  pub count : page'.free_count ≡ page.free_count

put_back_bit :
    (bm : PageBitmap) (i j : ℕ)
    → bitmap_test bm i ≡ true
    → (if i == j then true else (if i == j then false else bitmap_test bm j)) ≡ bitmap_test bm j
put_back_bit bm i j h = elim (Bool-cases (i == j)) [
  | inl e ↦ let same : i ≡ j = ground arith in rw e (rw (← same) (sym h))
  | inr e ↦ rw e refl
]

freed :
    (page : SlabPage) (i : ℕ)
    → 0 < object_size page
    → object_size page ≤ 4096
    → WellFormed page
    → Taken page i (take_object page i)
    → SameObjects page (free_object_in_page (take_object page i) (object_address page i))
unfolding free_object_in_page
freed page i pos le v t =
    let index = index_found page i (omega (arith, t.inside, v.total)) pos le in
    let inside : leb page.total_objects i ≡ false = ground (arith, t.inside) in
    rw (free_object_in_page, index, inside)
      (record {
        objects = λ j.
            bitmap_test-bitmap_set (bitmap_clear page.bitmap i) i j t.valid.bytes
            ∙ (rw (t.now j) (put_back_bit page.bitmap i j t.was_free));
        count = omega (arith, t.counted, v.count, v.total);
      })

-- An object of a page that is found free and given back at once leaves the page's objects and their
-- count as they were; otherwise every object of the page is in use.
pub find_free_free :
    (page : SlabPage)
    → 0 < object_size page
    → object_size page ≤ 4096
    → WellFormed page
    → ((find_free_object page ≡ none)
        × ((j : ℕ) → j < page.total_objects → bitmap_test page.bitmap j ≡ false))
      ⊎ ((object : ℕ) × (page' : SlabPage) × (find_free_object page ≡ some (object, page'))
          × SameObjects page (free_object_in_page page' object))
find_free_free page pos le v = elim (find_free_object_lem page v) [
  | inl all_used ↦ inl all_used
  | inr (i, e, t) ↦ inr (object_address page i, take_object page i, e, freed page i pos le v t)
]
