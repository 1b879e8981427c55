-- ===== src/Mm/Slab/Tests.antt =====
-- Runs of the functions of kernel/mm/slab.c.
use scarlett_os.Base.{ℕ, ◌<◌, ◌≡◌, refl, ◌⊎◌, false, none, some, arith}
use scarlett_os.Mm.Pmm.Bitmap.{bitmap_test}
use scarlett_os.Mm.Slab.{
  SlabPage, new_page, find_free_object, free_object_in_page, slab_alloc, slab_init,
}
use scarlett_os.Mm.Slab.Page.{SameObjects, find_free_free}
use scarlett_os.Mm.Slab.Bounds.{Placed, new_page-Placed}
use scarlett_os.Mm.Slab.Nested.{waits, small_request, small_request_waits}
use scarlett_os.Mm.Slab.Cache.{Counted, slab_init-Counted, slab_alloc-Counted, new_page-WellFormed}

-- A page of 63 objects of 64 bytes.
abbrev sixties : SlabPage
sixties = new_page 65536 3

find_free_free_example :
    ((find_free_object sixties ≡ none)
      × ((j : ℕ) → j < sixties.total_objects → bitmap_test sixties.bitmap j ≡ false))
    ⊎ ((object : ℕ) × (page' : SlabPage) × (find_free_object sixties ≡ some (object, page'))
        × SameObjects sixties (free_object_in_page page' object))
find_free_free_example =
    find_free_free sixties (omega arith) (omega arith) (new_page-WellFormed 65536 3 (omega arith))

new_page-Placed_example : Placed 65536 0
new_page-Placed_example = new_page-Placed 65536 0 (omega arith)

slab_alloc-Counted_example : Counted ((slab_alloc 65536 60 slab_init).1 3)
slab_alloc-Counted_example = slab_alloc-Counted 65536 60 slab_init (λ c. slab_init-Counted) 3

small_request_waits_example : small_request 3 16 (λ c. false) slab_init ≡ waits
small_request_waits_example =
    small_request_waits 0 16 slab_init (omega arith) (omega arith) refl refl
