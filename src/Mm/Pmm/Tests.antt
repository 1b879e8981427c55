-- ===== src/Mm/Pmm/Tests.antt =====
-- The page allocator on a machine with four usable pages, from 2 MB on, and a kernel of one page.
use scarlett_os.Base.{◌≡◌, refl, arith, List, [], ◌∷◌, ltb, leb, ◌&&◌, not}
use scarlett_os.Base.Bits.{set_bit, clear_bit, test_bit}
use scarlett_os.Mm.Pmm.Bitmap.{bitmap_set, bitmap_clear, bitmap_test}
use scarlett_os.Mm.Pmm.{
  Pmm, Region, init, reset, free_regions, free_region, mark_free, mark_used, each_page,
  mark_free_page, mark_used_page, find_highest, alloc_page, alloc_pages, find_run,
}
use scarlett_os.Mm.Pmm.Invariant.{WellFormed}
use scarlett_os.Mm.Pmm.Alloc.{PageOutcome, RunOutcome, alloc_page_lem, alloc_pages_lem}
use scarlett_os.Mm.Pmm.Calls.{page, pages, share, release, perform_all, reachable-WellFormed}
use scarlett_os.Mm.Pmm.Boot.{init-WellFormed, init_free_pages, in_regions, between, kernel_pages}

abbrev blank : Pmm
blank = record {
  page_bitmap = λ i. 0;
  page_refcount = λ i. 0;
  total_pages = 0;
  free_pages = 0;
  used_pages = 0;
  highest_addr = 0;
  last_allocated = 0;
}

abbrev memory_map : List Region
memory_map =
    record { base = 0; size = 0x1000; kind = 0 }
    ∷ record { base = 0x200000; size = 0x4000; kind = 7 }
    ∷ []

abbrev booted : Pmm
booted = init memory_map 0x100000 0x101000 blank

abbrev booted-WellFormed : WellFormed booted
booted-WellFormed = init-WellFormed memory_map 0x100000 0x101000 blank

booted_counts : (booted.total_pages ≡ 516) × (booted.free_pages ≡ 4) × (booted.used_pages ≡ 512)
unfolding init reset find_highest free_regions free_region mark_free mark_used each_page
    mark_free_page mark_used_page bitmap_set bitmap_clear bitmap_test set_bit clear_bit test_bit
booted_counts = (refl, refl, refl)

reachable-WellFormed_example :
    WellFormed (perform_all (page ∷ pages 2 ∷ share 0x200000 ∷ release 0x200000 ∷ []) booted)
reachable-WellFormed_example =
    reachable-WellFormed memory_map 0x100000 0x101000 blank
      (page ∷ pages 2 ∷ share 0x200000 ∷ release 0x200000 ∷ [])

init_free_pages_example : not (bitmap_test booted.page_bitmap 513) ≡ (
    (ltb 513 booted.total_pages && in_regions 513 memory_map)
    && (leb 512 513 && not (between 256 (kernel_pages 0x100000 0x101000) 513)))
init_free_pages_example = init_free_pages memory_map 0x100000 0x101000 blank 513 (omega arith)

alloc_page_lem_example : PageOutcome booted (alloc_page booted)
alloc_page_lem_example = alloc_page_lem booted-WellFormed

alloc_pages_lem_example : RunOutcome 3 booted (alloc_pages 3 booted)
alloc_pages_lem_example = alloc_pages_lem 3 booted-WellFormed (omega arith)

no_room_for_five : (alloc_pages 5 booted).0 ≡ 0
unfolding init reset find_highest free_regions free_region mark_free mark_used each_page
    mark_free_page mark_used_page bitmap_set bitmap_clear bitmap_test set_bit clear_bit test_bit
    alloc_pages find_run
no_room_for_five = refl
