-- ===== src/Mm/Pmm/Calls.antt =====
-- The allocator as its clients drive it: any calls, in any order, after `pmm_init`.
use scarlett_os.Base.{ℕ, ◌≡◌, inl, inr, Bool-cases, true, arith, List, [], ◌∷◌, leb, ◌==◌}
use scarlett_os.Mm.Pmm.{
  Pmm, Region, init, alloc_page, alloc_page_low, alloc_pages, free_page, free_pages, ref_page,
}
use scarlett_os.Mm.Pmm.Invariant.{WellFormed}
use scarlett_os.Mm.Pmm.Steps.{free_page-WellFormed, ref_page-WellFormed, free_pages-WellFormed}
use scarlett_os.Mm.Pmm.Alloc.{alloc_page_lem, alloc_page_low_lem, alloc_pages_lem}
use scarlett_os.Mm.Pmm.Boot.{init-WellFormed}

-- The entry points of pmm.h that change the state.
pub data Call : Type 0 where
  page low : Call
  pages : ℕ → Call
  release : ℕ → Call
  release_run : ℕ → ℕ → Call
  share : ℕ → Call

pub perform : Call → Pmm → Pmm
perform page s = (alloc_page s).1
perform low s = (alloc_page_low s).1
perform (pages n) s = (alloc_pages n s).1
perform (release a) s = free_page a s
perform (release_run a n) s = free_pages a n s
perform (share a) s = ref_page a s

pub perform_all : List Call → Pmm → Pmm
perform_all [] s = s
perform_all (c ∷ cs) s = perform_all cs (perform c s)

alloc_page-WellFormed : {s : Pmm} → WellFormed s → WellFormed (alloc_page s).1
alloc_page-WellFormed v = elim (alloc_page_lem v) [
  | inl (e, _) ↦ rw e v
  | inr (p, lo, takes, _) ↦ takes.valid
]

alloc_page_low-WellFormed : {s : Pmm} → WellFormed s → WellFormed (alloc_page_low s).1
alloc_page_low-WellFormed v = elim (alloc_page_low_lem v) [
  | inl (e, _) ↦ rw e v
  | inr (p, lo, hi, takes, _) ↦ takes.valid
]

alloc_pages-WellFormed : {s : Pmm} (n : ℕ) → WellFormed s → WellFormed (alloc_pages n s).1
alloc_pages-WellFormed {s} n v = elim (Bool-cases (leb 2 n)) [
  | inl many ↦ elim (alloc_pages_lem n v (ground arith)) [
    | inl (e, _) ↦ rw e v
    | inr (p, takes) ↦ takes.valid
  ]
  | inr few ↦ elim (Bool-cases (n == 0)) [
    | inl none_wanted ↦ unfold alloc_pages in rw none_wanted v
    | inr wanted ↦
        let one : (n == 1) ≡ true = ground arith in
        unfold alloc_pages in rw (wanted, one) (alloc_page-WellFormed v)
  ]
]

perform-WellFormed : (c : Call) {s : Pmm} → WellFormed s → WellFormed (perform c s)
unfolding perform
perform-WellFormed page v = alloc_page-WellFormed v
perform-WellFormed low v = alloc_page_low-WellFormed v
perform-WellFormed (pages n) v = alloc_pages-WellFormed n v
perform-WellFormed (release a) v = free_page-WellFormed a v
perform-WellFormed (release_run a n) v = free_pages-WellFormed a n v
perform-WellFormed (share a) v = ref_page-WellFormed a v

perform_all-WellFormed : (cs : List Call) {s : Pmm} → WellFormed s → WellFormed (perform_all cs s)
unfolding perform_all
perform_all-WellFormed [] v = v
perform_all-WellFormed (c ∷ cs) v = perform_all-WellFormed cs (perform-WellFormed c v)

-- Whatever the memory map and whatever calls follow `pmm_init`, with whatever arguments, the
-- invariant holds: the statistics count exactly the bits, no page past `total_pages` is free and
-- every reference count fits 16 bits.
pub reachable-WellFormed :
    (regions : List Region) (start end : ℕ) (s : Pmm) (cs : List Call)
    → WellFormed (perform_all cs (init regions start end s))
reachable-WellFormed regions start end s cs =
    perform_all-WellFormed cs (init-WellFormed regions start end s)
