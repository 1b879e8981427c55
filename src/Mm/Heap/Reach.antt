-- ===== src/Mm/Heap/Reach.antt =====
-- The heap of kernel/mm/heap.c as its clients drive it, after `heap_init`.
use scarlett_os.Base.{ℕ, ◌+◌, ◌^◌, ◌≤◌, ◌<◌, ◌≡◌, inl, inr, Option, some, arith}
use scarlett_os.Mm.Heap.{Heap, unused, init, heap_max_size, kmalloc, kfree}
use scarlett_os.Mm.Heap.Grant.{WellFormed, RequestOutcome}
use scarlett_os.Mm.Heap.Calls.{kmalloc_lem, kfree_lem, init_lem}

-- The heaps that come of `heap_init`, requests of 1 byte to 256 MB, and any frees of addresses in
-- 64 bits that are not less than a header.
pub data Reach : Heap → Type 0 where
  starts : (available : ℕ) (h : Heap) → init available unused ≡ some h → Reach h
  requests :
      {h : Heap} (slab : Option ℕ) (available size p : ℕ) (h' : Heap)
      → Reach h
      → 1 ≤ size
      → size ≤ heap_max_size
      → kmalloc slab available size h ≡ some (p, h')
      → Reach h'
  frees :
      {h : Heap} (address : ℕ) → Reach h → address + 40 < 2 ^ 64 → Reach (kfree (address + 40) h)

starts-WellFormed : (available : ℕ) (h : Heap) → init available unused ≡ some h → WellFormed h
starts-WellFormed available h e = elim (init_lem available) [
  | inl panics ↦ ground arith
  | inr (h', e', v, rest) ↦ let same : h' ≡ h = ground arith in rw (← same) v
]

requested-WellFormed :
    {h : Heap} (size p : ℕ) (h' : Heap) (r : Option (ℕ × Heap))
    → r ≡ some (p, h')
    → RequestOutcome size h r
    → WellFormed h'
requested-WellFormed size p h' r e (inl (k, e', kept, v)) =
    let same : k ≡ h' = ground arith in rw (← same) v
requested-WellFormed size p h' r e (inr (q, k, e', g)) =
    let same : k ≡ h' = ground arith in rw (← same) g.valid

pub reach-WellFormed : {h : Heap} → Reach h → WellFormed h
reach-WellFormed (starts available h e) = starts-WellFormed available h e
reach-WellFormed (requests {h} slab available size p h' r pos le e) =
    elim (kmalloc_lem slab available size (reach-WellFormed r) pos le) [
      | inl (q, slab_gives, small, e') ↦
          let same : h ≡ h' = ground arith in rw (← same) (reach-WellFormed r)
      | inr outcome ↦ requested-WellFormed size p h' (kmalloc slab available size h) e outcome
    ]
reach-WellFormed (frees address r fits) = (kfree_lem address (reach-WellFormed r) fits).0
