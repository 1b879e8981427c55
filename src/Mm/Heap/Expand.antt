-- ===== src/Mm/Heap/Expand.antt =====
-- How `expand_heap` of kernel/mm/heap.c moves the end of the mapped memory.
use scarlett_os.Base.{
  ℕ, zero, suc, ◌+◌, ◌*◌, ◌/◌, ◌^◌, ◌≤◌, ◌<◌, ◌≡◌, ◌⊎◌, inl, inr, refl, Bool, false, arith, ltb,
  Bool-cases,
}
use scarlett_os.Mm.Pmm.{word, align_up}
use scarlett_os.Mm.Heap.{Heap, heap_start, heap_max_size, map_pages, expand_heap}

map_pages_lem :
    (n available current : ℕ)
    → current + n * 4096 < 2 ^ 64
    → ((map_pages n available current).1 ≤ current + n * 4096)
      × (current ≤ (map_pages n available current).1)
      × (((map_pages n available current).0 ≡ false)
          ⊎ ((map_pages n available current).1 ≡ current + n * 4096))
unfolding map_pages
map_pages_lem zero available current h = (omega arith, omega arith, inr (omega arith))
map_pages_lem (suc n) zero current h = (omega arith, omega arith, inl refl)
map_pages_lem (suc n) (suc available) current h =
    let fit : word (current + 4096) ≡ current + 4096 = omega arith in
    let (most, least, all) = map_pages_lem n available (current + 4096) (omega arith) in
    rw (map_pages, fit)
      (omega arith, omega arith, elim all [ inl stopped ↦ inl stopped | inr e ↦ inr (omega arith) ])

-- An expansion keeps the blocks; if it succeeds, the mapped memory grows by what was needed.
pub record Expanded (needed : ℕ) (h : Heap) (r : Bool × Heap) : Type 0 where
  pub blocks : r.1.blocks ≡ h.blocks
  pub used : r.1.heap_used_size ≡ h.heap_used_size
  pub more : h.heap_current ≤ r.1.heap_current
  pub limited : r.1.heap_current ≤ heap_start + heap_max_size
  pub enough : (r.0 ≡ false) ⊎ (h.heap_current + needed ≤ r.1.heap_current)

pub expand_heap_lem :
    (available needed : ℕ) {h : Heap}
    → h.heap_current ≤ heap_start + heap_max_size
    → needed ≤ 2 ^ 29
    → Expanded needed h (expand_heap available needed h)
unfolding expand_heap
expand_heap_lem available needed {h} low small =
    elim (Bool-cases (ltb (heap_start + heap_max_size) (word (h.heap_current + align_up needed)))) [
      | inl e ↦ rw e (record {
        blocks = refl;
        used = refl;
        more = omega arith;
        limited = low;
        enough = inl refl;
      })
      | inr e ↦
          let size : align_up needed / 4096 * 4096 ≡ align_up needed = omega arith in
          let fits : h.heap_current + align_up needed ≤ heap_start + heap_max_size = ground arith in
          let (most, least, all) =
            map_pages_lem (align_up needed / 4096) available h.heap_current (omega arith) in
          elim (Bool-cases (map_pages (align_up needed / 4096) available h.heap_current).0) [
            | inl ok ↦
                rw (e, ok)
                  (record {
                    blocks = refl;
                    used = refl;
                    more = least;
                    limited = omega arith;
                    enough = elim all [
                      | inl stopped ↦ ground arith
                      | inr grown ↦ inr (omega arith)
                    ];
                  })
            | inr stopped ↦
                rw (e, stopped)
                  (record {
                    blocks = refl;
                    used = refl;
                    more = least;
                    limited = omega arith;
                    enough = inl refl;
                  })
          ]
    ]
