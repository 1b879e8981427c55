-- ===== src/Mm/Heap/Grant.antt =====
-- What `allocate` of kernel/mm/heap.c, the part of `kmalloc` after the slab allocator, grants.
use scarlett_os.Base.{
  ℕ, ◌+◌, ◌≤◌, ◌≡◌, ◌≢◌, ◌⊎◌, inl, inr, refl, ◌∙◌, Bool, true, false, Option, none, some, arith,
  Bool-cases,
}
use scarlett_os.Mm.Pmm.{word, sub_word}
use scarlett_os.Mm.Heap.{
  Heap, Block, Fit, heap_start, heap_max_size, block_header_size, expand_heap, last_end, allocate,
  append_block,
}
use scarlett_os.Mm.Heap.Blocks.{allocation, charged, end_of, Tiled, end_of-above}
use scarlett_os.Mm.Heap.Search.{Taken, first_fit_lem}
use scarlett_os.Mm.Heap.Layout.{last_end_lem, append-Appended}
use scarlett_os.Mm.Heap.Expand.{Expanded, expand_heap_lem}

-- The blocks tile the heap from its start, at least one, within the mapped memory; the statistics
-- count the blocks in use.
pub record WellFormed (h : Heap) : Type 0 where
  pub tiled : Tiled heap_start h.blocks
  pub begun : heap_start + 40 ≤ end_of heap_start h.blocks
  pub mapped : end_of heap_start h.blocks ≤ h.heap_current
  pub limited : h.heap_current ≤ heap_start + heap_max_size
  pub counted : h.heap_used_size ≡ charged h.blocks

-- What a request does: it fails and keeps the memory in use, or a block of at least the size is in
-- use at an address where none was, and the rest of the memory in use is kept.
pub record Granted (size : ℕ) (h : Heap) (pointer : ℕ) (h' : Heap) : Type 0 where
  pub address : ℕ
  pub room : ℕ
  pub after_header : pointer ≡ address + 40
  pub unused : allocation address h.blocks ≡ none
  pub in_use : allocation address h'.blocks ≡ some room
  pub enough : size ≤ room
  pub others : (a : ℕ) → address ≢ a → allocation a h'.blocks ≡ allocation a h.blocks
  pub valid : WellFormed h'

abbrev pub RequestOutcome : ℕ → Heap → Option (ℕ × Heap) → Type 0
RequestOutcome size h r =
    ((h' : Heap) × (r ≡ some (0, h')) × (h'.blocks ≡ h.blocks) × WellFormed h')
    ⊎ ((p : ℕ) × (h' : Heap) × (r ≡ some (p, h')) × Granted size h p h')

Expanded-WellFormed :
    {needed : ℕ} {h : Heap} {r : Bool × Heap} → WellFormed h → Expanded needed h r → WellFormed r.1
Expanded-WellFormed v x = record {
  tiled = rw x.blocks v.tiled;
  begun = rw x.blocks v.begun;
  mapped = rw x.blocks (omega (arith, v.mapped, x.more));
  limited = x.limited;
  counted = rw x.blocks (x.used ∙ v.counted);
}

module _ (size : ℕ) (small : size ≤ heap_max_size) {h : Heap} (v : WellFormed h) where
  fitted :
      (f : Fit)
      → Taken size (omega arith) heap_start h.blocks f
      → Granted size h (f.taken.address + 40) (record h {
        blocks = f.blocks;
        heap_used_size = word (h.heap_used_size + (f.taken.size + block_header_size));
      })
  fitted f t = record {
    address = f.taken.address;
    room = f.taken.size;
    after_header = refl;
    unused = t.unused;
    in_use = t.change.at_address;
    enough = t.enough;
    others = t.change.others;
    valid =
        let above = end_of-above heap_start f.blocks in
        record {
          tiled = t.change.tiled;
          begun = omega (arith, t.change.ends, v.begun);
          mapped = omega (arith, t.change.ends, v.mapped);
          limited = v.limited;
          counted = omega (arith, t.cost, v.counted, t.change.ends, v.mapped, v.limited);
        };
  }

  -- The block at the end of the grown heap.
  appended :
      {r : Bool × Heap}
      → Expanded (word (size + block_header_size)) h r
      → r.0 ≡ true
      → (last_end r.1.blocks ≡ some (end_of heap_start r.1.blocks))
        × Granted size h
            (end_of heap_start r.1.blocks + 40)
            (append_block size (end_of heap_start r.1.blocks) r.1).1
  appended {r} x ok =
      let w = Expanded-WellFormed v x in
      let end = end_of heap_start r.1.blocks in
      let needed : word (size + block_header_size) ≡ size + 40 = omega arith in
      let same : sub_word (word (size + block_header_size)) block_header_size ≡ size =
        omega arith in
      let b : Block = record { address = end; size = size; free = false } in
      let a = append-Appended b refl heap_start r.1.blocks w.tiled refl in
      let fits : h.heap_current + (size + 40) ≤ r.1.heap_current = ground (arith, x.enough) in
      let before : end ≤ h.heap_current = rw x.blocks v.mapped in
      let above = end_of-above heap_start r.1.blocks in
      (
        last_end_lem heap_start r.1.blocks w.tiled (omega (arith, w.begun)),
        rw same (record {
          address = end;
          room = size;
          after_header = refl;
          unused = rw (← x.blocks) a.unused;
          in_use = a.at_address;
          enough = omega arith;
          others = λ j ne. a.others j ne ∙ (rw x.blocks refl);
          valid = record {
            tiled = a.tiled;
            begun = omega (arith, a.ends, w.begun);
            mapped = omega (arith, a.ends);
            limited = w.limited;
            counted = omega (arith, a.cost, w.counted, w.mapped, w.limited);
          };
        }),
      )

  pub allocate_lem : (available : ℕ) → RequestOutcome size h (allocate available size h)
  unfolding allocate
  allocate_lem available =
      let x : Expanded (word (size + block_header_size)) h
          (expand_heap available (word (size + block_header_size)) h) =
        expand_heap_lem available (word (size + block_header_size)) v.limited (omega arith) in
      elim (first_fit_lem size (omega arith) heap_start h.blocks v.tiled) [
        | inr (f, found, t) ↦
            rw (allocate, found)
              (inr (
                f.taken.address + 40,
                record h {
                  blocks = f.blocks;
                  heap_used_size = word (h.heap_used_size + (f.taken.size + block_header_size));
                },
                refl,
                fitted f t,
              ))
        | inl no_fit ↦
            elim (Bool-cases (expand_heap available (word (size + block_header_size)) h).0) [
              | inr stopped ↦
                  rw (allocate, no_fit, stopped)
                    (inl (
                      (expand_heap available (word (size + block_header_size)) h).1,
                      refl,
                      x.blocks,
                      Expanded-WellFormed v x,
                    ))
              | inl ok ↦
                  let (last, granted) = appended x ok in
                  rw (allocate, no_fit, ok, last)
                    (inr (
                      end_of heap_start
                            (expand_heap available (word (size + block_header_size)) h).1.blocks
                          + 40,
                      (append_block size
                          (end_of heap_start
                            (expand_heap available (word (size + block_header_size)) h).1.blocks)
                          (expand_heap available (word (size + block_header_size)) h).1).1,
                      refl,
                      granted,
                    ))
            ]
      ]

pub weaken :
    (size n : ℕ) {h : Heap} (r : Option (ℕ × Heap))
    → size ≤ n
    → RequestOutcome n h r
    → RequestOutcome size h r
weaken size n r le (inl fails) = inl fails
weaken size n r le (inr (p, h', e, g)) = inr (
  p,
  h',
  e,
  record {
    address = g.address;
    room = g.room;
    after_header = g.after_header;
    unused = g.unused;
    in_use = g.in_use;
    enough = omega (arith, g.enough);
    others = g.others;
    valid = g.valid;
  },
)
