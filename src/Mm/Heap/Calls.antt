-- ===== src/Mm/Heap/Calls.antt =====
-- What `kmalloc`, `kfree` and `heap_init` of kernel/mm/heap.c do to the memory in use.
use scarlett_os.Base.{
  ℕ, ◌+◌, ◌-◌, ◌^◌, ◌≤◌, ◌<◌, ◌≡◌, ◌≢◌, ◌⊎◌, inl, inr, refl, ◌∙◌, true, false, Option, none, some,
  List, [], ◌∷◌, arith, leb, ◌==◌, Bool-cases, Option-cases,
}
use scarlett_os.Mm.Pmm.{word, sub_word}
use scarlett_os.Mm.Heap.{
  Heap, Block, unused, init, heap_start, heap_max_size, heap_initial_size, block_header_size,
  expand_heap, first_fit, take_block, allocate, align_8, kmalloc, kfree,
}
use scarlett_os.Mm.Heap.Blocks.{allocation, end_of-above}
use scarlett_os.Mm.Heap.Release.{release_block_lem}
use scarlett_os.Mm.Heap.Coalesce.{coalesce-Same}
use scarlett_os.Mm.Heap.Expand.{Expanded, expand_heap_lem}
use scarlett_os.Mm.Heap.Grant.{WellFormed, RequestOutcome, allocate_lem, weaken}

abbrev pub MallocOutcome : Option ℕ → ℕ → Heap → Option (ℕ × Heap) → Type 0
MallocOutcome slab size h r =
    ((p : ℕ) × (slab ≡ some p) × (size ≤ 4096) × (r ≡ some (p, h))) ⊎ RequestOutcome size h r

-- For a request of 1 byte to 256 MB on a well-formed heap, `kmalloc` passes on what the slab
-- allocator gives to a request of at most 4096 bytes; or it fails and the memory in use is as it
-- was; or a block of at least the size is in use behind the header of the pointer returned, where
-- none was, every other block in use is kept, and the heap is well formed: the blocks tile the
-- mapped memory and `heap_used_size` counts those in use. It never reads through a null pointer.
pub kmalloc_lem :
    (slab : Option ℕ) (available size : ℕ) {h : Heap}
    → WellFormed h
    → 1 ≤ size
    → size ≤ heap_max_size
    → MallocOutcome slab size h (kmalloc slab available size h)
unfolding kmalloc
kmalloc_lem slab available size {h} v pos le =
    let fits : size ≤ align_8 size = omega arith in
    let some_size : (size == 0) ≡ false = ground arith in
    let heap : RequestOutcome size h (allocate available (align_8 size) h) =
      weaken size (align_8 size) (allocate available (align_8 size) h) fits
        (allocate_lem (align_8 size) (omega arith) v available) in
    elim (Bool-cases (leb size 4096)) [
      | inr large ↦ rw (some_size, large) (inr heap)
      | inl small ↦ elim (Option-cases slab) [
        | inl e ↦ rw (some_size, small, e) (inr heap)
        | inr (p, e) ↦ rw (some_size, small, e) (inl (p, refl, ground arith, refl))
      ]
    ]

-- On a well-formed heap, for a pointer within it, `kfree` takes the block in use behind the header
-- out of use and keeps every other one; when there is none, all stay as they are. The heap is
-- well formed after it.
pub kfree_lem :
    (address : ℕ) {h : Heap}
    → WellFormed h
    → address + 40 < 2 ^ 64
    → WellFormed (kfree (address + 40) h)
      × (allocation address (kfree (address + 40) h).blocks ≡ none)
      × ((a : ℕ)
          → address ≢ a
          → allocation a (kfree (address + 40) h).blocks ≡ allocation a h.blocks)
unfolding kfree
kfree_lem address {h} v fits =
    let header : sub_word (address + 40) block_header_size ≡ address = omega arith in
    let some_pointer : (address + 40 == 0) ≡ false = ground arith in
    elim (release_block_lem address heap_start h.blocks v.tiled) [
      | inl (e, gone) ↦ rw (some_pointer, header, e) (v, gone, λ a ne. refl)
      | inr (f, e, r) ↦
          let above = end_of-above heap_start h.blocks in
          let c =
            coalesce-Same heap_start f.blocks r.change.tiled
              (omega (arith, r.change.ends, v.mapped, v.limited)) in
          rw (some_pointer, header, e)
            (
              record {
                tiled = c.tiled;
                begun = omega (arith, c.ends, r.change.ends, v.begun);
                mapped = omega (arith, c.ends, r.change.ends, v.mapped);
                limited = v.limited;
                counted = omega (arith, c.cost, r.cost, v.counted, v.mapped, v.limited);
              },
              c.used address ∙ r.change.at_address,
              λ a ne. c.used a ∙ r.change.others a ne,
            )
    ]

-- `heap_init` panics, or leaves a well-formed heap on which nothing is in use.
pub init_lem :
    (available : ℕ)
    → (init available unused ≡ none)
      ⊎ ((h : Heap) × (init available unused ≡ some h)
          × WellFormed h
          × ((a : ℕ) → allocation a h.blocks ≡ none))
unfolding init
init_lem available =
    let x : Expanded heap_initial_size unused (expand_heap available heap_initial_size unused) =
      expand_heap_lem available heap_initial_size (omega arith) (omega arith) in
    elim (Bool-cases (expand_heap available heap_initial_size unused).0) [
      | inr stopped ↦ rw (init, stopped) (inl refl)
      | inl ok ↦
          rw (init, ok)
            (inr (
              record (expand_heap available heap_initial_size unused).1 {
                blocks =
                    record {
                      address = heap_start;
                      size = heap_initial_size - block_header_size;
                      free = true;
                    }
                    ∷ [];
              },
              refl,
              record {
                tiled = (refl, tt);
                begun = omega arith;
                mapped = ground (arith, x.enough);
                limited = x.limited;
                counted = x.used;
              },
              λ a. ground arith,
            ))
    ]

-- A request within 7 of 2^64 wraps around to one of no bytes, which any free block serves: `kmalloc`
-- returns a pointer behind which no byte is in use, if the first block is free and has 72 bytes.
pub wrapped_request :
    (slab : Option ℕ) (available size : ℕ) (b : Block) (bs : List Block) (h : Heap)
    → 2 ^ 64 - 7 ≤ size
    → size < 2 ^ 64
    → h.blocks ≡ b ∷ bs
    → b.free ≡ true
    → 72 ≤ b.size
    → (h' : Heap) × (kmalloc slab available size h ≡ some (b.address + 40, h'))
      × (allocation b.address h'.blocks ≡ some 0)
unfolding kmalloc first_fit take_block
wrapped_request slab available size b bs h low high blocks is_free room =
    let wraps : align_8 size ≡ 0 = omega arith in
    let some_size : (size == 0) ≡ false = ground arith in
    let large : leb size 4096 ≡ false = ground arith in
    let rest : List Block =
      record {
        address = b.address + block_header_size + 0;
        size = b.size - 0 - block_header_size;
        free = true;
      }
      ∷ bs in
    let used : Block = record b { size = 0; free = false } in
    let fit : first_fit 0 h.blocks ≡ some (record { taken = used; blocks = used ∷ rest }) =
      rw (blocks, first_fit) (ground arith) in
    let self : (b.address == b.address) ≡ true = ground arith in
    rw (some_size, large, wraps)
      (unfold allocate in
        rw (allocate, fit)
          (
            record h {
              blocks = used ∷ rest;
              heap_used_size = word (h.heap_used_size + (0 + block_header_size));
            },
            refl,
            rw self refl,
          ))
