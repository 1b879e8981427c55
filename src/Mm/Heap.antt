-- ===== src/Mm/Heap.antt =====
-- kernel/mm/heap.c. The list of blocks is a list with each block's address; every block in it has the
-- magic number. `sizeof(heap_block_t)` is 40. What the slab allocator answers and how many pages
-- the page allocator and the page tables can give are arguments.
pub mod Blocks
pub mod Search
pub mod Coalesce
pub mod Release
pub mod Layout
pub mod Expand
pub mod Grant
pub mod Calls
pub mod Reach
mod Tests
use scarlett_os.Base.{
  ℕ, zero, suc, ◌+◌, ◌-◌, ◌*◌, ◌/◌, ◌^◌, Bool, true, false, not, ◌&&◌, Option, none, some, List, [],
  ◌∷◌, ◌++◌, ltb, leb, ◌==◌, if◌then◌else◌,
}
use scarlett_os.Mm.Pmm.{word, sub_word, align_up}

abbrev pub heap_start : ℕ
heap_start = 0xFFFFFFFFC0000000

abbrev pub heap_initial_size : ℕ
heap_initial_size = 16777216

abbrev pub heap_max_size : ℕ
heap_max_size = 268435456

abbrev pub block_header_size : ℕ
block_header_size = 40

-- `heap_block_t`
pub record Block : Type 0 where
  pub address : ℕ
  pub size : ℕ
  pub free : Bool

-- The file's static variables; `heap_start` is null as long as there is no block.
pub record Heap : Type 0 where
  pub blocks : List Block
  pub heap_current : ℕ
  pub heap_max : ℕ
  pub heap_total_size : ℕ
  pub heap_used_size : ℕ

abbrev pub unused : Heap
unused = record {
  blocks = [];
  heap_current = heap_start;
  heap_max = heap_start;
  heap_total_size = 0;
  heap_used_size = 0;
}

-- The loop of `expand_heap`: the pages still wanted, those that can be had, and `heap_current`.
unfoldable pub map_pages : ℕ → ℕ → ℕ → Bool × ℕ
map_pages zero available current = (true, current)
map_pages (suc n) zero current = (false, current)
map_pages (suc n) (suc available) current = map_pages n available (word (current + 4096))

-- `expand_heap`
unfoldable pub expand_heap : ℕ → ℕ → Heap → Bool × Heap
expand_heap available needed_size h =
    if ltb (heap_start + heap_max_size) (word (h.heap_current + align_up needed_size))
    then (false, h)
    else let mapped = map_pages (align_up needed_size / 4096) available h.heap_current in
      if mapped.0
      then (
        true,
        record h {
          heap_current = mapped.1;
          heap_max = mapped.1;
          heap_total_size = word (h.heap_total_size + align_up needed_size);
        },
      )
      else (false, record h { heap_current = mapped.1 })

-- The loop of `coalesce_free_blocks` at block `b`, with the blocks after it.
unfoldable pub coalesce_from : Block → List Block → List Block
coalesce_from b [] = b ∷ []
coalesce_from b (c ∷ cs) = elim (b.free && c.free) [
  | true ↦ coalesce_from (record b { size = word (b.size + (block_header_size + c.size)) }) cs
  | false ↦ b ∷ coalesce_from c cs
]

unfoldable pub coalesce_free_blocks : List Block → List Block
coalesce_free_blocks [] = []
coalesce_free_blocks (b ∷ bs) = coalesce_from b bs

-- `heap_init`, once the slab allocator is set up; `none` is its panic.
unfoldable pub init : ℕ → Heap → Option Heap
init available h =
    let expanded = expand_heap available heap_initial_size h in
    if expanded.0
    then some (record expanded.1 {
      blocks =
          record { address = heap_start; size = heap_initial_size - block_header_size; free = true }
          ∷ [];
    })
    else none

-- What the search of `kmalloc` finds: the block it takes, after the split, and the blocks.
pub record Fit : Type 0 where
  pub taken : Block
  pub blocks : List Block

-- The block that the search stops at, split when it is too large.
unfoldable pub take_block : ℕ → Block → List Block → Fit
take_block size b bs =
    if leb (word (size + block_header_size + 32)) b.size
    then record {
      taken = record b { size = size; free = false };
      blocks =
          record b { size = size; free = false }
          ∷ record {
            address = b.address + block_header_size + size;
            size = b.size - size - block_header_size;
            free = true;
          }
          ∷ bs;
    }
    else record { taken = record b { free = false }; blocks = record b { free = false } ∷ bs }

-- `while (block)` of `kmalloc`
unfoldable pub first_fit : ℕ → List Block → Option Fit
first_fit size [] = none
first_fit size (b ∷ bs) =
    let rest = first_fit size bs in
    if b.free && leb size b.size
    then some (take_block size b bs)
    else elim rest [ none ↦ none | some f ↦ some (record f { blocks = b ∷ f.blocks }) ]

-- Where the last block ends; `none` is that there is no block, which `kmalloc` would read.
unfoldable pub last_end : List Block → Option ℕ
last_end [] = none
last_end (b ∷ []) = some (b.address + block_header_size + b.size)
last_end (b ∷ c ∷ cs) = last_end (c ∷ cs)

-- The part of `kmalloc` after the search has failed and the heap has grown.
abbrev pub append_block : ℕ → ℕ → Heap → ℕ × Heap
append_block size address h =
    let b : Block = record {
      address = address;
      size = sub_word (word (size + block_header_size)) block_header_size;
      free = false;
    } in
    (
      address + block_header_size,
      record h {
        blocks = h.blocks ++ (b ∷ []);
        heap_used_size = word (h.heap_used_size + (b.size + block_header_size));
      },
    )

-- `kmalloc` once the size is aligned; address 0 is the failure and `none` a read through null.
unfoldable pub allocate : ℕ → ℕ → Heap → Option (ℕ × Heap)
allocate available size h = elim (first_fit size h.blocks) [
  | some f ↦ some (
    f.taken.address + block_header_size,
    record h {
      blocks = f.blocks;
      heap_used_size = word (h.heap_used_size + (f.taken.size + block_header_size));
    },
  )
  | none ↦
      let expanded = expand_heap available (word (size + block_header_size)) h in
      if expanded.0
      then elim (last_end expanded.1.blocks) [
        | none ↦ none
        | some address ↦ some (append_block size address expanded.1)
      ]
      else some (0, expanded.1)
]

-- `ALIGN_UP(size, 8)`
abbrev pub align_8 : ℕ → ℕ
align_8 size = word (size + 7) / 8 * 8

-- `kmalloc`. `slab` is the answer of `slab_alloc`.
unfoldable pub kmalloc : Option ℕ → ℕ → ℕ → Heap → Option (ℕ × Heap)
kmalloc slab available size h =
    if size == 0
    then some (0, h)
    else if leb size 4096
    then elim slab [ some address ↦ some (address, h) | none ↦ allocate available (align_8 size) h ]
    else allocate available (align_8 size) h

-- The block with the address, if it is in use: it becomes free.
unfoldable pub release_block : ℕ → List Block → Option Fit
release_block address [] = none
release_block address (b ∷ bs) =
    let rest = release_block address bs in
    if b.address == address
    then (if b.free
        then none
        else some (record { taken = b; blocks = record b { free = true } ∷ bs }))
    else elim rest [ none ↦ none | some f ↦ some (record f { blocks = b ∷ f.blocks }) ]

-- `kfree`. A pointer that is not a block's, or is a free block's, leaves the heap as it is.
unfoldable pub kfree : ℕ → Heap → Heap
kfree pointer h =
    if pointer == 0 then h else elim (release_block (sub_word pointer block_header_size) h.blocks) [
      | none ↦ h
      | some f ↦ record h {
        blocks = coalesce_free_blocks f.blocks;
        heap_used_size = sub_word h.heap_used_size (word (f.taken.size + block_header_size));
      }
    ]
