-- ===== src/Mm/Heap/Tests.antt =====
-- A small heap with one block in use, and the heap that `heap_init` leaves.
use scarlett_os.Base.{ℕ, ◌+◌, ◌≡◌, ◌≢◌, refl, true, false, none, [], ◌∷◌, arith}
use scarlett_os.Mm.Heap.{
  Heap, Block, heap_start, release_block, coalesce_free_blocks, coalesce_from, kmalloc, kfree,
}
use scarlett_os.Mm.Heap.Blocks.{allocation}
use scarlett_os.Mm.Heap.Reach.{Reach}
use scarlett_os.Mm.Heap.Grant.{WellFormed}
use scarlett_os.Mm.Heap.Calls.{MallocOutcome, kmalloc_lem, kfree_lem}

abbrev first : Block
first = record { address = heap_start; size = 1000; free = false }

abbrev second : Block
second = record { address = heap_start + 1040; size = 5000; free = true }

abbrev third : Block
third = record { address = heap_start + 6080; size = 200; free = false }

abbrev three_blocks : Heap
three_blocks = record {
  blocks = first ∷ second ∷ third ∷ [];
  heap_current = heap_start + 8192;
  heap_max = heap_start + 8192;
  heap_total_size = 8192;
  heap_used_size = 1280;
}

three_blocks-WellFormed : WellFormed three_blocks
three_blocks-WellFormed = record {
  tiled = (refl, (refl, (refl, tt)));
  begun = omega arith;
  mapped = omega arith;
  limited = omega arith;
  counted = refl;
}

kmalloc_lem_example : MallocOutcome none 4500 three_blocks (kmalloc none 10 4500 three_blocks)
kmalloc_lem_example = kmalloc_lem none 10 4500 three_blocks-WellFormed (omega arith) (omega arith)

kfree_lem_example :
    WellFormed (kfree (heap_start + 40) three_blocks)
    × (allocation heap_start (kfree (heap_start + 40) three_blocks).blocks ≡ none)
    × ((a : ℕ)
        → heap_start ≢ a
        → allocation a (kfree (heap_start + 40) three_blocks).blocks
          ≡ allocation a three_blocks.blocks)
kfree_lem_example = kfree_lem heap_start three_blocks-WellFormed (omega arith)

abbrev fresh : Heap
fresh = record {
  blocks = record { address = heap_start; size = 16777176; free = true } ∷ [];
  heap_current = heap_start + 16777216;
  heap_max = heap_start + 16777216;
  heap_total_size = 16777216;
  heap_used_size = 0;
}

-- Requests for 8000 and 5000 bytes after `heap_init`.
abbrev once : Heap
once = record fresh {
  blocks =
      record { address = heap_start; size = 8000; free = false }
      ∷ record { address = heap_start + 8040; size = 16769136; free = true }
      ∷ [];
  heap_used_size = 8040;
}

abbrev twice : Heap
twice = record fresh {
  blocks =
      record { address = heap_start; size = 8000; free = false }
      ∷ record { address = heap_start + 8040; size = 5000; free = false }
      ∷ record { address = heap_start + 13080; size = 16764096; free = true }
      ∷ [];
  heap_used_size = 13080;
}

-- A free merges the block with the free ones around it.
freed_again :
    (kfree (heap_start + 8080) twice).blocks
    ≡ record { address = heap_start; size = 8000; free = false }
      ∷ record { address = heap_start + 8040; size = 16769136; free = true }
      ∷ []
unfolding kfree release_block coalesce_free_blocks coalesce_from
freed_again = refl
