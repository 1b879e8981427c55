-- ===== src/Mm.antt =====
-- kernel/mm: the physical page allocator, the kernel heap and the slab allocator.
pub mod Pmm
pub mod Heap
pub mod Slab
