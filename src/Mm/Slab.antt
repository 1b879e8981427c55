-- ===== src/Mm/Slab.antt =====
-- kernel/mm/slab.c. A page is a record with its address; the doubly linked lists of a cache are lists
-- of pages. The bytes of a page's bitmap are a function of the index, as in Mm/Pmm, and
-- `sizeof(slab_page_t)` is 32. The fields of 32 bits wrap around.
pub mod Search
pub mod Page
pub mod Bounds
pub mod Nested
pub mod Cache
mod Tests
use scarlett_os.Base.{
  ℕ, zero, suc, ◌+◌, ◌-◌, ◌*◌, ◌/◌, ◌%◌, ◌^◌, Bool, true, false, not, ◌&&◌, ◌||◌, Option, none,
  some, List, [], ◌∷◌, ltb, leb, ◌==◌, if◌then◌else◌, get_or,
}
use scarlett_os.Base.Update.{update}
use scarlett_os.Mm.Pmm.Bitmap.{PageBitmap, bitmap_set, bitmap_clear, bitmap_test}

abbrev pub slab_sizes : List ℕ
slab_sizes = 8 ∷ 16 ∷ 32 ∷ 64 ∷ 128 ∷ 256 ∷ 512 ∷ 1024 ∷ 2048 ∷ 4096 ∷ 0 ∷ []

abbrev pub slab_page_size : ℕ
slab_page_size = 4096

abbrev pub page_header : ℕ
page_header = 32

-- `SLAB_OBJECTS_PER_PAGE`
abbrev pub objects_per_page : ℕ → ℕ
objects_per_page size = (slab_page_size - page_header) / size

-- `slab_page_t`, without the links.
pub record SlabPage : Type 0 where
  pub address : ℕ
  pub free_count : ℕ
  pub total_objects : ℕ
  pub size_class : ℕ
  pub bitmap : PageBitmap

-- `slab_cache_t`
pub record SlabCache : Type 0 where
  pub partial_pages : List SlabPage
  pub full_pages : List SlabPage
  pub total_pages : ℕ
  pub total_objects : ℕ
  pub free_objects : ℕ

abbrev pub object_size : SlabPage → ℕ
object_size page = get_or slab_sizes page.size_class 0

-- The loop of `find_size_class`, from `i` on.
abbrev pub size_class_from : ℕ → ℕ → List ℕ → ℕ
size_class_from size i [] = 10
size_class_from size i (s ∷ sizes) = if leb size s then i else size_class_from size (i + 1) sizes

-- `find_size_class`
abbrev pub find_size_class : ℕ → ℕ
find_size_class size = size_class_from size 0 slab_sizes

-- `get_bitmap_size`
abbrev pub bitmap_size : ℕ → ℕ
bitmap_size count = (count + 7) % 2 ^ 32 / 8

-- `init_slab_cache`
abbrev pub init_slab_cache : SlabCache
init_slab_cache = record {
  partial_pages = [];
  full_pages = [];
  total_pages = 0;
  total_objects = 0;
  free_objects = 0;
}

-- `alloc_slab_page` on the memory that `kmalloc` gave.
abbrev pub new_page : (address size_class : ℕ) → SlabPage
new_page address size_class =
    let count = objects_per_page (get_or slab_sizes size_class 0) in
    record {
      address = address;
      free_count = count;
      total_objects = count;
      size_class = size_class;
      bitmap = λ i. 255;
    }

-- The loop of `find_free_object` over the bits of a byte.
unfoldable pub find_in_byte : (left bit byte count : ℕ) → PageBitmap → Option ℕ
find_in_byte zero bit byte count bm = none
find_in_byte (suc left) bit byte count bm =
    let rest = find_in_byte left (bit + 1) byte count bm in
    if bitmap_test bm (byte * 8 + bit)
    then (if leb count (byte * 8 + bit) then none else some (byte * 8 + bit))
    else rest

-- The loop of `find_free_object` over the bytes.
unfoldable pub find_in_bytes : (left byte count : ℕ) → PageBitmap → Option ℕ
unfolding find_in_byte
find_in_bytes zero byte count bm = none
find_in_bytes (suc left) byte count bm =
    let rest = find_in_bytes left (byte + 1) count bm in
    if bm byte == 0
    then rest
    else elim (find_in_byte 8 0 byte count bm) [ none ↦ rest | some i ↦ some i ]

-- Where the objects of a page begin, and the address of one.
abbrev pub objects_start : SlabPage → ℕ
objects_start page = page.address + (page_header + bitmap_size page.total_objects)

abbrev pub object_address : SlabPage → ℕ → ℕ
object_address page i = objects_start page + i * object_size page

abbrev pub take_object : SlabPage → ℕ → SlabPage
take_object page i = record page {
  bitmap = bitmap_clear page.bitmap i;
  free_count = (page.free_count + 2 ^ 32 - 1) % 2 ^ 32;
}

-- `find_free_object`
unfoldable pub find_free_object : SlabPage → Option (ℕ × SlabPage)
unfolding find_in_bytes
find_free_object page =
    elim (find_in_bytes (bitmap_size page.total_objects) 0 page.total_objects page.bitmap) [
      | none ↦ none
      | some i ↦ some (object_address page i, take_object page i)
    ]

-- `free_object_in_page`; what is no object of the page is reported and left.
unfoldable pub free_object_in_page : SlabPage → ℕ → SlabPage
free_object_in_page page ptr =
    let i = ((ptr + 2 ^ 64 - objects_start page) % 2 ^ 64 / object_size page) % 2 ^ 32 in
    if leb page.total_objects i then page else record page {
      bitmap = bitmap_set page.bitmap i;
      free_count = (page.free_count + 1) % 2 ^ 32;
    }

-- `slab_init`
abbrev pub slab_init : ℕ → SlabCache
slab_init c = init_slab_cache

-- An object has been taken from the first partial page, which moves to the full pages with its last.
abbrev pub served_by : SlabPage → List SlabPage → SlabCache → SlabCache
served_by page pages cache = record {
  partial_pages = if page.free_count == 0 then pages else page ∷ pages;
  full_pages = if page.free_count == 0 then page ∷ cache.full_pages else cache.full_pages;
  total_pages = cache.total_pages;
  total_objects = (cache.total_objects + 1) % 2 ^ 32;
  free_objects = (cache.free_objects + 2 ^ 32 - 1) % 2 ^ 32;
}

-- A new page has been put in front of the partial pages.
abbrev pub extended_by : SlabPage → SlabCache → SlabCache
extended_by page cache = record {
  partial_pages = page ∷ cache.partial_pages;
  full_pages = cache.full_pages;
  total_pages = (cache.total_pages + 1) % 2 ^ 32;
  total_objects = (cache.total_objects + 1) % 2 ^ 32;
  free_objects = (cache.free_objects + (page.free_count + 2 ^ 32 - 1)) % 2 ^ 32;
}

-- The part of `slab_alloc` for a new page; `memory` is the answer of `kmalloc` and 0 the null pointer.
unfoldable pub extend : (memory size_class : ℕ) → SlabCache → ℕ × SlabCache
unfolding find_free_object
extend memory size_class cache =
    if memory == 0 then (0, cache) else elim (find_free_object (new_page memory size_class)) [
      | none ↦ (0, extended_by (new_page memory size_class) cache)
      | some (object, page) ↦ (object, extended_by page cache)
    ]

-- The part of `slab_alloc` under the cache's lock.
unfoldable pub cache_alloc : (memory size_class : ℕ) → List SlabPage → SlabCache → ℕ × SlabCache
unfolding extend
cache_alloc memory size_class [] cache = extend memory size_class cache
cache_alloc memory size_class (page ∷ pages) cache = elim (find_free_object page) [
  | none ↦ extend memory size_class cache
  | some (object, page') ↦ (object, served_by page' pages cache)
]

-- `slab_alloc`
unfoldable pub slab_alloc : (memory size : ℕ) → (ℕ → SlabCache) → ℕ × (ℕ → SlabCache)
unfolding cache_alloc
slab_alloc memory size caches =
    if size == 0 || ltb 4096 size
    then (0, caches)
    else let c = find_size_class size in
      let r = cache_alloc memory c (caches c).partial_pages (caches c) in (r.0, update caches c r.1)
