-- ===== src/Mm/Pmm/Bitmap.antt =====
-- `page_bitmap` of kernel/mm/pmm.c: one bit for each page frame, 1 for a page in use.
-- The array is a function from the byte's index.
use scarlett_os.Base.{
  ℕ, zero, suc, ◌+◌, ◌/◌, ◌%◌, ◌≤◌, ◌<◌, ◌≡◌, refl, Bool, true, false, arith, ◌==◌, if◌then◌else◌,
}
use scarlett_os.Base.Update.{update}
use scarlett_os.Base.Bits.{
  set_bit, clear_bit, test_bit, test_bit-set_bit, test_bit-clear_bit, set_bit-lt, clear_bit-lt,
}

abbrev pub PageBitmap : Type 0
PageBitmap = ℕ → ℕ

unfoldable pub bitmap_set : PageBitmap → ℕ → PageBitmap
bitmap_set bm bit = update bm (bit / 8) (set_bit (bm (bit / 8)) (bit % 8))

unfoldable pub bitmap_clear : PageBitmap → ℕ → PageBitmap
bitmap_clear bm bit = update bm (bit / 8) (clear_bit (bm (bit / 8)) (bit % 8))

unfoldable pub bitmap_test : PageBitmap → ℕ → Bool
bitmap_test bm bit = test_bit (bm (bit / 8)) (bit % 8)

-- Every entry of the array is a byte.
abbrev pub IsBytes : PageBitmap → Type 0
IsBytes bm = (i : ℕ) → bm i < 256

-- How many of the first `n` pages are free.
unfoldable pub count_free : PageBitmap → ℕ → ℕ
count_free bm zero = 0
count_free bm (suc n) = count_free bm n + (if bitmap_test bm n then 0 else 1)

module _ (bm : PageBitmap) (i : ℕ) (bytes : IsBytes bm) where
  pub bitmap_set-IsBytes : IsBytes (bitmap_set bm i)
  unfolding bitmap_set
  bitmap_set-IsBytes j =
      ground (arith, bytes j, set_bit-lt (bm (i / 8)) (i % 8) (bytes (i / 8)) (omega arith))

  pub bitmap_clear-IsBytes : IsBytes (bitmap_clear bm i)
  unfolding bitmap_clear
  bitmap_clear-IsBytes j =
      ground (arith, bytes j, clear_bit-lt (bm (i / 8)) (i % 8) (bytes (i / 8)) (omega arith))

-- Two indices with the same byte and the same bit are one.
same_place : (i j : ℕ) → i / 8 ≡ j / 8 → i % 8 ≡ j % 8 → i ≡ j
same_place i j h k = omega arith

module _ (bm : PageBitmap) (i j : ℕ) (bytes : IsBytes bm) where
  pub bitmap_test-bitmap_set :
      bitmap_test (bitmap_set bm i) j ≡ (if i == j then true else bitmap_test bm j)
  unfolding bitmap_test bitmap_set
  bitmap_test-bitmap_set = ground (
    arith,
    same_place i j,
    test_bit-set_bit (bm (i / 8)) (i % 8) (j % 8) (bytes (i / 8)) (omega arith) (omega arith),
  )

  pub bitmap_test-bitmap_clear :
      bitmap_test (bitmap_clear bm i) j ≡ (if i == j then false else bitmap_test bm j)
  unfolding bitmap_test bitmap_clear
  bitmap_test-bitmap_clear = ground (
    arith,
    same_place i j,
    test_bit-clear_bit (bm (i / 8)) (i % 8) (j % 8) (bytes (i / 8)) (omega arith) (omega arith),
  )

module _ (bm : PageBitmap) (i : ℕ) (bytes : IsBytes bm) where
  pub count_free-bitmap_set_of_le :
      (n : ℕ) → n ≤ i → count_free (bitmap_set bm i) n ≡ count_free bm n
  unfolding count_free
  count_free-bitmap_set_of_le zero h = refl
  count_free-bitmap_set_of_le (suc n) h =
      ground (arith, count_free-bitmap_set_of_le n, bitmap_test-bitmap_set bm i n bytes)

  -- Setting a clear bit takes one page from the free ones.
  pub count_free-bitmap_set :
      (n : ℕ)
      → i < n
      → bitmap_test bm i ≡ false
      → count_free (bitmap_set bm i) n + 1 ≡ count_free bm n
  unfolding count_free
  count_free-bitmap_set zero h free = absurd (omega arith)
  count_free-bitmap_set (suc n) h free = ground (
    arith,
    count_free-bitmap_set n,
    count_free-bitmap_set_of_le n,
    bitmap_test-bitmap_set bm i n bytes,
  )

  pub count_free-bitmap_clear_of_le :
      (n : ℕ) → n ≤ i → count_free (bitmap_clear bm i) n ≡ count_free bm n
  unfolding count_free
  count_free-bitmap_clear_of_le zero h = refl
  count_free-bitmap_clear_of_le (suc n) h =
      ground (arith, count_free-bitmap_clear_of_le n, bitmap_test-bitmap_clear bm i n bytes)

  -- Clearing a set bit gives one page back.
  pub count_free-bitmap_clear :
      (n : ℕ)
      → i < n
      → bitmap_test bm i ≡ true
      → count_free (bitmap_clear bm i) n ≡ count_free bm n + 1
  unfolding count_free
  count_free-bitmap_clear zero h used = absurd (omega arith)
  count_free-bitmap_clear (suc n) h used = ground (
    arith,
    count_free-bitmap_clear n,
    count_free-bitmap_clear_of_le n,
    bitmap_test-bitmap_clear bm i n bytes,
  )

pub count_free-le : (bm : PageBitmap) (n : ℕ) → count_free bm n ≤ n
unfolding count_free
count_free-le bm zero = omega arith
count_free-le bm (suc n) = ground (arith, count_free-le bm n)
