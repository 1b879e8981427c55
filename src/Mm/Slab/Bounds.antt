-- ===== src/Mm/Slab/Bounds.antt =====
-- Where the objects of a new page of kernel/mm/slab.c lie.
use scarlett_os.Base.{ℕ, zero, suc, ◌+◌, ◌-◌, ◌≤◌, ◌<◌, ◌⊎◌, inl, inr, arith}
use scarlett_os.Mm.Slab.{object_size, object_address, new_page}

-- The objects of a page for the sizes 8, 16 and 32 are more than there is room for; those for 64 to 4096
-- bytes end before the page does.
abbrev pub Placed : ℕ → ℕ → Type 0
Placed a k =
    ((k ≤ 2)
      × (a + 4096
          < object_address (new_page a k) ((new_page a k).total_objects - 1)
            + object_size (new_page a k)))
    ⊎ ((3 ≤ k)
        × ((i : ℕ)
            → i < (new_page a k).total_objects
            → object_address (new_page a k) i + object_size (new_page a k) ≤ a + 4096))

pub new_page-Placed : (a k : ℕ) → k ≤ 9 → Placed a k
new_page-Placed a zero h = inl (omega arith, omega arith)
new_page-Placed a (suc zero) h = inl (omega arith, omega arith)
new_page-Placed a (suc (suc zero)) h = inl (omega arith, omega arith)
new_page-Placed a (suc (suc (suc zero))) h = inr (omega arith, λ i lt. omega arith)
new_page-Placed a (suc (suc (suc (suc zero)))) h = inr (omega arith, λ i lt. omega arith)
new_page-Placed a (suc (suc (suc (suc (suc zero))))) h = inr (omega arith, λ i lt. omega arith)
new_page-Placed a (suc (suc (suc (suc (suc (suc zero)))))) h =
    inr (omega arith, λ i lt. omega arith)
new_page-Placed a (suc (suc (suc (suc (suc (suc (suc zero))))))) h =
    inr (omega arith, λ i lt. omega arith)
new_page-Placed a (suc (suc (suc (suc (suc (suc (suc (suc zero)))))))) h =
    inr (omega arith, λ i lt. omega arith)
new_page-Placed a (suc (suc (suc (suc (suc (suc (suc (suc (suc zero))))))))) h =
    inr (omega arith, λ i lt. omega arith)
new_page-Placed a (suc (suc (suc (suc (suc (suc (suc (suc (suc (suc k)))))))))) h =
    absurd (omega arith)
