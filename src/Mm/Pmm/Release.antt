-- ===== src/Mm/Pmm/Release.antt =====
-- Reference counts: `pmm_ref_page`, `pmm_get_refcount` and `pmm_free_page` together.
use scarlett_os.Base.{
  ℕ, zero, suc, ◌+◌, ◌-◌, ◌*◌, ◌/◌, ◌%◌, ◌≤◌, ◌<◌, ◌≡◌, refl, ◌≢◌, ap, ◌==◌, inl, inr, true, false,
  arith, ltb, if◌then◌else◌, leb,
}
use scarlett_os.Mm.Pmm.Bitmap.{bitmap_test, bitmap_test-bitmap_clear}
use scarlett_os.Mm.Pmm.{
  Pmm, page_size, lowered, drop_reference, free_page, ref_page, get_refcount, alloc_page,
}
use scarlett_os.Mm.Pmm.Invariant.{WellFormed}
use scarlett_os.Mm.Pmm.Steps.{free_page-WellFormed, ref_page-WellFormed}
use scarlett_os.Mm.Pmm.Alloc.{Takes, alloc_page_lem}

-- `n` calls of one function.
abbrev pub times {ℓ} : {A : Type ℓ} → ℕ → (A → A) → A → A
times zero f x = x
times (suc n) f x = times n f (f x)

-- Page `p`, not page 0, is in use with the reference count `k`, and `s` has the bits and the
-- statistics of `b`.
pub record Held (b s : Pmm) (p k : ℕ) : Type 0 where
  pub valid : WellFormed s
  pub not_first : 0 < p
  pub below : p < s.total_pages
  pub used : bitmap_test s.page_bitmap p ≡ true
  pub count : s.page_refcount p ≡ k
  pub same_bits : s.page_bitmap ≡ b.page_bitmap
  pub same_free : s.free_pages ≡ b.free_pages

-- Page `p` is free again and everything else is as in `s`.
pub record Freed (s : Pmm) (p : ℕ) (t : Pmm) : Type 0 where
  pub now :
      (q : ℕ)
      → bitmap_test t.page_bitmap q ≡ (if p == q then false else bitmap_test s.page_bitmap q)
  pub counted : t.free_pages ≡ s.free_pages + 1
  pub valid : WellFormed t

page_of : (p : ℕ) → p * page_size / 4096 ≡ p
page_of p = omega arith

module _ {b s : Pmm} {p k : ℕ} (h : Held b s p k) where
  free_page_reaches : free_page (p * page_size) s ≡ drop_reference p s
  unfolding free_page
  free_page_reaches =
      let whole = page_of p in
      let not_null : (p * page_size == 0) ≡ false = ground (arith, h.not_first) in
      let aligned : (p * page_size % 4096 == 0) ≡ true = ground arith in
      let inside : leb s.total_pages p ≡ false = ground (arith, h.below) in
      rw (not_null, aligned, whole, inside, h.used)

  pub get_refcount-Held : get_refcount (p * page_size) s ≡ k
  unfolding get_refcount
  get_refcount-Held =
      let whole = page_of p in
      let not_null : (p * page_size == 0) ≡ false = ground (arith, h.not_first) in
      let inside : leb s.total_pages p ≡ false = ground (arith, h.below) in
      rw (not_null, whole, inside) h.count

  -- One more owner.
  pub ref_page-Held : k < 65535 → Held b (ref_page (p * page_size) s) p (k + 1)
  unfolding ref_page
  ref_page-Held room =
      let whole = page_of p in
      let not_null : (p * page_size == 0) ≡ false = ground (arith, h.not_first) in
      let inside : leb s.total_pages p ≡ false = ground (arith, h.below) in
      let more : ltb (s.page_refcount p) 65535 ≡ true = ground (arith, h.count) in
      let valid = ref_page-WellFormed (p * page_size) h.valid in
      record {
        valid = valid;
        not_first = h.not_first;
        below = rw (not_null, whole, inside, more) h.below;
        used = rw (not_null, whole, inside, more) h.used;
        count = rw (not_null, whole, inside, more) (ground (arith, h.count));
        same_bits = rw (not_null, whole, inside, more) h.same_bits;
        same_free = rw (not_null, whole, inside, more) h.same_free;
      }

  -- While there are two owners or more, a free takes one of them away and the page stays in use.
  pub free_page-Held : 2 ≤ k → Held b (free_page (p * page_size) s) p (k - 1)
  free_page-Held many =
      let stays : (lowered (s.page_refcount p) == 0) ≡ false = ground (arith, h.count) in
      record {
        valid = free_page-WellFormed (p * page_size) h.valid;
        not_first = h.not_first;
        below = rw free_page_reaches (unfold drop_reference in rw stays h.below);
        used = rw free_page_reaches (unfold drop_reference in rw stays h.used);
        count = rw free_page_reaches (unfold drop_reference in rw stays (ground (arith, h.count)));
        same_bits = rw free_page_reaches (unfold drop_reference in rw stays h.same_bits);
        same_free = rw free_page_reaches (unfold drop_reference in rw stays h.same_free);
      }

  -- With one owner, or none counted, a free gives the page back.
  pub free_page-Freed : k ≤ 1 → Freed s p (free_page (p * page_size) s)
  free_page-Freed last =
      let goes : (lowered (s.page_refcount p) == 0) ≡ true = ground (arith, h.count) in
      record {
        now = λ q. rw free_page_reaches (
            unfold drop_reference in
            rw goes (bitmap_test-bitmap_clear s.page_bitmap p q h.valid.bytes));
        counted =
            rw free_page_reaches
              (unfold drop_reference in rw goes (omega (arith, h.valid.shared, h.valid.small)));
        valid = free_page-WellFormed (p * page_size) h.valid;
      }

pub times-ref_page :
    (n : ℕ) {b s : Pmm} {p k : ℕ}
    → Held b s p k
    → k + n ≤ 65535
    → Held b (times n (ref_page (p * page_size)) s) p (k + n)
times-ref_page zero {s} {p} {k} h room = let e : k + 0 ≡ k = omega arith in rw e h
times-ref_page (suc n) {s} {p} {k} h room =
    let e : k + suc n ≡ k + 1 + n = omega arith in
    rw e (times-ref_page n (ref_page-Held h (omega arith)) (omega arith))

pub times-free_page :
    (n : ℕ) {b s : Pmm} {p k : ℕ}
    → Held b s p k
    → n < k
    → Held b (times n (free_page (p * page_size)) s) p (k - n)
times-free_page zero {s} {p} {k} h more = let e : k - 0 ≡ k = omega arith in rw e h
times-free_page (suc n) {s} {p} {k} h more =
    let e : k - suc n ≡ k - 1 - n = omega arith in
    rw e (times-free_page n (free_page-Held h (omega arith)) (omega arith))

-- What a successful `pmm_alloc_page` returns is held once.
pub alloc_page-Held :
    {s : Pmm}
    → WellFormed s
    → (alloc_page s).0 ≢ 0
    → (p : ℕ) × (256 ≤ p)
      × Takes s p 1 (alloc_page s).0 (alloc_page s).1
      × Held (alloc_page s).1 (alloc_page s).1 p 1
alloc_page-Held {s} v got = elim (alloc_page_lem v) [
  | inl (e, _) ↦ absurd (got (ap (λ (r : ℕ × Pmm). r.0) e))
  | inr (p, lo, takes, count) ↦ (
    p,
    lo,
    takes,
    record {
      valid = takes.valid;
      not_first = omega arith;
      below = omega (arith, takes.fits, takes.same_total);
      used = rw (takes.now p) (ground arith);
      count = count;
      same_bits = refl;
      same_free = refl;
    },
  )
]
