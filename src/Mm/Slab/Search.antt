-- ===== src/Mm/Slab/Search.antt =====
-- The search of `find_free_object` in kernel/mm/slab.c.
use mathlib.Core.Path.{subst}
use scarlett_os.Base.{
  ℕ, zero, suc, ◌+◌, ◌*◌, ◌/◌, ◌%◌, ◌≤◌, ◌<◌, ◌≡◌, refl, inl, inr, true, false, not, Option, none,
  some, leb, ltb, ◌==◌, Bool-cases, Option-cases, arith,
}
use scarlett_os.Base.Bits.{test_bit, every_below, test_of_every_below}
use scarlett_os.Mm.Pmm.Bitmap.{PageBitmap, bitmap_test}
use scarlett_os.Mm.Slab.{find_in_byte, find_in_bytes}

-- What a search answers: the first object from `first` on that is free, or that there is none before
-- `end` and `count`.
abbrev pub Found : ℕ → ℕ → ℕ → PageBitmap → Option ℕ → Type 0
Found first end count bm none = (j : ℕ) → first ≤ j → j < end → j < count → bitmap_test bm j ≡ false
Found first end count bm (some i) =
    (first ≤ i)
    × (i < end)
    × (i < count)
    × (bitmap_test bm i ≡ true)
    × ((j : ℕ) → first ≤ j → j < i → bitmap_test bm j ≡ false)

Found-later :
    (p end count : ℕ) (bm : PageBitmap) (o : Option ℕ)
    → bitmap_test bm p ≡ false
    → Found (p + 1) end count bm o
    → Found p end count bm o
Found-later p end count bm none used f = λ j lo hi inside. elim (Bool-cases (p == j)) [
  | inl e ↦ let same : p ≡ j = ground arith in rw (← same) used
  | inr e ↦ f j (ground arith) hi inside
]
Found-later p end count bm (some i) used (lo, hi, inside, free, before) = (
  omega arith,
  hi,
  inside,
  free,
  λ j lo' hi'. elim (Bool-cases (p == j)) [
    | inl e ↦ let same : p ≡ j = ground arith in rw (← same) used
    | inr e ↦ before j (ground arith) hi'
  ],
)

find_in_byte-Found :
    (left bit byte count p end : ℕ) (bm : PageBitmap)
    → p ≡ byte * 8 + bit
    → end ≡ p + left
    → Found p end count bm (find_in_byte left bit byte count bm)
unfolding find_in_byte
find_in_byte-Found zero bit byte count p end bm e k = λ j lo hi inside. absurd (omega arith)
find_in_byte-Found (suc left) bit byte count p end bm e k = elim (Bool-cases (bitmap_test bm p)) [
  | inl free ↦ elim (Bool-cases (leb count p)) [
    | inl out ↦ rw (find_in_byte, ← e, free, out) (λ j lo hi inside. absurd (ground arith))
    | inr inside ↦
        rw (find_in_byte, ← e, free, inside)
          (omega arith, omega arith, ground arith, free, λ j lo hi. absurd (omega arith))
  ]
  | inr used ↦
      rw (find_in_byte, ← e, used)
        (Found-later p end count bm (find_in_byte left (bit + 1) byte count bm) used
          (find_in_byte-Found left (bit + 1) byte count (p + 1) end bm (omega arith) (omega arith)))
]

zeros : every_below (λ k. not (test_bit 0 k)) 8 ≡ true
unfolding every_below test_bit
zeros = refl

-- A byte that is 0 has no free object.
zero_byte : (byte j : ℕ) (bm : PageBitmap) → bm byte ≡ 0 → j / 8 ≡ byte → bitmap_test bm j ≡ false
unfolding bitmap_test
zero_byte byte j bm z e =
    let below : j % 8 < 8 = omega arith in
    let none_set = test_of_every_below (λ k. not (test_bit 0 k)) 8 below zeros in
    rw (bitmap_test, e, z) (ground (arith, none_set))

-- Two searches in a row.
Found-join :
    (p q end count : ℕ) (bm : PageBitmap) (o : Option ℕ)
    → Found p q count bm none
    → p ≤ q
    → Found q end count bm o
    → Found p end count bm o
Found-join p q end count bm none f le g = λ j lo hi inside. elim (Bool-cases (ltb j q)) [
  | inl e ↦ f j lo (ground arith) inside
  | inr e ↦ g j (ground arith) hi inside
]
Found-join p q end count bm (some i) f le (lo, hi, inside, free, before) = (
  omega arith,
  hi,
  inside,
  free,
  λ j lo' hi'. elim (Bool-cases (ltb j q)) [
    | inl e ↦ f j lo' (ground arith) (omega arith)
    | inr e ↦ before j (ground arith) hi'
  ],
)

Found-widen :
    (p q end count i : ℕ) (bm : PageBitmap)
    → q ≤ end
    → Found p q count bm (some i)
    → Found p end count bm (some i)
Found-widen p q end count i bm le (lo, hi, inside, free, before) =
    (lo, omega arith, inside, free, before)

-- The search over the bytes finds the first free object.
pub find_in_bytes-Found :
    (left byte count p end : ℕ) (bm : PageBitmap)
    → p ≡ byte * 8
    → end ≡ p + left * 8
    → Found p end count bm (find_in_bytes left byte count bm)
unfolding find_in_bytes
find_in_bytes-Found zero byte count p end bm e k = λ j lo hi inside. absurd (omega arith)
find_in_bytes-Found (suc left) byte count p end bm e k =
    let rest =
      find_in_bytes-Found left (byte + 1) count (p + 8) end bm (omega arith) (omega arith) in
    elim (Bool-cases (bm byte == 0)) [
      | inl z ↦
          rw (find_in_bytes, z)
            (Found-join p (p + 8) end count bm (find_in_bytes left (byte + 1) count bm)
              (λ j lo hi inside. zero_byte byte j bm (ground arith) (omega arith)) (omega arith)
              rest)
      | inr nz ↦
          let here : Found p (p + 8) count bm (find_in_byte 8 0 byte count bm) =
            find_in_byte-Found 8 0 byte count p (p + 8) bm (omega arith) refl in
          elim (Option-cases (find_in_byte 8 0 byte count bm)) [
            | inl e' ↦
                rw (find_in_bytes, nz, e')
                  (Found-join p (p + 8) end count bm (find_in_bytes left (byte + 1) count bm)
                    (subst (Found p (p + 8) count bm) e' here) (omega arith) rest)
            | inr (i, e') ↦
                rw (find_in_bytes, nz, e')
                  (Found-widen p (p + 8) end count i bm (omega arith)
                    (subst (Found p (p + 8) count bm) e' here))
          ]
    ]
