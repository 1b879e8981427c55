-- ===== src/Mm/Pmm/Search.antt =====
-- The two search loops of kernel/mm/pmm.c: the first clear bit, and the first run of clear bits.
use scarlett_os.Base.{
  ℕ, zero, suc, ◌+◌, ◌-◌, ◌≤◌, ◌<◌, ◌≡◌, refl, ◌≢◌, inl, inr, Bool-cases, true, false, none, some,
  arith, ◌==◌, if◌then◌else◌, leb,
}
use scarlett_os.Mm.Pmm.Bitmap.{PageBitmap, bitmap_test}
use scarlett_os.Mm.Pmm.{find_clear, find_run}

-- Every page from `a` up to `b` has its bit set, or has it clear.
abbrev pub AllUsed : PageBitmap → ℕ → ℕ → Type 0
AllUsed bm a b = (q : ℕ) → a ≤ q → q < b → bitmap_test bm q ≡ true

abbrev pub AllFree : PageBitmap → ℕ → ℕ → Type 0
AllFree bm a b = (q : ℕ) → a ≤ q → q < b → bitmap_test bm q ≡ false

module _ (bm : PageBitmap) where
  pub find_clear-some :
      (n p q : ℕ)
      → find_clear n p bm ≡ some q
      → (p ≤ q) × (q < p + n) × (bitmap_test bm q ≡ false) × AllUsed bm p q
  unfolding find_clear
  find_clear-some zero p q h = cc
  find_clear-some (suc n) p q h = elim (Bool-cases (bitmap_test bm p)) [
    | inr free ↦
        let e : p ≡ q = ground arith in
        (omega arith, omega arith, rw (← e) free, λ r lo hi. absurd (omega arith))
    | inl used ↦
        let (lo, hi, clear, before) = find_clear-some n (p + 1) q (ground arith) in
        (
          omega arith,
          omega arith,
          clear,
          λ r a b. elim (Bool-cases (p == r)) [
            | inl e ↦ let e' : p ≡ r = ground arith in rw (← e') used
            | inr ne ↦ before r (ground arith) b
          ],
        )
  ]

  pub find_clear-none : (n p : ℕ) → find_clear n p bm ≡ none → AllUsed bm p (p + n)
  unfolding find_clear
  find_clear-none zero p h = λ r lo hi. absurd (omega arith)
  find_clear-none (suc n) p h = λ r lo hi. elim (Bool-cases (bitmap_test bm p)) [
    | inr free ↦ absurd (ground arith)
    | inl used ↦ ground (arith, find_clear-none n (p + 1) (ground arith) r)
  ]

  -- The last `found` pages before `p` are clear, and `start` is the first of them.
  pub record Scanning (p start found : ℕ) : Type 0 where
    within : found ≤ p
    begun : found ≢ 0 → start + found ≡ p
    clear : AllFree bm (p - found) p

  Scanning-used : (p start : ℕ) → Scanning (p + 1) start 0
  Scanning-used p start = record {
    within = omega arith;
    begun = λ h. absurd (h refl);
    clear = λ q lo hi. absurd (omega arith);
  }

  Scanning-free :
      (p start found : ℕ)
      → Scanning p start found
      → bitmap_test bm p ≡ false
      → Scanning (p + 1) (if found == 0 then p else start) (found + 1)
  Scanning-free p start found v free = record {
    within = omega (arith, v.within);
    begun = λ h. ground (arith, v.begun);
    clear = λ q lo hi. elim (Bool-cases (p == q)) [
      | inl e ↦ let e' : p ≡ q = ground arith in rw (← e') free
      | inr ne ↦ v.clear q (ground (arith, v.within)) (ground arith)
    ];
  }

  pub find_run-some :
      (n p count start found : ℕ) {st : ℕ}
      → Scanning p start found
      → found < count
      → find_run n p count start found bm ≡ some st
      → (st + count ≤ p + n) × AllFree bm st (st + count)
  unfolding find_run
  find_run-some zero p count start found v few h = cc
  find_run-some (suc n) p count start found {st} v few h = elim (Bool-cases (bitmap_test bm p)) [
    | inl used ↦
        let (fits, clear) =
          find_run-some n (p + 1) count start 0 {st = st} (Scanning-used p start) (omega arith)
            (ground arith) in
        (omega arith, clear)
    | inr free ↦
        let v' = Scanning-free p start found v free in
        elim (Bool-cases (found + 1 == count)) [
          | inr more ↦
              let (fits, clear) =
                find_run-some n (p + 1) count (if found == 0 then p else start) (found + 1)
                  {st = st} v' (ground arith) (ground arith) in
              (omega arith, clear)
          | inl full ↦
              let e : (if found == 0 then p else start) ≡ st = ground arith in
              let b : (if found == 0 then p else start) + (found + 1) ≡ p + 1 =
                v'.begun (omega arith) in
              let fits : st + count ≡ p + 1 = ground arith in
              (omega arith, λ q lo hi. v'.clear q (ground arith) (ground arith))
        ]
  ]

  pub find_run-none :
      (n p count start found : ℕ)
      → found < count
      → find_run n p count start found bm ≡ none
      → (st : ℕ) → p ≤ st + found
      → st + count ≤ p + n
      → ¬ AllFree bm st (st + count)
  unfolding find_run
  find_run-none zero p count start found few h st lo hi clear = omega arith
  find_run-none (suc n) p count start found few h st lo hi clear =
      elim (Bool-cases (bitmap_test bm p)) [
        | inl used ↦ elim (Bool-cases (leb st p)) [
          | inl le ↦ ground (arith, clear p)
          | inr gt ↦
              find_run-none n (p + 1) count start 0 (omega arith) (ground arith) st (ground arith)
                (omega arith) clear
        ]
        | inr free ↦
            find_run-none n (p + 1) count (if found == 0 then p else start) (found + 1)
              (ground arith) (ground arith) st (omega arith) (omega arith) clear
      ]

  -- The search of `pmm_alloc_pages` starts with nothing found.
  pub Scanning-start : Scanning 0 0 0
  Scanning-start = record {
    within = omega arith;
    begun = λ h. absurd (h refl);
    clear = λ q lo hi. absurd (omega arith);
  }
