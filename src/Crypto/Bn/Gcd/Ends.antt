-- ===== src/Crypto/Bn/Gcd/Ends.antt =====
-- The loop of `bn_gcd` of kernel/crypto/bn.c ends, whatever memory its copies are refused.
use mathlib.Core.Path.{subst}
use scarlett_os.Base.{
  ℕ, zero, suc, ◌+◌, ◌≤◌, ◌<◌, ◌≡◌, refl, sym, ◌⊎◌, inl, inr, true, false, none, some, ◌==◌,
  Bool-cases, arith,
}
use scarlett_os.Crypto.Bn.{Bn, new_bn, copy}
use scarlett_os.Crypto.Bn.Words.{WellFormed, number, AreWords-replicate}
use scarlett_os.Crypto.Bn.Copy.{top_from-replicate}
use scarlett_os.Crypto.Bn.Divide.Outcome.{div_lem}
use scarlett_os.Crypto.Bn.Gcd.{
  GcdRound, GcdMemory, GcdResult, gcd_faults, leaves, gcd_loop, gcd, copy_result,
}
use scarlett_os.Crypto.Bn.Gcd.Round.{
  Ordered, copy_or_kept, copy-smaller, Filled-Reduced, next-Ordered,
}

-- A division lacks the memory for its remainder's working number.
abbrev pub RoundRefused : (ℕ → GcdRound) → Type 0
RoundRefused memory = (k : ℕ) × ((memory k).division.remainder_found ≡ false)

abbrev LoopOutcome : (ℕ → GcdRound) → GcdResult → Type 0
LoopOutcome memory result =
    ((result ≡ gcd_faults) × RoundRefused memory) ⊎ ((t : Bn) × (result ≡ leaves t) × WellFormed t)

-- Every round makes the second number smaller, so that rounds for its value are enough.
gcd_loop-ends :
    (fuel k : ℕ) (memory : ℕ → GcdRound) (t1 t2 temp : Bn)
    → WellFormed t1
    → WellFormed t2
    → WellFormed temp
    → Ordered t1 t2 temp
    → number t2 < fuel
    → LoopOutcome memory (gcd_loop fuel k memory t1 t2 (some temp))
unfolding gcd_loop
gcd_loop-ends zero k memory t1 t2 temp v w u o h = absurd (omega arith)
gcd_loop-ends (suc fuel) k memory t1 t2 temp v w u o h = elim (Bool-cases (t2.top == 0)) [
  | inl z ↦ rw (gcd_loop, z) (inr (t1, refl, v))
  | inr more ↦
      let used : 1 ≤ t2.top = ground arith in
      elim (div_lem (memory k).division none (some temp) t1 t2 v w used) [
        | inl (stops, why) ↦ rw (gcd_loop, more, stops) (inl (refl, (k, why.1)))
        | inr d ↦
            let (left, is, filled) = d.remainder_stored in
            let r =
              Filled-Reduced (memory k).division.remainder_copy t1 t2 temp left d.q d.rest w u used
                o d.divides filled in
            let first = (memory k).first_copy in
            let second = (memory k).second_copy in
            let (v', kind) = copy_or_kept first t1 t2 v w in
            let (w', same) = copy-smaller second t2 left w r.valid r.less in
            rw (gcd_loop, more, d.answers, is)
              (gcd_loop-ends fuel (k + 1) memory (copy first t1 t2).1 (copy second t2 left).1 left
                v' w' r.valid
                (next-Ordered first t1 t2 (copy second t2 left).1 left d.q d.rest v w d.divides r
                  same)
                (omega (arith, same, r.less)))
      ]
]

new_bn-WellFormed : WellFormed new_bn
new_bn-WellFormed = record { words = AreWords-replicate 32; top = sym (top_from-replicate 32) }

-- `bn_gcd` faults only for want of one of its two numbers or of a remainder's working number.
abbrev pub GcdOutcome : GcdMemory → GcdResult → Type 0
GcdOutcome memory result =
    ((result ≡ gcd_faults)
      × ((memory.first_found ≡ false)
          ⊎ ((memory.second_found ≡ false) ⊎ RoundRefused memory.round)))
    ⊎ ((g : Bn) × (result ≡ leaves g) × WellFormed g)

loop-GcdOutcome :
    (memory : GcdMemory) (result : Bn) (r : GcdResult)
    → WellFormed result
    → LoopOutcome memory.round r
    → GcdOutcome memory (copy_result memory.result_copy result r)
loop-GcdOutcome memory result r v (inl (stops, refused)) = rw stops (inl (refl, inr (inr refused)))
loop-GcdOutcome memory result r v (inr (t, ends, valid)) =
    let (left, kind) = copy_or_kept memory.result_copy result t v valid in
    rw ends (inr ((copy memory.result_copy result t).1, refl, left))

gcd-runs :
    (fuel : ℕ) (memory : GcdMemory) (result a b : Bn)
    → memory.second_found ≡ true
    → memory.first_found ≡ true
    → memory.temp_found ≡ true
    → gcd fuel memory result a b
      ≡ copy_result memory.result_copy result (
          gcd_loop fuel 0 memory.round
            (copy memory.first_start new_bn a).1
            (copy memory.second_start new_bn b).1
            (some new_bn))
unfolding gcd
gcd-runs fuel memory result a b second first temp = rw (gcd, second, first, temp) refl

-- When the memory for `temp` is there, `bn_gcd` ends within as many rounds as its second number and one
-- more, whatever else is refused: it leaves a well-formed result, or faults because the memory for one
-- of its two numbers or for a remainder's working number was refused.
pub gcd-ends :
    (memory : GcdMemory) (result a b : Bn)
    → WellFormed result
    → WellFormed a
    → WellFormed b
    → memory.temp_found ≡ true
    → GcdOutcome memory (gcd (number b + 1) memory result a b)
unfolding gcd
gcd-ends memory result a b u v w temp = elim (Bool-cases memory.second_found) [
  | inr refused ↦ rw (gcd, refused) (inl (refl, inr (inl refl)))
  | inl second ↦
      let (w', size) = copy_or_kept memory.second_start new_bn b new_bn-WellFormed w in
      let le : number (copy memory.second_start new_bn b).1 ≤ number b = elim size [
        | inl same ↦ omega arith
        | inr (same, short) ↦ rw same (omega arith)
      ] in
      elim (Bool-cases memory.first_found) [
        | inr refused ↦ elim (Bool-cases ((copy memory.second_start new_bn b).1.top == 0)) [
          | inl z ↦ rw (gcd, second, refused, z) (inr (result, refl, u))
          | inr more ↦ rw (gcd, second, refused, more) (inl (refl, inl refl))
        ]
        | inl first ↦
            let (v', kind) = copy_or_kept memory.first_start new_bn a new_bn-WellFormed v in
            subst (GcdOutcome memory)
              (sym (gcd-runs (number b + 1) memory result a b second first temp))
              (loop-GcdOutcome memory result _ u (
                gcd_loop-ends (number b + 1) 0 memory.round (copy memory.first_start new_bn a).1
                  (copy memory.second_start new_bn b).1 new_bn v' w' new_bn-WellFormed (inr refl)
                  (omega arith)))
      ]
]
