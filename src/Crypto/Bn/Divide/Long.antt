-- ===== src/Crypto/Bn/Divide/Long.antt =====
-- `bn_div` of kernel/crypto/bn.c by a divisor of two words or more, and `bn_mod`.
use scarlett_os.Base.{
  ℕ, zero, suc, ◌≤◌, ◌<◌, ◌≡◌, refl, ap, inl, inr, Bool, true, false, Option, none, some, ◌⊎◌, ◌+◌,
  ◌-◌, ◌*◌, ◌/◌, ◌==◌, get_or, List, [], take, replicate, ltb, Bool-cases, arith,
}
use scarlett_os.Base.Int.{pos, negsuc}
use scarlett_os.Crypto.Bn.{Bn, cmp, top_from, ensure, new_bn, from_int}
use scarlett_os.Crypto.Bn.Words.{number}
use scarlett_os.Crypto.Bn.Copy.{copy_empty}
use scarlett_os.Crypto.Bn.Divide.{
  RoundMemory, lshift, next_remainder, try_subtract, has_bit, div_bits, word_bits, bit_count, made,
  wanted, DivMemory, faults, done, div_long,
}

-- Shifting a number with top 0 leaves it or gives a number with top 0: nothing of its words is looked
-- at.
lshift-empty :
    (found row_memory copy_memory : Bool) (r : Bn)
    → r.top ≡ 0
    → (lshift found row_memory copy_memory r r 1).1.top ≡ 0
unfolding lshift top_from ensure
lshift-empty found row_memory copy_memory r z = elim (Bool-cases found) [
  | inr refused ↦ rw (lshift, refused) z
  | inl given ↦
      let nothing : take r.top r.words ≡ [] = ap (λ (n : ℕ). take n r.words) z in
      rw (lshift, given, nothing, z)
        ((copy_empty copy_memory (record r { top = 0 })
          (record { words = replicate 32 0; top = 0; sign = pos 1 }) refl).1)
]

-- The bit that is set in the remainder does not change its top.
next_remainder-empty :
    (memory : RoundMemory) (ws : List ℕ) (i : ℕ) (r : Bn)
    → r.top ≡ 0
    → (next_remainder memory ws i r).top ≡ 0
unfolding next_remainder
next_remainder-empty memory ws i r z =
    let shifted = lshift-empty memory.found memory.row memory.copy r z in
    elim (Bool-cases (has_bit ws i)) [
      | inl set ↦ rw (next_remainder, set) shifted
      | inr clear ↦ rw (next_remainder, clear) shifted
    ]

smaller_top : (a b : Bn) → a.top < b.top → cmp a b ≡ negsuc 0
unfolding cmp
smaller_top a b lt =
    let first : ltb b.top a.top ≡ false = ground arith in
    let second : ltb a.top b.top ≡ true = ground arith in rw (cmp, first, second) refl

-- No round of the loop subtracts, so that the quotient stays and the remainder's top is 0.
pub div_bits-lost :
    (n : ℕ) (memory : ℕ → RoundMemory) (ws : List ℕ) (b : Bn) (q : Option Bn) (r : Bn)
    → 1 ≤ b.top
    → r.top ≡ 0
    → (r' : Bn) × (div_bits n memory ws b q (some r) ≡ some (q, some r')) × (r'.top ≡ 0)
unfolding div_bits try_subtract
div_bits-lost zero memory ws b q r h z = (r, refl, z)
div_bits-lost (suc i) memory ws b q r h z =
    let r' = next_remainder (memory i) ws i r in
    let next : r'.top ≡ 0 = next_remainder-empty (memory i) ws i r z in
    let less : cmp r' b ≡ negsuc 0 = smaller_top r' b (omega (arith, next, h)) in
    let (last, ends, empty) = div_bits-lost i memory ws b q r' h next in
    (last, rw (div_bits, less) ends, empty)

-- A number with top 0 is 0.
pub number-empty : (bn : Bn) → bn.top ≡ 0 → number bn ≡ 0
number-empty bn z = rw z refl

-- The first round of the loop looks at a remainder that could not be made.
div_bits-none :
    (n : ℕ) (memory : ℕ → RoundMemory) (ws : List ℕ) (b : Bn) (q : Option Bn)
    → 1 ≤ n
    → div_bits n memory ws b q none ≡ none
unfolding div_bits
div_bits-none zero memory ws b q h = absurd (omega arith)
div_bits-none (suc i) memory ws b q h = refl

word_bits-le : (fuel w bits : ℕ) → bits ≤ word_bits fuel w bits
unfolding word_bits
word_bits-le zero w bits = omega arith
word_bits-le (suc fuel) w bits = ground (arith, word_bits-le fuel (w / 2) (bits + 1))

bit_count-pos : (a : Bn) → 2 ≤ a.top → 1 ≤ bit_count a
unfolding bit_count
bit_count-pos a h =
    let used : (a.top == 0) ≡ false = ground arith in
    let le = word_bits-le 64 (get_or a.words (a.top - 1) 0) ((a.top - 1) * 64) in
    rw (bit_count, used) (omega (arith, le))

-- A number that is not smaller has as many words in use.
pub not_smaller_top : (a b : Bn) (k : ℕ) → cmp a b ≡ pos k → b.top ≤ a.top
not_smaller_top a b k e = elim (Bool-cases (ltb a.top b.top)) [
  | inl lt ↦ absurd (ground (arith, e, smaller_top a b (ground arith)))
  | inr le ↦ ground arith
]

-- By a divisor of two words or more the remainder's working number is 0 at the end, and that of the
-- quotient is as it was made; without a remainder's working number the division faults.
pub div_long_lem :
    (memory : DivMemory) (quotient remainder : Option Bn) (a b : Bn)
    → 2 ≤ b.top
    → b.top ≤ a.top
    → ((div_long memory quotient remainder a b ≡ faults) × (memory.remainder_found ≡ false))
      ⊎ ((r : Bn) × (r.top ≡ 0)
          × (div_long memory quotient remainder a b
              ≡ done
                  (wanted memory.quotient_copy quotient
                    (made memory.quotient_found memory.quotient_room))
                  (wanted memory.remainder_copy remainder (some r))))
unfolding div_long from_int ensure
div_long_lem memory quotient remainder a b h le = elim (Bool-cases memory.remainder_found) [
  | inr refused ↦
      let q = made memory.quotient_found memory.quotient_room in
      let stops =
        div_bits-none (bit_count a) memory.round a.words b q (bit_count-pos a (omega arith)) in
      rw (div_long, refused, stops) (inl (refl, refl))
  | inl given ↦
      let q = made memory.quotient_found memory.quotient_room in
      let (r, ends, empty) =
        div_bits-lost (bit_count a) memory.round a.words b q
          (from_int memory.remainder_room 0 new_bn).1 (omega arith) refl in
      inr (r, empty, rw (div_long, given, ends) refl)
]
