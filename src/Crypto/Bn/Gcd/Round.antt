-- ===== src/Crypto/Bn/Gcd/Round.antt =====
-- A round of the loop of `bn_gcd` of kernel/crypto/bn.c, whatever memory it is refused.
use scarlett_os.Base.{
  ℕ, zero, suc, ◌-◌, ◌^◌, ◌≤◌, ◌<◌, ◌≡◌, refl, ◌⊎◌, inl, inr, Bool, length, ltb, Bool-cases, arith,
}
use scarlett_os.Crypto.Bn.{Bn, copy}
use scarlett_os.Crypto.Bn.Words.{scale, WellFormed, number, top-le}
use scarlett_os.Crypto.Bn.Compare.{number-low, number-lt}
use scarlett_os.Crypto.Bn.Copy.{copy_lem, copy_refused, copy_fits}
use scarlett_os.Crypto.Bn.Divide.Long.{number-empty}
use scarlett_os.Crypto.Bn.Divide.Stored.{Divides, Short, Filled}
use scarlett_os.Crypto.Bn.Divide.Outcome.{one_word, one_word_bound}

scale_pos : (n : ℕ) → 0 < scale n 1
scale_pos zero = omega arith
scale_pos (suc n) = omega (arith, scale_pos n)

scale-word : (n : ℕ) → scale n 1 < 2 ^ 64 → n ≡ 0
scale-word zero h = refl
scale-word (suc n) h = absurd (omega (arith, h, scale_pos n))

Divides-lt : (a b : Bn) (q r : ℕ) → WellFormed b → 1 ≤ b.top → Divides a b q r → r < number b
Divides-lt a b q r w h (inl (lt, z, same)) = omega arith
Divides-lt a b q r w h (inr (inl (one, le, total, rest))) = rest
Divides-lt a b q r w h (inr (inr (long, le, z, same))) =
    let low = number-low b (b.top - 1) w (omega arith) in omega (arith, low, scale_pos (b.top - 1))

-- A copy is one, or the destination has too few words for it and stays.
pub copy_or_kept :
    (memory : Bool) (dest src : Bn)
    → WellFormed dest
    → WellFormed src
    → WellFormed (copy memory dest src).1
      × ((number (copy memory dest src).1 ≡ number src)
          ⊎ ((number (copy memory dest src).1 ≡ number dest) × (length dest.words < src.top)))
copy_or_kept memory dest src v w = elim (copy_lem memory dest src w) [
  | inl e ↦ rw e (v, inr (refl, (copy_refused memory dest src e).1))
  | inr (bn, e, valid, same, sign) ↦ rw e (valid, inl same)
]

number-pos : (bn : Bn) → WellFormed bn → 1 ≤ bn.top → 1 ≤ number bn
number-pos bn v h =
    omega (arith, number-low bn (bn.top - 1) v (omega arith), scale_pos (bn.top - 1))

-- A copy of a smaller number needs no memory.
pub copy-smaller :
    (memory : Bool) (dest src : Bn)
    → WellFormed dest
    → WellFormed src
    → number src < number dest
    → WellFormed (copy memory dest src).1 × (number (copy memory dest src).1 ≡ number src)
copy-smaller memory dest src v w lt = elim (Bool-cases (ltb dest.top src.top)) [
  | inl more ↦ absurd (omega (arith, number-lt dest src v w (ground arith)))
  | inr fits ↦
      let le : src.top ≤ dest.top = ground arith in
      copy_fits memory dest src w (omega (arith, top-le dest v))
]

-- The first number of a round is not smaller than the second, but perhaps in the first round, where
-- `temp` is 0.
abbrev pub Ordered : (t1 t2 temp : Bn) → Type 0
Ordered t1 t2 temp = (number t2 ≤ number t1) ⊎ (temp.top ≡ 0)

-- When `temp` has no room for the remainder, it is 0.
temp_is_empty :
    (t1 t2 temp : Bn) (q rest : ℕ)
    → WellFormed t2
    → WellFormed temp
    → Ordered t1 t2 temp
    → Divides t1 t2 q rest
    → Short temp rest
    → temp.top ≡ 0
temp_is_empty t1 t2 temp q rest w u (inr z) d short = z
temp_is_empty t1 t2 temp q rest w u (inl le) d (inl none_left) = omega (arith, top-le temp u)
temp_is_empty t1 t2 temp q rest w u (inl le) (inl (lt, z, same)) (inr short) = absurd (omega arith)
temp_is_empty t1 t2 temp q rest w u (inl le) (inr (inl (one, ge, total, less))) (inr short) =
    let bound : scale (length temp.words) 1 < 2 ^ 64 =
      omega (arith, one_word t2 w one, one_word_bound t2 w one) in
    omega (arith, top-le temp u, scale-word (length temp.words) bound)
temp_is_empty t1 t2 temp q rest w u (inl le) (inr (inr (long, ge, z, same))) (inr short) =
    absurd (omega (arith, scale_pos (length temp.words)))

-- `temp` after a round: smaller than the second number, and the remainder or 0.
pub record Reduced (t2 : Bn) (rest : ℕ) (temp : Bn) : Type 0 where
  pub valid : WellFormed temp
  pub less : number temp < number t2
  pub value : (number temp ≡ rest) ⊎ (temp.top ≡ 0)

pub Filled-Reduced :
    (memory : Bool) (t1 t2 temp left : Bn) (q rest : ℕ)
    → WellFormed t2
    → WellFormed temp
    → 1 ≤ t2.top
    → Ordered t1 t2 temp
    → Divides t1 t2 q rest
    → Filled ⊥ memory temp rest left
    → Reduced t2 rest left
Filled-Reduced memory t1 t2 temp left q rest w u h o d (inl (valid, same)) = record {
  valid = valid;
  less = omega (arith, same, Divides-lt t1 t2 q rest w h d);
  value = inl same;
}
Filled-Reduced memory t1 t2 temp left q rest w u h o d (inr (same, inl absent)) = absurd absent
Filled-Reduced memory t1 t2 temp left q rest w u h o d (inr (same, inr (refused, short))) =
    let empty = temp_is_empty t1 t2 temp q rest w u o d short in
    rw same (record {
      valid = u;
      less = omega (arith, number-empty temp empty, number-pos t2 w h);
      value = inr empty;
    })

-- The numbers of the next round are in order.
pub next-Ordered :
    (memory : Bool) (t1 t2 t2' temp : Bn) (q rest : ℕ)
    → WellFormed t1
    → WellFormed t2
    → Divides t1 t2 q rest
    → Reduced t2 rest temp
    → number t2' ≡ number temp
    → Ordered (copy memory t1 t2).1 t2' temp
next-Ordered memory t1 t2 t2' temp q rest v w d r e = elim r.value [
  | inr empty ↦ inr empty
  | inl same ↦ elim (copy_or_kept memory t1 t2 v w).1 [
    | inl first ↦ inl (omega (arith, r.less, first, e))
    | inr (first, short) ↦
        let smaller = number-lt t1 t2 v w (omega (arith, top-le t1 v, short)) in
        elim d [
          | inl (lt, z, whole) ↦ inl (omega (arith, first, same, whole, e))
          | inr other ↦ absurd (elim other [
            | inl (one, ge, total, less) ↦ omega arith
            | inr (long, ge, z, zero_rest) ↦ omega arith
          ])
        ]
  ]
]
