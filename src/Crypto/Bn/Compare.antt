-- ===== src/Crypto/Bn/Compare.antt =====
-- `bn_cmp` of kernel/crypto/bn.c compares the numbers.
use scarlett_os.Base.{
  ℕ, zero, suc, ◌+◌, ◌-◌, ◌≤◌, ◌<◌, ◌≡◌, refl, sym, ◌∙◌, inl, inr, List, [], ◌∷◌, length, get_or,
  take, ltb, ◌==◌, Bool-cases, arith,
}
use scarlett_os.Base.Int.{ℤ, pos, negsuc}
use scarlett_os.Crypto.Bn.{Bn, top_from, cmp_from, cmp}
use scarlett_os.Crypto.Bn.Words.{
  value, scale, AreWords, WellFormed, number, scale-add, scale-zero, scale_mono,
}

-- What a result of `bn_cmp` says of two numbers.
abbrev pub Compares : ℤ → ℕ → ℕ → Type 0
Compares (pos zero) v w = v ≡ w
Compares (pos (suc k)) v w = w < v
Compares (negsuc k) v w = v < w

pub value-take-suc :
    (n : ℕ) (ws : List ℕ) → value (take (suc n) ws) ≡ value (take n ws) + scale n (get_or ws n 0)
value-take-suc zero [] = refl
value-take-suc (suc n) [] = omega (arith, scale-zero n)
value-take-suc zero (w ∷ ws) = omega arith
value-take-suc (suc n) (w ∷ ws) = omega (arith, value-take-suc n ws)

pub value-take_bound : (n : ℕ) (ws : List ℕ) → AreWords ws → value (take n ws) + 1 ≤ scale n 1
value-take_bound zero ws h = omega arith
value-take_bound (suc n) [] h = omega (arith, value-take_bound n [] tt)
value-take_bound (suc n) (w ∷ ws) (h, hs) = omega (arith, value-take_bound n ws hs)

scale_lt : (n v w w' : ℕ) → v + 1 ≤ scale n 1 → w < w' → v + scale n w < scale n w'
scale_lt n v w w' bound lt = omega (arith, scale-add n w 1, scale_mono n (w + 1) w' (omega arith))

Compares-add :
    (r : ℤ) (v w s v' w' : ℕ) → Compares r v w → v' ≡ v + s → w' ≡ w + s → Compares r v' w'
Compares-add (pos zero) v w s v' w' h e k = omega arith
Compares-add (pos (suc n)) v w s v' w' h e k = omega arith
Compares-add (negsuc n) v w s v' w' h e k = omega arith

cmp_from_lem :
    (n : ℕ) (xs ys : List ℕ)
    → AreWords xs
    → AreWords ys
    → Compares (cmp_from n xs ys) (value (take n xs)) (value (take n ys))
unfolding cmp_from
cmp_from_lem zero xs ys h k = refl
cmp_from_lem (suc n) xs ys h k =
    let x = get_or xs n 0 in
    let y = get_or ys n 0 in
    let vx = value-take-suc n xs in
    let vy = value-take-suc n ys in
    elim (Bool-cases (ltb y x)) [
      | inl gt ↦ rw gt (
          omega (
            arith,
            vx,
            vy,
            scale_lt n (value (take n ys)) y x (value-take_bound n ys k) (ground arith),
          ))
      | inr ngt ↦ elim (Bool-cases (ltb x y)) [
        | inl lt ↦
            rw (ngt, lt)
              (omega (
                arith,
                vx,
                vy,
                scale_lt n (value (take n xs)) x y (value-take_bound n xs h) (ground arith),
              ))
        | inr nlt ↦
            let same : x ≡ y = ground arith in
            let vy' : value (take (suc n) ys) ≡ value (take n ys) + scale n x = rw same vy in
            rw (ngt, nlt)
              (Compares-add (cmp_from n xs ys) (value (take n xs)) (value (take n ys)) (scale n x)
                (value (take (suc n) xs)) (value (take (suc n) ys)) (cmp_from_lem n xs ys h k) vx
                vy')
      ]
    ]

-- The word below `top` is not zero.
top_from-word : (n k : ℕ) (ws : List ℕ) → top_from n ws ≡ suc k → 1 ≤ get_or ws k 0
unfolding top_from
top_from-word zero k ws h = ground arith
top_from-word (suc n) k ws h = elim (Bool-cases (get_or ws n 0 == 0)) [
  | inl e ↦ top_from-word n k ws (ground arith)
  | inr ne ↦ let same : n ≡ k = ground arith in rw (← same) (ground arith)
]

scale_one_mono : (m n : ℕ) → m ≤ n → scale m 1 ≤ scale n 1
scale_one_mono zero zero h = omega arith
scale_one_mono zero (suc n) h = omega (arith, scale_one_mono zero n (omega arith))
scale_one_mono (suc m) zero h = elim h [ ]
scale_one_mono (suc m) (suc n) h = omega (arith, scale_one_mono m n (omega arith))

-- A number with the top `t + 1` is at least 2^(64 t).
pub number-low : (bn : Bn) (t : ℕ) → WellFormed bn → bn.top ≡ suc t → scale t 1 ≤ number bn
number-low bn t v e =
    let word : 1 ≤ get_or bn.words t 0 =
      top_from-word (length bn.words) t bn.words (sym v.top ∙ e) in
    rw e (omega (arith, value-take-suc t bn.words, scale_mono t 1 (get_or bn.words t 0) word))

-- A number with more words than `n` in use is at least 2^(64 n).
pub number-long : (n : ℕ) (bn : Bn) → WellFormed bn → n < bn.top → scale n 1 ≤ number bn
number-long n bn v lt =
    let e : bn.top ≡ suc (bn.top - 1) = omega arith in
    omega (arith, number-low bn (bn.top - 1) v e, scale_one_mono n (bn.top - 1) (omega arith))

-- A number with a smaller `top` is smaller.
pub number-lt : (a b : Bn) → WellFormed a → WellFormed b → a.top < b.top → number a < number b
number-lt a b v w lt =
    let e : b.top ≡ suc (b.top - 1) = omega arith in
    omega (
      arith,
      number-low b (b.top - 1) w e,
      value-take_bound a.top a.words v.words,
      scale_one_mono a.top (b.top - 1) (omega arith),
    )

-- On numbers as the functions leave them, `bn_cmp` is 1, 0 or -1 as the first is greater than, equal
-- to or less than the second.
pub cmp_lem : (a b : Bn) → WellFormed a → WellFormed b → Compares (cmp a b) (number a) (number b)
unfolding cmp
cmp_lem a b v w = elim (Bool-cases (ltb b.top a.top)) [
  | inl gt ↦ rw gt (number-lt b a w v (ground arith))
  | inr ngt ↦ elim (Bool-cases (ltb a.top b.top)) [
    | inl lt ↦ rw (ngt, lt) (number-lt a b v w (ground arith))
    | inr nlt ↦
        let same : a.top ≡ b.top = ground arith in
        let r : Compares (cmp_from a.top a.words b.words) (value (take a.top a.words))
            (value (take a.top b.words)) =
          cmp_from_lem a.top a.words b.words v.words w.words in
        rw (ngt, nlt)
          (Compares-add (cmp_from a.top a.words b.words) (value (take a.top a.words))
            (value (take a.top b.words)) 0 (number a) (number b) r (omega arith)
            (rw same (omega arith)))
  ]
]
