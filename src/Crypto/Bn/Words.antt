-- ===== src/Crypto/Bn/Words.antt =====
-- The number that a list of words of kernel/crypto/bn.c stands for, and what `bn_fix_top`, `bn_copy`
-- and `bn_cmp` make of it.
use scarlett_os.Base.{
  ℕ, zero, suc, ◌+◌, ◌*◌, ◌^◌, ◌≤◌, ◌<◌, ◌≡◌, refl, inl, inr, List, [], ◌∷◌, ◌++◌, length, take,
  drop, replicate, ◌==◌, if◌then◌else◌, Bool-cases, arith,
}
use scarlett_os.Crypto.Bn.{Bn, significant, top_from, fix_top}

abbrev pub value : List ℕ → ℕ
value [] = 0
value (w ∷ ws) = w + 2 ^ 64 * value ws

-- A number behind `n` words.
abbrev pub scale : ℕ → ℕ → ℕ
scale zero v = v
scale (suc n) v = 2 ^ 64 * scale n v

abbrev pub AreWords : List ℕ → Type 0
AreWords [] = Unit
AreWords (w ∷ ws) = (w < 2 ^ 64) × AreWords ws

-- `bn_t` as the functions leave it: words of 64 bits, and `top` behind the last that is not zero.
pub record WellFormed (bn : Bn) : Type 0 where
  pub words : AreWords bn.words
  pub top : bn.top ≡ top_from (length bn.words) bn.words

abbrev pub number : Bn → ℕ
number bn = value (significant bn)

pub scale-add : (n v w : ℕ) → scale n (v + w) ≡ scale n v + scale n w
scale-add zero v w = refl
scale-add (suc n) v w = omega (arith, scale-add n v w)

pub scale-zero : (n : ℕ) → scale n 0 ≡ 0
scale-zero zero = refl
scale-zero (suc n) = omega (arith, scale-zero n)

pub scale_mono : (n v w : ℕ) → v ≤ w → scale n v ≤ scale n w
scale_mono zero v w h = h
scale_mono (suc n) v w h = omega (arith, scale_mono n v w h)

pub scale_shift : (n v : ℕ) → scale n (2 ^ 64 * v) ≡ 2 ^ 64 * scale n v
scale_shift zero v = refl
scale_shift (suc n) v = omega (arith, scale_shift n v)

pub value-append : (xs ys : List ℕ) → value (xs ++ ys) ≡ value xs + scale (length xs) (value ys)
value-append [] ys = omega arith
value-append (x ∷ xs) ys = omega (arith, value-append xs ys)

pub value-replicate : (n : ℕ) → value (replicate n 0) ≡ 0
value-replicate zero = refl
value-replicate (suc n) = omega (arith, value-replicate n)

pub value_bound : (ws : List ℕ) → AreWords ws → value ws + 1 ≤ scale (length ws) 1
value_bound [] h = omega arith
value_bound (w ∷ ws) (h, hs) = omega (arith, value_bound ws hs)

pub AreWords-append : (xs ys : List ℕ) → AreWords xs → AreWords ys → AreWords (xs ++ ys)
AreWords-append [] ys h k = k
AreWords-append (x ∷ xs) ys (h, hs) k = (h, AreWords-append xs ys hs k)

pub AreWords-take : (n : ℕ) (ws : List ℕ) → AreWords ws → AreWords (take n ws)
AreWords-take zero ws h = tt
AreWords-take (suc n) [] h = tt
AreWords-take (suc n) (w ∷ ws) (h, hs) = (h, AreWords-take n ws hs)

pub AreWords-drop : (n : ℕ) (ws : List ℕ) → AreWords ws → AreWords (drop n ws)
AreWords-drop zero ws h = h
AreWords-drop (suc n) [] h = tt
AreWords-drop (suc n) (w ∷ ws) (h, hs) = AreWords-drop n ws hs

pub AreWords-replicate : (n : ℕ) → AreWords (replicate n 0)
AreWords-replicate zero = tt
AreWords-replicate (suc n) = (omega arith, AreWords-replicate n)

pub length-take-le : (n : ℕ) (ws : List ℕ) → length (take n ws) ≤ n
length-take-le zero ws = omega arith
length-take-le (suc n) [] = omega arith
length-take-le (suc n) (w ∷ ws) = omega (arith, length-take-le n ws)

pub length-take : (n : ℕ) (ws : List ℕ) → n ≤ length ws → length (take n ws) ≡ n
length-take zero ws h = refl
length-take (suc n) [] h = omega arith
length-take (suc n) (w ∷ ws) h = omega (arith, length-take n ws (omega arith))

pub length-drop : (n : ℕ) (ws : List ℕ) → n ≤ length ws → length (drop n ws) + n ≡ length ws
length-drop zero ws h = omega arith
length-drop (suc n) [] h = omega arith
length-drop (suc n) (w ∷ ws) h = omega (arith, length-drop n ws (omega arith))

-- What the words past `top` hold does not count, since they are zero.
pub top_from-cons :
    (n w : ℕ) (ws : List ℕ)
    → top_from (suc n) (w ∷ ws)
      ≡ (if top_from n ws == 0 then (if w == 0 then 0 else 1) else suc (top_from n ws))
unfolding top_from
top_from-cons zero w ws = ground arith
top_from-cons (suc n) w ws = ground (arith, top_from-cons n w ws)

pub top_from-le : (n : ℕ) (ws : List ℕ) → top_from n ws ≤ n
unfolding top_from
top_from-le zero ws = omega arith
top_from-le (suc n) ws = ground (arith, top_from-le n ws)

zero_top : (ws : List ℕ) → top_from (length ws) ws ≡ 0 → value ws ≡ 0
zero_top [] h = refl
zero_top (w ∷ ws) h = ground (arith, top_from-cons (length ws) w ws, zero_top ws)

pub value-take_top : (ws : List ℕ) → value (take (top_from (length ws) ws) ws) ≡ value ws
unfolding top_from
value-take_top [] = refl
value-take_top (w ∷ ws) = elim (Bool-cases (top_from (length ws) ws == 0)) [
  | inl e ↦
      let empty : value ws ≡ 0 = zero_top ws (ground arith) in
      elim (Bool-cases (w == 0)) [
        | inl z ↦ rw (top_from-cons (length ws) w ws, e, z) (ground arith)
        | inr nz ↦ rw (top_from-cons (length ws) w ws, e, nz) (omega arith)
      ]
  | inr ne ↦ rw (top_from-cons (length ws) w ws, ne) (omega (arith, value-take_top ws))
]

pub fix_top-WellFormed : (bn : Bn) → AreWords bn.words → WellFormed (fix_top bn)
unfolding fix_top
fix_top-WellFormed bn h = record { words = h; top = refl }

pub number-fix_top : (bn : Bn) → number (fix_top bn) ≡ value bn.words
unfolding fix_top
number-fix_top bn = value-take_top bn.words

pub top-le : (bn : Bn) → WellFormed bn → bn.top ≤ length bn.words
top-le bn v = omega (arith, v.top, top_from-le (length bn.words) bn.words)

pub length-significant : (bn : Bn) → WellFormed bn → length (significant bn) ≡ bn.top
length-significant bn v = length-take bn.top bn.words (top-le bn v)
