-- ===== src/Crypto/Bn/Multiply.antt =====
-- `bn_mul` of kernel/crypto/bn.c.
use mathlib.Core.Path.{subst}
use native.Mathlib.Nat.{mul-add, add-mul, mul_assoc, mul_left_comm, mul-le-mul}
use scarlett_os.Base.{
  ℕ, zero, suc, ◌+◌, ◌-◌, ◌*◌, ◌/◌, ◌^◌, ◌≤◌, ◌<◌, ◌≡◌, refl, sym, ap, ◌∙◌, ◌⊎◌, inl, inr, Bool,
  false, List, [], ◌∷◌, length, length-replicate, replicate, drop, Bool-cases, arith,
}
use scarlett_os.Base.Errors.{ErrorCode, ok, out_of_memory}
use scarlett_os.Crypto.Bn.{
  Bn, significant, fix_top, mul_row, mul_words, mul, first_word, other_words, new_bn,
}
use scarlett_os.Crypto.Bn.Compare.{number-long}
use scarlett_os.Crypto.Bn.Room.{ensure_lem, ensure_refused}
use scarlett_os.Crypto.Bn.Copy.{copy_lem, copy_refused}
use scarlett_os.Crypto.Bn.Words.{
  value, scale, AreWords, WellFormed, number, value-replicate, AreWords-take, AreWords-replicate,
  number-fix_top, fix_top-WellFormed, length-significant,
}

-- The product of two words, with two more words added, fits two words.
two_words :
    (x y r c : ℕ)
    → x < 2 ^ 64
    → y < 2 ^ 64
    → r < 2 ^ 64
    → c < 2 ^ 64
    → (x * y + r + c) / 2 ^ 64 < 2 ^ 64
two_words x y r c hx hy hr hc =
    let most : x * y ≤ (2 ^ 64 - 1) * (2 ^ 64 - 1) =
      mul-le-mul {n₂ = 2 ^ 64 - 1} {m₂ = 2 ^ 64 - 1} (omega arith) (omega arith) in
    omega arith

-- One row of the product: the result grows by the word times the second number and the carry, and
-- the words past the row are still zero.
record Row (x c : ℕ) (ys rs row : List ℕ) : Type 0 where
  words : AreWords row
  long : length row ≡ length rs
  total : value row ≡ x * value ys + value rs + c
  zeros : value (drop (suc (length ys)) row) ≡ 0

mul_row_lem :
    (x c : ℕ) (ys rs : List ℕ)
    → x < 2 ^ 64
    → c < 2 ^ 64
    → AreWords ys
    → AreWords rs
    → length ys < length rs
    → value (drop (length ys) rs) ≡ 0
    → Row x c ys rs (mul_row x ys rs c)
unfolding mul_row
mul_row_lem x c [] [] hx hc v w lt z = absurd (omega arith)
mul_row_lem x c (y ∷ ys) [] hx hc v w lt z = absurd (omega arith)
mul_row_lem x c [] (r ∷ rs) hx hc v (w, ws) lt z = record {
  words = (omega arith, ws);
  long = refl;
  total = omega arith;
  zeros = omega arith;
}
mul_row_lem x c (y ∷ ys) (r ∷ rs) hx hc (v, vs) (w, ws) lt z =
    let rest =
      mul_row_lem x ((x * y + r + c) / 2 ^ 64) ys rs hx (two_words x y r c hx v w hc) vs ws
        (omega arith) z in
    let spread : x * (y + 2 ^ 64 * value ys) ≡ x * y + 2 ^ 64 * (x * value ys) =
      mul-add x y (2 ^ 64 * value ys)
      ∙ ap (λ (t : ℕ). x * y + t) (mul_left_comm x (2 ^ 64) (value ys)) in
    record {
      words = (omega arith, rest.words);
      long = omega (arith, rest.long);
      total = omega (arith, rest.total, spread);
      zeros = rest.zeros;
    }

first-other : (ws : List ℕ) → 0 < length ws → first_word ws ∷ other_words ws ≡ ws
first-other [] h = absurd (omega arith)
first-other (w ∷ ws) h = refl

drop-other : (n : ℕ) (ws : List ℕ) → drop n (other_words ws) ≡ drop (suc n) ws
drop-other zero [] = refl
drop-other (suc n) [] = refl
drop-other n (w ∷ ws) = refl

record Product (xs ys rs product : List ℕ) : Type 0 where
  words : AreWords product
  total : value product ≡ value xs * value ys + value rs

mul_words_lem :
    (xs ys rs : List ℕ)
    → AreWords xs
    → AreWords ys
    → AreWords rs
    → length xs + length ys ≤ length rs
    → value (drop (length ys) rs) ≡ 0
    → Product xs ys rs (mul_words xs ys rs)
unfolding mul_words
mul_words_lem [] ys rs u v w le z = record { words = w; total = omega arith }
mul_words_lem (x ∷ xs) ys rs (u, us) v w le z =
    let row = mul_row x ys rs 0 in
    let r : Row x 0 ys rs row = mul_row_lem x 0 ys rs u (omega arith) v w (omega arith) z in
    let whole : first_word row ∷ other_words row ≡ row = first-other row (omega (arith, r.long)) in
    let words : AreWords (first_word row ∷ other_words row) = subst AreWords (sym whole) r.words in
    let long : suc (length (other_words row)) ≡ length rs = ap length whole ∙ r.long in
    let split : first_word row + 2 ^ 64 * value (other_words row) ≡ value row = ap value whole in
    let rest : Product xs ys (other_words row) (mul_words xs ys (other_words row)) =
      mul_words_lem xs ys (other_words row) us v words.1 (omega arith)
        (rw (drop-other (length ys) row) r.zeros) in
    let spread : (x + 2 ^ 64 * value xs) * value ys
        ≡ x * value ys + 2 ^ 64 * (value xs * value ys) =
      add-mul x (2 ^ 64 * value xs) (value ys)
      ∙ ap (λ (t : ℕ). x * value ys + t) (mul_assoc (2 ^ 64) (value xs) (value ys)) in
    record {
      words = (words.0, rest.words);
      total = omega (arith, rest.total, r.total, spread, split);
    }

-- What `bn_mul` leaves. An error is for want of memory for the working number, and nothing changes;
-- otherwise it answers that all is well, and the result is the product or, when it is too short for
-- the product and the memory for the last copy is refused, what it was.
abbrev pub MulOutcome :
    (found row_memory copy_memory : Bool) → Bn → Bn → Bn → ErrorCode × Bn → Type 0
MulOutcome found row_memory copy_memory result a b r =
    ((r ≡ (out_of_memory, result)) × ((found ≡ false) ⊎ (row_memory ≡ false)))
    ⊎ (((r ≡ (ok, result))
          × (copy_memory ≡ false)
          × (scale (length result.words) 1 ≤ number a * number b))
        ⊎ ((bn : Bn) × (r ≡ (ok, bn)) × WellFormed bn × (number bn ≡ number a * number b)))

value-drop_zeros : (n k : ℕ) → value (drop n (replicate k 0)) ≡ 0
value-drop_zeros zero k = value-replicate k
value-drop_zeros (suc n) zero = refl
value-drop_zeros (suc n) (suc k) = value-drop_zeros n k

product-number :
    (room a b : Bn)
    → WellFormed a
    → WellFormed b
    → a.top + b.top ≤ length room.words
    → (product : Bn) × (fix_top (record room {
      words = mul_words (significant a) (significant b) (replicate (length room.words) 0);
    })
        ≡ product)
      × WellFormed product
      × (number product ≡ number a * number b)
product-number room a b v w le =
    let zeros = replicate {A = ℕ} (length room.words) 0 in
    let p : Product (significant a) (significant b) zeros
        (mul_words (significant a) (significant b) zeros) =
      mul_words_lem (significant a) (significant b) zeros (AreWords-take a.top a.words v.words)
        (AreWords-take b.top b.words w.words) (AreWords-replicate (length room.words))
        (omega (
          arith,
          length-significant a v,
          length-significant b w,
          length-replicate {A = ℕ} (length room.words) 0,
        ))
        (value-drop_zeros (length (significant b)) (length room.words)) in
    let bn : Bn = record room { words = mul_words (significant a) (significant b) zeros } in
    (
      fix_top bn,
      refl,
      fix_top-WellFormed bn p.words,
      number-fix_top bn ∙ (omega (arith, p.total, value-replicate (length room.words))),
    )

-- `bn_mul` either fails, because the memory for its working number was refused, and changes nothing,
-- or answers that all is well; then the result is the product, or unchanged if the memory for the last
-- copy was refused and the product does not fit into the result's words.
pub mul_lem :
    (found row_memory copy_memory : Bool) (result a b : Bn)
    → WellFormed a
    → WellFormed b
    → MulOutcome found row_memory copy_memory result a b
        (mul found row_memory copy_memory result a b)
unfolding mul
mul_lem found row_memory copy_memory result a b v w = elim (Bool-cases found) [
  | inr refused ↦ rw (mul, refused) (inl (refl, inl refl))
  | inl given ↦ elim (ensure_lem row_memory (a.top + b.top) new_bn) [
    | inl e ↦
        let refused = (ensure_refused row_memory (a.top + b.top) new_bn e).0 in
        rw (mul, given, e) (inl (refl, inr refused))
    | inr (room, e, g) ↦
        let (product, made, u, total) = product-number room a b v w g.room in
        elim (copy_lem copy_memory result product u) [
          | inl failed ↦
              let (refused, short) = copy_refused copy_memory result product failed in
              let long = number-long (length result.words) product u short in
              rw (mul, given, e, made, failed)
                (inr (inl (refl, refused, omega (arith, long, total))))
          | inr (bn, done, valid, same, sign) ↦
              rw (mul, given, e, made, done) (inr (inr (bn, refl, valid, same ∙ total)))
        ]
  ]
]
