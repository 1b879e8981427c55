-- ===== src/Crypto/Bn/Subtract.antt =====
-- `bn_sub` of kernel/crypto/bn.c.
use scarlett_os.Base.{
  ℕ, zero, suc, ◌+◌, ◌-◌, ◌*◌, ◌%◌, ◌^◌, ◌≤◌, ◌<◌, ◌≡◌, refl, ◌⊎◌, inl, inr, Bool, true, false,
  ◌||◌, ◌&&◌, List, [], ◌∷◌, ◌++◌, length, replicate, ltb, ◌==◌, arith,
}
use scarlett_os.Base.Errors.{ErrorCode, ok, out_of_memory, invalid_arg}
use scarlett_os.Base.Int.{ℤ, pos, negsuc}
use scarlett_os.Crypto.Bn.{
  Bn, in_room, significant, ensure, fix_top, sub_words, sub, first_word, other_words, bit, cmp,
}
use scarlett_os.Crypto.Bn.Room.{ensure_lem}
use scarlett_os.Crypto.Bn.Compare.{Compares, cmp_lem}
use scarlett_os.Crypto.Bn.Add.{first_word-lt, other_words-AreWords, value_split}
use scarlett_os.Crypto.Bn.Words.{
  value, AreWords, WellFormed, number, value-append, value-replicate, AreWords-append,
  AreWords-take, AreWords-replicate, number-fix_top, fix_top-WellFormed, scale-zero,
}

-- The borrow that the code finds by comparisons is the one of the difference.
borrow_lem :
    (x y : ℕ) (c : Bool)
    → x < 2 ^ 64
    → y < 2 ^ 64
    → (x + 2 * 2 ^ 64 - y - bit c) % 2 ^ 64 + y + bit c
      ≡ x + 2 ^ 64 * bit (ltb x ((y + bit c) % 2 ^ 64) || (c && (y == 2 ^ 64 - 1)))
borrow_lem x y true h k = ground arith
borrow_lem x y false h k = ground arith

sub_words-AreWords : (xs ys : List ℕ) (c : Bool) → AreWords (sub_words xs ys c)
unfolding sub_words
sub_words-AreWords [] ys c = tt
sub_words-AreWords (x ∷ xs) ys c = (omega arith, sub_words-AreWords xs (other_words ys) _)

-- When the second number and the borrow are not more than the first, nothing is left to borrow.
sub_words_lem :
    (xs ys : List ℕ) (c : Bool)
    → AreWords xs
    → AreWords ys
    → value ys + bit c ≤ value xs
    → value (sub_words xs ys c) + value ys + bit c ≡ value xs
unfolding sub_words
sub_words_lem [] ys c v w h = omega arith
sub_words_lem (x ∷ xs) ys c (v, vs) w h =
    let y = first_word ys in
    let c' : Bool = ltb x ((y + bit c) % 2 ^ 64) || (c && (y == 2 ^ 64 - 1)) in
    let diff = borrow_lem x y c v (first_word-lt ys w) in
    let less : value (other_words ys) + bit c' ≤ value xs = omega (arith, diff, value_split ys) in
    let rest = sub_words_lem xs (other_words ys) c' vs (other_words-AreWords ys w) less in
    omega (arith, diff, rest, value_split ys)

-- The second number is greater; or there is no memory; or the result is the difference.
abbrev pub SubOutcome : Bn → Bn → Bn → ErrorCode × Bn → Type 0
SubOutcome result a b r =
    ((number a < number b) × (r ≡ (invalid_arg, result)))
    ⊎ ((r ≡ (out_of_memory, result))
        ⊎ ((bn : Bn) × (r ≡ (ok, bn)) × WellFormed bn × (number bn + number b ≡ number a)))

subtracted :
    (memory : Bool) (result a b : Bn)
    → WellFormed a
    → WellFormed b
    → AreWords result.words
    → number b ≤ number a
    → SubOutcome result a b (
        in_room (ensure memory a.top result) (λ room. fix_top (record room {
          words =
              sub_words (significant a) (significant b) false
              ++ replicate (length room.words - a.top) 0;
        })))
subtracted memory result a b v w h le = elim (ensure_lem memory a.top result) [
  | inl e ↦ rw e (inr (inl refl))
  | inr (room, e, g) ↦
      let diff = sub_words (significant a) (significant b) false in
      let zeros = replicate {A = ℕ} (length room.words - a.top) 0 in
      let words : AreWords (diff ++ zeros) =
        AreWords-append diff zeros (sub_words-AreWords _ _ false) (AreWords-replicate _) in
      let bn : Bn = record room { words = diff ++ zeros } in
      let total : value diff + number b + 0 ≡ number a =
        sub_words_lem (significant a) (significant b) false (AreWords-take a.top a.words v.words)
          (AreWords-take b.top b.words w.words) (omega arith) in
      let rest : value zeros ≡ 0 = value-replicate (length room.words - a.top) in
      rw e (
        inr (
          inr (
            fix_top bn,
            refl,
            fix_top-WellFormed bn words,
            rw (number-fix_top bn, value-append diff zeros, rest, scale-zero (length diff))
                (omega (arith, total)),
          )))
]

sub_by_cmp :
    (memory : Bool) (result a b : Bn) (r : ℤ)
    → cmp a b ≡ r
    → Compares r (number a) (number b)
    → WellFormed a
    → WellFormed b
    → AreWords result.words
    → SubOutcome result a b (sub memory result a b)
unfolding sub
sub_by_cmp memory result a b (negsuc k) e lt v w h = rw (sub, e) (inl (lt, refl))
sub_by_cmp memory result a b (pos zero) e eq v w h =
    rw (sub, e) (subtracted memory result a b v w h (omega arith))
sub_by_cmp memory result a b (pos (suc k)) e gt v w h =
    rw (sub, e) (subtracted memory result a b v w h (omega arith))

-- `bn_sub` refuses a second number greater than the first and changes nothing; it fails for want of
-- memory and changes nothing; or it leaves the difference, whatever the result held.
pub sub_lem :
    (memory : Bool) (result a b : Bn)
    → WellFormed a
    → WellFormed b
    → AreWords result.words
    → SubOutcome result a b (sub memory result a b)
sub_lem memory result a b v w h =
    sub_by_cmp memory result a b (cmp a b) refl (cmp_lem a b v w) v w h
