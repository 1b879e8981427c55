-- ===== src/Crypto/Bn/Add.antt =====
-- `bn_add` of kernel/crypto/bn.c.
use scarlett_os.Base.{
  ℕ, zero, suc, ◌+◌, ◌-◌, ◌*◌, ◌%◌, ◌^◌, ◌<◌, ◌≡◌, refl, ap, ◌⊎◌, inl, inr, Bool, true, false, ◌||◌,
  ◌&&◌, List, [], ◌∷◌, ◌++◌, length, drop, ltb, ◌==◌, arith, max,
}
use scarlett_os.Base.Errors.{ErrorCode, ok, out_of_memory}
use scarlett_os.Crypto.Bn.{Bn, significant, fix_top, add_words, add, first_word, other_words, bit}
use scarlett_os.Crypto.Bn.Room.{ensure_lem, Grown-AreWords, value-drop_grown}
use scarlett_os.Crypto.Bn.Words.{
  value, scale, AreWords, WellFormed, number, value-append, AreWords-append, AreWords-take,
  AreWords-drop, length-significant, number-fix_top, fix_top-WellFormed,
}

pub first_word-lt : (ws : List ℕ) → AreWords ws → first_word ws < 2 ^ 64
first_word-lt [] h = omega arith
first_word-lt (w ∷ ws) (h, hs) = h

pub other_words-AreWords : (ws : List ℕ) → AreWords ws → AreWords (other_words ws)
other_words-AreWords [] h = tt
other_words-AreWords (w ∷ ws) (h, hs) = hs

pub value_split : (ws : List ℕ) → value ws ≡ first_word ws + 2 ^ 64 * value (other_words ws)
value_split [] = omega arith
value_split (w ∷ ws) = refl

pub length-other_words : (ws : List ℕ) → length (other_words ws) ≡ length ws - 1
length-other_words [] = omega arith
length-other_words (w ∷ ws) = omega arith

-- The carry that the code finds by comparisons is the one of the sum.
carry_lem :
    (x y : ℕ) (c : Bool)
    → x < 2 ^ 64
    → y < 2 ^ 64
    → (x + y + bit c) % 2 ^ 64
        + 2 ^ 64 * bit (ltb ((x + y + bit c) % 2 ^ 64) x || (c && ((x + y + bit c) % 2 ^ 64 == x)))
      ≡ x + y + bit c
carry_lem x y true h k = ground arith
carry_lem x y false h k = ground arith

add_words-AreWords : (n : ℕ) (xs ys : List ℕ) (c : Bool) → AreWords (add_words n xs ys c)
unfolding add_words
add_words-AreWords zero xs ys c = tt
add_words-AreWords (suc n) xs ys c =
    (omega arith, add_words-AreWords n (other_words xs) (other_words ys) _)

length-add_words : (n : ℕ) (xs ys : List ℕ) (c : Bool) → length (add_words n xs ys c) ≡ n
unfolding add_words
length-add_words zero xs ys c = refl
length-add_words (suc n) xs ys c = ap suc (length-add_words n (other_words xs) (other_words ys) _)

-- One round more than the longer number has words gives the whole sum.
add_words_lem :
    (n : ℕ) (xs ys : List ℕ) (c : Bool)
    → length xs < n
    → length ys < n
    → AreWords xs
    → AreWords ys
    → value (add_words n xs ys c) ≡ value xs + value ys + bit c
unfolding add_words
add_words_lem zero xs ys c h k v w = elim h [ ]
add_words_lem (suc zero) [] [] true h k v w = refl
add_words_lem (suc zero) [] [] false h k v w = refl
add_words_lem (suc zero) (x ∷ xs) ys c h k v w = absurd (omega arith)
add_words_lem (suc zero) [] (y ∷ ys) c h k v w = absurd (omega arith)
add_words_lem (suc (suc n)) xs ys c h k v w =
    let x = first_word xs in
    let y = first_word ys in
    let c' : Bool = ltb ((x + y + bit c) % 2 ^ 64) x || (c && ((x + y + bit c) % 2 ^ 64 == x)) in
    let rest : value (add_words (suc n) (other_words xs) (other_words ys) c')
        ≡ value (other_words xs) + value (other_words ys) + bit c' =
      add_words_lem (suc n) (other_words xs) (other_words ys) c'
        (omega (arith, length-other_words xs)) (omega (arith, length-other_words ys))
        (other_words-AreWords xs v) (other_words-AreWords ys w) in
    let sum = carry_lem x y c (first_word-lt xs v) (first_word-lt ys w) in
    omega (arith, rest, sum, value_split xs, value_split ys)

-- What `bn_add` leaves in the result: for want of memory nothing is changed; otherwise the sum, and
-- with it the words that the result had beyond the sum's.
abbrev pub AddOutcome : Bn → Bn → Bn → ErrorCode × Bn → Type 0
AddOutcome result a b r =
    (r ≡ (out_of_memory, result))
    ⊎ ((bn : Bn) × (r ≡ (ok, bn))
        × WellFormed bn
        × (number bn
            ≡ number a
              + number b
              + scale (max a.top b.top + 1) (value (drop (max a.top b.top + 1) result.words))))

-- `bn_add` fails for want of memory and changes nothing, or leaves the sum plus what stands in the
-- result's words beyond the sum's, which it does not clear: the result is the sum exactly when those
-- words are zero.
pub add_lem :
    (memory : Bool) (result a b : Bn)
    → WellFormed a
    → WellFormed b
    → AreWords result.words
    → AddOutcome result a b (add memory result a b)
unfolding add
add_lem memory result a b v w h =
    let n = max a.top b.top + 1 in
    elim (ensure_lem memory n result) [
      | inl e ↦ rw (add, e) (inl refl)
      | inr (room, e, g) ↦
          let sum = add_words n (significant a) (significant b) false in
          let words : AreWords (sum ++ drop n room.words) =
            AreWords-append sum (drop n room.words) (add_words-AreWords n _ _ false)
              (AreWords-drop n room.words (Grown-AreWords g h)) in
          let bn : Bn = record room { words = sum ++ drop n room.words } in
          let rest : value (drop n room.words) ≡ value (drop n result.words) =
            rw g.words (value-drop_grown n g.zeros result.words) in
          let total : value sum ≡ number a + number b + 0 =
            add_words_lem n (significant a) (significant b) false
              (ground (arith, length-significant a v)) (ground (arith, length-significant b w))
              (AreWords-take a.top a.words v.words) (AreWords-take b.top b.words w.words) in
          let long : length sum ≡ n = length-add_words n (significant a) (significant b) false in
          rw (add, e)
            (inr (
              fix_top bn,
              refl,
              fix_top-WellFormed bn words,
              rw (number-fix_top bn, value-append sum (drop n room.words), long, rest)
                  (omega (arith, total)),
            ))
    ]
