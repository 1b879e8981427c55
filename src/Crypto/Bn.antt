-- ===== src/Crypto/Bn.antt =====
-- kernel/crypto/bn.c. The array `words` is a list of its `size` words, least significant first. The
-- answers of `kmalloc` are arguments. Two pointers to one number are an argument of their own where
-- the code does not read all of its input before it writes.
pub mod Words
pub mod Room
pub mod Copy
pub mod Compare
pub mod Add
pub mod Subtract
pub mod Multiply
pub mod Divide
pub mod Gcd
mod Tests
use scarlett_os.Base.{
  ℕ, zero, suc, ◌+◌, ◌-◌, ◌*◌, ◌/◌, ◌%◌, ◌^◌, Bool, true, false, ◌&&◌, ◌||◌, Option, none, some,
  List, [], ◌∷◌, ◌++◌, length, get_or, take, drop, replicate, ltb, leb, ◌==◌, if◌then◌else◌, max,
}
use scarlett_os.Base.Errors.{ErrorCode, ok, out_of_memory, invalid_arg}
use scarlett_os.Base.Int.{ℤ, pos, negsuc}

abbrev pub default_capacity : ℕ
default_capacity = 32

-- `bn_t`
pub record Bn : Type 0 where
  pub words : List ℕ
  pub top : ℕ
  pub sign : ℤ

-- The words up to `top`.
abbrev pub significant : Bn → List ℕ
significant bn = take bn.top bn.words

-- `bn_ensure`
unfoldable pub ensure : Bool → ℕ → Bn → ErrorCode × Bn
ensure memory n bn =
    if leb n (length bn.words)
    then (ok, bn)
    else if memory
    then (
      ok,
      record bn {
        words =
            bn.words
            ++ replicate
                (max (if ltb (length bn.words * 2) n then n else length bn.words * 2)
                    default_capacity
                  - length bn.words)
                0;
      },
    )
    else (out_of_memory, bn)

-- `if (err != ERR_OK) return err;` after `bn_ensure`, and what follows.
abbrev pub in_room : ErrorCode × Bn → (Bn → Bn) → ErrorCode × Bn
in_room (ok, bn) f = (ok, f bn)
in_room (error, bn) f = (error, bn)

-- The loop of `bn_fix_top`, from `i` down.
unfoldable pub top_from : ℕ → List ℕ → ℕ
top_from zero ws = zero
top_from (suc i) ws = let rest = top_from i ws in if get_or ws i 0 == 0 then rest else suc i

-- `bn_fix_top`
unfoldable pub fix_top : Bn → Bn
fix_top bn = record bn { top = top_from (length bn.words) bn.words }

-- The number that `bn_alloc` makes.
abbrev pub new_bn : Bn
new_bn = record { words = replicate default_capacity 0; top = 0; sign = pos 1 }

-- `bn_copy` between two numbers.
unfoldable pub copy : Bool → Bn → Bn → ErrorCode × Bn
unfolding ensure
copy memory dest src = in_room (ensure memory src.top dest) (λ room. record {
  words = significant src ++ replicate (length room.words - src.top) 0;
  top = src.top;
  sign = src.sign;
})

-- `bn_copy` of a number to itself: `memset` comes before `memcpy`.
unfoldable pub copy_self : Bn → Bn
copy_self bn = record bn { words = replicate (length bn.words) 0 }

-- `bn_from_int`
unfoldable pub from_int : Bool → ℕ → Bn → ErrorCode × Bn
unfolding ensure
from_int memory value bn = in_room (ensure memory 1 bn) (λ room. record {
  words = value ∷ replicate (length room.words - 1) 0;
  top = if value == 0 then 0 else 1;
  sign = pos 1;
})

-- The loop of `bn_cmp` over the words, from `i` down.
unfoldable pub cmp_from : ℕ → List ℕ → List ℕ → ℤ
cmp_from zero xs ys = pos 0
cmp_from (suc i) xs ys =
    let rest = cmp_from i xs ys in
    if ltb (get_or ys i 0) (get_or xs i 0)
    then pos 1
    else if ltb (get_or xs i 0) (get_or ys i 0)
    then negsuc 0
    else rest

-- `bn_cmp`
unfoldable pub cmp : Bn → Bn → ℤ
cmp a b =
    if ltb b.top a.top
    then pos 1
    else if ltb a.top b.top
    then negsuc 0
    else cmp_from a.top a.words b.words

-- `(i < a->top) ? a->words[i] : 0` for the words from `i` on, and those after it.
abbrev pub first_word : List ℕ → ℕ
first_word [] = 0
first_word (w ∷ ws) = w

abbrev pub other_words : List ℕ → List ℕ
other_words [] = []
other_words (w ∷ ws) = ws

abbrev pub bit : Bool → ℕ
bit b = if b then 1 else 0

-- The loop of `bn_add`: the rounds left, the significant words left and the carry.
unfoldable pub add_words : ℕ → List ℕ → List ℕ → Bool → List ℕ
add_words zero xs ys carry = []
add_words (suc n) xs ys carry =
    let sum = (first_word xs + first_word ys + bit carry) % 2 ^ 64 in
    sum
    ∷ add_words n (other_words xs) (other_words ys)
        (ltb sum (first_word xs) || (carry && (sum == first_word xs)))

-- `bn_add`
unfoldable pub add : Bool → Bn → Bn → Bn → ErrorCode × Bn
unfolding ensure fix_top
add memory result a b =
    let n = max a.top b.top + 1 in
    in_room (ensure memory n result) (λ room. fix_top (record room {
      words = add_words n (significant a) (significant b) false ++ drop n room.words;
    }))

-- The loop of `bn_sub` over the words of the first number.
unfoldable pub sub_words : List ℕ → List ℕ → Bool → List ℕ
sub_words [] ys borrow = []
sub_words (x ∷ xs) ys borrow =
    (x + 2 * 2 ^ 64 - first_word ys - bit borrow) % 2 ^ 64
    ∷ sub_words xs (other_words ys)
        (ltb x ((first_word ys + bit borrow) % 2 ^ 64) || (borrow && (first_word ys == 2 ^ 64 - 1)))

-- `bn_sub`
unfoldable pub sub : Bool → Bn → Bn → Bn → ErrorCode × Bn
unfolding ensure fix_top
sub memory result a b = elim (cmp a b) [
  | negsuc k ↦ (invalid_arg, result)
  | pos k ↦ in_room (ensure memory a.top result) (λ room. fix_top (record room {
    words =
        sub_words (significant a) (significant b) false ++ replicate (length room.words - a.top) 0;
  }))
]

-- The inner loop of `bn_mul` for the word `x`: the words of `b` left, those of the result from this
-- position on, and the carry, which is added to the word after the last.
unfoldable pub mul_row : ℕ → List ℕ → List ℕ → ℕ → List ℕ
mul_row x ys [] carry = []
mul_row x [] (r ∷ rs) carry = (r + carry) % 2 ^ 64 ∷ rs
mul_row x (y ∷ ys) (r ∷ rs) carry =
    (x * y + r + carry) % 2 ^ 64 ∷ mul_row x ys rs ((x * y + r + carry) / 2 ^ 64)

-- The outer loop of `bn_mul`, with the words of the result from its position on.
unfoldable pub mul_words : List ℕ → List ℕ → List ℕ → List ℕ
mul_words [] ys rs = rs
mul_words (x ∷ xs) ys rs =
    let row = mul_row x ys rs 0 in first_word row ∷ mul_words xs ys (other_words row)

-- The end of `bn_mul`. The answer of `bn_copy` is not looked at.
abbrev pub copy_product : Bool → Bn → ErrorCode × Bn → ErrorCode × Bn
copy_product memory result (ok, product) = (ok, (copy memory result product).1)
copy_product memory result (error, product) = (error, result)

-- `bn_mul`; the first argument says whether `bn_alloc` succeeds.
unfoldable pub mul : (found row_memory copy_memory : Bool) → Bn → Bn → Bn → ErrorCode × Bn
unfolding ensure fix_top
mul found row_memory copy_memory result a b =
    if found
    then copy_product copy_memory result (
        in_room (ensure row_memory (a.top + b.top) new_bn) (λ room. fix_top (record room {
          words = mul_words (significant a) (significant b) (replicate (length room.words) 0);
        })))
    else (out_of_memory, result)
