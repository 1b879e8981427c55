-- ===== src/Crypto/Bn/Divide.antt =====
-- Shifts, division and what is built on it in kernel/crypto/bn.c. Every answer of `kmalloc` is an
-- argument. `bn_div` does not look at the answers of `bn_alloc` and `bn_ensure`: a number that it
-- could not get is `none`, and an access through it or past the end of its words is a fault.
pub mod Word
pub mod Long
pub mod Stored
pub mod Outcome
pub mod InPlace
use scarlett_os.Base.{
  ℕ, zero, suc, ◌+◌, ◌-◌, ◌*◌, ◌/◌, ◌%◌, ◌^◌, Bool, true, false, Option, none, some, List, [], ◌∷◌,
  ◌++◌, length, get_or, set, replicate, ltb, leb, ◌==◌, if◌then◌else◌, bit_or, max,
}
use scarlett_os.Base.Errors.{ErrorCode, ok, out_of_memory}
use scarlett_os.Base.Int.{ℤ, pos, negsuc}
use scarlett_os.Crypto.Bn.{
  Bn, significant, new_bn, ensure, in_room, fix_top, copy, copy_self, copy_product, from_int, cmp,
  sub,
}

-- `while (top_word) { bits++; top_word >>= 1; }`; the fuel is the rounds a word can need.
unfoldable pub word_bits : ℕ → ℕ → ℕ → ℕ
word_bits zero w bits = bits
word_bits (suc fuel) w bits =
    let rest = word_bits fuel (w / 2) (bits + 1) in if w == 0 then bits else rest

-- `bn_bit_count`
unfoldable pub bit_count : Bn → ℕ
unfolding word_bits
bit_count bn =
    if bn.top == 0 then 0 else word_bits 64 (get_or bn.words (bn.top - 1) 0) ((bn.top - 1) * 64)

-- The second loop of `bn_lshift` and the word behind it.
unfoldable pub shift_words : ℕ → ℕ → List ℕ → List ℕ
shift_words bits carry [] = carry ∷ []
shift_words bits carry (w ∷ ws) =
    bit_or (w * 2 ^ bits % 2 ^ 64) carry ∷ shift_words bits (w / 2 ^ (64 - bits)) ws

-- The words of `bn_lshift` from the first to the last that it writes.
abbrev pub shifted : Bn → ℕ → List ℕ
shifted a bits =
    replicate (bits / 64) 0
    ++ (if bits % 64 == 0 then significant a else shift_words (bits % 64) 0 (significant a))

-- `bn_lshift`; the first argument says whether `bn_alloc` succeeds.
unfoldable pub lshift : (found row_memory copy_memory : Bool) → Bn → Bn → ℕ → ErrorCode × Bn
unfolding ensure fix_top shift_words
lshift found row_memory copy_memory result a bits =
    if bits == 0
    then copy copy_memory result a
    else if found
    then copy_product copy_memory result (
        in_room (ensure row_memory (a.top + bits / 64 + 1) new_bn) (λ room. fix_top (record room {
          words = shifted a bits ++ replicate (length room.words - length (shifted a bits)) 0;
        })))
    else (out_of_memory, result)

-- The loop of `bn_div` for a divisor of one word, from the last word down: the words of the quotient
-- and the remainder.
unfoldable pub div_words : ℕ → List ℕ → List ℕ × ℕ
div_words divisor [] = ([], 0)
div_words divisor (w ∷ ws) =
    let higher = div_words divisor ws in
    ((higher.1 * 2 ^ 64 + w) / divisor % 2 ^ 64 ∷ higher.0, (higher.1 * 2 ^ 64 + w) % divisor)

-- `words[i / 64] & (1 << (i % 64))`
abbrev pub has_bit : List ℕ → ℕ → Bool
has_bit ws i = get_or ws (i / 64) 0 / 2 ^ (i % 64) % 2 == 1

-- `words[i / 64] |= 1 << (i % 64)`
abbrev pub with_bit : List ℕ → ℕ → List ℕ
with_bit ws i = set ws (i / 64) (bit_or (get_or ws (i / 64) 0) (2 ^ (i % 64)))

-- The answers of `kmalloc` in one round of the long division: to `bn_lshift`, to `bn_sub` and to the
-- `bn_ensure` of the quotient.
pub record RoundMemory : Type 0 where
  pub found : Bool
  pub row : Bool
  pub copy : Bool
  pub difference : Bool
  pub quotient : Bool

-- Those in a call of `bn_div`: for the working numbers, for their room, for the results, and for the
-- round of each bit.
pub record DivMemory : Type 0 where
  pub quotient_found : Bool
  pub remainder_found : Bool
  pub quotient_room : Bool
  pub remainder_room : Bool
  pub quotient_copy : Bool
  pub remainder_copy : Bool
  pub round : ℕ → RoundMemory

-- `bn_div` answers ERR_INVALID_ARG, runs into a fault, or answers ERR_OK with the results that the
-- caller asked for.
pub data DivResult : Type 0 where
  invalid : DivResult
  faults : DivResult
  done : (quotient remainder : Option Bn) → DivResult

-- `q(i) = 1`; `none` is a fault.
unfoldable pub set_quotient : Bool → ℕ → Option Bn → Option (Option Bn)
unfolding ensure
set_quotient memory i none = none
set_quotient memory i (some q) =
    let room = (ensure memory (i / 64 + 1) q).1 in
    if leb (length room.words) (i / 64)
    then none
    else some (
        some (record room {
          words = with_bit room.words i;
          top = if ltb room.top (i / 64 + 1) then i / 64 + 1 else room.top;
        }))

-- `r = r << 1; r(0) = a(i)`
unfoldable pub next_remainder : RoundMemory → List ℕ → ℕ → Bn → Bn
unfolding lshift
next_remainder memory ws i r =
    let doubled = (lshift memory.found memory.row memory.copy r r 1).1 in
    if has_bit ws i then record doubled { words = with_bit doubled.words 0 } else doubled

-- What follows in the round: `if (r >= b)`.
unfoldable pub try_subtract : RoundMemory → ℤ → ℕ → Bn → Option Bn → Bn → Option (Option Bn × Bn)
unfolding set_quotient
try_subtract memory (negsuc k) i b q r = some (q, r)
try_subtract memory (pos k) i b q r = elim (set_quotient memory.quotient i q) [
  | none ↦ none
  | some q' ↦ some (q', (sub memory.difference r r b).1)
]

-- The loop over the bits of the dividend, from `i` down: the quotient and the remainder, or a fault.
unfoldable pub div_bits :
    ℕ → (ℕ → RoundMemory) → List ℕ → Bn → (q r : Option Bn) → Option (Option Bn × Option Bn)
unfolding next_remainder try_subtract
div_bits zero memory ws b q r = some (q, r)
div_bits (suc i) memory ws b q none = none
div_bits (suc i) memory ws b q (some r) =
    let r' = next_remainder (memory i) ws i r in
    elim (try_subtract (memory i) (cmp r' b) i b q r') [
      | none ↦ none
      | some round ↦ div_bits i memory ws b round.0 (some round.1)
    ]

-- `if (dest) bn_copy(dest, bn)`: `bn_copy` changes nothing when there is nothing to copy, and its
-- answer is not looked at.
abbrev pub wanted : Bool → Option Bn → Option Bn → Option Bn
wanted memory none bn = none
wanted memory (some dest) none = some dest
wanted memory (some dest) (some bn) = some (copy memory dest bn).1

-- `if (dest) bn_from_int(dest, n)`
abbrev pub wanted_int : Bool → Option Bn → ℕ → Option Bn
wanted_int memory none n = none
wanted_int memory (some dest) n = some (from_int memory n dest).1

-- The quotient's number for a divisor of one word. Without its memory, or with less room than the
-- dividend has words, it faults.
unfoldable pub word_quotient : (found room_memory : Bool) → Bn → ℕ → Option Bn
unfolding div_words ensure fix_top
word_quotient found room_memory a divisor =
    let room = (ensure room_memory a.top new_bn).1 in
    if found
    then if ltb (length room.words) a.top
      then none
      else some (
          fix_top (record room {
            words =
                (div_words divisor (significant a)).0 ++ replicate (length room.words - a.top) 0;
          }))
    else none

-- `bn_div` for a divisor of one word.
unfoldable pub div_word : DivMemory → (quotient remainder : Option Bn) → Bn → ℕ → DivResult
unfolding div_words word_quotient
div_word memory none remainder a d =
    done none (wanted_int memory.remainder_copy remainder (div_words d (significant a)).1)
div_word memory (some dest) remainder a d =
    elim (word_quotient memory.quotient_found memory.quotient_room a d) [
      | none ↦ faults
      | some q ↦
          done (some (copy memory.quotient_copy dest q).1)
            (wanted_int memory.remainder_copy remainder (div_words d (significant a)).1)
    ]

-- The remainder of a number smaller than the divisor. `in_place` says that it is the dividend itself.
abbrev pub whole_remainder : Bool → Bool → Option Bn → Bn → Option Bn
whole_remainder memory in_place none a = none
whole_remainder memory in_place (some dest) a =
    some (if in_place then copy_self a else (copy memory dest a).1)

-- `bn_alloc` and `bn_from_int(q, 0)`
abbrev pub made : (found memory : Bool) → Option Bn
made found memory = if found then some (from_int memory 0 new_bn).1 else none

-- `bn_div` for a longer divisor.
unfoldable pub div_long : DivMemory → (quotient remainder : Option Bn) → Bn → Bn → DivResult
unfolding div_bits bit_count
div_long memory quotient remainder a b =
    elim (div_bits (bit_count a) memory.round a.words b
      (made memory.quotient_found memory.quotient_room)
      (made memory.remainder_found memory.remainder_room)) [
        | none ↦ faults
        | some parts ↦
            done (wanted memory.quotient_copy quotient parts.0)
              (wanted memory.remainder_copy remainder parts.1)
      ]

-- `bn_div`; a quotient or remainder that is not asked for is `none`.
unfoldable pub div : DivMemory → Bool → (quotient remainder : Option Bn) → Bn → Bn → DivResult
unfolding div_word div_long
div memory in_place quotient remainder a b = if b.top == 0 then invalid else elim (cmp a b) [
  | negsuc k ↦
      done (wanted_int memory.quotient_copy quotient 0)
        (whole_remainder memory.remainder_copy in_place remainder a)
  | pos k ↦
      if b.top == 1
      then div_word memory quotient remainder a (get_or b.words 0 0)
      else div_long memory quotient remainder a b
]

-- `bn_mod` into the dividend itself.
unfoldable pub mod_in_place : DivMemory → Bn → Bn → DivResult
mod_in_place memory a m = div memory true none (some a) a m
