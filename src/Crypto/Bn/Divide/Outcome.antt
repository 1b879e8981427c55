-- ===== src/Crypto/Bn/Divide/Outcome.antt =====
-- `bn_div` of kernel/crypto/bn.c, whatever memory it is refused.
use scarlett_os.Base.{
  ℕ, zero, suc, ◌-◌, ◌^◌, ◌≤◌, ◌<◌, ◌≡◌, refl, ◌∙◌, ◌⊎◌, inl, inr, Bool, true, false, Option, none,
  some, ◌++◌, length, get_or, replicate, ◌==◌, ltb, Bool-cases, arith,
}
use scarlett_os.Base.Int.{ℤ, pos, negsuc}
use scarlett_os.Crypto.Bn.{Bn, significant, new_bn, copy, cmp, default_capacity, fix_top}
use scarlett_os.Crypto.Bn.Words.{
  value, WellFormed, number, value-replicate, AreWords-take, AreWords-append, AreWords-replicate,
  value-append, scale-zero, number-fix_top, fix_top-WellFormed,
}
use scarlett_os.Crypto.Bn.Compare.{Compares, cmp_lem, number-low, value-take-suc, value-take_bound}
use scarlett_os.Crypto.Bn.Room.{ensure_lem, ensure_refused}
use scarlett_os.Crypto.Bn.Divide.{
  DivMemory, div, div_word, div_long, word_quotient, div_words, wanted_int, made, wanted,
  whole_remainder,
}
use scarlett_os.Crypto.Bn.Divide.Word.{WordDivision, div_words_lem}
use scarlett_os.Crypto.Bn.Divide.Long.{div_long_lem, not_smaller_top}
use scarlett_os.Crypto.Bn.Divide.Stored.{
  Divides, NoQuotient, Unchecked, DivOutcome, Filled-copy, Stored-int, Stored-whole, Stored-empty,
  Stored-made,
}

-- A divisor of one word is that word.
pub one_word : (b : Bn) → WellFormed b → b.top ≡ 1 → number b ≡ get_or b.words 0 0
one_word b v e = rw e (omega (arith, value-take-suc 0 b.words))

pub one_word_bound : (b : Bn) → WellFormed b → b.top ≡ 1 → get_or b.words 0 0 < 2 ^ 64
one_word_bound b v e = omega (arith, value-take-suc 0 b.words, value-take_bound 1 b.words v.words)

-- The quotient's number for a divisor of one word, or the memory whose refusal is not noticed.
word_quotient_lem :
    (found room_memory : Bool) (a : Bn) (d : ℕ)
    → WellFormed a
    → 0 < d
    → ((word_quotient found room_memory a d ≡ none)
        × ((found ≡ false) ⊎ ((room_memory ≡ false) × (default_capacity < a.top))))
      ⊎ ((q : Bn) × (word_quotient found room_memory a d ≡ some q)
          × WellFormed q
          × (number q ≡ value (div_words d (significant a)).0))
unfolding word_quotient
word_quotient_lem found room_memory a d v h = elim (Bool-cases found) [
  | inr refused ↦ rw (word_quotient, refused) (inl (refl, inl refl))
  | inl given ↦ elim (ensure_lem room_memory a.top new_bn) [
    | inl e ↦
        let (refused, short) = ensure_refused room_memory a.top new_bn e in
        let past : ltb (length new_bn.words) a.top ≡ true = ground (arith, short) in
        rw (word_quotient, given, e, past) (inl (refl, inr (refused, short)))
    | inr (room, e, g) ↦
        let fits : ltb (length room.words) a.top ≡ false = ground (arith, g.room) in
        let w : WordDivision d (significant a) (div_words d (significant a)) =
          div_words_lem d (significant a) h (AreWords-take a.top a.words v.words) in
        let qs = (div_words d (significant a)).0 in
        let zeros = length room.words - a.top in
        let bn : Bn = record room { words = qs ++ replicate zeros 0 } in
        rw (word_quotient, given, e, fits)
          (inr (
            fix_top bn,
            refl,
            fix_top-WellFormed bn
                (AreWords-append qs (replicate zeros 0) w.words (AreWords-replicate zeros)),
            number-fix_top bn
                ∙ (rw
                    (
                      value-append qs (replicate zeros 0),
                      value-replicate zeros,
                      scale-zero (length qs),
                    )
                    (omega arith)),
          ))
  ]
]

not_less : (k v w : ℕ) → Compares (pos k) v w → w ≤ v
not_less zero v w c = omega arith
not_less (suc k) v w c = omega arith

-- The remainder that a division by one word leaves.
word_remainder :
    (a b : Bn)
    → WellFormed a
    → WellFormed b
    → b.top ≡ 1
    → (0 < get_or b.words 0 0) × ((div_words (get_or b.words 0 0) (significant a)).1 < 2 ^ 64)
word_remainder a b v w e =
    let d = get_or b.words 0 0 in
    let d_pos : 0 < d = omega (arith, number-low b 0 w e, one_word b w e) in
    let parts = div_words_lem d (significant a) d_pos (AreWords-take a.top a.words v.words) in
    (d_pos, omega (arith, parts.rest, one_word_bound b w e))

word-Divides :
    (a b : Bn) (q : ℕ)
    → WellFormed a
    → WellFormed b
    → b.top ≡ 1
    → number b ≤ number a
    → q ≡ value (div_words (get_or b.words 0 0) (significant a)).0
    → Divides a b q (div_words (get_or b.words 0 0) (significant a)).1
word-Divides a b q v w e le q_number =
    let d = get_or b.words 0 0 in
    let same : number b ≡ d = one_word b w e in
    let parts =
      div_words_lem d (significant a) (word_remainder a b v w e).0
        (AreWords-take a.top a.words v.words) in
    inr (inl (e, le, rw (q_number, same) parts.total, rw same parts.rest))

div_word_lem :
    (memory : DivMemory) (quotient remainder : Option Bn) (a b : Bn)
    → WellFormed a
    → WellFormed b
    → b.top ≡ 1
    → number b ≤ number a
    → DivOutcome memory quotient remainder a b
        (div_word memory quotient remainder a (get_or b.words 0 0))
unfolding div_word
div_word_lem memory none remainder a b v w e le =
    let n = (div_words (get_or b.words 0 0) (significant a)).1 in
    inr (record {
      q = value (div_words (get_or b.words 0 0) (significant a)).0;
      rest = n;
      quotient_left = none;
      remainder_left = wanted_int memory.remainder_copy remainder n;
      answers = refl;
      quotient_stored = refl;
      remainder_stored =
          Stored-int ⊥ memory.remainder_copy remainder n (word_remainder a b v w e).1;
      divides = word-Divides a b _ v w e le refl;
    })
div_word_lem memory (some dest) remainder a b v w e le =
    let d = get_or b.words 0 0 in
    let n = (div_words d (significant a)).1 in
    let (d_pos, fits) = word_remainder a b v w e in
    elim (word_quotient_lem memory.quotient_found memory.quotient_room a d v d_pos) [
      | inl (missing, why) ↦ rw (div_word, missing) (inl (refl, inr (e, why)))
      | inr (q, found, valid, q_number) ↦ inr (record {
        q = number q;
        rest = n;
        quotient_left = some (copy memory.quotient_copy dest q).1;
        remainder_left = wanted_int memory.remainder_copy remainder n;
        answers = rw (div_word, found) refl;
        quotient_stored = (
          (copy memory.quotient_copy dest q).1,
          refl,
          Filled-copy (NoQuotient memory a b) memory.quotient_copy dest q valid,
        );
        remainder_stored = Stored-int ⊥ memory.remainder_copy remainder n fits;
        divides = word-Divides a b (number q) v w e le q_number;
      })
    ]

long-Unchecked :
    (memory : DivMemory) (quotient : Option Bn) (a b : Bn)
    → 2 ≤ b.top
    → memory.remainder_found ≡ false
    → Unchecked memory quotient a b
long-Unchecked memory none a b h refused = (h, refused)
long-Unchecked memory (some dest) a b h refused = inl (h, refused)

long-DivOutcome :
    (memory : DivMemory) (quotient remainder : Option Bn) (a b : Bn)
    → 2 ≤ b.top
    → b.top ≤ a.top
    → number b ≤ number a
    → DivOutcome memory quotient remainder a b (div_long memory quotient remainder a b)
long-DivOutcome memory quotient remainder a b h tops le =
    let q = made memory.quotient_found memory.quotient_room in
    elim (div_long_lem memory quotient remainder a b h tops) [
      | inl (stops, refused) ↦ inl (stops, long-Unchecked memory quotient a b h refused)
      | inr (r, empty, ends) ↦ inr (record {
        q = 0;
        rest = 0;
        quotient_left = wanted memory.quotient_copy quotient q;
        remainder_left = wanted memory.remainder_copy remainder (some r);
        answers = ends;
        quotient_stored =
            Stored-made (NoQuotient memory a b) memory.quotient_found memory.quotient_room
              memory.quotient_copy quotient (λ refused. (h, le, refused));
        remainder_stored = Stored-empty ⊥ memory.remainder_copy remainder r empty;
        divides = inr (inr (h, le, refl, refl));
      })
    ]

compared-DivOutcome :
    (memory : DivMemory) (quotient remainder : Option Bn) (a b : Bn)
    → WellFormed a
    → WellFormed b
    → 1 ≤ b.top
    → (order : ℤ) → cmp a b ≡ order
    → Compares order (number a) (number b)
    → DivOutcome memory quotient remainder a b (div memory false quotient remainder a b)
unfolding div
compared-DivOutcome memory quotient remainder a b v w h (negsuc k) e lt =
    let divisor : (b.top == 0) ≡ false = ground arith in
    rw (div, divisor, e)
      (inr (record {
        q = 0;
        rest = number a;
        quotient_left = wanted_int memory.quotient_copy quotient 0;
        remainder_left = whole_remainder memory.remainder_copy false remainder a;
        answers = refl;
        quotient_stored =
            Stored-int (NoQuotient memory a b) memory.quotient_copy quotient 0 (omega arith);
        remainder_stored = Stored-whole memory.remainder_copy remainder a v;
        divides = inl (lt, refl, refl);
      }))
compared-DivOutcome memory quotient remainder a b v w h (pos k) e c =
    let divisor : (b.top == 0) ≡ false = ground arith in
    let le : number b ≤ number a = not_less k (number a) (number b) c in
    elim (Bool-cases (b.top == 1)) [
      | inl one ↦
          rw (div, divisor, e, one)
            (div_word_lem memory quotient remainder a b v w (ground arith) le)
      | inr more ↦
          rw (div, divisor, e, more)
            (long-DivOutcome memory quotient remainder a b (ground arith) (not_smaller_top a b k e)
              le)
    ]

-- `bn_div` into numbers other than the dividend and the divisor, by a number that is not 0. It faults
-- only when memory was refused that it does not check: the remainder's working number in the long
-- division, or the quotient's, or its room, with a divisor of one word. Otherwise every result that
-- was asked for is filled, or unchanged because it is too short and the memory for more words was
-- refused, or because the long division has no working number for the quotient. What they are filled
-- with are the quotient and the remainder when the dividend is smaller or the divisor has one word,
-- and two zeros otherwise.
pub div_lem :
    (memory : DivMemory) (quotient remainder : Option Bn) (a b : Bn)
    → WellFormed a
    → WellFormed b
    → 1 ≤ b.top
    → DivOutcome memory quotient remainder a b (div memory false quotient remainder a b)
div_lem memory quotient remainder a b v w h =
    compared-DivOutcome memory quotient remainder a b v w h (cmp a b) refl (cmp_lem a b v w)
