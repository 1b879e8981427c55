-- ===== src/Crypto/Bn/Divide/Stored.antt =====
-- What `bn_div` of kernel/crypto/bn.c leaves in the results that are asked for.
use scarlett_os.Base.{
  ℕ, ◌+◌, ◌*◌, ◌^◌, ◌≤◌, ◌<◌, ◌≡◌, refl, ◌⊎◌, inl, inr, Bool, false, Option, none, some, length,
  Bool-cases,
}
use scarlett_os.Crypto.Bn.{Bn, new_bn, ensure, copy, from_int, default_capacity}
use scarlett_os.Crypto.Bn.Words.{scale, WellFormed, number}
use scarlett_os.Crypto.Bn.Compare.{number-long}
use scarlett_os.Crypto.Bn.Copy.{copy_lem, copy_refused, copy_empty, from_int_lem}
use scarlett_os.Crypto.Bn.Divide.{
  DivMemory, DivResult, faults, done, wanted, wanted_int, whole_remainder, made,
}
use scarlett_os.Crypto.Bn.Divide.Long.{number-empty}

-- The numbers that `bn_div` finds: those of a smaller dividend, those of a divisor of one word, and
-- the two zeros of a longer one.
abbrev pub Divides : Bn → Bn → ℕ → ℕ → Type 0
Divides a b q r =
    ((number a < number b) × (q ≡ 0) × (r ≡ number a))
    ⊎ (((b.top ≡ 1) × (number b ≤ number a) × (q * number b + r ≡ number a) × (r < number b))
        ⊎ ((2 ≤ b.top) × (number b ≤ number a) × (q ≡ 0) × (r ≡ 0)))

-- A number that has no word, or less than `n` needs.
abbrev pub Short : Bn → ℕ → Type 0
Short dest n = (length dest.words ≡ 0) ⊎ (scale (length dest.words) 1 ≤ n)

-- A result is filled with `n`; it is unchanged when there was nothing to copy, or when it is too short
-- and the memory for more words was refused.
abbrev pub Filled : (absent : Type 0) → Bool → Bn → ℕ → Bn → Type 0
Filled absent memory dest n bn =
    (WellFormed bn × (number bn ≡ n)) ⊎ ((bn ≡ dest) × (absent ⊎ ((memory ≡ false) × Short dest n)))

-- The same for a result that the caller may ask for.
abbrev pub Stored : (absent : Type 0) → Bool → Option Bn → ℕ → Option Bn → Type 0
Stored absent memory none n result = result ≡ none
Stored absent memory (some dest) n result =
    (bn : Bn) × (result ≡ some bn) × Filled absent memory dest n bn

-- The long division has no working number for the quotient.
abbrev pub NoQuotient : DivMemory → Bn → Bn → Type 0
NoQuotient memory a b = (2 ≤ b.top) × (number b ≤ number a) × (memory.quotient_found ≡ false)

-- The memory whose refusal `bn_div` does not notice before it uses it: that of the remainder's
-- working number, and with a divisor of one word that of the quotient's, or its room.
abbrev pub Unchecked : DivMemory → Option Bn → Bn → Bn → Type 0
Unchecked memory none a b = (2 ≤ b.top) × (memory.remainder_found ≡ false)
Unchecked memory (some dest) a b =
    ((2 ≤ b.top) × (memory.remainder_found ≡ false))
    ⊎ ((b.top ≡ 1)
        × ((memory.quotient_found ≡ false)
            ⊎ ((memory.quotient_room ≡ false) × (default_capacity < a.top))))

pub record Divided (memory : DivMemory) (quotient remainder : Option Bn) (a b : Bn)
    (result : DivResult) : Type 0 where
  pub q : ℕ
  pub rest : ℕ
  pub quotient_left : Option Bn
  pub remainder_left : Option Bn
  pub answers : result ≡ done quotient_left remainder_left
  pub quotient_stored : Stored (NoQuotient memory a b) memory.quotient_copy quotient q quotient_left
  pub remainder_stored : Stored ⊥ memory.remainder_copy remainder rest remainder_left
  pub divides : Divides a b q rest

-- `bn_div` divides, or faults for want of memory that it does not look for.
abbrev pub DivOutcome : DivMemory → (quotient remainder : Option Bn) → Bn → Bn → DivResult → Type 0
DivOutcome memory quotient remainder a b result =
    ((result ≡ faults) × Unchecked memory quotient a b)
    ⊎ Divided memory quotient remainder a b result

pub Filled-copy :
    (absent : Type 0) (memory : Bool) (dest src : Bn)
    → WellFormed src
    → Filled absent memory dest (number src) (copy memory dest src).1
Filled-copy absent memory dest src v = elim (copy_lem memory dest src v) [
  | inr (bn, e, valid, same, sign) ↦ rw e (inl (valid, same))
  | inl e ↦
      let (refused, short) = copy_refused memory dest src e in
      rw e (inr (refl, inr (refused, inr (number-long (length dest.words) src v short))))
]

Filled-int :
    (absent : Type 0) (memory : Bool) (dest : Bn) (n : ℕ)
    → n < 2 ^ 64
    → Filled absent memory dest n (from_int memory n dest).1
Filled-int absent memory dest n h = elim (from_int_lem memory n dest h) [
  | inr filled ↦ inl filled
  | inl (e, refused, short) ↦ rw e (inr (refl, inr (refused, inl short)))
]

pub Stored-int :
    (absent : Type 0) (memory : Bool) (dest : Option Bn) (n : ℕ)
    → n < 2 ^ 64
    → Stored absent memory dest n (wanted_int memory dest n)
Stored-int absent memory none n h = refl
Stored-int absent memory (some dest) n h =
    ((from_int memory n dest).1, refl, Filled-int absent memory dest n h)

pub Stored-whole :
    (memory : Bool) (dest : Option Bn) (a : Bn)
    → WellFormed a
    → Stored ⊥ memory dest (number a) (whole_remainder memory false dest a)
Stored-whole memory none a v = refl
Stored-whole memory (some dest) a v = ((copy memory dest a).1, refl, Filled-copy ⊥ memory dest a v)

pub Stored-empty :
    (absent : Type 0) (memory : Bool) (dest : Option Bn) (r : Bn)
    → r.top ≡ 0
    → Stored absent memory dest 0 (wanted memory dest (some r))
Stored-empty absent memory none r z = refl
Stored-empty absent memory (some dest) r z =
    let (valid, top) = copy_empty memory dest r z in
    ((copy memory dest r).1, refl, inl (valid, number-empty (copy memory dest r).1 top))

-- The working number of the long division's quotient.
pub Stored-made :
    (absent : Type 0) (found room_memory memory : Bool) (dest : Option Bn)
    → (found ≡ false → absent)
    → Stored absent memory dest 0 (wanted memory dest (made found room_memory))
unfolding from_int ensure
Stored-made absent found room_memory memory none h = refl
Stored-made absent found room_memory memory (some dest) h = elim (Bool-cases found) [
  | inr refused ↦ rw refused (dest, refl, inr (refl, inl (h refused)))
  | inl given ↦
      rw given (Stored-empty absent memory (some dest) (from_int room_memory 0 new_bn).1 refl)
]
