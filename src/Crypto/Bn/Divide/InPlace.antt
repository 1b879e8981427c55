-- ===== src/Crypto/Bn/Divide/InPlace.antt =====
-- `bn_mod(r, r, m)` of kernel/crypto/bn.c: the result is the dividend itself.
use scarlett_os.Base.{
  ℕ, zero, suc, ◌≤◌, ◌≡◌, refl, ◌⊎◌, inl, inr, false, none, some, length, take, replicate, ◌==◌,
  arith,
}
use scarlett_os.Base.Int.{ℤ, pos, negsuc}
use scarlett_os.Crypto.Bn.{Bn, copy, copy_self, cmp}
use scarlett_os.Crypto.Bn.Words.{value, number}
use scarlett_os.Crypto.Bn.Copy.{copy_empty}
use scarlett_os.Crypto.Bn.Divide.{DivMemory, DivResult, faults, done, div, mod_in_place}
use scarlett_os.Crypto.Bn.Divide.Long.{div_long_lem, not_smaller_top, number-empty}

value-take-replicate : (n k : ℕ) → value (take n (replicate k 0)) ≡ 0
value-take-replicate zero k = refl
value-take-replicate (suc n) zero = refl
value-take-replicate (suc n) (suc k) = omega (arith, value-take-replicate n k)

-- `bn_copy` of a number to itself makes it 0.
pub copy_self-zero : (bn : Bn) → number (copy_self bn) ≡ 0
unfolding copy_self
copy_self-zero bn = value-take-replicate bn.top (length bn.words)

-- What `bn_mod` leaves of the dividend: 0, or a fault for want of the remainder's working number.
abbrev pub Zeroed : DivMemory → DivResult → Type 0
Zeroed memory result =
    ((result ≡ faults) × (memory.remainder_found ≡ false))
    ⊎ ((r : Bn) × (result ≡ done none (some r)) × (number r ≡ 0))

reduced :
    (memory : DivMemory) (a m : Bn) (order : ℤ)
    → 2 ≤ m.top
    → cmp a m ≡ order
    → Zeroed memory (mod_in_place memory a m)
unfolding mod_in_place div
reduced memory a m (negsuc k) h e =
    let divisor : (m.top == 0) ≡ false = ground arith in
    inr (copy_self a, rw (mod_in_place, div, divisor, e) refl, copy_self-zero a)
reduced memory a m (pos k) h e =
    let divisor : (m.top == 0) ≡ false = ground arith in
    let long : (m.top == 1) ≡ false = ground arith in
    elim (div_long_lem memory none (some a) a m h (not_smaller_top a m k e)) [
      | inl (stops, refused) ↦ inl (rw (mod_in_place, div, divisor, e, long) stops, refused)
      | inr (r, empty, ends) ↦
          let (valid, top) = copy_empty memory.remainder_copy a r empty in
          inr (
            (copy memory.remainder_copy a r).1,
            rw (mod_in_place, div, divisor, e, long) ends,
            number-empty (copy memory.remainder_copy a r).1 top,
          )
    ]

-- `bn_mod` of a number into itself, by a modulus of two words or more, leaves 0, whatever the numbers
-- and whatever memory is refused, unless it faults because the remainder's working number was refused.
pub mod_in_place_zero :
    (memory : DivMemory) (a m : Bn) → 2 ≤ m.top → Zeroed memory (mod_in_place memory a m)
mod_in_place_zero memory a m h = reduced memory a m (cmp a m) h refl
