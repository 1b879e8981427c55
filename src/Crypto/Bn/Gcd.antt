-- ===== src/Crypto/Bn/Gcd.antt =====
-- `bn_gcd` of kernel/crypto/bn.c. It looks at no answer of the functions it calls: a number that
-- `bn_alloc` did not make is `none`.
pub mod Round
pub mod Ends
use scarlett_os.Base.{ℕ, zero, suc, ◌+◌, Bool, true, false, Option, none, some, ◌==◌, if◌then◌else◌}
use scarlett_os.Crypto.Bn.{Bn, new_bn, copy}
use scarlett_os.Crypto.Bn.Divide.{DivMemory, DivResult, invalid, faults, done, div}

-- The answers of `kmalloc` in one round.
pub record GcdRound : Type 0 where
  pub division : DivMemory
  pub first_copy : Bool
  pub second_copy : Bool

-- Those to `bn_gcd`: for its three numbers, for the first copies into two of them, for the rounds, and
-- for the result.
pub record GcdMemory : Type 0 where
  pub first_found : Bool
  pub second_found : Bool
  pub temp_found : Bool
  pub first_start : Bool
  pub second_start : Bool
  pub result_copy : Bool
  pub round : ℕ → GcdRound

-- The fuel runs out, an access faults, or the result is left.
pub data GcdResult : Type 0 where
  runs_on : GcdResult
  gcd_faults : GcdResult
  leaves : Bn → GcdResult

-- `temp` after `bn_mod(temp, t1, t2)`; the answer `none` is a fault.
abbrev pub next_temp : DivResult → Option Bn → Option (Option Bn)
next_temp invalid temp = some temp
next_temp faults temp = none
next_temp (done quotient remainder) temp = some remainder

-- `bn_copy(t2, temp)`
abbrev pub copied : Bool → Bn → Option Bn → Bn
copied memory dest none = dest
copied memory dest (some src) = (copy memory dest src).1

-- `while (t2->top > 0)` of `bn_gcd`, from the round `k` on.
unfoldable pub gcd_loop : (fuel k : ℕ) → (ℕ → GcdRound) → (t1 t2 : Bn) → Option Bn → GcdResult
gcd_loop zero k memory t1 t2 temp = runs_on
gcd_loop (suc fuel) k memory t1 t2 temp =
    if t2.top == 0
    then leaves t1
    else elim (next_temp (div (memory k).division false none temp t1 t2) temp) [
      | none ↦ gcd_faults
      | some rest ↦
          gcd_loop fuel (k + 1) memory (copy (memory k).first_copy t1 t2).1
            (copied (memory k).second_copy t2 rest) rest
    ]

-- `bn_copy(result, t1)`
abbrev pub copy_result : Bool → Bn → GcdResult → GcdResult
copy_result memory result (leaves t1) = leaves (copy memory result t1).1
copy_result memory result other = other

-- `bn_gcd`
unfoldable pub gcd : ℕ → GcdMemory → (result a b : Bn) → GcdResult
unfolding gcd_loop
gcd fuel memory result a b =
    let t2 = (copy memory.second_start new_bn b).1 in
    if memory.second_found
    then if memory.first_found
      then copy_result memory.result_copy result (
          gcd_loop fuel 0 memory.round (copy memory.first_start new_bn a).1 t2
            (if memory.temp_found then some new_bn else none))
      else if t2.top == 0
      then leaves result
      else gcd_faults
    else gcd_faults
