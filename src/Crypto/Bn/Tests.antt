-- ===== src/Crypto/Bn/Tests.antt =====
-- Runs of the functions of kernel/crypto/bn.c.
use scarlett_os.Base.{◌+◌, ◌^◌, ◌≡◌, refl, true, false, some, [], ◌∷◌, arith}
use scarlett_os.Base.Int.{pos}
use scarlett_os.Crypto.Bn.{Bn, new_bn, top_from, add_words, add, sub, mul}
use scarlett_os.Crypto.Bn.Words.{AreWords, AreWords-replicate, WellFormed, number}
use scarlett_os.Crypto.Bn.Add.{AddOutcome, add_lem}
use scarlett_os.Crypto.Bn.Subtract.{SubOutcome, sub_lem}
use scarlett_os.Crypto.Bn.Multiply.{MulOutcome, mul_lem}
use scarlett_os.Crypto.Bn.Divide.{DivMemory, div, mod_in_place}
use scarlett_os.Crypto.Bn.Divide.Stored.{DivOutcome}
use scarlett_os.Crypto.Bn.Divide.Outcome.{div_lem}
use scarlett_os.Crypto.Bn.Divide.InPlace.{Zeroed, mod_in_place_zero}
use scarlett_os.Crypto.Bn.Gcd.{GcdMemory, gcd}
use scarlett_os.Crypto.Bn.Gcd.Ends.{GcdOutcome, gcd-ends}

abbrev seven : Bn
seven = record { words = 7 ∷ 0 ∷ []; top = 1; sign = pos 1 }

abbrev two : Bn
two = record { words = 2 ∷ []; top = 1; sign = pos 1 }

-- 2^64 + 3
abbrev long : Bn
long = record { words = 3 ∷ 1 ∷ []; top = 2; sign = pos 1 }

-- A result that held a longer number.
abbrev used : Bn
used = record { words = 1 ∷ 1 ∷ 1 ∷ 0 ∷ []; top = 3; sign = pos 1 }

seven-WellFormed : WellFormed seven
seven-WellFormed = record {
  words = (omega arith, (omega arith, tt));
  top = unfold top_from in refl;
}

two-WellFormed : WellFormed two
two-WellFormed = record { words = (omega arith, tt); top = unfold top_from in refl }

long-WellFormed : WellFormed long
long-WellFormed = record { words = (omega arith, (omega arith, tt)); top = unfold top_from in refl }

used-AreWords : AreWords used.words
used-AreWords = (omega arith, (omega arith, (omega arith, (omega arith, tt))))

add_lem_example : AddOutcome used seven two (add true used seven two)
add_lem_example = add_lem true used seven two seven-WellFormed two-WellFormed used-AreWords

sub_lem_example : SubOutcome used long seven (sub true used long seven)
sub_lem_example = sub_lem true used long seven long-WellFormed seven-WellFormed used-AreWords

mul_lem_example : MulOutcome true true true used long seven (mul true true true used long seven)
mul_lem_example = mul_lem true true true used long seven long-WellFormed seven-WellFormed

-- The copies of the long division's shifts and the first result's copy are refused memory.
abbrev scarce : DivMemory
scarce = record {
  quotient_found = true;
  remainder_found = true;
  quotient_room = true;
  remainder_room = true;
  quotient_copy = false;
  remainder_copy = true;
  round =
      λ i. record { found = true; row = true; copy = false; difference = true; quotient = true };
}

abbrev scarce_gcd : GcdMemory
scarce_gcd = record {
  first_found = true;
  second_found = true;
  temp_found = true;
  first_start = true;
  second_start = false;
  result_copy = true;
  round = λ k. record { division = scarce; first_copy = false; second_copy = true };
}

new_bn-WellFormed : WellFormed new_bn
new_bn-WellFormed = record { words = AreWords-replicate 32; top = unfold top_from in refl }

div_lem_example :
    DivOutcome scarce
      (some new_bn)
      (some used)
      seven
      two
      (div scarce false (some new_bn) (some used) seven two)
div_lem_example =
    div_lem scarce (some new_bn) (some used) seven two seven-WellFormed two-WellFormed (omega arith)

mod_in_place_zero_example : Zeroed scarce (mod_in_place scarce seven long)
mod_in_place_zero_example = mod_in_place_zero scarce seven long (omega arith)

gcd-ends_example : GcdOutcome scarce_gcd (gcd 3 scarce_gcd new_bn seven two)
gcd-ends_example =
    gcd-ends scarce_gcd new_bn seven two new_bn-WellFormed seven-WellFormed two-WellFormed refl

-- The sum of 7 and 2 in a result that held a longer number.
stale : number (add true used seven two).1 ≡ 9 + 2 ^ 128
unfolding add top_from add_words
stale = refl
