-- ===== src/Base/Bits.antt =====
-- `|= 1 << k`, `&= ~(1 << k)` and `& (1 << k)` on a byte, with laws checked over all bytes.
use Prim.Native.Nat.{ℕ, zero, suc, ◌-◌, ◌^◌, ◌<◌, bit_and, bit_or}
use mathlib.Core.Path.{◌≡◌, refl}
use mathlib.Core.Bool.{Bool, true, false, not, ◌&&◌}
use native.Mathlib.Omega.{arith}
use scarlett_os.Base.Tests.{◌==◌, ltb, if◌then◌else◌, ltb→lt}

-- A Boolean test of every number below a bound, by evaluation.
module _ (test : ℕ → Bool) where
  unfoldable pub every_below : ℕ → Bool
  every_below zero = true
  every_below (suc bound) = every_below bound && test bound

  pub test_of_every_below :
      {i : ℕ} (bound : ℕ) → i < bound → every_below bound ≡ true → test i ≡ true
  unfolding every_below
  test_of_every_below zero inside all = absurd (omega arith)
  test_of_every_below {i} (suc bound) inside all = ground (arith, test_of_every_below {i = i} bound)

-- The byte with bit `k` set, `b | (1 << k)`.
unfoldable pub set_bit : ℕ → ℕ → ℕ
set_bit b k = bit_or b (2 ^ k)

-- The byte with bit `k` clear, `b & ~(1 << k)`: the complement of a byte is `255 - m`.
unfoldable pub clear_bit : ℕ → ℕ → ℕ
clear_bit b k = bit_and b (255 - 2 ^ k)

unfoldable pub test_bit : ℕ → ℕ → Bool
test_bit b k = not (bit_and b (2 ^ k) == 0)

same : Bool → Bool → Bool
same true b = b
same false b = not b

same_sound : (a b : Bool) → same a b ≡ true → a ≡ b
unfolding same
same_sound a b h = ground arith

bits_agree : ℕ → ℕ → ℕ → Bool
unfolding set_bit clear_bit test_bit same
bits_agree b k j =
    (same (test_bit (set_bit b k) j) (if k == j then true else test_bit b j)
      && same (test_bit (clear_bit b k) j) (if k == j then false else test_bit b j))
    && (ltb (set_bit b k) 256 && ltb (clear_bit b k) 256)

table : every_below (λ b. every_below (λ k. every_below (λ j. bits_agree b k j) 8) 8) 256 ≡ true
unfolding every_below bits_agree
table = refl

bits_agree_lem : (b k j : ℕ) → b < 256 → k < 8 → j < 8 → bits_agree b k j ≡ true
bits_agree_lem b k j hb hk hj =
    let at_byte =
      test_of_every_below (λ c. every_below (λ m. every_below (bits_agree c m) 8) 8) 256 hb table in
    let at_bit = test_of_every_below (λ m. every_below (bits_agree b m) 8) 8 hk at_byte in
    test_of_every_below (bits_agree b k) 8 hj at_bit

module _ (b k j : ℕ) (hb : b < 256) (hk : k < 8) (hj : j < 8) where
  pub test_bit-set_bit : test_bit (set_bit b k) j ≡ (if k == j then true else test_bit b j)
  unfolding bits_agree
  test_bit-set_bit = same_sound _ _ (ground (arith, bits_agree_lem b k j hb hk hj))

  pub test_bit-clear_bit : test_bit (clear_bit b k) j ≡ (if k == j then false else test_bit b j)
  unfolding bits_agree
  test_bit-clear_bit = same_sound _ _ (ground (arith, bits_agree_lem b k j hb hk hj))

module _ (b k : ℕ) (hb : b < 256) (hk : k < 8) where
  pub set_bit-lt : set_bit b k < 256
  unfolding bits_agree
  set_bit-lt = ltb→lt _ _ (ground (arith, bits_agree_lem b k 0 hb hk))

  pub clear_bit-lt : clear_bit b k < 256
  unfolding bits_agree
  clear_bit-lt = ltb→lt _ _ (ground (arith, bits_agree_lem b k 0 hb hk))
