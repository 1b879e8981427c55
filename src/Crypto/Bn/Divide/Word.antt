-- ===== src/Crypto/Bn/Divide/Word.antt =====
-- `bn_div` of kernel/crypto/bn.c by a divisor of one word.
use native.Mathlib.Nat.{add-mul, mul_assoc, div-add-mod', div-lt_iff_lt-mul, mod-lt}
use scarlett_os.Base.{
  ℕ, ◌+◌, ◌*◌, ◌/◌, ◌%◌, ◌^◌, ◌<◌, ◌≡◌, refl, ap, ◌∙◌, List, [], ◌∷◌, length, arith,
}
use scarlett_os.Crypto.Bn.Divide.{div_words}
use scarlett_os.Crypto.Bn.Words.{value, AreWords}

-- Schoolbook division by one word.
pub record WordDivision (d : ℕ) (ws : List ℕ) (r : List ℕ × ℕ) : Type 0 where
  pub words : AreWords r.0
  pub long : length r.0 ≡ length ws
  pub total : value r.0 * d + r.1 ≡ value ws
  pub rest : r.1 < d

quotient_fits : (r d w : ℕ) → r < d → w < 2 ^ 64 → (r * 2 ^ 64 + w) / d < 2 ^ 64
quotient_fits r d w h k =
    (div-lt_iff_lt-mul {k = d} {x = r * 2 ^ 64 + w} {y = 2 ^ 64} (omega arith)).1 (omega arith)

pub div_words_lem : (d : ℕ) (ws : List ℕ) → 0 < d → AreWords ws → WordDivision d ws (div_words d ws)
unfolding div_words
div_words_lem d [] h v = record { words = tt; long = refl; total = omega arith; rest = h }
div_words_lem d (w ∷ ws) h (v, vs) =
    let higher = div_words_lem d ws h vs in
    let q = (div_words d ws).0 in
    let r = (div_words d ws).1 in
    let t = r * 2 ^ 64 + w in
    let fits : t / d < 2 ^ 64 = quotient_fits r d w higher.rest v in
    let whole : t / d % 2 ^ 64 ≡ t / d = omega arith in
    let parts : t / d * d + t % d ≡ t = div-add-mod' t d in
    let spread : (t / d + 2 ^ 64 * value q) * d ≡ t / d * d + 2 ^ 64 * (value q * d) =
      add-mul (t / d) (2 ^ 64 * value q) d
      ∙ ap (λ (x : ℕ). t / d * d + x) (mul_assoc (2 ^ 64) (value q) d) in
    record {
      words = (omega arith, higher.words);
      long = omega (arith, higher.long);
      total = rw whole (omega (arith, higher.total, parts, spread));
      rest = mod-lt t h;
    }
