-- ===== src/Crypto/Bn/Copy.antt =====
-- `bn_copy` and `bn_from_int` of kernel/crypto/bn.c.
use mathlib.Core.Path.{subst}
use scarlett_os.Base.{
  ℕ, zero, suc, ◌-◌, ◌^◌, ◌≤◌, ◌<◌, ◌≡◌, refl, sym, ap, ◌∙◌, ◌⊎◌, inl, inr, Bool, false, List, [],
  ◌∷◌, ◌++◌, length, take, replicate, ◌==◌, if◌then◌else◌, Bool-cases, arith,
}
use scarlett_os.Base.Int.{pos}
use scarlett_os.Base.Errors.{ok, out_of_memory}
use scarlett_os.Crypto.Bn.{Bn, significant, copy, from_int, top_from}
use scarlett_os.Crypto.Bn.Words.{
  value, WellFormed, number, AreWords-append, AreWords-take, AreWords-replicate, length-significant,
  top_from-cons,
}
use scarlett_os.Crypto.Bn.Room.{ensure_lem, ensure_refused}

take-append_self : (xs ys : List ℕ) → take (length xs) (xs ++ ys) ≡ xs
take-append_self [] ys = refl
take-append_self (x ∷ xs) ys = ap (λ (l : List ℕ). x ∷ l) (take-append_self xs ys)

pub top_from-replicate : (k : ℕ) → top_from (length {A = ℕ} (replicate k 0)) (replicate k 0) ≡ 0
top_from-replicate zero = unfold top_from in refl
top_from-replicate (suc k) =
    rw (top_from-cons (length {A = ℕ} (replicate k 0)) 0 (replicate k 0), top_from-replicate k) refl

-- `top` does not change when the words up to it stand before other zeros.
top_from-copied :
    (k : ℕ) (ws : List ℕ)
    → top_from
        (length (take (top_from (length ws) ws) ws ++ replicate k 0))
        (take (top_from (length ws) ws) ws ++ replicate k 0)
      ≡ top_from (length ws) ws
top_from-copied k [] = unfold top_from in top_from-replicate k
top_from-copied k (w ∷ ws) = elim (Bool-cases (top_from (length ws) ws == 0)) [
  | inl e ↦ elim (Bool-cases (w == 0)) [
    | inl z ↦ rw (top_from-cons (length ws) w ws, e, z) (top_from-replicate k)
    | inr nz ↦
        rw (top_from-cons (length ws) w ws, e, nz)
          (rw
            (
              top_from-cons (length {A = ℕ} (replicate k 0)) w (replicate k 0),
              top_from-replicate k,
              nz,
            )
            refl)
  ]
  | inr ne ↦
      rw (top_from-cons (length ws) w ws, ne)
        (rw
          (
            top_from-cons (length (take (top_from (length ws) ws) ws ++ replicate k 0)) w
                (take (top_from (length ws) ws) ws ++ replicate k 0),
            top_from-copied k ws,
            ne,
          )
          refl)
]

copied-WellFormed :
    (src : Bn) (k : ℕ)
    → WellFormed src
    → WellFormed (record src { words = significant src ++ replicate k 0 })
copied-WellFormed src k v = record {
  words =
      AreWords-append (significant src) (replicate k 0) (AreWords-take src.top src.words v.words)
        (AreWords-replicate k);
  top = v.top ∙ (rw v.top (sym (top_from-copied k src.words)));
}

copied-number :
    (src : Bn) (k : ℕ)
    → WellFormed src
    → number (record src { words = significant src ++ replicate k 0 }) ≡ number src
copied-number src k v =
    let e : take (length (significant src)) (significant src ++ replicate k 0) ≡ significant src =
      take-append_self (significant src) (replicate k 0) in
    let e' : take src.top (significant src ++ replicate k 0) ≡ significant src =
      subst (λ (n : ℕ). take n (significant src ++ replicate k 0) ≡ significant src)
        (length-significant src v) e in
    ap value e'

-- `bn_copy` between two numbers either fails for want of memory and changes nothing, or makes the
-- destination a copy, whatever it held.
pub copy_lem :
    (memory : Bool) (dest src : Bn)
    → WellFormed src
    → (copy memory dest src ≡ (out_of_memory, dest))
      ⊎ ((bn : Bn) × (copy memory dest src ≡ (ok, bn))
          × WellFormed bn
          × (number bn ≡ number src)
          × (bn.sign ≡ src.sign))
unfolding copy
copy_lem memory dest src v = elim (ensure_lem memory src.top dest) [
  | inl e ↦ rw (copy, e) (inl refl)
  | inr (room, e, g) ↦
      let k = length room.words - src.top in
      rw (copy, e)
        (inr (
          record src { words = significant src ++ replicate k 0 },
          refl,
          copied-WellFormed src k v,
          copied-number src k v,
          refl,
        ))
]

pub copy_refused :
    (memory : Bool) (dest src : Bn)
    → copy memory dest src ≡ (out_of_memory, dest)
    → (memory ≡ false) × (length dest.words < src.top)
unfolding copy
copy_refused memory dest src h = elim (ensure_lem memory src.top dest) [
  | inl e ↦ ensure_refused memory src.top dest e
  | inr (room, e, g) ↦ absurd (ground (arith, h, e))
]

-- A copy into enough words needs no memory.
pub copy_fits :
    (memory : Bool) (dest src : Bn)
    → WellFormed src
    → src.top ≤ length dest.words
    → WellFormed (copy memory dest src).1 × (number (copy memory dest src).1 ≡ number src)
copy_fits memory dest src v le = elim (copy_lem memory dest src v) [
  | inl e ↦ absurd (omega (arith, (copy_refused memory dest src e).1))
  | inr (bn, e, valid, same, sign) ↦ rw e (valid, same)
]

-- A copy of a number with top 0 is 0, whatever its words are, and needs no memory.
pub copy_empty :
    (memory : Bool) (dest src : Bn)
    → src.top ≡ 0
    → WellFormed (copy memory dest src).1 × ((copy memory dest src).1.top ≡ 0)
unfolding copy
copy_empty memory dest src z = elim (ensure_lem memory src.top dest) [
  | inl e ↦ absurd (omega (arith, (ensure_refused memory src.top dest e).1))
  | inr (room, e, g) ↦
      let k = length room.words - src.top in
      let nothing : take src.top src.words ≡ [] = ap (λ (n : ℕ). take n src.words) z in
      rw (copy, e, nothing)
        (record { words = AreWords-replicate k; top = z ∙ sym (top_from-replicate k) }, z)
]

int-WellFormed :
    (n k : ℕ)
    → n < 2 ^ 64
    → (bn : Bn)
    → bn ≡ record { words = n ∷ replicate k 0; top = if n == 0 then 0 else 1; sign = pos 1 }
    → WellFormed bn × (number bn ≡ n)
int-WellFormed n k h bn same = elim (Bool-cases (n == 0)) [
  | inl z ↦
      rw (same, z)
        (
          record {
            words = (h, AreWords-replicate k);
            top = sym (
                top_from-cons (length {A = ℕ} (replicate k 0)) n (replicate k 0)
                ∙ (rw (top_from-replicate k, z) refl));
          },
          ground arith,
        )
  | inr nz ↦
      rw (same, nz)
        (
          record {
            words = (h, AreWords-replicate k);
            top = sym (
                top_from-cons (length {A = ℕ} (replicate k 0)) n (replicate k 0)
                ∙ (rw (top_from-replicate k, nz) refl));
          },
          omega arith,
        )
]

-- `bn_from_int` either makes the number, or is refused memory for a number without a word.
pub from_int_lem :
    (memory : Bool) (n : ℕ) (bn : Bn)
    → n < 2 ^ 64
    → ((from_int memory n bn ≡ (out_of_memory, bn)) × (memory ≡ false) × (length bn.words ≡ 0))
      ⊎ (WellFormed (from_int memory n bn).1 × (number (from_int memory n bn).1 ≡ n))
unfolding from_int
from_int_lem memory n bn h = elim (ensure_lem memory 1 bn) [
  | inl e ↦
      let (refused, short) = ensure_refused memory 1 bn e in
      rw (from_int, e) (inl (refl, refused, omega arith))
  | inr (room, e, g) ↦ rw (from_int, e) (inr (int-WellFormed n (length room.words - 1) h _ refl))
]
