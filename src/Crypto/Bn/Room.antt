-- ===== src/Crypto/Bn/Room.antt =====
-- The room that `bn_ensure` of kernel/crypto/bn.c makes.
use scarlett_os.Base.{
  ℕ, zero, suc, ◌-◌, ◌*◌, ◌≤◌, ◌<◌, ◌≡◌, refl, ap, ◌⊎◌, inl, inr, Bool, false, List, [], ◌∷◌, ◌++◌,
  length, length-append, length-replicate, drop, replicate, ltb, leb, if◌then◌else◌, Bool-cases,
  arith, max,
}
use scarlett_os.Base.Errors.{ErrorCode, ok, out_of_memory}
use scarlett_os.Crypto.Bn.{Bn, ensure, default_capacity}
use scarlett_os.Crypto.Bn.Words.{
  value, AreWords, value-append, value-replicate, AreWords-append, scale-zero, AreWords-replicate,
}

-- The same number with zeros behind its words, and at least `n` words.
pub record Grown (n : ℕ) (bn bn' : Bn) : Type 0 where
  pub zeros : ℕ
  pub words : bn'.words ≡ bn.words ++ replicate zeros 0
  pub top : bn'.top ≡ bn.top
  pub sign : bn'.sign ≡ bn.sign
  pub room : n ≤ length bn'.words

abbrev pub EnsureOutcome : ℕ → Bn → ErrorCode × Bn → Type 0
EnsureOutcome n bn r = (r ≡ (out_of_memory, bn)) ⊎ ((bn' : Bn) × (r ≡ (ok, bn')) × Grown n bn bn')

append-nil_words : (ws : List ℕ) → ws ≡ ws ++ []
append-nil_words [] = refl
append-nil_words (w ∷ ws) = ap (λ (l : List ℕ). w ∷ l) (append-nil_words ws)

pub ensure_lem : (memory : Bool) (n : ℕ) (bn : Bn) → EnsureOutcome n bn (ensure memory n bn)
unfolding ensure
ensure_lem memory n bn = elim (Bool-cases (leb n (length bn.words))) [
  | inl enough ↦ rw enough (
      inr (
        bn,
        refl,
        record {
          zeros = 0;
          words = append-nil_words bn.words;
          top = refl;
          sign = refl;
          room = ground arith;
        },
      ))
  | inr short ↦ elim (Bool-cases memory) [
    | inr refused ↦ rw (short, refused) (inl refl)
    | inl given ↦
        let size =
          max (if ltb (length bn.words * 2) n then n else length bn.words * 2) default_capacity
          - length bn.words in
        rw (short, given)
          (inr (
            record bn { words = bn.words ++ replicate size 0 },
            refl,
            record {
              zeros = size;
              words = refl;
              top = refl;
              sign = refl;
              room = ground (
                arith,
                length-append bn.words (replicate size 0),
                length-replicate {A = ℕ} size 0,
              );
            },
          ))
  ]
]

-- `bn_ensure` fails only when it needs memory that is refused.
pub ensure_refused :
    (memory : Bool) (n : ℕ) (bn : Bn)
    → ensure memory n bn ≡ (out_of_memory, bn)
    → (memory ≡ false) × (length bn.words < n)
unfolding ensure
ensure_refused memory n bn e = (ground arith, ground arith)

value-drop-replicate : (n k : ℕ) → value (drop n (replicate k 0)) ≡ 0
value-drop-replicate zero k = value-replicate k
value-drop-replicate (suc n) zero = refl
value-drop-replicate (suc n) (suc k) = value-drop-replicate n k

pub value-drop_grown :
    (n k : ℕ) (ws : List ℕ) → value (drop n (ws ++ replicate k 0)) ≡ value (drop n ws)
value-drop_grown zero k ws =
    let zeros : value (replicate k 0) ≡ 0 = value-replicate k in
    rw (value-append ws (replicate k 0), zeros, scale-zero (length ws)) (omega arith)
value-drop_grown (suc n) k [] = value-drop-replicate (suc n) k
value-drop_grown (suc n) k (w ∷ ws) = value-drop_grown n k ws

pub Grown-AreWords : {n : ℕ} {bn bn' : Bn} → Grown n bn bn' → AreWords bn.words → AreWords bn'.words
Grown-AreWords {n} {bn} g h =
    rw g.words (AreWords-append bn.words (replicate g.zeros 0) h (AreWords-replicate g.zeros))
