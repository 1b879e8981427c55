-- ===== src/Security/Audit/Ring.antt =====
-- The ring buffer of kernel/security/audit.c.
use scarlett_os.Base.{
  ℕ, ◌+◌, ◌%◌, ◌<◌, ◌≡◌, ◌≢◌, sym, ap, ◌∙◌, List, [], ◌∷◌, ◌++◌, length, drop, arith,
}
use scarlett_os.Base.Update.{update, update_ne}
use scarlett_os.Security.Audit.{LogEntry, Audit}

-- From the index `p` on, around the end of the array, the entries stand in the buffer.
abbrev pub Slots : (ℕ → LogEntry) → ℕ → List LogEntry → Type 0
Slots buffer p [] = Unit
Slots buffer p (x ∷ xs) = (buffer (p % 10000) ≡ x) × Slots buffer (p + 1) xs

-- The entries that a state keeps, oldest first.
pub record Keeps (s : Audit) (xs : List LogEntry) : Type 0 where
  pub tail : s.tail < 10000
  pub head : s.head ≡ (s.tail + length xs) % 10000
  pub room : length xs < 10000
  pub slots : Slots s.buffer s.tail xs

-- Only the place in the array counts.
pub Slots-same :
    (buffer : ℕ → LogEntry) (p q : ℕ) (xs : List LogEntry)
    → p % 10000 ≡ q % 10000
    → Slots buffer p xs
    → Slots buffer q xs
Slots-same buffer p q [] e h = tt
Slots-same buffer p q (x ∷ xs) e (h, hs) =
    (ap buffer (sym e) ∙ h, Slots-same buffer (p + 1) (q + 1) xs (omega arith) hs)

-- A write to a place that holds none of the entries.
pub Slots-update :
    (buffer : ℕ → LogEntry) (place p : ℕ) (e : LogEntry) (xs : List LogEntry)
    → ((k : ℕ) → k < length xs → place ≢ (p + k) % 10000)
    → Slots buffer p xs
    → Slots (update buffer place e) p xs
Slots-update buffer place p e [] away h = tt
Slots-update buffer place p e (x ∷ xs) away (h, hs) =
    let first : place ≢ p % 10000 =
      λ z. away 0 (omega arith) (z ∙ ap (λ (n : ℕ). n % 10000) (omega arith)) in
    (
      update_ne buffer place (p % 10000) e first ∙ h,
      Slots-update buffer place (p + 1) e xs
          (λ k lt z. away (k + 1) (omega arith) (z ∙ ap (λ (n : ℕ). n % 10000) (omega arith))) hs,
    )

pub Slots-append :
    (buffer : ℕ → LogEntry) (p : ℕ) (e : LogEntry) (xs : List LogEntry)
    → buffer ((p + length xs) % 10000) ≡ e
    → Slots buffer p xs
    → Slots buffer p (xs ++ e ∷ [])
Slots-append buffer p e [] h s = (ap (λ (n : ℕ). buffer (n % 10000)) (omega arith) ∙ h, tt)
Slots-append buffer p e (x ∷ xs) h (s, ss) =
    (s, Slots-append buffer (p + 1) e xs (ap (λ (n : ℕ). buffer (n % 10000)) (omega arith) ∙ h) ss)

-- The oldest entry is dropped.
pub Slots-drop :
    (buffer : ℕ → LogEntry) (p : ℕ) (xs : List LogEntry)
    → Slots buffer p xs
    → Slots buffer (p + 1) (drop 1 xs)
Slots-drop buffer p [] h = tt
Slots-drop buffer p (x ∷ xs) (h, hs) = hs
