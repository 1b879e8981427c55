-- ===== src/Security/Rbac/Tables.antt =====
-- The lists of numbers in kernel/security/rbac.c.
use scarlett_os.Base.{
  ℕ, ◌≤◌, ◌≡◌, refl, sym, inl, inr, Bool, true, false, ◌&&◌, List, [], ◌∷◌, ◌++◌, length,
  length-append, leb, ◌==◌, if◌then◌else◌, Bool-cases, arith,
}
use scarlett_os.Base.Errors.{ErrorCode, ok, not_found}
use scarlett_os.Security.Rbac.{mem, add_to, remove_from}

abbrev pub accepted : ErrorCode → Bool
accepted ok = true
accepted error = false

-- No number stands twice.
abbrev pub Distinct : List ℕ → Type 0
Distinct [] = Unit
Distinct (x ∷ xs) = (mem x xs ≡ false) × Distinct xs

pub mem-append :
    (n x : ℕ) (xs : List ℕ) → mem n (xs ++ x ∷ []) ≡ (if x == n then true else mem n xs)
mem-append n x [] = refl
mem-append n x (y ∷ ys) = ground (arith, mem-append n x ys)

Distinct-append : (x : ℕ) (xs : List ℕ) → Distinct xs → mem x xs ≡ false → Distinct (xs ++ x ∷ [])
Distinct-append x [] d h = (refl, tt)
Distinct-append x (y ∷ ys) (f, d) h =
    (ground (arith, mem-append y x ys), Distinct-append x ys d (ground arith))

-- What a change of a list of numbers does: for the number `n` the answer becomes `b` if it is
-- accepted.
pub record Changes (limit n : ℕ) (b : Bool) (xs : List ℕ) (r : ErrorCode × List ℕ) : Type 0 where
  pub members : (y : ℕ) → mem y r.1 ≡ (if accepted r.0 && (n == y) then b else mem y xs)
  pub distinct : Distinct r.1
  pub room : length r.1 ≤ limit

mem_same :
    (n y : ℕ) (xs : List ℕ) → mem n xs ≡ true → mem y xs ≡ (if n == y then true else mem y xs)
mem_same n y xs h = elim (Bool-cases (n == y)) [
  | inr e ↦ rw e refl
  | inl e ↦ let same : y ≡ n = ground arith in rw (same, h) (ground arith)
]

pub add_to-Changes :
    (limit n : ℕ) (xs : List ℕ)
    → Distinct xs
    → length xs ≤ limit
    → Changes limit n true xs (add_to limit n xs)
unfolding add_to
add_to-Changes limit n xs d h = elim (Bool-cases (mem n xs)) [
  | inl there ↦
      rw (add_to, there) (record { members = λ y. mem_same n y xs there; distinct = d; room = h })
  | inr fresh ↦ elim (Bool-cases (leb limit (length xs))) [
    | inl full ↦ rw (add_to, fresh, full) (record { members = λ y. refl; distinct = d; room = h })
    | inr some_room ↦
        rw (add_to, fresh, some_room)
          (record {
            members = λ y. mem-append y n xs;
            distinct = Distinct-append n xs d fresh;
            room = ground (arith, length-append xs (n ∷ []));
          })
  ]
]

pub and_false : (b : Bool) → true ≡ (if b && false then false else true)
and_false true = refl
and_false false = refl

remove_from-length : (n : ℕ) (xs : List ℕ) → length (remove_from n xs).1 ≤ length xs
unfolding remove_from
remove_from-length n [] = omega arith
remove_from-length n (x ∷ xs) = ground (arith, remove_from-length n xs)

remove_from-members :
    (n : ℕ) (xs : List ℕ) (y : ℕ)
    → Distinct xs
    → mem y (remove_from n xs).1
      ≡ (if accepted (remove_from n xs).0 && (n == y) then false else mem y xs)
unfolding remove_from
remove_from-members n [] y d = refl
remove_from-members n (x ∷ xs) y (f, d) = elim (Bool-cases (x == n)) [
  | inl here ↦ elim (Bool-cases (n == y)) [
    | inl e ↦
        let same : x ≡ y = ground arith in
        let gone : mem y xs ≡ false = rw (← same) f in rw (remove_from, here, e, gone) refl
    | inr e ↦ let other : (x == y) ≡ false = ground arith in rw (remove_from, here, e, other) refl
  ]
  | inr later ↦
      let rest = remove_from-members n xs y d in
      elim (Bool-cases (x == y)) [
        | inl e ↦
            let other : (n == y) ≡ false = ground arith in
            rw (remove_from, later, e, other) (and_false (accepted (remove_from n xs).0))
        | inr e ↦ rw (remove_from, later, e) rest
      ]
]

remove_from-Distinct : (n : ℕ) (xs : List ℕ) → Distinct xs → Distinct (remove_from n xs).1
unfolding remove_from
remove_from-Distinct n [] d = tt
remove_from-Distinct n (x ∷ xs) (f, d) = elim (Bool-cases (x == n)) [
  | inl here ↦ rw (remove_from, here) d
  | inr later ↦
      rw (remove_from, later)
        (ground (arith, remove_from-members n xs x d), remove_from-Distinct n xs d)
]

pub remove_from-Changes :
    (limit n : ℕ) (xs : List ℕ)
    → Distinct xs
    → length xs ≤ limit
    → Changes limit n false xs (remove_from n xs)
remove_from-Changes limit n xs d h = record {
  members = λ y. remove_from-members n xs y d;
  distinct = remove_from-Distinct n xs d;
  room = omega (arith, remove_from-length n xs);
}

-- A list within its limit without a number twice.
abbrev pub Good : ℕ → List ℕ → Type 0
Good limit xs = Distinct xs × (length xs ≤ limit)

pub and_lists : (b : Bool) (xs ys : List ℕ) → ys ≡ (if b && false then xs else ys)
and_lists true xs ys = refl
and_lists false xs ys = refl

pub and_keeps : (b x y : Bool) → (if b && false then x else y) ≡ y
and_keeps true x y = refl
and_keeps false x y = refl

-- A change behind one key of a table, as the table's facts show it.
pub changed_member :
    (limit n : ℕ) (b known : Bool) (key v y : ℕ) (f : List ℕ → ErrorCode × List ℕ)
    (at_key : ℕ → List ℕ)
    → Changes limit n b (at_key key) (f (at_key key))
    → mem y (if known && (key == v) then (f (at_key v)).1 else at_key v) ≡ (
        if accepted (if known then (f (at_key key)).0 else not_found) && ((key == v) && (n == y))
        then b
        else mem y (at_key v))
changed_member limit n b false key v y f at_key c = refl
changed_member limit n b true key v y f at_key c = elim (Bool-cases (key == v)) [
  | inr e ↦ rw e (sym (and_keeps (accepted (f (at_key key)).0) b (mem y (at_key v))))
  | inl e ↦ let same : v ≡ key = ground arith in rw (e, same) (c.members y)
]
