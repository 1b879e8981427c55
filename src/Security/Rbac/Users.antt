-- ===== src/Security/Rbac/Users.antt =====
-- The loop of kernel/security/rbac.c over the users.
use scarlett_os.Base.{
  ℕ, suc, ◌≡◌, refl, ap, inl, inr, true, false, ◌&&◌, List, [], ◌∷◌, ◌++◌, length, ◌==◌,
  if◌then◌else◌, Bool-cases, arith,
}
use scarlett_os.Base.Errors.{ErrorCode, not_found}
use scarlett_os.Security.Rbac.{UserRoles, user_known, for_user, roles_of, max_roles_per_user}
use scarlett_os.Security.Rbac.Tables.{Good, and_lists}

-- The loop over the users changes the first user with the uid, and is refused without one.
pub for_user-code :
    (uid : ℕ) (f : List ℕ → ErrorCode × List ℕ) (us : List UserRoles)
    → (for_user uid f us).0 ≡ (if user_known uid us then (f (roles_of uid us)).0 else not_found)
unfolding for_user
for_user-code uid f [] = refl
for_user-code uid f (u ∷ us) = elim (Bool-cases (u.uid == uid)) [
  | inl here ↦ rw (for_user, here) refl
  | inr later ↦ rw (for_user, later) (for_user-code uid f us)
]

pub for_user-roles :
    (uid : ℕ) (f : List ℕ → ErrorCode × List ℕ) (us : List UserRoles) (v : ℕ)
    → roles_of v (for_user uid f us).1
      ≡ (if user_known uid us && (uid == v) then (f (roles_of v us)).1 else roles_of v us)
unfolding for_user
for_user-roles uid f [] v = refl
for_user-roles uid f (u ∷ us) v = elim (Bool-cases (u.uid == uid)) [
  | inl here ↦
      let same : u.uid ≡ uid = ground arith in
      elim (Bool-cases (uid == v)) [
        | inl e ↦ let e' : (u.uid == v) ≡ true = rw same e in rw (for_user, here, e, e') refl
        | inr e ↦ let e' : (u.uid == v) ≡ false = rw same e in rw (for_user, here, e, e') refl
      ]
  | inr later ↦ elim (Bool-cases (u.uid == v)) [
    | inl e ↦
        let other : (uid == v) ≡ false = ground arith in
        rw (for_user, later, e, other) (and_lists (user_known uid us) (f u.roles).1 u.roles)
    | inr e ↦ rw (for_user, later, e) (for_user-roles uid f us v)
  ]
]

-- The roles of every user are distinct and within the limit.
abbrev pub AllUsers : List UserRoles → Type 0
AllUsers [] = Unit
AllUsers (u ∷ us) = Good max_roles_per_user u.roles × AllUsers us

pub roles_of-Good :
    (uid : ℕ) (us : List UserRoles) → AllUsers us → Good max_roles_per_user (roles_of uid us)
roles_of-Good uid [] g = (tt, omega arith)
roles_of-Good uid (u ∷ us) (g, gs) = elim (Bool-cases (u.uid == uid)) [
  | inl here ↦ rw here g
  | inr later ↦ rw later (roles_of-Good uid us gs)
]

pub for_user-AllUsers :
    (uid : ℕ) (f : List ℕ → ErrorCode × List ℕ) (us : List UserRoles)
    → ((xs : List ℕ) → Good max_roles_per_user xs → Good max_roles_per_user (f xs).1)
    → AllUsers us
    → AllUsers (for_user uid f us).1
unfolding for_user
for_user-AllUsers uid f [] h g = tt
for_user-AllUsers uid f (u ∷ us) h (g, gs) = elim (Bool-cases (u.uid == uid)) [
  | inl here ↦ rw (for_user, here) (h u.roles g, gs)
  | inr later ↦ rw (for_user, later) (g, for_user-AllUsers uid f us h gs)
]

pub length-for_user :
    (uid : ℕ) (f : List ℕ → ErrorCode × List ℕ) (us : List UserRoles)
    → length (for_user uid f us).1 ≡ length us
unfolding for_user
length-for_user uid f [] = refl
length-for_user uid f (u ∷ us) = elim (Bool-cases (u.uid == uid)) [
  | inl here ↦ rw (for_user, here) refl
  | inr later ↦ rw (for_user, later) (ap suc (length-for_user uid f us))
]

-- A new user has no roles yet.
pub roles_of-append :
    (uid v : ℕ) (us : List UserRoles)
    → roles_of v (us ++ record { uid = uid; roles = [] } ∷ []) ≡ roles_of v us
roles_of-append uid v [] = elim (Bool-cases (uid == v)) [ inl e ↦ rw e refl | inr e ↦ rw e refl ]
roles_of-append uid v (u ∷ us) = elim (Bool-cases (u.uid == v)) [
  | inl e ↦ rw e refl
  | inr e ↦ rw e (roles_of-append uid v us)
]

pub user_known-append :
    (uid : ℕ) (us : List UserRoles)
    → user_known uid (us ++ record { uid = uid; roles = [] } ∷ []) ≡ true
user_known-append uid [] = ground arith
user_known-append uid (u ∷ us) = elim (Bool-cases (u.uid == uid)) [
  | inl e ↦ rw e refl
  | inr e ↦ rw e (user_known-append uid us)
]

pub AllUsers-append :
    (uid : ℕ) (us : List UserRoles)
    → AllUsers us
    → AllUsers (us ++ record { uid = uid; roles = [] } ∷ [])
AllUsers-append uid [] g = ((tt, omega arith), tt)
AllUsers-append uid (u ∷ us) (g, gs) = (g, AllUsers-append uid us gs)
