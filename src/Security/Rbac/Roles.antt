-- ===== src/Security/Rbac/Roles.antt =====
-- The loop of kernel/security/rbac.c over the roles.
use scarlett_os.Base.{
  ℕ, suc, ◌≡◌, refl, ap, inl, inr, true, false, ◌&&◌, List, [], ◌∷◌, ◌++◌, length, ◌==◌,
  if◌then◌else◌, Bool-cases, arith,
}
use scarlett_os.Base.Errors.{ErrorCode, not_found}
use scarlett_os.Security.Rbac.{
  Role, Role, role_known, role_known, for_role, for_role, permissions_of, permissions_of,
  max_permissions_per_role,
}
use scarlett_os.Security.Rbac.Tables.{Good, and_lists}

-- The loop over the roles changes the first role with the id, and is refused without one.
pub for_role-code :
    (id : ℕ) (f : List ℕ → ErrorCode × List ℕ) (us : List Role)
    → (for_role id f us).0 ≡ (if role_known id us then (f (permissions_of id us)).0 else not_found)
unfolding for_role
for_role-code id f [] = refl
for_role-code id f (u ∷ us) = elim (Bool-cases (u.role_id == id)) [
  | inl here ↦ rw (for_role, here) refl
  | inr later ↦ rw (for_role, later) (for_role-code id f us)
]

pub for_role-permissions :
    (id : ℕ) (f : List ℕ → ErrorCode × List ℕ) (us : List Role) (v : ℕ)
    → permissions_of v (for_role id f us).1
      ≡ (if role_known id us && (id == v) then (f (permissions_of v us)).1 else permissions_of v us)
unfolding for_role
for_role-permissions id f [] v = refl
for_role-permissions id f (u ∷ us) v = elim (Bool-cases (u.role_id == id)) [
  | inl here ↦
      let same : u.role_id ≡ id = ground arith in
      elim (Bool-cases (id == v)) [
        | inl e ↦ let e' : (u.role_id == v) ≡ true = rw same e in rw (for_role, here, e, e') refl
        | inr e ↦ let e' : (u.role_id == v) ≡ false = rw same e in rw (for_role, here, e, e') refl
      ]
  | inr later ↦ elim (Bool-cases (u.role_id == v)) [
    | inl e ↦
        let other : (id == v) ≡ false = ground arith in
        rw (for_role, later, e, other)
          (and_lists (role_known id us) (f u.permissions).1 u.permissions)
    | inr e ↦ rw (for_role, later, e) (for_role-permissions id f us v)
  ]
]

-- The permissions of every role are distinct and within the limit.
abbrev pub AllRoles : List Role → Type 0
AllRoles [] = Unit
AllRoles (u ∷ us) = Good max_permissions_per_role u.permissions × AllRoles us

pub permissions_of-Good :
    (id : ℕ) (us : List Role) → AllRoles us → Good max_permissions_per_role (permissions_of id us)
permissions_of-Good id [] g = (tt, omega arith)
permissions_of-Good id (u ∷ us) (g, gs) = elim (Bool-cases (u.role_id == id)) [
  | inl here ↦ rw here g
  | inr later ↦ rw later (permissions_of-Good id us gs)
]

pub for_role-AllRoles :
    (id : ℕ) (f : List ℕ → ErrorCode × List ℕ) (us : List Role)
    → ((xs : List ℕ) → Good max_permissions_per_role xs → Good max_permissions_per_role (f xs).1)
    → AllRoles us
    → AllRoles (for_role id f us).1
unfolding for_role
for_role-AllRoles id f [] h g = tt
for_role-AllRoles id f (u ∷ us) h (g, gs) = elim (Bool-cases (u.role_id == id)) [
  | inl here ↦ rw (for_role, here) (h u.permissions g, gs)
  | inr later ↦ rw (for_role, later) (g, for_role-AllRoles id f us h gs)
]

pub length-for_role :
    (id : ℕ) (f : List ℕ → ErrorCode × List ℕ) (us : List Role)
    → length (for_role id f us).1 ≡ length us
unfolding for_role
length-for_role id f [] = refl
length-for_role id f (u ∷ us) = elim (Bool-cases (u.role_id == id)) [
  | inl here ↦ rw (for_role, here) refl
  | inr later ↦ rw (for_role, later) (ap suc (length-for_role id f us))
]

-- A new role has no permissions yet.
pub permissions_of-append :
    (id v : ℕ) (name : List ℕ) (us : List Role)
    → permissions_of v (us ++ record { role_id = id; name = name; permissions = [] } ∷ [])
      ≡ permissions_of v us
permissions_of-append id v name [] = elim (Bool-cases (id == v)) [
  | inl e ↦ rw e refl
  | inr e ↦ rw e refl
]
permissions_of-append id v name (u ∷ us) = elim (Bool-cases (u.role_id == v)) [
  | inl e ↦ rw e refl
  | inr e ↦ rw e (permissions_of-append id v name us)
]

pub role_known-append :
    (id v : ℕ) (name : List ℕ) (us : List Role)
    → role_known v (us ++ record { role_id = id; name = name; permissions = [] } ∷ [])
      ≡ (if id == v then true else role_known v us)
role_known-append id v name [] = refl
role_known-append id v name (u ∷ us) = ground (arith, role_known-append id v name us)

pub role_known-for_role :
    (id v : ℕ) (f : List ℕ → ErrorCode × List ℕ) (us : List Role)
    → role_known v (for_role id f us).1 ≡ role_known v us
unfolding for_role
role_known-for_role id v f [] = refl
role_known-for_role id v f (u ∷ us) = elim (Bool-cases (u.role_id == id)) [
  | inl e ↦ rw (for_role, e) refl
  | inr e ↦ rw (for_role, e, role_known-for_role id v f us) refl
]

pub AllRoles-append :
    (id : ℕ) (name : List ℕ) (us : List Role)
    → AllRoles us
    → AllRoles (us ++ record { role_id = id; name = name; permissions = [] } ∷ [])
AllRoles-append id name [] g = ((tt, omega arith), tt)
AllRoles-append id name (u ∷ us) (g, gs) = (g, AllRoles-append id name us gs)
