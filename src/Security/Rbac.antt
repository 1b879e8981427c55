-- ===== src/Security/Rbac.antt =====
-- kernel/security/rbac.c. An array with its count is the list of the entries in use; the spinlock
-- makes every function one step, and a null pointer is `none`.
pub mod Tables
pub mod Users
pub mod Roles
pub mod Refines
pub mod Replay
pub mod Run
mod Tests
use scarlett_os.Base.{
  ℕ, zero, suc, Bool, true, false, ◌&&◌, Option, none, some, List, [], ◌∷◌, ◌++◌, length, take, leb,
  ◌==◌, if◌then◌else◌, min,
}
use scarlett_os.Base.Errors.{
  ErrorCode, ok, invalid_arg, out_of_memory, not_found, already_exists, invalid_state,
}

abbrev pub max_roles_per_user : ℕ
max_roles_per_user = 16

abbrev pub max_permissions_per_role : ℕ
max_permissions_per_role = 64

abbrev pub max_roles : ℕ
max_roles = 128

abbrev pub max_users : ℕ
max_users = 256

-- `rbac_role_t`; the name is its bytes before the zero that ends it.
pub record Role : Type 0 where
  pub role_id : ℕ
  pub name : List ℕ
  pub permissions : List ℕ

-- `rbac_user_roles_t`
pub record UserRoles : Type 0 where
  pub uid : ℕ
  pub roles : List ℕ

-- `rbac_state`
pub record Rbac : Type 0 where
  pub roles : List Role
  pub users : List UserRoles
  pub initialized : Bool

-- The state before the first call.
abbrev pub blank : Rbac
blank = record { roles = []; users = []; initialized = false }

-- `rbac_init`
unfoldable pub init : Rbac → ErrorCode × Rbac
init s =
    if s.initialized then (ok, s) else (ok, record { roles = []; users = []; initialized = true })

-- The loops that look for a number among those in use.
abbrev pub mem : ℕ → List ℕ → Bool
mem n [] = false
mem n (x ∷ xs) = if x == n then true else mem n xs

-- The loop over the roles that looks for the id.
abbrev pub role_known : ℕ → List Role → Bool
role_known id [] = false
role_known id (r ∷ rs) = if r.role_id == id then true else role_known id rs

-- `rbac_create_role`
unfoldable pub create_role : ℕ → Option (List ℕ) → Rbac → ErrorCode × Rbac
unfolding init
create_role id none s = (invalid_arg, s)
create_role id (some name) s =
    let ready = (init s).1 in
    if role_known id ready.roles
    then (already_exists, ready)
    else if leb max_roles (length ready.roles)
    then (out_of_memory, ready)
    else (
      ok,
      record ready {
        roles = ready.roles ++ record { role_id = id; name = take 31 name; permissions = [] } ∷ [];
      },
    )

-- The end of `rbac_add_permission_to_role` and of `rbac_assign_role_to_user`: a number is added to
-- those in use, if it is not among them and there is room.
unfoldable pub add_to : ℕ → ℕ → List ℕ → ErrorCode × List ℕ
add_to limit n xs =
    if mem n xs
    then (ok, xs)
    else if leb limit (length xs)
    then (out_of_memory, xs)
    else (ok, xs ++ n ∷ [])

-- The first role with the id, and what is done with its permissions.
unfoldable pub for_role : ℕ → (List ℕ → ErrorCode × List ℕ) → List Role → ErrorCode × List Role
for_role id f [] = (not_found, [])
for_role id f (r ∷ rs) =
    let rest = for_role id f rs in
    if r.role_id == id
    then ((f r.permissions).0, record r { permissions = (f r.permissions).1 } ∷ rs)
    else (rest.0, r ∷ rest.1)

-- `rbac_add_permission_to_role`
unfoldable pub add_permission_to_role : (role_id permission : ℕ) → Rbac → ErrorCode × Rbac
unfolding init for_role add_to
add_permission_to_role role_id permission s =
    let ready = (init s).1 in
    let r = for_role role_id (add_to max_permissions_per_role permission) ready.roles in
    (r.0, record ready { roles = r.1 })

-- The loop over the users that looks for the uid.
abbrev pub user_known : ℕ → List UserRoles → Bool
user_known uid [] = false
user_known uid (u ∷ us) = if u.uid == uid then true else user_known uid us

-- The first user with the uid, and what is done with the roles.
unfoldable pub for_user :
    ℕ → (List ℕ → ErrorCode × List ℕ) → List UserRoles → ErrorCode × List UserRoles
for_user uid f [] = (not_found, [])
for_user uid f (u ∷ us) =
    let rest = for_user uid f us in
    if u.uid == uid
    then ((f u.roles).0, record u { roles = (f u.roles).1 } ∷ us)
    else (rest.0, u ∷ rest.1)

-- `rbac_assign_role_to_user`
unfoldable pub assign_role_to_user : (uid role_id : ℕ) → Rbac → ErrorCode × Rbac
unfolding init for_user add_to
assign_role_to_user uid role_id s =
    let ready = (init s).1 in
    let known = user_known uid ready.users in
    let users =
      if known then ready.users else ready.users ++ record { uid = uid; roles = [] } ∷ [] in
    let r = for_user uid (add_to max_roles_per_user role_id) users in
    if known
    then (r.0, record ready { users = r.1 })
    else if leb max_users (length ready.users)
    then (out_of_memory, ready)
    else (r.0, record ready { users = r.1 })

-- The loop that removes a role and moves the following ones up.
unfoldable pub remove_from : ℕ → List ℕ → ErrorCode × List ℕ
remove_from n [] = (not_found, [])
remove_from n (x ∷ xs) =
    let rest = remove_from n xs in if x == n then (ok, xs) else (rest.0, x ∷ rest.1)

-- `rbac_remove_role_from_user`
unfoldable pub remove_role_from_user : (uid role_id : ℕ) → Rbac → ErrorCode × Rbac
unfolding for_user remove_from
remove_role_from_user uid role_id s =
    if s.initialized
    then (
      (for_user uid (remove_from role_id) s.users).0,
      record s { users = (for_user uid (remove_from role_id) s.users).1 },
    )
    else (invalid_state, s)

-- The roles of the first user with the uid, and the permissions of the first role with the id.
abbrev pub roles_of : ℕ → List UserRoles → List ℕ
roles_of uid [] = []
roles_of uid (u ∷ us) = if u.uid == uid then u.roles else roles_of uid us

abbrev pub permissions_of : ℕ → List Role → List ℕ
permissions_of id [] = []
permissions_of id (r ∷ rs) = if r.role_id == id then r.permissions else permissions_of id rs

-- The loop of `rbac_user_has_permission` over the user's roles.
abbrev pub some_role_permits : ℕ → List Role → List ℕ → Bool
some_role_permits permission roles [] = false
some_role_permits permission roles (id ∷ ids) =
    if mem permission (permissions_of id roles)
    then true
    else some_role_permits permission roles ids

-- `rbac_user_has_permission`
unfoldable pub user_has_permission : (uid permission : ℕ) → Rbac → Bool
user_has_permission uid permission s =
    s.initialized && some_role_permits permission s.roles (roles_of uid s.users)

-- `rbac_user_has_role`
unfoldable pub user_has_role : (uid role_id : ℕ) → Rbac → Bool
user_has_role uid role_id s = s.initialized && mem role_id (roles_of uid s.users)

-- `rbac_get_user_roles` with room for `count` roles: what is written, and the new count; without a
-- user the count is 0, and without the two pointers or before the first call nothing is written.
unfoldable pub get_user_roles : Bool → ℕ → Option ℕ → Rbac → ErrorCode × (Option (List ℕ × ℕ))
get_user_roles false uid count s = (invalid_arg, none)
get_user_roles true uid none s = (invalid_arg, none)
get_user_roles true uid (some count) s =
    if s.initialized
    then if user_known uid s.users
      then (
        ok,
        some (
          take (min count (length (roles_of uid s.users))) (roles_of uid s.users),
          length (roles_of uid s.users),
        ),
      )
      else (not_found, some ([], 0))
    else (invalid_state, none)
