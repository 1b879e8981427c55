-- ===== src/Security/Rbac/Replay.antt =====
-- The changes of kernel/security/rbac.c to permissions and to roles of users, against the relation.
use scarlett_os.Base.{ℕ, ◌≤◌, ◌≡◌, sym, ◌∙◌, inl, true, List, length, arith}
use scarlett_os.Base.Errors.{ErrorCode}
use scarlett_os.Security.Rbac.{
  UserRoles, Rbac, init, mem, role_known, user_known, add_to, for_role, for_user, remove_from,
  roles_of, permissions_of, max_roles_per_user, max_permissions_per_role, max_users,
  add_permission_to_role,
}
use scarlett_os.Security.Rbac.Tables.{
  Good, accepted, Changes, and_keeps, changed_member, add_to-Changes, remove_from-Changes,
}
use scarlett_os.Security.Rbac.Users.{
  for_user-code, for_user-roles, AllUsers, for_user-AllUsers, length-for_user,
}
use scarlett_os.Security.Rbac.Roles.{
  for_role-code, for_role-permissions, AllRoles, permissions_of-Good, for_role-AllRoles,
  length-for_role, role_known-for_role,
}
use scarlett_os.Security.Rbac.Refines.{
  Fact, role_exists, grants, holds, view, Call, add_permission_call, fact_of, makes, apply,
  WellFormed, init-Started, Refined, from_Started,
}

permission-facts :
    (id p : ℕ) (s : Rbac) (fact : Fact)
    → AllRoles s.roles
    → view (record s { roles = (for_role id (add_to max_permissions_per_role p) s.roles).1 }) fact
      ≡ apply
          (add_permission_call id p)
          (for_role id (add_to max_permissions_per_role p) s.roles).0
          (view s)
          fact
permission-facts id p s (role_exists v) g =
    let f = add_to max_permissions_per_role p in
    role_known-for_role id v f s.roles
    ∙ sym (and_keeps (accepted (for_role id f s.roles).0) true (role_known v s.roles))
permission-facts id p s (holds u v) g = sym (
    and_keeps (accepted (for_role id (add_to max_permissions_per_role p) s.roles).0) true
      (mem v (roles_of u s.users)))
permission-facts id p s (grants v q) g =
    let f = add_to max_permissions_per_role p in
    let (d, room) = permissions_of-Good id s.roles g in
    rw (for_role-permissions id f s.roles v, for_role-code id f s.roles)
      (changed_member max_permissions_per_role p true (role_known id s.roles) id v q f
        (λ (k : ℕ). permissions_of k s.roles)
        (add_to-Changes max_permissions_per_role p (permissions_of id s.roles) d room))

pub add_to-Good : (limit n : ℕ) (xs : List ℕ) → Good limit xs → Good limit (add_to limit n xs).1
add_to-Good limit n xs (d, room) = let c = add_to-Changes limit n xs d room in (c.distinct, c.room)

pub remove_from-Good : (limit n : ℕ) (xs : List ℕ) → Good limit xs → Good limit (remove_from n xs).1
remove_from-Good limit n xs (d, room) =
    let c = remove_from-Changes limit n xs d room in (c.distinct, c.room)

-- `rbac_add_permission_to_role`
pub permission-Refined :
    (id p : ℕ) (s : Rbac)
    → WellFormed s
    → Refined (add_permission_call id p) s (add_permission_to_role id p s)
unfolding add_permission_to_role
permission-Refined id p s v =
    let st = init-Started s v in
    let ready = (init s).1 in
    let f = add_to max_permissions_per_role p in
    from_Started (add_permission_call id p) s ready _ st (record {
      valid = record {
        users = st.valid.users;
        roles =
            for_role-AllRoles id f ready.roles (add_to-Good max_permissions_per_role p)
              st.valid.roles;
        user_room = st.valid.user_room;
        role_room = omega (arith, st.valid.role_room, length-for_role id f ready.roles);
        started = inl st.on;
      };
      facts = λ fact. permission-facts id p ready fact st.valid.roles;
    })

-- A change of one user's roles: `us` are the users of the state, with a new one without roles or not.
user-facts :
    (call : Call) (uid id : ℕ) (f : List ℕ → ErrorCode × List ℕ) (s : Rbac) (us : List UserRoles)
    → fact_of call ≡ holds uid id
    → ((v : ℕ) → roles_of v us ≡ roles_of v s.users)
    → Changes max_roles_per_user id (makes call) (roles_of uid us) (f (roles_of uid us))
    → (fact : Fact)
    → view (record s { users = (for_user uid f us).1 }) fact
      ≡ apply call (for_user uid f us).0 (view s) fact
user-facts call uid id f s us e same c (role_exists v) =
    rw e (sym (and_keeps (accepted (for_user uid f us).0) (makes call) (role_known v s.roles)))
user-facts call uid id f s us e same c (grants v p) = rw e (
    sym
      (and_keeps (accepted (for_user uid f us).0) (makes call) (mem p (permissions_of v s.roles))))
user-facts call uid id f s us e same c (holds v q) =
    rw (e, ← same v, for_user-roles uid f us v, for_user-code uid f us)
      (changed_member max_roles_per_user id (makes call) (user_known uid us) uid v q f
        (λ (k : ℕ). roles_of k us) c)

pub user-Refined :
    (call : Call) (uid id : ℕ) (f : List ℕ → ErrorCode × List ℕ) (s : Rbac) (us : List UserRoles)
    → fact_of call ≡ holds uid id
    → ((v : ℕ) → roles_of v us ≡ roles_of v s.users)
    → ((xs : List ℕ) → Good max_roles_per_user xs → Good max_roles_per_user (f xs).1)
    → Changes max_roles_per_user id (makes call) (roles_of uid us) (f (roles_of uid us))
    → AllUsers us
    → length us ≤ max_users
    → WellFormed s
    → s.initialized ≡ true
    → Refined call s ((for_user uid f us).0, record s { users = (for_user uid f us).1 })
user-Refined call uid id f s us e same keeps c g room v on = record {
  valid = record {
    users = for_user-AllUsers uid f us keeps g;
    roles = v.roles;
    user_room = omega (arith, length-for_user uid f us);
    role_room = v.role_room;
    started = inl on;
  };
  facts = user-facts call uid id f s us e same c;
}
