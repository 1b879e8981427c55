-- ===== src/Security/Rbac/Refines.antt =====
-- What the callers of kernel/security/rbac.c were told is what holds: the tables refine a relation
-- between users, roles and permissions.
use mathlib.Core.Path.{subst}
use scarlett_os.Base.{
  ℕ, ◌≤◌, ◌≡◌, refl, sym, ap, ◌∙◌, ◌⊎◌, inl, inr, Bool, true, false, ◌&&◌, Option, none, some, List,
  [], ◌∷◌, ◌++◌, take, length, length-append, leb, ◌==◌, if◌then◌else◌, Bool-cases, arith,
}
use scarlett_os.Base.Errors.{ErrorCode, ok}
use scarlett_os.Security.Rbac.{
  Rbac, blank, init, mem, role_known, roles_of, permissions_of, max_roles, max_users, create_role,
  add_permission_to_role, assign_role_to_user, remove_role_from_user,
}
use scarlett_os.Security.Rbac.Tables.{accepted}
use scarlett_os.Security.Rbac.Users.{AllUsers}
use scarlett_os.Security.Rbac.Roles.{
  AllRoles, permissions_of-append, role_known-append, AllRoles-append,
}

-- The facts of the relation.
pub data Fact : Type 0 where
  role_exists : (id : ℕ) → Fact
  grants : (id permission : ℕ) → Fact
  holds : (uid id : ℕ) → Fact

abbrev pub same_fact : Fact → Fact → Bool
same_fact (role_exists id) (role_exists id') = id == id'
same_fact (grants id p) (grants id' p') = (id == id') && (p == p')
same_fact (holds u id) (holds u' id') = (u == u') && (id == id')
same_fact fact other = false

-- What the tables say.
abbrev pub view : Rbac → Fact → Bool
view s (role_exists id) = role_known id s.roles
view s (grants id p) = mem p (permissions_of id s.roles)
view s (holds uid id) = mem id (roles_of uid s.users)

pub data Call : Type 0 where
  create_role_call : (id : ℕ) → (name : Option (List ℕ)) → Call
  add_permission_call : (id permission : ℕ) → Call
  assign_call : (uid id : ℕ) → Call
  remove_call : (uid id : ℕ) → Call

abbrev pub step : Call → Rbac → ErrorCode × Rbac
step (create_role_call id name) s = create_role id name s
step (add_permission_call id p) s = add_permission_to_role id p s
step (assign_call uid id) s = assign_role_to_user uid id s
step (remove_call uid id) s = remove_role_from_user uid id s

-- The one fact that a call is about, and whether it makes it true or false.
abbrev pub fact_of : Call → Fact
fact_of (create_role_call id name) = role_exists id
fact_of (add_permission_call id p) = grants id p
fact_of (assign_call uid id) = holds uid id
fact_of (remove_call uid id) = holds uid id

abbrev pub makes : Call → Bool
makes (remove_call uid id) = false
makes call = true

-- A call that is answered with ERR_OK changes its fact, any other nothing.
abbrev pub apply : Call → ErrorCode → (Fact → Bool) → Fact → Bool
apply call answer facts fact =
    if accepted answer && same_fact (fact_of call) fact then makes call else facts fact

pub record WellFormed (s : Rbac) : Type 0 where
  pub users : AllUsers s.users
  pub roles : AllRoles s.roles
  pub user_room : length s.users ≤ max_users
  pub role_room : length s.roles ≤ max_roles
  pub started : (s.initialized ≡ true) ⊎ (s ≡ blank)

pub blank-WellFormed : WellFormed blank
blank-WellFormed = record {
  users = tt;
  roles = tt;
  user_room = omega arith;
  role_room = omega arith;
  started = inr refl;
}

-- `rbac_init` leaves a state that says the same.
pub record Started (s s' : Rbac) : Type 0 where
  pub valid : WellFormed s'
  pub same : (fact : Fact) → view s' fact ≡ view s fact
  pub on : s'.initialized ≡ true

blank_same :
    (fact : Fact)
    → view (record { roles = []; users = []; initialized = true }) fact ≡ view blank fact
blank_same (role_exists id) = refl
blank_same (grants id p) = refl
blank_same (holds uid id) = refl

pub init-Started : (s : Rbac) → WellFormed s → Started s (init s).1
unfolding init
init-Started s v = elim v.started [
  | inl on ↦
      subst
        (λ (b : Bool).
          let r : ErrorCode × Rbac =
            if b then (ok, s) else (ok, record { roles = []; users = []; initialized = true }) in
          Started s r.1)
        (sym on) (record { valid = v; same = λ fact. refl; on = on })
  | inr empty ↦
      subst (λ (t : Rbac). Started t (init t).1) (sym empty)
        (unfold init in
          record {
            valid = record {
              users = tt;
              roles = tt;
              user_room = omega arith;
              role_room = omega arith;
              started = inl refl;
            };
            same = blank_same;
            on = refl;
          })
]

-- A call keeps the state well formed, and its answer says what it has changed.
pub record Refined (call : Call) (s : Rbac) (r : ErrorCode × Rbac) : Type 0 where
  pub valid : WellFormed r.1
  pub facts : (fact : Fact) → view r.1 fact ≡ apply call r.0 (view s) fact

pub apply_same :
    (call : Call) (answer : ErrorCode) (f g : Fact → Bool) (fact : Fact)
    → f fact ≡ g fact
    → apply call answer f fact ≡ apply call answer g fact
apply_same call answer f g fact e = rw e refl

-- The initialisation before a call is not seen.
pub from_Started :
    (call : Call) (s s' : Rbac) (r : ErrorCode × Rbac)
    → Started s s'
    → Refined call s' r
    → Refined call s r
from_Started call s s' r st f = record {
  valid = f.valid;
  facts = λ fact. f.facts fact ∙ apply_same call r.0 (view s') (view s) fact (st.same fact);
}

created-view :
    (s : Rbac) (id : ℕ) (name : List ℕ) (fact : Fact)
    → view
        (record s {
          roles = s.roles ++ record { role_id = id; name = name; permissions = [] } ∷ [];
        })
        fact
      ≡ (if same_fact (role_exists id) fact then true else view s fact)
created-view s id name (role_exists v) = role_known-append id v name s.roles
created-view s id name (grants v p) = ap (mem p) (permissions_of-append id v name s.roles)
created-view s id name (holds uid v) = refl

-- `rbac_create_role`
pub create-Refined :
    (id : ℕ) (name : Option (List ℕ)) (s : Rbac)
    → WellFormed s
    → Refined (create_role_call id name) s (create_role id name s)
unfolding create_role
create-Refined id none s v = record { valid = v; facts = λ fact. refl }
create-Refined id (some name) s v =
    let st = init-Started s v in
    let ready = (init s).1 in
    from_Started (create_role_call id (some name)) s ready _ st
      (elim (Bool-cases (role_known id ready.roles)) [
        | inl known ↦ rw (create_role, known) (record { valid = st.valid; facts = λ fact. refl })
        | inr fresh ↦ elim (Bool-cases (leb max_roles (length ready.roles))) [
          | inl full ↦
              rw (create_role, fresh, full) (record { valid = st.valid; facts = λ fact. refl })
          | inr more ↦
              rw (create_role, fresh, more)
                (record {
                  valid = record {
                    users = st.valid.users;
                    roles = AllRoles-append id (take 31 name) ready.roles st.valid.roles;
                    user_room = st.valid.user_room;
                    role_room = ground (
                      arith,
                      length-append ready.roles
                          (record { role_id = id; name = take 31 name; permissions = [] } ∷ []),
                    );
                    started = inl st.on;
                  };
                  facts = created-view ready id (take 31 name);
                })
        ]
      ])
