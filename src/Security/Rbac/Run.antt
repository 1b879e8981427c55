-- ===== src/Security/Rbac/Run.antt =====
-- Any calls of kernel/security/rbac.c, against the relation that their answers describe.
use mathlib.Core.Path.{subst}
use scarlett_os.Base.{
  ℕ, ◌≡◌, refl, sym, ◌∙◌, ◌↔◌, inl, inr, Bool, true, false, ◌&&◌, List, [], ◌∷◌, ◌++◌, length,
  length-append, leb, ◌==◌, if◌then◌else◌, Bool-cases, arith,
}
use scarlett_os.Base.Errors.{ErrorCode, invalid_state}
use scarlett_os.Security.Rbac.{
  Role, Rbac, blank, init, mem, user_known, add_to, for_user, remove_from, roles_of, permissions_of,
  max_roles_per_user, max_users, assign_role_to_user, remove_role_from_user,
}
use scarlett_os.Security.Rbac.Tables.{Good, Changes, add_to-Changes, remove_from-Changes}
use scarlett_os.Security.Rbac.Users.{roles_of-Good, roles_of-append, AllUsers-append}
use scarlett_os.Security.Rbac.{some_role_permits, user_has_permission}
use scarlett_os.Security.Rbac.Refines.{
  Fact, grants, holds, view, Call, create_role_call, add_permission_call, assign_call, remove_call,
  step, apply, apply_same, WellFormed, blank-WellFormed, init-Started, Refined, from_Started,
  create-Refined,
}
use scarlett_os.Security.Rbac.Replay.{
  add_to-Good, remove_from-Good, permission-Refined, user-Refined,
}

-- `rbac_assign_role_to_user`
assign-Refined :
    (uid id : ℕ) (s : Rbac)
    → WellFormed s
    → Refined (assign_call uid id) s (assign_role_to_user uid id s)
unfolding assign_role_to_user
assign-Refined uid id s v =
    let st = init-Started s v in
    let ready = (init s).1 in
    let f = add_to max_roles_per_user id in
    let us = ready.users ++ record { uid = uid; roles = [] } ∷ [] in
    let change : (xs : List ℕ)
        → Good max_roles_per_user xs
        → Changes max_roles_per_user id true xs (f xs) =
      λ xs (d, room). add_to-Changes max_roles_per_user id xs d room in
    from_Started (assign_call uid id) s ready _ st (elim (Bool-cases (user_known uid ready.users)) [
      | inl known ↦
          rw (assign_role_to_user, known)
            (user-Refined (assign_call uid id) uid id f ready ready.users refl (λ k. refl)
              (add_to-Good max_roles_per_user id)
              (change (roles_of uid ready.users) (roles_of-Good uid ready.users st.valid.users))
              st.valid.users st.valid.user_room st.valid st.on)
      | inr fresh ↦ elim (Bool-cases (leb max_users (length ready.users))) [
        | inl full ↦
            rw (assign_role_to_user, fresh, full)
              (record { valid = st.valid; facts = λ fact. refl })
        | inr more ↦
            let g = AllUsers-append uid ready.users st.valid.users in
            rw (assign_role_to_user, fresh, more)
              (user-Refined (assign_call uid id) uid id f ready us refl
                (λ k. roles_of-append uid k ready.users) (add_to-Good max_roles_per_user id)
                (change (roles_of uid us) (roles_of-Good uid us g)) g
                (ground (arith, length-append ready.users (record { uid = uid; roles = [] } ∷ [])))
                st.valid st.on)
      ]
    ])

-- `rbac_remove_role_from_user`
abbrev removed : (uid id : ℕ) (s : Rbac) → Bool → ErrorCode × Rbac
removed uid id s started =
    if started
    then (
      (for_user uid (remove_from id) s.users).0,
      record s { users = (for_user uid (remove_from id) s.users).1 },
    )
    else (invalid_state, s)

removed-Refined :
    (uid id : ℕ) (s : Rbac)
    → WellFormed s
    → (started : Bool) → s.initialized ≡ started
    → Refined (remove_call uid id) s (removed uid id s started)
removed-Refined uid id s v false off = record { valid = v; facts = λ fact. refl }
removed-Refined uid id s v true on =
    let (d, room) = roles_of-Good uid s.users v.users in
    user-Refined (remove_call uid id) uid id (remove_from id) s s.users refl (λ k. refl)
      (remove_from-Good max_roles_per_user id)
      (remove_from-Changes max_roles_per_user id (roles_of uid s.users) d room) v.users v.user_room
      v on

remove-Refined :
    (uid id : ℕ) (s : Rbac)
    → WellFormed s
    → Refined (remove_call uid id) s (remove_role_from_user uid id s)
unfolding remove_role_from_user
remove-Refined uid id s v = removed-Refined uid id s v s.initialized refl

step-Refined : (call : Call) (s : Rbac) → WellFormed s → Refined call s (step call s)
step-Refined (create_role_call id name) s v = create-Refined id name s v
step-Refined (add_permission_call id p) s v = permission-Refined id p s v
step-Refined (assign_call uid id) s v = assign-Refined uid id s v
step-Refined (remove_call uid id) s v = remove-Refined uid id s v

-- Calls in a row, with their answers.
abbrev pub run : List Call → Rbac → List ErrorCode × Rbac
run [] s = ([], s)
run (call ∷ calls) s =
    let first = step call s in let rest = run calls first.1 in (first.0 ∷ rest.0, rest.1)

-- What follows from the answers alone.
abbrev pub replay : List Call → List ErrorCode → (Fact → Bool) → Fact → Bool
replay [] answers facts = facts
replay (call ∷ calls) [] facts = facts
replay (call ∷ calls) (answer ∷ answers) facts = replay calls answers (apply call answer facts)

replay_same :
    (calls : List Call) (answers : List ErrorCode) (f g : Fact → Bool)
    → ((fact : Fact) → f fact ≡ g fact)
    → (fact : Fact) → replay calls answers f fact ≡ replay calls answers g fact
replay_same [] answers f g h fact = h fact
replay_same (call ∷ calls) [] f g h fact = h fact
replay_same (call ∷ calls) (answer ∷ answers) f g h fact =
    replay_same calls answers (apply call answer f) (apply call answer g)
      (λ x. apply_same call answer f g x (h x)) fact

pub record RunRefined (calls : List Call) (s : Rbac) : Type 0 where
  pub valid : WellFormed (run calls s).1
  pub facts : (fact : Fact) → view (run calls s).1 fact ≡ replay calls (run calls s).0 (view s) fact

-- After any calls the state is well formed, and it says what follows from the answers.
pub run_refines : (calls : List Call) (s : Rbac) → WellFormed s → RunRefined calls s
run_refines [] s v = record { valid = v; facts = λ fact. refl }
run_refines (call ∷ calls) s v =
    let first = step-Refined call s v in
    let rest = run_refines calls (step call s).1 first.valid in
    record {
      valid = rest.valid;
      facts = λ fact.
          rest.facts fact
          ∙ replay_same calls (run calls (step call s).1).0 (view (step call s).1)
              (apply call (step call s).0 (view s)) first.facts fact;
    }

-- The loop over a user's roles finds a permission exactly if one of them has it.
some_role_permits_sound :
    (p : ℕ) (roles : List Role) (ids : List ℕ)
    → some_role_permits p roles ids ≡ true
    → (id : ℕ) × (mem id ids ≡ true) × (mem p (permissions_of id roles) ≡ true)
some_role_permits_sound p roles [] h = absurd (ground arith)
some_role_permits_sound p roles (id ∷ ids) h = elim (Bool-cases (mem p (permissions_of id roles))) [
  | inl e ↦ (id, ground arith, e)
  | inr e ↦
      let (id', there, permits) = some_role_permits_sound p roles ids (ground (arith, e)) in
      (id', ground arith, permits)
]

some_role_permits_complete :
    (p : ℕ) (roles : List Role) (ids : List ℕ) (id : ℕ)
    → mem id ids ≡ true
    → mem p (permissions_of id roles) ≡ true
    → some_role_permits p roles ids ≡ true
some_role_permits_complete p roles [] id h k = absurd (ground arith)
some_role_permits_complete p roles (x ∷ xs) id h k =
    elim (Bool-cases (mem p (permissions_of x roles))) [
      | inl e ↦ rw e refl
      | inr e ↦ elim (Bool-cases (x == id)) [
        | inl same ↦
            let equal : x ≡ id = ground arith in
            let permits : mem p (permissions_of x roles) ≡ true = rw equal k in rw permits refl
        | inr other ↦ rw e (some_role_permits_complete p roles xs id (ground arith) k)
      ]
    ]

-- An answer of `rbac_user_has_permission`, as the facts have it.
abbrev pub Permitted : (Fact → Bool) → ℕ → ℕ → Type 0
Permitted facts uid p = (id : ℕ) × (facts (holds uid id) ≡ true) × (facts (grants id p) ≡ true)

pub permission_iff :
    (uid p : ℕ) (s : Rbac)
    → WellFormed s
    → (user_has_permission uid p s ≡ true) ↔ Permitted (view s) uid p
unfolding user_has_permission
permission_iff uid p s v = elim v.started [
  | inl on ↦
      subst
        (λ (b : Bool).
          ((b && some_role_permits p s.roles (roles_of uid s.users)) ≡ true)
          ↔ Permitted (view s) uid p)
        (sym on)
        (
          λ h. some_role_permits_sound p s.roles (roles_of uid s.users) h,
          λ (id, there, permits).
              some_role_permits_complete p s.roles (roles_of uid s.users) id there permits,
        )
  | inr empty ↦
      subst (λ (t : Rbac). (user_has_permission uid p t ≡ true) ↔ Permitted (view t) uid p)
        (sym empty)
        (unfold user_has_permission in
          (λ h. absurd (ground arith), λ (id, there, permits). absurd (ground arith)))
]

-- From the first call on, a user has a permission exactly if the answers so far say that the user
-- holds a role that grants it.
pub permission_refines :
    (calls : List Call) (uid p : ℕ)
    → (user_has_permission uid p (run calls blank).1 ≡ true)
      ↔ Permitted (replay calls (run calls blank).0 (view blank)) uid p
permission_refines calls uid p =
    let r = run_refines calls blank blank-WellFormed in
    let (to, from) = permission_iff uid p (run calls blank).1 r.valid in
    (
      λ h.
          let (id, there, permits) = to h in
          (id, sym (r.facts (holds uid id)) ∙ there, sym (r.facts (grants id p)) ∙ permits),
      λ (id, there, permits).
          from (id, r.facts (holds uid id) ∙ there, r.facts (grants id p) ∙ permits),
    )
