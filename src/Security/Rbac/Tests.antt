-- ===== src/Security/Rbac/Tests.antt =====
-- Runs of the functions of kernel/security/rbac.c.
use scarlett_os.Base.{◌≡◌, refl, ◌↔◌, true, some, List, [], ◌∷◌}
use scarlett_os.Base.Errors.{ok}
use scarlett_os.Security.Rbac.{
  blank, user_has_permission, init, create_role, add_permission_to_role, assign_role_to_user,
  for_user, for_role, add_to,
}
use scarlett_os.Security.Rbac.Refines.{
  view, Call, create_role_call, add_permission_call, assign_call, blank-WellFormed,
}
use scarlett_os.Security.Rbac.Run.{
  run, replay, run_refines, RunRefined, Permitted, permission_refines,
}

-- Role 7 may do 3; user 1000 is given it.
abbrev given : List Call
given = create_role_call 7 (some (65 ∷ [])) ∷ add_permission_call 7 3 ∷ assign_call 1000 7 ∷ []

run_refines_example : RunRefined given blank
run_refines_example = run_refines given blank blank-WellFormed

permission_refines_example :
    (user_has_permission 1000 3 (run given blank).1 ≡ true)
    ↔ Permitted (replay given (run given blank).0 (view blank)) 1000 3
permission_refines_example = permission_refines given 1000 3

answers : (run given blank).0 ≡ ok ∷ ok ∷ ok ∷ []
unfolding init create_role add_permission_to_role assign_role_to_user for_user for_role add_to
answers = refl

permitted : user_has_permission 1000 3 (run given blank).1 ≡ true
unfolding init create_role add_permission_to_role assign_role_to_user for_user for_role add_to
    user_has_permission
permitted = refl
