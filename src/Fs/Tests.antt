-- ===== src/Fs/Tests.antt =====
-- Mode 0704 of a file of user 7 and group 70, and lists with one to three entries.
use scarlett_os.Base.{false, ◌≡◌, refl, some, [], ◌∷◌, arith}
use scarlett_os.Base.Errors.{ok, permission_denied}
use scarlett_os.Fs.Permissions.{FilePermissions}
use scarlett_os.Fs.Acl.{
  Acl, add_entry, check_access, set_default, entry_user, entry_group, find_entry, check_other,
  effective, entry_mask, entry_other,
}
use scarlett_os.Fs.Acl.Table.{WellFormed, entry, AddOutcome, add_entry_lem}
use scarlett_os.Fs.Acl.Access.{reading, permitted, group_falls_through}

abbrev secret : FilePermissions
secret = record { mode = 0o704; uid = 7; gid = 70 }

abbrev two_users : Acl
two_users = record { entries = entry entry_user 7 6 ∷ entry entry_group 70 4 ∷ [] }

abbrev two_users-WellFormed : WellFormed two_users
unfolding find_entry
two_users-WellFormed = record { bounded = omega arith; distinct = (refl, (refl, tt)) }

add_entry_lem_example :
    AddOutcome two_users entry_user 8 4 (add_entry (some two_users) entry_user 8 4)
unfolding find_entry
add_entry_lem_example = add_entry_lem entry_user 8 4 two_users-WellFormed

group_falls_through_example :
    (permitted reading secret 8 70 ≡ false)
    × (check_access (set_default (some two_users) 0o704 7 70).1 8 70 4 ≡ ok)
group_falls_through_example =
    group_falls_through reading two_users secret 8 70 (omega arith) (omega arith) refl refl refl

mask_limits_group :
    check_access
      (some (record {
        entries = entry entry_group 70 6 ∷ entry entry_mask 0 4 ∷ entry entry_other 0 0 ∷ [];
      }))
      8
      70
      2
    ≡ permission_denied
unfolding check_access check_other effective find_entry
mask_limits_group = refl
