-- ===== src/Fs/Acl.antt =====
-- kernel/fs/acl.c: access control lists. An `acl_t` is the list `entries[0 .. entry_count)` of its
-- array in order; a pointer that may be NULL is an `Option`. `acl_init` only initialises a lock
-- that nothing takes.
pub mod Table
pub mod Access
use scarlett_os.Base.{
  ℕ, Bool, true, false, Option, none, some, List, [], ◌∷◌, ◌++◌, leb, ◌==◌, if◌then◌else◌, bit_and,
  bit_or, length, ◌&&◌,
}
use scarlett_os.Base.Errors.{
  ErrorCode, ok, invalid_arg, out_of_memory, not_found, permission_denied,
}
use scarlett_os.Fs.Permissions.{
  has_bit, owner_read, owner_write, owner_execute, group_read, group_write, group_execute,
  other_read, other_write, other_execute,
}

-- `ACL_ENTRY_USER` and its like, `ACL_READ` and its like, `MAX_ACL_ENTRIES`.
abbrev pub entry_user : ℕ
entry_user = 0x01

abbrev pub entry_group : ℕ
entry_group = 0x02

abbrev pub entry_other : ℕ
entry_other = 0x04

abbrev pub entry_mask : ℕ
entry_mask = 0x08

abbrev pub acl_read : ℕ
acl_read = 0x04

abbrev pub acl_write : ℕ
acl_write = 0x02

abbrev pub acl_execute : ℕ
acl_execute = 0x01

abbrev pub max_entries : ℕ
max_entries = 32

-- `acl_entry_t`
pub record AclEntry : Type 0 where
  pub kind : ℕ
  pub id : ℕ
  pub perms : ℕ

-- `acl_t`
pub record Acl : Type 0 where
  pub entries : List AclEntry

-- `entries[i].type == type && entries[i].id == id`
abbrev pub matches : AclEntry → ℕ → ℕ → Bool
matches e kind id = (e.kind == kind) && (e.id == id)

-- `acl_create` clears the structure.
unfoldable pub create : Option Acl → ErrorCode × Option Acl
create none = (invalid_arg, none)
create (some acl) = (ok, some (record { entries = [] }))

-- The loop of `acl_add_entry`: the entries with the first match given new permissions, if any.
unfoldable pub update_first : List AclEntry → ℕ → ℕ → ℕ → Option (List AclEntry)
update_first [] kind id perms = none
update_first (e ∷ es) kind id perms =
    let rest = update_first es kind id perms in
    if matches e kind id
    then some (record e { perms = perms } ∷ es)
    else elim rest [ none ↦ none | some es' ↦ some (e ∷ es') ]

unfoldable pub add_entry : Option Acl → ℕ → ℕ → ℕ → ErrorCode × Option Acl
add_entry none kind id perms = (invalid_arg, none)
add_entry (some acl) kind id perms =
    if leb max_entries (length acl.entries)
    then (out_of_memory, some acl)
    else elim (update_first acl.entries kind id perms) [
      | some es ↦ (ok, some (record { entries = es }))
      | none ↦ (
        ok,
        some (record {
          entries = acl.entries ++ (record { kind = kind; id = id; perms = perms } ∷ []);
        }),
      )
    ]

-- The loop of `acl_remove_entry`: the first match is dropped and the rest moves up.
unfoldable pub remove_first : List AclEntry → ℕ → ℕ → Option (List AclEntry)
remove_first [] kind id = none
remove_first (e ∷ es) kind id =
    let rest = remove_first es kind id in
    if matches e kind id then some es else elim rest [ none ↦ none | some es' ↦ some (e ∷ es') ]

unfoldable pub remove_entry : Option Acl → ℕ → ℕ → ErrorCode × Option Acl
remove_entry none kind id = (invalid_arg, none)
remove_entry (some acl) kind id = elim (remove_first acl.entries kind id) [
  | none ↦ (not_found, some acl)
  | some es ↦ (ok, some (record { entries = es }))
]

-- The loop of `acl_get_entry`.
unfoldable pub find_entry : List AclEntry → ℕ → ℕ → Option AclEntry
find_entry [] kind id = none
find_entry (e ∷ es) kind id =
    let rest = find_entry es kind id in if matches e kind id then some e else rest

-- `acl_get_entry`; what goes through the pointer `entry` stands beside the code.
unfoldable pub get_entry : Option Acl → ℕ → ℕ → ErrorCode × Option AclEntry
get_entry none kind id = (invalid_arg, none)
get_entry (some acl) kind id = elim (find_entry acl.entries kind id) [
  | none ↦ (not_found, none)
  | some e ↦ (ok, some e)
]

-- `(perms & requested) == requested`
abbrev pub grants : ℕ → ℕ → Bool
grants perms requested = bit_and perms requested == requested

-- The group's permissions under the mask entry, if there is one.
unfoldable pub effective : List AclEntry → AclEntry → ℕ
effective es group = elim (find_entry es entry_mask 0) [
  | none ↦ group.perms
  | some mask ↦ bit_and group.perms mask.perms
]

-- The last part of `acl_check_access`.
unfoldable pub check_other : List AclEntry → ℕ → ErrorCode
check_other es requested = elim (find_entry es entry_other 0) [
  | none ↦ permission_denied
  | some e ↦ if grants e.perms requested then ok else permission_denied
]

unfoldable pub check_access : Option Acl → ℕ → ℕ → ℕ → ErrorCode
check_access none uid gid requested = invalid_arg
check_access (some acl) uid gid requested = elim (find_entry acl.entries entry_user uid) [
  | some user ↦ if grants user.perms requested then ok else permission_denied
  | none ↦ elim (find_entry acl.entries entry_group gid) [
    | none ↦ check_other acl.entries requested
    | some group ↦
        if grants (effective acl.entries group) requested
        then ok
        else check_other acl.entries requested
  ]
]

-- The permissions that `acl_set_default` collects from three bits of the mode.
unfoldable pub perms_of_mode : ℕ → ℕ → ℕ → ℕ → ℕ
perms_of_mode mode read write execute =
    let p₁ = (if has_bit mode read then bit_or 0 acl_read else 0) in
    let p₂ = (if has_bit mode write then bit_or p₁ acl_write else p₁) in
    if has_bit mode execute then bit_or p₂ acl_execute else p₂

unfoldable pub set_default : Option Acl → ℕ → ℕ → ℕ → ErrorCode × Option Acl
set_default none mode uid gid = (invalid_arg, none)
set_default (some acl) mode uid gid =
    let (e₀, a₀) = create (some acl) in
    let (e₁, a₁) =
      add_entry a₀ entry_user uid (perms_of_mode mode owner_read owner_write owner_execute) in
    let (e₂, a₂) =
      add_entry a₁ entry_group gid (perms_of_mode mode group_read group_write group_execute) in
    let (e₃, a₃) =
      add_entry a₂ entry_other 0 (perms_of_mode mode other_read other_write other_execute) in
    (ok, a₃)
