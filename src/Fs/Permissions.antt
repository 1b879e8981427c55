-- ===== src/Fs/Permissions.antt =====
-- kernel/fs/permissions.c: Unix mode bits. A pointer that may be NULL is an `Option`.
-- `permissions_get_current_uid` and `_gid` only pass on the current user's numbers.
use scarlett_os.Base.{ℕ, Bool, true, false, Option, none, some, ◌==◌, if◌then◌else◌, not, bit_and}

-- `file_permissions_t`
pub record FilePermissions : Type 0 where
  pub mode : ℕ
  pub uid : ℕ
  pub gid : ℕ

-- `PERM_READ`, `PERM_WRITE`, `PERM_EXECUTE`, for the owner, the group and others.
abbrev pub owner_read : ℕ
owner_read = 0o400

abbrev pub owner_write : ℕ
owner_write = 0o200

abbrev pub owner_execute : ℕ
owner_execute = 0o100

abbrev pub group_read : ℕ
group_read = 0o40

abbrev pub group_write : ℕ
group_write = 0o20

abbrev pub group_execute : ℕ
group_execute = 0o10

abbrev pub other_read : ℕ
other_read = 0o4

abbrev pub other_write : ℕ
other_write = 0o2

abbrev pub other_execute : ℕ
other_execute = 0o1

-- `(mode & mask) != 0`
abbrev pub has_bit : ℕ → ℕ → Bool
has_bit mode mask = not (bit_and mode mask == 0)

unfoldable pub check_read : Option FilePermissions → ℕ → ℕ → Bool
check_read none uid gid = false
check_read (some perms) uid gid =
    if uid == 0
    then true
    else if uid == perms.uid
    then has_bit perms.mode owner_read
    else if gid == perms.gid
    then has_bit perms.mode group_read
    else has_bit perms.mode other_read

unfoldable pub check_write : Option FilePermissions → ℕ → ℕ → Bool
check_write none uid gid = false
check_write (some perms) uid gid =
    if uid == 0
    then true
    else if uid == perms.uid
    then has_bit perms.mode owner_write
    else if gid == perms.gid
    then has_bit perms.mode group_write
    else has_bit perms.mode other_write

unfoldable pub check_execute : Option FilePermissions → ℕ → ℕ → Bool
check_execute none uid gid = false
check_execute (some perms) uid gid =
    if uid == 0
    then true
    else if uid == perms.uid
    then has_bit perms.mode owner_execute
    else if gid == perms.gid
    then has_bit perms.mode group_execute
    else has_bit perms.mode other_execute

-- `permissions_set_mode` keeps the low 12 bits.
unfoldable pub set_mode : Option FilePermissions → ℕ → Option FilePermissions
set_mode none mode = none
set_mode (some perms) mode = some (record perms { mode = bit_and mode 0x0fff })

unfoldable pub set_owner : Option FilePermissions → ℕ → ℕ → Option FilePermissions
set_owner none uid gid = none
set_owner (some perms) uid gid = some (record perms { uid = uid; gid = gid })
