-- ===== src/Fs/Acl/Access.antt =====
-- The list that `acl_set_default` builds from mode bits, against kernel/fs/permissions.c.
use scarlett_os.Base.{
  ℕ, ◌≡◌, refl, ◌≢◌, Bool, true, false, some, List, [], ◌∷◌, ◌==◌, if◌then◌else◌, arith, ◌&&◌, ◌||◌,
}
use scarlett_os.Base.Errors.{ErrorCode, ok}
use scarlett_os.Fs.Permissions.{
  FilePermissions, has_bit, owner_read, owner_write, owner_execute, group_read, group_write,
  group_execute, other_read, other_write, other_execute, check_read, check_write, check_execute,
}
use scarlett_os.Fs.Acl.{
  AclEntry, Acl, acl_read, acl_write, acl_execute, entry_user, entry_group, entry_other, grants,
  perms_of_mode, set_default, check_access, check_other, effective, find_entry, create, add_entry,
  update_first,
}

-- The three rights that a mode has bits for.
pub data Right : Type 0 where
  reading writing executing : Right

abbrev pub requested : Right → ℕ
requested reading = acl_read
requested writing = acl_write
requested executing = acl_execute

-- The mode's bit for the owner, the group and others.
abbrev pub owner_bit : Right → ℕ
owner_bit reading = owner_read
owner_bit writing = owner_write
owner_bit executing = owner_execute

abbrev pub group_bit : Right → ℕ
group_bit reading = group_read
group_bit writing = group_write
group_bit executing = group_execute

abbrev pub other_bit : Right → ℕ
other_bit reading = other_read
other_bit writing = other_write
other_bit executing = other_execute

-- What permissions.c answers.
abbrev pub permitted : Right → FilePermissions → ℕ → ℕ → Bool
permitted reading p u g = check_read (some p) u g
permitted writing p u g = check_write (some p) u g
permitted executing p u g = check_execute (some p) u g

abbrev pub is_ok : ErrorCode → Bool
is_ok ok = true
is_ok _ = false

-- The bit of a right in the permissions that a mode's three bits give.
perms_of_mode-grants :
    (r : Right) (m : ℕ) (a b c : ℕ)
    → grants (perms_of_mode m a b c) (requested r)
      ≡ elim r [ reading ↦ has_bit m a | writing ↦ has_bit m b | executing ↦ has_bit m c ]
unfolding perms_of_mode
perms_of_mode-grants reading m a b c = ground arith
perms_of_mode-grants writing m a b c = ground arith
perms_of_mode-grants executing m a b c = ground arith

abbrev default_entries : ℕ → ℕ → ℕ → List AclEntry
default_entries mode uid gid =
    record {
      kind = entry_user;
      id = uid;
      perms = perms_of_mode mode owner_read owner_write owner_execute;
    }
    ∷ record {
      kind = entry_group;
      id = gid;
      perms = perms_of_mode mode group_read group_write group_execute;
    }
    ∷ record {
      kind = entry_other;
      id = 0;
      perms = perms_of_mode mode other_read other_write other_execute;
    }
    ∷ []

set_default-entries :
    (acl : Acl) (mode uid gid : ℕ)
    → set_default (some acl) mode uid gid
      ≡ (ok, some (record { entries = default_entries mode uid gid }))
unfolding set_default create add_entry update_first
set_default-entries acl mode uid gid = refl

-- On the list that `acl_set_default` makes, `acl_check_access` grants a right to the owner by the
-- owner's bit alone, to another member of the group by the group's or the others' bit, and to
-- anyone else by the others' bit. User 0 is no exception.
pub default_access :
    (r : Right) (acl : Acl) (mode uid gid u g : ℕ)
    → is_ok (check_access (set_default (some acl) mode uid gid).1 u g (requested r)) ≡ (
        if uid == u
        then has_bit mode (owner_bit r)
        else (gid == g && has_bit mode (group_bit r)) || has_bit mode (other_bit r))
unfolding check_access check_other effective find_entry
default_access reading acl mode uid gid u g = rw (set_default-entries acl mode uid gid) (
    ground (
      arith,
      perms_of_mode-grants reading mode owner_read owner_write owner_execute,
      perms_of_mode-grants reading mode group_read group_write group_execute,
      perms_of_mode-grants reading mode other_read other_write other_execute,
    ))
default_access writing acl mode uid gid u g = rw (set_default-entries acl mode uid gid) (
    ground (
      arith,
      perms_of_mode-grants writing mode owner_read owner_write owner_execute,
      perms_of_mode-grants writing mode group_read group_write group_execute,
      perms_of_mode-grants writing mode other_read other_write other_execute,
    ))
default_access executing acl mode uid gid u g = rw (set_default-entries acl mode uid gid) (
    ground (
      arith,
      perms_of_mode-grants executing mode owner_read owner_write owner_execute,
      perms_of_mode-grants executing mode group_read group_write group_execute,
      perms_of_mode-grants executing mode other_read other_write other_execute,
    ))

-- What permissions.c answers, for every right at once.
permitted_lem :
    (r : Right) (p : FilePermissions) (u g : ℕ)
    → permitted r p u g ≡ (
        if u == 0
        then true
        else if u == p.uid
        then has_bit p.mode (owner_bit r)
        else if g == p.gid
        then has_bit p.mode (group_bit r)
        else has_bit p.mode (other_bit r))
unfolding check_read check_write check_execute
permitted_lem reading p u g = refl
permitted_lem writing p u g = refl
permitted_lem executing p u g = refl

module _ (r : Right) (acl : Acl) (p : FilePermissions) (u g : ℕ) where
  -- What the mode bits allow to a user other than 0, the list that `acl_set_default` makes of them
  -- allows too.
  pub mode_implies_acl :
      u ≢ 0
      → permitted r p u g ≡ true
      → check_access (set_default (some acl) p.mode p.uid p.gid).1 u g (requested r) ≡ ok
  mode_implies_acl other allowed =
      let grant : is_ok
            (check_access (set_default (some acl) p.mode p.uid p.gid).1 u g (requested r))
          ≡ true =
        ground (arith, default_access r acl p.mode p.uid p.gid u g, permitted_lem r p u g) in
      ground arith

  -- A member of the group whose bit is clear, neither user 0 nor the owner, is refused by the mode
  -- bits, and is granted the right by the list made of the same mode when the others' bit is set.
  pub group_falls_through :
      u ≢ 0
      → u ≢ p.uid
      → g ≡ p.gid
      → has_bit p.mode (group_bit r) ≡ false
      → has_bit p.mode (other_bit r) ≡ true
      → (permitted r p u g ≡ false)
        × (check_access (set_default (some acl) p.mode p.uid p.gid).1 u g (requested r) ≡ ok)
  group_falls_through not_root not_owner member group others =
      let grant : is_ok
            (check_access (set_default (some acl) p.mode p.uid p.gid).1 u g (requested r))
          ≡ true =
        ground (arith, default_access r acl p.mode p.uid p.gid u g) in
      (ground (arith, permitted_lem r p u g), ground arith)
