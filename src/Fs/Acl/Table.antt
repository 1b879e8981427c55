-- ===== src/Fs/Acl/Table.antt =====
-- An access control list is a finite map from kind and id to permissions, of at most 32 entries.
use scarlett_os.Base.{
  ℕ, ◌+◌, ◌≤◌, ◌≡◌, refl, ◌⊎◌, inl, inr, Bool-cases, Option-cases, Option, none, some, List, [],
  ◌∷◌, ◌++◌, leb, ◌==◌, if◌then◌else◌, arith, length, length-append, ◌&&◌,
}
use scarlett_os.Base.Errors.{ErrorCode, ok, out_of_memory, not_found}
use scarlett_os.Fs.Acl.{
  AclEntry, Acl, max_entries, matches, update_first, remove_first, find_entry, add_entry,
  remove_entry,
}

-- No two entries have the same kind and id.
abbrev pub IsDistinct : List AclEntry → Type 0
IsDistinct [] = Unit
IsDistinct (e ∷ es) = (find_entry es e.kind e.id ≡ none) × IsDistinct es

pub record WellFormed (acl : Acl) : Type 0 where
  pub bounded : length acl.entries ≤ max_entries
  pub distinct : IsDistinct acl.entries

abbrev pub entry : ℕ → ℕ → ℕ → AclEntry
entry kind id perms = record { kind = kind; id = id; perms = perms }

module _ (kind id perms : ℕ) where
  find-update_first :
      (es : List AclEntry) {es' : List AclEntry} (k i : ℕ)
      → update_first es kind id perms ≡ some es'
      → find_entry es' k i
        ≡ (if (kind == k) && (id == i) then some (entry kind id perms) else find_entry es k i)
  unfolding update_first find_entry
  find-update_first [] k i h = cc
  find-update_first (e ∷ es) {es'} k i h = elim (Bool-cases (matches e kind id)) [
    | inl hit ↦ ground arith
    | inr miss ↦ elim (Option-cases (update_first es kind id perms)) [
      | inl absent ↦ absurd (ground arith)
      | inr (fs, found) ↦ ground (arith, find-update_first es {es' = fs} k i found)
    ]
  ]

  find_of_absent :
      (es : List AclEntry) → update_first es kind id perms ≡ none → find_entry es kind id ≡ none
  unfolding update_first find_entry
  find_of_absent [] h = refl
  find_of_absent (e ∷ es) h = ground (arith, find_of_absent es)

  length-update_first :
      (es : List AclEntry) {es' : List AclEntry}
      → update_first es kind id perms ≡ some es'
      → length es' ≡ length es
  unfolding update_first
  length-update_first [] h = cc
  length-update_first (e ∷ es) {es'} h = elim (Option-cases (update_first es kind id perms)) [
    | inl absent ↦ ground arith
    | inr (fs, found) ↦ ground (arith, length-update_first es {es' = fs} found)
  ]

  find-append :
      (es : List AclEntry) (k i : ℕ)
      → find_entry es kind id ≡ none
      → find_entry (es ++ (entry kind id perms ∷ [])) k i
        ≡ (if (kind == k) && (id == i) then some (entry kind id perms) else find_entry es k i)
  unfolding find_entry
  find-append [] k i h = refl
  find-append (e ∷ es) k i h = ground (arith, find-append es k i)

  IsDistinct-update_first :
      (es : List AclEntry) {es' : List AclEntry}
      → update_first es kind id perms ≡ some es'
      → IsDistinct es
      → IsDistinct es'
  unfolding update_first
  IsDistinct-update_first [] h d = cc
  IsDistinct-update_first (e ∷ es) {es'} h d = elim (Bool-cases (matches e kind id)) [
    | inl hit ↦ let p : (record e { perms = perms } ∷ es) ≡ es' = ground arith in rw (← p) d
    | inr miss ↦ elim (Option-cases (update_first es kind id perms)) [
      | inl absent ↦ absurd (ground arith)
      | inr (fs, found) ↦
          let p : (e ∷ fs) ≡ es' = ground arith in
          rw (← p) (
            ground (arith, find-update_first es {es' = fs} e.kind e.id found, d.0),
            IsDistinct-update_first es {es' = fs} found d.1,
          )
    ]
  ]

  IsDistinct-append :
      (es : List AclEntry)
      → find_entry es kind id ≡ none
      → IsDistinct es
      → IsDistinct (es ++ (entry kind id perms ∷ []))
  unfolding find_entry
  IsDistinct-append [] h d = (refl, tt)
  IsDistinct-append (e ∷ es) h d =
      (ground (arith, find-append es e.kind e.id), IsDistinct-append es (ground arith) d.1)

module _ (kind id : ℕ) where
  find-remove_first :
      (es : List AclEntry) {es' : List AclEntry} (k i : ℕ)
      → remove_first es kind id ≡ some es'
      → IsDistinct es
      → find_entry es' k i ≡ (if (kind == k) && (id == i) then none else find_entry es k i)
  unfolding remove_first find_entry
  find-remove_first [] k i h d = cc
  find-remove_first (e ∷ es) {es'} k i h d = elim (Bool-cases (matches e kind id)) [
    | inl hit ↦ elim (Bool-cases ((kind == k) && (id == i))) [
      | inl this ↦
          let p : es ≡ es' = ground arith in
          let q : e.kind ≡ k = ground arith in
          let r : e.id ≡ i = ground arith in rw this (rw (← p, ← q, ← r) d.0)
      | inr other ↦ ground arith
    ]
    | inr miss ↦ elim (Option-cases (remove_first es kind id)) [
      | inl absent ↦ absurd (ground arith)
      | inr (fs, found) ↦ ground (arith, find-remove_first es {es' = fs} k i found d.1)
    ]
  ]

  find_of_not_removed :
      (es : List AclEntry) → remove_first es kind id ≡ none → find_entry es kind id ≡ none
  unfolding remove_first find_entry
  find_of_not_removed [] h = refl
  find_of_not_removed (e ∷ es) h = ground (arith, find_of_not_removed es)

  length-remove_first :
      (es : List AclEntry) {es' : List AclEntry}
      → remove_first es kind id ≡ some es'
      → length es' + 1 ≡ length es
  unfolding remove_first
  length-remove_first [] h = cc
  length-remove_first (e ∷ es) {es'} h = elim (Option-cases (remove_first es kind id)) [
    | inl absent ↦ ground arith
    | inr (fs, found) ↦ ground (arith, length-remove_first es {es' = fs} found)
  ]

  IsDistinct-remove_first :
      (es : List AclEntry) {es' : List AclEntry}
      → remove_first es kind id ≡ some es'
      → IsDistinct es
      → IsDistinct es'
  unfolding remove_first
  IsDistinct-remove_first [] h d = cc
  IsDistinct-remove_first (e ∷ es) {es'} h d = elim (Bool-cases (matches e kind id)) [
    | inl hit ↦ let p : es ≡ es' = ground arith in rw (← p) d.1
    | inr miss ↦ elim (Option-cases (remove_first es kind id)) [
      | inl absent ↦ absurd (ground arith)
      | inr (fs, found) ↦
          let p : (e ∷ fs) ≡ es' = ground arith in
          rw (← p) (
            ground (arith, find-remove_first es {es' = fs} e.kind e.id found d.1, d.0),
            IsDistinct-remove_first es {es' = fs} found d.1,
          )
    ]
  ]

-- The list was full and stayed; or the key now has the permissions and every other key what it had.
abbrev pub AddOutcome : Acl → ℕ → ℕ → ℕ → ErrorCode × Option Acl → Type 0
AddOutcome acl kind id perms r =
    ((length acl.entries ≡ max_entries) × (r ≡ (out_of_memory, some acl)))
    ⊎ ((acl' : Acl) × (r ≡ (ok, some acl'))
        × WellFormed acl'
        × ((k i : ℕ)
            → find_entry acl'.entries k i ≡ (
                if (kind == k) && (id == i)
                then some (entry kind id perms)
                else find_entry acl.entries k i)))

-- The key was not there and nothing changed; or it is gone and every other key has what it had.
abbrev pub RemoveOutcome : Acl → ℕ → ℕ → ErrorCode × Option Acl → Type 0
RemoveOutcome acl kind id r =
    ((find_entry acl.entries kind id ≡ none) × (r ≡ (not_found, some acl)))
    ⊎ ((acl' : Acl) × (r ≡ (ok, some acl'))
        × WellFormed acl'
        × (length acl'.entries + 1 ≡ length acl.entries)
        × ((k i : ℕ)
            → find_entry acl'.entries k i
              ≡ (if (kind == k) && (id == i) then none else find_entry acl.entries k i)))

-- On a list with distinct keys `acl_add_entry` fails and changes nothing when 32 entries are there,
-- also for a key that is among them; otherwise it succeeds, the keys stay distinct and at most 32,
-- the key has the given permissions and every other key keeps its entry.
pub add_entry_lem :
    {acl : Acl} (kind id perms : ℕ)
    → WellFormed acl
    → AddOutcome acl kind id perms (add_entry (some acl) kind id perms)
unfolding add_entry
add_entry_lem {acl} kind id perms v = elim (Bool-cases (leb max_entries (length acl.entries))) [
  | inl full ↦ inl (ground (arith, v.bounded), rw full)
  | inr room ↦ elim (Option-cases (update_first acl.entries kind id perms)) [
    | inr (es, found) ↦ inr (
      record { entries = es },
      rw (room, found, add_entry),
      record {
        bounded = omega (arith, v.bounded, length-update_first kind id perms acl.entries found);
        distinct = IsDistinct-update_first kind id perms acl.entries found v.distinct;
      },
      λ k i. find-update_first kind id perms acl.entries k i found,
    )
    | inl absent ↦
        let gone = find_of_absent kind id perms acl.entries absent in
        inr (
          record { entries = acl.entries ++ (entry kind id perms ∷ []) },
          rw (room, absent, add_entry),
          record {
            bounded = ground (arith, length-append acl.entries (entry kind id perms ∷ []));
            distinct = IsDistinct-append kind id perms acl.entries gone v.distinct;
          },
          λ k i. find-append kind id perms acl.entries k i gone,
        )
  ]
]

-- On a list with distinct keys `acl_remove_entry` says that the key is not there and changes
-- nothing, or it takes exactly that key's entry out.
pub remove_entry_lem :
    {acl : Acl} (kind id : ℕ)
    → WellFormed acl
    → RemoveOutcome acl kind id (remove_entry (some acl) kind id)
unfolding remove_entry
remove_entry_lem {acl} kind id v = elim (Option-cases (remove_first acl.entries kind id)) [
  | inl absent ↦ inl (find_of_not_removed kind id acl.entries absent, rw (absent, remove_entry))
  | inr (es, found) ↦ inr (
    record { entries = es },
    rw (found, remove_entry),
    record {
      bounded = omega (arith, v.bounded, length-remove_first kind id acl.entries found);
      distinct = IsDistinct-remove_first kind id acl.entries found v.distinct;
    },
    length-remove_first kind id acl.entries found,
    λ k i. find-remove_first kind id acl.entries k i found v.distinct,
  )
]
