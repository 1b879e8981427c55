-- ===== src/Security/Capability/Revoke.antt =====
-- What `capability_revoke` of kernel/security/capability.c does to every process's capabilities.
use scarlett_os.Base.{
  ℕ, ◌+◌, ◌≡◌, refl, ◌⊎◌, inl, inr, Bool-cases, Option-cases, Bool, true, false, Option, none, some,
  List, ◌==◌, if◌then◌else◌, arith, length, ==_refl, ◌&&◌,
}
use scarlett_os.Base.Int.{ℤ}
use scarlett_os.Base.Update.{update}
use scarlett_os.Security.Capability.{
  Capability, System, usable, table_index, find_id, remove_id, current_entries, revoke,
}
use scarlett_os.Security.Capability.Table.{Removed, remove_id-Removed, find_id_of_not_removed}
use scarlett_os.Security.Capability.Invariant.{
  TableOk, WellFormed, usable-capabilities, update-WellFormed,
}

shrunk-lookup :
    {s : System} {cap_id : ℕ} (v : WellFormed s) (pid : ℕ) (cs : List Capability)
    → (s.tables pid).initialized ≡ true
    → Removed cap_id (s.tables pid).capabilities cs s.next_cap_id
    → (q j : ℕ)
    → find_id (usable (update s.tables pid (record (s.tables pid) { capabilities = cs }) q)) j
      ≡ (if (pid == q) && (cap_id == j) then none else find_id (usable (s.tables q)) j)
shrunk-lookup {s} v pid cs on left q j = elim (Bool-cases (pid == q)) [
  | inl e ↦
      let e' : pid ≡ q = ground arith in
      rw (e, ← e', usable-capabilities (v.tables pid)) (rw on (left.lookup j))
  | inr ne ↦ rw ne
]

-- The capability is gone from the current process's table, which is one entry shorter, and nothing
-- else changed; or there was none and nothing changed at all.
abbrev pub RevokeOutcome : Option ℤ → ℕ → System → Bool × System → Type 0
RevokeOutcome current cap_id s r =
    ((r ≡ (false, s)) × (find_id (current_entries current s) cap_id ≡ none))
    ⊎ ((pid : ℕ) × (table_index current ≡ some pid)
        × (r.0 ≡ true)
        × WellFormed r.1
        × (length (r.1.tables pid).capabilities + 1 ≡ length (s.tables pid).capabilities)
        × ((q j : ℕ)
            → find_id (usable (r.1.tables q)) j
              ≡ (if (pid == q) && (cap_id == j) then none else find_id (usable (s.tables q)) j)))

-- `capability_revoke` takes exactly the capability with the id out of the current process's table,
-- or says that there is none and changes nothing; no other lookup in any table changes.
pub revoke_lem :
    {s : System} (current : Option ℤ) (cap_id : ℕ)
    → WellFormed s
    → RevokeOutcome current cap_id s (revoke current cap_id s)
unfolding revoke current_entries
revoke_lem {s} current cap_id v = elim (Option-cases (table_index current)) [
  | inl nobody ↦ inl (rw (nobody, revoke), rw (nobody, current_entries) (unfold find_id in refl))
  | inr (pid, e) ↦ elim (Bool-cases (s.tables pid).initialized) [
    | inr off ↦ inl (
      rw (e, revoke) (rw (off, revoke)),
      rw (e, current_entries) (rw off (unfold find_id in refl)),
    )
    | inl on ↦ elim (Option-cases (remove_id (s.tables pid).capabilities cap_id)) [
      | inl absent ↦ inl (
        rw (e, revoke) (rw (on, absent, revoke)),
        rw (e, current_entries)
            (rw on (find_id_of_not_removed cap_id (s.tables pid).capabilities absent)),
      )
      | inr (cs, found) ↦
          let ok = v.tables pid in
          let left =
            remove_id-Removed cap_id s.next_cap_id (s.tables pid).capabilities {cs' = cs} found
              ok.distinct ok.in_range in
          let shrunk : TableOk s.next_cap_id (record (s.tables pid) { capabilities = cs }) =
            record {
              distinct = left.distinct;
              in_range = left.in_range;
              bounded = omega (arith, ok.bounded, left.shorter);
              limited = ok.limited;
              empty = λ h. cc;
            } in
          inr (
            pid,
            e,
            rw (e, revoke) (rw (on, found, revoke)),
            rw (e, revoke)
                (rw (on, found, revoke)
                  (update-WellFormed v pid _ s.next_cap_id shrunk (omega arith))),
            rw (e, revoke) (rw (on, found, revoke) (rw (==_refl pid) left.shorter)),
            rw (e, revoke) (rw (on, found, revoke) (shrunk-lookup v pid cs on left)),
          )
    ]
  ]
]
