-- ===== src/Security/Capability/Create.antt =====
-- What `capability_create` of kernel/security/capability.c does to every process's capabilities.
use scarlett_os.Base.{
  ℕ, ◌+◌, ◌%◌, ◌^◌, ◌≤◌, ◌<◌, ◌≡◌, refl, sym, ◌∙◌, ◌⊎◌, inl, inr, Bool-cases, Option-cases, Bool,
  true, false, Option, none, some, [], ◌∷◌, ◌++◌, ◌==◌, if◌then◌else◌, arith, length, length-append,
  ◌&&◌,
}
use scarlett_os.Base.Int.{ℤ}
use scarlett_os.Base.Update.{update}
use scarlett_os.Security.Capability.{
  Capability, CapabilityTable, System, usable, table_index, find_id, create, max_per_process,
  initial_capacity, make_room, grown, ensure_initialized,
}
use scarlett_os.Security.Capability.Table.{
  find_id-append, find_id_of_InRange, InRange-mono, InRange-append, IsDistinct-append,
}
use scarlett_os.Security.Capability.Invariant.{
  TableOk, WellFormed, entry, usable-capabilities, update-WellFormed, update-usable,
}

-- `ensure_table_initialized` keeps the entries, and the table is initialised if it succeeds.
pub record Ensured (n : ℕ) (t : CapabilityTable) (r : Bool × CapabilityTable) : Type 0 where
  pub valid : TableOk n r.1
  pub same : r.1.capabilities ≡ t.capabilities
  pub ready : r.0 ≡ true → r.1.initialized ≡ true

abbrev fresh_table : CapabilityTable
fresh_table = record { capabilities = []; capacity = initial_capacity; initialized = true }

module _ (t : CapabilityTable) where
  ensure_initialized_on :
      (memory : Bool) → t.initialized ≡ true → ensure_initialized memory t ≡ (true, t)
  unfolding ensure_initialized
  ensure_initialized_on memory on = ground arith

  ensure_initialized_given : t.initialized ≡ false → ensure_initialized true t ≡ (true, fresh_table)
  unfolding ensure_initialized
  ensure_initialized_given off = ground arith

  ensure_initialized_refused :
      t.initialized ≡ false
      → ensure_initialized false t ≡ (false, record t { capacity = initial_capacity })
  unfolding ensure_initialized
  ensure_initialized_refused off = ground arith

ensure-Ensured_off :
    {n : ℕ} (memory : Bool) {t : CapabilityTable}
    → TableOk n t
    → t.initialized ≡ false
    → Ensured n t (ensure_initialized memory t)
ensure-Ensured_off {n} true {t} v off = rw (ensure_initialized_given t off) (record {
  valid = record {
    distinct = tt;
    in_range = tt;
    bounded = omega arith;
    limited = omega arith;
    empty = λ h. refl;
  };
  same = sym (v.empty off);
  ready = λ h. refl;
})
ensure-Ensured_off {n} false {t} v off = rw (ensure_initialized_refused t off) (record {
  valid = record {
    distinct = v.distinct;
    in_range = v.in_range;
    bounded = rw (v.empty off) (omega arith);
    limited = omega arith;
    empty = v.empty;
  };
  same = refl;
  ready = λ h. cc;
})

ensure-Ensured :
    {n : ℕ} (memory : Bool) {t : CapabilityTable}
    → TableOk n t
    → Ensured n t (ensure_initialized memory t)
ensure-Ensured memory {t} v = elim (Bool-cases t.initialized) [
  | inl on ↦
      rw (ensure_initialized_on t memory on) (record { valid = v; same = refl; ready = λ h. on })
  | inr off ↦ ensure-Ensured_off memory v off
]

make_room-lem :
    {n : ℕ} (memory : Bool) {t u : CapabilityTable}
    → TableOk n t
    → make_room memory t ≡ some u
    → (u.capabilities ≡ t.capabilities)
      × (u.initialized ≡ t.initialized)
      × (length t.capabilities + 1 ≤ u.capacity)
      × (u.capacity ≤ max_per_process)
unfolding make_room grown
make_room-lem memory {t} {u} v h = ground (arith, v.bounded, v.limited)

-- The current process's table got the entry and no other table changed; or nothing that any
-- process can use changed and 0 was returned.
abbrev pub CreateOutcome : Option ℤ → ℕ → ℕ → ℕ → System → ℕ × System → Type 0
CreateOutcome current kind resource rights s r =
    WellFormed r.1
    × (((r.0 ≡ 0) × ((q : ℕ) → usable (r.1.tables q) ≡ usable (s.tables q)))
        ⊎ ((pid : ℕ) × (table_index current ≡ some pid)
            × (r.0 ≡ s.next_cap_id)
            × (r.1.next_cap_id ≡ s.next_cap_id + 1)
            × ((q j : ℕ)
                → find_id (usable (r.1.tables q)) j ≡ (
                    if (pid == q) && (s.next_cap_id == j)
                    then some (entry s.next_cap_id kind resource rights)
                    else find_id (usable (s.tables q)) j))))

module _ {s : System} (v : WellFormed s) (pid : ℕ) (c : Capability) (t : CapabilityTable)
    (is_next : c.cap_id ≡ s.next_cap_id) (same : t.capabilities ≡ (s.tables pid).capabilities)
    (on : t.initialized ≡ true) (room : length t.capabilities + 1 ≤ t.capacity)
    (limited : t.capacity ≤ max_per_process) where
  abbrev extended : CapabilityTable
  extended = record t { capabilities = t.capabilities ++ (c ∷ []) }

  unused : find_id t.capabilities c.cap_id ≡ none
  unused =
      rw (same, is_next)
        (find_id_of_InRange s.next_cap_id (s.tables pid).capabilities (v.tables pid).in_range)

  extended-TableOk : TableOk (s.next_cap_id + 1) extended
  extended-TableOk = record {
    distinct = IsDistinct-append t.capabilities c unused (rw same (v.tables pid).distinct);
    in_range =
        InRange-append (s.next_cap_id + 1) t.capabilities c
          (rw same (
            InRange-mono (s.tables pid).capabilities s.next_cap_id (s.next_cap_id + 1) (omega arith)
              (v.tables pid).in_range))
          (omega (arith, v.started)) (omega arith);
    bounded = omega (arith, length-append t.capabilities (c ∷ []));
    limited = limited;
    empty = λ h. cc;
  }

  extended-lookup :
      (q j : ℕ)
      → find_id (usable (update s.tables pid extended q)) j
        ≡ (if (pid == q) && (c.cap_id == j) then some c else find_id (usable (s.tables q)) j)
  extended-lookup q j = elim (Bool-cases (pid == q)) [
    | inl e ↦
        let e' : pid ≡ q = ground arith in
        rw (e, on, ← e', usable-capabilities (v.tables pid), ← same)
          (find_id-append t.capabilities c j unused)
    | inr ne ↦ rw ne
  ]

-- `capability_create` keeps the invariant. It returns 0 and no process's capabilities change, or it
-- returns an id that no table has had, the current process has the new capability under it, and
-- every other lookup in every process's table answers as before. The ids must not have run out.
pub create_lem :
    {s : System} (first second : Bool) (current : Option ℤ) (kind resource rights : ℕ)
    → WellFormed s
    → s.next_cap_id + 1 < 2 ^ 64
    → CreateOutcome current kind resource rights s
        (create first second current kind resource rights s)
unfolding create
create_lem {s} first second current kind resource rights v few =
    elim (Option-cases (table_index current)) [
      | inl nobody ↦ rw (nobody, create) (v, inl (refl, λ q. refl))
      | inr (pid, e) ↦
          let ensured = ensure-Ensured first (v.tables pid) in
          let t : CapabilityTable = (ensure_initialized first (s.tables pid)).1 in
          let kept = update-WellFormed v pid t s.next_cap_id ensured.valid (omega arith) in
          let alike = update-usable v pid t ensured.same ensured.valid in
          elim (Bool-cases (ensure_initialized first (s.tables pid)).0) [
            | inr failed ↦ rw (e, create) (rw (failed, create) (kept, inl (refl, alike)))
            | inl ready ↦ elim (Option-cases (make_room second t)) [
              | inl full ↦ rw (e, create) (rw (ready, full, create) (kept, inl (refl, alike)))
              | inr (roomy, found) ↦
                  let c = entry s.next_cap_id kind resource rights in
                  let (same, on, room, limited) = make_room-lem second ensured.valid found in
                  let as_before : roomy.capabilities ≡ (s.tables pid).capabilities =
                    same ∙ ensured.same in
                  let on' : roomy.initialized ≡ true = on ∙ ensured.ready ready in
                  let room' : length roomy.capabilities + 1 ≤ roomy.capacity = rw same room in
                  let next : (s.next_cap_id + 1) % 2 ^ 64 ≡ s.next_cap_id + 1 = omega arith in
                  rw (e, create)
                    (rw (ready, found, next, create)
                      (
                        update-WellFormed v pid _ (s.next_cap_id + 1)
                            (extended-TableOk v pid c roomy refl as_before on' room' limited)
                            (omega arith),
                        inr (
                          pid,
                          refl,
                          refl,
                          refl,
                          extended-lookup v pid c roomy refl as_before on' room' limited,
                        ),
                      ))
            ]
          ]
    ]
