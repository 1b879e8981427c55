-- ===== src/Security/Capability/Invariant.antt =====
-- What holds of all capability tables of kernel/security/capability.c at all times.
use scarlett_os.Base.{
  ℕ, ◌≤◌, ◌≡◌, refl, sym, ◌∙◌, inl, inr, Bool-cases, false, [], ◌==◌, arith, length,
}
use scarlett_os.Base.Update.{update}
use scarlett_os.Security.Capability.{
  Capability, CapabilityTable, System, usable, init, max_per_process,
}
use scarlett_os.Security.Capability.Table.{IsDistinct, InRange, InRange-mono}

pub record TableOk (next : ℕ) (t : CapabilityTable) : Type 0 where
  pub distinct : IsDistinct t.capabilities
  pub in_range : InRange next t.capabilities
  pub bounded : length t.capabilities ≤ t.capacity
  pub limited : t.capacity ≤ max_per_process
  pub empty : t.initialized ≡ false → t.capabilities ≡ []

-- In every table the ids are distinct and below the next one, and the entries fit its capacity,
-- which is at most 256.
pub record WellFormed (s : System) : Type 0 where
  pub started : 1 ≤ s.next_cap_id
  pub tables : (pid : ℕ) → TableOk s.next_cap_id (s.tables pid)

abbrev pub entry : ℕ → ℕ → ℕ → ℕ → Capability
entry cap_id kind resource rights = record {
  cap_id = cap_id;
  kind = kind;
  resource_id = resource;
  rights = rights;
}

pub init-WellFormed : WellFormed init
unfolding init
init-WellFormed = record {
  started = omega arith;
  tables = λ pid. record {
    distinct = tt;
    in_range = tt;
    bounded = omega arith;
    limited = omega arith;
    empty = λ h. refl;
  };
}

pub TableOk-next : {n : ℕ} (m : ℕ) {t : CapabilityTable} → TableOk n t → n ≤ m → TableOk m t
TableOk-next {n} m {t} v le = record {
  distinct = v.distinct;
  in_range = InRange-mono t.capabilities n m le v.in_range;
  bounded = v.bounded;
  limited = v.limited;
  empty = v.empty;
}

pub usable-capabilities : {n : ℕ} {t : CapabilityTable} → TableOk n t → usable t ≡ t.capabilities
usable-capabilities {t = t} v = elim (Bool-cases t.initialized) [
  | inl on ↦ rw on
  | inr off ↦ rw (off, v.empty off)
]

-- One table is replaced.
module _ {s : System} (v : WellFormed s) (pid : ℕ) (t : CapabilityTable) where
  pub update-WellFormed :
      (next : ℕ)
      → TableOk next t
      → s.next_cap_id ≤ next
      → WellFormed (record { tables = update s.tables pid t; next_cap_id = next })
  update-WellFormed next ok le = record {
    started = omega (arith, v.started);
    tables = λ q. elim (Bool-cases (pid == q)) [
      | inl e ↦ rw e ok
      | inr ne ↦ rw ne (TableOk-next next (v.tables q) le)
    ];
  }

  pub update-usable :
      t.capabilities ≡ (s.tables pid).capabilities
      → TableOk s.next_cap_id t
      → (q : ℕ) → usable (update s.tables pid t q) ≡ usable (s.tables q)
  update-usable same ok q = elim (Bool-cases (pid == q)) [
    | inl e ↦
        let e' : pid ≡ q = ground arith in
        rw (e, ← e') (usable-capabilities ok ∙ same ∙ sym (usable-capabilities (v.tables pid)))
    | inr ne ↦ rw ne
  ]
