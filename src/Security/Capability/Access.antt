-- ===== src/Security/Capability/Access.antt =====
-- What kernel/security/capability.c lets the current process do to a port.
use scarlett_os.Base.{ℕ, ◌≡◌, ◌≢◌, inl, inr, Option-cases, true, Option, some, List, [], ◌∷◌, arith}
use scarlett_os.Base.Int.{ℤ}
use scarlett_os.Security.Capability.{
  Capability, System, table_index, find_id, find_port, find_for_port, current_entries, grants,
  check, type_ipc_port,
}
use scarlett_os.Security.Capability.Table.{IsDistinct, find_port_sound}
use scarlett_os.Security.Capability.Invariant.{WellFormed, usable-capabilities}

-- The current process holds a capability for the port that grants the right.
unfoldable pub HoldsPort : Option ℤ → System → ℕ → ℕ → Type 0
HoldsPort current s port right =
    (c : Capability) × (find_id (current_entries current s) c.cap_id ≡ some c)
    × (c.kind ≡ type_ipc_port)
    × (c.resource_id ≡ port)
    × (grants c.rights right ≡ true)

current_entries-IsDistinct :
    {s : System} (current : Option ℤ) → WellFormed s → IsDistinct (current_entries current s)
unfolding current_entries
current_entries-IsDistinct {s} current v = elim (Option-cases (table_index current)) [
  | inl nobody ↦ rw (nobody, current_entries) tt
  | inr (pid, e) ↦
      rw (e, current_entries) (rw (usable-capabilities (v.tables pid)) (v.tables pid).distinct)
]

find_id-cap_id :
    (cs : List Capability) (j : ℕ) {c : Capability} → find_id cs j ≡ some c → c.cap_id ≡ j
unfolding find_id
find_id-cap_id [] j h = cc
find_id-cap_id (d ∷ ds) j {c} h = ground (arith, find_id-cap_id ds j {c = c})

-- When `capability_find_for_port` finds a capability and `capability_check` accepts it for a right,
-- the current process holds a capability for that very port with that right.
pub port_right_sound :
    {s : System} (current : Option ℤ) (port right : ℕ)
    → WellFormed s
    → find_for_port current port s ≢ 0
    → check current (find_for_port current port s) right s ≡ true
    → HoldsPort current s port right
unfolding find_for_port check HoldsPort
port_right_sound {s} current port right v some_id accepted =
    let (c, found, kind, resource) =
      find_port_sound (current_entries current s) port (current_entries-IsDistinct current v)
        some_id in
    let id =
      find_id-cap_id (current_entries current s) (find_port (current_entries current s) port)
        found in
    (c, rw id found, kind, resource, ground arith)
