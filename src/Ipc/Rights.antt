-- ===== src/Ipc/Rights.antt =====
-- What kernel/ipc/ipc.c asks of kernel/security/capability.c, and that the capability tables give it.
use scarlett_os.Base.{ℕ, ◌≡◌, ◌≢◌, Bool, true, Option}
use scarlett_os.Base.Int.{ℤ}
use scarlett_os.Security.Capability
use scarlett_os.Security.Capability.{System}
use scarlett_os.Security.Capability.Invariant.{WellFormed}
use scarlett_os.Security.Capability.Access.{HoldsPort, port_right_sound}

-- `capability_find_for_port` and `capability_check` for the current process, and what it means that
-- they accept: the process holds a capability for the port with the right.
pub record PortRights : Type 1 where
  pub find_for_port : ℕ → ℕ
  pub check : ℕ → ℕ → Bool
  pub Holds : ℕ → ℕ → Type 0
  pub sound :
      (port right : ℕ)
      → find_for_port port ≢ 0
      → check (find_for_port port) right ≡ true
      → Holds port right

-- The capability tables, seen by the current process.
abbrev pub process_rights : Option ℤ → (s : System) → WellFormed s → PortRights
process_rights current s v = record {
  find_for_port = λ port. Capability.find_for_port current port s;
  check = λ cap_id right. Capability.check current cap_id right s;
  Holds = HoldsPort current s;
  sound = λ port right. port_right_sound current port right v;
}
