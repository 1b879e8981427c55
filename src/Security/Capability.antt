-- ===== src/Security/Capability.antt =====
-- kernel/security/capability.c: capabilities of processes, in one table for each process.
-- A table's array is the list of its first `count` entries. `process_get_current` and `kmalloc`
-- answer from outside: the process (if any) and whether memory is given are arguments. The locks
-- make each function atomic and are left out.
pub mod Table
pub mod Message
pub mod Invariant
pub mod Create
pub mod Revoke
pub mod Access
mod Tests
use scarlett_os.Base.{
  ℕ, zero, suc, ◌+◌, ◌*◌, ◌%◌, ◌^◌, Bool, true, false, ◌&&◌, Option, none, some, List, [], ◌∷◌,
  ◌++◌, length, ltb, leb, ◌==◌, if◌then◌else◌, bit_and, not,
}
use scarlett_os.Base.Int.{ℤ, pos, negsuc}
use scarlett_os.Base.Update.{update}

-- `CAP_TYPE_IPC_PORT` and the rights that the kernel asks for.
abbrev pub type_ipc_port : ℕ
type_ipc_port = 1

abbrev pub right_read : ℕ
right_read = 0x01

abbrev pub right_write : ℕ
right_write = 0x02

abbrev pub right_transfer : ℕ
right_transfer = 0x10

abbrev pub max_per_process : ℕ
max_per_process = 256

abbrev pub initial_capacity : ℕ
initial_capacity = 16

abbrev pub max_processes : ℕ
max_processes = 32768

-- `capability_t`
pub record Capability : Type 0 where
  pub cap_id : ℕ
  pub kind : ℕ
  pub resource_id : ℕ
  pub rights : ℕ

-- `capability_table_t`; the list stands for the array and `count`.
pub record CapabilityTable : Type 0 where
  pub capabilities : List Capability
  pub capacity : ℕ
  pub initialized : Bool

-- The file's static variables.
pub record System : Type 0 where
  pub tables : ℕ → CapabilityTable
  pub next_cap_id : ℕ

abbrev pub empty_table : CapabilityTable
empty_table = record { capabilities = []; capacity = 0; initialized = false }

-- `capability_init`
unfoldable pub init : System
init = record { tables = λ pid. empty_table; next_cap_id = 1 }

-- The index that `get_process_table` checks and uses.
unfoldable pub table_index : Option ℤ → Option ℕ
table_index none = none
table_index (some (negsuc n)) = none
table_index (some (pos pid)) = if leb max_processes pid then none else some pid

-- `ensure_table_initialized`: whether the table is ready, and the table.
unfoldable pub ensure_initialized : Bool → CapabilityTable → Bool × CapabilityTable
ensure_initialized memory t =
    if t.initialized
    then (true, t)
    else if memory
    then (true, record { capabilities = []; capacity = initial_capacity; initialized = true })
    else (false, record t { capacity = initial_capacity })

-- The capacity that a full table is given.
unfoldable pub grown : ℕ → ℕ
grown capacity = if ltb max_per_process (capacity * 2) then max_per_process else capacity * 2

-- The resize step of `capability_create`: the old entries are copied, so the list stays.
unfoldable pub make_room : Bool → CapabilityTable → Option CapabilityTable
unfolding grown
make_room memory t =
    if ltb (length t.capabilities) t.capacity
    then some t
    else if leb (grown t.capacity) (length t.capabilities)
    then none
    else if memory
    then some (record t { capacity = grown t.capacity })
    else none

-- `capability_create`. The two Booleans are the answers of `kmalloc`; 0 is the failure.
unfoldable pub create : Bool → Bool → Option ℤ → ℕ → ℕ → ℕ → System → ℕ × System
create first second current kind resource rights s = elim (table_index current) [
  | none ↦ (0, s)
  | some pid ↦
      let (ready, t) = ensure_initialized first (s.tables pid) in
      let s' = record s { tables = update s.tables pid t } in
      if not ready then (0, s') else elim (make_room second t) [
        | none ↦ (0, s')
        | some roomy ↦ (
          s.next_cap_id,
          record {
            tables = update s.tables pid (record roomy {
              capabilities =
                  roomy.capabilities
                  ++ (record {
                    cap_id = s.next_cap_id;
                    kind = kind;
                    resource_id = resource;
                    rights = rights;
                  }
                      ∷ []);
            });
            next_cap_id = (s.next_cap_id + 1) % 2 ^ 64;
          },
        )
      ]
]

-- The loop that looks for an id.
unfoldable pub find_id : List Capability → ℕ → Option Capability
find_id [] cap_id = none
find_id (c ∷ cs) cap_id =
    let rest = find_id cs cap_id in if c.cap_id == cap_id then some c else rest

-- The entries of a table that its process can use: none before the first is created.
abbrev pub usable : CapabilityTable → List Capability
usable t = if t.initialized then t.capabilities else []

-- Those of the current process.
unfoldable pub current_entries : Option ℤ → System → List Capability
current_entries current s = elim (table_index current) [
  | none ↦ []
  | some pid ↦ usable (s.tables pid)
]

-- `(rights & right) == right`
abbrev pub grants : ℕ → ℕ → Bool
grants rights right = bit_and rights right == right

-- `capability_check`
unfoldable pub check : Option ℤ → ℕ → ℕ → System → Bool
check current cap_id right s = elim (find_id (current_entries current s) cap_id) [
  | none ↦ false
  | some c ↦ grants c.rights right
]

-- `capabilities[i] = capabilities[count - 1]; count--` from index `i` on: the last entry comes to
-- the front of the rest.
unfoldable pub last_entry : Capability → List Capability → Capability
last_entry c [] = c
last_entry c (d ∷ ds) = last_entry d ds

unfoldable pub but_last : Capability → List Capability → List Capability
but_last c [] = []
but_last c (d ∷ ds) = c ∷ but_last d ds

unfoldable pub pull_last : List Capability → List Capability
pull_last [] = []
pull_last (c ∷ cs) = last_entry c cs ∷ but_last c cs

-- The loop of `capability_revoke`.
unfoldable pub remove_id : List Capability → ℕ → Option (List Capability)
remove_id [] cap_id = none
remove_id (c ∷ cs) cap_id =
    let rest = remove_id cs cap_id in
    if c.cap_id == cap_id
    then some (pull_last cs)
    else elim rest [ none ↦ none | some cs' ↦ some (c ∷ cs') ]

-- `capability_revoke`; `true` is the return value 0.
unfoldable pub revoke : Option ℤ → ℕ → System → Bool × System
revoke current cap_id s = elim (table_index current) [
  | none ↦ (false, s)
  | some pid ↦
      if not (s.tables pid).initialized
      then (false, s)
      else elim (remove_id (s.tables pid).capabilities cap_id) [
        | none ↦ (false, s)
        | some cs ↦ (
          true,
          record s { tables = update s.tables pid (record (s.tables pid) { capabilities = cs }) },
        )
      ]
]

-- `capability_find_for_port`: the id of the first capability for the port, or 0.
unfoldable pub find_port : List Capability → ℕ → ℕ
find_port [] port = 0
find_port (c ∷ cs) port =
    let rest = find_port cs port in
    if (c.kind == type_ipc_port) && (c.resource_id == port) then c.cap_id else rest

unfoldable pub find_for_port : Option ℤ → ℕ → System → ℕ
find_for_port current port s = find_port (current_entries current s) port
