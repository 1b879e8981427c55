-- ===== src/Ipc/Table.antt =====
-- The table of ports of kernel/ipc/ipc.c and its entry points. `thread_current()->tid` is the
-- argument `tid`; the threads that a call wakes stand beside its answer.
pub mod Access
pub mod Lifetime
pub mod Calls
pub mod Reply
use scarlett_os.Base.{
  ℕ, ◌+◌, Bool, true, false, Option, none, some, List, [], ◌∷◌, ◌++◌, ◌||◌, leb, ◌==◌,
  if◌then◌else◌, not,
}
use scarlett_os.Base.Update.{update}
use scarlett_os.Ipc.Message.{Message}
use scarlett_os.Ipc.Rights.{PortRights}
use scarlett_os.Ipc.Port
use scarlett_os.Ipc.Port.{
  Port, fresh_port, Sending, Receiving, start_send, finish_send, receive_step, try_receive_step,
}
use scarlett_os.Security.Capability.{right_read, right_write}

abbrev pub max_ports : ℕ
max_ports = 256

-- The file's static variables.
pub record Ports : Type 0 where
  pub table : ℕ → Option Port
  pub next_port_id : ℕ

-- `ipc_init`, with the initial value of the counter.
unfoldable pub init : Ports
init = record { table = λ id. none; next_port_id = 1 }

-- `ipc_create_port`; 0 is the failure.
unfoldable pub create_port : Bool → ℕ → Ports → ℕ × Ports
create_port memory tid s =
    if leb max_ports s.next_port_id
    then (0, s)
    else if memory
    then (
      s.next_port_id,
      record {
        table = update s.table s.next_port_id (some (fresh_port s.next_port_id tid));
        next_port_id = s.next_port_id + 1;
      },
    )
    else (0, s)

-- `ipc_destroy_port`: whether it succeeds, the threads it wakes, and the table.
unfoldable pub destroy_port : ℕ → Ports → Bool × List ℕ × Ports
destroy_port id s = if leb max_ports id then (false, [], s) else elim (s.table id) [
  | none ↦ (false, [], s)
  | some p ↦
      (true, p.waiting_receivers ++ p.waiting_senders, record s { table = update s.table id none })
]

-- The answer of a send: -1, the thread is blocked, or 0 and perhaps a thread woken. `fault` is the
-- use of a port that has been freed.
pub data SendAnswer : Type 0 where
  failed fault waits : SendAnswer
  done : Option ℕ → SendAnswer

pub data ReceiveAnswer : Type 0 where
  failed fault waits : ReceiveAnswer
  got : Message → Option ℕ → ReceiveAnswer

abbrev pub after_send : ℕ → Ports → Sending → SendAnswer × Ports
after_send id s Sending.failed = (SendAnswer.failed, s)
after_send id s (Sending.blocked p) =
    (SendAnswer.waits, record s { table = update s.table id (some p) })
after_send id s (Sending.sent w p) =
    (SendAnswer.done w, record s { table = update s.table id (some p) })

abbrev pub after_receive : ℕ → Ports → Receiving → ReceiveAnswer × Ports
after_receive id s Receiving.failed = (ReceiveAnswer.failed, s)
after_receive id s Receiving.fault = (ReceiveAnswer.fault, s)
after_receive id s (Receiving.blocked p) =
    (ReceiveAnswer.waits, record s { table = update s.table id (some p) })
after_receive id s (Receiving.received m w p) =
    (ReceiveAnswer.got m w, record s { table = update s.table id (some p) })

-- What a thread that had blocked on a port runs when it is woken.
unfoldable pub resume_send : Bool → ℕ → ℕ → Message → Ports → SendAnswer × Ports
resume_send memory tid id msg s = elim (s.table id) [
  | none ↦ (SendAnswer.fault, s)
  | some p ↦ after_send id s (finish_send memory tid msg p)
]

unfoldable pub resume_receive : Bool → ℕ → ℕ → Ports → ReceiveAnswer × Ports
resume_receive memory tid id s = elim (s.table id) [
  | none ↦ (ReceiveAnswer.fault, s)
  | some p ↦ after_receive id s (receive_step memory tid p)
]

-- `ipc_try_receive`, which asks for no right. `into` says that the message's pointer is not null.
unfoldable pub try_receive : ℕ → Bool → Ports → ReceiveAnswer × Ports
try_receive id into s =
    if leb max_ports id || not into then (ReceiveAnswer.failed, s) else elim (s.table id) [
      | none ↦ (ReceiveAnswer.failed, s)
      | some p ↦ after_receive id s (try_receive_step p)
    ]

module _ (rights : PortRights) where
  open rights use {find_for_port, check}

  -- The capability test of `ipc_send` and `ipc_receive`.
  unfoldable pub authorised : ℕ → ℕ → ℕ → Port → Bool
  authorised right tid id p =
      if find_for_port id == 0 then p.owner_tid == tid else check (find_for_port id) right

  -- `ipc_send`, up to its end or until the thread blocks.
  unfoldable pub send : Bool → Bool → ℕ → ℕ → Option Message → Ports → SendAnswer × Ports
  send wait_memory node_memory tid id none s = (SendAnswer.failed, s)
  send wait_memory node_memory tid id (some msg) s =
      if leb max_ports id then (SendAnswer.failed, s) else elim (s.table id) [
        | none ↦ (SendAnswer.failed, s)
        | some p ↦
            if authorised right_write tid id p
            then after_send id s (start_send wait_memory node_memory tid msg p)
            else (SendAnswer.failed, s)
      ]

  -- `ipc_receive`, up to its end or until the thread blocks.
  unfoldable pub receive : Bool → ℕ → ℕ → Bool → Ports → ReceiveAnswer × Ports
  receive memory tid id into s =
      if leb max_ports id || not into then (ReceiveAnswer.failed, s) else elim (s.table id) [
        | none ↦ (ReceiveAnswer.failed, s)
        | some p ↦
            if authorised right_read tid id p
            then after_receive id s (receive_step memory tid p)
            else (ReceiveAnswer.failed, s)
      ]
