-- ===== src/Ipc/Tests.antt =====
-- Threads 7 and 9 on ports of a new table.
use scarlett_os.Base.{ℕ, zero, suc, ◌≡◌, refl, true, none, some, List, [], ◌∷◌}
use mathlib.Core.List.{Mem}
use scarlett_os.Base.Update.{update}
use scarlett_os.Ipc.Message.{Message}
use scarlett_os.Ipc.Rights.{PortRights, process_rights}
use scarlett_os.Ipc.Port.{Port, fresh_port, start_send, finish_send, receive_step, dequeue, stamp}
use scarlett_os.Ipc.Port.Queue.{Traffic, start, Step, Reach, IsFifo, Reach-IsFifo}
use scarlett_os.Ipc.Table.{
  Ports, SendAnswer, init, create_port, destroy_port, send, authorised, resume_send,
}
use scarlett_os.Ipc.Table.Access.{SendOutcome, send_authorised}
use scarlett_os.Ipc.Table.Calls.{Call, perform, created, destroyed_sender_faults}
use scarlett_os.Security.Capability
use scarlett_os.Security.Capability.Invariant

abbrev note : ℕ → Message
note n = record {
  sender_tid = 0;
  msg_id = n;
  kind = 0;
  inline_size = 0;
  inline_data = λ i. 0;
  buffer = 0;
  buffer_size = 0;
}

-- Thread 9 sends two messages to port 3 of thread 7, which takes one.
abbrev one_sent : Traffic
one_sent = record {
  port = record (fresh_port 3 7) { queue = stamp 9 (note 1) ∷ []; queue_size = 1 };
  accepted = stamp 9 (note 1) ∷ [];
  handed_out = [];
  held = [];
}

abbrev two_sent : Traffic
two_sent = record {
  port = record (fresh_port 3 7) {
    queue = stamp 9 (note 1) ∷ stamp 9 (note 2) ∷ [];
    queue_size = 2;
  };
  accepted = stamp 9 (note 1) ∷ stamp 9 (note 2) ∷ [];
  handed_out = [];
  held = [];
}

abbrev one_taken : Traffic
one_taken = record {
  port = record (fresh_port 3 7) { queue = stamp 9 (note 2) ∷ []; queue_size = 1 };
  accepted = stamp 9 (note 1) ∷ stamp 9 (note 2) ∷ [];
  handed_out = stamp 9 (note 1) ∷ [];
  held = [];
}

first_send : Step (start 3 7) one_sent
unfolding start_send finish_send
first_send = Step.send true true 9 (note 1) none one_sent.port refl

second_send : Step one_sent two_sent
unfolding start_send finish_send
second_send = Step.send true true 9 (note 2) none two_sent.port refl

taken : Step two_sent one_taken
unfolding receive_step dequeue
taken = Step.receive true 7 (stamp 9 (note 1)) none one_taken.port refl

three_steps : Reach (start 3 7) one_taken
three_steps = Reach.next (Reach.next (Reach.next Reach.here first_send) second_send) taken

Reach-IsFifo_example : IsFifo one_taken
Reach-IsFifo_example = Reach-IsFifo three_steps

abbrev notes : ℕ → List Message
notes zero = []
notes (suc n) = note n ∷ notes n

abbrev full_port : Port
full_port = record (fresh_port 3 7) { queue = notes 32; queue_size = 32 }

-- No process: only owners have access.
abbrev owners_only : PortRights
owners_only = process_rights none Capability.init Invariant.init-WellFormed

abbrev one_port : Ports
one_port = record { table = update (λ id. none) 3 (some full_port); next_port_id = 4 }

send_authorised_example :
    SendOutcome owners_only 7 3 one_port
      (start_send true true 7 (note 50))
      (send owners_only true true 7 3 (some (note 50)) one_port)
send_authorised_example = send_authorised owners_only true true 7 3 (note 50) one_port

-- Thread 7 makes a port and destroys it, again and again.
abbrev rounds : ℕ → ℕ → List Call
rounds zero id = []
rounds (suc n) id = Call.create true 7 ∷ Call.destroy id ∷ rounds n (suc id)

all_destroyed : created (rounds 255 1) init ≡ 255
unfolding created perform create_port destroy_port init
all_destroyed = refl

abbrev owner_waits : Ports
owner_waits = record {
  table = update one_port.table 3 (some (record full_port { waiting_senders = 7 ∷ [] }));
  next_port_id = 4;
}

owner_blocks :
    send owners_only true true 7 3 (some (note 50)) one_port ≡ (SendAnswer.waits, owner_waits)
unfolding send authorised start_send Capability.find_for_port Capability.find_port
    Capability.current_entries Capability.table_index
owner_blocks = refl

destroyed_sender_faults_example :
    ((destroy_port 3 owner_waits).0 ≡ true)
    × Mem 7 (destroy_port 3 owner_waits).1
    × (resume_send true 7 3 (note 50) (destroy_port 3 owner_waits).2
        ≡ (SendAnswer.fault, (destroy_port 3 owner_waits).2))
destroyed_sender_faults_example =
    destroyed_sender_faults owners_only true true 7 3 (note 50) one_port owner_waits owner_blocks
      true
