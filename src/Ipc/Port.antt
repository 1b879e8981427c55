-- ===== src/Ipc/Port.antt =====
-- One port of kernel/ipc/ipc.c, and what the functions do to it while they hold its lock. The
-- linked message queue is a list, `queue_head` first, so `queue_tail` is its last node; the lists of
-- waiting threads are lists of thread ids, the latest first. `kmalloc`'s answers are arguments.
-- A thread that blocks gives the lock up and goes on in a later critical section.
pub mod Queue
pub mod Bound
use scarlett_os.Base.{
  ℕ, ◌+◌, ◌-◌, Bool, true, false, Option, none, some, List, [], ◌∷◌, ◌++◌, leb, ◌==◌, if◌then◌else◌,
}
use scarlett_os.Ipc.Message.{Message}

abbrev pub max_queue_size : ℕ
max_queue_size = 32

-- `ipc_port_internal_t`
pub record Port : Type 0 where
  pub port_id : ℕ
  pub owner_tid : ℕ
  pub queue : List Message
  pub queue_size : ℕ
  pub queue_max : ℕ
  pub waiting_receivers : List ℕ
  pub waiting_senders : List ℕ

-- The port that `ipc_create_port` fills in.
abbrev pub fresh_port : ℕ → ℕ → Port
fresh_port id tid = record {
  port_id = id;
  owner_tid = tid;
  queue = [];
  queue_size = 0;
  queue_max = max_queue_size;
  waiting_receivers = [];
  waiting_senders = [];
}

-- How a critical section of a sender ends: with -1, with the thread blocked, or with the message
-- queued and perhaps a thread woken.
pub data Sending : Type 0 where
  failed : Sending
  blocked : Port → Sending
  sent : Option ℕ → Port → Sending

-- The same for a receiver. `fault` is a read through a null `queue_head`.
pub data Receiving : Type 0 where
  failed fault : Receiving
  blocked : Port → Receiving
  received : Message → Option ℕ → Port → Receiving

-- Take the first thread of a waiting list: `thread_unblock`, and the list without it.
abbrev pub first_waiting : List ℕ → Option ℕ
first_waiting [] = none
first_waiting (t ∷ ts) = some t

abbrev pub other_waiting : List ℕ → List ℕ
other_waiting [] = []
other_waiting (t ∷ ts) = ts

-- The copy of the message that is queued names its sender.
abbrev pub stamp : ℕ → Message → Message
stamp tid msg = record msg { sender_tid = tid }

-- The last part of `ipc_send`, which a thread that had blocked runs too when it is woken.
unfoldable pub finish_send : Bool → ℕ → Message → Port → Sending
finish_send memory tid msg p =
    if memory
    then sent (first_waiting p.waiting_receivers) (record p {
      queue = p.queue ++ (stamp tid msg ∷ []);
      queue_size = p.queue_size + 1;
      waiting_receivers = other_waiting p.waiting_receivers;
    })
    else failed

-- The first critical section of `ipc_send` on the port.
unfoldable pub start_send : Bool → Bool → ℕ → Message → Port → Sending
start_send wait_memory node_memory tid msg p =
    if leb p.queue_max p.queue_size
    then (if wait_memory
        then blocked (record p { waiting_senders = tid ∷ p.waiting_senders })
        else failed)
    else finish_send node_memory tid msg p

-- Taking the first message off the queue and waking a sender.
unfoldable pub dequeue : Receiving → Port → Receiving
dequeue on_null p = elim p.queue [
  | [] ↦ on_null
  | m ∷ ms ↦ received m (first_waiting p.waiting_senders) (record p {
    queue = ms;
    queue_size = p.queue_size - 1;
    waiting_senders = other_waiting p.waiting_senders;
  })
]

-- A critical section of `ipc_receive`: the loop's test, and what follows the loop. A thread that is
-- woken runs it again.
unfoldable pub receive_step : Bool → ℕ → Port → Receiving
receive_step memory tid p =
    if p.queue_size == 0
    then (if memory
        then blocked (record p { waiting_receivers = tid ∷ p.waiting_receivers })
        else failed)
    else dequeue failed p

-- The critical section of `ipc_try_receive`.
unfoldable pub try_receive_step : Port → Receiving
try_receive_step p = if p.queue_size == 0 then failed else dequeue fault p
