-- ===== src/Ipc/Table/Calls.antt =====
-- The ports of kernel/ipc/ipc.c as threads use them: any calls in any order from `ipc_init` on, and
-- what a thread finds that was blocked on a port which is destroyed.
use mathlib.Core.List.{Mem, mem-append_right, mem-cons_self}
use scarlett_os.Base.{
  ℕ, ◌+◌, ◌≤◌, ◌≡◌, inl, inr, refl, sym, ◌∙◌, Bool, true, false, none, some, List, [], ◌∷◌, ◌++◌,
  arith, leb, ◌==◌, not, ◌||◌, if◌then◌else◌, Bool-cases, Option-cases,
}
use scarlett_os.Base.Update.{update, update_self}
use scarlett_os.Ipc.Message.{Message}
use scarlett_os.Ipc.Rights.{PortRights}
use scarlett_os.Ipc.Port.{
  Port, Sending, Receiving, start_send, finish_send, receive_step, try_receive_step,
}
use scarlett_os.Ipc.Table.{
  Ports, SendAnswer, after_send, after_receive, send, receive, max_ports, init, create_port,
  destroy_port, resume_send, resume_receive, try_receive,
}
use scarlett_os.Ipc.Table.Access.{send_authorised, receive_authorised}
use scarlett_os.Ipc.Table.Lifetime.{
  WellFormed, init-WellFormed, create_port_lem, remove-WellFormed, after_send-WellFormed,
  after_receive-WellFormed,
}

-- The entry points and the second halves of those that block, each with what it asks of the rest
-- of the kernel.
pub data Call : Type 1 where
  create : Bool → ℕ → Call
  destroy : ℕ → Call
  sends : PortRights → Bool → Bool → ℕ → ℕ → Message → Call
  receives : PortRights → Bool → ℕ → ℕ → Bool → Call
  tries : ℕ → Bool → Call
  goes_on_sending : Bool → ℕ → ℕ → Message → Call
  goes_on_receiving : Bool → ℕ → ℕ → Call

unfoldable pub perform : Call → Ports → Ports
perform (create memory tid) s = (create_port memory tid s).1
perform (destroy id) s = (destroy_port id s).2
perform (sends rights m n tid id msg) s = (send rights m n tid id (some msg) s).1
perform (receives rights m tid id into) s = (receive rights m tid id into s).1
perform (tries id into) s = (try_receive id into s).1
perform (goes_on_sending m tid id msg) s = (resume_send m tid id msg s).1
perform (goes_on_receiving m tid id) s = (resume_receive m tid id s).1

pub perform_all : List Call → Ports → Ports
perform_all [] s = s
perform_all (c ∷ cs) s = perform_all cs (perform c s)

-- The successful calls of `ipc_create_port`.
abbrev pub creates : Call → Ports → ℕ
creates (create memory tid) s = if (create_port memory tid s).0 == 0 then 0 else 1
creates _ s = 0

unfoldable pub created : List Call → Ports → ℕ
created [] s = 0
created (c ∷ cs) s = creates c s + created cs (perform c s)

-- A call keeps the invariant, and counts the ids up by the ports it creates.
abbrev Kept : Ports → ℕ → Ports → Type 0
Kept s n t = WellFormed t × (t.next_port_id ≡ s.next_port_id + n)

after_send-next_port_id :
    (id : ℕ) (s : Ports) (r : Sending) → (after_send id s r).1.next_port_id ≡ s.next_port_id + 0
after_send-next_port_id id s Sending.failed = omega arith
after_send-next_port_id id s (Sending.blocked q) = omega arith
after_send-next_port_id id s (Sending.sent w q) = omega arith

after_receive-next_port_id :
    (id : ℕ) (s : Ports) (r : Receiving)
    → (after_receive id s r).1.next_port_id ≡ s.next_port_id + 0
after_receive-next_port_id id s Receiving.failed = omega arith
after_receive-next_port_id id s Receiving.fault = omega arith
after_receive-next_port_id id s (Receiving.blocked q) = omega arith
after_receive-next_port_id id s (Receiving.received m w q) = omega arith

module _ {s : Ports} (v : WellFormed s) where
  same-Kept : Kept s 0 s
  same-Kept = (v, omega arith)

  after_send-Kept :
      (id : ℕ) (p : Port) (r : Sending) → s.table id ≡ some p → Kept s 0 (after_send id s r).1
  after_send-Kept id p r e = (after_send-WellFormed id p r e v, after_send-next_port_id id s r)

  after_receive-Kept :
      (id : ℕ) (p : Port) (r : Receiving) → s.table id ≡ some p → Kept s 0 (after_receive id s r).1
  after_receive-Kept id p r e =
      (after_receive-WellFormed id p r e v, after_receive-next_port_id id s r)

  perform-Kept : (c : Call) → Kept s (creates c s) (perform c s)
  unfolding perform
  perform-Kept (create memory tid) = elim (create_port_lem memory tid v) [
    | inl e ↦ rw (perform, e) same-Kept
    | inr made ↦
        let one : ((create_port memory tid s).0 == 0) ≡ false = ground (arith, made.positive) in
        rw (perform, one) (made.valid, made.counted)
  ]
  perform-Kept (destroy id) =
      unfold destroy_port in
      elim (Bool-cases (leb max_ports id)) [
        | inl out ↦ rw (perform, out) same-Kept
        | inr fits ↦ elim (Option-cases (s.table id)) [
          | inl e ↦ rw (perform, fits, e) same-Kept
          | inr (p, e) ↦ rw (perform, fits, e) (remove-WellFormed id v, omega arith)
        ]
      ]
  perform-Kept (sends rights m n tid id msg) = elim (send_authorised rights m n tid id msg s) [
    | inl e ↦ rw (perform, e) same-Kept
    | inr (u, e, rest) ↦
        rw (perform, e) (after_send-Kept id u.port (start_send m n tid msg u.port) u.exists)
  ]
  perform-Kept (receives rights m tid id into) = elim (receive_authorised rights m tid id into s) [
    | inl e ↦ rw (perform, e) same-Kept
    | inr (u, e, rest) ↦
        rw (perform, e) (after_receive-Kept id u.port (receive_step m tid u.port) u.exists)
  ]
  perform-Kept (tries id into) =
      unfold try_receive in
      elim (Bool-cases (leb max_ports id || not into)) [
        | inl out ↦ rw (perform, out) same-Kept
        | inr fits ↦ elim (Option-cases (s.table id)) [
          | inl e ↦ rw (perform, fits, e) same-Kept
          | inr (p, e) ↦ rw (perform, fits, e) (after_receive-Kept id p (try_receive_step p) e)
        ]
      ]
  perform-Kept (goes_on_sending m tid id msg) =
      unfold resume_send in
      elim (Option-cases (s.table id)) [
        | inl e ↦ rw (perform, e) same-Kept
        | inr (p, e) ↦ rw (perform, e) (after_send-Kept id p (finish_send m tid msg p) e)
      ]
  perform-Kept (goes_on_receiving m tid id) =
      unfold resume_receive in
      elim (Option-cases (s.table id)) [
        | inl e ↦ rw (perform, e) same-Kept
        | inr (p, e) ↦ rw (perform, e) (after_receive-Kept id p (receive_step m tid p) e)
      ]

perform_all-Kept :
    (cs : List Call) {s : Ports} → WellFormed s → Kept s (created cs s) (perform_all cs s)
unfolding perform_all created
perform_all-Kept [] v = same-Kept v
perform_all-Kept (c ∷ cs) {s} v =
    let (valid, one) = perform-Kept v c in
    let (valid', rest) = perform_all-Kept cs valid in (valid', omega arith)

-- From `ipc_init` on, any calls together create at most 255 ports.
pub created_bounded : (cs : List Call) → created cs init ≤ 255
created_bounded cs =
    let (valid, count) = perform_all-Kept cs init-WellFormed in
    let start : init.next_port_id ≡ 1 = unfold init in refl in
    let bound = valid.bounded in omega arith

-- Ids are never given out again: once the calls from `ipc_init` on have created 255 ports,
-- `ipc_create_port` fails, whatever of them has been destroyed.
pub ids_used_up :
    (cs : List Call) (memory : Bool) (tid : ℕ)
    → created cs init ≡ 255
    → create_port memory tid (perform_all cs init) ≡ (0, perform_all cs init)
unfolding create_port
ids_used_up cs memory tid all =
    let (valid, count) = perform_all-Kept cs init-WellFormed in
    let start : init.next_port_id ≡ 1 = unfold init in refl in
    let last : leb max_ports (perform_all cs init).next_port_id ≡ true = ground arith in
    rw last refl

after_send-waits :
    (id : ℕ) (s : Ports) (r : Sending) {t : Ports}
    → after_send id s r ≡ (SendAnswer.waits, t)
    → (q : Port) × (r ≡ Sending.blocked q) × (t.table id ≡ some q)
after_send-waits id s Sending.failed h = ground arith
after_send-waits id s (Sending.blocked q) {t} h =
    let e : record s { table = update s.table id (some q) } ≡ t = ground arith in
    (q, refl, rw (← e) (update_self s.table id (some q)))
after_send-waits id s (Sending.sent w q) h = ground arith

start_send-blocked :
    (m n : Bool) (tid : ℕ) (msg : Message) (p : Port) {q : Port}
    → start_send m n tid msg p ≡ Sending.blocked q
    → q.waiting_senders ≡ tid ∷ p.waiting_senders
unfolding start_send finish_send
start_send-blocked m n tid msg p h = ground arith

-- A thread that `ipc_send` blocked on a full port.
module _ (rights : PortRights) (m n : Bool) (tid id : ℕ) (msg : Message) (s t : Ports)
    (waits : send rights m n tid id (some msg) s ≡ (SendAnswer.waits, t)) where
  -- Its port is there, below the table's size, with the thread first among the waiting senders.
  waiting_sender :
      (q : Port) × (ts : List ℕ) × (t.table id ≡ some q)
      × (leb max_ports id ≡ false)
      × (q.waiting_senders ≡ tid ∷ ts)
  waiting_sender = elim (send_authorised rights m n tid id msg s) [
    | inl e ↦ ground arith
    | inr (u, e, rest) ↦
        let (q, r, there) = after_send-waits id s (start_send m n tid msg u.port) (sym e ∙ waits) in
        (
          q,
          u.port.waiting_senders,
          there,
          ground (arith, u.in_range),
          start_send-blocked m n tid msg u.port r,
        )
  ]

  -- When a thread is blocked in `ipc_send` and another destroys the port, `ipc_destroy_port` wakes
  -- the thread and frees the port, and the thread goes on with the freed port.
  pub destroyed_sender_faults :
      (memory : Bool)
      → ((destroy_port id t).0 ≡ true)
        × Mem tid (destroy_port id t).1
        × (resume_send memory tid id msg (destroy_port id t).2
            ≡ (SendAnswer.fault, (destroy_port id t).2))
  destroyed_sender_faults memory =
      let (q, ts, there, fits, first) = waiting_sender in
      let freed : update t.table id none id ≡ none = update_self t.table id none in
      let gone : destroy_port id t ≡ (
        true,
        q.waiting_receivers ++ q.waiting_senders,
        record t { table = update t.table id none },
      ) =
        unfold destroy_port in rw (fits, there) refl in
      rw (gone, first)
        (
          refl,
          mem-append_right q.waiting_receivers mem-cons_self,
          (unfold resume_send in rw (resume_send, freed) refl),
        )
