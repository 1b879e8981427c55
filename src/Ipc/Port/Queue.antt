-- ===== src/Ipc/Port/Queue.antt =====
-- The queue of a port under any interleaving of senders and receivers.
use mathlib.Core.List.{append_assoc}
use scarlett_os.Base.{
  ℕ, suc, ◌+◌, ◌-◌, ◌≡◌, ◌⊎◌, inl, inr, refl, sym, ap, ◌∙◌, Bool, false, Option, List, [], ◌∷◌,
  ◌++◌, arith, length, length-append, ◌==◌,
}
use scarlett_os.Ipc.Message.{Message}
use scarlett_os.Ipc.Port.{
  Port, fresh_port, failed, blocked, sent, received, stamp, start_send, finish_send, dequeue,
  receive_step, try_receive_step, first_waiting, other_waiting,
}

-- A port with what has gone through it: the messages accepted, as stamped, those handed out, and the
-- threads that have blocked in `ipc_send` with the messages that they hold.
pub record Traffic : Type 0 where
  pub port : Port
  pub accepted : List Message
  pub handed_out : List Message
  pub held : List (ℕ × Message)

abbrev pub start : ℕ → ℕ → Traffic
start id tid = record { port = fresh_port id tid; accepted = []; handed_out = []; held = [] }

-- One critical section of some thread.
pub data Step (s : Traffic) : Traffic → Type 0 where
  send :
      (m n : Bool) (tid : ℕ) (msg : Message) (w : Option ℕ) (p : Port)
      → start_send m n tid msg s.port ≡ sent w p
      → Step s (record s { port = p; accepted = s.accepted ++ (stamp tid msg ∷ []) })
  send_blocks :
      (m n : Bool) (tid : ℕ) (msg : Message) (p : Port)
      → start_send m n tid msg s.port ≡ blocked p
      → Step s (record s { port = p; held = (tid, msg) ∷ s.held })
  resume :
      (n : Bool) (tid : ℕ) (msg : Message) (before after : List (ℕ × Message)) (w : Option ℕ)
      (p : Port)
      → s.held ≡ before ++ ((tid, msg) ∷ after)
      → finish_send n tid msg s.port ≡ sent w p
      → Step s (record s {
        port = p;
        accepted = s.accepted ++ (stamp tid msg ∷ []);
        held = before ++ after;
      })
  resume_fails :
      (n : Bool) (tid : ℕ) (msg : Message) (before after : List (ℕ × Message))
      → s.held ≡ before ++ ((tid, msg) ∷ after)
      → finish_send n tid msg s.port ≡ failed
      → Step s (record s { held = before ++ after })
  receive :
      (m : Bool) (tid : ℕ) (msg : Message) (w : Option ℕ) (p : Port)
      → receive_step m tid s.port ≡ received msg w p
      → Step s (record s { port = p; handed_out = s.handed_out ++ (msg ∷ []) })
  receive_blocks :
      (m : Bool) (tid : ℕ) (p : Port)
      → receive_step m tid s.port ≡ blocked p
      → Step s (record s { port = p })
  try_receive :
      (msg : Message) (w : Option ℕ) (p : Port)
      → try_receive_step s.port ≡ received msg w p
      → Step s (record s { port = p; handed_out = s.handed_out ++ (msg ∷ []) })

pub data Reach (s : Traffic) : Traffic → Type 0 where
  here : Reach s s
  next : {t u : Traffic} → Reach s t → Step t u → Reach s u

-- What was accepted has been handed out, in order, or is still queued, in order; the size is right.
pub record IsFifo (s : Traffic) : Type 0 where
  pub in_order : s.accepted ≡ s.handed_out ++ s.port.queue
  pub sized : s.port.queue_size ≡ length s.port.queue

-- What a successful critical section does to the queue.
module _ (p : Port) (tid : ℕ) (msg : Message) {w : Option ℕ} {q : Port} where
  queue-finish_send :
      (n : Bool)
      → finish_send n tid msg p ≡ sent w q
      → (q.queue ≡ p.queue ++ (stamp tid msg ∷ [])) × (q.queue_size ≡ p.queue_size + 1)
  unfolding finish_send
  queue-finish_send n h = ground arith

  queue-start_send :
      (m n : Bool)
      → start_send m n tid msg p ≡ sent w q
      → (q.queue ≡ p.queue ++ (stamp tid msg ∷ [])) × (q.queue_size ≡ p.queue_size + 1)
  unfolding start_send finish_send
  queue-start_send m n h = ground arith

  queue-receive_step :
      (m : Bool)
      → receive_step m tid p ≡ received msg w q
      → (p.queue ≡ msg ∷ q.queue) × (q.queue_size ≡ p.queue_size - 1)
  unfolding receive_step dequeue
  queue-receive_step m h = ground arith

  queue-try_receive_step :
      try_receive_step p ≡ received msg w q
      → (p.queue ≡ msg ∷ q.queue) × (q.queue_size ≡ p.queue_size - 1)
  unfolding try_receive_step dequeue
  queue-try_receive_step h = ground arith

module _ (p : Port) (tid : ℕ) {q : Port} where
  queue-start_send_blocked :
      (m n : Bool) (msg : Message)
      → start_send m n tid msg p ≡ blocked q
      → (q.queue ≡ p.queue) × (q.queue_size ≡ p.queue_size)
  unfolding start_send finish_send
  queue-start_send_blocked m n msg h = ground arith

  queue-receive_step_blocked :
      (m : Bool)
      → receive_step m tid p ≡ blocked q
      → (q.queue ≡ p.queue) × (q.queue_size ≡ p.queue_size)
  unfolding receive_step dequeue
  queue-receive_step_blocked m h = ground arith

-- The three ways in which a step moves messages.
module _ {s : Traffic} (v : IsFifo s) (q : Port) where
  accept-IsFifo :
      (m : Message) (held : List (ℕ × Message))
      → (q.queue ≡ s.port.queue ++ (m ∷ [])) × (q.queue_size ≡ s.port.queue_size + 1)
      → IsFifo (record s { port = q; accepted = s.accepted ++ (m ∷ []); held = held })
  accept-IsFifo m held (queue, size) = record {
    in_order = rw (v.in_order, queue) (append_assoc s.handed_out s.port.queue (m ∷ []));
    sized = rw queue (omega (arith, v.sized, length-append s.port.queue (m ∷ [])));
  }

  hand_out-IsFifo :
      (m : Message)
      → (s.port.queue ≡ m ∷ q.queue) × (q.queue_size ≡ s.port.queue_size - 1)
      → IsFifo (record s { port = q; handed_out = s.handed_out ++ (m ∷ []) })
  hand_out-IsFifo m (queue, size) = record {
    in_order =
        v.in_order
        ∙ ap (λ (l : List Message). s.handed_out ++ l) queue
        ∙ sym (append_assoc s.handed_out (m ∷ []) q.queue);
    sized =
        let e : length s.port.queue ≡ suc (length q.queue) = ap length queue in
        omega (arith, v.sized);
  }

  keep-IsFifo :
      (held : List (ℕ × Message))
      → (q.queue ≡ s.port.queue) × (q.queue_size ≡ s.port.queue_size)
      → IsFifo (record s { port = q; held = held })
  keep-IsFifo held (queue, size) = record {
    in_order = rw queue v.in_order;
    sized = rw queue (omega (arith, v.sized));
  }

Step-IsFifo : {s t : Traffic} → Step s t → IsFifo s → IsFifo t
Step-IsFifo {s} (send m n tid msg w p e) v =
    accept-IsFifo v p (stamp tid msg) s.held (queue-start_send s.port tid msg m n e)
Step-IsFifo {s} (send_blocks m n tid msg p e) v =
    keep-IsFifo v p ((tid, msg) ∷ s.held) (queue-start_send_blocked s.port tid m n msg e)
Step-IsFifo {s} (resume n tid msg before after w p h e) v =
    accept-IsFifo v p (stamp tid msg) (before ++ after) (queue-finish_send s.port tid msg n e)
Step-IsFifo {s} (resume_fails n tid msg before after h e) v =
    keep-IsFifo v s.port (before ++ after) (refl, refl)
Step-IsFifo {s} (receive m tid msg w p e) v =
    hand_out-IsFifo v p msg (queue-receive_step s.port tid msg m e)
Step-IsFifo {s} (receive_blocks m tid p e) v =
    keep-IsFifo v p s.held (queue-receive_step_blocked s.port tid m e)
Step-IsFifo {s} (try_receive msg w p e) v =
    hand_out-IsFifo v p msg (queue-try_receive_step s.port 0 msg e)

-- Whatever threads send to a new port and receive from it, in whatever order their critical
-- sections run, the messages accepted so far are those handed out followed by those queued, in
-- the order of their acceptance, and `queue_size` is the number of those queued.
pub Reach-IsFifo : {id tid : ℕ} {s : Traffic} → Reach (start id tid) s → IsFifo s
Reach-IsFifo here = record { in_order = refl; sized = refl }
Reach-IsFifo (next r st) = Step-IsFifo st (Reach-IsFifo r)

-- The queue was empty and the call failed; or the first message was handed out.
abbrev pub TryOutcome : Port → Type 0
TryOutcome p =
    ((p.queue ≡ []) × (try_receive_step p ≡ failed))
    ⊎ ((m : Message) × (w : Option ℕ) × (q : Port) × (p.queue ≡ m ∷ q.queue)
        × (try_receive_step p ≡ received m w q))

try_receive_sized :
    (p : Port) (ms : List Message) → p.queue ≡ ms → p.queue_size ≡ length ms → TryOutcome p
try_receive_sized p [] e size = inl (e, unfold try_receive_step in ground arith)
try_receive_sized p (m ∷ ms) e size =
    let waits : (p.queue_size == 0) ≡ false = ground arith in
    inr (
      m,
      first_waiting p.waiting_senders,
      record p {
        queue = ms;
        queue_size = p.queue_size - 1;
        waiting_senders = other_waiting p.waiting_senders;
      },
      e,
      unfold try_receive_step dequeue in rw (waits, e, dequeue),
    )

-- In every state that threads can bring a new port to, `ipc_try_receive` fails exactly on an empty
-- queue, hands out the first message otherwise, and never reads through a null queue head.
pub try_receive_safe : {id tid : ℕ} {s : Traffic} → Reach (start id tid) s → TryOutcome s.port
try_receive_safe {s = s} r = try_receive_sized s.port s.port.queue refl (Reach-IsFifo r).sized
