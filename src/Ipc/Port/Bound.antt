-- ===== src/Ipc/Port/Bound.antt =====
-- How long the queue of a port can get.
use scarlett_os.Base.{ℕ, ◌+◌, ◌-◌, ◌≤◌, ◌≡◌, Bool, true, Option, some, List, [], ◌∷◌, ◌++◌, arith}
use scarlett_os.Ipc.Message.{Message}
use scarlett_os.Ipc.Port.{
  Port, blocked, sent, received, stamp, start_send, finish_send, dequeue, receive_step,
  first_waiting, other_waiting,
}

-- A sender that does not block leaves at most `queue_max` messages.
pub start_send_bounded :
    (m n : Bool) (tid : ℕ) (msg : Message) (p : Port) {w : Option ℕ} {q : Port}
    → start_send m n tid msg p ≡ sent w q
    → q.queue_size ≤ q.queue_max
unfolding start_send finish_send
start_send_bounded m n tid msg p h = ground arith

-- Four critical sections on a full port: `a` blocks in `ipc_send`, a receiver takes a message and
-- wakes `a`, a third thread sends before `a` runs again, and `a` goes on.
pub record Overtaken (a b c : ℕ) (msg later : Message) (p : Port) : Type 0 where
  pub p₁ : Port
  pub p₂ : Port
  pub p₃ : Port
  pub p₄ : Port
  pub first : Message
  pub w₃ : Option ℕ
  pub w₄ : Option ℕ
  pub waits : start_send true true a msg p ≡ blocked p₁
  pub wakes : receive_step true b p₁ ≡ received first (some a) p₂
  pub overtakes : start_send true true c later p₂ ≡ sent w₃ p₃
  pub goes_on : finish_send true a msg p₃ ≡ sent w₄ p₄
  pub too_long : p₄.queue_size ≡ p₄.queue_max + 1

-- On every full port, `ipc_send` lets the queue grow past `queue_max`: a woken sender does not
-- test the size again. The limit is at least 1.
pub woken_sender_exceeds :
    (a b c : ℕ) (msg later head : Message) (rest : List Message) (p : Port)
    → p.queue ≡ head ∷ rest
    → p.queue_size ≡ p.queue_max
    → 1 ≤ p.queue_max
    → Overtaken a b c msg later p
unfolding start_send finish_send receive_step dequeue
woken_sender_exceeds a b c msg later head rest p queue full positive = record {
  p₁ = record p { waiting_senders = a ∷ p.waiting_senders };
  p₂ = record p { queue = rest; queue_size = p.queue_size - 1 };
  p₃ = record p {
    queue = rest ++ (stamp c later ∷ []);
    queue_size = p.queue_size - 1 + 1;
    waiting_receivers = other_waiting p.waiting_receivers;
  };
  p₄ = record p {
    queue = (rest ++ (stamp c later ∷ [])) ++ (stamp a msg ∷ []);
    queue_size = p.queue_size - 1 + 1 + 1;
    waiting_receivers = other_waiting (other_waiting p.waiting_receivers);
  };
  first = head;
  w₃ = first_waiting p.waiting_receivers;
  w₄ = first_waiting (other_waiting p.waiting_receivers);
  waits = ground arith;
  wakes = ground arith;
  overtakes = ground arith;
  goes_on = ground arith;
  too_long = ground arith;
}
