-- ===== src/Ipc/Table/Reply.antt =====
-- `ipc_call` of kernel/ipc/ipc.c: a request, and the wait for an answer on a port of its own.
use scarlett_os.Base.{
  ℕ, ◌≡◌, ◌≢◌, inl, inr, refl, sym, ◌∙◌, Bool, false, Option, none, some, [], ◌∷◌, arith, leb, ◌==◌,
  if◌then◌else◌, Bool-cases, Option-cases,
}
use scarlett_os.Base.Update.{update_self, update_ne}
use scarlett_os.Ipc.Message.{Message}
use scarlett_os.Ipc.Rights.{PortRights}
use scarlett_os.Ipc.Port.{fresh_port, receive_step}
use scarlett_os.Ipc.Table.{
  Ports, SendAnswer, ReceiveAnswer, send, receive, max_ports, create_port, destroy_port,
  resume_receive,
}
use scarlett_os.Ipc.Table.Access.{receive_authorised}
use scarlett_os.Ipc.Table.Lifetime.{WellFormed, Created, create_port_lem}

-- The end of the call, once `ipc_receive` has returned.
abbrev pub close_reply : ℕ → ReceiveAnswer × Ports → ReceiveAnswer × Ports
close_reply r (ReceiveAnswer.failed, s) = (ReceiveAnswer.failed, (destroy_port r s).2)
close_reply r (ReceiveAnswer.fault, s) = (ReceiveAnswer.fault, s)
close_reply r (ReceiveAnswer.waits, s) = (ReceiveAnswer.waits, s)
close_reply r (ReceiveAnswer.got m w, s) = (ReceiveAnswer.got m w, (destroy_port r s).2)

-- The part after the request has been sent, up to its end or until the thread blocks. The first
-- component is the reply port.
unfoldable pub call_reply :
    PortRights → Bool → Bool → ℕ → Bool → Ports → ℕ × (ReceiveAnswer × Ports)
call_reply rights port_memory wait_memory tid into s =
    let made = create_port port_memory tid s in
    if made.0 == 0
    then (0, (ReceiveAnswer.failed, made.1))
    else (made.0, close_reply made.0 (receive rights wait_memory tid made.0 into made.1))

-- What the thread runs when it is woken while it waits for the answer.
unfoldable pub resume_call : Bool → ℕ → ℕ → Ports → ReceiveAnswer × Ports
resume_call memory tid r s = close_reply r (resume_receive memory tid r s)

-- The part that sends the request; a thread that blocks there goes on with `resume_send`.
unfoldable pub call :
    PortRights
    → (wait_memory node_memory port_memory : Bool) → (tid id : ℕ) → Option Message
    → Bool
    → Ports
    → ℕ × (ReceiveAnswer × Ports)
call rights wait_memory node_memory port_memory tid id request into s =
    let sent = send rights wait_memory node_memory tid id request s in
    elim sent.0 [
      | SendAnswer.failed ↦ (0, (ReceiveAnswer.failed, sent.1))
      | SendAnswer.fault ↦ (0, (ReceiveAnswer.fault, sent.1))
      | SendAnswer.waits ↦ (0, (ReceiveAnswer.waits, sent.1))
      | SendAnswer.done w ↦ call_reply rights port_memory wait_memory tid into sent.1
    ]

destroyed-none : (r : ℕ) (s : Ports) → leb max_ports r ≡ false → (destroy_port r s).2.table r ≡ none
unfolding destroy_port
destroyed-none r s fits = elim (Option-cases (s.table r)) [
  | inl e ↦ rw (fits, e) e
  | inr (p, e) ↦ rw (fits, e) (update_self s.table r none)
]

destroyed-other : (r : ℕ) (s : Ports) (j : ℕ) → r ≢ j → (destroy_port r s).2.table j ≡ s.table j
unfolding destroy_port
destroyed-other r s j ne = elim (Bool-cases (leb max_ports r)) [
  | inl out ↦ rw out refl
  | inr fits ↦ elim (Option-cases (s.table r)) [
    | inl e ↦ rw (fits, e) refl
    | inr (p, e) ↦ rw (fits, e) (update_ne s.table r j none ne)
  ]
]

-- The call has failed and left every port as it was, or the thread waits alone on a port of its own.
pub data ReplyOutcome (tid : ℕ) (s : Ports) : ℕ × (ReceiveAnswer × Ports) → Type 0 where
  failed :
      (r : ℕ) (t : Ports)
      → ((j : ℕ) → t.table j ≡ s.table j)
      → ReplyOutcome tid s (r, (ReceiveAnswer.failed, t))
  waits :
      (r : ℕ) (t : Ports)
      → s.table r ≡ none
      → t.table r ≡ some (record (fresh_port r tid) { waiting_receivers = tid ∷ [] })
      → ((j : ℕ) → r ≢ j → t.table j ≡ s.table j)
      → ReplyOutcome tid s (r, (ReceiveAnswer.waits, t))

close_failed :
    (tid : ℕ) {s t : Ports} (r : ℕ)
    → Created tid s r t
    → (j : ℕ) → (destroy_port r t).2.table j ≡ s.table j
close_failed tid {s} {t} r made j = elim (Bool-cases (r == j)) [
  | inl e ↦
      let same : r ≡ j = ground arith in
      let gone : (destroy_port r t).2.table r ≡ none =
        destroyed-none r t (ground (arith, made.in_range)) in
      rw (← same) (gone ∙ sym made.unused)
  | inr e ↦ let ne : r ≢ j = ground arith in destroyed-other r t j ne ∙ made.others j ne
]

receive_fresh :
    (rights : PortRights) (m : Bool) (tid : ℕ) (into : Bool) {s t : Ports} (r : ℕ)
    → Created tid s r t
    → ReplyOutcome tid s (r, close_reply r (receive rights m tid r into t))
receive_fresh rights m tid into {s} {t} r made = elim (receive_authorised rights m tid r into t) [
  | inl e ↦ rw e (failed r (destroy_port r t).2 (close_failed tid r made))
  | inr (u, e, rest) ↦
      let port : fresh_port r tid ≡ u.port = ground (arith, made.fresh, u.exists) in
      rw (e, ← port)
        (unfold receive_step in
          elim (Bool-cases m) [
            | inr refused ↦ rw refused (failed r (destroy_port r t).2 (close_failed tid r made))
            | inl given ↦ rw given (
                waits r _ made.unused
                  (update_self t.table r
                    (some (record (fresh_port r tid) { waiting_receivers = tid ∷ [] })))
                  (λ j ne.
                    update_ne t.table r j
                      (some (record (fresh_port r tid) { waiting_receivers = tid ∷ [] })) ne
                    ∙ made.others j ne))
          ])
]

-- After the request has been sent, `ipc_call` either fails and leaves every port as it was, the
-- reply port it may have made destroyed again, or blocks as the only thread that waits on a new,
-- empty port of its own, every other port kept. It never finds an answer at once.
pub call_reply_lem :
    (rights : PortRights) (port_memory wait_memory : Bool) (tid : ℕ) (into : Bool) {s : Ports}
    → WellFormed s
    → ReplyOutcome tid s (call_reply rights port_memory wait_memory tid into s)
unfolding call_reply
call_reply_lem rights port_memory wait_memory tid into {s} v =
    elim (create_port_lem port_memory tid v) [
      | inl e ↦ rw e (failed 0 s (λ j. refl))
      | inr made ↦
          let r = (create_port port_memory tid s).0 in
          let given : (r == 0) ≡ false = ground (arith, made.positive) in
          rw given (receive_fresh rights wait_memory tid into r made)
    ]
