-- ===== src/Ipc/Table/Access.antt =====
-- Who can send to a port and receive from it, by kernel/ipc/ipc.c.
use scarlett_os.Base.{
  ℕ, ◌<◌, ◌≡◌, ◌≢◌, ◌⊎◌, inl, inr, refl, Bool, true, some, arith, leb, ◌==◌, not, ◌||◌, Bool-cases,
  Option-cases,
}
use scarlett_os.Base.Update.{update_ne}
use scarlett_os.Ipc.Message.{Message}
use scarlett_os.Ipc.Rights.{PortRights}
use scarlett_os.Ipc.Port.{Port, Sending, Receiving, start_send, receive_step}
use scarlett_os.Ipc.Table.{
  Ports, SendAnswer, ReceiveAnswer, after_send, after_receive, authorised, send, receive, max_ports,
}
use scarlett_os.Security.Capability.{right_read, right_write}

after_send-other :
    (id : ℕ) (s : Ports) (r : Sending) (j : ℕ) → id ≢ j → (after_send id s r).1.table j ≡ s.table j
after_send-other id s Sending.failed j ne = refl
after_send-other id s (Sending.blocked p) j ne = update_ne s.table id j (some p) ne
after_send-other id s (Sending.sent w p) j ne = update_ne s.table id j (some p) ne

after_receive-other :
    (id : ℕ) (s : Ports) (r : Receiving) (j : ℕ)
    → id ≢ j
    → (after_receive id s r).1.table j ≡ s.table j
after_receive-other id s Receiving.failed j ne = refl
after_receive-other id s Receiving.fault j ne = refl
after_receive-other id s (Receiving.blocked p) j ne = update_ne s.table id j (some p) ne
after_receive-other id s (Receiving.received m w p) j ne = update_ne s.table id j (some p) ne

module _ (rights : PortRights) where
  open rights use {find_for_port, check, Holds, sound}

  -- A port that the thread may use: it exists, and the thread owns it or its process holds a
  -- capability for it with the right.
  pub record MayUse (right tid id : ℕ) (s : Ports) : Type 0 where
    pub port : Port
    pub exists : s.table id ≡ some port
    pub in_range : id < max_ports
    pub authority : (port.owner_tid ≡ tid) ⊎ Holds id right

  authorised_sound :
      (right tid id : ℕ) (p : Port)
      → authorised rights right tid id p ≡ true
      → (p.owner_tid ≡ tid) ⊎ Holds id right
  unfolding authorised
  authorised_sound right tid id p h = elim (Bool-cases (find_for_port id == 0)) [
    | inl e ↦ inl (ground arith)
    | inr ne ↦ inr (sound id right (ground arith) (ground arith))
  ]

  -- The call fails and changes nothing; or the thread may use the port, and what the call does is
  -- the critical section on that port, the others' entries kept.
  abbrev pub SendOutcome : ℕ → ℕ → Ports → (Port → Sending) → SendAnswer × Ports → Type 0
  SendOutcome tid id s section r =
      (r ≡ (SendAnswer.failed, s))
      ⊎ ((u : MayUse right_write tid id s) × (r ≡ after_send id s (section u.port))
          × ((j : ℕ) → id ≢ j → r.1.table j ≡ s.table j))

  abbrev pub ReceiveOutcome : ℕ → ℕ → Ports → (Port → Receiving) → ReceiveAnswer × Ports → Type 0
  ReceiveOutcome tid id s section r =
      (r ≡ (ReceiveAnswer.failed, s))
      ⊎ ((u : MayUse right_read tid id s) × (r ≡ after_receive id s (section u.port))
          × ((j : ℕ) → id ≢ j → r.1.table j ≡ s.table j))

  -- `ipc_send` fails without effect, or the port exists and the caller owns it or holds a
  -- capability for it with the write right; then it does to that port what the critical section
  -- does and keeps every other port.
  pub send_authorised :
      (m n : Bool) (tid id : ℕ) (msg : Message) (s : Ports)
      → SendOutcome tid id s (start_send m n tid msg) (send rights m n tid id (some msg) s)
  unfolding send
  send_authorised m n tid id msg s = elim (Bool-cases (leb max_ports id)) [
    | inl out ↦ rw out (inl refl)
    | inr fits ↦ elim (Option-cases (s.table id)) [
      | inl e ↦ rw (fits, e) (inl refl)
      | inr (p, e) ↦ elim (Bool-cases (authorised rights right_write tid id p)) [
        | inr refused ↦ rw (fits, e, refused) (inl refl)
        | inl ok ↦
            let u : MayUse right_write tid id s = record {
              port = p;
              exists = e;
              in_range = ground arith;
              authority = authorised_sound right_write tid id p ok;
            } in
            inr (
              u,
              (unfold send in rw (fits, e, ok) refl),
              λ j ne.
                  unfold send in
                  rw (fits, e, ok) (after_send-other id s (start_send m n tid msg p) j ne),
            )
      ]
    ]
  ]

  -- `ipc_receive` fails without effect, or the port exists and the caller owns it or holds a
  -- capability for it with the read right; then it does to that port what the critical section
  -- does and keeps every other port.
  pub receive_authorised :
      (m : Bool) (tid id : ℕ) (into : Bool) (s : Ports)
      → ReceiveOutcome tid id s (receive_step m tid) (receive rights m tid id into s)
  unfolding receive
  receive_authorised m tid id into s = elim (Bool-cases (leb max_ports id || not into)) [
    | inl out ↦ rw out (inl refl)
    | inr fits ↦ elim (Option-cases (s.table id)) [
      | inl e ↦ rw (fits, e) (inl refl)
      | inr (p, e) ↦ elim (Bool-cases (authorised rights right_read tid id p)) [
        | inr refused ↦ rw (fits, e, refused) (inl refl)
        | inl ok ↦
            let u : MayUse right_read tid id s = record {
              port = p;
              exists = e;
              in_range = ground arith;
              authority = authorised_sound right_read tid id p ok;
            } in
            inr (
              u,
              (unfold receive in rw (fits, e, ok) refl),
              λ j ne.
                  unfold receive in
                  rw (fits, e, ok) (after_receive-other id s (receive_step m tid p) j ne),
            )
      ]
    ]
  ]
