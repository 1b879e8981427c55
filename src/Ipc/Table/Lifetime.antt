-- ===== src/Ipc/Table/Lifetime.antt =====
-- The life of the ports of kernel/ipc/ipc.c: how they are made and destroyed, and
-- the invariant of the table.
use scarlett_os.Base.{
  ℕ, ◌+◌, ◌≤◌, ◌<◌, ◌≡◌, ◌≢◌, ◌⊎◌, inl, inr, refl, Bool, true, false, none, some, List, [], ◌++◌,
  arith, leb, Bool-cases, Option-cases,
}
use scarlett_os.Base.Update.{update, update_ne, update_self}
use scarlett_os.Ipc.Port.{Port, fresh_port, Sending, Receiving}
use scarlett_os.Ipc.Table.{
  Ports, after_send, after_receive, max_ports, init, create_port, destroy_port,
}

-- The ids not yet given out have no port, and 0 is never given out.
pub record WellFormed (s : Ports) : Type 0 where
  pub positive : 1 ≤ s.next_port_id
  pub bounded : s.next_port_id ≤ max_ports
  pub unused : (id : ℕ) → s.next_port_id ≤ id → s.table id ≡ none
  pub nothing_at_0 : s.table 0 ≡ none

pub init-WellFormed : WellFormed init
unfolding init
init-WellFormed = record {
  positive = omega arith;
  bounded = omega arith;
  unused = λ id h. refl;
  nothing_at_0 = refl;
}

-- A new port: its id was not in use, it is empty and owned by its creator, and the others are kept.
pub record Created (tid : ℕ) (s : Ports) (id : ℕ) (t : Ports) : Type 0 where
  pub positive : 1 ≤ id
  pub in_range : id < max_ports
  pub unused : s.table id ≡ none
  pub fresh : t.table id ≡ some (fresh_port id tid)
  pub others : (j : ℕ) → id ≢ j → t.table j ≡ s.table j
  pub counted : t.next_port_id ≡ s.next_port_id + 1
  pub valid : WellFormed t

create_ok-WellFormed :
    (s : Ports) (p : Port)
    → WellFormed s
    → leb max_ports s.next_port_id ≡ false
    → WellFormed (record {
      table = update s.table s.next_port_id (some p);
      next_port_id = s.next_port_id + 1;
    })
create_ok-WellFormed s p v e = record {
  positive = omega arith;
  bounded = ground arith;
  unused = λ id h.
      let ne : s.next_port_id ≢ id = ground arith in
      rw (update_ne s.table s.next_port_id id (some p) ne) (v.unused id (ground arith));
  nothing_at_0 =
      let ne : s.next_port_id ≢ 0 = ground (arith, v.positive) in
      rw (update_ne s.table s.next_port_id 0 (some p) ne) v.nothing_at_0;
}

abbrev pub CreateOutcome : ℕ → Ports → ℕ × Ports → Type 0
CreateOutcome tid s r = (r ≡ (0, s)) ⊎ Created tid s r.0 r.1

-- `ipc_create_port` returns 0 and changes nothing, or returns an id below the table's size that had
-- no port and now has an empty one of the caller, every other port kept; the invariant holds on.
pub create_port_lem :
    (memory : Bool) (tid : ℕ) {s : Ports}
    → WellFormed s
    → CreateOutcome tid s (create_port memory tid s)
unfolding create_port
create_port_lem memory tid {s} v = elim (Bool-cases (leb max_ports s.next_port_id)) [
  | inl full ↦ rw full (inl refl)
  | inr room ↦ elim (Bool-cases memory) [
    | inr refused ↦ rw (room, refused) (inl refl)
    | inl given ↦
        rw (room, given)
          (inr (record {
            positive = v.positive;
            in_range = ground arith;
            unused = v.unused s.next_port_id (omega arith);
            fresh = update_self s.table s.next_port_id (some (fresh_port s.next_port_id tid));
            others = λ j ne.
                update_ne s.table s.next_port_id j (some (fresh_port s.next_port_id tid)) ne;
            counted = refl;
            valid = create_ok-WellFormed s (fresh_port s.next_port_id tid) v room;
          }))
  ]
]

-- An entry in use is replaced.
put-WellFormed :
    {s : Ports} (id : ℕ) (p q : Port)
    → s.table id ≡ some p
    → WellFormed s
    → WellFormed (record s { table = update s.table id (some q) })
put-WellFormed {s} id p q e v = record {
  positive = v.positive;
  bounded = v.bounded;
  unused = λ j h.
      let gone : s.table j ≡ none = v.unused j h in
      let ne : id ≢ j = λ same. cc in rw (update_ne s.table id j (some q) ne) gone;
  nothing_at_0 =
      let ne : id ≢ 0 = λ same. let gone : s.table 0 ≡ none = v.nothing_at_0 in cc in
      rw (update_ne s.table id 0 (some q) ne) v.nothing_at_0;
}

pub remove-WellFormed :
    {s : Ports} (id : ℕ) → WellFormed s → WellFormed (record s { table = update s.table id none })
remove-WellFormed {s} id v = record {
  positive = v.positive;
  bounded = v.bounded;
  unused = λ j h. let gone : s.table j ≡ none = v.unused j h in ground arith;
  nothing_at_0 = let gone : s.table 0 ≡ none = v.nothing_at_0 in ground arith;
}

pub after_send-WellFormed :
    {s : Ports} (id : ℕ) (p : Port) (r : Sending)
    → s.table id ≡ some p
    → WellFormed s
    → WellFormed (after_send id s r).1
after_send-WellFormed id p Sending.failed e v = v
after_send-WellFormed id p (Sending.blocked q) e v = put-WellFormed id p q e v
after_send-WellFormed id p (Sending.sent w q) e v = put-WellFormed id p q e v

pub after_receive-WellFormed :
    {s : Ports} (id : ℕ) (p : Port) (r : Receiving)
    → s.table id ≡ some p
    → WellFormed s
    → WellFormed (after_receive id s r).1
after_receive-WellFormed id p Receiving.failed e v = v
after_receive-WellFormed id p Receiving.fault e v = v
after_receive-WellFormed id p (Receiving.blocked q) e v = put-WellFormed id p q e v
after_receive-WellFormed id p (Receiving.received m w q) e v = put-WellFormed id p q e v

abbrev pub DestroyOutcome : ℕ → Ports → Bool × List ℕ × Ports → Type 0
DestroyOutcome id s r =
    ((r ≡ (false, [], s)) × ((max_ports ≤ id) ⊎ (s.table id ≡ none)))
    ⊎ ((p : Port) × (s.table id ≡ some p)
        × (r.0 ≡ true)
        × (r.1 ≡ p.waiting_receivers ++ p.waiting_senders)
        × (r.2.table id ≡ none)
        × ((j : ℕ) → id ≢ j → r.2.table j ≡ s.table j)
        × (r.2.next_port_id ≡ s.next_port_id))

-- `ipc_destroy_port` fails and changes nothing, when there is no such port; or it removes exactly
-- that port, gives no id back, and wakes exactly the threads that waited on the port.
pub destroy_port_lem : (id : ℕ) (s : Ports) → DestroyOutcome id s (destroy_port id s)
unfolding destroy_port
destroy_port_lem id s = elim (Bool-cases (leb max_ports id)) [
  | inl out ↦ rw out (inl (refl, inl (ground arith)))
  | inr fits ↦ elim (Option-cases (s.table id)) [
    | inl e ↦ rw (fits, e) (inl (refl, inr refl))
    | inr (p, e) ↦
        rw (fits, e)
          (inr (
            p,
            refl,
            refl,
            refl,
            update_self s.table id none,
            (λ j ne. update_ne s.table id j none ne),
            refl,
          ))
  ]
]
