-- ===== src/Security/Capability/Tests.antt =====
-- A process that creates two capabilities, checks, transfers and revokes them.
use scarlett_os.Base.{
  ℕ, ◌^◌, ◌≤◌, ◌≡◌, refl, true, false, Option, none, some, [], ◌∷◌, arith, ◌==◌, ◌-◌, Bool-cases,
  if◌then◌else◌, inl, inr,
}
use scarlett_os.Base.Int.{ℤ, pos}
use scarlett_os.Ipc.Message.{Message}
use scarlett_os.Security.Capability.{
  System, init, create, check, find_for_port, find_port, current_entries, table_index, find_id,
  ensure_initialized, make_room, grown,
}
use scarlett_os.Security.Capability.Invariant.{WellFormed, TableOk, entry}
use scarlett_os.Security.Capability.Create.{CreateOutcome, create_lem}
use scarlett_os.Security.Capability.Access.{HoldsPort, port_right_sound}
use scarlett_os.Security.Capability.Message.{
  transfer, write_descriptor, Describes, transfer_past_end,
}

abbrev process : Option ℤ
process = some (pos 5)

-- Process 5 with a readable port and a transferable file.
abbrev two : System
two = record {
  tables = λ pid.
      if pid == 5
      then record {
        capabilities = entry 1 1 40 3 ∷ entry 2 3 77 17 ∷ [];
        capacity = 16;
        initialized = true;
      }
      else record { capabilities = []; capacity = 0; initialized = false };
  next_cap_id = 3;
}

two-TableOk : (pid : ℕ) → TableOk 3 (two.tables pid)
unfolding find_id
two-TableOk pid = elim (Bool-cases (pid == 5)) [
  | inl e ↦ rw e (record {
    distinct = (refl, (refl, tt));
    in_range = (omega arith, omega arith, (omega arith, omega arith, tt));
    bounded = omega arith;
    limited = omega arith;
    empty = λ h. cc;
  })
  | inr ne ↦ rw ne (record {
    distinct = tt;
    in_range = tt;
    bounded = omega arith;
    limited = omega arith;
    empty = λ h. refl;
  })
]

abbrev two-WellFormed : WellFormed two
two-WellFormed = record { started = omega arith; tables = two-TableOk }

created_twice : (create true true process 3 77 17 (create true true process 1 40 3 init).1).0 ≡ 2
unfolding create init table_index ensure_initialized make_room grown
created_twice = refl

no_process : (create true true none 1 40 3 init).0 ≡ 0
unfolding create init table_index
no_process = refl

checks :
    (check process 1 2 two ≡ true)
    × (check process 2 2 two ≡ false)
    × (check process 9 1 two ≡ false)
unfolding check current_entries table_index find_id
checks = (refl, refl, refl)

create_lem_example : CreateOutcome process 1 41 1 two (create true true process 1 41 1 two)
create_lem_example = create_lem true true process 1 41 1 two-WellFormed (omega arith)

port_right_sound_example : HoldsPort process two 40 2
unfolding check find_for_port find_port current_entries table_index find_id
port_right_sound_example = port_right_sound process 40 2 two-WellFormed (omega arith) refl

abbrev letter : Message
letter = record {
  sender_tid = 0;
  msg_id = 1;
  kind = 0;
  inline_size = 8;
  inline_data = λ i. i;
  buffer = 0;
  buffer_size = 0;
}

held_file : find_id (current_entries process two) 2 ≡ some (entry 2 3 77 17)
unfolding current_entries table_index find_id
held_file = refl

abbrev sent : Message
sent = record letter {
  inline_size = 40;
  inline_data = write_descriptor 8 (entry 2 3 77 17) letter.inline_data;
}

transfer_past_end_example :
    (msg' : Message) × (transfer process (some (record letter { inline_size = 2 ^ 32 - 16 })) 2 two
      ≡ (true, some msg'))
    × (64 ≤ 2 ^ 32 - 16)
    × Describes (2 ^ 32 - 16) (entry 2 3 77 17) msg'.inline_data
transfer_past_end_example =
    transfer_past_end two process (record letter { inline_size = 2 ^ 32 - 16 }) 2 held_file
      (omega arith) (omega arith) refl (omega arith) (omega arith) (omega arith)
