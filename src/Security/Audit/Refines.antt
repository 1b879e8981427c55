-- ===== src/Security/Audit/Refines.antt =====
-- The log of kernel/security/audit.c is a list of the last 9999 events.
use mathlib.Core.Path.{subst}
use scarlett_os.Base.{
  ℕ, zero, suc, ◌+◌, ◌-◌, ◌%◌, ◌^◌, ◌<◌, ◌≡◌, refl, sym, ap, ◌∙◌, inl, inr, Bool, true, false, List,
  [], ◌∷◌, ◌++◌, length, length-append, drop, leb, ◌==◌, if◌then◌else◌, Bool-cases, arith,
}
use scarlett_os.Base.Errors.{ErrorCode, ok, invalid_arg}
use scarlett_os.Base.Update.{update, update_self}
use scarlett_os.Security.Audit.{
  AuditEvent, LogEntry, Audit, next_index, add_entry_to_log, query_from, audit_query, matches,
  log_max_entries,
}
use scarlett_os.Security.Audit.Ring.{
  Slots, Keeps, Slots-same, Slots-update, Slots-append, Slots-drop,
}

-- An entry behind the others; of 10000 the oldest is dropped.
abbrev pub push : List LogEntry → LogEntry → List LogEntry
push xs e = if leb 9999 (length xs) then drop 1 xs ++ e ∷ [] else xs ++ e ∷ []

abbrev pub new_entry : AuditEvent → Audit → LogEntry
new_entry event s = record { sequence = s.sequence; event = event }

length-drop_one : (xs : List LogEntry) → length (drop 1 xs) ≡ length xs - 1
length-drop_one [] = omega arith
length-drop_one (x ∷ xs) = omega arith

pub add_entry_to_log-Keeps :
    (event : AuditEvent) (s : Audit) (xs : List LogEntry)
    → Keeps s xs
    → Keeps (add_entry_to_log event s) (push xs (new_entry event s))
unfolding add_entry_to_log
add_entry_to_log-Keeps event s xs v =
    let e = new_entry event s in
    let written : Slots (update s.buffer s.head e) s.tail xs =
      Slots-update s.buffer s.head s.tail e xs (λ k lt z. omega (arith, v.head, v.room, v.tail))
        v.slots in
    elim (Bool-cases (leb 9999 (length xs))) [
      | inl full ↦
          let meets : (next_index s.head == s.tail) ≡ true =
            ground (arith, v.head, v.room, v.tail) in
          let shorter = length-drop_one xs in
          let place : (s.tail + 1 + length (drop 1 xs)) % 10000 ≡ s.head =
            ground (arith, v.head, v.room, v.tail, shorter) in
          rw (full, meets)
            (record {
              tail = omega arith;
              head =
                  omega
                    (arith, v.head, v.room, v.tail, shorter, length-append (drop 1 xs) (e ∷ []));
              room = omega (arith, v.room, shorter, length-append (drop 1 xs) (e ∷ []));
              slots =
                  Slots-same (update s.buffer s.head e) (s.tail + 1) (next_index s.tail)
                    (drop 1 xs ++ e ∷ []) (omega arith)
                    (Slots-append (update s.buffer s.head e) (s.tail + 1) e (drop 1 xs)
                      (ap (update s.buffer s.head e) place ∙ update_self s.buffer s.head e)
                      (Slots-drop (update s.buffer s.head e) s.tail xs written));
            })
      | inr some_room ↦
          let apart : (next_index s.head == s.tail) ≡ false =
            ground (arith, v.head, v.room, v.tail) in
          rw (some_room, apart)
            (record {
              tail = v.tail;
              head = omega (arith, v.head, length-append xs (e ∷ []));
              room = ground (arith, length-append xs (e ∷ []));
              slots =
                  Slots-append (update s.buffer s.head e) s.tail e xs
                    (ap (update s.buffer s.head e) (sym v.head) ∙ update_self s.buffer s.head e)
                    written;
            })
    ]

-- Events in a row.
abbrev pub log_all : List AuditEvent → Audit → Audit
log_all [] s = s
log_all (event ∷ events) s = log_all events (add_entry_to_log event s)

-- The same on a list, with the sequence number of the next entry.
abbrev pub push_all : List AuditEvent → ℕ → List LogEntry → List LogEntry
push_all [] sequence xs = xs
push_all (event ∷ events) sequence xs =
    push_all events ((sequence + 1) % 2 ^ 64)
      (push xs (record { sequence = sequence; event = event }))

-- Whatever is logged, the log keeps the last 9999 of the events and the entries before them, oldest
-- first, with their sequence numbers.
pub log_all_refines :
    (events : List AuditEvent) (s : Audit) (xs : List LogEntry)
    → Keeps s xs
    → Keeps (log_all events s) (push_all events s.sequence xs)
unfolding add_entry_to_log
log_all_refines [] s xs v = v
log_all_refines (event ∷ events) s xs v =
    log_all_refines events (add_entry_to_log event s) (push xs (new_entry event s))
      (add_entry_to_log-Keeps event s xs v)

-- The first entries of a list that a filter lets pass.
abbrev pub select : (LogEntry → Bool) → ℕ → List LogEntry → List LogEntry
select filter room [] = []
select filter room (x ∷ xs) =
    if room == 0
    then []
    else if filter x
    then x ∷ select filter (room - 1) xs
    else select filter room xs

query_from_lem :
    (rounds : ℕ) (filter : LogEntry → Bool) (room p : ℕ) (s : Audit) (xs : List LogEntry)
    → length xs < rounds
    → length xs < 10000
    → p < 10000
    → s.head ≡ (p + length xs) % 10000
    → Slots s.buffer p xs
    → query_from rounds filter room p s ≡ select filter room xs
unfolding query_from
query_from_lem zero filter room p s xs enough h k e slots = absurd (omega arith)
query_from_lem (suc rounds) filter room p s [] enough h k e slots =
    let end : (p == s.head) ≡ true = ground arith in rw (query_from, end) refl
query_from_lem (suc rounds) filter room p s (x ∷ xs) enough h k e (here, slots) =
    let more : (p == s.head) ≡ false = ground arith in
    let there : s.buffer p ≡ x = ap s.buffer (omega arith) ∙ here in
    let rest : (left : ℕ) → query_from rounds filter left (next_index p) s ≡ select filter left xs =
      λ left.
        query_from_lem rounds filter left (next_index p) s xs (omega arith) (omega arith)
          (omega arith) (omega arith)
          (Slots-same s.buffer (p + 1) (next_index p) xs (omega arith) slots) in
    rw (query_from, more, there, rest (room - 1), rest room) refl

-- `audit_query` answers the first entries of the log that its filters let pass, oldest first, as many as
-- there is room for.
pub audit_query_lem :
    (start_time end_time event_type uid max_results : ℕ) (s : Audit) (xs : List LogEntry)
    → s.initialized ≡ true
    → Keeps s xs
    → audit_query start_time end_time event_type uid max_results s
      ≡ (ok, select (matches start_time end_time event_type uid) max_results xs)
unfolding audit_query
audit_query_lem start_time end_time event_type uid max_results s xs on v =
    let filter = matches start_time end_time event_type uid in
    let found : query_from log_max_entries filter max_results s.tail s
        ≡ select filter max_results xs =
      query_from_lem log_max_entries filter max_results s.tail s xs v.room v.room v.tail v.head
        v.slots in
    subst
      (λ (b : Bool).
        let r : ErrorCode × List LogEntry =
          if b
          then (ok, query_from log_max_entries filter max_results s.tail s)
          else (invalid_arg, []) in
        r ≡ (ok, select filter max_results xs))
      (sym on) (ap (λ (l : List LogEntry). (ok, l)) found)
