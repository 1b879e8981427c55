-- ===== src/Security/Audit/Tests.antt =====
-- Runs of the functions of kernel/security/audit.c.
use scarlett_os.Base.{ℕ, ◌≡◌, refl, true, none, some, List, [], ◌∷◌, arith}
use scarlett_os.Base.Errors.{ok}
use scarlett_os.Security.Audit.{
  AuditEvent, LogEntry, Audit, make_event, no_event, audit_query, matches,
}
use scarlett_os.Security.Audit.Ring.{Keeps}
use scarlett_os.Security.Audit.Refines.{log_all, push_all, log_all_refines, select, audit_query_lem}

-- The log after `audit_init`.
abbrev empty_log : Audit
empty_log = record {
  buffer = λ i. record { sequence = 0; event = no_event };
  head = 0;
  tail = 0;
  sequence = 0;
  enabled = true;
  initialized = true;
  total_events = 0;
  failed_events = 0;
  last_event_time = 0;
}

empty_log-Keeps : Keeps empty_log []
empty_log-Keeps = record { tail = omega arith; head = refl; room = omega arith; slots = tt }

-- A login of user 1000 and a refused access.
abbrev two_events : List AuditEvent
two_events =
    make_event 5 0 1000 100 7 0 (some (65 ∷ [])) none none none
    ∷ make_event 6 10 1000 100 7 3 none none none none
    ∷ []

log_all_refines_example : Keeps (log_all two_events empty_log) (push_all two_events 0 [])
log_all_refines_example = log_all_refines two_events empty_log [] empty_log-Keeps

-- The same log, written out.
abbrev written : Audit
written = record empty_log {
  buffer = λ i. record { sequence = i; event = make_event 5 i 1000 100 7 0 none none none none };
  head = 2;
}

abbrev entry_at : ℕ → LogEntry
entry_at i = record { sequence = i; event = make_event 5 i 1000 100 7 0 none none none none }

audit_query_lem_example :
    audit_query 0 0 17 1000 8 written
    ≡ (ok, select (matches 0 0 17 1000) 8 (entry_at 0 ∷ entry_at 1 ∷ []))
audit_query_lem_example =
    audit_query_lem 0 0 17 1000 8 written (entry_at 0 ∷ entry_at 1 ∷ []) refl
      (record { tail = omega arith; head = refl; room = omega arith; slots = (refl, (refl, tt)) })
