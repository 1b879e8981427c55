-- ===== src/Security/Audit.antt =====
-- kernel/security/audit.c. The buffer is a function of the index; the time that an entry gets is an
-- argument. Flushing the log to a file is left out.
pub mod Ring
pub mod Refines
mod Tests
use scarlett_os.Base.{
  ℕ, zero, suc, ◌+◌, ◌-◌, ◌%◌, ◌^◌, Bool, true, false, not, ◌&&◌, ◌||◌, Option, none, some, List,
  [], ◌∷◌, ltb, leb, ◌==◌, if◌then◌else◌, take,
}
use scarlett_os.Base.Errors.{ErrorCode, ok, invalid_arg, not_initialized}
use scarlett_os.Base.Update.{update}

-- `AUDIT_LOG_MAX_ENTRIES`
abbrev pub log_max_entries : ℕ
log_max_entries = 10000

-- `AUDIT_EVENT_MAX`
abbrev pub event_max : ℕ
event_max = 17

-- `audit_event_t`; a text is its bytes before the zero that ends it.
pub record AuditEvent : Type 0 where
  pub timestamp : ℕ
  pub event_type : ℕ
  pub uid : ℕ
  pub gid : ℕ
  pub pid : ℕ
  pub result : ℕ
  pub subject : List ℕ
  pub object : List ℕ
  pub action : List ℕ
  pub details : List ℕ

-- `audit_log_entry_t`
pub record LogEntry : Type 0 where
  pub sequence : ℕ
  pub event : AuditEvent

abbrev pub no_event : AuditEvent
no_event = record {
  timestamp = 0;
  event_type = 0;
  uid = 0;
  gid = 0;
  pid = 0;
  result = 0;
  subject = [];
  object = [];
  action = [];
  details = [];
}

-- The file's static variables.
pub record Audit : Type 0 where
  pub buffer : ℕ → LogEntry
  pub head : ℕ
  pub tail : ℕ
  pub sequence : ℕ
  pub enabled : Bool
  pub initialized : Bool
  pub total_events : ℕ
  pub failed_events : ℕ
  pub last_event_time : ℕ

abbrev pub cleared : Audit → Audit
cleared s = record s {
  buffer = λ i. record { sequence = 0; event = no_event };
  head = 0;
  tail = 0;
  sequence = 0;
  total_events = 0;
  failed_events = 0;
  last_event_time = 0;
}

-- `audit_init`
unfoldable pub audit_init : Audit → ErrorCode × Audit
audit_init s =
    if s.initialized
    then (ok, s)
    else (ok, record (cleared s) { enabled = true; initialized = true })

-- `audit_clear`
unfoldable pub audit_clear : Audit → ErrorCode × Audit
audit_clear s = if s.initialized then (ok, cleared s) else (not_initialized, s)

-- `strncpy` into an array that was cleared and has room for `room` bytes and a zero; a null pointer is
-- `none`.
abbrev pub text : ℕ → Option (List ℕ) → List ℕ
text room none = []
text room (some bytes) = take room bytes

abbrev pub make_event :
    (timestamp event_type uid gid pid result : ℕ)
    → (subject object action details : Option (List ℕ)) → AuditEvent
make_event timestamp event_type uid gid pid result subject object action details = record {
  timestamp = timestamp;
  event_type = event_type;
  uid = uid;
  gid = gid;
  pid = pid;
  result = result;
  subject = text 63 subject;
  object = text 255 object;
  action = text 63 action;
  details = text 511 details;
}

abbrev pub next_index : ℕ → ℕ
next_index i = (i + 1) % log_max_entries

-- The part of `audit_log` that puts the event into the buffer.
unfoldable pub add_entry_to_log : AuditEvent → Audit → Audit
add_entry_to_log event s = record s {
  buffer = update s.buffer s.head (record { sequence = s.sequence; event = event });
  head = next_index s.head;
  tail = if next_index s.head == s.tail then next_index s.tail else s.tail;
  sequence = (s.sequence + 1) % 2 ^ 64;
  total_events = (s.total_events + 1) % 2 ^ 64;
  failed_events = if event.result == 0 then s.failed_events else (s.failed_events + 1) % 2 ^ 64;
  last_event_time = event.timestamp;
}

-- `audit_log`
unfoldable pub audit_log : AuditEvent → Audit → ErrorCode × Audit
unfolding add_entry_to_log
audit_log event s =
    if not s.initialized || not s.enabled
    then (ok, s)
    else if leb event_max event.event_type
    then (invalid_arg, s)
    else (ok, add_entry_to_log event s)

-- The filters of `audit_query`.
abbrev pub matches : (start_time end_time event_type uid : ℕ) → LogEntry → Bool
matches start_time end_time event_type uid entry =
    not (ltb 0 start_time && ltb entry.event.timestamp start_time)
    && (not (ltb 0 end_time && ltb end_time entry.event.timestamp)
        && (not (ltb event_type event_max && not (entry.event.event_type == event_type))
            && not (not (uid == 0) && not (entry.event.uid == uid))))

-- The loop of `audit_query`: the rounds left and the room left in the results.
unfoldable pub query_from :
    (rounds : ℕ) → (LogEntry → Bool) → (max_results current : ℕ) → Audit → List LogEntry
query_from zero filter max_results current s = []
query_from (suc rounds) filter max_results current s =
    let taken = query_from rounds filter (max_results - 1) (next_index current) s in
    let passed = query_from rounds filter max_results (next_index current) s in
    if current == s.head || max_results == 0
    then []
    else if filter (s.buffer current)
    then s.buffer current ∷ taken
    else passed

-- `audit_query` with its two result pointers.
unfoldable pub audit_query :
    (start_time end_time event_type uid max_results : ℕ) → Audit → ErrorCode × List LogEntry
audit_query start_time end_time event_type uid max_results s =
    if s.initialized
    then (
      ok,
      query_from log_max_entries (matches start_time end_time event_type uid) max_results s.tail s,
    )
    else (invalid_arg, [])

-- `audit_get_stats`
unfoldable pub audit_get_stats : Audit → ErrorCode × (ℕ × ℕ × ℕ)
audit_get_stats s =
    if s.initialized
    then (ok, (s.total_events, s.failed_events, s.last_event_time))
    else (not_initialized, (0, 0, 0))

unfoldable pub audit_enable : Audit → ErrorCode × Audit
audit_enable s = if s.initialized then (ok, record s { enabled = true }) else (not_initialized, s)

unfoldable pub audit_disable : Audit → ErrorCode × Audit
audit_disable s = if s.initialized then (ok, record s { enabled = false }) else (not_initialized, s)

unfoldable pub audit_is_enabled : Audit → Bool
audit_is_enabled s = s.initialized && s.enabled
