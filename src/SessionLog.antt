-- ===== src/SessionLog.antt =====
-- The in-memory SessionLogs of src/kernel/session_log.py and the signals that src/goal/log.py puts in
-- them. `persisted` is what `storage.latest_session_log_seq` gives for a Session. A log whose entries
-- are all in memory is meant (its Session is in `_session_log_full_ids`).
pub mod Cursor
mod Examples
use Prim.Native.String.{◌++◌ as append}
use aize.Prelude.{
  ℕ, suc, ◌+◌, max, String, Bool, true, false, ◌&&◌, ◌||◌, Option, none, some, List, [], ◌∷◌, ◌++◌,
  ◌==◌, string_Eq, if◌then◌else◌, ltb, truthy, any, keep_if, Dict, get, put, first, contains,
}
use aize.Prelude.Text.{strip}
use aize.State.{
  LogEntry, Event, Message, Session, goal_manager_role, worker_agent_role, blank_event,
}

abbrev pub Logs : Type 0
Logs = Dict (List LogEntry)

abbrev pub entries_of : Option (List LogEntry) → List LogEntry
entries_of none = []
entries_of (some entries) = entries

-- `state["session_logs"].setdefault(session_id, [])`
abbrev pub log_of : Logs → String → List LogEntry
log_of logs sid = entries_of (get logs sid)

unfoldable pub last_seq : List LogEntry → ℕ
last_seq [] = 0
last_seq (e ∷ []) = e.seq
last_seq (e ∷ f ∷ es) = last_seq (f ∷ es)

abbrev pub next_seq : ℕ → List LogEntry → ℕ
next_seq persisted entries = suc (max persisted (last_seq entries))

-- The two tests that make an append do nothing.
abbrev pub is_logged : LogEntry → List LogEntry → Bool
is_logged new entries =
    (truthy new.message_id
      && any (λ (e : LogEntry). e.kind == "Message" && e.message_id == new.message_id) entries)
    || (truthy new.event_key && any (λ (e : LogEntry). e.event_key == new.event_key) entries)

-- `_append_session_log_entry`: `new` holds the arguments and the new log id; its number is given here.
unfoldable pub append_entry : (String → ℕ) → String → LogEntry → List LogEntry → List LogEntry
unfolding last_seq any
append_entry persisted sid new entries =
    if is_logged new entries
    then entries
    else entries ++ record new { seq = next_seq (persisted sid) entries; session_id = sid } ∷ []

unfoldable pub append_session_log_entry : (String → ℕ) → Logs → String → LogEntry → Logs
unfolding append_entry get put
append_session_log_entry persisted logs sid new =
    put logs sid (append_entry persisted sid new (log_of logs sid))

-- `_log_message_for_session`: the returned entry is the last one, which then embeds the Message.
abbrev embed : Message → List LogEntry → List LogEntry
embed m [] = []
embed m (e ∷ []) = record e { message = some m } ∷ []
embed m (e ∷ f ∷ es) = e ∷ embed m (f ∷ es)

abbrev message_entry : String → Message → LogEntry
message_entry log_id m = record {
  log_id = log_id;
  seq = 0;
  session_id = "";
  kind = "Message";
  created_at = m.created_at;
  message_id = m.message_id;
  event = none;
  event_key = "";
  message = none;
}

unfoldable pub log_message_for_session : (String → ℕ) → Logs → String → String → Message → Logs
unfolding append_entry get put
log_message_for_session persisted logs sid log_id m =
    put logs sid (embed m (append_entry persisted sid (message_entry log_id m) (log_of logs sid)))

-- `_session_log_after_cursor`
unfoldable pub session_log_after_cursor : Logs → String → ℕ → List LogEntry
unfolding keep_if get
session_log_after_cursor logs sid cursor =
    keep_if (λ (e : LogEntry). ltb cursor e.seq) (log_of logs sid)

-- `_latest_session_log_seq`
unfoldable pub latest_session_log_seq : (String → ℕ) → Logs → String → ℕ
unfolding last_seq get
latest_session_log_seq persisted logs sid = max (persisted sid) (last_seq (log_of logs sid))

abbrev pub number_of : Option ℕ → ℕ
number_of none = 0
number_of (some n) = n

-- `int(session["role_cursors"].get(key) or 0)`
abbrev pub cursor_of : Session → String → ℕ
cursor_of session key = number_of (get session.role_cursors key)

-- `_ensure_role_cursors`, and `_set_role_cursor` with `_set_session_log_cursor`.
abbrev pub or_zero : String → Dict ℕ → Option ℕ → Dict ℕ
or_zero role cursors none = put cursors role 0
or_zero role cursors (some n) = cursors

abbrev pub default_cursor : String → Dict ℕ → Dict ℕ
default_cursor role cursors = or_zero role cursors (get cursors role)

abbrev pub ensure_role_cursors : Session → Session
ensure_role_cursors s = record s {
  role_cursors = default_cursor worker_agent_role (default_cursor goal_manager_role s.role_cursors);
}

abbrev pub raise_cursor : String → ℕ → Session → Session
raise_cursor role seq s = record s {
  role_cursors = put s.role_cursors role (max (cursor_of s role) seq);
}

abbrev pub with_session : Dict Session → String → String → ℕ → Option Session → Dict Session
with_session sessions sid role seq none = sessions
with_session sessions sid role seq (some s) =
    put sessions sid (raise_cursor role seq (ensure_role_cursors s))

unfoldable pub set_role_cursor : Dict Session → String → String → ℕ → Dict Session
unfolding get put
set_role_cursor sessions sid role seq = with_session sessions sid role seq (get sessions sid)

-- `session["updated_at"] = now`, where the Session is there.
abbrev pub touched : String → String → Option Session → Dict Session → Dict Session
touched sid now none sessions = sessions
touched sid now (some s) sessions = put sessions sid (record s { updated_at = now })

abbrev pub touch : String → String → Dict Session → Dict Session
touch sid now sessions = touched sid now (get sessions sid) sessions

abbrev is_role : String → Bool
is_role role = role == goal_manager_role || role == worker_agent_role

abbrev some_roles : List String → List String
some_roles [] = goal_manager_role ∷ []
some_roles (r ∷ rs) = r ∷ rs

-- The entry of `_log_system_signal`: `available_after` is the key of that name of `data`, `actor` the
-- normalised endpoint.
unfoldable pub signal_entry :
    String → String → String → List String → String → String → String → String → LogEntry
unfolding keep_if
signal_entry log_id signal_id signal_type target_roles actor run_id available_after created_at =
    record {
      log_id = log_id;
      seq = 0;
      session_id = "";
      kind = "SystemSignal";
      created_at = created_at;
      message_id = "";
      event = some (record blank_event {
        actor = actor;
        run_id = run_id;
        signal_type = signal_type;
        target_roles = some (some_roles (keep_if is_role target_roles));
        available_after = available_after;
      });
      event_key = append "system-signal:" signal_id;
      message = none;
    }
