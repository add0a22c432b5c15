-- ===== src/SessionLog/Examples.antt =====
-- Tests of the SessionLogs, and their theorems at concrete logs.
use aize.Prelude.{ℕ, max, String, ◌≡◌, refl, ◌≢◌, true, none, some, [], ◌∷◌, arith, Dict, get}
use aize.State.{LogEntry, Session, goal_manager_role, no_timing}
use aize.SessionLog.{
  Logs, log_of, append_session_log_entry, session_log_after_cursor, signal_entry, set_role_cursor,
  cursor_of,
}
use aize.SessionLog.Cursor.{
  Rising, IsAppend, append_session_log_entry-IsAppend, set_role_cursor_raises,
}

abbrev on_disk : String → ℕ
on_disk sid = 4

abbrev signal : String → LogEntry
signal id =
    signal_entry id id "Recovered" (goal_manager_role ∷ "other" ∷ []) "dispatcher" "" "" "t1"

abbrev logs : Logs
logs = append_session_log_entry on_disk [] "s1" (signal "a")

numbered :
    session_log_after_cursor (append_session_log_entry on_disk logs "s1" (signal "b")) "s1" 5
    ≡ record (signal "b") { seq = 6; session_id = "s1" } ∷ []
unfolding append_session_log_entry session_log_after_cursor signal_entry
numbered = refl

logged_once : append_session_log_entry on_disk logs "s1" (signal "a") ≡ logs
unfolding append_session_log_entry signal_entry
logged_once = refl

logs-Rising : Rising 0 (log_of logs "s1")
unfolding append_session_log_entry signal_entry
logs-Rising = (omega arith, tt)

append_session_log_entry-IsAppend_example :
    IsAppend on_disk logs "s1" (append_session_log_entry on_disk logs "s1" (signal "b"))
append_session_log_entry-IsAppend_example =
    append_session_log_entry-IsAppend on_disk logs "s1" (signal "b") logs-Rising

abbrev session : Session
session = record {
  session_id = "s1";
  unit_id = "";
  created_at = "t0";
  updated_at = "t0";
  active = true;
  scheduling_policy = none;
  role_cursors = (goal_manager_role, 7) ∷ [];
  schedule_timing = no_timing;
}

abbrev sessions : Dict Session
sessions = ("s1", session) ∷ []

there : get sessions "s1" ≡ some session
unfolding get
there = refl

set_role_cursor_raises_example :
    ((t : String)
      → t ≢ "s1"
      → get (set_role_cursor sessions "s1" goal_manager_role 5) t ≡ get sessions t)
    × ((s' : Session) × (get (set_role_cursor sessions "s1" goal_manager_role 5) "s1" ≡ some s')
        × (cursor_of s' goal_manager_role ≡ max (cursor_of session goal_manager_role) 5)
        × ((key : String) → key ≢ goal_manager_role → cursor_of s' key ≡ cursor_of session key))
set_role_cursor_raises_example = set_role_cursor_raises sessions "s1" goal_manager_role 5 there
