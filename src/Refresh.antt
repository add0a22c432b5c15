-- ===== src/Refresh.antt =====
-- The refresh of the readiness entries: `_refresh_dispatch_readiness` and `_expire_goal_waiting` of
-- src/goal/readiness.py. `persisted`, `log_id` and `parse_utc` are as for the goals and the
-- declarations; `signal_id` and `ready_id` give the new ids of a Session's signals and of its roles'
-- entries. A call reads the clock once. Whether anything changed, which only decides about saving, is
-- left out.
pub mod Apart
pub mod Offered
pub mod Served
pub mod Work
mod Examples
use aize.Prelude.{
  ℕ, String, Bool, true, false, ◌&&◌, ◌||◌, not, Option, none, some, List, [], ◌∷◌, ◌++◌, map, ◌==◌,
  string_Eq, if◌then◌else◌, leb, truthy, first, any, Dict, get, put, values, keep_if, contains,
}
use aize.State.{
  Status, Readiness, Waiting, Goal, Session, LogEntry, Message, Payload, Event, is_ready,
  is_acquired, role_of, holds_lease, is_incomplete, goal_manager_role, worker_agent_role,
}
use aize.SessionLog.{
  Logs, append_session_log_entry, signal_entry, session_log_after_cursor, cursor_of,
}
use aize.Projection.{DispatchLogItem, RoleDispatchReadiness, derive_role_dispatch_readiness}
use aize.Dispatch.{Run, Store, UnitRecord}
use aize.Readiness.{
  is_open, is_in_slot, remove_first, deduplicate_ready_entries, has_acquired_role_run, repair_runs,
  repair_readiness, dispatch_lease_expired, is_held, last_holder,
}
use aize.Commit.{message_for_log_entry, payload_of}
use aize.Goals.{Held, current_goals}
use aize.Sessions.{unit_paused}
use aize.Messages.{active_worker_run_for_session}

-- What `_goal_waiting_wake_reason` says: to wake or not, or the NameError of its missing import.
pub data Wake : Type 0 where
  asleep woken name_error : Wake

abbrev pub when : Bool → Wake
when true = woken
when false = asleep

abbrev is_event_message : String → LogEntry → Bool
is_event_message name e = e.kind == "Message" && elim (payload_of (message_for_log_entry e)) [
  | none ↦ false
  | some p ↦ contains name p.wake_events
]

abbrev is_child_entry : String → LogEntry → Bool
is_child_entry child e = e.kind == "ChildGoalCompleted" && elim e.event [
  | none ↦ false
  | some event ↦ not (truthy child) || event.child_session_id == child
]

abbrev pub has_passed : Option ℕ → Option ℕ → Wake
has_passed none now = name_error
has_passed (some deadline) none = name_error
has_passed (some deadline) (some now) = when (leb deadline now)

-- `current_goals` is one goal for each Session; the loops of this file run over it.
abbrev pub is_active : Option Session → Bool
is_active none = false
is_active (some session) = session.active

module _ (logs : Logs) (parse_utc : String → Option ℕ) (now : String) where
  unfoldable pub goal_waiting_wake_reason : String → Waiting → Wake
  unfolding session_log_after_cursor any contains
  goal_waiting_wake_reason session_id w =
      let unread = session_log_after_cursor logs session_id w.wake_log_seq in
      if w.kind == "deadline"
      then has_passed (parse_utc w.wait_until) (parse_utc now)
      else if w.kind == "event"
      then when (any (is_event_message w.event_name) unread)
      else if w.kind == "child"
      then when (any (is_child_entry w.child_session_id) unread)
      else asleep

-- The new ids and the instant of one call.
pub record Ids : Type 0 where
  pub now : String
  pub log_id : String → String → String
  pub signal_id : String → String → String
  pub ready_id : String → String → String

abbrev with_fields : RoleDispatchReadiness → Readiness → Readiness
with_fields f e = record e {
  from_log_seq = some f.from_log_seq;
  observed_to_seq = some f.observed_to_seq;
  wake_reasons = f.wake_reasons;
  available_after = f.available_after;
}

abbrev pub new_entry : Ids → Goal → String → RoleDispatchReadiness → Readiness
new_entry ids goal role f = record {
  readiness_id = ids.ready_id goal.session_id role;
  session_id = goal.session_id;
  goal_id = goal.goal_id;
  role = role;
  status = Status.ready;
  first_ready_at = ids.now;
  refreshed_at = ids.now;
  from_log_seq = some f.from_log_seq;
  observed_to_seq = some f.observed_to_seq;
  wake_reasons = f.wake_reasons;
  available_after = f.available_after;
  acquired_at = none;
  resolved_at = none;
  stale_at = none;
  stale_reason = "";
  failed_at = none;
  recovered_at = none;
}

abbrev pub refreshed : Ids → Goal → RoleDispatchReadiness → Readiness → Readiness
refreshed ids goal f e = record (with_fields f e) { goal_id = goal.goal_id; refreshed_at = ids.now }

-- The first entry that passes the test, changed in place.
unfoldable pub update_first :
    (Readiness → Bool) → (Readiness → Readiness) → List Readiness → List Readiness
update_first p f [] = []
update_first p f (e ∷ es) = let rest = update_first p f es in if p e then f e ∷ es else e ∷ rest

-- `_reconcile_ready_entry`; `current` is the first ready entry of the slot.
abbrev pub reconciled :
    Ids
    → Goal
    → String
    → Option RoleDispatchReadiness
    → Option Readiness
    → List Readiness
    → List Readiness
reconciled ids goal role none none es = es
reconciled ids goal role none (some current) es = remove_first (is_in_slot goal.session_id role) es
reconciled ids goal role (some f) none es = es ++ new_entry ids goal role f ∷ []
reconciled ids goal role (some f) (some current) es =
    update_first (is_in_slot goal.session_id role) (refreshed ids goal f) es

unfoldable pub reconcile_ready_entry :
    Ids → Goal → String → Option RoleDispatchReadiness → List Readiness → List Readiness
unfolding first remove_first update_first
reconcile_ready_entry ids goal role fields es =
    reconciled ids goal role fields (first (is_in_slot goal.session_id role) es) es

-- `_acquired_readiness_for_role`
abbrev pub is_taken : String → String → Readiness → Bool
is_taken session_id role e = is_acquired e.status && e.session_id == session_id && role_of e == role

unfoldable pub acquired_readiness_for_role : List Readiness → String → String → Bool
unfolding any
acquired_readiness_for_role es session_id role = any (is_taken session_id role) es

-- `_readiness_fields_from_session_log`
abbrev pub item_of : LogEntry → DispatchLogItem
item_of e = record { entry = e; message = message_for_log_entry e }

abbrev pub is_run : Option Run → Bool
is_run none = false
is_run (some run) = true

unfoldable pub readiness_fields_from_session_log :
    Store → Session → String → String → Option RoleDispatchReadiness
unfolding session_log_after_cursor derive_role_dispatch_readiness active_worker_run_for_session get
readiness_fields_from_session_log store session session_id role =
    derive_role_dispatch_readiness
      (map item_of
        (session_log_after_cursor store.session_logs session_id (cursor_of session role)))
      role session_id (is_run (active_worker_run_for_session store.dispatch_runs session_id))

-- The turn of one role of one Session, on the entries.
abbrev pub refresh_role : Ids → Store → Goal → Session → String → List Readiness → List Readiness
refresh_role ids store goal session role es =
    if has_acquired_role_run (values store.dispatch_runs) goal.session_id role
      || acquired_readiness_for_role es goal.session_id role
    then es
    else reconcile_ready_entry ids goal role
        (readiness_fields_from_session_log store session goal.session_id role) es

-- `if goal.get("archived_at") or ... or goal.get("waiting"): continue`
abbrev pub is_waiting : Option Waiting → Bool
is_waiting none = false
is_waiting (some w) = true

abbrev pub is_workable : Goal → Bool
is_workable goal =
    not (truthy goal.archived_at)
    && is_incomplete goal.completion_state
    && not (is_waiting goal.waiting)

abbrev pub refresh_session : Ids → Store → Goal → Option Session → List Readiness → List Readiness
refresh_session ids store goal none es = es
refresh_session ids store goal (some session) es =
    if session.active
    then refresh_role ids store goal session worker_agent_role
        (refresh_role ids store goal session goal_manager_role es)
    else es

abbrev pub refresh_goal : Ids → Store → Goal → List Readiness → List Readiness
refresh_goal ids store goal es =
    if is_workable goal
    then refresh_session ids store goal (get store.sessions goal.session_id) es
    else es

unfoldable pub refresh_goals : Ids → Store → List Held → List Readiness → List Readiness
unfolding reconcile_ready_entry acquired_readiness_for_role readiness_fields_from_session_log
    has_acquired_role_run get values
refresh_goals ids store [] es = es
refresh_goals ids store (h ∷ hs) es = refresh_goals ids store hs (refresh_goal ids store h.1 es)

-- The entries behind `_refresh_dispatch_readiness`, once waiting has been expired.
abbrev is_open_entry : Readiness → Bool
is_open_entry e = is_open e.status

unfoldable pub refresh_entries : Ids → Store → List Readiness
unfolding refresh_goals current_goals deduplicate_ready_entries keep_if
refresh_entries ids store =
    refresh_goals ids store (current_goals store.goals)
      (deduplicate_ready_entries (keep_if is_open_entry store.dispatch_readiness))

module _ (persisted : String → ℕ) (parse_utc : String → Option ℕ) where
  abbrev pub signal : Ids → String → String → String → Store → Store
  signal ids session_id signal_type actor store = record store {
    session_logs = append_session_log_entry persisted store.session_logs session_id (
        signal_entry (ids.log_id session_id signal_type) (ids.signal_id session_id signal_type)
          signal_type (goal_manager_role ∷ []) actor "" "" ids.now);
  }

  -- `_expire_goal_waiting`; `none` is the NameError.
  abbrev pub wake_goal : Ids → Held → Store → Wake → Option Store
  wake_goal ids h store asleep = some store
  wake_goal ids h store name_error = none
  wake_goal ids (key, goal) store woken = some (
      signal ids goal.session_id "GoalWaitingWake" "user:scheduler"
        (record store { goals = put store.goals key (record goal { waiting = none }) }))

  abbrev pub expire_one : Ids → Held → Option Waiting → Store → Option Store
  expire_one ids h none store = some store
  expire_one ids h (some w) store =
      if truthy w.kind && is_active (get store.sessions h.1.session_id)
      then wake_goal ids h store
          (goal_waiting_wake_reason store.session_logs parse_utc ids.now h.1.session_id w)
      else some store

  abbrev pub and_then : Option Store → (Store → Option Store) → Option Store
  and_then none f = none
  and_then (some store) f = f store

  unfoldable pub expire_all : Ids → List Held → Store → Option Store
  unfolding goal_waiting_wake_reason append_session_log_entry signal_entry get put
  expire_all ids [] store = some store
  expire_all ids (h ∷ hs) store = and_then (expire_one ids h h.1.waiting store) (expire_all ids hs)

  unfoldable pub expire_goal_waiting : Ids → Store → Option Store
  unfolding expire_all current_goals
  expire_goal_waiting ids store = expire_all ids (current_goals store.goals) store

  -- `_refresh_dispatch_readiness`
  abbrev with_entries : Ids → Store → Option Store
  with_entries ids store = some (record store { dispatch_readiness = refresh_entries ids store })

  unfoldable pub refresh_dispatch_readiness : Ids → Store → Option Store
  unfolding expire_goal_waiting refresh_entries
  refresh_dispatch_readiness ids store = and_then (expire_goal_waiting ids store) (with_entries ids)
