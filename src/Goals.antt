-- ===== src/Goals.antt =====
-- The goals of src/goal/sessions.py: the current goal of a Session, its completion state, and the
-- reopening of the parents' goals when a child completes, with the entries of src/goal/log.py.
-- `log_id` gives the id of the new entry of a kind in a Session's log; `persisted` is as for the
-- SessionLogs. A transaction reads the clock once. `current_state`, which is only shown, is left out.
pub mod Current
pub mod Parents
pub mod Lineage
pub mod Reopen
pub mod Kept
mod Examples
use Prim.Native.String.{◌++◌ as append}
use aize.Prelude.{
  ℕ, String, Bool, true, false, ◌&&◌, not, Option, none, some, List, [], ◌∷◌, map, ◌==◌, string_Eq,
  if◌then◌else◌, truthy, Dict, get, put, contains, keep_if,
}
use aize.Prelude.Order.{Order, str_Order, pair_Order}
use aize.Prelude.Sort.{sort_by, insert_by, last_of}
use aize.State.{
  Goal, Session, Completion, complete, incomplete, is_incomplete, Event, LogEntry, blank_event,
  goal_manager_role, Waiting,
}
use aize.Graph.{Edge}
use aize.Endpoint.{normalize_role_endpoint}
use aize.SessionLog.{Logs, append_session_log_entry, append_entry, touch, signal_entry}
use aize.Readiness.{resolve_dispatch_readiness}
use aize.Dispatch.{Store}

-- A goal and the key it stands under.
abbrev pub Held : Type 0
Held = String × Goal

abbrev pub age : Held → String × String
age h = (h.1.created_at, h.1.goal_id)

abbrev pub held_Order : Order (String × String)
held_Order = pair_Order str_Order str_Order

abbrev pub is_open_goal : Held → Bool
is_open_goal h = not (truthy h.1.archived_at)

abbrev pub is_goal_of : String → Held → Bool
is_goal_of session_id h = h.1.session_id == session_id && is_open_goal h

-- `_current_goal_for_session`
unfoldable pub current_goal_for_session : Dict Goal → String → Option Held
unfolding keep_if sort_by last_of
current_goal_for_session goals session_id =
    last_of (sort_by held_Order age (keep_if (is_goal_of session_id) goals))

-- `_current_goals`: the last goal of each Session, in the order of the Sessions.
unfoldable pub by_session : Dict Held → List Held → Dict Held
unfolding put
by_session found [] = found
by_session found (h ∷ hs) =
    by_session (if truthy h.1.session_id then put found h.1.session_id h else found) hs

abbrev pub name_of : String × Held → String
name_of p = p.0

unfoldable pub current_goals : Dict Goal → List Held
unfolding by_session sort_by keep_if
current_goals goals =
    map (λ (p : String × Held). p.1)
      (sort_by str_Order name_of
        (by_session [] (sort_by held_Order age (keep_if is_open_goal goals))))

-- `_parent_session_ids`
abbrev pub is_parent_edge : String → Edge → Bool
is_parent_edge child e = e.child_session_id == child && truthy e.parent_session_id

unfoldable pub distinct : List String → List String
unfolding contains
distinct [] = []
distinct (s ∷ ss) = let rest = distinct ss in if contains s rest then rest else s ∷ rest

unfoldable pub parent_session_ids : List Edge → String → List String
unfolding sort_by distinct keep_if
parent_session_ids edges child =
    sort_by str_Order (λ s. s)
      (distinct (map (λ (e : Edge). e.parent_session_id) (keep_if (is_parent_edge child) edges)))

-- The arguments of `_set_goal_completion_state`: the new ids, and `actor` as it is passed. An absent
-- run id is the empty text.
pub record Change : Type 0 where
  pub reason : String
  pub actor : String
  pub run_id : String
  pub now : String
  pub defer_goal_manager : Bool

unfoldable pub completion_text : Completion → String
completion_text complete = "complete"
completion_text incomplete = "incomplete"

unfoldable pub completion_of : String → Option Completion
completion_of text =
    if text == "complete"
    then some complete
    else if text == "incomplete"
    then some incomplete
    else none

-- `_goal_state_event_key`
abbrev goal_state_event_key : Change → Goal → String → String
goal_state_event_key ch goal text = append "goal-state:" (
    append goal.goal_id (
      append ":" (
        append ch.now
          (append ":" (append text (append ":" (append ch.run_id (append ":" ch.actor))))))))

abbrev state_event : Change → String → Event
state_event ch text = record blank_event {
  completion_state = text;
  actor = ch.actor;
  run_id = ch.run_id;
  defer_goal_manager_until_worker_report = ch.defer_goal_manager;
  reason = ch.reason;
}

abbrev pub event_entry : String → String → String → Event → String → LogEntry
event_entry log_id kind now event key = record {
  log_id = log_id;
  seq = 0;
  session_id = "";
  kind = kind;
  created_at = now;
  message_id = "";
  event = some event;
  event_key = key;
  message = none;
}

abbrev with_state : Change → Completion → Goal → Goal
with_state ch complete goal = record goal {
  completion_state = complete;
  completion_reason = ch.reason;
  completion_reason_updated_at = ch.now;
  completed_at = some ch.now;
}
with_state ch incomplete goal = record goal {
  completion_state = incomplete;
  completion_reason = ch.reason;
  completion_reason_updated_at = ch.now;
  completed_at = none;
  last_incomplete_at = some ch.now;
}

abbrev child_event : Change → Goal → Event
child_event ch goal = record blank_event {
  child_session_id = goal.session_id;
  completion_state = "complete";
  actor = ch.actor;
  run_id = ch.run_id;
}

module _ (persisted : String → ℕ) (log_id : String → String → String) where
  -- `_log_goal_state_transition`, with the normalised actor in `ch`
  unfoldable pub log_goal_state_transition : Change → Logs → Goal → String → Logs
  unfolding append_session_log_entry
  log_goal_state_transition ch logs goal text =
      if truthy goal.session_id
      then append_session_log_entry persisted logs goal.session_id (
          event_entry (log_id goal.session_id "GoalStateChanged") "GoalStateChanged" ch.now
            (state_event ch text) (goal_state_event_key ch goal text))
      else logs

  abbrev resolved_if : Completion → Change → Goal → Store → Store
  resolved_if incomplete ch goal store = store
  resolved_if complete ch goal store = record store {
    dispatch_readiness = resolve_dispatch_readiness goal.goal_id ch.now store.dispatch_readiness;
  }

  -- `_set_goal_completion_state` up to its last `if`.
  unfoldable pub apply_state : Change → Completion → Store → String → Goal → Store
  unfolding log_goal_state_transition resolve_dispatch_readiness put get completion_text
  apply_state ch state store key goal =
      let resolved = resolved_if state ch goal store in
      record resolved {
        goals = put store.goals key (with_state ch state goal);
        sessions = touch goal.session_id ch.now store.sessions;
        session_logs = log_goal_state_transition ch store.session_logs goal (completion_text state);
      }

  -- One parent in the loop of `_log_child_goal_completed_for_parents`.
  abbrev tell_known : Change → Goal → String → Option Session → Store → Store
  tell_known ch goal parent none store = store
  tell_known ch goal parent (some session) store = record store {
    session_logs = append_session_log_entry persisted store.session_logs parent (
        event_entry (log_id parent "ChildGoalCompleted") "ChildGoalCompleted" ch.now
          (child_event ch goal)
          (append "child-goal-completed:"
            (append parent (append ":" (append goal.goal_id (append ":" ch.now))))));
    sessions = touch parent ch.now store.sessions;
  }

  unfoldable pub tell_parents : Change → Goal → List String → Store → Store
  unfolding get append_session_log_entry put
  tell_parents ch goal [] store = store
  tell_parents ch goal (parent ∷ parents) store =
      tell_parents ch goal parents (tell_known ch goal parent (get store.sessions parent) store)

  unfoldable pub log_child_goal_completed_for_parents : Change → Goal → Store → Store
  unfolding tell_parents parent_session_ids
  log_child_goal_completed_for_parents ch goal store =
      if truthy goal.session_id && truthy goal.goal_id
      then tell_parents ch goal (parent_session_ids store.session_edges goal.session_id) store
      else store

  abbrev pub parent_change : Change → String → Change
  parent_change ch child = record {
    reason = append "Child SessionGoal " (append child " completed and requires parent review.");
    actor = "system";
    run_id = "";
    now = ch.now;
    defer_goal_manager = false;
  }

  -- One parent in the loop of `_reopen_completed_parent_goals_for_child`. The call sets "incomplete",
  -- so that it does not reach the last `if` of `_set_goal_completion_state` again.
  abbrev pub reopen_goal : Change → String → Option Held → Store → Store
  reopen_goal ch child none store = store
  reopen_goal ch child (some (key, goal)) store =
      if is_incomplete goal.completion_state
      then store
      else apply_state (parent_change ch child) incomplete store key goal

  unfoldable pub reopen_parents : Change → String → List String → Store → Store
  unfolding apply_state current_goal_for_session
  reopen_parents ch child [] store = store
  reopen_parents ch child (parent ∷ parents) store =
      reopen_parents ch child parents
        (reopen_goal ch child (current_goal_for_session store.goals parent) store)

  unfoldable pub reopen_completed_parent_goals_for_child : Change → Goal → Store → Store
  unfolding reopen_parents parent_session_ids
  reopen_completed_parent_goals_for_child ch goal store =
      reopen_parents ch goal.session_id (parent_session_ids store.session_edges goal.session_id)
        store

  -- The last `if`: a goal that was incomplete has been completed.
  abbrev pub spread : Change → Completion → Completion → Goal → Store → Store
  spread ch complete incomplete goal store =
      reopen_completed_parent_goals_for_child ch goal
        (log_child_goal_completed_for_parents ch goal store)
  spread ch complete complete goal store = store
  spread ch incomplete previous goal store = store

  abbrev pub set_parsed :
      Change → Option Completion → Option String → Store → String → Goal → Option Store
  set_parsed ch none actor store key goal = none
  set_parsed ch (some state) none store key goal = none
  set_parsed ch (some state) (some actor) store key goal =
      let named = record ch { actor = actor } in
      some (spread named state goal.completion_state goal (apply_state named state store key goal))

  -- `_set_goal_completion_state` of the goal under `key`; `none` is StoreError, which saves nothing.
  unfoldable pub set_goal_completion_state : Change → Store → String → Goal → String → Option Store
  unfolding completion_of normalize_role_endpoint apply_state
      reopen_completed_parent_goals_for_child log_child_goal_completed_for_parents
  set_goal_completion_state ch store key goal text =
      set_parsed ch (completion_of text) (normalize_role_endpoint ch.actor goal.session_id) store
        key goal
