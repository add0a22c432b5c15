-- ===== src/Sessions.antt =====
-- The operations of src/goal/sessions.py on one Session, its goal or its Unit. Arguments: `log_id` and
-- `persisted` are as for the goals, `signal_id`, `new_goal_id` and `revision` are new ids, `lower`
-- stands for `str.lower`. `none` is StoreError, which saves nothing.
pub mod Reprocess
mod Examples
use Prim.Native.String.{◌++◌ as append}
use aize.Prelude.{
  ℕ, String, Bool, true, false, ◌&&◌, not, Option, none, some, List, [], ◌∷◌, ◌==◌, string_Eq,
  if◌then◌else◌, truthy, Dict, get, put, has, contains,
}
use aize.Prelude.Int.{ℤ}
use aize.Prelude.Text.{strip}
use aize.State.{
  Goal, Session, Waiting, SchedulingPolicy, incomplete, blank_event, goal_manager_role, Event,
}
use aize.SessionLog.{Logs, append_session_log_entry, signal_entry, touch}
use aize.Endpoint.{normalize_endpoint}
use aize.Dispatch.{Store, UnitRecord, UnitSchedule}
use aize.Goals.{Held, Change, current_goal_for_session, set_goal_completion_state, event_entry}

-- `Goal(...).to_dict()`
unfoldable pub new_goal : String → String → String → String → String → Goal
new_goal goal_id session_id body created_by created_at = record {
  goal_id = goal_id;
  session_id = session_id;
  body = body;
  created_by = created_by;
  created_at = created_at;
  completion_state = incomplete;
  completion_reason = "";
  completion_reason_updated_at = "";
  completed_at = none;
  last_incomplete_at = none;
  archived_at = "";
  waiting = none;
  failed_at = none;
}

-- `_unit_paused`
unfoldable pub unit_paused : Option UnitRecord → Bool
unit_paused none = false
unit_paused (some unit) = not ((if truthy unit.status then unit.status else "active") == "active")

abbrev with_unit : Dict UnitRecord → String → Bool → Option UnitRecord → Option (Dict UnitRecord)
with_unit units unit_id active none = none
with_unit units unit_id active (some unit) =
    if unit_id == "root" && not active
    then none
    else some (put units unit_id (record unit { status = if active then "active" else "paused" }))

unfoldable pub set_unit_active : Dict UnitRecord → String → Bool → Option (Dict UnitRecord)
unfolding get put
set_unit_active units unit_id active = with_unit units unit_id active (get units unit_id)

abbrev scheduling_classes : List String
scheduling_classes = "idle" ∷ "background" ∷ "normal" ∷ "high" ∷ "critical" ∷ []

abbrev with_policy :
    Dict Session → String → SchedulingPolicy → String → Option Session → Option (Dict Session)
with_policy sessions session_id policy now none = none
with_policy sessions session_id policy now (some session) =
    some (
      put sessions session_id
        (record session { scheduling_policy = some policy; updated_at = now }))

unfoldable pub set_session_scheduling_policy :
    (String → String) → Dict Session → String → String → ℤ → String → Option (Dict Session)
unfolding get put strip contains
set_session_scheduling_policy lower sessions session_id class base_priority now =
    let normalized = lower (strip class) in
    if contains normalized scheduling_classes
    then with_policy sessions session_id
        (record { class = normalized; base_priority = base_priority }) now (get sessions session_id)
    else none

-- The new ids of one call, and its instant.
pub record Fresh : Type 0 where
  pub new_goal_id : String
  pub signal_id : String
  pub revision : String
  pub now : String

abbrev bool_text : Bool → String
bool_text true = "True"
bool_text false = "False"

abbrev joined : List String → String
joined [] = ""
joined (s ∷ ss) = append s (joined ss)

module _ (persisted : String → ℕ) (log_id : String → String → String) where
  -- `_log_session_active_change`; the actor is "system".
  unfoldable pub log_session_active_change : Logs → String → Bool → Bool → String → Logs
  unfolding append_session_log_entry
  log_session_active_change logs session_id previous active now =
      append_session_log_entry persisted logs session_id (
        event_entry (log_id session_id "SessionActiveChanged") "SessionActiveChanged" now
          (record blank_event { active = active; actor = "system" })
          (joined (
            "session-active:"
            ∷ session_id
            ∷ ":"
            ∷ now
            ∷ ":"
            ∷ bool_text previous
            ∷ "->"
            ∷ bool_text active
            ∷ [])))

  abbrev with_active : Store → String → Bool → String → Option Session → Option Store
  with_active store session_id active now none = none
  with_active store session_id active now (some session) = some (record store {
    sessions = put store.sessions session_id (record session { active = active; updated_at = now });
    session_logs =
        log_session_active_change store.session_logs session_id session.active active now;
  })

  unfoldable pub set_session_active : Store → String → Bool → String → Option Store
  unfolding log_session_active_change get put
  set_session_active store session_id active now =
      with_active store session_id active now (get store.sessions session_id)

  -- `_log_goal_body_update`, with the normalised actor
  unfoldable pub log_goal_body_update : Fresh → Logs → String → String → String → Logs
  unfolding append_session_log_entry
  log_goal_body_update f logs session_id goal_id actor =
      append_session_log_entry persisted logs session_id (
        event_entry (log_id session_id "GoalBodyUpdated") "GoalBodyUpdated" f.now
          (record blank_event { actor = actor })
          (joined ("goal-body:" ∷ goal_id ∷ ":" ∷ f.now ∷ ":" ∷ f.revision ∷ [])))

  abbrev system_change : Fresh → String → Change
  system_change f reason = record {
    reason = reason;
    actor = "system";
    run_id = "";
    now = f.now;
    defer_goal_manager = false;
  }

  abbrev finish_update : Fresh → String → Store → String → String → Goal → Option Store
  finish_update f session_id store reason key goal =
      set_goal_completion_state persisted log_id (system_change f reason)
        (record store { sessions = touch session_id f.now store.sessions }) key goal "incomplete"

  abbrev revised :
      Fresh → Store → String → String → String → String → Goal → Option String → Option Store
  revised f store session_id body created_by key goal none = none
  revised f store session_id body created_by key goal (some actor) =
      let new = record goal { body = body; created_by = created_by } in
      finish_update f session_id
        (record store {
          goals = put store.goals key new;
          session_logs = log_goal_body_update f store.session_logs session_id goal.goal_id actor;
        })
        "SessionGoal updated." key new

  abbrev updated : Fresh → Store → String → String → String → Option Held → Option Store
  updated f store session_id body created_by none =
      let new = new_goal f.new_goal_id session_id body created_by f.now in
      finish_update f session_id (record store { goals = put store.goals f.new_goal_id new })
        "SessionGoal created." f.new_goal_id new
  updated f store session_id body created_by (some (key, goal)) =
      revised f store session_id body created_by key goal (normalize_endpoint created_by session_id)

  -- `update_goal`; `is_user` tells whether `created_by` is an account.
  unfoldable pub update_goal : Fresh → Store → String → String → String → Bool → Option Store
  unfolding set_goal_completion_state log_goal_body_update current_goal_for_session new_goal
      normalize_endpoint get put has strip
  update_goal f store session_id body created_by is_user =
      if truthy (strip body)
      then if has store.sessions session_id
        then if is_user
          then updated f store session_id (strip body) created_by
              (current_goal_for_session store.goals session_id)
          else none
        else none
      else none

  abbrev pub target : Fresh → Change → Store → String → Option Held → Store × String × Goal
  target f ch store session_id none =
      let new =
        new_goal f.new_goal_id session_id "Reply to user input sent to this Session." ch.actor
          ch.now in
      (record store { goals = put store.goals f.new_goal_id new }, f.new_goal_id, new)
  target f ch store session_id (some (key, goal)) = (store, key, goal)

  abbrev pub cancel_signal : Fresh → Change → Store → String → String → Store
  cancel_signal f ch store session_id actor = record store {
    session_logs = append_session_log_entry persisted store.session_logs session_id (
        signal_entry (log_id session_id "GoalWaitingCancelled") f.signal_id "GoalWaitingCancelled"
          (goal_manager_role ∷ []) actor "" "" ch.now);
  }

  abbrev pub set_incomplete : Change → Store → String → Goal → Option Store
  set_incomplete ch store key goal =
      set_goal_completion_state persisted log_id ch store key goal "incomplete"

  abbrev pub cancelled :
      Fresh → Change → Store → String → String → Goal → Option String → Option Store
  cancelled f ch store session_id key goal none = none
  cancelled f ch store session_id key goal (some actor) =
      let awake = record goal { waiting = none } in
      set_incomplete ch
        (cancel_signal f ch (record store { goals = put store.goals key awake }) session_id actor)
        key awake

  abbrev pub reprocess :
      Fresh → Change → String → Store → String → Goal → Option Waiting → Option Store
  reprocess f ch session_id store key goal none = set_incomplete ch store key goal
  reprocess f ch session_id store key goal (some w) =
      cancelled f ch store session_id key goal (normalize_endpoint ch.actor session_id)

  -- `_mark_session_reprocess_needed`
  unfoldable pub mark_session_reprocess_needed : Fresh → Change → Store → String → Option Store
  unfolding set_goal_completion_state current_goal_for_session new_goal append_session_log_entry
      signal_entry normalize_endpoint put
  mark_session_reprocess_needed f ch store session_id =
      let (on, key, goal) =
        target f ch store session_id (current_goal_for_session store.goals session_id) in
      reprocess f ch session_id on key goal goal.waiting
