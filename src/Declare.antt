-- ===== src/Declare.antt =====
-- What a GoalManager declares during its run: `set_goal_completion_state_from_runtime` and
-- `set_goal_waiting_from_runtime` of src/goal/sessions.py. Both run under the state's lock and save
-- the run only. `lower` stands for `str.lower`, `parse_utc` for `_parse_utc` (`none` where it raises);
-- an absent run id is the empty text.
pub mod Allowed
pub mod Owner
pub mod Bounded
mod Examples
use aize.Prelude.{
  ℕ, String, Bool, true, false, ◌&&◌, ◌||◌, not, Option, none, some, [], ◌==◌, string_Eq,
  if◌then◌else◌, leb, truthy, Dict, get, put, has,
}
use aize.Prelude.Text.{strip}
use aize.State.{Waiting, Goal, holds_lease, goal_manager_role}
use aize.SessionLog.{latest_session_log_seq}
use aize.Endpoint.{normalize_agent_role}
use aize.Dispatch.{Run, Store, Declaration}
use aize.Commit.{Conflict, is_body_changed, new_requirement_conflicts_after_window}
use aize.Goals.{Held, current_goal_for_session}

pub data WaitError : Type 0 where
  bad_kind no_deadline bad_deadline past_deadline no_event no_child unknown_child : WaitError

pub data DeclareError : Type 0 where
  bad_state no_run unknown_run not_manager not_leased not_current already_declared goal_changed :
      DeclareError
  requirement_changed : Conflict → DeclareError
  bad_wait : WaitError → DeclareError

-- The saved state with the declaration, or the StoreError, which saves nothing.
pub data Declared : Type 0 where
  declared : Store → Declaration → Declared
  refused : DeclareError → Declared

-- `if not b: raise StoreError(error)`
abbrev pub guard : Bool → DeclareError → Declared → Declared
guard true error result = result
guard false error result = refused error

-- The keys of the waiting spec that is passed.
pub record WaitSpec : Type 0 where
  pub kind : String
  pub wait_until : String
  pub event_name : String
  pub child_session_id : String

-- The other arguments, with the instant of the call.
pub record Decision : Type 0 where
  pub completion_state : String
  pub reason : String
  pub actor : String
  pub run_id : String
  pub schedule_parameters : Dict String
  pub now : String

abbrev text_or : String → String → String
text_or s default = if truthy s then s else default

abbrev pub is_declared : Option Declaration → Bool
is_declared none = false
is_declared (some d) = true

abbrev pub declare : Store → String → Run → Declaration → Declared
declare store run_id run d =
    declared
      (record store {
        dispatch_runs = put store.dispatch_runs run_id (record run { declared_outcome = some d });
      })
      d

-- A waiting spec that is normalised, or StoreError.
pub data Spec : Type 0 where
  spec : Waiting → Spec
  bad_spec : WaitError → Spec

module _ (persisted : String → ℕ) (lower : String → String) (parse_utc : String → Option ℕ) where
  -- `_runtime_actor_allowed` for the role of a GoalManager, on the run of that id
  unfoldable pub runtime_actor_allowed : String → Run → Bool
  unfolding normalize_agent_role strip
  runtime_actor_allowed actor run =
      normalize_agent_role lower actor == goal_manager_role
      || (truthy run.agent_user && run.agent_user == strip actor)

  abbrev pub holds_session : String → Run → Bool
  holds_session session_id run =
      run.session_id == session_id && run.role == goal_manager_role && holds_lease run.lease_state

  abbrev pub without_conflict : Option Conflict → Declared → Declared
  without_conflict none result = result
  without_conflict (some c) result = refused (requirement_changed c)

  -- The tests that both declarations share; `rest` is what comes behind them, on the current goal.
  abbrev pub on_goal : Run → (Goal → Declared) → Option Held → Declared
  on_goal run rest none = refused not_current
  on_goal run rest (some (key, goal)) =
      guard (goal.goal_id == run.goal_id) not_current
        (guard (not (is_declared run.declared_outcome)) already_declared (rest goal))

  abbrev pub on_run : Store → String → String → (Run → Goal → Declared) → Option Run → Declared
  on_run store session_id actor rest none = refused unknown_run
  on_run store session_id actor rest (some run) =
      guard (runtime_actor_allowed actor run) not_manager (
        guard (holds_session session_id run) not_leased
          (on_goal run (rest run) (current_goal_for_session store.goals session_id)))

  abbrev pub outcome : Decision → Declaration
  outcome d = record {
    completion_state = d.completion_state;
    reason = text_or (strip d.reason) "GoalManager recorded a completion decision.";
    schedule_parameters = d.schedule_parameters;
    wait = none;
    declared_by = text_or (strip d.actor) goal_manager_role;
    declared_at = d.now;
  }

  abbrev pub decide_goal : Store → String → Decision → Run → Goal → Declared
  decide_goal store session_id d run goal =
      guard (not (is_body_changed persisted goal run.observed_goal_body)) goal_changed (
        without_conflict
          (new_requirement_conflicts_after_window persisted store.session_logs session_id d.run_id
            run.observed_to_seq)
          (declare store d.run_id run (outcome d)))

  abbrev pub is_completion_state : String → Bool
  is_completion_state text = text == "complete" || text == "incomplete"

  unfoldable pub set_goal_completion_state_from_runtime : Store → String → Decision → Declared
  unfolding runtime_actor_allowed current_goal_for_session new_requirement_conflicts_after_window
      get put strip
  set_goal_completion_state_from_runtime store session_id d =
      guard (is_completion_state d.completion_state) bad_state (
        guard (truthy d.run_id) no_run (
          on_run store session_id d.actor (decide_goal store session_id d)
            (get store.dispatch_runs d.run_id)))

  -- `_normalize_goal_waiting_spec_locked`
  abbrev pub blank_wait : Store → String → String → Waiting
  blank_wait store session_id kind = record {
    kind = kind;
    wait_until = "";
    event_name = "";
    child_session_id = "";
    wake_log_seq = latest_session_log_seq persisted store.session_logs session_id;
    reason = "";
    declared_at = "";
    declared_run_id = "";
  }

  -- `deadline <= now` on two parsed instants.
  abbrev pub in_future : Option ℕ → Option ℕ → Spec → Spec
  in_future none now result = bad_spec bad_deadline
  in_future (some deadline) none result = bad_spec bad_deadline
  in_future (some deadline) (some now) result =
      if leb deadline now then bad_spec past_deadline else result

  abbrev pub deadline_spec : String → String → Waiting → Spec
  deadline_spec now wait_until blank =
      if truthy wait_until
      then in_future (parse_utc wait_until) (parse_utc now)
          (spec (record blank { wait_until = wait_until }))
      else bad_spec no_deadline

  abbrev pub event_spec : String → Waiting → Spec
  event_spec event_name blank =
      if truthy event_name
      then spec (record blank { event_name = event_name })
      else bad_spec no_event

  abbrev pub child_spec : Store → String → Waiting → Spec
  child_spec store child blank =
      if truthy child
      then if has store.sessions child
        then spec (record blank { child_session_id = child })
        else bad_spec unknown_child
      else bad_spec no_child

  unfoldable pub normalize_goal_waiting_spec : Store → String → String → WaitSpec → Spec
  unfolding latest_session_log_seq strip has
  normalize_goal_waiting_spec store session_id now wait =
      let kind = lower (strip wait.kind) in
      let blank = blank_wait store session_id kind in
      if kind == "deadline"
      then deadline_spec now (strip wait.wait_until) blank
      else if kind == "event"
      then event_spec (strip wait.event_name) blank
      else if kind == "child"
      then child_spec store (strip wait.child_session_id) blank
      else bad_spec bad_kind

  abbrev pub waiting_outcome : Decision → Waiting → Declaration
  waiting_outcome d wait = record {
    completion_state = "waiting";
    reason = text_or (strip d.reason) "GoalManager recorded a waiting decision.";
    schedule_parameters = [];
    wait = some wait;
    declared_by = text_or (strip d.actor) goal_manager_role;
    declared_at = d.now;
  }

  abbrev pub decide_wait : Store → Decision → Run → Spec → Declared
  decide_wait store d run (spec wait) = declare store d.run_id run (waiting_outcome d wait)
  decide_wait store d run (bad_spec error) = refused (bad_wait error)

  abbrev pub wait_goal : Store → String → Decision → WaitSpec → Run → Goal → Declared
  wait_goal store session_id d wait run goal =
      decide_wait store d run (normalize_goal_waiting_spec store session_id d.now wait)

  -- `set_goal_waiting_from_runtime`; the state and the parameters of `d` are not read.
  unfoldable pub set_goal_waiting_from_runtime : Store → String → Decision → WaitSpec → Declared
  unfolding runtime_actor_allowed current_goal_for_session normalize_goal_waiting_spec get put strip
  set_goal_waiting_from_runtime store session_id d wait = guard (truthy d.run_id) no_run (
      on_run store session_id d.actor (wait_goal store session_id d wait)
        (get store.dispatch_runs d.run_id))
