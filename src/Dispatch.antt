-- ===== src/Dispatch.antt =====
-- Dispatch leases: the selection of src/goal/readiness.py and `_acquire_dispatch_lease_locked` of
-- src/goal/dispatch.py. Left out: the agent threads, the Messages that go into the prompt, the timing
-- notes of a schedule (`queued_at`, `started_at`), and keys that are only shown (`dispatched_at`).
pub mod Grants
pub mod Exclusive
pub mod Examples
use aize.Prelude.{
  ℕ, zero, suc, ◌+◌, ◌*◌, String, Bool, true, false, ◌&&◌, ◌||◌, not, Option, none, some, List, [],
  ◌∷◌, ◌++◌, map, ◌==◌, string_Eq, if◌then◌else◌, leb, truthy, any, keep_if, Dict, get, put, has,
  values, get_elem?, first,
}
use aize.Prelude.Int.{ℤ}
use aize.Prelude.Text.{strip}
use aize.State.{
  Status, Lease, holds_lease, is_acquired, Readiness, Goal, Session, LogEntry, Message, Event,
  WakeReason, Payload, Waiting, role_of, goal_manager_role, worker_agent_role, Completion,
  incomplete,
}
use aize.Graph.{Edge}
use aize.Schedule.{UnitParameters}
use aize.Policy.{SchedulingDecision, select_role_dispatch_readiness, is_offered, Reason}
use aize.SessionLog.{
  Logs, session_log_after_cursor, latest_session_log_seq, set_role_cursor, append_session_log_entry,
  signal_entry,
}

-- What a GoalManager declared of its run: `wait` is the normalised waiting spec.
pub record Declaration : Type 0 where
  pub completion_state : String
  pub reason : String
  pub schedule_parameters : Dict String
  pub wait : Option Waiting
  pub declared_by : String
  pub declared_at : String

-- A dispatch run. `current_phase` is empty once it is popped.
pub record Run : Type 0 where
  pub run_id : String
  pub goal_id : String
  pub session_id : String
  pub role : String
  pub unit_id : String
  pub lease_state : Lease
  pub readiness_id : String
  pub scheduling_score : Option ℤ
  pub created_at : String
  pub lease_acquired_at : String
  pub lease_released_at : Option String
  pub interrupted_at : Option String
  pub interrupted_reason : String
  pub current_phase : String
  pub agent_user : String
  pub agent_provider : String
  pub observed_goal_body : Option String
  pub from_log_seq : Option ℕ
  pub observed_to_seq : Option ℕ
  pub wake_reasons : List WakeReason
  pub completion_state : Option Completion
  pub goal_manager_status : String
  pub declared_outcome : Option Declaration
  pub stale_result_at : Option String
  pub stale_results : List (String × String)
  pub failed_at : Option String
  pub error : String

-- `unit["schedule"]`, where it is an object with `enabled` True or not.
pub record UnitSchedule : Type 0 where
  pub enabled : Bool
  pub next_run_at : String
  pub resolver : String
  pub fixed_parameters : UnitParameters
  pub next_run_note : String
  pub next_run_set_by_session_id : String
  pub next_run_set_by_run_id : String
  pub next_run_set_at : String
  pub next_run_required_by_session_id : String

pub record UnitRecord : Type 0 where
  pub unit_id : String
  pub status : String
  pub schedule : Option UnitSchedule
  pub updated_at : String

pub record Store : Type 0 where
  pub goals : Dict Goal
  pub sessions : Dict Session
  pub units : Dict UnitRecord
  pub dispatch_readiness : List Readiness
  pub dispatch_runs : Dict Run
  pub session_logs : Logs
  pub session_edges : List Edge
  pub endpoint_cursors : Dict String

-- The roles that a run occupies: `{role, current_phase}` without the empty text.
abbrev pub named_roles : String → List String → List (String × String)
named_roles sid [] = []
named_roles sid (r ∷ rs) = if truthy r then (sid, r) ∷ named_roles sid rs else named_roles sid rs

abbrev pub roles_of_run : Run → List (String × String)
roles_of_run run =
    if holds_lease run.lease_state
    then named_roles run.session_id (run.role ∷ run.current_phase ∷ [])
    else []

unfoldable pub acquired_roles : List Run → List (String × String)
acquired_roles [] = []
acquired_roles (run ∷ runs) = roles_of_run run ++ acquired_roles runs

-- `entries[index]` changed in place.
unfoldable pub update_at : ℕ → (Readiness → Readiness) → List Readiness → List Readiness
update_at i f [] = []
update_at zero f (e ∷ es) = f e ∷ es
update_at (suc i) f (e ∷ es) = e ∷ update_at i f es

abbrev pub mark_stale : String → Readiness → Readiness
mark_stale now e = record e { status = Status.stale; stale_at = some now }

unfoldable pub mark_all_stale : List ℕ → String → List Readiness → List Readiness
unfolding update_at
mark_all_stale [] now entries = entries
mark_all_stale (i ∷ is) now entries = mark_all_stale is now (update_at i (mark_stale now) entries)

pub data DispatchError : Type 0 where
  bad_index missing_goal unknown_session inactive_session unknown_unit inactive_unit
        unsupported_role :
      DispatchError

-- The lease is taken, nothing can be dispatched, or StoreError or KeyError is raised, which saves
-- nothing.
pub data Acquired : Type 0 where
  leased : Store → Run → Acquired
  idle : Store → Acquired
  failed : DispatchError → Acquired

abbrev is_unit_active : UnitRecord → Bool
is_unit_active u = u.status == "active"

abbrev unit_error_of : Option UnitRecord → Option DispatchError
unit_error_of none = some unknown_unit
unit_error_of (some u) = if is_unit_active u then none else some inactive_unit

-- The tests on the Session's Unit.
abbrev pub unit_error : Dict UnitRecord → String → Option DispatchError
unit_error units unit_id = if truthy unit_id then unit_error_of (get units unit_id) else none

abbrev pub take_entry : String → Readiness → Readiness
take_entry now e = record e { status = Status.acquired; acquired_at = some now }

abbrev pub new_run : String → String → String → String → Option ℤ → Goal → Session → Readiness → Run
new_run run_id now agent_user provider score goal session e = record {
  run_id = run_id;
  goal_id = goal.goal_id;
  session_id = goal.session_id;
  role = role_of e;
  unit_id = strip session.unit_id;
  lease_state = Lease.acquired;
  readiness_id = e.readiness_id;
  scheduling_score = score;
  created_at = now;
  lease_acquired_at = now;
  lease_released_at = none;
  interrupted_at = none;
  interrupted_reason = "";
  current_phase = role_of e;
  agent_user = agent_user;
  agent_provider = provider;
  observed_goal_body = some goal.body;
  from_log_seq = e.from_log_seq;
  observed_to_seq = e.observed_to_seq;
  wake_reasons = e.wake_reasons;
  completion_state = none;
  goal_manager_status = "";
  declared_outcome = none;
  stale_result_at = none;
  stale_results = [];
  failed_at = none;
  error = "";
}

abbrev pub is_supported : String → Bool
is_supported role = role == goal_manager_role || role == worker_agent_role

-- The arguments that come from outside: the clock, the new id, the appointed account and provider.
pub record Grant : Type 0 where
  pub now : String
  pub run_id : String
  pub agent_user : String
  pub agent_provider : String

module _ (g : Grant) where
  abbrev pub grant : Store → ℕ → Option ℤ → Goal → Session → Readiness → Acquired
  grant store i score goal session e =
      let run = new_run g.run_id g.now g.agent_user g.agent_provider score goal session e in
      leased
        (record store {
          dispatch_readiness = update_at i (take_entry g.now) store.dispatch_readiness;
          dispatch_runs = put store.dispatch_runs g.run_id run;
        })
        run

  abbrev pub checked : Option DispatchError → Bool → Acquired → Acquired
  checked (some error) supported result = failed error
  checked none true result = result
  checked none false result = failed unsupported_role

  abbrev pub with_owner : Store → ℕ → Option ℤ → Goal → Option Session → Readiness → Acquired
  with_owner store i score goal none e = failed unknown_session
  with_owner store i score goal (some session) e =
      if session.active
      then checked (unit_error store.units (strip session.unit_id)) (is_supported (role_of e))
          (grant store i score goal session e)
      else failed inactive_session

  abbrev pub with_goal : Store → ℕ → Option ℤ → Option Goal → Readiness → Acquired
  with_goal store i score none e = failed missing_goal
  with_goal store i score (some goal) e =
      with_owner store i score goal (get store.sessions goal.session_id) e

  abbrev pub with_entry : Store → ℕ → Option ℤ → Option Readiness → Acquired
  with_entry store i score none = failed bad_index
  with_entry store i score (some e) = with_goal store i score (get store.goals e.goal_id) e

  abbrev pub with_index : Store → Store → Bool → Option ℤ → Option ℕ → Acquired
  with_index store marked liveness_changed score none =
      idle (if liveness_changed then marked else store)
  with_index store marked liveness_changed score (some i) =
      with_entry marked i score (get_elem? marked.dispatch_readiness i)

  module _ (from_iso : String → Option ℕ) (instant : ℕ) where
    abbrev pub decide : Store → String → SchedulingDecision
    decide store session_id =
        select_role_dispatch_readiness from_iso store.goals store.sessions
          (acquired_roles (values store.dispatch_runs)) session_id instant store.dispatch_readiness

    -- `_next_dispatch_readiness_entry` marks the stale entries of its decision.
    abbrev pub mark_decision : Store → SchedulingDecision → Store
    mark_decision store d = record store {
      dispatch_readiness = mark_all_stale d.stale_indexes g.now store.dispatch_readiness;
    }

    -- `_acquire_dispatch_lease_locked` on the state that `_reconcile_dispatch_liveness` left;
    -- `liveness_changed` is what that returned.
    unfoldable pub acquire_dispatch_lease : Store → String → Bool → Acquired
    unfolding select_role_dispatch_readiness acquired_roles mark_all_stale values get put has
    acquire_dispatch_lease store session_id liveness_changed =
        if truthy session_id && not (has store.sessions session_id)
        then failed unknown_session
        else let d = decide store session_id in
          with_index store (mark_decision store d) liveness_changed d.scheduling_score
            d.readiness_index
