-- ===== src/State.antt =====
-- The durable records that the runtime keeps in its state dictionary (src/kernel/model.py and
-- src/goal/model.py, and the dictionaries that src/goal/readiness.py and dispatch.py build). A field
-- that the code reads by `str(x.get(k) or "")` is a text, empty when the key is absent; a key that
-- the code tests for, adds and pops is an `Option`.
use aize.Prelude.{ℕ, String, Bool, true, false, Option, none, List, Dict, truthy, if◌then◌else◌}
use aize.Prelude.Int.{ℤ}

-- The values of a readiness entry's `status`.
pub data Status : Type 0 where
  ready acquired resolved stale failed : Status

-- The values of a dispatch run's `lease_state`.
pub data Lease : Type 0 where
  acquired released interrupted : Lease

pub data Completion : Type 0 where
  complete incomplete : Completion

abbrev pub goal_manager_role : String
goal_manager_role = "GoalManager"

abbrev pub worker_agent_role : String
worker_agent_role = "WorkerAgent"

pub record WakeReason : Type 0 where
  pub seq : ℕ
  pub kind : String
  pub reason : String
  pub message_id : String
  pub log_id : String
  pub available_after : String

pub record Readiness : Type 0 where
  pub readiness_id : String
  pub session_id : String
  pub goal_id : String
  pub role : String
  pub status : Status
  pub first_ready_at : String
  pub refreshed_at : String
  pub from_log_seq : Option ℕ
  pub observed_to_seq : Option ℕ
  pub wake_reasons : List WakeReason
  pub available_after : String
  pub acquired_at : Option String
  pub resolved_at : Option String
  pub stale_at : Option String
  pub stale_reason : String
  pub failed_at : Option String
  pub recovered_at : Option String

pub record Waiting : Type 0 where
  pub kind : String
  pub wait_until : String
  pub event_name : String
  pub child_session_id : String
  pub wake_log_seq : ℕ
  pub reason : String
  pub declared_at : String
  pub declared_run_id : String

pub record Goal : Type 0 where
  pub goal_id : String
  pub session_id : String
  pub body : String
  pub created_by : String
  pub created_at : String
  pub completion_state : Completion
  pub completion_reason : String
  pub completion_reason_updated_at : String
  pub completed_at : Option String
  pub last_incomplete_at : Option String
  pub archived_at : String
  pub waiting : Option Waiting
  pub failed_at : Option String

pub record SchedulingPolicy : Type 0 where
  pub class : String
  pub base_priority : ℤ

-- The instants of a scheduled Session, empty where they are not known.
pub record ScheduleTiming : Type 0 where
  pub scheduled_for : String
  pub queued_at : String
  pub started_at : String
  pub completed_at : String

abbrev pub no_timing : ScheduleTiming
no_timing = record { scheduled_for = ""; queued_at = ""; started_at = ""; completed_at = "" }

pub record Session : Type 0 where
  pub session_id : String
  pub unit_id : String
  pub created_at : String
  pub updated_at : String
  pub active : Bool
  pub scheduling_policy : Option SchedulingPolicy
  pub role_cursors : Dict ℕ
  pub schedule_timing : ScheduleTiming

abbrev pub is_ready : Status → Bool
is_ready Status.ready = true
is_ready _ = false

abbrev pub is_acquired : Status → Bool
is_acquired Status.acquired = true
is_acquired _ = false

abbrev pub holds_lease : Lease → Bool
holds_lease Lease.acquired = true
holds_lease _ = false

abbrev pub is_incomplete : Completion → Bool
is_incomplete incomplete = true
is_incomplete complete = false

-- `str(entry.get("role") or GOAL_MANAGER_ROLE)`
abbrev pub role_of : Readiness → String
role_of e = if truthy e.role then e.role else goal_manager_role

-- The payload keys of a Message that the runtime reads.
pub record Payload : Type 0 where
  pub body : String
  pub user_input : Bool
  pub worker_request : Bool
  pub worker_followup : Bool
  pub schedule_update : Bool
  pub defer_goal_manager_until_worker_report : Bool
  pub agent_role : String
  pub agent_user : String
  pub run_id : String
  pub reply_to : String
  pub wake_events : List String

-- `payload` is `none` where it is no object.
pub record Message : Type 0 where
  pub message_id : String
  pub from_endpoint : String
  pub to_endpoint : String
  pub payload : Option Payload
  pub created_at : String

-- The event keys that the runtime reads, of every kind of log entry. `target_roles` is `none` where
-- it is no list; `available_after` is the key of that name under `data`.
pub record Event : Type 0 where
  pub active : Bool
  pub completion_state : String
  pub actor : String
  pub run_id : String
  pub defer_goal_manager_until_worker_report : Bool
  pub signal_type : String
  pub target_roles : Option (List String)
  pub available_after : String
  pub child_session_id : String
  pub reason : String

pub record LogEntry : Type 0 where
  pub log_id : String
  pub seq : ℕ
  pub session_id : String
  pub kind : String
  pub created_at : String
  pub message_id : String
  pub event : Option Event
  pub event_key : String
  pub message : Option Message

abbrev pub blank_event : Event
blank_event = record {
  active = false;
  completion_state = "";
  actor = "";
  run_id = "";
  defer_goal_manager_until_worker_report = false;
  signal_type = "";
  target_roles = none;
  available_after = "";
  child_session_id = "";
  reason = "";
}
