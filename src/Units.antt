-- ===== src/Units.antt =====
-- The next run of a scheduled Unit: `resolve_next_run_at` of src/goal/schedules.py,
-- `_schedule_next_unit_run_locked` of src/goal/sessions.py, and the test of a completion in
-- src/goal/dispatch.py. `parse_utc`, `format_seconds` and `lower` are as for the schedules and the
-- declarations. A Session stands under its own id. Left out: `last_resolution`, and the shown keys of
-- the Message.
pub mod Blocked
pub mod Kept
pub mod Examples
use Prim.Native.String.{◌++◌ as append}
use aize.Prelude.{
  ℕ, ◌/◌, String, Bool, true, false, ◌&&◌, ◌||◌, not, Option, none, some, List, [], ◌∷◌, map, ◌==◌,
  string_Eq, if◌then◌else◌, leb, truthy, Dict, get, put, values, keep_if, has,
}
use aize.Prelude.Order.{str_Order}
use aize.Prelude.Sort.{sort_by}
use aize.Prelude.Text.{strip}
use aize.State.{Session, Goal, goal_manager_role, Payload}
use aize.Endpoint.{normalize_agent_role, normalize_role_endpoint, session_endpoint}
use aize.Schedule.{UnitParameters, Resolved, resolved, next_interval_boundary, ResolverError}
use aize.Dispatch.{Run, Store, UnitRecord, UnitSchedule}
use aize.Declare.{runtime_actor_allowed}
use aize.Messages.{blank_payload}
use aize.Messages.Write.{append_to, message_of}

-- Why no next run is set.
pub data ScheduleError : Type 0 where
  unknown_session not_manager no_unit unknown_unit not_scheduled unknown_resolver no_next_run
        bad_timestamp not_future bad_endpoint :
      ScheduleError
  bad_resolver : ResolverError → ScheduleError

pub data Next : Type 0 where
  next : String → Next
  failed : ScheduleError → Next

pub data Scheduled : Type 0 where
  scheduled : Store → Scheduled
  refused : ScheduleError → Scheduled

-- `completed_at` with the parameters that a GoalManager passes, and the new ids.
pub record Request : Type 0 where
  pub call_parameters : Dict String
  pub actor : String
  pub run_id : String
  pub completed_at : String
  pub now : String
  pub message_id : String

abbrev pub text_at : Dict String → String → String
text_at d key = elim (get d key) [ none ↦ "" | some s ↦ s ]

abbrev pub is_enabled : Option UnitSchedule → Bool
is_enabled none = false
is_enabled (some schedule) = schedule.enabled

abbrev pub schedule_of : Option UnitRecord → Option UnitSchedule
schedule_of none = none
schedule_of (some unit) = unit.schedule

-- The first lease of the Session, by text.
abbrev leased_in : String → Run → Bool
leased_in session_id run = run.session_id == session_id && truthy run.lease_acquired_at

abbrev first_text : List String → String
first_text [] = ""
first_text (s ∷ ss) = s

unfoldable pub started_at : Dict Run → Session → String
unfolding sort_by keep_if values
started_at runs session =
    if truthy session.schedule_timing.started_at
    then session.schedule_timing.started_at
    else first_text (
        sort_by str_Order (λ s. s)
          (map (λ (r : Run). r.lease_acquired_at)
            (keep_if (leased_in session.session_id) (values runs))))

-- `_schedule_runtime_parameters`, without the call's parameters.
unfoldable pub schedule_runtime_parameters : Dict Run → Session → String → Dict String
unfolding started_at
schedule_runtime_parameters runs session completed_at =
    ("session_id", session.session_id)
    ∷ ("unit_id", session.unit_id)
    ∷ ("scheduled_for", session.schedule_timing.scheduled_for)
    ∷ ("queued_at", session.schedule_timing.queued_at)
    ∷ ("started_at", started_at runs session)
    ∷ ("completed_at", completed_at)
    ∷ []

module _ (persisted : String → ℕ) (log_id : String → String → String) (lower : String → String)
    (parse_utc : String → Option ℕ) (format_seconds : ℕ → String) where
  abbrev formatted : Option ℕ → Next
  formatted none = failed bad_timestamp
  formatted (some instant) = next (format_seconds (instant / 1000000))

  abbrev of_resolver : Resolved → Next
  of_resolver (resolved text) = formatted (parse_utc text)
  of_resolver (Resolved.refused error) = failed (bad_resolver error)

  -- `explicit_next_run_at`
  abbrev explicit_next_run_at : Dict String → Next
  explicit_next_run_at call_parameters =
      let next_run_at = strip (text_at call_parameters "next_run_at") in
      if truthy next_run_at then formatted (parse_utc next_run_at) else failed no_next_run

  unfoldable pub resolve_next_run_at : String → UnitParameters → Dict String → Dict String → Next
  unfolding next_interval_boundary strip get
  resolve_next_run_at name unit_parameters runtime_parameters call_parameters =
      if strip name == "explicit"
      then explicit_next_run_at call_parameters
      else if strip name == "next_interval_boundary"
      then of_resolver
          (next_interval_boundary parse_utc format_seconds unit_parameters runtime_parameters)
      else failed unknown_resolver

  abbrev pub actor_allowed : String → Option Run → Bool
  actor_allowed actor none = normalize_agent_role lower actor == goal_manager_role
  actor_allowed actor (some run) = runtime_actor_allowed persisted lower parse_utc actor run

  abbrev run_at : Dict Run → String → Option Run
  run_at runs run_id = if truthy run_id then get runs run_id else none

  abbrev pub with_next : Request → Session → UnitSchedule → String → UnitSchedule
  with_next r session schedule text = record schedule {
    next_run_at = text;
    next_run_note = strip (text_at r.call_parameters "note");
    next_run_set_by_session_id = session.session_id;
    next_run_set_by_run_id = r.run_id;
    next_run_set_at = r.now;
    next_run_required_by_session_id = "";
  }

  abbrev update_payload : Request → String → Payload
  update_payload r text = record blank_payload {
    body = text;
    schedule_update = true;
    run_id = r.run_id;
  }

  abbrev pub store_next :
      Request → Store → Session → UnitRecord → UnitSchedule → String → Option String → Scheduled
  store_next r store session unit schedule text none = refused bad_endpoint
  store_next r store session unit schedule text (some from) = scheduled (
      append_to persisted log_id "Message"
        (record store {
          units = put store.units session.unit_id (record unit {
            schedule = some (with_next r session schedule text);
            updated_at = r.now;
          });
        })
        session.session_id
        (message_of r.message_id from (session_endpoint session.session_id) (update_payload r text)
          r.now))

  abbrev pub in_future : Option ℕ → Option ℕ → Scheduled → Scheduled
  in_future none completed result = refused bad_timestamp
  in_future (some at) none result = refused bad_timestamp
  in_future (some at) (some completed) result =
      if leb at completed then refused not_future else result

  abbrev pub with_resolved :
      Request → Store → Session → UnitRecord → UnitSchedule → Next → Scheduled
  with_resolved r store session unit schedule (failed error) = refused error
  with_resolved r store session unit schedule (next text) =
      in_future (parse_utc text)
        (parse_utc (if truthy r.completed_at then r.completed_at else r.now))
        (store_next r store session unit schedule text
          (normalize_role_endpoint goal_manager_role session.session_id))

  abbrev resolver_of : UnitSchedule → String
  resolver_of schedule = if truthy schedule.resolver then schedule.resolver else "explicit"

  abbrev pub with_schedule :
      Request → Store → Session → UnitRecord → Option UnitSchedule → Scheduled
  with_schedule r store session unit none = refused not_scheduled
  with_schedule r store session unit (some schedule) =
      if schedule.enabled
      then with_resolved r store session unit schedule (
          resolve_next_run_at (resolver_of schedule) schedule.fixed_parameters
            (schedule_runtime_parameters store.dispatch_runs session r.completed_at)
            r.call_parameters)
      else refused not_scheduled

  abbrev pub with_unit : Request → Store → Session → Option UnitRecord → Scheduled
  with_unit r store session none = refused unknown_unit
  with_unit r store session (some unit) = with_schedule r store session unit unit.schedule

  abbrev pub with_session : Request → Store → Option Session → Scheduled
  with_session r store none = refused unknown_session
  with_session r store (some session) =
      if actor_allowed r.actor (run_at store.dispatch_runs r.run_id)
      then if truthy session.unit_id
        then with_unit r store session (get store.units session.unit_id)
        else refused no_unit
      else refused not_manager

  -- `_schedule_next_unit_run_locked`
  unfoldable pub schedule_next_unit_run : Request → Store → String → Scheduled
  unfolding resolve_next_run_at schedule_runtime_parameters runtime_actor_allowed
      normalize_agent_role normalize_role_endpoint get put strip
  schedule_next_unit_run r store session_id = with_session r store (get store.sessions session_id)

  -- `_scheduled_unit_completion_blocker`: whether the completion is refused.
  abbrev pub is_late : Option ℕ → Option ℕ → Bool
  is_late none completed = true
  is_late (some at) none = true
  is_late (some at) (some completed) = leb at completed

  abbrev pub is_blocked_by : String → Option UnitSchedule → Bool
  is_blocked_by completed_at none = false
  is_blocked_by completed_at (some schedule) =
      if schedule.enabled
      then if truthy (strip schedule.next_run_at)
        then is_late (parse_utc (strip schedule.next_run_at)) (parse_utc completed_at)
        else true
      else false

  unfoldable pub scheduled_unit_completion_blocker : Store → Session → String → Bool
  unfolding get strip
  scheduled_unit_completion_blocker store session completed_at =
      if truthy session.unit_id
      then is_blocked_by completed_at (schedule_of (get store.units session.unit_id))
      else false

  -- `resolve_next`: the schedule has to be resolved anew.
  abbrev pub must_resolve : String → UnitSchedule → Bool
  must_resolve completed_at schedule =
      let next_run_at = strip schedule.next_run_at in
      if not (resolver_of schedule == "explicit") || not (truthy next_run_at)
      then true
      else is_late (parse_utc next_run_at) (parse_utc completed_at)

  abbrev pub and_blocker : Session → Store → String → Scheduled → Store × Bool
  and_blocker session store completed_at (refused error) = (store, true)
  and_blocker session store completed_at (scheduled after) =
      (after, scheduled_unit_completion_blocker after session completed_at)

  abbrev pub prepared : Request → Store → Session → Option UnitSchedule → Store × Bool
  prepared r store session none = (store, false)
  prepared r store session (some schedule) =
      if schedule.enabled
      then if must_resolve r.completed_at schedule
        then and_blocker session store r.completed_at
            (schedule_next_unit_run r store session.session_id)
        else (store, scheduled_unit_completion_blocker store session r.completed_at)
      else (store, false)

  abbrev pub unit_of : Store → Session → Option UnitRecord
  unit_of store session = if truthy session.unit_id then get store.units session.unit_id else none

  -- `_prepare_scheduled_unit_completion`: the state, and whether the completion is refused.
  unfoldable pub prepare_scheduled_unit_completion : Request → Store → Session → Store × Bool
  unfolding schedule_next_unit_run scheduled_unit_completion_blocker get strip
  prepare_scheduled_unit_completion r store session =
      prepared r store session (schedule_of (unit_of store session))
