-- ===== src/Recovery.antt =====
-- `record_runtime_recovery_signals` of src/goal/log.py: what a restarted runtime does with the work
-- that its predecessor left. `persisted` and `log_id` are as for the goals, `signal_id` gives the new id
-- of a Session's signal. The text of the signal and the returned signals, which are only shown, are
-- left out.
pub mod Live
pub mod Idle
mod Examples
use aize.Prelude.{
  ℕ, String, Bool, true, false, ◌&&◌, not, Option, none, some, List, [], ◌∷◌, ◌++◌, map, ◌==◌,
  string_Eq, if◌then◌else◌, truthy, Dict, get, put, has, values, keep_if, contains,
}
use aize.State.{
  Goal, Session, Readiness, Status, Lease, holds_lease, is_acquired, is_incomplete,
  goal_manager_role, worker_agent_role,
}
use aize.Dispatch.{Run, Store}
use aize.Goals.{Held, current_goals}
use aize.SessionLog.{append_session_log_entry, signal_entry}

abbrev is_active : Option Session → Bool
is_active none = false
is_active (some session) = session.active

-- The goal is incomplete and not archived, and its Session is there and active.
abbrev pub is_live : Dict Session → Goal → Bool
is_live sessions goal =
    is_incomplete goal.completion_state
    && not (truthy goal.archived_at)
    && is_active (get sessions goal.session_id)

-- `current_active_incomplete_goals`
unfoldable pub live_goals : Dict Session → List Held → Dict Goal → Dict Goal
unfolding put get
live_goals sessions [] found = found
live_goals sessions (h ∷ hs) found =
    live_goals sessions hs (if is_live sessions h.1 then put found h.1.goal_id h.1 else found)

-- The loops over runs and entries whose goal is not among these.
abbrev pub retire_run : Dict Goal → String → Run → Run
retire_run goals now run =
    if holds_lease run.lease_state && not (has goals run.goal_id)
    then record run {
      lease_state = Lease.interrupted;
      interrupted_at = some now;
      interrupted_reason = "runtime recovered stale acquired run for non-dispatchable goal";
      current_phase = "";
    }
    else run

abbrev pub retire_entry : Dict Goal → String → Readiness → Readiness
retire_entry goals now e =
    if is_acquired e.status && not (has goals e.goal_id)
    then record e {
      status = Status.stale;
      stale_at = some now;
      stale_reason = "runtime recovered stale acquired readiness for non-dispatchable goal";
      acquired_at = none;
    }
    else e

-- A change of every value, each under its key.
unfoldable pub map_values : (Run → Run) → Dict Run → Dict Run
map_values f = map (λ (p : String × Run). (p.0, f p.1))

-- The loops over the runs and entries of the Session of one goal.
abbrev pub is_running_in : String → Run → Bool
is_running_in session_id run = run.session_id == session_id && holds_lease run.lease_state

abbrev pub stop_run : String → String → Run → Run
stop_run session_id now run =
    if is_running_in session_id run
    then record run {
      lease_state = Lease.interrupted;
      interrupted_at = some now;
      current_phase = "";
    }
    else run

abbrev role_or_phase : Run → String
role_or_phase run = if truthy run.role then run.role else run.current_phase

abbrev add_role : List String → String → List String
add_role roles role =
    if contains role (goal_manager_role ∷ worker_agent_role ∷ []) && not (contains role roles)
    then roles ++ role ∷ []
    else roles

unfoldable pub interrupted_roles : List String → List Run → List String
unfolding contains
interrupted_roles roles [] = roles
interrupted_roles roles (run ∷ runs) = interrupted_roles (add_role roles (role_or_phase run)) runs

unfoldable pub interrupted_readiness_ids : List Run → List String
unfolding keep_if
interrupted_readiness_ids runs = keep_if truthy (map (λ (run : Run). run.readiness_id) runs)

abbrev pub back : List String → String → Readiness → Readiness
back ids now e =
    if contains e.readiness_id ids
    then record e { status = Status.ready; recovered_at = some now; acquired_at = none }
    else record e {
      status = Status.stale;
      stale_at = some now;
      stale_reason = "runtime recovered acquired readiness without a matching acquired run";
      acquired_at = none;
    }

abbrev pub free_entry : String → List String → String → Readiness → Readiness
free_entry session_id ids now e =
    if e.session_id == session_id && is_acquired e.status then back ids now e else e

unfoldable pub with_roles : List String → List String → List String
unfolding contains
with_roles target_roles [] = target_roles
with_roles target_roles (role ∷ roles) =
    with_roles (if contains role target_roles then target_roles else target_roles ++ role ∷ [])
      roles

module _ (persisted : String → ℕ) (log_id : String → String → String)
    (signal_id : String → String) where
  abbrev pub taken_back : String → Store → String → List Run → Store
  taken_back now store session_id running = record store {
    dispatch_runs = map_values (stop_run session_id now) store.dispatch_runs;
    dispatch_readiness =
        map (free_entry session_id (interrupted_readiness_ids running) now)
          store.dispatch_readiness;
    session_logs = append_session_log_entry persisted store.session_logs session_id (
        signal_entry (log_id session_id "RuntimeRecovered") (signal_id session_id)
          "RuntimeRecovered" (with_roles (goal_manager_role ∷ []) (interrupted_roles [] running))
          "user:runtime" "" "" now);
  }

  abbrev pub recover_goal : String → Store → Goal → Store
  recover_goal now store goal =
      if is_live store.sessions goal
      then taken_back now store goal.session_id
          (keep_if (is_running_in goal.session_id) (values store.dispatch_runs))
      else store

  unfoldable pub recover_goals : String → Store → List Goal → Store
  unfolding map_values interrupted_readiness_ids interrupted_roles with_roles
      append_session_log_entry signal_entry values keep_if get
  recover_goals now store [] = store
  recover_goals now store (goal ∷ goals) = recover_goals now (recover_goal now store goal) goals

  abbrev pub without_retired : String → Dict Goal → Store → Store
  without_retired now live store = record store {
    dispatch_runs = map_values (retire_run live now) store.dispatch_runs;
    dispatch_readiness = map (retire_entry live now) store.dispatch_readiness;
  }

  abbrev pub live_in : Store → Dict Goal
  live_in store = live_goals store.sessions (current_goals store.goals) []

  unfoldable pub record_runtime_recovery_signals : String → Store → Store
  unfolding live_goals current_goals has map_values recover_goals values
  record_runtime_recovery_signals now store =
      recover_goals now (without_retired now (live_in store) store) (values (live_in store))
