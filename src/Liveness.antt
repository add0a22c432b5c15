-- ===== src/Liveness.antt =====
-- `_reconcile_dispatch_liveness` of src/goal/readiness.py: every Session that is active and whose goal
-- is incomplete has work that is ready, running or waiting. `from_iso` is as for the leases,
-- `parse_utc` as for the declarations.
mod Examples
use aize.Prelude.{
  ℕ, String, Bool, true, false, ◌&&◌, ◌||◌, not, Option, none, some, List, [], ◌∷◌, ◌++◌, map, ◌==◌,
  string_Eq, if◌then◌else◌, truthy, Dict, get, values, keep_if, contains,
}
use aize.State.{Readiness, Goal, Session, is_acquired, holds_lease, is_incomplete}
use aize.SessionLog.{append_session_log_entry, signal_entry}
use aize.Dispatch.{Run, Store, UnitRecord}
use aize.Readiness.{
  is_open, repair_runs, repair_readiness, dispatch_lease_expired, is_held, last_holder,
}
use aize.Goals.{Held, current_goals}
use aize.Sessions.{unit_paused}
use aize.Refresh.{Ids, signal, and_then, refresh_dispatch_readiness, is_workable}

abbrev is_session : Option Session → Bool
is_session none = false
is_session (some session) = true

module _ (persisted : String → ℕ) (from_iso : String → Option ℕ)
    (parse_utc : String → Option ℕ) where
  -- The Sessions whose runs or entries the repair changed, in the order of `repaired_by_session`.
  abbrev add_new : String → List String → List String
  add_new s ss = if contains s ss then ss else ss ++ s ∷ []

  unfoldable pub repaired_by_runs : String → List Run → List String → List String
  unfolding contains dispatch_lease_expired
  repaired_by_runs now [] found = found
  repaired_by_runs now (run ∷ runs) found = repaired_by_runs now runs (
      if holds_lease run.lease_state && dispatch_lease_expired from_iso run now
      then add_new run.session_id found
      else found)

  unfoldable pub repaired_by_entries :
      String → List Run → List Readiness → List String → List String
  unfolding contains dispatch_lease_expired last_holder
  repaired_by_entries now runs [] found = found
  repaired_by_entries now runs (e ∷ es) found = repaired_by_entries now runs es (
      if is_acquired e.status
        && not (is_held from_iso now (last_holder from_iso runs e.readiness_id))
      then add_new e.session_id found
      else found)

  unfoldable pub signal_all : Ids → List String → Store → Store
  unfolding append_session_log_entry signal_entry get
  signal_all ids [] store = store
  signal_all ids (s ∷ ss) store = signal_all ids ss (
      if is_session (get store.sessions s)
      then signal persisted parse_utc ids s "DispatchLivenessRecovered" "dispatcher" store
      else store)

  -- Both loops that repair the ownership of work, and their signals.
  unfoldable pub repair_ownership : Ids → Store → Store
  unfolding repair_runs repair_readiness repaired_by_runs repaired_by_entries signal_all values
  repair_ownership ids store =
      let runs = values store.dispatch_runs in
      let sessions =
        repaired_by_entries ids.now runs store.dispatch_readiness
          (repaired_by_runs ids.now runs []) in
      signal_all ids sessions (record store {
        dispatch_runs = repair_runs from_iso ids.now store.dispatch_runs;
        dispatch_readiness =
            repair_readiness from_iso ids.now store.dispatch_runs store.dispatch_readiness;
      })

  -- `live_goal_ids`
  abbrev is_live_entry : Readiness → Bool
  is_live_entry e = is_open e.status

  abbrev is_live_run : Run → Bool
  is_live_run run = holds_lease run.lease_state

  unfoldable pub live_goal_ids : Store → List String
  unfolding keep_if values
  live_goal_ids store =
      map (λ (e : Readiness). e.goal_id) (keep_if is_live_entry store.dispatch_readiness)
      ++ map (λ (run : Run). run.goal_id) (keep_if is_live_run (values store.dispatch_runs))

  abbrev needs_work : Store → Goal → Option Session → Bool
  needs_work store goal none = false
  needs_work store goal (some session) =
      session.active && not (unit_paused (get store.units session.unit_id))

  abbrev pub is_stuck : Store → List String → Goal → Bool
  is_stuck store live goal =
      truthy goal.goal_id
      && is_workable goal
      && needs_work store goal (get store.sessions goal.session_id)
      && not (contains goal.goal_id live)

  -- The loop over the current goals: the state, and whether a signal was added.
  unfoldable pub signal_stuck : Ids → List Held → List String → Store → Bool → Store × Bool
  unfolding append_session_log_entry signal_entry get contains unit_paused
  signal_stuck ids [] live store added = (store, added)
  signal_stuck ids (h ∷ hs) live store added =
      let next =
        signal_stuck ids hs (h.1.goal_id ∷ live)
          (signal persisted parse_utc ids h.1.session_id "SessionLivenessRecovery" "dispatcher"
            store)
          true in
      let rest = signal_stuck ids hs live store added in
      if is_stuck store live h.1 then next else rest

  abbrev refresh_again : Ids → Store × Bool → Option Store
  refresh_again ids (store, true) = refresh_dispatch_readiness persisted parse_utc ids store
  refresh_again ids (store, false) = some store

  abbrev recover_stuck : Ids → Store → Option Store
  recover_stuck ids store =
      refresh_again ids
        (signal_stuck ids (current_goals store.goals) (live_goal_ids store) store false)

  -- `_reconcile_dispatch_liveness`; `none` is the NameError of the refresh.
  unfoldable pub reconcile_dispatch_liveness : Ids → Store → Option Store
  unfolding repair_ownership refresh_dispatch_readiness signal_stuck live_goal_ids current_goals
  reconcile_dispatch_liveness ids store =
      and_then persisted parse_utc
        (refresh_dispatch_readiness persisted parse_utc ids (repair_ownership ids store))
        (recover_stuck ids)
