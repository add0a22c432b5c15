-- ===== src/Commit.antt =====
-- What becomes of a dispatch run when its agent returns: the fence of src/goal/dispatch.py, the
-- discarded result, the commit of a WorkerAgent's run and the recovery of a lost run, on the Store of
-- the leases. `persisted` is as for the SessionLogs. Left out: the agent threads, the Messages of the
-- run's steps and of a remote handoff, the report under `outcome`, and the texts of reasons. A log
-- entry's Message is the embedded one.
pub mod Calm
pub mod Fence
pub mod Release
mod Examples
use aize.Prelude.{
  ℕ, String, Bool, true, false, ◌&&◌, not, Option, none, some, List, [], ◌∷◌, ◌++◌, ◌==◌, string_Eq,
  if◌then◌else◌, leb, truthy, Dict, get, put, has,
}
use aize.State.{
  Status, Lease, holds_lease, is_acquired, Readiness, Goal, Session, LogEntry, Message, Event,
  Payload, goal_manager_role, worker_agent_role, Completion, complete,
}
use aize.SessionLog.{
  Logs, session_log_after_cursor, latest_session_log_seq, set_role_cursor, append_session_log_entry,
  signal_entry, touch,
}
use aize.Dispatch.{Run, Store}

-- The texts of `_new_requirement_conflicts_after_window` and `_stale_dispatch_fence_locked`.
pub data Conflict : Type 0 where
  body_revision newer_message newer_goal_state child_completed : Conflict

pub data FenceReason : Type 0 where
  wrong_role not_acquired missing_goal body_changed : FenceReason
  newer_requirement : Conflict → FenceReason

abbrev pub event_run_id : Option Event → String
event_run_id none = ""
event_run_id (some event) = event.run_id

abbrev pub payload_of : Option Message → Option Payload
payload_of none = none
payload_of (some m) = m.payload

-- `_message_for_log_entry`
abbrev pub message_for_log_entry : LogEntry → Option Message
message_for_log_entry e = if truthy e.message_id then e.message else none

abbrev pub is_payload_of : String → Option Payload → Bool
is_payload_of run_id none = false
is_payload_of run_id (some p) = p.run_id == run_id

-- One turn of the loop over the entries behind the window.
abbrev pub entry_conflict : String → LogEntry → Option Conflict
entry_conflict run_id e =
    if e.kind == "GoalBodyUpdated"
    then if event_run_id e.event == run_id then none else some body_revision
    else if e.kind == "Message"
    then if is_payload_of run_id (payload_of (message_for_log_entry e))
      then none
      else some newer_message
    else if e.kind == "GoalStateChanged"
    then if event_run_id e.event == run_id then none else some newer_goal_state
    else if e.kind == "ChildGoalCompleted"
    then some child_completed
    else none

abbrev pub or_else : Option Conflict → Option Conflict → Option Conflict
or_else none other = other
or_else (some c) other = some c

unfoldable pub first_conflict : String → List LogEntry → Option Conflict
first_conflict run_id [] = none
first_conflict run_id (e ∷ es) = or_else (entry_conflict run_id e) (first_conflict run_id es)

-- The first entry with this id, changed in place.
unfoldable pub update_by_id : String → (Readiness → Readiness) → List Readiness → List Readiness
update_by_id id f [] = []
update_by_id id f (e ∷ es) =
    let rest = update_by_id id f es in if e.readiness_id == id then f e ∷ es else e ∷ rest

-- The ids and the instant of one call.
pub record Call : Type 0 where
  pub now : String
  pub log_id : String
  pub signal_id : String

abbrev pub dispatcher : String
dispatcher = "dispatcher"

module _ (persisted : String → ℕ) where
  abbrev pub conflicts : Logs → String → String → Option ℕ → Option Conflict
  conflicts logs session_id run_id none = none
  conflicts logs session_id run_id (some observed) =
      if leb (latest_session_log_seq persisted logs session_id) observed
      then none
      else first_conflict run_id (session_log_after_cursor logs session_id observed)

  unfoldable pub new_requirement_conflicts_after_window :
      Logs → String → String → Option ℕ → Option Conflict
  unfolding first_conflict latest_session_log_seq session_log_after_cursor
  new_requirement_conflicts_after_window logs session_id run_id observed =
      conflicts logs session_id run_id observed

  abbrev pub requirement : Option Conflict → Option FenceReason
  requirement none = none
  requirement (some c) = some (newer_requirement c)

  -- `"observed_goal_body" in run and goal body != observed body`
  abbrev pub is_body_changed : Goal → Option String → Bool
  is_body_changed goal none = false
  is_body_changed goal (some body) = not (goal.body == body)

  abbrev pub goal_fence : Store → Run → Option Goal → Option FenceReason
  goal_fence store run none = some missing_goal
  goal_fence store run (some goal) =
      if is_body_changed goal run.observed_goal_body
      then some body_changed
      else requirement (
          new_requirement_conflicts_after_window store.session_logs run.session_id run.run_id
            run.observed_to_seq)

  -- `_stale_dispatch_fence_locked`: `none` for the empty text.
  unfoldable pub stale_dispatch_fence : Store → Run → String → Option FenceReason
  unfolding new_requirement_conflicts_after_window get
  stale_dispatch_fence store run role =
      if not (run.role == role)
      then some wrong_role
      else if not (holds_lease run.lease_state)
      then some not_acquired
      else goal_fence store run (get store.goals run.goal_id)

  abbrev log_signal : Call → String → String → String → String → Store → Store
  log_signal c sid signal_type run_id available_after store = record store {
    session_logs = append_session_log_entry persisted store.session_logs sid (
        signal_entry c.log_id c.signal_id signal_type (goal_manager_role ∷ []) dispatcher run_id
          available_after c.now);
  }

  abbrev observed_of : Run → ℕ
  observed_of run = elim (run.observed_to_seq) [ none ↦ 0 | some n ↦ n ]

  abbrev pub release : String → Run → Run
  release now run = record run {
    lease_state = Lease.released;
    lease_released_at = some now;
    current_phase = "";
  }

  abbrev discard_entry : String → Readiness → Readiness
  discard_entry now e =
      if is_acquired e.status
      then record e {
        status = Status.stale;
        stale_at = some now;
        stale_reason = "dispatch result discarded";
        acquired_at = none;
      }
      else e

  abbrev pub note_stale : String → String → Run → Run
  note_stale now output run = record run {
    stale_results = run.stale_results ++ (now, output) ∷ [];
    stale_result_at = some now;
  }

  abbrev pub give_up : Call → String → String → Run → Store → Store
  give_up c key role run store = record store {
    dispatch_runs = put store.dispatch_runs key (release c.now run);
    dispatch_readiness =
        update_by_id run.readiness_id (discard_entry c.now) store.dispatch_readiness;
    sessions = set_role_cursor store.sessions run.session_id role (observed_of run);
  }

  -- `_discard_stale_dispatch_result_locked` on the run that stands under `key`.
  unfoldable pub discard_stale_dispatch_result :
      Call → Store → String → Run → String → String → Store
  unfolding update_by_id append_session_log_entry signal_entry set_role_cursor put
  discard_stale_dispatch_result c store key run role output =
      let noted = note_stale c.now output run in
      log_signal c run.session_id "StaleDispatchResultDiscarded" run.run_id "" (
        if holds_lease run.lease_state
        then give_up c key role noted store
        else record store { dispatch_runs = put store.dispatch_runs key noted })

  abbrev recover_entry : String → Readiness → Readiness
  recover_entry now e =
      if is_acquired e.status
      then record e { status = Status.ready; recovered_at = some now; acquired_at = none }
      else e

  abbrev pub recovered : Call → Store → Run → Bool → Store
  recovered c store leased known =
      let back = record store {
        dispatch_readiness =
            update_by_id leased.readiness_id (recover_entry c.now) store.dispatch_readiness;
      } in
      if known
      then log_signal c leased.session_id "DispatchRunRecovered" leased.run_id "" back
      else back

  -- `_recover_missing_lease_run_locked`
  unfoldable pub recover_missing_lease_run : Call → Store → Run → Store
  unfolding update_by_id append_session_log_entry signal_entry has
  recover_missing_lease_run c store leased =
      recovered c store leased (has store.sessions leased.session_id)

  abbrev resolve_entry : String → Readiness → Readiness
  resolve_entry now e = record e { status = Status.resolved; resolved_at = some now }

  abbrev pub finish_worker : Call → Run → Run → Store → Store
  finish_worker c leased run store = record store {
    dispatch_readiness =
        update_by_id leased.readiness_id (resolve_entry c.now) store.dispatch_readiness;
    sessions =
        touch leased.session_id c.now
          (set_role_cursor store.sessions leased.session_id worker_agent_role (observed_of run));
    dispatch_runs =
        put store.dispatch_runs leased.run_id
          (release c.now (record run { completion_state = some complete }));
  }

  abbrev pub with_fence :
      Call → Store → Run → Run → String → Bool → String → Option FenceReason → Store
  with_fence c store leased run output reported retry_at (some reason) =
      discard_stale_dispatch_result c store leased.run_id run worker_agent_role output
  with_fence c store leased run output reported retry_at none = finish_worker c leased run (
      if reported
      then store
      else log_signal c leased.session_id "WorkerTurnProtocolViolation" run.run_id retry_at store)

  abbrev pub with_run : Call → Store → Run → String → Bool → String → Option Run → Option Store
  with_run c store leased output reported retry_at none =
      some (recover_missing_lease_run c store leased)
  with_run c store leased output reported retry_at (some run) =
      if has store.goals leased.goal_id && has store.sessions leased.session_id
      then some (
          with_fence c store leased run output reported retry_at
            (stale_dispatch_fence store run worker_agent_role))
      else none

  -- `_commit_worker_run_locked`: `leased` is the run of the lease; `reported` tells whether the turn
  -- sent a Session Message, and `retry_at` is the delay of the protocol signal. `none` is the KeyError
  -- of a goal or a Session that is gone.
  unfoldable pub commit_worker_run : Call → Store → Run → String → Bool → String → Option Store
  unfolding stale_dispatch_fence discard_stale_dispatch_result recover_missing_lease_run
      update_by_id append_session_log_entry signal_entry set_role_cursor has get put
  commit_worker_run c store leased output reported retry_at =
      with_run c store leased output reported retry_at (get store.dispatch_runs leased.run_id)
