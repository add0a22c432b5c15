-- ===== src/Manager/Failure.antt =====
-- The commit of a run whose agent failed: `_commit_dispatch_error_locked` of src/goal/dispatch.py.
-- `error` is the text of the error.
use Prim.Native.String.{◌++◌ as append}
use aize.Prelude.{
  ℕ, String, Bool, true, false, Option, none, some, if◌then◌else◌, truthy, Dict, get, put, has,
}
use aize.State.{Status, Readiness, Goal, incomplete, goal_manager_role}
use aize.SessionLog.{append_session_log_entry, set_role_cursor}
use aize.Dispatch.{Run, Store}
use aize.Commit.{
  FenceReason, update_by_id, stale_dispatch_fence, discard_stale_dispatch_result,
  recover_missing_lease_run,
}
use aize.Goals.{set_goal_completion_state}
use aize.Manager.{Turn, close, set_state, manager_change, mark_session_messages_delivered}

module _ (persisted : String → ℕ) (log_id : String → String → String) (lower : String → String)
    (parse_utc : String → Option ℕ) (format_seconds : ℕ → String) where
  abbrev pub error_role : Run → String
  error_role run = if truthy run.role then run.role else goal_manager_role

  abbrev fail_entry : String → Readiness → Readiness
  fail_entry now e = record e { status = Status.failed; failed_at = some now }

  abbrev failed_goal : Turn → Option Goal → Dict Goal → Dict Goal
  failed_goal t none goals = goals
  failed_goal t (some goal) goals =
      put goals t.leased.goal_id (record goal { failed_at = some t.call.now })

  abbrev pub failed_run : Turn → String → Run → Run
  failed_run t error run = record run {
    completion_state = some incomplete;
    failed_at = some t.call.now;
    error = error;
  }

  abbrev pub fail : Turn → String → Run → Store → Store
  fail t error run store =
      close persisted log_id lower parse_utc format_seconds t t.leased.session_id (error_role run)
        (failed_run t error run)
        (record store {
          goals = failed_goal t (get store.goals t.leased.goal_id) store.goals;
          dispatch_readiness =
              update_by_id t.leased.readiness_id (fail_entry t.call.now) store.dispatch_readiness;
        })

  abbrev pub error_state : Turn → String → Run → Option Store → Option Store
  error_state t error run none = none
  error_state t error run (some store) = some (fail t error run store)

  abbrev pub error_fence : Turn → String → Store → Run → Goal → Option FenceReason → Option Store
  error_fence t error store run goal (some fence) =
      some (
        discard_stale_dispatch_result persisted t.call store t.leased.run_id run (error_role run)
          "")
  error_fence t error store run goal none = error_state t error run (
      set_state persisted log_id lower parse_utc format_seconds
        (manager_change persisted log_id lower parse_utc format_seconds t
          (append "Dispatch failed: " error) "dispatcher")
        goal t "incomplete" store)

  abbrev pub error_parts : Turn → String → Store → Run → Option Goal → Bool → Option Store
  error_parts t error store run none known = none
  error_parts t error store run (some goal) false = none
  error_parts t error store run (some goal) true =
      error_fence t error store run goal (stale_dispatch_fence persisted store run (error_role run))

  abbrev pub error_run : Turn → String → Store → Option Run → Option Store
  error_run t error store none = some (recover_missing_lease_run persisted t.call store t.leased)
  error_run t error store (some run) =
      error_parts t error store run (get store.goals t.leased.goal_id)
        (has store.sessions t.leased.session_id)

  unfoldable pub commit_dispatch_error : Turn → String → Store → Option Store
  unfolding stale_dispatch_fence discard_stale_dispatch_result recover_missing_lease_run
      set_goal_completion_state update_by_id mark_session_messages_delivered
      append_session_log_entry set_role_cursor get put has
  commit_dispatch_error t error store =
      error_run t error store (get store.dispatch_runs t.leased.run_id)
