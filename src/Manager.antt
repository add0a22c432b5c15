-- ===== src/Manager.antt =====
-- The commit of a GoalManager's run: `_commit_goal_manager_run_locked` of src/goal/dispatch.py. The
-- parameters are as for the goals and the schedules. A commit reads the clock once. Left out: the agent
-- thread, the run's steps and its report under `outcome`.
pub mod Failure
pub mod Outcome
pub mod Ended
pub mod Failed
mod Examples
use Prim.Native.String.{◌++◌ as append}
use aize.Prelude.{
  ℕ, String, Bool, true, false, ◌&&◌, ◌||◌, not, Option, none, some, List, [], ◌∷◌, map, ◌==◌,
  string_Eq, if◌then◌else◌, truthy, any, Dict, get, put, has, values,
}
use aize.Prelude.Text.{strip, starts_with}
use aize.State.{
  Status, Lease, holds_lease, Readiness, Goal, Session, Waiting, Message, Payload, Completion,
  complete, incomplete, goal_manager_role, worker_agent_role, ScheduleTiming,
}
use aize.SessionLog.{append_session_log_entry, signal_entry, set_role_cursor, touch}
use aize.Endpoint.{agent_sender_endpoint, normalize_role_endpoint, session_recipient}
use aize.Dispatch.{Run, Store, Declaration}
use aize.Readiness.{is_open}
use aize.Commit.{
  Call, FenceReason, update_by_id, release, stale_dispatch_fence, discard_stale_dispatch_result,
  recover_missing_lease_run, is_payload_of,
}
use aize.Goals.{Change, log_goal_state_transition, set_goal_completion_state}
use aize.Messages.{session_messages, advance_endpoint_cursor, blank_payload}
use aize.Messages.Write.{append_to, message_of}
use aize.Units.{Request, prepare_scheduled_unit_completion}

-- `_has_live_worker_readiness_for_goal`
abbrev is_worker_entry : String → Readiness → Bool
is_worker_entry goal_id e = e.goal_id == goal_id && e.role == worker_agent_role && is_open e.status

abbrev is_worker_run : String → Run → Bool
is_worker_run goal_id run =
    run.goal_id == goal_id && run.role == worker_agent_role && holds_lease run.lease_state

unfoldable pub has_live_worker_readiness_for_goal : Store → String → Bool
unfolding any values
has_live_worker_readiness_for_goal store goal_id =
    truthy goal_id
    && (any (is_worker_entry goal_id) store.dispatch_readiness
        || any (is_worker_run goal_id) (values store.dispatch_runs))

-- `_has_worker_request_for_run`
abbrev asks_worker : String → Option Payload → Bool
asks_worker run_id none = false
asks_worker run_id (some p) = p.run_id == run_id && p.worker_request

unfoldable pub has_worker_request_for_run : Store → String → String → Bool
unfolding any session_messages
has_worker_request_for_run store session_id run_id =
    any (λ (m : Message). asks_worker run_id m.payload)
      (session_messages store.session_logs session_id)

-- `_resolve_goal_manager_readiness_for_goal`; an entry without a role is a GoalManager's.
abbrev is_manager_entry : String → Readiness → Bool
is_manager_entry goal_id e =
    e.goal_id == goal_id && (not (truthy e.role) || e.role == goal_manager_role) && is_open e.status

abbrev resolve_entry : String → Readiness → Readiness
resolve_entry now e = record e { status = Status.resolved; resolved_at = some now }

unfoldable pub resolve_goal_manager_readiness_for_goal :
    String → String → List Readiness → List Readiness
resolve_goal_manager_readiness_for_goal goal_id now =
    map (λ (e : Readiness). if is_manager_entry goal_id e then resolve_entry now e else e)

-- `_mark_session_messages_delivered`: the first Message to a Session moves that endpoint's cursor.
unfoldable pub mark_from : Dict String → List Message → List Message → Dict String
unfolding advance_endpoint_cursor starts_with
mark_from cursors all [] = cursors
mark_from cursors all (m ∷ ms) =
    let rest = mark_from cursors all ms in
    if starts_with "session:" m.to_endpoint
    then advance_endpoint_cursor cursors m.to_endpoint all
    else rest

unfoldable pub mark_session_messages_delivered : Dict String → List Message → Dict String
unfolding mark_from
mark_session_messages_delivered cursors messages = mark_from cursors messages messages

-- What the commit is given: the lease, the agent's answer, the delay of a protocol signal, and the new
-- ids.
pub record Turn : Type 0 where
  pub leased : Run
  pub leased_messages : List Message
  pub output : String
  pub retry_at : String
  pub call : Call
  pub message_id : String

abbrev pub waiting_text : String
waiting_text = "waiting"

module _ (persisted : String → ℕ) (log_id : String → String → String) (lower : String → String)
    (parse_utc : String → Option ℕ) (format_seconds : ℕ → String) where
  abbrev observed_of : Run → ℕ
  observed_of run = elim (run.observed_to_seq) [ none ↦ 0 | some n ↦ n ]

  abbrev pub manager_signal : Turn → String → String → String → String → Store → Store
  manager_signal t session_id signal_type actor available_after store = record store {
    session_logs = append_session_log_entry persisted store.session_logs session_id (
        signal_entry t.call.log_id t.call.signal_id signal_type (goal_manager_role ∷ []) actor
          t.leased.run_id available_after t.call.now);
  }

  -- The end of the commit: the cursor, the lease, the delivered Messages and the Session.
  abbrev pub close : Turn → String → String → Run → Store → Store
  close t session_id role run store = record store {
    sessions =
        touch session_id t.call.now
          (set_role_cursor store.sessions session_id role (observed_of run));
    dispatch_runs = put store.dispatch_runs t.leased.run_id (release persisted t.call.now run);
    endpoint_cursors = mark_session_messages_delivered store.endpoint_cursors t.leased_messages;
  }

  abbrev resolve_leased : Turn → Store → Store
  resolve_leased t store = record store {
    dispatch_readiness =
        update_by_id t.leased.readiness_id (resolve_entry t.call.now) store.dispatch_readiness;
  }

  abbrev pub with_status : String → Completion → Run → Run
  with_status status state run = record run {
    completion_state = some state;
    goal_manager_status = status;
  }

  -- No outcome was declared.
  abbrev pub undecided : Turn → String → Run → Store → Store
  undecided t session_id run store =
      close t session_id goal_manager_role
        (with_status "missing_completion_decision" incomplete run)
        (manager_signal t session_id "GoalManagerTurnProtocolViolation" "dispatcher" t.retry_at
          (resolve_leased t store))

  abbrev pub manager_change : Turn → String → String → Change
  manager_change t reason actor = record {
    reason = reason;
    actor = actor;
    run_id = t.leased.run_id;
    now = t.call.now;
    defer_goal_manager = false;
  }

  abbrev resolve_manager : Turn → Goal → Store → Store
  resolve_manager t goal store = record store {
    dispatch_readiness =
        resolve_goal_manager_readiness_for_goal goal.goal_id t.call.now store.dispatch_readiness;
  }

  -- `dict(decision.get("wait") or {})` with what the commit adds.
  abbrev waiting_of : Option Waiting → Waiting
  waiting_of none = record {
    kind = "";
    wait_until = "";
    event_name = "";
    child_session_id = "";
    wake_log_seq = 0;
    reason = "";
    declared_at = "";
    declared_run_id = "";
  }
  waiting_of (some w) = w

  abbrev declared_wait : Turn → Declaration → Waiting
  declared_wait t d = record (waiting_of d.wait) {
    reason = d.reason;
    declared_at = t.call.now;
    declared_run_id = t.leased.run_id;
  }

  abbrev pub put_to_wait : Turn → Declaration → Goal → Store → Store
  put_to_wait t d goal store = resolve_manager t goal (record store {
    goals = put store.goals t.leased.goal_id (record goal { waiting = some (declared_wait t d) });
    session_logs =
        log_goal_state_transition persisted log_id (manager_change t d.reason goal_manager_role)
          store.session_logs goal waiting_text;
  })

  -- The implicit worker request of `_append_implicit_worker_request_for_incomplete_goal`.
  abbrev default_reason : String → String
  default_reason reason =
      if truthy (strip reason) then strip reason else "Work toward the incomplete SessionGoal."

  abbrev gap : String
  gap = "\n\n"

  abbrev closing_words : String
  closing_words =
      append "Work toward the SessionGoal, report progress/results to Session, "
        "and do not decide goal completion."

  abbrev request_body : Goal → String → String
  request_body goal reason =
      append "GoalManager marked the SessionGoal incomplete. Treat this as WorkerAgent work." (
        append gap (
          append "SessionGoal:\n" (
            append (strip goal.body) (
              append gap (
                append "GoalManager incomplete instruction:\n"
                  (append (default_reason reason) (append gap closing_words)))))))

  abbrev request_payload : Turn → Run → Goal → String → Payload
  request_payload t run goal reason = record blank_payload {
    body = request_body goal reason;
    worker_request = true;
    agent_role = goal_manager_role;
    agent_user = run.agent_user;
    run_id = t.leased.run_id;
  }

  abbrev pub to_worker : Turn → Run → Goal → String → String → Option String → Store → Option Store
  to_worker t run goal session_id reason none store = none
  to_worker t run goal session_id reason (some to) store = some (
      append_to persisted log_id "Message" store session_id (
        message_of t.message_id (agent_sender_endpoint lower goal_manager_role run.agent_user) to
          (request_payload t run goal reason) t.call.now))

  abbrev pub request_work : Turn → Run → Goal → String → String → Bool → Store → Option Store
  request_work t run goal session_id reason true store = some store
  request_work t run goal session_id reason false store =
      to_worker t run goal session_id reason (normalize_role_endpoint session_recipient session_id)
        store

  abbrev pub after_state : Turn → Goal → Option Store → Option Store
  after_state t goal none = none
  after_state t goal (some store) = some (resolve_manager t goal store)

  abbrev pub bind : Option Store → (Store → Option Store) → Option Store
  bind none f = none
  bind (some store) f = f store

  abbrev pub set_state : Change → Goal → Turn → String → Store → Option Store
  set_state ch goal t text store =
      set_goal_completion_state persisted log_id ch store t.leased.goal_id goal text

  -- The goal stays incomplete: some WorkerAgent is asked for.
  abbrev pub left_incomplete :
      Turn → Run → Declaration → Goal → String → Bool → Store → Option Store
  left_incomplete t run d goal session_id requested store = after_state t goal (
      bind (set_state (manager_change t d.reason goal_manager_role) goal t "incomplete" store)
        (request_work t run goal session_id d.reason requested))

  abbrev pub schedule_request : Turn → Declaration → Request
  schedule_request t d = record {
    call_parameters = d.schedule_parameters;
    actor = goal_manager_role;
    run_id = t.leased.run_id;
    completed_at = t.call.now;
    now = t.call.now;
    message_id = t.message_id;
  }

  -- The Unit's schedule refuses the completion; `reason` is its text.
  abbrev pub rejected : Turn → String → Goal → String → Store → Option Store
  rejected t reason goal session_id store =
      set_state (manager_change t reason "scheduler") goal t "incomplete"
        (manager_signal t session_id "GoalCompletionRejected" "user:scheduler" "" store)

  abbrev timed : String → String → Option Session → Dict Session → Dict Session
  timed session_id now none sessions = sessions
  timed session_id now (some s) sessions =
      put sessions session_id
        (record s { schedule_timing = record s.schedule_timing { completed_at = now } })

  abbrev pub note_completed : Turn → String → Store → Store
  note_completed t session_id store = record store {
    sessions = timed session_id t.call.now (get store.sessions session_id) store.sessions;
  }

  abbrev pub accepted : Turn → Declaration → Goal → String → Store → Option Store
  accepted t d goal session_id store =
      bind (set_state (manager_change t d.reason goal_manager_role) goal t "complete" store)
        (λ after. some (note_completed t session_id after))

  abbrev pub closed : Turn → String → Run → Bool → Option Store → Option Store
  closed t session_id run resolve none = none
  closed t session_id run true (some store) =
      some (close t session_id goal_manager_role run (resolve_leased t store))
  closed t session_id run false (some store) = some (close t session_id goal_manager_role run store)

  -- `reason` is the text of a refusal.
  abbrev pub with_schedule :
      Turn → String → Run → Declaration → Goal → String → Store × Bool → Option Store
  with_schedule t reason run d goal session_id (store, true) =
      closed t session_id (with_status "schedule_next_run_required" incomplete run) true
        (rejected t reason goal session_id store)
  with_schedule t reason run d goal session_id (store, false) =
      closed t session_id (record run { completion_state = some complete }) true
        (accepted t d goal session_id store)

  -- The declared outcome is carried out.
  abbrev pub decided : Turn → String → Store → Run → Declaration → Goal → Session → Option Store
  decided t reason store run d goal session =
      let session_id = t.leased.session_id in
      let requested =
        has_live_worker_readiness_for_goal store goal.goal_id
        || has_worker_request_for_run store session_id t.leased.run_id in
      if d.completion_state == waiting_text
      then closed t session_id (with_status waiting_text incomplete run) true
          (some (put_to_wait t d goal store))
      else if d.completion_state == "complete"
      then with_schedule t reason run d goal session_id (
          prepare_scheduled_unit_completion persisted log_id lower parse_utc format_seconds
            (schedule_request t d) store session)
      else closed t session_id (with_status "incomplete" incomplete run) false
          (left_incomplete t run d goal session_id requested store)

  abbrev pub with_declaration :
      Turn → String → Store → Run → Goal → Session → Option Declaration → Option Store
  with_declaration t reason store run goal session none =
      some (undecided t t.leased.session_id run store)
  with_declaration t reason store run goal session (some d) =
      decided t reason store run d goal session

  abbrev pub with_fence :
      Turn → String → Store → Run → Goal → Session → Option FenceReason → Option Store
  with_fence t reason store run goal session (some fence) = some (
      discard_stale_dispatch_result persisted t.call store t.leased.run_id run goal_manager_role
        t.output)
  with_fence t reason store run goal session none =
      with_declaration t reason store run goal session run.declared_outcome

  abbrev pub with_parts : Turn → String → Store → Run → Option Goal → Option Session → Option Store
  with_parts t reason store run none session = none
  with_parts t reason store run (some goal) none = none
  with_parts t reason store run (some goal) (some session) =
      with_fence t reason store run goal session
        (stale_dispatch_fence persisted store run goal_manager_role)

  abbrev pub with_run : Turn → String → Store → Option Run → Option Store
  with_run t reason store none = some (recover_missing_lease_run persisted t.call store t.leased)
  with_run t reason store (some run) =
      with_parts t reason store run (get store.goals t.leased.goal_id)
        (get store.sessions t.leased.session_id)

  -- `_commit_goal_manager_run_locked`; `reason` is the text of a refused completion. `none` is the
  -- KeyError of a goal or a Session that is gone, or StoreError, which save nothing.
  unfoldable pub commit_goal_manager_run : Turn → String → Store → Option Store
  unfolding stale_dispatch_fence discard_stale_dispatch_result recover_missing_lease_run
      prepare_scheduled_unit_completion set_goal_completion_state update_by_id
      has_live_worker_readiness_for_goal has_worker_request_for_run
      resolve_goal_manager_readiness_for_goal mark_session_messages_delivered
      log_goal_state_transition append_session_log_entry signal_entry set_role_cursor get put strip
  commit_goal_manager_run t reason store =
      with_run t reason store (get store.dispatch_runs t.leased.run_id)
