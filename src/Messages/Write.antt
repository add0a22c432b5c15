-- ===== src/Messages/Write.antt =====
-- The Messages that are written: `_append_session_message_locked` and `append_message` of
-- src/kernel/messages.py, `append_runtime_message` and `append_user_input` of src/goal/messages.py.
-- `message_id` gives the new ids: of the Message and of the one that is forwarded.
use Prim.Native.String.{◌++◌ as append}
use aize.Prelude.{
  ℕ, String, Bool, true, false, ◌&&◌, ◌||◌, not, Option, none, some, [], ◌∷◌, ◌==◌, string_Eq,
  if◌then◌else◌, truthy, Dict, get, put, has,
}
use aize.Prelude.Text.{strip, starts_with, after_colon}
use aize.State.{Message, Payload, goal_manager_role}
use aize.SessionLog.{log_message_for_session, touch}
use aize.Endpoint.{
  session_endpoint, user_endpoint, console_endpoint, session_recipient, user_console_recipient,
  normalize_role_endpoint,
}
use aize.Dispatch.{Run, Store}
use aize.Goals.{Change}
use aize.Sessions.{Fresh, mark_session_reprocess_needed}
use aize.Messages.{
  User, MessageError, Resolved, resolved, resolve_runtime_sender, blank_payload,
  active_worker_run_for_session, latest_reply_endpoint_for_session, unknown_session, unknown_user,
  wrong_identity, bad_recipient, bad_request, bad_wake_event, no_reply, bad_endpoint,
}

-- The saved state with the Message, or StoreError, which saves nothing.
pub data Sent : Type 0 where
  sent : Store → Message → Sent
  refused : MessageError → Sent

-- `if not b: raise StoreError(error)`
abbrev pub require : Bool → MessageError → Sent → Sent
require true error result = result
require false error result = refused error

abbrev pub message_of : String → String → String → Payload → String → Message
message_of id from to payload now = record {
  message_id = id;
  from_endpoint = from;
  to_endpoint = to;
  payload = some payload;
  created_at = now;
}

-- The arguments of `append_runtime_message`; an absent text is empty.
pub record RuntimeMessage : Type 0 where
  pub sender : String
  pub group : String
  pub recipient : String
  pub body : String
  pub run_id : String
  pub recipient_endpoint_id : String
  pub worker_request : Bool
  pub wake_event : String

abbrev is_service : Option User → Bool
is_service none = false
is_service (some user) = user.status == "service"

module _ (persisted : String → ℕ) (log_id : String → String → String) where
  -- `_append_session_message_locked` of a Session that is there; `name` is the name of the log id.
  abbrev pub append_to : String → Store → String → Message → Store
  append_to name store session_id m = record store {
    session_logs =
        log_message_for_session persisted store.session_logs session_id (log_id session_id name) m;
    sessions = touch session_id m.created_at store.sessions;
  }

  unfoldable pub append_session_message : String → Store → String → Message → Sent
  unfolding log_message_for_session get put has
  append_session_message name store session_id m =
      require (has store.sessions session_id) unknown_session
        (sent (append_to name store session_id m) m)

  -- `_check_runtime_run_binding`
  abbrev identity_of : String → Option Run → Bool
  identity_of sender none = true
  identity_of sender (some run) =
      not (truthy (strip run.agent_user)) || strip run.agent_user == sender

  abbrev pub is_bound : Store → String → String → Bool
  is_bound store sender run_id =
      not (truthy run_id) || identity_of sender (get store.dispatch_runs run_id)

  abbrev pub may_send : String → String → Bool
  may_send role recipient =
      recipient == session_recipient
      || (role == goal_manager_role && recipient == user_console_recipient)

  abbrev pub runtime_payload : RuntimeMessage → String → String → Payload
  runtime_payload r role from = record blank_payload {
    body = r.body;
    agent_role = role;
    agent_user = if starts_with "agent:" from then "" else strip r.sender;
    worker_request = r.worker_request;
    wake_events = if truthy r.wake_event then strip r.wake_event ∷ [] else [];
    run_id = r.run_id;
  }

  abbrev reply_endpoint : Store → String → RuntimeMessage → String
  reply_endpoint store session_id r =
      if truthy (strip r.recipient_endpoint_id)
      then strip r.recipient_endpoint_id
      else latest_reply_endpoint_for_session store.session_logs session_id

  abbrev to_console : Store → String → String → String → Payload → String → String → Sent
  to_console store session_id id from payload now endpoint = require (truthy endpoint) no_reply (
      append_session_message "Message" store session_id
        (message_of id from (console_endpoint endpoint) payload now))

  abbrev pub to_other : Store → String → String → String → Payload → String → Option String → Sent
  to_other store session_id id from payload now none = refused bad_endpoint
  to_other store session_id id from payload now (some to) =
      append_session_message "Message" store session_id (message_of id from to payload now)

  abbrev pub deliver : Store → String → RuntimeMessage → String → String → String → Payload → Sent
  deliver store session_id r id now from payload =
      if strip r.recipient == user_console_recipient
      then to_console store session_id id from payload now (reply_endpoint store session_id r)
      else to_other store session_id id from payload now
          (normalize_role_endpoint (strip r.recipient) session_id)

  abbrev pub as_sender : Store → String → RuntimeMessage → String → String → Resolved → Sent
  as_sender store session_id r id now (Resolved.refused error) = refused error
  as_sender store session_id r id now (resolved role from) =
      require (is_bound store (strip r.sender) r.run_id) wrong_identity (
        require (may_send role (strip r.recipient)) bad_recipient (
          require
            (not r.worker_request
              || (role == goal_manager_role && strip r.recipient == session_recipient))
            bad_request
            (require (not (truthy r.wake_event) || truthy (strip r.wake_event)) bad_wake_event
              (deliver store session_id r id now from (runtime_payload r role from)))))

  unfoldable pub append_runtime_message :
      (String → String) → Dict User → Store → String → RuntimeMessage → String → String → Sent
  unfolding resolve_runtime_sender append_session_message latest_reply_endpoint_for_session
      normalize_role_endpoint has get put strip starts_with
  append_runtime_message lower users store session_id r id now =
      require (has store.sessions session_id) unknown_session
        (as_sender store session_id r id now (resolve_runtime_sender lower users r.sender r.group))

  -- `append_message`: no agents' endpoints, and no service's.
  abbrev is_human : Dict User → String → Bool
  is_human users endpoint =
      not (starts_with "user:" endpoint && is_service (get users (after_colon endpoint)))

  abbrev between :
      Dict User → Store → String → String → String → String → Option String → Option String → Sent
  between users store session_id id now body none to = refused bad_endpoint
  between users store session_id id now body (some from) none = refused bad_endpoint
  between users store session_id id now body (some from) (some to) =
      require (not (starts_with "agent:" from || starts_with "agent:" to)) bad_endpoint (
        require (is_human users from && is_human users to) bad_endpoint (
          append_session_message "Message" store session_id
            (message_of id from to (record blank_payload { body = body }) now)))

  unfoldable pub append_message :
      Dict User → Store → String → String → String → String → String → String → Sent
  unfolding append_session_message normalize_role_endpoint has get starts_with after_colon
  append_message users store session_id sender recipient body id now =
      require (has store.sessions session_id) unknown_session (
        between users store session_id id now body (normalize_role_endpoint sender session_id)
          (normalize_role_endpoint recipient session_id))

  -- The Message of a user, which an active WorkerAgent gets as well.
  abbrev pub is_there : Option Run → Bool
  is_there none = false
  is_there (some run) = true

  abbrev pub input_payload : String → String → Bool → Payload
  input_payload body reply_to busy = record blank_payload {
    body = body;
    user_input = true;
    worker_followup = busy;
    defer_goal_manager_until_worker_report = busy;
    reply_to = strip reply_to;
  }

  abbrev pub forwarded_payload : String → String → Run → Payload
  forwarded_payload body reply_to run = record blank_payload {
    body = body;
    user_input = true;
    worker_followup = true;
    worker_request = true;
    run_id = run.run_id;
    reply_to = strip reply_to;
  }

  abbrev pub forward :
      Store → String → String → String → String → Fresh → String → Message → Option Run → Sent
  forward store session_id sender body reply_to f forwarded_id m none = sent store m
  forward store session_id sender body reply_to f forwarded_id m (some run) =
      sent
        (append_to "ForwardedMessage" store session_id (
          message_of forwarded_id (user_endpoint sender) (session_endpoint session_id)
            (forwarded_payload body reply_to run) f.now))
        m

  abbrev pub reprocessed :
      String
      → String
      → String
      → String
      → Fresh
      → String
      → Message
      → Option Run
      → Option Store
      → Sent
  reprocessed session_id sender body reply_to f forwarded_id m busy none = refused bad_endpoint
  reprocessed session_id sender body reply_to f forwarded_id m busy (some store) =
      forward store session_id sender body reply_to f forwarded_id m busy

  abbrev pub input_change : String → Message → Fresh → Option Run → Change
  input_change sender m f busy = record {
    reason = append "UserInput message " (append m.message_id " requires Session processing.");
    actor = sender;
    run_id = "";
    now = f.now;
    defer_goal_manager = is_there busy;
  }

  abbrev pub with_input :
      Store → String → String → String → String → Fresh → String → String → Option Run → Sent
  with_input store session_id sender body reply_to f id forwarded_id busy =
      let m =
        message_of id (user_endpoint sender) (session_endpoint session_id)
          (input_payload body reply_to (is_there busy)) f.now in
      reprocessed session_id sender body reply_to f forwarded_id m busy (
        mark_session_reprocess_needed persisted log_id f (input_change sender m f busy)
          (append_to "Message" store session_id m) session_id)

  unfoldable pub append_user_input :
      Dict User → Store → String → String → String → String → Fresh → String → String → Sent
  unfolding mark_session_reprocess_needed active_worker_run_for_session log_message_for_session has
      get put strip
  append_user_input users store session_id sender body reply_to f id forwarded_id =
      require (has store.sessions session_id) unknown_session (
        require (has users sender) unknown_user (
          with_input store session_id sender body reply_to f id forwarded_id
            (active_worker_run_for_session store.dispatch_runs session_id)))
