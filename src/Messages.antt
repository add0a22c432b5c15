-- ===== src/Messages.antt =====
-- Session Messages: src/kernel/messages.py and src/goal/messages.py. `users` holds the accounts;
-- `lower` stands for `str.lower`. Left out: attached files, and payload keys that are only shown.
pub mod Write
pub mod Input
pub mod Sender
pub mod Runtime
pub mod Turns
mod Examples
use Prim.Native.String.{◌++◌ as append}
use aize.Prelude.{
  ℕ, zero, suc, String, Bool, true, false, ◌&&◌, ◌||◌, not, Option, none, some, List, [], ◌∷◌, map,
  reverse, ◌==◌, string_Eq, if◌then◌else◌, truthy, Dict, get, put, has, values, contains, keep_if,
}
use aize.Prelude.Order.{str_Order}
use aize.Prelude.Sort.{sort_by, last_of}
use aize.Prelude.Text.{strip, starts_with, after_colon}
use aize.State.{LogEntry, Message, Payload, holds_lease, goal_manager_role, worker_agent_role}
use aize.SessionLog.{Logs, log_of, log_message_for_session, touch}
use aize.Endpoint.{
  session_endpoint, user_endpoint, agent_endpoint, console_endpoint, session_recipient,
  user_console_recipient, canonical_endpoint, legacy_endpoint_alias, normalize_agent_role,
  normalize_role_endpoint, role_aliases,
}
use aize.Dispatch.{Run, Store, is_supported}
use aize.Commit.{message_for_log_entry}
use aize.Goals.{Change}
use aize.Sessions.{Fresh, mark_session_reprocess_needed}

pub record User : Type 0 where
  pub status : String
  pub groups : List String

abbrev pub blank_payload : Payload
blank_payload = record {
  body = "";
  user_input = false;
  worker_request = false;
  worker_followup = false;
  schedule_update = false;
  defer_goal_manager_until_worker_report = false;
  agent_role = "";
  agent_user = "";
  run_id = "";
  reply_to = "";
  wake_events = [];
}

-- `_session_messages`
abbrev add_message : Option Message → List Message → List Message
add_message none rest = rest
add_message (some m) rest = m ∷ rest

unfoldable pub messages_in : List LogEntry → List Message
messages_in [] = []
messages_in (e ∷ es) =
    let rest = messages_in es in
    if e.kind == "Message" then add_message (message_for_log_entry e) rest else rest

unfoldable pub session_messages : Logs → String → List Message
unfolding messages_in get
session_messages logs session_id = messages_in (log_of logs session_id)

-- `_active_worker_run_for_session`
abbrev pub works_in : String → Run → Bool
works_in session_id run =
    run.session_id == session_id
    && holds_lease run.lease_state
    && run.current_phase == worker_agent_role

abbrev started : Run → String
started run = if truthy run.lease_acquired_at then run.lease_acquired_at else run.created_at

unfoldable pub active_worker_run_for_session : Dict Run → String → Option Run
unfolding keep_if sort_by last_of values
active_worker_run_for_session runs session_id =
    last_of (sort_by str_Order started (keep_if (works_in session_id) (values runs)))

-- `_messages_after_cursor` on the list of all Messages; the cursor is the id of the last one read.
unfoldable pub behind : String → List Message → Option (List Message)
behind cursor_id [] = none
behind cursor_id (m ∷ ms) =
    let rest = behind cursor_id ms in if m.message_id == cursor_id then some ms else rest

abbrev or_all : List Message → Option (List Message) → List Message
or_all messages none = messages
or_all messages (some rest) = rest

abbrev cursor_text : Option String → String
cursor_text none = ""
cursor_text (some s) = s

abbrev pub cursor_at : Dict String → String → String
cursor_at cursors endpoint =
    let own = cursor_text (get cursors endpoint) in
    if truthy own then own else cursor_text (get cursors (legacy_endpoint_alias endpoint))

abbrev is_to : String → Message → Bool
is_to endpoint m = canonical_endpoint m.to_endpoint == endpoint

unfoldable pub messages_after_cursor : Dict String → List Message → String → List Message
unfolding behind keep_if get canonical_endpoint legacy_endpoint_alias
messages_after_cursor cursors messages endpoint =
    let named = canonical_endpoint endpoint in
    let cursor_id = cursor_at cursors named in
    keep_if (is_to named)
      (if truthy cursor_id then or_all messages (behind cursor_id messages) else messages)

-- `_advance_endpoint_cursor`: the loop over the reversed Messages.
unfoldable pub last_to : String → List Message → Option Message
last_to endpoint [] = none
last_to endpoint (m ∷ ms) =
    let rest = last_to endpoint ms in if is_to endpoint m then some m else rest

abbrev advanced : Dict String → String → Option Message → Dict String
advanced cursors endpoint none = cursors
advanced cursors endpoint (some m) = put cursors endpoint m.message_id

unfoldable pub advance_endpoint_cursor : Dict String → String → List Message → Dict String
unfolding last_to put canonical_endpoint
advance_endpoint_cursor cursors endpoint messages =
    let named = canonical_endpoint endpoint in
    advanced cursors named (last_to named (reverse messages))

-- `receive_message` on the Messages behind the cursor, with the normalised endpoint.
abbrev is_of_session : String → Message → Bool
is_of_session session_id m = not (truthy session_id) || m.to_endpoint == session_endpoint session_id

unfoldable pub first_of : String → List Message → Option Message
first_of session_id [] = none
first_of session_id (m ∷ ms) =
    let rest = first_of session_id ms in if is_of_session session_id m then some m else rest

abbrev received : Dict String → String → Option Message → Dict String × Option Message
received cursors endpoint none = (cursors, none)
received cursors endpoint (some m) = (advance_endpoint_cursor cursors endpoint (m ∷ []), some m)

unfoldable pub receive_message :
    Dict String → List Message → String → String → Dict String × Option Message
unfolding messages_after_cursor advance_endpoint_cursor first_of
receive_message cursors messages endpoint session_id =
    received cursors endpoint
      (first_of session_id (messages_after_cursor cursors messages endpoint))

-- `_latest_reply_endpoint_for_session`: the loop over the reversed Messages.
abbrev reply_of : String → Message → Option Payload → String
reply_of session_id m none = ""
reply_of session_id m (some p) =
    if m.to_endpoint == session_endpoint session_id && p.user_input then strip p.reply_to else ""

unfoldable pub first_reply : String → List Message → String
unfolding strip
first_reply session_id [] = ""
first_reply session_id (m ∷ ms) =
    let rest = first_reply session_id ms in
    let own = reply_of session_id m m.payload in if truthy own then own else rest

unfoldable pub latest_reply_endpoint_for_session : Logs → String → String
unfolding first_reply session_messages
latest_reply_endpoint_for_session logs session_id =
    first_reply session_id (reverse (session_messages logs session_id))

-- Why a Message is refused.
pub data MessageError : Type 0 where
  unknown_session unknown_user no_sender bad_sender unknown_group not_member no_group wrong_identity
        bad_recipient bad_request bad_wake_event no_reply bad_endpoint :
      MessageError

pub data Resolved : Type 0 where
  resolved : String → String → Resolved
  refused : MessageError → Resolved

abbrev pub slot_roles : Dict String
slot_roles = ("manage", goal_manager_role) ∷ ("work", worker_agent_role) ∷ []

abbrev pub as_role : String → String → Option String → Resolved
as_role raw group none = refused unknown_group
as_role raw group (some role) = resolved role (user_endpoint raw)

-- The one slot group of the account; `candidates` are its slot groups.
abbrev pub only_group : String → List String → Resolved
only_group raw [] = refused no_group
only_group raw (group ∷ []) = as_role raw group (get slot_roles group)
only_group raw (group ∷ other ∷ rest) = refused no_group

abbrev pub by_group : String → String → User → Resolved
by_group raw group user =
    if truthy group
    then if has slot_roles group
      then if contains group user.groups
        then as_role raw group (get slot_roles group)
        else refused not_member
      else refused unknown_group
    else only_group raw (keep_if (has slot_roles) user.groups)

abbrev pub by_account : String → String → Option User → Resolved
by_account raw group none = refused bad_sender
by_account raw group (some user) = by_group raw group user

module _ (lower : String → String) where
  abbrev pub is_role_name : String → String → Bool
  is_role_name raw role = is_supported role && (is_supported raw || has role_aliases (lower raw))

  -- `_resolve_runtime_sender`: the role of the sending agent and its endpoint.
  unfoldable pub resolve_runtime_sender : Dict User → String → String → Resolved
  unfolding normalize_agent_role get has contains keep_if strip
  resolve_runtime_sender users sender group =
      let raw = strip sender in
      let role = normalize_agent_role lower raw in
      if not (truthy raw)
      then refused no_sender
      else if is_role_name raw role
      then resolved role (agent_endpoint role)
      else by_account raw (strip group) (get users raw)
