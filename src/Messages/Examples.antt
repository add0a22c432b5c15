-- ===== src/Messages/Examples.antt =====
-- Tests of the Messages, and their theorems at a user's and a GoalManager's Message.
use aize.Prelude.{
  ℕ, String, ◌≡◌, refl, true, false, none, some, List, [], ◌∷◌, get, map, Dict, has, ◌==◌,
  string_Eq, if◌then◌else◌,
}
use aize.Prelude.Text.{strip}
use aize.State.{LogEntry, Message}
use aize.Dispatch.{Store}
use aize.Dispatch.Examples.{store, manager_run}
use aize.Goals.Current.{Keyed}
use aize.Sessions.{Fresh}
use aize.Messages.{User, resolved, resolve_runtime_sender, session_messages, receive_message}
use aize.Projection.{DispatchLogItem}
use aize.Endpoint.{session_recipient}
use aize.Messages.Turns.{IsTurn, append_runtime_message-IsTurn}
use aize.Messages.Input.{IsTaken, append_user_input-IsTaken}
use aize.Messages.Sender.{IsSender, resolve_runtime_sender-IsSender}
use aize.Messages.Write.{
  Sent, sent, refused, message_of, append_user_input, append_runtime_message, RuntimeMessage,
}

abbrev on_disk : String → ℕ
on_disk sid = 0

abbrev log_id : String → String → String
log_id sid name = name

abbrev lower : String → String
lower s = if s == "GoalManager" then "goalmanager" else s

abbrev users : Dict User
users =
    ("root", record { status = "active"; groups = [] })
    ∷ ("svc", record { status = "service"; groups = "manage" ∷ "other" ∷ [] })
    ∷ []

abbrev fresh : Fresh
fresh = record { new_goal_id = "g2"; signal_id = "sig"; revision = "rev"; now = "t7" }

-- A WorkerAgent is busy in the Session.
abbrev busy : Store
busy = record store {
  dispatch_runs =
      ("run-1", record manager_run { role = "WorkerAgent"; current_phase = "WorkerAgent" }) ∷ [];
}

abbrev store_of : Sent → Store
store_of (sent after m) = after
store_of (refused error) = store

abbrev message_or : Sent → Message
message_or (sent after m) = m
message_or (refused error) =
    message_of "" "" ""
      (record {
        body = "";
        user_input = false;
        worker_request = false;
        worker_followup = false;
        schedule_update = false;
        defer_goal_manager_until_worker_report = false;
        agent_role = "";
        agent_user = "";
        run_id = "";
        reply_to = "";
        wake_events = [];
      })
      ""

abbrev input : Sent
input = append_user_input on_disk log_id users busy "s1" "root" "hello" "" fresh "m1" "m2"

forwarded :
    map (λ (m : Message). m.message_id) (session_messages (store_of input).session_logs "s1")
    ≡ "m1" ∷ "m2" ∷ []
unfolding append_user_input session_messages
forwarded = refl

busy-Keyed : Keyed busy.goals
unfolding get
busy-Keyed = (refl, tt)

has_session : has busy.sessions "s1" ≡ true
unfolding has
has_session = refl

has_user : has users "root" ≡ true
unfolding has
has_user = refl

unused : get busy.goals "g2" ≡ none
unfolding get
unused = refl

append_user_input-IsTaken_example : IsTaken "s1" input
append_user_input-IsTaken_example =
    append_user_input-IsTaken on_disk log_id users busy "s1" "root" "hello" "" fresh "m1" "m2" refl
      has_session has_user busy-Keyed unused

slot_account : resolve_runtime_sender lower users "svc" "" ≡ resolved "GoalManager" "user:svc"
unfolding resolve_runtime_sender
slot_account = refl

resolve_runtime_sender-IsSender_example :
    IsSender lower users (strip "svc") "GoalManager" "user:svc"
resolve_runtime_sender-IsSender_example =
    resolve_runtime_sender-IsSender lower users "svc" "" "GoalManager" "user:svc" slot_account

abbrev request : RuntimeMessage
request = record {
  sender = "GoalManager";
  group = "";
  recipient = "Session";
  body = "work";
  run_id = "run-1";
  recipient_endpoint_id = "";
  worker_request = true;
  wake_event = "";
}

abbrev reply : Sent
reply = append_runtime_message on_disk log_id lower users store "s1" request "m3" "t8"

is_sent : reply ≡ sent (store_of reply) (message_or reply)
unfolding append_runtime_message
is_sent = refl

abbrev unread_entry : LogEntry
unread_entry = record {
  log_id = "l9";
  seq = 9;
  session_id = "s1";
  kind = "Message";
  created_at = "t8";
  message_id = "m3";
  event = none;
  event_key = "";
  message = some (message_or reply);
}

abbrev unread_item : DispatchLogItem
unread_item = record { entry = unread_entry; message = some (message_or reply) }

to_the_session : strip request.recipient ≡ session_recipient
unfolding strip
to_the_session = refl

append_runtime_message-IsTurn_example :
    (role : String) × IsSender lower users
      (strip request.sender)
      role
      (message_or reply).from_endpoint
    × IsTurn "s1" true unread_item true role
append_runtime_message-IsTurn_example =
    append_runtime_message-IsTurn on_disk log_id lower users store "s1" request "m3" "t8"
      (store_of reply) (message_or reply) true unread_item is_sent to_the_session refl refl

-- The cursor moves past what is received.
abbrev posted : List Message
posted = message_or input ∷ record (message_or input) { message_id = "m9" } ∷ []

second_next :
    receive_message (("session:s1", "m1") ∷ []) posted "session:s1" ""
    ≡ (("session:s1", "m9") ∷ [], some (record (message_or input) { message_id = "m9" }))
unfolding receive_message append_user_input
second_next = refl
