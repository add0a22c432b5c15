-- ===== src/Projection/Examples.antt =====
-- Tests of the projection, and its theorems at a concrete SessionLog.
use mathlib.Core.Option
use aize.Prelude.{
  ℕ, String, ◌≡◌, refl, ◌⊎◌, Bool, true, false, Option, none, some, List, [], ◌∷◌, In, contains,
}
use aize.Prelude.Text.{strip}
use aize.Endpoint.{agent_endpoint}
use aize.State.{
  LogEntry, Message, Payload, Event, blank_event, WakeReason, goal_manager_role, worker_agent_role,
}
use aize.Projection.{DispatchLogItem, RoleDispatchReadiness, derive_role_dispatch_readiness}
use aize.Projection.Derived.{Describes, wakes, derive-Describes}

abbrev payload : String → Bool → Payload
payload role request = record {
  body = "text";
  user_input = false;
  worker_request = request;
  worker_followup = false;
  schedule_update = false;
  defer_goal_manager_until_worker_report = false;
  agent_role = role;
  agent_user = "";
  run_id = "run-1";
  reply_to = "";
  wake_events = [];
}

abbrev message : String → Bool → Message
message role request = record {
  message_id = "msg-1";
  from_endpoint = agent_endpoint role;
  to_endpoint = "session:s1";
  payload = some (payload role request);
  created_at = "2026-01-01T00:00:00Z";
}

abbrev entry : ℕ → String → Option Event → Option Message → LogEntry
entry seq kind event m = record {
  log_id = "log-1";
  seq = seq;
  session_id = "s1";
  kind = kind;
  created_at = "2026-01-01T00:00:00Z";
  message_id = "msg-1";
  event = event;
  event_key = "";
  message = m;
}

abbrev message_item : ℕ → String → Bool → DispatchLogItem
message_item seq role request =
    let m = some (message role request) in
    record { entry = entry seq "Message" none m; message = m }

-- A retry signal that is delayed, as `_log_system_signal` writes it.
abbrev signal_item : ℕ → String → DispatchLogItem
signal_item seq until = record {
  entry =
      entry seq "SystemSignal"
        (some (record blank_event {
          signal_type = "Retry";
          target_roles = some (goal_manager_role ∷ []);
          available_after = until;
        }))
        none;
  message = none;
}

abbrev log : List DispatchLogItem
log =
    message_item 4 goal_manager_role true
    ∷ signal_item 5 "2026-01-01T00:00:30Z"
    ∷ signal_item 6 "2026-01-01T00:00:10Z"
    ∷ []

-- The GoalManager's own request is inside its window and does not wake it: both reasons are delayed.
retry_later :
    Option.map
      (λ (r : RoleDispatchReadiness). r.available_after)
      (derive_role_dispatch_readiness log goal_manager_role "s1" false)
    ≡ some "2026-01-01T00:00:10Z"
unfolding derive_role_dispatch_readiness contains strip
retry_later = refl

whole_window :
    Option.map
      (λ (r : RoleDispatchReadiness). r.from_log_seq)
      (derive_role_dispatch_readiness log worker_agent_role "s1" false)
    ≡ some 4
unfolding derive_role_dispatch_readiness contains strip
whole_window = refl

derive-Describes_example :
    ((derive_role_dispatch_readiness log goal_manager_role "s1" false ≡ none)
      × ((x : DispatchLogItem) → In x log → wakes goal_manager_role "s1" false x ≡ none))
    ⊎ ((r : RoleDispatchReadiness) × (derive_role_dispatch_readiness log goal_manager_role "s1"
            false
          ≡ some r)
        × Describes goal_manager_role "s1" false log r
        × (x : DispatchLogItem) × In x log
        × (w : WakeReason) × (wakes goal_manager_role "s1" false x ≡ some w))
derive-Describes_example = derive-Describes goal_manager_role "s1" false log
