-- ===== src/Projection.antt =====
-- Readiness derived from unread SessionLog entries: src/goal/projections.py. `normalize_endpoint`
-- gives the Session endpoint of a Session, and the legacy endpoint of a role.
pub mod Sorting
pub mod Window
pub mod Waking
pub mod Derived
pub mod Turns
mod Examples
use Prim.Native.String.{◌++◌ as append}
use aize.Prelude.{
  ℕ, String, Bool, true, false, ◌&&◌, ◌||◌, not, Option, none, some, List, [], ◌∷◌, map, min, max,
  ◌==◌, string_Eq, nat_Eq, if◌then◌else◌, leb, truthy, length, contains, keep_if,
}
use aize.Prelude.Order.{str_Order}
use aize.Prelude.Minimum.{min_from}
use aize.Prelude.Text.{strip}
use aize.Endpoint.{agent_endpoint, session_endpoint}
use aize.State.{LogEntry, Event, Message, Payload, WakeReason, goal_manager_role, worker_agent_role}

pub record DispatchLogItem : Type 0 where
  pub entry : LogEntry
  pub message : Option Message

pub record RoleDispatchReadiness : Type 0 where
  pub from_log_seq : ℕ
  pub observed_to_seq : ℕ
  pub wake_reasons : List WakeReason
  pub available_after : String

abbrev message_id_of : Option Message → String
message_id_of none = ""
message_id_of (some m) = m.message_id

unfoldable pub reason_of : DispatchLogItem → String → String → String → WakeReason
reason_of item kind reason available_after = record {
  seq = item.entry.seq;
  kind = kind;
  reason = reason;
  message_id = message_id_of item.message;
  log_id = item.entry.log_id;
  available_after = available_after;
}

-- `isinstance(target_roles, list) and role not in target_roles`
abbrev pub is_for_another : Option (List String) → String → Bool
is_for_another none role = false
is_for_another (some roles) role = not (contains role roles)

abbrev signal_name : String → String
signal_name t = if truthy t then t else "system"

abbrev signal_reason : DispatchLogItem → String → Event → Option WakeReason
signal_reason item role event =
    if is_for_another event.target_roles role
    then none
    else some (
        reason_of item "SystemSignal"
          (append "System signal " (
            append (signal_name event.signal_type)
              (append " requires " (append role " processing."))))
          (strip event.available_after))

unfoldable pub system_signal_reason : DispatchLogItem → String → Option WakeReason
unfolding contains reason_of strip
system_signal_reason item role = elim item.entry.event [
  | none ↦ none
  | some event ↦ signal_reason item role event
]

-- `payload` is the payload of `message`.
unfoldable pub agent_sender_matches : Message → Payload → String → Bool
agent_sender_matches message payload role =
    payload.agent_role == role || message.from_endpoint == agent_endpoint role

abbrev active_reason : DispatchLogItem → Event → Option WakeReason
active_reason item event =
    if event.active
    then some
        (reason_of item "SessionActivated" "Session became active with an incomplete Goal." "")
    else none

abbrev goal_state_reason : DispatchLogItem → Bool → Event → Option WakeReason
goal_state_reason item active_worker event =
    if not (event.completion_state == "incomplete")
    then none
    else if event.defer_goal_manager_until_worker_report
    then none
    else if event.actor == agent_endpoint goal_manager_role
    then none
    else if active_worker
    then none
    else some
        (reason_of item "GoalIncomplete" "SessionGoal became incomplete outside GoalManager." "")

abbrev with_event : Option Event → (Event → Option WakeReason) → Option WakeReason
with_event none f = none
with_event (some event) f = f event

-- The Message and its payload, where both are there.
abbrev with_payload : Option Message → (Message → Payload → Option WakeReason) → Option WakeReason
with_payload none f = none
with_payload (some message) f = elim message.payload [
  | none ↦ none
  | some payload ↦ f message payload
]

abbrev pub manager_message_reason : DispatchLogItem → String → Message → Payload → Option WakeReason
manager_message_reason item session_id message payload =
    if payload.user_input
    then if payload.worker_request || payload.defer_goal_manager_until_worker_report
      then none
      else some (reason_of item "UserInput" "New UserInput requires GoalManager review." "")
    else if payload.schedule_update
    then some
        (reason_of item "ScheduleUpdate" "A Unit schedule update requires GoalManager review." "")
    else if message.to_endpoint == session_endpoint session_id
        && agent_sender_matches message payload worker_agent_role
    then some (
        reason_of item "WorkerReport" "A WorkerAgent Session report requires GoalManager review."
          "")
    else none

unfoldable pub goal_manager_wake_reason : DispatchLogItem → String → Bool → Option WakeReason
unfolding system_signal_reason agent_sender_matches reason_of
goal_manager_wake_reason item session_id active_worker =
    let kind = item.entry.kind in
    if kind == "SessionActiveChanged"
    then with_event item.entry.event (active_reason item)
    else if kind == "GoalStateChanged"
    then with_event item.entry.event (goal_state_reason item active_worker)
    else if kind == "SystemSignal"
    then system_signal_reason item goal_manager_role
    else if kind == "ChildGoalCompleted"
    then some (
        reason_of item "ChildGoalCompleted"
          "A child SessionGoal completed and requires parent review." "")
    else with_payload item.message (manager_message_reason item session_id)

abbrev pub worker_message_reason : DispatchLogItem → String → Message → Payload → Option WakeReason
worker_message_reason item session_id message payload =
    if not payload.worker_request
    then none
    else if not (message.to_endpoint == session_endpoint session_id)
    then none
    else if agent_sender_matches message payload goal_manager_role
    then some (reason_of item "WorkerRequest" "GoalManager requested WorkerAgent work." "")
    else if payload.worker_followup
    then some
        (reason_of item "WorkerFollowup" "New UserInput must reach the active WorkerAgent." "")
    else none

unfoldable pub worker_wake_reason : DispatchLogItem → String → Option WakeReason
unfolding system_signal_reason agent_sender_matches reason_of
worker_wake_reason item session_id =
    if item.entry.kind == "SystemSignal"
    then system_signal_reason item worker_agent_role
    else with_payload item.message (worker_message_reason item session_id)

unfoldable pub wake_reason : String → String → Bool → DispatchLogItem → Option WakeReason
unfolding goal_manager_wake_reason worker_wake_reason
wake_reason role session_id active_worker item =
    if role == goal_manager_role
    then goal_manager_wake_reason item session_id active_worker
    else if role == worker_agent_role
    then worker_wake_reason item session_id
    else none

-- `[reason for item in items if (reason := f(item)) is not None]`
abbrev add_found : Option WakeReason → List WakeReason → List WakeReason
add_found none rest = rest
add_found (some r) rest = r ∷ rest

unfoldable pub collect :
    (DispatchLogItem → Option WakeReason) → List DispatchLogItem → List WakeReason
collect f [] = []
collect f (item ∷ items) = add_found (f item) (collect f items)

-- `sorted(reasons, key=lambda reason: reason.seq)`, a stable sort.
unfoldable pub insert_by_seq : WakeReason → List WakeReason → List WakeReason
insert_by_seq r [] = r ∷ []
insert_by_seq r (x ∷ xs) =
    let rest = insert_by_seq r xs in if leb r.seq x.seq then r ∷ x ∷ xs else x ∷ rest

unfoldable pub sort_by_seq : List WakeReason → List WakeReason
unfolding insert_by_seq
sort_by_seq [] = []
sort_by_seq (r ∷ rs) = insert_by_seq r (sort_by_seq rs)

unfoldable pub min_seq : DispatchLogItem → List DispatchLogItem → ℕ
min_seq item [] = item.entry.seq
min_seq item (next ∷ items) = min item.entry.seq (min_seq next items)

unfoldable pub max_seq : DispatchLogItem → List DispatchLogItem → ℕ
max_seq item [] = item.entry.seq
max_seq item (next ∷ items) = max item.entry.seq (max_seq next items)

abbrev pub is_delayed : WakeReason → Bool
is_delayed r = truthy r.available_after

abbrev earliest : List String → String
earliest [] = ""
earliest (a ∷ rest) = min_from str_Order (λ s. s) a rest

-- Empty when some reason has no delay; else the earliest delay.
unfoldable pub delay_of : List WakeReason → String
unfolding keep_if min_from
delay_of reasons =
    let delayed = keep_if is_delayed reasons in
    if length delayed == length reasons
    then earliest (map (λ (r : WakeReason). r.available_after) delayed)
    else ""

abbrev window :
    DispatchLogItem → List DispatchLogItem → List WakeReason → Option RoleDispatchReadiness
window item items [] = none
window item items (r ∷ rs) = some (record {
  from_log_seq = min_seq item items;
  observed_to_seq = max_seq item items;
  wake_reasons = sort_by_seq (r ∷ rs);
  available_after = delay_of (r ∷ rs);
})

unfoldable pub derive_role_dispatch_readiness :
    List DispatchLogItem → String → String → Bool → Option RoleDispatchReadiness
unfolding wake_reason collect sort_by_seq min_seq max_seq delay_of
derive_role_dispatch_readiness [] role session_id active_worker = none
derive_role_dispatch_readiness (item ∷ items) role session_id active_worker =
    window item items (collect (wake_reason role session_id active_worker) (item ∷ items))
