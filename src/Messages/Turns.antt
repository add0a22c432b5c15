-- ===== src/Messages/Turns.antt =====
-- Whom an agent's Message to its Session wakes: `append_runtime_message` and the wake rules of
-- src/goal/projections.py.
use aize.Prelude.{
  ℕ, String, ◌≡◌, ◌≢◌, refl, sym, ap, ◌∙◌, subst, ◌⊎◌, inl, inr, Bool, true, false, none, some,
  ◌==◌, string_Eq, Dict,
}
use aize.Prelude.Text.{strip, starts_with}
use aize.State.{Message, WakeReason, goal_manager_role, worker_agent_role}
use aize.Endpoint.{agent_endpoint, session_recipient, user_console_recipient, session_endpoint}
use aize.Endpoint.Normal.{user_endpoint-not_agent}
use aize.Dispatch.{Store}
use aize.Projection.{DispatchLogItem, wake_reason}
use aize.Projection.Turns.{
  IsSessionMessage, IsSentBy, request_turn, report_turn, manager_sleeps, worker_sleeps,
}
use aize.Messages.{User}
use aize.Messages.Sender.{IsSender}
use aize.Messages.Write.{sent, RuntimeMessage, append_runtime_message}
use aize.Messages.Runtime.{IsAllowed, append_runtime_message-IsAllowed}

-- No endpoint that a GoalManager sends from is the WorkerAgent's.
sender_apart :
    (lower : String → String) (users : Dict User) (raw from : String)
    → IsSender lower users raw goal_manager_role from
    → from ≢ agent_endpoint worker_agent_role
unfolding starts_with
sender_apart lower users raw from (known, inl (name, named)) same =
    cc (ap (λ s. s == agent_endpoint worker_agent_role) (sym name ∙ same))
sender_apart lower users raw from (known, inr (name, slot)) same =
    cc (ap (starts_with "agent:") (sym name ∙ same), user_endpoint-not_agent raw)

console_apart : (s : String) → s ≡ session_recipient → s ≢ user_console_recipient
console_apart s same other = cc (ap (λ x. x == user_console_recipient) same, other)

-- Whom a Message wakes: a WorkerAgent's the GoalManager alone, a GoalManager's request the WorkerAgent
-- alone, and no other Message of a GoalManager anyone.
pub data IsTurn (session_id : String) (busy : Bool) (item : DispatchLogItem) (asked : Bool)
    : String → Type 0 where
  report :
      wake_reason worker_agent_role session_id busy item ≡ none
      → ((w : WakeReason) × (wake_reason goal_manager_role session_id busy item ≡ some w))
      → IsTurn session_id busy item asked worker_agent_role
  request :
      asked ≡ true
      → wake_reason goal_manager_role session_id busy item ≡ none
      → ((w : WakeReason) × (wake_reason worker_agent_role session_id busy item ≡ some w))
      → IsTurn session_id busy item asked goal_manager_role
  note :
      asked ≡ false
      → wake_reason goal_manager_role session_id busy item ≡ none
      → wake_reason worker_agent_role session_id busy item ≡ none
      → IsTurn session_id busy item asked goal_manager_role

module _ (persisted : String → ℕ) (log_id : String → String → String) (lower : String → String)
    (users : Dict User) where
  turn_of :
      (store : Store) (session_id : String) (r : RuntimeMessage) (m : Message) (busy : Bool)
      (item : DispatchLogItem)
      → (a : IsAllowed persisted log_id lower users store session_id r m)
      → strip r.recipient ≡ session_recipient
      → item.entry.kind ≡ "Message"
      → item.message ≡ some m
      → IsTurn session_id busy item r.worker_request a.role
  turn_of store session_id r m busy item a recipient kind message = by_role a.sender.0
    where
      to : m.to_endpoint ≡ session_endpoint session_id
      to = elim a.recipient [
        | inl goes ↦ goes.1
        | inr console ↦ absurd (console_apart (strip r.recipient) recipient console.1)
      ]

      unread : IsSessionMessage session_id item m a.payload
      unread = record { kind = kind; message = message; payload = a.carried; to_session = to }

      sent_by : (role : String) → a.role ≡ role → IsSentBy role a.payload
      sent_by role same = record {
        sender = a.content.names ∙ same;
        no_input = a.content.no_input;
        no_schedule = a.content.no_schedule;
      }

      by_manager :
          (b : Bool)
          → r.worker_request ≡ b
          → a.role ≡ goal_manager_role
          → IsTurn session_id busy item r.worker_request goal_manager_role
      by_manager b asked manager =
          let apart = sender_apart lower users (strip r.sender) m.from_endpoint (
            subst (λ x. IsSender lower users (strip r.sender) x m.from_endpoint) manager
              a.sender) in
          by_request b asked apart
        where
          by_request :
              (b : Bool)
              → r.worker_request ≡ b
              → m.from_endpoint ≢ agent_endpoint worker_agent_role
              → IsTurn session_id busy item r.worker_request goal_manager_role
          by_request true asked apart =
              let (asleep, woken) =
                request_turn session_id busy item m a.payload unread
                  (sent_by goal_manager_role manager) (a.content.request ∙ asked) apart in
              request asked asleep (_, woken)
          by_request false asked apart =
              note asked
                (manager_sleeps session_id busy item m a.payload unread
                  (sent_by goal_manager_role manager) apart)
                (worker_sleeps session_id busy item m a.payload unread (a.content.request ∙ asked))

      by_worker :
          (b : Bool)
          → r.worker_request ≡ b
          → a.role ≡ worker_agent_role
          → IsTurn session_id busy item r.worker_request worker_agent_role
      by_worker true asked worker =
          cc (ap (λ s. s == worker_agent_role) (sym (a.request asked).0 ∙ worker))
      by_worker false asked worker =
          let (asleep, woken) =
            report_turn session_id busy item m a.payload unread (sent_by worker_agent_role worker)
              (a.content.request ∙ asked) in
          report asleep (_, woken)

      by_role :
          (a.role ≡ goal_manager_role) ⊎ (a.role ≡ worker_agent_role)
          → IsTurn session_id busy item r.worker_request a.role
      by_role (inl manager) =
          subst (IsTurn session_id busy item r.worker_request) (sym manager)
            (by_manager r.worker_request refl manager)
      by_role (inr worker) =
          subst (IsTurn session_id busy item r.worker_request) (sym worker)
            (by_worker r.worker_request refl worker)

  -- Whom a Message wakes that `append_runtime_message` sends to its Session, once it is unread there:
  -- that of a WorkerAgent the GoalManager and not the WorkerAgent, a GoalManager's worker request the
  -- WorkerAgent and not the GoalManager, and another Message of a GoalManager neither.
  pub append_runtime_message-IsTurn :
      (store : Store) (session_id : String) (r : RuntimeMessage) (id now : String) (after : Store)
      (m : Message) (busy : Bool) (item : DispatchLogItem)
      → append_runtime_message persisted log_id lower users store session_id r id now ≡ sent after m
      → strip r.recipient ≡ session_recipient
      → item.entry.kind ≡ "Message"
      → item.message ≡ some m
      → (role : String) × IsSender lower users (strip r.sender) role m.from_endpoint
        × IsTurn session_id busy item r.worker_request role
  append_runtime_message-IsTurn store session_id r id now after m busy item h recipient kind
        message =
      let a =
        append_runtime_message-IsAllowed persisted log_id lower users store session_id r id now
          after m h in
      (a.role, a.sender, turn_of store session_id r m busy item a recipient kind message)
