-- ===== src/Messages/Runtime.antt =====
-- What the agents' Messages may do.
use aize.Prelude.{
  ℕ, String, ◌≡◌, refl, sym, ap, ◌∙◌, subst, ◌⊎◌, inl, inr, [], ◌∷◌, get, Bool, true, false, ◌&&◌,
  ◌||◌, not, Option, none, some, ◌==◌, string_Eq, truthy, Dict, has, Bool-cases, and_true, beq→eq,
}
use mathlib.Core.Option.{some-injective}
use aize.Prelude.Text.{strip, starts_with}
use aize.State.{Message, Payload, goal_manager_role}
use aize.Endpoint.Normal.{user_endpoint-not_agent}
use aize.Endpoint.{
  agent_endpoint, user_endpoint, session_endpoint, session_recipient, user_console_recipient,
  normalize_role_endpoint, normalize_endpoint, normalize_raw,
}
use aize.Dispatch.{Run, Store}
use aize.Messages.{User, Resolved, resolved, MessageError, resolve_runtime_sender}
use aize.Messages.Sender.{IsSender, resolve_runtime_sender-IsSender}
use aize.Messages.Write.{
  Sent, sent, refused, require, RuntimeMessage, is_bound, may_send, runtime_payload, deliver,
  as_sender, append_session_message, append_runtime_message, to_other,
}

require-sent :
    (b : Bool) (error : MessageError) {r : Sent} {after : Store} {m : Message}
    → require b error r ≡ sent after m
    → (b ≡ true) × (r ≡ sent after m)
require-sent true error h = (refl, h)
require-sent false error h = cc

message_in : Message → Sent → Message
message_in other (sent after m) = m
message_in other (refused error) = other

to_session :
    (session_id : String) {to : String}
    → normalize_role_endpoint session_recipient session_id ≡ some to
    → to ≡ session_endpoint session_id
unfolding normalize_role_endpoint normalize_endpoint normalize_raw
to_session session_id h = elim (Bool-cases (truthy session_id)) [
  | inl t ↦ sym (some-injective _ _ (rw t at h))
  | inr f ↦ cc (rw f at h)
]

-- What the payload of an agent's Message holds.
pub record IsContent (r : RuntimeMessage) (role from : String) (p : Payload) : Type 0 where
  pub names : p.agent_role ≡ role
  pub account :
      ((from ≡ agent_endpoint role) × (p.agent_user ≡ ""))
      ⊎ ((from ≡ user_endpoint (strip r.sender)) × (p.agent_user ≡ strip r.sender))
  pub body : p.body ≡ r.body
  pub run : p.run_id ≡ r.run_id
  pub request : p.worker_request ≡ r.worker_request
  pub no_input : p.user_input ≡ false
  pub no_schedule : p.schedule_update ≡ false
  pub event : truthy r.wake_event ≡ true → p.wake_events ≡ strip r.wake_event ∷ []
  pub no_event : truthy r.wake_event ≡ false → p.wake_events ≡ []

module _ (persisted : String → ℕ) (log_id : String → String → String) where
  -- What is known of the Message that was delivered.
  abbrev IsDelivered : String → RuntimeMessage → String → Payload → Message → Type 0
  IsDelivered session_id r from payload m =
      (m.from_endpoint ≡ from)
      × (m.payload ≡ some payload)
      × (strip r.recipient ≡ session_recipient → m.to_endpoint ≡ session_endpoint session_id)

  append_session_message-sent :
      (name : String) (store : Store) (session_id : String) (m : Message) {after : Store}
      {m' : Message}
      → append_session_message persisted log_id name store session_id m ≡ sent after m'
      → m ≡ m'
  unfolding append_session_message message_in
  append_session_message-sent name store session_id m h =
      ap (message_in m) (require-sent (has store.sessions session_id) _ h).1

  deliver-IsDelivered :
      (store : Store) (session_id : String) (r : RuntimeMessage) (id now from : String)
      (payload : Payload) {after : Store} {m : Message}
      → deliver persisted log_id store session_id r id now from payload ≡ sent after m
      → IsDelivered session_id r from payload m
  deliver-IsDelivered store session_id r id now from payload {after} {m} h =
      elim (Bool-cases (strip r.recipient == user_console_recipient)) [
        | inl t ↦
            let made =
              append_session_message-sent "Message" store session_id _
                (require-sent _ _ (rw t at h)).1 in
            (
              ap (λ (x : Message). x.from_endpoint) (sym made),
              ap (λ (x : Message). x.payload) (sym made),
              λ e. cc (ap (λ s. s == user_console_recipient) (sym e) ∙ t),
            )
        | inr f ↦ split (normalize_role_endpoint (strip r.recipient) session_id) refl (rw f at h)
      ]
    where
      split :
          (o : Option String)
          → normalize_role_endpoint (strip r.recipient) session_id ≡ o
          → to_other persisted log_id store session_id id from payload now o ≡ sent after m
          → IsDelivered session_id r from payload m
      split none e k = cc
      split (some to) e k =
          let made = append_session_message-sent "Message" store session_id _ k in
          (
            ap (λ (x : Message). x.from_endpoint) (sym made),
            ap (λ (x : Message). x.payload) (sym made),
            λ is.
                ap (λ (x : Message). x.to_endpoint) (sym made)
                ∙ to_session session_id
                    (ap (λ s. normalize_role_endpoint s session_id) (sym is) ∙ e),
          )

  -- An agent's Message that is sent. The run that it names, where it is there and has an account, is
  -- the sender's; it goes to the Session, or from a GoalManager to a user's console.
  pub record IsAllowed (lower : String → String) (users : Dict User) (store : Store)
      (session_id : String) (r : RuntimeMessage) (m : Message) : Type 0 where
    pub role : String
    pub sender : IsSender lower users (strip r.sender) role m.from_endpoint
    pub payload : Payload
    pub carried : m.payload ≡ some payload
    pub content : IsContent r role m.from_endpoint payload
    pub bound :
        (run : Run)
        → truthy r.run_id ≡ true
        → get store.dispatch_runs r.run_id ≡ some run
        → truthy (strip run.agent_user) ≡ true
        → strip run.agent_user ≡ strip r.sender
    pub recipient :
        ((strip r.recipient ≡ session_recipient) × (m.to_endpoint ≡ session_endpoint session_id))
        ⊎ ((role ≡ goal_manager_role) × (strip r.recipient ≡ user_console_recipient))
    pub request :
        r.worker_request ≡ true
        → (role ≡ goal_manager_role) × (m.to_endpoint ≡ session_endpoint session_id)

  bound_of :
      (store : Store) (sender run_id : String) (run : Run)
      → is_bound persisted log_id store sender run_id ≡ true
      → truthy run_id ≡ true
      → get store.dispatch_runs run_id ≡ some run
      → truthy (strip run.agent_user) ≡ true
      → strip run.agent_user ≡ sender
  bound_of store sender run_id run h named found account =
      beq→eq (strip run.agent_user) sender (rw (named, found, account) at h)

  recipient_of :
      (role recipient session_id to : String)
      → may_send persisted log_id role recipient ≡ true
      → (recipient ≡ session_recipient → to ≡ session_endpoint session_id)
      → ((recipient ≡ session_recipient) × (to ≡ session_endpoint session_id))
        ⊎ ((role ≡ goal_manager_role) × (recipient ≡ user_console_recipient))
  recipient_of role recipient session_id to h goes =
      elim (Bool-cases (recipient == session_recipient)) [
        | inl t ↦ let same = beq→eq recipient session_recipient t in inl (same, goes same)
        | inr f ↦
            let both =
              and_true (role == goal_manager_role) (recipient == user_console_recipient)
                (rw f at h) in
            inr
              (beq→eq role goal_manager_role both.0, beq→eq recipient user_console_recipient both.1)
      ]

  request_of :
      (asked : Bool) (role to : String)
      → (not asked || (role == goal_manager_role && to == session_recipient)) ≡ true
      → asked ≡ true
      → (role ≡ goal_manager_role) × (to ≡ session_recipient)
  request_of true role to h t =
      let both = and_true _ _ h in
      (beq→eq role goal_manager_role both.0, beq→eq to session_recipient both.1)
  request_of false role to h t = cc

  account_of :
      (lower : String → String) (users : Dict User) (r : RuntimeMessage) (role from : String)
      → IsSender lower users (strip r.sender) role from
      → ((from ≡ agent_endpoint role)
          × ((runtime_payload persisted log_id r role from).agent_user ≡ ""))
        ⊎ ((from ≡ user_endpoint (strip r.sender))
            × ((runtime_payload persisted log_id r role from).agent_user ≡ strip r.sender))
  unfolding starts_with
  account_of lower users r role from (inl manager, inl (same, named)) =
      inl (same, rw (same, manager) refl)
  account_of lower users r role from (inr worker, inl (same, named)) =
      inl (same, rw (same, worker) refl)
  account_of lower users r role from (known, inr (same, slot)) =
      inr (same, rw same (rw (user_endpoint-not_agent (strip r.sender)) refl))

  pub append_runtime_message-IsAllowed :
      (lower : String → String) (users : Dict User) (store : Store) (session_id : String)
      (r : RuntimeMessage) (id now : String) (after : Store) (m : Message)
      → append_runtime_message persisted log_id lower users store session_id r id now ≡ sent after m
      → IsAllowed lower users store session_id r m
  unfolding append_runtime_message
  append_runtime_message-IsAllowed lower users store session_id r id now after m h =
      split (resolve_runtime_sender lower users r.sender r.group) refl
        (require-sent (has store.sessions session_id) _ h).1
    where
      split :
          (o : Resolved)
          → resolve_runtime_sender lower users r.sender r.group ≡ o
          → as_sender persisted log_id store session_id r id now o ≡ sent after m
          → IsAllowed lower users store session_id r m
      split (Resolved.refused error) e k = cc
      split (resolved role from) e k =
          let (bound, k1) = require-sent _ _ k in
          let (may, k2) = require-sent _ _ k1 in
          let (asked, k3) = require-sent _ _ k2 in
          let (event, k4) = require-sent _ _ k3 in
          let (is_from, carried, to) =
            deliver-IsDelivered store session_id r id now from
              (runtime_payload persisted log_id r role from) k4 in
          record {
            role = role;
            sender =
                subst (IsSender lower users (strip r.sender) role) (sym is_from)
                  (resolve_runtime_sender-IsSender lower users r.sender r.group role from e);
            payload = runtime_payload persisted log_id r role from;
            carried = carried;
            content = record {
              names = refl;
              account =
                  subst
                    (λ f.
                      ((f ≡ agent_endpoint role)
                        × ((runtime_payload persisted log_id r role from).agent_user ≡ ""))
                      ⊎ ((f ≡ user_endpoint (strip r.sender))
                          × ((runtime_payload persisted log_id r role from).agent_user
                              ≡ strip r.sender)))
                    (sym is_from)
                    (account_of lower users r role from
                      (resolve_runtime_sender-IsSender lower users r.sender r.group role from e));
              body = refl;
              run = refl;
              request = refl;
              no_input = refl;
              no_schedule = refl;
              event = λ t. rw t refl;
              no_event = λ f. rw f refl;
            };
            bound = λ run named found account.
                bound_of store (strip r.sender) r.run_id run bound named found account;
            recipient = recipient_of role (strip r.recipient) session_id m.to_endpoint may to;
            request = λ t.
                let (manager, session) =
                  request_of r.worker_request role (strip r.recipient) asked t in
                (manager, to session);
          }
