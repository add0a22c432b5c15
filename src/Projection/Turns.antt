-- ===== src/Projection/Turns.antt =====
-- The two roles take turns through Session Messages.
use aize.Prelude.{String, ◌≡◌, ◌≢◌, Bool, true, false, none, some, string_Eq, eq_refl, ne→beq, ◌∙◌}
use aize.Endpoint.{session_endpoint, agent_endpoint}
use aize.State.{Message, Payload, goal_manager_role, worker_agent_role}
use aize.Projection.{
  DispatchLogItem, manager_message_reason, worker_message_reason, wake_reason,
  goal_manager_wake_reason, worker_wake_reason, agent_sender_matches, reason_of,
}

-- An unread Message to its Session.
pub record IsSessionMessage (session_id : String) (item : DispatchLogItem) (m : Message)
    (p : Payload) : Type 0 where
  pub kind : item.entry.kind ≡ "Message"
  pub message : item.message ≡ some m
  pub payload : m.payload ≡ some p
  pub to_session : m.to_endpoint ≡ session_endpoint session_id

-- Sent by the slot `role` in the vocabulary of `append_runtime_message`: a marked sender role, and
-- neither user input nor a schedule update.
pub record IsSentBy (role : String) (p : Payload) : Type 0 where
  pub sender : p.agent_role ≡ role
  pub no_input : p.user_input ≡ false
  pub no_schedule : p.schedule_update ≡ false

module _ (session_id : String) (active_worker : Bool) (item : DispatchLogItem) (m : Message)
    (p : Payload) where
  manager_reads :
      IsSessionMessage session_id item m p
      → goal_manager_wake_reason item session_id active_worker
        ≡ manager_message_reason item session_id m p
  unfolding goal_manager_wake_reason
  manager_reads s = simp (s.kind, s.message, s.payload)

  worker_reads :
      IsSessionMessage session_id item m p
      → worker_wake_reason item session_id ≡ worker_message_reason item session_id m p
  unfolding worker_wake_reason
  worker_reads s = simp (s.kind, s.message, s.payload)

  -- What a GoalManager sends does not wake the GoalManager, as for its requests.
  pub manager_sleeps :
      IsSessionMessage session_id item m p
      → IsSentBy goal_manager_role p
      → m.from_endpoint ≢ agent_endpoint worker_agent_role
      → wake_reason goal_manager_role session_id active_worker item ≡ none
  unfolding wake_reason agent_sender_matches
  manager_sleeps s b other =
      manager_reads s
      ∙ simp (
        b.no_input,
        b.no_schedule,
        s.to_session,
        eq_refl,
        b.sender,
        ne→beq m.from_endpoint (agent_endpoint worker_agent_role) other,
      )

  -- What is no request does not wake the WorkerAgent.
  pub worker_sleeps :
      IsSessionMessage session_id item m p
      → p.worker_request ≡ false
      → wake_reason worker_agent_role session_id active_worker item ≡ none
  unfolding wake_reason
  worker_sleeps s r = worker_reads s ∙ simp r

  pub request_turn :
      IsSessionMessage session_id item m p
      → IsSentBy goal_manager_role p
      → p.worker_request ≡ true
      → m.from_endpoint ≢ agent_endpoint worker_agent_role
      → (wake_reason goal_manager_role session_id active_worker item ≡ none)
        × (wake_reason worker_agent_role session_id active_worker item
            ≡ some (reason_of item "WorkerRequest" "GoalManager requested WorkerAgent work." ""))
  unfolding wake_reason agent_sender_matches
  request_turn s b r other =
      (manager_sleeps s b other, worker_reads s ∙ simp (r, s.to_session, eq_refl, b.sender))

  -- A WorkerAgent's report wakes the GoalManager and not the WorkerAgent.
  pub report_turn :
      IsSessionMessage session_id item m p
      → IsSentBy worker_agent_role p
      → p.worker_request ≡ false
      → (wake_reason worker_agent_role session_id active_worker item ≡ none)
        × (wake_reason goal_manager_role session_id active_worker item
            ≡ some (
                reason_of item "WorkerReport"
                  "A WorkerAgent Session report requires GoalManager review." ""))
  unfolding wake_reason agent_sender_matches
  report_turn s b r = (
    worker_sleeps s r,
    manager_reads s ∙ simp (b.no_input, b.no_schedule, s.to_session, eq_refl, b.sender),
  )
