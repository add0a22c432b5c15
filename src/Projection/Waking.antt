-- ===== src/Projection/Waking.antt =====
-- Which log entries wake which role.
use aize.Prelude.{
  String, ◌≡◌, inl, inr, Bool, Option, none, some, arith, ◌==◌, string_Eq, Bool-cases, Option-cases,
}
use aize.State.{WakeReason, Event, Message, Payload, goal_manager_role, worker_agent_role}
use aize.Projection.{
  DispatchLogItem, reason_of, with_event, with_payload, system_signal_reason,
  goal_manager_wake_reason, worker_wake_reason, wake_reason, active_reason, goal_state_reason,
  manager_message_reason, worker_message_reason,
}

-- The reason is about the entry that it comes from.
abbrev pub IsAbout : WakeReason → DispatchLogItem → Type 0
IsAbout w item = (w.seq ≡ item.entry.seq) × (w.log_id ≡ item.entry.log_id)

module _ (item : DispatchLogItem) (w : WakeReason) where
  signal-IsAbout : (role : String) → system_signal_reason item role ≡ some w → IsAbout w item
  unfolding system_signal_reason
  signal-IsAbout role h = ground arith

  message-IsAbout :
      (m : Option Message) (f : Message → Payload → Option WakeReason)
      → ((message : Message) (payload : Payload) → f message payload ≡ some w → IsAbout w item)
      → with_payload m f ≡ some w
      → IsAbout w item
  message-IsAbout none f k h = cc
  message-IsAbout (some message) f k h = elim (Option-cases message.payload) [
    | inl e ↦ cc (rw e at h)
    | inr (payload, e) ↦ k message payload (rw e at h)
  ]

  event-IsAbout :
      (e : Option Event) (f : Event → Option WakeReason)
      → ((event : Event) → f event ≡ some w → IsAbout w item)
      → with_event e f ≡ some w
      → IsAbout w item
  event-IsAbout none f k h = cc
  event-IsAbout (some event) f k h = k event h

  manager_message-IsAbout :
      (sid : String) (message : Message) (payload : Payload)
      → manager_message_reason item sid message payload ≡ some w
      → IsAbout w item
  unfolding reason_of
  manager_message-IsAbout sid message payload h = ground arith

  manager-IsAbout :
      (sid : String) (aw : Bool) → goal_manager_wake_reason item sid aw ≡ some w → IsAbout w item
  unfolding goal_manager_wake_reason
  manager-IsAbout sid aw h = elim (Bool-cases (item.entry.kind == "SessionActiveChanged")) [
    | inl t ↦ event-IsAbout item.entry.event (active_reason item) (λ e k. ground arith) (rw t at h)
    | inr f1 ↦ elim (Bool-cases (item.entry.kind == "GoalStateChanged")) [
      | inl t ↦
          event-IsAbout item.entry.event (goal_state_reason item aw) (λ e k. ground arith)
            (rw (f1, t) at h)
      | inr f2 ↦ elim (Bool-cases (item.entry.kind == "SystemSignal")) [
        | inl t ↦ signal-IsAbout goal_manager_role (rw (f1, f2, t) at h)
        | inr f3 ↦ elim (Bool-cases (item.entry.kind == "ChildGoalCompleted")) [
          | inl t ↦ let k = rw (f1, f2, f3, t) at h in ground (arith, k)
          | inr f4 ↦
              message-IsAbout item.message (manager_message_reason item sid)
                (manager_message-IsAbout sid) (rw (f1, f2, f3, f4) at h)
        ]
      ]
    ]
  ]

  worker_message-IsAbout :
      (sid : String) (message : Message) (payload : Payload)
      → worker_message_reason item sid message payload ≡ some w
      → IsAbout w item
  unfolding reason_of
  worker_message-IsAbout sid message payload h = ground arith

  worker-IsAbout : (sid : String) → worker_wake_reason item sid ≡ some w → IsAbout w item
  unfolding worker_wake_reason
  worker-IsAbout sid h = elim (Bool-cases (item.entry.kind == "SystemSignal")) [
    | inl t ↦ signal-IsAbout worker_agent_role (rw t at h)
    | inr f ↦
        message-IsAbout item.message (worker_message_reason item sid) (worker_message-IsAbout sid)
          (rw f at h)
  ]

  pub wake_reason-IsAbout :
      (role sid : String) (aw : Bool) → wake_reason role sid aw item ≡ some w → IsAbout w item
  unfolding wake_reason
  wake_reason-IsAbout role sid aw h = elim (Bool-cases (role == goal_manager_role)) [
    | inl t ↦ manager-IsAbout sid aw (rw t at h)
    | inr f ↦ elim (Bool-cases (role == worker_agent_role)) [
      | inl t ↦ worker-IsAbout sid (rw (f, t) at h)
      | inr g ↦ cc (rw (f, g) at h)
    ]
  ]
