-- ===== src/Commit/Calm.antt =====
-- When a log entry requires nothing new of a run.
use aize.Prelude.{
  String, ◌≡◌, ◌≢◌, refl, ap, ◌↔◌, inl, inr, Bool, true, false, Option, none, some, ◌==◌, string_Eq,
  if◌then◌else◌, truthy, Bool-cases, Option-cases, beq→eq, beq→ne, beq_refl,
}
use aize.State.{LogEntry, Event, Message, Payload}
use aize.Commit.{
  Conflict, body_revision, newer_message, newer_goal_state, entry_conflict, event_run_id,
  is_payload_of, payload_of, message_for_log_entry,
}

-- The event is the run's own; an absent event counts as one of the empty run id.
abbrev pub IsOwnEvent : String → Option Event → Type 0
IsOwnEvent run_id none = "" ≡ run_id
IsOwnEvent run_id (some event) = event.run_id ≡ run_id

-- The entry has a Message, and its payload names the run.
pub record IsOwnMessage (run_id : String) (e : LogEntry) : Type 0 where
  pub identified : truthy e.message_id ≡ true
  pub message : Message
  pub payload : Payload
  pub embedded : e.message ≡ some message
  pub carried : message.payload ≡ some payload
  pub named : payload.run_id ≡ run_id

-- The entry requires nothing new of the run: a revision of the goal's body, a decision on the goal or a
-- Message is the run's own, and no child completed.
pub record IsCalm (run_id : String) (e : LogEntry) : Type 0 where
  pub body : e.kind ≡ "GoalBodyUpdated" → IsOwnEvent run_id e.event
  pub message : e.kind ≡ "Message" → IsOwnMessage run_id e
  pub state : e.kind ≡ "GoalStateChanged" → IsOwnEvent run_id e.event
  pub child : e.kind ≢ "ChildGoalCompleted"

own_event :
    (run_id : String) (o : Option Event) → ((event_run_id o == run_id) ≡ true) ↔ IsOwnEvent run_id o
own_event run_id none = (λ h. beq→eq "" run_id h, λ h. rw h (beq_refl run_id))
own_event run_id (some event) = (λ h. beq→eq event.run_id run_id h, λ h. rw h (beq_refl run_id))

own_payload :
    (run_id : String) (o : Option Message)
    → is_payload_of run_id (payload_of o) ≡ true
    → (m : Message) × (p : Payload) × (o ≡ some m) × (m.payload ≡ some p) × (p.run_id ≡ run_id)
own_payload run_id none h = cc
own_payload run_id (some m) h = elim (Option-cases m.payload) [
  | inl absent ↦ cc (rw absent at h)
  | inr (p, found) ↦ (m, p, refl, found, beq→eq p.run_id run_id (rw found at h))
]

own_message :
    (run_id : String) (e : LogEntry)
    → (is_payload_of run_id (payload_of (message_for_log_entry e)) ≡ true) ↔ IsOwnMessage run_id e
own_message run_id e = elim (Bool-cases (truthy e.message_id)) [
  | inl t ↦ (
    λ h.
        let (m, p, embedded, carried, named) = own_payload run_id e.message (rw t at h) in
        record {
          identified = t;
          message = m;
          payload = p;
          embedded = embedded;
          carried = carried;
          named = named;
        },
    λ own. rw (t, own.embedded, own.carried, own.named) (beq_refl run_id),
  )
  | inr f ↦ (λ h. cc (rw f at h), λ own. cc (own.identified, f))
]

unless-none : (b : Bool) (c : Conflict) → ((if b then none else some c) ≡ none) ↔ (b ≡ true)
unless-none true c = (λ h. refl, λ h. refl)
unless-none false c = (λ h. cc, λ h. cc)

-- A text is not two names.
one_name : (s a b : String) {C : Type 0} → (a == b) ≡ false → (s == b) ≡ true → s ≡ a → C
one_name s a b apart t same = cc (ap (λ x. x == b) same, apart, t)

not_this : (s a : String) {C : Type 0} → (s == a) ≡ false → s ≡ a → C
not_this s a f same = absurd (beq→ne s a f same)

-- An entry is no conflict exactly when it is calm.
pub entry_conflict-IsCalm :
    (run_id : String) (e : LogEntry) → (entry_conflict run_id e ≡ none) ↔ IsCalm run_id e
entry_conflict-IsCalm run_id e = elim (Bool-cases (e.kind == "GoalBodyUpdated")) [
  | inl b ↦
      let own = own_event run_id e.event in
      let step = unless-none (event_run_id e.event == run_id) body_revision in
      (
        λ h. record {
          body = λ k. own.0 (step.0 (rw b at h));
          message = λ k. one_name e.kind "Message" "GoalBodyUpdated" refl b k;
          state = λ k. one_name e.kind "GoalStateChanged" "GoalBodyUpdated" refl b k;
          child = λ k. one_name e.kind "ChildGoalCompleted" "GoalBodyUpdated" refl b k;
        },
        λ c. rw b (step.1 (own.1 (c.body (beq→eq e.kind "GoalBodyUpdated" b)))),
      )
  | inr nb ↦ elim (Bool-cases (e.kind == "Message")) [
    | inl b ↦
        let own = own_message run_id e in
        let step =
          unless-none (is_payload_of run_id (payload_of (message_for_log_entry e))) newer_message in
        (
          λ h. record {
            body = λ k. not_this e.kind "GoalBodyUpdated" nb k;
            message = λ k. own.0 (step.0 (rw (nb, b) at h));
            state = λ k. one_name e.kind "GoalStateChanged" "Message" refl b k;
            child = λ k. one_name e.kind "ChildGoalCompleted" "Message" refl b k;
          },
          λ c. rw (nb, b) (step.1 (own.1 (c.message (beq→eq e.kind "Message" b)))),
        )
    | inr nm ↦ elim (Bool-cases (e.kind == "GoalStateChanged")) [
      | inl b ↦
          let own = own_event run_id e.event in
          let step = unless-none (event_run_id e.event == run_id) newer_goal_state in
          (
            λ h. record {
              body = λ k. not_this e.kind "GoalBodyUpdated" nb k;
              message = λ k. not_this e.kind "Message" nm k;
              state = λ k. own.0 (step.0 (rw (nb, nm, b) at h));
              child = λ k. one_name e.kind "ChildGoalCompleted" "GoalStateChanged" refl b k;
            },
            λ c. rw (nb, nm, b) (step.1 (own.1 (c.state (beq→eq e.kind "GoalStateChanged" b)))),
          )
      | inr ns ↦ elim (Bool-cases (e.kind == "ChildGoalCompleted")) [
        | inl b ↦ (
          λ h. cc (rw (nb, nm, ns, b) at h),
          λ c. absurd (c.child (beq→eq e.kind "ChildGoalCompleted" b)),
        )
        | inr nc ↦ (
          λ h. record {
            body = λ k. not_this e.kind "GoalBodyUpdated" nb k;
            message = λ k. not_this e.kind "Message" nm k;
            state = λ k. not_this e.kind "GoalStateChanged" ns k;
            child = beq→ne e.kind "ChildGoalCompleted" nc;
          },
          λ c. rw (nb, nm, ns, nc) refl,
        )
      ]
    ]
  ]
]
