-- ===== src/Declare/Owner.antt =====
-- Whose outcome is accepted, and what is stored of it.
use aize.Prelude.{
  ℕ, String, ◌≡◌, refl, sym, ap, ◌∙◌, ◌↔◌, ◌⊎◌, inl, inr, Bool, true, false, ◌&&◌, ◌||◌, Option,
  none, some, ◌==◌, string_Eq, if◌then◌else◌, truthy, get, put, and_true, arith, beq→eq, beq_refl,
}
use aize.Prelude.Text.{strip}
use aize.State.{Goal, Lease, holds_lease, goal_manager_role}
use aize.Endpoint.{normalize_agent_role}
use aize.SessionLog.{log_of}
use aize.SessionLog.Cursor.{Rising}
use aize.Dispatch.{Run, Store, Declaration}
use aize.Commit.{new_requirement_conflicts_after_window}
use aize.Commit.Fence.{IsQuiet, conflicts-IsQuiet, body_same}
use aize.Goals.{current_goal_for_session}
use aize.Declare.{
  Declared, declared, refused, Decision, is_declared, declare, outcome, runtime_actor_allowed,
  is_completion_state, set_goal_completion_state_from_runtime,
}
use aize.Declare.Allowed.{
  PassesGuards, IsUnchanged, set_goal_completion_state_from_runtime-PassesGuards,
}

is_leased : (l : Lease) → holds_lease l ≡ true → l ≡ Lease.acquired
is_leased Lease.acquired h = refl
is_leased _ h = cc

is_none : (o : Option Declaration) → is_declared o ≡ false → o ≡ none
is_none none h = refl
is_none (some d) h = cc

or_cases : (a b : Bool) → (a || b) ≡ true → (a ≡ true) ⊎ (b ≡ true)
or_cases a b h = ground arith

or_right : (a b : Bool) → b ≡ true → (a || b) ≡ true
or_right a b h = ground arith

store_in : Store → Declared → Store
store_in other (declared after decl) = after
store_in other (refused e) = other

decl_in : Declaration → Declared → Declaration
decl_in other (declared after decl) = decl
decl_in other (refused e) = other

-- The declaration of a decision.
pub record IsRecorded (store : Store) (d : Decision) (run : Run) (after : Store)
    (decl : Declaration) : Type 0 where
  pub state : (d.completion_state ≡ "complete") ⊎ (d.completion_state ≡ "incomplete")
  pub content : decl ≡ record {
    completion_state = d.completion_state;
    reason =
        if truthy (strip d.reason)
        then strip d.reason
        else "GoalManager recorded a completion decision.";
    schedule_parameters = d.schedule_parameters;
    wait = none;
    declared_by = if truthy (strip d.actor) then strip d.actor else "GoalManager";
    declared_at = d.now;
  }
  -- It is stored in the run, and all else stays.
  pub stored : after ≡ record store {
    dispatch_runs = put store.dispatch_runs d.run_id (record run { declared_outcome = some decl });
  }

module _ (persisted : String → ℕ) (lower : String → String) (parse_utc : String → Option ℕ) where
  -- The run may decide on its goal: it holds the GoalManager's lease of the Session, owns the current
  -- goal, has declared nothing, and has seen the goal's body and all that is required.
  pub record IsOwner (store : Store) (session_id : String) (d : Decision) (run : Run) (goal : Goal)
      : Type 0 where
    pub named : truthy d.run_id ≡ true
    pub found : get store.dispatch_runs d.run_id ≡ some run
    pub actor :
        (normalize_agent_role lower d.actor ≡ goal_manager_role)
        ⊎ ((truthy run.agent_user ≡ true) × (run.agent_user ≡ strip d.actor))
    pub session : run.session_id ≡ session_id
    pub role : run.role ≡ goal_manager_role
    pub held : run.lease_state ≡ Lease.acquired
    pub key : String
    pub current : current_goal_for_session store.goals session_id ≡ some (key, goal)
    pub owned : goal.goal_id ≡ run.goal_id
    pub undeclared : run.declared_outcome ≡ none
    pub body : (b : String) → run.observed_goal_body ≡ some b → goal.body ≡ b
    pub quiet : IsQuiet store.session_logs session_id d.run_id run.observed_to_seq

  actor_of :
      (actor : String) (run : Run)
      → (runtime_actor_allowed persisted lower parse_utc actor run ≡ true) ↔ (
          (normalize_agent_role lower actor ≡ goal_manager_role)
          ⊎ ((truthy run.agent_user ≡ true) × (run.agent_user ≡ strip actor)))
  unfolding runtime_actor_allowed
  actor_of actor run = (
    λ h. elim (or_cases _ _ h) [
      | inl t ↦ inl (beq→eq (normalize_agent_role lower actor) goal_manager_role t)
      | inr t ↦
          let both = and_true _ _ t in inr (both.0, beq→eq run.agent_user (strip actor) both.1)
    ],
    λ h. elim h [
      | inl same ↦ rw (same, beq_refl goal_manager_role) refl
      | inr both ↦
          or_right (normalize_agent_role lower actor == goal_manager_role)
            (truthy run.agent_user && run.agent_user == strip actor)
            (rw both.0 (rw both.1 (beq_refl (strip actor))))
    ],
  )

  state_of :
      (text : String)
      → (is_completion_state persisted lower parse_utc text ≡ true)
        ↔ ((text ≡ "complete") ⊎ (text ≡ "incomplete"))
  state_of text = (
    λ h. elim (or_cases _ _ h) [
      | inl t ↦ inl (beq→eq text "complete" t)
      | inr t ↦ inr (beq→eq text "incomplete" t)
    ],
    λ h. elim h [ inl same ↦ rw same refl | inr same ↦ rw same refl ],
  )

  calm_of :
      (store : Store) (session_id run_id : String) (run : Run)
      → Rising 0 (log_of store.session_logs session_id)
      → (new_requirement_conflicts_after_window persisted store.session_logs session_id run_id
            run.observed_to_seq
          ≡ none)
        ↔ IsQuiet store.session_logs session_id run_id run.observed_to_seq
  unfolding new_requirement_conflicts_after_window
  calm_of store session_id run_id run r =
      conflicts-IsQuiet persisted store.session_logs session_id run_id run.observed_to_seq r

  -- The outcome that a GoalManager declares is accepted by `set_goal_completion_state_from_runtime`
  -- exactly when it is one of the words complete and incomplete, and its run holds the GoalManager's
  -- lease of this Session, owns its current goal, has declared nothing and has observed all that is
  -- required. The outcome is then stored in that run and nothing else changes. The numbers of the
  -- Session's log rise.
  pub set_goal_completion_state_from_runtime-IsOwner :
      (store : Store) (session_id : String) (d : Decision) (after : Store) (decl : Declaration)
      → Rising 0 (log_of store.session_logs session_id)
      → (set_goal_completion_state_from_runtime persisted lower parse_utc store session_id d
          ≡ declared after decl)
        ↔ ((run : Run) × (goal : Goal) × IsOwner store session_id d run goal
            × IsRecorded store d run after decl)
  unfolding decl_in store_in
  set_goal_completion_state_from_runtime-IsOwner store session_id d after decl r = (
    λ h.
        let (run, goal, state, passed, same, stored) =
          (set_goal_completion_state_from_runtime-PassesGuards persisted lower parse_utc store
              session_id d after decl).0
            h in
        (run, goal, owner run goal passed same, recorded run state stored),
    λ h.
        let (run, goal, owner, recorded) = h in
        (set_goal_completion_state_from_runtime-PassesGuards persisted lower parse_utc store
            session_id d after decl).1
          (
            run,
            goal,
            (state_of d.completion_state).1 recorded.state,
            passes run goal owner,
            record {
              body = (body_same persisted goal run.observed_goal_body).1 owner.body;
              calm = (calm_of store session_id d.run_id run r).1 owner.quiet;
            },
            cc (recorded.stored, recorded.content),
          ),
  )
    where
      owner :
          (run : Run) (goal : Goal)
          → PassesGuards persisted lower parse_utc store session_id d.actor d.run_id run goal
          → IsUnchanged persisted lower parse_utc store session_id d.run_id run goal
          → IsOwner store session_id d run goal
      owner run goal passed same =
          let (place, leased) = and_true _ _ passed.holds in
          let (here, manager) = and_true _ _ place in
          record {
            named = passed.named;
            found = passed.found;
            actor = (actor_of d.actor run).0 passed.allowed;
            session = beq→eq run.session_id session_id here;
            role = beq→eq run.role goal_manager_role manager;
            held = is_leased run.lease_state leased;
            key = passed.key;
            current = passed.current;
            owned = beq→eq goal.goal_id run.goal_id passed.same_goal;
            undeclared = is_none run.declared_outcome passed.undeclared;
            body = (body_same persisted goal run.observed_goal_body).0 same.body;
            quiet = (calm_of store session_id d.run_id run r).0 same.calm;
          }

      passes :
          (run : Run) (goal : Goal)
          → IsOwner store session_id d run goal
          → PassesGuards persisted lower parse_utc store session_id d.actor d.run_id run goal
      passes run goal own = record {
        named = own.named;
        found = own.found;
        allowed = (actor_of d.actor run).1 own.actor;
        holds =
            rw (own.session, own.role, own.held, beq_refl session_id, beq_refl goal_manager_role)
              refl;
        key = own.key;
        current = own.current;
        same_goal = rw own.owned (beq_refl run.goal_id);
        undeclared = rw own.undeclared refl;
      }

      recorded :
          (run : Run)
          → is_completion_state persisted lower parse_utc d.completion_state ≡ true
          → declare store d.run_id run (outcome persisted lower parse_utc d) ≡ declared after decl
          → IsRecorded store d run after decl
      recorded run state same =
          let content : outcome persisted lower parse_utc d ≡ decl = ap (decl_in decl) same in
          record {
            state = (state_of d.completion_state).0 state;
            content = sym content;
            stored =
                sym (ap (store_in after) same)
                ∙ ap
                    (λ x. record store {
                      dispatch_runs =
                          put store.dispatch_runs d.run_id
                            (record run { declared_outcome = some x });
                    })
                    content;
          }
