-- ===== src/Declare/Allowed.antt =====
-- When a GoalManager may declare an outcome, and what the declaration changes.
use aize.Prelude.{
  ℕ, String, ◌≡◌, ◌≢◌, refl, get-put, eq_refl, Dict, sym, ap, ◌∙◌, ◌↔◌, Bool, true, false, not,
  Option, none, some, [], ◌==◌, string_Eq, if◌then◌else◌, truthy, get, put,
}
use mathlib.Core.Option.{some-injective}
use aize.State.{Goal}
use aize.Dispatch.{Run, Store, Declaration}
use aize.Commit.{Conflict, is_body_changed, new_requirement_conflicts_after_window}
use aize.Goals.{Held, current_goal_for_session}
use aize.Declare.{
  Declared, declared, refused, DeclareError, guard, Decision, is_declared, declare, on_goal, on_run,
  outcome, decide_goal, holds_session, runtime_actor_allowed, is_completion_state, without_conflict,
  set_goal_completion_state_from_runtime,
}

guard-declared :
    (b : Bool) (error : DeclareError) {r : Declared} {after : Store} {d : Declaration}
    → guard b error r ≡ declared after d
    → (b ≡ true) × (r ≡ declared after d)
guard-declared true error h = (refl, h)
guard-declared false error h = cc

guard_passes : (b : Bool) (error : DeclareError) {r : Declared} → b ≡ true → guard b error r ≡ r
guard_passes b error h = rw h refl

not-true : (b : Bool) → not b ≡ true → b ≡ false
not-true true h = cc
not-true false h = refl

module _ (persisted : String → ℕ) (lower : String → String) (parse_utc : String → Option ℕ) where
  -- The run of this id, the goal that it owns, and the tests that both declarations share.
  pub record PassesGuards (store : Store) (session_id actor run_id : String) (run : Run)
      (goal : Goal) : Type 0 where
    pub named : truthy run_id ≡ true
    pub found : get store.dispatch_runs run_id ≡ some run
    pub allowed : runtime_actor_allowed persisted lower parse_utc actor run ≡ true
    pub holds : holds_session persisted lower parse_utc session_id run ≡ true
    pub key : String
    pub current : current_goal_for_session store.goals session_id ≡ some (key, goal)
    pub same_goal : (goal.goal_id == run.goal_id) ≡ true
    pub undeclared : is_declared run.declared_outcome ≡ false

  -- What comes behind the shared tests.
  shared-declared :
      (store : Store) (session_id actor run_id : String) (rest : Run → Goal → Declared)
      {after : Store} {d : Declaration}
      → truthy run_id ≡ true
      → on_run persisted lower parse_utc store session_id actor rest
          (get store.dispatch_runs run_id)
        ≡ declared after d
      → (run : Run) × (goal : Goal) × PassesGuards store session_id actor run_id run goal
        × (rest run goal ≡ declared after d)
  shared-declared store session_id actor run_id rest {after} {d} named h =
      with_run (get store.dispatch_runs run_id) refl h
    where
      with_goal :
          (run : Run)
          → get store.dispatch_runs run_id ≡ some run
          → runtime_actor_allowed persisted lower parse_utc actor run ≡ true
          → holds_session persisted lower parse_utc session_id run ≡ true
          → (o : Option Held) → current_goal_for_session store.goals session_id ≡ o
          → on_goal persisted lower parse_utc run (rest run) o ≡ declared after d
          → (run : Run) × (goal : Goal) × PassesGuards store session_id actor run_id run goal
            × (rest run goal ≡ declared after d)
      with_goal run found allowed holds none e k = cc
      with_goal run found allowed holds (some (key, goal)) e k =
          let (same, k') = guard-declared _ _ k in
          let (fresh, k'') = guard-declared _ _ k' in
          (
            run,
            goal,
            record {
              named = named;
              found = found;
              allowed = allowed;
              holds = holds;
              key = key;
              current = e;
              same_goal = same;
              undeclared = not-true _ fresh;
            },
            k'',
          )

      with_run :
          (o : Option Run)
          → get store.dispatch_runs run_id ≡ o
          → on_run persisted lower parse_utc store session_id actor rest o ≡ declared after d
          → (run : Run) × (goal : Goal) × PassesGuards store session_id actor run_id run goal
            × (rest run goal ≡ declared after d)
      with_run none e k = cc
      with_run (some run) e k =
          let (allowed, k') = guard-declared _ _ k in
          let (holds, k'') = guard-declared _ _ k' in
          with_goal run e allowed holds (current_goal_for_session store.goals session_id) refl k''

  shared_passes :
      (store : Store) (session_id actor run_id : String) (rest : Run → Goal → Declared) {run : Run}
      {goal : Goal}
      → PassesGuards store session_id actor run_id run goal
      → on_run persisted lower parse_utc store session_id actor rest
          (get store.dispatch_runs run_id)
        ≡ rest run goal
  shared_passes store session_id actor run_id rest {run} {goal} o =
      ap (on_run persisted lower parse_utc store session_id actor rest) o.found
      ∙ guard_passes _ _ o.allowed
      ∙ guard_passes _ _ o.holds
      ∙ ap (on_goal persisted lower parse_utc run (rest run)) o.current
      ∙ guard_passes _ _ o.same_goal
      ∙ guard_passes _ _ (ap not o.undeclared)

  -- Its goal and its Session's requirements are as the run observed them.
  pub record IsUnchanged (store : Store) (session_id run_id : String) (run : Run) (goal : Goal)
      : Type 0 where
    pub body : is_body_changed persisted goal run.observed_goal_body ≡ false
    pub calm :
        new_requirement_conflicts_after_window persisted store.session_logs session_id run_id
          run.observed_to_seq
        ≡ none

  -- `set_goal_completion_state_from_runtime` declares exactly behind all its guards.
  pub set_goal_completion_state_from_runtime-PassesGuards :
      (store : Store) (session_id : String) (d : Decision) (after : Store) (decl : Declaration)
      → (set_goal_completion_state_from_runtime persisted lower parse_utc store session_id d
          ≡ declared after decl)
        ↔ ((run : Run) × (goal : Goal) × (is_completion_state persisted lower parse_utc
                d.completion_state
              ≡ true)
            × PassesGuards store session_id d.actor d.run_id run goal
            × IsUnchanged store session_id d.run_id run goal
            × (declare store d.run_id run (outcome persisted lower parse_utc d)
                ≡ declared after decl))
  unfolding set_goal_completion_state_from_runtime
  set_goal_completion_state_from_runtime-PassesGuards store session_id d after decl =
      (forward, backward)
    where
      Reason : Type 0
      Reason =
          (run : Run) × (goal : Goal) × (is_completion_state persisted lower parse_utc
              d.completion_state
            ≡ true)
          × PassesGuards store session_id d.actor d.run_id run goal
          × IsUnchanged store session_id d.run_id run goal
          × (declare store d.run_id run (outcome persisted lower parse_utc d) ≡ declared after decl)

      calm :
          (o : Option Conflict) {r : Declared}
          → without_conflict persisted lower parse_utc o r ≡ declared after decl
          → (o ≡ none) × (r ≡ declared after decl)
      calm none h = (refl, h)
      calm (some c) h = cc

      forward :
          guard
              (is_completion_state persisted lower parse_utc d.completion_state)
              DeclareError.bad_state
              (guard (truthy d.run_id) DeclareError.no_run (
                on_run persisted lower parse_utc store session_id d.actor
                  (decide_goal persisted lower parse_utc store session_id d)
                  (get store.dispatch_runs d.run_id)))
            ≡ declared after decl
          → Reason
      forward h =
          let (state, h') = guard-declared _ _ h in
          let (named, h'') = guard-declared _ _ h' in
          let (run, goal, owner, rest) =
            shared-declared store session_id d.actor d.run_id
              (decide_goal persisted lower parse_utc store session_id d) named h'' in
          let (body, rest') = guard-declared _ _ rest in
          let (quiet, rest'') = calm _ rest' in
          (run, goal, state, owner, record { body = not-true _ body; calm = quiet }, rest'')

      backward :
          Reason
          → guard
              (is_completion_state persisted lower parse_utc d.completion_state)
              DeclareError.bad_state
              (guard (truthy d.run_id) DeclareError.no_run (
                on_run persisted lower parse_utc store session_id d.actor
                  (decide_goal persisted lower parse_utc store session_id d)
                  (get store.dispatch_runs d.run_id)))
            ≡ declared after decl
      backward (run, goal, state, owner, same, rest) =
          guard_passes _ _ state
          ∙ guard_passes _ _ owner.named
          ∙ shared_passes store session_id d.actor d.run_id
              (decide_goal persisted lower parse_utc store session_id d) owner
          ∙ guard_passes _ _ (ap not same.body)
          ∙ ap
              (λ o.
                without_conflict persisted lower parse_utc o
                  (declare store d.run_id run (outcome persisted lower parse_utc d)))
              same.calm
          ∙ rest

  runs_of : Declared → Dict Run
  runs_of (declared after d) = after.dispatch_runs
  runs_of (refused error) = []

  -- A run declares once: when `set_goal_completion_state_from_runtime` has accepted an outcome for a
  -- run, it accepts no other for the same run id.
  pub declares_once :
      (store : Store) (session_id other_session : String) (d other : Decision) (after last : Store)
      (decl again : Declaration)
      → set_goal_completion_state_from_runtime persisted lower parse_utc store session_id d
        ≡ declared after decl
      → other.run_id ≡ d.run_id
      → set_goal_completion_state_from_runtime persisted lower parse_utc after other_session other
        ≢ declared last again
  unfolding runs_of
  declares_once store session_id other_session d other after last decl again h same h' =
      let (run, goal, state, owner, unchanged, stored) =
        (set_goal_completion_state_from_runtime-PassesGuards store session_id d after decl).0 h in
      let (run', goal', state', owner', unchanged', stored') =
        (set_goal_completion_state_from_runtime-PassesGuards after other_session other last again).0
          h' in
      let marked : Run = record run {
        declared_outcome = some (outcome persisted lower parse_utc d);
      } in
      let here : get (put store.dispatch_runs d.run_id marked) d.run_id ≡ some marked =
        get-put store.dispatch_runs d.run_id marked d.run_id
        ∙ ap (λ b. if b then some marked else get store.dispatch_runs d.run_id)
            (eq_refl d.run_id) in
      let is_run : run' ≡ marked = some-injective _ _ (
        sym owner'.found
        ∙ ap (get after.dispatch_runs) same
        ∙ ap (λ runs. get runs d.run_id) (sym (ap runs_of stored))
        ∙ here) in
      cc (owner'.undeclared, ap (λ (r : Run). is_declared r.declared_outcome) is_run)
