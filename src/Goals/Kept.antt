-- ===== src/Goals/Kept.antt =====
-- What a change of a goal's completion state leaves alone: the runs, and the goals that are complete.
use aize.Prelude.{
  ℕ, String, ◌≡◌, refl, sym, ap, ◌∙◌, subst, inl, inr, false, ◌&&◌, Option, none, some, List, [],
  ◌∷◌, ◌==◌, string_Eq, if◌then◌else◌, truthy, Dict, get, put, get-put, Bool-cases, beq→eq,
}
use mathlib.Core.Option.{some-injective}
use aize.State.{Goal, Session, Completion, complete, incomplete, is_incomplete}
use aize.Endpoint.{normalize_role_endpoint}
use aize.Dispatch.{Store}
use aize.Goals.{
  Held, Change, current_goal_for_session, parent_session_ids, apply_state, tell_known, tell_parents,
  log_child_goal_completed_for_parents, reopen_goal, reopen_parents,
  reopen_completed_parent_goals_for_child, set_goal_completion_state, set_parsed, completion_of,
  spread,
}

-- Every goal that is complete behind the step was complete before it.
abbrev pub NoNew : Dict Goal → Dict Goal → Type 0
NoNew d d' =
    (k : String) (g' : Goal)
    → get d' k ≡ some g'
    → is_incomplete g'.completion_state ≡ false
    → (g : Goal) × (get d k ≡ some g) × (is_incomplete g.completion_state ≡ false)

pub NoNew-refl : (d : Dict Goal) → NoNew d d
NoNew-refl d k g' at done = (g', at, done)

pub NoNew-trans : (d e f : Dict Goal) → NoNew d e → NoNew e f → NoNew d f
NoNew-trans d e f p q k g' at done = let (g, at', done') = q k g' at done in p k g at' done'

-- Storing a goal that is incomplete, or was complete before.
pub put-NoNew :
    (d : Dict Goal) (key : String) (g : Goal)
    → (is_incomplete g.completion_state ≡ false
        → (old : Goal) × (get d key ≡ some old) × (is_incomplete old.completion_state ≡ false))
    → NoNew d (put d key g)
put-NoNew d key g kept k g' at done = elim (Bool-cases (key == k)) [
  | inl t ↦
      let same : g ≡ g' =
        some-injective _ _
          (sym (get-put d key g k ∙ ap (λ b. if b then some g else get d k) t) ∙ at) in
      let (old, there, was) =
        kept (ap (λ (x : Goal). is_incomplete x.completion_state) same ∙ done) in
      (old, ap (get d) (sym (beq→eq key k t)) ∙ there, was)
  | inr f ↦ (g', sym (get-put d key g k ∙ ap (λ b. if b then some g else get d k) f) ∙ at, done)
]

module _ (persisted : String → ℕ) (log_id : String → String → String) where
  tell_known-runs :
      (ch : Change) (goal : Goal) (parent : String) (o : Option Session) (store : Store)
      → (tell_known persisted log_id ch goal parent o store).dispatch_runs ≡ store.dispatch_runs
  tell_known-runs ch goal parent none store = refl
  tell_known-runs ch goal parent (some session) store = refl

  tell_parents-runs :
      (ch : Change) (goal : Goal) (parents : List String) (store : Store)
      → (tell_parents persisted log_id ch goal parents store).dispatch_runs ≡ store.dispatch_runs
  unfolding tell_parents
  tell_parents-runs ch goal [] store = refl
  tell_parents-runs ch goal (parent ∷ parents) store =
      tell_parents-runs ch goal parents _
      ∙ tell_known-runs ch goal parent (get store.sessions parent) store

  log_child-runs :
      (ch : Change) (goal : Goal) (store : Store)
      → (log_child_goal_completed_for_parents persisted log_id ch goal store).dispatch_runs
        ≡ store.dispatch_runs
  unfolding log_child_goal_completed_for_parents
  log_child-runs ch goal store = elim (Bool-cases (truthy goal.session_id && truthy goal.goal_id)) [
    | inl t ↦
        rw t
          (tell_parents-runs ch goal (parent_session_ids store.session_edges goal.session_id) store)
    | inr f ↦ rw f refl
  ]

  apply_state-runs :
      (ch : Change) (state : Completion) (store : Store) (key : String) (goal : Goal)
      → (apply_state persisted log_id ch state store key goal).dispatch_runs ≡ store.dispatch_runs
  unfolding apply_state
  apply_state-runs ch complete store key goal = refl
  apply_state-runs ch incomplete store key goal = refl

  reopen_goal-runs :
      (ch : Change) (child : String) (o : Option Held) (store : Store)
      → (reopen_goal persisted log_id ch child o store).dispatch_runs ≡ store.dispatch_runs
  reopen_goal-runs ch child none store = refl
  reopen_goal-runs ch child (some (key, goal)) store =
      elim (Bool-cases (is_incomplete goal.completion_state)) [
        | inl t ↦ rw t refl
        | inr f ↦ rw f (apply_state-runs _ incomplete store key goal)
      ]

  reopen_parents-runs :
      (ch : Change) (child : String) (parents : List String) (store : Store)
      → (reopen_parents persisted log_id ch child parents store).dispatch_runs ≡ store.dispatch_runs
  unfolding reopen_parents
  reopen_parents-runs ch child [] store = refl
  reopen_parents-runs ch child (parent ∷ parents) store =
      reopen_parents-runs ch child parents _
      ∙ reopen_goal-runs ch child (current_goal_for_session store.goals parent) store

  spread-runs :
      (ch : Change) (state previous : Completion) (goal : Goal) (store : Store)
      → (spread persisted log_id ch state previous goal store).dispatch_runs ≡ store.dispatch_runs
  unfolding reopen_completed_parent_goals_for_child
  spread-runs ch complete incomplete goal store =
      let told = log_child_goal_completed_for_parents persisted log_id ch goal store in
      reopen_parents-runs ch goal.session_id (parent_session_ids told.session_edges goal.session_id)
        told
      ∙ log_child-runs ch goal store
  spread-runs ch complete complete goal store = refl
  spread-runs ch incomplete previous goal store = refl

  -- `_set_goal_completion_state` changes no run.
  pub set_goal_completion_state-runs :
      (ch : Change) (store : Store) (key : String) (goal : Goal) (text : String) {after : Store}
      → set_goal_completion_state persisted log_id ch store key goal text ≡ some after
      → after.dispatch_runs ≡ store.dispatch_runs
  unfolding set_goal_completion_state
  set_goal_completion_state-runs ch store key goal text {after} h =
      split (completion_of text) (normalize_role_endpoint ch.actor goal.session_id) h
    where
      split :
          (c : Option Completion) (o : Option String)
          → set_parsed persisted log_id ch c o store key goal ≡ some after
          → after.dispatch_runs ≡ store.dispatch_runs
      split none o k = cc
      split (some state) none k = cc
      split (some state) (some actor) k =
          ap (λ (s : Store). s.dispatch_runs) (sym (some-injective _ _ k))
          ∙ spread-runs (record ch { actor = actor }) state goal.completion_state goal _
          ∙ apply_state-runs (record ch { actor = actor }) state store key goal

  -- Setting a goal incomplete completes none.
  pub set_goal_completion_state-NoNew :
      (ch : Change) (store : Store) (key : String) (goal : Goal) {after : Store}
      → set_goal_completion_state persisted log_id ch store key goal "incomplete" ≡ some after
      → NoNew store.goals after.goals
  unfolding set_goal_completion_state completion_of apply_state
  set_goal_completion_state-NoNew ch store key goal {after} h =
      split (normalize_role_endpoint ch.actor goal.session_id) h
    where
      split :
          (o : Option String)
          → set_parsed persisted log_id ch (some incomplete) o store key goal ≡ some after
          → NoNew store.goals after.goals
      split none k = cc
      split (some actor) k =
          subst (λ (s : Store). NoNew store.goals s.goals) (some-injective _ _ k)
            (put-NoNew store.goals key _ (λ done. cc done))
