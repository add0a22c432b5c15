-- ===== src/Goals/Reopen.antt =====
-- What completing a goal does to the goals of the parent Sessions and to the readiness entries.
use aize.Prelude.{
  ℕ, String, ◌≡◌, ◌≢◌, refl, sym, ap, ◌∙◌, subst, inl, inr, true, false, ◌&&◌, Option, none, some,
  List, [], ◌∷◌, ◌==◌, string_Eq, get, In, Bool-cases, eq_refl,
}
use mathlib.Core.Option.{some-injective}
use aize.State.{Goal, Readiness, complete, incomplete, is_incomplete}
use aize.Readiness.{resolve_dispatch_readiness, is_open}
use aize.Dispatch.{Store}
use aize.Endpoint.{normalize_role_endpoint}
use aize.Goals.{
  Change, parent_session_ids, apply_state, log_child_goal_completed_for_parents,
  reopen_completed_parent_goals_for_child, set_goal_completion_state, set_parsed, completion_of,
  spread,
}
use aize.Goals.Lineage.{IsParent, parent_session_ids-IsParent}
use aize.Goals.Parents.{IsReopened, log_child-keeps, reopen_parents-IsReopening}
use aize.Goals.Current.{Keyed, put-Keyed, found_new}

-- No readiness entry of the goal is ready or acquired.
abbrev pub IsQuiet : String → List Readiness → Type 0
IsQuiet goal_id es = (e : Readiness) → In e es → e.goal_id ≡ goal_id → is_open e.status ≡ false

unresolved :
    (goal_id : String) (x e : Readiness)
    → (x.goal_id == goal_id && is_open x.status) ≡ false
    → x ≡ e
    → e.goal_id ≡ goal_id
    → is_open e.status ≡ false
unresolved goal_id x e f at same =
    sym (ap (λ b. b && is_open e.status) (own at same))
    ∙ ap (λ (y : Readiness). y.goal_id == goal_id && is_open y.status) (sym at)
    ∙ f
  where
    own : x ≡ e → e.goal_id ≡ goal_id → (e.goal_id == goal_id) ≡ true
    own at same = rw same (eq_refl goal_id)

resolve-IsQuiet :
    (goal_id now : String) (es : List Readiness)
    → IsQuiet goal_id (resolve_dispatch_readiness goal_id now es)
unfolding resolve_dispatch_readiness
resolve-IsQuiet goal_id now [] e m same = absurd m
resolve-IsQuiet goal_id now (x ∷ es) e (inr m) same = resolve-IsQuiet goal_id now es e m same
resolve-IsQuiet goal_id now (x ∷ es) e (inl at) same =
    elim (Bool-cases (x.goal_id == goal_id && is_open x.status)) [
      | inl t ↦ sym (ap (λ y. is_open y.status) (rw t at at))
      | inr f ↦ unresolved goal_id x e f (rw f at at) same
    ]

-- A completed goal: it is complete, none of its readiness entries is open, and the current goals of
-- the parent Sessions are incomplete.
pub record IsCompleted (store : Store) (key : String) (goal : Goal) (after : Store) : Type 0 where
  pub closed :
      (g : Goal) × (get after.goals key ≡ some g) × (is_incomplete g.completion_state ≡ false)
  pub quiet : IsQuiet goal.goal_id after.dispatch_readiness
  pub reopened :
      (p : String) → IsParent store.session_edges goal.session_id p → IsReopened after.goals p

module _ (persisted : String → ℕ) (log_id : String → String → String) where
  completed :
      (ch : Change) (store : Store) (key : String) (goal : Goal)
      → Keyed store.goals
      → get store.goals key ≡ some goal
      → ((p : String) → IsParent store.session_edges goal.session_id p → goal.session_id ≢ p)
      → IsCompleted store key goal (
          spread persisted log_id ch complete incomplete goal
            (apply_state persisted log_id ch complete store key goal))
  unfolding reopen_completed_parent_goals_for_child apply_state
  completed ch store key goal keyed at other =
      let applied = apply_state persisted log_id ch complete store key goal in
      let told = log_child_goal_completed_for_parents persisted log_id ch goal applied in
      let (goals, readiness, edges) = log_child-keeps persisted log_id ch goal applied in
      let lineage = parent_session_ids-IsParent store.session_edges goal.session_id in
      let new : Goal = (record goal {
        completion_state = complete;
        completion_reason = ch.reason;
        completion_reason_updated_at = ch.now;
        completed_at = some ch.now;
      }) in
      let loop =
        reopen_parents-IsReopening persisted log_id ch goal.session_id
          (parent_session_ids told.session_edges goal.session_id) told
          (subst Keyed (sym goals) (put-Keyed store.goals key new keyed)) in
      let here : get told.goals key ≡ some new =
        ap (λ d. get d key) goals ∙ found_new store.goals key new in
      let parents : parent_session_ids told.session_edges goal.session_id
          ≡ parent_session_ids store.session_edges goal.session_id =
        ap (λ es. parent_session_ids es goal.session_id) edges in
      record {
        closed = (
          new,
          loop.others key new here (λ p m. other p ((lineage p).0 (subst (In p) parents m))),
          refl,
        );
        quiet =
            subst (IsQuiet goal.goal_id) (sym (loop.quiet ∙ readiness))
              (resolve-IsQuiet goal.goal_id ch.now store.dispatch_readiness);
        reopened = λ p m. loop.mended p (subst (In p) (sym parents) ((lineage p).1 m));
      }

  -- `_set_goal_completion_state(goal, "complete")` of an incomplete goal, where the goals stand under
  -- different keys, the goal under its own, and its Session is not its own parent: unless StoreError is
  -- raised, the goal is complete, no readiness entry of it is ready or acquired, and the current goal
  -- of every parent Session is incomplete.
  pub set_goal_completion_state-IsCompleted :
      (ch : Change) (store : Store) (key : String) (goal : Goal) {after : Store}
      → Keyed store.goals
      → get store.goals key ≡ some goal
      → goal.completion_state ≡ incomplete
      → ((p : String) → IsParent store.session_edges goal.session_id p → goal.session_id ≢ p)
      → set_goal_completion_state persisted log_id ch store key goal "complete" ≡ some after
      → IsCompleted store key goal after
  unfolding set_goal_completion_state completion_of
  set_goal_completion_state-IsCompleted ch store key goal {after} keyed at was other h =
      split (normalize_role_endpoint ch.actor goal.session_id) h
    where
      split :
          (o : Option String)
          → set_parsed persisted log_id ch (some complete) o store key goal ≡ some after
          → IsCompleted store key goal after
      split none k = cc
      split (some actor) k =
          let named : Change = record ch { actor = actor } in
          subst (IsCompleted store key goal)
            (ap
                (λ st.
                  spread persisted log_id named complete st goal
                    (apply_state persisted log_id named complete store key goal))
                (sym was)
              ∙ some-injective _ _ k)
            (completed named store key goal keyed at other)
