-- ===== src/Goals/Parents.antt =====
-- The loops over the parent Sessions of a completed goal.
use aize.Prelude.{
  ℕ, String, ◌≡◌, ◌≢◌, ◌⊎◌, refl, sym, ap, ◌∙◌, subst, inl, inr, Bool, true, false, ◌&&◌, Option,
  none, some, List, [], ◌∷◌, string_Eq, truthy, Dict, get, put, In, Bool-cases,
}
use mathlib.Core.Option.{some-injective}
use aize.State.{Goal, Session, incomplete, is_incomplete}
use aize.Dispatch.{Store}
use aize.Goals.{
  Held, Change, current_goal_for_session, parent_session_ids, parent_change, apply_state,
  tell_known, tell_parents, log_child_goal_completed_for_parents, reopen_goal, reopen_parents,
}
use aize.Goals.Current.{Keyed, In-Keyed, put-Keyed, current-put, found_old, current-IsLatest}

-- The current goal of the Session, if there is one, is incomplete.
abbrev pub IsReopened : Dict Goal → String → Type 0
IsReopened goals parent =
    (h : Held)
    → current_goal_for_session goals parent ≡ some h
    → is_incomplete h.1.completion_state ≡ true

module _ (persisted : String → ℕ) (log_id : String → String → String) where
  tell_known-keeps :
      (ch : Change) (goal : Goal) (parent : String) (o : Option Session) (store : Store)
      → ((tell_known persisted log_id ch goal parent o store).goals ≡ store.goals)
        × ((tell_known persisted log_id ch goal parent o store).dispatch_readiness
            ≡ store.dispatch_readiness)
        × ((tell_known persisted log_id ch goal parent o store).session_edges ≡ store.session_edges)
  tell_known-keeps ch goal parent none store = (refl, refl, refl)
  tell_known-keeps ch goal parent (some session) store = (refl, refl, refl)

  tell_parents-keeps :
      (ch : Change) (goal : Goal) (parents : List String) (store : Store)
      → ((tell_parents persisted log_id ch goal parents store).goals ≡ store.goals)
        × ((tell_parents persisted log_id ch goal parents store).dispatch_readiness
            ≡ store.dispatch_readiness)
        × ((tell_parents persisted log_id ch goal parents store).session_edges
            ≡ store.session_edges)
  unfolding tell_parents
  tell_parents-keeps ch goal [] store = (refl, refl, refl)
  tell_parents-keeps ch goal (parent ∷ parents) store =
      let told = tell_known-keeps ch goal parent (get store.sessions parent) store in
      let rest =
        tell_parents-keeps ch goal parents
          (tell_known persisted log_id ch goal parent (get store.sessions parent) store) in
      (rest.0 ∙ told.0, rest.1 ∙ told.1, rest.2 ∙ told.2)

  pub log_child-keeps :
      (ch : Change) (goal : Goal) (store : Store)
      → ((log_child_goal_completed_for_parents persisted log_id ch goal store).goals ≡ store.goals)
        × ((log_child_goal_completed_for_parents persisted log_id ch goal store).dispatch_readiness
            ≡ store.dispatch_readiness)
        × ((log_child_goal_completed_for_parents persisted log_id ch goal store).session_edges
            ≡ store.session_edges)
  unfolding log_child_goal_completed_for_parents
  log_child-keeps ch goal store =
      elim (Bool-cases (truthy goal.session_id && truthy goal.goal_id)) [
        | inl t ↦ rw t (
            tell_parents-keeps ch goal (parent_session_ids store.session_edges goal.session_id)
              store)
        | inr f ↦ rw f (refl, refl, refl)
      ]

  -- What one turn of the loop over the parents does to the goals.
  module _ (ch : Change) (child : String) where
    -- Either nothing happens, where the current goal is incomplete already, or it becomes so.
    pub record IsTurn (parent : String) (store after : Store) : Type 0 where
      keyed : Keyed after.goals
      readiness : after.dispatch_readiness ≡ store.dispatch_readiness
      mended : IsReopened after.goals parent
      kept : (p : String) → IsReopened store.goals p → IsReopened after.goals p
      others :
          (k : String) (g : Goal)
          → get store.goals k ≡ some g
          → g.session_id ≢ parent
          → get after.goals k ≡ some g

    reopen_goal-IsTurn :
        (parent : String) (store : Store)
        → Keyed store.goals
        → (o : Option Held) → current_goal_for_session store.goals parent ≡ o
        → IsTurn parent store (reopen_goal persisted log_id ch child o store)
    unfolding apply_state
    reopen_goal-IsTurn parent store keyed none e = record {
      keyed = keyed;
      readiness = refl;
      mended = λ h there. cc (e, there);
      kept = λ p r. r;
      others = λ k g at ne. at;
    }
    reopen_goal-IsTurn parent store keyed (some (key, goal)) e =
        split (is_incomplete goal.completion_state) refl
      where
        new : Goal
        new = (record goal {
          completion_state = incomplete;
          completion_reason = (parent_change persisted log_id ch child).reason;
          completion_reason_updated_at = ch.now;
          completed_at = none;
          last_incomplete_at = some ch.now;
        })

        keyed' : Keyed (put store.goals key new)
        keyed' = put-Keyed store.goals key new keyed

        at : get store.goals key ≡ some goal
        at = In-Keyed store.goals (key, goal) keyed (current-IsLatest store.goals parent e).stands

        moved :
            (p : String) (h : Held)
            → current_goal_for_session (put store.goals key new) p ≡ some h
            → ((h.0 ≡ key) × (h.1 ≡ new))
              ⊎ ((h.0 ≢ key) × (current_goal_for_session store.goals p ≡ some h))
        moved p h there =
            current-put store.goals key new p keyed keyed' at (refl, refl, refl, refl, refl) there

        split :
            (b : Bool)
            → is_incomplete goal.completion_state ≡ b
            → IsTurn parent store (reopen_goal persisted log_id ch child (some (key, goal)) store)
        split true eq = rw eq (record {
          keyed = keyed;
          readiness = refl;
          mended = λ h there.
              ap (λ (x : Held). is_incomplete x.1.completion_state)
                (some-injective _ _ (sym there ∙ e))
              ∙ eq;
          kept = λ p r. r;
          others = λ k g at' ne. at';
        })
        split false eq = rw eq (record {
          keyed = keyed';
          readiness = refl;
          mended = λ h there. elim (moved parent h there) [
            | inl (same, value) ↦ ap (λ (g : Goal). is_incomplete g.completion_state) value
            | inr (ne, old) ↦
                absurd (ne (ap (λ (x : Held). x.0) (some-injective _ _ (sym old ∙ e))))
          ];
          kept = λ p r h there. elim (moved p h there) [
            | inl (same, value) ↦ ap (λ (g : Goal). is_incomplete g.completion_state) value
            | inr (ne, old) ↦ r h old
          ];
          others = λ k g at' ne.
              found_old store.goals key new k (λ same. ne (
                ap (λ (x : Goal). x.session_id)
                  (some-injective _ _ (sym at' ∙ ap (get store.goals) (sym same) ∙ at))
                ∙ (current-IsLatest store.goals parent e).own))
              ∙ at';
        })

    -- The whole loop.
    pub record IsReopening (parents : List String) (store after : Store) : Type 0 where
      pub quiet : after.dispatch_readiness ≡ store.dispatch_readiness
      pub mended : (p : String) → In p parents → IsReopened after.goals p
      pub kept : (p : String) → IsReopened store.goals p → IsReopened after.goals p
      pub others :
          (k : String) (g : Goal)
          → get store.goals k ≡ some g
          → ((p : String) → In p parents → g.session_id ≢ p)
          → get after.goals k ≡ some g

    pub reopen_parents-IsReopening :
        (parents : List String) (store : Store)
        → Keyed store.goals
        → IsReopening parents store (reopen_parents persisted log_id ch child parents store)
    unfolding reopen_parents
    reopen_parents-IsReopening [] store keyed = record {
      quiet = refl;
      mended = λ p m. absurd m;
      kept = λ p r. r;
      others = λ k g at ne. at;
    }
    reopen_parents-IsReopening (parent ∷ parents) store keyed =
        let next =
          reopen_goal persisted log_id ch child (current_goal_for_session store.goals parent)
            store in
        let first =
          reopen_goal-IsTurn parent store keyed (current_goal_for_session store.goals parent)
            refl in
        let rest = reopen_parents-IsReopening parents next first.keyed in
        record {
          quiet = rest.quiet ∙ first.readiness;
          mended = λ p m. elim m [
            | inl same ↦ rest.kept p (subst (λ x. IsReopened next.goals x) same first.mended)
            | inr n ↦ rest.mended p n
          ];
          kept = λ p r. rest.kept p (first.kept p r);
          others = λ k g at ne.
              rest.others k g (first.others k g at (ne parent (inl refl))) (λ p m. ne p (inr m));
        }
