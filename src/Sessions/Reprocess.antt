-- ===== src/Sessions/Reprocess.antt =====
-- What `_mark_session_reprocess_needed` leaves behind.
use aize.Prelude.{
  ℕ, String, ◌≡◌, refl, ap, ◌∙◌, true, Option, none, some, string_Eq, truthy, get, put, eq_refl,
}
use aize.State.{Goal, Waiting, incomplete, is_incomplete}
use aize.Endpoint.Normal.{normalize_endpoint_named, normalize_role_endpoint_named}
use aize.Dispatch.{Store}
use aize.Goals.{
  Held, Change, current_goal_for_session, set_goal_completion_state, set_parsed, apply_state,
  completion_of,
}
use aize.Goals.Current.{Keyed, put-Keyed, current-again, current-new, current-IsLatest}
use aize.Sessions.{
  Fresh, target, reprocess, cancelled, set_incomplete, cancel_signal, new_goal,
  mark_session_reprocess_needed,
}

-- The Session's current goal is open work: incomplete, and not waiting.
pub record IsAwake (store : Store) (session_id : String) : Type 0 where
  pub key : String
  pub goal : Goal
  pub current : current_goal_for_session store.goals session_id ≡ some (key, goal)
  pub pending : is_incomplete goal.completion_state ≡ true
  pub awake : goal.waiting ≡ none

module _ (persisted : String → ℕ) (log_id : String → String → String) where
  -- Setting a current goal that does not wait incomplete.
  set_incomplete-IsAwake :
      (ch : Change) (store : Store) (session_id key : String) (goal : Goal)
      → truthy session_id ≡ true
      → Keyed store.goals
      → current_goal_for_session store.goals session_id ≡ some (key, goal)
      → goal.waiting ≡ none
      → (after : Store) × (set_incomplete persisted log_id ch store key goal ≡ some after)
        × IsAwake after session_id
  unfolding set_goal_completion_state completion_of apply_state
  set_incomplete-IsAwake ch store session_id key goal named keyed current quiet =
      let own : goal.session_id ≡ session_id =
        (current-IsLatest store.goals session_id current).own in
      let (actor, e) =
        normalize_role_endpoint_named ch.actor goal.session_id (ap truthy own ∙ named) in
      (
        apply_state persisted log_id (record ch { actor = actor }) incomplete store key goal,
        ap (λ o. set_parsed persisted log_id ch (some incomplete) o store key goal) e,
        record {
          key = key;
          goal = _;
          current =
              current-again store.goals key _ session_id keyed (refl, refl, refl, refl, refl)
                current;
          pending = refl;
          awake = quiet;
        },
      )

  reprocess-IsAwake :
      (f : Fresh) (ch : Change) (store : Store) (session_id key : String) (goal : Goal)
      → truthy session_id ≡ true
      → Keyed store.goals
      → current_goal_for_session store.goals session_id ≡ some (key, goal)
      → (w : Option Waiting) → goal.waiting ≡ w
      → (after : Store) × (reprocess persisted log_id f ch session_id store key goal w ≡ some after)
        × IsAwake after session_id
  reprocess-IsAwake f ch store session_id key goal named keyed current none quiet =
      set_incomplete-IsAwake ch store session_id key goal named keyed current quiet
  reprocess-IsAwake f ch store session_id key goal named keyed current (some w) waits =
      let awake : Goal = record goal { waiting = none } in
      let (actor, e) = normalize_endpoint_named ch.actor session_id named in
      let (after, done, is) =
        set_incomplete-IsAwake ch
          (cancel_signal persisted log_id f ch (record store { goals = put store.goals key awake })
            session_id actor)
          session_id key awake named (put-Keyed store.goals key awake keyed)
          (current-again store.goals key awake session_id keyed (refl, refl, refl, refl, refl)
            current)
          refl in
      (after, ap (cancelled persisted log_id f ch store session_id key goal) e ∙ done, is)

  -- The goals' keys differ, and the new goal id is unused: the operation never raises StoreError on a
  -- Session that has an id, and then the Session's current goal is incomplete and not waiting.
  pub mark_session_reprocess_needed-IsAwake :
      (f : Fresh) (ch : Change) (store : Store) (session_id : String)
      → truthy session_id ≡ true
      → Keyed store.goals
      → get store.goals f.new_goal_id ≡ none
      → (after : Store) × (mark_session_reprocess_needed persisted log_id f ch store session_id
          ≡ some after)
        × IsAwake after session_id
  unfolding mark_session_reprocess_needed new_goal
  mark_session_reprocess_needed-IsAwake f ch store session_id named keyed unused =
      split (current_goal_for_session store.goals session_id) refl
    where
      step : Option Held → Option Store
      step o =
          let (on, key, goal) = target persisted log_id f ch store session_id o in
          reprocess persisted log_id f ch session_id on key goal goal.waiting

      split :
          (o : Option Held)
          → current_goal_for_session store.goals session_id ≡ o
          → (after : Store) × (step o ≡ some after) × IsAwake after session_id
      split (some (key, goal)) e =
          reprocess-IsAwake f ch store session_id key goal named keyed e goal.waiting refl
      split none e =
          let new =
            new_goal f.new_goal_id session_id "Reply to user input sent to this Session." ch.actor
              ch.now in
          reprocess-IsAwake f ch (record store { goals = put store.goals f.new_goal_id new })
            session_id f.new_goal_id new named (put-Keyed store.goals f.new_goal_id new keyed)
            (current-new store.goals f.new_goal_id new session_id unused e
              (rw (eq_refl session_id) refl))
            none refl
