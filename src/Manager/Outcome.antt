-- ===== src/Manager/Outcome.antt =====
-- When a GoalManager's commit completes a goal.
use aize.Prelude.{
  ℕ, String, ◌≡◌, refl, sym, subst, ◌⊎◌, inl, inr, Bool, true, false, ◌||◌, Option, none, some,
  ◌==◌, string_Eq, get, Bool-cases, beq→eq, Dict,
}
use aize.State.{incomplete, Goal, Session, goal_manager_role}
use aize.Endpoint.{normalize_role_endpoint, session_recipient}
use aize.Dispatch.{Run, Store, Declaration}
use aize.Commit.{FenceReason, stale_dispatch_fence}
use aize.Commit.Release.{discard-IsRelease}
use aize.Commit.Release.{recover-IsRelease}
use aize.Units.{prepare_scheduled_unit_completion}
use aize.Units.Kept.{IsSame, prepare-IsSame}
use aize.Goals.Kept.{NoNew, NoNew-refl, put-NoNew, set_goal_completion_state-NoNew}
use aize.Manager.{
  Turn, undecided, put_to_wait, left_incomplete, rejected, closed, with_schedule, decided,
  with_declaration, with_fence, with_parts, with_run, commit_goal_manager_run, after_state, bind,
  set_state, request_work, waiting_text, with_status, manager_change, to_worker, manager_signal,
  schedule_request, has_live_worker_readiness_for_goal, has_worker_request_for_run,
}

module _ (persisted : String → ℕ) (log_id : String → String → String) (lower : String → String)
    (parse_utc : String → Option ℕ) (format_seconds : ℕ → String) where
  -- `none`, or a state in which no new goal is complete.
  abbrev Quiet : Dict Goal → Option Store → Type 0
  Quiet goals none = Unit
  Quiet goals (some after) = NoNew goals after.goals

  closed-Quiet :
      (t : Turn) (session_id : String) (run : Run) (resolve : Bool) (goals : Dict Goal)
      (o : Option Store)
      → Quiet goals o
      → Quiet goals
          (closed persisted log_id lower parse_utc format_seconds t session_id run resolve o)
  closed-Quiet t session_id run resolve goals none q = tt
  closed-Quiet t session_id run true goals (some store) q = q
  closed-Quiet t session_id run false goals (some store) q = q

  undecided-NoNew :
      (t : Turn) (session_id : String) (run : Run) (store : Store)
      → NoNew store.goals
          (undecided persisted log_id lower parse_utc format_seconds t session_id run store).goals
  undecided-NoNew t session_id run store = NoNew-refl store.goals

  put_to_wait-NoNew :
      (t : Turn) (d : Declaration) (goal : Goal) (store : Store)
      → get store.goals t.leased.goal_id ≡ some goal
      → NoNew store.goals
          (put_to_wait persisted log_id lower parse_utc format_seconds t d goal store).goals
  put_to_wait-NoNew t d goal store at =
      put-NoNew store.goals t.leased.goal_id _ (λ done. (goal, at, done))

  request_work-Quiet :
      (t : Turn) (run : Run) (goal : Goal) (session_id reason : String) (requested : Bool)
      (goals : Dict Goal) (store : Store)
      → NoNew goals store.goals
      → Quiet goals (
          request_work persisted log_id lower parse_utc format_seconds t run goal session_id reason
            requested store)
  request_work-Quiet t run goal session_id reason true goals store q = q
  request_work-Quiet t run goal session_id reason false goals store q =
      split (normalize_role_endpoint session_recipient session_id)
    where
      split :
          (o : Option String)
          → Quiet goals (
              to_worker persisted log_id lower parse_utc format_seconds t run goal session_id reason
                o store)
      split none = tt
      split (some to) = q

  after_state-Quiet :
      (t : Turn) (goal : Goal) (goals : Dict Goal) (o : Option Store)
      → Quiet goals o
      → Quiet goals (after_state persisted log_id lower parse_utc format_seconds t goal o)
  after_state-Quiet t goal goals none q = tt
  after_state-Quiet t goal goals (some store) q = q

  left_incomplete-Quiet :
      (t : Turn) (run : Run) (d : Declaration) (goal : Goal) (session_id : String)
      (requested : Bool) (store : Store)
      → Quiet store.goals (
          left_incomplete persisted log_id lower parse_utc format_seconds t run d goal session_id
            requested store)
  left_incomplete-Quiet t run d goal session_id requested store =
      after_state-Quiet t goal store.goals _ (
        split
          (set_state persisted log_id lower parse_utc format_seconds
            (manager_change persisted log_id lower parse_utc format_seconds t d.reason
              goal_manager_role)
            goal t "incomplete" store)
          refl)
    where
      ask : Store → Option Store
      ask =
          request_work persisted log_id lower parse_utc format_seconds t run goal session_id
            d.reason requested

      split :
          (o : Option Store)
          → set_state persisted log_id lower parse_utc format_seconds
              (manager_change persisted log_id lower parse_utc format_seconds t d.reason
                goal_manager_role)
              goal
              t
              "incomplete"
              store
            ≡ o
          → Quiet store.goals (bind persisted log_id lower parse_utc format_seconds o ask)
      split none e = tt
      split (some next) e =
          request_work-Quiet t run goal session_id d.reason requested store.goals next
            (set_goal_completion_state-NoNew persisted log_id _ store t.leased.goal_id goal e)

  rejected-Quiet :
      (t : Turn) (reason : String) (goal : Goal) (session_id : String) (store : Store)
      → Quiet store.goals
          (rejected persisted log_id lower parse_utc format_seconds t reason goal session_id store)
  rejected-Quiet t reason goal session_id store =
      split
        (rejected persisted log_id lower parse_utc format_seconds t reason goal session_id store)
        refl
    where
      split :
          (o : Option Store)
          → rejected persisted log_id lower parse_utc format_seconds t reason goal session_id store
            ≡ o
          → Quiet store.goals o
      split none e = tt
      split (some after) e =
          set_goal_completion_state-NoNew persisted log_id
            (manager_change persisted log_id lower parse_utc format_seconds t reason "scheduler")
            (manager_signal persisted log_id lower parse_utc format_seconds t session_id
              "GoalCompletionRejected" "user:scheduler" "" store)
            t.leased.goal_id goal e

  -- The run, as it stands in the state, declared its goal complete, and its Unit's schedule does not
  -- refuse the completion.
  pub record IsDeclaredComplete (t : Turn) (store : Store) : Type 0 where
    pub run : Run
    pub found : get store.dispatch_runs t.leased.run_id ≡ some run
    pub unfenced : stale_dispatch_fence persisted store run goal_manager_role ≡ none
    pub declaration : Declaration
    pub declared : run.declared_outcome ≡ some declaration
    pub is_complete : declaration.completion_state ≡ "complete"
    pub session : Session
    pub owner : get store.sessions t.leased.session_id ≡ some session
    pub accepted :
        (prepare_scheduled_unit_completion persisted log_id lower parse_utc format_seconds
          (schedule_request persisted log_id lower parse_utc format_seconds t declaration)
          store
          session).1
        ≡ false

  abbrev Explained : Turn → Store → Option Store → Type 0
  Explained t store o = Quiet store.goals o ⊎ IsDeclaredComplete t store

  with_schedule-Explained :
      (t : Turn) (reason : String) (run : Run) (d : Declaration) (goal : Goal) (session_id : String)
      (store : Store) (s : Store × Bool)
      → IsSame store s.0
      → (s.1 ≡ false → IsDeclaredComplete t store)
      → Explained t store (
          with_schedule persisted log_id lower parse_utc format_seconds t reason run d goal
            session_id s)
  with_schedule-Explained t reason run d goal session_id store (next, false) same done =
      inr (done refl)
  with_schedule-Explained t reason run d goal session_id store (next, true) same done = inl (
      closed-Quiet t session_id
        (with_status persisted log_id lower parse_utc format_seconds "schedule_next_run_required"
          incomplete run)
        true store.goals
        (rejected persisted log_id lower parse_utc format_seconds t reason goal session_id next)
        (subst
          (λ goals. Quiet goals (
            rejected persisted log_id lower parse_utc format_seconds t reason goal session_id next))
          same.0 (rejected-Quiet t reason goal session_id next)))

  decided-Explained :
      (t : Turn) (reason : String) (store : Store) (run : Run) (d : Declaration) (goal : Goal)
      (session : Session)
      → get store.dispatch_runs t.leased.run_id ≡ some run
      → get store.goals t.leased.goal_id ≡ some goal
      → get store.sessions t.leased.session_id ≡ some session
      → stale_dispatch_fence persisted store run goal_manager_role ≡ none
      → run.declared_outcome ≡ some d
      → Explained t store (
          decided persisted log_id lower parse_utc format_seconds t reason store run d goal session)
  decided-Explained t reason store run d goal session found at owner unfenced declared =
      let asked =
        has_live_worker_readiness_for_goal store goal.goal_id
        || has_worker_request_for_run store t.leased.session_id t.leased.run_id in
      elim (Bool-cases (d.completion_state == waiting_text)) [
        | inl w ↦ rw w (inl (put_to_wait-NoNew t d goal store at))
        | inr f ↦ elim (Bool-cases (d.completion_state == "complete")) [
          | inr f' ↦
              rw (f, f')
                (inl (
                  closed-Quiet t t.leased.session_id
                    (with_status persisted log_id lower parse_utc format_seconds "incomplete"
                      incomplete run)
                    false store.goals
                    (left_incomplete persisted log_id lower parse_utc format_seconds t run d goal
                      t.leased.session_id asked store)
                    (left_incomplete-Quiet t run d goal t.leased.session_id asked store)))
          | inl c ↦
              rw (f, c)
                (with_schedule-Explained t reason run d goal t.leased.session_id store
                  (prepare_scheduled_unit_completion persisted log_id lower parse_utc format_seconds
                    (schedule_request persisted log_id lower parse_utc format_seconds t d) store
                    session)
                  (prepare-IsSame persisted log_id lower parse_utc format_seconds
                    (schedule_request persisted log_id lower parse_utc format_seconds t d) store
                    session)
                  (λ ok. record {
                    run = run;
                    found = found;
                    unfenced = unfenced;
                    declaration = d;
                    declared = declared;
                    is_complete = beq→eq d.completion_state "complete" c;
                    session = session;
                    owner = owner;
                    accepted = ok;
                  }))
        ]
      ]

  with_fence-Explained :
      (t : Turn) (reason : String) (store : Store) (run : Run) (goal : Goal) (session : Session)
      → get store.dispatch_runs t.leased.run_id ≡ some run
      → get store.goals t.leased.goal_id ≡ some goal
      → get store.sessions t.leased.session_id ≡ some session
      → (o : Option FenceReason) → stale_dispatch_fence persisted store run goal_manager_role ≡ o
      → Explained t store (
          with_fence persisted log_id lower parse_utc format_seconds t reason store run goal session
            o)
  with_fence-Explained t reason store run goal session found at owner (some fence) e = inl (
      subst (NoNew store.goals)
        (sym
          (discard-IsRelease persisted t.call store t.leased.run_id run goal_manager_role
            t.output).goals)
        (NoNew-refl store.goals))
  with_fence-Explained t reason store run goal session found at owner none e =
      split run.declared_outcome refl
    where
      split :
          (o : Option Declaration)
          → run.declared_outcome ≡ o
          → Explained t store (
              with_declaration persisted log_id lower parse_utc format_seconds t reason store run
                goal session o)
      split none d = inl (undecided-NoNew t t.leased.session_id run store)
      split (some decl) d =
          decided-Explained t reason store run decl goal session found at owner e d

  with_run-Explained :
      (t : Turn) (reason : String) (store : Store) (o : Option Run)
      → get store.dispatch_runs t.leased.run_id ≡ o
      → Explained t store
          (with_run persisted log_id lower parse_utc format_seconds t reason store o)
  with_run-Explained t reason store none e = inl (
      subst (NoNew store.goals) (sym (recover-IsRelease persisted t.call store t.leased e).goals)
        (NoNew-refl store.goals))
  with_run-Explained t reason store (some run) e =
      split (get store.goals t.leased.goal_id) (get store.sessions t.leased.session_id) refl refl
    where
      split :
          (g : Option Goal) (s : Option Session)
          → get store.goals t.leased.goal_id ≡ g
          → get store.sessions t.leased.session_id ≡ s
          → Explained t store
              (with_parts persisted log_id lower parse_utc format_seconds t reason store run g s)
      split none s at owner = inl tt
      split (some goal) none at owner = inl tt
      split (some goal) (some session) at owner =
          with_fence-Explained t reason store run goal session e at owner
            (stale_dispatch_fence persisted store run goal_manager_role) refl

  -- The commit of a GoalManager's turn completes a goal only when the run still holds its lease, has
  -- seen all that is required, declared the goal complete, and the Unit's schedule does not refuse
  -- it. On every other branch each goal that is complete behind the commit was complete before it.
  pub commit_goal_manager_run-IsDeclaredComplete :
      (t : Turn) (reason : String) (store : Store) {after : Store}
      → commit_goal_manager_run persisted log_id lower parse_utc format_seconds t reason store
        ≡ some after
      → NoNew store.goals after.goals ⊎ IsDeclaredComplete t store
  unfolding commit_goal_manager_run
  commit_goal_manager_run-IsDeclaredComplete t reason store {after} h =
      subst (Explained t store) h
        (with_run-Explained t reason store (get store.dispatch_runs t.leased.run_id) refl)
