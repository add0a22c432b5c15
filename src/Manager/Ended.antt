-- ===== src/Manager/Ended.antt =====
-- A GoalManager's commit and the commit of a failed run end their leases.
use aize.Prelude.{
  ℕ, String, ◌≡◌, refl, ap, ◌∙◌, subst, inl, inr, Bool, true, false, ◌||◌, Option, none, some, ◌==◌,
  string_Eq, get, put, Bool-cases, Dict,
}
use aize.State.{incomplete, complete, Goal, Session, goal_manager_role}
use aize.Endpoint.{normalize_role_endpoint, session_recipient}
use aize.Dispatch.{Run, Store, Declaration}
use aize.Dispatch.Exclusive.{Exclusive}
use aize.Commit.{FenceReason, stale_dispatch_fence, release}
use aize.Commit.Release.{IsEnd, put-IsEnd, IsEnd-Exclusive, discard-IsRelease, recover-IsRelease}
use aize.Goals.Kept.{set_goal_completion_state-runs}
use aize.Units.{prepare_scheduled_unit_completion}
use aize.Units.Kept.{prepare-IsSame}
use aize.Manager.{
  Turn, put_to_wait, left_incomplete, rejected, accepted, closed, with_schedule, decided,
  with_declaration, with_fence, with_parts, with_run, commit_goal_manager_run, after_state, bind,
  set_state, request_work, waiting_text, with_status, manager_change, to_worker, manager_signal,
  schedule_request, has_live_worker_readiness_for_goal, has_worker_request_for_run, note_completed,
}

module _ (persisted : String → ℕ) (log_id : String → String → String) (lower : String → String)
    (parse_utc : String → Option ℕ) (format_seconds : ℕ → String) where
  -- `none`, or a state with these runs.
  abbrev pub Keeps : Dict Run → Option Store → Type 0
  Keeps runs none = Unit
  Keeps runs (some after) = after.dispatch_runs ≡ runs

  -- `none`, or a state in which the run of this id holds no lease.
  abbrev pub Ends : Dict Run → String → Option Store → Type 0
  Ends runs key none = Unit
  Ends runs key (some after) = IsEnd runs key after.dispatch_runs

  closed-Ends :
      (t : Turn) (session_id : String) (run : Run) (resolve : Bool) (runs : Dict Run)
      (o : Option Store)
      → Keeps runs o
      → Ends runs t.leased.run_id
          (closed persisted log_id lower parse_utc format_seconds t session_id run resolve o)
  closed-Ends t session_id run resolve runs none k = tt
  closed-Ends t session_id run true runs (some store) k =
      put-IsEnd runs t.leased.run_id (release persisted t.call.now run)
        (ap (λ d. put d t.leased.run_id (release persisted t.call.now run)) k) refl
  closed-Ends t session_id run false runs (some store) k =
      put-IsEnd runs t.leased.run_id (release persisted t.call.now run)
        (ap (λ d. put d t.leased.run_id (release persisted t.call.now run)) k) refl

  request_work-Keeps :
      (t : Turn) (run : Run) (goal : Goal) (session_id reason : String) (requested : Bool)
      (runs : Dict Run) (store : Store)
      → store.dispatch_runs ≡ runs
      → Keeps runs (
          request_work persisted log_id lower parse_utc format_seconds t run goal session_id reason
            requested store)
  request_work-Keeps t run goal session_id reason true runs store k = k
  request_work-Keeps t run goal session_id reason false runs store k =
      split (normalize_role_endpoint session_recipient session_id)
    where
      split :
          (o : Option String)
          → Keeps runs (
              to_worker persisted log_id lower parse_utc format_seconds t run goal session_id reason
                o store)
      split none = tt
      split (some to) = k

  after_state-Keeps :
      (t : Turn) (goal : Goal) (runs : Dict Run) (o : Option Store)
      → Keeps runs o
      → Keeps runs (after_state persisted log_id lower parse_utc format_seconds t goal o)
  after_state-Keeps t goal runs none k = tt
  after_state-Keeps t goal runs (some store) k = k

  -- What follows a change of the goal's state.
  bind-Keeps :
      (runs : Dict Run) (o : Option Store) (f : Store → Option Store)
      → Keeps runs o
      → ((store : Store) → store.dispatch_runs ≡ runs → Keeps runs (f store))
      → Keeps runs (bind persisted log_id lower parse_utc format_seconds o f)
  bind-Keeps runs none f k each = tt
  bind-Keeps runs (some store) f k each = each store k

  pub set_state-Keeps :
      (t : Turn) (reason actor text : String) (goal : Goal) (runs : Dict Run) (store : Store)
      → store.dispatch_runs ≡ runs
      → Keeps runs (
          set_state persisted log_id lower parse_utc format_seconds
            (manager_change persisted log_id lower parse_utc format_seconds t reason actor)
            goal
            t
            text
            store)
  set_state-Keeps t reason actor text goal runs store k =
      split
        (set_state persisted log_id lower parse_utc format_seconds
          (manager_change persisted log_id lower parse_utc format_seconds t reason actor) goal t
          text store)
        refl
    where
      split :
          (o : Option Store)
          → set_state persisted log_id lower parse_utc format_seconds
              (manager_change persisted log_id lower parse_utc format_seconds t reason actor)
              goal
              t
              text
              store
            ≡ o
          → Keeps runs o
      split none e = tt
      split (some after) e =
          set_goal_completion_state-runs persisted log_id
            (manager_change persisted log_id lower parse_utc format_seconds t reason actor) store
            t.leased.goal_id goal text e
          ∙ k

  left_incomplete-Keeps :
      (t : Turn) (run : Run) (d : Declaration) (goal : Goal) (session_id : String)
      (requested : Bool) (store : Store)
      → Keeps store.dispatch_runs (
          left_incomplete persisted log_id lower parse_utc format_seconds t run d goal session_id
            requested store)
  left_incomplete-Keeps t run d goal session_id requested store =
      after_state-Keeps t goal store.dispatch_runs _ (
        bind-Keeps store.dispatch_runs _ _
          (set_state-Keeps t d.reason goal_manager_role "incomplete" goal store.dispatch_runs store
            refl)
          (request_work-Keeps t run goal session_id d.reason requested store.dispatch_runs))

  with_schedule-Ends :
      (t : Turn) (reason : String) (run : Run) (d : Declaration) (goal : Goal) (session_id : String)
      (runs : Dict Run) (s : Store × Bool)
      → s.0.dispatch_runs ≡ runs
      → Ends runs t.leased.run_id (
          with_schedule persisted log_id lower parse_utc format_seconds t reason run d goal
            session_id s)
  with_schedule-Ends t reason run d goal session_id runs (store, true) k =
      closed-Ends t session_id
        (with_status persisted log_id lower parse_utc format_seconds "schedule_next_run_required"
          incomplete run)
        true runs
        (rejected persisted log_id lower parse_utc format_seconds t reason goal session_id store)
        (set_state-Keeps t reason "scheduler" "incomplete" goal runs
          (manager_signal persisted log_id lower parse_utc format_seconds t session_id
            "GoalCompletionRejected" "user:scheduler" "" store)
          k)
  with_schedule-Ends t reason run d goal session_id runs (store, false) k =
      closed-Ends t session_id (record run { completion_state = some complete }) true runs
        (accepted persisted log_id lower parse_utc format_seconds t d goal session_id store)
        (bind-Keeps runs _
          (λ after.
            some
              (note_completed persisted log_id lower parse_utc format_seconds t session_id after))
          (set_state-Keeps t d.reason goal_manager_role "complete" goal runs store k)
          (λ next same. same))

  decided-Ends :
      (t : Turn) (reason : String) (store : Store) (run : Run) (d : Declaration) (goal : Goal)
      (session : Session)
      → Ends store.dispatch_runs t.leased.run_id (
          decided persisted log_id lower parse_utc format_seconds t reason store run d goal session)
  decided-Ends t reason store run d goal session =
      let asked =
        has_live_worker_readiness_for_goal store goal.goal_id
        || has_worker_request_for_run store t.leased.session_id t.leased.run_id in
      elim (Bool-cases (d.completion_state == waiting_text)) [
        | inl w ↦ rw w (
            closed-Ends t t.leased.session_id
              (with_status persisted log_id lower parse_utc format_seconds waiting_text incomplete
                run)
              true store.dispatch_runs
              (some (put_to_wait persisted log_id lower parse_utc format_seconds t d goal store))
              refl)
        | inr f ↦ elim (Bool-cases (d.completion_state == "complete")) [
          | inl c ↦
              rw (f, c)
                (with_schedule-Ends t reason run d goal t.leased.session_id store.dispatch_runs
                  (prepare_scheduled_unit_completion persisted log_id lower parse_utc format_seconds
                    (schedule_request persisted log_id lower parse_utc format_seconds t d) store
                    session)
                  (prepare-IsSame persisted log_id lower parse_utc format_seconds
                    (schedule_request persisted log_id lower parse_utc format_seconds t d) store
                    session).1)
          | inr f' ↦
              rw (f, f')
                (closed-Ends t t.leased.session_id
                  (with_status persisted log_id lower parse_utc format_seconds "incomplete"
                    incomplete run)
                  false store.dispatch_runs
                  (left_incomplete persisted log_id lower parse_utc format_seconds t run d goal
                    t.leased.session_id asked store)
                  (left_incomplete-Keeps t run d goal t.leased.session_id asked store))
        ]
      ]

  with_declaration-Ends :
      (t : Turn) (reason : String) (store : Store) (run : Run) (goal : Goal) (session : Session)
      (o : Option Declaration)
      → Ends store.dispatch_runs t.leased.run_id (
          with_declaration persisted log_id lower parse_utc format_seconds t reason store run goal
            session o)
  with_declaration-Ends t reason store run goal session none =
      put-IsEnd store.dispatch_runs t.leased.run_id
        (release persisted t.call.now (
          with_status persisted log_id lower parse_utc format_seconds "missing_completion_decision"
            incomplete run))
        refl refl
  with_declaration-Ends t reason store run goal session (some d) =
      decided-Ends t reason store run d goal session

  with_fence-Ends :
      (t : Turn) (reason : String) (store : Store) (run : Run) (goal : Goal) (session : Session)
      (o : Option FenceReason)
      → Ends store.dispatch_runs t.leased.run_id (
          with_fence persisted log_id lower parse_utc format_seconds t reason store run goal session
            o)
  with_fence-Ends t reason store run goal session (some fence) =
      (discard-IsRelease persisted t.call store t.leased.run_id run goal_manager_role
        t.output).ended
  with_fence-Ends t reason store run goal session none =
      with_declaration-Ends t reason store run goal session run.declared_outcome

  with_parts-Ends :
      (t : Turn) (reason : String) (store : Store) (run : Run) (g : Option Goal)
      (s : Option Session)
      → Ends store.dispatch_runs t.leased.run_id
          (with_parts persisted log_id lower parse_utc format_seconds t reason store run g s)
  with_parts-Ends t reason store run none s = tt
  with_parts-Ends t reason store run (some goal) none = tt
  with_parts-Ends t reason store run (some goal) (some session) =
      with_fence-Ends t reason store run goal session
        (stale_dispatch_fence persisted store run goal_manager_role)

  with_run-Ends :
      (t : Turn) (reason : String) (store : Store) (o : Option Run)
      → get store.dispatch_runs t.leased.run_id ≡ o
      → Ends store.dispatch_runs t.leased.run_id
          (with_run persisted log_id lower parse_utc format_seconds t reason store o)
  with_run-Ends t reason store none e = (recover-IsRelease persisted t.call store t.leased e).ended
  with_run-Ends t reason store (some run) e =
      with_parts-Ends t reason store run (get store.goals t.leased.goal_id)
        (get store.sessions t.leased.session_id)

  -- The commit of a GoalManager's turn raises an error or ends the lease of its run, on every branch:
  -- the run is missing, its result is discarded, nothing was declared, the goal waits, is completed,
  -- is kept incomplete by its Unit's schedule, or goes to a WorkerAgent. The other runs stay as they
  -- are, and exclusive leases stay exclusive.
  pub commit_goal_manager_run-IsEnd :
      (t : Turn) (reason : String) (store : Store) {after : Store}
      → Exclusive store.dispatch_runs
      → commit_goal_manager_run persisted log_id lower parse_utc format_seconds t reason store
        ≡ some after
      → IsEnd store.dispatch_runs t.leased.run_id after.dispatch_runs
        × Exclusive after.dispatch_runs
  unfolding commit_goal_manager_run
  commit_goal_manager_run-IsEnd t reason store {after} ex h =
      let ended : IsEnd store.dispatch_runs t.leased.run_id after.dispatch_runs =
        subst (Ends store.dispatch_runs t.leased.run_id) h
          (with_run-Ends t reason store (get store.dispatch_runs t.leased.run_id) refl) in
      (ended, IsEnd-Exclusive store.dispatch_runs t.leased.run_id after.dispatch_runs ex ended)
