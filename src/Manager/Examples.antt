-- ===== src/Manager/Examples.antt =====
-- Tests of the GoalManager's commit, and the theorems at a run that declared its goal complete.
use aize.Prelude.{String, ◌≡◌, refl, ◌⊎◌, Option, none, some, List, [], ◌∷◌, get, map}
use mathlib.Core.Option
use aize.State.{Goal, Completion, complete, LogEntry}
use aize.SessionLog.{log_of}
use aize.Dispatch.{Run, Store, Declaration}
use aize.Dispatch.Examples.{store, manager_run, one_run-Exclusive}
use aize.Dispatch.Exclusive.{Exclusive}
use aize.Commit.Release.{IsEnd}
use aize.Goals.Kept.{NoNew}
use aize.Units.Examples.{on_disk, log_id, lower, clock, show}
use aize.Manager.{Turn, commit_goal_manager_run}
use aize.Manager.Failure.{commit_dispatch_error}
use aize.Manager.Outcome.{IsDeclaredComplete, commit_goal_manager_run-IsDeclaredComplete}
use aize.Manager.Ended.{commit_goal_manager_run-IsEnd}
use aize.Manager.Failed.{commit_dispatch_error-IsEnd}

abbrev outcome_of : String → Declaration
outcome_of text = record {
  completion_state = text;
  reason = "because";
  schedule_parameters = [];
  wait = none;
  declared_by = "GoalManager";
  declared_at = "t4";
}

abbrev run : Option Declaration → Run
run d = record manager_run { declared_outcome = d }

abbrev leased : Option Declaration → Store
leased d = record store { dispatch_runs = ("run-1", run d) ∷ [] }

abbrev turn : Turn
turn = record {
  leased = manager_run;
  leased_messages = [];
  output = "done";
  retry_at = "t9";
  call = record { now = "t5"; log_id = "log"; signal_id = "sig" };
  message_id = "m1";
}

abbrev result : Option Declaration → Option Store
result d = commit_goal_manager_run on_disk log_id lower clock show turn "not scheduled" (leased d)

abbrev store_or : Option Store → Store
store_or none = store
store_or (some s) = s

abbrev state_of : Option Store → Option Completion
state_of o = Option.map (λ (g : Goal). g.completion_state) (get (store_or o).goals "g1")

abbrev kinds_of : Option Store → List String
kinds_of o = map (λ (e : LogEntry). e.kind) (log_of (store_or o).session_logs "s1")

is_completed : state_of (result (some (outcome_of "complete"))) ≡ some complete
unfolding commit_goal_manager_run get
is_completed = refl

-- An incomplete goal goes to the WorkerAgent, whose entry is ready already.
goes_on : kinds_of (result (some (outcome_of "incomplete"))) ≡ "GoalStateChanged" ∷ []
unfolding commit_goal_manager_run get
goes_on = refl

undecided : kinds_of (result none) ≡ "SystemSignal" ∷ []
unfolding commit_goal_manager_run get
undecided = refl

abbrev after : Store
after = store_or (result (some (outcome_of "complete")))

committed : result (some (outcome_of "complete")) ≡ some after
unfolding commit_goal_manager_run
committed = refl

commit_goal_manager_run-IsDeclaredComplete_example :
    NoNew store.goals after.goals
    ⊎ IsDeclaredComplete on_disk log_id lower clock show turn
        (leased (some (outcome_of "complete")))
commit_goal_manager_run-IsDeclaredComplete_example =
    commit_goal_manager_run-IsDeclaredComplete on_disk log_id lower clock show turn "not scheduled"
      (leased (some (outcome_of "complete"))) committed

commit_goal_manager_run-IsEnd_example :
    IsEnd (leased (some (outcome_of "complete"))).dispatch_runs "run-1" after.dispatch_runs
    × Exclusive after.dispatch_runs
commit_goal_manager_run-IsEnd_example =
    commit_goal_manager_run-IsEnd on_disk log_id lower clock show turn "not scheduled"
      (leased (some (outcome_of "complete")))
      (one_run-Exclusive "run-1" (run (some (outcome_of "complete")))) committed

abbrev broken : Store
broken = store_or (commit_dispatch_error on_disk log_id lower clock show turn "timeout" store)

is_failed : commit_dispatch_error on_disk log_id lower clock show turn "timeout" store ≡ some broken
unfolding commit_dispatch_error
is_failed = refl

commit_dispatch_error-IsEnd_example :
    IsEnd store.dispatch_runs "run-1" broken.dispatch_runs × Exclusive broken.dispatch_runs
commit_dispatch_error-IsEnd_example =
    commit_dispatch_error-IsEnd on_disk log_id lower clock show turn "timeout" store
      (one_run-Exclusive "run-1" manager_run) is_failed
