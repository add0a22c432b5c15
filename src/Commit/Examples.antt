-- ===== src/Commit/Examples.antt =====
-- Tests of the fence and the commit, and their theorems at the store of the leases' tests, whose only
-- run is a WorkerAgent's here.
use mathlib.Core.Option
use aize.Prelude.{ℕ, String, ◌≡◌, refl, ◌↔◌, true, Option, none, some, [], ◌∷◌, get, arith}
use aize.State.{LogEntry, worker_agent_role}
use aize.SessionLog.{log_of}
use aize.SessionLog.Cursor.{Rising}
use aize.Dispatch.{Run, Store}
use aize.Dispatch.Exclusive.{Exclusive}
use aize.Dispatch.Examples.{store, manager_run, one_run-Exclusive}
use aize.Commit.{Call, commit_worker_run, stale_dispatch_fence, newer_requirement, child_completed}
use aize.Commit.Fence.{IsCurrent, stale_dispatch_fence-IsCurrent}
use aize.Commit.Release.{IsRelease, commit_worker_run-IsRelease}

abbrev on_disk : String → ℕ
on_disk sid = 0

abbrev worker_run : Run
worker_run = record manager_run { role = "WorkerAgent"; current_phase = "WorkerAgent" }

abbrev log_entry : ℕ → String → LogEntry
log_entry seq kind = record {
  log_id = "log";
  seq = seq;
  session_id = "s1";
  kind = kind;
  created_at = "t1";
  message_id = "";
  event = none;
  event_key = "";
  message = none;
}

-- A signal after the window is no new requirement; a completed child is.
abbrev quiet : Store
quiet = record store {
  dispatch_runs = ("run-1", worker_run) ∷ [];
  session_logs = ("s1", log_entry 1 "Message" ∷ log_entry 2 "SystemSignal" ∷ []) ∷ [];
}

abbrev disturbed : Store
disturbed = record quiet {
  session_logs = ("s1", log_entry 1 "Message" ∷ log_entry 2 "ChildGoalCompleted" ∷ []) ∷ [];
}

let_through : stale_dispatch_fence on_disk quiet worker_run worker_agent_role ≡ none
unfolding stale_dispatch_fence
let_through = refl

fenced :
    stale_dispatch_fence on_disk disturbed worker_run worker_agent_role
    ≡ some (newer_requirement child_completed)
unfolding stale_dispatch_fence
fenced = refl

quiet-Rising : Rising 0 (log_of quiet.session_logs "s1")
unfolding get
quiet-Rising = (omega arith, (omega arith, tt))

stale_dispatch_fence-IsCurrent_example :
    (stale_dispatch_fence on_disk quiet worker_run worker_agent_role ≡ none)
    ↔ IsCurrent quiet worker_run worker_agent_role
stale_dispatch_fence-IsCurrent_example =
    stale_dispatch_fence-IsCurrent on_disk quiet worker_run worker_agent_role quiet-Rising

abbrev call : Call
call = record { now = "t2"; log_id = "log-9"; signal_id = "sig-9" }

abbrev store_or : Option Store → Store
store_or none = store
store_or (some s) = s

-- The result of a disturbed run is discarded.
abbrev after : Store
after = store_or (commit_worker_run on_disk call disturbed worker_run "done" true "t3")

committed : commit_worker_run on_disk call disturbed worker_run "done" true "t3" ≡ some after
unfolding commit_worker_run
committed = refl

discarded :
    Option.map (λ (r : Run). r.stale_result_at) (get after.dispatch_runs "run-1") ≡ some (some "t2")
unfolding commit_worker_run
discarded = refl

commit_worker_run-IsRelease_example :
    IsRelease disturbed "run-1" after × Exclusive after.dispatch_runs
commit_worker_run-IsRelease_example =
    commit_worker_run-IsRelease on_disk call disturbed worker_run "done" true "t3"
      (one_run-Exclusive "run-1" worker_run) committed
