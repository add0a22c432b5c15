-- ===== src/Dispatch/Examples.antt =====
-- A small store with one lease and one ready entry, tests of the acquisition and its theorem there.
use aize.Prelude.{
  ℕ, zero, suc, String, ◌≡◌, refl, ap, sym, ◌∙◌, true, Option, none, some, [], ◌∷◌, get, Bool-cases,
  inl, inr, beq→eq, ◌==◌, string_Eq,
}
use mathlib.Core.Option
use mathlib.Core.Option.{some-injective}
use aize.Prelude.Int.{pos, ◌+ℤ◌}
use aize.Prelude.Text.{strip}
use aize.State.{Status, Lease, Readiness, Goal, Session, incomplete, no_timing}
use aize.Dispatch.{Run, Store, Acquired, leased, idle, failed, Grant, acquire_dispatch_lease}
use aize.Dispatch.Exclusive.{Exclusive, Agrees, acquire_dispatch_lease-Exclusive}

abbrev clock : String → Option ℕ
clock s = none

abbrev pub ready_entry : Readiness
ready_entry = record {
  readiness_id = "r1";
  session_id = "s1";
  goal_id = "g1";
  role = "WorkerAgent";
  status = Status.ready;
  first_ready_at = "t0";
  refreshed_at = "t0";
  from_log_seq = some 1;
  observed_to_seq = some 2;
  wake_reasons = [];
  available_after = "";
  acquired_at = none;
  resolved_at = none;
  stale_at = none;
  stale_reason = "";
  failed_at = none;
  recovered_at = none;
}

abbrev pub one_goal : Goal
one_goal = record {
  goal_id = "g1";
  session_id = "s1";
  body = "do it";
  created_by = "root";
  created_at = "t0";
  completion_state = incomplete;
  completion_reason = "";
  completion_reason_updated_at = "";
  completed_at = none;
  last_incomplete_at = none;
  archived_at = "";
  waiting = none;
  failed_at = none;
}

abbrev pub one_session : Session
one_session = record {
  session_id = "s1";
  unit_id = "";
  created_at = "t0";
  updated_at = "t0";
  active = true;
  scheduling_policy = none;
  role_cursors = [];
  schedule_timing = no_timing;
}

-- The GoalManager of the Session holds a lease.
abbrev pub manager_run : Run
manager_run = record {
  run_id = "run-1";
  goal_id = "g1";
  session_id = "s1";
  role = "GoalManager";
  unit_id = "";
  lease_state = Lease.acquired;
  readiness_id = "r0";
  scheduling_score = some (pos 0);
  created_at = "t0";
  lease_acquired_at = "t0";
  lease_released_at = none;
  interrupted_at = none;
  interrupted_reason = "";
  current_phase = "GoalManager";
  agent_user = "";
  agent_provider = "codex";
  observed_goal_body = some "do it";
  from_log_seq = some 1;
  observed_to_seq = some 1;
  wake_reasons = [];
  completion_state = none;
  goal_manager_status = "";
  declared_outcome = none;
  stale_result_at = none;
  stale_results = [];
  failed_at = none;
  error = "";
}

abbrev pub store : Store
store = record {
  goals = ("g1", one_goal) ∷ [];
  sessions = ("s1", one_session) ∷ [];
  units = [];
  dispatch_readiness = ready_entry ∷ [];
  dispatch_runs = ("run-1", manager_run) ∷ [];
  session_logs = [];
  session_edges = [];
  endpoint_cursors = [];
}

abbrev call : Grant
call = record { now = "t1"; run_id = "run-2"; agent_user = ""; agent_provider = "codex" }

abbrev run_of : Acquired → Option Run
run_of (leased s r) = some r
run_of (idle s) = none
run_of (failed e) = none

abbrev store_of : Acquired → Store
store_of (leased s r) = s
store_of (idle s) = s
store_of (failed e) = store

abbrev run_or : Option Run → Run
run_or none = manager_run
run_or (some r) = r

abbrev result : Acquired
result = acquire_dispatch_lease call clock 0 store "" true

-- Both roles of one Session may run side by side, but not the same role twice.
worker_starts : Option.map (λ (r : Run). r.role) (run_of result) ≡ some "WorkerAgent"
unfolding acquire_dispatch_lease strip ◌+ℤ◌
worker_starts = refl

second_time : run_of (acquire_dispatch_lease call clock 0 (store_of result) "" true) ≡ none
unfolding acquire_dispatch_lease strip ◌+ℤ◌
second_time = refl

only_key : (k : String) (r : Run) (i : String) {a : Run} → get ((k, r) ∷ []) i ≡ some a → k ≡ i
unfolding get
only_key k r i h = elim (Bool-cases (k == i)) [ inl t ↦ beq→eq k i t | inr f ↦ cc (rw f at h) ]

pub one_run-Exclusive : (k : String) (r : Run) → Exclusive ((k, r) ∷ [])
one_run-Exclusive k r i j a b ha hb la lb sid role = sym (only_key k r i ha) ∙ only_key k r j hb

store-Agrees : Agrees store
unfolding get
store-Agrees zero e g at owned =
    let same : ready_entry ≡ e = some-injective _ _ at in
    let theirs : some one_goal ≡ some g =
      ap (λ (x : Readiness). get store.goals x.goal_id) same ∙ owned in
    ap (λ (x : Goal). x.session_id) (sym (some-injective _ _ theirs))
    ∙ ap (λ (x : Readiness). x.session_id) same
store-Agrees (suc i) e g at owned = cc

is_new : get store.dispatch_runs "run-2" ≡ none
unfolding get
is_new = refl

granted : result ≡ leased (store_of result) (run_or (run_of result))
unfolding acquire_dispatch_lease strip ◌+ℤ◌
granted = refl

acquire_dispatch_lease-Exclusive_example : Exclusive (store_of result).dispatch_runs
acquire_dispatch_lease-Exclusive_example =
    acquire_dispatch_lease-Exclusive call clock 0 store "" true
      (one_run-Exclusive "run-1" manager_run) store-Agrees is_new granted
