-- ===== src/Policy/Examples.antt =====
-- Tests of the policy, and its theorems at concrete entries.
use aize.Prelude.{
  ℕ, String, ◌≡◌, refl, true, Option, none, some, List, [], ◌∷◌, Dict, arith, ◌==◌, string_Eq,
  if◌then◌else◌,
}
use aize.Prelude.Int.{pos, ◌+ℤ◌, ◌≤ℤ◌}
use aize.Prelude.Text.{strip}
use aize.State.{Status, Readiness, Goal, Session, incomplete, complete, Completion, no_timing}
use aize.Policy.{select_role_dispatch_readiness, scheduling_score, aging_score_limit, microseconds}
use aize.Policy.Decision.{IsDecision, select-IsDecision}
use aize.Policy.Score.{scheduling_score_aging}

-- Two instants, ten minutes apart.
abbrev clock : String → Option ℕ
clock s =
    if s == "2026-01-01T00:00:00Z"
    then some 0
    else if s == "2026-01-01T00:10:00Z"
    then some (microseconds 600)
    else none

abbrev entry : String → String → String → String → Readiness
entry id session goal since = record {
  readiness_id = id;
  session_id = session;
  goal_id = goal;
  role = "GoalManager";
  status = Status.ready;
  first_ready_at = since;
  refreshed_at = since;
  from_log_seq = none;
  observed_to_seq = none;
  wake_reasons = [];
  available_after = "";
  acquired_at = none;
  resolved_at = none;
  stale_at = none;
  stale_reason = "";
  failed_at = none;
  recovered_at = none;
}

abbrev goal : String → String → Completion → Goal
goal id session state = record {
  goal_id = id;
  session_id = session;
  body = "do it";
  created_by = "root";
  created_at = "2026-01-01T00:00:00Z";
  completion_state = state;
  completion_reason = "";
  completion_reason_updated_at = "";
  completed_at = none;
  last_incomplete_at = none;
  archived_at = "";
  waiting = none;
  failed_at = none;
}

abbrev session : String → String → Session
session id class = record {
  session_id = id;
  unit_id = "";
  created_at = "2026-01-01T00:00:00Z";
  updated_at = "2026-01-01T00:00:00Z";
  active = true;
  scheduling_policy = some (record { class = class; base_priority = pos 0 });
  role_cursors = [];
  schedule_timing = no_timing;
}

abbrev goals : Dict Goal
goals =
    ("g1", goal "g1" "s1" incomplete)
    ∷ ("g2", goal "g2" "s2" incomplete)
    ∷ ("g3", goal "g3" "s3" complete)
    ∷ []

abbrev sessions : Dict Session
sessions =
    ("s1", session "s1" "normal")
    ∷ ("s2", session "s2" "critical")
    ∷ ("s3", session "s3" "high")
    ∷ []

abbrev entries : List Readiness
entries =
    entry "r3" "s3" "g3" "2026-01-01T00:00:00Z"
    ∷ entry "r2" "s2" "g2" "2026-01-01T00:10:00Z"
    ∷ entry "r1" "s1" "g1" "2026-01-01T00:00:00Z"
    ∷ []

-- At ten minutes the first Session is starved and goes before the critical one; the entry of the
-- complete goal is stale.
starved_first :
    (select_role_dispatch_readiness clock goals sessions [] ""
      (microseconds 600)
      entries).readiness_index
    ≡ some 2
unfolding select_role_dispatch_readiness strip ◌+ℤ◌
starved_first = refl

-- A minute earlier the higher score wins.
critical_first :
    (select_role_dispatch_readiness clock goals sessions [] ""
      (microseconds 540)
      entries).readiness_index
    ≡ some 1
unfolding select_role_dispatch_readiness strip ◌+ℤ◌
critical_first = refl

stale_goal :
    (select_role_dispatch_readiness clock goals sessions [] ""
      (microseconds 600)
      entries).stale_indexes
    ≡ 0 ∷ []
unfolding select_role_dispatch_readiness strip ◌+ℤ◌
stale_goal = refl

select-IsDecision_example :
    IsDecision clock goals sessions [] ""
      (microseconds 600)
      entries
      (select_role_dispatch_readiness clock goals sessions [] "" (microseconds 600) entries)
select-IsDecision_example = select-IsDecision clock goals sessions [] "" (microseconds 600) entries

scheduling_score_aging_example :
    ((scheduling_score clock (session "s1" "high") "GoalManager" "2026-01-01T00:00:00Z" 0).0
      ≤ℤ (scheduling_score clock
          (session "s1" "high")
          "GoalManager"
          "2026-01-01T00:00:00Z"
          (microseconds 600)).0)
    × ((scheduling_score clock
          (session "s1" "high")
          "GoalManager"
          "2026-01-01T00:00:00Z"
          (microseconds 600)).0
        ≤ℤ (scheduling_score clock (session "s1" "high") "GoalManager" "2026-01-01T00:00:00Z" 0).0
          +ℤ pos aging_score_limit)
scheduling_score_aging_example =
    scheduling_score_aging clock (session "s1" "high") "GoalManager" "2026-01-01T00:00:00Z" 0
      (microseconds 600) (omega arith)
