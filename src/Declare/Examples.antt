-- ===== src/Declare/Examples.antt =====
-- Tests of the declarations, and their theorems at a GoalManager's run.
use aize.Prelude.{
  get, ℕ, String, ◌≡◌, ◌≢◌, refl, ◌↔◌, Option, none, some, [], ◌==◌, string_Eq, if◌then◌else◌,
}
use aize.State.{Goal, Waiting}
use aize.SessionLog.{latest_session_log_seq}
use aize.Dispatch.{Run, Store, Declaration}
use aize.Dispatch.Examples.{store}
use aize.Declare.{
  Declared, declared, refused, Decision, WaitSpec, spec, outcome, already_declared,
  set_goal_completion_state_from_runtime, normalize_goal_waiting_spec,
}
use aize.Declare.Allowed.{declares_once}
use aize.Declare.Owner.{IsOwner, IsRecorded, set_goal_completion_state_from_runtime-IsOwner}
use aize.SessionLog.{log_of}
use aize.SessionLog.Cursor.{Rising}
use aize.Declare.Bounded.{IsEnding, normalize_goal_waiting_spec-IsEnding}

abbrev on_disk : String → ℕ
on_disk sid = 0

abbrev lower : String → String
lower s = if s == "GoalManager" then "goalmanager" else s

abbrev clock : String → Option ℕ
clock s = if s == "t5" then some 5 else if s == "t9" then some 9 else none

abbrev decision : String → Decision
decision text = record {
  completion_state = text;
  reason = "";
  actor = "manage";
  run_id = "run-1";
  schedule_parameters = [];
  now = "t5";
}

abbrev store_of : Declared → Store
store_of (declared after d) = after
store_of (refused error) = store

abbrev decl : Declaration
decl = outcome on_disk lower clock (decision "complete")

abbrev result : String → Store → Declared
result text s = set_goal_completion_state_from_runtime on_disk lower clock s "s1" (decision text)

accepted : result "complete" store ≡ declared (store_of (result "complete" store)) decl
unfolding set_goal_completion_state_from_runtime
accepted = refl

only_once : result "incomplete" (store_of (result "complete" store)) ≡ refused already_declared
unfolding set_goal_completion_state_from_runtime
only_once = refl

numbered : Rising 0 (log_of store.session_logs "s1")
unfolding get
numbered = tt

set_goal_completion_state_from_runtime-IsOwner_example :
    (result "complete" store ≡ declared (store_of (result "complete" store)) decl) ↔ (
      (run : Run) × (goal : Goal) × IsOwner on_disk lower clock store "s1"
        (decision "complete")
        run
        goal
      × IsRecorded store (decision "complete") run (store_of (result "complete" store)) decl)
set_goal_completion_state_from_runtime-IsOwner_example =
    set_goal_completion_state_from_runtime-IsOwner on_disk lower clock store "s1"
      (decision "complete") (store_of (result "complete" store)) decl numbered

declares_once_example :
    result "incomplete" (store_of (result "complete" store)) ≢ declared store decl
declares_once_example =
    declares_once on_disk lower clock store "s1" "s1" (decision "complete") (decision "incomplete")
      (store_of (result "complete" store)) store decl decl accepted refl

abbrev until_t9 : WaitSpec
until_t9 = record { kind = " deadline"; wait_until = "t9"; event_name = ""; child_session_id = "" }

abbrev waiting : Waiting
waiting = record {
  kind = "deadline";
  wait_until = "t9";
  event_name = "";
  child_session_id = "";
  wake_log_seq = 0;
  reason = "";
  declared_at = "";
  declared_run_id = "";
}

normal : normalize_goal_waiting_spec on_disk lower clock store "s1" "t5" until_t9 ≡ spec waiting
unfolding normalize_goal_waiting_spec
normal = refl

normalize_goal_waiting_spec-IsEnding_example :
    IsEnding on_disk lower clock store "t5" waiting
    × (0 ≡ latest_session_log_seq on_disk store.session_logs "s1")
normalize_goal_waiting_spec-IsEnding_example =
    normalize_goal_waiting_spec-IsEnding on_disk lower clock store "s1" "t5" until_t9 waiting normal
