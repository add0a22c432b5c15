-- ===== src/Units/Examples.antt =====
-- Tests of the schedules, and their theorem at a Unit whose run is due.
use aize.Prelude.{
  ℕ, String, ◌≡◌, refl, true, false, Bool, Option, none, some, [], ◌∷◌, get, ◌==◌, string_Eq,
  if◌then◌else◌, nat_Eq,
}
use mathlib.Core.Option
use aize.Prelude.Int.{pos}
use aize.State.{Session}
use aize.Prelude.Text.{strip}
use aize.Dispatch.{Store, UnitRecord, UnitSchedule}
use aize.Dispatch.Examples.{store, one_session}
use aize.Units.{Request, prepare_scheduled_unit_completion}
use aize.Units.Blocked.{IsBefore, prepare-IsBefore}

abbrev pub on_disk : String → ℕ
on_disk sid = 0

abbrev pub log_id : String → String → String
log_id sid name = name

abbrev pub lower : String → String
lower s = if s == "GoalManager" then "goalmanager" else s

abbrev pub clock : String → Option ℕ
clock s =
    if s == "t2"
    then some 2000000
    else if s == "t5"
    then some 5000000
    else if s == "t6"
    then some 6000000
    else none

abbrev pub show : ℕ → String
show n = if n == 6 then "t6" else "other"

-- Every four seconds from t2.
abbrev schedule : UnitSchedule
schedule = record {
  enabled = true;
  next_run_at = "";
  resolver = "next_interval_boundary";
  fixed_parameters = record { interval_seconds = pos 4; anchor = "" };
  next_run_note = "";
  next_run_set_by_session_id = "";
  next_run_set_by_run_id = "";
  next_run_set_at = "";
  next_run_required_by_session_id = "";
}

abbrev unit : UnitRecord
unit = record { unit_id = "u1"; status = "active"; schedule = some schedule; updated_at = "" }

abbrev session : Session
session = record one_session {
  unit_id = "u1";
  schedule_timing = record {
    scheduled_for = "t2";
    queued_at = "";
    started_at = "";
    completed_at = "";
  };
}

abbrev pub planned : Store
planned = record store { units = ("u1", unit) ∷ []; sessions = ("s1", session) ∷ [] }

abbrev pub request : Request
request = record {
  call_parameters = [];
  actor = "GoalManager";
  run_id = "run-1";
  completed_at = "t5";
  now = "t5";
  message_id = "m1";
}

abbrev planned_result : Store × Bool
planned_result =
    prepare_scheduled_unit_completion on_disk log_id lower clock show request planned session

goes_on : planned_result.1 ≡ false
unfolding prepare_scheduled_unit_completion
goes_on = refl

abbrev next_run : Option UnitRecord → Option String
next_run none = none
next_run (some u) = Option.map (λ (s : UnitSchedule). s.next_run_at) u.schedule

next_is_t6 : next_run (get planned_result.0.units "u1") ≡ some "t6"
unfolding prepare_scheduled_unit_completion get
next_is_t6 = refl

abbrev next_schedule : UnitSchedule
next_schedule = record schedule {
  next_run_at = "t6";
  next_run_note = "";
  next_run_set_by_session_id = "s1";
  next_run_set_by_run_id = "run-1";
  next_run_set_at = "t5";
  next_run_required_by_session_id = "";
}

abbrev next_unit : UnitRecord
next_unit = record unit { schedule = some next_schedule; updated_at = "t5" }

next_stands : get planned_result.0.units session.unit_id ≡ some next_unit
unfolding prepare_scheduled_unit_completion get
next_stands = refl

prepare-IsBefore_example : IsBefore clock "t5" "t6"
unfolding strip
prepare-IsBefore_example =
    prepare-IsBefore on_disk log_id lower clock show request planned session next_unit next_schedule
      refl goes_on next_stands refl refl
