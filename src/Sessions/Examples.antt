-- ===== src/Sessions/Examples.antt =====
-- Tests of the operations on Sessions and goals, and their theorem at a goal that waits.
use aize.Prelude.{ℕ, String, ◌≡◌, refl, true, false, Option, none, some, List, [], ◌∷◌, get, map}
use aize.State.{Waiting, LogEntry}
use aize.SessionLog.{log_of}
use aize.Dispatch.{Store, UnitRecord}
use aize.Dispatch.Examples.{store, one_goal}
use aize.Goals.{Change}
use aize.Goals.Current.{Keyed}
use aize.Sessions.{
  Fresh, set_unit_active, set_session_active, update_goal, mark_session_reprocess_needed,
}
use aize.Sessions.Reprocess.{IsAwake, mark_session_reprocess_needed-IsAwake}

abbrev on_disk : String → ℕ
on_disk sid = 0

abbrev log_id : String → String → String
log_id sid kind = "log"

abbrev fresh : Fresh
fresh = record { new_goal_id = "g2"; signal_id = "sig"; revision = "rev"; now = "t7" }

abbrev root_unit : UnitRecord
root_unit = record { unit_id = "root"; status = "active"; schedule = none; updated_at = "" }

root_stays : set_unit_active (("root", root_unit) ∷ []) "root" false ≡ none
unfolding set_unit_active
root_stays = refl

abbrev kinds_of : Option Store → List String
kinds_of none = []
kinds_of (some s) = map (λ (e : LogEntry). e.kind) (log_of s.session_logs "s1")

paused :
    kinds_of (set_session_active on_disk log_id store "s1" false "t7") ≡ "SessionActiveChanged" ∷ []
unfolding set_session_active get
paused = refl

revision :
    kinds_of (update_goal on_disk log_id fresh store "s1" " more " "root" true)
    ≡ "GoalBodyUpdated" ∷ "GoalStateChanged" ∷ []
unfolding update_goal get
revision = refl

abbrev waiting : Waiting
waiting = record {
  kind = "event";
  wait_until = "";
  event_name = "go";
  child_session_id = "";
  wake_log_seq = 0;
  reason = "";
  declared_at = "t5";
  declared_run_id = "run-1";
}

abbrev asleep : Store
asleep = record store { goals = ("g1", record one_goal { waiting = some waiting }) ∷ [] }

abbrev change : Change
change = record {
  reason = "input";
  actor = "root";
  run_id = "";
  now = "t7";
  defer_goal_manager = false;
}

woken :
    kinds_of (mark_session_reprocess_needed on_disk log_id fresh change asleep "s1")
    ≡ "SystemSignal" ∷ "GoalStateChanged" ∷ []
unfolding mark_session_reprocess_needed get
woken = refl

asleep-Keyed : Keyed asleep.goals
unfolding get
asleep-Keyed = (refl, tt)

unused : get asleep.goals "g2" ≡ none
unfolding get
unused = refl

mark_session_reprocess_needed-IsAwake_example :
    (after : Store) × (mark_session_reprocess_needed on_disk log_id fresh change asleep "s1"
      ≡ some after)
    × IsAwake after "s1"
mark_session_reprocess_needed-IsAwake_example =
    mark_session_reprocess_needed-IsAwake on_disk log_id fresh change asleep "s1" refl asleep-Keyed
      unused
