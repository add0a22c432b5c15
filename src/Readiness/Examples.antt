-- ===== src/Readiness/Examples.antt =====
-- Tests of the readiness entries, and their theorems at concrete ones.
use aize.Prelude.{
  ℕ, String, ◌≡◌, refl, true, false, Option, none, some, List, [], ◌∷◌, In, Dict, values, ◌==◌,
  string_Eq, if◌then◌else◌,
}
use aize.State.{Status, Readiness, is_ready, is_acquired, holds_lease}
use aize.Dispatch.{Run}
use aize.Dispatch.Examples.{ready_entry, manager_run}
use aize.Readiness.{
  deduplicate_ready_entries, dispatch_lease_expired, repair_runs, repair_readiness,
}
use aize.Readiness.Single.{IsSingle, Covers, deduplicate_ready_entries-IsSingle}
use aize.Readiness.Ownership.{IsInTime, repair-Owned}

abbrev entries : List Readiness
entries =
    record ready_entry { readiness_id = "new"; first_ready_at = "t5" }
    ∷ record ready_entry { readiness_id = "other"; role = "GoalManager" }
    ∷ record ready_entry { readiness_id = "old"; first_ready_at = "t2" }
    ∷ record ready_entry { readiness_id = "newer"; first_ready_at = "t9" }
    ∷ []

oldest_stays :
    deduplicate_ready_entries entries
    ≡ record ready_entry { readiness_id = "other"; role = "GoalManager" }
      ∷ record ready_entry { readiness_id = "old"; first_ready_at = "t2" }
      ∷ []
unfolding deduplicate_ready_entries
oldest_stays = refl

deduplicate_ready_entries-IsSingle_example :
    IsSingle (deduplicate_ready_entries entries)
    × ((e : Readiness)
        → In e entries
        → is_ready e.status ≡ true
        → Covers (deduplicate_ready_entries entries) e)
deduplicate_ready_entries-IsSingle_example = deduplicate_ready_entries-IsSingle entries

abbrev clock : String → Option ℕ
clock s = if s == "t0" then some 0 else if s == "t1" then some 660000000 else none

in_time : dispatch_lease_expired clock manager_run "t0" ≡ false
unfolding dispatch_lease_expired
in_time = refl

too_late : dispatch_lease_expired clock manager_run "t1" ≡ true
unfolding dispatch_lease_expired
too_late = refl

abbrev runs : Dict Run
runs = ("run-1", manager_run) ∷ []

abbrev acquired_entry : Readiness
acquired_entry = record ready_entry {
  readiness_id = "r0";
  status = Status.acquired;
  acquired_at = some "t0";
}

still_owned : repair_readiness clock "t0" runs (acquired_entry ∷ []) ≡ acquired_entry ∷ []
unfolding repair_readiness
still_owned = refl

repair-Owned_example :
    ((run : Run)
      → In run (values (repair_runs clock "t0" runs))
      → holds_lease run.lease_state ≡ true
      → IsInTime clock "t0" run)
    × ((e : Readiness)
        → In e (repair_readiness clock "t0" runs (acquired_entry ∷ []))
        → is_acquired e.status ≡ true
        → (run : Run) × In run (values (repair_runs clock "t0" runs))
          × (holds_lease run.lease_state ≡ true)
          × (run.readiness_id ≡ e.readiness_id))
repair-Owned_example = repair-Owned clock "t0" runs (acquired_entry ∷ [])
