-- ===== src/Liveness/Examples.antt =====
-- A Session that nothing works on gets a signal, and with it a ready entry.
use aize.Prelude.{ℕ, String, ◌≡◌, refl, Option, none, some, List, [], ◌∷◌, map}
use aize.State.{Readiness}
use aize.Dispatch.{Store}
use aize.Refresh.{Ids}
use aize.Liveness.{reconcile_dispatch_liveness}
use aize.Dispatch.Examples.{store}

abbrev on_disk : String → ℕ
on_disk sid = 0

abbrev clock : String → Option ℕ
clock s = none

abbrev ids : Ids
ids = record {
  now = "t9";
  log_id = λ sid name. "log";
  signal_id = λ sid name. name;
  ready_id = λ sid role. role;
}

abbrev lost : Store
lost = record store { dispatch_runs = []; dispatch_readiness = [] }

abbrev entries_of : Option Store → List String
entries_of none = []
entries_of (some s) = map (λ (e : Readiness). e.role) s.dispatch_readiness

found : entries_of (reconcile_dispatch_liveness on_disk clock clock ids lost) ≡ "GoalManager" ∷ []
unfolding reconcile_dispatch_liveness
found = refl
