-- ===== src/Recovery/Examples.antt =====
-- Tests of the recovery, and its theorem at a store with a leased run and two acquired entries.
use aize.Prelude.{ℕ, String, ◌≡◌, refl, sym, ap, subst, true, inl, inr, [], ◌∷◌, map, In, values}
use aize.State.{Readiness, Status, Lease, holds_lease, is_acquired}
use aize.Dispatch.{Run, Store}
use aize.Dispatch.Examples.{store, ready_entry}
use aize.Goals.{Held, current_goals}
use aize.Recovery.{record_runtime_recovery_signals}
use aize.Recovery.Idle.{IsIdle, IsAgreeing, record_runtime_recovery_signals-IsIdle}

abbrev on_disk : String → ℕ
on_disk sid = 0

abbrev log_id : String → String → String
log_id sid name = name

abbrev signal_id : String → String
signal_id sid = "sig"

abbrev held : Readiness
held = record ready_entry { readiness_id = "r0"; status = Status.acquired }

abbrev lost : Readiness
lost = record ready_entry { readiness_id = "r9"; status = Status.acquired }

abbrev crashed : Store
crashed = record store { dispatch_readiness = held ∷ lost ∷ [] }

abbrev restarted : Store
restarted = record_runtime_recovery_signals on_disk log_id signal_id "t9" crashed

-- The work of the interrupted run is offered again; what no run holds is stale.
statuses :
    map (λ (e : Readiness). e.status) restarted.dispatch_readiness
    ≡ Status.ready ∷ Status.stale ∷ []
unfolding record_runtime_recovery_signals
statuses = refl

lease_ends :
    map (λ (run : Run). run.lease_state) (values restarted.dispatch_runs) ≡ Lease.interrupted ∷ []
unfolding record_runtime_recovery_signals values
lease_ends = refl

agrees : IsAgreeing on_disk log_id signal_id crashed "g1" "s1"
unfolding current_goals
agrees h (inl same) named = ap (λ (x : Held). x.1.session_id) (sym same)
agrees h (inr m) named = absurd m

runs_agree :
    (run : Run)
    → In run (values crashed.dispatch_runs)
    → holds_lease run.lease_state ≡ true
    → IsAgreeing on_disk log_id signal_id crashed run.goal_id run.session_id
unfolding values
runs_agree run (inl same) h =
    subst (λ (r : Run). IsAgreeing on_disk log_id signal_id crashed r.goal_id r.session_id) same
      agrees
runs_agree run (inr m) h = absurd m

entries_agree :
    (e : Readiness)
    → In e crashed.dispatch_readiness
    → is_acquired e.status ≡ true
    → IsAgreeing on_disk log_id signal_id crashed e.goal_id e.session_id
entries_agree e (inl same) h =
    subst (λ (r : Readiness). IsAgreeing on_disk log_id signal_id crashed r.goal_id r.session_id)
      same agrees
entries_agree e (inr (inl same)) h =
    subst (λ (r : Readiness). IsAgreeing on_disk log_id signal_id crashed r.goal_id r.session_id)
      same agrees
entries_agree e (inr (inr m)) h = absurd m

record_runtime_recovery_signals-IsIdle_example : IsIdle restarted
record_runtime_recovery_signals-IsIdle_example =
    record_runtime_recovery_signals-IsIdle on_disk log_id signal_id "t9" crashed runs_agree
      entries_agree
