-- ===== src/Manager/Failed.antt =====
-- The commit of a failed run.
use Prim.Native.String.{◌++◌ as append}
use aize.Prelude.{
  ℕ, String, ◌≡◌, refl, ap, subst, Bool, true, false, Option, none, some, get, put, has,
}
use aize.State.{Goal}
use aize.Dispatch.{Run, Store}
use aize.Dispatch.Exclusive.{Exclusive}
use aize.Commit.{FenceReason, stale_dispatch_fence, release}
use aize.Commit.Release.{IsEnd, put-IsEnd, IsEnd-Exclusive, discard-IsRelease, recover-IsRelease}
use aize.Manager.{Turn}
use aize.Manager.Failure.{
  error_role, failed_run, error_state, error_fence, error_parts, error_run, commit_dispatch_error,
}
use aize.Manager.Ended.{Ends, set_state-Keeps, Keeps}

module _ (persisted : String → ℕ) (log_id : String → String → String) (lower : String → String)
    (parse_utc : String → Option ℕ) (format_seconds : ℕ → String) where
  error_state-Ends :
      (t : Turn) (error : String) (store : Store) (run : Run) (o : Option Store)
      → Keeps persisted log_id lower parse_utc format_seconds store.dispatch_runs o
      → Ends persisted log_id lower parse_utc format_seconds store.dispatch_runs t.leased.run_id
          (error_state persisted log_id lower parse_utc format_seconds t error run o)
  error_state-Ends t error store run none k = tt
  error_state-Ends t error store run (some next) k =
      let ended : Run =
        release persisted t.call.now
          (failed_run persisted log_id lower parse_utc format_seconds t error run) in
      put-IsEnd store.dispatch_runs t.leased.run_id ended (ap (λ d. put d t.leased.run_id ended) k)
        refl

  error_fence-Ends :
      (t : Turn) (error : String) (store : Store) (run : Run) (goal : Goal) (o : Option FenceReason)
      → Ends persisted log_id lower parse_utc format_seconds store.dispatch_runs t.leased.run_id
          (error_fence persisted log_id lower parse_utc format_seconds t error store run goal o)
  error_fence-Ends t error store run goal (some fence) =
      (discard-IsRelease persisted t.call store t.leased.run_id run
        (error_role persisted log_id lower parse_utc format_seconds run) "").ended
  error_fence-Ends t error store run goal none = error_state-Ends t error store run _ (
      set_state-Keeps persisted log_id lower parse_utc format_seconds t
        (append "Dispatch failed: " error) "dispatcher" "incomplete" goal store.dispatch_runs store
        refl)

  error_parts-Ends :
      (t : Turn) (error : String) (store : Store) (run : Run) (g : Option Goal) (known : Bool)
      → Ends persisted log_id lower parse_utc format_seconds store.dispatch_runs t.leased.run_id
          (error_parts persisted log_id lower parse_utc format_seconds t error store run g known)
  error_parts-Ends t error store run none known = tt
  error_parts-Ends t error store run (some goal) false = tt
  error_parts-Ends t error store run (some goal) true = error_fence-Ends t error store run goal (
      stale_dispatch_fence persisted store run
        (error_role persisted log_id lower parse_utc format_seconds run))

  error_run-Ends :
      (t : Turn) (error : String) (store : Store) (o : Option Run)
      → get store.dispatch_runs t.leased.run_id ≡ o
      → Ends persisted log_id lower parse_utc format_seconds store.dispatch_runs t.leased.run_id
          (error_run persisted log_id lower parse_utc format_seconds t error store o)
  error_run-Ends t error store none e = (recover-IsRelease persisted t.call store t.leased e).ended
  error_run-Ends t error store (some run) e =
      error_parts-Ends t error store run (get store.goals t.leased.goal_id)
        (has store.sessions t.leased.session_id)

  -- The commit of a failed run raises an error or ends the run's lease, on every branch. The other
  -- runs stay as they are, and exclusive leases stay exclusive.
  pub commit_dispatch_error-IsEnd :
      (t : Turn) (error : String) (store : Store) {after : Store}
      → Exclusive store.dispatch_runs
      → commit_dispatch_error persisted log_id lower parse_utc format_seconds t error store
        ≡ some after
      → IsEnd store.dispatch_runs t.leased.run_id after.dispatch_runs
        × Exclusive after.dispatch_runs
  unfolding commit_dispatch_error
  commit_dispatch_error-IsEnd t error store {after} ex h =
      let ended : IsEnd store.dispatch_runs t.leased.run_id after.dispatch_runs =
        subst
          (Ends persisted log_id lower parse_utc format_seconds store.dispatch_runs t.leased.run_id)
          h (error_run-Ends t error store (get store.dispatch_runs t.leased.run_id) refl) in
      (ended, IsEnd-Exclusive store.dispatch_runs t.leased.run_id after.dispatch_runs ex ended)
