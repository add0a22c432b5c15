-- ===== src/Readiness.antt =====
-- The readiness entries of src/goal/readiness.py: resolving them, one ready entry for each Session and
-- role, and the end of a lease.
pub mod Slots
pub mod Single
pub mod Ownership
mod Examples
use Prim.Native.Nat.{Ordering}
use Prim.Native.String.{compare}
use aize.Prelude.{
  ℕ, ◌+◌, ◌*◌, String, Bool, true, false, ◌&&◌, ◌||◌, Option, none, some, List, [], ◌∷◌, ◌++◌, map,
  ◌==◌, string_Eq, if◌then◌else◌, leb, truthy, first, any, Dict, values, not,
}
use aize.State.{
  Status, Readiness, Lease, holds_lease, is_ready, is_acquired, role_of, goal_manager_role,
  worker_agent_role,
}
use aize.Dispatch.{Run, is_supported}

-- `_resolve_dispatch_readiness`
abbrev pub is_open : Status → Bool
is_open status = is_ready status || is_acquired status

unfoldable pub resolve_dispatch_readiness : String → String → List Readiness → List Readiness
resolve_dispatch_readiness goal_id resolved_at = map (λ (e : Readiness).
    if e.goal_id == goal_id && is_open e.status
    then record e { status = Status.resolved; resolved_at = some resolved_at }
    else e)

-- A ready entry of this Session and role.
abbrev pub is_in_slot : String → String → Readiness → Bool
is_in_slot sid role e = is_ready e.status && e.session_id == sid && role_of e == role

-- Python's `<` on texts.
abbrev pub is_before : String → String → Bool
is_before s t = elim (compare s t) [ Ordering.lt ↦ true | _ ↦ false ]

-- `retained.remove(existing)`
unfoldable pub remove_first : (Readiness → Bool) → List Readiness → List Readiness
remove_first p [] = []
remove_first p (e ∷ es) = let rest = remove_first p es in if p e then es else e ∷ rest

-- One turn of the loop. `by_key.get(key)` is the ready entry of that slot among the retained ones: the
-- loop keeps one entry at most there, and `by_key` holds it.
abbrev pub replaced : List Readiness → Readiness → Option Readiness → List Readiness
replaced retained e none = retained ++ e ∷ []
replaced retained e (some existing) =
    if is_before e.first_ready_at existing.first_ready_at
    then remove_first (is_in_slot e.session_id (role_of e)) retained ++ e ∷ []
    else retained

abbrev pub retain : List Readiness → Readiness → List Readiness
retain retained e =
    if is_ready e.status
    then replaced retained e (first (is_in_slot e.session_id (role_of e)) retained)
    else retained ++ e ∷ []

unfoldable pub retain_all : List Readiness → List Readiness → List Readiness
unfolding remove_first first
retain_all retained [] = retained
retain_all retained (e ∷ es) = retain_all (retain retained e) es

unfoldable pub deduplicate_ready_entries : List Readiness → List Readiness
unfolding retain_all
deduplicate_ready_entries entries = retain_all [] entries

-- `_has_acquired_role_run`
unfoldable pub has_acquired_role_run : List Run → String → String → Bool
unfolding any
has_acquired_role_run runs sid role =
    is_supported role
    && any
        (λ (run : Run).
          run.session_id == sid
          && (run.role == role || run.current_phase == role)
          && holds_lease run.lease_state)
        runs

abbrev pub dispatch_lease_recovery_seconds : ℕ
dispatch_lease_recovery_seconds = 660

-- `_dispatch_lease_expired`, on instants in microseconds; `from_iso` is as for the policy.
module _ (from_iso : String → Option ℕ) where
  abbrev pub expired_between : Option ℕ → Option ℕ → Bool
  expired_between none current = true
  expired_between (some acquired) none = true
  expired_between (some acquired) (some current) =
      leb (acquired + dispatch_lease_recovery_seconds * 1000000) current

  abbrev pub leased_since : Run → String
  leased_since run = if truthy run.lease_acquired_at then run.lease_acquired_at else run.created_at

  unfoldable pub dispatch_lease_expired : Run → String → Bool
  dispatch_lease_expired run now =
      if truthy (leased_since run)
      then expired_between (from_iso (leased_since run)) (from_iso now)
      else true

  -- The loop of `_reconcile_dispatch_liveness` over the acquired runs.
  abbrev pub interrupt : String → Run → Run
  interrupt now run = record run {
    lease_state = Lease.interrupted;
    interrupted_at = some now;
    interrupted_reason = "dispatch lease exceeded the Agent execution limit";
    current_phase = "";
  }

  abbrev pub interrupt_if_expired : String → Run → Run
  interrupt_if_expired now run =
      if holds_lease run.lease_state && dispatch_lease_expired run now
      then interrupt now run
      else run

  unfoldable pub interrupt_expired : String → Dict Run → Dict Run
  unfolding dispatch_lease_expired
  interrupt_expired now [] = []
  interrupt_expired now ((key, run) ∷ runs) =
      (key, interrupt_if_expired now run) ∷ interrupt_expired now runs

  -- `acquired_run_by_readiness.get(id)`: the last of the acquired runs that name the entry.
  abbrev pub later_or : Run → String → Option Run → Option Run
  later_or run id (some later) = some later
  later_or run id none =
      if holds_lease run.lease_state && run.readiness_id == id && truthy id then some run else none

  unfoldable pub last_holder : List Run → String → Option Run
  last_holder [] id = none
  last_holder (run ∷ runs) id = later_or run id (last_holder runs id)

  -- The run is still acquired behind the loop that interrupts: its lease has not expired.
  abbrev pub is_held : String → Option Run → Bool
  is_held now none = false
  is_held now (some run) = not (dispatch_lease_expired run now)

  abbrev pub orphaned : String → Readiness → Readiness
  orphaned now e = record e {
    status = Status.stale;
    stale_at = some now;
    stale_reason = "acquired readiness has no live acquired dispatch run";
    acquired_at = none;
  }

  abbrev pub release_orphan : List Run → String → Readiness → Readiness
  release_orphan runs now e =
      if is_acquired e.status && not (is_held now (last_holder runs e.readiness_id))
      then orphaned now e
      else e

  -- The two loops of `_reconcile_dispatch_liveness` that repair the ownership of work.
  unfoldable pub repair_runs : String → Dict Run → Dict Run
  unfolding interrupt_expired
  repair_runs now runs = interrupt_expired now runs

  unfoldable pub repair_readiness : String → Dict Run → List Readiness → List Readiness
  unfolding last_holder dispatch_lease_expired values
  repair_readiness now runs entries = map (release_orphan (values runs) now) entries
