-- ===== src/Commit/Release.antt =====
-- What a commit does to the leases and to the goals.
use aize.Prelude.{
  String, ◌≡◌, refl, ap, ◌∙◌, sym, subst, ◌≢◌, Bool, true, false, ◌&&◌, Option, none, some, ◌==◌,
  string_Eq, if◌then◌else◌, get, put, get-put, Dict, has, Bool-cases, eq_refl, ne→beq, ℕ, inl, inr,
}
use mathlib.Core.Option.{some-injective}
use aize.State.{holds_lease, worker_agent_role}
use aize.Dispatch.{Run, Store}
use aize.Dispatch.Exclusive.{Exclusive}
use aize.Commit.{
  Call, FenceReason, commit_worker_run, discard_stale_dispatch_result, recover_missing_lease_run,
  release, note_stale, with_fence, with_run, stale_dispatch_fence, give_up, recovered,
}

-- A run stops holding its lease, and the other runs stay as they are.
pub record IsEnd (runs : Dict Run) (key : String) (after : Dict Run) : Type 0 where
  pub released : (r : Run) → get after key ≡ some r → holds_lease r.lease_state ≡ false
  pub others : (j : String) → j ≢ key → get after j ≡ get runs j

pub put-IsEnd :
    (runs : Dict Run) (key : String) (run : Run) {after : Dict Run}
    → after ≡ put runs key run
    → holds_lease run.lease_state ≡ false
    → IsEnd runs key after
put-IsEnd runs key run {after} stored free = record {
  released = λ r h.
      subst (λ x. holds_lease x.lease_state ≡ false)
        (some-injective _ _
          (sym (at key ∙ ap (λ b. if b then some run else get runs key) (eq_refl key)) ∙ h))
        free;
  others = λ j other.
      at j ∙ ap (λ b. if b then some run else get runs j) (ne→beq key j (λ same. other (sym same)));
}
  where
    at : (j : String) → get after j ≡ (if key == j then some run else get runs j)
    at j = ap (λ d. get d j) stored ∙ get-put runs key run j

-- Such a change keeps the leases exclusive.
pub IsEnd-Exclusive :
    (runs : Dict Run) (key : String) (after : Dict Run)
    → Exclusive runs
    → IsEnd runs key after
    → Exclusive after
IsEnd-Exclusive runs key after ex r i j a b ha hb la lb sid role =
    ex i j a b (sym (r.others i (holder i a ha la)) ∙ ha) (sym (r.others j (holder j b hb lb)) ∙ hb)
      la lb sid role
  where
    holder :
        (k : String) (c : Run) → get after k ≡ some c → holds_lease c.lease_state ≡ true → k ≢ key
    holder k c h l same = cc (r.released c (sym (ap (get after) same) ∙ h), l)

-- A run stops holding its lease, and nothing happens to the other runs and to the goals.
pub record IsRelease (store : Store) (key : String) (after : Store) : Type 0 where
  pub goals : after.goals ≡ store.goals
  pub ended : IsEnd store.dispatch_runs key after.dispatch_runs

put-IsRelease :
    (store : Store) (key : String) (run : Run) (after : Store)
    → after.goals ≡ store.goals
    → after.dispatch_runs ≡ put store.dispatch_runs key run
    → holds_lease run.lease_state ≡ false
    → IsRelease store key after
put-IsRelease store key run after goals runs free = record {
  goals = goals;
  ended = put-IsEnd store.dispatch_runs key run runs free;
}

module _ (persisted : String → ℕ) (c : Call) where
  pub discard-IsRelease :
      (store : Store) (key : String) (run : Run) (role output : String)
      → IsRelease store key (discard_stale_dispatch_result persisted c store key run role output)
  unfolding discard_stale_dispatch_result
  discard-IsRelease store key run role output = elim (Bool-cases (holds_lease run.lease_state)) [
    | inl t ↦
        put-IsRelease store key (release persisted c.now noted) _ (goals _)
          (ap (λ b. (left b).dispatch_runs) t) refl
    | inr f ↦ put-IsRelease store key noted _ (goals _) (ap (λ b. (left b).dispatch_runs) f) f
  ]
    where
      noted : Run
      noted = note_stale persisted c.now output run

      left : Bool → Store
      left b =
          if b
          then give_up persisted c key role noted store
          else record store { dispatch_runs = put store.dispatch_runs key noted }

      goals : (b : Bool) → (left b).goals ≡ store.goals
      goals true = refl
      goals false = refl

  finish_worker-IsRelease :
      (store : Store) (leased run : Run) (reported : Bool) (output retry_at : String)
      → IsRelease store leased.run_id
          (with_fence persisted c store leased run output reported retry_at none)
  finish_worker-IsRelease store leased run true output retry_at =
      put-IsRelease store leased.run_id _ _ refl refl refl
  finish_worker-IsRelease store leased run false output retry_at =
      put-IsRelease store leased.run_id _ _ refl refl refl

  pub recover-IsRelease :
      (store : Store) (leased : Run)
      → get store.dispatch_runs leased.run_id ≡ none
      → IsRelease store leased.run_id (recover_missing_lease_run persisted c store leased)
  unfolding recover_missing_lease_run
  recover-IsRelease store leased absent = split (has store.sessions leased.session_id)
    where
      split : (b : Bool) → IsRelease store leased.run_id (recovered persisted c store leased b)
      split true = record {
        goals = refl;
        ended = record { released = λ r h. cc (absent, h); others = λ j other. refl };
      }
      split false = record {
        goals = refl;
        ended = record { released = λ r h. cc (absent, h); others = λ j other. refl };
      }

  -- The commit of a WorkerAgent's turn raises an error or ends the lease of its run, on every branch:
  -- the run is missing, its result is discarded by the fence, or it is accepted. It never changes a
  -- SessionGoal or another run, and exclusive leases stay exclusive.
  pub commit_worker_run-IsRelease :
      (store : Store) (leased : Run) (output : String) (reported : Bool) (retry_at : String)
      {after : Store}
      → Exclusive store.dispatch_runs
      → commit_worker_run persisted c store leased output reported retry_at ≡ some after
      → IsRelease store leased.run_id after × Exclusive after.dispatch_runs
  unfolding commit_worker_run
  commit_worker_run-IsRelease store leased output reported retry_at {after} ex h =
      let r = split (get store.dispatch_runs leased.run_id) refl h in
      (r, IsEnd-Exclusive store.dispatch_runs leased.run_id after.dispatch_runs ex r.ended)
    where
      fenced :
          (run : Run) (o : Option FenceReason)
          → IsRelease store leased.run_id
              (with_fence persisted c store leased run output reported retry_at o)
      fenced run (some reason) = discard-IsRelease store leased.run_id run worker_agent_role output
      fenced run none = finish_worker-IsRelease store leased run reported output retry_at

      split :
          (o : Option Run)
          → get store.dispatch_runs leased.run_id ≡ o
          → with_run persisted c store leased output reported retry_at o ≡ some after
          → IsRelease store leased.run_id after
      split none absent k =
          subst (IsRelease store leased.run_id) (some-injective _ _ k)
            (recover-IsRelease store leased absent)
      split (some run) there k =
          elim (Bool-cases
            (has store.goals leased.goal_id && has store.sessions leased.session_id)) [
              | inl t ↦
                  subst (IsRelease store leased.run_id) (some-injective _ _ (rw t at k))
                    (fenced run (stale_dispatch_fence persisted store run worker_agent_role))
              | inr f ↦ cc (rw f at k)
            ]
