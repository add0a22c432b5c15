-- ===== src/Dispatch/Exclusive.antt =====
-- No two leases of one Session and role.
use aize.Prelude.{
  ℕ, String, ◌≡◌, ap, ◌∙◌, sym, subst, inl, inr, ◌≢◌, Bool, true, false, ◌&&◌, not, Option, none,
  some, ◌==◌, string_Eq, if◌then◌else◌, truthy, Dict, get, put, get-put, has, values, get_elem?,
  Bool-cases, beq→eq,
}
use mathlib.Core.Option.{some-injective}
use aize.State.{Readiness, Goal, holds_lease, role_of, goal_manager_role, worker_agent_role}
use aize.Policy.{role_is_acquired}
use aize.Policy.Eligible.{role_is_acquired-In}
use aize.Policy.Decision.{select-IsDecision}
use aize.Dispatch.Grants.{
  get-values, role_is_acquired_of, held_role, mark_all_stale-SameWork, IsGrant, index-IsGrant,
}
use aize.Dispatch.{
  Run, Store, leased, Grant, acquired_roles, is_supported, decide, mark_decision,
  acquire_dispatch_lease,
}

-- Two runs that hold the lease of one Session and role are the same run.
abbrev pub Exclusive : Dict Run → Type 0
Exclusive runs =
    (i j : String) (a b : Run)
    → get runs i ≡ some a
    → get runs j ≡ some b
    → holds_lease a.lease_state ≡ true
    → holds_lease b.lease_state ≡ true
    → a.session_id ≡ b.session_id
    → a.role ≡ b.role
    → i ≡ j

-- A readiness entry and its goal name the same Session.
abbrev pub Agrees : Store → Type 0
Agrees store =
    (i : ℕ) (e : Readiness) (g : Goal)
    → get_elem? store.dispatch_readiness i ≡ some e
    → get store.goals e.goal_id ≡ some g
    → g.session_id ≡ e.session_id

-- Storing a run under a new id keeps the leases exclusive when no lease holds its slot.
put-Exclusive :
    (runs : Dict Run) (key : String) (run : Run)
    → Exclusive runs
    → get runs key ≡ none
    → ((j : String) (b : Run)
        → get runs j ≡ some b
        → holds_lease b.lease_state ≡ true
        → b.session_id ≡ run.session_id
        → b.role ≢ run.role)
    → Exclusive (put runs key run)
put-Exclusive runs key run ex new free i j a b ha hb la lb sid role = elim (Bool-cases (key == i)) [
  | inl ki ↦ elim (Bool-cases (key == j)) [
    | inl kj ↦ sym (beq→eq key i ki) ∙ beq→eq key j kj
    | inr kj ↦
        let is_run = some-injective _ _ (sym (stored_at i a ki ha)) in
        absurd (
          free j b (old_at j b kj hb) lb (sym sid ∙ ap (λ r. r.session_id) is_run)
            (sym role ∙ ap (λ r. r.role) is_run))
  ]
  | inr ki ↦ elim (Bool-cases (key == j)) [
    | inl kj ↦
        let is_run = some-injective _ _ (sym (stored_at j b kj hb)) in
        absurd (
          free i a (old_at i a ki ha) la (sid ∙ ap (λ r. r.session_id) is_run)
            (role ∙ ap (λ r. r.role) is_run))
    | inr kj ↦ ex i j a b (old_at i a ki ha) (old_at j b kj hb) la lb sid role
  ]
]
  where
    stored_at :
        (k : String) (c : Run)
        → (key == k) ≡ true
        → get (put runs key run) k ≡ some c
        → some run ≡ some c
    stored_at k c t h =
        sym (get-put runs key run k ∙ ap (λ x. if x then some run else get runs k) t) ∙ h

    old_at :
        (k : String) (c : Run)
        → (key == k) ≡ false
        → get (put runs key run) k ≡ some c
        → get runs k ≡ some c
    old_at k c f h =
        sym (get-put runs key run k ∙ ap (λ x. if x then some run else get runs k) f) ∙ h

supported_truthy : (role : String) → is_supported role ≡ true → truthy role ≡ true
supported_truthy role h = elim (Bool-cases (role == goal_manager_role)) [
  | inl t ↦ ap truthy (beq→eq role goal_manager_role t)
  | inr f ↦ ap truthy (beq→eq role worker_agent_role (rw f at h))
]

role_of-name : (e f : Readiness) → e.role ≡ f.role → role_of e ≡ role_of f
role_of-name e f p = ap (λ r. if truthy r then r else goal_manager_role) p

module _ (g : Grant) (from_iso : String → Option ℕ) (instant : ℕ) where
  -- `_acquire_dispatch_lease_locked` grants a lease only for a Session and role that hold none: where
  -- the acquired runs are exclusive, each readiness entry and its goal name one Session, and the new
  -- run id is unused, the acquired runs are exclusive again after a lease is granted.
  pub acquire_dispatch_lease-Exclusive :
      (store : Store) (session_id : String) (changed : Bool) {after : Store} {run : Run}
      → Exclusive store.dispatch_runs
      → Agrees store
      → get store.dispatch_runs g.run_id ≡ none
      → acquire_dispatch_lease g from_iso instant store session_id changed ≡ leased after run
      → Exclusive after.dispatch_runs
  unfolding acquire_dispatch_lease
  acquire_dispatch_lease-Exclusive store session_id changed {after} {run} ex agree new h =
      elim (Bool-cases (truthy session_id && not (has store.sessions session_id))) [
        | inl t ↦ cc (rw t at h)
        | inr f ↦
            let d = decide g from_iso instant store session_id in
            let r =
              index-IsGrant g store (mark_decision g from_iso instant store d) changed
                d.scheduling_score d.readiness_index (rw f at h) in
            subst Exclusive (sym r.runs) (
              put-Exclusive store.dispatch_runs g.run_id run ex new
                (free_slot store session_id agree r))
      ]
    where
      free_slot :
          (store : Store) (session_id : String)
          → Agrees store
          → {after : Store} {run : Run}
          → IsGrant g
              (mark_decision g from_iso instant store (decide g from_iso instant store session_id))
              (decide g from_iso instant store session_id).readiness_index
              after
              run
          → (j : String) (b : Run) → get store.dispatch_runs j ≡ some b
          → holds_lease b.lease_state ≡ true
          → b.session_id ≡ run.session_id
          → b.role ≢ run.role
      free_slot store session_id agree {after} {run} r j b there held sid role =
          let d = decide g from_iso instant store session_id in
          let acquired = acquired_roles (values store.dispatch_runs) in
          let (f, at, work) =
            mark_all_stale-SameWork d.stale_indexes g.now store.dispatch_readiness r.index
              r.stands in
          let owner : r.goal.session_id ≡ f.session_id =
            agree r.index f r.goal at (ap (get store.goals) work.1 ∙ r.owned) in
          let full : role_is_acquired acquired f.session_id (role_of f) ≡ true =
            subst (λ x. role_is_acquired acquired x (role_of f) ≡ true) (sid ∙ r.session_id ∙ owner)
              (subst (λ x. role_is_acquired acquired b.session_id x ≡ true)
                (role ∙ r.role ∙ role_of-name r.entry f (sym work.2))
                (role_is_acquired_of acquired b.session_id b.role (
                  held_role b (values store.dispatch_runs) (get-values store.dispatch_runs j there)
                    held (ap truthy role ∙ supported_truthy run.role r.supported)))) in
          elim ((select-IsDecision from_iso store.goals store.sessions acquired session_id instant
            store.dispatch_readiness).chosen) [
              | inl (silent, _) ↦ cc (silent, r.selected)
              | inr (c, named, _, choice) ↦
                  let same : c.entry ≡ f = some-injective _ _ (
                    sym choice.candidate.stands
                    ∙ ap (get_elem? store.dispatch_readiness)
                        (some-injective _ _ (sym named ∙ r.selected))
                    ∙ at) in
                  let unleased =
                    (role_is_acquired-In from_iso store.goals store.sessions acquired session_id
                        instant c.entry).1
                      choice.candidate.free.unleased in
                  cc (
                    unleased,
                    subst (λ x. role_is_acquired acquired x.session_id (role_of x) ≡ true)
                        (sym same) full,
                  )
            ]
