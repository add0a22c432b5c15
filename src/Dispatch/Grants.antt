-- ===== src/Dispatch/Grants.antt =====
-- What a granted lease is, and what marking entries stale keeps.
use aize.Prelude.{
  ℕ, zero, suc, String, ◌≡◌, refl, ap, ◌∙◌, sym, subst, inl, inr, Bool, true, ◌&&◌, Option, none,
  some, List, [], ◌∷◌, ◌==◌, string_Eq, truthy, Dict, get, put, values, get_elem?, In,
  In-append_left, In-append_right, any, Bool-cases, Option-cases, eq_refl,
}
use aize.Prelude.Int.{ℤ}
use mathlib.Core.Option.{some-injective}
use aize.State.{Readiness, Goal, Session, holds_lease, role_of}
use aize.Policy.{role_is_acquired}
use aize.Dispatch.{
  Run, Store, Acquired, leased, idle, failed, Grant, roles_of_run, acquired_roles, update_at,
  mark_stale, mark_all_stale, take_entry, is_supported, grant, checked, with_owner, with_goal,
  with_entry, with_index, DispatchError,
}

pub get-values : {V : Type 0} (d : Dict V) (k : String) {v : V} → get d k ≡ some v → In v (values d)
unfolding get values
get-values [] k h = cc
get-values ((j, w) ∷ d) k h = elim (Bool-cases (j == k)) [
  | inl t ↦ inl (some-injective _ _ (rw t at h))
  | inr f ↦ inr (get-values d k (rw f at h))
]

pub role_is_acquired_of :
    (held : List (String × String)) (sid role : String)
    → In (sid, role) held
    → role_is_acquired held sid role ≡ true
unfolding role_is_acquired any
role_is_acquired_of [] sid role m = absurd m
role_is_acquired_of (p ∷ held) sid role (inl e) =
    let t : (p.0 == sid && p.1 == role) ≡ true =
      rw (ap (λ q. q.0) e, ap (λ q. q.1) e, eq_refl sid, eq_refl role) refl in
    rw t refl
role_is_acquired_of (p ∷ held) sid role (inr m) = elim (Bool-cases (p.0 == sid && p.1 == role)) [
  | inl t ↦ rw t refl
  | inr f ↦ rw f (role_is_acquired_of held sid role m)
]

pub held_role :
    (run : Run) (runs : List Run)
    → In run runs
    → holds_lease run.lease_state ≡ true
    → truthy run.role ≡ true
    → In (run.session_id, run.role) (acquired_roles runs)
unfolding acquired_roles
held_role run [] m h t = absurd m
held_role run (r ∷ runs) (inr m) h t =
    In-append_right _ (roles_of_run r) _ (held_role run runs m h t)
held_role run (r ∷ runs) (inl same) h t =
    In-append_left _ (roles_of_run r) (acquired_roles runs) (
      subst (λ x. In (run.session_id, run.role) (roles_of_run x)) (sym same) (rw (h, t) (inl refl)))

-- Marking entries stale changes neither their Session, their role nor their goal.
abbrev pub SameWork : Readiness → Readiness → Type 0
SameWork e f = (e.session_id ≡ f.session_id) × (e.goal_id ≡ f.goal_id) × (e.role ≡ f.role)

same_fields : {f e : Readiness} → f ≡ e → SameWork f e
same_fields p = (ap (λ x. x.session_id) p, ap (λ x. x.goal_id) p, ap (λ x. x.role) p)

update_at-SameWork :
    (j : ℕ) (now : String) (es : List Readiness) (i : ℕ) {e : Readiness}
    → get_elem? (update_at j (mark_stale now) es) i ≡ some e
    → (f : Readiness) × (get_elem? es i ≡ some f) × SameWork f e
unfolding update_at
update_at-SameWork j now [] i h = cc
update_at-SameWork zero now (f ∷ es) zero h = (f, refl, same_fields (some-injective _ _ h))
update_at-SameWork zero now (f ∷ es) (suc i) h = (_, h, (refl, refl, refl))
update_at-SameWork (suc j) now (f ∷ es) zero h = (f, refl, same_fields (some-injective _ _ h))
update_at-SameWork (suc j) now (f ∷ es) (suc i) h = update_at-SameWork j now es i h

pub mark_all_stale-SameWork :
    (is : List ℕ) (now : String) (es : List Readiness) (i : ℕ) {e : Readiness}
    → get_elem? (mark_all_stale is now es) i ≡ some e
    → (f : Readiness) × (get_elem? es i ≡ some f) × SameWork f e
unfolding mark_all_stale
mark_all_stale-SameWork [] now es i h = (_, h, (refl, refl, refl))
mark_all_stale-SameWork (j ∷ is) now es i h =
    let (f, at, s) = mark_all_stale-SameWork is now (update_at j (mark_stale now) es) i h in
    let (g, at', s') = update_at-SameWork j now es i at in
    (g, at', (s'.0 ∙ s.0, s'.1 ∙ s.1, s'.2 ∙ s.2))

module _ (g : Grant) where
  -- What a granted lease says.
  pub record IsGrant (store : Store) (o : Option ℕ) (after : Store) (run : Run) : Type 0 where
    pub index : ℕ
    pub entry : Readiness
    pub goal : Goal
    pub selected : o ≡ some index
    pub stands : get_elem? store.dispatch_readiness index ≡ some entry
    pub owned : get store.goals entry.goal_id ≡ some goal
    pub session_id : run.session_id ≡ goal.session_id
    pub role : run.role ≡ role_of entry
    pub supported : is_supported run.role ≡ true
    pub held : holds_lease run.lease_state ≡ true
    pub runs : after.dispatch_runs ≡ put store.dispatch_runs g.run_id run
    pub readiness :
        after.dispatch_readiness ≡ update_at index (take_entry g.now) store.dispatch_readiness
    pub goals : after.goals ≡ store.goals

  stored : Acquired → Store → Store
  stored (leased s r) d = s
  stored (idle s) d = d
  stored (failed e) d = d

  granted : Acquired → Run → Run
  granted (leased s r) d = r
  granted (idle s) d = d
  granted (failed e) d = d

  grant-IsGrant :
      (store : Store) (i : ℕ) (score : Option ℤ) (goal : Goal) (session : Session) (e : Readiness)
      {after : Store} {run : Run}
      → get_elem? store.dispatch_readiness i ≡ some e
      → get store.goals e.goal_id ≡ some goal
      → is_supported (role_of e) ≡ true
      → grant g store i score goal session e ≡ leased after run
      → IsGrant store (some i) after run
  unfolding stored granted
  grant-IsGrant store i score goal session e {after} {run} at owned ok h =
      let same_store = ap (λ a. stored a after) h in
      let same_run = ap (λ a. granted a run) h in
      record {
        index = i;
        entry = e;
        goal = goal;
        selected = refl;
        stands = at;
        owned = owned;
        session_id = ap (λ r. r.session_id) (sym same_run);
        role = ap (λ r. r.role) (sym same_run);
        supported = ap (λ r. is_supported r.role) (sym same_run) ∙ ok;
        held = ap (λ r. holds_lease r.lease_state) (sym same_run);
        runs =
            ap (λ s. s.dispatch_runs) (sym same_store)
            ∙ ap (λ r. put store.dispatch_runs g.run_id r) same_run;
        readiness = ap (λ s. s.dispatch_readiness) (sym same_store);
        goals = ap (λ s. s.goals) (sym same_store);
      }

  checked-IsGrant :
      (err : Option DispatchError) (store : Store) (i : ℕ) (score : Option ℤ) (goal : Goal)
      (session : Session) (e : Readiness) {after : Store} {run : Run}
      → get_elem? store.dispatch_readiness i ≡ some e
      → get store.goals e.goal_id ≡ some goal
      → checked g err (is_supported (role_of e)) (grant g store i score goal session e)
        ≡ leased after run
      → IsGrant store (some i) after run
  checked-IsGrant (some x) store i score goal session e at owned h = cc
  checked-IsGrant none store i score goal session e at owned h =
      elim (Bool-cases (is_supported (role_of e))) [
        | inl t ↦ grant-IsGrant store i score goal session e at owned t (rw t at h)
        | inr f ↦ cc (rw f at h)
      ]

  owner-IsGrant :
      (o : Option Session) (store : Store) (i : ℕ) (score : Option ℤ) (goal : Goal) (e : Readiness)
      {after : Store} {run : Run}
      → get_elem? store.dispatch_readiness i ≡ some e
      → get store.goals e.goal_id ≡ some goal
      → with_owner g store i score goal o e ≡ leased after run
      → IsGrant store (some i) after run
  owner-IsGrant none store i score goal e at owned h = cc
  owner-IsGrant (some session) store i score goal e at owned h = elim (Bool-cases session.active) [
    | inl t ↦ checked-IsGrant _ store i score goal session e at owned (rw t at h)
    | inr f ↦ cc (rw f at h)
  ]

  pub index-IsGrant :
      (store marked : Store) (changed : Bool) (score : Option ℤ) (o : Option ℕ) {after : Store}
      {run : Run}
      → with_index g store marked changed score o ≡ leased after run
      → IsGrant marked o after run
  index-IsGrant store marked changed score none h = cc
  index-IsGrant store marked changed score (some i) h =
      elim (Option-cases (get_elem? marked.dispatch_readiness i)) [
        | inl absent ↦ cc (ap (with_entry g marked i score) absent, h)
        | inr (e, at) ↦
            let h' = sym (ap (with_entry g marked i score) at) ∙ h in
            elim (Option-cases (get marked.goals e.goal_id)) [
              | inl absent ↦ cc (ap (λ o. with_goal g marked i score o e) absent, h')
              | inr (goal, owned) ↦
                  owner-IsGrant (get marked.sessions goal.session_id) marked i score goal e at owned
                    (sym (ap (λ o. with_goal g marked i score o e) owned) ∙ h')
            ]
      ]
