-- ===== src/Readiness/Ownership.antt =====
-- Who owns the work after the repair of `_reconcile_dispatch_liveness`.
use aize.Prelude.{
  ◌+◌, ◌<◌, leb, none, ℕ, String, ◌≡◌, refl, ap, ◌∙◌, sym, subst, inl, inr, Bool, true, false, not,
  ◌&&◌, Option, some, List, [], ◌∷◌, arith, In, Bool-cases, Option-cases, ◌==◌, string_Eq, beq→eq,
  and_true, Dict, values, truthy,
}
use aize.Prelude.Lists.{In-map}
use mathlib.Core.Option.{some-injective}
use aize.State.{Readiness, is_acquired, holds_lease}
use aize.Dispatch.{Run}
use aize.Readiness.{
  dispatch_lease_expired, leased_since, expired_between, interrupt_if_expired, interrupt_expired,
  repair_runs, repair_readiness, last_holder, later_or, is_held, release_orphan, orphaned,
}

module _ (from_iso : String → Option ℕ) (now : String) where
  -- The lease was taken less than 660 seconds ago, by time stamps that can be read.
  pub record IsInTime (run : Run) : Type 0 where
    pub acquired : ℕ
    pub current : ℕ
    pub since : from_iso (leased_since from_iso run) ≡ some acquired
    pub clock : from_iso now ≡ some current
    pub within : current < acquired + 660000000

  within_of : (a c : ℕ) → leb (a + 660000000) c ≡ false → c < a + 660000000
  within_of a c h = ground arith

  not_expired-IsInTime :
      (run : Run) → dispatch_lease_expired from_iso run now ≡ false → IsInTime run
  unfolding dispatch_lease_expired
  not_expired-IsInTime run h = elim (Bool-cases (truthy (leased_since from_iso run))) [
    | inr f ↦ cc (rw f at h)
    | inl t ↦ read (from_iso (leased_since from_iso run)) (from_iso now) refl refl (rw t at h)
  ]
    where
      read :
          (o c : Option ℕ)
          → from_iso (leased_since from_iso run) ≡ o
          → from_iso now ≡ c
          → expired_between from_iso o c ≡ false
          → IsInTime run
      read none c e k h = cc
      read (some a) none e k h = cc
      read (some a) (some c) e k h = record {
        acquired = a;
        current = c;
        since = e;
        clock = k;
        within = within_of a c h;
      }

  -- No lease is acquired beyond its time.
  interrupted_run :
      (run : Run)
      → holds_lease (interrupt_if_expired from_iso now run).lease_state ≡ true
      → (interrupt_if_expired from_iso now run ≡ run)
        × (dispatch_lease_expired from_iso run now ≡ false)
  interrupted_run run h = elim (Bool-cases (holds_lease run.lease_state)) [
    | inr f ↦ cc (rw f at h, f)
    | inl t ↦ elim (Bool-cases (dispatch_lease_expired from_iso run now)) [
      | inl x ↦ cc (rw (t, x) at h)
      | inr x ↦ (rw (t, x) refl, x)
    ]
  ]

  live_run :
      (runs : Dict Run) (run : Run)
      → In run (values (interrupt_expired from_iso now runs))
      → holds_lease run.lease_state ≡ true
      → dispatch_lease_expired from_iso run now ≡ false
  unfolding interrupt_expired values
  live_run [] run m h = absurd m
  live_run ((key, r) ∷ runs) run (inr m) h = live_run runs run m h
  live_run ((key, r) ∷ runs) run (inl same) h =
      let k = interrupted_run r (ap (λ x. holds_lease x.lease_state) same ∙ h) in
      subst (λ x. dispatch_lease_expired from_iso x now ≡ false) (sym k.0 ∙ same) k.1

  kept_run :
      (runs : Dict Run) (run : Run)
      → In run (values runs)
      → dispatch_lease_expired from_iso run now ≡ false
      → In run (values (interrupt_expired from_iso now runs))
  unfolding interrupt_expired values
  kept_run [] run m x = absurd m
  kept_run ((key, r) ∷ runs) run (inr m) x = inr (kept_run runs run m x)
  kept_run ((key, r) ∷ runs) run (inl same) x =
      inl (unchanged r (ap (λ y. dispatch_lease_expired from_iso y now) same ∙ x) ∙ same)
    where
      unchanged :
          (r : Run)
          → dispatch_lease_expired from_iso r now ≡ false
          → interrupt_if_expired from_iso now r ≡ r
      unchanged r f = elim (Bool-cases (holds_lease r.lease_state)) [
        | inl t ↦ rw (t, f) refl
        | inr t ↦ rw t refl
      ]

  last_holder-holds :
      (runs : List Run) (id : String) {run : Run}
      → last_holder from_iso runs id ≡ some run
      → In run runs × (holds_lease run.lease_state ≡ true) × (run.readiness_id ≡ id)
  unfolding last_holder
  last_holder-holds [] id h = cc
  last_holder-holds (r ∷ runs) id {run} h = elim (Option-cases (last_holder from_iso runs id)) [
    | inr (later, found) ↦
        let same = sym (ap (later_or from_iso r id) found) ∙ h in
        let (at, holds, named) = last_holder-holds runs id (found ∙ same) in (inr at, holds, named)
    | inl absent ↦
        let h' = sym (ap (later_or from_iso r id) absent) ∙ h in
        elim (Bool-cases (holds_lease r.lease_state && r.readiness_id == id && truthy id)) [
          | inr f ↦ cc (rw f at h')
          | inl t ↦
              let same : r ≡ run = some-injective _ _ (rw t at h') in
              let (both, _) =
                and_true (holds_lease r.lease_state && r.readiness_id == id) (truthy id) t in
              let (holds, named) =
                and_true (holds_lease r.lease_state) (r.readiness_id == id) both in
              (
                inl same,
                ap (λ x. holds_lease x.lease_state) (sym same) ∙ holds,
                ap (λ x. x.readiness_id) (sym same) ∙ beq→eq r.readiness_id id named,
              )
        ]
  ]

  twice-not : {b : Bool} → not (not b) ≡ false → b ≡ false
  twice-not h = ground arith

  -- After the repair each run that holds a lease took it less than 660 seconds before now, and every
  -- acquired readiness entry belongs to a run that holds a lease and names it: no work is owned by
  -- nobody.
  pub repair-Owned :
      (runs : Dict Run) (entries : List Readiness)
      → ((run : Run)
          → In run (values (repair_runs from_iso now runs))
          → holds_lease run.lease_state ≡ true
          → IsInTime run)
        × ((e : Readiness)
            → In e (repair_readiness from_iso now runs entries)
            → is_acquired e.status ≡ true
            → (run : Run) × In run (values (repair_runs from_iso now runs))
              × (holds_lease run.lease_state ≡ true)
              × (run.readiness_id ≡ e.readiness_id))
  unfolding repair_runs repair_readiness
  repair-Owned runs entries = (
    (λ run m h. not_expired-IsInTime run (live_run runs run m h)),
    λ e m acquired.
        let (old, there, same) = In-map (release_orphan from_iso (values runs) now) entries e m in
        owner old e same acquired,
  )
    where
      owner :
          (old e : Readiness)
          → release_orphan from_iso (values runs) now old ≡ e
          → is_acquired e.status ≡ true
          → (run : Run) × In run (values (interrupt_expired from_iso now runs))
            × (holds_lease run.lease_state ≡ true)
            × (run.readiness_id ≡ e.readiness_id)
      owner old e same acquired =
          elim (Bool-cases (
            is_acquired old.status
            && not (is_held from_iso now (last_holder from_iso (values runs) old.readiness_id)))) [
              | inl t ↦
                  let gone : orphaned from_iso now old ≡ e = rw t at same in
                  cc (ap (λ (x : Readiness). is_acquired x.status) gone, acquired)
              | inr f ↦
                  let kept : old ≡ e = rw f at same in
                  let was : is_acquired old.status ≡ true =
                    ap (λ (x : Readiness). is_acquired x.status) kept ∙ acquired in
                  elim (Option-cases (last_holder from_iso (values runs) old.readiness_id)) [
                    | inl absent ↦ cc (rw (was, absent) at f)
                    | inr (run, found) ↦
                        let (at, holds, named) =
                          last_holder-holds (values runs) old.readiness_id found in
                        (
                          run,
                          kept_run runs run at (twice-not (rw (was, found) at f)),
                          holds,
                          named ∙ ap (λ (x : Readiness). x.readiness_id) kept,
                        )
                  ]
            ]
