-- ===== src/Refresh/Served.antt =====
-- Every role with unread waking entries is served by the refresh.
use aize.Prelude.{
  String, ◌≡◌, ◌≢◌, refl, sym, ap, ◌∙◌, subst, ◌⊎◌, inl, inr, Bool, true, false, ◌&&◌, ◌||◌, Option,
  none, some, List, [], ◌∷◌, ◌==◌, string_Eq, if◌then◌else◌, get, values, any, In, All, Bool-cases,
  and_true, beq→eq,
}
use aize.State.{
  Readiness, Status, Goal, Session, role_of, is_ready, is_acquired, goal_manager_role,
  worker_agent_role,
}
use aize.Projection.{RoleDispatchReadiness}
use aize.Dispatch.{Store}
use aize.Readiness.{is_in_slot, has_acquired_role_run}
use aize.Readiness.Slots.{slot_of}
use aize.Goals.{Held, current_goals}
use aize.Refresh.{
  Ids, refresh_role, refresh_session, refresh_goal, refresh_goals, refresh_entries,
  acquired_readiness_for_role, is_taken, readiness_fields_from_session_log, is_workable, new_entry,
}
use aize.Refresh.Apart.{IsApart, current_goals-IsApart}
use aize.Refresh.Offered.{IsOffer, reconcile-keeps, reconcile-offers}

other_session :
    (sid role : String) (e : Readiness) → e.session_id ≢ sid → is_in_slot sid role e ≡ false
other_session sid role e ne = elim (Bool-cases (is_in_slot sid role e)) [
  | inr f ↦ f
  | inl t ↦ absurd (ne (slot_of sid role e t).1)
]

other_role : (sid role : String) (e : Readiness) → role_of e ≢ role → is_in_slot sid role e ≡ false
other_role sid role e ne = elim (Bool-cases (is_in_slot sid role e)) [
  | inr f ↦ f
  | inl t ↦ absurd (ne (slot_of sid role e t).2)
]

acquired_not_ready : (s : Status) → is_acquired s ≡ true → is_ready s ≡ false
acquired_not_ready Status.ready h = cc
acquired_not_ready Status.acquired h = refl
acquired_not_ready Status.resolved h = refl
acquired_not_ready Status.stale h = refl
acquired_not_ready Status.failed h = refl

taken_of :
    (sid role : String) (e : Readiness)
    → is_taken sid role e ≡ true
    → (is_acquired e.status ≡ true) × (e.session_id ≡ sid)
taken_of sid role e h =
    let (rest, r) = and_true (is_acquired e.status && e.session_id == sid) (role_of e == role) h in
    let (acquired, s) = and_true (is_acquired e.status) (e.session_id == sid) rest in
    (acquired, beq→eq e.session_id sid s)

taken_out :
    (sid role : String) (e : Readiness)
    → is_acquired e.status ≡ true
    → is_in_slot sid role e ≡ false
taken_out sid role e h = rw (acquired_not_ready e.status h) refl

pub any-In :
    {A : Type 0} (p : A → Bool) (es : List A) → any p es ≡ true → (e : A) × In e es × (p e ≡ true)
unfolding any
any-In p [] h = cc
any-In p (x ∷ es) h = elim (Bool-cases (p x)) [
  | inl t ↦ (x, inl refl, t)
  | inr f ↦ let (e, m, own) = any-In p es (rw f at h) in (e, inr m, own)
]

-- Work of the role is acquired, or ready over this window.
abbrev pub HasEntry : Ids → Goal → String → RoleDispatchReadiness → List Readiness → Type 0
HasEntry ids goal role f es =
    ((e : Readiness) × In e es × (is_taken goal.session_id role e ≡ true))
    ⊎ ((e : Readiness) × In e es × IsOffer ids goal role f e)

module _ (ids : Ids) (store : Store) where
  refresh_role-keeps :
      (goal : Goal) (session : Session) (role : String) (es : List Readiness) (e : Readiness)
      → is_in_slot goal.session_id role e ≡ false
      → In e es
      → In e (refresh_role ids store goal session role es)
  refresh_role-keeps goal session role es e out m =
      elim (Bool-cases (
        has_acquired_role_run (values store.dispatch_runs) goal.session_id role
        || acquired_readiness_for_role es goal.session_id role)) [
          | inl t ↦ rw t m
          | inr f ↦ rw f (
              reconcile-keeps ids goal role
                (readiness_fields_from_session_log store session goal.session_id role) es e out m)
        ]

  refresh_session-keeps :
      (goal : Goal) (o : Option Session) (es : List Readiness) (e : Readiness)
      → e.session_id ≢ goal.session_id
      → In e es
      → In e (refresh_session ids store goal o es)
  refresh_session-keeps goal none es e ne m = m
  refresh_session-keeps goal (some session) es e ne m = branch session.active
    where
      branch :
          (b : Bool)
          → In e (
              if b
              then refresh_role ids store goal session worker_agent_role
                  (refresh_role ids store goal session goal_manager_role es)
              else es)
      branch true =
          refresh_role-keeps goal session worker_agent_role _ e
            (other_session goal.session_id worker_agent_role e ne)
            (refresh_role-keeps goal session goal_manager_role es e
              (other_session goal.session_id goal_manager_role e ne) m)
      branch false = m

  refresh_goal-keeps :
      (goal : Goal) (es : List Readiness) (e : Readiness)
      → e.session_id ≢ goal.session_id
      → In e es
      → In e (refresh_goal ids store goal es)
  refresh_goal-keeps goal es e ne m = elim (Bool-cases (is_workable goal)) [
    | inl t ↦ rw t (refresh_session-keeps goal (get store.sessions goal.session_id) es e ne m)
    | inr f ↦ rw f m
  ]

  refresh_goals-keeps :
      (hs : List Held) (es : List Readiness) (e : Readiness)
      → All (λ (k : Held). k.1.session_id ≢ e.session_id) hs
      → In e es
      → In e (refresh_goals ids store hs es)
  unfolding refresh_goals
  refresh_goals-keeps [] es e apart m = m
  refresh_goals-keeps (h ∷ hs) es e apart m =
      refresh_goals-keeps hs (refresh_goal ids store h.1 es) e apart.1
        (refresh_goal-keeps h.1 es e (λ same. apart.0 (sym same)) m)

  refresh_role-HasEntry :
      (goal : Goal) (session : Session) (role : String) (es : List Readiness)
      {f : RoleDispatchReadiness}
      → (role_of (new_entry ids goal role f) == role) ≡ true
      → has_acquired_role_run (values store.dispatch_runs) goal.session_id role ≡ false
      → readiness_fields_from_session_log store session goal.session_id role ≡ some f
      → HasEntry ids goal role f (refresh_role ids store goal session role es)
  unfolding acquired_readiness_for_role
  refresh_role-HasEntry goal session role es {f} named idle fields =
      elim (Bool-cases (acquired_readiness_for_role es goal.session_id role)) [
        | inl t ↦ rw (idle, t) (inl (any-In (is_taken goal.session_id role) es t))
        | inr off ↦ rw (idle, off, fields) (inr (reconcile-offers ids goal role f es named))
      ]

  -- An entry that serves a role of the Session is outside the slots that come behind it.
  keeps-HasEntry :
      (goal : Goal) (role : String) {f : RoleDispatchReadiness} (es es' : List Readiness)
      → ((e : Readiness)
          → e.session_id ≡ goal.session_id
          → (is_acquired e.status ≡ true) ⊎ (role_of e ≡ role)
          → In e es
          → In e es')
      → HasEntry ids goal role f es
      → HasEntry ids goal role f es'
  keeps-HasEntry goal role es es' keep (inl (e, m, taken)) =
      let (acquired, own) = taken_of goal.session_id role e taken in
      inl (e, keep e own (inl acquired) m, taken)
  keeps-HasEntry goal role es es' keep (inr (e, m, offer)) =
      let (ready, own, named) = slot_of goal.session_id role e offer.slot in
      inr (e, keep e own (inr named) m, offer)

  manager_out :
      (sid : String) (e : Readiness)
      → (is_acquired e.status ≡ true) ⊎ (role_of e ≡ goal_manager_role)
      → is_in_slot sid worker_agent_role e ≡ false
  manager_out sid e (inl acquired) = taken_out sid worker_agent_role e acquired
  manager_out sid e (inr named) =
      other_role sid worker_agent_role e
        (λ same. cc (ap (λ s. s == worker_agent_role) (sym named ∙ same)))

  refresh_session-HasEntry :
      (goal : Goal) (session : Session) (role : String) (es : List Readiness)
      {f : RoleDispatchReadiness}
      → session.active ≡ true
      → (role ≡ goal_manager_role) ⊎ (role ≡ worker_agent_role)
      → has_acquired_role_run (values store.dispatch_runs) goal.session_id role ≡ false
      → readiness_fields_from_session_log store session goal.session_id role ≡ some f
      → HasEntry ids goal role f (refresh_session ids store goal (some session) es)
  refresh_session-HasEntry goal session role es {f} active named idle fields =
      subst (HasEntry ids goal role f) (sym (ap (λ b. if b then worked else es) active))
        (split named)
    where
      managed : List Readiness
      managed = refresh_role ids store goal session goal_manager_role es

      worked : List Readiness
      worked = refresh_role ids store goal session worker_agent_role managed

      served :
          (r : String)
          → (role_of (new_entry ids goal r f) == r) ≡ true
          → role ≡ r
          → (es : List Readiness)
          → HasEntry ids goal role f (refresh_role ids store goal session r es)
      served r own same es =
          subst (λ x. HasEntry ids goal x f (refresh_role ids store goal session r es)) (sym same)
            (refresh_role-HasEntry goal session r es own
              (ap (has_acquired_role_run (values store.dispatch_runs) goal.session_id) (sym same)
                ∙ idle)
              (ap (readiness_fields_from_session_log store session goal.session_id) (sym same)
                ∙ fields))

      split :
          (role ≡ goal_manager_role) ⊎ (role ≡ worker_agent_role) → HasEntry ids goal role f worked
      split (inr worker) = served worker_agent_role refl worker managed
      split (inl manager) =
          keeps-HasEntry goal role managed worked
            (λ e own why m.
              refresh_role-keeps goal session worker_agent_role managed e
                (manager_out goal.session_id e (elim why [
                  | inl acquired ↦ inl acquired
                  | inr role_is ↦ inr (role_is ∙ manager)
                ]))
                m)
            (served goal_manager_role refl manager es)

  refresh_goals-HasEntry :
      (hs : List Held) (es : List Readiness) (h : Held) (session : Session) (role : String)
      {f : RoleDispatchReadiness}
      → IsApart hs
      → In h hs
      → is_workable h.1 ≡ true
      → get store.sessions h.1.session_id ≡ some session
      → session.active ≡ true
      → (role ≡ goal_manager_role) ⊎ (role ≡ worker_agent_role)
      → has_acquired_role_run (values store.dispatch_runs) h.1.session_id role ≡ false
      → readiness_fields_from_session_log store session h.1.session_id role ≡ some f
      → HasEntry ids h.1 role f (refresh_goals ids store hs es)
  unfolding refresh_goals
  refresh_goals-HasEntry [] es h session role apart m work there active named idle fields = absurd m
  refresh_goals-HasEntry (k ∷ hs) es h session role apart (inr m) work there active named idle
        fields =
      refresh_goals-HasEntry hs (refresh_goal ids store k.1 es) h session role apart.1 m work there
        active named idle fields
  refresh_goals-HasEntry (k ∷ hs) es h session role {f} apart (inl same) work there active named
        idle fields =
      let now = refresh_session-HasEntry h.1 session role es active named idle fields in
      let here : HasEntry ids h.1 role f (refresh_goal ids store h.1 es) =
        subst (HasEntry ids h.1 role f)
          (sym (
            ap
              (λ b.
                if b
                then refresh_session ids store h.1 (get store.sessions h.1.session_id) es
                else es)
              work
            ∙ ap (λ o. refresh_session ids store h.1 o es) there))
          now in
      keeps-HasEntry h.1 role (refresh_goal ids store k.1 es)
        (refresh_goals ids store hs (refresh_goal ids store k.1 es))
        (λ e own why n.
          refresh_goals-keeps hs (refresh_goal ids store k.1 es) e
            (subst (λ s. All (λ (q : Held). q.1.session_id ≢ s) hs)
              (ap (λ (q : Held). q.1.session_id) same ∙ sym own) apart.0)
            n)
        (subst (λ (q : Held). HasEntry ids h.1 role f (refresh_goal ids store q.1 es)) (sym same)
          here)

  -- The refresh offers what the role's unread entries amount to.
  pub refresh_entries-HasEntry :
      (h : Held) (session : Session) (role : String) (f : RoleDispatchReadiness)
      → In h (current_goals store.goals)
      → is_workable h.1 ≡ true
      → get store.sessions h.1.session_id ≡ some session
      → session.active ≡ true
      → (role ≡ goal_manager_role) ⊎ (role ≡ worker_agent_role)
      → has_acquired_role_run (values store.dispatch_runs) h.1.session_id role ≡ false
      → readiness_fields_from_session_log store session h.1.session_id role ≡ some f
      → HasEntry ids h.1 role f (refresh_entries ids store)
  unfolding refresh_entries
  refresh_entries-HasEntry h session role f m work there active named idle fields =
      refresh_goals-HasEntry (current_goals store.goals) _ h session role
        (current_goals-IsApart store.goals) m work there active named idle fields
