-- ===== src/Refresh/Work.antt =====
-- No work is left lying by the refresh: from the unread entries of a SessionLog to an entry of the role.
use aize.Prelude.{
  ℕ, ◌≤◌, ◌<◌, String, ◌≡◌, refl, sym, ap, ◌∙◌, ◌⊎◌, inl, inr, ◌↔◌, Bool, true, false, ◌&&◌, ◌||◌,
  none, some, List, [], ◌∷◌, map, ◌==◌, string_Eq, get, values, any, In, arith, Bool-cases,
  Option-cases, and_true, beq→eq, beq_refl, ltb, truthy, keep_if-In, In-keep_if,
}
use aize.Prelude.Lists.{In-map}
use aize.Prelude.Order.{str_Order}
use aize.Prelude.Sort.{last_of-In, last-sort_by, In-sort_by_of}
use aize.State.{
  Readiness, Status, Goal, Session, LogEntry, WakeReason, role_of, is_ready, is_acquired,
  incomplete, holds_lease, goal_manager_role, worker_agent_role,
}
use aize.Projection.{DispatchLogItem, RoleDispatchReadiness, wake_reason}
use aize.Projection.Derived.{Describes, derive-Describes}
use aize.SessionLog.{log_of, cursor_of, session_log_after_cursor}
use aize.Dispatch.{Run, Store, is_supported}
use aize.Messages.{active_worker_run_for_session, works_in}
use aize.Readiness.{has_acquired_role_run}
use aize.Readiness.Slots.{slot_of}
use aize.Goals.{Held, current_goals}
use aize.Refresh.{Ids, item_of, is_run, refresh_entries, readiness_fields_from_session_log}
use aize.Refresh.Served.{HasEntry, any-In, refresh_entries-HasEntry}

-- No run of the role holds a lease in the Session.
abbrev pub HasNoLease : Store → String → String → Type 0
HasNoLease store session_id role =
    (run : Run)
    → In run (values store.dispatch_runs)
    → run.session_id ≡ session_id
    → (run.role ≡ role) ⊎ (run.current_phase ≡ role)
    → holds_lease run.lease_state ≡ false

-- A WorkerAgent is at work in the Session.
pub record IsBusy (store : Store) (session_id : String) : Type 0 where
  pub run : Run
  pub stands : In run (values store.dispatch_runs)
  pub place : run.session_id ≡ session_id
  pub held : holds_lease run.lease_state ≡ true
  pub phase : run.current_phase ≡ worker_agent_role

-- The entry is in the Session's log behind the role's cursor.
abbrev pub IsUnread : Store → Session → String → String → LogEntry → Type 0
IsUnread store session session_id role e =
    In e (log_of store.session_logs session_id) × (cursor_of session role < e.seq)

-- The window spans the unread entries exactly.
pub record IsWindow (store : Store) (session : Session) (session_id role : String) (from to : ℕ)
    : Type 0 where
  pub covers :
      (e : LogEntry) → IsUnread store session session_id role e → (from ≤ e.seq) × (e.seq ≤ to)
  pub starts : (e : LogEntry) × IsUnread store session session_id role e × (e.seq ≡ from)
  pub ends : (e : LogEntry) × IsUnread store session session_id role e × (e.seq ≡ to)

-- An entry of the role is acquired.
pub record IsAcquired (session_id role : String) (e : Readiness) : Type 0 where
  pub acquired : e.status ≡ Status.acquired
  pub session : e.session_id ≡ session_id
  pub role_is : role_of e ≡ role

-- An entry of the role is ready for the goal, over exactly the unread entries.
pub record IsReady (store : Store) (session : Session) (goal : Goal) (role : String) (e : Readiness)
    : Type 0 where
  pub ready : e.status ≡ Status.ready
  pub session_is : e.session_id ≡ goal.session_id
  pub role_is : role_of e ≡ role
  pub goal_is : e.goal_id ≡ goal.goal_id
  pub from : ℕ
  pub to : ℕ
  pub starts : e.from_log_seq ≡ some from
  pub ends : e.observed_to_seq ≡ some to
  pub window : IsWindow store session goal.session_id role from to

abbrev pub IsServed : Store → Session → Goal → String → List Readiness → Type 0
IsServed store session goal role es =
    ((e : Readiness) × In e es × IsAcquired goal.session_id role e)
    ⊎ ((e : Readiness) × In e es × IsReady store session goal role e)

acquired_status : (s : Status) → is_acquired s ≡ true → s ≡ Status.acquired
acquired_status Status.acquired h = refl
acquired_status _ h = cc

ready_status : (s : Status) → is_ready s ≡ true → s ≡ Status.ready
ready_status Status.ready h = refl
ready_status _ h = cc

or_cases : (a b : Bool) → (a || b) ≡ true → (a ≡ true) ⊎ (b ≡ true)
or_cases a b h = ground arith

ltb_lt : (a b : ℕ) → ltb a b ≡ true → a < b
ltb_lt a b h = ground arith

lt_ltb : (a b : ℕ) → a < b → ltb a b ≡ true
lt_ltb a b h = ground arith

In-item : (es : List LogEntry) (e : LogEntry) → In e es → In (item_of e) (map item_of es)
In-item [] e m = absurd m
In-item (x ∷ es) e (inl same) = inl (ap item_of same)
In-item (x ∷ es) e (inr m) = inr (In-item es e m)

module _ (store : Store) (session_id : String) where
  abbrev is_lease : String → Run → Bool
  is_lease role run =
      run.session_id == session_id
      && (run.role == role || run.current_phase == role)
      && holds_lease run.lease_state

  HasNoLease-idle :
      (role : String)
      → HasNoLease store session_id role
      → has_acquired_role_run (values store.dispatch_runs) session_id role ≡ false
  unfolding has_acquired_role_run
  HasNoLease-idle role none_held =
      elim (Bool-cases (has_acquired_role_run (values store.dispatch_runs) session_id role)) [
        | inr f ↦ f
        | inl t ↦
            let (run, m, own) =
              any-In (is_lease role) (values store.dispatch_runs)
                (and_true (is_supported role) (any (is_lease role) (values store.dispatch_runs))
                  t).1 in
            let (place, held) =
              and_true
                (run.session_id == session_id && (run.role == role || run.current_phase == role))
                (holds_lease run.lease_state) own in
            let (here, named) =
              and_true (run.session_id == session_id)
                (run.role == role || run.current_phase == role) place in
            cc (
              none_held run m (beq→eq run.session_id session_id here)
                  (elim (or_cases (run.role == role) (run.current_phase == role) named) [
                    | inl r ↦ inl (beq→eq run.role role r)
                    | inr r ↦ inr (beq→eq run.current_phase role r)
                  ]),
              held,
            )
      ]

  is_run-IsBusy :
      (is_run (active_worker_run_for_session store.dispatch_runs session_id) ≡ true)
      ↔ IsBusy store session_id
  unfolding active_worker_run_for_session
  is_run-IsBusy = (
    λ h. elim (Option-cases (active_worker_run_for_session store.dispatch_runs session_id)) [
      | inl absent ↦ cc (ap is_run absent, h)
      | inr (run, found) ↦
          let (m, own) =
            keep_if-In (works_in session_id) (values store.dispatch_runs) run
              (last-sort_by str_Order _ _ found).0 in
          let (place, phase) = and_true _ _ own in
          let (here, held) = and_true _ _ place in
          record {
            run = run;
            stands = m;
            place = beq→eq run.session_id session_id here;
            held = held;
            phase = beq→eq run.current_phase worker_agent_role phase;
          }
    ],
    λ b. elim (Option-cases (active_worker_run_for_session store.dispatch_runs session_id)) [
      | inr (run, found) ↦ ap is_run found
      | inl absent ↦ absurd (
          last_of-In _ b.run
            (In-sort_by_of str_Order _ b.run _ (
              In-keep_if (works_in session_id) (values store.dispatch_runs) b.run b.stands
                (rw (b.place, b.held, b.phase, beq_refl session_id) refl)))
            absent)
    ],
  )

-- The entries that a role's fields are derived from are the unread ones.
module _ (store : Store) (session : Session) (session_id role : String) where
  items : List DispatchLogItem
  items =
      map item_of (session_log_after_cursor store.session_logs session_id (cursor_of session role))

  In-items : (e : LogEntry) → IsUnread store session session_id role e → In (item_of e) items
  unfolding items session_log_after_cursor
  In-items e (m, behind) = In-item _ e (
      In-keep_if (λ (x : LogEntry). ltb (cursor_of session role) x.seq)
        (log_of store.session_logs session_id) e m (lt_ltb _ _ behind))

  items-In :
      (x : DispatchLogItem)
      → In x items
      → (e : LogEntry) × IsUnread store session session_id role e × (e.seq ≡ x.entry.seq)
  unfolding items session_log_after_cursor
  items-In x m =
      let (e, n, same) = In-map item_of _ x m in
      let (there, behind) =
        keep_if-In (λ (y : LogEntry). ltb (cursor_of session role) y.seq)
          (log_of store.session_logs session_id) e n in
      (e, (there, ltb_lt _ _ behind), ap (λ (y : DispatchLogItem). y.entry.seq) same)

  window_of :
      {busy : Bool} {f : RoleDispatchReadiness}
      → Describes role session_id busy items f
      → IsWindow store session session_id role f.from_log_seq f.observed_to_seq
  window_of d =
      let (least, (x, at_x, low)) = d.from in
      let (greatest, (y, at_y, high)) = d.to in
      let (first_entry, unread, own) = items-In x at_x in
      let (last_entry, unread', own') = items-In y at_y in
      record {
        covers = λ e u. (least (item_of e) (In-items e u), greatest (item_of e) (In-items e u));
        starts = (first_entry, unread, own ∙ low);
        ends = (last_entry, unread', own' ∙ high);
      }

  -- Where an unread entry wakes the role there are fields, and they describe the unread entries.
  woken_fields :
      (busy : Bool) (e : LogEntry) (w : WakeReason)
      → is_run (active_worker_run_for_session store.dispatch_runs session_id) ≡ busy
      → IsUnread store session session_id role e
      → wake_reason role session_id busy (item_of e) ≡ some w
      → (f : RoleDispatchReadiness) × (readiness_fields_from_session_log store session session_id
            role
          ≡ some f)
        × IsWindow store session session_id role f.from_log_seq f.observed_to_seq
  unfolding readiness_fields_from_session_log items
  woken_fields busy e w at unread woke =
      elim (derive-Describes role session_id
        (is_run (active_worker_run_for_session store.dispatch_runs session_id)) items) [
          | inl (_, silent) ↦ cc (
            silent (item_of e) (In-items e unread),
            ap (λ b. wake_reason role session_id b (item_of e)) at,
            woke,
          )
          | inr (f, fields, describes, x, n, v, woken) ↦ (f, fields, window_of describes)
        ]

module _ (ids : Ids) (store : Store) where
  HasEntry-IsServed :
      (session : Session) (goal : Goal) (role : String) (f : RoleDispatchReadiness)
      (es : List Readiness)
      → IsWindow store session goal.session_id role f.from_log_seq f.observed_to_seq
      → HasEntry ids goal role f es
      → IsServed store session goal role es
  HasEntry-IsServed session goal role f es window (inl (e, m, taken)) =
      let (rest, named) =
        and_true (is_acquired e.status && e.session_id == goal.session_id) (role_of e == role)
          taken in
      let (acquired, here) =
        and_true (is_acquired e.status) (e.session_id == goal.session_id) rest in
      inl (
        e,
        m,
        record {
          acquired = acquired_status e.status acquired;
          session = beq→eq e.session_id goal.session_id here;
          role_is = beq→eq (role_of e) role named;
        },
      )
  HasEntry-IsServed session goal role f es window (inr (e, m, offer)) =
      let (ready, here, named) = slot_of goal.session_id role e offer.slot in
      inr (
        e,
        m,
        record {
          ready = ready_status e.status ready;
          session_is = here;
          role_is = named;
          goal_is = offer.goal_id;
          from = f.from_log_seq;
          to = f.observed_to_seq;
          starts = offer.from_log_seq;
          ends = offer.observed_to_seq;
          window = window;
        },
      )

  same_truth : (a b : Bool) → (a ≡ true) ↔ (b ≡ true) → a ≡ b
  same_truth true b h = sym (h.0 refl)
  same_truth false true h = h.1 refl
  same_truth false false h = refl

  -- The refresh leaves no work lying: where a Session is active, its current goal is incomplete and
  -- does not wait, no run of a role holds a lease there, and an unread entry wakes that role, an entry
  -- of the role is acquired, or one is ready for this goal over exactly the unread window. `busy` says
  -- whether a WorkerAgent is at work in the Session.
  pub refresh_entries-IsServed :
      (h : Held) (session : Session) (role : String) (busy : Bool) (e : LogEntry) (w : WakeReason)
      → In h (current_goals store.goals)
      → truthy h.1.archived_at ≡ false
      → h.1.completion_state ≡ incomplete
      → h.1.waiting ≡ none
      → get store.sessions h.1.session_id ≡ some session
      → session.active ≡ true
      → (role ≡ goal_manager_role) ⊎ (role ≡ worker_agent_role)
      → HasNoLease store h.1.session_id role
      → (busy ≡ true) ↔ IsBusy store h.1.session_id
      → IsUnread store session h.1.session_id role e
      → wake_reason role h.1.session_id busy (item_of e) ≡ some w
      → IsServed store session h.1 role (refresh_entries ids store)
  refresh_entries-IsServed h session role busy e w m kept undone awake there active named idle at
        unread woke =
      let runs = is_run-IsBusy store h.1.session_id in
      let (f, fields, window) =
        woken_fields store session h.1.session_id role busy e w
          (same_truth (is_run (active_worker_run_for_session store.dispatch_runs h.1.session_id))
            busy (λ t. at.1 (runs.0 t), λ t. runs.1 (at.0 t)))
          unread woke in
      HasEntry-IsServed session h.1 role f (refresh_entries ids store) window (
        refresh_entries-HasEntry ids store h session role f m (rw (kept, undone, awake) refl) there
          active named (HasNoLease-idle store h.1.session_id role idle) fields)
