-- ===== src/Units/Kept.antt =====
-- Setting the next run of a Unit changes neither goals nor runs.
use aize.Prelude.{
  ℕ, String, ◌≡◌, refl, inl, inr, Bool, true, false, Option, none, some, if◌then◌else◌, truthy, get,
  Bool-cases, leb,
}
use aize.State.{Session, goal_manager_role}
use aize.Endpoint.{normalize_role_endpoint}
use aize.Dispatch.{Store, UnitRecord, UnitSchedule}
use aize.Units.{
  Request, Next, next, failed, Scheduled, scheduled, refused, prepared, and_blocker, unit_of,
  schedule_of, store_next, in_future, with_resolved, with_schedule, with_unit, with_session,
  schedule_next_unit_run, resolve_next_run_at, schedule_runtime_parameters, not_scheduled,
  actor_allowed, must_resolve, scheduled_unit_completion_blocker, prepare_scheduled_unit_completion,
}

abbrev pub IsSame : Store → Store → Type 0
IsSame store after = (after.goals ≡ store.goals) × (after.dispatch_runs ≡ store.dispatch_runs)

abbrev IsKept : Store → Scheduled → Type 0
IsKept store (scheduled after) = IsSame store after
IsKept store (refused error) = Unit

module _ (persisted : String → ℕ) (log_id : String → String → String) (lower : String → String)
    (parse_utc : String → Option ℕ) (format_seconds : ℕ → String) where
  store_next-IsKept :
      (r : Request) (store : Store) (session : Session) (unit : UnitRecord) (sc : UnitSchedule)
      (text : String) (o : Option String)
      → IsKept store (
          store_next persisted log_id lower parse_utc format_seconds r store session unit sc text o)
  store_next-IsKept r store session unit sc text none = tt
  store_next-IsKept r store session unit sc text (some from) = (refl, refl)

  in_future-IsKept :
      (store : Store) (a b : Option ℕ) (result : Scheduled)
      → IsKept store result
      → IsKept store (in_future persisted log_id lower parse_utc format_seconds a b result)
  in_future-IsKept store none b result k = tt
  in_future-IsKept store (some a) none result k = tt
  in_future-IsKept store (some a) (some b) result k = elim (Bool-cases (leb a b)) [
    | inl t ↦ rw t tt
    | inr f ↦ rw f k
  ]

  with_resolved-IsKept :
      (r : Request) (store : Store) (session : Session) (unit : UnitRecord) (sc : UnitSchedule)
      (n : Next)
      → IsKept store
          (with_resolved persisted log_id lower parse_utc format_seconds r store session unit sc n)
  with_resolved-IsKept r store session unit sc (failed error) = tt
  with_resolved-IsKept r store session unit sc (next text) =
      in_future-IsKept store (parse_utc text)
        (parse_utc (if truthy r.completed_at then r.completed_at else r.now))
        (store_next persisted log_id lower parse_utc format_seconds r store session unit sc text
          (normalize_role_endpoint goal_manager_role session.session_id))
        (store_next-IsKept r store session unit sc text
          (normalize_role_endpoint goal_manager_role session.session_id))

  with_schedule-IsKept :
      (r : Request) (store : Store) (session : Session) (unit : UnitRecord)
      (o : Option UnitSchedule)
      → IsKept store
          (with_schedule persisted log_id lower parse_utc format_seconds r store session unit o)
  with_schedule-IsKept r store session unit none = tt
  with_schedule-IsKept r store session unit (some sc) = branch sc.enabled
    where
      found : Next
      found =
          resolve_next_run_at persisted log_id lower parse_utc format_seconds
            (if truthy sc.resolver then sc.resolver else "explicit") sc.fixed_parameters
            (schedule_runtime_parameters store.dispatch_runs session r.completed_at)
            r.call_parameters

      branch :
          (b : Bool)
          → IsKept store (
              if b
              then with_resolved persisted log_id lower parse_utc format_seconds r store session
                  unit sc found
              else refused not_scheduled)
      branch true = with_resolved-IsKept r store session unit sc found
      branch false = tt

  with_unit-IsKept :
      (r : Request) (store : Store) (session : Session) (o : Option UnitRecord)
      → IsKept store (with_unit persisted log_id lower parse_utc format_seconds r store session o)
  with_unit-IsKept r store session none = tt
  with_unit-IsKept r store session (some unit) =
      with_schedule-IsKept r store session unit unit.schedule

  with_session-IsKept :
      (r : Request) (store : Store) (o : Option Session)
      → IsKept store (with_session persisted log_id lower parse_utc format_seconds r store o)
  with_session-IsKept r store none = tt
  with_session-IsKept r store (some session) =
      elim (Bool-cases (
        actor_allowed persisted log_id lower parse_utc format_seconds r.actor
          (if truthy r.run_id then get store.dispatch_runs r.run_id else none))) [
            | inr f ↦ rw f tt
            | inl t ↦ elim (Bool-cases (truthy session.unit_id)) [
              | inr f ↦ rw (t, f) tt
              | inl t' ↦
                  rw (t, t') (with_unit-IsKept r store session (get store.units session.unit_id))
            ]
          ]

  schedule_next_unit_run-IsKept :
      (r : Request) (store : Store) (session_id : String)
      → IsKept store (
          schedule_next_unit_run persisted log_id lower parse_utc format_seconds r store session_id)
  unfolding schedule_next_unit_run
  schedule_next_unit_run-IsKept r store session_id =
      with_session-IsKept r store (get store.sessions session_id)

  and_blocker-IsSame :
      (store : Store) (session : Session) (completed : String) (s : Scheduled)
      → IsKept store s
      → IsSame store
          (and_blocker persisted log_id lower parse_utc format_seconds session store completed s).0
  and_blocker-IsSame store session completed (refused error) k = (refl, refl)
  and_blocker-IsSame store session completed (scheduled after) k = k

  -- `_prepare_scheduled_unit_completion` changes neither goals nor runs.
  pub prepare-IsSame :
      (r : Request) (store : Store) (session : Session)
      → IsSame store
          (prepare_scheduled_unit_completion persisted log_id lower parse_utc format_seconds r store
            session).0
  unfolding prepare_scheduled_unit_completion
  prepare-IsSame r store session =
      split (schedule_of (unit_of persisted log_id lower parse_utc format_seconds store session))
    where
      either :
          (b : Bool) (s t : Store × Bool)
          → IsSame store s.0
          → IsSame store t.0
          → IsSame store (if b then s else t).0
      either true s t h k = h
      either false s t h k = k

      split :
          (o : Option UnitSchedule)
          → IsSame store
              (prepared persisted log_id lower parse_utc format_seconds r store session o).0
      split none = (refl, refl)
      split (some sc) =
          let resolved =
            and_blocker persisted log_id lower parse_utc format_seconds session store r.completed_at
              (schedule_next_unit_run persisted log_id lower parse_utc format_seconds r store
                session.session_id) in
          let checked : Store × Bool = (
            store,
            scheduled_unit_completion_blocker persisted log_id lower parse_utc format_seconds store
                session r.completed_at,
          ) in
          let must =
            must_resolve persisted log_id lower parse_utc format_seconds r.completed_at sc in
          either sc.enabled (if must then resolved else checked) (store, false)
            (either must resolved checked
              (and_blocker-IsSame store session r.completed_at _
                (schedule_next_unit_run-IsKept r store session.session_id))
              (refl, refl))
            (refl, refl)
