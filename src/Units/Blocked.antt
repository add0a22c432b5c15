-- ===== src/Units/Blocked.antt =====
-- A completion that is not refused leaves an enabled schedule with a next run in the future.
use aize.Prelude.{
  ℕ, ◌<◌, String, ◌≡◌, refl, sym, ap, ◌∙◌, inl, inr, Bool, true, false, ◌||◌, not, Option, none,
  some, ◌==◌, string_Eq, if◌then◌else◌, truthy, get, Bool-cases, arith,
}
use mathlib.Core.Option.{some-injective}
use aize.Prelude.Text.{strip}
use aize.State.{Session}
use aize.Dispatch.{Store, UnitRecord, UnitSchedule}
use aize.Units.{
  Request, Scheduled, scheduled, refused, is_late, is_blocked_by, schedule_of, unit_of,
  scheduled_unit_completion_blocker, prepare_scheduled_unit_completion, prepared, and_blocker,
  schedule_next_unit_run,
}

-- Two instants that are read, the first before the second.
abbrev pub IsBefore : (String → Option ℕ) → String → String → Type 0
IsBefore parse_utc s t = (a b : ℕ) × (parse_utc s ≡ some a) × (parse_utc t ≡ some b) × a < b

module _ (persisted : String → ℕ) (log_id : String → String → String) (lower : String → String)
    (parse_utc : String → Option ℕ) (format_seconds : ℕ → String) where
  is_late-IsBefore :
      (at completed : String) (o c : Option ℕ)
      → parse_utc at ≡ o
      → parse_utc completed ≡ c
      → is_late persisted log_id lower parse_utc format_seconds o c ≡ false
      → IsBefore parse_utc completed at
  is_late-IsBefore at completed none c e e' h = cc
  is_late-IsBefore at completed (some a) none e e' h = cc
  is_late-IsBefore at completed (some a) (some b) e e' h = (b, a, e', e, ground (arith, h))

  is_blocked_by-IsBefore :
      (completed : String) (sc : UnitSchedule)
      → is_blocked_by persisted log_id lower parse_utc format_seconds completed (some sc) ≡ false
      → sc.enabled ≡ true
      → IsBefore parse_utc completed (strip sc.next_run_at)
  is_blocked_by-IsBefore completed sc h on = elim (Bool-cases (truthy (strip sc.next_run_at))) [
    | inl t ↦ is_late-IsBefore (strip sc.next_run_at) completed _ _ refl refl (rw (on, t) at h)
    | inr f ↦ cc (rw (on, f) at h)
  ]

  -- The enabled schedule of the Session's Unit runs next after this instant.
  abbrev IsScheduledAfter : Store → Session → String → Type 0
  IsScheduledAfter store session completed =
      (unit : UnitRecord) (sc : UnitSchedule)
      → get store.units session.unit_id ≡ some unit
      → unit.schedule ≡ some sc
      → sc.enabled ≡ true
      → IsBefore parse_utc completed (strip sc.next_run_at)

  blocker-IsScheduledAfter :
      (store : Store) (session : Session) (completed : String)
      → truthy session.unit_id ≡ true
      → scheduled_unit_completion_blocker persisted log_id lower parse_utc format_seconds store
          session completed
        ≡ false
      → IsScheduledAfter store session completed
  unfolding scheduled_unit_completion_blocker
  blocker-IsScheduledAfter store session completed owned h unit sc there has on =
      is_blocked_by-IsBefore completed sc
        (sym (
            ap (is_blocked_by persisted log_id lower parse_utc format_seconds completed)
              (ap schedule_of there ∙ has))
          ∙ rw owned at h)
        on

  prepare-IsScheduledAfter :
      (r : Request) (store : Store) (session : Session)
      → truthy session.unit_id ≡ true
      → (prepare_scheduled_unit_completion persisted log_id lower parse_utc format_seconds r store
          session).1
        ≡ false
      → IsScheduledAfter
          (prepare_scheduled_unit_completion persisted log_id lower parse_utc format_seconds r store
            session).0
          session
          r.completed_at
  unfolding prepare_scheduled_unit_completion
  prepare-IsScheduledAfter r store session owned h =
      split (schedule_of (unit_of persisted log_id lower parse_utc format_seconds store session))
        refl h
    where
      result : Option UnitSchedule → Store × Bool
      result o = prepared persisted log_id lower parse_utc format_seconds r store session o

      here :
          (unit : UnitRecord)
          → get store.units session.unit_id ≡ some unit
          → schedule_of (unit_of persisted log_id lower parse_utc format_seconds store session)
            ≡ unit.schedule
      here unit there = rw owned (ap schedule_of there)

      resolved :
          (o : Scheduled)
          → (and_blocker persisted log_id lower parse_utc format_seconds session store
              r.completed_at o).1
            ≡ false
          → IsScheduledAfter
              (and_blocker persisted log_id lower parse_utc format_seconds session store
                r.completed_at o).0
              session
              r.completed_at
      resolved (refused error) k = cc
      resolved (scheduled after) k = blocker-IsScheduledAfter after session r.completed_at owned k

      must : UnitSchedule → Bool
      must sc =
          let at = strip sc.next_run_at in
          if not ((if truthy sc.resolver then sc.resolver else "explicit") == "explicit")
            || not (truthy at)
          then true
          else is_late persisted log_id lower parse_utc format_seconds (parse_utc at)
              (parse_utc r.completed_at)

      split :
          (o : Option UnitSchedule)
          → schedule_of (unit_of persisted log_id lower parse_utc format_seconds store session) ≡ o
          → (result o).1 ≡ false
          → IsScheduledAfter (result o).0 session r.completed_at
      split none e k = λ unit sc there has on. cc (sym (here unit there) ∙ e, has)
      split (some other) e k = elim (Bool-cases other.enabled) [
        | inr f ↦
            rw f (λ unit sc there has on.
              cc (f, on, some-injective _ _ (sym e ∙ here unit there ∙ has)))
        | inl t ↦ elim (Bool-cases (must other)) [
          | inl t' ↦
              rw (t, t')
                (resolved
                  (schedule_next_unit_run persisted log_id lower parse_utc format_seconds r store
                    session.session_id)
                  (rw (t, t') at k))
          | inr f ↦
              rw (t, f)
                (blocker-IsScheduledAfter store session r.completed_at owned (rw (t, f) at k))
        ]
      ]

  -- `_prepare_scheduled_unit_completion`: where a completion is not refused, and the Session has a
  -- Unit whose schedule is enabled behind it, the Unit's next run lies after the completion.
  pub prepare-IsBefore :
      (r : Request) (store : Store) (session : Session) (unit : UnitRecord) (sc : UnitSchedule)
      → truthy session.unit_id ≡ true
      → (prepare_scheduled_unit_completion persisted log_id lower parse_utc format_seconds r store
          session).1
        ≡ false
      → get
          (prepare_scheduled_unit_completion persisted log_id lower parse_utc format_seconds r store
            session).0.units
          session.unit_id
        ≡ some unit
      → unit.schedule ≡ some sc
      → sc.enabled ≡ true
      → IsBefore parse_utc r.completed_at (strip sc.next_run_at)
  prepare-IsBefore r store session unit sc owned h =
      prepare-IsScheduledAfter r store session owned h unit sc
