-- ===== src/Declare/Bounded.antt =====
-- Waiting is bounded: a waiting spec that is accepted names something that can end it.
use aize.Prelude.{
  ℕ, ◌<◌, String, ◌≡◌, refl, ap, subst, inl, inr, true, Option, none, some, ◌==◌, string_Eq, leb,
  truthy, has, Bool-cases, beq→eq, arith,
}
use aize.Prelude.Text.{strip}
use aize.State.{Waiting}
use aize.SessionLog.{latest_session_log_seq}
use aize.Dispatch.{Store}
use aize.Declare.{
  WaitSpec, Spec, spec, bad_spec, normalize_goal_waiting_spec, deadline_spec, event_spec,
  child_spec, in_future, blank_wait,
}

waiting_of : Waiting → Spec → Waiting
waiting_of other (spec w) = w
waiting_of other (bad_spec error) = other

is_spec : (a b : Waiting) → spec a ≡ spec b → a ≡ b
unfolding waiting_of
is_spec a b h = ap (waiting_of a) h

module _ (persisted : String → ℕ) (lower : String → String) (parse_utc : String → Option ℕ) where
  -- A deadline that lies in the future, a named event, or a known Session.
  pub data IsEnding (store : Store) (now : String) (w : Waiting) : Type 0 where
    deadline :
        (until current : ℕ)
        → w.kind ≡ "deadline"
        → parse_utc w.wait_until ≡ some until
        → parse_utc now ≡ some current
        → current < until
        → IsEnding store now w
    event : w.kind ≡ "event" → truthy w.event_name ≡ true → IsEnding store now w
    child : w.kind ≡ "child" → has store.sessions w.child_session_id ≡ true → IsEnding store now w

  abbrev WakesAfter : Store → String → String → Waiting → Type 0
  WakesAfter store session_id now w =
      IsEnding store now w
      × (w.wake_log_seq ≡ latest_session_log_seq persisted store.session_logs session_id)

  blank : Store → String → String → Waiting
  blank store session_id kind = blank_wait persisted lower parse_utc store session_id kind

  deadline_ends :
      (store : Store) (session_id now wait_until kind : String) {w : Waiting}
      → kind ≡ "deadline"
      → deadline_spec persisted lower parse_utc now wait_until
          (blank_wait persisted lower parse_utc store session_id kind)
        ≡ spec w
      → WakesAfter store session_id now w
  deadline_ends store session_id now wait_until kind {w} is h =
      elim (Bool-cases (truthy wait_until)) [
        | inr f ↦ cc (rw f at h)
        | inl t ↦ split (parse_utc wait_until) (parse_utc now) refl refl (rw t at h)
      ]
    where
      full : Waiting
      full = record (blank_wait persisted lower parse_utc store session_id kind) {
        wait_until = wait_until;
      }

      split :
          (o o' : Option ℕ)
          → parse_utc wait_until ≡ o
          → parse_utc now ≡ o'
          → in_future persisted lower parse_utc o o' (spec full) ≡ spec w
          → WakesAfter store session_id now w
      split none o' e e' k = cc
      split (some a) none e e' k = cc
      split (some a) (some b) e e' k = elim (Bool-cases (leb a b)) [
        | inl t ↦ cc (rw t at k)
        | inr f ↦
            subst (WakesAfter store session_id now) (is_spec _ _ (rw f at k))
              (deadline a b is e e' (ground (arith, f)), refl)
      ]

  event_ends :
      (store : Store) (session_id now name kind : String) {w : Waiting}
      → kind ≡ "event"
      → event_spec persisted lower parse_utc name
          (blank_wait persisted lower parse_utc store session_id kind)
        ≡ spec w
      → WakesAfter store session_id now w
  event_ends store session_id now name kind is h = elim (Bool-cases (truthy name)) [
    | inr f ↦ cc (rw f at h)
    | inl t ↦ subst (WakesAfter store session_id now) (is_spec _ _ (rw t at h)) (event is t, refl)
  ]

  child_ends :
      (store : Store) (session_id now name kind : String) {w : Waiting}
      → kind ≡ "child"
      → child_spec persisted lower parse_utc store name
          (blank_wait persisted lower parse_utc store session_id kind)
        ≡ spec w
      → WakesAfter store session_id now w
  child_ends store session_id now name kind is h = elim (Bool-cases (truthy name)) [
    | inr f ↦ cc (rw f at h)
    | inl t ↦ elim (Bool-cases (has store.sessions name)) [
      | inr f ↦ cc (rw (t, f) at h)
      | inl known ↦
          subst (WakesAfter store session_id now) (is_spec _ _ (rw (t, known) at h))
            (child is known, refl)
    ]
  ]

  -- A waiting spec that `_normalize_goal_waiting_spec_locked` accepts can end: it has a deadline after
  -- now, or a named event, or a known child Session, and it wakes on what the Session's log holds
  -- behind the latest entry.
  pub normalize_goal_waiting_spec-IsEnding :
      (store : Store) (session_id now : String) (wait : WaitSpec) (w : Waiting)
      → normalize_goal_waiting_spec persisted lower parse_utc store session_id now wait ≡ spec w
      → IsEnding store now w
        × (w.wake_log_seq ≡ latest_session_log_seq persisted store.session_logs session_id)
  unfolding normalize_goal_waiting_spec
  normalize_goal_waiting_spec-IsEnding store session_id now wait w h =
      let kind = lower (strip wait.kind) in
      elim (Bool-cases (kind == "deadline")) [
        | inl t ↦
            deadline_ends store session_id now (strip wait.wait_until) kind
              (beq→eq kind "deadline" t) (rw t at h)
        | inr f ↦ elim (Bool-cases (kind == "event")) [
          | inl t ↦
              event_ends store session_id now (strip wait.event_name) kind (beq→eq kind "event" t)
                (rw (f, t) at h)
          | inr f' ↦ elim (Bool-cases (kind == "child")) [
            | inl t ↦
                child_ends store session_id now (strip wait.child_session_id) kind
                  (beq→eq kind "child" t) (rw (f, f', t) at h)
            | inr f'' ↦ cc (rw (f, f', f'') at h)
          ]
        ]
      ]
