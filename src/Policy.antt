-- ===== src/Policy.antt =====
-- Which ready work is dispatched next: src/goal/policy.py. An instant is a number of microseconds;
-- `from_iso` stands for `datetime.fromisoformat` of the standard library with its result in UTC, and
-- gives `none` where that raises ValueError. The reason is kept as its parts, not as rendered text.
pub mod Eligible
pub mod Candidates
pub mod Choice
pub mod Decision
pub mod Score
mod Examples
use aize.Prelude.{
  ℕ, suc, ◌+◌, ◌-◌, ◌*◌, ◌/◌, min, String, Bool, true, false, ◌&&◌, ◌||◌, not, Option, none, some,
  List, [], ◌∷◌, ◌==◌, string_Eq, if◌then◌else◌, leb, truthy, any, keep_if, Dict, get,
}
use aize.Prelude.Int.{ℤ, pos, negsuc, ◌+ℤ◌, int_desc_Order}
use aize.Prelude.Order.{Order, str_Order, nat_Order, pair_Order}
use aize.Prelude.Minimum.{min_from}
use aize.Prelude.Text.{strip}
use aize.State.{Readiness, Goal, Session, SchedulingPolicy, is_ready, is_incomplete, role_of}

abbrev pub aging_interval_seconds : ℕ
aging_interval_seconds = 60

abbrev pub aging_score_limit : ℕ
aging_score_limit = 100

abbrev pub starvation_wait_seconds : ℕ
starvation_wait_seconds = 600

abbrev pub microseconds : ℕ → ℕ
microseconds s = s * 1000000

-- `SCHEDULING_CLASS_SCORES.get(c, SCHEDULING_CLASS_SCORES["normal"])`
unfoldable pub class_score : String → ℤ
class_score c =
    if c == "idle"
    then negsuc 99
    else if c == "background"
    then negsuc 19
    else if c == "normal"
    then pos 0
    else if c == "high"
    then pos 20
    else if c == "critical"
    then pos 100
    else pos 0

pub record Reason : Type 0 where
  pub scheduling_class : String
  pub class_score : ℤ
  pub base_priority : ℤ
  pub role_priority : ℤ
  pub waiting_age : ℕ
  pub starvation_override : Bool

pub record SchedulingDecision : Type 0 where
  pub readiness_index : Option ℕ
  pub stale_indexes : List ℕ
  pub scheduling_score : Option ℤ
  pub scheduling_reason : Option Reason

pub record Candidate : Type 0 where
  pub index : ℕ
  pub entry : Readiness
  pub score : ℤ
  pub reason : Reason

-- The keys of the two `min` calls.
abbrev pub Age : Type 0
Age = String × (String × (String × ℕ))

abbrev pub age_key : Candidate → Age
age_key c = (c.entry.first_ready_at, (c.entry.session_id, (c.entry.role, c.index)))

abbrev pub score_key : Candidate → ℤ × Age
score_key c = (c.score, age_key c)

abbrev pub age_Order : Order Age
age_Order = pair_Order str_Order (pair_Order str_Order (pair_Order str_Order nat_Order))

-- Python orders by the negated score: the largest score first.
abbrev pub score_Order : Order (ℤ × Age)
score_Order = pair_Order int_desc_Order age_Order

-- What one turn of the loop over the entries does with its entry.
pub data Verdict : Type 0 where
  skipped : Verdict
  outdated : Verdict
  eligible : ℤ → Reason → Verdict

abbrev pub default_policy : SchedulingPolicy
default_policy = record { class = ""; base_priority = pos 0 }

-- `ROLE_BASE_PRIORITIES.get(role, 0)`: both roles have 0.
abbrev role_base_priority : String → ℤ
role_base_priority role = pos 0

-- A goal that can be worked on: present, not archived, incomplete.
unfoldable pub goal_is_live : Option Goal → Bool
goal_is_live none = false
goal_is_live (some g) = if truthy g.archived_at then false else is_incomplete g.completion_state

unfoldable pub session_is_active : Option Session → Bool
session_is_active none = false
session_is_active (some s) = s.active

-- `(session_id, role) in acquired_roles`
unfoldable pub role_is_acquired : List (String × String) → String → String → Bool
role_is_acquired acquired_roles sid role =
    any (λ (p : String × String). p.0 == sid && p.1 == role) acquired_roles

abbrev pub add_verdict : ℕ → Readiness → Verdict → List Candidate × List ℕ → List Candidate × List ℕ
add_verdict i e skipped acc = acc
add_verdict i e outdated acc = (acc.0, i ∷ acc.1)
add_verdict i e (eligible score reason) acc =
    (record { index = i; entry = e; score = score; reason = reason } ∷ acc.0, acc.1)

abbrev pub decide_starved : List ℕ → Candidate → SchedulingDecision
decide_starved stale c = record {
  readiness_index = some c.index;
  stale_indexes = stale;
  scheduling_score = some c.score;
  scheduling_reason = some (record (c.reason) { starvation_override = true });
}

abbrev pub decide_scored : List ℕ → Candidate → SchedulingDecision
decide_scored stale c = record {
  readiness_index = some c.index;
  stale_indexes = stale;
  scheduling_score = some c.score;
  scheduling_reason = some c.reason;
}

module _ (from_iso : String → Option ℕ) where
  unfoldable pub parse_timestamp : String → Option ℕ
  parse_timestamp value = if truthy value then from_iso value else none

  -- `max(0.0, now - ready_at)`: the truncated difference.
  unfoldable pub waiting_time : String → ℕ → ℕ
  unfolding parse_timestamp
  waiting_time value now = elim (parse_timestamp value) [ none ↦ 0 | some t ↦ now - t ]

  unfoldable pub readiness_is_available : Readiness → ℕ → Bool
  unfolding parse_timestamp
  readiness_is_available e now =
      let after = strip e.available_after in
      if truthy after
      then elim (parse_timestamp after) [ none ↦ true | some t ↦ leb t now ]
      else true

  unfoldable pub scheduling_score : Session → String → String → ℕ → ℤ × Reason
  unfolding waiting_time class_score
  scheduling_score session role first_ready_at now =
      let policy : SchedulingPolicy = elim session.scheduling_policy [
        | none ↦ default_policy
        | some p ↦ p
      ] in
      let name : String = if truthy policy.class then policy.class else "normal" in
      let age =
        min aging_score_limit
          (waiting_time first_ready_at now / microseconds aging_interval_seconds) in
      (
        class_score name +ℤ policy.base_priority +ℤ role_base_priority role +ℤ pos age,
        record {
          scheduling_class = name;
          class_score = class_score name;
          base_priority = policy.base_priority;
          role_priority = role_base_priority role;
          waiting_age = age;
          starvation_override = false;
        },
      )

  abbrev pub is_starved : ℕ → Candidate → Bool
  is_starved now c =
      leb (microseconds starvation_wait_seconds) (waiting_time c.entry.first_ready_at now)

  abbrev pub pick_starved : List ℕ → List Candidate → SchedulingDecision → SchedulingDecision
  pick_starved stale [] other = other
  pick_starved stale (c ∷ cs) other = decide_starved stale (min_from age_Order age_key c cs)

  abbrev pub pick : ℕ → List ℕ → List Candidate → SchedulingDecision
  pick now stale [] = record {
    readiness_index = none;
    stale_indexes = stale;
    scheduling_score = none;
    scheduling_reason = none;
  }
  pick now stale (c ∷ cs) =
      pick_starved stale (keep_if (is_starved now) (c ∷ cs))
        (decide_scored stale (min_from score_Order score_key c cs))

  -- The tests of the loop body, in the order of its `continue` statements.
  unfoldable pub is_offered : String → ℕ → Readiness → Bool
  is_offered session_id now e =
      is_ready e.status
      && (not (truthy session_id) || e.session_id == session_id)
      && readiness_is_available e now

  module _ (goals : Dict Goal) (sessions : Dict Session) (acquired_roles : List (String × String))
      (session_id : String) (now : ℕ) where
    abbrev score_of : Option Session → Readiness → Verdict
    score_of none e = skipped
    score_of (some s) e =
        let (score, reason) = scheduling_score s (role_of e) e.first_ready_at now in
        eligible score reason

    unfoldable pub judge : Readiness → Verdict
    judge e =
        if is_offered session_id now e
        then if goal_is_live (get goals e.goal_id)
          then if session_is_active (get sessions e.session_id)
              && not (role_is_acquired acquired_roles e.session_id (role_of e))
            then score_of (get sessions e.session_id) e
            else skipped
          else outdated
        else skipped

    -- The loop `for index, entry in enumerate(readiness_entries)`: candidates and stale indexes.
    unfoldable pub scan : ℕ → List Readiness → List Candidate × List ℕ
    scan i [] = ([], [])
    scan i (e ∷ es) = add_verdict i e (judge e) (scan (suc i) es)

    unfoldable pub select_role_dispatch_readiness : List Readiness → SchedulingDecision
    unfolding scan keep_if judge is_offered goal_is_live session_is_active role_is_acquired get any
        min_from readiness_is_available scheduling_score
    select_role_dispatch_readiness entries =
        let (candidates, stale) = scan 0 entries in pick now stale candidates
