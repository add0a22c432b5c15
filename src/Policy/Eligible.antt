-- ===== src/Policy/Eligible.antt =====
-- Which entries the loop of `select_role_dispatch_readiness` considers, and which it marks stale.
use mathlib.Core.Option.{some-injective}
use aize.Prelude.{
  ◌↔◌, ℕ, ◌≤◌, String, ◌≡◌, refl, sym, ap, ◌∙◌, subst, ◌⊎◌, inl, inr, true, false, not, ◌&&◌, ◌==◌,
  string_Eq, Option, none, some, List, [], ◌∷◌, Dict, get, arith, truthy, eq_iff, Bool-cases,
  Option-cases, leb, In, any, and_true, beq→eq, beq_refl,
}
use aize.Prelude.Int.{ℤ}
use aize.Prelude.Text.{strip}
use aize.State.{Status, Readiness, Goal, Session, is_ready, incomplete, role_of}
use aize.Policy.{
  is_offered, goal_is_live, session_is_active, Reason, Verdict, skipped, outdated, eligible, judge,
  readiness_is_available, parse_timestamp, scheduling_score, role_is_acquired,
}

score_in : ℤ × Reason → Verdict → ℤ × Reason
score_in other (eligible score reason) = (score, reason)
score_in other skipped = other
score_in other outdated = other

verdict-injective : {a b : ℤ} {p q : Reason} → eligible a p ≡ eligible b q → (a ≡ b) × (p ≡ q)
unfolding score_in
verdict-injective {a} {b} {p} {q} h =
    (ap (λ v. (score_in (a, p) v).0) h, ap (λ v. (score_in (a, p) v).1) h)

module _ (from_iso : String → Option ℕ) (goals : Dict Goal) (sessions : Dict Session)
    (acquired_roles : List (String × String)) (session_id : String) (now : ℕ) where
  abbrev pub verdict : Readiness → Verdict
  verdict = judge from_iso goals sessions acquired_roles session_id now

  -- The entry is ready, of the wanted Session if one is named, and past its delay.
  pub record IsOffered (e : Readiness) : Type 0 where
    pub ready : e.status ≡ Status.ready
    pub wanted : (truthy session_id ≡ false) ⊎ (e.session_id ≡ session_id)
    pub available :
        (t : ℕ)
        → truthy (strip e.available_after) ≡ true
        → from_iso (strip e.available_after) ≡ some t
        → t ≤ now

  -- Its SessionGoal exists, is not archived and is incomplete.
  pub record GoalIsLive (e : Readiness) : Type 0 where
    pub goal : Goal
    pub found : get goals e.goal_id ≡ some goal
    pub kept : truthy goal.archived_at ≡ false
    pub open_goal : goal.completion_state ≡ incomplete

  -- Its Session is active, and no run holds its role in that Session.
  pub record SlotIsFree (e : Readiness) : Type 0 where
    pub session : Session
    pub found : get sessions e.session_id ≡ some session
    pub active : session.active ≡ true
    pub unleased : ¬ In (e.session_id, role_of e) acquired_roles

  ready_of : (s : Status) → is_ready s ≡ true → s ≡ Status.ready
  ready_of Status.ready h = refl
  ready_of _ h = cc

  -- A delay that cannot be read, or that is over, does not hold the entry back.
  available_at :
      (o : Option ℕ)
      → elim o [ none ↦ true | some t ↦ leb t now ] ≡ true ↔ ((t : ℕ) → o ≡ some t → t ≤ now)
  available_at none = (λ h t k. cc, λ h. refl)
  available_at (some u) = (
    λ h t k. subst (λ n. n ≤ now) (some-injective _ _ k) (leb_le u now h),
    λ h. le_leb u now (h u refl),
  )
    where
      leb_le : (a b : ℕ) → leb a b ≡ true → a ≤ b
      leb_le a b h = ground arith

      le_leb : (a b : ℕ) → a ≤ b → leb a b ≡ true
      le_leb a b h = ground arith

  abbrev IsAvailable : Readiness → Type 0
  IsAvailable e =
      (t : ℕ)
      → truthy (strip e.available_after) ≡ true
      → from_iso (strip e.available_after) ≡ some t
      → t ≤ now

  readiness_is_available-IsAvailable :
      (e : Readiness) → (readiness_is_available from_iso e now ≡ true) ↔ IsAvailable e
  unfolding readiness_is_available parse_timestamp
  readiness_is_available-IsAvailable e = elim (Bool-cases (truthy (strip e.available_after))) [
    | inr f ↦ (λ h t named k. cc (named, f), λ h. rw f refl)
    | inl named ↦
        let at = available_at (from_iso (strip e.available_after)) in
        (λ h t n k. at.0 (rw named at h) t k, λ h. rw named (at.1 (λ t k. h t named k)))
  ]

  IsOffered-of : (e : Readiness) → is_offered from_iso session_id now e ≡ true → IsOffered e
  unfolding is_offered
  IsOffered-of e h = record {
    ready = ready_of e.status (ground arith);
    wanted = ground (arith, eq_iff e.session_id session_id);
    available = (readiness_is_available-IsAvailable e).0 (and_true _ _ h).1;
  }

  IsOffered→is_offered : (e : Readiness) → IsOffered e → is_offered from_iso session_id now e ≡ true
  unfolding is_offered
  IsOffered→is_offered e h =
      let over = (readiness_is_available-IsAvailable e).1 h.available in
      ground (arith, eq_iff e.session_id session_id, h.ready, h.wanted, over)

  GoalIsLive-of : (e : Readiness) → goal_is_live (get goals e.goal_id) ≡ true → GoalIsLive e
  unfolding goal_is_live
  GoalIsLive-of e h = elim (Option-cases (get goals e.goal_id)) [
    | inl absent ↦ cc (rw absent at h)
    | inr (g, found) ↦
        let k : goal_is_live (some g) ≡ true = rw found at h in
        record { goal = g; found = found; kept = ground arith; open_goal = ground arith }
  ]

  GoalIsLive→goal_is_live :
      (e : Readiness) → GoalIsLive e → goal_is_live (get goals e.goal_id) ≡ true
  unfolding goal_is_live
  GoalIsLive→goal_is_live e h = rw (h.found, h.kept, h.open_goal) refl

  any_of :
      (sid role : String) (roles : List (String × String))
      → (any (λ (p : String × String). p.0 == sid && p.1 == role) roles ≡ true)
        ↔ In (sid, role) roles
  unfolding any
  any_of sid role [] = (λ h. cc, λ m. absurd m)
  any_of sid role ((s, r) ∷ roles) = elim (Bool-cases (s == sid && r == role)) [
    | inl t ↦
        let both = and_true _ _ t in
        (λ h. inl (λ i. (beq→eq s sid both.0 i, beq→eq r role both.1 i)), λ m. rw t refl)
    | inr f ↦ (
      λ h. inr ((any_of sid role roles).0 (rw f at h)),
      λ m. elim m [
        | inr n ↦ rw f ((any_of sid role roles).1 n)
        | inl same ↦
            let t : (s == sid && r == role) ≡ true =
              rw
                (
                  ap (λ (p : String × String). p.0) same,
                  ap (λ (p : String × String). p.1) same,
                  beq_refl sid,
                  beq_refl role,
                )
                refl in
            cc (t, f)
      ],
    )
  ]

  pub role_is_acquired-In :
      (e : Readiness)
      → (role_is_acquired acquired_roles e.session_id (role_of e) ≡ false)
        ↔ (¬ In (e.session_id, role_of e) acquired_roles)
  unfolding role_is_acquired
  role_is_acquired-In e =
      let held = any_of e.session_id (role_of e) acquired_roles in
      (
        λ f m. cc (held.1 m, f),
        λ free. elim (Bool-cases (role_is_acquired acquired_roles e.session_id (role_of e))) [
          | inl t ↦ absurd (free (held.0 t))
          | inr f ↦ f
        ],
      )

  SlotIsFree-of :
      (e : Readiness)
      → (session_is_active (get sessions e.session_id)
          && not (role_is_acquired acquired_roles e.session_id (role_of e)))
        ≡ true
      → SlotIsFree e
  unfolding session_is_active
  SlotIsFree-of e h = elim (Option-cases (get sessions e.session_id)) [
    | inl absent ↦ cc (rw absent at h)
    | inr (s, found) ↦
        let k : (s.active && not (role_is_acquired acquired_roles e.session_id (role_of e)))
            ≡ true =
          rw found at h in
        record {
          session = s;
          found = found;
          active = ground arith;
          unleased = (role_is_acquired-In e).0 (ground arith);
        }
  ]

  -- The score of the entry's Session and role, and the reason given for it.
  abbrev pub IsScored : (e : Readiness) → SlotIsFree e → ℤ → Reason → Type 0
  IsScored e s score reason =
      ((scheduling_score from_iso s.session (role_of e) e.first_ready_at now).0 ≡ score)
      × ((scheduling_score from_iso s.session (role_of e) e.first_ready_at now).1 ≡ reason)

  -- Every entry that is offered, of a live goal and a free slot is a candidate, with its score.
  pub eligible-judge :
      (e : Readiness)
      → IsOffered e
      → GoalIsLive e
      → (s : SlotIsFree e)
      → verdict e
        ≡ eligible
            (scheduling_score from_iso s.session (role_of e) e.first_ready_at now).0
            (scheduling_score from_iso s.session (role_of e) e.first_ready_at now).1
  unfolding judge session_is_active
  eligible-judge e o g s =
      let free = (role_is_acquired-In e).1 s.unleased in
      rw (IsOffered→is_offered e o, GoalIsLive→goal_is_live e g, s.found, s.active, free) refl

  -- A candidate is offered, its goal is live and its slot is free.
  pub judge-eligible :
      (e : Readiness) {score : ℤ} {reason : Reason}
      → verdict e ≡ eligible score reason
      → IsOffered e × GoalIsLive e × ((s : SlotIsFree e) × IsScored e s score reason)
  unfolding judge
  judge-eligible e h = elim (Bool-cases (is_offered from_iso session_id now e)) [
    | inr f ↦ cc (rw f at h)
    | inl t ↦ elim (Bool-cases (goal_is_live (get goals e.goal_id))) [
      | inr f ↦ cc (rw (t, f) at h)
      | inl g ↦
          elim (Bool-cases (
            session_is_active (get sessions e.session_id)
            && not (role_is_acquired acquired_roles e.session_id (role_of e)))) [
              | inr f ↦ cc (rw (t, g, f) at h)
              | inl s ↦
                  let free = SlotIsFree-of e s in
                  let scored =
                    sym (eligible-judge e (IsOffered-of e t) (GoalIsLive-of e g) free) ∙ h in
                  (IsOffered-of e t, GoalIsLive-of e g, (free, verdict-injective scored))
            ]
    ]
  ]

  live_not_outdated :
      (e : Readiness)
      → is_offered from_iso session_id now e ≡ true
      → goal_is_live (get goals e.goal_id) ≡ true
      → ¬ (verdict e ≡ outdated)
  unfolding judge
  live_not_outdated e t g h = ground arith

  -- An entry is marked stale exactly when it is offered and its goal is not live.
  pub judge-outdated : (e : Readiness) → (verdict e ≡ outdated) ↔ (IsOffered e × (¬ GoalIsLive e))
  unfolding judge
  judge-outdated e = (
    λ h. elim (Bool-cases (is_offered from_iso session_id now e)) [
      | inr f ↦ cc (rw f at h)
      | inl t ↦ elim (Bool-cases (goal_is_live (get goals e.goal_id))) [
        | inr f ↦ (IsOffered-of e t, λ live. cc (GoalIsLive→goal_is_live e live, f))
        | inl g ↦ absurd (live_not_outdated e t g h)
      ]
    ],
    λ h. elim (Bool-cases (goal_is_live (get goals e.goal_id))) [
      | inr f ↦ rw (IsOffered→is_offered e h.0, f) refl
      | inl g ↦ absurd (h.1 (GoalIsLive-of e g))
    ],
  )
