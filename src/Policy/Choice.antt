-- ===== src/Policy/Choice.antt =====
-- How `select_role_dispatch_readiness` picks among the candidates.
use aize.Prelude.{
  ℕ, ◌+◌, ◌-◌, ◌≤◌, arith, leb, truthy, none, ap, ◌∙◌, if◌then◌else◌, String, ◌≡◌, refl, sym, subst,
  ◌↔◌, ◌⊎◌, inl, inr, true, false, Option, some, List, [], ◌∷◌, Dict, Bool-cases, In, keep_if,
  keep_if-In, In-keep_if,
}
use mathlib.Core.Option.{some-injective}
use aize.Prelude.Minimum.{AtMost, min_from, min_from-In, min_from-AtMost}
use aize.State.{Readiness, Goal, Session}
use aize.Policy.{
  Candidate, age_key, score_key, age_Order, score_Order, is_starved, pick, waiting_time,
  parse_timestamp,
}
use aize.Policy.Candidates.{IsCandidate}

module _ (from_iso : String → Option ℕ) (goals : Dict Goal) (sessions : Dict Session)
    (acquired_roles : List (String × String)) (session_id : String) (now : ℕ) where
  -- The entry has been ready for ten minutes, by a time stamp that can be read.
  pub record IsStarved (c : Candidate) : Type 0 where
    pub instant : ℕ
    pub stamped : truthy c.entry.first_ready_at ≡ true
    pub since : from_iso c.entry.first_ready_at ≡ some instant
    pub waited : instant + 600000000 ≤ now

  starved_at :
      (o : Option ℕ)
      → (leb 600000000 (elim o [ none ↦ 0 | some t ↦ now - t ]) ≡ true)
        ↔ ((t : ℕ) × (o ≡ some t) × (t + 600000000 ≤ now))
  starved_at none = (λ h. cc, λ h. cc (h.1))
  starved_at (some u) = (
    λ h. (u, refl, waited u now h),
    λ h. long u now (subst (λ n. n + 600000000 ≤ now) (sym (some-injective _ _ h.1)) h.2),
  )
    where
      waited : (u n : ℕ) → leb 600000000 (n - u) ≡ true → u + 600000000 ≤ n
      waited u n h = ground arith

      long : (u n : ℕ) → u + 600000000 ≤ n → leb 600000000 (n - u) ≡ true
      long u n h = ground arith

  stamp_of :
      (value : String) → truthy value ≡ true → parse_timestamp from_iso value ≡ from_iso value
  unfolding parse_timestamp
  stamp_of value named = ap (λ b. if b then from_iso value else none) named

  unstamped : (value : String) → truthy value ≡ false → parse_timestamp from_iso value ≡ none
  unfolding parse_timestamp
  unstamped value f = ap (λ b. if b then from_iso value else none) f

  is_starved-IsStarved : (c : Candidate) → (is_starved from_iso now c ≡ true) ↔ IsStarved c
  unfolding waiting_time
  is_starved-IsStarved c =
      let at = starved_at (parse_timestamp from_iso c.entry.first_ready_at) in
      (
        λ h.
            let (t, since, waited) = at.0 h in
            elim (Bool-cases (truthy c.entry.first_ready_at)) [
              | inl named ↦ record {
                instant = t;
                stamped = named;
                since = sym (stamp_of c.entry.first_ready_at named) ∙ since;
                waited = waited;
              }
              | inr f ↦ cc (unstamped c.entry.first_ready_at f, since)
            ],
        λ s. at.1 (s.instant, stamp_of c.entry.first_ready_at s.stamped ∙ s.since, s.waited),
      )

  not-IsStarved : (c : Candidate) → is_starved from_iso now c ≡ false → ¬ IsStarved c
  not-IsStarved c f s = cc ((is_starved-IsStarved c).1 s, f)

  -- `c` may be chosen: the longest waiting of the starved candidates if there is one, and else the
  -- candidate with the highest score, ties broken by age, Session, role and position.
  pub record IsChoice (entries : List Readiness) (c : Candidate) : Type 0 where
    pub candidate : IsCandidate from_iso goals sessions acquired_roles session_id now entries c
    pub best :
        (IsStarved c
          × ((d : Candidate)
              → IsCandidate from_iso goals sessions acquired_roles session_id now entries d
              → IsStarved d
              → AtMost age_Order (age_key c) (age_key d)))
        ⊎ (((d : Candidate)
              → IsCandidate from_iso goals sessions acquired_roles session_id now entries d
              → ¬ IsStarved d)
            × ((d : Candidate)
                → IsCandidate from_iso goals sessions acquired_roles session_id now entries d
                → AtMost score_Order (score_key c) (score_key d)))

  pub pick-IsChoice :
      (entries : List Readiness) (stale : List ℕ) (c : Candidate) (cs : List Candidate)
      → ((d : Candidate)
          → In d (c ∷ cs)
            ↔ IsCandidate from_iso goals sessions acquired_roles session_id now entries d)
      → (d : Candidate) × (pick from_iso now stale (c ∷ cs)).readiness_index ≡ some d.index
        × (pick from_iso now stale (c ∷ cs)).scheduling_score ≡ some d.score
        × IsChoice entries d
  pick-IsChoice entries stale c cs known = split (keep_if (is_starved from_iso now) (c ∷ cs)) refl
    where
      split :
          (starved : List Candidate)
          → keep_if (is_starved from_iso now) (c ∷ cs) ≡ starved
          → (d : Candidate) × (pick from_iso now stale (c ∷ cs)).readiness_index ≡ some d.index
            × (pick from_iso now stale (c ∷ cs)).scheduling_score ≡ some d.score
            × IsChoice entries d
      split [] p = (
        min_from score_Order score_key c cs,
        rw p refl,
        rw p refl,
        record {
          candidate = (known _).0 (min_from-In score_Order score_key c cs);
          best = inr (
            (λ d m. not-IsStarved d (nobody d ((known d).1 m))),
            λ d m. min_from-AtMost score_Order score_key c cs d ((known d).1 m),
          );
        },
      )
        where
          nobody : (d : Candidate) → In d (c ∷ cs) → is_starved from_iso now d ≡ false
          nobody d m = elim (Bool-cases (is_starved from_iso now d)) [
            | inr f ↦ f
            | inl t ↦ absurd (rw p at (In-keep_if (is_starved from_iso now) (c ∷ cs) d m t))
          ]
      split (s ∷ ss) p = (
        min_from age_Order age_key s ss,
        rw p refl,
        rw p refl,
        let kept = λ (d : Candidate) (m : In d (s ∷ ss)).
              keep_if-In (is_starved from_iso now) (c ∷ cs) d (subst (λ l. In d l) (sym p) m) in
            let chosen = kept _ (min_from-In age_Order age_key s ss) in
            record {
              candidate = (known _).0 chosen.0;
              best = inl (
                (is_starved-IsStarved _).0 chosen.1,
                λ d m t. min_from-AtMost age_Order age_key s ss d (
                    subst (λ l. In d l) p
                      (In-keep_if (is_starved from_iso now) (c ∷ cs) d ((known d).1 m)
                        ((is_starved-IsStarved d).1 t))),
              );
            },
      )
