-- ===== src/Policy/Decision.antt =====
-- What `select_role_dispatch_readiness` decides.
use aize.Prelude.{
  ℕ, String, ◌≡◌, refl, sym, subst, ◌↔◌, ◌⊎◌, inl, inr, Option, none, some, List, [], ◌∷◌, Dict,
  arith, In, get_elem?, keep_if,
}
use aize.Prelude.Minimum.{min_from}
use aize.State.{Readiness, Goal, Session}
use aize.Policy.{
  Candidate, SchedulingDecision, select_role_dispatch_readiness, score_key, score_Order, is_starved,
  pick, pick_starved, decide_scored,
}
use aize.Policy.Eligible.{IsOffered, GoalIsLive, judge-outdated}
use aize.Policy.Candidates.{IsCandidate, scanned, scan-IsCandidate, scan_stale, stale_scan}
use aize.Policy.Choice.{IsChoice, pick-IsChoice}

module _ (from_iso : String → Option ℕ) (goals : Dict Goal) (sessions : Dict Session)
    (acquired_roles : List (String × String)) (session_id : String) (now : ℕ) where
  abbrev pub select : List Readiness → SchedulingDecision
  select = select_role_dispatch_readiness from_iso goals sessions acquired_roles session_id now

  -- What `select_role_dispatch_readiness` decides.
  pub record IsDecision (entries : List Readiness) (d : SchedulingDecision) : Type 0 where
    -- It names no entry exactly when there is no candidate; else a right choice with its score.
    pub chosen :
        ((d.readiness_index ≡ none)
          × ((c : Candidate)
              → ¬ IsCandidate from_iso goals sessions acquired_roles session_id now entries c))
        ⊎ ((c : Candidate) × (d.readiness_index ≡ some c.index)
            × (d.scheduling_score ≡ some c.score)
            × IsChoice from_iso goals sessions acquired_roles session_id now entries c)
    -- Its stale indexes are those of the offered entries whose goal is not live.
    pub stale :
        (j : ℕ)
        → In j d.stale_indexes ↔ (
            (e : Readiness) × (get_elem? entries j ≡ some e)
            × IsOffered from_iso goals sessions acquired_roles session_id now e
            × (¬ GoalIsLive from_iso goals sessions acquired_roles session_id now e))

  pick_stale :
      (stale : List ℕ) (cs : List Candidate) → (pick from_iso now stale cs).stale_indexes ≡ stale
  pick_stale stale [] = refl
  pick_stale stale (c ∷ cs) = split (keep_if (is_starved from_iso now) (c ∷ cs))
    where
      split :
          (starved : List Candidate)
          → (pick_starved from_iso stale starved
              (decide_scored stale (min_from score_Order score_key c cs))).stale_indexes
            ≡ stale
      split [] = refl
      split (s ∷ ss) = refl

  -- `select_role_dispatch_readiness` names no entry exactly when there is no candidate (an offered
  -- ready entry of a live goal, whose Session is active and whose role holds no lease). Otherwise it
  -- names the oldest starved candidate, or the candidate of greatest score when none is starved, with
  -- ties broken by age, Session, role and index. Its stale indexes are exactly those of the offered
  -- entries whose goal is not live.
  pub select-IsDecision : (entries : List Readiness) → IsDecision entries (select entries)
  unfolding select_role_dispatch_readiness
  select-IsDecision entries = record {
    chosen = split (scanned from_iso goals sessions acquired_roles session_id now 0 entries).0 refl;
    stale = λ j.
        stale_of (scanned from_iso goals sessions acquired_roles session_id now 0 entries) refl j;
  }
    where
      stale_of :
          (r : List Candidate × List ℕ)
          → scanned from_iso goals sessions acquired_roles session_id now 0 entries ≡ r
          → (j : ℕ)
          → In j (pick from_iso now r.1 r.0).stale_indexes ↔ (
              (e : Readiness) × (get_elem? entries j ≡ some e)
              × IsOffered from_iso goals sessions acquired_roles session_id now e
              × (¬ GoalIsLive from_iso goals sessions acquired_roles session_id now e))
      stale_of r p j = (
        λ m.
            let (k, e, at, found, o) =
              scan_stale from_iso goals sessions acquired_roles session_id now 0 entries j
                (subst (λ q. In j q.1) (sym p) (subst (λ l. In j l) (pick_stale r.1 r.0) m)) in
            let same : j ≡ k = omega (arith, at) in
            let both =
              (judge-outdated from_iso goals sessions acquired_roles session_id now e).0 o in
            (e, subst (λ n. get_elem? entries n ≡ some e) (sym same) found, both.0, both.1),
        λ h.
            let (e, found, offered, dead) = h in
            subst (λ l. In j l) (sym (pick_stale r.1 r.0))
              (subst (λ q. In j q.1) p
                (subst
                  (λ n.
                    In n
                      (scanned from_iso goals sessions acquired_roles session_id now 0 entries).1)
                  (omega arith)
                  (stale_scan from_iso goals sessions acquired_roles session_id now 0 j entries e
                    found
                    ((judge-outdated from_iso goals sessions acquired_roles session_id now e).1
                      (offered, dead))))),
      )

      split :
          (cs : List Candidate)
          → (scanned from_iso goals sessions acquired_roles session_id now 0 entries).0 ≡ cs
          → (((select entries).readiness_index ≡ none)
              × ((c : Candidate)
                  → ¬ IsCandidate from_iso goals sessions acquired_roles session_id now entries c))
            ⊎ ((c : Candidate) × ((select entries).readiness_index ≡ some c.index)
                × ((select entries).scheduling_score ≡ some c.score)
                × IsChoice from_iso goals sessions acquired_roles session_id now entries c)
      split [] p = inl (
        rw p refl,
        λ c m. rw p at (
            (scan-IsCandidate from_iso goals sessions acquired_roles session_id now entries c).1 m),
      )
      split (c ∷ cs) p = inr (
          rw p (
            pick-IsChoice from_iso goals sessions acquired_roles session_id now entries _ c cs (λ d.
              subst
                (λ l.
                  In d l
                  ↔ IsCandidate from_iso goals sessions acquired_roles session_id now entries d)
                p
                (scan-IsCandidate from_iso goals sessions acquired_roles session_id now entries
                  d))))
