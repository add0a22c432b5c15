-- ===== src/Policy/Candidates.antt =====
-- The candidates and stale entries that the loop of `select_role_dispatch_readiness` collects.
use mathlib.Core.Path.{ap₂}
use aize.Prelude.{
  ℕ, zero, suc, ◌+◌, String, ◌≡◌, refl, sym, ◌∙◌, ap, subst, ◌↔◌, ◌⊎◌, inl, inr, Option, some, List,
  [], ◌∷◌, Dict, arith, In, get_elem?,
}
use aize.State.{Readiness, Goal, Session}
use aize.Policy.{Verdict, skipped, outdated, eligible, Candidate, scan, add_verdict}
use aize.Policy.Eligible.{
  verdict, IsOffered, GoalIsLive, SlotIsFree, IsScored, judge-eligible, eligible-judge,
}

module _ (from_iso : String → Option ℕ) (goals : Dict Goal) (sessions : Dict Session)
    (acquired_roles : List (String × String)) (session_id : String) (now : ℕ) where
  abbrev pub judged : Readiness → Verdict
  judged = verdict from_iso goals sessions acquired_roles session_id now

  abbrev pub scanned : ℕ → List Readiness → List Candidate × List ℕ
  scanned = scan from_iso goals sessions acquired_roles session_id now

  -- The candidate stands in the list `k` places behind index `i`.
  abbrev StandsAt : ℕ → List Readiness → Candidate → Type 0
  StandsAt i es c =
      (k : ℕ) × (c.index ≡ i + k)
      × (get_elem? es k ≡ some c.entry)
      × (judged c.entry ≡ eligible c.score c.reason)

  scan_cases :
      (i : ℕ) (e : Readiness) (es : List Readiness) (c : Candidate)
      → In c (scanned i (e ∷ es)).0
      → ((c.index ≡ i) × (c.entry ≡ e) × (judged e ≡ eligible c.score c.reason))
        ⊎ In c (scanned (suc i) es).0
  unfolding scan
  scan_cases i e es c h = split (judged e) refl h
    where
      split :
          (v : Verdict)
          → judged e ≡ v
          → In c (scanned i (e ∷ es)).0
          → ((c.index ≡ i) × (c.entry ≡ e) × (judged e ≡ eligible c.score c.reason))
            ⊎ In c (scanned (suc i) es).0
      split skipped p m = inr (rw p at m)
      split outdated p m = inr (rw p at m)
      split (eligible score reason) p m = elim (rw p at m) [
        | inl same ↦ inl (
          ap (λ x. x.index) (sym same),
          ap (λ x. x.entry) (sym same),
          p ∙ ap₂ eligible (ap (λ x. x.score) same) (ap (λ x. x.reason) same),
        )
        | inr later ↦ inr later
      ]

  scan-StandsAt :
      (i : ℕ) (es : List Readiness) (c : Candidate) → In c (scanned i es).0 → StandsAt i es c
  unfolding scan
  scan-StandsAt i [] c h = absurd h
  scan-StandsAt i (e ∷ es) c h = elim (scan_cases i e es c h) [
    | inl (p, q, r) ↦ (0, omega (arith, p), ap some (sym q), ap judged q ∙ r)
    | inr m ↦ let (k, p, q, r) = scan-StandsAt (suc i) es c m in (suc k, omega (arith, p), q, r)
  ]

  In-add_verdict :
      (i : ℕ) (e : Readiness) (v : Verdict) (acc : List Candidate × List ℕ) (c : Candidate)
      → In c acc.0
      → In c (add_verdict i e v acc).0
  In-add_verdict i e skipped acc c m = m
  In-add_verdict i e outdated acc c m = m
  In-add_verdict i e (eligible s r) acc c m = inr m

  StandsAt-scan :
      (i k : ℕ) (es : List Readiness) (c : Candidate)
      → c.index ≡ i + k
      → get_elem? es k ≡ some c.entry
      → judged c.entry ≡ eligible c.score c.reason
      → In c (scanned i es).0
  unfolding scan
  StandsAt-scan i k [] c p q r = cc
  StandsAt-scan i zero (e ∷ es) c p q r =
      let same : e ≡ c.entry = cc in rw (ap judged same ∙ r) (inl (ground (arith, same, p)))
  StandsAt-scan i (suc k) (e ∷ es) c p q r =
      In-add_verdict i e (judged e) (scanned (suc i) es) c
        (StandsAt-scan (suc i) k es c (omega (arith, p)) q r)

  -- The entry at the candidate's index is the candidate's. It is offered, its goal is live, its slot is
  -- free, and the score is that of its Session and role.
  pub record IsCandidate (entries : List Readiness) (c : Candidate) : Type 0 where
    pub stands : get_elem? entries c.index ≡ some c.entry
    pub offered : IsOffered from_iso goals sessions acquired_roles session_id now c.entry
    pub live : GoalIsLive from_iso goals sessions acquired_roles session_id now c.entry
    pub free : SlotIsFree from_iso goals sessions acquired_roles session_id now c.entry
    pub scored :
        IsScored from_iso goals sessions acquired_roles session_id now c.entry free c.score c.reason

  candidate_of :
      (entries : List Readiness) (c : Candidate)
      → get_elem? entries c.index ≡ some c.entry
      → judged c.entry ≡ eligible c.score c.reason
      → IsCandidate entries c
  candidate_of entries c stands h =
      let (offered, live, (free, scored)) =
        judge-eligible from_iso goals sessions acquired_roles session_id now c.entry h in
      record { stands = stands; offered = offered; live = live; free = free; scored = scored }

  IsCandidate-judged :
      (entries : List Readiness) (c : Candidate)
      → IsCandidate entries c
      → judged c.entry ≡ eligible c.score c.reason
  IsCandidate-judged entries c h =
      eligible-judge from_iso goals sessions acquired_roles session_id now c.entry h.offered h.live
        h.free
      ∙ ap₂ eligible h.scored.0 h.scored.1

  pub scan-IsCandidate :
      (entries : List Readiness) (c : Candidate)
      → In c (scanned 0 entries).0 ↔ IsCandidate entries c
  scan-IsCandidate entries c = (
    λ m.
        let (k, p, q, r) = scan-StandsAt 0 entries c m in
        let at : c.index ≡ k = omega (arith, p) in candidate_of entries c (rw at q) r,
    λ h. StandsAt-scan 0 c.index entries c (omega arith) h.stands (IsCandidate-judged entries c h),
  )

  add_verdict_stale :
      (i : ℕ) (e : Readiness) (v : Verdict) (acc : List Candidate × List ℕ) (j : ℕ)
      → In j (add_verdict i e v acc).1 ↔ (((i ≡ j) × (v ≡ outdated)) ⊎ In j acc.1)
  add_verdict_stale i e skipped acc j = (λ m. inr m, λ h. ground arith)
  add_verdict_stale i e (eligible s r) acc j = (λ m. inr m, λ h. ground arith)
  add_verdict_stale i e outdated acc j = (
    λ m. elim m [ inl same ↦ inl (same, refl) | inr later ↦ inr later ],
    λ h. elim h [ inl same ↦ inl same.0 | inr later ↦ inr later ],
  )

  -- The stale indexes are the positions of the entries that the loop finds outdated.
  pub scan_stale :
      (i : ℕ) (es : List Readiness) (j : ℕ)
      → In j (scanned i es).1
      → (k : ℕ) × (e : Readiness) × (j ≡ i + k) × (get_elem? es k ≡ some e) × (judged e ≡ outdated)
  unfolding scan
  scan_stale i [] j h = absurd h
  scan_stale i (e ∷ es) j h = elim ((add_verdict_stale i e (judged e) (scanned (suc i) es) j).0 h) [
    | inl now_stale ↦ (0, e, omega (arith, now_stale.0), refl, now_stale.1)
    | inr later ↦
        let (k, d, p, q, r) = scan_stale (suc i) es j later in (suc k, d, omega (arith, p), q, r)
  ]

  pub stale_scan :
      (i k : ℕ) (es : List Readiness) (e : Readiness)
      → get_elem? es k ≡ some e
      → judged e ≡ outdated
      → In (i + k) (scanned i es).1
  unfolding scan
  stale_scan i k [] e q r = cc
  stale_scan i zero (d ∷ es) e q r =
      let same : d ≡ e = cc in
      (add_verdict_stale i d (judged d) (scanned (suc i) es) (i + 0)).1
        (inl (omega arith, ap judged same ∙ r))
  stale_scan i (suc k) (d ∷ es) e q r =
      (add_verdict_stale i d (judged d) (scanned (suc i) es) (i + suc k)).1 (
        inr
          (subst (λ n. In n (scanned (suc i) es).1) (omega arith) (stale_scan (suc i) k es e q r)))
