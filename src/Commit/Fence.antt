-- ===== src/Commit/Fence.antt =====
-- What the fence lets through.
use aize.Prelude.{
  ℕ, ◌≤◌, ◌<◌, String, ◌≡◌, refl, ap, ◌∙◌, sym, subst, ◌↔◌, inl, inr, Bool, true, false, not,
  Option, none, some, List, [], ◌∷◌, arith, ◌==◌, string_Eq, leb, ltb, get, In, keep_if, keep_if-In,
  In-keep_if, Bool-cases, Option-cases, beq→eq, beq_refl,
}
use mathlib.Core.Option.{some-injective}
use aize.State.{LogEntry, holds_lease, Goal}
use aize.SessionLog.{Logs, log_of, last_seq, latest_session_log_seq, session_log_after_cursor}
use aize.SessionLog.Cursor.{Rising, Rising-last}
use aize.Dispatch.{Run, Store}
use aize.Commit.Calm.{IsCalm, entry_conflict-IsCalm}
use aize.Commit.{
  entry_conflict, first_conflict, or_else, conflicts, new_requirement_conflicts_after_window,
  goal_fence, requirement, is_body_changed, stale_dispatch_fence, Conflict,
}

-- No entry of the Session's log behind the run's window is a new requirement.
abbrev pub IsQuiet : Logs → String → String → Option ℕ → Type 0
IsQuiet logs session_id run_id window =
    (observed : ℕ) (e : LogEntry)
    → window ≡ some observed
    → In e (log_of logs session_id)
    → observed < e.seq
    → IsCalm run_id e

-- A run whose result may be used.
pub record IsCurrent (store : Store) (run : Run) (slot : String) : Type 0 where
  pub role : run.role ≡ slot
  pub held : holds_lease run.lease_state ≡ true
  pub goal : Goal
  pub found : get store.goals run.goal_id ≡ some goal
  pub body : (b : String) → run.observed_goal_body ≡ some b → goal.body ≡ b
  pub quiet : IsQuiet store.session_logs run.session_id run.run_id run.observed_to_seq

or_else-none : (a b : Option Conflict) → or_else a b ≡ none → (a ≡ none) × (b ≡ none)
or_else-none none b h = (refl, h)
or_else-none (some c) b h = cc

first_conflict-none :
    (run_id : String) (es : List LogEntry)
    → (first_conflict run_id es ≡ none)
      ↔ ((e : LogEntry) → In e es → entry_conflict run_id e ≡ none)
unfolding first_conflict
first_conflict-none run_id [] = (λ h e m. absurd m, λ h. refl)
first_conflict-none run_id (d ∷ es) = (
  λ h e m.
      let both = or_else-none (entry_conflict run_id d) (first_conflict run_id es) h in
      elim m [
        | inl same ↦ ap (entry_conflict run_id) (sym same) ∙ both.0
        | inr later ↦ (first_conflict-none run_id es).0 both.1 e later
      ],
  λ h.
      ap (λ c. or_else c (first_conflict run_id es)) (h d (inl refl))
      ∙ (first_conflict-none run_id es).1 (λ e m. h e (inr m)),
)

In-last_seq :
    (n : ℕ) (es : List LogEntry) (e : LogEntry) → Rising n es → In e es → e.seq ≤ last_seq es
unfolding last_seq
In-last_seq n [] e r m = absurd m
In-last_seq n (d ∷ []) e r (inl same) = subst (λ x. x.seq ≤ d.seq) same (omega arith)
In-last_seq n (d ∷ []) e r (inr m) = absurd m
In-last_seq n (d ∷ f ∷ es) e r (inl same) =
    subst (λ x. x.seq ≤ last_seq (f ∷ es)) same (omega (arith, Rising-last d.seq f es r.1))
In-last_seq n (d ∷ f ∷ es) e r (inr m) = In-last_seq d.seq (f ∷ es) e r.1 m

leb_le : (a b : ℕ) → leb a b ≡ true → a ≤ b
leb_le a b h = ground arith

lt_ltb : (a b : ℕ) → a < b → ltb a b ≡ true
lt_ltb a b h = ground arith

ltb_lt : (a b : ℕ) → ltb a b ≡ true → a < b
ltb_lt a b h = ground arith

module _ (persisted : String → ℕ) where
  -- `_new_requirement_conflicts_after_window`, for any run id and window
  pub conflicts-IsQuiet :
      (logs : Logs) (session_id run_id : String) (o : Option ℕ)
      → Rising 0 (log_of logs session_id)
      → (conflicts persisted logs session_id run_id o ≡ none) ↔ IsQuiet logs session_id run_id o
  unfolding latest_session_log_seq session_log_after_cursor
  conflicts-IsQuiet logs session_id run_id none r = (λ h o e seen m l. cc, λ h. refl)
  conflicts-IsQuiet logs session_id run_id (some observed) r =
      elim (Bool-cases (leb (latest_session_log_seq persisted logs session_id) observed)) [
        | inl t ↦ (
          λ h o e seen m l. absurd (
              omega (
                arith,
                some-injective _ _ seen,
                l,
                leb_le _ _ t,
                In-last_seq 0 (log_of logs session_id) e r m,
              )),
          λ h. rw t refl,
        )
        | inr f ↦ (
          λ h o e seen m l. (entry_conflict-IsCalm run_id e).0 (
              (first_conflict-none run_id (unread observed)).0 (rw f at h) e (
                In-keep_if (λ (x : LogEntry). ltb observed x.seq) (log_of logs session_id) e m
                  (lt_ltb observed e.seq
                    (subst (λ n. n < e.seq) (sym (some-injective _ _ seen)) l)))),
          λ h. rw f (
              (first_conflict-none run_id (unread observed)).1 (λ e m.
                let k =
                  keep_if-In (λ (x : LogEntry). ltb observed x.seq) (log_of logs session_id) e m in
                (entry_conflict-IsCalm run_id e).1
                  (h observed e refl k.0 (ltb_lt observed e.seq k.1)))),
        )
      ]
    where
      unread : ℕ → List LogEntry
      unread observed = keep_if (λ (x : LogEntry). ltb observed x.seq) (log_of logs session_id)

  pub body_same :
      (goal : Goal) (o : Option String)
      → is_body_changed persisted goal o ≡ false ↔ ((b : String) → o ≡ some b → goal.body ≡ b)
  body_same goal none = (λ h b e. cc, λ h. refl)
  body_same goal (some body) = (
    λ h b e. beq→eq goal.body body (not-false h) ∙ some-injective _ _ e,
    λ h. rw (h body refl, beq_refl body) refl,
  )
    where
      not-false : {b : Bool} → not b ≡ false → b ≡ true
      not-false h = ground arith

  requirement-none : (c : Option Conflict) → requirement persisted c ≡ none → c ≡ none
  requirement-none none h = refl
  requirement-none (some c) h = cc

  goal_fence-none :
      (store : Store) (run : Run) (goal : Goal)
      → Rising 0 (log_of store.session_logs run.session_id)
      → (goal_fence persisted store run (some goal) ≡ none) ↔ (
          ((b : String) → run.observed_goal_body ≡ some b → goal.body ≡ b)
          × IsQuiet store.session_logs run.session_id run.run_id run.observed_to_seq)
  unfolding new_requirement_conflicts_after_window
  goal_fence-none store run goal r =
      let quiet =
        conflicts-IsQuiet store.session_logs run.session_id run.run_id run.observed_to_seq r in
      elim (Bool-cases (is_body_changed persisted goal run.observed_goal_body)) [
        | inl t ↦ (λ h. cc (rw t at h), λ h. cc (t, (body_same goal run.observed_goal_body).1 h.0))
        | inr f ↦ (
          λ h. (
            (body_same goal run.observed_goal_body).0 f,
            quiet.0 (requirement-none _ (rw f at h)),
          ),
          λ h. rw f (ap (requirement persisted) (quiet.1 h.1)),
        )
      ]

  not-true : {b : Bool} → not b ≡ false → b ≡ true
  not-true h = ground arith

  -- `_stale_dispatch_fence_locked` lets a result through exactly when the run holds the lease of that
  -- role, its goal is there with the observed body, and no other run's requirement came after the
  -- window that the run observed. The numbers of the Session's log rise.
  pub stale_dispatch_fence-IsCurrent :
      (store : Store) (run : Run) (slot : String)
      → Rising 0 (log_of store.session_logs run.session_id)
      → (stale_dispatch_fence persisted store run slot ≡ none) ↔ IsCurrent store run slot
  unfolding stale_dispatch_fence new_requirement_conflicts_after_window
  stale_dispatch_fence-IsCurrent store run slot r = (
    λ h. elim (Bool-cases (not (run.role == slot))) [
      | inl t ↦ cc (rw t at h)
      | inr same ↦ elim (Bool-cases (not (holds_lease run.lease_state))) [
        | inl t ↦ cc (rw (same, t) at h)
        | inr held ↦
            let h' : goal_fence persisted store run (get store.goals run.goal_id) ≡ none =
              rw (same, held) at h in
            elim (Option-cases (get store.goals run.goal_id)) [
              | inl absent ↦ cc (ap (goal_fence persisted store run) absent, h')
              | inr (goal, found) ↦
                  let both =
                    (goal_fence-none store run goal r).0
                      (sym (ap (goal_fence persisted store run) found) ∙ h') in
                  record {
                    role = beq→eq run.role slot (not-true same);
                    held = not-true held;
                    goal = goal;
                    found = found;
                    body = both.0;
                    quiet = both.1;
                  }
            ]
      ]
    ],
    λ c.
        let same : (run.role == slot) ≡ true = rw c.role (beq_refl slot) in
        rw (same, c.held)
          (ap (goal_fence persisted store run) c.found
            ∙ (goal_fence-none store run c.goal r).1 (c.body, c.quiet)),
  )
