-- ===== src/Recovery/Idle.antt =====
-- What a restarted runtime leaves running: nothing.
use aize.Prelude.{
  ℕ, String, ◌≡◌, refl, sym, ap, ◌∙◌, subst, inl, inr, true, false, List, [], ◌∷◌, ◌==◌, string_Eq,
  Dict, has, values, In, Bool-cases, beq→ne, contains, keep_if,
}
use aize.Prelude.Lists.{In-map}
use aize.State.{Goal, Readiness, holds_lease, is_acquired}
use aize.Dispatch.{Run, Store}
use aize.Goals.{Held, current_goals}
use aize.Recovery.Live.{has-In, In-values, values-In, live_goals-AllNamed}
use aize.Recovery.{
  is_live, live_in, retire_run, retire_entry, map_values, stop_run, free_entry, is_running_in,
  interrupted_readiness_ids, recover_goal, recover_goals, taken_back, without_retired,
  record_runtime_recovery_signals,
}

-- Each lease and each acquired entry is of a Session of one of these goals.
abbrev IsOwned : List Goal → String → Type 0
IsOwned goals session_id = (goal : Goal) × In goal goals × (goal.session_id ≡ session_id)

record AreOwned (goals : List Goal) (store : Store) : Type 0 where
  runs :
      (run : Run)
      → In run (values store.dispatch_runs)
      → holds_lease run.lease_state ≡ true
      → IsOwned goals run.session_id
  entries :
      (e : Readiness)
      → In e store.dispatch_readiness
      → is_acquired e.status ≡ true
      → IsOwned goals e.session_id
  live : (goal : Goal) → In goal goals → is_live store.sessions goal ≡ true

-- No run holds a lease, and no entry is acquired.
pub record IsIdle (store : Store) : Type 0 where
  pub no_lease :
      (run : Run) → In run (values store.dispatch_runs) → holds_lease run.lease_state ≡ false
  pub no_entry : (e : Readiness) → In e store.dispatch_readiness → is_acquired e.status ≡ false

nothing_owned : (store : Store) → AreOwned [] store → IsIdle store
nothing_owned store owned = record {
  no_lease = λ run m. elim (Bool-cases (holds_lease run.lease_state)) [
    | inr f ↦ f
    | inl t ↦ absurd (owned.runs run m t).1
  ];
  no_entry = λ e m. elim (Bool-cases (is_acquired e.status)) [
    | inr f ↦ f
    | inl t ↦ absurd (owned.entries e m t).1
  ];
}

In-map_values :
    (f : Run → Run) (runs : Dict Run) (run : Run)
    → In run (values (map_values f runs))
    → (old : Run) × In old (values runs) × (f old ≡ run)
unfolding values map_values
In-map_values f [] run m = absurd m
In-map_values f ((key, r) ∷ runs) run (inl same) = (r, inl refl, same)
In-map_values f ((key, r) ∷ runs) run (inr m) =
    let (old, n, same) = In-map_values f runs run m in (old, inr n, same)

others :
    (goal : Goal) (goals : List Goal) (session_id : String)
    → (session_id == goal.session_id) ≡ false
    → IsOwned (goal ∷ goals) session_id
    → IsOwned goals session_id
others goal goals sid apart (g, inl same, own) =
    absurd (beq→ne sid goal.session_id apart (sym (ap (λ (x : Goal). x.session_id) same ∙ own)))
others goal goals sid apart (g, inr m, own) = (g, m, own)

stopped :
    (sid now : String) (old : Run)
    → holds_lease (stop_run sid now old).lease_state ≡ true
    → (stop_run sid now old ≡ old) × ((old.session_id == sid) ≡ false)
stopped sid now old h = elim (Bool-cases (old.session_id == sid)) [
  | inr f ↦ (rw f refl, f)
  | inl t ↦ elim (Bool-cases (holds_lease old.lease_state)) [
    | inl k ↦ cc (rw (t, k) at h)
    | inr k ↦ cc (rw (t, k) at h, k)
  ]
]

freed :
    (sid : String) (ids : List String) (now : String) (old : Readiness)
    → is_acquired (free_entry sid ids now old).status ≡ true
    → (free_entry sid ids now old ≡ old) × ((old.session_id == sid) ≡ false)
freed sid ids now old h = elim (Bool-cases (old.session_id == sid)) [
  | inr f ↦ (rw f refl, f)
  | inl t ↦ elim (Bool-cases (is_acquired old.status)) [
    | inl k ↦ elim (Bool-cases (contains old.readiness_id ids)) [
      | inl c ↦ cc (rw (t, k, c) at h)
      | inr c ↦ cc (rw (t, k, c) at h)
    ]
    | inr k ↦ cc (rw (t, k) at h, k)
  ]
]

module _ (persisted : String → ℕ) (log_id : String → String → String)
    (signal_id : String → String) where
  taken_back-AreOwned :
      (now : String) (store : Store) (goal : Goal) (goals : List Goal) (running : List Run)
      → AreOwned (goal ∷ goals) store
      → AreOwned goals (taken_back persisted log_id signal_id now store goal.session_id running)
  taken_back-AreOwned now store goal goals running owned = record {
    runs = λ run m h.
        let (old, n, same) =
          In-map_values (stop_run goal.session_id now) store.dispatch_runs run m in
        run_owned old run same n h;
    entries = λ e m h.
        let (old, n, same) =
          In-map (free_entry goal.session_id (interrupted_readiness_ids running) now)
            store.dispatch_readiness e m in
        entry_owned old e same n h;
    live = λ g m. owned.live g (inr m);
  }
    where
      run_owned :
          (old run : Run)
          → stop_run goal.session_id now old ≡ run
          → In old (values store.dispatch_runs)
          → holds_lease run.lease_state ≡ true
          → IsOwned goals run.session_id
      run_owned old run same n h =
          let (kept, apart) =
            stopped goal.session_id now old
              (ap (λ (r : Run). holds_lease r.lease_state) same ∙ h) in
          subst (λ (r : Run). IsOwned goals r.session_id) (sym kept ∙ same)
            (others goal goals old.session_id apart (
              owned.runs old n (ap (λ (r : Run). holds_lease r.lease_state) (sym kept ∙ same) ∙ h)))

      entry_owned :
          (old e : Readiness)
          → free_entry goal.session_id (interrupted_readiness_ids running) now old ≡ e
          → In old store.dispatch_readiness
          → is_acquired e.status ≡ true
          → IsOwned goals e.session_id
      entry_owned old e same n h =
          let (kept, apart) =
            freed goal.session_id (interrupted_readiness_ids running) now old
              (ap (λ (r : Readiness). is_acquired r.status) same ∙ h) in
          subst (λ (r : Readiness). IsOwned goals r.session_id) (sym kept ∙ same)
            (others goal goals old.session_id apart (
              owned.entries old n
                (ap (λ (r : Readiness). is_acquired r.status) (sym kept ∙ same) ∙ h)))

  recover_goals-AreOwned :
      (now : String) (store : Store) (goals : List Goal)
      → AreOwned goals store
      → AreOwned [] (recover_goals persisted log_id signal_id now store goals)
  unfolding recover_goals
  recover_goals-AreOwned now store [] owned = owned
  recover_goals-AreOwned now store (goal ∷ goals) owned =
      recover_goals-AreOwned now (recover_goal persisted log_id signal_id now store goal) goals (
        rw (owned.live goal (inl refl)) (
          taken_back-AreOwned now store goal goals
            (keep_if (is_running_in goal.session_id) (values store.dispatch_runs)) owned))

  -- The names of the goals and the Sessions of these runs and entries agree.
  abbrev pub IsAgreeing : Store → String → String → Type 0
  IsAgreeing store goal_id session_id =
      (h : Held)
      → In h (current_goals store.goals)
      → h.1.goal_id ≡ goal_id
      → h.1.session_id ≡ session_id

  owner :
      (store : Store) (goal_id session_id : String)
      → IsAgreeing store goal_id session_id
      → has (live_in persisted log_id signal_id store) goal_id ≡ true
      → IsOwned (values (live_in persisted log_id signal_id store)) session_id
  owner store goal_id session_id agrees h =
      let (goal, m) = has-In (live_in persisted log_id signal_id store) goal_id h in
      let (named, _, (held, at, same)) =
        live_goals-AllNamed store.sessions (current_goals store.goals) (current_goals store.goals)
          [] (λ k n. n) (λ p n. absurd n) (goal_id, goal) m in
      (
        goal,
        In-values (live_in persisted log_id signal_id store) (goal_id, goal) m,
        ap (λ (x : Goal). x.session_id) (sym same)
            ∙ agrees held at (ap (λ (x : Goal). x.goal_id) same ∙ named),
      )

  retired_run :
      (goals : Dict Goal) (now : String) (old run : Run)
      → retire_run goals now old ≡ run
      → holds_lease run.lease_state ≡ true
      → (old ≡ run) × (has goals old.goal_id ≡ true)
  retired_run goals now old run same h = elim (Bool-cases (has goals old.goal_id)) [
    | inl t ↦ (
      elim (Bool-cases (holds_lease old.lease_state)) [
        | inl k ↦ rw (t, k) at same
        | inr k ↦ rw k at same
      ],
      t,
    )
    | inr f ↦ elim (Bool-cases (holds_lease old.lease_state)) [
      | inl k ↦ cc (ap (λ (r : Run). holds_lease r.lease_state) (rw (f, k) at same), h)
      | inr k ↦ cc (ap (λ (r : Run). holds_lease r.lease_state) (rw k at same), h, k)
    ]
  ]

  retired_entry :
      (goals : Dict Goal) (now : String) (old e : Readiness)
      → retire_entry goals now old ≡ e
      → is_acquired e.status ≡ true
      → (old ≡ e) × (has goals old.goal_id ≡ true)
  retired_entry goals now old e same h = elim (Bool-cases (has goals old.goal_id)) [
    | inl t ↦ (
      elim (Bool-cases (is_acquired old.status)) [
        | inl k ↦ rw (t, k) at same
        | inr k ↦ rw k at same
      ],
      t,
    )
    | inr f ↦ elim (Bool-cases (is_acquired old.status)) [
      | inl k ↦ cc (ap (λ (r : Readiness). is_acquired r.status) (rw (f, k) at same), h)
      | inr k ↦ cc (ap (λ (r : Readiness). is_acquired r.status) (rw k at same), h, k)
    ]
  ]

  without_retired-AreOwned :
      (now : String) (store : Store)
      → ((run : Run)
          → In run (values store.dispatch_runs)
          → holds_lease run.lease_state ≡ true
          → IsAgreeing store run.goal_id run.session_id)
      → ((e : Readiness)
          → In e store.dispatch_readiness
          → is_acquired e.status ≡ true
          → IsAgreeing store e.goal_id e.session_id)
      → AreOwned (values (live_in persisted log_id signal_id store)) (
          without_retired persisted log_id signal_id now
            (live_in persisted log_id signal_id store)
            store)
  without_retired-AreOwned now store runs_agree entries_agree = record {
    runs = λ run m h.
        let (old, n, same) =
          In-map_values (retire_run (live_in persisted log_id signal_id store) now)
            store.dispatch_runs run m in
        let (kept, there) = retired_run _ now old run same h in
        subst
          (λ (r : Run). IsOwned (values (live_in persisted log_id signal_id store)) r.session_id)
          kept
          (owner store old.goal_id old.session_id
            (runs_agree old n (ap (λ (r : Run). holds_lease r.lease_state) kept ∙ h)) there);
    entries = λ e m h.
        let (old, n, same) =
          In-map (retire_entry (live_in persisted log_id signal_id store) now)
            store.dispatch_readiness e m in
        let (kept, there) = retired_entry _ now old e same h in
        subst
          (λ (r : Readiness).
            IsOwned (values (live_in persisted log_id signal_id store)) r.session_id)
          kept
          (owner store old.goal_id old.session_id
            (entries_agree old n (ap (λ (r : Readiness). is_acquired r.status) kept ∙ h)) there);
    live = λ goal m.
        let (key, n) = values-In (live_in persisted log_id signal_id store) goal m in
        (live_goals-AllNamed store.sessions (current_goals store.goals) (current_goals store.goals)
          [] (λ k o. o) (λ p o. absurd o) (key, goal) n).1;
  }

  -- `record_runtime_recovery_signals` leaves no run with a lease and no readiness entry acquired: the
  -- restarted runtime starts with no work in hand. The leased runs and the acquired entries that name
  -- a current goal name its Session as well.
  pub record_runtime_recovery_signals-IsIdle :
      (now : String) (store : Store)
      → ((run : Run)
          → In run (values store.dispatch_runs)
          → holds_lease run.lease_state ≡ true
          → IsAgreeing store run.goal_id run.session_id)
      → ((e : Readiness)
          → In e store.dispatch_readiness
          → is_acquired e.status ≡ true
          → IsAgreeing store e.goal_id e.session_id)
      → IsIdle (record_runtime_recovery_signals persisted log_id signal_id now store)
  unfolding record_runtime_recovery_signals
  record_runtime_recovery_signals-IsIdle now store runs_agree entries_agree = nothing_owned _ (
      recover_goals-AreOwned now
        (without_retired persisted log_id signal_id now (live_in persisted log_id signal_id store)
          store)
        (values (live_in persisted log_id signal_id store))
        (without_retired-AreOwned now store runs_agree entries_agree))
