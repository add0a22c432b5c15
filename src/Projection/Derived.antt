-- ===== src/Projection/Derived.antt =====
-- The result of `derive_role_dispatch_readiness`.
use aize.Prelude.{
  ◌≤◌, String, ◌≡◌, refl, sym, ap, subst, ◌↔◌, ◌⊎◌, inl, inr, Bool, Option, none, some, List, [],
  ◌∷◌, arith, In, Option-cases,
}
use aize.State.{WakeReason}
use aize.Projection.{
  DispatchLogItem, RoleDispatchReadiness, collect, wake_reason, window, sort_by_seq, delay_of,
  min_seq, max_seq, derive_role_dispatch_readiness,
}
use aize.Projection.Sorting.{Sorted, sort-Sorted, In-sort, collect-In, In-collect}
use aize.Projection.Window.{
  LeastSeq, GreatestSeq, DelayOf, DelayOf-In, min_seq-LeastSeq, max_seq-GreatestSeq,
  delay_of-DelayOf,
}
use aize.Projection.Waking.{wake_reason-IsAbout}

module _ (role session_id : String) (active_worker : Bool) where
  abbrev pub wakes : DispatchLogItem → Option WakeReason
  wakes = wake_reason role session_id active_worker

  -- What a readiness that is derived from `items` says of them.
  pub record Describes (items : List DispatchLogItem) (r : RoleDispatchReadiness) : Type 0 where
    -- The window runs from the least to the greatest sequence number of the unread entries.
    pub from : LeastSeq r.from_log_seq items
    pub to : GreatestSeq r.observed_to_seq items
    -- The reasons are those of the entries that wake the role, by increasing sequence number, and
    -- each lies in the window.
    pub reasons :
        (w : WakeReason)
        → In w r.wake_reasons ↔ ((item : DispatchLogItem) × In item items × (wakes item ≡ some w))
    pub sorted : Sorted r.wake_reasons
    pub covered :
        (w : WakeReason)
        → In w r.wake_reasons
        → (r.from_log_seq ≤ w.seq) × (w.seq ≤ r.observed_to_seq)
    -- The delay is that of the earliest reason if all are delayed, and else there is none.
    pub delay : DelayOf r.available_after r.wake_reasons

  window-Describes :
      (item : DispatchLogItem) (items : List DispatchLogItem) (w : WakeReason)
      (ws : List WakeReason)
      → collect wakes (item ∷ items) ≡ w ∷ ws
      → Describes (item ∷ items) (record {
        from_log_seq = min_seq item items;
        observed_to_seq = max_seq item items;
        wake_reasons = sort_by_seq (w ∷ ws);
        available_after = delay_of (w ∷ ws);
      })
  window-Describes item items w ws e = record {
    from = min_seq-LeastSeq item items;
    to = max_seq-GreatestSeq item items;
    reasons = λ v. (
      source v,
      λ s.
          (In-sort v (w ∷ ws)).1
            (subst (λ l. In v l) e (In-collect wakes v (item ∷ items) s.0 s.1 s.2)),
    );
    sorted = sort-Sorted (w ∷ ws);
    covered = λ v m.
        let (x, there, woke) = source v m in
        let about = wake_reason-IsAbout x v role session_id active_worker woke in
        (
          omega (arith, (min_seq-LeastSeq item items).0 x there, about.0),
          omega (arith, (max_seq-GreatestSeq item items).0 x there, about.0),
        );
    delay =
        DelayOf-In _ (w ∷ ws) (sort_by_seq (w ∷ ws))
          (λ v. ((In-sort v (w ∷ ws)).1, (In-sort v (w ∷ ws)).0)) (delay_of-DelayOf w ws);
  }
    where
      source :
          (v : WakeReason)
          → In v (sort_by_seq (w ∷ ws))
          → (x : DispatchLogItem) × In x (item ∷ items) × (wakes x ≡ some v)
      source v m =
          collect-In wakes v (item ∷ items) (subst (λ l. In v l) (sym e) ((In-sort v (w ∷ ws)).0 m))

  -- `derive_role_dispatch_readiness` gives nothing exactly when no unread entry wakes the role, and
  -- else a readiness that describes the entries.
  pub derive-Describes :
      (items : List DispatchLogItem)
      → ((derive_role_dispatch_readiness items role session_id active_worker ≡ none)
          × ((x : DispatchLogItem) → In x items → wakes x ≡ none))
        ⊎ ((r : RoleDispatchReadiness) × (derive_role_dispatch_readiness items role session_id
                active_worker
              ≡ some r)
            × Describes items r
            × (x : DispatchLogItem) × In x items
            × (w : WakeReason) × (wakes x ≡ some w))
  unfolding derive_role_dispatch_readiness
  derive-Describes [] = inl (refl, λ x m. absurd m)
  derive-Describes (item ∷ items) = split (collect wakes (item ∷ items)) refl
    where
      silent :
          collect wakes (item ∷ items) ≡ []
          → (x : DispatchLogItem) → In x (item ∷ items)
          → wakes x ≡ none
      silent e x m = elim (Option-cases (wakes x)) [
        | inl quiet ↦ quiet
        | inr (w, woke) ↦
            absurd (subst (λ l. In w l) e (In-collect wakes w (item ∷ items) x m woke))
      ]

      split :
          (found : List WakeReason)
          → collect wakes (item ∷ items) ≡ found
          → ((window item items (collect wakes (item ∷ items)) ≡ none)
              × ((x : DispatchLogItem) → In x (item ∷ items) → wakes x ≡ none))
            ⊎ ((r : RoleDispatchReadiness) × (window item items (collect wakes (item ∷ items))
                  ≡ some r)
                × Describes (item ∷ items) r
                × (x : DispatchLogItem) × In x (item ∷ items)
                × (w : WakeReason) × (wakes x ≡ some w))
      split [] e = inl (ap (window item items) e, silent e)
      split (w ∷ ws) e =
          let (x, there, woke) =
            collect-In wakes w (item ∷ items) (subst (λ l. In w l) (sym e) (inl refl)) in
          inr (_, ap (window item items) e, window-Describes item items w ws e, x, there, w, woke)
