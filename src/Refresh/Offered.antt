-- ===== src/Refresh/Offered.antt =====
-- What the refresh offers: work that is ready for every role with unread waking entries.
use aize.Prelude.{
  String, ◌≡◌, refl, sym, ap, ◌∙◌, inl, inr, Bool, true, false, Option, none, some, List, [], ◌∷◌,
  ◌==◌, string_Eq, first, In, In-append_left, In-append_right, Bool-cases, eq_refl,
}
use mathlib.Core.Option.{some-injective}
use aize.State.{Readiness, Goal, role_of}
use aize.Projection.{RoleDispatchReadiness}
use aize.Readiness.{is_in_slot, remove_first}
use aize.Refresh.{Ids, reconciled, reconcile_ready_entry, update_first, refreshed, new_entry}

-- Entries outside the slot stay.
remove_first-keeps :
    (p : Readiness → Bool) (es : List Readiness) (e : Readiness)
    → p e ≡ false
    → In e es
    → In e (remove_first p es)
unfolding remove_first
remove_first-keeps p [] e out m = m
remove_first-keeps p (x ∷ es) e out m = elim (Bool-cases (p x)) [
  | inr f ↦ rw f (elim m [ inl same ↦ inl same | inr n ↦ inr (remove_first-keeps p es e out n) ])
  | inl t ↦ elim m [ inl same ↦ cc (ap p same, t, out) | inr n ↦ rw t n ]
]

update_first-keeps :
    (p : Readiness → Bool) (f : Readiness → Readiness) (es : List Readiness) (e : Readiness)
    → p e ≡ false
    → In e es
    → In e (update_first p f es)
unfolding update_first
update_first-keeps p f [] e out m = m
update_first-keeps p f (x ∷ es) e out m = elim (Bool-cases (p x)) [
  | inr off ↦
      rw off (elim m [ inl same ↦ inl same | inr n ↦ inr (update_first-keeps p f es e out n) ])
  | inl t ↦ elim m [ inl same ↦ cc (ap p same, t, out) | inr n ↦ rw t (inr n) ]
]

-- The first entry of the slot, changed.
update_first-In :
    (p : Readiness → Bool) (f : Readiness → Readiness) (es : List Readiness) {x : Readiness}
    → first p es ≡ some x
    → In (f x) (update_first p f es) × (p x ≡ true)
unfolding first update_first
update_first-In p f [] h = cc
update_first-In p f (y ∷ es) h = elim (Bool-cases (p y)) [
  | inl t ↦ let same = some-injective _ _ (rw t at h) in rw t (inl (ap f same), ap p (sym same) ∙ t)
  | inr off ↦ let r = update_first-In p f es (rw off at h) in rw off (inr r.0, r.1)
]

module _ (ids : Ids) where
  pub reconcile-keeps :
      (goal : Goal) (role : String) (fields : Option RoleDispatchReadiness) (es : List Readiness)
      (e : Readiness)
      → is_in_slot goal.session_id role e ≡ false
      → In e es
      → In e (reconcile_ready_entry ids goal role fields es)
  unfolding reconcile_ready_entry
  reconcile-keeps goal role fields es e out m =
      split fields (first (is_in_slot goal.session_id role) es)
    where
      split :
          (o : Option RoleDispatchReadiness) (c : Option Readiness)
          → In e (reconciled ids goal role o c es)
      split none none = m
      split none (some x) = remove_first-keeps (is_in_slot goal.session_id role) es e out m
      split (some f) none = In-append_left e es _ m
      split (some f) (some x) =
          update_first-keeps (is_in_slot goal.session_id role) (refreshed ids goal f) es e out m

  -- A ready entry of this goal and role over this window.
  pub record IsOffer (goal : Goal) (role : String) (f : RoleDispatchReadiness) (e : Readiness)
      : Type 0 where
    pub slot : is_in_slot goal.session_id role e ≡ true
    pub goal_id : e.goal_id ≡ goal.goal_id
    pub from_log_seq : e.from_log_seq ≡ some f.from_log_seq
    pub observed_to_seq : e.observed_to_seq ≡ some f.observed_to_seq
    pub available_after : e.available_after ≡ f.available_after

  pub reconcile-offers :
      (goal : Goal) (role : String) (f : RoleDispatchReadiness) (es : List Readiness)
      → (role_of (new_entry ids goal role f) == role) ≡ true
      → (e : Readiness) × In e (reconcile_ready_entry ids goal role (some f) es)
        × IsOffer goal role f e
  unfolding reconcile_ready_entry
  reconcile-offers goal role f es named = split (first (is_in_slot goal.session_id role) es) refl
    where
      split :
          (c : Option Readiness)
          → first (is_in_slot goal.session_id role) es ≡ c
          → (e : Readiness) × In e (reconciled ids goal role (some f) c es) × IsOffer goal role f e
      split none h = (
        new_entry ids goal role f,
        In-append_right _ es _ (inl refl),
        record {
          slot = rw (eq_refl goal.session_id, named) refl;
          goal_id = refl;
          from_log_seq = refl;
          observed_to_seq = refl;
          available_after = refl;
        },
      )
      split (some x) h =
          let (m, own) =
            update_first-In (is_in_slot goal.session_id role) (refreshed ids goal f) es h in
          (
            refreshed ids goal f x,
            m,
            record {
              slot = own;
              goal_id = refl;
              from_log_seq = refl;
              observed_to_seq = refl;
              available_after = refl;
            },
          )
