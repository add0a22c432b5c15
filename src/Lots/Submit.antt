-- ===== src/Lots/Submit.antt =====
-- Which lots are submitted.
use aize.Prelude.{
  ℕ, zero, suc, ◌+◌, ◌≤◌, ◌<◌, max, ◌≡◌, refl, ◌∙◌, sym, ◌⊎◌, inl, inr, false, List, [], ◌∷◌, ◌++◌,
  arith, ◌==◌, nat_Eq, leb, ltb, length, length-append, contains, contains→In, In→contains, In,
  In-append_left, In-append_right, Bool-cases, beq→eq, beq→ne, subst,
}
use mathlib.Core.List.{append_assoc, append-nil}
use aize.Lots.{submit_lots, submit_available_lots}

-- What the loop does from lot `from` to lot `target`.
pub record IsSubmit (from target : ℕ) (active : List ℕ) (r : List ℕ × List ℕ) : Type 0 where
  -- The submitted lots join the active ones; no lot is submitted that was active.
  pub joined : r.0 ≡ active ++ r.1
  pub fresh : (l : ℕ) → In l r.1 → (from ≤ l) × (l ≤ target) × ¬ In l active
  -- There are never more active lots than the target, or than there were.
  pub bounded : length r.0 ≤ max target (length active)
  -- The target is reached, or each of the lots is active.
  pub filled : (target ≤ length r.0) ⊎ ((l : ℕ) → from ≤ l → l ≤ target → In l r.0)

widen :
    (lot_id target : ℕ) (out : List ℕ)
    → (target ≤ length out) ⊎ ((l : ℕ) → suc lot_id ≤ l → l ≤ target → In l out)
    → In lot_id out
    → (target ≤ length out) ⊎ ((l : ℕ) → lot_id ≤ l → l ≤ target → In l out)
widen lot_id target out (inl full) m = inl full
widen lot_id target out (inr all) m = inr (λ l h k. elim (Bool-cases (lot_id == l)) [
  | inl t ↦ subst (λ n. In n out) (beq→eq lot_id l t) m
  | inr f ↦ let other = beq→ne lot_id l f in all l (omega (arith, h, other)) k
])

submit_lots-IsSubmit :
    (left lot_id target : ℕ) (active : List ℕ)
    → lot_id + left ≡ suc target
    → IsSubmit lot_id target active (submit_lots left lot_id target active)
unfolding submit_lots
submit_lots-IsSubmit zero lot_id target active e = record {
  joined = sym (append-nil active);
  fresh = λ l m. absurd m;
  bounded = omega arith;
  filled = inr (λ l h k. absurd (omega arith));
}
submit_lots-IsSubmit (suc left) lot_id target active e =
    elim (Bool-cases (leb target (length active))) [
      | inl full ↦ rw full (record {
        joined = sym (append-nil active);
        fresh = λ l m. absurd m;
        bounded = omega arith;
        filled = inl (ground (arith, full));
      })
      | inr room ↦ elim (Bool-cases (contains lot_id active)) [
        | inl there ↦
            let r = submit_lots-IsSubmit left (suc lot_id) target active (omega arith) in
            rw (room, there)
              (record {
                joined = r.joined;
                fresh = λ l m. let f = r.fresh l m in (omega (arith, f.0), f.1, f.2);
                bounded = r.bounded;
                filled =
                    widen lot_id target (submit_lots left (suc lot_id) target active).0 r.filled (
                      subst (λ o. In lot_id o) (sym r.joined)
                        (In-append_left lot_id active _ (contains→In lot_id active there)));
              })
        | inr absent ↦
            let r =
              submit_lots-IsSubmit left (suc lot_id) target (active ++ lot_id ∷ []) (omega arith) in
            rw (room, absent)
              (record {
                joined = r.joined ∙ append_assoc active (lot_id ∷ []) _;
                fresh = λ l m. elim m [
                  | inl same ↦ (
                    omega (arith, same),
                    omega (arith, same, e),
                    λ k. cc (
                      In→contains l active k,
                      subst (λ n. contains n active ≡ false) same absent,
                    ),
                  )
                  | inr later ↦
                      let f = r.fresh l later in
                      (omega (arith, f.0), f.1, λ k. f.2 (In-append_left l active (lot_id ∷ []) k))
                ];
                bounded =
                    let below : length active < target = ground (arith, room) in
                    omega (arith, r.bounded, length-append active (lot_id ∷ []), below);
                filled =
                    widen lot_id target
                      (submit_lots left (suc lot_id) target (active ++ lot_id ∷ [])).0 r.filled
                      (subst (λ o. In lot_id o) (sym r.joined)
                        (In-append_left lot_id (active ++ lot_id ∷ []) _
                          (In-append_right lot_id active (lot_id ∷ []) (inl refl))));
              })
      ]
    ]

-- `_submit_available_lots` submits lots between 1 and the target that are not active; it
-- never has more lots active than the target, or than there were, and it stops short of the target
-- only when every lot up to it is active.
pub submit_available_lots-IsSubmit :
    (target : ℕ) (active : List ℕ) → IsSubmit 1 target active (submit_available_lots target active)
unfolding submit_available_lots
submit_available_lots-IsSubmit zero active = record {
  joined = sym (append-nil active);
  fresh = λ l m. absurd m;
  bounded = omega arith;
  filled = inl (omega arith);
}
submit_available_lots-IsSubmit (suc target) active =
    let some_lots : ltb (suc target) 1 ≡ false = ground arith in
    rw some_lots (submit_lots-IsSubmit (suc target) 1 (suc target) active (omega arith))
