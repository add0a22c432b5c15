-- ===== src/Readiness/Single.antt =====
-- `_deduplicate_ready_entries` leaves one ready entry for each Session and role, the oldest.
use aize.Prelude.{
  ◌+◌, ◌≤◌, String, ◌≡◌, refl, ap, ◌∙◌, sym, subst, inl, inr, Bool, true, false, some, List, [],
  ◌∷◌, ◌++◌, arith, if◌then◌else◌, first, In, In-append_left, In-append_right, Bool-cases,
  Option-cases, string_Eq, beq_refl,
}
use aize.Prelude.Order.{str_Order}
use aize.Prelude.Minimum.{AtMost, AtMost-refl, AtMost-trans}
use aize.State.{Readiness, is_ready, role_of}
use aize.Readiness.{
  is_in_slot, is_before, remove_first, retain, retain_all, deduplicate_ready_entries,
}
use aize.Readiness.Slots.{
  count, count-snoc, count-first-none, count-remove_first, count-remove_first_le, In-remove_first,
  first-holds, slot_of,
}

abbrev pub IsSingle : List Readiness → Type 0
IsSingle es = (sid role : String) → count (is_in_slot sid role) es ≤ 1

-- An entry of the same slot that became ready no later is there.
abbrev pub Covers : List Readiness → Readiness → Type 0
Covers es e =
    (k : Readiness) × In k es
    × (is_in_slot e.session_id (role_of e) k ≡ true)
    × AtMost str_Order k.first_ready_at e.first_ready_at

own_slot : (e : Readiness) → is_ready e.status ≡ true → is_in_slot e.session_id (role_of e) e ≡ true
own_slot e h = rw (h, beq_refl e.session_id, beq_refl (role_of e)) refl

-- Counting one more entry in a slot that had none of its own, or had it and was bounded by one.
snoc-IsSingle :
    (es : List Readiness) (e : Readiness)
    → IsSingle es
    → count (is_in_slot e.session_id (role_of e)) es ≡ 0
    → IsSingle (es ++ e ∷ [])
snoc-IsSingle es e single empty sid role = elim (Bool-cases (is_in_slot sid role e)) [
  | inr f ↦
      let plus =
        count-snoc (is_in_slot sid role) es e
        ∙ ap (λ b. count (is_in_slot sid role) es + (if b then 1 else 0)) f in
      omega (arith, plus, single sid role)
  | inl t ↦
      let (_, s, r) = slot_of sid role e t in
      let none_there : count (is_in_slot sid role) es ≡ 0 =
        subst (λ x. count (is_in_slot x role) es ≡ 0) s
          (subst (λ x. count (is_in_slot e.session_id x) es ≡ 0) r empty) in
      let plus =
        count-snoc (is_in_slot sid role) es e
        ∙ ap (λ b. count (is_in_slot sid role) es + (if b then 1 else 0)) t in
      omega (arith, plus, none_there)
]

skip-IsSingle :
    (es : List Readiness) (e : Readiness)
    → IsSingle es
    → is_ready e.status ≡ false
    → IsSingle (es ++ e ∷ [])
skip-IsSingle es e single idle sid role =
    let out : is_in_slot sid role e ≡ false = rw idle refl in
    omega (
      arith,
      count-snoc (is_in_slot sid role) es e
          ∙ ap (λ b. count (is_in_slot sid role) es + (if b then 1 else 0)) out,
      single sid role,
    )

remove-IsSingle :
    (p : Readiness → Bool) (es : List Readiness) → IsSingle es → IsSingle (remove_first p es)
remove-IsSingle p es single sid role =
    omega (arith, count-remove_first_le p (is_in_slot sid role) es, single sid role)

retain-IsSingle : (es : List Readiness) (e : Readiness) → IsSingle es → IsSingle (retain es e)
retain-IsSingle es e single = elim (Bool-cases (is_ready e.status)) [
  | inr f ↦ rw f (skip-IsSingle es e single f)
  | inl t ↦ elim (Option-cases (first (is_in_slot e.session_id (role_of e)) es)) [
    | inl absent ↦
        rw (t, absent)
          (snoc-IsSingle es e single
            (count-first-none (is_in_slot e.session_id (role_of e)) es absent))
    | inr (x, there) ↦ elim (Bool-cases (is_before e.first_ready_at x.first_ready_at)) [
      | inr f ↦ rw (t, there, f) single
      | inl b ↦
          rw (t, there, b)
            (snoc-IsSingle (remove_first (is_in_slot e.session_id (role_of e)) es) e
              (remove-IsSingle (is_in_slot e.session_id (role_of e)) es single)
              (omega (
                arith,
                count-remove_first (is_in_slot e.session_id (role_of e)) es there,
                single e.session_id (role_of e),
              )))
    ]
  ]
]

before-le : (s t : String) → is_before s t ≡ true → AtMost str_Order s t
before-le s t h gt = ground arith

not_before : (s t : String) → is_before t s ≡ false → AtMost str_Order s t
not_before s t h gt = ground (arith, str_Order.cmp_swap s t)

same_slot :
    (es : List Readiness) (e d x : Readiness)
    → is_ready e.status ≡ true
    → first (is_in_slot e.session_id (role_of e)) es ≡ some x
    → is_in_slot d.session_id (role_of d) x ≡ true
    → is_in_slot d.session_id (role_of d) e ≡ true
same_slot es e d x t there slot =
    let (_, s, r) =
      slot_of e.session_id (role_of e) x
        (first-holds (is_in_slot e.session_id (role_of e)) es there).0 in
    let (_, s', r') = slot_of d.session_id (role_of d) x slot in
    subst (λ y. is_in_slot y (role_of d) e ≡ true) (sym s ∙ s')
      (subst (λ y. is_in_slot e.session_id y e ≡ true) (sym r ∙ r') (own_slot e t))

-- What was covered stays covered, and a ready entry is covered once the loop has seen it.
keeps-Covers : (es : List Readiness) (e d : Readiness) → Covers es d → Covers (retain es e) d
keeps-Covers es e d (k, m, slot, le) = elim (Bool-cases (is_ready e.status)) [
  | inr f ↦ rw f (k, In-append_left k es (e ∷ []) m, slot, le)
  | inl t ↦ elim (Option-cases (first (is_in_slot e.session_id (role_of e)) es)) [
    | inl absent ↦ rw (t, absent) (k, In-append_left k es (e ∷ []) m, slot, le)
    | inr (x, there) ↦ elim (Bool-cases (is_before e.first_ready_at x.first_ready_at)) [
      | inr f ↦ rw (t, there, f) (k, m, slot, le)
      | inl b ↦ elim (In-remove_first (is_in_slot e.session_id (role_of e)) es k there m) [
        | inl kept ↦ rw (t, there, b) (k, In-append_left k _ (e ∷ []) kept, slot, le)
        | inr gone ↦
            rw (t, there, b)
              (
                e,
                In-append_right e _ (e ∷ []) (inl refl),
                same_slot es e d x t there
                    (subst (λ y. is_in_slot d.session_id (role_of d) y ≡ true) (sym gone) slot),
                AtMost-trans str_Order e.first_ready_at x.first_ready_at d.first_ready_at
                    (before-le e.first_ready_at x.first_ready_at b)
                    (subst (λ y. AtMost str_Order y.first_ready_at d.first_ready_at) (sym gone) le),
              )
      ]
    ]
  ]
]

sees-Covers :
    (es : List Readiness) (e : Readiness) → is_ready e.status ≡ true → Covers (retain es e) e
sees-Covers es e t = elim (Option-cases (first (is_in_slot e.session_id (role_of e)) es)) [
  | inl absent ↦
      rw (t, absent)
        (
          e,
          In-append_right e es (e ∷ []) (inl refl),
          own_slot e t,
          AtMost-refl str_Order e.first_ready_at,
        )
  | inr (x, there) ↦ elim (Bool-cases (is_before e.first_ready_at x.first_ready_at)) [
    | inl b ↦
        rw (t, there, b)
          (
            e,
            In-append_right e _ (e ∷ []) (inl refl),
            own_slot e t,
            AtMost-refl str_Order e.first_ready_at,
          )
    | inr f ↦
        let found = first-holds (is_in_slot e.session_id (role_of e)) es there in
        rw (t, there, f) (x, found.1, found.0, not_before x.first_ready_at e.first_ready_at f)
  ]
]

retain_all-keeps :
    (es retained : List Readiness) (d : Readiness)
    → Covers retained d
    → Covers (retain_all retained es) d
unfolding retain_all
retain_all-keeps [] retained d c = c
retain_all-keeps (e ∷ es) retained d c =
    retain_all-keeps es (retain retained e) d (keeps-Covers retained e d c)

retain_all-sees :
    (es retained : List Readiness) (d : Readiness)
    → In d es
    → is_ready d.status ≡ true
    → Covers (retain_all retained es) d
unfolding retain_all
retain_all-sees [] retained d m t = absurd m
retain_all-sees (e ∷ es) retained d (inl same) t = retain_all-keeps es (retain retained e) d (
    subst (λ x. Covers (retain retained e) x) same
      (sees-Covers retained e (ap (λ x. is_ready x.status) same ∙ t)))
retain_all-sees (e ∷ es) retained d (inr m) t = retain_all-sees es (retain retained e) d m t

retain_all-IsSingle :
    (es retained : List Readiness) → IsSingle retained → IsSingle (retain_all retained es)
unfolding retain_all
retain_all-IsSingle [] retained single = single
retain_all-IsSingle (e ∷ es) retained single =
    retain_all-IsSingle es (retain retained e) (retain-IsSingle retained e single)

-- After `_deduplicate_ready_entries` there is one ready entry at most for each Session and role, and
-- for every ready entry there was, one of its Session and role that became ready no later.
pub deduplicate_ready_entries-IsSingle :
    (entries : List Readiness)
    → IsSingle (deduplicate_ready_entries entries)
      × ((e : Readiness)
          → In e entries
          → is_ready e.status ≡ true
          → Covers (deduplicate_ready_entries entries) e)
unfolding deduplicate_ready_entries
deduplicate_ready_entries-IsSingle entries =
    (retain_all-IsSingle entries [] (λ sid role. omega arith), retain_all-sees entries [])
