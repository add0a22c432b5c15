-- ===== src/Goals/Current.antt =====
-- The current goal of a Session: which goal it is, and how it moves when a goal is stored again.
use aize.Prelude.{
  String, ◌≡◌, ◌≢◌, refl, sym, ap, ◌∙◌, ◌⊎◌, inl, inr, true, false, not, ◌&&◌, none, some, List, [],
  ◌∷◌, ◌==◌, string_Eq, if◌then◌else◌, truthy, Dict, get, put, get-put, keep_if, In, Each,
  keep_if-In, In-keep_if, Bool-cases, Option-cases, beq→eq, beq→ne, ne→beq, eq_refl, and_true,
}
use mathlib.Core.Option.{some-injective}
use aize.Prelude.Minimum.{AtMost}
use aize.Prelude.Sort.{last_of-In, last-sort_by, sort_by-Each, last_of-Each, In-sort_by_of}
use aize.State.{Goal}
use aize.Goals.{Held, age, held_Order, is_open_goal, is_goal_of, current_goal_for_session}

-- An unarchived goal of the Session, and none of them is younger.
pub record IsLatest (goals : Dict Goal) (session_id : String) (h : Held) : Type 0 where
  pub stands : In h goals
  pub own : h.1.session_id ≡ session_id
  pub live : is_open_goal h ≡ true
  pub latest :
      (other : Held)
      → In other goals
      → is_goal_of session_id other ≡ true
      → AtMost held_Order (age other) (age h)

pub current-IsLatest :
    (goals : Dict Goal) (session_id : String) {h : Held}
    → current_goal_for_session goals session_id ≡ some h
    → IsLatest goals session_id h
unfolding current_goal_for_session
current-IsLatest goals session_id {h} e =
    let (m, top) = last-sort_by held_Order age (keep_if (is_goal_of session_id) goals) e in
    let (there, own) = keep_if-In (is_goal_of session_id) goals h m in
    let (same, live) = and_true _ _ own in
    record {
      stands = there;
      own = beq→eq h.1.session_id session_id same;
      live = live;
      latest = λ other n own'. top other (In-keep_if (is_goal_of session_id) goals other n own');
    }

-- `_current_goal_for_session` gives None exactly when the Session has no unarchived goal, and else the
-- latest of them by creation time and then by id.
pub current_goal_for_session-IsLatest :
    (goals : Dict Goal) (session_id : String)
    → ((current_goal_for_session goals session_id ≡ none)
        × ((h : Held) → In h goals → is_goal_of session_id h ≡ false))
      ⊎ ((h : Held) × (current_goal_for_session goals session_id ≡ some h)
          × IsLatest goals session_id h)
unfolding current_goal_for_session
current_goal_for_session-IsLatest goals session_id =
    elim (Option-cases (current_goal_for_session goals session_id)) [
      | inr (h, e) ↦ inr (h, e, current-IsLatest goals session_id e)
      | inl e ↦ inl (
        e,
        λ h m. elim (Bool-cases (is_goal_of session_id h)) [
          | inr f ↦ f
          | inl t ↦ absurd (
              last_of-In _ h
                (In-sort_by_of held_Order age h _ (In-keep_if (is_goal_of session_id) goals h m t))
                e)
        ],
      )
    ]

-- The same key, and the same fields that the choice reads.
abbrev pub IsKin : Held → Held → Type 0
IsKin h k =
    (h.0 ≡ k.0)
    × (h.1.session_id ≡ k.1.session_id)
    × (h.1.archived_at ≡ k.1.archived_at)
    × (h.1.created_at ≡ k.1.created_at)
    × (h.1.goal_id ≡ k.1.goal_id)

IsKin-refl : (h : Held) → IsKin h h
IsKin-refl h = (refl, refl, refl, refl, refl)

IsKin-sym : (h k : Held) → IsKin h k → IsKin k h
IsKin-sym h k (a, b, c, d, e) = (sym a, sym b, sym c, sym d, sym e)

Each-refl : (hs : List Held) → Each IsKin hs hs
Each-refl [] = tt
Each-refl (h ∷ hs) = (IsKin-refl h, Each-refl hs)

Each-sym : (hs ks : List Held) → Each IsKin hs ks → Each IsKin ks hs
Each-sym [] [] e = tt
Each-sym [] (k ∷ ks) e = absurd e
Each-sym (h ∷ hs) [] e = absurd e
Each-sym (h ∷ hs) (k ∷ ks) e = (IsKin-sym h k e.0, Each-sym hs ks e.1)

IsKin-age : (h k : Held) → IsKin h k → age h ≡ age k
IsKin-age h k (a, b, c, d, e) = λ i. (d i, e i)

IsKin-is_goal_of : (sid : String) (h k : Held) → IsKin h k → is_goal_of sid h ≡ is_goal_of sid k
IsKin-is_goal_of sid h k (a, b, c, d, e) = λ i. (b i == sid && not (truthy (c i)))

keep_if-Each :
    (sid : String) (hs ks : List Held)
    → Each IsKin hs ks
    → Each IsKin (keep_if (is_goal_of sid) hs) (keep_if (is_goal_of sid) ks)
unfolding keep_if
keep_if-Each sid [] [] e = tt
keep_if-Each sid [] (k ∷ ks) e = absurd e
keep_if-Each sid (h ∷ hs) [] e = absurd e
keep_if-Each sid (h ∷ hs) (k ∷ ks) e =
    let same = IsKin-is_goal_of sid h k e.0 in
    elim (Bool-cases (is_goal_of sid h)) [
      | inl t ↦ rw (t, sym same ∙ t) (e.0, keep_if-Each sid hs ks e.1)
      | inr f ↦ rw (f, sym same ∙ f) (keep_if-Each sid hs ks e.1)
    ]

current-Each :
    (sid : String) (d d' : Dict Goal)
    → Each IsKin d d'
    → {h : Held} → current_goal_for_session d sid ≡ some h
    → (k : Held) × (current_goal_for_session d' sid ≡ some k) × IsKin h k
unfolding current_goal_for_session
current-Each sid d d' e h =
    last_of-Each IsKin _ _
      (sort_by-Each held_Order age IsKin IsKin-age _ _ (keep_if-Each sid d d' e)) h

-- `goals[key] = g'`, with `g'` of the same Session, age and archive mark as what was there.
put-Each :
    (d : Dict Goal) (key : String) {g : Goal} (g' : Goal)
    → get d key ≡ some g
    → IsKin (key, g) (key, g')
    → Each IsKin d (put d key g')
unfolding get put
put-Each [] key g' at kin = cc
put-Each ((j, w) ∷ d) key {g} g' at kin = elim (Bool-cases (j == key)) [
  | inl t ↦
      let same : w ≡ g = some-injective _ _ (rw t at at) in
      rw (t, same) ((refl, kin.1, kin.2, kin.3, kin.4), Each-refl d)
  | inr f ↦ rw f (IsKin-refl (j, w), put-Each d key g' (rw f at at) kin)
]

-- The keys of the dictionary are different.
abbrev pub Keyed : Dict Goal → Type 0
Keyed [] = Unit
Keyed ((j, g) ∷ d) = (get d j ≡ none) × Keyed d

pub In-Keyed : (d : Dict Goal) (h : Held) → Keyed d → In h d → get d h.0 ≡ some h.1
unfolding get
In-Keyed [] h keyed m = absurd m
In-Keyed ((j, g) ∷ d) h keyed (inl e) = rw (ap (λ x. x.0) e, eq_refl h.0) (ap (λ x. some x.1) e)
In-Keyed ((j, g) ∷ d) h keyed (inr m) = elim (Bool-cases (j == h.0)) [
  | inl t ↦ cc (keyed.0, beq→eq j h.0 t, In-Keyed d h keyed.1 m)
  | inr f ↦ rw f (In-Keyed d h keyed.1 m)
]

module _ (d : Dict Goal) (key : String) (g' : Goal) where
  pub found_new : get (put d key g') key ≡ some g'
  found_new = get-put d key g' key ∙ ap (λ b. if b then some g' else get d key) (eq_refl key)

  pub found_old : (j : String) → key ≢ j → get (put d key g') j ≡ get d j
  found_old j ne = get-put d key g' j ∙ ap (λ b. if b then some g' else get d j) (ne→beq key j ne)

  -- The current goal of a Session behind `goals[key] = g'` is the new value, or the one it was.
  pub current-put :
      (sid : String) {g : Goal} {h : Held}
      → Keyed d
      → Keyed (put d key g')
      → get d key ≡ some g
      → IsKin (key, g) (key, g')
      → current_goal_for_session (put d key g') sid ≡ some h
      → ((h.0 ≡ key) × (h.1 ≡ g')) ⊎ ((h.0 ≢ key) × (current_goal_for_session d sid ≡ some h))
  current-put sid {g} {h} keyed keyed' at kin e =
      let there = In-Keyed (put d key g') h keyed' (current-IsLatest (put d key g') sid e).stands in
      let (k, old, same) =
        current-Each sid (put d key g') d (Each-sym d _ (put-Each d key g' at kin)) e in
      elim (Bool-cases (key == h.0)) [
        | inl t ↦
            let eq = beq→eq key h.0 t in
            inl (
              sym eq,
              some-injective _ _ (sym there ∙ ap (get (put d key g')) (sym eq) ∙ found_new),
            )
        | inr f ↦
            let ne = beq→ne key h.0 f in
            let was : get d h.0 ≡ some k.1 =
              ap (get d) same.0 ∙ In-Keyed d k keyed (current-IsLatest d sid old).stands in
            let value : h.1 ≡ k.1 = some-injective _ _ (sym there ∙ found_old h.0 ne ∙ was) in
            inr ((λ x. ne (sym x)), old ∙ λ i. some (sym same.0 i, sym value i))
      ]

pub put-Keyed : (d : Dict Goal) (key : String) (g' : Goal) → Keyed d → Keyed (put d key g')
unfolding put get
put-Keyed [] key g' keyed = (refl, tt)
put-Keyed ((j, w) ∷ d) key g' keyed = elim (Bool-cases (j == key)) [
  | inl t ↦ rw t keyed
  | inr f ↦
      rw f
        (found_old d key g' j (λ e. beq→ne j key f (sym e)) ∙ keyed.0, put-Keyed d key g' keyed.1)
]

In-put :
    (d : Dict Goal) (key : String) (g : Goal) (h : Held)
    → In h (put d key g)
    → ((h.0 ≡ key) × (h.1 ≡ g)) ⊎ In h d
unfolding put
In-put [] key g h (inl e) = inl (sym (ap (λ x. x.0) e), sym (ap (λ x. x.1) e))
In-put [] key g h (inr m) = absurd m
In-put ((j, w) ∷ d) key g h m = elim (Bool-cases (j == key)) [
  | inl t ↦ elim (rw t at m) [
    | inl e ↦ inl (sym (ap (λ x. x.0) e) ∙ beq→eq j key t, sym (ap (λ x. x.1) e))
    | inr n ↦ inr (inr n)
  ]
  | inr f ↦ elim (rw f at m) [
    | inl e ↦ inr (inl e)
    | inr n ↦ elim (In-put d key g h n) [ inl new ↦ inl new | inr old ↦ inr (inr old) ]
  ]
]

put-In : (d : Dict Goal) (key : String) (g : Goal) → get d key ≡ none → In (key, g) (put d key g)
unfolding put get
put-In [] key g absent = inl refl
put-In ((j, w) ∷ d) key g absent = elim (Bool-cases (j == key)) [
  | inl t ↦ cc (rw t at absent)
  | inr f ↦ rw f (inr (put-In d key g (rw f at absent)))
]

-- The first goal of a Session is its current goal.
pub current-new :
    (d : Dict Goal) (key : String) (g : Goal) (sid : String)
    → get d key ≡ none
    → current_goal_for_session d sid ≡ none
    → is_goal_of sid (key, g) ≡ true
    → current_goal_for_session (put d key g) sid ≡ some (key, g)
current-new d key g sid absent silent own =
    elim (current_goal_for_session-IsLatest (put d key g) sid) [
      | inl (_, nothing) ↦ cc (nothing (key, g) (put-In d key g absent), own)
      | inr (h, e, latest) ↦ elim (In-put d key g h latest.stands) [
        | inl (same, value) ↦ e ∙ λ i. some (same i, value i)
        | inr old ↦ elim (current_goal_for_session-IsLatest d sid) [
          | inl (_, nothing) ↦ cc (nothing h old, owns h latest)
          | inr (k, e', _) ↦ cc (silent, e')
        ]
      ]
    ]
  where
    owns : (h : Held) → IsLatest (put d key g) sid h → is_goal_of sid h ≡ true
    owns h latest = rw (latest.own, eq_refl sid, latest.live) refl

-- A current goal that is stored again, with the same age, stays the current goal.
pub current-again :
    (d : Dict Goal) (key : String) {g : Goal} (g' : Goal) (sid : String)
    → Keyed d
    → IsKin (key, g) (key, g')
    → current_goal_for_session d sid ≡ some (key, g)
    → current_goal_for_session (put d key g') sid ≡ some (key, g')
current-again d key {g} g' sid keyed kin e =
    let at = In-Keyed d (key, g) keyed (current-IsLatest d sid e).stands in
    let (k, new, same) = current-Each sid d (put d key g') (put-Each d key g' at kin) e in
    elim (current-put d key g' sid keyed (put-Keyed d key g' keyed) at kin new) [
      | inl (name, value) ↦ new ∙ λ i. some (name i, value i)
      | inr (ne, _) ↦ absurd (ne (sym same.0))
    ]
