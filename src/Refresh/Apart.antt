-- ===== src/Refresh/Apart.antt =====
-- The current goals belong to different Sessions.
use aize.Prelude.{
  String, ◌≡◌, ◌≢◌, refl, sym, ◌∙◌, inl, inr, List, [], ◌∷◌, map, ◌==◌, string_Eq, truthy, Dict,
  put, All, Bool-cases, beq→eq, beq→ne, keep_if,
}
use aize.Prelude.Order.{str_Order}
use aize.Prelude.Minimum.{is_lt}
use aize.Prelude.Sort.{sort_by, insert_by, insert_by-All}
use aize.State.{Goal}
use aize.Goals.{Held, name_of, by_session, current_goals, age, held_Order, is_open_goal}

-- No two of the goals belong to one Session.
abbrev pub IsApart : List Held → Type 0
IsApart [] = Unit
IsApart (h ∷ hs) = All (λ (k : Held). k.1.session_id ≢ h.1.session_id) hs × IsApart hs

-- Each goal stands under its Session, and under no other.
abbrev Filed : Dict Held → Type 0
Filed [] = Unit
Filed ((j, h) ∷ d) = (j ≡ h.1.session_id) × All (λ (q : String × Held). q.0 ≢ j) d × Filed d

put-All :
    (d : Dict Held) (i j : String) (h : Held)
    → j ≢ i
    → All (λ (q : String × Held). q.0 ≢ i) d
    → All (λ (q : String × Held). q.0 ≢ i) (put d j h)
unfolding put
put-All [] i j h ne all = (ne, tt)
put-All ((k, g) ∷ d) i j h ne all = elim (Bool-cases (k == j)) [
  | inl t ↦ rw t (all.0, all.1)
  | inr f ↦ rw f (all.0, put-All d i j h ne all.1)
]

put-Filed : (d : Dict Held) (h : Held) → Filed d → Filed (put d h.1.session_id h)
unfolding put
put-Filed [] h filed = (refl, tt, tt)
put-Filed ((k, g) ∷ d) h (own, others, rest) = elim (Bool-cases (k == h.1.session_id)) [
  | inl t ↦ rw t (beq→eq k h.1.session_id t, others, rest)
  | inr f ↦ rw f (
    own,
    put-All d k h.1.session_id h (λ e. beq→ne k h.1.session_id f (sym e)) others,
    put-Filed d h rest,
  )
]

by_session-Filed : (found : Dict Held) (hs : List Held) → Filed found → Filed (by_session found hs)
unfolding by_session
by_session-Filed found [] filed = filed
by_session-Filed found (h ∷ hs) filed = elim (Bool-cases (truthy h.1.session_id)) [
  | inl t ↦ rw t (by_session-Filed (put found h.1.session_id h) hs (put-Filed found h filed))
  | inr f ↦ rw f (by_session-Filed found hs filed)
]

insert_by-Filed :
    (q : String × Held) (d : Dict Held)
    → q.0 ≡ q.1.1.session_id
    → All (λ (r : String × Held). r.0 ≢ q.0) d
    → Filed d
    → Filed (insert_by str_Order name_of q d)
unfolding insert_by
insert_by-Filed q [] own others filed = (own, tt, tt)
insert_by-Filed q ((k, g) ∷ d) own others (own', others', filed) =
    elim (Bool-cases (is_lt (str_Order.cmp k q.0))) [
      | inl t ↦ rw t (
        own',
        insert_by-All str_Order name_of (λ (r : String × Held). r.0 ≢ k) q d (λ e. others.0 (sym e))
            others',
        insert_by-Filed q d own others.1 filed,
      )
      | inr f ↦ rw f (own, others, (own', others', filed))
    ]

sort_by-All :
    (P : String × Held → Type 0) (d : Dict Held) → All P d → All P (sort_by str_Order name_of d)
unfolding sort_by
sort_by-All P [] all = tt
sort_by-All P (q ∷ d) all = insert_by-All str_Order name_of P q _ all.0 (sort_by-All P d all.1)

sort_by-Filed : (d : Dict Held) → Filed d → Filed (sort_by str_Order name_of d)
unfolding sort_by
sort_by-Filed [] filed = tt
sort_by-Filed (q ∷ d) (own, others, filed) =
    insert_by-Filed q (sort_by str_Order name_of d) own
      (sort_by-All (λ (r : String × Held). r.0 ≢ q.0) d others) (sort_by-Filed d filed)

other_goals :
    (s : String) (d : Dict Held)
    → Filed d
    → All (λ (q : String × Held). q.0 ≢ s) d
    → All (λ (k : Held). k.1.session_id ≢ s) (map (λ (p : String × Held). p.1) d)
other_goals s [] filed all = tt
other_goals s (q ∷ d) (own, others, filed) all =
    ((λ e. all.0 (own ∙ e)), other_goals s d filed all.1)

Filed-IsApart : (d : Dict Held) → Filed d → IsApart (map (λ (p : String × Held). p.1) d)
Filed-IsApart [] filed = tt
Filed-IsApart ((k, g) ∷ d) (own, others, filed) =
    (other_goals g.1.session_id d filed (rw (sym own) others), Filed-IsApart d filed)

-- `_current_goals` gives one goal at most for each Session.
pub current_goals-IsApart : (goals : Dict Goal) → IsApart (current_goals goals)
unfolding current_goals
current_goals-IsApart goals =
    let found = by_session [] (sort_by held_Order age (keep_if is_open_goal goals)) in
    Filed-IsApart (sort_by str_Order name_of found) (
      sort_by-Filed found
        (by_session-Filed [] (sort_by held_Order age (keep_if is_open_goal goals)) tt))
