-- ===== src/Recovery/Live.antt =====
-- The goals that a restarted runtime takes up again: each is live, current, and under its own id.
use aize.Prelude.{
  String, ◌≡◌, refl, sym, ap, subst, inl, inr, Bool, true, false, List, [], ◌∷◌, ◌==◌, string_Eq,
  if◌then◌else◌, Dict, put, has, values, In, Bool-cases, beq→eq,
}
use aize.State.{Goal, Session}
use aize.Goals.{Held}
use aize.Recovery.{is_live, live_goals}

-- A dictionary that holds a key holds a value under it.
pub has-In :
    (goals : Dict Goal) (id : String) → has goals id ≡ true → (goal : Goal) × In (id, goal) goals
unfolding has
has-In [] id h = cc
has-In ((key, goal) ∷ goals) id h = elim (Bool-cases (key == id)) [
  | inl t ↦ (goal, inl (ap (λ (k : String). (k, goal)) (beq→eq key id t)))
  | inr f ↦ let (g, m) = has-In goals id (rw f at h) in (g, inr m)
]

pub In-values : (goals : Dict Goal) (p : String × Goal) → In p goals → In p.1 (values goals)
unfolding values
In-values [] p m = absurd m
In-values (q ∷ goals) p (inl same) = inl (ap (λ (r : String × Goal). r.1) same)
In-values (q ∷ goals) p (inr m) = inr (In-values goals p m)

pub values-In :
    (goals : Dict Goal) (goal : Goal)
    → In goal (values goals)
    → (key : String) × In (key, goal) goals
unfolding values
values-In [] goal m = absurd m
values-In ((key, g) ∷ goals) goal (inl same) = (key, inl (ap (λ (x : Goal). (key, x)) same))
values-In ((key, g) ∷ goals) goal (inr m) = let (k, n) = values-In goals goal m in (k, inr n)

-- Each of the live goals stands under its own id, and is one of the current goals.
module _ (sessions : Dict Session) (current : List Held) where
  abbrev pub IsNamed : String × Goal → Type 0
  IsNamed p =
      (p.1.goal_id ≡ p.0)
      × (is_live sessions p.1 ≡ true)
      × ((h : Held) × In h current × (h.1 ≡ p.1))

  abbrev pub AllNamed : Dict Goal → Type 0
  AllNamed goals = (p : String × Goal) → In p goals → IsNamed p

  put-AllNamed :
      (goals : Dict Goal) (h : Held)
      → is_live sessions h.1 ≡ true
      → In h current
      → AllNamed goals
      → AllNamed (put goals h.1.goal_id h.1)
  unfolding put
  put-AllNamed [] h live at named p (inl same) = subst IsNamed same (refl, live, (h, at, refl))
  put-AllNamed [] h live at named p (inr m) = absurd m
  put-AllNamed ((key, g) ∷ goals) h live at named p m =
      branch (λ k. put-AllNamed goals h live at (λ q n. named q (inr n)) p k) (key == h.1.goal_id)
        refl m
    where
      branch :
          (In p (put goals h.1.goal_id h.1) → IsNamed p)
          → (b : Bool) → (key == h.1.goal_id) ≡ b
          → In p (if b then (key, h.1) ∷ goals else (key, g) ∷ put goals h.1.goal_id h.1)
          → IsNamed p
      branch rest true e (inl same) =
          subst IsNamed same (sym (beq→eq key h.1.goal_id e), live, (h, at, refl))
      branch rest true e (inr n) = named p (inr n)
      branch rest false e (inl same) = named p (inl same)
      branch rest false e (inr n) = rest n

  pub live_goals-AllNamed :
      (hs : List Held) (found : Dict Goal)
      → ((h : Held) → In h hs → In h current)
      → AllNamed found
      → AllNamed (live_goals sessions hs found)
  unfolding live_goals
  live_goals-AllNamed [] found sub named = named
  live_goals-AllNamed (h ∷ hs) found sub named =
      live_goals-AllNamed hs (if is_live sessions h.1 then put found h.1.goal_id h.1 else found)
        (λ k m. sub k (inr m))
        (elim (Bool-cases (is_live sessions h.1)) [
          | inl t ↦ rw t (put-AllNamed found h t (sub h (inl refl)) named)
          | inr f ↦ rw f named
        ])
