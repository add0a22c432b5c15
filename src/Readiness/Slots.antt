-- ===== src/Readiness/Slots.antt =====
-- Counting the entries of a slot.
use aize.Prelude.{
  ℕ, suc, ◌+◌, ◌≤◌, String, ◌≡◌, refl, ap, ◌∙◌, sym, ◌⊎◌, inl, inr, Bool, true, none, some, List,
  [], ◌∷◌, ◌++◌, arith, if◌then◌else◌, first, In, Bool-cases, ◌==◌, string_Eq, beq→eq, and_true,
  ◌&&◌,
}
use mathlib.Core.Option.{some-injective}
use aize.State.{Readiness, is_ready, role_of}
use aize.Readiness.{is_in_slot, remove_first}

abbrev pub count : (Readiness → Bool) → List Readiness → ℕ
count p [] = 0
count p (e ∷ es) = (if p e then 1 else 0) + count p es

pub count-snoc :
    (p : Readiness → Bool) (es : List Readiness) (e : Readiness)
    → count p (es ++ e ∷ []) ≡ count p es + (if p e then 1 else 0)
count-snoc p [] e = omega arith
count-snoc p (d ∷ es) e = omega (arith, count-snoc p es e)

pub count-first-none :
    (p : Readiness → Bool) (es : List Readiness) → first p es ≡ none → count p es ≡ 0
unfolding first
count-first-none p [] h = refl
count-first-none p (e ∷ es) h = elim (Bool-cases (p e)) [
  | inl t ↦ cc (rw t at h)
  | inr f ↦ rw f (omega (arith, count-first-none p es (rw f at h)))
]

pub count-remove_first :
    (p : Readiness → Bool) (es : List Readiness) {x : Readiness}
    → first p es ≡ some x
    → suc (count p (remove_first p es)) ≡ count p es
unfolding first remove_first
count-remove_first p [] h = cc
count-remove_first p (e ∷ es) h = elim (Bool-cases (p e)) [
  | inl t ↦ rw t (omega arith)
  | inr f ↦ rw (f, f) (omega (arith, count-remove_first p es (rw f at h)))
]

pub count-remove_first_le :
    (p q : Readiness → Bool) (es : List Readiness) → count q (remove_first p es) ≤ count q es
unfolding remove_first
count-remove_first_le p q [] = omega arith
count-remove_first_le p q (e ∷ es) = elim (Bool-cases (p e)) [
  | inl t ↦ rw t (omega arith)
  | inr f ↦ rw f (omega (arith, count-remove_first_le p q es))
]

pub In-remove_first :
    (p : Readiness → Bool) (es : List Readiness) {x : Readiness} (k : Readiness)
    → first p es ≡ some x
    → In k es
    → In k (remove_first p es) ⊎ (x ≡ k)
unfolding first remove_first
In-remove_first p [] k h m = absurd m
In-remove_first p (e ∷ es) {x} k h m = elim (Bool-cases (p e)) [
  | inl t ↦ elim m [
    | inl same ↦ inr (sym (some-injective _ _ (rw t at h)) ∙ same)
    | inr later ↦ rw t (inl later)
  ]
  | inr f ↦ elim m [
    | inl same ↦ rw f (inl (inl same))
    | inr later ↦ elim (In-remove_first p es k (rw f at h) later) [
      | inl kept ↦ rw f (inl (inr kept))
      | inr gone ↦ inr gone
    ]
  ]
]

pub first-holds :
    (p : Readiness → Bool) (es : List Readiness) {x : Readiness}
    → first p es ≡ some x
    → (p x ≡ true) × In x es
unfolding first
first-holds p [] h = cc
first-holds p (e ∷ es) {x} h = elim (Bool-cases (p e)) [
  | inl t ↦ let same : e ≡ x = some-injective _ _ (rw t at h) in (ap p (sym same) ∙ t, inl same)
  | inr f ↦ let r = first-holds p es (rw f at h) in (r.0, inr r.1)
]

-- An entry is in the slot of its own Session and role only.
pub slot_of :
    (sid role : String) (e : Readiness)
    → is_in_slot sid role e ≡ true
    → (is_ready e.status ≡ true) × (e.session_id ≡ sid) × (role_of e ≡ role)
slot_of sid role e h =
    let (rest, r) = and_true (is_ready e.status && e.session_id == sid) (role_of e == role) h in
    let (ready, s) = and_true (is_ready e.status) (e.session_id == sid) rest in
    (ready, beq→eq e.session_id sid s, beq→eq (role_of e) role r)
