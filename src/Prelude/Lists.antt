-- ===== src/Prelude/Lists.antt =====
-- Lists measured by native numbers, and membership as data.
use Prim.Native.Nat.{ℕ, zero, suc, ◌+◌}
use mathlib.Core.Path.{◌≡◌, refl, sym, ap, ◌∙◌}
use mathlib.Core.Logic.{◌⊎◌, inl, inr}
use mathlib.Core.Bool.{Bool, true, false, ◌||◌}
use mathlib.Core.Option.{Option, none, some}
use mathlib.Core.List.{List, [], ◌∷◌, ◌++◌, map, reverse, reverse-cons}
use native.Mathlib.Omega.{arith}
use aize.Prelude.Tests.{if◌then◌else◌, Eq, ◌==◌, Bool-cases, beq→eq, beq_refl}

module _ {ℓ} {A : Type ℓ} where
  abbrev pub length : List A → ℕ
  length [] = 0
  length (x ∷ xs) = suc (length xs)

  abbrev pub get_elem? : List A → ℕ → Option A
  get_elem? [] i = none
  get_elem? (x ∷ xs) zero = some x
  get_elem? (x ∷ xs) (suc i) = get_elem? xs i

  -- `[x for x in xs if p(x)]`
  unfoldable pub keep_if : (A → Bool) → List A → List A
  keep_if p [] = []
  keep_if p (x ∷ xs) = let rest = keep_if p xs in if p x then x ∷ rest else rest

  -- `any(p(x) for x in xs)`
  unfoldable pub any : (A → Bool) → List A → Bool
  any p [] = false
  any p (x ∷ xs) = p x || any p xs

  -- `next((x for x in xs if p(x)), None)`
  unfoldable pub first : (A → Bool) → List A → Option A
  first p [] = none
  first p (x ∷ xs) = let rest = first p xs in if p x then some x else rest

  pub length-append : (xs ys : List A) → length (xs ++ ys) ≡ length xs + length ys
  length-append [] ys = omega arith
  length-append (x ∷ xs) ys = omega (arith, length-append xs ys)

module _ {A : Type 0} where
  -- Membership by recursion, which computes to sums that the tactics take apart.
  abbrev pub In : A → List A → Type 0
  In a [] = ⊥
  In a (x ∷ xs) = (x ≡ a) ⊎ In a xs

  abbrev pub All {κ} : (A → Type κ) → List A → Type κ
  All P [] = Unit
  All P (x ∷ xs) = P x × All P xs

  -- Two lists of one length that are related item by item.
  abbrev pub Each : (A → A → Type 0) → List A → List A → Type 0
  Each R [] [] = Unit
  Each R (x ∷ xs) (y ∷ ys) = R x y × Each R xs ys
  Each R _ _ = ⊥

  pub In-append_left : (a : A) (xs ys : List A) → In a xs → In a (xs ++ ys)
  In-append_left a [] ys h = absurd h
  In-append_left a (x ∷ xs) ys (inl e) = inl e
  In-append_left a (x ∷ xs) ys (inr h) = inr (In-append_left a xs ys h)

  pub In-append_right : (a : A) (xs ys : List A) → In a ys → In a (xs ++ ys)
  In-append_right a [] ys h = h
  In-append_right a (x ∷ xs) ys h = inr (In-append_right a xs ys h)

  pub In-append_cases : (a : A) (xs ys : List A) → In a (xs ++ ys) → In a xs ⊎ In a ys
  In-append_cases a [] ys h = inr h
  In-append_cases a (x ∷ xs) ys (inl e) = inl (inl e)
  In-append_cases a (x ∷ xs) ys (inr h) = elim (In-append_cases a xs ys h) [
    | inl l ↦ inl (inr l)
    | inr r ↦ inr r
  ]

  pub All-In {κ} : (P : A → Type κ) (xs : List A) {a : A} → All P xs → In a xs → P a
  All-In P [] h m = absurd m
  All-In P (x ∷ xs) h (inl e) = rw e at h.0
  All-In P (x ∷ xs) h (inr m) = All-In P xs h.1 m

  pub In-All {κ} : (P : A → Type κ) (xs : List A) → ((a : A) → In a xs → P a) → All P xs
  In-All P [] h = tt
  In-All P (x ∷ xs) h = (h x (inl refl), In-All P xs (λ a m. h a (inr m)))

  pub All-append {κ} : (P : A → Type κ) (xs ys : List A) → All P xs → All P ys → All P (xs ++ ys)
  All-append P [] ys h k = k
  All-append P (x ∷ xs) ys h k = (h.0, All-append P xs ys h.1 k)

  pub In-reverse : (a : A) (xs : List A) → In a (reverse xs) → In a xs
  In-reverse a [] h = h
  In-reverse a (x ∷ xs) h =
      elim (In-append_cases a (reverse xs) (x ∷ []) (rw (reverse-cons x xs) at h)) [
        | inl l ↦ inr (In-reverse a xs l)
        | inr (inl same) ↦ inl same
        | inr (inr nowhere) ↦ absurd nowhere
      ]

  pub In-reverse_of : (a : A) (xs : List A) → In a xs → In a (reverse xs)
  In-reverse_of a [] h = h
  In-reverse_of a (x ∷ xs) (inl same) =
      rw (reverse-cons x xs) (In-append_right a (reverse xs) (x ∷ []) (inl same))
  In-reverse_of a (x ∷ xs) (inr h) =
      rw (reverse-cons x xs) (In-append_left a (reverse xs) (x ∷ []) (In-reverse_of a xs h))

  pub length-reverse : (xs : List A) → length (reverse xs) ≡ length xs
  length-reverse [] = refl
  length-reverse (x ∷ xs) =
      rw (reverse-cons x xs) (omega (arith, length-append (reverse xs) (x ∷ []), length-reverse xs))

  pub keep_if-In :
      (p : A → Bool) (xs : List A) (a : A) → In a (keep_if p xs) → In a xs × (p a ≡ true)
  unfolding keep_if
  keep_if-In p [] a h = absurd h
  keep_if-In p (x ∷ xs) a h = elim (Bool-cases (p x)) [
    | inl t ↦ elim (rw t at h) [
      | inl same ↦ (inl same, ap p (sym same) ∙ t)
      | inr m ↦ let r = keep_if-In p xs a m in (inr r.0, r.1)
    ]
    | inr f ↦ let r = keep_if-In p xs a (rw f at h) in (inr r.0, r.1)
  ]

  pub In-keep_if : (p : A → Bool) (xs : List A) (a : A) → In a xs → p a ≡ true → In a (keep_if p xs)
  unfolding keep_if
  In-keep_if p [] a m h = m
  In-keep_if p (x ∷ xs) a (inl same) h = rw (ap p same ∙ h) (inl same)
  In-keep_if p (x ∷ xs) a (inr m) h = elim (Bool-cases (p x)) [
    | inl t ↦ rw t (inr (In-keep_if p xs a m h))
    | inr f ↦ rw f (In-keep_if p xs a m h)
  ]

module _ {A : Type 0} ⦃e : Eq A⦄ where
  -- `a in xs`
  unfoldable pub contains : A → List A → Bool
  contains a [] = false
  contains a (x ∷ xs) = x == a || contains a xs

  pub contains→In : (a : A) (xs : List A) → contains a xs ≡ true → In a xs
  unfolding contains
  contains→In a [] h = cc
  contains→In a (x ∷ xs) h = elim (Bool-cases (x == a)) [
    | inl t ↦ inl (beq→eq x a t)
    | inr f ↦ inr (contains→In a xs (rw f at h))
  ]

  pub In→contains : (a : A) (xs : List A) → In a xs → contains a xs ≡ true
  unfolding contains
  In→contains a [] h = absurd h
  In→contains a (x ∷ xs) (inl h) = rw (h, beq_refl a)
  In→contains a (x ∷ xs) (inr h) = elim (Bool-cases (x == a)) [
    | inl t ↦ rw t
    | inr f ↦ rw f (In→contains a xs h)
  ]

pub In-map :
    {A B : Type 0} (f : A → B) (xs : List A) (y : B)
    → In y (map f xs)
    → (x : A) × In x xs × (f x ≡ y)
In-map f [] y m = absurd m
In-map f (x ∷ xs) y (inl same) = (x, inl refl, same)
In-map f (x ∷ xs) y (inr m) = let (z, at, same) = In-map f xs y m in (z, inr at, same)
