-- ===== src/Prelude/Minimum.antt =====
-- Python's `min(items, key=...)`: the first item whose key no other key undercuts.
use Prim.Native.Nat.{Ordering}
use mathlib.Core.Path.{◌≡◌, refl, sym, ◌∙◌, subst}
use mathlib.Core.Logic.{◌≢◌, ◌⊎◌, inl, inr}
use mathlib.Core.Bool.{Bool, true, false}
use mathlib.Core.List.{List, [], ◌∷◌}
use native.Mathlib.Omega.{arith}
use aize.Prelude.Tests.{if◌then◌else◌, Bool-cases}
use aize.Prelude.Lists.{In}
use aize.Prelude.Order.{Order}

abbrev pub is_lt : Ordering → Bool
is_lt Ordering.lt = true
is_lt Ordering.eq = false
is_lt Ordering.gt = false

module _ {K : Type 0} (o : Order K) where
  -- `a <= b`
  abbrev pub AtMost : K → K → Type 0
  AtMost a b = o.cmp a b ≢ Ordering.gt

  pub AtMost-refl : (a : K) → AtMost a a
  AtMost-refl a h = ground (arith, o.cmp_swap a a)

  pub AtMost-trans : (a b c : K) → AtMost a b → AtMost b c → AtMost a c
  AtMost-trans a b c h k = split (o.cmp a b) refl (o.cmp b c) refl
    where
      split : (x : Ordering) → o.cmp a b ≡ x → (y : Ordering) → o.cmp b c ≡ y → AtMost a c
      split Ordering.eq p y q = subst (λ z. AtMost z c) (sym (o.cmp_eq a b p)) k
      split Ordering.gt p y q = absurd (h p)
      split Ordering.lt p Ordering.lt q = λ z. cc (o.cmp_trans a b c p q, z)
      split Ordering.lt p Ordering.eq q = subst (λ z. AtMost a z) (o.cmp_eq b c q) h
      split Ordering.lt p Ordering.gt q = absurd (k q)

  module _ {A : Type 0} (key : A → K) where
    abbrev pub better : A → A → A
    better x best = if is_lt (o.cmp (key x) (key best)) then x else best

    unfoldable pub min_from : A → List A → A
    min_from best [] = best
    min_from best (x ∷ xs) = min_from (better x best) xs

    -- The better one is one of the two, and at most either.
    better_cases :
        (x best : A)
        → ((better x best ≡ x) ⊎ (better x best ≡ best))
          × AtMost (key (better x best)) (key x)
          × AtMost (key (better x best)) (key best)
    better_cases x best = elim (Bool-cases (is_lt (o.cmp (key x) (key best)))) [
      | inl t ↦ rw t (inl refl, AtMost-refl (key x), λ h. ground arith)
      | inr f ↦ rw f (
        inr refl,
        (λ h. ground (arith, o.cmp_swap (key x) (key best), o.cmp_swap (key best) (key x))),
        AtMost-refl (key best),
      )
    ]

    pub min_from-In : (best : A) (xs : List A) → In (min_from best xs) (best ∷ xs)
    unfolding min_from
    min_from-In best [] = inl refl
    min_from-In best (x ∷ xs) = elim (min_from-In (better x best) xs) [
      | inl same ↦ elim ((better_cases x best).0) [
        | inl new ↦ inr (inl (sym new ∙ same))
        | inr old ↦ inl (sym old ∙ same)
      ]
      | inr m ↦ inr (inr m)
    ]

    pub min_from-AtMost :
        (best : A) (xs : List A) (y : A)
        → In y (best ∷ xs)
        → AtMost (key (min_from best xs)) (key y)
    unfolding min_from
    min_from-AtMost best [] y (inl same) =
        subst (λ z. AtMost (key best) (key z)) same (AtMost-refl (key best))
    min_from-AtMost best [] y (inr m) = absurd m
    min_from-AtMost best (x ∷ xs) y (inr (inr m)) = min_from-AtMost (better x best) xs y (inr m)
    min_from-AtMost best (x ∷ xs) y (inr (inl same)) =
        subst (λ z. AtMost (key (min_from (better x best) xs)) (key z)) same
          (AtMost-trans _ (key (better x best)) (key x)
            (min_from-AtMost (better x best) xs (better x best) (inl refl)) (better_cases x best).1)
    min_from-AtMost best (x ∷ xs) y (inl same) =
        subst (λ z. AtMost (key (min_from (better x best) xs)) (key z)) same
          (AtMost-trans _ (key (better x best)) (key best)
            (min_from-AtMost (better x best) xs (better x best) (inl refl)) (better_cases x best).2)
