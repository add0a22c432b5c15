-- ===== src/Prelude/Order.antt =====
-- Total comparisons, as Python's `<` gives them on texts, integers and tuples.
use Prim.Native.Nat.{ℕ, compare, Ordering}
use Prim.Native.String.compare
use Prim.Native.Char.{code}
use Prim.Native.String.{String, [], ◌∷◌, compare as str_compare, then}
use mathlib.Core.Path.{◌≡◌, refl, sym, ap}
use native.Mathlib.Omega.{arith}
use text.Mathlib.TextEquality.{path_by_compare, codes_equal}
use text.Mathlib.TextPositions.{compare_refl}

abbrev pub flip : Ordering → Ordering
flip Ordering.lt = Ordering.gt
flip Ordering.eq = Ordering.eq
flip Ordering.gt = Ordering.lt

pub record Order {ℓ} (A : Type ℓ) : Type ℓ where
  pub cmp : A → A → Ordering
  pub cmp_swap : (a b : A) → cmp b a ≡ flip (cmp a b)
  pub cmp_eq : (a b : A) → cmp a b ≡ Ordering.eq → a ≡ b
  pub cmp_trans :
      (a b c : A) → cmp a b ≡ Ordering.lt → cmp b c ≡ Ordering.lt → cmp a c ≡ Ordering.lt

pub nat_swap : (a b : ℕ) → compare b a ≡ flip (compare a b)
nat_swap a b = ground arith

pub nat_eq : (a b : ℕ) → compare a b ≡ Ordering.eq → a ≡ b
nat_eq a b h = ground arith

pub nat_trans :
    (a b c : ℕ) → compare a b ≡ Ordering.lt → compare b c ≡ Ordering.lt → compare a c ≡ Ordering.lt
nat_trans a b c h k = ground arith

abbrev pub nat_Order : Order ℕ
nat_Order = record { cmp = compare; cmp_swap = nat_swap; cmp_eq = nat_eq; cmp_trans = nat_trans }

then-flip : (a b : Ordering) → then (flip a) (flip b) ≡ flip (then a b)
then-flip Ordering.lt b = refl
then-flip Ordering.eq b = refl
then-flip Ordering.gt b = refl

pub str_swap : (s t : String) → str_compare t s ≡ flip (str_compare s t)
str_swap [] [] = rw (compare_refl []) refl
str_swap [] (d ∷ t) = rw (compare.nil-cons d t, compare.cons-nil d t) refl
str_swap (c ∷ s) [] = rw (compare.nil-cons c s, compare.cons-nil c s) refl
str_swap (c ∷ s) (d ∷ t) =
    rw
      (
        compare.cons-cons c d s t,
        compare.cons-cons d c t s,
        nat_swap (code c) (code d),
        str_swap s t,
      )
      (then-flip (compare (code c) (code d)) (str_compare s t))

-- A lexicographic step is transitive where the first comparison is, and its `eq` is equality.
then_trans :
    {ab bc ac ab' bc' ac' : Ordering}
    → (ab ≡ Ordering.lt → bc ≡ Ordering.lt → ac ≡ Ordering.lt)
    → (ab ≡ Ordering.eq → ac ≡ bc)
    → (bc ≡ Ordering.eq → ac ≡ ab)
    → (ab' ≡ Ordering.lt → bc' ≡ Ordering.lt → ac' ≡ Ordering.lt)
    → then ab ab' ≡ Ordering.lt
    → then bc bc' ≡ Ordering.lt
    → then ac ac' ≡ Ordering.lt
then_trans f g h k p q = ground (arith, f, g, h, k)

pub str_trans :
    (s t u : String)
    → str_compare s t ≡ Ordering.lt
    → str_compare t u ≡ Ordering.lt
    → str_compare s u ≡ Ordering.lt
str_trans [] [] u h k = k
str_trans [] (d ∷ t) [] h k = cc (compare.cons-nil d t)
str_trans [] (d ∷ t) (e ∷ u) h k = compare.nil-cons e u
str_trans (c ∷ s) [] u h k = cc (compare.cons-nil c s)
str_trans (c ∷ s) (d ∷ t) [] h k = cc (compare.cons-nil d t)
str_trans (c ∷ s) (d ∷ t) (e ∷ u) h k = rw (compare.cons-cons c e s u) (
    then_trans (nat_trans (code c) (code d) (code e))
      (λ x. ap (λ a. compare (code a) (code e)) (codes_equal c d x))
      (λ x. ap (λ a. compare (code c) (code a)) (sym (codes_equal d e x))) (str_trans s t u)
      (rw (compare.cons-cons c d s t) at h) (rw (compare.cons-cons d e t u) at k))

abbrev pub str_Order : Order String
str_Order = record {
  cmp = str_compare;
  cmp_swap = str_swap;
  cmp_eq = path_by_compare;
  cmp_trans = str_trans;
}

-- Tuples, first field first.
module _ {ℓ κ} {A : Type ℓ} {B : Type κ} (p : Order A) (q : Order B) where
  abbrev pub pair_cmp : A × B → A × B → Ordering
  pair_cmp (a, b) (c, d) = then (p.cmp a c) (q.cmp b d)

  pub pair_swap : (x y : A × B) → pair_cmp y x ≡ flip (pair_cmp x y)
  pair_swap (a, b) (c, d) = rw (p.cmp_swap a c, q.cmp_swap b d) (then-flip (p.cmp a c) (q.cmp b d))

  then_eq : {x y : Ordering} → then x y ≡ Ordering.eq → (x ≡ Ordering.eq) × (y ≡ Ordering.eq)
  then_eq h = ground arith

  pub pair_eq : (x y : A × B) → pair_cmp x y ≡ Ordering.eq → x ≡ y
  pair_eq (a, b) (c, d) h =
      let both = then_eq h in
      let e = p.cmp_eq a c both.0 in let e' = q.cmp_eq b d both.1 in λ i. (e i, e' i)

  pub pair_trans :
      (x y z : A × B)
      → pair_cmp x y ≡ Ordering.lt
      → pair_cmp y z ≡ Ordering.lt
      → pair_cmp x z ≡ Ordering.lt
  pair_trans (a, b) (c, d) (e, f) h k =
      then_trans (p.cmp_trans a c e) (λ x. ap (λ y. p.cmp y e) (p.cmp_eq a c x))
        (λ x. ap (λ y. p.cmp a y) (sym (p.cmp_eq c e x))) (q.cmp_trans b d f) h k

  abbrev pub pair_Order : Order (A × B)
  pair_Order = record {
    cmp = pair_cmp;
    cmp_swap = pair_swap;
    cmp_eq = pair_eq;
    cmp_trans = pair_trans;
  }
