-- ===== src/Prelude/Sort.antt =====
-- Python's `sorted(items, key=...)`, a stable sort, and the last of a list.
use mathlib.Core.Path.{◌≡◌, refl, sym, ◌∙◌, subst}
use mathlib.Core.Logic.{◌⊎◌, inl, inr}
use mathlib.Core.Bool.{true, false}
use mathlib.Core.Option.{Option, none, some}
use mathlib.Core.Option.{some-injective}
use mathlib.Core.List.{List, [], ◌∷◌}
use native.Mathlib.Omega.{arith}
use aize.Prelude.Tests.{if◌then◌else◌, Bool-cases}
use aize.Prelude.Lists.{In, All, Each}
use aize.Prelude.Order.{Order}
use aize.Prelude.Minimum.{AtMost, AtMost-refl, AtMost-trans, is_lt}

-- `items[-1] if items else None`
unfoldable pub last_of {ℓ} : {A : Type ℓ} → List A → Option A
last_of [] = none
last_of (x ∷ []) = some x
last_of (x ∷ y ∷ ys) = last_of (y ∷ ys)

pub last_of-In : {A : Type 0} (xs : List A) (a : A) → In a xs → last_of xs ≡ none → ⊥
unfolding last_of
last_of-In [] a m h = m
last_of-In (x ∷ []) a m h = cc
last_of-In (x ∷ y ∷ ys) a m h = last_of-In (y ∷ ys) y (inl refl) h

module _ {K : Type 0} (o : Order K) {A : Type 0} (key : A → K) where
  unfoldable pub insert_by : A → List A → List A
  insert_by x [] = x ∷ []
  insert_by x (y ∷ ys) =
      let rest = insert_by x ys in if is_lt (o.cmp (key y) (key x)) then y ∷ rest else x ∷ y ∷ ys

  unfoldable pub sort_by : List A → List A
  unfolding insert_by
  sort_by [] = []
  sort_by (x ∷ xs) = insert_by x (sort_by xs)

  abbrev pub Ascending : List A → Type 0
  Ascending [] = Unit
  Ascending (x ∷ xs) = All (λ y. AtMost o (key x) (key y)) xs × Ascending xs

  lt-AtMost : (x y : A) → is_lt (o.cmp (key y) (key x)) ≡ true → AtMost o (key y) (key x)
  lt-AtMost x y h gt = ground arith

  ge-AtMost : (x y : A) → is_lt (o.cmp (key y) (key x)) ≡ false → AtMost o (key x) (key y)
  ge-AtMost x y h gt = ground (arith, o.cmp_swap (key x) (key y), o.cmp_swap (key y) (key x))

  raise_bound :
      (x y : A) (ys : List A)
      → AtMost o (key x) (key y)
      → All (λ z. AtMost o (key y) (key z)) ys
      → All (λ z. AtMost o (key x) (key z)) ys
  raise_bound x y [] h all = tt
  raise_bound x y (z ∷ ys) h all =
      (AtMost-trans o (key x) (key y) (key z) h all.0, raise_bound x y ys h all.1)

  pub insert_by-All :
      (P : A → Type 0) (x : A) (ys : List A) → P x → All P ys → All P (insert_by x ys)
  unfolding insert_by
  insert_by-All P x [] h all = (h, tt)
  insert_by-All P x (y ∷ ys) h all = elim (Bool-cases (is_lt (o.cmp (key y) (key x)))) [
    | inl t ↦ rw t (all.0, insert_by-All P x ys h all.1)
    | inr f ↦ rw f (h, all)
  ]

  insert_by-Ascending : (x : A) (ys : List A) → Ascending ys → Ascending (insert_by x ys)
  unfolding insert_by
  insert_by-Ascending x [] s = (tt, tt)
  insert_by-Ascending x (y ∷ ys) s = elim (Bool-cases (is_lt (o.cmp (key y) (key x)))) [
    | inl t ↦ rw t (
      insert_by-All (λ z. AtMost o (key y) (key z)) x ys (lt-AtMost x y t) s.0,
      insert_by-Ascending x ys s.1,
    )
    | inr f ↦ rw f ((ge-AtMost x y f, raise_bound x y ys (ge-AtMost x y f) s.0), s)
  ]

  pub sort_by-Ascending : (xs : List A) → Ascending (sort_by xs)
  unfolding sort_by
  sort_by-Ascending [] = tt
  sort_by-Ascending (x ∷ xs) = insert_by-Ascending x (sort_by xs) (sort_by-Ascending xs)

  In-insert_by_of : (a x : A) (ys : List A) → (x ≡ a) ⊎ In a ys → In a (insert_by x ys)
  unfolding insert_by
  In-insert_by_of a x [] m = m
  In-insert_by_of a x (y ∷ ys) m = elim (Bool-cases (is_lt (o.cmp (key y) (key x)))) [
    | inl t ↦ rw t (elim m [
      | inl new ↦ inr (In-insert_by_of a x ys (inl new))
      | inr (inl same) ↦ inl same
      | inr (inr old) ↦ inr (In-insert_by_of a x ys (inr old))
    ])
    | inr f ↦ rw f m
  ]

  In-insert_by : (a x : A) (ys : List A) → In a (insert_by x ys) → (x ≡ a) ⊎ In a ys
  unfolding insert_by
  In-insert_by a x [] m = m
  In-insert_by a x (y ∷ ys) m = elim (Bool-cases (is_lt (o.cmp (key y) (key x)))) [
    | inl t ↦ elim (rw t at m) [
      | inl same ↦ inr (inl same)
      | inr rest ↦ elim (In-insert_by a x ys rest) [ inl new ↦ inl new | inr old ↦ inr (inr old) ]
    ]
    | inr f ↦ rw f at m
  ]

  pub In-sort_by : (a : A) (xs : List A) → In a (sort_by xs) → In a xs
  unfolding sort_by
  In-sort_by a [] m = m
  In-sort_by a (x ∷ xs) m = elim (In-insert_by a x (sort_by xs) m) [
    | inl new ↦ inl new
    | inr old ↦ inr (In-sort_by a xs old)
  ]

  pub In-sort_by_of : (a : A) (xs : List A) → In a xs → In a (sort_by xs)
  unfolding sort_by
  In-sort_by_of a [] m = m
  In-sort_by_of a (x ∷ xs) m =
      In-insert_by_of a x (sort_by xs)
        (elim m [ inl new ↦ inl new | inr old ↦ inr (In-sort_by_of a xs old) ])

  -- The last of an ascending list is one of greatest key.
  last_of-greatest :
      (xs : List A) {a : A}
      → Ascending xs
      → last_of xs ≡ some a
      → In a xs × ((y : A) → In y xs → AtMost o (key y) (key a))
  unfolding last_of
  last_of-greatest [] s h = cc
  last_of-greatest (x ∷ []) {a} s h =
      let same = some-injective _ _ h in
      (
        inl same,
        λ y m. elim m [
          | inl e ↦ subst (λ z. AtMost o (key z) (key a)) (sym same ∙ e) (AtMost-refl o (key a))
          | inr nowhere ↦ absurd nowhere
        ],
      )
  last_of-greatest (x ∷ y ∷ ys) {a} s h =
      let (m, top) = last_of-greatest (y ∷ ys) s.1 h in
      (
        inr m,
        λ z n. elim n [
          | inl e ↦
              subst (λ w. AtMost o (key w) (key a)) e
                (AtMost-trans o (key x) (key y) (key a) s.0.0 (top y (inl refl)))
          | inr n' ↦ top z n'
        ],
      )

  -- `sorted(items, key=...)[-1]` has the greatest key.
  pub last-sort_by :
      (xs : List A) {a : A}
      → last_of (sort_by xs) ≡ some a
      → In a xs × ((y : A) → In y xs → AtMost o (key y) (key a))
  last-sort_by xs h =
      let (m, top) = last_of-greatest (sort_by xs) (sort_by-Ascending xs) h in
      (In-sort_by _ xs m, λ y n. top y (In-sort_by_of y xs n))

  -- Lists that agree item by item, in the keys too, stay so when they are sorted.
  module _ (R : A → A → Type 0) (alike : (x y : A) → R x y → key x ≡ key y) where
    insert_by-Each :
        (x y : A) (xs ys : List A) → R x y → Each R xs ys → Each R (insert_by x xs) (insert_by y ys)
    unfolding insert_by
    insert_by-Each x y [] [] r e = (r, tt)
    insert_by-Each x y [] (b ∷ ys) r e = absurd e
    insert_by-Each x y (a ∷ xs) [] r e = absurd e
    insert_by-Each x y (a ∷ xs) (b ∷ ys) r e =
        let same : is_lt (o.cmp (key b) (key y)) ≡ is_lt (o.cmp (key a) (key x)) =
          rw (alike x y r, alike a b e.0) refl in
        elim (Bool-cases (is_lt (o.cmp (key a) (key x)))) [
          | inl t ↦ rw (t, same ∙ t) (e.0, insert_by-Each x y xs ys r e.1)
          | inr f ↦ rw (f, same ∙ f) (r, e)
        ]

    pub sort_by-Each : (xs ys : List A) → Each R xs ys → Each R (sort_by xs) (sort_by ys)
    unfolding sort_by
    sort_by-Each [] [] e = tt
    sort_by-Each [] (y ∷ ys) e = absurd e
    sort_by-Each (x ∷ xs) [] e = absurd e
    sort_by-Each (x ∷ xs) (y ∷ ys) e =
        insert_by-Each x y (sort_by xs) (sort_by ys) e.0 (sort_by-Each xs ys e.1)

pub last_of-Each :
    {A : Type 0} (R : A → A → Type 0) (xs ys : List A)
    → Each R xs ys
    → {a : A} → last_of xs ≡ some a
    → (b : A) × (last_of ys ≡ some b) × R a b
unfolding last_of
last_of-Each R [] ys e h = cc
last_of-Each R (x ∷ xs) [] e h = absurd e
last_of-Each R (x ∷ []) (y ∷ []) e h = (y, refl, rw (some-injective _ _ h) at e.0)
last_of-Each R (x ∷ []) (y ∷ z ∷ ys) e h = absurd e.1
last_of-Each R (x ∷ w ∷ xs) (y ∷ []) e h = absurd e.1
last_of-Each R (x ∷ w ∷ xs) (y ∷ z ∷ ys) e h = last_of-Each R (w ∷ xs) (z ∷ ys) e.1 h
