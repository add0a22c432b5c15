-- ===== src/Projection/Sorting.antt =====
-- The stable sort of wake reasons, the collecting loop and the delay.
use aize.Prelude.{
  ℕ, ◌≤◌, ◌≡◌, refl, ◌∙◌, ap, ◌↔◌, ◌⊎◌, inl, inr, true, false, Option, some, List, [], ◌∷◌, arith,
  leb, In, All, Bool-cases, Option-cases, nat_Eq,
}
use aize.State.{WakeReason}
use aize.Projection.{DispatchLogItem, collect, insert_by_seq, sort_by_seq}

abbrev pub Sorted : List WakeReason → Type 0
Sorted [] = Unit
Sorted (x ∷ xs) = All (λ (y : WakeReason). x.seq ≤ y.seq) xs × Sorted xs

In-insert :
    (r w : WakeReason) (xs : List WakeReason) → In w (insert_by_seq r xs) ↔ ((r ≡ w) ⊎ In w xs)
unfolding insert_by_seq
In-insert r w [] = ((λ m. m), λ m. m)
In-insert r w (x ∷ xs) = elim (Bool-cases (leb r.seq x.seq)) [
  | inl t ↦ rw t ((λ m. m), λ m. m)
  | inr f ↦ rw f (
    (λ m. elim m [
      | inl same ↦ inr (inl same)
      | inr later ↦ elim ((In-insert r w xs).0 later) [
        | inl new ↦ inl new
        | inr old ↦ inr (inr old)
      ]
    ]),
    λ m. elim m [
      | inl new ↦ inr ((In-insert r w xs).1 (inl new))
      | inr (inl same) ↦ inl same
      | inr (inr old) ↦ inr ((In-insert r w xs).1 (inr old))
    ],
  )
]

pub In-sort : (w : WakeReason) (xs : List WakeReason) → In w (sort_by_seq xs) ↔ In w xs
unfolding sort_by_seq
In-sort w [] = ((λ m. m), λ m. m)
In-sort w (x ∷ xs) = (
  λ m. elim ((In-insert x w (sort_by_seq xs)).0 m) [
    | inl same ↦ inl same
    | inr later ↦ inr ((In-sort w xs).0 later)
  ],
  λ m. elim m [
    | inl same ↦ (In-insert x w (sort_by_seq xs)).1 (inl same)
    | inr later ↦ (In-insert x w (sort_by_seq xs)).1 (inr ((In-sort w xs).1 later))
  ],
)

abbrev Above : ℕ → List WakeReason → Type 0
Above n xs = All (λ (y : WakeReason). n ≤ y.seq) xs

Above-le : (m n : ℕ) (xs : List WakeReason) → m ≤ n → Above n xs → Above m xs
Above-le m n [] h a = tt
Above-le m n (x ∷ xs) h a = (omega arith, Above-le m n xs h a.1)

Above-insert :
    (n : ℕ) (r : WakeReason) (xs : List WakeReason)
    → n ≤ r.seq
    → Above n xs
    → Above n (insert_by_seq r xs)
unfolding insert_by_seq
Above-insert n r [] h a = (h, tt)
Above-insert n r (x ∷ xs) h a = elim (Bool-cases (leb r.seq x.seq)) [
  | inl t ↦ rw t (h, a)
  | inr f ↦ rw f (a.0, Above-insert n r xs h a.1)
]

leb_le : (a b : ℕ) → leb a b ≡ true → a ≤ b
leb_le a b h = ground arith

leb_ge : (a b : ℕ) → leb a b ≡ false → b ≤ a
leb_ge a b h = ground arith

Sorted-insert : (r : WakeReason) (xs : List WakeReason) → Sorted xs → Sorted (insert_by_seq r xs)
unfolding insert_by_seq
Sorted-insert r [] s = (tt, tt)
Sorted-insert r (x ∷ xs) s = elim (Bool-cases (leb r.seq x.seq)) [
  | inl t ↦ rw t ((leb_le _ _ t, Above-le r.seq x.seq xs (leb_le _ _ t) s.0), s)
  | inr f ↦ rw f (Above-insert x.seq r xs (leb_ge _ _ f) s.0, Sorted-insert r xs s.1)
]

pub sort-Sorted : (xs : List WakeReason) → Sorted (sort_by_seq xs)
unfolding sort_by_seq
sort-Sorted [] = tt
sort-Sorted (x ∷ xs) = Sorted-insert x (sort_by_seq xs) (sort-Sorted xs)

module _ (f : DispatchLogItem → Option WakeReason) where
  pub collect-In :
      (w : WakeReason) (items : List DispatchLogItem)
      → In w (collect f items)
      → (item : DispatchLogItem) × In item items × (f item ≡ some w)
  unfolding collect
  collect-In w [] m = absurd m
  collect-In w (x ∷ items) m = elim (Option-cases (f x)) [
    | inl e ↦ let (item, there, h) = collect-In w items (rw e at m) in (item, inr there, h)
    | inr (r, e) ↦ elim (rw e at m) [
      | inl same ↦ (x, inl refl, e ∙ ap some same)
      | inr later ↦ let (item, there, h) = collect-In w items later in (item, inr there, h)
    ]
  ]

  pub In-collect :
      (w : WakeReason) (items : List DispatchLogItem) (item : DispatchLogItem)
      → In item items
      → f item ≡ some w
      → In w (collect f items)
  unfolding collect
  In-collect w [] item m h = m
  In-collect w (x ∷ items) item (inl same) h = rw (ap f same ∙ h) (inl refl)
  In-collect w (x ∷ items) item (inr m) h = elim (Option-cases (f x)) [
    | inl e ↦ rw e (In-collect w items item m h)
    | inr (r, e) ↦ rw e (inr (In-collect w items item m h))
  ]
