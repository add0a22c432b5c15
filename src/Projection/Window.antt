-- ===== src/Projection/Window.antt =====
-- The window and the delay of a derived readiness.
use aize.Prelude.{
  ℕ, ◌≤◌, suc, String, ◌≡◌, refl, sym, ◌∙◌, ap, subst, ◌↔◌, ◌⊎◌, inl, inr, Bool, true, false, List,
  [], ◌∷◌, map, arith, leb, length, In, keep_if, Bool-cases, nat_Eq, truthy, beq_refl, ne→beq, min,
  max,
}
use aize.Prelude.Order.{str_Order}
use aize.Prelude.Minimum.{AtMost, min_from-In, min_from-AtMost}
use aize.State.{WakeReason}
use aize.Projection.{DispatchLogItem, delay_of, is_delayed, min_seq, max_seq}

abbrev pub LeastSeq : ℕ → List DispatchLogItem → Type 0
LeastSeq n items =
    ((x : DispatchLogItem) → In x items → n ≤ x.entry.seq)
    × ((x : DispatchLogItem) × In x items × (x.entry.seq ≡ n))

abbrev pub GreatestSeq : ℕ → List DispatchLogItem → Type 0
GreatestSeq n items =
    ((x : DispatchLogItem) → In x items → x.entry.seq ≤ n)
    × ((x : DispatchLogItem) × In x items × (x.entry.seq ≡ n))

pub min_seq-LeastSeq :
    (item : DispatchLogItem) (items : List DispatchLogItem)
    → LeastSeq (min_seq item items) (item ∷ items)
unfolding min_seq
min_seq-LeastSeq item [] = (
  (λ x m. elim m [
    | inl same ↦ subst (λ y. item.entry.seq ≤ y.entry.seq) same (omega arith)
    | inr nowhere ↦ absurd nowhere
  ]),
  (item, inl refl, refl),
)
min_seq-LeastSeq item (next ∷ items) =
    let (lower, least) = min_seq-LeastSeq next items in
    let (y, there, e) = least in
    (
      (λ x m. elim m [
        | inl same ↦
            subst (λ z. min item.entry.seq (min_seq next items) ≤ z.entry.seq) same (omega arith)
        | inr later ↦ omega (arith, lower x later)
      ]),
      elim (Bool-cases (leb item.entry.seq (min_seq next items))) [
        | inl t ↦ (item, inl refl, ground arith)
        | inr f ↦ (y, inr there, ground (arith, e))
      ],
    )

pub max_seq-GreatestSeq :
    (item : DispatchLogItem) (items : List DispatchLogItem)
    → GreatestSeq (max_seq item items) (item ∷ items)
unfolding max_seq
max_seq-GreatestSeq item [] = (
  (λ x m. elim m [
    | inl same ↦ subst (λ y. y.entry.seq ≤ item.entry.seq) same (omega arith)
    | inr nowhere ↦ absurd nowhere
  ]),
  (item, inl refl, refl),
)
max_seq-GreatestSeq item (next ∷ items) =
    let (upper, greatest) = max_seq-GreatestSeq next items in
    let (y, there, e) = greatest in
    (
      (λ x m. elim m [
        | inl same ↦
            subst (λ z. z.entry.seq ≤ max item.entry.seq (max_seq next items)) same (omega arith)
        | inr later ↦ omega (arith, upper x later)
      ]),
      elim (Bool-cases (leb (max_seq next items) item.entry.seq)) [
        | inl t ↦ (item, inl refl, ground arith)
        | inr f ↦ (y, inr there, ground (arith, e))
      ],
    )

abbrev delay : WakeReason → String
delay w = w.available_after

-- All are kept, or one is dropped and the length falls.
keep_if_cases :
    (p : WakeReason → Bool) (xs : List WakeReason)
    → ((keep_if p xs ≡ xs) × ((w : WakeReason) → In w xs → p w ≡ true))
      ⊎ ((suc (length (keep_if p xs)) ≤ length xs) × (w : WakeReason) × In w xs × (p w ≡ false))
unfolding keep_if
keep_if_cases p [] = inl (refl, λ w m. absurd m)
keep_if_cases p (x ∷ xs) = elim (Bool-cases (p x)) [
  | inl t ↦ elim (keep_if_cases p xs) [
    | inl all ↦ rw t (
        inl (
          ap (λ l. x ∷ l) all.0,
          λ w m. elim m [ inl same ↦ ap p (sym same) ∙ t | inr later ↦ all.1 w later ],
        ))
    | inr (fewer, w, m, f) ↦ rw t (inr (omega (arith, fewer), w, inr m, f))
  ]
  | inr f ↦ elim (keep_if_cases p xs) [
    | inl all ↦ rw f (inr (omega (arith, ap length all.0), x, inl refl, f))
    | inr (fewer, w, m, g) ↦ rw f (inr (omega (arith, fewer), x, inl refl, f))
  ]
]

In-map : (w : WakeReason) (xs : List WakeReason) → In w xs → In (delay w) (map delay xs)
In-map w [] m = absurd m
In-map w (x ∷ xs) (inl same) = inl (ap delay same)
In-map w (x ∷ xs) (inr m) = inr (In-map w xs m)

map-In :
    (s : String) (xs : List WakeReason)
    → In s (map delay xs)
    → (w : WakeReason) × In w xs × (delay w ≡ s)
map-In s [] m = absurd m
map-In s (x ∷ xs) (inl same) = (x, inl refl, same)
map-In s (x ∷ xs) (inr m) = let (w, there, e) = map-In s xs m in (w, inr there, e)

-- Every reason is delayed and the delay is the earliest of theirs, or some reason is immediate and
-- there is no delay.
abbrev pub DelayOf : String → List WakeReason → Type 0
DelayOf d xs =
    (((w : WakeReason) → In w xs → truthy w.available_after ≡ true)
      × ((w : WakeReason) → In w xs → AtMost str_Order d w.available_after)
      × ((w : WakeReason) × In w xs × (w.available_after ≡ d)))
    ⊎ ((d ≡ "") × (w : WakeReason) × In w xs × (truthy w.available_after ≡ false))

pub delay_of-DelayOf :
    (r : WakeReason) (rs : List WakeReason) → DelayOf (delay_of (r ∷ rs)) (r ∷ rs)
unfolding delay_of
delay_of-DelayOf r rs = elim (keep_if_cases is_delayed (r ∷ rs)) [
  | inl (same, all) ↦
      rw (same, beq_refl (length (r ∷ rs)))
        (inl (
          all,
          (λ w m.
              min_from-AtMost str_Order (λ s. s) (delay r) (map delay rs) (delay w)
                (In-map w (r ∷ rs) m)),
          map-In _ (r ∷ rs) (min_from-In str_Order (λ s. s) (delay r) (map delay rs)),
        ))
  | inr (fewer, w, m, f) ↦
      rw (ne→beq (length (keep_if is_delayed (r ∷ rs))) (length (r ∷ rs)) (omega arith))
        (inr (refl, w, m, f))
]

-- The delay does not depend on the order of the reasons.
pub DelayOf-In :
    (d : String) (xs ys : List WakeReason)
    → ((w : WakeReason) → In w xs ↔ In w ys)
    → DelayOf d xs
    → DelayOf d ys
DelayOf-In d xs ys same (inl (all, least, (w, m, e))) =
    inl ((λ v n. all v ((same v).1 n)), (λ v n. least v ((same v).1 n)), (w, (same w).0 m, e))
DelayOf-In d xs ys same (inr (e, w, m, f)) = inr (e, w, (same w).0 m, f)
