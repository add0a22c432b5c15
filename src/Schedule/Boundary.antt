-- ===== src/Schedule/Boundary.antt =====
-- The next boundary of an interval.
use aize.Prelude.{
  ℕ, zero, suc, ◌+◌, ◌-◌, ◌≤◌, ◌<◌, ◌≡◌, refl, false, some, arith, leb, Bool-cases, inl, inr,
}
use aize.Schedule.{advance, next_boundary}

-- The boundary after `k` intervals.
abbrev pub boundary : ℕ → ℕ → ℕ → ℕ
boundary zero anchor interval = anchor
boundary (suc k) anchor interval = boundary k (anchor + interval) interval

-- The first boundary after `completed`.
pub record IsNext (anchor completed interval b : ℕ) : Type 0 where
  pub steps : ℕ
  pub on_grid : b ≡ boundary steps anchor interval
  pub future : completed < b
  pub first : (j : ℕ) → j < steps → boundary j anchor interval ≤ completed

firsts :
    (candidate completed interval steps : ℕ)
    → candidate ≤ completed
    → ((j : ℕ) → j < steps → boundary j (candidate + interval) interval ≤ completed)
    → (j : ℕ) → j < suc steps
    → boundary j candidate interval ≤ completed
firsts candidate completed interval steps past rest zero h = past
firsts candidate completed interval steps past rest (suc j) h = rest j (omega arith)

IsNext-late :
    (candidate completed interval : ℕ)
    → completed < candidate
    → IsNext candidate completed interval candidate
IsNext-late candidate completed interval h = record {
  steps = 0;
  on_grid = refl;
  future = h;
  first = λ j k. absurd (omega arith);
}

advance-IsNext :
    (fuel completed interval candidate : ℕ)
    → 0 < interval
    → completed < candidate + fuel
    → (b : ℕ) × (advance (suc fuel) completed interval candidate ≡ some b)
      × IsNext candidate completed interval b
unfolding advance
advance-IsNext zero completed interval candidate positive enough =
    let late : leb candidate completed ≡ false = ground arith in
    rw late (candidate, refl, IsNext-late candidate completed interval (omega arith))
advance-IsNext (suc fuel) completed interval candidate positive enough =
    elim (Bool-cases (leb candidate completed)) [
      | inr late ↦
          rw late (candidate, refl, IsNext-late candidate completed interval (ground (arith, late)))
      | inl early ↦
          let past : candidate ≤ completed = ground (arith, early) in
          let (b, found, next) =
            advance-IsNext fuel completed interval (candidate + interval) positive (omega arith) in
          rw early (
            b,
            found,
            record {
              steps = suc next.steps;
              on_grid = next.on_grid;
              future = next.future;
              first = firsts candidate completed interval next.steps past next.first;
            },
          )
    ]

-- The loop of `next_interval_boundary` ends for every positive interval, at the first of the instants
-- anchor, anchor + interval, anchor + 2 intervals, ... that lies after the completion.
pub next_boundary-IsNext :
    (anchor completed interval : ℕ)
    → 0 < interval
    → (b : ℕ) × (next_boundary anchor completed interval ≡ some b)
      × IsNext anchor completed interval b
unfolding next_boundary
next_boundary-IsNext anchor completed interval positive =
    advance-IsNext (suc (completed - anchor)) completed interval anchor positive (omega arith)
