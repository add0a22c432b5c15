-- ===== src/Lots/Examples.antt =====
-- Tests of the lots, and their theorem at concrete ones.
use aize.Prelude.{ℕ, ◌≡◌, refl, [], ◌∷◌, none, some}
use aize.Lots.{submit_available_lots, collect_completed_lots, running, returned, raised}
use aize.Lots.Submit.{IsSubmit, submit_available_lots-IsSubmit}

two_more : submit_available_lots 3 (2 ∷ []) ≡ (2 ∷ 1 ∷ 3 ∷ [], 1 ∷ 3 ∷ [])
unfolding submit_available_lots
two_more = refl

-- A lot above a lowered target keeps its place.
lowered : submit_available_lots 1 (4 ∷ []) ≡ (4 ∷ [], [])
unfolding submit_available_lots
lowered = refl

collected :
    collect_completed_lots {A = ℕ}
      ((1, running) ∷ (2, returned (some 7)) ∷ (3, raised) ∷ (4, returned none) ∷ [])
      []
    ≡ ((1, running) ∷ [], (7 ∷ [], 2 ∷ 3 ∷ 4 ∷ []))
unfolding collect_completed_lots
collected = refl

submit_available_lots-IsSubmit_example : IsSubmit 1 3 (2 ∷ []) (submit_available_lots 3 (2 ∷ []))
submit_available_lots-IsSubmit_example = submit_available_lots-IsSubmit 3 (2 ∷ [])
