-- ===== src/Lots.antt =====
-- The lots of the dispatch daemon: `_submit_available_lots` and `_collect_completed_lots` of
-- src/cli/workers.py. A lot is its number; what its future holds is data.
pub mod Submit
mod Examples
use aize.Prelude.{
  ℕ, zero, suc, ◌+◌, Bool, true, false, Option, none, some, List, [], ◌∷◌, ◌++◌, ◌==◌, nat_Eq,
  if◌then◌else◌, leb, ltb, length, contains,
}

-- The loop over `range(lot_id, target_lots + 1)`, which has `left` numbers: the active lots behind it,
-- and the submitted ones.
unfoldable pub submit_lots : ℕ → ℕ → ℕ → List ℕ → List ℕ × List ℕ
unfolding contains
submit_lots zero lot_id target active = (active, [])
submit_lots (suc left) lot_id target active =
    let skip = submit_lots left (suc lot_id) target active in
    let more = submit_lots left (suc lot_id) target (active ++ lot_id ∷ []) in
    if leb target (length active)
    then (active, [])
    else if contains lot_id active
    then skip
    else (more.0, lot_id ∷ more.1)

unfoldable pub submit_available_lots : ℕ → List ℕ → List ℕ × List ℕ
unfolding submit_lots
submit_available_lots target active =
    if ltb target 1 then (active, []) else submit_lots target 1 target active

-- A lot's future: it runs, it gave a result or nothing, or it raised.
pub data Future {ℓ} (A : Type ℓ) : Type ℓ where
  running : Future A
  returned : Option A → Future A
  raised : Future A

module _ {ℓ} {A : Type ℓ} where
  abbrev result_of : Future A → List A
  result_of running = []
  result_of (returned none) = []
  result_of (returned (some a)) = a ∷ []
  result_of raised = []

  abbrev is_done : Future A → Bool
  is_done running = false
  is_done (returned o) = true
  is_done raised = true

  -- The lots that still run, the results, and the numbers of the completed lots.
  unfoldable pub collect_completed_lots :
      List (ℕ × Future A) → List A → List (ℕ × Future A) × (List A × List ℕ)
  collect_completed_lots [] dispatched = ([], (dispatched, []))
  collect_completed_lots ((lot_id, future) ∷ lots) dispatched =
      let (rest, (results, completed)) =
        collect_completed_lots lots (dispatched ++ result_of future) in
      if is_done future
      then (rest, (results, lot_id ∷ completed))
      else ((lot_id, future) ∷ rest, (results, completed))
