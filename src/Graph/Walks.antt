-- ===== src/Graph/Walks.antt =====
-- Walks in a Session graph.
use aize.Prelude.{String, ◌≡◌, ◌⊎◌, inl, inr, List, [], ◌∷◌, ◌++◌}
use aize.Graph.{Edge}

-- There is an edge of the list from `u` to `v`.
abbrev pub Joins : Edge → String → String → Type 0
Joins e u v = (e.parent_session_id ≡ u) × (e.child_session_id ≡ v)

abbrev pub HasEdge : List Edge → String → String → Type 0
HasEdge [] u v = ⊥
HasEdge (e ∷ es) u v = Joins e u v ⊎ HasEdge es u v

-- A walk of any length, none included.
pub data Walk (es : List Edge) (u : String) : String → Type 0 where
  here : Walk es u u
  step : {v w : String} → Walk es u v → HasEdge es v w → Walk es u w

-- No walk of one edge or more comes back to its start.
abbrev pub Acyclic : List Edge → Type 0
Acyclic es = (u v : String) → HasEdge es u v → ¬ Walk es v u

pub Walk-trans : {es : List Edge} {u v w : String} → Walk es u v → Walk es v w → Walk es u w
Walk-trans p here = p
Walk-trans p (step q e) = step (Walk-trans p q) e

pub HasEdge-snoc_cases :
    (es : List Edge) (e : Edge) {u v : String}
    → HasEdge (es ++ e ∷ []) u v
    → HasEdge es u v ⊎ Joins e u v
HasEdge-snoc_cases [] e (inl j) = inr j
HasEdge-snoc_cases [] e (inr h) = absurd h
HasEdge-snoc_cases (d ∷ es) e (inl j) = inl (inl j)
HasEdge-snoc_cases (d ∷ es) e (inr h) = elim (HasEdge-snoc_cases es e h) [
  | inl l ↦ inl (inr l)
  | inr r ↦ inr r
]

-- A walk that may use one more edge avoids it, or reaches its parent and goes on from its child.
pub Walk-snoc_cases :
    (es : List Edge) (e : Edge) {u w : String}
    → Walk (es ++ e ∷ []) u w
    → Walk es u w ⊎ (Walk es u e.parent_session_id × Walk es e.child_session_id w)
Walk-snoc_cases es e here = inl here
Walk-snoc_cases es e {u} (step {v = v} {w = w} p h) = elim (Walk-snoc_cases es e p) [
  | inl q ↦ elim (HasEdge-snoc_cases es e h) [
    | inl old ↦ inl (step q old)
    | inr j ↦ inr (rw j.0 q, rw j.1 here)
  ]
  | inr q ↦ elim (HasEdge-snoc_cases es e h) [
    | inl old ↦ inr (q.0, step q.1 old)
    | inr j ↦ inr (q.0, rw j.1 here)
  ]
]
