-- ===== src/Graph/Acyclic.antt =====
-- Linking keeps the Session graph free of cycles.
use aize.Prelude.{
  beq→ne, subst, ap, ◌∙◌, and_true, beq_refl, In→contains, Option-cases, String, ◌≡◌, refl, sym,
  ◌≢◌, ◌⊎◌, inl, inr, true, none, some, List, [], ◌∷◌, ◌++◌, ◌==◌, string_Eq, Bool-cases, beq→eq,
  contains, contains→In, In, first,
}
use aize.Graph.{
  is_edge, Edge, LinkError, LinkResult, linked, refused, link_sessions, new_edge, cycle, self_edge,
  unknown_parent, unknown_child, out_of_fuel,
}
use aize.Graph.Walks.{
  Joins, HasEdge, Walk, here, step, Acyclic, Walk-trans, HasEdge-snoc_cases, Walk-snoc_cases,
}
use aize.Graph.Search.{has_path_decides}

-- An edge whose child does not reach its parent closes no cycle.
pub Acyclic-snoc :
    (es : List Edge) (e : Edge)
    → Acyclic es
    → ¬ Walk es e.child_session_id e.parent_session_id
    → Acyclic (es ++ e ∷ [])
Acyclic-snoc es e ok away u v h back = elim (HasEdge-snoc_cases es e h) [
  | inl old ↦ elim (Walk-snoc_cases es e back) [
    | inl q ↦ ok u v old q
    | inr q ↦ away (Walk-trans q.1 (Walk-trans (step here old) q.0))
  ]
  | inr j ↦ elim (Walk-snoc_cases es e back) [
    | inl q ↦ away (rw (j.0, j.1) q)
    | inr q ↦ away (rw j.1 q.0)
  ]
]

-- What `_link_sessions_in_state` asks for: two known, different Sessions, and no walk back.
pub record MayLink (sessions : List String) (es : List Edge) (parent child : String) : Type 0 where
  pub parent_known : In parent sessions
  pub child_known : In child sessions
  pub distinct : parent ≢ child
  pub no_walk_back : ¬ Walk es child parent

edges_of : LinkResult → List Edge
edges_of (linked es e) = es
edges_of (refused x) = []

linked_edges : {es es' : List Edge} {e e' : Edge} → linked es e ≡ linked es' e' → es ≡ es'
unfolding edges_of
linked_edges h = ap edges_of h

-- What a call of `_link_sessions_in_state` may come to.
abbrev pub Outcome : List String → String → String → String → List Edge → LinkResult → Type 0
Outcome sessions now parent child es r =
    ((x : LinkError) × (r ≡ refused x) × (x ≢ out_of_fuel) × ¬ MayLink sessions es parent child)
    ⊎ (MayLink sessions es parent child
        × (e : Edge) × (r ≡ linked es e)
        × Joins e parent child
        × In e es)
    ⊎ (MayLink sessions es parent child
        × (¬ HasEdge es parent child)
        × (r ≡ linked (es ++ new_edge parent child now ∷ []) (new_edge parent child now)))

is_edge-Joins :
    (parent child : String) (e : Edge) → is_edge parent child e ≡ true → Joins e parent child
is_edge-Joins parent child e h =
    let both = and_true (e.parent_session_id == parent) (e.child_session_id == child) h in
    (beq→eq e.parent_session_id parent both.0, beq→eq e.child_session_id child both.1)

first_edge :
    (es : List Edge) (parent child : String) {e : Edge}
    → first (is_edge parent child) es ≡ some e
    → HasEdge es parent child × Joins e parent child × In e es
unfolding first
first_edge [] parent child h = cc
first_edge (d ∷ es) parent child {e} h = elim (Bool-cases (is_edge parent child d)) [
  | inl t ↦
      let same = is_edge-Joins parent child d t in
      let found : d ≡ e = cc (t, h) in
      (inl same, subst (λ x. Joins x parent child) found same, inl found)
  | inr f ↦ let old = first_edge es parent child (rw f at h) in (inr old.0, old.1, inr old.2)
]

no_first_edge :
    (es : List Edge) (parent child : String)
    → first (is_edge parent child) es ≡ none
    → ¬ HasEdge es parent child
unfolding first
no_first_edge [] parent child h m = m
no_first_edge (d ∷ es) parent child h (inl j) =
    cc (rw (j.0, j.1, beq_refl parent, beq_refl child) at h)
no_first_edge (d ∷ es) parent child h (inr m) = elim (Bool-cases (is_edge parent child d)) [
  | inl t ↦ cc (rw t at h)
  | inr f ↦ no_first_edge es parent child (rw f at h) m
]

module _ (sessions : List String) (now parent child : String) (es : List Edge) where
  -- On an acyclic graph the call never runs out of fuel; it succeeds exactly when both Sessions are
  -- known, differ, and the child does not reach the parent; then it returns the edge that was
  -- there, or appends one edge.
  pub link_sessions-Outcome :
      Acyclic es → Outcome sessions now parent child es (link_sessions sessions now parent child es)
  unfolding link_sessions
  link_sessions-Outcome ok = elim (Bool-cases (contains parent sessions)) [
    | inr f ↦ rw f (
        inl (
          unknown_parent,
          refl,
          (λ e. cc),
          λ m. cc (f, In→contains parent sessions m.parent_known),
        ))
    | inl p ↦ elim (Bool-cases (contains child sessions)) [
      | inr f ↦
          rw (p, f)
            (inl (
              unknown_child,
              refl,
              (λ e. cc),
              λ m. cc (f, In→contains child sessions m.child_known),
            ))
      | inl c ↦ elim (Bool-cases (parent == child)) [
        | inl s ↦
            rw (p, c, s) (inl (self_edge, refl, (λ e. cc), λ m. m.distinct (beq→eq parent child s)))
        | inr d ↦ elim (Option-cases (first (is_edge parent child) es)) [
          | inr (e, found) ↦
              let edge = first_edge es parent child found in
              rw (p, c, d, found)
                (inr (
                  inl (
                    record {
                      parent_known = contains→In parent sessions p;
                      child_known = contains→In child sessions c;
                      distinct = beq→ne parent child d;
                      no_walk_back = ok parent child edge.0;
                    },
                    e,
                    refl,
                    edge.1,
                    edge.2,
                  )))
          | inl absent ↦ elim (has_path_decides es child parent) [
            | inl (yes_path, walk) ↦
                rw (p, c, d, absent, yes_path)
                  (inl (cycle, refl, (λ e. cc), λ m. m.no_walk_back walk))
            | inr (no_path, away) ↦
                rw (p, c, d, absent, no_path)
                  (inr (
                    inr (
                      record {
                        parent_known = contains→In parent sessions p;
                        child_known = contains→In child sessions c;
                        distinct = beq→ne parent child d;
                        no_walk_back = away;
                      },
                      no_first_edge es parent child absent,
                      refl,
                    )))
          ]
        ]
      ]
    ]
  ]

-- Every successful call keeps the graph acyclic.
pub link_sessions-Acyclic :
    (sessions : List String) (now parent child : String) (es : List Edge) {es' : List Edge}
    {e : Edge}
    → Acyclic es
    → link_sessions sessions now parent child es ≡ linked es' e
    → Acyclic es'
link_sessions-Acyclic sessions now parent child es ok h =
    elim (link_sessions-Outcome sessions now parent child es ok) [
      | inl (x, r, _, _) ↦ cc
      | inr (inl (_, e, r, _, _)) ↦ subst Acyclic (linked_edges (sym r ∙ h)) ok
      | inr (inr (m, _, r)) ↦
          subst Acyclic (linked_edges (sym r ∙ h)) (Acyclic-snoc es _ ok m.no_walk_back)
    ]
