-- ===== src/Goals/Lineage.antt =====
-- The parent Sessions that `_parent_session_ids` lists.
use aize.Prelude.{
  String, ◌≡◌, refl, sym, ap, ◌∙◌, subst, ◌↔◌, inl, inr, true, List, [], ◌∷◌, map, ◌==◌, string_Eq,
  truthy, In, contains, contains→In, keep_if-In, In-keep_if, keep_if, Bool-cases, and_true, beq→eq,
  beq_refl,
}
use aize.Prelude.Lists.{In-map}
use aize.Prelude.Order.{str_Order}
use aize.Prelude.Sort.{In-sort_by, In-sort_by_of}
use aize.Graph.{Edge}
use aize.Goals.{distinct, is_parent_edge, parent_session_ids}

-- An edge leads from the Session `parent` to the Session `child`.
pub record IsParent (edges : List Edge) (child parent : String) : Type 0 where
  pub edge : Edge
  pub stands : In edge edges
  pub from : edge.parent_session_id ≡ parent
  pub to : edge.child_session_id ≡ child
  pub named : truthy parent ≡ true

distinct-In : (s : String) (ss : List String) → In s (distinct ss) → In s ss
unfolding distinct
distinct-In s [] m = m
distinct-In s (t ∷ ss) m = elim (Bool-cases (contains t (distinct ss))) [
  | inl h ↦ inr (distinct-In s ss (rw h at m))
  | inr h ↦ elim (rw h at m) [ inl same ↦ inl same | inr n ↦ inr (distinct-In s ss n) ]
]

In-distinct : (s : String) (ss : List String) → In s ss → In s (distinct ss)
unfolding distinct
In-distinct s [] m = m
In-distinct s (t ∷ ss) (inr m) = elim (Bool-cases (contains t (distinct ss))) [
  | inl h ↦ rw h (In-distinct s ss m)
  | inr h ↦ rw h (inr (In-distinct s ss m))
]
In-distinct s (t ∷ ss) (inl same) = elim (Bool-cases (contains t (distinct ss))) [
  | inl h ↦ rw h (subst (λ x. In x (distinct ss)) same (contains→In t (distinct ss) h))
  | inr h ↦ rw h (inl same)
]

In-map_of :
    (es : List Edge) (e : Edge)
    → In e es
    → In e.parent_session_id (map (λ (x : Edge). x.parent_session_id) es)
In-map_of [] e m = m
In-map_of (x ∷ es) e (inl same) = inl (ap (λ (y : Edge). y.parent_session_id) same)
In-map_of (x ∷ es) e (inr m) = inr (In-map_of es e m)

-- It lists exactly the parents.
pub parent_session_ids-IsParent :
    (edges : List Edge) (child parent : String)
    → In parent (parent_session_ids edges child) ↔ IsParent edges child parent
unfolding parent_session_ids
parent_session_ids-IsParent edges child parent = (
  λ m.
      let (e, n, from) =
        In-map (λ (x : Edge). x.parent_session_id) (keep_if (is_parent_edge child) edges) parent
          (distinct-In parent _ (In-sort_by str_Order (λ s. s) parent _ m)) in
      let (there, own) = keep_if-In (is_parent_edge child) edges e n in
      let (to, named) = and_true (e.child_session_id == child) (truthy e.parent_session_id) own in
      record {
        edge = e;
        stands = there;
        from = from;
        to = beq→eq e.child_session_id child to;
        named = ap truthy (sym from) ∙ named;
      },
  λ p.
      In-sort_by_of str_Order (λ s. s) parent _
        (In-distinct parent _ (
          subst
            (λ s.
              In s (map (λ (x : Edge). x.parent_session_id) (keep_if (is_parent_edge child) edges)))
            p.from
            (In-map_of (keep_if (is_parent_edge child) edges) p.edge (
              In-keep_if (is_parent_edge child) edges p.edge p.stands
                (rw (p.to, p.from, p.named, beq_refl child) refl))))),
)
