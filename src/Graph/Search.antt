-- ===== src/Graph/Search.antt =====
-- `has_path` returns, and answers whether there is a walk.
use aize.Prelude.{
  ℕ, zero, suc, ◌+◌, ◌≤◌, ◌<◌, String, ◌≡◌, refl, ◌∙◌, ◌⊎◌, inl, inr, ◌≢◌, Bool, true, false, some,
  List, [], ◌∷◌, ◌++◌, reverse, arith, eq_iff, if◌then◌else◌, ◌==◌, string_Eq, length,
  length-append, contains, contains→In, In, In-append_left, In-append_right, In-append_cases,
  Bool-cases, beq→eq, beq_refl, In-reverse, In-reverse_of, length-reverse,
}
use aize.Graph.{Edge, children_of, search_path, has_path}
use aize.Graph.Walks.{HasEdge, Walk, here, step}

-- The children are the ends of the edges.
children_of→HasEdge : (es : List Edge) (u v : String) → In v (children_of es u) → HasEdge es u v
unfolding children_of
children_of→HasEdge [] u v h = h
children_of→HasEdge (e ∷ es) u v h = elim (Bool-cases (e.parent_session_id == u)) [
  | inl t ↦ elim (rw t at h) [
    | inl same ↦ inl (beq→eq e.parent_session_id u t, same)
    | inr later ↦ inr (children_of→HasEdge es u v later)
  ]
  | inr f ↦ inr (children_of→HasEdge es u v (rw f at h))
]

HasEdge→children_of : (es : List Edge) (u v : String) → HasEdge es u v → In v (children_of es u)
unfolding children_of
HasEdge→children_of [] u v h = h
HasEdge→children_of (e ∷ es) u v (inl j) = rw (j.0, beq_refl u) (inl j.1)
HasEdge→children_of (e ∷ es) u v (inr h) = elim (Bool-cases (e.parent_session_id == u)) [
  | inl t ↦ rw t (inr (HasEdge→children_of es u v h))
  | inr f ↦ rw f (HasEdge→children_of es u v h)
]

-- The edges whose parent the search has not expanded yet: what is left to be pushed.
open_edges : List Edge → List String → ℕ
open_edges [] seen = 0
open_edges (d ∷ ds) seen =
    let rest = open_edges ds seen in if contains d.parent_session_id seen then rest else suc rest

open_edges-le-length : (es : List Edge) (seen : List String) → open_edges es seen ≤ length es
unfolding open_edges
open_edges-le-length [] seen = omega arith
open_edges-le-length (d ∷ ds) seen = ground (arith, open_edges-le-length ds seen)

-- Expanding a new Session closes as many edges as it pushes children.
open_edges-expand :
    (es : List Edge) (seen : List String) (s : String)
    → contains s seen ≡ false
    → open_edges es (s ∷ seen) + length (children_of es s) ≡ open_edges es seen
unfolding open_edges children_of contains
open_edges-expand [] seen s h = omega arith
open_edges-expand (d ∷ ds) seen s h = ground (
  arith,
  open_edges-expand ds seen s h,
  eq_iff s d.parent_session_id,
  eq_iff d.parent_session_id s,
)

module _ (es : List Edge) (target : String) where
  -- One unit of fuel for each entry of the stack and each edge still to be pushed is enough.
  search_path_total :
      (fuel : ℕ) (seen stack : List String)
      → length stack + open_edges es seen < fuel
      → (b : Bool) × (search_path fuel es target seen stack ≡ some b)
  unfolding search_path
  search_path_total zero seen stack h = absurd (omega arith)
  search_path_total (suc fuel) seen [] h = (false, refl)
  search_path_total (suc fuel) seen (s ∷ stack) h = elim (Bool-cases (s == target)) [
    | inl t ↦ (true, rw t)
    | inr f ↦ elim (Bool-cases (contains s seen)) [
      | inl old ↦ rw (f, old) (search_path_total fuel seen stack (omega arith))
      | inr new ↦
          rw (f, new)
            (search_path_total fuel (s ∷ seen) (reverse (children_of es s) ++ stack) (
              omega (
                arith,
                open_edges-expand es seen s new,
                length-append (reverse (children_of es s)) stack,
                length-reverse (children_of es s),
              )))
    ]
  ]

  -- The search only ever meets Sessions that can be reached.
  search_path_sound :
      (start : String) (fuel : ℕ) (seen stack : List String)
      → ((v : String) → In v stack → Walk es start v)
      → search_path fuel es target seen stack ≡ some true
      → Walk es start target
  unfolding search_path
  search_path_sound start zero seen stack reach e = cc
  search_path_sound start (suc fuel) seen [] reach e = cc
  search_path_sound start (suc fuel) seen (s ∷ stack) reach e = elim (Bool-cases (s == target)) [
    | inl t ↦ rw (beq→eq s target t) at (reach s (inl refl))
    | inr f ↦ elim (Bool-cases (contains s seen)) [
      | inl old ↦
          search_path_sound start fuel seen stack (λ v m. reach v (inr m)) (rw (f, old) at e)
      | inr new ↦
          search_path_sound start fuel (s ∷ seen) (reverse (children_of es s) ++ stack)
            (λ v m. elim (In-append_cases v (reverse (children_of es s)) stack m) [
              | inl child ↦
                  step (reach s (inl refl))
                    (children_of→HasEdge es s v (In-reverse v (children_of es s) child))
              | inr older ↦ reach v (inr older)
            ])
            (rw (f, new) at e)
    ]
  ]

  -- A set of Sessions that holds what `seen` and `stack` hold, is closed under edges and misses the
  -- target.
  record Closed (seen stack : List String) : Type 0 where
    final : List String
    has_seen : (v : String) → In v seen → In v final
    has_stack : (v : String) → In v stack → In v final
    edges : (u v : String) → In u final → HasEdge es u v → In v final
    misses : (u : String) → In u final → u ≢ target

  abbrev Covers : List String → List String → Type 0
  Covers seen stack = (u v : String) → In u seen → HasEdge es u v → In v seen ⊎ In v stack

  Covers-expand :
      (seen stack : List String) (s : String)
      → Covers seen (s ∷ stack)
      → Covers (s ∷ seen) (reverse (children_of es s) ++ stack)
  Covers-expand seen stack s cover u v (inl same) h = inr (
      In-append_left v (reverse (children_of es s)) stack
        (In-reverse_of v (children_of es s) (HasEdge→children_of es s v (rw same h))))
  Covers-expand seen stack s cover u v (inr m) h = elim (cover u v m h) [
    | inl known ↦ inl (inr known)
    | inr (inl top) ↦ inl (inl top)
    | inr (inr below) ↦ inr (In-append_right v (reverse (children_of es s)) stack below)
  ]

  Covers-skip :
      (seen stack : List String) (s : String)
      → In s seen
      → Covers seen (s ∷ stack)
      → Covers seen stack
  Covers-skip seen stack s old cover u v m h = elim (cover u v m h) [
    | inl known ↦ inl known
    | inr (inl top) ↦ inl (rw top at old)
    | inr (inr below) ↦ inr below
  ]

  Closed-skip :
      (seen stack : List String) (s : String)
      → In s seen
      → Closed seen stack
      → Closed seen (s ∷ stack)
  Closed-skip seen stack s old c = record {
    final = c.final;
    has_seen = c.has_seen;
    has_stack =
        λ v m. elim m [ inl top ↦ rw top at (c.has_seen s old) | inr below ↦ c.has_stack v below ];
    edges = c.edges;
    misses = c.misses;
  }

  Closed-expand :
      (seen stack children : List String) (s : String)
      → Closed (s ∷ seen) (children ++ stack)
      → Closed seen (s ∷ stack)
  Closed-expand seen stack children s c = record {
    final = c.final;
    has_seen = λ v m. c.has_seen v (inr m);
    has_stack = λ v m. elim m [
      | inl top ↦ c.has_seen v (inl top)
      | inr below ↦ c.has_stack v (In-append_right v children stack below)
    ];
    edges = c.edges;
    misses = c.misses;
  }

  misses-expand :
      (seen : List String) (s : String)
      → ((u : String) → In u seen → u ≢ target)
      → (s == target) ≡ false
      → (u : String) → In u (s ∷ seen)
      → u ≢ target
  misses-expand seen s miss f u (inl top) = λ e. cc ((string_Eq.same_iff s target).1 (top ∙ e), f)
  misses-expand seen s miss f u (inr m) = miss u m

  search_path_complete :
      (fuel : ℕ) (seen stack : List String)
      → Covers seen stack
      → ((u : String) → In u seen → u ≢ target)
      → search_path fuel es target seen stack ≡ some false
      → Closed seen stack
  unfolding search_path
  search_path_complete zero seen stack cover miss e = cc
  search_path_complete (suc fuel) seen [] cover miss e = record {
    final = seen;
    has_seen = λ v m. m;
    has_stack = λ v m. absurd m;
    edges = λ u v m h. elim (cover u v m h) [ inl known ↦ known | inr nowhere ↦ absurd nowhere ];
    misses = miss;
  }
  search_path_complete (suc fuel) seen (s ∷ stack) cover miss e = elim (Bool-cases (s == target)) [
    | inl t ↦ cc (rw t at e)
    | inr f ↦ elim (Bool-cases (contains s seen)) [
      | inl old ↦
          let known = contains→In s seen old in
          Closed-skip seen stack s known (
            search_path_complete fuel seen stack (Covers-skip seen stack s known cover) miss
              (rw (f, old) at e))
      | inr new ↦ Closed-expand seen stack (reverse (children_of es s)) s (
          search_path_complete fuel (s ∷ seen) (reverse (children_of es s) ++ stack)
            (Covers-expand seen stack s cover) (misses-expand seen s miss f) (rw (f, new) at e))
    ]
  ]

  Closed-Walk :
      {seen stack : List String} (c : Closed seen stack) {start v : String}
      → In start stack
      → Walk es start v
      → In v c.final
  Closed-Walk c {start} m here = c.has_stack start m
  Closed-Walk c m (step {v = v} {w = w} p h) = c.edges v w (Closed-Walk c m p) h

-- The fuel of `has_path` is enough on every graph.
pub has_path_total :
    (es : List Edge) (start target : String) → (b : Bool) × (has_path es start target ≡ some b)
unfolding has_path
has_path_total es start target =
    search_path_total es target (length es + 2) [] (start ∷ [])
      (omega (arith, open_edges-le-length es []))

pub has_path_sound :
    (es : List Edge) (start target : String)
    → has_path es start target ≡ some true
    → Walk es start target
unfolding has_path
has_path_sound es start target e =
    search_path_sound es target start (length es + 2) [] (start ∷ [])
      (λ v m. elim m [ inl same ↦ rw (← same) here | inr nowhere ↦ absurd nowhere ]) e

pub has_path_complete :
    (es : List Edge) (start target : String)
    → has_path es start target ≡ some false
    → ¬ Walk es start target
unfolding has_path
has_path_complete es start target e walk =
    let c =
      search_path_complete es target (length es + 2) [] (start ∷ []) (λ u v m. absurd m)
        (λ u m. absurd m) e in
    c.misses target (Closed-Walk es target c (inl refl) walk) refl

-- `_has_path(edges, start, target)` returns on every graph, cyclic ones included, and answers True
-- exactly when a walk along the edges leads from `start` to `target`.
pub has_path_decides :
    (es : List Edge) (start target : String)
    → ((has_path es start target ≡ some true) × Walk es start target)
      ⊎ ((has_path es start target ≡ some false) × ¬ Walk es start target)
has_path_decides es start target = decide (has_path_total es start target)
  where
    decide :
        ((b : Bool) × (has_path es start target ≡ some b))
        → ((has_path es start target ≡ some true) × Walk es start target)
          ⊎ ((has_path es start target ≡ some false) × ¬ Walk es start target)
    decide (true, e) = inl (e, has_path_sound es start target e)
    decide (false, e) = inr (e, has_path_complete es start target e)
