-- ===== src/Graph/Examples.antt =====
-- Tests of the Session graph, and its theorems at a small graph: root -> a -> b.
use aize.Prelude.{contains, String, ◌≡◌, refl, ◌⊎◌, true, false, some, List, [], ◌∷◌, ◌++◌}
use aize.Graph.{Edge, linked, refused, cycle, unknown_child, has_path, link_sessions, new_edge}
use aize.Graph.Walks.{Walk, Acyclic}
use aize.Graph.Search.{has_path_decides}
use aize.Graph.Acyclic.{Outcome, link_sessions-Outcome, link_sessions-Acyclic}

abbrev chain : List Edge
chain = new_edge "root" "a" "t0" ∷ new_edge "a" "b" "t1" ∷ []

abbrev known : List String
known = "root" ∷ "a" ∷ "b" ∷ []

forward : has_path chain "root" "b" ≡ some true
unfolding has_path contains
forward = refl

backward : has_path chain "b" "root" ≡ some false
unfolding has_path contains
backward = refl

-- A search on a cyclic list of edges ends too.
on_a_cycle : has_path (new_edge "a" "b" "t" ∷ new_edge "b" "a" "t" ∷ []) "a" "c" ≡ some false
unfolding has_path contains
on_a_cycle = refl

closing : link_sessions known "t2" "b" "root" chain ≡ refused cycle
unfolding link_sessions has_path contains
closing = refl

linking :
    link_sessions known "t2" "root" "b" chain
    ≡ linked (chain ++ new_edge "root" "b" "t2" ∷ []) (new_edge "root" "b" "t2")
unfolding link_sessions has_path contains
linking = refl

missing : link_sessions known "t2" "root" "c" chain ≡ refused unknown_child
unfolding link_sessions has_path contains
missing = refl

nothing-Acyclic : Acyclic []
nothing-Acyclic u v h w = h

first_link :
    link_sessions known "t0" "root" "a" []
    ≡ linked (new_edge "root" "a" "t0" ∷ []) (new_edge "root" "a" "t0")
unfolding link_sessions has_path contains
first_link = refl

second_link :
    link_sessions known "t1" "a" "b" (new_edge "root" "a" "t0" ∷ [])
    ≡ linked chain (new_edge "a" "b" "t1")
unfolding link_sessions has_path contains
second_link = refl

link_sessions-Acyclic_example : Acyclic chain
link_sessions-Acyclic_example =
    link_sessions-Acyclic known "t1" "a" "b" (new_edge "root" "a" "t0" ∷ [])
      (link_sessions-Acyclic known "t0" "root" "a" [] nothing-Acyclic first_link) second_link

link_sessions-Outcome_example :
    Outcome known "t2" "b" "root" chain (link_sessions known "t2" "b" "root" chain)
link_sessions-Outcome_example =
    link_sessions-Outcome known "t2" "b" "root" chain link_sessions-Acyclic_example

has_path_decides_example :
    ((has_path chain "b" "root" ≡ some true) × Walk chain "b" "root")
    ⊎ ((has_path chain "b" "root" ≡ some false) × ¬ Walk chain "b" "root")
has_path_decides_example = has_path_decides chain "b" "root"
