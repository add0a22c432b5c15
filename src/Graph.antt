-- ===== src/Graph.antt =====
-- The Session graph of src/goal/sessions.py: `link_sessions`, `_link_sessions_in_state` and
-- `_has_path`. An edge goes from a parent Session to a child Session.
pub mod Walks
pub mod Search
pub mod Acyclic
mod Examples
use aize.Prelude.{
  ℕ, zero, suc, ◌+◌, String, Bool, true, false, ◌&&◌, Option, none, some, List, [], ◌∷◌, ◌++◌,
  reverse, ◌==◌, string_Eq, if◌then◌else◌, length, contains, first,
}

pub record Edge : Type 0 where
  pub parent_session_id : String
  pub child_session_id : String
  pub created_at : String

-- `children_by_parent.get(p, [])` of the dictionary that `_has_path` builds from the edges.
unfoldable pub children_of : List Edge → String → List String
children_of [] p = []
children_of (e ∷ es) p =
    let rest = children_of es p in
    if e.parent_session_id == p then e.child_session_id ∷ rest else rest

-- The `while stack` loop. The head of the list is the top of Python's stack, so `extend` puts the
-- children in front in reverse. `none` means that the fuel ran out.
unfoldable pub search_path : ℕ → List Edge → String → List String → List String → Option Bool
search_path zero es target seen stack = none
search_path (suc fuel) es target seen [] = some false
search_path (suc fuel) es target seen (s ∷ stack) =
    let skip = search_path fuel es target seen stack in
    let go = search_path fuel es target (s ∷ seen) (reverse (children_of es s) ++ stack) in
    if s == target then some true else if contains s seen then skip else go

unfoldable pub has_path : List Edge → String → String → Option Bool
unfolding search_path children_of
has_path es start target = search_path (length es + 2) es target [] (start ∷ [])

pub data LinkError : Type 0 where
  unknown_parent unknown_child self_edge cycle out_of_fuel : LinkError

-- The new edge list with the edge that is returned, or the error that is raised.
pub data LinkResult : Type 0 where
  linked : List Edge → Edge → LinkResult
  refused : LinkError → LinkResult

abbrev is_edge : String → String → Edge → Bool
is_edge parent child e = e.parent_session_id == parent && e.child_session_id == child

abbrev pub new_edge : String → String → String → Edge
new_edge parent child now = record {
  parent_session_id = parent;
  child_session_id = child;
  created_at = now;
}

-- The last part of `_link_sessions_in_state`: the answer of `_has_path` decides.
abbrev add_edge : List Edge → Edge → Option Bool → LinkResult
add_edge es e none = refused out_of_fuel
add_edge es e (some true) = refused cycle
add_edge es e (some false) = linked (es ++ e ∷ []) e

abbrev existing_or : List Edge → Option Edge → LinkResult → LinkResult
existing_or es (some e) other = linked es e
existing_or es none other = other

unfoldable pub link_sessions : List String → String → String → String → List Edge → LinkResult
unfolding first
link_sessions sessions now parent child es =
    if contains parent sessions
    then if contains child sessions
      then if parent == child
        then refused self_edge
        else existing_or es (first (is_edge parent child) es)
            (add_edge es (new_edge parent child now) (has_path es child parent))
      else refused unknown_child
    else refused unknown_parent
