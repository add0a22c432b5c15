-- ===== src/Goals/Examples.antt =====
-- Tests of the goals, and the theorems at a parent and a child Session.
use aize.Prelude.{
  ℕ, String, ◌≡◌, ◌≢◌, refl, ap, ◌∙◌, sym, ◌==◌, string_Eq, Option, none, some, [], ◌∷◌, get, put,
  In, inl, inr, map, ◌⊎◌, false,
}
use aize.State.{Goal, Readiness, Status, complete, LogEntry}
use aize.Graph.{Edge}
use aize.Dispatch.{Store}
use aize.Dispatch.Examples.{one_goal, one_session, store}
use aize.SessionLog.{log_of}
use aize.Goals.{
  Held, Change, current_goal_for_session, current_goals, set_goal_completion_state, is_goal_of,
}
use aize.Goals.Lineage.{IsParent}
use aize.Goals.Current.{IsLatest, current_goal_for_session-IsLatest, Keyed}
use aize.Goals.Reopen.{IsCompleted, set_goal_completion_state-IsCompleted}

abbrev pub on_disk : String → ℕ
on_disk sid = 0

abbrev pub log_id : String → String → String
log_id sid kind = "log"

-- The parent's goal is complete; the child's is done now.
abbrev parent_goal : Goal
parent_goal = record one_goal { goal_id = "g0"; session_id = "s0"; completion_state = complete }

abbrev older : Goal
older = record one_goal { goal_id = "g9"; created_at = "s" }

abbrev edge : Edge
edge = record { parent_session_id = "s0"; child_session_id = "s1"; created_at = "t0" }

abbrev pub family : Store
family = record store {
  goals = ("g0", parent_goal) ∷ ("g1", one_goal) ∷ ("g9", older) ∷ [];
  sessions = ("s1", one_session) ∷ ("s0", record one_session { session_id = "s0" }) ∷ [];
  session_edges = edge ∷ edge ∷ [];
}

youngest : current_goal_for_session family.goals "s1" ≡ some ("g1", one_goal)
unfolding current_goal_for_session
youngest = refl

one_each : map (λ (h : Held). h.0) (current_goals family.goals) ≡ "g0" ∷ "g1" ∷ []
unfolding current_goals
one_each = refl

current_goal_for_session-IsLatest_example :
    ((current_goal_for_session family.goals "s1" ≡ none)
      × ((h : Held) → In h family.goals → is_goal_of "s1" h ≡ false))
    ⊎ ((h : Held) × (current_goal_for_session family.goals "s1" ≡ some h)
        × IsLatest family.goals "s1" h)
current_goal_for_session-IsLatest_example = current_goal_for_session-IsLatest family.goals "s1"

abbrev change : Change
change = record {
  reason = "done";
  actor = "GoalManager";
  run_id = "run-1";
  now = "t5";
  defer_goal_manager = false;
}

abbrev store_or : Option Store → Store
store_or none = store
store_or (some s) = s

abbrev done : Store
done = store_or (set_goal_completion_state on_disk log_id change family "g1" one_goal "complete")

is_done :
    set_goal_completion_state on_disk log_id change family "g1" one_goal "complete" ≡ some done
unfolding set_goal_completion_state
is_done = refl

-- The parent is told, then reopened; the ready entry of the child's goal is resolved.
parent_log :
    map (λ (e : LogEntry). e.kind) (log_of done.session_logs "s0")
    ≡ "ChildGoalCompleted" ∷ "GoalStateChanged" ∷ []
unfolding set_goal_completion_state get put
parent_log = refl

statuses : map (λ (e : Readiness). e.status) done.dispatch_readiness ≡ Status.resolved ∷ []
unfolding set_goal_completion_state
statuses = refl

family-Keyed : Keyed family.goals
unfolding get
family-Keyed = (refl, (refl, (refl, tt)))

own_goal : get family.goals "g1" ≡ some one_goal
unfolding get
own_goal = refl

from_s0 : (p : String) (e : Edge) → In e family.session_edges → e.parent_session_id ≡ p → "s1" ≢ p
from_s0 p e (inl at) from same =
    cc (ap (λ x. x == "s0") (same ∙ sym from ∙ sym (ap (λ (x : Edge). x.parent_session_id) at)))
from_s0 p e (inr (inl at)) from same =
    cc (ap (λ x. x == "s0") (same ∙ sym from ∙ sym (ap (λ (x : Edge). x.parent_session_id) at)))
from_s0 p e (inr (inr m)) from same = absurd m

is_child : (p : String) → IsParent family.session_edges "s1" p → "s1" ≢ p
is_child p q = from_s0 p q.edge q.stands q.from

set_goal_completion_state-IsCompleted_example : IsCompleted family "g1" one_goal done
set_goal_completion_state-IsCompleted_example =
    set_goal_completion_state-IsCompleted on_disk log_id change family "g1" one_goal family-Keyed
      own_goal refl is_child is_done
