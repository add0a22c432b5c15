-- ===== src/Refresh/Examples.antt =====
-- Tests of the refresh, and its theorem at a Session with an unread signal.
use aize.Prelude.{
  ℕ, String, ◌≡◌, refl, inl, ◌↔◌, true, false, arith, Option, none, some, [], ◌∷◌, get, map, In,
  values,
}
use aize.State.{Readiness, Waiting, LogEntry, WakeReason, goal_manager_role}
use aize.SessionLog.{append_session_log_entry, signal_entry}
use aize.Dispatch.{Store}
use aize.Dispatch.Examples.{store, one_goal, one_session}
use aize.Goals.{current_goals}
use aize.Refresh.{Ids, refresh_entries, refresh_dispatch_readiness, item_of}
use aize.Refresh.Work.{IsServed, HasNoLease, IsBusy, IsUnread, refresh_entries-IsServed}
use aize.Projection.{wake_reason}

abbrev on_disk : String → ℕ
on_disk sid = 0

abbrev clock : String → Option ℕ
clock s = none

abbrev pub ids : Ids
ids = record {
  now = "t9";
  log_id = λ sid name. "log";
  signal_id = λ sid name. name;
  ready_id = λ sid role. role;
}

-- An unread signal for the GoalManager, and no runs.
abbrev pub signalled : Store
signalled = record store {
  dispatch_runs = [];
  dispatch_readiness = [];
  session_logs =
      append_session_log_entry on_disk [] "s1"
        (signal_entry "l1" "sig" "Recovered" (goal_manager_role ∷ []) "dispatcher" "" "" "t1");
}

offered :
    map (λ (e : Readiness). e.readiness_id) (refresh_entries ids signalled) ≡ "GoalManager" ∷ []
unfolding refresh_entries append_session_log_entry signal_entry
offered = refl

is_current : In ("g1", one_goal) (current_goals signalled.goals)
unfolding current_goals
is_current = inl refl

known : get signalled.sessions "s1" ≡ some one_session
unfolding get
known = refl

no_runs : HasNoLease signalled "s1" goal_manager_role
unfolding values
no_runs run m here named = absurd m

nobody : (false ≡ true) ↔ IsBusy signalled "s1"
unfolding values
nobody = (λ h. cc, λ b. absurd b.stands)

abbrev first_entry : LogEntry
first_entry =
    record (signal_entry "l1" "sig" "Recovered" (goal_manager_role ∷ []) "dispatcher" "" "" "t1") {
      seq = 1;
      session_id = "s1";
    }

is_unread : IsUnread signalled one_session "s1" goal_manager_role first_entry
unfolding append_session_log_entry get signal_entry
is_unread = (inl refl, omega arith)

abbrev reason_or : Option WakeReason → WakeReason
reason_or none = record {
  seq = 0;
  kind = "";
  reason = "";
  message_id = "";
  log_id = "";
  available_after = "";
}
reason_or (some w) = w

abbrev woken : Option WakeReason
woken = wake_reason goal_manager_role "s1" false (item_of first_entry)

is_woken : woken ≡ some (reason_or woken)
unfolding wake_reason signal_entry
is_woken = refl

refresh_entries-IsServed_example :
    IsServed signalled one_session one_goal goal_manager_role (refresh_entries ids signalled)
refresh_entries-IsServed_example =
    refresh_entries-IsServed ids signalled ("g1", one_goal) one_session goal_manager_role false
      first_entry (reason_or woken) is_current refl refl refl known refl (inl refl) no_runs nobody
      is_unread is_woken

-- A deadline that cannot be read stops the whole refresh.
abbrev waiting : Waiting
waiting = record {
  kind = "deadline";
  wait_until = "soon";
  event_name = "";
  child_session_id = "";
  wake_log_seq = 0;
  reason = "";
  declared_at = "";
  declared_run_id = "";
}

abbrev unreadable : Store
unreadable = record signalled { goals = ("g1", record one_goal { waiting = some waiting }) ∷ [] }

stopped : refresh_dispatch_readiness on_disk clock ids unreadable ≡ none
unfolding refresh_dispatch_readiness append_session_log_entry signal_entry
stopped = refl
