-- ===== src/Messages/Input.antt =====
-- What a user's Message does to the Session's goal.
use aize.Prelude.{ℕ, String, ◌≡◌, refl, ap, ◌∙◌, true, Option, none, some, truthy, Dict, get, has}
use aize.Endpoint.{session_endpoint, user_endpoint}
use aize.State.{Message}
use aize.Dispatch.{Run, Store}
use aize.Goals.Current.{Keyed}
use aize.Sessions.{Fresh}
use aize.Sessions.Reprocess.{IsAwake, mark_session_reprocess_needed-IsAwake}
use aize.Messages.{User, MessageError, active_worker_run_for_session, unknown_session, unknown_user}
use aize.Messages.Write.{
  Sent, sent, require, message_of, input_payload, input_change, is_there, append_to, reprocessed,
  forward, append_user_input,
}

-- The Message is sent, and leaves work behind.
pub record IsTaken (session_id : String) (result : Sent) : Type 0 where
  pub after : Store
  pub message : Message
  pub result_is : result ≡ sent after message
  pub awake : IsAwake after session_id

require_passes : {b : _} (error : MessageError) {r : Sent} → b ≡ true → require b error r ≡ r
require_passes error h = rw h refl

module _ (persisted : String → ℕ) (log_id : String → String → String) where
  forward-IsTaken :
      (store : Store) (session_id sender body reply_to : String) (f : Fresh) (forwarded_id : String)
      (m : Message) (busy : Option Run)
      → IsAwake store session_id
      → IsTaken session_id
          (forward persisted log_id store session_id sender body reply_to f forwarded_id m busy)
  forward-IsTaken store session_id sender body reply_to f forwarded_id m none awake = record {
    after = store;
    message = m;
    result_is = refl;
    awake = awake;
  }
  forward-IsTaken store session_id sender body reply_to f forwarded_id m (some run) awake = record {
    after = _;
    message = m;
    result_is = refl;
    awake = record {
      key = awake.key;
      goal = awake.goal;
      current = awake.current;
      pending = awake.pending;
      awake = awake.awake;
    };
  }

  -- A user's Message to a known Session is never refused, whether a WorkerAgent is busy or not, and it
  -- leaves the Session with a current goal that is incomplete and does not wait. The Session's id is
  -- not empty, the sender is an account, the goals' keys differ and the new goal id is unused.
  pub append_user_input-IsTaken :
      (users : Dict User) (store : Store) (session_id sender body reply_to : String) (f : Fresh)
      (id forwarded_id : String)
      → truthy session_id ≡ true
      → has store.sessions session_id ≡ true
      → has users sender ≡ true
      → Keyed store.goals
      → get store.goals f.new_goal_id ≡ none
      → IsTaken session_id (
          append_user_input persisted log_id users store session_id sender body reply_to f id
            forwarded_id)
  unfolding append_user_input
  append_user_input-IsTaken users store session_id sender body reply_to f id forwarded_id named
        known user keyed unused =
      let busy = active_worker_run_for_session store.dispatch_runs session_id in
      let m =
        message_of id (user_endpoint sender) (session_endpoint session_id)
          (input_payload persisted log_id body reply_to (is_there persisted log_id busy)) f.now in
      let (next, done, awake) =
        mark_session_reprocess_needed-IsAwake persisted log_id f
          (input_change persisted log_id sender m f busy)
          (append_to persisted log_id "Message" store session_id m) session_id named keyed unused in
      let taken =
        forward-IsTaken next session_id sender body reply_to f forwarded_id m busy awake in
      record {
        after = taken.after;
        message = taken.message;
        result_is =
            require_passes unknown_session known
            ∙ require_passes unknown_user user
            ∙ ap
                (reprocessed persisted log_id session_id sender body reply_to f forwarded_id m busy)
                done
            ∙ taken.result_is;
        awake = taken.awake;
      }
