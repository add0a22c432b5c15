-- ===== src/Endpoint.antt =====
-- Endpoints and role names: the texts of src/kernel/defs.py and src/goal/defs.py. An absent session
-- id or account is the empty text. `lower` stands for `str.lower`.
pub mod Normal
use Prim.Native.String.{◌++◌ as append}
use aize.Prelude.{
  String, ◌||◌, not, Option, none, some, [], ◌∷◌, ◌==◌, string_Eq, if◌then◌else◌, truthy, Dict, get,
}
use aize.Prelude.Text.{strip, starts_with, has_colon, after_colon}
use aize.State.{goal_manager_role, worker_agent_role}

abbrev pub session_recipient : String
session_recipient = "Session"

abbrev pub user_console_recipient : String
user_console_recipient = "UserConsole"

abbrev pub session_endpoint : String → String
session_endpoint session_id = append "session:" session_id

abbrev pub user_endpoint : String → String
user_endpoint username = append "user:" username

abbrev pub account_endpoint : String → String
account_endpoint username = append "account:" username

abbrev pub console_endpoint : String → String
console_endpoint endpoint_id = append "console:" endpoint_id

abbrev pub node_endpoint : String → String
node_endpoint node_id = append "node:" node_id

unfoldable pub canonical_endpoint : String → String
unfolding strip starts_with after_colon
canonical_endpoint endpoint =
    let raw = strip endpoint in
    if starts_with "account:" raw then user_endpoint (after_colon raw) else raw

unfoldable pub legacy_endpoint_alias : String → String
unfolding strip starts_with after_colon
legacy_endpoint_alias endpoint =
    let raw = strip endpoint in
    if starts_with "user:" raw then account_endpoint (after_colon raw) else raw

abbrev pub session_named : String → Option String
session_named session_id = if truthy session_id then some (session_endpoint session_id) else none

-- `normalize_endpoint` of src/kernel/defs.py on the stripped text; `none` is its StoreError.
unfoldable pub normalize_raw : String → String → Option String
unfolding starts_with after_colon has_colon
normalize_raw raw session_id =
    if not (truthy raw)
    then some "system"
    else if starts_with "account:" raw
    then some (user_endpoint (after_colon raw))
    else if has_colon raw || (raw == "system" || raw == "dispatcher")
    then some raw
    else if raw == session_recipient
    then session_named session_id
    else if raw == user_console_recipient
    then some user_console_recipient
    else if raw == "remote-aize"
    then some (node_endpoint "remote-aize")
    else some (user_endpoint raw)

unfoldable pub normalize_endpoint : String → String → Option String
unfolding normalize_raw strip
normalize_endpoint value session_id = normalize_raw (strip value) session_id

abbrev pub agent_endpoint : String → String
agent_endpoint role = append "agent:" role

abbrev pub role_aliases : Dict String
role_aliases =
    ("goalmanager", goal_manager_role)
    ∷ ("workeragent", worker_agent_role)
    ∷ ("worker", worker_agent_role)
    ∷ ("manage", goal_manager_role)
    ∷ ("work", worker_agent_role)
    ∷ []

abbrev pub slot_groups : Dict String
slot_groups = (goal_manager_role, "manage") ∷ (worker_agent_role, "work") ∷ []

abbrev pub text_or : String → Option String → String
text_or s none = s
text_or s (some t) = t

module _ (lower : String → String) where
  unfoldable pub normalize_agent_role : String → String
  unfolding strip get
  normalize_agent_role role =
      let normalized = strip role in
      text_or (text_or normalized (get role_aliases (lower normalized)))
        (get role_aliases normalized)

  unfoldable pub slot_group_name : String → String
  unfolding normalize_agent_role get
  slot_group_name role = text_or "" (get slot_groups (normalize_agent_role role))

  unfoldable pub agent_sender_endpoint : String → String → String
  unfolding normalize_agent_role strip
  agent_sender_endpoint role account =
      if truthy (strip account)
      then user_endpoint (strip account)
      else agent_endpoint (normalize_agent_role role)

abbrev pub or_system : Option String → Option String → Option String
or_system none other = other
or_system (some role) other = some (agent_endpoint role)

-- `normalize_endpoint` of src/goal/defs.py: role names first. Each alias stands for a role.
unfoldable pub normalize_role_endpoint : String → String → Option String
unfolding normalize_endpoint strip get
normalize_role_endpoint value session_id =
    let raw = strip value in
    if raw == goal_manager_role || raw == worker_agent_role
    then some (agent_endpoint raw)
    else or_system (get role_aliases raw) (normalize_endpoint raw session_id)
