-- ===== src/Endpoint/Normal.antt =====
-- Endpoints that are normalised: when there is one.
use Prim.Native.String.append
use aize.Prelude.{
  String, ◌≡◌, refl, ap, inl, inr, true, false, ◌||◌, not, some, ◌==◌, string_Eq, truthy, get,
  Bool-cases, Option-cases,
}
use aize.Prelude.Text.{strip, starts_with, has_colon}
use aize.State.{goal_manager_role, worker_agent_role}
use aize.Endpoint.{
  normalize_raw, normalize_endpoint, normalize_role_endpoint, session_recipient,
  user_console_recipient, role_aliases, user_endpoint,
}

normalize_raw_named :
    (raw session_id : String)
    → truthy session_id ≡ true
    → (r : String) × (normalize_raw raw session_id ≡ some r)
unfolding normalize_raw
normalize_raw_named raw session_id named = elim (Bool-cases (not (truthy raw))) [
  | inl t ↦ rw t (_, refl)
  | inr f1 ↦ elim (Bool-cases (starts_with "account:" raw)) [
    | inl t ↦ rw (f1, t) (_, refl)
    | inr f2 ↦ elim (Bool-cases (has_colon raw || (raw == "system" || raw == "dispatcher"))) [
      | inl t ↦ rw (f1, f2, t) (_, refl)
      | inr f3 ↦ elim (Bool-cases (raw == session_recipient)) [
        | inl t ↦ rw (f1, f2, f3, t, named) (_, refl)
        | inr f4 ↦ elim (Bool-cases (raw == user_console_recipient)) [
          | inl t ↦ rw (f1, f2, f3, f4, t) (_, refl)
          | inr f5 ↦ elim (Bool-cases (raw == "remote-aize")) [
            | inl t ↦ rw (f1, f2, f3, f4, f5, t) (_, refl)
            | inr f6 ↦ rw (f1, f2, f3, f4, f5, f6) (_, refl)
          ]
        ]
      ]
    ]
  ]
]

-- With a session id every text has an endpoint.
pub normalize_endpoint_named :
    (value session_id : String)
    → truthy session_id ≡ true
    → (r : String) × (normalize_endpoint value session_id ≡ some r)
unfolding normalize_endpoint
normalize_endpoint_named value session_id = normalize_raw_named (strip value) session_id

pub normalize_role_endpoint_named :
    (value session_id : String)
    → truthy session_id ≡ true
    → (r : String) × (normalize_role_endpoint value session_id ≡ some r)
unfolding normalize_role_endpoint
normalize_role_endpoint_named value session_id named =
    elim (Bool-cases (strip value == goal_manager_role || strip value == worker_agent_role)) [
      | inl t ↦ rw t (_, refl)
      | inr f ↦ elim (Option-cases (get role_aliases (strip value))) [
        | inr (role, e) ↦ rw (f, e) (_, refl)
        | inl e ↦ rw (f, e) (normalize_endpoint_named (strip value) session_id named)
      ]
    ]

-- An account's endpoint is no agent's.
pub user_endpoint-not_agent : (name : String) → starts_with "agent:" (user_endpoint name) ≡ false
unfolding starts_with
user_endpoint-not_agent name = ap (starts_with "agent:") (append.cons "u" "ser:" name)
