-- ===== src/Messages/Sender.antt =====
-- Who may send what: the Messages of the agents.
use aize.Prelude.{
  String, ◌≡◌, refl, sym, ap, ◌∙◌, subst, ◌⊎◌, inl, inr, true, not, Option, none, some, List, [],
  ◌∷◌, ◌==◌, string_Eq, truthy, Dict, get, has, contains, keep_if, keep_if-In, In, contains→In,
  Bool-cases, and_true, beq→eq,
}
use mathlib.Core.Option.{some-injective}
use aize.Prelude.Text.{strip}
use aize.State.{goal_manager_role, worker_agent_role}
use aize.Endpoint.{role_aliases, text_or, agent_endpoint, user_endpoint, normalize_agent_role}
use aize.Dispatch.{is_supported}
use aize.Messages.{
  User, Resolved, resolved, refused, resolve_runtime_sender, by_group, by_account, is_role_name,
  slot_roles, as_role, only_group,
}

-- The group that lets an account act in a role.
abbrev pub InSlot : Dict User → String → String → Type 0
InSlot users name role =
    (user : User) × (group : String) × (get users name ≡ some user)
    × In group user.groups
    × (get slot_roles group ≡ some role)

-- The text is the role, or an alias of it in some case of letters.
abbrev pub NamesRole : (String → String) → String → String → Type 0
NamesRole lower text role =
    (text ≡ role)
    ⊎ (get role_aliases text ≡ some role)
    ⊎ (get role_aliases (lower text) ≡ some role)

-- An agent sends in one of the two roles: under the role's name, or as an account of the role's slot
-- group.
abbrev pub IsSender : (String → String) → Dict User → String → String → String → Type 0
IsSender lower users raw role from =
    ((role ≡ goal_manager_role) ⊎ (role ≡ worker_agent_role))
    × (((from ≡ agent_endpoint role) × NamesRole lower (strip raw) role)
        ⊎ ((from ≡ user_endpoint raw) × InSlot users raw role))

supported_role :
    (role : String)
    → is_supported role ≡ true
    → (role ≡ goal_manager_role) ⊎ (role ≡ worker_agent_role)
supported_role role h = elim (Bool-cases (role == goal_manager_role)) [
  | inl t ↦ inl (beq→eq role goal_manager_role t)
  | inr f ↦ inr (beq→eq role worker_agent_role (rw f at h))
]

picked :
    (text : String) (direct lowered : Option String)
    → (text ≡ text_or (text_or text lowered) direct)
      ⊎ (direct ≡ some (text_or (text_or text lowered) direct))
      ⊎ (lowered ≡ some (text_or (text_or text lowered) direct))
picked text (some role) lowered = inr (inl refl)
picked text none (some role) = inr (inr refl)
picked text none none = inl refl

normalize_agent_role-NamesRole :
    (lower : String → String) (raw : String)
    → NamesRole lower (strip raw) (normalize_agent_role lower raw)
unfolding normalize_agent_role
normalize_agent_role-NamesRole lower raw =
    picked (strip raw) (get role_aliases (strip raw)) (get role_aliases (lower (strip raw)))

role_in : String → Resolved → String
role_in other (resolved role from) = role
role_in other (refused e) = other

from_in : String → Resolved → String
from_in other (resolved role from) = from
from_in other (refused e) = other

resolved-injective :
    (role from role' from' : String)
    → resolved role from ≡ resolved role' from'
    → (role ≡ role') × (from ≡ from')
unfolding role_in from_in
resolved-injective role from role' from' h = (ap (role_in role) h, ap (from_in from) h)

as_role-resolved :
    (raw group role from : String) (o : Option String)
    → as_role raw group o ≡ resolved role from
    → (o ≡ some role) × (from ≡ user_endpoint raw)
as_role-resolved raw group role from none h = cc
as_role-resolved raw group role from (some r) h =
    let (same, name) = resolved-injective r (user_endpoint raw) role from h in
    (ap some same, sym name)

slot_role-is_supported :
    (group role : String) → get slot_roles group ≡ some role → is_supported role ≡ true
unfolding get
slot_role-is_supported group role h = elim (Bool-cases ("manage" == group)) [
  | inl t ↦ ap is_supported (sym (some-injective _ _ (rw t at h)))
  | inr f ↦ elim (Bool-cases ("work" == group)) [
    | inl t ↦ ap is_supported (sym (some-injective _ _ (rw (f, t) at h)))
    | inr f' ↦ cc (rw (f, f') at h)
  ]
]

module _ (lower : String → String) (users : Dict User) (raw : String) where
  by_slot :
      (user : User) (group role from : String)
      → get users raw ≡ some user
      → In group user.groups
      → as_role raw group (get slot_roles group) ≡ resolved role from
      → IsSender lower users raw role from
  by_slot user group role from known member h =
      let (slot, name) = as_role-resolved raw group role from (get slot_roles group) h in
      (
        supported_role role (slot_role-is_supported group role slot),
        inr (name, (user, group, known, member, slot)),
      )

  only_group-IsSender :
      (user : User) (role from : String) (candidates : List String)
      → get users raw ≡ some user
      → ((g : String) → In g candidates → In g user.groups)
      → only_group raw candidates ≡ resolved role from
      → IsSender lower users raw role from
  only_group-IsSender user role from [] known sub h = cc
  only_group-IsSender user role from (g ∷ []) known sub h =
      by_slot user g role from known (sub g (inl refl)) h
  only_group-IsSender user role from (g ∷ k ∷ gs) known sub h = cc

  by_group-IsSender :
      (user : User) (group role from : String)
      → get users raw ≡ some user
      → by_group raw group user ≡ resolved role from
      → IsSender lower users raw role from
  by_group-IsSender user group role from known h = elim (Bool-cases (truthy group)) [
    | inr f ↦
        only_group-IsSender user role from (keep_if (has slot_roles) user.groups) known
          (λ g m. (keep_if-In (has slot_roles) user.groups g m).0) (rw f at h)
    | inl t ↦ elim (Bool-cases (has slot_roles group)) [
      | inr f ↦ cc (rw (t, f) at h)
      | inl t' ↦ elim (Bool-cases (contains group user.groups)) [
        | inr f ↦ cc (rw (t, t', f) at h)
        | inl member ↦
            by_slot user group role from known (contains→In group user.groups member)
              (rw (t, t', member) at h)
      ]
    ]
  ]

  by_account-IsSender :
      (group role from : String) (o : Option User)
      → get users raw ≡ o
      → by_account raw group o ≡ resolved role from
      → IsSender lower users raw role from
  by_account-IsSender group role from none e h = cc
  by_account-IsSender group role from (some user) e h = by_group-IsSender user group role from e h

-- `_resolve_runtime_sender` lets an agent send only in one of the two roles: under a text that is the
-- role's name or an alias of it, or as a known account that is a member of the role's slot group.
pub resolve_runtime_sender-IsSender :
    (lower : String → String) (users : Dict User) (sender group role from : String)
    → resolve_runtime_sender lower users sender group ≡ resolved role from
    → IsSender lower users (strip sender) role from
unfolding resolve_runtime_sender
resolve_runtime_sender-IsSender lower users sender group role from h =
    let raw = strip sender in
    let named = normalize_agent_role lower raw in
    elim (Bool-cases (not (truthy raw))) [
      | inl t ↦ cc (rw t at h)
      | inr f ↦ elim (Bool-cases (is_role_name lower raw named)) [
        | inl t ↦
            let (same, name) =
              resolved-injective named (agent_endpoint named) role from (rw (f, t) at h) in
            (
              supported_role role (subst (λ r. is_supported r ≡ true) same (and_true _ _ t).0),
              inl (
                sym name ∙ ap agent_endpoint same,
                subst (NamesRole lower (strip raw)) same (normalize_agent_role-NamesRole lower raw),
              ),
            )
        | inr f' ↦
            by_account-IsSender lower users raw (strip group) role from (get users raw) refl
              (rw (f, f') at h)
      ]
    ]
