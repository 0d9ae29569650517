-- ===== src/UserRoles/Types.antt =====
-- The roles, their configuration, and who has which role (core/user_roles.go).
use agent_in_chat_feishu.Unicode.{Unicode}
use agent_in_chat_feishu.Shared.{
  ℕ, Bool, true, false, not, ◌&&◌, List, [], ◌∷◌, String, ◌==◌, Option, none, some, if◌then◌else◌,
  contains, ℤ,
}
use agent_in_chat_feishu.Shared.Dict.{Dict, lookup, insert}
use agent_in_chat_feishu.RateLimiter.{RateLimiter, allow}

-- `Window` in nanoseconds.
pub record RateLimitCfg : Type 0 where
  pub max_messages : ℤ
  pub window : ℕ

pub record UserRole : Type 0 where
  pub name : String
  pub disabled_cmds : List String
  pub rate_limit_cfg : Option RateLimitCfg

pub record RoleInput : Type 0 where
  pub name : String
  pub user_ids : List String
  pub disabled_commands : List String
  pub rate_limit : Option RateLimitCfg

-- `user_ids` is a set, as a list.
pub record RoleEntry : Type 0 where
  pub role_name : String
  pub user_ids : List String
  pub wildcard : Bool

pub record UserRoleManager : Type 0 where
  pub roles : List RoleEntry
  pub default_role : String
  pub role_map : Dict UserRole
  pub limiters : Dict RateLimiter

unfoldable pub new_user_role_manager : UserRoleManager
new_user_role_manager = record { roles = []; default_role = ""; role_map = []; limiters = [] }

-- The first role that lists the user and has no wildcard.
unfoldable pub find_explicit : String → List RoleEntry → Option String
find_explicit uid [] = none
find_explicit uid (e ∷ es) =
    let rest = find_explicit uid es in
    if not e.wildcard && contains e.user_ids uid then some e.role_name else rest

unfoldable pub find_wildcard : List RoleEntry → Option String
find_wildcard [] = none
find_wildcard (e ∷ es) =
    let rest = find_wildcard es in if e.wildcard then some e.role_name else rest

-- The policy of a role that was found; a missing entry of `roleMap` reads as nil.
abbrev pub role_of : UserRoleManager → Option String → Option UserRole
role_of m none = none
role_of m (some name) = lookup name m.role_map

abbrev pub default_of : UserRoleManager → Option UserRole
default_of m = if m.default_role == "" then none else lookup m.default_role m.role_map

abbrev pub or_else : Option UserRole → Option UserRole → Option UserRole
or_else none other = other
or_else (some role) other = some role

module _ (u : Unicode) where
  unfoldable pub resolve_role : String → UserRoleManager → Option UserRole
  resolve_role user_id m = elim (find_explicit (u.to_lower user_id) m.roles) [
    | some name ↦ lookup name m.role_map
    | none ↦ or_else (default_of m) (role_of m (find_wildcard m.roles))
  ]

  -- The answer of the role's limiter, and whether the role has one.
  abbrev ask :
      String → String → ℕ → UserRoleManager → Option RateLimiter → UserRoleManager × Bool × Bool
  ask name user_id now m none = (m, true, false)
  ask name user_id now m (some rl) =
      let (rl', ok) = allow user_id now rl in
      (record m { limiters = insert name rl' m.limiters }, ok, true)

  -- `allowed` and `handled`.
  unfoldable pub allow_rate : String → ℕ → UserRoleManager → UserRoleManager × Bool × Bool
  allow_rate user_id now m = elim (resolve_role user_id m) [
    | none ↦ (m, true, false)
    | some role ↦ elim role.rate_limit_cfg [
      | none ↦ (m, true, false)
      | some cfg ↦ ask role.name user_id now m (lookup role.name m.limiters)
    ]
  ]

-- `checkRateLimit` of core/engine.go: the role's limit first, then the limiter of the project.
pub record Limits : Type 0 where
  pub user_roles : Option UserRoleManager
  pub rate_limiter : Option RateLimiter

abbrev pub ask_global : String → ℕ → Limits → Limits × Bool
ask_global key now l = elim l.rate_limiter [
  | none ↦ (l, true)
  | some rl ↦ let (rl', ok) = allow key now rl in (record l { rate_limiter = some rl' }, ok)
]

unfoldable pub check_rate_limit : Unicode → String → String → ℕ → Limits → Limits × Bool
check_rate_limit u user_id session_key now l = elim l.user_roles [
  | none ↦ ask_global session_key now l
  | some m ↦
      let rate_key = if user_id == "" then session_key else user_id in
      let (m', allowed, handled) = allow_rate u rate_key now m in
      let l' = record l { user_roles = some m' } in
      if handled then (l', allowed) else ask_global rate_key now l'
]
