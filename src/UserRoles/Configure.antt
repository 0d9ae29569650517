-- ===== src/UserRoles/Configure.antt =====
-- `Configure` and `ValidateRoleInputs` of core/user_roles.go.
use Prim.Native.String.{compare}
use text.Mathlib.Text.{is_lt}
use agent_in_chat_feishu.Unicode.{Unicode}
use agent_in_chat_feishu.Shared.{
  ℕ, ◌+◌, ◌/◌, Bool, true, false, not, ◌&&◌, List, [], ◌∷◌, ◌++◌, String, ◌==◌, Option, none, some,
  if◌then◌else◌, contains, ltb, ℤ, pos, negsuc,
}
use agent_in_chat_feishu.Shared.Dict.{Dict, lookup, insert}
use agent_in_chat_feishu.RateLimiter.{RateLimiter, new_rate_limiter}
use agent_in_chat_feishu.Commands.Gate.{resolve_disabled_cmds}
use agent_in_chat_feishu.UserRoles.Types.{
  RateLimitCfg, UserRole, RoleInput, RoleEntry, UserRoleManager,
}

-- `sort.Slice` by name: the order is determined where the names differ.
unfoldable pub insert_sorted : RoleInput → List RoleInput → List RoleInput
insert_sorted r [] = r ∷ []
insert_sorted r (x ∷ xs) =
    let further = x ∷ insert_sorted r xs in
    if is_lt (compare x.name r.name) then further else r ∷ x ∷ xs

unfoldable pub sort_roles : List RoleInput → List RoleInput
sort_roles [] = []
sort_roles (r ∷ rs) = insert_sorted r (sort_roles rs)

abbrev is_positive : ℤ → Bool
is_positive (pos n) = ltb 0 n
is_positive (negsuc n) = false

-- `time.Duration.Milliseconds`
abbrev milliseconds : ℕ → ℕ
milliseconds n = n / 1000000

abbrev add_limiter : String → Option RateLimitCfg → Dict RateLimiter → Dict RateLimiter
add_limiter name none limiters = limiters
add_limiter name (some cfg) limiters =
    if is_positive cfg.max_messages
    then insert name (new_rate_limiter cfg.max_messages (milliseconds cfg.window)) limiters
    else limiters

module _ (u : Unicode) where
  -- The named users of a role, in lower case.
  unfoldable pub named_users : List String → List String
  named_users [] = []
  named_users (uid ∷ uids) =
      let rest = named_users uids in if uid == "*" then rest else u.to_lower uid ∷ rest

  abbrev pub role_entry : RoleInput → RoleEntry
  role_entry ri = record {
    role_name = ri.name;
    user_ids = named_users ri.user_ids;
    wildcard = contains ri.user_ids "*";
  }

  abbrev pub user_role : RoleInput → UserRole
  user_role ri = record {
    name = ri.name;
    disabled_cmds = resolve_disabled_cmds u ri.disabled_commands;
    rate_limit_cfg = ri.rate_limit;
  }

  unfoldable pub add_roles : List RoleInput → UserRoleManager → UserRoleManager
  add_roles [] m = m
  add_roles (ri ∷ rest) m = add_roles rest (record m {
    role_map = insert ri.name (user_role ri) m.role_map;
    roles = m.roles ++ role_entry ri ∷ [];
    limiters = add_limiter ri.name ri.rate_limit m.limiters;
  })

  -- The limiters of before are stopped and dropped.
  unfoldable pub configure : String → List RoleInput → UserRoleManager
  configure default_role roles =
      add_roles (sort_roles roles)
        (record { roles = []; default_role = default_role; role_map = []; limiters = [] })

pub data RoleError : Type 0 where
  no_roles : RoleError
  empty_user_ids : String → RoleError
  in_two_roles : String → String → String → RoleError
  many_wildcards : RoleError
  unknown_default : String → RoleError

-- What the loops keep: the number of wildcards and the role of each user seen.
pub record Seen : Type 0 where
  pub wildcards : ℕ
  pub owners : Dict String

pub data Checked : Type 0 where
  go_on : Seen → Checked
  fail : RoleError → Checked

infixl 5 ◌>>=◌
abbrev pub ◌>>=◌ : Checked → (Seen → Checked) → Checked
go_on seen >>= f = f seen
fail why >>= f = fail why

unfoldable pub role_names : List RoleInput → List String
role_names [] = []
role_names (ri ∷ rest) = ri.name ∷ role_names rest

abbrev pub is_empty : List String → Bool
is_empty [] = true
is_empty (x ∷ xs) = false

module _ (u : Unicode) where
  unfoldable pub check_user : String → String → Seen → Checked
  check_user role uid seen =
      if uid == "*"
      then go_on (record seen { wildcards = seen.wildcards + 1 })
      else elim (lookup (u.to_lower uid) seen.owners) [
        | some prev ↦ fail (in_two_roles uid prev role)
        | none ↦ go_on (record seen { owners = insert (u.to_lower uid) role seen.owners })
      ]

  unfoldable pub check_users : String → List String → Seen → Checked
  check_users role [] seen = go_on seen
  check_users role (uid ∷ uids) seen = check_user role uid seen >>= check_users role uids

  unfoldable pub check_roles : List RoleInput → Seen → Checked
  check_roles [] seen = go_on seen
  check_roles (ri ∷ rest) seen =
      if is_empty ri.user_ids
      then fail (empty_user_ids ri.name)
      else (check_users ri.name ri.user_ids seen >>= check_roles rest)

  abbrev pub finish : String → List RoleInput → Checked → Option RoleError
  finish default_role roles (fail why) = some why
  finish default_role roles (go_on seen) =
      if ltb 1 seen.wildcards
      then some many_wildcards
      else if not (default_role == "") && not (contains (role_names roles) default_role)
      then some (unknown_default default_role)
      else none

  -- `none` is the nil error.
  unfoldable pub validate_role_inputs : String → List RoleInput → Option RoleError
  validate_role_inputs default_role [] = some no_roles
  validate_role_inputs default_role (ri ∷ rest) =
      finish default_role (ri ∷ rest)
        (check_roles (ri ∷ rest) (record { wildcards = 0; owners = [] }))
