-- ===== src/UserRoles/Policy.antt =====
-- How roles and commands meet in `handleCommand` (core/engine.go).
use agent_in_chat_feishu.Unicode.{Unicode}
use agent_in_chat_feishu.Shared.{
  ◌≡◌, ◌≢◌, ap, sym, subst, true, false, List, String, Option, none, some, Distinct,
}
use agent_in_chat_feishu.Commands.Gate.{
  Verdict, handle_command, resolve_disabled_cmds, normal_name, disabled,
}
use agent_in_chat_feishu.Commands.Table.{builtin_commands, match_prefix}
use agent_in_chat_feishu.Commands.Blocking.{entry_before_wildcard, handle_command-disabled}
use agent_in_chat_feishu.UserRoles.Types.{RoleInput, UserRole, UserRoleManager, resolve_role}
use agent_in_chat_feishu.UserRoles.Configure.{
  user_role, configure, validate_role_inputs, role_names,
}
use agent_in_chat_feishu.UserRoles.Members.{In, lists}
use agent_in_chat_feishu.UserRoles.Resolve.{resolve_role-explicit, resolve_role-default}
use agent_in_chat_feishu.UserRoles.Fallback.{has_star, resolve_role-wildcard}

abbrev cmds_of_role : List String → Option UserRole → List String
cmds_of_role project_cmds none = project_cmds
cmds_of_role project_cmds (some role) = role.disabled_cmds

-- The commands that are disabled for the user: those of the role, or else of the project.
unfoldable pub effective_disabled_cmds :
    Unicode → String → List String → Option UserRoleManager → List String
effective_disabled_cmds u user_id project_cmds none = project_cmds
effective_disabled_cmds u user_id project_cmds (some m) =
    cmds_of_role project_cmds (resolve_role u user_id m)

-- `handleCommand` from the engine's own settings.
unfoldable pub handle_message_command :
    Unicode
    → String
    → String
    → List String
    → Option UserRoleManager
    → (String → Option String)
    → (String → Option String)
    → String
    → Verdict
handle_message_command u admin_from user_id project_cmds urm custom skill word =
    handle_command u admin_from user_id (effective_disabled_cmds u user_id project_cmds urm) custom
      skill word

-- The ways in which a user has the role of an input: it lists the user by name and has no
-- wildcard; no such role does, and it is the default role; or no such role does, there is no default role, and it has the wildcard.
pub data HasRole (u : Unicode) (default_role user_id : String) (r : RoleInput)
    (ris : List RoleInput) : Type 0 where
  by_name : lists u (u.to_lower user_id) r ≡ true → HasRole u default_role user_id r ris
  by_default :
      r.name ≢ ""
      → default_role ≡ r.name
      → ((s : RoleInput) → In s ris → lists u (u.to_lower user_id) s ≡ false)
      → HasRole u default_role user_id r ris
  by_wildcard :
      default_role ≡ ""
      → has_star r ≡ true
      → ((s : RoleInput) → In s ris → lists u (u.to_lower user_id) s ≡ false)
      → HasRole u default_role user_id r ris

module _ (u : Unicode) (user_id : String) (r : RoleInput) (ris : List RoleInput) where
  role_of_user :
      (default_role : String)
      → validate_role_inputs u default_role ris ≡ none
      → Distinct (role_names ris)
      → In r ris
      → HasRole u default_role user_id r ris
      → resolve_role u user_id (configure u default_role ris) ≡ some (user_role u r)
  role_of_user default_role valid distinct stands (HasRole.by_name listed) =
      resolve_role-explicit u default_role user_id r ris valid distinct stands listed
  role_of_user default_role valid distinct stands (HasRole.by_default named e nobody) =
      subst (λ d. resolve_role u user_id (configure u d ris) ≡ some (user_role u r)) (sym e)
        (resolve_role-default u user_id r ris distinct stands named nobody)
  role_of_user default_role valid distinct stands (HasRole.by_wildcard e star nobody) =
      subst (λ d. resolve_role u user_id (configure u d ris) ≡ some (user_role u r)) (sym e)
        (resolve_role-wildcard u user_id r ris
          (subst (λ d. validate_role_inputs u d ris ≡ none) e valid) distinct stands star nobody)

module _ (u : Unicode) (default_role user_id : String) (r : RoleInput) (ris : List RoleInput)
    (valid : validate_role_inputs u default_role ris ≡ none) (distinct : Distinct (role_names ris))
    (stands : In r ris) (has : HasRole u default_role user_id r ris) where
  role_cmds :
      (project_cmds : List String)
      → effective_disabled_cmds u user_id project_cmds (some (configure u default_role ris))
        ≡ resolve_disabled_cmds u r.disabled_commands
  unfolding effective_disabled_cmds
  role_cmds project_cmds =
      ap (cmds_of_role project_cmds)
        (role_of_user u user_id r ris default_role valid distinct stands has)

  -- In a validated configuration of roles with different names: where the role of a user, which
  -- lists the user by name without the wildcard, or is the default role of a user that no such role
  -- lists, or has the wildcard for such a user and there is no default role, disables a built-in command by an entry before any wildcard in
  -- its list of commands, the user cannot run this built-in command, under whatever short form it
  -- is typed, for any list of the project and also as an admin.
  pub handle_message_command-disabled :
      (admin_from : String) (project_cmds : List String) (custom skill : String → Option String)
      (word name : String)
      → entry_before_wildcard u name r.disabled_commands ≡ true
      → match_prefix name builtin_commands ≢ ""
      → match_prefix (normal_name u word) builtin_commands ≡ match_prefix name builtin_commands
      → handle_message_command u admin_from user_id project_cmds
          (some (configure u default_role ris))
          custom
          skill
          word
        ≡ disabled (match_prefix name builtin_commands)
  unfolding handle_message_command
  handle_message_command-disabled admin_from project_cmds custom skill word name h ne e =
      rw (role_cmds project_cmds) (
        handle_command-disabled u admin_from user_id r.disabled_commands custom skill word name h ne
          e)
