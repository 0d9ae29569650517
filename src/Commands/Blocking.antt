-- ===== src/Commands/Blocking.antt =====
-- What the gate of `handleCommand` lets through (core/engine.go).
use agent_in_chat_feishu.Unicode.{Unicode}
use agent_in_chat_feishu.Shared.{
  ◌≡◌, ◌≢◌, ◌⊎◌, Bool, true, false, not, ◌&&◌, ◌||◌, List, [], ◌∷◌, String, ◌==◌, eq_iff, eq_refl,
  Option, arith, contains,
}
use agent_in_chat_feishu.Commands.Table.{builtin_commands, privileged_commands, match_prefix}
use agent_in_chat_feishu.Commands.Matching.{match_prefix-contains}
use agent_in_chat_feishu.Commands.Gate.{
  disabled, runs, normal_name, disabled_id, resolve_disabled_cmds, is_admin, handle_command, ids,
}

module _ (u : Unicode) (admin_from user_id : String) (disabled_cmds : List String)
    (custom skill : String → Option String) (word : String) where
  -- A built-in command runs only if its ID is not disabled for the user, and, if it is privileged,
  -- only for an admin.
  pub handle_command-runs :
      (id : String)
      → handle_command u admin_from user_id disabled_cmds custom skill word ≡ runs id
      → (contains disabled_cmds id ≡ false)
        × ((contains privileged_commands id ≡ false) ⊎ (is_admin u admin_from user_id ≡ true))
  unfolding handle_command
  handle_command-runs id h = ground arith

-- A list that has the wildcard disables every built-in command, wherever it stands in the list.
abbrev pub has_wildcard : Unicode → List String → Bool
has_wildcard u [] = false
has_wildcard u (c ∷ cs) = normal_name u c == "*" || has_wildcard u cs

resolve-wildcard :
    (u : Unicode) (cmds : List String) (id : String)
    → has_wildcard u cmds ≡ true
    → contains (ids builtin_commands) id ≡ true
    → contains (resolve_disabled_cmds u cmds) id ≡ true
unfolding resolve_disabled_cmds contains
resolve-wildcard u [] id h b = cc
resolve-wildcard u (c ∷ cs) id h b = ground (arith, resolve-wildcard u cs id)

-- An entry that no wildcard stands before disables the command that it names.
abbrev pub entry_before_wildcard : Unicode → String → List String → Bool
entry_before_wildcard u name [] = false
entry_before_wildcard u name (c ∷ cs) =
    not (normal_name u c == "*") && (normal_name u c == name || entry_before_wildcard u name cs)

resolve_entry :
    (u : Unicode) (cmds : List String) (name : String)
    → entry_before_wildcard u name cmds ≡ true
    → contains (resolve_disabled_cmds u cmds) (disabled_id u name) ≡ true
unfolding resolve_disabled_cmds contains
resolve_entry u [] name h = cc
resolve_entry u (c ∷ cs) name h =
    ground
      (arith, resolve_entry u cs name, eq_iff (normal_name u c) name, eq_refl (disabled_id u name))

-- A command that an entry of the disabled list names, before any wildcard, does not run, under
-- whatever name or short form of a name it is typed.
pub handle_command-disabled :
    (u : Unicode) (admin_from user_id : String) (cmds : List String)
    (custom skill : String → Option String) (word name : String)
    → entry_before_wildcard u name cmds ≡ true
    → match_prefix name builtin_commands ≢ ""
    → match_prefix (normal_name u word) builtin_commands ≡ match_prefix name builtin_commands
    → handle_command u admin_from user_id (resolve_disabled_cmds u cmds) custom skill word
      ≡ disabled (match_prefix name builtin_commands)
unfolding handle_command
handle_command-disabled u admin_from user_id cmds custom skill word name h ne e = ground (
  arith,
  resolve_entry u cmds name h,
  eq_iff (match_prefix name builtin_commands) "",
  eq_iff (match_prefix (normal_name u word) builtin_commands) "",
)

-- Where the disabled list has the wildcard, no built-in command runs, whatever is typed.
pub handle_command-wildcard :
    (u : Unicode) (admin_from user_id : String) (cmds : List String)
    (custom skill : String → Option String) (word id : String)
    → has_wildcard u cmds ≡ true
    → handle_command u admin_from user_id (resolve_disabled_cmds u cmds) custom skill word ≢ runs id
unfolding handle_command
handle_command-wildcard u admin_from user_id cmds custom skill word id h e =
    let cmd_id : String = match_prefix (normal_name u word) builtin_commands in
    ground (
      arith,
      resolve-wildcard u cmds cmd_id h,
      match_prefix-contains (normal_name u word) builtin_commands,
      eq_iff cmd_id "",
    )
