-- ===== src/Tests/Policies.antt =====
-- Commands and roles on concrete inputs.
use agent_in_chat_feishu.Shared.{
  ◌≡◌, refl, sym, false, List, [], ◌∷◌, String, eq_iff, arith, some, none, Option, contains, ap,
  inl, inr, Distinct, paired,
}
use agent_in_chat_feishu.Commands.Table.{
  Command, command, builtin_commands, match_prefix, find_exact, scan, has_prefix,
}
use agent_in_chat_feishu.Commands.Gate.{
  runs, disabled, handle_command, is_admin, normal_name, trim_slash, split_comma,
}
use agent_in_chat_feishu.CommandRegistry
use agent_in_chat_feishu.CommandRegistry.{
  CustomCommand, AgentFiles, new_command_registry, resolve, underscores_to_hyphens,
}
use agent_in_chat_feishu.CommandRegistry.Resolution.{view_apply, view_run, resolve-run}
use agent_in_chat_feishu.UserRoles.Snapshot.{sort_texts, insert_text}
use agent_in_chat_feishu.UserRoles.Types.{RoleInput, resolve_role}
use agent_in_chat_feishu.UserRoles.Configure.{
  validate_role_inputs, configure, user_role, named_users, role_names, check_user, check_users,
  check_roles,
}
use agent_in_chat_feishu.UserRoles.Validation.{validate_role_inputs-ValidRoles, ValidRoles}
use agent_in_chat_feishu.UserRoles.Members.{In, lists}
use agent_in_chat_feishu.UserRoles.Resolve.{resolve_role-explicit}
use agent_in_chat_feishu.UserRoles.Policy.{
  HasRole, handle_message_command, handle_message_command-disabled,
}
use agent_in_chat_feishu.Shared.Dict.{lookup, insert}
use agent_in_chat_feishu.Tests.Ascii.{ascii, lower, trim_left}

abbrev nobody : String → Option String
nobody name = none

abbrev few : List Command
few = command ("search" ∷ "find" ∷ []) "search" ∷ command ("shell" ∷ "sh" ∷ []) "shell" ∷ []

-- `se` names one command, `s` two.
few_tests : (match_prefix "se" few ≡ "search") × (match_prefix "s" few ≡ "")
unfolding match_prefix find_exact contains scan has_prefix
few_tests = (refl, refl)

abbrev off : List String
off = "/Shell" ∷ "del" ∷ []

shell_runs :
    handle_command ascii "ou_1, OU_9" "ou_9" ("delete" ∷ []) nobody nobody "/sh" ≡ runs "shell"
unfolding handle_command ascii lower paired trim_slash match_prefix find_exact contains is_admin
    split_comma builtin_commands trim_left
shell_runs = refl

rm_matches :
    match_prefix (normal_name ascii "/Rm") builtin_commands ≡ match_prefix "del" builtin_commands
unfolding ascii lower paired trim_slash match_prefix find_exact contains builtin_commands
rm_matches = refl

del_matches : match_prefix "del" builtin_commands ≡ "delete"
unfolding match_prefix find_exact contains builtin_commands
del_matches = refl

abbrev role : String → List String → List String → RoleInput
role name user_ids cmds = record {
  name = name;
  user_ids = user_ids;
  disabled_commands = cmds;
  rate_limit = none;
}

abbrev staff : RoleInput
staff = role "staff" ("OU_1" ∷ "ou_2" ∷ []) ("shell" ∷ [])

abbrev guest : RoleInput
guest = role "guest" ("*" ∷ []) ("*" ∷ [])

abbrev both : List RoleInput
both = staff ∷ guest ∷ []

both_accepted :
    (validate_role_inputs ascii "guest" both ≡ none) × (validate_role_inputs ascii "" both ≡ none)
unfolding validate_role_inputs check_roles check_users check_user ascii lower paired lookup insert
    role_names contains
both_accepted = (refl, refl)

both-Distinct : Distinct (role_names both)
unfolding role_names contains
both-Distinct = (refl, (refl, tt))

validate_role_inputs-ValidRoles_example : ValidRoles ascii "guest" both
validate_role_inputs-ValidRoles_example =
    (validate_role_inputs-ValidRoles ascii "guest" both).0 both_accepted.0

resolve_role-explicit_example :
    resolve_role ascii "Ou_1" (configure ascii "guest" both) ≡ some (user_role ascii staff)
unfolding ascii lower paired named_users contains
resolve_role-explicit_example =
    resolve_role-explicit ascii "guest" "Ou_1" staff both both_accepted.0 both-Distinct (inl refl)
      refl

-- Neither role lists this user by name.
stranger : (s : RoleInput) → In s both → lists ascii (ascii.to_lower "ou_7") s ≡ false
unfolding ascii lower paired named_users contains
stranger s (inl e) = sym (ap (lists ascii (lower "ou_7")) e)
stranger s (inr (inl e)) = sym (ap (lists ascii (lower "ou_7")) e)
stranger s (inr (inr none_left)) = absurd none_left

handle_message_command-disabled_example :
    handle_message_command ascii "*" "Ou_1" []
      (some (configure ascii "guest" both))
      nobody
      nobody
      "/exec"
    ≡ disabled (match_prefix "shell" builtin_commands)
unfolding ascii lower paired named_users contains trim_slash match_prefix find_exact
    builtin_commands
handle_message_command-disabled_example =
    handle_message_command-disabled ascii "guest" "Ou_1" staff both both_accepted.0 both-Distinct
      (inl refl) (HasRole.by_name refl) "*" [] nobody nobody "/exec" "shell" refl
      (ground (arith, eq_iff "shell" "")) refl

report_sorted : sort_texts ("b" ∷ "*" ∷ "a" ∷ []) ≡ "*" ∷ "a" ∷ "b" ∷ []
unfolding sort_texts insert_text
report_sorted = refl

hyphenated : underscores_to_hyphens "my_cmd" ≡ "my-cmd"
unfolding underscores_to_hyphens
hyphenated = refl

abbrev deploy : CustomCommand
deploy = record {
  name = "Deploy";
  description = "";
  prompt = "deploy {{1}}";
  exec = "";
  work_dir = "";
  source = "config";
}

abbrev registering : List (CommandRegistry.Call ascii)
registering =
    CommandRegistry.Call.adds "old" "" "x" "" "" "agent"
    ∷ CommandRegistry.Call.adds "Deploy" "" "deploy {{1}}" "" "" "config"
    ∷ CommandRegistry.Call.clears "agent"
    ∷ CommandRegistry.Call.removes "old"
    ∷ []

abbrev no_files : AgentFiles
no_files = record { text_of = λ dir candidate. none }

resolve-run_example :
    resolve ascii no_files "DEPLOY" (CommandRegistry.run ascii registering new_command_registry)
    ≡ some deploy
unfolding view_run view_apply ascii lower paired
resolve-run_example = resolve-run ascii no_files registering "DEPLOY" deploy refl
