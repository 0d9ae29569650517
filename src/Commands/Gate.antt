-- ===== src/Commands/Gate.antt =====
-- Which commands a project or a role disables, who is an admin, and the tests that `handleCommand`
-- makes before it runs a command (core/engine.go).
use Prim.Native.Char.{code}
use agent_in_chat_feishu.Unicode.{Unicode}
use agent_in_chat_feishu.Shared.{
  Bool, true, false, not, ◌&&◌, ◌||◌, List, [], ◌∷◌, map, String, ◌==◌, Option, none, some,
  if◌then◌else◌, contains, eqb,
}
use agent_in_chat_feishu.Commands.Table.{
  Command, builtin_commands, privileged_commands, match_prefix,
}

unfoldable pub trim_slash : String → String
trim_slash String.[] = String.[]
trim_slash (String.◌∷◌ c s) = if eqb (code c) b'/' then s else String.◌∷◌ c s

abbrev pub ids : List Command → List String
ids = map (λ c. c.id)

-- `strings.Split(s, ",")`
unfoldable pub split_comma : String → List String
split_comma String.[] = "" ∷ []
split_comma (String.◌∷◌ c s) =
    let rest = split_comma s in
    if eqb (code c) b','
    then "" ∷ rest
    else elim rest [ [] ↦ String.◌∷◌ c "" ∷ [] | field ∷ fields ↦ String.◌∷◌ c field ∷ fields ]

-- What becomes of a command.
pub data Verdict : Type 0 where
  disabled : String → Verdict
  admin_required : String → Verdict
  runs : String → Verdict
  runs_custom runs_skill : String → Verdict
  unknown : Verdict

module _ (u : Unicode) where
  abbrev pub normal_name : String → String
  normal_name c = u.to_lower (trim_slash c)

  -- The name that an entry of the list disables.
  abbrev pub disabled_id : String → String
  disabled_id c = let id = match_prefix c builtin_commands in if id == "" then c else id

  -- A set, as a list. The wildcard ends the loop.
  unfoldable pub resolve_disabled_cmds : List String → List String
  resolve_disabled_cmds [] = []
  resolve_disabled_cmds (c ∷ cs) =
      let rest = resolve_disabled_cmds cs in
      if normal_name c == "*" then ids builtin_commands else disabled_id (normal_name c) ∷ rest

  any_equal_fold : String → List String → Bool
  any_equal_fold user_id [] = false
  any_equal_fold user_id (id ∷ rest) =
      u.equal_fold (u.trim_space id) user_id || any_equal_fold user_id rest

  -- `admin_from` was trimmed when it was set.
  unfoldable pub is_admin : String → String → Bool
  unfolding any_equal_fold
  is_admin admin_from user_id =
      if admin_from == ""
      then false
      else if admin_from == "*"
      then true
      else any_equal_fold user_id (split_comma admin_from)

  -- The custom command or the skill of the name, if the registries have one.
  abbrev or_blocked : List String → (String → Verdict) → String → Verdict
  or_blocked disabled_cmds run name =
      if contains disabled_cmds (u.to_lower name) then disabled name else run name

  unfoldable pub handle_command :
      String
      → String
      → List String
      → (String → Option String)
      → (String → Option String)
      → String
      → Verdict
  handle_command admin_from user_id disabled_cmds custom skill word =
      let cmd = normal_name word in
      let cmd_id = match_prefix cmd builtin_commands in
      if not (cmd_id == "") && contains disabled_cmds cmd_id
      then disabled cmd_id
      else if not (cmd_id == "")
          && contains privileged_commands cmd_id
          && not (is_admin admin_from user_id)
      then admin_required cmd_id
      else if not (cmd_id == "")
      then runs cmd_id
      else elim (custom cmd) [
        | some name ↦ or_blocked disabled_cmds runs_custom name
        | none ↦ elim (skill cmd) [
          | some name ↦ or_blocked disabled_cmds runs_skill name
          | none ↦ unknown
        ]
      ]
