-- ===== src/Commands/Table.antt =====
-- `builtinCommands`, `privilegedCommands` and the matching of names (core/engine.go).
use text.Mathlib.Text.{starts_with}
use agent_in_chat_feishu.Shared.{
  Bool, false, not, ◌&&◌, ◌||◌, List, [], ◌∷◌, String, ◌==◌, Option, none, some, if◌then◌else◌,
  contains,
}

pub record Command : Type 0 where
  pub names : List String
  pub id : String

abbrev pub command : List String → String → Command
command names id = record { names = names; id = id }

unfoldable pub builtin_commands : List Command
builtin_commands =
    command ("new" ∷ []) "new"
    ∷ command ("list" ∷ "sessions" ∷ []) "list"
    ∷ command ("switch" ∷ []) "switch"
    ∷ command ("name" ∷ "rename" ∷ []) "name"
    ∷ command ("current" ∷ []) "current"
    ∷ command ("status" ∷ []) "status"
    ∷ command ("usage" ∷ "quota" ∷ []) "usage"
    ∷ command ("history" ∷ []) "history"
    ∷ command ("allow" ∷ []) "allow"
    ∷ command ("model" ∷ []) "model"
    ∷ command ("reasoning" ∷ "effort" ∷ []) "reasoning"
    ∷ command ("mode" ∷ []) "mode"
    ∷ command ("lang" ∷ []) "lang"
    ∷ command ("quiet" ∷ []) "quiet"
    ∷ command ("provider" ∷ []) "provider"
    ∷ command ("memory" ∷ []) "memory"
    ∷ command ("cron" ∷ []) "cron"
    ∷ command ("heartbeat" ∷ "hb" ∷ []) "heartbeat"
    ∷ command ("compress" ∷ "compact" ∷ []) "compress"
    ∷ command ("stop" ∷ []) "stop"
    ∷ command ("help" ∷ []) "help"
    ∷ command ("version" ∷ []) "version"
    ∷ command ("commands" ∷ "command" ∷ "cmd" ∷ []) "commands"
    ∷ command ("skills" ∷ "skill" ∷ []) "skills"
    ∷ command ("config" ∷ []) "config"
    ∷ command ("doctor" ∷ []) "doctor"
    ∷ command ("upgrade" ∷ "update" ∷ []) "upgrade"
    ∷ command ("restart" ∷ []) "restart"
    ∷ command ("alias" ∷ []) "alias"
    ∷ command ("delete" ∷ "del" ∷ "rm" ∷ []) "delete"
    ∷ command ("bind" ∷ []) "bind"
    ∷ command ("group" ∷ []) "group"
    ∷ command ("search" ∷ "find" ∷ []) "search"
    ∷ command ("shell" ∷ "sh" ∷ "exec" ∷ "run" ∷ []) "shell"
    ∷ command ("show" ∷ []) "show"
    ∷ command ("dir" ∷ "cd" ∷ "chdir" ∷ "workdir" ∷ []) "dir"
    ∷ command ("tts" ∷ []) "tts"
    ∷ command ("workspace" ∷ "ws" ∷ []) "workspace"
    ∷ command ("whoami" ∷ "myid" ∷ []) "whoami"
    ∷ command ("diff" ∷ []) "diff"
    ∷ []

abbrev pub privileged_commands : List String
privileged_commands = "shell" ∷ "show" ∷ "dir" ∷ "restart" ∷ "upgrade" ∷ "diff" ∷ "group" ∷ []

-- The first command with the name itself.
unfoldable pub find_exact : String → List Command → Option String
find_exact prefix [] = none
find_exact prefix (c ∷ cs) =
    let rest = find_exact prefix cs in if contains c.names prefix then some c.id else rest

unfoldable pub has_prefix : String → List String → Bool
has_prefix prefix [] = false
has_prefix prefix (n ∷ ns) = starts_with n prefix || has_prefix prefix ns

-- The second pass, with the ID matched so far: it ends at a second, different one.
unfoldable pub scan : String → String → List Command → String
scan prefix matched [] = matched
scan prefix matched (c ∷ cs) =
    let skip = scan prefix matched cs in
    let hit = scan prefix c.id cs in
    if has_prefix prefix c.names
    then if not (matched == "") && not (matched == c.id) then "" else hit
    else skip

unfoldable pub match_prefix : String → List Command → String
match_prefix prefix candidates = elim (find_exact prefix candidates) [
  | some id ↦ id
  | none ↦ scan prefix "" candidates
]

unfoldable pub scan_flat : String → String → List String → String
scan_flat input matched [] = if matched == "" then input else matched
scan_flat input matched (c ∷ cs) =
    let skip = scan_flat input matched cs in
    let hit = scan_flat input c cs in
    if starts_with c input then if matched == "" then hit else input else skip

unfoldable pub match_sub_command : String → List String → String
match_sub_command input candidates =
    if contains candidates input then input else scan_flat input "" candidates
