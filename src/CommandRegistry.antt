-- ===== src/CommandRegistry.antt =====
-- Custom slash commands (core/command.go, `CommandRegistry`). A map from lower-case names is an
-- association list, and its order is the order in which Go's map is walked. What the directories
-- of command files hold is an argument.
pub mod Resolution
use Prim.Native.Char.{Char, code}
use Prim.Native.String
use Prim.Native.String.{count}
use agent_in_chat_feishu.Unicode.{Unicode}
use agent_in_chat_feishu.Shared.{
  ℕ, Bool, true, false, not, String, ◌==◌, Option, none, some, List, [], ◌∷◌, ◌++◌, eqb, leb,
  is_some, contains, if◌then◌else◌,
}
use agent_in_chat_feishu.Shared.Dict.{Dict, lookup, insert, delete, retain}
use agent_in_chat_feishu.Replies.{take_runes}

pub record CustomCommand : Type 0 where
  pub name : String
  pub description : String
  pub prompt : String
  pub exec : String
  pub work_dir : String
  pub source : String

pub record CommandRegistry : Type 0 where
  pub commands : Dict CustomCommand
  pub agent_dirs : List String

-- The files of a directory: the trimmed text of a candidate's file, none where it is missing,
-- blank or outside of the directory.
pub record AgentFiles : Type 0 where
  pub text_of : String → String → Option String

unfoldable pub new_command_registry : CommandRegistry
new_command_registry = record { commands = []; agent_dirs = [] }

abbrev hyphen : Char
hyphen = "-"

abbrev underscore : Char
underscore = "_"

-- `strings.ReplaceAll` of the characters `-` and `_`
unfoldable pub hyphens_to_underscores : String → String
hyphens_to_underscores String.[] = ""
hyphens_to_underscores (String.◌∷◌ c s) =
    let rest = hyphens_to_underscores s in
    String.◌∷◌ (if eqb (code c) b'-' then underscore else c) rest

unfoldable pub underscores_to_hyphens : String → String
underscores_to_hyphens String.[] = ""
underscores_to_hyphens (String.◌∷◌ c s) =
    let rest = underscores_to_hyphens s in String.◌∷◌ (if eqb (code c) b'_' then hyphen else c) rest

abbrev pub or_first {ℓ} : {A : Type ℓ} → Option A → Option A → Option A
or_first none other = other
or_first (some a) other = some a

-- An agent's command, from its file.
abbrev pub agent_command : String → Option String → Option CustomCommand
agent_command candidate none = none
agent_command candidate (some content) = some (record {
  name = candidate;
  description = "";
  prompt = content;
  exec = "";
  work_dir = "";
  source = "agent";
})

module _ (u : Unicode) where
  unfoldable pub normalize_command_name : String → String
  normalize_command_name s = u.to_lower (hyphens_to_underscores s)

  unfoldable pub add :
      String → String → String → String → String → String → CommandRegistry → CommandRegistry
  add name description prompt exec work_dir source r = record r {
    commands =
        insert (u.to_lower name)
          (record {
            name = name;
            description = description;
            prompt = prompt;
            exec = exec;
            work_dir = work_dir;
            source = source;
          })
          r.commands;
  }

  unfoldable pub clear_source : String → CommandRegistry → CommandRegistry
  clear_source source r = record r {
    commands = retain (λ k c. not (c.source == source)) r.commands;
  }

  unfoldable pub remove : String → CommandRegistry → CommandRegistry × Bool
  remove name r =
      if is_some (lookup (u.to_lower name) r.commands)
      then (record r { commands = delete (u.to_lower name) r.commands }, true)
      else (r, false)

  unfoldable pub set_agent_dirs : List String → CommandRegistry → CommandRegistry
  set_agent_dirs dirs r = record r { agent_dirs = dirs }

  unfoldable pub find_normalized : String → Dict CustomCommand → Option CustomCommand
  find_normalized norm [] = none
  find_normalized norm ((key, c) ∷ rest) =
      let later = find_normalized norm rest in
      if normalize_command_name key == norm then some c else later

  module _ (files : AgentFiles) where
    -- The name as it is, then with hyphens if that is another name.
    unfoldable pub scan_dir : String → String → Option CustomCommand
    scan_dir name dir =
        let alt = underscores_to_hyphens name in
        or_first (agent_command name (files.text_of dir name))
          (if alt == name then none else agent_command alt (files.text_of dir alt))

    unfoldable pub scan_dirs : String → List String → Option CustomCommand
    scan_dirs name [] = none
    scan_dirs name (dir ∷ dirs) = or_first (scan_dir name dir) (scan_dirs name dirs)

    unfoldable pub resolve : String → CommandRegistry → Option CustomCommand
    resolve name r = or_first (lookup (u.to_lower name) r.commands) (
        or_first (find_normalized (normalize_command_name name) r.commands)
          (scan_dirs name r.agent_dirs))

  pub data Call : Type 0 where
    adds : String → String → String → String → String → String → Call
    clears removes : String → Call
    sets_dirs : List String → Call

  unfoldable pub apply : Call → CommandRegistry → CommandRegistry
  apply (Call.adds name description prompt exec work_dir source) r =
      add name description prompt exec work_dir source r
  apply (Call.clears source) r = clear_source source r
  apply (Call.removes name) r = (remove name r).0
  apply (Call.sets_dirs dirs) r = set_agent_dirs dirs r

  unfoldable pub run : List Call → CommandRegistry → CommandRegistry
  run [] r = r
  run (c ∷ cs) r = run cs (apply c r)
