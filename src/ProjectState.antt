-- ===== src/ProjectState.antt =====
-- core/projectstate.go, `ProjectStateStore`: the working directories that were set at run time. A
-- nil map is `none`. The file is a value; `omitempty` leaves an empty map out of it.
pub mod Laws
use agent_in_chat_feishu.Shared.{
  Bool, true, false, List, [], ◌∷◌, String, ◌==◌, Option, none, some, if◌then◌else◌,
}
use agent_in_chat_feishu.Shared.Dict.{Dict, lookup, insert, delete}

pub record ProjectStateData : Type 0 where
  pub work_dir_override : String
  pub workspace_dir_overrides : Option (Dict String)
  pub channel_dir_overrides : Option (Dict String)

pub record ProjectStateStore : Type 0 where
  pub store_path : String
  pub state : ProjectStateData

abbrev pub no_overrides : ProjectStateData
no_overrides = record {
  work_dir_override = "";
  workspace_dir_overrides = none;
  channel_dir_overrides = none;
}

-- What the file holds: nothing that can be read, or a state.
abbrev pub File : Type 0
File = Option ProjectStateData

unfoldable pub load : File → ProjectStateStore → ProjectStateStore
load none ps = ps
load (some state) ps = record ps { state = state }

unfoldable pub new_project_state_store : String → File → ProjectStateStore
new_project_state_store path file =
    let ps : ProjectStateStore = record { store_path = path; state = no_overrides } in
    let loaded = load file ps in if path == "" then ps else loaded

abbrev pub or_blank : Option String → String
or_blank none = ""
or_blank (some dir) = dir

-- The three operations on a map of overrides.
unfoldable pub override_of : String → Option (Dict String) → String
override_of key none = ""
override_of key (some m) = or_blank (lookup key m)

unfoldable pub set_override : String → String → Option (Dict String) → Option (Dict String)
set_override key dir none = some (insert key dir [])
set_override key dir (some m) = some (insert key dir m)

abbrev pub nil_if_empty : Dict String → Option (Dict String)
nil_if_empty [] = none
nil_if_empty (e ∷ es) = some (e ∷ es)

unfoldable pub clear_override : String → Option (Dict String) → Option (Dict String)
clear_override key none = none
clear_override key (some m) = nil_if_empty (delete key m)

unfoldable pub workspace_dir_override : String → ProjectStateStore → String
workspace_dir_override workspace ps = override_of workspace ps.state.workspace_dir_overrides

unfoldable pub channel_dir_override : String → ProjectStateStore → String
channel_dir_override channel ps = override_of channel ps.state.channel_dir_overrides

unfoldable pub set_work_dir_override : String → ProjectStateStore → ProjectStateStore
set_work_dir_override dir ps = record ps { state = record (ps.state) { work_dir_override = dir } }

unfoldable pub clear_work_dir_override : ProjectStateStore → ProjectStateStore
clear_work_dir_override = set_work_dir_override ""

unfoldable pub set_workspace_dir_override : String → String → ProjectStateStore → ProjectStateStore
set_workspace_dir_override workspace dir ps = record ps {
  state = record (ps.state) {
    workspace_dir_overrides = set_override workspace dir ps.state.workspace_dir_overrides;
  };
}

unfoldable pub clear_workspace_dir_override : String → ProjectStateStore → ProjectStateStore
clear_workspace_dir_override workspace ps = record ps {
  state = record (ps.state) {
    workspace_dir_overrides = clear_override workspace ps.state.workspace_dir_overrides;
  };
}

unfoldable pub set_channel_dir_override : String → String → ProjectStateStore → ProjectStateStore
set_channel_dir_override channel dir ps = record ps {
  state = record (ps.state) {
    channel_dir_overrides = set_override channel dir ps.state.channel_dir_overrides;
  };
}

unfoldable pub clear_channel_dir_override : String → ProjectStateStore → ProjectStateStore
clear_channel_dir_override channel ps = record ps {
  state = record (ps.state) {
    channel_dir_overrides = clear_override channel ps.state.channel_dir_overrides;
  };
}

-- A map in the file: `omitempty` drops a nil map and an empty one, which both load as nil.
abbrev pub omit_empty : Option (Dict String) → Option (Dict String)
omit_empty none = none
omit_empty (some m) = nil_if_empty m

-- `writable`: whether the directory can be made and the file be replaced.
unfoldable pub save : Bool → ProjectStateStore → File → File
save writable ps file =
    if ps.store_path == ""
    then file
    else if writable
    then some (record (ps.state) {
      workspace_dir_overrides = omit_empty ps.state.workspace_dir_overrides;
      channel_dir_overrides = omit_empty ps.state.channel_dir_overrides;
    })
    else file
