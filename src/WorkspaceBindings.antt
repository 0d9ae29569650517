-- ===== src/WorkspaceBindings.antt =====
-- core/workspace_binding.go, `WorkspaceBindingManager`: which workspace a channel of a project has.
-- The file is shared by processes: each call reloads it if its stamp changed. Times of files are
-- natural numbers, where 0 is Go's zero time; a text that is not JSON is `unparsed`.
pub mod Lookups
pub mod Worlds
pub mod Processes
use agent_in_chat_feishu.Shared.{
  ℕ, Bool, true, false, not, ◌&&◌, List, [], ◌∷◌, String, ◌==◌, Option, none, some, if◌then◌else◌,
  eqb,
}
use agent_in_chat_feishu.Shared.Dict.{Dict, lookup, insert, delete}
use agent_in_chat_feishu.SessionKey.{workspace_channel_key_candidates}

pub record WorkspaceBinding : Type 0 where
  pub channel_name : String
  pub workspace : String
  pub bound_at : ℕ

-- The channels of each project.
abbrev pub Bindings : Type 0
Bindings = Dict (Dict WorkspaceBinding)

pub data Contents : Type 0 where
  unread : Contents
  unparsed : Contents
  parsed : Bindings → Contents

-- What `os.Stat` and `os.ReadFile` find: nothing, an error, or a file.
pub data File : Type 0 where
  missing : File
  stat_error : File
  present : (mod_time : ℕ) → (size : ℕ) → Contents → File

pub record WorkspaceBindingManager : Type 0 where
  pub bindings : Bindings
  pub store_path : String
  pub last_loaded_mod_time : ℕ
  pub last_loaded_size : ℕ

-- What a write does: it fails, or the file has a new stamp, which `os.Stat` can read or not.
pub data Written : Type 0 where
  not_written : Written
  written : (mod_time : ℕ) → (size : ℕ) → (stat_ok : Bool) → Written

-- The file has the stamp of the last load, and there was one.
abbrev pub is_current : ℕ → ℕ → WorkspaceBindingManager → Bool
is_current mod_time size m =
    not (eqb m.last_loaded_mod_time 0)
    && eqb mod_time m.last_loaded_mod_time
    && eqb size m.last_loaded_size

abbrev pub take_over : ℕ → ℕ → Contents → WorkspaceBindingManager → WorkspaceBindingManager
take_over mod_time size unread m = m
take_over mod_time size unparsed m = m
take_over mod_time size (parsed loaded) m = record m {
  bindings = loaded;
  last_loaded_mod_time = mod_time;
  last_loaded_size = size;
}

abbrev pub refresh_from : File → WorkspaceBindingManager → WorkspaceBindingManager
refresh_from missing m = record m { bindings = []; last_loaded_mod_time = 0; last_loaded_size = 0 }
refresh_from stat_error m = m
refresh_from (present mod_time size contents) m =
    if is_current mod_time size m then m else take_over mod_time size contents m

unfoldable pub refresh_locked : File → WorkspaceBindingManager → WorkspaceBindingManager
refresh_locked file m = if m.store_path == "" then m else refresh_from file m

abbrev pub save_as : Written → WorkspaceBindingManager × File → WorkspaceBindingManager × File
save_as not_written (m, file) = (m, file)
save_as (written mod_time size stat_ok) (m, file) = (
  if stat_ok then record m { last_loaded_mod_time = mod_time; last_loaded_size = size } else m,
  present mod_time size (parsed m.bindings),
)

unfoldable pub save_locked :
    Written → WorkspaceBindingManager × File → WorkspaceBindingManager × File
save_locked w (m, file) = if m.store_path == "" then (m, file) else save_as w (m, file)

unfoldable pub new_workspace_binding_manager : String → File → WorkspaceBindingManager
new_workspace_binding_manager store_path file = refresh_locked file (record {
  bindings = [];
  store_path = store_path;
  last_loaded_mod_time = 0;
  last_loaded_size = 0;
})

-- A missing project reads as a nil map.
abbrev pub channels_of : Option (Dict WorkspaceBinding) → Dict WorkspaceBinding
channels_of none = []
channels_of (some channels) = channels

unfoldable pub first_of : Dict WorkspaceBinding → List String → Option WorkspaceBinding
first_of channels [] = none
first_of channels (candidate ∷ candidates) =
    let rest = first_of channels candidates in
    elim (lookup candidate channels) [ none ↦ rest | some b ↦ some b ]

unfoldable pub lookup_locked : String → String → Bindings → Option WorkspaceBinding
lookup_locked project_key channel_key bindings =
    first_of (channels_of (lookup project_key bindings))
      (workspace_channel_key_candidates channel_key)

unfoldable pub put : String → String → WorkspaceBinding → Bindings → Bindings
put project_key channel_key b bindings =
    insert project_key (insert channel_key b (channels_of (lookup project_key bindings))) bindings

unfoldable pub delete_all : List String → Dict WorkspaceBinding → Dict WorkspaceBinding
delete_all [] channels = channels
delete_all (candidate ∷ candidates) channels = delete_all candidates (delete candidate channels)

abbrev put_or_drop : String → Dict WorkspaceBinding → Bindings → Bindings
put_or_drop project_key [] bindings = delete project_key bindings
put_or_drop project_key (c ∷ cs) bindings = insert project_key (c ∷ cs) bindings

unfoldable pub remove : String → String → Bindings → Bindings
remove project_key channel_key bindings = elim (lookup project_key bindings) [
  | none ↦ bindings
  | some channels ↦
      put_or_drop project_key (delete_all (workspace_channel_key_candidates channel_key) channels)
        bindings
]

abbrev pub binding : String → String → ℕ → WorkspaceBinding
binding channel_name workspace now = record {
  channel_name = channel_name;
  workspace = workspace;
  bound_at = now;
}

unfoldable pub bind :
    String
    → String
    → String
    → String
    → ℕ
    → Written
    → WorkspaceBindingManager × File
    → WorkspaceBindingManager × File
bind project_key channel_key channel_name workspace now w (m, file) =
    let m' = refresh_locked file m in
    save_locked w (
      record m' {
        bindings = put project_key channel_key (binding channel_name workspace now) m'.bindings;
      },
      file,
    )

unfoldable pub unbind :
    String → String → Written → WorkspaceBindingManager × File → WorkspaceBindingManager × File
unbind project_key channel_key w (m, file) =
    let m' = refresh_locked file m in
    save_locked w (record m' { bindings = remove project_key channel_key m'.bindings }, file)

unfoldable pub find :
    String
    → String
    → File
    → WorkspaceBindingManager
    → WorkspaceBindingManager × Option WorkspaceBinding
find project_key channel_key file m =
    let m' = refresh_locked file m in (m', lookup_locked project_key channel_key m'.bindings)

abbrev pub shared_workspace_bindings_key : String
shared_workspace_bindings_key = "shared"

-- The binding and the key of its project: the project first, then the shared layer.
unfoldable pub effective : String → String → Bindings → Option WorkspaceBinding × String
effective project_key channel_key bindings = elim (lookup_locked project_key channel_key bindings) [
  | some b ↦ (some b, project_key)
  | none ↦ elim (lookup_locked shared_workspace_bindings_key channel_key bindings) [
    | some b ↦ (some b, shared_workspace_bindings_key)
    | none ↦ (none, "")
  ]
]

unfoldable pub lookup_effective :
    String
    → String
    → File
    → WorkspaceBindingManager
    → WorkspaceBindingManager × (Option WorkspaceBinding × String)
lookup_effective project_key channel_key file m =
    let m' = refresh_locked file m in (m', effective project_key channel_key m'.bindings)

unfoldable pub list_by_project :
    String → File → WorkspaceBindingManager → WorkspaceBindingManager × Dict WorkspaceBinding
list_by_project project_key file m =
    let m' = refresh_locked file m in (m', channels_of (lookup project_key m'.bindings))
