-- ===== src/ProjectState/Laws.antt =====
-- The overrides of core/projectstate.go, and their way through the file.
use agent_in_chat_feishu.Shared.{
  ◌≡◌, ◌≢◌, refl, ◌∙◌, true, List, [], ◌∷◌, String, ◌==◌, eq_iff, arith, Option, none, some,
  if◌then◌else◌,
}
use agent_in_chat_feishu.Shared.Dict.{
  Dict, lookup, insert, delete, lookup-insert, lookup-delete, lookup_nil,
}
use agent_in_chat_feishu.ProjectState.{
  ProjectStateStore, load, new_project_state_store, override_of, set_override, clear_override,
  nil_if_empty, omit_empty, save, set_work_dir_override, set_workspace_dir_override,
  clear_workspace_dir_override, set_channel_dir_override, clear_channel_dir_override, File,
  or_blank, workspace_dir_override,
}

override-set_override :
    (key other dir : String) (m : Option (Dict String))
    → override_of other (set_override key dir m)
      ≡ (if key == other then dir else override_of other m)
unfolding override_of set_override
override-set_override key other dir none =
    ground (arith, lookup-insert key other dir [], lookup_nil {V = String} other)
override-set_override key other dir (some m) = ground (arith, lookup-insert key other dir m)

override-nil_if_empty :
    (key : String) (m : Dict String) → override_of key (nil_if_empty m) ≡ or_blank (lookup key m)
unfolding override_of
override-nil_if_empty key [] = ground (arith, lookup_nil {V = String} key)
override-nil_if_empty key (e ∷ es) = refl

override-clear_override :
    (key other : String) (m : Option (Dict String))
    → override_of other (clear_override key m) ≡ (if key == other then "" else override_of other m)
unfolding override_of clear_override
override-clear_override key other none = ground arith
override-clear_override key other (some m) =
    ground (arith, override-nil_if_empty other (delete key m), lookup-delete key other m)

-- The calls that change overrides.
pub data Call : Type 0 where
  sets_work_dir : String → Call
  sets_workspace_dir : String → String → Call
  clears_workspace_dir : String → Call
  sets_channel_dir : String → String → Call
  clears_channel_dir : String → Call

unfoldable pub apply : Call → ProjectStateStore → ProjectStateStore
apply (sets_work_dir dir) = set_work_dir_override dir
apply (sets_workspace_dir workspace dir) = set_workspace_dir_override workspace dir
apply (clears_workspace_dir workspace) = clear_workspace_dir_override workspace
apply (sets_channel_dir channel dir) = set_channel_dir_override channel dir
apply (clears_channel_dir channel) = clear_channel_dir_override channel

unfoldable pub run : List Call → ProjectStateStore → ProjectStateStore
run [] ps = ps
run (c ∷ cs) ps = run cs (apply c ps)

-- A map is nil or has an entry.
abbrev IsSettled : Option (Dict String) → Type 0
IsSettled m = omit_empty m ≡ m

set_override-IsSettled :
    (key dir : String) (m : Option (Dict String)) → IsSettled (set_override key dir m)
unfolding set_override insert
set_override-IsSettled key dir none = refl
set_override-IsSettled key dir (some []) = refl
set_override-IsSettled key dir (some ((k, d) ∷ es)) = ground (arith)

clear_override-IsSettled :
    (key : String) (m : Option (Dict String)) → IsSettled (clear_override key m)
unfolding clear_override
clear_override-IsSettled key none = refl
clear_override-IsSettled key (some m) = settled (delete key m)
  where
    settled : (d : Dict String) → omit_empty (nil_if_empty d) ≡ nil_if_empty d
    settled [] = refl
    settled (e ∷ es) = refl

pub record Settled (ps : ProjectStateStore) : Type 0 where
  workspaces : IsSettled ps.state.workspace_dir_overrides
  channels : IsSettled ps.state.channel_dir_overrides

apply-Settled : (c : Call) (ps : ProjectStateStore) → Settled ps → Settled (apply c ps)
unfolding apply set_work_dir_override set_workspace_dir_override clear_workspace_dir_override
    set_channel_dir_override clear_channel_dir_override
apply-Settled (sets_work_dir dir) ps h = record { workspaces = h.workspaces; channels = h.channels }
apply-Settled (sets_workspace_dir workspace dir) ps h = record {
  workspaces = set_override-IsSettled workspace dir _;
  channels = h.channels;
}
apply-Settled (clears_workspace_dir workspace) ps h = record {
  workspaces = clear_override-IsSettled workspace _;
  channels = h.channels;
}
apply-Settled (sets_channel_dir channel dir) ps h = record {
  workspaces = h.workspaces;
  channels = set_override-IsSettled channel dir _;
}
apply-Settled (clears_channel_dir channel) ps h = record {
  workspaces = h.workspaces;
  channels = clear_override-IsSettled channel _;
}

store_path-apply : (c : Call) (ps : ProjectStateStore) → (apply c ps).store_path ≡ ps.store_path
unfolding apply set_work_dir_override set_workspace_dir_override clear_workspace_dir_override
    set_channel_dir_override clear_channel_dir_override
store_path-apply (sets_work_dir dir) ps = refl
store_path-apply (sets_workspace_dir workspace dir) ps = refl
store_path-apply (clears_workspace_dir workspace) ps = refl
store_path-apply (sets_channel_dir channel dir) ps = refl
store_path-apply (clears_channel_dir channel) ps = refl

-- A saved store whose maps are nil or have an entry is loaded again as it was.
load-save :
    (path : String) (ps : ProjectStateStore) (file : File)
    → ps.store_path ≡ path
    → path ≢ ""
    → Settled ps
    → new_project_state_store path (save true ps file) ≡ ps
unfolding new_project_state_store save load
load-save path ps file e given h = ground (arith, eq_iff path "", h.workspaces, h.channels)

run-load-save :
    (cs : List Call) (path : String) (ps : ProjectStateStore) (file : File)
    → ps.store_path ≡ path
    → path ≢ ""
    → Settled ps
    → new_project_state_store path (save true (run cs ps) file) ≡ run cs ps
unfolding run
run-load-save [] path ps file e given h = load-save path ps file e given h
run-load-save (c ∷ cs) path ps file e given h =
    run-load-save cs path (apply c ps) file (store_path-apply c ps ∙ e) given (apply-Settled c ps h)

new-store_path : (path : String) → (new_project_state_store path none).store_path ≡ path
unfolding new_project_state_store load
new-store_path path = ground arith

new-Settled : (path : String) → Settled (new_project_state_store path none)
unfolding new_project_state_store load
new-Settled path = record { workspaces = ground arith; channels = ground arith }

-- After any calls on a new store with a path, a save that succeeds and a restart, the store is the
-- same, although an empty map is left out of the file.
pub new_project_state_store-save :
    (cs : List Call) (path : String) (file : File)
    → path ≢ ""
    → new_project_state_store path (save true (run cs (new_project_state_store path none)) file)
      ≡ run cs (new_project_state_store path none)
new_project_state_store-save cs path file h =
    run-load-save cs path _ file (new-store_path path) h (new-Settled path)

-- What a call makes of the override of a workspace.
abbrev pub after_call : Call → String → String → String
after_call (sets_workspace_dir key dir) workspace old = if key == workspace then dir else old
after_call (clears_workspace_dir key) workspace old = if key == workspace then "" else old
after_call other workspace old = old

-- The override of a workspace is what the last call for this workspace set, or empty where that
-- call cleared it: no call for another workspace, for a channel or for the project changes it.
pub workspace_dir_override-apply :
    (c : Call) (workspace : String) (ps : ProjectStateStore)
    → workspace_dir_override workspace (apply c ps)
      ≡ after_call c workspace (workspace_dir_override workspace ps)
unfolding apply workspace_dir_override set_work_dir_override set_workspace_dir_override
    clear_workspace_dir_override set_channel_dir_override clear_channel_dir_override
workspace_dir_override-apply (sets_work_dir dir) workspace ps = refl
workspace_dir_override-apply (sets_workspace_dir key dir) workspace ps =
    override-set_override key workspace dir ps.state.workspace_dir_overrides
workspace_dir_override-apply (clears_workspace_dir key) workspace ps =
    override-clear_override key workspace ps.state.workspace_dir_overrides
workspace_dir_override-apply (sets_channel_dir channel dir) workspace ps = refl
workspace_dir_override-apply (clears_channel_dir channel) workspace ps = refl
