-- ===== src/Tests/Stores.antt =====
-- Bindings, overrides and workspaces on concrete inputs.
use agent_in_chat_feishu.Shared.{
  ℕ, ◌≡◌, refl, true, List, [], ◌∷◌, String, ◌==◌, eq_iff, arith, none, if◌then◌else◌,
}
use agent_in_chat_feishu.Shared.Dict.{lookup_nil, IsMap, lookup, insert}
use agent_in_chat_feishu.WorkspaceBindings
use agent_in_chat_feishu.SessionKey
use agent_in_chat_feishu.WorkspaceBindings.{WorkspaceBinding, binding}
use agent_in_chat_feishu.WorkspaceBindings.Worlds.{
  Event, binds, unbinds, looks_up, run, spec_run, started, one_by_one, reload, act, Phase, reloads,
  acts,
}
use agent_in_chat_feishu.WorkspaceBindings.Processes.{run-spec_run}
use agent_in_chat_feishu.ProjectState.{new_project_state_store, save}
use agent_in_chat_feishu.ProjectState.Laws
use agent_in_chat_feishu.ProjectState.Laws.{
  Call, sets_work_dir, sets_workspace_dir, clears_workspace_dir, sets_channel_dir,
  new_project_state_store-save, workspace_dir_override-apply,
}
use agent_in_chat_feishu.Workspaces.{WorkspacePool, new_workspace_state, create_section}
use agent_in_chat_feishu.Workspaces.Pool.{NormalKeys, create_section_twice}

-- Process 1 binds a channel, process 2 finds it and unbinds it, and process 1 sees that.
abbrev day : List (ℕ × ℕ × Event)
day =
    (1, 10, binds "project:app" "feishu:oc_1" "Team" "/srv/app" 10 200)
    ∷ (2, 20, looks_up "project:app" "feishu:oc_1")
    ∷ (2, 30, unbinds "project:app" "feishu:oc_1" 2)
    ∷ (1, 40, looks_up "project:app" "feishu:oc_1")
    ∷ []

run-spec_run_example : run (one_by_one day) (started "/data/bindings.json") ≡ spec_run day []
run-spec_run_example =
    run-spec_run "/data/bindings.json" day (ground (arith, eq_iff "/data/bindings.json" ""))
      (omega arith)

-- Two processes reload before either writes: the first binding is lost.
abbrev overlapping : List (ℕ × Phase)
overlapping =
    (1, reloads)
    ∷ (2, reloads)
    ∷ (1, acts 10 (binds "project:app" "feishu:oc_1" "Team" "/srv/app" 10 200))
    ∷ (2, acts 20 (binds "project:app" "feishu:oc_2" "Ops" "/srv/ops" 20 200))
    ∷ (1, reloads)
    ∷ (1, acts 30 (looks_up "project:app" "feishu:oc_1"))
    ∷ []

lost_binding : run overlapping (started "/data/bindings.json") ≡ [] ∷ [] ∷ ((none, "") ∷ []) ∷ []
unfolding run reload act WorkspaceBindings.refresh_locked WorkspaceBindings.save_locked
    WorkspaceBindings.put WorkspaceBindings.effective WorkspaceBindings.lookup_locked
    WorkspaceBindings.first_of lookup insert SessionKey.workspace_channel_key_candidates
    SessionKey.legacy_workspace_channel_key SessionKey.split_n SessionKey.cut_colon
lost_binding = refl

abbrev team : WorkspaceBinding
team = binding "Team" "/srv/app" 10

abbrev settings : List Call
settings =
    sets_work_dir "/srv"
    ∷ sets_workspace_dir "/srv/app" "/srv/app/web"
    ∷ clears_workspace_dir "/srv/app"
    ∷ sets_channel_dir "oc_1" "/tmp"
    ∷ []

new_project_state_store-save_example :
    new_project_state_store "/data/p.json"
      (save true (Laws.run settings (new_project_state_store "/data/p.json" none)) none)
    ≡ Laws.run settings (new_project_state_store "/data/p.json" none)
new_project_state_store-save_example =
    new_project_state_store-save settings "/data/p.json" none
      (ground (arith, eq_iff "/data/p.json" ""))

-- A link to one directory.
abbrev resolve : String → String
resolve path = if path == "/home/app" then "/srv/app" else path

resolve_twice : (path : String) → resolve (resolve path) ≡ resolve path
resolve_twice path = ground (arith, eq_iff path "/home/app", eq_iff "/srv/app" "/home/app")

abbrev empty_pool : WorkspacePool
empty_pool = record {
  states = [];
  idle_timeout = 100;
  heap = λ r. new_workspace_state "" 0;
  next = 1;
}

empty-NormalKeys : NormalKeys resolve resolve_twice empty_pool
empty-NormalKeys path h = lookup_nil {V = ℕ} path

one_app : resolve "/home/app" ≡ resolve "/srv/app"
one_app = refl

create_section_twice_example :
    create_section resolve "/srv/app" 7 (create_section resolve "/home/app" 5 empty_pool).0
    ≡ create_section resolve "/home/app" 5 empty_pool
create_section_twice_example =
    create_section_twice resolve resolve_twice "/home/app" "/srv/app" 5 7 empty_pool
      empty-NormalKeys one_app

abbrev app_pool : WorkspacePool
app_pool = record {
  states = ("/srv/app", 1) ∷ [];
  idle_timeout = 100;
  heap = λ r. new_workspace_state "/srv/app" 5;
  next = 2;
}

app_pool-IsMap : IsMap app_pool.states
app_pool-IsMap = (lookup_nil {V = ℕ} "/srv/app", tt)
