-- ===== src/WorkspaceBindings/Worlds.antt =====
-- Processes that share one file of bindings (core/workspace_binding.go), and one map for all of them.
use agent_in_chat_feishu.Shared.{ℕ, ◌<◌, true, List, [], ◌∷◌, String, Option, if◌then◌else◌, eqb}
use agent_in_chat_feishu.WorkspaceBindings.{
  WorkspaceBinding, Bindings, File, missing, WorkspaceBindingManager, written, put, remove, binding,
  effective, refresh_locked, save_locked,
}

-- What a process does. A change says when and how large the file is that it writes.
pub data Event : Type 0 where
  binds : String → String → String → String → ℕ → ℕ → Event
  unbinds : String → String → ℕ → Event
  looks_up : String → String → Event

pub record World : Type 0 where
  pub processes : ℕ → WorkspaceBindingManager
  pub file : File

abbrev pub set_process : ℕ → WorkspaceBindingManager × File → World → World
set_process i (m, file) w = record {
  processes = λ j. if eqb i j then m else w.processes j;
  file = file;
}

-- A method runs in two phases, between which other processes may run: the mutex is the process's
-- own, and the file has no lock. The first reads the file again if it has changed.
unfoldable pub reload : ℕ → World → World
reload i w = set_process i (refresh_locked w.file (w.processes i), w.file) w

-- The second phase of process `i` at time `t`: the change and the write, or the lookup.
unfoldable pub act : ℕ → ℕ → Event → World → World × List (Option WorkspaceBinding × String)
act i t (binds project_key channel_key channel_name workspace now size) w =
    let m = w.processes i in
    (
      set_process i
          (save_locked (written t size true) (
            record m {
              bindings =
                  put project_key channel_key (binding channel_name workspace now) m.bindings;
            },
            w.file,
          ))
          w,
      [],
    )
act i t (unbinds project_key channel_key size) w =
    let m = w.processes i in
    (
      set_process i
          (save_locked (written t size true)
            (record m { bindings = remove project_key channel_key m.bindings }, w.file))
          w,
      [],
    )
act i t (looks_up project_key channel_key) w =
    (w, effective project_key channel_key (w.processes i).bindings ∷ [])

pub data Phase : Type 0 where
  reloads : Phase
  acts : ℕ → Event → Phase

-- The same on one map, for all processes.
unfoldable pub spec_step : Event → Bindings → Bindings × List (Option WorkspaceBinding × String)
spec_step (binds project_key channel_key channel_name workspace now size) b =
    (put project_key channel_key (binding channel_name workspace now) b, [])
spec_step (unbinds project_key channel_key size) b = (remove project_key channel_key b, [])
spec_step (looks_up project_key channel_key) b = (b, effective project_key channel_key b ∷ [])

-- The phases of any processes in any order, and what each second phase finds.
unfoldable pub run : List (ℕ × Phase) → World → List (List (Option WorkspaceBinding × String))
run [] w = []
run ((i, reloads) ∷ ps) w = run ps (reload i w)
run ((i, acts t e) ∷ ps) w = let (w', found) = act i t e w in found ∷ run ps w'

-- Methods that do not overlap: nobody runs between the two phases of one.
unfoldable pub one_by_one : List (ℕ × ℕ × Event) → List (ℕ × Phase)
one_by_one [] = []
one_by_one ((i, t, e) ∷ es) = (i, reloads) ∷ (i, acts t e) ∷ one_by_one es

unfoldable pub spec_run :
    List (ℕ × ℕ × Event) → Bindings → List (List (Option WorkspaceBinding × String))
spec_run [] b = []
spec_run ((i, t, e) ∷ es) b = let (b', found) = spec_step e b in found ∷ spec_run es b'

-- Each event comes later than the one before it.
abbrev pub Later : ℕ → List (ℕ × ℕ × Event) → Type 0
Later last [] = Unit {0}
Later last ((i, t, e) ∷ es) = (last < t) × Later t es

-- Managers that were made while the file was missing.
abbrev pub started : String → World
started store_path = record {
  processes = λ i. record {
    bindings = [];
    store_path = store_path;
    last_loaded_mod_time = 0;
    last_loaded_size = 0;
  };
  file = missing;
}
