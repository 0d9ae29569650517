-- ===== src/Workspaces.antt =====
-- core/workspace_state.go: the workspaces in use, and the removal of idle ones. A pointer to a
-- state is a number; `heap` is what the pointers show. `normalize` is `normalizeWorkspacePath`,
-- which asks the file system.
pub mod Pool
pub mod Reaping
use agent_in_chat_feishu.Shared.{
  ℕ, zero, suc, ◌+◌, ◌-◌, Bool, true, false, not, ◌&&◌, ◌||◌, List, [], ◌∷◌, String, ◌==◌, Option,
  none, some, if◌then◌else◌, ltb, eqb,
}
use agent_in_chat_feishu.Shared.Dict.{Dict, lookup, insert, retain}

pub record WorkspaceState : Type 0 where
  pub workspace : String
  pub last_activity : ℕ
  pub active_turns : ℕ

abbrev pub new_workspace_state : String → ℕ → WorkspaceState
new_workspace_state workspace now = record {
  workspace = workspace;
  last_activity = now;
  active_turns = 0;
}

unfoldable pub touch : ℕ → WorkspaceState → WorkspaceState
touch now ws = record ws { last_activity = now }

unfoldable pub begin_turn : ℕ → WorkspaceState → WorkspaceState
begin_turn now ws = record ws { active_turns = ws.active_turns + 1; last_activity = now }

unfoldable pub end_turn : ℕ → WorkspaceState → WorkspaceState
end_turn now ws = record ws {
  active_turns = if ltb 0 ws.active_turns then ws.active_turns - 1 else ws.active_turns;
  last_activity = now;
}

abbrev pub has_active_turn : WorkspaceState → Bool
has_active_turn ws = ltb 0 ws.active_turns

pub record WorkspacePool : Type 0 where
  pub states : Dict ℕ
  pub idle_timeout : ℕ
  pub heap : ℕ → WorkspaceState
  pub next : ℕ  -- the next pointer

unfoldable pub on_state : ℕ → (WorkspaceState → WorkspaceState) → WorkspacePool → WorkspacePool
on_state r f p = record p { heap = λ q. if eqb q r then f (p.heap q) else p.heap q }

unfoldable pub allocate : String → ℕ → WorkspacePool → WorkspacePool × ℕ
allocate workspace now p = (
  record p {
    states = insert workspace p.next p.states;
    heap = λ q. if eqb q p.next then new_workspace_state workspace now else p.heap q;
    next = suc p.next;
  },
  p.next,
)

module _ (normalize : String → String) where
  unfoldable pub get : String → WorkspacePool → Option ℕ
  get workspace p =
      let normalized = normalize workspace in
      elim (lookup workspace p.states) [
        | some r ↦ some r
        | none ↦ if normalized == workspace then none else lookup normalized p.states
      ]

  -- The second section under the lock, after `normalize` was asked outside of it.
  unfoldable pub create_section : String → ℕ → WorkspacePool → WorkspacePool × ℕ
  create_section workspace now p =
      let normalized = normalize workspace in
      elim (lookup workspace p.states) [
        | some r ↦ (p, r)
        | none ↦
            if normalized == workspace
            then allocate workspace now p
            else elim (lookup normalized p.states) [
              | some r ↦ (p, r)
              | none ↦ allocate normalized now p
            ]
      ]

  unfoldable pub get_or_create : String → ℕ → WorkspacePool → WorkspacePool × ℕ
  get_or_create workspace now p = elim (lookup workspace p.states) [
    | some r ↦ (p, r)
    | none ↦ create_section workspace now p
  ]

-- `LastActivity().Before(now - idleTimeout)` without an active turn.
abbrev pub is_idle : ℕ → WorkspacePool → ℕ → Bool
is_idle now p r =
    not (has_active_turn (p.heap r)) && ltb ((p.heap r).last_activity + p.idle_timeout) now

unfoldable pub idle_paths : ℕ → WorkspacePool → Dict ℕ → List String
idle_paths now p [] = []
idle_paths now p ((path, r) ∷ states) =
    let rest = idle_paths now p states in if is_idle now p r then path ∷ rest else rest

unfoldable pub reap_idle : ℕ → WorkspacePool → WorkspacePool × List String
reap_idle now p = (
  record p { states = retain (λ path r. not (is_idle now p r)) p.states },
  idle_paths now p p.states,
)
