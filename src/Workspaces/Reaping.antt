-- ===== src/Workspaces/Reaping.antt =====
-- Which workspaces `ReapIdle` removes (core/workspace_state.go).
use agent_in_chat_feishu.Shared.{
  ℕ, ◌≡◌, refl, ◌∙◌, Bool, false, not, [], ◌∷◌, String, eq_iff, arith, Option, none, some,
  if◌then◌else◌, contains,
}
use agent_in_chat_feishu.Shared.Dict.{Dict, lookup, lookup-retain, IsMap, keep_if}
use agent_in_chat_feishu.Workspaces.{
  WorkspacePool, is_idle, idle_paths, reap_idle, begin_turn, on_state,
}

-- Whether a path has an idle state.
abbrev pub idle_at : ℕ → WorkspacePool → Option ℕ → Bool
idle_at now p none = false
idle_at now p (some r) = is_idle now p r

contains-idle_paths :
    (now : ℕ) (p : WorkspacePool) (path : String) (states : Dict ℕ)
    → IsMap states
    → contains (idle_paths now p states) path ≡ idle_at now p (lookup path states)
unfolding contains idle_paths lookup
contains-idle_paths now p path [] h = refl
contains-idle_paths now p path ((key, r) ∷ states) h =
    ground (arith, eq_iff key path, contains-idle_paths now p path states h.1)

-- `ReapIdle` returns exactly the paths whose state has no active turn and was last used before the
-- timeout, and removes exactly these from the pool; the other paths keep their state.
pub reap_idle-exact :
    (now : ℕ) (path : String) (p : WorkspacePool)
    → IsMap p.states
    → (contains (reap_idle now p).1 path ≡ idle_at now p (lookup path p.states))
      × (lookup path (reap_idle now p).0.states
          ≡ (if idle_at now p (lookup path p.states) then none else lookup path p.states))
unfolding reap_idle
reap_idle-exact now path p h = (
  contains-idle_paths now p path p.states h,
  lookup-retain (λ k r. not (is_idle now p r)) path p.states h ∙ kept (lookup path p.states),
)
  where
    kept :
        (o : Option ℕ)
        → keep_if (λ r. not (is_idle now p r)) o ≡ (if idle_at now p o then none else o)
    kept none = refl
    kept (some r) = ground arith

-- A workspace with a turn that began and did not end is not removed, however long the turn lasts.
pub reap_idle-begin_turn :
    (start now r : ℕ) (path : String) (p : WorkspacePool)
    → IsMap p.states
    → lookup path p.states ≡ some r
    → lookup path (reap_idle now (on_state r (begin_turn start) p)).0.states ≡ some r
unfolding on_state begin_turn
reap_idle-begin_turn start now r path p h e =
    let q : WorkspacePool = on_state r (begin_turn start) p in
    let exact = (reap_idle-exact now path q h).1 in ground (arith, e)
