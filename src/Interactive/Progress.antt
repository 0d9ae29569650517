-- ===== src/Interactive/Progress.antt =====
-- How the messages that wait are served (core/engine.go).
use agent_in_chat_feishu.Shared.{ℕ, ◌≡◌, List, [], ◌++◌}
use agent_in_chat_feishu.Interactive.{QueuedMessage, InteractiveState}
use agent_in_chat_feishu.Interactive.System.{HolderPc, System, queue_of, Step}

-- Steps one after the other.
pub data Run : System → System → Type 0 where
  done : {s : System} → Run s s
  then : {s t u : System} → Step s t → Run t u → Run s u

-- A run that leaves the lock free and the queue empty, with its messages handed to the agent in
-- their order.
abbrev pub Drains : System → ℕ → List QueuedMessage → Type 0
Drains s o ms =
    (t : System) × Run s t
    × (t.holder ≡ HolderPc.free)
    × (queue_of t o ≡ [])
    × (t.delivered ≡ s.delivered ++ ms)

abbrev after_pop : QueuedMessage → List QueuedMessage → InteractiveState → InteractiveState
after_pop m ms x = record x {
  pending_messages = ms;
  platform = m.platform;
  reply_ctx = m.reply_ctx;
  from_voice = m.from_voice;
}
