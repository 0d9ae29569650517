-- ===== src/Interactive.antt =====
-- The state of one conversation's agent and its queue of messages (core/engine.go):
-- `interactiveState`, `queuedMessage`, and the sections of code that hold the state's mutex.
pub mod System
pub mod Orphans
pub mod Bounds
pub mod Known
pub mod Conserved
pub mod Progress
use agent_in_chat_feishu.Shared.{
  ℕ, suc, zero, Bool, true, false, String, Option, none, some, List, [], ◌∷◌, ◌++◌, leb,
  if◌then◌else◌, length,
}

-- `images` and `files` stand for the attachments by their names; the callback is left out.
pub record QueuedMessage : Type 0 where
  pub platform : String
  pub reply_ctx : String
  pub content : String
  pub images : List String
  pub files : List String
  pub from_voice : Bool
  pub user_id : String
  pub user_name : String
  pub msg_platform : String
  pub msg_session_key : String

-- The field `agentSession`: nil, or a process that lives or not.
pub data AgentSession : Type 0 where
  absent alive dead : AgentSession

pub record InteractiveState : Type 0 where
  pub agent_session : AgentSession
  pub platform : String
  pub reply_ctx : String
  pub from_voice : Bool
  pub pending_messages : List QueuedMessage

abbrev pub max_queued_messages : ℕ
max_queued_messages = 5

-- The placeholder of `ensureInteractiveStateForQueueing`, and a new state without its queue.
unfoldable pub new_state : AgentSession → String → String → InteractiveState
new_state agent platform reply_ctx = record {
  agent_session = agent;
  platform = platform;
  reply_ctx = reply_ctx;
  from_voice = false;
  pending_messages = [];
}

-- Whether the queue is open: the agent starts up or lives.
abbrev pub is_alive : AgentSession → Bool
is_alive AgentSession.alive = true
is_alive _ = false

abbrev pub takes_messages : AgentSession → Bool
takes_messages AgentSession.dead = false
takes_messages _ = true

-- The section of `queueMessageForBusySession` that appends.
unfoldable pub queue_message : QueuedMessage → InteractiveState → Option InteractiveState
queue_message m s =
    if leb max_queued_messages (length s.pending_messages)
    then none
    else some (record s { pending_messages = s.pending_messages ++ m ∷ [] })

-- Take the first message and answer to its sender from now on.
unfoldable pub pop_queued : InteractiveState → Option (QueuedMessage × InteractiveState)
pop_queued s = elim s.pending_messages [
  | [] ↦ none
  | queued ∷ rest ↦ some (
    queued,
    record s {
      pending_messages = rest;
      platform = queued.platform;
      reply_ctx = queued.reply_ctx;
      from_voice = queued.from_voice;
    },
  )
]

-- Drop the queue; the senders of the messages it had are told.
unfoldable pub drop_queue : InteractiveState → InteractiveState
drop_queue s = record s { pending_messages = [] }

-- `adoptPendingFromPlaceholder`: the queue that the new state has, and what is left to the old.
unfoldable pub adopt_pending : InteractiveState → InteractiveState → InteractiveState
adopt_pending existing new = elim existing.pending_messages [
  | [] ↦ new
  | m ∷ ms ↦ record new { pending_messages = m ∷ ms }
]

abbrev pub with_agent : AgentSession → InteractiveState → InteractiveState
with_agent agent s = record s { agent_session = agent }
