-- ===== src/Tests/Queues.antt =====
-- Runs of the goroutines around one conversation, and what they leave.
use agent_in_chat_feishu.Shared.{ℕ, ◌≤◌, ◌≡◌, refl, true, false, ◌==◌, some, [], ◌∷◌, arith}
use agent_in_chat_feishu.Interactive.{
  QueuedMessage, AgentSession, new_state, queue_message, pop_queued, drop_queue, adopt_pending,
  is_alive,
}
use agent_in_chat_feishu.Interactive.System.{
  update, HandlerPc, HolderPc, System, queue_of, HandlerStep, HolderStep, Reach, handler,
  CompressStep, compresses, holder_moves, initial, later,
}
use agent_in_chat_feishu.Interactive.Orphans.{Served, Reach-Served}
use agent_in_chat_feishu.Interactive.Bounds.{Reach-AllShort}
use agent_in_chat_feishu.Interactive.Conserved.{Conserved, Reach-Conserved}

abbrev hello : QueuedMessage
hello = record {
  platform = "feishu";
  reply_ctx = "r1";
  content = "hello";
  images = [];
  files = [];
  from_voice = false;
  user_id = "u1";
  user_name = "Ann";
  msg_platform = "feishu";
  msg_session_key = "feishu:c1:u1";
}

record Reached : Type 0 where
  last : System
  reach : Reach last

-- The first message takes the lock, its state is made, and the process starts.
abbrev starting : Reached
unfolding new_state
starting = record {
  last = _;
  reach =
      later (later initial (handler 0 (HandlerStep.start refl refl)))
        (holder_moves (HolderStep.ensure "feishu" "r0" refl refl));
}

-- A second message finds the session busy and reads the placeholder.
abbrev second_found : Reached
unfolding new_state update
second_found = record {
  last = _;
  reach =
      later (later starting.reach (handler 1 (HandlerStep.refuse hello refl refl)))
        (handler 1 (HandlerStep.find hello 0 refl refl refl));
}

-- It is appended before the process has started, and waits in the entry with the living agent.
abbrev second_waits : Reached
unfolding new_state update queue_message drop_queue adopt_pending
second_waits = record {
  last = _;
  reach =
      later (later second_found.reach (handler 1 (HandlerStep.append hello 0 _ refl refl))) (
        holder_moves (HolderStep.spawn_adopting AgentSession.alive 0 "feishu" "r0" refl refl refl));
}

-- The turn ends with an empty queue, and `/compress` takes the lock.
abbrev compressing : Reached
unfolding new_state update pop_queued drop_queue adopt_pending
compressing = record {
  last = _;
  reach =
      later
        (later
          (later starting.reach (
            holder_moves
              (HolderStep.spawn_adopting AgentSession.alive 0 "feishu" "r0" refl refl refl)))
          (holder_moves (HolderStep.unlock 1 refl refl)))
        (compresses (CompressStep.locks 1 refl (omega arith)));
}

Reach-Served_example : Served second_waits.last.holder second_waits.last.handlers
unfolding new_state update queue_message drop_queue adopt_pending
Reach-Served_example = Reach-Served 1 second_waits.reach refl refl (refl, omega arith)

Reach-AllShort_example : 1 ≤ 5
unfolding new_state update queue_message drop_queue adopt_pending
Reach-AllShort_example = Reach-AllShort second_waits.reach 1

Reach-Conserved_example : Conserved (λ m. m.content == "hello") second_waits.last
Reach-Conserved_example = Reach-Conserved (λ m. m.content == "hello") second_waits.reach

-- The process does not start: the message waits in an entry without an agent, the lock is free and
-- no handler is left.
left_after_failed_start :
    (s : System) × Reach s
    × (s.holder ≡ HolderPc.free)
    × ((i : ℕ) → s.handlers i ≡ HandlerPc.idle)
    × (s.current ≡ some 1)
    × (queue_of s 1 ≡ hello ∷ [])
    × (s.notified ≡ [])
unfolding new_state update queue_message drop_queue adopt_pending
left_after_failed_start = (
  _,
  later
      (later
        (later (later second_found.reach (handler 1 (HandlerStep.append hello 0 _ refl refl)))
          (handler 1 (HandlerStep.retry_fails refl refl)))
        (holder_moves
          (HolderStep.spawn_adopting AgentSession.absent 0 "feishu" "r0" refl refl refl)))
      (holder_moves (HolderStep.unlock_deferred refl)),
  refl,
  (λ i. ground arith),
  refl,
  refl,
  refl,
)

-- The process starts between the read of the placeholder and the append: the message waits in the
-- placeholder, which is no entry any more, the lock is free and no handler is left.
left_in_placeholder :
    (s : System) × Reach s
    × (s.holder ≡ HolderPc.free)
    × ((i : ℕ) → s.handlers i ≡ HandlerPc.idle)
    × (s.current ≡ some 1)
    × (queue_of s 0 ≡ hello ∷ [])
    × (s.notified ≡ [])
unfolding new_state update queue_message pop_queued drop_queue adopt_pending
left_in_placeholder = (
  _,
  later
      (later
        (later
          (later second_found.reach (
            holder_moves
              (HolderStep.spawn_adopting AgentSession.alive 0 "feishu" "r0" refl refl refl)))
          (handler 1 (HandlerStep.append hello 0 _ refl refl)))
        (handler 1 (HandlerStep.retry_fails refl refl)))
      (holder_moves (HolderStep.unlock 1 refl refl)),
  refl,
  (λ i. ground arith),
  refl,
  refl,
  refl,
)

-- `/compress` takes the lock after the turn, a second message finds the session busy and is queued,
-- and `Send` fails: the message waits in an entry whose agent lives, the lock is free and no handler
-- is left.
left_after_compress :
    (s : System) × Reach s
    × (s.holder ≡ HolderPc.free)
    × ((i : ℕ) → s.handlers i ≡ HandlerPc.idle)
    × (s.current ≡ some 1)
    × (is_alive (s.states 1).agent_session ≡ true)
    × (queue_of s 1 ≡ hello ∷ [])
    × (s.notified ≡ [])
unfolding new_state update queue_message pop_queued drop_queue adopt_pending
left_after_compress = (
  _,
  later
      (later
        (later
          (later
            (later (later compressing.reach (handler 1 (HandlerStep.refuse hello refl refl)))
              (handler 1 (HandlerStep.find hello 1 refl refl refl)))
            (handler 1 (HandlerStep.append hello 1 _ refl refl)))
          (handler 1 (HandlerStep.retry_fails refl refl)))
        (compresses (CompressStep.returns 1 refl)))
      (holder_moves (HolderStep.unlock_deferred refl)),
  refl,
  (λ i. ground arith),
  refl,
  refl,
  refl,
  refl,
)
