-- ===== src/Interactive/System.antt =====
-- The goroutines around one conversation (core/engine.go): the handlers of messages, the holder of
-- the session's lock, and what resets the conversation, interleaved in any order. A step is what
-- runs without giving up a mutex. The engine is not shutting down, and does not compress of its own
-- accord: then `runCompress` and its caller both give the lock back, and two goroutines may work.
use agent_in_chat_feishu.Shared.{
  ℕ, suc, ◌≡◌, ◌<◌, Bool, true, false, arith, String, Option, none, some, List, [], ◌∷◌, ◌++◌, eqb,
  if◌then◌else◌, if_cases,
}
use agent_in_chat_feishu.Interactive.{
  QueuedMessage, AgentSession, InteractiveState, new_state, is_alive, takes_messages, queue_message,
  pop_queued, drop_queue, adopt_pending, with_agent,
}

-- The heap, or the program counters, after a write at one number.
unfoldable pub update {ℓ} : {S : Type ℓ} (cells : ℕ → S) (at : ℕ) (new : S) → ℕ → S
update cells at new j = if eqb at j then new else cells j

-- What holds of the new value at the number and of the old one elsewhere holds of the value read.
pub update_cases {ℓ κ} :
    {S : Type ℓ} (P : S → Type κ) (cells : ℕ → S) (at : ℕ) (new : S) (j : ℕ)
    → (at ≡ j → P new)
    → P (cells j)
    → P (update cells at new j)
unfolding update
update_cases P cells at new j here there =
    if_cases P (eqb at j) (λ e. here (ground arith)) (λ e. there)

pub update_same {ℓ} : {S : Type ℓ} (cells : ℕ → S) (at : ℕ) (new : S) → update cells at new at ≡ new
unfolding update
update_same cells at new = ground arith

pub update_other {ℓ} :
    {S : Type ℓ} (cells : ℕ → S) (at : ℕ) (new : S) (j : ℕ)
    → eqb at j ≡ false
    → update cells at new j ≡ cells j
unfolding update
update_other cells at new j e = rw e

-- `handleMessage` for a session that is busy.
pub data HandlerPc : Type 0 where
  idle : HandlerPc
  -- `TryLock` failed
  refused : QueuedMessage → HandlerPc
  -- the state was read and takes messages
  found : QueuedMessage → ℕ → HandlerPc
  -- the message was appended
  queued : HandlerPc

-- The goroutine that holds the session's lock.
pub data HolderPc : Type 0 where
  free : HolderPc
  -- `handleMessage` before and after `ensureInteractiveStateForQueueing`
  locked : HolderPc
  ensured : HolderPc
  -- `processInteractiveEvents` or `drainPendingMessages` on a state
  working : ℕ → HolderPc
  -- `drainPendingMessages` between taking a message and the test of the agent
  popped : QueuedMessage → ℕ → HolderPc
  -- `drainOrphanedQueue` before it reads the state
  orphaned : HolderPc
  -- `runCompress` of `/compress` on a state
  compressing : ℕ → HolderPc
  -- a return before the deferred `Unlock`
  ending : HolderPc

-- The objects by number, below `next`, and the entry of the conversation in `interactiveStates`.
-- The last four fields record what became of the messages, and whether `/compress` was used.
pub record System : Type 0 where
  pub states : ℕ → InteractiveState
  pub next : ℕ
  pub current : Option ℕ
  pub holder : HolderPc
  pub handlers : ℕ → HandlerPc
  pub accepted : List QueuedMessage
  pub delivered : List QueuedMessage
  pub notified : List QueuedMessage
  pub compressed : Bool

abbrev pub is_free : HolderPc → Bool
is_free HolderPc.free = true
is_free _ = false

-- Who holds the lock after `getOrCreateInteractiveStateWith`.
abbrev pub started : AgentSession → ℕ → HolderPc
started AgentSession.absent o = HolderPc.ending
started _ o = HolderPc.working o

abbrev pub init : System
init = record {
  states = λ o. new_state AgentSession.absent "" "";
  next = 0;
  current = none;
  holder = HolderPc.free;
  handlers = λ i. HandlerPc.idle;
  accepted = [];
  delivered = [];
  notified = [];
  compressed = false;
}

abbrev pub queue_of : System → ℕ → List QueuedMessage
queue_of s o = (s.states o).pending_messages

abbrev pub set_state : ℕ → InteractiveState → System → System
set_state o x s = record s { states = update s.states o x }

abbrev pub set_handler : ℕ → HandlerPc → System → System
set_handler i pc s = record s { handlers = update s.handlers i pc }

abbrev pub set_holder : HolderPc → System → System
set_holder pc s = record s { holder = pc }

abbrev pub notify : ℕ → System → System
notify o s = record s {
  states = update s.states o (drop_queue (s.states o));
  notified = s.notified ++ (s.states o).pending_messages;
}

-- A new object, which becomes the entry.
abbrev pub create : InteractiveState → System → System
create x s = record s {
  states = update s.states s.next x;
  next = suc s.next;
  current = some s.next;
}

abbrev pub replace : ℕ → InteractiveState → System → System
replace o x s = record s {
  states =
      update (update s.states o (drop_queue (s.states o))) s.next (adopt_pending (s.states o) x);
  next = suc s.next;
  current = some s.next;
}

-- The steps of the handler with a number.
pub data HandlerStep (s : System) (i : ℕ) : System → Type 0 where
  start :
      s.handlers i ≡ HandlerPc.idle
      → s.holder ≡ HolderPc.free
      → HandlerStep s i (set_holder HolderPc.locked s)
  refuse :
      (m : QueuedMessage)
      → s.handlers i ≡ HandlerPc.idle
      → is_free s.holder ≡ false
      → HandlerStep s i (set_handler i (HandlerPc.refused m) s)
  find :
      (m : QueuedMessage) (o : ℕ)
      → s.handlers i ≡ HandlerPc.refused m
      → s.current ≡ some o
      → takes_messages (s.states o).agent_session ≡ true
      → HandlerStep s i (set_handler i (HandlerPc.found m o) s)
  find_dead :
      (m : QueuedMessage) (o : ℕ)
      → s.handlers i ≡ HandlerPc.refused m
      → s.current ≡ some o
      → takes_messages (s.states o).agent_session ≡ false
      → HandlerStep s i (set_handler i HandlerPc.idle s)
  find_none :
      (m : QueuedMessage)
      → s.handlers i ≡ HandlerPc.refused m
      → s.current ≡ none
      → HandlerStep s i (set_handler i HandlerPc.idle s)
  append :
      (m : QueuedMessage) (o : ℕ) (x : InteractiveState)
      → s.handlers i ≡ HandlerPc.found m o
      → queue_message m (s.states o) ≡ some x
      → HandlerStep s i (record (set_handler i HandlerPc.queued (set_state o x s)) {
        accepted = s.accepted ++ m ∷ [];
      })
  full :
      (m : QueuedMessage) (o : ℕ)
      → s.handlers i ≡ HandlerPc.found m o
      → queue_message m (s.states o) ≡ none
      → HandlerStep s i (set_handler i HandlerPc.idle s)
  retry_fails :
      s.handlers i ≡ HandlerPc.queued
      → is_free s.holder ≡ false
      → HandlerStep s i (set_handler i HandlerPc.idle s)
  retry_locks :
      s.handlers i ≡ HandlerPc.queued
      → s.holder ≡ HolderPc.free
      → HandlerStep s i (set_holder HolderPc.orphaned (set_handler i HandlerPc.idle s))

-- The steps of the holder of the lock.
pub data HolderStep (s : System) : System → Type 0 where
  ensure :
      (platform reply_ctx : String)
      → s.holder ≡ HolderPc.locked
      → s.current ≡ none
      → HolderStep s (
          set_holder HolderPc.ensured (create (new_state AgentSession.absent platform reply_ctx) s))
  keep :
      (o : ℕ)
      → s.holder ≡ HolderPc.locked
      → s.current ≡ some o
      → HolderStep s (set_holder HolderPc.ensured s)
  reuse :
      (o : ℕ)
      → s.holder ≡ HolderPc.ensured
      → s.current ≡ some o
      → is_alive (s.states o).agent_session ≡ true
      → HolderStep s (set_holder (HolderPc.working o) s)
  -- the process belongs to another conversation: close it and remove the entry
  recycle :
      (o : ℕ)
      → s.holder ≡ HolderPc.ensured
      → s.current ≡ some o
      → is_alive (s.states o).agent_session ≡ true
      → HolderStep s
          (record (set_state o (with_agent AgentSession.dead (s.states o)) s) { current = none })
  -- `StartSession` gives a process, or an error after which the agent is absent
  spawn :
      (agent : AgentSession) (platform reply_ctx : String)
      → s.holder ≡ HolderPc.ensured
      → s.current ≡ none
      → HolderStep s
          (set_holder (started agent s.next) (create (new_state agent platform reply_ctx) s))
  spawn_adopting :
      (agent : AgentSession) (o : ℕ) (platform reply_ctx : String)
      → s.holder ≡ HolderPc.ensured
      → s.current ≡ some o
      → is_alive (s.states o).agent_session ≡ false
      → HolderStep s
          (set_holder (started agent s.next) (replace o (new_state agent platform reply_ctx) s))
  -- the event loop hands the next message to the agent after a result
  next_turn :
      (m : QueuedMessage) (o : ℕ) (x : InteractiveState)
      → s.holder ≡ HolderPc.working o
      → pop_queued (s.states o) ≡ some (m, x)
      → HolderStep s (record (set_state o x s) { delivered = s.delivered ++ m ∷ [] })
  -- the event loop fails and tells the senders
  fail : (o : ℕ) → s.holder ≡ HolderPc.working o → HolderStep s (notify o s)
  pop :
      (m : QueuedMessage) (o : ℕ) (x : InteractiveState)
      → s.holder ≡ HolderPc.working o
      → pop_queued (s.states o) ≡ some (m, x)
      → HolderStep s (set_holder (HolderPc.popped m o) (set_state o x s))
  deliver :
      (m : QueuedMessage) (o : ℕ)
      → s.holder ≡ HolderPc.popped m o
      → is_alive (s.states o).agent_session ≡ true
      → HolderStep s
          (record (set_holder (HolderPc.working o) s) { delivered = s.delivered ++ m ∷ [] })
  give_up :
      (m : QueuedMessage) (o : ℕ)
      → s.holder ≡ HolderPc.popped m o
      → is_alive (s.states o).agent_session ≡ false
      → HolderStep s
          (record (set_holder HolderPc.ending (set_state o (drop_queue (s.states o)) s)) {
            notified = s.notified ++ m ∷ (s.states o).pending_messages;
          })
  unlock :
      (o : ℕ)
      → s.holder ≡ HolderPc.working o
      → pop_queued (s.states o) ≡ none
      → HolderStep s (set_holder HolderPc.free s)
  unlock_deferred : s.holder ≡ HolderPc.ending → HolderStep s (set_holder HolderPc.free s)
  take_over :
      (o : ℕ)
      → s.holder ≡ HolderPc.orphaned
      → s.current ≡ some o
      → is_alive (s.states o).agent_session ≡ true
      → HolderStep s (set_holder (HolderPc.working o) s)
  take_over_dead :
      (o : ℕ)
      → s.holder ≡ HolderPc.orphaned
      → s.current ≡ some o
      → is_alive (s.states o).agent_session ≡ false
      → HolderStep s (set_holder HolderPc.ending (notify o s))
  take_over_none :
      s.holder ≡ HolderPc.orphaned → s.current ≡ none → HolderStep s (set_holder HolderPc.ending s)

-- The steps of `/compress`, which holds the lock too. The state was read before the lock was taken,
-- so it may be any that was created.
pub data CompressStep (s : System) : System → Type 0 where
  locks :
      (o : ℕ)
      → s.holder ≡ HolderPc.free
      → o < s.next
      → CompressStep s (record (set_holder (HolderPc.compressing o) s) { compressed = true })
  -- a result, or an error of an agent that lives: drain the queue as after a turn
  drains :
      (o : ℕ)
      → s.holder ≡ HolderPc.compressing o
      → CompressStep s (record (set_holder (HolderPc.working o) s) { compressed = true })
  -- the agent exits, fails for good or times out: tell the senders
  gives_up :
      (o : ℕ)
      → s.holder ≡ HolderPc.compressing o
      → CompressStep s (record (set_holder HolderPc.ending (notify o s)) { compressed = true })
  -- not supported, `Send` fails, or the state was stopped: return without a look at the queue
  returns :
      (o : ℕ)
      → s.holder ≡ HolderPc.compressing o
      → CompressStep s (record (set_holder HolderPc.ending s) { compressed = true })

-- The process dies, or `cleanupInteractiveState` takes the agent, tells the senders or removes the
-- entry.
pub data OtherStep (s : System) : System → Type 0 where
  dies :
      (o : ℕ)
      → o < s.next
      → is_alive (s.states o).agent_session ≡ true
      → OtherStep s (set_state o (with_agent AgentSession.dead (s.states o)) s)
  reset_takes :
      (o : ℕ)
      → s.current ≡ some o
      → OtherStep s (set_state o (with_agent AgentSession.absent (s.states o)) s)
  reset_notifies : (o : ℕ) → o < s.next → OtherStep s (notify o s)
  reset_removes : OtherStep s (record s { current = none })

pub data Step (s : System) : System → Type 0 where
  handler : (i : ℕ) {t : System} → HandlerStep s i t → Step s t
  holder_moves : {t : System} → HolderStep s t → Step s t
  compresses : {t : System} → CompressStep s t → Step s t
  other : {t : System} → OtherStep s t → Step s t

pub data Reach : System → Type 0 where
  initial : Reach init
  later : {s t : System} → Reach s → Step s t → Reach t
