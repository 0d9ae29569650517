-- ===== src/Interactive/Bounds.antt =====
-- How long a queue grows (core/engine.go, `maxQueuedMessages`).
use agent_in_chat_feishu.Shared.{ℕ, ◌≤◌, ◌≡◌, String, some, [], ◌∷◌, length, length-append, arith}
use agent_in_chat_feishu.Interactive.{
  QueuedMessage, AgentSession, InteractiveState, new_state, queue_message, pop_queued, drop_queue,
  adopt_pending, max_queued_messages,
}
use agent_in_chat_feishu.Interactive.System.{
  update, update_cases, System, HandlerStep, HolderStep, CompressStep, compresses, OtherStep, Reach,
  handler, holder_moves, other, initial, later,
}

abbrev pub Short : InteractiveState → Type 0
Short x = length x.pending_messages ≤ max_queued_messages

abbrev pub AllShort : System → Type 0
AllShort s = (o : ℕ) → Short (s.states o)

queue_message-Short :
    (m : QueuedMessage) (x y : InteractiveState) → queue_message m x ≡ some y → Short y
unfolding queue_message
queue_message-Short m x y h = ground (arith, length-append x.pending_messages (m ∷ []))

pop_queued-Short :
    (m : QueuedMessage) (x y : InteractiveState) → pop_queued x ≡ some (m, y) → Short x → Short y
unfolding pop_queued
pop_queued-Short m x y h b = ground arith

drop_queue-Short : (x : InteractiveState) → Short (drop_queue x)
unfolding drop_queue
drop_queue-Short x = omega arith

new_state-Short : (a : AgentSession) (p r : String) → Short (new_state a p r)
unfolding new_state
new_state-Short a p r = omega arith

adopt_pending-Short : (x y : InteractiveState) → Short x → Short y → Short (adopt_pending x y)
unfolding adopt_pending
adopt_pending-Short x y hx hy = ground arith

update-Short :
    (states : ℕ → InteractiveState) (o : ℕ) (x : InteractiveState)
    → ((k : ℕ) → Short (states k))
    → Short x
    → (k : ℕ) → Short (update states o x k)
update-Short states o x all h k = update_cases Short states o x k (λ e. h) (all k)

HandlerStep-AllShort :
    {s : System} {i : ℕ} {t : System} → HandlerStep s i t → AllShort s → AllShort t
HandlerStep-AllShort (HandlerStep.start h l) b = b
HandlerStep-AllShort (HandlerStep.refuse m h l) b = b
HandlerStep-AllShort (HandlerStep.find m o h c a) b = b
HandlerStep-AllShort (HandlerStep.find_dead m o h c a) b = b
HandlerStep-AllShort (HandlerStep.find_none m h c) b = b
HandlerStep-AllShort {s} (HandlerStep.append m o x h q) b =
    update-Short s.states o x b (queue_message-Short m (s.states o) x q)
HandlerStep-AllShort (HandlerStep.full m o h q) b = b
HandlerStep-AllShort (HandlerStep.retry_fails h l) b = b
HandlerStep-AllShort (HandlerStep.retry_locks h l) b = b

notified-AllShort :
    (s : System) (o : ℕ)
    → AllShort s
    → (k : ℕ) → Short (update s.states o (drop_queue (s.states o)) k)
notified-AllShort s o b = update-Short s.states o _ b (drop_queue-Short (s.states o))

HolderStep-AllShort : {s t : System} → HolderStep s t → AllShort s → AllShort t
HolderStep-AllShort {s} (HolderStep.ensure p r h c) b =
    update-Short s.states s.next _ b (new_state-Short _ p r)
HolderStep-AllShort (HolderStep.keep o h c) b = b
HolderStep-AllShort (HolderStep.reuse o h c a) b = b
HolderStep-AllShort {s} (HolderStep.recycle o h c a) b = update-Short s.states o _ b (b o)
HolderStep-AllShort {s} (HolderStep.spawn agent p r h c) b =
    update-Short s.states s.next _ b (new_state-Short _ p r)
HolderStep-AllShort {s} (HolderStep.spawn_adopting agent o p r h c a) b =
    update-Short _ s.next _ (notified-AllShort s o b)
      (adopt_pending-Short (s.states o) _ (b o) (new_state-Short _ p r))
HolderStep-AllShort {s} (HolderStep.next_turn m o x h q) b =
    update-Short s.states o x b (pop_queued-Short m (s.states o) x q (b o))
HolderStep-AllShort {s} (HolderStep.fail o h) b = notified-AllShort s o b
HolderStep-AllShort {s} (HolderStep.pop m o x h q) b =
    update-Short s.states o x b (pop_queued-Short m (s.states o) x q (b o))
HolderStep-AllShort (HolderStep.deliver m o h a) b = b
HolderStep-AllShort {s} (HolderStep.give_up m o h a) b = notified-AllShort s o b
HolderStep-AllShort (HolderStep.unlock o h q) b = b
HolderStep-AllShort (HolderStep.unlock_deferred h) b = b
HolderStep-AllShort (HolderStep.take_over o h c a) b = b
HolderStep-AllShort {s} (HolderStep.take_over_dead o h c a) b = notified-AllShort s o b
HolderStep-AllShort (HolderStep.take_over_none h c) b = b

CompressStep-AllShort : {s t : System} → CompressStep s t → AllShort s → AllShort t
CompressStep-AllShort (CompressStep.locks o h l) b = b
CompressStep-AllShort (CompressStep.drains o h) b = b
CompressStep-AllShort {s} (CompressStep.gives_up o h) b = notified-AllShort s o b
CompressStep-AllShort (CompressStep.returns o h) b = b

OtherStep-AllShort : {s t : System} → OtherStep s t → AllShort s → AllShort t
OtherStep-AllShort {s} (OtherStep.dies o l a) b = update-Short s.states o _ b (b o)
OtherStep-AllShort {s} (OtherStep.reset_takes o c) b = update-Short s.states o _ b (b o)
OtherStep-AllShort {s} (OtherStep.reset_notifies o l) b = notified-AllShort s o b
OtherStep-AllShort OtherStep.reset_removes b = b

-- In every reachable state, whatever the interleaving, each queue has at most five messages.
pub Reach-AllShort : {s : System} → Reach s → AllShort s
Reach-AllShort initial = λ o. new_state-Short _ "" ""
Reach-AllShort (later r (handler i st)) = HandlerStep-AllShort st (Reach-AllShort r)
Reach-AllShort (later r (holder_moves st)) = HolderStep-AllShort st (Reach-AllShort r)
Reach-AllShort (later r (compresses st)) = CompressStep-AllShort st (Reach-AllShort r)
Reach-AllShort (later r (other st)) = OtherStep-AllShort st (Reach-AllShort r)
