-- ===== src/Interactive/Conserved.antt =====
-- What becomes of the messages that are queued (core/engine.go).
use agent_in_chat_feishu.Shared.{
  ℕ, zero, suc, ◌+◌, ◌≤◌, ◌<◌, ◌≡◌, refl, inl, inr, Bool, some, List, [], String, ◌∷◌, ◌++◌, eqb,
  if◌then◌else◌, arith, Bool-cases,
}
use agent_in_chat_feishu.Interactive.{
  QueuedMessage, AgentSession, InteractiveState, new_state, queue_message, pop_queued, drop_queue,
  adopt_pending, with_agent,
}
use agent_in_chat_feishu.Interactive.System.{
  update, update_same, update_other, HolderPc, System, init, started, notify, HandlerStep,
  HolderStep, CompressStep, compresses, OtherStep, Reach, handler, holder_moves, other, initial,
  later,
}
use agent_in_chat_feishu.Interactive.Known.{BelowOf, Reach-Below}

-- How many messages of the list pass a test.
unfoldable pub count_if : (QueuedMessage → Bool) → List QueuedMessage → ℕ
count_if p [] = 0
count_if p (m ∷ ms) = let rest = count_if p ms in if p m then suc rest else rest

-- How many messages that pass the test wait in the states below `n`, the entry and those that were
-- replaced.
unfoldable pub waiting : (QueuedMessage → Bool) → (ℕ → InteractiveState) → ℕ → ℕ
unfolding count_if
waiting p states zero = 0
waiting p states (suc n) = count_if p (states n).pending_messages + waiting p states n

-- The message that the holder has taken but not handed on.
abbrev pub in_hand : HolderPc → List QueuedMessage
in_hand (HolderPc.popped m o) = m ∷ []
in_hand _ = []

-- Each message that was queued was handed to the agent, or its sender was told, or it waits in some
-- state.
abbrev pub Conserved : (QueuedMessage → Bool) → System → Type 0
Conserved p s =
    count_if p s.accepted
    ≡ count_if p s.delivered
      + count_if p s.notified
      + count_if p (in_hand s.holder)
      + waiting p s.states s.next

module _ (p : QueuedMessage → Bool) where
  count-append :
      (xs ys : List QueuedMessage) → count_if p (xs ++ ys) ≡ count_if p xs + count_if p ys
  unfolding count_if
  count-append [] ys = omega arith
  count-append (x ∷ xs) ys = ground (arith, count-append xs ys)

  waiting-above :
      (states : ℕ → InteractiveState) (o : ℕ) (x : InteractiveState) (n : ℕ)
      → n ≤ o
      → waiting p (update states o x) n ≡ waiting p states n
  unfolding waiting update
  waiting-above states o x zero h = refl
  waiting-above states o x (suc n) h = ground (arith, waiting-above states o x n)

  -- The sum after one state has changed.
  waiting-update :
      (states : ℕ → InteractiveState) (o : ℕ) (x : InteractiveState) (n : ℕ)
      → o < n
      → waiting p (update states o x) n + count_if p (states o).pending_messages
        ≡ waiting p states n + count_if p x.pending_messages
  unfolding waiting update
  waiting-update states o x zero h = absurd (omega arith)
  waiting-update states o x (suc n) h = elim (Bool-cases (eqb o n)) [
    | inl e ↦
        let at : o ≡ n = ground arith in
        rw (← at, update_same states o x, waiting-above states o x o (omega arith)) (omega arith)
    | inr e ↦
        rw (update_other states o x n e) (omega (arith, waiting-update states o x n (ground arith)))
  ]

  queued_one :
      (m : QueuedMessage) (x y : InteractiveState)
      → queue_message m x ≡ some y
      → count_if p y.pending_messages ≡ count_if p x.pending_messages + count_if p (m ∷ [])
  unfolding queue_message
  queued_one m x y h = ground (arith, count-append x.pending_messages (m ∷ []))

  popped_one :
      (m : QueuedMessage) (x y : InteractiveState)
      → pop_queued x ≡ some (m, y)
      → count_if p x.pending_messages ≡ count_if p (m ∷ []) + count_if p y.pending_messages
  unfolding pop_queued count_if
  popped_one m x y h = ground arith

  dropped_all : (x : InteractiveState) → count_if p (drop_queue x).pending_messages ≡ 0
  unfolding drop_queue count_if
  dropped_all x = refl

  new_empty : (a : AgentSession) (q r : String) → count_if p (new_state a q r).pending_messages ≡ 0
  unfolding new_state count_if
  new_empty a q r = refl

  adopted_all :
      (x y : InteractiveState)
      → count_if p y.pending_messages ≡ 0
      → count_if p (adopt_pending x y).pending_messages ≡ count_if p x.pending_messages
  unfolding adopt_pending count_if
  adopted_all x y h = ground arith

  -- A new state at the end.
  created-waiting :
      (states : ℕ → InteractiveState) (x : InteractiveState) (n : ℕ)
      → waiting p (update states n x) (suc n) ≡ waiting p states n + count_if p x.pending_messages
  unfolding waiting
  created-waiting states x n =
      rw (update_same states n x, waiting-above states n x n (omega arith)) (omega arith)

  in_hand-started : (a : AgentSession) (n : ℕ) → count_if p (in_hand (started a n)) ≡ 0
  unfolding count_if
  in_hand-started AgentSession.absent n = refl
  in_hand-started AgentSession.alive n = refl
  in_hand-started AgentSession.dead n = refl

  -- Telling the senders of one state.
  notify-Conserved : (s : System) (o : ℕ) → o < s.next → Conserved p s → Conserved p (notify o s)
  notify-Conserved s o l c = omega (
    arith,
    c,
    waiting-update s.states o (drop_queue (s.states o)) s.next l,
    dropped_all (s.states o),
    count-append s.notified (s.states o).pending_messages,
  )

  none_counted : count_if p [] ≡ 0
  unfolding count_if
  none_counted = refl

  counted_cons :
      (m : QueuedMessage) (ms : List QueuedMessage)
      → count_if p (m ∷ ms) ≡ count_if p (m ∷ []) + count_if p ms
  unfolding count_if
  counted_cons m ms = ground arith

  same_hand :
      {h : HolderPc} (k : HolderPc) → h ≡ k → count_if p (in_hand h) ≡ count_if p (in_hand k)
  same_hand k e = rw e

  HandlerStep-Conserved :
      {s : System} {i : ℕ} {t : System}
      → HandlerStep s i t
      → BelowOf s
      → Conserved p s
      → Conserved p t
  HandlerStep-Conserved (HandlerStep.start h l) b c = omega (arith, c, none_counted, same_hand _ l)
  HandlerStep-Conserved (HandlerStep.refuse m h l) b c = c
  HandlerStep-Conserved (HandlerStep.find m o h e a) b c = c
  HandlerStep-Conserved (HandlerStep.find_dead m o h e a) b c = c
  HandlerStep-Conserved (HandlerStep.find_none m h e) b c = c
  HandlerStep-Conserved {s} {i} (HandlerStep.append m o x h q) b c = omega (
    arith,
    c,
    count-append s.accepted (m ∷ []),
    waiting-update s.states o x s.next (b.finder i o (ground arith)),
    queued_one m (s.states o) x q,
  )
  HandlerStep-Conserved (HandlerStep.full m o h q) b c = c
  HandlerStep-Conserved (HandlerStep.retry_fails h l) b c = c
  HandlerStep-Conserved (HandlerStep.retry_locks h l) b c =
      omega (arith, c, none_counted, same_hand _ l)

  -- A state whose queue keeps its length.
  kept-waiting :
      (states : ℕ → InteractiveState) (o n : ℕ) (a : AgentSession)
      → o < n
      → waiting p (update states o (with_agent a (states o))) n ≡ waiting p states n
  kept-waiting states o n a l = omega (arith, waiting-update states o (with_agent a (states o)) n l)

  HolderStep-Conserved : {s t : System} → HolderStep s t → BelowOf s → Conserved p s → Conserved p t
  HolderStep-Conserved {s} (HolderStep.ensure q r h e) b c = omega (
    arith,
    c,
    none_counted,
    same_hand _ h,
    created-waiting s.states (new_state AgentSession.absent q r) s.next,
    new_empty AgentSession.absent q r,
  )
  HolderStep-Conserved (HolderStep.keep o h e) b c = omega (arith, c, none_counted, same_hand _ h)
  HolderStep-Conserved (HolderStep.reuse o h e a) b c =
      omega (arith, c, none_counted, same_hand _ h)
  HolderStep-Conserved {s} (HolderStep.recycle o h e a) b c =
      omega (arith, c, kept-waiting s.states o s.next AgentSession.dead (b.entry o e))
  HolderStep-Conserved {s} (HolderStep.spawn agent q r h e) b c = omega (
    arith,
    c,
    none_counted,
    same_hand _ h,
    in_hand-started agent s.next,
    created-waiting s.states (new_state agent q r) s.next,
    new_empty agent q r,
  )
  HolderStep-Conserved {s} (HolderStep.spawn_adopting agent o q r h e a) b c = omega (
    arith,
    c,
    none_counted,
    same_hand _ h,
    in_hand-started agent s.next,
    waiting-update s.states o (drop_queue (s.states o)) s.next (b.entry o e),
    dropped_all (s.states o),
    created-waiting (update s.states o (drop_queue (s.states o)))
        (adopt_pending (s.states o) (new_state agent q r)) s.next,
    adopted_all (s.states o) (new_state agent q r) (new_empty agent q r),
  )
  HolderStep-Conserved {s} (HolderStep.next_turn m o x h q) b c = omega (
    arith,
    c,
    count-append s.delivered (m ∷ []),
    popped_one m (s.states o) x q,
    waiting-update s.states o x s.next (b.held o (ground arith)),
  )
  HolderStep-Conserved {s} (HolderStep.fail o h) b c =
      notify-Conserved s o (b.held o (ground arith)) c
  HolderStep-Conserved {s} (HolderStep.pop m o x h q) b c = omega (
    arith,
    c,
    none_counted,
    same_hand _ h,
    popped_one m (s.states o) x q,
    waiting-update s.states o x s.next (b.held o (ground arith)),
  )
  HolderStep-Conserved {s} (HolderStep.deliver m o h a) b c =
      omega (arith, c, none_counted, same_hand _ h, count-append s.delivered (m ∷ []))
  HolderStep-Conserved {s} (HolderStep.give_up m o h a) b c = omega (
    arith,
    c,
    none_counted,
    same_hand _ h,
    count-append s.notified (m ∷ (s.states o).pending_messages),
    counted_cons m (s.states o).pending_messages,
    dropped_all (s.states o),
    waiting-update s.states o (drop_queue (s.states o)) s.next (b.held o (ground arith)),
  )
  HolderStep-Conserved (HolderStep.unlock o h q) b c = omega (arith, c, none_counted, same_hand _ h)
  HolderStep-Conserved (HolderStep.unlock_deferred h) b c =
      omega (arith, c, none_counted, same_hand _ h)
  HolderStep-Conserved (HolderStep.take_over o h e a) b c =
      omega (arith, c, none_counted, same_hand _ h)
  HolderStep-Conserved {s} (HolderStep.take_over_dead o h e a) b c =
      omega (arith, notify-Conserved s o (b.entry o e) c, none_counted, same_hand _ h)
  HolderStep-Conserved (HolderStep.take_over_none h e) b c =
      omega (arith, c, none_counted, same_hand _ h)

  CompressStep-Conserved :
      {s t : System} → CompressStep s t → BelowOf s → Conserved p s → Conserved p t
  CompressStep-Conserved (CompressStep.locks o h l) b c =
      omega (arith, c, none_counted, same_hand _ h)
  CompressStep-Conserved (CompressStep.drains o h) b c =
      omega (arith, c, none_counted, same_hand _ h)
  CompressStep-Conserved {s} (CompressStep.gives_up o h) b c =
      omega (arith, notify-Conserved s o (b.held o (ground arith)) c, none_counted, same_hand _ h)
  CompressStep-Conserved (CompressStep.returns o h) b c =
      omega (arith, c, none_counted, same_hand _ h)

  OtherStep-Conserved : {s t : System} → OtherStep s t → BelowOf s → Conserved p s → Conserved p t
  OtherStep-Conserved {s} (OtherStep.dies o l a) b c =
      omega (arith, c, kept-waiting s.states o s.next AgentSession.dead l)
  OtherStep-Conserved {s} (OtherStep.reset_takes o e) b c =
      omega (arith, c, kept-waiting s.states o s.next AgentSession.absent (b.entry o e))
  OtherStep-Conserved {s} (OtherStep.reset_notifies o l) b c = notify-Conserved s o l c
  OtherStep-Conserved OtherStep.reset_removes b c = c

  init-Conserved : Conserved p init
  unfolding count_if waiting
  init-Conserved = refl

-- In every reachable state, for every test on messages: as many of the queued messages pass it as
-- of those that were handed to the agent, those whose senders were told that they are dropped,
-- the one that the holder has in hand, and those that still wait in the queue of some state. The
-- state may be one that is no entry any more, whose queue nobody reads.
pub Reach-Conserved : {s : System} (p : QueuedMessage → Bool) → Reach s → Conserved p s
Reach-Conserved p initial = init-Conserved p
Reach-Conserved p (later r (handler i st)) =
    HandlerStep-Conserved p st (Reach-Below r) (Reach-Conserved p r)
Reach-Conserved p (later r (holder_moves st)) =
    HolderStep-Conserved p st (Reach-Below r) (Reach-Conserved p r)
Reach-Conserved p (later r (compresses st)) =
    CompressStep-Conserved p st (Reach-Below r) (Reach-Conserved p r)
Reach-Conserved p (later r (other st)) =
    OtherStep-Conserved p st (Reach-Below r) (Reach-Conserved p r)
