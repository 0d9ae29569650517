-- ===== src/Interactive/Orphans.antt =====
-- The queue of a conversation and who serves it (core/engine.go).
use agent_in_chat_feishu.Shared.{
  ℕ, ◌<◌, ◌≡◌, ◌≢◌, refl, sym, subst, ◌∙◌, ◌⊎◌, inl, inr, Bool, true, false, Option, none, some,
  length, arith, Bool-cases,
}
use agent_in_chat_feishu.Interactive.{
  QueuedMessage, AgentSession, InteractiveState, new_state, is_alive, queue_message, pop_queued,
  drop_queue, adopt_pending,
}
use agent_in_chat_feishu.Interactive.System.{
  update, update_cases, update_same, HandlerPc, HolderPc, System, is_free, started, HandlerStep,
  HolderStep, CompressStep, OtherStep, Reach, compresses, handler, holder_moves, other, initial,
  later,
}

-- The holder has not decided to return yet.
abbrev pub is_active : HolderPc → Bool
is_active HolderPc.free = false
is_active HolderPc.ending = false
is_active (HolderPc.compressing o) = false
is_active _ = true

abbrev pub is_compressing : HolderPc → Bool
is_compressing (HolderPc.compressing o) = true
is_compressing _ = false

active_plain : (h : HolderPc) → is_active h ≡ true → is_compressing h ≡ false
active_plain HolderPc.free a = refl
active_plain HolderPc.ending a = refl
active_plain HolderPc.locked a = refl
active_plain HolderPc.ensured a = refl
active_plain (HolderPc.working o) a = refl
active_plain (HolderPc.popped m o) a = refl
active_plain HolderPc.orphaned a = refl
active_plain (HolderPc.compressing o) a = absurd (cc)

abbrev pub works_on : HolderPc → Option ℕ
works_on (HolderPc.working o) = some o
works_on (HolderPc.popped m o) = some o
works_on (HolderPc.compressing o) = some o
works_on _ = none

-- Somebody serves the queue, or is about to look whether to.
abbrev pub Served : HolderPc → (ℕ → HandlerPc) → Type 0
Served holder handlers = (is_active holder ≡ true) ⊎ ((i : ℕ) × (handlers i ≡ HandlerPc.queued))

-- Messages wait for an agent that lives.
abbrev pub Waiting : InteractiveState → Type 0
Waiting x = (is_alive x.agent_session ≡ true) × (0 < length x.pending_messages)

record Inv (states : ℕ → InteractiveState) (current : Option ℕ) (holder : HolderPc)
    (handlers : ℕ → HandlerPc) : Type 0 where
  -- the holder works on the entry, if there is one
  same : (o k : ℕ) → current ≡ some o → works_on holder ≡ some k → o ≡ k
  ended :
      (o : ℕ)
      → current ≡ some o
      → holder ≡ HolderPc.ending
      → is_alive (states o).agent_session ≡ false
  served : (o : ℕ) → current ≡ some o → Waiting (states o) → Served holder handlers
  plain : is_compressing holder ≡ false

abbrev InvOf : System → Type 0
InvOf s = Inv s.states s.current s.holder s.handlers

active_or_ending :
    (h : HolderPc)
    → is_free h ≡ false
    → is_compressing h ≡ false
    → (is_active h ≡ true) ⊎ (h ≡ HolderPc.ending)
active_or_ending (HolderPc.compressing o) e p = absurd (cc)
active_or_ending HolderPc.free e p = cc
active_or_ending HolderPc.locked e p = inl refl
active_or_ending HolderPc.ensured e p = inl refl
active_or_ending (HolderPc.working o) e p = inl refl
active_or_ending (HolderPc.popped m o) e p = inl refl
active_or_ending HolderPc.orphaned e p = inl refl
active_or_ending HolderPc.ending e p = inr refl

module _ (states : ℕ → InteractiveState) (current : Option ℕ) (handlers : ℕ → HandlerPc) where
  -- A holder that is active and works on the entry or on nothing.
  active-Inv :
      (h : HolderPc)
      → is_active h ≡ true
      → ((o k : ℕ) → current ≡ some o → works_on h ≡ some k → o ≡ k)
      → Inv states current h handlers
  active-Inv h a w = record {
    same = w;
    ended = λ o c e. cc;
    served = λ o c q. inl a;
    plain = active_plain h a;
  }

  -- A holder that returns while the entry, if there is one, has no living agent.
  ending-Inv :
      ((o : ℕ) → current ≡ some o → is_alive (states o).agent_session ≡ false)
      → Inv states current HolderPc.ending handlers
  ending-Inv dead = record {
    same = λ o k c w. cc;
    ended = λ o c e. dead o c;
    served = λ o c w. let d = dead o c in absurd (ground arith);
    plain = refl;
  }

  free-Inv :
      ((o : ℕ) → current ≡ some o → Waiting (states o) → ⊥)
      → Inv states current HolderPc.free handlers
  free-Inv none_waits = record {
    same = λ o k c w. cc;
    ended = λ o c e. cc;
    served = λ o c w. absurd (none_waits o c w);
    plain = refl;
  }

module _ {states : ℕ → InteractiveState} {current : Option ℕ} {holder : HolderPc}
    {handlers : ℕ → HandlerPc} (inv : Inv states current holder handlers) where
  open inv use {same, ended, served, plain}

  -- A handler that is not at its second `TryLock` moves on.
  handler-Inv :
      (i : ℕ) (pc : HandlerPc)
      → handlers i ≢ HandlerPc.queued
      → Inv states current holder (update handlers i pc)
  unfolding update
  handler-Inv i pc h = record {
    same = same;
    ended = ended;
    served = λ o c w. elim (served o c w) [ inl a ↦ inl a | inr (j, q) ↦ inr (j, ground arith) ];
    plain = plain;
  }

  retried-Inv :
      (i : ℕ)
      → is_free holder ≡ false
      → Inv states current holder (update handlers i HandlerPc.idle)
  retried-Inv i l = record {
    same = same;
    ended = ended;
    served = λ o c w. elim (active_or_ending holder l plain) [
      | inl a ↦ inl a
      | inr e ↦ absurd (ground (arith, ended o c e))
    ];
    plain = plain;
  }

  -- A state whose agent does not come to life and whose queue is not filled.
  state-Inv :
      (o : ℕ) (x : InteractiveState)
      → (is_alive x.agent_session ≡ true → is_alive (states o).agent_session ≡ true)
      → (Waiting x → Waiting (states o))
      → Inv (update states o x) current holder handlers
  state-Inv o x alive waits = record {
    same = same;
    ended = λ k c e.
        update_cases (λ y. is_alive y.agent_session ≡ false) states o x k
          (λ at. ground (arith, ended k c e, Bool-cases (is_alive x.agent_session))) (ended k c e);
    served = λ k c w. served k c (
        update_cases (λ y. Waiting y → Waiting (states k)) states o x k
          (λ at v. subst (λ j. Waiting (states j)) at (waits v)) (λ v. v) w);
    plain = plain;
  }

  removed-Inv : Inv states none holder handlers
  removed-Inv = record {
    same = λ o k c w. cc;
    ended = λ o c e. cc;
    served = λ o c q. cc;
    plain = plain;
  }

queue_message-agent :
    (m : QueuedMessage) (x y : InteractiveState)
    → queue_message m x ≡ some y
    → y.agent_session ≡ x.agent_session
unfolding queue_message
queue_message-agent m x y h = ground arith

append-Inv :
    {states : ℕ → InteractiveState} {current : Option ℕ} {holder : HolderPc}
    {handlers : ℕ → HandlerPc}
    → Inv states current holder handlers
    → (i o : ℕ) (m : QueuedMessage) (x : InteractiveState) → queue_message m (states o) ≡ some x
    → Inv (update states o x) current holder (update handlers i HandlerPc.queued)
unfolding update
append-Inv {states} inv i o m x q = record {
  same = inv.same;
  ended = λ k c e.
      update_cases (λ y. is_alive y.agent_session ≡ false) states o x k
        (λ at.
          rw (queue_message-agent m (states o) x q)
            (subst (λ j. is_alive (states j).agent_session ≡ false) (sym at) (inv.ended k c e)))
        (inv.ended k c e);
  served = λ k c w. inr (i, ground arith);
  plain = inv.plain;
}

spawn-Inv :
    (states : ℕ → InteractiveState) (handlers : ℕ → HandlerPc) (n : ℕ) (agent : AgentSession)
    (x : InteractiveState)
    → x.agent_session ≡ agent
    → Inv (update states n x) (some n) (started agent n) handlers
spawn-Inv states handlers n AgentSession.absent x h = record {
  same = λ o k c w. cc;
  ended = λ o c e. let at : n ≡ o = ground arith in rw (← at, update_same states n x, h) refl;
  served = λ o c w.
      let at : n ≡ o = ground arith in
      let absent : is_alive (update states n x n).agent_session ≡ false =
        rw (update_same states n x, h) refl in
      absurd (ground arith);
  plain = refl;
}
spawn-Inv states handlers n AgentSession.alive x h = record {
  same = λ o k c w. ground arith;
  ended = λ o c e. cc;
  served = λ o c w. inl refl;
  plain = refl;
}
spawn-Inv states handlers n AgentSession.dead x h = record {
  same = λ o k c w. ground arith;
  ended = λ o c e. cc;
  served = λ o c w. inl refl;
  plain = refl;
}

adopt_pending-agent : (x y : InteractiveState) → (adopt_pending x y).agent_session ≡ y.agent_session
unfolding adopt_pending
adopt_pending-agent x y = ground arith

popped-Waiting :
    (m : QueuedMessage) (x y : InteractiveState)
    → pop_queued x ≡ some (m, y)
    → (y.agent_session ≡ x.agent_session) × (0 < length x.pending_messages)
unfolding pop_queued
popped-Waiting m x y h = ground arith

unpopped-Waiting : (x : InteractiveState) → pop_queued x ≡ none → Waiting x → ⊥
unfolding pop_queued
unpopped-Waiting x h w = ground arith

HandlerStep-Inv : {s : System} {i : ℕ} {t : System} → HandlerStep s i t → InvOf s → InvOf t
HandlerStep-Inv (HandlerStep.start h l) inv = active-Inv _ _ _ HolderPc.locked refl (λ o k c w. cc)
HandlerStep-Inv {s} {i} (HandlerStep.refuse m h l) inv = handler-Inv inv i _ (ground arith)
HandlerStep-Inv {s} {i} (HandlerStep.find m o h c a) inv = handler-Inv inv i _ (ground arith)
HandlerStep-Inv {s} {i} (HandlerStep.find_dead m o h c a) inv = handler-Inv inv i _ (ground arith)
HandlerStep-Inv {s} {i} (HandlerStep.find_none m h c) inv = handler-Inv inv i _ (ground arith)
HandlerStep-Inv {s} {i} (HandlerStep.append m o x h q) inv = append-Inv inv i o m x q
HandlerStep-Inv {s} {i} (HandlerStep.full m o h q) inv = handler-Inv inv i _ (ground arith)
HandlerStep-Inv {s} {i} (HandlerStep.retry_fails h l) inv = retried-Inv inv i l
HandlerStep-Inv {s} (HandlerStep.retry_locks h l) inv = record {
  same = λ o k c w. cc;
  ended = λ o c e. cc;
  served = λ o c w. inl refl;
  plain = refl;
}

drop-Inv :
    (s : System) (o : ℕ)
    → InvOf s
    → Inv (update s.states o (drop_queue (s.states o))) s.current s.holder s.handlers
unfolding drop_queue
drop-Inv s o inv = state-Inv inv o _ (λ a. a) (λ w. absurd (omega (arith, w.1)))

popped-Inv :
    (s : System) (m : QueuedMessage) (o : ℕ) (x : InteractiveState)
    → pop_queued (s.states o) ≡ some (m, x)
    → InvOf s
    → Inv (update s.states o x) s.current s.holder s.handlers
popped-Inv s m o x h inv =
    let (agent, filled) = popped-Waiting m (s.states o) x h in
    state-Inv inv o x (λ a. ground arith) (λ w. (ground arith, filled))

dropped_dead :
    (s : System) (o k : ℕ)
    → is_alive (s.states o).agent_session ≡ false
    → o ≡ k
    → is_alive (update s.states o (drop_queue (s.states o)) k).agent_session ≡ false
unfolding drop_queue
dropped_dead s o k a e = rw (← e, update_same s.states o (drop_queue (s.states o))) a

HolderStep-Inv : {s t : System} → HolderStep s t → InvOf s → InvOf t
unfolding new_state
HolderStep-Inv (HolderStep.ensure p r h c) inv =
    active-Inv _ _ _ HolderPc.ensured refl (λ o k c w. cc)
HolderStep-Inv (HolderStep.keep o h c) inv = active-Inv _ _ _ HolderPc.ensured refl (λ o k c w. cc)
HolderStep-Inv (HolderStep.reuse o h c a) inv =
    active-Inv _ _ _ (HolderPc.working o) refl (λ j k d w. ground arith)
HolderStep-Inv (HolderStep.recycle o h c a) inv =
    removed-Inv (state-Inv inv o _ (λ e. a) (λ w. ground arith))
HolderStep-Inv {s} (HolderStep.spawn agent p r h c) inv =
    spawn-Inv s.states s.handlers s.next agent _ refl
HolderStep-Inv {s} (HolderStep.spawn_adopting agent o p r h c a) inv =
    spawn-Inv (update s.states o (drop_queue (s.states o))) s.handlers s.next agent _
      (adopt_pending-agent (s.states o) _)
HolderStep-Inv {s} (HolderStep.next_turn m o x h q) inv = popped-Inv s m o x q inv
HolderStep-Inv {s} (HolderStep.fail o h) inv = drop-Inv s o inv
HolderStep-Inv {s} (HolderStep.pop m o x h q) inv =
    active-Inv _ _ _ (HolderPc.popped m o) refl (λ j k d w. inv.same j k d (ground arith))
HolderStep-Inv (HolderStep.deliver m o h a) inv =
    active-Inv _ _ _ (HolderPc.working o) refl (λ j k d w. inv.same j k d (ground arith))
HolderStep-Inv {s} (HolderStep.give_up m o h a) inv =
    ending-Inv _ _ _ (λ k c. dropped_dead s o k a (sym (inv.same k o c (ground arith))))
HolderStep-Inv {s} (HolderStep.unlock o h q) inv = free-Inv _ _ _ (λ k c w.
    let e = inv.same k o c (ground arith) in
    unpopped-Waiting (s.states o) q (subst (λ j. Waiting (s.states j)) e w))
HolderStep-Inv (HolderStep.unlock_deferred h) inv =
    free-Inv _ _ _ (λ o c w. let d = inv.ended o c h in ground arith)
HolderStep-Inv (HolderStep.take_over o h c a) inv =
    active-Inv _ _ _ (HolderPc.working o) refl (λ j k d w. ground arith)
HolderStep-Inv {s} (HolderStep.take_over_dead o h c a) inv =
    ending-Inv _ _ _ (λ k d. dropped_dead s o k a (ground arith))
HolderStep-Inv (HolderStep.take_over_none h c) inv = ending-Inv _ _ _ (λ o d. cc)

OtherStep-Inv : {s t : System} → OtherStep s t → InvOf s → InvOf t
OtherStep-Inv (OtherStep.dies o l a) inv = state-Inv inv o _ (λ e. cc) (λ w. ground arith)
OtherStep-Inv (OtherStep.reset_takes o c) inv = state-Inv inv o _ (λ e. cc) (λ w. ground arith)
OtherStep-Inv {s} (OtherStep.reset_notifies o l) inv = drop-Inv s o inv
OtherStep-Inv OtherStep.reset_removes inv = removed-Inv inv

HandlerStep-compressed :
    {s : System} {i : ℕ} {t : System} → HandlerStep s i t → t.compressed ≡ s.compressed
HandlerStep-compressed (HandlerStep.start h l) = refl
HandlerStep-compressed (HandlerStep.refuse m h l) = refl
HandlerStep-compressed (HandlerStep.find m o h c a) = refl
HandlerStep-compressed (HandlerStep.find_dead m o h c a) = refl
HandlerStep-compressed (HandlerStep.find_none m h c) = refl
HandlerStep-compressed (HandlerStep.append m o x h q) = refl
HandlerStep-compressed (HandlerStep.full m o h q) = refl
HandlerStep-compressed (HandlerStep.retry_fails h l) = refl
HandlerStep-compressed (HandlerStep.retry_locks h l) = refl

HolderStep-compressed : {s t : System} → HolderStep s t → t.compressed ≡ s.compressed
HolderStep-compressed (HolderStep.ensure p r h c) = refl
HolderStep-compressed (HolderStep.keep o h c) = refl
HolderStep-compressed (HolderStep.reuse o h c a) = refl
HolderStep-compressed (HolderStep.recycle o h c a) = refl
HolderStep-compressed (HolderStep.spawn agent p r h c) = refl
HolderStep-compressed (HolderStep.spawn_adopting agent o p r h c a) = refl
HolderStep-compressed (HolderStep.next_turn m o x h q) = refl
HolderStep-compressed (HolderStep.fail o h) = refl
HolderStep-compressed (HolderStep.pop m o x h q) = refl
HolderStep-compressed (HolderStep.deliver m o h a) = refl
HolderStep-compressed (HolderStep.give_up m o h a) = refl
HolderStep-compressed (HolderStep.unlock o h q) = refl
HolderStep-compressed (HolderStep.unlock_deferred h) = refl
HolderStep-compressed (HolderStep.take_over o h c a) = refl
HolderStep-compressed (HolderStep.take_over_dead o h c a) = refl
HolderStep-compressed (HolderStep.take_over_none h c) = refl

OtherStep-compressed : {s t : System} → OtherStep s t → t.compressed ≡ s.compressed
OtherStep-compressed (OtherStep.dies o l a) = refl
OtherStep-compressed (OtherStep.reset_takes o c) = refl
OtherStep-compressed (OtherStep.reset_notifies o l) = refl
OtherStep-compressed OtherStep.reset_removes = refl

CompressStep-compressed : {s t : System} → CompressStep s t → t.compressed ≡ true
CompressStep-compressed (CompressStep.locks o h l) = refl
CompressStep-compressed (CompressStep.drains o h) = refl
CompressStep-compressed (CompressStep.gives_up o h) = refl
CompressStep-compressed (CompressStep.returns o h) = refl

-- As long as `/compress` was not used.
Reach-Inv : {s : System} → Reach s → s.compressed ≡ false → InvOf s
Reach-Inv initial n = free-Inv _ _ _ (λ o c w. cc)
Reach-Inv (later r (handler i st)) n =
    HandlerStep-Inv st (Reach-Inv r (sym (HandlerStep-compressed st) ∙ n))
Reach-Inv (later r (holder_moves st)) n =
    HolderStep-Inv st (Reach-Inv r (sym (HolderStep-compressed st) ∙ n))
Reach-Inv (later r (other st)) n =
    OtherStep-Inv st (Reach-Inv r (sym (OtherStep-compressed st) ∙ n))
Reach-Inv (later r (compresses st)) n = let used = CompressStep-compressed st in absurd (cc)

-- In every reachable state of a conversation in which `/compress` was not used (after it, a run
-- may leave messages behind): if messages wait in the conversation's entry and its agent lives,
-- then the holder of the lock still serves the queue, or a handler is about to try the lock again.
pub Reach-Served :
    {s : System} (o : ℕ)
    → Reach s
    → s.compressed ≡ false
    → s.current ≡ some o
    → Waiting (s.states o)
    → Served s.holder s.handlers
Reach-Served o r n c w = (Reach-Inv r n).served o c w

-- The holder works on the conversation's entry, if there is one.
pub Reach-same :
    {s : System} (o k : ℕ)
    → Reach s
    → s.compressed ≡ false
    → s.current ≡ some o
    → works_on s.holder ≡ some k
    → o ≡ k
Reach-same o k r n c w = (Reach-Inv r n).same o k c w

pub Reach-ended :
    {s : System} (o : ℕ)
    → Reach s
    → s.compressed ≡ false
    → s.current ≡ some o
    → s.holder ≡ HolderPc.ending
    → is_alive (s.states o).agent_session ≡ false
Reach-ended o r n c e = (Reach-Inv r n).ended o c e

pub Reach-plain : {s : System} → Reach s → s.compressed ≡ false → is_compressing s.holder ≡ false
Reach-plain r n = (Reach-Inv r n).plain
