-- ===== src/Interactive/Known.antt =====
-- The numbers of the states that the steps use (core/engine.go): each is a state that was created.
use agent_in_chat_feishu.Shared.{ℕ, suc, ◌<◌, ◌≡◌, Option, none, some, arith}
use agent_in_chat_feishu.Interactive.{AgentSession}
use agent_in_chat_feishu.Interactive.System.{
  update, update_cases, HandlerPc, HolderPc, System, started, HandlerStep, HolderStep, CompressStep,
  compresses, OtherStep, Step, Reach, handler, holder_moves, other, initial, later,
}
use agent_in_chat_feishu.Interactive.Orphans.{works_on}

abbrev pub found_on : HandlerPc → Option ℕ
found_on (HandlerPc.found m o) = some o
found_on _ = none

pub record Below (next : ℕ) (current : Option ℕ) (holder : HolderPc) (handlers : ℕ → HandlerPc)
    : Type 0 where
  pub entry : (o : ℕ) → current ≡ some o → o < next
  pub held : (o : ℕ) → works_on holder ≡ some o → o < next
  pub finder : (i o : ℕ) → found_on (handlers i) ≡ some o → o < next

abbrev pub BelowOf : System → Type 0
BelowOf s = Below s.next s.current s.holder s.handlers

module _ {next : ℕ} {current : Option ℕ} {holder : HolderPc} {handlers : ℕ → HandlerPc}
    (b : Below next current holder handlers) where
  open b use {entry, held, finder}

  handler-Below :
      (i : ℕ) (pc : HandlerPc)
      → ((o : ℕ) → found_on pc ≡ some o → o < next)
      → Below next current holder (update handlers i pc)
  handler-Below i pc h = record {
    entry = entry;
    held = held;
    finder = λ j o.
        update_cases (λ q. found_on q ≡ some o → o < next) handlers i pc j (λ e. h o) (finder j o);
  }

  holder-Below :
      (h : HolderPc) → ((o : ℕ) → works_on h ≡ some o → o < next) → Below next current h handlers
  holder-Below h p = record { entry = entry; held = p; finder = finder }

  created-Below :
      (h : HolderPc)
      → ((o : ℕ) → works_on h ≡ some o → o ≡ next)
      → Below (suc next) (some next) h handlers
  created-Below h p = record {
    entry = λ o c. ground arith;
    held = λ o w. omega (arith, p o w);
    finder = λ i o f. omega (arith, finder i o f);
  }

  removed-Below : Below next none holder handlers
  removed-Below = record { entry = λ o c. cc; held = held; finder = finder }

works_on-started : (a : AgentSession) (n o : ℕ) → works_on (started a n) ≡ some o → o ≡ n
works_on-started AgentSession.absent n o h = cc
works_on-started AgentSession.alive n o h = ground arith
works_on-started AgentSession.dead n o h = ground arith

HandlerStep-Below : {s : System} {i : ℕ} {t : System} → HandlerStep s i t → BelowOf s → BelowOf t
HandlerStep-Below (HandlerStep.start h l) b = holder-Below b _ (λ o w. cc)
HandlerStep-Below {s} {i} (HandlerStep.refuse m h l) b = handler-Below b i _ (λ o f. cc)
HandlerStep-Below {s} {i} (HandlerStep.find m o h c a) b =
    handler-Below b i _ (λ k f. b.entry k (ground arith))
HandlerStep-Below {s} {i} (HandlerStep.find_dead m o h c a) b = handler-Below b i _ (λ o f. cc)
HandlerStep-Below {s} {i} (HandlerStep.find_none m h c) b = handler-Below b i _ (λ o f. cc)
HandlerStep-Below {s} {i} (HandlerStep.append m o x h q) b = handler-Below b i _ (λ o f. cc)
HandlerStep-Below {s} {i} (HandlerStep.full m o h q) b = handler-Below b i _ (λ o f. cc)
HandlerStep-Below {s} {i} (HandlerStep.retry_fails h l) b = handler-Below b i _ (λ o f. cc)
HandlerStep-Below {s} {i} (HandlerStep.retry_locks h l) b =
    holder-Below (handler-Below b i _ (λ o f. cc)) _ (λ o w. cc)

HolderStep-Below : {s t : System} → HolderStep s t → BelowOf s → BelowOf t
HolderStep-Below (HolderStep.ensure p r h c) b = created-Below b _ (λ o w. cc)
HolderStep-Below (HolderStep.keep o h c) b = holder-Below b _ (λ o w. cc)
HolderStep-Below (HolderStep.reuse o h c a) b = holder-Below b _ (λ k w. b.entry k (ground arith))
HolderStep-Below (HolderStep.recycle o h c a) b = removed-Below b
HolderStep-Below {s} (HolderStep.spawn agent p r h c) b =
    created-Below b _ (works_on-started agent s.next)
HolderStep-Below {s} (HolderStep.spawn_adopting agent o p r h c a) b =
    created-Below b _ (works_on-started agent s.next)
HolderStep-Below (HolderStep.next_turn m o x h q) b = b
HolderStep-Below (HolderStep.fail o h) b = b
HolderStep-Below (HolderStep.pop m o x h q) b = holder-Below b _ (λ k w. b.held k (ground arith))
HolderStep-Below (HolderStep.deliver m o h a) b = holder-Below b _ (λ k w. b.held k (ground arith))
HolderStep-Below (HolderStep.give_up m o h a) b = holder-Below b _ (λ o w. cc)
HolderStep-Below (HolderStep.unlock o h q) b = holder-Below b _ (λ o w. cc)
HolderStep-Below (HolderStep.unlock_deferred h) b = holder-Below b _ (λ o w. cc)
HolderStep-Below (HolderStep.take_over o h c a) b =
    holder-Below b _ (λ k w. b.entry k (ground arith))
HolderStep-Below (HolderStep.take_over_dead o h c a) b = holder-Below b _ (λ o w. cc)
HolderStep-Below (HolderStep.take_over_none h c) b = holder-Below b _ (λ o w. cc)

CompressStep-Below : {s t : System} → CompressStep s t → BelowOf s → BelowOf t
CompressStep-Below (CompressStep.locks o h l) b = holder-Below b _ (λ k w. ground arith)
CompressStep-Below (CompressStep.drains o h) b = holder-Below b _ (λ k w. b.held k (ground arith))
CompressStep-Below (CompressStep.gives_up o h) b = holder-Below b _ (λ o w. cc)
CompressStep-Below (CompressStep.returns o h) b = holder-Below b _ (λ o w. cc)

OtherStep-Below : {s t : System} → OtherStep s t → BelowOf s → BelowOf t
OtherStep-Below (OtherStep.dies o l a) b = b
OtherStep-Below (OtherStep.reset_takes o c) b = b
OtherStep-Below (OtherStep.reset_notifies o l) b = b
OtherStep-Below OtherStep.reset_removes b = removed-Below b

pub Step-Below : {s t : System} → Step s t → BelowOf s → BelowOf t
Step-Below (handler i st) b = HandlerStep-Below st b
Step-Below (holder_moves st) b = HolderStep-Below st b
Step-Below (compresses st) b = CompressStep-Below st b
Step-Below (other st) b = OtherStep-Below st b

pub Reach-Below : {s : System} → Reach s → BelowOf s
Reach-Below initial = record { entry = λ o c. cc; held = λ o c. cc; finder = λ i o f. cc }
Reach-Below (later r st) = Step-Below st (Reach-Below r)
