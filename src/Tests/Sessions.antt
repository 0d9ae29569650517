-- ===== src/Tests/Sessions.antt =====
-- One session and its keys, on concrete inputs (core/session.go, core/engine.go).
use agent_in_chat_feishu.Shared.{
  ℕ, ◌≡◌, refl, true, false, List, [], ◌∷◌, String, contains, pos, eqb, if◌then◌else◌,
}
use agent_in_chat_feishu.Session.{Session, HistoryEntry, get_history, try_lock, unlock}
use agent_in_chat_feishu.Session
use agent_in_chat_feishu.Session.Ids
use agent_in_chat_feishu.Session.Ids.{knows, IdsAreClean}
use agent_in_chat_feishu.Session.Lock.{
  Shop, Exclusive, Reach, here, next, take, refuse, give_back, Proper, Reach-Exclusive,
}

abbrev said : String → ℕ → HistoryEntry
said content now = record { role = "user"; content = content; timestamp = now }

abbrev talk : Session
talk = record {
  id = "s1";
  name = "default";
  agent_session_id = "a1";
  agent_type = "codex";
  past_agent_session_ids = "a0" ∷ [];
  history = said "hello" 1 ∷ said "again" 2 ∷ said "bye" 3 ∷ [];
  created_at = 0;
  updated_at = 0;
  busy = false;
}

-- The user resets the conversation, and the agent starts two new ones.
abbrev resets : List Ids.Call
resets =
    Ids.locks
    ∷ Ids.sets_agent_session_id "" "codex"
    ∷ Ids.compares_and_sets "a2" "codex"
    ∷ Ids.sets_agent_info "__continue__" "codex" "new"
    ∷ Ids.unlocks 9
    ∷ []

resets_past : (Ids.run resets talk).past_agent_session_ids ≡ "a0" ∷ "a1" ∷ "a2" ∷ []
unfolding Ids.run Ids.apply try_lock Session.unlock Session.set_agent_session_id
    Session.set_agent_info Session.compare_and_set_agent_session_id
    Session.record_past_agent_session_id contains
resets_past = refl

knows-run_example : knows "a1" (Ids.run resets talk) ≡ true
knows-run_example = Ids.knows-run resets "a1" talk refl refl

talk-IdsAreClean : IdsAreClean talk
unfolding contains
talk-IdsAreClean = record {
  distinct = (refl, tt);
  no_sentinel = refl;
  no_past_sentinel = refl;
  no_past_empty = refl;
}

last_two : get_history (pos 2) talk ≡ said "again" 2 ∷ said "bye" 3 ∷ []
unfolding get_history
last_two = refl

abbrev shop : Shop
shop = record { session = talk; holders = λ w. false }

shop-Exclusive : Exclusive shop
shop-Exclusive = record { idle = λ e w. refl; single = λ v w hv hw. cc; held = λ e. absurd (cc e) }

-- Worker 1 takes the session, worker 2 is turned away, and worker 1 gives it back.
abbrev taken : Shop
taken = record {
  session = record talk { busy = true };
  holders = λ w. if eqb 1 w then true else false;
}

-- Worker 1 takes the session, and worker 2 is turned away.
taken-Reach : Reach shop taken
unfolding try_lock
taken-Reach = next (next here (take shop 1 refl)) (refuse taken 2 refl)

Reach-Exclusive_example : Exclusive taken
unfolding Proper try_lock taken-Reach
Reach-Exclusive_example = Reach-Exclusive shop-Exclusive taken-Reach tt

-- Worker 1 takes the session and gives it back, worker 2 takes it, worker 1 gives it back once
-- more, as after a compress of its own accord, and worker 3 takes it too.
given_back_twice : (q : Shop) × Reach shop q × (q.holders 2 ≡ true) × (q.holders 3 ≡ true)
unfolding try_lock unlock
given_back_twice = (
  _,
  next
      (next (next (next (next here (take shop 1 refl)) (give_back _ 1 5)) (take _ 2 refl))
        (give_back _ 1 6))
      (take _ 3 refl),
  refl,
  refl,
)
