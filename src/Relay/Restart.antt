-- ===== src/Relay/Restart.antt =====
-- The file of the relay bindings (core/relay.go).
use Prim.Native.String
use text.Mathlib.TextLemmas.{append-eq-nil_iff}
use agent_in_chat_feishu.Shared.{
  ◌≡◌, refl, inl, inr, Bool, true, false, String, ◌==◌, eq_iff, Option, none, some, List, [], ◌∷◌,
  arith, Bool-cases, Option-cases, pos, negsuc, ◌∙◌,
}
use agent_in_chat_feishu.Shared.Dict.{Dict, lookup}
use agent_in_chat_feishu.Relay.{
  RelayBinding, RelayManager, load, new_relay_manager, save_locked, register_engine, set_timeout,
  bind, add_to_bind, remove_bot, remove_from_bind, unbind, Call, apply, run,
}

-- The bindings that a file holds.
abbrev pub stored : Option (Dict RelayBinding) → Dict RelayBinding
stored none = []
stored (some bindings) = bindings

-- The store can be written, and holds the bindings.
record IsSaved (rm : RelayManager) : Type 0 where
  pub named : (rm.store_path == "") ≡ false
  pub writes : rm.writable ≡ true
  pub holds : stored rm.file ≡ rm.bindings

-- Whatever the bindings are, saving them stores them.
save_locked-IsSaved :
    (rm : RelayManager)
    → (rm.store_path == "") ≡ false
    → rm.writable ≡ true
    → IsSaved (save_locked rm)
unfolding save_locked
save_locked-IsSaved rm n w = record {
  named = ground arith;
  writes = ground arith;
  holds = ground arith;
}

remove_bot-IsSaved :
    (chat_id project : String) (binding : RelayBinding) (rm : RelayManager)
    → IsSaved rm
    → IsSaved (remove_bot chat_id project binding rm).0
unfolding remove_bot
remove_bot-IsSaved chat_id project binding rm s =
    elim (Option-cases (lookup project binding.bots)) [
      | inl e ↦ rw e s
      | inr (name, e) ↦ rw e (save_locked-IsSaved _ s.named s.writes)
    ]

remove_from_bind-IsSaved :
    (chat_id project : String) (rm : RelayManager)
    → IsSaved rm
    → IsSaved (remove_from_bind chat_id project rm).0
unfolding remove_from_bind
remove_from_bind-IsSaved chat_id project rm s = elim (Option-cases (lookup chat_id rm.bindings)) [
  | inl e ↦ rw (remove_from_bind, e) s
  | inr (binding, e) ↦ rw (remove_from_bind, e) (remove_bot-IsSaved chat_id project binding rm s)
]

apply-IsSaved : (k : Call) (rm : RelayManager) → IsSaved rm → IsSaved (apply k rm)
unfolding apply register_engine set_timeout bind add_to_bind unbind
apply-IsSaved (Call.registers name) rm s = record {
  named = s.named;
  writes = s.writes;
  holds = s.holds;
}
apply-IsSaved (Call.sets_timeout (pos d)) rm s = record {
  named = s.named;
  writes = s.writes;
  holds = s.holds;
}
apply-IsSaved (Call.sets_timeout (negsuc d)) rm s = record {
  named = s.named;
  writes = s.writes;
  holds = s.holds;
}
apply-IsSaved (Call.binds platform chat_id bots) rm s = save_locked-IsSaved _ s.named s.writes
apply-IsSaved (Call.adds platform chat_id project) rm s = save_locked-IsSaved _ s.named s.writes
apply-IsSaved (Call.removes chat_id project) rm s = remove_from_bind-IsSaved chat_id project rm s
apply-IsSaved (Call.unbinds chat_id) rm s = save_locked-IsSaved _ s.named s.writes

run-IsSaved : (ks : List Call) (rm : RelayManager) → IsSaved rm → IsSaved (run ks rm)
unfolding run
run-IsSaved [] rm s = s
run-IsSaved (k ∷ ks) rm s = run-IsSaved ks (apply k rm) (apply-IsSaved k rm s)

file_name : (dir : String) → (String.◌++◌ dir "/relay_bindings.json" == "") ≡ false
file_name dir = elim (Bool-cases (String.◌++◌ dir "/relay_bindings.json" == "")) [
  | inr e ↦ e
  | inl e ↦
      let both = append-eq-nil_iff.0 ((eq_iff (String.◌++◌ dir "/relay_bindings.json") "").0 e) in
      absurd (ground (arith, eq_iff "/relay_bindings.json" ""))
]

new_relay_manager-stored :
    (dir : String) (file : Option (Dict RelayBinding)) (writable : Bool)
    → (dir == "") ≡ false
    → (new_relay_manager dir file writable).bindings ≡ stored file
unfolding new_relay_manager load
new_relay_manager-stored dir none writable d = rw (d, file_name dir) refl
new_relay_manager-stored dir (some bindings) writable d = rw (d, file_name dir) refl

new_relay_manager-IsSaved :
    (dir : String) (file : Option (Dict RelayBinding))
    → (dir == "") ≡ false
    → IsSaved (new_relay_manager dir file true)
unfolding new_relay_manager load
new_relay_manager-IsSaved dir none d =
    rw (d, file_name dir) (record { named = file_name dir; writes = refl; holds = refl })
new_relay_manager-IsSaved dir (some bindings) d =
    rw (d, file_name dir) (record { named = file_name dir; writes = refl; holds = refl })

-- With a directory and writes that succeed: after any series of calls, a manager that starts from
-- the file has the bindings that the first one had.
pub new_relay_manager-run :
    (dir : String) (file : Option (Dict RelayBinding)) (ks : List Call)
    → (dir == "") ≡ false
    → (new_relay_manager dir (run ks (new_relay_manager dir file true)).file true).bindings
      ≡ (run ks (new_relay_manager dir file true)).bindings
new_relay_manager-run dir file ks d =
    let last = run ks (new_relay_manager dir file true) in
    new_relay_manager-stored dir last.file true d
    ∙ (run-IsSaved ks (new_relay_manager dir file true)
        (new_relay_manager-IsSaved dir file d)).holds
