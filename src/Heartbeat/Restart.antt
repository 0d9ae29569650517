-- ===== src/Heartbeat/Restart.antt =====
-- The overrides that survive a restart (core/heartbeat.go).
use mathlib.Core.Option
use agent_in_chat_feishu.Shared.{
  ◌≡◌, ◌∙◌, refl, true, false, String, ◌==◌, eq_iff, eq_refl, Option, none, some, [], ◌∷◌, arith, ℤ,
  pos, negsuc,
}
use agent_in_chat_feishu.Shared.Dict.{Dict, lookup, IsMap, keep_if, lookup-insert}
use agent_in_chat_feishu.Heartbeat.{
  HeartbeatConfig, HeartbeatPersisted, HeartbeatEntry, HeartbeatScheduler, with_defaults,
  or_default, restore, new_entry, register, load_project_state, persist_locked, persisted_of,
  needs_save, states_of, file_of, is_positive, same_int, new_heartbeat_scheduler,
}

lookup-states_of :
    (k : String) (entries : Dict HeartbeatEntry)
    → IsMap entries
    → lookup k (states_of entries) ≡ keep_if needs_save (Option.map persisted_of (lookup k entries))
unfolding lookup states_of
lookup-states_of k [] m = refl
lookup-states_of k ((j, e) ∷ rest) m = ground (arith, eq_iff j k, lookup-states_of k rest m.1)

same_int-eq : (a b : ℤ) → same_int a b ≡ true → a ≡ b
unfolding same_int
same_int-eq (pos a) (pos b) h = ground arith
same_int-eq (negsuc a) (negsuc b) h = ground arith
same_int-eq (pos a) (negsuc b) h = cc
same_int-eq (negsuc a) (pos b) h = cc

-- The file that was written is read back, entry by entry.
loaded_back :
    (k : String) (states : Dict HeartbeatPersisted)
    → (elim (file_of states) as (λ o. Option HeartbeatPersisted) [
      | none ↦ none
      | some read ↦ lookup k read
    ])
      ≡ lookup k states
unfolding lookup
loaded_back k [] = refl
loaded_back k (s ∷ ss) = refl

-- The overrides of an entry.
abbrev pub Overrides : HeartbeatEntry → HeartbeatEntry → Type 0
Overrides e r = (r.paused ≡ e.paused) × (r.config.interval_mins ≡ e.config.interval_mins)

restored :
    (e r : HeartbeatEntry)
    → is_positive e.config.interval_mins ≡ true
    → r.paused ≡ false
    → r.config.interval_mins ≡ e.orig_interval_mins
    → Overrides e (restore (keep_if needs_save (some (persisted_of e))) r)
unfolding restore persisted_of
restored e r p un orig = ground (arith, same_int-eq e.config.interval_mins e.orig_interval_mins)

-- A new scheduler with the file that was saved.
abbrev pub restarted : String → HeartbeatScheduler → HeartbeatScheduler
restarted dir hs = record (new_heartbeat_scheduler dir (persist_locked hs).file true) {
  state_file = hs.state_file;
}

load_project_state-restarted :
    (project dir : String) (hs : HeartbeatScheduler)
    → (hs.state_file == "") ≡ false
    → hs.writable ≡ true
    → load_project_state project (restarted dir hs) ≡ lookup project (states_of hs.entries)
unfolding load_project_state new_heartbeat_scheduler persist_locked
load_project_state-restarted project dir hs named writes =
    rw (named, writes) (loaded_back project (states_of hs.entries))

registered :
    (project work_dir : String) (cfg : HeartbeatConfig) (hs : HeartbeatScheduler)
    → cfg.enabled ≡ true
    → (cfg.session_key == "") ≡ false
    → lookup project (register project cfg work_dir hs).entries
      ≡ some
          (restore (load_project_state project hs) (new_entry project (with_defaults cfg) work_dir))
unfolding register
registered project work_dir cfg hs enabled keyed =
    rw (enabled, keyed, lookup-insert project project _ hs.entries, eq_refl project) refl

-- Where the state file is named and can be written: once it is saved, a new scheduler that
-- registers the project, with the interval that it was configured with, has the project paused or
-- not as before, and with the interval that it was set to.
pub register-persist_locked :
    (project dir work_dir : String) (cfg : HeartbeatConfig) (hs : HeartbeatScheduler)
    (e : HeartbeatEntry)
    → IsMap hs.entries
    → (hs.state_file == "") ≡ false
    → hs.writable ≡ true
    → lookup project hs.entries ≡ some e
    → is_positive e.config.interval_mins ≡ true
    → cfg.enabled ≡ true
    → (cfg.session_key == "") ≡ false
    → or_default cfg.interval_mins ≡ e.orig_interval_mins
    → (r : HeartbeatEntry) × (lookup project
          (register project cfg work_dir (restarted dir hs)).entries
        ≡ some r)
      × Overrides e r
unfolding with_defaults new_entry
register-persist_locked project dir work_dir cfg hs e m named writes h p enabled keyed orig =
    let fresh = new_entry project (with_defaults cfg) work_dir in
    let saved = keep_if needs_save (some (persisted_of e)) in
    let found : lookup project (states_of hs.entries) ≡ saved =
      lookup-states_of project hs.entries m ∙ rw h refl in
    (
      restore saved fresh,
      registered project work_dir cfg (restarted dir hs) enabled keyed
          ∙ rw (load_project_state-restarted project dir hs named writes, found) refl,
      restored e fresh p refl orig,
    )
