-- ===== src/Tests/Relays.antt =====
-- Bots of a group chat and periodic prompts on concrete inputs.
use agent_in_chat_feishu.Shared.{
  ℕ, ◌*◌, ◌≤◌, ◌≡◌, refl, true, false, String, eq_iff, none, some, List, [], ◌∷◌, arith, pos,
}
use agent_in_chat_feishu.Shared.Dict.{lookup}
use agent_in_chat_feishu.SessionKey
use agent_in_chat_feishu.Relay
use agent_in_chat_feishu.Relay.{
  RelayManager, RelayRequest, SendError, Sent, Handler, new_relay_manager, parse_session_key_parts,
}
use agent_in_chat_feishu.Relay.Bindings.{bot_in, view_run, bot_in-run}
use agent_in_chat_feishu.Relay.Restart.{new_relay_manager-run}
use agent_in_chat_feishu.Relay.Sending.{got_out, allowed, send-got_out}
use agent_in_chat_feishu.Heartbeat
use agent_in_chat_feishu.Heartbeat.{
  HeartbeatConfig, HeartbeatEntry, HeartbeatScheduler, new_heartbeat_scheduler, persist_locked,
  new_entry, chosen_prompt,
}
use agent_in_chat_feishu.OutgoingRateLimiter.{
  unit, OutgoingRateLimitCfg, new_outgoing_rate_limiter, cfg_for, passed,
}
use agent_in_chat_feishu.OutgoingRateLimiter
use agent_in_chat_feishu.OutgoingRateLimiter.Budget.{allowance, passed-run}
use agent_in_chat_feishu.OutgoingRateLimiter.Waited.{one_passes}
use agent_in_chat_feishu.Heartbeat.Restart.{restarted, Overrides, register-persist_locked}

abbrev linking : List Relay.Call
linking =
    Relay.Call.registers "api"
    ∷ Relay.Call.adds "feishu" "oc_1" "web"
    ∷ Relay.Call.adds "feishu" "oc_1" "api"
    ∷ Relay.Call.removes "oc_1" "web"
    ∷ []

abbrev relays : RelayManager
relays = Relay.run linking (new_relay_manager "/data" none true)

abbrev request : RelayRequest
request = record { from = "web"; to = "api"; session_key = "feishu:oc_1:ou_1"; message = "hi" }

abbrev echo : Handler
echo to from chat_id message = some message

relay_key : parse_session_key_parts "relay:web:oc_1" ≡ some ("relay", "oc_1")
unfolding parse_session_key_parts Relay.key_parts SessionKey.split_n SessionKey.cut_colon
relay_key = refl

bot_in-run_example :
    bot_in relays "oc_1" "web"
    ≡ view_run linking (bot_in (new_relay_manager "/data" none true)) "oc_1" "web"
bot_in-run_example = bot_in-run linking (new_relay_manager "/data" none true) "oc_1" "web"

new_relay_manager-run_example :
    (new_relay_manager "/data" relays.file true).bindings ≡ relays.bindings
new_relay_manager-run_example =
    new_relay_manager-run "/data" none linking (ground (arith, eq_iff "/data" ""))

send-got_out_example :
    got_out (Relay.send echo request relays)
    ≡ allowed relays request (parse_session_key_parts "feishu:oc_1:ou_1")
send-got_out_example = send-got_out echo request relays

abbrev hourly : HeartbeatConfig
hourly = record {
  enabled = true;
  interval_mins = pos 60;
  only_when_idle = true;
  session_key = "feishu:oc_1:ou_1";
  prompt = "";
  silent = false;
  timeout_mins = pos 0;
}

abbrev before_start : List Heartbeat.Call
before_start = Heartbeat.Call.registers "web" hourly "/srv" ∷ []

abbrev after_start : List Heartbeat.Call
after_start =
    Heartbeat.Call.pauses "web"
    ∷ Heartbeat.Call.sets_interval "web" (pos 5)
    ∷ Heartbeat.Call.resumes "web"
    ∷ []

default_prompt_chosen : chosen_prompt "" "" "All well?" ≡ "All well?"
unfolding chosen_prompt
default_prompt_chosen = refl

-- The project is paused and its interval was changed.
abbrev overridden : HeartbeatEntry
unfolding new_entry
overridden = record (new_entry "web" hourly "/srv") {
  paused = true;
  config = record hourly { interval_mins = pos 5 };
}

abbrev saved : HeartbeatScheduler
unfolding new_heartbeat_scheduler
saved = record (new_heartbeat_scheduler "/data" none true) { entries = ("web", overridden) ∷ [] }

register-persist_locked_example :
    (r : HeartbeatEntry) × (lookup "web"
        (Heartbeat.register "web" hourly "/srv" (restarted "/data" saved)).entries
      ≡ some r)
    × Overrides overridden r
unfolding new_heartbeat_scheduler new_entry lookup
register-persist_locked_example =
    register-persist_locked "web" "/data" "/srv" hourly saved overridden (refl, tt) refl refl refl
      refl refl refl refl

-- A message in a second, two at once.
abbrev slow : OutgoingRateLimitCfg
slow = record { max_per_second = 1000; burst = 2 }

abbrev sends : List (String × ℕ)
sends = ("feishu", 5) ∷ ("slack", 6) ∷ ("feishu", 7) ∷ ("feishu", 8) ∷ []

passed-run_example :
    (passed "feishu" sends
          (OutgoingRateLimiter.run (("feishu", 1) ∷ []) (new_outgoing_rate_limiter slow []))
        * unit
      ≤ allowance "feishu" 5 (cfg_for "feishu" (new_outgoing_rate_limiter slow [])))
    × (one_passes "feishu" 3 1000000000
          (OutgoingRateLimiter.run (("feishu", 1) ∷ []) (new_outgoing_rate_limiter slow []))
        ≡ true)
unfolding new_outgoing_rate_limiter cfg_for lookup
passed-run_example =
    passed-run "feishu" slow [] (("feishu", 1) ∷ []) sends 5 10 3 1000000000 refl (ground arith)
      (ground arith) (omega arith)
