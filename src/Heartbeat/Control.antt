-- ===== src/Heartbeat/Control.antt =====
-- The tickers of the entries (core/heartbeat.go).
use mathlib.Core.Option
use agent_in_chat_feishu.Shared.{
  ◌≡◌, ◌≢◌, Bool, true, false, not, ◌&&◌, String, Option, none, some, List, [], ◌∷◌,
}
use agent_in_chat_feishu.Shared.Dict.{Dict, lookup}
use agent_in_chat_feishu.Heartbeat.{Ticker, HeartbeatEntry, HeartbeatScheduler, Call}

-- A ticker was made, and an entry that is neither stopped nor paused ticks with its interval.
abbrev pub Ticks : HeartbeatEntry → Type 0
Ticks e =
    (e.ticker ≢ Ticker.not_made)
    × (e.stopped ≡ false → e.paused ≡ false → e.ticker ≡ Ticker.ticking e.config.interval_mins)

abbrev pub TicksIf : Option HeartbeatEntry → Type 0
TicksIf none = Unit {0}
TicksIf (some e) = Ticks e

abbrev pub AllTick : HeartbeatScheduler → Type 0
AllTick hs = (project : String) → TicksIf (lookup project hs.entries)

abbrev pub registers_one : Call → Bool
registers_one (Call.registers project cfg work_dir) = true
registers_one c = false

-- No project is registered.
abbrev pub none_registers : List Call → Bool
none_registers [] = true
none_registers (c ∷ cs) = not (registers_one c) && none_registers cs
