-- ===== src/Heartbeat.antt =====
-- Periodic prompts of projects (core/heartbeat.go, `HeartbeatScheduler`). A method holds the lock
-- and is one step; the ticks, the run of a prompt and its error are arguments. `file` is the
-- content of the state file, none where it is missing or not JSON.
pub mod Restart
pub mod Control
use agent_in_chat_feishu.Unicode.{Unicode}
use agent_in_chat_feishu.Shared.{
  ℕ, ◌+◌, Bool, true, false, not, ◌&&◌, ◌||◌, String, ◌==◌, Option, none, some, List, [], ◌∷◌, ℤ,
  pos, negsuc, eqb, ltb, if◌then◌else◌, is_some,
}
use agent_in_chat_feishu.Shared.Dict.{Dict, lookup, insert, update_all}
use Prim.Native.String

pub record HeartbeatConfig : Type 0 where
  pub enabled : Bool
  pub interval_mins : ℤ
  pub only_when_idle : Bool
  pub session_key : String
  pub prompt : String
  pub silent : Bool
  pub timeout_mins : ℤ

pub record HeartbeatPersisted : Type 0 where
  pub paused : Bool
  pub interval_mins : ℤ

-- A ticker that was not made, that ticks with an interval in minutes, or that was stopped.
pub data Ticker : Type 0 where
  not_made : Ticker
  ticking : ℤ → Ticker
  halted : Ticker

pub record HeartbeatEntry : Type 0 where
  pub project : String
  pub config : HeartbeatConfig
  pub work_dir : String
  pub ticker : Ticker
  pub stopped : Bool
  pub paused : Bool
  pub orig_interval_mins : ℤ
  pub run_count : ℕ
  pub error_count : ℕ
  pub skipped_busy : ℕ
  pub last_run : Option ℕ
  pub last_error : String

pub record HeartbeatScheduler : Type 0 where
  pub entries : Dict HeartbeatEntry
  pub stopped : Bool
  pub state_file : String
  pub file : Option (Dict HeartbeatPersisted)
  pub writable : Bool

pub record HeartbeatStatus : Type 0 where
  pub enabled : Bool
  pub paused : Bool
  pub interval_mins : ℤ
  pub only_when_idle : Bool
  pub session_key : String
  pub silent : Bool
  pub run_count : ℕ
  pub error_count : ℕ
  pub skipped_busy : ℕ
  pub last_run : Option ℕ
  pub last_error : String

abbrev pub is_positive : ℤ → Bool
is_positive (pos n) = ltb 0 n
is_positive (negsuc n) = false

unfoldable pub same_int : ℤ → ℤ → Bool
same_int (pos a) (pos b) = eqb a b
same_int (negsuc a) (negsuc b) = eqb a b
same_int _ _ = false

unfoldable pub new_heartbeat_scheduler :
    String → Option (Dict HeartbeatPersisted) → Bool → HeartbeatScheduler
new_heartbeat_scheduler data_dir file writable = record {
  entries = [];
  stopped = false;
  state_file = if data_dir == "" then "" else String.◌++◌ data_dir "/heartbeat_state.json";
  file = file;
  writable = writable;
}

unfoldable pub load_project_state : String → HeartbeatScheduler → Option HeartbeatPersisted
load_project_state project hs =
    if hs.state_file == ""
    then none
    else elim hs.file [ none ↦ none | some states ↦ lookup project states ]

abbrev pub or_default : ℤ → ℤ
or_default n = if is_positive n then n else pos 30

-- The config with its defaults.
unfoldable pub with_defaults : HeartbeatConfig → HeartbeatConfig
with_defaults cfg = record cfg {
  interval_mins = or_default cfg.interval_mins;
  timeout_mins = or_default cfg.timeout_mins;
}

-- The overrides of the file.
unfoldable pub restore : Option HeartbeatPersisted → HeartbeatEntry → HeartbeatEntry
restore none entry = entry
restore (some saved) entry = record entry {
  paused = saved.paused;
  config = record entry.config {
    interval_mins =
        if is_positive saved.interval_mins then saved.interval_mins else entry.config.interval_mins;
  };
}

unfoldable pub new_entry : String → HeartbeatConfig → String → HeartbeatEntry
new_entry project cfg work_dir = record {
  project = project;
  config = cfg;
  work_dir = work_dir;
  ticker = Ticker.not_made;
  stopped = false;
  paused = false;
  orig_interval_mins = cfg.interval_mins;
  run_count = 0;
  error_count = 0;
  skipped_busy = 0;
  last_run = none;
  last_error = "";
}

unfoldable pub register :
    String → HeartbeatConfig → String → HeartbeatScheduler → HeartbeatScheduler
register project cfg work_dir hs =
    if not cfg.enabled || cfg.session_key == "" then hs else record hs {
      entries =
          insert project
            (restore (load_project_state project hs)
              (new_entry project (with_defaults cfg) work_dir))
            hs.entries;
    }

unfoldable pub start_entry : HeartbeatEntry → HeartbeatEntry
start_entry entry = record entry { ticker = Ticker.ticking entry.config.interval_mins }

unfoldable pub start : HeartbeatScheduler → HeartbeatScheduler
start hs = record hs { entries = update_all (λ project entry. start_entry entry) hs.entries }

unfoldable pub stop_ticker : Ticker → Ticker
stop_ticker Ticker.not_made = Ticker.not_made
stop_ticker _ = Ticker.halted

unfoldable pub reset_ticker : ℤ → Ticker → Ticker
reset_ticker interval Ticker.not_made = Ticker.not_made
reset_ticker interval _ = Ticker.ticking interval

unfoldable pub stop : HeartbeatScheduler → HeartbeatScheduler
stop hs = if hs.stopped then hs else record hs {
  stopped = true;
  entries =
      update_all
        (λ project entry. record entry { ticker = stop_ticker entry.ticker; stopped = true })
        hs.entries;
}

unfoldable pub status_of : HeartbeatEntry → HeartbeatStatus
status_of entry = record {
  enabled = entry.config.enabled;
  paused = entry.paused;
  interval_mins = entry.config.interval_mins;
  only_when_idle = entry.config.only_when_idle;
  session_key = entry.config.session_key;
  silent = entry.config.silent;
  run_count = entry.run_count;
  error_count = entry.error_count;
  skipped_busy = entry.skipped_busy;
  last_run = entry.last_run;
  last_error = entry.last_error;
}

unfoldable pub status : String → HeartbeatScheduler → Option HeartbeatStatus
status project hs = elim (lookup project hs.entries) [
  | none ↦ none
  | some entry ↦ some (status_of entry)
]

-- What is saved for an entry: its pause, and its interval if that is not the configured one.
unfoldable pub persisted_of : HeartbeatEntry → HeartbeatPersisted
persisted_of entry = record {
  paused = entry.paused;
  interval_mins =
      if same_int entry.config.interval_mins entry.orig_interval_mins
      then pos 0
      else entry.config.interval_mins;
}

abbrev pub needs_save : HeartbeatPersisted → Bool
needs_save p = p.paused || is_positive p.interval_mins

unfoldable pub states_of : Dict HeartbeatEntry → Dict HeartbeatPersisted
states_of [] = []
states_of ((name, entry) ∷ rest) =
    let others = states_of rest in
    if needs_save (persisted_of entry) then (name, persisted_of entry) ∷ others else others

abbrev pub file_of : Dict HeartbeatPersisted → Option (Dict HeartbeatPersisted)
file_of [] = none
file_of (s ∷ ss) = some (s ∷ ss)

unfoldable pub persist_locked : HeartbeatScheduler → HeartbeatScheduler
persist_locked hs =
    if hs.state_file == ""
    then hs
    else if hs.writable
    then record hs { file = file_of (states_of hs.entries) }
    else hs

abbrev pub put : String → HeartbeatEntry → HeartbeatScheduler → HeartbeatScheduler
put project entry hs = record hs { entries = insert project entry hs.entries }

unfoldable pub pause_entry :
    String → HeartbeatEntry → HeartbeatScheduler → HeartbeatScheduler × Bool
pause_entry project entry hs = if entry.paused then (hs, true) else (
  persist_locked
      (put project (record entry { paused = true; ticker = stop_ticker entry.ticker }) hs),
  true,
)

unfoldable pub pause : String → HeartbeatScheduler → HeartbeatScheduler × Bool
pause project hs = elim (lookup project hs.entries) [
  | none ↦ (hs, false)
  | some entry ↦ pause_entry project entry hs
]

unfoldable pub resume_entry :
    String → HeartbeatEntry → HeartbeatScheduler → HeartbeatScheduler × Bool
resume_entry project entry hs = if not entry.paused then (hs, true) else (
  persist_locked (
      put project
        (record entry {
          paused = false;
          ticker = reset_ticker entry.config.interval_mins entry.ticker;
        })
        hs),
  true,
)

unfoldable pub resume : String → HeartbeatScheduler → HeartbeatScheduler × Bool
resume project hs = elim (lookup project hs.entries) [
  | none ↦ (hs, false)
  | some entry ↦ resume_entry project entry hs
]

unfoldable pub set_entry_interval : ℤ → HeartbeatEntry → HeartbeatEntry
set_entry_interval mins entry = record entry {
  config = record entry.config { interval_mins = mins };
  ticker = if entry.paused then entry.ticker else reset_ticker mins entry.ticker;
}

unfoldable pub set_interval : String → ℤ → HeartbeatScheduler → HeartbeatScheduler × Bool
set_interval project mins hs =
    if not (is_positive mins) then (hs, false) else elim (lookup project hs.entries) [
      | none ↦ (hs, false)
      | some entry ↦ (persist_locked (put project (set_entry_interval mins entry) hs), true)
    ]

-- `TriggerNow` starts a run of the project's entry, which is a call of its own below.
unfoldable pub trigger_now : String → HeartbeatScheduler → Bool
trigger_now project hs = is_some (lookup project hs.entries)

-- The prompt that is run: the configured one, the text of `HEARTBEAT.md` or `heartbeat.md`, or a
-- default.
unfoldable pub chosen_prompt : String → String → String → String
chosen_prompt prompt file_text default_prompt =
    if not (prompt == "")
    then prompt
    else if not (file_text == "")
    then file_text
    else default_prompt

-- The end of a run, with its error if there was one.
unfoldable pub record_run : ℕ → Option String → HeartbeatEntry → HeartbeatEntry
record_run now none entry = record entry {
  run_count = entry.run_count + 1;
  last_run = some now;
  last_error = "";
}
record_run now (some err) entry = record entry {
  run_count = entry.run_count + 1;
  last_run = some now;
  error_count = entry.error_count + 1;
  last_error = err;
}

-- `execute`, for a session that is busy or not.
unfoldable pub execute : Bool → ℕ → Option String → HeartbeatEntry → HeartbeatEntry
execute busy now err entry =
    if entry.config.only_when_idle && busy
    then record entry { skipped_busy = entry.skipped_busy + 1 }
    else record_run now err entry

-- The methods that change the scheduler, and the end of an `execute`.
pub data Call : Type 0 where
  registers : String → HeartbeatConfig → String → Call
  starts stops : Call
  pauses resumes : String → Call
  sets_interval : String → ℤ → Call
  executes : String → Bool → ℕ → Option String → Call

unfoldable pub apply : Call → HeartbeatScheduler → HeartbeatScheduler
apply (Call.registers project cfg work_dir) hs = register project cfg work_dir hs
apply Call.starts hs = start hs
apply Call.stops hs = stop hs
apply (Call.pauses project) hs = (pause project hs).0
apply (Call.resumes project) hs = (resume project hs).0
apply (Call.sets_interval project mins) hs = (set_interval project mins hs).0
apply (Call.executes project busy now err) hs = elim (lookup project hs.entries) [
  | none ↦ hs
  | some entry ↦ put project (execute busy now err entry) hs
]

unfoldable pub run : List Call → HeartbeatScheduler → HeartbeatScheduler
run [] hs = hs
run (c ∷ cs) hs = run cs (apply c hs)
