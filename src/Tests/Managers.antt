-- ===== src/Tests/Managers.antt =====
-- The SessionManager on concrete inputs (core/session.go).
use agent_in_chat_feishu.Shared.{◌≡◌, refl, true, false, List, [], ◌∷◌, eq_iff, arith, none, some}
use agent_in_chat_feishu.Shared.Dict.{lookup, insert, update_all, exists}
use agent_in_chat_feishu.Session
use agent_in_chat_feishu.Session.{Session}
use agent_in_chat_feishu.Session.Ids
use agent_in_chat_feishu.SessionManager.Types.{
  SessionManager, Disk, ids_of, session_id, next_counter,
}
use agent_in_chat_feishu.SessionManager.Store.{new_session_manager, save_locked, snap_sessions}
use agent_in_chat_feishu.SessionManager.Create
use agent_in_chat_feishu.SessionManager.Create.{
  new_side_session, switch_session, get_or_create_active, find_session,
}
use agent_in_chat_feishu.SessionManager.Delete.{
  delete_by_id, invalidate_for_agent, delete_by_agent_session_id,
}
use agent_in_chat_feishu.SessionManager.Invariant.{WellFormed}
use agent_in_chat_feishu.SessionManager.Deletion.{delete_by_id-removes}
use agent_in_chat_feishu.SessionManager.Calls.{
  Call, gets_or_creates, creates, creates_side, calls_session, apply, run,
}
use agent_in_chat_feishu.SessionManager.Reachable.{run-WellFormed, new_session_manager-WellFormed}
use agent_in_chat_feishu.SessionManager.AgentDelete.{count_of, delete_by_agent_session_id-exact}
use agent_in_chat_feishu.SessionManager.Restart.{new_session_manager-save_locked}
use agent_in_chat_feishu.SessionManager.Invalidation.{Invalidated, invalidate_for_agent-Invalidated}

abbrev no_disk : Disk
no_disk = record { file = none; writable = true }

start : SessionManager
start = new_session_manager "" no_disk

-- Ann talks, opens a second conversation, and a job runs on the side; the agent names one.
abbrev morning : List Call
morning =
    gets_or_creates "ann" 1
    ∷ creates "ann" "plans" 2
    ∷ creates_side "ann" "job" 3
    ∷ calls_session "s2" (Ids.compares_and_sets "a7" "codex")
    ∷ gets_or_creates "bob" 4
    ∷ []

office : SessionManager
unfolding start run apply get_or_create_active Create.new_session Create.create_locked
    Create.register new_side_session save_locked session_id next_counter new_session_manager lookup
    insert update_all exists Create.on_session Ids.apply Session.compare_and_set_agent_session_id
office = run morning start

office_ids :
    (ids_of "ann" office ≡ "s1" ∷ "s2" ∷ "s3" ∷ [])
    × (lookup "ann" office.active_session ≡ some "s2")
unfolding office
office_ids = (refl, refl)

office-WellFormed : WellFormed office
unfolding office
office-WellFormed =
    run-WellFormed morning start (new_session_manager-WellFormed no_disk) (omega arith)

run-WellFormed_example : WellFormed (run morning start)
unfolding start new_session_manager
run-WellFormed_example =
    run-WellFormed morning start (new_session_manager-WellFormed no_disk) (omega arith)

delete_by_id-removes_example : (delete_by_id "s2" office).1 ≡ true
unfolding office
delete_by_id-removes_example = (delete_by_id-removes "s2" office office-WellFormed refl).0

abbrev plans : Session
plans = record {
  id = "s2";
  name = "plans";
  agent_session_id = "a7";
  agent_type = "codex";
  past_agent_session_ids = [];
  history = [];
  created_at = 2;
  updated_at = 2;
  busy = false;
}

delete_by_agent_session_id-exact_example :
    (delete_by_agent_session_id "a7" office).1 ≡ count_of "a7" office.sessions
delete_by_agent_session_id-exact_example =
    (delete_by_agent_session_id-exact "a7" office office-WellFormed.sessions_map
      (ground (arith, eq_iff "a7" ""))).0

-- The same office, with a file that can be written.
abbrev kept_office : SessionManager
kept_office = record office { store_path = "sessions.json" }

new_session_manager-save_locked_example :
    new_session_manager "sessions.json" (save_locked kept_office).disk
    ≡ record (save_locked kept_office) {
      sessions = snap_sessions (save_locked kept_office).sessions;
    }
unfolding office
new_session_manager-save_locked_example =
    new_session_manager-save_locked kept_office (ground (arith, eq_iff "sessions.json" "")) refl

invalidate_for_agent-Invalidated_example :
    (t : Session) × (lookup "s2" (invalidate_for_agent "claudecode" office).sessions ≡ some t)
    × Invalidated "claudecode" plans t
unfolding office lookup
invalidate_for_agent-Invalidated_example =
    invalidate_for_agent-Invalidated "claudecode" "s2" plans office refl
