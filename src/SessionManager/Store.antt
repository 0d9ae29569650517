-- ===== src/SessionManager/Store.antt =====
-- `saveLocked`, `load` and `NewSessionManager` of core/session.go.
use agent_in_chat_feishu.Shared.{
  Bool, true, false, ◌&&◌, List, [], ◌∷◌, String, ◌==◌, none, some, leb, if◌then◌else◌,
}
use agent_in_chat_feishu.Shared.Dict.{Dict, update_all, exists}
use agent_in_chat_feishu.Session.{Session, strip_continue_session_sentinel}
use agent_in_chat_feishu.SessionManager.Types.{
  SessionSnapshot, Disk, SessionManager, snapshot_version,
}

abbrev pub is_empty : List String → Bool
is_empty [] = true
is_empty (x ∷ xs) = false

-- The session has no tracked ID, neither a current nor a past one.
abbrev pub is_untracked : String → Session → Bool
is_untracked k s = s.agent_session_id == "" && is_empty s.past_agent_session_ids

abbrev pub strip_all : Dict Session → Dict Session
strip_all = update_all (λ k. strip_continue_session_sentinel)

-- The copy that goes to disk: `busy` is not part of it.
abbrev pub snap_sessions : Dict Session → Dict Session
snap_sessions = update_all (λ k s. record s { busy = false })

abbrev pub write : SessionSnapshot → Disk → Disk
write snap d = if d.writable then record d { file = some snap } else d

unfoldable pub snapshot_of : SessionManager → SessionSnapshot
snapshot_of m = record {
  sessions = snap_sessions m.sessions;
  active_session = m.active_session;
  user_sessions = m.user_sessions;
  counter = m.counter;
  session_names = m.session_names;
  user_meta = m.user_meta;
  past_id_tracking = true;
  legacy_data = m.legacy_data;
  version = snapshot_version;
}

-- The state after the strip of the sentinel and the check of `legacyData`, before the write.
unfoldable pub settle : SessionManager → SessionManager
settle m =
    let stripped = strip_all m.sessions in
    record m { sessions = stripped; legacy_data = m.legacy_data && exists is_untracked stripped }

unfoldable pub save_locked : SessionManager → SessionManager
unfolding settle snapshot_of
save_locked m =
    if m.store_path == ""
    then m
    else let m' = settle m in record m' { disk = write (snapshot_of m') m'.disk }

abbrev pub legacy_of : SessionSnapshot → Bool
legacy_of snap =
    if leb snapshot_version snap.version
    then snap.legacy_data
    else if snap.past_id_tracking
    then exists is_untracked snap.sessions
    else true

load_snapshot : SessionSnapshot → SessionManager → SessionManager
load_snapshot snap m = record m {
  sessions = strip_all snap.sessions;
  active_session = snap.active_session;
  user_sessions = snap.user_sessions;
  session_names = snap.session_names;
  user_meta = snap.user_meta;
  counter = snap.counter;
  legacy_data = legacy_of snap;
}

unfoldable pub load : SessionManager → SessionManager
unfolding load_snapshot
load m = elim m.disk.file [ none ↦ m | some snap ↦ load_snapshot snap m ]

abbrev empty_manager : String → Disk → SessionManager
empty_manager store_path disk = record {
  sessions = [];
  active_session = [];
  user_sessions = [];
  session_names = [];
  user_meta = [];
  counter = 0;
  store_path = store_path;
  legacy_data = false;
  disk = disk;
}

unfoldable pub new_session_manager : String → Disk → SessionManager
unfolding load
new_session_manager store_path disk =
    let m = empty_manager store_path disk in if store_path == "" then m else load m
