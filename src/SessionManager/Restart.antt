-- ===== src/SessionManager/Restart.antt =====
-- Writing the state to disk and starting again from it (core/session.go).
use agent_in_chat_feishu.Shared.{◌≡◌, refl, ◌≢◌, true, false, [], ◌∷◌, eq_iff, arith}
use agent_in_chat_feishu.Shared.Dict.{Dict, update_all}
use agent_in_chat_feishu.Session.{Session, strip_continue_session_sentinel}
use agent_in_chat_feishu.SessionManager.Types.{SessionManager}
use agent_in_chat_feishu.SessionManager.Store.{
  strip_all, snap_sessions, save_locked, new_session_manager,
}

strip-idle_strip :
    (s : Session)
    → strip_continue_session_sentinel (record (strip_continue_session_sentinel s) { busy = false })
      ≡ record (strip_continue_session_sentinel s) { busy = false }
unfolding strip_continue_session_sentinel
strip-idle_strip s = ground arith

-- The copy on disk holds no sentinel, so that reading it strips nothing.
strip_all-snap :
    (d : Dict Session) → strip_all (snap_sessions (strip_all d)) ≡ snap_sessions (strip_all d)
unfolding update_all
strip_all-snap [] = refl
strip_all-snap ((k, s) ∷ d) = ground (arith, strip-idle_strip s, strip_all-snap d)

-- A manager that starts from the file of a save that could be written has the state that was
-- saved, sessions, lists, active sessions, names, metadata, counter and mode, with no session busy.
pub new_session_manager-save_locked :
    (m : SessionManager)
    → m.store_path ≢ ""
    → m.disk.writable ≡ true
    → let saved = save_locked m in
      new_session_manager m.store_path saved.disk
      ≡ record saved { sessions = snap_sessions saved.sessions }
unfolding new_session_manager save_locked
new_session_manager-save_locked m p w =
    ground (arith, eq_iff m.store_path "", strip_all-snap m.sessions)
