-- ===== src/SessionManager/Delete.antt =====
-- The methods of core/session.go that delete sessions or invalidate their agent session IDs.
use agent_in_chat_feishu.Shared.{
  ℕ, suc, Bool, true, false, not, ◌&&◌, List, [], ◌∷◌, String, ◌==◌, ltb, if◌then◌else◌,
  remove_first, Option, none, some,
}
use agent_in_chat_feishu.Shared.Dict.{Dict, lookup, delete, update_all, has, exists}
use agent_in_chat_feishu.Session.{Session, record_past_agent_session_id}
use agent_in_chat_feishu.SessionManager.Types.{SessionManager}
use agent_in_chat_feishu.SessionManager.Store.{save_locked}

abbrev pub points_to : String → Option String → Bool
points_to id none = id == ""
points_to id (some sid) = sid == id

-- The part of the loop over `userSessions` that clears active entries. A missing entry reads as
-- the empty text there, and deleting it changes nothing.
unfoldable pub clear_active : String → Dict (List String) → Dict String → Dict String
clear_active id [] active = active
clear_active id ((user_key, ids) ∷ rest) active =
    clear_active id rest
      (if points_to id (lookup user_key active) then delete user_key active else active)

unfoldable pub delete_by_id_locked : String → SessionManager → SessionManager
delete_by_id_locked id m = record m {
  sessions = delete id m.sessions;
  user_sessions = update_all (λ k. remove_first id) m.user_sessions;
  active_session = clear_active id m.user_sessions m.active_session;
}

unfoldable pub delete_by_id : String → SessionManager → SessionManager × Bool
delete_by_id id m =
    if has id m.sessions then (save_locked (delete_by_id_locked id m), true) else (m, false)

-- The loop of `DeleteByAgentSessionID` over the entries that the map has at its start.
unfoldable pub delete_matching : String → Dict Session → ℕ → SessionManager → SessionManager × ℕ
delete_matching agent_session_id [] removed m = (m, removed)
delete_matching agent_session_id ((id, s) ∷ rest) removed m =
    let matched = s.agent_session_id == agent_session_id in
    delete_matching agent_session_id rest (if matched then suc removed else removed)
      (if matched then delete_by_id_locked id m else m)

unfoldable pub delete_by_agent_session_id : String → SessionManager → SessionManager × ℕ
delete_by_agent_session_id agent_session_id m =
    if agent_session_id == ""
    then (m, 0)
    else (let (m', removed) = delete_matching agent_session_id m.sessions 0 m in
        (if ltb 0 removed then save_locked m' else m', removed))

-- The session has an ID of another agent.
abbrev pub is_stale : String → Session → Bool
is_stale agent_type s =
    not (s.agent_session_id == "") && not (s.agent_type == "") && not (s.agent_type == agent_type)

unfoldable pub invalidate : String → Session → Session
invalidate agent_type s =
    if is_stale agent_type s
    then record (record_past_agent_session_id s) { agent_session_id = ""; agent_type = agent_type }
    else s

-- `invalidated` is above zero if some session is stale.
unfoldable pub invalidate_for_agent : String → SessionManager → SessionManager
invalidate_for_agent agent_type m =
    let m' = record m { sessions = update_all (λ k. invalidate agent_type) m.sessions } in
    if exists (λ k. is_stale agent_type) m.sessions then save_locked m' else m'
