-- ===== src/SessionManager/Query.antt =====
-- The methods of core/session.go that read sessions, names, metadata and known IDs, and the two
-- that set names and metadata. A Go set of texts is a list, asked by `contains` only.
use agent_in_chat_feishu.Shared.{
  ◌&&◌, List, [], ◌∷◌, ◌++◌, String, ◌==◌, Option, none, some, if◌then◌else◌,
}
use agent_in_chat_feishu.Shared.Dict.{Dict, lookup, insert, delete}
use agent_in_chat_feishu.SessionKey.{extract_workspace_channel_key}
use agent_in_chat_feishu.Session.{Session}
use agent_in_chat_feishu.SessionManager.Types.{SessionManager, UserMeta, ids_of}
use agent_in_chat_feishu.SessionManager.Store.{save_locked}

abbrev pub or_blank : Option String → String
or_blank none = ""
or_blank (some s) = s

-- The sessions of the listed keys that are in the map.
unfoldable pub sessions_of : Dict Session → List String → List Session
sessions_of sessions [] = []
sessions_of sessions (sid ∷ sids) =
    let rest = sessions_of sessions sids in
    elim (lookup sid sessions) [ none ↦ rest | some s ↦ s ∷ rest ]

unfoldable pub list_sessions : String → SessionManager → List Session
list_sessions user_key m = sessions_of m.sessions (ids_of user_key m)

unfoldable pub active_session_id : String → SessionManager → String
active_session_id user_key m = or_blank (lookup user_key m.active_session)

unfoldable pub find_by_id : String → SessionManager → Option Session
find_by_id id m = lookup id m.sessions

unfoldable pub all_sessions : Dict Session → List Session
all_sessions [] = []
all_sessions ((k, s) ∷ m) = s ∷ all_sessions m

unfoldable pub set_session_name : String → String → SessionManager → SessionManager
set_session_name agent_session_id name m = save_locked (record m {
  session_names =
      if name == ""
      then delete agent_session_id m.session_names
      else insert agent_session_id name m.session_names;
})

unfoldable pub get_session_name : String → SessionManager → String
get_session_name agent_session_id m = or_blank (lookup agent_session_id m.session_names)

abbrev meta_or_new : Option UserMeta → UserMeta
meta_or_new none = record { user_name = ""; chat_name = "" }
meta_or_new (some meta) = meta

abbrev pub keep_or : String → String → String
keep_or old new = if new == "" then old else new

unfoldable pub update_user_meta : String → String → String → SessionManager → SessionManager
update_user_meta session_key user_name chat_name m =
    if user_name == "" && chat_name == ""
    then m
    else (let meta = meta_or_new (lookup session_key m.user_meta) in
        record m {
          user_meta =
              insert session_key
                (record {
                  user_name = keep_or meta.user_name user_name;
                  chat_name = keep_or meta.chat_name chat_name;
                })
                m.user_meta;
        })

unfoldable pub get_user_meta : String → SessionManager → Option UserMeta
get_user_meta session_key m = lookup session_key m.user_meta

-- The IDs that a session adds to the set `ids`.
unfoldable pub collect_session_agent_ids : List String → Session → List String
collect_session_agent_ids ids s =
    (if s.agent_session_id == "" then ids else s.agent_session_id ∷ ids) ++ s.past_agent_session_ids

unfoldable pub collect_all : List String → List Session → List String
collect_all ids [] = ids
collect_all ids (s ∷ ss) = collect_all (collect_session_agent_ids ids s) ss

unfoldable pub known_agent_session_ids : SessionManager → Option (List String)
known_agent_session_ids m =
    if m.legacy_data then none else some (collect_all [] (all_sessions m.sessions))

-- The loop over `userSessions`, which skips the users of other channels.
unfoldable pub collect_channel :
    String → Dict Session → List String → Dict (List String) → List String
collect_channel channel_key sessions ids [] = ids
collect_channel channel_key sessions ids ((user_key, sids) ∷ rest) =
    collect_channel channel_key sessions
      (if extract_workspace_channel_key user_key == channel_key
        then collect_all ids (sessions_of sessions sids)
        else ids)
      rest

unfoldable pub known_agent_session_ids_for_session_key :
    String → SessionManager → Option (List String)
known_agent_session_ids_for_session_key session_key m =
    let channel_key = extract_workspace_channel_key session_key in
    if m.legacy_data
    then none
    else if channel_key == ""
    then none
    else some (collect_channel channel_key m.sessions [] m.user_sessions)

-- `idToKey`: a later user overwrites an earlier one.
unfoldable pub assign_all : String → List String → Dict String → Dict String
assign_all user_key [] id_to_key = id_to_key
assign_all user_key (sid ∷ sids) id_to_key =
    assign_all user_key sids (insert sid user_key id_to_key)

abbrev add_active : Option String → List String → List String
add_active none ids = ids
add_active (some id) ids = id ∷ ids

unfoldable pub session_key_map :
    Dict String → Dict (List String) → Dict String × List String → Dict String × List String
session_key_map active [] out = out
session_key_map active ((user_key, sids) ∷ rest) (id_to_key, active_ids) =
    session_key_map active rest
      (assign_all user_key sids id_to_key, add_active (lookup user_key active) active_ids)
