-- ===== src/SessionManager/Create.antt =====
-- The methods of core/session.go that create and choose sessions.
use agent_in_chat_feishu.Shared.{
  ℕ, Bool, false, ◌||◌, List, [], ◌∷◌, ◌++◌, String, ◌==◌, Option, none, some, if◌then◌else◌,
}
use agent_in_chat_feishu.Shared.Dict.{Dict, lookup, insert, has}
use agent_in_chat_feishu.Session.{Session, set_agent_info}
use agent_in_chat_feishu.SessionManager.Types.{SessionManager, ids_of, session_id, next_counter}
use agent_in_chat_feishu.SessionManager.Store.{save_locked}

abbrev pub new_session_of : String → String → ℕ → Session
new_session_of id name now = record {
  id = id;
  name = name;
  agent_session_id = "";
  agent_type = "";
  past_agent_session_ids = [];
  history = [];
  created_at = now;
  updated_at = now;
  busy = false;
}

-- `nextID` and the entries of the new session, which both ways to create one share.
unfoldable pub register : String → String → ℕ → SessionManager → SessionManager × String
register user_key name now m =
    let counter' = next_counter m.counter in
    let id = session_id counter' in
    (
      record m {
        counter = counter';
        sessions = insert id (new_session_of id name now) m.sessions;
        user_sessions = insert user_key (ids_of user_key m ++ id ∷ []) m.user_sessions;
      },
      id,
    )

abbrev pub set_active : String → String → SessionManager → SessionManager
set_active user_key id m = record m { active_session = insert user_key id m.active_session }

unfoldable pub create_locked : String → String → ℕ → SessionManager → SessionManager × String
create_locked user_key name now m =
    let (m', id) = register user_key name now m in (set_active user_key id m', id)

unfoldable pub new_session : String → String → ℕ → SessionManager → SessionManager × String
new_session user_key name now m =
    let (m', id) = create_locked user_key name now m in (save_locked m', id)

unfoldable pub new_side_session : String → String → ℕ → SessionManager → SessionManager × String
new_side_session user_key name now m =
    let (m', id) = register user_key name now m in (save_locked m', id)

-- The active session of a user, if its entry is still in the map.
abbrev pub active_of : String → SessionManager → Option String
active_of user_key m = elim (lookup user_key m.active_session) [
  | none ↦ none
  | some sid ↦ if has sid m.sessions then some sid else none
]

unfoldable pub get_or_create_active : String → ℕ → SessionManager → SessionManager × String
get_or_create_active user_key now m = elim (active_of user_key m) [
  | some sid ↦ (m, sid)
  | none ↦ new_session user_key "default" now m
]

-- The first of the listed sessions that is in the map and passes the test.
unfoldable pub find_session : (Session → Bool) → Dict Session → List String → Option Session
find_session p sessions [] = none
find_session p sessions (sid ∷ sids) =
    let rest = find_session p sessions sids in
    elim (lookup sid sessions) [ none ↦ rest | some s ↦ if p s then some s else rest ]

unfoldable pub switch_session : String → String → SessionManager → SessionManager × Option String
switch_session user_key target m =
    elim (find_session (λ s. s.id == target || s.name == target) m.sessions (ids_of user_key m)) [
      | none ↦ (m, none)
      | some s ↦ (save_locked (set_active user_key s.id m), some s.id)
    ]

-- A method call on the session under a key, through its pointer.
unfoldable pub on_session : String → (Session → Session) → SessionManager → SessionManager
on_session id f m = elim (lookup id m.sessions) [
  | none ↦ m
  | some s ↦ record m { sessions = insert id (f s) m.sessions }
]

unfoldable pub switch_to_agent_session :
    String → String → String → String → ℕ → SessionManager → SessionManager × String
switch_to_agent_session user_key agent_sid agent_name summary now m =
    elim (find_session (λ s. s.agent_session_id == agent_sid) m.sessions (ids_of user_key m)) [
      | some s ↦ (save_locked (set_active user_key s.id m), s.id)
      | none ↦
          let (m', id) = create_locked user_key summary now m in
          (save_locked (on_session id (set_agent_info agent_sid agent_name summary) m'), id)
    ]
