-- ===== src/Session.antt =====
-- core/session.go, the type Session: one conversation between a user and an agent.
-- A method returns the new session. Its `mu` is held from the first read to the last write, so a
-- method is one step; the time that it reads is an argument. Times are numbers of nanoseconds.
pub mod Ids
pub mod Lock
pub mod History
use agent_in_chat_feishu.Shared.{
  ℕ, ◌-◌, Bool, true, false, not, ◌&&◌, ◌||◌, List, [], ◌∷◌, ◌++◌, String, ◌==◌, ltb, eqb,
  if◌then◌else◌, length, drop, contains, ℤ, pos, negsuc,
}

abbrev pub continue_session : String
continue_session = "__continue__"

pub record HistoryEntry : Type 0 where
  pub role : String
  pub content : String
  pub timestamp : ℕ

pub record Session : Type 0 where
  pub id : String
  pub name : String
  pub agent_session_id : String
  pub agent_type : String
  pub past_agent_session_ids : List String
  pub history : List HistoryEntry
  pub created_at : ℕ
  pub updated_at : ℕ
  pub busy : Bool

-- An ID that names a conversation of the agent: neither empty nor the sentinel.
abbrev pub is_real : String → Bool
is_real i = not (i == "" || i == continue_session)

unfoldable pub try_lock : Session → Session × Bool
try_lock s = if s.busy then (s, false) else (record s { busy = true }, true)

unlock_with : Bool → ℕ → Session → Session
unlock_with update now s =
    let t = record s { busy = false } in if update then record t { updated_at = now } else t

unfoldable pub unlock : ℕ → Session → Session
unfolding unlock_with
unlock now s = unlock_with true now s

unfoldable pub unlock_without_update : ℕ → Session → Session
unfolding unlock_with
unlock_without_update now s = unlock_with false now s

unfoldable pub add_history : String → String → ℕ → Session → Session
add_history role content now s = record s {
  history = s.history ++ record { role = role; content = content; timestamp = now } ∷ [];
}

-- The loop over the past IDs returns at the first equal one.
unfoldable pub record_past_agent_session_id : Session → Session
record_past_agent_session_id s =
    if s.agent_session_id == "" || s.agent_session_id == continue_session
    then s
    else if contains s.past_agent_session_ids s.agent_session_id
    then s
    else record s { past_agent_session_ids = s.past_agent_session_ids ++ s.agent_session_id ∷ [] }

-- Both setters record the current ID if the new one differs.
record_replaced : String → Session → Session
record_replaced new s = if s.agent_session_id == new then s else record_past_agent_session_id s

unfoldable pub set_agent_info : String → String → String → Session → Session
unfolding record_replaced
set_agent_info agent_session_id agent_type name s =
    let new = if agent_session_id == continue_session then "" else agent_session_id in
    record (record_replaced new s) { agent_session_id = new; agent_type = agent_type; name = name }

unfoldable pub set_agent_session_id : String → String → Session → Session
unfolding record_replaced
set_agent_session_id id agent_type s =
    if id == continue_session
    then s
    else record (record_replaced id s) { agent_session_id = id; agent_type = agent_type }

unfoldable pub compare_and_set_agent_session_id : String → String → Session → Session × Bool
compare_and_set_agent_session_id id agent_type s =
    if id == "" || id == continue_session
    then (s, false)
    else if not (s.agent_session_id == "") && not (s.agent_session_id == continue_session)
    then (s, false)
    else (record s { agent_session_id = id; agent_type = agent_type }, true)

unfoldable pub strip_continue_session_sentinel : Session → Session
strip_continue_session_sentinel s =
    if s.agent_session_id == continue_session then record s { agent_session_id = "" } else s

unfoldable pub clear_history : Session → Session
clear_history s = record s { history = [] }

-- `n` is an `int`: zero, a negative number and one above the length all ask for everything.
unfoldable pub get_history : ℤ → Session → List HistoryEntry
get_history (negsuc n) s = s.history
get_history (pos n) s =
    let total = length s.history in
    let n' = if eqb n 0 || ltb total n then total else n in drop (total - n') s.history
