-- ===== src/SessionManager/Types.antt =====
-- The state of the SessionManager of core/session.go. A `*Session` that a method returns is the
-- entry of the map `sessions`, so it is given by its key. `mu` is held through each method.
use agent_in_chat_feishu.Shared.{
  ℕ, ◌+◌, ◌-◌, ◌^◌, ◌%◌, Bool, List, [], String, Option, none, some, ltb, if◌then◌else◌, decimal,
}
use agent_in_chat_feishu.Shared.Dict.{Dict, lookup}
use agent_in_chat_feishu.Session.{Session}
use Prim.Native.String

pub record UserMeta : Type 0 where
  pub user_name : String
  pub chat_name : String

abbrev pub snapshot_version : ℕ
snapshot_version = 1

-- What is written to disk, as a value: the JSON text is not modelled.
pub record SessionSnapshot : Type 0 where
  pub sessions : Dict Session
  pub active_session : Dict String
  pub user_sessions : Dict (List String)
  pub counter : ℕ
  pub session_names : Dict String
  pub user_meta : Dict UserMeta
  pub past_id_tracking : Bool
  pub legacy_data : Bool
  pub version : ℕ

-- The file at `store_path`: `none` if it is missing or cannot be read as a snapshot. A write
-- takes effect as a whole where the directory can be made and written, and otherwise not at all.
pub record Disk : Type 0 where
  pub file : Option SessionSnapshot
  pub writable : Bool

pub record SessionManager : Type 0 where
  pub sessions : Dict Session
  pub active_session : Dict String
  pub user_sessions : Dict (List String)
  pub session_names : Dict String
  pub user_meta : Dict UserMeta
  pub counter : ℕ  -- int64, as its bit pattern
  pub store_path : String
  pub legacy_data : Bool
  pub disk : Disk

-- `sm.userSessions[userKey]`: a missing key reads as the empty list.
abbrev pub or_empty : Option (List String) → List String
or_empty none = []
or_empty (some ids) = ids

abbrev pub ids_of : String → SessionManager → List String
ids_of u m = or_empty (lookup u m.user_sessions)

-- `%d` of an int64, given by its bit pattern.
unfoldable pub decimal_int64 : ℕ → String
unfolding decimal
decimal_int64 n = if ltb n (2 ^ 63) then decimal n else String.◌++◌ "-" (decimal (2 ^ 64 - n))

unfoldable pub session_id : ℕ → String
unfolding decimal_int64
session_id n = String.◌++◌ "s" (decimal_int64 n)

unfoldable pub next_counter : ℕ → ℕ
next_counter n = (n + 1) % 2 ^ 64
