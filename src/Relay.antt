-- ===== src/Relay.antt =====
-- Messages between the bots of a group chat (core/relay.go, `RelayManager`). Each method holds the
-- lock and is one step. An engine is known by its project's name; what it answers is an argument.
pub mod Bindings
pub mod Restart
pub mod Sending
use Prim.Native.String
use agent_in_chat_feishu.Shared.{
  ℕ, Bool, true, false, not, ◌&&◌, String, ◌==◌, Option, none, some, List, [], ◌∷◌, ◌++◌, ℤ, pos,
  negsuc, contains, if◌then◌else◌, ltb, leb, is_some, map,
}
use agent_in_chat_feishu.Shared.Dict.{Dict, lookup, insert, delete, keys, retain}
use agent_in_chat_feishu.SessionKey.{split_n}
use Prim.Native.String.{count}
use agent_in_chat_feishu.Replies.{take_runes}

pub record RelayBinding : Type 0 where
  pub platform : String
  pub chat_id : String
  -- the display names of the projects' bots
  pub bots : Dict String

-- `file` is the content of the store, and `writable` whether a write succeeds.
pub record RelayManager : Type 0 where
  pub engines : List String
  pub bindings : Dict RelayBinding
  pub store_path : String
  pub timeout : ℕ
  pub file : Option (Dict RelayBinding)
  pub writable : Bool

abbrev pub relay_timeout : ℕ
relay_timeout = 120000000000

unfoldable pub load : RelayManager → RelayManager
load rm =
    if rm.store_path == ""
    then rm
    else elim rm.file [ none ↦ rm | some bindings ↦ record rm { bindings = bindings } ]

-- `filepath.Join(dataDir, "relay_bindings.json")` for a clean directory
unfoldable pub new_relay_manager : String → Option (Dict RelayBinding) → Bool → RelayManager
new_relay_manager data_dir file writable =
    let rm : RelayManager = record {
      engines = [];
      bindings = [];
      store_path = "";
      timeout = relay_timeout;
      file = file;
      writable = writable;
    } in
    if data_dir == ""
    then rm
    else load (record rm { store_path = String.◌++◌ data_dir "/relay_bindings.json" })

unfoldable pub save_locked : RelayManager → RelayManager
save_locked rm =
    if rm.store_path == ""
    then rm
    else if rm.writable
    then record rm { file = some rm.bindings }
    else rm

unfoldable pub register_engine : String → RelayManager → RelayManager
register_engine name rm = record rm {
  engines = if contains rm.engines name then rm.engines else name ∷ rm.engines;
}

unfoldable pub set_timeout : ℤ → RelayManager → RelayManager
set_timeout (pos d) rm = record rm { timeout = d }
set_timeout (negsuc d) rm = record rm { timeout = 0 }

unfoldable pub bind : String → String → Dict String → RelayManager → RelayManager
bind platform chat_id bots rm = save_locked (record rm {
  bindings =
      insert chat_id (record { platform = platform; chat_id = chat_id; bots = bots }) rm.bindings;
})

-- The binding of the chat, or a new one.
unfoldable pub binding_or_new : String → String → Option RelayBinding → RelayBinding
binding_or_new platform chat_id none = record { platform = platform; chat_id = chat_id; bots = [] }
binding_or_new platform chat_id (some binding) = binding

unfoldable pub add_to_bind : String → String → String → RelayManager → RelayManager
add_to_bind platform chat_id project_name rm =
    let binding = binding_or_new platform chat_id (lookup chat_id rm.bindings) in
    save_locked (record rm {
      bindings =
          insert chat_id (record binding { bots = insert project_name project_name binding.bots })
            rm.bindings;
    })

-- The bindings after the bots of one have changed: a binding without bots goes.
unfoldable pub put_bots :
    String → RelayBinding → Dict String → Dict RelayBinding → Dict RelayBinding
put_bots chat_id binding [] bindings = delete chat_id bindings
put_bots chat_id binding (b ∷ bs) bindings =
    insert chat_id (record binding { bots = b ∷ bs }) bindings

-- The case of a chat with a binding.
unfoldable pub remove_bot : String → String → RelayBinding → RelayManager → RelayManager × Bool
remove_bot chat_id project_name binding rm =
    if is_some (lookup project_name binding.bots)
    then (
      save_locked (record rm {
        bindings = put_bots chat_id binding (delete project_name binding.bots) rm.bindings;
      }),
      true,
    )
    else (rm, false)

unfoldable pub remove_from_bind : String → String → RelayManager → RelayManager × Bool
remove_from_bind chat_id project_name rm = elim (lookup chat_id rm.bindings) [
  | none ↦ (rm, false)
  | some binding ↦ remove_bot chat_id project_name binding rm
]

unfoldable pub get_binding : String → RelayManager → Option RelayBinding
get_binding chat_id rm = lookup chat_id rm.bindings

unfoldable pub unbind : String → RelayManager → RelayManager
unbind chat_id rm = save_locked (record rm { bindings = delete chat_id rm.bindings })

unfoldable pub has_engine : String → RelayManager → Bool
has_engine name rm = contains rm.engines name

unfoldable pub list_engine_names : RelayManager → List String
list_engine_names rm = rm.engines

unfoldable pub list_bound_bots : String → String → RelayManager → Option (Dict String)
list_bound_bots chat_id self_project rm = elim (lookup chat_id rm.bindings) [
  | none ↦ none
  | some b ↦ some (retain (λ proj name. not (proj == self_project)) b.bots)
]

pub record RelayRequest : Type 0 where
  pub from : String
  pub to : String
  pub session_key : String
  pub message : String

pub data SendError : Type 0 where
  invalid_session_key no_binding : SendError
  -- with the available targets
  not_bound : List String → SendError
  engine_not_found relay_failed : SendError

-- A message to the group: the engine that posts it, the platform, the key and the text.
pub record Post : Type 0 where
  pub engine : String
  pub platform : String
  pub session_key : String
  pub content : String

pub data Sent : Type 0 where
  failed : SendError → Sent
  response : String → Sent

unfoldable pub truncate_relay : String → ℕ → String
truncate_relay s max_len =
    if leb (count s) max_len then s else String.◌++◌ (take_runes max_len s) "…"

-- The platform and the chat of a key with its parts.
unfoldable pub key_parts : List String → Option (String × String)
key_parts (first ∷ second ∷ third ∷ []) =
    if first == "relay" then some (first, third) else some (first, second)
key_parts (first ∷ second ∷ rest) = some (first, second)
key_parts _ = none

unfoldable pub parse_session_key_parts : String → Option (String × String)
parse_session_key_parts session_key = key_parts (split_n 3 session_key)

-- The display name of a bot, or its project's name.
unfoldable pub name_of : String → Dict String → String
name_of project bots = elim (lookup project bots) [
  | none ↦ project
  | some name ↦ if name == "" then project else name
]

-- `HandleRelay` of an engine: from whom, in which chat, the message, and the answer or an error.
abbrev pub Handler : Type 0
Handler = String → String → String → String → Option String

abbrev pub group_key : String → String → String
group_key platform chat_id = String.◌++◌ platform (String.◌++◌ ":" (String.◌++◌ chat_id ":relay"))

abbrev pub forwarded : RelayRequest → Dict String → String
forwarded req bots = String.◌++◌ "[" (
    String.◌++◌ (name_of req.from bots)
      (String.◌++◌ " → " (String.◌++◌ (name_of req.to bots) (String.◌++◌ "] " req.message))))

abbrev pub answered : RelayRequest → Dict String → String → String
answered req bots text =
    String.◌++◌ "["
      (String.◌++◌ (name_of req.to bots) (String.◌++◌ "] " (truncate_relay text 2000)))

-- What is posted before the target is asked.
unfoldable pub post_request :
    RelayManager → RelayRequest → String → String → Dict String → List Post
post_request rm req platform chat_id bots =
    if contains rm.engines req.from
    then record {
      engine = req.from;
      platform = platform;
      session_key = group_key platform chat_id;
      content = forwarded req bots;
    }
      ∷ []
    else []

-- `Send` from the call of the target on.
unfoldable pub relay :
    Handler → RelayManager → RelayRequest → String → String → Dict String → Sent × List Post
relay handle_relay rm req platform chat_id bots =
    let before = post_request rm req platform chat_id bots in
    elim (handle_relay req.to req.from chat_id req.message) [
      | none ↦ (Sent.failed SendError.relay_failed, before)
      | some text ↦ (
        Sent.response text,
        before
            ++ record {
              engine = req.to;
              platform = platform;
              session_key = group_key platform chat_id;
              content = answered req bots text;
            }
              ∷ [],
      )
    ]

-- `Send` for a chat with a binding.
unfoldable pub send_bound :
    Handler → RelayManager → RelayRequest → String → String → Dict String → Sent × List Post
send_bound handle_relay rm req platform chat_id bots =
    if not (is_some (lookup req.to bots))
    then (
      Sent.failed (SendError.not_bound (keys (retain (λ proj name. not (proj == req.from)) bots))),
      [],
    )
    else if not (contains rm.engines req.to)
    then (Sent.failed SendError.engine_not_found, [])
    else relay handle_relay rm req platform chat_id bots

unfoldable pub send : Handler → RelayRequest → RelayManager → Sent × List Post
send handle_relay req rm = elim (parse_session_key_parts req.session_key) [
  | none ↦ (Sent.failed SendError.invalid_session_key, [])
  | some (platform, chat_id) ↦ elim (lookup chat_id rm.bindings) [
    | none ↦ (Sent.failed SendError.no_binding, [])
    | some binding ↦ send_bound handle_relay rm req platform chat_id binding.bots
  ]
]

-- The methods that change the manager.
pub data Call : Type 0 where
  registers : String → Call
  sets_timeout : ℤ → Call
  binds : String → String → Dict String → Call
  adds : String → String → String → Call
  removes : String → String → Call
  unbinds : String → Call

unfoldable pub apply : Call → RelayManager → RelayManager
apply (Call.registers name) rm = register_engine name rm
apply (Call.sets_timeout d) rm = set_timeout d rm
apply (Call.binds platform chat_id bots) rm = bind platform chat_id bots rm
apply (Call.adds platform chat_id project) rm = add_to_bind platform chat_id project rm
apply (Call.removes chat_id project) rm = (remove_from_bind chat_id project rm).0
apply (Call.unbinds chat_id) rm = unbind chat_id rm

unfoldable pub run : List Call → RelayManager → RelayManager
run [] rm = rm
run (c ∷ cs) rm = run cs (apply c rm)
