-- ===== src/ProgressCard.antt =====
-- The payload of a progress card (core/progress_compact.go): the prefix and the JSON of typed
-- entries. The JSON itself is an argument.
pub mod RoundTrip
use Prim.Native.Char.{code}
use Prim.Native.String
use agent_in_chat_feishu.Unicode.{Unicode}
use agent_in_chat_feishu.Shared.{
  ℕ, Bool, true, false, ◌||◌, ◌&&◌, String, ◌==◌, Option, none, some, List, [], ◌∷◌, ℤ, eqb,
  is_some, if◌then◌else◌, map,
}

abbrev pub running : String
running = "running"

abbrev pub completed : String
completed = "completed"

abbrev pub info : String
info = "info"

abbrev pub thinking : String
thinking = "thinking"

abbrev pub error_kind : String
error_kind = "error"

pub record ProgressCardEntry : Type 0 where
  pub kind : String
  pub text : String
  pub tool : String
  pub status : String
  pub exit_code : Option ℤ
  pub success : Option Bool

pub record ProgressCardPayload : Type 0 where
  pub version : ℕ
  pub agent : String
  pub lang : String
  pub state : String
  pub entries : List String
  pub items : List ProgressCardEntry
  pub truncated : Bool

-- The package `encoding/json` on payloads; a payload is always written.
pub record Json : Type 0 where
  pub marshal : ProgressCardPayload → String
  pub unmarshal : String → Option ProgressCardPayload

abbrev pub progress_card_payload_prefix : String
progress_card_payload_prefix = "__agentchat_progress_card_v1__:"

-- A text without its prefix.
unfoldable pub cut_prefix : String → String → Option String
cut_prefix String.[] s = some s
cut_prefix (String.◌∷◌ p ps) String.[] = none
cut_prefix (String.◌∷◌ p ps) (String.◌∷◌ c s) =
    let rest = cut_prefix ps s in if eqb (code p) (code c) then rest else none

-- `strings.Contains`
unfoldable pub contains_text : String → String → Bool
contains_text part String.[] = is_some (cut_prefix part "")
contains_text part (String.◌∷◌ c s) =
    is_some (cut_prefix part (String.◌∷◌ c s)) || contains_text part s

abbrev pub or_other : String → String → String
or_other a b = if a == "" then b else a

unfoldable pub infer_legacy_entry_kind : String → String
infer_legacy_entry_kind entry =
    if is_some (cut_prefix "💭" entry)
    then thinking
    else if is_some (cut_prefix "🔧" entry) || contains_text "**Tool #" entry
    then "tool_use"
    else if is_some (cut_prefix "🧾" entry)
    then "tool_result"
    else if is_some (cut_prefix "❌" entry)
    then error_kind
    else info

module _ (u : Unicode) where
  -- The entries that are not blank, trimmed.
  unfoldable pub clean_entries : List String → List String
  clean_entries [] = []
  clean_entries (entry ∷ rest) =
      let others = clean_entries rest in
      if u.trim_space entry == "" then others else u.trim_space entry ∷ others

  unfoldable pub clean_item : ProgressCardEntry → ProgressCardEntry
  clean_item item = record item {
    kind = or_other item.kind info;
    text = u.trim_space item.text;
    tool = u.trim_space item.tool;
    status = u.trim_space item.status;
  }

  -- The same loop for the items stands in the builder and in the parser.
  unfoldable pub clean_items : List ProgressCardEntry → List ProgressCardEntry
  clean_items [] = []
  clean_items (item ∷ rest) =
      let others = clean_items rest in
      if u.trim_space item.text == "" then others else clean_item item ∷ others

  module _ (json : Json) where
    abbrev pub with_prefix : ProgressCardPayload → String
    with_prefix payload = String.◌++◌ progress_card_payload_prefix (json.marshal payload)

    unfoldable pub build_progress_card_payload : List String → Bool → String
    build_progress_card_payload entries truncated = elim (clean_entries entries) [
      | [] ↦ ""
      | e ∷ es ↦ with_prefix (record {
        version = 0;
        agent = "";
        lang = "";
        state = "";
        entries = e ∷ es;
        items = [];
        truncated = truncated;
      })
    ]

    abbrev pub payload_of :
        List ProgressCardEntry → Bool → String → String → String → ProgressCardPayload
    payload_of cleaned truncated agent lang state = record {
      version = 2;
      agent = u.trim_space agent;
      lang = lang;
      state = or_other state running;
      entries = [];
      items = cleaned;
      truncated = truncated;
    }

    unfoldable pub build_progress_card_payload_v2 :
        List ProgressCardEntry → Bool → String → String → String → String
    build_progress_card_payload_v2 items truncated agent lang state = elim (clean_items items) [
      | [] ↦ ""
      | i ∷ is ↦ with_prefix (payload_of (i ∷ is) truncated agent lang state)
    ]

    abbrev pub legacy_item : String → ProgressCardEntry
    legacy_item entry = record {
      kind = infer_legacy_entry_kind entry;
      text = entry;
      tool = "";
      status = "";
      exit_code = none;
      success = none;
    }

    -- The items and the entries of a payload, each filled from the other where it is empty.
    unfoldable pub complete :
        List ProgressCardEntry → List String → ProgressCardPayload → Option ProgressCardPayload
    complete [] [] payload = none
    complete [] (e ∷ es) payload = some (record payload {
      state = or_other payload.state running;
      items = map legacy_item (e ∷ es);
      entries = e ∷ es;
    })
    complete (i ∷ is) [] payload = some (record payload {
      state = or_other payload.state running;
      items = i ∷ is;
      entries = map (λ item. item.text) (i ∷ is);
    })
    complete (i ∷ is) (e ∷ es) payload = some (record payload {
      state = or_other payload.state running;
      items = i ∷ is;
      entries = e ∷ es;
    })

    unfoldable pub parse_progress_card_payload : String → Option ProgressCardPayload
    parse_progress_card_payload content = elim (cut_prefix progress_card_payload_prefix content) [
      | none ↦ none
      | some raw ↦ elim (json.unmarshal raw) [
        | none ↦ none
        | some payload ↦
            complete (clean_items payload.items) (clean_entries payload.entries) payload
      ]
    ]
