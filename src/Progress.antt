-- ===== src/Progress.antt =====
-- The message that shows the progress of a turn (core/progress_compact.go,
-- `compactProgressWriter`). The answer of the platform's call is an argument; `calls` records the
-- calls, the latest first. A missing transform stands for the identity, and a call's deadline is
-- left out.
pub mod Shown
pub mod Window
pub mod Bounds
pub mod Last
pub mod Writer
pub mod Latest
use Prim.Native.Char.{code}
use Prim.Native.String
use Prim.Native.String.{count}
use agent_in_chat_feishu.Unicode.{Unicode}
use agent_in_chat_feishu.Shared.{
  ℕ, ◌+◌, ◌-◌, Bool, true, false, not, ◌||◌, ◌&&◌, String, ◌==◌, Option, none, some, List, [], ◌∷◌,
  ◌++◌, eqb, ltb, leb, is_some, if◌then◌else◌, length, drop, decimal,
}
use agent_in_chat_feishu.Replies.{drop_runes}
use agent_in_chat_feishu.StreamPreview.{Answer, Call}
use agent_in_chat_feishu.ProgressCard.{
  ProgressCardEntry, Json, cut_prefix, or_other, info, thinking, error_kind, running, completed,
  build_progress_card_payload_v2,
}

-- The optional interfaces of the platform and of the reply context.
pub record Target : Type 0 where
  pub style : Option String
  pub style_hint : Option String
  pub updates : Bool
  pub starts : Bool
  pub payload_support : Option Bool
  pub payload_hint : Option Bool

pub record CompactProgressWriter : Type 0 where
  pub enabled : Bool
  pub failed : Bool
  pub style : String
  pub use_payload : Bool
  pub content : String
  pub entries : List String
  pub items : List ProgressCardEntry
  pub state : String
  pub truncated : Bool
  pub last_sent : String
  pub handle : Option String
  pub calls : List Call

abbrev pub compact_progress_max_chars : ℕ
compact_progress_max_chars = 3800

abbrev pub max_entries : ℕ
max_entries = 10

-- `xs[len(xs)-n:]` where there are more than n, and all of them otherwise
abbrev pub last_of {ℓ} : {A : Type ℓ} → ℕ → List A → List A
last_of n xs = drop (length xs - n) xs

unfoldable pub trim_newlines : String → String
trim_newlines String.[] = ""
trim_newlines (String.◌∷◌ c s) =
    let rest = trim_newlines s in if eqb (code c) 10 then rest else String.◌∷◌ c s

abbrev pub or_all : String → Option String → String
or_all s none = s
or_all s (some rest) = rest

unfoldable pub trim_compact_progress_text : String → ℕ → String
trim_compact_progress_text s max_runes =
    let body = or_all s (cut_prefix "…\n" s) in
    if leb max_runes 0
    then s
    else if leb (count body) max_runes
    then body
    else String.◌++◌ "…\n" (trim_newlines (drop_runes (count body - max_runes) body))

-- The lines of an entry after the first are indented.
unfoldable pub indent : String → String
indent String.[] = ""
indent (String.◌∷◌ c s) =
    if eqb (code c) 10 then String.◌++◌ "\n   " (indent s) else String.◌∷◌ c (indent s)

unfoldable pub numbered : ℕ → List String → String
numbered i [] = ""
numbered i (entry ∷ rest) = String.◌++◌ "\n" (
    String.◌++◌ (decimal i) (String.◌++◌ ". " (String.◌++◌ (indent entry) (numbered (i + 1) rest))))

unfoldable pub render_card_progress_markdown_fallback : List String → Bool → String
render_card_progress_markdown_fallback entries truncated = String.◌++◌ "⏳ **Progress**\n" (
    String.◌++◌ (if truncated then "_Showing latest updates only._\n" else "") (numbered 1 entries))

unfoldable pub normalize_progress_style : Unicode → String → String
normalize_progress_style u style =
    let s = u.to_lower (u.trim_space style) in
    if s == "compact" then "compact" else if s == "card" then "card" else "legacy"

unfoldable pub progress_style_for_target : Unicode → Target → String
progress_style_for_target u p = elim p.style_hint [
  | some hint ↦ normalize_progress_style u hint
  | none ↦ elim p.style [ none ↦ "legacy" | some style ↦ normalize_progress_style u style ]
]

unfoldable pub progress_card_payload_for_target : Target → Bool
progress_card_payload_for_target p = elim p.payload_hint [
  | some hint ↦ hint
  | none ↦ elim p.payload_support [ none ↦ false | some supports ↦ supports ]
]

unfoldable pub suppress_standalone_tool_result_event : Unicode → Target → Bool
suppress_standalone_tool_result_event u p = elim p.style [
  | none ↦ false
  | some style ↦ normalize_progress_style u style == "legacy"
]

unfoldable pub new_compact_progress_writer : Unicode → Target → CompactProgressWriter
new_compact_progress_writer u p =
    let style = progress_style_for_target u p in
    let enabled = (style == "compact" || style == "card") && p.updates in
    record {
      enabled = enabled;
      failed = false;
      style = style;
      use_payload = enabled && style == "card" && progress_card_payload_for_target p;
      content = "";
      entries = [];
      items = [];
      state = running;
      truncated = false;
      last_sent = "";
      handle = none;
      calls = [];
    }

-- What a writer has from its turn: the platform, what it replies to, the names, and the transform.
pub record Env : Type 0 where
  pub unicode : Unicode
  pub json : Json
  pub target : Target
  pub reply_ctx : String
  pub agent_name : String
  pub lang : String
  pub transform : String → String
