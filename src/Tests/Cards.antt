-- ===== src/Tests/Cards.antt =====
-- Progress messages on concrete inputs.
use Prim.Native.Char.{code}
use agent_in_chat_feishu.Shared.{
  ◌≡◌, refl, inl, inr, true, false, String, none, some, List, [], ◌∷◌, arith, eqb, ltb, length, map,
  paired, decimal, Bool-cases,
}
use agent_in_chat_feishu.Replies
use agent_in_chat_feishu.StreamPreview.Sent.{latest_text}
use agent_in_chat_feishu.StreamPreview.{Answer}
use agent_in_chat_feishu.ProgressCard.{
  ProgressCardEntry, ProgressCardPayload, Json, cut_prefix, clean_item, clean_items, payload_of,
  contains_text, build_progress_card_payload_v2, infer_legacy_entry_kind,
  parse_progress_card_payload, thinking,
}
use agent_in_chat_feishu.ProgressCard.RoundTrip.{parse-build}
use agent_in_chat_feishu.Progress
use agent_in_chat_feishu.Progress.Writer
use agent_in_chat_feishu.Progress.{
  Env, Target, CompactProgressWriter, new_compact_progress_writer, last_of, max_entries,
  trim_compact_progress_text, trim_newlines, progress_style_for_target, normalize_progress_style,
  indent, numbered, render_card_progress_markdown_fallback,
}
use agent_in_chat_feishu.Progress.Writer.{append_structured, run, Act, is_blank}
use agent_in_chat_feishu.Progress.Shown.{append_structured-run}
use agent_in_chat_feishu.Progress.Window.{kept_items, kept_fallbacks}
use agent_in_chat_feishu.Progress.Latest.{run-last_of}
use agent_in_chat_feishu.Progress.Bounds.{IsShort, run-IsShort}
use agent_in_chat_feishu.Tests.Ascii.{ascii, trim_left, lower}

trims_head : trim_compact_progress_text "abcdef\nghij" 5 ≡ "…\nghij"
unfolding trim_compact_progress_text trim_newlines cut_prefix Replies.drop_runes
trims_head = refl

legacy_kind : infer_legacy_entry_kind "Ran **Tool #2**" ≡ "tool_use"
unfolding infer_legacy_entry_kind contains_text cut_prefix
legacy_kind = refl

lists_entries :
    render_card_progress_markdown_fallback ("a\nb" ∷ []) true
    ≡ "⏳ **Progress**\n_Showing latest updates only._\n\n1. a\n   b"
unfolding render_card_progress_markdown_fallback numbered indent decimal
lists_entries = refl

trim_left_again : (s : String) → trim_left (trim_left s) ≡ trim_left s
unfolding trim_left
trim_left_again String.[] = refl
trim_left_again (String.◌∷◌ c s) = elim (Bool-cases (eqb (code c) b' ')) [
  | inl e ↦ rw e (trim_left_again s)
  | inr e ↦ rw (e, trim_left, e) refl
]

ascii_trimmed : (s : String) → ascii.trim_space (ascii.trim_space s) ≡ ascii.trim_space s
unfolding ascii
ascii_trimmed s = trim_left_again s

abbrev thought : ProgressCardEntry
thought = record {
  kind = thinking;
  text = " Look at it";
  tool = "";
  status = "";
  exit_code = none;
  success = none;
}

-- A JSON that knows one payload.
abbrev one_payload : ProgressCardPayload → Json
one_payload payload = record { marshal = λ p. "{}"; unmarshal = λ s. some payload }

abbrev thought_payload : ProgressCardPayload
thought_payload = record {
  version = 2;
  agent = "CC";
  lang = "en";
  state = "running";
  entries = [];
  items = clean_item ascii thought ∷ [];
  truncated = false;
}

parse-build_example :
    parse_progress_card_payload ascii (one_payload thought_payload) (
      build_progress_card_payload_v2 ascii
        (one_payload thought_payload)
        (thought ∷ [])
        false
        "CC"
        "en"
        "")
    ≡ some
        (record (payload_of ascii
          (one_payload thought_payload)
          (clean_items ascii (thought ∷ []))
          false
          "CC"
          "en"
          "") { entries = map (λ item. item.text) (clean_items ascii (thought ∷ [])) })
unfolding clean_items ascii trim_left
parse-build_example =
    parse-build ascii ascii_trimmed (one_payload thought_payload) (thought ∷ []) false "CC" "en" ""
      (ground arith) refl

abbrev card : Target
card = record {
  style = some "card";
  style_hint = none;
  updates = true;
  starts = true;
  payload_support = none;
  payload_hint = none;
}

abbrev json : Json
json = one_payload thought_payload

abbrev env : Env
env = record {
  unicode = ascii;
  json = json;
  target = card;
  reply_ctx = "om_1";
  agent_name = "CC";
  lang = "en";
  transform = λ s. s;
}

abbrev acts : List (Act env)
acts =
    Act.appends thought "" (Answer.okay (some "om_2"))
    ∷ Act.appends thought "again" (Answer.okay none)
    ∷ Act.finalizes "failed" (Answer.okay none)
    ∷ []

card_style : progress_style_for_target ascii card ≡ "card"
unfolding progress_style_for_target normalize_progress_style ascii trim_left lower paired
card_style = refl

abbrev written : CompactProgressWriter
written = run env acts (new_compact_progress_writer ascii card)

all_fine : written.failed ≡ false
unfolding append_structured run Writer.act Writer.filled Writer.render Writer.add_card
    Writer.kept_item Writer.kept_fallback Writer.shown_text Writer.deliver Writer.started
    Writer.updated Writer.finalize new_compact_progress_writer progress_style_for_target
    normalize_progress_style Progress.progress_card_payload_for_target is_blank ascii trim_left
    lower paired render_card_progress_markdown_fallback numbered indent decimal
    trim_compact_progress_text cut_prefix trim_newlines
all_fine = refl

reported : (append_structured env thought "more" (Answer.okay none) written).1 ≡ true
unfolding append_structured run Writer.act Writer.filled Writer.render Writer.add_card
    Writer.kept_item Writer.kept_fallback Writer.shown_text Writer.deliver Writer.started
    Writer.updated Writer.finalize new_compact_progress_writer progress_style_for_target
    normalize_progress_style Progress.progress_card_payload_for_target is_blank ascii trim_left
    lower paired render_card_progress_markdown_fallback numbered indent decimal
    trim_compact_progress_text cut_prefix trim_newlines
reported = refl

append_structured-run_example :
    latest_text (append_structured env thought "more" (Answer.okay none) written).0.calls
    ≡ (append_structured env thought "more" (Answer.okay none) written).0.content
unfolding is_blank ascii trim_left
append_structured-run_example =
    append_structured-run env acts thought "more" (Answer.okay none) refl reported

run-last_of_example :
    (written.items ≡ last_of max_entries (kept_items env acts))
    × (written.entries ≡ last_of max_entries (kept_fallbacks env acts))
    × (written.truncated ≡ ltb max_entries (length (kept_items env acts)))
run-last_of_example = run-last_of env acts card_style refl all_fine

run-IsShort_example : IsShort written
run-IsShort_example = run-IsShort env acts
