-- ===== src/Progress/Writer.antt =====
-- The methods of `compactProgressWriter` (core/progress_compact.go).
use Prim.Native.String
use Prim.Native.String.{count}
use agent_in_chat_feishu.Shared.{
  Bool, true, false, not, ◌||◌, ◌&&◌, String, ◌==◌, none, some, List, [], ◌∷◌, ◌++◌, ltb,
  if◌then◌else◌, length,
}
use agent_in_chat_feishu.StreamPreview.{Answer, Call, is_okay}
use agent_in_chat_feishu.ProgressCard.{
  ProgressCardEntry, or_other, info, thinking, error_kind, completed,
  build_progress_card_payload_v2,
}
use agent_in_chat_feishu.Progress.{
  Env, CompactProgressWriter, compact_progress_max_chars, max_entries, last_of,
  trim_compact_progress_text, render_card_progress_markdown_fallback,
}

abbrev pub note : Call → CompactProgressWriter → CompactProgressWriter
note call w = record w { calls = call ∷ w.calls }

abbrev pub fail : CompactProgressWriter → CompactProgressWriter × Bool
fail w = (record w { failed = true }, false)

module _ (env : Env) where
  -- Of thoughts, errors and information, the text is transformed.
  abbrev pub is_prose : String → Bool
  is_prose kind = kind == thinking || kind == error_kind || kind == info

  unfoldable pub shown_text : String → String → String
  shown_text kind text = if is_prose kind then env.transform text else text

  -- The item as it is kept, from its text or the fallback.
  unfoldable pub kept_item : ProgressCardEntry → String → ProgressCardEntry
  kept_item item fallback = record item {
    kind = or_other item.kind info;
    text =
        shown_text item.kind
          (or_other (env.unicode.trim_space item.text) (env.unicode.trim_space fallback));
    tool = env.unicode.trim_space item.tool;
    status = env.unicode.trim_space item.status;
  }

  unfoldable pub kept_fallback : ProgressCardEntry → String → String
  kept_fallback item fallback =
      shown_text item.kind
        (or_other (env.unicode.trim_space fallback) (env.unicode.trim_space item.text))

  unfoldable pub is_blank : ProgressCardEntry → String → Bool
  is_blank item fallback =
      env.unicode.trim_space item.text == "" && env.unicode.trim_space fallback == ""

  unfoldable pub payload_content : CompactProgressWriter → String
  payload_content w =
      build_progress_card_payload_v2 env.unicode env.json w.items w.truncated env.agent_name
        env.lang w.state

  unfoldable pub add_card :
      ProgressCardEntry → String → CompactProgressWriter → CompactProgressWriter
  add_card item fallback w =
      let items = w.items ++ item ∷ [] in
      let entries = w.entries ++ fallback ∷ [] in
      record w {
        items = last_of max_entries items;
        entries = last_of max_entries entries;
        truncated = ltb max_entries (length items) || ltb max_entries (length entries);
      }

  -- The content of a card.
  unfoldable pub render : CompactProgressWriter → CompactProgressWriter
  render w = record w {
    content =
        if w.use_payload
        then payload_content w
        else trim_compact_progress_text
            (render_card_progress_markdown_fallback w.entries w.truncated)
            compact_progress_max_chars;
  }

  unfoldable pub add_text : String → CompactProgressWriter → CompactProgressWriter
  add_text fallback w = record w {
    content =
        trim_compact_progress_text
          (if w.content == ""
            then fallback
            else String.◌++◌ w.content (String.◌++◌ "\n\n" fallback))
          compact_progress_max_chars;
  }

  -- The writer with the new content, before it is sent.
  unfoldable pub filled : ProgressCardEntry → String → CompactProgressWriter → CompactProgressWriter
  filled item fallback w =
      if w.style == "card"
      then render (add_card (kept_item item fallback) (kept_fallback item fallback) w)
      else add_text (kept_fallback item fallback) w

  unfoldable pub started : Answer → CompactProgressWriter → CompactProgressWriter × Bool
  started Answer.error w = fail w
  started (Answer.okay none) w = fail w
  started (Answer.okay (some h)) w = (record w { handle = some h; last_sent = w.content }, true)

  unfoldable pub sent : Answer → CompactProgressWriter → CompactProgressWriter × Bool
  sent Answer.error w = fail w
  sent (Answer.okay h) w = (record w { handle = some env.reply_ctx; last_sent = w.content }, true)

  unfoldable pub updated : Answer → CompactProgressWriter → CompactProgressWriter × Bool
  updated Answer.error w = fail w
  updated (Answer.okay h) w = (record w { last_sent = w.content }, true)

  -- The first message where there is none, and an update otherwise.
  unfoldable pub deliver : Answer → CompactProgressWriter → CompactProgressWriter × Bool
  deliver answer w = if w.content == w.last_sent then (w, true) else elim w.handle [
    | some handle ↦ updated answer (note (Call.updated handle w.content (is_okay answer)) w)
    | none ↦
        if env.target.starts
        then started answer (note (Call.started w.content (is_okay answer)) w)
        else sent answer (note (Call.sent w.content (is_okay answer)) w)
  ]

  unfoldable pub append_structured :
      ProgressCardEntry → String → Answer → CompactProgressWriter → CompactProgressWriter × Bool
  append_structured item fallback answer w =
      let next = filled item fallback w in
      if not w.enabled || w.failed
      then (w, false)
      else if is_blank item fallback
      then (w, true)
      else if w.style == "card" && w.use_payload && next.content == ""
      then fail next
      else deliver answer next

  unfoldable pub append_event :
      String
      → String
      → String
      → String
      → Answer
      → CompactProgressWriter
      → CompactProgressWriter × Bool
  append_event kind text tool fallback answer w =
      append_structured
        (record {
          kind = kind;
          text = text;
          tool = tool;
          status = "";
          exit_code = none;
          success = none;
        })
        fallback answer w

  unfoldable pub append : String → Answer → CompactProgressWriter → CompactProgressWriter × Bool
  append item answer w = append_event info item "" item answer w

  -- `Finalize` where the state changes.
  unfoldable pub change_state :
      String → String → Answer → CompactProgressWriter → CompactProgressWriter × Bool
  change_state handle state answer w =
      let moved = record w { state = state } in
      let next = record moved { content = payload_content moved } in
      if next.content == "" || next.content == next.last_sent
      then (next, not (next.content == ""))
      else updated answer (note (Call.updated handle next.content (is_okay answer)) next)

  unfoldable pub finalize : String → Answer → CompactProgressWriter → CompactProgressWriter × Bool
  finalize state answer w =
      if not w.enabled || w.failed || not (w.style == "card") || not w.use_payload
      then (w, false)
      else elim w.handle [
        | none ↦ (w, false)
        | some handle ↦
            if w.state == or_other state completed
            then (w, true)
            else change_state handle (or_other state completed) answer w
      ]

  pub data Act : Type 0 where
    appends : ProgressCardEntry → String → Answer → Act
    finalizes : String → Answer → Act

  unfoldable pub act : Act → CompactProgressWriter → CompactProgressWriter × Bool
  act (Act.appends item fallback answer) w = append_structured item fallback answer w
  act (Act.finalizes state answer) w = finalize state answer w

  unfoldable pub run : List Act → CompactProgressWriter → CompactProgressWriter
  run [] w = w
  run (a ∷ acts) w = run acts (act a w).0
