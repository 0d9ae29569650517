-- ===== src/StreamPreview/Quiet.antt =====
-- A preview that is degraded (core/streaming.go): after `freeze`, `discard` or a failed call.
use agent_in_chat_feishu.Shared.{◌≡◌, ◌∙◌, refl, true, String, List, [], ◌∷◌, arith, Option-cases}
use agent_in_chat_feishu.StreamPreview.{
  StreamPreviewCfg, Platform, Call, StreamPreview, cancel_timer_locked, detach_preview, append_text,
  timer_fires, freeze, discard, Act, act, run,
}

-- The calls that send or change a message.
unfoldable pub messages : List Call → List Call
messages [] = []
messages (Call.deleted handle ∷ calls) = messages calls
messages (c ∷ calls) = c ∷ messages calls

module _ (cfg : StreamPreviewCfg) (platform : Platform) (reply_ctx : String)
    (transform : String → String) where
  -- The preview stays degraded, and sends nothing.
  abbrev pub StaysQuiet : StreamPreview → StreamPreview → Type 0
  StaysQuiet sp next = (next.degraded ≡ true) × (messages next.calls ≡ messages sp.calls)

  discard-quiet : (sp : StreamPreview) → StaysQuiet sp (discard cfg platform reply_ctx transform sp)
  unfolding discard messages cancel_timer_locked
  discard-quiet sp = ground (arith, Option-cases sp.preview_msg_id)

  act-quiet :
      (a : Act cfg platform reply_ctx transform) (sp : StreamPreview)
      → sp.degraded ≡ true
      → StaysQuiet sp (act cfg platform reply_ctx transform a sp)
  unfolding act append_text timer_fires freeze detach_preview cancel_timer_locked
  act-quiet (Act.appends text now answer) sp h = ground arith
  act-quiet (Act.fires now answer) sp h = ground arith
  act-quiet (Act.freezes answer) sp h = ground (arith, Option-cases sp.preview_msg_id)
  act-quiet Act.discards sp h = discard-quiet sp
  act-quiet Act.detaches sp h = (h, refl)

-- Once a preview is degraded, no sequence of calls makes it send or change a message again.
pub run-quiet :
    (cfg : StreamPreviewCfg) (platform : Platform) (reply_ctx : String)
    (transform : String → String) (acts : List (Act cfg platform reply_ctx transform))
    (sp : StreamPreview)
    → sp.degraded ≡ true
    → StaysQuiet cfg platform reply_ctx transform sp (run cfg platform reply_ctx transform acts sp)
unfolding run
run-quiet cfg platform reply_ctx transform [] sp h = (h, refl)
run-quiet cfg platform reply_ctx transform (a ∷ acts) sp h =
    let (still, same) = act-quiet cfg platform reply_ctx transform a sp h in
    let (end, rest) = run-quiet cfg platform reply_ctx transform acts _ still in (end, rest ∙ same)
