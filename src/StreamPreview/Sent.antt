-- ===== src/StreamPreview/Sent.antt =====
-- What a preview takes for sent, and what the platform has (core/streaming.go).
use Prim.Native.String
use agent_in_chat_feishu.Shared.{
  ℕ, ◌+◌, ◌≡◌, refl, inl, inr, true, false, not, ◌||◌, String, ◌==◌, Option, none, some, List, [],
  ◌∷◌, arith, is_some, Option-cases, if_both,
}
use agent_in_chat_feishu.StreamPreview.{
  StreamPreviewCfg, Platform, Answer, Call, StreamPreview, new_stream_preview, display_text,
  schedule_flush_locked, cancel_timer_locked, detach_preview, start_preview, update_preview,
  flush_locked, throttle, append_text, timer_fires, freeze, discard, Act, act, run, too_little,
  too_early, remaining, interval,
}

-- The text of the latest call that succeeded, as the platform has it.
unfoldable pub latest_text : List Call → String
latest_text [] = ""
latest_text (Call.started text true ∷ calls) = text
latest_text (Call.sent text true ∷ calls) = text
latest_text (Call.updated handle text true ∷ calls) = text
latest_text (c ∷ calls) = latest_text calls

-- Until the preview is degraded, the text taken for sent is the platform's.
unfoldable pub IsSent : StreamPreview → Type 0
IsSent sp = sp.degraded ≡ false → latest_text sp.calls ≡ sp.last_sent_text

module _ (cfg : StreamPreviewCfg) (platform : Platform) (reply_ctx : String)
    (transform : String → String) where
  degraded-IsSent : (sp : StreamPreview) → sp.degraded ≡ true → IsSent sp
  unfolding IsSent
  degraded-IsSent sp e = λ d. cc

  start_preview-IsSent :
      (text : String) (now : ℕ) (answer : Answer) (sp : StreamPreview)
      → IsSent (start_preview cfg platform reply_ctx transform text now answer sp)
  unfolding IsSent start_preview latest_text
  start_preview-IsSent text now Answer.error sp = λ d. cc
  start_preview-IsSent text now (Answer.okay h) sp = λ d. ground arith

  update_preview-IsSent :
      (at text : String) (now : ℕ) (answer : Answer) (sp : StreamPreview)
      → IsSent (update_preview cfg platform reply_ctx transform at text now answer sp)
  unfolding IsSent update_preview latest_text
  update_preview-IsSent at text now Answer.error sp = λ d. cc
  update_preview-IsSent at text now (Answer.okay h) sp = λ d. refl

  flush_locked-IsSent :
      (text : String) (now : ℕ) (answer : Answer) (sp : StreamPreview)
      → IsSent sp
      → IsSent (flush_locked cfg platform reply_ctx transform text now answer sp)
  unfolding flush_locked
  flush_locked-IsSent text now answer sp h =
      if_both IsSent (transform text == sp.last_sent_text || transform text == "") h (
        if_both IsSent (not platform.updates) (degraded-IsSent (record sp { degraded = true }) refl)
          (elim (Option-cases sp.preview_msg_id) [
            | inl e ↦ rw e (start_preview-IsSent (transform text) now answer sp)
            | inr (at, e) ↦ rw e (update_preview-IsSent at (transform text) now answer sp)
          ]))

  -- The timer, the text and the handle do not matter.
  others-IsSent :
      (timer : Option ℕ) (text : String) (handle : Option String) (sp : StreamPreview)
      → IsSent sp
      → IsSent (record sp { timer = timer; full_text = text; preview_msg_id = handle })
  unfolding IsSent
  others-IsSent timer text handle sp h = h

  schedule-IsSent :
      (now delay : ℕ) (sp : StreamPreview) → IsSent sp → IsSent (schedule_flush_locked now delay sp)
  unfolding schedule_flush_locked
  schedule-IsSent now delay sp h =
      if_both IsSent (is_some sp.timer) h
        (others-IsSent (some (now + delay)) sp.full_text sp.preview_msg_id sp h)

  throttle-IsSent :
      (now : ℕ) (answer : Answer) (sp : StreamPreview)
      → IsSent sp
      → IsSent (throttle cfg platform reply_ctx transform now answer sp)
  unfolding throttle cancel_timer_locked
  throttle-IsSent now answer sp h =
      if_both IsSent (too_little cfg platform sp) (schedule-IsSent now (interval cfg platform) sp h)
        (if_both IsSent (too_early cfg platform now sp.last_sent_at)
          (schedule-IsSent now (remaining cfg platform now sp.last_sent_at) sp h)
          (flush_locked-IsSent (display_text cfg platform sp.full_text) now answer
            (record sp { timer = none }) (others-IsSent none sp.full_text sp.preview_msg_id sp h)))

  timer_fires-IsSent :
      (now : ℕ) (answer : Answer) (sp : StreamPreview)
      → IsSent sp
      → IsSent (timer_fires cfg platform reply_ctx transform now answer sp)
  unfolding timer_fires
  timer_fires-IsSent now answer sp h =
      let unset = others-IsSent none sp.full_text sp.preview_msg_id sp h in
      if_both IsSent sp.degraded unset (
        flush_locked-IsSent (display_text cfg platform sp.full_text) now answer
          (record sp { timer = none }) unset)

  act-IsSent :
      (a : Act cfg platform reply_ctx transform) (sp : StreamPreview)
      → IsSent sp
      → IsSent (act cfg platform reply_ctx transform a sp)
  unfolding act append_text freeze discard detach_preview
  act-IsSent (Act.appends text now answer) sp h =
      if_both IsSent (sp.degraded || not cfg.enabled) h (
        throttle-IsSent now answer (record sp { full_text = String.◌++◌ sp.full_text text })
          (others-IsSent sp.timer (String.◌++◌ sp.full_text text) sp.preview_msg_id sp h))
  act-IsSent (Act.fires now answer) sp h =
      if_both IsSent (is_some sp.timer) (timer_fires-IsSent now answer sp h) h
  act-IsSent (Act.freezes answer) sp h =
      degraded-IsSent (freeze cfg platform reply_ctx transform answer sp)
        (ground (arith, Option-cases sp.preview_msg_id))
  act-IsSent Act.discards sp h = degraded-IsSent (discard cfg platform reply_ctx transform sp) refl
  act-IsSent Act.detaches sp h = others-IsSent sp.timer sp.full_text none sp h

  run_from-IsSent :
      (acts : List (Act cfg platform reply_ctx transform)) (sp : StreamPreview)
      → IsSent sp
      → IsSent (run cfg platform reply_ctx transform acts sp)
  unfolding run
  run_from-IsSent [] sp h = h
  run_from-IsSent (a ∷ acts) sp h = run_from-IsSent acts _ (act-IsSent a sp h)

  pub run-IsSent :
      (acts : List (Act cfg platform reply_ctx transform))
      → (run cfg platform reply_ctx transform acts new_stream_preview).degraded ≡ false
      → latest_text (run cfg platform reply_ctx transform acts new_stream_preview).calls
        ≡ (run cfg platform reply_ctx transform acts new_stream_preview).last_sent_text
  unfolding IsSent new_stream_preview latest_text
  run-IsSent acts = run_from-IsSent acts new_stream_preview (λ d. refl)
